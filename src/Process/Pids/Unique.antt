-- ===== src/Process/Pids/Unique.antt =====
-- `get_pid` gives a pid that is not in use.
use nk_os_team.Prelude.{
  ℕ, ◌+◌, ◌-◌, ◌*◌, ◌≤◌, ◌<◌, ◌≡◌, refl, inl, inr, some, List, [], ◌∷◌, arith, leb, Bool-cases,
  length, Fresh,
}
use nk_os_team.Process.Pids.{PidState, max_pid, search, get_pid, max_process}
use nk_os_team.Process.Pids.Free.{free_pid}
use nk_os_team.Process.Pids.Walks.{IsApart, IsPids, InWalk, Passed, search_end}

-- The pid that is found, with the state after the call.
pub record Picked (s' : PidState) (ps : List ℕ) : Type 0 where
  pub positive : 0 < s'.last_pid
  pub below_max : s'.last_pid < max_pid
  pub unused : Fresh s'.last_pid ps
  pub again_ready : IsPids s' (s'.last_pid ∷ ps)

Passed-Fresh :
    (s : PidState) (ps : List ℕ) → s.last_pid < s.next_safe → Passed s ps → Fresh s.last_pid ps
Passed-Fresh s [] l h = tt
Passed-Fresh s (p ∷ ps) l h =
    (elim (h.0) [ inl a ↦ omega (arith, a) | inr a ↦ omega (arith, a, l) ], Passed-Fresh s ps l h.1)

Passed-IsApart : (s : PidState) (ps : List ℕ) → Passed s ps → IsApart s ps
Passed-IsApart s [] h = tt
Passed-IsApart s (p ∷ ps) h =
    (elim (h.0) [ inl a ↦ inl (omega (arith, a)) | inr a ↦ inr a ], Passed-IsApart s ps h.1)

Passed-Picked : (s : PidState) (ps : List ℕ) → InWalk s → Passed s ps → Picked s ps
Passed-Picked s ps i h = record {
  positive = i.low;
  below_max = omega (arith, i.below, i.high);
  unused = Passed-Fresh s ps i.below h;
  again_ready = record {
    apart = (inl (omega arith), Passed-IsApart s ps h);
    low = i.low;
    high = i.high;
  };
}

search-Picked :
    (fuel : ℕ) (last : ℕ) (ps : List ℕ)
    → 0 < last
    → last < max_pid
    → length ps ≤ max_process
    → 2 * max_pid ≤ fuel
    → (s' : PidState) × (search fuel (record { next_safe = max_pid; last_pid = last }) ps ≡ some s')
      × Picked s' ps
search-Picked fuel last ps a b n l =
    let (f, c, d, h) = free_pid (max_pid - 1) ps (omega (arith, n)) in
    let (s', e, i, k) =
      search_end fuel (record { next_safe = max_pid; last_pid = last }) ps f
        (record { low = a; below = b; high = omega arith }) h c (omega (arith, d))
        (ground (arith, d, l)) in
    (s', e, Passed-Picked s' ps i k)

-- The next pid is free at once if it is below `next_safe`.
IsApart-Passed :
    (s : PidState) (ps : List ℕ) → IsApart s ps → Passed (record s { last_pid = s.last_pid + 1 }) ps
IsApart-Passed s [] h = tt
IsApart-Passed s (p ∷ ps) h =
    (elim (h.0) [ inl a ↦ inl (omega (arith, a)) | inr a ↦ inr a ], IsApart-Passed s ps h.1)

-- With at most `MAX_PROCESS` processes, and fuel for two rounds through the pids, `get_pid` ends. The
-- pid is from 1 to `MAX_PID - 1`, no process has it, and the static variables are right for the next
-- call when the new process has it.
pub get_pid_lem :
    (fuel : ℕ) (s : PidState) (ps : List ℕ)
    → IsPids s ps
    → length ps ≤ max_process
    → 2 * max_pid ≤ fuel
    → (s' : PidState) × (get_pid fuel s ps ≡ some s') × Picked s' ps
unfolding get_pid
get_pid_lem fuel s ps k n l = elim (Bool-cases (leb max_pid (s.last_pid + 1))) [
  | inl e ↦ rw e (search-Picked fuel 1 ps (omega arith) (omega arith) n l)
  | inr e ↦ elim (Bool-cases (leb s.next_safe (s.last_pid + 1))) [
    | inl e' ↦
        rw (e, e') (search-Picked fuel (s.last_pid + 1) ps (omega arith) (ground (arith, e)) n l)
    | inr e' ↦
        rw (e, e')
          (
            record s { last_pid = s.last_pid + 1 },
            refl,
            Passed-Picked (record s { last_pid = s.last_pid + 1 }) ps
                (record { low = omega arith; below = ground (arith, e'); high = k.high })
                (IsApart-Passed s ps k.apart),
          )
  ]
]
