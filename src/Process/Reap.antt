-- ===== src/Process/Reap.antt =====
-- `do_wait` for any child.
use mathlib.Core.Path.{subst}
use nk_os_team.Prelude.{
  ℕ, zero, suc, ◌-◌, ◌<◌, ◌≡◌, refl, sym, ap, ◌≢◌, inl, inr, true, false, Option, none, some, List,
  [], ◌∷◌, ◌++◌, arith, ==_of_ne, Bool-cases, ◌>>=◌, length, without, All, All-right, Fresh,
  Distinct,
}
use nk_os_team.Sched.{is_zombie}
use nk_os_team.Process.{Task, Table, kfree, unhash_proc, remove_links, find_proc}
use nk_os_team.Process.Lookup.{IsTable, Has, find_proc-none}
use nk_os_team.Process.Listed.{SamePid, IsListed-kept, IsListed-remove, gone_Fresh, pids_kept}
use nk_os_team.Process.Family.{IsFamily, IsSiblings}
use nk_os_team.Process.Family.Splice.{leave_family-IsFamily}
use nk_os_team.Process.Calls.{
  Wait, reaped, asleep, failed, do_wait, first_zombie, conclude, reap, is_some, sleep_for_child,
  e_bad_proc,
}

abbrev pub IsAlive : Table → ℕ → Type 0
IsAlive t p = is_zombie (t.kernel.run.procs p).state ≡ false

-- `current` has the children `cs`, which are in the table, and of which none is idle or `initproc`.
pub record CanWait (t : Table) (cs : List ℕ) : Type 0 where
  pub table : IsTable t
  pub family : IsFamily t.tasks t.kernel.current cs
  pub distinct : Distinct cs
  pub listed : All (λ c. Has c t.proc_list) cs
  pub mortal : All (λ c. (c ≢ t.kernel.idleproc) × (c ≢ t.initproc)) cs

-- How a call ends.
pub data Waited (t : Table) (cs : List ℕ) : Option (Table × Wait) → Type 0 where
  childless : cs ≡ [] → Waited t cs (some (t, failed e_bad_proc))
  all_alive : cs ≢ [] → All (IsAlive t) cs → Waited t cs (some (sleep_for_child t, asleep))
  one_reaped :
      (xs : List ℕ) (c : ℕ) (ys : List ℕ) (t' : Table)
      → cs ≡ xs ++ c ∷ ys
      → All (IsAlive t) xs
      → is_zombie (t.kernel.run.procs c).state ≡ true
      → IsTable t'
      → IsFamily t'.tasks t.kernel.current (xs ++ ys)
      → find_proc t' (t.tasks c).pid ≡ none
      → t'.kernel ≡ t.kernel
      → Waited t cs (some (t', reaped (t.tasks c).exit_code))

data Scanned (t : Table) (cs : List ℕ) : Option (Option ℕ) → Type 0 where
  nobody : All (IsAlive t) cs → Scanned t cs (some none)
  body :
      (xs : List ℕ) (c : ℕ) (ys : List ℕ)
      → cs ≡ xs ++ c ∷ ys
      → All (IsAlive t) xs
      → is_zombie (t.kernel.run.procs c).state ≡ true
      → Scanned t cs (some (some c))

Scanned-behind :
    (t : Table) (x : ℕ) (cs : List ℕ) {r : Option (Option ℕ)}
    → IsAlive t x
    → Scanned t cs r
    → Scanned t (x ∷ cs) r
Scanned-behind t x cs a (nobody h) = nobody (a, h)
Scanned-behind t x cs a (body xs c ys e h z) = body (x ∷ xs) c ys (ap (λ l. x ∷ l) e) (a, h) z

-- The scan ends if it has fuel for one round more than there are children.
first_zombie-Scanned :
    (fuel : ℕ) (t : Table) (q : ℕ) (prev cur : Option ℕ) (cs : List ℕ)
    → IsSiblings t.tasks q prev cur cs
    → length cs < fuel
    → Scanned t cs (first_zombie fuel t cur)
unfolding first_zombie
first_zombie-Scanned zero t q prev cur cs s l = absurd (omega (arith, l))
first_zombie-Scanned (suc fuel) t q prev cur [] s l = rw s (nobody tt)
first_zombie-Scanned (suc fuel) t q prev cur (c ∷ cs) s l =
    elim (Bool-cases (is_zombie (t.kernel.run.procs c).state)) [
      | inl z ↦ rw (s.0, first_zombie, z) (body [] c cs refl tt z)
      | inr z ↦
          rw (s.0, first_zombie, z)
            (Scanned-behind t c cs z
              (first_zombie-Scanned fuel t q (some c) (t.tasks c).optr cs s.3 (omega (arith, l))))
    ]

module _ (t : Table) (xs : List ℕ) (c : ℕ) (ys : List ℕ) (v : CanWait t (xs ++ c ∷ ys)) where
  reap-Waited :
      All (IsAlive t) xs
      → is_zombie (t.kernel.run.procs c).state ≡ true
      → Waited t (xs ++ c ∷ ys) (reap t c)
  unfolding remove_links unhash_proc
  reap-Waited a z =
      let (ts, e, f, p) =
        leave_family-IsFamily t.tasks t.kernel.current c xs ys v.family v.distinct in
      let h = (All-right (λ x. Has x t.proc_list) xs (c ∷ ys) v.listed).0 in
      let m =
        (All-right (λ x. (x ≢ t.kernel.idleproc) × (x ≢ t.initproc)) xs (c ∷ ys) v.mortal).0 in
      let kept = all_pids ts p in
      let t' =
        kfree
          (record t {
            hash_list = λ x. without c (t.hash_list x);
            proc_list = without c t.proc_list;
            tasks = ts;
            nr_process = t.nr_process - 1;
          })
          c in
      let k : IsTable t' =
        IsListed-kept t.tasks ts (without c t.proc_list) t'.hash_list t.pids (t.nr_process - 1)
          (kept (without c t.proc_list))
          (IsListed-remove t.tasks c t.proc_list t.hash_list t.pids t.nr_process h v.table) in
      rw (==_of_ne c t.kernel.idleproc m.0, ==_of_ne c t.initproc m.1, e)
        (one_reaped xs c ys t' refl a z k f
          (find_proc-none t' (t.tasks c).pid k (
            subst (Fresh (t.tasks c).pid)
              (sym (pids_kept t.tasks ts (without c t.proc_list) (kept (without c t.proc_list))))
              (gone_Fresh t.tasks c t.proc_list h v.table.distinct)))
          refl)
    where
      all_pids :
          (ts : ℕ → Task)
          → ((z : ℕ) → (ts z).pid ≡ (t.tasks z).pid)
          → (ps : List ℕ) → All (SamePid t.tasks ts) ps
      all_pids ts p [] = tt
      all_pids ts p (x ∷ ps) = (p x, all_pids ts p ps)

conclude-Waited :
    (t : Table) (cs : List ℕ) (r : Option (Option ℕ))
    → CanWait t cs
    → Scanned t cs r
    → Waited t cs (r >>= λ z. conclude t (is_some (t.tasks t.kernel.current).cptr) z)
conclude-Waited t [] r v (nobody a) = rw (v.family) (childless refl)
conclude-Waited t (c ∷ cs) r v (nobody a) = rw (v.family.0) (all_alive (λ e. cc e) a)
conclude-Waited t cs r v (body xs c ys e a z) =
    subst (λ l. CanWait t l → Waited t l (reap t c)) (sym e) (λ w. reap-Waited t xs c ys w a z) v

-- `do_wait` for any child, with fuel for one round more than there are children, ends. It fails
-- without children, sleeps if all are alive, and else takes the first zombie from the table, its
-- family and the lists of pids, so that its pid is no longer found, and gives its exit code.
pub do_wait_lem :
    (fuel : ℕ) (t : Table) (cs : List ℕ)
    → CanWait t cs
    → length cs < fuel
    → Waited t cs (do_wait fuel t 0 true)
unfolding do_wait
do_wait_lem fuel t cs v l =
    conclude-Waited t cs (first_zombie fuel t (t.tasks t.kernel.current).cptr) v (
      first_zombie-Scanned fuel t t.kernel.current none (t.tasks t.kernel.current).cptr cs v.family
        l)
