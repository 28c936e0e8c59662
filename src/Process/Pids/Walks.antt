-- ===== src/Process/Pids/Walks.antt =====
-- The walks of `get_pid` along the list: they end, at a pid that is free.
use mathlib.Core.Path.{subst}
use nk_os_team.Prelude.{
  ℕ, zero, suc, ◌+◌, ◌-◌, ◌≤◌, ◌<◌, ◌≡◌, refl, sym, ◌∙◌, ◌≢◌, ◌⊎◌, inl, inr, Bool, true, false,
  ◌&&◌, some, List, [], ◌∷◌, arith, ltb, leb, ◌==◌, if◌then◌else◌, ==_iff, ltb→lt, Bool-cases, All,
  Fresh,
}
use nk_os_team.Process.Pids.{PidState, Walk, done, again, max_pid, start_over, lower, walk, search}

-- No pid of the list is between `last_pid` and `next_safe`.
abbrev pub IsApart : PidState → List ℕ → Type 0
IsApart s ps = All (λ p. (p ≤ s.last_pid) ⊎ (s.next_safe ≤ p)) ps

-- What holds between calls.
pub record IsPids (s : PidState) (ps : List ℕ) : Type 0 where
  pub apart : IsApart s ps
  pub low : 0 < s.last_pid
  pub high : s.next_safe ≤ max_pid

-- In a walk, the pids passed differ from `last_pid` too.
abbrev pub Passed : PidState → List ℕ → Type 0
Passed s ps = All (λ p. (p < s.last_pid) ⊎ (s.next_safe ≤ p)) ps

pub record InWalk (s : PidState) : Type 0 where
  pub low : 0 < s.last_pid
  pub below : s.last_pid < s.next_safe
  pub high : s.next_safe ≤ max_pid

-- How far `last_pid` is from a free pid `f`, which it comes to after the pids above it.
abbrev pub left : ℕ → PidState → ℕ
left f s = if leb s.last_pid f then f - s.last_pid else (max_pid - s.last_pid) + f

data Walked (s : PidState) (qs : List ℕ) : Walk → Type 0 where
  found :
      (s' : PidState)
      → InWalk s'
      → s.last_pid ≤ s'.last_pid
      → s'.next_safe ≤ s.next_safe
      → Passed s' qs
      → Walked s qs (done s')
  repeated :
      (s' : PidState)
      → InWalk s'
      → ((f : ℕ) → Fresh f qs → 0 < f → f < max_pid → left f s' < left f s)
      → Walked s qs (again s')

start_over-InWalk : (last : ℕ) → InWalk (start_over (last + 1))
start_over-InWalk last = record { low = ground arith; below = ground arith; high = omega arith }

start_over-left :
    (s : PidState) (f : ℕ)
    → InWalk s
    → f ≢ s.last_pid
    → 0 < f
    → f < max_pid
    → s.next_safe ≤ s.last_pid + 1
    → left f (start_over (s.last_pid + 1)) < left f s
start_over-left s f i n a b c = ground (arith, i.below, i.high)

next-left :
    (s : PidState) (f : ℕ)
    → InWalk s
    → f ≢ s.last_pid
    → left f (record s { last_pid = s.last_pid + 1 }) ≤ left f s
next-left s f i n = ground (arith, i.below, i.high)

lower-InWalk : (s : PidState) (p : ℕ) → InWalk s → InWalk (lower s p)
lower-InWalk s p i = by_test (ltb s.last_pid p) (ltb p s.next_safe) refl refl
  where
    by_test :
        (a b : Bool)
        → ltb s.last_pid p ≡ a
        → ltb p s.next_safe ≡ b
        → InWalk (if a && b then record s { next_safe = p } else s)
    by_test true true e e' = record {
      low = i.low;
      below = ltb→lt _ _ e;
      high = ground (arith, e', i.high);
    }
    by_test true false e e' = i
    by_test false b e e' = i

lower-next : (s : PidState) (p : ℕ) → (lower s p).last_pid ≡ s.last_pid
lower-next s p = ground arith

lower-past :
    (s : PidState) (p : ℕ)
    → p ≢ s.last_pid
    → ((lower s p).next_safe ≤ s.next_safe) × ((p < s.last_pid) ⊎ ((lower s p).next_safe ≤ p))
lower-past s p n = ground arith

-- The steps of a walk: `last_pid` is in use, or another pid is passed.
walk-same :
    (s : PidState) (p : ℕ) (ps : List ℕ) {w : Walk}
    → p ≡ s.last_pid
    → Walked (record s { last_pid = s.last_pid + 1 }) ps w
    → InWalk s
    → Walked s (p ∷ ps) w
walk-same s p ps e (found s' j a b k) i =
    found s' j (omega (arith, a)) b (inl (omega (arith, a, e)), k)
walk-same s p ps e (repeated s' j k) i =
    repeated s' j (λ f h a b. omega (arith, next-left s f i (λ q. h.0 (q ∙ sym e)), k f h.1 a b))

walk-other :
    (s : PidState) (p : ℕ) (ps : List ℕ) {w : Walk}
    → p ≢ s.last_pid
    → Walked (lower s p) ps w
    → Walked s (p ∷ ps) w
walk-other s p ps n (found s' j a b k) =
    let (c, d) = lower-past s p n in
    let e = lower-next s p in
    found s' j (omega (arith, a, e)) (omega (arith, b, c))
      (elim d [ inl x ↦ inl (omega (arith, a, e)) | inr x ↦ inr (omega (arith, b, x)) ], k)
walk-other s p ps n (repeated s' j k) =
    let e = lower-next s p in
    repeated s' j (λ f h a b.
      subst (λ l. left f s' < (if leb l f then f - l else (max_pid - l) + f)) e (k f h.1 a b))

walk-Walked : (s : PidState) (qs : List ℕ) → InWalk s → Walked s qs (walk s qs)
unfolding walk
walk-Walked s [] i = found s i (omega arith) (omega arith) tt
walk-Walked s (p ∷ ps) i = elim (Bool-cases (p == s.last_pid)) [
  | inl e ↦
      let e' = (==_iff p s.last_pid).0 e in
      elim (Bool-cases (leb s.next_safe (s.last_pid + 1))) [
        | inl l ↦
            rw (e, l)
              (repeated (start_over (s.last_pid + 1)) (start_over-InWalk s.last_pid)
                (λ f h a b. start_over-left s f i (λ q. h.0 (q ∙ sym e')) a b (ground (arith, l))))
        | inr l ↦
            rw (e, l)
              (walk-same s p ps e'
                (walk-Walked (record s { last_pid = s.last_pid + 1 }) ps
                  (record { low = omega arith; below = ground (arith, l); high = i.high }))
                i)
      ]
  | inr e ↦
      rw e (walk-other s p ps (ground (arith, e)) (walk-Walked (lower s p) ps (lower-InWalk s p i)))
]

pub search_end :
    (fuel : ℕ) (s : PidState) (ps : List ℕ) (f : ℕ)
    → InWalk s
    → Fresh f ps
    → 0 < f
    → f < max_pid
    → left f s < fuel
    → (s' : PidState) × (search fuel s ps ≡ some s') × InWalk s' × Passed s' ps
unfolding search
search_end zero s ps f i h a b l = absurd (omega (arith, l))
search_end (suc fuel) s ps f i h a b l =
    by_walk (walk s ps) (walk-Walked s ps i) (λ s' i' k. search_end fuel s' ps f i' h a b k)
  where
    by_walk :
        (w : Walk)
        → Walked s ps w
        → ((s' : PidState)
            → InWalk s'
            → left f s' < fuel
            → (s'' : PidState) × (search fuel s' ps ≡ some s'') × InWalk s'' × Passed s'' ps)
        → (s' : PidState) × ((elim w [ done s'' ↦ some s'' | again s'' ↦ search fuel s'' ps ])
            ≡ some s')
          × InWalk s'
          × Passed s' ps
    by_walk _ (found s' i' _ _ k) ih = (s', refl, i', k)
    by_walk _ (repeated s' i' k) ih = ih s' i' (omega (arith, l, k f h a b))
