-- ===== src/Timer/Expire.antt =====
-- `run_timer_list`: every deadline loses a tick, and the timers that reach 0 wake their processes.
use nk_os_team.Prelude.{
  ◌>>=◌, ℕ, zero, suc, ◌+◌, ◌-◌, ◌<◌, ◌≡◌, refl, sym, ap, ◌∙◌, inl, inr, true, false, Option, none,
  some, List, [], ◌∷◌, arith, ◌==◌, if◌then◌else◌, ==_iff, ==_of_ne, Bool-cases, length, All, Fresh,
  link-ne-list, pred_suc,
}
use mathlib.Core.Path.{subst, fun_ext, ap₂}
use native.Mathlib.Nat.{add_assoc}
use nk_os_team.Links.Members.{Holds-head, Holds-next, Holds-Distinct}
use nk_os_team.Sched.{Kernel, SchedClass, sched_class_proc_tick}
use nk_os_team.Timer.{
  Timer, Timers, timer_list, timer_link, set_expires, pass_on, del_timer, wake, expire,
  run_timer_list,
}
use nk_os_team.Timer.Deadlines.{deadlines, Fits, IsTimers, deadlines-same}
use nk_os_team.Timer.Delete.{del_timer_lem}

-- What one tick leaves of the deadlines, and the timers that fire.
abbrev pub tick_due : List (ℕ × ℕ) → List (ℕ × ℕ)
tick_due [] = []
tick_due ((t, d) ∷ ds) = if d == 1 then tick_due ds else (t, d - 1) ∷ tick_due ds

abbrev pub due_now : List (ℕ × ℕ) → List ℕ
due_now [] = []
due_now ((t, d) ∷ ds) = if d == 1 then t ∷ due_now ds else due_now ds

abbrev pub IsLive : List (ℕ × ℕ) → Type 0
IsLive = All λ p. 0 < p.1

-- The front of the list that has run out, and what is behind it.
abbrev fired : (ℕ → Timer) → List ℕ → List ℕ
fired ts [] = []
fired ts (t ∷ q) = if (ts t).expires == 0 then t ∷ fired ts q else []

abbrev rest : (ℕ → Timer) → List ℕ → List ℕ
rest ts [] = []
rest ts (t ∷ q) = if (ts t).expires == 0 then rest ts q else t ∷ q

later_tick :
    (ts : ℕ → Timer) (e : ℕ) (q : List ℕ)
    → 0 < e
    → tick_due (deadlines ts (1 + e) q) ≡ deadlines ts e q
later_tick ts e [] h = refl
later_tick ts e (t ∷ q) h = ground (arith, later_tick ts (e + (ts t).expires) q (omega arith))

later_now : (ts : ℕ → Timer) (e : ℕ) (q : List ℕ) → 0 < e → due_now (deadlines ts (1 + e) q) ≡ []
later_now ts e [] h = refl
later_now ts e (t ∷ q) h = ground (arith, later_now ts (e + (ts t).expires) q (omega arith))

rest_due : (ts : ℕ → Timer) (q : List ℕ) → deadlines ts 0 (rest ts q) ≡ tick_due (deadlines ts 1 q)
rest_due ts [] = refl
rest_due ts (t ∷ q) = ground (arith, rest_due ts q, later_tick ts (ts t).expires q)

fired_now : (ts : ℕ → Timer) (q : List ℕ) → fired ts q ≡ due_now (deadlines ts 1 q)
fired_now ts [] = refl
fired_now ts (t ∷ q) = ground (arith, fired_now ts q, later_now ts (ts t).expires q)

run_out : (s : Timers) (t : ℕ) → (s.timers t).expires ≡ 0 → (del_timer s t).timers ≡ s.timers
unfolding del_timer pass_on
run_out s t e = ground arith

-- The first timer loses a tick: seen a tick later, all deadlines are as they were.
abbrev one_less : Timers → ℕ → Timers
one_less s t = set_expires s t ((s.timers t).expires - 1)

one_less-deadlines :
    (s : Timers) (t : ℕ) (q : List ℕ)
    → 0 < (s.timers t).expires
    → Fresh t q
    → deadlines (one_less s t).timers 1 (t ∷ q) ≡ deadlines s.timers 0 (t ∷ q)
one_less-deadlines s t q h f = ground (
  arith,
  deadlines-same s.timers (one_less s t).timers t (s.timers t).expires q (λ z n. ground arith) f,
)

sooner-Fits :
    (ts : ℕ → Timer) (e : ℕ) (q : List ℕ) → Fits (deadlines ts (1 + e) q) → Fits (deadlines ts e q)
sooner-Fits ts e [] h = tt
sooner-Fits ts e (t ∷ q) h =
    (omega (arith, h.0), sooner-Fits ts (e + (ts t).expires) q (rw add_assoc at h.1))

one_less-IsTimers :
    (s : Timers) (t : ℕ) (q : List ℕ)
    → IsTimers s (t ∷ q)
    → 0 < (s.timers t).expires
    → IsTimers (one_less s t) (t ∷ q)
one_less-IsTimers s t q v h = record {
  held = v.held;
  fits = sooner-Fits (one_less s t).timers 0 (t ∷ q) (
      subst Fits (sym (one_less-deadlines s t q h (Holds-Distinct s.links (t ∷ q) v.held).0))
        v.fits);
}

tick-IsLive : (ds : List (ℕ × ℕ)) → IsLive ds → IsLive (tick_due ds)
tick-IsLive [] h = tt
tick-IsLive ((t, d) ∷ ds) h = ground (arith, tick-IsLive ds h.1)

bind_through :
    {A B C : Type 0} (m : Option A) (f : A → Option C) (g : A → Option B) (h : B → Option C)
    → ((a : A) → f a ≡ (g a >>= h))
    → (m >>= f) ≡ (m >>= g >>= h)
bind_through none f g h e = refl
bind_through (some a) f g h e = e a

module _ (sched_class : SchedClass) where
  -- The processes of the timers are woken one after the other, until one cannot be.
  unfoldable pub wake_all : (ℕ → Option ℕ) → Kernel → List ℕ → Option Kernel
  wake_all procs k [] = some k
  wake_all procs k (t ∷ q) = wake sched_class k (procs t) >>= λ k'. wake_all procs k' q

  -- What the loop does over `q`, at any kernel: it wakes, and leaves the timers that stay.
  Expires : (ℕ → Timer) → List ℕ → (Kernel → Option (Timers × Kernel)) → Type 0
  Expires ts q r =
      (s' : Timers) × ((k : Kernel)
        → r k ≡ (wake_all (λ t. (ts t).proc) k (fired ts q) >>= λ k'. some (s', k')))
      × (s'.timers ≡ ts)
      × IsTimers s' (rest ts q)

  expire-stop :
      (fuel : ℕ) (s : Timers) (k : Kernel) (t : ℕ)
      → ((s.timers t).expires == 0) ≡ false
      → expire sched_class (suc fuel) s k t ≡ some (s, k)
  unfolding expire
  expire-stop fuel s k t e = rw (e, expire)

  expire-last :
      (fuel : ℕ) (s : Timers) (k : Kernel) (t : ℕ)
      → ((s.timers t).expires == 0) ≡ true
      → s.links.next (timer_link t) ≡ timer_list
      → expire sched_class (suc fuel) s k t
        ≡ (wake sched_class k (s.timers t).proc >>= λ k'. some (del_timer s t, k'))
  unfolding expire
  expire-last fuel s k t e n = rw (e, expire) (rw n)

  expire-next :
      (fuel : ℕ) (s : Timers) (k : Kernel) (t y : ℕ)
      → ((s.timers t).expires == 0) ≡ true
      → s.links.next (timer_link t) ≡ timer_link y
      → expire sched_class (suc fuel) s k t ≡ (
          wake sched_class k (s.timers t).proc >>= λ k'.
          expire sched_class fuel (del_timer s t) k' y)
  unfolding expire
  expire-next fuel s k t y e n = rw (e, expire) (rw (n, link-ne-list y, pred_suc y))

  fires_last :
      (fuel : ℕ) (s : Timers) (t : ℕ)
      → ((s.timers t).expires == 0) ≡ true
      → IsTimers s (t ∷ [])
      → Expires s.timers (t ∷ []) (λ k. expire sched_class (suc fuel) s k t)
  unfolding wake_all Expires
  fires_last fuel s t e v = (
    del_timer s t,
    (λ k.
        expire-last fuel s k t e (Holds-next s.links t [] [] v.held)
        ∙ rw e (bind_through (wake sched_class k (s.timers t).proc) _ some _ (λ k'. refl))),
    run_out s t ((==_iff _ 0).0 e),
    rw e (del_timer_lem s t [] [] v).0,
  )

  fires_next :
      (fuel : ℕ) (s : Timers) (t y : ℕ) (q : List ℕ)
      → ((s.timers t).expires == 0) ≡ true
      → IsTimers s (t ∷ y ∷ q)
      → Expires s.timers (y ∷ q) (λ k. expire sched_class fuel (del_timer s t) k y)
      → Expires s.timers (t ∷ y ∷ q) (λ k. expire sched_class (suc fuel) s k t)
  unfolding wake_all Expires
  fires_next fuel s t y q e v (s', r, i, w) = (
    s',
    (λ k.
        expire-next fuel s k t y e (Holds-next s.links t [] (y ∷ q) v.held)
        ∙ rw e (bind_through (wake sched_class k (s.timers t).proc) _ _ _ r)),
    i,
    rw e w,
  )

  -- With fuel for one round more than there are timers behind, the loop ends.
  expire-Expires :
      (fuel : ℕ) (s : Timers) (t : ℕ) (q : List ℕ)
      → length q < fuel
      → IsTimers s (t ∷ q)
      → Expires s.timers (t ∷ q) (λ k. expire sched_class fuel s k t)
  expire-Expires zero s t q h v = absurd (omega arith)
  expire-Expires (suc fuel) s t [] h v = elim (Bool-cases ((s.timers t).expires == 0)) [
    | inr e ↦ unfold Expires wake_all in (s, (λ k. rw e (expire-stop fuel s k t e)), refl, rw e v)
    | inl e ↦ fires_last fuel s t e v
  ]
  expire-Expires (suc fuel) s t (y ∷ q) h v = elim (Bool-cases ((s.timers t).expires == 0)) [
    | inr e ↦ unfold Expires wake_all in (s, (λ k. rw e (expire-stop fuel s k t e)), refl, rw e v)
    | inl e ↦ fires_next fuel s t y q e v (
        subst (λ ts. Expires ts (y ∷ q) (λ k. expire sched_class fuel (del_timer s t) k y))
          (run_out s t ((==_iff _ 0).0 e))
          (expire-Expires fuel (del_timer s t) y q (omega arith)
            (del_timer_lem s t [] (y ∷ q) v).0))
  ]

first_tick :
    (sched_class : SchedClass) (fuel : ℕ) (s : Timers) (k : Kernel) (t : ℕ)
    → s.links.next timer_list ≡ timer_link t
    → 0 < (s.timers t).expires
    → run_timer_list sched_class fuel s k ≡ (
        expire sched_class fuel (one_less s t) k t >>= λ p.
        some (p.0, sched_class_proc_tick sched_class p.1 p.1.current))
unfolding run_timer_list
first_tick sc fuel s k t n h =
    rw (n, link-ne-list t, pred_suc t, ==_of_ne (s.timers t).expires 0 (omega arith)) refl

abbrev pub sleeper : Timers → ℕ → Option ℕ
sleeper s t = (s.timers t).proc

procs-one_less : (s : Timers) (t : ℕ) → sleeper (one_less s t) ≡ sleeper s
procs-one_less s t = fun_ext (λ u. ground arith)

-- One tick. No failure is the list's: `run_timer_list` gives a result exactly when the processes of
-- the timers that are due can be woken in turn. Then each other timer has one tick less, the due
-- ones are gone, and the scheduler has ticked `current`.
pub run_timer_list_lem :
    (sched_class : SchedClass) (fuel : ℕ) (s : Timers) (k : Kernel) (q : List ℕ)
    → IsTimers s q
    → IsLive (deadlines s.timers 0 q)
    → length q < fuel
    → let due = deadlines s.timers 0 q in
      (s' : Timers) × (q' : List ℕ) × (run_timer_list sched_class fuel s k ≡ (
        wake_all sched_class (sleeper s) k (due_now due) >>= λ k'.
        some (s', sched_class_proc_tick sched_class k' k'.current)))
      × IsTimers s' q'
      × (deadlines s'.timers 0 q' ≡ tick_due due)
      × IsLive (tick_due due)
unfolding run_timer_list wake_all Expires
run_timer_list_lem sc fuel s k [] v l h = (s, [], ground (arith, v.held.ring.links), v, refl, tt)
run_timer_list_lem sc fuel s k (t ∷ q) v l h =
    let s₁ = one_less s t in
    let pos : 0 < (s.timers t).expires = omega (arith, l.0) in
    let e = one_less-deadlines s t q pos (Holds-Distinct s.links (t ∷ q) v.held).0 in
    let (s', r, i, w) =
      expire-Expires sc fuel s₁ t q (omega arith) (one_less-IsTimers s t q v pos) in
    (
      s',
      rest s₁.timers (t ∷ q),
      first_tick sc fuel s k t (Holds-head s.links (t ∷ q) v.held) pos
          ∙ ap (λ m. m >>= λ p. some (p.0, sched_class_proc_tick sc p.1 p.1.current))
              (r k
                ∙ ap₂ (λ ps ts. wake_all sc ps k ts >>= λ k'. some (s', k')) (procs-one_less s t)
                    (fired_now s₁.timers (t ∷ q) ∙ ap due_now e))
          ∙ sym (
              bind_through (wake_all sc (sleeper s) k (due_now (deadlines s.timers 0 (t ∷ q)))) _ _
                _ (λ k'. refl)),
      w,
      rw i (rest_due s₁.timers (t ∷ q) ∙ ap tick_due e),
      tick-IsLive (deadlines s.timers 0 (t ∷ q)) l,
    )
