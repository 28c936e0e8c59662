-- ===== src/Timer/Delete.antt =====
-- `del_timer` takes a timer out, and the deadlines of the others stay.
use nk_os_team.Prelude.{
  ℕ, ◌+◌, ◌^◌, ◌<◌, ◌≡◌, refl, ap, ◌≢◌, List, [], ◌∷◌, ◌++◌, arith, ==_of_ne, Fresh, Distinct,
  Fresh-right,
}
use nk_os_team.Links.Members.{first_link, Holds-delete, Holds-next, Holds-linked, Holds-Distinct}
use nk_os_team.Timer.{Timers, timer_list, timer_link, pass_on, del_timer}
use nk_os_team.Timer.Deadlines.{deadlines, remove_due, Fits, IsTimers, deadlines-same}

-- The distance of a timer goes to the one behind it, and to no other.
pass_on-next :
    (s : Timers) (t y : ℕ)
    → s.links.next (timer_link t) ≡ timer_link y
    → (s.timers t).expires + (s.timers y).expires < 2 ^ 32
    → ((pass_on s t).timers y).expires ≡ (s.timers t).expires + (s.timers y).expires
unfolding pass_on
pass_on-next s t y n h = ground arith

pass_on-other :
    (s : Timers) (t y z : ℕ)
    → s.links.next (timer_link t) ≡ timer_link y
    → z ≢ y
    → (pass_on s t).timers z ≡ s.timers z
unfolding pass_on
pass_on-other s t y z n h = ground arith

pass_on-last : (s : Timers) (t : ℕ) → s.links.next (timer_link t) ≡ timer_list → pass_on s t ≡ s
unfolding pass_on
pass_on-last s t n = ground arith

passed_on :
    (s : Timers) (t acc : ℕ) (ys : List ℕ)
    → s.links.next (timer_link t) ≡ first_link ys
    → Distinct (t ∷ ys)
    → Fits (deadlines s.timers acc (t ∷ ys))
    → deadlines (pass_on s t).timers acc ys ≡ deadlines s.timers (acc + (s.timers t).expires) ys
passed_on s t acc [] n d h = refl
passed_on s t acc (y ∷ ys) n d h = ground (
  arith,
  pass_on-next s t y n (omega (arith, h.1.0)),
  deadlines-same s.timers (pass_on s t).timers y
      (acc + ((s.timers t).expires + (s.timers y).expires)) ys (λ z m. pass_on-other s t y z n m)
      d.1.0,
)

-- A timer that is not the next one keeps what it holds.
kept :
    (s : Timers) (t x : ℕ) (ys : List ℕ)
    → s.links.next (timer_link t) ≡ first_link ys
    → Fresh x ys
    → (pass_on s t).timers x ≡ s.timers x
kept s t x [] n f = rw (pass_on-last s t n)
kept s t x (y ∷ ys) n f = pass_on-other s t y x n f.0

deadlines-delete :
    (s : Timers) (t acc : ℕ) (xs ys : List ℕ)
    → s.links.next (timer_link t) ≡ first_link ys
    → Distinct (xs ++ t ∷ ys)
    → Fits (deadlines s.timers acc (xs ++ t ∷ ys))
    → deadlines (pass_on s t).timers acc (xs ++ ys)
      ≡ remove_due t (deadlines s.timers acc (xs ++ t ∷ ys))
deadlines-delete s t acc [] ys n d h = ground (arith, passed_on s t acc ys n d h)
deadlines-delete s t acc (x ∷ xs) ys n d h =
    let g = Fresh-right x xs (t ∷ ys) d.0 in
    rw (kept s t x ys n g.1, ==_of_ne x t g.0)
      (ap (◌∷◌ (x, acc + (s.timers x).expires))
        (deadlines-delete s t (acc + (s.timers x).expires) xs ys n d.1 h.1))

remove-Fits : (t : ℕ) (ds : List (ℕ × ℕ)) → Fits ds → Fits (remove_due t ds)
remove-Fits t [] v = tt
remove-Fits t ((u, d) ∷ ds) v = ground (arith, remove-Fits t ds v.1)

pass_on-links : (s : Timers) (t : ℕ) → (pass_on s t).links ≡ s.links
unfolding pass_on
pass_on-links s t = ground arith

-- A timer that runs is taken out of the list, and the other timers keep their deadlines.
pub del_timer_lem :
    (s : Timers) (t : ℕ) (xs ys : List ℕ)
    → IsTimers s (xs ++ t ∷ ys)
    → IsTimers (del_timer s t) (xs ++ ys)
      × (deadlines (del_timer s t).timers 0 (xs ++ ys)
          ≡ remove_due t (deadlines s.timers 0 (xs ++ t ∷ ys)))
unfolding del_timer
del_timer_lem s t xs ys v =
    let n = Holds-next s.links t xs ys v.held in
    let e = deadlines-delete s t 0 xs ys n (Holds-Distinct s.links _ v.held) v.fits in
    rw (Holds-linked s.links t xs ys v.held, pass_on-links s t)
      (
        record { held = Holds-delete s.links t xs ys v.held; fits = rw e (remove-Fits t _ v.fits) },
        e,
      )

-- A timer that does not run is left, and so is everything else.
pub del_timer_idle :
    (s : Timers) (t : ℕ) (q : List ℕ) → IsTimers s q → Fresh t q → del_timer s t ≡ s
unfolding del_timer
del_timer_idle s t q v f = ground (arith, v.held.alone t f)
