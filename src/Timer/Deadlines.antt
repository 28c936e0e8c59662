-- ===== src/Timer/Deadlines.antt =====
-- The meaning of the timer list: each timer with the ticks left until it fires.
use nk_os_team.Prelude.{
  ℕ, ◌+◌, ◌^◌, ◌<◌, ◌≡◌, refl, sym, ap, ◌≢◌, List, [], ◌∷◌, ltb, ◌==◌, if◌then◌else◌, All, Fresh,
}
use nk_os_team.Links.Members.{Holds}
use nk_os_team.Timer.{Timer, Timers}

-- Timers with their deadlines, `acc` ticks from now at the head.
abbrev pub deadlines : (ℕ → Timer) → ℕ → List ℕ → List (ℕ × ℕ)
deadlines ts acc [] = []
deadlines ts acc (t ∷ q) = (t, acc + (ts t).expires) ∷ deadlines ts (acc + (ts t).expires) q

-- A timer stands before the first that fires later, and behind those that fire with it.
abbrev pub insert_due : ℕ → ℕ → List (ℕ × ℕ) → List (ℕ × ℕ)
insert_due t e [] = (t, e) ∷ []
insert_due t e ((u, d) ∷ ds) = if ltb e d then (t, e) ∷ (u, d) ∷ ds else (u, d) ∷ insert_due t e ds

abbrev pub remove_due : ℕ → List (ℕ × ℕ) → List (ℕ × ℕ)
remove_due t [] = []
remove_due t ((u, d) ∷ ds) = if u == t then ds else (u, d) ∷ remove_due t ds

-- Every deadline fits an `unsigned int`.
abbrev pub Fits : List (ℕ × ℕ) → Type 0
Fits = All λ p. p.1 < 2 ^ 32

-- `q` are the timers that run, in the order in which they fire.
pub record IsTimers (s : Timers) (q : List ℕ) : Type 0 where
  pub held : Holds s.links q
  pub fits : Fits (deadlines s.timers 0 q)

-- Deadlines depend on the timers of the list alone.
pub deadlines-same :
    (ts us : ℕ → Timer) (t acc : ℕ) (q : List ℕ)
    → ((z : ℕ) → z ≢ t → us z ≡ ts z)
    → Fresh t q
    → deadlines us acc q ≡ deadlines ts acc q
deadlines-same ts us t acc [] e f = refl
deadlines-same ts us t acc (x ∷ q) e f =
    rw (e x (λ k. f.0 (sym k)))
      (ap (◌∷◌ (x, acc + (ts x).expires)) (deadlines-same ts us t (acc + (ts x).expires) q e f.1))
