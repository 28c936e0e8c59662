-- ===== src/Sfs/Count.antt =====
-- How many numbers pass a test.
use native.Mathlib.Decide.{ℕ_discrete}
use nk_os_team.Prelude.{
  ℕ, zero, suc, ◌+◌, ◌≤◌, ◌<◌, ◌≡◌, refl, ap, ◌∙◌, ◌≢◌, Bool, true, false, arith, if◌then◌else◌,
}

abbrev pub count : (ℕ → Bool) → ℕ → ℕ
count p zero = 0
count p (suc n) = count p n + (if p n then 1 else 0)

pub count_same : (p q : ℕ → Bool) (n : ℕ) → ((j : ℕ) → j < n → q j ≡ p j) → count q n ≡ count p n
count_same p q zero h = refl
count_same p q (suc n) h = rw (count_same p q n (λ j l. h j (omega arith)), h n (omega arith)) refl

-- One number passes no more.
pub count_one_less :
    (p q : ℕ → Bool) (i n : ℕ)
    → i < n
    → p i ≡ true
    → q i ≡ false
    → ((j : ℕ) → j ≢ i → q j ≡ p j)
    → count q n + 1 ≡ count p n
count_one_less p q i zero h e d same = absurd (omega arith)
count_one_less p q i (suc n) h e d same = elim (ℕ_discrete n i) [
  | yes f ↦
      let rest = count_same p q n (λ j l. same j (omega arith)) in
      let a : p n ≡ true = ap p f ∙ e in
      let b : q n ≡ false = ap q f ∙ d in rw (rest, a, b) (omega arith)
  | no f ↦
      let rest = count_one_less p q i n (omega arith) e d same in
      rw (same n f) (ground (arith, rest))
]

pub count_bound : (p : ℕ → Bool) (n : ℕ) → count p n ≤ n
count_bound p zero = omega arith
count_bound p (suc n) = ground (arith, count_bound p n)

pub count_none : (p : ℕ → Bool) (n : ℕ) → ((j : ℕ) → j < n → p j ≡ false) → count p n ≡ 0
count_none p zero h = refl
count_none p (suc n) h = rw (count_none p n (λ j l. h j (omega arith)), h n (omega arith)) refl
