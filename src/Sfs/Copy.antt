-- ===== src/Sfs/Copy.antt =====
-- Memory with bytes copied into it.
use mathlib.Core.Path.{fun_ext}
use nk_os_team.Prelude.{ℕ, ◌+◌, ◌-◌, ◌≤◌, ◌<◌, ◌≡◌, ◌⊎◌, inl, inr, arith}
use nk_os_team.Sfs.{copy_in}

module _ (m : ℕ → ℕ) where
  pub copy_in_same :
      (b : ℕ) (f g : ℕ → ℕ) (n : ℕ)
      → ((j : ℕ) → j < n → f j ≡ g j)
      → copy_in m b f n ≡ copy_in m b g n
  copy_in_same b f g n h = fun_ext (λ a. ground (arith, h (a - b)))

  pub copy_in_append :
      (b : ℕ) (f : ℕ → ℕ) (n k a : ℕ)
      → copy_in (copy_in m b f n) (b + n) (λ j. f (n + j)) k a ≡ copy_in m b f (n + k) a
  copy_in_append b f n k a = ground arith

  pub copy_in_none : (b : ℕ) (f : ℕ → ℕ) (a : ℕ) → copy_in m b f 0 a ≡ m a
  copy_in_none b f a = ground arith

  pub copy_in_out : (b : ℕ) (f : ℕ → ℕ) (n a : ℕ) → (a < b) ⊎ (b + n ≤ a) → copy_in m b f n a ≡ m a
  copy_in_out b f n a (inl h) = ground arith
  copy_in_out b f n a (inr h) = ground arith

  pub copy_in_at : (b : ℕ) (f : ℕ → ℕ) (n a : ℕ) → b ≤ a → a < b + n → copy_in m b f n a ≡ f (a - b)
  copy_in_at b f n a h l = ground arith
