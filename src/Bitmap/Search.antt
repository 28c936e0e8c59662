-- ===== src/Bitmap/Search.antt =====
-- The two loops of `bitmap_alloc`: where the first bit is that is set.
use native.Mathlib.Decide.{ℕ_discrete}
use nk_os_team.Prelude.{
  ℕ, zero, suc, ◌+◌, ◌^◌, ◌≤◌, ◌<◌, ◌≡◌, refl, ◌≢◌, inl, inr, true, false, none, some, arith,
  ==_of_ne, Bool-cases,
}
use nk_os_team.Bitmap.{bit, find_offset, find_word}
use nk_os_team.Bitmap.Words.{bits-clear}

-- The loop over offsets ends at the first bit, or there is none.
pub data FirstBit (n w o : ℕ) : Type 0 where
  none_set :
      find_offset n w o ≡ none → ((p : ℕ) → o ≤ p → p < o + n → bit w p ≡ false) → FirstBit n w o
  first_set :
      (q : ℕ)
      → find_offset n w o ≡ some q
      → o ≤ q
      → q < o + n
      → bit w q ≡ true
      → ((p : ℕ) → o ≤ p → p < q → bit w p ≡ false)
      → FirstBit n w o

later-FirstBit : (n w o : ℕ) → bit w o ≡ false → FirstBit n w (o + 1) → FirstBit (suc n) w o
unfolding find_offset
later-FirstBit n w o e (none_set f a) =
    none_set (rw e f)
      (λ p l h. elim (ℕ_discrete p o) [ yes d ↦ rw d e | no d ↦ a p (omega arith) (omega arith) ])
later-FirstBit n w o e (first_set q f l h b a) =
    first_set q (rw e f) (omega arith) (omega arith) b
      (λ p l' h'. elim (ℕ_discrete p o) [ yes d ↦ rw d e | no d ↦ a p (omega arith) h' ])

pub find_offset-FirstBit : (n w o : ℕ) → FirstBit n w o
unfolding find_offset
find_offset-FirstBit zero w o = none_set refl (λ p l h. absurd (omega arith))
find_offset-FirstBit (suc n) w o = elim (Bool-cases (bit w o)) [
  | inl e ↦ first_set o (rw e refl) (omega arith) (omega arith) e (λ p l h. absurd (omega arith))
  | inr e ↦ later-FirstBit n w o e (find_offset-FirstBit n w (o + 1))
]

-- The search over words ends at the first bit, or all words are 0.
pub data Found (n : ℕ) (m : ℕ → ℕ) (i : ℕ) : Type 0 where
  all_zero : find_word n m i ≡ some none → ((j : ℕ) → i ≤ j → j < i + n → m j ≡ 0) → Found n m i
  first_bit :
      (k q : ℕ)
      → find_word n m i ≡ some (some (k, q))
      → i ≤ k
      → k < i + n
      → q < 32
      → bit (m k) q ≡ true
      → ((p : ℕ) → p < q → bit (m k) p ≡ false)
      → ((j : ℕ) → i ≤ j → j < k → m j ≡ 0)
      → Found n m i

later_word : (n : ℕ) (m : ℕ → ℕ) (i : ℕ) → m i ≡ 0 → Found n m (i + 1) → Found (suc n) m i
unfolding find_word
later_word n m i e (all_zero f a) =
    all_zero (rw e f)
      (λ j l h. elim (ℕ_discrete j i) [ yes d ↦ rw d e | no d ↦ a j (omega arith) (omega arith) ])
later_word n m i e (first_bit k q f l h u b a z) =
    first_bit k q (rw e f) (omega arith) (omega arith) u b a
      (λ j l' h'. elim (ℕ_discrete j i) [ yes d ↦ rw d e | no d ↦ z j (omega arith) h' ])

this_word :
    (n : ℕ) (m : ℕ → ℕ) (i : ℕ) → m i < 2 ^ 32 → m i ≢ 0 → FirstBit 32 (m i) 0 → Found (suc n) m i
unfolding find_word
this_word n m i h d (none_set f a) =
    absurd (d (bits-clear 32 (m i) h (λ o l. a o (omega arith) (omega arith))))
this_word n m i h d (first_set q f l u b a) =
    first_bit i q (rw (==_of_ne (m i) 0 d, f) refl) (omega arith) (omega arith) (omega arith) b
      (λ p l'. a p (omega arith) l') (λ j l' h'. absurd (omega arith))

pub find_word-Found : (n : ℕ) (m : ℕ → ℕ) (i : ℕ) → ((j : ℕ) → m j < 2 ^ 32) → Found n m i
unfolding find_word
find_word-Found zero m i small = all_zero refl (λ j l h. absurd (omega arith))
find_word-Found (suc n) m i small = elim (ℕ_discrete (m i) 0) [
  | yes e ↦ later_word n m i e (find_word-Found n m (i + 1) small)
  | no d ↦ this_word n m i (small i) d (find_offset-FirstBit 32 (m i) 0)
]
