-- ===== src/Bitmap/Words.antt =====
-- What the bit operations on one word do to each of its bits.
use nk_os_team.Prelude.{
  ℕ, zero, suc, ◌+◌, ◌*◌, ◌/◌, ◌%◌, ◌^◌, ◌<◌, ◌≡◌, refl, false, not, arith, ◌==◌, if◌then◌else◌,
}
use nk_os_team.Bitmap.{bit, flip_bit, set_bit}

pub bit-zero : (o : ℕ) → bit 0 o ≡ false
unfolding bit
bit-zero zero = refl
bit-zero (suc o) = bit-zero o

same_suc : (p o : ℕ) → (suc p == suc o) ≡ (p == o)
same_suc p o = ground arith

pub bit-flip : (w o p : ℕ) → bit (flip_bit w o) p ≡ (if p == o then not (bit w p) else bit w p)
unfolding bit flip_bit
bit-flip w zero zero = ground arith
bit-flip w zero (suc p) = ground arith
bit-flip w (suc o) zero = ground arith
bit-flip w (suc o) (suc p) =
    let e : (w % 2 + 2 * flip_bit (w / 2) o) / 2 ≡ flip_bit (w / 2) o = omega arith in
    rw (e, same_suc p o) (bit-flip (w / 2) o p)

pub set_bit-flip : (w o : ℕ) → bit w o ≡ false → set_bit w o ≡ flip_bit w o
unfolding bit flip_bit set_bit
set_bit-flip w zero e = ground arith
set_bit-flip w (suc o) e = rw (set_bit-flip (w / 2) o e) refl

pub flip-flip : (w o : ℕ) → flip_bit (flip_bit w o) o ≡ w
unfolding flip_bit
flip-flip w zero = ground arith
flip-flip w (suc o) =
    let e : (w % 2 + 2 * flip_bit (w / 2) o) / 2 ≡ flip_bit (w / 2) o = omega arith in
    rw e (omega (arith, flip-flip (w / 2) o))

-- A word stays a word.
pub flip_bit-small : (n w o : ℕ) → w < 2 ^ n → o < n → flip_bit w o < 2 ^ n
unfolding flip_bit
flip_bit-small zero w o h l = absurd (omega arith)
flip_bit-small (suc n) w zero h l = ground arith
flip_bit-small (suc n) w (suc o) h l =
    omega (arith, flip_bit-small n (w / 2) o (omega arith) (omega arith))

-- A word of `n` bits that are all clear is 0.
pub bits-clear : (n w : ℕ) → w < 2 ^ n → ((o : ℕ) → o < n → bit w o ≡ false) → w ≡ 0
unfolding bit
bits-clear zero w h f = omega arith
bits-clear (suc n) w h f =
    let r = bits-clear n (w / 2) (omega arith) (λ o l. f (suc o) (omega arith)) in
    let e = f 0 (omega arith) in ground (arith, r)
