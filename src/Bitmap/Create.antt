-- ===== src/Bitmap/Create.antt =====
-- `bitmap_create`: every block is free, and no bit behind the last block is set.
use native.Mathlib.Decide.{ℕ_discrete}
use nk_os_team.Prelude.{
  ℕ, zero, suc, ◌+◌, ◌-◌, ◌*◌, ◌/◌, ◌%◌, ◌^◌, ◌≤◌, ◌<◌, ◌≡◌, refl, ◌∙◌, ◌≢◌, true, false, not, ◌&&◌,
  some, map, arith, ltb, leb, ◌==◌, if◌then◌else◌, ==_iff, ==_of_ne, lt→ltb, put,
}
use nk_os_team.Bitmap.{Bitmap, bit, flip_bit, flip_leftover, fill, mark_leftover, bitmap_create}
use nk_os_team.Bitmap.Words.{bit-flip, flip_bit-small}
use nk_os_team.Bitmap.Alloc.{free_at, IsBitmap}

pow-positive : (n : ℕ) → 0 < 2 ^ n
pow-positive zero = omega arith
pow-positive (suc n) = omega (arith, pow-positive n)

bit-full : (n o : ℕ) → o < n → bit (2 ^ n - 1) o ≡ true
unfolding bit
bit-full zero o h = absurd (omega arith)
bit-full (suc n) zero h =
    let e : (2 ^ suc n - 1) % 2 ≡ 1 = omega (arith, pow-positive n) in rw e refl
bit-full (suc n) (suc o) h =
    let e : (2 ^ suc n - 1) / 2 ≡ 2 ^ n - 1 = omega arith in rw e (bit-full n o (omega arith))

-- The bits from `o` on of word `ix` are flipped, and no other.
bit-flip_leftover :
    (c : ℕ) (m : ℕ → ℕ) (ix o j p : ℕ)
    → bit (flip_leftover c m ix o j) p
      ≡ (if j == ix && (leb o p && ltb p (o + c)) then not (bit (m j) p) else bit (m j) p)
unfolding flip_leftover
bit-flip_leftover zero m ix o j p = ground arith
bit-flip_leftover (suc c) m ix o j p =
    bit-flip_leftover c (put m ix (flip_bit (m ix) o)) ix (o + 1) j p
    ∙ ground (arith, bit-flip (m ix) o p)

flip_leftover-small :
    (c : ℕ) (m : ℕ → ℕ) (ix o : ℕ)
    → o + c ≤ 32
    → ((j : ℕ) → m j < 2 ^ 32)
    → (j : ℕ) → flip_leftover c m ix o j < 2 ^ 32
unfolding flip_leftover
flip_leftover-small zero m ix o h f j = f j
flip_leftover-small (suc c) m ix o h f j =
    flip_leftover-small c (put m ix (flip_bit (m ix) o)) ix (o + 1) (omega arith)
      (λ z. elim (ℕ_discrete z ix) [
        | yes e ↦ ground (arith, flip_bit-small 32 (m ix) o (f ix) (omega arith))
        | no e ↦ ground (arith, f z)
      ])
      j

-- The map that `bitmap_create` makes.
record Made (nbits : ℕ) (map : ℕ → ℕ) : Type 0 where
  small : (j : ℕ) → map j < 2 ^ 32
  full : (i : ℕ) → i < nbits → bit (map (i / 32)) (i % 32) ≡ true
  ended : (i : ℕ) → nbits ≤ i → i < (nbits + 31) / 32 * 32 → bit (map (i / 32)) (i % 32) ≡ false

fill-small : (m : ℕ → ℕ) (n : ℕ) → ((j : ℕ) → m j < 2 ^ 32) → (j : ℕ) → fill m n j < 2 ^ 32
fill-small m n f j = ground (arith, f j)

fill-full : (m : ℕ → ℕ) (n i : ℕ) → i / 32 < n → bit (fill m n (i / 32)) (i % 32) ≡ true
fill-full m n i h = rw (lt→ltb (i / 32) n h) (bit-full 32 (i % 32) (omega arith))

module _ (m : ℕ → ℕ) (nbits : ℕ) (f : (j : ℕ) → m j < 2 ^ 32) where
  abbrev words : ℕ
  words = (nbits + 31) / 32

  abbrev ix : ℕ
  ix = words - 1

  abbrev overbits : ℕ
  overbits = nbits - ix * 32

  even-Made : nbits ≡ words * 32 → Made nbits (fill m words)
  even-Made e = record {
    small = fill-small m words f;
    full = λ i h. fill-full m words i (omega arith);
    ended = λ i h l. absurd (omega arith);
  }

  abbrev leftover : ℕ → ℕ
  leftover = flip_leftover (32 - overbits) (fill m words) ix overbits

  over : nbits ≢ words * 32 → (nbits / 32 ≡ ix) × (0 < overbits) × (overbits < 32)
  over d = (omega arith, omega arith, omega arith)

  leftover-Made : nbits ≢ words * 32 → Made nbits leftover
  leftover-Made d = record {
    small =
        flip_leftover-small (32 - overbits) (fill m words) ix overbits (omega arith)
          (fill-small m words f);
    full = λ i h.
        bit-flip_leftover (32 - overbits) (fill m words) ix overbits (i / 32) (i % 32)
        ∙ ground (arith, fill-full m words i (omega arith));
    ended = λ i h l.
        bit-flip_leftover (32 - overbits) (fill m words) ix overbits (i / 32) (i % 32)
        ∙ ground (arith, fill-full m words i (omega arith));
  }

  mark_leftover-Made :
      0 < nbits → (map : ℕ → ℕ) × (mark_leftover m nbits ≡ some map) × Made nbits map
  unfolding mark_leftover
  mark_leftover-Made pos = elim (ℕ_discrete nbits (words * 32)) [
    | yes e ↦ (fill m words, rw (mark_leftover, (==_iff nbits (words * 32)).1 e) refl, even-Made e)
    | no d ↦ (
      leftover,
      rw
          (
            mark_leftover,
            ==_of_ne nbits (words * 32) d,
            (==_iff (nbits / 32) ix).1 (over d).0,
            lt→ltb 0 overbits (over d).1,
            lt→ltb overbits 32 (over d).2,
          )
          refl,
      leftover-Made d,
    )
  ]

-- If there is memory, `bitmap_create` makes a well-formed map in which every block is free. Its
-- asserts hold for any number of blocks that is not 0.
pub bitmap_create_lem :
    (m : ℕ → ℕ) (nbits : ℕ)
    → ((j : ℕ) → m j < 2 ^ 32)
    → 0 < nbits
    → nbits < 2 ^ 32
    → (b : Bitmap) × (bitmap_create true (some m) nbits ≡ some (some b))
      × IsBitmap b
      × (b.nbits ≡ nbits)
      × ((i : ℕ) → i < nbits → free_at b i ≡ true)
unfolding bitmap_create
bitmap_create_lem m nbits f pos small =
    let (map, e, v) = mark_leftover-Made m nbits f pos in
    (
      record { nbits = nbits; nwords = (nbits + 31) / 32; map = map },
      rw
          (
            bitmap_create,
            ==_of_ne nbits 0 (omega arith),
            lt→ltb nbits ((nbits + 32) % 2 ^ 64) (omega arith),
            e,
          )
          refl,
      record { words = v.small; enough = refl; ended = v.ended },
      refl,
      v.full,
    )
