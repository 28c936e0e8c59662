-- ===== src/Bitmap/Alloc.antt =====
-- `bitmap_alloc`, `bitmap_test` and `bitmap_free` against the set of free blocks.
use mathlib.Core.Path.{subst, fun_ext}
use native.Mathlib.Decide.{ℕ_discrete}
use nk_os_team.Prelude.{
  ℕ, ◌+◌, ◌*◌, ◌/◌, ◌%◌, ◌^◌, ◌≤◌, ◌<◌, ◌≡◌, refl, sym, ap, ◌∙◌, ◌≢◌, inl, inr, Bool, true, false,
  not, ◌&&◌, Option, none, some, arith, ltb, if◌then◌else◌, ltb→lt, lt→ltb, put, Bool-cases,
}
use nk_os_team.Bitmap.{Bitmap, bit, flip_bit, bitmap_alloc, bitmap_free}
use nk_os_team.Bitmap.Words.{bit-zero, flip-flip, bit-flip, set_bit-flip, flip_bit-small}
use nk_os_team.Bitmap.Search.{all_zero, first_bit, find_word-Found}

-- Block `i` is free.
abbrev pub free_at : Bitmap → ℕ → Bool
free_at b i = bit (b.map (i / 32)) (i % 32)

-- The words are words, there are as many as it takes, and no block behind the last is free.
pub record IsBitmap (b : Bitmap) : Type 0 where
  pub words : (j : ℕ) → b.map j < 2 ^ 32
  pub enough : b.nwords ≡ (b.nbits + 31) / 32
  pub ended : (i : ℕ) → b.nbits ≤ i → i < b.nwords * 32 → free_at b i ≡ false

-- The bitmap after block `i` has changed from free to used, or from used to free.
abbrev pub toggled : Bitmap → ℕ → Bitmap
toggled b i = record b { map = put b.map (i / 32) (flip_bit (b.map (i / 32)) (i % 32)) }

apart : (i j : ℕ) → j ≢ i → j / 32 ≡ i / 32 → j % 32 ≢ i % 32
apart i j d e f = d (omega arith)

pub free_at-toggled_self : (b : Bitmap) (i : ℕ) → free_at (toggled b i) i ≡ not (free_at b i)
free_at-toggled_self b i = ground (arith, bit-flip (b.map (i / 32)) (i % 32) (i % 32))

pub free_at-toggled_ne : (b : Bitmap) (i j : ℕ) → j ≢ i → free_at (toggled b i) j ≡ free_at b j
free_at-toggled_ne b i j d = elim (ℕ_discrete (j / 32) (i / 32)) [
  | yes e ↦ rw e (ground (arith, bit-flip (b.map (i / 32)) (i % 32) (j % 32), apart i j d e))
  | no e ↦ ground arith
]

pub toggled-IsBitmap : (b : Bitmap) (i : ℕ) → i < b.nbits → IsBitmap b → IsBitmap (toggled b i)
toggled-IsBitmap b i l v = record {
  words = λ j. elim (ℕ_discrete j (i / 32)) [
    | yes e ↦
        ground (arith, flip_bit-small 32 (b.map (i / 32)) (i % 32) (v.words (i / 32)) (omega arith))
    | no e ↦ ground (arith, v.words j)
  ];
  enough = v.enough;
  ended = λ j h u. free_at-toggled_ne b i j (omega arith) ∙ v.ended j h u;
}

-- What `bitmap_alloc` can do: no block is free, or the first free one is taken.
pub data Allocated (b : Bitmap) : Type 0 where
  no_memory :
      bitmap_alloc b ≡ some (b, none) → ((i : ℕ) → i < b.nbits → free_at b i ≡ false) → Allocated b
  allocated :
      (i : ℕ)
      → bitmap_alloc b ≡ some (toggled b i, some i)
      → i < b.nbits
      → free_at b i ≡ true
      → ((j : ℕ) → j < i → free_at b j ≡ false)
      → IsBitmap (toggled b i)
      → Allocated b

before_first :
    (b : Bitmap) (k q j : ℕ)
    → q < 32
    → ((p : ℕ) → p < q → bit (b.map k) p ≡ false)
    → ((w : ℕ) → 0 ≤ w → w < k → b.map w ≡ 0)
    → j < k * 32 + q
    → free_at b j ≡ false
before_first b k q j l a z h = elim (ℕ_discrete (j / 32) k) [
  | yes e ↦ rw e (a (j % 32) (omega arith))
  | no e ↦ rw (z (j / 32) (omega arith) (omega arith)) (bit-zero (j % 32))
]

at_index : (b : Bitmap) (k q : ℕ) → q < 32 → ((k * 32 + q) / 32 ≡ k) × ((k * 32 + q) % 32 ≡ q)
at_index b k q l = (omega arith, omega arith)

in_range : (b : Bitmap) (i : ℕ) → IsBitmap b → i < b.nwords * 32 → free_at b i ≡ true → i < b.nbits
in_range b i v h f = elim (Bool-cases (ltb i b.nbits)) [
  | inl e ↦ ltb→lt i b.nbits e
  | inr e ↦ absurd (ground (arith, v.ended i))
]

-- `bitmap_alloc` does not fail its assert on a well-formed map. It takes the first free block, whose
-- bit is set and is cleared then, and the map stays well-formed; or it reports that no block is free,
-- and changes nothing.
pub bitmap_alloc_lem : (b : Bitmap) → IsBitmap b → Allocated b
unfolding bitmap_alloc
bitmap_alloc_lem b v = elim (find_word-Found b.nwords b.map 0 v.words) [
  | all_zero e a ↦
      no_memory (rw (bitmap_alloc, e) refl)
        (λ i h. rw (a (i / 32) (omega arith) (omega (arith, v.enough))) (bit-zero (i % 32)))
  | first_bit k q e l h u f a z ↦
      let (x, y) = at_index b k q u in
      let f' : free_at b (k * 32 + q) ≡ true = rw (x, y) f in
      let r = in_range b (k * 32 + q) v (omega arith) f' in
      allocated (k * 32 + q) (rw (bitmap_alloc, e, x, y) refl) r f'
        (λ j h'. before_first b k q j u a z h') (toggled-IsBitmap b (k * 32 + q) r v)
]

-- `bitmap_free` fails its assert on a block that is free, or behind the last. It makes any other
-- block free, and keeps the rest of the map.
pub bitmap_free_lem :
    (b : Bitmap) (i : ℕ)
    → bitmap_free b i ≡ (if ltb i b.nbits && not (free_at b i) then some (toggled b i) else none)
unfolding bitmap_free
bitmap_free_lem b i = elim (Bool-cases (ltb i b.nbits)) [
  | inr l ↦ rw (bitmap_free, l) refl
  | inl l ↦ elim (Bool-cases (free_at b i)) [
    | inl e ↦ rw (bitmap_free, l, e) refl
    | inr e ↦ rw (bitmap_free, l, e, set_bit-flip (b.map (i / 32)) (i % 32) e) refl
  ]
]

same_bitmap : (b : Bitmap) (i : ℕ) → toggled (toggled b i) i ≡ b
same_bitmap b i =
    ap (λ m. record b { map = m })
      (fun_ext (λ j. elim (ℕ_discrete j (i / 32)) [
        | yes e ↦ rw e (ground (arith, flip-flip (b.map (i / 32)) (i % 32)))
        | no e ↦ ground arith
      ]))

result_map : Bitmap → Option (Bitmap × Option ℕ) → Bitmap
result_map b none = b
result_map b (some (c, i)) = c

result_index : Option (Bitmap × Option ℕ) → ℕ
result_index none = 0
result_index (some (c, none)) = 0
result_index (some (c, some i)) = i

free-toggled :
    (b : Bitmap) (i : ℕ) → i < b.nbits → free_at b i ≡ true → bitmap_free (toggled b i) i ≡ some b
free-toggled b i l f =
    bitmap_free_lem (toggled b i) i
    ∙ rw (lt→ltb i b.nbits l, free_at-toggled_self b i, f) (ap some (same_bitmap b i))

-- Of a well-formed map, to free the block that has just been allocated gives back the map.
pub free-alloc :
    (b c : Bitmap) (i : ℕ)
    → IsBitmap b
    → bitmap_alloc b ≡ some (c, some i)
    → bitmap_free c i ≡ some b
unfolding result_map result_index
free-alloc b c i v e = elim (bitmap_alloc_lem b v) [
  | no_memory f a ↦ absurd (cc (f, e))
  | allocated j f l h a w ↦
      let same = sym f ∙ e in
      subst (λ d. bitmap_free d i ≡ some b) (ap (result_map b) same)
        (subst (λ k. bitmap_free (toggled b j) k ≡ some b) (ap result_index same)
          (free-toggled b j l h))
]
