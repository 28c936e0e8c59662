-- ===== src/Bitmap.antt =====
-- kern/fs/sfs/bitmap.c: the map of free disk blocks, one bit for each, which is set when the block
-- is free, and cleared when it is taken; the comments on `bitmap_alloc` there and in bitmap.h have it
-- the other way round. A word is a number below 2 ^ 32. `none` is a failed `assert`.
pub mod Words
pub mod Search
pub mod Alloc
pub mod Create
mod Tests
use nk_os_team.Prelude.{
  ℕ, zero, suc, ◌+◌, ◌-◌, ◌*◌, ◌/◌, ◌%◌, ◌^◌, Bool, not, ◌&&◌, ◌||◌, Option, none, some, map, ltb,
  ◌==◌, if◌then◌else◌, put,
}

pub record Bitmap : Type 0 where
  pub nbits : ℕ
  pub nwords : ℕ
  pub map : ℕ → ℕ

-- `w & (1 << offset)`
unfoldable pub bit : ℕ → ℕ → Bool
bit w zero = w % 2 == 1
bit w (suc o) = bit (w / 2) o

-- `w ^ (1 << offset)`
unfoldable pub flip_bit : ℕ → ℕ → ℕ
flip_bit w zero = if w % 2 == 1 then w - 1 else w + 1
flip_bit w (suc o) = w % 2 + 2 * flip_bit (w / 2) o

-- `w | (1 << offset)`
unfoldable pub set_bit : ℕ → ℕ → ℕ
set_bit w zero = if w % 2 == 1 then w else w + 1
set_bit w (suc o) = w % 2 + 2 * set_bit (w / 2) o

-- The bits of word `ix` from `overbits` on are flipped.
unfoldable pub flip_leftover : ℕ → (ℕ → ℕ) → (ix overbits : ℕ) → ℕ → ℕ
flip_leftover zero m ix o = m
flip_leftover (suc count) m ix o = flip_leftover count (put m ix (flip_bit (m ix) o)) ix (o + 1)

-- `memset(map, 0xFF, sizeof(WORD_TYPE) * nwords)`
abbrev pub fill : (ℕ → ℕ) → ℕ → ℕ → ℕ
fill m nwords ix = if ltb ix nwords then 2 ^ 32 - 1 else m ix

-- The map of `nbits` blocks in the memory `m`.
unfoldable pub mark_leftover : (ℕ → ℕ) → ℕ → Option (ℕ → ℕ)
mark_leftover m nbits =
    let nwords = (nbits + 31) / 32 in
    let ix = nwords - 1 in
    let overbits = nbits - ix * 32 in
    if nbits == nwords * 32
    then some (fill m nwords)
    else if nbits / 32 == ix && (ltb 0 overbits && ltb overbits 32)
    then some (flip_leftover (32 - overbits) (fill m nwords) ix overbits)
    else none

-- `got` tells if `kmalloc` gives the struct, and `memory` is what it gives for the map.
unfoldable pub bitmap_create : (got : Bool) → (memory : Option (ℕ → ℕ)) → ℕ → Option (Option Bitmap)
bitmap_create got memory nbits =
    if nbits == 0 || not (ltb nbits ((nbits + 32) % 2 ^ 64))
    then none
    else if not got
    then some none
    else elim memory [
      | none ↦ some none
      | some m ↦ elim (mark_leftover m nbits) [
        | none ↦ none
        | some map ↦ some (some (record { nbits = nbits; nwords = (nbits + 31) / 32; map = map }))
      ]
    ]

unfoldable pub find_offset : ℕ → (w offset : ℕ) → Option ℕ
find_offset zero w o = none
find_offset (suc count) w o =
    let rest = find_offset count w (o + 1) in if bit w o then some o else rest

-- The first word that is not 0, and its first bit.
unfoldable pub find_word : ℕ → (ℕ → ℕ) → (ix : ℕ) → Option (Option (ℕ × ℕ))
find_word zero m ix = some none
find_word (suc count) m ix =
    let rest = find_word count m (ix + 1) in
    let offset = find_offset 32 (m ix) 0 in
    if m ix == 0 then rest else elim offset [ none ↦ none | some o ↦ some (some (ix, o)) ]

-- The bit is cleared, and its index returned; `-E_NO_MEM` is `none` beside the state.
abbrev pub take_bit : Bitmap → Option (ℕ × ℕ) → Bitmap × Option ℕ
take_bit b none = (b, none)
take_bit b (some (ix, o)) =
    (record b { map = put b.map ix (flip_bit (b.map ix) o) }, some (ix * 32 + o))

unfoldable pub bitmap_alloc : Bitmap → Option (Bitmap × Option ℕ)
bitmap_alloc b = elim (find_word b.nwords b.map 0) [
  | none ↦ none
  | some found ↦ some (take_bit b found)
]

-- The word and the offset of a block.
abbrev pub bitmap_translate : Bitmap → ℕ → Option (ℕ × ℕ)
bitmap_translate b index = if ltb index b.nbits then some (index / 32, index % 32) else none

unfoldable pub bitmap_test : Bitmap → ℕ → Option Bool
bitmap_test b index = elim (bitmap_translate b index) [
  | none ↦ none
  | some (ix, o) ↦ some (bit (b.map ix) o)
]

unfoldable pub bitmap_free : Bitmap → ℕ → Option Bitmap
bitmap_free b index = elim (bitmap_translate b index) [
  | none ↦ none
  | some (ix, o) ↦
      if bit (b.map ix) o
      then none
      else some (record b { map = put b.map ix (set_bit (b.map ix) o) })
]

-- The length of the map in bytes.
abbrev pub bitmap_getdata : Bitmap → (ℕ → ℕ) × ℕ
bitmap_getdata b = (b.map, 4 * b.nwords)
