-- ===== src/Bitmap/Tests.antt =====
-- A map of 32 blocks of which 1 and 2 are free, and the theorems at it.
use nk_os_team.Prelude.{ℕ, ◌<◌, ◌≡◌, refl, true, some, arith, ◌==◌, if◌then◌else◌}
use nk_os_team.Bitmap.{
  Bitmap, bitmap_alloc, bitmap_free, bitmap_create, find_word, find_offset, bit, flip_bit,
}
use nk_os_team.Bitmap.Alloc.{Allocated, IsBitmap, toggled, free_at, bitmap_alloc_lem, free-alloc}
use nk_os_team.Bitmap.Create.{bitmap_create_lem}

abbrev two_free : Bitmap
two_free = record { nbits = 32; nwords = 1; map = λ j. if j == 0 then 6 else 0 }

two_free-IsBitmap : IsBitmap two_free
two_free-IsBitmap = record {
  words = λ j. ground arith;
  enough = refl;
  ended = λ i h l. absurd (omega arith);
}

bitmap_alloc_lem_example : Allocated two_free
bitmap_alloc_lem_example = bitmap_alloc_lem two_free two_free-IsBitmap

first_free : bitmap_alloc two_free ≡ some (toggled two_free 1, some 1)
unfolding bitmap_alloc find_word find_offset bit flip_bit
first_free = refl

free-alloc_example : bitmap_free (toggled two_free 1) 1 ≡ some two_free
free-alloc_example = free-alloc two_free (toggled two_free 1) 1 two_free-IsBitmap first_free

bitmap_create_lem_example :
    (b : Bitmap) × (bitmap_create true (some (λ j. 7)) 40 ≡ some (some b))
    × IsBitmap b
    × (b.nbits ≡ 40)
    × ((i : ℕ) → i < 40 → free_at b i ≡ true)
bitmap_create_lem_example =
    bitmap_create_lem (λ j. 7) 40 (λ j. omega arith) (omega arith) (omega arith)
