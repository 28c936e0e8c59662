-- ===== src/Buffers/Moves.antt =====
-- `iobuf_move` called more than once on the same buffer.
use mathlib.Core.Path.{ap₂}
use nk_os_team.Prelude.{
  ℕ, ◌+◌, ◌-◌, ◌%◌, ◌^◌, ◌≤◌, ◌<◌, ◌≡◌, refl, ap, ◌∙◌, ◌⊎◌, inl, inr, false, some, arith, lt→ltb,
  le→leb,
}
use nk_os_team.Bytes.{memmove}
use nk_os_team.Bytes.Move.{memmove_lem}
use nk_os_team.File.{Iobuf, ok}
use nk_os_team.Buffers.{skipped, moved_len, iobuf_skip, iobuf_move}

move_lem :
    (m : ℕ → ℕ) (iob : Iobuf) (d n : ℕ)
    → 0 < n
    → n ≤ iob.io_resid
    → iobuf_move m iob d n false ≡ some ((memmove m d iob.io_base n, skipped iob n, n), ok 0)
unfolding iobuf_move iobuf_skip
move_lem m iob d n pos h =
    let e : moved_len iob n ≡ n = ground arith in
    let z : n - n ≡ 0 = omega arith in
    rw (iobuf_move, e, lt→ltb 0 n pos, iobuf_skip, le→leb n iob.io_resid h, z) refl

skipped_twice : (iob : Iobuf) (n k : ℕ) → skipped (skipped iob n) k ≡ skipped iob (n + k)
skipped_twice iob n k =
    let base : ((iob.io_base + n) % 2 ^ 64 + k) % 2 ^ 64 ≡ (iob.io_base + (n + k)) % 2 ^ 64 =
      omega arith in
    let offset : ((iob.io_offset + n) % 2 ^ 64 + k) % 2 ^ 64 ≡ (iob.io_offset + (n + k)) % 2 ^ 64 =
      omega arith in
    let resid : iob.io_resid - n - k ≡ iob.io_resid - (n + k) = omega arith in
    ap₂
      (λ b r. record iob {
        io_base = b;
        io_offset = (((iob.io_offset + n) % 2 ^ 64 + k) % 2 ^ 64);
        io_resid = r;
      })
      base resid
    ∙ ap (λ o. record (skipped iob (n + k)) { io_offset = o }) offset

memmove_twice :
    (m : ℕ → ℕ) (d b n k j : ℕ)
    → (d + (n + k) ≤ b) ⊎ (b + (n + k) ≤ d)
    → memmove (memmove m d b n) (d + n) (b + n) k j ≡ memmove m d b (n + k) j
memmove_twice m d b n k j (inl h) =
    memmove_lem (memmove m d b n) (d + n) (b + n) k j
    ∙ ground (
      arith,
      memmove_lem m d b n j,
      memmove_lem m d b n (b + n + (j - (d + n))),
      memmove_lem m d b (n + k) j,
    )
memmove_twice m d b n k j (inr h) =
    memmove_lem (memmove m d b n) (d + n) (b + n) k j
    ∙ ground (
      arith,
      memmove_lem m d b n j,
      memmove_lem m d b n (b + n + (j - (d + n))),
      memmove_lem m d b (n + k) j,
    )

-- Two moves out of a buffer, of one or more bytes each and one behind the other, do what one move of all
-- the bytes does, if the buffer has them, its pointer does not wrap around, and it does not overlap the
-- memory that they go to. Each of the three returns no error.
pub move_twice :
    (m : ℕ → ℕ) (iob : Iobuf) (d n k : ℕ)
    → 0 < n
    → 0 < k
    → n + k ≤ iob.io_resid
    → iob.io_base + n < 2 ^ 64
    → (d + (n + k) ≤ iob.io_base) ⊎ (iob.io_base + (n + k) ≤ d)
    → (m₁ : ℕ → ℕ) × (m₂ : ℕ → ℕ) × (m₃ : ℕ → ℕ) × (b : Iobuf) × (iobuf_move m iob d n false
        ≡ some ((m₁, b, n), ok 0))
      × (iobuf_move m₁ b (d + n) k false ≡ some ((m₂, skipped iob (n + k), k), ok 0))
      × (iobuf_move m iob d (n + k) false ≡ some ((m₃, skipped iob (n + k), n + k), ok 0))
      × ((j : ℕ) → m₂ j ≡ m₃ j)
move_twice m iob d n k p q h l apart =
    let m₁ = memmove m d iob.io_base n in
    let b = skipped iob n in
    let e : (iob.io_base + n) % 2 ^ 64 ≡ iob.io_base + n = omega arith in
    (
      m₁,
      memmove m₁ (d + n) b.io_base k,
      memmove m d iob.io_base (n + k),
      b,
      move_lem m iob d n p (omega arith),
      move_lem m₁ b (d + n) k q (omega arith)
          ∙ ap (λ x. some ((memmove m₁ (d + n) b.io_base k, x, k), ok 0)) (skipped_twice iob n k),
      move_lem m iob d (n + k) (omega arith) h,
      λ j. ap (λ x. memmove m₁ (d + n) x k j) e ∙ memmove_twice m d iob.io_base n k j apart,
    )
