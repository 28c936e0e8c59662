-- ===== src/Buffers.antt =====
-- kern/fs/iobuf.c: the buffer of a transfer, and moving bytes between it and other memory. The
-- pointer and the position are words of 64 bits. `none` is a failed `assert`.
pub mod Moves
mod Tests
use nk_os_team.Prelude.{
  ℕ, ◌+◌, ◌-◌, ◌%◌, ◌^◌, Bool, Option, none, some, ltb, leb, ◌==◌, if◌then◌else◌, ◌>>=◌,
}
use nk_os_team.Bytes.{memset, memmove}
use nk_os_team.File.{Iobuf, Ret, ok, err}

abbrev pub e_no_mem : ℕ
e_no_mem = 4

-- The buffer without its first `n` bytes.
abbrev pub skipped : Iobuf → (n : ℕ) → Iobuf
skipped iob n = record iob {
  io_base = (iob.io_base + n) % 2 ^ 64;
  io_offset = (iob.io_offset + n) % 2 ^ 64;
  io_resid = iob.io_resid - n;
}

unfoldable pub iobuf_skip : Iobuf → (n : ℕ) → Option Iobuf
iobuf_skip iob n = if leb n iob.io_resid then some (skipped iob n) else none

-- What is moved of `len` bytes, and what is returned when `rest` bytes are left.
abbrev pub moved_len : Iobuf → (len : ℕ) → ℕ
moved_len iob len = if ltb len iob.io_resid then len else iob.io_resid

abbrev pub left_over : (rest : ℕ) → Ret
left_over rest = if rest == 0 then ok 0 else err e_no_mem

-- From the buffer to `data`, or with `m2b` the other way. The result has the memory, the buffer and the
-- number of bytes moved.
unfoldable pub iobuf_move :
    (ℕ → ℕ) → Iobuf → (data_at len : ℕ) → (m2b : Bool) → Option (((ℕ → ℕ) × Iobuf × ℕ) × Ret)
iobuf_move m iob d len m2b =
    let n = moved_len iob len in
    let src = if m2b then d else iob.io_base in
    let dst = if m2b then iob.io_base else d in
    if ltb 0 n
    then (iobuf_skip iob n >>= λ b. some ((memmove m dst src n, b, n), left_over (len - n)))
    else some ((m, iob, n), left_over len)

unfoldable pub iobuf_move_zeros : (ℕ → ℕ) → Iobuf → (len : ℕ) → Option (((ℕ → ℕ) × Iobuf × ℕ) × Ret)
iobuf_move_zeros m iob len =
    let n = moved_len iob len in
    if ltb 0 n
    then (iobuf_skip iob n >>= λ b. some ((memset n m iob.io_base 0, b, n), left_over (len - n)))
    else some ((m, iob, n), left_over len)
