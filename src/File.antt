-- ===== src/File.antt =====
-- kern/fs/file.c: the table of open files of a process, over the calls of the vfs that it makes.
-- The vfs is a parameter. A call that can sleep gives other threads of the process the time to
-- use the table; `meanwhile` is what they do. An error number is 0 for success, and returned
-- negated. `none` is a failed `assert` or a null pointer read. Positions are not bounded here.
pub mod Table
pub mod Calls
pub mod Close
pub mod Endings
pub mod Open
pub mod Transfer
mod Tests
use nk_os_team.Prelude.{
  ℕ, zero, suc, ◌+◌, ◌-◌, ◌/◌, ◌%◌, ◌^◌, Bool, true, false, not, ◌&&◌, ◌||◌, Option, none, some,
  ltb, ◌==◌, if◌then◌else◌, put, ◌>>=◌,
}

pub data Ret : Type 0 where
  ok : ℕ → Ret
  err : ℕ → Ret

-- A file descriptor that a caller passes: `NO_FD`, another negative number, or a number.
pub data Fd : Type 0 where
  no_fd negative : Fd
  at : ℕ → Fd

pub data Status : Type 0 where
  fd_none fd_init fd_opened fd_closed : Status

pub record File : Type 0 where
  pub status : Status
  pub readable : Bool
  pub writable : Bool
  pub fd : ℕ
  pub pos : ℕ
  pub node : Option ℕ
  pub open_count : ℕ

-- `struct iobuf`
pub record Iobuf : Type 0 where
  pub io_base : ℕ
  pub io_offset : ℕ
  pub io_len : ℕ
  pub io_resid : ℕ

abbrev pub iobuf_init : (base len offset : ℕ) → Iobuf
iobuf_init base len offset = record {
  io_base = base;
  io_offset = offset;
  io_len = len;
  io_resid = len;
}

abbrev pub iobuf_used : Iobuf → ℕ
iobuf_used iob = (iob.io_len + 2 ^ 64 - iob.io_resid) % 2 ^ 64

-- The calls of the vfs, with the state that they work on. Nodes and paths are numbers.
pub record Vfs (S : Type 0) : Type 0 where
  pub vfs_open : S → (path open_flags : ℕ) → S × Ret
  pub vfs_close : S → ℕ → S
  pub vop_ref_inc : S → ℕ → S
  pub vop_open_inc : S → ℕ → S
  pub vop_fstat : S → ℕ → S × Ret
  pub vop_read : S → ℕ → Iobuf → S × Iobuf × ℕ
  pub vop_write : S → ℕ → Iobuf → S × Iobuf × ℕ
  pub vop_fsync : S → ℕ → S × ℕ

-- The process's `fd_array` and `files_count`, and the state of the vfs.
pub record World (S : Type 0) : Type 0 where
  pub files : ℕ → File
  pub files_count : ℕ
  pub vfs : S

abbrev pub e_inval : ℕ
e_inval = 3

abbrev pub e_busy : ℕ
e_busy = 15

abbrev pub e_max_open : ℕ
e_max_open = 22

abbrev pub is_none : Status → Bool
is_none fd_none = true
is_none _ = false

abbrev pub is_init : Status → Bool
is_init fd_init = true
is_init _ = false

abbrev pub is_opened : Status → Bool
is_opened fd_opened = true
is_opened _ = false

abbrev pub is_closed : Status → Bool
is_closed fd_closed = true
is_closed _ = false

abbrev pub has_node : Option ℕ → Bool
has_node none = false
has_node (some n) = true

-- The modes of `open_flags & O_ACCMODE`: readable and writable.
abbrev pub access : ℕ → Option (Bool × Bool)
access flags =
    if flags % 4 == 0
    then some (true, false)
    else if flags % 4 == 1
    then some (false, true)
    else if flags % 4 == 2
    then some (true, true)
    else none

-- `open_flags & O_APPEND`
abbrev pub appends : ℕ → Bool
appends flags = flags / 2 ^ 5 % 2 == 1

module _ {S : Type 0} (V : Vfs S) (nentry : ℕ) where
  abbrev pub with_file : World S → ℕ → (File → File) → World S
  with_file w i f = record w { files = put w.files i (f (w.files i)) }

  abbrev pub with_vfs : World S → S → World S
  with_vfs w s = record w { vfs = s }

  -- The loop from descriptor `fd` on: every file is closed.
  unfoldable pub fd_array_init : ℕ → (ℕ → File) → ℕ → ℕ → File
  fd_array_init zero fs fd = fs
  fd_array_init (suc count) fs fd =
      fd_array_init count (put fs fd (record (fs fd) { open_count = 0; status = fd_none; fd = fd }))
        (fd + 1)

  -- The first file from descriptor `fd` on that is not in use.
  unfoldable pub find_free : ℕ → (ℕ → File) → ℕ → Option ℕ
  find_free zero fs fd = none
  find_free (suc count) fs fd =
      let rest = find_free count fs (fd + 1) in if is_none (fs fd).status then some fd else rest

  unfoldable pub found : World S → ℕ → Option (World S × Ret)
  found w i =
      if (w.files i).open_count == 0
      then some (with_file w i (λ f. record f { status = fd_init; node = none }), ok i)
      else none

  abbrev pub no_room : World S → Option ℕ → Option (World S × Ret)
  no_room w none = some (w, err e_max_open)
  no_room w (some i) = found w i

  abbrev pub alloc_at : World S → Fd → Option (World S × Ret)
  alloc_at w no_fd = no_room w (find_free nentry w.files 0)
  alloc_at w negative = some (w, err e_inval)
  alloc_at w (at i) =
      if ltb i nentry
      then (if is_none (w.files i).status then found w i else some (w, err e_busy))
      else some (w, err e_inval)

  -- `get_fd_array` wants a table that is in use.
  unfoldable pub fd_array_alloc : World S → Fd → Option (World S × Ret)
  fd_array_alloc w fd = if ltb 0 w.files_count then alloc_at w fd else none

  abbrev pub close_node : World S → Option ℕ → Option (World S)
  close_node w none = none
  close_node w (some n) = some (with_vfs w (V.vfs_close w.vfs n))

  unfoldable pub fd_array_free : World S → ℕ → Option (World S)
  fd_array_free w i =
      if (is_init (w.files i).status || is_closed (w.files i).status) && (w.files i).open_count == 0
      then (do
        w' ← if is_closed (w.files i).status then close_node w (w.files i).node else some w
        some (with_file w' i (λ f. record f { status = fd_none })))
      else none

  unfoldable pub fd_array_acquire : World S → ℕ → Option (World S)
  fd_array_acquire w i =
      if is_opened (w.files i).status
      then some (with_file w i (λ f. record f { open_count = f.open_count + 1 }))
      else none

  -- `if (fopen_count_dec(file) == 0) fd_array_free(file)`
  unfoldable pub count_dec : World S → ℕ → Option (World S)
  unfolding fd_array_free
  count_dec w i =
      let w' = with_file w i (λ f. record f { open_count = f.open_count - 1 }) in
      if (w'.files i).open_count == 0 then fd_array_free w' i else some w'

  unfoldable pub fd_array_release : World S → ℕ → Option (World S)
  unfolding count_dec
  fd_array_release w i =
      if (is_opened (w.files i).status || is_closed (w.files i).status)
        && ltb 0 (w.files i).open_count
      then count_dec w i
      else none

  unfoldable pub fd_array_open : World S → ℕ → Option (World S)
  fd_array_open w i =
      if is_init (w.files i).status && has_node (w.files i).node
      then some
          (with_file w i (λ f. record f { status = fd_opened; open_count = f.open_count + 1 }))
      else none

  unfoldable pub fd_array_close : World S → ℕ → Option (World S)
  unfolding count_dec
  fd_array_close w i =
      if is_opened (w.files i).status && ltb 0 (w.files i).open_count
      then count_dec (with_file w i (λ f. record f { status = fd_closed })) i
      else none

  abbrev pub share_node : World S → Option ℕ → Option (World S)
  share_node w none = none
  share_node w (some n) = some (with_vfs w (V.vop_open_inc (V.vop_ref_inc w.vfs n) n))

  unfoldable pub fd_array_dup : World S → (to from : ℕ) → Option (World S)
  unfolding fd_array_open
  fd_array_dup w to from =
      let source = w.files from in
      if is_init (w.files to).status && is_opened source.status
      then (do
        w' ← share_node w source.node
        fd_array_open
            (with_file w' to (λ f. record f {
              pos = source.pos;
              readable = source.readable;
              writable = source.writable;
              node = source.node;
            }))
            to)
      else none

  -- The open file with descriptor `fd`, if it is one.
  abbrev pub lookup : World S → ℕ → Option (Option ℕ)
  lookup w i =
      if not (ltb i nentry)
      then some none
      else if not (ltb 0 w.files_count)
      then none
      else if is_opened (w.files i).status && (w.files i).fd == i
      then some (some i)
      else some none

  unfoldable pub fd2file : World S → Fd → Option (Option ℕ)
  fd2file w no_fd = some none
  fd2file w negative = some none
  fd2file w (at i) = lookup w i

  -- The file's modes are looked at only if they are asked for.
  unfoldable pub file_testfd : World S → Fd → (readable writable : Bool) → Option Bool
  unfolding fd2file
  file_testfd w fd r x = fd2file w fd >>= λ found. elim found [
    | none ↦ some false
    | some i ↦ some (not (r && not (w.files i).readable) && not (x && not (w.files i).writable))
  ]
