-- ===== src/File/Calls.antt =====
-- The calls on files by descriptor: `file_open` to `file_dup` of kern/fs/file.c.
use nk_os_team.Prelude.{ℕ, ◌+◌, Bool, Option, none, some, if◌then◌else◌, ◌>>=◌}
use nk_os_team.File.{
  Ret, ok, err, Fd, File, Iobuf, iobuf_init, iobuf_used, Vfs, World, e_inval, is_opened, access,
  appends, with_file, with_vfs, fd_array_alloc, fd_array_free, fd_array_acquire, fd_array_release,
  fd_array_open, fd_array_close, fd_array_dup, fd2file, no_fd,
}

-- The calls of the vfs in `file_open` that can sleep.
pub data Pause : Type 0 where
  after_open after_stat after_close : Pause

module _ {S : Type 0} (V : Vfs S) (nentry : ℕ) where
  -- The file is freed, and the error returned.
  unfoldable pub give_up : World S → ℕ → ℕ → Option (World S × Ret)
  give_up w i e = do w' ← fd_array_free V nentry w i; some (w', err e)

  -- The last lines of `file_open`.
  unfoldable pub set_open : World S → (i node pos : ℕ) → Bool × Bool → Option (World S × Ret)
  set_open w i n pos (r, x) = do
    w' ←
        fd_array_open V nentry
          (with_file V nentry w i
            (λ f. record f { pos = pos; node = some n; readable = r; writable = x }))
          i
    some (w', ok (w'.files i).fd)

  -- The position of a file that is opened to append is its size.
  unfoldable pub to_end :
      (Pause → World S → World S) → World S → (i node : ℕ) → Bool × Bool → Option (World S × Ret)
  unfolding give_up set_open
  to_end meanwhile w i n modes =
      let (s, r) = V.vop_fstat w.vfs n in
      let w' = meanwhile after_stat (with_vfs V nentry w s) in
      elim r [
        | err e ↦ give_up (meanwhile after_close (with_vfs V nentry w' (V.vfs_close w'.vfs n))) i e
        | ok size ↦ set_open w' i n size modes
      ]

  unfoldable pub open_node :
      (Pause → World S → World S)
      → World S
      → (i path flags : ℕ) → Bool × Bool
      → Option (World S × Ret)
  unfolding give_up set_open to_end
  open_node meanwhile w i path flags modes =
      let (s, r) = V.vfs_open w.vfs path flags in
      let w' = meanwhile after_open (with_vfs V nentry w s) in
      elim r [
        | err e ↦ give_up w' i e
        | ok n ↦
            let w'' = with_file V nentry w' i (λ f. record f { pos = 0 }) in
            if appends flags then to_end meanwhile w'' i n modes else set_open w'' i n 0 modes
      ]

  unfoldable pub open_with :
      (Pause → World S → World S)
      → World S
      → (path flags : ℕ) → Bool × Bool
      → Option (World S × Ret)
  unfolding open_node
  open_with meanwhile w path flags modes = fd_array_alloc V nentry w no_fd >>= λ p. elim p.1 [
    | err e ↦ some (p.0, err e)
    | ok i ↦ open_node meanwhile p.0 i path flags modes
  ]

  unfoldable pub file_open :
      (Pause → World S → World S) → World S → (path flags : ℕ) → Option (World S × Ret)
  unfolding open_with
  file_open meanwhile w path flags = elim (access flags) [
    | none ↦ some (w, err e_inval)
    | some modes ↦ open_with meanwhile w path flags modes
  ]

  abbrev pub close_found : World S → Option ℕ → Option (World S × Ret)
  close_found w none = some (w, err e_inval)
  close_found w (some i) = do w' ← fd_array_close V nentry w i; some (w', ok 0)

  unfoldable pub file_close : World S → Fd → Option (World S × Ret)
  file_close w fd = fd2file V nentry w fd >>= close_found w

  abbrev pub advance : ℕ → World S → ℕ → World S
  advance copied w i =
      if is_opened (w.files i).status
      then with_file V nentry w i (λ f. record f { pos = f.pos + copied })
      else w

  -- The call of the vfs on the node of file `i`, and what comes after it: the error number and the
  -- number of bytes.
  unfoldable pub move_bytes :
      (S → ℕ → Iobuf → S × Iobuf × ℕ)
      → (World S → World S)
      → World S
      → (i base len : ℕ) → Option ℕ
      → Option (World S × ℕ × ℕ)
  move_bytes op meanwhile w i base len none = none
  move_bytes op meanwhile w i base len (some n) =
      let (s, iob, ret) = op w.vfs n (iobuf_init base len (w.files i).pos) in
      let copied = iobuf_used iob in
      (do
        w' ← fd_array_release V nentry (advance copied (meanwhile (with_vfs V nentry w s)) i) i
        some (w', ret, copied))

  unfoldable pub transfer :
      (File → Bool)
      → (S → ℕ → Iobuf → S × Iobuf × ℕ)
      → (World S → World S)
      → World S
      → (base len : ℕ) → Option ℕ
      → Option (World S × ℕ × ℕ)
  unfolding move_bytes
  transfer allowed op meanwhile w base len none = some (w, e_inval, 0)
  transfer allowed op meanwhile w base len (some i) =
      if allowed (w.files i)
      then (do
        w' ← fd_array_acquire V nentry w i
        move_bytes op meanwhile w' i base len (w'.files i).node)
      else some (w, e_inval, 0)

  unfoldable pub file_read :
      (World S → World S) → World S → Fd → (base len : ℕ) → Option (World S × ℕ × ℕ)
  unfolding transfer
  file_read meanwhile w fd base len =
      fd2file V nentry w fd >>= transfer (λ f. f.readable) V.vop_read meanwhile w base len

  unfoldable pub file_write :
      (World S → World S) → World S → Fd → (base len : ℕ) → Option (World S × ℕ × ℕ)
  unfolding transfer
  file_write meanwhile w fd base len =
      fd2file V nentry w fd >>= transfer (λ f. f.writable) V.vop_write meanwhile w base len

  -- The file is held while `call` works on its node.
  unfoldable pub held :
      {A : Type 0}
      → (S → ℕ → S × A)
      → (World S → World S)
      → World S
      → ℕ
      → Option ℕ
      → Option (World S × A)
  held call meanwhile w i none = none
  held call meanwhile w i (some n) =
      let (s, a) = call w.vfs n in
      (do w' ← fd_array_release V nentry (meanwhile (with_vfs V nentry w s)) i; some (w', a))

  unfoldable pub hold :
      {A : Type 0}
      → (S → ℕ → S × A)
      → A
      → (World S → World S)
      → World S
      → Option ℕ
      → Option (World S × A)
  unfolding held
  hold call failed meanwhile w none = some (w, failed)
  hold call failed meanwhile w (some i) = do
    w' ← fd_array_acquire V nentry w i
    held call meanwhile w' i (w'.files i).node

  unfoldable pub file_fstat : (World S → World S) → World S → Fd → Option (World S × Ret)
  unfolding hold
  file_fstat meanwhile w fd = fd2file V nentry w fd >>= hold V.vop_fstat (err e_inval) meanwhile w

  unfoldable pub file_fsync : (World S → World S) → World S → Fd → Option (World S × ℕ)
  unfolding hold
  file_fsync meanwhile w fd = fd2file V nentry w fd >>= hold V.vop_fsync e_inval meanwhile w

  unfoldable pub dup_found : World S → Fd → Option ℕ → Option (World S × Ret)
  dup_found w fd2 none = some (w, err e_inval)
  dup_found w fd2 (some i) = fd_array_alloc V nentry w fd2 >>= λ p. elim p.1 [
    | err e ↦ some (p.0, err e)
    | ok j ↦ (do w' ← fd_array_dup V nentry p.0 j i; some (w', ok (w'.files j).fd))
  ]

  unfoldable pub file_dup : World S → (fd1 fd2 : Fd) → Option (World S × Ret)
  unfolding dup_found
  file_dup w fd1 fd2 = fd2file V nentry w fd1 >>= dup_found w fd2
