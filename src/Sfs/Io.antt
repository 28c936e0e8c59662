-- ===== src/Sfs/Io.antt =====
-- kern/fs/sfs/sfs_inode.c: reading and writing a file, seeking and changing its size. An offset is
-- the 64-bit word of an `off_t`.
pub mod Pieces
pub mod Offsets
pub mod Parts
pub mod Transfer
pub mod RoundTrip
pub mod Sizes
use nk_os_team.Prelude.{
  ℕ, zero, suc, ◌+◌, ◌-◌, ◌*◌, ◌/◌, ◌%◌, ◌^◌, Bool, true, false, ◌||◌, Option, none, some, ltb, leb,
  ◌==◌, if◌then◌else◌, ◌>>=◌,
}
use nk_os_team.File.{Ret, ok, err}
use nk_os_team.Sfs.{Sfs, Device, Inode, sfs_blksize, sfs_rbuf, sfs_wbuf, sfs_rblock, sfs_wblock}
use nk_os_team.Sfs.Bmap.{with_din, sfs_bmap_load_nolock, sfs_bmap_truncate_nolock}

abbrev pub e_inval : ℕ
e_inval = 3

abbrev pub sfs_max_file_size : ℕ
sfs_max_file_size = 1024 * 1024 * 128

abbrev pub sfs_type_dir : ℕ
sfs_type_dir = 2

abbrev pub is_negative : (off : ℕ) → Bool
is_negative off = leb (2 ^ 63) off

abbrev pub io_min : ℕ → ℕ → ℕ
io_min a b = if ltb b a then b else a

-- The inode with the size that `out` gives it, if that is more.
abbrev pub grown : Inode → (end : ℕ) → Inode
grown sin end =
    if ltb sin.din.size end then with_din sin (λ d. record d { size = end % 2 ^ 32 }) else sin

-- The locals of `sfs_io_nolock`, with the state and the memory that it reads or writes.
pub record Io (D : Type 0) : Type 0 where
  pub sfs : Sfs D
  pub sin : Inode
  pub memory : ℕ → ℕ
  pub buf : ℕ
  pub offset : ℕ
  pub blkno : ℕ
  pub alen : ℕ

module _ {D : Type 0} (V : Device D) where
  -- `sfs_buf_op` and `sfs_block_op`
  unfoldable pub sfs_buf_op : (write : Bool) → Io D → (len blkno offset : ℕ) → Option (Io D × Ret)
  sfs_buf_op true s len blkno offset =
      sfs_wbuf V s.sfs s.memory s.buf len blkno offset >>= λ r. some (record s { sfs = r.0 }, r.1)
  sfs_buf_op false s len blkno offset = sfs_rbuf V s.sfs s.memory s.buf len blkno offset >>= λ r.
      some (record s { memory = r.0 }, r.1)

  unfoldable pub sfs_block_op : (write : Bool) → Io D → (blkno nblks : ℕ) → Option (Io D × Ret)
  sfs_block_op true s blkno n =
      sfs_wblock V s.sfs s.memory s.buf blkno n >>= λ r. some (record s { sfs = r.0 }, r.1)
  sfs_block_op false s blkno n =
      sfs_rblock V s.sfs s.memory s.buf blkno n >>= λ r. some (record s { memory = r.0 }, r.1)

  -- The block of the file is looked up before each transfer.
  unfoldable pub with_block : Io D → (Io D → (ino : ℕ) → Option (Io D × Ret)) → Option (Io D × Ret)
  with_block s op = sfs_bmap_load_nolock V s.sfs s.sin s.blkno >>= λ r.
      let s' = record s { sfs = r.0.0; sin = r.0.1 } in
      elim (r.1) [ err e ↦ some (s', err e) | ok ino ↦ op s' ino ]

  abbrev pub move_on : Io D → (size : ℕ) → Io D
  move_on s n = record s {
    alen = s.alen + n;
    buf = s.buf + n;
    offset = s.offset + n;
    blkno = s.blkno + 1;
  }

  -- Up to the end of the first block, if the transfer begins inside of one.
  unfoldable pub io_head : (write : Bool) → Io D → (endpos : ℕ) → Option (Io D × Ret)
  io_head write s endpos =
      let blkoff = s.offset % sfs_blksize in
      let nblks = endpos / sfs_blksize - s.blkno in
      let size = if nblks == 0 then endpos - s.offset else sfs_blksize - blkoff in
      if blkoff == 0
      then some (s, ok 0)
      else (with_block s (λ s' ino. sfs_buf_op write s' size ino blkoff) >>= λ r. elim (r.1) [
        | err e ↦ some (r.0, err e)
        | ok _ ↦ some (move_on r.0 size, ok 0)
      ])

  -- The whole blocks.
  unfoldable pub io_body : ℕ → (write : Bool) → Io D → (endpos : ℕ) → Option (Io D × Ret)
  io_body zero write s endpos = none
  io_body (suc fuel) write s endpos = elim (leb (s.offset + sfs_blksize) endpos) [
    | false ↦ some (s, ok 0)
    | true ↦ with_block s (λ s' ino. sfs_block_op write s' ino 1) >>= λ r. elim (r.1) [
      | err e ↦ some (r.0, err e)
      | ok _ ↦ io_body fuel write (move_on r.0 sfs_blksize) endpos
    ]
  ]

  -- The rest, of which `alen` alone takes note.
  unfoldable pub io_tail : (write : Bool) → Io D → (endpos : ℕ) → Option (Io D × Ret)
  io_tail write s endpos =
      let size = endpos - s.offset in
      if ltb s.offset endpos
      then (with_block s (λ s' ino. sfs_buf_op write s' size ino 0) >>= λ r. elim (r.1) [
        | err e ↦ some (r.0, err e)
        | ok _ ↦ some (record (r.0) { alen = r.0.alen + size }, ok 0)
      ])
      else some (s, ok 0)

  unfoldable pub io_parts : ℕ → (write : Bool) → Io D → (endpos : ℕ) → Option (Io D × Ret)
  io_parts fuel write s endpos = io_head write s endpos >>= λ h. elim (h.1) [
    | err e ↦ some (h.0, err e)
    | ok _ ↦ io_body fuel write h.0 endpos >>= λ b. elim (b.1) [
      | err e ↦ some (b.0, err e)
      | ok _ ↦ io_tail write b.0 endpos
    ]
  ]

  -- At `out`, `offset` has moved on.
  unfoldable pub io_range : ℕ → (write : Bool) → Io D → (endpos : ℕ) → Option (Io D × Ret)
  io_range fuel write s endpos =
      io_parts fuel write (record s { blkno = s.offset / sfs_blksize }) endpos >>= λ r.
      some (record (r.0) { sin = grown r.0.sin (r.0.offset + r.0.alen) }, r.1)

  -- The transfer up to `endpos`, which is cut off at the largest size and, to read, at the size.
  unfoldable pub io_to : ℕ → (write : Bool) → Io D → (endpos : ℕ) → Option (Io D × Ret)
  io_to fuel write s endpos =
      let end = io_min endpos sfs_max_file_size in
      if is_negative s.offset
        || (leb sfs_max_file_size s.offset || (is_negative endpos || ltb endpos s.offset))
      then some (s, err e_inval)
      else if s.offset == endpos
      then some (s, ok 0)
      else if write
      then io_range fuel write s end
      else if leb s.sin.din.size s.offset
      then some (s, ok 0)
      else io_range fuel write s (io_min end s.sin.din.size)

  -- The `len` bytes at `offset` of the file, from or to `buf`. In the result, `alen` is the length
  -- transferred.
  unfoldable pub sfs_io_nolock : ℕ → (write : Bool) → Io D → (len : ℕ) → Option (Io D × Ret)
  sfs_io_nolock fuel write s len =
      if s.sin.din.type == sfs_type_dir
      then none
      else io_to fuel write (record s { alen = 0 }) ((s.offset + len) % 2 ^ 64)

  -- The loops of `sfs_truncfile`.
  unfoldable pub add_blocks : (count : ℕ) → Sfs D → Inode → Option ((Sfs D × Inode) × Ret)
  add_blocks zero s sin = some ((s, sin), ok 0)
  add_blocks (suc n) s sin = sfs_bmap_load_nolock V s sin sin.din.blocks >>= λ r. elim (r.1) [
    | err e ↦ some (r.0, err e)
    | ok _ ↦ add_blocks n r.0.0 r.0.1
  ]

  unfoldable pub drop_blocks : (count : ℕ) → Sfs D → Inode → Option ((Sfs D × Inode) × Ret)
  drop_blocks zero s sin = some ((s, sin), ok 0)
  drop_blocks (suc n) s sin = sfs_bmap_truncate_nolock V s sin >>= λ r. elim (r.1) [
    | err e ↦ some (r.0, err e)
    | ok _ ↦ drop_blocks n r.0.0 r.0.1
  ]

  abbrev pub set_size : (len tblks : ℕ) → (Sfs D × Inode) × Ret → Option ((Sfs D × Inode) × Ret)
  set_size len tblks (s, err e) = some (s, err e)
  set_size len tblks (s, ok _) =
      if s.1.din.blocks == tblks
      then some ((s.0, with_din s.1 (λ d. record d { size = len })), ok 0)
      else none

  unfoldable pub sfs_truncfile : Sfs D → Inode → (len : ℕ) → Option ((Sfs D × Inode) × Ret)
  sfs_truncfile s sin len =
      let tblks = (len + sfs_blksize - 1) / sfs_blksize in
      let nblks = sin.din.blocks in
      if is_negative len || ltb sfs_max_file_size len
      then some ((s, sin), err e_inval)
      else if sin.din.size == len
      then (if tblks == nblks then some ((s, sin), ok 0) else none)
      else if ltb nblks tblks
      then (add_blocks (tblks - nblks) s sin >>= set_size len tblks)
      else (drop_blocks (nblks - tblks) s sin >>= set_size len tblks)

  unfoldable pub sfs_tryseek : Sfs D → Inode → (pos : ℕ) → Option ((Sfs D × Inode) × Ret)
  sfs_tryseek s sin pos =
      if is_negative pos || leb sfs_max_file_size pos
      then some ((s, sin), err e_inval)
      else if ltb sin.din.size pos
      then sfs_truncfile s sin pos
      else some ((s, sin), ok 0)
