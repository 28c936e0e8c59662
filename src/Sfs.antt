-- ===== src/Sfs.antt =====
-- kern/fs/sfs/sfs.h and kern/fs/sfs/sfs_io.c: the blocks of the simple file system on its device. The
-- locks around each function leave it one step. `sfs_buffer` is filled by each function before it
-- is read, and is no part of the state. `none` is a failed `assert`, or a panic.
pub mod Blocks
pub mod Copy
pub mod Disk
pub mod Count
pub mod Alloc
pub mod Bmap
pub mod Io
pub mod Files
pub mod Written
pub mod Calls
pub mod Dirs
pub mod Grow
pub mod Extend
pub mod Shrink
pub mod Resize
mod Tests
use nk_os_team.Prelude.{
  ℕ, zero, suc, ◌+◌, ◌-◌, ◌*◌, ◌%◌, ◌^◌, Bool, true, not, ◌&&◌, ◌||◌, Option, none, some, ltb, leb,
  ◌==◌, if◌then◌else◌, ◌>>=◌,
}
use nk_os_team.File.{Ret, ok, err}
use nk_os_team.Bitmap.{Bitmap}

abbrev pub sfs_blksize : ℕ
sfs_blksize = 4096

-- `dop_io` of the device for a block at an offset: the bytes that it reads, or the device after it
-- has written, each with the error number.
pub record Device (D : Type 0) : Type 0 where
  pub dop_read : D → (offset : ℕ) → (ℕ → ℕ) × ℕ
  pub dop_write : D → (offset : ℕ) → (ℕ → ℕ) → D × ℕ

-- `struct sfs_fs`, with the numbers of `struct sfs_super`
pub record Sfs (D : Type 0) : Type 0 where
  pub blocks : ℕ
  pub unused_blocks : ℕ
  pub super_dirty : Bool
  pub freemap : Bitmap
  pub dev : D

-- `struct sfs_disk_inode`
pub record DiskInode : Type 0 where
  pub size : ℕ
  pub type : ℕ
  pub nlinks : ℕ
  pub blocks : ℕ
  pub direct : ℕ → ℕ
  pub indirect : ℕ

-- `struct sfs_inode`
pub record Inode : Type 0 where
  pub din : DiskInode
  pub ino : ℕ
  pub dirty : Bool

abbrev pub ret_of : (error : ℕ) → Ret
ret_of e = if e == 0 then ok 0 else err e

-- Memory with `n` bytes of `f` at `buf`.
abbrev pub copy_in : (ℕ → ℕ) → (buf : ℕ) → (ℕ → ℕ) → (n : ℕ) → ℕ → ℕ
copy_in m buf f n a = if leb buf a && ltb a (buf + n) then f (a - buf) else m a

-- The offset of a block, which is computed in 32 bits.
abbrev pub block_offset : ℕ → ℕ
block_offset blkno = blkno * sfs_blksize % 2 ^ 32

module _ {D : Type 0} (V : Device D) where
  -- What `sfs_rwblock_nolock` asserts.
  abbrev pub block_valid : Sfs D → (blkno : ℕ) → (check : Bool) → Bool
  block_valid s blkno check = (not (blkno == 0) || not check) && ltb blkno s.blocks

  -- `sfs_rwblock_nolock`, to read and to write
  unfoldable pub read_block : Sfs D → (blkno : ℕ) → (check : Bool) → Option ((ℕ → ℕ) × Ret)
  read_block s blkno check =
      if block_valid s blkno check
      then (let r = V.dop_read s.dev (block_offset blkno) in some (r.0, ret_of r.1))
      else none

  unfoldable pub write_block : Sfs D → (ℕ → ℕ) → (blkno : ℕ) → (check : Bool) → Option (Sfs D × Ret)
  write_block s buf blkno check =
      if block_valid s blkno check
      then (let r = V.dop_write s.dev (block_offset blkno) buf in
          some (record s { dev = r.0 }, ret_of r.1))
      else none

  -- The loop of `sfs_rwblock` ends at the first error.
  unfoldable pub sfs_rblock : Sfs D → (ℕ → ℕ) → (buf blkno nblks : ℕ) → Option ((ℕ → ℕ) × Ret)
  sfs_rblock s m buf blkno zero = some (m, ok 0)
  sfs_rblock s m buf blkno (suc n) = read_block s blkno true >>= λ r. elim (r.1) [
    | err e ↦ some (copy_in m buf r.0 sfs_blksize, err e)
    | ok _ ↦ sfs_rblock s (copy_in m buf r.0 sfs_blksize) (buf + sfs_blksize) (blkno + 1) n
  ]

  unfoldable pub sfs_wblock : Sfs D → (ℕ → ℕ) → (buf blkno nblks : ℕ) → Option (Sfs D × Ret)
  sfs_wblock s m buf blkno zero = some (s, ok 0)
  sfs_wblock s m buf blkno (suc n) = write_block s (λ j. m (buf + j)) blkno true >>= λ r.
      elim (r.1) [
        | err e ↦ some (r.0, err e)
        | ok _ ↦ sfs_wblock r.0 m (buf + sfs_blksize) (blkno + 1) n
      ]

  -- What `sfs_rbuf` and `sfs_wbuf` assert.
  abbrev pub range_valid : (len offset : ℕ) → Bool
  range_valid len offset = ltb offset sfs_blksize && leb (offset + len) sfs_blksize

  unfoldable pub sfs_rbuf : Sfs D → (ℕ → ℕ) → (buf len blkno offset : ℕ) → Option ((ℕ → ℕ) × Ret)
  sfs_rbuf s m buf len blkno offset =
      if range_valid len offset
      then (read_block s blkno true >>= λ r. elim (r.1) [
        | err e ↦ some (m, err e)
        | ok _ ↦ some (copy_in m buf (λ j. r.0 (offset + j)) len, ok 0)
      ])
      else none

  unfoldable pub sfs_wbuf : Sfs D → (ℕ → ℕ) → (buf len blkno offset : ℕ) → Option (Sfs D × Ret)
  sfs_wbuf s m buf len blkno offset =
      if range_valid len offset
      then (read_block s blkno true >>= λ r. elim (r.1) [
        | err e ↦ some (s, err e)
        | ok _ ↦ write_block s (copy_in r.0 offset (λ j. m (buf + j)) len) blkno true
      ])
      else none

  -- For no block at all, the source returns a number that it has not set. Every call is for one block.
  unfoldable pub sfs_clear_block : Sfs D → (blkno nblks : ℕ) → Option (Sfs D × Ret)
  sfs_clear_block s blkno zero = some (s, ok 0)
  sfs_clear_block s blkno (suc n) = write_block s (λ j. 0) blkno true >>= λ r. elim (r.1) [
    | err e ↦ some (r.0, err e)
    | ok _ ↦ sfs_clear_block r.0 (blkno + 1) n
  ]
