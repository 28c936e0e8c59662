-- ===== src/Sfs/Blocks.antt =====
-- kern/fs/sfs/sfs_inode.c: blocks in use, allocated and freed.
use nk_os_team.Prelude.{
  ℕ, ◌+◌, ◌-◌, ◌%◌, ◌^◌, Bool, true, not, ◌&&◌, Option, none, some, ltb, ◌==◌, if◌then◌else◌, ◌>>=◌,
}
use nk_os_team.File.{Ret, ok, err}
use nk_os_team.Bitmap.{bitmap_alloc, bitmap_test, bitmap_free}
use nk_os_team.Sfs.{Sfs, Device, sfs_clear_block}

abbrev pub e_no_mem : ℕ
e_no_mem = 4

module _ {D : Type 0} where
  unfoldable pub sfs_block_inuse : Sfs D → (ino : ℕ) → Option Bool
  sfs_block_inuse s ino =
      if not (ino == 0) && ltb ino s.blocks
      then (bitmap_test s.freemap ino >>= λ free. some (not free))
      else none

  -- `assert(sfs_block_inuse(sfs, ino))`
  abbrev pub assert_inuse : {A : Type 0} → Sfs D → (ino : ℕ) → Option A → Option A
  assert_inuse s ino rest = sfs_block_inuse s ino >>= λ used. if used then rest else none

  unfoldable pub sfs_block_free : Sfs D → (ino : ℕ) → Option (Sfs D)
  sfs_block_free s ino = assert_inuse s ino (
      bitmap_free s.freemap ino >>= λ b. some (record s {
        freemap = b;
        unused_blocks = (s.unused_blocks + 1) % 2 ^ 32;
        super_dirty = true;
      }))

  module _ (V : Device D) where
    -- A block is taken, and cleared. If that fails, it stays taken.
    abbrev pub clear_taken : Sfs D → Option ℕ → Option (Sfs D × Ret)
    clear_taken s none = some (s, err e_no_mem)
    clear_taken s (some ino) =
        if ltb 0 s.unused_blocks
        then (let s' = record s { unused_blocks = s.unused_blocks - 1; super_dirty = true } in
            assert_inuse s' ino (
              sfs_clear_block V s' ino 1 >>= λ r.
              some (r.0, elim (r.1) [ ok _ ↦ ok ino | err e ↦ err e ])))
        else none

    unfoldable pub sfs_block_alloc : Sfs D → Option (Sfs D × Ret)
    sfs_block_alloc s = bitmap_alloc s.freemap >>= λ r. clear_taken (record s { freemap = r.0 }) r.1
