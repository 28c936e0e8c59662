-- ===== src/Sfs/Disk.antt =====
-- A device that works, and the block operations on it.
use nk_os_team.Prelude.{
  ℕ, ◌+◌, ◌^◌, ◌≤◌, ◌<◌, ◌≡◌, refl, ◌∙◌, true, some, arith, ◌==◌, if◌then◌else◌, ==_of_ne, lt→ltb,
  le→leb,
}
use native.Mathlib.Decide.{ℕ_discrete}
use nk_os_team.File.{ok}
use nk_os_team.Sfs.{
  Sfs, Device, sfs_blksize, block_offset, block_valid, read_block, write_block, copy_in, sfs_rblock,
  sfs_wblock, sfs_rbuf, sfs_wbuf,
}

-- The bytes of block `blkno`.
abbrev pub bytes : {D : Type 0} → Device D → Sfs D → (blkno : ℕ) → ℕ → ℕ
bytes V s blkno = (V.dop_read s.dev (block_offset blkno)).0

-- The file system with `f` in block `b`.
abbrev pub stored : {D : Type 0} → Device D → Sfs D → ℕ → (ℕ → ℕ) → Sfs D
stored V s b f = record s { dev = (V.dop_write s.dev (block_offset b) f).0 }

-- No transfer fails, and what is read of a block is what has been written last.
pub record IsWorking {D : Type 0} (V : Device D) : Type 0 where
  pub read_ok : (d : D) (o : ℕ) → (V.dop_read d o).1 ≡ 0
  pub write_ok : (d : D) (o : ℕ) (f : ℕ → ℕ) → (V.dop_write d o f).1 ≡ 0
  pub read_back :
      (d : D) (o p : ℕ) (f : ℕ → ℕ) (j : ℕ)
      → j < sfs_blksize
      → (V.dop_read (V.dop_write d o f).0 p).0 j ≡ (if p == o then f j else (V.dop_read d p).0 j)

-- A block number that the checks let through.
pub record IsBlock {D : Type 0} (s : Sfs D) (blkno : ℕ) : Type 0 where
  pub positive : 0 < blkno
  pub small : blkno < s.blocks

module _ {D : Type 0} (V : Device D) (w : IsWorking V) where
  block_valid-IsBlock : (s : Sfs D) (b : ℕ) → IsBlock s b → block_valid V s b true ≡ true
  block_valid-IsBlock s b h =
      rw (==_of_ne b 0 (omega (arith, h.positive)), lt→ltb b s.blocks h.small) refl

  pub read_block_lem :
      (s : Sfs D) (b : ℕ) → IsBlock s b → read_block V s b true ≡ some (bytes V s b, ok 0)
  unfolding read_block
  read_block_lem s b h =
      rw (read_block, block_valid-IsBlock s b h, w.read_ok s.dev (block_offset b)) refl

  pub write_block_lem :
      (s : Sfs D) (f : ℕ → ℕ) (b : ℕ)
      → IsBlock s b
      → write_block V s f b true ≡ some (stored V s b f, ok 0)
  unfolding write_block
  write_block_lem s f b h =
      rw (write_block, block_valid-IsBlock s b h, w.write_ok s.dev (block_offset b) f) refl

  pub bytes-stored :
      (s : Sfs D) (b c : ℕ) (f : ℕ → ℕ) (j : ℕ)
      → s.blocks ≤ 2 ^ 20
      → b < s.blocks
      → c < s.blocks
      → j < sfs_blksize
      → bytes V (stored V s b f) c j ≡ (if c == b then f j else bytes V s c j)
  bytes-stored s b c f j u k l h =
      w.read_back s.dev (block_offset b) (block_offset c) f j h ∙ elim (ℕ_discrete c b) [
        | yes e ↦ rw e (ground arith)
        | no d ↦ rw (==_of_ne c b d, ==_of_ne (block_offset c) (block_offset b) (omega arith)) refl
      ]

  pub sfs_rbuf_lem :
      (s : Sfs D) (m : ℕ → ℕ) (buf len b o : ℕ)
      → IsBlock s b
      → o < sfs_blksize
      → o + len ≤ sfs_blksize
      → sfs_rbuf V s m buf len b o ≡ some (copy_in m buf (λ j. bytes V s b (o + j)) len, ok 0)
  unfolding sfs_rbuf
  sfs_rbuf_lem s m buf len b o h l k =
      rw (sfs_rbuf, lt→ltb o sfs_blksize l, le→leb (o + len) sfs_blksize k, read_block_lem s b h)
        refl

  pub sfs_wbuf_lem :
      (s : Sfs D) (m : ℕ → ℕ) (buf len b o : ℕ)
      → IsBlock s b
      → o < sfs_blksize
      → o + len ≤ sfs_blksize
      → sfs_wbuf V s m buf len b o
        ≡ some (stored V s b (copy_in (bytes V s b) o (λ j. m (buf + j)) len), ok 0)
  unfolding sfs_wbuf
  sfs_wbuf_lem s m buf len b o h l k =
      rw (sfs_wbuf, lt→ltb o sfs_blksize l, le→leb (o + len) sfs_blksize k, read_block_lem s b h)
        (write_block_lem s (copy_in (bytes V s b) o (λ j. m (buf + j)) len) b h)

  -- One block, which is all that the file operations ask for at once.
  pub sfs_rblock_lem :
      (s : Sfs D) (m : ℕ → ℕ) (buf b : ℕ)
      → IsBlock s b
      → sfs_rblock V s m buf b 1 ≡ some (copy_in m buf (bytes V s b) sfs_blksize, ok 0)
  unfolding sfs_rblock
  sfs_rblock_lem s m buf b h = rw (sfs_rblock, read_block_lem s b h) refl

  pub sfs_wblock_lem :
      (s : Sfs D) (m : ℕ → ℕ) (buf b : ℕ)
      → IsBlock s b
      → sfs_wblock V s m buf b 1 ≡ some (stored V s b (λ j. m (buf + j)), ok 0)
  unfolding sfs_wblock
  sfs_wblock_lem s m buf b h = rw (sfs_wblock, write_block_lem s (λ j. m (buf + j)) b h) refl
