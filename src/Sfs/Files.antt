-- ===== src/Sfs/Files.antt =====
-- The blocks of a file, and `sfs_bmap_load_nolock` for a block that the file has.
use nk_os_team.Prelude.{
  ℕ, ◌+◌, ◌-◌, ◌*◌, ◌/◌, ◌%◌, ◌^◌, ◌≤◌, ◌<◌, ◌≡◌, refl, ◌≢◌, inl, inr, true, false, not, ◌&&◌, ◌||◌,
  some, arith, ltb, ◌==◌, if◌then◌else◌, ==_iff, ==_of_ne, lt→ltb, le→leb, Bool-cases,
}
use mathlib.Core.Path.{subst}
use nk_os_team.File.{ok}
use nk_os_team.Bitmap.{bitmap_test}
use nk_os_team.Bitmap.Alloc.{free_at}
use nk_os_team.Sfs.{Sfs, Device, Inode, sfs_blksize, copy_in}
use nk_os_team.Sfs.Blocks.{sfs_block_inuse}
use nk_os_team.Sfs.Bmap.{
  sfs_ndirect, sfs_blk_nentry, word_at, check_ino, sfs_bmap_get_sub_nolock, sfs_bmap_get_nolock,
  sfs_bmap_load_nolock,
}
use nk_os_team.Sfs.Disk.{bytes, IsWorking, IsBlock, sfs_rbuf_lem}

-- A block of the disk that is in use.
pub record IsUsed {D : Type 0} (s : Sfs D) (blkno : ℕ) : Type 0 where
  pub block : IsBlock s blkno
  pub mapped : blkno < s.freemap.nbits
  pub taken : free_at s.freemap blkno ≡ false

-- Which blocks are in use does not depend on what they hold.
pub IsUsed-dev :
    {D : Type 0} (s : Sfs D) (d : D) (b : ℕ) → IsUsed s b → IsUsed (record s { dev = d }) b
IsUsed-dev s d b u = record {
  block = record { positive = u.block.positive; small = u.block.small };
  mapped = u.mapped;
  taken = u.taken;
}

pub inuse-IsUsed : {D : Type 0} (s : Sfs D) (b : ℕ) → IsUsed s b → sfs_block_inuse s b ≡ some true
unfolding sfs_block_inuse bitmap_test
inuse-IsUsed s b h =
    rw
      (
        sfs_block_inuse,
        ==_of_ne b 0 (omega (arith, h.block.positive)),
        lt→ltb b s.blocks h.block.small,
        bitmap_test,
        lt→ltb b s.freemap.nbits h.mapped,
        h.taken,
      )
      refl

module _ {D : Type 0} (V : Device D) where
  -- The block of the disk that holds block `i` of the file.
  abbrev pub block_no : Sfs D → Inode → (i : ℕ) → ℕ
  block_no s sin i =
      if ltb i sfs_ndirect
      then sin.din.direct i
      else word_at (bytes V s sin.din.indirect) ((i - sfs_ndirect) * 4)

  -- The byte at a position of the file.
  abbrev pub content : Sfs D → Inode → (pos : ℕ) → ℕ
  content s sin pos = bytes V s (block_no s sin (pos / sfs_blksize)) (pos % sfs_blksize)

  -- The disk is not too large for an offset of 32 bits. The blocks of the file and the one that
  -- lists them are in use, and each has its own.
  pub record IsFile (s : Sfs D) (sin : Inode) : Type 0 where
    pub disk : s.blocks ≤ 2 ^ 20
    pub count : sin.din.blocks ≤ sfs_ndirect + sfs_blk_nentry
    pub used : (i : ℕ) → i < sin.din.blocks → IsUsed s (block_no s sin i)
    pub listed : sfs_ndirect < sin.din.blocks → IsUsed s sin.din.indirect
    pub distinct :
        (i j : ℕ)
        → i < sin.din.blocks
        → j < sin.din.blocks
        → block_no s sin i ≡ block_no s sin j
        → i ≡ j
    pub apart :
        (i : ℕ)
        → sfs_ndirect < sin.din.blocks
        → i < sin.din.blocks
        → block_no s sin i ≢ sin.din.indirect

  module _ (w : IsWorking V) where
    word-copy_in : (m f : ℕ → ℕ) (o : ℕ) → word_at (copy_in m 0 (λ j. f (o + j)) 4) 0 ≡ word_at f o
    word-copy_in m f o = ground arith

    either_way : (n : ℕ) → (not (n == 0) || true) ≡ true
    either_way n = ground arith

    get_sub_lem :
        (s : Sfs D) (ent index : ℕ)
        → IsUsed s ent
        → index < sfs_blk_nentry
        → sfs_bmap_get_sub_nolock V s ent index false
          ≡ some ((s, ent), ok (word_at (bytes V s ent) (index * 4)))
    unfolding sfs_bmap_get_sub_nolock
    get_sub_lem s ent index u h =
        rw
          (
            sfs_bmap_get_sub_nolock,
            lt→ltb index sfs_blk_nentry h,
            ==_of_ne ent 0 (omega (arith, u.block.positive)),
            sfs_rbuf_lem V w s (λ _. 0) 0 4 ent (index * 4) u.block (omega arith) (omega arith),
            word-copy_in (λ _. 0) (bytes V s ent) (index * 4),
            either_way (word_at (bytes V s ent) (index * 4)),
          )
          refl

    checked :
        (s : Sfs D) (sin : Inode) (b : ℕ) → IsUsed s b → check_ino V s sin b ≡ some ((s, sin), ok b)
    checked s sin b u = rw (==_of_ne b 0 (omega (arith, u.block.positive)), inuse-IsUsed s b u) refl

    never : (n : ℕ) → ((n == 0) && false) ≡ false
    never n = ground arith

    get_lem :
        (s : Sfs D) (sin : Inode) (i : ℕ)
        → IsFile s sin
        → i < sin.din.blocks
        → sfs_bmap_get_nolock V s sin i false ≡ some ((s, sin), ok (block_no s sin i))
    unfolding sfs_bmap_get_nolock
    get_lem s sin i f h = elim (Bool-cases (ltb i sfs_ndirect)) [
      | inl e ↦
          let u : IsUsed s (sin.din.direct i) = subst (IsUsed s) (rw e refl) (f.used i h) in
          rw (sfs_bmap_get_nolock, e, never (sin.din.direct i)) (checked s sin (sin.din.direct i) u)
      | inr e ↦
          let ino = word_at (bytes V s sin.din.indirect) ((i - sfs_ndirect) * 4) in
          let u : IsUsed s ino = subst (IsUsed s) (rw e refl) (f.used i h) in
          let l : sfs_ndirect < sin.din.blocks = ground arith in
          rw
            (
              sfs_bmap_get_nolock,
              e,
              lt→ltb (i - sfs_ndirect) sfs_blk_nentry (omega (arith, f.count)),
              get_sub_lem s sin.din.indirect (i - sfs_ndirect) (f.listed l)
                  (omega (arith, f.count)),
              (==_iff sin.din.indirect sin.din.indirect).1 refl,
            )
            (checked s sin ino u)
    ]

    pub sfs_bmap_load_nolock_lem :
        (s : Sfs D) (sin : Inode) (i : ℕ)
        → IsFile s sin
        → i < sin.din.blocks
        → sfs_bmap_load_nolock V s sin i ≡ some ((s, sin), ok (block_no s sin i))
    unfolding sfs_bmap_load_nolock
    sfs_bmap_load_nolock_lem s sin i f h =
        rw
          (
            sfs_bmap_load_nolock,
            le→leb i sin.din.blocks (omega arith),
            ==_of_ne i sin.din.blocks (omega arith),
            get_lem s sin i f h,
            inuse-IsUsed s (block_no s sin i) (f.used i h),
            ==_of_ne i sin.din.blocks (omega arith),
          )
          refl
