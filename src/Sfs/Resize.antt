-- ===== src/Sfs/Resize.antt =====
-- `sfs_truncfile` and `sfs_tryseek`, within the blocks that the inode lists.
use native.Mathlib.Decide.{ℕ_discrete}
use nk_os_team.Prelude.{
  ℕ, ◌+◌, ◌-◌, ◌*◌, ◌/◌, ◌^◌, ◌≤◌, ◌<◌, ◌≡◌, refl, sym, ap, ◌∙◌, ◌≢◌, inl, inr, some, arith, ltb,
  ==_iff, ==_of_ne, ltb→lt, lt→ltb, ltb_of_le, leb_of_lt, Bool-cases,
}
use nk_os_team.File.{ok}
use nk_os_team.Sfs.{Sfs, Device, Inode, sfs_blksize}
use nk_os_team.Sfs.Bmap.{sfs_ndirect, with_din}
use nk_os_team.Sfs.Io.{sfs_max_file_size, add_blocks, drop_blocks, set_size, sfs_truncfile}
use nk_os_team.Sfs.Disk.{IsWorking}
use nk_os_team.Sfs.Alloc.{IsSound}
use nk_os_team.Sfs.Files.{content}
use nk_os_team.Sfs.Grow.{IsEnded, IsShort}
use nk_os_team.Sfs.Extend.{IsExtended, add_blocks_lem}
use nk_os_team.Sfs.Shrink.{IsShrunk, drop_blocks_lem}

-- How many blocks it takes.
abbrev pub blocks_for : (len : ℕ) → ℕ
blocks_for len = (len + sfs_blksize - 1) / sfs_blksize

-- A file whose blocks its inode lists, and that has as many as its size takes.
pub record IsFitted {D : Type 0} (s : Sfs D) (sin : Inode) : Type 0 where
  pub sound : IsSound s
  pub short : IsShort s sin
  pub ended : IsEnded sin
  pub fitted : sin.din.blocks ≡ blocks_for sin.din.size

module _ {D : Type 0} (V : Device D) where
  -- The file has `len` bytes: those that it had, and zeros in new blocks. No block is lost or
  -- gained.
  pub record IsResized (s : Sfs D) (sin : Inode) (len : ℕ) (t : Sfs D) (u : Inode) : Type 0 where
    pub file : IsFitted t u
    pub size_now : u.din.size ≡ len
    pub unused_on : t.unused_blocks + u.din.blocks ≡ s.unused_blocks + sin.din.blocks
    pub kept :
        (pos : ℕ)
        → pos < sin.din.blocks * sfs_blksize
        → pos < u.din.blocks * sfs_blksize
        → content V t u pos ≡ content V s sin pos
    pub zeros :
        (pos : ℕ)
        → sin.din.blocks * sfs_blksize ≤ pos
        → pos < u.din.blocks * sfs_blksize
        → content V t u pos ≡ 0

  resize-IsFitted :
      (t : Sfs D) (u : Inode) (len : ℕ)
      → IsSound t
      → IsShort t u
      → IsEnded u
      → u.din.blocks ≡ blocks_for len
      → IsFitted t (with_din u (λ d. record d { size = len }))
  resize-IsFitted t u len v h e f = record {
    sound = v;
    short = record { short = h.short; used = h.used; distinct = h.distinct };
    ended = e;
    fitted = f;
  }

  extended-IsResized :
      (s t : Sfs D) (sin u : Inode) (len n : ℕ)
      → IsExtended V s sin n t u
      → sin.din.blocks + n ≡ blocks_for len
      → IsResized s sin len t (with_din u (λ d. record d { size = len }))
  extended-IsResized s t sin u len n a e = record {
    file = resize-IsFitted t u len a.sound a.short a.ended (a.blocks_on ∙ e);
    size_now = refl;
    unused_on = omega (arith, a.blocks_on, a.unused_on);
    kept = λ pos l k. a.kept pos l;
    zeros = a.zeros;
  }

  shrunk-IsResized :
      (s t : Sfs D) (sin u : Inode) (len n : ℕ)
      → IsShrunk V s sin n t u
      → sin.din.blocks ≡ blocks_for len + n
      → IsResized s sin len t (with_din u (λ d. record d { size = len }))
  shrunk-IsResized s t sin u len n a e = record {
    file = resize-IsFitted t u len a.sound a.short a.ended (omega (arith, a.blocks_on));
    size_now = refl;
    unused_on = omega (arith, a.blocks_on, a.unused_on);
    kept = λ pos l k. a.kept pos k;
    zeros = λ pos l k. absurd (omega (arith, a.blocks_on));
  }

  set_size_lem :
      (len : ℕ) (t : Sfs D) (u : Inode)
      → u.din.blocks ≡ blocks_for len
      → set_size V len (blocks_for len) ((t, u), ok 0)
        ≡ some ((t, with_din u (λ d. record d { size = len })), ok 0)
  set_size_lem len t u e = rw ((==_iff u.din.blocks (blocks_for len)).1 e) refl

  module _ (w : IsWorking V) (s : Sfs D) (sin : Inode) (f : IsFitted s sin) (len : ℕ) where
    same-IsResized : sin.din.size ≡ len → IsResized s sin len s sin
    same-IsResized e = record {
      file = f;
      size_now = e;
      unused_on = refl;
      kept = λ pos l k. refl;
      zeros = λ pos l k. absurd (omega arith);
    }

    module _ (small : len ≤ sfs_ndirect * sfs_blksize) where
      truncfile_same : sin.din.size ≡ len → sfs_truncfile V s sin len ≡ some ((s, sin), ok 0)
      unfolding sfs_truncfile
      truncfile_same e =
          rw
            (
              sfs_truncfile,
              leb_of_lt (2 ^ 63) len (omega arith),
              ltb_of_le sfs_max_file_size len (omega arith),
              (==_iff sin.din.size len).1 e,
              (==_iff (blocks_for len) sin.din.blocks).1 (sym (f.fitted ∙ ap blocks_for e)),
            )
            refl

      truncfile_more :
          (t : Sfs D) (u : Inode)
          → sin.din.size ≢ len
          → sin.din.blocks < blocks_for len
          → add_blocks V (blocks_for len - sin.din.blocks) s sin ≡ some ((t, u), ok 0)
          → u.din.blocks ≡ blocks_for len
          → sfs_truncfile V s sin len ≡ some ((t, with_din u (λ d. record d { size = len })), ok 0)
      unfolding sfs_truncfile
      truncfile_more t u d l run e =
          rw
            (
              sfs_truncfile,
              leb_of_lt (2 ^ 63) len (omega arith),
              ltb_of_le sfs_max_file_size len (omega arith),
              ==_of_ne sin.din.size len d,
              lt→ltb sin.din.blocks (blocks_for len) l,
              run,
            )
            (set_size_lem len t u e)

      truncfile_less :
          (t : Sfs D) (u : Inode)
          → sin.din.size ≢ len
          → blocks_for len ≤ sin.din.blocks
          → drop_blocks V (sin.din.blocks - blocks_for len) s sin ≡ some ((t, u), ok 0)
          → u.din.blocks ≡ blocks_for len
          → sfs_truncfile V s sin len ≡ some ((t, with_din u (λ d. record d { size = len })), ok 0)
      unfolding sfs_truncfile
      truncfile_less t u d l run e =
          rw
            (
              sfs_truncfile,
              leb_of_lt (2 ^ 63) len (omega arith),
              ltb_of_le sfs_max_file_size len (omega arith),
              ==_of_ne sin.din.size len d,
              ltb_of_le sin.din.blocks (blocks_for len) l,
              run,
            )
            (set_size_lem len t u e)

      -- On a device that works, `sfs_truncfile` gives a file any size up to the 12 blocks that its inode
      -- lists, if there are free blocks enough, the map of the disk is sound, and the file has as many
      -- blocks as its size takes, which are in use and apart. All this is so of the file and the disk
      -- after it. The bytes in the blocks that stay are those of before, new blocks are zeros, and the
      -- blocks freed or taken are accounted for.
      pub truncfile_resizes :
          blocks_for len ≤ sin.din.blocks + s.unused_blocks
          → (t : Sfs D) × (u : Inode) × (sfs_truncfile V s sin len ≡ some ((t, u), ok 0))
            × IsResized s sin len t u
      truncfile_resizes free = elim (ℕ_discrete sin.din.size len) [
        | yes e ↦ (s, sin, truncfile_same e, same-IsResized e)
        | no d ↦ elim (Bool-cases (ltb sin.din.blocks (blocks_for len))) [
          | inl e ↦
              let l = ltb→lt sin.din.blocks (blocks_for len) e in
              let n = blocks_for len - sin.din.blocks in
              let (t, u, run, a) =
                add_blocks_lem V w n s sin f.sound f.short f.ended (omega arith) (omega arith) in
              (
                t,
                with_din u (λ d. record d { size = len }),
                truncfile_more t u d l run (omega (arith, a.blocks_on)),
                extended-IsResized s t sin u len n a (omega arith),
              )
          | inr e ↦
              let l : blocks_for len ≤ sin.din.blocks = ground arith in
              let n = sin.din.blocks - blocks_for len in
              let (t, u, run, a) =
                drop_blocks_lem V n s sin f.sound f.short f.ended (omega arith) in
              (
                t,
                with_din u (λ d. record d { size = len }),
                truncfile_less t u d l run (omega (arith, a.blocks_on)),
                shrunk-IsResized s t sin u len n a (omega arith),
              )
        ]
      ]
