-- ===== src/Sfs/Extend.antt =====
-- A file grows by a number of blocks, within those that its inode lists.
use mathlib.Core.Path.{subst}
use nk_os_team.Prelude.{
  ℕ, zero, suc, ◌+◌, ◌*◌, ◌/◌, ◌%◌, ◌≤◌, ◌<◌, ◌≡◌, refl, sym, ap, ◌∙◌, inl, inr, true, some, arith,
  ltb, ◌==◌, if◌then◌else◌, ==_iff, ==_of_ne, ltb→lt, Bool-cases,
}
use nk_os_team.File.{ok}
use nk_os_team.Bitmap.Alloc.{free_at}
use nk_os_team.Sfs.{Sfs, Device, Inode, sfs_blksize}
use nk_os_team.Sfs.Count.{count_none}
use nk_os_team.Sfs.Bmap.{sfs_ndirect, sfs_bmap_load_nolock}
use nk_os_team.Sfs.Io.{add_blocks}
use nk_os_team.Sfs.Disk.{bytes, IsWorking}
use nk_os_team.Sfs.Alloc.{IsSound, taken_at, full, got, sfs_block_alloc_lem}
use nk_os_team.Sfs.Files.{IsUsed, content}
use nk_os_team.Sfs.Grow.{
  IsShort, IsEnded, longer, longer-IsEnded, longer-IsShort, load_new, direct_block, fresh,
}

module _ {D : Type 0} (V : Device D) where
  -- The file has `n` more blocks, of zeros, and they are no longer free.
  pub record IsExtended (s : Sfs D) (sin : Inode) (n : ℕ) (t : Sfs D) (u : Inode) : Type 0 where
    pub sound : IsSound t
    pub short : IsShort t u
    pub ended : IsEnded u
    pub blocks_on : u.din.blocks ≡ sin.din.blocks + n
    pub unused_on : t.unused_blocks + n ≡ s.unused_blocks
    pub size_same : u.din.size ≡ sin.din.size
    pub kept :
        (pos : ℕ) → pos < sin.din.blocks * sfs_blksize → content V t u pos ≡ content V s sin pos
    pub zeros :
        (pos : ℕ)
        → sin.din.blocks * sfs_blksize ≤ pos
        → pos < u.din.blocks * sfs_blksize
        → content V t u pos ≡ 0

  pub IsExtended-none :
      (s : Sfs D) (sin : Inode) → IsSound s → IsShort s sin → IsEnded sin → IsExtended s sin 0 s sin
  IsExtended-none s sin v h e = record {
    sound = v;
    short = h;
    ended = e;
    blocks_on = omega arith;
    unused_on = omega arith;
    size_same = refl;
    kept = λ pos l. refl;
    zeros = λ pos l k. absurd (omega arith);
  }

  pub IsExtended-again :
      (s t r : Sfs D) (sin u x : Inode) (n k : ℕ)
      → IsExtended s sin n t u
      → IsExtended t u k r x
      → IsExtended s sin (n + k) r x
  IsExtended-again s t r sin u x n k a b = record {
    sound = b.sound;
    short = b.short;
    ended = b.ended;
    blocks_on = omega (arith, a.blocks_on, b.blocks_on);
    unused_on = omega (arith, a.unused_on, b.unused_on);
    size_same = b.size_same ∙ a.size_same;
    kept = λ pos l. b.kept pos (omega (arith, a.blocks_on)) ∙ a.kept pos l;
    zeros = λ pos l h. elim (Bool-cases (ltb pos (u.din.blocks * sfs_blksize))) [
      | inl e ↦ let g = ltb→lt pos (u.din.blocks * sfs_blksize) e in b.kept pos g ∙ a.zeros pos l g
      | inr e ↦ b.zeros pos (ground arith) h
    ];
  }

  pub at_block :
      (s : Sfs D) (sin : Inode) (pos c : ℕ)
      → pos / sfs_blksize < sfs_ndirect
      → sin.din.direct (pos / sfs_blksize) ≡ c
      → content V s sin pos ≡ bytes V s c (pos % sfs_blksize)
  at_block s sin pos c h e =
      ap (λ x. bytes V s x (pos % sfs_blksize)) (direct_block V s sin (pos / sfs_blksize) h ∙ e)

  longer-IsExtended :
      (s t : Sfs D) (sin : Inode) (b : ℕ)
      → IsSound s
      → IsShort s sin
      → IsEnded sin
      → sin.din.blocks < sfs_ndirect
      → free_at s.freemap b ≡ true
      → IsUsed t b
      → IsSound t
      → t ≡ record (taken_at s b) { dev = t.dev }
      → t.unused_blocks + 1 ≡ s.unused_blocks
      → ((c j : ℕ)
          → c < s.blocks
          → j < sfs_blksize
          → bytes V t c j ≡ (if c == b then 0 else bytes V s c j))
      → IsExtended s sin 1 t (longer sin b)
  longer-IsExtended s t sin b v h ended room f u sound e less z = record {
    sound = sound;
    short = longer-IsShort V s t sin b h room f u e;
    ended = longer-IsEnded sin b ended;
    blocks_on = refl;
    unused_on = less;
    size_same = refl;
    kept = λ pos l.
        let i = pos / sfs_blksize in
        let k : i < sin.din.blocks = omega arith in
        let c = sin.din.direct i in
        let old = h.used i k in
        at_block t (longer sin b) pos c (omega arith)
          (rw (==_of_ne i sin.din.blocks (omega arith)) refl)
        ∙ z c (pos % sfs_blksize) old.block.small (omega arith)
        ∙ rw (==_of_ne c b (fresh V s b c f old)) refl
        ∙ sym (at_block s sin pos c (omega arith) refl);
    zeros = λ pos l k.
        let i : pos / sfs_blksize ≡ sin.din.blocks = omega arith in
        at_block t (longer sin b) pos b (omega arith)
          (rw ((==_iff (pos / sfs_blksize) sin.din.blocks).1 i) refl)
        ∙ z b (pos % sfs_blksize) (subst (λ x. b < x) (ap (λ x. x.blocks) e) u.block.small)
            (omega arith)
        ∙ rw ((==_iff b b).1 refl) refl;
  }

  module _ (w : IsWorking V) where
    -- If a block is free, the one behind the last is found for it, and it is the file's.
    load_grows :
        (s : Sfs D) (sin : Inode)
        → IsSound s
        → IsShort s sin
        → IsEnded sin
        → sin.din.blocks < sfs_ndirect
        → 0 < s.unused_blocks
        → (t : Sfs D) × (u : Inode) × (b : ℕ) × (sfs_bmap_load_nolock V s sin sin.din.blocks
            ≡ some ((t, u), ok b))
          × IsExtended s sin 1 t u
    load_grows s sin v h ended room free = elim (sfs_block_alloc_lem V w s v) [
      | full e all ↦ absurd (omega (arith, v.counted, count_none (free_at s.freemap) s.blocks all))
      | got b t run f u sound e less z ↦ (
        t,
        longer sin b,
        b,
        load_new V s t sin b room ended run u,
        longer-IsExtended s t sin b v h ended room f u sound e less z,
      )
    ]

    pub add_blocks_lem :
        (n : ℕ) (s : Sfs D) (sin : Inode)
        → IsSound s
        → IsShort s sin
        → IsEnded sin
        → sin.din.blocks + n ≤ sfs_ndirect
        → n ≤ s.unused_blocks
        → (t : Sfs D) × (u : Inode) × (add_blocks V n s sin ≡ some ((t, u), ok 0))
          × IsExtended s sin n t u
    unfolding add_blocks
    add_blocks_lem zero s sin v h e room free = (s, sin, refl, IsExtended-none s sin v h e)
    add_blocks_lem (suc n) s sin v h e room free =
        let (t, u, b, run, a) = load_grows s sin v h e (omega arith) (omega arith) in
        let (r, x, rest, c) =
          add_blocks_lem n t u a.sound a.short a.ended (omega (arith, a.blocks_on))
            (omega (arith, a.unused_on)) in
        (
          r,
          x,
          rw (add_blocks, run) rest,
          subst (λ k. IsExtended s sin k r x) (omega arith)
              (IsExtended-again s t r sin u x 1 n a c),
        )
