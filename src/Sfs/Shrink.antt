-- ===== src/Sfs/Shrink.antt =====
-- A file loses its last blocks, within the blocks that its inode lists.
use native.Mathlib.Decide.{ℕ_discrete}
use nk_os_team.Prelude.{
  ℕ, zero, suc, ◌+◌, ◌-◌, ◌*◌, ◌/◌, ◌≤◌, ◌<◌, ◌≡◌, refl, sym, ◌∙◌, ◌≢◌, some, arith, ==_iff,
  ==_of_ne, lt→ltb, put,
}
use nk_os_team.File.{ok}
use nk_os_team.Bitmap.Alloc.{free_at-toggled_ne}
use nk_os_team.Sfs.{Sfs, Device, Inode, sfs_blksize}
use nk_os_team.Sfs.Bmap.{sfs_ndirect, with_din, sfs_bmap_free_nolock, sfs_bmap_truncate_nolock}
use nk_os_team.Sfs.Io.{drop_blocks}
use nk_os_team.Sfs.Alloc.{IsSound, given_at, sfs_block_free_lem}
use nk_os_team.Sfs.Files.{IsUsed, content}
use nk_os_team.Sfs.Grow.{IsEnded, IsShort}
use nk_os_team.Sfs.Extend.{at_block}

-- The inode without its last block.
abbrev pub shorter : Inode → Inode
shorter sin =
    with_din sin (λ d. record d { direct = put d.direct (d.blocks - 1) 0; blocks = d.blocks - 1 })

shorter-IsEnded : (sin : Inode) → IsEnded sin → IsEnded (shorter sin)
shorter-IsEnded sin e i h l = elim (ℕ_discrete i (sin.din.blocks - 1)) [
  | yes f ↦ rw ((==_iff i (sin.din.blocks - 1)).1 f) refl
  | no f ↦ rw (==_of_ne i (sin.din.blocks - 1) f) (e i (omega arith) l)
]

put_below : (g : ℕ → ℕ) (n i : ℕ) → i < n → put g n 0 i ≡ g i
put_below g n i l = ground arith

below_ne : (i n : ℕ) → i < n → i ≢ n
below_ne i n l e = absurd (omega arith)

module _ {D : Type 0} where
  -- A block in use still is when another is given back.
  still-IsUsed : (s : Sfs D) (b c : ℕ) → c ≢ b → IsUsed s c → IsUsed (given_at s b) c
  still-IsUsed s b c d u = record {
    block = record { positive = u.block.positive; small = u.block.small };
    mapped = u.mapped;
    taken = free_at-toggled_ne s.freemap b c d ∙ u.taken;
  }

  shorter-IsShort :
      (s : Sfs D) (sin : Inode)
      → IsShort s sin
      → 0 < sin.din.blocks
      → IsShort (given_at s (sin.din.direct (sin.din.blocks - 1))) (shorter sin)
  shorter-IsShort s sin h pos =
      let n = sin.din.blocks - 1 in
      let differs = λ (i : ℕ) (l : i < n) (e : sin.din.direct i ≡ sin.din.direct n).
        below_ne i n l (h.distinct i n (omega arith) (omega arith) e) in
      record {
        short = omega (arith, h.short);
        used = λ i l. rw (==_of_ne i n (below_ne i n l)) (
            still-IsUsed s (sin.din.direct n) (sin.din.direct i) (differs i l)
              (h.used i (omega arith)));
        distinct = λ i j l k e.
            h.distinct i j (omega arith) (omega arith)
              (sym (put_below sin.din.direct n i l) ∙ e ∙ put_below sin.din.direct n j k);
      }

  module _ (V : Device D) where
    truncate_one :
        (s : Sfs D) (sin : Inode)
        → IsSound s
        → IsShort s sin
        → 0 < sin.din.blocks
        → sfs_bmap_truncate_nolock V s sin
          ≡ some ((given_at s (sin.din.direct (sin.din.blocks - 1)), shorter sin), ok 0)
    unfolding sfs_bmap_truncate_nolock sfs_bmap_free_nolock
    truncate_one s sin v h pos =
        let n = sin.din.blocks - 1 in
        let u = h.used n (omega arith) in
        rw
          (
            sfs_bmap_truncate_nolock,
            ==_of_ne sin.din.blocks 0 (omega arith),
            sfs_bmap_free_nolock,
            lt→ltb n sfs_ndirect (omega (arith, h.short)),
            ==_of_ne (sin.din.direct n) 0 (omega (arith, u.block.positive)),
            (sfs_block_free_lem s (sin.din.direct n) v u).0,
          )
          refl

    -- The file has lost `n` blocks, and they are free.
    pub record IsShrunk (s : Sfs D) (sin : Inode) (n : ℕ) (t : Sfs D) (u : Inode) : Type 0 where
      pub sound : IsSound t
      pub short : IsShort t u
      pub ended : IsEnded u
      pub blocks_on : u.din.blocks + n ≡ sin.din.blocks
      pub unused_on : t.unused_blocks ≡ s.unused_blocks + n
      pub size_same : u.din.size ≡ sin.din.size
      pub kept :
          (pos : ℕ) → pos < u.din.blocks * sfs_blksize → content V t u pos ≡ content V s sin pos

    IsShrunk-none :
        (s : Sfs D) (sin : Inode) → IsSound s → IsShort s sin → IsEnded sin → IsShrunk s sin 0 s sin
    IsShrunk-none s sin v h e = record {
      sound = v;
      short = h;
      ended = e;
      blocks_on = omega arith;
      unused_on = omega arith;
      size_same = refl;
      kept = λ pos l. refl;
    }

    IsShrunk-after :
        (s r : Sfs D) (sin x : Inode) (n : ℕ)
        → IsSound s
        → IsShort s sin
        → 0 < sin.din.blocks
        → IsShrunk (given_at s (sin.din.direct (sin.din.blocks - 1))) (shorter sin) n r x
        → IsShrunk s sin (suc n) r x
    IsShrunk-after s r sin x n v h pos a =
        let t = given_at s (sin.din.direct (sin.din.blocks - 1)) in
        record {
          sound = a.sound;
          short = a.short;
          ended = a.ended;
          blocks_on = omega (arith, a.blocks_on);
          unused_on = a.unused_on ∙ omega arith;
          size_same = a.size_same;
          kept = λ p l.
              let i : p / sfs_blksize < sin.din.blocks - 1 = omega (arith, a.blocks_on) in
              a.kept p l
              ∙ at_block V t (shorter sin) p (sin.din.direct (p / sfs_blksize))
                  (omega (arith, h.short))
                  (put_below sin.din.direct (sin.din.blocks - 1) (p / sfs_blksize) i)
              ∙ sym (
                  at_block V s sin p (sin.din.direct (p / sfs_blksize)) (omega (arith, h.short))
                    refl);
        }

    pub drop_blocks_lem :
        (n : ℕ) (s : Sfs D) (sin : Inode)
        → IsSound s
        → IsShort s sin
        → IsEnded sin
        → n ≤ sin.din.blocks
        → (t : Sfs D) × (u : Inode) × (drop_blocks V n s sin ≡ some ((t, u), ok 0))
          × IsShrunk s sin n t u
    unfolding drop_blocks
    drop_blocks_lem zero s sin v h e room = (s, sin, refl, IsShrunk-none s sin v h e)
    drop_blocks_lem (suc n) s sin v h e room =
        let b = sin.din.direct (sin.din.blocks - 1) in
        let (r, x, rest, a) =
          drop_blocks_lem n (given_at s b) (shorter sin)
            (sfs_block_free_lem s b v (h.used (sin.din.blocks - 1) (omega arith))).1
            (shorter-IsShort s sin h (omega arith)) (shorter-IsEnded sin e) (omega arith) in
        (
          r,
          x,
          rw (drop_blocks, truncate_one s sin v h (omega arith)) rest,
          IsShrunk-after s r sin x n v h (omega arith) a,
        )
