-- ===== src/Sfs/Grow.antt =====
-- A file grows by a block, within the blocks that its inode lists.
use native.Mathlib.Decide.{ℕ_discrete}
use mathlib.Core.Path.{subst}
use nk_os_team.Prelude.{
  ℕ, ◌+◌, ◌≤◌, ◌<◌, ◌≡◌, refl, sym, ap, ◌∙◌, ◌≢◌, true, some, arith, ◌==◌, ==_iff, ==_of_ne, lt→ltb,
  le→leb, put,
}
use nk_os_team.File.{ok}
use nk_os_team.Bitmap.Alloc.{free_at, free_at-toggled_ne}
use nk_os_team.Sfs.{Sfs, Device, Inode}
use nk_os_team.Sfs.Blocks.{sfs_block_alloc}
use nk_os_team.Sfs.Bmap.{sfs_ndirect, with_din, sfs_bmap_get_nolock, sfs_bmap_load_nolock}
use nk_os_team.Sfs.Alloc.{IsSound, taken_at}
use nk_os_team.Sfs.Files.{IsUsed, IsUsed-dev, inuse-IsUsed, IsFile, block_no}

-- The inode lists no block behind the last.
abbrev pub IsEnded : Inode → Type 0
IsEnded sin = (i : ℕ) → sin.din.blocks ≤ i → i < sfs_ndirect → sin.din.direct i ≡ 0

-- The inode with block `b` added to its list.
abbrev pub longer : Inode → ℕ → Inode
longer sin b =
    with_din sin (λ d. record d { direct = put d.direct d.blocks b; blocks = d.blocks + 1 })

pub longer-IsEnded : (sin : Inode) (b : ℕ) → IsEnded sin → IsEnded (longer sin b)
longer-IsEnded sin b e i h l = rw (==_of_ne i sin.din.blocks (omega arith)) (e i (omega arith) l)

-- A file of blocks that the inode lists.
pub record IsShort {D : Type 0} (s : Sfs D) (sin : Inode) : Type 0 where
  pub short : sin.din.blocks ≤ sfs_ndirect
  pub used : (i : ℕ) → i < sin.din.blocks → IsUsed s (sin.din.direct i)
  pub distinct :
      (i j : ℕ)
      → i < sin.din.blocks
      → j < sin.din.blocks
      → sin.din.direct i ≡ sin.din.direct j
      → i ≡ j

-- A list of distinct numbers with a new one at its end.
put_distinct :
    (g : ℕ → ℕ) (n b : ℕ)
    → ((i : ℕ) → i < n → g i ≢ b)
    → ((i j : ℕ) → i < n → j < n → g i ≡ g j → i ≡ j)
    → (i j : ℕ) → i < n + 1
    → j < n + 1
    → put g n b i ≡ put g n b j
    → i ≡ j
put_distinct g n b fresh h i j l k e = elim (ℕ_discrete i n) [
  | yes x ↦ elim (ℕ_discrete j n) [
    | yes y ↦ omega arith
    | no y ↦ absurd (fresh j (omega arith) (ground (arith, e)))
  ]
  | no x ↦ elim (ℕ_discrete j n) [
    | yes y ↦ absurd (fresh i (omega arith) (ground (arith, e)))
    | no y ↦ h i j (omega arith) (omega arith) (ground (arith, e))
  ]
]

module _ {D : Type 0} (V : Device D) where
  pub direct_block :
      (s : Sfs D) (sin : Inode) (i : ℕ) → i < sfs_ndirect → block_no V s sin i ≡ sin.din.direct i
  direct_block s sin i h = rw (lt→ltb i sfs_ndirect h) refl

  pub short-IsFile : (s : Sfs D) (sin : Inode) → IsSound s → IsShort s sin → IsFile V s sin
  short-IsFile s sin v h =
      let same =
        λ (i : ℕ) (l : i < sin.din.blocks). direct_block s sin i (omega (arith, h.short)) in
      record {
        disk = v.disk;
        count = omega (arith, h.short);
        used = λ i l. subst (IsUsed s) (sym (same i l)) (h.used i l);
        listed = λ l. absurd (omega (arith, h.short));
        distinct = λ i j l k e. h.distinct i j l k (sym (same i l) ∙ e ∙ same j k);
        apart = λ i l k e. absurd (omega (arith, h.short));
      }

  -- A block that is free in `s` is none of a file's.
  pub fresh : (s : Sfs D) (b c : ℕ) → free_at s.freemap b ≡ true → IsUsed s c → c ≢ b
  fresh s b c f u e = absurd (cc (ap (free_at s.freemap) e, f, u.taken))

  still-IsUsed :
      (s : Sfs D) (b c : ℕ) → free_at s.freemap b ≡ true → IsUsed s c → IsUsed (taken_at s b) c
  still-IsUsed s b c f u = record {
    block = record { positive = u.block.positive; small = u.block.small };
    mapped = u.mapped;
    taken = free_at-toggled_ne s.freemap b c (fresh s b c f u) ∙ u.taken;
  }

  pub longer-IsShort :
      (s t : Sfs D) (sin : Inode) (b : ℕ)
      → IsShort s sin
      → sin.din.blocks < sfs_ndirect
      → free_at s.freemap b ≡ true
      → IsUsed t b
      → t ≡ record (taken_at s b) { dev = t.dev }
      → IsShort t (longer sin b)
  longer-IsShort s t sin b h room f u e =
      let kept = λ (c : ℕ) (v : IsUsed s c).
        subst (λ x. IsUsed x c) (sym e)
          (IsUsed-dev (taken_at s b) t.dev c (still-IsUsed s b c f v)) in
      record {
        short = omega arith;
        used = λ i l. elim (ℕ_discrete i sin.din.blocks) [
          | yes g ↦ rw ((==_iff i sin.din.blocks).1 g) u
          | no g ↦
              rw (==_of_ne i sin.din.blocks g) (kept (sin.din.direct i) (h.used i (omega arith)))
        ];
        distinct =
            put_distinct sin.din.direct sin.din.blocks b
              (λ i l. fresh s b (sin.din.direct i) f (h.used i l)) h.distinct;
      }

  module _ (s t : Sfs D) (sin : Inode) (b : ℕ) (room : sin.din.blocks < sfs_ndirect)
      (ended : IsEnded sin) (run : sfs_block_alloc V s ≡ some (t, ok b)) (u : IsUsed t b) where
    get_new :
        sfs_bmap_get_nolock V s sin sin.din.blocks true
        ≡ some ((t, with_din sin (λ d. record d { direct = put d.direct d.blocks b })), ok b)
    unfolding sfs_bmap_get_nolock
    get_new =
        rw
          (
            sfs_bmap_get_nolock,
            lt→ltb sin.din.blocks sfs_ndirect room,
            ended sin.din.blocks (omega arith) room,
            run,
            ==_of_ne b 0 (omega (arith, u.block.positive)),
            inuse-IsUsed t b u,
          )
          refl

    pub load_new : sfs_bmap_load_nolock V s sin sin.din.blocks ≡ some ((t, longer sin b), ok b)
    unfolding sfs_bmap_load_nolock
    load_new =
        let same : (sin.din.blocks == sin.din.blocks) ≡ true =
          (==_iff sin.din.blocks sin.din.blocks).1 refl in
        rw
          (
            sfs_bmap_load_nolock,
            le→leb sin.din.blocks sin.din.blocks (omega arith),
            same,
            get_new,
            inuse-IsUsed t b u,
            same,
          )
          (ap
            (λ n. some (
              (t, with_din sin (λ d. record d { direct = put d.direct d.blocks b; blocks = n })),
              ok b,
            ))
            (omega arith))
