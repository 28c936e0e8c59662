-- ===== src/Sfs/Alloc.antt =====
-- `sfs_block_alloc` and `sfs_block_free`: the map and the number of free blocks agree.
use nk_os_team.Prelude.{
  ℕ, ◌+◌, ◌-◌, ◌^◌, ◌≤◌, ◌<◌, ◌≡◌, refl, sym, ap, ◌∙◌, ◌≢◌, true, false, some, arith, ◌==◌,
  if◌then◌else◌, lt→ltb,
}
use nk_os_team.File.{ok, err}
use nk_os_team.Bitmap.Alloc.{
  free_at, IsBitmap, toggled, no_memory, allocated, bitmap_alloc_lem, bitmap_free_lem,
  free_at-toggled_self, free_at-toggled_ne, toggled-IsBitmap,
}
use nk_os_team.Sfs.{Sfs, Device, sfs_blksize, sfs_clear_block}
use nk_os_team.Sfs.Count.{count, count_one_less, count_bound}
use nk_os_team.Sfs.Blocks.{e_no_mem, sfs_block_alloc, sfs_block_free, clear_taken}
use nk_os_team.Sfs.Disk.{bytes, stored, IsWorking, IsBlock, write_block_lem, bytes-stored}
use nk_os_team.Sfs.Files.{IsUsed, IsUsed-dev, inuse-IsUsed}

-- The map has a bit for each block of the disk, and the number of free blocks is that of the bits
-- that are set. Block 0, the super block, is in use.
pub record IsSound {D : Type 0} (s : Sfs D) : Type 0 where
  pub bitmap : IsBitmap s.freemap
  pub mapped : s.freemap.nbits ≡ s.blocks
  pub counted : s.unused_blocks ≡ count (free_at s.freemap) s.blocks
  pub super : free_at s.freemap 0 ≡ false
  pub disk : s.blocks ≤ 2 ^ 20

module _ {D : Type 0} where
  -- The file system after block `i` has been taken, or given back.
  abbrev pub taken_at : Sfs D → ℕ → Sfs D
  taken_at s i = record s {
    freemap = toggled s.freemap i;
    unused_blocks = s.unused_blocks - 1;
    super_dirty = true;
  }

  abbrev pub given_at : Sfs D → ℕ → Sfs D
  given_at s i = record s {
    freemap = toggled s.freemap i;
    unused_blocks = s.unused_blocks + 1;
    super_dirty = true;
  }

  IsSound-dev : (s : Sfs D) (d : D) → IsSound s → IsSound (record s { dev = d })
  IsSound-dev s d v = record {
    bitmap = v.bitmap;
    mapped = v.mapped;
    counted = v.counted;
    super = v.super;
    disk = v.disk;
  }

  one_less :
      (s : Sfs D) (i : ℕ)
      → IsSound s
      → i < s.blocks
      → free_at s.freemap i ≡ true
      → count (free_at (toggled s.freemap i)) s.blocks + 1 ≡ s.unused_blocks
  one_less s i v l f =
      count_one_less (free_at s.freemap) (free_at (toggled s.freemap i)) i s.blocks l f
        (free_at-toggled_self s.freemap i ∙ rw f refl) (λ j d. free_at-toggled_ne s.freemap i j d)
      ∙ sym v.counted

  not_super : (s : Sfs D) (i : ℕ) → IsSound s → free_at s.freemap i ≡ true → 0 ≢ i
  not_super s i v f e = absurd (cc (ap (free_at s.freemap) e, v.super, f))

  taken-IsUsed :
      (s : Sfs D) (i : ℕ)
      → IsSound s
      → i < s.blocks
      → free_at s.freemap i ≡ true
      → IsUsed (taken_at s i) i
  taken-IsUsed s i v l f = record {
    block = record { positive = omega (arith, not_super s i v f); small = l };
    mapped = omega (arith, v.mapped);
    taken = free_at-toggled_self s.freemap i ∙ rw f refl;
  }

  taken-IsSound :
      (s : Sfs D) (i : ℕ)
      → IsSound s
      → i < s.blocks
      → free_at s.freemap i ≡ true
      → IsSound (taken_at s i)
  taken-IsSound s i v l f = record {
    bitmap = toggled-IsBitmap s.freemap i (omega (arith, v.mapped)) v.bitmap;
    mapped = v.mapped;
    counted = omega (arith, one_less s i v l f);
    super = free_at-toggled_ne s.freemap i 0 (not_super s i v f) ∙ v.super;
    disk = v.disk;
  }

  pub given-IsSound : (s : Sfs D) (b : ℕ) → IsSound s → IsUsed s b → IsSound (given_at s b)
  given-IsSound s b v u = record {
    bitmap = toggled-IsBitmap s.freemap b u.mapped v.bitmap;
    mapped = v.mapped;
    counted = omega (
      arith,
      v.counted,
      count_one_less (free_at (toggled s.freemap b)) (free_at s.freemap) b s.blocks u.block.small
          (free_at-toggled_self s.freemap b ∙ rw (u.taken) refl) u.taken
          (λ j d. sym (free_at-toggled_ne s.freemap b j d)),
    );
    super =
        free_at-toggled_ne s.freemap b 0 (λ e. absurd (omega (arith, u.block.positive))) ∙ v.super;
    disk = v.disk;
  }

  -- A block in use is given back: it is free, and the map still agrees with the number of free
  -- blocks.
  pub sfs_block_free_lem :
      (s : Sfs D) (b : ℕ)
      → IsSound s
      → IsUsed s b
      → (sfs_block_free s b ≡ some (given_at s b)) × IsSound (given_at s b)
  unfolding sfs_block_free
  sfs_block_free_lem s b v u = (
    rw
        (
          sfs_block_free,
          inuse-IsUsed s b u,
          bitmap_free_lem s.freemap b,
          lt→ltb b s.freemap.nbits u.mapped,
          u.taken,
        )
        (ap (λ n. some (record (given_at s b) { unused_blocks = n }))
          (omega (arith, v.counted, v.disk, count_bound (free_at s.freemap) s.blocks))),
    given-IsSound s b v u,
  )

  module _ (V : Device D) where
    -- What `sfs_block_alloc` can do.
    pub data BlockAlloc (s : Sfs D) : Type 0 where
      full :
          sfs_block_alloc V s ≡ some (s, err e_no_mem)
          → ((b : ℕ) → b < s.blocks → free_at s.freemap b ≡ false)
          → BlockAlloc s
      got :
          (b : ℕ) (t : Sfs D)
          → sfs_block_alloc V s ≡ some (t, ok b)
          → free_at s.freemap b ≡ true
          → IsUsed t b
          → IsSound t
          → t ≡ record (taken_at s b) { dev = t.dev }
          → t.unused_blocks + 1 ≡ s.unused_blocks
          → ((c j : ℕ)
              → c < s.blocks
              → j < sfs_blksize
              → bytes V t c j ≡ (if c == b then 0 else bytes V s c j))
          → BlockAlloc s

    module _ (w : IsWorking V) where
      sfs_clear_block_lem :
          (s : Sfs D) (b : ℕ)
          → IsBlock s b
          → sfs_clear_block V s b 1 ≡ some (stored V s b (λ j. 0), ok 0)
      unfolding sfs_clear_block
      sfs_clear_block_lem s b h = rw (sfs_clear_block, write_block_lem V w s (λ j. 0) b h) refl

      clear_taken_lem :
          (s : Sfs D) (b : ℕ)
          → IsSound s
          → b < s.blocks
          → free_at s.freemap b ≡ true
          → clear_taken V (record s { freemap = toggled s.freemap b }) (some b)
            ≡ some (stored V (taken_at s b) b (λ j. 0), ok b)
      clear_taken_lem s b v l f =
          let u = taken-IsUsed s b v l f in
          rw
            (
              lt→ltb 0 s.unused_blocks (omega (arith, one_less s b v l f)),
              inuse-IsUsed (taken_at s b) b u,
              sfs_clear_block_lem (taken_at s b) b u.block,
            )
            refl

      -- On a device that works and a disk whose map and number of free blocks agree: if no block is
      -- free, nothing changes and the error is returned. Otherwise a free block is taken and
      -- cleared, the other blocks hold what they held, and the map still agrees with the number of
      -- free blocks.
      pub sfs_block_alloc_lem : (s : Sfs D) → IsSound s → BlockAlloc s
      unfolding sfs_block_alloc
      sfs_block_alloc_lem s v = elim (bitmap_alloc_lem s.freemap v.bitmap) [
        | no_memory e a ↦ full (rw (sfs_block_alloc, e) refl) (λ b h. a b (omega (arith, v.mapped)))
        | allocated b e l f first m ↦
            let h : b < s.blocks = omega (arith, v.mapped) in
            let u = taken-IsUsed s b v h f in
            let c = taken-IsSound s b v h f in
            let t = stored V (taken_at s b) b (λ j. 0) in
            got b t (rw (sfs_block_alloc, e) (clear_taken_lem s b v h f)) f
              (IsUsed-dev (taken_at s b) t.dev b u) (IsSound-dev (taken_at s b) t.dev c) refl
              (omega (arith, one_less s b v h f))
              (λ c j p q. bytes-stored V w (taken_at s b) b c (λ k. 0) j v.disk h p q)
      ]
