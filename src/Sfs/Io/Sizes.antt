-- ===== src/Sfs/Io/Sizes.antt =====
-- The size of a file after a transfer.
use mathlib.Core.Path.{ap₂}
use nk_os_team.Prelude.{ℕ, ◌+◌, ◌*◌, ◌^◌, ◌<◌, ◌≡◌, ap, ◌∙◌, false, some, arith, ◌==◌, lt→ltb}
use nk_os_team.File.{ok}
use nk_os_team.Sfs.{Device, Inode, sfs_blksize}
use nk_os_team.Sfs.Disk.{IsWorking}
use nk_os_team.Sfs.Files.{IsFile}
use nk_os_team.Sfs.Io.{Io, sfs_type_dir, io_min, grown, sfs_io_nolock}
use nk_os_team.Sfs.Io.Transfer.{taken_end, read_transfers}

module _ {D : Type 0} (V : Device D) (w : IsWorking V) (fuel : ℕ) (s : Io D)
    (f : IsFile V s.sfs s.sin) where
  twice : (n k : ℕ) → n ≡ k * sfs_blksize → taken_end 0 n ≡ 2 * n
  twice n k h = ground arith

  doubled :
      (sin : Inode)
      → 0 < sin.din.size
      → 2 * sin.din.size < 2 ^ 32
      → (grown sin (2 * sin.din.size)).din.size ≡ 2 * sin.din.size
  doubled sin h l = rw (lt→ltb sin.din.size (2 * sin.din.size) (omega arith)) (omega arith)

  -- On a device that works, to read the whole of a file that is no directory and whose blocks are in use
  -- and apart, which is not empty and fills its blocks, makes its size twice as large. The fuel is for a
  -- round more than whole blocks.
  pub read_doubles_size :
      (s.sin.din.type == sfs_type_dir) ≡ false
      → s.offset ≡ 0
      → 0 < s.sin.din.size
      → s.sin.din.size ≡ s.sin.din.blocks * sfs_blksize
      → s.sin.din.size < fuel * sfs_blksize
      → (r : Io D) × (sfs_io_nolock V fuel false s s.sin.din.size ≡ some (r, ok 0))
        × (r.sin.din.size ≡ 2 * s.sin.din.size)
  read_doubles_size d z pos full enough =
      let n = s.sin.din.size in
      let cut : io_min (s.offset + n) n ≡ n = ground arith in
      let (r, run, u) =
        read_transfers V w fuel s f d n pos (omega arith) (omega (arith, f.count)) (omega arith)
          (omega arith) in
      (
        r,
        run,
        ap (λ x. x.din.size) u.inode
            ∙ ap₂ (λ x y. (grown s.sin (taken_end x y)).din.size) z cut
            ∙ ap (λ x. (grown s.sin x).din.size) (twice n s.sin.din.blocks full)
            ∙ doubled s.sin pos (omega (arith, f.count)),
      )
