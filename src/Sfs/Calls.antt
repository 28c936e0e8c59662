-- ===== src/Sfs/Calls.antt =====
-- kern/fs/sfs/sfs_inode.c: reading and writing a file through an io buffer.
use nk_os_team.Prelude.{
  ℕ, ◌+◌, ◌-◌, ◌*◌, ◌^◌, ◌≤◌, ◌<◌, ◌≡◌, ap, ◌∙◌, Bool, true, false, Option, some, arith, ◌==◌,
  if◌then◌else◌, ==_of_ne, le→leb, ◌>>=◌,
}
use nk_os_team.File.{Iobuf, Ret, ok}
use nk_os_team.Buffers.{skipped, iobuf_skip}
use nk_os_team.Sfs.{Sfs, Device, Inode, sfs_blksize}
use nk_os_team.Sfs.Disk.{IsWorking}
use nk_os_team.Sfs.Files.{IsFile}
use nk_os_team.Sfs.Io.{Io, sfs_type_dir, io_min, sfs_io_nolock}
use nk_os_team.Sfs.Io.Transfer.{IsResult, read_transfers, write_transfers}

-- The locals of `sfs_io_nolock` when `sfs_io` calls it.
abbrev pub called : {D : Type 0} → Sfs D → Inode → (ℕ → ℕ) → Iobuf → Io D
called s sin m iob = record {
  sfs = s;
  sin = sin;
  memory = m;
  buf = iob.io_base;
  offset = iob.io_offset;
  blkno = 0;
  alen = 0;
}

module _ {D : Type 0} (V : Device D) where
  -- The buffer moves on by what has been transferred, after an error too.
  unfoldable pub sfs_io :
      ℕ → (write : Bool) → Sfs D → Inode → (ℕ → ℕ) → Iobuf → Option ((Io D × Iobuf) × Ret)
  sfs_io fuel write s sin m iob =
      sfs_io_nolock V fuel write (called s sin m iob) iob.io_resid >>= λ r.
      (if r.0.alen == 0 then some iob else iobuf_skip iob r.0.alen) >>= λ b. some ((r.0, b), r.1)

  abbrev pub sfs_read : ℕ → Sfs D → Inode → (ℕ → ℕ) → Iobuf → Option ((Io D × Iobuf) × Ret)
  sfs_read fuel s sin m iob = sfs_io fuel false s sin m iob

  abbrev pub sfs_write : ℕ → Sfs D → Inode → (ℕ → ℕ) → Iobuf → Option ((Io D × Iobuf) × Ret)
  sfs_write fuel s sin m iob = sfs_io fuel true s sin m iob

  sfs_io-skipped :
      (fuel : ℕ) (write : Bool) (s : Sfs D) (sin : Inode) (m : ℕ → ℕ) (iob : Iobuf) (r : Io D)
      (n : ℕ)
      → sfs_io_nolock V fuel write (called s sin m iob) iob.io_resid ≡ some (r, ok 0)
      → r.alen ≡ n
      → 0 < n
      → n ≤ iob.io_resid
      → sfs_io fuel write s sin m iob ≡ some ((r, skipped iob n), ok 0)
  unfolding sfs_io iobuf_skip
  sfs_io-skipped fuel write s sin m iob r n run e pos h =
      rw
        (
          sfs_io,
          run,
          ==_of_ne r.alen 0 (omega arith),
          iobuf_skip,
          le→leb r.alen iob.io_resid (omega arith),
        )
        (ap (λ x. some ((r, skipped iob x), ok 0)) e)

  module _ (w : IsWorking V) (fuel : ℕ) (s : Sfs D) (sin : Inode) (f : IsFile V s sin)
      (d : (sin.din.type == sfs_type_dir) ≡ false) (m : ℕ → ℕ) (iob : Iobuf)
      (pos : 0 < iob.io_resid) where
    -- On a device that works, `sfs_write` of a buffer that is not empty, to a file that is no directory and
    -- whose blocks are in use and apart, within these blocks and with fuel for a round more than whole
    -- blocks, returns no error. The bytes of the buffer replace those of the file from the position of the
    -- buffer on, all other bytes of the file and of the disk are kept, and the buffer moves behind its
    -- end. The size is the larger of that before and what the code takes for the end of the transfer.
    pub sfs_write_lem :
        iob.io_offset + iob.io_resid ≤ sin.din.blocks * sfs_blksize
        → iob.io_resid < fuel * sfs_blksize
        → (r : Io D) × (sfs_write fuel s sin m iob ≡ some ((r, skipped iob iob.io_resid), ok 0))
          × IsResult V true (called s sin m iob) (iob.io_offset + iob.io_resid) r
    sfs_write_lem room enough =
        let (r, run, u) =
          write_transfers V w fuel (called s sin m iob) f d iob.io_resid pos room enough in
        (
          r,
          sfs_io-skipped fuel true s sin m iob r iob.io_resid run (u.total ∙ omega arith) pos
              (omega arith),
          u,
        )

    -- On a device that works, `sfs_read` with a buffer that is not empty, of a file that is no directory
    -- and whose blocks are in use and apart, at a position before its end, with blocks for the bytes asked
    -- for and fuel for a round more than whole blocks, returns no error. The bytes of the file from the
    -- position on, up to the end of the buffer or of the file, are copied to the memory of the buffer, the
    -- disk is kept, and the buffer moves on by as many bytes. The size is the larger of that before and
    -- what the code takes for the end of the transfer.
    pub sfs_read_lem :
        iob.io_offset < sin.din.size
        → iob.io_offset + iob.io_resid < 2 ^ 63
        → io_min (iob.io_offset + iob.io_resid) sin.din.size ≤ sin.din.blocks * sfs_blksize
        → io_min (iob.io_offset + iob.io_resid) sin.din.size < iob.io_offset + fuel * sfs_blksize
        → (r : Io D) × (sfs_read fuel s sin m iob
            ≡ some (
              (r, skipped iob (io_min (iob.io_offset + iob.io_resid) sin.din.size - iob.io_offset)),
              ok 0,
            ))
          × IsResult V false
              (called s sin m iob)
              (io_min (iob.io_offset + iob.io_resid) sin.din.size)
              r
    sfs_read_lem h small room enough =
        let e = io_min (iob.io_offset + iob.io_resid) sin.din.size in
        let (r, run, u) =
          read_transfers V w fuel (called s sin m iob) f d iob.io_resid pos h small room enough in
        (
          r,
          sfs_io-skipped fuel false s sin m iob r (e - iob.io_offset) run u.total (ground arith)
              (ground arith),
          u,
        )
