-- ===== src/Sfs/Io/Transfer.antt =====
-- `sfs_io_nolock` within the blocks that the file has.
use mathlib.Core.Path.{ap₂}
use nk_os_team.Prelude.{
  ℕ, ◌+◌, ◌-◌, ◌*◌, ◌/◌, ◌%◌, ◌^◌, ◌≤◌, ◌<◌, ◌≡◌, refl, ap, ◌∙◌, Bool, true, false, some, arith,
  leb, ◌==◌, if◌then◌else◌, ==_of_ne, ltb_of_le, leb_of_lt,
}
use nk_os_team.File.{ok}
use nk_os_team.Sfs.{Sfs, Device, sfs_blksize}
use nk_os_team.Sfs.Disk.{IsWorking}
use nk_os_team.Sfs.Files.{IsFile}
use nk_os_team.Sfs.Io.{
  Io, sfs_max_file_size, sfs_type_dir, io_min, grown, io_range, sfs_io_nolock, io_to,
}
use nk_os_team.Sfs.Io.Pieces.{Effect}
use nk_os_team.Sfs.Io.Offsets.{last_offset}
use nk_os_team.Sfs.Io.Parts.{io_parts_lem}

-- What `out` takes for the end of the transfer from `offset` to `endpos`.
abbrev pub taken_end : (offset endpos : ℕ) → ℕ
taken_end offset endpos = last_offset offset endpos + (endpos - offset)

module _ {D : Type 0} (V : Device D) where
  -- The bytes from `offset` to `endpos` have been transferred, and the size is what `out` makes it.
  pub record IsResult (write : Bool) (s : Io D) (endpos : ℕ) (r : Io D) : Type 0 where
    pub transfer : Effect V write s (endpos - s.offset) r.sfs r.memory
    pub total : r.alen ≡ endpos - s.offset
    pub inode : r.sin ≡ grown s.sin (taken_end s.offset endpos)

  abbrev started : Io D → Io D
  started s = record s { alen = 0 }

  from_start :
      (write : Bool) (s : Io D) (n : ℕ) (t : Sfs D) (m : ℕ → ℕ)
      → Effect V write (record (started s) { blkno = s.offset / sfs_blksize }) n t m
      → Effect V write s n t m
  from_start true s n t m e = e
  from_start false s n t m e = e

  module _ (w : IsWorking V) (fuel : ℕ) (s : Io D) (f : IsFile V s.sfs s.sin) where
    io_range_lem :
        (write : Bool) (endpos : ℕ)
        → endpos ≤ s.sin.din.blocks * sfs_blksize
        → s.offset < endpos
        → endpos < s.offset + fuel * sfs_blksize
        → (r : Io D) × (io_range V fuel write (started s) endpos ≡ some (r, ok 0))
          × IsResult write s endpos r
    unfolding io_range
    io_range_lem write endpos room h enough =
        let (r, run, u) =
          io_parts_lem V w write endpos fuel (record (started s) { blkno = s.offset / sfs_blksize })
            f room h refl enough in
        (
          record r { sin = grown r.sin (r.offset + r.alen) },
          rw (io_range, run) refl,
          record {
            transfer = from_start write s (endpos - s.offset) r.sfs r.memory u.transfer;
            total = u.total ∙ omega arith;
            inode = ap₂ grown u.inode (ap₂ (λ x y. x + y) u.offset_at (u.total ∙ omega arith));
          },
        )

    -- The checks let the transfer through, and cut it off at the largest size.
    accepted :
        (write : Bool) (len : ℕ)
        → (s.sin.din.type == sfs_type_dir) ≡ false
        → s.offset < sfs_max_file_size
        → 0 < len
        → s.offset + len < 2 ^ 63
        → sfs_io_nolock V fuel write s len ≡ (
            if write
            then io_range V fuel write (started s) (io_min (s.offset + len) sfs_max_file_size)
            else if leb s.sin.din.size s.offset
            then some (started s, ok 0)
            else io_range V fuel write
                (started s)
                (io_min (io_min (s.offset + len) sfs_max_file_size) s.sin.din.size))
    unfolding sfs_io_nolock io_to
    accepted write len d h pos small =
        let go = io_to V fuel write (started s) in
        let whole : sfs_io_nolock V fuel write s len ≡ go ((s.offset + len) % 2 ^ 64) =
          rw (sfs_io_nolock, d) refl in
        let e : (s.offset + len) % 2 ^ 64 ≡ s.offset + len = omega arith in
        whole
        ∙ ap go e
        ∙ rw
            (
              io_to,
              leb_of_lt (2 ^ 63) s.offset (omega arith),
              leb_of_lt sfs_max_file_size s.offset h,
              leb_of_lt (2 ^ 63) (s.offset + len) small,
              ltb_of_le (s.offset + len) s.offset (omega arith),
              ==_of_ne s.offset (s.offset + len) (omega arith),
            )
            refl

    module _ (d : (s.sin.din.type == sfs_type_dir) ≡ false) (len : ℕ) (pos : 0 < len) where
      -- On a device that works, a read of one or more bytes from an offset before the end of a file
      -- returns no error. The memory gets the bytes of the file up to the length asked for or the
      -- end of the file, the disk stays as it is, the length transferred is returned, and the size
      -- is the larger of that before and what the code takes for the end of the transfer.
      pub read_transfers :
          s.offset < s.sin.din.size
          → s.offset + len < 2 ^ 63
          → io_min (s.offset + len) s.sin.din.size ≤ s.sin.din.blocks * sfs_blksize
          → io_min (s.offset + len) s.sin.din.size < s.offset + fuel * sfs_blksize
          → (r : Io D) × (sfs_io_nolock V fuel false s len ≡ some (r, ok 0))
            × IsResult false s (io_min (s.offset + len) s.sin.din.size) r
      read_transfers h small room enough =
          let e = io_min (s.offset + len) s.sin.din.size in
          let cut : io_min (io_min (s.offset + len) sfs_max_file_size) s.sin.din.size ≡ e =
            ground (arith, f.count) in
          let (r, run, u) = io_range_lem false e room (ground arith) enough in
          (
            r,
            accepted false len d (ground (arith, f.count)) pos small
                ∙ rw (leb_of_lt s.sin.din.size s.offset h)
                    (ap (io_range V fuel false (started s)) cut ∙ run),
            u,
          )

      -- On a device that works, a write of one or more bytes within the blocks that a file has
      -- returns no error. The bytes of the memory replace those of the file, its other bytes and
      -- all other blocks of the disk are kept, the length transferred is the one asked for, and the
      -- size is the larger of that before and what the code takes for the end of the transfer.
      pub write_transfers :
          s.offset + len ≤ s.sin.din.blocks * sfs_blksize
          → len < fuel * sfs_blksize
          → (r : Io D) × (sfs_io_nolock V fuel true s len ≡ some (r, ok 0))
            × IsResult true s (s.offset + len) r
      write_transfers room enough =
          let cut : io_min (s.offset + len) sfs_max_file_size ≡ s.offset + len =
            ground (arith, f.count) in
          let (r, run, u) = io_range_lem true (s.offset + len) room (omega arith) (omega arith) in
          (
            r,
            accepted true len d (omega (arith, f.count)) pos (omega (arith, f.count))
                ∙ ap (io_range V fuel true (started s)) cut
                ∙ run,
            u,
          )
