-- ===== src/Sfs/Io/RoundTrip.antt =====
-- Bytes written to a file and read again.
use mathlib.Core.Path.{subst}
use nk_os_team.Prelude.{
  ℕ, ◌+◌, ◌-◌, ◌*◌, ◌%◌, ◌^◌, ◌≤◌, ◌<◌, ◌≡◌, refl, sym, ap, ◌∙◌, inl, inr, Bool, true, false, some,
  arith, ltb, ◌==◌, Bool-cases,
}
use nk_os_team.File.{ok}
use nk_os_team.Sfs.{Sfs, Device, Inode, sfs_blksize}
use nk_os_team.Sfs.Bmap.{with_din}
use nk_os_team.Sfs.Copy.{copy_in_at}
use nk_os_team.Sfs.Disk.{IsWorking}
use nk_os_team.Sfs.Files.{IsFile, content}
use nk_os_team.Sfs.Io.{Io, sfs_type_dir, io_min, grown, sfs_io_nolock}
use nk_os_team.Sfs.Io.Pieces.{Effect-IsFile}
use nk_os_team.Sfs.Io.Transfer.{IsResult, taken_end, read_transfers, write_transfers}

module _ {D : Type 0} (V : Device D) where
  resized-IsFile :
      (t : Sfs D) (sin : Inode) (n : ℕ)
      → IsFile V t sin
      → IsFile V t (with_din sin (λ d. record d { size = n }))
  resized-IsFile t sin n f = record {
    disk = f.disk;
    count = f.count;
    used = f.used;
    listed = f.listed;
    distinct = f.distinct;
    apart = f.apart;
  }

  pub grown-IsFile : (t : Sfs D) (sin : Inode) (e : ℕ) → IsFile V t sin → IsFile V t (grown sin e)
  grown-IsFile t sin e f = elim (Bool-cases (ltb sin.din.size e)) [
    | inr g ↦ subst (IsFile V t) (sym (rw g refl)) f
    | inl g ↦ subst (IsFile V t) (sym (rw g refl)) (resized-IsFile t sin (e % 2 ^ 32) f)
  ]

  content-grown :
      (t : Sfs D) (sin : Inode) (e pos : ℕ) → content V t (grown sin e) pos ≡ content V t sin pos
  content-grown t sin e pos = elim (Bool-cases (ltb sin.din.size e)) [
    | inr g ↦ rw g refl
    | inl g ↦ rw g refl
  ]

  grown_type : (sin : Inode) (e : ℕ) → (grown sin e).din.type ≡ sin.din.type
  grown_type sin e = elim (Bool-cases (ltb sin.din.size e)) [
    | inr g ↦ rw g refl
    | inl g ↦ rw g refl
  ]

  grown_blocks : (sin : Inode) (e : ℕ) → (grown sin e).din.blocks ≡ sin.din.blocks
  grown_blocks sin e = elim (Bool-cases (ltb sin.din.size e)) [
    | inr g ↦ rw g refl
    | inl g ↦ rw g refl
  ]

  grown_size : (sin : Inode) (e : ℕ) → e < 2 ^ 32 → e ≤ (grown sin e).din.size
  grown_size sin e h = elim (Bool-cases (ltb sin.din.size e)) [
    | inr g ↦ rw g (ground arith)
    | inl g ↦ rw g (omega arith)
  ]

  module _ (w : IsWorking V) (fuel : ℕ) (s : Io D) (f : IsFile V s.sfs s.sin) where
    -- The file is a file after a transfer.
    result-IsFile :
        (write : Bool) (e : ℕ) (r : Io D) → IsResult V write s e r → IsFile V r.sfs r.sin
    result-IsFile write e r u = subst (IsFile V r.sfs) (sym u.inode) (
        grown-IsFile r.sfs s.sin (taken_end s.offset e)
          (Effect-IsFile V write s (e - s.offset) r.sfs r.memory f u.transfer))

    covers : (offset e : ℕ) → offset < e → e ≤ taken_end offset e
    covers offset e h = ground arith

    small_end : (offset e : ℕ) → e < 2 ^ 30 → taken_end offset e < 2 ^ 32
    small_end offset e h = ground arith

    module _ (d : (s.sin.din.type == sfs_type_dir) ≡ false) (len : ℕ) (pos : 0 < len)
        (room : s.offset + len ≤ s.sin.din.blocks * sfs_blksize)
        (enough : len < fuel * sfs_blksize) where
      abbrev endpos : ℕ
      endpos = s.offset + len

      module _ (r : Io D) (u : IsResult V true s endpos r) where
        has_size : endpos ≤ r.sin.din.size
        has_size =
            subst (λ x. endpos ≤ x.din.size) (sym u.inode)
              (omega (
                arith,
                covers s.offset endpos (omega arith),
                grown_size s.sin (taken_end s.offset endpos)
                    (small_end s.offset endpos (omega (arith, f.count))),
              ))

        has_blocks : endpos ≤ r.sin.din.blocks * sfs_blksize
        has_blocks =
            subst (λ x. endpos ≤ x.din.blocks * sfs_blksize) (sym u.inode)
              (subst (λ x. endpos ≤ x * sfs_blksize)
                (sym (grown_blocks s.sin (taken_end s.offset endpos))) room)

        not_dir : (r.sin.din.type == sfs_type_dir) ≡ false
        not_dir =
            subst (λ x. (x.din.type == sfs_type_dir) ≡ false) (sym u.inode)
              (subst (λ x. (x == sfs_type_dir) ≡ false)
                (sym (grown_type s.sin (taken_end s.offset endpos))) d)

        -- The file holds the bytes that were written.
        written_at : (j : ℕ) → j < len → content V r.sfs r.sin (s.offset + j) ≡ s.memory (s.buf + j)
        written_at j h =
            ap (λ x. content V r.sfs x (s.offset + j)) u.inode
            ∙ content-grown r.sfs s.sin (taken_end s.offset endpos) (s.offset + j)
            ∙ u.transfer.1.file (s.offset + j) (omega arith)
            ∙ copy_in_at (content V s.sfs s.sin) s.offset (λ k. s.memory (s.buf + k))
                (endpos - s.offset) (s.offset + j) (omega arith) (omega arith)
            ∙ ap (λ x. s.memory (s.buf + x)) (omega arith)

        read_again :
            (m : ℕ → ℕ) (b : ℕ)
            → (q : Io D) × (sfs_io_nolock V fuel false
                  (record r { memory = m; buf = b; offset = s.offset })
                  len
                ≡ some (q, ok 0))
              × (q.alen ≡ len)
              × ((j : ℕ) → j < len → q.memory (b + j) ≡ s.memory (s.buf + j))
        read_again m b =
            let again : Io D = record r { memory = m; buf = b; offset = s.offset } in
            let cut : io_min endpos r.sin.din.size ≡ endpos = ground (arith, has_size) in
            let (q, run, v) =
              read_transfers V w fuel again (result-IsFile true endpos r u) not_dir len pos
                (omega (arith, has_size)) (omega (arith, f.count))
                (subst (λ x. x ≤ r.sin.din.blocks * sfs_blksize) (sym cut) has_blocks)
                (subst (λ x. x < s.offset + fuel * sfs_blksize) (sym cut) (omega arith)) in
            (
              q,
              run,
              v.total ∙ ap (λ x. x - s.offset) cut ∙ omega arith,
              λ j h.
                  ap (λ g. g (b + j)) v.transfer.1
                  ∙ copy_in_at m b (λ k. content V r.sfs r.sin (s.offset + k))
                      (io_min endpos r.sin.din.size - s.offset) (b + j) (omega arith)
                      (omega (arith, cut))
                  ∙ ap (λ x. content V r.sfs r.sin (s.offset + x)) (omega arith)
                  ∙ written_at j h,
            )

      -- On a device that works, one or more bytes that are written to a file that is no directory and whose
      -- blocks are in use and apart, within these blocks, are read again at the same offset, to any place
      -- in any memory. Both calls return no error, with fuel for a round more than whole blocks.
      pub write_then_read :
          (m : ℕ → ℕ) (b : ℕ)
          → (r : Io D) × (sfs_io_nolock V fuel true s len ≡ some (r, ok 0))
            × (q : Io D) × (sfs_io_nolock V fuel false
                  (record r { memory = m; buf = b; offset = s.offset })
                  len
                ≡ some (q, ok 0))
            × (q.alen ≡ len)
            × ((j : ℕ) → j < len → q.memory (b + j) ≡ s.memory (s.buf + j))
      write_then_read m b =
          let (r, run, u) = write_transfers V w fuel s f d len pos room enough in
          let (q, again, total, same) = read_again r u m b in (r, run, q, again, total, same)
