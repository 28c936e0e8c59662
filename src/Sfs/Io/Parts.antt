-- ===== src/Sfs/Io/Parts.antt =====
-- The three parts of `sfs_io_nolock`, within the blocks that the file has.
use native.Mathlib.Decide.{ℕ_discrete}
use mathlib.Core.Path.{subst}
use nk_os_team.Prelude.{
  ℕ, zero, suc, ◌+◌, ◌-◌, ◌*◌, ◌/◌, ◌%◌, ◌≤◌, ◌<◌, ◌≡◌, refl, sym, ap, ◌∙◌, ◌⊎◌, inl, inr, Bool,
  some, arith, ltb, leb, ==_of_ne, ltb→lt, Bool-cases,
}
use nk_os_team.File.{ok}
use nk_os_team.Sfs.{Sfs, Device, sfs_blksize}
use nk_os_team.Sfs.Io.Offsets.{last_offset, last_next, last_self, head_size, head_fits, last_head}
use nk_os_team.Sfs.Disk.{IsWorking}
use nk_os_team.Sfs.Files.{IsFile}
use nk_os_team.Sfs.Io.{Io, sfs_buf_op, sfs_block_op, move_on, io_head, io_body, io_tail, io_parts}
use nk_os_team.Sfs.Io.Pieces.{
  Effect, Moved, with_block_lem, sfs_buf_op_lem, sfs_block_op_lem, Effect-IsFile, Effect-append,
  Effect-none, Moved-append, Moved-none,
}

module _ {D : Type 0} (V : Device D) (w : IsWorking V) (write : Bool) (endpos : ℕ) where
  -- Between two transfers: the next one begins a block, or there is none.
  record IsReady (s : Io D) : Type 0 where
    file : IsFile V s.sfs s.sin
    room : endpos ≤ s.sin.din.blocks * sfs_blksize
    before : s.offset ≤ endpos
    next : (s.offset ≡ endpos) ⊎ (s.offset ≡ s.blkno * sfs_blksize)

  -- A part has gone well.
  record Done (s : Io D) (b : Io D) : Type 0 where
    count : ℕ
    moved : Moved V write s count b
    last : last_offset b.offset endpos ≡ last_offset s.offset endpos
    ready : IsReady b

  moved_on :
      (s : Io D) (n : ℕ) (t : Sfs D) (m : ℕ → ℕ)
      → Effect V write s n t m
      → Moved V write s n (move_on V (record s { sfs = t; memory = m }) n)
  moved_on s n t m e = record {
    sin_same = refl;
    buf_on = refl;
    offset_on = refl;
    alen_on = refl;
    effect = e;
  }

  in_file :
      (s : Io D)
      → IsReady s
      → s.offset < endpos
      → (s.offset ≡ s.blkno * sfs_blksize) × (s.blkno < s.sin.din.blocks)
  in_file s r h = elim (r.next) [
    | inl e ↦ absurd (omega arith)
    | inr e ↦ (e, omega (arith, r.room))
  ]

  Done-after :
      (s b c : Io D) (n : ℕ)
      → Moved V write s n b
      → last_offset b.offset endpos ≡ last_offset s.offset endpos
      → IsFile V s.sfs s.sin
      → Done b c
      → Done s c
  Done-after s b c n v e f d = record {
    count = n + d.count;
    moved = Moved-append V write s b c n d.count f v d.moved;
    last = d.last ∙ e;
    ready = d.ready;
  }

  io_body_lem :
      (fuel : ℕ) (s : Io D)
      → IsReady s
      → endpos < s.offset + fuel * sfs_blksize
      → (b : Io D) × (io_body V fuel write s endpos ≡ some (b, ok 0))
        × Done s b
        × (endpos < b.offset + sfs_blksize)
  unfolding io_body
  io_body_lem zero s r h = absurd (omega (arith, r.before))
  io_body_lem (suc fuel) s r h = elim (Bool-cases (leb (s.offset + sfs_blksize) endpos)) [
    | inr e ↦ (
      s,
      rw (io_body, e) refl,
      record { count = 0; moved = Moved-none V write s; last = refl; ready = r },
      ground arith,
    )
    | inl e ↦
        let l : s.offset + sfs_blksize ≤ endpos = ground arith in
        let (at, inside) = in_file s r (omega arith) in
        let (t, m, run, effect) = sfs_block_op_lem V w s r.file inside write at in
        let s' = move_on V (record s { sfs = t; memory = m }) sfs_blksize in
        let ready : IsReady s' = record {
          file = Effect-IsFile V write s sfs_blksize t m r.file effect;
          room = r.room;
          before = l;
          next = inr (omega arith);
        } in
        let (b, rest, done, last) = io_body_lem fuel s' ready (omega arith) in
        (
          b,
          rw
              (
                io_body,
                e,
                with_block_lem V w s r.file inside (λ s' ino. sfs_block_op V write s' ino 1),
                run,
              )
              rest,
          Done-after s s' b sfs_blksize (moved_on s sfs_blksize t m effect)
              (last_next s.offset s.blkno endpos at l) r.file done,
          last,
        )
  ]

  io_head_lem :
      (s : Io D)
      → IsFile V s.sfs s.sin
      → endpos ≤ s.sin.din.blocks * sfs_blksize
      → s.offset < endpos
      → s.blkno ≡ s.offset / sfs_blksize
      → (b : Io D) × (io_head V write s endpos ≡ some (b, ok 0)) × Done s b
  unfolding io_head
  io_head_lem s f room h k = elim (ℕ_discrete (s.offset % sfs_blksize) 0) [
    | yes e ↦ (
      s,
      rw (io_head, e) refl,
      record {
        count = 0;
        moved = Moved-none V write s;
        last = refl;
        ready = record { file = f; room = room; before = omega arith; next = inr (omega arith) };
      },
    )
    | no d ↦
        let n = head_size s.blkno s.offset endpos in
        let o = s.offset % sfs_blksize in
        let (fits, before, next) = head_fits s.blkno s.offset endpos k h in
        let inside : s.blkno < s.sin.din.blocks = omega arith in
        let (t, m, run, effect) =
          sfs_buf_op_lem V w s f inside o n (omega arith) (omega arith) fits write in
        let b = move_on V (record s { sfs = t; memory = m }) n in
        (
          b,
          rw
              (
                io_head,
                ==_of_ne o 0 d,
                with_block_lem V w s f inside (λ s' ino. sfs_buf_op V write s' n ino o),
                run,
              )
              refl,
          record {
            count = n;
            moved = moved_on s n t m effect;
            last = last_head s.blkno s.offset endpos k h d;
            ready = record {
              file = Effect-IsFile V write s n t m f effect;
              room = room;
              before = before;
              next = next;
            };
          },
        )
  ]

  -- The bytes from `offset` to `endpos` have been transferred.
  pub record IsTransferred (s r : Io D) : Type 0 where
    pub inode : r.sin ≡ s.sin
    pub offset_at : r.offset ≡ last_offset s.offset endpos
    pub total : r.alen ≡ s.alen + (endpos - s.offset)
    pub transfer : Effect V write s (endpos - s.offset) r.sfs r.memory

  io_tail_lem :
      (s : Io D)
      → IsReady s
      → endpos < s.offset + sfs_blksize
      → (r : Io D) × (io_tail V write s endpos ≡ some (r, ok 0)) × IsTransferred s r
  unfolding io_tail
  io_tail_lem s r h = elim (Bool-cases (ltb s.offset endpos)) [
    | inr e ↦
        let n : endpos - s.offset ≡ 0 = ground arith in
        (
          s,
          rw (io_tail, e) refl,
          record {
            inode = refl;
            offset_at = sym (last_self s.offset s.blkno endpos r.before h r.next);
            total = omega arith;
            transfer =
                subst (λ x. Effect V write s x s.sfs s.memory) (sym n) (Effect-none V write s);
          },
        )
    | inl e ↦
        let (at, inside) = in_file s r (ltb→lt s.offset endpos e) in
        let n = endpos - s.offset in
        let (t, m, run, effect) =
          sfs_buf_op_lem V w s r.file inside 0 n (at ∙ omega arith) (omega arith) (omega arith)
            write in
        (
          record s { sfs = t; memory = m; alen = s.alen + n },
          rw
              (
                io_tail,
                e,
                with_block_lem V w s r.file inside (λ s' ino. sfs_buf_op V write s' n ino 0),
                run,
              )
              refl,
          record {
            inode = refl;
            offset_at = sym (last_self s.offset s.blkno endpos r.before h r.next);
            total = refl;
            transfer = effect;
          },
        )
  ]

  total_after :
      (s b r : Io D) → IsFile V s.sfs s.sin → Done s b → IsTransferred b r → IsTransferred s r
  total_after s b r f d u =
      let n : d.count + (endpos - b.offset) ≡ endpos - s.offset =
        omega (arith, d.moved.offset_on, d.ready.before) in
      record {
        inode = u.inode ∙ d.moved.sin_same;
        offset_at = u.offset_at ∙ d.last;
        total = u.total ∙ ap (λ x. x + (endpos - b.offset)) d.moved.alen_on ∙ omega (arith, n);
        transfer =
            subst (λ x. Effect V write s x r.sfs r.memory) n
              (Effect-append V write s b d.count (endpos - b.offset) r.sfs r.memory f d.moved
                u.transfer);
      }

  pub io_parts_lem :
      (fuel : ℕ) (s : Io D)
      → IsFile V s.sfs s.sin
      → endpos ≤ s.sin.din.blocks * sfs_blksize
      → s.offset < endpos
      → s.blkno ≡ s.offset / sfs_blksize
      → endpos < s.offset + fuel * sfs_blksize
      → (r : Io D) × (io_parts V fuel write s endpos ≡ some (r, ok 0)) × IsTransferred s r
  unfolding io_parts
  io_parts_lem fuel s f room h k enough =
      let (b, head, d) = io_head_lem s f room h k in
      let (c, body, e, last) = io_body_lem fuel b d.ready (omega (arith, d.moved.offset_on)) in
      let (r, tail, u) = io_tail_lem c e.ready last in
      (
        r,
        rw (io_parts, head, body) tail,
        total_after s b r f d (total_after b c r d.ready.file e u),
      )
