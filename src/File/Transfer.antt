-- ===== src/File/Transfer.antt =====
-- `file_read`, with whatever other threads do to the table while it waits for the vfs.
use nk_os_team.Prelude.{
  ℕ, ◌+◌, ◌<◌, ◌≡◌, refl, ap, ◌∙◌, ◌≢◌, Bool, true, Option, some, arith, if◌then◌else◌, ==_of_ne,
  lt→ltb, ◌>>=◌,
}
use nk_os_team.File.{
  at, Iobuf, iobuf_init, iobuf_used, e_inval, Vfs, World, fd_none, fd_opened, fd_closed, is_opened,
  is_closed, with_file, with_vfs, fd_array_acquire, fd_array_release, fd2file,
}
use nk_os_team.File.Calls.{advance, move_bytes, transfer, file_read}
use nk_os_team.File.Table.{IsTable, change-IsTable}
use nk_os_team.File.Close.{same, let_go, freed, count_dec-last, count_dec-shared}

module _ {S : Type 0} (V : Vfs S) (nentry : ℕ) where
  -- File `i` after `file_read` has moved `copied` bytes, from the table `w` that it finds when the
  -- vfs is done. An open file has moved on, and is open to the others; a file that was closed
  -- meanwhile has not, and without other holders it is gone and its node closed; with others it stays
  -- closed, with one holder less.
  pub record Moved (w w' : World S) (i n copied : ℕ) : Type 0 where
    pub table : IsTable nentry w'
    pub still :
        (w.files i).status ≡ fd_opened
        → ((w'.files i).status ≡ fd_opened)
          × ((w'.files i).pos ≡ (w.files i).pos + copied)
          × ((w'.files i).open_count + 1 ≡ (w.files i).open_count)
          × (w'.vfs ≡ w.vfs)
    pub closed :
        (w.files i).status ≡ fd_closed
        → (w.files i).open_count ≡ 1
        → ((w'.files i).status ≡ fd_none) × (w'.vfs ≡ V.vfs_close w.vfs n)
    pub shared :
        (w.files i).status ≡ fd_closed
        → 1 < (w.files i).open_count
        → ((w'.files i).status ≡ fd_closed)
          × ((w'.files i).pos ≡ (w.files i).pos)
          × ((w'.files i).open_count + 1 ≡ (w.files i).open_count)
          × (w'.vfs ≡ w.vfs)
    pub others : (j : ℕ) → j ≢ i → w'.files j ≡ w.files j

  -- What a thread that holds file `i` finds, whatever the others did: it is open, held by them too, or
  -- closed, and held by other readers still or by this thread alone.
  pub data IsHeld (w : World S) (i n : ℕ) : Type 0 where
    still_open : (w.files i).status ≡ fd_opened → 1 < (w.files i).open_count → IsHeld w i n
    still_shared : (w.files i).status ≡ fd_closed → 1 < (w.files i).open_count → IsHeld w i n
    left_last :
        (w.files i).status ≡ fd_closed
        → (w.files i).open_count ≡ 1
        → (w.files i).node ≡ some n
        → IsHeld w i n

  release-open :
      (w : World S) (i : ℕ)
      → (w.files i).status ≡ fd_opened
      → 1 < (w.files i).open_count
      → fd_array_release V nentry w i ≡ some (let_go V nentry w i)
  unfolding fd_array_release
  release-open w i s c =
      rw (lt→ltb 0 (w.files i).open_count (omega arith), ap is_opened s)
        (count_dec-shared V nentry w i c)

  release-shared :
      (w : World S) (i : ℕ)
      → (w.files i).status ≡ fd_closed
      → 1 < (w.files i).open_count
      → fd_array_release V nentry w i ≡ some (let_go V nentry w i)
  unfolding fd_array_release
  release-shared w i s c =
      rw (lt→ltb 0 (w.files i).open_count (omega arith), ap is_opened s, ap is_closed s)
        (count_dec-shared V nentry w i c)

  release-last :
      (w : World S) (i n : ℕ)
      → (w.files i).status ≡ fd_closed
      → (w.files i).open_count ≡ 1
      → (w.files i).node ≡ some n
      → fd_array_release V nentry w i ≡ some (freed V nentry w i n)
  unfolding fd_array_release
  release-last w i n s c e =
      rw (lt→ltb 0 (w.files i).open_count (omega (arith, c)), ap is_opened s, ap is_closed s)
        (count_dec-last V nentry w i n s c e)

  abbrev moved_on : World S → (i copied : ℕ) → World S
  moved_on w i copied = with_file V nentry w i (λ f. record f { pos = f.pos + copied })

  advance-open :
      (w : World S) (i c : ℕ)
      → (w.files i).status ≡ fd_opened
      → advance V nentry c w i ≡ moved_on w i c
  advance-open w i c s = rw (ap is_opened s) refl

  advance-closed :
      (w : World S) (i c : ℕ) → (w.files i).status ≡ fd_closed → advance V nentry c w i ≡ w
  advance-closed w i c s = rw (ap is_opened s) refl

  module _ (w : World S) (i n c : ℕ) (v : IsTable nentry w) (l : i < nentry) where
    released-Moved :
        IsHeld w i n
        → (w' : World S) × (fd_array_release V nentry (advance V nentry c w i) i ≡ some w')
          × Moved w w' i n c
    released-Moved (still_open s h) =
        let u = moved_on w i c in
        let w' = let_go V nentry u i in
        let others : (j : ℕ) → j ≢ i → w'.files j ≡ w.files j = λ j d. rw (==_of_ne j i d) refl in
        (
          w',
          ap (λ t. fd_array_release V nentry t i) (advance-open w i c s)
              ∙ release-open u i (rw (same i) s) (rw (same i) h),
          record {
            table = change-IsTable nentry w w' i v refl others (
                let k = rw s at (v.each i l).1 in
                rw (same i, s) ((v.each i l).0, (omega (arith, h), k.1)));
            still = λ _. (rw (same i) s, rw (same i) refl, rw (same i) (omega (arith, h)), refl);
            closed = λ k. absurd (cc (s, k));
            shared = λ k. absurd (cc (s, k));
            others = others;
          },
        )
    released-Moved (still_shared s h) =
        let w' = let_go V nentry w i in
        let others : (j : ℕ) → j ≢ i → w'.files j ≡ w.files j = λ j d. rw (==_of_ne j i d) refl in
        (
          w',
          ap (λ t. fd_array_release V nentry t i) (advance-closed w i c s) ∙ release-shared w i s h,
          record {
            table = change-IsTable nentry w w' i v refl others (
                let k = rw s at (v.each i l).1 in
                rw (same i, s) ((v.each i l).0, (omega (arith, h), k.1)));
            still = λ k. absurd (cc (s, k));
            closed = λ _ k. absurd (omega (arith, h, k));
            shared = λ _ _. (rw (same i) s, rw (same i) refl, rw (same i) (omega (arith, h)), refl);
            others = others;
          },
        )
    released-Moved (left_last s h e) =
        let w' = freed V nentry w i n in
        let others : (j : ℕ) → j ≢ i → w'.files j ≡ w.files j = λ j d. rw (==_of_ne j i d) refl in
        (
          w',
          ap (λ t. fd_array_release V nentry t i) (advance-closed w i c s)
              ∙ release-last w i n s h e,
          record {
            table =
                change-IsTable nentry w w' i v refl others
                  (rw (same i) ((v.each i l).0, omega (arith, h)));
            still = λ k. absurd (cc (s, k));
            closed = λ _ _. (rw (same i) refl, refl);
            shared = λ _ k. absurd (omega (arith, h, k));
            others = others;
          },
        )

  -- File `i` with one holder more.
  abbrev pub acquired : World S → ℕ → World S
  acquired w i = with_file V nentry w i (λ f. record f { open_count = f.open_count + 1 })

  -- What `vop_read` gives for the bytes from the file's position on.
  abbrev pub answer : World S → (i n base len : ℕ) → S × Iobuf × ℕ
  answer w i n base len = V.vop_read w.vfs n (iobuf_init base len (w.files i).pos)

  -- The table that the thread finds after `vop_read`.
  abbrev pub resumed : (World S → World S) → World S → (i n base len : ℕ) → World S
  resumed meanwhile w i n base len =
      meanwhile (with_vfs V nentry (acquired w i) (answer w i n base len).0)

  fd2file-open :
      (w : World S) (i : ℕ)
      → IsTable nentry w
      → i < nentry
      → (w.files i).status ≡ fd_opened
      → fd2file V nentry w (at i) ≡ some (some i)
  unfolding fd2file
  fd2file-open w i v l s =
      rw
        (lt→ltb i nentry l, lt→ltb 0 w.files_count v.in_use, ap is_opened s, (v.each i l).0, same i)
        refl

  acquire-open :
      (w : World S) (i : ℕ)
      → (w.files i).status ≡ fd_opened
      → fd_array_acquire V nentry w i ≡ some (acquired w i)
  unfolding fd_array_acquire
  acquire-open w i s = rw (ap is_opened s) refl

  module _ (meanwhile : World S → World S) (w : World S) (i n base len : ℕ) where
    -- The rest of `file_read` from position `p` on.
    abbrev rest : ℕ → Option (World S × ℕ × ℕ)
    rest p =
        let (s, iob, ret) = V.vop_read w.vfs n (iobuf_init base len p) in
        (do
          w' ←
              fd_array_release V nentry
                (advance V nentry (iobuf_used iob) (meanwhile (with_vfs V nentry (acquired w i) s))
                  i)
                i
          some (w', ret, iobuf_used iob))

    transfer-rest :
        (w.files i).status ≡ fd_opened
        → (w.files i).readable ≡ true
        → (w.files i).node ≡ some n
        → transfer V nentry (λ f. f.readable) V.vop_read meanwhile w base len (some i)
          ≡ rest (w.files i).pos
    unfolding transfer move_bytes
    transfer-rest s r e =
        let a = acquired w i in
        let node : (a.files i).node ≡ some n = rw (same i) e in
        let pos : (a.files i).pos ≡ (w.files i).pos = rw (same i) refl in
        ap
          (λ (b : Bool).
            if b
            then (fd_array_acquire V nentry w i >>= λ w'.
                move_bytes V nentry V.vop_read meanwhile w' i base len (w'.files i).node)
            else some (w, e_inval, 0))
          r
        ∙ ap
            (λ o.
              o >>= λ w'. move_bytes V nentry V.vop_read meanwhile w' i base len (w'.files i).node)
            (acquire-open w i s)
        ∙ ap (move_bytes V nentry V.vop_read meanwhile a i base len) node
        ∙ ap rest pos

    -- A read of an open, readable file by its descriptor, which other threads may use meanwhile, but
    -- without letting go of this thread's hold, fails no assert. It returns what the vfs answers for
    -- the file's position, and the number of bytes moved. The position moves on by that number if the
    -- file is open still; if it was closed, it is gone and its node closed when this thread is the last
    -- that holds it, and else it stays closed, with one holder less.
    pub file_read_lem :
        IsTable nentry w
        → i < nentry
        → (w.files i).status ≡ fd_opened
        → (w.files i).readable ≡ true
        → (w.files i).node ≡ some n
        → IsTable nentry (resumed meanwhile w i n base len)
        → IsHeld (resumed meanwhile w i n base len) i n
        → let (_, iob, ret) = answer w i n base len in
          (w' : World S) × (file_read V nentry meanwhile w (at i) base len
            ≡ some (w', ret, iobuf_used iob))
          × Moved (resumed meanwhile w i n base len) w' i n (iobuf_used iob)
    unfolding file_read
    file_read_lem v l s r e u h =
        let (_, iob, ret) = answer w i n base len in
        let (w', d, m) =
          released-Moved (resumed meanwhile w i n base len) i n (iobuf_used iob) u l h in
        (
          w',
          ap (λ o. o >>= transfer V nentry (λ f. f.readable) V.vop_read meanwhile w base len)
                (fd2file-open w i v l s)
              ∙ transfer-rest s r e
              ∙ ap (λ o. o >>= λ t. some (t, ret, iobuf_used iob)) d,
          m,
        )
