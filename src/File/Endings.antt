-- ===== src/File/Endings.antt =====
-- How `file_open` can end, and its last steps: the file given back, or put in its place.
use nk_os_team.Prelude.{
  ℕ, ◌+◌, ◌<◌, ◌≡◌, refl, ap, ◌∙◌, ◌≢◌, Bool, true, false, Option, none, some, arith, ==_iff,
  ==_of_ne, ◌>>=◌,
}
use nk_os_team.File.{
  Ret, ok, err, Vfs, World, e_inval, e_max_open, fd_none, fd_init, fd_opened, is_none, is_init,
  is_closed, has_node, with_file, with_vfs, appends, access, fd_array_free, fd_array_open,
}
use nk_os_team.File.Calls.{Pause, after_open, after_stat, after_close, give_up, set_open}
use nk_os_team.File.Table.{IsTable, change-IsTable}
use nk_os_team.File.Close.{same}

module _ {S : Type 0} (V : Vfs S) (nentry : ℕ) where
  -- The descriptor that `fd_array_alloc` takes: the first that is free.
  abbrev pub IsFirst : World S → ℕ → Type 0
  IsFirst w i =
      (i < nentry)
      × ((w.files i).status ≡ fd_none)
      × ((j : ℕ) → j < i → is_none (w.files j).status ≡ false)

  -- While the thread waits, the others keep the table in order, and leave the file alone that the
  -- thread has taken: it has no holder, and is not free.
  pub record IsSparing (meanwhile : Pause → World S → World S) (w : World S) : Type 0 where
    pub table : (p : Pause) (u : World S) → IsTable nentry u → IsTable nentry (meanwhile p u)
    pub spared :
        (p : Pause) (u : World S) (i : ℕ)
        → IsFirst w i
        → (u.files i).status ≡ fd_init
        → (meanwhile p u).files i ≡ u.files i

  -- The state with file `i` taken.
  abbrev pub taken : World S → ℕ → World S
  taken w i = with_file V nentry w i (λ f. record f { status = fd_init; node = none })

  -- From the table `u`, descriptor `i` is given back.
  pub record Dropped (u w' : World S) (i : ℕ) : Type 0 where
    pub free : (w'.files i).status ≡ fd_none
    pub vfs : w'.vfs ≡ u.vfs
    pub others : (j : ℕ) → j ≢ i → w'.files j ≡ u.files j

  -- From the table `u`, file `i` is opened on node `n` at `pos`, with one holder.
  pub record Placed (u w' : World S) (i n pos : ℕ) (readable writable : Bool) : Type 0 where
    pub file : w'.files i ≡ record {
      status = fd_opened;
      readable = readable;
      writable = writable;
      fd = i;
      pos = pos;
      node = some n;
      open_count = 1;
    }
    pub vfs : w'.vfs ≡ u.vfs
    pub others : (j : ℕ) → j ≢ i → w'.files j ≡ u.files j

  module _ (meanwhile : Pause → World S → World S) (w : World S) (path flags : ℕ) where
    -- The tables that the thread finds with file `i` taken: after `vfs_open`, after `vop_fstat` of
    -- node `n`, and after `vfs_close` of it.
    abbrev pub opened_at : ℕ → World S
    opened_at i =
        meanwhile after_open (with_vfs V nentry (taken w i) (V.vfs_open w.vfs path flags).0)

    abbrev pub stated_at : (i n : ℕ) → World S
    stated_at i n =
        let u = with_file V nentry (opened_at i) i (λ f. record f { pos = 0 }) in
        meanwhile after_stat (with_vfs V nentry u (V.vop_fstat u.vfs n).0)

    abbrev pub closed_at : (i n : ℕ) → World S
    closed_at i n =
        let u = stated_at i n in meanwhile after_close (with_vfs V nentry u (V.vfs_close u.vfs n))

    -- What `file_open` returns and leaves, by how it ends.
    pub data Result (w' : World S) : Ret → Type 0 where
      bad_mode : access flags ≡ none → w' ≡ w → Result w' (err e_inval)
      table_full :
          (r x : Bool)
          → access flags ≡ some (r, x)
          → ((j : ℕ) → j < nentry → is_none (w.files j).status ≡ false)
          → w' ≡ w
          → Result w' (err e_max_open)
      not_opened :
          (i e : ℕ) (r x : Bool)
          → IsFirst w i
          → access flags ≡ some (r, x)
          → (V.vfs_open w.vfs path flags).1 ≡ err e
          → Dropped (opened_at i) w' i
          → Result w' (err e)
      no_size :
          (i n e : ℕ) (r x : Bool)
          → IsFirst w i
          → access flags ≡ some (r, x)
          → (V.vfs_open w.vfs path flags).1 ≡ ok n
          → appends flags ≡ true
          → (V.vop_fstat (opened_at i).vfs n).1 ≡ err e
          → Dropped (closed_at i n) w' i
          → Result w' (err e)
      at_start :
          (i n : ℕ) (r x : Bool)
          → IsFirst w i
          → access flags ≡ some (r, x)
          → (V.vfs_open w.vfs path flags).1 ≡ ok n
          → appends flags ≡ false
          → Placed (opened_at i) w' i n 0 r x
          → Result w' (ok i)
      at_end :
          (i n size : ℕ) (r x : Bool)
          → IsFirst w i
          → access flags ≡ some (r, x)
          → (V.vfs_open w.vfs path flags).1 ≡ ok n
          → appends flags ≡ true
          → (V.vop_fstat (opened_at i).vfs n).1 ≡ ok size
          → Placed (stated_at i n) w' i n size r x
          → Result w' (ok i)

    abbrev pub Opens : Option (World S × Ret) → Type 0
    Opens o = (w' : World S) × (r : Ret) × (o ≡ some (w', r)) × IsTable nentry w' × Result w' r

  -- File `i` is taken for a call.
  pub record Ready (u : World S) (i : ℕ) : Type 0 where
    pub table : IsTable nentry u
    pub status : (u.files i).status ≡ fd_init

  opening-done :
      (u : World S) (i : ℕ)
      → (u.files i).status ≡ fd_init
      → has_node (u.files i).node ≡ true
      → fd_array_open V nentry u i
        ≡ some (
            with_file V nentry u i
              (λ f. record f { status = fd_opened; open_count = f.open_count + 1 }))
  unfolding fd_array_open
  opening-done u i s h = rw (ap is_init s, h) refl

  module _ (i : ℕ) (l : i < nentry) where
    Ready-count : (u : World S) → Ready u i → (u.files i).open_count ≡ 0
    Ready-count u d = rw d.status at (d.table.each i l).1

    pub given_back :
        (u : World S) (e : ℕ)
        → Ready u i
        → (w' : World S) × (give_up V nentry u i e ≡ some (w', err e))
          × IsTable nentry w'
          × Dropped u w' i
    unfolding give_up fd_array_free
    given_back u e d =
        let w' = with_file V nentry u i (λ f. record f { status = fd_none }) in
        let c = Ready-count u d in
        let others : (j : ℕ) → j ≢ i → w'.files j ≡ u.files j = λ j n. rw (==_of_ne j i n) refl in
        (
          w',
          rw (ap is_init d.status, ap is_closed d.status, (==_iff (u.files i).open_count 0).1 c)
              refl,
          change-IsTable nentry u w' i d.table refl others (rw (same i) ((d.table.each i l).0, c)),
          record { free = rw (same i) refl; vfs = refl; others = others },
        )

    abbrev filled : World S → (n pos : ℕ) → (r x : Bool) → World S
    filled u n pos r x =
        with_file V nentry
          (with_file V nentry u i
            (λ f. record f { pos = pos; node = some n; readable = r; writable = x }))
          i (λ f. record f { status = fd_opened; open_count = f.open_count + 1 })

    pub put_in_place :
        (u : World S) (n pos : ℕ) (r x : Bool)
        → Ready u i
        → (w' : World S) × (set_open V nentry u i n pos (r, x) ≡ some (w', ok i))
          × IsTable nentry w'
          × Placed u w' i n pos r x
    unfolding set_open
    put_in_place u n pos r x d =
        let u' =
          with_file V nentry u i
            (λ f. record f { pos = pos; node = some n; readable = r; writable = x }) in
        let w' = filled u n pos r x in
        let others : (j : ℕ) → j ≢ i → w'.files j ≡ u.files j = λ j n. rw (==_of_ne j i n) refl in
        let k = d.table.each i l in
        let c = Ready-count u d in
        let number : (w'.files i).fd ≡ i = rw (same i) k.0 in
        (
          w',
          ap (λ o. o >>= λ t. some (t, ok (t.files i).fd))
                (opening-done u' i (rw (same i) d.status) (rw (same i) refl))
              ∙ ap (λ z. some (w', ok z)) number,
          change-IsTable nentry u w' i d.table refl others (rw (same i) (k.0, (omega arith, refl))),
          record { file = rw (same i, k.0, c) refl; vfs = refl; others = others },
        )

    pub set_pos-Ready :
        (u : World S) (p : ℕ)
        → Ready u i
        → Ready (with_file V nentry u i (λ f. record f { pos = p })) i
    set_pos-Ready u p d = record {
      table =
          change-IsTable nentry u (with_file V nentry u i (λ f. record f { pos = p })) i d.table
            refl (λ j n. rw (==_of_ne j i n) refl)
            (rw (same i, d.status) ((d.table.each i l).0, Ready-count u d));
      status = rw (same i) d.status;
    }
