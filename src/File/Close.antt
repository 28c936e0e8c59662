-- ===== src/File/Close.antt =====
-- `file_close`: the descriptor is free again, and the node closed, once nobody holds the file.
use native.Mathlib.Decide.{ℕ_discrete}
use nk_os_team.Prelude.{
  ℕ, ◌+◌, ◌-◌, ◌<◌, ◌≡◌, refl, ap, ◌∙◌, ◌≢◌, true, some, arith, ◌==◌, ==_iff, ==_of_ne, lt→ltb,
  ◌>>=◌,
}
use nk_os_team.File.{
  ok, at, File, Vfs, World, fd_none, fd_opened, fd_closed, is_init, is_closed, with_file, with_vfs,
  close_node, fd_array_free, fd_array_close, count_dec, fd2file,
}
use nk_os_team.File.Calls.{file_close}
use nk_os_team.File.Table.{IsTable, change-IsTable}

pub same : (i : ℕ) → (i == i) ≡ true
same i = (==_iff i i).1 refl

abbrev one_less : File → File
one_less f = record f { open_count = f.open_count - 1 }

module _ {S : Type 0} (V : Vfs S) (nentry : ℕ) where
  -- The state without file `i`, its node `n` closed.
  abbrev pub emptied : World S → (i n : ℕ) → World S
  emptied w i n =
      with_file V nentry (with_vfs V nentry w (V.vfs_close w.vfs n)) i
        (λ f. record f { status = fd_none })

  abbrev pub let_go : World S → ℕ → World S
  let_go w i = with_file V nentry w i one_less

  -- The state after the last holder has let go of file `i`.
  abbrev pub freed : World S → (i n : ℕ) → World S
  freed w i n = emptied (let_go w i) i n

  free-closed :
      (w : World S) (i n : ℕ)
      → (w.files i).status ≡ fd_closed
      → (w.files i).open_count ≡ 0
      → (w.files i).node ≡ some n
      → fd_array_free V nentry w i ≡ some (emptied w i n)
  unfolding fd_array_free
  free-closed w i n s c e =
      rw (ap is_init s, ap is_closed s, (==_iff (w.files i).open_count 0).1 c)
        (ap
          (λ o. close_node V nentry w o >>= λ w'.
            some (with_file V nentry w' i (λ f. record f { status = fd_none })))
          e)

  dec-free :
      (w : World S) (i : ℕ)
      → (w.files i).open_count ≡ 1
      → count_dec V nentry w i ≡ fd_array_free V nentry (let_go w i) i
  unfolding count_dec
  dec-free w i c = rw (same i, c) refl

  pub count_dec-last :
      (w : World S) (i n : ℕ)
      → (w.files i).status ≡ fd_closed
      → (w.files i).open_count ≡ 1
      → (w.files i).node ≡ some n
      → count_dec V nentry w i ≡ some (freed w i n)
  count_dec-last w i n s c e =
      dec-free w i c
      ∙ free-closed (let_go w i) i n (rw (same i) s) (rw (same i) (omega (arith, c)))
          (rw (same i) e)

  pub count_dec-shared :
      (w : World S) (i : ℕ)
      → 1 < (w.files i).open_count
      → count_dec V nentry w i ≡ some (let_go w i)
  unfolding count_dec
  count_dec-shared w i c = rw (same i, ==_of_ne ((w.files i).open_count - 1) 0 (omega arith)) refl

  -- `fd_array_close` closes the file before the holder lets go.
  abbrev pub closing : World S → ℕ → World S
  closing w i = with_file V nentry w i (λ f. record f { status = fd_closed })

  close-dec :
      (w : World S) (i : ℕ)
      → (w.files i).status ≡ fd_opened
      → 0 < (w.files i).open_count
      → fd_array_close V nentry w i ≡ count_dec V nentry (closing w i) i
  unfolding fd_array_close
  close-dec w i s c = rw (lt→ltb 0 (w.files i).open_count c, s) refl

  pub close-found :
      (w w' : World S) (i : ℕ)
      → IsTable nentry w
      → i < nentry
      → (w.files i).status ≡ fd_opened
      → fd_array_close V nentry w i ≡ some w'
      → file_close V nentry w (at i) ≡ some (w', ok 0)
  unfolding file_close fd2file
  close-found w w' i v l s e =
      rw (lt→ltb i nentry l, lt→ltb 0 w.files_count v.in_use, s, (v.each i l).0, same i, e) refl

  -- What `file_close` leaves: file `i` with node `n` has one holder less, and without holders it is
  -- gone and its node closed. The other files stay.
  pub record Closed (w w' : World S) (i n : ℕ) : Type 0 where
    pub table : IsTable nentry w'
    pub gone :
        (w.files i).open_count ≡ 1
        → ((w'.files i).status ≡ fd_none) × (w'.vfs ≡ V.vfs_close w.vfs n)
    pub kept :
        1 < (w.files i).open_count
        → ((w'.files i).status ≡ fd_closed)
          × ((w'.files i).open_count + 1 ≡ (w.files i).open_count)
          × (w'.vfs ≡ w.vfs)
    pub others : (j : ℕ) → j ≢ i → w'.files j ≡ w.files j

  module _ (w : World S) (i n : ℕ) (v : IsTable nentry w) (l : i < nentry)
      (s : (w.files i).status ≡ fd_opened) (e : (w.files i).node ≡ some n) where
    last-Closed : (w.files i).open_count ≡ 1 → Closed w (freed (closing w i) i n) i n
    last-Closed c = record {
      table =
          change-IsTable nentry w (freed (closing w i) i n) i v refl
            (λ j d. rw (==_of_ne j i d) refl) (rw (same i) ((v.each i l).0, omega (arith, c)));
      gone = λ _. (rw (same i) refl, refl);
      kept = λ h. absurd (omega arith);
      others = λ j d. rw (==_of_ne j i d) refl;
    }

    shared-Closed : 1 < (w.files i).open_count → Closed w (let_go (closing w i) i) i n
    shared-Closed h = record {
      table =
          change-IsTable nentry w (let_go (closing w i) i) i v refl
            (λ j d. rw (==_of_ne j i d) refl)
            (rw (same i) ((v.each i l).0, (omega (arith, h), rw e refl)));
      gone = λ c. absurd (omega arith);
      kept = λ _. (rw (same i) refl, rw (same i) (omega arith), refl);
      others = λ j d. rw (==_of_ne j i d) refl;
    }

  -- `file_close` of an open file succeeds. Its last holder takes it out of the table and closes its
  -- node; with other holders it is only marked as closed, and its node stays open. The other files
  -- stay.
  pub file_close_lem :
      (w : World S) (i n : ℕ)
      → IsTable nentry w
      → i < nentry
      → (w.files i).status ≡ fd_opened
      → (w.files i).node ≡ some n
      → (w' : World S) × (file_close V nentry w (at i) ≡ some (w', ok 0)) × Closed w w' i n
  file_close_lem w i n v l s e =
      let pos : 0 < (w.files i).open_count = (rw s at (v.each i l).1).0 in
      elim (ℕ_discrete (w.files i).open_count 1) [
        | yes c ↦ (
          freed (closing w i) i n,
          close-found w (freed (closing w i) i n) i v l s (
              close-dec w i s pos
              ∙ count_dec-last (closing w i) i n (rw (same i) refl) (rw (same i) c)
                  (rw (same i) e)),
          last-Closed w i n v l s e c,
        )
        | no d ↦
            let h : 1 < (w.files i).open_count = omega arith in
            (
              let_go (closing w i) i,
              close-found w (let_go (closing w i) i) i v l s
                  (close-dec w i s pos ∙ count_dec-shared (closing w i) i (rw (same i) h)),
              shared-Closed w i n v l s e h,
            )
      ]
