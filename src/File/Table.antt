-- ===== src/File/Table.antt =====
-- What a table of open files is between two calls.
use native.Mathlib.Decide.{ℕ_discrete}
use nk_os_team.Prelude.{
  ℕ, zero, suc, ◌+◌, ◌≤◌, ◌<◌, ◌≡◌, refl, ◌≢◌, inl, inr, true, false, none, some, arith, Bool-cases,
}
use nk_os_team.File.{
  Status, File, Vfs, World, fd_none, fd_init, fd_opened, fd_closed, is_none, has_node, find_free,
}

-- A file with holders has a node, and one without holders is not in use.
abbrev pub IsCounted : Status → File → Type 0
IsCounted fd_none f = f.open_count ≡ 0
IsCounted fd_init f = f.open_count ≡ 0
IsCounted fd_opened f = (0 < f.open_count) × (has_node f.node ≡ true)
IsCounted fd_closed f = (0 < f.open_count) × (has_node f.node ≡ true)

abbrev pub IsFile : ℕ → File → Type 0
IsFile i f = (f.fd ≡ i) × IsCounted f.status f

-- Each file of the table knows its descriptor and counts its holders.
pub record IsTable {S : Type 0} (nentry : ℕ) (w : World S) : Type 0 where
  pub in_use : 0 < w.files_count
  pub each : (i : ℕ) → i < nentry → IsFile i (w.files i)

-- One file changes, and the rest of the table stays.
pub change-IsTable :
    {S : Type 0} (nentry : ℕ) (w w' : World S) (i : ℕ)
    → IsTable nentry w
    → w'.files_count ≡ w.files_count
    → ((j : ℕ) → j ≢ i → w'.files j ≡ w.files j)
    → IsFile i (w'.files i)
    → IsTable nentry w'
change-IsTable nentry w w' i v c o h = record {
  in_use = rw c v.in_use;
  each = λ j l. elim (ℕ_discrete j i) [ yes e ↦ rw e h | no d ↦ rw (o j d) (v.each j l) ];
}

-- The search of `fd_array_alloc`.
pub data Search {S : Type 0} (V : Vfs S) (n count : ℕ) (fs : ℕ → File) (i : ℕ) : Type 0 where
  full :
      find_free V n count fs i ≡ none
      → ((j : ℕ) → i ≤ j → j < i + count → is_none (fs j).status ≡ false)
      → Search V n count fs i
  free :
      (k : ℕ)
      → find_free V n count fs i ≡ some k
      → i ≤ k
      → k < i + count
      → is_none (fs k).status ≡ true
      → ((j : ℕ) → i ≤ j → j < k → is_none (fs j).status ≡ false)
      → Search V n count fs i

module _ {S : Type 0} (V : Vfs S) (n : ℕ) (fs : ℕ → File) where
  further-Search :
      (count i : ℕ)
      → is_none (fs i).status ≡ false
      → Search V n count fs (i + 1)
      → Search V n (suc count) fs i
  unfolding find_free
  further-Search count i e (full f a) =
      full (rw (find_free, e, f) refl)
        (λ j l h. elim (ℕ_discrete j i) [ yes d ↦ rw d e | no d ↦ a j (omega arith) (omega arith) ])
  further-Search count i e (free k f l h b a) =
      free k (rw (find_free, e, f) refl) (omega arith) (omega arith) b
        (λ j l' h'. elim (ℕ_discrete j i) [ yes d ↦ rw d e | no d ↦ a j (omega arith) h' ])

  pub find_free-Search : (count i : ℕ) → Search V n count fs i
  unfolding find_free
  find_free-Search zero i = full refl (λ j l h. absurd (omega arith))
  find_free-Search (suc count) i = elim (Bool-cases (is_none (fs i).status)) [
    | inl e ↦
        free i (rw (find_free, e) refl) (omega arith) (omega arith) e
          (λ j l h. absurd (omega arith))
    | inr e ↦ further-Search count i e (find_free-Search count (i + 1))
  ]
