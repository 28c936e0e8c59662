-- ===== src/File/Tests.antt =====
-- A table of four files over a vfs that records the nodes it closes, and the theorems at it.
use native.Mathlib.Decide.{ℕ_discrete}
use nk_os_team.Prelude.{
  ℕ, zero, suc, ◌/◌, ◌≡◌, refl, true, false, some, List, [], ◌∷◌, arith, ◌==◌, if◌then◌else◌,
  ==_of_ne,
}
use nk_os_team.File.{with_file, Ret, ok, at, iobuf_used, Vfs, World, fd_none, fd_opened}
use nk_os_team.File.Calls.{Pause, file_open, file_close, file_read}
use nk_os_team.File.Table.{IsTable, change-IsTable, IsFile}
use nk_os_team.File.Close.{Closed, closing, let_go, file_close_lem}
use nk_os_team.File.Open.{file_open_lem}
use nk_os_team.File.Endings.{IsSparing, Result}
use nk_os_team.File.Transfer.{Moved, left_last, resumed, answer, file_read_lem}

-- The node of a path is the path, and every read gives half of what it is asked for.
abbrev recorder : Vfs (List ℕ)
recorder = record {
  vfs_open = λ s path flags. (s, ok path);
  vfs_close = λ s n. n ∷ s;
  vop_ref_inc = λ s n. s;
  vop_open_inc = λ s n. s;
  vop_fstat = λ s n. (s, ok 0);
  vop_read = λ s n iob. (s, record iob { io_resid = iob.io_resid / 2 }, 0);
  vop_write = λ s n iob. (s, iob, 0);
  vop_fsync = λ s n. (s, 0);
}

-- File 0 is open on node 7, with one holder.
abbrev one_open : World (List ℕ)
one_open = record {
  files = λ i. record {
    status = if i == 0 then fd_opened else fd_none;
    readable = true;
    writable = false;
    fd = i;
    pos = 5;
    node = some 7;
    open_count = if i == 0 then 1 else 0;
  };
  files_count = 1;
  vfs = [];
}

one_open-IsTable : IsTable 4 one_open
one_open-IsTable = record { in_use = omega arith; each = λ i l. each i }
  where
    each : (i : ℕ) → IsFile i (one_open.files i)
    each zero = (refl, (omega arith, refl))
    each (suc i) = rw (==_of_ne (suc i) 0 (omega arith)) (refl, refl)

-- Other threads leave descriptor 0 free whenever this one waits.
abbrev lets_go : Pause → World (List ℕ) → World (List ℕ)
lets_go p w = with_file recorder 4 w 0 (λ f. record f { status = fd_none; open_count = 0 })

lets_go-IsSparing : IsSparing recorder 4 lets_go one_open
lets_go-IsSparing = record {
  table = λ p u v.
      change-IsTable 4 u (lets_go p u) 0 v refl (λ j n. rw (==_of_ne j 0 n) refl)
        ((v.each 0 (omega arith)).0, refl);
  spared = λ p u i f k. elim (ℕ_discrete i 0) [
    | yes e ↦ let g : fd_opened ≡ fd_none = rw e at f.1 in absurd (cc g)
    | no n ↦ rw (==_of_ne i 0 n) refl
  ];
}

file_open_lem_example :
    (w' : World (List ℕ)) × (r : Ret) × (file_open recorder 4 lets_go one_open 9 2 ≡ some (w', r))
    × IsTable 4 w'
    × Result recorder 4 lets_go one_open 9 2 w' r
file_open_lem_example =
    file_open_lem recorder 4 lets_go one_open 9 2 one_open-IsTable lets_go-IsSparing

file_close_lem_example :
    (w' : World (List ℕ)) × (file_close recorder 4 one_open (at 0) ≡ some (w', ok 0))
    × Closed recorder 4 one_open w' 0 7
file_close_lem_example =
    file_close_lem recorder 4 one_open 0 7 one_open-IsTable (omega arith) refl refl

-- Another thread closes file 0 during the read.
abbrev other_closes : World (List ℕ) → World (List ℕ)
other_closes w = let_go recorder 4 (closing recorder 4 w 0) 0

abbrev during : World (List ℕ)
during = resumed recorder 4 other_closes one_open 0 7 0 8

during-IsTable : IsTable 4 during
during-IsTable = record { in_use = omega arith; each = λ i l. each i }
  where
    each : (i : ℕ) → IsFile i (during.files i)
    each zero = (refl, (omega arith, refl))
    each (suc i) = rw (==_of_ne (suc i) 0 (omega arith)) (refl, refl)

file_read_lem_example :
    let (_, iob, ret) = answer recorder 4 one_open 0 7 0 8 in
    (w' : World (List ℕ)) × (file_read recorder 4 other_closes one_open (at 0) 0 8
      ≡ some (w', ret, iobuf_used iob))
    × Moved recorder 4 during w' 0 7 (iobuf_used iob)
file_read_lem_example =
    file_read_lem recorder 4 other_closes one_open 0 7 0 8 one_open-IsTable (omega arith) refl refl
      refl during-IsTable (left_last refl refl refl)
