-- ===== src/Sfs/Dirs/Find.antt =====
-- `sfs_dirent_findino_nolock`: the first entry with a number.
use native.Mathlib.Decide.{ℕ_discrete}
use nk_os_team.Prelude.{
  ℕ, zero, suc, ◌+◌, ◌≤◌, ◌<◌, ◌≡◌, refl, sym, ap, ◌∙◌, ◌≢◌, Bool, true, false, Option, some, arith,
  ◌==◌, ==_iff, ==_of_ne, lt→ltb, put,
}
use nk_os_team.File.{Ret, ok, err}
use nk_os_team.Sfs.{Sfs, Device, Inode, copy_in}
use nk_os_team.Sfs.Bmap.{word_at}
use nk_os_team.Sfs.Io.{sfs_type_dir}
use nk_os_team.Sfs.Disk.{bytes, IsWorking, sfs_rbuf_lem}
use nk_os_team.Sfs.Files.{IsFile, block_no, inuse-IsUsed, sfs_bmap_load_nolock_lem}
use nk_os_team.Sfs.Dirs.{
  e_noent, name_at, sfs_max_fname_len, entry_size, sfs_dirent_read_nolock, find_from,
  sfs_dirent_findino_nolock,
}

module _ {D : Type 0} (V : Device D) where
  -- The number in the entry in slot `i`.
  abbrev pub entry_ino : Sfs D → Inode → (i : ℕ) → ℕ
  entry_ino s sin i = word_at (bytes V s (block_no V s sin i)) 0

  -- `e` is the entry in slot `i`: the bytes of its block, with a 0 behind the name.
  abbrev pub IsEntry : Sfs D → Inode → (i : ℕ) → (e : ℕ → ℕ) → Type 0
  IsEntry s sin i e =
      ((k : ℕ) → k < name_at + sfs_max_fname_len → e k ≡ bytes V s (block_no V s sin i) k)
      × (e (name_at + sfs_max_fname_len) ≡ 0)

  -- What `find_from` can do.
  data Found (n i : ℕ) (s : Sfs D) (sin : Inode) (ino : ℕ) (entry : ℕ → ℕ) : Type 0 where
    first :
        (j : ℕ) (e : ℕ → ℕ)
        → find_from V n i s sin ino entry ≡ some (((s, sin), e), ok 0)
        → i ≤ j
        → j < i + n
        → entry_ino s sin j ≡ ino
        → IsEntry s sin j e
        → ((k : ℕ) → i ≤ k → k < j → entry_ino s sin k ≢ ino)
        → Found n i s sin ino entry
    missing :
        (e : ℕ → ℕ)
        → find_from V n i s sin ino entry ≡ some (((s, sin), e), err e_noent)
        → ((k : ℕ) → i ≤ k → k < i + n → entry_ino s sin k ≢ ino)
        → Found n i s sin ino entry

  -- What `sfs_dirent_findino_nolock` can do: `entry` is the first that has the number, or none has.
  pub data FindIno (s : Sfs D) (sin : Inode) (ino : ℕ) (entry : ℕ → ℕ) : Type 0 where
    found_ino :
        (i : ℕ) (e : ℕ → ℕ)
        → sfs_dirent_findino_nolock V s sin ino entry ≡ some (((s, sin), e), ok 0)
        → i < sin.din.blocks
        → entry_ino s sin i ≡ ino
        → IsEntry s sin i e
        → ((k : ℕ) → k < i → entry_ino s sin k ≢ ino)
        → FindIno s sin ino entry
    no_ino :
        (e : ℕ → ℕ)
        → sfs_dirent_findino_nolock V s sin ino entry ≡ some (((s, sin), e), err e_noent)
        → ((k : ℕ) → k < sin.din.blocks → entry_ino s sin k ≢ ino)
        → FindIno s sin ino entry

  -- The entry that is read from a block with bytes `f` over the bytes `e`.
  abbrev read_into : (e f : ℕ → ℕ) → ℕ → ℕ
  read_into e f = put (copy_in e 0 (λ j. f (0 + j)) entry_size) 259 0

  read_into-IsEntry :
      (s : Sfs D) (sin : Inode) (i : ℕ) (e : ℕ → ℕ)
      → IsEntry s sin i (read_into e (bytes V s (block_no V s sin i)))
  read_into-IsEntry s sin i e = ((λ k l. ground arith), ground arith)

  word-read_into : (e f : ℕ → ℕ) → word_at (read_into e f) 0 ≡ word_at f 0
  word-read_into e f = ground arith

  module _ (w : IsWorking V) (s : Sfs D) (sin : Inode) (f : IsFile V s sin)
      (d : (sin.din.type == sfs_type_dir) ≡ true) where
    read_lem :
        (i : ℕ) (e : ℕ → ℕ)
        → i < sin.din.blocks
        → sfs_dirent_read_nolock V s sin i e
          ≡ some (((s, sin), read_into e (bytes V s (block_no V s sin i))), ok 0)
    unfolding sfs_dirent_read_nolock
    read_lem i e h =
        let b = block_no V s sin i in
        let u = f.used i h in
        rw
          (
            sfs_dirent_read_nolock,
            d,
            lt→ltb i sin.din.blocks h,
            sfs_bmap_load_nolock_lem V w s sin i f h,
            inuse-IsUsed s b u,
            sfs_rbuf_lem V w s e 0 entry_size b 0 u.block (omega arith) (omega arith),
          )
          refl

    -- What the loop does after it has read an entry.
    abbrev go_on :
        (n i ino : ℕ) (e : ℕ → ℕ) (here : Bool) → Option (((Sfs D × Inode) × (ℕ → ℕ)) × Ret)
    go_on n i ino e true = some (((s, sin), e), ok 0)
    go_on n i ino e false = find_from V n (i + 1) s sin ino e

    find_from-go_on :
        (n i ino : ℕ) (e : ℕ → ℕ)
        → i < sin.din.blocks
        → let e' = read_into e (bytes V s (block_no V s sin i)) in
          find_from V (suc n) i s sin ino e ≡ go_on n i ino e' (word_at e' 0 == ino)
    unfolding find_from
    find_from-go_on n i ino e h = rw (find_from, read_lem i e h) refl

    later :
        (n i ino : ℕ) (e e' : ℕ → ℕ)
        → entry_ino s sin i ≢ ino
        → find_from V (suc n) i s sin ino e ≡ find_from V n (i + 1) s sin ino e'
        → Found n (i + 1) s sin ino e'
        → Found (suc n) i s sin ino e
    later n i ino e e' g same (first j x run l h a b c) =
        first j x (same ∙ run) (omega arith) (omega arith) a b
          (λ k p q. elim (ℕ_discrete k i) [ yes r ↦ rw r g | no r ↦ c k (omega arith) q ])
    later n i ino e e' g same (missing x run c) =
        missing x (same ∙ run) (λ k p q. elim (ℕ_discrete k i) [
          | yes r ↦ rw r g
          | no r ↦ c k (omega arith) (omega arith)
        ])

    find_from-Found : (n i ino : ℕ) (e : ℕ → ℕ) → i + n ≤ sin.din.blocks → Found n i s sin ino e
    unfolding find_from
    find_from-Found zero i ino e h = missing e refl (λ k p q. absurd (omega arith))
    find_from-Found (suc n) i ino e h =
        let e' = read_into e (bytes V s (block_no V s sin i)) in
        let same = word-read_into e (bytes V s (block_no V s sin i)) in
        let step = find_from-go_on n i ino e (omega arith) in
        elim (ℕ_discrete (word_at e' 0) ino) [
          | yes a ↦
              first i e' (step ∙ ap (go_on n i ino e') ((==_iff (word_at e' 0) ino).1 a))
                (omega arith) (omega arith) (sym same ∙ a) (read_into-IsEntry s sin i e)
                (λ k p q. absurd (omega arith))
          | no a ↦
              later n i ino e e' (λ q. a (same ∙ q))
                (step ∙ ap (go_on n i ino e') (==_of_ne (word_at e' 0) ino a))
                (find_from-Found n (i + 1) ino e' (omega arith))
        ]

    whole : (ino : ℕ) (e : ℕ → ℕ) → Found sin.din.blocks 0 s sin ino e → FindIno s sin ino e
    unfolding sfs_dirent_findino_nolock
    whole ino e (first j x run l h a b c) =
        found_ino j x run (omega arith) a b (λ k p. c k (omega arith) p)
    whole ino e (missing x run c) = no_ino x run (λ k p. c k (omega arith) (omega arith))

    -- On a device that works, in a directory whose blocks are in use, `sfs_dirent_findino_nolock` gives
    -- the bytes of the first entry with the number of an inode, a 0 put behind its name, or returns that
    -- there is none, which is then so. The disk and the directory stay as they are.
    pub sfs_dirent_findino_nolock_lem : (ino : ℕ) (entry : ℕ → ℕ) → FindIno s sin ino entry
    sfs_dirent_findino_nolock_lem ino entry =
        whole ino entry (find_from-Found sin.din.blocks 0 ino entry (omega arith))
