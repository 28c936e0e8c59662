-- ===== src/Sfs/Dirs.antt =====
-- kern/fs/sfs/sfs_inode.c: the entries of a directory, one in each of its blocks. An entry is its
-- 260 bytes: the number of an inode, and a name.
pub mod Find
use nk_os_team.Prelude.{
  ℕ, zero, suc, ◌+◌, Bool, true, false, not, ◌&&◌, Option, none, some, ltb, leb, ◌==◌,
  if◌then◌else◌, put, ◌>>=◌,
}
use nk_os_team.File.{Ret, ok, err}
use nk_os_team.Bytes.{strlen, strcmp}
use nk_os_team.Sfs.{Sfs, Device, Inode, sfs_rbuf}
use nk_os_team.Sfs.Blocks.{e_no_mem, assert_inuse}
use nk_os_team.Sfs.Bmap.{word_at, sfs_bmap_load_nolock}
use nk_os_team.Sfs.Io.{sfs_type_dir}

abbrev pub e_noent : ℕ
e_noent = 16

abbrev pub sfs_max_fname_len : ℕ
sfs_max_fname_len = 255

-- The place of a name in an entry, and the length of an entry.
abbrev pub name_at : ℕ
name_at = 4

abbrev pub entry_size : ℕ
entry_size = name_at + sfs_max_fname_len + 1

-- What `sfs_dirent_search_nolock` stores.
pub record Search : Type 0 where
  pub ino_store : Option ℕ
  pub slot : Option ℕ
  pub empty_slot : Option ℕ

module _ {D : Type 0} (V : Device D) where
  -- The entry in a slot; the name ends with a 0.
  unfoldable pub sfs_dirent_read_nolock :
      Sfs D → Inode → (slot : ℕ) → (entry : ℕ → ℕ) → Option (((Sfs D × Inode) × (ℕ → ℕ)) × Ret)
  sfs_dirent_read_nolock s sin slot entry =
      if (sin.din.type == sfs_type_dir) && ltb slot sin.din.blocks
      then (sfs_bmap_load_nolock V s sin slot >>= λ r. elim (r.1) [
        | err e ↦ some ((r.0, entry), err e)
        | ok ino ↦ assert_inuse r.0.0 ino (
            sfs_rbuf V r.0.0 entry 0 entry_size ino 0 >>= λ b. elim (b.1) [
              | err e ↦ some ((r.0, b.0), err e)
              | ok _ ↦ some ((r.0, put b.0 (name_at + sfs_max_fname_len) 0), ok 0)
            ])
      ])
      else none

  -- The loop of `sfs_dirent_findino_nolock`, for `count` slots from `slot` on.
  unfoldable pub find_from :
      (count slot : ℕ)
      → Sfs D
      → Inode
      → (ino : ℕ) → (entry : ℕ → ℕ) → Option (((Sfs D × Inode) × (ℕ → ℕ)) × Ret)
  find_from zero slot s sin ino entry = some (((s, sin), entry), err e_noent)
  find_from (suc n) slot s sin ino entry = sfs_dirent_read_nolock s sin slot entry >>= λ r.
      elim (r.1) [
        | err e ↦ some (r.0, err e)
        | ok _ ↦ elim (word_at r.0.1 0 == ino) [
          | true ↦ some (r.0, ok 0)
          | false ↦ find_from n (slot + 1) r.0.0.0 r.0.0.1 ino r.0.1
        ]
      ]

  unfoldable pub sfs_dirent_findino_nolock :
      Sfs D → Inode → (ino : ℕ) → (entry : ℕ → ℕ) → Option (((Sfs D × Inode) × (ℕ → ℕ)) × Ret)
  sfs_dirent_findino_nolock s sin ino entry = find_from sin.din.blocks 0 s sin ino entry

  -- The loop of `sfs_dirent_search_nolock`.
  unfoldable pub search_from :
      (count slot : ℕ)
      → Sfs D
      → Inode
      → (name entry : ℕ → ℕ) → Search
      → Option (((Sfs D × Inode) × Search) × Ret)
  search_from zero slot s sin name entry out = some (((s, sin), out), err e_noent)
  search_from (suc n) slot s sin name entry out = sfs_dirent_read_nolock s sin slot entry >>= λ r.
      let ino = word_at r.0.1 0 in
      elim (r.1) [
        | err e ↦ some ((r.0.0, out), err e)
        | ok _ ↦ elim (ino == 0) [
          | true ↦
              search_from n (slot + 1) r.0.0.0 r.0.0.1 name r.0.1
                (record out { empty_slot = some slot })
          | false ↦ strcmp (sfs_max_fname_len + 1) name 0 r.0.1 name_at >>= λ c. elim (c == 0) [
            | true ↦ some ((r.0.0, record out { slot = some slot; ino_store = some ino }), ok 0)
            | false ↦ search_from n (slot + 1) r.0.0.0 r.0.0.1 name r.0.1 out
          ]
        ]
      ]

  -- `name` is a string at address 0. `got` tells if `kmalloc` gives the entry, with the bytes `entry`. The
  -- fuel is for a name of 255 bytes: the source asserts that it is not longer.
  unfoldable pub sfs_dirent_search_nolock :
      (got : Bool)
      → (entry : ℕ → ℕ) → Sfs D
      → Inode
      → (name : ℕ → ℕ) → Option (((Sfs D × Inode) × Search) × Ret)
  sfs_dirent_search_nolock got entry s sin name =
      let out : Search = record { ino_store = none; slot = none; empty_slot = none } in
      strlen (sfs_max_fname_len + 2) name 0 >>= λ len.
      if not (leb len sfs_max_fname_len)
      then none
      else if not got
      then some (((s, sin), out), err e_no_mem)
      else search_from sin.din.blocks 0 s sin name entry
          (record out { empty_slot = some sin.din.blocks })
