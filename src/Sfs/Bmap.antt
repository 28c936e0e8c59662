-- ===== src/Sfs/Bmap.antt =====
-- kern/fs/sfs/sfs_inode.c: the block of the disk that holds a block of a file: the first 12 are listed
-- in the inode, the others in its indirect block.
use nk_os_team.Prelude.{
  ℕ, ◌+◌, ◌-◌, ◌*◌, ◌/◌, ◌%◌, ◌^◌, Bool, true, not, ◌&&◌, ◌||◌, Option, none, some, ltb, leb, ◌==◌,
  if◌then◌else◌, put, ◌>>=◌,
}
use nk_os_team.File.{Ret, ok, err}
use nk_os_team.Sfs.{Sfs, Device, DiskInode, Inode, sfs_rbuf, sfs_wbuf}
use nk_os_team.Sfs.Blocks.{assert_inuse, sfs_block_free, sfs_block_alloc}

abbrev pub sfs_ndirect : ℕ
sfs_ndirect = 12

abbrev pub sfs_blk_nentry : ℕ
sfs_blk_nentry = 1024

-- A `uint32_t` as its bytes, the low one first.
abbrev pub word_at : (ℕ → ℕ) → ℕ → ℕ
word_at f o = f o + 2 ^ 8 * f (o + 1) + 2 ^ 16 * f (o + 2) + 2 ^ 24 * f (o + 3)

abbrev pub word_bytes : ℕ → ℕ → ℕ
word_bytes w j =
    if j == 0
    then w % 2 ^ 8
    else if j == 1
    then w / 2 ^ 8 % 2 ^ 8
    else if j == 2
    then w / 2 ^ 16 % 2 ^ 8
    else w / 2 ^ 24 % 2 ^ 8

abbrev pub with_din : Inode → (DiskInode → DiskInode) → Inode
with_din sin f = record sin { din = f sin.din; dirty = true }

module _ {D : Type 0} (V : Device D) where
  -- `failed_cleanup` in `sfs_bmap_get_sub_nolock`, with the entry block of before
  abbrev pub clean_up : Sfs D → (old ent : ℕ) → (error : ℕ) → Option ((Sfs D × ℕ) × Ret)
  clean_up s old ent e =
      if ent == old
      then some ((s, old), err e)
      else (sfs_block_free s ent >>= λ s'. some ((s', old), err e))

  -- The new block of the file is written into its entry.
  abbrev pub store_entry : Sfs D → (old ent index ino : ℕ) → Option ((Sfs D × ℕ) × Ret)
  store_entry s old ent index ino = sfs_wbuf V s (word_bytes ino) 0 4 ent (index * 4) >>= λ r.
      elim (r.1) [
        | err e ↦ sfs_block_free r.0 ino >>= λ s'. clean_up s' old ent e
        | ok _ ↦ some ((r.0, ent), ok ino)
      ]

  abbrev pub fill_entry : Sfs D → (old ent index : ℕ) → Option ((Sfs D × ℕ) × Ret)
  fill_entry s old ent index = sfs_block_alloc V s >>= λ r. elim (r.1) [
    | err e ↦ clean_up r.0 old ent e
    | ok ino ↦ store_entry r.0 old ent index ino
  ]

  -- The entry block is read, or allocated. The result has the entry block in front of the return
  -- value.
  unfoldable pub sfs_bmap_get_sub_nolock :
      Sfs D → (ent index : ℕ) → (create : Bool) → Option ((Sfs D × ℕ) × Ret)
  sfs_bmap_get_sub_nolock s ent index create =
      if not (ltb index sfs_blk_nentry)
      then none
      else if not (ent == 0)
      then (sfs_rbuf V s (λ _. 0) 0 4 ent (index * 4) >>= λ r. elim (r.1) [
        | err e ↦ some ((s, ent), err e)
        | ok _ ↦
            if not (word_at r.0 0 == 0) || not create
            then some ((s, ent), ok (word_at r.0 0))
            else fill_entry s ent ent index
      ])
      else if not create
      then some ((s, ent), ok 0)
      else (sfs_block_alloc V s >>= λ r. elim (r.1) [
        | err e ↦ some ((r.0, 0), err e)
        | ok new ↦ fill_entry r.0 0 new index
      ])

  -- `out` in `sfs_bmap_get_nolock`
  abbrev pub check_ino : Sfs D → Inode → (ino : ℕ) → Option ((Sfs D × Inode) × Ret)
  check_ino s sin ino =
      if ino == 0 then some ((s, sin), ok ino) else assert_inuse s ino (some ((s, sin), ok ino))

  abbrev pub get_direct :
      Sfs D → Inode → (index : ℕ) → (create : Bool) → Option ((Sfs D × Inode) × Ret)
  get_direct s sin index create =
      if (sin.din.direct index == 0) && create
      then (sfs_block_alloc V s >>= λ r. elim (r.1) [
        | err e ↦ some ((r.0, sin), err e)
        | ok ino ↦
            check_ino r.0 (with_din sin (λ d. record d { direct = put d.direct index ino })) ino
      ])
      else check_ino s sin (sin.din.direct index)

  abbrev pub set_indirect : Sfs D → Inode → (ent ino : ℕ) → Option ((Sfs D × Inode) × Ret)
  set_indirect s sin ent ino =
      if ent == sin.din.indirect
      then check_ino s sin ino
      else if sin.din.indirect == 0
      then check_ino s (with_din sin (λ d. record d { indirect = ent })) ino
      else none

  unfoldable pub sfs_bmap_get_nolock :
      Sfs D → Inode → (index : ℕ) → (create : Bool) → Option ((Sfs D × Inode) × Ret)
  sfs_bmap_get_nolock s sin index create =
      if ltb index sfs_ndirect
      then get_direct s sin index create
      else if ltb (index - sfs_ndirect) sfs_blk_nentry
      then (sfs_bmap_get_sub_nolock s sin.din.indirect (index - sfs_ndirect) create >>= λ r.
          elim (r.1) [
            | err e ↦ some ((r.0.0, sin), err e)
            | ok ino ↦ set_indirect r.0.0 sin r.0.1 ino
          ])
      else none

  abbrev pub loaded : (create : Bool) → Sfs D → Inode → (ino : ℕ) → Option ((Sfs D × Inode) × Ret)
  loaded create s sin ino = assert_inuse s ino (
      some (
        (
          s,
          if create
              then record sin { din = record (sin.din) { blocks = (sin.din.blocks + 1) % 2 ^ 32 } }
              else sin,
        ),
        ok ino,
      ))

  unfoldable pub sfs_bmap_load_nolock : Sfs D → Inode → (index : ℕ) → Option ((Sfs D × Inode) × Ret)
  sfs_bmap_load_nolock s sin index =
      let create = index == sin.din.blocks in
      if leb index sin.din.blocks
      then (sfs_bmap_get_nolock s sin index create >>= λ r. elim (r.1) [
        | err e ↦ some (r.0, err e)
        | ok ino ↦ loaded create r.0.0 r.0.1 ino
      ])
      else none

  -- The entry of a block becomes 0, and the block is freed.
  unfoldable pub sfs_bmap_free_sub_nolock : Sfs D → (ent index : ℕ) → Option (Sfs D × Ret)
  sfs_bmap_free_sub_nolock s ent index = assert_inuse s ent (
      if ltb index sfs_blk_nentry
      then (sfs_rbuf V s (λ _. 0) 0 4 ent (index * 4) >>= λ r. elim (r.1) [
        | err e ↦ some (s, err e)
        | ok _ ↦
            if word_at r.0 0 == 0
            then some (s, ok 0)
            else (sfs_wbuf V s (word_bytes 0) 0 4 ent (index * 4) >>= λ w. elim (w.1) [
              | err e ↦ some (w.0, err e)
              | ok _ ↦ sfs_block_free w.0 (word_at r.0 0) >>= λ s'. some (s', ok 0)
            ])
      ])
      else none)

  unfoldable pub sfs_bmap_free_nolock : Sfs D → Inode → (index : ℕ) → Option ((Sfs D × Inode) × Ret)
  sfs_bmap_free_nolock s sin index =
      if ltb index sfs_ndirect
      then (if sin.din.direct index == 0
          then some ((s, sin), ok 0)
          else (sfs_block_free s (sin.din.direct index) >>= λ s'.
              some ((s', with_din sin (λ d. record d { direct = put d.direct index 0 })), ok 0)))
      else if ltb (index - sfs_ndirect) sfs_blk_nentry && not (sin.din.indirect == 0)
      then (sfs_bmap_free_sub_nolock s sin.din.indirect (index - sfs_ndirect) >>= λ r.
          some ((r.0, sin), r.1))
      else some ((s, sin), ok 0)

  -- The last block of a file is freed.
  unfoldable pub sfs_bmap_truncate_nolock : Sfs D → Inode → Option ((Sfs D × Inode) × Ret)
  sfs_bmap_truncate_nolock s sin =
      if sin.din.blocks == 0
      then none
      else (sfs_bmap_free_nolock s sin (sin.din.blocks - 1) >>= λ r. elim (r.1) [
        | err e ↦ some (r.0, err e)
        | ok _ ↦ some ((r.0.0, with_din r.0.1 (λ d. record d { blocks = d.blocks - 1 })), ok 0)
      ])
