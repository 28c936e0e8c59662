-- ===== src/Sfs/Tests.antt =====
-- A disk of 32 blocks with a file of two, and the theorems at it.
use nk_os_team.Prelude.{
  ℕ, zero, suc, ◌+◌, ◌*◌, ◌%◌, ◌<◌, ◌≡◌, refl, true, false, some, arith, ◌==◌, if◌then◌else◌, ◌-◌,
}
use nk_os_team.Bitmap.{bit}
use nk_os_team.Sfs.{Sfs, Device, Inode}
use nk_os_team.Sfs.Disk.{IsWorking}
use nk_os_team.Sfs.Files.{IsUsed, IsFile}
use nk_os_team.Sfs.Alloc.{IsSound, BlockAlloc, given_at, sfs_block_alloc_lem, sfs_block_free_lem}
use nk_os_team.Sfs.Blocks.{sfs_block_free}
use nk_os_team.Sfs.Grow.{IsShort, IsEnded, short-IsFile}
use nk_os_team.Sfs.Resize.{IsFitted, IsResized, truncfile_resizes}
use nk_os_team.Sfs.Io.{Io, io_min, sfs_io_nolock, sfs_truncfile}
use nk_os_team.Sfs.Io.Transfer.{IsResult}
use nk_os_team.Sfs.Io.RoundTrip.{write_then_read}
use nk_os_team.File.{Iobuf, iobuf_init, ok}
use nk_os_team.Buffers.{skipped}
use nk_os_team.Sfs.Calls.{called, sfs_read, sfs_write, sfs_read_lem, sfs_write_lem}
use nk_os_team.Sfs.Dirs.Find.{FindIno, sfs_dirent_findino_nolock_lem}
use nk_os_team.Sfs.Io.Sizes.{read_doubles_size}

abbrev ram : Device (ℕ → ℕ → ℕ)
ram = record {
  dop_read = λ d o. (d o, 0);
  dop_write = λ d o f. (λ p j. if p == o then f j else d p j, 0);
}

ram-IsWorking : IsWorking ram
ram-IsWorking = record {
  read_ok = λ d o. refl;
  write_ok = λ d o f. refl;
  read_back = λ d o p f j h. refl;
}

-- Blocks 7 and 8 are free.
abbrev volume : Sfs (ℕ → ℕ → ℕ)
volume = record {
  blocks = 32;
  unused_blocks = 2;
  super_dirty = false;
  freemap = record { nbits = 32; nwords = 1; map = λ j. if j == 0 then 384 else 0 };
  dev = λ o j. (o + j) % 256;
}

volume-IsSound : IsSound volume
unfolding bit
volume-IsSound = record {
  bitmap = record {
    words = λ j. ground arith;
    enough = refl;
    ended = λ i h l. absurd (omega arith);
  };
  mapped = refl;
  counted = refl;
  super = refl;
  disk = omega arith;
}

abbrev two_blocks : (size : ℕ) → Inode
two_blocks size = record {
  din = record {
    size = size;
    type = 1;
    nlinks = 1;
    blocks = 2;
    direct = λ i. if i == 0 then 5 else if i == 1 then 6 else 0;
    indirect = 0;
  };
  ino = 3;
  dirty = false;
}

two_blocks-IsUsed : (size i : ℕ) → i < 2 → IsUsed volume ((two_blocks size).din.direct i)
unfolding bit
two_blocks-IsUsed size zero h = record {
  block = record { positive = omega arith; small = omega arith };
  mapped = omega arith;
  taken = refl;
}
two_blocks-IsUsed size (suc zero) h = record {
  block = record { positive = omega arith; small = omega arith };
  mapped = omega arith;
  taken = refl;
}
two_blocks-IsUsed size (suc (suc i)) h = absurd (omega arith)

two_blocks-IsShort : (size : ℕ) → IsShort volume (two_blocks size)
two_blocks-IsShort size = record {
  short = omega arith;
  used = two_blocks-IsUsed size;
  distinct = λ i j h l e. ground (arith, e);
}

two_blocks-IsEnded : (size : ℕ) → IsEnded (two_blocks size)
two_blocks-IsEnded size i h l = ground arith

two_blocks-IsFile : (size : ℕ) → IsFile ram volume (two_blocks size)
two_blocks-IsFile size =
    short-IsFile ram volume (two_blocks size) volume-IsSound (two_blocks-IsShort size)

-- A call at an offset of a file, with the memory 0, 1, 2, ... and its buffer at 100.
abbrev call : (size offset : ℕ) → Io (ℕ → ℕ → ℕ)
call size offset = record {
  sfs = volume;
  sin = two_blocks size;
  memory = λ a. a;
  buf = 100;
  offset = offset;
  blkno = 0;
  alen = 0;
}

abbrev buffer : (resid offset : ℕ) → Iobuf
buffer resid offset = iobuf_init 100 resid offset

sfs_read_lem_example :
    (r : Io (ℕ → ℕ → ℕ)) × (sfs_read ram 3 volume (two_blocks 8000) (λ a. a) (buffer 9000 10)
      ≡ some ((r, skipped (buffer 9000 10) (io_min 9010 8000 - 10)), ok 0))
    × IsResult ram false
        (called volume (two_blocks 8000) (λ a. a) (buffer 9000 10))
        (io_min 9010 8000)
        r
sfs_read_lem_example =
    sfs_read_lem ram ram-IsWorking 3 volume (two_blocks 8000) (two_blocks-IsFile 8000) refl (λ a. a)
      (buffer 9000 10) (omega arith) (omega arith) (omega arith) (omega arith) (omega arith)

sfs_write_lem_example :
    (r : Io (ℕ → ℕ → ℕ)) × (sfs_write ram 3 volume (two_blocks 8000) (λ a. a) (buffer 4100 4000)
      ≡ some ((r, skipped (buffer 4100 4000) 4100), ok 0))
    × IsResult ram true (called volume (two_blocks 8000) (λ a. a) (buffer 4100 4000)) 8100 r
sfs_write_lem_example =
    sfs_write_lem ram ram-IsWorking 3 volume (two_blocks 8000) (two_blocks-IsFile 8000) refl
      (λ a. a) (buffer 4100 4000) (omega arith) (omega arith) (omega arith)

write_then_read_example :
    (r : Io (ℕ → ℕ → ℕ)) × (sfs_io_nolock ram 3 true (call 8000 4000) 4100 ≡ some (r, ok 0))
    × (q : Io (ℕ → ℕ → ℕ)) × (sfs_io_nolock ram 3 false
          (record r { memory = λ a. 0; buf = 200; offset = 4000 })
          4100
        ≡ some (q, ok 0))
    × (q.alen ≡ 4100)
    × ((j : ℕ) → j < 4100 → q.memory (200 + j) ≡ 100 + j)
write_then_read_example =
    write_then_read ram ram-IsWorking 3 (call 8000 4000) (two_blocks-IsFile 8000) refl 4100
      (omega arith) (omega arith) (omega arith) (λ a. 0) 200

read_doubles_size_example :
    (r : Io (ℕ → ℕ → ℕ)) × (sfs_io_nolock ram 3 false (call 8192 0) 8192 ≡ some (r, ok 0))
    × (r.sin.din.size ≡ 2 * 8192)
read_doubles_size_example =
    read_doubles_size ram ram-IsWorking 3 (call 8192 0) (two_blocks-IsFile 8192) refl refl
      (omega arith) refl (omega arith)

sfs_block_alloc_lem_example : BlockAlloc ram volume
sfs_block_alloc_lem_example = sfs_block_alloc_lem ram ram-IsWorking volume volume-IsSound

sfs_block_free_lem_example :
    (sfs_block_free volume 5 ≡ some (given_at volume 5)) × IsSound (given_at volume 5)
sfs_block_free_lem_example =
    sfs_block_free_lem volume 5 volume-IsSound (two_blocks-IsUsed 8000 0 (omega arith))

two_blocks-IsFitted : IsFitted volume (two_blocks 8000)
two_blocks-IsFitted = record {
  sound = volume-IsSound;
  short = two_blocks-IsShort 8000;
  ended = two_blocks-IsEnded 8000;
  fitted = refl;
}

truncfile_resizes_example :
    (t : Sfs (ℕ → ℕ → ℕ)) × (u : Inode) × (sfs_truncfile ram volume (two_blocks 8000) 12000
      ≡ some ((t, u), ok 0))
    × IsResized ram volume (two_blocks 8000) 12000 t u
truncfile_resizes_example =
    truncfile_resizes ram ram-IsWorking volume (two_blocks 8000) two_blocks-IsFitted 12000
      (omega arith) (omega arith)

-- The same blocks as those of a directory.
abbrev two_entries : Inode
two_entries = record (two_blocks 8192) { din = record ((two_blocks 8192).din) { type = 2 } }

two_entries-IsFile : IsFile ram volume two_entries
two_entries-IsFile = short-IsFile ram volume two_entries volume-IsSound (record {
  short = omega arith;
  used = two_blocks-IsUsed 8192;
  distinct = λ i j h l e. ground (arith, e);
})

sfs_dirent_findino_nolock_lem_example : FindIno ram volume two_entries 7 (λ a. 0)
sfs_dirent_findino_nolock_lem_example =
    sfs_dirent_findino_nolock_lem ram ram-IsWorking volume two_entries two_entries-IsFile refl 7
      (λ a. 0)
