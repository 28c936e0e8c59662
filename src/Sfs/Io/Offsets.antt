-- ===== src/Sfs/Io/Offsets.antt =====
-- Where each part of `sfs_io_nolock` ends.
use native.Mathlib.Decide.{ℕ_discrete}
use nk_os_team.Prelude.{
  ℕ, ◌+◌, ◌-◌, ◌*◌, ◌/◌, ◌%◌, ◌≤◌, ◌<◌, ◌≡◌, ◌≢◌, ◌⊎◌, inl, inr, arith, ltb, ◌==◌, if◌then◌else◌,
  ==_of_ne,
}
use nk_os_team.Sfs.{sfs_blksize}

-- Where `offset` is after the whole blocks: at the start of the last block, unless the first part has
-- gone beyond it.
abbrev pub last_offset : (offset endpos : ℕ) → ℕ
last_offset offset endpos =
    let start = endpos / sfs_blksize * sfs_blksize in if ltb start offset then endpos else start

pub last_next :
    (o k e : ℕ)
    → o ≡ k * sfs_blksize
    → o + sfs_blksize ≤ e
    → last_offset (o + sfs_blksize) e ≡ last_offset o e
last_next o k e h l = ground arith

pub last_self :
    (o k e : ℕ)
    → o ≤ e
    → e < o + sfs_blksize
    → (o ≡ e) ⊎ (o ≡ k * sfs_blksize)
    → last_offset o e ≡ o
last_self o k e h l (inl d) = ground arith
last_self o k e h l (inr d) = ground arith

-- What the first part moves on by.
abbrev pub head_size : (blkno offset endpos : ℕ) → ℕ
head_size blkno offset endpos =
    if (endpos / sfs_blksize - blkno) == 0
    then endpos - offset
    else sfs_blksize - offset % sfs_blksize

pub head_fits :
    (k o e : ℕ)
    → k ≡ o / sfs_blksize
    → o < e
    → (o % sfs_blksize + head_size k o e ≤ sfs_blksize)
      × (o + head_size k o e ≤ e)
      × ((o + head_size k o e ≡ e) ⊎ (o + head_size k o e ≡ (k + 1) * sfs_blksize))
head_fits k o e q h = elim (ℕ_discrete (e / sfs_blksize - k) 0) [
  | yes d ↦ rw d (omega arith, omega arith, inl (omega arith))
  | no d ↦ rw (==_of_ne (e / sfs_blksize - k) 0 d) (omega arith, omega arith, inr (omega arith))
]

pub last_head :
    (k o e : ℕ)
    → k ≡ o / sfs_blksize
    → o < e
    → o % sfs_blksize ≢ 0
    → last_offset (o + head_size k o e) e ≡ last_offset o e
last_head k o e q h d = ground arith
