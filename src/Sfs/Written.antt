-- ===== src/Sfs/Written.antt =====
-- Bytes written over the blocks of a file.
use native.Mathlib.Decide.{ℕ_discrete}
use mathlib.Core.Path.{subst}
use nk_os_team.Prelude.{
  ℕ, ◌+◌, ◌-◌, ◌*◌, ◌/◌, ◌%◌, ◌^◌, ◌≤◌, ◌<◌, ◌≡◌, refl, sym, ap, ◌∙◌, ◌≢◌, inl, inr, Bool, true,
  false, arith, ltb, if◌then◌else◌, ==_iff, ==_of_ne, Bool-cases,
}
use nk_os_team.Sfs.{Sfs, Device, Inode, sfs_blksize, copy_in}
use nk_os_team.Sfs.Bmap.{sfs_ndirect}
use nk_os_team.Sfs.Copy.{copy_in_append}
use nk_os_team.Sfs.Disk.{bytes, stored, IsWorking, bytes-stored}
use nk_os_team.Sfs.Files.{IsUsed, IsUsed-dev, IsFile, block_no, content}

module _ {D : Type 0} (V : Device D) where
  -- The blocks of the disk that are not the file's hold what they held.
  abbrev pub OthersKept : Sfs D → Inode → Sfs D → Type 0
  OthersKept s sin t =
      (b : ℕ)
      → b < s.blocks
      → ((i : ℕ) → i < sin.din.blocks → b ≢ block_no V s sin i)
      → (j : ℕ) → j < sfs_blksize
      → bytes V t b j ≡ bytes V s b j

  -- `n` bytes of `f` have replaced those at `offset` of the file, and nothing else has changed.
  pub record Written (s : Sfs D) (sin : Inode) (offset : ℕ) (f : ℕ → ℕ) (n : ℕ) (t : Sfs D)
      : Type 0 where
    pub numbers : t ≡ record s { dev = t.dev }
    pub file :
        (pos : ℕ)
        → pos < sin.din.blocks * sfs_blksize
        → content V t sin pos ≡ copy_in (content V s sin) offset f n pos
    pub others : OthersKept s sin t

  -- The blocks of the file are where they were, if no block but the file's has changed.
  module _ (s : Sfs D) (sin : Inode) (f : IsFile V s sin) (t : Sfs D)
      (kept : OthersKept s sin t) where
    entry_kept :
        sfs_ndirect < sin.din.blocks
        → (j : ℕ) → j < sfs_blksize
        → bytes V t sin.din.indirect j ≡ bytes V s sin.din.indirect j
    entry_kept l = kept sin.din.indirect (f.listed l).block.small (λ i h e. f.apart i l h (sym e))

    pub block_no_kept : (i : ℕ) → i < sin.din.blocks → block_no V t sin i ≡ block_no V s sin i
    block_no_kept i h = elim (Bool-cases (ltb i sfs_ndirect)) [
      | inl e ↦ rw e refl
      | inr e ↦
          let l : sfs_ndirect < sin.din.blocks = ground arith in
          let o = (i - sfs_ndirect) * 4 in
          let b : o + 3 < sfs_blksize = omega (arith, f.count) in
          rw
            (
              e,
              entry_kept l o (omega arith),
              entry_kept l (o + 1) (omega arith),
              entry_kept l (o + 2) (omega arith),
              entry_kept l (o + 3) (omega arith),
            )
            refl
    ]

  pub Written-IsFile :
      (s t : Sfs D) (sin : Inode) (o n : ℕ) (g : ℕ → ℕ)
      → IsFile V s sin
      → Written s sin o g n t
      → IsFile V t sin
  Written-IsFile s t sin o n g f w =
      let k = block_no_kept s sin f t w.others in
      let u : (b : ℕ) → IsUsed s b → IsUsed t b =
        λ b v. subst (λ x. IsUsed x b) (sym w.numbers) (IsUsed-dev s t.dev b v) in
      record {
        disk = subst (λ x. x ≤ 2 ^ 20) (ap (λ x. x.blocks) (sym w.numbers)) f.disk;
        count = f.count;
        used = λ i h. subst (IsUsed t) (sym (k i h)) (u (block_no V s sin i) (f.used i h));
        listed = λ l. u sin.din.indirect (f.listed l);
        distinct = λ i j h l e. f.distinct i j h l (sym (k i h) ∙ e ∙ k j l);
        apart = λ i l h e. f.apart i l h (sym (k i h) ∙ e);
      }

  copy_in_over :
      (m p : ℕ → ℕ) (b : ℕ) (g : ℕ → ℕ) (n a : ℕ)
      → m a ≡ p a
      → copy_in m b g n a ≡ copy_in p b g n a
  copy_in_over m p b g n a e = ground arith

  pub Written-append :
      (s t u : Sfs D) (sin : Inode) (o n k : ℕ) (g : ℕ → ℕ)
      → IsFile V s sin
      → Written s sin o g n t
      → Written t sin (o + n) (λ j. g (n + j)) k u
      → Written s sin o g (n + k) u
  Written-append s t u sin o n k g f w v =
      let blocks : t.blocks ≡ s.blocks = ap (λ x. x.blocks) w.numbers in
      record {
        numbers = v.numbers ∙ ap {A = Sfs D} {B = Sfs D} (λ x. record x { dev = u.dev }) w.numbers;
        file = λ pos h.
            v.file pos h
            ∙ copy_in_over (content V t sin) (copy_in (content V s sin) o g n) (o + n)
                (λ j. g (n + j)) k pos (w.file pos h)
            ∙ copy_in_append (content V s sin) o g n k pos;
        others = λ b h d j l.
            v.others b (subst (λ x. b < x) (sym blocks) h)
              (λ i q e. d i q (e ∙ block_no_kept s sin f t w.others i q)) j l
            ∙ w.others b h d j l;
      }

  if_true : {x : ℕ} (y : ℕ) {b : Bool} → b ≡ true → (if b then x else y) ≡ x
  if_true y e = rw e refl

  if_false : (x : ℕ) {y : ℕ} {b : Bool} → b ≡ false → (if b then x else y) ≡ y
  if_false x e = rw e refl

  inside :
      (m c g : ℕ → ℕ) (i o len pos : ℕ)
      → pos / sfs_blksize ≡ i
      → m pos ≡ c (pos % sfs_blksize)
      → o + len ≤ sfs_blksize
      → copy_in c o g len (pos % sfs_blksize) ≡ copy_in m (i * sfs_blksize + o) g len pos
  inside m c g i o len pos e d h = ground arith

  outside :
      (m g : ℕ → ℕ) (i o len pos : ℕ)
      → pos / sfs_blksize ≢ i
      → o + len ≤ sfs_blksize
      → copy_in m (i * sfs_blksize + o) g len pos ≡ m pos
  outside m g i o len pos d h = ground arith

  module _ (w : IsWorking V) where
    -- One block of the file is written whole, with new bytes in it from `o` on.
    pub stored-Written :
        (s : Sfs D) (sin : Inode) (i o len : ℕ) (g h : ℕ → ℕ)
        → IsFile V s sin
        → i < sin.din.blocks
        → o + len ≤ sfs_blksize
        → ((j : ℕ) → j < sfs_blksize → h j ≡ copy_in (bytes V s (block_no V s sin i)) o g len j)
        → Written s sin (i * sfs_blksize + o) g len (stored V s (block_no V s sin i) h)
    stored-Written s sin i o len g h f l k same =
        let b = block_no V s sin i in
        let t = stored V s b h in
        let others : OthersKept s sin t = λ c q d j p.
          bytes-stored V w s b c h j f.disk (f.used i l).block.small q p
          ∙ rw (==_of_ne c b (d i l)) refl in
        record {
          numbers = refl;
          file = λ pos p.
              let q : pos / sfs_blksize < sin.din.blocks = omega arith in
              let c = block_no V s sin (pos / sfs_blksize) in
              ap (λ x. bytes V t x (pos % sfs_blksize))
                (block_no_kept s sin f t others (pos / sfs_blksize) q)
              ∙ bytes-stored V w s b c h (pos % sfs_blksize) f.disk (f.used i l).block.small
                  (f.used (pos / sfs_blksize) q).block.small (omega arith)
              ∙ elim (ℕ_discrete (pos / sfs_blksize) i) [
                | yes e ↦
                    if_true _ ((==_iff c b).1 (ap (block_no V s sin) e))
                    ∙ same (pos % sfs_blksize) (omega arith)
                    ∙ inside (content V s sin) (bytes V s b) g i o len pos e
                        (ap (λ x. bytes V s (block_no V s sin x) (pos % sfs_blksize)) e) k
                | no d ↦
                    if_false _ (==_of_ne c b (λ e. d (f.distinct (pos / sfs_blksize) i q l e)))
                    ∙ sym (outside (content V s sin) g i o len pos d k)
              ];
          others = others;
        }
