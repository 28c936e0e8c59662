-- ===== src/Sfs/Io/Pieces.antt =====
-- One transfer within a block of the file, and how transfers add up.
use mathlib.Core.Path.{subst, fun_ext, ap₂}
use nk_os_team.Prelude.{
  ℕ, ◌+◌, ◌*◌, ◌/◌, ◌%◌, ◌≤◌, ◌<◌, ◌≡◌, refl, sym, ap, ◌∙◌, Bool, true, false, Option, some, arith,
}
use nk_os_team.File.{Ret, ok}
use nk_os_team.Sfs.{Sfs, Device, sfs_blksize, copy_in}
use nk_os_team.Sfs.Copy.{copy_in_same, copy_in_append, copy_in_none}
use nk_os_team.Sfs.Disk.{
  bytes, stored, IsWorking, sfs_rbuf_lem, sfs_wbuf_lem, sfs_rblock_lem, sfs_wblock_lem,
}
use nk_os_team.Sfs.Files.{IsFile, block_no, content, sfs_bmap_load_nolock_lem}
use nk_os_team.Sfs.Written.{Written, stored-Written, Written-append, Written-IsFile}
use nk_os_team.Sfs.Io.{Io, sfs_buf_op, sfs_block_op, with_block}

module _ {D : Type 0} (V : Device D) where
  -- `n` bytes have been read, to the memory, or written, to the disk.
  abbrev pub Effect : (write : Bool) → Io D → (n : ℕ) → Sfs D → (ℕ → ℕ) → Type 0
  Effect false a n t m =
      (t ≡ a.sfs) × (m ≡ copy_in a.memory a.buf (λ j. content V a.sfs a.sin (a.offset + j)) n)
  Effect true a n t m =
      (m ≡ a.memory) × Written V a.sfs a.sin a.offset (λ j. a.memory (a.buf + j)) n t

  -- The locals have moved on by `n` bytes.
  pub record Moved (write : Bool) (a : Io D) (n : ℕ) (b : Io D) : Type 0 where
    pub sin_same : b.sin ≡ a.sin
    pub buf_on : b.buf ≡ a.buf + n
    pub offset_on : b.offset ≡ a.offset + n
    pub alen_on : b.alen ≡ a.alen + n
    pub effect : Effect write a n b.sfs b.memory

  add_none : (n : ℕ) → n + 0 ≡ n
  add_none n = omega arith

  whole : (p g : ℕ → ℕ) (j : ℕ) → j < sfs_blksize → g j ≡ copy_in p 0 g sfs_blksize j
  whole p g j h = ground arith

  module _ (w : IsWorking V) (s : Io D) (f : IsFile V s.sfs s.sin)
      (h : s.blkno < s.sin.din.blocks) where
    pub with_block_lem :
        (op : Io D → ℕ → Option (Io D × Ret))
        → with_block V s op ≡ op s (block_no V s.sfs s.sin s.blkno)
    unfolding with_block
    with_block_lem op = rw (with_block, sfs_bmap_load_nolock_lem V w s.sfs s.sin s.blkno f h) refl

    module _ (o len : ℕ) (e : s.offset ≡ s.blkno * sfs_blksize + o) (l : o < sfs_blksize)
        (k : o + len ≤ sfs_blksize) where
      abbrev ino : ℕ
      ino = block_no V s.sfs s.sin s.blkno

      content_at :
          (j : ℕ) → j < len → content V s.sfs s.sin (s.offset + j) ≡ bytes V s.sfs ino (o + j)
      content_at j p =
          let q : (s.offset + j) / sfs_blksize ≡ s.blkno = omega arith in
          let r : (s.offset + j) % sfs_blksize ≡ o + j = omega arith in rw (q, r) refl

      pub sfs_buf_op_lem :
          (write : Bool)
          → (t : Sfs D) × (m : ℕ → ℕ) × (sfs_buf_op V write s len ino o
              ≡ some (record s { sfs = t; memory = m }, ok 0))
            × Effect write s len t m
      unfolding sfs_buf_op
      sfs_buf_op_lem false = (
        s.sfs,
        copy_in s.memory s.buf (λ j. bytes V s.sfs ino (o + j)) len,
        rw
            (
              sfs_buf_op,
              sfs_rbuf_lem V w s.sfs s.memory s.buf len ino o (f.used s.blkno h).block l k,
            )
            refl,
        (
          refl,
          copy_in_same s.memory s.buf (λ j. bytes V s.sfs ino (o + j))
              (λ j. content V s.sfs s.sin (s.offset + j)) len (λ j p. sym (content_at j p)),
        ),
      )
      sfs_buf_op_lem true =
          let g = copy_in (bytes V s.sfs ino) o (λ j. s.memory (s.buf + j)) len in
          (
            stored V s.sfs ino g,
            s.memory,
            rw
                (
                  sfs_buf_op,
                  sfs_wbuf_lem V w s.sfs s.memory s.buf len ino o (f.used s.blkno h).block l k,
                )
                refl,
            (
              refl,
              subst
                  (λ x.
                    Written V s.sfs s.sin x (λ j. s.memory (s.buf + j)) len (stored V s.sfs ino g))
                  (sym e)
                  (stored-Written V w s.sfs s.sin s.blkno o len (λ j. s.memory (s.buf + j)) g f h k
                    (λ j p. refl)),
            ),
          )

    pub sfs_block_op_lem :
        (write : Bool)
        → s.offset ≡ s.blkno * sfs_blksize
        → (t : Sfs D) × (m : ℕ → ℕ) × (sfs_block_op V write s (block_no V s.sfs s.sin s.blkno) 1
            ≡ some (record s { sfs = t; memory = m }, ok 0))
          × Effect write s sfs_blksize t m
    unfolding sfs_block_op
    sfs_block_op_lem false e =
        let b = block_no V s.sfs s.sin s.blkno in
        (
          s.sfs,
          copy_in s.memory s.buf (bytes V s.sfs b) sfs_blksize,
          rw (sfs_block_op, sfs_rblock_lem V w s.sfs s.memory s.buf b (f.used s.blkno h).block)
              refl,
          (
            refl,
            copy_in_same s.memory s.buf (bytes V s.sfs b)
                (λ j. content V s.sfs s.sin (s.offset + j)) sfs_blksize
                (λ j p. sym (
                  content_at 0 sfs_blksize (e ∙ omega arith) (omega arith) (omega arith) j p
                  ∙ ap (bytes V s.sfs b) (omega arith))),
          ),
        )
    sfs_block_op_lem true e =
        let b = block_no V s.sfs s.sin s.blkno in
        (
          stored V s.sfs b (λ j. s.memory (s.buf + j)),
          s.memory,
          rw (sfs_block_op, sfs_wblock_lem V w s.sfs s.memory s.buf b (f.used s.blkno h).block)
              refl,
          (
            refl,
            subst
                (λ x.
                  Written V s.sfs s.sin x (λ j. s.memory (s.buf + j)) sfs_blksize
                    (stored V s.sfs b (λ j. s.memory (s.buf + j))))
                (add_none (s.blkno * sfs_blksize) ∙ sym e)
                (stored-Written V w s.sfs s.sin s.blkno 0 sfs_blksize (λ j. s.memory (s.buf + j))
                  (λ j. s.memory (s.buf + j)) f h (omega arith)
                  (λ j p. whole (bytes V s.sfs b) (λ k. s.memory (s.buf + k)) j p)),
          ),
        )

  pub Effect-IsFile :
      (write : Bool) (a : Io D) (n : ℕ) (t : Sfs D) (m : ℕ → ℕ)
      → IsFile V a.sfs a.sin
      → Effect write a n t m
      → IsFile V t a.sin
  Effect-IsFile false a n t m f e = subst (λ x. IsFile V x a.sin) (sym e.0) f
  Effect-IsFile true a n t m f e =
      Written-IsFile V a.sfs t a.sin a.offset n (λ j. a.memory (a.buf + j)) f e.1

  ap₃ :
      {A B C E : Type 0} (f : A → B → C → E) {a b : A} {c d : B} {x y : C}
      → a ≡ b
      → c ≡ d
      → x ≡ y
      → f a c x ≡ f b d y
  ap₃ f p q r = ap₂ (λ g u. g u) (ap₂ f p q) r

  pub Effect-append :
      (write : Bool) (a b : Io D) (n k : ℕ) (t : Sfs D) (m : ℕ → ℕ)
      → IsFile V a.sfs a.sin
      → Moved write a n b
      → Effect write b k t m
      → Effect write a (n + k) t m
  Effect-append false a b n k t m f v e =
      let g : ℕ → ℕ = λ j. content V a.sfs a.sin (a.offset + j) in
      (
        e.0 ∙ v.effect.0,
        e.1
            ∙ copy_in_same b.memory b.buf (λ j. content V b.sfs b.sin (b.offset + j))
                (λ j. g (n + j)) k
                (λ j h.
                  ap₃ (content V) v.effect.0 v.sin_same (ap (λ x. x + j) v.offset_on ∙ omega arith))
            ∙ ap₂ (λ p x. copy_in p x (λ j. g (n + j)) k) v.effect.1 v.buf_on
            ∙ fun_ext (copy_in_append a.memory a.buf g n k),
      )
  Effect-append true a b n k t m f v e =
      let from : (λ (j : ℕ). b.memory (b.buf + j)) ≡ (λ (j : ℕ). a.memory (a.buf + (n + j))) =
        fun_ext (λ j. ap₂ (λ p x. p x) v.effect.0 (ap (λ x. x + j) v.buf_on ∙ omega arith)) in
      let rest =
        subst (λ x. Written V b.sfs x (a.offset + n) (λ j. a.memory (a.buf + (n + j))) k t)
          v.sin_same
          (subst (λ x. Written V b.sfs b.sin x (λ j. a.memory (a.buf + (n + j))) k t) v.offset_on
            (subst (λ g. Written V b.sfs b.sin b.offset g k t) from e.1)) in
      (
        e.0 ∙ v.effect.0,
        Written-append V a.sfs b.sfs t a.sin a.offset n k (λ j. a.memory (a.buf + j)) f v.effect.1
            rest,
      )

  pub Moved-append :
      (write : Bool) (a b c : Io D) (n k : ℕ)
      → IsFile V a.sfs a.sin
      → Moved write a n b
      → Moved write b k c
      → Moved write a (n + k) c
  Moved-append write a b c n k f v u = record {
    sin_same = u.sin_same ∙ v.sin_same;
    buf_on = u.buf_on ∙ ap (λ x. x + k) v.buf_on ∙ omega arith;
    offset_on = u.offset_on ∙ ap (λ x. x + k) v.offset_on ∙ omega arith;
    alen_on = u.alen_on ∙ ap (λ x. x + k) v.alen_on ∙ omega arith;
    effect = Effect-append write a b n k c.sfs c.memory f v u.effect;
  }

  pub Effect-none : (write : Bool) (a : Io D) → Effect write a 0 a.sfs a.memory
  Effect-none false a = (
    refl,
    fun_ext (λ x. sym (copy_in_none a.memory a.buf (λ j. content V a.sfs a.sin (a.offset + j)) x)),
  )
  Effect-none true a = (
    refl,
    record {
      numbers = refl;
      file = λ pos h.
          sym (copy_in_none (content V a.sfs a.sin) a.offset (λ j. a.memory (a.buf + j)) pos);
      others = λ b h d j l. refl;
    },
  )

  pub Moved-none : (write : Bool) (a : Io D) → Moved write a 0 a
  Moved-none write a = record {
    sin_same = refl;
    buf_on = omega arith;
    offset_on = omega arith;
    alen_on = omega arith;
    effect = Effect-none write a;
  }
