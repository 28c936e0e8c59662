-- ===== src/Bytes/Move.antt =====
-- `memmove`, `memcpy` and `memset`: what each byte of memory is afterwards.
use native.Mathlib.Decide.{ℕ_discrete}
use nk_os_team.Prelude.{
  ℕ, zero, suc, ◌+◌, ◌-◌, ◌%◌, ◌^◌, ◌≤◌, ◌<◌, ◌≡◌, sym, ◌∙◌, ◌⊎◌, inl, inr, false, ◌&&◌, arith, ltb,
  leb, if◌then◌else◌, put, Bool-cases,
}
use nk_os_team.Bytes.{memset, copy_up, copy_down, memmove, memcpy}

-- Memory with the `n` bytes from `s` on also at `d`.
abbrev pub copied : (ℕ → ℕ) → (d s n : ℕ) → ℕ → ℕ
copied m d s n j = if leb d j && ltb j (d + n) then m (s + (j - d)) else m j

copy_up-copied :
    (n : ℕ) (m : ℕ → ℕ) (d s j : ℕ) → (d ≤ s) ⊎ (s + n ≤ d) → copy_up n m d s j ≡ copied m d s n j
unfolding copy_up
copy_up-copied zero m d s j h = ground arith
copy_up-copied (suc n) m d s j h =
    let i =
      copy_up-copied n (put m d (m s)) (d + 1) (s + 1) j
        (elim h [ inl l ↦ inl (omega arith) | inr l ↦ inr (omega arith) ]) in
    i ∙ step
  where
    step : copied (put m d (m s)) (d + 1) (s + 1) n j ≡ copied m d s (suc n) j
    step = elim (ℕ_discrete j d) [
      | yes e ↦ rw e (ground arith)
      | no e ↦
          let a : d < j → s + 1 + (j - (d + 1)) ≡ s + (j - d) = λ l. omega arith in
          ground (arith, a)
    ]

copy_down-copied :
    (n : ℕ) (m : ℕ → ℕ) (d s j : ℕ) → s ≤ d → copy_down n m (d + n) (s + n) j ≡ copied m d s n j
unfolding copy_down
copy_down-copied zero m d s j h = ground arith
copy_down-copied (suc n) m d s j h =
    let a : d + suc n - 1 ≡ d + n = omega arith in
    let b : s + suc n - 1 ≡ s + n = omega arith in
    rw (a, b) (copy_down-copied n (put m (d + n) (m (s + n))) d s j h ∙ step)
  where
    step : copied (put m (d + n) (m (s + n))) d s n j ≡ copied m d s (suc n) j
    step = elim (ℕ_discrete j (d + n)) [
      | yes e ↦ let a : d + n - d ≡ n = omega arith in rw (e, a) (ground arith)
      | no e ↦ ground arith
    ]

apart : (dst src n : ℕ) → (ltb src dst && ltb dst (src + n)) ≡ false → (dst ≤ src) ⊎ (src + n ≤ dst)
apart dst src n e = elim (Bool-cases (ltb src dst)) [
  | inl l ↦ inr (ground (arith, l))
  | inr l ↦ inl (ground arith)
]

-- `memmove` copies the bytes as they were before, whether or not the two ranges overlap, and no
-- byte outside the target changes.
pub memmove_lem :
    (m : ℕ → ℕ) (dst src n j : ℕ)
    → memmove m dst src n j ≡ (if leb dst j && ltb j (dst + n) then m (src + (j - dst)) else m j)
unfolding memmove
memmove_lem m dst src n j = elim (Bool-cases (ltb src dst && ltb dst (src + n))) [
  | inl e ↦ rw e (copy_down-copied n m dst src j (ground arith))
  | inr e ↦ rw e (copy_up-copied n m dst src j (apart dst src n e))
]

-- Where the target does not begin inside the source, `memcpy` does what `memmove` does.
memcpy-memmove :
    (m : ℕ → ℕ) (dst src n j : ℕ)
    → (dst ≤ src) ⊎ (src + n ≤ dst)
    → memcpy m dst src n j ≡ memmove m dst src n j
unfolding memcpy
memcpy-memmove m dst src n j h = copy_up-copied n m dst src j h ∙ sym (memmove_lem m dst src n j)

-- `memset` writes the byte to the `n` addresses from `s` on, and to no other.
memset_lem :
    (n : ℕ) (m : ℕ → ℕ) (s c j : ℕ)
    → memset n m s c j ≡ (if leb s j && ltb j (s + n) then c % 2 ^ 8 else m j)
unfolding memset
memset_lem zero m s c j = ground arith
memset_lem (suc n) m s c j = memset_lem n (put m s (c % 2 ^ 8)) (s + 1) c j ∙ ground arith
