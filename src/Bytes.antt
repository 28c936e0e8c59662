-- ===== src/Bytes.antt =====
-- libs/string.c: the functions on memory, and the lengths and the order of strings. Memory maps addresses to
-- bytes, and an address does not wrap around. `none` is a loop that uses up its fuel.
pub mod Move
pub mod Length
mod Tests
use nk_os_team.Prelude.{
  ℕ, zero, suc, ◌+◌, ◌-◌, ◌%◌, ◌^◌, not, ◌&&◌, Option, none, some, ltb, ◌==◌, if◌then◌else◌, put,
  ◌>>=◌,
}

-- `while (n -- > 0) { *p ++ = c; }`
unfoldable pub memset : ℕ → (ℕ → ℕ) → (s c : ℕ) → ℕ → ℕ
memset zero m p c = m
memset (suc n) m p c = memset n (put m p (c % 2 ^ 8)) (p + 1) c

-- `while (n -- > 0) { *d ++ = *s ++; }`
unfoldable pub copy_up : ℕ → (ℕ → ℕ) → (d s : ℕ) → ℕ → ℕ
copy_up zero m d s = m
copy_up (suc n) m d s = copy_up n (put m d (m s)) (d + 1) (s + 1)

-- `while (n -- > 0) { *-- d = *-- s; }`
unfoldable pub copy_down : ℕ → (ℕ → ℕ) → (d s : ℕ) → ℕ → ℕ
copy_down zero m d s = m
copy_down (suc n) m d s = copy_down n (put m (d - 1) (m (s - 1))) (d - 1) (s - 1)

unfoldable pub memmove : (ℕ → ℕ) → (dst src n : ℕ) → ℕ → ℕ
memmove m dst src n =
    if ltb src dst && ltb dst (src + n)
    then copy_down n m (dst + n) (src + n)
    else copy_up n m dst src

unfoldable pub memcpy : (ℕ → ℕ) → (dst src n : ℕ) → ℕ → ℕ
memcpy m dst src n = copy_up n m dst src

unfoldable pub strlen : ℕ → (ℕ → ℕ) → (s : ℕ) → Option ℕ
strlen zero m s = none
strlen (suc fuel) m s =
    let rest = strlen fuel m (s + 1) in
    if m s == 0 then some 0 else (rest >>= λ cnt. some (cnt + 1))

-- The strings at `s₁` of one memory and `s₂` of another. The difference is a word of 32 bits.
unfoldable pub strcmp : ℕ → (ℕ → ℕ) → (s₁ : ℕ) → (ℕ → ℕ) → (s₂ : ℕ) → Option ℕ
strcmp zero m s₁ p s₂ = none
strcmp (suc fuel) m s₁ p s₂ =
    let rest = strcmp fuel m (s₁ + 1) p (s₂ + 1) in
    if not (m s₁ == 0) && (m s₁ == p s₂) then rest else some ((m s₁ + 2 ^ 32 - p s₂) % 2 ^ 32)

-- With `len` bytes left to look at.
unfoldable pub strnlen : (len : ℕ) → (ℕ → ℕ) → (s : ℕ) → ℕ
strnlen zero m s = 0
strnlen (suc len) m s = let rest = strnlen len m (s + 1) in if m s == 0 then 0 else rest + 1
