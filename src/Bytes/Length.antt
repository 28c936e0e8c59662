-- ===== src/Bytes/Length.antt =====
-- `strlen` and `strnlen`: the place of the first byte that is 0.
use nk_os_team.Prelude.{
  ℕ, zero, suc, ◌+◌, ◌<◌, ◌≡◌, refl, ap, ◌≢◌, some, arith, leb, if◌then◌else◌, ==_of_ne,
}
use nk_os_team.Bytes.{strlen, strnlen}

-- The string at `s` has length `k`.
abbrev pub HasLength : (ℕ → ℕ) → (s k : ℕ) → Type 0
HasLength m s zero = m s ≡ 0
HasLength m s (suc k) = (m s ≢ 0) × HasLength m (s + 1) k

-- `strlen` gives the length of a string, with fuel for one round more than that, and `strnlen` gives
-- it too, or the bound if that is less.
strlen-strnlen :
    (fuel len : ℕ) (m : ℕ → ℕ) (s k : ℕ)
    → HasLength m s k
    → k < fuel
    → (strlen fuel m s ≡ some k) × (strnlen len m s ≡ (if leb len k then len else k))
unfolding strlen strnlen
strlen-strnlen fuel len m s k h l = (by_fuel fuel s k h l, by_len len s k h)
  where
    by_fuel : (fuel s k : ℕ) → HasLength m s k → k < fuel → strlen fuel m s ≡ some k
    by_fuel zero s k h l = absurd (omega arith)
    by_fuel (suc fuel) s zero h l = rw h refl
    by_fuel (suc fuel) s (suc k) h l =
        let e : k + 1 ≡ suc k = omega arith in
        rw (==_of_ne (m s) 0 h.0, by_fuel fuel (s + 1) k h.1 (omega arith)) (ap some e)

    by_len : (len s k : ℕ) → HasLength m s k → strnlen len m s ≡ (if leb len k then len else k)
    by_len zero s k h = ground arith
    by_len (suc len) s zero h = rw h (ground arith)
    by_len (suc len) s (suc k) h =
        rw (==_of_ne (m s) 0 h.0, by_len len (s + 1) k h.1) (ground arith)
