-- ===== src/Process/Pids/Free.antt =====
-- A pid is free while there are fewer processes than pids.
use nk_os_team.Prelude.{
  ℕ, zero, suc, ◌≤◌, ◌<◌, ◌≡◌, refl, ◌∙◌, ◌≢◌, inl, inr, Bool, true, false, List, [], ◌∷◌, arith,
  ◌==◌, if◌then◌else◌, ==_iff, Bool-cases, length, without, Fresh,
}

length-without_le : (x : ℕ) (ys : List ℕ) → length (without x ys) ≤ length ys
length-without_le x [] = omega arith
length-without_le x (y ∷ ys) =
    let l = length-without_le x ys in
    elim (Bool-cases (y == x)) [ inl e ↦ rw e (omega (arith, l)) | inr e ↦ rw e (omega (arith, l)) ]

data Standing (x : ℕ) (ys : List ℕ) : Type 0 where
  absent : Fresh x ys → Standing x ys
  present : length (without x ys) < length ys → Standing x ys

standing : (x : ℕ) (ys : List ℕ) → Standing x ys
standing x [] = absent tt
standing x (y ∷ ys) = elim (Bool-cases (y == x)) [
  | inl e ↦ present (rw e (omega (arith, length-without_le x ys)))
  | inr e ↦ elim (standing x ys) [
    | absent f ↦ absent (ground (arith, e), f)
    | present l ↦ present (rw e (omega (arith, l)))
  ]
]

Fresh-without : (f x : ℕ) (ys : List ℕ) → f ≢ x → Fresh f (without x ys) → Fresh f ys
Fresh-without f x [] n h = tt
Fresh-without f x (y ∷ ys) n h = by_test (y == x) refl h (Fresh-without f x ys n)
  where
    by_test :
        (b : Bool)
        → (y == x) ≡ b
        → Fresh f (if b then without x ys else y ∷ without x ys)
        → (Fresh f (without x ys) → Fresh f ys)
        → Fresh f (y ∷ ys)
    by_test true e h k = (λ q. n (q ∙ (==_iff y x).0 e), k h)
    by_test false e h k = (h.0, k h.1)

-- One of the first `n` pids is not in a list of fewer than `n`.
pub free_pid : (n : ℕ) (ps : List ℕ) → length ps < n → (f : ℕ) × (0 < f) × (f ≤ n) × Fresh f ps
free_pid zero ps l = absurd (omega (arith, l))
free_pid (suc n) ps l = elim (standing (suc n) ps) [
  | absent f ↦ (suc n, omega arith, omega arith, f)
  | present k ↦
      let (f, a, b, c) = free_pid n (without (suc n) ps) (omega (arith, l, k)) in
      (f, a, omega (arith, b), Fresh-without f (suc n) ps (omega (arith, b)) c)
]
