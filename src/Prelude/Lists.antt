-- ===== src/Prelude/Lists.antt =====
-- Lists measured and indexed by native numbers, under the library's names, and lists of distinct
-- numbers as predicates by recursion.
use Prim.Native.Nat.{ℕ, zero, suc, ◌+◌, ◌<◌}
use mathlib.Core.Path.{◌≡◌, refl, sym, ap}
use mathlib.Core.Logic.{◌≢◌}
use mathlib.Core.List.{List, [], ◌∷◌, ◌++◌, map}
use mathlib.Core.Option.{Option, none, some}
use nk_os_team.Prelude.Tests.{◌==◌, if◌then◌else◌}
use native.Mathlib.Omega.{arith}

module _ {ℓ} {A : Type ℓ} where
  abbrev pub length : List A → ℕ
  length [] = 0
  length (x ∷ xs) = suc (length xs)

  abbrev pub get_elem? : List A → ℕ → Option A
  get_elem? [] i = none
  get_elem? (x ∷ xs) zero = some x
  get_elem? (x ∷ xs) (suc i) = get_elem? xs i

  -- A write out of bounds changes nothing.
  abbrev pub set : List A → ℕ → A → List A
  set [] i v = []
  set (x ∷ xs) zero v = v ∷ xs
  set (x ∷ xs) (suc i) v = x ∷ set xs i v

  pub length-append : (xs ys : List A) → length (xs ++ ys) ≡ length xs + length ys
  length-append [] ys = omega arith
  length-append (x ∷ xs) ys = omega (arith, length-append xs ys)

  pub length-set : (xs : List A) (i : ℕ) (v : A) → length (set xs i v) ≡ length xs
  length-set [] i v = refl
  length-set (x ∷ xs) zero v = refl
  length-set (x ∷ xs) (suc i) v = ap suc (length-set xs i v)

  pub get_elem?-set_self :
      (xs : List A) (i : ℕ) (v : A) → i < length xs → get_elem? (set xs i v) i ≡ some v
  get_elem?-set_self [] i v h = elim h [ ]
  get_elem?-set_self (x ∷ xs) zero v h = refl
  get_elem?-set_self (x ∷ xs) (suc i) v h = get_elem?-set_self xs i v (omega arith)

  pub get_elem?-set_ne :
      (xs : List A) {i j : ℕ} (v : A) → i ≢ j → get_elem? (set xs i v) j ≡ get_elem? xs j
  get_elem?-set_ne [] v h = refl
  get_elem?-set_ne (x ∷ xs) {i = zero} {j = zero} v h = absurd (h refl)
  get_elem?-set_ne (x ∷ xs) {i = zero} {j = suc j} v h = refl
  get_elem?-set_ne (x ∷ xs) {i = suc i} {j = zero} v h = refl
  get_elem?-set_ne (x ∷ xs) {i = suc i} {j = suc j} v h = get_elem?-set_ne xs v (λ e. h (ap suc e))

pub length-map {ℓ κ} :
    {A : Type ℓ} {B : Type κ} (f : A → B) (xs : List A) → length (map f xs) ≡ length xs
length-map f [] = refl
length-map f (x ∷ xs) = ap suc (length-map f xs)

-- A list of distinct numbers without one of them.
abbrev pub without : ℕ → List ℕ → List ℕ
without x [] = []
without x (y ∷ ys) = if y == x then without x ys else y ∷ without x ys

abbrev pub All {ℓ κ} : {A : Type ℓ} → (A → Type κ) → List A → Type κ
All P [] = Unit
All P (x ∷ xs) = P x × All P xs

module _ {ℓ κ} {A : Type ℓ} (P : A → Type κ) where
  pub All-append : (xs ys : List A) → All P xs → All P ys → All P (xs ++ ys)
  All-append [] ys h k = k
  All-append (x ∷ xs) ys h k = (h.0, All-append xs ys h.1 k)

  pub All-left : (xs ys : List A) → All P (xs ++ ys) → All P xs
  All-left [] ys h = tt
  All-left (x ∷ xs) ys h = (h.0, All-left xs ys h.1)

  pub All-right : (xs ys : List A) → All P (xs ++ ys) → All P ys
  All-right [] ys h = h
  All-right (x ∷ xs) ys h = All-right xs ys h.1

-- `x` does not stand in the list.
abbrev pub Fresh : ℕ → List ℕ → Type 0
Fresh x [] = Unit {0}
Fresh x (y ∷ ys) = (x ≢ y) × Fresh x ys

abbrev pub Distinct : List ℕ → Type 0
Distinct [] = Unit {0}
Distinct (x ∷ xs) = Fresh x xs × Distinct xs

pub Fresh-append : (x : ℕ) (xs ys : List ℕ) → Fresh x xs → Fresh x ys → Fresh x (xs ++ ys)
Fresh-append x [] ys h k = k
Fresh-append x (y ∷ xs) ys h k = (h.0, Fresh-append x xs ys h.1 k)

pub Fresh-left : (x : ℕ) (xs ys : List ℕ) → Fresh x (xs ++ ys) → Fresh x xs
Fresh-left x [] ys h = tt
Fresh-left x (y ∷ xs) ys h = (h.0, Fresh-left x xs ys h.1)

pub Fresh-right : (x : ℕ) (xs ys : List ℕ) → Fresh x (xs ++ ys) → Fresh x ys
Fresh-right x [] ys h = h
Fresh-right x (y ∷ xs) ys h = Fresh-right x xs ys h.1

-- An element in the middle differs from all the others.
pub Fresh-middle :
    (e : ℕ) (xs ys : List ℕ) → Distinct (xs ++ e ∷ ys) → Fresh e (xs ++ ys) × Distinct (xs ++ ys)
Fresh-middle e [] ys d = d
Fresh-middle e (x ∷ xs) ys d =
    let (f, r) = Fresh-middle e xs ys d.1 in
    let g = Fresh-right x xs (e ∷ ys) d.0 in
    ((λ p. g.0 (sym p), f), (Fresh-append x xs ys (Fresh-left x xs (e ∷ ys) d.0) g.1, r))

pub Distinct-insert :
    (e : ℕ) (xs ys : List ℕ) → Fresh e (xs ++ ys) → Distinct (xs ++ ys) → Distinct (xs ++ e ∷ ys)
Distinct-insert e [] ys f d = (f, d)
Distinct-insert e (x ∷ xs) ys f d = (
  Fresh-append x xs (e ∷ ys) (Fresh-left x xs ys d.0) ((λ p. f.0 (sym p)), Fresh-right x xs ys d.0),
  Distinct-insert e xs ys f.1 d.1,
)

-- The same for the successors of a list's numbers.
pub Fresh-suc : (p : ℕ) (q : List ℕ) → Fresh p q → Fresh (suc p) (map suc q)
Fresh-suc p [] f = tt
Fresh-suc p (x ∷ q) f = (omega (arith, f.0), Fresh-suc p q f.1)

pub Fresh-pred : (p : ℕ) (q : List ℕ) → Fresh (suc p) (map suc q) → Fresh p q
Fresh-pred p [] f = tt
Fresh-pred p (x ∷ q) f = (omega (arith, f.0), Fresh-pred p q f.1)

pub Fresh-zero : (q : List ℕ) → Fresh zero (map suc q)
Fresh-zero [] = tt
Fresh-zero (x ∷ q) = (omega arith, Fresh-zero q)

pub map-Fresh :
    (p : ℕ) (xs ys : List ℕ) → Fresh p (xs ++ ys) → Fresh (suc p) (map suc xs ++ map suc ys)
map-Fresh p xs ys f =
    Fresh-append (suc p) (map suc xs) (map suc ys) (Fresh-suc p xs (Fresh-left p xs ys f))
      (Fresh-suc p ys (Fresh-right p xs ys f))

pub Distinct-pred : (q : List ℕ) → Distinct (map suc q) → Distinct q
Distinct-pred [] d = tt
Distinct-pred (x ∷ q) d = (Fresh-pred x q d.0, Distinct-pred q d.1)
