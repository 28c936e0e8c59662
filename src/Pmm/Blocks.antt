-- ===== src/Pmm/Blocks.antt =====
-- The free memory as a list of blocks, each a first page and a size, and what first fit does to it.
use mathlib.Core.Path.{subst}
use nk_os_team.Prelude.{
  ℕ, ◌+◌, ◌-◌, ◌^◌, ◌≤◌, ◌<◌, ◌≡◌, refl, ap, ◌⊎◌, inl, inr, true, false, Option, none, some, List,
  [], ◌∷◌, ◌++◌, map, arith, ltb, leb, if◌then◌else◌, put, Bool-cases, All, Fresh,
}
use nk_os_team.Links.Ring.{IsRing}
use nk_os_team.Pmm.{Page, Pmm, free_list, page_link}

abbrev pub Block : Type 0
Block = ℕ × ℕ

-- The blocks lie above `lo`, apart and in order, and none is empty.
abbrev pub Ordered : ℕ → List Block → Type 0
Ordered lo [] = Unit {0}
Ordered lo ((b, k) ∷ bs) = (lo ≤ b) × (0 < k) × Ordered (b + k) bs

-- Page `i` is free.
abbrev pub IsFree : ℕ → List Block → Type 0
IsFree i [] = ⊥
IsFree i ((b, k) ∷ bs) = ((b ≤ i) × (i < b + k)) ⊎ IsFree i bs

abbrev pub total : List Block → ℕ
total [] = 0
total ((b, k) ∷ bs) = k + total bs

abbrev pub entry : Block → ℕ
entry b = page_link b.0

-- The head page of each block says so, and how long the block is.
abbrev pub IsHead : (ℕ → Page) → Block → Type 0
IsHead ps b = ((ps b.0).property ≡ b.1) × ((ps b.0).is_head ≡ true)

-- The allocator's state holds the blocks `bs`.
pub record Manages (s : Pmm) (bs : List Block) : Type 0 where
  pub ring : IsRing s.links free_list (map entry bs)
  pub heads : All (IsHead s.pages) bs
  pub ordered : Ordered 0 bs
  pub count : s.nr_free ≡ total bs
  pub small : total bs < 2 ^ 32

-- First fit: the first block of `n` pages or more, and the blocks that are left.
abbrev pub remainder : ℕ → Block → List Block → List Block
remainder n (b, k) bs = if ltb n k then (b + n, k - n) ∷ bs else bs

unfoldable pub first_fit : ℕ → List Block → Option (ℕ × List Block)
first_fit n [] = none
first_fit n ((b, k) ∷ bs) =
    if leb n k
    then some (b, remainder n (b, k) bs)
    else elim (first_fit n bs) [ none ↦ none | some (p, cs) ↦ some (p, (b, k) ∷ cs) ]

Ordered-mono : (lo hi : ℕ) (bs : List Block) → lo ≤ hi → Ordered hi bs → Ordered lo bs
Ordered-mono lo hi [] h o = tt
Ordered-mono lo hi ((b, k) ∷ bs) h o = (omega (arith, o.0), o.1, o.2)

Ordered-above : (i lo : ℕ) (bs : List Block) → Ordered lo bs → IsFree i bs → lo ≤ i
Ordered-above i lo [] o f = absurd f
Ordered-above i lo ((b, k) ∷ bs) o (inl h) = omega (arith, o.0, h.0)
Ordered-above i lo ((b, k) ∷ bs) o (inr f) = omega (arith, o.0, Ordered-above i (b + k) bs o.2 f)

pub start-above : (lo : ℕ) (xs ys : List Block) (b : Block) → Ordered lo (xs ++ b ∷ ys) → lo ≤ b.0
start-above lo [] ys b o = o.0
start-above lo ((x, j) ∷ xs) ys b o = omega (arith, o.0, o.1, start-above (x + j) xs ys b o.2)

-- No block starts at a page behind the blocks, or below them.
pub Fresh-before :
    (lo z : ℕ) (xs ys : List Block) (b : Block)
    → Ordered lo (xs ++ b ∷ ys)
    → b.0 ≤ z
    → Fresh (page_link z) (map entry xs)
Fresh-before lo z [] ys b o h = tt
Fresh-before lo z ((x, j) ∷ xs) ys b o h =
    (omega (arith, o.1, start-above (x + j) xs ys b o.2), Fresh-before (x + j) z xs ys b o.2 h)

pub Fresh-after :
    (lo z : ℕ) (ys : List Block) → Ordered lo ys → z < lo → Fresh (page_link z) (map entry ys)
Fresh-after lo z [] o h = tt
Fresh-after lo z ((x, j) ∷ ys) o h =
    (omega (arith, o.0), Fresh-after (x + j) z ys o.2 (omega (arith, o.0)))

pub Ordered-tail :
    (lo : ℕ) (xs ys : List Block) (b : Block) → Ordered lo (xs ++ b ∷ ys) → Ordered (b.0 + b.1) ys
Ordered-tail lo [] ys b o = o.2
Ordered-tail lo ((x, j) ∷ xs) ys b o = Ordered-tail (x + j) xs ys b o.2

pub Ordered-long : (lo : ℕ) (xs ys : List Block) (b : Block) → Ordered lo (xs ++ b ∷ ys) → 0 < b.1
Ordered-long lo [] ys b o = o.1
Ordered-long lo ((x, j) ∷ xs) ys b o = Ordered-long (x + j) xs ys b o.2

pub total-middle : (xs ys : List Block) (b : Block) → total (xs ++ b ∷ ys) ≡ b.1 + total (xs ++ ys)
total-middle [] ys b = refl
total-middle ((x, j) ∷ xs) ys b = omega (arith, total-middle xs ys b)

-- A page that heads no block may change.
pub IsHead-put :
    (ps : ℕ → Page) (z : ℕ) (v : Page) (bs : List Block)
    → Fresh (page_link z) (map entry bs)
    → All (IsHead ps) bs
    → All (IsHead (put ps z v)) bs
IsHead-put ps z v [] f a = tt
IsHead-put ps z v ((b, k) ∷ bs) f a = (ground (arith, f.0, a.0), IsHead-put ps z v bs f.1 a.1)

-- The block that first fit takes: the blocks before it are too short.
pub record Fit (n : ℕ) (bs : List Block) (p : ℕ) (cs : List Block) : Type 0 where
  pub before : List Block
  pub size : ℕ
  pub after : List Block
  pub split : bs ≡ before ++ (p, size) ∷ after
  pub large : n ≤ size
  pub left : cs ≡ before ++ remainder n (p, size) after
  pub skipped : All (λ b. b.1 < n) before

pub data Outcome (n : ℕ) (bs : List Block) : Type 0 where
  fails : first_fit n bs ≡ none → All (λ b. b.1 < n) bs → Outcome n bs
  fits : (p : ℕ) (cs : List Block) → first_fit n bs ≡ some (p, cs) → Fit n bs p cs → Outcome n bs

skip : (n b k : ℕ) (bs : List Block) → leb n k ≡ false → Outcome n bs → Outcome n ((b, k) ∷ bs)
unfolding first_fit
skip n b k bs e (fails f a) = fails (ground (arith, f)) (ground arith, a)
skip n b k bs e (fits p cs f w) = fits p ((b, k) ∷ cs) (ground (arith, f)) (record {
  before = (b, k) ∷ w.before;
  size = w.size;
  after = w.after;
  split = ap (◌∷◌ (b, k)) w.split;
  large = w.large;
  left = ap (◌∷◌ (b, k)) w.left;
  skipped = (ground arith, w.skipped);
})

-- First fit fails if all blocks are too short, and else takes the first that is not.
pub first_fit-Outcome : (n : ℕ) (bs : List Block) → Outcome n bs
unfolding first_fit
first_fit-Outcome n [] = fails refl tt
first_fit-Outcome n ((b, k) ∷ bs) = elim (Bool-cases (leb n k)) [
  | inr e ↦ skip n b k bs e (first_fit-Outcome n bs)
  | inl e ↦ fits b (remainder n (b, k) bs) (ground arith) (record {
    before = [];
    size = k;
    after = bs;
    split = refl;
    large = ground arith;
    left = refl;
    skipped = tt;
  })
]

module _ (n p k : ℕ) (ys : List Block) (large : n ≤ k) where
  pub split_off : ltb n k ≡ true → remainder n (p, k) ys ≡ (p + n, k - n) ∷ ys
  split_off e = rw e

  pub used_up : ltb n k ≡ false → remainder n (p, k) ys ≡ ys
  used_up e = rw e

  -- The blocks that are left stay apart and in order.
  pub remainder-Ordered :
      (lo : ℕ) (xs : List Block)
      → Ordered lo (xs ++ (p, k) ∷ ys)
      → Ordered lo (xs ++ remainder n (p, k) ys)
  remainder-Ordered lo [] o = elim (Bool-cases (ltb n k)) [
    | inl e ↦ rw e (
      omega (arith, o.0),
      ground arith,
      Ordered-mono (p + n + (k - n)) (p + k) ys (omega arith) o.2,
    )
    | inr e ↦ rw e (Ordered-mono lo (p + k) ys (omega (arith, o.0)) o.2)
  ]
  remainder-Ordered lo ((b, j) ∷ xs) o = (o.0, o.1, remainder-Ordered (b + j) xs o.2)

  pub remainder-total :
      (xs : List Block) → total (xs ++ remainder n (p, k) ys) + n ≡ total (xs ++ (p, k) ∷ ys)
  remainder-total [] = ground arith
  remainder-total ((b, j) ∷ xs) = omega (arith, remainder-total xs)

  -- A page that was free still is, or is one of the `n` pages taken.
  pub remainder-IsFree :
      (i : ℕ) (xs : List Block)
      → IsFree i (xs ++ (p, k) ∷ ys)
      → IsFree i (xs ++ remainder n (p, k) ys) ⊎ ((p ≤ i) × (i < p + n))
  remainder-IsFree i [] f = elim (Bool-cases (ltb n k)) [
    | inl e ↦ rw e (grind arith)
    | inr e ↦ rw e (grind arith)
  ]
  remainder-IsFree i ((b, j) ∷ xs) (inl h) = inl (inl h)
  remainder-IsFree i ((b, j) ∷ xs) (inr f) = elim (remainder-IsFree i xs f) [
    | inl g ↦ inl (inr g)
    | inr h ↦ inr h
  ]

  -- The pages taken were free.
  pub remainder-taken : (i : ℕ) (xs : List Block) → p ≤ i → i < p + n → IsFree i (xs ++ (p, k) ∷ ys)
  remainder-taken i [] h l = inl (h, omega arith)
  remainder-taken i (b ∷ xs) h l = inr (remainder-taken i xs h l)

  kept_split :
      (i : ℕ)
      → Ordered (p + k) ys
      → ltb n k ≡ true
      → ((p + n ≤ i) × (i < p + n + (k - n))) ⊎ IsFree i ys
      → (((p ≤ i) × (i < p + k)) ⊎ IsFree i ys) × ¬ ((p ≤ i) × (i < p + n))
  kept_split i o e (inl h) = (inl (ground arith, ground arith), λ t. omega arith)
  kept_split i o e (inr f) = (inr f, λ t. omega (arith, Ordered-above i (p + k) ys o f))

  -- What still is free was free, and is none of the pages taken.
  pub remainder-kept :
      (lo i : ℕ) (xs : List Block)
      → Ordered lo (xs ++ (p, k) ∷ ys)
      → IsFree i (xs ++ remainder n (p, k) ys)
      → IsFree i (xs ++ (p, k) ∷ ys) × ¬ ((p ≤ i) × (i < p + n))
  remainder-kept lo i [] o f = elim (Bool-cases (ltb n k)) [
    | inl e ↦ kept_split i o.2 e (subst (IsFree i) (split_off e) f)
    | inr e ↦
        let g : IsFree i ys = subst (IsFree i) (used_up e) f in
        (inr g, λ t. omega (arith, Ordered-above i (p + k) ys o.2 g))
  ]
  remainder-kept lo i ((b, j) ∷ xs) o (inl h) = (
    inl h,
    λ t.
        omega
          (arith, Ordered-above i (b + j) (xs ++ (p, k) ∷ ys) o.2 (remainder-taken i xs t.0 t.1)),
  )
  remainder-kept lo i ((b, j) ∷ xs) o (inr f) =
      let (g, t) = remainder-kept (b + j) i xs o.2 f in (inr g, t)
