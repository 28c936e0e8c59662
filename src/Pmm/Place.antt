-- ===== src/Pmm/Place.antt =====
-- The first part of `default_free_pages` and `default_init_memmap`: the pages are cleared, and the
-- block is linked before the first block that lies behind it.
use mathlib.Core.List.{map-append}
use native.Mathlib.Decide.{ℕ_discrete}
use nk_os_team.Prelude.{
  ℕ, zero, suc, ◌+◌, ◌≤◌, ◌<◌, ◌≡◌, refl, ◌∙◌, ◌≢◌, Bool, true, false, some, List, [], ◌∷◌, ◌++◌,
  map, arith, ltb, ◌==◌, lt→ltb, put, link-ne-list, pred_suc, length, All, Fresh, Fresh-append,
}
use nk_os_team.Links.Ring.{IsRing, Seg, list_add_before-IsRing, list_add_after-IsRing}
use nk_os_team.Links.{Links, list_add, list_add_before, list_next}
use nk_os_team.Pmm.{Page, Pmm, free_list, page_link, clear_pages, link_block, add_block}
use nk_os_team.Pmm.Blocks.{
  Block, Ordered, entry, IsHead, start-above, Ordered-tail, Fresh-before, Fresh-after,
}
use nk_os_team.Pmm.FirstFit.{Taken}

-- The pages after the loop: those of the range are cleared, the others are as they were.
pub record Cleared (clear : Page → Page) (n p : ℕ) (ps qs : ℕ → Page) : Type 0 where
  pub inside : (i : ℕ) → p ≤ i → i < p + n → qs i ≡ clear (ps i)
  pub outside : (i : ℕ) → ¬ Taken i p n → qs i ≡ ps i

pub clear_pages-Cleared :
    (check : Page → Bool) (clear : Page → Page) (n p : ℕ) (ps : ℕ → Page)
    → ((i : ℕ) → p ≤ i → i < p + n → check (ps i) ≡ true)
    → (qs : ℕ → Page) × (clear_pages check clear n p ps ≡ some qs) × Cleared clear n p ps qs
unfolding clear_pages
clear_pages-Cleared check clear zero p ps ok =
    (ps, refl, record { inside = λ i l h. absurd (omega arith); outside = λ i h. refl })
clear_pages-Cleared check clear (suc n) p ps ok =
    let (qs, e, c) =
      clear_pages-Cleared check clear n (p + 1) (put ps p (clear (ps p)))
        (λ i l h. ground (arith, ok i)) in
    (
      qs,
      rw (ok p (omega arith) (omega arith)) e,
      record { inside = λ i l h. inside_step i l h qs c; outside = λ i h. outside_step i h qs c },
    )
  where
    ps' : ℕ → Page
    ps' = put ps p (clear (ps p))

    inside_step :
        (i : ℕ)
        → p ≤ i
        → i < p + suc n
        → (qs : ℕ → Page) → Cleared clear n (p + 1) ps' qs
        → qs i ≡ clear (ps i)
    inside_step i l h qs c = elim (ℕ_discrete i p) [
      | yes d ↦ c.outside i (λ t. omega arith) ∙ ground arith
      | no d ↦ c.inside i (omega arith) (omega arith) ∙ ground arith
    ]

    outside_step :
        (i : ℕ)
        → ¬ Taken i p (suc n)
        → (qs : ℕ → Page) → Cleared clear n (p + 1) ps' qs
        → qs i ≡ ps i
    outside_step i h qs c =
        let d : i ≢ p = λ (e : i ≡ p). h (omega arith, omega arith) in
        c.outside i (λ t. h (omega arith, omega arith)) ∙ ground arith

-- The heads of blocks outside the range stay.
pub heads-before :
    (ps qs : ℕ → Page) (lo base n : ℕ) (xs ys : List Block)
    → ((i : ℕ) → ¬ Taken i base n → qs i ≡ ps i)
    → Ordered lo (xs ++ (base, n) ∷ ys)
    → All (IsHead ps) xs
    → All (IsHead qs) xs
heads-before ps qs lo base n [] ys e o a = tt
heads-before ps qs lo base n ((x, j) ∷ xs) ys e o a =
    let s = start-above (x + j) xs ys (base, n) o.2 in
    (
      ground (arith, e x (λ t. omega (arith, s, o.1)), a.0),
      heads-before ps qs (x + j) base n xs ys e o.2 a.1,
    )

pub heads-after :
    (ps qs : ℕ → Page) (lo base n : ℕ) (ys : List Block)
    → ((i : ℕ) → ¬ Taken i base n → qs i ≡ ps i)
    → Ordered lo ys
    → base + n ≤ lo
    → All (IsHead ps) ys
    → All (IsHead qs) ys
heads-after ps qs lo base n [] e o h a = tt
heads-after ps qs lo base n ((y, k) ∷ ys) e o h a = (
  ground (arith, e y (λ t. omega (arith, o.0)), a.0),
  heads-after ps qs (y + k) base n ys e o.2 (omega (arith, o.0)) a.1,
)

next-ne-end :
    (m : Links) (a y k : ℕ) (xs ys : List Block)
    → Seg m a (map entry (xs ++ (y, k) ∷ ys)) free_list
    → (list_next m a == free_list) ≡ false
next-ne-end m a y k [] ys s = rw s.0 (link-ne-list y)
next-ne-end m a y k ((z, j) ∷ xs) ys s = rw s.0 (link-ne-list z)

not-behind :
    (lo base x j n : ℕ) (xs ys : List Block)
    → Ordered lo ((x, j) ∷ xs ++ (base, n) ∷ ys)
    → ltb base x ≡ false
not-behind lo base x j n xs ys o = ground (arith, o.1, start-above (x + j) xs ys (base, n) o.2)

-- The loop links the block before the first that lies behind it.
pub link_block-before :
    (fuel : ℕ) (m : Links) (le base y k lo n : ℕ) (xs ys : List Block)
    → Seg m le (map entry (xs ++ (y, k) ∷ ys)) free_list
    → Ordered lo (xs ++ (base, n) ∷ (y, k) ∷ ys)
    → 0 < n
    → length xs < fuel
    → link_block fuel m base le ≡ some (list_add_before m (page_link y) (page_link base))
unfolding link_block
link_block-before zero m le base y k lo n xs ys s o pos h = absurd (omega arith)
link_block-before (suc fuel) m le base y k lo n [] ys s o pos h =
    rw (s.0, link-ne-list y, pred_suc y, lt→ltb base y (omega (arith, o.2.0))) refl
link_block-before (suc fuel) m le base y k lo n ((x, j) ∷ xs) ys s o pos h =
    rw
      (
        s.0,
        link-ne-list x,
        pred_suc x,
        not-behind lo base x j n xs ((y, k) ∷ ys) o,
        next-ne-end m (page_link x) y k xs ys s.2,
      )
      (link_block-before fuel m (page_link x) base y k (x + j) n xs ys s.2 o.2 pos (omega arith))

-- The place for a block: there is one behind it, or none at all.
abbrev pub HasPlace : List Block → List Block → Type 0
HasPlace [] [] = Unit {0}
HasPlace (x ∷ xs) [] = ⊥
HasPlace xs (y ∷ ys) = Unit {0}

pub Fresh-block :
    (lo base n : ℕ) (xs ys : List Block)
    → Ordered lo (xs ++ (base, n) ∷ ys)
    → 0 < n
    → Fresh (page_link base) (free_list ∷ (map entry xs ++ map entry ys))
Fresh-block lo base n xs ys o pos = (
  omega arith,
  Fresh-append (page_link base) (map entry xs) (map entry ys)
      (Fresh-before lo base xs ys (base, n) o (omega arith))
      (Fresh-after (base + n) base ys (Ordered-tail lo xs ys (base, n) o) (omega arith)),
)

-- `add_block` puts the block in its place.
pub add_block-IsRing :
    (fuel : ℕ) (s : Pmm) (base n : ℕ) (xs ys : List Block)
    → IsRing s.links free_list (map entry xs ++ map entry ys)
    → Ordered 0 (xs ++ (base, n) ∷ ys)
    → 0 < n
    → HasPlace xs ys
    → length xs < fuel
    → (m : Links) × (add_block fuel s base ≡ some (record s { links = m }))
      × IsRing m free_list (map entry xs ++ page_link base ∷ map entry ys)
unfolding add_block list_add
add_block-IsRing fuel s base n [] [] r o pos place h = (
  list_add s.links free_list (page_link base),
  ground (arith, r.links.0),
  list_add_after-IsRing s.links free_list (page_link base) [] [] r
      (Fresh-block 0 base n [] [] o pos),
)
add_block-IsRing fuel s base n (x ∷ xs) [] r o pos place h = absurd place
add_block-IsRing fuel s base n xs ((y, k) ∷ ys) r o pos place h =
    let links = rw (← map-append entry xs ((y, k) ∷ ys)) at r.links in
    (
      list_add_before s.links (page_link y) (page_link base),
      rw (
        next-ne-end s.links free_list y k xs ys links,
        link_block-before fuel s.links free_list base y k 0 n xs ys links o pos h,
      ),
      list_add_before-IsRing s.links free_list (page_link base) (map entry xs)
          (page_link y ∷ map entry ys) r (Fresh-block 0 base n xs ((y, k) ∷ ys) o pos),
    )
