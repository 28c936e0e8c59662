-- ===== src/Pmm/Free.antt =====
-- `default_free_pages` and `default_init_memmap`: the pages become free, and nothing else changes.
use mathlib.Core.List.{map-append}
use nk_os_team.Prelude.{
  ℕ, ◌+◌, ◌^◌, ◌<◌, ◌≡◌, refl, ◌≢◌, ◌↔◌, ◌⊎◌, true, false, not, ◌&&◌, some, List, [], ◌∷◌, ◌++◌,
  arith, ==_of_ne, length, All, All-append, All-left, All-right,
}
use nk_os_team.Pmm.{
  Page, Pmm, add_block, make_head, uncounted, blank, default_free_pages, default_init_memmap,
  merge_before, merge_after,
}
use nk_os_team.Pmm.Blocks.{
  Block, Ordered, IsFree, total, entry, IsHead, Manages, total-middle, Ordered-tail,
}
use nk_os_team.Pmm.FirstFit.{Taken}
use nk_os_team.Pmm.Place.{
  Cleared, clear_pages-Cleared, heads-before, heads-after, HasPlace, add_block-IsRing,
}
use nk_os_team.Pmm.Neighbours.{merge_before-Merged, merge_after-Manages}

-- A new block of `n` pages from `base` between the blocks `xs` and `ys`.
pub record Gap (base n : ℕ) (xs ys : List Block) : Type 0 where
  pub ordered : Ordered 0 (xs ++ (base, n) ∷ ys)
  pub place : HasPlace xs ys
  pub small : total (xs ++ ys) + n < 2 ^ 32

abbrev with_pages : Pmm → (ℕ → Page) → Pmm
with_pages s ps = record s { pages = ps }

-- A free page is in the new block or in one of the others.
middle-IsFree :
    (i base n : ℕ) (xs ys : List Block)
    → IsFree i (xs ++ (base, n) ∷ ys) ↔ (IsFree i (xs ++ ys) ⊎ Taken i base n)
middle-IsFree i base n [] ys = (λ f. grind arith, λ f. grind arith)
middle-IsFree i base n (x ∷ xs) ys =
    let h = middle-IsFree i base n xs ys in (λ f. grind arith, λ f. grind arith)

trans : {A B C : Type 0} → A ↔ B → B ↔ C → A ↔ C
trans f g = (λ a. g.0 (f.0 a), λ c. f.1 (g.1 c))

module _ (s : Pmm) (base n : ℕ) (xs ys : List Block) (v : Manages s (xs ++ ys))
    (g : Gap base n xs ys) (pos : 0 < n) (clear : Page → Page) (qs : ℕ → Page)
    (c : Cleared clear n base s.pages qs) where
  headed : Pmm
  headed = make_head (with_pages s qs) base n

  headed-outside : (i : ℕ) → ¬ Taken i base n → headed.pages i ≡ s.pages i
  unfolding headed
  headed-outside i h =
      let d : i ≢ base = λ e. h (omega arith, omega arith) in ground (arith, c.outside i h)

  new-IsHead : IsHead headed.pages (base, n)
  unfolding headed
  new-IsHead = let h = g.small in (ground (arith, h), ground arith)

  headed_heads : All (IsHead headed.pages) (xs ++ (base, n) ∷ ys)
  headed_heads =
      All-append (IsHead headed.pages) xs ((base, n) ∷ ys)
        (heads-before s.pages headed.pages 0 base n xs ys headed-outside g.ordered
          (All-left (IsHead s.pages) xs ys v.heads))
        (
          new-IsHead,
          heads-after s.pages headed.pages (base + n) base n ys headed-outside
              (Ordered-tail 0 xs ys (base, n) g.ordered) (omega arith)
              (All-right (IsHead s.pages) xs ys v.heads),
        )

  -- The block is linked, and the state holds it beside the others.
  added :
      (fuel : ℕ)
      → length xs < fuel
      → (s' : Pmm) × (add_block fuel headed base ≡ some s') × Manages s' (xs ++ (base, n) ∷ ys)
  unfolding headed
  added fuel h =
      let (m, e, r) =
        add_block-IsRing fuel headed base n xs ys (rw (← map-append entry xs ys) v.ring) g.ordered
          pos g.place h in
      (
        record headed { links = m },
        e,
        record {
          ring = rw map-append r;
          heads = headed_heads;
          ordered = g.ordered;
          count = omega (arith, v.count, g.small, total-middle xs ys (base, n));
          small = omega (arith, g.small, total-middle xs ys (base, n));
        },
      )

  -- The merges keep the free pages.
  merged :
      (s' : Pmm)
      → Manages s' (xs ++ (base, n) ∷ ys)
      → (cs : List Block) × Manages
          (let (s'', base') = merge_before s' base in merge_after s'' base')
          cs
        × ((i : ℕ) → IsFree i cs ↔ (IsFree i (xs ++ ys) ⊎ Taken i base n))
  merged s' v' =
      let m = merge_before-Merged s' xs ys base n v' in
      let (s'', base') = merge_before s' base in
      let (cs, w, f) = merge_after-Manages s'' m.zs ys base' m.size m.manages in
      (cs, w, λ i. trans (f i) (trans (m.same i) (middle-IsFree i base n xs ys)))

abbrev IsFreeable : Page → Type 0
IsFreeable p = (p.reserved ≡ false) × (p.is_head ≡ false)

-- `default_free_pages` makes a range of pages free that are neither reserved nor the head of a
-- block: it succeeds with enough fuel, merges the range with its neighbours or not, and the state
-- then holds blocks, apart and in order and counted by `nr_free`, in which the pages of the range
-- are free and those that were free before, and no other. There has to be a block behind the range,
-- or no block at all, and fewer than 2 ^ 32 pages in all.
pub default_free_pages_lem :
    (fuel : ℕ) (s : Pmm) (base n : ℕ) (xs ys : List Block)
    → Manages s (xs ++ ys)
    → Gap base n xs ys
    → 0 < n
    → ((i : ℕ) → Taken i base n → IsFreeable (s.pages i))
    → length xs < fuel
    → (s' : Pmm) × (cs : List Block) × (default_free_pages fuel s base n ≡ some s')
      × Manages s' cs
      × ((i : ℕ) → IsFree i cs ↔ (IsFree i (xs ++ ys) ⊎ Taken i base n))
unfolding default_free_pages headed
default_free_pages_lem fuel s base n xs ys v g pos ok h =
    let (qs, e, c) =
      clear_pages-Cleared (λ p. not p.reserved && not p.is_head) uncounted n base s.pages
        (λ i l u. let k = ok i (l, u) in rw (k.0, k.1) refl) in
    let (s', a, v') = added s base n xs ys v g pos uncounted qs c fuel h in
    let (cs, w, f) = merged s base n xs ys v g pos uncounted qs c s' v' in
    (
      (let (s'', base') = merge_before s' base in merge_after s'' base'),
      cs,
      rw (==_of_ne n 0 (omega arith), e, a) refl,
      w,
      f,
    )

-- `default_init_memmap` makes a range of reserved pages a free block of its own beside the others,
-- with enough fuel. There has to be a block behind the range, or no block at
-- all, and fewer than 2 ^ 32 pages in all.
default_init_memmap_lem :
    (fuel : ℕ) (s : Pmm) (base n : ℕ) (xs ys : List Block)
    → Manages s (xs ++ ys)
    → Gap base n xs ys
    → 0 < n
    → ((i : ℕ) → Taken i base n → (s.pages i).reserved ≡ true)
    → length xs < fuel
    → (s' : Pmm) × (default_init_memmap fuel s base n ≡ some s') × Manages s' (xs ++ (base, n) ∷ ys)
unfolding default_init_memmap headed
default_init_memmap_lem fuel s base n xs ys v g pos ok h =
    let (qs, e, c) =
      clear_pages-Cleared (λ p. p.reserved) (λ p. blank) n base s.pages (λ i l u. ok i (l, u)) in
    let (s', a, v') = added s base n xs ys v g pos (λ p. blank) qs c fuel h in
    (s', rw (==_of_ne n 0 (omega arith), e) a, v')
