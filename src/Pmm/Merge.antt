-- ===== src/Pmm/Merge.antt =====
-- The end of `default_free_pages`: a block is merged with the block before and the block after it.
use mathlib.Core.Path.{subst}
use mathlib.Core.List.{map-append, append_assoc}
use nk_os_team.Prelude.{
  ℕ, ◌+◌, ◌%◌, ◌^◌, ◌<◌, ◌≡◌, sym, ◌∙◌, ◌↔◌, inl, inr, List, [], ◌∷◌, ◌++◌, map, arith, put, All,
  All-append, All-left, All-right, Fresh,
}
use nk_os_team.Links.Ring.{IsRing, list_del-IsRing}
use nk_os_team.Pmm.{Pmm, free_list, page_link, absorb, set_property}
use nk_os_team.Pmm.Blocks.{
  Block, Ordered, IsFree, total, entry, IsHead, Manages, Ordered-tail, Fresh-before, Fresh-after,
  IsHead-put, total-middle,
}

-- Two neighbours that touch become one block, with the same pages.
join-Ordered :
    (lo : ℕ) (zs ys : List Block) (a j b k : ℕ)
    → Ordered lo (zs ++ (a, j) ∷ (b, k) ∷ ys)
    → a + j ≡ b
    → Ordered lo (zs ++ (a, j + k) ∷ ys)
join-Ordered lo [] ys a j b k o e =
    (o.0, omega (arith, o.1), subst (λ t. Ordered t ys) (omega arith) o.2.2)
join-Ordered lo ((x, i) ∷ zs) ys a j b k o e = (o.0, o.1, join-Ordered (x + i) zs ys a j b k o.2 e)

pub join-IsFree :
    (i : ℕ) (zs ys : List Block) (a j b k : ℕ)
    → a + j ≡ b
    → IsFree i (zs ++ (a, j + k) ∷ ys) ↔ IsFree i (zs ++ (a, j) ∷ (b, k) ∷ ys)
join-IsFree i [] ys a j b k e = (grind arith, grind arith)
join-IsFree i (z ∷ zs) ys a j b k e =
    let h = join-IsFree i zs ys a j b k e in
    (
      (λ f. elim f [ inl t ↦ inl t | inr g ↦ inr (h.0 g) ]),
      (λ f. elim f [ inl t ↦ inl t | inr g ↦ inr (h.1 g) ]),
    )

entries :
    (zs ys : List Block) (b : Block)
    → map entry (zs ++ b ∷ ys) ≡ (map entry zs ++ entry b ∷ []) ++ map entry ys
entries zs ys b =
    map-append entry zs (b ∷ ys) ∙ sym (append_assoc (map entry zs) (entry b ∷ []) (map entry ys))

module _ (s : Pmm) (zs ys : List Block) (a j b k : ℕ) (v : Manages s (zs ++ (a, j) ∷ (b, k) ∷ ys))
    (touch : a + j ≡ b) where
  pair_heads : IsHead s.pages (a, j) × IsHead s.pages (b, k)
  pair_heads = let h = All-right (IsHead s.pages) zs ((a, j) ∷ (b, k) ∷ ys) v.heads in (h.0, h.1.0)

  behind_pair : Ordered (a + j) ((b, k) ∷ ys)
  behind_pair = Ordered-tail 0 zs ((b, k) ∷ ys) (a, j) v.ordered

  before_pair : Fresh (page_link a) (map entry zs) × Fresh (page_link b) (map entry zs)
  before_pair = (
    Fresh-before 0 a zs ((b, k) ∷ ys) (a, j) v.ordered (omega arith),
    Fresh-before 0 b zs ((b, k) ∷ ys) (a, j) v.ordered (omega arith),
  )

  after_pair : Fresh (page_link a) (map entry ys) × Fresh (page_link b) (map entry ys)
  after_pair = (
    Fresh-after (b + k) a ys behind_pair.2 (omega (arith, behind_pair)),
    Fresh-after (b + k) b ys behind_pair.2 (omega (arith, behind_pair)),
  )

  sizes : j + k + total (zs ++ ys) < 2 ^ 32
  sizes = omega (arith, v.small, total-middle zs ((b, k) ∷ ys) (a, j), total-middle zs ys (b, k))

  absorb-IsRing : IsRing (absorb s a b).links free_list (map entry (zs ++ (a, j + k) ∷ ys))
  unfolding absorb
  absorb-IsRing = rw (entries zs ys (a, j + k)) (
      list_del-IsRing s.links free_list (page_link b) (map entry zs ++ page_link a ∷ [])
        (map entry ys) (rw (← entries zs ((b, k) ∷ ys) (a, j)) v.ring))

  -- A list of blocks away from both heads keeps its own.
  kept_heads :
      (bs : List Block)
      → Fresh (page_link a) (map entry bs)
      → Fresh (page_link b) (map entry bs)
      → All (IsHead s.pages) bs
      → All (IsHead (absorb s a b).pages) bs
  unfolding absorb
  kept_heads bs f g h =
      IsHead-put
        (put s.pages a
          (set_property (((s.pages a).property + (s.pages b).property) % 2 ^ 32) (s.pages a)))
        b _ bs g (IsHead-put s.pages a _ bs f h)

  absorb_heads : All (IsHead (absorb s a b).pages) (zs ++ (a, j + k) ∷ ys)
  unfolding absorb
  absorb_heads =
      let old = All-right (IsHead s.pages) zs ((a, j) ∷ (b, k) ∷ ys) v.heads in
      All-append (IsHead (absorb s a b).pages) zs ((a, j + k) ∷ ys)
        (kept_heads zs before_pair.0 before_pair.1
          (All-left (IsHead s.pages) zs ((a, j) ∷ (b, k) ∷ ys) v.heads))
        (
          ground (arith, pair_heads, sizes, behind_pair),
          kept_heads ys after_pair.0 after_pair.1 old.1.1,
        )

  pub absorb-Manages : Manages (absorb s a b) (zs ++ (a, j + k) ∷ ys)
  unfolding absorb
  absorb-Manages = record {
    ring = absorb-IsRing;
    heads = absorb_heads;
    ordered = join-Ordered 0 zs ys a j b k v.ordered touch;
    count = omega (
      arith,
      v.count,
      total-middle zs ((b, k) ∷ ys) (a, j),
      total-middle zs ys (b, k),
      total-middle zs ys (a, j + k),
    );
    small = omega (arith, sizes, total-middle zs ys (a, j + k));
  }
