-- ===== src/Pmm/Neighbours.antt =====
-- `merge_before` and `merge_after`: whether or not a neighbour touches, the same pages are free.
use mathlib.Core.List.{map-append, append_assoc}
use native.Mathlib.Decide.{ℕ_discrete}
use nk_os_team.Prelude.{
  ℕ, ◌+◌, ◌≡◌, refl, ap, ◌∙◌, ◌≢◌, ◌↔◌, List, [], ◌∷◌, ◌++◌, map, ==_iff, ==_of_ne, link-ne-list,
  pred_suc, All-right,
}
use nk_os_team.Links.Ring.{last, last-append, first, ring_neighbours}
use nk_os_team.Pmm.{Pmm, free_list, page_link, absorb, merge_before, merge_after}
use nk_os_team.Pmm.Blocks.{Block, IsFree, entry, IsHead, Manages}
use nk_os_team.Pmm.Merge.{join-IsFree, absorb-Manages}

-- The state holds blocks with the free pages of `bs`, and one that starts at `b`, then `ys`.
pub record Merged (s : Pmm) (bs ys : List Block) (b : ℕ) : Type 0 where
  pub zs : List Block
  pub size : ℕ
  pub manages : Manages s (zs ++ (b, size) ∷ ys)
  pub same : (i : ℕ) → IsFree i (zs ++ (b, size) ∷ ys) ↔ IsFree i bs

unmerged :
    (s : Pmm) (zs ys : List Block) (b k : ℕ)
    → Manages s (zs ++ (b, k) ∷ ys)
    → Merged s (zs ++ (b, k) ∷ ys) ys b
unmerged s zs ys b k v = record { zs = zs; size = k; manages = v; same = λ i. ((λ f. f), (λ f. f)) }

data Snoc : List Block → Type 0 where
  empty : Snoc []
  snoc : (zs : List Block) (z : Block) (bs : List Block) → bs ≡ zs ++ z ∷ [] → Snoc bs

extend : (b : Block) (bs : List Block) → Snoc bs → Snoc (b ∷ bs)
extend b bs empty = snoc [] b (b ∷ []) refl
extend b bs (snoc zs z bs' e) = snoc (b ∷ zs) z (b ∷ bs) (ap (◌∷◌ b) e)

Snoc-cases : (bs : List Block) → Snoc bs
Snoc-cases [] = empty
Snoc-cases (b ∷ bs) = extend b bs (Snoc-cases bs)

head_of :
    (s : Pmm) (zs ys : List Block) (b : Block)
    → Manages s (zs ++ b ∷ ys)
    → (s.pages b.0).property ≡ b.1
head_of s zs ys b v = (All-right (IsHead s.pages) zs (b ∷ ys) v.heads).0.0

around :
    (s : Pmm) (xs ys : List Block) (b : Block)
    → Manages s (xs ++ b ∷ ys)
    → (s.links.prev (entry b) ≡ last free_list (map entry xs))
      × (s.links.next (entry b) ≡ first (map entry ys) free_list)
around s xs ys b v =
    ring_neighbours s.links free_list (entry b) (map entry xs) (map entry ys)
      (rw (← map-append entry xs (b ∷ ys)) v.ring)

merge_after-touch :
    (s : Pmm) (b c : ℕ)
    → s.links.next (page_link b) ≡ page_link c
    → b + (s.pages b).property ≡ c
    → merge_after s b ≡ absorb s b c
unfolding merge_after
merge_after-touch s b c n e =
    rw (n, link-ne-list c, pred_suc c, (==_iff (b + (s.pages b).property) c).1 e)

merge_after-apart :
    (s : Pmm) (b c : ℕ)
    → s.links.next (page_link b) ≡ page_link c
    → b + (s.pages b).property ≢ c
    → merge_after s b ≡ s
unfolding merge_after
merge_after-apart s b c n e =
    rw (n, link-ne-list c, pred_suc c, ==_of_ne (b + (s.pages b).property) c e)

merge_after-end : (s : Pmm) (b : ℕ) → s.links.next (page_link b) ≡ free_list → merge_after s b ≡ s
unfolding merge_after
merge_after-end s b n = rw n

-- A block is merged with the block behind it if they touch.
pub merge_after-Manages :
    (s : Pmm) (zs ys : List Block) (b k : ℕ)
    → Manages s (zs ++ (b, k) ∷ ys)
    → (cs : List Block) × Manages (merge_after s b) cs
      × ((i : ℕ) → IsFree i cs ↔ IsFree i (zs ++ (b, k) ∷ ys))
merge_after-Manages s zs [] b k v =
    rw (merge_after-end s b (around s zs [] (b, k) v).1)
      (zs ++ (b, k) ∷ [], v, λ i. ((λ f. f), (λ f. f)))
merge_after-Manages s zs ((c, l) ∷ ys) b k v =
    let n = (around s zs ((c, l) ∷ ys) (b, k) v).1 in
    let h = head_of s zs ((c, l) ∷ ys) (b, k) v in
    elim (ℕ_discrete (b + k) c) [
      | yes t ↦ rw (merge_after-touch s b c n (rw h t)) (
        zs ++ (b, k + l) ∷ ys,
        absorb-Manages s zs ys b k c l v t,
        λ i. join-IsFree i zs ys b k c l t,
      )
      | no t ↦
          rw (merge_after-apart s b c n (rw h t))
            (zs ++ (b, k) ∷ (c, l) ∷ ys, v, λ i. ((λ f. f), (λ f. f)))
    ]

merge_before-touch :
    (s : Pmm) (a b : ℕ)
    → s.links.prev (page_link b) ≡ page_link a
    → a + (s.pages a).property ≡ b
    → merge_before s b ≡ (absorb s a b, a)
unfolding merge_before
merge_before-touch s a b n e =
    rw (n, link-ne-list a, pred_suc a, (==_iff (a + (s.pages a).property) b).1 e)

merge_before-apart :
    (s : Pmm) (a b : ℕ)
    → s.links.prev (page_link b) ≡ page_link a
    → a + (s.pages a).property ≢ b
    → merge_before s b ≡ (s, b)
unfolding merge_before
merge_before-apart s a b n e =
    rw (n, link-ne-list a, pred_suc a, ==_of_ne (a + (s.pages a).property) b e)

merge_before-start :
    (s : Pmm) (b : ℕ) → s.links.prev (page_link b) ≡ free_list → merge_before s b ≡ (s, b)
unfolding merge_before
merge_before-start s b n = rw n

last-entry : (zs : List Block) (z : Block) → last free_list (map entry (zs ++ z ∷ [])) ≡ entry z
last-entry zs z = rw (map-append entry zs (z ∷ [])) (last-append free_list (entry z) (map entry zs))

before_one :
    (s : Pmm) (zs ys : List Block) (a j b k : ℕ)
    → Manages s (zs ++ (a, j) ∷ (b, k) ∷ ys)
    → s.links.prev (page_link b) ≡ page_link a
    → let (s', b') = merge_before s b in Merged s' (zs ++ (a, j) ∷ (b, k) ∷ ys) ys b'
before_one s zs ys a j b k v n =
    let h = head_of s zs ((b, k) ∷ ys) (a, j) v in
    elim (ℕ_discrete (a + j) b) [
      | yes t ↦ rw (merge_before-touch s a b n (rw h t)) (record {
        zs = zs;
        size = j + k;
        manages = absorb-Manages s zs ys a j b k v t;
        same = λ i. join-IsFree i zs ys a j b k t;
      })
      | no t ↦ rw (merge_before-apart s a b n (rw h t)) (record {
        zs = zs ++ (a, j) ∷ [];
        size = k;
        manages = rw (append_assoc zs ((a, j) ∷ []) ((b, k) ∷ ys)) v;
        same = λ i. rw (append_assoc zs ((a, j) ∷ []) ((b, k) ∷ ys)) ((λ f. f), (λ f. f));
      })
    ]

-- A block is merged with the block before it if they touch.
pub merge_before-Merged :
    (s : Pmm) (xs ys : List Block) (b k : ℕ)
    → Manages s (xs ++ (b, k) ∷ ys)
    → let (s', b') = merge_before s b in Merged s' (xs ++ (b, k) ∷ ys) ys b'
merge_before-Merged s xs ys b k v = by_last xs (Snoc-cases xs) v
  where
    by_last :
        (ws : List Block)
        → Snoc ws
        → Manages s (ws ++ (b, k) ∷ ys)
        → let (s', b') = merge_before s b in Merged s' (ws ++ (b, k) ∷ ys) ys b'
    by_last _ empty w =
        rw (merge_before-start s b (around s [] ys (b, k) w).0) (unmerged s [] ys b k w)
    by_last _ (snoc zs (a, j) ws e) w =
        let d =
          ap (λ (us : List Block). us ++ (b, k) ∷ ys) e
          ∙ append_assoc zs ((a, j) ∷ []) ((b, k) ∷ ys) in
        rw d (
          before_one s zs ys a j b k (rw (← d) w)
            ((around s ws ys (b, k) w).0 ∙ rw e (last-entry zs (a, j))))
