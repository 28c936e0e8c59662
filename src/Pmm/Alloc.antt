-- ===== src/Pmm/Alloc.antt =====
-- `default_alloc_pages` is first fit on the blocks.
use mathlib.Core.List.{map-append}
use nk_os_team.Prelude.{
  ℕ, zero, suc, ◌+◌, ◌-◌, ◌≤◌, ◌<◌, ◌≡◌, true, false, Option, none, some, List, [], ◌∷◌, ◌++◌, map,
  arith, ltb, leb, if◌then◌else◌, lt→ltb, put, length, All, All-append, All-left, All-right,
  Fresh-append, link-ne-list, pred_suc,
}
use nk_os_team.Links.Ring.{IsRing, list_del-IsRing, list_add_after-IsRing, ring_neighbours, Seg}
use nk_os_team.Links.{Links, list_add, list_del}
use nk_os_team.Pmm.{Page, Pmm, free_list, page_link, find_fit, take_block, set_head, set_property}
use nk_os_team.Pmm.Blocks.{
  Block, Ordered, entry, IsHead, Manages, first_fit, remainder-Ordered, Ordered-tail, Ordered-long,
  IsHead-put, used_up, Fresh-before, Fresh-after, total-middle, split_off,
}

abbrev pub found : Option (ℕ × List Block) → Option ℕ
found none = none
found (some (p, cs)) = some p

choice :
    (n b k : ℕ) (bs : List Block)
    → (if leb n k then some (some b) else some (found (first_fit n bs)))
      ≡ some (found (first_fit n ((b, k) ∷ bs)))
unfolding first_fit
choice n b k bs = ground arith

pub find_fit_lem :
    (fuel : ℕ) (s : Pmm) (n le : ℕ) (bs : List Block)
    → Seg s.links le (map entry bs) free_list
    → All (IsHead s.pages) bs
    → length bs < fuel
    → find_fit fuel s n le ≡ some (found (first_fit n bs))
unfolding find_fit first_fit
find_fit_lem zero s n le bs r a h = absurd (omega arith)
find_fit_lem (suc fuel) s n le [] r a h = ground (arith, r.0)
find_fit_lem (suc fuel) s n le ((b, k) ∷ bs) r a h =
    rw
      (
        r.0,
        link-ne-list b,
        pred_suc b,
        a.0.0,
        find_fit_lem fuel s n (page_link b) bs r.2 a.1 (omega arith),
      )
      (choice n b k bs)

-- A block in the middle of the list is taken out.
block-IsRing :
    (s : Pmm) (xs ys : List Block) (b : Block)
    → Manages s (xs ++ b ∷ ys)
    → IsRing s.links free_list (map entry xs ++ entry b ∷ map entry ys)
block-IsRing s xs ys b v = rw (← map-append entry xs (b ∷ ys)) v.ring

unlinked : Pmm → ℕ → Links
unlinked s p = list_del s.links (page_link p)

-- The states after a block of exactly `n` pages, or of more, is taken.
pub whole_state : Pmm → (p n : ℕ) → Pmm
whole_state s p n = record {
  pages = put s.pages p (set_head false (s.pages p));
  links = unlinked s p;
  nr_free = s.nr_free - n;
}

rest_page : Pmm → (p n : ℕ) → Page
rest_page s p n = set_head true (set_property ((s.pages p).property - n) (s.pages (p + n)))

pub split_state : Pmm → (p n : ℕ) → Pmm
split_state s p n = record {
  pages = let ps = put s.pages (p + n) (rest_page s p n) in put ps p (set_head false (ps p));
  links = list_add (unlinked s p) (s.links.prev (page_link p)) (page_link (p + n));
  nr_free = s.nr_free - n;
}

pub take_block-whole :
    (s : Pmm) (p n : ℕ) → ltb n (s.pages p).property ≡ false → take_block s p n ≡ whole_state s p n
unfolding take_block whole_state unlinked
take_block-whole s p n e = rw (e, take_block)

pub take_block-split :
    (s : Pmm) (p n : ℕ) → ltb n (s.pages p).property ≡ true → take_block s p n ≡ split_state s p n
unfolding take_block split_state unlinked rest_page
take_block-split s p n e = rw (e, take_block)

module _ (s : Pmm) (xs ys : List Block) (p k : ℕ) (v : Manages s (xs ++ (p, k) ∷ ys)) where
  unlinked-IsRing : IsRing (unlinked s p) free_list (map entry xs ++ map entry ys)
  unfolding unlinked
  unlinked-IsRing =
      list_del-IsRing s.links free_list (page_link p) (map entry xs) (map entry ys)
        (block-IsRing s xs ys (p, k) v)

  pub this-IsHead : IsHead s.pages (p, k)
  this-IsHead = (All-right (IsHead s.pages) xs ((p, k) ∷ ys) v.heads).0

  behind : Ordered (p + k) ys
  behind = Ordered-tail 0 xs ys (p, k) v.ordered

  long : 0 < k
  long = Ordered-long 0 xs ys (p, k) v.ordered

  -- Blocks other than the one at `p` keep their heads when pages of that block change.
  other_heads :
      (ps : ℕ → Page) (z : ℕ) (w : Page)
      → p ≤ z
      → z < p + k
      → All (IsHead ps) (xs ++ ys)
      → All (IsHead (put ps z w)) (xs ++ ys)
  other_heads ps z w l h a =
      All-append (IsHead (put ps z w)) xs ys
        (IsHead-put ps z w xs (Fresh-before 0 z xs ys (p, k) v.ordered l)
          (All-left (IsHead ps) xs ys a))
        (IsHead-put ps z w ys (Fresh-after (p + k) z ys behind h) (All-right (IsHead ps) xs ys a))

  old_heads : All (IsHead s.pages) (xs ++ ys)
  old_heads =
      All-append (IsHead s.pages) xs ys (All-left (IsHead s.pages) xs ((p, k) ∷ ys) v.heads)
        (All-right (IsHead s.pages) xs ((p, k) ∷ ys) v.heads).1

  pub whole-Manages : Manages (whole_state s p k) (xs ++ ys)
  unfolding whole_state
  whole-Manages = record {
    ring = rw map-append unlinked-IsRing;
    heads = other_heads s.pages p _ (omega arith) (omega (arith, long)) old_heads;
    ordered =
        rw (← used_up k p k ys (omega arith) (ground arith))
          (remainder-Ordered k p k ys (omega arith) 0 xs v.ordered);
    count = omega (arith, v.count, total-middle xs ys (p, k));
    small = omega (arith, v.small, total-middle xs ys (p, k));
  }

  module _ (n : ℕ) (pos : 0 < n) (less : n < k) where
    split-IsRing :
        IsRing (split_state s p n).links free_list (map entry (xs ++ (p + n, k - n) ∷ ys))
    unfolding split_state list_add
    split-IsRing =
        rw
          (
            map-append,
            (ring_neighbours s.links free_list (page_link p) (map entry xs) (map entry ys)
                (block-IsRing s xs ys (p, k) v)).0,
          )
          (list_add_after-IsRing (unlinked s p) free_list (page_link (p + n)) (map entry xs)
            (map entry ys) unlinked-IsRing
            (
              omega arith,
              Fresh-append (page_link (p + n)) (map entry xs) (map entry ys)
                  (Fresh-before 0 (p + n) xs ys (p, k) v.ordered (omega arith))
                  (Fresh-after (p + k) (p + n) ys behind (omega arith)),
            ))

    split_heads : All (IsHead (split_state s p n).pages) (xs ++ (p + n, k - n) ∷ ys)
    unfolding split_state rest_page
    split_heads =
        let ps = put s.pages (p + n) (rest_page s p n) in
        let a =
          other_heads ps p (set_head false (ps p)) (omega arith) (omega (arith, long))
            (other_heads s.pages (p + n) (rest_page s p n) (omega arith) (omega arith) old_heads) in
        All-append (IsHead (split_state s p n).pages) xs ((p + n, k - n) ∷ ys)
          (All-left (IsHead (split_state s p n).pages) xs ys a)
          (ground (arith, this-IsHead), All-right (IsHead (split_state s p n).pages) xs ys a)

    pub split-Manages : Manages (split_state s p n) (xs ++ (p + n, k - n) ∷ ys)
    unfolding split_state
    split-Manages = record {
      ring = split-IsRing;
      heads = split_heads;
      ordered =
          rw (← split_off n p k ys (omega arith) (lt→ltb n k less))
            (remainder-Ordered n p k ys (omega arith) 0 xs v.ordered);
      count = omega (arith, v.count, total-middle xs ys (p, k), total-middle xs ys (p + n, k - n));
      small = omega (arith, v.small, total-middle xs ys (p, k), total-middle xs ys (p + n, k - n));
    }
