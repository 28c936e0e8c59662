-- ===== src/Pmm/Tail.antt =====
-- `default_free_pages` and `default_init_memmap` for a range that lies behind all the blocks.
use nk_os_team.Prelude.{
  ℕ, zero, suc, ◌+◌, ◌<◌, ◌≡◌, ◌∙◌, false, some, List, [], ◌∷◌, map, arith, ltb, link-ne-list,
  pred_suc, length, All,
}
use nk_os_team.Links.{Links, list_add, list_del}
use nk_os_team.Links.Ring.{Seg, last}
use nk_os_team.Pmm.{free_list, page_link, link_block}
use nk_os_team.Pmm.Blocks.{Block, entry}

-- The block that the loop adds, and adds a second time, after itself.
abbrev added_twice : Links → (x base : ℕ) → Links
added_twice m x base =
    list_add (list_add m (page_link x) (page_link base)) (page_link base) (page_link base)

above : (base x : ℕ) → x < base → ltb base x ≡ false
above base x h = ground arith

-- The links of `base` after the loop, and what `list_del` of it does then to the entry before.
abbrev pub IsStuck : Links → (le base : ℕ) → Type 0
IsStuck m le base =
    (m.prev (page_link base) ≡ page_link base)
    × (m.next (page_link base) ≡ free_list)
    × ((list_del m (page_link base)).next le ≡ page_link base)

twice-IsStuck :
    (m : Links) (x base : ℕ)
    → x < base
    → m.next (page_link x) ≡ free_list
    → IsStuck (added_twice m x base) (page_link x) base
unfolding list_add list_del
twice-IsStuck m x base h e = (ground arith, ground arith, ground arith)

-- The three last rounds of the loop.
last_rounds :
    (fuel : ℕ) (m : Links) (le x base : ℕ)
    → m.next le ≡ page_link x
    → m.next (page_link x) ≡ free_list
    → x < base
    → link_block (suc (suc (suc fuel))) m base le ≡ some (added_twice m x base)
unfolding link_block list_add
last_rounds fuel m le x base n e h = ground arith

further_round :
    (fuel : ℕ) (m : Links) (le base x y : ℕ)
    → m.next le ≡ page_link x
    → m.next (page_link x) ≡ page_link y
    → x < base
    → link_block (suc fuel) m base le ≡ link_block fuel m base (page_link x)
unfolding link_block
further_round fuel m le base x y n e h =
    rw (n, link-ne-list x, pred_suc x, above base x h, e, link-ne-list y)

-- If all the blocks lie before `base`, the loop of `default_init_memmap` and `default_free_pages`
-- that links `base` goes on after it has added `base` at the end, and with fuel for it adds `base`
-- once more, after itself: its `prev` is then itself, and `list_del` of it, which the allocation of
-- the block does, leaves it linked behind the last of the other blocks.
pub link_block_behind :
    (fuel : ℕ) (m : Links) (le base : ℕ) (x : Block) (xs : List Block)
    → Seg m le (map entry (x ∷ xs)) free_list
    → All (λ b. b.0 < base) (x ∷ xs)
    → 2 + length xs < fuel
    → (m' : Links) × (link_block fuel m base le ≡ some m')
      × IsStuck m' (last le (map entry (x ∷ xs))) base
link_block_behind zero m le base x xs s a h = absurd (omega arith)
link_block_behind (suc zero) m le base x [] s a h = absurd (omega arith)
link_block_behind (suc (suc zero)) m le base x [] s a h = absurd (omega arith)
link_block_behind (suc (suc (suc fuel))) m le base x [] s a h = (
  added_twice m x.0 base,
  last_rounds fuel m le x.0 base s.0 s.2.0 a.0,
  twice-IsStuck m x.0 base a.0 s.2.0,
)
link_block_behind (suc fuel) m le base x (y ∷ xs) s a h =
    let (m', e, k) = link_block_behind fuel m (page_link x.0) base y xs s.2 a.1 (omega arith) in
    (m', further_round fuel m le base x.0 y.0 s.0 s.2.0 a.0 ∙ e, k)
