-- ===== src/Pmm.antt =====
-- kern/mm/default_pmm.c: the first-fit page allocator, with `struct Page` of kern/mm/memlayout.h.
-- A page is its index in `pages`; its `page_link` is the address after it, and address 0 is
-- `free_list`. `property` and `nr_free` are of type `unsigned int`. `none` is a failed `assert` or
-- a loop that uses up its fuel.
pub mod Blocks
pub mod Alloc
pub mod FirstFit
pub mod Merge
pub mod Neighbours
pub mod Place
pub mod Free
pub mod Tail
mod Tests
use nk_os_team.Prelude.{
  ◌>>=◌, ℕ, zero, suc, ◌+◌, ◌-◌, ◌%◌, ◌^◌, Bool, true, false, not, ◌&&◌, Option, none, some, ltb,
  leb, ◌==◌, if◌then◌else◌, put,
}
use nk_os_team.Links.{
  Links, list_init, list_add, list_add_before, list_del, list_empty, list_next, list_prev,
}

-- Of `flags` the bits `PG_reserved` and `PG_property` are used.
pub record Page : Type 0 where
  pub ref : ℕ
  pub reserved : Bool
  pub is_head : Bool
  pub property : ℕ

-- `pages` and `free_area`
pub record Pmm : Type 0 where
  pub pages : ℕ → Page
  pub links : Links
  pub nr_free : ℕ

abbrev pub free_list : ℕ
free_list = 0

abbrev pub page_link : ℕ → ℕ
page_link p = suc p

abbrev pub le2page : ℕ → ℕ
le2page le = le - 1

abbrev pub with_page : Pmm → ℕ → (Page → Page) → Pmm
with_page s p f = record s { pages = put s.pages p (f (s.pages p)) }

-- `SetPageProperty` and `ClearPageProperty`
abbrev pub set_head : Bool → Page → Page
set_head b p = record p { is_head = b }

abbrev pub set_property : ℕ → Page → Page
set_property n p = record p { property = n }

unfoldable pub default_init : Pmm → Pmm
unfolding list_init
default_init s = record s { links = list_init s.links free_list; nr_free = 0 }

-- The loop over the pages from `p` on: each is asserted, then cleared.
unfoldable pub clear_pages : (Page → Bool) → (Page → Page) → ℕ → ℕ → (ℕ → Page) → Option (ℕ → Page)
clear_pages check clear zero p ps = some ps
clear_pages check clear (suc n) p ps =
    if check (ps p) then clear_pages check clear n (p + 1) (put ps p (clear (ps p))) else none

-- The search for the place of `base` after entry `le`. The source does not leave the loop when it
-- has added `base` at the end, so the next round looks at `base` itself.
unfoldable pub link_block : ℕ → Links → (base le : ℕ) → Option Links
link_block zero m base le = none
link_block (suc fuel) m base le =
    let le' = list_next m le in
    let at_end = link_block fuel (list_add m le' (page_link base)) base le' in
    let further = link_block fuel m base le' in
    if le' == free_list
    then some m
    else if ltb base (le2page le')
    then some (list_add_before m le' (page_link base))
    else if list_next m le' == free_list
    then at_end
    else further

unfoldable pub add_block : ℕ → Pmm → ℕ → Option Pmm
unfolding link_block
add_block fuel s base =
    if list_empty s.links free_list
    then some (record s { links = list_add s.links free_list (page_link base) })
    else (link_block fuel s.links base free_list >>= λ m. some (record s { links = m }))

-- `base->property = n; SetPageProperty(base); nr_free += n;`
abbrev pub make_head : Pmm → (base n : ℕ) → Pmm
make_head s base n = record (with_page s base (λ p. set_head true (set_property (n % 2 ^ 32) p))) {
  nr_free = (s.nr_free + n) % 2 ^ 32;
}

abbrev pub blank : Page
blank = record { ref = 0; reserved = false; is_head = false; property = 0 }

unfoldable pub default_init_memmap : ℕ → Pmm → (base n : ℕ) → Option Pmm
unfolding clear_pages add_block
default_init_memmap fuel s base n =
    if n == 0
    then none
    else (clear_pages (λ p. p.reserved) (λ p. blank) n base s.pages >>= λ ps.
        add_block fuel (make_head (record s { pages = ps }) base n) base)

-- The first page after entry `le` that heads a block of `n` pages or more.
unfoldable pub find_fit : ℕ → Pmm → (n le : ℕ) → Option (Option ℕ)
find_fit zero s n le = none
find_fit (suc fuel) s n le =
    let le' = list_next s.links le in
    let further = find_fit fuel s n le' in
    if le' == free_list
    then some none
    else if leb n (s.pages (le2page le')).property
    then some (some (le2page le'))
    else further

-- The remainder of a block becomes a block of its own, after entry `prev`.
abbrev pub split_block : Pmm → (page n prev : ℕ) → Pmm
split_block s page n prev =
    let s' =
      with_page s (page + n) (λ p. set_head true (set_property ((s.pages page).property - n) p)) in
    record s' { links = list_add s'.links prev (page_link (page + n)) }

unfoldable pub take_block : Pmm → (page n : ℕ) → Pmm
take_block s page n =
    let prev = list_prev s.links (page_link page) in
    let unlinked = record s { links = list_del s.links (page_link page) } in
    let s' = if ltb n (s.pages page).property then split_block unlinked page n prev else unlinked in
    with_page (record s' { nr_free = s'.nr_free - n }) page (set_head false)

-- The page that is returned, if any.
unfoldable pub default_alloc_pages : ℕ → Pmm → ℕ → Option (Pmm × Option ℕ)
unfolding find_fit take_block
default_alloc_pages fuel s n =
    if n == 0
    then none
    else if ltb s.nr_free n
    then some (s, none)
    else (find_fit fuel s n free_list >>= λ found. elim found [
      | none ↦ some (s, none)
      | some page ↦ some (take_block s page n, some page)
    ])

-- A block grows by the block behind it, which is no longer one.
unfoldable pub absorb : Pmm → (block next : ℕ) → Pmm
absorb s block next =
    let size = ((s.pages block).property + (s.pages next).property) % 2 ^ 32 in
    let s' = with_page (with_page s block (set_property size)) next (set_head false) in
    record s' { links = list_del s'.links (page_link next) }

-- The state and the head of the block that holds `base`.
unfoldable pub merge_before : Pmm → ℕ → Pmm × ℕ
merge_before s base =
    let le = list_prev s.links (page_link base) in
    let p = le2page le in
    if not (le == free_list) && p + (s.pages p).property == base
    then (absorb s p base, p)
    else (s, base)

unfoldable pub merge_after : Pmm → ℕ → Pmm
merge_after s base =
    let le = list_next s.links (page_link base) in
    let p = le2page le in
    if not (le == free_list) && base + (s.pages base).property == p then absorb s base p else s

abbrev pub uncounted : Page → Page
uncounted p = record p { ref = 0; reserved = false; is_head = false }

unfoldable pub default_free_pages : ℕ → Pmm → (base n : ℕ) → Option Pmm
unfolding clear_pages add_block merge_before merge_after
default_free_pages fuel s base n =
    if n == 0
    then none
    else (clear_pages (λ p. not p.reserved && not p.is_head) uncounted n base s.pages >>= λ ps.
        add_block fuel (make_head (record s { pages = ps }) base n) base >>= λ s'.
        let (s'', base') = merge_before s' base in some (merge_after s'' base'))

abbrev pub default_nr_free_pages : Pmm → ℕ
default_nr_free_pages s = s.nr_free
