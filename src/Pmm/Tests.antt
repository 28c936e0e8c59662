-- ===== src/Pmm/Tests.antt =====
-- Runs of the page allocator on a small memory, and the theorems at it.
use nk_os_team.Prelude.{
  ◌>>=◌, ℕ, ◌≡◌, refl, ◌↔◌, ◌⊎◌, Bool, true, false, Option, none, some, List, [], ◌∷◌, arith, ◌==◌,
  if◌then◌else◌,
}
use nk_os_team.Links.{Links, list_init, list_add, list_add_before, list_del}
use nk_os_team.Links.Ring.{list_init-IsRing, list_add_after-IsRing}
use nk_os_team.Pmm.{
  Pmm, blank, default_alloc_pages, default_free_pages, take_block, absorb, link_block, ◌>>=◌,
}
use nk_os_team.Pmm.Blocks.{Block, Manages, IsFree, first_fit}
use nk_os_team.Pmm.FirstFit.{default_alloc_pages_lem, alloc_partition, left, Taken}
use nk_os_team.Pmm.Alloc.{found}
use nk_os_team.Pmm.Free.{Gap, default_free_pages_lem}
use nk_os_team.Pmm.Tail.{IsStuck, link_block_behind}

-- All pages are reserved, and none is free.
abbrev reserved_all : Pmm
reserved_all = record {
  pages = λ p. record blank { reserved = true };
  links = list_init (record { prev = λ e. e; next = λ e. e }) 0;
  nr_free = 0;
}

-- The pages 4 to 8 are free.
abbrev one_block : Pmm
one_block = record {
  pages = λ p. if p == 4 then record blank { is_head = true; property = 5 } else blank;
  links = list_add reserved_all.links 0 5;
  nr_free = 5;
}

reserved_all-Manages : Manages reserved_all []
reserved_all-Manages = record {
  ring = list_init-IsRing (record { prev = λ e. e; next = λ e. e }) 0;
  heads = tt;
  ordered = tt;
  count = refl;
  small = omega arith;
}

one_block-Manages : Manages one_block ((4, 5) ∷ [])
unfolding list_add
one_block-Manages = record {
  ring =
      list_add_after-IsRing reserved_all.links 0 5 [] []
        (list_init-IsRing (record { prev = λ e. e; next = λ e. e }) 0) (omega arith, tt);
  heads = ((refl, refl), tt);
  ordered = (omega arith, omega arith, tt);
  count = refl;
  small = omega arith;
}

default_alloc_pages_lem_example :
    (s' : Pmm) × (default_alloc_pages 5 one_block 2 ≡ some (s', found (first_fit 2 ((4, 5) ∷ []))))
    × Manages s' (left ((4, 5) ∷ []) (first_fit 2 ((4, 5) ∷ [])))
default_alloc_pages_lem_example =
    default_alloc_pages_lem 5 one_block 2 ((4, 5) ∷ []) one_block-Manages (omega arith)
      (omega arith)

granted_first : default_alloc_pages 5 one_block 2 ≡ some (take_block one_block 4 2, some 4)
unfolding default_alloc_pages list_add list_init
granted_first = refl

alloc_partition_example :
    (cs : List Block) × Manages (take_block one_block 4 2) cs
    × ((i : ℕ)
        → (IsFree i ((4, 5) ∷ []) ↔ (IsFree i cs ⊎ Taken i 4 2)) × (IsFree i cs → ¬ Taken i 4 2))
alloc_partition_example =
    alloc_partition 5 one_block (take_block one_block 4 2) 2 4 ((4, 5) ∷ []) one_block-Manages
      (omega arith) (omega arith) granted_first

abbrev below : Gap 1 3 [] ((4, 5) ∷ [])
below = record {
  ordered = (omega arith, omega arith, (omega arith, omega arith, tt));
  place = tt;
  small = omega arith;
}

default_free_pages_lem_example :
    (s' : Pmm) × (cs : List Block) × (default_free_pages 5 one_block 1 3 ≡ some s')
    × Manages s' cs
    × ((i : ℕ) → IsFree i cs ↔ (IsFree i ((4, 5) ∷ []) ⊎ Taken i 1 3))
default_free_pages_lem_example =
    default_free_pages_lem 5 one_block 1 3 [] ((4, 5) ∷ []) one_block-Manages below (omega arith)
      (λ i t. ground (arith, t)) (omega arith)

link_block_behind_example :
    (m' : Links) × (link_block 5 one_block.links 12 0 ≡ some m') × IsStuck m' 5 12
link_block_behind_example =
    link_block_behind 5 one_block.links 0 12 (4, 5) [] one_block-Manages.ring.links
      (omega arith, tt) (omega arith)

-- The pages 4 to 8 are free, and the pages 12 to 18 become free; then 6 pages are asked for twice.
abbrev second_grant : Option (Option ℕ)
second_grant = do
  s ← default_free_pages 5 one_block 12 7
  (s', p) ← default_alloc_pages 9 s 6
  (s'', q) ← default_alloc_pages 9 s' 6
  some (if found_at p 12 then q else none)
  where
    found_at : Option ℕ → ℕ → Bool
    found_at none z = false
    found_at (some p) z = p == z

granted_twice : second_grant ≡ some (some 12)
unfolding default_free_pages default_alloc_pages list_add list_init list_del list_add_before absorb
granted_twice = refl
