-- ===== src/Vmm/Copy.antt =====
-- `dup_mmap`: the copy has the areas of the original.
use nk_os_team.Prelude.{
  ℕ, ◌+◌, ◌<◌, ◌≡◌, refl, true, Option, some, List, [], ◌∷◌, arith, leb, lt→ltb, length,
}
use nk_os_team.Vmm.{Vma, Mm, PageTables, insert_after, insert_vma_struct, dup_areas, dup_mmap}
use nk_os_team.Vmm.Areas.{IsAreas, IsMm}

module _ {S : Type 0} (T : PageTables S) where
  -- The page tables after each area has been copied, the last first.
  abbrev pub copies : S → List Vma → S
  copies s [] = s
  copies s (v ∷ vs) = (T.copy_range (copies s vs) v.vm_start v.vm_end).0

  -- No copy of a range fails.
  abbrev pub Copyable : S → List Vma → Type 0
  Copyable s [] = Unit {0}
  Copyable s (v ∷ vs) = ((T.copy_range (copies s vs) v.vm_start v.vm_end).1 ≡ 0) × Copyable s vs

  insert-front :
      (lo : ℕ) (v : Vma) (vs : List Vma) (mm : Mm)
      → IsAreas lo (v ∷ vs)
      → mm.mmap_list ≡ vs
      → insert_vma_struct mm v
        ≡ some (record mm { mmap_list = v ∷ vs; map_count = mm.map_count + 1 })
  unfolding insert_vma_struct insert_after
  insert-front lo v [] mm s e = rw (lt→ltb v.vm_start v.vm_end s.1, e) refl
  insert-front lo v (x ∷ xs) mm s e =
      let a : v.vm_start < x.vm_start = omega (arith, s.1, s.2.0) in
      let b : leb v.vm_end x.vm_start ≡ true = ground (arith, s.2.0) in
      rw
        (
          lt→ltb v.vm_start v.vm_end s.1,
          e,
          lt→ltb v.vm_start x.vm_start a,
          lt→ltb v.vm_start v.vm_end s.1,
          b,
          lt→ltb x.vm_start x.vm_end s.2.1,
        )
        refl

  -- What the loop leaves for the areas `vs`.
  abbrev Copied : S → Mm → List Vma → Option (S × Mm × ℕ) → Type 0
  Copied s to vs r =
      (to' : Mm) × (r ≡ some (copies s vs, to', 0))
      × (to'.mmap_list ≡ vs)
      × (to'.map_count ≡ to.map_count + length vs)

  dup_areas-Copied :
      (s : S) (to : Mm) (lo : ℕ) (vs : List Vma)
      → to.mmap_list ≡ []
      → IsAreas lo vs
      → Copyable s vs
      → Copied s to vs (dup_areas T s to (λ n. true) vs)
  unfolding dup_areas
  dup_areas-Copied s to lo [] e a c = (to, refl, e, omega arith)
  dup_areas-Copied s to lo (v ∷ vs) e a c =
      let (to', d, f, n) = dup_areas-Copied s to v.vm_end vs e a.2 c.1 in
      let w : Mm = record to' { mmap_list = v ∷ vs; map_count = to'.map_count + 1 } in
      (w, rw (d, insert-front lo v vs to' a f, c.0) refl, refl, omega (arith, n))

  -- Into a process without areas, `dup_mmap` copies every area of a process and no other, in order,
  -- and the pages of each, if there is memory and no copy of a range fails.
  pub dup_mmap_lem :
      (s : S) (to from : Mm)
      → to.mmap_list ≡ []
      → IsMm from
      → Copyable s from.mmap_list
      → (to' : Mm) × (dup_mmap T s to from (λ n. true) ≡ some (copies s from.mmap_list, to', 0))
        × (to'.mmap_list ≡ from.mmap_list)
        × (to'.map_count ≡ to.map_count + length from.mmap_list)
  unfolding dup_mmap
  dup_mmap_lem s to from e v c = dup_areas-Copied s to 0 from.mmap_list e v.areas c
