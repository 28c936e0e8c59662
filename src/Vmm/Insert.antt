-- ===== src/Vmm/Insert.antt =====
-- `insert_vma_struct` and `mm_map`: a new area among those of the process.
use nk_os_team.Prelude.{ℕ, ◌+◌, ◌<◌, ◌≡◌, ◌↔◌, ◌⊎◌, Bool, true, false, Option, none, some, List}
use nk_os_team.Vmm.{Vma, Mm, e_inval, e_no_mem}
use nk_os_team.Vmm.Areas.{IsAreas, Has, Contains, Overlaps, IsMm}

-- The area before the rest of the list ends at `lo`, or there is none.
abbrev Ends : Option Vma → ℕ → Type 0
Ends none lo = lo ≡ 0
Ends (some p) lo = (p.vm_end ≡ lo) × (p.vm_start < p.vm_end)

-- What an insertion does: it is refused for an area that overlaps another, or puts the area in its
-- place.
pub data Inserted (lo : ℕ) (vs : List Vma) (v : Vma) (r : Option (List Vma)) : Type 0 where
  refused : (x : Vma) → Has x vs → Overlaps v x → r ≡ none → Inserted lo vs v r
  placed :
      (ys : List Vma)
      → r ≡ some ys
      → IsAreas lo ys
      → ((x : Vma) → Has x vs → ¬ Overlaps v x)
      → ((x : Vma) → Has x ys ↔ ((x ≡ v) ⊎ Has x vs))
      → Inserted lo vs v r

-- What `mm_map` does with the page range `start` to `end`; `got` tells if there is memory for the
-- `struct vma_struct`.
pub data Mapped (mm : Mm) (got : Bool) (v : Vma) (r : Option (Mm × ℕ)) : Type 0 where
  in_use :
      (mm' : Mm) (x : Vma)
      → r ≡ some (mm', e_inval)
      → IsMm mm'
      → mm'.mmap_list ≡ mm.mmap_list
      → Has x mm.mmap_list
      → Contains x v.vm_start
      → Mapped mm got v r
  no_memory :
      (mm' : Mm)
      → got ≡ false
      → r ≡ some (mm', e_no_mem)
      → IsMm mm'
      → mm'.mmap_list ≡ mm.mmap_list
      → ((x : Vma) → Has x mm.mmap_list → ¬ Contains x v.vm_start)
      → Mapped mm got v r
  asserts :
      (x : Vma)
      → got ≡ true
      → r ≡ none
      → Has x mm.mmap_list
      → Overlaps v x
      → v.vm_start < x.vm_start
      → Mapped mm got v r
  mapped :
      (mm' : Mm)
      → got ≡ true
      → r ≡ some (mm', 0)
      → IsMm mm'
      → mm'.map_count ≡ mm.map_count + 1
      → Has v mm'.mmap_list
      → ((x : Vma) → Has x mm.mmap_list → ¬ Overlaps v x)
      → ((x : Vma) → Has x mm'.mmap_list ↔ ((x ≡ v) ⊎ Has x mm.mmap_list))
      → Mapped mm got v r

abbrev with_areas : Mm → Option (List Vma) → Option (Mm × ℕ)
with_areas mm none = none
with_areas mm (some ys) = some (record mm { mmap_list = ys; map_count = mm.map_count + 1 }, 0)
