-- ===== src/Vmm/Tests.antt =====
-- A process with a code area and a stack, and the theorems at it.
use nk_os_team.Prelude.{
  ℕ, ◌+◌, ◌≡◌, refl, inl, true, false, none, some, List, [], ◌∷◌, arith, length,
}
use nk_os_team.Vmm.{
  Vma, Mm, PageTables, mm_map, user_mem_check, dup_mmap, find_vma, find_in, check_range,
  insert_vma_struct, insert_after,
}
use nk_os_team.Vmm.Areas.{IsMm}
use nk_os_team.Vmm.Access.{Checked, user_mem_check_lem}
use nk_os_team.Vmm.Copy.{copies, dup_mmap_lem}

abbrev code : Vma
code = record { vm_start = 0x800000; vm_end = 0x802000; vm_flags = 5 }

abbrev stack : Vma
stack = record { vm_start = 0x7FF00000; vm_end = 0x80000000; vm_flags = 11 }

abbrev process : Mm
process = record {
  mmap_list = code ∷ stack ∷ [];
  mmap_cache = some code;
  map_count = 2;
  mm_count = 1;
}

process-IsMm : IsMm process
process-IsMm = record {
  areas = (omega arith, omega arith, (omega arith, omega arith, tt));
  cache = inl refl;
}

-- A range that begins before the code area and reaches into it fails an assert.
range_into_code : mm_map process true 0x7FF000 0x2000 3 ≡ none
unfolding mm_map find_vma find_in insert_vma_struct insert_after
range_into_code = refl

user_mem_check_lem_example :
    Checked process false 0x800010 (0x800010 + 8) (user_mem_check 9 process 0x800010 8 false)
user_mem_check_lem_example =
    user_mem_check_lem 9 process 0x800010 8 false process-IsMm refl (omega arith)

-- The first page of the stack is not written to.
stack_guard :
    user_mem_check 9 process 0x7FF00010 8 true
    ≡ some (record process { mmap_cache = some stack }, false)
unfolding user_mem_check check_range find_vma find_in
stack_guard = refl

abbrev log : PageTables (List ℕ)
log = record { copy_range = λ s a b. (a ∷ s, 0); unmap_range = λ s a b. s; exit_range = λ s a b. s }

abbrev no_areas : Mm
no_areas = record { mmap_list = []; mmap_cache = none; map_count = 0; mm_count = 0 }

dup_mmap_lem_example :
    (to' : Mm) × (dup_mmap log [] no_areas process (λ n. true)
      ≡ some (copies log [] process.mmap_list, to', 0))
    × (to'.mmap_list ≡ process.mmap_list)
    × (to'.map_count ≡ no_areas.map_count + length process.mmap_list)
dup_mmap_lem_example = dup_mmap_lem log [] no_areas process refl process-IsMm (refl, (refl, tt))
