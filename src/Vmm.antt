-- ===== src/Vmm.antt =====
-- kern/mm/vmm.c: the areas of virtual memory of a process. `mmap_list` is a list, and an area does
-- not change once it is in it, so `mmap_cache` holds the area and not its address. Addresses are
-- below 2 ^ 64. `none` is a failed `assert` or a loop without fuel; an error number is 0 for
-- success.
pub mod Areas
pub mod Find
pub mod Insert
pub mod Access
pub mod Copy
mod Tests
use nk_os_team.Prelude.{
  ℕ, zero, suc, ◌+◌, ◌-◌, ◌/◌, ◌%◌, ◌^◌, Bool, true, false, not, ◌&&◌, Option, none, some, List, [],
  ◌∷◌, ltb, leb, ◌==◌, if◌then◌else◌, ◌>>=◌,
}
use nk_os_team.Bytes.{strnlen, memcpy}

pub record Vma : Type 0 where
  pub vm_start : ℕ
  pub vm_end : ℕ
  pub vm_flags : ℕ

pub record Mm : Type 0 where
  pub mmap_list : List Vma
  pub mmap_cache : Option Vma
  pub map_count : ℕ
  pub mm_count : ℕ

abbrev pub pgsize : ℕ
pgsize = 4096

-- `ROUNDDOWN` and `ROUNDUP` to pages
abbrev pub rounddown : ℕ → ℕ
rounddown a = a - a % pgsize

abbrev pub roundup : ℕ → ℕ
roundup a = rounddown ((a + pgsize - 1) % 2 ^ 64)

-- `USER_ACCESS`, from `USERBASE` to `USERTOP`
abbrev pub user_access : (start end : ℕ) → Bool
user_access s e = leb 0x200000 s && (ltb s e && leb e 0x80000000)

-- `KERN_ACCESS`, from `KERNBASE` to `KERNTOP`
abbrev pub kern_access : (start end : ℕ) → Bool
kern_access s e = leb 0xFFFFFFFFC0200000 s && (ltb s e && leb e 0xFFFFFFFFC8000000)

-- `vm_flags` has `VM_READ`, `VM_WRITE` or `VM_STACK`.
abbrev pub vm_read : ℕ → Bool
vm_read flags = flags % 2 == 1

abbrev pub vm_write : ℕ → Bool
vm_write flags = flags / 2 % 2 == 1

abbrev pub vm_stack : ℕ → Bool
vm_stack flags = flags / 8 % 2 == 1

-- `kmalloc` gives the struct or not.
abbrev pub mm_create : (got : Bool) → Option Mm
mm_create got =
    if got
    then some (record { mmap_list = []; mmap_cache = none; map_count = 0; mm_count = 0 })
    else none

abbrev pub vma_create : (got : Bool) → (vm_start vm_end vm_flags : ℕ) → Option Vma
vma_create got s e f =
    if got then some (record { vm_start = s; vm_end = e; vm_flags = f }) else none

abbrev pub in_area : Vma → ℕ → Bool
in_area v addr = leb v.vm_start addr && ltb addr v.vm_end

-- The search of `find_vma` along the list.
unfoldable pub find_in : List Vma → ℕ → Option Vma
find_in [] addr = none
find_in (v ∷ vs) addr = if in_area v addr then some v else find_in vs addr

abbrev pub cached : Option Vma → ℕ → Option Vma
cached none addr = none
cached (some v) addr = if in_area v addr then some v else none

abbrev pub remember : Mm → Option Vma → Mm × Option Vma
remember mm none = (mm, none)
remember mm (some v) = (record mm { mmap_cache = some v }, some v)

abbrev pub look_up : Mm → ℕ → Option Vma → Mm × Option Vma
look_up mm addr none = remember mm (find_in mm.mmap_list addr)
look_up mm addr (some v) = remember mm (some v)

unfoldable pub find_vma : Mm → ℕ → Mm × Option Vma
find_vma mm addr = look_up mm addr (cached mm.mmap_cache addr)

-- The three asserts.
abbrev pub check_vma_overlap : (prev next : Vma) → Bool
check_vma_overlap p n =
    ltb p.vm_start p.vm_end && (leb p.vm_end n.vm_start && ltb n.vm_start n.vm_end)

abbrev pub check_prev : Option Vma → Vma → Bool
check_prev none v = true
check_prev (some p) v = check_vma_overlap p v

-- The loop and the insertion, with the area before the rest of the list.
unfoldable pub insert_after : Option Vma → List Vma → Vma → Option (List Vma)
insert_after p [] v = if check_prev p v then some (v ∷ []) else none
insert_after p (x ∷ xs) v =
    let rest = insert_after (some x) xs v >>= λ ys. some (x ∷ ys) in
    if ltb v.vm_start x.vm_start
    then (if check_prev p v && check_vma_overlap v x then some (v ∷ x ∷ xs) else none)
    else rest

unfoldable pub insert_vma_struct : Mm → Vma → Option Mm
insert_vma_struct mm v =
    if ltb v.vm_start v.vm_end
    then (do
      ys ← insert_after none mm.mmap_list v
      some (record mm { mmap_list = ys; map_count = mm.map_count + 1 }))
    else none

abbrev pub e_inval : ℕ
e_inval = 3

abbrev pub e_no_mem : ℕ
e_no_mem = 4

abbrev pub map_new : Mm → Option Vma → Option (Mm × ℕ)
map_new mm none = some (mm, e_no_mem)
map_new mm (some v) = do mm' ← insert_vma_struct mm v; some (mm', 0)

-- An area that is found reaches past `start`, so that it begins before `end`.
abbrev pub map_found : Mm → (got : Bool) → (start end flags : ℕ) → Option Vma → Option (Mm × ℕ)
map_found mm got s e flags none = map_new mm (vma_create got s e flags)
map_found mm got s e flags (some v) =
    if ltb v.vm_start e then some (mm, e_inval) else map_new mm (vma_create got s e flags)

unfoldable pub mm_map : Mm → (got : Bool) → (addr len vm_flags : ℕ) → Option (Mm × ℕ)
mm_map mm got addr len flags =
    let s = rounddown addr in
    let e = roundup ((addr + len) % 2 ^ 64) in
    if user_access s e
    then (let (mm', v) = find_vma mm s in map_found mm' got s e flags v)
    else some (mm, e_inval)

-- What one round of `user_mem_check` asks of the area at `start`.
abbrev pub permits : Vma → (write : Bool) → (start : ℕ) → Bool
permits v write s =
    (if write then vm_write v.vm_flags else vm_read v.vm_flags)
    && not (write && (vm_stack v.vm_flags && ltb s (v.vm_start + pgsize)))

unfoldable pub check_range : ℕ → Mm → (write : Bool) → (start end : ℕ) → Option (Mm × Bool)
check_range zero mm write s e = none
check_range (suc fuel) mm write s e = elim (ltb s e) [
  | false ↦ some (mm, true)
  | true ↦
      let (mm', found) = find_vma mm s in
      elim found [
        | none ↦ some (mm', false)
        | some v ↦ elim (not (ltb s v.vm_start) && permits v write s) [
          | false ↦ some (mm', false)
          | true ↦ check_range fuel mm' write v.vm_end e
        ]
      ]
]

unfoldable pub user_mem_check : ℕ → Mm → (addr len : ℕ) → (write : Bool) → Option (Mm × Bool)
user_mem_check fuel mm addr len write =
    let e = (addr + len) % 2 ^ 64 in
    if user_access addr e then check_range fuel mm write addr e else some (mm, false)

-- A thread of the kernel has no areas.
abbrev pub kernel_mem_check : (addr len : ℕ) → Bool
kernel_mem_check addr len = kern_access addr ((addr + len) % 2 ^ 64)

abbrev pub copy_if : (ℕ → ℕ) → (dst src len : ℕ) → Mm × Bool → Mm × (ℕ → ℕ) × Bool
copy_if m dst src len (mm, true) = (mm, memcpy m dst src len, true)
copy_if m dst src len (mm, false) = (mm, m, false)

unfoldable pub copy_from_user :
    ℕ → Mm → (ℕ → ℕ) → (dst src len : ℕ) → (writable : Bool) → Option (Mm × (ℕ → ℕ) × Bool)
copy_from_user fuel mm m dst src len writable = do
  r ← user_mem_check fuel mm src len writable
  some (copy_if m dst src len r)

unfoldable pub copy_to_user : ℕ → Mm → (ℕ → ℕ) → (dst src len : ℕ) → Option (Mm × (ℕ → ℕ) × Bool)
copy_to_user fuel mm m dst src len = do
  r ← user_mem_check fuel mm dst len true
  some (copy_if m dst src len r)

-- The loop of `copy_string`. Memory is that of user and kernel.
unfoldable pub copy_parts :
    ℕ → (ℕ → ℕ) → Mm → (dst src maxn part : ℕ) → Option (Mm × (ℕ → ℕ) × Bool)
copy_parts zero m mm dst src maxn part = none
copy_parts (suc fuel) m mm dst src maxn want =
    let part = if ltb maxn want then maxn else want in
    let alen = strnlen part m src in
    user_mem_check (pgsize + 1) mm src part false >>= λ r. elim r.1 [
      | false ↦ some (r.0, m, false)
      | true ↦ elim (ltb alen part) [
        | true ↦ some (r.0, memcpy m dst src (alen + 1), true)
        | false ↦ elim (part == maxn) [
          | true ↦ some (r.0, m, false)
          | false ↦
              copy_parts fuel (memcpy m dst src part) r.0 (dst + part) (src + part) (maxn - part)
                pgsize
        ]
      ]
    ]

unfoldable pub copy_string : ℕ → (ℕ → ℕ) → Mm → (dst src maxn : ℕ) → Option (Mm × (ℕ → ℕ) × Bool)
unfolding copy_parts
copy_string fuel m mm dst src maxn =
    copy_parts fuel m mm dst src maxn (rounddown ((src + pgsize) % 2 ^ 64) - src)

-- The page tables that areas are copied between, unmapped and freed in.
pub record PageTables (S : Type 0) : Type 0 where
  pub copy_range : S → (vm_start vm_end : ℕ) → S × ℕ
  pub unmap_range : S → (vm_start vm_end : ℕ) → S
  pub exit_range : S → (vm_start vm_end : ℕ) → S

module _ {S : Type 0} (T : PageTables S) where
  abbrev pub dup_one : S → Mm → Option Vma → Option (S × Mm × ℕ)
  dup_one s to none = some (s, to, e_no_mem)
  dup_one s to (some v) = do
    to' ← insert_vma_struct to v
    let r = T.copy_range s v.vm_start v.vm_end
    some (r.0, to', if r.1 == 0 then 0 else e_no_mem)

  -- The loop over the areas from the last to the first. `got` says which allocations succeed.
  unfoldable pub dup_areas : S → Mm → (got : ℕ → Bool) → List Vma → Option (S × Mm × ℕ)
  dup_areas s to got [] = some (s, to, 0)
  dup_areas s to got (v ∷ vs) = dup_areas s to got vs >>= λ r. elim (r.2 == 0) [
    | false ↦ some r
    | true ↦ dup_one r.0 r.1 (vma_create (got (r.1.map_count)) v.vm_start v.vm_end v.vm_flags)
  ]

  unfoldable pub dup_mmap : S → (to from : Mm) → (got : ℕ → Bool) → Option (S × Mm × ℕ)
  unfolding dup_areas
  dup_mmap s to from got = dup_areas s to got from.mmap_list

  abbrev pub each_area : (S → ℕ → ℕ → S) → List Vma → S → S
  each_area f [] s = s
  each_area f (v ∷ vs) s = each_area f vs (f s v.vm_start v.vm_end)

  unfoldable pub exit_mmap : S → Mm → Option S
  exit_mmap s mm =
      if mm.mm_count == 0
      then some (each_area T.exit_range mm.mmap_list (each_area T.unmap_range mm.mmap_list s))
      else none
