-- ===== src/Vmm/Areas.antt =====
-- What the areas of a process are: not empty, apart, and in the order of their addresses.
use nk_os_team.Prelude.{
  ℕ, ◌≤◌, ◌<◌, ◌≡◌, sym, ◌∙◌, ◌↔◌, ◌⊎◌, inl, inr, true, Option, none, some, List, [], ◌∷◌, arith,
}
use nk_os_team.Vmm.{Vma, Mm, in_area}

-- The areas lie at `lo` or above.
abbrev pub IsAreas : ℕ → List Vma → Type 0
IsAreas lo [] = Unit {0}
IsAreas lo (v ∷ vs) = (lo ≤ v.vm_start) × (v.vm_start < v.vm_end) × IsAreas v.vm_end vs

abbrev pub Has : Vma → List Vma → Type 0
Has v [] = ⊥
Has v (x ∷ xs) = (v ≡ x) ⊎ Has v xs

abbrev pub Contains : Vma → ℕ → Type 0
Contains v a = (v.vm_start ≤ a) × (a < v.vm_end)

abbrev pub Overlaps : Vma → Vma → Type 0
Overlaps v x = (v.vm_start < x.vm_end) × (x.vm_start < v.vm_end)

-- The cache holds an area of the list.
abbrev pub IsCached : Option Vma → List Vma → Type 0
IsCached none vs = Unit {0}
IsCached (some v) vs = Has v vs

pub record IsMm (mm : Mm) : Type 0 where
  pub areas : IsAreas 0 mm.mmap_list
  pub cache : IsCached mm.mmap_cache mm.mmap_list

pub IsAreas-above : (lo : ℕ) (vs : List Vma) (v : Vma) → IsAreas lo vs → Has v vs → lo ≤ v.vm_start
IsAreas-above lo [] v s h = absurd h
IsAreas-above lo (x ∷ xs) v s (inl e) = rw e (s.0)
IsAreas-above lo (x ∷ xs) v s (inr h) = omega (arith, s.0, s.1, IsAreas-above x.vm_end xs v s.2 h)

IsAreas-mono : (lo hi : ℕ) (vs : List Vma) → lo ≤ hi → IsAreas hi vs → IsAreas lo vs
IsAreas-mono lo hi [] h s = tt
IsAreas-mono lo hi (v ∷ vs) h s = (omega (arith, s.0), s.1, s.2)

-- No address is in two areas.
pub Contains-unique :
    (lo : ℕ) (vs : List Vma) (v w : Vma) (a : ℕ)
    → IsAreas lo vs
    → Has v vs
    → Has w vs
    → Contains v a
    → Contains w a
    → v ≡ w
Contains-unique lo [] v w a s h k c d = absurd h
Contains-unique lo (x ∷ xs) v w a s (inl e) (inl f) c d = e ∙ sym f
Contains-unique lo (x ∷ xs) v w a s (inl e) (inr k) c d =
    let c' : Contains x a = rw (← e) c in
    absurd (omega (arith, c'.1, d.0, IsAreas-above x.vm_end xs w s.2 k))
Contains-unique lo (x ∷ xs) v w a s (inr h) (inl f) c d =
    let d' : Contains x a = rw (← f) d in
    absurd (omega (arith, d'.1, c.0, IsAreas-above x.vm_end xs v s.2 h))
Contains-unique lo (x ∷ xs) v w a s (inr h) (inr k) c d =
    Contains-unique x.vm_end xs v w a s.2 h k c d

pub in_area_iff : (v : Vma) (a : ℕ) → (in_area v a ≡ true) ↔ Contains v a
in_area_iff v a = (λ e. (ground arith, ground arith), λ c. ground (arith, c))
