-- ===== src/Vmm/Find.antt =====
-- `find_vma`: the area of an address, with or without the cache.
use nk_os_team.Prelude.{
  ℕ, ◌≡◌, refl, sym, ◌∙◌, inl, inr, false, Option, none, some, List, [], ◌∷◌, arith, Bool-cases,
}
use nk_os_team.Vmm.{Vma, Mm, in_area, find_in, cached, remember, look_up, find_vma}
use nk_os_team.Vmm.Areas.{Has, Contains, IsCached, IsMm, in_area_iff}

-- What a search for `a` among `vs` gives.
abbrev pub Finds : List Vma → ℕ → Option Vma → Type 0
Finds vs a none = (v : Vma) → Has v vs → ¬ Contains v a
Finds vs a (some v) = Has v vs × Contains v a

find_in-further :
    (v : Vma) (vs : List Vma) (a : ℕ) (o : Option Vma)
    → in_area v a ≡ false
    → Finds vs a o
    → Finds (v ∷ vs) a o
find_in-further v vs a none e f = λ w h c. elim h [
  | inl k ↦ let c' : Contains v a = rw (← k) c in cc (sym e ∙ (in_area_iff v a).1 c')
  | inr k ↦ f w k c
]
find_in-further v vs a (some w) e f = (inr f.0, f.1)

find_in-Finds : (vs : List Vma) (a : ℕ) → Finds vs a (find_in vs a)
unfolding find_in
find_in-Finds [] a = λ v h c. h
find_in-Finds (v ∷ vs) a = elim (Bool-cases (in_area v a)) [
  | inl e ↦ rw e (inl refl, (in_area_iff v a).0 e)
  | inr e ↦ rw e (find_in-further v vs a (find_in vs a) e (find_in-Finds vs a))
]

-- The area that is found, and the state with it in the cache.
pub record Found (mm mm' : Mm) (a : ℕ) (o : Option Vma) : Type 0 where
  pub finds : Finds mm.mmap_list a o
  pub same : mm'.mmap_list ≡ mm.mmap_list
  pub count : mm'.map_count ≡ mm.map_count
  pub cache : IsCached mm'.mmap_cache mm.mmap_list

remember-Found :
    (mm : Mm) (a : ℕ) (o : Option Vma)
    → IsCached mm.mmap_cache mm.mmap_list
    → Finds mm.mmap_list a o
    → Found mm (remember mm o).0 a (remember mm o).1
remember-Found mm a none c f = record { finds = f; same = refl; count = refl; cache = c }
remember-Found mm a (some v) c f = record { finds = f; same = refl; count = refl; cache = f.0 }

cached-Finds :
    (o : Option Vma) (vs : List Vma) (a : ℕ) (v : Vma)
    → IsCached o vs
    → cached o a ≡ some v
    → Finds vs a (some v)
cached-Finds none vs a v c e = cc e
cached-Finds (some w) vs a v c e = elim (Bool-cases (in_area w a)) [
  | inl i ↦ let k : w ≡ v = ground (arith, e) in rw (← k) (c, (in_area_iff w a).0 i)
  | inr i ↦ absurd (ground (arith, e))
]

-- `find_vma` gives the area that contains the address, if there is one, and the cache holds an area
-- of the list again, which is the same list.
pub find_vma_lem : (mm : Mm) (a : ℕ) → IsMm mm → Found mm (find_vma mm a).0 a (find_vma mm a).1
unfolding find_vma
find_vma_lem mm a v =
    by_cache (cached mm.mmap_cache a) (λ w e. cached-Finds mm.mmap_cache mm.mmap_list a w v.cache e)
  where
    by_cache :
        (o : Option Vma)
        → ((w : Vma) → o ≡ some w → Finds mm.mmap_list a (some w))
        → Found mm (look_up mm a o).0 a (look_up mm a o).1
    by_cache none h =
        remember-Found mm a (find_in mm.mmap_list a) v.cache (find_in-Finds mm.mmap_list a)
    by_cache (some w) h = remember-Found mm a (some w) v.cache (h w refl)

pub Found-IsMm : (mm mm' : Mm) (a : ℕ) (o : Option Vma) → IsMm mm → Found mm mm' a o → IsMm mm'
Found-IsMm mm mm' a o v f = record { areas = rw f.same v.areas; cache = rw f.same f.cache }
