-- ===== src/Vmm/Access.antt =====
-- `user_mem_check`: a range is granted exactly when each of its addresses may be accessed.
use mathlib.Core.Path.{subst}
use nk_os_team.Prelude.{
  ℕ, zero, suc, ◌+◌, ◌-◌, ◌%◌, ◌^◌, ◌≤◌, ◌<◌, ◌≡◌, refl, sym, ◌∙◌, inl, inr, Bool, true, false, not,
  ◌&&◌, Option, none, some, List, arith, ltb, if◌then◌else◌, ltb→lt, Bool-cases,
}
use nk_os_team.Vmm.{
  Vma, Mm, permits, pgsize, vm_read, vm_write, vm_stack, find_vma, check_range, user_mem_check,
  user_access,
}
use nk_os_team.Vmm.Areas.{IsAreas, Has, Contains, IsMm, Contains-unique}
use nk_os_team.Vmm.Find.{Found, find_vma_lem, Found-IsMm}

-- The address is in an area with the flag for the access, and, to be written in a stack, not in the
-- stack's first page.
pub record IsAllowed (vs : List Vma) (write : Bool) (a : ℕ) : Type 0 where
  pub area : Vma
  pub has : Has area vs
  pub contains : Contains area a
  pub flag : (if write then vm_write area.vm_flags else vm_read area.vm_flags) ≡ true
  pub above : write ≡ true → vm_stack area.vm_flags ≡ true → area.vm_start + pgsize ≤ a

abbrev pub AllAllowed : List Vma → Bool → (start end : ℕ) → Type 0
AllAllowed vs write s e = (a : ℕ) → s ≤ a → a < e → IsAllowed vs write a

flag_of : (f w k b : Bool) → (f && not (w && (k && b))) ≡ true → f ≡ true
flag_of true w k b e = refl
flag_of false w k b e = e

guard_of : (f w k b : Bool) → (f && not (w && (k && b))) ≡ true → w ≡ true → k ≡ true → b ≡ false
guard_of true true true false e a c = refl
guard_of true true true true e a c = sym e
guard_of true true false b e a c = cc c
guard_of true false k b e a c = cc a
guard_of false w k b e a c = cc e

both :
    (f w k b : Bool)
    → f ≡ true
    → (w ≡ true → k ≡ true → b ≡ false)
    → (f && not (w && (k && b))) ≡ true
both true false k b e g = refl
both true true false b e g = refl
both true true true false e g = refl
both true true true true e g = sym (g refl refl)
both false w k b e g = e

abbrev flag : Vma → Bool → Bool
flag v write = if write then vm_write v.vm_flags else vm_read v.vm_flags

permits-IsAllowed :
    (vs : List Vma) (v : Vma) (write : Bool) (s a : ℕ)
    → Has v vs
    → Contains v s
    → permits v write s ≡ true
    → s ≤ a
    → a < v.vm_end
    → IsAllowed vs write a
permits-IsAllowed vs v write s a h c p l u = record {
  area = v;
  has = h;
  contains = (omega (arith, c.0), u);
  flag = flag_of (flag v write) write (vm_stack v.vm_flags) (ltb s (v.vm_start + pgsize)) p;
  above = λ w k.
      let t =
        guard_of (flag v write) write (vm_stack v.vm_flags) (ltb s (v.vm_start + pgsize)) p w k in
      ground (arith, t);
}

same-permits :
    (v : Vma) (write : Bool) (a : ℕ)
    → flag v write ≡ true
    → (write ≡ true → vm_stack v.vm_flags ≡ true → v.vm_start + pgsize ≤ a)
    → permits v write a ≡ true
same-permits v write a f g =
    both (flag v write) write (vm_stack v.vm_flags) (ltb a (v.vm_start + pgsize)) f
      (λ w k. let l = g w k in ground (arith, l))

IsAllowed-permits :
    (vs : List Vma) (v : Vma) (write : Bool) (a : ℕ)
    → IsAreas 0 vs
    → Has v vs
    → Contains v a
    → IsAllowed vs write a
    → permits v write a ≡ true
IsAllowed-permits vs v write a s h c d =
    subst (λ w. permits w write a ≡ true) (Contains-unique 0 vs d.area v a s d.has h d.contains c)
      (same-permits d.area write a d.flag d.above)

-- What `user_mem_check` answers for a range.
pub data Checked (mm : Mm) (write : Bool) (s e : ℕ) (r : Option (Mm × Bool)) : Type 0 where
  granted :
      (mm' : Mm)
      → r ≡ some (mm', true)
      → IsMm mm'
      → mm'.mmap_list ≡ mm.mmap_list
      → AllAllowed mm.mmap_list write s e
      → Checked mm write s e r
  denied :
      (mm' : Mm) (a : ℕ)
      → r ≡ some (mm', false)
      → IsMm mm'
      → mm'.mmap_list ≡ mm.mmap_list
      → s ≤ a
      → a < e
      → ¬ IsAllowed mm.mmap_list write a
      → Checked mm write s e r

-- The part of the range in the area at `s` is granted, and the rest is checked from `end` on.
onward :
    (mm mm' : Mm) (write : Bool) (s end e : ℕ) (r : Option (Mm × Bool))
    → mm'.mmap_list ≡ mm.mmap_list
    → s < end
    → ((a : ℕ) → s ≤ a → a < end → IsAllowed mm.mmap_list write a)
    → Checked mm' write end e r
    → Checked mm write s e r
onward mm mm' write s end e r q l f (granted mm'' d v q' g) = granted mm'' d v (q' ∙ q) (λ a h u.
    elim (Bool-cases (ltb a end)) [
      | inl t ↦ f a h (ltb→lt a end t)
      | inr t ↦ subst (λ vs. IsAllowed vs write a) q (g a (ground (arith, t)) u)
    ])
onward mm mm' write s end e r q l f (denied mm'' a d v q' h u n) =
    denied mm'' a d v (q' ∙ q) (omega arith) u
      (λ k. n (subst (λ vs. IsAllowed vs write a) (sym q) k))

not-behind : (v : Vma) (s : ℕ) → Contains v s → ltb s v.vm_start ≡ false
not-behind v s c = ground (arith, c.0)

check_range-Checked :
    (fuel : ℕ) (mm : Mm) (write : Bool) (s e : ℕ)
    → IsMm mm
    → e - s < fuel
    → Checked mm write s e (check_range fuel mm write s e)
unfolding check_range
check_range-Checked zero mm write s e k h = absurd (omega arith)
check_range-Checked (suc fuel) mm write s e k h = elim (Bool-cases (ltb s e)) [
  | inr t ↦ rw (check_range, t) (granted mm refl k refl (λ a l u. absurd (ground (arith, t))))
  | inl t ↦
      rw (check_range, t)
        (by_found (ltb→lt s e t) (find_vma mm s).0 (find_vma mm s).1 (find_vma_lem mm s k)
          (λ mm' v i l. check_range-Checked fuel mm' write v e i (omega (arith, ltb→lt s e t))))
]
  where
    by_found :
        s < e
        → (mm' : Mm) (o : Option Vma) → Found mm mm' s o
        → ((mm' : Mm) (v : ℕ)
            → IsMm mm'
            → s < v
            → Checked mm' write v e (check_range fuel mm' write v e))
        → Checked mm write s e (elim o [
          | none ↦ some (mm', false)
          | some v ↦ elim (not (ltb s v.vm_start) && permits v write s) [
            | false ↦ some (mm', false)
            | true ↦ check_range fuel mm' write v.vm_end e
          ]
        ])
    by_found l mm' none f ih =
        denied mm' s refl (Found-IsMm mm mm' s none k f) f.same (omega arith) l
          (λ d. f.finds d.area d.has d.contains)
    by_found l mm' (some v) f ih = elim (Bool-cases (permits v write s)) [
      | inl p ↦
          rw (not-behind v s f.finds.1, p)
            (onward mm mm' write s v.vm_end e (check_range fuel mm' write v.vm_end e) f.same
              f.finds.1.1
              (λ a h u. permits-IsAllowed mm.mmap_list v write s a f.finds.0 f.finds.1 p h u)
              (ih mm' v.vm_end (Found-IsMm mm mm' s (some v) k f) f.finds.1.1))
      | inr p ↦
          rw (not-behind v s f.finds.1, p)
            (denied mm' s refl (Found-IsMm mm mm' s (some v) k f) f.same (omega arith) l (λ d.
              cc (sym p ∙ IsAllowed-permits mm.mmap_list v write s k.areas f.finds.0 f.finds.1 d)))
    ]

-- `user_mem_check` of a range that a process may have, with fuel for one round more than it has
-- addresses, ends. It grants the access if every address of the range may be accessed, and denies it
-- if one may not. The areas stay.
pub user_mem_check_lem :
    (fuel : ℕ) (mm : Mm) (addr len : ℕ) (write : Bool)
    → IsMm mm
    → user_access addr (addr + len) ≡ true
    → len < fuel
    → Checked mm write addr (addr + len) (user_mem_check fuel mm addr len write)
unfolding user_mem_check
user_mem_check_lem fuel mm addr len write k u h =
    let e : (addr + len) % 2 ^ 64 ≡ addr + len = ground (arith, u) in
    rw (e, u) (check_range-Checked fuel mm write addr (addr + len) k (omega arith))
