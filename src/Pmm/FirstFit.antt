-- ===== src/Pmm/FirstFit.antt =====
-- What `default_alloc_pages` returns, and which pages stay free.
use mathlib.Core.Path.{subst}
use nk_os_team.Prelude.{
  ℕ, ◌+◌, ◌≤◌, ◌<◌, ◌≡◌, sym, ap, ◌∙◌, ◌≢◌, ◌↔◌, ◌⊎◌, inl, inr, false, Option, none, some, List,
  ◌∷◌, ◌++◌, arith, ltb, ==_of_ne, ltb→lt, Bool-cases, length,
}
use nk_os_team.Pmm.{Pmm, free_list, take_block, default_alloc_pages}
use nk_os_team.Pmm.Alloc.{
  found, find_fit_lem, take_block-whole, take_block-split, whole-Manages, split-Manages,
  this-IsHead,
}
use nk_os_team.Pmm.Blocks.{
  Block, IsFree, total, Manages, remainder, first_fit, Fit, fails, fits, first_fit-Outcome,
  remainder-IsFree, remainder-kept, remainder-taken, total-middle, split_off, used_up, Ordered,
}

abbrev pub left : List Block → Option (ℕ × List Block) → List Block
left bs none = bs
left bs (some (p, cs)) = cs

take_block-Manages :
    (s : Pmm) (xs ys : List Block) (p k n : ℕ)
    → Manages s (xs ++ (p, k) ∷ ys)
    → 0 < n
    → n ≤ k
    → Manages (take_block s p n) (xs ++ remainder n (p, k) ys)
take_block-Manages s xs ys p k n v pos large =
    let h = this-IsHead s xs ys p k v in
    elim (Bool-cases (ltb n k)) [
      | inl e ↦
          rw (take_block-split s p n (rw h.0 e), split_off n p k ys large e)
            (split-Manages s xs ys p k v n pos (ltb→lt n k e))
      | inr e ↦
          let same : k ≡ n = ground arith in
          rw (take_block-whole s p n (rw h.0 e), used_up n p k ys large e, ← same)
            (whole-Manages s xs ys p k v)
    ]

refused :
    (fuel : ℕ) (s : Pmm) (n : ℕ) (bs : List Block)
    → Manages s bs
    → n ≢ 0
    → length bs < fuel
    → first_fit n bs ≡ none
    → default_alloc_pages fuel s n ≡ some (s, none)
unfolding default_alloc_pages
refused fuel s n bs v pos h e = elim (Bool-cases (ltb s.nr_free n)) [
  | inl few ↦ rw (==_of_ne n 0 pos, few)
  | inr many ↦
      rw (==_of_ne n 0 pos, many, find_fit_lem fuel s n free_list bs v.ring.links v.heads h, e)
]

enough :
    (s : Pmm) (n : ℕ) (bs : List Block) (p : ℕ) (cs : List Block)
    → Manages s bs
    → Fit n bs p cs
    → ltb s.nr_free n ≡ false
enough s n bs p cs v w =
    ground (arith, v.count, w.large, ap total w.split, total-middle w.before w.after (p, w.size))

granted :
    (fuel : ℕ) (s : Pmm) (n p : ℕ) (bs cs : List Block)
    → Manages s bs
    → n ≢ 0
    → length bs < fuel
    → first_fit n bs ≡ some (p, cs)
    → Fit n bs p cs
    → default_alloc_pages fuel s n ≡ some (take_block s p n, some p)
unfolding default_alloc_pages
granted fuel s n p bs cs v pos h e w = rw (
  ==_of_ne n 0 pos,
  enough s n bs p cs v w,
  find_fit_lem fuel s n free_list bs v.ring.links v.heads h,
  e,
)

-- A request for pages is granted from the first block that is long enough, and refused if there is
-- none; the state then holds the blocks that first fit leaves. The loop ends with fuel for one
-- round more than there are blocks.
pub default_alloc_pages_lem :
    (fuel : ℕ) (s : Pmm) (n : ℕ) (bs : List Block)
    → Manages s bs
    → 0 < n
    → length bs < fuel
    → (s' : Pmm) × (default_alloc_pages fuel s n ≡ some (s', found (first_fit n bs)))
      × Manages s' (left bs (first_fit n bs))
default_alloc_pages_lem fuel s n bs v pos h = elim (first_fit-Outcome n bs) [
  | fails e a ↦ rw e (s, refused fuel s n bs v (omega arith) h e, v)
  | fits p cs e w ↦ rw e (
    take_block s p n,
    granted fuel s n p bs cs v (omega arith) h e w,
    rw w.left (take_block-Manages s w.before w.after p w.size n (rw (← w.split) v) pos w.large),
  )
]

abbrev pub Taken : (i p n : ℕ) → Type 0
Taken i p n = (p ≤ i) × (i < p + n)

Fit-partition :
    (n p : ℕ) (bs cs : List Block)
    → Ordered 0 bs
    → Fit n bs p cs
    → (i : ℕ) → (IsFree i bs ↔ (IsFree i cs ⊎ Taken i p n)) × (IsFree i cs → ¬ Taken i p n)
Fit-partition n p bs cs o w i =
    rw (w.split, w.left)
      (
        (
          remainder-IsFree n p w.size w.after w.large i w.before,
          λ c. elim c [
            | inl f ↦ (kept f).0
            | inr t ↦ remainder-taken n p w.size w.after w.large i w.before t.0 t.1
          ],
        ),
        λ f. (kept f).1,
      )
  where
    kept :
        IsFree i (w.before ++ remainder n (p, w.size) w.after)
        → IsFree i (w.before ++ (p, w.size) ∷ w.after) × ¬ Taken i p n
    kept = remainder-kept n p w.size w.after w.large 0 i w.before (rw (← w.split) o)

result_state : Pmm → Option (Pmm × Option ℕ) → Pmm
result_state s none = s
result_state s (some (t, q)) = t

result_page : Option (Pmm × Option ℕ) → ℕ
result_page none = 0
result_page (some (t, none)) = 0
result_page (some (t, some q)) = q

-- When pages are granted, the pages that were free are those that still are and the `n` pages from
-- the one returned, and these are no longer free. Every page granted was free.
pub alloc_partition :
    (fuel : ℕ) (s s' : Pmm) (n p : ℕ) (bs : List Block)
    → Manages s bs
    → 0 < n
    → length bs < fuel
    → default_alloc_pages fuel s n ≡ some (s', some p)
    → (cs : List Block) × Manages s' cs
      × ((i : ℕ) → (IsFree i bs ↔ (IsFree i cs ⊎ Taken i p n)) × (IsFree i cs → ¬ Taken i p n))
unfolding result_state result_page
alloc_partition fuel s s' n p bs v pos h e = elim (first_fit-Outcome n bs) [
  | fails f a ↦ absurd (cc (refused fuel s n bs v (omega arith) h f))
  | fits q cs f w ↦
      let g = sym (granted fuel s n q bs cs v (omega arith) h f w) ∙ e in
      let same : q ≡ p = ap result_page g in
      (
        cs,
        subst (λ t. Manages t cs) (ap (result_state s) g)
            (rw w.left
              (take_block-Manages s w.before w.after q w.size n (rw (← w.split) v) pos w.large)),
        subst
            (λ x.
              (i : ℕ) → (IsFree i bs ↔ (IsFree i cs ⊎ Taken i x n)) × (IsFree i cs → ¬ Taken i x n))
            same (Fit-partition n q bs cs v.ordered w),
      )
]
