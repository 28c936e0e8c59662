-- ===== src/Process/Family.antt =====
-- The children of a process: the list from `cptr` along `optr`, with `yptr` back.
pub mod Leave
pub mod Splice
pub mod Adopt
use mathlib.Core.Path.{subst}
use nk_os_team.Prelude.{
  ℕ, ◌≡◌, refl, sym, ap, ◌∙◌, ◌≢◌, inl, inr, Option, none, some, List, [], ◌∷◌, ◌==◌, ==_iff,
  ==_of_ne, Bool-cases, All, Fresh, Distinct,
}
use nk_os_team.Process.{Task, write, young, set_family}

-- The children from `cur` on, of parent `q`, behind `prev`.
abbrev pub IsSiblings : (ℕ → Task) → (q : ℕ) → (prev cur : Option ℕ) → List ℕ → Type 0
IsSiblings ts q prev cur [] = cur ≡ none
IsSiblings ts q prev cur (c ∷ cs) =
    (cur ≡ some c)
    × ((ts c).yptr ≡ prev)
    × ((ts c).parent ≡ some q)
    × IsSiblings ts q (some c) (ts c).optr cs

abbrev pub IsFamily : (ℕ → Task) → ℕ → List ℕ → Type 0
IsFamily ts q cs = IsSiblings ts q none (ts q).cptr cs

-- A struct keeps its links to its family.
abbrev pub Same : (ts ts' : ℕ → Task) → ℕ → Type 0
Same ts ts' z =
    ((ts' z).yptr ≡ (ts z).yptr) × ((ts' z).optr ≡ (ts z).optr) × ((ts' z).parent ≡ (ts z).parent)

pub IsSiblings-kept :
    (ts ts' : ℕ → Task) (q : ℕ) (prev cur : Option ℕ) (cs : List ℕ)
    → All (Same ts ts') cs
    → IsSiblings ts q prev cur cs
    → IsSiblings ts' q prev cur cs
IsSiblings-kept ts ts' q prev cur [] h s = s
IsSiblings-kept ts ts' q prev cur (c ∷ cs) h s = (
  s.0,
  h.0.0 ∙ s.1,
  h.0.2 ∙ s.2,
  IsSiblings-kept ts ts' q (some c) (ts' c).optr cs h.1
      (subst (λ o. IsSiblings ts q (some c) o cs) (sym h.0.1) s.3),
)

-- None of a list is the one pointed to.
abbrev pub Avoids : Option ℕ → List ℕ → Type 0
Avoids o xs = All (λ z. o ≢ some z) xs

pub Fresh-Avoids : (c : ℕ) (xs : List ℕ) → Fresh c xs → Avoids (some c) xs
Fresh-Avoids c [] f = tt
Fresh-Avoids c (x ∷ xs) f = (λ e. f.0 (cc e), Fresh-Avoids c xs f.1)

pub none-Avoids : (xs : List ℕ) → Avoids none xs
none-Avoids [] = tt
none-Avoids (x ∷ xs) = (λ e. cc e, none-Avoids xs)

-- What a write to the links of the two `o` and `o'` leaves.
abbrev pub Elsewhere : (ts ts' : ℕ → Task) → (o o' : Option ℕ) → Type 0
Elsewhere ts ts' o o' = (z : ℕ) → o ≢ some z → o' ≢ some z → Same ts ts' z

pub all-Same :
    (ts ts' : ℕ → Task) (o o' : Option ℕ) (xs : List ℕ)
    → Elsewhere ts ts' o o'
    → Avoids o xs
    → Avoids o' xs
    → All (Same ts ts') xs
all-Same ts ts' o o' [] e a b = tt
all-Same ts ts' o o' (x ∷ xs) e a b = (e x a.0 b.0, all-Same ts ts' o o' xs e a.1 b.1)

-- The first sibling is now behind `prev'`.
pub IsSiblings-behind :
    (ts ts' : ℕ → Task) (q : ℕ) (prev prev' cur : Option ℕ) (cs : List ℕ)
    → ((o : ℕ)
        → cur ≡ some o
        → prev' ≢ some o
        → ((ts' o).yptr ≡ prev') × ((ts' o).optr ≡ (ts o).optr) × ((ts' o).parent ≡ (ts o).parent))
    → Elsewhere ts ts' cur prev'
    → Avoids prev' cs
    → Distinct cs
    → IsSiblings ts q prev cur cs
    → IsSiblings ts' q prev' cur cs
IsSiblings-behind ts ts' q prev prev' cur [] h e a d s = s
IsSiblings-behind ts ts' q prev prev' cur (c ∷ cs) h e a d s =
    let (y, o, p) = h c s.0 a.0 in
    (
      s.0,
      y,
      p ∙ s.2,
      IsSiblings-kept ts ts' q (some c) (ts' c).optr cs
          (all-Same ts ts' cur prev' cs e
            (subst (λ x. Avoids x cs) (sym s.0) (Fresh-Avoids c cs d.0)) a.1)
          (subst (λ x. IsSiblings ts q (some c) x cs) (sym o) s.3),
    )

-- Reading after one write.
pub write_self : (ts : ℕ → Task) (p : ℕ) (f : Task → Task) → write ts p f p ≡ f (ts p)
write_self ts p f = rw ((==_iff p p).1 refl) refl

pub write_other : (ts : ℕ → Task) (p : ℕ) (f : Task → Task) (z : ℕ) → z ≢ p → write ts p f z ≡ ts z
write_other ts p f z n = rw (==_of_ne z p n) refl

pub write_field {ℓ} :
    {A : Type ℓ} (g : Task → A) (ts : ℕ → Task) (p : ℕ) (f : Task → Task) (z : ℕ)
    → ((r : Task) → g (f r) ≡ g r)
    → g (write ts p f z) ≡ g (ts z)
write_field g ts p f z h = elim (Bool-cases (z == p)) [
  | inl e ↦ rw e (h (ts p) ∙ ap (λ x. g (ts x)) (sym ((==_iff z p).0 e)))
  | inr e ↦ rw e refl
]

pub young_self :
    (ts : ℕ → Task) (o : Option ℕ) (p z : ℕ) → o ≡ some z → (young ts o p z).yptr ≡ some p
young_self ts none p z e = cc e
young_self ts (some o) p z e =
    let e' : o ≡ z = cc e in
    subst (λ x. (young ts (some o) p x).yptr ≡ some p) e'
      (ap (λ r. r.yptr) (write_self ts o (λ r. record r { yptr = some p })))

pub young_other : (ts : ℕ → Task) (o : Option ℕ) (p z : ℕ) → o ≢ some z → young ts o p z ≡ ts z
young_other ts none p z n = refl
young_other ts (some o) p z n =
    write_other ts o (λ r. record r { yptr = some p }) z (λ e. n (ap some (sym e)))

pub young_field {ℓ} :
    {A : Type ℓ} (g : Task → A) (ts : ℕ → Task) (o : Option ℕ) (p z : ℕ)
    → ((r : Task) (y : Option ℕ) → g (record r { yptr = y }) ≡ g r)
    → g (young ts o p z) ≡ g (ts z)
young_field g ts none p z h = refl
young_field g ts (some o) p z h =
    write_field g ts o (λ r. record r { yptr = some p }) z (λ r. h r (some p))

-- The stores that `set_family` goes through.
module _ (ts : ℕ → Task) (p q : ℕ) where
  abbrev alone : ℕ → Task
  alone = write ts p (λ r. record r { yptr = none })

  abbrev behind : ℕ → Task
  behind = write alone p (λ r. record r { optr = (alone q).cptr })

  abbrev pointed : ℕ → Task
  pointed = young behind (alone q).cptr p

  abbrev joined : ℕ → Task
  joined = write pointed q (λ r. record r { cptr = some p })

  alone_cptr : (alone q).cptr ≡ (ts q).cptr
  alone_cptr = write_field (λ r. r.cptr) ts p (λ r. record r { yptr = none }) q (λ r. refl)

  joined_yptr : (z : ℕ) → (joined z).yptr ≡ (pointed z).yptr
  joined_yptr z =
      write_field (λ r. r.yptr) pointed q (λ r. record r { cptr = some p }) z (λ r. refl)

  joined_optr : (z : ℕ) → (joined z).optr ≡ (behind z).optr
  joined_optr z =
      write_field (λ r. r.optr) pointed q (λ r. record r { cptr = some p }) z (λ r. refl)
      ∙ young_field (λ r. r.optr) behind (alone q).cptr p z (λ r y. refl)

  joined_parent : (z : ℕ) → (joined z).parent ≡ (ts z).parent
  joined_parent z =
      write_field (λ r. r.parent) pointed q (λ r. record r { cptr = some p }) z (λ r. refl)
      ∙ young_field (λ r. r.parent) behind (alone q).cptr p z (λ r y. refl)
      ∙ write_field (λ r. r.parent) alone p (λ r. record r { optr = (alone q).cptr }) z (λ r. refl)
      ∙ write_field (λ r. r.parent) ts p (λ r. record r { yptr = none }) z (λ r. refl)

  behind_other : (z : ℕ) → z ≢ p → behind z ≡ ts z
  behind_other z n =
      write_other alone p (λ r. record r { optr = (alone q).cptr }) z n
      ∙ write_other ts p (λ r. record r { yptr = none }) z n

  joined_new :
      p ≢ q
      → (alone q).cptr ≢ some p
      → ((joined p).yptr ≡ none) × ((joined p).optr ≡ (alone q).cptr)
  joined_new n m = (
    joined_yptr p
        ∙ ap (λ r. r.yptr) (young_other behind (alone q).cptr p p m)
        ∙ write_field (λ r. r.yptr) alone p (λ r. record r { optr = (alone q).cptr }) p (λ r. refl)
        ∙ ap (λ r. r.yptr) (write_self ts p (λ r. record r { yptr = none })),
    joined_optr p ∙ ap (λ r. r.optr) (write_self alone p (λ r. record r { optr = (alone q).cptr })),
  )

  joined-Elsewhere : Elsewhere ts joined (alone q).cptr (some p)
  joined-Elsewhere z m n =
      let k : z ≢ p = λ e. n (ap some (sym e)) in
      (
        joined_yptr z
            ∙ ap (λ r. r.yptr) (young_other behind (alone q).cptr p z m ∙ behind_other z k),
        joined_optr z ∙ ap (λ r. r.optr) (behind_other z k),
        joined_parent z,
      )

  joined_first :
      (o : ℕ)
      → (alone q).cptr ≡ some o
      → some p ≢ some o
      → ((joined o).yptr ≡ some p)
        × ((joined o).optr ≡ (ts o).optr)
        × ((joined o).parent ≡ (ts o).parent)
  joined_first o e n = (
    joined_yptr o ∙ young_self behind (alone q).cptr p o e,
    joined_optr o ∙ ap (λ r. r.optr) (behind_other o (λ x. n (ap some (sym x)))),
    joined_parent o,
  )

pub head_not :
    (ts : ℕ → Task) (q p : ℕ) (prev cur : Option ℕ) (cs : List ℕ)
    → IsSiblings ts q prev cur cs
    → Fresh p cs
    → cur ≢ some p
head_not ts q p prev cur [] s f e = cc (s, e)
head_not ts q p prev cur (c ∷ cs) s f e = f.0 (cc (s.0, e))

-- A process joins its parent's children as the first of them, and the others keep their order. The
-- links back are right too.
pub set_family-IsFamily :
    (ts : ℕ → Task) (p q : ℕ) (cs : List ℕ)
    → (ts p).parent ≡ some q
    → p ≢ q
    → Distinct (p ∷ cs)
    → IsFamily ts q cs
    → IsFamily (set_family ts p q) q (p ∷ cs)
unfolding set_family
set_family-IsFamily ts p q cs e n d s =
    let s' : IsSiblings ts q none (alone ts p q q).cptr cs =
      subst (λ c. IsSiblings ts q none c cs) (sym (alone_cptr ts p q)) s in
    let (y, o) = joined_new ts p q n (head_not ts q p none (alone ts p q q).cptr cs s' d.0) in
    (
      ap (λ r. r.cptr) (write_self (pointed ts p q) q (λ r. record r { cptr = some p })),
      y,
      joined_parent ts p q p ∙ e,
      subst (λ c. IsSiblings (joined ts p q) q (some p) c cs) (sym o)
          (IsSiblings-behind ts (joined ts p q) q none (some p) (alone ts p q q).cptr cs
            (joined_first ts p q) (joined-Elsewhere ts p q) (Fresh-Avoids p cs d.0) d.1 s'),
    )

-- The other fields stay.
pub set_family_field {ℓ} :
    {A : Type ℓ} (g : Task → A) (ts : ℕ → Task) (p q z : ℕ)
    → ((r : Task) (c : Option ℕ) → g (record r { cptr = c }) ≡ g r)
    → ((r : Task) (y : Option ℕ) → g (record r { yptr = y }) ≡ g r)
    → ((r : Task) (o : Option ℕ) → g (record r { optr = o }) ≡ g r)
    → g (set_family ts p q z) ≡ g (ts z)
unfolding set_family
set_family_field g ts p q z hc hy ho =
    write_field g (pointed ts p q) q (λ r. record r { cptr = some p }) z (λ r. hc r (some p))
    ∙ young_field g (behind ts p q) (alone ts p q q).cptr p z hy
    ∙ write_field g (alone ts p q) p (λ r. record r { optr = (alone ts p q q).cptr }) z
        (λ r. ho r (alone ts p q q).cptr)
    ∙ write_field g ts p (λ r. record r { yptr = none }) z (λ r. hy r none)
