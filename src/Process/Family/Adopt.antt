-- ===== src/Process/Family/Adopt.antt =====
-- `do_exit`: a child of the process that exits becomes the first child of `initproc`.
use mathlib.Core.Path.{subst}
use nk_os_team.Prelude.{
  ℕ, ◌≡◌, refl, sym, ap, ◌∙◌, ◌≢◌, Option, none, some, List, [], ◌∷◌, ◌++◌, Distinct, Fresh-left,
  Fresh-right,
}
use nk_os_team.Process.{Task, write, young}
use nk_os_team.Process.Family.{
  IsSiblings, IsFamily, Avoids, Elsewhere, IsSiblings-kept, all-Same, Fresh-Avoids,
  IsSiblings-behind, write_self, write_other, write_field, young_self, young_other, young_field,
  head_not,
}
use nk_os_team.Process.Calls.{adopt}

module _ (ts : ℕ → Task) (cur init p : ℕ) (apart : cur ≢ init) where
  abbrev passed : ℕ → Task
  passed = write ts cur (λ r. record r { cptr = (ts p).optr })

  abbrev alone : ℕ → Task
  alone = write passed p (λ r. record r { yptr = none })

  abbrev behind : ℕ → Task
  behind = write alone p (λ r. record r { optr = (alone init).cptr })

  abbrev pointed : ℕ → Task
  pointed = young behind (behind p).optr p

  abbrev moved : ℕ → Task
  moved = write pointed p (λ r. record r { parent = some init })

  abbrev adopted : ℕ → Task
  adopted = write moved init (λ r. record r { cptr = some p })

  old_first : (alone init).cptr ≡ (ts init).cptr
  old_first =
      write_field (λ r. r.cptr) passed p (λ r. record r { yptr = none }) init (λ r. refl)
      ∙ ap (λ r. r.cptr)
          (write_other ts cur (λ r. record r { cptr = (ts p).optr }) init (λ e. apart (sym e)))

  behind_optr : (behind p).optr ≡ (ts init).cptr
  behind_optr =
      ap (λ r. r.optr) (write_self alone p (λ r. record r { optr = (alone init).cptr })) ∙ old_first

  adopted_cur : (adopted cur).cptr ≡ (ts p).optr
  adopted_cur =
      ap (λ r. r.cptr) (write_other moved init (λ r. record r { cptr = some p }) cur apart)
      ∙ write_field (λ r. r.cptr) pointed p (λ r. record r { parent = some init }) cur (λ r. refl)
      ∙ young_field (λ r. r.cptr) behind (behind p).optr p cur (λ r y. refl)
      ∙ write_field (λ r. r.cptr) alone p (λ r. record r { optr = (alone init).cptr }) cur
          (λ r. refl)
      ∙ write_field (λ r. r.cptr) passed p (λ r. record r { yptr = none }) cur (λ r. refl)
      ∙ ap (λ r. r.cptr) (write_self ts cur (λ r. record r { cptr = (ts p).optr }))

  adopted_init : (adopted init).cptr ≡ some p
  adopted_init = ap (λ r. r.cptr) (write_self moved init (λ r. record r { cptr = some p }))

  adopted_yptr : (z : ℕ) → (adopted z).yptr ≡ (pointed z).yptr
  adopted_yptr z =
      write_field (λ r. r.yptr) moved init (λ r. record r { cptr = some p }) z (λ r. refl)
      ∙ write_field (λ r. r.yptr) pointed p (λ r. record r { parent = some init }) z (λ r. refl)

  adopted_optr : (z : ℕ) → (adopted z).optr ≡ (behind z).optr
  adopted_optr z =
      write_field (λ r. r.optr) moved init (λ r. record r { cptr = some p }) z (λ r. refl)
      ∙ write_field (λ r. r.optr) pointed p (λ r. record r { parent = some init }) z (λ r. refl)
      ∙ young_field (λ r. r.optr) behind (behind p).optr p z (λ r y. refl)

  -- Another struct keeps its links before the next sibling is told.
  behind_yptr : (z : ℕ) → z ≢ p → (behind z).yptr ≡ (ts z).yptr
  behind_yptr z n =
      write_field (λ r. r.yptr) alone p (λ r. record r { optr = (alone init).cptr }) z (λ r. refl)
      ∙ ap (λ r. r.yptr) (write_other passed p (λ r. record r { yptr = none }) z n)
      ∙ write_field (λ r. r.yptr) ts cur (λ r. record r { cptr = (ts p).optr }) z (λ r. refl)

  adopted_optr_other : (z : ℕ) → z ≢ p → (adopted z).optr ≡ (ts z).optr
  adopted_optr_other z n =
      adopted_optr z
      ∙ ap (λ r. r.optr) (write_other alone p (λ r. record r { optr = (alone init).cptr }) z n)
      ∙ write_field (λ r. r.optr) passed p (λ r. record r { yptr = none }) z (λ r. refl)
      ∙ write_field (λ r. r.optr) ts cur (λ r. record r { cptr = (ts p).optr }) z (λ r. refl)

  adopted_parent_other : (z : ℕ) → z ≢ p → (adopted z).parent ≡ (ts z).parent
  adopted_parent_other z n =
      write_field (λ r. r.parent) moved init (λ r. record r { cptr = some p }) z (λ r. refl)
      ∙ ap (λ r. r.parent) (write_other pointed p (λ r. record r { parent = some init }) z n)
      ∙ young_field (λ r. r.parent) behind (behind p).optr p z (λ r y. refl)
      ∙ write_field (λ r. r.parent) alone p (λ r. record r { optr = (alone init).cptr }) z
          (λ r. refl)
      ∙ write_field (λ r. r.parent) passed p (λ r. record r { yptr = none }) z (λ r. refl)
      ∙ write_field (λ r. r.parent) ts cur (λ r. record r { cptr = (ts p).optr }) z (λ r. refl)

  adopted-Elsewhere : Elsewhere ts adopted (ts init).cptr (some p)
  adopted-Elsewhere z m n =
      let k : z ≢ p = λ e. n (ap some (sym e)) in
      (
        adopted_yptr z
            ∙ ap (λ r. r.yptr)
                (young_other behind (behind p).optr p z (λ e. m (sym behind_optr ∙ e)))
            ∙ behind_yptr z k,
        adopted_optr_other z k,
        adopted_parent_other z k,
      )

  adopted_first :
      (o : ℕ)
      → (ts init).cptr ≡ some o
      → some p ≢ some o
      → ((adopted o).yptr ≡ some p)
        × ((adopted o).optr ≡ (ts o).optr)
        × ((adopted o).parent ≡ (ts o).parent)
  adopted_first o e n =
      let k : o ≢ p = λ x. n (ap some (sym x)) in
      (
        adopted_yptr o ∙ young_self behind (behind p).optr p o (behind_optr ∙ e),
        adopted_optr_other o k,
        adopted_parent_other o k,
      )

  adopted_self :
      (ts init).cptr ≢ some p
      → ((adopted p).yptr ≡ none)
        × ((adopted p).optr ≡ (ts init).cptr)
        × ((adopted p).parent ≡ some init)
  adopted_self m = (
    adopted_yptr p
        ∙ ap (λ r. r.yptr) (young_other behind (behind p).optr p p (λ e. m (sym behind_optr ∙ e)))
        ∙ write_field (λ r. r.yptr) alone p (λ r. record r { optr = (alone init).cptr }) p
            (λ r. refl)
        ∙ ap (λ r. r.yptr) (write_self passed p (λ r. record r { yptr = none })),
    adopted_optr p ∙ behind_optr,
    write_field (λ r. r.parent) moved init (λ r. record r { cptr = some p }) p (λ r. refl)
        ∙ ap (λ r. r.parent) (write_self pointed p (λ r. record r { parent = some init })),
  )

Distinct-behind : (xs ys : List ℕ) → Distinct (xs ++ ys) → Distinct ys
Distinct-behind [] ys d = d
Distinct-behind (x ∷ xs) ys d = Distinct-behind xs ys d.1

-- None of the children that stay is the first of the others.
stay_apart :
    (ts : ℕ → Task) (q : ℕ) (cs is : List ℕ)
    → IsFamily ts q is
    → Distinct (cs ++ is)
    → Avoids (ts q).cptr cs
stay_apart ts q [] is f d = tt
stay_apart ts q (c ∷ cs) is f d =
    (head_not ts q c none (ts q).cptr is f (Fresh-right c cs is d.0), stay_apart ts q cs is f d.1)

-- The child `p` goes over to the children `is` of `initproc`, and the rest `cs` stay for now.
pub adopt_lem :
    (ts : ℕ → Task) (cur init p : ℕ) (prev : Option ℕ) (cs is : List ℕ)
    → cur ≢ init
    → IsSiblings ts cur prev (ts cur).cptr (p ∷ cs)
    → IsFamily ts init is
    → Distinct (p ∷ cs ++ is)
    → IsSiblings (adopt ts cur init p) cur (some p) (adopt ts cur init p cur).cptr cs
      × IsFamily (adopt ts cur init p) init (p ∷ is)
adopt_lem ts cur init p prev cs is n s f d =
    let ts' = adopted ts cur init p n in
    let fc = Fresh-left p cs is d.0 in
    let fi = Fresh-right p cs is d.0 in
    let (y, o, q) = adopted_self ts cur init p n (head_not ts init p none (ts init).cptr is f fi) in
    (
      subst (λ h. IsSiblings ts' cur (some p) h cs) (sym (adopted_cur ts cur init p n))
          (IsSiblings-kept ts ts' cur (some p) (ts p).optr cs
            (all-Same ts ts' (ts init).cptr (some p) cs (adopted-Elsewhere ts cur init p n)
              (stay_apart ts init cs is f d.1) (Fresh-Avoids p cs fc))
            s.3),
      (
        adopted_init ts cur init p n,
        y,
        q,
        subst (λ h. IsSiblings ts' init (some p) h is) (sym o)
            (IsSiblings-behind ts ts' init none (some p) (ts init).cptr is
              (adopted_first ts cur init p n) (adopted-Elsewhere ts cur init p n)
              (Fresh-Avoids p is fi) (Distinct-behind cs is d.1) f),
      ),
    )
