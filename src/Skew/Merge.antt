-- ===== src/Skew/Merge.antt =====
-- The links of a tree, and the links that one round of `skew_heap_merge` writes.
use mathlib.Core.Path.{subst}
use nk_os_team.Prelude.{ℕ, ◌≡◌, refl, sym, ap, ◌∙◌, ◌≢◌, Option, none, some, ==_iff, ==_of_ne}
use nk_os_team.Skew.{Entry, attach}
use nk_os_team.Skew.Trees.{Tree, leaf, node, Every, Absent, Apart, Once, Every-map, Every-both}

abbrev pub ParentIs : (ℕ → Entry) → ℕ → Tree → Type 0
ParentIs s x leaf = Unit
ParentIs s x (node y l r) = (s y).parent ≡ some x

-- The links from a root make a tree. The root's own `parent` is not part of it.
abbrev pub IsTree : (ℕ → Entry) → Option ℕ → Tree → Type 0
IsTree s root leaf = root ≡ none
IsTree s root (node x l r) =
    (root ≡ some x)
    × ParentIs s x l
    × ParentIs s x r
    × IsTree s (s x).left l
    × IsTree s (s x).right r

pub ParentIs-kept :
    (s s' : ℕ → Entry) (x : ℕ) (t : Tree)
    → Every (λ z. s' z ≡ s z) t
    → ParentIs s x t
    → ParentIs s' x t
ParentIs-kept s s' x leaf h k = tt
ParentIs-kept s s' x (node y l r) h k = ap (λ e. e.parent) h.0 ∙ k

pub IsTree-kept :
    (s s' : ℕ → Entry) (root : Option ℕ) (t : Tree)
    → Every (λ z. s' z ≡ s z) t
    → IsTree s root t
    → IsTree s' root t
IsTree-kept s s' root leaf h k = k
IsTree-kept s s' root (node x l r) h k = (
  k.0,
  ParentIs-kept s s' x l h.1 k.1,
  ParentIs-kept s s' x r h.2 k.2,
  subst (λ o. IsTree s' o l) (ap (λ e. e.left) (sym h.0)) (IsTree-kept s s' (s x).left l h.1 k.3),
  subst (λ o. IsTree s' o r) (ap (λ e. e.right) (sym h.0)) (IsTree-kept s s' (s x).right r h.2 k.4),
)

root_not :
    (s : ℕ → Entry) (root : Option ℕ) (t : Tree) (z : ℕ)
    → IsTree s root t
    → Absent z t
    → root ≢ some z
root_not s root leaf z k a e = cc (k, e)
root_not s root (node x l r) z k a e = a.0 (cc (k.0, e))

pub Apart-sym : (t u : Tree) → Apart t u → Apart u t
Apart-sym t leaf h = tt
Apart-sym t (node y l r) h = (
  Every-map (λ x. Absent x (node y l r)) (λ x. y ≢ x) t (λ x k e. k.0 (sym e)) h,
  Apart-sym t l (Every-map (λ x. Absent x (node y l r)) (λ x. Absent x l) t (λ x k. k.1) h),
  Apart-sym t r (Every-map (λ x. Absent x (node y l r)) (λ x. Absent x r) t (λ x k. k.2) h),
)

-- The links after `attach`.
attach_other :
    (s : ℕ → Entry) (a : ℕ) (l r : Option ℕ) (z : ℕ) → z ≢ a → l ≢ some z → attach s a l r z ≡ s z
attach_other s a none r z n m = rw (==_of_ne z a n) refl
attach_other s a (some y) r z n m =
    rw (==_of_ne z y (λ e. m (ap some (sym e))), ==_of_ne z a n) refl

attach_self :
    (s : ℕ → Entry) (a : ℕ) (l r : Option ℕ)
    → l ≢ some a
    → attach s a l r a ≡ record (s a) { left = l; right = r }
attach_self s a none r m = rw ((==_iff a a).1 refl) refl
attach_self s a (some y) r m =
    rw (==_of_ne a y (λ e. m (ap some (sym e))), (==_iff a a).1 refl) refl

attach_child :
    (s : ℕ → Entry) (a y : ℕ) (r : Option ℕ)
    → y ≢ a
    → attach s a (some y) r y ≡ record (s y) { parent = some a }
attach_child s a y r n = rw ((==_iff y y).1 refl, ==_of_ne y a n) refl

attach-IsTree :
    (s : ℕ → Entry) (a : ℕ) (l r : Option ℕ) (m : Tree)
    → IsTree s l m
    → Absent a m
    → Once m
    → IsTree (attach s a l r) l m × ParentIs (attach s a l r) a m
attach-IsTree s a l r leaf k n o = (k, tt)
attach-IsTree s a l r (node y p q) k n o =
    subst (λ x. IsTree (attach s a x r) x (node y p q) × ((attach s a x r y).parent ≡ some a))
      (sym k.0)
      (
        (
          refl,
          ParentIs-kept s (attach s a (some y) r) y p (same p n.1 o.0) k.1,
          ParentIs-kept s (attach s a (some y) r) y q (same q n.2 o.1) k.2,
          subst (λ x. IsTree (attach s a (some y) r) x p) (ap (λ e. e.left) (sym child))
              (IsTree-kept s (attach s a (some y) r) (s y).left p (same p n.1 o.0) k.3),
          subst (λ x. IsTree (attach s a (some y) r) x q) (ap (λ e. e.right) (sym child))
              (IsTree-kept s (attach s a (some y) r) (s y).right q (same q n.2 o.1) k.4),
        ),
        ap (λ e. e.parent) child,
      )
  where
    child : attach s a (some y) r y ≡ record (s y) { parent = some a }
    child = attach_child s a y r (λ e. n.0 (sym e))

    same : (t : Tree) → Absent a t → Absent y t → Every (λ z. attach s a (some y) r z ≡ s z) t
    same t f g =
        Every-map (λ z. (a ≢ z) × (y ≢ z)) (λ z. attach s a (some y) r z ≡ s z) t
          (λ z h. attach_other s a (some y) r z (λ e. h.0 (sym e)) (λ e. h.1 (cc e)))
          (Every-both (λ z. a ≢ z) (λ z. y ≢ z) t f g)

-- The root `x` stays, and gets the merge `m` of its right part and another tree `v` as its left part.
module _ (s s₁ : ℕ → Entry) (x : ℕ) (l : Option ℕ) (lx rx v m : Tree) (once : Once (node x lx rx))
    (off : Absent x v) (apart : Apart lx v) (once_m : Once m)
    (from : (z : ℕ) → Absent z rx → Absent z v → Absent z m)
    (kept : (z : ℕ) → Absent z rx → Absent z v → s₁ z ≡ s z) (tree : IsTree s₁ l m) where
  abbrev pub grown : ℕ → Entry
  grown = attach s₁ x l (s x).left

  grown_self : grown x ≡ record (s₁ x) { left = l; right = (s x).left }
  grown_self = attach_self s₁ x l (s x).left (root_not s₁ l m x tree (from x once.1 off))

  pub grown_other : (z : ℕ) → z ≢ x → Absent z rx → Absent z v → grown z ≡ s z
  grown_other z n a b =
      attach_other s₁ x l (s x).left z n (root_not s₁ l m z tree (from z a b)) ∙ kept z a b

  pub grown_parent : (grown x).parent ≡ (s x).parent
  grown_parent = ap (λ e. e.parent) grown_self ∙ ap (λ e. e.parent) (kept x once.1 off)

  left_same : Every (λ z. grown z ≡ s z) lx
  left_same =
      Every-map (λ z. (x ≢ z) × (Absent z rx × Absent z v)) (λ z. grown z ≡ s z) lx
        (λ z h. grown_other z (λ e. h.0 (sym e)) h.1.0 h.1.1)
        (Every-both (λ z. x ≢ z) (λ z. Absent z rx × Absent z v) lx once.0
          (Every-both (λ z. Absent z rx) (λ z. Absent z v) lx once.2 apart))

  pub grown-IsTree : ParentIs s x lx → IsTree s (s x).left lx → IsTree grown (some x) (node x m lx)
  grown-IsTree p k =
      let (a, b) = attach-IsTree s₁ x l (s x).left m tree (from x once.1 off) once_m in
      (
        refl,
        b,
        ParentIs-kept s grown x lx left_same p,
        subst (λ o. IsTree grown o m) (ap (λ e. e.left) (sym grown_self)) a,
        subst (λ o. IsTree grown o lx) (ap (λ e. e.right) (sym grown_self))
            (IsTree-kept s grown (s x).left lx left_same k),
      )
