-- ===== src/Process/Family/Splice.antt =====
-- `remove_links`: a process leaves its parent's children, and the others stay a family.
use mathlib.Core.Path.{subst}
use nk_os_team.Prelude.{
  ℕ, ◌≡◌, refl, sym, ◌∙◌, ◌≢◌, Option, none, some, List, [], ◌∷◌, ◌++◌, Fresh, Distinct, Fresh-left,
  Fresh-right, Fresh-middle,
}
use nk_os_team.Process.{Task, leave_family}
use nk_os_team.Process.Family.{
  IsSiblings, IsFamily, Avoids, Fresh-Avoids, none-Avoids, IsSiblings-behind, head_not,
}
use nk_os_team.Process.Family.Leave.{Left, leave_family-Left}

module _ (ts : ℕ → Task) (q c : ℕ) (ys : List ℕ) where
  -- The process in the middle, and the siblings behind it.
  middle :
      (prev cur : Option ℕ) (xs : List ℕ)
      → IsSiblings ts q prev cur (xs ++ c ∷ ys)
      → ((ts c).parent ≡ some q) × IsSiblings ts q (some c) (ts c).optr ys
  middle prev cur [] s = (s.2, s.3)
  middle prev cur (x ∷ xs) s = middle (some x) (ts x).optr xs s.3

  -- The process points back to the last of those before it.
  last_not :
      (prev cur : Option ℕ) (x z : ℕ) (xs : List ℕ)
      → IsSiblings ts q prev cur (x ∷ xs ++ c ∷ ys)
      → Fresh z (x ∷ xs)
      → (ts c).yptr ≢ some z
  last_not prev cur x z [] s f e = f.0 (cc (s.3.1, e))
  last_not prev cur x z (x' ∷ xs) s f e = last_not (some x) (ts x).optr x' z xs s.3 f.1 e

  yptr_before :
      (prev cur : Option ℕ) (x : ℕ) (xs : List ℕ)
      → IsSiblings ts q prev cur (x ∷ xs ++ c ∷ ys)
      → (ts c).yptr ≢ none
  yptr_before prev cur x [] s e = cc (s.3.1, e)
  yptr_before prev cur x (x' ∷ xs) s e = yptr_before (some x) (ts x).optr x' xs s.3 e

  -- Where the list begins once the process has left.
  abbrev start : List ℕ → Option ℕ → Option ℕ
  start [] cur = (ts c).optr
  start (x ∷ xs) cur = cur

  module _ (ts' : ℕ → Task) (l : Left ts ts' q (ts c).optr (ts c).yptr) where
    behind_first :
        (prev cur : Option ℕ)
        → IsSiblings ts q prev cur (c ∷ ys)
        → Distinct (c ∷ ys)
        → Avoids prev (c ∷ ys)
        → IsSiblings ts' q prev (ts c).optr ys
    behind_first prev cur s d a =
        subst (λ y. IsSiblings ts' q y (ts c).optr ys) s.1
          (IsSiblings-behind ts ts' q (some c) (ts c).yptr (ts c).optr ys l.next_one l.elsewhere
            (subst (λ y. Avoids y ys) (sym s.1) a.1) d.1 s.3)

    -- A process before the one that leaves.
    before_same :
        (prev cur : Option ℕ) (x : ℕ) (xs : List ℕ)
        → IsSiblings ts q prev cur (x ∷ xs ++ c ∷ ys)
        → Distinct (x ∷ xs ++ c ∷ ys)
        → ((ts' x).yptr ≡ (ts x).yptr)
          × ((ts' x).optr ≡ start xs (ts x).optr)
          × ((ts' x).parent ≡ (ts x).parent)
    before_same prev cur x [] s d =
        l.last_one x s.3.1 (head_not ts q x (some c) (ts c).optr ys s.3.3 d.0.1)
    before_same prev cur x (x' ∷ xs) s d =
        let f = d.0 in
        l.elsewhere x
          (head_not ts q x (some c) (ts c).optr ys (middle (some x) (ts x).optr (x' ∷ xs) s.3).1
            (Fresh-right x (x' ∷ xs) (c ∷ ys) f).1)
          (last_not (some x) (ts x).optr x' x xs s.3 (Fresh-left x (x' ∷ xs) (c ∷ ys) f))

    splice :
        (prev cur : Option ℕ) (xs : List ℕ)
        → IsSiblings ts q prev cur (xs ++ c ∷ ys)
        → Distinct (xs ++ c ∷ ys)
        → Avoids prev (xs ++ c ∷ ys)
        → IsSiblings ts' q prev (start xs cur) (xs ++ ys)
    splice prev cur [] s d a = behind_first prev cur s d a
    splice prev cur (x ∷ xs) s d a =
        let (y, o, p) = before_same prev cur x xs s d in
        (
          s.0,
          y ∙ s.1,
          p ∙ s.2,
          subst (λ h. IsSiblings ts' q (some x) h (xs ++ ys)) (sym o)
              (splice (some x) (ts x).optr xs s.3 d.1 (Fresh-Avoids x (xs ++ c ∷ ys) d.0)),
        )

    first_start :
        (xs : List ℕ)
        → IsSiblings ts q none (ts q).cptr (xs ++ c ∷ ys)
        → (ts' q).cptr ≡ start xs (ts q).cptr
    first_start [] s = l.first_child s.1
    first_start (x ∷ xs) s = l.no_first_child (yptr_before none (ts q).cptr x xs s)

-- A process that is a child of its parent leaves, and the other children stay, in their order.
-- All pids stay.
pub leave_family-IsFamily :
    (ts : ℕ → Task) (q c : ℕ) (xs ys : List ℕ)
    → IsFamily ts q (xs ++ c ∷ ys)
    → Distinct (xs ++ c ∷ ys)
    → (ts' : ℕ → Task) × (leave_family ts c ≡ some ts')
      × IsFamily ts' q (xs ++ ys)
      × ((z : ℕ) → (ts' z).pid ≡ (ts z).pid)
leave_family-IsFamily ts q c xs ys s d =
    let (p, r) = middle ts q c ys none (ts q).cptr xs s in
    let f = Fresh-middle c xs ys d in
    let (ts', e, l) =
      leave_family-Left ts c q (ts c).optr (ts c).yptr refl refl
        (head_not ts q c (some c) (ts c).optr ys r (Fresh-right c xs ys f.0)) p in
    (
      ts',
      e,
      subst (λ h. IsSiblings ts' q none h (xs ++ ys)) (sym (first_start ts q c ys ts' l xs s))
          (splice ts q c ys ts' l none (ts q).cptr xs s d (none-Avoids (xs ++ c ∷ ys))),
      l.same_pid,
    )
