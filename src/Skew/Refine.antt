-- ===== src/Skew/Refine.antt =====
-- `skew_heap_merge` and `skew_heap_insert` write the links of the merged tree.
use mathlib.Core.Path.{subst}
use nk_os_team.Prelude.{
  ℕ, zero, suc, ◌+◌, ◌<◌, ◌≡◌, refl, ◌≢◌, inl, inr, Bool, true, false, Option, some, arith,
  Bool-cases, ◌>>=◌,
}
use nk_os_team.Skew.{Entry, attach, skew_heap_merge}
use nk_os_team.Skew.Trees.{
  Tree, leaf, node, size, Absent, Apart, Once, Merged, left_leaf, right_leaf, keep_left, keep_right,
  Every-Merged,
}
use nk_os_team.Skew.Merge.{IsTree, Apart-sym, grown, grown_other, grown_parent, grown-IsTree}

module _ (less : ℕ → ℕ → Bool) where
  -- A merge of trees without common entries has every entry once.
  pub Once-Merged : (t u m : Tree) → Merged less t u m → Once t → Once u → Apart t u → Once m
  Once-Merged _ _ _ (left_leaf u) o o' p = o'
  Once-Merged _ _ _ (right_leaf t) o o' p = o
  Once-Merged _ _ _ (keep_left a la ra b lb rb m e g) o o' p =
      let u = node b lb rb in
      (
        Every-Merged (λ y. a ≢ y) less ra u m g o.1 p.0,
        o.0,
        Every-Merged (λ y. Absent y la) less ra u m g (Apart-sym la ra o.2) (Apart-sym la u p.1),
        Once-Merged ra u m g o.4 o' p.2,
        o.3,
      )
  Once-Merged _ _ _ (keep_right a la ra b lb rb m e g) o o' p =
      let t = node a la ra in
      let q = Apart-sym t (node b lb rb) p in
      (
        Every-Merged (λ y. b ≢ y) less t rb m g q.0 o'.1,
        o'.0,
        Every-Merged (λ y. Absent y lb) less t rb m g (Apart-sym lb t q.1) (Apart-sym lb rb o'.2),
        Once-Merged t rb m g o o'.4 (Apart-sym rb t q.2),
        o'.3,
      )

  -- What a merge of trees `t` and `u` gives: the links of the merged tree. Entries of neither stay as
  -- they were, and so does the `parent` of the root.
  pub record MergedTo (s : ℕ → Entry) (t u : Tree) (r : Option ((ℕ → Entry) × Option ℕ))
      : Type 0 where
    pub entries : ℕ → Entry
    pub root : Option ℕ
    pub merge : Tree
    pub result : r ≡ some (entries, root)
    pub merged : Merged less t u merge
    pub tree : IsTree entries root merge
    pub others : (z : ℕ) → Absent z t → Absent z u → entries z ≡ s z
    pub root_parent : (z : ℕ) → root ≡ some z → (entries z).parent ≡ (s z).parent

  extend_left :
      (s : ℕ → Entry) (x : ℕ) (lx rx : Tree) (y : ℕ) (ly ry : Tree)
      (r : Option ((ℕ → Entry) × Option ℕ))
      → less x y ≡ true
      → IsTree s (some x) (node x lx rx)
      → Once (node x lx rx)
      → Once (node y ly ry)
      → Apart (node x lx rx) (node y ly ry)
      → MergedTo s rx (node y ly ry) r
      → MergedTo s
          (node x lx rx)
          (node y ly ry)
          (r >>= λ m. some (attach m.0 x m.1 (s x).left, some x))
  extend_left s x lx rx y ly ry r e k o o' p h =
      let v = node y ly ry in
      let once_m = Once-Merged rx v h.merge h.merged o.4 o' p.2 in
      let from = λ (z : ℕ). Every-Merged (λ w. z ≢ w) less rx v h.merge h.merged in
      let s₂ = grown s h.entries x h.root lx rx v h.merge o p.0 p.1 once_m from h.others h.tree in
      record {
        entries = s₂;
        root = some x;
        merge = node x h.merge lx;
        result = rw (h.result) refl;
        merged = keep_left x lx rx y ly ry h.merge e h.merged;
        tree =
            grown-IsTree s h.entries x h.root lx rx v h.merge o p.0 p.1 once_m from h.others h.tree
              k.1 k.3;
        others = λ z a b.
            grown_other s h.entries x h.root lx rx v h.merge o p.0 p.1 once_m from h.others h.tree z
              a.0 a.2 b;
        root_parent = λ z i.
            subst (λ w. (s₂ w).parent ≡ (s w).parent) (cc i)
              (grown_parent s h.entries x h.root lx rx v h.merge o p.0 p.1 once_m from h.others
                h.tree);
      }

  extend_right :
      (s : ℕ → Entry) (x : ℕ) (lx rx : Tree) (y : ℕ) (ly ry : Tree)
      (r : Option ((ℕ → Entry) × Option ℕ))
      → less x y ≡ false
      → IsTree s (some y) (node y ly ry)
      → Once (node x lx rx)
      → Once (node y ly ry)
      → Apart (node x lx rx) (node y ly ry)
      → MergedTo s (node x lx rx) ry r
      → MergedTo s
          (node x lx rx)
          (node y ly ry)
          (r >>= λ m. some (attach m.0 y m.1 (s y).left, some y))
  extend_right s x lx rx y ly ry r e k o o' p h =
      let v = node x lx rx in
      let q = Apart-sym v (node y ly ry) p in
      let once_m = Once-Merged v ry h.merge h.merged o o'.4 (Apart-sym ry v q.2) in
      let from = λ (z : ℕ) (a : Absent z ry) (b : Absent z v).
        Every-Merged (λ w. z ≢ w) less v ry h.merge h.merged b a in
      let others = λ (z : ℕ) (a : Absent z ry) (b : Absent z v). h.others z b a in
      let s₂ = grown s h.entries y h.root ly ry v h.merge o' q.0 q.1 once_m from others h.tree in
      record {
        entries = s₂;
        root = some y;
        merge = node y h.merge ly;
        result = rw (h.result) refl;
        merged = keep_right x lx rx y ly ry h.merge e h.merged;
        tree =
            grown-IsTree s h.entries y h.root ly ry v h.merge o' q.0 q.1 once_m from others h.tree
              k.1 k.3;
        others = λ z a b.
            grown_other s h.entries y h.root ly ry v h.merge o' q.0 q.1 once_m from others h.tree z
              b.0 b.2 a;
        root_parent = λ z i.
            subst (λ w. (s₂ w).parent ≡ (s w).parent) (cc i)
              (grown_parent s h.entries y h.root ly ry v h.merge o' q.0 q.1 once_m from others
                h.tree);
      }

  -- `skew_heap_merge` of two trees without common entries, with fuel for one round more than there
  -- are entries, ends. It gives the links of the merged tree, and leaves all other entries and the
  -- `parent` of the new root.
  pub skew_heap_merge_lem :
      (fuel : ℕ) (s : ℕ → Entry) (a b : Option ℕ) (t u : Tree)
      → IsTree s a t
      → IsTree s b u
      → Once t
      → Once u
      → Apart t u
      → size t + size u < fuel
      → MergedTo s t u (skew_heap_merge less fuel s a b)
  unfolding skew_heap_merge
  skew_heap_merge_lem zero s a b t u k k' o o' p l = absurd (omega (arith, l))
  skew_heap_merge_lem (suc fuel) s a b leaf u k k' o o' p l = rw k (record {
    entries = s;
    root = b;
    merge = u;
    result = refl;
    merged = left_leaf u;
    tree = k';
    others = λ z _ _. refl;
    root_parent = λ z _. refl;
  })
  skew_heap_merge_lem (suc fuel) s a b (node x lx rx) leaf k k' o o' p l =
      rw (k.0, k')
        (record {
          entries = s;
          root = some x;
          merge = node x lx rx;
          result = refl;
          merged = right_leaf (node x lx rx);
          tree = (refl, k.1, k.2, k.3, k.4);
          others = λ z _ _. refl;
          root_parent = λ z _. refl;
        })
  skew_heap_merge_lem (suc fuel) s a b (node x lx rx) (node y ly ry) k k' o o' p l =
      elim (Bool-cases (less x y)) [
        | inl e ↦
            rw (k.0, k'.0, skew_heap_merge, e)
              (extend_left s x lx rx y ly ry (skew_heap_merge less fuel s (s x).right (some y)) e
                (refl, k.1, k.2, k.3, k.4) o o' p
                (skew_heap_merge_lem fuel s (s x).right (some y) rx (node y ly ry) k.4
                  (refl, k'.1, k'.2, k'.3, k'.4) o.4 o' p.2 (omega (arith, l))))
        | inr e ↦
            rw (k.0, k'.0, skew_heap_merge, e)
              (extend_right s x lx rx y ly ry (skew_heap_merge less fuel s (some x) (s y).right) e
                (refl, k'.1, k'.2, k'.3, k'.4) o o' p
                (skew_heap_merge_lem fuel s (some x) (s y).right (node x lx rx) ry
                  (refl, k.1, k.2, k.3, k.4) k'.4 o o'.4
                  (Apart-sym ry (node x lx rx) (Apart-sym (node x lx rx) (node y ly ry) p).2)
                  (omega (arith, l))))
      ]
