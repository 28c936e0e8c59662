-- ===== src/Stride/Round.antt =====
-- The pool of the stride class: what waits is a heap, and the strides stay close to each other.
use mathlib.Core.Path.{subst}
use nk_os_team.Prelude.{
  ℕ, ◌+◌, ◌^◌, ◌<◌, ◌≡◌, refl, sym, ap, ◌∙◌, ◌≢◌, ◌⊎◌, inl, inr, Bool, true, Option, none, some,
  arith, ◌==◌, ==_iff, ==_of_ne, Bool-cases,
}
use nk_os_team.Skew.{Entry, set_parent, skew_heap_init, skew_heap_merge, skew_heap_insert}
use nk_os_team.Skew.Trees.{
  Tree, leaf, node, size, Every, Absent, Apart, Once, Merged, left_leaf, right_leaf, keep_left,
  keep_right, Every-Merged, Every-map,
}
use nk_os_team.Skew.Merge.{IsTree, ParentIs-kept, IsTree-kept}
use nk_os_team.Skew.Refine.{MergedTo, Once-Merged, skew_heap_merge_lem}
use nk_os_team.Stride.{Pool, count_in, stride_less, stride_enqueue}
use nk_os_team.Stride.Order.{ahead, IsHeap, IsNear, Merged-IsHeap}

-- The processes of a tree wait, and no stride is more than `BIG_STRIDE` ahead of a base.
pub record IsPool (r : Pool) (base : ℕ) (t : Tree) : Type 0 where
  pub tree : IsTree r.entries r.lab6_run_pool t
  pub once : Once t
  pub top : (z : ℕ) → r.lab6_run_pool ≡ some z → (r.entries z).parent ≡ none
  pub heap : IsHeap (ahead base r.lab6_stride) t
  pub near : Every (IsNear base r.lab6_stride) t
  pub fits : base < 2 ^ 32

abbrev root_of : Tree → Option ℕ
root_of leaf = none
root_of (node x l r) = some x

IsTree-root : (s : ℕ → Entry) (root : Option ℕ) (t : Tree) → IsTree s root t → root ≡ root_of t
IsTree-root s root leaf k = k
IsTree-root s root (node x l r) k = k.0

-- The root of a merge is one of the two roots.
root-Merged :
    (less : ℕ → ℕ → Bool) (t u m : Tree)
    → Merged less t u m
    → (root_of m ≡ root_of t) ⊎ (root_of m ≡ root_of u)
root-Merged less _ _ _ (left_leaf u) = inr refl
root-Merged less _ _ _ (right_leaf t) = inl refl
root-Merged less _ _ _ (keep_left a la ra b lb rb m e g) = inl refl
root-Merged less _ _ _ (keep_right a la ra b lb rb m e g) = inr refl

-- A root's `parent` is not part of its tree.
pub set_parent-IsTree :
    (s : ℕ → Entry) (root p : Option ℕ) (t : Tree)
    → IsTree s root t
    → Once t
    → IsTree (set_parent s root p) root t
set_parent-IsTree s root p leaf k o = rw k refl
set_parent-IsTree s root p (node x l r) k o =
    subst (λ h. IsTree (set_parent s h p) h (node x l r)) (sym k.0)
      (let s' = set_parent s (some x) p in
        let same = λ (t : Tree).
          Every-map (λ z. x ≢ z) (λ z. s' z ≡ s z) t
            (λ z n. rw (==_of_ne z x (λ e. n (sym e))) refl) in
        let e : s' x ≡ record (s x) { parent = p } = rw ((==_iff x x).1 refl) refl in
        let left = same l o.0 in
        let right = same r o.1 in
        (
          refl,
          ParentIs-kept s s' x l left k.1,
          ParentIs-kept s s' x r right k.2,
          subst (λ h. IsTree s' h l) (ap (λ v. v.left) (sym e))
              (IsTree-kept s s' (s x).left l left k.3),
          subst (λ h. IsTree s' h r) (ap (λ v. v.right) (sym e))
              (IsTree-kept s s' (s x).right r right k.4),
        ))

pub set_parent_top :
    (s : ℕ → Entry) (root p : Option ℕ) (z : ℕ) → root ≡ some z → (set_parent s root p z).parent ≡ p
set_parent_top s none p z e = cc e
set_parent_top s (some x) p z e = rw ((==_iff z x).1 (sym (cc e))) refl

module _ (fuel : ℕ) (r : Pool) (base : ℕ) (t : Tree) (p : ℕ) (v : IsPool r base t)
    (new : Absent p t) (near_p : IsNear base r.lab6_stride p) (enough : size t + 1 < fuel) where
  abbrev single : Tree
  single = node p leaf leaf

  initial_same : Every (λ z. skew_heap_init r.entries p z ≡ r.entries z) t
  initial_same =
      Every-map (λ z. p ≢ z) (λ z. skew_heap_init r.entries p z ≡ r.entries z) t
        (λ z n. rw (==_of_ne z p (λ e. n (sym e))) refl) new

  initial_self : skew_heap_init r.entries p p ≡ record { parent = none; left = none; right = none }
  initial_self = rw ((==_iff p p).1 refl) refl

  abbrev inserted : Option ((ℕ → Entry) × Option ℕ)
  inserted =
      skew_heap_merge (stride_less r.lab6_stride) fuel (skew_heap_init r.entries p) r.lab6_run_pool
        (some p)

  apart : Apart t single
  apart = Every-map (λ z. p ≢ z) (λ z. Absent z single) t (λ z n. (λ e. n (sym e), tt, tt)) new

  inserted-MergedTo :
      MergedTo (stride_less r.lab6_stride) (skew_heap_init r.entries p) t single inserted
  inserted-MergedTo =
      skew_heap_merge_lem (stride_less r.lab6_stride) fuel (skew_heap_init r.entries p)
        r.lab6_run_pool (some p) t single
        (IsTree-kept r.entries (skew_heap_init r.entries p) r.lab6_run_pool t initial_same v.tree)
        (refl, tt, tt, ap (λ e. e.left) initial_self, ap (λ e. e.right) initial_self) v.once
        (tt, tt, tt, tt, tt) apart (omega (arith, enough))

  top_initial :
      (z : ℕ)
      → (r.lab6_run_pool ≡ some z) ⊎ (some p ≡ some z)
      → (skew_heap_init r.entries p z).parent ≡ none
  top_initial z (inl e) = elim (Bool-cases (z == p)) [
    | inl k ↦ rw k refl
    | inr k ↦ rw k (v.top z e)
  ]
  top_initial z (inr e) = rw ((==_iff z p).1 (sym (cc e))) refl

-- What an insertion of `p` gives.
pub record Enqueued (r : Pool) (base : ℕ) (t : Tree) (p : ℕ) (o : Option Pool) : Type 0 where
  pub pool : Pool
  pub merge : Tree
  pub result : o ≡ some pool
  pub merged : Merged (stride_less r.lab6_stride) t (node p leaf leaf) merge
  pub valid : IsPool pool base merge
  pub queued : (pool.run.procs p).rq ≡ true

-- `stride_enqueue` of a process that does not wait, and whose stride is not too far ahead, keeps the
-- pool a heap, with fuel for two rounds more than there are processes.
pub stride_enqueue_lem :
    (fuel : ℕ) (r : Pool) (base : ℕ) (t : Tree) (p : ℕ)
    → IsPool r base t
    → Absent p t
    → IsNear base r.lab6_stride p
    → size t + 1 < fuel
    → Enqueued r base t p (stride_enqueue fuel r p)
unfolding stride_enqueue skew_heap_insert
stride_enqueue_lem fuel r base t p v new n enough =
    let h = inserted-MergedTo fuel r base t p v new n enough in
    let one = single fuel r base t p v new n enough in
    let less = stride_less r.lab6_stride in
    record {
      pool = record r { entries = h.entries; lab6_run_pool = h.root; run = count_in r.run p };
      merge = h.merge;
      result = rw (h.result) refl;
      merged = h.merged;
      valid = record {
        tree = h.tree;
        once =
            Once-Merged less t one h.merge h.merged v.once (tt, tt, tt, tt, tt)
              (apart fuel r base t p v new n enough);
        top = λ z e.
            h.root_parent z e
            ∙ top_initial fuel r base t p v new n enough z
                (elim (root-Merged less t one h.merge h.merged) [
                  | inl k ↦ inl (
                      IsTree-root r.entries r.lab6_run_pool t v.tree
                      ∙ sym k
                      ∙ sym (IsTree-root h.entries h.root h.merge h.tree)
                      ∙ e)
                  | inr k ↦ inr (sym k ∙ sym (IsTree-root h.entries h.root h.merge h.tree) ∙ e)
                ]);
        heap =
            Merged-IsHeap base r.lab6_stride v.fits t one h.merge h.merged v.near (n, tt, tt) v.heap
              (tt, tt, tt, tt);
        near =
            Every-Merged (IsNear base r.lab6_stride) less t one h.merge h.merged v.near (n, tt, tt);
        fits = v.fits;
      };
      queued = rw ((==_iff p p).1 refl) refl;
    }
