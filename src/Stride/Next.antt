-- ===== src/Stride/Next.antt =====
-- A round of the stride class: the process that runs next is picked and taken out.
use native.Mathlib.Nat.{div-le_self}
use nk_os_team.Prelude.{
  ℕ, ◌+◌, ◌-◌, ◌/◌, ◌%◌, ◌^◌, ◌≤◌, ◌<◌, ◌≡◌, refl, sym, ◌≢◌, true, none, some, arith, ==_iff,
  ==_of_ne, lt→ltb, put,
}
use nk_os_team.Skew.{set_parent, skew_heap_merge, skew_heap_remove}
use nk_os_team.Skew.Trees.{
  Tree, leaf, node, size, Every, Absent, Merged, Every-Merged, Every-map, Every-both,
}
use nk_os_team.Skew.Refine.{MergedTo, Once-Merged, skew_heap_merge_lem}
use nk_os_team.Stride.{Pool, big_stride, stride_less, stride_dequeue, stride_pick_next}
use nk_os_team.Stride.Order.{ahead, IsHeap, IsNear, Merged-IsHeap, between_strides, pass_ahead}
use nk_os_team.Stride.Round.{IsPool, set_parent-IsTree, set_parent_top}

-- The same order by distances from another base.
IsHeap-shift :
    (key key' : ℕ → ℕ) (c : ℕ) (t : Tree)
    → Every (λ z. key' z + c ≡ key z) t
    → IsHeap key t
    → IsHeap key' t
IsHeap-shift key key' c leaf e h = tt
IsHeap-shift key key' c (node x l r) e h = (
  below l e.1 h.0,
  below r e.2 h.1,
  IsHeap-shift key key' c l e.1 h.2,
  IsHeap-shift key key' c r e.2 h.3,
)
  where
    below :
        (t : Tree)
        → Every (λ z. key' z + c ≡ key z) t
        → Every (λ y. key x ≤ key y) t
        → Every (λ y. key' x ≤ key' y) t
    below t k m =
        Every-map (λ z. (key' z + c ≡ key z) × (key x ≤ key z)) (λ y. key' x ≤ key' y) t
          (λ z n. omega (arith, n.0, n.1, e.0))
          (Every-both (λ z. key' z + c ≡ key z) (λ y. key x ≤ key y) t k m)

module _ (r : Pool) (base x : ℕ) (lx rx : Tree) (v : IsPool r base (node x lx rx))
    (priority : 0 < r.lab6_priority x) where
  abbrev strides : ℕ → ℕ
  strides = put r.lab6_stride x ((r.lab6_stride x + big_stride / r.lab6_priority x) % 2 ^ 32)

  abbrev chosen : Pool
  chosen = record r { lab6_stride = strides }

  picks : stride_pick_next r ≡ some (chosen, some x)
  unfolding stride_pick_next
  picks = rw (v.tree.0, ==_of_ne (r.lab6_priority x) 0 (omega arith)) refl

  -- Distances from the stride that `x` had.
  shifted :
      (z : ℕ)
      → x ≢ z
      → IsNear base r.lab6_stride z
      → ahead base r.lab6_stride x ≤ ahead base r.lab6_stride z
      → IsNear (r.lab6_stride x) strides z
        × (ahead (r.lab6_stride x) strides z + ahead base r.lab6_stride x
            ≡ ahead base r.lab6_stride z)
  shifted z n k l =
      let d = between_strides base (r.lab6_stride x) (r.lab6_stride z) v.fits v.near.0.0 k.0 l in
      rw (==_of_ne z x (λ e. n (sym e))) ((k.0, omega (arith, d, k.1)), d)

  -- The subtrees by distances from the stride of their root.
  below_shifted :
      (t : Tree)
      → Absent x t
      → Every (IsNear base r.lab6_stride) t
      → Every (λ z. ahead base r.lab6_stride x ≤ ahead base r.lab6_stride z) t
      → IsHeap (ahead base r.lab6_stride) t
      → Every (IsNear (r.lab6_stride x) strides) t × IsHeap (ahead (r.lab6_stride x) strides) t
  below_shifted t n k l h =
      let both =
        Every-map
          (λ z.
            (x ≢ z)
            × (IsNear base r.lab6_stride z
                × (ahead base r.lab6_stride x ≤ ahead base r.lab6_stride z)))
          (λ z.
            IsNear (r.lab6_stride x) strides z
            × (ahead (r.lab6_stride x) strides z + ahead base r.lab6_stride x
                ≡ ahead base r.lab6_stride z))
          t (λ z m. shifted z m.0 m.1.0 m.1.1)
          (Every-both (λ z. x ≢ z)
            (λ z.
              IsNear base r.lab6_stride z
              × (ahead base r.lab6_stride x ≤ ahead base r.lab6_stride z))
            t n
            (Every-both (IsNear base r.lab6_stride)
              (λ z. ahead base r.lab6_stride x ≤ ahead base r.lab6_stride z) t k l)) in
      (
        Every-map
            (λ z.
              IsNear (r.lab6_stride x) strides z
              × (ahead (r.lab6_stride x) strides z + ahead base r.lab6_stride x
                  ≡ ahead base r.lab6_stride z))
            (IsNear (r.lab6_stride x) strides) t (λ z m. m.0) both,
        IsHeap-shift (ahead base r.lab6_stride) (ahead (r.lab6_stride x) strides)
            (ahead base r.lab6_stride x) t
            (Every-map
              (λ z.
                IsNear (r.lab6_stride x) strides z
                × (ahead (r.lab6_stride x) strides z + ahead base r.lab6_stride x
                    ≡ ahead base r.lab6_stride z))
              (λ z.
                ahead (r.lab6_stride x) strides z + ahead base r.lab6_stride x
                ≡ ahead base r.lab6_stride z)
              t (λ z m. m.1) both)
            h,
      )

  own-IsNear : IsNear (r.lab6_stride x) strides x
  own-IsNear =
      let d = big_stride / r.lab6_priority x in
      rw ((==_iff x x).1 refl) (
        omega arith,
        rw (pass_ahead (r.lab6_stride x) d v.near.0.0 (div-le_self big_stride (r.lab6_priority x)))
            (div-le_self big_stride (r.lab6_priority x)),
      )

  taken_out :
      (fuel : ℕ)
      → size lx + size rx < fuel
      → MergedTo (stride_less strides) r.entries lx rx (
          skew_heap_merge
            (stride_less strides)
            fuel
            r.entries
            (r.entries x).left
            (r.entries x).right)
  taken_out fuel l =
      skew_heap_merge_lem (stride_less strides) fuel r.entries (r.entries x).left
        (r.entries x).right lx rx v.tree.3 v.tree.4 v.once.3 v.once.4 v.once.2 l

-- A round on a pool with root `x`: it is picked, with its new stride, and leaves the pool.
pub record Round (r : Pool) (base x : ℕ) (lx rx : Tree) (fuel : ℕ) : Type 0 where
  pub chosen_pool : Pool
  pub pool : Pool
  pub merge : Tree
  pub pick : stride_pick_next r ≡ some (chosen_pool, some x)
  pub dequeue : stride_dequeue fuel chosen_pool x ≡ some pool
  pub merged : Merged (stride_less chosen_pool.lab6_stride) lx rx merge
  pub least : Every (λ z. ahead base r.lab6_stride x ≤ ahead base r.lab6_stride z) (node x lx rx)
  pub valid : IsPool pool (r.lab6_stride x) merge
  pub may_return : IsNear (r.lab6_stride x) pool.lab6_stride x
  pub gone : Absent x merge

-- `stride_pick_next` picks a process whose stride is the least, if its priority is not 0, and
-- `stride_dequeue` takes it out and leaves the others a heap, with fuel for one round more than there
-- are processes. No stride, that of the process with its new stride included, is then more than
-- `BIG_STRIDE` ahead of the stride that it had, so that it may be enqueued again.
pub stride_round_lem :
    (fuel : ℕ) (r : Pool) (base x : ℕ) (lx rx : Tree)
    → IsPool r base (node x lx rx)
    → 0 < r.lab6_priority x
    → (r.run.procs x).rq ≡ true
    → 0 < r.run.proc_num
    → size lx + size rx < fuel
    → Round r base x lx rx fuel
unfolding stride_dequeue skew_heap_remove
stride_round_lem fuel r base x lx rx v p q n l =
    let h = taken_out r base x lx rx v p fuel l in
    let ts = strides r base x lx rx v p in
    let top = set_parent h.entries h.root none in
    let left = below_shifted r base x lx rx v p lx v.once.0 v.near.1 v.heap.0 v.heap.2 in
    let right = below_shifted r base x lx rx v p rx v.once.1 v.near.2 v.heap.1 v.heap.3 in
    let once = Once-Merged (stride_less ts) lx rx h.merge h.merged v.once.3 v.once.4 v.once.2 in
    record {
      chosen_pool = chosen r base x lx rx v p;
      pool = record r {
        lab6_stride = ts;
        entries = top;
        lab6_run_pool = h.root;
        run = record (r.run) { proc_num = r.run.proc_num - 1 };
      };
      merge = h.merge;
      pick = picks r base x lx rx v p;
      dequeue = rw (q, lt→ltb 0 r.run.proc_num n, h.result, v.top x v.tree.0) refl;
      merged = h.merged;
      least = (omega arith, v.heap.0, v.heap.1);
      valid = record {
        tree = set_parent-IsTree h.entries h.root none h.merge h.tree once;
        once = once;
        top = λ z e. set_parent_top h.entries h.root none z e;
        heap =
            Merged-IsHeap (r.lab6_stride x) ts v.near.0.0 lx rx h.merge h.merged left.0 right.0
              left.1 right.1;
        near =
            Every-Merged (IsNear (r.lab6_stride x) ts) (stride_less ts) lx rx h.merge h.merged
              left.0 right.0;
        fits = v.near.0.0;
      };
      may_return = own-IsNear r base x lx rx v p;
      gone = Every-Merged (λ z. x ≢ z) (stride_less ts) lx rx h.merge h.merged v.once.0 v.once.1;
    }
