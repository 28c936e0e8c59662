-- ===== src/Stride/Tests.antt =====
-- A pool of two processes whose strides lie on both sides of the wrap-around, and the theorems at it.
use nk_os_team.Prelude.{ℕ, ◌≡◌, refl, true, false, none, some, arith, ◌==◌, if◌then◌else◌}
use nk_os_team.Sched.{Proc, runnable}
use nk_os_team.Skew.{Entry, skew_heap_merge}
use nk_os_team.Skew.Trees.{Tree, leaf, node}
use nk_os_team.Skew.Refine.{MergedTo, skew_heap_merge_lem}
use nk_os_team.Stride.{Pool, stride_less, stride_enqueue}
use nk_os_team.Stride.Round.{IsPool, Enqueued, stride_enqueue_lem}
use nk_os_team.Stride.Next.{Round, stride_round_lem}

abbrev two_entries : ℕ → Entry
two_entries p =
    if p == 1
    then record { parent = none; left = some 2; right = none }
    else record { parent = if p == 2 then some 1 else none; left = none; right = none }

abbrev stride : ℕ → ℕ
stride p = if p == 1 then 0xFFFFFFF0 else if p == 2 then 5 else 9

abbrev ready : Proc
ready = record {
  state = runnable;
  runs = 0;
  need_resched = false;
  pgdir = 0;
  wait_state = 0;
  rq = true;
  time_slice = 4;
}

abbrev two_wait : Pool
two_wait = record {
  run = record {
    procs = λ p. ready;
    links = record { prev = λ e. e; next = λ e. e };
    proc_num = 2;
    max_time_slice = 5;
  };
  entries = two_entries;
  lab6_run_pool = some 1;
  lab6_stride = stride;
  lab6_priority = λ p. 2;
}

abbrev two : Tree
two = node 1 (node 2 leaf leaf) leaf

two_wait-IsPool : IsPool two_wait 0xFFFFFFF0 two
two_wait-IsPool = record {
  tree = (refl, refl, tt, (refl, tt, tt, refl, refl), refl);
  once = ((omega arith, tt, tt), tt, (tt, tt, tt), (tt, tt, tt, tt, tt), tt);
  top = λ z e. let i : z ≡ 1 = cc e in rw i refl;
  heap = ((omega arith, tt, tt), tt, (tt, tt, tt, tt), tt);
  near = ((omega arith, omega arith), ((omega arith, omega arith), tt, tt), tt);
  fits = omega arith;
}

stride_enqueue_lem_example : Enqueued two_wait 0xFFFFFFF0 two 3 (stride_enqueue 9 two_wait 3)
stride_enqueue_lem_example =
    stride_enqueue_lem 9 two_wait 0xFFFFFFF0 two 3 two_wait-IsPool
      (omega arith, (omega arith, tt, tt), tt) (omega arith, omega arith) (omega arith)

stride_round_lem_example : Round two_wait 0xFFFFFFF0 1 (node 2 leaf leaf) leaf 9
stride_round_lem_example =
    stride_round_lem 9 two_wait 0xFFFFFFF0 1 (node 2 leaf leaf) leaf two_wait-IsPool (omega arith)
      refl (omega arith) (omega arith)

skew_heap_merge_lem_example :
    MergedTo
      (stride_less stride)
      two_entries
      two
      (node 3 leaf leaf)
      (skew_heap_merge (stride_less stride) 9 two_entries (some 1) (some 3))
skew_heap_merge_lem_example =
    skew_heap_merge_lem (stride_less stride) 9 two_entries (some 1) (some 3) two (node 3 leaf leaf)
      two_wait-IsPool.tree (refl, tt, tt, refl, refl) two_wait-IsPool.once (tt, tt, tt, tt, tt)
      ((omega arith, tt, tt), ((omega arith, tt, tt), tt, tt), tt) (omega arith)
