-- ===== src/Sync/Tests.antt =====
-- A semaphore at 0 that one process waits for, and the theorems at it.
use nk_os_team.Prelude.{ℕ, refl, inl, true, false, [], ◌∷◌, arith, ◌==◌, if◌then◌else◌}
use nk_os_team.Links.{Links, list_init, list_add_before}
use nk_os_team.Links.Members.{Holds-list_init, Holds-insert}
use nk_os_team.Sched.{Proc, Run, Kernel, runnable, sleeping}
use nk_os_team.Sched.RoundRobin.{default_sched_class, rr_init}
use nk_os_team.Sched.RoundRobin.Queue.{rr_init-IsQueue}
use nk_os_team.Sched.Rotation.{IsStable}
use nk_os_team.Sync.{Semaphore, wt_ksem, up, down_begin}
use nk_os_team.Sync.Counting.{IsSemaphore, Upped, up_lem}
use nk_os_team.Sync.Down.{Downed, down_begin_lem}

abbrev no_links : Links
no_links = record { prev = λ e. e; next = λ e. e }

-- Process 2 sleeps, process 1 runs.
abbrev proc : ℕ → Proc
proc p = record {
  state = if p == 2 then sleeping else runnable;
  runs = 0;
  need_resched = false;
  pgdir = 0;
  wait_state = if p == 2 then wt_ksem else 0;
  rq = false;
  time_slice = 0;
}

abbrev machine : Run
machine = record { procs = proc; links = no_links; proc_num = 7; max_time_slice = 5 }

abbrev running : Kernel
running = record { run = rr_init machine; current = 1; idleproc = 0; satp = 0 }

running-IsStable : IsStable running []
unfolding rr_init
running-IsStable = record {
  queue = rr_init-IsQueue machine (λ p. (refl, refl));
  ready = tt;
  off = tt;
  idle_off = tt;
  slice = omega arith;
}

-- The `wait_t` of process 2 is 7.
abbrev one_waits : Semaphore
one_waits = record {
  value = 0;
  queue = record {
    waits = λ w. record { proc = 2; wakeup_flags = 0; wait_queue = true };
    links = list_add_before (list_init no_links 0) 0 8;
    kernel = running;
  };
}

one_waits-IsSemaphore : IsSemaphore one_waits (7 ∷ []) []
unfolding rr_init
one_waits-IsSemaphore = record {
  held =
      Holds-insert (list_init no_links 0) 7 [] [] (Holds-list_init no_links (λ p. (refl, refl))) tt;
  asleep = ((refl, refl, refl), tt);
  apart = (tt, tt);
  counts = inl refl;
  stable = running-IsStable;
}

up_lem_example : Upped one_waits (7 ∷ []) [] (up default_sched_class one_waits)
up_lem_example = up_lem one_waits (7 ∷ []) [] one_waits-IsSemaphore

down_begin_lem_example : Downed one_waits (7 ∷ []) [] 9 (down_begin one_waits 9 wt_ksem)
unfolding rr_init
down_begin_lem_example =
    down_begin_lem one_waits (7 ∷ []) [] 9 one_waits-IsSemaphore (omega arith, tt) refl
