-- ===== src/Sched/Tests.antt =====
-- Runs of the scheduler on a small process table, and the theorems at it.
use nk_os_team.Prelude.{◌≡◌, refl, false, some, List, [], ◌∷◌, arith, ◌==◌, if◌then◌else◌}
use nk_os_team.Links.{list_add_before}
use nk_os_team.Sched.RoundRobin.Fifo.{
  Call, enqueue, dequeue, calls, promises, promise, push, remove, contains, Agrees, calls-Agrees,
}
use nk_os_team.Sched.{Kernel, Run, Proc, runnable, sleeping, schedule, wakeup_proc}
use nk_os_team.Sched.RoundRobin.{rr_init, rr_pick_next, enqueued, default_sched_class}
use nk_os_team.Sched.RoundRobin.Queue.{IsQueue, rr_init-IsQueue, enqueued-IsQueue}
use nk_os_team.Sched.Rotation.{IsStable, schedule_rotates}
use nk_os_team.Sched.Wakeup.{wakeup_proc_lem}
use nk_os_team.Sched.Fairness.{schedules, bounded_wait}

abbrev ready : Proc
ready = record {
  state = runnable;
  runs = 0;
  need_resched = false;
  pgdir = 0;
  wait_state = 0;
  rq = false;
  time_slice = 0;
}

-- Process 0 idles and 5 sleeps; the others can run.
abbrev booted : Run
booted = record {
  procs = λ p. if p == 5 then record ready { state = sleeping } else ready;
  links = record { prev = λ e. e; next = λ e. e };
  proc_num = 7;
  max_time_slice = 5;
}

abbrev two_waiting : Run
two_waiting = enqueued (enqueued (rr_init booted) 2) 3

two_waiting-IsQueue : IsQueue two_waiting (2 ∷ 3 ∷ [])
unfolding enqueued rr_init
two_waiting-IsQueue =
    enqueued-IsQueue (enqueued (rr_init booted) 2) 3 (2 ∷ []) (omega arith)
      (enqueued-IsQueue (rr_init booted) 2 [] (omega arith)
        (rr_init-IsQueue booted (λ p. (refl, refl))) tt)
      (omega arith)

abbrev running : Kernel
running = record { run = two_waiting; current = 1; idleproc = 0; satp = 0 }

running-IsStable : IsStable running (2 ∷ 3 ∷ [])
unfolding enqueued rr_init
running-IsStable = record {
  queue = two_waiting-IsQueue;
  ready = (refl, (refl, tt));
  off = omega arith;
  idle_off = omega arith;
  slice = omega arith;
}

picks_first : rr_pick_next two_waiting ≡ some 2
unfolding rr_pick_next enqueued rr_init list_add_before
picks_first = refl

abbrev history : List Call
history = enqueue 4 ∷ dequeue 3 ∷ enqueue 3 ∷ []

calls-Agrees_example : Agrees (calls two_waiting history) (promises (2 ∷ 3 ∷ []) history)
unfolding enqueued rr_init
calls-Agrees_example =
    calls-Agrees two_waiting (2 ∷ 3 ∷ []) history two_waiting-IsQueue (omega arith)

promises-history : promises (2 ∷ 3 ∷ []) history ≡ some (2 ∷ 4 ∷ 3 ∷ [])
unfolding promises promise push remove contains
promises-history = refl

schedule_rotates_example :
    (k : Kernel) × (schedule default_sched_class running ≡ some k)
    × (k.current ≡ 2)
    × IsStable k (3 ∷ 1 ∷ [])
unfolding enqueued rr_init
schedule_rotates_example = schedule_rotates running (2 ∷ 3 ∷ []) running-IsStable

bounded_wait_example : (k : Kernel) × (schedules 2 running ≡ some k) × (k.current ≡ 3)
bounded_wait_example = bounded_wait running (2 ∷ []) [] 3 running-IsStable

wakeup_proc_lem_example :
    (k : Kernel) × (wakeup_proc default_sched_class running 5 ≡ some k)
    × ((k.run.procs 5).state ≡ runnable)
    × (k.current ≡ 1)
    × IsStable k (2 ∷ 3 ∷ 5 ∷ [])
unfolding enqueued rr_init
wakeup_proc_lem_example = wakeup_proc_lem running 5 (2 ∷ 3 ∷ []) running-IsStable refl
