-- ===== src/Sched.antt =====
-- kern/schedule/sched.h, kern/schedule/sched.c and the fields of kern/process/proc.h that they use.
-- A process is named by a number. The `run_link` fields are a store of links of their own, in which
-- address 0 is `rq->run_list` and `p + 1` is the link of process `p`. `none` is a failed `assert`.
-- The kernel runs with interrupts off here, so a function is one step. There is one run queue, so
-- `proc->rq` is null or that queue. Counters of type `int` that only grow are plain numbers.
pub mod RoundRobin
pub mod Rotation
mod Tests
pub mod Wakeup
pub mod Fairness
use nk_os_team.Prelude.{
  ◌>>=◌, ℕ, suc, ◌+◌, Bool, true, false, Option, none, some, ◌==◌, if◌then◌else◌, put,
}
use nk_os_team.Links.{Links}

-- `enum proc_state`
pub data ProcState : Type 0 where
  uninit sleeping runnable zombie : ProcState

pub record Proc : Type 0 where
  pub state : ProcState
  pub runs : ℕ
  pub need_resched : Bool
  pub pgdir : ℕ
  pub wait_state : ℕ
  pub rq : Bool
  pub time_slice : ℕ

-- `struct run_queue` with the process table and the `run_link` fields that it reaches.
pub record Run : Type 0 where
  pub procs : ℕ → Proc
  pub links : Links
  pub proc_num : ℕ
  pub max_time_slice : ℕ

abbrev pub run_list : ℕ
run_list = 0

abbrev pub run_link : ℕ → ℕ
run_link p = suc p

-- `struct sched_class`
pub record SchedClass : Type 0 where
  pub init : Run → Run
  pub enqueue : Run → ℕ → Option Run
  pub dequeue : Run → ℕ → Option Run
  pub pick_next : Run → Option ℕ
  pub proc_tick : Run → ℕ → Run

-- The globals `current` and `idleproc`, and the page table base in `satp`.
pub record Kernel : Type 0 where
  pub run : Run
  pub current : ℕ
  pub idleproc : ℕ
  pub satp : ℕ

abbrev pub is_runnable : ProcState → Bool
is_runnable runnable = true
is_runnable _ = false

abbrev pub is_zombie : ProcState → Bool
is_zombie zombie = true
is_zombie _ = false

-- A field of one process is written.
abbrev pub with_proc : Run → ℕ → (Proc → Proc) → Run
with_proc r p f = record r { procs = put r.procs p (f (r.procs p)) }

module _ (sched_class : SchedClass) where
  unfoldable pub sched_class_enqueue : Kernel → ℕ → Option Kernel
  sched_class_enqueue k p =
      if p == k.idleproc
      then some k
      else (do r ← sched_class.enqueue k.run p; some (record k { run = r }))

  unfoldable pub sched_class_dequeue : Kernel → ℕ → Option Kernel
  sched_class_dequeue k p = do r ← sched_class.dequeue k.run p; some (record k { run = r })

  unfoldable pub sched_class_pick_next : Kernel → Option ℕ
  sched_class_pick_next k = sched_class.pick_next k.run

  unfoldable pub sched_class_proc_tick : Kernel → ℕ → Kernel
  sched_class_proc_tick k p = record k {
    run =
        if p == k.idleproc
        then with_proc k.run p (λ q. record q { need_resched = true })
        else sched_class.proc_tick k.run p;
  }

  -- A runnable process is only warned about.
  unfoldable pub wakeup_proc : Kernel → ℕ → Option Kernel
  unfolding sched_class_enqueue
  wakeup_proc k p =
      if is_zombie (k.run.procs p).state
      then none
      else if is_runnable (k.run.procs p).state
      then some k
      else let k' = record k {
        run = with_proc k.run p (λ q. record q { state = runnable; wait_state = 0 });
      } in
        if p == k.current then some k' else sched_class_enqueue k' p

  -- `proc_run`: the new process's page table is loaded and it becomes `current`; the register
  -- switch of `switch_to` is not part of this state.
  unfoldable pub proc_run : Kernel → ℕ → Kernel
  proc_run k p = record k { current = p; satp = (k.run.procs p).pgdir }

  -- `next->runs++`, and the switch if `next` is another process.
  unfoldable pub switch_to_next : Kernel → ℕ → Kernel
  unfolding proc_run
  switch_to_next k next =
      let k' = record k { run = with_proc k.run next (λ q. record q { runs = q.runs + 1 }) } in
      if next == k.current then k' else proc_run k' next

  -- `next = sched_class_pick_next()`, taken off the queue, or `idleproc`.
  unfoldable pub run_next : Kernel → Option ℕ → Option Kernel
  unfolding switch_to_next sched_class_dequeue
  run_next k none = some (switch_to_next k k.idleproc)
  run_next k (some next) = do k' ← sched_class_dequeue k next; some (switch_to_next k' next)

  -- A runnable `current` goes back to the queue.
  unfoldable pub requeue : Kernel → Option Kernel
  unfolding sched_class_enqueue
  requeue k =
      if is_runnable (k.run.procs k.current).state then sched_class_enqueue k k.current else some k

  unfoldable pub schedule : Kernel → Option Kernel
  unfolding requeue sched_class_pick_next run_next
  schedule k = do
    k' ←
        requeue
          (record k { run = with_proc k.run k.current (λ q. record q { need_resched = false }) })
    run_next k' (sched_class_pick_next k')
