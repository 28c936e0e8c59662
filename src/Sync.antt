-- ===== src/Sync.antt =====
-- kern/sync/wait.c and kern/sync/sem.c: one wait queue and the semaphore over it. A `wait_t` is a
-- number; its link has the number plus one as its address, and address 0 is `wait_head`. The field
-- `wait_queue` is this queue or not, and `proc` is a process, so that it is not null. `none` is a
-- failed `assert` or a loop without fuel.
pub mod Counting
pub mod Down
mod Tests
use nk_os_team.Prelude.{
  ℕ, zero, suc, ◌+◌, ◌-◌, Bool, true, false, not, ◌&&◌, Option, none, some, ltb, ◌==◌,
  if◌then◌else◌, put, ◌>>=◌,
}
use nk_os_team.Links.{
  Links, list_init, list_add_before, list_del_init, list_empty, list_next, list_prev,
}
use nk_os_team.Sched.{Kernel, SchedClass, sleeping, with_proc, wakeup_proc}

-- `wait_t`
pub record Waiter : Type 0 where
  pub proc : ℕ
  pub wakeup_flags : ℕ
  pub wait_queue : Bool

-- `wait_queue_t`, with the `wait_t` that it may reach and the scheduler.
pub record Queue : Type 0 where
  pub waits : ℕ → Waiter
  pub links : Links
  pub kernel : Kernel

abbrev pub wt_interrupted : ℕ
wt_interrupted = 0x80000000

abbrev pub wt_ksem : ℕ
wt_ksem = 0x100

abbrev pub wait_head : ℕ
wait_head = 0

abbrev pub wait_link : ℕ → ℕ
wait_link w = suc w

-- `le2wait`, or null at the head
abbrev pub waiter_at : ℕ → Option ℕ
waiter_at le = if le == wait_head then none else some (le - 1)

unfoldable pub wait_init : Queue → (wait proc : ℕ) → Queue
unfolding list_init
wait_init q w p = record q {
  waits = put q.waits w (record (q.waits w) { proc = p; wakeup_flags = wt_interrupted });
  links = list_init q.links (wait_link w);
}

unfoldable pub wait_queue_init : Queue → Queue
unfolding list_init
wait_queue_init q = record q { links = list_init q.links wait_head }

unfoldable pub wait_queue_add : Queue → ℕ → Option Queue
wait_queue_add q w =
    if list_empty q.links (wait_link w)
    then some (record q {
      waits = put q.waits w (record (q.waits w) { wait_queue = true });
      links = list_add_before q.links wait_head (wait_link w);
    })
    else none

-- What `wait_queue_del`, `wait_queue_next` and `wait_queue_prev` assert.
abbrev pub is_waiting : Queue → ℕ → Bool
is_waiting q w = not (list_empty q.links (wait_link w)) && (q.waits w).wait_queue

unfoldable pub wait_queue_del : Queue → ℕ → Option Queue
wait_queue_del q w =
    if is_waiting q w then some (record q { links = list_del_init q.links (wait_link w) }) else none

unfoldable pub wait_queue_next : Queue → ℕ → Option (Option ℕ)
wait_queue_next q w =
    if is_waiting q w then some (waiter_at (list_next q.links (wait_link w))) else none

unfoldable pub wait_queue_prev : Queue → ℕ → Option (Option ℕ)
wait_queue_prev q w =
    if is_waiting q w then some (waiter_at (list_prev q.links (wait_link w))) else none

unfoldable pub wait_queue_first : Queue → Option ℕ
wait_queue_first q = waiter_at (list_next q.links wait_head)

unfoldable pub wait_queue_last : Queue → Option ℕ
wait_queue_last q = waiter_at (list_prev q.links wait_head)

unfoldable pub wait_queue_empty : Queue → Bool
wait_queue_empty q = list_empty q.links wait_head

unfoldable pub wait_in_queue : Queue → ℕ → Bool
wait_in_queue q w = not (list_empty q.links (wait_link w))

unfoldable pub wait_current_set : Queue → (wait wait_state : ℕ) → Option Queue
unfolding wait_init wait_queue_add
wait_current_set q w state =
    let q₁ = wait_init q w q.kernel.current in
    wait_queue_add
      (record q₁ {
        kernel = record (q₁.kernel) {
          run =
              with_proc q₁.kernel.run q₁.kernel.current
                (λ p. record p { state = sleeping; wait_state = state });
        };
      })
      w

unfoldable pub wait_current_del : Queue → ℕ → Option Queue
unfolding wait_in_queue wait_queue_del
wait_current_del q w = if wait_in_queue q w then wait_queue_del q w else some q

module _ (sched_class : SchedClass) where
  abbrev pub wake_waiter : Queue → (wait flags : ℕ) → Option Queue
  wake_waiter q w flags = do
    let waits' = put q.waits w (record (q.waits w) { wakeup_flags = flags })
    k ← wakeup_proc sched_class q.kernel (waits' w).proc
    some (record q { waits = waits'; kernel = k })

  unfoldable pub wakeup_wait : Queue → (wait flags : ℕ) → (del : Bool) → Option Queue
  unfolding wait_queue_del
  wakeup_wait q w flags del =
      if del then (wait_queue_del q w >>= λ q'. wake_waiter q' w flags) else wake_waiter q w flags

  abbrev pub wakeup_if : Queue → Option ℕ → (flags : ℕ) → (del : Bool) → Option Queue
  wakeup_if q none flags del = some q
  wakeup_if q (some w) flags del = wakeup_wait q w flags del

  unfoldable pub wakeup_first : Queue → (flags : ℕ) → (del : Bool) → Option Queue
  unfolding wait_queue_first wakeup_wait
  wakeup_first q flags del = wakeup_if q (wait_queue_first q) flags del

  -- The two loops of `wakeup_queue`.
  unfoldable pub wakeup_from : ℕ → Queue → Option ℕ → (flags : ℕ) → (del : Bool) → Option Queue
  wakeup_from zero q w flags del = none
  wakeup_from (suc fuel) q none flags del = some q
  wakeup_from (suc fuel) q (some w) flags del = wakeup_wait q w flags del >>= λ q'.
      (if del then some (wait_queue_first q') else wait_queue_next q' w) >>= λ next.
      wakeup_from fuel q' next flags del

  unfoldable pub wakeup_queue : ℕ → Queue → (flags : ℕ) → (del : Bool) → Option Queue
  unfolding wakeup_from
  wakeup_queue fuel q flags del = wakeup_from fuel q (wait_queue_first q) flags del

-- `semaphore_t`. The value is not negative: it is counted down above 0 alone.
pub record Semaphore : Type 0 where
  pub value : ℕ
  pub queue : Queue

unfoldable pub sem_init : Semaphore → (value : ℕ) → Semaphore
unfolding wait_queue_init
sem_init s v = record { value = v; queue = wait_queue_init s.queue }

module _ (sched_class : SchedClass) where
  -- `__up`
  abbrev pub up_first : Semaphore → (wait_state : ℕ) → Option ℕ → Option Semaphore
  up_first s state none = some (record s { value = s.value + 1 })
  up_first s state (some w) =
      if (s.queue.kernel.run.procs (s.queue.waits w).proc).wait_state == state
      then (do q ← wakeup_wait sched_class s.queue w state true; some (record s { queue = q }))
      else none

  unfoldable pub up : Semaphore → Option Semaphore
  unfolding wait_queue_first wakeup_wait
  up s = up_first s wt_ksem (wait_queue_first s.queue)

-- `__down` up to `schedule`, with whether the semaphore was above 0.
unfoldable pub down_begin : Semaphore → (wait wait_state : ℕ) → Option (Semaphore × Bool)
unfolding wait_current_set
down_begin s w state =
    if ltb 0 s.value
    then some (record s { value = s.value - 1 }, true)
    else (do q ← wait_current_set s.queue w state; some (record s { queue = q }, false))

-- `__down` from `schedule` on.
unfoldable pub down_end : Semaphore → (wait wait_state : ℕ) → Option (Semaphore × ℕ)
unfolding wait_current_del
down_end s w state = do
  q ← wait_current_del s.queue w
  some (
    record s { queue = q },
    if (q.waits w).wakeup_flags == state then 0 else (q.waits w).wakeup_flags,
  )

unfoldable pub try_down : Semaphore → Semaphore × Bool
try_down s = if ltb 0 s.value then (record s { value = s.value - 1 }, true) else (s, false)
