-- ===== src/Timer.antt =====
-- The timers of kern/schedule/sched.c: a list in which each timer holds the ticks left after the
-- timer before it. A timer is named by a number; its `timer_link` is the address after it, and
-- address 0 is `timer_list`. `none` is a failed `assert`, a null pointer read, or a loop that uses
-- up its fuel.
pub mod Deadlines
pub mod Add
pub mod Delete
pub mod Expire
mod Tests
use nk_os_team.Prelude.{
  ◌>>=◌, ℕ, zero, suc, ◌+◌, ◌-◌, ◌/◌, ◌%◌, ◌^◌, Bool, true, false, ◌&&◌, ◌||◌, Option, none, some,
  ltb, ◌==◌, if◌then◌else◌, put,
}
use nk_os_team.Links.{Links, list_init, list_add_before, list_del_init, list_empty, list_next}
use nk_os_team.Sched.{Kernel, Run, SchedClass, wakeup_proc, sched_class_proc_tick}

-- `timer_t`: `expires` is an `unsigned int`, `proc` a pointer.
pub record Timer : Type 0 where
  pub expires : ℕ
  pub proc : Option ℕ

pub record Timers : Type 0 where
  pub timers : ℕ → Timer
  pub links : Links

abbrev pub timer_list : ℕ
timer_list = 0

abbrev pub timer_link : ℕ → ℕ
timer_link t = suc t

abbrev pub le2timer : ℕ → ℕ
le2timer le = le - 1

abbrev pub set_expires : Timers → ℕ → ℕ → Timers
set_expires s t e = record s { timers = put s.timers t (record (s.timers t) { expires = e }) }

unfoldable pub timer_init : Timers → (timer proc expires : ℕ) → Timers
unfolding list_init
timer_init s t p e = record {
  timers = put s.timers t (record { expires = e; proc = some p });
  links = list_init s.links (timer_link t);
}

-- The timer list and the run queue at the start, with the class `init` of the queue.
abbrev pub sched_init : (Run → Run) → Timers → Run → Timers × Run
sched_init init s r =
    (record s { links = list_init s.links timer_list }, init (record r { max_time_slice = 5 }))

abbrev pub is_some : Option ℕ → Bool
is_some none = false
is_some (some p) = true

-- The `while` of `add_timer` from entry `le` on, and the entry where it stops. Both subtractions
-- are made where they cannot wrap.
unfoldable pub find_place : ℕ → Timers → (timer le : ℕ) → Option (Timers × ℕ)
find_place zero s t le = none
find_place (suc fuel) s t le =
    let next = le2timer le in
    let left = (s.timers t).expires in
    let step = (s.timers next).expires in
    let rest = find_place fuel (set_expires s t (left - step)) t (list_next s.links le) in
    if le == timer_list
    then some (s, le)
    else if ltb left step
    then some (set_expires s next (step - left), le)
    else rest

unfoldable pub add_timer : ℕ → Timers → ℕ → Option Timers
unfolding find_place
add_timer fuel s t =
    if ltb 0 (s.timers t).expires && is_some (s.timers t).proc && list_empty s.links (timer_link t)
    then (do
      (s', le) ← find_place fuel s t (list_next s.links timer_list)
      some (record s' { links = list_add_before s'.links le (timer_link t) }))
    else none

-- `next->expires += timer->expires`, unless the timer has run out or is the last.
unfoldable pub pass_on : Timers → ℕ → Timers
pass_on s t =
    let le = list_next s.links (timer_link t) in
    if (s.timers t).expires == 0 || le == timer_list
    then s
    else set_expires s (le2timer le)
        (((s.timers (le2timer le)).expires + (s.timers t).expires) % 2 ^ 32)

unfoldable pub del_timer : Timers → ℕ → Timers
unfolding pass_on
del_timer s t =
    if list_empty s.links (timer_link t)
    then s
    else let s' = pass_on s t in record s' { links = list_del_init s'.links (timer_link t) }

-- `wait_state & WT_INTERRUPTED`
abbrev pub interrupted : ℕ → Bool
interrupted w = w / 2 ^ 31 % 2 == 1

module _ (sched_class : SchedClass) where
  -- A process that a timer wakes either waits for something that can be interrupted, or is only
  -- warned about.
  unfoldable pub wake : Kernel → Option ℕ → Option Kernel
  wake k none = none
  wake k (some p) =
      let w = (k.run.procs p).wait_state in
      if w == 0 || interrupted w then wakeup_proc sched_class k p else none

  -- The `while` of `run_timer_list` at `timer`.
  unfoldable pub expire : ℕ → Timers → Kernel → ℕ → Option (Timers × Kernel)
  unfolding wake
  expire zero s k t = none
  expire (suc fuel) s k t =
      let le = list_next s.links (timer_link t) in
      let woken = wake k (s.timers t).proc >>= λ k'.
      let rest = expire fuel (del_timer s t) k' (le2timer le) in
      if le == timer_list then some (del_timer s t, k') else rest in
      if (s.timers t).expires == 0 then woken else some (s, k)

  -- The first timer loses a tick, which must be left.
  unfoldable pub expire_first : ℕ → Timers → Kernel → ℕ → Option (Timers × Kernel)
  unfolding expire
  expire_first fuel s k t =
      if (s.timers t).expires == 0
      then none
      else expire fuel (set_expires s t ((s.timers t).expires - 1)) k t

  -- `current` is never null here.
  unfoldable pub run_timer_list : ℕ → Timers → Kernel → Option (Timers × Kernel)
  unfolding expire_first
  run_timer_list fuel s k = do
    (s', k') ← expired
    some (s', sched_class_proc_tick sched_class k' k'.current)
    where
      expired : Option (Timers × Kernel)
      expired =
          let le = list_next s.links timer_list in
          if le == timer_list then some (s, k) else expire_first fuel s k (le2timer le)
