-- ===== src/Sched/RoundRobin.antt =====
-- kern/schedule/default_sched.c: the round-robin scheduling class over a list.
pub mod Queue
pub mod Fifo
use nk_os_team.Prelude.{
  ℕ, ◌+◌, ◌-◌, ◌%◌, ◌^◌, true, not, ◌&&◌, ◌||◌, Option, none, some, ◌==◌, ltb, put, if◌then◌else◌,
}
use nk_os_team.Links.{list_init, list_add_before, list_del_init, list_empty, list_next}
use nk_os_team.Sched.{Proc, Run, SchedClass, run_list, run_link, with_proc}

unfoldable pub rr_init : Run → Run
unfolding list_init
rr_init r = record r { links = list_init r.links run_list; proc_num = 0 }

-- `time_slice` is never negative: it is set to `max_time_slice` or counted down to 0.
abbrev pub refill : ℕ → ℕ → ℕ
refill max slice = if slice == 0 || ltb max slice then max else slice

-- The writes of `rr_enqueue`.
unfoldable pub enqueued : Run → ℕ → Run
enqueued r p = record r {
  procs = put r.procs p (record (r.procs p) {
    rq = true;
    time_slice = refill r.max_time_slice (r.procs p).time_slice;
  });
  links = list_add_before r.links run_list (run_link p);
  proc_num = (r.proc_num + 1) % 2 ^ 32;
}

unfoldable pub rr_enqueue : Run → ℕ → Option Run
rr_enqueue r p = if list_empty r.links (run_link p) then some (enqueued r p) else none

-- The writes of `rr_dequeue`.
unfoldable pub dequeued : Run → ℕ → Run
dequeued r p = record r {
  links = list_del_init r.links (run_link p);
  proc_num = (r.proc_num + 2 ^ 32 - 1) % 2 ^ 32;
}

unfoldable pub rr_dequeue : Run → ℕ → Option Run
rr_dequeue r p =
    if not (list_empty r.links (run_link p)) && (r.procs p).rq then some (dequeued r p) else none

-- `le2proc` of an address other than the head.
unfoldable pub rr_pick_next : Run → Option ℕ
rr_pick_next r =
    let le = list_next r.links run_list in if le == run_list then none else some (le - 1)

abbrev pub count_down : Proc → Proc
count_down q = if ltb 0 q.time_slice then record q { time_slice = q.time_slice - 1 } else q

abbrev pub request_resched : Proc → Proc
request_resched q = if q.time_slice == 0 then record q { need_resched = true } else q

unfoldable pub rr_proc_tick : Run → ℕ → Run
rr_proc_tick r p = with_proc r p (λ q. request_resched (count_down q))

abbrev pub default_sched_class : SchedClass
default_sched_class = record {
  init = rr_init;
  enqueue = rr_enqueue;
  dequeue = rr_dequeue;
  pick_next = rr_pick_next;
  proc_tick = rr_proc_tick;
}
