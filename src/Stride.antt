-- ===== src/Stride.antt =====
-- kern/schedule/default_sched_stride.c: the stride scheduling class over a skew heap, with
-- USE_SKEW_HEAP. The entry `lab6_run_pool` of a process has the number of the process. Strides are
-- below 2 ^ 32. `none` is a failed `assert`, a division by zero, or a merge without fuel.
pub mod Order
pub mod Round
pub mod Next
mod Tests
use nk_os_team.Prelude.{
  ℕ, ◌+◌, ◌-◌, ◌/◌, ◌%◌, ◌^◌, Bool, true, ◌&&◌, Option, none, some, ltb, leb, ◌==◌, if◌then◌else◌,
  put, ◌>>=◌,
}
use nk_os_team.Links.{list_init}
use nk_os_team.Sched.{Run, run_list, with_proc}
use nk_os_team.Sched.RoundRobin.{refill, count_down, request_resched}
use nk_os_team.Skew.{Entry, skew_heap_insert, skew_heap_remove}

-- `struct run_queue` with the processes' fields for this class.
pub record Pool : Type 0 where
  pub run : Run
  pub entries : ℕ → Entry
  pub lab6_run_pool : Option ℕ
  pub lab6_stride : ℕ → ℕ
  pub lab6_priority : ℕ → ℕ

abbrev pub big_stride : ℕ
big_stride = 2 ^ 30

-- `proc_stride_comp_f` is -1: the difference of 32 bits is negative.
abbrev pub stride_less : (ℕ → ℕ) → ℕ → ℕ → Bool
stride_less stride p q = leb (2 ^ 31) ((stride p + 2 ^ 32 - stride q) % 2 ^ 32)

unfoldable pub stride_init : Pool → Pool
unfolding list_init
stride_init r = record r {
  run = record (r.run) { links = list_init r.run.links run_list; proc_num = 0 };
  lab6_run_pool = none;
}

-- The writes to `time_slice`, `rq` and `proc_num`.
abbrev pub count_in : Run → ℕ → Run
count_in r p =
    record (with_proc r p
      (λ q. record q { rq = true; time_slice = refill r.max_time_slice q.time_slice })) {
        proc_num = (r.proc_num + 1) % 2 ^ 32;
      }

unfoldable pub stride_enqueue : ℕ → Pool → ℕ → Option Pool
stride_enqueue fuel r p = do
  m ← skew_heap_insert (stride_less r.lab6_stride) fuel r.entries r.lab6_run_pool p
  some (record r { entries = m.0; lab6_run_pool = m.1; run = count_in r.run p })

unfoldable pub stride_dequeue : ℕ → Pool → ℕ → Option Pool
stride_dequeue fuel r p =
    if (r.run.procs p).rq && ltb 0 r.run.proc_num
    then (do
      m ← skew_heap_remove (stride_less r.lab6_stride) fuel r.entries r.lab6_run_pool p
      some (record r {
        entries = m.0;
        lab6_run_pool = m.1;
        run = record (r.run) { proc_num = r.run.proc_num - 1 };
      }))
    else none

-- The process at the root gets its next stride.
abbrev pub picked : Pool → Option ℕ → Option (Pool × Option ℕ)
picked r none = some (r, none)
picked r (some p) =
    if r.lab6_priority p == 0
    then none
    else some (
      record r {
        lab6_stride =
            put r.lab6_stride p ((r.lab6_stride p + big_stride / r.lab6_priority p) % 2 ^ 32);
      },
      some p,
    )

unfoldable pub stride_pick_next : Pool → Option (Pool × Option ℕ)
stride_pick_next r = picked r r.lab6_run_pool

unfoldable pub stride_proc_tick : Pool → ℕ → Pool
stride_proc_tick r p = record r { run = with_proc r.run p (λ q. request_resched (count_down q)) }
