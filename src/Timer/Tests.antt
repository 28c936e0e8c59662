-- ===== src/Timer/Tests.antt =====
-- Runs of the timer list, and the theorems at it.
use nk_os_team.Prelude.{◌>>=◌, ℕ, ◌≡◌, refl, false, some, List, [], ◌∷◌, arith, ◌==◌, if◌then◌else◌}
use nk_os_team.Links.{Links, list_init, list_add_before}
use nk_os_team.Links.Members.{Holds-list_init, Holds-insert}
use nk_os_team.Sched.{Kernel, sched_class_proc_tick, runnable, sleeping}
use nk_os_team.Sched.RoundRobin.{default_sched_class}
use nk_os_team.Timer.{Timer, Timers, add_timer, del_timer, run_timer_list}
use nk_os_team.Timer.Deadlines.{deadlines, insert_due, remove_due, IsTimers}
use nk_os_team.Timer.Add.{add_timer_lem}
use nk_os_team.Timer.Delete.{del_timer_lem}
use nk_os_team.Timer.Expire.{run_timer_list_lem, wake_all, sleeper, tick_due, due_now, IsLive}

abbrev no_links : Links
no_links = record { prev = λ e. e; next = λ e. e }

-- Timer 1 fires on the next tick, timer 2 three ticks later; timer 3 does not run.
abbrev clock : ℕ → Timer
clock t = record { expires = if t == 1 then 1 else 3; proc = some t }

abbrev two_timers : Timers
two_timers = record {
  timers = clock;
  links = list_add_before (list_add_before (list_init no_links 0) 0 2) 0 3;
}

two_timers-IsTimers : IsTimers two_timers (1 ∷ 2 ∷ [])
two_timers-IsTimers = record {
  held =
      Holds-insert (list_add_before (list_init no_links 0) 0 2) 2 (1 ∷ []) []
        (Holds-insert (list_init no_links 0) 1 [] [] (Holds-list_init no_links (λ p. (refl, refl)))
          tt)
        (omega arith, tt);
  fits = (omega arith, (omega arith, tt));
}

add_timer_lem_example :
    (s' : Timers) × (q' : List ℕ) × (add_timer 5 two_timers 3 ≡ some s')
    × IsTimers s' q'
    × (deadlines s'.timers 0 q' ≡ insert_due 3 3 ((1, 1) ∷ (2, 4) ∷ []))
add_timer_lem_example =
    add_timer_lem 5 two_timers 3 (1 ∷ 2 ∷ []) two_timers-IsTimers (omega arith, (omega arith, tt))
      (omega arith) (omega arith) refl (omega arith)

del_timer_lem_example :
    IsTimers (del_timer two_timers 1) (2 ∷ [])
    × (deadlines (del_timer two_timers 1).timers 0 (2 ∷ []) ≡ remove_due 1 ((1, 1) ∷ (2, 4) ∷ []))
del_timer_lem_example = del_timer_lem two_timers 1 [] (2 ∷ []) two_timers-IsTimers

asleep : Kernel
asleep = record {
  run = record {
    procs = λ p. record {
      state = if p == 1 then sleeping else runnable;
      runs = 0;
      need_resched = false;
      pgdir = 0;
      wait_state = 0;
      rq = false;
      time_slice = 0;
    };
    links = list_init no_links 0;
    proc_num = 0;
    max_time_slice = 5;
  };
  current = 4;
  idleproc = 0;
  satp = 0;
}

run_timer_list_lem_example :
    (s' : Timers) × (q' : List ℕ) × (run_timer_list default_sched_class 5 two_timers asleep ≡ (
      wake_all default_sched_class (sleeper two_timers) asleep (due_now ((1, 1) ∷ (2, 4) ∷ []))
      >>= λ k'. some (s', sched_class_proc_tick default_sched_class k' k'.current)))
    × IsTimers s' q'
    × (deadlines s'.timers 0 q' ≡ tick_due ((1, 1) ∷ (2, 4) ∷ []))
    × IsLive (tick_due ((1, 1) ∷ (2, 4) ∷ []))
run_timer_list_lem_example =
    run_timer_list_lem default_sched_class 5 two_timers asleep (1 ∷ 2 ∷ []) two_timers-IsTimers
      (omega arith, (omega arith, tt)) (omega arith)
