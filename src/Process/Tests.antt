-- ===== src/Process/Tests.antt =====
-- `initproc` with a dead child, and the theorems at it.
use nk_os_team.Prelude.{
  ℕ, ◌*◌, ◌≡◌, refl, ◌↔◌, inl, true, false, some, [], ◌∷◌, arith, leb, ◌==◌, if◌then◌else◌,
}
use nk_os_team.File.{ok}
use nk_os_team.Links.{Links}
use nk_os_team.Sched.{Run, Kernel, runnable, zombie}
use nk_os_team.Sched.RoundRobin.{default_sched_class, rr_init}
use nk_os_team.Sched.RoundRobin.Queue.{rr_init-IsQueue}
use nk_os_team.Sched.Rotation.{IsStable}
use nk_os_team.Process.{Task, Table, find_proc, blank_proc, blank_task}
use nk_os_team.Process.Pids.{PidState, max_pid, get_pid, search, walk}
use nk_os_team.Process.Pids.Walks.{IsPids}
use nk_os_team.Process.Pids.Unique.{Picked, get_pid_lem}
use nk_os_team.Process.Lookup.{IsTable, Has, in_bucket, find_proc_iff}
use nk_os_team.Process.Family.{IsFamily}
use nk_os_team.Process.Calls.{adopt_all, do_fork, do_wait}
use nk_os_team.Process.Fork.{CanFork, Forked, do_fork_lem, do_fork_stale}
use nk_os_team.Process.Exit.{CanTell, Orphaned, adopt_all_lem}
use nk_os_team.Process.Reap.{CanWait, Waited, do_wait_lem}

abbrev no_links : Links
no_links = record { prev = λ e. e; next = λ e. e }

abbrev machine : Run
machine = rr_init (record {
  procs = λ p. record (blank_proc 0) { state = if p == 2 then zombie else runnable };
  links = no_links;
  proc_num = 7;
  max_time_slice = 5;
})

abbrev running : Kernel
running = record { run = machine; current = 1; idleproc = 0; satp = 0 }

running-IsStable : IsStable running []
unfolding rr_init
running-IsStable = record {
  queue =
      rr_init-IsQueue
        (record {
          procs = λ p. record (blank_proc 0) { state = if p == 2 then zombie else runnable };
          links = no_links;
          proc_num = 7;
          max_time_slice = 5;
        })
        (λ p. (refl, refl));
  ready = tt;
  off = tt;
  idle_off = tt;
  slice = omega arith;
}

abbrev init_and_child : ℕ → Task
init_and_child p =
    if p == 1
    then record blank_task { pid = 1; parent = some 0; cptr = some 2 }
    else record blank_task { pid = 2; parent = some 1; exit_code = 6 }

abbrev two_processes : Table
two_processes = record {
  kernel = running;
  tasks = init_and_child;
  proc_list = 2 ∷ 1 ∷ [];
  hash_list = λ h. in_bucket init_and_child h (2 ∷ 1 ∷ []);
  pids = record { next_safe = max_pid; last_pid = 2 };
  nr_process = 3;
  initproc = 1;
  boot_pgdir_pa = 0;
  allocated = λ p. leb p 2;
}

two_processes-IsTable : IsTable two_processes
two_processes-IsTable = record {
  next_pids = record {
    apart = (inl (omega arith), (inl (omega arith), tt));
    low = omega arith;
    high = omega arith;
  };
  distinct = ((omega arith, tt), (tt, tt));
  ranged = ((omega arith, omega arith), ((omega arith, omega arith), tt));
  buckets = λ h. refl;
  count = refl;
}

-- After a start at the highest pid, the pids 1 and 2 are passed by.
all_apart : IsPids (record { next_safe = max_pid; last_pid = max_pid }) (1 ∷ 2 ∷ [])
all_apart = record {
  apart = (inl (omega arith), (inl (omega arith), tt));
  low = omega arith;
  high = omega arith;
}

get_pid_lem_example :
    (s : PidState) × (get_pid
        (2 * max_pid)
        (record { next_safe = max_pid; last_pid = max_pid })
        (1 ∷ 2 ∷ [])
      ≡ some s)
    × Picked s (1 ∷ 2 ∷ [])
get_pid_lem_example =
    get_pid_lem (2 * max_pid) (record { next_safe = max_pid; last_pid = max_pid }) (1 ∷ 2 ∷ [])
      all_apart (omega arith) (omega arith)

third_pid :
    get_pid 9 (record { next_safe = max_pid; last_pid = max_pid }) (1 ∷ 2 ∷ [])
    ≡ some (record { next_safe = max_pid; last_pid = 3 })
unfolding get_pid search walk
third_pid = refl

find_proc_iff_example :
    (find_proc two_processes 2 ≡ some 2) ↔ (Has 2 (2 ∷ 1 ∷ []) × ((init_and_child 2).pid ≡ 2))
find_proc_iff_example = find_proc_iff two_processes 2 2 two_processes-IsTable

two_processes-CanFork : CanFork two_processes 3 (2 ∷ []) []
unfolding rr_init
two_processes-CanFork = record {
  table = two_processes-IsTable;
  family = (refl, refl, refl, refl);
  stable = running-IsStable;
  awake = refl;
  room = omega arith;
  unlisted = (omega arith, (omega arith, tt));
  no_child = ((omega arith, tt), (tt, tt));
  no_wait = tt;
  other = omega arith;
  not_idle = omega arith;
}

do_fork_lem_example :
    (t : Table) × (pid : ℕ) × (do_fork default_sched_class
        (2 * max_pid)
        two_processes
        (record { struct = some 3; kstack = true; mm = true; files = true })
      ≡ some (t, ok pid))
    × Forked two_processes 3 (2 ∷ []) (3 ∷ []) pid t
do_fork_lem_example =
    do_fork_lem (2 * max_pid) two_processes 3 (2 ∷ []) [] two_processes-CanFork (omega arith)

do_fork_stale_example :
    (t : Table) × (pid : ℕ) × (do_fork default_sched_class
        (2 * max_pid)
        two_processes
        (record { struct = some 3; kstack = true; mm = true; files = false })
      ≡ some (t, ok pid))
    × (t.allocated 3 ≡ false)
    × (find_proc t pid ≡ some 3)
    × IsFamily t.tasks 1 (3 ∷ 2 ∷ [])
do_fork_stale_example =
    do_fork_stale (2 * max_pid) two_processes 3 (2 ∷ []) [] two_processes-CanFork (omega arith)

do_wait_lem_example : Waited two_processes (2 ∷ []) (do_wait 2 two_processes 0 true)
unfolding rr_init
do_wait_lem_example = do_wait_lem 2 two_processes (2 ∷ []) two_processes-CanWait (omega arith)
  where
    two_processes-CanWait : CanWait two_processes (2 ∷ [])
    two_processes-CanWait = record {
      table = two_processes-IsTable;
      family = (refl, refl, refl, refl);
      distinct = (tt, tt);
      listed = (inl refl, tt);
      mortal = ((omega arith, omega arith), tt);
    }

-- Process 1 exits, and leaves its dead child to process 5.
abbrev leaving : Table
leaving = record two_processes { initproc = 5 }

leaving-CanTell : CanTell leaving 1 []
unfolding rr_init
leaving-CanTell = record {
  stable = running-IsStable;
  alive = refl;
  exits = refl;
  other = omega arith;
}

adopt_all_lem_example :
    Orphaned leaving 1 (2 ∷ []) [] (adopt_all default_sched_class 2 leaving (init_and_child 1).cptr)
adopt_all_lem_example =
    adopt_all_lem 2 leaving 1 (2 ∷ []) [] [] leaving-CanTell (refl, refl, refl, refl) refl (tt, tt)
      (omega arith)
