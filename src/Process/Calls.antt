-- ===== src/Process/Calls.antt =====
-- `do_fork`, `do_wait`, `do_kill`, `do_exit` and `do_yield`. A kernel stack, the copied areas and the
-- files of a process are not in this state.
use nk_os_team.Prelude.{
  ℕ, zero, suc, ◌+◌, ◌%◌, Bool, true, false, not, ◌&&◌, ◌||◌, Option, none, some, map, leb, ◌==◌,
  if◌then◌else◌, ◌>>=◌,
}
use nk_os_team.File.{Ret, ok, err}
use nk_os_team.Sched.{SchedClass, sleeping, zombie, is_zombie, with_proc, wakeup_proc}
use nk_os_team.Process.Pids.{PidState, max_process, get_pid}
use nk_os_team.Process.{
  Task, Table, write, young, alloc_proc, kfree, hash_proc, unhash_proc, set_links, remove_links,
  find_proc,
}

abbrev pub e_bad_proc : ℕ
e_bad_proc = 2

abbrev pub e_inval : ℕ
e_inval = 3

abbrev pub e_no_mem : ℕ
e_no_mem = 4

abbrev pub e_no_free_proc : ℕ
e_no_free_proc = 5

abbrev pub e_killed : ℕ
e_killed = 9

-- `WT_CHILD` is 1 and `WT_INTERRUPTED`, which is the highest bit.
abbrev pub wt_interrupted : ℕ
wt_interrupted = 0x80000000

abbrev pub wt_child : ℕ
wt_child = 0x80000001

abbrev pub exiting : ℕ → Bool
exiting flags = flags % 2 == 1

-- What a new process is given: its struct, if there is memory, and whether `setup_kstack`, `copy_mm`
-- and `copy_files` succeed.
pub record Grants : Type 0 where
  pub struct : Option ℕ
  pub kstack : Bool
  pub mm : Bool
  pub files : Bool

abbrev pub with_task : Table → ℕ → (Task → Task) → Table
with_task t p f = record t { tasks = write t.tasks p f }

-- The process gets its pid.
abbrev pub with_pid : Table → ℕ → PidState → Table
with_pid t p s = with_task (record t { pids = s }) p (λ r. record r { pid = s.last_pid })

-- A new struct with its parent.
abbrev pub new_proc : Table → ℕ → Table
new_proc t p = with_task (alloc_proc t p) p (λ r. record r { parent = some (t.kernel.current) })

-- One child of a process that exits becomes a child of `initproc`.
abbrev pub adopt : (ℕ → Task) → (current initproc p : ℕ) → ℕ → Task
adopt ts cur init p =
    let ts1 = write ts cur (λ r. record r { cptr = (ts p).optr }) in
    let ts2 = write ts1 p (λ r. record r { yptr = none }) in
    let ts3 = write ts2 p (λ r. record r { optr = (ts2 init).cptr }) in
    let ts4 = young ts3 (ts3 p).optr p in
    let ts5 = write ts4 p (λ r. record r { parent = some init }) in
    write ts5 init (λ r. record r { cptr = some p })

module _ (sched_class : SchedClass) where
  abbrev pub wake : Table → ℕ → Option Table
  wake t p = do k ← wakeup_proc sched_class t.kernel p; some (record t { kernel = k })

  -- `do_fork` from `copy_files` on. If that fails, the struct is freed, but not unlinked.
  abbrev pub finish_fork : Table → ℕ → (files : Bool) → Option (Table × Ret)
  finish_fork t p true = do t' ← wake t p; some (t', ok (t.tasks p).pid)
  finish_fork t p false = some (kfree t p, ok (t.tasks p).pid)

  -- From `get_pid` on.
  unfoldable pub enter_table : ℕ → Table → ℕ → (files : Bool) → Option (Table × Ret)
  unfolding get_pid hash_proc set_links
  enter_table fuel t p files = do
    s ← get_pid fuel t.pids (map (λ z. (t.tasks z).pid) t.proc_list)
    t' ← set_links (hash_proc (with_pid t p s) p) p
    finish_fork t' p files

  -- From the assertion on.
  abbrev pub fork_struct : ℕ → Table → ℕ → Grants → Option (Table × Ret)
  fork_struct fuel t p g =
      if (t.kernel.run.procs t.kernel.current).wait_state == 0
      then (if g.kstack && g.mm
          then enter_table fuel t p g.files
          else some (kfree t p, err e_no_mem))
      else none

  abbrev pub fork_given : ℕ → Table → Grants → Option ℕ → Option (Table × Ret)
  fork_given fuel t g none = some (t, err e_no_mem)
  fork_given fuel t g (some p) = fork_struct fuel (new_proc t p) p g

  unfoldable pub do_fork : ℕ → Table → Grants → Option (Table × Ret)
  do_fork fuel t g =
      if leb max_process t.nr_process
      then some (t, err e_no_free_proc)
      else fork_given fuel t g g.struct

  -- `do_kill`
  abbrev pub kill_found : Table → Option ℕ → Option (Table × Ret)
  kill_found t none = some (t, err e_inval)
  kill_found t (some p) =
      if exiting (t.tasks p).flags
      then some (t, err e_killed)
      else let t' = with_task t p (λ r. record r { flags = r.flags + 1 }) in
        if leb wt_interrupted (t.kernel.run.procs p).wait_state
        then (do t'' ← wake t' p; some (t'', ok 0))
        else some (t', ok 0)

  unfoldable pub do_kill : Table → ℕ → Option (Table × Ret)
  do_kill t pid = kill_found t (find_proc t pid)

  -- `initproc` is woken if it waits and the child is dead.
  abbrev pub tell_init : Table → ℕ → Option Table
  tell_init t p =
      if is_zombie (t.kernel.run.procs p).state
        && ((t.kernel.run.procs t.initproc).wait_state == wt_child)
      then wake t t.initproc
      else some t

  unfoldable pub adopt_all : ℕ → Table → Option ℕ → Option Table
  adopt_all zero t child = none
  adopt_all (suc fuel) t child = elim child [
    | none ↦ some t
    | some p ↦
        let t' = record t { tasks = adopt t.tasks t.kernel.current t.initproc p } in
        tell_init t' p >>= λ t''. adopt_all fuel t'' (t''.tasks t.kernel.current).cptr
  ]

  abbrev pub tell_parent : Table → Option ℕ → Option Table
  tell_parent t none = none
  tell_parent t (some q) =
      if (t.kernel.run.procs q).wait_state == wt_child then wake t q else some t

  -- `do_exit` up to `schedule`.
  unfoldable pub do_exit : ℕ → Table → (error_code : ℕ) → Option Table
  unfolding adopt_all
  do_exit fuel t code =
      let cur = t.kernel.current in
      if (cur == t.kernel.idleproc) || (cur == t.initproc)
      then none
      else let t' =
          with_task
            (record t {
              kernel = record (t.kernel) {
                run = with_proc t.kernel.run cur (λ q. record q { state = zombie });
              };
            })
            cur (λ r. record r { exit_code = code }) in
        tell_parent t' (t'.tasks cur).parent >>= λ t''. adopt_all fuel t'' (t''.tasks cur).cptr

-- How a call of `do_wait` goes on: a child's exit code, the sleep before `schedule`, after which it
-- looks again, or an error.
pub data Wait : Type 0 where
  reaped : (exit_code : ℕ) → Wait
  asleep : Wait
  failed : (error : ℕ) → Wait

-- The first zombie among the children from `child` on.
unfoldable pub first_zombie : ℕ → Table → Option ℕ → Option (Option ℕ)
first_zombie zero t child = none
first_zombie (suc fuel) t child = elim child [
  | none ↦ some none
  | some p ↦ elim (is_zombie (t.kernel.run.procs p).state) [
    | true ↦ some (some p)
    | false ↦ first_zombie fuel t (t.tasks p).optr
  ]
]

-- `found`
abbrev pub reap : Table → ℕ → Option (Table × Wait)
reap t p =
    if (p == t.kernel.idleproc) || (p == t.initproc)
    then none
    else (do t' ← remove_links (unhash_proc t p) p; some (kfree t' p, reaped (t.tasks p).exit_code))

abbrev pub sleep_for_child : Table → Table
sleep_for_child t = record t {
  kernel = record (t.kernel) {
    run =
        with_proc t.kernel.run t.kernel.current
          (λ q. record q { state = sleeping; wait_state = wt_child });
  };
}

-- What is done with the child that is found, by `haskid`.
abbrev pub conclude : Table → (haskid : Bool) → Option ℕ → Option (Table × Wait)
conclude t haskid (some p) = reap t p
conclude t true none = some (sleep_for_child t, asleep)
conclude t false none = some (t, failed e_bad_proc)

abbrev pub is_some : Option ℕ → Bool
is_some none = false
is_some (some p) = true

abbrev pub is_child : Table → ℕ → Bool
is_child t p = elim ((t.tasks p).parent) [ none ↦ false | some q ↦ q == t.kernel.current ]

abbrev pub wait_for_found : Table → Option ℕ → Option (Table × Wait)
wait_for_found t none = conclude t false none
wait_for_found t (some p) =
    if is_child t p
    then conclude t true (if is_zombie (t.kernel.run.procs p).state then some p else none)
    else conclude t false none

-- `code_ok` is the result of `user_mem_check`, and true without a `code_store`.
unfoldable pub do_wait : ℕ → Table → (pid : ℕ) → (code_ok : Bool) → Option (Table × Wait)
do_wait fuel t pid code_ok =
    let child = (t.tasks t.kernel.current).cptr in
    if not code_ok
    then some (t, failed e_inval)
    else if pid == 0
    then (first_zombie fuel t child >>= λ z. conclude t (is_some child) z)
    else wait_for_found t (find_proc t pid)
