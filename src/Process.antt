-- ===== src/Process.antt =====
-- kern/process/proc.c: the table of processes, their families, and the calls that make, end and
-- reap them. A process is the number of its struct, as in Sched, whose state the kernel part of the
-- table is. `proc_list` and the lists of `hash_list` are lists of processes, the first one first. A
-- pid is its 32-bit word. `none` is a failed `assert` or a read through a null pointer.
pub mod Pids
pub mod Lookup
pub mod Listed
pub mod Family
pub mod Fork
pub mod Reap
pub mod Exit
pub mod Calls
mod Tests
use nk_os_team.Prelude.{
  ℕ, ◌+◌, ◌-◌, ◌*◌, ◌/◌, ◌%◌, ◌^◌, Bool, true, false, ◌&&◌, Option, none, some, List, [], ◌∷◌, ltb,
  ◌==◌, if◌then◌else◌, put, ◌>>=◌, without,
}
use nk_os_team.Links.{list_init}
use nk_os_team.Sched.{Proc, Kernel, uninit, run_link}
use nk_os_team.Process.Pids.{PidState, max_pid}

-- The other fields of `struct proc_struct`.
pub record Task : Type 0 where
  pub pid : ℕ
  pub flags : ℕ
  pub exit_code : ℕ
  pub parent : Option ℕ
  pub cptr : Option ℕ
  pub yptr : Option ℕ
  pub optr : Option ℕ

-- The globals. `allocated` says which structs `kmalloc` has given and `kfree` not taken back.
pub record Table : Type 0 where
  pub kernel : Kernel
  pub tasks : ℕ → Task
  pub proc_list : List ℕ
  pub hash_list : ℕ → List ℕ
  pub pids : PidState
  pub nr_process : ℕ
  pub initproc : ℕ
  pub boot_pgdir_pa : ℕ
  pub allocated : ℕ → Bool

-- A field of one struct is written.
abbrev pub write : (ℕ → Task) → ℕ → (Task → Task) → ℕ → Task
write ts p f = put ts p (f (ts p))

-- `hash32`, whose product of 64 bits is cut to 32
unfoldable pub hash32 : (val bits : ℕ) → ℕ
hash32 val bits = (val * 0x9e370001) % 2 ^ 64 % 2 ^ 32 / 2 ^ (32 - bits)

abbrev pub hash_shift : ℕ
hash_shift = 10

unfoldable pub pid_hashfn : ℕ → ℕ
unfolding hash32
pid_hashfn pid = hash32 pid hash_shift

unfoldable pub hash_proc : Table → ℕ → Table
hash_proc t p =
    let h = pid_hashfn (t.tasks p).pid in
    record t { hash_list = put t.hash_list h (p ∷ t.hash_list h) }

-- The entry leaves the list that it is in.
unfoldable pub unhash_proc : Table → ℕ → Table
unhash_proc t p = record t { hash_list = λ h. without p (t.hash_list h) }

-- The loop of `find_proc`.
unfoldable pub find_pid : (ℕ → Task) → ℕ → List ℕ → Option ℕ
find_pid ts pid [] = none
find_pid ts pid (p ∷ ps) =
    let rest = find_pid ts pid ps in if (ts p).pid == pid then some p else rest

unfoldable pub find_proc : Table → ℕ → Option ℕ
find_proc t pid =
    if ltb 0 pid && ltb pid max_pid
    then find_pid t.tasks pid (t.hash_list (pid_hashfn pid))
    else none

-- The family part of `set_links`.
abbrev pub young : (ℕ → Task) → Option ℕ → ℕ → ℕ → Task
young ts none p = ts
young ts (some o) p = write ts o (λ r. record r { yptr = some p })

unfoldable pub set_family : (ℕ → Task) → (proc parent : ℕ) → ℕ → Task
set_family ts p q =
    let alone = write ts p (λ r. record r { yptr = none }) in
    let old = (alone q).cptr in
    write (young (write alone p (λ r. record r { optr = old })) old p) q
      (λ r. record r { cptr = some p })

abbrev pub linked : Table → ℕ → Option ℕ → Option Table
linked t p none = none
linked t p (some q) = some (record t {
  proc_list = p ∷ t.proc_list;
  tasks = set_family t.tasks p q;
  nr_process = t.nr_process + 1;
})

unfoldable pub set_links : Table → ℕ → Option Table
set_links t p = linked t p (t.tasks p).parent

-- The family part of `remove_links`.
abbrev pub close_young : (ℕ → Task) → Option ℕ → ℕ → ℕ → Task
close_young ts none p = ts
close_young ts (some o) p = write ts o (λ r. record r { yptr = (ts p).yptr })

abbrev pub close_old : (ℕ → Task) → (yptr parent : Option ℕ) → ℕ → Option (ℕ → Task)
close_old ts (some y) q p = some (write ts y (λ r. record r { optr = (ts p).optr }))
close_old ts none (some q) p = some (write ts q (λ r. record r { cptr = (ts p).optr }))
close_old ts none none p = none

unfoldable pub leave_family : (ℕ → Task) → ℕ → Option (ℕ → Task)
leave_family ts p =
    let ts' = close_young ts (ts p).optr p in close_old ts' (ts' p).yptr (ts' p).parent p

unfoldable pub remove_links : Table → ℕ → Option Table
remove_links t p = do
  ts ← leave_family t.tasks p
  some (record t { proc_list = without p t.proc_list; tasks = ts; nr_process = t.nr_process - 1 })

-- `alloc_proc`, when `kmalloc` gives the struct `p`
abbrev pub blank_proc : (boot_pgdir_pa : ℕ) → Proc
blank_proc pgdir = record {
  state = uninit;
  runs = 0;
  need_resched = false;
  pgdir = pgdir;
  wait_state = 0;
  rq = false;
  time_slice = 0;
}

abbrev pub blank_task : Task
blank_task = record {
  pid = 2 ^ 32 - 1;
  flags = 0;
  exit_code = 0;
  parent = none;
  cptr = none;
  yptr = none;
  optr = none;
}

unfoldable pub alloc_proc : Table → ℕ → Table
alloc_proc t p = record t {
  kernel = record (t.kernel) {
    run = record (t.kernel.run) {
      procs = put t.kernel.run.procs p (blank_proc t.boot_pgdir_pa);
      links = list_init t.kernel.run.links (run_link p);
    };
  };
  tasks = put t.tasks p (record blank_task { exit_code = (t.tasks p).exit_code });
  allocated = put t.allocated p true;
}

abbrev pub kfree : Table → ℕ → Table
kfree t p = record t { allocated = put t.allocated p false }
