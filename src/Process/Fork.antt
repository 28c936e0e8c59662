-- ===== src/Process/Fork.antt =====
-- `do_fork` with the round-robin class.
mod Enter
use mathlib.Core.Path.{subst}
use nk_os_team.Prelude.{
  ℕ, ◌*◌, ◌≤◌, ◌<◌, ◌≡◌, refl, sym, ◌∙◌, ◌≢◌, inl, Bool, true, false, none, some, List, [], ◌∷◌,
  ◌++◌, arith, leb, ==_iff, ==_of_ne, Fresh, Distinct, length-map,
}
use nk_os_team.File.{ok}
use nk_os_team.Sched.{Kernel, uninit}
use nk_os_team.Sched.RoundRobin.{default_sched_class}
use nk_os_team.Sched.Rotation.{IsStable}
use nk_os_team.Sched.Wakeup.{wakeup_proc_lem, woken}
use nk_os_team.Process.{Table, alloc_proc, kfree, find_proc}
use nk_os_team.Process.Pids.{PidState, max_pid, max_process}
use nk_os_team.Process.Pids.Unique.{Picked, get_pid_lem}
use nk_os_team.Process.Lookup.{IsTable, pids_of, find_proc_iff, find_proc-none}
use nk_os_team.Process.Family.{IsFamily}
use nk_os_team.Process.Calls.{do_fork, finish_fork, new_proc}
use nk_os_team.Process.Fork.Enter.{
  entered, enter_steps, numbered_pid, family_pid, entered-IsTable, entered-IsFamily,
  IsFamily-only_at, new_tasks, new_parent, new_pids, new_state, new_wait_state, new-IsTable,
  new-IsStable,
}

-- `current`, with children `cs`, may have a child in the new struct `p`, while `q` wait to run.
pub record CanFork (t : Table) (p : ℕ) (cs q : List ℕ) : Type 0 where
  pub table : IsTable t
  pub family : IsFamily t.tasks t.kernel.current cs
  pub stable : IsStable t.kernel q
  pub awake : (t.kernel.run.procs t.kernel.current).wait_state ≡ 0
  pub room : t.nr_process < max_process
  pub unlisted : Fresh p t.proc_list
  pub no_child : Distinct (p ∷ cs)
  pub no_wait : Fresh p q
  pub other : t.kernel.current ≢ p
  pub not_idle : t.kernel.idleproc ≢ p

-- What a table is after a call that gives `pid`.
pub record Forked (t : Table) (p : ℕ) (cs q : List ℕ) (pid : ℕ) (t' : Table) : Type 0 where
  pub table : IsTable t'
  pub unused : find_proc t pid ≡ none
  pub found : find_proc t' pid ≡ some p
  pub family : IsFamily t'.tasks t.kernel.current (p ∷ cs)
  pub stable : IsStable t'.kernel q
  pub same_current : t'.kernel.current ≡ t.kernel.current

module _ (t : Table) (p : ℕ) (cs q : List ℕ) (v : CanFork t p cs q) where
  -- The new struct in the table, with its pid.
  entered-Forked :
      (s : PidState)
      → Picked s (pids_of (new_proc t p).tasks t.proc_list)
      → Forked t p cs q s.last_pid (entered (new_proc t p) p s t.kernel.current)
  unfolding alloc_proc
  entered-Forked s c =
      let t₁ = new_proc t p in
      let k =
        entered-IsTable t₁ p t.kernel.current s (new-IsTable t p v.table v.unlisted) v.unlisted c in
      record {
        table = k;
        unused =
            find_proc-none t s.last_pid v.table
              (subst (Fresh s.last_pid) (new_pids t p v.unlisted) c.unused);
        found =
            (find_proc_iff (entered t₁ p s t.kernel.current) s.last_pid p k).1 (
              inl refl,
              family_pid t₁ p t.kernel.current s p ∙ numbered_pid t₁ p t.kernel.current s,
            );
        family = entered-IsFamily t₁ p t.kernel.current s cs (new_parent t p) v.other v.no_child (
            IsFamily-only_at t.tasks t₁.tasks p t.kernel.current cs (new_tasks t p) v.other
              v.no_child.0 v.family);
        stable = new-IsStable t p q v.stable v.no_wait;
        same_current = refl;
      }

  -- `do_fork` up to `copy_files`.
  fork_steps :
      (fuel : ℕ) (files : Bool)
      → 2 * max_pid ≤ fuel
      → (s : PidState) × Picked s (pids_of (new_proc t p).tasks t.proc_list)
        × (do_fork default_sched_class fuel t
              (record { struct = some p; kstack = true; mm = true; files = files })
            ≡ finish_fork default_sched_class (entered (new_proc t p) p s t.kernel.current) p files)
  unfolding do_fork alloc_proc
  fork_steps fuel files l =
      let k = new-IsTable t p v.table v.unlisted in
      let (s, e, c) =
        get_pid_lem fuel t.pids (pids_of (new_proc t p).tasks t.proc_list) k.next_pids
          (omega (
            arith,
            v.room,
            v.table.count,
            length-map (λ z. ((new_proc t p).tasks z).pid) t.proc_list,
          ))
          l in
      let w : ((new_proc t p).kernel.run.procs t.kernel.current).wait_state ≡ 0 =
        new_wait_state t p t.kernel.current v.other ∙ v.awake in
      (
        s,
        c,
        rw (room, w)
            (enter_steps (new_proc t p) p t.kernel.current s fuel files (new_parent t p) e),
      )
    where
      room : leb max_process t.nr_process ≡ false
      room = ground (arith, v.room)

  -- Waking the child changes the kernel part of the table alone.
  with_kernel-Forked :
      (s : PidState) (k : Kernel)
      → k.current ≡ t.kernel.current
      → IsStable k (q ++ p ∷ [])
      → Forked t p cs q s.last_pid (entered (new_proc t p) p s t.kernel.current)
      → Forked t p cs
          (q ++ p ∷ [])
          s.last_pid
          (record (entered (new_proc t p) p s t.kernel.current) { kernel = k })
  unfolding find_proc
  with_kernel-Forked s k e w f = record {
    table = f.table;
    unused = f.unused;
    found = f.found;
    family = f.family;
    stable = w;
    same_current = e;
  }

  entered_pid :
      (s : PidState) → ((entered (new_proc t p) p s t.kernel.current).tasks p).pid ≡ s.last_pid
  entered_pid s =
      family_pid (new_proc t p) p t.kernel.current s p
      ∙ numbered_pid (new_proc t p) p t.kernel.current s

  waits_last : woken (new_proc t p).kernel q p ≡ q ++ p ∷ []
  unfolding alloc_proc
  waits_last =
      rw
        (
          new_state t p,
          ==_of_ne p t.kernel.current (λ e. v.other (sym e)),
          ==_of_ne p t.kernel.idleproc (λ e. v.not_idle (sym e)),
        )
        refl

  -- The child is woken up, and waits last.
  child_woken :
      (s : PidState)
      → Forked t p cs q s.last_pid (entered (new_proc t p) p s t.kernel.current)
      → (t' : Table) × (finish_fork default_sched_class
            (entered (new_proc t p) p s t.kernel.current)
            p
            true
          ≡ some (t', ok s.last_pid))
        × Forked t p cs (q ++ p ∷ []) s.last_pid t'
  child_woken s f =
      let t₁ = entered (new_proc t p) p s t.kernel.current in
      let e : (t₁.kernel.run.procs p).state ≡ uninit = new_state t p in
      let (k, w, r, c, z) = wakeup_proc_lem t₁.kernel p q f.stable (rw e refl) in
      (
        record t₁ { kernel = k },
        rw (w, entered_pid s) refl,
        with_kernel-Forked s k (c ∙ f.same_current) (subst (IsStable k) waits_last z) f,
      )

-- `do_fork` of a process that may have a child, with enough memory and fuel for two rounds through
-- the pids, gives a pid that no process had before. By this pid the child is found. It is the first
-- child of its parent, in front of the others, and waits last to run; the table stays one.
pub do_fork_lem :
    (fuel : ℕ) (t : Table) (p : ℕ) (cs q : List ℕ)
    → CanFork t p cs q
    → 2 * max_pid ≤ fuel
    → (t' : Table) × (pid : ℕ) × (do_fork default_sched_class fuel t
          (record { struct = some p; kstack = true; mm = true; files = true })
        ≡ some (t', ok pid))
      × Forked t p cs (q ++ p ∷ []) pid t'
do_fork_lem fuel t p cs q v l =
    let (s, c, e) = fork_steps t p cs q v fuel true l in
    let (t', e', f) = child_woken t p cs q v s (entered-Forked t p cs q v s c) in
    (t', s.last_pid, e ∙ e', f)

-- If the files cannot be copied, `do_fork` gives the pid of the child nevertheless. Its struct is
-- freed, but it is still found by this pid, and is the first child of its parent.
pub do_fork_stale :
    (fuel : ℕ) (t : Table) (p : ℕ) (cs q : List ℕ)
    → CanFork t p cs q
    → 2 * max_pid ≤ fuel
    → (t' : Table) × (pid : ℕ) × (do_fork default_sched_class fuel t
          (record { struct = some p; kstack = true; mm = true; files = false })
        ≡ some (t', ok pid))
      × (t'.allocated p ≡ false)
      × (find_proc t' pid ≡ some p)
      × IsFamily t'.tasks t.kernel.current (p ∷ cs)
unfolding find_proc
do_fork_stale fuel t p cs q v l =
    let (s, c, e) = fork_steps t p cs q v fuel false l in
    let f = entered-Forked t p cs q v s c in
    (
      kfree (entered (new_proc t p) p s t.kernel.current) p,
      s.last_pid,
      e ∙ rw (entered_pid t p cs q v s) refl,
      rw ((==_iff p p).1 refl) refl,
      f.found,
      f.family,
    )
