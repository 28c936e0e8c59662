-- ===== src/Process/Fork/Enter.antt =====
-- The steps of `do_fork`: the new struct, and its entry into the lists and its family.
use mathlib.Core.Path.{subst}
use nk_os_team.Prelude.{
  ℕ, ◌+◌, ◌≡◌, refl, sym, ap, ◌∙◌, ◌≢◌, Bool, none, some, List, [], ◌∷◌, ==_iff, ==_of_ne, put, All,
  Fresh, Distinct,
}
use nk_os_team.Links.Members.{list_init_alone}
use nk_os_team.Sched.{run_link, uninit}
use nk_os_team.Sched.RoundRobin.{default_sched_class}
use nk_os_team.Sched.RoundRobin.Queue.{HasSlice}
use nk_os_team.Sched.Rotation.{IsStable, IsReady}
use nk_os_team.Process.{
  Task, Table, write, alloc_proc, hash_proc, set_links, set_family, pid_hashfn,
}
use nk_os_team.Process.Pids.{PidState, get_pid}
use nk_os_team.Process.Pids.Unique.{Picked}
use nk_os_team.Process.Lookup.{IsTable, pids_of}
use nk_os_team.Process.Listed.{SamePid, IsListed-kept, IsListed-add, pids_kept}
use nk_os_team.Process.Family.{
  IsFamily, IsSiblings, Same, write_self, write_other, write_field, IsSiblings-kept,
  set_family-IsFamily, set_family_field,
}
use nk_os_team.Process.Calls.{enter_table, finish_fork, new_proc}

-- What holds of all numbers but one holds along a list without it.
Fresh-All {ℓ} :
    (P : ℕ → Type ℓ) (p : ℕ) (ps : List ℕ) → ((z : ℕ) → z ≢ p → P z) → Fresh p ps → All P ps
Fresh-All P p [] h f = tt
Fresh-All P p (x ∷ ps) h f = (h x (λ e. f.0 (sym e)), Fresh-All P p ps h f.1)

-- A write to a struct leaves the others.
only_at :
    (ts ts' : ℕ → Task) (p : ℕ) (ps : List ℕ)
    → ((z : ℕ) → z ≢ p → ts' z ≡ ts z)
    → Fresh p ps
    → All (SamePid ts ts') ps
only_at ts ts' p ps h f = Fresh-All (SamePid ts ts') p ps (λ z n. ap (λ r. r.pid) (h z n)) f

pub IsFamily-only_at :
    (ts ts' : ℕ → Task) (p q : ℕ) (cs : List ℕ)
    → ((z : ℕ) → z ≢ p → ts' z ≡ ts z)
    → q ≢ p
    → Fresh p cs
    → IsFamily ts q cs
    → IsFamily ts' q cs
IsFamily-only_at ts ts' p q cs h n f s =
    subst (λ c. IsSiblings ts' q none c cs) (ap (λ r. r.cptr) (sym (h q n)))
      (IsSiblings-kept ts ts' q none (ts q).cptr cs
        (Fresh-All (Same ts ts') p cs
          (λ z m. let e = h z m in (ap (λ r. r.yptr) e, ap (λ r. r.optr) e, ap (λ r. r.parent) e))
          f)
        s)

-- The table once a process has its pid and is in all lists.
abbrev pub entered : Table → (p : ℕ) → PidState → (q : ℕ) → Table
entered t p s q =
    let ts = write t.tasks p (λ r. record r { pid = s.last_pid }) in
    record t {
      pids = s;
      hash_list = put t.hash_list (pid_hashfn (ts p).pid) (p ∷ t.hash_list (pid_hashfn (ts p).pid));
      proc_list = p ∷ t.proc_list;
      tasks = set_family ts p q;
      nr_process = t.nr_process + 1;
    }

module _ (t : Table) (p q : ℕ) (s : PidState) where
  abbrev pub numbered : ℕ → Task
  numbered = write t.tasks p (λ r. record r { pid = s.last_pid })

  pub enter_steps :
      (fuel : ℕ) (files : Bool)
      → (t.tasks p).parent ≡ some q
      → get_pid fuel t.pids (pids_of t.tasks t.proc_list) ≡ some s
      → enter_table default_sched_class fuel t p files
        ≡ finish_fork default_sched_class (entered t p s q) p files
  unfolding enter_table hash_proc set_links
  enter_steps fuel files e g =
      rw
        (
          g,
          write_field (λ r. r.parent) t.tasks p (λ r. record r { pid = s.last_pid }) p (λ r. refl)
              ∙ e,
        )
        refl

  pub numbered_pid : (numbered p).pid ≡ s.last_pid
  numbered_pid = ap (λ r. r.pid) (write_self t.tasks p (λ r. record r { pid = s.last_pid }))

  numbered_other : (z : ℕ) → z ≢ p → numbered z ≡ t.tasks z
  numbered_other z n = write_other t.tasks p (λ r. record r { pid = s.last_pid }) z n

  pub family_pid : (z : ℕ) → (set_family numbered p q z).pid ≡ (numbered z).pid
  family_pid z =
      set_family_field (λ r. r.pid) numbered p q z (λ r c. refl) (λ r y. refl) (λ r o. refl)

  pub entered-IsTable :
      IsTable t
      → Fresh p t.proc_list
      → Picked s (pids_of t.tasks t.proc_list)
      → IsTable (entered t p s q)
  entered-IsTable k f c =
      let kept = only_at t.tasks numbered p t.proc_list numbered_other f in
      IsListed-kept numbered (set_family numbered p q) (p ∷ t.proc_list) (entered t p s q).hash_list
        s (t.nr_process + 1) (all_pids (p ∷ t.proc_list))
        (IsListed-add numbered t.proc_list t.hash_list t.pids s t.nr_process p numbered_pid
          (subst (Picked s) (sym (pids_kept t.tasks numbered t.proc_list kept)) c)
          (IsListed-kept t.tasks numbered t.proc_list t.hash_list t.pids t.nr_process kept k))
    where
      all_pids : (ps : List ℕ) → All (SamePid numbered (set_family numbered p q)) ps
      all_pids [] = tt
      all_pids (x ∷ ps) = (family_pid x, all_pids ps)

  pub entered-IsFamily :
      (cs : List ℕ)
      → (t.tasks p).parent ≡ some q
      → q ≢ p
      → Distinct (p ∷ cs)
      → IsFamily t.tasks q cs
      → IsFamily (entered t p s q).tasks q (p ∷ cs)
  entered-IsFamily cs e n d k =
      set_family-IsFamily numbered p q cs
        (write_field (λ r. r.parent) t.tasks p (λ r. record r { pid = s.last_pid }) p (λ r. refl)
          ∙ e)
        (λ x. n (sym x)) d (IsFamily-only_at t.tasks numbered p q cs numbered_other n d.0 k)

-- A new struct changes nothing for the others.
module _ (t : Table) (p : ℕ) where
  pub new_tasks : (z : ℕ) → z ≢ p → (new_proc t p).tasks z ≡ t.tasks z
  unfolding alloc_proc
  new_tasks z n = rw (==_of_ne z p n) refl

  pub new_parent : ((new_proc t p).tasks p).parent ≡ some (t.kernel.current)
  unfolding alloc_proc
  new_parent = rw ((==_iff p p).1 refl) refl

  pub new_state : ((new_proc t p).kernel.run.procs p).state ≡ uninit
  unfolding alloc_proc
  new_state = rw ((==_iff p p).1 refl) refl

  pub new_wait_state :
      (z : ℕ)
      → z ≢ p
      → ((new_proc t p).kernel.run.procs z).wait_state ≡ (t.kernel.run.procs z).wait_state
  unfolding alloc_proc
  new_wait_state z n = rw (==_of_ne z p n) refl

  pub new_pids :
      Fresh p t.proc_list → pids_of (new_proc t p).tasks t.proc_list ≡ pids_of t.tasks t.proc_list
  new_pids f =
      pids_kept t.tasks (new_proc t p).tasks t.proc_list
        (only_at t.tasks (new_proc t p).tasks p t.proc_list new_tasks f)

  pub new-IsTable : IsTable t → Fresh p t.proc_list → IsTable (new_proc t p)
  unfolding alloc_proc
  new-IsTable k f =
      IsListed-kept t.tasks (new_proc t p).tasks t.proc_list t.hash_list t.pids t.nr_process
        (only_at t.tasks (new_proc t p).tasks p t.proc_list new_tasks f) k

module _ (t : Table) (p : ℕ) (q : List ℕ) where
  new_procs : (z : ℕ) → z ≢ p → (new_proc t p).kernel.run.procs z ≡ t.kernel.run.procs z
  unfolding alloc_proc
  new_procs z n = rw (==_of_ne z p n) refl

  pub new-IsStable : IsStable t.kernel q → Fresh p q → IsStable (new_proc t p).kernel q
  unfolding alloc_proc
  new-IsStable v f = record {
    queue = record {
      held =
          rw (list_init_alone t.kernel.run.links (run_link p) (v.queue.held.alone p f))
            (v.queue.held);
      count = v.queue.count;
      slices = slices_kept q f v.queue.slices;
    };
    ready = ready_kept q f v.ready;
    off = v.off;
    idle_off = v.idle_off;
    slice = v.slice;
  }
    where
      slices_kept :
          (xs : List ℕ)
          → Fresh p xs
          → All (HasSlice t.kernel.run) xs
          → All (HasSlice (new_proc t p).kernel.run) xs
      slices_kept [] f h = tt
      slices_kept (x ∷ xs) f h =
          (rw (==_of_ne x p (λ e. f.0 (sym e))) (h.0), slices_kept xs f.1 h.1)

      ready_kept :
          (xs : List ℕ)
          → Fresh p xs
          → All (IsReady t.kernel.run) xs
          → All (IsReady (new_proc t p).kernel.run) xs
      ready_kept [] f h = tt
      ready_kept (x ∷ xs) f h = (rw (==_of_ne x p (λ e. f.0 (sym e))) (h.0), ready_kept xs f.1 h.1)
