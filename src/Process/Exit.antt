-- ===== src/Process/Exit.antt =====
-- The loop of `do_exit` over the children of the process that exits, with the round-robin class.
use nk_os_team.Prelude.{
  ℕ, zero, suc, ◌<◌, ◌≡◌, refl, ap, ◌∙◌, ◌≢◌, inl, inr, false, ◌&&◌, Option, none, some, List, [],
  ◌∷◌, ◌++◌, arith, ◌==◌, Bool-cases, ◌>>=◌, length, Distinct, Distinct-insert,
}
use nk_os_team.Sched.{Kernel, is_zombie}
use nk_os_team.Sched.RoundRobin.{default_sched_class}
use nk_os_team.Sched.Rotation.{IsStable}
use nk_os_team.Sched.Wakeup.{wakeup_proc_lem, woken}
use nk_os_team.Process.{Table}
use nk_os_team.Process.Family.{IsFamily, IsSiblings}
use nk_os_team.Process.Family.Adopt.{adopt_lem}
use nk_os_team.Process.Calls.{adopt, adopt_all, tell_init, wt_child}

-- `initproc` may be woken, while `rs` wait to run.
pub record CanTell (t : Table) (cur : ℕ) (rs : List ℕ) : Type 0 where
  pub stable : IsStable t.kernel rs
  pub alive : is_zombie (t.kernel.run.procs t.initproc).state ≡ false
  pub exits : t.kernel.current ≡ cur
  pub other : cur ≢ t.initproc

tell_init-CanTell :
    (t : Table) (cur p : ℕ) (rs : List ℕ)
    → CanTell t cur rs
    → (k : Kernel) × (rs' : List ℕ) × (tell_init default_sched_class t p
        ≡ some (record t { kernel = k }))
      × CanTell (record t { kernel = k }) cur rs'
tell_init-CanTell t cur p rs v =
    elim (Bool-cases (
      is_zombie (t.kernel.run.procs p).state
      && ((t.kernel.run.procs t.initproc).wait_state == wt_child))) [
        | inl e ↦
            let (k, w, r, c, z) = wakeup_proc_lem t.kernel t.initproc rs v.stable v.alive in
            (
              k,
              woken t.kernel rs t.initproc,
              rw (e, w) refl,
              record { stable = z; alive = rw r refl; exits = c ∙ v.exits; other = v.other },
            )
        | inr e ↦ (t.kernel, rs, rw e refl, v)
      ]

-- The children in front of those of `initproc`, the last one first.
abbrev pub reverse_onto : List ℕ → List ℕ → List ℕ
reverse_onto [] is = is
reverse_onto (c ∷ cs) is = reverse_onto cs (c ∷ is)

-- What the loop leaves.
pub record Orphaned (t : Table) (cur : ℕ) (cs is : List ℕ) (o : Option Table) : Type 0 where
  pub table : Table
  pub queue : List ℕ
  pub result : o ≡ some table
  pub childless : IsFamily table.tasks cur []
  pub adopted : IsFamily table.tasks t.initproc (reverse_onto cs is)
  pub ready : CanTell table cur queue

adopt_from :
    (fuel : ℕ) (t : Table) (cur : ℕ) (prev : Option ℕ) (cs is rs : List ℕ)
    → CanTell t cur rs
    → IsSiblings t.tasks cur prev (t.tasks cur).cptr cs
    → IsFamily t.tasks t.initproc is
    → Distinct (cs ++ is)
    → length cs < fuel
    → Orphaned t cur cs is (adopt_all default_sched_class fuel t (t.tasks cur).cptr)
unfolding adopt_all
adopt_from zero t cur prev cs is rs v s f d l = absurd (omega (arith, l))
adopt_from (suc fuel) t cur prev [] is rs v s f d l =
    rw s (record { table = t; queue = rs; result = refl; childless = s; adopted = f; ready = v })
adopt_from (suc fuel) t cur prev (p ∷ cs) is rs v s f d l =
    let ts = adopt t.tasks cur t.initproc p in
    let (s', f') = adopt_lem t.tasks cur t.initproc p prev cs is v.other s f d in
    let v' : CanTell (record t { tasks = ts }) cur rs = record {
      stable = v.stable;
      alive = v.alive;
      exits = v.exits;
      other = v.other;
    } in
    let (k, rs', e, w) = tell_init-CanTell (record t { tasks = ts }) cur p rs v' in
    let h =
      adopt_from fuel (record t { tasks = ts; kernel = k }) cur (some p) cs (p ∷ is) rs' w s' f'
        (Distinct-insert p cs is d.0 d.1) (omega (arith, l)) in
    record {
      table = h.table;
      queue = h.queue;
      result =
          ap (adopt_all default_sched_class (suc fuel) t) s.0
          ∙ ap
              (λ c.
                tell_init default_sched_class (record t { tasks = adopt t.tasks c t.initproc p }) p
                >>= λ t'. adopt_all default_sched_class fuel t' (t'.tasks c).cptr)
              v.exits
          ∙ ap (λ o. o >>= λ t'. adopt_all default_sched_class fuel t' (t'.tasks cur).cptr) e
          ∙ h.result;
      childless = h.childless;
      adopted = h.adopted;
      ready = h.ready;
    }

-- The loop over the children of a process that exits, with fuel for one round more than there are
-- children, ends without a failed assert. The process has no child then, and its children are the
-- first ones of `initproc`, in front of those it had.
pub adopt_all_lem :
    (fuel : ℕ) (t : Table) (cur : ℕ) (cs is rs : List ℕ)
    → CanTell t cur rs
    → IsFamily t.tasks cur cs
    → IsFamily t.tasks t.initproc is
    → Distinct (cs ++ is)
    → length cs < fuel
    → Orphaned t cur cs is (adopt_all default_sched_class fuel t (t.tasks cur).cptr)
adopt_all_lem fuel t cur cs is rs v s f d l = adopt_from fuel t cur none cs is rs v s f d l
