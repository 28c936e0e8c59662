-- ===== src/Sched/Rotation.antt =====
-- `schedule`, `wakeup_proc` and the round-robin class together: who runs next, and who waits.
use nk_os_team.Prelude.{
  refl, ℕ, List, false, ◌≡◌, All, if◌then◌else◌, Fresh, ◌<◌, ◌&&◌, some, not, ◌==◌, ◌++◌, ◌∷◌, [],
  ◌∙◌, ◌+◌, arith, ◌≢◌, All-append, Fresh-append, sym, true, Bool-cases, ap, inr, inl, Fresh-pred,
}
use nk_os_team.Sched.{
  Kernel, Run, Proc, schedule, requeue, run_next, switch_to_next, is_runnable, with_proc, ProcState,
  runnable,
}
use nk_os_team.Sched.RoundRobin.{default_sched_class, enqueued, dequeued}
use nk_os_team.Sched.RoundRobin.Queue.{
  IsQueue, IsQueue-same, rr_enqueue-some, enqueued-IsQueue, rr_dequeue-some, dequeued-IsQueue,
  rr_pick_next_lem, head?,
}

abbrev pub IsReady : Run → ℕ → Type 0
IsReady r p = (r.procs p).state ≡ runnable

-- `q` is the run queue: the processes on it are runnable, and neither `current` nor `idleproc`
-- is among them.
pub record IsStable (k : Kernel) (q : List ℕ) : Type 0 where
  pub queue : IsQueue k.run q
  pub ready : All (IsReady k.run) q
  pub off : Fresh k.current q
  pub idle_off : Fresh k.idleproc q
  pub slice : 0 < k.run.max_time_slice

-- The queue once `current` has gone back to it: unless it is idle or cannot run, it is the last.
abbrev pub waiting : Kernel → List ℕ → List ℕ
waiting k q =
    if is_runnable (k.run.procs k.current).state && not (k.current == k.idleproc)
    then q ++ k.current ∷ []
    else q

abbrev pub first_or : ℕ → List ℕ → ℕ
first_or d [] = d
first_or d (p ∷ q) = p

abbrev pub tail : List ℕ → List ℕ
tail [] = []
tail (p ∷ q) = q

abbrev calm : Proc → Proc
calm q = record q { need_resched = false }

-- Between `requeue` and `run_next`: everyone who can run waits.
pub record IsWaiting (k : Kernel) (w : List ℕ) : Type 0 where
  pub queue : IsQueue k.run w
  pub ready : All (IsReady k.run) w
  pub idle_off : Fresh k.idleproc w
  pub slice : 0 < k.run.max_time_slice

IsReady-same :
    (r s : Run) (q : List ℕ)
    → ((z : ℕ) → (s.procs z).state ≡ (r.procs z).state)
    → All (IsReady r) q
    → All (IsReady s) q
IsReady-same r s [] e h = tt
IsReady-same r s (x ∷ q) e h = (e x ∙ h.0, IsReady-same r s q e h.1)

abbrev bump : Proc → Proc
bump q = record q { runs = q.runs + 1 }

-- The switch to another process and the choice of the same one leave the same table.
switch_fields :
    (k : Kernel) (p : ℕ)
    → let k' = switch_to_next default_sched_class k p in
      (k'.run ≡ with_proc k.run p bump) × (k'.current ≡ p) × (k'.idleproc ≡ k.idleproc)
unfolding switch_to_next
switch_fields k p = ground arith

bump-IsWaiting :
    (k : Kernel) (p : ℕ) (q : List ℕ)
    → IsWaiting k q
    → IsQueue (with_proc k.run p bump) q × All (IsReady (with_proc k.run p bump)) q
bump-IsWaiting k p q v = (
  IsQueue-same k.run (with_proc k.run p bump) q refl refl refl (λ z. ground arith) v.queue,
  IsReady-same k.run (with_proc k.run p bump) q (λ z. ground arith) v.ready,
)

switch-IsStable :
    (k : Kernel) (p : ℕ) (q : List ℕ)
    → IsWaiting k q
    → Fresh p q
    → IsStable (switch_to_next default_sched_class k p) q
switch-IsStable k p q v f =
    let e = switch_fields k p in
    let b = bump-IsWaiting k p q v in
    record {
      queue = rw e.0 b.0;
      ready = rw e.0 b.1;
      off = rw e.1 f;
      idle_off = rw e.2 v.idle_off;
      slice = rw e.0 v.slice;
    }

run_next_lem :
    (k : Kernel) (w : List ℕ)
    → IsWaiting k w
    → (k' : Kernel) × (run_next default_sched_class k (head? w) ≡ some k')
      × (k'.current ≡ first_or k.idleproc w)
      × IsStable k' (tail w)
unfolding run_next
run_next_lem k [] v =
    (_, refl, (switch_fields k k.idleproc).1, switch-IsStable k k.idleproc [] v tt)
run_next_lem k (p ∷ w) v =
    let k' : Kernel = record k { run = dequeued k.run p } in
    let off : Fresh p w = Fresh-pred p w v.queue.held.ring.apart.1.0 in
    (
      switch_to_next default_sched_class k' p,
      rw (rr_dequeue-some k.run p [] w v.queue),
      (switch_fields k' p).1,
      switch-IsStable k' p w
          (record {
            queue = dequeued-IsQueue k.run p [] w v.queue;
            ready = dequeued-ready;
            idle_off = v.idle_off.1;
            slice = dequeued-slice;
          })
          off,
    )
  where
    dequeued-ready : All (IsReady (dequeued k.run p)) w
    dequeued-ready = unfold dequeued in v.ready.1

    dequeued-slice : 0 < (dequeued k.run p).max_time_slice
    dequeued-slice = unfold dequeued in v.slice

-- `current->need_resched = 0`
abbrev calmed : Kernel → Kernel
calmed k = record k { run = with_proc k.run k.current calm }

calmed-IsWaiting : (k : Kernel) (q : List ℕ) → IsStable k q → IsWaiting (calmed k) q
calmed-IsWaiting k q v = record {
  queue =
      IsQueue-same k.run (with_proc k.run k.current calm) q refl refl refl (λ z. ground arith)
        v.queue;
  ready = IsReady-same k.run (with_proc k.run k.current calm) q (λ z. ground arith) v.ready;
  idle_off = v.idle_off;
  slice = v.slice;
}

pub enqueued-IsWaiting :
    (k : Kernel) (p : ℕ) (q : List ℕ)
    → IsWaiting k q
    → Fresh p q
    → p ≢ k.idleproc
    → (k.run.procs p).state ≡ runnable
    → IsWaiting (record k { run = enqueued k.run p }) (q ++ p ∷ [])
unfolding enqueued
enqueued-IsWaiting k p q v f n e = record {
  queue = enqueued-IsQueue k.run p q v.slice v.queue f;
  ready =
      All-append (IsReady (enqueued k.run p)) q (p ∷ [])
        (IsReady-same k.run (enqueued k.run p) q (λ z. ground arith) v.ready) (ground arith, tt);
  idle_off = Fresh-append k.idleproc q (p ∷ []) v.idle_off ((λ i. n (sym i)), tt);
  slice = v.slice;
}

pub is_runnable_sound : (t : ProcState) → is_runnable t ≡ true → t ≡ runnable
is_runnable_sound t e = ground arith

requeue_lem :
    (k : Kernel) (q : List ℕ)
    → IsWaiting k q
    → Fresh k.current q
    → (k' : Kernel) × (requeue default_sched_class k ≡ some k')
      × (k'.idleproc ≡ k.idleproc)
      × IsWaiting k' (waiting k q)
unfolding requeue
requeue_lem k q v f = elim (Bool-cases (is_runnable (k.run.procs k.current).state)) [
  | inr e ↦ rw e (k, refl, refl, v)
  | inl e ↦ elim (Bool-cases (k.current == k.idleproc)) [
    | inl i ↦ rw (e, i) (k, refl, refl, v)
    | inr i ↦
        rw (e, i)
          (
            record k { run = enqueued k.run k.current },
            rw (rr_enqueue-some k.run k.current q v.queue f),
            refl,
            enqueued-IsWaiting k k.current q v f (λ d. ground arith) (is_runnable_sound _ e),
          )
  ]
]

-- `schedule` does not fail. The first process that waits becomes `current`, or the idle process if
-- none does; the process that ran waits last, if it can run; the others keep their order.
pub schedule_rotates :
    (k : Kernel) (q : List ℕ)
    → IsStable k q
    → (k' : Kernel) × (schedule default_sched_class k ≡ some k')
      × (k'.current ≡ first_or k.idleproc (waiting k q))
      × IsStable k' (tail (waiting k q))
unfolding schedule
schedule_rotates k q v =
    let (k₁, e, i, w) = requeue_lem (calmed k) q (calmed-IsWaiting k q v) v.off in
    let same : waiting (calmed k) q ≡ waiting k q = ground arith in
    let (k₂, e', c, s) = run_next_lem k₁ (waiting k q) (rw (← same) w) in
    (
      k₂,
      rw (e, rr_pick_next_lem k₁.run (waiting k q) (rw (← same) w.queue)) e',
      c ∙ ap (λ d. first_or d (waiting k q)) i,
      s,
    )
