-- ===== src/Sched/Wakeup.antt =====
-- `wakeup_proc` under the round-robin class.
use nk_os_team.Prelude.{
  ℕ, ◌≡◌, refl, sym, ◌≢◌, inl, inr, false, ◌||◌, some, List, [], ◌∷◌, ◌++◌, arith, ◌==◌,
  if◌then◌else◌, Bool-cases, All, Fresh, Fresh-append,
}
use nk_os_team.Sched.{Kernel, Run, wakeup_proc, with_proc, is_zombie, is_runnable, runnable, Proc}
use nk_os_team.Sched.RoundRobin.{default_sched_class, enqueued}
use nk_os_team.Sched.RoundRobin.Queue.{IsQueue-same, rr_enqueue-some}
use nk_os_team.Sched.Rotation.{IsStable, IsReady, enqueued-IsWaiting, is_runnable_sound}

-- Runnable processes alone wait.
ready-Fresh :
    (r : Run) (p : ℕ) (q : List ℕ)
    → is_runnable (r.procs p).state ≡ false
    → All (IsReady r) q
    → Fresh p q
ready-Fresh r p [] n h = tt
ready-Fresh r p (x ∷ q) n h = ((λ e. ground (arith, h.0)), ready-Fresh r p q n h.1)

abbrev awake : Proc → Proc
awake q = record q { state = runnable; wait_state = 0 }

awake-ready :
    (r : Run) (p : ℕ) (q : List ℕ) → All (IsReady r) q → All (IsReady (with_proc r p awake)) q
awake-ready r p [] h = tt
awake-ready r p (x ∷ q) h = (ground (arith, h.0), awake-ready r p q h.1)

awake-IsStable :
    (k : Kernel) (p : ℕ) (q : List ℕ)
    → IsStable k q
    → IsStable (record k { run = with_proc k.run p awake }) q
awake-IsStable k p q v = record {
  queue = IsQueue-same k.run (with_proc k.run p awake) q refl refl refl (λ z. ground arith) v.queue;
  ready = awake-ready k.run p q v.ready;
  off = v.off;
  idle_off = v.idle_off;
  slice = v.slice;
}

-- A runnable process that does not wait is put on the queue.
enqueue-IsStable :
    (k : Kernel) (p : ℕ) (q : List ℕ)
    → IsStable k q
    → Fresh p q
    → p ≢ k.current
    → p ≢ k.idleproc
    → (k.run.procs p).state ≡ runnable
    → IsStable (record k { run = enqueued k.run p }) (q ++ p ∷ [])
enqueue-IsStable k p q v f c i e =
    let w =
      enqueued-IsWaiting k p q
        (record { queue = v.queue; ready = v.ready; idle_off = v.idle_off; slice = v.slice }) f i
        e in
    record {
      queue = w.queue;
      ready = w.ready;
      off = Fresh-append k.current q (p ∷ []) v.off ((λ d. c (sym d)), tt);
      idle_off = w.idle_off;
      slice = w.slice;
    }

-- The queue after `p` is woken up.
abbrev pub woken : Kernel → List ℕ → ℕ → List ℕ
woken k q p =
    if is_runnable (k.run.procs p).state || p == k.current || p == k.idleproc
    then q
    else q ++ p ∷ []

-- A process that is no zombie is runnable after `wakeup_proc`, which does not fail. It waits last,
-- unless it was runnable already, or is `current` or the idle process; the rest of the queue and
-- `current` stay.
pub wakeup_proc_lem :
    (k : Kernel) (p : ℕ) (q : List ℕ)
    → IsStable k q
    → is_zombie (k.run.procs p).state ≡ false
    → (k' : Kernel) × (wakeup_proc default_sched_class k p ≡ some k')
      × ((k'.run.procs p).state ≡ runnable)
      × (k'.current ≡ k.current)
      × IsStable k' (woken k q p)
unfolding wakeup_proc
wakeup_proc_lem k p q v z =
    let k₁ : Kernel = record k { run = with_proc k.run p awake } in
    let v₁ = awake-IsStable k p q v in
    elim (Bool-cases (is_runnable (k.run.procs p).state)) [
      | inl e ↦ rw (z, e) (k, refl, is_runnable_sound _ e, refl, v)
      | inr e ↦ elim (Bool-cases (p == k.current)) [
        | inl c ↦ rw (z, e, c) (k₁, refl, ground arith, refl, v₁)
        | inr c ↦ elim (Bool-cases (p == k.idleproc)) [
          | inl i ↦ rw (z, e, c, i) (k₁, refl, ground arith, refl, v₁)
          | inr i ↦
              let f = ready-Fresh k.run p q e v.ready in
              rw (z, e, c, i)
                (
                  record k₁ { run = enqueued k₁.run p },
                  rw (rr_enqueue-some k₁.run p q v₁.queue f),
                  unfold enqueued in ground arith,
                  refl,
                  enqueue-IsStable k₁ p q v₁ f (λ d. ground arith) (λ d. ground arith)
                      (ground arith),
                )
        ]
      ]
    ]
