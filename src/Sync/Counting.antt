-- ===== src/Sync/Counting.antt =====
-- The semaphore counts, and passes what is put up to the first that waits. The scheduling class is
-- round robin.
use mathlib.Core.Path.{subst}
use nk_os_team.Prelude.{
  ℕ, suc, ◌+◌, ◌≡◌, refl, sym, ap, ◌∙◌, ◌≢◌, ◌⊎◌, inl, inr, true, false, Option, none, some, List,
  [], ◌∷◌, map, ◌==◌, ==_iff, ==_of_ne, put, Bool-cases, link-ne-list, pred_suc, All, Fresh,
  Distinct,
}
use nk_os_team.Links.{list_empty, list_del_init}
use nk_os_team.Links.Members.{Holds, Holds-head, Holds-Distinct, Holds-linked, Holds-delete}
use nk_os_team.Sched.{Kernel, ProcState, sleeping, runnable, is_zombie, is_runnable, wakeup_proc}
use nk_os_team.Sched.RoundRobin.{default_sched_class, rr_enqueue, enqueued}
use nk_os_team.Sched.Rotation.{IsStable}
use nk_os_team.Sched.Wakeup.{wakeup_proc_lem, woken}
use nk_os_team.Sync.{
  Semaphore, Queue, wt_ksem, wait_link, wait_queue_first, wait_queue_del, wakeup_wait,
  wait_current_del, wait_in_queue, up, down_end,
}

-- A process waits for the semaphore.
abbrev pub Sleeps : Queue → ℕ → Type 0
Sleeps q w =
    ((q.waits w).wait_queue ≡ true)
    × ((q.kernel.run.procs (q.waits w).proc).state ≡ sleeping)
    × ((q.kernel.run.procs (q.waits w).proc).wait_state ≡ wt_ksem)

abbrev pub sleepers : Queue → List ℕ → List ℕ
sleepers q ws = map (λ w. (q.waits w).proc) ws

-- What holds between calls, while `ws` wait for the semaphore and `rs` to run: nobody waits for a
-- semaphore above 0, and no process waits twice.
pub record IsSemaphore (s : Semaphore) (ws rs : List ℕ) : Type 0 where
  pub held : Holds s.queue.links ws
  pub asleep : All (Sleeps s.queue) ws
  pub apart : Distinct (sleepers s.queue ws)
  pub counts : (s.value ≡ 0) ⊎ (ws ≡ [])
  pub stable : IsStable s.queue.kernel rs

-- What `up` does.
pub data Upped (s : Semaphore) (ws rs : List ℕ) : Option Semaphore → Type 0 where
  counted :
      (s' : Semaphore)
      → ws ≡ []
      → s'.value ≡ s.value + 1
      → IsSemaphore s' [] rs
      → Upped s ws rs (some s')
  passed_on :
      (w : ℕ) (ws' : List ℕ) (s' : Semaphore)
      → ws ≡ w ∷ ws'
      → s'.value ≡ s.value
      → ((s'.queue.kernel.run.procs (s.queue.waits w).proc).state ≡ runnable)
      → IsSemaphore s' ws' (woken s.queue.kernel rs (s.queue.waits w).proc)
      → down_end s' w wt_ksem ≡ some (s', 0)
      → Upped s ws rs (some s')

-- `wakeup_proc` leaves the other processes as they were.
abbrev Others : Kernel → ℕ → Option Kernel → Type 0
Others k p none = Unit
Others k p (some k') = (z : ℕ) → z ≢ p → k'.run.procs z ≡ k.run.procs z

pub put_other {ℓ} : {A : Type ℓ} (f : ℕ → A) (p z : ℕ) (v : A) → z ≢ p → put f p v z ≡ f z
put_other f p z v n = rw (==_of_ne z p n) refl

wakeup_proc-Others : (k : Kernel) (p : ℕ) → Others k p (wakeup_proc default_sched_class k p)
unfolding wakeup_proc rr_enqueue enqueued
wakeup_proc-Others k p = elim (Bool-cases (is_zombie (k.run.procs p).state)) [
  | inl e ↦ rw e tt
  | inr e ↦ elim (Bool-cases (is_runnable (k.run.procs p).state)) [
    | inl e' ↦ rw (e, e') (λ z n. refl)
    | inr e' ↦ elim (Bool-cases (p == k.current)) [
      | inl c ↦ rw (e, e', c) (λ z n. rw (==_of_ne z p n) refl)
      | inr c ↦ elim (Bool-cases (p == k.idleproc)) [
        | inl i ↦ rw (e, e', c, i) (λ z n. rw (==_of_ne z p n) refl)
        | inr i ↦ elim (Bool-cases (list_empty k.run.links (suc p))) [
          | inl l ↦ rw (e, e', c, i, l) (λ z n. rw (==_of_ne z p n) refl)
          | inr l ↦ rw (e, e', c, i, l) tt
        ]
      ]
    ]
  ]
]

-- Waiters sleep on when another `wait_t` and another process change.
pub others_sleep :
    (q q' : Queue) (w p : ℕ) (ws : List ℕ)
    → ((z : ℕ) → z ≢ w → q'.waits z ≡ q.waits z)
    → ((z : ℕ) → z ≢ p → q'.kernel.run.procs z ≡ q.kernel.run.procs z)
    → Fresh w ws
    → Fresh p (sleepers q ws)
    → All (Sleeps q) ws
    → All (Sleeps q') ws
others_sleep q q' w p [] e k f g a = tt
others_sleep q q' w p (x ∷ ws) e k f g a =
    let n : q'.waits x ≡ q.waits x = e x (λ y. f.0 (sym y)) in
    let m = ap (λ v. q'.kernel.run.procs v.proc) n ∙ k (q.waits x).proc (λ y. g.0 (sym y)) in
    (
      (
        ap (λ v. v.wait_queue) n ∙ a.0.0,
        ap (λ r. r.state) m ∙ a.0.1,
        ap (λ r. r.wait_state) m ∙ a.0.2,
      ),
      others_sleep q q' w p ws e k f.1 g.1 a.1,
    )

same_sleepers :
    (q q' : Queue) (ws : List ℕ)
    → ((z : ℕ) → (q'.waits z).proc ≡ (q.waits z).proc)
    → sleepers q' ws ≡ sleepers q ws
same_sleepers q q' [] h = refl
same_sleepers q q' (w ∷ ws) h = rw (h w, same_sleepers q q' ws h) refl

sleeping_alive : (s : ProcState) → s ≡ sleeping → is_zombie s ≡ false
sleeping_alive s e = rw e refl

module _ (s : Semaphore) (rs : List ℕ) where
  up_none : IsSemaphore s [] rs → Upped s [] rs (up default_sched_class s)
  unfolding up wait_queue_first
  up_none v = rw (Holds-head s.queue.links [] v.held) (
      counted (record s { value = s.value + 1 }) refl refl
        (record { held = v.held; asleep = tt; apart = tt; counts = inr refl; stable = v.stable }))

  module _ (w : ℕ) (ws : List ℕ) (v : IsSemaphore s (w ∷ ws) rs) where
    -- The queue without `w`, whose flags are set.
    abbrev shortened : Queue
    shortened = record (s.queue) {
      waits = put s.queue.waits w (record (s.queue.waits w) { wakeup_flags = wt_ksem });
      links = list_del_init s.queue.links (wait_link w);
    }

    abbrev after : Kernel → Semaphore
    after k = record s { queue = record shortened { kernel = k } }

    proc_kept : (z : ℕ) → (shortened.waits z).proc ≡ (s.queue.waits z).proc
    proc_kept z = elim (Bool-cases (z == w)) [
      | inl e ↦ rw e (ap (λ x. (s.queue.waits x).proc) (sym ((==_iff z w).0 e)))
      | inr e ↦ rw e refl
    ]

    up_steps :
        (k : Kernel)
        → wakeup_proc default_sched_class s.queue.kernel (s.queue.waits w).proc ≡ some k
        → up default_sched_class s ≡ some (after k)
    unfolding up wait_queue_first wakeup_wait wait_queue_del
    up_steps k e =
        rw
          (
            Holds-head s.queue.links (w ∷ ws) v.held,
            link-ne-list w,
            pred_suc w,
            v.asleep.0.2,
            Holds-linked s.queue.links w [] ws v.held,
            v.asleep.0.0,
            (==_iff w w).1 refl,
            e,
          )
          (ap
            (λ b. some (record s {
              queue = record (s.queue) {
                waits = put s.queue.waits w (record {
                  proc = (s.queue.waits w).proc;
                  wakeup_flags = wt_ksem;
                  wait_queue = b;
                });
                links = list_del_init s.queue.links (wait_link w);
                kernel = k;
              };
            }))
            v.asleep.0.0)

    -- The first waiter is runnable, and the others wait on.
    after-Upped :
        (k : Kernel)
        → Others s.queue.kernel (s.queue.waits w).proc (some k)
        → (k.run.procs (s.queue.waits w).proc).state ≡ runnable
        → IsStable k (woken s.queue.kernel rs (s.queue.waits w).proc)
        → Upped s (w ∷ ws) rs (some (after k))
    unfolding down_end wait_current_del wait_in_queue
    after-Upped k o r z =
        let h = Holds-delete s.queue.links w [] ws v.held in
        let f = Holds-Distinct s.queue.links (w ∷ ws) v.held in
        passed_on w ws (after k) refl refl r
          (record {
            held = h;
            asleep =
                others_sleep s.queue (after k).queue w (s.queue.waits w).proc ws
                  (λ x n.
                    put_other s.queue.waits w x
                      (record (s.queue.waits w) { wakeup_flags = wt_ksem }) n)
                  o f.0 v.apart.0 v.asleep.1;
            apart =
                subst Distinct (sym (same_sleepers s.queue (after k).queue ws proc_kept)) v.apart.1;
            counts = inl (elim (v.counts) [ inl e ↦ e | inr e ↦ cc e ]);
            stable = z;
          })
          (rw ((h.alone w f.0).0, (==_iff (suc w) (suc w)).1 refl, (==_iff w w).1 refl) refl)

-- `up` does not fail. It counts up if nobody waits. Else the value stays: the first waiter leaves
-- the queue and is woken up, and the rest of its `__down` gives 0.
pub up_lem :
    (s : Semaphore) (ws rs : List ℕ)
    → IsSemaphore s ws rs
    → Upped s ws rs (up default_sched_class s)
up_lem s [] rs v = up_none s rs v
up_lem s (w ∷ ws) rs v =
    let p = (s.queue.waits w).proc in
    let (k, e, r, _, z) =
      wakeup_proc_lem s.queue.kernel p rs v.stable
        (sleeping_alive (s.queue.kernel.run.procs p).state v.asleep.0.1) in
    subst (Upped s (w ∷ ws) rs) (sym (up_steps s rs w ws v k e)) (
      after-Upped s rs w ws v k
        (subst (Others s.queue.kernel p) e (wakeup_proc-Others s.queue.kernel p)) r z)
