-- ===== src/Sync/Down.antt =====
-- `down` and `try_down`: the semaphore counts down, or the process waits last.
use mathlib.Core.Path.{subst}
use mathlib.Core.List.{append-nil}
use nk_os_team.Prelude.{
  ℕ, suc, ◌+◌, ◌-◌, ◌≡◌, refl, sym, ap, ◌≢◌, inl, inr, Bool, true, false, Option, some, List, [],
  ◌∷◌, ◌++◌, arith, ltb, ==_iff, ==_of_ne, put, Bool-cases, All, All-append, Fresh, Distinct,
  Fresh-append,
}
use nk_os_team.Links.{list_add_before}
use nk_os_team.Links.Members.{Holds-insert, list_init_alone}
use nk_os_team.Sched.{Kernel, Proc, sleeping, runnable, with_proc}
use nk_os_team.Sched.RoundRobin.Queue.{IsQueue-same}
use nk_os_team.Sched.Rotation.{IsStable, IsReady}
use nk_os_team.Sync.{
  Semaphore, Queue, wt_ksem, wait_link, wt_interrupted, wait_current_set, wait_init, wait_queue_add,
  down_begin,
}
use nk_os_team.Sync.Counting.{Sleeps, sleepers, IsSemaphore, others_sleep, put_other}

-- What the first part of `__down` does for `wait_t` `w` of `current`.
pub data Downed (s : Semaphore) (ws rs : List ℕ) (w : ℕ) : Option (Semaphore × Bool) → Type 0 where
  taken :
      (s' : Semaphore)
      → s.value ≡ s'.value + 1
      → s'.queue ≡ s.queue
      → IsSemaphore s' ws rs
      → Downed s ws rs w (some (s', true))
  waits_last :
      (s' : Semaphore)
      → s.value ≡ 0
      → s'.value ≡ 0
      → (s'.queue.waits w).proc ≡ s.queue.kernel.current
      → IsSemaphore s' (ws ++ w ∷ []) rs
      → Downed s ws rs w (some (s', false))

abbrev drowsy : ℕ → Proc → Proc
drowsy state q = record q { state = sleeping; wait_state = state }

asleep-ready :
    (k : Kernel) (q : List ℕ)
    → Fresh k.current q
    → All (IsReady k.run) q
    → All (IsReady (with_proc k.run k.current (drowsy wt_ksem))) q
asleep-ready k [] f h = tt
asleep-ready k (x ∷ q) f h =
    (rw (==_of_ne x k.current (λ e. f.0 (sym e))) (h.0), asleep-ready k q f.1 h.1)

-- `current` goes to sleep, which no process on the run queue notices.
asleep-IsStable :
    (k : Kernel) (q : List ℕ)
    → IsStable k q
    → IsStable (record k { run = with_proc k.run k.current (drowsy wt_ksem) }) q
asleep-IsStable k q v = record {
  queue =
      IsQueue-same k.run (with_proc k.run k.current (drowsy wt_ksem)) q refl refl refl
        (λ z. ground arith) v.queue;
  ready = asleep-ready k q v.off v.ready;
  off = v.off;
  idle_off = v.idle_off;
  slice = v.slice;
}

-- A process that runs is no sleeper.
awake-Fresh :
    (q : Queue) (p : ℕ) (ws : List ℕ)
    → (q.kernel.run.procs p).state ≡ runnable
    → All (Sleeps q) ws
    → Fresh p (sleepers q ws)
awake-Fresh q p [] e a = tt
awake-Fresh q p (w ∷ ws) e a =
    ((λ h. cc (e, a.0.1, ap (λ x. (q.kernel.run.procs x).state) h)), awake-Fresh q p ws e a.1)

Distinct-last : (p : ℕ) (xs : List ℕ) → Fresh p xs → Distinct xs → Distinct (xs ++ p ∷ [])
Distinct-last p [] f d = (tt, tt)
Distinct-last p (x ∷ xs) f d =
    (Fresh-append x xs (p ∷ []) d.0 ((λ e. f.0 (sym e)), tt), Distinct-last p xs f.1 d.1)

sleepers_last :
    (q q' : Queue) (w p : ℕ) (ws : List ℕ)
    → ((z : ℕ) → z ≢ w → q'.waits z ≡ q.waits z)
    → (q'.waits w).proc ≡ p
    → Fresh w ws
    → sleepers q' (ws ++ w ∷ []) ≡ sleepers q ws ++ p ∷ []
sleepers_last q q' w p [] h e f = rw e refl
sleepers_last q q' w p (x ∷ ws) h e f =
    rw (ap (λ v. v.proc) (h x (λ y. f.0 (sym y))), sleepers_last q q' w p ws h e f.1) refl

module _ (s : Semaphore) (ws rs : List ℕ) (w : ℕ) (v : IsSemaphore s ws rs) (f : Fresh w ws) where
  -- The queue with `current` at its end.
  abbrev longer : Queue
  longer = record {
    waits =
        put
          (put s.queue.waits w (record (s.queue.waits w) {
            proc = s.queue.kernel.current;
            wakeup_flags = wt_interrupted;
          }))
          w
          (record {
            proc = s.queue.kernel.current;
            wakeup_flags = wt_interrupted;
            wait_queue = true;
          });
    links = list_add_before s.queue.links 0 (wait_link w);
    kernel = record (s.queue.kernel) {
      run = with_proc s.queue.kernel.run s.queue.kernel.current (drowsy wt_ksem);
    };
  }

  longer_steps : wait_current_set s.queue w wt_ksem ≡ some longer
  unfolding wait_current_set wait_init wait_queue_add
  longer_steps =
      let a = v.held.alone w f in
      rw
        (
          list_init_alone s.queue.links (wait_link w) a,
          a.0,
          (==_iff (suc w) (suc w)).1 refl,
          (==_iff w w).1 refl,
          (==_iff (suc w) (suc w)).1 refl,
        )
        refl

  longer_other : (z : ℕ) → z ≢ w → longer.waits z ≡ s.queue.waits z
  longer_other z n = rw (==_of_ne z w n) refl

  longer_self :
      longer.waits w
      ≡ record { proc = s.queue.kernel.current; wakeup_flags = wt_interrupted; wait_queue = true }
  longer_self = rw ((==_iff w w).1 refl) refl

  longer-IsSemaphore :
      (s.queue.kernel.run.procs s.queue.kernel.current).state ≡ runnable
      → s.value ≡ 0
      → IsSemaphore (record s { queue = longer }) (ws ++ w ∷ []) rs
  longer-IsSemaphore r e =
      let p = s.queue.kernel.current in
      let g = awake-Fresh s.queue p ws r v.asleep in
      record {
        held = Holds-insert s.queue.links w ws [] (rw append-nil (v.held)) (rw append-nil f);
        asleep =
            All-append (Sleeps longer) ws (w ∷ [])
              (others_sleep s.queue longer w p ws longer_other
                (λ z n.
                  put_other s.queue.kernel.run.procs p z
                    (drowsy wt_ksem (s.queue.kernel.run.procs p)) n)
                f g v.asleep)
              (
                rw longer_self (refl, rw ((==_iff p p).1 refl) refl, rw ((==_iff p p).1 refl) refl),
                tt,
              );
        apart =
            subst Distinct
              (sym
                (sleepers_last s.queue longer w p ws longer_other (ap (λ x. x.proc) longer_self) f))
              (Distinct-last p (sleepers s.queue ws) g v.apart);
        counts = inl e;
        stable = asleep-IsStable s.queue.kernel rs v.stable;
      }

-- The first part of `__down` of a running process does not fail. Above 0 it counts down. At 0, when
-- others may wait already, the process sleeps and waits last for the semaphore.
pub down_begin_lem :
    (s : Semaphore) (ws rs : List ℕ) (w : ℕ)
    → IsSemaphore s ws rs
    → Fresh w ws
    → (s.queue.kernel.run.procs s.queue.kernel.current).state ≡ runnable
    → Downed s ws rs w (down_begin s w wt_ksem)
unfolding down_begin
down_begin_lem s ws rs w v f r = elim (Bool-cases (ltb 0 s.value)) [
  | inl e ↦ rw e (
      taken (record s { value = s.value - 1 }) (ground (arith, e)) refl
        (record {
          held = v.held;
          asleep = v.asleep;
          apart = v.apart;
          counts = inr (elim (v.counts) [ inl z ↦ absurd (ground (arith, e, z)) | inr z ↦ z ]);
          stable = v.stable;
        }))
  | inr e ↦
      let z : s.value ≡ 0 = ground (arith, e) in
      rw (e, longer_steps s ws rs w v f)
        (waits_last (record s { queue = longer s ws rs w v f }) z z
          (ap (λ x. x.proc) (longer_self s ws rs w v f)) (longer-IsSemaphore s ws rs w v f r z))
]
