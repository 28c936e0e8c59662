-- ===== src/Sched/Fairness.antt =====
-- Several calls of `schedule` in a row, and `wakeup_proc`, under the round-robin class.
use mathlib.Core.List.{append_assoc}
use nk_os_team.Prelude.{
  ◌>>=◌, ℕ, zero, suc, ◌-◌, ◌≤◌, ◌<◌, ◌≡◌, ap, ◌∙◌, ◌↔◌, inl, inr, true, false, not, ◌&&◌, Option,
  some, List, [], ◌∷◌, ◌++◌, arith, ◌==◌, Bool-cases, length,
}
use nk_os_team.Sched.{Kernel, schedule, is_runnable, Run}
use nk_os_team.Sched.RoundRobin.{default_sched_class, rr_proc_tick}
use nk_os_team.Sched.Rotation.{IsStable, waiting, first_or, tail, schedule_rotates}

-- `schedule` called a number of times, until one call fails.
unfoldable pub schedules : ℕ → Kernel → Option Kernel
schedules zero k = some k
schedules (suc n) k = schedule default_sched_class k >>= schedules n

-- Who waits after `p` changes, who waits before does not.
waiting_after :
    (k : Kernel) (xs ys : List ℕ) (p : ℕ)
    → (zs : List ℕ) × (waiting k (xs ++ p ∷ ys) ≡ xs ++ p ∷ zs)
waiting_after k xs ys p =
    elim (Bool-cases (is_runnable (k.run.procs k.current).state && not (k.current == k.idleproc))) [
      | inl e ↦ (ys ++ k.current ∷ [], rw e (append_assoc xs (p ∷ ys) (k.current ∷ [])))
      | inr e ↦ (ys, rw e)
    ]

-- A waiting process behind n others runs after n + 1 calls, none of which fails.
pub bounded_wait :
    (k : Kernel) (xs ys : List ℕ) (p : ℕ)
    → IsStable k (xs ++ p ∷ ys)
    → (k' : Kernel) × (schedules (suc (length xs)) k ≡ some k') × (k'.current ≡ p)
unfolding schedules
bounded_wait k [] ys p v =
    let (k', e, c, s) = schedule_rotates k (p ∷ ys) v in
    let (zs, w) = waiting_after k [] ys p in (k', rw e, c ∙ ap (first_or k.idleproc) w)
bounded_wait k (x ∷ xs) ys p v =
    let (k', e, c, s) = schedule_rotates k (x ∷ (xs ++ p ∷ ys)) v in
    let (zs, w) = waiting_after k (x ∷ xs) ys p in
    let (k'', e', c') = bounded_wait k' xs zs p (rw (ap tail w) at s) in (k'', rw e e', c')

-- `rr_proc_tick` on one process, a number of times.
unfoldable pub ticks : ℕ → Run → ℕ → Run
ticks zero r p = r
ticks (suc n) r p = rr_proc_tick (ticks n r p) p

ticks_slice : (n p : ℕ) (r : Run) → ((ticks n r p).procs p).time_slice ≡ (r.procs p).time_slice - n
unfolding ticks rr_proc_tick
ticks_slice zero p r = omega arith
ticks_slice (suc n) p r = ground (arith, ticks_slice n p r)

-- A process that was not to be rescheduled is to be rescheduled exactly once its ticks have used
-- up its time slice.
slice_expires :
    (n p : ℕ) (r : Run)
    → (r.procs p).need_resched ≡ false
    → 0 < (r.procs p).time_slice
    → (((ticks n r p).procs p).need_resched ≡ true) ↔ ((r.procs p).time_slice ≤ n)
unfolding ticks rr_proc_tick
slice_expires zero p r h s = ground arith
slice_expires (suc n) p r h s = ground (arith, slice_expires n p r h s, ticks_slice n p r)
