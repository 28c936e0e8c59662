-- ===== src/Sched/RoundRobin/Queue.antt =====
-- What the round-robin class keeps of a run queue, and what its operations do to the queue.
use mathlib.Core.List.{append-nil}
use nk_os_team.Prelude.{
  ℕ, ◌%◌, ◌^◌, ◌≤◌, ◌<◌, ◌≡◌, refl, sym, ◌∙◌, ◌≢◌, true, Option, none, some, List, [], ◌∷◌, ◌++◌,
  arith, length, length-append, All, All-append, All-left, All-right, Fresh,
}
use nk_os_team.Links.Ring.{IsAlone}
use nk_os_team.Links.Members.{Holds, Holds-list_init, Holds-insert, Holds-delete, Holds-linked}
use nk_os_team.Sched.{Run, run_link}
use nk_os_team.Sched.RoundRobin.{rr_init, rr_enqueue, rr_dequeue, rr_pick_next, enqueued, dequeued}

-- The entry of a waiting process: it is on the queue, with a slice to run.
abbrev pub HasSlice : Run → ℕ → Type 0
HasSlice r p =
    ((r.procs p).rq ≡ true)
    × (0 < (r.procs p).time_slice)
    × ((r.procs p).time_slice ≤ r.max_time_slice)

-- `q` waits, first to last: the links hold it, and the counter is its length.
pub record IsQueue (r : Run) (q : List ℕ) : Type 0 where
  pub held : Holds r.links q
  pub count : r.proc_num ≡ length q % 2 ^ 32
  pub slices : All (HasSlice r) q

-- Initialising the head makes the queue empty, if no process is linked.
pub rr_init-IsQueue : (r : Run) → ((p : ℕ) → IsAlone r.links (run_link p)) → IsQueue (rr_init r) []
unfolding rr_init
rr_init-IsQueue r a = record { held = Holds-list_init r.links a; count = omega arith; slices = tt }

-- The slices of processes other than `p` depend only on their entries of the table.
pub HasSlice-same :
    (r s : Run) (p : ℕ) (q : List ℕ)
    → s.max_time_slice ≡ r.max_time_slice
    → ((z : ℕ) → z ≢ p → s.procs z ≡ r.procs z)
    → Fresh p q
    → All (HasSlice r) q
    → All (HasSlice s) q
HasSlice-same r s p [] m e f h = tt
HasSlice-same r s p (x ∷ q) m e f h =
    (ground (arith, e x (λ k. f.0 (sym k))), HasSlice-same r s p q m e f.1 h.1)

-- A process that does not wait is put at the end.
pub rr_enqueue-some :
    (r : Run) (p : ℕ) (q : List ℕ) → IsQueue r q → Fresh p q → rr_enqueue r p ≡ some (enqueued r p)
unfolding rr_enqueue
rr_enqueue-some r p q v f = ground (arith, v.held.alone p f)

pub enqueued-IsQueue :
    (r : Run) (p : ℕ) (q : List ℕ)
    → 0 < r.max_time_slice
    → IsQueue r q
    → Fresh p q
    → IsQueue (enqueued r p) (q ++ p ∷ [])
unfolding enqueued
enqueued-IsQueue r p q h v f = record {
  held = Holds-insert r.links p q [] (rw append-nil v.held) (rw append-nil f);
  count = omega (arith, v.count, length-append q (p ∷ []));
  slices =
      All-append (HasSlice (enqueued r p)) q (p ∷ [])
        (HasSlice-same r (enqueued r p) p q refl (λ z n. ground arith) f v.slices)
        (ground arith, tt);
}

-- A waiting process leaves the queue, wherever it stands.
pub rr_dequeue-some :
    (r : Run) (p : ℕ) (xs ys : List ℕ)
    → IsQueue r (xs ++ p ∷ ys)
    → rr_dequeue r p ≡ some (dequeued r p)
unfolding rr_dequeue
rr_dequeue-some r p xs ys v =
    ground (arith, Holds-linked r.links p xs ys v.held, All-right (HasSlice r) xs (p ∷ ys) v.slices)

pub dequeued-IsQueue :
    (r : Run) (p : ℕ) (xs ys : List ℕ)
    → IsQueue r (xs ++ p ∷ ys)
    → IsQueue (dequeued r p) (xs ++ ys)
unfolding dequeued
dequeued-IsQueue r p xs ys v = record {
  held = Holds-delete r.links p xs ys v.held;
  count = omega (arith, v.count, length-append xs (p ∷ ys), length-append xs ys);
  slices =
      All-append (HasSlice (dequeued r p)) xs ys (All-left (HasSlice r) xs (p ∷ ys) v.slices)
        (All-right (HasSlice r) xs (p ∷ ys) v.slices).1;
}

-- A process that waits is not put twice, and one that does not wait is not taken out: the
-- assertions of the source stop both.
pub rr_enqueue-none :
    (r : Run) (p : ℕ) (xs ys : List ℕ) → IsQueue r (xs ++ p ∷ ys) → rr_enqueue r p ≡ none
unfolding rr_enqueue
rr_enqueue-none r p xs ys v = ground (arith, Holds-linked r.links p xs ys v.held)

pub rr_dequeue-none :
    (r : Run) (p : ℕ) (q : List ℕ) → IsQueue r q → Fresh p q → rr_dequeue r p ≡ none
unfolding rr_dequeue
rr_dequeue-none r p q v f = ground (arith, v.held.alone p f)

abbrev pub head? : List ℕ → Option ℕ
head? [] = none
head? (p ∷ q) = some p

-- The first of the queue is picked, and nothing from the empty queue.
pub rr_pick_next_lem : (r : Run) (q : List ℕ) → IsQueue r q → rr_pick_next r ≡ head? q
unfolding rr_pick_next
rr_pick_next_lem r [] v = ground (arith, v.held.ring.links)
rr_pick_next_lem r (p ∷ q) v = ground (arith, v.held.ring.links)

-- What is kept of a queue depends on the links, the counters, and two fields of each process.
pub IsQueue-same :
    (r s : Run) (q : List ℕ)
    → s.links ≡ r.links
    → s.proc_num ≡ r.proc_num
    → s.max_time_slice ≡ r.max_time_slice
    → ((z : ℕ)
        → ((s.procs z).rq ≡ (r.procs z).rq) × ((s.procs z).time_slice ≡ (r.procs z).time_slice))
    → IsQueue r q
    → IsQueue s q
IsQueue-same r s q l n m e v = record {
  held = rw l v.held;
  count = n ∙ v.count;
  slices = same q v.slices;
}
  where
    same : (xs : List ℕ) → All (HasSlice r) xs → All (HasSlice s) xs
    same [] h = tt
    same (x ∷ xs) h = (ground (arith, e x, h.0), same xs h.1)
