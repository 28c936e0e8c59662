-- ===== src/Sched/RoundRobin/Fifo.antt =====
-- The round-robin run queue as a queue of distinct processes: any calls of the class agree.
use nk_os_team.Prelude.{
  ◌>>=◌, ℕ, ◌<◌, ◌≡◌, refl, ap, inl, inr, Bool, true, false, ◌||◌, Option, none, some, List, [],
  ◌∷◌, ◌++◌, arith, ◌==◌, if◌then◌else◌, Bool-cases, Fresh,
}
use nk_os_team.Sched.{Run}
use nk_os_team.Sched.RoundRobin.{rr_enqueue, rr_dequeue, rr_pick_next, enqueued, dequeued}
use nk_os_team.Sched.RoundRobin.Queue.{
  IsQueue, rr_enqueue-some, rr_enqueue-none, rr_dequeue-none, enqueued-IsQueue, rr_dequeue-some,
  dequeued-IsQueue, rr_pick_next_lem, head?,
}

-- The queue that a scheduling class promises. A process is never in it twice.
unfoldable pub contains : ℕ → List ℕ → Bool
contains p [] = false
contains p (x ∷ q) = p == x || contains p q

unfoldable pub push : ℕ → List ℕ → Option (List ℕ)
unfolding contains
push p q = if contains p q then none else some (q ++ p ∷ [])

unfoldable pub remove : ℕ → List ℕ → Option (List ℕ)
remove p [] = none
remove p (x ∷ q) = if p == x then some q else (remove p q >>= λ r. some (x ∷ r))

pub data Call : Type 0 where
  enqueue : ℕ → Call
  dequeue : ℕ → Call

unfoldable pub call : Run → Call → Option Run
call r (enqueue p) = rr_enqueue r p
call r (dequeue p) = rr_dequeue r p

unfoldable pub promise : List ℕ → Call → Option (List ℕ)
unfolding push
promise q (enqueue p) = push p q
promise q (dequeue p) = remove p q

unfoldable pub calls : Run → List Call → Option Run
calls r [] = some r
calls r (c ∷ cs) = call r c >>= λ r'. calls r' cs

unfoldable pub promises : List ℕ → List Call → Option (List ℕ)
promises q [] = some q
promises q (c ∷ cs) = promise q c >>= λ q'. promises q' cs

-- Both fail, or the run queue holds the queue and picks its first.
abbrev pub Agrees : Option Run → Option (List ℕ) → Type 0
Agrees none none = Unit {0}
Agrees none (some q) = ⊥
Agrees (some r) none = ⊥
Agrees (some r) (some q) = IsQueue r q × (0 < r.max_time_slice) × (rr_pick_next r ≡ head? q)

contains-Fresh : (p : ℕ) (q : List ℕ) → contains p q ≡ false → Fresh p q
unfolding contains
contains-Fresh p [] e = tt
contains-Fresh p (x ∷ q) e = ((λ d. ground arith), contains-Fresh p q (ground arith))

contains-split :
    (p : ℕ) (q : List ℕ)
    → contains p q ≡ true
    → (xs : List ℕ) × (ys : List ℕ) × (q ≡ xs ++ p ∷ ys) × (remove p q ≡ some (xs ++ ys))
unfolding contains remove
contains-split p [] e = cc
contains-split p (x ∷ q) e = elim (Bool-cases (p == x)) [
  | inl h ↦ ([], q, ground arith, ground arith)
  | inr h ↦
      let (xs, ys, s, r) = contains-split p q (ground arith) in
      (x ∷ xs, ys, ap (◌∷◌ x) s, ground (arith, r))
]

Fresh-remove : (p : ℕ) (q : List ℕ) → contains p q ≡ false → remove p q ≡ none
unfolding contains remove
Fresh-remove p [] e = refl
Fresh-remove p (x ∷ q) e = ground (arith, Fresh-remove p q)

enqueue-Agrees :
    (r : Run) (p : ℕ) (q : List ℕ)
    → IsQueue r q
    → 0 < r.max_time_slice
    → Agrees (rr_enqueue r p) (push p q)
unfolding push
enqueue-Agrees r p q v h = elim (Bool-cases (contains p q)) [
  | inr e ↦
      let f = contains-Fresh p q e in
      let w = enqueued-IsQueue r p q h v f in
      rw (e, rr_enqueue-some r p q v f)
        (w, unfold enqueued in h, rr_pick_next_lem (enqueued r p) (q ++ p ∷ []) w)
  | inl e ↦
      let (xs, ys, s, rem) = contains-split p q e in
      rw (e, rr_enqueue-none r p xs ys (rw (← s) v)) tt
]

dequeue-Agrees :
    (r : Run) (p : ℕ) (q : List ℕ)
    → IsQueue r q
    → 0 < r.max_time_slice
    → Agrees (rr_dequeue r p) (remove p q)
dequeue-Agrees r p q v h = elim (Bool-cases (contains p q)) [
  | inr e ↦ rw (Fresh-remove p q e, rr_dequeue-none r p q v (contains-Fresh p q e)) tt
  | inl e ↦
      let (xs, ys, s, rem) = contains-split p q e in
      let v' : IsQueue r (xs ++ p ∷ ys) = rw (← s) v in
      let w = dequeued-IsQueue r p xs ys v' in
      rw (rem, rr_dequeue-some r p xs ys v')
        (w, unfold dequeued in h, rr_pick_next_lem (dequeued r p) (xs ++ ys) w)
]

call-Agrees :
    (r : Run) (q : List ℕ) (c : Call)
    → IsQueue r q
    → 0 < r.max_time_slice
    → Agrees (call r c) (promise q c)
unfolding call promise
call-Agrees r q (enqueue p) v h = enqueue-Agrees r p q v h
call-Agrees r q (dequeue p) v h = dequeue-Agrees r p q v h

then-Agrees :
    (m : Option Run) (n : Option (List ℕ)) (f : Run → Option Run) (g : List ℕ → Option (List ℕ))
    → Agrees m n
    → ((r : Run) (q : List ℕ) → IsQueue r q → 0 < r.max_time_slice → Agrees (f r) (g q))
    → Agrees (m >>= f) (n >>= g)
then-Agrees none none f g a k = tt
then-Agrees none (some q) f g a k = absurd a
then-Agrees (some r) none f g a k = absurd a
then-Agrees (some r) (some q) f g a k = k r q a.0 a.1

-- Any sequence of calls: the class fails exactly where the queue does, and otherwise holds the
-- same processes in the same order, each once, and picks the first.
pub calls-Agrees :
    (r : Run) (q : List ℕ) (cs : List Call)
    → IsQueue r q
    → 0 < r.max_time_slice
    → Agrees (calls r cs) (promises q cs)
unfolding calls promises
calls-Agrees r q [] v h = (v, h, rr_pick_next_lem r q v)
calls-Agrees r q (c ∷ cs) v h =
    then-Agrees (call r c) (promise q c) (λ r'. calls r' cs) (λ q'. promises q' cs)
      (call-Agrees r q c v h) (λ r' q' v' h'. calls-Agrees r' q' cs v' h')
