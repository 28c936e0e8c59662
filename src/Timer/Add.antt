-- ===== src/Timer/Add.antt =====
-- `add_timer` keeps the deadlines of all timers that run, and puts the new one in its place.
use mathlib.Core.Path.{ap₂}
use mathlib.Core.List.{append_assoc}
use nk_os_team.Prelude.{
  ℕ, zero, suc, ◌+◌, ◌-◌, ◌^◌, ◌≤◌, ◌<◌, ◌≡◌, refl, sym, ap, ◌∙◌, ◌≢◌, inl, inr, true, Option, some,
  List, [], ◌∷◌, ◌++◌, arith, ltb, ==_iff, ltb→lt, lt→ltb, put, Bool-cases, length, Fresh, Distinct,
  link-ne-list, pred_suc,
}
use nk_os_team.Links.Members.{
  Holds, first_link, Holds-insert, Holds-head, Holds-next, Holds-Distinct,
}
use nk_os_team.Timer.{
  Timer, Timers, timer_link, set_expires, find_place, add_timer, is_some, list_add_before,
}
use nk_os_team.Timer.Deadlines.{deadlines, insert_due, Fits, IsTimers, deadlines-same}

-- Where the loop stops: before `after`, with the deadlines as they shall be.
record Placed (s : Timers) (t acc : ℕ) (q : List ℕ) (r : Option (Timers × ℕ)) : Type 0 where
  before : List ℕ
  after : List ℕ
  timers : ℕ → Timer
  split : before ++ after ≡ q
  result : r ≡ some (record s { timers = timers }, first_link after)
  due :
      deadlines timers acc (before ++ t ∷ after)
      ≡ insert_due t (acc + (s.timers t).expires) (deadlines s.timers acc q)
  other : (z : ℕ) → z ≢ t → Fresh z q → timers z ≡ s.timers z

-- The loop stops before `x`, whose distance to the new timer is what it keeps.
stop_here :
    (s : Timers) (t acc x : ℕ) (q : List ℕ)
    → Fresh t (x ∷ q)
    → Fresh x q
    → (s.timers t).expires < (s.timers x).expires
    → Placed s t acc
        (x ∷ q)
        (some (set_expires s x ((s.timers x).expires - (s.timers t).expires), timer_link x))
stop_here s t acc x q f d h = record {
  before = [];
  after = x ∷ q;
  timers = shortened;
  split = refl;
  result = refl;
  due = ground (
    arith,
    f.0,
    deadlines-same s.timers shortened x (acc + (s.timers x).expires) q (λ z n. ground arith) d,
  );
  other = λ z n g. ground (arith, g.0);
}
  where
    shortened : ℕ → Timer
    shortened =
        put s.timers x
          (record (s.timers x) { expires = (s.timers x).expires - (s.timers t).expires })

-- The loop passes `x`, and the new timer counts from there.
pass_by :
    (s : Timers) (t acc x : ℕ) (q : List ℕ) (r : Option (Timers × ℕ))
    → Fresh t (x ∷ q)
    → Fresh x q
    → (s.timers x).expires ≤ (s.timers t).expires
    → Placed
        (set_expires s t ((s.timers t).expires - (s.timers x).expires))
        t
        (acc + (s.timers x).expires)
        q
        r
    → Placed s t acc (x ∷ q) r
pass_by s t acc x q r f d h p = record {
  before = x ∷ p.before;
  after = p.after;
  timers = p.timers;
  split = ap (◌∷◌ x) p.split;
  result = p.result;
  due = passed;
  other = λ z n g. ground (arith, p.other z n g.1);
}
  where
    moved : Timers
    moved = set_expires s t ((s.timers t).expires - (s.timers x).expires)

    same_x : p.timers x ≡ s.timers x
    same_x = ground (arith, p.other x (λ k. f.0 (sym k)) d)

    ahead : acc + (s.timers x).expires + (moved.timers t).expires ≡ acc + (s.timers t).expires
    ahead = ground arith

    rest :
        deadlines p.timers (acc + (s.timers x).expires) (p.before ++ t ∷ p.after)
        ≡ insert_due t
            (acc + (s.timers t).expires)
            (deadlines s.timers (acc + (s.timers x).expires) q)
    rest =
        p.due
        ∙ ap₂ (insert_due t) ahead (
            deadlines-same s.timers moved.timers t (acc + (s.timers x).expires) q
              (λ z n. ground arith) f.1)

    passed :
        deadlines p.timers acc (x ∷ p.before ++ t ∷ p.after)
        ≡ insert_due t (acc + (s.timers t).expires) (deadlines s.timers acc (x ∷ q))
    passed = rw same_x (ground (arith, rest))

find_place-Placed :
    (fuel : ℕ) (s : Timers) (t acc : ℕ) (xs q : List ℕ)
    → length q < fuel
    → Holds s.links (xs ++ q)
    → Fresh t q
    → Distinct q
    → Placed s t acc q (find_place fuel s t (first_link q))
unfolding find_place
find_place-Placed zero s t acc xs q h v f d = absurd (omega arith)
find_place-Placed (suc fuel) s t acc xs [] h v f d = record {
  before = [];
  after = [];
  timers = s.timers;
  split = refl;
  result = ground arith;
  due = refl;
  other = λ z _ _. refl;
}
find_place-Placed (suc fuel) s t acc xs (x ∷ q) h v f d =
    elim (Bool-cases (ltb (s.timers t).expires (s.timers x).expires)) [
      | inl e ↦ rw (link-ne-list x, pred_suc x, e) (stop_here s t acc x q f d.0 (ltb→lt _ _ e))
      | inr e ↦
          rw (link-ne-list x, pred_suc x, e, Holds-next s.links x xs q v)
            (pass_by s t acc x q _ f d.0 (ground arith) (
              find_place-Placed fuel (set_expires s t ((s.timers t).expires - (s.timers x).expires))
                t (acc + (s.timers x).expires) (xs ++ x ∷ []) q (omega arith) (rw append_assoc v)
                f.1 d.1))
    ]

insert-Fits : (t e : ℕ) (ds : List (ℕ × ℕ)) → e < 2 ^ 32 → Fits ds → Fits (insert_due t e ds)
insert-Fits t e [] h v = (h, tt)
insert-Fits t e ((u, d) ∷ ds) h v = ground (arith, insert-Fits t e ds h v.1)

-- A timer that does not run yet and is to fire in `expires` > 0 ticks for some process is taken,
-- with fuel for one round more than there are timers. It stands before those that fire later and
-- behind those that fire no later, and the deadlines of the other timers stay.
pub add_timer_lem :
    (fuel : ℕ) (s : Timers) (t : ℕ) (q : List ℕ)
    → IsTimers s q
    → Fresh t q
    → 0 < (s.timers t).expires
    → (s.timers t).expires < 2 ^ 32
    → is_some (s.timers t).proc ≡ true
    → length q < fuel
    → (s' : Timers) × (q' : List ℕ) × (add_timer fuel s t ≡ some s')
      × IsTimers s' q'
      × (deadlines s'.timers 0 q' ≡ insert_due t (s.timers t).expires (deadlines s.timers 0 q))
unfolding add_timer
add_timer_lem fuel s t q v f pos small proc enough =
    let p = find_place-Placed fuel s t 0 [] q enough v.held f (Holds-Distinct s.links q v.held) in
    let due = p.due ∙ ap (λ e. insert_due t e (deadlines s.timers 0 q)) (omega arith) in
    (
      record s {
        timers = p.timers;
        links = list_add_before s.links (first_link p.after) (timer_link t);
      },
      p.before ++ t ∷ p.after,
      rw (
        lt→ltb 0 (s.timers t).expires pos,
        proc,
        (==_iff (s.links.next (suc t)) (suc t)).1 (v.held.alone t f).0,
        Holds-head s.links q v.held,
        p.result,
      ),
      record {
        held = Holds-insert s.links t p.before p.after (rw p.split v.held) (rw p.split f);
        fits = rw due (insert-Fits t _ _ small v.fits);
      },
      due,
    )
