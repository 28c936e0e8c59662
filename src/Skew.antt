-- ===== src/Skew.antt =====
-- libs/skew_heap.h: heaps by links `parent`, `left` and `right`. An entry is a number, and null is
-- `none`. `less a b` is the test `comp(a, b) == -1`. `none` as a result is a merge without fuel.
pub mod Trees
pub mod Merge
pub mod Refine
use nk_os_team.Prelude.{
  ℕ, zero, suc, Bool, true, false, Option, none, some, ◌==◌, if◌then◌else◌, put, ◌>>=◌,
}

-- `skew_heap_entry_t`
pub record Entry : Type 0 where
  pub parent : Option ℕ
  pub left : Option ℕ
  pub right : Option ℕ

abbrev pub skew_heap_init : (ℕ → Entry) → ℕ → ℕ → Entry
skew_heap_init s a = put s a (record { parent = none; left = none; right = none })

-- `if (l) l->parent = a`
abbrev pub set_parent : (ℕ → Entry) → Option ℕ → Option ℕ → ℕ → Entry
set_parent s none p = s
set_parent s (some l) p = put s l (record (s l) { parent = p })

-- The writes to the root `a` after the recursive call has given `l`.
abbrev pub attach : (ℕ → Entry) → (a : ℕ) → (l r : Option ℕ) → ℕ → Entry
attach s a l r = set_parent (put s a (record (s a) { left = l; right = r })) l (some a)

module _ (less : ℕ → ℕ → Bool) where
  unfoldable pub skew_heap_merge :
      ℕ → (ℕ → Entry) → (a b : Option ℕ) → Option ((ℕ → Entry) × Option ℕ)
  skew_heap_merge zero s a b = none
  skew_heap_merge (suc fuel) s none b = some (s, b)
  skew_heap_merge (suc fuel) s (some a) none = some (s, some a)
  skew_heap_merge (suc fuel) s (some a) (some b) = elim (less a b) [
    | true ↦ skew_heap_merge fuel s (s a).right (some b) >>= λ m.
        some (attach m.0 a m.1 (s a).left, some a)
    | false ↦ skew_heap_merge fuel s (some a) (s b).right >>= λ m.
        some (attach m.0 b m.1 (s b).left, some b)
  ]

  unfoldable pub skew_heap_insert :
      ℕ → (ℕ → Entry) → (a : Option ℕ) → (b : ℕ) → Option ((ℕ → Entry) × Option ℕ)
  unfolding skew_heap_merge
  skew_heap_insert fuel s a b = skew_heap_merge fuel (skew_heap_init s b) a (some b)

  -- `rep` takes the place of `b` below `p`.
  abbrev pub replace_child : (ℕ → Entry) → (p b : ℕ) → Option ℕ → ℕ → Entry
  replace_child s p b rep =
      if elim ((s p).left) [ none ↦ false | some l ↦ l == b ]
      then put s p (record (s p) { left = rep })
      else put s p (record (s p) { right = rep })

  abbrev pub replaced : (ℕ → Entry) → (a p : Option ℕ) → (b : ℕ) → Option ℕ → (ℕ → Entry) × Option ℕ
  replaced s a none b rep = (s, rep)
  replaced s a (some p) b rep = (replace_child s p b rep, a)

  unfoldable pub skew_heap_remove :
      ℕ → (ℕ → Entry) → (a : Option ℕ) → (b : ℕ) → Option ((ℕ → Entry) × Option ℕ)
  unfolding skew_heap_merge
  skew_heap_remove fuel s a b = do
    m ← skew_heap_merge fuel s (s b).left (s b).right
    some (replaced (set_parent m.0 m.1 (s b).parent) a (s b).parent b m.1)
