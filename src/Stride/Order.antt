-- ===== src/Stride/Order.antt =====
-- Strides are compared by their distance from a base, which wraps around at 2 ^ 32.
use nk_os_team.Prelude.{ℕ, ◌+◌, ◌-◌, ◌%◌, ◌^◌, ◌≤◌, ◌<◌, ◌≡◌, ◌↔◌, true, false, arith}
use nk_os_team.Skew.Trees.{
  Tree, leaf, node, Every, Merged, left_leaf, right_leaf, keep_left, keep_right, Every-Merged,
  Every-map,
}
use nk_os_team.Stride.{stride_less, big_stride}

-- The distance of a stride from a base.
abbrev pub ahead : (base : ℕ) → (ℕ → ℕ) → ℕ → ℕ
ahead base stride p = (stride p + 2 ^ 32 - base) % 2 ^ 32

-- The comparison is right for two strides less than 2 ^ 31 from a base.
stride_less_iff :
    (base : ℕ) (stride : ℕ → ℕ) (p q : ℕ)
    → base < 2 ^ 32
    → stride p < 2 ^ 32
    → stride q < 2 ^ 32
    → ahead base stride p ≤ big_stride
    → ahead base stride q ≤ big_stride
    → (stride_less stride p q ≡ true) ↔ (ahead base stride p < ahead base stride q)
stride_less_iff base stride p q a b c d e = (λ h. ground arith, λ h. ground arith)

-- No entry is below its parent.
abbrev pub IsHeap : (ℕ → ℕ) → Tree → Type 0
IsHeap key leaf = Unit {0}
IsHeap key (node x l r) =
    Every (λ y. key x ≤ key y) l × Every (λ y. key x ≤ key y) r × IsHeap key l × IsHeap key r

-- An entry of the heap is less than `2 ^ 32`, and not too far ahead.
abbrev pub IsNear : (base : ℕ) → (ℕ → ℕ) → ℕ → Type 0
IsNear base stride p = (stride p < 2 ^ 32) × (ahead base stride p ≤ big_stride)

module _ (base : ℕ) (stride : ℕ → ℕ) (fits : base < 2 ^ 32) where
  not_less :
      (a b : ℕ)
      → stride_less stride a b ≡ false
      → IsNear base stride a
      → IsNear base stride b
      → ahead base stride b ≤ ahead base stride a
  not_less a b e n n' = ground (arith, n.0, n.1, n'.0, n'.1)

  -- Merging keeps the order.
  pub Merged-IsHeap :
      (t u m : Tree)
      → Merged (stride_less stride) t u m
      → Every (IsNear base stride) t
      → Every (IsNear base stride) u
      → IsHeap (ahead base stride) t
      → IsHeap (ahead base stride) u
      → IsHeap (ahead base stride) m
  Merged-IsHeap _ _ _ (left_leaf u) n n' h h' = h'
  Merged-IsHeap _ _ _ (right_leaf t) n n' h h' = h
  Merged-IsHeap _ _ _ (keep_left a la ra b lb rb m e g) n n' h h' =
      let l = (stride_less_iff base stride a b fits n.0.0 n'.0.0 n.0.1 n'.0.1).0 e in
      let up = λ (t : Tree).
        Every-map (λ y. ahead base stride b ≤ ahead base stride y)
          (λ y. ahead base stride a ≤ ahead base stride y) t (λ y k. omega (arith, k, l)) in
      (
        Every-Merged (λ y. ahead base stride a ≤ ahead base stride y) (stride_less stride) ra
            (node b lb rb) m g h.1 (omega (arith, l), up lb h'.0, up rb h'.1),
        h.0,
        Merged-IsHeap ra (node b lb rb) m g n.2 n' h.3 h',
        h.2,
      )
  Merged-IsHeap _ _ _ (keep_right a la ra b lb rb m e g) n n' h h' =
      let l : ahead base stride b ≤ ahead base stride a = not_less a b e n.0 n'.0 in
      let up = λ (t : Tree).
        Every-map (λ y. ahead base stride a ≤ ahead base stride y)
          (λ y. ahead base stride b ≤ ahead base stride y) t (λ y k. omega (arith, k, l)) in
      (
        Every-Merged (λ y. ahead base stride b ≤ ahead base stride y) (stride_less stride)
            (node a la ra) rb m g (l, up la h.0, up ra h.1) h'.1,
        h'.0,
        Merged-IsHeap (node a la ra) rb m g n n'.2 h h'.3,
        h'.2,
      )

-- Distances from a stride that is itself ahead of the base.
pub between_strides :
    (b x z : ℕ)
    → b < 2 ^ 32
    → x < 2 ^ 32
    → z < 2 ^ 32
    → (x + 2 ^ 32 - b) % 2 ^ 32 ≤ (z + 2 ^ 32 - b) % 2 ^ 32
    → (z + 2 ^ 32 - x) % 2 ^ 32 + (x + 2 ^ 32 - b) % 2 ^ 32 ≡ (z + 2 ^ 32 - b) % 2 ^ 32
between_strides b x z f g h l = ground arith

pub pass_ahead :
    (x d : ℕ) → x < 2 ^ 32 → d ≤ big_stride → ((x + d) % 2 ^ 32 + 2 ^ 32 - x) % 2 ^ 32 ≡ d
pass_ahead x d f l = ground arith
