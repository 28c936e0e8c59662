-- ===== src/Skew/Trees.antt =====
-- The trees that heaps are, and merging as a relation between trees.
use nk_os_team.Prelude.{ℕ, suc, ◌+◌, ◌≡◌, ◌≢◌, Bool, true, false}

pub data Tree : Type 0 where
  leaf : Tree
  node : ℕ → Tree → Tree → Tree

abbrev pub size : Tree → ℕ
size leaf = 0
size (node x l r) = suc (size l + size r)

-- A property of every entry of a tree.
abbrev pub Every {ℓ} : (ℕ → Type ℓ) → Tree → Type ℓ
Every P leaf = Unit
Every P (node x l r) = P x × Every P l × Every P r

abbrev pub Absent : ℕ → Tree → Type 0
Absent x t = Every (λ y. x ≢ y) t

-- No entry of one tree is in the other.
abbrev pub Apart : Tree → Tree → Type 0
Apart t u = Every (λ x. Absent x u) t

abbrev pub Once : Tree → Type 0
Once leaf = Unit {0}
Once (node x l r) = Absent x l × Absent x r × Apart l r × Once l × Once r

-- The merge of two trees: the root that is smaller stays, its right part is merged with the other
-- tree, and its parts change sides.
pub data Merged (less : ℕ → ℕ → Bool) : Tree → Tree → Tree → Type 0 where
  left_leaf : (u : Tree) → Merged less leaf u u
  right_leaf : (t : Tree) → Merged less t leaf t
  keep_left :
      (a : ℕ) (la ra : Tree) (b : ℕ) (lb rb m : Tree)
      → less a b ≡ true
      → Merged less ra (node b lb rb) m
      → Merged less (node a la ra) (node b lb rb) (node a m la)
  keep_right :
      (a : ℕ) (la ra : Tree) (b : ℕ) (lb rb m : Tree)
      → less a b ≡ false
      → Merged less (node a la ra) rb m
      → Merged less (node a la ra) (node b lb rb) (node b m lb)

module _ {ℓ} (P : ℕ → Type ℓ) (less : ℕ → ℕ → Bool) where
  -- A merge has the entries of both trees and no other.
  pub Every-Merged : (t u m : Tree) → Merged less t u m → Every P t → Every P u → Every P m
  Every-Merged _ _ _ (left_leaf u) h k = k
  Every-Merged _ _ _ (right_leaf t) h k = h
  Every-Merged _ _ _ (keep_left a la ra b lb rb m e g) h k =
      (h.0, Every-Merged ra (node b lb rb) m g h.2 k, h.1)
  Every-Merged _ _ _ (keep_right a la ra b lb rb m e g) h k =
      (k.0, Every-Merged (node a la ra) rb m g h k.2, k.1)

pub Every-map {ℓ κ} :
    (P : ℕ → Type ℓ) (Q : ℕ → Type κ) (t : Tree) → ((x : ℕ) → P x → Q x) → Every P t → Every Q t
Every-map P Q leaf f h = tt
Every-map P Q (node x l r) f h = (f x h.0, Every-map P Q l f h.1, Every-map P Q r f h.2)

pub Every-both {ℓ κ} :
    (P : ℕ → Type ℓ) (Q : ℕ → Type κ) (t : Tree) → Every P t → Every Q t → Every (λ x. P x × Q x) t
Every-both P Q leaf h k = tt
Every-both P Q (node x l r) h k = ((h.0, k.0), Every-both P Q l h.1 k.1, Every-both P Q r h.2 k.2)
