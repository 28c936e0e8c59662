-- ===== src/Links/Ring.antt =====
-- When a list head and its entries form a ring, and what the functions of libs/list.h do to one.
use nk_os_team.Prelude.{
  ℕ, ◌≡◌, ◌≢◌, ◌↔◌, true, refl, sym, List, [], ◌∷◌, ◌++◌, arith, Fresh, Distinct, Fresh-left,
  Fresh-right, Fresh-middle, Distinct-insert,
}
use nk_os_team.Links.{
  Links, list_init, add_between, del_between, list_add_after, list_add_before, list_del,
  list_del_init, list_empty,
}

-- From `a` the `next` links lead through `xs` to `b`, and the `prev` links lead back.
abbrev pub Seg : Links → ℕ → List ℕ → ℕ → Type 0
Seg m a [] b = (m.next a ≡ b) × (m.prev b ≡ a)
Seg m a (x ∷ xs) b = (m.next a ≡ x) × (m.prev x ≡ a) × Seg m x xs b

-- The entries of the list with head `h`, first to last.
pub record IsRing (m : Links) (h : ℕ) (xs : List ℕ) : Type 0 where
  pub links : Seg m h xs h
  pub apart : Distinct (h ∷ xs)

abbrev pub last : ℕ → List ℕ → ℕ
last a [] = a
last a (x ∷ xs) = last x xs

abbrev pub first : List ℕ → ℕ → ℕ
first [] b = b
first (y ∷ ys) b = y

pub last-ne : (e a : ℕ) (xs : List ℕ) → e ≢ a → Fresh e xs → e ≢ last a xs
last-ne e a [] n f = n
last-ne e a (x ∷ xs) n f = last-ne e x xs f.0 f.1

pub first-ne : (e b : ℕ) (ys : List ℕ) → e ≢ b → Fresh e ys → e ≢ first ys b
first-ne e b [] n f = n
first-ne e b (y ∷ ys) n f = f.0

-- Writes outside a segment leave it.
Seg-frame_add :
    (m : Links) (e p q a b : ℕ) (xs : List ℕ)
    → Seg m a xs b
    → a ≢ e
    → a ≢ p
    → Fresh e xs
    → Fresh p xs
    → Fresh q xs
    → e ≢ b
    → q ≢ b
    → Seg (add_between m e p q) a xs b
unfolding add_between
Seg-frame_add m e p q a b [] s h1 h2 h3 h4 h5 h6 h7 = ground arith
Seg-frame_add m e p q a b (x ∷ xs) s h1 h2 h3 h4 h5 h6 h7 = (
  ground arith,
  ground arith,
  Seg-frame_add m e p q x b xs s.2 (λ k. h3.0 (sym k)) (λ k. h4.0 (sym k)) h3.1 h4.1 h5.1 h6 h7,
)

-- A write of the links of `e` between the two neighbours puts `e` there.
insert-Seg :
    (m : Links) (e a b : ℕ) (xs ys : List ℕ)
    → Seg m a (xs ++ ys) b
    → Distinct (a ∷ (xs ++ ys))
    → Fresh b (xs ++ ys)
    → Fresh e (a ∷ b ∷ (xs ++ ys))
    → Seg (add_between m e (last a xs) (first ys b)) a (xs ++ e ∷ ys) b
unfolding add_between
insert-Seg m e a b [] [] s d f g = ground arith
insert-Seg m e a b [] (y ∷ ys) s d f g = (
  ground arith,
  ground arith,
  (
    ground arith,
    ground arith,
    Seg-frame_add m e a y y b ys s.2 (λ k. g.1.1.0 (sym k)) (λ k. d.0.0 (sym k)) g.1.1.1 d.0.1 d.1.0
        g.1.0 (λ k. f.0 (sym k)),
  ),
)
insert-Seg m e a b (x ∷ xs) ys s d f g = (
  ground (arith, last-ne a x xs d.0.0 (Fresh-left a xs ys d.0.1)),
  ground (arith, first-ne x b ys (λ k. f.0 (sym k)) (Fresh-right x xs ys d.1.0)),
  insert-Seg m e x b xs ys s.2 d.1 f.1 (g.1.1.0, (g.1.0, g.1.1.1)),
)

Seg-frame_del :
    (m : Links) (p q a b : ℕ) (xs : List ℕ)
    → Seg m a xs b
    → a ≢ p
    → Fresh p xs
    → Fresh q xs
    → q ≢ b
    → Seg (del_between m p q) a xs b
unfolding del_between
Seg-frame_del m p q a b [] s h1 h2 h3 h4 = ground arith
Seg-frame_del m p q a b (x ∷ xs) s h1 h2 h3 h4 =
    (ground arith, ground arith, Seg-frame_del m p q x b xs s.2 (λ k. h2.0 (sym k)) h2.1 h3.1 h4)

remove-Seg :
    (m : Links) (e a b : ℕ) (xs ys : List ℕ)
    → Seg m a (xs ++ e ∷ ys) b
    → Distinct (a ∷ (xs ++ e ∷ ys))
    → Fresh b (xs ++ e ∷ ys)
    → Seg (del_between m (last a xs) (first ys b)) a (xs ++ ys) b
unfolding del_between
remove-Seg m e a b [] [] s d f = ground arith
remove-Seg m e a b [] (y ∷ ys) s d f = (
  ground arith,
  ground arith,
  Seg-frame_del m a y y b ys s.2.2 (λ k. d.0.1.0 (sym k)) d.0.1.1 d.1.1.0 (λ k. f.1.0 (sym k)),
)
remove-Seg m e a b (x ∷ xs) ys s d f = (
  ground (arith, last-ne a x xs d.0.0 (Fresh-left a xs (e ∷ ys) d.0.1)),
  ground (arith, first-ne x b ys (λ k. f.0 (sym k)) (Fresh-right x xs (e ∷ ys) d.1.0).1),
  remove-Seg m e x b xs ys s.2 d.1 f.1,
)

-- The neighbours of a place in a segment.
Seg-next :
    (m : Links) (a b : ℕ) (xs ys : List ℕ) → Seg m a (xs ++ ys) b → m.next (last a xs) ≡ first ys b
Seg-next m a b [] [] s = s.0
Seg-next m a b [] (y ∷ ys) s = s.0
Seg-next m a b (x ∷ xs) ys s = Seg-next m x b xs ys s.2

pub Seg-prev :
    (m : Links) (a b : ℕ) (xs ys : List ℕ) → Seg m a (xs ++ ys) b → m.prev (first ys b) ≡ last a xs
Seg-prev m a b [] [] s = s.1
Seg-prev m a b [] (y ∷ ys) s = s.1
Seg-prev m a b (x ∷ xs) ys s = Seg-prev m x b xs ys s.2

Seg-drop : (m : Links) (a e b : ℕ) (xs ys : List ℕ) → Seg m a (xs ++ e ∷ ys) b → Seg m e ys b
Seg-drop m a e b [] ys s = s.2
Seg-drop m a e b (x ∷ xs) ys s = Seg-drop m x e b xs ys s.2

pub last-append : (a e : ℕ) (xs : List ℕ) → last a (xs ++ e ∷ []) ≡ e
last-append a e [] = refl
last-append a e (x ∷ xs) = last-append x e xs

-- `list_add_between` the neighbours of any place of a ring.
pub add_between-IsRing :
    (m : Links) (h e : ℕ) (xs ys : List ℕ)
    → IsRing m h (xs ++ ys)
    → Fresh e (h ∷ (xs ++ ys))
    → IsRing (add_between m e (last h xs) (first ys h)) h (xs ++ e ∷ ys)
add_between-IsRing m h e xs ys r f = record {
  links = insert-Seg m e h h xs ys r.links r.apart r.apart.0 (f.0, (f.0, f.1));
  apart = Distinct-insert e (h ∷ xs) ys f r.apart;
}

-- To initialise an entry outside a ring leaves the ring.
Seg-frame_init :
    (m : Links) (e a b : ℕ) (xs : List ℕ)
    → Seg m a xs b
    → e ≢ a
    → e ≢ b
    → Fresh e xs
    → Seg (list_init m e) a xs b
unfolding list_init
Seg-frame_init m e a b [] s h1 h2 h3 = ground arith
Seg-frame_init m e a b (x ∷ xs) s h1 h2 h3 =
    (ground arith, ground arith, Seg-frame_init m e x b xs s.2 h3.0 h2 h3.1)

pub frame_init :
    (m : Links) (h e : ℕ) (xs : List ℕ)
    → IsRing m h xs
    → Fresh e (h ∷ xs)
    → IsRing (list_init m e) h xs
frame_init m h e xs r f = record {
  links = Seg-frame_init m e h h xs r.links f.0 f.0 f.1;
  apart = r.apart;
}

-- The head of an initialised entry is the empty ring.
pub list_init-IsRing : (m : Links) (h : ℕ) → IsRing (list_init m h) h []
unfolding list_init
list_init-IsRing m h = record { links = ground arith; apart = (tt, tt) }

-- After the last of `xs`, seen from that entry.
pub list_add_after-IsRing :
    (m : Links) (h e : ℕ) (xs ys : List ℕ)
    → IsRing m h (xs ++ ys)
    → Fresh e (h ∷ (xs ++ ys))
    → IsRing (list_add_after m (last h xs) e) h (xs ++ e ∷ ys)
unfolding list_add_after
list_add_after-IsRing m h e xs ys r f =
    rw (Seg-next m h h xs ys r.links) (add_between-IsRing m h e xs ys r f)

-- `list_add_before` puts an entry that is not in the ring before the first of `ys`, or, if there
-- are none, before the head.
pub list_add_before-IsRing :
    (m : Links) (h e : ℕ) (xs ys : List ℕ)
    → IsRing m h (xs ++ ys)
    → Fresh e (h ∷ (xs ++ ys))
    → IsRing (list_add_before m (first ys h) e) h (xs ++ e ∷ ys)
unfolding list_add_before
list_add_before-IsRing m h e xs ys r f =
    rw (Seg-prev m h h xs ys r.links) (add_between-IsRing m h e xs ys r f)

-- The entry before and the entry after an entry of a ring.
pub ring_neighbours :
    (m : Links) (h e : ℕ) (xs ys : List ℕ)
    → IsRing m h (xs ++ e ∷ ys)
    → (m.prev e ≡ last h xs) × (m.next e ≡ first ys h)
ring_neighbours m h e xs ys r =
    (Seg-prev m h h xs (e ∷ ys) r.links, Seg-next m e h [] ys (Seg-drop m h e h xs ys r.links))

pub list_del-IsRing :
    (m : Links) (h e : ℕ) (xs ys : List ℕ)
    → IsRing m h (xs ++ e ∷ ys)
    → IsRing (list_del m e) h (xs ++ ys)
unfolding list_del
list_del-IsRing m h e xs ys r =
    let (p, n) = ring_neighbours m h e xs ys r in
    rw (p, n)
      (record {
        links = remove-Seg m e h h xs ys r.links r.apart r.apart.0;
        apart = (Fresh-middle e (h ∷ xs) ys r.apart).1;
      })

-- `list_empty` on the head tells whether the ring has an entry.
pub list_empty_iff :
    (m : Links) (h : ℕ) (xs : List ℕ) → IsRing m h xs → (list_empty m h ≡ true) ↔ (xs ≡ [])
list_empty_iff m h [] r = ground (arith, r.links)
list_empty_iff m h (x ∷ xs) r = ground (arith, r.links, r.apart)

-- An entry that is in no list points to itself, as `list_init` leaves it.
abbrev pub IsAlone : Links → ℕ → Type 0
IsAlone m e = (m.next e ≡ e) × (m.prev e ≡ e)

-- `list_del_init` takes the entry out of its ring, and links it to itself.
pub list_del_init-IsRing :
    (m : Links) (h e : ℕ) (xs ys : List ℕ)
    → IsRing m h (xs ++ e ∷ ys)
    → IsRing (list_del_init m e) h (xs ++ ys) × IsAlone (list_del_init m e) e
unfolding list_del_init list_init
list_del_init-IsRing m h e xs ys r = (
  frame_init (list_del m e) h e (xs ++ ys) (list_del-IsRing m h e xs ys r)
      (Fresh-middle e (h ∷ xs) ys r.apart).0,
  (ground arith, ground arith),
)
