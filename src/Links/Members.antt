-- ===== src/Links/Members.antt =====
-- Lists of libs/list.h whose head is address 0 and whose entries are the link fields of numbered
-- objects, object `n` at address `n + 1`.
use mathlib.Core.List.{map-append}
use native.Mathlib.Decide.{ℕ_discrete}
use mathlib.Core.Path.{fun_ext, ap₂}
use nk_os_team.Prelude.{
  ℕ, suc, ◌≡◌, refl, ◌∙◌, false, List, [], ◌∷◌, ◌++◌, map, arith, Fresh, Distinct, Fresh-append,
  Fresh-left, Fresh-right, map-Fresh, Distinct-pred, put, Bool-cases, ◌==◌, inl, sym, ap, ==_iff,
  inr,
}
use nk_os_team.Links.{Links, list_init, list_add_before, list_del_init, list_empty}
use nk_os_team.Links.Outside.{list_empty_entry, list_add_before-IsAlone, list_del_init-IsAlone}
use nk_os_team.Links.Ring.{
  IsRing, IsAlone, first, list_init-IsRing, list_add_before-IsRing, list_del_init-IsRing,
  ring_neighbours,
}

-- The list holds the objects `q` in this order, and no other object is linked.
pub record Holds (m : Links) (q : List ℕ) : Type 0 where
  pub ring : IsRing m 0 (map suc q)
  pub alone : (p : ℕ) → Fresh p q → IsAlone m (suc p)

abbrev pub first_link : List ℕ → ℕ
first_link [] = 0
first_link (p ∷ q) = suc p

first-map : (q : List ℕ) → first (map suc q) 0 ≡ first_link q
first-map [] = refl
first-map (p ∷ q) = refl

module _ (m : Links) where
  pub Holds-list_init : ((p : ℕ) → IsAlone m (suc p)) → Holds (list_init m 0) []
  unfolding list_init
  Holds-list_init a = record { ring = list_init-IsRing m 0; alone = λ p _. ground (arith, a p) }

  pub Holds-Distinct : (q : List ℕ) → Holds m q → Distinct q
  Holds-Distinct q v = Distinct-pred q v.ring.apart.1

  pub Holds-head : (q : List ℕ) → Holds m q → m.next 0 ≡ first_link q
  Holds-head [] v = v.ring.links.0
  Holds-head (p ∷ q) v = v.ring.links.0

module _ (m : Links) (e : ℕ) (xs ys : List ℕ) where
  split-IsRing : Holds m (xs ++ e ∷ ys) → IsRing m 0 (map suc xs ++ suc e ∷ map suc ys)
  split-IsRing v = rw (← map-append suc xs (e ∷ ys)) v.ring

  pub Holds-linked : Holds m (xs ++ e ∷ ys) → list_empty m (suc e) ≡ false
  Holds-linked v = list_empty_entry m 0 (suc e) (map suc xs) (map suc ys) (split-IsRing v)

  pub Holds-next : Holds m (xs ++ e ∷ ys) → m.next (suc e) ≡ first_link ys
  Holds-next v =
      (ring_neighbours m 0 (suc e) (map suc xs) (map suc ys) (split-IsRing v)).1 ∙ first-map ys

  inserted-IsRing :
      Holds m (xs ++ ys)
      → Fresh e (xs ++ ys)
      → IsRing
          (list_add_before m (first (map suc ys) 0) (suc e))
          0
          (map suc xs ++ suc e ∷ map suc ys)
  inserted-IsRing v f =
      list_add_before-IsRing m 0 (suc e) (map suc xs) (map suc ys)
        (rw (← map-append suc xs ys) v.ring) (omega arith, map-Fresh e xs ys f)

  inserted_alone :
      Holds m (xs ++ ys)
      → (z : ℕ) → Fresh z (xs ++ e ∷ ys)
      → IsAlone (list_add_before m (first (map suc ys) 0) (suc e)) (suc z)
  inserted_alone v z f =
      let fx = Fresh-left z xs (e ∷ ys) f in
      let fy = Fresh-right z xs (e ∷ ys) f in
      list_add_before-IsAlone m 0 (suc e) (suc z) (map suc xs) (map suc ys)
        (rw (← map-append suc xs ys) v.ring)
        (omega arith, map-Fresh z xs ys (Fresh-append z xs ys fx fy.1)) (omega (arith, fy.0))
        (v.alone z (Fresh-append z xs ys fx fy.1))

  -- An object that is not in the list is put before the first of `ys`.
  pub Holds-insert :
      Holds m (xs ++ ys)
      → Fresh e (xs ++ ys)
      → Holds (list_add_before m (first_link ys) (suc e)) (xs ++ e ∷ ys)
  Holds-insert v f =
      rw (← first-map ys)
        (record { ring = rw map-append (inserted-IsRing v f); alone = inserted_alone v })

  deleted_alone :
      Holds m (xs ++ e ∷ ys)
      → (z : ℕ) → Fresh z (xs ++ ys)
      → IsAlone (list_del_init m (suc e)) (suc z)
  deleted_alone v z f = elim (ℕ_discrete z e) [
    | yes d ↦ rw d (list_del_init-IsRing m 0 (suc e) (map suc xs) (map suc ys) (split-IsRing v)).1
    | no n ↦
        list_del_init-IsAlone m 0 (suc e) (suc z) (map suc xs) (map suc ys) (split-IsRing v)
          (omega arith, map-Fresh z xs ys f) (omega arith)
          (v.alone z (Fresh-append z xs (e ∷ ys) (Fresh-left z xs ys f) (n, Fresh-right z xs ys f)))
  ]

  -- An object of the list is taken out.
  pub Holds-delete : Holds m (xs ++ e ∷ ys) → Holds (list_del_init m (suc e)) (xs ++ ys)
  Holds-delete v = record {
    ring =
        rw map-append
          (list_del_init-IsRing m 0 (suc e) (map suc xs) (map suc ys) (split-IsRing v)).0;
    alone = deleted_alone v;
  }

-- Initialising an entry that is alone changes nothing.
pub list_init_alone : (m : Links) (e : ℕ) → IsAlone m e → list_init m e ≡ m
unfolding list_init
list_init_alone m e a =
    ap₂ (λ x y. record { prev = x; next = y }) (fun_ext (λ z. put_same m.prev z a.1))
      (fun_ext (λ z. put_same m.next z a.0))
  where
    put_same : (f : ℕ → ℕ) (z : ℕ) → f e ≡ e → put f e e z ≡ f z
    put_same f z h = elim (Bool-cases (z == e)) [
      | inl k ↦ rw k (sym h ∙ ap f (sym ((==_iff z e).0 k)))
      | inr k ↦ rw k refl
    ]
