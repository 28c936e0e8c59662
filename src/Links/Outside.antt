-- ===== src/Links/Outside.antt =====
-- Entries of libs/list.h inside and outside a ring: what a list operation leaves alone.
use nk_os_team.Prelude.{
  ℕ, ◌≡◌, ◌≢◌, false, List, ◌∷◌, ◌++◌, arith, Fresh, Fresh-left, Fresh-right, Fresh-middle,
}
use nk_os_team.Links.{Links, list_add_before, list_del_init, list_empty}
use nk_os_team.Links.Ring.{IsRing, IsAlone, first, last-ne, first-ne, ring_neighbours, Seg-prev}

-- An entry of a ring does not point to itself.
pub list_empty_entry :
    (m : Links) (h e : ℕ) (xs ys : List ℕ) → IsRing m h (xs ++ e ∷ ys) → list_empty m e ≡ false
list_empty_entry m h e xs ys r =
    let f = (Fresh-middle e (h ∷ xs) ys r.apart).0 in
    ground (arith, ring_neighbours m h e xs ys r, first-ne e h ys f.0 (Fresh-right e xs ys f.1))

-- An entry outside a ring stays alone when another is added.
pub list_add_before-IsAlone :
    (m : Links) (h e z : ℕ) (xs ys : List ℕ)
    → IsRing m h (xs ++ ys)
    → Fresh z (h ∷ (xs ++ ys))
    → z ≢ e
    → IsAlone m z
    → IsAlone (list_add_before m (first ys h) e) z
unfolding list_add_before
list_add_before-IsAlone m h e z xs ys r f n a = ground (
  arith,
  Seg-prev m h h xs ys r.links,
  last-ne z h xs f.0 (Fresh-left z xs ys f.1),
  first-ne z h ys f.0 (Fresh-right z xs ys f.1),
)

-- It stays alone when another leaves the ring.
pub list_del_init-IsAlone :
    (m : Links) (h e z : ℕ) (xs ys : List ℕ)
    → IsRing m h (xs ++ e ∷ ys)
    → Fresh z (h ∷ (xs ++ ys))
    → z ≢ e
    → IsAlone m z
    → IsAlone (list_del_init m e) z
unfolding list_del_init
list_del_init-IsAlone m h e z xs ys r f n a = ground (
  arith,
  ring_neighbours m h e xs ys r,
  last-ne z h xs f.0 (Fresh-left z xs ys f.1),
  first-ne z h ys f.0 (Fresh-right z xs ys f.1),
)
