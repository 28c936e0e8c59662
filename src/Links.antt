-- ===== src/Links.antt =====
-- libs/list.h: the circular doubly linked list that the kernel's queues and free lists are made of.
-- A store gives the two link fields of every `list_entry_t` by its address; each function returns
-- the store after its writes, made in the order of the source.
pub mod Ring
pub mod Outside
pub mod Members
use nk_os_team.Prelude.{ℕ, Bool, ◌==◌, put}

-- `struct list_entry` at every address.
pub record Links : Type 0 where
  pub prev : ℕ → ℕ
  pub next : ℕ → ℕ

-- `elm->prev = elm->next = elm`
unfoldable pub list_init : Links → ℕ → Links
list_init m elm = record { prev = put m.prev elm elm; next = put m.next elm elm }

-- `__list_add`: `next->prev`, `prev->next`, `elm->next`, `elm->prev`, in this order.
unfoldable pub add_between : Links → (elm before after : ℕ) → Links
add_between m elm before after = record {
  prev = put (put m.prev after elm) elm before;
  next = put (put m.next before elm) elm after;
}

-- `__list_del`
unfoldable pub del_between : Links → (before after : ℕ) → Links
del_between m before after = record {
  prev = put m.prev after before;
  next = put m.next before after;
}

abbrev pub list_next : Links → ℕ → ℕ
list_next m listelm = m.next listelm

abbrev pub list_prev : Links → ℕ → ℕ
list_prev m listelm = m.prev listelm

abbrev pub list_empty : Links → ℕ → Bool
list_empty m list = m.next list == list

unfoldable pub list_add_after : Links → (listelm elm : ℕ) → Links
unfolding add_between
list_add_after m listelm elm = add_between m elm listelm (m.next listelm)

unfoldable pub list_add : Links → (listelm elm : ℕ) → Links
unfolding list_add_after
list_add m listelm elm = list_add_after m listelm elm

unfoldable pub list_add_before : Links → (listelm elm : ℕ) → Links
unfolding add_between
list_add_before m listelm elm = add_between m elm (m.prev listelm) listelm

unfoldable pub list_del : Links → ℕ → Links
unfolding del_between
list_del m listelm = del_between m (m.prev listelm) (m.next listelm)

unfoldable pub list_del_init : Links → ℕ → Links
unfolding list_del list_init
list_del_init m listelm = list_init (list_del m listelm) listelm
