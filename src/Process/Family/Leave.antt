-- ===== src/Process/Family/Leave.antt =====
-- The writes of `remove_links` to the links of a family.
use mathlib.Core.Path.{subst}
use nk_os_team.Prelude.{ℕ, ◌≡◌, refl, sym, ap, ◌∙◌, ◌≢◌, Option, none, some}
use nk_os_team.Process.{Task, write, close_young, close_old, leave_family}
use nk_os_team.Process.Family.{Elsewhere, write_self, write_other, write_field}

-- Reading after the write to the next sibling.
close_other : (ts : ℕ → Task) (o : Option ℕ) (p z : ℕ) → o ≢ some z → close_young ts o p z ≡ ts z
close_other ts none p z n = refl
close_other ts (some o) p z n =
    write_other ts o (λ r. record r { yptr = (ts p).yptr }) z (λ e. n (ap some (sym e)))

close_field {ℓ} :
    {A : Type ℓ} (g : Task → A) (ts : ℕ → Task) (o : Option ℕ) (p z : ℕ)
    → ((r : Task) (y : Option ℕ) → g (record r { yptr = y }) ≡ g r)
    → g (close_young ts o p z) ≡ g (ts z)
close_field g ts none p z h = refl
close_field g ts (some o) p z h =
    write_field g ts o (λ r. record r { yptr = (ts p).yptr }) z (λ r. h r (ts p).yptr)

close_self :
    (ts : ℕ → Task) (o : Option ℕ) (p z : ℕ)
    → o ≡ some z
    → (close_young ts o p z).yptr ≡ (ts p).yptr
close_self ts none p z e = cc e
close_self ts (some o) p z e =
    let e' : o ≡ z = cc e in
    subst (λ x. (close_young ts (some o) p x).yptr ≡ (ts p).yptr) e'
      (ap (λ r. r.yptr) (write_self ts o (λ r. record r { yptr = (ts p).yptr })))

-- What the store is after a process `c` with siblings `o` and `y` has left.
pub record Left (ts ts' : ℕ → Task) (q : ℕ) (o y : Option ℕ) : Type 0 where
  pub elsewhere : Elsewhere ts ts' o y
  pub next_one :
      (z : ℕ)
      → o ≡ some z
      → y ≢ some z
      → ((ts' z).yptr ≡ y) × ((ts' z).optr ≡ (ts z).optr) × ((ts' z).parent ≡ (ts z).parent)
  pub last_one :
      (z : ℕ)
      → y ≡ some z
      → o ≢ some z
      → ((ts' z).yptr ≡ (ts z).yptr) × ((ts' z).optr ≡ o) × ((ts' z).parent ≡ (ts z).parent)
  pub same_pid : (z : ℕ) → (ts' z).pid ≡ (ts z).pid
  pub first_child : y ≡ none → (ts' q).cptr ≡ o
  pub no_first_child : y ≢ none → (ts' q).cptr ≡ (ts q).cptr

module _ (ts : ℕ → Task) (c q : ℕ) (o : Option ℕ) (eo : (ts c).optr ≡ o) (n : o ≢ some c) where
  abbrev closed : ℕ → Task
  closed = close_young ts o c

  closed_optr : (closed c).optr ≡ o
  closed_optr = ap (λ r. r.optr) (close_other ts o c c n) ∙ eo

  abbrev in_parent : ℕ → Task
  in_parent = write closed q (λ r. record r { cptr = (closed c).optr })

  in_parent-Left : (ts c).yptr ≡ none → Left ts in_parent q o none
  in_parent-Left e = record {
    elsewhere = λ z m _.
        (kept_yptr z ∙ ap (λ r. r.yptr) (close_other ts o c z m), kept_optr z, kept_parent z);
    next_one = λ z k _. (kept_yptr z ∙ close_self ts o c z k ∙ e, kept_optr z, kept_parent z);
    last_one = λ z k. cc k;
    same_pid = λ z.
        write_field (λ r. r.pid) closed q (λ r. record r { cptr = (closed c).optr }) z (λ r. refl)
        ∙ close_field (λ r. r.pid) ts o c z (λ r y. refl);
    first_child = λ _.
        ap (λ r. r.cptr) (write_self closed q (λ r. record r { cptr = (closed c).optr }))
        ∙ closed_optr;
    no_first_child = λ k. absurd (k refl);
  }
    where
      kept_yptr : (z : ℕ) → (in_parent z).yptr ≡ (closed z).yptr
      kept_yptr z =
          write_field (λ r. r.yptr) closed q (λ r. record r { cptr = (closed c).optr }) z
            (λ r. refl)

      kept_optr : (z : ℕ) → (in_parent z).optr ≡ (ts z).optr
      kept_optr z =
          write_field (λ r. r.optr) closed q (λ r. record r { cptr = (closed c).optr }) z
            (λ r. refl)
          ∙ close_field (λ r. r.optr) ts o c z (λ r y. refl)

      kept_parent : (z : ℕ) → (in_parent z).parent ≡ (ts z).parent
      kept_parent z =
          write_field (λ r. r.parent) closed q (λ r. record r { cptr = (closed c).optr }) z
            (λ r. refl)
          ∙ close_field (λ r. r.parent) ts o c z (λ r y. refl)

  abbrev in_last : ℕ → ℕ → Task
  in_last y = write closed y (λ r. record r { optr = (closed c).optr })

  in_last-Left : (y : ℕ) → (ts c).yptr ≡ some y → Left ts (in_last y) q o (some y)
  in_last-Left y e = record {
    elsewhere = λ z m k. (
      kept_yptr z ∙ ap (λ r. r.yptr) (close_other ts o c z m),
      kept_optr z (λ x. k (ap some (sym x))),
      kept_parent z,
    );
    next_one = λ z k m. (
      kept_yptr z ∙ close_self ts o c z k ∙ e,
      kept_optr z (λ x. m (ap some (sym x))),
      kept_parent z,
    );
    last_one = λ z k m.
        (kept_yptr z ∙ ap (λ r. r.yptr) (close_other ts o c z m), new_optr z (cc k), kept_parent z);
    same_pid = λ z.
        write_field (λ r. r.pid) closed y (λ r. record r { optr = (closed c).optr }) z (λ r. refl)
        ∙ close_field (λ r. r.pid) ts o c z (λ r y. refl);
    first_child = λ k. cc k;
    no_first_child = λ _.
        write_field (λ r. r.cptr) closed y (λ r. record r { optr = (closed c).optr }) q (λ r. refl)
        ∙ close_field (λ r. r.cptr) ts o c q (λ r y. refl);
  }
    where
      kept_yptr : (z : ℕ) → (in_last y z).yptr ≡ (closed z).yptr
      kept_yptr z =
          write_field (λ r. r.yptr) closed y (λ r. record r { optr = (closed c).optr }) z
            (λ r. refl)

      kept_optr : (z : ℕ) → z ≢ y → (in_last y z).optr ≡ (ts z).optr
      kept_optr z k =
          ap (λ r. r.optr) (write_other closed y (λ r. record r { optr = (closed c).optr }) z k)
          ∙ close_field (λ r. r.optr) ts o c z (λ r y. refl)

      new_optr : (z : ℕ) → y ≡ z → (in_last y z).optr ≡ o
      new_optr z k =
          subst (λ x. (in_last y x).optr ≡ o) k
            (ap (λ r. r.optr) (write_self closed y (λ r. record r { optr = (closed c).optr }))
              ∙ closed_optr)

      kept_parent : (z : ℕ) → (in_last y z).parent ≡ (ts z).parent
      kept_parent z =
          write_field (λ r. r.parent) closed y (λ r. record r { optr = (closed c).optr }) z
            (λ r. refl)
          ∙ close_field (λ r. r.parent) ts o c z (λ r y. refl)

-- The writes of `leave_family`, by what the process is linked to.
leave_by :
    (ts : ℕ → Task) (c q : ℕ) (o : Option ℕ)
    → (ts c).optr ≡ o
    → o ≢ some c
    → (ts c).parent ≡ some q
    → leave_family ts c ≡ close_old (close_young ts o c) (ts c).yptr (some q) c
unfolding leave_family
leave_by ts c q o e n p =
    ap
      (λ x.
        close_old (close_young ts x c) (close_young ts x c c).yptr (close_young ts x c c).parent c)
      e
    ∙ ap (λ r. close_old (close_young ts o c) r.yptr r.parent c) (close_other ts o c c n)
    ∙ ap (λ x. close_old (close_young ts o c) (ts c).yptr x c) p

pub leave_family-Left :
    (ts : ℕ → Task) (c q : ℕ) (o y : Option ℕ)
    → (ts c).optr ≡ o
    → (ts c).yptr ≡ y
    → o ≢ some c
    → (ts c).parent ≡ some q
    → (ts' : ℕ → Task) × (leave_family ts c ≡ some ts') × Left ts ts' q o y
leave_family-Left ts c q o none eo ey n p = (
  in_parent ts c q o eo n,
  leave_by ts c q o eo n p ∙ ap (λ x. close_old (close_young ts o c) x (some q) c) ey,
  in_parent-Left ts c q o eo n ey,
)
leave_family-Left ts c q o (some y) eo ey n p = (
  in_last ts c q o eo n y,
  leave_by ts c q o eo n p ∙ ap (λ x. close_old (close_young ts o c) x (some q) c) ey,
  in_last-Left ts c q o eo n y ey,
)
