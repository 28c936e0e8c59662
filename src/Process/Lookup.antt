-- ===== src/Process/Lookup.antt =====
-- The table of processes: `find_proc` finds in the hash lists what is in `proc_list`.
use mathlib.Core.Path.{subst}
use nk_os_team.Prelude.{
  ℕ, ◌+◌, ◌<◌, ◌≡◌, refl, sym, ap, ◌∙◌, ◌≢◌, ◌↔◌, ◌⊎◌, inl, inr, Bool, true, false, ◌&&◌, none,
  some, List, [], ◌∷◌, map, arith, ltb, ◌==◌, if◌then◌else◌, ==_iff, ==_of_ne, Bool-cases,
  Option-cases, length, All, Fresh, Distinct,
}
use nk_os_team.Process.Pids.{PidState, max_pid}
use nk_os_team.Process.Pids.Walks.{IsPids}
use nk_os_team.Process.{Task, Table, find_proc, find_pid, pid_hashfn}

-- The processes of a list with one hash.
abbrev pub in_bucket : (ℕ → Task) → ℕ → List ℕ → List ℕ
in_bucket ts h [] = []
in_bucket ts h (p ∷ ps) =
    let rest = in_bucket ts h ps in if pid_hashfn (ts p).pid == h then p ∷ rest else rest

abbrev pub pids_of : (ℕ → Task) → List ℕ → List ℕ
pids_of ts ps = map (λ z. (ts z).pid) ps

abbrev pub InRange : ℕ → Type 0
InRange pid = (0 < pid) × (pid < max_pid)

-- What a table is between calls: pids are in range and differ, each hash list has the processes of
-- its hash, in the order of `proc_list`, and `idleproc` is counted but not listed.
pub record IsListed (ts : ℕ → Task) (ps : List ℕ) (hash : ℕ → List ℕ) (s : PidState) (n : ℕ)
    : Type 0 where
  pub next_pids : IsPids s (pids_of ts ps)
  pub distinct : Distinct (pids_of ts ps)
  pub ranged : All (λ p. InRange (ts p).pid) ps
  pub buckets : (h : ℕ) → hash h ≡ in_bucket ts h ps
  pub count : n ≡ length ps + 1

abbrev pub IsTable : Table → Type 0
IsTable t = IsListed t.tasks t.proc_list t.hash_list t.pids t.nr_process

abbrev pub Has : ℕ → List ℕ → Type 0
Has p [] = ⊥
Has p (q ∷ qs) = (p ≡ q) ⊎ Has p qs

module _ (ts : ℕ → Task) (pid : ℕ) where
  find_pid-in_bucket :
      (ps : List ℕ) → find_pid ts pid (in_bucket ts (pid_hashfn pid) ps) ≡ find_pid ts pid ps
  unfolding find_pid
  find_pid-in_bucket [] = refl
  find_pid-in_bucket (p ∷ ps) =
      let ih = find_pid-in_bucket ps in
      elim (Bool-cases (pid_hashfn (ts p).pid == pid_hashfn pid)) [
        | inl e ↦ rw (e, ih) refl
        | inr e ↦ rw (e, differs p e) ih
      ]
    where
      differs :
          (p : ℕ) → (pid_hashfn (ts p).pid == pid_hashfn pid) ≡ false → ((ts p).pid == pid) ≡ false
      differs p e = ==_of_ne (ts p).pid pid (λ k.
          elim (Bool-cases (pid_hashfn pid == pid_hashfn pid)) [
            | inl a ↦ cc (a, e, ap (λ x. pid_hashfn x == pid_hashfn pid) k)
            | inr a ↦ cc (a, (==_iff (pid_hashfn pid) (pid_hashfn pid)).1 refl)
          ])

  find_pid-none :
      (ps : List ℕ) → ¬ InRange pid → All (λ p. InRange (ts p).pid) ps → find_pid ts pid ps ≡ none
  unfolding find_pid
  find_pid-none [] n a = refl
  find_pid-none (p ∷ ps) n a =
      rw
        (
          ==_of_ne (ts p).pid pid (λ e. n (omega (arith, e, a.0.0), omega (arith, e, a.0.1))),
          find_pid-none ps n a.1,
        )
        refl

  find_pid-Has : (ps : List ℕ) (p : ℕ) → find_pid ts pid ps ≡ some p → Has p ps × ((ts p).pid ≡ pid)
  unfolding find_pid
  find_pid-Has [] p e = cc e
  find_pid-Has (q ∷ ps) p e = by_test ((ts q).pid == pid) refl e (find_pid-Has ps p)
    where
      by_test :
          (b : Bool)
          → ((ts q).pid == pid) ≡ b
          → (if b then some q else find_pid ts pid ps) ≡ some p
          → (find_pid ts pid ps ≡ some p → Has p ps × ((ts p).pid ≡ pid))
          → Has p (q ∷ ps) × ((ts p).pid ≡ pid)
      by_test true k e ih =
          let e' : q ≡ p = cc e in
          (inl (sym e'), ap (λ x. (ts x).pid) (sym e') ∙ (==_iff (ts q).pid pid).0 k)
      by_test false k e ih = let r = ih e in (inr r.0, r.1)

  -- A pid that is not among those of the list differs from that of each process.
  pub Fresh-ne : (ps : List ℕ) (p : ℕ) → Fresh pid (pids_of ts ps) → Has p ps → (ts p).pid ≢ pid
  Fresh-ne [] p f h e = absurd h
  Fresh-ne (q ∷ ps) p f (inl k) e = f.0 (sym e ∙ ap (λ x. (ts x).pid) k)
  Fresh-ne (q ∷ ps) p f (inr k) e = Fresh-ne ps p f.1 k e

-- A listed process is found by its pid, as no other has it.
find_pid_self :
    (ts : ℕ → Task) (ps : List ℕ) (p : ℕ)
    → Distinct (pids_of ts ps)
    → Has p ps
    → find_pid ts (ts p).pid ps ≡ some p
unfolding find_pid
find_pid_self ts [] p d h = absurd h
find_pid_self ts (q ∷ ps) p d (inl e) =
    rw ((==_iff (ts q).pid (ts p).pid).1 (ap (λ x. (ts x).pid) (sym e))) (ap some (sym e))
find_pid_self ts (q ∷ ps) p d (inr h) =
    rw (==_of_ne (ts q).pid (ts p).pid (λ e. Fresh-ne ts (ts q).pid ps p d.0 h (sym e)))
      (find_pid_self ts ps p d.1 h)

find_proc-find_pid :
    (t : Table) (pid : ℕ) → IsTable t → find_proc t pid ≡ find_pid t.tasks pid t.proc_list
unfolding find_proc
find_proc-find_pid t pid k = elim (Bool-cases (ltb 0 pid && ltb pid max_pid)) [
  | inl e ↦ rw e (
      ap (find_pid t.tasks pid) (k.buckets (pid_hashfn pid))
      ∙ find_pid-in_bucket t.tasks pid t.proc_list)
  | inr e ↦
      rw e (sym (find_pid-none t.tasks pid t.proc_list (λ r. ground (arith, r.0, r.1, e)) k.ranged))
]

-- `find_proc` finds a process exactly if it is in `proc_list` and has the pid.
pub find_proc_iff :
    (t : Table) (pid p : ℕ)
    → IsTable t
    → (find_proc t pid ≡ some p) ↔ (Has p t.proc_list × ((t.tasks p).pid ≡ pid))
find_proc_iff t pid p k = (
  λ e. find_pid-Has t.tasks pid t.proc_list p (sym (find_proc-find_pid t pid k) ∙ e),
  λ h.
      find_proc-find_pid t pid k
      ∙ subst (λ x. find_pid t.tasks x t.proc_list ≡ some p) h.1
          (find_pid_self t.tasks t.proc_list p k.distinct h.0),
)

-- A pid that no process has is not found.
pub find_proc-none :
    (t : Table) (pid : ℕ)
    → IsTable t
    → Fresh pid (pids_of t.tasks t.proc_list)
    → find_proc t pid ≡ none
find_proc-none t pid k f = elim (Option-cases (find_proc t pid)) [
  | inl e ↦ e
  | inr e ↦
      let r = (find_proc_iff t pid e.0 k).0 e.1 in
      absurd (Fresh-ne t.tasks pid t.proc_list e.0 f r.0 r.1)
]
