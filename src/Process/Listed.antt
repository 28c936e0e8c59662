-- ===== src/Process/Listed.antt =====
-- The table while a process is added to it or taken off it.
use mathlib.Core.Path.{subst}
use nk_os_team.Prelude.{
  ℕ, ◌+◌, ◌-◌, ◌≤◌, ◌≡◌, refl, sym, ap, ◌∙◌, ◌⊎◌, inl, inr, List, [], ◌∷◌, arith, ◌==◌, ==_iff,
  ==_of_ne, put, Bool-cases, length, without, All, Fresh, Distinct,
}
use nk_os_team.Process.{Task, pid_hashfn}
use nk_os_team.Process.Pids.{PidState}
use nk_os_team.Process.Pids.Walks.{IsPids}
use nk_os_team.Process.Pids.Unique.{Picked}
use nk_os_team.Process.Lookup.{IsListed, InRange, in_bucket, pids_of, Has, Fresh-ne}

-- Pids stay.
abbrev pub SamePid : (ts ts' : ℕ → Task) → ℕ → Type 0
SamePid ts ts' z = (ts' z).pid ≡ (ts z).pid

module _ (ts ts' : ℕ → Task) where
  pub pids_kept : (ps : List ℕ) → All (SamePid ts ts') ps → pids_of ts' ps ≡ pids_of ts ps
  pids_kept [] h = refl
  pids_kept (p ∷ ps) h = rw (h.0, pids_kept ps h.1) refl

  bucket_kept :
      (h : ℕ) (ps : List ℕ) → All (SamePid ts ts') ps → in_bucket ts' h ps ≡ in_bucket ts h ps
  bucket_kept h [] k = refl
  bucket_kept h (p ∷ ps) k = rw (k.0, bucket_kept h ps k.1) refl

  ranged_kept :
      (ps : List ℕ)
      → All (SamePid ts ts') ps
      → All (λ p. InRange (ts p).pid) ps
      → All (λ p. InRange (ts' p).pid) ps
  ranged_kept [] h r = tt
  ranged_kept (p ∷ ps) h r = (rw (h.0) (r.0), ranged_kept ps h.1 r.1)

  pub IsListed-kept :
      (ps : List ℕ) (hash : ℕ → List ℕ) (s : PidState) (n : ℕ)
      → All (SamePid ts ts') ps
      → IsListed ts ps hash s n
      → IsListed ts' ps hash s n
  IsListed-kept ps hash s n h k = record {
    next_pids = rw (pids_kept ps h) (k.next_pids);
    distinct = rw (pids_kept ps h) (k.distinct);
    ranged = ranged_kept ps h k.ranged;
    buckets = λ x. k.buckets x ∙ sym (bucket_kept x ps h);
    count = k.count;
  }

-- A process with a new pid is put first in both lists.
pub IsListed-add :
    (ts : ℕ → Task) (ps : List ℕ) (hash : ℕ → List ℕ) (s s' : PidState) (n p : ℕ)
    → (ts p).pid ≡ s'.last_pid
    → Picked s' (pids_of ts ps)
    → IsListed ts ps hash s n
    → IsListed ts
        (p ∷ ps)
        (put hash (pid_hashfn (ts p).pid) (p ∷ hash (pid_hashfn (ts p).pid)))
        s'
        (n + 1)
IsListed-add ts ps hash s s' n p e c k = record {
  next_pids = subst (λ x. IsPids s' (x ∷ pids_of ts ps)) (sym e) c.again_ready;
  distinct = (subst (λ x. Fresh x (pids_of ts ps)) (sym e) c.unused, k.distinct);
  ranged = ((omega (arith, e, c.positive), omega (arith, e, c.below_max)), k.ranged);
  buckets = λ h. by_hash h;
  count = omega (arith, k.count);
}
  where
    by_hash :
        (h : ℕ)
        → put hash (pid_hashfn (ts p).pid) (p ∷ hash (pid_hashfn (ts p).pid)) h
          ≡ in_bucket ts h (p ∷ ps)
    by_hash h = elim (Bool-cases (h == pid_hashfn (ts p).pid)) [
      | inl a ↦
          let b = (==_iff h (pid_hashfn (ts p).pid)).0 a in
          rw (a, (==_iff (pid_hashfn (ts p).pid) h).1 (sym b))
            (ap (λ xs. p ∷ xs) (ap hash (sym b) ∙ k.buckets h))
      | inr a ↦
          rw
            (
              a,
              ==_of_ne (pid_hashfn (ts p).pid) h
                  (λ b. cc (a, (==_iff h (pid_hashfn (ts p).pid)).1 (sym b))),
            )
            (k.buckets h)
    ]

module _ (ts : ℕ → Task) (p : ℕ) where
  bucket_without :
      (h : ℕ) (ps : List ℕ) → without p (in_bucket ts h ps) ≡ in_bucket ts h (without p ps)
  bucket_without h [] = refl
  bucket_without h (q ∷ ps) =
      let ih = bucket_without h ps in
      elim (Bool-cases (pid_hashfn (ts q).pid == h)) [
        | inl a ↦ elim (Bool-cases (q == p)) [
          | inl b ↦ rw (a, b) ih
          | inr b ↦ rw (a, b, a, ih) refl
        ]
        | inr a ↦ elim (Bool-cases (q == p)) [ inl b ↦ rw (a, b) ih | inr b ↦ rw (a, b, a) ih ]
      ]

  All-without {ℓ} : (P : ℕ → Type ℓ) (ps : List ℕ) → All P ps → All P (without p ps)
  All-without P [] h = tt
  All-without P (q ∷ ps) h = elim (Bool-cases (q == p)) [
    | inl b ↦ rw b (All-without P ps h.1)
    | inr b ↦ rw b (h.0, All-without P ps h.1)
  ]

  All-pids {ℓ} :
      (P : ℕ → Type ℓ) (ps : List ℕ) → All P (pids_of ts ps) → All P (pids_of ts (without p ps))
  All-pids P [] h = tt
  All-pids P (q ∷ ps) h = elim (Bool-cases (q == p)) [
    | inl b ↦ rw b (All-pids P ps h.1)
    | inr b ↦ rw b (h.0, All-pids P ps h.1)
  ]

  Fresh-pids : (x : ℕ) (ps : List ℕ) → Fresh x (pids_of ts ps) → Fresh x (pids_of ts (without p ps))
  Fresh-pids x [] h = tt
  Fresh-pids x (q ∷ ps) h = elim (Bool-cases (q == p)) [
    | inl b ↦ rw b (Fresh-pids x ps h.1)
    | inr b ↦ rw b (h.0, Fresh-pids x ps h.1)
  ]

  Distinct-pids : (ps : List ℕ) → Distinct (pids_of ts ps) → Distinct (pids_of ts (without p ps))
  Distinct-pids [] h = tt
  Distinct-pids (q ∷ ps) h = elim (Bool-cases (q == p)) [
    | inl b ↦ rw b (Distinct-pids ps h.1)
    | inr b ↦ rw b (Fresh-pids (ts q).pid ps h.0, Distinct-pids ps h.1)
  ]

  without_absent : (ps : List ℕ) → Fresh (ts p).pid (pids_of ts ps) → without p ps ≡ ps
  without_absent [] f = refl
  without_absent (q ∷ ps) f =
      rw (==_of_ne q p (λ e. f.0 (ap (λ x. (ts x).pid) (sym e))), without_absent ps f.1) refl

  length-without :
      (ps : List ℕ) → Has p ps → Distinct (pids_of ts ps) → length (without p ps) + 1 ≡ length ps
  length-without [] h d = absurd h
  length-without (q ∷ ps) (inl e) d =
      rw
        (
          (==_iff q p).1 (sym e),
          without_absent ps (subst (λ x. Fresh (ts x).pid (pids_of ts ps)) (sym e) (d.0)),
        )
        (omega arith)
  length-without (q ∷ ps) (inr h) d =
      rw (==_of_ne q p (λ e. Fresh-ne ts (ts q).pid ps p d.0 h (ap (λ x. (ts x).pid) (sym e))))
        (omega (arith, length-without ps h d.1))

  -- Nobody else has its pid.
  pub gone_Fresh :
      (ps : List ℕ)
      → Has p ps
      → Distinct (pids_of ts ps)
      → Fresh (ts p).pid (pids_of ts (without p ps))
  gone_Fresh [] h d = absurd h
  gone_Fresh (q ∷ ps) (inl e) d =
      let f = subst (λ x. Fresh (ts x).pid (pids_of ts ps)) (sym e) (d.0) in
      rw ((==_iff q p).1 (sym e), without_absent ps f) f
  gone_Fresh (q ∷ ps) (inr h) d =
      let n = Fresh-ne ts (ts q).pid ps p d.0 h in
      rw (==_of_ne q p (λ e. n (ap (λ x. (ts x).pid) (sym e)))) (n, gone_Fresh ps h d.1)

  -- A listed process leaves both lists.
  pub IsListed-remove :
      (ps : List ℕ) (hash : ℕ → List ℕ) (s : PidState) (n : ℕ)
      → Has p ps
      → IsListed ts ps hash s n
      → IsListed ts (without p ps) (λ h. without p (hash h)) s (n - 1)
  IsListed-remove ps hash s n h k = record {
    next_pids = record {
      apart = All-pids (λ x. (x ≤ s.last_pid) ⊎ (s.next_safe ≤ x)) ps k.next_pids.apart;
      low = k.next_pids.low;
      high = k.next_pids.high;
    };
    distinct = Distinct-pids ps k.distinct;
    ranged = All-without (λ x. InRange (ts x).pid) ps k.ranged;
    buckets = λ x. ap (without p) (k.buckets x) ∙ bucket_without x ps;
    count = omega (arith, k.count, length-without ps h k.distinct);
  }
