-- ===== src/Process/Pids.antt =====
-- `get_pid`: `last_pid` and `next_safe`, and the loop over the pids of `proc_list`, in its order.
pub mod Free
pub mod Walks
pub mod Unique
use nk_os_team.Prelude.{
  ℕ, zero, suc, ◌+◌, ◌*◌, ◌&&◌, Option, none, some, List, [], ◌∷◌, ltb, leb, ◌==◌, if◌then◌else◌,
}

abbrev pub max_process : ℕ
max_process = 4096

abbrev pub max_pid : ℕ
max_pid = max_process * 2

-- The two static variables.
pub record PidState : Type 0 where
  pub next_safe : ℕ
  pub last_pid : ℕ

-- How a walk along the list ends: at its end, or with `goto repeat`.
pub data Walk : Type 0 where
  done again : PidState → Walk

-- `last_pid` is in use and the next one may be too.
abbrev pub start_over : (last : ℕ) → PidState
start_over last = record { next_safe = max_pid; last_pid = if leb max_pid last then 1 else last }

-- `next_safe` is lowered to a pid that is still to come.
abbrev pub lower : PidState → ℕ → PidState
lower s p = if ltb s.last_pid p && ltb p s.next_safe then record s { next_safe = p } else s

unfoldable pub walk : PidState → List ℕ → Walk
walk s [] = done s
walk s (p ∷ ps) =
    let next = walk (record s { last_pid = s.last_pid + 1 }) ps in
    let rest = walk (lower s p) ps in
    if p == s.last_pid
    then (if leb s.next_safe (s.last_pid + 1) then again (start_over (s.last_pid + 1)) else next)
    else rest

unfoldable pub search : ℕ → PidState → List ℕ → Option PidState
search zero s ps = none
search (suc fuel) s ps = elim (walk s ps) [ done s' ↦ some s' | again s' ↦ search fuel s' ps ]

-- The pid is the new `last_pid`.
unfoldable pub get_pid : ℕ → PidState → List ℕ → Option PidState
get_pid fuel s ps =
    let last = s.last_pid + 1 in
    if leb max_pid last
    then search fuel (record { next_safe = max_pid; last_pid = 1 }) ps
    else if leb s.next_safe last
    then search fuel (record { next_safe = max_pid; last_pid = last }) ps
    else some (record s { last_pid = last })
