-- ===== src/Bytes/Tests.antt =====
-- Bytes in memory, and the theorems at it.
use nk_os_team.Prelude.{ℕ, ◌+◌, ◌-◌, ◌≡◌, ◌&&◌, ltb, leb, if◌then◌else◌}
use nk_os_team.Bytes.{memmove}
use nk_os_team.Bytes.Move.{memmove_lem}

-- The bytes 5, 6, 7 and 0 at addresses 2 to 5.
abbrev memory : ℕ → ℕ
memory j = if leb 2 j && ltb j 5 then j + 3 else 0

memmove_lem_example :
    memmove memory 3 2 3 4 ≡ (if leb 3 4 && ltb 4 (3 + 3) then memory (2 + (4 - 3)) else memory 4)
memmove_lem_example = memmove_lem memory 3 2 3 4
