-- ===== src/Buffers/Tests.antt =====
-- A buffer of 10 bytes, and the theorem at it.
use nk_os_team.Prelude.{ℕ, ◌≡◌, inl, false, some, arith}
use nk_os_team.File.{Iobuf, iobuf_init, ok}
use nk_os_team.Buffers.{skipped, iobuf_move}
use nk_os_team.Buffers.Moves.{move_twice}

move_twice_example :
    (m₁ : ℕ → ℕ) × (m₂ : ℕ → ℕ) × (m₃ : ℕ → ℕ) × (b : Iobuf) × (iobuf_move
        (λ a. a)
        (iobuf_init 100 10 0)
        50
        3
        false
      ≡ some ((m₁, b, 3), ok 0))
    × (iobuf_move m₁ b 53 4 false ≡ some ((m₂, skipped (iobuf_init 100 10 0) 7, 4), ok 0))
    × (iobuf_move (λ a. a) (iobuf_init 100 10 0) 50 7 false
        ≡ some ((m₃, skipped (iobuf_init 100 10 0) 7, 7), ok 0))
    × ((j : ℕ) → m₂ j ≡ m₃ j)
move_twice_example =
    move_twice (λ a. a) (iobuf_init 100 10 0) 50 3 4 (omega arith) (omega arith) (omega arith)
      (omega arith) (inl (omega arith))
