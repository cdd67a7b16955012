-- ===== src/Window/Tests.antt =====
-- The first step of a scan of 3 by 3 pixels.
use hipacc_vivado.Prelude.{ℕ, ◌+◌, ◌*◌, ◌<◌, ◌≡◌, refl, arith, done}
use hipacc_vivado.Border.{border_clamp}
use hipacc_vivado.Border.Tests.{clamp_allowed}
use hipacc_vivado.Window.{Buffers, refresh}
use hipacc_vivado.Window.Contents.{Holds, Holds-start, padded, refresh_lem}

abbrev picture : ℕ → ℕ → ℕ
picture y x = y * 3 + x

-- The first pixel has been read, and the arrays hold something.
abbrev begun : Buffers ℕ
begun = record { line_buff = λ a b. 7; win = λ a b. 7; win_tmp = λ a b. 7; in_pixel = 0 }

refresh_lem_example :
    (t : Buffers ℕ) × (refresh 3 3 3 3 border_clamp 0 0 begun ≡ done t)
    × Holds picture 1 1 3 3 0 1 t
    × (t.in_pixel ≡ 0)
    × ((y x i j : ℕ)
        → 0 ≡ y + 1
        → 0 ≡ x + 1
        → i < 3
        → j < 3
        → t.win i j ≡ padded picture 1 1 3 3 border_clamp y x i j)
refresh_lem_example =
    refresh_lem picture 1 1 3 3 border_clamp clamp_allowed (omega arith) (omega arith) 0 0 begun
      (omega arith) (omega arith) (λ y x. refl) (Holds-start picture 1 1 3 3 begun)
