-- ===== src/Local/Tests.antt =====
-- The local operators on an image of 3 by 3 pixels.
use hipacc_vivado.Prelude.{ℕ, ◌+◌, ◌*◌, ◌≡◌, ◌≢◌, arith, done, List, [], ◌∷◌}
use hipacc_vivado.Border.{border_const, border_clamp}
use hipacc_vivado.Prelude.Int.{◌-ℤ◌}
use hipacc_vivado.Border.Source.{source_index}
use hipacc_vivado.Border.Coords.{reflect}
use hipacc_vivado.Border.Tests.{clamp_allowed}
use hipacc_vivado.Window.{Buffers}
use hipacc_vivado.Local.{process, process_simo}
use hipacc_vivado.Local.Process.{process-raster}
use hipacc_vivado.Local.Simo.{process_simo-raster}
use hipacc_vivado.Local.Const.{process_never}

abbrev pub picture : ℕ → ℕ → ℕ
picture y x = y * 3 + x

abbrev pub picture_list : List ℕ
picture_list = 0 ∷ 1 ∷ 2 ∷ 3 ∷ 4 ∷ 5 ∷ 6 ∷ 7 ∷ 8 ∷ []

abbrev sum : List ℕ → ℕ
sum [] = 0
sum (x ∷ xs) = x + sum xs

-- The sum of the window.
abbrev pub box : List (List ℕ) → ℕ
box [] = 0
box (line ∷ lines) = sum line + box lines

abbrev pub empty : Buffers ℕ
empty = record { line_buff = λ a b. 7; win = λ a b. 7; win_tmp = λ a b. 7; in_pixel = 7 }

process-raster_example :
    (b' : Buffers ℕ) × (process 3 3 3 3 3 3 box border_clamp
        (empty, record { in_s = 0 ∷ 1 ∷ 2 ∷ 3 ∷ 4 ∷ 5 ∷ 6 ∷ 7 ∷ 8 ∷ 99 ∷ []; out_s = [] })
      ≡ done
          (b', record { in_s = 99 ∷ []; out_s = 12 ∷ 18 ∷ 24 ∷ 30 ∷ 36 ∷ 42 ∷ 48 ∷ 54 ∷ 60 ∷ [] }))
unfolding source_index reflect ◌-ℤ◌
process-raster_example =
    process-raster picture 1 1 3 3 box border_clamp (99 ∷ []) [] empty clamp_allowed (omega arith)
      (omega arith)

process_simo-raster_example :
    (b' : Buffers ℕ) × (process_simo 3 3 3 3 3 3 box border_clamp
        (empty, record { in_s = picture_list; out1_s = []; out2_s = 5 ∷ [] })
      ≡ done (
        b',
        record {
          in_s = [];
          out1_s = 12 ∷ 18 ∷ 24 ∷ 30 ∷ 36 ∷ 42 ∷ 48 ∷ 54 ∷ 60 ∷ [];
          out2_s = 5 ∷ 12 ∷ 18 ∷ 24 ∷ 30 ∷ 36 ∷ 42 ∷ 48 ∷ 54 ∷ 60 ∷ [];
        },
      ))
unfolding source_index reflect ◌-ℤ◌
process_simo-raster_example =
    process_simo-raster picture 1 1 3 3 box border_clamp [] [] (5 ∷ []) empty clamp_allowed
      (omega arith) (omega arith)

process_never_example :
    process 3 3 3 3 3 3 box border_const (empty, record { in_s = picture_list; out_s = [] })
    ≢ done (empty, record { in_s = []; out_s = picture_list })
process_never_example =
    process_never 3 3 1 1 3 3 box (omega arith) (omega arith) (omega arith)
      (empty, record { in_s = picture_list; out_s = [] })
      (empty, record { in_s = []; out_s = picture_list })
