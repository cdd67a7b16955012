-- ===== src/Parts/Tests.antt =====
-- The operators over one part, on a part that arrives with 3 lines of 3 pixels.
use hipacc_vivado.Prelude.{ℕ, ◌≡◌, arith, done, [], ◌∷◌}
use hipacc_vivado.Prelude.Int.{◌-ℤ◌, ◌+ℤ◌}
use hipacc_vivado.Border.{border_clamp, border_mirror_101}
use hipacc_vivado.Border.Source.{source_index}
use hipacc_vivado.Border.Coords.{reflect}
use hipacc_vivado.Border.Tests.{clamp_allowed, mirror_101_allowed}
use hipacc_vivado.Window.{Buffers}
use hipacc_vivado.Local.Tests.{picture, picture_list, box, empty}
use hipacc_vivado.Parts.{process_l, process_c, process_r}
use hipacc_vivado.Parts.Left.Image.{process_l-raster}
use hipacc_vivado.Parts.Inner.Image.{process_c-raster}
use hipacc_vivado.Parts.Right.Image.{process_r-raster}

-- The values 30 and 27 of the last line are not those of its pixels.
process_l-raster_example :
    (b' : Buffers ℕ) × (process_l 2 3 3 2 3 box border_clamp
        (empty, record { in_s = picture_list; out_s = [] })
      ≡ done (b', record { in_s = []; out_s = 12 ∷ 18 ∷ 30 ∷ 36 ∷ 30 ∷ 27 ∷ [] }))
unfolding source_index reflect ◌-ℤ◌
process_l-raster_example =
    process_l-raster picture 2 3 1 2 3 box border_clamp [] [] empty clamp_allowed (omega arith)
      (omega arith) (omega arith) (omega arith)

-- The value 27 of the last line is not that of its pixel, 54.
process_c-raster_example :
    (b' : Buffers ℕ) × (process_c 1 3 3 1 3 box border_clamp
        (empty, record { in_s = picture_list; out_s = [] })
      ≡ done (b', record { in_s = []; out_s = 18 ∷ 36 ∷ 27 ∷ [] }))
unfolding source_index reflect ◌-ℤ◌
process_c-raster_example =
    process_c-raster picture 1 3 1 1 3 box border_clamp [] [] empty clamp_allowed (omega arith)
      (omega arith) (omega arith) (omega arith)

-- Lines are mirrored and the last column is repeated.
process_r-raster_example :
    (b' : Buffers ℕ) × (process_r 2 3 3 2 3 box border_mirror_101
        (empty, record { in_s = picture_list; out_s = 5 ∷ [] })
      ≡ done (b', record { in_s = []; out_s = 5 ∷ 27 ∷ 33 ∷ 36 ∷ 42 ∷ 45 ∷ 51 ∷ [] }))
unfolding source_index reflect ◌-ℤ◌ ◌+ℤ◌
process_r-raster_example =
    process_r-raster picture 2 3 1 2 3 box border_mirror_101 [] (5 ∷ []) empty mirror_101_allowed
      (omega arith) (omega arith) (omega arith) (omega arith)
