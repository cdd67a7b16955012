-- ===== src/Pyramid/Tests.antt =====
-- The pyramid operators on an image of 3 by 3 pixels, with factor 2.
use hipacc_vivado.Prelude.{ℕ, ◌+◌, ◌-◌, ◌*◌, ◌/◌, ◌%◌, ◌^◌, ◌≡◌, arith, done, [], ◌∷◌}
use hipacc_vivado.Prelude.Int.{◌-ℤ◌}
use hipacc_vivado.Border.{border_clamp}
use hipacc_vivado.Border.Source.{source_index}
use hipacc_vivado.Border.Coords.{reflect}
use hipacc_vivado.Border.Tests.{clamp_allowed}
use hipacc_vivado.Window.{Buffers}
use hipacc_vivado.Local.Tests.{picture, picture_list, box, empty}
use hipacc_vivado.Pyramid.{downsample, upsample}
use hipacc_vivado.Pyramid.Down.{downsample-raster}
use hipacc_vivado.Pyramid.Up.{upsample-raster}
use hipacc_vivado.Pyramid.Vector.{Doubling, upsample_vect}
use hipacc_vivado.Pyramid.Doubled.{upsample_vect-latest}

downsample-raster_example :
    (b' : Buffers ℕ) × (downsample 3 3 3 3 3 2 box border_clamp
        (empty, record { in_s = picture_list; out_s = [] })
      ≡ done (b', record { in_s = []; out_s = 12 ∷ 24 ∷ 48 ∷ 60 ∷ [] }))
unfolding source_index reflect ◌-ℤ◌
downsample-raster_example =
    downsample-raster picture 1 3 3 2 box border_clamp [] [] empty (omega arith) clamp_allowed
      (omega arith) (omega arith)

upsample-raster_example :
    (b' : Buffers ℕ) × (upsample 3 3 3 3 3 2 0
        (λ win col row. box win + col)
        border_clamp
        (empty, record { in_s = 4 ∷ 6 ∷ []; out_s = [] })
      ≡ done (b', record { in_s = 6 ∷ []; out_s = 5 ∷ 6 ∷ 7 ∷ 5 ∷ 6 ∷ 7 ∷ 5 ∷ 6 ∷ 7 ∷ [] }))
unfolding source_index reflect ◌-ℤ◌
upsample-raster_example =
    upsample-raster picture 0 1 3 3 2 (λ win col row. box win + col) border_clamp (6 ∷ []) [] empty
      (omega arith) clamp_allowed (omega arith) (omega arith)

-- Two lines of three vectors, of which two arrive. The output is 8 bits wide.
upsample_vect-latest_example :
    (s : Doubling ℕ ℕ) × (upsample_vect
        (λ v. v % 256)
        (λ v lo hi. v / 2 ^ lo % 2 ^ (hi + 1 - lo))
        (λ v lo hi x. v + x * 2 ^ lo)
        0
        8
        2
        3
        2
        3
        3
        2
        (record {
          in_pixel = 7;
          out_pixel = 7;
          streams = record { in_s = 256 ∷ 257 ∷ []; out_s = [] };
        })
      ≡ done s)
    × (s.streams ≡ record { in_s = []; out_s = 0 ∷ 0 ∷ 1 ∷ 1 ∷ 1 ∷ 1 ∷ [] })
upsample_vect-latest_example =
    upsample_vect-latest (λ v. v % 256) (λ v lo hi. v / 2 ^ lo % 2 ^ (hi + 1 - lo))
      (λ v lo hi x. v + x * 2 ^ lo) 0 8 2 3 3 2 (λ y x. 256 + x) [] [] 7 7 (omega arith)
