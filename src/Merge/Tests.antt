-- ===== src/Merge/Tests.antt =====
-- `processMISO` on two images of 3 by 3 pixels.
use hipacc_vivado.Prelude.{ℕ, ◌+◌, ◌≡◌, arith, done, [], ◌∷◌}
use hipacc_vivado.Prelude.Int.{◌-ℤ◌}
use hipacc_vivado.Border.{border_clamp}
use hipacc_vivado.Border.Source.{source_index}
use hipacc_vivado.Border.Coords.{reflect}
use hipacc_vivado.Border.Tests.{clamp_allowed}
use hipacc_vivado.Local.Tests.{picture, picture_list, box, empty}
use hipacc_vivado.Merge.{Merging, process_miso}
use hipacc_vivado.Merge.Images.{process_miso-raster}

abbrev two_images : Merging ℕ ℕ
two_images = record {
  buffers1 = empty;
  buffers2 = empty;
  streams = record { in1_s = picture_list; in2_s = picture_list; out_s = [] };
}

process_miso-raster_example :
    (t : Merging ℕ ℕ) × (process_miso 3 3 3 3 (λ v w. box v + box w) 3 3 border_clamp two_images
      ≡ done t)
    × (t.streams ≡ record {
      in1_s = [];
      in2_s = [];
      out_s = 24 ∷ 36 ∷ 48 ∷ 60 ∷ 72 ∷ 84 ∷ 96 ∷ 108 ∷ 120 ∷ [];
    })
unfolding source_index reflect ◌-ℤ◌
process_miso-raster_example =
    process_miso-raster picture picture 1 1 3 3 (λ v w. box v + box w) border_clamp [] [] [] empty
      empty clamp_allowed (omega arith) (omega arith)
