-- ===== src/Points/Tests.antt =====
-- The point operators on an image of 2 by 2 pixels.
use hipacc_vivado.Prelude.{ℕ, ◌+◌, ◌≡◌, done, List, [], ◌∷◌}
use hipacc_vivado.Points.{process_pixels, process_pixels2, split_stream}
use hipacc_vivado.Points.Pixels.{process_pixels-map, process_pixels2-zip}
use hipacc_vivado.Points.Split.{split_stream-copies}

abbrev four : List ℕ
four = 1 ∷ 2 ∷ 3 ∷ 4 ∷ []

process_pixels-map_example :
    process_pixels 4 4 3 2 2 (λ x. x + 10) (record { in_s = 1 ∷ 2 ∷ 3 ∷ 4 ∷ 5 ∷ []; out_s = [] })
    ≡ done (record { in_s = 5 ∷ []; out_s = 11 ∷ 12 ∷ 13 ∷ 14 ∷ [] })
process_pixels-map_example =
    process_pixels-map 4 4 3 2 2 (λ x. x + 10)
      (record { in_s = 1 ∷ 2 ∷ 3 ∷ 4 ∷ 5 ∷ []; out_s = [] })

process_pixels2-zip_example :
    process_pixels2 4 4 3 2 2 (λ x y. x + y) (record { in1_s = four; in2_s = four; out_s = [] })
    ≡ done (record { in1_s = []; in2_s = []; out_s = 2 ∷ 4 ∷ 6 ∷ 8 ∷ [] })
process_pixels2-zip_example =
    process_pixels2-zip 4 4 3 2 2 (λ x y. x + y) (record { in1_s = four; in2_s = four; out_s = [] })

split_stream-copies_example :
    split_stream 4 4 3 2 2 (λ x. x) (λ x. x + 1) (record { in_s = four; out1_s = []; out2_s = [] })
    ≡ done (record { in_s = []; out1_s = four; out2_s = 2 ∷ 3 ∷ 4 ∷ 5 ∷ [] })
split_stream-copies_example =
    split_stream-copies 4 4 3 2 2 (λ x. x) (λ x. x + 1)
      (record { in_s = four; out1_s = []; out2_s = [] })
