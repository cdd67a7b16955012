-- ===== src/Vectors/Tests.antt =====
-- The vector operators on two lines of three pixels, in vectors of two lanes of 8 bits.
use hipacc_vivado.Prelude.{
  ℕ, ◌+◌, ◌-◌, ◌*◌, ◌/◌, ◌%◌, ◌^◌, ◌≡◌, arith, false, done, List, [], ◌∷◌, loop,
}
use hipacc_vivado.Vectors.{
  lane, strides, vector_filter, vector_filter2, process_pixels_vect, process_pixels2_vect,
  split_stream_vect,
}
use hipacc_vivado.Vectors.Pixels.{process_pixels_vect-map, process_pixels2_vect-zip}
use hipacc_vivado.Vectors.Split.{split_stream_vect-copies}
use hipacc_vivado.Vectors.Bits.{get_bits, assign_bits, low_bits, bits-RangeLaws}
use hipacc_vivado.Vectors.Lanes.{lane_out, lane_out-vector_filter}

-- The bits `lo` to `hi` of a number, and their assignment while they are 0.
abbrev bits : ℕ → ℕ → ℕ → ℕ
bits v lo hi = v / 2 ^ lo % 2 ^ (hi + 1 - lo)

abbrev set_bits : ℕ → ℕ → ℕ → ℕ → ℕ
set_bits v lo hi b = v + b * 2 ^ lo

-- The vectors (1, 2), (3, 0), (4, 5) and (6, 0).
abbrev four : List ℕ
four = 513 ∷ 3 ∷ 1284 ∷ 6 ∷ []

process_pixels_vect-map_example :
    process_pixels_vect bits set_bits 0 16 16 2 4 2 3 3 2
      (λ x. x + 1)
      (record { in_s = four; out_s = [] })
    ≡ done (record { in_s = []; out_s = 770 ∷ 260 ∷ 1541 ∷ 263 ∷ [] })
unfolding vector_filter strides loop
process_pixels_vect-map_example =
    process_pixels_vect-map bits set_bits 0 16 16 4 2 3 2 3 2 (λ x. x + 1)
      (record { in_s = four; out_s = [] }) (omega arith)

process_pixels2_vect-zip_example :
    process_pixels2_vect bits set_bits 0 16 16 2 4 2 3 3 2
      (λ x y. x + y)
      (record { in1_s = four; in2_s = four; out_s = [] })
    ≡ done (record { in1_s = []; in2_s = []; out_s = 1026 ∷ 6 ∷ 2568 ∷ 12 ∷ [] })
unfolding vector_filter2 strides loop
process_pixels2_vect-zip_example =
    process_pixels2_vect-zip bits set_bits 0 16 16 4 2 3 2 3 2 (λ x y. x + y)
      (record { in1_s = four; in2_s = four; out_s = [] }) (omega arith)

split_stream_vect-copies_example :
    split_stream_vect 4 2 3 2 3 2
      (λ x. x)
      (λ x. x)
      (record { in_s = four; out1_s = []; out2_s = [] })
    ≡ done (record { in_s = []; out1_s = four; out2_s = four })
unfolding strides
split_stream_vect-copies_example =
    split_stream_vect-copies 4 2 3 2 3 2 (λ x. x) (λ x. x)
      (record { in_s = four; out1_s = []; out2_s = [] }) (omega arith)

-- The lanes of 513 are 1 and 2.
lane_out-vector_filter_example :
    lane_out low_bits bits get_bits
      (assign_bits 16)
      (λ k. false)
      16
      16
      2
      (vector_filter bits (assign_bits 16) (λ k. false) 16 16 2 (λ x. x + 1) 513)
      1
    ≡ 3
unfolding lane
lane_out-vector_filter_example =
    lane_out-vector_filter low_bits bits get_bits (assign_bits 16) (λ k. false) 16 16 2 (λ x. x + 1)
      (bits-RangeLaws 16) (omega arith) 513 1 (omega arith)
