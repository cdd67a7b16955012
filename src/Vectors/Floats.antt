-- ===== src/Vectors/Floats.antt =====
-- runtime/hipacc_vivado_filter.hpp, `processPixelsVECTF`, `processPixels2VECTF`, `processPixels3VECTF`: their
-- outcomes.
use hipacc_vivado.Prelude.{
  ℕ, ◌<◌, ◌≡◌, ◌∙◌, ap, leb, ◌&&◌, if◌then◌else◌, done, blocked, ◌++◌, map, length, take, drop,
  zip_with, zip_with3,
}
use hipacc_vivado.Local.{Streams}
use hipacc_vivado.Points.{Streams2, Streams3, pixel_step, pixel_step2, pixel_step3}
use hipacc_vivado.Points.Pixels.{within, pixel_rounds, pixel_rounds2, pixel_rounds3}
use hipacc_vivado.Vectors.{
  vector_filter, vector_filter2, vector_filter3, process_pixels_vectf, process_pixels2_vectf,
  process_pixels3_vectf,
}
use hipacc_vivado.Vectors.Loop.{vector_operator-within}
use hipacc_vivado.Vectors.Pixels.{vectors}

module _ {V U A B : Type 0} (range : V → ℕ → ℕ → A) (set_range : U → ℕ → ℕ → B → U) (uninit : U)
    (bw_in bw_out max_width max_height kx vect width height : ℕ) where
  -- For a positive vector size, `processPixelsVECTF` in every case: it aborts if the image
  -- exceeds the maximal size, blocks if the stream delivers fewer vectors than the image has,
  -- and else writes for each vector, in order, the vector that the filter, by way of the
  -- conversions `i2f` and `f2i` makes of it, and leaves the rest of the input.
  pub process_pixels_vectf-map :
      {F : Type 0} (i2f : A → F) (f2i : F → B) (filter : F → F) (s : Streams V U)
      → 0 < vect
      → process_pixels_vectf range set_range uninit bw_in bw_out vect max_width max_height kx width
          height i2f f2i filter s
        ≡ within max_width max_height width height (
            if leb (vectors vect width height) (length s.in_s)
            then done (record {
              in_s = drop (vectors vect width height) s.in_s;
              out_s =
                  s.out_s
                  ++ map
                      (vector_filter range set_range uninit bw_in bw_out vect
                        (λ x. f2i (filter (i2f x))))
                      (take (vectors vect width height) s.in_s);
            })
            else blocked)
  unfolding process_pixels_vectf
  process_pixels_vectf-map i2f f2i filter s pos =
      vector_operator-within
        (pixel_step
          (vector_filter range set_range uninit bw_in bw_out vect (λ x. f2i (filter (i2f x)))))
        max_width max_height kx vect width height s pos
      ∙ ap (within max_width max_height width height) (
          pixel_rounds
            (vector_filter range set_range uninit bw_in bw_out vect (λ x. f2i (filter (i2f x))))
            (vectors vect width height) s.in_s s.out_s)

  -- For a positive vector size, `processPixels2VECTF` in every case: it aborts if the image
  -- exceeds the maximal size, blocks if one of the streams delivers fewer vectors than the
  -- image has, and else writes for each pair of vectors, in order, the vector that the filter,
  -- by way of the conversions `i2f` and `f2i` makes of it, and leaves the rest of the input.
  pub process_pixels2_vectf-zip :
      {F : Type 0} (i2f : A → F) (f2i : F → B) (filter : F → F → F) (s : Streams2 V U)
      → 0 < vect
      → process_pixels2_vectf range set_range uninit bw_in bw_out vect max_width max_height kx width
          height i2f f2i filter s
        ≡ within max_width max_height width height (
            if leb (vectors vect width height) (length s.in1_s)
              && leb (vectors vect width height) (length s.in2_s)
            then done (record {
              in1_s = drop (vectors vect width height) s.in1_s;
              in2_s = drop (vectors vect width height) s.in2_s;
              out_s =
                  s.out_s
                  ++ zip_with
                      (vector_filter2 range set_range uninit bw_in bw_out vect
                        (λ x y. f2i (filter (i2f x) (i2f y))))
                      (take (vectors vect width height) s.in1_s)
                      (take (vectors vect width height) s.in2_s);
            })
            else blocked)
  unfolding process_pixels2_vectf
  process_pixels2_vectf-zip i2f f2i filter s pos =
      vector_operator-within
        (pixel_step2 (
          vector_filter2 range set_range uninit bw_in bw_out vect
            (λ x y. f2i (filter (i2f x) (i2f y)))))
        max_width max_height kx vect width height s pos
      ∙ ap (within max_width max_height width height) (
          pixel_rounds2
            (vector_filter2 range set_range uninit bw_in bw_out vect
              (λ x y. f2i (filter (i2f x) (i2f y))))
            (vectors vect width height) s.in1_s s.in2_s s.out_s)

  -- For a positive vector size, `processPixels3VECTF` in every case: it aborts if the image
  -- exceeds the maximal size, blocks if one of the three streams delivers fewer vectors than
  -- the image has, and else writes for each triple of vectors, in order, the vector that the
  -- filter, by way of the conversions `i2f` and `f2i` makes of it, and leaves the rest of the
  -- input.
  pub process_pixels3_vectf-zip :
      {F : Type 0} (i2f : A → F) (f2i : F → B) (filter : F → F → F → F) (s : Streams3 V U)
      → 0 < vect
      → process_pixels3_vectf range set_range uninit bw_in bw_out vect max_width max_height kx width
          height i2f f2i filter s
        ≡ within max_width max_height width height (
            if leb (vectors vect width height) (length s.in1_s)
              && (leb (vectors vect width height) (length s.in2_s)
                  && leb (vectors vect width height) (length s.in3_s))
            then done (record {
              in1_s = drop (vectors vect width height) s.in1_s;
              in2_s = drop (vectors vect width height) s.in2_s;
              in3_s = drop (vectors vect width height) s.in3_s;
              out_s =
                  s.out_s
                  ++ zip_with3
                      (vector_filter3 range set_range uninit bw_in bw_out vect
                        (λ x y z. f2i (filter (i2f x) (i2f y) (i2f z))))
                      (take (vectors vect width height) s.in1_s)
                      (take (vectors vect width height) s.in2_s)
                      (take (vectors vect width height) s.in3_s);
            })
            else blocked)
  unfolding process_pixels3_vectf
  process_pixels3_vectf-zip i2f f2i filter s pos =
      vector_operator-within
        (pixel_step3 (
          vector_filter3 range set_range uninit bw_in bw_out vect
            (λ x y z. f2i (filter (i2f x) (i2f y) (i2f z)))))
        max_width max_height kx vect width height s pos
      ∙ ap (within max_width max_height width height) (
          pixel_rounds3
            (vector_filter3 range set_range uninit bw_in bw_out vect
              (λ x y z. f2i (filter (i2f x) (i2f y) (i2f z))))
            (vectors vect width height) s.in1_s s.in2_s s.in3_s s.out_s)
