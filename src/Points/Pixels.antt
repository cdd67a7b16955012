-- ===== src/Points/Pixels.antt =====
-- runtime/hipacc_vivado_filter.hpp, `processPixels` to `processPixels3`: their outcomes.
use hipacc_vivado.Prelude.{
  ℕ, zero, suc, ◌*◌, ◌≡◌, ◌∙◌, ap, arith, leb, le→leb, lt→leb, leb-suc, &&-false, ◌&&◌,
  if◌then◌else◌, Bool-cases, inl, inr, Outcome, done, blocked, aborted, List, [], ◌∷◌, ◌++◌, map,
  append_assoc, append-nil, length, take, drop, zip_with, zip_with3,
}
use hipacc_vivado.Local.{Streams}
use hipacc_vivado.Points.{
  Streams2, Streams3, pixel_step, pixel_step2, pixel_step3, point_operator, process_pixels,
  process_pixels2, process_pixels3,
}
use hipacc_vivado.Points.Rounds.{rounds, point_operator-rounds, point_operator-aborted}

module _ {A B : Type 0} where
  -- `n` pixels: all of them if the stream delivers so many, and a blocked read otherwise.
  pub pixel_rounds :
      (filter : A → B) (n : ℕ) (ins : List A) (outs : List B)
      → rounds n (pixel_step filter) (record { in_s = ins; out_s = outs }) ≡ (
          if leb n (length ins)
          then done (record { in_s = drop n ins; out_s = outs ++ map filter (take n ins) })
          else blocked)
  unfolding pixel_step rounds
  pixel_rounds filter zero ins outs = rw (le→leb 0 (length ins) (omega arith), append-nil)
  pixel_rounds filter (suc n) [] outs = rw (lt→leb (suc n) 0 (omega arith))
  pixel_rounds filter (suc n) (x ∷ ins) outs =
      pixel_rounds filter n ins (outs ++ (filter x ∷ []))
      ∙ rw (leb-suc n (length ins), append_assoc outs (filter x ∷ []) (map filter (take n ins)))

  pub pixel_rounds2 :
      (filter : A → A → B) (n : ℕ) (xs ys : List A) (outs : List B)
      → rounds n (pixel_step2 filter) (record { in1_s = xs; in2_s = ys; out_s = outs }) ≡ (
          if leb n (length xs) && leb n (length ys)
          then done (record {
            in1_s = drop n xs;
            in2_s = drop n ys;
            out_s = outs ++ zip_with filter (take n xs) (take n ys);
          })
          else blocked)
  unfolding pixel_step2 rounds
  pixel_rounds2 filter zero xs ys outs =
      rw (le→leb 0 (length xs) (omega arith), le→leb 0 (length ys) (omega arith), append-nil)
  pixel_rounds2 filter (suc n) [] ys outs = rw (lt→leb (suc n) 0 (omega arith))
  pixel_rounds2 filter (suc n) (x ∷ xs) [] outs =
      rw (lt→leb (suc n) 0 (omega arith), &&-false (leb (suc n) (suc (length xs))))
  pixel_rounds2 filter (suc n) (x ∷ xs) (y ∷ ys) outs =
      pixel_rounds2 filter n xs ys (outs ++ (filter x y ∷ []))
      ∙ rw (
        leb-suc n (length xs),
        leb-suc n (length ys),
        append_assoc outs (filter x y ∷ []) (zip_with filter (take n xs) (take n ys)),
      )

  pub pixel_rounds3 :
      (filter : A → A → A → B) (n : ℕ) (xs ys zs : List A) (outs : List B)
      → rounds n (pixel_step3 filter) (record { in1_s = xs; in2_s = ys; in3_s = zs; out_s = outs })
        ≡ (if leb n (length xs) && (leb n (length ys) && leb n (length zs))
            then done (record {
              in1_s = drop n xs;
              in2_s = drop n ys;
              in3_s = drop n zs;
              out_s = outs ++ zip_with3 filter (take n xs) (take n ys) (take n zs);
            })
            else blocked)
  unfolding pixel_step3 rounds
  pixel_rounds3 filter zero xs ys zs outs = rw (
    le→leb 0 (length xs) (omega arith),
    le→leb 0 (length ys) (omega arith),
    le→leb 0 (length zs) (omega arith),
    append-nil,
  )
  pixel_rounds3 filter (suc n) [] ys zs outs = rw (lt→leb (suc n) 0 (omega arith))
  pixel_rounds3 filter (suc n) (x ∷ xs) [] zs outs =
      rw (lt→leb (suc n) 0 (omega arith), &&-false (leb (suc n) (suc (length xs))))
  pixel_rounds3 filter (suc n) (x ∷ xs) (y ∷ ys) [] outs = rw (
    lt→leb (suc n) 0 (omega arith),
    &&-false (leb (suc n) (suc (length ys))),
    &&-false (leb (suc n) (suc (length xs))),
  )
  pixel_rounds3 filter (suc n) (x ∷ xs) (y ∷ ys) (z ∷ zs) outs =
      pixel_rounds3 filter n xs ys zs (outs ++ (filter x y z ∷ []))
      ∙ rw (
        leb-suc n (length xs),
        leb-suc n (length ys),
        leb-suc n (length zs),
        append_assoc outs (filter x y z ∷ [])
            (zip_with3 filter (take n xs) (take n ys) (take n zs)),
      )

abbrev pub image_size : ℕ → ℕ → ℕ
image_size width height = height * width

-- The outcome of an operator whose loop ends with `o`: the asserts come first.
abbrev pub within : {S : Type 0} → ℕ → ℕ → ℕ → ℕ → Outcome S → Outcome S
within max_width max_height width height o =
    if leb width max_width && leb height max_height then o else aborted

pub point_operator-within :
    {S : Type 0} (step : S → Outcome S) (max_width max_height kx width height : ℕ) (s : S)
    → point_operator max_width max_height kx width height step s
      ≡ within max_width max_height width height (rounds (height * width) step s)
point_operator-within step max_width max_height kx width height s =
    elim (Bool-cases (leb width max_width && leb height max_height)) [
      | inl fits ↦ rw fits (
          point_operator-rounds step max_width max_height kx width height s (ground arith)
            (ground arith))
      | inr big ↦ rw big (point_operator-aborted step max_width max_height kx width height s big)
    ]

module _ {A B : Type 0} (max_width max_height kx width height : ℕ) where
  -- `processPixels`, in every case: it aborts if the image exceeds the maximal size, blocks if the
  -- stream delivers less than an image, and else writes the filter of each pixel in order and
  -- leaves the rest of the stream.
  pub process_pixels-map :
      (filter : A → B) (s : Streams A B)
      → process_pixels max_width max_height kx width height filter s
        ≡ within max_width max_height width height (
            if leb (image_size width height) (length s.in_s)
            then done (record {
              in_s = drop (image_size width height) s.in_s;
              out_s = s.out_s ++ map filter (take (image_size width height) s.in_s);
            })
            else blocked)
  unfolding process_pixels
  process_pixels-map filter s =
      point_operator-within (pixel_step filter) max_width max_height kx width height s
      ∙ ap (within max_width max_height width height)
          (pixel_rounds filter (image_size width height) s.in_s s.out_s)

  -- `processPixels2`, in every case: it aborts if the image exceeds the maximal size, blocks if one
  -- of the streams delivers less than an image, and else writes the filter of each pair of pixels in
  -- order and leaves the rest of the streams.
  pub process_pixels2-zip :
      (filter : A → A → B) (s : Streams2 A B)
      → process_pixels2 max_width max_height kx width height filter s
        ≡ within max_width max_height width height (
            if leb (image_size width height) (length s.in1_s)
              && leb (image_size width height) (length s.in2_s)
            then done (record {
              in1_s = drop (image_size width height) s.in1_s;
              in2_s = drop (image_size width height) s.in2_s;
              out_s =
                  s.out_s
                  ++ zip_with filter
                      (take (image_size width height) s.in1_s)
                      (take (image_size width height) s.in2_s);
            })
            else blocked)
  unfolding process_pixels2
  process_pixels2-zip filter s =
      point_operator-within (pixel_step2 filter) max_width max_height kx width height s
      ∙ ap (within max_width max_height width height)
          (pixel_rounds2 filter (image_size width height) s.in1_s s.in2_s s.out_s)

  -- `processPixels3`, in every case: it aborts if the image exceeds the maximal size, blocks if one
  -- of the three streams delivers less than an image, and else writes the filter of each triple of
  -- pixels in order and leaves the rest of the streams.
  pub process_pixels3-zip :
      (filter : A → A → A → B) (s : Streams3 A B)
      → process_pixels3 max_width max_height kx width height filter s
        ≡ within max_width max_height width height (
            if leb (image_size width height) (length s.in1_s)
              && (leb (image_size width height) (length s.in2_s)
                  && leb (image_size width height) (length s.in3_s))
            then done (record {
              in1_s = drop (image_size width height) s.in1_s;
              in2_s = drop (image_size width height) s.in2_s;
              in3_s = drop (image_size width height) s.in3_s;
              out_s =
                  s.out_s
                  ++ zip_with3 filter
                      (take (image_size width height) s.in1_s)
                      (take (image_size width height) s.in2_s)
                      (take (image_size width height) s.in3_s);
            })
            else blocked)
  unfolding process_pixels3
  process_pixels3-zip filter s =
      point_operator-within (pixel_step3 filter) max_width max_height kx width height s
      ∙ ap (within max_width max_height width height)
          (pixel_rounds3 filter (image_size width height) s.in1_s s.in2_s s.in3_s s.out_s)
