-- ===== src/Parts/Right/Image.antt =====
-- runtime/hipacc_vivado_filter.hpp, `processR`: its output for a whole part of an image.
use hipacc_vivado.Prelude.{
  ℕ, suc, ◌+◌, ◌*◌, ◌%◌, ◌≤◌, ◌<◌, ◌≡◌, ◌≢◌, ap, ◌∙◌, arith, le→leb, ≡→==, Outcome, done, for_up,
  for_up_inv, List, [], ◌∷◌, ◌++◌,
}
use native.Mathlib.Nat.{le-add_right}
use hipacc_vivado.Border.{BorderPadding, border_const}
use hipacc_vivado.Window.{Buffers}
use hipacc_vivado.Window.Borders.{half_odd}
use hipacc_vivado.Window.Contents.{Holds-start, Holds-next_line}
use hipacc_vivado.Local.{Streams}
use hipacc_vivado.Local.Images.{
  raster, left-line, left-start, left-end, sofar-line, sofar-start, sofar-end,
}
use hipacc_vivado.Parts.{right_step, process_r}
use hipacc_vivado.Parts.Moves.{inner_neighbourhood}
use hipacc_vivado.Parts.Right.{extended, step_lem}
use hipacc_vivado.Parts.Right

module _ {A B : Type 0} (img : ℕ → ℕ → A) (max_width max_height r width height : ℕ)
    (filter : List (List A) → B) (padding : BorderPadding) (rest : List A) (before : List B)
    (nc : padding ≢ border_const) (tall : 2 * r ≤ height) (wide : 0 < width)
    (fits : width ≤ max_width) where
  abbrev ext : ℕ → ℕ → A
  ext = extended (width + r) img

  abbrev At : ℕ → ℕ → Buffers A × Streams A B → Type 0
  At = Right.At img max_width max_height r width height filter padding rest before nc tall wide fits

  abbrev step : ℕ → ℕ → Buffers A × Streams A B → Outcome (Buffers A × Streams A B)
  step = right_step max_width max_height (2 * r + 1) width height filter padding

  line_lem :
      (row : ℕ) (s : Buffers A × Streams A B)
      → row < height + r
      → At row 0 s
      → (s' : Buffers A × Streams A B) × (for_up (width + 2 * r) 0 (step row) s ≡ done s')
        × At (suc row) 0 s'
  line_lem row s in_rows at =
      let (s', ran, (h, (fresh, is))) =
        for_up_inv (At row) (step row) (width + 2 * r) 0 (width + 2 * r) (omega arith)
          (λ col u l in_cols a.
            step_lem img max_width max_height r width height filter padding rest before nc tall wide
              fits row col u in_rows in_cols a)
          s at in
      (
        s',
        ran,
        (
          Holds-next_line ext r r (width + 2 * r) height row (width + 2 * r) s'.0 (omega arith) h,
          (
            λ c l e. absurd (omega arith),
            is
                ∙ rw (
                  left-line (width + r) height (λ y x. img y x ∷ []) rest row (width + 2 * r)
                      (omega arith),
                  sofar-line (2 * r) r width height
                      (λ y x. filter (inner_neighbourhood ext r height padding y x) ∷ []) before
                      row,
                ),
          ),
        ),
      )

  pub lines_lem :
      (b : Buffers A)
      → (b' : Buffers A) × (for_up
            (height + r)
            0
            (λ row. for_up (width + 2 * r) 0 (step row))
            (
              b,
              record {
                in_s = raster height (width + r) (λ y x. img y x ∷ []) ++ rest;
                out_s = before;
              },
            )
          ≡ done (
            b',
            record {
              in_s = rest;
              out_s =
                  before
                  ++ raster height width
                      (λ y x. filter (inner_neighbourhood ext r height padding y x) ∷ []);
            },
          ))
  lines_lem b =
      let ((b', t), ran, (h, (fresh, is))) =
        for_up_inv (λ row. At row 0) (λ row. for_up (width + 2 * r) 0 (step row)) (height + r) 0
          (height + r) (omega arith) (λ row s l in_rows at. line_lem row s in_rows at) _
          (
            Holds-start ext r r (width + 2 * r) height b,
            (
              λ c l e. absurd (omega arith),
              rw (
                left-start (width + r) height (λ y x. img y x ∷ []) rest,
                sofar-start (2 * r) r width height
                    (λ y x. filter (inner_neighbourhood ext r height padding y x) ∷ []) before,
              ),
            ),
          ) in
      (
        b',
        ran
            ∙ ap (λ u. done (b', u))
                (is
                  ∙ rw (
                    left-end (width + r) height (λ y x. img y x ∷ []) rest (height + r)
                        (le-add_right height r),
                    sofar-end (2 * r) r width height
                        (λ y x. filter (inner_neighbourhood ext r height padding y x) ∷ []) before,
                  )),
      )

-- A part of at least `2 * r` lines and of one column, which fits, arrives with `r` further columns on
-- its left. For every padding mode but BORDER_CONST and whatever the arrays held, `processR` returns,
-- reads the part and no more, and writes for each pixel of the part, in row-major order, the filter of
-- its neighbourhood. Above and below the neighbourhood is padded as the mode says; on the right it
-- repeats the last column in every mode.
pub process_r-raster :
    {A B : Type 0} (img : ℕ → ℕ → A) (max_width max_height r width height : ℕ)
    (filter : List (List A) → B) (padding : BorderPadding) (rest : List A) (before : List B)
    (b : Buffers A)
    → padding ≢ border_const
    → 2 * r ≤ height
    → 0 < width
    → width ≤ max_width
    → height ≤ max_height
    → (b' : Buffers A) × (process_r max_width max_height (2 * r + 1) width height filter padding (
      b,
      record { in_s = raster height (width + r) (λ y x. img y x ∷ []) ++ rest; out_s = before },
    )
        ≡ done (
          b',
          record {
            in_s = rest;
            out_s =
                before
                ++ raster height width (λ y x.
                  filter (inner_neighbourhood (extended (width + r) img) r height padding y x)
                  ∷ []);
          },
        ))
unfolding process_r
process_r-raster img max_width max_height r width height filter padding rest before b nc tall wide
      fits_x fits_y =
    let (b', ran) =
      lines_lem img max_width max_height r width height filter padding rest before nc tall wide
        fits_x b in
    (
      b',
      rw
          (
            half_odd r,
            le→leb width max_width fits_x,
            le→leb height max_height fits_y,
            ≡→== ((2 * r + 1) % 2) 1 (omega arith),
          )
          ran,
    )
