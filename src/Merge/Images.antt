-- ===== src/Merge/Images.antt =====
-- runtime/hipacc_vivado_filter.hpp, `processMISO`: its output for two images.
use hipacc_vivado.Prelude.{
  ℕ, suc, ◌+◌, ◌*◌, ◌/◌, ◌≤◌, ◌<◌, ◌≡◌, ◌≢◌, refl, ◌∙◌, arith, Outcome, done, for_up, for_up_inv,
  List, [], ◌∷◌, ◌++◌,
}
use native.Mathlib.Nat.{le-add_right}
use hipacc_vivado.Border.{BorderPadding, border_const}
use hipacc_vivado.Window.{Buffers}
use hipacc_vivado.Window.Contents.{Holds-start, Holds-next_line, refresh_lem}
use hipacc_vivado.Local.Process.{checked-full}
use hipacc_vivado.Local.Scan.{neighbourhood}
use hipacc_vivado.Local.Images.{
  raster, left, left-line, left-start, left-end, sofar, sofar-line, sofar-start, sofar-end,
}
use hipacc_vivado.Merge.{Merging, merge_step, process_miso}
use hipacc_vivado.Merge.Step.{result, Middle, input_lem, output_lem}

module _ {A B : Type 0} (img1 img2 : ℕ → ℕ → A) (rx ry width height : ℕ)
    (filter : List (List A) → List (List A) → B) (padding : BorderPadding) (rest1 rest2 : List A)
    (before : List B) where
  abbrev At : ℕ → ℕ → Merging A B → Type 0
  At = Middle img1 img2 rx ry width height filter padding rest1 rest2 before

  module _ (nc : padding ≢ border_const) (wide : 2 * rx ≤ width) (tall : 2 * ry ≤ height) where
    abbrev step : ℕ → ℕ → Merging A B → Outcome (Merging A B)
    step = merge_step (2 * rx + 1) (2 * ry + 1) width height filter padding

    step_lem :
        (row col : ℕ) (s : Merging A B)
        → row < height + ry
        → col < width + rx
        → At row col s
        → (t : Merging A B) × (step row col s ≡ done t) × At row (suc col) t
    unfolding merge_step
    step_lem row col s in_rows in_cols m =
        let (r, read, fed) =
          input_lem img1 img2 rx ry width height filter padding rest1 rest2 before row col s m in
        let (b1, ran1, held1, same1, shown1) =
          refresh_lem img1 rx ry width height padding nc wide tall row col r.buffers1 in_rows
            in_cols fed.fresh1 fed.held1 in
        let (b2, ran2, held2, same2, shown2) =
          refresh_lem img2 rx ry width height padding nc wide tall row col r.buffers2 in_rows
            in_cols fed.fresh2 fed.held2 in
        (
          record {
            buffers1 = b1;
            buffers2 = b2;
            streams = record {
              in1_s = left width height (λ y x. img1 y x ∷ []) rest1 row (suc col);
              in2_s = left width height (λ y x. img2 y x ∷ []) rest2 row (suc col);
              out_s =
                  sofar rx ry width height
                    (result img1 img2 rx ry width height filter padding rest1 rest2 before) before
                    row (suc col);
            };
          },
          rw (
            read,
            ran1,
            ran2,
            output_lem img1 img2 rx ry width height filter padding rest1 rest2 before row col
                (record { buffers1 = b1; buffers2 = b2; streams = r.streams }) fed.passed shown1
                shown2,
          ),
          record { held1 = held1; held2 = held2; passed = refl },
        )

    line_lem :
        (row : ℕ) (s : Merging A B)
        → row < height + ry
        → At row 0 s
        → (t : Merging A B) × (for_up (width + (2 * rx + 1) / 2) 0 (step row) s ≡ done t)
          × At (suc row) 0 t
    line_lem row s in_rows m =
        let (t, ran, m') =
          for_up_inv (At row) (step row) (width + (2 * rx + 1) / 2) 0 (width + rx) (omega arith)
            (λ col u l in_cols n. step_lem row col u in_rows in_cols n) s m in
        (
          t,
          ran,
          record {
            held1 =
                Holds-next_line img1 rx ry width height row (width + rx) t.buffers1 (omega arith)
                  m'.held1;
            held2 =
                Holds-next_line img2 rx ry width height row (width + rx) t.buffers2 (omega arith)
                  m'.held2;
            passed =
                m'.passed
                ∙ rw (
                  left-line width height (λ y x. img1 y x ∷ []) rest1 row (width + rx)
                      (omega arith),
                  left-line width height (λ y x. img2 y x ∷ []) rest2 row (width + rx)
                      (omega arith),
                  sofar-line rx ry width height
                      (result img1 img2 rx ry width height filter padding rest1 rest2 before) before
                      row,
                );
          },
        )

    scan_lem :
        (s : Merging A B)
        → At 0 0 s
        → (t : Merging A B) × (for_up
              (height + (2 * ry + 1) / 2)
              0
              (λ row. for_up (width + (2 * rx + 1) / 2) 0 (step row))
              s
            ≡ done t)
          × At (height + ry) 0 t
    scan_lem s start =
        for_up_inv (λ row. At row 0) _ (height + (2 * ry + 1) / 2) 0 (height + ry) (omega arith)
          (λ row u l in_rows m. line_lem row u in_rows m) s start

-- For two images of the full size, of at least `2 * rx` columns and `2 * ry` lines, every padding mode
-- but BORDER_CONST and whatever the arrays held, `processMISO` reads both images and no more, and
-- writes for each pixel, in row-major order, the filter of its two padded neighbourhoods.
pub process_miso-raster :
    {A B : Type 0} (img1 img2 : ℕ → ℕ → A) (rx ry width height : ℕ)
    (filter : List (List A) → List (List A) → B) (padding : BorderPadding) (rest1 rest2 : List A)
    (before : List B) (b1 b2 : Buffers A)
    → padding ≢ border_const
    → 2 * rx ≤ width
    → 2 * ry ≤ height
    → (t : Merging A B) × (process_miso
          (2 * rx + 1)
          (2 * ry + 1)
          width
          height
          filter
          width
          height
          padding
          (record {
            buffers1 = b1;
            buffers2 = b2;
            streams = record {
              in1_s = raster height width (λ y x. img1 y x ∷ []) ++ rest1;
              in2_s = raster height width (λ y x. img2 y x ∷ []) ++ rest2;
              out_s = before;
            };
          })
        ≡ done t)
      × (t.streams ≡ record {
        in1_s = rest1;
        in2_s = rest2;
        out_s =
            before
            ++ raster height width (λ y x.
              filter
                (neighbourhood img1 rx ry width height padding y x)
                (neighbourhood img2 rx ry width height padding y x)
              ∷ []);
      })
unfolding process_miso
process_miso-raster img1 img2 rx ry width height filter padding rest1 rest2 before b1 b2 nc wide
      tall =
    let (t, ran, m) =
      scan_lem img1 img2 rx ry width height filter padding rest1 rest2 before nc wide tall _
        (record {
          held1 = Holds-start img1 rx ry width height b1;
          held2 = Holds-start img2 rx ry width height b2;
          passed = rw (
            left-start width height (λ y x. img1 y x ∷ []) rest1,
            left-start width height (λ y x. img2 y x ∷ []) rest2,
            sofar-start rx ry width height
                (result img1 img2 rx ry width height filter padding rest1 rest2 before) before,
          );
        }) in
    (
      t,
      checked-full rx ry width height _ ∙ ran,
      m.passed
          ∙ rw (
            left-end width height (λ y x. img1 y x ∷ []) rest1 (height + ry)
                (le-add_right height ry),
            left-end width height (λ y x. img2 y x ∷ []) rest2 (height + ry)
                (le-add_right height ry),
            sofar-end rx ry width height
                (result img1 img2 rx ry width height filter padding rest1 rest2 before) before,
          ),
    )
