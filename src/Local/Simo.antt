-- ===== src/Local/Simo.antt =====
-- runtime/hipacc_vivado_filter.hpp, `processSIMO`: its outputs for a whole image.
use hipacc_vivado.Prelude.{
  ℕ, suc, ◌+◌, ◌*◌, ◌≤◌, ◌≡◌, ◌≢◌, ◌∙◌, ap, arith, ltb, leb, ◌&&◌, Bool-cases, inl, inr, done,
  fetch, ◌>>=◌, List, [], ◌∷◌, ◌++◌,
}
use native.Mathlib.Nat.{le-add_right}
use hipacc_vivado.Border.{BorderPadding, border_const}
use hipacc_vivado.Window.{Buffers}
use hipacc_vivado.Local.{ForkedStreams, process_simo}
use hipacc_vivado.Local.Process.{checked-full}
use hipacc_vivado.Local.Scan.{neighbourhood, Scans, scan_lem}
use hipacc_vivado.Local.Images.{
  raster, left, left-next, left-skip, left-line, left-start, left-end, sofar, sofar-next,
  sofar-skip, sofar-line, sofar-start, sofar-end,
}

module _ {A B : Type 0} (img : ℕ → ℕ → A) (rx ry width height : ℕ) (filter : List (List A) → B)
    (padding : BorderPadding) (rest : List A) (before1 before2 : List B) where
  abbrev pixel : ℕ → ℕ → List A
  pixel y x = img y x ∷ []

  abbrev result : ℕ → ℕ → List B
  result y x = filter (neighbourhood img rx ry width height padding y x) ∷ []

  abbrev incoming : ℕ → ℕ → List A
  incoming = left width height pixel rest

  abbrev outgoing : List B → ℕ → ℕ → List B
  outgoing = sofar rx ry width height result

  abbrev Middle : ℕ → ℕ → ForkedStreams A B → Type 0
  Middle row col t = t ≡ record {
    in_s = incoming row col;
    out1_s = outgoing before1 row col;
    out2_s = outgoing before2 row col;
  }

  simo_scans :
      Scans img rx ry width height padding
        (λ row col t. fetch t.in_s >>= λ (x, rest). done (x, record t { in_s = rest }))
        (λ row col win t.
          let out_pixel = filter win in
          record t { out1_s = t.out1_s ++ (out_pixel ∷ []); out2_s = t.out2_s ++ (out_pixel ∷ []) })
        Middle
  simo_scans = record {
    keep = λ row col t in_rows in_cols r. (
      record {
        in_s = incoming row (suc col);
        out1_s = outgoing before1 row col;
        out2_s = outgoing before2 row col;
      },
      rw r (elim (Bool-cases (ltb col width && ltb row height)) [
        | inl inside ↦ rw (inside, left-next width height pixel rest row col inside)
        | inr outside ↦ rw (outside, left-skip width height pixel rest row col outside)
      ]),
      elim (Bool-cases (leb ry row && leb rx col)) [
        | inl writes ↦ rw (
          writes,
          sofar-next rx ry width height result before1 row col writes,
          sofar-next rx ry width height result before2 row col writes,
        )
        | inr waits ↦ rw (
          waits,
          sofar-skip rx ry width height result before1 row col waits,
          sofar-skip rx ry width height result before2 row col waits,
        )
      ],
    );
    line = λ row t in_rows r.
        r
        ∙ rw (
          left-line width height pixel rest row (width + rx) (omega arith),
          sofar-line rx ry width height result before1 row,
          sofar-line rx ry width height result before2 row,
        );
  }

-- For an image of the full size, of at least `2 * rx` columns and `2 * ry` lines, every padding mode
-- but BORDER_CONST and whatever the arrays held, `processSIMO` reads the image and no more, and writes
-- the filter of every pixel's padded neighbourhood, in row-major order, to each of its two outputs.
pub process_simo-raster :
    {A B : Type 0} (img : ℕ → ℕ → A) (rx ry width height : ℕ) (filter : List (List A) → B)
    (padding : BorderPadding) (rest : List A) (before1 before2 : List B) (b : Buffers A)
    → padding ≢ border_const
    → 2 * rx ≤ width
    → 2 * ry ≤ height
    → let results =
        raster height width
          (λ y x. filter (neighbourhood img rx ry width height padding y x) ∷ []) in
      (b' : Buffers A) × (process_simo width height
          (2 * rx + 1)
          (2 * ry + 1)
          width
          height
          filter
          padding
          (
            b,
            record {
              in_s = raster height width (λ y x. img y x ∷ []) ++ rest;
              out1_s = before1;
              out2_s = before2;
            },
          )
        ≡ done
            (b', record { in_s = rest; out1_s = before1 ++ results; out2_s = before2 ++ results }))
unfolding process_simo
process_simo-raster img rx ry width height filter padding rest before1 before2 b nc wide tall =
    let results = λ (y x : ℕ). filter (neighbourhood img rx ry width height padding y x) ∷ [] in
    let ((b', t), ran, ended) =
      scan_lem img rx ry width height padding _ _
        (Middle img rx ry width height filter padding rest before1 before2) nc wide tall
        (simo_scans img rx ry width height filter padding rest before1 before2) b _
        (rw (
          left-start width height _ rest,
          sofar-start rx ry width height _ before1,
          sofar-start rx ry width height _ before2,
        )) in
    (
      b',
      checked-full rx ry width height _
          ∙ ran
          ∙ ap (λ u. done (b', u))
              (ended
                ∙ rw (
                  left-end width height (λ y x. img y x ∷ []) rest (height + ry)
                      (le-add_right height ry),
                  sofar-end rx ry width height results before1,
                  sofar-end rx ry width height results before2,
                )),
    )
