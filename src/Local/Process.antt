-- ===== src/Local/Process.antt =====
-- runtime/hipacc_vivado_filter.hpp, `process`: its output for a whole image.
use hipacc_vivado.Prelude.{
  ℕ, suc, ◌+◌, ◌*◌, ◌%◌, ◌≤◌, ◌≡◌, ◌≢◌, ◌∙◌, ap, arith, ltb, leb, ◌&&◌, Bool-cases, inl, inr,
  le→leb, ≡→==, Outcome, done, List, [], ◌∷◌, ◌++◌,
}
use native.Mathlib.Nat.{le-add_right}
use hipacc_vivado.Border.{BorderPadding, border_const}
use hipacc_vivado.Window.{Buffers}
use hipacc_vivado.Local.{Streams, read_in, write_out, checked, process}
use hipacc_vivado.Local.Scan.{neighbourhood, Scans, scan_lem}
use hipacc_vivado.Local.Images.{
  raster, left, left-next, left-skip, left-line, left-start, left-end, sofar, sofar-next,
  sofar-skip, sofar-line, sofar-start, sofar-end,
}

-- The asserts hold for an image of the full size and a kernel of odd sides.
pub checked-full {ℓ} :
    {S : Type ℓ} (rx ry width height : ℕ) (body : Outcome S)
    → checked width height (2 * rx + 1) (2 * ry + 1) width height body ≡ body
checked-full rx ry width height body = rw (
  le→leb width width (omega arith),
  le→leb height height (omega arith),
  ≡→== ((2 * rx + 1) % 2) 1 (omega arith),
  ≡→== ((2 * ry + 1) % 2) 1 (omega arith),
)

module _ {A B : Type 0} (img : ℕ → ℕ → A) (rx ry width height : ℕ) (filter : List (List A) → B)
    (padding : BorderPadding) (rest : List A) (before : List B) where
  abbrev pixel : ℕ → ℕ → List A
  pixel y x = img y x ∷ []

  abbrev result : ℕ → ℕ → List B
  result y x = filter (neighbourhood img rx ry width height padding y x) ∷ []

  abbrev incoming : ℕ → ℕ → List A
  incoming = left width height pixel rest

  abbrev outgoing : ℕ → ℕ → List B
  outgoing = sofar rx ry width height result before

  abbrev Middle : ℕ → ℕ → Streams A B → Type 0
  Middle row col t = t ≡ record { in_s = incoming row col; out_s = outgoing row col }

  process_scans :
      Scans img rx ry width height padding
        (λ row col. read_in)
        (λ row col win. write_out (filter win))
        Middle
  process_scans = record {
    keep = λ row col t in_rows in_cols r. (
      record { in_s = incoming row (suc col); out_s = outgoing row col },
      rw r (elim (Bool-cases (ltb col width && ltb row height)) [
        | inl inside ↦ rw (inside, left-next width height pixel rest row col inside)
        | inr outside ↦ rw (outside, left-skip width height pixel rest row col outside)
      ]),
      elim (Bool-cases (leb ry row && leb rx col)) [
        | inl writes ↦ rw (writes, sofar-next rx ry width height result before row col writes)
        | inr waits ↦ rw (waits, sofar-skip rx ry width height result before row col waits)
      ],
    );
    line = λ row t in_rows r.
        r
        ∙ rw (
          left-line width height pixel rest row (width + rx) (omega arith),
          sofar-line rx ry width height result before row,
        );
  }

-- For an image of the full size, of at least `2 * rx` columns and `2 * ry` lines, every padding
-- mode but BORDER_CONST and whatever the arrays held, `process` reads the image and no more, and
-- writes for each pixel, in row-major order, the filter of its padded neighbourhood.
pub process-raster :
    {A B : Type 0} (img : ℕ → ℕ → A) (rx ry width height : ℕ) (filter : List (List A) → B)
    (padding : BorderPadding) (rest : List A) (before : List B) (b : Buffers A)
    → padding ≢ border_const
    → 2 * rx ≤ width
    → 2 * ry ≤ height
    → (b' : Buffers A) × (process width height
          (2 * rx + 1)
          (2 * ry + 1)
          width
          height
          filter
          padding
          (b, record { in_s = raster height width (λ y x. img y x ∷ []) ++ rest; out_s = before })
        ≡ done (
          b',
          record {
            in_s = rest;
            out_s =
                before
                ++ raster height width
                    (λ y x. filter (neighbourhood img rx ry width height padding y x) ∷ []);
          },
        ))
unfolding process
process-raster img rx ry width height filter padding rest before b nc wide tall =
    let ((b', t), ran, ended) =
      scan_lem img rx ry width height padding (λ row col. read_in)
        (λ row col win. write_out (filter win))
        (Middle img rx ry width height filter padding rest before) nc wide tall
        (process_scans img rx ry width height filter padding rest before) b _
        (rw (left-start width height _ rest, sofar-start rx ry width height _ before)) in
    (
      b',
      checked-full rx ry width height _
          ∙ ran
          ∙ ap (λ u. done (b', u))
              (ended
                ∙ rw (
                  left-end width height (λ y x. img y x ∷ []) rest (height + ry)
                      (le-add_right height ry),
                  sofar-end rx ry width height
                      (λ y x. filter (neighbourhood img rx ry width height padding y x) ∷ [])
                      before,
                )),
    )
