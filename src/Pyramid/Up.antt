-- ===== src/Pyramid/Up.antt =====
-- runtime/hipacc_vivado_filter.hpp, `upsample`: its input and output for a whole image.
use hipacc_vivado.Prelude.{
  ℕ, suc, ◌+◌, ◌-◌, ◌*◌, ◌≤◌, ◌<◌, ◌≡◌, ◌≢◌, ◌∙◌, ap, arith, ltb, leb, ◌&&◌, if◌then◌else◌,
  Bool-cases, true, inl, inr, Outcome, done, List, [], ◌∷◌, ◌++◌,
}
use native.Mathlib.Nat.{le-add_right}
use hipacc_vivado.Border.{BorderPadding, border_const}
use hipacc_vivado.Window.{Buffers}
use hipacc_vivado.Local.{Streams, read_in, write_out}
use hipacc_vivado.Local.Process.{checked-full}
use hipacc_vivado.Local.Scan.{neighbourhood, Scans, scan_lem}
use hipacc_vivado.Local.Images.{
  raster, left, left-next, left-skip, left-line, left-start, left-end, sofar, sofar-next,
  sofar-skip, sofar-line, sofar-start, sofar-end,
}
use hipacc_vivado.Pyramid.{on_lattice, upsample}

module _ {A : Type 0} (img : ℕ → ℕ → A) (zero_pixel : A) (factor : ℕ) where
  -- The enlarged image, and the pixels of it that come from the input.
  abbrev pub stuffed : ℕ → ℕ → A
  stuffed y x = if on_lattice factor (factor - 1) y x then img y x else zero_pixel

  abbrev pub supplied : ℕ → ℕ → List A
  supplied y x = if on_lattice factor (factor - 1) y x then img y x ∷ [] else []

module _ {A B : Type 0} (img : ℕ → ℕ → A) (zero_pixel : A) (r width height factor : ℕ)
    (filter : List (List A) → ℕ → ℕ → B) (padding : BorderPadding) (rest : List A)
    (before : List B) where
  abbrev big : ℕ → ℕ → A
  big = stuffed img zero_pixel factor

  abbrev pixels : ℕ → ℕ → List A
  pixels = supplied img zero_pixel factor

  abbrev pub enlarged : ℕ → ℕ → List B
  enlarged y x = filter (neighbourhood big r r width height padding y x) (x + r) (y + r) ∷ []

  abbrev incoming : ℕ → ℕ → List A
  incoming = left width height pixels rest

  abbrev outgoing : ℕ → ℕ → List B
  outgoing = sofar r r width height enlarged before

  abbrev Middle : ℕ → ℕ → Streams A B → Type 0
  Middle row col t = t ≡ record { in_s = incoming row col; out_s = outgoing row col }

  abbrev get : ℕ → ℕ → Streams A B → Outcome (A × Streams A B)
  get row col t = if on_lattice factor (factor - 1) row col then read_in t else done (zero_pixel, t)

  get_lem :
      (row col : ℕ) (outs : List B)
      → (ltb col width && ltb row height) ≡ true
      → get row col (record { in_s = incoming row col; out_s = outs })
        ≡ done (big row col, record { in_s = incoming row (suc col); out_s = outs })
  get_lem row col outs inside =
      rw (left-next width height pixels rest row col inside)
        (elim (Bool-cases (on_lattice factor (factor - 1) row col)) [
          | inl reads ↦ rw reads
          | inr fills ↦ rw fills
        ])

  emit_lem :
      (row col : ℕ) (ins : List A)
      → (leb r row && leb r col) ≡ true
      → write_out
          (filter (neighbourhood big r r width height padding (row - r) (col - r)) col row)
          (record { in_s = ins; out_s = outgoing row col })
        ≡ record { in_s = ins; out_s = outgoing row (suc col) }
  emit_lem row col ins writes =
      let row_back : row - r + r ≡ row = ground arith in
      let col_back : col - r + r ≡ col = ground arith in
      rw (sofar-next r r width height enlarged before row col writes, row_back, col_back)

  up_scans :
      Scans big r r width height padding get (λ row col win. write_out (filter win col row)) Middle
  up_scans = record {
    keep = λ row col t in_rows in_cols h. (
      record { in_s = incoming row (suc col); out_s = outgoing row col },
      rw h (elim (Bool-cases (ltb col width && ltb row height)) [
        | inl inside ↦ rw inside (get_lem row col (outgoing row col) inside)
        | inr outside ↦ rw (outside, left-skip width height pixels rest row col outside)
      ]),
      elim (Bool-cases (leb r row && leb r col)) [
        | inl writes ↦ rw writes (emit_lem row col (incoming row (suc col)) writes)
        | inr waits ↦ rw (waits, sofar-skip r r width height enlarged before row col waits)
      ],
    );
    line = λ row t in_rows h.
        h
        ∙ rw (
          left-line width height pixels rest row (width + r) (omega arith),
          sofar-line r r width height enlarged before row,
        );
  }

-- For an image of the full size, of at least `2 * r` columns and lines with a square kernel of radius
-- `r`, a positive factor and every padding mode but BORDER_CONST, `upsample` reads one pixel for each place of the enlarged image whose coordinates leave
-- the remainder `factor - 1` and no more, and writes for every place, in row-major order, the filter
-- of the padded neighbourhood in the image that has these pixels there and 0 elsewhere. The
-- coordinates that the filter gets are larger by `r` than those of the place.
pub upsample-raster :
    {A B : Type 0} (img : ℕ → ℕ → A) (zero_pixel : A) (r width height factor : ℕ)
    (filter : List (List A) → ℕ → ℕ → B) (padding : BorderPadding) (rest : List A) (before : List B)
    (b : Buffers A)
    → 0 < factor
    → padding ≢ border_const
    → 2 * r ≤ width
    → 2 * r ≤ height
    → (b' : Buffers A) × (upsample width height
          (2 * r + 1)
          width
          height
          factor
          zero_pixel
          filter
          padding
          (
            b,
            record {
              in_s = raster height width (supplied img zero_pixel factor) ++ rest;
              out_s = before;
            },
          )
        ≡ done (
          b',
          record {
            in_s = rest;
            out_s =
                before
                ++ raster height width (λ y x.
                  filter
                    (neighbourhood (stuffed img zero_pixel factor) r r width height padding y x)
                    (x + r)
                    (y + r)
                  ∷ []);
          },
        ))
unfolding upsample
upsample-raster img zero_pixel r width height factor filter padding rest before b pos nc wide tall =
    let ((b', t), ran, ended) =
      scan_lem (stuffed img zero_pixel factor) r r width height padding _ _
        (Middle img zero_pixel r width height factor filter padding rest before) nc wide tall
        (up_scans img zero_pixel r width height factor filter padding rest before) b _
        (rw (left-start width height _ rest, sofar-start r r width height _ before)) in
    (
      b',
      checked-full r r width height _
          ∙ ran
          ∙ ap (λ u. done (b', u))
              (ended
                ∙ rw (
                  left-end width height (supplied img zero_pixel factor) rest (height + r)
                      (le-add_right height r),
                  sofar-end r r width height
                      (enlarged img zero_pixel r width height factor filter padding rest before)
                      before,
                )),
    )
