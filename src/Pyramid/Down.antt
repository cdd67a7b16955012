-- ===== src/Pyramid/Down.antt =====
-- runtime/hipacc_vivado_filter.hpp, `downsample`: its output for a whole image.
use hipacc_vivado.Prelude.{
  ℕ, suc, ◌+◌, ◌-◌, ◌*◌, ◌%◌, ◌≤◌, ◌<◌, ◌≡◌, ◌≢◌, ◌∙◌, ap, arith, ltb, leb, ◌&&◌, if◌then◌else◌,
  Bool-cases, true, inl, inr, done, append-nil, List, [], ◌∷◌, ◌++◌,
}
use native.Mathlib.Nat.{le-add_right}
use hipacc_vivado.Border.{BorderPadding, border_const}
use hipacc_vivado.Window.{Buffers}
use hipacc_vivado.Window.Borders.{half_odd}
use hipacc_vivado.Local.{Streams, read_in, write_out}
use hipacc_vivado.Local.Process.{checked-full}
use hipacc_vivado.Local.Scan.{neighbourhood, Scans, scan_lem}
use hipacc_vivado.Local.Images.{
  raster, left, left-next, left-skip, left-line, left-start, left-end, sofar, sofar-next,
  sofar-skip, sofar-line, sofar-start, sofar-end,
}
use hipacc_vivado.Pyramid.{on_lattice, downsample}

-- The result of pixel `(y, x)`, if it is retained.
abbrev pub retained :
    {A B : Type 0}
    → (ℕ → ℕ → A)
    → ℕ
    → ℕ
    → ℕ
    → ℕ
    → (List (List A) → B)
    → BorderPadding
    → ℕ
    → ℕ
    → List B
retained img r width height factor filter padding y x =
    if on_lattice factor (r % 2) (y + r) (x + r)
    then filter (neighbourhood img r r width height padding y x) ∷ []
    else []

module _ {A B : Type 0} (img : ℕ → ℕ → A) (r width height factor : ℕ) (filter : List (List A) → B)
    (padding : BorderPadding) (rest : List A) (before : List B) where
  abbrev kept : ℕ → ℕ → List B
  kept = retained img r width height factor filter padding

  abbrev pixel : ℕ → ℕ → List A
  pixel y x = img y x ∷ []

  abbrev incoming : ℕ → ℕ → List A
  incoming = left width height pixel rest

  abbrev outgoing : ℕ → ℕ → List B
  outgoing = sofar r r width height kept before

  abbrev Middle : ℕ → ℕ → Streams A B → Type 0
  Middle row col t = t ≡ record { in_s = incoming row col; out_s = outgoing row col }

  abbrev emit : ℕ → ℕ → List (List A) → Streams A B → Streams A B
  emit row col win t = if on_lattice factor (r % 2) row col then write_out (filter win) t else t

  emit_lem :
      (row col : ℕ) (ins : List A) (outs : List B)
      → (leb r row && leb r col) ≡ true
      → emit row col
          (neighbourhood img r r width height padding (row - r) (col - r))
          (record { in_s = ins; out_s = outs })
        ≡ record { in_s = ins; out_s = outs ++ kept (row - r) (col - r) }
  emit_lem row col ins outs writes =
      let row_back : row - r + r ≡ row = ground arith in
      let col_back : col - r + r ≡ col = ground arith in
      rw (row_back, col_back)
        (elim (Bool-cases (on_lattice factor (r % 2) row col)) [
          | inl retains ↦ rw retains
          | inr dropped ↦ rw (dropped, append-nil)
        ])

  down_scans : Scans img r r width height padding (λ row col. read_in) emit Middle
  down_scans = record {
    keep = λ row col t in_rows in_cols h. (
      record { in_s = incoming row (suc col); out_s = outgoing row col },
      rw h (elim (Bool-cases (ltb col width && ltb row height)) [
        | inl inside ↦ rw (inside, left-next width height pixel rest row col inside)
        | inr outside ↦ rw (outside, left-skip width height pixel rest row col outside)
      ]),
      elim (Bool-cases (leb r row && leb r col)) [
        | inl writes ↦
            rw (writes, sofar-next r r width height kept before row col writes)
              (emit_lem row col (incoming row (suc col)) (outgoing row col) writes)
        | inr waits ↦ rw (waits, sofar-skip r r width height kept before row col waits)
      ],
    );
    line = λ row t in_rows h.
        h
        ∙ rw (
          left-line width height pixel rest row (width + r) (omega arith),
          sofar-line r r width height kept before row,
        );
  }

-- For an image of the full size, of at least `2 * r` columns and lines with a square kernel of radius
-- `r`, a positive factor and every padding mode but BORDER_CONST, `downsample` reads the whole image and writes, in row-major order, the filter of the
-- padded neighbourhood of just the pixels whose coordinates, shifted by `r`, leave the remainder
-- `r % 2` by the factor.
pub downsample-raster :
    {A B : Type 0} (img : ℕ → ℕ → A) (r width height factor : ℕ) (filter : List (List A) → B)
    (padding : BorderPadding) (rest : List A) (before : List B) (b : Buffers A)
    → 0 < factor
    → padding ≢ border_const
    → 2 * r ≤ width
    → 2 * r ≤ height
    → (b' : Buffers A) × (downsample width height
          (2 * r + 1)
          width
          height
          factor
          filter
          padding
          (b, record { in_s = raster height width (λ y x. img y x ∷ []) ++ rest; out_s = before })
        ≡ done (
          b',
          record {
            in_s = rest;
            out_s =
                before ++ raster height width (retained img r width height factor filter padding);
          },
        ))
unfolding downsample
downsample-raster img r width height factor filter padding rest before b pos nc wide tall =
    let ((b', t), ran, ended) =
      scan_lem img r r width height padding (λ row col. read_in)
        (emit img r width height factor filter padding rest before)
        (Middle img r width height factor filter padding rest before) nc wide tall
        (down_scans img r width height factor filter padding rest before) b
        (record { in_s = raster height width (λ y x. img y x ∷ []) ++ rest; out_s = before })
        (rw (left-start width height _ rest, sofar-start r r width height _ before)) in
    (
      b',
      rw (half_odd r) (
          checked-full r r width height _
          ∙ ran
          ∙ ap (λ u. done (b', u))
              (ended
                ∙ rw (
                  left-end width height (λ y x. img y x ∷ []) rest (height + r)
                      (le-add_right height r),
                  sofar-end r r width height (retained img r width height factor filter padding)
                      before,
                ))),
    )
