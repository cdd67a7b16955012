-- ===== src/Local/Scan.antt =====
-- runtime/hipacc_vivado_filter.hpp, `process_main_loop`, and the neighbourhoods that its filter sees.
use hipacc_vivado.Prelude.{
  ℕ, suc, ◌+◌, ◌-◌, ◌*◌, ◌/◌, ◌≤◌, ◌<◌, ◌≡◌, ◌≢◌, refl, ap, arith, ltb, leb, ◌&&◌, if◌then◌else◌,
  Bool-cases, inl, inr, Outcome, done, for_up, for_up_inv, List, tabulate, tabulate-cong,
}
use hipacc_vivado.Border.{BorderPadding, border_const}
use hipacc_vivado.Window.{Buffers, array}
use hipacc_vivado.Window.Contents.{Holds, Holds-start, Holds-next_line, padded, refresh_lem}
use hipacc_vivado.Window.Borders.{half_odd}
use hipacc_vivado.Local.{scan_input, scan_output, scan_step, scan}

-- The neighbourhood of pixel `(y, x)` as the filter receives it.
abbrev pub neighbourhood :
    {A : Type 0} → (ℕ → ℕ → A) → ℕ → ℕ → ℕ → ℕ → BorderPadding → ℕ → ℕ → List (List A)
neighbourhood img rx ry width height padding y x =
    tabulate (2 * ry + 1) 0
      (λ i. tabulate (2 * rx + 1) 0 (padded img rx ry width height padding y x i))

module _ {A T : Type 0} (img : ℕ → ℕ → A) (rx ry width height : ℕ) (padding : BorderPadding)
    (get : ℕ → ℕ → T → Outcome (A × T)) (emit : ℕ → ℕ → List (List A) → T → T) where
  -- The streams after the input part and after the output part of a step.
  abbrev pub taken : ℕ → ℕ → T → Outcome (A × T)
  taken row col t = if ltb col width && ltb row height then get row col t else done (img row col, t)

  abbrev pub given : ℕ → ℕ → T → T
  given row col t =
      if leb ry row && leb rx col
      then emit row col (neighbourhood img rx ry width height padding (row - ry) (col - rx)) t
      else t

  -- What an operator proves of its streams: `R row col` holds before step `col` of line `row`.
  pub record Scans (R : ℕ → ℕ → T → Type 0) : Type 0 where
    pub keep :
        (row col : ℕ) (t : T)
        → row < height + ry
        → col < width + rx
        → R row col t
        → (t' : T) × (taken row col t ≡ done (img row col, t')) × R row (suc col) (given row col t')
    pub line : (row : ℕ) (t : T) → row < height + ry → R row (width + rx) t → R (suc row) 0 t

  module _ (R : ℕ → ℕ → T → Type 0) (nc : padding ≢ border_const) (wide : 2 * rx ≤ width)
      (tall : 2 * ry ≤ height) (scans : Scans R) where
    abbrev At : ℕ → ℕ → Buffers A × T → Type 0
    At row col (b, t) = Holds img rx ry width height row col b × R row col t

    abbrev step : ℕ → ℕ → Buffers A × T → Outcome (Buffers A × T)
    step = scan_step width height (2 * rx + 1) (2 * ry + 1) width height padding get emit

    Holds-in_pixel :
        (row col : ℕ) (b : Buffers A) (x : A)
        → Holds img rx ry width height row col b
        → Holds img rx ry width height row col (record b { in_pixel = x })
    Holds-in_pixel row col b x h = record {
      lines_old = h.lines_old;
      lines_new = h.lines_new;
      shown = h.shown;
    }

    input_lem :
        (row col : ℕ) (b : Buffers A) (t t' : T)
        → taken row col t ≡ done (img row col, t')
        → Holds img rx ry width height row col b
        → (b' : Buffers A) × (scan_input width height
              (2 * rx + 1)
              (2 * ry + 1)
              width
              height
              padding
              get
              emit
              row
              col
              (b, t)
            ≡ done (b', t'))
          × (row < height → col < width → b'.in_pixel ≡ img row col)
          × Holds img rx ry width height row col b'
    unfolding scan_input
    input_lem row col b t t' got h = elim (Bool-cases (ltb col width && ltb row height)) [
      | inl inside ↦ (
        record b { in_pixel = img row col },
        rw (inside, rw inside at got),
        λ y x. refl,
        Holds-in_pixel row col b (img row col) h,
      )
      | inr outside ↦
          (b, rw outside (let same = rw outside at got in cc), λ y x. absurd (ground arith), h)
    ]

    output_lem :
        (row col : ℕ) (b : Buffers A) (t : T)
        → row < height + ry
        → col < width + rx
        → ((y x i j : ℕ)
            → row ≡ y + ry
            → col ≡ x + rx
            → i < 2 * ry + 1
            → j < 2 * rx + 1
            → b.win i j ≡ padded img rx ry width height padding y x i j)
        → scan_output width height
            (2 * rx + 1)
            (2 * ry + 1)
            width
            height
            padding
            get
            emit
            row
            col
            (b, t)
          ≡ (b, given row col t)
    unfolding scan_output array
    output_lem row col b t in_rows in_cols shown = elim (Bool-cases (leb ry row && leb rx col)) [
      | inl writes ↦
          let (down, right) : (ry ≤ row) × (rx ≤ col) = (ground arith, ground arith) in
          rw (half_odd rx, half_odd ry, writes)
            (ap (λ n. (b, emit row col n t))
              (tabulate-cong (2 * ry + 1) 0 _ _ (λ i l u.
                tabulate-cong (2 * rx + 1) 0 _ _ (λ j l' u'.
                  shown (row - ry) (col - rx) i j (omega arith) (omega arith) (omega arith)
                    (omega arith)))))
      | inr none_yet ↦ rw (half_odd rx, half_odd ry, none_yet)
    ]

    step_lem :
        (row col : ℕ) (s : Buffers A × T)
        → row < height + ry
        → col < width + rx
        → At row col s
        → (s' : Buffers A × T) × (step row col s ≡ done s') × At row (suc col) s'
    unfolding scan_step
    step_lem row col (b, t) in_rows in_cols (h, r) =
        let (t', got, r') = scans.keep row col t in_rows in_cols r in
        let (b', read, fresh, h') = input_lem row col b t t' got h in
        let (b'', ran, h'', same, shown) =
          refresh_lem img rx ry width height padding nc wide tall row col b' in_rows in_cols fresh
            h' in
        (
          (b'', given row col t'),
          rw (read, ran, output_lem row col b'' t' in_rows in_cols shown),
          (h'', r'),
        )

    line_lem :
        (row : ℕ) (s : Buffers A × T)
        → row < height + ry
        → At row 0 s
        → (s' : Buffers A × T) × (for_up (width + (2 * rx + 1) / 2) 0 (step row) s ≡ done s')
          × At (suc row) 0 s'
    line_lem row s in_rows at =
        let (s', ran, at') =
          for_up_inv (At row) (step row) (width + (2 * rx + 1) / 2) 0 (width + rx) (omega arith)
            (λ col u l in_cols a. step_lem row col u in_rows in_cols a) s at in
        (
          s',
          ran,
          (
            Holds-next_line img rx ry width height row (width + rx) s'.0 (omega arith) at'.0,
            scans.line row s'.1 in_rows at'.1,
          ),
        )

    -- The whole loop returns, and leaves the streams as `R` says of the end.
    pub scan_lem :
        (b : Buffers A) (t : T)
        → R 0 0 t
        → (s : Buffers A × T) × (scan width height
              (2 * rx + 1)
              (2 * ry + 1)
              width
              height
              padding
              get
              emit
              (b, t)
            ≡ done s)
          × R (height + ry) 0 s.1
    unfolding scan
    scan_lem b t start =
        let (s, ran, held) =
          for_up_inv (λ row. At row 0) _ (height + (2 * ry + 1) / 2) 0 (height + ry) (omega arith)
            (λ row s l in_rows at. line_lem row s in_rows at) (b, t)
            (Holds-start img rx ry width height b, start) in
        (s, ran, held.1)
