-- ===== src/Merge/Step.antt =====
-- The input and the output part of a step of `processMISO`.
use hipacc_vivado.Prelude.{
  ℕ, suc, ◌+◌, ◌-◌, ◌*◌, ◌≤◌, ◌<◌, ◌≡◌, refl, ◌∙◌, ap, arith, ltb, leb, ◌&&◌, Bool-cases, inl, inr,
  done, List, [], ◌∷◌, tabulate-cong,
}
use hipacc_vivado.Border.{BorderPadding}
use hipacc_vivado.Window.{Buffers, array}
use hipacc_vivado.Window.Contents.{Holds, padded}
use hipacc_vivado.Window.Borders.{half_odd}
use hipacc_vivado.Local.Scan.{neighbourhood}
use hipacc_vivado.Local.Images.{left, left-next, left-skip, sofar, sofar-next, sofar-skip}
use hipacc_vivado.Merge.{Merging, merge_input, merge_output}

module _ {A B : Type 0} (img1 img2 : ℕ → ℕ → A) (rx ry width height : ℕ)
    (filter : List (List A) → List (List A) → B) (padding : BorderPadding) (rest1 rest2 : List A)
    (before : List B) where
  abbrev pub result : ℕ → ℕ → List B
  result y x =
      filter (neighbourhood img1 rx ry width height padding y x)
        (neighbourhood img2 rx ry width height padding y x)
      ∷ []

  abbrev pub incoming : (ℕ → ℕ → A) → List A → ℕ → ℕ → List A
  incoming img rest = left width height (λ y x. img y x ∷ []) rest

  abbrev pub outgoing : ℕ → ℕ → List B
  outgoing = sofar rx ry width height result before

  -- Before step `col` of line `row`.
  pub record Middle (row col : ℕ) (s : Merging A B) : Type 0 where
    pub held1 : Holds img1 rx ry width height row col s.buffers1
    pub held2 : Holds img2 rx ry width height row col s.buffers2
    pub passed : s.streams ≡ record {
      in1_s = incoming img1 rest1 row col;
      in2_s = incoming img2 rest2 row col;
      out_s = outgoing row col;
    }

  -- Between the input and the output of the step.
  pub record Fed (row col : ℕ) (s : Merging A B) : Type 0 where
    pub held1 : Holds img1 rx ry width height row col s.buffers1
    pub held2 : Holds img2 rx ry width height row col s.buffers2
    pub fresh1 : row < height → col < width → s.buffers1.in_pixel ≡ img1 row col
    pub fresh2 : row < height → col < width → s.buffers2.in_pixel ≡ img2 row col
    pub passed : s.streams ≡ record {
      in1_s = incoming img1 rest1 row (suc col);
      in2_s = incoming img2 rest2 row (suc col);
      out_s = outgoing row col;
    }

  in_pixel-Holds :
      (img : ℕ → ℕ → A) (row col : ℕ) (b : Buffers A) (x : A)
      → Holds img rx ry width height row col b
      → Holds img rx ry width height row col (record b { in_pixel = x })
  in_pixel-Holds img row col b x h = record {
    lines_old = h.lines_old;
    lines_new = h.lines_new;
    shown = h.shown;
  }

  pub input_lem :
      (row col : ℕ) (s : Merging A B)
      → Middle row col s
      → (t : Merging A B) × (merge_input (2 * rx + 1) (2 * ry + 1) width height filter row col s
          ≡ done t)
        × Fed row col t
  unfolding merge_input
  input_lem row col s m = elim (Bool-cases (ltb col width && ltb row height)) [
    | inl inside ↦ (
      record {
        buffers1 = record (s.buffers1) { in_pixel = img1 row col };
        buffers2 = record (s.buffers2) { in_pixel = img2 row col };
        streams = record {
          in1_s = incoming img1 rest1 row (suc col);
          in2_s = incoming img2 rest2 row (suc col);
          out_s = outgoing row col;
        };
      },
      rw (
        inside,
        m.passed,
        left-next width height (λ y x. img1 y x ∷ []) rest1 row col inside,
        left-next width height (λ y x. img2 y x ∷ []) rest2 row col inside,
      ),
      record {
        held1 = in_pixel-Holds img1 row col s.buffers1 (img1 row col) m.held1;
        held2 = in_pixel-Holds img2 row col s.buffers2 (img2 row col) m.held2;
        fresh1 = λ y x. refl;
        fresh2 = λ y x. refl;
        passed = refl;
      },
    )
    | inr outside ↦ (
      s,
      rw outside,
      record {
        held1 = m.held1;
        held2 = m.held2;
        fresh1 = λ y x. absurd (ground arith);
        fresh2 = λ y x. absurd (ground arith);
        passed =
            m.passed
            ∙ rw (
              left-skip width height (λ y x. img1 y x ∷ []) rest1 row col outside,
              left-skip width height (λ y x. img2 y x ∷ []) rest2 row col outside,
            );
      },
    )
  ]

  -- A window that shows a padded neighbourhood is that neighbourhood.
  array_lem :
      (img : ℕ → ℕ → A) (win : ℕ → ℕ → A) (row col : ℕ)
      → ry ≤ row
      → rx ≤ col
      → ((y x i j : ℕ)
          → row ≡ y + ry
          → col ≡ x + rx
          → i < 2 * ry + 1
          → j < 2 * rx + 1
          → win i j ≡ padded img rx ry width height padding y x i j)
      → array (2 * ry + 1) (2 * rx + 1) win
        ≡ neighbourhood img rx ry width height padding (row - ry) (col - rx)
  unfolding array
  array_lem img win row col down right shown = tabulate-cong (2 * ry + 1) 0 _ _ (λ i l u.
      tabulate-cong (2 * rx + 1) 0 _ _ (λ j l' u'.
        shown (row - ry) (col - rx) i j (omega arith) (omega arith) (omega arith) (omega arith)))

  pub output_lem :
      (row col : ℕ) (s : Merging A B)
      → s.streams ≡ record {
        in1_s = incoming img1 rest1 row (suc col);
        in2_s = incoming img2 rest2 row (suc col);
        out_s = outgoing row col;
      }
      → ((y x i j : ℕ)
          → row ≡ y + ry
          → col ≡ x + rx
          → i < 2 * ry + 1
          → j < 2 * rx + 1
          → s.buffers1.win i j ≡ padded img1 rx ry width height padding y x i j)
      → ((y x i j : ℕ)
          → row ≡ y + ry
          → col ≡ x + rx
          → i < 2 * ry + 1
          → j < 2 * rx + 1
          → s.buffers2.win i j ≡ padded img2 rx ry width height padding y x i j)
      → merge_output (2 * rx + 1) (2 * ry + 1) width height filter row col s ≡ record s {
        streams = record {
          in1_s = incoming img1 rest1 row (suc col);
          in2_s = incoming img2 rest2 row (suc col);
          out_s = outgoing row (suc col);
        };
      }
  unfolding merge_output
  output_lem row col s passed shown1 shown2 = elim (Bool-cases (leb ry row && leb rx col)) [
    | inl writes ↦
        let (down, right) : (ry ≤ row) × (rx ≤ col) = (ground arith, ground arith) in
        rw (
          half_odd rx,
          half_odd ry,
          writes,
          passed,
          array_lem img1 s.buffers1.win row col down right shown1,
          array_lem img2 s.buffers2.win row col down right shown2,
          sofar-next rx ry width height result before row col writes,
        )
    | inr waits ↦
        rw (half_odd rx, half_odd ry, waits)
          (ap (λ t. record s { streams = t })
            (passed ∙ rw (sofar-skip rx ry width height result before row col waits)))
  ]
