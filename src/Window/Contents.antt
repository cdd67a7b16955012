-- ===== src/Window/Contents.antt =====
-- What the line buffer and the window hold while an image is scanned.
use hipacc_vivado.Prelude.{
  ℕ, suc, ◌+◌, ◌-◌, ◌*◌, ◌≤◌, ◌<◌, ◌≡◌, ◌≢◌, ◌∙◌, arith, ltb, ◌==◌, if◌then◌else◌, lt→ltb, ≢→==,
  ==→≡, ltb→lt, ltb→le, Bool-cases, inl, inr, done,
}
use hipacc_vivado.Border.{BorderPadding, border_const}
use hipacc_vivado.Border.Bounds.{entry_read, entry_read-lt}
use hipacc_vivado.Border.Source.{source_index, source_index-lt, entry_read-source}
use hipacc_vivado.Window.{Buffers, shift_window, update_lines, enter, refresh}
use hipacc_vivado.Window.Shift.{shift_window_lem}
use hipacc_vivado.Window.Lines.{
  column, win_tmp-update_lines, line_buff-update_lines, in_pixel-update_lines,
}
use hipacc_vivado.Window.Borders.{border_x_lem, border_y_lem, half_odd}

module _ {ℓ} {A : Type ℓ} (img : ℕ → ℕ → A) (rx ry width height : ℕ) where
  -- After `col` steps of line `row`. Line `a` of the buffer holds the image line that lies `2 * ry`
  -- above, counted from the lines entered so far; the window holds the last `2 * rx + 1` columns.
  pub record Holds (row col : ℕ) (b : Buffers A) : Type ℓ where
    pub lines_old :
        (a c y : ℕ)
        → a < 2 * ry
        → col ≤ c
        → c < width
        → y + 2 * ry ≡ row + a
        → y < height
        → b.line_buff a c ≡ img y c
    pub lines_new :
        (a c y : ℕ)
        → a < 2 * ry
        → c < col
        → c < width
        → y + 2 * ry ≡ row + a + 1
        → y < height
        → b.line_buff a c ≡ img y c
    pub shown :
        (a j y x : ℕ)
        → a < 2 * ry + 1
        → j < 2 * rx + 1
        → y + 2 * ry ≡ row + a
        → y < height
        → x + (2 * rx + 1) ≡ col + j
        → x < width
        → b.win_tmp a j ≡ img y x

  -- What the filter is to see when its centre is pixel `(y, x)`.
  abbrev pub padded : BorderPadding → ℕ → ℕ → ℕ → ℕ → A
  padded padding y x i j =
      img (source_index padding ry height y i) (source_index padding rx width x j)

  -- Whatever the arrays hold before the first step.
  pub Holds-start : (b : Buffers A) → Holds 0 0 b
  Holds-start b = record {
    lines_old = λ a c y z l m e o. absurd (omega arith);
    lines_new = λ a c y z l m e o. elim l [ ];
    shown = λ a j y x z k e o f q. absurd (omega arith);
  }

  -- A finished line is the start of the next.
  pub Holds-next_line :
      (row col : ℕ) (b : Buffers A) → width ≤ col → Holds row col b → Holds (suc row) 0 b
  Holds-next_line row col b full h = record {
    lines_old = λ a c y z l m e o. h.lines_new a c y z (omega arith) m (omega arith) o;
    lines_new = λ a c y z l m e o. elim l [ ];
    shown = λ a j y x z k e o f q. absurd (omega arith);
  }

  module _ (row col : ℕ) (b : Buffers A) (in_rows : row < height + ry) (in_cols : col < width + rx)
      (input : row < height → col < width → b.in_pixel ≡ img row col) (h : Holds row col b) where
    abbrev pub shifted : Buffers A
    shifted = record b { win_tmp = shift_window (2 * rx + 1) (2 * ry + 1) b.win_tmp }

    abbrev entered : Buffers A
    entered = if ltb col width then update_lines (2 * rx + 1) (2 * ry + 1) col shifted else shifted

    enter_lem : enter (2 * rx + 1) (2 * ry + 1) width height row col b ≡ entered
    unfolding enter
    enter_lem =
        rw
          (
            half_odd rx,
            half_odd ry,
            lt→ltb col (width + rx) in_cols,
            lt→ltb row (height + ry) in_rows,
          )
          (ground arith)

    moved_left :
        (a j y x : ℕ)
        → a < 2 * ry + 1
        → suc j < 2 * rx + 1
        → y + 2 * ry ≡ row + a
        → y < height
        → x + (2 * rx + 1) ≡ suc col + j
        → x < width
        → shifted.win_tmp a j ≡ img y x
    moved_left a j y x z k e o f q =
        shift_window_lem (2 * rx + 1) (2 * ry + 1) b.win_tmp a j
        ∙ rw (lt→ltb a (2 * ry + 1) z, lt→ltb (j + 1) (2 * rx + 1) (omega arith))
            (h.shown a (j + 1) y x z (omega arith) e o (omega arith) q)

    newest :
        (a y : ℕ)
        → col < width
        → a < 2 * ry + 1
        → y + 2 * ry ≡ row + a
        → y < height
        → column (2 * rx + 1) (2 * ry + 1) col shifted a ≡ img y col
    newest a y m z e o = elim (Bool-cases (ltb (a + 1) (2 * ry + 1))) [
      | inl above ↦ rw above (h.lines_old a col y (ground arith) (omega arith) m e o)
      | inr last ↦ let here : y ≡ row = ground arith in rw (last, here) (input (ground arith) m)
    ]

    pub Holds-entered_inside :
        col < width → Holds row (suc col) (update_lines (2 * rx + 1) (2 * ry + 1) col shifted)
    Holds-entered_inside m = record {
      lines_old = λ a c y z l n e o.
          line_buff-update_lines (2 * rx + 1) (2 * ry + 1) col shifted a c (omega arith)
          ∙ rw (≢→== c col (omega arith)) (h.lines_old a c y z (omega arith) n e o);
      lines_new = λ a c y z l n e o. elim (Bool-cases (c == col)) [
        | inl e' ↦
            line_buff-update_lines (2 * rx + 1) (2 * ry + 1) col shifted a c (omega arith)
            ∙ rw (e', ==→≡ c col e') (newest (a + 1) y m (omega arith) (omega arith) o)
        | inr e' ↦
            line_buff-update_lines (2 * rx + 1) (2 * ry + 1) col shifted a c (omega arith)
            ∙ rw e' (h.lines_new a c y z (ground arith) n e o)
      ];
      shown = λ a j y x z k e o f q.
          win_tmp-update_lines (2 * rx + 1) (2 * ry + 1) col shifted a j z
          ∙ (elim (Bool-cases (j == 2 * rx + 1 - 1)) [
            | inl e' ↦ let here : x ≡ col = ground arith in rw (e', here) (newest a y m z e o)
            | inr e' ↦ rw e' (moved_left a j y x z (ground arith) e o f q)
          ]);
    }

    Holds-entered_outside : width ≤ col → Holds row (suc col) shifted
    Holds-entered_outside out = record {
      lines_old = λ a c y z l n e o. absurd (omega arith);
      lines_new = λ a c y z l n e o. h.lines_new a c y z (omega arith) n e o;
      shown = λ a j y x z k e o f q. moved_left a j y x z (omega arith) e o f q;
    }

    Holds-entered : Holds row (suc col) entered
    Holds-entered = elim (Bool-cases (ltb col width)) [
      | inl m ↦ rw m (Holds-entered_inside (ltb→lt col width m))
      | inr out ↦ rw out (Holds-entered_outside (ltb→le col width out))
    ]

    in_pixel-entered : entered.in_pixel ≡ b.in_pixel
    in_pixel-entered = ground (arith, in_pixel-update_lines (2 * rx + 1) (2 * ry + 1) col shifted)

-- One step of the scan of an image of at least `2 * rx` columns and `2 * ry` lines, for every padding
-- mode but BORDER_CONST, where the step's row is below the height plus `ry` and its column below the
-- width plus `rx`, the last pixel read is that of the step if there is one, and the arrays hold what
-- the scan has entered: the step returns, keeps the contents and the last pixel, and if it computes pixel
-- `(y, x)`, the window shows the padded neighbourhood of that pixel.
pub refresh_lem {ℓ} :
    {A : Type ℓ} (img : ℕ → ℕ → A) (rx ry width height : ℕ) (padding : BorderPadding)
    → padding ≢ border_const
    → 2 * rx ≤ width
    → 2 * ry ≤ height
    → (row col : ℕ) (b : Buffers A) → row < height + ry
    → col < width + rx
    → (row < height → col < width → b.in_pixel ≡ img row col)
    → Holds img rx ry width height row col b
    → (t : Buffers A) × (refresh (2 * rx + 1) (2 * ry + 1) width height padding row col b ≡ done t)
      × Holds img rx ry width height row (suc col) t
      × (t.in_pixel ≡ b.in_pixel)
      × ((y x i j : ℕ)
          → row ≡ y + ry
          → col ≡ x + rx
          → i < 2 * ry + 1
          → j < 2 * rx + 1
          → t.win i j ≡ padded img rx ry width height padding y x i j)
unfolding refresh
refresh_lem img rx ry width height padding nc wide tall row col b in_rows in_cols input h =
    let e = entered img rx ry width height row col b in_rows in_cols input h in
    let held = Holds-entered img rx ry width height row col b in_rows in_cols input h in
    let (w, run_x, by_x) = border_x_lem padding nc rx ry width height col e.win_tmp e.win in_cols in
    let (w', run_y, by_y) = border_y_lem padding nc rx ry width height row w in_rows in
    (
      record e { win = w' },
      rw (enter_lem img rx ry width height row col b in_rows in_cols input h, run_x, run_y),
      record { lines_old = held.lines_old; lines_new = held.lines_new; shown = held.shown },
      in_pixel-entered img rx ry width height row col b in_rows in_cols input h,
      λ y x i j at_row at_col z k.
          let y_in : y < height = omega arith in
          let x_in : x < width = omega arith in
          let from_y : source_index padding ry height y i + (2 * ry + 1)
              ≡ suc row + entry_read padding ry i row height =
            rw at_row (entry_read-source padding ry height y i nc y_in tall z) in
          let from_x : source_index padding rx width x j + (2 * rx + 1)
              ≡ suc col + entry_read padding rx j col width =
            rw at_col (entry_read-source padding rx width x j nc x_in wide k) in
          let line_in = entry_read-lt padding ry i row height nc in_rows z in
          by_y i j z k
          ∙ by_x (entry_read padding ry i row height) j line_in k
          ∙ held.shown (entry_read padding ry i row height) (entry_read padding rx j col width)
              (source_index padding ry height y i) (source_index padding rx width x j) line_in
              (entry_read-lt padding rx j col width nc in_cols k) (omega arith)
              (source_index-lt padding ry height y i nc y_in tall z) from_x
              (source_index-lt padding rx width x j nc x_in wide k),
    )
