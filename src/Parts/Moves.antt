-- ===== src/Parts/Moves.antt =====
-- runtime/hipacc_vivado_filter.hpp, `processL`, `processC` and `processR`: the window of a part after a
-- pixel has been entered.
use hipacc_vivado.Prelude.{
  ℕ, suc, ◌+◌, ◌-◌, ◌*◌, ◌<◌, ◌≤◌, ◌≡◌, ◌≢◌, sym, ◌∙◌, arith, ltb, leb, true, ◌||◌, done, List,
  tabulate, tabulate-cong, subst,
}
use hipacc_vivado.Border.{BorderPadding, border_const}
use hipacc_vivado.Border.Bounds.{entry_read, entry_read-lt}
use hipacc_vivado.Border.Source.{source_index, source_index-lt, entry_read-source}
use hipacc_vivado.Window.{Buffers, array, update_lines, shift_window}
use hipacc_vivado.Window.Contents.{Holds, Holds-entered_inside}
use hipacc_vivado.Parts.{enter_part}

-- The neighbourhood of pixel `(y, x)` of a part, which arrives with `r` further columns on each side:
-- only lines are padded.
abbrev pub inner_neighbourhood :
    {A : Type 0} → (ℕ → ℕ → A) → ℕ → ℕ → BorderPadding → ℕ → ℕ → List (List A)
inner_neighbourhood img r height padding y x =
    tabulate (2 * r + 1) 0
      (λ i. tabulate (2 * r + 1) 0 (λ j. img (source_index padding r height y i) (x + j)))

-- The entry that `getNewCoords` names in step `row` holds line `row - r`, padded.
pub entry_read-line :
    (padding : BorderPadding) (r height row i : ℕ)
    → padding ≢ border_const
    → 2 * r ≤ height
    → r ≤ row
    → row < height + r
    → i < 2 * r + 1
    → source_index padding r height (row - r) i + (2 * r + 1)
      ≡ suc row + entry_read padding r i row height
entry_read-line padding r height row i nc tall begun in_rows tap =
    let at_row : row ≡ row - r + r = omega arith in
    subst
      (λ n.
        source_index padding r height (row - r) i + (2 * r + 1)
        ≡ suc n + entry_read padding r i n height)
      (sym at_row) (entry_read-source padding r height (row - r) i nc (omega arith) tall tap)

-- The last pixel read lies at `(row, col)`, where there is one.
module _ {A : Type 0} (img : ℕ → ℕ → A) (r columns height row col : ℕ) (in_rows : row < height + r)
    (in_cols : col < columns) (b : Buffers A)
    (input : row < height → col < columns → b.in_pixel ≡ img row col)
    (h : Holds img r r columns height row col b) where
  abbrev pub moved : Buffers A
  moved =
      update_lines (2 * r + 1) (2 * r + 1) col
        (record b { win_tmp = shift_window (2 * r + 1) (2 * r + 1) b.win_tmp })

  pub moved-Holds : Holds img r r columns height row (suc col) moved
  moved-Holds =
      Holds-entered_inside img r r columns height row col b in_rows (omega arith) input h in_cols

  pub enter_part-moved :
      (limit : ℕ) → columns ≤ limit → enter_part (2 * r + 1) limit col b ≡ done moved
  unfolding enter_part
  enter_part-moved limit fits =
      let bounds : (leb (2 * r + 1) 1 || ltb col limit) ≡ true = ground arith in rw bounds

  pub array-inner_neighbourhood :
      (padding : BorderPadding) (w : ℕ → ℕ → A)
      → padding ≢ border_const
      → 2 * r ≤ height
      → r ≤ row
      → 2 * r ≤ col
      → ((i j : ℕ)
          → i < 2 * r + 1
          → j < 2 * r + 1
          → w i j ≡ moved.win_tmp (entry_read padding r i row height) j)
      → array (2 * r + 1) (2 * r + 1) w
        ≡ inner_neighbourhood img r height padding (row - r) (col - 2 * r)
  unfolding array
  array-inner_neighbourhood padding w nc tall begun across filled =
      tabulate-cong (2 * r + 1) 0 _ _ (λ i l u. tabulate-cong (2 * r + 1) 0 _ _ (λ j l' u'.
        let tap : i < 2 * r + 1 = omega arith in
        let from = entry_read-line padding r height row i nc tall begun in_rows tap in
        filled i j tap (omega arith)
        ∙ moved-Holds.shown (entry_read padding r i row height) j
            (source_index padding r height (row - r) i) (col - 2 * r + j)
            (entry_read-lt padding r i row height nc in_rows tap) (omega arith) (omega arith)
            (source_index-lt padding r height (row - r) i nc (omega arith) tall tap) (omega arith)
            (omega arith)))
