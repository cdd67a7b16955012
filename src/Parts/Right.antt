-- ===== src/Parts/Right.antt =====
-- runtime/hipacc_vivado_filter.hpp, `processR` on the right part of an image, with its columns left.
pub mod Image
use hipacc_vivado.Prelude.{
  ℕ, suc, ◌+◌, ◌-◌, ◌*◌, ◌%◌, ◌≤◌, ◌<◌, ◌≡◌, ◌≢◌, refl, ap, ◌∙◌, arith, ltb, leb, true, false, ◌&&◌,
  le→leb, ≡→==, lt→ltb, Bool-cases, inl, inr, if◌then◌else◌, Outcome, done, for_up, for_up_inv,
  List, [], ◌∷◌, ◌++◌,
}
use hipacc_vivado.Prelude.Int.{pos, pos_part}
use hipacc_vivado.Border.{BorderPadding, border_const}
use hipacc_vivado.Border.Coords.{middle_exit}
use hipacc_vivado.Border.Bounds.{entry_read, entry_read-lt}
use hipacc_vivado.Window.{Buffers, array, update_lines}
use hipacc_vivado.Window.Borders.{half_odd, border_x_lem, border_y_lem}
use hipacc_vivado.Window.Contents.{Holds, Holds-start, Holds-next_line}
use hipacc_vivado.Local.{Streams}
use hipacc_vivado.Local.Images.{
  raster, left, left-next, left-skip, left-line, left-start, left-end, sofar, sofar-next,
  sofar-skip, sofar-line, sofar-start, sofar-end,
}
use hipacc_vivado.Parts.{right_input, right_enter, right_step, process_r}
use hipacc_vivado.Parts.Moves.{
  inner_neighbourhood, moved, moved-Holds, enter_part-moved, array-inner_neighbourhood,
}

-- An image of `columns` columns whose last column goes on to the right.
abbrev pub extended : {A : Type 0} → ℕ → (ℕ → ℕ → A) → ℕ → ℕ → A
extended columns img y x = if ltb x columns then img y x else img y (columns - 1)

extended-last :
    {A : Type 0} (columns : ℕ) (img : ℕ → ℕ → A) (y c : ℕ)
    → 0 < columns
    → columns ≤ suc c
    → extended columns img y c ≡ extended columns img y (suc c)
extended-last columns img y c some over =
    let past : ltb (suc c) columns ≡ false = ground arith in
    rw past (elim (Bool-cases (ltb c columns)) [
      | inl m ↦ let last : c ≡ columns - 1 = ground arith in rw (m, last)
      | inr m ↦ rw m
    ])

-- Away from the borders of a line `getNewCoords` names the entry itself.
entry_read-middle :
    (padding : BorderPadding) (r i col n : ℕ)
    → 2 * r ≤ col
    → col < n
    → entry_read padding r i col n ≡ i
entry_read-middle padding r i col n l u = rw (middle_exit padding r i col n (inr l) u)

module _ {A B : Type 0} (img : ℕ → ℕ → A) (max_width max_height r width height : ℕ)
    (filter : List (List A) → B) (padding : BorderPadding) (rest : List A) (before : List B)
    (nc : padding ≢ border_const) (tall : 2 * r ≤ height) (wide : 0 < width)
    (fits : width ≤ max_width) where
  abbrev pub ext : ℕ → ℕ → A
  ext = extended (width + r) img

  abbrev pub incoming : ℕ → ℕ → List A
  incoming = left (width + r) height (λ y x. img y x ∷ []) rest

  abbrev pub outgoing : ℕ → ℕ → List B
  outgoing =
      sofar (2 * r) r width height
        (λ y x. filter (inner_neighbourhood ext r height padding y x) ∷ []) before

  abbrev pub At : ℕ → ℕ → Buffers A × Streams A B → Type 0
  At row col (b, t) =
      Holds ext r r (width + 2 * r) height row col b
      × (((c : ℕ) → row < height → col ≡ suc c → b.in_pixel ≡ ext row c)
          × (t ≡ record { in_s = incoming row col; out_s = outgoing row col }))

  abbrev pub step : ℕ → ℕ → Buffers A × Streams A B → Outcome (Buffers A × Streams A B)
  step = right_step max_width max_height (2 * r + 1) width height filter padding

  -- The input leaves the pixel of this column, or the last one read.
  input_lem :
      (row col : ℕ) (b : Buffers A) (t : Streams A B)
      → At row col (b, t)
      → (b' : Buffers A) × (right_input max_width max_height
            (2 * r + 1)
            width
            height
            filter
            padding
            row
            col
            (b, t)
          ≡ done (b', record { in_s = incoming row (suc col); out_s = outgoing row col }))
        × (row < height → b'.in_pixel ≡ ext row col)
        × Holds ext r r (width + 2 * r) height row col b'
  unfolding right_input
  input_lem row col b t (h, (fresh, is)) =
      elim (Bool-cases (ltb col (width + r) && ltb row height)) [
        | inl inside ↦
            let in_line : ltb col (width + r) ≡ true = ground arith in
            (
              record b { in_pixel = img row col },
              rw (
                half_odd r,
                is,
                inside,
                left-next (width + r) height (λ y x. img y x ∷ []) rest row col inside,
              ),
              λ l. rw in_line,
              record { lines_old = h.lines_old; lines_new = h.lines_new; shown = h.shown },
            )
        | inr outside ↦ (
          b,
          rw (
            half_odd r,
            is,
            outside,
            left-skip (width + r) height (λ y x. img y x ∷ []) rest row col outside,
          ),
          λ l.
              (let before_col : col ≡ suc (col - 1) = ground arith in
                fresh (col - 1) l before_col
                ∙ extended-last (width + r) img row (col - 1) (omega arith) (ground arith)
                ∙ rw (← before_col)),
          h,
        )
      ]

  -- The window and the line buffer move on in every step.
  module _ (row col : ℕ) (in_rows : row < height + r) (in_cols : col < width + 2 * r)
      (b : Buffers A) (input : row < height → b.in_pixel ≡ ext row col)
      (h : Holds ext r r (width + 2 * r) height row col b) where
    abbrev next : Buffers A
    next = moved ext r (width + 2 * r) height row col in_rows in_cols b (λ l u. input l) h

    enter_lem :
        right_enter max_width max_height (2 * r + 1) width height filter padding row col b
        ≡ done next
    unfolding right_enter
    enter_lem =
        let inside : (ltb col (width + 2 * r) && ltb row (height + r)) ≡ true = ground arith in
        rw (
          half_odd r,
          inside,
          enter_part-moved ext r (width + 2 * r) height row col in_rows in_cols b (λ l u. input l) h
              (max_width + 2 * r) (omega arith),
        )

    next-Holds : Holds ext r r (width + 2 * r) height row (suc col) next
    next-Holds =
        moved-Holds ext r (width + 2 * r) height row col in_rows in_cols b (λ l u. input l) h

    next-in_pixel : (c : ℕ) → row < height → col ≡ c → next.in_pixel ≡ ext row c
    unfolding update_lines
    next-in_pixel c l e = rw (← e) (input l)

    array_lem :
        (w w' : ℕ → ℕ → A)
        → r ≤ row
        → 2 * r ≤ col
        → ((i j : ℕ)
            → i < 2 * r + 1
            → j < 2 * r + 1
            → w i j ≡ next.win_tmp i (entry_read padding r j col (width + 2 * r)))
        → ((i j : ℕ)
            → i < 2 * r + 1
            → j < 2 * r + 1
            → w' i j ≡ w (entry_read padding r i row height) j)
        → array (2 * r + 1) (2 * r + 1) w'
          ≡ inner_neighbourhood ext r height padding (row - r) (col - 2 * r)
    array_lem w w' begun across by_x by_y =
        array-inner_neighbourhood ext r (width + 2 * r) height row col in_rows in_cols b
          (λ l u. input l) h padding w' nc tall begun across
          (λ i j tap tap'.
            by_y i j tap tap'
            ∙ by_x (entry_read padding r i row height) j
                (entry_read-lt padding r i row height nc in_rows tap) tap'
            ∙ rw (entry_read-middle padding r j col (width + 2 * r) across in_cols))

  pub step_lem :
      (row col : ℕ) (s : Buffers A × Streams A B)
      → row < height + r
      → col < width + 2 * r
      → At row col s
      → (s' : Buffers A × Streams A B) × (step row col s ≡ done s') × At row (suc col) s'
  unfolding right_step
  step_lem row col (b, t) in_rows in_cols at =
      let (b', read, fresh, h) = input_lem row col b t at in
      let n = next row col in_rows in_cols b' fresh h in
      let (w, run_x, by_x) =
        border_x_lem padding nc r r (width + 2 * r) height col n.win_tmp n.win (omega arith) in
      let (w', run_y, by_y) = border_y_lem padding nc r r width height row w in_rows in
      let held = next-Holds row col in_rows in_cols b' fresh h in
      (
        (
          record n { win = w' },
          record { in_s = incoming row (suc col); out_s = outgoing row (suc col) },
        ),
        rw (read, enter_lem row col in_rows in_cols b' fresh h, half_odd r, run_x, run_y)
            (elim (Bool-cases (leb r row && leb (2 * r) col)) [
              | inl writes ↦ rw (
                writes,
                array_lem row col in_rows in_cols b' fresh h w w' (ground arith) (ground arith) by_x
                    by_y,
                sofar-next (2 * r) r width height
                    (λ y x. filter (inner_neighbourhood ext r height padding y x) ∷ []) before row
                    col writes,
              )
              | inr waits ↦ rw (
                waits,
                sofar-skip (2 * r) r width height
                    (λ y x. filter (inner_neighbourhood ext r height padding y x) ∷ []) before row
                    col waits,
              )
            ]),
        (
          record { lines_old = held.lines_old; lines_new = held.lines_new; shown = held.shown },
          (λ c l e. next-in_pixel row col in_rows in_cols b' fresh h c l (omega arith), refl),
        ),
      )
