-- ===== src/Parts/Left.antt =====
-- runtime/hipacc_vivado_filter.hpp, `processL` on the left part of an image, with its columns right: the
-- lines of the part.
pub mod Lines
pub mod Flush
pub mod Image
use hipacc_vivado.Prelude.{
  ℕ, suc, ◌+◌, ◌-◌, ◌*◌, ◌≤◌, ◌<◌, ◌≡◌, ◌≢◌, refl, ◌∙◌, arith, ltb, leb, true, false, ◌&&◌,
  Bool-cases, inl, inr, if◌then◌else◌, Outcome, done, for_up, for_up_inv, List, [], ◌∷◌, ◌++◌,
  tabulate-cong,
}
use hipacc_vivado.Border.{BorderPadding, border_const}
use hipacc_vivado.Border.Bounds.{entry_read, entry_read-lt}
use hipacc_vivado.Border.Source.{source_index, source_index-lt}
use hipacc_vivado.Window.{Buffers, array}
use hipacc_vivado.Window.Borders.{half_odd, border_x_lem, border_y_lem}
use hipacc_vivado.Window.Contents.{Holds, Holds-start, Holds-next_line}
use hipacc_vivado.Local.{Streams}
use hipacc_vivado.Local.Scan.{neighbourhood}
use hipacc_vivado.Local.Images.{
  raster, left, left-next, left-line, left-start, sofar, sofar-next, sofar-skip, sofar-line,
  sofar-start,
}
use hipacc_vivado.Parts.{left_input, left_step}
use hipacc_vivado.Parts.Moves.{moved, moved-Holds, enter_part-moved, entry_read-line}

-- The columns that have been read before step `col`.
abbrev pub columns_read : ℕ → ℕ → ℕ
columns_read columns col = if ltb col columns then col else columns

module _ {A B : Type 0} (img : ℕ → ℕ → A) (max_width max_height r width height : ℕ)
    (filter : List (List A) → B) (padding : BorderPadding) (rest : List A) (before : List B)
    (nc : padding ≢ border_const) (tall : 2 * r < height) (wide : r < width)
    (fits : width ≤ max_width) where
  abbrev pub incoming : ℕ → ℕ → List A
  incoming = left (width + r) height (λ y x. img y x ∷ []) rest

  abbrev pub outgoing : ℕ → ℕ → List B
  outgoing =
      sofar r r width height
        (λ y x. filter (neighbourhood img r r (width + r) height padding y x) ∷ []) before

  -- After `c` pixels of line `row`.
  abbrev pub At : ℕ → ℕ → Buffers A × Streams A B → Type 0
  At row c (b, t) =
      Holds img r r (width + r) height row c b
      × (t ≡ record { in_s = incoming row c; out_s = outgoing row c })

  abbrev step : ℕ → ℕ → Buffers A × Streams A B → Outcome (Buffers A × Streams A B)
  step = left_step max_width max_height (2 * r + 1) width height filter padding

  module _ (row col : ℕ) (in_rows : row < height) (b : Buffers A) where
    module _ (in_cols : col < width + r) (h : Holds img r r (width + r) height row col b) where
      abbrev fed : Buffers A
      fed = record b { in_pixel = img row col }

      fed-Holds : Holds img r r (width + r) height row col fed
      fed-Holds = record { lines_old = h.lines_old; lines_new = h.lines_new; shown = h.shown }

      abbrev next : Buffers A
      next =
          moved img r (width + r) height row col (omega arith) in_cols fed (λ y x. refl) fed-Holds

      next-Holds : Holds img r r (width + r) height row (suc col) next
      next-Holds =
          moved-Holds img r (width + r) height row col (omega arith) in_cols fed (λ y x. refl)
            fed-Holds

      input_lem :
          (t : Streams A B)
          → t ≡ record { in_s = incoming row col; out_s = outgoing row col }
          → left_input max_width max_height (2 * r + 1) width height filter padding row col (b, t)
            ≡ done (next, record { in_s = incoming row (suc col); out_s = outgoing row col })
      unfolding left_input
      input_lem t is =
          let inside : (ltb col (width + r) && ltb row height) ≡ true = ground arith in
          rw (
            half_odd r,
            is,
            inside,
            left-next (width + r) height (λ y x. img y x ∷ []) rest row col inside,
            enter_part-moved img r (width + r) height row col (omega arith) in_cols fed
                (λ y x. refl) fed-Holds (max_width + r) (omega arith),
          )

      array_lem :
          (w w' : ℕ → ℕ → A)
          → r ≤ row
          → r ≤ col
          → ((i j : ℕ)
              → i < 2 * r + 1
              → j < 2 * r + 1
              → w i j ≡ next.win_tmp i (entry_read padding r j col (width + r)))
          → ((i j : ℕ)
              → i < 2 * r + 1
              → j < 2 * r + 1
              → w' i j ≡ w (entry_read padding r i row height) j)
          → array (2 * r + 1) (2 * r + 1) w'
            ≡ neighbourhood img r r (width + r) height padding (row - r) (col - r)
      unfolding array
      array_lem w w' begun across by_x by_y = tabulate-cong (2 * r + 1) 0 _ _ (λ i l u.
          tabulate-cong (2 * r + 1) 0 _ _ (λ j l' u'.
            let (tap, tap') : (i < 2 * r + 1) × (j < 2 * r + 1) = (omega arith, omega arith) in
            let from_y =
              entry_read-line padding r height row i nc (omega arith) begun (omega arith) tap in
            let from_x =
              entry_read-line padding r (width + r) col j nc (omega arith) across (omega arith)
                tap' in
            let line_in = entry_read-lt padding r i row height nc (omega arith) tap in
            by_y i j tap tap'
            ∙ by_x (entry_read padding r i row height) j line_in tap'
            ∙ next-Holds.shown (entry_read padding r i row height)
                (entry_read padding r j col (width + r)) (source_index padding r height (row - r) i)
                (source_index padding r (width + r) (col - r) j) line_in
                (entry_read-lt padding r j col (width + r) nc (omega arith) tap') (omega arith)
                (source_index-lt padding r height (row - r) i nc (omega arith) (omega arith) tap)
                from_x
                (source_index-lt padding r (width + r) (col - r) j nc (omega arith) (omega arith)
                  tap')))

      pub read_step :
          (t : Streams A B)
          → t ≡ record { in_s = incoming row col; out_s = outgoing row col }
          → (s : Buffers A × Streams A B) × (step row col (b, t) ≡ done s) × At row (suc col) s
      unfolding left_step
      read_step t is =
          let (w, run_x, by_x) =
            border_x_lem padding nc r r (width + r) height col next.win_tmp next.win
              (omega arith) in
          let (w', run_y, by_y) = border_y_lem padding nc r r width height row w (omega arith) in
          let m = next-Holds in
          let within : ltb col (width + r) ≡ true = ground arith in
          (
            (
              record next { win = w' },
              record { in_s = incoming row (suc col); out_s = outgoing row (suc col) },
            ),
            rw (input_lem t is, half_odd r, run_x, run_y, within)
                (elim (Bool-cases (leb r row && leb r col)) [
                  | inl writes ↦
                      let guard : (leb r row && (leb r col && true)) ≡ true = ground arith in
                      rw (
                        guard,
                        array_lem w w' (ground arith) (ground arith) by_x by_y,
                        sofar-next r r width height
                            (λ y x.
                              filter (neighbourhood img r r (width + r) height padding y x) ∷ [])
                            before row col writes,
                      )
                  | inr waits ↦
                      let guard : (leb r row && (leb r col && true)) ≡ false = ground arith in
                      rw (
                        guard,
                        sofar-skip r r width height
                            (λ y x.
                              filter (neighbourhood img r r (width + r) height padding y x) ∷ [])
                            before row col waits,
                      )
                ]),
            (record { lines_old = m.lines_old; lines_new = m.lines_new; shown = m.shown }, refl),
          )

    -- Right of the part the arrays and the streams stay.
    pub idle_step :
        (t : Streams A B)
        → width + r ≤ col
        → col < width + 2 * r
        → (w : ℕ → ℕ → A) × (step row col (b, t) ≡ done (record b { win = w }, t))
    unfolding left_step left_input
    idle_step t out in_cols =
        let (w, run_x, by_x) =
          border_x_lem padding nc r r (width + r) height col b.win_tmp b.win (omega arith) in
        let (w', run_y, by_y) = border_y_lem padding nc r r width height row w (omega arith) in
        let past : ltb col (width + r) ≡ false = ground arith in
        let guard : (leb r row && (leb r col && false)) ≡ false = ground arith in
        (w', rw (half_odd r, past, run_x, run_y, guard))
