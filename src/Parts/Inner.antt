-- ===== src/Parts/Inner.antt =====
-- runtime/hipacc_vivado_filter.hpp, `processC` on a part of an image, with its columns left and right.
pub mod Flush
pub mod Image
use hipacc_vivado.Prelude.{
  ℕ, zero, suc, ◌+◌, ◌-◌, ◌*◌, ◌/◌, ◌%◌, ◌≤◌, ◌<◌, ◌≡◌, ◌≢◌, refl, sym, ap, ◌∙◌, arith, ltb, leb,
  true, ◌&&◌, ◌||◌, le→leb, lt→ltb, ≡→==, Bool-cases, inl, inr, if◌then◌else◌, Outcome, done, ◌>>=◌,
  for_up, for_up_inv, for_up-after, List, [], ◌∷◌, ◌++◌, append_assoc, tabulate, tabulate-cong,
  replicate, gather, gather-cong, subst,
}
use hipacc_vivado.Border.{BorderPadding, border_const}
use hipacc_vivado.Window.{Buffers}
use hipacc_vivado.Window.Borders.{half_odd}
use hipacc_vivado.Window.Contents.{Holds, Holds-start, Holds-next_line}
use hipacc_vivado.Local.{Streams}
use hipacc_vivado.Local.Images.{
  raster, left, left-next, left-line, left-start, left-end, sofar, sofar-next, sofar-skip,
  sofar-line, sofar-lines, sofar-start,
}
use hipacc_vivado.Parts.{enter_part, inner_input, inner_step}
use hipacc_vivado.Parts.Moves.{
  inner_neighbourhood, moved, moved-Holds, enter_part-moved, array-inner_neighbourhood,
}
use hipacc_vivado.Parts.Inner.Flush.{inner_borders_lem}

module _ {A B : Type 0} (img : ℕ → ℕ → A) (max_width max_height r width height : ℕ)
    (filter : List (List A) → B) (padding : BorderPadding) (rest : List A) (before : List B)
    (nc : padding ≢ border_const) (tall : 2 * r < height) (wide : 0 < width)
    (fits : width ≤ max_width) where
  abbrev incoming : ℕ → ℕ → List A
  incoming = left (width + 2 * r) height (λ y x. img y x ∷ []) rest

  abbrev outgoing : ℕ → ℕ → List B
  outgoing =
      sofar (2 * r) r width height
        (λ y x. filter (inner_neighbourhood img r height padding y x) ∷ []) before

  abbrev At : ℕ → ℕ → Buffers A × Streams A B → Type 0
  At row col (b, t) =
      Holds img r r (width + 2 * r) height row col b
      × (t ≡ record { in_s = incoming row col; out_s = outgoing row col })

  abbrev step : ℕ → ℕ → Buffers A × Streams A B → Outcome (Buffers A × Streams A B)
  step = inner_step max_width max_height (2 * r + 1) width height filter padding

  module _ (row col : ℕ) (in_rows : row < height) (in_cols : col < width + 2 * r) (b : Buffers A)
      (h : Holds img r r (width + 2 * r) height row col b) where
    abbrev fed : Buffers A
    fed = record b { in_pixel = img row col }

    fed-Holds : Holds img r r (width + 2 * r) height row col fed
    fed-Holds = record { lines_old = h.lines_old; lines_new = h.lines_new; shown = h.shown }

    abbrev next : Buffers A
    next =
        moved img r (width + 2 * r) height row col (omega arith) in_cols fed (λ y x. refl) fed-Holds

    input_lem :
        (t : Streams A B)
        → t ≡ record { in_s = incoming row col; out_s = outgoing row col }
        → inner_input max_width max_height (2 * r + 1) width height filter padding row col (b, t)
          ≡ done (next, record { in_s = incoming row (suc col); out_s = outgoing row col })
    unfolding inner_input
    input_lem t is =
        let inside : (ltb col (width + 2 * r) && ltb row height) ≡ true = ground arith in
        rw (
          half_odd r,
          is,
          inside,
          left-next (width + 2 * r) height (λ y x. img y x ∷ []) rest row col inside,
          enter_part-moved img r (width + 2 * r) height row col (omega arith) in_cols fed
              (λ y x. refl) fed-Holds (max_width + 2 * r) (omega arith),
        )

    step_lem :
        (t : Streams A B)
        → t ≡ record { in_s = incoming row col; out_s = outgoing row col }
        → (s : Buffers A × Streams A B) × (step row col (b, t) ≡ done s) × At row (suc col) s
    unfolding inner_step
    step_lem t is =
        let (w, ran, filled) =
          inner_borders_lem max_width max_height r width height filter padding nc row next.win_tmp
            next.win (omega arith) in
        let m =
          moved-Holds img r (width + 2 * r) height row col (omega arith) in_cols fed (λ y x. refl)
            fed-Holds in
        (
          (
            record next { win = w },
            record { in_s = incoming row (suc col); out_s = outgoing row (suc col) },
          ),
          rw (input_lem t is, half_odd r, ran)
              (elim (Bool-cases (leb r row && leb (2 * r) col)) [
                | inl writes ↦ rw (
                  writes,
                  array-inner_neighbourhood img r (width + 2 * r) height row col (omega arith)
                      in_cols fed (λ y x. refl) fed-Holds padding w nc (omega arith) (ground arith)
                      (ground arith) filled,
                  sofar-next (2 * r) r width height
                      (λ y x. filter (inner_neighbourhood img r height padding y x) ∷ []) before row
                      col writes,
                )
                | inr waits ↦ rw (
                  waits,
                  sofar-skip (2 * r) r width height
                      (λ y x. filter (inner_neighbourhood img r height padding y x) ∷ []) before row
                      col waits,
                )
              ]),
          (record { lines_old = m.lines_old; lines_new = m.lines_new; shown = m.shown }, refl),
        )

  -- The window after line `row - 1`.
  abbrev Last : ℕ → Buffers A → Type 0
  Last row b =
      (a j y x : ℕ)
      → a < 2 * r + 1
      → j < 2 * r + 1
      → y + 2 * r + 1 ≡ row + a
      → y < height
      → x + 1 ≡ width + j
      → x < width + 2 * r
      → b.win_tmp a j ≡ img y x

  line_lem :
      (row : ℕ) (s : Buffers A × Streams A B)
      → row < height
      → At row 0 s
      → (s' : Buffers A × Streams A B) × (for_up (width + 2 * r) 0 (step row) s ≡ done s')
        × (At (suc row) 0 s' × Last (suc row) s'.0)
  line_lem row s in_rows at =
      let (s', ran, (h, is)) =
        for_up_inv (At row) (step row) (width + 2 * r) 0 (width + 2 * r) (omega arith)
          (λ col u l in_cols a. step_lem row col in_rows in_cols u.0 a.0 u.1 a.1) s at in
      (
        s',
        ran,
        (
          (
            Holds-next_line img r r (width + 2 * r) height row (width + 2 * r) s'.0 (omega arith) h,
            is
                ∙ rw (
                  left-line (width + 2 * r) height (λ y x. img y x ∷ []) rest row (width + 2 * r)
                      (omega arith),
                  sofar-line (2 * r) r width height
                      (λ y x. filter (inner_neighbourhood img r height padding y x) ∷ []) before
                      row,
                ),
          ),
          λ a j y x z k e o f q. h.shown a j y x z k (omega arith) o (omega arith) q,
        ),
      )

  pub read_lem :
      (b : Buffers A)
      → (s : Buffers A × Streams A B) × (for_up height 0
            (λ row. for_up (width + 2 * r) 0 (step row))
            (
              b,
              record {
                in_s = raster height (width + 2 * r) (λ y x. img y x ∷ []) ++ rest;
                out_s = before;
              },
            )
          ≡ done s)
        × (At height 0 s × Last height s.0)
  read_lem b =
      for_up_inv (λ row s. At row 0 s × Last row s.0) _ height 0 height (omega arith)
        (λ row s l in_rows at. line_lem row s in_rows at.0) _
        (
          (
            Holds-start img r r (width + 2 * r) height b,
            rw (
              left-start (width + 2 * r) height (λ y x. img y x ∷ []) rest,
              sofar-start (2 * r) r width height
                  (λ y x. filter (inner_neighbourhood img r height padding y x) ∷ []) before,
            ),
          ),
          λ a j y x z k e o f q. absurd (omega arith),
        )
