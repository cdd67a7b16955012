-- ===== src/Parts/Inner/Flush.antt =====
-- runtime/hipacc_vivado_filter.hpp, `processC` below the last line of its part, where no pixel is read
-- and the window stands still.
use hipacc_vivado.Prelude.{
  ℕ, ◌+◌, ◌*◌, ◌≤◌, ◌<◌, ◌≡◌, ◌≢◌, refl, ap, ◌∙◌, arith, ltb, leb, ◌&&◌, le→leb, false, true,
  Bool-cases, inl, inr, if◌then◌else◌, Outcome, done, for_up, for_up-after, ≡→==, ◌%◌, List, [],
  ◌∷◌, ◌++◌, append-nil, tabulate, tabulate-cong, replicate, gather, gather-cong, gather-skip,
  gather-replicate,
}
use hipacc_vivado.Border.{BorderPadding, border_const}
use hipacc_vivado.Border.Bounds.{entry_read}
use hipacc_vivado.Window.{Buffers, array}
use hipacc_vivado.Window.Borders.{half_odd, read_coord}
use hipacc_vivado.Window.Table.{table_lem}
use hipacc_vivado.Local.{Streams}
use hipacc_vivado.Parts.Standing.{standing_lem}
use hipacc_vivado.Parts.{inner_entry, inner_borders, inner_input, inner_step, process_c}

module _ {A B : Type 0} (max_width max_height r width height : ℕ) (filter : List (List A) → B)
    (padding : BorderPadding) (nc : padding ≢ border_const) where
  pub inner_borders_lem :
      (row : ℕ) (w_tmp w : ℕ → ℕ → A)
      → row < height + r
      → (t : ℕ → ℕ → A) × (inner_borders (2 * r + 1) height padding row w_tmp w ≡ done t)
        × ((a b : ℕ)
            → a < 2 * r + 1
            → b < 2 * r + 1
            → t a b ≡ w_tmp (entry_read padding r a row height) b)
  unfolding inner_borders inner_entry
  inner_borders_lem row w_tmp w step =
      table_lem (2 * r + 1) (2 * r + 1) _ (λ a b. w_tmp (entry_read padding r a row height) b) w
        (λ i j u y z inv. rw (read_coord padding nc r i row height (λ a. w_tmp a j) step y))

  -- The filter of the window that stands still, with the lines that `getNewCoords` picks for `row`.
  abbrev pub still : (ℕ → ℕ → A) → ℕ → B
  still w_tmp row = filter (
      tabulate (2 * r + 1) 0
        (λ i. tabulate (2 * r + 1) 0 (w_tmp (entry_read padding r i row height))))

  abbrev step : ℕ → ℕ → Buffers A × Streams A B → Outcome (Buffers A × Streams A B)
  step = inner_step max_width max_height (2 * r + 1) width height filter padding

  -- What a step below the last line adds.
  abbrev added : (ℕ → ℕ → A) → ℕ → ℕ → List B
  added w_tmp row col = if leb (2 * r) col then still w_tmp row ∷ [] else []

  step_lem :
      (row col : ℕ) (b : Buffers A) (t : Streams A B)
      → height ≤ row
      → r ≤ row
      → row < height + r
      → (b' : Buffers A) × (step row col (b, t)
          ≡ done (b', record t { out_s = t.out_s ++ added b.win_tmp row col }))
        × (b'.win_tmp ≡ b.win_tmp)
  unfolding inner_step inner_input array
  step_lem row col b t below wide in_rows =
      let outside : (ltb col (width + 2 * r) && ltb row height) ≡ false = ground arith in
      let (w, ran, filled) = inner_borders_lem row b.win_tmp b.win in_rows in
      (
        record b { win = w },
        rw (half_odd r, outside, ran, le→leb r row wide)
            (elim (Bool-cases (leb (2 * r) col)) [
              | inl writes ↦ rw writes (
                  ap
                    (λ n.
                      done (record b { win = w }, record t { out_s = t.out_s ++ filter n ∷ [] }))
                    (tabulate-cong (2 * r + 1) 0 _ _ (λ i l u.
                      tabulate-cong (2 * r + 1) 0 _ _
                        (λ j l' u'. filled i j (omega arith) (omega arith)))))
              | inr waits ↦ rw (waits, append-nil)
            ]),
        refl,
      )

  added-line :
      (w_tmp : ℕ → ℕ → A) (row : ℕ)
      → gather (width + 2 * r) 0 (added w_tmp row) ≡ replicate width (still w_tmp row)
  added-line w_tmp row =
      gather-skip (2 * r) width (width + 2 * r) 0 (2 * r) (added w_tmp row) (omega arith)
        (omega arith) (λ k l u. (let waits : leb (2 * r) k ≡ false = ground arith in rw waits))
      ∙ gather-cong width (2 * r) _ _
          (λ k l u. (let writes : leb (2 * r) k ≡ true = ground arith in rw writes))
      ∙ gather-replicate width (2 * r) (still w_tmp row)

  pub lines_lem :
      (b : Buffers A) (t : Streams A B)
      → r ≤ height
      → (s : Buffers A × Streams A B) × (for_up r height
            (λ row. for_up (width + 2 * r) 0 (step row))
            (b, t)
          ≡ done s)
        × (s.1 ≡ record t {
          out_s = t.out_s ++ gather r height (λ row. replicate width (still b.win_tmp row));
        })
  lines_lem b t tall =
      let (s, ran, out) =
        standing_lem r (width + 2 * r) height step added
          (λ row col b t below in_rows in_cols. step_lem row col b t below (omega arith) in_rows) b
          t in
      (
        s,
        ran,
        out
            ∙ ap (λ l. record t { out_s = t.out_s ++ l })
                (gather-cong r height _ _ (λ row l u. added-line b.win_tmp row)),
      )

-- For every padding mode but BORDER_CONST, a part of at least `r` lines that fits, and a kernel of
-- `2 * r + 1` lines: if the iterations of `processC` that read the part return, `processC` returns, and
-- the `r` lines that it writes then are each of one value. It is the filter of the window as the last
-- pixel left it, of which the lines, and not the columns, are picked anew.
pub process_c-flush :
    {A B : Type 0} (max_width max_height r width height : ℕ) (filter : List (List A) → B)
    (padding : BorderPadding) (s : Buffers A × Streams A B) (b : Buffers A) (t : Streams A B)
    → padding ≢ border_const
    → r ≤ height
    → width ≤ max_width
    → height ≤ max_height
    → for_up height 0
        (λ row.
          for_up
            (width + 2 * r)
            0
            (inner_step max_width max_height (2 * r + 1) width height filter padding row))
        s
      ≡ done (b, t)
    → (b' : Buffers A) × (process_c max_width max_height (2 * r + 1) width height filter padding s
        ≡ done (
          b',
          record t {
            out_s =
                t.out_s
                ++ gather r height (λ row. replicate width (
                    filter (
                      tabulate (2 * r + 1) 0 (λ i.
                        tabulate (2 * r + 1) 0 (b.win_tmp (entry_read padding r i row height))))));
          },
        ))
unfolding process_c
process_c-flush max_width max_height r width height filter padding s b t nc tall fits_x fits_y
      read =
    let ((b', t'), ran, out) =
      lines_lem max_width max_height r width height filter padding nc b t tall in
    (
      b',
      rw
          (
            half_odd r,
            le→leb width (max_width + 2 * r) (omega arith),
            le→leb height (max_height + r) (omega arith),
            ≡→== ((2 * r + 1) % 2) 1 (omega arith),
          )
          (for_up-after _ height r (height + r) 0 height s (b, t) refl (omega arith) read
            ∙ ran
            ∙ ap (λ u. done (b', u)) out),
    )
