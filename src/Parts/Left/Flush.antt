-- ===== src/Parts/Left/Flush.antt =====
-- runtime/hipacc_vivado_filter.hpp, `processL` below the last line of its part, where no pixel is read and
-- the window stands still.
use hipacc_vivado.Prelude.{
  ℕ, ◌+◌, ◌*◌, ◌≤◌, ◌<◌, ◌≡◌, ◌≢◌, refl, ap, ◌∙◌, arith, ltb, leb, ◌&&◌, true, false, le→leb,
  Bool-cases, inl, inr, if◌then◌else◌, Outcome, done, for_up, List, [], ◌∷◌, ◌++◌, append-nil,
  tabulate, tabulate-cong, gather, gather-cong, gather-skip, gather-cut,
}
use hipacc_vivado.Border.{BorderPadding, border_const}
use hipacc_vivado.Border.Bounds.{entry_read, entry_read-lt}
use hipacc_vivado.Window.{Buffers, array}
use hipacc_vivado.Window.Borders.{half_odd, border_x_lem, border_y_lem}
use hipacc_vivado.Local.{Streams}
use hipacc_vivado.Parts.{left_input, left_step}
use hipacc_vivado.Parts.Standing.{standing_lem}

module _ {A B : Type 0} (max_width max_height r width height : ℕ) (filter : List (List A) → B)
    (padding : BorderPadding) (nc : padding ≢ border_const) where
  -- The filter of the window that stands still, with the lines and columns that `getNewCoords` picks.
  abbrev pub still : (ℕ → ℕ → A) → ℕ → ℕ → B
  still w_tmp row col = filter (
      tabulate (2 * r + 1) 0 (λ i.
        tabulate (2 * r + 1) 0 (λ j.
          w_tmp (entry_read padding r i row height) (entry_read padding r j col (width + r)))))

  abbrev step : ℕ → ℕ → Buffers A × Streams A B → Outcome (Buffers A × Streams A B)
  step = left_step max_width max_height (2 * r + 1) width height filter padding

  abbrev added : (ℕ → ℕ → A) → ℕ → ℕ → List B
  added w_tmp row col = if leb r col && ltb col (width + r) then still w_tmp row col ∷ [] else []

  step_lem :
      (row col : ℕ) (b : Buffers A) (t : Streams A B)
      → height ≤ row
      → r ≤ row
      → row < height + r
      → col < width + 2 * r
      → (b' : Buffers A) × (step row col (b, t)
          ≡ done (b', record t { out_s = t.out_s ++ added b.win_tmp row col }))
        × (b'.win_tmp ≡ b.win_tmp)
  unfolding left_step left_input array
  step_lem row col b t below begun in_rows in_cols =
      let outside : (ltb col (width + r) && ltb row height) ≡ false = ground arith in
      let (w, run_x, by_x) =
        border_x_lem padding nc r r (width + r) height col b.win_tmp b.win (omega arith) in
      let (w', run_y, by_y) = border_y_lem padding nc r r width height row w in_rows in
      (
        record b { win = w' },
        rw (half_odd r, outside, run_x, run_y, le→leb r row begun)
            (elim (Bool-cases (leb r col && ltb col (width + r))) [
              | inl writes ↦ rw writes (
                  ap
                    (λ n.
                      done (record b { win = w' }, record t { out_s = t.out_s ++ filter n ∷ [] }))
                    (tabulate-cong (2 * r + 1) 0 _ _ (λ i l u.
                      tabulate-cong (2 * r + 1) 0 _ _ (λ j l' u'.
                        by_y i j (omega arith) (omega arith)
                        ∙ by_x (entry_read padding r i row height) j
                            (entry_read-lt padding r i row height nc in_rows (omega arith))
                            (omega arith)))))
              | inr waits ↦ rw (waits, append-nil)
            ]),
        refl,
      )

  added-line :
      (w_tmp : ℕ → ℕ → A) (row : ℕ)
      → gather (width + 2 * r) 0 (added w_tmp row)
        ≡ gather width r (λ col. still w_tmp row col ∷ [])
  added-line w_tmp row =
      gather-skip r (width + r) (width + 2 * r) 0 r (added w_tmp row) (omega arith) (omega arith)
        (λ k l u. (let waits : (leb r k && ltb k (width + r)) ≡ false = ground arith in rw waits))
      ∙ gather-cut (width + r) width r _ _ (omega arith)
          (λ k l u.
            (let writes : (leb r k && ltb k (width + r)) ≡ true = ground arith in rw writes))
          (λ k l. (let over : (leb r k && ltb k (width + r)) ≡ false = ground arith in rw over))

  pub lines_lem :
      (b : Buffers A) (t : Streams A B)
      → r ≤ height
      → (s : Buffers A × Streams A B) × (for_up r height
            (λ row. for_up (width + 2 * r) 0 (step row))
            (b, t)
          ≡ done s)
        × (s.1 ≡ record t {
          out_s =
              t.out_s
              ++ gather r height (λ row. gather width r (λ col. still b.win_tmp row col ∷ []));
        })
  lines_lem b t tall =
      let (s, ran, out) =
        standing_lem r (width + 2 * r) height step added
          (λ row col b t below in_rows in_cols.
            step_lem row col b t below (omega arith) in_rows in_cols)
          b t in
      (
        s,
        ran,
        out
            ∙ ap (λ l. record t { out_s = t.out_s ++ l })
                (gather-cong r height _ _ (λ row l u. added-line b.win_tmp row)),
      )
