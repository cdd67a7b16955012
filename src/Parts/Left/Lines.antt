-- ===== src/Parts/Left/Lines.antt =====
-- runtime/hipacc_vivado_filter.hpp, `processL`: the whole lines of its part.
use hipacc_vivado.Prelude.{
  ℕ, suc, ◌+◌, ◌*◌, ◌≤◌, ◌<◌, ◌≡◌, ◌≢◌, ◌∙◌, arith, subst, ltb, Bool-cases, inl, inr, Outcome, done,
  for_up, for_up_inv, List, [], ◌∷◌, ◌++◌,
}
use hipacc_vivado.Border.{BorderPadding, border_const}
use hipacc_vivado.Window.{Buffers}
use hipacc_vivado.Window.Contents.{Holds-start, Holds-next_line}
use hipacc_vivado.Local.{Streams}
use hipacc_vivado.Local.Scan.{neighbourhood}
use hipacc_vivado.Local.Images.{raster, left-line, left-start, sofar-line, sofar-start}
use hipacc_vivado.Parts.{left_step}
use hipacc_vivado.Parts.Left.{columns_read, read_step, idle_step}
use hipacc_vivado.Parts.Left

module _ {A B : Type 0} (img : ℕ → ℕ → A) (max_width max_height r width height : ℕ)
    (filter : List (List A) → B) (padding : BorderPadding) (rest : List A) (before : List B)
    (nc : padding ≢ border_const) (tall : 2 * r < height) (wide : r < width)
    (fits : width ≤ max_width) where
  abbrev pub At : ℕ → ℕ → Buffers A × Streams A B → Type 0
  At = Left.At img max_width max_height r width height filter padding rest before nc tall wide fits

  abbrev pub step : ℕ → ℕ → Buffers A × Streams A B → Outcome (Buffers A × Streams A B)
  step = left_step max_width max_height (2 * r + 1) width height filter padding

  step_lem :
      (row col : ℕ) (s : Buffers A × Streams A B)
      → row < height
      → col < width + 2 * r
      → At row (columns_read (width + r) col) s
      → (s' : Buffers A × Streams A B) × (step row col s ≡ done s')
        × At row (columns_read (width + r) (suc col)) s'
  step_lem row col (b, t) in_rows in_cols at = elim (Bool-cases (ltb col (width + r))) [
    | inl inside ↦
        let now : columns_read (width + r) col ≡ col = ground arith in
        let later : columns_read (width + r) (suc col) ≡ suc col = ground arith in
        let (h, is) : At row col (b, t) = subst (λ c. At row c (b, t)) now at in
        rw later (
          read_step img max_width max_height r width height filter padding rest before nc tall wide
            fits row col in_rows b (ground arith) h t is)
    | inr outside ↦
        let now : columns_read (width + r) col ≡ width + r = ground arith in
        let later : columns_read (width + r) (suc col) ≡ width + r = ground arith in
        let (h, is) : At row (width + r) (b, t) = subst (λ c. At row c (b, t)) now at in
        let (w, ran) =
          idle_step img max_width max_height r width height filter padding rest before nc tall wide
            fits row col in_rows b t (ground arith) in_cols in
        rw later (
          (record b { win = w }, t),
          ran,
          (record { lines_old = h.lines_old; lines_new = h.lines_new; shown = h.shown }, is),
        )
  ]

  -- The window after line `row - 1`.
  abbrev pub Last : ℕ → Buffers A → Type 0
  Last row b =
      (a j y x : ℕ)
      → a < 2 * r + 1
      → j < 2 * r + 1
      → y + 2 * r + 1 ≡ row + a
      → y < height
      → x + 2 * r + 1 ≡ width + r + j
      → x < width + r
      → b.win_tmp a j ≡ img y x

  line_lem :
      (row : ℕ) (s : Buffers A × Streams A B)
      → row < height
      → At row 0 s
      → (s' : Buffers A × Streams A B) × (for_up (width + 2 * r) 0 (step row) s ≡ done s')
        × (At (suc row) 0 s' × Last (suc row) s'.0)
  line_lem row s in_rows at =
      let first : columns_read (width + r) 0 ≡ 0 = ground arith in
      let last : columns_read (width + r) (width + 2 * r) ≡ width + r = ground arith in
      let (s', ran, at') =
        for_up_inv (λ col. At row (columns_read (width + r) col)) (step row) (width + 2 * r) 0
          (width + 2 * r) (omega arith) (λ col u l in_cols a. step_lem row col u in_rows in_cols a)
          s (rw first at) in
      let (h, is) : At row (width + r) s' = subst (λ c. At row c s') last at' in
      (
        s',
        ran,
        (
          (
            Holds-next_line img r r (width + r) height row (width + r) s'.0 (omega arith) h,
            is
                ∙ rw (
                  left-line (width + r) height (λ y x. img y x ∷ []) rest row (width + r)
                      (omega arith),
                  sofar-line r r width height
                      (λ y x. filter (neighbourhood img r r (width + r) height padding y x) ∷ [])
                      before row,
                ),
          ),
          λ a j y x z k e o f q. h.shown a j y x z k (omega arith) o (omega arith) q,
        ),
      )

  pub read_lem :
      (b : Buffers A)
      → (s : Buffers A × Streams A B) × (for_up height 0
            (λ row. for_up (width + 2 * r) 0 (step row))
            (
              b,
              record {
                in_s = raster height (width + r) (λ y x. img y x ∷ []) ++ rest;
                out_s = before;
              },
            )
          ≡ done s)
        × (At height 0 s × Last height s.0)
  read_lem b =
      for_up_inv (λ row s. At row 0 s × Last row s.0) _ height 0 height (omega arith)
        (λ row s l in_rows at. line_lem row s in_rows at.0) _
        (
          (
            Holds-start img r r (width + r) height b,
            rw (
              left-start (width + r) height (λ y x. img y x ∷ []) rest,
              sofar-start r r width height
                  (λ y x. filter (neighbourhood img r r (width + r) height padding y x) ∷ [])
                  before,
            ),
          ),
          λ a j y x z k e o f q. absurd (omega arith),
        )
