-- ===== src/Parts/Left/Image.antt =====
-- runtime/hipacc_vivado_filter.hpp, `processL`: its output for a whole part of an image.
use hipacc_vivado.Prelude.{
  ℕ, ◌+◌, ◌-◌, ◌*◌, ◌%◌, ◌≤◌, ◌<◌, ◌≡◌, ◌≢◌, refl, ap, ◌∙◌, arith, le→leb, ≡→==, done, for_up-after,
  List, [], ◌∷◌, ◌++◌, append_assoc, tabulate, tabulate-cong, gather, gather-cong,
}
use hipacc_vivado.Border.{BorderPadding, border_const}
use hipacc_vivado.Border.Bounds.{entry_read, entry_read-lt}
use hipacc_vivado.Border.Source.{source_index}
use hipacc_vivado.Window.{Buffers}
use hipacc_vivado.Window.Borders.{half_odd}
use hipacc_vivado.Local.Scan.{neighbourhood}
use hipacc_vivado.Local.Images.{raster, left-end, sofar-lines}
use hipacc_vivado.Parts.{process_l}
use hipacc_vivado.Parts.Moves.{entry_read-line}
use hipacc_vivado.Parts.Left.Lines.{read_lem}
use hipacc_vivado.Parts.Left.Flush.{lines_lem}

-- What the filter sees for pixel `(y, x)` of one of the last `r` lines: the pixels above and
-- right of those that belong there, as far as the window has moved on.
abbrev late_neighbourhood :
    {A : Type 0} → (ℕ → ℕ → A) → ℕ → ℕ → ℕ → BorderPadding → ℕ → ℕ → List (List A)
late_neighbourhood img r columns height padding y x = tabulate (2 * r + 1) 0 (λ i.
    tabulate (2 * r + 1) 0 (λ j.
      img (source_index padding r height y i + (height - 1) - (y + r))
        (source_index padding r columns x j + (columns - 1) - (x + r))))

module _ {A : Type 0} (img : ℕ → ℕ → A) (r columns height : ℕ) (padding : BorderPadding)
    (nc : padding ≢ border_const) (tall : 2 * r < height) (wide : 2 * r < columns)
    (w_tmp : ℕ → ℕ → A)
    (last : (a j y x : ℕ)
      → a < 2 * r + 1
      → j < 2 * r + 1
      → y + 2 * r + 1 ≡ height + a
      → y < height
      → x + 2 * r + 1 ≡ columns + j
      → x < columns
      → w_tmp a j ≡ img y x) where
  late_lem :
      (row col i j : ℕ)
      → height ≤ row
      → row < height + r
      → r ≤ col
      → col < columns
      → i < 2 * r + 1
      → j < 2 * r + 1
      → w_tmp (entry_read padding r i row height) (entry_read padding r j col columns)
        ≡ img
            (source_index padding r height (row - r) i + (height - 1) - (row - r + r))
            (source_index padding r columns (col - r) j + (columns - 1) - (col - r + r))
  late_lem row col i j l u l' u' tap tap' =
      let entry_y = entry_read-lt padding r i row height nc u tap in
      let entry_x = entry_read-lt padding r j col columns nc (omega arith) tap' in
      let from_y = entry_read-line padding r height row i nc (omega arith) (omega arith) u tap in
      let from_x = entry_read-line padding r columns col j nc (omega arith) l' (omega arith) tap' in
      last (entry_read padding r i row height) (entry_read padding r j col columns) _ _ entry_y
        entry_x (omega arith) (omega arith) (omega arith) (omega arith)

-- A part of at least `2 * r + 1` lines and `r + 1` columns, which fits, arrives with `r` further columns
-- on its right. For every padding mode but BORDER_CONST and whatever the arrays held, `processL`
-- returns, reads the part and no more, and writes for each pixel of all but the last `r` lines the
-- filter of its neighbourhood, padded on the left, above and below. For each pixel of the last `r` lines
-- it writes the filter of a neighbourhood that lies too far above and, in all columns but the last, too
-- far to the right.
pub process_l-raster :
    {A B : Type 0} (img : ℕ → ℕ → A) (max_width max_height r width height : ℕ)
    (filter : List (List A) → B) (padding : BorderPadding) (rest : List A) (before : List B)
    (b : Buffers A)
    → padding ≢ border_const
    → 2 * r < height
    → r < width
    → width ≤ max_width
    → height ≤ max_height
    → (b' : Buffers A) × (process_l max_width max_height (2 * r + 1) width height filter padding (
      b,
      record { in_s = raster height (width + r) (λ y x. img y x ∷ []) ++ rest; out_s = before },
    )
        ≡ done (
          b',
          record {
            in_s = rest;
            out_s =
                before
                ++ (raster
                      (height - r)
                      width
                      (λ y x. filter (neighbourhood img r r (width + r) height padding y x) ∷ [])
                    ++ gather r height (λ row. gather width r (λ col.
                      filter
                        (late_neighbourhood img r (width + r) height padding (row - r) (col - r))
                      ∷ [])));
          },
        ))
unfolding process_l
process_l-raster img max_width max_height r width height filter padding rest before b nc tall wide
      fits_x fits_y =
    let ((b', t), ran, (at, last)) =
      read_lem img max_width max_height r width height filter padding rest before nc tall wide
        fits_x b in
    let ((b'', t'), flushed, out) =
      lines_lem max_width max_height r width height filter padding nc b' t (omega arith) in
    (
      b'',
      rw
          (
            half_odd r,
            le→leb width (max_width + r) (omega arith),
            le→leb height (max_height + r) (omega arith),
            ≡→== ((2 * r + 1) % 2) 1 (omega arith),
          )
          (for_up-after _ height r (height + r) 0 height _ (b', t) refl (omega arith) ran
            ∙ flushed
            ∙ ap (λ u. done (b'', u))
                (out
                  ∙ rw
                      (
                        at.1,
                        left-end (width + r) height (λ y x. img y x ∷ []) rest height (omega arith),
                        sofar-lines r r width height
                            (λ y x.
                              filter (neighbourhood img r r (width + r) height padding y x) ∷ [])
                            before height,
                        append_assoc before,
                      )
                      (ap
                        (λ l. record {
                          in_s = rest;
                          out_s =
                              before
                              ++ (raster (height - r) width (λ y x.
                                    filter (neighbourhood img r r (width + r) height padding y x)
                                    ∷ [])
                                  ++ l);
                        })
                        (gather-cong r height _ _ (λ row l u. gather-cong width r _ _ (λ col l' u'.
                          ap (λ n. filter n ∷ [])
                            (tabulate-cong (2 * r + 1) 0 _ _ (λ i k v.
                              tabulate-cong (2 * r + 1) 0 _ _ (λ j k' v'.
                                late_lem img r (width + r) height padding nc tall (omega arith)
                                  b'.win_tmp last row col i j l u l' (omega arith) (omega arith)
                                  (omega arith)))))))))),
    )
