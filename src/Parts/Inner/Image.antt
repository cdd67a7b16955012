-- ===== src/Parts/Inner/Image.antt =====
-- runtime/hipacc_vivado_filter.hpp, `processC`: its output for a whole part of an image.
use hipacc_vivado.Prelude.{
  ℕ, ◌+◌, ◌-◌, ◌*◌, ◌≤◌, ◌<◌, ◌≡◌, ◌≢◌, ap, ◌∙◌, arith, done, List, [], ◌∷◌, ◌++◌, append_assoc,
  tabulate, tabulate-cong, replicate, gather, gather-cong,
}
use hipacc_vivado.Border.{BorderPadding, border_const}
use hipacc_vivado.Border.Bounds.{entry_read, entry_read-lt}
use hipacc_vivado.Border.Source.{source_index}
use hipacc_vivado.Window.{Buffers}
use hipacc_vivado.Local.Images.{raster, left-end, sofar-lines}
use hipacc_vivado.Parts.{process_c}
use hipacc_vivado.Parts.Inner.Flush.{process_c-flush}
use hipacc_vivado.Parts.Moves.{inner_neighbourhood, entry_read-line}
use hipacc_vivado.Parts.Inner.{read_lem}

-- What the filter sees for every pixel of line `y` where `y` is one of the last `r` lines: the columns
-- are those around the last pixel, the lines lie above those that belong there.
abbrev late_neighbourhood :
    {A : Type 0} → (ℕ → ℕ → A) → ℕ → ℕ → ℕ → BorderPadding → ℕ → List (List A)
late_neighbourhood img r width height padding y = tabulate (2 * r + 1) 0 (λ i.
    tabulate (2 * r + 1) 0
      (λ j. img (source_index padding r height y i + (height - 1) - (y + r)) (width - 1 + j)))

module _ {A : Type 0} (img : ℕ → ℕ → A) (r width height : ℕ) (padding : BorderPadding)
    (nc : padding ≢ border_const) (tall : 2 * r < height) (wide : 0 < width) (w_tmp : ℕ → ℕ → A)
    (last : (a j y x : ℕ)
      → a < 2 * r + 1
      → j < 2 * r + 1
      → y + 2 * r + 1 ≡ height + a
      → y < height
      → x + 1 ≡ width + j
      → x < width + 2 * r
      → w_tmp a j ≡ img y x) where
  late_lem :
      (row i j : ℕ)
      → height ≤ row
      → row < height + r
      → i < 2 * r + 1
      → j < 2 * r + 1
      → w_tmp (entry_read padding r i row height) j
        ≡ img
            (source_index padding r height (row - r) i + (height - 1) - (row - r + r))
            (width - 1 + j)
  late_lem row i j l u tap tap' =
      let entry = entry_read-lt padding r i row height nc u tap in
      let from = entry_read-line padding r height row i nc (omega arith) (omega arith) u tap in
      last (entry_read padding r i row height) j _ _ entry tap' (omega arith) (omega arith)
        (omega arith) (omega arith)

-- A part of at least `2 * r + 1` lines and of one column, which fits, arrives with `r` further columns
-- on each side. For every padding mode but BORDER_CONST and whatever the arrays held, `processC`
-- returns, reads the part and no more, and writes for each pixel of all but the last `r` lines the
-- filter of its neighbourhood, padded above and below. For each of the last `r` lines it writes one
-- value for all pixels, which is not computed from their neighbourhoods.
pub process_c-raster :
    {A B : Type 0} (img : ℕ → ℕ → A) (max_width max_height r width height : ℕ)
    (filter : List (List A) → B) (padding : BorderPadding) (rest : List A) (before : List B)
    (b : Buffers A)
    → padding ≢ border_const
    → 2 * r < height
    → 0 < width
    → width ≤ max_width
    → height ≤ max_height
    → (b' : Buffers A) × (process_c max_width max_height (2 * r + 1) width height filter padding (
      b,
      record { in_s = raster height (width + 2 * r) (λ y x. img y x ∷ []) ++ rest; out_s = before },
    )
        ≡ done (
          b',
          record {
            in_s = rest;
            out_s =
                before
                ++ (raster
                      (height - r)
                      width
                      (λ y x. filter (inner_neighbourhood img r height padding y x) ∷ [])
                    ++ gather r height (λ row.
                      replicate width
                        (filter (late_neighbourhood img r width height padding (row - r)))));
          },
        ))
process_c-raster img max_width max_height r width height filter padding rest before b nc tall wide
      fits_x fits_y =
    let ((b', t), ran, (at, last)) =
      read_lem img max_width max_height r width height filter padding rest before nc tall wide
        fits_x b in
    let (b'', flushed) =
      process_c-flush max_width max_height r width height filter padding _ b' t nc (omega arith)
        fits_x fits_y ran in
    (
      b'',
      flushed
          ∙ ap (λ u. done (b'', u))
              (rw
                (
                  at.1,
                  left-end (width + 2 * r) height (λ y x. img y x ∷ []) rest height (omega arith),
                  sofar-lines (2 * r) r width height
                      (λ y x. filter (inner_neighbourhood img r height padding y x) ∷ []) before
                      height,
                  append_assoc before,
                )
                (ap
                  (λ l. record {
                    in_s = rest;
                    out_s =
                        before
                        ++ (raster (height - r) width
                              (λ y x. filter (inner_neighbourhood img r height padding y x) ∷ [])
                            ++ l);
                  })
                  (gather-cong r height _ _ (λ row l u.
                    ap (λ n. replicate width (filter n))
                      (tabulate-cong (2 * r + 1) 0 _ _ (λ i l' u'.
                        tabulate-cong (2 * r + 1) 0 _ _ (λ j l'' u''.
                          late_lem img r width height padding nc tall wide b'.win_tmp last row i j l
                            u (omega arith) (omega arith)))))))),
    )
