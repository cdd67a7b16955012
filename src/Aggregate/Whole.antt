-- ===== src/Aggregate/Whole.antt =====
-- runtime/hipacc_vivado_filter.hpp, `assemble` and `assembleF`: the vectors of whole lines.
use hipacc_vivado.Prelude.{
  ℕ, suc, ◌+◌, ◌-◌, ◌*◌, ◌%◌, ◌≤◌, ◌<◌, ◌≡◌, refl, ◌∙◌, ap, arith, le→leb, false, ltb, Outcome,
  done, for_up, for_up_inv, for_up-after, List, [], ◌∷◌, ◌++◌, append-nil, subst, ≡→==,
}
use native.Mathlib.Nat.{le_refl}
use hipacc_vivado.Local.{Streams}
use hipacc_vivado.Local.Images.{
  raster, left-line, left-start, left-end, sofar-line, sofar-start, sofar-end,
}
use hipacc_vivado.Vectors.Lanes.{RangeLaws}
use hipacc_vivado.Aggregate.{assemble_step, assemble_with, assemble_f}
use hipacc_vivado.Distribute.{kernel_apron}
use hipacc_vivado.Aggregate.Assembled
use hipacc_vivado.Aggregate.Assembled.{unpack, block_lem}
use hipacc_vivado.Aggregate.Blocks.{for_up_blocks}

module _ {U A B : Type 0} (conv : A → B) (range : U → ℕ → ℕ → B) (set_range : U → ℕ → ℕ → B → U)
    (size : ℕ) (trunc : ℕ → B → B) (laws : RangeLaws size trunc range set_range)
    (w vect max_width max_height kernel_size q height : ℕ) (img : ℕ → ℕ → A) (rest : List A)
    (before : List U) (some : 0 < w) (room : vect * w ≤ size) where
  abbrev stored : ℕ → ℕ → B
  stored y c = trunc w (conv (img y c))

  abbrev assembled : ℕ → ℕ → List B
  assembled =
      Assembled.assembled conv range set_range size trunc laws w vect max_width max_height
        kernel_size q height img rest before some room

  abbrev step : ℕ → U × Streams A U → Outcome (U × Streams A U)
  step =
      Assembled.step conv range set_range size trunc laws w vect max_width max_height kernel_size q
        height img rest before some room

  abbrev At : ℕ → ℕ → U × Streams A U → Type 0
  At =
      Assembled.At conv range set_range size trunc laws w vect max_width max_height kernel_size q
        height img rest before some room

  module _ (columns : ℕ) (pos : 0 < vect) (whole : q * vect ≤ columns) where
    line_lem :
        (y : ℕ) (s : U × Streams A U)
        → y < height
        → At y 0 s
        → (s' : U × Streams A U) × (for_up columns 0 step s ≡ done s') × At (suc y) 0 s'
    unfolding assemble_step
    line_lem y s in_rows at =
        let start : 0 * vect ≡ 0 = omega arith in
        let (u, ran, (vs, is, so_far)) =
          for_up_blocks (At y) step vect q 0
            (λ k u l m (vs, is, so_far).
              block_lem conv range set_range size trunc laws w vect max_width max_height kernel_size
                q height img rest before some room y k in_rows (omega arith) vs u pos is so_far)
            s at in
        let (s', waits, same) =
          for_up_inv (λ col u'. u' ≡ u) step (columns - q * vect) (q * vect) columns (omega arith)
            (λ col u' l m e.
              (let outside : ltb col (q * vect) ≡ false = ground arith in (u', rw outside, e)))
            u refl in
        let ran' : for_up (q * vect) 0 step s ≡ done u =
          subst (λ c. for_up (q * vect) c step s ≡ done u) start ran in
        let (all, none) : (0 + q ≡ q) × (q * vect + 0 ≡ q * vect) = (omega arith, omega arith) in
        let line_end : assembled y (q * vect) ≡ assembled (suc y) 0 =
          subst (λ c. assembled y c ≡ assembled (suc y) 0) none
            (sofar-line 0 0 (q * vect) height (λ y c. stored y c ∷ []) [] y) in
        (
          s',
          for_up-after step (q * vect) (columns - q * vect) columns 0 (q * vect) s u (omega arith)
                (omega arith) ran'
              ∙ waits,
          (
            vs,
            ap (λ p. p.1) same
                ∙ is
                ∙ rw (
                  all,
                  start,
                  left-line (q * vect) height (λ y c. img y c ∷ []) rest y (q * vect)
                      (le_refl (q * vect)),
                ),
            so_far ∙ rw (all, start, line_end),
          ),
        )

    pub lines_lem :
        (temp : U)
        → (vs : List U) × (temp' : U) × (for_up height 0
              (λ row. for_up columns 0 step)
              (
                temp,
                record {
                  in_s = raster height (q * vect) (λ y c. img y c ∷ []) ++ rest;
                  out_s = before;
                },
              )
            ≡ done (temp', record { in_s = rest; out_s = before ++ vs }))
          × (unpack range w vect vs ≡ raster height (q * vect) (λ y c. stored y c ∷ []))
    lines_lem temp =
        let start : 0 * vect ≡ 0 = omega arith in
        let none : height + 0 ≡ height = omega arith in
        let ((temp', t), ran, (vs, is, so_far)) =
          for_up_inv (λ y. At y 0) (λ row. for_up columns 0 step) height 0 height (omega arith)
            (λ y s l m a. line_lem y s m a) _
            (
              [],
              rw (start, left-start (q * vect) height (λ y c. img y c ∷ []) rest, append-nil),
              rw (start, sofar-start 0 0 (q * vect) height (λ y c. stored y c ∷ []) []),
            ) in
        (
          vs,
          temp',
          ran
              ∙ ap (λ u. done (temp', u))
                  (is
                    ∙ rw (
                      start,
                      left-end (q * vect) height (λ y c. img y c ∷ []) rest height (le_refl height),
                    )),
          so_far
              ∙ rw start (
                  subst (λ c. assembled c 0 ≡ raster height (q * vect) (λ y c. stored y c ∷ []))
                    none (sofar-end 0 0 (q * vect) height (λ y c. stored y c ∷ []) [])),
        )

-- Vectors of `size` bits with at least one lane, all of `w` bits and at least one, where the bit ranges
-- obey the documented laws, an image of `q` vectors to the line, which fits, and an odd kernel.
-- `assembleF` returns, reads the pixels of the image and no more, and writes vectors whose lanes are, one
-- after the other, the converted pixels in row-major order, each cut to `w` bits.
pub assemble_f-unpack :
    {U A B : Type 0} (f2i : A → B) (range : U → ℕ → ℕ → B) (set_range : U → ℕ → ℕ → B → U)
    (size : ℕ) (trunc : ℕ → B → B) (w vect max_width max_height kernel_size q height : ℕ)
    (img : ℕ → ℕ → A) (rest : List A) (before : List U) (temp : U)
    → RangeLaws size trunc range set_range
    → 0 < w
    → 0 < vect
    → vect * w ≤ size
    → kernel_size % 2 ≡ 1
    → q * vect ≤ max_width
    → height ≤ max_height
    → (vs : List U) × (temp' : U) × (assemble_f f2i set_range w vect max_width max_height
          kernel_size
          (q * vect)
          height
          (
            temp,
            record {
              in_s = raster height (q * vect) (λ y c. img y c ∷ []) ++ rest;
              out_s = before;
            },
          )
        ≡ done (temp', record { in_s = rest; out_s = before ++ vs }))
      × (unpack range w vect vs ≡ raster height (q * vect) (λ y c. trunc w (f2i (img y c)) ∷ []))
unfolding assemble_f assemble_with
assemble_f-unpack f2i range set_range size trunc w vect max_width max_height kernel_size q height
      img rest before temp laws some pos room odd fits_x fits_y =
    let (vs, temp', ran, same) =
      lines_lem f2i range set_range size trunc laws w vect max_width max_height kernel_size q height
        img rest before some room (q * vect + 2 * (kernel_apron vect kernel_size) * vect) pos
        (omega arith) temp in
    (
      vs,
      temp',
      rw
          (
            le→leb (q * vect) max_width fits_x,
            le→leb height max_height fits_y,
            ≡→== (kernel_size % 2) 1 odd,
          )
          ran,
      same,
    )
