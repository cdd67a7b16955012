-- ===== src/Pyramid/Doubled.antt =====
-- runtime/hipacc_vivado_filter.hpp, `upsampleVECT`: the lines that it writes.
use hipacc_vivado.Prelude.{
  ℕ, suc, ◌+◌, ◌-◌, ◌/◌, ◌%◌, ◌<◌, ◌≡◌, refl, ◌∙◌, arith, false, ◌&&◌, ltb, ◌==◌, Bool-cases, inl,
  inr, if◌then◌else◌, Outcome, done, for_up, for_up_inv, for_up_idle, for_up-after, List, [], ◌∷◌,
  ◌++◌, le→leb, subst,
}
use native.Mathlib.Nat.{le_refl}
use hipacc_vivado.Vectors.{gdelay_x_v}
use hipacc_vivado.Local.Images.{raster, left-start, left-end, sofar-start, sofar-end}
use hipacc_vivado.Pyramid.Vector.{Doubling, upsample_vect_step, upsample_vect}
use hipacc_vivado.Pyramid.Repeats
use hipacc_vivado.Pyramid.Repeats.{column_lem, next_lem}

module _ {V U A : Type 0} (convert : V → U) (range : V → ℕ → ℕ → A) (set_range : V → ℕ → ℕ → A → V)
    (nil : V) (w vect kernel_size width height : ℕ) (img : ℕ → ℕ → V) (rest : List V)
    (before : List U) (some : 0 < width) where
  abbrev latest : ℕ → ℕ → V
  latest =
      Repeats.latest convert range set_range nil w vect kernel_size width height img rest before
        some

  abbrev incoming : ℕ → ℕ → List V
  incoming =
      Repeats.incoming convert range set_range nil w vect kernel_size width height img rest before
        some

  abbrev outgoing : ℕ → ℕ → List U
  outgoing =
      Repeats.outgoing convert range set_range nil w vect kernel_size width height img rest before
        some

  abbrev step : ℕ → ℕ → Doubling V U → Outcome (Doubling V U)
  step =
      Repeats.step convert range set_range nil w vect kernel_size width height img rest before some

  abbrev At : ℕ → ℕ → Doubling V U → Type 0
  At = Repeats.At convert range set_range nil w vect kernel_size width height img rest before some

  line_lem :
      (g row : ℕ) (s : Doubling V U)
      → row < height
      → At row 0 s
      → (s' : Doubling V U) × (for_up (width + g) 0 (step row) s ≡ done s') × At (suc row) 0 s'
  unfolding upsample_vect_step
  line_lem g row s in_rows at =
      let (s', ran, at') =
        for_up_inv (At row) (step row) width 0 width (omega arith)
          (λ col u l m a.
            column_lem convert range set_range nil w vect kernel_size width height img rest before
              some row col u in_rows m a)
          s at in
      (
        s',
        for_up-after (step row) width g (width + g) 0 width s s' refl (omega arith) ran
            ∙ for_up_idle (step row) g width (width + g) s' refl (λ col l u.
              (let outside : (ltb col width && ltb row height) ≡ false = ground arith in
                rw outside)),
        next_lem convert range set_range nil w vect kernel_size width height img rest before some
            row s' at',
      )

  read_all : incoming height 0 ≡ rest
  read_all = elim (Bool-cases (height % 2 == 0)) [
    | inl even ↦ rw even (
        left-end ((width + 1) / 2) ((height + 1) / 2) (λ y x. img y x ∷ []) rest (height / 2)
          (ground arith))
    | inr odd ↦ rw odd (
        left-end ((width + 1) / 2) ((height + 1) / 2) (λ y x. img y x ∷ []) rest (suc (height / 2))
          (omega arith))
  ]

  lines_lem :
      (g d : ℕ) (in_pixel out_pixel : V)
      → (s' : Doubling V U) × (for_up
            (height + d)
            0
            (λ row. for_up (width + g) 0 (step row))
            (record {
              in_pixel = in_pixel;
              out_pixel = out_pixel;
              streams = record {
                in_s = raster ((height + 1) / 2) ((width + 1) / 2) (λ y x. img y x ∷ []) ++ rest;
                out_s = before;
              };
            })
          ≡ done s')
        × (s'.streams ≡ record {
          in_s = rest;
          out_s = before ++ raster height width (λ y x. convert (latest y x) ∷ []);
        })
  unfolding upsample_vect_step
  lines_lem g d in_pixel out_pixel =
      let none : height + 0 ≡ height = omega arith in
      let lines_end : outgoing height 0
          ≡ before ++ raster height width (λ y x. convert (latest y x) ∷ []) =
        subst (λ c. outgoing c 0 ≡ before ++ raster height width (λ y x. convert (latest y x) ∷ []))
          none (sofar-end 0 0 width height (λ y x. convert (latest y x) ∷ []) before) in
      let (s', ran, (at_even, (at_odd, is))) =
        for_up_inv (λ row. At row 0) (λ row. for_up (width + g) 0 (step row)) height 0 height
          (omega arith) (λ row s l m a. line_lem g row s m a) _
          (
            (λ e l. absurd (omega arith)),
            (
              (λ e. absurd (omega arith)),
              rw (
                left-start ((width + 1) / 2) ((height + 1) / 2) (λ y x. img y x ∷ []) rest,
                sofar-start 0 0 width height (λ y x. convert (latest y x) ∷ []) before,
              ),
            ),
          ) in
      (
        s',
        for_up-after (λ row. for_up (width + g) 0 (step row)) height d (height + d) 0 height _ s'
              refl (omega arith) ran
            ∙ for_up_idle (λ row. for_up (width + g) 0 (step row)) d height (height + d) s' refl
                (λ row l u.
                  for_up_idle (step row) (width + g) 0 (width + g) s' (omega arith) (λ col l' u'.
                    (let outside : (ltb col width && ltb row height) ≡ false = ground arith in
                      rw outside))),
        is ∙ rw (read_all, lines_end),
      )

-- An image of the full size, of at least one column. `upsampleVECT` returns, reads one vector for each
-- place with two even coordinates and no more, and writes for every place, in row-major order, the vector
-- that it has read last, with no lane moved and converted to the type of the output: in even lines that
-- of the column itself or, if the column is odd, of the column left of it, and in odd lines the last one
-- of the line above.
pub upsample_vect-latest :
    {V U A : Type 0} (convert : V → U) (range : V → ℕ → ℕ → A) (set_range : V → ℕ → ℕ → A → V)
    (nil : V) (w vect kernel_size width height : ℕ) (img : ℕ → ℕ → V) (rest : List V)
    (before : List U) (in_pixel out_pixel : V)
    → 0 < width
    → (s : Doubling V U) × (upsample_vect convert range set_range nil w vect width height
          kernel_size width height
          (record {
            in_pixel = in_pixel;
            out_pixel = out_pixel;
            streams = record {
              in_s = raster ((height + 1) / 2) ((width + 1) / 2) (λ y x. img y x ∷ []) ++ rest;
              out_s = before;
            };
          })
        ≡ done s)
      × (s.streams ≡ record {
        in_s = rest;
        out_s =
            before
            ++ raster height width
                (λ y x. convert (img (y / 2) (if y % 2 == 0 then x / 2 else (width - 1) / 2)) ∷ []);
      })
unfolding upsample_vect
upsample_vect-latest convert range set_range nil w vect kernel_size width height img rest before
      in_pixel out_pixel some =
    let (s, ran, out) =
      lines_lem convert range set_range nil w vect kernel_size width height img rest before some
        (gdelay_x_v kernel_size vect) (kernel_size / 2) in_pixel out_pixel in
    (s, rw (le→leb width width (le_refl width), le→leb height height (le_refl height)) ran, out)
