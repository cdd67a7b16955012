-- ===== src/Pyramid/Repeats.antt =====
-- runtime/hipacc_vivado_filter.hpp, `upsampleVECT`: what it writes.
use hipacc_vivado.Prelude.{
  ℕ, suc, ◌+◌, ◌-◌, ◌/◌, ◌%◌, ◌<◌, ◌≡◌, refl, ◌∙◌, arith, true, false, ◌&&◌, ltb, leb, ◌==◌, ==→≡,
  Bool-cases, inl, inr, if◌then◌else◌, Outcome, done, List, [], ◌∷◌, subst,
}
use native.Mathlib.Nat.{le_refl}
use hipacc_vivado.Local.Images.{left, left-next, left-line, sofar, sofar-next, sofar-line}
use hipacc_vivado.Pyramid.Vector.{Doubling, upsample_vect_step, spread}

module _ {V U A : Type 0} (convert : V → U) (range : V → ℕ → ℕ → A) (set_range : V → ℕ → ℕ → A → V)
    (nil : V) (w vect kernel_size width height : ℕ) (img : ℕ → ℕ → V) (rest : List V)
    (before : List U) (some : 0 < width) where
  -- The vector that has been read last at column `x` of line `y`.
  abbrev pub latest : ℕ → ℕ → V
  latest y x = img (y / 2) (if y % 2 == 0 then x / 2 else (width - 1) / 2)

  abbrev vectors : ℕ → ℕ → List V
  vectors = left ((width + 1) / 2) ((height + 1) / 2) (λ y x. img y x ∷ []) rest

  abbrev pub incoming : ℕ → ℕ → List V
  incoming row col =
      if row % 2 == 0 then vectors (row / 2) ((col + 1) / 2) else vectors (suc (row / 2)) 0

  abbrev pub outgoing : ℕ → ℕ → List U
  outgoing = sofar 0 0 width height (λ y x. convert (latest y x) ∷ []) before

  abbrev pub step : ℕ → ℕ → Doubling V U → Outcome (Doubling V U)
  step = upsample_vect_step convert range set_range nil w vect width height kernel_size width height

  abbrev pub At : ℕ → ℕ → Doubling V U → Type 0
  At row col s =
      (row % 2 ≡ 0 → 0 < col → s.in_pixel ≡ img (row / 2) ((col - 1) / 2))
      × ((row % 2 ≡ 1 → s.in_pixel ≡ img (row / 2) ((width - 1) / 2))
          × (s.streams ≡ record { in_s = incoming row col; out_s = outgoing row col }))

  pub column_lem :
      (row col : ℕ) (s : Doubling V U)
      → row < height
      → col < width
      → At row col s
      → (s' : Doubling V U) × (step row col s ≡ done s') × At row (suc col) s'
  unfolding upsample_vect_step
  column_lem row col s in_rows in_cols (even, (odd, is)) =
      let inside : (ltb col width && ltb row height) ≡ true = ground arith in
      let wrote : (leb 0 row && leb 0 col) ≡ true = ground arith in
      let (same_y, same_col) : (row - 0 ≡ row) × (col - 0 ≡ col) = (omega arith, omega arith) in
      let grown =
        sofar-next 0 0 width height (λ y x. convert (latest y x) ∷ []) before row col wrote in
      elim (Bool-cases (row % 2 == 0)) [
        | inl down ↦ elim (Bool-cases (col % 2 == 0)) [
          | inl fresh ↦
              let (half, next) : ((col + 1) / 2 ≡ col / 2) × ((suc col + 1) / 2 ≡ suc (col / 2)) =
                (ground arith, ground arith) in
              let within : (ltb (col / 2) ((width + 1) / 2) && ltb (row / 2) ((height + 1) / 2))
                  ≡ true =
                ground arith in
              let this : suc col - 1 ≡ col = omega arith in
              (
                record {
                  in_pixel = img (row / 2) (col / 2);
                  out_pixel =
                      spread convert range set_range nil w vect width height kernel_size width
                        height 0 (img (row / 2) (col / 2));
                  streams = record {
                    in_s = incoming row (suc col);
                    out_s = outgoing row (suc col);
                  };
                },
                rw
                    (
                      inside,
                      fresh,
                      down,
                      is,
                      down,
                      half,
                      next,
                      left-next ((width + 1) / 2) ((height + 1) / 2) (λ y x. img y x ∷ []) rest
                          (row / 2) (col / 2) within,
                      grown,
                      same_y,
                      same_col,
                    )
                    (rw down),
                ((λ e l. rw this), ((λ e. absurd (ground arith)), refl)),
              )
          | inr again ↦
              let (half, this) : ((suc col + 1) / 2 ≡ (col + 1) / 2) × (suc col - 1 ≡ col) =
                (ground arith, omega arith) in
              let lower : (col - 1) / 2 ≡ col / 2 = ground arith in
              let kept : s.in_pixel ≡ img (row / 2) (col / 2) =
                even (==→≡ (row % 2) 0 down) (ground arith) ∙ rw lower in
              (
                record s {
                  out_pixel =
                      spread convert range set_range nil w vect width height kernel_size width
                        height (vect / 2) s.in_pixel;
                  streams = record {
                    in_s = incoming row (suc col);
                    out_s = outgoing row (suc col);
                  };
                },
                rw (inside, again, is, half, grown, same_y, same_col, down, kept),
                ((λ e l. rw this kept), ((λ e. absurd (ground arith)), refl)),
              )
        ]
        | inr up ↦
            let kept : s.in_pixel ≡ img (row / 2) ((width - 1) / 2) = odd (ground arith) in
            let waits : (col % 2 == 0 && row % 2 == 0) ≡ false = ground arith in
            (
              record s {
                out_pixel =
                    spread convert range set_range nil w vect width height kernel_size width height
                      (vect / 2) s.in_pixel;
                streams = record { in_s = incoming row (suc col); out_s = outgoing row (suc col) };
              },
              rw (inside, waits, is, up, grown, same_y, same_col, up, kept),
              ((λ e l. absurd (ground arith)), ((λ e. kept), refl)),
            )
      ]

  pub next_lem : (row : ℕ) (s : Doubling V U) → At row width s → At (suc row) 0 s
  next_lem row s (even, (odd, is)) =
      let none : width + 0 ≡ width = omega arith in
      let line_end : outgoing row width ≡ outgoing (suc row) 0 =
        subst (λ c. outgoing row c ≡ outgoing (suc row) 0) none
          (sofar-line 0 0 width height (λ y x. convert (latest y x) ∷ []) before row) in
      let first : (0 + 1) / 2 ≡ 0 = omega arith in
      elim (Bool-cases (row % 2 == 0)) [
        | inl down ↦
            let up : (suc row % 2 == 0) ≡ false = ground arith in
            let same : suc row / 2 ≡ row / 2 = ground arith in
            (
              (λ e l. absurd (omega arith)),
              (
                (λ e. rw same (even (==→≡ (row % 2) 0 down) some)),
                is
                    ∙ rw (
                      down,
                      up,
                      same,
                      left-line ((width + 1) / 2) ((height + 1) / 2) (λ y x. img y x ∷ []) rest
                          (row / 2) ((width + 1) / 2) (le_refl ((width + 1) / 2)),
                      line_end,
                    ),
              ),
            )
        | inr up ↦
            let down : (suc row % 2 == 0) ≡ true = ground arith in
            let next : suc row / 2 ≡ suc (row / 2) = ground arith in
            (
              (λ e l. absurd (omega arith)),
              ((λ e. absurd (ground arith)), is ∙ rw (up, down, next, first, line_end)),
            )
      ]
