-- ===== src/Points/Rounds.antt =====
-- runtime/hipacc_vivado_filter.hpp, the double loop of the point operators as rounds of its body.
use hipacc_vivado.Prelude.{
  ℕ, zero, suc, ◌+◌, ◌-◌, ◌*◌, ◌≤◌, ◌≡◌, refl, sym, ◌∙◌, arith, leb, ◌&&◌, false, if◌then◌else◌,
  Bool-cases, inl, inr, le→leb, Outcome, done, blocked, fault, aborted, out_of_fuel, ◌>>=◌, for_up,
  ◌/◌, fun_ext,
}
use hipacc_vivado.Points.{point_loop, point_operator}

-- `n` rounds of a body that does not look at its index.
unfoldable pub rounds {ℓ} : {S : Type ℓ} → ℕ → (S → Outcome S) → S → Outcome S
rounds zero step s = done s
rounds (suc n) step s = step s >>= rounds n step

module _ {ℓ} {S : Type ℓ} (step : S → Outcome S) where
  pub rounds-zero : (s : S) → rounds 0 step s ≡ done s
  unfolding rounds
  rounds-zero s = refl

  pub rounds-suc : (n : ℕ) (s : S) → rounds (suc n) step s ≡ (step s >>= rounds n step)
  unfolding rounds
  rounds-suc n s = refl

  bind_assoc : (m : Outcome S) (f g : S → Outcome S) → ((m >>= f) >>= g) ≡ (m >>= λ s. f s >>= g)
  bind_assoc (done s) f g = refl
  bind_assoc blocked f g = refl
  bind_assoc fault f g = refl
  bind_assoc aborted f g = refl
  bind_assoc out_of_fuel f g = refl

  rounds-add : (m n : ℕ) (s : S) → rounds (m + n) step s ≡ (rounds m step s >>= rounds n step)
  unfolding rounds
  rounds-add zero n s = let none_first : zero + n ≡ n = omega arith in rw none_first
  rounds-add (suc m) n s =
      let first : suc m + n ≡ suc (m + n) = omega arith in
      rw (first, fun_ext (rounds-add m n))
        (sym (bind_assoc (step s) (rounds m step) (rounds n step)))

  module _ (width gdelay : ℕ) where
    abbrev body : ℕ → S → Outcome S
    body x s = if leb width x then done s else step s

    line_lem :
        (n x : ℕ) (s : S) → x + n ≡ width + gdelay → for_up n x body s ≡ rounds (width - x) step s
    unfolding for_up rounds
    line_lem zero x s e = let over : width - x ≡ 0 = omega arith in rw over
    line_lem (suc n) x s e = elim (Bool-cases (leb width x)) [
      | inl skip ↦
          let over : width - x ≡ 0 = ground arith in
          let still : width - suc x ≡ 0 = ground arith in
          rw (skip, over) (line_lem n (suc x) s (omega arith) ∙ rw still)
      | inr inside ↦
          let more : width - x ≡ suc (width - suc x) = ground arith in
          rw (inside, more, fun_ext (λ t. line_lem n (suc x) t (omega arith)))
    ]

    lines_lem :
        (n y : ℕ) (s : S)
        → for_up n y (λ i. for_up (width + gdelay) 0 body) s ≡ rounds (n * width) step s
    unfolding for_up rounds
    lines_lem zero y s = let none_first : zero * width ≡ 0 = omega arith in rw none_first
    lines_lem (suc n) y s =
        let first : suc n * width ≡ width + n * width = omega arith in
        let whole : width - 0 ≡ width = omega arith in
        rw (
          first,
          rounds-add width (n * width) s,
          line_lem (width + gdelay) 0 s (omega arith),
          whole,
          fun_ext (lines_lem n (suc y)),
        )

  pub point_loop-rounds :
      (width height gdelay : ℕ) (s : S)
      → point_loop width height gdelay step s ≡ rounds (height * width) step s
  unfolding point_loop
  point_loop-rounds width height gdelay s = lines_lem width gdelay height 0 s

  pub point_operator-rounds :
      (max_width max_height kx width height : ℕ) (s : S)
      → width ≤ max_width
      → height ≤ max_height
      → point_operator max_width max_height kx width height step s ≡ rounds (height * width) step s
  unfolding point_operator
  point_operator-rounds max_width max_height kx width height s h k =
      rw (le→leb width max_width h, le→leb height max_height k)
        (point_loop-rounds width height (kx / 2) s)

  pub point_operator-aborted :
      (max_width max_height kx width height : ℕ) (s : S)
      → (leb width max_width && leb height max_height) ≡ false
      → point_operator max_width max_height kx width height step s ≡ aborted
  unfolding point_operator
  point_operator-aborted max_width max_height kx width height s big =
      elim (Bool-cases (leb width max_width)) [
        | inl narrow ↦ rw (narrow, rw narrow at big)
        | inr wide ↦ rw wide
      ]
