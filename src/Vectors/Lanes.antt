-- ===== src/Vectors/Lanes.antt =====
-- What the lanes of a written vector hold.
use hipacc_vivado.Prelude.{
  ℕ, suc, ◌+◌, ◌-◌, ◌*◌, ◌/◌, ◌≤◌, ◌<◌, ◌≡◌, ◌⊎◌, inl, inr, ◌∙◌, ap, arith, ltb, ltb→lt, ltb→le,
  Bool-cases, loop_inv,
}
use native.Mathlib.Nat.{mul-le-mul_right, mul-div-le}
use hipacc_vivado.Vectors.{lane, fill, vector_filter}

-- What is asked of the bit ranges of a vector of `size` bits, as `ap_uint` documents them: a range holds
-- what was last assigned to it, cut to the bits of the range by `trunc`, and an assignment leaves the
-- ranges alone that it does not meet. Of positions from `size` on nothing is asked.
pub record RangeLaws {U B : Type 0} (size : ℕ) (trunc : ℕ → B → B) (range : U → ℕ → ℕ → B)
    (set_range : U → ℕ → ℕ → B → U) : Type 0 where
  pub assigned :
      (u : U) (lo hi : ℕ) (b : B)
      → lo ≤ hi
      → hi < size
      → range (set_range u lo hi b) lo hi ≡ trunc (hi + 1 - lo) b
  pub untouched :
      (u : U) (lo hi lo' hi' : ℕ) (b : B)
      → lo ≤ hi
      → lo' ≤ hi'
      → hi < size
      → hi' < size
      → (hi < lo') ⊎ (hi' < lo)
      → range (set_range u lo hi b) lo' hi' ≡ range u lo' hi'

-- Lanes of `w` bits do not meet.
apart : (w i k : ℕ) → 0 < w → i < k → suc i * w - 1 < k * w
apart w i k pos h = grind arith

ordered : (w i : ℕ) → 0 < w → i * w ≤ suc i * w - 1
ordered w i pos = grind arith

inside_size : (w vect size i : ℕ) → 0 < w → vect * w ≤ size → i < vect → suc i * w - 1 < size
inside_size w vect size i pos fits h =
    let below : suc i * w ≤ vect * w = mul-le-mul_right w h in
    let some : suc i * w ≡ i * w + w = grind arith in omega arith

lane_width : (w i : ℕ) → 0 < w → suc i * w - 1 + 1 - i * w ≡ w
lane_width w i pos = let some : suc i * w ≡ i * w + w = grind arith in omega arith

module _ {V U A B : Type 0} (trunc : ℕ → B → B) (range : V → ℕ → ℕ → A) (range_out : U → ℕ → ℕ → B)
    (set_range : U → ℕ → ℕ → B → U) (uninit : U) (bw_in bw_out vect : ℕ) where
  abbrev width_out : ℕ
  width_out = bw_out / vect

  abbrev pub lane_out : U → ℕ → B
  lane_out u i = range_out u (i * (bw_out / vect)) (suc i * (bw_out / vect) - 1)

  lane_out-fill :
      (result : ℕ → B)
      → RangeLaws bw_out trunc range_out set_range
      → 0 < bw_out / vect
      → (i : ℕ) → i < vect
      → lane_out (fill range set_range uninit bw_in bw_out vect result) i
        ≡ trunc (bw_out / vect) (result i)
  unfolding fill
  lane_out-fill result laws pos i inside =
      let fits : vect * width_out ≤ bw_out = mul-div-le bw_out vect in
      let ends : (k : ℕ) → k < vect → suc k * width_out - 1 < bw_out =
        (λ k h. inside_size width_out vect bw_out k pos fits h) in
      loop_inv (λ k u. (j : ℕ) → j < k → lane_out u j ≡ trunc (bw_out / vect) (result j)) _ vect 0
        vect (omega arith)
        (λ k u l h before j below. elim (Bool-cases (ltb j k)) [
          | inl earlier ↦
              laws.untouched u (k * width_out) (suc k * width_out - 1) (j * width_out)
                (suc j * width_out - 1) (result k) (ordered width_out k pos)
                (ordered width_out j pos) (ends k h) (ends j (omega arith))
                (inr (apart width_out j k pos (ltb→lt j k earlier)))
              ∙ before j (ltb→lt j k earlier)
          | inr last ↦
              let here : j ≡ k = (let reached = ltb→le j k last in omega arith) in
              rw here (
                laws.assigned u (k * width_out) (suc k * width_out - 1) (result k)
                  (ordered width_out k pos) (ends k h)
                ∙ ap (λ n. trunc n (result k)) (lane_width width_out k pos))
        ])
        uninit (λ j below. absurd (omega arith)) i inside

  -- With lanes of at least one bit and the documented laws of the bit ranges up to `bw_out`, lane `i` of
  -- what `processPixelsVECT` makes of a vector is the filter of its lane `i`, cut to the bits of a lane.
  pub lane_out-vector_filter :
      (filter : A → B)
      → RangeLaws bw_out trunc range_out set_range
      → 0 < bw_out / vect
      → (val : V) (i : ℕ) → i < vect
      → lane_out (vector_filter range set_range uninit bw_in bw_out vect filter val) i
        ≡ trunc (bw_out / vect) (filter (lane range set_range uninit bw_in bw_out vect val i))
  unfolding vector_filter
  lane_out-vector_filter filter laws pos val i inside =
      lane_out-fill (λ j. filter (lane range set_range uninit bw_in bw_out vect val j)) laws pos i
        inside
