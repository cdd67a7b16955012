-- ===== src/Vectors/Loop.antt =====
-- runtime/hipacc_vivado_filter.hpp, the strided loop of the operators on vectors as rounds of its body.
use hipacc_vivado.Prelude.{
  ℕ, suc, ◌+◌, ◌-◌, ◌*◌, ◌≤◌, ◌<◌, ◌≡◌, arith, leb, if◌then◌else◌, fun_ext, Bool, Bool-cases, inl,
  inr, Outcome, done,
}
use native.Mathlib.Nat.{div-lt_iff_lt-mul}
use hipacc_vivado.Points.{point_loop}
use hipacc_vivado.Points.Rounds.{rounds, point_loop-rounds}
use hipacc_vivado.Points.Pixels.{within}
use hipacc_vivado.Vectors.{gdelay_x_v, strides, vector_loop, vector_operator}

-- The vectors of a line are those that start before its end.
strides_le : (vect n k : ℕ) → 0 < vect → strides vect n ≤ k → n ≤ k * vect
unfolding strides
strides_le vect n k pos h =
    let start = (div-lt_iff_lt-mul {k = vect} {x = n + vect - 1} {y = suc k} pos).0 (omega arith) in
    let split : suc k * vect ≡ vect + k * vect = omega arith in omega arith

le_strides : (vect n k : ℕ) → 0 < vect → n ≤ k * vect → strides vect n ≤ k
unfolding strides
le_strides vect n k pos h =
    let split : suc k * vect ≡ vect + k * vect = omega arith in
    let before =
      (div-lt_iff_lt-mul {k = vect} {x = n + vect - 1} {y = suc k} pos).1 (omega arith) in
    omega arith

strides_mono : (vect n m : ℕ) → 0 < vect → strides vect n ≤ strides vect (n + m)
strides_mono vect n m pos =
    le_strides vect n (strides vect (n + m)) pos
      (let whole = strides_le vect (n + m) (strides vect (n + m)) pos (omega arith) in omega arith)

leb-strides : (vect n k : ℕ) → 0 < vect → leb n (k * vect) ≡ leb (strides vect n) k
leb-strides vect n k pos = ground (arith, le_strides vect n k pos, strides_le vect n k pos)

module _ {S : Type 0} (step : S → Outcome S) where
  abbrev skip : (ℕ → Bool) → ℕ → S → Outcome S
  skip past k s = if past k then done s else step s

  skip-strides :
      (vect width : ℕ)
      → 0 < vect
      → skip (λ k. leb width (k * vect)) ≡ skip (λ k. leb (strides vect width) k)
  skip-strides vect width pos =
      fun_ext {A = ℕ} (λ k. fun_ext {A = S} (λ s. rw (leb-strides vect width k pos)))

  vector_loop_lem :
      (vect width height gdelay : ℕ) (s : S)
      → 0 < vect
      → vector_loop vect width height gdelay step s ≡ rounds (height * strides vect width) step s
  unfolding vector_loop point_loop
  vector_loop_lem vect width height gdelay s pos =
      let extra : ℕ = strides vect (width + gdelay) - strides vect width in
      let whole : strides vect (width + gdelay) ≡ strides vect width + extra =
        (let more = strides_mono vect width gdelay pos in omega arith) in
      rw (whole, skip-strides vect width pos)
        (point_loop-rounds step (strides vect width) height extra s)

  -- The asserts come first, and then one round for each vector of each line.
  pub vector_operator-within :
      (max_width max_height kx vect width height : ℕ) (s : S)
      → 0 < vect
      → vector_operator max_width max_height kx vect width height step s
        ≡ within max_width max_height width height (rounds (height * strides vect width) step s)
  unfolding vector_operator
  vector_operator-within max_width max_height kx vect width height s pos =
      elim (Bool-cases (leb width max_width)) [
        | inl narrow ↦ elim (Bool-cases (leb height max_height)) [
          | inl low ↦
              rw (narrow, low) (vector_loop_lem vect width height (gdelay_x_v kx vect) s pos)
          | inr high ↦ rw (narrow, high)
        ]
        | inr wide ↦ rw wide
      ]
