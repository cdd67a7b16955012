-- ===== src/Aggregate/Blocks.antt =====
-- runtime/hipacc_vivado_filter.hpp, a loop over the pixels of a line as a loop over its vectors.
use hipacc_vivado.Prelude.{
  ℕ, zero, suc, ◌+◌, ◌-◌, ◌*◌, ◌/◌, ◌%◌, ◌≤◌, ◌<◌, ◌≡◌, refl, ◌∙◌, ap, arith, Outcome, done, for_up,
  for_up-after, subst,
}
use native.Mathlib.Nat.{
  mul-add-mod_self_right, mod-eq_of_lt, mul-add-div_right, div-eq_of_lt, mul-le-mul_right,
}

-- `P k` holds before vector `k`.
pub for_up_blocks {ℓ κ} :
    {S : Type ℓ} (P : ℕ → S → Type κ) (body : ℕ → S → Outcome S) (vect n k : ℕ)
    → ((q : ℕ) (s : S)
        → k ≤ q
        → q < k + n
        → P q s
        → (t : S) × (for_up vect (q * vect) body s ≡ done t) × P (suc q) t)
    → (s : S) → P k s
    → (t : S) × (for_up (n * vect) (k * vect) body s ≡ done t) × P (k + n) t
unfolding for_up
for_up_blocks P body vect zero k keep s p =
    (s, (let none : 0 * vect ≡ 0 = omega arith in rw none refl), subst (λ m. P m s) (omega arith) p)
for_up_blocks P body vect (suc n) k keep s p =
    let (u, first, p') = keep k s (omega arith) (omega arith) p in
    let (t, more, q) =
      for_up_blocks P body vect n (suc k) (λ q s l h. keep q s (omega arith) (omega arith)) u p' in
    (
      t,
      for_up-after body vect (n * vect) (suc n * vect) (k * vect) (suc k * vect) s u (grind arith)
            (grind arith) first
          ∙ more,
      subst (λ m. P m t) (omega arith) q,
    )

-- Lane `col - k * vect` of vector `k`.
pub lane_at :
    (vect k col : ℕ)
    → k * vect ≤ col
    → col < k * vect + vect
    → (col % vect ≡ col - k * vect) × (col / vect ≡ k)
lane_at vect k col l u =
    let at_lane : col ≡ k * vect + (col - k * vect) = omega arith in
    let within : col - k * vect < vect = omega arith in
    (
      ap (λ c. c % vect) at_lane
          ∙ mul-add-mod_self_right k vect (col - k * vect)
          ∙ mod-eq_of_lt within,
      ap (λ c. c / vect) at_lane
          ∙ mul-add-div_right (omega arith) k (col - k * vect)
          ∙ rw (div-eq_of_lt within) (omega arith),
    )

pub block_inside : (vect k n : ℕ) → k < n → k * vect + vect ≤ n * vect
block_inside vect k n h =
    let below : suc k * vect ≤ n * vect = mul-le-mul_right vect h in grind arith
