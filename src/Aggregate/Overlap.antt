-- ===== src/Aggregate/Overlap.antt =====
-- runtime/hipacc_vivado_filter.hpp, the macros `APRON`, `LEFT` and `RIGHT`.
use hipacc_vivado.Prelude.{
  ℕ, zero, suc, ◌+◌, ◌-◌, ◌*◌, ◌/◌, ◌%◌, ◌≤◌, ◌<◌, ◌≡◌, ◌∙◌, arith, true, false, ltb, leb, ◌==◌,
  ==→≡, Bool-cases, inl, inr, ltb→lt,
}
use native.Mathlib.Nat.{mod-eq_of_lt, mod_self, mod-lt, mod-add-div'}
use hipacc_vivado.Distribute.{apron}
use hipacc_vivado.Aggregate.{left_overlap, right_overlap}

whole_lem :
    (d vect r : ℕ)
    → d * vect ≡ r
    → 0 < r
    → (0 + r ≡ d * vect) × ((d - 1) * vect + vect ≡ r) × (1 ≤ d)
whole_lem zero vect r e h = absurd (let none : 0 * vect ≡ 0 = omega arith in omega arith)
whole_lem (suc d) vect r e h =
    let less : suc d - 1 ≡ d = omega arith in
    let more : d * vect + vect ≡ suc d * vect = grind arith in
    (omega arith, rw less (more ∙ e), omega arith)

part_lem :
    (d vect m r : ℕ)
    → m + d * vect ≡ r
    → m < vect
    → (vect - m + r ≡ (d + 1) * vect) × ((d + 1 - 1) * vect + m ≡ r) × (1 ≤ d + 1)
part_lem d vect m r e h =
    let less : d + 1 - 1 ≡ d = omega arith in
    let more : d * vect + vect ≡ (d + 1) * vect = grind arith in
    (omega arith, rw less (omega arith), omega arith)

-- Radius `r` in vectors.
module _ (r vect kernel_size : ℕ) (radius : kernel_size / 2 ≡ r) (some : 0 < r)
    (pos : 0 < vect) where
  -- The apron is the radius, rounded up to vectors.
  pub overlaps :
      (left_overlap vect kernel_size + r ≡ apron r vect * vect)
      × ((apron r vect - 1) * vect + right_overlap vect kernel_size ≡ r)
      × (0 < apron r vect)
  unfolding left_overlap right_overlap apron
  overlaps = rw radius (elim (Bool-cases (ltb r vect)) [
    | inl small ↦
        let whole : leb r vect ≡ true = ground arith in
        let rest : (r % vect) ≡ r = mod-eq_of_lt (ltb→lt r vect small) in
        let some_left : (r == 0) ≡ false = ground arith in
        rw (whole, rest, some_left) (omega arith, omega arith, omega arith)
    | inr large ↦ elim (Bool-cases (leb r vect)) [
      | inl equal ↦
          let same : r ≡ vect = ground arith in
          rw (equal, same, mod_self vect) (omega arith, omega arith, omega arith)
      | inr more ↦
          let division = mod-add-div' r vect in
          let below = mod-lt r pos in
          elim (Bool-cases (r % vect == 0)) [
            | inl whole ↦
                rw (more, whole)
                  (whole_lem (r / vect) vect r (let none = ==→≡ (r % vect) 0 whole in omega arith)
                    some)
            | inr part ↦ rw (more, part) (part_lem (r / vect) vect (r % vect) r division below)
          ]
    ]
  ])
