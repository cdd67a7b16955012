-- ===== src/Border/Order.antt =====
-- runtime/hipacc_vivado_filter.hpp, `getNewCoords` in the Y-DIRECTION loop, which works in place.
use hipacc_vivado.Prelude.{
  ℕ, ◌+◌, ◌*◌, ◌≤◌, ◌<◌, ◌≡◌, ◌≢◌, ◌∙◌, inl, inr, ◌⊎◌, ap, arith, ltb, Bool-cases, le→leb,
}
use hipacc_vivado.Prelude.Int.{ℤ, pos, pos_part, neg_part, ◌-ℤ◌, ◌≤ℤ◌, leb_ℤ, int_laws}
use hipacc_vivado.Border.{
  BorderPadding, border_const, border_clamp, border_mirror, border_mirror_101, left_coord,
  right_coord,
}
use hipacc_vivado.Border.Coords.{
  coord, left_border, right_border, left_exit, right_exit, middle_exit,
}
use hipacc_vivado.Border.Bounds.{entry_read, coord-entry_read}

left_coord-ge :
    (p : BorderPadding) (b d : ℤ) → p ≢ border_const → pos 1 ≤ℤ d → b ≤ℤ left_coord p b d
unfolding left_coord
left_coord-ge border_const b d n h = absurd (n (λ _. border_const))
left_coord-ge border_clamp b d n h = omega arith
left_coord-ge border_mirror b d n h = omega int_laws
left_coord-ge border_mirror_101 b d n h = omega int_laws

right_coord-le :
    (p : BorderPadding) (b d : ℤ) → p ≢ border_const → pos 1 ≤ℤ d → right_coord p b d ≤ℤ b
unfolding right_coord
right_coord-le border_const b d n h = absurd (n (λ _. border_const))
right_coord-le border_clamp b d n h = omega arith
right_coord-le border_mirror b d n h = omega int_laws
right_coord-le border_mirror_101 b d n h = omega int_laws

module _ (padding : BorderPadding) (r i col width : ℕ) (nc : padding ≢ border_const)
    (step : col < width + r) (entry : i < 2 * r + 1) where
  abbrev j : ℕ
  j = entry_read padding r i col width

  whole : coord padding r i col width ≡ pos j
  whole = coord-entry_read padding r i col width nc step entry

  -- At the left border an entry is taken from further right.
  left_order : r ≤ col → col < 2 * r → pos i ≤ℤ coord padding r i col width
  left_order h h' =
      rw (left_exit padding r i col width h h') (
        grind (int_laws, left_coord-ge padding (left_border r col) (left_border r col -ℤ pos i) nc))

  -- At the right border an entry inside the image stays, and any other is taken from there.
  right_order :
      (col < r) ⊎ (2 * r ≤ col)
      → width ≤ col
      → (coord padding r i col width ≡ pos i)
        ⊎ (coord padding r i col width ≤ℤ right_border r col width)
  right_order h h' = elim (Bool-cases (leb_ℤ (pos i) (right_border r col width))) [
    | inl stays ↦ inl (right_exit padding r i col width h h' ∙ rw stays)
    | inr over ↦ inr (
        rw (right_exit padding r i col width h h') (
          rw over (
            right_coord-le padding (right_border r col width) (pos i -ℤ right_border r col width) nc
              (grind int_laws))))
  ]

  beside_order : (col < r) ⊎ (2 * r ≤ col) → (i ≤ j) ⊎ (coord padding r j col width ≡ pos j)
  beside_order h = elim (Bool-cases (ltb col width)) [
    | inl mid ↦ inr (middle_exit padding r j col width h (ground arith))
    | inr out ↦ elim (right_order h (ground arith)) [
      | inl e ↦ inl (rw e (omega arith))
      | inr below ↦
          inr (
            right_exit padding r j col width h (ground arith) ∙ rw (le→leb _ _ (rw whole at below)))
    ]
  ]

-- An entry is read before it is written, or it holds its own value.
pub entry_read_order :
    (padding : BorderPadding) (r i col width : ℕ)
    → padding ≢ border_const
    → col < width + r
    → i < 2 * r + 1
    → (i ≤ entry_read padding r i col width)
      ⊎ (entry_read padding r (entry_read padding r i col width) col width
          ≡ entry_read padding r i col width)
entry_read_order padding r i col width nc step entry = elim (Bool-cases (ltb col r)) [
  | inl early ↦ settle (beside_order padding r i col width nc step entry (inl (ground arith)))
  | inr late ↦ elim (Bool-cases (ltb col (2 * r))) [
    | inl lo ↦
        let ahead = left_order padding r i col width nc step entry (ground arith) (ground arith) in
        let no_sign = ap neg_part (whole padding r i col width nc step entry) in inl (omega arith)
    | inr hi ↦ settle (beside_order padding r i col width nc step entry (inr (ground arith)))
  ]
]
  where
    settle :
        (i ≤ entry_read padding r i col width)
          ⊎ (coord padding r (entry_read padding r i col width) col width
              ≡ pos (entry_read padding r i col width))
        → (i ≤ entry_read padding r i col width)
          ⊎ (entry_read padding r (entry_read padding r i col width) col width
              ≡ entry_read padding r i col width)
    settle (inl a) = inl a
    settle (inr e) = inr (ap pos_part e)
