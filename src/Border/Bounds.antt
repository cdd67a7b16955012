-- ===== src/Border/Bounds.antt =====
-- runtime/hipacc_vivado_filter.hpp, `getNewCoords`: the range of its results.
use hipacc_vivado.Prelude.{
  ℕ, ◌+◌, ◌*◌, ◌≤◌, ◌<◌, ◌≡◌, ◌≢◌, inl, inr, ◌⊎◌, ap, arith, ltb, Bool-cases,
}
use hipacc_vivado.Prelude.Int.{ℤ, pos, pos_part, neg_part, ◌+ℤ◌, ◌≤ℤ◌, int_laws}
use hipacc_vivado.Border.{
  BorderPadding, border_const, border_clamp, border_mirror, border_mirror_101, left_coord,
  right_coord,
}
use hipacc_vivado.Border.Coords.{
  coord, first_column, reflect, left_exit, right_exit, middle_exit, get_new_coords-reflect,
  reflect_inside,
}

module _ (r i col width : ℕ) (step : col < width + r) (entry : i < 2 * r + 1) where
  left_bounds :
      (padding : BorderPadding)
      → padding ≢ border_const
      → r ≤ col
      → col < 2 * r
      → (pos 0 ≤ℤ coord padding r i col width) × (coord padding r i col width ≤ℤ pos (2 * r))
  unfolding left_coord
  left_bounds border_const nc h h' = absurd (nc (λ _. border_const))
  left_bounds border_clamp nc h h' = rw (left_exit border_clamp r i col width h h') (grind int_laws)
  left_bounds border_mirror nc h h' =
      rw (left_exit border_mirror r i col width h h') (grind int_laws)
  left_bounds border_mirror_101 nc h h' =
      rw (left_exit border_mirror_101 r i col width h h') (grind int_laws)

  right_bounds :
      (padding : BorderPadding)
      → padding ≢ border_const
      → (col < r) ⊎ (2 * r ≤ col)
      → width ≤ col
      → (pos 0 ≤ℤ coord padding r i col width) × (coord padding r i col width ≤ℤ pos (2 * r))
  unfolding right_coord
  right_bounds border_const nc h h' = absurd (nc (λ _. border_const))
  right_bounds border_clamp nc h h' =
      rw (right_exit border_clamp r i col width h h') (grind int_laws)
  right_bounds border_mirror nc h h' =
      rw (right_exit border_mirror r i col width h h') (grind int_laws)
  right_bounds border_mirror_101 nc h h' =
      rw (right_exit border_mirror_101 r i col width h h') (grind int_laws)

  beside_bounds :
      (padding : BorderPadding)
      → padding ≢ border_const
      → (col < r) ⊎ (2 * r ≤ col)
      → (pos 0 ≤ℤ coord padding r i col width) × (coord padding r i col width ≤ℤ pos (2 * r))
  beside_bounds padding nc h = elim (Bool-cases (ltb col width)) [
    | inl mid ↦ rw (middle_exit padding r i col width h (ground arith)) (omega arith)
    | inr out ↦ right_bounds padding nc h (ground arith)
  ]

-- For an entry of a window of `2 * r + 1` entries, in a step whose column is below the width of the image
-- plus `r`, and for every padding mode but BORDER_CONST, `getNewCoords` returns an index of the window,
-- from 0 to `2 * r`. The steps of the main loops beyond that column, where the image is narrower than
-- the maximal size, are not covered.
pub get_new_coords_bounds :
    (padding : BorderPadding) (r i col width : ℕ)
    → padding ≢ border_const
    → col < width + r
    → i < 2 * r + 1
    → (pos 0 ≤ℤ coord padding r i col width) × (coord padding r i col width ≤ℤ pos (2 * r))
get_new_coords_bounds padding r i col width nc step entry = elim (Bool-cases (ltb col r)) [
  | inl early ↦ beside_bounds r i col width step entry padding nc (inl (ground arith))
  | inr late ↦ elim (Bool-cases (ltb col (2 * r))) [
    | inl lo ↦ left_bounds r i col width step entry padding nc (ground arith) (ground arith)
    | inr hi ↦ beside_bounds r i col width step entry padding nc (inr (ground arith))
  ]
]

pub nonneg-pos : (a : ℤ) → pos 0 ≤ℤ a → a ≡ pos (pos_part a)
nonneg-pos a h = ground arith

-- The entry that a step reads, as a number.
abbrev pub entry_read : BorderPadding → ℕ → ℕ → ℕ → ℕ → ℕ
entry_read padding r i col width = pos_part (coord padding r i col width)

module _ (padding : BorderPadding) (r i col width : ℕ) (nc : padding ≢ border_const)
    (step : col < width + r) (entry : i < 2 * r + 1) where
  pub coord-entry_read : coord padding r i col width ≡ pos (entry_read padding r i col width)
  coord-entry_read = nonneg-pos _ (get_new_coords_bounds padding r i col width nc step entry).0

  pub entry_read-lt : entry_read padding r i col width < 2 * r + 1
  entry_read-lt = grind (arith, get_new_coords_bounds padding r i col width nc step entry)

  -- In a step that computes a pixel the entry holds the column that the padding mode assigns, and
  -- that column lies in the image.
  pub entry_read-column :
      r ≤ col
      → 2 * r ≤ width
      → (pos (col + entry_read padding r i col width)
          ≡ reflect padding (pos width) (first_column r col +ℤ pos i) +ℤ pos (2 * r))
        × (2 * r ≤ col + entry_read padding r i col width)
        × (col + entry_read padding r i col width < width + 2 * r)
  entry_read-column h h' =
      let e = get_new_coords-reflect padding r i col width nc h step h' entry in
      let inside =
        reflect_inside padding r width (first_column r col +ℤ pos i) nc h' (omega arith)
          (omega int_laws) (omega int_laws) in
      let whole = ap neg_part coord-entry_read in
      let more = ap pos_part e in
      let less = ap neg_part e in (omega int_laws, omega int_laws, omega int_laws)
