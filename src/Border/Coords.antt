-- ===== src/Border/Coords.antt =====
-- runtime/hipacc_vivado_filter.hpp, `getNewCoords` against an independent description of border handling on image columns.
use hipacc_vivado.Prelude.{ℕ, ◌+◌, ◌*◌, ◌≤◌, ◌<◌, ◌≡◌, arith, ltb, if◌then◌else◌}
use hipacc_vivado.Prelude.{Bool-cases, inl, inr, ◌⊎◌, ◌≢◌}
use hipacc_vivado.Prelude.Int.{
  ℤ, pos, negsuc, ◌+ℤ◌, ◌-ℤ◌, ◌≤ℤ◌, ◌<ℤ◌, ltb_ℤ, leb_ℤ, int_laws, -ℤ_parts,
}
use hipacc_vivado.Border.{
  BorderPadding, border_const, border_clamp, border_mirror, border_mirror_101, left_coord,
  right_coord, get_new_coords,
}

-- Which column of an image of `n` columns stands for column `c`, which may lie outside.
unfoldable pub reflect_left : BorderPadding → ℤ → ℤ
reflect_left border_const c = c
reflect_left border_clamp c = pos 0
reflect_left border_mirror c = negsuc 0 -ℤ c
reflect_left border_mirror_101 c = pos 0 -ℤ c

unfoldable pub reflect_right : BorderPadding → ℤ → ℤ → ℤ
reflect_right border_const n c = c
reflect_right border_clamp n c = n -ℤ pos 1
reflect_right border_mirror n c = n +ℤ n -ℤ pos 1 -ℤ c
reflect_right border_mirror_101 n c = n +ℤ n -ℤ pos 2 -ℤ c

unfoldable pub reflect : BorderPadding → ℤ → ℤ → ℤ
unfolding reflect_left reflect_right
reflect padding n c =
    if ltb_ℤ c (pos 0)
    then reflect_left padding c
    else (if leb_ℤ n c then reflect_right padding n c else c)

-- `col - 2 r`
abbrev pub first_column : ℕ → ℕ → ℤ
first_column r col = pos col -ℤ pos (2 * r)

-- `border` of the two branches.
abbrev pub left_border : ℕ → ℕ → ℤ
left_border r col = pos (2 * r + 1) -ℤ pos 1 -ℤ pos col

abbrev pub right_border : ℕ → ℕ → ℕ → ℤ
right_border r col width = pos (2 * r + 1) -ℤ (pos col -ℤ (pos width -ℤ pos 1)) -ℤ pos 1

module _ (padding : BorderPadding) (r i col width : ℕ) where
  abbrev pub coord : ℤ
  coord = get_new_coords (pos i) (pos (2 * r + 1)) (pos r) (pos col) (pos width) padding

  -- The three exits of `getNewCoords` for a window of `2 * r + 1` entries.
  pub left_exit :
      r ≤ col
      → col < 2 * r
      → coord ≡ (
          if leb_ℤ (left_border r col) (pos i)
          then pos i
          else left_coord padding (left_border r col) (left_border r col -ℤ pos i))
  unfolding get_new_coords
  left_exit h h' = ground (arith, -ℤ_parts (pos (2 * r + 1)) (pos 1))

  pub right_exit :
      (col < r) ⊎ (2 * r ≤ col)
      → width ≤ col
      → coord ≡ (
          if leb_ℤ (pos i) (right_border r col width)
          then pos i
          else right_coord padding (right_border r col width) (pos i -ℤ right_border r col width))
  unfolding get_new_coords
  right_exit h h' = ground (arith, -ℤ_parts (pos (2 * r + 1)) (pos 1))

  pub middle_exit : (col < r) ⊎ (2 * r ≤ col) → col < width → coord ≡ pos i
  unfolding get_new_coords
  middle_exit h h' = ground (arith, -ℤ_parts (pos (2 * r + 1)) (pos 1))

-- The laws of the integer operations at the terms of the two exits.
left_lem :
    (padding : BorderPadding) (r i col width : ℕ)
    → padding ≢ border_const
    → r ≤ col
    → col < 2 * r
    → 2 * r ≤ width
    → i < 2 * r + 1
    → first_column r col +ℤ coord padding r i col width
      ≡ reflect padding (pos width) (first_column r col +ℤ pos i)
unfolding reflect left_coord
left_lem border_const r i col width nc h1 h2 h3 h4 = absurd (nc (λ _. border_const))
left_lem border_clamp r i col width nc h1 h2 h3 h4 =
    rw (left_exit border_clamp r i col width h1 h2) (grind int_laws)
left_lem border_mirror r i col width nc h1 h2 h3 h4 =
    rw (left_exit border_mirror r i col width h1 h2) (grind int_laws)
left_lem border_mirror_101 r i col width nc h1 h2 h3 h4 =
    rw (left_exit border_mirror_101 r i col width h1 h2) (grind int_laws)

right_lem :
    (padding : BorderPadding) (r i col width : ℕ)
    → padding ≢ border_const
    → width ≤ col
    → col < width + r
    → 2 * r ≤ width
    → i < 2 * r + 1
    → first_column r col +ℤ coord padding r i col width
      ≡ reflect padding (pos width) (first_column r col +ℤ pos i)
unfolding reflect right_coord
right_lem border_const r i col width nc h1 h2 h3 h4 = absurd (nc (λ _. border_const))
right_lem border_clamp r i col width nc h1 h2 h3 h4 =
    rw (right_exit border_clamp r i col width (inr (omega arith)) h1) (grind int_laws)
right_lem border_mirror r i col width nc h1 h2 h3 h4 =
    rw (right_exit border_mirror r i col width (inr (omega arith)) h1) (grind int_laws)
right_lem border_mirror_101 r i col width nc h1 h2 h3 h4 =
    rw (right_exit border_mirror_101 r i col width (inr (omega arith)) h1) (grind int_laws)

-- Border handling picks the entry that holds the column which the padding mode assigns: for an
-- odd window of `2 * r + 1` entries over an image of at least `2 * r` columns, in a step that
-- computes a pixel, and for every mode but BORDER_CONST.
pub get_new_coords-reflect :
    (padding : BorderPadding) (r i col width : ℕ)
    → padding ≢ border_const
    → r ≤ col
    → col < width + r
    → 2 * r ≤ width
    → i < 2 * r + 1
    → first_column r col +ℤ coord padding r i col width
      ≡ reflect padding (pos width) (first_column r col +ℤ pos i)
unfolding reflect
get_new_coords-reflect padding r i col width nc h1 h2 h3 h4 = elim (Bool-cases (ltb col (2 * r))) [
  | inl lo ↦ left_lem padding r i col width nc h1 (ground arith) h3 h4
  | inr hi ↦ elim (Bool-cases (ltb col width)) [
    | inl mid ↦
        rw (middle_exit padding r i col width (inr (ground arith)) (ground arith)) (grind int_laws)
    | inr out ↦ right_lem padding r i col width nc (ground arith) h2 h3 h4
  ]
]

-- The column that a padding mode assigns lies in the image.
pub reflect_inside :
    (padding : BorderPadding) (r width : ℕ) (c : ℤ)
    → padding ≢ border_const
    → 2 * r ≤ width
    → 0 < width
    → pos 0 ≤ℤ c +ℤ pos r
    → c <ℤ pos (width + r)
    → (pos 0 ≤ℤ reflect padding (pos width) c) × (reflect padding (pos width) c <ℤ pos width)
unfolding reflect
reflect_inside border_const r width c nc h1 h2 h3 h4 = absurd (nc (λ _. border_const))
reflect_inside border_clamp r width c nc h1 h2 h3 h4 = grind int_laws
reflect_inside border_mirror r width c nc h1 h2 h3 h4 = grind int_laws
reflect_inside border_mirror_101 r width c nc h1 h2 h3 h4 = grind int_laws

-- With BORDER_CONST every entry that hangs over the border gets the index -1.
pub get_new_coords-const :
    (r i col width : ℕ)
    → r ≤ col
    → col < width + r
    → 2 * r ≤ width
    → i < 2 * r + 1
    → (first_column r col +ℤ pos i <ℤ pos 0) ⊎ (pos width ≤ℤ first_column r col +ℤ pos i)
    → coord border_const r i col width ≡ negsuc 0
unfolding left_coord right_coord
get_new_coords-const r i col width h1 h2 h3 h4 over = elim (Bool-cases (ltb col (2 * r))) [
  | inl lo ↦ rw (left_exit border_const r i col width h1 (ground arith)) (grind int_laws)
  | inr hi ↦ elim (Bool-cases (ltb col width)) [
    | inl mid ↦ absurd (grind int_laws)
    | inr out ↦
        rw (right_exit border_const r i col width (inr (ground arith)) (ground arith))
          (grind int_laws)
  ]
]
