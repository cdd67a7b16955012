-- ===== src/Border/Tests.antt =====
-- The border handling at concrete inputs.
use hipacc_vivado.Prelude.{◌≡◌, ◌≢◌, refl, arith}
use hipacc_vivado.Prelude.Int.{pos, ◌+ℤ◌, ◌-ℤ◌, ◌≤ℤ◌}
use hipacc_vivado.Border.{
  border_const, border_clamp, border_mirror, border_mirror_101, get_new_coords, left_coord,
  right_coord,
}
use hipacc_vivado.Border.Coords.{first_column, reflect, coord, get_new_coords-reflect}
use hipacc_vivado.Border.Bounds.{get_new_coords_bounds}

pub mirror_allowed : border_mirror ≢ border_const
mirror_allowed = λ e. absurd (cc)

pub clamp_allowed : border_clamp ≢ border_const
clamp_allowed = λ e. absurd (cc)

pub mirror_101_allowed : border_mirror_101 ≢ border_const
mirror_101_allowed = λ e. absurd (cc)

-- Entry 0 of a window of 5 at the left border, and entry 4 at the right border of 8 columns.
get_new_coords_mirror_test :
    get_new_coords (pos 0) (pos 5) (pos 2) (pos 2) (pos 8) border_mirror ≡ pos 3
unfolding get_new_coords left_coord ◌+ℤ◌ ◌-ℤ◌
get_new_coords_mirror_test = refl

get_new_coords_clamp_test :
    get_new_coords (pos 4) (pos 5) (pos 2) (pos 9) (pos 8) border_clamp ≡ pos 2
unfolding get_new_coords right_coord ◌+ℤ◌ ◌-ℤ◌
get_new_coords_clamp_test = refl

get_new_coords-reflect_example :
    first_column 2 2 +ℤ coord border_mirror 2 0 2 8
    ≡ reflect border_mirror (pos 8) (first_column 2 2 +ℤ pos 0)
get_new_coords-reflect_example =
    get_new_coords-reflect border_mirror 2 0 2 8 mirror_allowed (omega arith) (omega arith)
      (omega arith) (omega arith)

get_new_coords_bounds_example :
    (pos 0 ≤ℤ coord border_mirror_101 2 4 9 8) × (coord border_mirror_101 2 4 9 8 ≤ℤ pos 4)
get_new_coords_bounds_example =
    get_new_coords_bounds border_mirror_101 2 4 9 8 mirror_101_allowed (omega arith) (omega arith)
