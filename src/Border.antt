-- ===== src/Border.antt =====
-- runtime/hipacc_vivado_filter.hpp, `BorderPadding` and `getNewCoords`: which entry of the sliding
-- window stands in for one that hangs over the border of the image.
pub mod Coords
pub mod Bounds
pub mod Order
pub mod Source
pub mod Tests
use package.hipacc_vivado.Prelude.{ℕ, ◌&&◌, Bool, if◌then◌else◌, true, false}
use package.hipacc_vivado.Prelude.Int.{ℤ, pos, negsuc, ◌+ℤ◌, ◌-ℤ◌, ltb_ℤ, leb_ℤ}

-- `BorderPadding::values`
pub data BorderPadding : Type 0 where
  border_const border_clamp border_mirror border_mirror_101 : BorderPadding

-- The `switch` of the left border: `d2b` is the distance of the entry to the border.
unfoldable pub left_coord : BorderPadding → ℤ → ℤ → ℤ
left_coord border_clamp border d2b = border
left_coord border_mirror border d2b = border +ℤ d2b -ℤ pos 1
left_coord border_mirror_101 border d2b = border +ℤ d2b
left_coord border_const border d2b = negsuc 0

-- The `switch` of the right border.
unfoldable pub right_coord : BorderPadding → ℤ → ℤ → ℤ
right_coord border_clamp border d2b = border
right_coord border_mirror border d2b = border -ℤ d2b +ℤ pos 1
right_coord border_mirror_101 border d2b = border -ℤ d2b
right_coord border_const border d2b = negsuc 0

-- `getNewCoords(i, kernel, offset, col, width, borderPadding)`
unfoldable pub get_new_coords : ℤ → ℤ → ℤ → ℤ → ℤ → BorderPadding → ℤ
get_new_coords i kernel offset col width padding =
    if leb_ℤ offset col && ltb_ℤ col (kernel -ℤ pos 1)
    then (let border = kernel -ℤ pos 1 -ℤ col in
        if leb_ℤ border i then i else left_coord padding border (border -ℤ i))
    else (if leb_ℤ width col
        then (let overlap = col -ℤ (width -ℤ pos 1) in
            let border = kernel -ℤ overlap -ℤ pos 1 in
            if leb_ℤ i border then i else right_coord padding border (i -ℤ border))
        else i)
