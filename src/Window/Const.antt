-- ===== src/Window/Const.antt =====
-- runtime/hipacc_vivado_filter.hpp, HANDLE BORDERS with BORDER_CONST.
use hipacc_vivado.Prelude.{ℕ, ◌+◌, ◌*◌, ◌≤◌, ◌<◌, ◌≡◌, arith, fault, for_up_fault}
use hipacc_vivado.Prelude.Int.{negsuc, int_laws}
use hipacc_vivado.Border.{border_const, left_coord}
use hipacc_vivado.Border.Coords.{coord, left_exit}
use hipacc_vivado.Window.{Buffers, read, enter, border_x_entry, border_x, refresh}
use hipacc_vivado.Window.Borders.{half_odd}

-- The first entry of the window hangs over the left border.
first_coord :
    (r col width : ℕ) → r ≤ col → col < 2 * r → coord border_const r 0 col width ≡ negsuc 0
unfolding left_coord
first_coord r col width h h' = rw (left_exit border_const r 0 col width h h') (grind int_laws)

first_entry {ℓ} :
    {A : Type ℓ} (rx ry width height col : ℕ) (w_tmp w : ℕ → ℕ → A)
    → rx ≤ col
    → col < 2 * rx
    → border_x_entry (2 * rx + 1) (2 * ry + 1) width height border_const col w_tmp 0 0 w ≡ fault
unfolding border_x_entry read
first_entry rx ry width height col w_tmp w h h' = rw (half_odd rx, first_coord rx col width h h')

border_x_fault {ℓ} :
    {A : Type ℓ} (rx ry width height col : ℕ) (w_tmp w : ℕ → ℕ → A)
    → rx ≤ col
    → col < 2 * rx
    → border_x (2 * rx + 1) (2 * ry + 1) width height border_const col w_tmp w ≡ fault
unfolding border_x
border_x_fault rx ry width height col w_tmp w h h' = for_up_fault _ (2 * ry + 1) 0 w (omega arith) (
    for_up_fault _ (2 * rx + 1) 0 w (omega arith) (first_entry rx ry width height col w_tmp w h h'))

-- In every step from the first that computes a pixel to the last whose window hangs over the left
-- border, border handling with BORDER_CONST indexes the window out of bounds.
pub refresh_fault {ℓ} :
    {A : Type ℓ} (rx ry width height row col : ℕ) (b : Buffers A)
    → rx ≤ col
    → col < 2 * rx
    → refresh (2 * rx + 1) (2 * ry + 1) width height border_const row col b ≡ fault
unfolding refresh
refresh_fault rx ry width height row col b h h' = rw (
    border_x_fault rx ry width height col
      (enter (2 * rx + 1) (2 * ry + 1) width height row col b).win_tmp
      (enter (2 * rx + 1) (2 * ry + 1) width height row col b).win h h')
