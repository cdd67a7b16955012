-- ===== src/Window.antt =====
-- runtime/hipacc_vivado_filter.hpp, the body that the local operators share: the line buffer, the
-- sliding window and its border handling (`process`, `processSIMO`, `processMISO`, `downsample`
-- and `upsample` repeat it word for word).
pub mod Shift
pub mod Lines
pub mod Table
pub mod Borders
pub mod Contents
pub mod Const
mod Tests
use package.hipacc_vivado.Prelude.{
  ℕ, ◌+◌, ◌-◌, ◌/◌, Bool, ◌&&◌, ltb, ◌==◌, if◌then◌else◌, Outcome, done, fault, ◌>>=◌, for_up, loop,
  List, tabulate,
}
use package.hipacc_vivado.Prelude.Int.{ℤ, pos, negsuc}
use package.hipacc_vivado.Border.{BorderPadding, get_new_coords}

-- A two-dimensional array is a function of row and column. What it holds before it is written is
-- arbitrary, and the theorems quantify over it.
module _ {ℓ} {A : Type ℓ} where
  -- `g[i][j] = v`
  unfoldable pub put : (ℕ → ℕ → A) → ℕ → ℕ → A → ℕ → ℕ → A
  put g i j v a b = if (a == i) && (b == j) then v else g a b

  -- A read at an index that `getNewCoords` computed, of a dimension of `n` entries.
  unfoldable pub read : ℕ → (ℕ → A) → ℤ → Outcome A
  read n f (pos k) = if ltb k n then done (f k) else fault
  read n f (negsuc k) = fault

  -- The array as the filter sees it: `ky` rows of `kx` entries.
  unfoldable pub array : ℕ → ℕ → (ℕ → ℕ → A) → List (List A)
  array ky kx g = tabulate ky 0 (λ i. tabulate kx 0 (g i))

-- The arrays and the last pixel read of one input stream.
pub record Buffers {ℓ} (A : Type ℓ) : Type ℓ where
  pub line_buff : ℕ → ℕ → A
  pub win : ℕ → ℕ → A
  pub win_tmp : ℕ → ℕ → A
  pub in_pixel : A

module _ {ℓ} {A : Type ℓ} (kx ky : ℕ) where
  -- UPDATE THE WINDOW
  unfoldable pub shift_row : ℕ → (ℕ → ℕ → A) → ℕ → ℕ → A
  shift_row i = loop (kx - 1) 0 (λ j w. put w i j (w i (j + 1)))

  unfoldable pub shift_window : (ℕ → ℕ → A) → ℕ → ℕ → A
  unfolding shift_row
  shift_window = loop ky 0 shift_row

  -- UPDATE THE LINE BUFFER: one round of LINE_BUFF_1, on the window and the line buffer.
  unfoldable pub line_round : ℕ → ℕ → (ℕ → ℕ → A) × (ℕ → ℕ → A) → (ℕ → ℕ → A) × (ℕ → ℕ → A)
  unfolding put
  line_round col i (w, lines) =
      if i == 0
      then (put w i (kx - 1) (lines i col), lines)
      else (let temp_lb = lines i col in (put w i (kx - 1) temp_lb, put lines (i - 1) col temp_lb))

  unfoldable pub update_lines : ℕ → Buffers A → Buffers A
  unfolding line_round
  update_lines col b =
      let (w, lines) = loop (ky - 1) 0 (line_round col) (b.win_tmp, b.line_buff) in
      record b {
        line_buff = if ltb 1 ky then put lines (ky - 2) col b.in_pixel else lines;
        win_tmp = put w (ky - 1) (kx - 1) b.in_pixel;
      }

  module _ (width height : ℕ) where
    -- The guarded updates of the window and of the line buffer.
    unfoldable pub enter : ℕ → ℕ → Buffers A → Buffers A
    unfolding shift_window update_lines
    enter row col b =
        let shifted =
          if ltb col (width + kx / 2) && ltb row (height + ky / 2)
          then record b { win_tmp = shift_window b.win_tmp }
          else b in
        if ltb col width && ltb row (height + ky / 2) then update_lines col shifted else shifted

  module _ (width height : ℕ) (padding : BorderPadding) where
    -- HANDLE BORDERS, X-DIRECTION: `win[i][j] = win_tmp[i][jx]`.
    unfoldable pub border_x_entry : ℕ → (ℕ → ℕ → A) → ℕ → ℕ → (ℕ → ℕ → A) → Outcome (ℕ → ℕ → A)
    unfolding put read
    border_x_entry col w_tmp i j w =
        let jx = get_new_coords (pos j) (pos kx) (pos (kx / 2)) (pos col) (pos width) padding in
        read kx (w_tmp i) jx >>= λ v. done (put w i j v)

    unfoldable pub border_x : ℕ → (ℕ → ℕ → A) → (ℕ → ℕ → A) → Outcome (ℕ → ℕ → A)
    unfolding border_x_entry
    border_x col w_tmp = for_up ky 0 (λ i. for_up kx 0 (border_x_entry col w_tmp i))

    -- HANDLE BORDERS, Y-DIRECTION, in place: `win[i][j] = win[ix][j]`.
    unfoldable pub border_y_entry : ℕ → ℕ → ℕ → (ℕ → ℕ → A) → Outcome (ℕ → ℕ → A)
    unfolding put read
    border_y_entry row i j w =
        let ix = get_new_coords (pos i) (pos ky) (pos (ky / 2)) (pos row) (pos height) padding in
        read ky (λ a. w a j) ix >>= λ v. done (put w i j v)

    unfoldable pub border_y : ℕ → (ℕ → ℕ → A) → Outcome (ℕ → ℕ → A)
    unfolding border_y_entry
    border_y row = for_up ky 0 (λ i. for_up kx 0 (border_y_entry row i))

    -- The part of an iteration between the read of the input and the filter.
    unfoldable pub refresh : ℕ → ℕ → Buffers A → Outcome (Buffers A)
    unfolding enter border_x border_y
    refresh row col b =
        let entered = enter width height row col b in
        border_x col entered.win_tmp entered.win >>= λ w.
        border_y row w >>= λ w'. done (record entered { win = w' })
