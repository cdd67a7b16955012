-- ===== src/Parts.antt =====
-- runtime/hipacc_vivado_filter.hpp, `processL`, `processC` and `processR`: the local operators for the
-- left, an inner and the right part of an image that is distributed to parallel operators. A part
-- arrives with `GROUP_DELAY` columns of each neighbour.
--
-- The kernel has `k` rows and `k` columns. The line buffer is an array of so many columns; the source
-- indexes it outside where a part is wider than that.
pub mod Moves
pub mod Standing
pub mod Left
pub mod Inner
pub mod Right
mod Tests
use package.hipacc_vivado.Prelude.{
  ℕ, ◌+◌, ◌*◌, ◌/◌, ◌%◌, Bool, true, false, ◌&&◌, ◌||◌, ltb, leb, ◌==◌, if◌then◌else◌, Outcome,
  done, fault, ◌>>=◌, ◌>>◌, assert, for_up, List, ◌∷◌, [], ◌++◌,
}
use package.hipacc_vivado.Prelude.Int.{pos}
use package.hipacc_vivado.Border.{BorderPadding, get_new_coords}
use package.hipacc_vivado.Window.{
  Buffers, put, read, array, shift_window, update_lines, border_x, border_y,
}
use package.hipacc_vivado.Local.{Streams, read_in, write_out}

-- An index of the line buffer.
abbrev pub in_bounds : Bool → Outcome (Unit {0})
in_bounds true = done tt
in_bounds false = fault

module _ {A : Type 0} (k : ℕ) where
  -- UPDATE THE WINDOW and UPDATE THE LINE BUFFER, of `columns` columns; a kernel of one line has none.
  unfoldable pub enter_part : ℕ → ℕ → Buffers A → Outcome (Buffers A)
  enter_part columns col b = do
    in_bounds (leb k 1 || ltb col columns)
    done (update_lines k k col (record b { win_tmp = shift_window k k b.win_tmp }))

  -- The borders of `processC`, which has them above and below only: `win[i][j] = win_tmp[ix][j]`.
  module _ (height : ℕ) (padding : BorderPadding) where
    unfoldable pub inner_entry : ℕ → (ℕ → ℕ → A) → ℕ → ℕ → (ℕ → ℕ → A) → Outcome (ℕ → ℕ → A)
    inner_entry row w_tmp i j w =
        let ix = get_new_coords (pos i) (pos k) (pos (k / 2)) (pos row) (pos height) padding in
        read k (λ a. w_tmp a j) ix >>= λ v. done (put w i j v)

    unfoldable pub inner_borders : ℕ → (ℕ → ℕ → A) → (ℕ → ℕ → A) → Outcome (ℕ → ℕ → A)
    inner_borders row w_tmp = for_up k 0 (λ i. for_up k 0 (inner_entry row w_tmp i))

-- The main loop and the asserts, of which the first two are on the sizes.
abbrev pub part_loop {ℓ} : {S : Type ℓ} → ℕ → ℕ → ℕ → (ℕ → ℕ → S → Outcome S) → S → Outcome S
part_loop k width height step =
    for_up (height + k / 2) 0 (λ row. for_up (width + 2 * (k / 2)) 0 (step row))

abbrev pub part_checked {ℓ} : {S : Type ℓ} → Bool → Bool → ℕ → Outcome S → Outcome S
part_checked fits_width fits_height k body = do
  assert fits_width
  assert fits_height
  assert (k % 2 == 1)
  body

module _ {A B : Type 0} (max_width max_height k width height : ℕ) (filter : List (List A) → B)
    (padding : BorderPadding) where
  -- FILTER COMPUTATION AND OUTPUT ASSIGNMENT, where `guard` holds.
  abbrev filtered : Bool → (ℕ → ℕ → A) → Streams A B → Streams A B
  filtered guard w t = if guard then write_out (filter (array k k w)) t else t

  -- An iteration of `processL`: nothing moves on below the last line.
  unfoldable pub left_input : ℕ → ℕ → Buffers A × Streams A B → Outcome (Buffers A × Streams A B)
  left_input row col (b, t) =
      if ltb col (width + k / 2) && ltb row height
      then (read_in t >>= λ (x, t').
          enter_part k (max_width + k / 2) col (record b { in_pixel = x }) >>= λ b'. done (b', t'))
      else done (b, t)

  unfoldable pub left_step : ℕ → ℕ → Buffers A × Streams A B → Outcome (Buffers A × Streams A B)
  left_step row col s = do
    (b, t) ← left_input row col s
    w ← border_x k k (width + k / 2) height padding col b.win_tmp b.win
    w' ← border_y k k width height padding row w
    done (
      record b { win = w' },
      filtered (leb (k / 2) row && (leb (k / 2) col && ltb col (width + k / 2))) w' t,
    )

  unfoldable pub process_l : Buffers A × Streams A B → Outcome (Buffers A × Streams A B)
  process_l s =
      part_checked (leb width (max_width + k / 2)) (leb height (max_height + k / 2)) k
        (part_loop k width height left_step s)

  -- An iteration of `processC`.
  unfoldable pub inner_input : ℕ → ℕ → Buffers A × Streams A B → Outcome (Buffers A × Streams A B)
  inner_input row col (b, t) =
      if ltb col (width + 2 * (k / 2)) && ltb row height
      then (read_in t >>= λ (x, t').
          enter_part k (max_width + 2 * (k / 2)) col (record b { in_pixel = x }) >>= λ b'.
          done (b', t'))
      else done (b, t)

  unfoldable pub inner_step : ℕ → ℕ → Buffers A × Streams A B → Outcome (Buffers A × Streams A B)
  inner_step row col s = do
    (b, t) ← inner_input row col s
    w ← inner_borders k height padding row b.win_tmp b.win
    done (record b { win = w }, filtered (leb (k / 2) row && leb (2 * (k / 2)) col) w t)

  unfoldable pub process_c : Buffers A × Streams A B → Outcome (Buffers A × Streams A B)
  process_c s =
      part_checked (leb width (max_width + 2 * (k / 2))) (leb height (max_height + k / 2)) k
        (part_loop k width height inner_step s)

  -- An iteration of `processR`, which reads less than it moves on.
  unfoldable pub right_input : ℕ → ℕ → Buffers A × Streams A B → Outcome (Buffers A × Streams A B)
  right_input row col (b, t) =
      if ltb col (width + k / 2) && ltb row height
      then (read_in t >>= λ (x, t'). done (record b { in_pixel = x }, t'))
      else done (b, t)

  unfoldable pub right_enter : ℕ → ℕ → Buffers A → Outcome (Buffers A)
  right_enter row col b =
      if ltb col (width + 2 * (k / 2)) && ltb row (height + k / 2)
      then enter_part k (max_width + 2 * (k / 2)) col b
      else done b

  unfoldable pub right_step : ℕ → ℕ → Buffers A × Streams A B → Outcome (Buffers A × Streams A B)
  right_step row col s = do
    (b, t) ← right_input row col s
    b' ← right_enter row col b
    w ← border_x k k (width + 2 * (k / 2)) height padding col b'.win_tmp b'.win
    w' ← border_y k k width height padding row w
    done (record b' { win = w' }, filtered (leb (k / 2) row && leb (2 * (k / 2)) col) w' t)

  unfoldable pub process_r : Buffers A × Streams A B → Outcome (Buffers A × Streams A B)
  process_r s =
      part_checked (leb width max_width) (leb height max_height) k
        (part_loop k width height right_step s)
