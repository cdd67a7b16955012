-- ===== src/Window/Borders.antt =====
-- runtime/hipacc_vivado_filter.hpp, HANDLE BORDERS on the whole window.
use hipacc_vivado.Prelude.{
  ℕ, ◌+◌, ◌*◌, ◌/◌, ◌<◌, ◌≡◌, ◌≢◌, ◌∙◌, inl, inr, ap, arith, ltb, ◌==◌, ◌&&◌, ◌||◌, if_same,
  if◌then◌else◌, lt→ltb, done,
}
use hipacc_vivado.Prelude.Int.{pos}
use hipacc_vivado.Border.{BorderPadding, border_const, get_new_coords}
use hipacc_vivado.Border.Bounds.{entry_read, coord-entry_read, entry_read-lt}
use hipacc_vivado.Border.Order.{entry_read_order}
use hipacc_vivado.Window.{put, read, border_x, border_y}
use hipacc_vivado.Window.Table.{Filled, table_lem}

read-pos {ℓ} : {A : Type ℓ} (n : ℕ) (f : ℕ → A) (k : ℕ) → k < n → read n f (pos k) ≡ done (f k)
unfolding read
read-pos n f k h = rw (lt→ltb k n h)

pub half_odd : (r : ℕ) → (2 * r + 1) / 2 ≡ r
half_odd r = omega arith

module _ {ℓ} {A : Type ℓ} (padding : BorderPadding) (nc : padding ≢ border_const) where
  -- A read of dimension `2 * r + 1` at a step `col` of a line of `width` pixels.
  pub read_coord :
      (r i col width : ℕ) (f : ℕ → A)
      → col < width + r
      → i < 2 * r + 1
      → read (2 * r + 1) f (
          get_new_coords
            (pos i)
            (pos (2 * r + 1))
            (pos ((2 * r + 1) / 2))
            (pos col)
            (pos width)
            padding)
        ≡ done (f (entry_read padding r i col width))
  read_coord r i col width f step entry =
      rw (half_odd r, coord-entry_read padding r i col width nc step entry)
        (read-pos (2 * r + 1) f _ (entry_read-lt padding r i col width nc step entry))

  module _ (rx ry width height : ℕ) where
    -- In the X-direction entry `b` of each line becomes the entry that `getNewCoords` names.
    pub border_x_lem :
        (col : ℕ) (w_tmp w : ℕ → ℕ → A)
        → col < width + rx
        → (t : ℕ → ℕ → A) × (border_x (2 * rx + 1) (2 * ry + 1) width height padding col w_tmp w
            ≡ done t)
          × ((a b : ℕ)
              → a < 2 * ry + 1
              → b < 2 * rx + 1
              → t a b ≡ w_tmp a (entry_read padding rx b col width))
    unfolding border_x
    border_x_lem col w_tmp w step =
        table_lem (2 * rx + 1) (2 * ry + 1) _ (λ a b. w_tmp a (entry_read padding rx b col width)) w
          (λ i j u y z inv. rw (read_coord rx j col width (w_tmp i) step z))

    -- In the Y-direction, in place, line `a` becomes the line that `getNewCoords` names.
    pub border_y_lem :
        (row : ℕ) (w : ℕ → ℕ → A)
        → row < height + ry
        → (t : ℕ → ℕ → A) × (border_y (2 * rx + 1) (2 * ry + 1) width height padding row w ≡ done t)
          × ((a b : ℕ)
              → a < 2 * ry + 1
              → b < 2 * rx + 1
              → t a b ≡ w (entry_read padding ry a row height) b)
    unfolding border_y
    border_y_lem row w step =
        table_lem (2 * rx + 1) (2 * ry + 1) _ (λ a b. w (entry_read padding ry a row height) b) w
          (λ i j u y z inv.
            rw (read_coord ry i row height (λ a. u a j) step y)
              (ap (λ v. done (put u i j v)) (unread i j u y z inv)))
      where
        line : ℕ → ℕ
        line a = entry_read padding ry a row height

        unread :
            (i j : ℕ) (u : ℕ → ℕ → A)
            → i < 2 * ry + 1
            → j < 2 * rx + 1
            → Filled (2 * rx + 1) (2 * ry + 1) (λ i j w. done w) (λ a b. w (line a) b) w i j u
            → u (line i) j ≡ w (line i) j
        unread i j u y z inv = elim (entry_read_order padding ry i row height nc step y) [
          | inl after ↦ inv (line i) j z ∙ ground arith
          | inr settled ↦
              inv (line i) j z
              ∙ ap
                  (λ k.
                    if ltb (line i) i || ((line i == i) && ltb j j) then w k j else w (line i) j)
                  settled
              ∙ if_same (ltb (line i) i || ((line i == i) && ltb j j)) (w (line i) j)
        ]
