-- ===== src/Border/Source.antt =====
-- Which pixel of a line a kernel tap reads, by the padding mode: the specification that the local
-- operators are measured against.
use hipacc_vivado.Prelude.{ℕ, suc, ◌+◌, ◌*◌, ◌≤◌, ◌<◌, ◌≡◌, ◌≢◌, ap, arith}
use hipacc_vivado.Prelude.Int.{pos, pos_part, neg_part, ◌-ℤ◌, ◌+ℤ◌, ◌≤ℤ◌, ◌<ℤ◌, int_laws}
use hipacc_vivado.Border.{BorderPadding, border_const}
use hipacc_vivado.Border.Coords.{first_column, reflect, reflect_inside}
use hipacc_vivado.Border.Bounds.{entry_read, entry_read-column, nonneg-pos}

-- Tap `i` of a kernel of radius `r` that is centred on pixel `x` of a line of `n` pixels.
unfoldable pub source_index : BorderPadding → ℕ → ℕ → ℕ → ℕ → ℕ
source_index padding r n x i = pos_part (reflect padding (pos n) (pos (x + i) -ℤ pos r))

module _ (padding : BorderPadding) (r n x i : ℕ) (nc : padding ≢ border_const) (inside : x < n)
    (wide : 2 * r ≤ n) (tap : i < 2 * r + 1) where
  same_column : first_column r (x + r) +ℤ pos i ≡ pos (x + i) -ℤ pos r
  same_column = omega int_laws

  bounds :
      (pos 0 ≤ℤ reflect padding (pos n) (pos (x + i) -ℤ pos r))
      × (reflect padding (pos n) (pos (x + i) -ℤ pos r) <ℤ pos n)
  bounds =
      reflect_inside padding r n (pos (x + i) -ℤ pos r) nc wide (omega arith) (omega int_laws)
        (omega int_laws)

  reflect-source_index :
      reflect padding (pos n) (pos (x + i) -ℤ pos r) ≡ pos (source_index padding r n x i)
  unfolding source_index
  reflect-source_index = nonneg-pos _ bounds.0

  pub source_index-lt : source_index padding r n x i < n
  source_index-lt = let inside = (rw reflect-source_index at bounds).1 in omega arith

  -- The entry that `getNewCoords` names holds the pixel that the padding mode assigns.
  pub entry_read-source :
      source_index padding r n x i + (2 * r + 1) ≡ suc (x + r) + entry_read padding r i (x + r) n
  entry_read-source =
      let (column, from, to) =
        entry_read-column padding r i (x + r) n nc (omega arith) tap (omega arith) wide in
      let more = ap pos_part (rw (same_column, reflect-source_index) at column) in
      let less = ap neg_part (rw (same_column, reflect-source_index) at column) in omega int_laws
