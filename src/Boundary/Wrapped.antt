-- ===== src/Boundary/Wrapped.antt =====
-- lib/AST/BorderHandling.cpp: which pixel a generated kernel accesses in the repeat mode.
use hipacc_vivado.Prelude.{ℕ, ◌<◌, ◌≡◌, ◌⊎◌, refl, Bool, inl, inr}
use hipacc_vivado.Prelude.Int.{ℤ, pos, ◌+ℤ◌, ◌≤ℤ◌, ◌<ℤ◌, int_laws}
use hipacc_vivado.Boundary.{gid_x, Env, lookup, store, Expr, exec, run, value}
use hipacc_vivado.Boundary.Handling.{repeat, add_border_handling}
use hipacc_vivado.Boundary.Indices.{Reads}
use hipacc_vivado.Boundary.Repeat.{
  times, repeat_upper_x, repeat_upper_y, repeat_lower_x, repeat_lower_y,
}

-- `x` lies in the part of size `w` from `o` on, and differs from `c` by a multiple of `w`.
abbrev pub Wraps : ℤ → ℤ → ℤ → ℤ → Type 0
Wraps o w c x = (o ≤ℤ x) × (x <ℤ o +ℤ w) × (j : ℕ) × (k : ℕ) × (c +ℤ times j w ≡ x +ℤ times k w)

joined_wraps :
    (w c x1 x : ℤ) (k j : ℕ)
    → c ≡ x1 +ℤ times k w
    → x1 +ℤ times j w ≡ x
    → c +ℤ times j w ≡ x +ℤ times k w
joined_wraps w c x1 x k j first second = rw (first, ← second) (grind int_laws)

near_lower : (o c x : ℤ) (m : ℕ) → o ≤ℤ c +ℤ pos m → (o ≤ℤ x) ⊎ (x ≡ c) → o ≤ℤ x +ℤ pos m
near_lower o c x m near (inl reached) = grind int_laws
near_lower o c x m near (inr same) = rw same near

module _ (mem : ℤ → ℤ → ℤ) (fuel : ℕ) (explore : Bool) (s : Env) (idx_x idx_y : Expr) where
  -- Repeat mode, for an accessor with offsets in both directions that is read at local offsets in
  -- both directions and handled at all four borders, an image that is not empty, indices at most
  -- `m` beyond its ends with `m` below the fuel of a loop, and an index for rows that does not
  -- mention the temporary for columns: the statements that `addBorderHandling` adds run to the
  -- end, loops included, and the access then is at a column and a row of the image that differ
  -- from the two indices by multiples of the sizes.
  pub repeat-Reads :
      (m : ℕ)
      → ((v : ℤ) → value mem (store s gid_x v) idx_y ≡ value mem s idx_y)
      → pos 0 <ℤ s.at_width
      → pos 0 <ℤ s.at_height
      → m < fuel
      → value mem s idx_x <ℤ s.at_offset_x +ℤ s.at_width +ℤ pos m
      → s.at_offset_x ≤ℤ value mem s idx_x +ℤ pos m
      → value mem s idx_y <ℤ s.at_offset_y +ℤ s.at_height +ℤ pos m
      → s.at_offset_y ≤ℤ value mem s idx_y +ℤ pos m
      → (x : ℤ) × (y : ℤ) × Reads mem fuel explore s idx_x idx_y repeat x y
        × Wraps s.at_offset_x s.at_width (value mem s idx_x) x
        × Wraps s.at_offset_y s.at_height (value mem s idx_y) y
  unfolding add_border_handling run exec store lookup value
  repeat-Reads m apart wide tall enough high_x low_x high_y low_y =
      let c = value mem s idx_x in
      let r = value mem s idx_y in
      let s1 = record s { at_gid_x = c; at_gid_y = r } in
      let (x1, ran1, below_x, back_x, k_x, first_x) =
        repeat_upper_x mem fuel m s1 wide enough high_x in
      let s2 = record s { at_gid_x = x1; at_gid_y = r } in
      let (y1, ran2, below_y, back_y, k_y, first_y) =
        repeat_upper_y mem fuel m s2 tall enough high_y in
      let s3 = record s { at_gid_x = x1; at_gid_y = y1 } in
      let (x, ran3, from_x, to_x, j_x, then_x) =
        repeat_lower_x mem fuel m s3 wide enough (near_lower s.at_offset_x c x1 m low_x back_x)
          below_x in
      let s4 = record s { at_gid_x = x; at_gid_y = y1 } in
      let (y, ran4, from_y, to_y, j_y, then_y) =
        repeat_lower_y mem fuel m s4 tall enough (near_lower s.at_offset_y r y1 m low_y back_y)
          below_y in
      (
        x,
        y,
        (
          _,
          _,
          record s { at_gid_x = x; at_gid_y = y },
          refl,
          rw (apart c, ran1, ran2, ran3, ran4) refl,
          refl,
        ),
        (from_x, to_x, j_x, k_x, joined_wraps s.at_width c x1 x k_x j_x first_x then_x),
        (from_y, to_y, j_y, k_y, joined_wraps s.at_height r y1 y k_y j_y first_y then_y),
      )
