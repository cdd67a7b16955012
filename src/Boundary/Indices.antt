-- ===== src/Boundary/Indices.antt =====
-- lib/AST/BorderHandling.cpp: which pixel a generated kernel accesses in the clamp and mirror modes.
use hipacc_vivado.Prelude.{ℕ, ◌≡◌, refl, ap₂, Bool, true, false, some, done, List, [], ◌∷◌}
use hipacc_vivado.Prelude.Int.{ℤ, pos, ◌+ℤ◌, ◌-ℤ◌, ◌<ℤ◌}
use hipacc_vivado.Border.{border_clamp, border_mirror}
use hipacc_vivado.Border.Coords.{reflect}
use hipacc_vivado.Boundary.{
  gid_x, gid_y, offset_x, offset_y, width, height, op_add, Env, lookup, store, Expr, decl_ref,
  binary_operator, access, Stmt, decl_stmt, exec, run, value, add_clamp_upper, add_clamp_lower,
  add_mirror_upper, add_mirror_lower,
}
use hipacc_vivado.Boundary.Handling.{Boundary, clamp, mirror, Borders, add_border_handling}
use hipacc_vivado.Boundary.Modes.{
  clamp_high, clamp_low, mirror_high, mirror_low, clamp-reflect, mirror-reflect,
  exec-add_clamp_upper_x, exec-add_clamp_upper_y, exec-add_clamp_lower_x, exec-add_clamp_lower_y,
  exec-add_mirror_upper_x, exec-add_mirror_upper_y, exec-add_mirror_lower_x,
  exec-add_mirror_lower_y,
}

-- Handling at all four borders.
abbrev pub all_borders : Borders
all_borders = record { top = true; right = true; bottom = true; left = true }

module _ (mem : ℤ → ℤ → ℤ) (fuel : ℕ) (explore : Bool) (s : Env) (idx_x idx_y : Expr) where
  -- The statements for an accessor with offsets, which is read at local offsets in both directions,
  -- run to the end, and the expression then is an access at column `x` and row `y`.
  abbrev pub Reads : Boundary → ℤ → ℤ → Type 0
  Reads mode x y =
      (stmts : List Stmt) × (result : Expr) × (t : Env) × (add_border_handling all_borders true true
          true true explore mode idx_x idx_y
        ≡ done (stmts, result))
      × (run mem fuel stmts s ≡ some t)
      × (value mem t result ≡ mem x y)

  abbrev upper_x : Expr
  upper_x = binary_operator op_add (decl_ref offset_x) (decl_ref width)

  abbrev upper_y : Expr
  upper_y = binary_operator op_add (decl_ref offset_y) (decl_ref height)

  -- Clamp mode, for an accessor with offsets in both directions that is read at local offsets in
  -- both directions and handled at all four borders, an image that is not empty and an index for
  -- rows that does not mention the temporary for columns: the statements that `addBorderHandling`
  -- adds run to the end, and the access then is at the column and row that clamping to the image
  -- assigns to the two indices.
  pub clamp-Reads :
      ((v : ℤ) → value mem (store s gid_x v) idx_y ≡ value mem s idx_y)
      → pos 0 <ℤ s.at_width
      → pos 0 <ℤ s.at_height
      → Reads clamp
          (s.at_offset_x +ℤ reflect border_clamp s.at_width (value mem s idx_x -ℤ s.at_offset_x))
          (s.at_offset_y +ℤ reflect border_clamp s.at_height (value mem s idx_y -ℤ s.at_offset_y))
  unfolding add_border_handling run exec store lookup value
  clamp-Reads apart wide tall =
      let c = value mem s idx_x in
      let r = value mem s idx_y in
      let s1 = record s { at_gid_x = c; at_gid_y = r } in
      let high_x = clamp_high s.at_offset_x s.at_width c in
      let high_y = clamp_high s.at_offset_y s.at_height r in
      let s2 = record s { at_gid_x = high_x; at_gid_y = r } in
      let s3 = record s { at_gid_x = high_x; at_gid_y = high_y } in
      let low_x = clamp_low s.at_offset_x high_x in
      let low_y = clamp_low s.at_offset_y high_y in
      let s4 = record s { at_gid_x = low_x; at_gid_y = high_y } in
      (
        decl_stmt gid_x idx_x
            ∷ decl_stmt gid_y idx_y
            ∷ add_clamp_upper (decl_ref gid_x) upper_x true
            ∷ add_clamp_upper (decl_ref gid_y) upper_y false
            ∷ add_clamp_lower (decl_ref gid_x) (decl_ref offset_x) true
            ∷ add_clamp_lower (decl_ref gid_y) (decl_ref offset_y) false
            ∷ [],
        access (decl_ref gid_x) (decl_ref gid_y),
        record s { at_gid_x = low_x; at_gid_y = low_y },
        refl,
        rw
            (
              apart c,
              exec-add_clamp_upper_x mem fuel s1,
              exec-add_clamp_upper_y mem fuel s2,
              exec-add_clamp_lower_x mem fuel s3,
              exec-add_clamp_lower_y mem fuel s4,
            )
            refl,
        ap₂ mem (clamp-reflect s.at_offset_x s.at_width c wide)
            (clamp-reflect s.at_offset_y s.at_height r tall),
      )

  -- Mirror mode, for an accessor with offsets in both directions that is read at local offsets in
  -- both directions and handled at all four borders, an image that is not empty, indices less
  -- than one size beyond its upper ends and an index for rows that does not mention the temporary
  -- for columns: the statements that `addBorderHandling` adds run to the end, and the access then
  -- is at the column and row that one reflection at the border, the border pixel repeated,
  -- assigns to the two indices.
  pub mirror-Reads :
      ((v : ℤ) → value mem (store s gid_x v) idx_y ≡ value mem s idx_y)
      → pos 0 <ℤ s.at_width
      → pos 0 <ℤ s.at_height
      → value mem s idx_x <ℤ s.at_offset_x +ℤ (s.at_width +ℤ s.at_width)
      → value mem s idx_y <ℤ s.at_offset_y +ℤ (s.at_height +ℤ s.at_height)
      → Reads mirror
          (s.at_offset_x +ℤ reflect border_mirror s.at_width (value mem s idx_x -ℤ s.at_offset_x))
          (s.at_offset_y +ℤ reflect border_mirror s.at_height (value mem s idx_y -ℤ s.at_offset_y))
  unfolding add_border_handling run exec store lookup value
  mirror-Reads apart wide tall near_x near_y =
      let c = value mem s idx_x in
      let r = value mem s idx_y in
      let s1 = record s { at_gid_x = c; at_gid_y = r } in
      let high_x = mirror_high s.at_offset_x s.at_width c in
      let high_y = mirror_high s.at_offset_y s.at_height r in
      let s2 = record s { at_gid_x = high_x; at_gid_y = r } in
      let s3 = record s { at_gid_x = high_x; at_gid_y = high_y } in
      let low_x = mirror_low s.at_offset_x high_x in
      let low_y = mirror_low s.at_offset_y high_y in
      let s4 = record s { at_gid_x = low_x; at_gid_y = high_y } in
      (
        decl_stmt gid_x idx_x
            ∷ decl_stmt gid_y idx_y
            ∷ add_mirror_upper (decl_ref gid_x) upper_x true
            ∷ add_mirror_upper (decl_ref gid_y) upper_y false
            ∷ add_mirror_lower (decl_ref gid_x) (decl_ref offset_x) true
            ∷ add_mirror_lower (decl_ref gid_y) (decl_ref offset_y) false
            ∷ [],
        access (decl_ref gid_x) (decl_ref gid_y),
        record s { at_gid_x = low_x; at_gid_y = low_y },
        refl,
        rw
            (
              apart c,
              exec-add_mirror_upper_x mem fuel s1,
              exec-add_mirror_upper_y mem fuel s2,
              exec-add_mirror_lower_x mem fuel s3,
              exec-add_mirror_lower_y mem fuel s4,
            )
            refl,
        ap₂ mem (mirror-reflect s.at_offset_x s.at_width c wide near_x)
            (mirror-reflect s.at_offset_y s.at_height r tall near_y),
      )
