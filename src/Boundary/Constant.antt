-- ===== src/Boundary/Constant.antt =====
-- lib/AST/BorderHandling.cpp: what a generated kernel reads in the constant mode.
use hipacc_vivado.Prelude.{
  ℕ, ◌≡◌, refl, Bool, true, ◌&&◌, if◌then◌else◌, Bool-cases, inl, inr, some, done, List,
}
use hipacc_vivado.Prelude.Int.{ℤ, ◌+ℤ◌, leb_ℤ, ltb_ℤ}
use hipacc_vivado.Boundary.{
  gid_x, gid_y, Env, lookup, store, Expr, decl_ref, access, Stmt, exec, run, value,
  add_constant_upper, add_constant_lower,
}
use hipacc_vivado.Boundary.Handling.{constant, add_border_handling}
use hipacc_vivado.Boundary.Indices.{all_borders}

module _ (mem : ℤ → ℤ → ℤ) (fuel : ℕ) (explore : Bool) (s : Env) (idx_x idx_y : Expr) where
  -- Column `c` and row `r` lie in the image.
  abbrev pub inside : ℤ → ℤ → Bool
  inside c r =
      leb_ℤ s.at_offset_y r
      && (leb_ℤ s.at_offset_x c
          && (ltb_ℤ r (s.at_offset_y +ℤ s.at_height) && ltb_ℤ c (s.at_offset_x +ℤ s.at_width)))

  -- Constant mode, for an accessor with offsets, handled at all four borders, and an index for rows
  -- that does not mention the temporary for columns: the statements that `addBorderHandling` adds run to
  -- the end, and the expression that it returns then is the pixel if the indices lie in the image, and
  -- the constant of the accessor if not.
  pub constant_reads :
      ((v : ℤ) → value mem (store s gid_x v) idx_y ≡ value mem s idx_y)
      → (stmts : List Stmt) × (result : Expr) × (t : Env) × (add_border_handling all_borders true
            true true true explore constant idx_x idx_y
          ≡ done (stmts, result))
        × (run mem fuel stmts s ≡ some t)
        × (value mem t result ≡ (
            if inside (value mem s idx_x) (value mem s idx_y)
            then mem (value mem s idx_x) (value mem s idx_y)
            else s.at_const_val))
  unfolding add_border_handling run exec store lookup value add_constant_upper add_constant_lower
  constant_reads apart =
      let c = value mem s idx_x in
      let r = value mem s idx_y in
      let access_xy = access (decl_ref gid_x) (decl_ref gid_y) in
      (
        _,
        _,
        record s {
          at_gid_x = c;
          at_gid_y = r;
          at_tmp = if inside c r then mem c r else s.at_const_val;
        },
        refl,
        rw (apart c)
            (elim (Bool-cases (inside c r)) [ inl within ↦ rw within | inr beyond ↦ rw beyond ]),
        refl,
      )
