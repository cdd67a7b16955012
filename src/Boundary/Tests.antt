-- ===== src/Boundary/Tests.antt =====
-- Boundary handling for an image of 4 columns and 3 rows at the offset (2, 1).
use hipacc_vivado.Prelude.{◌≡◌, refl, arith, true, false, some, done, List}
use hipacc_vivado.Prelude.Int.{ℤ, pos, ◌+ℤ◌, ◌-ℤ◌}
use hipacc_vivado.Border.Coords.{reflect}
use hipacc_vivado.Boundary.{Env, Expr, Stmt, integer_literal, value, run}
use hipacc_vivado.Boundary.Handling.{clamp, mirror, repeat, constant, add_border_handling}
use hipacc_vivado.Boundary.Indices.{all_borders, Reads, clamp-Reads, mirror-Reads}
use hipacc_vivado.Boundary.Constant.{constant_reads}
use hipacc_vivado.Boundary.Wrapped.{Wraps, repeat-Reads}

abbrev memory : ℤ → ℤ → ℤ
memory x y = x

abbrev start : Env
start = record {
  at_gid_x = pos 0;
  at_gid_y = pos 0;
  at_tmp = pos 0;
  at_offset_x = pos 2;
  at_offset_y = pos 1;
  at_width = pos 4;
  at_height = pos 3;
  at_const_val = pos 42;
}

-- Column 0 lies two columns to the left of the image, row 5 two rows below it.
abbrev column : Expr
column = integer_literal 0

abbrev row : Expr
row = integer_literal 5

clamp-Reads_example : Reads memory 10 false start column row clamp (pos 2) (pos 3)
unfolding value reflect ◌+ℤ◌ ◌-ℤ◌
clamp-Reads_example =
    clamp-Reads memory 10 false start column row (λ v. refl) (omega arith) (omega arith)

mirror-Reads_example : Reads memory 10 false start column row mirror (pos 3) (pos 2)
unfolding value reflect ◌+ℤ◌ ◌-ℤ◌
mirror-Reads_example =
    mirror-Reads memory 10 false start column row (λ v. refl) (omega arith) (omega arith)
      (omega arith) (omega arith)

constant_reads_example :
    (stmts : List Stmt) × (result : Expr) × (t : Env) × (add_border_handling all_borders true true
        true true false constant column row
      ≡ done (stmts, result))
    × (run memory 10 stmts start ≡ some t)
    × (value memory t result ≡ pos 42)
unfolding value ◌+ℤ◌
constant_reads_example = constant_reads memory 10 false start column row (λ v. refl)

repeat-Reads_example :
    (x : ℤ) × (y : ℤ) × Reads memory 10 false start column row repeat x y
    × Wraps (pos 2) (pos 4) (pos 0) x
    × Wraps (pos 1) (pos 3) (pos 5) y
unfolding value ◌+ℤ◌
repeat-Reads_example =
    repeat-Reads memory 10 false start column row 2 (λ v. refl) (omega arith) (omega arith)
      (omega arith) (omega arith) (omega arith) (omega arith) (omega arith)
