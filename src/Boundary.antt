-- ===== src/Boundary.antt =====
-- lib/AST/BorderHandling.cpp: the statements that a generated kernel runs on an index before it
-- accesses an image, for the boundary modes of an accessor.
--
-- A kernel is printed as text before it is compiled, and the code counts on the printer putting no
-- parentheses around the operands of an operator: it builds a `ParenExpr` wherever it wants some. So
-- the meaning of an expression here is that of its text.
pub mod Handling
pub mod Modes
pub mod Indices
pub mod Constant
pub mod Repeat
pub mod Wrapped
mod Tests
use package.hipacc_vivado.Prelude.{
  ℕ, zero, suc, Bool, true, false, ◌&&◌, if◌then◌else◌, Option, none, some, Outcome, done, aborted,
  List, [], ◌∷◌, ◌++◌,
}
use package.hipacc_vivado.Prelude.Int.{ℤ, pos, ◌+ℤ◌, ◌-ℤ◌, leb_ℤ, ltb_ℤ}

-- The declarations that the statements refer to: `_gid_x<n>`, `_gid_y<n>`, `_tmp<n>`, and those of the
-- accessor.
pub data Name : Type 0 where
  gid_x gid_y tmp offset_x offset_y width height const_val : Name

-- The operators of the front end, BO_Add to BO_Assign, and its expressions and statements.
pub data Op : Type 0 where
  op_add op_sub op_ge op_lt op_land op_assign : Op

-- `access x y` is the access of `accessMem2DAt`.
pub data Expr : Type 0 where
  decl_ref : Name → Expr
  integer_literal : ℕ → Expr
  binary_operator : Op → Expr → Expr → Expr
  paren_expr : Expr → Expr
  access : Expr → Expr → Expr

pub data Stmt : Type 0 where
  if_stmt while_stmt : Expr → Expr → Stmt
  decl_stmt : Name → Expr → Stmt
  expr_stmt : Expr → Stmt

-- What the declarations hold.
pub record Env : Type 0 where
  pub at_gid_x : ℤ
  pub at_gid_y : ℤ
  pub at_tmp : ℤ
  pub at_offset_x : ℤ
  pub at_offset_y : ℤ
  pub at_width : ℤ
  pub at_height : ℤ
  pub at_const_val : ℤ

unfoldable pub lookup : Env → Name → ℤ
lookup e gid_x = e.at_gid_x
lookup e gid_y = e.at_gid_y
lookup e tmp = e.at_tmp
lookup e offset_x = e.at_offset_x
lookup e offset_y = e.at_offset_y
lookup e width = e.at_width
lookup e height = e.at_height
lookup e const_val = e.at_const_val

unfoldable pub store : Env → Name → ℤ → Env
store e gid_x v = record e { at_gid_x = v }
store e gid_y v = record e { at_gid_y = v }
store e tmp v = record e { at_tmp = v }
store e offset_x v = record e { at_offset_x = v }
store e offset_y v = record e { at_offset_y = v }
store e width v = record e { at_width = v }
store e height v = record e { at_height = v }
store e const_val v = record e { at_const_val = v }

abbrev apply : Op → ℤ → ℤ → ℤ
apply op_add a b = a +ℤ b
apply op_sub a b = a -ℤ b
apply op_ge a b = a
apply op_lt a b = a
apply op_land a b = a
apply op_assign a b = a

module _ (mem : ℤ → ℤ → ℤ) where
  -- The text is read from left to right: `value` is that of a whole text, `after` that of a text
  -- which follows `acc op`.
  unfoldable mutual
    pub value : Env → Expr → ℤ
    value s (decl_ref x) = lookup s x
    value s (integer_literal n) = pos n
    value s (binary_operator op a b) = after s op (value s a) b
    value s (paren_expr e) = value s e
    value s (access x y) = mem (value s x) (value s y)

    pub after : Env → Op → ℤ → Expr → ℤ
    after s op acc (decl_ref x) = apply op acc (lookup s x)
    after s op acc (integer_literal n) = apply op acc (pos n)
    after s op acc (binary_operator op' a b) = after s op' (after s op acc a) b
    after s op acc (paren_expr e) = apply op acc (value s e)
    after s op acc (access x y) = apply op acc (mem (value s x) (value s y))

  -- A condition: comparisons of sums, joined by `&&`.
  unfoldable pub holds : Env → Expr → Bool
  unfolding value
  holds s (binary_operator op_ge a b) = leb_ℤ (value s b) (value s a)
  holds s (binary_operator op_lt a b) = ltb_ℤ (value s a) (value s b)
  holds s (binary_operator op_land a b) = holds s a && holds s b
  holds s e = false

  unfoldable pub assign : Env → Expr → Env
  unfolding value
  assign s (binary_operator op_assign (decl_ref x) e) = store s x (value s e)
  assign s e = s

  -- `none`: the fuel was not enough for a loop.
  unfoldable pub while_loop : ℕ → Expr → Expr → Env → Option Env
  unfolding holds assign
  while_loop zero cond body s = none
  while_loop (suc fuel) cond body s =
      let rest = while_loop fuel cond body (assign s body) in if holds s cond then rest else some s

  unfoldable pub exec : ℕ → Stmt → Env → Option Env
  unfolding holds assign while_loop
  exec fuel (if_stmt cond then_stmt) s = some (if holds s cond then assign s then_stmt else s)
  exec fuel (while_stmt cond body) s = while_loop fuel cond body s
  exec fuel (decl_stmt x e) s = some (store s x (value s e))
  exec fuel (expr_stmt e) s = some (assign s e)

  abbrev pub and_then : Option Env → (Env → Option Env) → Option Env
  and_then none k = none
  and_then (some s) k = k s

  unfoldable pub run : ℕ → List Stmt → Env → Option Env
  unfolding exec
  run fuel [] s = some s
  run fuel (stmt ∷ stmts) s = and_then (exec fuel stmt s) (run fuel stmts)

-- `addClampUpper` and `addClampLower`
unfoldable pub add_clamp_upper : Expr → Expr → Bool → Stmt
add_clamp_upper idx upper is_x =
    let bo_upper = binary_operator op_ge idx upper in
    if_stmt bo_upper
      (binary_operator op_assign idx (binary_operator op_sub upper (integer_literal 1)))

unfoldable pub add_clamp_lower : Expr → Expr → Bool → Stmt
add_clamp_lower idx lower is_x =
    let bo_lower = binary_operator op_lt idx lower in
    if_stmt bo_lower (binary_operator op_assign idx lower)

-- `addRepeatUpper` and `addRepeatLower`
unfoldable pub add_repeat_upper : Expr → Expr → Bool → Stmt
add_repeat_upper idx upper is_x =
    let bo_upper = binary_operator op_ge idx upper in
    let stride = if is_x then decl_ref width else decl_ref height in
    while_stmt bo_upper (binary_operator op_assign idx (binary_operator op_sub idx stride))

unfoldable pub add_repeat_lower : Expr → Expr → Bool → Stmt
add_repeat_lower idx lower is_x =
    let bo_lower = binary_operator op_lt idx lower in
    let stride = if is_x then decl_ref width else decl_ref height in
    while_stmt bo_lower (binary_operator op_assign idx (binary_operator op_add idx stride))

-- `addMirrorUpper` and `addMirrorLower`
unfoldable pub add_mirror_upper : Expr → Expr → Bool → Stmt
add_mirror_upper idx upper is_x =
    let bo_upper = binary_operator op_ge idx upper in
    if_stmt bo_upper (
      binary_operator op_assign idx (
        binary_operator op_sub upper (
          paren_expr (
            binary_operator op_sub (binary_operator op_add idx (integer_literal 1))
              (paren_expr upper)))))

unfoldable pub add_mirror_lower : Expr → Expr → Bool → Stmt
add_mirror_lower idx lower is_x =
    let bo_lower = binary_operator op_lt idx lower in
    if_stmt bo_lower (
      binary_operator op_assign idx (
        binary_operator op_add lower (
          paren_expr
            (binary_operator op_sub lower (binary_operator op_sub idx (integer_literal 1))))))

-- `addConstantUpper` and `addConstantLower`
abbrev joined : Expr → Option Expr → Expr
joined bo none = bo
joined bo (some cond) = binary_operator op_land bo cond

unfoldable pub add_constant_upper : Expr → Expr → Option Expr → Expr
add_constant_upper idx upper cond = joined (binary_operator op_lt idx upper) cond

unfoldable pub add_constant_lower : Expr → Expr → Option Expr → Expr
add_constant_lower idx lower cond = joined (binary_operator op_ge idx lower) cond
