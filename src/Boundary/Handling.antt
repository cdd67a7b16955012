-- ===== src/Boundary/Handling.antt =====
-- lib/AST/BorderHandling.cpp, `addBorderHandling`: which statements are put before an access, for the
-- targets that access an image by row and column, as Vivado does.
--
-- The function starts from the indices of its first three steps, which are arguments here, and
-- returns the statements that it adds and the expression that stands for the access.
use hipacc_vivado.Prelude.{
  Bool, true, false, ◌&&◌, if◌then◌else◌, Option, none, some, Outcome, done, aborted, List, [], ◌∷◌,
  ◌++◌,
}
use hipacc_vivado.Boundary.{
  Name, gid_x, gid_y, tmp, offset_x, offset_y, width, height, const_val, op_add, op_assign, Expr,
  decl_ref, integer_literal, binary_operator, access, Stmt, if_stmt, decl_stmt, expr_stmt,
  add_clamp_upper, add_clamp_lower, add_repeat_upper, add_repeat_lower, add_mirror_upper,
  add_mirror_lower, add_constant_upper, add_constant_lower,
}

pub data Boundary : Type 0 where
  undefined clamp repeat mirror constant : Boundary

-- `bh_variant.borders`
pub record Borders : Type 0 where
  pub top : Bool
  pub right : Bool
  pub bottom : Bool
  pub left : Bool

-- `lowerX`, `upperX`, `lowerY` and `upperY`
unfoldable pub lower_bound : Bool → Name → Expr
lower_bound has_offset offset = if has_offset then decl_ref offset else integer_literal 0

unfoldable pub upper_bound : Bool → Name → Name → Expr
upper_bound has_offset offset size =
    if has_offset then binary_operator op_add (decl_ref offset) (decl_ref size) else decl_ref size

-- `if (border && local_offset) bhStmts.push_back(stmt)`
abbrev pushed : Bool → Stmt → List Stmt
pushed guard stmt = if guard then stmt ∷ [] else []

-- `if (border && local_offset) bo_constant = …`
abbrev extended : Bool → (Option Expr → Expr) → Option Expr → Option Expr
extended guard add bo = if guard then some (add bo) else bo

module _ (borders : Borders) (has_offset_x has_offset_y local_x local_y : Bool) where
  abbrev lower_x : Expr
  lower_x = lower_bound has_offset_x offset_x

  abbrev upper_x : Expr
  upper_x = upper_bound has_offset_x offset_x width

  abbrev lower_y : Expr
  lower_y = lower_bound has_offset_y offset_y

  abbrev upper_y : Expr
  upper_y = upper_bound has_offset_y offset_y height

  -- The statements of the modes with functions for the two ends.
  unfoldable pub end_statements :
      (Expr → Expr → Bool → Stmt) → (Expr → Expr → Bool → Stmt) → Expr → Expr → List Stmt
  unfolding lower_bound upper_bound
  end_statements lower_fun upper_fun idx_x idx_y =
      pushed (borders.right && local_x) (upper_fun idx_x upper_x true)
      ++ pushed (borders.bottom && local_y) (upper_fun idx_y upper_y false)
      ++ pushed (borders.left && local_x) (lower_fun idx_x lower_x true)
      ++ pushed (borders.top && local_y) (lower_fun idx_y lower_y false)

  -- The condition of the constant mode.
  unfoldable pub bo_constant : Expr → Expr → Option Expr
  unfolding lower_bound upper_bound
  bo_constant idx_x idx_y =
      let bo1 = extended (borders.right && local_x) (add_constant_upper idx_x upper_x) none in
      let bo2 = extended (borders.bottom && local_y) (add_constant_upper idx_y upper_y) bo1 in
      let bo3 = extended (borders.left && local_x) (add_constant_lower idx_x lower_x) bo2 in
      extended (borders.top && local_y) (add_constant_lower idx_y lower_y) bo3

  abbrev assignment : Option Expr → Expr → Stmt
  assignment none rhs = expr_stmt (binary_operator op_assign (decl_ref tmp) rhs)
  assignment (some bo) rhs = if_stmt bo (binary_operator op_assign (decl_ref tmp) rhs)

  unfoldable pub constant_statements : Expr → Expr → List Stmt
  unfolding bo_constant
  constant_statements idx_x idx_y =
      decl_stmt tmp (decl_ref const_val)
      ∷ assignment (bo_constant idx_x idx_y) (access idx_x idx_y)
      ∷ []

  -- The `switch` over the boundary mode; `explore` is `exploreConfig()`.
  unfoldable pub mode_statements : Bool → Boundary → Expr → Expr → Outcome (List Stmt × Expr)
  unfolding end_statements constant_statements
  mode_statements explore constant idx_x idx_y =
      done (constant_statements idx_x idx_y, decl_ref tmp)
  mode_statements explore clamp idx_x idx_y =
      done (end_statements add_clamp_lower add_clamp_upper idx_x idx_y, access idx_x idx_y)
  mode_statements explore repeat idx_x idx_y =
      done (end_statements add_repeat_lower add_repeat_upper idx_x idx_y, access idx_x idx_y)
  mode_statements explore mirror idx_x idx_y =
      done (end_statements add_mirror_lower add_mirror_upper idx_x idx_y, access idx_x idx_y)
  mode_statements explore undefined idx_x idx_y =
      if explore then done ([], access idx_x idx_y) else aborted

  abbrev before : List Stmt → Outcome (List Stmt × Expr) → Outcome (List Stmt × Expr)
  before stmts (done (more, result)) = done (stmts ++ more, result)
  before stmts o = o

  -- `addBorderHandling`, from the temporary variables for the indices on.
  unfoldable pub add_border_handling : Bool → Boundary → Expr → Expr → Outcome (List Stmt × Expr)
  unfolding mode_statements
  add_border_handling explore mode idx_x idx_y =
      before (pushed local_x (decl_stmt gid_x idx_x) ++ pushed local_y (decl_stmt gid_y idx_y)) (
        mode_statements explore mode (if local_x then decl_ref gid_x else idx_x)
          (if local_y then decl_ref gid_y else idx_y))
