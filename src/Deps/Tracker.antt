-- ===== src/Deps/Tracker.antt =====
-- lib/Analysis/HostDataDeps.cpp, `DependencyTracker`: the walk over the statements of the host program
-- that feeds the analysis.
--
-- A statement arrives classified by the front end: the type of a variable is one of the classes of the
-- language, another class, or none, and an argument is `some` declaration where it is a `DeclRefExpr`.
-- The tracker's own maps are only asked for their keys, so they are the lists of these.
use hipacc_vivado.Prelude.{
  Bool, false, not, ◌&&◌, ◌||◌, ◌==◌, if◌then◌else◌, Option, none, some, List, [], ◌∷◌, Outcome,
  done, aborted, ◌>>=◌,
}
use hipacc_vivado.Deps.{ValueDecl, HostDataDeps}
use hipacc_vivado.Deps.Declare.{
  add_image, add_boundary_condition, add_kernel, add_accessor, add_iteration_space,
}
use hipacc_vivado.Deps.Connect.{run_kernel}
use hipacc_vivado.Deps.Schedule.{create_schedule}

-- A declaration of a `DeclStmt`; `unrelated` is one that no test of `VisitDeclStmt` picks.
pub data Decl : Type 0 where
  image mask domain : ValueDecl → Decl
  boundary_condition accessor iteration_space : ValueDecl → Option ValueDecl → Decl
  record_var : ValueDecl → Option ValueDecl → List (Option ValueDecl) → Decl
  unrelated : Decl

-- `kernel_call` is a call of the method `execute` of a class `Kernel`, on a variable.
pub data Stmt : Type 0 where
  decl_stmt : List Decl → Stmt
  kernel_call : ValueDecl → Stmt
  other_stmt : Stmt

pub record Tracker : Type 0 where
  pub acc_decls : List ValueDecl
  pub img_decls : List ValueDecl
  pub iter_decls : List ValueDecl
  pub bc_decls : List ValueDecl
  pub data_deps : HostDataDeps

unfoldable pub count : ValueDecl → List ValueDecl → Bool
count vd [] = false
count vd (k ∷ ks) = k == vd || count vd ks

-- The analysis after a call on it.
abbrev with_deps : Tracker → Outcome HostDataDeps → Outcome Tracker
with_deps t m = m >>= λ d. done (record t { data_deps = d })

unfoldable pub track_image : ValueDecl → Tracker → Outcome Tracker
unfolding add_image
track_image vd t = with_deps (record t { img_decls = vd ∷ t.img_decls }) (add_image vd t.data_deps)

unfoldable pub track_boundary_condition : ValueDecl → Option ValueDecl → Tracker → Outcome Tracker
unfolding count add_boundary_condition
track_boundary_condition vd none t = done t
track_boundary_condition vd (some arg) t =
    if count arg t.img_decls
    then with_deps t (add_boundary_condition vd arg t.data_deps)
    else done t

-- A boundary condition is made for an accessor on an image that has none.
unfoldable pub implicit_bc : ValueDecl → ValueDecl → Tracker → Tracker
unfolding count
implicit_bc vd arg t =
    if not (count arg t.bc_decls) && count arg t.img_decls
    then record t { bc_decls = vd ∷ t.bc_decls }
    else t

unfoldable pub track_accessor : ValueDecl → Option ValueDecl → Tracker → Outcome Tracker
unfolding implicit_bc add_accessor
track_accessor vd none t = aborted
track_accessor vd (some arg) t =
    let t' = implicit_bc vd arg t in
    with_deps (record t' { acc_decls = vd ∷ t'.acc_decls }) (add_accessor vd arg t'.data_deps)

-- The iteration space is stored in the tracker's map whatever its argument is.
unfoldable pub track_iteration_space : ValueDecl → Option ValueDecl → Tracker → Outcome Tracker
unfolding count add_iteration_space
track_iteration_space vd arg t =
    let t' = record t { iter_decls = vd ∷ t.iter_decls } in
    elim arg [
      | none ↦ done t'
      | some ivd ↦
          if count ivd t.img_decls
          then with_deps t' (add_iteration_space vd ivd t.data_deps)
          else done t'
    ]

-- The arguments of a kernel that are accessors.
unfoldable pub accessor_args : List (Option ValueDecl) → List ValueDecl → List ValueDecl
unfolding count
accessor_args [] decls = []
accessor_args (none ∷ args) decls = accessor_args args decls
accessor_args (some vd ∷ args) decls =
    let rest = accessor_args args decls in if count vd decls then vd ∷ rest else rest

unfoldable pub track_kernel :
    ValueDecl → ValueDecl → List (Option ValueDecl) → Tracker → Outcome Tracker
unfolding accessor_args add_kernel
track_kernel vd isvd args t =
    with_deps t (add_kernel vd isvd (accessor_args args t.acc_decls) t.data_deps)

-- `VisitDeclStmt`: each handled declaration ends the loop by `break`.
unfoldable pub visit_decls : List Decl → Tracker → Outcome Tracker
unfolding track_image track_boundary_condition track_accessor track_iteration_space track_kernel
visit_decls [] t = done t
visit_decls (image vd ∷ ds) t = track_image vd t
visit_decls (mask vd ∷ ds) t = done t
visit_decls (domain vd ∷ ds) t = done t
visit_decls (boundary_condition vd arg ∷ ds) t = track_boundary_condition vd arg t
visit_decls (accessor vd arg ∷ ds) t = track_accessor vd arg t
visit_decls (iteration_space vd arg ∷ ds) t = track_iteration_space vd arg t
visit_decls (record_var vd (some isvd) args ∷ ds) t = track_kernel vd isvd args t
visit_decls (record_var vd none args ∷ ds) t = visit_decls ds t
visit_decls (unrelated ∷ ds) t = visit_decls ds t

unfoldable pub visit : Stmt → Tracker → Outcome Tracker
unfolding visit_decls run_kernel
visit (decl_stmt ds) t = visit_decls ds t
visit (kernel_call vd) t = with_deps t (run_kernel vd t.data_deps)
visit other_stmt t = done t

-- The constructor of `DependencyTracker`, over the statements in the order of the blocks.
unfoldable pub track : List Stmt → Tracker → Outcome Tracker
unfolding visit
track [] t = done t
track (s ∷ ss) t = visit s t >>= track ss

unfoldable pub new_tracker : HostDataDeps → Tracker
new_tracker d = record {
  acc_decls = [];
  img_decls = [];
  iter_decls = [];
  bc_decls = [];
  data_deps = d;
}

-- `parse`
unfoldable pub parse : List Stmt → HostDataDeps → Outcome HostDataDeps
unfolding track new_tracker create_schedule
parse stmts d = track stmts (new_tracker d) >>= λ t. create_schedule t.data_deps
