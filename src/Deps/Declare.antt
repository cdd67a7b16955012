-- ===== src/Deps/Declare.antt =====
-- lib/Analysis/HostDataDeps.cpp: the declarations that the analysis records.
--
-- The arguments of the source that only carry names are left out.
use hipacc_vivado.Prelude.{
  not, Option, none, some, List, [], ◌∷◌, Outcome, done, ◌>>=◌, ◌>>◌, assert,
}
use hipacc_vivado.Deps.{ValueDecl, Accessor, HostDataDeps, find, is_some, declared}

unfoldable pub add_image : ValueDecl → HostDataDeps → Outcome HostDataDeps
add_image vd d = do
  assert (not (is_some (find vd d.img_map)))
  done (record d { img_map = (vd, vd) ∷ d.img_map })

unfoldable pub add_boundary_condition : ValueDecl → ValueDecl → HostDataDeps → Outcome HostDataDeps
add_boundary_condition bcvd ivd d = do
  image ← declared (find ivd d.img_map)
  assert (not (is_some (find bcvd d.bc_map)))
  done (record d { bc_map = (bcvd, image) ∷ d.bc_map })

-- The loop over the accessors' declarations.
unfoldable pub kernel_accessors :
    List ValueDecl → List (ValueDecl × Accessor) → Outcome (List Accessor)
kernel_accessors [] m = done []
kernel_accessors (vd ∷ avds) m = do
  acc ← declared (find vd m)
  rest ← kernel_accessors avds m
  done (acc ∷ rest)

unfoldable pub add_kernel :
    ValueDecl → ValueDecl → List ValueDecl → HostDataDeps → Outcome HostDataDeps
unfolding kernel_accessors
add_kernel kvd isvd avds d = do
  iter ← declared (find isvd d.iter_map)
  assert (not (is_some (find kvd d.kernel_map)))
  accs ← kernel_accessors avds d.acc_map
  done (record d {
    kernel_map = (kvd, record { decl = kvd; iter = iter; accs = accs }) ∷ d.kernel_map;
  })

-- The image of an accessor's argument: itself an image, or that of a boundary condition.
unfoldable pub accessed_image : ValueDecl → HostDataDeps → Option ValueDecl
accessed_image ivd d = elim (find ivd d.img_map) [
  | some image ↦ some image
  | none ↦ find ivd d.bc_map
]

unfoldable pub add_accessor : ValueDecl → ValueDecl → HostDataDeps → Outcome HostDataDeps
unfolding accessed_image
add_accessor avd ivd d = do
  image ← declared (accessed_image ivd d)
  assert (not (is_some (find avd d.acc_map)))
  done (record d { acc_map = (avd, record { decl = avd; image = image }) ∷ d.acc_map })

unfoldable pub add_iteration_space : ValueDecl → ValueDecl → HostDataDeps → Outcome HostDataDeps
add_iteration_space isvd ivd d = do
  image ← declared (find ivd d.img_map)
  assert (not (is_some (find isvd d.iter_map)))
  done (record d { iter_map = (isvd, record { decl = isvd; image = image }) ∷ d.iter_map })
