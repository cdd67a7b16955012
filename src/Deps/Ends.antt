-- ===== src/Deps/Ends.antt =====
-- lib/Analysis/HostDataDeps.cpp: which maps the operations change.
use hipacc_vivado.Prelude.{
  ◌≡◌, refl, subst, ◌∙◌, not, List, [], ◌∷◌, ◌++◌, Outcome, done, blocked, fault, aborted,
  out_of_fuel, ◌>>=◌, assert, arith,
}
use hipacc_vivado.Deps.{ValueDecl, Ptr, Accessor, Kernel, HostDataDeps, find, is_some, declared}
use hipacc_vivado.Deps.Declare.{
  add_image, add_boundary_condition, add_kernel, kernel_accessors, add_accessor, accessed_image,
  add_iteration_space,
}
use hipacc_vivado.Deps.Connect.{
  set_src_process, start_process, input_space, add_dst_process, add_edge, connect, run_kernel,
}

-- What holds of the result, if there is one.
abbrev pub Ends {ℓ} : {A : Type ℓ} → (A → Type 0) → Outcome A → Type 0
Ends P (done x) = P x
Ends P blocked = Unit
Ends P fault = Unit
Ends P aborted = Unit
Ends P out_of_fuel = Unit

-- What the rest of a run ends with, it ends with behind a first step.
pub Ends-bind :
    {A B : Type 0} (Q : B → Type 0) (m : Outcome A) (f : A → Outcome B)
    → ((a : A) → m ≡ done a → Ends Q (f a))
    → Ends Q (m >>= f)
Ends-bind Q (done x) f k = k x refl
Ends-bind Q blocked f k = tt
Ends-bind Q fault f k = tt
Ends-bind Q aborted f k = tt
Ends-bind Q out_of_fuel f k = tt

-- Only the maps change, and the kernels that were declared remain.
abbrev pub Declares : HostDataDeps → HostDataDeps → Type 0
Declares d e =
    (e ≡ record d {
      acc_map = e.acc_map;
      img_map = e.img_map;
      iter_map = e.iter_map;
      bc_map = e.bc_map;
      kernel_map = e.kernel_map;
    })
    × ((new : List (ValueDecl × Kernel)) × (e.kernel_map ≡ new ++ d.kernel_map))

module _ (d : HostDataDeps) where
  pub add_image-Declares : (vd : ValueDecl) → Ends (Declares d) (add_image vd d)
  unfolding add_image
  add_image-Declares vd =
      Ends-bind (Declares d) (assert (not (is_some (find vd d.img_map)))) _
        (λ u h. (refl, ([], refl)))

  pub add_boundary_condition-Declares :
      (bcvd ivd : ValueDecl) → Ends (Declares d) (add_boundary_condition bcvd ivd d)
  unfolding add_boundary_condition
  add_boundary_condition-Declares bcvd ivd =
      Ends-bind (Declares d) (declared (find ivd d.img_map)) _ (λ i h.
        Ends-bind (Declares d) (assert (not (is_some (find bcvd d.bc_map)))) _
          (λ u k. (refl, ([], refl))))

  pub add_accessor-Declares : (avd ivd : ValueDecl) → Ends (Declares d) (add_accessor avd ivd d)
  unfolding add_accessor
  add_accessor-Declares avd ivd = Ends-bind (Declares d) (declared (accessed_image ivd d)) _ (λ i h.
      Ends-bind (Declares d) (assert (not (is_some (find avd d.acc_map)))) _
        (λ u k. (refl, ([], refl))))

  pub add_iteration_space-Declares :
      (isvd ivd : ValueDecl) → Ends (Declares d) (add_iteration_space isvd ivd d)
  unfolding add_iteration_space
  add_iteration_space-Declares isvd ivd =
      Ends-bind (Declares d) (declared (find ivd d.img_map)) _ (λ i h.
        Ends-bind (Declares d) (assert (not (is_some (find isvd d.iter_map)))) _
          (λ u k. (refl, ([], refl))))

  pub add_kernel-Declares :
      (kvd isvd : ValueDecl) (avds : List ValueDecl)
      → Ends (Declares d) (add_kernel kvd isvd avds d)
  unfolding add_kernel
  add_kernel-Declares kvd isvd avds =
      Ends-bind (Declares d) (declared (find isvd d.iter_map)) _ (λ iter h.
        Ends-bind (Declares d) (assert (not (is_some (find kvd d.kernel_map)))) _ (λ u k.
          Ends-bind (Declares d) (kernel_accessors avds d.acc_map) _ (λ accs l.
            (refl, ((kvd, record { decl = kvd; iter = iter; accs = accs }) ∷ [], refl)))))

-- The run of a kernel declares none.
abbrev pub KeepsKernels : List (ValueDecl × Kernel) → HostDataDeps → Type 0
KeepsKernels m e = e.kernel_map ≡ m

input_space-kernels :
    (img : ValueDecl) (d : HostDataDeps) → (input_space img d).1.kernel_map ≡ d.kernel_map
unfolding input_space
input_space-kernels img d = ground arith

add_edge-kernels :
    (s p : Ptr) (d e : HostDataDeps) → add_edge s p d ≡ done e → e.kernel_map ≡ d.kernel_map
unfolding add_edge add_dst_process
add_edge-kernels s p d e h = ground arith

connect-kernels :
    (p : Ptr) (accs : List Accessor) (d : HostDataDeps)
    → Ends (KeepsKernels d.kernel_map) (connect p accs d)
unfolding connect
connect-kernels p [] d = refl
connect-kernels p (a ∷ accs) d =
    let (s, d') = input_space a.image d in
    Ends-bind (KeepsKernels d.kernel_map) (add_edge s p d') (connect p accs) (λ e h.
      subst (λ m. Ends (KeepsKernels m) (connect p accs e))
        (add_edge-kernels s p d' e h ∙ input_space-kernels a.image d) (connect-kernels p accs e))

start_process-kernels :
    (kernel : Kernel) (d e : HostDataDeps)
    → start_process kernel d ≡ done e
    → e.kernel_map ≡ d.kernel_map
unfolding start_process set_src_process
start_process-kernels kernel d e h = ground arith

pub run_kernel-kernels :
    (vd : ValueDecl) (d : HostDataDeps) → Ends (KeepsKernels d.kernel_map) (run_kernel vd d)
unfolding run_kernel
run_kernel-kernels vd d =
    Ends-bind (KeepsKernels d.kernel_map) (declared (find vd d.kernel_map)) _ (λ kernel h.
      Ends-bind (KeepsKernels d.kernel_map) (start_process kernel d) _ (λ e k.
        subst (λ m. Ends (KeepsKernels m) (connect d.processes kernel.accs e))
          (start_process-kernels kernel d e k) (connect-kernels d.processes kernel.accs e)))
