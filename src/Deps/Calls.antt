-- ===== src/Deps/Calls.antt =====
-- lib/Analysis/HostDataDeps.cpp, `runKernel`: the loop over the accessors, and the whole call.
use hipacc_vivado.Prelude.{
  suc, ◌<◌, ◌≡◌, ◌≢◌, refl, sym, ap, ◌∙◌, some, List, [], ◌∷◌, ◌++◌, append_assoc, append-nil,
  length, done, arith,
}
use hipacc_vivado.Deps.{
  ValueDecl, Ptr, Accessor, Kernel, accessors_of, Process, HostDataDeps, new_process, find,
}
use hipacc_vivado.Deps.Counts.{All, All-map, All-map₂}
use hipacc_vivado.Deps.Graph.{IsGraph, IsEarlier, started, start_process-started, started-IsGraph}
use hipacc_vivado.Deps.Edges.{IsLatest, linked, add_edge-linked, linked-IsGraph}
use hipacc_vivado.Deps.Inputs.{
  Grows, Grows-refl, Grows-trans, Grows-IsLatest, HasInput, input_space-HasInput,
}
use hipacc_vivado.Deps.Connect.{input_space, add_edge, add_input_space, connect, run_kernel}

abbrev pub Pairs {ℓ κ} : {A : Type ℓ} {B : Type κ} → (A → B → Type 0) → List A → List B → Type 0
Pairs P [] [] = Unit
Pairs P [] (y ∷ ys) = ⊥
Pairs P (x ∷ xs) [] = ⊥
Pairs P (x ∷ xs) (y ∷ ys) = P x y × Pairs P xs ys

Pairs-map {ℓ κ} :
    {A : Type ℓ} {B : Type κ} (P Q : A → B → Type 0) (xs : List A) (ys : List B)
    → ((x : A) (y : B) → P x y → Q x y)
    → Pairs P xs ys
    → Pairs Q xs ys
Pairs-map P Q [] [] f h = tt
Pairs-map P Q [] (y ∷ ys) f h = h
Pairs-map P Q (x ∷ xs) [] f h = h
Pairs-map P Q (x ∷ xs) (y ∷ ys) f h = (f x y h.0, Pairs-map P Q xs ys f h.1)

Pairs-append {ℓ κ} :
    {A : Type ℓ} {B : Type κ} (P : A → B → Type 0) (xs ys : List A) (us vs : List B)
    → Pairs P xs us
    → Pairs P ys vs
    → Pairs P (xs ++ ys) (us ++ vs)
Pairs-append P [] ys [] vs h k = k
Pairs-append P [] ys (u ∷ us) vs h k = absurd h
Pairs-append P (x ∷ xs) ys [] vs h k = absurd h
Pairs-append P (x ∷ xs) ys (u ∷ us) vs h k = (h.0, Pairs-append P xs ys us vs h.1 k)

-- Every accessor has one for its image among those of the kernel.
accessors_of-some : (accs : List Accessor) → All (λ a. 0 < length (accessors_of a.image accs)) accs
unfolding accessors_of
accessors_of-some [] = tt
accessors_of-some (a ∷ accs) =
    (ground arith, All-map _ _ accs (λ b h. ground arith) (accessors_of-some accs))

-- An accessor reads the latest space for its image.
abbrev pub ReadsLatest : HostDataDeps → Accessor → Ptr → Type 0
ReadsLatest d a s = IsLatest d a.image d.spaces s

module _ (d : HostDataDeps) (g : IsGraph d) (s p : Ptr) (s_in : s < d.spaces)
    (p_in : p < d.processes) (before : IsEarlier d p s) where
  linked-Grows : Grows d (linked d g s p s_in p_in before)
  linked-Grows = record {
    same_processes = refl;
    more_spaces = omega arith;
    same_image = λ r l. ground arith;
    same_src = λ r l. ground arith;
    new_src = λ r l u. absurd (omega arith);
    new_image = λ q r l u v. absurd (omega arith);
  }

-- The call of a kernel up to some accessor: the last process is the call's.
module _ (kernel : Kernel) (p : Ptr) where
  pub record IsCalling (d : HostDataDeps) : Type 0 where
    pub graph : IsGraph d
    pub is_last : d.processes ≡ suc p
    pub same_kernel : (d.process_at p).kernel ≡ kernel

  -- From `d` on, the loop over `accs` ends in `e` with a space for each.
  pub record Connects (d : HostDataDeps) (accs : List Accessor) (e : HostDataDeps) : Type 0 where
    pub calling : IsCalling e
    pub grows : Grows d e
    pub inputs : List Ptr
    pub in_spaces : (e.process_at p).in_spaces ≡ (d.process_at p).in_spaces ++ inputs
    pub reads : Pairs (ReadsLatest e) accs inputs

  -- The accessor is one of the kernel's, on another image than the one that it writes.
  abbrev IsOther : Accessor → Type 0
  IsOther a = (a.image ≢ kernel.iter.image) × (0 < length (accessors_of a.image kernel.accs))

  add_edge-Connects :
      (d e : HostDataDeps) (a : Accessor) (s : Ptr)
      → IsOther a
      → IsCalling d
      → HasInput d a.image (s, e)
      → (f : HostDataDeps) × (add_edge s p e ≡ done f) × Connects d (a ∷ []) f
  unfolding add_input_space
  add_edge-Connects d e a s other c h =
      let at_p = h.same_process p in
      let p_in : p < e.processes = omega (arith, h.grows.same_processes, c.is_last) in
      let kernel_of : (e.process_at p).kernel ≡ kernel =
        ap (λ (r : Process). r.kernel) at_p ∙ c.same_kernel in
      let before : IsEarlier e p s = λ q src. ground (
        arith,
        h.graph.src_in_range s q h.latest.below src,
        h.graph.out_of_src s q h.latest.below src,
        h.graph.image_of_out q,
      ) in
      (
        linked e h.graph s p h.latest.below p_in before,
        add_edge-linked e h.graph s p h.latest.below p_in before
            (rw (h.latest.same_image, kernel_of) other.1),
        record {
          calling = record {
            graph = linked-IsGraph e h.graph s p h.latest.below p_in before;
            is_last = h.grows.same_processes ∙ c.is_last;
            same_kernel = ground arith;
          };
          grows = Grows-trans d e _ h.grows (linked-Grows e h.graph s p h.latest.below p_in before);
          inputs = s ∷ [];
          in_spaces = ground arith;
          reads = (
            record {
              below = h.latest.below;
              same_image = ground arith;
              later_differ = λ r l u. ground (arith, h.latest.later_differ r l u);
            },
            tt,
          );
        },
      )

  Connects-append :
      (d e f : HostDataDeps) (xs ys : List Accessor)
      → Connects d xs e
      → Connects e ys f
      → Connects d (xs ++ ys) f
  Connects-append d e f xs ys h k = record {
    calling = k.calling;
    grows = Grows-trans d e f h.grows k.grows;
    inputs = h.inputs ++ k.inputs;
    in_spaces =
        k.in_spaces
        ∙ ap (λ l. l ++ k.inputs) h.in_spaces
        ∙ append_assoc (d.process_at p).in_spaces h.inputs k.inputs;
    reads =
        Pairs-append (ReadsLatest f) xs ys h.inputs k.inputs
          (Pairs-map (ReadsLatest e) (ReadsLatest f) xs h.inputs
            (λ a s. Grows-IsLatest e f a.image s k.grows) h.reads)
          k.reads;
  }

  connect-Connects :
      (d : HostDataDeps) (accs : List Accessor)
      → All IsOther accs
      → IsCalling d
      → (e : HostDataDeps) × (connect p accs d ≡ done e) × Connects d accs e
  unfolding connect
  connect-Connects d [] others c = (
    d,
    refl,
    record {
      calling = c;
      grows = Grows-refl d;
      inputs = [];
      in_spaces = sym (append-nil _);
      reads = tt;
    },
  )
  connect-Connects d (a ∷ accs) others c =
      let (s, e) = input_space a.image d in
      let (f, linked_up, first) =
        add_edge-Connects d e a s others.0 c (input_space-HasInput d a.image c.graph) in
      let (h, looped, more) = connect-Connects f accs others.1 first.calling in
      (h, rw linked_up looped, Connects-append d f h (a ∷ []) accs first more)

-- No accessor of the kernel is on the image that it writes.
abbrev pub IsOutOfPlace : Kernel → Type 0
IsOutOfPlace kernel = All (λ a. a.image ≢ kernel.iter.image) kernel.accs

-- The new process writes a new space, and reads for each accessor the latest space for its image.
pub record Calls (d : HostDataDeps) (kernel : Kernel) (e : HostDataDeps) : Type 0 where
  pub graph : IsGraph e
  pub one_more : e.processes ≡ suc d.processes
  pub same_kernel : (e.process_at d.processes).kernel ≡ kernel
  pub out_space : (e.process_at d.processes).out_space ≡ d.spaces
  pub reads : Pairs (ReadsLatest e) kernel.accs (e.process_at d.processes).in_spaces
  pub kept_image : (s : Ptr) → s < d.spaces → (e.space_at s).image ≡ (d.space_at s).image
  pub kept_src : (s : Ptr) → s < d.spaces → (e.space_at s).src_process ≡ (d.space_at s).src_process

Connects-Calls :
    (d : HostDataDeps) (g : IsGraph d) (kernel : Kernel) (e : HostDataDeps)
    → Connects kernel d.processes (started d g kernel) kernel.accs e
    → Calls d kernel e
unfolding new_process
Connects-Calls d g kernel e c =
    let fresh : ((started d g kernel).process_at d.processes).in_spaces ≡ [] = ground arith in
    let src : (e.space_at d.spaces).src_process ≡ some d.processes =
      c.grows.same_src d.spaces (omega arith) ∙ ground arith in
    record {
      graph = c.calling.graph;
      one_more = c.calling.is_last;
      same_kernel = c.calling.same_kernel;
      out_space =
          c.calling.graph.out_of_src d.spaces d.processes (omega (arith, c.grows.more_spaces)) src;
      reads = rw (c.in_spaces, fresh) c.reads;
      kept_image = λ s l. c.grows.same_image s (omega arith) ∙ ground arith;
      kept_src = λ s l. c.grows.same_src s (omega arith) ∙ ground arith;
    }

-- A call of a declared kernel that reads no image that it writes passes all assertions and returns. The
-- graph stays well formed, with one process more: it writes a new space, and reads for each accessor
-- the latest space for the accessor's image. The spaces from before keep their images and sources.
pub run_kernel-Calls :
    (d : HostDataDeps) (vd : ValueDecl) (kernel : Kernel)
    → IsGraph d
    → find vd d.kernel_map ≡ some kernel
    → IsOutOfPlace kernel
    → (e : HostDataDeps) × (run_kernel vd d ≡ done e) × Calls d kernel e
unfolding run_kernel new_process
run_kernel-Calls d vd kernel g found out_of_place =
    let calling : IsCalling kernel d.processes (started d g kernel) = record {
      graph = started-IsGraph d g kernel;
      is_last = refl;
      same_kernel = ground arith;
    } in
    let (e, connected, c) =
      connect-Connects kernel d.processes (started d g kernel) kernel.accs
        (All-map₂ _ _ _ _ (λ a other own. (other, own)) out_of_place
          (accessors_of-some kernel.accs))
        calling in
    (e, rw (found, start_process-started d g kernel) connected, Connects-Calls d g kernel e c)
