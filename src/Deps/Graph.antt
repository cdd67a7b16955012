-- ===== src/Deps/Graph.antt =====
-- lib/Analysis/HostDataDeps.cpp: the graph of spaces and processes that `runKernel` builds.
use hipacc_vivado.Prelude.{
  ℕ, suc, ◌<◌, ◌≡◌, ◌==◌, some, [], length, done, arith, Bool-cases, inl, inr,
}
use hipacc_vivado.Deps.{
  ValueDecl, Ptr, Kernel, HostDataDeps, new_space, new_process, update, set_space,
}
use hipacc_vivado.Deps.Counts.{
  All, All-map, All-map₂, times, times-absent, sum_to, sum_to-cong, sum_to-zero,
}
use hipacc_vivado.Deps.Connect.{set_src_process, start_process}

-- The number of edges from a space.
abbrev pub degree : HostDataDeps → Ptr → ℕ
degree d s = sum_to d.processes (λ t. times s (d.process_at t).in_spaces)

-- A space that a process reads was written by an earlier process, or by none.
abbrev pub IsEarlier : HostDataDeps → Ptr → Ptr → Type 0
IsEarlier d p s = (q : Ptr) → (d.space_at s).src_process ≡ some q → q < p

-- A process and the space that it writes point to one another, and the space is for the image of the
-- kernel's iteration space; `dst_process` has an entry for each edge; all pointers are to objects that
-- were created; the edges lead to later processes; and nothing is scheduled or copied yet.
pub record IsGraph (d : HostDataDeps) : Type 0 where
  pub out_in_range : (p : Ptr) → p < d.processes → (d.process_at p).out_space < d.spaces
  pub src_of_out :
      (p : Ptr) → p < d.processes → (d.space_at (d.process_at p).out_space).src_process ≡ some p
  pub image_of_out :
      (p : Ptr)
      → p < d.processes
      → (d.space_at (d.process_at p).out_space).image ≡ (d.process_at p).kernel.iter.image
  pub src_in_range :
      (s p : Ptr) → s < d.spaces → (d.space_at s).src_process ≡ some p → p < d.processes
  pub out_of_src :
      (s p : Ptr)
      → s < d.spaces
      → (d.space_at s).src_process ≡ some p
      → (d.process_at p).out_space ≡ s
  pub in_in_range : (p : Ptr) → p < d.processes → All (λ s. s < d.spaces) (d.process_at p).in_spaces
  pub degrees : (s : Ptr) → s < d.spaces → length (d.space_at s).dst_process ≡ degree d s
  pub earlier : (p : Ptr) → p < d.processes → All (IsEarlier d p) (d.process_at p).in_spaces
  pub no_copies : (s : Ptr) → s < d.spaces → (d.space_at s).cpy_streams ≡ []
  pub no_schedule : d.schedule ≡ []

-- A space without edges that is put at the end, as the output of the next process or as an input.
module _ (d : HostDataDeps) (g : IsGraph d) where
  degree-fresh : degree d d.spaces ≡ 0
  degree-fresh = sum_to-zero d.processes _ (λ t l. times-absent d.spaces _ (g.in_in_range t l))

  abbrev pub with_input : ValueDecl → HostDataDeps
  with_input image = record (set_space d.spaces (new_space image) d) { spaces = suc d.spaces }

  pub with_input-IsGraph : (image : ValueDecl) → IsGraph (with_input image)
  unfolding new_space
  with_input-IsGraph image = record {
    out_in_range = λ p l. omega (arith, g.out_in_range p l);
    src_of_out = λ p l. ground (arith, g.out_in_range p l, g.src_of_out p l);
    image_of_out = λ p l. ground (arith, g.out_in_range p l, g.image_of_out p l);
    src_in_range = λ s p l e. ground (arith, g.src_in_range s p);
    out_of_src = λ s p l e. ground (arith, g.out_of_src s p);
    in_in_range = λ p l. All-map _ _ _ (λ s h. omega arith) (g.in_in_range p l);
    degrees = λ s l. ground (arith, g.degrees s, degree-fresh);
    earlier = λ p l. All-map _ _ _ (λ s h q e. h q (ground arith)) (g.earlier p l);
    no_copies = λ s l. ground (arith, g.no_copies s);
    no_schedule = g.no_schedule;
  }

  -- The state after `start_process`.
  abbrev pub started : Kernel → HostDataDeps
  started kernel = record d {
    spaces = suc d.spaces;
    space_at = update d.space_at d.spaces (record (new_space kernel.iter.image) {
      iter = some kernel.iter;
      src_process = some d.processes;
    });
    processes = suc d.processes;
    process_at = update d.process_at d.processes (new_process kernel d.spaces);
  }

  pub start_process-started : (kernel : Kernel) → start_process kernel d ≡ done (started kernel)
  unfolding start_process set_src_process new_space new_process
  start_process-started kernel = ground arith

  degree-started : (kernel : Kernel) (s : Ptr) → degree (started kernel) s ≡ degree d s
  unfolding sum_to new_process times
  degree-started kernel s = ground (
    arith,
    sum_to-cong d.processes (λ t. times s (d.process_at t).in_spaces)
        (λ t. times s ((started kernel).process_at t).in_spaces) (λ t l. ground arith),
  )

  pub started-IsGraph : (kernel : Kernel) → IsGraph (started kernel)
  unfolding new_space new_process
  started-IsGraph kernel = record {
    out_in_range = λ p l. ground (arith, g.out_in_range p);
    src_of_out = λ p l. ground (arith, g.out_in_range p, g.src_of_out p);
    image_of_out = λ p l. ground (arith, g.out_in_range p, g.image_of_out p);
    src_in_range = λ s p l e. ground (arith, g.src_in_range s p);
    out_of_src = λ s p l e. ground (arith, g.out_of_src s p, g.src_in_range s p);
    in_in_range = λ p l. elim (Bool-cases (d.processes == p)) [
      | inl new ↦ rw new tt
      | inr old ↦ rw old (All-map _ _ _ (λ s h. omega arith) (g.in_in_range p (ground arith)))
    ];
    degrees = λ s l. ground (arith, g.degrees s, degree-fresh, degree-started kernel s);
    earlier = λ p l. elim (Bool-cases (d.processes == p)) [
      | inl new ↦ rw new tt
      | inr old ↦
          let before : p < d.processes = ground arith in
          rw old (
            All-map₂ _ _ _ _ (λ s h r q e. h q (ground arith)) (g.earlier p before)
              (g.in_in_range p before))
    ];
    no_copies = λ s l. ground (arith, g.no_copies s);
    no_schedule = g.no_schedule;
  }
