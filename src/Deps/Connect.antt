-- ===== src/Deps/Connect.antt =====
-- lib/Analysis/HostDataDeps.cpp, `runKernel`: a call of a kernel makes a process, the space that it
-- writes, and its edges from the spaces that it reads.
use hipacc_vivado.Prelude.{
  ℕ, zero, suc, ltb, ◌==◌, if◌then◌else◌, Option, none, some, List, [], ◌∷◌, ◌++◌, length, Outcome,
  done, ◌>>=◌, ◌>>◌, assert,
}
use hipacc_vivado.Deps.{
  ValueDecl, Ptr, Accessor, Kernel, accessors_of, Space, Process, HostDataDeps, new_space,
  new_process, set_space, set_process, find, declared,
}

-- `setSrcProcess`
unfoldable pub set_src_process : Ptr → Process → Space → Outcome Space
set_src_process p proc s = do
  assert (proc.kernel.iter.image == s.image)
  done (record s { iter = some proc.kernel.iter; src_process = some p })

-- `addDstProcess`
unfoldable pub add_dst_process : Ptr → Process → Space → Outcome Space
add_dst_process p proc s = do
  let accs = accessors_of s.image proc.kernel.accs
  assert (ltb 0 (length accs))
  done (record s { accs = s.accs ++ accs; dst_process = s.dst_process ++ p ∷ [] })

-- `addInputSpace`
unfoldable pub add_input_space : Ptr → Process → Process
add_input_space s proc = record proc { in_spaces = proc.in_spaces ++ s ∷ [] }

-- The loop from `spaces_.rbegin()`, over the first `n` spaces.
unfoldable pub find_space : ValueDecl → (Ptr → Space) → ℕ → Option Ptr
find_space image space_at zero = none
find_space image space_at (suc n) =
    let earlier = find_space image space_at n in
    if image == (space_at n).image then some n else earlier

-- The space that an accessor reads, created where there is none.
unfoldable pub input_space : ValueDecl → HostDataDeps → Ptr × HostDataDeps
unfolding find_space new_space
input_space image d = elim (find_space image d.space_at d.spaces) [
  | some s ↦ (s, d)
  | none ↦ (d.spaces, record (set_space d.spaces (new_space image) d) { spaces = suc d.spaces })
]

-- `s->addDstProcess(proc); proc->addInputSpace(s);`
unfoldable pub add_edge : Ptr → Ptr → HostDataDeps → Outcome HostDataDeps
unfolding add_dst_process add_input_space
add_edge s p d = do
  space ← add_dst_process p (d.process_at p) (d.space_at s)
  done (set_process p (add_input_space s (d.process_at p)) (set_space s space d))

-- The loop over the accessors.
unfoldable pub connect : Ptr → List Accessor → HostDataDeps → Outcome HostDataDeps
unfolding input_space add_edge
connect p [] d = done d
connect p (a ∷ accs) d = let (s, d') = input_space a.image d in add_edge s p d' >>= connect p accs

-- The new process, at the front of the calls so far, and its output space.
unfoldable pub start_process : Kernel → HostDataDeps → Outcome HostDataDeps
unfolding set_src_process new_space new_process
start_process kernel d = do
  let proc = new_process kernel d.spaces
  space ← set_src_process d.processes proc (new_space kernel.iter.image)
  let d' = set_process d.processes proc (set_space d.spaces space d)
  done (record d' { spaces = suc d.spaces; processes = suc d.processes })

unfoldable pub run_kernel : ValueDecl → HostDataDeps → Outcome HostDataDeps
unfolding start_process connect
run_kernel vd d = do
  kernel ← declared (find vd d.kernel_map)
  d' ← start_process kernel d
  connect d.processes kernel.accs d'
