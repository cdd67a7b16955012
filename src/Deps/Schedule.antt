-- ===== src/Deps/Schedule.antt =====
-- lib/Analysis/HostDataDeps.cpp, `createSchedule`: streams for the spaces, and the order of the nodes,
-- from the outputs back to the inputs.
--
-- `markSpace` and `markProcess` call one another; the recursion is on fuel, a unit for each `markSpace`.
use hipacc_vivado.Prelude.{
  ℕ, zero, suc, ◌+◌, ◌%◌, Bool, true, false, ◌&&◌, ◌||◌, not, ltb, ◌==◌, if◌then◌else◌, Option,
  none, some, List, [], ◌∷◌, ◌++◌, length, Outcome, done, out_of_fuel, ◌>>=◌,
}
use hipacc_vivado.Deps.{
  Ptr, Stream, strm, strm_out, strm_tmp, Space, Node, space_node, process_node, HostDataDeps,
  set_space, set_process, is_some,
}

abbrev pub is_empty {ℓ} : {A : Type ℓ} → List A → Bool
is_empty [] = true
is_empty (x ∷ xs) = false

-- `getInputSpaces`, over the `n` spaces from `i` on.
unfoldable pub input_spaces : ℕ → Ptr → (Ptr → Space) → List Ptr
input_spaces zero i space_at = []
input_spaces (suc n) i space_at =
    let rest = input_spaces n (suc i) space_at in
    if is_some (space_at i).src_process then rest else i ∷ rest

unfoldable pub get_input_spaces : HostDataDeps → List Ptr
unfolding input_spaces
get_input_spaces d = input_spaces d.spaces 0 d.space_at

-- `getOutputSpaces`, from the last of the first `n` spaces down.
unfoldable pub output_spaces : ℕ → (Ptr → Space) → List Ptr
output_spaces zero space_at = []
output_spaces (suc n) space_at =
    let rest = output_spaces n space_at in
    if is_empty (space_at n).dst_process then n ∷ rest else rest

unfoldable pub get_output_spaces : HostDataDeps → List Ptr
unfolding output_spaces
get_output_spaces d = output_spaces d.spaces d.space_at

-- `outId` and `tmpId` are of type `unsigned int`.
abbrev pub next_id : ℕ → ℕ
next_id n = (n + 1) % 4294967296

unfoldable pub create_stream : Ptr → HostDataDeps → Stream × HostDataDeps
create_stream s d =
    let space = d.space_at s in
    if not (is_some space.src_process) && not (is_some space.stream)
    then (strm space.image, d)
    else if is_empty space.dst_process
    then (strm_out d.out_id, record d { out_id = next_id d.out_id })
    else (strm_tmp d.tmp_id, record d { tmp_id = next_id d.tmp_id })

-- `s->stream = createStream(s);`
unfoldable pub name_space : Ptr → HostDataDeps → Stream × HostDataDeps
unfolding create_stream
name_space s d =
    let (x, d') = create_stream s d in
    (x, set_space s (record (d'.space_at s) { stream = some x }) d')

-- `s->cpyStreams.push_back(createStream(s));`
unfoldable pub copy_space : Ptr → HostDataDeps → Stream × HostDataDeps
unfolding create_stream
copy_space s d =
    let (x, d') = create_stream s d in
    let copies = (d'.space_at s).cpy_streams ++ x ∷ [] in
    (x, set_space s (record (d'.space_at s) { cpy_streams = copies }) d')

-- The local variable `stream` of `markProcess`, after each of the first two tests.
unfoldable pub first_stream : Ptr → HostDataDeps → Option Stream × HostDataDeps
unfolding name_space
first_stream s d =
    let (x, d') = name_space s d in
    if is_some (d.space_at s).stream then (none, d) else (some x, d')

unfoldable pub next_stream : Ptr → Option Stream × HostDataDeps → Option Stream × HostDataDeps
unfolding copy_space
next_stream s (stream, d) =
    let (x, d') = copy_space s d in
    if ltb 1 (length (d.space_at s).dst_process) then (some x, d') else (stream, d)

-- All successors are planned.
unfoldable pub is_planned : Space → Bool
is_planned s = length s.dst_process == 1 || length s.dst_process == length s.cpy_streams

unfoldable pub push_schedule : Node → HostDataDeps → HostDataDeps
push_schedule n d = record d { schedule = d.schedule ++ n ∷ [] }

unfoldable pub push_in_stream : Ptr → Option Stream → HostDataDeps → HostDataDeps
push_in_stream t x d =
    set_process t (record (d.process_at t) { in_streams = (d.process_at t).in_streams ++ x ∷ [] }) d

-- A round of the loop in `markProcess`; `mark` is the call of `markSpace`.
unfoldable pub mark_input :
    (Ptr → HostDataDeps → Outcome HostDataDeps) → Ptr → Ptr → HostDataDeps → Outcome HostDataDeps
mark_input mark t s d =
    let (x, d') = next_stream s (first_stream s d) in
    (if is_planned (d'.space_at s) then mark s (push_schedule (space_node s) d') else done d')
    >>= λ e. done (push_in_stream t x e)

unfoldable pub mark_inputs :
    (Ptr → HostDataDeps → Outcome HostDataDeps)
    → Ptr
    → List Ptr
    → HostDataDeps
    → Outcome HostDataDeps
mark_inputs mark t [] d = done d
mark_inputs mark t (s ∷ ss) d = mark_input mark t s d >>= mark_inputs mark t ss

unfoldable pub mark_process :
    (Ptr → HostDataDeps → Outcome HostDataDeps) → Ptr → HostDataDeps → Outcome HostDataDeps
mark_process mark t d = mark_inputs mark t (d.process_at t).in_spaces d

-- `if (s->getDstProcesses().empty()) s->stream = createStream(s);`
unfoldable pub name_output : Ptr → HostDataDeps → HostDataDeps
unfolding name_space
name_output s d = if is_empty (d.space_at s).dst_process then (name_space s d).1 else d

-- `proc->outStream = s->stream; schedule.push_back(proc);`
unfoldable pub plan_process : Ptr → Ptr → HostDataDeps → HostDataDeps
unfolding push_schedule
plan_process s p d =
    push_schedule (process_node p)
      (set_process p (record (d.process_at p) { out_stream = (d.space_at s).stream }) d)

-- `if (proc != nullptr) …`; `mark` is the call of `markSpace` in `markProcess`.
unfoldable pub mark_source :
    (Ptr → HostDataDeps → Outcome HostDataDeps)
    → Ptr
    → Option Ptr
    → HostDataDeps
    → Outcome HostDataDeps
mark_source mark s none d = done d
mark_source mark s (some p) d = mark_process mark p (plan_process s p d)

unfoldable pub mark_space : ℕ → Ptr → HostDataDeps → Outcome HostDataDeps
mark_space zero s d = out_of_fuel
mark_space (suc fuel) s d =
    let d' = name_output s d in mark_source (mark_space fuel) s (d'.space_at s).src_process d'

-- The loop over the output spaces.
unfoldable pub mark_outputs : ℕ → List Ptr → HostDataDeps → Outcome HostDataDeps
mark_outputs fuel [] d = done d
mark_outputs fuel (s ∷ ss) d = mark_space fuel s d >>= mark_outputs fuel ss

-- `createSchedule`; the fuel is one more than the number of processes.
unfoldable pub create_schedule : HostDataDeps → Outcome HostDataDeps
create_schedule d =
    mark_outputs (suc d.processes) (get_output_spaces d) (record d { out_id = 0; tmp_id = 0 })
