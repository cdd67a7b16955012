-- ===== src/Deps/Entry.antt =====
-- lib/Analysis/HostDataDeps.cpp: the entry function `hipaccRun` that is printed from the schedule.
--
-- The text is kept as its parts: what the fixed words between them are is not modelled. A type is the
-- image whose `createVivadoTypeStr` it is, and `args` holds the further arguments of each kernel, with
-- their types, by the kernel's declaration.
use hipacc_vivado.Prelude.{
  ℕ, Bool, ◌==◌, ltb, if◌then◌else◌, Option, none, some, List, [], ◌∷◌, ◌++◌, map, length,
}
use hipacc_vivado.Deps.{
  ValueDecl, Ptr, Stream, Space, Process, Node, space_node, process_node, HostDataDeps, find,
}
use hipacc_vivado.Deps.Schedule.{is_empty, get_input_spaces, get_output_spaces}

-- A parameter `hls::stream<type> &stream`, and one of `args` with its type and its name.
pub data Param : Type 0 where
  stream_param : ValueDecl → Option Stream → Param
  plain_param : ℕ → ℕ → Param

-- `decl_line`: a stream's declaration. `split_line`: the call of `splitStream`, or of
-- `splitStreamVECT` where a thread has several pixels. `call_line`: a kernel's call, with its output,
-- its inputs and its further arguments.
pub data Line : Type 0 where
  decl_line : ValueDecl → Option Stream → Line
  split_line : Bool → Option Stream → List Stream → Line
  call_line : ValueDecl → Option Stream → List (Option Stream) → List ℕ → Line

abbrev pub Args : Type 0
Args = List (ValueDecl × List (ℕ × ℕ))

abbrev stream_params : (Ptr → Space) → List Ptr → List Param
stream_params space_at = map (λ s. stream_param (space_at s).image (space_at s).stream)

abbrev plain_params : Args → List Param
plain_params [] = []
plain_params ((k, a) ∷ args) = map (λ p. plain_param p.0 p.1) a ++ plain_params args

-- `getEntrySignature`
unfoldable pub get_entry_signature : Args → HostDataDeps → List Param
get_entry_signature args d =
    stream_params d.space_at (get_output_spaces d)
    ++ (stream_params d.space_at (get_input_spaces d) ++ plain_params args)

unfoldable pub space_lines : ℕ → Space → List Line
space_lines ppt s =
    if ltb 0 (length s.cpy_streams)
    then map (λ x. decl_line s.image (some x)) s.cpy_streams
      ++ split_line (ltb 1 ppt) s.stream s.cpy_streams ∷ []
    else []

abbrev pub kernel_args : Option (List (ℕ × ℕ)) → List ℕ
kernel_args none = []
kernel_args (some a) = map (λ p. p.1) a

-- The stream of an output space is a parameter of the function, so it is not declared.
unfoldable pub process_lines : Args → HostDataDeps → Process → List Line
process_lines args d t =
    let out = d.space_at t.out_space in
    (if is_empty out.dst_process then [] else decl_line out.image t.out_stream ∷ [])
    ++ call_line t.kernel.decl t.out_stream t.in_streams (kernel_args (find t.kernel.decl args))
      ∷ []

unfoldable pub node_lines : ℕ → Args → HostDataDeps → Node → List Line
unfolding space_lines process_lines
node_lines ppt args d (space_node s) = space_lines ppt (d.space_at s)
node_lines ppt args d (process_node p) = process_lines args d (d.process_at p)

-- The loop from `schedule.rbegin()`.
unfoldable pub body_lines : ℕ → Args → HostDataDeps → List Node → List Line
unfolding node_lines
body_lines ppt args d [] = []
body_lines ppt args d (n ∷ ns) = body_lines ppt args d ns ++ node_lines ppt args d n

-- `prettyPrint`: the signature and the lines of the body.
unfoldable pub pretty_print : ℕ → Args → HostDataDeps → List Param × List Line
unfolding get_entry_signature body_lines
pretty_print ppt args d = (get_entry_signature args d, body_lines ppt args d d.schedule)

-- The first of the spaces whose image has the name.
unfoldable pub find_stream : (ValueDecl → ℕ) → ℕ → (Ptr → Space) → List Ptr → Option Ptr
find_stream name img space_at [] = none
find_stream name img space_at (s ∷ ss) =
    if name (space_at s).image == img then some s else find_stream name img space_at ss

abbrev stream_of : (Ptr → Space) → Option Ptr → Option Stream
stream_of space_at none = none
stream_of space_at (some s) = (space_at s).stream

-- `getInputStream`, `getOutputStream` and `getStreamDecl`; names are numbers.
module _ (name : ValueDecl → ℕ) (vd : ValueDecl) (d : HostDataDeps) where
  unfoldable pub get_input_stream : Option Stream
  unfolding find_stream
  get_input_stream =
      stream_of d.space_at (find_stream name (name vd) d.space_at (get_input_spaces d))

  unfoldable pub get_output_stream : Option Stream
  unfolding find_stream
  get_output_stream =
      stream_of d.space_at (find_stream name (name vd) d.space_at (get_output_spaces d))

  -- The declaration, where a space is found.
  unfoldable pub get_stream_decl : Option Line
  unfolding find_stream
  get_stream_decl =
      elim (find_stream name (name vd) d.space_at (get_input_spaces d ++ get_output_spaces d)) [
        | none ↦ none
        | some s ↦ some (decl_line (d.space_at s).image (d.space_at s).stream)
      ]
