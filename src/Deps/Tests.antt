-- ===== src/Deps/Tests.antt =====
-- A small host program through lib/Analysis/HostDataDeps.cpp, and the theorems at it.
use hipacc_vivado.Prelude.{
  ◌<◌, ◌≡◌, refl, if◌then◌else◌, ◌==◌, false, none, some, List, [], ◌∷◌, ◌++◌, Outcome, done, ◌>>=◌,
  arith,
}
use hipacc_vivado.Deps.{
  Kernel, strm, strm_out, strm_tmp, HostDataDeps, accessors_of, new_space, new_process, find,
}
use hipacc_vivado.Deps.Counts.{times}
use hipacc_vivado.Deps.Graph.{IsGraph}
use hipacc_vivado.Deps.Calls.{Calls, run_kernel-Calls}
use hipacc_vivado.Deps.Declare.{add_boundary_condition, add_accessor}
use hipacc_vivado.Deps.Connect.{run_kernel}
use hipacc_vivado.Deps.Tracker.{
  image, accessor, boundary_condition, iteration_space, record_var, Stmt, decl_stmt, kernel_call,
  Tracker, new_tracker, track, parse,
}
use hipacc_vivado.Deps.Schedule.{
  create_schedule, mark_outputs, get_output_spaces, mark_space, mark_source, name_output,
  mark_process, mark_inputs, plan_process, mark_input, is_planned, next_stream, first_stream,
  push_in_stream, get_input_spaces,
}
use hipacc_vivado.Deps.Scheduled.{IsSchedule, create_schedule-IsSchedule}
use hipacc_vivado.Deps.Programs.{AllOutOfPlace, track-IsGraph, parse-IsSchedule}
use hipacc_vivado.Deps.Order.{Before, call_of, pretty_print-Before}
use hipacc_vivado.Deps.Lookups.{add_accessor-boundary_condition}
use hipacc_vivado.Deps.Entry.{
  Param, Line, pretty_print, decl_line, split_line, call_line, stream_param,
}

abbrev no_deps : HostDataDeps
no_deps = record {
  acc_map = [];
  img_map = [];
  iter_map = [];
  bc_map = [];
  kernel_map = [];
  spaces = 0;
  space_at = λ _. new_space 0;
  processes = 0;
  process_at =
      λ _. new_process (record { decl = 0; iter = record { decl = 0; image = 0 }; accs = [] }) 0;
  out_id = 0;
  tmp_id = 0;
  schedule = [];
}

no_deps-IsGraph : IsGraph no_deps
no_deps-IsGraph = record {
  out_in_range = λ p l. absurd (omega arith);
  src_of_out = λ p l. absurd (omega arith);
  image_of_out = λ p l. absurd (omega arith);
  src_in_range = λ s p l e. absurd (omega arith);
  out_of_src = λ s p l e. absurd (omega arith);
  in_in_range = λ p l. absurd (omega arith);
  degrees = λ s l. absurd (omega arith);
  earlier = λ p l. absurd (omega arith);
  no_copies = λ s l. absurd (omega arith);
  no_schedule = refl;
}

-- Kernel 31 reads image 1 through the boundary condition 5 and writes image 2, kernel 32 reads 2 twice
-- over and writes 3, and kernel 33 reads 2 and 1 and writes 4.
abbrev declarations : List Stmt
declarations =
    decl_stmt (image 1 ∷ [])
    ∷ decl_stmt (image 2 ∷ [])
    ∷ decl_stmt (image 3 ∷ [])
    ∷ decl_stmt (image 4 ∷ [])
    ∷ decl_stmt (boundary_condition 5 (some 1) ∷ [])
    ∷ decl_stmt (accessor 11 (some 5) ∷ [])
    ∷ decl_stmt (accessor 12 (some 2) ∷ [])
    ∷ decl_stmt (iteration_space 22 (some 2) ∷ [])
    ∷ decl_stmt (iteration_space 23 (some 3) ∷ [])
    ∷ decl_stmt (iteration_space 24 (some 4) ∷ [])
    ∷ decl_stmt (record_var 31 (some 22) (some 11 ∷ none ∷ []) ∷ [])
    ∷ decl_stmt (record_var 32 (some 23) (some 12 ∷ some 12 ∷ []) ∷ [])
    ∷ decl_stmt (record_var 33 (some 24) (some 12 ∷ some 11 ∷ []) ∷ [])
    ∷ []

abbrev program : List Stmt
program = declarations ++ kernel_call 31 ∷ kernel_call 32 ∷ kernel_call 33 ∷ []

abbrev result_of : Outcome Tracker → Tracker
result_of (done t) = t
result_of _ = new_tracker no_deps

abbrev tracked : List Stmt → Tracker
tracked stmts = result_of (track stmts (new_tracker no_deps))

declarations_pass : track declarations (new_tracker no_deps) ≡ done (tracked declarations)
unfolding track new_tracker new_space new_process find accessors_of
declarations_pass = refl

program_passes : track program (new_tracker no_deps) ≡ done (tracked program)
unfolding track new_tracker new_space new_process find accessors_of
program_passes = refl

declarations-AllOutOfPlace : AllOutOfPlace (tracked declarations).data_deps.kernel_map
unfolding track new_tracker new_space new_process find accessors_of
declarations-AllOutOfPlace = omega arith

program-AllOutOfPlace : AllOutOfPlace (tracked program).data_deps.kernel_map
unfolding track new_tracker new_space new_process find accessors_of
program-AllOutOfPlace = omega arith

abbrev declared_deps : HostDataDeps
declared_deps = (tracked declarations).data_deps

abbrev program_deps : HostDataDeps
program_deps = (tracked program).data_deps

declared_deps-IsGraph : IsGraph declared_deps
declared_deps-IsGraph =
    track-IsGraph declarations no_deps (tracked declarations) no_deps-IsGraph declarations_pass
      declarations-AllOutOfPlace

program_deps-IsGraph : IsGraph program_deps
program_deps-IsGraph =
    track-IsGraph program no_deps (tracked program) no_deps-IsGraph program_passes
      program-AllOutOfPlace

abbrev kernel31 : Kernel
kernel31 = record {
  decl = 31;
  iter = record { decl = 22; image = 2 };
  accs = record { decl = 11; image = 1 } ∷ [];
}

kernel31_found : find 31 declared_deps.kernel_map ≡ some kernel31
unfolding track new_tracker new_space new_process find accessors_of
kernel31_found = refl

run_kernel-Calls_example :
    (e : HostDataDeps) × (run_kernel 31 declared_deps ≡ done e) × Calls declared_deps kernel31 e
run_kernel-Calls_example =
    run_kernel-Calls declared_deps 31 kernel31 declared_deps-IsGraph kernel31_found (omega arith)

create_schedule-IsSchedule_example :
    (e : HostDataDeps) × (create_schedule program_deps ≡ done e) × IsSchedule program_deps e
create_schedule-IsSchedule_example = create_schedule-IsSchedule program_deps program_deps-IsGraph

parse-IsSchedule_example :
    (e : HostDataDeps) × (parse program no_deps ≡ done e) × IsSchedule program_deps e
parse-IsSchedule_example =
    parse-IsSchedule program no_deps (tracked program) no_deps-IsGraph program_passes
      program-AllOutOfPlace

abbrev scheduled : HostDataDeps
scheduled = create_schedule-IsSchedule_example.0

kernel32_reads :
    0 < times (program_deps.process_at 0).out_space (program_deps.process_at 1).in_spaces
unfolding track new_tracker new_space new_process find times accessors_of
kernel32_reads = omega arith

pretty_print-Before_example :
    Before (call_of 1 [] scheduled 0) (call_of 1 [] scheduled 1) (pretty_print 1 [] scheduled).1
unfolding track find new_tracker accessors_of
pretty_print-Before_example =
    pretty_print-Before 1 [] program_deps scheduled 0 1 create_schedule-IsSchedule_example.2
      (omega arith) (omega arith) kernel32_reads

abbrev one_image : HostDataDeps
one_image = record no_deps { img_map = (1, 1) ∷ [] }

add_accessor-boundary_condition_example :
    (e : HostDataDeps) × ((add_boundary_condition 5 1 one_image >>= add_accessor 11 5) ≡ done e)
    × (find 11 e.acc_map
        ≡ (if 11 == 11 then some (record { decl = 11; image = 1 }) else find 11 one_image.acc_map))
unfolding find
add_accessor-boundary_condition_example =
    add_accessor-boundary_condition one_image 5 1 11 11 1 refl refl refl refl

abbrev printed : Outcome HostDataDeps → List Param × List Line
printed (done d) = pretty_print 1 [] d
printed _ = ([], [])

-- Image 2 has three readers, and its stream is split three ways.
printed-program : printed (parse program no_deps) ≡ (
  stream_param 4 (some (strm_out 0))
      ∷ stream_param 3 (some (strm_out 1))
      ∷ stream_param 1 (some (strm 1))
      ∷ [],
  decl_line 1 (some (strm_tmp 2))
      ∷ decl_line 1 (some (strm_tmp 5))
      ∷ split_line false (some (strm 1)) (strm_tmp 2 ∷ strm_tmp 5 ∷ [])
      ∷ decl_line 2 (some (strm_tmp 0))
      ∷ call_line 31 (some (strm_tmp 0)) (some (strm_tmp 5) ∷ []) []
      ∷ decl_line 2 (some (strm_tmp 1))
      ∷ decl_line 2 (some (strm_tmp 3))
      ∷ decl_line 2 (some (strm_tmp 4))
      ∷ split_line false (some (strm_tmp 0)) (strm_tmp 1 ∷ strm_tmp 3 ∷ strm_tmp 4 ∷ [])
      ∷ call_line 32 (some (strm_out 1)) (some (strm_tmp 3) ∷ some (strm_tmp 4) ∷ []) []
      ∷ call_line 33 (some (strm_out 0)) (some (strm_tmp 1) ∷ some (strm_tmp 2) ∷ []) []
      ∷ [],
)
unfolding parse new_space new_process pretty_print find accessors_of mark_outputs get_output_spaces
    mark_space mark_source name_output mark_process mark_inputs plan_process mark_input is_planned
    next_stream first_stream push_in_stream get_input_spaces
printed-program = refl
