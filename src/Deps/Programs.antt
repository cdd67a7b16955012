-- ===== src/Deps/Programs.antt =====
-- lib/Analysis/HostDataDeps.cpp: whole host programs, from the declarations to the schedule.
use hipacc_vivado.Prelude.{
  ◌≡◌, refl, sym, ap, subst, ◌∙◌, inl, inr, ◌==◌, Option, none, some, List, [], ◌∷◌, ◌++◌,
  append_assoc, Outcome, bind-done, done, blocked, fault, aborted, out_of_fuel, ◌>>=◌, arith,
  Bool-cases, if_elim,
}
use hipacc_vivado.Deps.{ValueDecl, Kernel, HostDataDeps, find, declared}
use hipacc_vivado.Deps.Counts.{All}
use hipacc_vivado.Deps.Graph.{IsGraph}
use hipacc_vivado.Deps.Calls.{IsOutOfPlace, run_kernel-Calls}
use hipacc_vivado.Deps.Declare.{add_accessor}
use hipacc_vivado.Deps.Connect.{run_kernel}
use hipacc_vivado.Deps.Ends.{
  Ends, Declares, KeepsKernels, run_kernel-kernels, add_image-Declares,
  add_boundary_condition-Declares, add_accessor-Declares, add_iteration_space-Declares,
  add_kernel-Declares,
}
use hipacc_vivado.Deps.Tracker.{
  Decl, image, mask, domain, boundary_condition, accessor, iteration_space, record_var, unrelated,
  Stmt, decl_stmt, kernel_call, other_stmt, Tracker, count, track_image, track_boundary_condition,
  track_accessor, implicit_bc, track_iteration_space, track_kernel, visit_decls, visit, track,
  new_tracker, parse,
}
use hipacc_vivado.Deps.Scheduled.{IsSchedule, create_schedule-IsSchedule}

-- The declarations of a step are still there after it, whatever else it does.
abbrev Extends : List (ValueDecl × Kernel) → List (ValueDecl × Kernel) → Type 0
Extends m n = (new : List (ValueDecl × Kernel)) × (n ≡ new ++ m)

Extends-trans : (l m n : List (ValueDecl × Kernel)) → Extends l m → Extends m n → Extends l n
Extends-trans l m n (xs, e) (ys, f) =
    (ys ++ xs, f ∙ ap (λ k. ys ++ k) e ∙ sym (append_assoc ys xs l))

-- All declared kernels work out of place.
abbrev pub AllOutOfPlace : List (ValueDecl × Kernel) → Type 0
AllOutOfPlace m = All (λ k. IsOutOfPlace k.1) m

AllOutOfPlace-Extends :
    (m n : List (ValueDecl × Kernel)) → Extends m n → AllOutOfPlace n → AllOutOfPlace m
AllOutOfPlace-Extends m n (new, e) h = behind new (subst AllOutOfPlace e h)
  where
    behind : (new : List (ValueDecl × Kernel)) → AllOutOfPlace (new ++ m) → AllOutOfPlace m
    behind [] h = h
    behind (k ∷ new) h = behind new h.1

AllOutOfPlace-find :
    (vd : ValueDecl) (m : List (ValueDecl × Kernel)) (kernel : Kernel)
    → AllOutOfPlace m
    → find vd m ≡ some kernel
    → IsOutOfPlace kernel
unfolding find
AllOutOfPlace-find vd [] kernel h e = absurd (cc)
AllOutOfPlace-find vd ((j, k) ∷ m) kernel h e = elim (Bool-cases (j == vd)) [
  | inl here ↦ let same : k ≡ kernel = ground arith in subst IsOutOfPlace same h.0
  | inr other ↦ AllOutOfPlace-find vd m kernel h.1 (rw (other, find) at e)
]

-- A step of the tracker.
abbrev Tracks : Tracker → Tracker → Type 0
Tracks t u = Declares t.data_deps u.data_deps

Tracks-same : (t : Tracker) → Tracks t t
Tracks-same t = (refl, ([], refl))

with_deps-Tracks :
    (t u : Tracker) (m : Outcome HostDataDeps)
    → Ends (Declares t.data_deps) m
    → Ends (Tracks t) (m >>= λ d. done (record u { data_deps = d }))
with_deps-Tracks t u (done d) h = h
with_deps-Tracks t u blocked h = tt
with_deps-Tracks t u fault h = tt
with_deps-Tracks t u aborted h = tt
with_deps-Tracks t u out_of_fuel h = tt

implicit_bc-deps :
    (vd arg : ValueDecl) (t : Tracker) → (implicit_bc vd arg t).data_deps ≡ t.data_deps
unfolding implicit_bc
implicit_bc-deps vd arg t = ground arith

visit_decls-Tracks : (ds : List Decl) (t : Tracker) → Ends (Tracks t) (visit_decls ds t)
unfolding visit_decls track_image track_boundary_condition track_accessor implicit_bc
    track_iteration_space track_kernel
visit_decls-Tracks [] t = Tracks-same t
visit_decls-Tracks (image vd ∷ ds) t =
    with_deps-Tracks t (record t { img_decls = vd ∷ t.img_decls }) _
      (add_image-Declares t.data_deps vd)
visit_decls-Tracks (mask vd ∷ ds) t = Tracks-same t
visit_decls-Tracks (domain vd ∷ ds) t = Tracks-same t
visit_decls-Tracks (boundary_condition vd none ∷ ds) t = Tracks-same t
visit_decls-Tracks (boundary_condition vd (some arg) ∷ ds) t =
    if_elim (Ends (Tracks t)) (count arg t.img_decls) _ _
      (λ h. with_deps-Tracks t t _ (add_boundary_condition-Declares t.data_deps vd arg))
      (λ h. Tracks-same t)
visit_decls-Tracks (accessor vd none ∷ ds) t = tt
visit_decls-Tracks (accessor vd (some arg) ∷ ds) t =
    let u = implicit_bc vd arg t in
    let m : Outcome Tracker = add_accessor vd arg u.data_deps >>= λ d.
    done (record u { acc_decls = vd ∷ u.acc_decls; data_deps = d }) in
    subst (λ d. Ends (λ (v : Tracker). Declares d v.data_deps) m) (implicit_bc-deps vd arg t)
      (with_deps-Tracks u (record u { acc_decls = vd ∷ u.acc_decls }) _
        (add_accessor-Declares u.data_deps vd arg))
visit_decls-Tracks (iteration_space vd none ∷ ds) t = Tracks-same t
visit_decls-Tracks (iteration_space vd (some arg) ∷ ds) t =
    if_elim (Ends (Tracks t)) (count arg t.img_decls) _ _
      (λ h.
        with_deps-Tracks t (record t { iter_decls = vd ∷ t.iter_decls }) _
          (add_iteration_space-Declares t.data_deps vd arg))
      (λ h. Tracks-same t)
visit_decls-Tracks (record_var vd (some isvd) args ∷ ds) t =
    with_deps-Tracks t t _ (add_kernel-Declares t.data_deps vd isvd _)
visit_decls-Tracks (record_var vd none args ∷ ds) t = visit_decls-Tracks ds t
visit_decls-Tracks (unrelated ∷ ds) t = visit_decls-Tracks ds t

-- The maps of a graph do not matter.
Declares-IsGraph : (d e : HostDataDeps) → Declares d e → IsGraph d → IsGraph e
Declares-IsGraph d e (same, new) g =
    let maps : IsGraph (record d {
      acc_map = e.acc_map;
      img_map = e.img_map;
      iter_map = e.iter_map;
      bc_map = e.bc_map;
      kernel_map = e.kernel_map;
    }) =
      record {
        out_in_range = g.out_in_range;
        src_of_out = g.src_of_out;
        image_of_out = g.image_of_out;
        src_in_range = g.src_in_range;
        out_of_src = g.out_of_src;
        in_in_range = g.in_in_range;
        degrees = g.degrees;
        earlier = g.earlier;
        no_copies = g.no_copies;
        no_schedule = g.no_schedule;
      } in
    subst IsGraph (sym same) maps

-- What a statement leaves: more declared kernels, and a graph if they all work out of place.
abbrev Advances : Tracker → Tracker → Type 0
Advances t u =
    Extends t.data_deps.kernel_map u.data_deps.kernel_map
    × (IsGraph t.data_deps → AllOutOfPlace u.data_deps.kernel_map → IsGraph u.data_deps)

declared-eq_done : {V : Type 0} (o : Option V) (v : V) → declared o ≡ done v → o ≡ some v
declared-eq_done none v e = absurd (cc)
declared-eq_done (some w) v e = ground arith

declared-find :
    (vd : ValueDecl) (d e : HostDataDeps)
    → run_kernel vd d ≡ done e
    → (kernel : Kernel) × (find vd d.kernel_map ≡ some kernel)
unfolding run_kernel
declared-find vd d e ran =
    let (kernel, is, _) = bind-done (declared (find vd d.kernel_map)) _ ran in
    (kernel, declared-eq_done (find vd d.kernel_map) kernel is)

run-Advances :
    (vd : ValueDecl) (t : Tracker) (d : HostDataDeps)
    → run_kernel vd t.data_deps ≡ done d
    → Advances t (record t { data_deps = d })
run-Advances vd t d ran =
    let kept : d.kernel_map ≡ t.data_deps.kernel_map =
      subst (Ends (KeepsKernels t.data_deps.kernel_map)) ran (run_kernel-kernels vd t.data_deps) in
    (
      ([], kept),
      λ g all.
          let all' = subst AllOutOfPlace kept all in
          let (kernel, found) = declared-find vd t.data_deps d ran in
          let (e, ran', calls) =
            run_kernel-Calls t.data_deps vd kernel g found
              (AllOutOfPlace-find vd t.data_deps.kernel_map kernel all' found) in
          let same : e ≡ d = ground arith in subst IsGraph same calls.graph,
    )

Declares-Advances : (t u : Tracker) → Tracks t u → Advances t u
Declares-Advances t u h = (h.1, λ g all. Declares-IsGraph t.data_deps u.data_deps h g)

Ends-done : {A : Type 0} (P : A → Type 0) (m : Outcome A) (x : A) → Ends P m → m ≡ done x → P x
Ends-done P m x h e = subst (Ends P) e h

visit-Advances : (s : Stmt) (t u : Tracker) → visit s t ≡ done u → Advances t u
unfolding visit
visit-Advances (decl_stmt ds) t u e =
    Declares-Advances t u (Ends-done (Tracks t) (visit_decls ds t) u (visit_decls-Tracks ds t) e)
visit-Advances (kernel_call vd) t u e =
    let (d, ran, is) = bind-done (run_kernel vd t.data_deps) _ e in
    let same : record t { data_deps = d } ≡ u = ground arith in
    subst (Advances t) same (run-Advances vd t d ran)
visit-Advances other_stmt t u e =
    let same : t ≡ u = ground arith in subst (Advances t) same (([], refl), λ g all. g)

track-Advances : (ss : List Stmt) (t u : Tracker) → track ss t ≡ done u → Advances t u
unfolding track
track-Advances [] t u e =
    let same : t ≡ u = ground arith in subst (Advances t) same (([], refl), λ g all. g)
track-Advances (s ∷ ss) t u e =
    let (v, first, more) = bind-done (visit s t) (track ss) e in
    let a = visit-Advances s t v first in
    let b = track-Advances ss v u more in
    let mt = t.data_deps.kernel_map in
    let mv = v.data_deps.kernel_map in
    let mu = u.data_deps.kernel_map in
    (Extends-trans mt mv mu a.0 b.0, λ g all. b.1 (a.1 g (AllOutOfPlace-Extends mv mu b.0 all)) all)

pub track-IsGraph :
    (stmts : List Stmt) (d : HostDataDeps) (t : Tracker)
    → IsGraph d
    → track stmts (new_tracker d) ≡ done t
    → AllOutOfPlace t.data_deps.kernel_map
    → IsGraph t.data_deps
unfolding new_tracker
track-IsGraph stmts d t g tracked all = (track-Advances stmts (new_tracker d) t tracked).1 g all

-- A host program whose declarations and calls pass the assertions, and whose kernels read no image that
-- they write, is scheduled: the run of the analysis on it returns. Its schedule has every process once,
-- each behind all processes that read the space that it writes, and the graph is the one that the calls
-- built.
pub parse-IsSchedule :
    (stmts : List Stmt) (d : HostDataDeps) (t : Tracker)
    → IsGraph d
    → track stmts (new_tracker d) ≡ done t
    → AllOutOfPlace t.data_deps.kernel_map
    → (e : HostDataDeps) × (parse stmts d ≡ done e) × IsSchedule t.data_deps e
unfolding parse
parse-IsSchedule stmts d t g tracked all =
    let graph = track-IsGraph stmts d t g tracked all in
    let (e, scheduled, s) = create_schedule-IsSchedule t.data_deps graph in
    (e, rw tracked scheduled, s)
