-- ===== src/Deps/Planned.antt =====
-- lib/Analysis/HostDataDeps.cpp, `markSpace`, `markProcess` and `createSchedule`: the schedule.
use hipacc_vivado.Prelude.{
  ℕ, zero, suc, ◌+◌, ◌<◌, ◌≡◌, ◌≢◌, refl, sym, ap, subst, fun_ext, ◌∙◌, if◌then◌else◌, Option, none,
  some, List, [], ◌∷◌, length, Outcome, done, ◌>>=◌, arith, if_elim,
}
use hipacc_vivado.Deps.{Ptr, space_node, HostDataDeps}
use hipacc_vivado.Deps.Counts.{All, All-map, times}
use hipacc_vivado.Deps.Graph.{IsGraph}
use hipacc_vivado.Deps.Schedule.{
  first_stream, next_stream, is_planned, push_schedule, push_in_stream, mark_input, mark_inputs,
  mark_process, name_output, plan_process, mark_source, mark_space,
}
use hipacc_vivado.Deps.Plans.{plans, plans-space, unplanned-space}
use hipacc_vivado.Deps.Marking.{
  readers, to_visit, IsMarking, IsQuiet-IsMarking, plan_next, plan_space, pass_by, visit_edge,
}
use hipacc_vivado.Deps.Steps.{
  first_stream-IsQuiet, name_output-IsQuiet, next_stream-Copies, push_in_stream-IsQuiet,
  push_schedule-SameGraph, plan_process-SameGraph,
}

module _ (d : HostDataDeps) (graph : IsGraph d) (outputs : List Ptr)
    (are_outputs : (s : Ptr) → 0 < times s outputs → readers d s ≡ 0) where
  -- The outcome of a step is a state with the invariant.
  abbrev pub Marks : (Ptr → ℕ) → Ptr → Outcome HostDataDeps → Type 0
  Marks rest next r = (e : HostDataDeps) × (r ≡ done e) × IsMarking d rest outputs next e

  -- A space that may be marked with the fuel left.
  abbrev pub WithinFuel : ℕ → Ptr → Type 0
  WithinFuel fuel s = (0 < fuel) × ((p : Ptr) → (d.space_at s).src_process ≡ some p → suc p < fuel)

  -- What a call of `markSpace` is to do for a space whose last edge was visited.
  abbrev pub MarksSpaces : ℕ → (Ptr → HostDataDeps → Outcome HostDataDeps) → Type 0
  MarksSpaces fuel mark =
      (rest : Ptr → ℕ) (s : Ptr) (e : HostDataDeps)
      → s < d.spaces
      → WithinFuel fuel s
      → IsMarking d rest outputs s e
      → to_visit d rest e s ≡ 0
      → times s outputs ≡ 0
      → ((p : Ptr) → (d.space_at s).src_process ≡ some p → plans p e.schedule ≡ 0)
      → Marks rest d.spaces (mark s e)

  module _ (fuel : ℕ) (mark : Ptr → HostDataDeps → Outcome HostDataDeps)
      (marks : MarksSpaces fuel mark) where
    -- The space of an edge that was just visited: it is marked now, or left for its other readers.
    mark_visited :
        (rest : Ptr → ℕ) (s : Ptr) (f : HostDataDeps)
        → s < d.spaces
        → WithinFuel fuel s
        → IsMarking d rest outputs s f
        → to_visit d rest f s < readers d s
        → ((p : Ptr) → (d.space_at s).src_process ≡ some p → plans p f.schedule ≡ 0)
        → Marks rest d.spaces
            (if is_planned (f.space_at s) then mark s (push_schedule (space_node s) f) else done f)
    unfolding is_planned push_schedule
    mark_visited rest s f in_range within m few fresh =
        let same = ap (λ (l : List Ptr). length l) (m.same.same_dst s) in
        if_elim (Marks rest d.spaces) (is_planned (f.space_at s)) _ _
          (λ planned.
            let none_left : to_visit d rest f s ≡ 0 = ground (arith, same, m.copies s in_range) in
            let g = push_schedule (space_node s) f in
            marks rest s g in_range within
              (plan_space d graph rest outputs s f m g none_left
                (push_schedule-SameGraph (space_node s) f) refl (λ r. refl))
              (rw (unplanned-space d f.schedule s s) none_left) (ground (arith, are_outputs s))
              (λ p src. plans-space p s f.schedule ∙ fresh p src))
          (λ unplanned.
            let some_left : to_visit d rest f s ≢ 0 = ground (arith, same, m.copies s in_range) in
            (f, refl, pass_by d graph rest outputs s f m (λ t l w v o. absurd (some_left v))))

    -- The visit of an edge.
    mark_input-Marks :
        (t : Ptr) (rest : Ptr → ℕ) (s : Ptr) (ss : List Ptr) (e : HostDataDeps)
        → s < d.spaces
        → WithinFuel fuel s
        → IsMarking d (λ r. rest r + times r (s ∷ ss)) outputs d.spaces e
        → Marks (λ r. rest r + times r ss) d.spaces (mark_input mark t s e)
    unfolding mark_input times
    mark_input-Marks t rest s ss e in_range within m =
        let e1 = (first_stream s e).1 in
        let quiet = first_stream-IsQuiet s e in
        let m1 =
          IsQuiet-IsMarking d graph (λ r. rest r + times r (s ∷ ss)) outputs d.spaces e m e1
            quiet in
        let (x, f) = next_stream s (first_stream s e) in
        let c = next_stream-Copies s (first_stream s e).0 e1 in
        let m2 =
          visit_edge d graph rest outputs s ss e1 m1 f c.graph c.schedule
            (λ r. rw (← m1.same.same_dst s) (c.copied r)) in
        let more : to_visit d (λ r. rest r + times r ss) f s < readers d s =
          rw c.schedule (ground (arith, m1.few s in_range)) in
        let fresh : (p : Ptr) → (d.space_at s).src_process ≡ some p → plans p f.schedule ≡ 0 =
          λ p src. rw c.schedule (
            ground (
              arith,
              graph.src_in_range s p in_range src,
              graph.out_of_src s p in_range src,
              m1.once p,
              m1.complete p,
              more,
            )) in
        let (g, marked, m3) =
          mark_visited (λ r. rest r + times r ss) s f in_range within m2 more fresh in
        (
          push_in_stream t x g,
          ap (λ (r : Outcome HostDataDeps). r >>= λ h. done (push_in_stream t x h)) marked,
          IsQuiet-IsMarking d graph (λ r. rest r + times r ss) outputs d.spaces g m3
              (push_in_stream t x g) (push_in_stream-IsQuiet t x g),
        )

    mark_inputs-Marks :
        (t : Ptr) (rest : Ptr → ℕ) (ss : List Ptr) (e : HostDataDeps)
        → All (λ s. s < d.spaces) ss
        → All (WithinFuel fuel) ss
        → IsMarking d (λ r. rest r + times r ss) outputs d.spaces e
        → Marks rest d.spaces (mark_inputs mark t ss e)
    unfolding mark_inputs times
    mark_inputs-Marks t rest [] e in_range within m =
        (e, refl, subst (λ f. IsMarking d f outputs d.spaces e) (fun_ext (λ r. omega arith)) m)
    mark_inputs-Marks t rest (s ∷ ss) e in_range within m =
        let (f, first, n) = mark_input-Marks t rest s ss e in_range.0 within.0 m in
        let (h, others, o) = mark_inputs-Marks t rest ss f in_range.1 within.1 n in
        (h, rw first others, o)

    -- The process that writes the space is planned, and its edges are visited.
    mark_source-Marks :
        (rest : Ptr → ℕ) (s : Ptr) (o : Option Ptr) (e : HostDataDeps)
        → s < d.spaces
        → (d.space_at s).src_process ≡ o
        → ((p : Ptr) → (d.space_at s).src_process ≡ some p → p < fuel)
        → IsMarking d rest outputs s e
        → to_visit d rest e s ≡ 0
        → times s outputs ≡ 0
        → ((p : Ptr) → (d.space_at s).src_process ≡ some p → plans p e.schedule ≡ 0)
        → Marks rest d.spaces (mark_source mark s o e)
    unfolding mark_source plan_process push_schedule mark_process
    mark_source-Marks rest s none e in_range src within m visited not_output fresh = (
      e,
      refl,
      pass_by d graph rest outputs s e m
          (λ t l w v o. absurd (ground (arith, graph.src_of_out t l))),
    )
    mark_source-Marks rest s (some p) e in_range src within m visited not_output fresh =
        let p_in = graph.src_in_range s p in_range src in
        let f = plan_process s p e in
        let n =
          plan_next d graph rest outputs s e m f p p_in (graph.out_of_src s p in_range src) visited
            not_output (fresh p src) (plan_process-SameGraph s p e) refl (λ r. refl) in
        subst (λ ss. Marks rest d.spaces (mark_inputs mark p ss f)) (sym (n.same.same_in p))
          (mark_inputs-Marks p rest (d.process_at p).in_spaces f (graph.in_in_range p p_in)
            (All-map _ _ _
              (λ r earlier. (
                omega (arith, within p src),
                λ q of_q. omega (arith, within p src, earlier q of_q),
              ))
              (graph.earlier p p_in))
            n)

  pub mark_space-Marks : (fuel : ℕ) → MarksSpaces fuel (mark_space fuel)
  unfolding mark_space
  mark_space-Marks zero rest s e in_range within m visited not_output fresh =
      absurd (omega (arith, within.0))
  mark_space-Marks (suc fuel) rest s e in_range within m visited not_output fresh =
      let f = name_output s e in
      let quiet = name_output-IsQuiet s e in
      let n = IsQuiet-IsMarking d graph rest outputs s e m f quiet in
      subst (λ o. Marks rest d.spaces (mark_source (mark_space fuel) s o f))
        (sym (n.same.same_src s))
        (mark_source-Marks fuel (mark_space fuel) (mark_space-Marks fuel) rest s
          (d.space_at s).src_process f in_range refl (λ p src. omega (arith, within.1 p src)) n
          (rw quiet.schedule visited) not_output (λ p src. rw quiet.schedule (fresh p src)))
