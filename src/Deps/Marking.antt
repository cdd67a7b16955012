-- ===== src/Deps/Marking.antt =====
-- lib/Analysis/HostDataDeps.cpp, `markSpace` and `markProcess`: what holds between their steps.
use hipacc_vivado.Prelude.{
  ℕ, ◌+◌, ◌≤◌, ◌<◌, ◌≡◌, ◌≢◌, sym, ◌∙◌, inl, inr, ◌==◌, ltb, if◌then◌else◌, List, [], ◌∷◌, ◌++◌,
  length, arith, Bool-cases,
}
use hipacc_vivado.Deps.{Ptr, space_node, process_node, HostDataDeps}
use hipacc_vivado.Deps.Counts.{times}
use hipacc_vivado.Deps.Graph.{IsGraph}
use hipacc_vivado.Deps.Plans.{
  plans, plans-space, plans-process, IsPlan, ReadersPlanned, space, process, unplanned,
  unplanned-space, unplanned-process, unplanned-readers,
}

abbrev pub readers : HostDataDeps → Ptr → ℕ
readers d s = length (d.space_at s).dst_process

pub record SameGraph (d e : HostDataDeps) : Type 0 where
  pub same_src : (s : Ptr) → (e.space_at s).src_process ≡ (d.space_at s).src_process
  pub same_dst : (s : Ptr) → (e.space_at s).dst_process ≡ (d.space_at s).dst_process
  pub same_in : (p : Ptr) → (e.process_at p).in_spaces ≡ (d.process_at p).in_spaces
  pub same_out : (p : Ptr) → (e.process_at p).out_space ≡ (d.process_at p).out_space

-- The edges from a space that are still to be visited: those of the loops that are running, `rest`,
-- and those of the processes that are not planned yet.
abbrev pub to_visit : HostDataDeps → (Ptr → ℕ) → HostDataDeps → Ptr → ℕ
to_visit d rest e s = rest s + unplanned d e.schedule s

-- The state between two steps. `outputs` are the output spaces that `createSchedule` has still to mark,
-- and `next` is a space whose last edge was just visited and that is marked next.
pub record IsMarking (d : HostDataDeps) (rest : Ptr → ℕ) (outputs : List Ptr) (next : Ptr)
    (e : HostDataDeps) : Type 0 where
  pub same : SameGraph d e
  pub plan : IsPlan d e.schedule
  pub copies :
      (s : Ptr)
      → s < d.spaces
      → 1 < readers d s
      → length (e.space_at s).cpy_streams + to_visit d rest e s ≡ readers d s
  pub few : (s : Ptr) → s < d.spaces → to_visit d rest e s ≤ readers d s
  pub once : (t : Ptr) → t < d.processes → plans t e.schedule ≤ 1
  pub complete :
      (t : Ptr)
      → t < d.processes
      → plans t e.schedule ≡ 1
      → to_visit d rest e (d.process_at t).out_space ≡ 0
  pub waiting :
      (t : Ptr)
      → t < d.processes
      → plans t e.schedule ≡ 1
      → times (d.process_at t).out_space outputs ≡ 0
  pub finished :
      (t : Ptr)
      → t < d.processes
      → to_visit d rest e (d.process_at t).out_space ≡ 0
      → times (d.process_at t).out_space outputs ≡ 0
      → (d.process_at t).out_space ≢ next
      → plans t e.schedule ≡ 1

-- A step that changes neither the graph nor the schedule nor the copies.
pub record IsQuiet (e f : HostDataDeps) : Type 0 where
  pub graph : SameGraph e f
  pub schedule : f.schedule ≡ e.schedule
  pub cpy_streams : (s : Ptr) → (f.space_at s).cpy_streams ≡ (e.space_at s).cpy_streams

pub SameGraph-trans : (d e f : HostDataDeps) → SameGraph d e → SameGraph e f → SameGraph d f
SameGraph-trans d e f g h = record {
  same_src = λ s. h.same_src s ∙ g.same_src s;
  same_dst = λ s. h.same_dst s ∙ g.same_dst s;
  same_in = λ p. h.same_in p ∙ g.same_in p;
  same_out = λ p. h.same_out p ∙ g.same_out p;
}

module _ (d : HostDataDeps) (graph : IsGraph d) (rest : Ptr → ℕ) (outputs : List Ptr) (next : Ptr)
    (e : HostDataDeps) (m : IsMarking d rest outputs next e) where
  pub IsQuiet-IsMarking : (f : HostDataDeps) → IsQuiet e f → IsMarking d rest outputs next f
  IsQuiet-IsMarking f q = record {
    same = SameGraph-trans d e f m.same q.graph;
    plan = rw q.schedule m.plan;
    copies = λ s l many. rw (q.schedule, q.cpy_streams s) (m.copies s l many);
    few = λ s l. rw q.schedule (m.few s l);
    once = λ t l. rw q.schedule (m.once t l);
    complete = λ t l h. rw q.schedule (m.complete t l (rw (← q.schedule) h));
    waiting = λ t l h. m.waiting t l (rw (← q.schedule) h);
    finished = λ t l h k n. rw q.schedule (m.finished t l (rw (← q.schedule) h) k n);
  }

  pub readers_planned : (s : Ptr) → to_visit d rest e s ≡ 0 → ReadersPlanned d s e.schedule
  readers_planned s none_left t l reads =
      let planned = unplanned-readers d e.schedule s (omega arith) t l reads in
      omega (arith, m.once t l, planned)

  -- The process that writes `next` enters the schedule, and its edges are now those of its loop.
  pub plan_next :
      (f : HostDataDeps) (p : Ptr)
      → p < d.processes
      → (d.process_at p).out_space ≡ next
      → to_visit d rest e next ≡ 0
      → times next outputs ≡ 0
      → plans p e.schedule ≡ 0
      → SameGraph e f
      → f.schedule ≡ e.schedule ++ process_node p ∷ []
      → ((s : Ptr) → (f.space_at s).cpy_streams ≡ (e.space_at s).cpy_streams)
      → IsMarking d (λ s. rest s + times s (d.process_at p).in_spaces) outputs d.spaces f
  plan_next f p in_range writes done_with not_waiting fresh g planned copied =
      let visit : (s : Ptr)
          → to_visit d (λ s. rest s + times s (d.process_at p).in_spaces) f s
            ≡ to_visit d rest e s =
        λ s. rw planned (omega (arith, unplanned-process d e.schedule p s in_range fresh)) in
      let count : (t : Ptr) → plans t f.schedule ≡ plans t e.schedule + (if p == t then 1 else 0) =
        λ t. rw planned (plans-process t p e.schedule) in
      record {
        same = SameGraph-trans d e f m.same g;
        plan =
            process e.schedule p m.plan fresh (rw writes (readers_planned next done_with)) planned;
        copies = λ s l many. rw (visit s, copied s) (m.copies s l many);
        few = λ s l. rw (visit s) (m.few s l);
        once = λ t l. ground (arith, count t, m.once t l);
        complete = λ t l h. elim (Bool-cases (p == t)) [
          | inl here ↦
              let same : p ≡ t = ground arith in
              visit (d.process_at t).out_space ∙ rw (← same, writes) done_with
          | inr other ↦ visit (d.process_at t).out_space ∙ m.complete t l (ground (arith, count t))
        ];
        waiting = λ t l h. elim (Bool-cases (p == t)) [
          | inl here ↦ let same : p ≡ t = ground arith in rw (← same, writes) not_waiting
          | inr other ↦ m.waiting t l (ground (arith, count t))
        ];
        finished = λ t l h k n. elim (Bool-cases (p == t)) [
          | inl here ↦ ground (arith, count t)
          | inr other ↦
              let before = m.finished t l (sym (visit (d.process_at t).out_space) ∙ h) k (λ same.
                absurd (ground (arith, graph.src_of_out t l, graph.src_of_out p in_range))) in
              ground (arith, count t, before)
        ];
      }

  -- The space `next` enters the schedule.
  pub plan_space :
      (f : HostDataDeps)
      → to_visit d rest e next ≡ 0
      → SameGraph e f
      → f.schedule ≡ e.schedule ++ space_node next ∷ []
      → ((s : Ptr) → (f.space_at s).cpy_streams ≡ (e.space_at s).cpy_streams)
      → IsMarking d rest outputs next f
  plan_space f done_with g planned copied =
      let visit : (s : Ptr) → to_visit d rest f s ≡ to_visit d rest e s =
        λ s. rw planned (omega (arith, unplanned-space d e.schedule next s)) in
      let count : (t : Ptr) → plans t f.schedule ≡ plans t e.schedule =
        λ t. rw planned (plans-space t next e.schedule) in
      record {
        same = SameGraph-trans d e f m.same g;
        plan = space e.schedule next m.plan (readers_planned next done_with) planned;
        copies = λ s l many. rw (visit s, copied s) (m.copies s l many);
        few = λ s l. rw (visit s) (m.few s l);
        once = λ t l. rw (count t) (m.once t l);
        complete = λ t l h. visit _ ∙ m.complete t l (sym (count t) ∙ h);
        waiting = λ t l h. m.waiting t l (sym (count t) ∙ h);
        finished = λ t l h k n. count t ∙ m.finished t l (sym (visit _) ∙ h) k n;
      }

  -- There is nothing to mark at `next`.
  pub pass_by :
      ((t : Ptr)
        → t < d.processes
        → (d.process_at t).out_space ≡ next
        → to_visit d rest e next ≡ 0
        → times next outputs ≡ 0
        → plans t e.schedule ≡ 1)
      → IsMarking d rest outputs d.spaces e
  pass_by planned = record {
    same = m.same;
    plan = m.plan;
    copies = m.copies;
    few = m.few;
    once = m.once;
    complete = m.complete;
    waiting = m.waiting;
    finished = λ t l h k n. elim (Bool-cases ((d.process_at t).out_space == next)) [
      | inl here ↦
          let same : (d.process_at t).out_space ≡ next = ground arith in
          planned t l same (rw (← same) h) (rw (← same) k)
      | inr other ↦ m.finished t l h k (λ same. absurd (ground arith))
    ];
  }

module _ (d : HostDataDeps) (graph : IsGraph d) (rest : Ptr → ℕ) (outputs : List Ptr) (s : Ptr)
    (ss : List Ptr) (e : HostDataDeps)
    (m : IsMarking d (λ r. rest r + times r (s ∷ ss)) outputs d.spaces e) where
  -- One more edge from `s` is visited, and copied where there are several.
  pub visit_edge :
      (f : HostDataDeps)
      → SameGraph e f
      → f.schedule ≡ e.schedule
      → ((r : Ptr)
          → length (f.space_at r).cpy_streams
            ≡ length (e.space_at r).cpy_streams
              + (if s == r then (if ltb 1 (readers d s) then 1 else 0) else 0))
      → IsMarking d (λ r. rest r + times r ss) outputs s f
  unfolding times
  visit_edge f g planned copied =
      let visit : (r : Ptr)
          → to_visit d (λ r. rest r + times r (s ∷ ss)) e r
            ≡ to_visit d (λ r. rest r + times r ss) f r + (if s == r then 1 else 0) =
        λ r. rw planned (omega arith) in
      record {
        same = SameGraph-trans d e f m.same g;
        plan = rw planned m.plan;
        copies = λ r l many. ground (arith, visit r, copied r, m.copies r l many);
        few = λ r l. omega (arith, visit r, m.few r l);
        once = λ t l. rw planned (m.once t l);
        complete = λ t l h.
            omega (arith, visit (d.process_at t).out_space, m.complete t l (rw (← planned) h));
        waiting = λ t l h. m.waiting t l (rw (← planned) h);
        finished = λ t l h k n. rw planned (
            m.finished t l (ground (arith, visit (d.process_at t).out_space)) k
              (λ same. absurd (omega (arith, graph.out_in_range t l))));
      }
