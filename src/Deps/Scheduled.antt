-- ===== src/Deps/Scheduled.antt =====
-- lib/Analysis/HostDataDeps.cpp, `createSchedule`: the outputs one after the other, and the whole
-- schedule.
use hipacc_vivado.Prelude.{
  ℕ, zero, suc, ◌+◌, ◌≤◌, ◌<◌, ◌≡◌, refl, inl, inr, true, ◌==◌, ◌&&◌, ltb, if◌then◌else◌, List, [],
  ◌∷◌, length, done, arith, Bool-cases,
}
use hipacc_vivado.Deps.{Ptr, Space, HostDataDeps}
use hipacc_vivado.Deps.Counts.{All, times, sum_to-zero}
use hipacc_vivado.Deps.Graph.{IsGraph, IsEarlier}
use hipacc_vivado.Deps.Schedule.{
  is_empty, output_spaces, get_output_spaces, mark_outputs, create_schedule,
}
use hipacc_vivado.Deps.Plans.{plans, IsPlan, empty, unplanned}
use hipacc_vivado.Deps.Marking.{readers, SameGraph, to_visit, IsMarking}
use hipacc_vivado.Deps.Planned.{mark_space-Marks}

times-output_spaces :
    (s n : ℕ) (space_at : Ptr → Space)
    → times s (output_spaces n space_at)
      ≡ (if ltb s n && is_empty (space_at s).dst_process then 1 else 0)
unfolding output_spaces times
times-output_spaces s zero space_at = ground arith
times-output_spaces s (suc n) space_at = ground (arith, times-output_spaces s n space_at)

is_empty-length {ℓ} : {A : Type ℓ} (xs : List A) → length xs ≡ 0 → is_empty xs ≡ true
is_empty-length [] h = refl
is_empty-length (x ∷ xs) h = absurd (omega arith)

length-is_empty {ℓ} : {A : Type ℓ} (xs : List A) → is_empty xs ≡ true → length xs ≡ 0
length-is_empty [] h = refl
length-is_empty (x ∷ xs) h = absurd (cc)

All-times {ℓ} : (P : ℕ → Type ℓ) (a : ℕ) (xs : List ℕ) → All P xs → 0 < times a xs → P a
unfolding times
All-times P a [] h l = absurd (omega arith)
All-times P a (x ∷ xs) h l = elim (Bool-cases (x == a)) [
  | inl here ↦ let same : x ≡ a = ground arith in rw (← same) h.0
  | inr other ↦ All-times P a xs h.1 (ground arith)
]

-- The schedule has every process once, each behind all processes that read what it writes.
pub record IsSchedule (d e : HostDataDeps) : Type 0 where
  pub same : SameGraph d e
  pub plan : IsPlan d e.schedule
  pub whole : (t : Ptr) → t < d.processes → plans t e.schedule ≡ 1

module _ (d : HostDataDeps) (graph : IsGraph d) where
  -- The outputs that are left, each once.
  abbrev AreOutputs : List Ptr → Type 0
  AreOutputs ss =
      (s : Ptr) → (times s ss ≤ 1) × (0 < times s ss → (s < d.spaces) × (readers d s ≡ 0))

  abbrev none_running : Ptr → ℕ
  none_running s = 0

  mark_outputs-IsMarking :
      (ss : List Ptr) (e : HostDataDeps)
      → AreOutputs ss
      → IsMarking d none_running ss d.spaces e
      → (f : HostDataDeps) × (mark_outputs (suc d.processes) ss e ≡ done f)
        × IsMarking d none_running [] d.spaces f
  unfolding mark_outputs times
  mark_outputs-IsMarking [] e are m = (e, refl, m)
  mark_outputs-IsMarking (s ∷ ss) e are m =
      let (in_range, no_reader) = (are s).1 (ground arith) in
      let visited : to_visit d none_running e s ≡ 0 = omega (arith, m.few s in_range) in
      let next : IsMarking d none_running ss s e = record {
        same = m.same;
        plan = m.plan;
        copies = m.copies;
        few = m.few;
        once = m.once;
        complete = m.complete;
        waiting = λ t l h. omega (arith, m.waiting t l h);
        finished = λ t l h k n.
            m.finished t l h (ground arith)
              (λ same. absurd (omega (arith, graph.out_in_range t l)));
      } in
      let (f, first, m1) =
        mark_space-Marks d graph ss (λ r l. ((are r).1 (omega arith)).1) (suc d.processes)
          none_running s e in_range
          (omega arith, λ p src. omega (arith, graph.src_in_range s p in_range src)) next visited
          (ground (arith, (are s).0))
          (λ p src. ground (
            arith,
            graph.src_in_range s p in_range src,
            graph.out_of_src s p in_range src,
            m.once p,
            m.waiting p,
          )) in
      let (g, others, m2) =
        mark_outputs-IsMarking ss f (λ r. (omega (arith, (are r).0), λ l. (are r).1 (omega arith)))
          m1 in
      (g, rw first others, m2)

  -- The state in which `createSchedule` begins.
  abbrev begun : HostDataDeps
  begun = record d { out_id = 0; tmp_id = 0 }

  begun-IsMarking : IsMarking d none_running (get_output_spaces d) d.spaces begun
  unfolding get_output_spaces plans unplanned
  begun-IsMarking = record {
    same = record {
      same_src = λ s. refl;
      same_dst = λ s. refl;
      same_in = λ p. refl;
      same_out = λ p. refl;
    };
    plan = empty graph.no_schedule;
    copies =
        λ s l many. rw (graph.no_copies s l, graph.no_schedule) (omega (arith, graph.degrees s l));
    few = λ s l. rw graph.no_schedule (omega (arith, graph.degrees s l));
    once = λ t l. rw graph.no_schedule (omega arith);
    complete = λ t l h. absurd (let h' = rw graph.no_schedule at h in omega arith);
    waiting = λ t l h. absurd (let h' = rw graph.no_schedule at h in omega arith);
    finished = λ t l h k n.
        let in_range = graph.out_in_range t l in
        let idle = rw graph.no_schedule at h in
        let output =
          is_empty-length (d.space_at (d.process_at t).out_space).dst_process
            (omega (arith, graph.degrees (d.process_at t).out_space in_range)) in
        absurd (ground (arith, times-output_spaces (d.process_at t).out_space d.spaces d.space_at));
  }

  -- By descent from the last process: whoever reads what a process writes comes after it.
  planned_from :
      (e : HostDataDeps)
      → IsMarking d none_running [] d.spaces e
      → (k t : ℕ) → t < d.processes
      → d.processes ≤ t + k
      → plans t e.schedule ≡ 1
  unfolding unplanned times
  planned_from e m zero t l near = absurd (omega arith)
  planned_from e m (suc k) t l near =
      let out = (d.process_at t).out_space in
      let none_left =
        (sum_to-zero d.processes
          (λ u. if plans u e.schedule == 0 then times out (d.process_at u).in_spaces else 0)
          (λ u v. elim (Bool-cases (ltb 0 (times out (d.process_at u).in_spaces))) [
            | inl reads ↦
                let later =
                  All-times (IsEarlier d u) out (d.process_at u).in_spaces (graph.earlier u v)
                    (ground arith) t (graph.src_of_out t l) in
                rw (planned_from e m k u v (omega arith)) refl
            | inr apart ↦ ground arith
          ])) in
      m.finished t l (omega (arith, none_left)) refl
        (λ same. absurd (omega (arith, graph.out_in_range t l)))

-- On every graph `createSchedule` returns, with as many nested calls of `markSpace` as there are
-- processes and one more. The schedule has every process once, each behind all processes that read the
-- space that it writes, and a space behind all its readers; the graph is unchanged.
pub create_schedule-IsSchedule :
    (d : HostDataDeps)
    → IsGraph d
    → (e : HostDataDeps) × (create_schedule d ≡ done e) × IsSchedule d e
unfolding create_schedule get_output_spaces
create_schedule-IsSchedule d graph =
    let are : AreOutputs d graph (get_output_spaces d) = λ s. (
      ground (arith, times-output_spaces s d.spaces d.space_at),
      λ l. (
        ground (arith, times-output_spaces s d.spaces d.space_at),
        length-is_empty (d.space_at s).dst_process
            (ground (arith, times-output_spaces s d.spaces d.space_at)),
      ),
    ) in
    let (e, marked, m) =
      mark_outputs-IsMarking d graph (get_output_spaces d) (begun d graph) are
        (begun-IsMarking d graph) in
    (
      e,
      marked,
      record {
        same = m.same;
        plan = m.plan;
        whole = λ t l. planned_from d graph e m d.processes t l (omega arith);
      },
    )
