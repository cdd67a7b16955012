-- ===== src/Deps/Plans.antt =====
-- lib/Analysis/HostDataDeps.cpp, `createSchedule`: the schedule as a plan of the graph, and the edges
-- that are still to be visited.
use hipacc_vivado.Prelude.{
  ℕ, ◌+◌, ◌<◌, ◌≡◌, ◌≢◌, refl, ◌==◌, if◌then◌else◌, List, [], ◌∷◌, ◌++◌, arith,
}
use hipacc_vivado.Deps.{Ptr, Node, space_node, process_node, HostDataDeps}
use hipacc_vivado.Deps.Counts.{times, sum_to, sum_to-cong, sum_to-change, le-sum_to}

-- How often a process stands in the schedule.
unfoldable pub plans : Ptr → List Node → ℕ
plans p [] = 0
plans p (space_node s ∷ ns) = plans p ns
plans p (process_node q ∷ ns) = (if q == p then 1 else 0) + plans p ns

pub plans-space : (p s : Ptr) (ns : List Node) → plans p (ns ++ space_node s ∷ []) ≡ plans p ns
unfolding plans
plans-space p s [] = refl
plans-space p s (space_node r ∷ ns) = plans-space p s ns
plans-space p s (process_node q ∷ ns) = omega (arith, plans-space p s ns)

pub plans-process :
    (p q : Ptr) (ns : List Node)
    → plans p (ns ++ process_node q ∷ []) ≡ plans p ns + (if q == p then 1 else 0)
unfolding plans
plans-process p q [] = omega arith
plans-process p q (space_node r ∷ ns) = plans-process p q ns
plans-process p q (process_node r ∷ ns) = omega (arith, plans-process p q ns)

-- Every process that reads the space stands in the schedule.
abbrev pub ReadersPlanned : HostDataDeps → Ptr → List Node → Type 0
ReadersPlanned d s ns =
    (t : Ptr) → t < d.processes → 0 < times s (d.process_at t).in_spaces → plans t ns ≡ 1

-- A schedule in which no process stands twice, and a process and a space that is read stand behind all
-- readers: of the space, and of the space that the process writes.
pub data IsPlan (d : HostDataDeps) : List Node → Type 0 where
  empty : {ns : List Node} → ns ≡ [] → IsPlan d ns
  space :
      {ns : List Node} (before : List Node) (s : Ptr)
      → IsPlan d before
      → ReadersPlanned d s before
      → ns ≡ before ++ space_node s ∷ []
      → IsPlan d ns
  process :
      {ns : List Node} (before : List Node) (p : Ptr)
      → IsPlan d before
      → plans p before ≡ 0
      → ReadersPlanned d (d.process_at p).out_space before
      → ns ≡ before ++ process_node p ∷ []
      → IsPlan d ns

-- The edges from `s` that lead to processes outside the schedule.
unfoldable pub unplanned : HostDataDeps → List Node → Ptr → ℕ
unplanned d ns s =
    sum_to d.processes (λ t. if plans t ns == 0 then times s (d.process_at t).in_spaces else 0)

module _ (d : HostDataDeps) where
  pub unplanned-space :
      (ns : List Node) (r s : Ptr) → unplanned d (ns ++ space_node r ∷ []) s ≡ unplanned d ns s
  unfolding unplanned
  unplanned-space ns r s = sum_to-cong d.processes _ _ (λ t l. rw (plans-space t r ns) refl)

  -- With a process its edges leave the sum.
  pub unplanned-process :
      (ns : List Node) (p s : Ptr)
      → p < d.processes
      → plans p ns ≡ 0
      → unplanned d (ns ++ process_node p ∷ []) s + times s (d.process_at p).in_spaces
        ≡ unplanned d ns s
  unfolding unplanned
  unplanned-process ns p s in_range fresh =
      let change =
        sum_to-change d.processes p
          (λ t. if plans t ns == 0 then times s (d.process_at t).in_spaces else 0)
          (λ t.
            if plans t (ns ++ process_node p ∷ []) == 0
            then times s (d.process_at t).in_spaces
            else 0)
          in_range (λ t l ne. ground (arith, plans-process t p ns)) in
      ground (arith, change, plans-process p p ns)

  pub unplanned-readers :
      (ns : List Node) (s : Ptr)
      → unplanned d ns s ≡ 0
      → (t : Ptr) → t < d.processes
      → 0 < times s (d.process_at t).in_spaces
      → plans t ns ≢ 0
  unfolding unplanned
  unplanned-readers ns s none_left t l reads absent = ground (
    arith,
    le-sum_to d.processes t (λ u. if plans u ns == 0 then times s (d.process_at u).in_spaces else 0)
        l,
  )
