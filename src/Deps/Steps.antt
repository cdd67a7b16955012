-- ===== src/Deps/Steps.antt =====
-- lib/Analysis/HostDataDeps.cpp, `createStream` and the assignments in `markSpace` and `markProcess`:
-- what they leave as it is.
use hipacc_vivado.Prelude.{
  ◌+◌, ◌≡◌, refl, ap, inl, inr, true, ◌==◌, ltb, if◌then◌else◌, Option, [], ◌∷◌, length,
  length-append, arith, Bool-cases, if_elim,
}
use hipacc_vivado.Deps.{Ptr, Stream, Space, Process, Node, HostDataDeps, set_space, is_some}
use hipacc_vivado.Deps.Schedule.{
  is_empty, create_stream, name_space, copy_space, first_stream, next_stream, push_schedule,
  push_in_stream, name_output, plan_process,
}
use hipacc_vivado.Deps.Marking.{readers, SameGraph, IsQuiet}

-- Only the counters change.
record IsCounting (e f : HostDataDeps) : Type 0 where
  spaces_at : f.space_at ≡ e.space_at
  processes_at : f.process_at ≡ e.process_at
  same_schedule : f.schedule ≡ e.schedule

create_stream-IsCounting : (s : Ptr) (e : HostDataDeps) → IsCounting e (create_stream s e).1
unfolding create_stream
create_stream-IsCounting s e = record {
  spaces_at = ground arith;
  processes_at = ground arith;
  same_schedule = ground arith;
}

-- A space whose name or copies were written.
module _ (s : Ptr) (e f : HostDataDeps) (space : Space) (c : IsCounting e f)
    (src : space.src_process ≡ (f.space_at s).src_process)
    (dst : space.dst_process ≡ (f.space_at s).dst_process) where
  set_space-SameGraph : SameGraph e (set_space s space f)
  set_space-SameGraph = record {
    same_src = λ r. ground (arith, ap (λ (g : Ptr → Space). g r) c.spaces_at);
    same_dst = λ r. ground (arith, ap (λ (g : Ptr → Space). g r) c.spaces_at);
    same_in = λ p. ap (λ (g : Ptr → Process). (g p).in_spaces) c.processes_at;
    same_out = λ p. ap (λ (g : Ptr → Process). (g p).out_space) c.processes_at;
  }

pub name_space-IsQuiet : (s : Ptr) (e : HostDataDeps) → IsQuiet e (name_space s e).1
unfolding name_space
name_space-IsQuiet s e =
    let c = create_stream-IsCounting s e in
    record {
      graph = set_space-SameGraph s e (create_stream s e).1 _ c refl refl;
      schedule = c.same_schedule;
      cpy_streams = λ r. ground (arith, ap (λ (g : Ptr → Space). g r) c.spaces_at);
    }

pub IsQuiet-refl : (e : HostDataDeps) → IsQuiet e e
IsQuiet-refl e = record {
  graph = record {
    same_src = λ s. refl;
    same_dst = λ s. refl;
    same_in = λ p. refl;
    same_out = λ p. refl;
  };
  schedule = refl;
  cpy_streams = λ s. refl;
}

pub first_stream-IsQuiet : (s : Ptr) (e : HostDataDeps) → IsQuiet e (first_stream s e).1
unfolding first_stream
first_stream-IsQuiet s e =
    if_elim (λ (r : Option Stream × HostDataDeps). IsQuiet e r.1) (is_some (e.space_at s).stream) _
      _ (λ named. IsQuiet-refl e) (λ unnamed. name_space-IsQuiet s e)

pub name_output-IsQuiet : (s : Ptr) (e : HostDataDeps) → IsQuiet e (name_output s e)
unfolding name_output
name_output-IsQuiet s e =
    if_elim (IsQuiet e) (is_empty (e.space_at s).dst_process) _ _ (λ output. name_space-IsQuiet s e)
      (λ inner. IsQuiet-refl e)

-- A space with several readers gets one more copy.
pub record Copies (s : Ptr) (e f : HostDataDeps) : Type 0 where
  pub graph : SameGraph e f
  pub schedule : f.schedule ≡ e.schedule
  pub copied :
      (r : Ptr)
      → length (f.space_at r).cpy_streams
        ≡ length (e.space_at r).cpy_streams
          + (if s == r then (if ltb 1 (readers e s) then 1 else 0) else 0)

copy_space-Copies :
    (s : Ptr) (e : HostDataDeps) → ltb 1 (readers e s) ≡ true → Copies s e (copy_space s e).1
unfolding copy_space
copy_space-Copies s e several =
    let c = create_stream-IsCounting s e in
    let (x, f) = create_stream s e in
    record {
      graph = set_space-SameGraph s e f _ c refl refl;
      schedule = c.same_schedule;
      copied = λ r. ground (
        arith,
        ap (λ (g : Ptr → Space). g r) c.spaces_at,
        ap (λ (g : Ptr → Space). g s) c.spaces_at,
        length-append (f.space_at s).cpy_streams (x ∷ []),
      );
    }

pub next_stream-Copies :
    (s : Ptr) (x : Option Stream) (e : HostDataDeps) → Copies s e (next_stream s (x, e)).1
unfolding next_stream
next_stream-Copies s x e = elim (Bool-cases (ltb 1 (readers e s))) [
  | inl several ↦ rw several (copy_space-Copies s e several)
  | inr single ↦
      rw single
        (record { graph = (IsQuiet-refl e).graph; schedule = refl; copied = λ r. ground arith })
]

pub push_schedule-SameGraph : (n : Node) (e : HostDataDeps) → SameGraph e (push_schedule n e)
unfolding push_schedule
push_schedule-SameGraph n e = record {
  same_src = λ s. refl;
  same_dst = λ s. refl;
  same_in = λ p. refl;
  same_out = λ p. refl;
}

pub plan_process-SameGraph : (s p : Ptr) (e : HostDataDeps) → SameGraph e (plan_process s p e)
unfolding plan_process push_schedule
plan_process-SameGraph s p e = record {
  same_src = λ r. refl;
  same_dst = λ r. refl;
  same_in = λ q. ground arith;
  same_out = λ q. ground arith;
}

pub push_in_stream-IsQuiet :
    (t : Ptr) (x : Option Stream) (e : HostDataDeps) → IsQuiet e (push_in_stream t x e)
unfolding push_in_stream
push_in_stream-IsQuiet t x e = record {
  graph = record {
    same_src = λ s. refl;
    same_dst = λ s. refl;
    same_in = λ p. ground arith;
    same_out = λ p. ground arith;
  };
  schedule = refl;
  cpy_streams = λ s. refl;
}
