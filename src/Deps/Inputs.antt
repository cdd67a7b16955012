-- ===== src/Deps/Inputs.antt =====
-- lib/Analysis/HostDataDeps.cpp, `runKernel`: the space that an accessor reads, and what its look-up
-- leaves unchanged.
use hipacc_vivado.Prelude.{
  ◌≤◌, ◌<◌, ◌≡◌, ◌≢◌, refl, ◌∙◌, inl, inr, ltb, Option, none, some, arith, Bool-cases,
}
use hipacc_vivado.Deps.{ValueDecl, Ptr, HostDataDeps, new_space}
use hipacc_vivado.Deps.Graph.{IsGraph, with_input-IsGraph}
use hipacc_vivado.Deps.Edges.{IsLatest, find_space-IsLatest, find_space-none}
use hipacc_vivado.Deps.Connect.{find_space, input_space}

-- From `d` to `e` no process was added, the spaces kept their images and sources, and each new space is
-- an input for an image that had no space before it.
pub record Grows (d e : HostDataDeps) : Type 0 where
  pub same_processes : e.processes ≡ d.processes
  pub more_spaces : d.spaces ≤ e.spaces
  pub same_image : (s : Ptr) → s < d.spaces → (e.space_at s).image ≡ (d.space_at s).image
  pub same_src : (s : Ptr) → s < d.spaces → (e.space_at s).src_process ≡ (d.space_at s).src_process
  pub new_src : (s : Ptr) → d.spaces ≤ s → s < e.spaces → (e.space_at s).src_process ≡ none
  pub new_image :
      (r s : Ptr)
      → d.spaces ≤ s
      → s < e.spaces
      → r < s
      → (e.space_at r).image ≢ (e.space_at s).image

pub Grows-refl : (d : HostDataDeps) → Grows d d
Grows-refl d = record {
  same_processes = refl;
  more_spaces = omega arith;
  same_image = λ s l. refl;
  same_src = λ s l. refl;
  new_src = λ s l u. absurd (omega arith);
  new_image = λ r s l u v. absurd (omega arith);
}

pub Grows-trans : (d e f : HostDataDeps) → Grows d e → Grows e f → Grows d f
Grows-trans d e f g h = record {
  same_processes = h.same_processes ∙ g.same_processes;
  more_spaces = omega (arith, g.more_spaces, h.more_spaces);
  same_image = λ s l. h.same_image s (omega (arith, g.more_spaces)) ∙ g.same_image s l;
  same_src = λ s l. h.same_src s (omega (arith, g.more_spaces)) ∙ g.same_src s l;
  new_src = λ s l u. elim (Bool-cases (ltb s e.spaces)) [
    | inl in_e ↦ let v : s < e.spaces = ground arith in h.same_src s v ∙ g.new_src s l v
    | inr beyond ↦ h.new_src s (ground arith) u
  ];
  new_image = λ r s l u v. elim (Bool-cases (ltb s e.spaces)) [
    | inl in_e ↦
        let w : s < e.spaces = ground arith in
        ground (arith, h.same_image s w, h.same_image r (omega arith), g.new_image r s l w v)
    | inr beyond ↦ h.new_image r s (ground arith) u v
  ];
}

-- A space that is the latest for its image remains so.
pub Grows-IsLatest :
    (d e : HostDataDeps) (image : ValueDecl) (s : Ptr)
    → Grows d e
    → IsLatest d image d.spaces s
    → IsLatest e image e.spaces s
Grows-IsLatest d e image s g h = record {
  below = omega (arith, h.below, g.more_spaces);
  same_image = g.same_image s h.below ∙ h.same_image;
  later_differ = λ r l u. elim (Bool-cases (ltb r d.spaces)) [
    | inl in_d ↦ ground (arith, g.same_image r (ground arith), h.later_differ r l (ground arith))
    | inr beyond ↦
        ground (arith, g.new_image s r (ground arith) u l, g.same_image s h.below, h.same_image)
  ];
}

-- The space for an accessor is there afterwards, and is the latest for its image.
pub record HasInput (d : HostDataDeps) (image : ValueDecl) (r : Ptr × HostDataDeps) : Type 0 where
  pub graph : IsGraph r.1
  pub grows : Grows d r.1
  pub latest : IsLatest r.1 image (r.1).spaces r.0
  pub same_process : (p : Ptr) → (r.1).process_at p ≡ d.process_at p

pub input_space-HasInput :
    (d : HostDataDeps) (image : ValueDecl) → IsGraph d → HasInput d image (input_space image d)
unfolding input_space new_space
input_space-HasInput d image g = go (find_space image d.space_at d.spaces) refl
  where
    go :
        (o : Option Ptr)
        → find_space image d.space_at d.spaces ≡ o
        → HasInput d image (input_space image d)
    go none e =
        rw (e, input_space)
          (record {
            graph = with_input-IsGraph d g image;
            grows = record {
              same_processes = refl;
              more_spaces = omega arith;
              same_image = λ s l. ground arith;
              same_src = λ s l. ground arith;
              new_src = λ s l u. ground arith;
              new_image = λ r s l u v. ground (arith, find_space-none d image d.spaces e r);
            };
            latest = record {
              below = omega arith;
              same_image = ground arith;
              later_differ = λ r l u. absurd (omega arith);
            };
            same_process = λ p. refl;
          })
    go (some s) e =
        rw (e, input_space)
          (record {
            graph = g;
            grows = Grows-refl d;
            latest = find_space-IsLatest d image d.spaces s e;
            same_process = λ p. refl;
          })
