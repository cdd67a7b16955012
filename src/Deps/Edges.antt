-- ===== src/Deps/Edges.antt =====
-- lib/Analysis/HostDataDeps.cpp, `runKernel`: the space that an accessor reads, and the edges.
use hipacc_vivado.Prelude.{
  ℕ, zero, suc, ◌+◌, ◌<◌, ◌≡◌, ◌≢◌, inl, inr, ◌==◌, if◌then◌else◌, none, some, [], ◌∷◌, ◌++◌,
  length, length-append, done, arith, Bool-cases,
}
use hipacc_vivado.Deps.{ValueDecl, Ptr, accessors_of, HostDataDeps, set_space, set_process}
use hipacc_vivado.Deps.Counts.{All-map, All-concat, times, times-concat, sum_to-change}
use hipacc_vivado.Deps.Graph.{IsGraph, IsEarlier, degree}
use hipacc_vivado.Deps.Connect.{find_space, add_dst_process, add_input_space, add_edge}

-- The last of the first `n` spaces that is for the image.
pub record IsLatest (d : HostDataDeps) (image : ValueDecl) (n s : ℕ) : Type 0 where
  pub below : s < n
  pub same_image : (d.space_at s).image ≡ image
  pub later_differ : (r : Ptr) → s < r → r < n → (d.space_at r).image ≢ image

module _ (d : HostDataDeps) (image : ValueDecl) where
  pub find_space-IsLatest :
      (n s : ℕ) → find_space image d.space_at n ≡ some s → IsLatest d image n s
  unfolding find_space
  find_space-IsLatest zero s e = absurd (cc)
  find_space-IsLatest (suc n) s e = elim (Bool-cases (image == (d.space_at n).image)) [
    | inl here ↦ record {
      below = ground arith;
      same_image = ground arith;
      later_differ = λ r l u. absurd (ground arith);
    }
    | inr differs ↦
        let h = find_space-IsLatest n s (rw differs at e) in
        record {
          below = omega (arith, h.below);
          same_image = h.same_image;
          later_differ = λ r l u. ground (arith, h.later_differ r);
        }
  ]

  pub find_space-none :
      (n : ℕ)
      → find_space image d.space_at n ≡ none
      → (r : Ptr) → r < n
      → (d.space_at r).image ≢ image
  unfolding find_space
  find_space-none zero e r l = absurd (omega arith)
  find_space-none (suc n) e r l = ground (arith, find_space-none n _ r)

module _ (d : HostDataDeps) (g : IsGraph d) (s p : Ptr) (s_in : s < d.spaces)
    (p_in : p < d.processes) (before : IsEarlier d p s) where
  -- The state with one more edge from `s` to `p`.
  abbrev pub linked : HostDataDeps
  linked = set_process p (add_input_space s (d.process_at p)) (
      set_space s
        (record (d.space_at s) {
          accs =
              (d.space_at s).accs ++ accessors_of (d.space_at s).image (d.process_at p).kernel.accs;
          dst_process = (d.space_at s).dst_process ++ p ∷ [];
        })
        d)

  pub add_edge-linked :
      0 < length (accessors_of (d.space_at s).image (d.process_at p).kernel.accs)
      → add_edge s p d ≡ done linked
  unfolding add_edge add_dst_process
  add_edge-linked some_accessor = ground arith

  degree-linked : (r : Ptr) → degree linked r ≡ degree d r + (if s == r then 1 else 0)
  unfolding add_input_space
  degree-linked r =
      let here : times r (linked.process_at p).in_spaces
          ≡ times r (d.process_at p).in_spaces + (if s == r then 1 else 0) =
        ground (arith, times-concat r (d.process_at p).in_spaces s) in
      omega (
        arith,
        sum_to-change d.processes p (λ t. times r (d.process_at t).in_spaces)
            (λ t. times r (linked.process_at t).in_spaces) p_in (λ t l ne. ground arith),
        here,
      )

  pub linked-IsGraph : IsGraph linked
  unfolding add_input_space
  linked-IsGraph = record {
    out_in_range = λ q l. ground (arith, g.out_in_range q l);
    src_of_out = λ q l. ground (arith, g.src_of_out q l, g.src_of_out p p_in);
    image_of_out = λ q l. ground (arith, g.image_of_out q l, g.image_of_out p p_in);
    src_in_range = λ r q l e. ground (arith, g.src_in_range r q l, g.src_in_range s q s_in);
    out_of_src = λ r q l e. ground (arith, g.out_of_src r q l, g.out_of_src s q s_in);
    in_in_range = λ q l. elim (Bool-cases (p == q)) [
      | inl same ↦ rw same (All-concat _ _ s (g.in_in_range p p_in) s_in)
      | inr other ↦ rw other (g.in_in_range q l)
    ];
    degrees = λ r l.
        ground (
          arith,
          degree-linked r,
          g.degrees r l,
          length-append (d.space_at s).dst_process (p ∷ []),
        );
    earlier = λ q l. elim (Bool-cases (p == q)) [
      | inl same ↦ rw same (
          All-concat _ _ s (All-map _ _ _ (λ r h t e. ground (arith, h t)) (g.earlier p p_in))
            (λ t e. ground (arith, before t)))
      | inr other ↦ rw other (All-map _ _ _ (λ r h t e. h t (ground arith)) (g.earlier q l))
    ];
    no_copies = λ r l. ground (arith, g.no_copies r l, g.no_copies s s_in);
    no_schedule = g.no_schedule;
  }
