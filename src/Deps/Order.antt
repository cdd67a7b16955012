-- ===== src/Deps/Order.antt =====
-- lib/Analysis/HostDataDeps.cpp, `prettyPrint`: the order of the calls in the printed function.
use hipacc_vivado.Prelude.{
  ℕ, ◌<◌, ◌≡◌, refl, sym, ap, subst, ◌∙◌, inl, inr, ◌==◌, if◌then◌else◌, List, [], ◌∷◌, ◌++◌,
  append_assoc, append-nil, arith, Bool-cases,
}
use hipacc_vivado.Deps.{Ptr, Node, space_node, process_node, HostDataDeps, find}
use hipacc_vivado.Deps.Counts.{times}
use hipacc_vivado.Deps.Plans.{plans, plans-space, plans-process, IsPlan, empty, space, process}
use hipacc_vivado.Deps.Schedule.{is_empty}
use hipacc_vivado.Deps.Scheduled.{IsSchedule}
use hipacc_vivado.Deps.Entry.{
  Line, decl_line, call_line, Args, kernel_args, node_lines, body_lines, process_lines,
  pretty_print,
}

-- Lists in which `x` stands, and `x` somewhere before `y`.
abbrev pub Has {ℓ} : {A : Type ℓ} → A → List A → Type ℓ
Has {A} x l = (a : List A) × (b : List A) × (l ≡ a ++ (x ∷ b))

abbrev pub Before {ℓ} : {A : Type ℓ} → A → A → List A → Type ℓ
Before {A} x y l = (a : List A) × (b : List A) × (l ≡ a ++ (x ∷ b)) × Has y b

module _ {ℓ} {A : Type ℓ} where
  Has-left : (x : A) (l m : List A) → Has x l → Has x (l ++ m)
  Has-left x l m (a, b, e) = (a, b ++ m, rw e (append_assoc a (x ∷ b) m))

  Has-right : (x : A) (l m : List A) → Has x m → Has x (l ++ m)
  Has-right x l m (a, b, e) = (l ++ a, b, rw e (sym (append_assoc l a (x ∷ b))))

  Before-left : (x y : A) (l m : List A) → Before x y l → Before x y (l ++ m)
  Before-left x y l m (a, b, e, h) = (a, b ++ m, rw e (append_assoc a (x ∷ b) m), Has-left y b m h)

  Before-right : (x y : A) (l m : List A) → Before x y m → Before x y (l ++ m)
  Before-right x y l m (a, b, e, h) = (l ++ a, b, rw e (sym (append_assoc l a (x ∷ b))), h)

  Before-across : (x y : A) (l m : List A) → Has x l → Has y m → Before x y (l ++ m)
  Before-across x y l m (a, b, e) h =
      (a, b ++ m, rw e (append_assoc a (x ∷ b) m), Has-right y b m h)

Has-plans : (t : Ptr) (ns : List Node) → 0 < plans t ns → Has (process_node t) ns
unfolding plans
Has-plans t [] h = absurd (omega arith)
Has-plans t (space_node s ∷ ns) h =
    Has-right (process_node t) (space_node s ∷ []) ns (Has-plans t ns h)
Has-plans t (process_node q ∷ ns) h = elim (Bool-cases (q == t)) [
  | inl here ↦ let same : q ≡ t = ground arith in ([], ns, rw same refl)
  | inr other ↦ Has-right (process_node t) (process_node q ∷ []) ns (Has-plans t ns (ground arith))
]

-- In a plan a reader stands before the process that writes what it reads.
IsPlan-Before :
    (d : HostDataDeps) (ns : List Node) (p t : Ptr)
    → IsPlan d ns
    → t < d.processes
    → 0 < times (d.process_at p).out_space (d.process_at t).in_spaces
    → 0 < plans p ns
    → Before (process_node t) (process_node p) ns
unfolding plans
IsPlan-Before d ns p t (empty e) l reads in_plan =
    absurd (let h = rw e at in_plan in omega (arith, h))
IsPlan-Before d ns p t (space before s h r e) l reads in_plan =
    subst (Before (process_node t) (process_node p)) (sym e) (
      Before-left (process_node t) (process_node p) before (space_node s ∷ []) (
        IsPlan-Before d before p t h l reads
          (subst (λ n. 0 < n) (ap (plans p) e ∙ plans-space p s before) in_plan)))
IsPlan-Before d ns p t (process before q h fresh r e) l reads in_plan =
    subst (Before (process_node t) (process_node p)) (sym e) (elim (Bool-cases (q == p)) [
      | inl here ↦
          let same : q ≡ p = ground arith in
          Before-across (process_node t) (process_node p) before (process_node q ∷ [])
            (Has-plans t before (let planned = r t l (rw same reads) in omega arith))
            ([], [], rw same refl)
      | inr other ↦ Before-left (process_node t) (process_node p) before (process_node q ∷ []) (
          IsPlan-Before d before p t h l reads
            (ground (arith, ap (plans p) e, plans-process p q before)))
    ])

module _ (ppt : ℕ) (args : Args) (d : HostDataDeps) where
  -- The call of a process, as it is printed.
  abbrev pub call_of : Ptr → Line
  call_of p =
      let t = d.process_at p in
      call_line t.kernel.decl t.out_stream t.in_streams (kernel_args (find t.kernel.decl args))

  body_lines-append :
      (ms ns : List Node)
      → body_lines ppt args d (ms ++ ns) ≡ body_lines ppt args d ns ++ body_lines ppt args d ms
  unfolding body_lines
  body_lines-append [] ns = sym (append-nil _)
  body_lines-append (m ∷ ms) ns =
      ap (λ l. l ++ node_lines ppt args d m) (body_lines-append ms ns)
      ∙ append_assoc (body_lines ppt args d ns) (body_lines ppt args d ms) (node_lines ppt args d m)

  node_lines-Has : (p : Ptr) → Has (call_of p) (node_lines ppt args d (process_node p))
  unfolding node_lines process_lines
  node_lines-Has p =
      let t = d.process_at p in
      let out = d.space_at t.out_space in
      Has-right (call_of p)
        (if is_empty out.dst_process then [] else decl_line out.image t.out_stream ∷ [])
        (call_of p ∷ []) ([], [], refl)

  body_lines-Has :
      (p : Ptr) (ns : List Node)
      → Has (process_node p) ns
      → Has (call_of p) (body_lines ppt args d ns)
  unfolding body_lines
  body_lines-Has p ns (a, b, e) =
      subst (Has (call_of p))
        (sym (ap (body_lines ppt args d) e ∙ body_lines-append a (process_node p ∷ b)))
        (Has-left (call_of p) _ (body_lines ppt args d a) (
          Has-right (call_of p) (body_lines ppt args d b) (node_lines ppt args d (process_node p))
            (node_lines-Has p)))

  body_lines-Before :
      (p t : Ptr) (ns : List Node)
      → Before (process_node t) (process_node p) ns
      → Before (call_of p) (call_of t) (body_lines ppt args d ns)
  unfolding body_lines
  body_lines-Before p t ns (a, b, e, h) =
      subst (Before (call_of p) (call_of t))
        (sym (ap (body_lines ppt args d) e ∙ body_lines-append a (process_node t ∷ b)))
        (Before-left (call_of p) (call_of t) _ (body_lines ppt args d a) (
          Before-across (call_of p) (call_of t) (body_lines ppt args d b)
            (node_lines ppt args d (process_node t)) (body_lines-Has p b h) (node_lines-Has t)))

-- In the function that is printed from the schedule of a graph, the call of the process that writes a
-- space stands before the call of each process that reads the space.
pub pretty_print-Before :
    (ppt : ℕ) (args : Args) (d e : HostDataDeps) (p t : Ptr)
    → IsSchedule d e
    → p < d.processes
    → t < d.processes
    → 0 < times (d.process_at p).out_space (d.process_at t).in_spaces
    → Before (call_of ppt args e p) (call_of ppt args e t) (pretty_print ppt args e).1
unfolding pretty_print
pretty_print-Before ppt args d e p t s p_in t_in reads =
    body_lines-Before ppt args e p t e.schedule
      (IsPlan-Before d e.schedule p t s.plan t_in reads (omega (arith, s.whole p p_in)))
