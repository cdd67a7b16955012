-- ===== src/Aggregate/Rows.antt =====
-- runtime/hipacc_vivado_filter.hpp, the loop of `split_L` to `splitF_R`.
use hipacc_vivado.Prelude.{
  ℕ, suc, ◌+◌, ◌-◌, ◌*◌, ◌/◌, ◌%◌, ◌≤◌, ◌<◌, ◌≡◌, refl, sym, ◌∙◌, ap, arith, Bool, true, false,
  ◌&&◌, ltb, leb, ◌==◌, Bool-cases, inl, inr, if◌then◌else◌, Outcome, done, for_up, for_up_inv,
  for_up-after, List, [], ◌∷◌, ◌++◌, append-nil, subst, ≡→==, ≢→==, ==→≡,
}
use native.Mathlib.Nat.{le_refl}
use hipacc_vivado.Local.{Streams}
use hipacc_vivado.Local.Images.{
  raster, left, left-next, left-line, left-start, left-end, sofar, sofar-next, sofar-line,
  sofar-start, sofar-end,
}
use hipacc_vivado.Aggregate.{next_vector, split_step, split_loop}
use hipacc_vivado.Aggregate.Blocks.{for_up_blocks, lane_at, block_inside}

module _ {V A : Type 0} (vect n height : ℕ) (reads writes : ℕ → Bool) (lane : V → ℕ → A)
    (img : ℕ → ℕ → V) (rest : List V) (before : List A) (pos : 0 < vect) where
  -- What column `col` of line `y` adds.
  abbrev pub piece : ℕ → ℕ → List A
  piece y col = if writes col then lane (img y (col / vect)) (col % vect) ∷ [] else []

  abbrev incoming : ℕ → ℕ → List V
  incoming = left n height (λ y x. img y x ∷ []) rest

  abbrev outgoing : ℕ → ℕ → List A
  outgoing = sofar 0 0 (n * vect) height piece before

  abbrev step : ℕ → V × Streams V A → Outcome (V × Streams V A)
  step = split_step vect reads writes lane

  -- Before vector `k` of line `y`.
  abbrev At : ℕ → ℕ → V × Streams V A → Type 0
  At y k (temp, t) = t ≡ record { in_s = incoming y k; out_s = outgoing y (k * vect) }

  module _ (y k : ℕ) (in_rows : y < height) (in_line : k < n)
      (read_all : (col : ℕ) → col < n * vect → reads col ≡ true) where
    -- Before column `col` of vector `k`.
    abbrev Within : ℕ → V × Streams V A → Type 0
    Within col (temp, t) =
        (k * vect < col → temp ≡ img y k)
        × (t ≡ record {
          in_s = if col == k * vect then incoming y k else incoming y (suc k);
          out_s = outgoing y col;
        })

    next_lem :
        (col : ℕ) (s : V × Streams V A)
        → k * vect ≤ col
        → col < k * vect + vect
        → Within col s
        → next_vector vect col s
          ≡ done (img y k, record { in_s = incoming y (suc k); out_s = outgoing y col })
    unfolding next_vector
    next_lem col (temp, t) l u (held, is) =
        let (lane_i, vector_k) = lane_at vect k col l u in
        elim (Bool-cases (col == k * vect)) [
          | inl first ↦
              let here : col ≡ k * vect = ==→≡ col (k * vect) first in
              let zeroth : (col % vect == 0) ≡ true = ≡→== (col % vect) 0 (lane_i ∙ omega arith) in
              let inside : (ltb k n && ltb y height) ≡ true = ground arith in
              rw (zeroth, is, first, left-next n height (λ y x. img y x ∷ []) rest y k inside)
          | inr later ↦
              let after : k * vect < col = ground arith in
              let other : (col % vect == 0) ≡ false =
                ≢→== (col % vect) 0 (λ e. (let e' = sym lane_i ∙ e in omega arith)) in
              rw (other, is, later, held after)
        ]

    column_lem :
        (col : ℕ) (s : V × Streams V A)
        → k * vect ≤ col
        → col < k * vect + vect
        → Within col s
        → (s' : V × Streams V A) × (step col s ≡ done s') × Within (suc col) s'
    unfolding split_step
    column_lem col s l u at =
        let (lane_i, vector_k) = lane_at vect k col l u in
        let reading = read_all col (let fits = block_inside vect k n in_line in omega arith) in
        let past : (suc col == k * vect) ≡ false = ≢→== (suc col) (k * vect) (omega arith) in
        let (same_y, same_col) : (y - 0 ≡ y) × (col - 0 ≡ col) = (omega arith, omega arith) in
        let wrote : (leb 0 y && leb 0 col) ≡ true = ground arith in
        (
          (img y k, record { in_s = incoming y (suc k); out_s = outgoing y col ++ piece y col }),
          rw (reading, next_lem col s l u at, vector_k)
              (elim (Bool-cases (writes col)) [ inl w ↦ rw w | inr w ↦ rw (w, append-nil) ]),
          (
            λ h. refl,
            rw (past, sofar-next 0 0 (n * vect) height piece before y col wrote, same_y, same_col),
          ),
        )

    block_lem :
        (s : V × Streams V A)
        → At y k s
        → (s' : V × Streams V A) × (for_up vect (k * vect) step s ≡ done s') × At y (suc k) s'
    block_lem s at =
        let first : (k * vect == k * vect) ≡ true = ≡→== (k * vect) (k * vect) refl in
        let last : (k * vect + vect == k * vect) ≡ false =
          ≢→== (k * vect + vect) (k * vect) (omega arith) in
        let (s', ran, (held, is)) =
          for_up_inv Within step vect (k * vect) (k * vect + vect) refl
            (λ col u l m a. column_lem col u l m a) s ((λ h. absurd (omega arith)), rw first at) in
        let next : k * vect + vect ≡ suc k * vect = grind arith in (s', ran, is ∙ rw (last, next))

  module _ (columns : ℕ) (whole : n * vect ≤ columns)
      (read_all : (col : ℕ) → col < n * vect → reads col ≡ true)
      (idle : (col : ℕ) → n * vect ≤ col → col < columns → reads col ≡ false) where
    line_lem :
        (y : ℕ) (s : V × Streams V A)
        → y < height
        → At y 0 s
        → (s' : V × Streams V A) × (for_up columns 0 step s ≡ done s') × At (suc y) 0 s'
    unfolding split_step
    line_lem y s in_rows at =
        let start : 0 * vect ≡ 0 = omega arith in
        let (u, ran, at') =
          for_up_blocks (At y) step vect n 0
            (λ k u l m a. block_lem y k in_rows (omega arith) read_all u a) s at in
        let (s', waits, same) =
          for_up_inv (λ col u'. u' ≡ u) step (columns - n * vect) (n * vect) columns (omega arith)
            (λ col u' l m e. (u', rw (idle col l m), e)) u refl in
        let ran' : for_up (n * vect) 0 step s ≡ done u =
          subst (λ c. for_up (n * vect) c step s ≡ done u) start ran in
        let (all, none) : (0 + n ≡ n) × (n * vect + 0 ≡ n * vect) = (omega arith, omega arith) in
        let line_end : outgoing y (n * vect) ≡ outgoing (suc y) 0 =
          subst (λ c. outgoing y c ≡ outgoing (suc y) 0) none
            (sofar-line 0 0 (n * vect) height piece before y) in
        (
          s',
          for_up-after step (n * vect) (columns - n * vect) columns 0 (n * vect) s u (omega arith)
                (omega arith) ran'
              ∙ waits,
          ap (λ p. p.1) same
              ∙ at'
              ∙ rw (
                all,
                start,
                left-line n height (λ y x. img y x ∷ []) rest y n (omega arith),
                line_end,
              ),
        )

    pub split_loop_lem :
        (temp : V)
        → (temp' : V) × (split_loop vect reads writes lane columns height (
          temp,
          record { in_s = raster height n (λ y x. img y x ∷ []) ++ rest; out_s = before },
        )
            ≡ done
                (temp', record { in_s = rest; out_s = before ++ raster height (n * vect) piece }))
    unfolding split_loop
    split_loop_lem temp =
        let start : 0 * vect ≡ 0 = omega arith in
        let none : height + 0 ≡ height = omega arith in
        let lines_end : outgoing height 0 ≡ before ++ raster height (n * vect) piece =
          subst (λ c. outgoing c 0 ≡ before ++ raster height (n * vect) piece) none
            (sofar-end 0 0 (n * vect) height piece before) in
        let ((temp', t), ran, is) =
          for_up_inv (λ y. At y 0) (λ row. for_up columns 0 step) height 0 height (omega arith)
            (λ y s l m a. line_lem y s m a) _
            (rw (
              start,
              left-start n height (λ y x. img y x ∷ []) rest,
              sofar-start 0 0 (n * vect) height piece before,
            )) in
        (
          temp',
          ran
              ∙ ap (λ u. done (temp', u))
                  (is
                    ∙ rw (
                      start,
                      left-end n height (λ y x. img y x ∷ []) rest height (le_refl height),
                      lines_end,
                    )),
        )
