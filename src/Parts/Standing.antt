-- ===== src/Parts/Standing.antt =====
-- runtime/hipacc_vivado_filter.hpp, `processL` and `processC` below the last line of a part, where no
-- pixel is read and the window stands still.
use hipacc_vivado.Prelude.{
  ℕ, suc, ◌+◌, ◌-◌, ◌≤◌, ◌<◌, ◌≡◌, refl, sym, ap, ◌∙◌, arith, Outcome, done, for_up, for_up_inv,
  List, ◌++◌, append_assoc, append-nil, gather, gather-snoc,
}
use hipacc_vivado.Window.{Buffers}
use hipacc_vivado.Local.{Streams}

-- `step` adds `added` and keeps the window.
module _ {A B : Type 0} (r columns height : ℕ)
    (step : ℕ → ℕ → Buffers A × Streams A B → Outcome (Buffers A × Streams A B))
    (added : (ℕ → ℕ → A) → ℕ → ℕ → List B)
    (stands : (row col : ℕ) (b : Buffers A) (t : Streams A B)
      → height ≤ row
      → row < height + r
      → col < columns
      → (b' : Buffers A) × (step row col (b, t)
          ≡ done (b', record t { out_s = t.out_s ++ added b.win_tmp row col }))
        × (b'.win_tmp ≡ b.win_tmp)) where
  line_lem :
      (row : ℕ) (b : Buffers A) (t : Streams A B)
      → height ≤ row
      → row < height + r
      → (s : Buffers A × Streams A B) × (for_up columns 0 (step row) (b, t) ≡ done s)
        × ((s.0.win_tmp ≡ b.win_tmp)
            × (s.1 ≡ record t { out_s = t.out_s ++ gather columns 0 (added b.win_tmp row) }))
  line_lem row b t below in_rows =
      for_up_inv
        (λ col (s : Buffers A × Streams A B).
          (s.0.win_tmp ≡ b.win_tmp)
          × (s.1 ≡ record t { out_s = t.out_s ++ gather col 0 (added b.win_tmp row) }))
        (step row) columns 0 columns (omega arith)
        (λ col (b', t') l u (same, out).
          let (b'', ran, same') = stands row col b' t' below in_rows u in
          (
            (b'', record t' { out_s = t'.out_s ++ added b'.win_tmp row col }),
            ran,
            (
              same' ∙ same,
              rw (out, same)
                  (ap (λ l. record t { out_s = l })
                    (append_assoc t.out_s (gather col 0 (added b.win_tmp row))
                        (added b.win_tmp row col)
                      ∙ ap (λ l. t.out_s ++ l)
                          (sym (gather-snoc col 0 col (added b.win_tmp row) (omega arith))))),
            ),
          ))
        (b, t) (refl, rw append-nil refl)

  pub standing_lem :
      (b : Buffers A) (t : Streams A B)
      → (s : Buffers A × Streams A B) × (for_up r height (λ row. for_up columns 0 (step row)) (b, t)
          ≡ done s)
        × (s.1 ≡ record t {
          out_s = t.out_s ++ gather r height (λ row. gather columns 0 (added b.win_tmp row));
        })
  standing_lem b t =
      let line : ℕ → List B = λ row. gather columns 0 (added b.win_tmp row) in
      let (s, ran, (same, out)) =
        for_up_inv
          (λ row (s : Buffers A × Streams A B).
            (s.0.win_tmp ≡ b.win_tmp)
            × (s.1 ≡ record t { out_s = t.out_s ++ gather (row - height) height line }))
          (λ row. for_up columns 0 (step row)) r height (height + r) refl
          (λ row (b', t') l u (same, out).
            let (s, ran, (same', out')) = line_lem row b' t' l u in
            let one_more : suc row - height ≡ suc (row - height) = omega arith in
            (
              s,
              ran,
              (
                same' ∙ same,
                out'
                    ∙ rw (out, same, one_more)
                        (ap (λ l. record t { out_s = l })
                          (append_assoc t.out_s (gather (row - height) height line) (line row)
                            ∙ ap (λ l. t.out_s ++ l)
                                (sym (gather-snoc (row - height) height row line (omega arith))))),
              ),
            ))
          (b, t)
          (let none : height - height ≡ 0 = omega arith in (refl, rw (none, append-nil) refl)) in
      let all : height + r - height ≡ r = omega arith in (s, ran, out ∙ rw all refl)
