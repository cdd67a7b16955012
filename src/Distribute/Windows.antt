-- ===== src/Distribute/Windows.antt =====
-- What the loop writes to a port, for any routing of the columns.
use hipacc_vivado.Prelude.{
  ℕ, zero, suc, ◌+◌, ◌-◌, ◌<◌, ◌≡◌, refl, sym, ◌∙◌, ap, arith, ltb, ◌==◌, if◌then◌else◌, Bool-cases,
  inl, inr, done, for_up, for_up_inv, List, [], ◌∷◌, ◌++◌, append_assoc, append-nil,
}
use hipacc_vivado.Local.Images.{
  raster, left, left-next, left-line, left-start, left-end, sofar, sofar-next, sofar-line,
  sofar-start, sofar-end,
}
use hipacc_vivado.Distribute.{Ports, write_ports, distribute_step, distribute_loop}
use hipacc_vivado.Distribute.Ladder.{occurrences}

module _ {A : Type 0} where
  abbrev pub replicate : ℕ → A → List A
  replicate zero a = []
  replicate (suc n) a = a ∷ replicate n a

  write_ports_lem :
      (ks : List ℕ) (v : A) (out : ℕ → List A) (p : ℕ)
      → write_ports ks v out p ≡ out p ++ replicate (occurrences p ks) v
  unfolding write_ports
  write_ports_lem [] v out p = sym (append-nil (out p))
  write_ports_lem (k ∷ ks) v out p =
      write_ports_lem ks v (λ q. if q == k then out q ++ (v ∷ []) else out q) p
      ∙ (elim (Bool-cases (p == k)) [
        | inl e ↦
            let one : 1 + occurrences p ks ≡ suc (occurrences p ks) = omega arith in
            rw (e, one) (append_assoc (out p) (v ∷ []) (replicate (occurrences p ks) v))
        | inr ne ↦
            let none_more : 0 + occurrences p ks ≡ occurrences p ks = omega arith in
            rw (ne, none_more)
      ])

  module _ (img : ℕ → ℕ → A) (width height extra : ℕ) (route : ℕ → List ℕ) (rest : List A)
      (before : ℕ → List A) where
    -- The loop scans `width + extra` columns, and those from `width` on are empty.
    abbrev columns : ℕ
    columns = width + extra

    abbrev pub pixel : ℕ → ℕ → List A
    pixel y x = if ltb x width then img y x ∷ [] else []

    abbrev pub sent : ℕ → ℕ → ℕ → List A
    sent p y x = if ltb x width then replicate (occurrences p (route x)) (img y x) else []

    record Middle (row col : ℕ) (s : Ports A) : Type 0 where
      incoming : s.data_in ≡ left columns height pixel rest row col
      outgoing : (p : ℕ) → s.data_out p ≡ sofar 0 0 columns height (sent p) (before p) row col

    sent-next :
        (p row col : ℕ)
        → sofar 0 0 columns height (sent p) (before p) row (suc col)
          ≡ sofar 0 0 columns height (sent p) (before p) row col ++ sent p row col
    sent-next p row col =
        let same_row : row - 0 ≡ row = omega arith in
        let same_col : col - 0 ≡ col = omega arith in
        sofar-next 0 0 columns height (sent p) (before p) row col (ground arith)
        ∙ rw (same_row, same_col)

    step_lem :
        (row col : ℕ) (s : Ports A)
        → row < height
        → col < columns
        → Middle row col s
        → (t : Ports A) × (distribute_step width route col s ≡ done t) × Middle row (suc col) t
    unfolding distribute_step
    step_lem row col s in_rows in_cols m = elim (Bool-cases (ltb col width)) [
      | inl inside ↦
          let next : s.data_in ≡ img row col ∷ left columns height pixel rest row (suc col) =
            m.incoming ∙ left-next columns height pixel rest row col (ground arith) ∙ rw inside in
          (
            record {
              data_in = left columns height pixel rest row (suc col);
              data_out = write_ports (route col) (img row col) s.data_out;
            },
            rw (inside, next),
            record {
              incoming = refl;
              outgoing = λ p.
                  write_ports_lem (route col) (img row col) s.data_out p
                  ∙ rw (m.outgoing p, sent-next p row col, inside);
            },
          )
      | inr outside ↦ (
        s,
        rw outside,
        record {
          incoming =
              m.incoming ∙ left-next columns height pixel rest row col (ground arith) ∙ rw outside;
          outgoing = λ p. m.outgoing p ∙ rw (sent-next p row col, outside, append-nil);
        },
      )
    ]

    line_lem :
        (row : ℕ) (s : Ports A)
        → row < height
        → Middle row 0 s
        → (t : Ports A) × (for_up columns 0 (distribute_step width route) s ≡ done t)
          × Middle (suc row) 0 t
    line_lem row s in_rows m =
        let (t, ran, m') =
          for_up_inv (Middle row) (distribute_step width route) columns 0 columns (omega arith)
            (λ col u l in_cols. step_lem row col u in_rows in_cols) s m in
        (
          t,
          ran,
          record {
            incoming = m'.incoming ∙ left-line columns height pixel rest row columns (omega arith);
            outgoing = λ p.
                m'.outgoing p
                ∙ (let edge : columns ≡ columns + 0 = omega arith in
                    ap (sofar 0 0 columns height (sent p) (before p) row) edge
                    ∙ sofar-line 0 0 columns height (sent p) (before p) row);
          },
        )

    -- The loop returns, and each port has been sent its occurrences of every pixel.
    pub distribute_loop_lem :
        (t : Ports A) × (distribute_loop width height route extra
            (record { data_in = raster height columns pixel ++ rest; data_out = before })
          ≡ done t)
        × (t.data_in ≡ rest)
        × ((p : ℕ) → t.data_out p ≡ before p ++ raster height columns (sent p))
    unfolding distribute_loop
    distribute_loop_lem =
        let (t, ran, m) =
          for_up_inv (λ row. Middle row 0) _ height 0 height (omega arith)
            (λ row s l in_rows. line_lem row s in_rows)
            (record { data_in = raster height columns pixel ++ rest; data_out = before })
            (record {
              incoming = sym (left-start columns height pixel rest);
              outgoing = λ p. sym (sofar-start 0 0 columns height (sent p) (before p));
            }) in
        (
          t,
          ran,
          m.incoming ∙ left-end columns height pixel rest height (omega arith),
          λ p.
              m.outgoing p
              ∙ (let edge : height ≡ height + 0 = omega arith in
                  ap (λ row. sofar 0 0 columns height (sent p) (before p) row 0) edge
                  ∙ sofar-end 0 0 columns height (sent p) (before p)),
        )
