-- ===== src/Window/Lines.antt =====
-- runtime/hipacc_vivado_filter.hpp, UPDATE THE LINE BUFFER, by the entries that it writes.
use hipacc_vivado.Prelude.{
  ℕ, zero, suc, ◌+◌, ◌-◌, ◌<◌, ◌≡◌, refl, ◌&&◌, ltb, ◌==◌, if◌then◌else◌, loop, loop_inv,
  Bool-cases, ==→≡, inl, inr, arith,
}
use hipacc_vivado.Window.{Buffers, put, line_round, update_lines}

module _ {ℓ} {A : Type ℓ} (kx ky col : ℕ) where
  module _ (w lines : ℕ → ℕ → A) where
    record Rounds (i : ℕ) (s : (ℕ → ℕ → A) × (ℕ → ℕ → A)) : Type ℓ where
      entered : (a b : ℕ) → s.0 a b ≡ (if ltb a i && (b == kx - 1) then lines a col else w a b)
      moved :
          (a b : ℕ) → s.1 a b ≡ (if ltb (a + 1) i && (b == col) then lines (a + 1) b else lines a b)

    Rounds-next :
        (i : ℕ) (s : (ℕ → ℕ → A) × (ℕ → ℕ → A))
        → Rounds i s
        → Rounds (suc i) (line_round kx ky col i s)
    unfolding line_round put
    Rounds-next zero (v, l) r = record {
      entered = λ a b. ground (arith, r.entered a b, r.moved 0 col);
      moved = λ a b. ground (arith, r.moved a b);
    }
    Rounds-next (suc i) (v, l) r = record {
      entered = λ a b. ground (arith, r.entered a b, r.moved (suc i) col);
      moved = λ a b. elim (Bool-cases (a == i)) [
        | inl e ↦
            let below : suc i - 1 ≡ i = omega arith in
            let next : i + 1 ≡ suc i = omega arith in
            rw (==→≡ a i e, below, next)
              (ground (arith, rw next at (r.moved i b), r.moved (suc i) col))
        | inr e ↦ ground (arith, r.moved a b)
      ];
    }

    rounds : Rounds (ky - 1) (loop (ky - 1) 0 (line_round kx ky col) (w, lines))
    rounds =
        loop_inv Rounds (line_round kx ky col) (ky - 1) 0 (ky - 1) (omega arith)
          (λ i s l h r. Rounds-next i s r) (w, lines)
          (record { entered = λ a b. ground arith; moved = λ a b. ground arith })

  -- The pixel of line `a` of the window in column `col`: from the line buffer, and the last one
  -- from the input.
  abbrev pub column : Buffers A → ℕ → A
  column b a = if ltb (a + 1) ky then b.line_buff a col else b.in_pixel

  module _ (b : Buffers A) where
    pub win_tmp-update_lines :
        (a j : ℕ)
        → a < ky
        → (update_lines kx ky col b).win_tmp a j
          ≡ (if j == kx - 1 then column b a else b.win_tmp a j)
    unfolding update_lines put
    win_tmp-update_lines a j h = ground (arith, (rounds b.win_tmp b.line_buff).entered a j)

    pub line_buff-update_lines :
        (a c : ℕ)
        → a + 1 < ky
        → (update_lines kx ky col b).line_buff a c
          ≡ (if c == col then column b (a + 1) else b.line_buff a c)
    unfolding update_lines put
    line_buff-update_lines a c h = ground (arith, (rounds b.win_tmp b.line_buff).moved a c)

    pub in_pixel-update_lines : (update_lines kx ky col b).in_pixel ≡ b.in_pixel
    unfolding update_lines
    in_pixel-update_lines = refl
