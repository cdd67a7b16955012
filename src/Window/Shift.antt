-- ===== src/Window/Shift.antt =====
-- runtime/hipacc_vivado_filter.hpp, UPDATE THE WINDOW, by the entries that it writes.
use hipacc_vivado.Prelude.{ℕ, ◌+◌, ◌-◌, ◌≡◌, ◌∙◌, ◌&&◌, ltb, ◌==◌, if◌then◌else◌, loop_inv, arith}
use hipacc_vivado.Window.{put, shift_row, shift_window}

module _ {ℓ} {A : Type ℓ} (kx ky : ℕ) where
  shift_row_lem :
      (i a b : ℕ) (u : ℕ → ℕ → A)
      → shift_row kx ky i u a b ≡ (if (a == i) && ltb (b + 1) kx then u a (b + 1) else u a b)
  unfolding shift_row put
  shift_row_lem i a b u =
      loop_inv (λ j v. (c d : ℕ) → v c d ≡ (if (c == i) && ltb d j then u c (d + 1) else u c d))
        (λ j v. put v i j (v i (j + 1))) (kx - 1) 0 (kx - 1) (omega arith)
        (λ j v l h p c d. ground (arith, p c d, p i (j + 1))) u (λ c d. ground arith) a b
      ∙ ground arith

  -- After the shift every column but the last holds what its right neighbour held.
  pub shift_window_lem :
      (w : ℕ → ℕ → A) (a b : ℕ)
      → shift_window kx ky w a b ≡ (if ltb a ky && ltb (b + 1) kx then w a (b + 1) else w a b)
  unfolding shift_window
  shift_window_lem w a b =
      loop_inv
        (λ i v. (c d : ℕ) → v c d ≡ (if ltb c i && ltb (d + 1) kx then w c (d + 1) else w c d))
        (shift_row kx ky) ky 0 ky (omega arith)
        (λ i v l h p c d. ground (arith, shift_row_lem i c d v, p c d, p c (d + 1))) w
        (λ c d. ground arith) a b
