-- ===== src/Local/Const.antt =====
-- runtime/hipacc_vivado_filter.hpp, `process` with BORDER_CONST.
use hipacc_vivado.Prelude.{
  ℕ, ◌+◌, ◌*◌, ◌/◌, ◌%◌, ◌<◌, ◌≢◌, ◌∙◌, sym, arith, leb, ◌==◌, Outcome, done, assert, for_up_never,
  bind_never, List,
}
use hipacc_vivado.Border.{border_const}
use hipacc_vivado.Window.{Buffers, refresh}
use hipacc_vivado.Window.Const.{refresh_fault}
use hipacc_vivado.Local.{scan_input, scan_step, scan, checked, Streams, read_in, write_out, process}

module _ {A T : Type 0} (max_width max_height rx ry width height : ℕ)
    (get : ℕ → ℕ → T → Outcome (A × T)) (emit : ℕ → ℕ → List (List A) → T → T) where
  abbrev step : ℕ → ℕ → Buffers A × T → Outcome (Buffers A × T)
  step = scan_step max_width max_height (2 * rx + 1) (2 * ry + 1) width height border_const get emit

  -- The step that comes to the left border.
  step_never : (row : ℕ) → 0 < rx → (s t : Buffers A × T) → step row rx s ≢ done t
  unfolding scan_step
  step_never row inner s =
      bind_never
        (scan_input max_width max_height (2 * rx + 1) (2 * ry + 1) width height border_const get
          emit row rx s)
        _
        (λ (b, u) got.
          bind_never (refresh (2 * rx + 1) (2 * ry + 1) width height border_const row rx b) _
            (λ b' ran. absurd (
              let stuck = refresh_fault rx ry width height row rx b (omega arith) (omega arith) in
              let both = sym stuck ∙ ran in cc)))

  scan_never :
      0 < rx
      → 0 < max_width
      → 0 < max_height
      → (s t : Buffers A × T)
      → scan max_width max_height (2 * rx + 1) (2 * ry + 1) width height border_const get emit s
        ≢ done t
  unfolding scan
  scan_never inner wide tall =
      for_up_never _ (max_height + (2 * ry + 1) / 2) 0 0 0 (omega arith) (omega arith) (λ s.
        for_up_never (step 0) (max_width + (2 * rx + 1) / 2) 0 rx rx (omega arith) (omega arith)
          (λ u. step_never 0 inner u) s)

checked_never {ℓ} :
    {S : Type ℓ} (max_width max_height kx ky width height : ℕ) (body : Outcome S)
    → ((t : S) → body ≢ done t)
    → (t : S) → checked max_width max_height kx ky width height body ≢ done t
checked_never max_width max_height kx ky width height body never =
    bind_never (assert (leb width max_width)) _ (λ u fits_width.
      bind_never (assert (leb height max_height)) _ (λ v fits_height.
        bind_never (assert (kx % 2 == 1)) _
          (λ w odd_x. bind_never (assert (ky % 2 == 1)) _ (λ x odd_y. never))))

-- With BORDER_CONST, a kernel of more than one column and of odd sides, and positive maximal sizes,
-- `process` does not return, whatever the size of the image, the streams, the filter and the contents of
-- the arrays.
pub process_never :
    {A B : Type 0} (max_width max_height rx ry width height : ℕ) (filter : List (List A) → B)
    → 0 < rx
    → 0 < max_width
    → 0 < max_height
    → (s t : Buffers A × Streams A B)
    → process max_width max_height (2 * rx + 1) (2 * ry + 1) width height filter border_const s
      ≢ done t
unfolding process
process_never max_width max_height rx ry width height filter inner wide tall s =
    checked_never max_width max_height (2 * rx + 1) (2 * ry + 1) width height _ (
      scan_never max_width max_height rx ry width height (λ row col. read_in)
        (λ row col win. write_out (filter win)) inner wide tall s)
