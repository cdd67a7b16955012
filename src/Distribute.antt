-- ===== src/Distribute.antt =====
-- runtime/hipacc_vivado_filter.hpp, `distribute2FIXED`, `distribute2`, `distribute4`, `distribute8`
-- and `distribute16`, which cut an image into vertical parts that overlap by the apron of a kernel.
--
-- The ports `data_out0`, `data_out1`, … are the values of a function at 0, 1, ….
-- A comparison `col < p - APRON` of signed numbers is written `col + apron < p`.
pub mod Windows
pub mod Ladder
pub mod Slices
mod Tests
use package.hipacc_vivado.Prelude.{
  ℕ, zero, suc, ◌+◌, ◌*◌, ◌/◌, ◌%◌, Bool, ◌&&◌, ltb, leb, ◌==◌, if◌then◌else◌, Outcome, done, ◌>>=◌,
  ◌>>◌, assert, fetch, for_up, List, [], ◌∷◌, ◌++◌,
}

-- `APRON`, with `RADIUS` and `VECT`
unfoldable pub apron : ℕ → ℕ → ℕ
apron radius vect =
    if leb radius vect then 1 else (if radius % vect == 0 then radius / vect else radius / vect + 1)

abbrev pub kernel_apron : ℕ → ℕ → ℕ
kernel_apron vect kernel_size = apron (kernel_size / 2) vect

-- The ports that a column is written to. The first test of a chain has `col >= 0`.
unfoldable pub first_rung : ℕ → ℕ → ℕ → List ℕ → List ℕ
first_rung part ap col otherwise =
    if ltb (col + ap) part
    then 0 ∷ []
    else (if leb part (col + ap) && ltb col (part + ap) then 0 ∷ 1 ∷ [] else otherwise)

-- The two `else if` of port `k`.
unfoldable pub rung : ℕ → ℕ → ℕ → ℕ → List ℕ → List ℕ
rung part ap col k otherwise =
    if leb (k * part + ap) col && ltb (col + ap) (suc k * part)
    then k ∷ []
    else (if leb (suc k * part) (col + ap) && ltb col (suc k * part + ap)
        then k ∷ suc k ∷ []
        else otherwise)

-- The chains of `distribute2` to `distribute16`.
unfoldable pub route2 : ℕ → ℕ → ℕ → List ℕ
route2 part ap col = first_rung part ap col (1 ∷ [])

unfoldable pub route4 : ℕ → ℕ → ℕ → List ℕ
route4 part ap col = first_rung part ap col (rung part ap col 1 (rung part ap col 2 (3 ∷ [])))

unfoldable pub route8 : ℕ → ℕ → ℕ → List ℕ
route8 part ap col = first_rung part ap col (
    rung part ap col 1 (
      rung part ap col 2 (
        rung part ap col 3
          (rung part ap col 4 (rung part ap col 5 (rung part ap col 6 (7 ∷ [])))))))

unfoldable pub route16 : ℕ → ℕ → ℕ → List ℕ
route16 part ap col = first_rung part ap col (
    rung part ap col 1 (
      rung part ap col 2 (
        rung part ap col 3 (
          rung part ap col 4 (
            rung part ap col 5 (
              rung part ap col 6 (
                rung part ap col 7 (
                  rung part ap col 8 (
                    rung part ap col 9 (
                      rung part ap col 10 (
                        rung part ap col 11 (
                          rung part ap col 12
                            (rung part ap col 13 (rung part ap col 14 (15 ∷ [])))))))))))))))

-- The chain of `distribute2FIXED`, which has two template constants.
unfoldable pub route2_fixed : ℕ → ℕ → ℕ → ℕ → List ℕ
route2_fixed part_l part_r ap col =
    if ltb (col + ap) part_l
    then 0 ∷ []
    else (if leb part_r (col + ap) && ltb col (part_r + ap) then 0 ∷ 1 ∷ [] else 1 ∷ [])

-- One stream in, and the ports out.
pub record Ports (A : Type 0) : Type 0 where
  pub data_in : List A
  pub data_out : ℕ → List A

module _ {A : Type 0} where
  -- `data_out<k> << temp` for each port of the list
  unfoldable pub write_ports : List ℕ → A → (ℕ → List A) → ℕ → List A
  write_ports [] temp out = out
  write_ports (k ∷ ks) temp out =
      write_ports ks temp (λ p. if p == k then out p ++ (temp ∷ []) else out p)

  unfoldable pub distribute_step : ℕ → (ℕ → List ℕ) → ℕ → Ports A → Outcome (Ports A)
  distribute_step width route col s =
      if ltb col width
      then (fetch s.data_in >>= λ (temp, rest).
          done (record { data_in = rest; data_out = write_ports (route col) temp s.data_out }))
      else done s

  unfoldable pub distribute_loop : ℕ → ℕ → (ℕ → List ℕ) → ℕ → Ports A → Outcome (Ports A)
  distribute_loop width height route extra =
      for_up height 0 (λ row. for_up (width + extra) 0 (distribute_step width route))

  module _ (max_width max_height width height : ℕ) where
    module _ (vect kernel_size : ℕ) where
      -- The asserts that the five functions share, and their loop.
      unfoldable pub distribute : (ℕ → List ℕ) → Ports A → Outcome (Ports A)
      distribute route s = do
        assert (leb width max_width)
        assert (leb height max_height)
        assert (kernel_size % 2 == 1)
        distribute_loop width height route (2 * (kernel_apron vect kernel_size) * vect) s

      unfoldable pub distribute2_fixed : ℕ → ℕ → Ports A → Outcome (Ports A)
      distribute2_fixed part_l part_r =
          distribute (route2_fixed part_l part_r (kernel_apron vect kernel_size))

      -- `part = MAX_WIDTH/2`, unlike its siblings
      unfoldable pub distribute2 : Ports A → Outcome (Ports A)
      distribute2 = distribute (route2 (max_width / 2) (kernel_apron vect kernel_size))

      -- `part = width/4`, and the assert that bounds it
      unfoldable pub distribute4 : Ports A → Outcome (Ports A)
      distribute4 s = do
        assert (leb (width / 4) (max_width / 4))
        distribute (route4 (width / 4) (kernel_apron vect kernel_size)) s

      unfoldable pub distribute8 : Ports A → Outcome (Ports A)
      distribute8 s = do
        assert (leb (width / 8) (max_width / 8))
        distribute (route8 (width / 8) (kernel_apron vect kernel_size)) s

      unfoldable pub distribute16 : Ports A → Outcome (Ports A)
      distribute16 s = do
        assert (leb (width / 16) (max_width / 16))
        distribute (route16 (width / 16) (kernel_apron vect kernel_size)) s
