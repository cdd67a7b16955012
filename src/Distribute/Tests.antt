-- ===== src/Distribute/Tests.antt =====
-- The parts of an image of one line, with kernel 3 and an apron of 1.
use hipacc_vivado.Prelude.{ℕ, refl, arith, List, [], ◌∷◌}
use hipacc_vivado.Distribute.{
  Ports, apron, distribute2_fixed, distribute2, distribute4, distribute16,
}
use hipacc_vivado.Distribute.Ladder.{in_window}
use hipacc_vivado.Distribute.Slices.{
  Sliced, fixed_window, distribute2_fixed_slices, distribute2_slices, distribute4_slices,
  distribute16_slices,
}

abbrev line : ℕ → ℕ → ℕ
line y x = x

abbrev nothing_yet : ℕ → List ℕ
nothing_yet p = []

abbrev ports2 : Ports ℕ
ports2 = record { data_in = 0 ∷ 1 ∷ 2 ∷ 3 ∷ 99 ∷ []; data_out = nothing_yet }

distribute2_slices_example :
    Sliced line 4 1 4 1 1 3
      (99 ∷ [])
      nothing_yet
      (in_window 2 1 1)
      1
      (distribute2 4 1 4 1 1 3 ports2)
unfolding apron
distribute2_slices_example =
    distribute2_slices line 4 1 4 1 1 3 (99 ∷ []) nothing_yet (omega arith) (omega arith) refl
      (omega arith)

abbrev ports4 : Ports ℕ
ports4 = record { data_in = 0 ∷ 1 ∷ 2 ∷ 3 ∷ 4 ∷ 5 ∷ 6 ∷ 7 ∷ 99 ∷ []; data_out = nothing_yet }

distribute4_slices_example :
    Sliced line 8 1 8 1 1 3
      (99 ∷ [])
      nothing_yet
      (in_window 2 1 3)
      3
      (distribute4 8 1 8 1 1 3 ports4)
unfolding apron
distribute4_slices_example =
    distribute4_slices line 8 1 8 1 1 3 (99 ∷ []) nothing_yet (omega arith) (omega arith) refl
      (omega arith)

abbrev ports16 : Ports ℕ
ports16 = record {
  data_in =
      0 ∷ 1 ∷ 2 ∷ 3 ∷ 4 ∷ 5 ∷ 6 ∷ 7 ∷ 8 ∷ 9 ∷ 10 ∷ 11 ∷ 12 ∷ 13 ∷ 14 ∷ 15 ∷ 16 ∷ 17 ∷ 18 ∷ 19 ∷ 20
      ∷ 21 ∷ 22 ∷ 23 ∷ 24 ∷ 25 ∷ 26 ∷ 27 ∷ 28 ∷ 29 ∷ 30 ∷ 31 ∷ 99 ∷ [];
  data_out = nothing_yet;
}

distribute16_slices_example :
    Sliced line 32 1 32 1 1 3
      (99 ∷ [])
      nothing_yet
      (in_window 2 1 15)
      15
      (distribute16 32 1 32 1 1 3 ports16)
unfolding apron
distribute16_slices_example =
    distribute16_slices line 32 1 32 1 1 3 (99 ∷ []) nothing_yet (omega arith) (omega arith) refl
      (omega arith)

distribute2_fixed_slices_example :
    Sliced line 4 1 4 1 1 3
      (99 ∷ [])
      nothing_yet
      (fixed_window line 4 1 4 1 1 3 (99 ∷ []) nothing_yet 1 3)
      1
      (distribute2_fixed 4 1 4 1 1 3 1 3 ports2)
unfolding apron
distribute2_fixed_slices_example =
    distribute2_fixed_slices line 4 1 4 1 1 3 (99 ∷ []) nothing_yet 1 3 (omega arith) (omega arith)
      (omega arith) refl
