-- ===== src/Collect/Tests.antt =====
-- Images of one line, put together from their parts.
use hipacc_vivado.Prelude.{ℕ, refl, arith, List, [], ◌∷◌, ◌++◌}
use hipacc_vivado.Collect.{Joined, collect2_fixed, collect2, collect16}
use hipacc_vivado.Collect.Slices.{
  slice, Collected, collect2_fixed-image, collect2-image, collect16-image,
}

abbrev line : ℕ → ℕ → ℕ
line y x = x

abbrev spare : ℕ → List ℕ
spare k = 99 ∷ []

abbrev parts2 : Joined ℕ
parts2 = record { data_in = λ k. slice line 4 1 4 1 spare [] 2 1 k ++ spare k; out_s = [] }

collect2-image_example : Collected line 4 1 4 1 spare [] 1 (collect2 4 1 4 1 parts2)
collect2-image_example =
    collect2-image line 4 1 4 1 spare [] parts2 (omega arith) (omega arith) (refl, λ k h. refl)

collect2_fixed-image_example : Collected line 4 1 4 1 spare [] 1 (collect2_fixed 4 1 4 1 2 parts2)
collect2_fixed-image_example =
    collect2_fixed-image line 4 1 4 1 spare [] 2 parts2 (omega arith) (omega arith)
      (refl, λ k h. refl)

abbrev parts4 : Joined ℕ
parts4 = record { data_in = λ k. slice line 8 1 8 1 spare [] 2 3 k ++ spare k; out_s = [] }

abbrev parts8 : Joined ℕ
parts8 = record { data_in = λ k. slice line 16 1 16 1 spare [] 2 7 k ++ spare k; out_s = [] }

abbrev parts16 : Joined ℕ
parts16 = record { data_in = λ k. slice line 32 1 32 1 spare [] 2 15 k ++ spare k; out_s = [] }

collect16-image_example : Collected line 32 1 32 1 spare [] 15 (collect16 32 1 32 1 parts16)
collect16-image_example =
    collect16-image line 32 1 32 1 spare [] parts16 (omega arith) (omega arith) (refl, λ k h. refl)
