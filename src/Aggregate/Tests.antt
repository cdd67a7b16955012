-- ===== src/Aggregate/Tests.antt =====
-- The split of vectors of two lanes of 4 bits.
use hipacc_vivado.Prelude.{
  ℕ, ◌+◌, ◌-◌, ◌*◌, ◌/◌, ◌%◌, ◌^◌, ◌≡◌, refl, arith, Bool, false, leb, if◌then◌else◌, done, List,
  [], ◌∷◌,
}
use hipacc_vivado.Distribute.{apron}
use hipacc_vivado.Aggregate.{split_l, split_c, split_r, assemble_f}
use hipacc_vivado.Aggregate.Assembled.{unpack}
use hipacc_vivado.Aggregate.Whole.{assemble_f-unpack}
use hipacc_vivado.Vectors.Bits.{get_bits, assign_bits, low_bits, bits-RangeLaws}
use hipacc_vivado.Aggregate.Parts.{split_l-window, split_c-window, split_r-window}

-- The bits between two positions, in either order.
abbrev bits : ℕ → ℕ → ℕ → ℕ
bits v a b = if leb a b then (v / 2 ^ a) % 2 ^ (b + 1 - a) else (v / 2 ^ b) % 2 ^ (a + 1 - b)

-- 0x10, 0x32, 0x54
abbrev vectors : ℕ → ℕ → ℕ
vectors y k = 16 + 34 * k

split_c-window_example :
    (temp' : ℕ) × (split_c bits 4 2 2 1 3 2 1 (0, record { in_s = 16 ∷ 50 ∷ 84 ∷ []; out_s = [] })
      ≡ done (temp', record { in_s = []; out_s = 1 ∷ 2 ∷ 3 ∷ 4 ∷ [] }))
unfolding apron
split_c-window_example =
    split_c-window bits 4 2 2 1 3 1 1 vectors [] [] 0 (omega arith) refl (omega arith) (omega arith)
      (omega arith)

split_l-window_example :
    (temp' : ℕ) × (split_l bits 4 2 2 1 3 2 1 (0, record { in_s = 16 ∷ 50 ∷ 84 ∷ []; out_s = [] })
      ≡ done (temp', record { in_s = 84 ∷ []; out_s = 0 ∷ 1 ∷ 2 ∷ [] }))
unfolding apron
split_l-window_example =
    split_l-window bits 4 2 2 1 3 1 1 vectors (84 ∷ []) [] 0 (omega arith) refl (omega arith)
      (omega arith) (omega arith)

split_r-window_example :
    (temp' : ℕ) × (split_r bits 4 2 2 1 3 2 1 (0, record { in_s = 16 ∷ 50 ∷ []; out_s = 9 ∷ [] })
      ≡ done (temp', record { in_s = []; out_s = 9 ∷ 1 ∷ 2 ∷ 3 ∷ [] }))
unfolding apron
split_r-window_example =
    split_r-window bits 4 2 2 1 3 1 1 vectors [] (9 ∷ []) 0 (omega arith) refl (omega arith)
      (omega arith) (omega arith)

-- The second pixel is 256 and loses its highest bit.
assemble_f-unpack_example :
    (vs : List (ℕ → Bool)) × (temp' : ℕ → Bool) × (assemble_f
        (λ x. x + 254)
        (assign_bits 16)
        8
        2
        2
        1
        3
        2
        1
        (λ k. false, record { in_s = 1 ∷ 2 ∷ 9 ∷ []; out_s = [] })
      ≡ done (temp', record { in_s = 9 ∷ []; out_s = vs }))
    × (unpack get_bits 8 2 vs ≡ 255 ∷ 0 ∷ [])
assemble_f-unpack_example =
    assemble_f-unpack (λ x. x + 254) get_bits (assign_bits 16) 16 low_bits 8 2 2 1 3 1 1
      (λ y c. c + 1) (9 ∷ []) [] (λ k. false) (bits-RangeLaws 16) (omega arith) (omega arith)
      (omega arith) refl (omega arith) (omega arith)
