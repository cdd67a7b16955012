-- ===== src/Collect/Chain.antt =====
-- The chains of tests as one recursion, and the columns that are read from each port.
use hipacc_vivado.Prelude.{
  ℕ, zero, suc, ◌+◌, ◌*◌, ◌≤◌, ◌<◌, ◌≡◌, refl, arith, ltb, leb, ◌==◌, ◌&&◌, ◌||◌, if◌then◌else◌,
  Bool,
}
use hipacc_vivado.Collect.{between, port2, port4, port8, port16}

-- Port `k` of `last + 1` holds the columns of its part, the last one all that remain.
abbrev pub in_part : ℕ → ℕ → ℕ → ℕ → Bool
in_part part last k col = leb (k * part) col && ((k == last) || ltb col (suc k * part))

-- The chain picks a port up to `last`, and it picks port `k` for the columns of its part.
pub record Picks (part last : ℕ) (port : ℕ → ℕ) : Type 0 where
  pub in_range : (col : ℕ) → port col ≤ last
  pub picks : (col k : ℕ) → k ≤ last → (port col == k) ≡ in_part part last k col

module _ (part col : ℕ) where
  -- The branches of the ports `j` to `j + m`.
  betweens : ℕ → ℕ → ℕ
  betweens zero j = j
  betweens (suc m) j = between part col j (betweens m (suc j))

  part_mono : (k j : ℕ) → k < j → k * part + part ≤ j * part
  part_mono k j h = grind arith

  betweens_range : (m j last : ℕ) → j + m ≡ last → (j ≤ betweens m j) × (betweens m j ≤ last)
  unfolding betweens between
  betweens_range zero j last e = ground arith
  betweens_range (suc m) j last e =
      let (low, high) = betweens_range m (suc j) last (omega arith) in ground arith

  betweens_lem :
      (m j last k : ℕ)
      → j + m ≡ last
      → k ≤ last
      → j * part ≤ col
      → (betweens m j == k) ≡ in_part part last k col
  unfolding betweens between
  betweens_lem zero j last k e h reached = ground (arith, part_mono k j)
  betweens_lem (suc m) j last k e h reached =
      let (low, high) = betweens_range m (suc j) last (omega arith) in
      ground
        (arith, part_mono k j, part_mono j k, part_mono (suc j) k, betweens_lem m (suc j) last k)

  abbrev chain : ℕ → ℕ
  chain m = if ltb col part then 0 else betweens m 1

  chain_range : (m last : ℕ) → suc m ≡ last → chain m ≤ last
  chain_range m last e = let (low, high) = betweens_range m 1 last (omega arith) in ground arith

  chain_lem : (m last k : ℕ) → suc m ≡ last → k ≤ last → (chain m == k) ≡ in_part part last k col
  chain_lem m last k e h =
      let (low, high) = betweens_range m 1 last (omega arith) in
      ground (arith, part_mono 0 k, part_mono 1 k, betweens_lem m 1 last k)

module _ (part : ℕ) where
  pub port2-Picks : Picks part 1 (port2 part)
  unfolding port2 betweens
  port2-Picks = record {
    in_range = λ col. chain_range part col 0 1 refl;
    picks = λ col k h. chain_lem part col 0 1 k refl h;
  }

  pub port4-Picks : Picks part 3 (port4 part)
  unfolding port4 betweens
  port4-Picks = record {
    in_range = λ col. chain_range part col 2 3 refl;
    picks = λ col k h. chain_lem part col 2 3 k refl h;
  }

  pub port8-Picks : Picks part 7 (port8 part)
  unfolding port8 betweens
  port8-Picks = record {
    in_range = λ col. chain_range part col 6 7 refl;
    picks = λ col k h. chain_lem part col 6 7 k refl h;
  }

  pub port16-Picks : Picks part 15 (port16 part)
  unfolding port16 betweens
  port16-Picks = record {
    in_range = λ col. chain_range part col 14 15 refl;
    picks = λ col k h. chain_lem part col 14 15 k refl h;
  }
