-- ===== src/Distribute/Ladder.antt =====
-- The chains of tests as one recursion, and the window of columns that each port gets.
use hipacc_vivado.Prelude.{
  ℕ, zero, suc, ◌+◌, ◌*◌, ◌≤◌, ◌<◌, ◌≡◌, refl, arith, ltb, leb, ◌==◌, ◌&&◌, ◌||◌, if◌then◌else◌,
  Bool, List, [], ◌∷◌,
}
use hipacc_vivado.Distribute.{first_rung, rung, route2, route4, route8, route16}

-- How often port `k` occurs in a list of ports.
abbrev pub occurrences : ℕ → List ℕ → ℕ
occurrences k [] = 0
occurrences k (p ∷ ps) = (if k == p then 1 else 0) + occurrences k ps

-- Port `k` of `last + 1` gets the columns of its part and `ap` more on either side.
abbrev pub in_window : ℕ → ℕ → ℕ → ℕ → ℕ → Bool
in_window part ap last k col =
    leb (k * part) (col + ap) && ((k == last) || ltb col (suc k * part + ap))

module _ (part ap col : ℕ) (overlap : 2 * ap ≤ part) where
  -- The rungs of the ports `j` to `j + m`.
  rungs : ℕ → ℕ → List ℕ
  rungs zero j = j ∷ []
  rungs (suc m) j = rung part ap col j (rungs m (suc j))

  multiple_mono : (k j : ℕ) → k < j → k * part + part ≤ j * part
  multiple_mono k j h = grind arith

  rungs_lem :
      (m j last k : ℕ)
      → j + m ≡ last
      → k ≤ last
      → j * part + ap ≤ col
      → occurrences k (rungs m j) ≡ (if in_window part ap last k col then 1 else 0)
  unfolding rungs rung
  rungs_lem zero j last k e h reached = ground (arith, multiple_mono k j)
  rungs_lem (suc m) j last k e h reached = ground (
    arith,
    multiple_mono k j,
    multiple_mono j k,
    multiple_mono (suc j) k,
    rungs_lem m (suc j) last k,
  )

  abbrev chain : ℕ → List ℕ
  chain m = first_rung part ap col (rungs m 1)

  chain_lem :
      (m last k : ℕ)
      → suc m ≡ last
      → k ≤ last
      → occurrences k (chain m) ≡ (if in_window part ap last k col then 1 else 0)
  unfolding first_rung
  chain_lem m last k e h =
      ground (arith, multiple_mono k 1, multiple_mono 0 k, multiple_mono 1 k, rungs_lem m 1 last k)

  -- Each of the first chains writes a column once to every port in whose window it lies, and to no
  -- other port.
  pub route2_window :
      (k : ℕ)
      → k ≤ 1
      → occurrences k (route2 part ap col) ≡ (if in_window part ap 1 k col then 1 else 0)
  unfolding route2 rungs
  route2_window k h = chain_lem 0 1 k refl h

  pub route4_window :
      (k : ℕ)
      → k ≤ 3
      → occurrences k (route4 part ap col) ≡ (if in_window part ap 3 k col then 1 else 0)
  unfolding route4 rungs
  route4_window k h = chain_lem 2 3 k refl h

  pub route8_window :
      (k : ℕ)
      → k ≤ 7
      → occurrences k (route8 part ap col) ≡ (if in_window part ap 7 k col then 1 else 0)
  unfolding route8 rungs
  route8_window k h = chain_lem 6 7 k refl h

  pub route16_window :
      (k : ℕ)
      → k ≤ 15
      → occurrences k (route16 part ap col) ≡ (if in_window part ap 15 k col then 1 else 0)
  unfolding route16 rungs
  route16_window k h = chain_lem 14 15 k refl h
