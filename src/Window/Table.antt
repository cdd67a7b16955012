-- ===== src/Window/Table.antt =====
-- A double loop that writes every entry of an array, in place or not.
use hipacc_vivado.Prelude.{
  ℕ, suc, ◌<◌, ◌≡◌, ◌∙◌, arith, ltb, ◌==◌, ◌&&◌, ◌||◌, if◌then◌else◌, Outcome, done, for_up,
  for_up_inv, Bool-cases, inl, inr,
}
use hipacc_vivado.Window.{put}

module _ {ℓ} {A : Type ℓ} (kx ky : ℕ) (entry : ℕ → ℕ → (ℕ → ℕ → A) → Outcome (ℕ → ℕ → A))
    (value old : ℕ → ℕ → A) where
  -- The entries before `(i, j)` in row-major order have their new values, the others their old.
  abbrev pub Filled : ℕ → ℕ → (ℕ → ℕ → A) → Type ℓ
  Filled i j w =
      (a b : ℕ) → b < kx → w a b ≡ (if ltb a i || ((a == i) && ltb b j) then value a b else old a b)

  module _
      (writes : (i j : ℕ) (w : ℕ → ℕ → A)
        → i < ky
        → j < kx
        → Filled i j w
        → entry i j w ≡ done (put w i j (value i j))) where
    row_lem :
        (i : ℕ) (w : ℕ → ℕ → A)
        → i < ky
        → Filled i 0 w
        → (t : ℕ → ℕ → A) × (for_up kx 0 (entry i) w ≡ done t) × Filled (suc i) 0 t
    unfolding put
    row_lem i w h start =
        let (t, run, row) =
          for_up_inv (Filled i) (entry i) kx 0 kx (omega arith)
            (λ j u l lt inv. (
              put u i j (value i j),
              writes i j u h lt inv,
              λ a b z. elim (Bool-cases ((a == i) && (b == j))) [
                | inl e ↦
                    let row_same : a ≡ i = ground arith in
                    let column_same : b ≡ j = ground arith in
                    rw (row_same, column_same) (ground arith)
                | inr e ↦ ground (arith, inv a b z)
              ],
            ))
            w start in
        (t, run, λ a b z. row a b z ∙ ground arith)

    -- If each round writes its own entry, the loop returns and every entry has its new value.
    pub table_lem :
        (t : ℕ → ℕ → A) × (for_up ky 0 (λ i. for_up kx 0 (entry i)) old ≡ done t)
        × ((a b : ℕ) → a < ky → b < kx → t a b ≡ value a b)
    table_lem =
        let (t, run, all) =
          for_up_inv (λ i. Filled i 0) (λ i. for_up kx 0 (entry i)) ky 0 ky (omega arith)
            (λ i u l lt inv. row_lem i u lt inv) old (λ a b z. ground arith) in
        (t, run, λ a b y z. all a b z ∙ ground arith)
