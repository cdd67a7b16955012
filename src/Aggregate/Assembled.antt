-- ===== src/Aggregate/Assembled.antt =====
-- runtime/hipacc_vivado_filter.hpp, the loop of `assemble` and `assembleF`.
use hipacc_vivado.Prelude.{
  ℕ, suc, ◌+◌, ◌-◌, ◌*◌, ◌≤◌, ◌<◌, ◌≡◌, refl, sym, ◌∙◌, ap, arith, true, false, ◌&&◌, ltb, leb,
  ◌==◌, Bool-cases, inl, inr, if◌then◌else◌, Outcome, done, for_up, for_up_inv, List, [], ◌∷◌, ◌++◌,
  append_assoc, append-nil, gather, gather-cong, gather-snoc, subst, ≡→==, ≢→==, ltb→lt, ltb→le,
}
use native.Mathlib.Nat.{mul-le-mul_right}
use hipacc_vivado.Local.{Streams}
use hipacc_vivado.Local.Images.{left, left-next, sofar, sofar-next}
use hipacc_vivado.Vectors.Lanes.{RangeLaws}
use hipacc_vivado.Aggregate.{assemble_step}
use hipacc_vivado.Aggregate.Blocks.{lane_at, block_inside}

-- Lanes of `w` bits do not meet.
apart : (w i k : ℕ) → 0 < w → i < k → (i + 1) * w - 1 < k * w
apart w i k pos h = grind arith

ordered : (w i : ℕ) → 0 < w → i * w ≤ (i + 1) * w - 1
ordered w i pos = grind arith

inside_size : (w vect size i : ℕ) → 0 < w → vect * w ≤ size → i < vect → (i + 1) * w - 1 < size
inside_size w vect size i pos fits h =
    let below : suc i * w ≤ vect * w = mul-le-mul_right w h in
    let same : suc i * w ≡ (i + 1) * w = grind arith in
    let some : (i + 1) * w ≡ i * w + w = grind arith in omega arith

lane_width : (w i : ℕ) → 0 < w → (i + 1) * w - 1 + 1 - i * w ≡ w
lane_width w i pos = let some : (i + 1) * w ≡ i * w + w = grind arith in omega arith

module _ {U B : Type 0} (range : U → ℕ → ℕ → B) (w vect : ℕ) where
  -- The pixels of a vector, and of several.
  abbrev pub lanes : U → List B
  lanes v = gather vect 0 (λ i. range v (i * w) ((i + 1) * w - 1) ∷ [])

  abbrev pub unpack : List U → List B
  unpack [] = []
  unpack (v ∷ vs) = lanes v ++ unpack vs

  unpack-snoc : (vs : List U) (v : U) → unpack (vs ++ v ∷ []) ≡ unpack vs ++ lanes v
  unpack-snoc [] v = append-nil (lanes v)
  unpack-snoc (u ∷ vs) v =
      ap (λ l. lanes u ++ l) (unpack-snoc vs v) ∙ sym (append_assoc (lanes u) (unpack vs) (lanes v))

module _ {U A B : Type 0} (conv : A → B) (range : U → ℕ → ℕ → B) (set_range : U → ℕ → ℕ → B → U)
    (size : ℕ) (trunc : ℕ → B → B) (laws : RangeLaws size trunc range set_range)
    (w vect max_width max_height kernel_size q height : ℕ) (img : ℕ → ℕ → A) (rest : List A)
    (before : List U) (some : 0 < w) (room : vect * w ≤ size) where
  -- What lane `c` of line `y` holds in the end.
  abbrev pub stored : ℕ → ℕ → B
  stored y c = trunc w (conv (img y c))

  abbrev pub incoming : ℕ → ℕ → List A
  incoming = left (q * vect) height (λ y c. img y c ∷ []) rest

  abbrev pub assembled : ℕ → ℕ → List B
  assembled = sofar 0 0 (q * vect) height (λ y c. stored y c ∷ []) []

  abbrev pub step : ℕ → U × Streams A U → Outcome (U × Streams A U)
  step = assemble_step conv set_range w vect max_width max_height kernel_size (q * vect) height

  -- Before vector `k` of line `y`.
  abbrev pub At : ℕ → ℕ → U × Streams A U → Type 0
  At y k (temp, t) =
      (vs : List U) × (t ≡ record { in_s = incoming y (k * vect); out_s = before ++ vs })
      × (unpack range w vect vs ≡ assembled y (k * vect))

  module _ (y k : ℕ) (in_rows : y < height) (in_line : k < q) (vs : List U) where
    -- Before column `col` of vector `k`, where the vectors `vs` have been written.
    abbrev Within : ℕ → U × Streams A U → Type 0
    Within col (temp, t) =
        ((j : ℕ)
          → j < col - k * vect
          → range temp (j * w) ((j + 1) * w - 1) ≡ stored y (k * vect + j))
        × ((t ≡ record {
          in_s = incoming y col;
          out_s = before ++ (if col == k * vect + vect then vs ++ temp ∷ [] else vs);
        })
            × (unpack range w vect vs
                  ++ gather (col - k * vect) 0 (λ j. stored y (k * vect + j) ∷ [])
                ≡ assembled y col))

    lane_lem :
        (temp : U) (i : ℕ) (x : B)
        → ((j : ℕ) → j < i → range temp (j * w) ((j + 1) * w - 1) ≡ stored y (k * vect + j))
        → i < vect
        → trunc w x ≡ stored y (k * vect + i)
        → (j : ℕ) → j < i + 1
        → range (set_range temp (i * w) ((i + 1) * w - 1) x) (j * w) ((j + 1) * w - 1)
          ≡ stored y (k * vect + j)
    lane_lem temp i x held in_vector e j below =
        let ends = inside_size w vect size i some room in_vector in
        elim (Bool-cases (ltb j i)) [
          | inl earlier ↦
              laws.untouched temp (i * w) ((i + 1) * w - 1) (j * w) ((j + 1) * w - 1) x
                (ordered w i some) (ordered w j some) ends
                (inside_size w vect size j some room (let less = ltb→lt j i earlier in omega arith))
                (inr (apart w j i some (ltb→lt j i earlier)))
              ∙ held j (ltb→lt j i earlier)
          | inr last ↦
              let here : j ≡ i = (let reached = ltb→le j i last in omega arith) in
              rw here (
                laws.assigned temp (i * w) ((i + 1) * w - 1) x (ordered w i some) ends
                ∙ ap (λ n. trunc n x) (lane_width w i some)
                ∙ e)
        ]

    more_lem :
        (col : ℕ)
        → k * vect ≤ col
        → col < q * vect
        → unpack range w vect vs ++ gather (col - k * vect) 0 (λ j. stored y (k * vect + j) ∷ [])
          ≡ assembled y col
        → unpack range w vect vs
            ++ gather (suc col - k * vect) 0 (λ j. stored y (k * vect + j) ∷ [])
          ≡ assembled y (suc col)
    more_lem col l u so_far =
        let at_col : k * vect + (col - k * vect) ≡ col = omega arith in
        let next : suc col - k * vect ≡ suc (col - k * vect) = omega arith in
        let (same_y, same_col) : (y - 0 ≡ y) × (col - 0 ≡ col) = (omega arith, omega arith) in
        let wrote : (leb 0 y && leb 0 col) ≡ true = ground arith in
        let pixel : ℕ → List B = λ j. stored y (k * vect + j) ∷ [] in
        rw
          (
            next,
            gather-snoc (col - k * vect) 0 (col - k * vect) pixel (omega arith),
            at_col,
            sofar-next 0 0 (q * vect) height (λ y c. stored y c ∷ []) [] y col wrote,
            same_y,
            same_col,
          )
          (sym (append_assoc (unpack range w vect vs) (gather (col - k * vect) 0 pixel) _)
            ∙ ap (λ l. l ++ stored y col ∷ []) so_far)

    column_lem :
        (col : ℕ) (s : U × Streams A U)
        → k * vect ≤ col
        → col < k * vect + vect
        → Within col s
        → (s' : U × Streams A U) × (step col s ≡ done s') × Within (suc col) s'
    unfolding assemble_step
    column_lem col (temp, t) l u (held, (is, so_far)) =
        let (lane_i, vector_k) = lane_at vect k col l u in
        let fits = block_inside vect k q in_line in
        let inside : (ltb col (q * vect) && ltb y height) ≡ true = ground arith in
        let within : ltb col (q * vect) ≡ true = ground arith in
        let open_yet : (col == k * vect + vect) ≡ false =
          ≢→== col (k * vect + vect) (omega arith) in
        let at_col : k * vect + (col - k * vect) ≡ col = omega arith in
        let next : suc col - k * vect ≡ (col - k * vect) + 1 = omega arith in
        let filled =
          set_range temp ((col - k * vect) * w) ((col - k * vect + 1) * w - 1) (conv (img y col)) in
        (
          (
            filled,
            record {
              in_s = incoming y (suc col);
              out_s = before ++ (if suc col == k * vect + vect then vs ++ filled ∷ [] else vs);
            },
          ),
          rw
              (
                within,
                is,
                open_yet,
                lane_i,
                left-next (q * vect) height (λ y c. img y c ∷ []) rest y col inside,
              )
              (elim (Bool-cases (col - k * vect == vect - 1)) [
                | inl full ↦
                    let last : (suc col == k * vect + vect) ≡ true =
                      ≡→== (suc col) (k * vect + vect) (ground arith) in
                    rw (full, last)
                      (ap (λ l. done (filled, record { in_s = incoming y (suc col); out_s = l }))
                        (append_assoc before vs (filled ∷ [])))
                | inr part ↦
                    let not_last : (suc col == k * vect + vect) ≡ false =
                      ≢→== (suc col) (k * vect + vect) (λ e.
                        (let same : col - k * vect ≡ vect - 1 = omega arith in ground arith)) in
                    rw (part, not_last)
              ]),
          (
            rw next
                (lane_lem temp (col - k * vect) (conv (img y col)) held (omega arith) (rw at_col)),
            (refl, more_lem col l (omega arith) so_far),
          ),
        )

    pub block_lem :
        (s : U × Streams A U)
        → 0 < vect
        → s.1 ≡ record { in_s = incoming y (k * vect); out_s = before ++ vs }
        → unpack range w vect vs ≡ assembled y (k * vect)
        → (s' : U × Streams A U) × (for_up vect (k * vect) step s ≡ done s') × At y (suc k) s'
    block_lem s pos is so_far =
        let none : k * vect - k * vect ≡ 0 = omega arith in
        let open_yet : (k * vect == k * vect + vect) ≡ false =
          ≢→== (k * vect) (k * vect + vect) (omega arith) in
        let full : (k * vect + vect == k * vect + vect) ≡ true = ≡→== (k * vect + vect) _ refl in
        let all : k * vect + vect - k * vect ≡ vect = omega arith in
        let next : k * vect + vect ≡ suc k * vect = grind arith in
        let ((temp', t'), ran, (held, (is', so_far'))) =
          for_up_inv Within step vect (k * vect) (k * vect + vect) refl
            (λ col u l m a. column_lem col u l m a) s
            ((λ j h. absurd (omega arith)), (rw open_yet is, rw (none, append-nil) so_far)) in
        (
          (temp', t'),
          ran,
          (
            vs ++ temp' ∷ [],
            is' ∙ rw (full, next),
            unpack-snoc range w vect vs temp'
                ∙ ap (λ l. unpack range w vect vs ++ l)
                    (gather-cong vect 0 _ (λ j. stored y (k * vect + j) ∷ [])
                      (λ j l u. ap (λ x. x ∷ []) (held j (omega arith))))
                ∙ subst
                    (λ n.
                      unpack range w vect vs ++ gather n 0 (λ j. stored y (k * vect + j) ∷ [])
                      ≡ assembled y (k * vect + vect))
                    all so_far'
                ∙ ap (assembled y) next,
          ),
        )
