-- ===== src/Aggregate/Windows.antt =====
-- runtime/hipacc_vivado_filter.hpp, which pixels `split_L` to `splitF_R` write.
use hipacc_vivado.Prelude.{
  ℕ, ◌+◌, ◌-◌, ◌*◌, ◌/◌, ◌%◌, ◌≤◌, ◌<◌, ◌≡◌, ◌∙◌, arith, Bool, true, false, ◌&&◌, ltb, leb, done,
  List, [], ◌∷◌, ◌++◌, gather, gather-cong, gather-skip, gather-cut,
}
use hipacc_vivado.Local.Images.{raster}
use hipacc_vivado.Aggregate.{split_loop}
use hipacc_vivado.Aggregate.Rows
use hipacc_vivado.Aggregate.Rows.{split_loop_lem}

module _ {V A : Type 0} (vect n height : ℕ) (reads writes : ℕ → Bool) (lane : V → ℕ → A)
    (img : ℕ → ℕ → V) (rest : List V) (before : List A) (pos : 0 < vect) where
  abbrev piece : ℕ → ℕ → List A
  piece = Rows.piece vect n height reads writes lane img rest before pos

  -- What is written where `writes` holds for the columns of a window only.
  pub raster-window :
      (from count : ℕ)
      → from + count ≤ n * vect
      → ((col : ℕ) → writes col ≡ (leb from col && ltb col (from + count)))
      → raster height (n * vect) piece
        ≡ gather height 0
            (λ y. gather count from (λ col. lane (img y (col / vect)) (col % vect) ∷ []))
  raster-window from count inside test = gather-cong height 0 _ _ (λ y l u.
      gather-skip from (n * vect - from) (n * vect) 0 from (piece y) (omega arith) (omega arith)
        (λ k l' u'.
          (let waits : (leb from k && ltb k (from + count)) ≡ false = ground arith in
            rw (test k, waits)))
      ∙ gather-cut (n * vect - from) count from _ _ (omega arith)
          (λ k l' u'.
            (let now : (leb from k && ltb k (from + count)) ≡ true = ground arith in
              rw (test k, now)))
          (λ k l'.
            (let over : (leb from k && ltb k (from + count)) ≡ false = ground arith in
              rw (test k, over))))

-- The pixels of the columns `from` on, `count` of them in each line, of an image of vectors.
abbrev pub window : {V A : Type 0} → ℕ → ℕ → ℕ → ℕ → (V → ℕ → A) → (ℕ → ℕ → V) → List A
window height vect from count lane img =
    gather height 0 (λ y. gather count from (λ col. lane (img y (col / vect)) (col % vect) ∷ []))

pub split_loop-window :
    {V A : Type 0} (vect n height columns from count : ℕ) (reads writes : ℕ → Bool)
    (lane : V → ℕ → A) (img : ℕ → ℕ → V) (rest : List V) (before : List A) (temp : V)
    → 0 < vect
    → n * vect ≤ columns
    → from + count ≤ n * vect
    → ((col : ℕ) → col < columns → reads col ≡ ltb col (n * vect))
    → ((col : ℕ) → writes col ≡ (leb from col && ltb col (from + count)))
    → (temp' : V) × (split_loop vect reads writes lane columns height
          (temp, record { in_s = raster height n (λ y k. img y k ∷ []) ++ rest; out_s = before })
        ≡ done (
          temp',
          record { in_s = rest; out_s = before ++ window height vect from count lane img },
        ))
split_loop-window vect n height columns from count reads writes lane img rest before temp pos whole
      inside read test =
    let (temp', ran) =
      split_loop_lem vect n height reads writes lane img rest before pos columns whole
        (λ col l. read col (omega arith) ∙ ground arith) (λ col l u. read col u ∙ ground arith)
        temp in
    (
      temp',
      ran
          ∙ rw (
              raster-window vect n height reads writes lane img rest before pos from count inside
                test),
    )
