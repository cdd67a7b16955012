-- ===== src/Local/Images.antt =====
-- What is still to be read and what has been written in the middle of a scan, as lists.
use hipacc_vivado.Prelude.{
  ℕ, suc, ◌+◌, ◌-◌, ◌≤◌, ◌≡◌, sym, ◌∙◌, ap, arith, ltb, leb, if◌then◌else◌, lt→ltb, le→leb,
  Bool-cases, inl, inr, List, [], ◌++◌, append_assoc, append-nil, gather, gather-snoc, if_same,
  ◌&&◌, true, false,
}

-- The pieces of an image of `height` lines of `width` pixels, line by line.
abbrev pub raster : {A : Type 0} → ℕ → ℕ → (ℕ → ℕ → List A) → List A
raster height width pieces = gather height 0 (λ y. gather width 0 (pieces y))

module _ {A : Type 0} (width height : ℕ) (pieces : ℕ → ℕ → List A) (rest : List A) where
  -- What the input stream still delivers before step `col` of line `row`.
  pub left : ℕ → ℕ → List A
  left row col =
      (if ltb row height
        then gather (width - col) col (pieces row)
          ++ gather (height - suc row) (suc row) (λ y. gather width 0 (pieces y))
        else [])
      ++ rest

  pub left-next :
      (row col : ℕ)
      → (ltb col width && ltb row height) ≡ true
      → left row col ≡ pieces row col ++ left row (suc col)
  unfolding left
  left-next row col inside =
      let more : width - col ≡ suc (width - suc col) = ground arith in
      rw (lt→ltb row height (ground arith), more)
        (ap (λ l. l ++ rest)
            (append_assoc (pieces row col) (gather (width - suc col) (suc col) (pieces row)) _)
          ∙ append_assoc (pieces row col) _ rest)

  pub left-skip :
      (row col : ℕ) → (ltb col width && ltb row height) ≡ false → left row col ≡ left row (suc col)
  unfolding left
  left-skip row col outside = elim (Bool-cases (ltb row height)) [
    | inl more ↦
        let none_now : width - col ≡ 0 = ground arith in
        let none_then : width - suc col ≡ 0 = ground arith in rw (more, none_now, none_then)
    | inr over ↦ rw over
  ]

  left-lines :
      (row : ℕ) → left row 0 ≡ gather (height - row) row (λ y. gather width 0 (pieces y)) ++ rest
  unfolding left
  left-lines row = elim (Bool-cases (ltb row height)) [
    | inl more ↦
        let all : width - 0 ≡ width = omega arith in
        let first : height - row ≡ suc (height - suc row) = ground arith in rw (more, all, first)
    | inr over ↦ let none_left : height - row ≡ 0 = ground arith in rw (over, none_left)
  ]

  pub left-line : (row col : ℕ) → width ≤ col → left row col ≡ left (suc row) 0
  unfolding left
  left-line row col h = rw (left-lines (suc row)) (elim (Bool-cases (ltb row height)) [
    | inl more ↦ let none_left : width - col ≡ 0 = omega arith in rw (more, none_left)
    | inr over ↦ let none_left : height - suc row ≡ 0 = ground arith in rw (over, none_left)
  ])

  pub left-start : left 0 0 ≡ raster height width pieces ++ rest
  left-start = let all : height - 0 ≡ height = omega arith in left-lines 0 ∙ rw all

  pub left-end : (row : ℕ) → height ≤ row → left row 0 ≡ rest
  left-end row h = let none_left : height - row ≡ 0 = omega arith in left-lines row ∙ rw none_left

module _ {B : Type 0} (rx ry width height : ℕ) (pieces : ℕ → ℕ → List B) (before : List B) where
  -- What an output stream holds before step `col` of line `row`.
  pub sofar : ℕ → ℕ → List B
  sofar row col =
      before
      ++ (gather (row - ry) 0 (λ y. gather width 0 (pieces y))
          ++ (if leb ry row then gather (col - rx) 0 (pieces (row - ry)) else []))

  pub sofar-next :
      (row col : ℕ)
      → (leb ry row && leb rx col) ≡ true
      → sofar row (suc col) ≡ sofar row col ++ pieces (row - ry) (col - rx)
  unfolding sofar
  sofar-next row col writes =
      let lines : List B = gather (row - ry) 0 (λ y. gather width 0 (pieces y)) in
      let more : suc col - rx ≡ suc (col - rx) = ground arith in
      rw
        (
          le→leb ry row (ground arith),
          more,
          gather-snoc (col - rx) 0 (col - rx) (pieces (row - ry)) (omega arith),
        )
        (ap (λ l. before ++ l)
            (sym (
              append_assoc lines (gather (col - rx) 0 (pieces (row - ry)))
                (pieces (row - ry) (col - rx))))
          ∙ sym (append_assoc before _ (pieces (row - ry) (col - rx))))

  pub sofar-skip :
      (row col : ℕ) → (leb ry row && leb rx col) ≡ false → sofar row col ≡ sofar row (suc col)
  unfolding sofar
  sofar-skip row col waits = elim (Bool-cases (leb ry row)) [
    | inl begun ↦
        let none_now : col - rx ≡ 0 = ground arith in
        let none_then : suc col - rx ≡ 0 = ground arith in rw (begun, none_now, none_then)
    | inr before_rows ↦ rw before_rows
  ]

  pub sofar-lines :
      (row : ℕ) → sofar row 0 ≡ before ++ gather (row - ry) 0 (λ y. gather width 0 (pieces y))
  unfolding sofar
  sofar-lines row =
      let none_yet : 0 - rx ≡ 0 = omega arith in
      rw (none_yet, if_same {A = List B} (leb ry row) [], append-nil)

  pub sofar-line : (row : ℕ) → sofar row (width + rx) ≡ sofar (suc row) 0
  unfolding sofar
  sofar-line row = rw (sofar-lines (suc row)) (elim (Bool-cases (leb ry row)) [
    | inl begun ↦
        let all : width + rx - rx ≡ width = omega arith in
        let next : suc row - ry ≡ suc (row - ry) = ground arith in
        rw (begun, all, next, gather-snoc (row - ry) 0 (row - ry) _ (omega arith))
    | inr waits ↦
        let none_now : row - ry ≡ 0 = ground arith in
        let none_then : suc row - ry ≡ 0 = ground arith in rw (waits, none_now, none_then)
  ])

  pub sofar-start : sofar 0 0 ≡ before
  sofar-start = let none_yet : 0 - ry ≡ 0 = omega arith in sofar-lines 0 ∙ rw (none_yet, append-nil)

  pub sofar-end : sofar (height + ry) 0 ≡ before ++ raster height width pieces
  sofar-end =
      let all : height + ry - ry ≡ height = omega arith in sofar-lines (height + ry) ∙ rw all
