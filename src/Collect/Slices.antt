-- ===== src/Collect/Slices.antt =====
-- The image that `collect2` to `collect16` put together.
use hipacc_vivado.Prelude.{
  ℕ, suc, ◌+◌, ◌-◌, ◌/◌, ◌≤◌, ◌<◌, ◌≡◌, refl, sym, ◌∙◌, ap, arith, ◌==◌, ≡→==, ==→≡, le→leb,
  if◌then◌else◌, Bool-cases, inl, inr, Outcome, done, for_up, for_up_inv, List, [], ◌∷◌, ◌++◌,
  gather-cong, false,
}
use hipacc_vivado.Local.Images.{
  raster, left, left-next, left-line, left-start, left-end, sofar, sofar-next, sofar-line,
  sofar-start, sofar-end,
}
use hipacc_vivado.Collect.{
  Joined, collect_step, collect, collect2_fixed, collect2, collect4, collect8, collect16, port2,
  port4, port8, port16,
}
use hipacc_vivado.Collect.Chain.{
  in_part, Picks, port2-Picks, port4-Picks, port8-Picks, port16-Picks,
}

module _ {A : Type 0} (img : ℕ → ℕ → A) (max_width max_height width height : ℕ) (rest : ℕ → List A)
    (before : List A) where
  abbrev pixel : ℕ → ℕ → List A
  pixel y x = img y x ∷ []

  -- The columns of the part of port `k`.
  abbrev pub slice : ℕ → ℕ → ℕ → List A
  slice part last k =
      raster height width (λ y x. if in_part part last k x then img y x ∷ [] else [])

  -- The ports up to `last` hold their parts of the image.
  abbrev pub Delivers : ℕ → ℕ → Joined A → Type 0
  Delivers part last s =
      (s.out_s ≡ before) × ((k : ℕ) → k ≤ last → s.data_in k ≡ slice part last k ++ rest k)

  -- The run returns, the image has been written, and no port has been read further.
  abbrev pub Collected : ℕ → Outcome (Joined A) → Type 0
  Collected last ran =
      (t : Joined A) × (ran ≡ done t)
      × (t.out_s ≡ before ++ raster height width (λ y x. img y x ∷ []))
      × ((k : ℕ) → k ≤ last → t.data_in k ≡ rest k)

  module _ (last : ℕ) (port : ℕ → ℕ) (in_range : (col : ℕ) → port col ≤ last) where
    abbrev piece : ℕ → ℕ → ℕ → List A
    piece k y x = if port x == k then img y x ∷ [] else []

    record Middle (row col : ℕ) (s : Joined A) : Type 0 where
      incoming : (k : ℕ) → k ≤ last → s.data_in k ≡ left width height (piece k) (rest k) row col
      outgoing : s.out_s ≡ sofar 0 0 width height pixel before row col

    step_lem :
        (row col : ℕ) (s : Joined A)
        → row < height
        → col < width
        → Middle row col s
        → (t : Joined A) × (collect_step port col s ≡ done t) × Middle row (suc col) t
    unfolding collect_step
    step_lem row col s in_rows in_cols m =
        let own : ℕ → List A = λ k. left width height (piece k) (rest k) row (suc col) in
        let advance : (k : ℕ) → k ≤ last → s.data_in k ≡ piece k row col ++ own k = λ k h.
          m.incoming k h ∙ left-next width height (piece k) (rest k) row col (ground arith) in
        let here : s.data_in (port col) ≡ img row col ∷ own (port col) =
          advance (port col) (in_range col) ∙ rw (≡→== (port col) (port col) refl) in
        let same_row : row - 0 ≡ row = omega arith in
        let same_col : col - 0 ≡ col = omega arith in
        (
          record {
            data_in = λ p. if p == port col then own (port col) else s.data_in p;
            out_s = s.out_s ++ pixel row col;
          },
          rw here,
          record {
            incoming = λ k h. elim (Bool-cases (k == port col)) [
              | inl e ↦ rw e (ap own (sym (==→≡ k (port col) e)))
              | inr ne ↦
                  let other : (port col == k) ≡ false = ground arith in
                  rw ne (advance k h ∙ rw other)
            ];
            outgoing =
                ap (λ l. l ++ pixel row col) m.outgoing
                ∙ sym (
                    sofar-next 0 0 width height pixel before row col (ground arith)
                    ∙ rw (same_row, same_col));
          },
        )

    line_lem :
        (row : ℕ) (s : Joined A)
        → row < height
        → Middle row 0 s
        → (t : Joined A) × (for_up width 0 (collect_step port) s ≡ done t) × Middle (suc row) 0 t
    line_lem row s in_rows m =
        let (t, ran, m') =
          for_up_inv (Middle row) (collect_step port) width 0 width (omega arith)
            (λ col u l in_cols. step_lem row col u in_rows in_cols) s m in
        (
          t,
          ran,
          record {
            incoming = λ k h.
                m'.incoming k h ∙ left-line width height (piece k) (rest k) row width (omega arith);
            outgoing =
                m'.outgoing
                ∙ (let edge : width ≡ width + 0 = omega arith in
                    ap (sofar 0 0 width height pixel before row) edge
                    ∙ sofar-line 0 0 width height pixel before row);
          },
        )

    collect-Collected :
        (s : Joined A)
        → width ≤ max_width
        → height ≤ max_height
        → s.out_s ≡ before
        → ((k : ℕ) → k ≤ last → s.data_in k ≡ raster height width (piece k) ++ rest k)
        → Collected last (collect max_width max_height width height port s)
    unfolding collect
    collect-Collected s fits_width fits_height starts holds =
        let (t, ran, m) =
          for_up_inv (λ row. Middle row 0) _ height 0 height (omega arith)
            (λ row u l in_rows. line_lem row u in_rows) s
            (record {
              incoming = λ k h. holds k h ∙ sym (left-start width height (piece k) (rest k));
              outgoing = starts ∙ sym (sofar-start 0 0 width height pixel before);
            }) in
        (
          t,
          rw (le→leb width max_width fits_width, le→leb height max_height fits_height) ran,
          m.outgoing
              ∙ (let edge : height ≡ height + 0 = omega arith in
                  ap (λ row. sofar 0 0 width height pixel before row 0) edge
                  ∙ sofar-end 0 0 width height pixel before),
          λ k h. m.incoming k h ∙ left-end width height (piece k) (rest k) height (omega arith),
        )

  picked-Collected :
      (part last : ℕ) (port : ℕ → ℕ) (s : Joined A)
      → Picks part last port
      → width ≤ max_width
      → height ≤ max_height
      → Delivers part last s
      → Collected last (collect max_width max_height width height port s)
  picked-Collected part last port s p fits_width fits_height (starts, holds) =
      collect-Collected last port p.in_range s fits_width fits_height starts (λ k h.
        holds k h
        ∙ ap (λ l. l ++ rest k)
            (gather-cong height 0 _ _
              (λ y l u. gather-cong width 0 _ _ (λ x l u. rw (p.picks x k h)))))

  -- When the image fits and the ports hold the columns below `part_0` and from `part_0` on,
  -- `collect2FIXED` returns, has written the image and has read no further.
  pub collect2_fixed-image :
      (part_0 : ℕ) (s : Joined A)
      → width ≤ max_width
      → height ≤ max_height
      → Delivers part_0 1 s
      → Collected 1 (collect2_fixed max_width max_height width height part_0 s)
  unfolding collect2_fixed
  collect2_fixed-image part_0 s = picked-Collected part_0 1 (port2 part_0) s (port2-Picks part_0)

  -- When the image fits and each of the 2 ports holds the columns of its part of `width / 2` columns,
  -- the last one all that remain, `collect2` returns, has written the image and has read no further.
  pub collect2-image :
      (s : Joined A)
      → width ≤ max_width
      → height ≤ max_height
      → Delivers (width / 2) 1 s
      → Collected 1 (collect2 max_width max_height width height s)
  unfolding collect2
  collect2-image s fits_width fits_height delivers =
      rw (le→leb (width / 2) (max_width / 2) (omega arith)) (
        picked-Collected (width / 2) 1 (port2 (width / 2)) s (port2-Picks (width / 2)) fits_width
          fits_height delivers)

  -- When the image fits and each of the 4 ports holds the columns of its part of `width / 4` columns,
  -- the last one all that remain, `collect4` returns, has written the image and has read no further.
  pub collect4-image :
      (s : Joined A)
      → width ≤ max_width
      → height ≤ max_height
      → Delivers (width / 4) 3 s
      → Collected 3 (collect4 max_width max_height width height s)
  unfolding collect4
  collect4-image s fits_width fits_height delivers =
      rw (le→leb (width / 4) (max_width / 4) (omega arith)) (
        picked-Collected (width / 4) 3 (port4 (width / 4)) s (port4-Picks (width / 4)) fits_width
          fits_height delivers)

  -- When the image fits and each of the 8 ports holds the columns of its part of `width / 8` columns,
  -- the last one all that remain, `collect8` returns, has written the image and has read no further.
  pub collect8-image :
      (s : Joined A)
      → width ≤ max_width
      → height ≤ max_height
      → Delivers (width / 8) 7 s
      → Collected 7 (collect8 max_width max_height width height s)
  unfolding collect8
  collect8-image s fits_width fits_height delivers =
      rw (le→leb (width / 8) (max_width / 8) (omega arith)) (
        picked-Collected (width / 8) 7 (port8 (width / 8)) s (port8-Picks (width / 8)) fits_width
          fits_height delivers)

  -- When the image fits and each of the 16 ports holds the columns of its part of `width / 16` columns,
  -- the last one all that remain, `collect16` returns, has written the image and has read no further.
  pub collect16-image :
      (s : Joined A)
      → width ≤ max_width
      → height ≤ max_height
      → Delivers (width / 16) 15 s
      → Collected 15 (collect16 max_width max_height width height s)
  unfolding collect16
  collect16-image s fits_width fits_height delivers =
      rw (le→leb (width / 16) (max_width / 16) (omega arith)) (
        picked-Collected (width / 16) 15 (port16 (width / 16)) s (port16-Picks (width / 16))
          fits_width fits_height delivers)
