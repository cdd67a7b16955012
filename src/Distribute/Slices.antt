-- ===== src/Distribute/Slices.antt =====
-- What the ports of `distribute2` to `distribute16` are sent.
use hipacc_vivado.Prelude.{
  ℕ, ◌+◌, ◌*◌, ◌/◌, ◌%◌, ◌≤◌, ◌≡◌, sym, ◌∙◌, ap, arith, ≡→==, le→leb, lt→ltb, le→ltb, if◌then◌else◌,
  Bool, ltb, leb, ◌==◌, ◌||◌, ◌&&◌, Bool-cases, inl, inr, Outcome, done, List, [], ◌∷◌, ◌++◌,
  gather-cong, gather-cut,
}
use hipacc_vivado.Local.Images.{raster}
use hipacc_vivado.Distribute.{
  Ports, kernel_apron, distribute, distribute2_fixed, distribute2, distribute4, distribute8,
  distribute16, route2_fixed, route2, route4, route8, route16,
}
use hipacc_vivado.Distribute.Ladder.{
  occurrences, in_window, route2_window, route4_window, route8_window, route16_window,
}
use hipacc_vivado.Distribute.Windows.{pixel, distribute_loop_lem}

module _ {A : Type 0} (img : ℕ → ℕ → A) (max_width max_height width height vect kernel_size : ℕ)
    (rest : List A) (before : ℕ → List A) where
  abbrev image : List A
  image = raster height width (λ y x. img y x ∷ [])

  -- The columns of the window of port `k`.
  abbrev pub slice : (ℕ → ℕ → Bool) → ℕ → List A
  slice window k = raster height width (λ y x. if window k x then img y x ∷ [] else [])

  abbrev incoming : Ports A
  incoming = record { data_in = image ++ rest; data_out = before }

  -- Every port up to `last` has been sent its slice, and nothing else of the input is read.
  abbrev pub Sliced : (ℕ → ℕ → Bool) → ℕ → Outcome (Ports A) → Type 0
  Sliced window last ran =
      (t : Ports A) × (ran ≡ done t)
      × (t.data_in ≡ rest)
      × ((k : ℕ) → k ≤ last → t.data_out k ≡ before k ++ slice window k)

  distribute-Sliced :
      (window : ℕ → ℕ → Bool) (last : ℕ) (route : ℕ → List ℕ)
      → ((col k : ℕ) → k ≤ last → occurrences k (route col) ≡ (if window k col then 1 else 0))
      → width ≤ max_width
      → height ≤ max_height
      → kernel_size % 2 ≡ 1
      → Sliced window last
          (distribute max_width max_height width height vect kernel_size route incoming)
  unfolding distribute
  distribute-Sliced window last route windows fits_width fits_height odd =
      let extra : ℕ = 2 * (kernel_apron vect kernel_size) * vect in
      let (t, ran, read, wrote) = distribute_loop_lem img width height extra route rest before in
      let padded : raster height (width + extra) (pixel img width height extra route rest before)
          ≡ image =
        gather-cong height 0 _ _ (λ y l u.
          gather-cut (width + extra) width 0 _ _ (omega arith)
            (λ x l u. rw (lt→ltb x width (omega arith)))
            (λ x l. rw (le→ltb x width (omega arith)))) in
      (
        t,
        rw
            (
              le→leb width max_width fits_width,
              le→leb height max_height fits_height,
              ≡→== (kernel_size % 2) 1 odd,
              sym padded,
            )
            ran,
        read,
        λ k h.
            wrote k
            ∙ ap (λ l. before k ++ l)
                (gather-cong height 0 _ _ (λ y l u.
                  gather-cut (width + extra) width 0 _ _ (omega arith)
                    (λ x l u.
                      rw (lt→ltb x width (omega arith), windows x k h)
                        (elim (Bool-cases (window k x)) [
                          | inl inside ↦ rw inside
                          | inr outside ↦ rw outside
                        ]))
                    (λ x l. rw (le→ltb x width (omega arith))))),
      )

  -- The chain of `distribute2FIXED` for two constants: port 0 gets the columns before the first less
  -- the apron and those around the second, port 1 those from the first less the apron on.
  abbrev pub fixed_window : ℕ → ℕ → ℕ → ℕ → Bool
  fixed_window part_l part_r k col =
      let ap = kernel_apron vect kernel_size in
      if k == 0
      then ltb (col + ap) part_l || (leb part_r (col + ap) && ltb col (part_r + ap))
      else leb part_l (col + ap)

  route2_fixed_window :
      (part_l part_r col k : ℕ)
      → part_l ≤ part_r
      → k ≤ 1
      → occurrences k (route2_fixed part_l part_r (kernel_apron vect kernel_size) col)
        ≡ (if fixed_window part_l part_r k col then 1 else 0)
  unfolding route2_fixed
  route2_fixed_window part_l part_r col k order h = ground arith

  -- For an image that fits, an odd kernel and `part_l ≤ part_r`, `distribute2FIXED` returns, reads the
  -- image and no more, and sends, line by line, the columns before `part_l` less the apron and those
  -- within the apron of `part_r` to port 0, and those from `part_l` less the apron on to port 1.
  pub distribute2_fixed_slices :
      (part_l part_r : ℕ)
      → part_l ≤ part_r
      → width ≤ max_width
      → height ≤ max_height
      → kernel_size % 2 ≡ 1
      → Sliced (fixed_window part_l part_r) 1 (
          distribute2_fixed max_width max_height width height vect kernel_size part_l part_r
            incoming)
  unfolding distribute2_fixed
  distribute2_fixed_slices part_l part_r order fits_width fits_height odd =
      distribute-Sliced (fixed_window part_l part_r) 1
        (route2_fixed part_l part_r (kernel_apron vect kernel_size))
        (λ col k h. route2_fixed_window part_l part_r col k order h) fits_width fits_height odd

  -- For an image that fits, an odd kernel and parts of at least twice the apron, `distribute2` returns.
  -- It reads the image and no more, and sends each of its 2 ports the columns of its part of
  -- `max_width / 2` columns with the apron on either side, line by line; port 1 goes on to the right edge.
  pub distribute2_slices :
      width ≤ max_width
      → height ≤ max_height
      → kernel_size % 2 ≡ 1
      → 2 * kernel_apron vect kernel_size ≤ max_width / 2
      → Sliced
          (in_window (max_width / 2) (kernel_apron vect kernel_size) 1)
          1
          (distribute2 max_width max_height width height vect kernel_size incoming)
  unfolding distribute2
  distribute2_slices fits_width fits_height odd overlap =
      distribute-Sliced (in_window (max_width / 2) (kernel_apron vect kernel_size) 1) 1
        (route2 (max_width / 2) (kernel_apron vect kernel_size))
        (λ col. route2_window (max_width / 2) (kernel_apron vect kernel_size) col overlap)
        fits_width fits_height odd

  -- For an image that fits, an odd kernel and parts of at least twice the apron, `distribute4` returns.
  -- It reads the image and no more, and sends each of its 4 ports the columns of its part of
  -- `width / 4` columns with the apron on either side, line by line; the last port goes on to the
  -- right edge.
  pub distribute4_slices :
      width ≤ max_width
      → height ≤ max_height
      → kernel_size % 2 ≡ 1
      → 2 * kernel_apron vect kernel_size ≤ width / 4
      → Sliced
          (in_window (width / 4) (kernel_apron vect kernel_size) 3)
          3
          (distribute4 max_width max_height width height vect kernel_size incoming)
  unfolding distribute4
  distribute4_slices fits_width fits_height odd overlap =
      rw (le→leb (width / 4) (max_width / 4) (omega arith)) (
        distribute-Sliced (in_window (width / 4) (kernel_apron vect kernel_size) 3) 3
          (route4 (width / 4) (kernel_apron vect kernel_size))
          (λ col. route4_window (width / 4) (kernel_apron vect kernel_size) col overlap) fits_width
          fits_height odd)

  -- For an image that fits, an odd kernel and parts of at least twice the apron, `distribute8` returns.
  -- It reads the image and no more, and sends each of its 8 ports the columns of its part of
  -- `width / 8` columns with the apron on either side, line by line; the last port goes on to the
  -- right edge.
  pub distribute8_slices :
      width ≤ max_width
      → height ≤ max_height
      → kernel_size % 2 ≡ 1
      → 2 * kernel_apron vect kernel_size ≤ width / 8
      → Sliced
          (in_window (width / 8) (kernel_apron vect kernel_size) 7)
          7
          (distribute8 max_width max_height width height vect kernel_size incoming)
  unfolding distribute8
  distribute8_slices fits_width fits_height odd overlap =
      rw (le→leb (width / 8) (max_width / 8) (omega arith)) (
        distribute-Sliced (in_window (width / 8) (kernel_apron vect kernel_size) 7) 7
          (route8 (width / 8) (kernel_apron vect kernel_size))
          (λ col. route8_window (width / 8) (kernel_apron vect kernel_size) col overlap) fits_width
          fits_height odd)

  -- For an image that fits, an odd kernel and parts of at least twice the apron, `distribute16` returns.
  -- It reads the image and no more, and sends each of its 16 ports the columns of its part of
  -- `width / 16` columns with the apron on either side, line by line; the last port goes on to the
  -- right edge.
  pub distribute16_slices :
      width ≤ max_width
      → height ≤ max_height
      → kernel_size % 2 ≡ 1
      → 2 * kernel_apron vect kernel_size ≤ width / 16
      → Sliced
          (in_window (width / 16) (kernel_apron vect kernel_size) 15)
          15
          (distribute16 max_width max_height width height vect kernel_size incoming)
  unfolding distribute16
  distribute16_slices fits_width fits_height odd overlap =
      rw (le→leb (width / 16) (max_width / 16) (omega arith)) (
        distribute-Sliced (in_window (width / 16) (kernel_apron vect kernel_size) 15) 15
          (route16 (width / 16) (kernel_apron vect kernel_size))
          (λ col. route16_window (width / 16) (kernel_apron vect kernel_size) col overlap)
          fits_width fits_height odd)
