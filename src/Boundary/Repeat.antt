-- ===== src/Boundary/Repeat.antt =====
-- lib/AST/BorderHandling.cpp: the loops of `addRepeatUpper` and `addRepeatLower`.
use hipacc_vivado.Prelude.{
  ℕ, zero, suc, ◌-◌, ◌<◌, ◌≡◌, ◌⊎◌, refl, ◌∙◌, arith, true, false, Bool-cases, inl, inr, some, ap,
}
use hipacc_vivado.Prelude.Int.{ℤ, pos, ◌+ℤ◌, ◌-ℤ◌, ◌≤ℤ◌, ◌<ℤ◌, leb_ℤ, ltb_ℤ, int_laws}
use hipacc_vivado.Boundary.{
  gid_x, gid_y, offset_x, offset_y, width, height, op_add, Env, lookup, store, decl_ref,
  binary_operator, exec, value, while_loop, add_repeat_upper, add_repeat_lower,
}

abbrev pub times : ℕ → ℤ → ℤ
times zero w = pos 0
times (suc k) w = w +ℤ times k w

module _ (mem : ℤ → ℤ → ℤ) where
  pub repeat_upper_x :
      (fuel m : ℕ) (s : Env)
      → pos 0 <ℤ s.at_width
      → m < fuel
      → s.at_gid_x <ℤ s.at_offset_x +ℤ s.at_width +ℤ pos m
      → (x : ℤ) × (exec mem fuel
            (add_repeat_upper
              (decl_ref gid_x)
              (binary_operator op_add (decl_ref offset_x) (decl_ref width))
              true)
            s
          ≡ some (record s { at_gid_x = x }))
        × (x <ℤ s.at_offset_x +ℤ s.at_width)
        × ((s.at_offset_x ≤ℤ x) ⊎ (x ≡ s.at_gid_x))
        × (k : ℕ) × (s.at_gid_x ≡ x +ℤ times k s.at_width)
  unfolding exec add_repeat_upper while_loop lookup store value
  repeat_upper_x zero m s pos_w enough near = absurd (omega arith)
  repeat_upper_x (suc fuel) m s pos_w enough near =
      elim (Bool-cases (leb_ℤ (s.at_offset_x +ℤ s.at_width) s.at_gid_x)) [
        | inl over ↦
            let next = record s { at_gid_x = s.at_gid_x -ℤ s.at_width } in
            let some_left : 0 < m = grind int_laws in
            let nearer : s.at_gid_x -ℤ s.at_width <ℤ s.at_offset_x +ℤ s.at_width +ℤ pos (m - 1) =
              grind int_laws in
            let (x, ran, below, back, k, whole) =
              repeat_upper_x fuel (m - 1) next pos_w (omega arith) nearer in
            (
              x,
              rw over ran,
              below,
              inl (elim back [ inl reached ↦ reached | inr same ↦ rw same (grind int_laws) ]),
              suc k,
              (let back_again : s.at_gid_x ≡ s.at_gid_x -ℤ s.at_width +ℤ s.at_width =
                    grind int_laws in
                  back_again ∙ ap (λ v. v +ℤ s.at_width) whole ∙ grind int_laws),
            )
        | inr under ↦ (s.at_gid_x, rw under refl, grind int_laws, inr refl, 0, grind int_laws)
      ]

  pub repeat_lower_x :
      (fuel m : ℕ) (s : Env)
      → pos 0 <ℤ s.at_width
      → m < fuel
      → s.at_offset_x ≤ℤ s.at_gid_x +ℤ pos m
      → s.at_gid_x <ℤ s.at_offset_x +ℤ s.at_width
      → (x : ℤ) × (exec mem fuel (add_repeat_lower (decl_ref gid_x) (decl_ref offset_x) true) s
          ≡ some (record s { at_gid_x = x }))
        × (s.at_offset_x ≤ℤ x)
        × (x <ℤ s.at_offset_x +ℤ s.at_width)
        × (k : ℕ) × (s.at_gid_x +ℤ times k s.at_width ≡ x)
  unfolding exec add_repeat_lower while_loop lookup store value
  repeat_lower_x zero m s pos_w enough near below = absurd (omega arith)
  repeat_lower_x (suc fuel) m s pos_w enough near below =
      elim (Bool-cases (ltb_ℤ s.at_gid_x s.at_offset_x)) [
        | inl under ↦
            let next = record s { at_gid_x = s.at_gid_x +ℤ s.at_width } in
            let some_left : 0 < m = grind int_laws in
            let nearer : s.at_offset_x ≤ℤ s.at_gid_x +ℤ s.at_width +ℤ pos (m - 1) =
              grind int_laws in
            let still : s.at_gid_x +ℤ s.at_width <ℤ s.at_offset_x +ℤ s.at_width = grind int_laws in
            let (x, ran, reached, inside, k, whole) =
              repeat_lower_x fuel (m - 1) next pos_w (omega arith) nearer still in
            (
              x,
              rw under ran,
              reached,
              inside,
              suc k,
              (let regroup : s.at_gid_x +ℤ (s.at_width +ℤ times k s.at_width)
                      ≡ s.at_gid_x +ℤ s.at_width +ℤ times k s.at_width =
                    grind int_laws in
                  regroup ∙ whole),
            )
        | inr over ↦ (s.at_gid_x, rw over refl, grind int_laws, below, 0, grind int_laws)
      ]

  pub repeat_upper_y :
      (fuel m : ℕ) (s : Env)
      → pos 0 <ℤ s.at_height
      → m < fuel
      → s.at_gid_y <ℤ s.at_offset_y +ℤ s.at_height +ℤ pos m
      → (x : ℤ) × (exec mem fuel
            (add_repeat_upper
              (decl_ref gid_y)
              (binary_operator op_add (decl_ref offset_y) (decl_ref height))
              false)
            s
          ≡ some (record s { at_gid_y = x }))
        × (x <ℤ s.at_offset_y +ℤ s.at_height)
        × ((s.at_offset_y ≤ℤ x) ⊎ (x ≡ s.at_gid_y))
        × (k : ℕ) × (s.at_gid_y ≡ x +ℤ times k s.at_height)
  unfolding exec add_repeat_upper while_loop lookup store value
  repeat_upper_y zero m s pos_w enough near = absurd (omega arith)
  repeat_upper_y (suc fuel) m s pos_w enough near =
      elim (Bool-cases (leb_ℤ (s.at_offset_y +ℤ s.at_height) s.at_gid_y)) [
        | inl over ↦
            let next = record s { at_gid_y = s.at_gid_y -ℤ s.at_height } in
            let some_left : 0 < m = grind int_laws in
            let nearer : s.at_gid_y -ℤ s.at_height <ℤ s.at_offset_y +ℤ s.at_height +ℤ pos (m - 1) =
              grind int_laws in
            let (x, ran, below, back, k, whole) =
              repeat_upper_y fuel (m - 1) next pos_w (omega arith) nearer in
            (
              x,
              rw over ran,
              below,
              inl (elim back [ inl reached ↦ reached | inr same ↦ rw same (grind int_laws) ]),
              suc k,
              (let back_again : s.at_gid_y ≡ s.at_gid_y -ℤ s.at_height +ℤ s.at_height =
                    grind int_laws in
                  back_again ∙ ap (λ v. v +ℤ s.at_height) whole ∙ grind int_laws),
            )
        | inr under ↦ (s.at_gid_y, rw under refl, grind int_laws, inr refl, 0, grind int_laws)
      ]

  pub repeat_lower_y :
      (fuel m : ℕ) (s : Env)
      → pos 0 <ℤ s.at_height
      → m < fuel
      → s.at_offset_y ≤ℤ s.at_gid_y +ℤ pos m
      → s.at_gid_y <ℤ s.at_offset_y +ℤ s.at_height
      → (x : ℤ) × (exec mem fuel (add_repeat_lower (decl_ref gid_y) (decl_ref offset_y) false) s
          ≡ some (record s { at_gid_y = x }))
        × (s.at_offset_y ≤ℤ x)
        × (x <ℤ s.at_offset_y +ℤ s.at_height)
        × (k : ℕ) × (s.at_gid_y +ℤ times k s.at_height ≡ x)
  unfolding exec add_repeat_lower while_loop lookup store value
  repeat_lower_y zero m s pos_w enough near below = absurd (omega arith)
  repeat_lower_y (suc fuel) m s pos_w enough near below =
      elim (Bool-cases (ltb_ℤ s.at_gid_y s.at_offset_y)) [
        | inl under ↦
            let next = record s { at_gid_y = s.at_gid_y +ℤ s.at_height } in
            let some_left : 0 < m = grind int_laws in
            let nearer : s.at_offset_y ≤ℤ s.at_gid_y +ℤ s.at_height +ℤ pos (m - 1) =
              grind int_laws in
            let still : s.at_gid_y +ℤ s.at_height <ℤ s.at_offset_y +ℤ s.at_height =
              grind int_laws in
            let (x, ran, reached, inside, k, whole) =
              repeat_lower_y fuel (m - 1) next pos_w (omega arith) nearer still in
            (
              x,
              rw under ran,
              reached,
              inside,
              suc k,
              (let regroup : s.at_gid_y +ℤ (s.at_height +ℤ times k s.at_height)
                      ≡ s.at_gid_y +ℤ s.at_height +ℤ times k s.at_height =
                    grind int_laws in
                  regroup ∙ whole),
            )
        | inr over ↦ (s.at_gid_y, rw over refl, grind int_laws, below, 0, grind int_laws)
      ]
