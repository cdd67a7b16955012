-- ===== src/Boundary/Modes.antt =====
-- lib/AST/BorderHandling.cpp: what one statement of the clamp and mirror modes makes of an index.
use hipacc_vivado.Prelude.{ℕ, ◌≡◌, true, false, if◌then◌else◌, Bool-cases, inl, inr, some}
use hipacc_vivado.Prelude.Int.{ℤ, pos, ◌+ℤ◌, ◌-ℤ◌, ◌<ℤ◌, leb_ℤ, ltb_ℤ, int_laws}
use hipacc_vivado.Border.{border_clamp, border_mirror}
use hipacc_vivado.Border.Coords.{reflect}
use hipacc_vivado.Boundary.{
  gid_x, gid_y, offset_x, offset_y, width, height, op_add, Env, lookup, store, decl_ref,
  binary_operator, exec, value, add_clamp_upper, add_clamp_lower, add_mirror_upper,
  add_mirror_lower,
}

-- The new index: `o` is the lower bound, `w` the size, `c` the index.
abbrev pub clamp_high : ℤ → ℤ → ℤ → ℤ
clamp_high o w c = if leb_ℤ (o +ℤ w) c then o +ℤ w -ℤ pos 1 else c

abbrev pub clamp_low : ℤ → ℤ → ℤ
clamp_low o c = if ltb_ℤ c o then o else c

abbrev pub mirror_high : ℤ → ℤ → ℤ → ℤ
mirror_high o w c = if leb_ℤ (o +ℤ w) c then o +ℤ w -ℤ (c +ℤ pos 1 -ℤ (o +ℤ w)) else c

abbrev pub mirror_low : ℤ → ℤ → ℤ
mirror_low o c = if ltb_ℤ c o then o +ℤ (o -ℤ c -ℤ pos 1) else c

-- The two stages together are the padding mode of the streaming operators.
pub clamp-reflect :
    (o w c : ℤ) → pos 0 <ℤ w → clamp_low o (clamp_high o w c) ≡ o +ℤ reflect border_clamp w (c -ℤ o)
unfolding reflect
clamp-reflect o w c pos_w = grind int_laws

mirror_below :
    (o w c : ℤ)
    → pos 0 <ℤ w
    → ltb_ℤ c o ≡ true
    → mirror_low o (mirror_high o w c) ≡ o +ℤ reflect border_mirror w (c -ℤ o)
unfolding reflect
mirror_below o w c pos_w below =
    let stays : leb_ℤ (o +ℤ w) c ≡ false = grind int_laws in
    let left_side : ltb_ℤ (c -ℤ o) (pos 0) ≡ true = grind int_laws in
    rw (stays, below, left_side) (grind int_laws)

mirror_beyond :
    (o w c : ℤ)
    → pos 0 <ℤ w
    → c <ℤ o +ℤ (w +ℤ w)
    → leb_ℤ (o +ℤ w) c ≡ true
    → mirror_low o (mirror_high o w c) ≡ o +ℤ reflect border_mirror w (c -ℤ o)
unfolding reflect
mirror_beyond o w c pos_w near beyond =
    let stays : ltb_ℤ (o +ℤ w -ℤ (c +ℤ pos 1 -ℤ (o +ℤ w))) o ≡ false = grind int_laws in
    let not_left : ltb_ℤ (c -ℤ o) (pos 0) ≡ false = grind int_laws in
    let right_side : leb_ℤ w (c -ℤ o) ≡ true = grind int_laws in
    rw (beyond, stays, not_left, right_side) (grind int_laws)

mirror_between :
    (o w c : ℤ)
    → ltb_ℤ c o ≡ false
    → leb_ℤ (o +ℤ w) c ≡ false
    → mirror_low o (mirror_high o w c) ≡ o +ℤ reflect border_mirror w (c -ℤ o)
unfolding reflect
mirror_between o w c above between =
    let not_left : ltb_ℤ (c -ℤ o) (pos 0) ≡ false = grind int_laws in
    let not_right : leb_ℤ w (c -ℤ o) ≡ false = grind int_laws in
    rw (between, above, not_left, not_right) (grind int_laws)

pub mirror-reflect :
    (o w c : ℤ)
    → pos 0 <ℤ w
    → c <ℤ o +ℤ (w +ℤ w)
    → mirror_low o (mirror_high o w c) ≡ o +ℤ reflect border_mirror w (c -ℤ o)
mirror-reflect o w c pos_w near = elim (Bool-cases (ltb_ℤ c o)) [
  | inl below ↦ mirror_below o w c pos_w below
  | inr above ↦ elim (Bool-cases (leb_ℤ (o +ℤ w) c)) [
    | inl beyond ↦ mirror_beyond o w c pos_w near beyond
    | inr between ↦ mirror_between o w c above between
  ]
]

module _ (mem : ℤ → ℤ → ℤ) (fuel : ℕ) (s : Env) where
  pub exec-add_clamp_upper_x :
      exec mem fuel
        (add_clamp_upper
          (decl_ref gid_x)
          (binary_operator op_add (decl_ref offset_x) (decl_ref width))
          true)
        s
      ≡ some (record s { at_gid_x = clamp_high s.at_offset_x s.at_width s.at_gid_x })
  unfolding exec add_clamp_upper lookup store value
  exec-add_clamp_upper_x = elim (Bool-cases (leb_ℤ (s.at_offset_x +ℤ s.at_width) s.at_gid_x)) [
    | inl over ↦ rw over
    | inr inside ↦ rw inside
  ]

  pub exec-add_clamp_lower_x :
      exec mem fuel (add_clamp_lower (decl_ref gid_x) (decl_ref offset_x) true) s
      ≡ some (record s { at_gid_x = clamp_low s.at_offset_x s.at_gid_x })
  unfolding exec add_clamp_lower lookup store value
  exec-add_clamp_lower_x = elim (Bool-cases (ltb_ℤ s.at_gid_x s.at_offset_x)) [
    | inl over ↦ rw over
    | inr inside ↦ rw inside
  ]

  pub exec-add_mirror_upper_x :
      exec mem fuel
        (add_mirror_upper
          (decl_ref gid_x)
          (binary_operator op_add (decl_ref offset_x) (decl_ref width))
          true)
        s
      ≡ some (record s { at_gid_x = mirror_high s.at_offset_x s.at_width s.at_gid_x })
  unfolding exec add_mirror_upper lookup store value
  exec-add_mirror_upper_x = elim (Bool-cases (leb_ℤ (s.at_offset_x +ℤ s.at_width) s.at_gid_x)) [
    | inl over ↦ rw over
    | inr inside ↦ rw inside
  ]

  pub exec-add_mirror_lower_x :
      exec mem fuel (add_mirror_lower (decl_ref gid_x) (decl_ref offset_x) true) s
      ≡ some (record s { at_gid_x = mirror_low s.at_offset_x s.at_gid_x })
  unfolding exec add_mirror_lower lookup store value
  exec-add_mirror_lower_x = elim (Bool-cases (ltb_ℤ s.at_gid_x s.at_offset_x)) [
    | inl over ↦ rw over
    | inr inside ↦ rw inside
  ]

  pub exec-add_clamp_upper_y :
      exec mem fuel
        (add_clamp_upper
          (decl_ref gid_y)
          (binary_operator op_add (decl_ref offset_y) (decl_ref height))
          false)
        s
      ≡ some (record s { at_gid_y = clamp_high s.at_offset_y s.at_height s.at_gid_y })
  unfolding exec add_clamp_upper lookup store value
  exec-add_clamp_upper_y = elim (Bool-cases (leb_ℤ (s.at_offset_y +ℤ s.at_height) s.at_gid_y)) [
    | inl over ↦ rw over
    | inr inside ↦ rw inside
  ]

  pub exec-add_clamp_lower_y :
      exec mem fuel (add_clamp_lower (decl_ref gid_y) (decl_ref offset_y) false) s
      ≡ some (record s { at_gid_y = clamp_low s.at_offset_y s.at_gid_y })
  unfolding exec add_clamp_lower lookup store value
  exec-add_clamp_lower_y = elim (Bool-cases (ltb_ℤ s.at_gid_y s.at_offset_y)) [
    | inl over ↦ rw over
    | inr inside ↦ rw inside
  ]

  pub exec-add_mirror_upper_y :
      exec mem fuel
        (add_mirror_upper
          (decl_ref gid_y)
          (binary_operator op_add (decl_ref offset_y) (decl_ref height))
          false)
        s
      ≡ some (record s { at_gid_y = mirror_high s.at_offset_y s.at_height s.at_gid_y })
  unfolding exec add_mirror_upper lookup store value
  exec-add_mirror_upper_y = elim (Bool-cases (leb_ℤ (s.at_offset_y +ℤ s.at_height) s.at_gid_y)) [
    | inl over ↦ rw over
    | inr inside ↦ rw inside
  ]

  pub exec-add_mirror_lower_y :
      exec mem fuel (add_mirror_lower (decl_ref gid_y) (decl_ref offset_y) false) s
      ≡ some (record s { at_gid_y = mirror_low s.at_offset_y s.at_gid_y })
  unfolding exec add_mirror_lower lookup store value
  exec-add_mirror_lower_y = elim (Bool-cases (ltb_ℤ s.at_gid_y s.at_offset_y)) [
    | inl over ↦ rw over
    | inr inside ↦ rw inside
  ]
