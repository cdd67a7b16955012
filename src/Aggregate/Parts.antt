-- ===== src/Aggregate/Parts.antt =====
-- runtime/hipacc_vivado_filter.hpp, `split_L`, `split_C` and `split_R`: what a part looks like to a local
-- operator.
use hipacc_vivado.Prelude.{
  ℕ, ◌+◌, ◌-◌, ◌*◌, ◌/◌, ◌%◌, ◌≤◌, ◌<◌, ◌≡◌, refl, arith, true, ltb, le→leb, ≡→==, done, List, [],
  ◌∷◌, ◌++◌,
}
use hipacc_vivado.Local.Images.{raster}
use hipacc_vivado.Distribute.{kernel_apron}
use hipacc_vivado.Aggregate.{
  lane_up, lane_down, writes_l, writes_c, writes_r, split_l, split_c, split_r,
}
use hipacc_vivado.Aggregate.Overlap.{overlaps}
use hipacc_vivado.Aggregate.Windows.{window, split_loop-window}

-- Vectors and pixels of a line.
line_lem :
    (q a vect : ℕ)
    → 0 < a
    → (q * vect + a * vect ≡ (q + a) * vect)
      × (q * vect + 2 * a * vect ≡ (q + 2 * a) * vect)
      × ((q + 2 * a) * vect ≡ q * vect + a * vect + a * vect)
      × ((2 * a - 1) * vect ≡ a * vect + (a - 1) * vect)
line_lem q a vect some =
    let more : a ≡ (a - 1) + 1 = omega arith in
    let one_less : 2 * a - 1 ≡ a + (a - 1) = omega arith in
    (grind arith, grind arith, grind arith, rw one_less (grind arith))

-- A part of `q` vectors to the line, which fits, with the vectors of an apron on each side, and an odd
-- kernel of more than one column. `split_C` returns, reads the part and no more, and writes line by line
-- the pixels of the part with the radius of the kernel on each side.
pub split_c-window :
    {V A : Type 0} (range : V → ℕ → ℕ → A) (w vect max_width max_height kernel_size q height : ℕ)
    (img : ℕ → ℕ → V) (rest : List V) (before : List A) (temp : V)
    → 0 < vect
    → kernel_size % 2 ≡ 1
    → 0 < kernel_size / 2
    → q * vect ≤ max_width
    → height ≤ max_height
    → (temp' : V) × (split_c range w vect max_width max_height kernel_size (q * vect) height (
      temp,
      record {
        in_s =
            raster height (q + 2 * (kernel_apron vect kernel_size)) (λ y k. img y k ∷ []) ++ rest;
        out_s = before;
      },
    )
        ≡ done (
          temp',
          record {
            in_s = rest;
            out_s =
                before
                ++ window height vect
                    (kernel_apron vect kernel_size * vect - kernel_size / 2)
                    (q * vect + 2 * (kernel_size / 2))
                    (lane_down range w)
                    img;
          },
        ))
unfolding split_c writes_c
split_c-window range w vect max_width max_height kernel_size q height img rest before temp pos odd
      some fits_x fits_y =
    let a = kernel_apron vect kernel_size in
    let (left, right, more) = overlaps (kernel_size / 2) vect kernel_size refl some pos in
    let (once, total, twice, double) = line_lem q a vect more in
    let (temp', ran) =
      split_loop-window vect (q + 2 * (a)) height (q * vect + 2 * a * vect)
        (a * vect - kernel_size / 2) (q * vect + 2 * (kernel_size / 2)) (λ col. true)
        (writes_c vect kernel_size (q * vect)) (lane_down range w) img rest before temp pos
        (omega arith) (omega arith) (λ col l. ground arith) (λ col. rw double (ground arith)) in
    (
      temp',
      rw
          (
            le→leb (q * vect) (max_width + 2 * a) (omega arith),
            le→leb height max_height fits_y,
            ≡→== (kernel_size % 2) 1 odd,
          )
          ran,
    )

-- A part of `q` vectors to the line, which fits, with the vectors of an apron on its right, and an odd
-- kernel of more than one column. `split_L` returns, reads the part and no more, and writes line by line
-- the pixels of the part with the radius of the kernel on its right.
pub split_l-window :
    {V A : Type 0} (range : V → ℕ → ℕ → A) (w vect max_width max_height kernel_size q height : ℕ)
    (img : ℕ → ℕ → V) (rest : List V) (before : List A) (temp : V)
    → 0 < vect
    → kernel_size % 2 ≡ 1
    → 0 < kernel_size / 2
    → q * vect ≤ max_width
    → height ≤ max_height
    → (temp' : V) × (split_l range w vect max_width max_height kernel_size (q * vect) height (
      temp,
      record {
        in_s = raster height (q + kernel_apron vect kernel_size) (λ y k. img y k ∷ []) ++ rest;
        out_s = before;
      },
    )
        ≡ done (
          temp',
          record {
            in_s = rest;
            out_s =
                before ++ window height vect 0 (q * vect + kernel_size / 2) (lane_up range w) img;
          },
        ))
unfolding split_l writes_l
split_l-window range w vect max_width max_height kernel_size q height img rest before temp pos odd
      some fits_x fits_y =
    let a = kernel_apron vect kernel_size in
    let (left, right, more) = overlaps (kernel_size / 2) vect kernel_size refl some pos in
    let (once, total, twice, double) = line_lem q a vect more in
    let (temp', ran) =
      split_loop-window vect (q + a) height (q * vect + 2 * a * vect) 0 (q * vect + kernel_size / 2)
        (λ col. ltb col (q * vect + a * vect)) (writes_l vect kernel_size (q * vect))
        (lane_up range w) img rest before temp pos (omega arith) (omega arith)
        (λ col l. rw once refl) (λ col. ground arith) in
    (
      temp',
      rw
          (
            le→leb (q * vect) (max_width + a) (omega arith),
            le→leb height max_height fits_y,
            ≡→== (kernel_size % 2) 1 odd,
          )
          ran,
    )

-- A part of `q` vectors to the line, which fits, with the vectors of an apron on its left, and an odd
-- kernel of more than one column. `split_R` returns, reads the part and no more, and writes line by line
-- the pixels of the part with the radius of the kernel on its left.
pub split_r-window :
    {V A : Type 0} (range : V → ℕ → ℕ → A) (w vect max_width max_height kernel_size q height : ℕ)
    (img : ℕ → ℕ → V) (rest : List V) (before : List A) (temp : V)
    → 0 < vect
    → kernel_size % 2 ≡ 1
    → 0 < kernel_size / 2
    → q * vect ≤ max_width
    → height ≤ max_height
    → (temp' : V) × (split_r range w vect max_width max_height kernel_size (q * vect) height (
      temp,
      record {
        in_s = raster height (q + kernel_apron vect kernel_size) (λ y k. img y k ∷ []) ++ rest;
        out_s = before;
      },
    )
        ≡ done (
          temp',
          record {
            in_s = rest;
            out_s =
                before
                ++ window height vect
                    (kernel_apron vect kernel_size * vect - kernel_size / 2)
                    (q * vect + kernel_size / 2)
                    (lane_down range w)
                    img;
          },
        ))
unfolding split_r writes_r
split_r-window range w vect max_width max_height kernel_size q height img rest before temp pos odd
      some fits_x fits_y =
    let a = kernel_apron vect kernel_size in
    let (left, right, more) = overlaps (kernel_size / 2) vect kernel_size refl some pos in
    let (once, total, twice, double) = line_lem q a vect more in
    let (temp', ran) =
      split_loop-window vect (q + a) height (q * vect + 2 * a * vect) (a * vect - kernel_size / 2)
        (q * vect + kernel_size / 2) (λ col. ltb col (q * vect + a * vect))
        (writes_r vect kernel_size (q * vect)) (lane_down range w) img rest before temp pos
        (omega arith) (omega arith) (λ col l. rw once refl) (λ col. ground arith) in
    (
      temp',
      rw
          (
            le→leb (q * vect) (max_width + a) (omega arith),
            le→leb height max_height fits_y,
            ≡→== (kernel_size % 2) 1 odd,
          )
          ran,
    )
