-- ===== src/Aggregate.antt =====
-- runtime/hipacc_vivado_filter.hpp, `split_L` to `splitF_R`, `assemble` and `assembleF`: the vectors of a part
-- of an image are split into pixels for a local operator, and its results put together to vectors.
--
-- A vector is an `ap_uint`, which is not part of the repository: `range v a b` stands for the value of
-- `v(a, b)`, in the order of the source, and `set_range v a b x` for the assignment `v(a, b) = x`.
-- `i2f` and `f2i` turn bits into a float and back.
pub mod Overlap
pub mod Blocks
pub mod Rows
pub mod Windows
pub mod Parts
pub mod Assembled
pub mod Whole
mod Tests
use package.hipacc_vivado.Prelude.{
  ℕ, suc, ◌+◌, ◌-◌, ◌*◌, ◌/◌, ◌%◌, Bool, true, ◌&&◌, ltb, leb, ◌==◌, if◌then◌else◌, Outcome, done,
  ◌>>=◌, ◌>>◌, assert, for_up,
}
use package.hipacc_vivado.Local.{Streams, read_in, write_out}
use package.hipacc_vivado.Distribute.{kernel_apron}

-- `LEFT`: what of the first vector of a line is not part of the apron.
unfoldable pub left_overlap : ℕ → ℕ → ℕ
left_overlap vect kernel_size =
    if (kernel_size / 2) % vect == 0 then 0 else vect - (kernel_size / 2) % vect

-- `RIGHT`: what of the last vector of a line is part of the apron.
unfoldable pub right_overlap : ℕ → ℕ → ℕ
right_overlap vect kernel_size =
    if (kernel_size / 2) % vect == 0 then vect else (kernel_size / 2) % vect

-- A vector variable and the streams. A step reads a vector in its first lane, where `reads` holds, and
-- writes `lane` of it where `writes` holds too.
module _ {V A : Type 0} (vect : ℕ) where
  unfoldable pub next_vector : ℕ → V × Streams V A → Outcome (V × Streams V A)
  next_vector col (temp, t) = if col % vect == 0 then read_in t else done (temp, t)

  module _ (reads writes : ℕ → Bool) (lane : V → ℕ → A) where
    unfoldable pub split_step : ℕ → V × Streams V A → Outcome (V × Streams V A)
    split_step col s =
        if reads col
        then (next_vector col s >>= λ (temp, t).
            done (temp, if writes col then write_out (lane temp (col % vect)) t else t))
        else done s

    unfoldable pub split_loop : ℕ → ℕ → V × Streams V A → Outcome (V × Streams V A)
    split_loop columns height = for_up height 0 (λ row. for_up columns 0 split_step)

abbrev pub split_checked : {S : Type 0} → Bool → Bool → ℕ → Outcome S → Outcome S
split_checked fits_width fits_height kernel_size body = do
  assert fits_width
  assert fits_height
  assert (kernel_size % 2 == 1)
  body

module _ {V A : Type 0} (range : V → ℕ → ℕ → A) (w : ℕ) where
  -- The two orders of the bounds of a lane.
  abbrev pub lane_up : V → ℕ → A
  lane_up temp i = range temp (i * w) ((i + 1) * w - 1)

  abbrev pub lane_down : V → ℕ → A
  lane_down temp i = range temp ((i + 1) * w - 1) (i * w)

module _ (vect kernel_size width : ℕ) where
  abbrev ap : ℕ
  ap = kernel_apron vect kernel_size

  -- The columns that are written.
  unfoldable pub writes_l : ℕ → Bool
  writes_l col = ltb col (width + (ap - 1) * vect + right_overlap vect kernel_size)

  unfoldable pub writes_c : ℕ → Bool
  writes_c col =
      leb (left_overlap vect kernel_size) col
      && ltb col (width + (2 * ap - 1) * vect + right_overlap vect kernel_size)

  unfoldable pub writes_r : ℕ → Bool
  writes_r col = leb (left_overlap vect kernel_size) col && ltb col (width + ap * vect)

module _ {V A : Type 0} (range : V → ℕ → ℕ → A)
    (w vect max_width max_height kernel_size width height : ℕ) where
  abbrev apron_vectors : ℕ
  apron_vectors = kernel_apron vect kernel_size

  unfoldable pub split_l : V × Streams V A → Outcome (V × Streams V A)
  split_l s =
      split_checked (leb width (max_width + apron_vectors)) (leb height max_height) kernel_size (
        split_loop vect (λ col. ltb col (width + apron_vectors * vect))
          (writes_l vect kernel_size width) (lane_up range w) (width + 2 * apron_vectors * vect)
          height s)

  unfoldable pub split_c : V × Streams V A → Outcome (V × Streams V A)
  split_c s =
      split_checked (leb width (max_width + 2 * apron_vectors)) (leb height max_height) kernel_size
        (split_loop vect (λ col. true) (writes_c vect kernel_size width) (lane_down range w)
          (width + 2 * apron_vectors * vect) height s)

  unfoldable pub split_r : V × Streams V A → Outcome (V × Streams V A)
  split_r s =
      split_checked (leb width (max_width + apron_vectors)) (leb height max_height) kernel_size (
        split_loop vect (λ col. ltb col (width + apron_vectors * vect))
          (writes_r vect kernel_size width) (lane_down range w) (width + 2 * apron_vectors * vect)
          height s)

-- The variants for floats convert a lane before it is written.
module _ {V I A : Type 0} (i2f : I → A) (range : V → ℕ → ℕ → I)
    (w vect max_width max_height kernel_size width height : ℕ) where
  abbrev float_range : V → ℕ → ℕ → A
  float_range v a b = i2f (range v a b)

  unfoldable pub split_f_l : V × Streams V A → Outcome (V × Streams V A)
  split_f_l = split_l float_range w vect max_width max_height kernel_size width height

  unfoldable pub split_f_c : V × Streams V A → Outcome (V × Streams V A)
  split_f_c = split_c float_range w vect max_width max_height kernel_size width height

  unfoldable pub split_f_r : V × Streams V A → Outcome (V × Streams V A)
  split_f_r = split_r float_range w vect max_width max_height kernel_size width height

module _ {U A B : Type 0} (conv : A → B) (set_range : U → ℕ → ℕ → B → U)
    (w vect max_width max_height kernel_size width height : ℕ) where
  unfoldable pub assemble_step : ℕ → U × Streams A U → Outcome (U × Streams A U)
  assemble_step col (temp, t) =
      if ltb col width
      then (read_in t >>= λ (x, t').
          let filled = set_range temp ((col % vect) * w) ((col % vect + 1) * w - 1) (conv x) in
          done (filled, if col % vect == vect - 1 then write_out filled t' else t'))
      else done (temp, t)

  unfoldable pub assemble_with : U × Streams A U → Outcome (U × Streams A U)
  assemble_with s = split_checked (leb width max_width) (leb height max_height) kernel_size (
      for_up height 0
        (λ row. for_up (width + 2 * (kernel_apron vect kernel_size) * vect) 0 assemble_step) s)

-- `assemble`, and `assembleF`, which converts each pixel.
unfoldable pub assemble :
    {U A : Type 0}
    → (U → ℕ → ℕ → A → U)
    → ℕ
    → ℕ
    → ℕ
    → ℕ
    → ℕ
    → ℕ
    → ℕ
    → U × Streams A U
    → Outcome (U × Streams A U)
assemble set_range = assemble_with (λ x. x) set_range

unfoldable pub assemble_f :
    {U A B : Type 0}
    → (A → B)
    → (U → ℕ → ℕ → B → U)
    → ℕ
    → ℕ
    → ℕ
    → ℕ
    → ℕ
    → ℕ
    → ℕ
    → U × Streams A U
    → Outcome (U × Streams A U)
assemble_f f2i set_range = assemble_with f2i set_range
