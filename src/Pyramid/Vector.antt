-- ===== src/Pyramid/Vector.antt =====
-- runtime/hipacc_vivado_filter.hpp, `upsampleVECT` and `downsampleVECT`, which are to double
-- and to halve an image of vectors.
--
-- A vector is an `ap_uint`, which is not part of the repository: `range v a b` stands for the value of
-- `v(a, b)`, `set_range v a b x` for the assignment `v(a, b) = x`, and `nil` for the vector 0. `convert` is
-- the conversion from `IN`, the type of both variables, to `OUT`, the type of the elements of `out_s`.
use package.hipacc_vivado.Prelude.{
  ℕ, ◌+◌, ◌-◌, ◌*◌, ◌/◌, ◌%◌, ◌&&◌, ltb, leb, ◌==◌, if◌then◌else◌, Outcome, done, ◌>>=◌, ◌>>◌,
  assert, for_up, loop,
}
use package.hipacc_vivado.Local.{Streams, read_in, write_out}
use package.hipacc_vivado.Vectors.{gdelay_x_v}

-- `in_pixel`, `out_pixel` and the streams.
pub record Doubling (V U : Type 0) : Type 0 where
  pub in_pixel : V
  pub out_pixel : V
  pub streams : Streams V U

module _ {V U A : Type 0} (convert : V → U) (range : V → ℕ → ℕ → A) (set_range : V → ℕ → ℕ → A → V)
    (nil : V) (w vect max_width max_height kernel_size width height : ℕ) where
  -- The lanes from `first` on, into every second lane.
  unfoldable pub spread : ℕ → V → V
  spread first in_pixel =
      loop (vect / 2) 0
        (λ i out_pixel.
          set_range out_pixel ((i * 2) * w) ((i * 2 + 1) * w - 1)
            (range in_pixel ((i + first) * w) ((i + first + 1) * w - 1)))
        nil

  unfoldable pub upsample_vect_step : ℕ → ℕ → Doubling V U → Outcome (Doubling V U)
  upsample_vect_step row col s =
      if ltb col width && ltb row height
      then (if col % 2 == 0 && row % 2 == 0
          then (read_in s.streams >>= λ (x, t).
              done (record {
                in_pixel = x;
                out_pixel = spread 0 x;
                streams = write_out (convert x) t;
              }))
          else done (record s {
            out_pixel = spread (vect / 2) s.in_pixel;
            streams = write_out (convert s.in_pixel) s.streams;
          }))
      else done s

  -- `upsampleVECT`
  unfoldable pub upsample_vect : Doubling V U → Outcome (Doubling V U)
  upsample_vect s = do
    assert (leb width max_width)
    assert (leb height max_height)
    for_up (max_height + kernel_size / 2) 0
        (λ row. for_up (max_width + gdelay_x_v kernel_size vect) 0 (upsample_vect_step row)) s

  -- An iteration of `downsampleVECT`: the even lanes of a vector fill half of the one to be written.
  unfoldable pub gather_lanes : ℕ → V → V → V
  gather_lanes first in_pixel = loop (vect / 2) 0 (λ i out_pixel.
      set_range out_pixel ((i + first) * w) ((i + first + 1) * w - 1)
        (range in_pixel ((i * 2) * w) ((i * 2 + 1) * w - 1)))

  unfoldable pub downsample_vect_step : ℕ → ℕ → Doubling V U → Outcome (Doubling V U)
  downsample_vect_step row col s =
      if ltb col width && ltb row height
      then (read_in s.streams >>= λ (x, t).
          if col % 2 == 0 && row % 2 == 0
          then done (record { in_pixel = x; out_pixel = gather_lanes 0 x s.out_pixel; streams = t })
          else (let out = gather_lanes (vect / 2) x s.out_pixel in
              done (record { in_pixel = x; out_pixel = out; streams = write_out (convert out) t })))
      else done s

  unfoldable pub downsample_vect : Doubling V U → Outcome (Doubling V U)
  downsample_vect s = do
    assert (leb width max_width)
    assert (leb height max_height)
    for_up (max_height + kernel_size / 2) 0
        (λ row. for_up (max_width + gdelay_x_v kernel_size vect) 0 (downsample_vect_step row)) s
