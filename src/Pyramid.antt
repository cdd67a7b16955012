-- ===== src/Pyramid.antt =====
-- runtime/hipacc_vivado_filter.hpp, the pyramid operators `downsample` and `upsample`: a local
-- operator that writes only some results, or reads only some pixels. The factor is positive: the
-- remainder by 0 is undefined in the source.
pub mod Vector
pub mod Repeats
pub mod Doubled
pub mod Down
pub mod Up
mod Tests
use package.hipacc_vivado.Prelude.{
  ℕ, ◌-◌, ◌/◌, ◌%◌, Bool, ◌&&◌, ◌==◌, if◌then◌else◌, Outcome, done, List,
}
use package.hipacc_vivado.Border.{BorderPadding}
use package.hipacc_vivado.Window.{Buffers}
use package.hipacc_vivado.Local.{Streams, read_in, write_out, checked, scan}

-- `row%factor == mod && col%factor == mod`
abbrev pub on_lattice : ℕ → ℕ → ℕ → ℕ → Bool
on_lattice factor phase row col = (row % factor == phase) && (col % factor == phase)

module _ {A B : Type 0} (max_width max_height k width height factor : ℕ) where
  -- `downsample`, with a kernel of `k * k` entries
  unfoldable pub downsample :
      (List (List A) → B)
      → BorderPadding
      → Buffers A × Streams A B
      → Outcome (Buffers A × Streams A B)
  downsample filter padding s =
      let phase = (k / 2) % 2 in
      checked max_width max_height k k width height (
        scan max_width max_height k k width height padding (λ row col. read_in)
          (λ row col win t. if on_lattice factor phase row col then write_out (filter win) t else t)
          s)

  -- `upsample`; `zero_pixel` is the pixel 0. The filter also gets `col` and `row`.
  unfoldable pub upsample :
      A
      → (List (List A) → ℕ → ℕ → B)
      → BorderPadding
      → Buffers A × Streams A B
      → Outcome (Buffers A × Streams A B)
  upsample zero_pixel filter padding s =
      let phase = factor - 1 in
      checked max_width max_height k k width height (
        scan max_width max_height k k width height padding
          (λ row col t. if on_lattice factor phase row col then read_in t else done (zero_pixel, t))
          (λ row col win. write_out (filter win col row)) s)
