-- ===== src/Vectors.antt =====
-- runtime/hipacc_vivado_filter.hpp, the point operators and the stream copies on vectors of pixels:
-- `processPixelsVECT`, `processPixels2VECT`, `processPixels3VECT` with their variants for floats, and
-- `splitStreamVECT`, `splitStream3VECT`, `splitStream4VECT`.
--
-- A vector is an `ap_uint`, which is not part of the repository: `range v lo hi` stands for the value
-- of `v(lo, hi)`, `set_range v lo hi b` for the assignment `v(lo, hi) = b`, and `uninit` for the
-- vector that is declared without a value.
pub mod Loop
pub mod Pixels
pub mod Floats
pub mod Split
pub mod Lanes
pub mod Bits
mod Tests
use package.hipacc_vivado.Prelude.{
  ℕ, suc, ◌+◌, ◌-◌, ◌*◌, ◌/◌, ◌%◌, ltb, leb, ◌==◌, if◌then◌else◌, Outcome, done, ◌>>=◌, ◌>>◌,
  assert, for_up, loop,
}
use package.hipacc_vivado.Local.{Streams}
use package.hipacc_vivado.Points.{
  Streams2, Streams3, SplitStreams, SplitStreams3, SplitStreams4, pixel_step, pixel_step2,
  pixel_step3, split_step, split_step3, split_step4,
}

-- `GDELAY_X_V`, by way of `KERNEL_SIZE_X_V`
unfoldable pub gdelay_x_v : ℕ → ℕ → ℕ
gdelay_x_v kx vect =
    let gdelay_x = kx / 2 in
    let kernel_size_x_v =
      if ltb vect gdelay_x
      then (if gdelay_x % vect == 0 then gdelay_x / vect else gdelay_x / vect + 1) * 2 + 1
      else kx in
    kernel_size_x_v / 2

-- The rounds of a loop `for (x = 0; x < n; x += vect)`.
unfoldable pub strides : ℕ → ℕ → ℕ
strides vect n = (n + vect - 1) / vect

unfoldable pub vector_loop : {S : Type 0} → ℕ → ℕ → ℕ → ℕ → (S → Outcome S) → S → Outcome S
vector_loop vect width height gdelay step = for_up height 0 (λ y.
    for_up (strides vect (width + gdelay)) 0
      (λ k s. if leb width (k * vect) then done s else step s))

-- The asserts and the loop of these operators.
unfoldable pub vector_operator :
    {S : Type 0} → ℕ → ℕ → ℕ → ℕ → ℕ → ℕ → (S → Outcome S) → S → Outcome S
vector_operator max_width max_height kx vect width height step s = do
  assert (leb width max_width)
  assert (leb height max_height)
  vector_loop vect width height (gdelay_x_v kx vect) step s

module _ {V U A B : Type 0} (range : V → ℕ → ℕ → A) (set_range : U → ℕ → ℕ → B → U) (uninit : U)
    (bw_in bw_out vect : ℕ) where
  -- Lane `i` of a vector that has been read.
  unfoldable pub lane : V → ℕ → A
  lane val i = range val (i * (bw_in / vect)) (suc i * (bw_in / vect) - 1)

  -- `for (i = 0; i < VECT; i++) out_val(…) = result i`
  unfoldable pub fill : (ℕ → B) → U
  fill result =
      loop vect 0
        (λ i out_val.
          set_range out_val (i * (bw_out / vect)) (suc i * (bw_out / vect) - 1) (result i))
        uninit

  -- What an iteration writes for the vectors that it has read.
  unfoldable pub vector_filter : (A → B) → V → U
  unfolding lane fill
  vector_filter filter val = fill (λ i. filter (lane val i))

  unfoldable pub vector_filter2 : (A → A → B) → V → V → U
  unfolding lane fill
  vector_filter2 filter val1 val2 = fill (λ i. filter (lane val1 i) (lane val2 i))

  unfoldable pub vector_filter3 : (A → A → A → B) → V → V → V → U
  unfolding lane fill
  vector_filter3 filter val1 val2 val3 =
      fill (λ i. filter (lane val1 i) (lane val2 i) (lane val3 i))

  module _ (max_width max_height kx width height : ℕ) where
    -- `processPixelsVECT`
    unfoldable pub process_pixels_vect : (A → B) → Streams V U → Outcome (Streams V U)
    process_pixels_vect filter =
        vector_operator max_width max_height kx vect width height
          (pixel_step (vector_filter filter))

    -- `processPixels2VECT`
    unfoldable pub process_pixels2_vect : (A → A → B) → Streams2 V U → Outcome (Streams2 V U)
    process_pixels2_vect filter =
        vector_operator max_width max_height kx vect width height
          (pixel_step2 (vector_filter2 filter))

    -- `processPixels3VECT`
    unfoldable pub process_pixels3_vect : (A → A → A → B) → Streams3 V U → Outcome (Streams3 V U)
    process_pixels3_vect filter =
        vector_operator max_width max_height kx vect width height
          (pixel_step3 (vector_filter3 filter))

    -- The variants for floats, that `i2f` and `f2i` store in the lanes.
    unfoldable pub process_pixels_vectf :
        {F : Type 0} → (A → F) → (F → B) → (F → F) → Streams V U → Outcome (Streams V U)
    unfolding process_pixels_vect
    process_pixels_vectf i2f f2i filter = process_pixels_vect (λ x. f2i (filter (i2f x)))

    unfoldable pub process_pixels2_vectf :
        {F : Type 0} → (A → F) → (F → B) → (F → F → F) → Streams2 V U → Outcome (Streams2 V U)
    unfolding process_pixels2_vect
    process_pixels2_vectf i2f f2i filter =
        process_pixels2_vect (λ x y. f2i (filter (i2f x) (i2f y)))

    unfoldable pub process_pixels3_vectf :
        {F : Type 0} → (A → F) → (F → B) → (F → F → F → F) → Streams3 V U → Outcome (Streams3 V U)
    unfolding process_pixels3_vect
    process_pixels3_vectf i2f f2i filter =
        process_pixels3_vect (λ x y z. f2i (filter (i2f x) (i2f y) (i2f z)))

module _ (max_width max_height kx vect width height : ℕ) where
  -- `splitStreamVECT`
  unfoldable pub split_stream_vect :
      {A B C : Type 0} → (A → B) → (A → C) → SplitStreams A B C → Outcome (SplitStreams A B C)
  split_stream_vect conv1 conv2 =
      vector_operator max_width max_height kx vect width height (split_step conv1 conv2)

  -- `splitStream3VECT`
  unfoldable pub split_stream3_vect :
      {A B C D : Type 0}
      → (A → B)
      → (A → C)
      → (A → D)
      → SplitStreams3 A B C D
      → Outcome (SplitStreams3 A B C D)
  split_stream3_vect conv1 conv2 conv3 =
      vector_operator max_width max_height kx vect width height (split_step3 conv1 conv2 conv3)

  -- `splitStream4VECT`
  unfoldable pub split_stream4_vect :
      {A B C D E : Type 0}
      → (A → B)
      → (A → C)
      → (A → D)
      → (A → E)
      → SplitStreams4 A B C D E
      → Outcome (SplitStreams4 A B C D E)
  split_stream4_vect conv1 conv2 conv3 conv4 =
      vector_operator max_width max_height kx vect width height
        (split_step4 conv1 conv2 conv3 conv4)
