-- ===== src/Local.antt =====
-- runtime/hipacc_vivado_filter.hpp, the local operators: a kernel moves over an image that arrives as
-- a stream of pixels in row-major order, and the results leave in the same order.
pub mod Scan
pub mod Images
pub mod Process
pub mod Simo
pub mod Const
pub mod Tests
use package.hipacc_vivado.Prelude.{
  ℕ, ◌+◌, ◌-◌, ◌/◌, ◌%◌, Bool, ◌&&◌, ltb, leb, ◌==◌, if◌then◌else◌, Outcome, done, ◌>>=◌, ◌>>◌,
  assert, fetch, for_up, List, [], ◌∷◌, ◌++◌,
}
use package.hipacc_vivado.Border.{BorderPadding}
use package.hipacc_vivado.Window.{Buffers, array, refresh}

-- The main loop, over the streams `T` of an operator: `get` is its GET NEW INPUT inside the image,
-- `emit` its FILTER COMPUTATION AND OUTPUT ASSIGNMENT.
module _ {A T : Type 0} (max_width max_height kx ky width height : ℕ) (padding : BorderPadding)
    (get : ℕ → ℕ → T → Outcome (A × T)) (emit : ℕ → ℕ → List (List A) → T → T) where
  -- GET NEW INPUT
  unfoldable pub scan_input : ℕ → ℕ → Buffers A × T → Outcome (Buffers A × T)
  scan_input row col (b, t) =
      if ltb col width && ltb row height
      then (get row col t >>= λ (x, t'). done (record b { in_pixel = x }, t'))
      else done (b, t)

  -- FILTER COMPUTATION AND OUTPUT ASSIGNMENT
  unfoldable pub scan_output : ℕ → ℕ → Buffers A × T → Buffers A × T
  scan_output row col (b, t) =
      (b, if leb (ky / 2) row && leb (kx / 2) col then emit row col (array ky kx b.win) t else t)

  unfoldable pub scan_step : ℕ → ℕ → Buffers A × T → Outcome (Buffers A × T)
  unfolding scan_input scan_output
  scan_step row col s = do
    (b, t) ← scan_input row col s
    b' ← refresh kx ky width height padding row col b
    done (scan_output row col (b', t))

  unfoldable pub scan : Buffers A × T → Outcome (Buffers A × T)
  unfolding scan_step
  scan = for_up (max_height + ky / 2) 0 (λ row. for_up (max_width + kx / 2) 0 (scan_step row))

-- The asserts at the head of the operators.
abbrev pub checked {ℓ} : {S : Type ℓ} → ℕ → ℕ → ℕ → ℕ → ℕ → ℕ → Outcome S → Outcome S
checked max_width max_height kx ky width height body = do
  assert (leb width max_width)
  assert (leb height max_height)
  assert (kx % 2 == 1)
  assert (ky % 2 == 1)
  body

-- One input and one output stream: what is still to be read, and what has been written.
pub record Streams (A B : Type 0) : Type 0 where
  pub in_s : List A
  pub out_s : List B

-- `in_s >> in_pixel`
abbrev pub read_in : {A B : Type 0} → Streams A B → Outcome (A × Streams A B)
read_in s = fetch s.in_s >>= λ (x, rest). done (x, record s { in_s = rest })

-- `out_s.write(v)`
abbrev pub write_out : {A B : Type 0} → B → Streams A B → Streams A B
write_out v s = record s { out_s = s.out_s ++ (v ∷ []) }

module _ {A B : Type 0} (max_width max_height : ℕ) where
  -- `process`
  unfoldable pub process :
      ℕ
      → ℕ
      → ℕ
      → ℕ
      → (List (List A) → B)
      → BorderPadding
      → Buffers A × Streams A B
      → Outcome (Buffers A × Streams A B)
  process kx ky width height filter padding s = checked max_width max_height kx ky width height (
      scan max_width max_height kx ky width height padding (λ row col. read_in)
        (λ row col win. write_out (filter win)) s)

-- `processSIMO`: every result goes to both output streams.
pub record ForkedStreams (A B : Type 0) : Type 0 where
  pub in_s : List A
  pub out1_s : List B
  pub out2_s : List B

module _ {A B : Type 0} (max_width max_height : ℕ) where
  unfoldable pub process_simo :
      ℕ
      → ℕ
      → ℕ
      → ℕ
      → (List (List A) → B)
      → BorderPadding
      → Buffers A × ForkedStreams A B
      → Outcome (Buffers A × ForkedStreams A B)
  process_simo kx ky width height filter padding s =
      checked max_width max_height kx ky width height (
        scan max_width max_height kx ky width height padding
          (λ row col t. fetch t.in_s >>= λ (x, rest). done (x, record t { in_s = rest }))
          (λ row col win t.
            let out_pixel = filter win in
            record t {
              out1_s = t.out1_s ++ (out_pixel ∷ []);
              out2_s = t.out2_s ++ (out_pixel ∷ []);
            })
          s)
