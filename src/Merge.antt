-- ===== src/Merge.antt =====
-- runtime/hipacc_vivado_filter.hpp, `processMISO`: a local operator that reads two streams and gives
-- the windows of both to its filter. Its loops alternate between the arrays of the first and those of
-- the second input; the two sets of arrays share nothing, so one is updated after the other here.
pub mod Step
pub mod Images
mod Tests
use package.hipacc_vivado.Prelude.{
  ℕ, ◌+◌, ◌/◌, ◌&&◌, ltb, leb, if◌then◌else◌, Outcome, done, ◌>>=◌, fetch, for_up, List, [], ◌∷◌,
  ◌++◌,
}
use package.hipacc_vivado.Border.{BorderPadding}
use package.hipacc_vivado.Window.{Buffers, array, refresh}
use package.hipacc_vivado.Local.{checked}
use package.hipacc_vivado.Points.{Streams2}

-- `lineBuff1`, `win1`, … and `lineBuff2`, `win2`, …, and the streams.
pub record Merging (A B : Type 0) : Type 0 where
  pub buffers1 : Buffers A
  pub buffers2 : Buffers A
  pub streams : Streams2 A B

module _ {A B : Type 0} (kx ky width height : ℕ) (filter : List (List A) → List (List A) → B) where
  -- GET NEW INPUT
  unfoldable pub merge_input : ℕ → ℕ → Merging A B → Outcome (Merging A B)
  merge_input row col s =
      if ltb col width && ltb row height
      then (fetch s.streams.in1_s >>= λ (x1, rest1). fetch s.streams.in2_s >>= λ (x2, rest2).
          done (record {
            buffers1 = record (s.buffers1) { in_pixel = x1 };
            buffers2 = record (s.buffers2) { in_pixel = x2 };
            streams = record (s.streams) { in1_s = rest1; in2_s = rest2 };
          }))
      else done s

  -- FILTER COMPUTATION AND OUTPUT ASSIGNMENT
  unfoldable pub merge_output : ℕ → ℕ → Merging A B → Merging A B
  merge_output row col s =
      if leb (ky / 2) row && leb (kx / 2) col
      then (let out_pixel = filter (array ky kx s.buffers1.win) (array ky kx s.buffers2.win) in
          record s { streams = record (s.streams) { out_s = s.streams.out_s ++ (out_pixel ∷ []) } })
      else s

  unfoldable pub merge_step : BorderPadding → ℕ → ℕ → Merging A B → Outcome (Merging A B)
  unfolding merge_input merge_output
  merge_step padding row col s = do
    r ← merge_input row col s
    b1 ← refresh kx ky width height padding row col r.buffers1
    b2 ← refresh kx ky width height padding row col r.buffers2
    done (merge_output row col (record { buffers1 = b1; buffers2 = b2; streams = r.streams }))

  -- `processMISO`
  unfoldable pub process_miso : ℕ → ℕ → BorderPadding → Merging A B → Outcome (Merging A B)
  unfolding merge_step
  process_miso max_width max_height padding s = checked max_width max_height kx ky width height (
      for_up (max_height + ky / 2) 0 (λ row. for_up (max_width + kx / 2) 0 (merge_step padding row))
        s)
