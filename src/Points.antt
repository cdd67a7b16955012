-- ===== src/Points.antt =====
-- runtime/hipacc_vivado_filter.hpp, the point operators `processPixels`, `processPixels2`,
-- `processPixels3` and the stream copies `splitStream`, `splitStream3`, `splitStream4`.
pub mod Rounds
pub mod Pixels
pub mod Split
mod Tests
use package.hipacc_vivado.Prelude.{
  ℕ, ◌+◌, ◌/◌, leb, if◌then◌else◌, Outcome, done, ◌>>=◌, ◌>>◌, assert, fetch, for_up, List, [], ◌∷◌,
  ◌++◌,
}
use package.hipacc_vivado.Local.{Streams}

-- The double loop of these operators: columns from `width` on are skipped by `continue`.
unfoldable pub point_loop {ℓ} : {S : Type ℓ} → ℕ → ℕ → ℕ → (S → Outcome S) → S → Outcome S
point_loop width height gdelay step =
    for_up height 0 (λ y. for_up (width + gdelay) 0 (λ x s. if leb width x then done s else step s))

-- The asserts and the loop; `kx` is KERNEL_SIZE_X.
unfoldable pub point_operator {ℓ} :
    {S : Type ℓ} → ℕ → ℕ → ℕ → ℕ → ℕ → (S → Outcome S) → S → Outcome S
point_operator max_width max_height kx width height step s = do
  assert (leb width max_width)
  assert (leb height max_height)
  point_loop width height (kx / 2) step s

pub record Streams2 (A B : Type 0) : Type 0 where
  pub in1_s : List A
  pub in2_s : List A
  pub out_s : List B

pub record Streams3 (A B : Type 0) : Type 0 where
  pub in1_s : List A
  pub in2_s : List A
  pub in3_s : List A
  pub out_s : List B

module _ {A B : Type 0} where
  unfoldable pub pixel_step : (A → B) → Streams A B → Outcome (Streams A B)
  pixel_step filter s = do
    (val, rest) ← fetch s.in_s
    done (record { in_s = rest; out_s = s.out_s ++ (filter val ∷ []) })

  unfoldable pub pixel_step2 : (A → A → B) → Streams2 A B → Outcome (Streams2 A B)
  pixel_step2 filter s = do
    (val1, rest1) ← fetch s.in1_s
    (val2, rest2) ← fetch s.in2_s
    done (record { in1_s = rest1; in2_s = rest2; out_s = s.out_s ++ (filter val1 val2 ∷ []) })

  unfoldable pub pixel_step3 : (A → A → A → B) → Streams3 A B → Outcome (Streams3 A B)
  pixel_step3 filter s = do
    (val1, rest1) ← fetch s.in1_s
    (val2, rest2) ← fetch s.in2_s
    (val3, rest3) ← fetch s.in3_s
    done (record {
      in1_s = rest1;
      in2_s = rest2;
      in3_s = rest3;
      out_s = s.out_s ++ (filter val1 val2 val3 ∷ []);
    })

  module _ (max_width max_height kx width height : ℕ) where
    -- `processPixels`
    unfoldable pub process_pixels : (A → B) → Streams A B → Outcome (Streams A B)
    process_pixels filter = point_operator max_width max_height kx width height (pixel_step filter)

    -- `processPixels2`
    unfoldable pub process_pixels2 : (A → A → B) → Streams2 A B → Outcome (Streams2 A B)
    process_pixels2 filter =
        point_operator max_width max_height kx width height (pixel_step2 filter)

    -- `processPixels3`
    unfoldable pub process_pixels3 : (A → A → A → B) → Streams3 A B → Outcome (Streams3 A B)
    process_pixels3 filter =
        point_operator max_width max_height kx width height (pixel_step3 filter)

-- The streams of the copies, whose outputs convert the pixels to their own element types.
pub record SplitStreams (A B C : Type 0) : Type 0 where
  pub in_s : List A
  pub out1_s : List B
  pub out2_s : List C

pub record SplitStreams3 (A B C D : Type 0) : Type 0 where
  pub in_s : List A
  pub out1_s : List B
  pub out2_s : List C
  pub out3_s : List D

pub record SplitStreams4 (A B C D E : Type 0) : Type 0 where
  pub in_s : List A
  pub out1_s : List B
  pub out2_s : List C
  pub out3_s : List D
  pub out4_s : List E

unfoldable pub split_step :
    {A B C : Type 0} → (A → B) → (A → C) → SplitStreams A B C → Outcome (SplitStreams A B C)
split_step conv1 conv2 s = do
  (val, rest) ← fetch s.in_s
  done (record {
    in_s = rest;
    out1_s = s.out1_s ++ (conv1 val ∷ []);
    out2_s = s.out2_s ++ (conv2 val ∷ []);
  })

unfoldable pub split_step3 :
    {A B C D : Type 0}
    → (A → B)
    → (A → C)
    → (A → D)
    → SplitStreams3 A B C D
    → Outcome (SplitStreams3 A B C D)
split_step3 conv1 conv2 conv3 s = do
  (val, rest) ← fetch s.in_s
  done (record {
    in_s = rest;
    out1_s = s.out1_s ++ (conv1 val ∷ []);
    out2_s = s.out2_s ++ (conv2 val ∷ []);
    out3_s = s.out3_s ++ (conv3 val ∷ []);
  })

unfoldable pub split_step4 :
    {A B C D E : Type 0}
    → (A → B)
    → (A → C)
    → (A → D)
    → (A → E)
    → SplitStreams4 A B C D E
    → Outcome (SplitStreams4 A B C D E)
split_step4 conv1 conv2 conv3 conv4 s = do
  (val, rest) ← fetch s.in_s
  done (record {
    in_s = rest;
    out1_s = s.out1_s ++ (conv1 val ∷ []);
    out2_s = s.out2_s ++ (conv2 val ∷ []);
    out3_s = s.out3_s ++ (conv3 val ∷ []);
    out4_s = s.out4_s ++ (conv4 val ∷ []);
  })

module _ (max_width max_height kx width height : ℕ) where
  -- `splitStream`
  unfoldable pub split_stream :
      {A B C : Type 0} → (A → B) → (A → C) → SplitStreams A B C → Outcome (SplitStreams A B C)
  split_stream conv1 conv2 =
      point_operator max_width max_height kx width height (split_step conv1 conv2)

  -- `splitStream3`, whose output streams have one type
  unfoldable pub split_stream3 :
      {A B : Type 0} → (A → B) → SplitStreams3 A B B B → Outcome (SplitStreams3 A B B B)
  split_stream3 conv =
      point_operator max_width max_height kx width height (split_step3 conv conv conv)

  -- `splitStream4`, likewise
  unfoldable pub split_stream4 :
      {A B : Type 0} → (A → B) → SplitStreams4 A B B B B → Outcome (SplitStreams4 A B B B B)
  split_stream4 conv =
      point_operator max_width max_height kx width height (split_step4 conv conv conv conv)
