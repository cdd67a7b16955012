-- ===== src/Points/Split.antt =====
-- runtime/hipacc_vivado_filter.hpp, `splitStream` to `splitStream4`: their outcomes.
use hipacc_vivado.Prelude.{
  ℕ, zero, suc, ◌≡◌, ◌∙◌, ap, arith, leb, le→leb, lt→leb, leb-suc, if◌then◌else◌, done, blocked,
  List, [], ◌∷◌, ◌++◌, map, append_assoc, append-nil, length, take, drop,
}
use hipacc_vivado.Points.{
  SplitStreams, SplitStreams3, SplitStreams4, split_step, split_step3, split_step4, split_stream,
  split_stream3, split_stream4,
}
use hipacc_vivado.Points.Rounds.{rounds}
use hipacc_vivado.Points.Pixels.{image_size, within, point_operator-within}

pub rounds-split_step :
    {A B C : Type 0} (conv1 : A → B) (conv2 : A → C) (n : ℕ) (ins : List A) (out1 : List B)
    (out2 : List C)
    → rounds n (split_step conv1 conv2) (record { in_s = ins; out1_s = out1; out2_s = out2 }) ≡ (
        if leb n (length ins)
        then done (record {
          in_s = drop n ins;
          out1_s = out1 ++ map conv1 (take n ins);
          out2_s = out2 ++ map conv2 (take n ins);
        })
        else blocked)
unfolding split_step rounds
rounds-split_step conv1 conv2 zero ins out1 out2 =
    rw (le→leb 0 (length ins) (omega arith), append-nil, append-nil)
rounds-split_step conv1 conv2 (suc n) [] out1 out2 = rw (lt→leb (suc n) 0 (omega arith))
rounds-split_step conv1 conv2 (suc n) (x ∷ ins) out1 out2 =
    rounds-split_step conv1 conv2 n ins (out1 ++ (conv1 x ∷ [])) (out2 ++ (conv2 x ∷ []))
    ∙ rw (
      leb-suc n (length ins),
      append_assoc out1 (conv1 x ∷ []) (map conv1 (take n ins)),
      append_assoc out2 (conv2 x ∷ []) (map conv2 (take n ins)),
    )

-- `splitStream`, in every case: it aborts if the image exceeds the maximal size, blocks if the
-- stream delivers less than an image, and else copies the image to both output streams.
pub split_stream-copies :
    {A B C : Type 0} (max_width max_height kx width height : ℕ) (conv1 : A → B) (conv2 : A → C)
    (s : SplitStreams A B C)
    → split_stream max_width max_height kx width height conv1 conv2 s
      ≡ within max_width max_height width height (
          if leb (image_size width height) (length s.in_s)
          then done (record {
            in_s = drop (image_size width height) s.in_s;
            out1_s = s.out1_s ++ map conv1 (take (image_size width height) s.in_s);
            out2_s = s.out2_s ++ map conv2 (take (image_size width height) s.in_s);
          })
          else blocked)
unfolding split_stream
split_stream-copies max_width max_height kx width height conv1 conv2 s =
    point_operator-within (split_step conv1 conv2) max_width max_height kx width height s
    ∙ ap (within max_width max_height width height)
        (rounds-split_step conv1 conv2 (image_size width height) s.in_s s.out1_s s.out2_s)

pub rounds-split_step3 :
    {A B C D : Type 0} (conv1 : A → B) (conv2 : A → C) (conv3 : A → D) (n : ℕ) (ins : List A)
    (out1 : List B) (out2 : List C) (out3 : List D)
    → rounds n
        (split_step3 conv1 conv2 conv3)
        (record { in_s = ins; out1_s = out1; out2_s = out2; out3_s = out3 })
      ≡ (if leb n (length ins)
          then done (record {
            in_s = drop n ins;
            out1_s = out1 ++ map conv1 (take n ins);
            out2_s = out2 ++ map conv2 (take n ins);
            out3_s = out3 ++ map conv3 (take n ins);
          })
          else blocked)
unfolding split_step3 rounds
rounds-split_step3 conv1 conv2 conv3 zero ins out1 out2 out3 =
    rw (le→leb 0 (length ins) (omega arith), append-nil, append-nil, append-nil)
rounds-split_step3 conv1 conv2 conv3 (suc n) [] out1 out2 out3 = rw (lt→leb (suc n) 0 (omega arith))
rounds-split_step3 conv1 conv2 conv3 (suc n) (x ∷ ins) out1 out2 out3 =
    rounds-split_step3 conv1 conv2 conv3 n ins (out1 ++ (conv1 x ∷ [])) (out2 ++ (conv2 x ∷ []))
      (out3 ++ (conv3 x ∷ []))
    ∙ rw (
      leb-suc n (length ins),
      append_assoc out1 (conv1 x ∷ []) (map conv1 (take n ins)),
      append_assoc out2 (conv2 x ∷ []) (map conv2 (take n ins)),
      append_assoc out3 (conv3 x ∷ []) (map conv3 (take n ins)),
    )

-- `splitStream3`, in every case: it aborts if the image exceeds the maximal size, blocks if the
-- stream delivers less than an image, and else copies the image to all three output streams.
pub split_stream3-copies :
    {A B : Type 0} (max_width max_height kx width height : ℕ) (conv : A → B)
    (s : SplitStreams3 A B B B)
    → split_stream3 max_width max_height kx width height conv s
      ≡ within max_width max_height width height (
          if leb (image_size width height) (length s.in_s)
          then done (record {
            in_s = drop (image_size width height) s.in_s;
            out1_s = s.out1_s ++ map conv (take (image_size width height) s.in_s);
            out2_s = s.out2_s ++ map conv (take (image_size width height) s.in_s);
            out3_s = s.out3_s ++ map conv (take (image_size width height) s.in_s);
          })
          else blocked)
unfolding split_stream3
split_stream3-copies max_width max_height kx width height conv s =
    point_operator-within (split_step3 conv conv conv) max_width max_height kx width height s
    ∙ ap (within max_width max_height width height) (
        rounds-split_step3 conv conv conv (image_size width height) s.in_s s.out1_s s.out2_s
          s.out3_s)

pub rounds-split_step4 :
    {A B C D E : Type 0} (conv1 : A → B) (conv2 : A → C) (conv3 : A → D) (conv4 : A → E) (n : ℕ)
    (ins : List A) (out1 : List B) (out2 : List C) (out3 : List D) (out4 : List E)
    → rounds n
        (split_step4 conv1 conv2 conv3 conv4)
        (record { in_s = ins; out1_s = out1; out2_s = out2; out3_s = out3; out4_s = out4 })
      ≡ (if leb n (length ins)
          then done (record {
            in_s = drop n ins;
            out1_s = out1 ++ map conv1 (take n ins);
            out2_s = out2 ++ map conv2 (take n ins);
            out3_s = out3 ++ map conv3 (take n ins);
            out4_s = out4 ++ map conv4 (take n ins);
          })
          else blocked)
unfolding split_step4 rounds
rounds-split_step4 conv1 conv2 conv3 conv4 zero ins out1 out2 out3 out4 =
    rw (le→leb 0 (length ins) (omega arith), append-nil, append-nil, append-nil, append-nil)
rounds-split_step4 conv1 conv2 conv3 conv4 (suc n) [] out1 out2 out3 out4 =
    rw (lt→leb (suc n) 0 (omega arith))
rounds-split_step4 conv1 conv2 conv3 conv4 (suc n) (x ∷ ins) out1 out2 out3 out4 =
    rounds-split_step4 conv1 conv2 conv3 conv4 n ins (out1 ++ (conv1 x ∷ []))
      (out2 ++ (conv2 x ∷ [])) (out3 ++ (conv3 x ∷ [])) (out4 ++ (conv4 x ∷ []))
    ∙ rw (
      leb-suc n (length ins),
      append_assoc out1 (conv1 x ∷ []) (map conv1 (take n ins)),
      append_assoc out2 (conv2 x ∷ []) (map conv2 (take n ins)),
      append_assoc out3 (conv3 x ∷ []) (map conv3 (take n ins)),
      append_assoc out4 (conv4 x ∷ []) (map conv4 (take n ins)),
    )

-- `splitStream4`, in every case: it aborts if the image exceeds the maximal size, blocks if the
-- stream delivers less than an image, and else copies the image to all four output streams.
pub split_stream4-copies :
    {A B : Type 0} (max_width max_height kx width height : ℕ) (conv : A → B)
    (s : SplitStreams4 A B B B B)
    → split_stream4 max_width max_height kx width height conv s
      ≡ within max_width max_height width height (
          if leb (image_size width height) (length s.in_s)
          then done (record {
            in_s = drop (image_size width height) s.in_s;
            out1_s = s.out1_s ++ map conv (take (image_size width height) s.in_s);
            out2_s = s.out2_s ++ map conv (take (image_size width height) s.in_s);
            out3_s = s.out3_s ++ map conv (take (image_size width height) s.in_s);
            out4_s = s.out4_s ++ map conv (take (image_size width height) s.in_s);
          })
          else blocked)
unfolding split_stream4
split_stream4-copies max_width max_height kx width height conv s =
    point_operator-within (split_step4 conv conv conv conv) max_width max_height kx width height s
    ∙ ap (within max_width max_height width height) (
        rounds-split_step4 conv conv conv conv (image_size width height) s.in_s s.out1_s s.out2_s
          s.out3_s s.out4_s)
