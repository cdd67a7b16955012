-- ===== src/Vectors/Split.antt =====
-- runtime/hipacc_vivado_filter.hpp, `splitStreamVECT` to `splitStream4VECT`: their outcomes.
use hipacc_vivado.Prelude.{
  ℕ, ◌<◌, ◌≡◌, ◌∙◌, ap, leb, if◌then◌else◌, done, blocked, ◌++◌, map, length, take, drop,
}
use hipacc_vivado.Points.{
  SplitStreams, SplitStreams3, SplitStreams4, split_step, split_step3, split_step4,
}
use hipacc_vivado.Points.Pixels.{within}
use hipacc_vivado.Points.Split.{rounds-split_step, rounds-split_step3, rounds-split_step4}
use hipacc_vivado.Vectors.{split_stream_vect, split_stream3_vect, split_stream4_vect}
use hipacc_vivado.Vectors.Loop.{vector_operator-within}
use hipacc_vivado.Vectors.Pixels.{vectors}

module _ {A B C : Type 0} (max_width max_height kx vect width height : ℕ) (conv1 : A → B)
    (conv2 : A → C) where
  -- For a positive vector size, `splitStreamVECT` in every case: it aborts if the image exceeds
  -- the maximal size, blocks if the stream delivers fewer vectors than the image has, and else
  -- copies the vectors of the image to both output streams.
  pub split_stream_vect-copies :
      (s : SplitStreams A B C)
      → 0 < vect
      → split_stream_vect max_width max_height kx vect width height conv1 conv2 s
        ≡ within max_width max_height width height (
            if leb (vectors vect width height) (length s.in_s)
            then done (record {
              in_s = drop (vectors vect width height) s.in_s;
              out1_s = s.out1_s ++ map conv1 (take (vectors vect width height) s.in_s);
              out2_s = s.out2_s ++ map conv2 (take (vectors vect width height) s.in_s);
            })
            else blocked)
  unfolding split_stream_vect
  split_stream_vect-copies s pos =
      vector_operator-within (split_step conv1 conv2) max_width max_height kx vect width height s
        pos
      ∙ ap (within max_width max_height width height)
          (rounds-split_step conv1 conv2 (vectors vect width height) s.in_s s.out1_s s.out2_s)

  -- For a positive vector size, `splitStream3VECT` in every case: it aborts if the image
  -- exceeds the maximal size, blocks if the stream delivers fewer vectors than the image has,
  -- and else copies the vectors of the image to all three output streams.
  pub split_stream3_vect-copies :
      {D : Type 0} (conv3 : A → D) (s : SplitStreams3 A B C D)
      → 0 < vect
      → split_stream3_vect max_width max_height kx vect width height conv1 conv2 conv3 s
        ≡ within max_width max_height width height (
            if leb (vectors vect width height) (length s.in_s)
            then done (record {
              in_s = drop (vectors vect width height) s.in_s;
              out1_s = s.out1_s ++ map conv1 (take (vectors vect width height) s.in_s);
              out2_s = s.out2_s ++ map conv2 (take (vectors vect width height) s.in_s);
              out3_s = s.out3_s ++ map conv3 (take (vectors vect width height) s.in_s);
            })
            else blocked)
  unfolding split_stream3_vect
  split_stream3_vect-copies conv3 s pos =
      vector_operator-within (split_step3 conv1 conv2 conv3) max_width max_height kx vect width
        height s pos
      ∙ ap (within max_width max_height width height) (
          rounds-split_step3 conv1 conv2 conv3 (vectors vect width height) s.in_s s.out1_s s.out2_s
            s.out3_s)

  -- For a positive vector size, `splitStream4VECT` in every case: it aborts if the image
  -- exceeds the maximal size, blocks if the stream delivers fewer vectors than the image has,
  -- and else copies the vectors of the image to all four output streams.
  pub split_stream4_vect-copies :
      {D : Type 0} {E : Type 0} (conv3 : A → D) (conv4 : A → E) (s : SplitStreams4 A B C D E)
      → 0 < vect
      → split_stream4_vect max_width max_height kx vect width height conv1 conv2 conv3 conv4 s
        ≡ within max_width max_height width height (
            if leb (vectors vect width height) (length s.in_s)
            then done (record {
              in_s = drop (vectors vect width height) s.in_s;
              out1_s = s.out1_s ++ map conv1 (take (vectors vect width height) s.in_s);
              out2_s = s.out2_s ++ map conv2 (take (vectors vect width height) s.in_s);
              out3_s = s.out3_s ++ map conv3 (take (vectors vect width height) s.in_s);
              out4_s = s.out4_s ++ map conv4 (take (vectors vect width height) s.in_s);
            })
            else blocked)
  unfolding split_stream4_vect
  split_stream4_vect-copies conv3 conv4 s pos =
      vector_operator-within (split_step4 conv1 conv2 conv3 conv4) max_width max_height kx vect
        width height s pos
      ∙ ap (within max_width max_height width height) (
          rounds-split_step4 conv1 conv2 conv3 conv4 (vectors vect width height) s.in_s s.out1_s
            s.out2_s s.out3_s s.out4_s)
