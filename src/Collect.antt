-- ===== src/Collect.antt =====
-- runtime/hipacc_vivado_filter.hpp, `collect2FIXED`, `collect2`, `collect4`, `collect8` and
-- `collect16`, which put an image together from vertical parts.
--
-- The streams `in0_s`, `in1_s`, … are the values of a function at 0, 1, ….
pub mod Chain
pub mod Slices
mod Tests
use package.hipacc_vivado.Prelude.{
  ℕ, suc, ◌*◌, ◌/◌, Bool, ◌&&◌, ltb, leb, ◌==◌, if◌then◌else◌, Outcome, done, ◌>>=◌, ◌>>◌, assert,
  fetch, for_up, List, [], ◌∷◌, ◌++◌,
}

-- The port that a column is read from: `between part col k` is one `else if` of the chain.
unfoldable pub between : ℕ → ℕ → ℕ → ℕ → ℕ
between part col k otherwise = if leb (k * part) col && ltb col (suc k * part) then k else otherwise

unfoldable pub port2 : ℕ → ℕ → ℕ
port2 part col = if ltb col part then 0 else 1

unfoldable pub port4 : ℕ → ℕ → ℕ
port4 part col = if ltb col part then 0 else between part col 1 (between part col 2 3)

unfoldable pub port8 : ℕ → ℕ → ℕ
port8 part col =
    if ltb col part
    then 0
    else between part col 1 (
        between part col 2
          (between part col 3 (between part col 4 (between part col 5 (between part col 6 7)))))

unfoldable pub port16 : ℕ → ℕ → ℕ
port16 part col =
    if ltb col part
    then 0
    else between part col 1 (
        between part col 2 (
          between part col 3 (
            between part col 4 (
              between part col 5 (
                between part col 6 (
                  between part col 7 (
                    between part col 8 (
                      between part col 9 (
                        between part col 10 (
                          between part col 11 (
                            between part col 12
                              (between part col 13 (between part col 14 15)))))))))))))

pub record Joined (A : Type 0) : Type 0 where
  pub data_in : ℕ → List A
  pub out_s : List A

module _ {A : Type 0} where
  unfoldable pub collect_step : (ℕ → ℕ) → ℕ → Joined A → Outcome (Joined A)
  collect_step port col s = do
    (temp, rest) ← fetch (s.data_in (port col))
    done (record {
      data_in = λ p. if p == port col then rest else s.data_in p;
      out_s = s.out_s ++ (temp ∷ []);
    })

  module _ (max_width max_height width height : ℕ) where
    unfoldable pub collect : (ℕ → ℕ) → Joined A → Outcome (Joined A)
    collect port s = do
      assert (leb width max_width)
      assert (leb height max_height)
      for_up height 0 (λ row. for_up width 0 (collect_step port)) s

    -- `PART_0` is the template constant of `collect2FIXED`.
    unfoldable pub collect2_fixed : ℕ → Joined A → Outcome (Joined A)
    collect2_fixed part_0 = collect (port2 part_0)

    unfoldable pub collect2 : Joined A → Outcome (Joined A)
    collect2 s = do assert (leb (width / 2) (max_width / 2)); collect (port2 (width / 2)) s

    unfoldable pub collect4 : Joined A → Outcome (Joined A)
    collect4 s = do assert (leb (width / 4) (max_width / 4)); collect (port4 (width / 4)) s

    unfoldable pub collect8 : Joined A → Outcome (Joined A)
    collect8 s = do assert (leb (width / 8) (max_width / 8)); collect (port8 (width / 8)) s

    unfoldable pub collect16 : Joined A → Outcome (Joined A)
    collect16 s = do assert (leb (width / 16) (max_width / 16)); collect (port16 (width / 16)) s
