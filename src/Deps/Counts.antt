-- ===== src/Deps/Counts.antt =====
-- Counting in lists and sums over processes, for the graph of lib/Analysis/HostDataDeps.cpp.
use hipacc_vivado.Prelude.{
  ℕ, zero, suc, ◌+◌, ◌≤◌, ◌<◌, ◌≡◌, ◌≢◌, refl, inl, inr, ◌==◌, if◌then◌else◌, List, [], ◌∷◌, ◌++◌,
  arith, Bool-cases,
}

abbrev pub All {ℓ κ} : {A : Type ℓ} → (A → Type κ) → List A → Type κ
All P [] = Unit
All P (x ∷ xs) = P x × All P xs

pub All-concat {ℓ κ} :
    {A : Type ℓ} (P : A → Type κ) (xs : List A) (x : A) → All P xs → P x → All P (xs ++ x ∷ [])
All-concat P [] x h here = (here, tt)
All-concat P (y ∷ xs) x h here = (h.0, All-concat P xs x h.1 here)

pub All-map {ℓ κ} :
    {A : Type ℓ} (P Q : A → Type κ) (xs : List A) → ((x : A) → P x → Q x) → All P xs → All Q xs
All-map P Q [] f h = tt
All-map P Q (x ∷ xs) f h = (f x h.0, All-map P Q xs f h.1)

pub All-map₂ {ℓ κ} :
    {A : Type ℓ} (P Q R : A → Type κ) (xs : List A)
    → ((x : A) → P x → Q x → R x)
    → All P xs
    → All Q xs
    → All R xs
All-map₂ P Q R [] f h k = tt
All-map₂ P Q R (x ∷ xs) f h k = (f x h.0 k.0, All-map₂ P Q R xs f h.1 k.1)

-- How often a number stands in a list.
unfoldable pub times : ℕ → List ℕ → ℕ
times a [] = 0
times a (x ∷ xs) = (if x == a then 1 else 0) + times a xs

pub times-concat :
    (a : ℕ) (xs : List ℕ) (x : ℕ) → times a (xs ++ x ∷ []) ≡ times a xs + (if x == a then 1 else 0)
unfolding times
times-concat a [] x = ground arith
times-concat a (y ∷ xs) x = ground (arith, times-concat a xs x)

pub times-absent : (n : ℕ) (xs : List ℕ) → All (λ x. x < n) xs → times n xs ≡ 0
unfolding times
times-absent n [] h = refl
times-absent n (x ∷ xs) h = ground (arith, times-absent n xs h.1)

-- The sum over the numbers below `n`.
unfoldable pub sum_to : ℕ → (ℕ → ℕ) → ℕ
sum_to zero f = 0
sum_to (suc n) f = f n + sum_to n f

pub sum_to-cong : (n : ℕ) (f g : ℕ → ℕ) → ((t : ℕ) → t < n → f t ≡ g t) → sum_to n f ≡ sum_to n g
unfolding sum_to
sum_to-cong zero f g h = refl
sum_to-cong (suc n) f g h =
    omega (arith, h n (omega arith), sum_to-cong n f g (λ t l. h t (omega arith)))

-- Two sums that differ at `p` only.
pub sum_to-change :
    (n p : ℕ) (f g : ℕ → ℕ)
    → p < n
    → ((t : ℕ) → t < n → t ≢ p → f t ≡ g t)
    → sum_to n g + f p ≡ sum_to n f + g p
unfolding sum_to
sum_to-change zero p f g l h = absurd (omega arith)
sum_to-change (suc n) p f g l h = elim (Bool-cases (p == n)) [
  | inl last ↦
      let e : p ≡ n = ground arith in
      rw e
        (omega (arith, sum_to-cong n f g (λ t u. h t (omega arith) (λ same. absurd (omega arith)))))
  | inr before ↦ omega (
    arith,
    h n (omega arith) (λ same. absurd (ground arith)),
    sum_to-change n p f g (ground arith) (λ t u ne. h t (omega arith) ne),
  )
]

pub sum_to-zero : (n : ℕ) (f : ℕ → ℕ) → ((t : ℕ) → t < n → f t ≡ 0) → sum_to n f ≡ 0
unfolding sum_to
sum_to-zero zero f h = refl
sum_to-zero (suc n) f h =
    omega (arith, h n (omega arith), sum_to-zero n f (λ t l. h t (omega arith)))

-- A summand is at most the sum.
pub le-sum_to : (n p : ℕ) (f : ℕ → ℕ) → p < n → f p ≤ sum_to n f
unfolding sum_to
le-sum_to zero p f l = absurd (omega arith)
le-sum_to (suc n) p f l = elim (Bool-cases (p == n)) [
  | inl last ↦ let e : p ≡ n = ground arith in rw e (omega arith)
  | inr before ↦ omega (arith, le-sum_to n p f (ground arith))
]
