-- ===== src/Prelude/Lists.antt =====
-- Lists measured and cut by native numbers, under the library's names.
use Prim.Native.Nat.{ℕ, zero, suc, ◌+◌, ◌-◌, ◌≤◌, ◌<◌, min}
use mathlib.Core.Path.{◌≡◌, refl, sym, ap, ap₂, ◌∙◌}
use mathlib.Core.List.{List, [], ◌∷◌, ◌++◌, append-nil, append_assoc}
use mathlib.Core.Option.{Option, none, some}
use native.Mathlib.Omega.{arith}

module _ {ℓ} {A : Type ℓ} where
  abbrev pub length : List A → ℕ
  length [] = 0
  length (x ∷ xs) = suc (length xs)

  abbrev pub get_elem? : List A → ℕ → Option A
  get_elem? [] i = none
  get_elem? (x ∷ xs) zero = some x
  get_elem? (x ∷ xs) (suc i) = get_elem? xs i

  abbrev pub set : List A → ℕ → A → List A
  set [] i v = []
  set (x ∷ xs) zero v = v ∷ xs
  set (x ∷ xs) (suc i) v = x ∷ set xs i v

  abbrev pub take : ℕ → List A → List A
  take zero xs = []
  take (suc n) [] = []
  take (suc n) (x ∷ xs) = x ∷ take n xs

  abbrev pub drop : ℕ → List A → List A
  drop zero xs = xs
  drop (suc n) [] = []
  drop (suc n) (x ∷ xs) = drop n xs

  pub length-append : (xs ys : List A) → length (xs ++ ys) ≡ length xs + length ys
  length-append [] ys = omega arith
  length-append (x ∷ xs) ys = omega (arith, length-append xs ys)

  pub length-take : (n : ℕ) (xs : List A) → length (take n xs) ≡ min n (length xs)
  length-take zero xs = omega arith
  length-take (suc n) [] = omega arith
  length-take (suc n) (x ∷ xs) = omega (arith, length-take n xs)

  pub length-drop : (n : ℕ) (xs : List A) → length (drop n xs) ≡ length xs - n
  length-drop zero xs = omega arith
  length-drop (suc n) [] = omega arith
  length-drop (suc n) (x ∷ xs) = omega (arith, length-drop n xs)

-- The first `n` values of a sequence, from index `i` on.
abbrev pub tabulate {ℓ} : {A : Type ℓ} → ℕ → ℕ → (ℕ → A) → List A
tabulate zero i f = []
tabulate (suc n) i f = f i ∷ tabulate n (suc i) f

pub tabulate-cong {ℓ} :
    {A : Type ℓ} (n i : ℕ) (f g : ℕ → A)
    → ((k : ℕ) → i ≤ k → k < i + n → f k ≡ g k)
    → tabulate n i f ≡ tabulate n i g
tabulate-cong zero i f g h = refl
tabulate-cong (suc n) i f g h = λ t.
    h i (omega arith) (omega arith) t
    ∷ tabulate-cong n (suc i) f g (λ k l u. h k (omega arith) (omega arith)) t

-- The pieces `h i`, `h (i + 1)`, … of `n` rounds, one after the other.
abbrev pub gather {ℓ} : {A : Type ℓ} → ℕ → ℕ → (ℕ → List A) → List A
gather zero i h = []
gather (suc n) i h = h i ++ gather n (suc i) h

module _ {ℓ} {A : Type ℓ} where
  pub gather-snoc :
      (n i k : ℕ) (h : ℕ → List A) → i + n ≡ k → gather (suc n) i h ≡ gather n i h ++ h k
  gather-snoc zero i k h e = let here : i ≡ k = omega arith in rw (here, append-nil)
  gather-snoc (suc n) i k h e =
      ap (λ t. h i ++ t) (gather-snoc n (suc i) k h (omega arith))
      ∙ sym (append_assoc (h i) (gather n (suc i) h) (h k))

  pub gather-cong :
      (n i : ℕ) (g h : ℕ → List A)
      → ((k : ℕ) → i ≤ k → k < i + n → g k ≡ h k)
      → gather n i g ≡ gather n i h
  gather-cong zero i g h e = refl
  gather-cong (suc n) i g h e =
      ap₂ ◌++◌ (e i (omega arith) (omega arith))
        (gather-cong n (suc i) g h (λ k l u. e k (omega arith) (omega arith)))

  -- Rounds at the end that yield nothing can be left out.
  pub gather-cut :
      (total n i : ℕ) (g h : ℕ → List A)
      → n ≤ total
      → ((k : ℕ) → i ≤ k → k < i + n → g k ≡ h k)
      → ((k : ℕ) → i + n ≤ k → g k ≡ [])
      → gather total i g ≡ gather n i h
  gather-cut zero zero i g h le same empty = refl
  gather-cut zero (suc n) i g h le same empty = ground arith
  gather-cut (suc m) zero i g h le same empty = ap₂ ◌++◌ (empty i (omega arith)) (
      gather-cut m zero (suc i) g h (omega arith) (λ k l u. same k (omega arith) (omega arith))
        (λ k l. empty k (omega arith)))
  gather-cut (suc m) (suc n) i g h le same empty = ap₂ ◌++◌ (same i (omega arith) (omega arith)) (
      gather-cut m n (suc i) g h (omega arith) (λ k l u. same k (omega arith) (omega arith))
        (λ k l. empty k (omega arith)))

  -- So can rounds at the start.
  pub gather-skip :
      (m n total i j : ℕ) (g : ℕ → List A)
      → m + n ≡ total
      → i + m ≡ j
      → ((k : ℕ) → i ≤ k → k < j → g k ≡ [])
      → gather total i g ≡ gather n j g
  gather-skip zero n total i j g all from empty =
      let (same, here) : (total ≡ n) × (j ≡ i) = (omega arith, omega arith) in rw (same, here)
  gather-skip (suc m) n zero i j g all from empty = absurd (omega arith)
  gather-skip (suc m) n (suc total) i j g all from empty =
      ap (λ l. l ++ gather total (suc i) g) (empty i (omega arith) (omega arith))
      ∙ gather-skip m n total (suc i) j g (omega arith) (omega arith)
          (λ k l u. empty k (omega arith) u)

abbrev pub zip_with {ℓ κ} : {A : Type ℓ} {B : Type κ} → (A → A → B) → List A → List A → List B
zip_with f [] ys = []
zip_with f (x ∷ xs) [] = []
zip_with f (x ∷ xs) (y ∷ ys) = f x y ∷ zip_with f xs ys

abbrev pub zip_with3 {ℓ κ} :
    {A : Type ℓ} {B : Type κ} → (A → A → A → B) → List A → List A → List A → List B
zip_with3 f [] ys zs = []
zip_with3 f (x ∷ xs) [] zs = []
zip_with3 f (x ∷ xs) (y ∷ ys) [] = []
zip_with3 f (x ∷ xs) (y ∷ ys) (z ∷ zs) = f x y z ∷ zip_with3 f xs ys zs

abbrev pub replicate {ℓ} : {A : Type ℓ} → ℕ → A → List A
replicate zero x = []
replicate (suc n) x = x ∷ replicate n x

pub gather-replicate {ℓ} : {A : Type ℓ} (n i : ℕ) (x : A) → gather n i (λ k. x ∷ []) ≡ replicate n x
gather-replicate zero i x = refl
gather-replicate (suc n) i x = ap (λ l. x ∷ l) (gather-replicate n (suc i) x)
