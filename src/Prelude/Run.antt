-- ===== src/Prelude/Run.antt =====
-- How a run of the modelled code ends, and counted loops over such runs.
use Prim.Native.Nat.{ℕ, zero, suc, ◌+◌, ◌≤◌, ◌<◌}
use mathlib.Core.Path.{◌≡◌, refl}
use mathlib.Core.Logic.{◌≢◌}
use mathlib.Core.Bool.{Bool, true, false}
use mathlib.Core.List.{List, [], ◌∷◌}
use native.Mathlib.Omega.{arith}

-- `blocked`: a read of a stream that delivers no further value.
-- `fault`: an array index out of range. `aborted`: a failed `assert`. `out_of_fuel`: the rounds that
-- the model allows for a recursion are used up.
pub data Outcome {ℓ} (A : Type ℓ) : Type ℓ where
  done : A → Outcome A
  blocked fault aborted out_of_fuel : Outcome A

infixl 5 ◌>>=◌ ◌>>◌
abbrev pub ◌>>=◌ {ℓ κ} : {A : Type ℓ} {B : Type κ} → Outcome A → (A → Outcome B) → Outcome B
done a >>= f = f a
blocked >>= f = blocked
fault >>= f = fault
aborted >>= f = aborted
out_of_fuel >>= f = out_of_fuel

abbrev pub ◌>>◌ {ℓ} : {B : Type ℓ} → Outcome (Unit {0}) → Outcome B → Outcome B
m >> k = m >>= λ _. k

-- `s >> x` and `s.read()`: an input stream is the list of the values that its reads deliver.
abbrev pub fetch {ℓ} : {A : Type ℓ} → List A → Outcome (A × List A)
fetch [] = blocked
fetch (x ∷ xs) = done (x, xs)

-- `assert(b)`
abbrev pub assert : Bool → Outcome (Unit {0})
assert true = done tt
assert false = aborted

-- `for (k = i; k < i + n; k++) s = body k s`, recurring on the rounds left.
unfoldable pub for_up {ℓ} : {S : Type ℓ} → ℕ → ℕ → (ℕ → S → Outcome S) → S → Outcome S
for_up zero i body s = done s
for_up (suc n) i body s = body i s >>= for_up n (suc i) body

module _ {ℓ} {S : Type ℓ} (body : ℕ → S → Outcome S) where
  pub for_up-zero : (i : ℕ) (s : S) → for_up 0 i body s ≡ done s
  unfolding for_up
  for_up-zero i s = refl

  pub for_up-suc :
      (n i : ℕ) (s : S) → for_up (suc n) i body s ≡ (body i s >>= for_up n (suc i) body)
  unfolding for_up
  for_up-suc n i s = refl

-- Total correctness of a counted loop: rounds that return and keep the invariant make a loop that
-- returns with it.
pub for_up_inv {ℓ κ} :
    {S : Type ℓ} (P : ℕ → S → Type κ) (body : ℕ → S → Outcome S) (n i j : ℕ)
    → i + n ≡ j
    → ((k : ℕ) (s : S) → i ≤ k → k < j → P k s → (t : S) × (body k s ≡ done t) × P (suc k) t)
    → (s : S) → P i s
    → (t : S) × (for_up n i body s ≡ done t) × P j t
unfolding for_up
for_up_inv P body zero i j e keep s p = (s, refl, (let e' : i ≡ j = omega arith in rw (← e') p))
for_up_inv P body (suc n) i j e keep s p =
    let (s', first, p') = keep i s (omega arith) (omega arith) p in
    let (t, rest, q) =
      for_up_inv P body n (suc i) j (omega arith) (λ k u l h. keep k u (omega arith) h) s' p' in
    (t, rw first rest, q)

-- A loop whose rounds change nothing.
pub for_up_idle {ℓ} :
    {S : Type ℓ} (body : ℕ → S → Outcome S) (n i j : ℕ) (s : S)
    → i + n ≡ j
    → ((k : ℕ) → i ≤ k → k < j → body k s ≡ done s)
    → for_up n i body s ≡ done s
unfolding for_up
for_up_idle body zero i j s e same = refl
for_up_idle body (suc n) i j s e same =
    rw (same i (omega arith) (omega arith))
      (for_up_idle body n (suc i) j s (omega arith) (λ k l h. same k (omega arith) h))

-- The same loop over a body that cannot fail.
unfoldable pub loop {ℓ} : {S : Type ℓ} → ℕ → ℕ → (ℕ → S → S) → S → S
loop zero i body s = s
loop (suc n) i body s = loop n (suc i) body (body i s)

pub loop_inv {ℓ κ} :
    {S : Type ℓ} (P : ℕ → S → Type κ) (body : ℕ → S → S) (n i j : ℕ)
    → i + n ≡ j
    → ((k : ℕ) (s : S) → i ≤ k → k < j → P k s → P (suc k) (body k s))
    → (s : S) → P i s
    → P j (loop n i body s)
unfolding loop
loop_inv P body zero i j e keep s p = let e' : i ≡ j = omega arith in rw (← e') p
loop_inv P body (suc n) i j e keep s p =
    loop_inv P body n (suc i) j (omega arith) (λ k u l h. keep k u (omega arith) h) (body i s)
      (keep i s (omega arith) (omega arith) p)

-- A loop whose first round faults.
pub for_up_fault {ℓ} :
    {S : Type ℓ} (body : ℕ → S → Outcome S) (n i : ℕ) (s : S)
    → 0 < n
    → body i s ≡ fault
    → for_up n i body s ≡ fault
unfolding for_up
for_up_fault body zero i s some_rounds e = absurd (omega arith)
for_up_fault body (suc n) i s some_rounds e = rw e

pub bind_never {ℓ κ} :
    {A : Type ℓ} {B : Type κ} (m : Outcome A) (f : A → Outcome B)
    → ((a : A) → m ≡ done a → (b : B) → f a ≢ done b)
    → (b : B) → (m >>= f) ≢ done b
bind_never (done a) f never b e = never a refl b e
bind_never blocked f never b e = absurd (cc)
bind_never fault f never b e = absurd (cc)
bind_never aborted f never b e = absurd (cc)
bind_never out_of_fuel f never b e = absurd (cc)

-- A loop with a round that never returns does not return; it is `d` rounds away.
pub for_up_never {ℓ} :
    {S : Type ℓ} (body : ℕ → S → Outcome S) (n i d k : ℕ)
    → i + d ≡ k
    → d < n
    → ((s t : S) → body k s ≢ done t)
    → (s t : S) → for_up n i body s ≢ done t
unfolding for_up
for_up_never body zero i d k at in_rounds never s = absurd (omega arith)
for_up_never body (suc n) i zero k at in_rounds never s =
    bind_never (body i s) (for_up n (suc i) body)
      (λ u first. absurd (never s u (let here : k ≡ i = omega arith in rw here first)))
for_up_never body (suc n) i (suc d) k at in_rounds never s =
    bind_never (body i s) (for_up n (suc i) body)
      (λ u first. for_up_never body n (suc i) d k (omega arith) (omega arith) never u)

-- A run that returns does so in each of its parts.
pub bind-done {ℓ κ} :
    {A : Type ℓ} {B : Type κ} (m : Outcome A) (f : A → Outcome B) {b : B}
    → (m >>= f) ≡ done b
    → (a : A) × (m ≡ done a) × (f a ≡ done b)
bind-done (done a) f e = (a, refl, e)
bind-done blocked f e = absurd (cc)
bind-done fault f e = absurd (cc)
bind-done aborted f e = absurd (cc)
bind-done out_of_fuel f e = absurd (cc)

-- A loop whose first `m` rounds return.
pub for_up-after {ℓ} :
    {S : Type ℓ} (body : ℕ → S → Outcome S) (m n total i j : ℕ) (s t : S)
    → m + n ≡ total
    → i + m ≡ j
    → for_up m i body s ≡ done t
    → for_up total i body s ≡ for_up n j body t
unfolding for_up
for_up-after body zero n total i j s t sum at ran =
    let (rounds, start) : (total ≡ n) × (i ≡ j) = (omega arith, omega arith) in
    let same : s ≡ t = ground arith in rw (rounds, start, same) refl
for_up-after body (suc m) n zero i j s t sum at ran = absurd (omega arith)
for_up-after body (suc m) n (suc total) i j s t sum at ran =
    let (u, first, more) = bind-done (body i s) (for_up m (suc i) body) ran in
    rw first (for_up-after body m n total (suc i) j u t (omega arith) (omega arith) more)
