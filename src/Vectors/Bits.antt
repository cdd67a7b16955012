-- ===== src/Vectors/Bits.antt =====
-- A vector of bits with the laws that the vector operators ask for: the positions from `size` on keep
-- their bits.
use hipacc_vivado.Prelude.{
  ℕ, zero, suc, ◌+◌, ◌-◌, ◌*◌, ◌/◌, ◌%◌, ◌^◌, ◌<◌, ◌≡◌, refl, ap, ◌∙◌, sym, arith, Bool, true,
  false, ◌&&◌, ltb, leb, ◌==◌, if◌then◌else◌,
}
use native.Mathlib.Nat.{
  mod-add-div', mod-lt, mul-add-mod_self_right, mod-eq_of_lt, pow-suc, one-le-pow,
}
use hipacc_vivado.Vectors.Lanes.{RangeLaws}

-- Bit `i` of a number.
abbrev pub bit_at : ℕ → ℕ → Bool
bit_at b zero = b % 2 == 1
bit_at b (suc i) = bit_at (b / 2) i

-- The number of the first `n` bits.
abbrev pub bits_value : ℕ → (ℕ → Bool) → ℕ
bits_value zero f = 0
bits_value (suc n) f = (if f 0 then 1 else 0) + 2 * bits_value n (λ i. f (suc i))

bits_value-cong :
    (n : ℕ) (f g : ℕ → Bool) → ((i : ℕ) → i < n → f i ≡ g i) → bits_value n f ≡ bits_value n g
bits_value-cong zero f g same = refl
bits_value-cong (suc n) f g same =
    let rest =
      bits_value-cong n (λ i. f (suc i)) (λ i. g (suc i)) (λ i h. same (suc i) (omega arith)) in
    rw (same 0 (omega arith), rest)

double_mod : (m b : ℕ) → 0 < m → b % (2 * m) ≡ b % 2 + 2 * (b / 2 % m)
double_mod m b pos =
    let division = mod-add-div' (b / 2) m in
    let below = mod-lt (b / 2) pos in
    let low = b % 2 + 2 * (b / 2 % m) in
    let twice : b / 2 / m * (2 * m) ≡ 2 * (b / 2 / m * m) = grind arith in
    let whole : b ≡ b / 2 / m * (2 * m) + low = omega arith in
    ap (λ n. n % (2 * m)) whole
    ∙ mul-add-mod_self_right (b / 2 / m) (2 * m) low
    ∙ mod-eq_of_lt (omega arith)

bits_value-bit_at : (n b : ℕ) → bits_value n (bit_at b) ≡ b % 2 ^ n
bits_value-bit_at zero b = omega arith
bits_value-bit_at (suc n) b =
    let lowest : (if b % 2 == 1 then 1 else 0) ≡ b % 2 = ground arith in
    let power : 2 ^ suc n ≡ 2 * 2 ^ n = omega (arith, pow-suc 2 n) in
    rw (lowest, power, bits_value-bit_at n (b / 2))
      (sym (double_mod (2 ^ n) b (one-le-pow n 2 (omega arith))))

abbrev pub get_bits : (ℕ → Bool) → ℕ → ℕ → ℕ
get_bits v lo hi = bits_value (hi + 1 - lo) (λ i. v (lo + i))

abbrev pub assign_bits : ℕ → (ℕ → Bool) → ℕ → ℕ → ℕ → ℕ → Bool
assign_bits size v lo hi b k =
    if ltb k size && (leb lo k && leb k hi) then bit_at b (k - lo) else v k

abbrev pub low_bits : ℕ → ℕ → ℕ
low_bits n b = b % 2 ^ n

pub bits-RangeLaws : (size : ℕ) → RangeLaws size low_bits get_bits (assign_bits size)
bits-RangeLaws size = record {
  assigned = λ u lo hi b h inside.
      bits_value-cong (hi + 1 - lo) _ (bit_at b) (λ i l.
        (let here : (ltb (lo + i) size && (leb lo (lo + i) && leb (lo + i) hi)) ≡ true =
            ground arith in
          let same : lo + i - lo ≡ i = omega arith in rw (here, same)))
      ∙ bits_value-bit_at (hi + 1 - lo) b;
  untouched = λ u lo hi lo' hi' b h h' inside inside' apart.
      bits_value-cong (hi' + 1 - lo') _ (λ i. u (lo' + i))
        (λ i l.
          (let outside : (ltb (lo' + i) size && (leb lo (lo' + i) && leb (lo' + i) hi)) ≡ false =
              ground arith in
            rw outside));
}
