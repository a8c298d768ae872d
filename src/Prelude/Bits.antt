-- ===== src/Prelude/Bits.antt =====
-- The native bit operations at variables: the law for the lowest binary digit, and what follows.
use Prim.Native.Nat.{ℕ, zero, suc, ◌+◌, ◌-◌, ◌*◌, ◌/◌, ◌%◌, ◌^◌, ◌≤◌, ◌<◌, min, max}
use Prim.Native.Nat.{bit_and, bit_or, bit_xor, differ, digits, bitwise}
use Prim.Native.Nat.{bit_and-bitwise, bit_or-bitwise, bit_xor-bitwise}
use native.Mathlib.Nat.{zero-add, suc-add, pow-succ', div-div-eq-div-mul, zero-div}
use native.Mathlib.Omega.{arith}
use mathlib.Core.Path.{◌≡◌, refl, ap, subst, sym, ◌∙◌}
use mathlib.Core.Logic.{◌≢◌}

-- The operations count down fuel, for which their first number serves. Any more fuel gives the same.
module _ (at_end : ℕ → ℕ) (op : ℕ → ℕ → ℕ) where
  one_more : (n a b : ℕ) → a ≤ n → digits at_end op (suc n) a b ≡ digits at_end op n a b
  one_more zero (suc a) b h = elim h [ ]
  one_more zero zero b h = refl
  one_more (suc n) zero b h = refl
  one_more (suc n) (suc a) b h =
      ap (λ (t : ℕ). t * 2 + op (suc a % 2) (b % 2)) (one_more n (suc a / 2) (b / 2) (omega arith))

  any_more : (k a b : ℕ) → digits at_end op (k + a) a b ≡ digits at_end op a a b
  any_more zero a b = rw zero-add
  any_more (suc k) a b = rw (suc-add k a) (one_more (k + a) a b (omega arith) ∙ any_more k a b)

  enough : (n a b : ℕ) → a ≤ n → digits at_end op n a b ≡ bitwise at_end op a b
  enough n a b h =
      let e : n - a + a ≡ n = omega arith in
      subst (λ m. digits at_end op m a b ≡ bitwise at_end op a b) e (any_more (n - a) a b)

  last_digit :
      (a b : ℕ)
      → bitwise at_end op (suc a) b
        ≡ bitwise at_end op (suc a / 2) (b / 2) * 2 + op (suc a % 2) (b % 2)
  last_digit a b =
      ap (λ (t : ℕ). t * 2 + op (suc a % 2) (b % 2)) (enough a (suc a / 2) (b / 2) (omega arith))

pub bit_and-halves : (a b : ℕ) → bit_and a b ≡ 2 * bit_and (a / 2) (b / 2) + min (a % 2) (b % 2)
bit_and-halves zero b = omega (arith, bit_and-bitwise 0 b, bit_and-bitwise 0 (b / 2))
bit_and-halves (suc a) b = omega (
  arith,
  bit_and-bitwise (suc a) b,
  last_digit (λ b. zero) min a b,
  bit_and-bitwise (suc a / 2) (b / 2),
)

pub bit_or-halves : (a b : ℕ) → bit_or a b ≡ 2 * bit_or (a / 2) (b / 2) + max (a % 2) (b % 2)
bit_or-halves zero b = omega (arith, bit_or-bitwise 0 b, bit_or-bitwise 0 (b / 2))
bit_or-halves (suc a) b = omega (
  arith,
  bit_or-bitwise (suc a) b,
  last_digit (λ b. b) max a b,
  bit_or-bitwise (suc a / 2) (b / 2),
)

-- Binary digit `i` of a number.
abbrev pub bit : ℕ → ℕ → ℕ
bit a i = a / 2 ^ i % 2

pub bit-suc : (a i : ℕ) → bit a (suc i) ≡ bit (a / 2) i
bit-suc a i =
    ap (λ (t : ℕ). t % 2)
      (ap (λ (t : ℕ). a / t) (pow-succ' 2 i) ∙ sym (div-div-eq-div-mul a 2 (2 ^ i)))

bit-half : (a c i : ℕ) → a / 2 ≡ c → bit a (suc i) ≡ bit c i
bit-half a c i e = bit-suc a i ∙ ap (λ (t : ℕ). bit t i) e

pub zero-bit : (i : ℕ) → bit 0 i ≡ 0
zero-bit i = rw zero-div

pub bit-bit_or : (i a b : ℕ) → bit (bit_or a b) i ≡ max (bit a i) (bit b i)
bit-bit_or zero a b = omega (arith, bit_or-halves a b)
bit-bit_or (suc i) a b =
    rw (bit-suc a i, bit-suc b i)
      (bit-half _ _ i (omega (arith, bit_or-halves a b)) ∙ bit-bit_or i (a / 2) (b / 2))

pub bit-bit_and : (i a b : ℕ) → bit (bit_and a b) i ≡ min (bit a i) (bit b i)
bit-bit_and zero a b = omega (arith, bit_and-halves a b)
bit-bit_and (suc i) a b =
    rw (bit-suc a i, bit-suc b i)
      (bit-half _ _ i (omega (arith, bit_and-halves a b)) ∙ bit-bit_and i (a / 2) (b / 2))

-- `1 << i` has the one digit `i`.
pub bit-pow_self : (i : ℕ) → bit (2 ^ i) i ≡ 1
bit-pow_self zero = refl
bit-pow_self (suc i) = bit-half _ _ i (omega (arith, pow-succ' 2 i)) ∙ bit-pow_self i

pub bit-pow_ne : (i j : ℕ) → i ≢ j → bit (2 ^ i) j ≡ 0
bit-pow_ne zero zero h = absurd (h refl)
bit-pow_ne zero (suc j) h = bit-suc 1 j ∙ zero-bit j
bit-pow_ne (suc i) zero h = omega (arith, pow-succ' 2 i)
bit-pow_ne (suc i) (suc j) h =
    bit-half _ _ j (omega (arith, pow-succ' 2 i)) ∙ bit-pow_ne i j (λ e. h (ap suc e))

and_nothing : (n a : ℕ) → digits (λ b. zero) min n a 0 ≡ 0
and_nothing zero a = refl
and_nothing (suc n) zero = refl
and_nothing (suc n) (suc a) = omega (arith, and_nothing n (suc a / 2))

pub bit_and-zero : (a : ℕ) → bit_and a 0 ≡ 0
bit_and-zero a = bit_and-bitwise a 0 ∙ and_nothing a a

double-half : (p : ℕ) → 2 * p / 2 ≡ p
double-half p = omega arith

bit_and_double : (a p : ℕ) → bit_and a (2 * p) ≡ 2 * bit_and (a / 2) p
bit_and_double a p = omega (arith, bit_and-halves a (2 * p), ap (bit_and (a / 2)) (double-half p))

bit_or_double : (a p : ℕ) → bit_or a (2 * p) ≡ 2 * bit_or (a / 2) p + a % 2
bit_or_double a p = omega (arith, bit_or-halves a (2 * p), ap (bit_or (a / 2)) (double-half p))

double-mul : (b p : ℕ) → b * (2 * p) ≡ 2 * (b * p)
double-mul b p = omega arith

-- A test of one digit by its mask.
pub bit_and-pow : (i a : ℕ) → bit_and a (2 ^ i) ≡ bit a i * 2 ^ i
bit_and-pow zero a = omega (arith, bit_and-halves a 1, bit_and-zero (a / 2))
bit_and-pow (suc i) a =
    rw (bit-suc a i, pow-succ' 2 i, bit_and_double a (2 ^ i), bit_and-pow i (a / 2))
      (sym (double-mul (bit (a / 2) i) (2 ^ i)))

-- The complement within `n` digits.
pub bit-complement : (n i x : ℕ) → i < n → x < 2 ^ n → bit (2 ^ n - 1 - x) i ≡ 1 - bit x i
bit-complement zero i x h l = absurd (omega arith)
bit-complement (suc n) zero x h l = omega (arith, pow-succ' 2 n)
bit-complement (suc n) (suc i) x h l = rw (bit-suc x i) (
    bit-half _ _ i (omega (arith, pow-succ' 2 n))
    ∙ bit-complement n i (x / 2) (omega arith) (omega (arith, pow-succ' 2 n)))

zero-bit_or : (b : ℕ) → bit_or 0 b ≡ b
zero-bit_or b = bit_or-bitwise 0 b

-- `|` of a number below `2 ^ k` and one shifted by `k` digits.
pub bit_or_shift : (k a b : ℕ) → a < 2 ^ k → bit_or a (b * 2 ^ k) ≡ a + b * 2 ^ k
bit_or_shift zero zero b h = omega (arith, zero-bit_or (b * 1))
bit_or_shift zero (suc a) b h = absurd (omega arith)
bit_or_shift (suc k) a b h =
    rw
      (
        pow-succ' 2 k,
        double-mul b (2 ^ k),
        bit_or_double a (b * 2 ^ k),
        bit_or_shift k (a / 2) b (omega (arith, pow-succ' 2 k)),
      )
      (omega arith)

pub bit_xor-halves : (a b : ℕ) → bit_xor a b ≡ 2 * bit_xor (a / 2) (b / 2) + differ (a % 2) (b % 2)
bit_xor-halves zero b = zero_case b
  where
    zero_case : (b : ℕ) → bit_xor 0 b ≡ 2 * bit_xor 0 (b / 2) + b % 2
    zero_case b = omega (arith, bit_xor-bitwise 0 b, bit_xor-bitwise 0 (b / 2))
bit_xor-halves (suc a) b = omega (
  arith,
  bit_xor-bitwise (suc a) b,
  last_digit (λ b. b) differ a b,
  bit_xor-bitwise (suc a / 2) (b / 2),
)

differ-eq-zero : (x y : ℕ) → differ x y ≡ 0 → x ≡ y
differ-eq-zero zero y h = sym h
differ-eq-zero (suc x) zero h = absurd (omega arith)
differ-eq-zero (suc x) (suc y) h = ap suc (differ-eq-zero x y h)

differ-lt : (x y : ℕ) → x < 2 → y < 2 → differ x y < 2
differ-lt zero y h k = k
differ-lt (suc x) zero h k = h
differ-lt (suc x) (suc y) h k = differ-lt x y (omega arith) (omega arith)

-- Numbers of `k` binary digits have an exclusive or of `k` digits, and it is zero only if they are
-- equal.
pub bit_xor-lt : (k a b : ℕ) → a < 2 ^ k → b < 2 ^ k → bit_xor a b < 2 ^ k
bit_xor-lt zero zero zero h l = omega arith
bit_xor-lt zero zero (suc b) h l = absurd (omega arith)
bit_xor-lt zero (suc a) b h l = absurd (omega arith)
bit_xor-lt (suc k) a b h l = omega (
  arith,
  pow-succ' 2 k,
  bit_xor-halves a b,
  differ-lt (a % 2) (b % 2) (omega arith) (omega arith),
  bit_xor-lt k (a / 2) (b / 2) (omega (arith, pow-succ' 2 k)) (omega (arith, pow-succ' 2 k)),
)

pub bit_xor-eq-zero : (k a b : ℕ) → a < 2 ^ k → b < 2 ^ k → bit_xor a b ≡ 0 → a ≡ b
bit_xor-eq-zero zero a b h l e = omega arith
bit_xor-eq-zero (suc k) a b h l e =
    let high : a / 2 ≡ b / 2 =
      bit_xor-eq-zero k (a / 2) (b / 2) (omega (arith, pow-succ' 2 k))
        (omega (arith, pow-succ' 2 k)) (omega (arith, bit_xor-halves a b)) in
    let low : a % 2 ≡ b % 2 = differ-eq-zero (a % 2) (b % 2) (omega (arith, bit_xor-halves a b)) in
    omega (arith, high, low)
