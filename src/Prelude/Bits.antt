-- ===== src/Prelude/Bits.antt =====
-- `|`, `&` with a mask of ones and the shifts of C, as arithmetic on native numbers.
use Prim.Native.Nat.{min, max, bit_and, bit_or, digits, bit_and-bitwise, bit_or-bitwise}
use Prim.Native.Nat.{ℕ, zero, suc, ◌+◌, ◌-◌, ◌*◌, ◌/◌, ◌%◌, ◌^◌, ◌≤◌, ◌<◌}
use mathlib.Core.Path.{◌≡◌, refl, ap, ◌∙◌}
use native.Mathlib.Omega.{arith}
use native.Mathlib.Nat.{pow-suc, one-le-pow}

abbrev pub shl : ℕ → ℕ → ℕ
shl x k = x * 2 ^ k

abbrev pub shr : ℕ → ℕ → ℕ
shr x k = x / 2 ^ k

-- `(1 << k) - 1`
abbrev pub ones : ℕ → ℕ
ones k = 2 ^ k - 1

-- Any count of digits that covers the first number gives the same value.
enough_digits :
    (z : ℕ → ℕ) (f : ℕ → ℕ → ℕ) (n m a b : ℕ) → a ≤ n → a ≤ m → digits z f n a b ≡ digits z f m a b
enough_digits z f zero zero a b p q = refl
enough_digits z f zero (suc m) zero b p q = refl
enough_digits z f zero (suc m) (suc a) b p q = absurd (omega arith)
enough_digits z f (suc n) zero zero b p q = refl
enough_digits z f (suc n) zero (suc a) b p q = absurd (omega arith)
enough_digits z f (suc n) (suc m) zero b p q = refl
enough_digits z f (suc n) (suc m) (suc a) b p q =
    omega (arith, enough_digits z f n m (suc a / 2) (b / 2) (omega arith) (omega arith))

-- The lowest digit of a disjunction and of a conjunction.
pub bit_or_lowest : (a b : ℕ) → bit_or a b ≡ bit_or (a / 2) (b / 2) * 2 + max (a % 2) (b % 2)
bit_or_lowest zero b = omega (arith, bit_or-bitwise 0 b, bit_or-bitwise 0 (b / 2))
bit_or_lowest (suc a) b = omega (
  arith,
  bit_or-bitwise (suc a) b,
  bit_or-bitwise (suc a / 2) (b / 2),
  enough_digits (λ x. x) max a (suc a / 2) (suc a / 2) (b / 2) (omega arith) (omega arith),
)

pub bit_and_lowest : (a b : ℕ) → bit_and a b ≡ bit_and (a / 2) (b / 2) * 2 + min (a % 2) (b % 2)
bit_and_lowest zero b = omega (arith, bit_and-bitwise 0 b, bit_and-bitwise 0 (b / 2))
bit_and_lowest (suc a) b = omega (
  arith,
  bit_and-bitwise (suc a) b,
  bit_and-bitwise (suc a / 2) (b / 2),
  enough_digits (λ x. 0) min a (suc a / 2) (suc a / 2) (b / 2) (omega arith) (omega arith),
)

pub bit_and-zero_below : (n a : ℕ) → a ≤ n → bit_and a 0 ≡ 0
bit_and-zero_below n zero h = refl
bit_and-zero_below zero (suc a) h = absurd (omega arith)
bit_and-zero_below (suc n) (suc a) h =
    omega (arith, bit_and_lowest (suc a) 0, bit_and-zero_below n (suc a / 2) (omega arith))

double_shift : (b k : ℕ) → b * 2 ^ suc k ≡ 2 * (b * 2 ^ k)
double_shift b k = omega (arith, ap (λ (t : ℕ). b * t) (pow-suc 2 k))

-- `a | (b << k)` is a sum where `a` has `k` bits.
pub bit_or-shl : (k a b : ℕ) → a < 2 ^ k → bit_or a (shl b k) ≡ a + b * 2 ^ k
bit_or-shl zero zero b h = omega (arith, bit_or-bitwise 0 (b * 2 ^ 0))
bit_or-shl zero (suc a) b h = absurd (omega arith)
bit_or-shl (suc k) a b h = omega (
  arith,
  bit_or_lowest a (b * 2 ^ suc k),
  double_shift b k,
  pow-suc 2 k,
  ap (λ (t : ℕ). bit_or (a / 2) t) half,
  bit_or-shl k (a / 2) b (omega (arith, pow-suc 2 k)),
)
  where
    half : b * 2 ^ suc k / 2 ≡ b * 2 ^ k
    half = omega (arith, double_shift b k)

pub bit_or-zero_below : (n a : ℕ) → a ≤ n → bit_or a 0 ≡ a
bit_or-zero_below n zero h = refl
bit_or-zero_below zero (suc a) h = absurd (omega arith)
bit_or-zero_below (suc n) (suc a) h =
    omega (arith, bit_or_lowest (suc a) 0, bit_or-zero_below n (suc a / 2) (omega arith))

-- The same with the shifted field first.
pub shl-bit_or : (k b a : ℕ) → a < 2 ^ k → bit_or (shl b k) a ≡ b * 2 ^ k + a
shl-bit_or zero b zero h = bit_or-zero_below (b * 2 ^ 0) (b * 2 ^ 0) (omega arith) ∙ omega arith
shl-bit_or zero b (suc a) h = absurd (omega arith)
shl-bit_or (suc k) b a h = omega (
  arith,
  bit_or_lowest (b * 2 ^ suc k) a,
  double_shift b k,
  ap (λ (t : ℕ). bit_or t (a / 2)) half,
  shl-bit_or k b (a / 2) (omega (arith, pow-suc 2 k)),
)
  where
    half : b * 2 ^ suc k / 2 ≡ b * 2 ^ k
    half = omega (arith, double_shift b k)

-- A mask of `k` ones keeps the low field.
bit_and_low_field : (k r q : ℕ) → r < 2 ^ k → bit_and (r + q * 2 ^ k) (ones k) ≡ r
bit_and_low_field zero r q h =
    omega (arith, bit_and-zero_below (r + q * 2 ^ 0) (r + q * 2 ^ 0) (omega arith))
bit_and_low_field (suc k) r q h = omega (
  arith,
  bit_and_lowest (r + q * 2 ^ suc k) (ones (suc k)),
  double_shift q k,
  pow-suc 2 k,
  ap (λ (t : ℕ). bit_and t (ones (suc k) / 2)) halved,
  ap (λ (t : ℕ). bit_and (r / 2 + q * 2 ^ k) t) mask,
  one-le-pow k 2 (omega arith),
  bit_and_low_field k (r / 2) q (omega (arith, pow-suc 2 k)),
)
  where
    halved : (r + q * 2 ^ suc k) / 2 ≡ r / 2 + q * 2 ^ k
    halved = omega (arith, double_shift q k)

    mask : ones (suc k) / 2 ≡ ones k
    mask = omega (arith, pow-suc 2 k, one-le-pow k 2 (omega arith))

-- `a & ((1 << k) - 1)` is a remainder.
pub bit_and-ones : (k a : ℕ) → bit_and a (ones k) ≡ a % 2 ^ k
bit_and-ones k a =
    ground (arith, one-le-pow k 2 (omega arith), bit_and_low_field k (a % 2 ^ k) (a / 2 ^ k))
