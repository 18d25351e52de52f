-- ===== src/Cxx/Bytes/RoundTrip.antt =====
-- What toBytes and fromBytes compute, and that they undo each other.
use ipdbg.Prelude.{
  ℕ, zero, suc, ◌+◌, ◌-◌, ◌*◌, ◌/◌, ◌%◌, ◌^◌, ◌≤◌, ◌<◌, ◌≡◌, refl, ap, ◌∙◌, sym, false, List, [],
  ◌∷◌, arith, ltb, length, take, inl, inr, Bool-cases, if◌then◌else◌, ◌&&◌, not, ◌==◌,
}
use native.Mathlib.Nat.{
  pow-suc, one-le-pow, div-eq_of_lt, mod-eq_of_lt, pow-le-pow_right, div-div-eq-div-mul,
  mul-le-mul_right, le-div_iff_mul-le,
}
use ipdbg.Prelude.Bits.{ones, bit_or-shl, bit_and-ones}
use ipdbg.BusAccess.Core.{round_up}
use ipdbg.Cxx.{FieldName, exceeds, value, thrown}
use ipdbg.Cxx.Bytes.{digits, bytes_for_bits, to_bytes_loop, to_bytes, from_bytes_loop, from_bytes}

-- The number that bytes stand for, the least significant first.
unfoldable pub value_of : List ℕ → ℕ
value_of [] = 0
value_of (b ∷ bytes) = b % 2 ^ 8 + 256 * value_of bytes

-- The `n` lowest bytes of a number.
unfoldable pub little_endian : ℕ → ℕ → List ℕ
little_endian zero x = []
little_endian (suc n) x = x % 2 ^ 8 ∷ little_endian n (x / 256)

pub length-little_endian : (n x : ℕ) → length (little_endian n x) ≡ n
unfolding little_endian
length-little_endian zero x = refl
length-little_endian (suc n) x = ap suc (length-little_endian n (x / 256))

pub take-little_endian : (m n x : ℕ) → m ≤ n → take m (little_endian n x) ≡ little_endian m x
unfolding little_endian
take-little_endian zero n x h = refl
take-little_endian (suc m) zero x h = absurd (omega arith)
take-little_endian (suc m) (suc n) x h =
    ap (λ l. x % 2 ^ 8 ∷ l) (take-little_endian m n (x / 256) (omega arith))

-- One byte more.
pub pow_byte : (i : ℕ) → 2 ^ (suc i * 8) ≡ 256 * 2 ^ (i * 8)
pow_byte i = ap (λ (k : ℕ). 2 ^ k) eight ∙ simp (pow-suc) (omega arith)
  where
    eight : suc i * 8 ≡ suc (suc (suc (suc (suc (suc (suc (suc (i * 8))))))))
    eight = omega arith

pub pow_mono : (i j : ℕ) → i ≤ j → 2 ^ i ≤ 2 ^ j
pow_mono i j h = pow-le-pow_right (omega arith) h

pub pow_pos : (i : ℕ) → 1 ≤ 2 ^ i
pow_pos i = one-le-pow i 2 (omega arith)

-- The bytes from the size of the type on are 0.
to_bytes_loop-eq :
    (size number left i : ℕ)
    → number < 2 ^ digits size
    → to_bytes_loop size number left i ≡ little_endian left (number / 2 ^ (i * 8))
unfolding to_bytes_loop little_endian
to_bytes_loop-eq size number zero i h = refl
to_bytes_loop-eq size number (suc left) i h =
    rw (to_bytes_loop-eq size number left (suc i) h, shifted)
      (elim (Bool-cases (ltb i size)) [
        | inl low ↦ rw low refl
        | inr high ↦ rw (high, div-eq_of_lt (above (ground (arith, high)))) refl
      ])
  where
    shifted : number / 2 ^ (suc i * 8) ≡ number / 2 ^ (i * 8) / 256
    shifted =
        ap (λ (k : ℕ). number / k) (pow_byte i ∙ omega arith)
        ∙ sym (div-div-eq-div-mul number (2 ^ (i * 8)) 256)

    above : size ≤ i → number < 2 ^ (i * 8)
    above big = omega (arith, pow_mono (size * 8) (i * 8) (omega arith))

pub value_of_lt : (bytes : List ℕ) → value_of bytes < 2 ^ (length bytes * 8)
unfolding value_of
value_of_lt [] = omega arith
value_of_lt (b ∷ bytes) = omega (arith, value_of_lt bytes, pow_byte (length bytes))

pub value_of-little_endian : (n x : ℕ) → x < 2 ^ (n * 8) → value_of (little_endian n x) ≡ x
unfolding value_of little_endian
value_of-little_endian zero x h = omega arith
value_of-little_endian (suc n) x h =
    omega (arith, value_of-little_endian n (x / 256) (omega (arith, pow_byte n)))

from_bytes_loop-eq :
    (size result i : ℕ) (buffer : List ℕ)
    → result < 2 ^ (i * 8)
    → i + length buffer ≤ size
    → from_bytes_loop size result i buffer ≡ result + value_of buffer * 2 ^ (i * 8)
unfolding from_bytes_loop value_of
from_bytes_loop-eq size result i [] h fits = omega arith
from_bytes_loop-eq size result i (b ∷ buffer) h fits =
    rw (mod-eq_of_lt below, bit_or-shl (i * 8) result c h)
      (from_bytes_loop-eq size (result + c * p) (suc i) buffer (omega (arith, under, pow_byte i))
          (omega arith)
        ∙ rw (pow_byte i) (grind arith))
  where
    c : ℕ
    c = b % 2 ^ 8

    p : ℕ
    p = 2 ^ (i * 8)

    under : c * p + p ≤ 256 * p
    under = let q : suc c * p ≤ 256 * p = mul-le-mul_right p (omega arith) in omega (arith, q)

    below : c * p < 2 ^ digits size
    below =
        omega
          (arith, under, pow_pos (i * 8), pow_byte i, pow_mono (suc i * 8) (size * 8) (omega arith))

-- The bytes of a field are the least that hold it, and what the C library takes for it, which wraps
-- around close to 2 ^ 32, is not more.
pub bytes_for_bits_bounds :
    (bits : ℕ) → (bits ≤ bytes_for_bits bits * 8) × (round_up bits ≤ bytes_for_bits bits)
unfolding bytes_for_bits round_up
bytes_for_bits_bounds bits = (omega arith, omega arith)

-- The guard of `toBytes` looks at the bits beyond the width.
exceeds_test :
    (size number bits : ℕ)
    → number < 2 ^ digits size
    → (ltb bits (digits size) && not (number / 2 ^ bits == 0)) ≡ not (ltb number (2 ^ bits))
exceeds_test size number bits h = elim (Bool-cases (ltb number (2 ^ bits))) [
  | inl fits ↦
      let none_left : number / 2 ^ bits ≡ 0 = div-eq_of_lt (ground (arith, fits)) in
      ground (arith, fits, none_left)
  | inr big ↦
      let least : 1 * 2 ^ bits ≤ number = ground (arith, big) in
      let some_left : 1 ≤ number / 2 ^ bits = (le-div_iff_mul-le (pow_pos bits)).1 least in
      let under : bits < digits size = narrow least in ground (arith, big, some_left, under)
]
  where
    narrow : 1 * 2 ^ bits ≤ number → bits < digits size
    narrow least = elim (Bool-cases (ltb bits (size * 8))) [
      | inl under ↦ ground (arith, under)
      | inr over ↦
          let wide : size * 8 ≤ bits = ground (arith, over) in
          absurd (omega (arith, pow_mono (size * 8) bits wide))
    ]

-- A number that the width holds becomes its bytes, and every other is refused.
pub to_bytes-eq :
    (size number bits : ℕ) (field : FieldName)
    → number < 2 ^ digits size
    → to_bytes size number bits field ≡ (
        if ltb number (2 ^ bits)
        then value (little_endian (bytes_for_bits bits) number)
        else thrown (exceeds field number bits))
unfolding to_bytes
to_bytes-eq size number bits field h =
    rw (exceeds_test size number bits h, to_bytes_loop-eq size number (bytes_for_bits bits) 0 h)
      (elim (Bool-cases (ltb number (2 ^ bits))) [
        | inl fits ↦ rw fits (ap (λ (k : ℕ). value (little_endian (bytes_for_bits bits) k)) whole)
        | inr big ↦ rw big refl
      ])
  where
    whole : number / 2 ^ (0 * 8) ≡ number
    whole = omega arith

-- A number of enough bytes, without the bits beyond the width.
pub from_bytes-eq :
    (size bits : ℕ) (buffer : List ℕ)
    → length buffer ≡ bytes_for_bits bits
    → bits ≤ digits size
    → from_bytes size buffer bits ≡ value (value_of buffer % 2 ^ bits)
unfolding from_bytes bytes_for_bits
from_bytes-eq size bits buffer count fits =
    rw (enough, from_bytes_loop-eq size 0 0 buffer (omega arith) (omega arith), whole)
      (elim (Bool-cases (ltb bits (digits size))) [
        | inl narrow ↦
            rw (narrow, within (ground (arith, narrow)), bit_and-ones bits (value_of buffer)) refl
        | inr full ↦ rw full (ap value (sym (mod-eq_of_lt (filled (ground (arith, full))))))
      ])
  where
    enough : ltb (digits size) bits ≡ false
    enough = ground arith

    filled : size * 8 ≤ bits → value_of buffer < 2 ^ bits
    filled wide =
        omega (arith, value_of_lt buffer, pow_mono (length buffer * 8) bits (omega (arith, count)))

    whole : 0 + value_of buffer * 2 ^ (0 * 8) ≡ value_of buffer
    whole = omega arith

    within : bits < size * 8 → (1 * 2 ^ bits - 1) % 2 ^ digits size ≡ ones bits
    within narrow =
        mod-eq_of_lt (omega (arith, pow_mono bits (size * 8) (omega arith), pow_pos bits))
        ∙ omega arith

-- For an unsigned type of any size and a field that it can hold, what `toBytes` makes of a number
-- is read back by `fromBytes` as that number.
pub from_bytes-to_bytes :
    (size number bits : ℕ) (field : FieldName) (buffer : List ℕ)
    → number < 2 ^ digits size
    → bits ≤ digits size
    → to_bytes size number bits field ≡ value buffer
    → from_bytes size buffer bits ≡ value number
from_bytes-to_bytes size number bits field buffer h holds made =
    elim (Bool-cases (ltb number (2 ^ bits))) [
      | inl fits ↦
          let under : number < 2 ^ bits = ground (arith, fits) in
          let same : little_endian n number ≡ buffer =
            cc (made, fits, to_bytes-eq size number bits field h) in
          rw
            (
              ← same,
              from_bytes-eq size bits (little_endian n number) (length-little_endian n number)
                  holds,
              value_of-little_endian n number (room under),
              mod-eq_of_lt under,
            )
            refl
      | inr big ↦ cc (made, big, to_bytes-eq size number bits field h)
    ]
  where
    n : ℕ
    n = bytes_for_bits bits

    room : number < 2 ^ bits → number < 2 ^ (n * 8)
    room under = omega (arith, pow_mono bits (n * 8) (bytes_for_bits_bounds bits).0)
