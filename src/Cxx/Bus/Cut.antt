-- ===== src/Cxx/Bus/Cut.antt =====
-- sw/BusAccess/BusAccessCxx.tpp: the bytes of a number that fits into a field lose nothing where the
-- core cuts them to the width.
use Prim.Native.Nat.{min}
use ipdbg.Prelude.{
  ℕ, zero, suc, ◌-◌, ◌*◌, ◌/◌, ◌%◌, ◌^◌, ◌≤◌, ◌<◌, ◌≡◌, refl, ap, ◌∙◌, ◌∷◌, ltb, Bool-cases, inl,
  inr, arith, take,
}
use mathlib.Core.Path.{ap₂}
use native.Mathlib.Nat.{pow-suc, mod-eq_of_lt}
use ipdbg.BusAccess.Core.{round_up}
use ipdbg.BusAccess.Target.{cut}
use ipdbg.Cxx.Bytes.{bytes_for_bits}
use ipdbg.Cxx.Bytes.RoundTrip.{little_endian, take-little_endian, bytes_for_bits_bounds, pow_mono}
use ipdbg.Cxx.Bus.Written.{field_bytes}

pow_split : (bits : ℕ) → 8 ≤ bits → 2 ^ bits ≡ 256 * 2 ^ (bits - 8)
pow_split bits h = ap (λ (k : ℕ). 2 ^ k) eight ∙ simp (pow-suc) (omega arith)
  where
    eight : bits ≡ suc (suc (suc (suc (suc (suc (suc (suc (bits - 8))))))))
    eight = omega arith

first_byte : (bits x : ℕ) → x < 2 ^ bits → x % 2 ^ 8 % 2 ^ min bits 8 ≡ x % 2 ^ 8
first_byte bits x fits = elim (Bool-cases (ltb bits 8)) [
  | inl narrow ↦
      let few : bits < 8 = ground (arith, narrow) in
      let same : min bits 8 ≡ bits = omega arith in
      rw same (mod-eq_of_lt (omega (arith, pow_mono bits 8 (omega arith))))
  | inr wide ↦ let same : min bits 8 ≡ 8 = ground (arith, wide) in rw same (omega arith)
]

other_bytes : (bits x : ℕ) → x < 2 ^ bits → x / 256 < 2 ^ (bits - 8)
other_bytes bits x fits = elim (Bool-cases (ltb bits 8)) [
  | inl narrow ↦
      let few : bits < 8 = ground (arith, narrow) in
      let none_left : bits - 8 ≡ 0 = omega arith in
      rw none_left (omega (arith, pow_mono bits 8 (omega arith)))
  | inr wide ↦ omega (arith, pow_split bits (ground (arith, wide)))
]

cut-little_endian : (bits n x : ℕ) → x < 2 ^ bits → cut bits (little_endian n x) ≡ little_endian n x
unfolding cut little_endian
cut-little_endian bits zero x fits = refl
cut-little_endian bits (suc n) x fits =
    ap₂ (λ b l. b ∷ l) (first_byte bits x fits)
      (cut-little_endian (bits - 8) n (x / 256) (other_bytes bits x fits))

-- What the core keeps of the bytes that the class passes on.
pub cut-field_bytes :
    (bits bytes number : ℕ)
    → bytes ≡ round_up bits
    → number < 2 ^ bits
    → cut bits (take bytes (field_bytes bits number)) ≡ little_endian bytes number
cut-field_bytes bits bytes number rounded fits =
    ap (cut bits) (
      take-little_endian bytes (bytes_for_bits bits) number
        (omega (arith, rounded, (bytes_for_bits_bounds bits).1)))
    ∙ cut-little_endian bits bytes number fits
