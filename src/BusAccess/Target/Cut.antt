-- ===== src/BusAccess/Target/Cut.antt =====
-- The registers of rtl/BusAccess/BusAccessStatemachine.vhd, by the numbers that their bytes stand for.
use Prim.Native.Nat.{min}
use ipdbg.Prelude.{
  ℕ, zero, suc, ◌+◌, ◌-◌, ◌*◌, ◌/◌, ◌%◌, ◌^◌, ◌≤◌, ◌<◌, ◌≡◌, refl, ap, ◌∙◌, sym, List, [], ◌∷◌,
  arith, length, ltb, Bool-cases, inl, inr,
}
use mathlib.Core.Path.{ap₂}
use native.Mathlib.Nat.{
  pow-suc, one-le-pow, pow-le-pow_right, add-mul-mod_self_left, mod-eq_of_lt, mod-add-div,
  mul_assoc, mod-lt,
}
use ipdbg.BusAccess.Target.{cut, bytes_of}

-- The number that bytes stand for, the least significant first.
unfoldable pub number : List ℕ → ℕ
number [] = 0
number (b ∷ bytes) = b % 2 ^ 8 + 2 ^ 8 * number bytes

-- As many bytes for the number modulo `2 ^ bits`.
abbrev pub low : ℕ → List ℕ → List ℕ
low bits bytes = bytes_of (number bytes % 2 ^ bits) (length bytes)

same_power : (i j : ℕ) → i ≡ j → 2 ^ i ≡ 2 ^ j
same_power i j same = ap (λ (k : ℕ). 2 ^ k) same

pow_plus : (i k : ℕ) → 2 ^ (i + k) ≡ 2 ^ i * 2 ^ k
pow_plus zero k = omega (arith, same_power (0 + k) k (omega arith))
pow_plus (suc i) k =
    same_power (suc i + k) (suc (i + k)) (omega arith)
    ∙ pow-suc 2 (i + k)
    ∙ omega (arith, pow_plus i k, ap (λ (t : ℕ). t * 2 ^ k) (pow-suc 2 i))

times : (p m v : ℕ) → p * m ≡ 256 → 256 * v ≡ p * (m * v)
times p m v h = ap (λ (t : ℕ). t * v) (sym h) ∙ mul_assoc p m v

-- Up to eight bits are bits of the first byte.
narrow : (p m b v : ℕ) → p * m ≡ 256 → (b % 256 + 256 * v) % p ≡ b % p
narrow p m b v h =
    ap (λ (t : ℕ). (b % 256 + t) % p) (times p m v h)
    ∙ add-mul-mod_self_left (b % 256) p (m * v)
    ∙ sym (add-mul-mod_self_left (b % 256) p (m * (b / 256)))
    ∙ ap (λ (t : ℕ). t % p) (omega (arith, times p m (b / 256) h))

-- More bits are the first byte and bits of the others.
wide : (q b v : ℕ) → 1 ≤ q → (b % 256 + 256 * v) % (256 * q) ≡ b % 256 + 256 * (v % q)
wide q b v h =
    ap (λ (t : ℕ). t % (256 * q)) regrouped
    ∙ add-mul-mod_self_left (b % 256 + 256 * (v % q)) (256 * q) (v / q)
    ∙ mod-eq_of_lt (omega (arith, mod-lt v h))
  where
    regrouped : b % 256 + 256 * v ≡ b % 256 + 256 * (v % q) + 256 * q * (v / q)
    regrouped = omega (arith, mod-add-div v q, mul_assoc 256 q (v / q))

-- The first byte and the others, of a number modulo a power of 2.
split :
    (bits b v : ℕ)
    → ((b % 2 ^ 8 + 2 ^ 8 * v) % 2 ^ bits % 2 ^ 8 ≡ b % 2 ^ min bits 8)
      × ((b % 2 ^ 8 + 2 ^ 8 * v) % 2 ^ bits / 2 ^ 8 ≡ v % 2 ^ (bits - 8))
split bits b v = elim (Bool-cases (ltb bits 8)) [
  | inl few ↦
      let small : bits < 8 = ground (arith, few) in
      let same : min bits 8 ≡ bits = omega arith in
      let gone : bits - 8 ≡ 0 = omega arith in
      let whole : 2 ^ bits * 2 ^ (8 - bits) ≡ 256 =
        sym (pow_plus bits (8 - bits)) ∙ same_power (bits + (8 - bits)) 8 (omega arith) in
      let low_bits = narrow (2 ^ bits) (2 ^ (8 - bits)) b v whole in
      let bound = mod-lt b (one-le-pow bits 2 (omega arith)) in
      let most : 2 ^ bits ≤ 2 ^ 8 = pow-le-pow_right (omega arith) {j = 8} (omega arith) in
      rw (same, gone) (omega (arith, low_bits, bound, most), omega (arith, low_bits, bound, most))
  | inr many ↦
      let same : min bits 8 ≡ 8 = ground (arith, many) in
      let grows : 2 ^ bits ≡ 256 * 2 ^ (bits - 8) =
        same_power bits (8 + (bits - 8)) (ground (arith, many)) ∙ pow_plus 8 (bits - 8) in
      let parts = wide (2 ^ (bits - 8)) b v (one-le-pow (bits - 8) 2 (omega arith)) in
      rw (same, grows) (omega (arith, parts), omega (arith, parts))
]

-- What a register takes of the bytes is their number modulo its range.
pub cut-low : (bits : ℕ) (bytes : List ℕ) → cut bits bytes ≡ low bits bytes
unfolding cut number bytes_of
cut-low bits [] = refl
cut-low bits (b ∷ bytes) =
    let (first, others) = split bits b (number bytes) in
    ap₂ (λ h l. h ∷ l) (sym first)
      (cut-low (bits - 8) bytes ∙ ap (λ (x : ℕ). bytes_of x (length bytes)) (sym others))
