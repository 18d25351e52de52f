-- ===== src/IoView/Panel/Bit.antt =====
-- The bits of a buffer: reading one, setting one, and the loop that packs the boxes.
use Prim.Native.Nat.{bit_and, bit_or}
use ipdbg.Prelude.{
  ℕ, zero, suc, ◌+◌, ◌-◌, ◌*◌, ◌/◌, ◌%◌, ◌^◌, ◌≤◌, ◌<◌, ◌≡◌, refl, ap, ◌∙◌, Bool, true, false, not,
  ◌&&◌, ◌||◌, ◌⊎◌, List, [], ◌∷◌, ltb, leb, ◌==◌, ==_iff, if◌then◌else◌, length, get_or, replicate,
  Bool-cases, inl, inr, arith,
}
use native.Mathlib.Nat.{pow-suc, one-le-pow}
use ipdbg.Prelude.Bits.{shl, bit_or_lowest, bit_and_lowest, bit_or-zero_below, bit_and-zero_below}
use ipdbg.IoView.Panel.{update, test_bit, set_bit, pack_loop}

-- Bit `k` of a number.
abbrev pub bit : ℕ → ℕ → ℕ
bit zero a = a % 2
bit (suc k) a = bit k (a / 2)

double : (k : ℕ) → 1 * 2 ^ suc k / 2 ≡ 1 * 2 ^ k
double k = omega (arith, pow-suc 2 k)

even : (k : ℕ) → 1 * 2 ^ suc k % 2 ≡ 0
even k = omega (arith, pow-suc 2 k)

bit-bit_or : (k j a : ℕ) → bit j (bit_or a (shl 1 k)) ≡ (if j == k then 1 else bit j a)
bit-bit_or zero zero a = omega (arith, bit_or_lowest a 1)
bit-bit_or zero (suc j) a = ap (bit j) half ∙ ground arith
  where
    half : bit_or a (1 * 2 ^ 0) / 2 ≡ a / 2
    half = omega (arith, bit_or_lowest a 1, bit_or-zero_below (a / 2) (a / 2) (omega arith))
bit-bit_or (suc k) zero a = grind (arith, bit_or_lowest a (1 * 2 ^ suc k), even k)
bit-bit_or (suc k) (suc j) a = ap (bit j) half ∙ bit-bit_or k j (a / 2) ∙ same
  where
    half : bit_or a (1 * 2 ^ suc k) / 2 ≡ bit_or (a / 2) (1 * 2 ^ k)
    half = omega (
      arith,
      bit_or_lowest a (1 * 2 ^ suc k),
      even k,
      ap (λ (t : ℕ). bit_or (a / 2) t) (double k),
    )

    same : (if j == k then 1 else bit j (a / 2)) ≡ (if suc j == suc k then 1 else bit j (a / 2))
    same = ground arith

bit_and-bit : (k a : ℕ) → bit_and a (shl 1 k) ≡ bit k a * 2 ^ k
bit_and-bit zero a =
    omega (arith, bit_and_lowest a 1, bit_and-zero_below (a / 2) (a / 2) (omega arith))
bit_and-bit (suc k) a = omega (
  arith,
  bit_and_lowest a (1 * 2 ^ suc k),
  even k,
  ap (λ (t : ℕ). bit_and (a / 2) t) (double k),
  bit_and-bit k (a / 2),
  scaled,
)
  where
    scaled : bit k (a / 2) * 2 ^ suc k ≡ 2 * (bit k (a / 2) * 2 ^ k)
    scaled = omega (arith, ap (λ (t : ℕ). bit k (a / 2) * t) (pow-suc 2 k))

bit_lt : (k a : ℕ) → bit k a < 2
bit_lt zero a = omega arith
bit_lt (suc k) a = bit_lt k (a / 2)

-- The test is whether the bit is 1.
mask-bit : (k a : ℕ) → not (bit_and a (shl 1 k) == 0) ≡ (bit k a == 1)
mask-bit k a = elim (zero_or_one (bit k a) (bit_lt k a)) [
  | inl none ↦ rw (bit_and-bit k a, none) (ground arith)
  | inr one ↦ rw (bit_and-bit k a, one) (ground (arith, one-le-pow k 2 (omega arith)))
]
  where
    zero_or_one : (n : ℕ) → n < 2 → (n ≡ 0) ⊎ (n ≡ 1)
    zero_or_one zero h = inl refl
    zero_or_one (suc n) h = inr (omega arith)

pub get-update :
    {A : Type 0} (i j : ℕ) (f : A → A) (xs : List A) (d : A)
    → i < length xs
    → get_or (update i f xs) j d ≡ (if i == j then f (get_or xs j d) else get_or xs j d)
get-update i j f [] d h = absurd (omega arith)
get-update zero zero f (x ∷ xs) d h = refl
get-update zero (suc j) f (x ∷ xs) d h = ground arith
get-update (suc i) zero f (x ∷ xs) d h = ground arith
get-update (suc i) (suc j) f (x ∷ xs) d h = get-update i j f xs d (omega arith) ∙ ground arith

pub length-update :
    {A : Type 0} (i : ℕ) (f : A → A) (xs : List A) → length (update i f xs) ≡ length xs
length-update i f [] = refl
length-update zero f (x ∷ xs) = refl
length-update (suc i) f (x ∷ xs) = ap suc (length-update i f xs)

test_bit-bit :
    (j : ℕ) (buffer : List ℕ) → test_bit j buffer ≡ (bit (j % 8) (get_or buffer (j / 8) 0) == 1)
unfolding test_bit
test_bit-bit j buffer = mask-bit (j % 8) (get_or buffer (j / 8) 0)

-- Setting a bit of the buffer is seen in that bit alone.
pub test_bit-set_bit :
    (i j : ℕ) (buffer : List ℕ)
    → i / 8 < length buffer
    → test_bit j (set_bit i buffer) ≡ (if i == j then true else test_bit j buffer)
unfolding set_bit
test_bit-set_bit i j buffer h =
    rw
      (
        test_bit-bit j (set_bit i buffer),
        test_bit-bit j buffer,
        get-update (i / 8) (j / 8) (λ b. bit_or b (shl 1 (i % 8))) buffer 0 h,
      )
      (elim (Bool-cases (i / 8 == j / 8)) [
        | inr other ↦ rw other (ground (arith, other))
        | inl same ↦
            rw (same, bit-bit_or (i % 8) (j % 8) (get_or buffer (j / 8) 0))
              (elim (Bool-cases (j % 8 == i % 8)) [
                | inr other ↦ rw other (ground (arith, other))
                | inl here ↦ rw here (ground (arith, here, same))
              ])
      ])

-- One round more.
round :
    (k idx j : ℕ) (box : ℕ → Bool) (b t : Bool)
    → box idx ≡ b
    → (if leb (suc idx) j && ltb j (suc idx + k) && box j
        then true
        else if idx == j
        then b || t
        else t)
      ≡ (if leb idx j && ltb j (idx + suc k) && box j then true else t)
round k idx j box b t at = elim (Bool-cases (idx == j)) [
  | inl same ↦ let e = (==_iff idx j).0 same in rw (← e, at) (ground arith)
  | inr other ↦ rw other (ground (arith, other))
]

-- The loop sets the bits of the boxes that it has come to, and leaves the others.
pub test_bit-pack_loop :
    (k idx n : ℕ) (boxes : List Bool) (buffer : List ℕ) (j : ℕ)
    → idx + k ≤ 8 * length buffer
    → test_bit j (pack_loop k idx n boxes buffer) ≡ (
        if leb idx j && ltb j (idx + k) && get_or boxes (n - 1 - j) false
        then true
        else test_bit j buffer)
unfolding pack_loop
test_bit-pack_loop zero idx n boxes buffer j h = ground arith
test_bit-pack_loop (suc k) idx n boxes buffer j h =
    elim (Bool-cases (get_or boxes (n - 1 - idx) false)) [
      | inl checked ↦ rw checked (
          test_bit-pack_loop k (suc idx) n boxes (set_bit idx buffer) j
            (omega (arith, length-update (idx / 8) (λ b. bit_or b (shl 1 (idx % 8))) buffer))
          ∙ rw (test_bit-set_bit idx j buffer (omega arith)) (
              round k idx j (λ i. get_or boxes (n - 1 - i) false) true (test_bit j buffer) checked))
      | inr unchecked ↦ rw unchecked (
          test_bit-pack_loop k (suc idx) n boxes buffer j (omega arith)
          ∙ (ground arith
              ∙ round k idx j (λ i. get_or boxes (n - 1 - i) false) false (test_bit j buffer)
                  unchecked))
    ]

get-zeros : (n i : ℕ) → get_or (replicate {A = ℕ} n 0) i 0 ≡ 0
get-zeros zero i = refl
get-zeros (suc n) zero = refl
get-zeros (suc n) (suc i) = get-zeros n i

bit-zero : (k : ℕ) → bit k 0 ≡ 0
bit-zero zero = omega arith
bit-zero (suc k) = ap (bit k) (omega arith) ∙ bit-zero k

pub test_bit-zeros : (j n : ℕ) → test_bit j (replicate n 0) ≡ false
test_bit-zeros j n =
    rw (test_bit-bit j (replicate n 0), get-zeros n (j / 8), bit-zero (j % 8)) (ground arith)
