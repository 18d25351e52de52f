-- ===== src/Cxx/Waveform/Samples.antt =====
-- The bytes of the samples are their two's complement.
use ipdbg.Prelude.{
  ℕ, zero, suc, ◌+◌, ◌-◌, ◌*◌, ◌/◌, ◌%◌, ◌^◌, ◌||◌, ◌≤◌, ◌<◌, ◌≡◌, refl, ap, ◌∙◌, sym, Bool, false,
  List, [], ◌∷◌, ◌++◌, arith, ltb, ◌==◌, length, take, drop, take-append, drop-append,
  length-append, inl, inr, Bool-cases, if◌then◌else◌,
}
use native.Mathlib.Nat.{pow-suc, mod-eq_of_lt, div-div-eq-div-mul, add-mul-mod_self_left, add-zero}
use ipdbg.Prelude.Int.{ℤ, pos, negsuc, ltb_ℤ}
use ipdbg.Cxx.{Result, value, thrown, returns}
use ipdbg.Cxx.Bytes.RoundTrip.{
  value_of, little_endian, length-little_endian, pow_byte, pow_mono, pow_pos,
}
use ipdbg.Cxx.Waveform.{min_value, max_value, raw_of, raw_loop, appended, encode_loop}

-- What an `int64_t` can be.
abbrev pub IsInt64 : ℤ → Type 0
IsInt64 (pos n) = n < 2 ^ 63
IsInt64 (negsuc n) = n < 2 ^ 63

-- From -(2 ^ (bits - 1)) to 2 ^ bits - 1.
abbrev pub InRange : ℕ → ℤ → Type 0
InRange bits (pos n) = n < 2 ^ bits
InRange bits (negsuc n) = 2 * suc n ≤ 2 ^ bits

-- The two's complement of `bits` bits.
abbrev pub StandsFor : ℕ → ℕ → ℤ → Type 0
StandsFor bits x (pos n) = x ≡ n
StandsFor bits x (negsuc n) = x + suc n ≡ 2 ^ bits

abbrev pub All : (ℤ → Type 0) → List ℤ → Type 0
All P [] = Unit {0}
All P (x ∷ xs) = P x × All P xs

-- Sample after sample, `n` bytes each, the least significant first.
abbrev pub Encodes : ℕ → ℕ → List ℕ → List ℤ → Type 0
Encodes bits n buffer [] = buffer ≡ []
Encodes bits n buffer (sample ∷ samples) =
    StandsFor bits (value_of (take n buffer) % 2 ^ bits) sample
    × Encodes bits n (drop n buffer) samples

pow_plus : (i k : ℕ) → 2 ^ (i + k) ≡ 2 ^ i * 2 ^ k
pow_plus i zero = ap (λ (k : ℕ). 2 ^ k) (add-zero i) ∙ omega arith
pow_plus i (suc k) =
    ap (λ (k : ℕ). 2 ^ k) (omega arith)
    ∙ pow-suc 2 (i + k)
    ∙ omega (arith, pow_plus i k, pow-suc 2 k, ap (λ (t : ℕ). 2 ^ i * t) (pow-suc 2 k))

pow_split : (i j : ℕ) → i ≤ j → 2 ^ j ≡ 2 ^ i * 2 ^ (j - i)
pow_split i j h = ap (λ (k : ℕ). 2 ^ k) (omega arith) ∙ pow_plus i (j - i)

raw_loop-eq : (raw left i : ℕ) → raw_loop raw left i ≡ little_endian left (raw / 2 ^ (i * 8))
unfolding raw_loop little_endian
raw_loop-eq raw zero i = refl
raw_loop-eq raw (suc left) i = rw (raw_loop-eq raw left (suc i), shifted) refl
  where
    shifted : raw / 2 ^ (suc i * 8) ≡ raw / 2 ^ (i * 8) / 256
    shifted =
        ap (λ (k : ℕ). raw / k) (pow_byte i ∙ omega arith)
        ∙ sym (div-div-eq-div-mul raw (2 ^ (i * 8)) 256)

-- The bytes, and what is above them.
value_of-little_endian_split :
    (n x : ℕ) → value_of (little_endian n x) + 2 ^ (n * 8) * (x / 2 ^ (n * 8)) ≡ x
unfolding value_of little_endian
value_of-little_endian_split zero x = omega arith
value_of-little_endian_split (suc n) x = omega (
  arith,
  value_of-little_endian_split n (x / 256),
  ap (λ (t : ℕ). 2 ^ (n * 8) * t) (div-div-eq-div-mul x 256 (2 ^ (n * 8))),
  ap (λ (k : ℕ). k * (x / k)) (pow_byte n),
)

value_of-little_endian_mod :
    (n bits x : ℕ) → bits ≤ n * 8 → value_of (little_endian n x) % 2 ^ bits ≡ x % 2 ^ bits
value_of-little_endian_mod n bits x h =
    sym (add-mul-mod_self_left low (2 ^ bits) (2 ^ (n * 8 - bits) * (x / 2 ^ (n * 8))))
    ∙ ap (λ (k : ℕ). k % 2 ^ bits) whole
  where
    low : ℕ
    low = value_of (little_endian n x)

    whole : low + 2 ^ bits * (2 ^ (n * 8 - bits) * (x / 2 ^ (n * 8))) ≡ x
    whole = omega (
      arith,
      value_of-little_endian_split n x,
      ap (λ (k : ℕ). k * (x / 2 ^ (n * 8))) (pow_split bits (n * 8) h),
    )

raw_of-StandsFor :
    (bits : ℕ) (sample : ℤ)
    → 1 ≤ bits
    → bits ≤ 64
    → IsInt64 sample
    → InRange bits sample
    → StandsFor bits (raw_of sample % 2 ^ bits) sample
unfolding raw_of
raw_of-StandsFor bits (pos n) least most int within =
    rw (mod-eq_of_lt {n = n} {m = 2 ^ 64} (omega arith)) (mod-eq_of_lt within)
raw_of-StandsFor bits (negsuc n) least most int within =
    rw
      (
        mod-eq_of_lt {n = 2 ^ 64 - 1 - n} {m = 2 ^ 64} (omega arith),
        parts,
        add-mul-mod_self_left (b - 1 - n) b (c - 1),
        mod-eq_of_lt {n = b - 1 - n} {m = b} (omega (arith, small)),
      )
      (omega (arith, small))
  where
    b : ℕ
    b = 2 ^ bits

    c : ℕ
    c = 2 ^ (64 - bits)

    small : n < b
    small = omega arith

    parts : 2 ^ 64 - 1 - n ≡ b - 1 - n + b * (c - 1)
    parts =
        let whole : c ≡ suc (c - 1) = omega (arith, pow_pos (64 - bits)) in
        omega (arith, small, pow_split bits 64 most, ap (λ (k : ℕ). b * k) whole)

-- Each sample becomes `n` bytes, and the others follow.
Encodes-appended :
    (bits n : ℕ) (bytes rest : List ℕ) (sample : ℤ) (samples : List ℤ)
    → length bytes ≡ n
    → StandsFor bits (value_of bytes % 2 ^ bits) sample
    → Encodes bits n rest samples
    → Encodes bits n (bytes ++ rest) (sample ∷ samples)
Encodes-appended bits n bytes rest sample samples count stands others =
    rw (← count, take-append bytes rest, drop-append bytes rest) (stands, others)

-- The limits of the code for `suc b` bits.
abbrev pub least_of : ℕ → ℤ
least_of b = negsuc (if ltb (suc b) 64 then 1 * 2 ^ b - 1 else 2 ^ 63 - 1)

abbrev outside : ℕ → ℤ → Bool
outside b sample = ltb_ℤ sample (least_of b) || ltb_ℤ (max_value (suc b)) sample

-- The code tests the range.
InRange-outside :
    (b : ℕ) (sample : ℤ)
    → suc b ≤ 64
    → IsInt64 sample
    → (outside b sample ≡ false → InRange (suc b) sample)
      × (InRange (suc b) sample → outside b sample ≡ false)
unfolding max_value
InRange-outside b (pos n) most int = (
  λ h. ground (arith, pow_mono 63 (suc b), pow_pos (suc b)),
  λ h. ground (arith, pow_mono 63 (suc b), pow_pos (suc b)),
)
InRange-outside b (negsuc n) most int = (
  λ h. ground (arith, pow-suc 2 b, pow_pos b, pow_mono 63 b, pow_mono b 63),
  λ h. ground (arith, pow-suc 2 b, pow_pos b, pow_mono 63 b, pow_mono b 63),
)

-- All samples, or none.
abbrev pub Encoded : ℕ → ℕ → List ℤ → Result (List ℕ) → Type 0
Encoded bits n samples (value buffer) =
    All (InRange bits) samples
    × Encodes bits n buffer samples
    × (length buffer ≡ length samples * n)
Encoded bits n samples (thrown e) = All (InRange bits) samples → ⊥

appended-Encoded :
    (bits n : ℕ) (bytes : List ℕ) (sample : ℤ) (samples : List ℤ) (r : Result (List ℕ))
    → InRange bits sample
    → length bytes ≡ n
    → StandsFor bits (value_of bytes % 2 ^ bits) sample
    → Encoded bits n samples r
    → Encoded bits n (sample ∷ samples) (appended bytes r)
unfolding appended
appended-Encoded bits n bytes sample samples (value rest) within count stands
      (all, others, counted) =
    (
      (within, all),
      Encodes-appended bits n bytes rest sample samples count stands others,
      omega (arith, length-append bytes rest),
    )
appended-Encoded bits n bytes sample samples (thrown e) within count stands none = λ all. none all.1

encode_loop-Encoded-suc :
    (b n s : ℕ) (samples : List ℤ)
    → suc b ≤ 64
    → suc b ≤ n * 8
    → All IsInt64 samples
    → Encoded (suc b) n samples (encode_loop (least_of b) (max_value (suc b)) n s samples)
unfolding encode_loop
encode_loop-Encoded-suc b n s [] most wide int = (tt, refl, omega arith)
encode_loop-Encoded-suc b n s (sample ∷ samples) most wide int =
    elim (Bool-cases (outside b sample)) [
      | inl out ↦ rw out (λ all. cc (out, (InRange-outside b sample most int.0).1 all.0))
      | inr fits ↦
          let within = (InRange-outside b sample most int.0).0 fits in
          rw fits (
            appended-Encoded (suc b) n _ sample samples _ within count (stands within)
              (encode_loop-Encoded-suc b n (suc s) samples most wide int.1))
    ]
  where
    raw : ℕ
    raw = raw_of sample

    whole : raw / 2 ^ (0 * 8) ≡ raw
    whole = omega arith

    bytes : raw_loop raw n 0 ≡ little_endian n raw
    bytes = raw_loop-eq raw n 0 ∙ ap (little_endian n) whole

    count : length (raw_loop raw n 0) ≡ n
    count = ap length bytes ∙ length-little_endian n raw

    stands :
        InRange (suc b) sample → StandsFor (suc b) (value_of (raw_loop raw n 0) % 2 ^ suc b) sample
    stands within =
        rw (bytes, value_of-little_endian_mod n (suc b) raw wide)
          (raw_of-StandsFor (suc b) sample (omega arith) most int.0 within)

pred_suc : (b : ℕ) → suc b - 1 ≡ b
pred_suc b = omega arith

-- A shift by a negative count does not happen.
pub min_value-eq : (bits : ℕ) → (bits == 0) ≡ false → min_value bits ≡ returns (least_of (bits - 1))
unfolding min_value
min_value-eq zero h = cc
min_value-eq (suc b) h = rw (pred_suc b) refl

-- For 1 to 64 bits, enough bytes for them and 64 bit samples, the loop of the C++ `write`
-- succeeds exactly if each sample is in the range -2 ^ (bits - 1) to 2 ^ bits - 1, and then gives
-- as many bytes for each sample, which are its two's complement in the low bits, the least
-- significant byte first.
pub encode_loop-Encoded :
    (bits n : ℕ) (samples : List ℤ)
    → (bits == 0) ≡ false
    → bits ≤ 64
    → bits ≤ n * 8
    → All IsInt64 samples
    → Encoded bits n samples (encode_loop (least_of (bits - 1)) (max_value bits) n 0 samples)
encode_loop-Encoded zero n samples some_bits most wide int = cc
encode_loop-Encoded (suc b) n samples some_bits most wide int =
    rw (pred_suc b) (encode_loop-Encoded-suc b n 0 samples most wide int)
