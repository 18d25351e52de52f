-- ===== src/WaveformGenerator/Writing/Frame.antt =====
-- What the core reads back from the frame of IpdbgWaveformGenerator_write, and its length.
use ipdbg.Prelude.{
  ℕ, zero, suc, ◌+◌, ◌-◌, ◌*◌, ◌/◌, ◌%◌, ◌^◌, ◌≤◌, ◌<◌, ◌≡◌, refl, ap, ◌∙◌, sym, List, [], ◌∷◌,
  ◌++◌, arith, ltb, get_or, drop, length, append_assoc, inl, inr, Bool-cases,
}
use mathlib.Core.List.{map}
use native.Mathlib.Nat.{
  pow-suc, one-le-pow, div-eq_of_lt, mod-one, mod-lt, mod-eq_of_lt, mod-add-div,
  add-mul-mod_self_right, mul-le-mul_right,
}
use ipdbg.Escaping.{escape_all, normal, byte, decode}
use ipdbg.Escaping.RoundTrip.{decode-escape_all, decode-plain, escape_all-append}
use ipdbg.WaveformGenerator.Core.{WfgCore, set_number_of_samples_cmd, write_samples_cmd}
use ipdbg.WaveformGenerator.Writing.{count_loop, sample_loop, samples_loop, frame}

-- The `n` lowest bytes of a number, the most significant first.
unfoldable pub big_endian : ℕ → ℕ → List ℕ
big_endian x zero = []
big_endian x (suc i) = x / 2 ^ (i * 8) % 2 ^ 8 ∷ big_endian x i

-- The first `n` bytes, the last of them first.
unfoldable pub reversed : List ℕ → ℕ → List ℕ
reversed sample zero = []
reversed sample (suc i) = get_or sample i 0 ∷ reversed sample i

-- The samples one after another, each the last byte first.
unfoldable pub sample_bytes : ℕ → List ℕ → ℕ → List ℕ
unfolding reversed
sample_bytes n samples zero = []
sample_bytes n samples (suc count) = reversed samples n ++ sample_bytes n (drop n samples) count

pow_monotone : (i j : ℕ) → i ≤ j → 2 ^ i ≤ 2 ^ j
pow_monotone i zero h = ground arith
pow_monotone zero (suc j) h = one-le-pow (suc j) 2 (omega arith)
pow_monotone (suc i) (suc j) h = omega (arith, pow_monotone i j (omega arith))

-- The bytes above the eighth of a 64 bit number are 0.
count_loop-eq :
    (last_index n : ℕ)
    → last_index < 2 ^ 64
    → count_loop last_index n ≡ escape_all (big_endian last_index n)
unfolding count_loop big_endian escape_all
count_loop-eq last_index zero h = refl
count_loop-eq last_index (suc i) h = elim (Bool-cases (ltb i 8)) [
  | inl low ↦ rw (low, count_loop-eq last_index i h) refl
  | inr high ↦
      rw (high, count_loop-eq last_index i h, div-eq_of_lt (above (ground (arith, high)))) refl
]
  where
    above : 64 ≤ i * 8 → last_index < 2 ^ (i * 8)
    above big = omega (arith, pow_monotone 64 (i * 8) big)

sample_loop-eq : (sample : List ℕ) (n : ℕ) → sample_loop sample n ≡ escape_all (reversed sample n)
unfolding sample_loop reversed escape_all
sample_loop-eq sample zero = refl
sample_loop-eq sample (suc i) = rw (sample_loop-eq sample i) refl

plus_zero : (i : ℕ) → i ≡ 0 + i
plus_zero i = omega arith

no_offset : (n : ℕ) → 0 * n ≡ 0
no_offset n = omega arith

sums : (j i : ℕ) → suc (j + i) ≡ suc j + i
sums j i = omega arith

drop-drop : (i j : ℕ) (xs : List ℕ) → drop i (drop j xs) ≡ drop (j + i) xs
drop-drop i zero xs = ap (λ (k : ℕ). drop k xs) (plus_zero i)
drop-drop zero (suc j) [] = ap (λ (k : ℕ). drop k []) (sums j 0)
drop-drop (suc i) (suc j) [] = ap (λ (k : ℕ). drop k []) (sums j (suc i))
drop-drop i (suc j) (x ∷ xs) = drop-drop i j xs ∙ ap (λ (k : ℕ). drop k (x ∷ xs)) (sums j i)

samples_loop-eq :
    (n : ℕ) (samples : List ℕ) (left s : ℕ)
    → samples_loop n samples left s ≡ escape_all (sample_bytes n (drop (s * n) samples) left)
unfolding samples_loop sample_bytes escape_all
samples_loop-eq n samples zero s = refl
samples_loop-eq n samples (suc left) s =
    rw (sample_loop-eq (drop (s * n) samples) n, samples_loop-eq n samples left (suc s))
      (sym (escape_all-append (reversed (drop (s * n) samples) n) _)
        ∙ ap (λ l. escape_all (reversed (drop (s * n) samples) n ++ sample_bytes n l left))
            (next s))
  where
    next : (s : ℕ) → drop (suc s * n) samples ≡ drop n (drop (s * n) samples)
    next s = ap (λ k. drop k samples) (steps s) ∙ sym (drop-drop n (s * n) samples)
      where
        steps : (s : ℕ) → suc s * n ≡ s * n + n
        steps s = omega arith

frame-eq :
    (c : WfgCore) (samples : List ℕ) (count : ℕ)
    → count ≤ 2 ^ 64
    → frame c samples count
      ≡ (set_number_of_samples_cmd ∷ escape_all (big_endian (count - 1) c.address_width_bytes))
        ++ (write_samples_cmd ∷ escape_all (sample_bytes c.data_width_bytes samples count))
unfolding frame
frame-eq c samples count h =
    rw
      (
        count_loop-eq (count - 1) c.address_width_bytes (omega arith),
        samples_loop-eq c.data_width_bytes samples count 0,
      )
      (ap
        (λ (k : ℕ).
          (set_number_of_samples_cmd ∷ escape_all (big_endian (count - 1) c.address_width_bytes))
          ++ (write_samples_cmd
              ∷ escape_all (sample_bytes c.data_width_bytes (drop k samples) count)))
        (no_offset c.data_width_bytes))

-- For up to 2 ^ 64 samples, the core decodes the frame of IpdbgWaveformGenerator_write as the
-- command, the bytes of the last index with the most significant first, the next command, and
-- every sample with its last byte first, and then whatever follows.
pub decode-frame :
    (c : WfgCore) (samples : List ℕ) (count : ℕ) (rest : List ℕ)
    → count ≤ 2 ^ 64
    → decode normal (frame c samples count ++ rest)
      ≡ byte set_number_of_samples_cmd
        ∷ (map byte (big_endian (count - 1) c.address_width_bytes)
            ++ (byte write_samples_cmd
                ∷ (map byte (sample_bytes c.data_width_bytes samples count) ++ decode normal rest)))
decode-frame c samples count rest h = rw (frame-eq c samples count h) (
    decode-plain set_number_of_samples_cmd _ refl
    ∙ ap (λ l. byte set_number_of_samples_cmd ∷ decode normal l)
        (append_assoc index (write_samples_cmd ∷ payload) rest)
    ∙ ap (λ l. byte set_number_of_samples_cmd ∷ l)
        (decode-escape_all (big_endian (count - 1) c.address_width_bytes) _
          ∙ ap (λ l. map byte (big_endian (count - 1) c.address_width_bytes) ++ l)
              (decode-plain write_samples_cmd _ refl
                ∙ ap (λ l. byte write_samples_cmd ∷ l)
                    (decode-escape_all (sample_bytes c.data_width_bytes samples count) rest))))
  where
    index : List ℕ
    index = escape_all (big_endian (count - 1) c.address_width_bytes)

    payload : List ℕ
    payload = escape_all (sample_bytes c.data_width_bytes samples count)

length-big_endian : (x n : ℕ) → length (big_endian x n) ≡ n
unfolding big_endian
length-big_endian x zero = refl
length-big_endian x (suc n) = ap suc (length-big_endian x n)

-- The number that the bytes stand for.
unfoldable pub value_be : List ℕ → ℕ
value_be [] = 0
value_be (b ∷ bytes) = b * 2 ^ (length bytes * 8) + value_be bytes

pow_plus : (k j : ℕ) → 2 ^ k * 2 ^ j ≡ 2 ^ (j + k)
pow_plus k zero = omega (arith, ap (λ (e : ℕ). 2 ^ e) (plus_zero k))
pow_plus k (suc j) = omega (
  arith,
  pow_plus k j,
  ap (λ (t : ℕ). 2 ^ k * t) (pow-suc 2 j),
  pow-suc 2 (j + k),
  ap (λ (e : ℕ). 2 ^ e) (sums j k),
)

byte_le : (q : ℕ) → q % 2 ^ 8 ≤ 255
byte_le q = omega arith

mod_step : (x p : ℕ) → 1 ≤ p → x / p % 2 ^ 8 * p + x % p ≡ x % (p * 2 ^ 8)
mod_step x p h = sym (
    ap (λ y. y % (p * 2 ^ 8)) parts
    ∙ add-mul-mod_self_right low high (p * 2 ^ 8)
    ∙ mod-eq_of_lt small)
  where
    low : ℕ
    low = x / p % 2 ^ 8 * p + x % p

    high : ℕ
    high = x / p / 2 ^ 8

    small : low < p * 2 ^ 8
    small = omega (arith, mod-lt x h, mul-le-mul_right p (byte_le (x / p)))

    parts : x ≡ low + high * (p * 2 ^ 8)
    parts = omega (arith, mod-add-div x p, ap (λ q. q * p) (mod-add-div (x / p) (2 ^ 8)))

pub value_be-big_endian : (x n : ℕ) → value_be (big_endian x n) ≡ x % 2 ^ (n * 8)
unfolding value_be big_endian
value_be-big_endian x zero = sym (mod-one x)
value_be-big_endian x (suc n) =
    rw (length-big_endian x n, value_be-big_endian x n)
      (mod_step x (2 ^ (n * 8)) (one-le-pow (n * 8) 2 (omega arith)) ∙ ap (λ p. x % p) (power n))
  where
    power : (n : ℕ) → 2 ^ (n * 8) * 2 ^ 8 ≡ 2 ^ (suc n * 8)
    power n = shifted (n * 8) ∙ ap (λ k. 2 ^ k) (eight n)
      where
        commuted : (k : ℕ) → 8 + k ≡ k + 8
        commuted k = omega arith

        shifted : (k : ℕ) → 2 ^ k * 2 ^ 8 ≡ 2 ^ (k + 8)
        shifted k = pow_plus k 8 ∙ ap (λ (e : ℕ). 2 ^ e) (commuted k)

        eight : (n : ℕ) → n * 8 + 8 ≡ suc n * 8
        eight n = omega arith
