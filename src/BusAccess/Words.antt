-- ===== src/BusAccess/Words.antt =====
-- The arithmetic of the widths and of the miscellaneous signals.
use Prim.Native.Nat.{bit_or}
use ipdbg.Prelude.{
  ℕ, zero, suc, ◌+◌, ◌-◌, ◌*◌, ◌/◌, ◌%◌, ◌^◌, ◌≤◌, ◌<◌, ◌≡◌, refl, ap, ◌∙◌, Bool, true, false, List,
  [], ◌∷◌, ◌++◌, arith, take, if◌then◌else◌,
}
use native.Mathlib.Nat.{pow-suc, one-le-pow}
use mathlib.Core.Path.{ap₂}
use ipdbg.Prelude.Bits.{shl, shr, bit_or-shl, bit_and-ones}
use ipdbg.BusAccess.Core.{
  round_up, word_at, Sizes, sizes_of, get_protocol_id, get_protocol_version, get_core_type,
}
use ipdbg.BusAccess.Masters.{pprot_misc, size_loop, hprot_hsize_misc, resets_misc}

-- For up to 2 ^ 32 - 8 bits the ROUND_UP macro gives the least number of bytes that holds them.
pub round_up_ceil : (a : ℕ) → a ≤ 2 ^ 32 - 8 → (a ≤ 8 * round_up a) × (8 * round_up a < a + 8)
unfolding round_up
round_up_ceil a h = omega arith

-- Above that the addition wraps, and a field of nearly 2 ^ 32 bits has no bytes.
pub round_up_wraps : (a : ℕ) → 2 ^ 32 - 8 < a → a < 2 ^ 32 → round_up a ≡ 0
unfolding round_up
round_up_wraps a lo hi = omega arith

-- The four bytes of a word, least significant first, as the core sends them.
unfoldable pub word_bytes : ℕ → List ℕ
word_bytes w = w % 256 ∷ w / 256 % 256 ∷ w / 65536 % 256 ∷ w / 16777216 % 256 ∷ []

pub joined_bytes :
    (b₀ b₁ b₂ b₃ : ℕ)
    → b₀ < 256
    → b₁ < 256
    → b₂ < 256
    → bit_or (bit_or (bit_or b₀ (shl b₁ 8)) (shl b₂ 16)) (shl b₃ 24)
      ≡ b₀ + b₁ * 256 + b₂ * 65536 + b₃ * 16777216
joined_bytes b₀ b₁ b₂ b₃ h₀ h₁ h₂ = rw (bit_or-shl 8 b₀ b₁ (omega arith)) (
    rw (bit_or-shl 16 (b₀ + b₁ * 2 ^ 8) b₂ (omega arith))
      (bit_or-shl 24 (b₀ + b₁ * 2 ^ 8 + b₂ * 2 ^ 16) b₃ (omega arith)))

-- The answer of a core to the width query: six words, in the order of `rd_widths_substates`.
unfoldable pub widths_answer : Sizes → List ℕ
unfolding word_bytes
widths_answer z =
    word_bytes z.version_and_id
    ++ (word_bytes z.write_data_width
        ++ (word_bytes z.read_data_width
            ++ (word_bytes z.address_width
                ++ (word_bytes z.misc_data_width ++ word_bytes z.strobe_width))))

bytes_of_word :
    (w : ℕ)
    → w < 2 ^ 32
    → bit_or
        (bit_or (bit_or (w % 256) (shl (w / 256 % 256) 8)) (shl (w / 65536 % 256) 16))
        (shl (w / 16777216 % 256) 24)
      ≡ w
bytes_of_word w h = omega (
  arith,
  joined_bytes (w % 256) (w / 256 % 256) (w / 65536 % 256) (w / 16777216 % 256) (omega arith)
      (omega arith) (omega arith),
)

-- The six 32 bit words of the answer to the width query, each least significant byte first and in
-- the order in which the core sends them, are stored in the fields of the handle that they stand
-- for.
pub sizes_of-widths_answer :
    (z : Sizes)
    → z.version_and_id < 2 ^ 32
    → z.write_data_width < 2 ^ 32
    → z.read_data_width < 2 ^ 32
    → z.address_width < 2 ^ 32
    → z.misc_data_width < 2 ^ 32
    → z.strobe_width < 2 ^ 32
    → ((sizes_of (widths_answer z)).version_and_id ≡ z.version_and_id)
      × ((sizes_of (widths_answer z)).write_data_width ≡ z.write_data_width)
      × ((sizes_of (widths_answer z)).read_data_width ≡ z.read_data_width)
      × ((sizes_of (widths_answer z)).address_width ≡ z.address_width)
      × ((sizes_of (widths_answer z)).misc_data_width ≡ z.misc_data_width)
      × ((sizes_of (widths_answer z)).strobe_width ≡ z.strobe_width)
unfolding sizes_of word_at widths_answer
sizes_of-widths_answer z v w r a m s = (
  bytes_of_word z.version_and_id v,
  bytes_of_word z.write_data_width w,
  bytes_of_word z.read_data_width r,
  bytes_of_word z.address_width a,
  bytes_of_word z.misc_data_width m,
  bytes_of_word z.strobe_width s,
)

-- The macros cut the protocol ID, the protocol version and the core type, bytes each, out of the
-- version word.
pub version_fields :
    (id version kind reserved : ℕ)
    → id < 256
    → version < 256
    → kind < 256
    → let w = id + version * 256 + kind * 65536 + reserved * 16777216 in
      (get_protocol_id w ≡ id) × (get_protocol_version w ≡ version) × (get_core_type w ≡ kind)
unfolding get_protocol_id get_protocol_version get_core_type
version_fields id version kind reserved hi hv hk = (
  omega (arith, bit_and-ones 8 w),
  omega (arith, bit_and-ones 8 (shr w 8)),
  omega (arith, bit_and-ones 8 (shr w 16)),
)
  where
    w : ℕ
    w = id + version * 256 + kind * 65536 + reserved * 16777216

pub pprot_misc_lem : (pprot : ℕ) → pprot_misc pprot ≡ pprot % 8
unfolding pprot_misc
pprot_misc_lem pprot = omega (arith, bit_and-ones 3 pprot)

-- The number that a little endian field stands for.
unfoldable pub field_value : List ℕ → ℕ
field_value [] = 0
field_value (b ∷ bytes) = b + 256 * field_value bytes

pub hprot_hsize_misc_lem :
    (hprot hsize : ℕ)
    → hsize < 8
    → hprot < 2 ^ 7
    → hprot_hsize_misc hprot hsize ≡ (hsize + 8 * hprot) % 256 ∷ hprot / 8 ∷ []
unfolding hprot_hsize_misc
hprot_hsize_misc_lem hprot hsize hs hp =
    rw (bit_or-shl 3 hsize hprot hs) (ap₂ (λ a b. a ∷ b ∷ []) low (omega arith))
  where
    low : (hsize + hprot * 2 ^ 3) % 2 ^ 8 ≡ (hsize + 8 * hprot) % 256
    low = omega arith

-- With a size of three bits and four bits of protection, a core with seven signals reads from one
-- byte the size and above it the protection.
pub hprot_four_bits :
    (hprot hsize : ℕ)
    → hsize < 8
    → hprot < 2 ^ 4
    → field_value (take 1 (hprot_hsize_misc hprot hsize)) % 2 ^ 7 ≡ hsize + 8 * hprot
unfolding field_value
hprot_four_bits hprot hsize hs hp =
    rw (hprot_hsize_misc_lem hprot hsize hs (omega arith)) (omega arith)

-- With a size of three bits and seven bits of protection, a core with ten signals reads from the
-- two bytes the size, and above it a protection whose bits 5 and 6 are bits 3 and 4 of what was
-- meant.
pub hprot_seven_bits :
    (hprot hsize : ℕ)
    → hsize < 8
    → hprot < 2 ^ 7
    → (field_value (hprot_hsize_misc hprot hsize) % 2 ^ 10 % 8 ≡ hsize)
      × (field_value (hprot_hsize_misc hprot hsize) % 2 ^ 10 / 8
          ≡ hprot % 32 + 32 * (hprot / 8 % 4))
unfolding field_value
hprot_seven_bits hprot hsize hs hp =
    rw (hprot_hsize_misc_lem hprot hsize hs hp) (omega arith, omega arith)

-- Where the result fits into 16 bits, the loop that doubles the transfer size gives the size
-- times a power of two.
pub size_loop_lem : (i sz : ℕ) → sz * 2 ^ i < 2 ^ 16 → size_loop i sz ≡ sz * 2 ^ i
unfolding size_loop
size_loop_lem zero sz h = omega arith
size_loop_lem (suc i) sz h =
    let fits : sz * 2 < 2 ^ 16 = omega (arith, doubled, h, at_least) in
    let same : sz * 2 % 2 ^ 16 ≡ sz * 2 = omega arith in
    rw same (size_loop_lem i (sz * 2) (omega (arith, doubled)) ∙ doubled)
  where
    doubled : sz * 2 * 2 ^ i ≡ sz * 2 ^ suc i
    doubled = omega (arith, ap (λ (t : ℕ). sz * t) (pow-suc 2 i))

    at_least : sz * 2 ≤ sz * 2 * 2 ^ i
    at_least = grind (arith, one-le-pow i 2 (omega arith))

pub resets_misc_lem :
    (reset hardreset : Bool)
    → resets_misc reset hardreset ≡ (if reset then 1 else 0) + 2 * (if hardreset then 1 else 0)
unfolding resets_misc
resets_misc_lem true true = refl
resets_misc_lem true false = refl
resets_misc_lem false true = refl
resets_misc_lem false false = refl
