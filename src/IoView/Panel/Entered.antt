-- ===== src/IoView/Panel/Entered.antt =====
-- The text that the panel shows for a buffer, entered again.
use Prim.Native.Nat.{bit_or}
use ipdbg.Prelude.{
  ℕ, zero, suc, ◌+◌, ◌-◌, ◌*◌, ◌/◌, ◌%◌, ◌^◌, ◌<◌, ◌≡◌, refl, ap, ◌∙◌, subst, Bool, false, Option,
  none, some, List, [], ◌∷◌, ◌++◌, ltb, length, take, drop, get_or, replicate, length-append,
  take-append, drop-append, Bool-cases, inl, inr, arith,
}
use native.Mathlib.Nat.{pow-suc}
use ipdbg.Prelude.Bits.{shl, bit_or_lowest, bit_or-zero_below}
use ipdbg.Prelude.Int.{ℤ, pos}
use ipdbg.Cxx.Bytes.RoundTrip.{pow_mono}
use ipdbg.IoView.Protocol.{port_bytes}
use ipdbg.IoView.Panel.{
  Panel, update, set_bit, pack_loop, pack, show_loop, hex_digit, hex, digits_of, text_of,
  on_check_box, without_prefix, pad_loop, low_byte, bytes_loop, parse, entered, on_text_enter,
}
use ipdbg.IoView.Panel.RoundTrip.{length-pack, show_loop-pack}

abbrev pub AreBytes : List ℕ → Type 0
AreBytes [] = Unit
AreBytes (b ∷ buffer) = (b < 256) × AreBytes buffer

-- What `ToLong` documents, of two digits in base 16.
abbrev pub ReadsHex : (List ℕ → Option ℤ) → Type 0
ReadsHex to_long =
    (high low : ℕ)
    → high < 16
    → low < 16
    → to_long (hex_digit high ∷ hex_digit low ∷ []) ≡ some (pos (high * 16 + low))

bit_or_lt : (k a b : ℕ) → a < 2 ^ k → b < 2 ^ k → bit_or a b < 2 ^ k
bit_or_lt zero a b p q = omega (
  arith,
  bit_or_lowest 0 0,
  ap (λ (t : ℕ). bit_or t b) none,
  ap (λ (t : ℕ). bit_or 0 t) nothing,
  bit_or-zero_below 0 0 (omega arith),
)
  where
    none : a ≡ 0
    none = omega arith

    nothing : b ≡ 0
    nothing = omega arith
bit_or_lt (suc k) a b p q = omega (
  arith,
  bit_or_lowest a b,
  pow-suc 2 k,
  bit_or_lt k (a / 2) (b / 2) (omega (arith, pow-suc 2 k)) (omega (arith, pow-suc 2 k)),
)

mask_lt : (i : ℕ) → shl 1 (i % 8) < 2 ^ 8
mask_lt i = omega (arith, pow_mono (i % 8) 7 (omega arith), pow-suc 2 7)

AreBytes-update :
    (i : ℕ) (f : ℕ → ℕ) (xs : List ℕ)
    → ((b : ℕ) → b < 256 → f b < 256)
    → AreBytes xs
    → AreBytes (update i f xs)
AreBytes-update i f [] keeps all = tt
AreBytes-update zero f (x ∷ xs) keeps (small, all) = (keeps x small, all)
AreBytes-update (suc i) f (x ∷ xs) keeps (small, all) = (small, AreBytes-update i f xs keeps all)

AreBytes-pack_loop :
    (k idx n : ℕ) (boxes : List Bool) (buffer : List ℕ)
    → AreBytes buffer
    → AreBytes (pack_loop k idx n boxes buffer)
unfolding pack_loop set_bit
AreBytes-pack_loop zero idx n boxes buffer all = all
AreBytes-pack_loop (suc k) idx n boxes buffer all =
    elim (Bool-cases (get_or boxes (n - 1 - idx) false)) [
      | inl checked ↦ rw checked (
          AreBytes-pack_loop k (suc idx) n boxes _
            (AreBytes-update (idx / 8) _ buffer (λ b h. bit_or_lt 8 b _ h (mask_lt idx)) all))
      | inr unchecked ↦ rw unchecked (AreBytes-pack_loop k (suc idx) n boxes buffer all)
    ]

AreBytes-zeros : (n : ℕ) → AreBytes (replicate n 0)
AreBytes-zeros zero = tt
AreBytes-zeros (suc n) = (omega arith, AreBytes-zeros n)

pub AreBytes-pack : (n : ℕ) (boxes : List Bool) → AreBytes (pack n boxes)
unfolding pack
AreBytes-pack n boxes = AreBytes-pack_loop n 0 n boxes _ (AreBytes-zeros (port_bytes n))

length-digits_of : (buffer : List ℕ) → length (digits_of buffer) ≡ 2 * length buffer
unfolding digits_of hex
length-digits_of [] = refl
length-digits_of (b ∷ buffer) =
    omega (arith, length-append (digits_of buffer) (hex b), length-digits_of buffer)

module _ (to_long : List ℕ → Option ℤ) (reads : ReadsHex to_long) where
  last_two :
      (k : ℕ) (xs : List ℕ) (b : ℕ) (buffer : List ℕ)
      → b < 256
      → bytes_loop to_long k xs ≡ some buffer
      → bytes_loop to_long (suc k) (xs ++ hex b) ≡ some (b ∷ buffer)
  unfolding bytes_loop hex low_byte
  last_two k xs b buffer small rest =
      go _ _ end
        (ap (bytes_loop to_long k) (ap (λ n. take n (xs ++ hex b)) split ∙ take-append xs (hex b))
          ∙ rest)
        (ap (λ n. drop n (xs ++ hex b)) split ∙ drop-append xs (hex b))
    where
      split : length (xs ++ hex b) - 2 ≡ length xs
      split = omega (arith, length-append xs (hex b))

      -- The number that the two digits stand for.
      end : to_long (hex b) ≡ some (pos b)
      end =
          reads (b / 16) (b % 16) (omega arith) (omega arith) ∙ ap (λ n. some (pos n)) (omega arith)

      go :
          (last : List ℕ) (before : Option (List ℕ))
          → to_long (hex b) ≡ some (pos b)
          → before ≡ some buffer
          → last ≡ hex b
          → (elim (to_long last) [
            | none ↦ none
            | some temp ↦ elim before [ none ↦ none | some read ↦ some (low_byte temp ∷ read) ]
          ])
            ≡ some (b ∷ buffer)
      go last before number begins ends =
          rw (ends, number, begins) (ap (λ (x : ℕ). some (x ∷ buffer)) (omega arith))

  bytes_loop-digits_of :
      (buffer : List ℕ)
      → AreBytes buffer
      → bytes_loop to_long (length buffer) (digits_of buffer) ≡ some buffer
  unfolding bytes_loop digits_of
  bytes_loop-digits_of [] all = refl
  bytes_loop-digits_of (b ∷ buffer) (small, all) =
      last_two (length buffer) (digits_of buffer) b buffer small (bytes_loop-digits_of buffer all)

  parse-text_of :
      (buffer : List ℕ)
      → AreBytes buffer
      → parse to_long (length buffer) (text_of buffer) ≡ some buffer
  unfolding parse text_of without_prefix pad_loop
  parse-text_of buffer all =
      rw (length-digits_of buffer, none_to_pad, length-digits_of buffer, fits)
        (bytes_loop-digits_of buffer all)
    where
      none_to_pad : 2 * length buffer - 2 * length buffer ≡ 0
      none_to_pad = omega arith

      fits : ltb (2 * length buffer) (2 * length buffer) ≡ false
      fits = ground arith

  -- If `ToLong` reads two digits in base 16 as their number, and there are as many check boxes as
  -- outputs and fewer than 2 ^ 32 - 7, entering the text that a change of the boxes has shown
  -- sends the same buffer again, leaves every box as it was and shows the same text.
  pub on_text_enter-on_check_box :
      (p : Panel)
      → length p.output_check_boxes ≡ p.number_of_outputs
      → p.number_of_outputs + 7 < 2 ^ 32
      → on_text_enter to_long (on_check_box p) ≡ record (on_check_box p) {
        sent =
            pack p.number_of_outputs p.output_check_boxes
            ∷ pack p.number_of_outputs p.output_check_boxes
            ∷ p.sent;
      }
  unfolding on_text_enter on_check_box entered
  on_text_enter-on_check_box p same small =
      ap (λ o. entered to_long o (on_check_box p)) parsed ∙ ap shown kept
    where
      n : ℕ
      n = p.number_of_outputs

      buffer : List ℕ
      buffer = pack n p.output_check_boxes

      parsed : parse to_long (port_bytes n) (text_of buffer) ≡ some buffer
      parsed =
          subst (λ k. parse to_long k (text_of buffer) ≡ some buffer)
            (length-pack n p.output_check_boxes)
            (parse-text_of buffer (AreBytes-pack n p.output_check_boxes))

      kept : show_loop n 0 n buffer p.output_check_boxes ≡ p.output_check_boxes
      kept =
          rw (← same)
            (show_loop-pack p.output_check_boxes p.output_check_boxes (omega (arith, same)) refl)

      shown : List Bool → Panel
      shown boxes = record p {
        output_text = some (text_of buffer);
        output_check_boxes = boxes;
        sent = buffer ∷ buffer ∷ p.sent;
      }
