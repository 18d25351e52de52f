-- ===== src/IoView/Panel.antt =====
-- sw/IoView/IOViewPanel.cpp: the check boxes, the light emitting diodes and the two texts.
pub mod Bit
pub mod RoundTrip
pub mod Entered
pub mod Refreshed
use Prim.Native.Nat.{bit_and, bit_or}
use ipdbg.Prelude.{
  ℕ, zero, suc, ◌+◌, ◌-◌, ◌*◌, ◌/◌, ◌%◌, ◌^◌, Bool, true, false, not, ◌&&◌, Option, none, some,
  List, [], ◌∷◌, ◌++◌, ltb, leb, ◌==◌, same_bytes, if◌then◌else◌, length, take, drop, get_or,
  replicate,
}
use ipdbg.Prelude.Bits.{shl, shr}
use ipdbg.Prelude.Int.{ℤ, pos, negsuc}
use ipdbg.Prelude.Text.{codes}
use ipdbg.IoView.Protocol.{port_bytes}

-- The panel. `sent` holds what the observer has been given, the latest first. A box or a diode is
-- whether it is checked or on; `old_text` is the static variable of setLeds.
pub record Panel : Type 0 where
  pub number_of_inputs : ℕ
  pub number_of_outputs : ℕ
  pub input_leds : List Bool
  pub output_check_boxes : List Bool
  pub input_text : Option (List ℕ)
  pub output_text : Option (List ℕ)
  pub old_text : List ℕ
  pub sent : List (List ℕ)

-- The constructor.
unfoldable pub construct : Panel
construct = record {
  number_of_inputs = 0;
  number_of_outputs = 0;
  input_leds = [];
  output_check_boxes = [];
  input_text = none;
  output_text = none;
  old_text = [];
  sent = [];
}

-- `a[i] = f(a[i])`
abbrev pub update : {A : Type 0} → ℕ → (A → A) → List A → List A
update i f [] = []
update zero f (x ∷ xs) = f x ∷ xs
update (suc i) f (x ∷ xs) = x ∷ update i f xs

-- `buffer[idx >> 3] & (0x01 << (idx & 0x07))`, as a test.
unfoldable pub test_bit : ℕ → List ℕ → Bool
test_bit idx buffer = not (bit_and (get_or buffer (idx / 8) 0) (shl 1 (idx % 8)) == 0)

-- `buffer[idx >> 3] |= (0x01 << (idx & 0x07))`
unfoldable pub set_bit : ℕ → List ℕ → List ℕ
set_bit idx buffer = update (idx / 8) (λ b. bit_or b (shl 1 (idx % 8))) buffer

-- The loop over `n` outputs, with `k` to go from `idx`.
unfoldable pub pack_loop : ℕ → ℕ → ℕ → List Bool → List ℕ → List ℕ
unfolding set_bit
pack_loop zero idx n boxes buffer = buffer
pack_loop (suc k) idx n boxes buffer =
    pack_loop k (suc idx) n boxes
      (if get_or boxes (n - 1 - idx) false then set_bit idx buffer else buffer)

unfoldable pub pack : ℕ → List Bool → List ℕ
unfolding pack_loop
pack n boxes = pack_loop n 0 n boxes (replicate (port_bytes n) 0)

-- The loop that sets the boxes, or the diodes, from a buffer.
unfoldable pub show_loop : ℕ → ℕ → ℕ → List ℕ → List Bool → List Bool
unfolding test_bit
show_loop zero idx n buffer boxes = boxes
show_loop (suc k) idx n buffer boxes =
    show_loop k (suc idx) n buffer (update (n - 1 - idx) (λ _. test_bit idx buffer) boxes)

abbrev pub hex_digit : ℕ → ℕ
hex_digit d = if ltb d 10 then 48 + d else 87 + d

-- "%02x" of a byte.
unfoldable pub hex : ℕ → List ℕ
hex b = hex_digit (b / 16) ∷ hex_digit (b % 16) ∷ []

-- The first byte comes last.
unfoldable pub digits_of : List ℕ → List ℕ
unfolding hex
digits_of [] = []
digits_of (b ∷ buffer) = digits_of buffer ++ hex b

unfoldable pub text_of : List ℕ → List ℕ
unfolding digits_of
text_of buffer = codes "0x" ++ digits_of buffer

unfoldable pub on_check_box : Panel → Panel
unfolding pack text_of
on_check_box p =
    let buffer = pack p.number_of_outputs p.output_check_boxes in
    record p { output_text = some (text_of buffer); sent = buffer ∷ p.sent }

-- `txt.StartsWith("0x")` and `txt.substr(2)`
unfoldable pub without_prefix : List ℕ → List ℕ
without_prefix txt = if same_bytes (take 2 txt) (codes "0x") then drop 2 txt else txt

unfoldable pub pad_loop : ℕ → List ℕ → List ℕ
pad_loop zero txt = txt
pad_loop (suc k) txt = pad_loop k (48 ∷ txt)

-- `temp & 0xff`
unfoldable pub low_byte : ℤ → ℕ
low_byte (pos n) = n % 256
low_byte (negsuc n) = 255 - n % 256

-- `ToLong` with base 16 is of the toolkit.
module _ (to_long : List ℕ → Option ℤ) where
  -- The bytes from the last two digits on; `none` where `ToLong` refuses.
  unfoldable pub bytes_loop : ℕ → List ℕ → Option (List ℕ)
  unfolding low_byte
  bytes_loop zero txt = some []
  bytes_loop (suc k) txt = elim (to_long (drop (length txt - 2) txt)) [
    | none ↦ none
    | some temp ↦ elim (bytes_loop k (take (length txt - 2) txt)) [
      | none ↦ none
      | some buffer ↦ some (low_byte temp ∷ buffer)
    ]
  ]

  unfoldable pub parse : ℕ → List ℕ → Option (List ℕ)
  unfolding without_prefix pad_loop bytes_loop
  parse bytes text =
      let txt = without_prefix text in
      let padded = pad_loop (2 * bytes - length txt) txt in
      if ltb (2 * bytes) (length padded) then none else bytes_loop bytes padded

  -- A text that is not accepted is replaced by that of the boxes.
  unfoldable pub entered : Option (List ℕ) → Panel → Panel
  unfolding pack text_of show_loop
  entered none p = record p {
    output_text = some (text_of (pack p.number_of_outputs p.output_check_boxes));
  }
  entered (some buffer) p = record p {
    output_text = some (text_of buffer);
    output_check_boxes =
        show_loop p.number_of_outputs 0 p.number_of_outputs buffer p.output_check_boxes;
    sent = buffer ∷ p.sent;
  }

  -- The field exists while there are outputs.
  unfoldable pub on_text_enter : Panel → Panel
  unfolding parse entered
  on_text_enter p = elim p.output_text [
    | none ↦ p
    | some text ↦ entered (parse (port_bytes p.number_of_outputs) text) p
  ]

-- The digits of a buffer, the last byte first, without the surplus bits of that byte.
unfoldable pub valid_mask : ℕ → ℕ
valid_mask inputs = if inputs % 8 == 0 then 0xFF else 2 ^ (inputs % 8) - 1

unfoldable pub masked_digits : ℕ → List ℕ → List ℕ
unfolding valid_mask hex digits_of
masked_digits inputs [] = []
masked_digits inputs (last ∷ []) = hex (bit_and last (valid_mask inputs))
masked_digits inputs (b ∷ buffer) = masked_digits inputs buffer ++ hex b

-- A changed text is written to the field, which exists while there are inputs; `none` is a use of
-- the null pointer. The assertion is not tested in a release.
unfoldable pub set_leds : List ℕ → Panel → Option Panel
unfolding show_loop masked_digits
set_leds buffer p =
    let text = masked_digits p.number_of_inputs buffer in
    let lit = record p {
      input_leds = show_loop p.number_of_inputs 0 p.number_of_inputs buffer p.input_leds;
    } in
    if same_bytes text p.old_text then some lit else elim p.input_text [
      | none ↦ none
      | some shown ↦ some (record lit { input_text = some (codes "0x" ++ text); old_text = text })
    ]

unfoldable pub init_outputs : ℕ → Panel → Panel
init_outputs n p = record p {
  number_of_outputs = n;
  output_check_boxes = replicate n false;
  output_text = if n == 0 then none else some (codes "0x" ++ replicate ((n + 3) % 2 ^ 32 / 4) 48);
}

unfoldable pub init_inputs : ℕ → Panel → Panel
init_inputs n p = record p {
  number_of_inputs = n;
  input_leds = replicate n false;
  input_text = if n == 0 then none else some [];
}
