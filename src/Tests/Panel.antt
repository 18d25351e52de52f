-- ===== src/Tests/Panel.antt =====
-- The user interface on concrete inputs.
use ipdbg.Prelude.{
  ℕ, ◌+◌, ◌*◌, ◌-◌, ◌<◌, ◌≡◌, refl, ap, ◌∙◌, true, false, Bool, Option, none, some, List, [], ◌∷◌,
  arith, if◌then◌else◌, ltb,
}
use ipdbg.Prelude.Int.{ℤ, pos}
use ipdbg.Prelude.Text.{codes}
use ipdbg.IoView.Panel.{
  Panel, pack, show_loop, on_check_box, on_text_enter, hex_digit, set_leds, init_inputs,
  masked_digits, test_bit, hex, valid_mask,
}
use ipdbg.IoView.Panel.RoundTrip.{show_loop-pack}
use ipdbg.IoView.Panel.Entered.{ReadsHex, on_text_enter-on_check_box}
use ipdbg.IoView.Panel.Refreshed.{set_leds-stale}

abbrev boxes : List Bool
boxes = true ∷ false ∷ true ∷ []

show_loop-pack_example : show_loop 3 0 3 (pack 3 boxes) (false ∷ false ∷ false ∷ []) ≡ boxes
show_loop-pack_example = show_loop-pack boxes (false ∷ false ∷ false ∷ []) (omega arith) refl

-- A digit in base 16, with small letters.
abbrev digit : ℕ → ℕ
digit c = if ltb c 58 then c - 48 else c - 87

abbrev to_long : List ℕ → Option ℤ
to_long (high ∷ low ∷ []) = some (pos (digit high * 16 + digit low))
to_long _ = none

digit-hex_digit : (d : ℕ) → d < 16 → digit (hex_digit d) ≡ d
digit-hex_digit d h = ground arith

to_long-ReadsHex : ReadsHex to_long
to_long-ReadsHex high low h l =
    ap (λ (n : ℕ). some (pos n))
      (ap (λ (n : ℕ). n * 16 + digit (hex_digit low)) (digit-hex_digit high h)
        ∙ ap (λ (n : ℕ). high * 16 + n) (digit-hex_digit low l))

abbrev panel : Panel
panel = record {
  number_of_inputs = 3;
  number_of_outputs = 3;
  input_leds = false ∷ false ∷ false ∷ [];
  output_check_boxes = boxes;
  input_text = some [];
  output_text = some [];
  old_text = [];
  sent = [];
}

on_text_enter-on_check_box_example :
    on_text_enter to_long (on_check_box panel)
    ≡ record (on_check_box panel) { sent = pack 3 boxes ∷ pack 3 boxes ∷ [] }
on_text_enter-on_check_box_example =
    on_text_enter-on_check_box to_long to_long-ReadsHex panel refl (omega arith)

-- Three inputs of which the first and the last are 1.
abbrev lit : Panel
lit = record panel { input_leds = boxes; input_text = some (codes "0x05"); old_text = codes "05" }

panel-lit : set_leds (5 ∷ []) panel ≡ some lit
unfolding set_leds masked_digits show_loop test_bit hex valid_mask
panel-lit = refl

set_leds-stale_example :
    (r : Panel) × (set_leds (5 ∷ []) (init_inputs 3 lit) ≡ some r) × (r.input_text ≡ some [])
set_leds-stale_example = set_leds-stale (5 ∷ []) panel lit refl panel-lit
