-- ===== src/IoView/Panel/Refreshed.antt =====
-- IOViewPanel::setLeds and initInputs: when the text of the inputs is written.
use ipdbg.Prelude.{
  ℕ, ◌≡◌, refl, ap, ◌∙◌, sym, true, false, Option, none, some, List, [], ◌∷◌, ◌++◌, ◌==◌, ==_iff,
  same_bytes, same_bytes-eq, Bool-cases, Option-cases, inl, inr,
}
use ipdbg.Prelude.Text.{codes}
use ipdbg.IoView.Panel.{Panel, masked_digits, show_loop, set_leds, init_inputs}

same_bytes_refl : (xs : List ℕ) → same_bytes xs xs ≡ true
same_bytes_refl [] = refl
same_bytes_refl (x ∷ xs) = rw ((==_iff x x).1 refl) (same_bytes_refl xs)

abbrev text : Option Panel → List ℕ
text none = []
text (some p) = p.old_text

-- The diodes and the text of the last call.
pub set_leds-old_text :
    (buffer : List ℕ) (p q : Panel)
    → set_leds buffer p ≡ some q
    → q.old_text ≡ masked_digits p.number_of_inputs buffer
unfolding set_leds
set_leds-old_text buffer p q at = elim (Bool-cases (same_bytes digits p.old_text)) [
  | inl same ↦
      let e : set_leds buffer p ≡ some lit = rw same refl in
      ap text (sym at ∙ e) ∙ sym (same_bytes-eq digits p.old_text same)
  | inr changed ↦ elim (Option-cases p.input_text) [
    | inl absent ↦ let e : set_leds buffer p ≡ none = rw (changed, absent) refl in cc (e, at)
    | inr (shown, there) ↦
        let e : set_leds buffer p
            ≡ some (record lit { input_text = some (codes "0x" ++ digits); old_text = digits }) =
          rw (changed, there) refl in
        ap text (sym at ∙ e)
  ]
]
  where
    digits : List ℕ
    digits = masked_digits p.number_of_inputs buffer

    lit : Panel
    lit = record p {
      input_leds = show_loop p.number_of_inputs 0 p.number_of_inputs buffer p.input_leds;
    }

-- If the panel of a core with inputs has shown a buffer, and is set up again for as many inputs,
-- then showing the same buffer once more leaves the new text field empty.
pub set_leds-stale :
    (buffer : List ℕ) (p q : Panel)
    → (p.number_of_inputs == 0) ≡ false
    → set_leds buffer p ≡ some q
    → (r : Panel) × (set_leds buffer (init_inputs p.number_of_inputs q) ≡ some r)
      × (r.input_text ≡ some [])
unfolding set_leds init_inputs
set_leds-stale buffer p q some_inputs at = (
  record (init_inputs p.number_of_inputs q) {
    input_leds =
        show_loop p.number_of_inputs 0 p.number_of_inputs buffer
          (init_inputs p.number_of_inputs q).input_leds;
  },
  rw (set_leds-old_text buffer p q at, same_bytes_refl (masked_digits p.number_of_inputs buffer))
      refl,
  rw some_inputs refl,
)
