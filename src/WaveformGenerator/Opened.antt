-- ===== src/WaveformGenerator/Opened.antt =====
-- IpdbgWaveformGenerator_open and close.
use ipdbg.Prelude.{ℕ, ◌≡◌, true, false, none, List, [], ◌∷◌, length}
use ipdbg.Os.{Os, wire, heard}
use ipdbg.Command.{is_none, is_blank, State}
use ipdbg.Escaping.{reset_symbol}
use ipdbg.Link
use ipdbg.Link.Returns.{Returns, Outcome}
use ipdbg.WaveformGenerator.Core.{WfgCore, with_widths, with_width_bytes, return_sizes_cmd}
use ipdbg.WaveformGenerator.Invariant.{IsSized}

abbrev Reported : State WfgCore → Type 0
Reported s = is_blank s.last_error ≡ false

-- Two resets and the query for the widths.
abbrev pub opening : List ℕ
opening = reset_symbol ∷ reset_symbol ∷ return_sizes_cmd ∷ []

-- The widths are the answer of the core, and none of them is 0.
pub record Usable (s : State WfgCore) : Type 0 where
  pub connected : is_none s.socket ≡ false
  pub no_error : is_blank s.last_error ≡ true
  pub sized : IsSized s.core
  pub length_answer : length (heard s.trace) ≡ 8
  pub widths : s.core ≡ with_width_bytes (with_widths s.core (heard s.trace))
  pub wire_is : wire s.trace ≡ opening

pub record NotUsable (s : State WfgCore) : Type 0 where
  pub socket : s.socket ≡ none
  pub reported : is_blank s.last_error ≡ false
