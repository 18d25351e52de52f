-- ===== src/Tests/Waveform.antt =====
-- The waveform generator library on a core with samples of eight bits.
use ipdbg.Prelude.{
  ℕ, ◌≡◌, refl, ap, none, some, [], ◌∷◌, ◌++◌, arith, if◌then◌else◌, Bool-cases, inl, inr,
}
use mathlib.Core.List.{map}
use ipdbg.Os.{Os, IsQuiet, RecvAnswer, got, drain, call_recv}
use ipdbg.Command.{State, this, blank, with_error}
use ipdbg.Link.Returns.{Returns, Outcome}
use ipdbg.Escaping.{normal, byte, decode}
use ipdbg.WaveformGenerator.Core.{
  WfgCore, no_widths, round_up, set_number_of_samples_cmd, write_samples_cmd,
}
use ipdbg.WaveformGenerator.Session.{close, control}
use ipdbg.WaveformGenerator.Writing.{write, wait_done, frame}
use ipdbg.WaveformGenerator.Writing.Frame.{decode-frame, big_endian, sample_bytes}
use ipdbg.WaveformGenerator.Invariant.{IsSized, IsValid, Failed}
use ipdbg.WaveformGenerator.Waiting.{ReportsAtMost, Waited, wait_done-Waited}
use ipdbg.WaveformGenerator.Written.{Written, write-Written}
use ipdbg.WaveformGenerator.Commands.{Answered, control-Answered}
use ipdbg.WaveformGenerator.Ending.{Flushed, close-Flushed}
use ipdbg.Tests.{is_shut, script_os, script_os-IsQuiet}

abbrev core : WfgCore
core = record { data_width = 8; address_width = 4; data_width_bytes = 1; address_width_bytes = 1 }

abbrev pub opened : State WfgCore
opened = record {
  handle = record { socket = some 3; timeout_ms = 100; last_error = blank; core = core };
  trace = [];
}

abbrev closed : State WfgCore
closed = record {
  handle = record { socket = none; timeout_ms = 100; last_error = blank; core = no_widths };
  trace = [];
}

core-IsSized : IsSized core
unfolding round_up
core-IsSized = record {
  data_width = refl;
  address_width = refl;
  data_width_bytes = refl;
  address_width_bytes = refl;
}

pub opened-IsValid : IsValid opened
opened-IsValid h = core-IsSized

-- The core reports the end at once.
abbrev pub ready_os : Os
ready_os = record (script_os []) {
  recv = λ t fd room. if is_shut t then got [] else got (0xFB ∷ []);
}

pub ready_os-IsQuiet : IsQuiet ready_os 1
unfolding drain call_recv
ready_os-IsQuiet fd set t = (_, refl)

abbrev first : RecvAnswer → ℕ
first (got (b ∷ bytes)) = b
first _ = 0

pub ready_os-ReportsAtMost : ReportsAtMost ready_os 0
ready_os-ReportsAtMost t fd rest h = elim (Bool-cases (is_shut t)) [
  | inl shut ↦ rw shut (λ e. cc)
  | inr talking ↦ rw talking (λ e. absurd (omega (arith, ap first e)))
]

write-Written_example :
    Returns
      (Outcome (Written (0xEE ∷ 0x55 ∷ []) 2 opened) Failed)
      (write ready_os 1 1 this (some (0xEE ∷ 0x55 ∷ [])) 2 opened)
write-Written_example =
    write-Written ready_os 1 ready_os-IsQuiet 0 0 (0xEE ∷ 0x55 ∷ []) 2 opened ready_os-ReportsAtMost
      (omega arith) opened-IsValid
      (record { data_width = omega arith; address_width = omega arith }) (omega arith)

wait_done-Waited_example : Returns (Outcome (Waited opened) Failed) (wait_done ready_os 1 1 opened)
wait_done-Waited_example =
    wait_done-Waited ready_os 1 ready_os-IsQuiet 0 0 opened ready_os-ReportsAtMost (omega arith)
      opened-IsValid

decode-frame_example :
    decode normal (frame core (0xEE ∷ 0x55 ∷ []) 2 ++ [])
    ≡ byte set_number_of_samples_cmd
      ∷ (map byte (big_endian 1 1)
          ++ (byte write_samples_cmd
              ∷ (map byte (sample_bytes 1 (0xEE ∷ 0x55 ∷ []) 2) ++ decode normal [])))
decode-frame_example = decode-frame core (0xEE ∷ 0x55 ∷ []) 2 [] (omega arith)

control-Answered_example :
    Returns
      (Outcome
        (λ s'. (status : ℕ) × Answered (0xF0 ∷ 0xF5 ∷ []) (with_error opened blank) status s')
        Failed)
      (control (script_os (0x01 ∷ [])) 1 this 0xF0 opened)
control-Answered_example =
    control-Answered (script_os (0x01 ∷ [])) 1 (script_os-IsQuiet (0x01 ∷ [])) 0xF0 opened
      opened-IsValid

close-Flushed_example : Returns (Flushed opened) (close (script_os (0x01 ∷ [])) 1 this opened)
close-Flushed_example =
    close-Flushed (script_os (0x01 ∷ [])) 1 (script_os-IsQuiet (0x01 ∷ [])) opened opened-IsValid
