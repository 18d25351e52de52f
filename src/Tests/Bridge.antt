-- ===== src/Tests/Bridge.antt =====
-- The bridge on concrete inputs.
use ipdbg.Prelude.{
  ℕ, ◌≤◌, ◌&&◌, ◌≡◌, ◌≢◌, refl, true, false, some, List, [], ◌∷◌, arith, if◌then◌else◌,
}
use ipdbg.Prelude.Text.{codes}
use ipdbg.UartBridge.Options.{
  Options, Parsed, run, no_options, is_option, parse_options, parse_loop, parse_bind, finished,
  complete, take_argument, take_positional, take_number, parse_int, strtol, skip_space, is_space,
  after_sign, signed_digits, digits_of, is_digit, begins_with_digit, saturated, checked, within,
  to_int,
}
use ipdbg.UartBridge.Options.Bounds.{InRanges, parse_options-InRanges}
use ipdbg.UartBridge.Options.Accepted.{text_of, number_from, is_within, parse_options-decimal}
use ipdbg.UartBridge.Setup.{System, open_serial}
use ipdbg.UartBridge.Setup.Prepared.{settings, Failed, open_serial-settings}
use ipdbg.UartBridge.Pumps
use ipdbg.UartBridge.Pumps.{Down, Up, Pumps, DownStep, UpStep}
use ipdbg.UartBridge.Pumps.Forwarding.{Forwarded, Reach-Forwarded}
use ipdbg.UartBridge.Pumps.Ending.{one_more, none_yet, most_steps, Steps-end}
use ipdbg.UartBridge.Session
use ipdbg.UartBridge.Session.{Main, Bridge}
use ipdbg.UartBridge.Session.Exclusive.{Exclusive, Reach-Exclusive}

abbrev device : List ℕ
device = codes "/dev/ttyUSB1"

device-plain : is_option device ≡ false
unfolding is_option
device-plain = refl

parse_options-decimal_example :
    parse_options (device ∷ text_of (9 ∷ 6 ∷ []) ∷ text_of (4 ∷ 2 ∷ []) ∷ []) ≡ (
      if is_within 1 100000000 (number_from 0 (9 ∷ 6 ∷ []))
        && is_within 1 65535 (number_from 0 (4 ∷ 2 ∷ []))
      then run
          (record no_options {
            device = device;
            baudrate = number_from 0 (9 ∷ 6 ∷ []);
            tcp_port = number_from 0 (4 ∷ 2 ∷ []);
          })
          false
      else Parsed.refused)
parse_options-decimal_example =
    parse_options-decimal device 9 (6 ∷ []) 4 (2 ∷ []) device-plain (omega arith, (omega arith, tt))
      (omega arith, (omega arith, tt))

-- `UartBridge --bind 0.0.0.0 x 96 42`
abbrev arguments : List (List ℕ)
arguments = codes "--bind" ∷ codes "0.0.0.0" ∷ codes "x" ∷ codes "96" ∷ codes "42" ∷ []

abbrev parsed : Options
parsed = record { device = codes "x"; baudrate = 96; tcp_port = 42; bind = codes "0.0.0.0" }

arguments-parsed : parse_options arguments ≡ run parsed false
unfolding parse_options parse_loop parse_bind finished complete take_argument take_positional
    is_option take_number parse_int strtol skip_space is_space after_sign signed_digits digits_of
    is_digit begins_with_digit saturated checked within to_int
arguments-parsed = refl

parse_options-InRanges_example : InRanges parsed
parse_options-InRanges_example = parse_options-InRanges arguments parsed arguments-parsed

-- Everything succeeds.
abbrev system : System
system = record { answer = λ t r. true; socket = λ t. some 3 }

open_serial-settings_example :
    ((open_serial system parsed []).0 ≡ true
      → (open_serial system parsed []).1 ≡ settings parsed [])
    × ((open_serial system parsed []).0 ≡ false → Failed (open_serial system parsed []).1)
open_serial-settings_example = open_serial-settings system parsed []

-- The client sends a byte, which is written, and then ends the connection.
abbrev at_test : Pumps
at_test = record Pumps.start {
  up = Up.test;
  events = true;
  from_client = 65 ∷ [];
  to_serial = 65 ∷ [];
}

at_test-Reach : Pumps.Reach at_test
at_test-Reach =
    Pumps.next
      (Pumps.next
        (Pumps.next (Pumps.next Pumps.here (Pumps.up_step (UpStep.has_events refl)))
          (Pumps.down_step (DownStep.goes_on refl refl)))
        (Pumps.down_step (DownStep.received 65 [] (omega arith) refl)))
      (Pumps.down_step (DownStep.written (65 ∷ []) refl))

Reach-Forwarded_example : Forwarded at_test
Reach-Forwarded_example = Reach-Forwarded at_test-Reach

abbrev halted : Pumps
halted = record at_test { down = Down.shut; running = false }

halted-Reach : Pumps.Reach halted
halted-Reach =
    Pumps.next
      (Pumps.next (Pumps.next at_test-Reach (Pumps.down_step (DownStep.goes_on refl refl)))
        (Pumps.down_step (DownStep.ended refl)))
      (Pumps.down_step (DownStep.clears refl))

-- One more step of the other thread.
abbrev leaving : Pumps
leaving = record halted { up = Up.free }

Steps-end_example :
    (1 ≤ most_steps)
    × (leaving.down ≢ Down.done → (r : Pumps) × DownStep leaving r)
    × (leaving.up ≢ Up.done → (r : Pumps) × UpStep leaving r)
Steps-end_example =
    Steps-end halted-Reach refl (one_more none_yet (Pumps.up_step (UpStep.stops refl refl)))

-- A connection has been accepted.
abbrev connected : Bridge
connected = record Session.start { main = Main.accepted 4; opened = 1 }

connected-Reach : Session.Reach connected
connected-Reach = Session.next Session.here (Session.main_step refl refl (Session.accepts 4 refl))

Reach-Exclusive_example : Exclusive connected
Reach-Exclusive_example = Reach-Exclusive connected-Reach
