-- ===== src/Tests/Delivery.antt =====
-- The bus access library with the core behind it, and sequences of calls, on concrete inputs.
use ipdbg.Prelude.{◌≡◌, refl, true, false, none, some, [], ◌∷◌, arith}
use ipdbg.Os.{Os, IsQuiet, did_send}
use ipdbg.Command.{ok, this, blank, Handle, State}
use ipdbg.Link.{begin}
use ipdbg.Link.Returns.{Returns, Outcome}
use ipdbg.Escaping.{Mode, normal, escaping, receive_byte}
use ipdbg.BusAccess.Core.{BusCore, no_sizes, round_up, get_buffe_size, max_size}
use ipdbg.BusAccess.Access.{write_ctrllock, read_ctrllock}
use ipdbg.BusAccess.Session.{new, open_connection, set_timeout, store_timeout}
use ipdbg.BusAccess.Invariant.{IsReady, IsValid, Sound}
use ipdbg.BusAccess.Exchange.{is_answer}
use ipdbg.BusAccess.Opening.Prepared.{NotOpened}
use ipdbg.BusAccess.Target.{
  Target, idle, read_access, write_access, feed, react, take_in, dispatch, finish, cut, bytes_of,
}
use ipdbg.BusAccess.Target.Cut.{number}
use ipdbg.BusAccess.Coherent.{Coherent, performed}
use ipdbg.BusAccess.Delivered.{
  write_ctrllock-Coherent, read_ctrllock-Coherent, open_connection-Coherent,
}
use ipdbg.BusAccess.Usage.{
  Allowed, perform, Reaches, begins, calls, open_call, timeout_call, Reaches-perform,
}
use ipdbg.Tests.{script_os, script_os-IsQuiet}
use ipdbg.Tests.Bus.{widths, opened, opened-IsValid}

abbrev pub os : Os
os = script_os (0x55 ∷ 0x42 ∷ [])

abbrev pub quiet : IsQuiet os 1
quiet = script_os-IsQuiet (0x55 ∷ 0x42 ∷ [])

-- A core between two commands, with the address 0.
abbrev pub waiting : Target
waiting = record {
  misc_init = 0 ∷ [];
  phase = idle;
  address = 0 ∷ [];
  misc = 0 ∷ [];
  strobe = 1 ∷ [];
  accesses = [];
}

abbrev pub before : Mode × Target
before = (normal, waiting)

-- The address 0 has been sent.
abbrev pub addressed : State BusCore
addressed = record (opened 3) { trace = did_send (some 3) (0xD0 ∷ 0 ∷ []) ∷ [] }

pub addressed-IsValid : IsValid addressed
unfolding round_up
addressed-IsValid = let v = opened-IsValid 3 refl in record { closed = v.closed; opened = v.opened }

pub addressed-Coherent : Coherent before addressed waiting
unfolding feed react take_in dispatch finish receive_byte
addressed-Coherent = record {
  shadow = 0 ∷ [];
  address_shadow = refl;
  long_enough = omega arith;
  fed = refl;
}

-- A core with twelve bits of address, to which the address 0 has been sent.
abbrev twelve : State BusCore
twelve = record {
  handle = record {
    socket = some 3;
    timeout_ms = 100;
    last_error = blank;
    core = record {
      sizes = record (widths 3) { address_width = 12; address_width_bytes = 2 };
      buffer = some (0 ∷ 0 ∷ 0 ∷ []);
      address_shadow = some (0 ∷ 0 ∷ []);
    };
  };
  trace = did_send (some 3) (0xD0 ∷ 0 ∷ 0 ∷ []) ∷ [];
}

twelve-IsReady : IsReady twelve.core
unfolding round_up get_buffe_size max_size
twelve-IsReady = record {
  rounded = record {
    address = refl;
    read_data = refl;
    write_data = refl;
    misc = refl;
    strobe = refl;
  };
  bytes = 0 ∷ 0 ∷ 0 ∷ [];
  buffer = refl;
  length_buffer = refl;
  shadow = 0 ∷ 0 ∷ [];
  address_shadow = refl;
  length_shadow = refl;
}

twelve-IsValid : IsValid twelve
twelve-IsValid = record { closed = λ h. cc; opened = λ h. twelve-IsReady }

twelve-Coherent : Coherent before twelve waiting
unfolding feed react take_in dispatch finish receive_byte
twelve-Coherent = record {
  shadow = 0 ∷ 0 ∷ [];
  address_shadow = refl;
  long_enough = omega arith;
  fed = refl;
}

-- Four bits of the second byte are beyond the register.
write_ctrllock-Coherent_example :
    Returns
      (λ r s'.
        is_answer r ≡ true
        → Coherent before s'
            (performed (write_access false (0xEE ∷ 0x0F ∷ []) (0x42 ∷ [])) waiting))
      (write_ctrllock os 1 this (0xEE ∷ 0xFF ∷ []) (0x42 ∷ []) false twelve)
unfolding bytes_of number
write_ctrllock-Coherent_example =
    write_ctrllock-Coherent os 1 quiet before (0xEE ∷ 0xFF ∷ []) (0x42 ∷ []) false twelve waiting
      twelve-IsValid (omega arith) (omega arith) twelve-Coherent

read_ctrllock-Coherent_example :
    Returns
      (λ (r, result) s'.
        is_answer r ≡ true
        → Coherent before s' (performed (read_access true (0xEE ∷ 0x0F ∷ [])) waiting))
      (read_ctrllock os 1 this (0xEE ∷ 0xFF ∷ []) true twelve)
unfolding bytes_of number
read_ctrllock-Coherent_example =
    read_ctrllock-Coherent os 1 quiet before (0xEE ∷ 0xFF ∷ []) true twelve waiting twelve-IsValid
      (omega arith) twelve-Coherent

-- Twelve bits of two bytes.
cut_twelve : cut 12 (0xFF ∷ 0xFF ∷ []) ≡ 0xFF ∷ 0x0F ∷ []
unfolding cut
cut_twelve = refl

-- A new handle.
abbrev new_handle : Handle BusCore
new_handle = record {
  socket = none;
  timeout_ms = 5000;
  last_error = blank;
  core = record { sizes = no_sizes; buffer = none; address_shadow = none };
}

abbrev at_first : State BusCore
at_first = record { handle = new_handle; trace = [] }

open_connection-Coherent_example :
    Returns
      (Outcome (λ s'. (t : Target) × Coherent (escaping, waiting) s' t) NotOpened)
      (open_connection os 1 this (some 1) (some 2) at_first)
open_connection-Coherent_example =
    open_connection-Coherent os 1 quiet (escaping, waiting) (some 1) (some 2) at_first refl
      (record { buffer = refl; address_shadow = refl })

-- After a call of setTimeout.
abbrev at_second : State BusCore
at_second = record { handle = record new_handle { timeout_ms = 50 }; trace = [] }

second-Reaches : Reaches os 1 at_first at_second
unfolding Allowed perform set_timeout store_timeout begin
second-Reaches = calls (timeout_call 50) ok begins tt refl

new_handle-new : new true ≡ some new_handle
unfolding new
new_handle-new = refl

open_call-Allowed : Allowed (open_call (some 1) (some 2)) at_second
unfolding Allowed
open_call-Allowed = tt

Reaches-perform_example : Returns Sound (perform os 1 (open_call (some 1) (some 2)) at_second)
Reaches-perform_example =
    Reaches-perform os 1 quiet new_handle [] at_second (open_call (some 1) (some 2)) new_handle-new
      second-Reaches open_call-Allowed
