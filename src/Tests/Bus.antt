-- ===== src/Tests/Bus.antt =====
-- The bus access library on a master with fields of eight bits and three further signals.
use ipdbg.Prelude.{ℕ, ◌≡◌, refl, true, false, none, some, List, [], ◌∷◌, arith}
use ipdbg.Os.{Os, IsQuiet}
use ipdbg.Command.{State, this, blank}
use ipdbg.Link.Returns.{Returns, Outcome}
use ipdbg.BusAccess.Core.{Sizes, BusCore, no_sizes, round_up, get_buffe_size, max_size}
use ipdbg.BusAccess.Access.{modified, write_ctrllock, read_ctrllock, read_modify_write}
use ipdbg.BusAccess.Session.{open_connection, close}
use ipdbg.BusAccess.Invariant.{IsReady, IsFreed, IsValid, IsLive}
use ipdbg.BusAccess.Write.{WritePost, write_ctrllock-WritePost}
use ipdbg.BusAccess.Read.{ReadPost, read_ctrllock-ReadPost}
use ipdbg.BusAccess.Modify.{ModifyPost, read_modify_write-ModifyPost}
use ipdbg.BusAccess.Opening.Opened.{open_connection-Opened}
use ipdbg.BusAccess.Opening.Prepared.{Opened, NotOpened}
use ipdbg.BusAccess.Ending.{Ended, close-Ended}
use ipdbg.Tests.{script_os, script_os-IsQuiet}

abbrev pub widths : ℕ → Sizes
widths misc = record {
  version_and_id = 0x1D;
  address_width = 8;
  read_data_width = 8;
  write_data_width = 8;
  misc_data_width = misc;
  strobe_width = 1;
  address_width_bytes = 1;
  read_data_width_bytes = 1;
  write_data_width_bytes = 1;
  misc_data_width_bytes = 1;
  strobe_width_bytes = 1;
}

abbrev pub opened : ℕ → State BusCore
opened misc = record {
  handle = record {
    socket = some 3;
    timeout_ms = 100;
    last_error = blank;
    core = record {
      sizes = widths misc;
      buffer = some (0 ∷ 0 ∷ []);
      address_shadow = some (0 ∷ []);
    };
  };
  trace = [];
}

abbrev closed : State BusCore
closed = record {
  handle = record {
    socket = none;
    timeout_ms = 100;
    last_error = blank;
    core = record { sizes = no_sizes; buffer = none; address_shadow = none };
  };
  trace = [];
}

-- Any number of signals that one byte holds.
pub opened-IsReady : (misc : ℕ) → 1 ≡ round_up misc → IsReady (opened misc).core
unfolding round_up get_buffe_size max_size
opened-IsReady misc one = record {
  rounded = record {
    address = refl;
    read_data = refl;
    write_data = refl;
    misc = one;
    strobe = refl;
  };
  bytes = 0 ∷ 0 ∷ [];
  buffer = refl;
  length_buffer = refl;
  shadow = 0 ∷ [];
  address_shadow = refl;
  length_shadow = refl;
}

pub opened-IsValid : (misc : ℕ) → 1 ≡ round_up misc → IsValid (opened misc)
opened-IsValid misc one = record { closed = λ h. cc; opened = λ h. opened-IsReady misc one }

three-IsReady : IsReady (opened 3).core
unfolding round_up
three-IsReady = opened-IsReady 3 refl

three-IsValid : IsValid (opened 3)
unfolding round_up
three-IsValid = opened-IsValid 3 refl

three-IsLive : IsLive (opened 3)
three-IsLive = record { connected = refl; ready = three-IsReady; no_error = refl }

closed-IsFreed : IsFreed closed.core
closed-IsFreed = record { buffer = refl; address_shadow = refl }

-- The answer of a core with such widths.
abbrev answer : List ℕ
answer =
    0x1D ∷ 0 ∷ 0 ∷ 0 ∷ 8 ∷ 0 ∷ 0 ∷ 0 ∷ 8 ∷ 0 ∷ 0 ∷ 0 ∷ 8 ∷ 0 ∷ 0 ∷ 0 ∷ 3 ∷ 0 ∷ 0 ∷ 0 ∷ 1 ∷ 0 ∷ 0 ∷ 0
    ∷ []

-- An acknowledged access, with the data 0x42, and one more acknowledgement.
abbrev os : Os
os = script_os (0x55 ∷ 0x42 ∷ 0x55 ∷ [])

abbrev quiet : IsQuiet os 1
quiet = script_os-IsQuiet (0x55 ∷ 0x42 ∷ 0x55 ∷ [])

open_connection-Opened_example :
    Returns
      (Outcome Opened NotOpened)
      (open_connection (script_os answer) 1 this (some 1) (some 2) closed)
open_connection-Opened_example =
    open_connection-Opened (script_os answer) 1 (script_os-IsQuiet answer) (some 1) (some 2) closed
      refl closed-IsFreed

write_ctrllock-WritePost_example :
    Returns
      (WritePost (0xEE ∷ []) (0x42 ∷ []) true (opened 3))
      (write_ctrllock os 1 this (0xEE ∷ []) (0x42 ∷ []) true (opened 3))
write_ctrllock-WritePost_example =
    write_ctrllock-WritePost os 1 quiet (0xEE ∷ []) (0x42 ∷ []) true (opened 3) three-IsValid
      (omega arith) (omega arith)

read_ctrllock-ReadPost_example :
    Returns
      (ReadPost (0xEE ∷ []) false (opened 3))
      (read_ctrllock os 1 this (0xEE ∷ []) false (opened 3))
read_ctrllock-ReadPost_example =
    read_ctrllock-ReadPost os 1 quiet (0xEE ∷ []) false (opened 3) three-IsValid (omega arith)

read_modify_write-ModifyPost_example :
    Returns
      (ModifyPost (0xEE ∷ []) none (opened 3))
      (read_modify_write os 1 this (0xEE ∷ []) none (opened 3))
unfolding modified
read_modify_write-ModifyPost_example =
    read_modify_write-ModifyPost os 1 quiet (0xEE ∷ []) none (opened 3) three-IsValid (omega arith)
      (λ bytes. refl)

close-Ended_example : Returns Ended (close (script_os answer) 1 this (opened 3))
close-Ended_example =
    close-Ended (script_os answer) 1 (script_os-IsQuiet answer) (opened 3) three-IsValid
