-- ===== src/IoView/Protocol.antt =====
-- sw/IoView/IOViewProtocol.cpp: the connection of the user interface, over the bus access library.
-- The observer is the main window, which IOViewMain.cpp always passes. Texts that the user enters
-- are numbers, as in the library, and `none` is an empty text.
pub mod Invariant
pub mod Opened
pub mod Accesses
pub mod Events
use ipdbg.Prelude.{
  ℕ, ◌+◌, ◌/◌, ◌%◌, ◌^◌, Bool, true, false, not, ◌||◌, ◌≡◌, Option, none, some, List, [], ◌∷◌, ◌++◌,
  leb, ◌==◌, if◌then◌else◌, length, drop, replicate,
}
use ipdbg.Os.{Os, Trace}
use ipdbg.Command.{
  Ret, error, ok, nak, ack, this, Message, Handle, State, Cmd, Run, done, fault, forever, is_ok,
  is_none,
}
use ipdbg.BusAccess.Core.{BusCore}
use ipdbg.BusAccess.Access
use ipdbg.BusAccess.Session
use ipdbg.BusAccess.Session.{BusAccessField, get_field_size, get_core_type_of}

-- The texts of the message boxes, with their arguments.
pub data Failure : Type 0 where
  connecting_failed : ℕ → ℕ → Message → Failure
  is_bus_master : ℕ → ℕ → Failure
  unknown_core_type : ℕ → ℕ → ℕ → Failure
  bytes_for_outputs : ℕ → ℕ → Failure
  outputs_nak inputs_nak : Failure
  outputs_failed inputs_failed : Message → Failure

-- What the user gets to see, and what is saved for the next dialog.
pub data Shown : Type 0 where
  no_memory : Shown
  failure : Failure → Shown
  saved : ℕ → ℕ → Shown
  port_widths : ℕ → ℕ → Shown
  connected : ℕ → ℕ → ℕ → ℕ → Shown
  disconnected : Shown
  inputs : List ℕ → Shown

-- The class. `pending` holds the calls that CallAfter has left for the event loop, the next first;
-- `timer` says whether the one-shot timer runs; `shown` has the latest first.
pub record Protocol : Type 0 where
  pub handle : Option (Handle BusCore)
  pub number_of_inputs : ℕ
  pub number_of_outputs : ℕ
  pub input_buffer : List ℕ
  pub failing : Bool
  pub timer : Bool
  pub pending : List Failure
  pub shown : List Shown
  pub trace : Trace

-- What the configuration holds, and what the dialog makes of the two texts that it starts with.
pub record Choice : Type 0 where
  pub last_host : Option ℕ
  pub last_port : Option ℕ
  pub default_host : ℕ
  pub default_port : ℕ
  pub show_modal : ℕ → ℕ → Bool × (Option ℕ × Option ℕ)

abbrev pub core_type_bus_master : ℕ
core_type_bus_master = 0

abbrev pub core_type_ioprobe : ℕ
core_type_ioprobe = 1

unfoldable pub or_default : Option ℕ → ℕ → ℕ
or_default none default = default
or_default (some text) default = text

abbrev pub accepted : Bool × (Option ℕ × Option ℕ) → Option (ℕ × ℕ)
accepted (true, (some host, some port)) = some (host, port)
accepted _ = none

unfoldable pub choose : Choice → Option (ℕ × ℕ)
unfolding or_default
choose c =
    accepted
      (c.show_modal (or_default c.last_host c.default_host) (or_default c.last_port c.default_port))

-- A call returns, or (`none`) accesses memory that it may not or waits for ever.
abbrev pub Ended : Type 0
Ended = Option Protocol

abbrev pub show : Shown → Protocol → Protocol
show x p = record p { shown = x ∷ p.shown }

-- `(bits + 7) / 8` in unsigned numbers of 32 bits.
unfoldable pub port_bytes : ℕ → ℕ
port_bytes bits = (bits + 7) % 2 ^ 32 / 8

-- It is called while there is a handle; a text of a null pointer is empty.
unfoldable pub last_error : Protocol → Message
last_error p = elim p.handle [ none ↦ Message.blank | some h ↦ h.last_error ]

-- The library's function on the handle, and what follows it.
abbrev pub resume : {A : Type 0} → Protocol → Run BusCore A → (A → Protocol → Ended) → Ended
resume p (done a s) k = k a (record p { handle = some s.handle; trace = s.trace })
resume p fault k = none
resume p forever k = none

abbrev pub call : {A : Type 0} → Cmd BusCore A → Protocol → (A → Protocol → Ended) → Ended
call m p k = elim p.handle [
  | none ↦ none
  | some h ↦ resume p (m (record { handle = h; trace = p.trace })) k
]

-- `&address` is one byte.
abbrev pub address : List ℕ
address = 0 ∷ []

abbrev pub is_open : Protocol → Bool
is_open p = not (is_none p.handle)

module _ (os : Os) (fuel : ℕ) where
  unfoldable pub cleared : Protocol → Protocol
  cleared p = show disconnected (
      show (port_widths 0 0) (record p {
        handle = none;
        number_of_inputs = 0;
        number_of_outputs = 0;
        input_buffer = [];
        timer = false;
      }))

  -- The destructor.
  unfoldable pub destruct : Protocol → Ended
  destruct p =
      if is_none p.handle
      then some (record p { timer = false })
      else call (Session.delete os fuel this) p
          λ ret p'. some (record p' { handle = none; timer = false })

  unfoldable pub close : Protocol → Ended
  unfolding cleared
  close p =
      if is_none p.handle
      then some (cleared p)
      else call (Session.delete os fuel this) p λ ret p'. some (cleared p')

  unfoldable pub after_close : Failure → Ended → Ended
  after_close message none = none
  after_close message (some p) = some (show (failure message) p)

  unfoldable pub fail_now : Failure → Protocol → Ended
  unfolding close after_close
  fail_now message p = after_close message (close p)

  unfoldable pub fail : Failure → Protocol → Ended
  fail message p =
      if p.failing
      then some p
      else some (record p { failing = true; timer = false; pending = p.pending ++ (message ∷ []) })

  -- The lambda that `fail` leaves behind.
  unfoldable pub run_pending : Protocol → Ended
  unfolding fail_now
  run_pending p = elim p.pending [
    | [] ↦ some p
    | message ∷ rest ↦ fail_now message (record p { failing = false; pending = rest })
  ]

  -- The answers to the three queries, 0 where there is none.
  unfoldable pub value_or_zero : Option ℕ → ℕ
  value_or_zero none = 0
  value_or_zero (some n) = n

  unfoldable pub start_polling : ℕ → ℕ → ℕ → ℕ → Protocol → Protocol
  unfolding port_bytes
  start_polling host port ins outs p = show (connected host port (ins % 2 ^ 32) (outs % 2 ^ 32)) (
      show (port_widths (ins % 2 ^ 32) (outs % 2 ^ 32)) (record p {
        number_of_inputs = ins % 2 ^ 32;
        number_of_outputs = outs % 2 ^ 32;
        input_buffer = replicate (port_bytes (ins % 2 ^ 32)) 0;
        timer = true;
      }))

  unfoldable pub check_core_type : ℕ → ℕ → ℕ → ℕ → ℕ → Protocol → Ended
  unfolding fail_now start_polling
  check_core_type host port core_type ins outs p =
      if core_type == core_type_ioprobe
      then some (start_polling host port ins outs p)
      else if core_type == core_type_bus_master
      then fail_now (is_bus_master host port) p
      else fail_now (unknown_core_type host port core_type) p

  -- `if (ret != RET_OK) failNow(...)`
  unfoldable pub unless_ok : ℕ → ℕ → Ret → Protocol → Ended → Ended
  unfolding fail_now last_error
  unless_ok host port ret p k =
      if is_ok ret then k else fail_now (connecting_failed host port (last_error p)) p

  -- One operand of the `||` that opens the connection, and what follows if it is false.
  unfoldable pub query_then :
      ℕ → ℕ → Cmd BusCore (Ret × Option ℕ) → (ℕ → Protocol → Ended) → Protocol → Ended
  unfolding unless_ok value_or_zero
  query_then host port query k p =
      call query p λ (ret, result) p'. unless_ok host port ret p' (k (value_or_zero result) p')

  unfoldable pub query_core : ℕ → ℕ → Protocol → Ended
  unfolding query_then check_core_type
  query_core host port = query_then host port (get_core_type_of this true) λ core_type.
      query_then host port (get_field_size this BusAccessField.read_data true) λ ins.
        query_then host port (get_field_size this BusAccessField.write_data true)
          λ outs. check_core_type host port core_type ins outs

  unfoldable pub connect : ℕ → ℕ → Bool → Protocol → Ended
  unfolding unless_ok query_core
  connect host port allocated p = elim (Session.new allocated) [
    | none ↦ some (show no_memory p)
    | some h ↦
        call (Session.open_connection os fuel this (some host) (some port))
          (record p { handle = some h })
          λ ret p'. unless_ok host port ret p' (query_core host port p')
  ]

  unfoldable pub open_connection : Choice → Bool → Protocol → Ended
  unfolding choose connect
  open_connection c allocated p = if not (is_none p.handle) then some p else elim (choose c) [
    | none ↦ some p
    | some (host, port) ↦ connect host port allocated (show (saved host port) p)
  ]

  unfoldable pub after_write : Ret → Protocol → Ended
  unfolding fail last_error
  after_write ack p = some p
  after_write nak p = fail outputs_nak p
  after_write _ p = fail (outputs_failed (last_error p)) p

  unfoldable pub set_output : List ℕ → Protocol → Ended
  unfolding fail port_bytes after_write
  set_output buffer p =
      if is_none p.handle || p.failing
      then some p
      else if not (length buffer == port_bytes p.number_of_outputs)
      then fail (bytes_for_outputs (length buffer) p.number_of_outputs) p
      else call (Access.write os fuel this address buffer) p after_write

  -- The library stores the data from the start of the buffer.
  unfoldable pub store : Option (List ℕ) → Protocol → Ended
  store none p = some p
  store (some bytes) p =
      if leb (length bytes) (length p.input_buffer)
      then some (record p { input_buffer = bytes ++ drop (length bytes) p.input_buffer })
      else none

  unfoldable pub after_read : Ret → Protocol → Ended
  unfolding fail last_error
  after_read ack p = some (show (inputs p.input_buffer) (record p { timer = true }))
  after_read nak p = fail inputs_nak p
  after_read _ p = fail (inputs_failed (last_error p)) p

  unfoldable pub then_after_read : Ret → Ended → Ended
  unfolding after_read
  then_after_read ret none = none
  then_after_read ret (some p) = after_read ret p

  unfoldable pub notify : Protocol → Ended
  unfolding store then_after_read
  notify p =
      if is_none p.handle || p.failing
      then some p
      else call (Access.read os fuel this address) p
          λ (ret, result) p'. then_after_read ret (store result p')

-- What the event loop runs: the menu, the panel, the timer, and what CallAfter has left.
pub data Event : Type 0 where
  connect_menu : Choice → Bool → Event
  disconnect_menu timer_expired call_after : Event
  output_changed : List ℕ → Event

module _ (os : Os) (fuel : ℕ) where
  unfoldable pub handle_event : Event → Protocol → Ended
  unfolding open_connection close set_output notify run_pending
  handle_event (connect_menu c allocated) p =
      if not (is_open p) then open_connection os fuel c allocated p else some p
  handle_event disconnect_menu p = if is_open p then close os fuel p else some p
  handle_event timer_expired p =
      if p.timer then notify os fuel (record p { timer = false }) else some p
  handle_event call_after p = run_pending os fuel p
  handle_event (output_changed buffer) p = set_output os fuel buffer p
