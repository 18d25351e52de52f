-- ===== src/Command.antt =====
-- The state of a connection, and commands on it.
use ipdbg.Prelude.{ℕ, Bool, true, false, Option, none, some}
use ipdbg.Os.{Socket, Trace, Os}

-- RET_ERROR, RET_OK, RET_NAK and RET_ACK.
pub data Ret : Type 0 where
  error ok nak ack : Ret

-- The pointer that a caller passes for the handle: NULL, or the handle of the state.
pub data Ref : Type 0 where
  null this : Ref

-- `lastError`: one constructor for each format string, with its arguments; `blank` is "".
pub data Message : Type 0 where
  blank not_connected connection_closed_by_peer already_connected no_host_or_port : Message
  timeout_expired set_timeout_failed send_failed receive_failed close_failed : ℕ → Message
  unable_to_resolve : ℕ → ℕ → ℕ → Message
  unable_to_connect : ℕ → ℕ → Option ℕ → Message
  no_result_pointer out_of_memory : Message
  not_a_bus_access_core : ℕ → Message
  no_fields no_write_data no_read_data no_misc_signals no_strobe widths_differ : Message
  write_answered_with_nak read_answered_with_nak : Message
  invalid_response_to_write invalid_response_to_read : ℕ → Message
  not_an_axi4l_master not_an_apb_master not_an_avalon_master not_an_ahb_master not_a_dtm : Message
  hsize_too_big : Message
  invalid_widths : ℕ → ℕ → Message
  no_samples too_many_samples : Message
  sample_count : ℕ → ℕ → Message
  invalid_response_writing_samples : ℕ → Message

-- The fields that both handles have; `core` holds the others.
pub record Handle (X : Type 0) : Type 0 where
  pub socket : Socket
  pub timeout_ms : ℕ
  pub last_error : Message
  pub core : X

pub record State (X : Type 0) : Type 0 where
  pub handle : Handle X
  pub open handle use *
  pub trace : Trace

-- A call returns, accesses memory that it may not, or waits for ever.
pub data Run (X A : Type 0) : Type 0 where
  done : A → State X → Run X A
  fault : Run X A
  forever : Run X A

abbrev pub Cmd : Type 0 → Type 0 → Type 0
Cmd X A = State X → Run X A

abbrev pub pure : {X A : Type 0} → A → Cmd X A
pure a s = done a s

abbrev pub and_then : {X A B : Type 0} → Run X A → (A → Cmd X B) → Run X B
and_then (done a s) k = k a s
and_then fault k = fault
and_then forever k = forever

infixl 5 ◌>>=◌ ◌>>◌
abbrev pub ◌>>=◌ : {X A B : Type 0} → Cmd X A → (A → Cmd X B) → Cmd X B
m >>= k = λ s. and_then (m s) k

-- `if (ret != RET_OK) return ret;`
abbrev pub if_ok : {X : Type 0} → Ret → Cmd X Ret → Cmd X Ret
if_ok ok k = k
if_ok error k = pure error
if_ok nak k = pure nak
if_ok ack k = pure ack

-- `ret = m; if (ret != RET_OK) return ret; k`
abbrev pub ◌>>◌ : {X : Type 0} → Cmd X Ret → Cmd X Ret → Cmd X Ret
m >> k = m >>= λ ret. if_ok ret k

abbrev pub with_error : {X : Type 0} → State X → Message → State X
with_error s message = record s { handle = record s.handle { last_error = message } }

abbrev pub with_core : {X : Type 0} → State X → X → State X
with_core s core = record s { handle = record s.handle { core = core } }

abbrev pub with_trace : {X : Type 0} → State X → Trace → State X
with_trace s trace = record s { trace = trace }

abbrev pub with_socket : {X : Type 0} → State X → Socket → State X
with_socket s socket = record s { handle = record s.handle { socket = socket } }

abbrev pub get : {X : Type 0} → Cmd X (State X)
get s = done s s

abbrev pub is_none {ℓ} : {A : Type ℓ} → Option A → Bool
is_none none = true
is_none (some a) = false

-- `lastError[0] == '\0'`: every format string begins with a letter.
abbrev pub is_blank : Message → Bool
is_blank blank = true
is_blank _ = false

abbrev pub is_ok : Ret → Bool
is_ok ok = true
is_ok _ = false

abbrev pub is_error : Ret → Bool
is_error error = true
is_error _ = false

-- What a connection is built over: the operating system, the bound on the reads of a close, and
-- what a close frees.
pub record Env (X : Type 0) : Type 0 where
  pub os : Os
  pub fuel : ℕ
  pub release : X → X
