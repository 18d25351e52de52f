-- ===== src/UartBridge/Setup.antt =====
-- sw/UartBridge/UartBridge.cpp: openSerial and makeListenSocket, over the answers of libserialport
-- and of the socket calls, which are a parameter.
pub mod Prepared
use ipdbg.Prelude.{ℕ, Bool, true, false, Option, none, some, List, [], ◌∷◌, if◌then◌else◌}
use ipdbg.UartBridge.Options.{Options}

-- The calls, with their arguments.
pub data Request : Type 0 where
  get_port_by_name : List ℕ → Request
  open_read_write : Request
  set_baudrate set_bits set_stopbits : ℕ → Request
  set_parity_none set_flowcontrol_none : Request
  reuse_address : ℕ → Request
  inet_pton : List ℕ → Request
  bind : ℕ → List ℕ → ℕ → Request
  listen : ℕ → ℕ → Request

-- The calls so far, the latest first, with whether they have succeeded.
pub data Event : Type 0 where
  did : Request → Bool → Event
  did_socket : Option ℕ → Event
  did_close : ℕ → Event

abbrev pub Trace : Type 0
Trace = List Event

pub record System : Type 0 where
  pub answer : Trace → Request → Bool
  pub socket : Trace → Option ℕ

-- A function of the program: its result and the calls that it leaves behind.
abbrev pub Action : Type 0 → Type 0
Action A = Trace → A × Trace

infixl 5 ◌>>=◌
abbrev pub ◌>>=◌ : {A B : Type 0} → Action A → (A → Action B) → Action B
m >>= k = λ t. let (a, t') = m t in k a t'

abbrev pub pure : {A : Type 0} → A → Action A
pure a t = (a, t)

-- `a && b` makes the second call if the first has succeeded.
infixl 5 ◌and_then◌
abbrev pub ◌and_then◌ : Action Bool → Action Bool → Action Bool
m and_then k = m >>= λ done. if done then k else pure false

module _ (sys : System) where
  unfoldable pub ask : Request → Action Bool
  ask r t = (sys.answer t r, did r (sys.answer t r) ∷ t)

  unfoldable pub new_socket : Action (Option ℕ)
  new_socket t = (sys.socket t, did_socket (sys.socket t) ∷ t)

  unfoldable pub close_fd : ℕ → Action (Option ℕ)
  close_fd fd t = (none, did_close fd ∷ t)

  unfoldable pub open_serial : Options → Action Bool
  unfolding ask
  open_serial o =
      ask (get_port_by_name o.device)
      and_then ask open_read_write
      and_then ask (set_baudrate o.baudrate)
      and_then ask (set_bits 8)
      and_then ask set_parity_none
      and_then ask (set_stopbits 1)
      and_then ask set_flowcontrol_none

  -- `if (failed) { close(fd); return INVALID_SOCKET; }`
  unfoldable pub or_close : ℕ → Bool → Action (Option ℕ) → Action (Option ℕ)
  unfolding close_fd
  or_close fd done k = if done then k else close_fd fd

  unfoldable pub prepare_socket : Options → ℕ → Action (Option ℕ)
  unfolding ask or_close
  prepare_socket o fd = do
    _ ← ask (reuse_address fd)
    valid ← ask (inet_pton o.bind)
    or_close fd valid (do
      bound ← ask (bind fd o.bind o.tcp_port)
      or_close fd bound (do listening ← ask (listen fd 4); or_close fd listening (pure (some fd))))

  unfoldable pub make_listen_socket : Options → Action (Option ℕ)
  unfolding new_socket prepare_socket
  make_listen_socket o = do
    fd ← new_socket
    elim fd [ none ↦ pure none | some n ↦ prepare_socket o n ]

  -- `main` up to its loop; `none` is an exit with 1.
  unfoldable pub start_up : Options → Action (Option ℕ)
  unfolding open_serial make_listen_socket
  start_up o = do opened ← open_serial o; if opened then make_listen_socket o else pure none
