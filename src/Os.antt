-- ===== src/Os.antt =====
-- The operating system as sw/BusAccess/BusAccess.c and sw/WaveformGenerator/WaveformGenerator.c
-- call it (POSIX build). It is a parameter: every answer is a function of the calls made so far.
use Prim.Native.Nat.{min}
use ipdbg.Prelude.{
  ℕ, zero, suc, ◌≡◌, Bool, true, Option, none, some, List, [], ◌∷◌, ◌++◌, take, length,
}

-- A descriptor as the handles store it: `none` is INVALD_SOCKET (-1).
abbrev pub Socket : Type 0
Socket = Option ℕ

-- `send`: a count of bytes, EAGAIN or EWOULDBLOCK, or another error.
pub data SendAnswer : Type 0 where
  accepted : ℕ → SendAnswer
  send_timed_out send_error : SendAnswer

-- `recv`: bytes (none at the end of the stream), EAGAIN or EWOULDBLOCK, or another error.
pub data RecvAnswer : Type 0 where
  got : List ℕ → RecvAnswer
  recv_timed_out recv_error : RecvAnswer

-- `getaddrinfo`: the addresses in order, or an error code.
pub data Resolved : Type 0 where
  addresses : List ℕ → Resolved
  unresolved_code : ℕ → Resolved

-- What has been called, with the part of the answer that the other end or the kernel acted on.
pub data Event : Type 0 where
  did_resolve : Event
  did_socket : ℕ → Option ℕ → Event
  did_connect : Socket → ℕ → Bool → Event
  did_set_timeout : Socket → ℕ → Bool → Event
  did_send : Socket → List ℕ → Event
  did_recv : Socket → List ℕ → Event
  did_fail : Socket → Event
  did_shutdown : Socket → Bool → Event
  did_close : Socket → Bool → Event
  did_malloc : ℕ → Bool → Event

-- The calls so far, the latest first.
abbrev pub Trace : Type 0
Trace = List Event

-- Texts of hosts, ports and errors are numbers here: the code only passes them on.
pub record Os : Type 0 where
  pub errno : Trace → ℕ
  pub getaddrinfo : Trace → ℕ → ℕ → Resolved
  pub socket : Trace → ℕ → Option ℕ
  pub connect : Trace → Socket → ℕ → Bool
  pub setsockopt : Trace → Socket → ℕ → Bool
  pub send : Trace → Socket → List ℕ → SendAnswer
  pub recv : Trace → Socket → ℕ → RecvAnswer
  pub shutdown : Trace → Socket → Bool
  pub close : Trace → Socket → Bool
  pub malloc : Trace → ℕ → Bool

-- The bytes that the kernel took for the connection that was made last, in order.
abbrev pub wire : Trace → List ℕ
wire [] = []
wire (did_send fd bytes ∷ t) = wire t ++ bytes
wire (did_connect fd a true ∷ t) = []
wire (_ ∷ t) = wire t

-- The bytes read from that connection, in order.
abbrev pub heard : Trace → List ℕ
heard [] = []
heard (did_recv fd bytes ∷ t) = heard t ++ bytes
heard (did_connect fd a true ∷ t) = []
heard (_ ∷ t) = heard t

-- `send` accepts at most what it is offered: what it took, and the call that it leaves behind.
unfoldable pub call_send : Os → Socket → List ℕ → Trace → SendAnswer × Trace
call_send os fd bytes t = elim (os.send t fd bytes) [
  | accepted n ↦
      let count = min n (length bytes) in (accepted count, did_send fd (take count bytes) ∷ t)
  | send_timed_out ↦ (send_timed_out, did_fail fd ∷ t)
  | send_error ↦ (send_error, did_fail fd ∷ t)
]

-- `recv` stores at most as many bytes as there is room for.
unfoldable pub call_recv : Os → Socket → ℕ → Trace → RecvAnswer × Trace
call_recv os fd room t = elim (os.recv t fd room) [
  | got bytes ↦ (got (take room bytes), did_recv fd (take room bytes) ∷ t)
  | recv_timed_out ↦ (recv_timed_out, did_fail fd ∷ t)
  | recv_error ↦ (recv_error, did_fail fd ∷ t)
]

-- `while (recv(socket, recvbuf, 16, 0) > 0);` on fuel.
unfoldable pub drain : Os → Socket → ℕ → Trace → Option Trace
drain os fd zero t = none
drain os fd (suc fuel) t =
    let (answer, t') = call_recv os fd 16 t in
    elim answer [ got (b ∷ bytes) ↦ drain os fd fuel t' | _ ↦ some t' ]

-- What the close relies on: once the sending side is shut down and the read timeout is set to two
-- seconds, the peer's stream ends, fails or pauses within `fuel` reads of sixteen bytes.
abbrev pub IsQuiet : Os → ℕ → Type 0
IsQuiet os fuel =
    (fd : Socket) (done : Bool) (t : Trace)
    → (t' : Trace) × (drain os fd fuel (did_set_timeout fd 2000 done ∷ did_shutdown fd true ∷ t)
        ≡ some t')
