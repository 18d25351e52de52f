-- ===== src/Link.antt =====
-- The connection that sw/BusAccess/BusAccess.c and sw/WaveformGenerator/WaveformGenerator.c share:
-- the handle, its last error, the socket calls with their timeouts, connecting and closing. The two
-- files hold this code twice, with the same statements; `X` is the part of the handle that differs.
pub mod Returns
pub mod Closing
pub mod Sending
pub mod Receiving
pub mod Frames
pub mod Connecting
use ipdbg.Prelude.{
  ℕ, zero, suc, Bool, true, false, ◌&&◌, Option, none, some, List, [], ◌∷◌, ◌++◌, ◌-◌, drop, length,
  if◌then◌else◌,
}
use ipdbg.Os.{
  Socket, SendAnswer, accepted, send_timed_out, send_error, RecvAnswer, got, recv_timed_out,
  recv_error, addresses, unresolved_code, did_resolve, did_socket, did_connect, did_set_timeout,
  did_shutdown, did_close, did_malloc, Trace, Os, call_send, call_recv, drain,
}
use ipdbg.Command.{
  Ret, error, ok, nak, ack, Ref, null, this, Message, blank, not_connected,
  connection_closed_by_peer, already_connected, no_host_or_port, timeout_expired,
  set_timeout_failed, send_failed, receive_failed, close_failed, unable_to_resolve,
  unable_to_connect, Handle, State, Run, done, fault, forever, Cmd, pure, and_then, ◌>>=◌, if_ok,
  ◌>>◌, with_error, with_trace, with_socket, with_core, get, is_none, is_blank, Env,
}

module _ {X : Type 0} where
  unfoldable pub set_error : Message → Cmd X Unit
  set_error message s = done tt (with_error s message)

  -- `if (refused) { setError(message); return RET_ERROR; }`
  unfoldable pub reject_if : Bool → Message → Cmd X Ret
  reject_if refused message s = if refused then done error (with_error s message) else done ok s

  unfoldable pub begin : Ref → Bool → Cmd X Ret
  begin null must_be_open s = done error s
  begin this must_be_open s =
      if must_be_open && is_none s.socket
      then done error (with_error s not_connected)
      else done ok (with_error s blank)

  unfoldable pub is_open : Ref → State X → Bool
  is_open null s = false
  is_open this s = if is_none s.socket then false else true

  unfoldable pub get_last_error : Ref → State X → Option Message
  get_last_error null s = none
  get_last_error this s = some s.last_error

module _ {X : Type 0} (e : Env X) where
  unfoldable pub os_malloc : ℕ → Cmd X Bool
  os_malloc n s =
      done (e.os.malloc s.trace n) (with_trace s (did_malloc n (e.os.malloc s.trace n) ∷ s.trace))

  os_setsockopt : ℕ → Cmd X Bool
  os_setsockopt ms s =
      let set = e.os.setsockopt s.trace s.socket ms in
      done set (with_trace s (did_set_timeout s.socket ms set ∷ s.trace))

  os_send : List ℕ → Cmd X SendAnswer
  os_send bytes s =
      let (answer, t) = call_send e.os s.socket bytes s.trace in done answer (with_trace s t)

  os_recv : ℕ → Cmd X RecvAnswer
  os_recv room s =
      let (answer, t) = call_recv e.os s.socket room s.trace in done answer (with_trace s t)

  os_shutdown : Cmd X Bool
  os_shutdown s =
      let down = e.os.shutdown s.trace s.socket in
      done down (with_trace s (did_shutdown s.socket down ∷ s.trace))

  os_close : Cmd X Bool
  os_close s =
      let closed = e.os.close s.trace s.socket in
      done closed (with_trace s (did_close s.socket closed ∷ s.trace))

  drain_loop : Cmd X Unit
  drain_loop s = elim (drain e.os s.socket e.fuel s.trace) [
    | none ↦ forever
    | some t ↦ done tt (with_trace s t)
  ]

  -- Two seconds for each read, and reads until there is nothing more.
  drain_if : Bool → Cmd X Unit
  unfolding os_setsockopt drain_loop
  drain_if false = pure tt
  drain_if true = do _ ← os_setsockopt 2000; drain_loop

  -- A failed close keeps an error that was there before.
  close_result : Bool → Cmd X Ret
  close_result true s = done ok s
  close_result false s =
      if is_blank s.last_error
      then done error (with_error s (close_failed (e.os.errno s.trace)))
      else done error s

  drop_socket : Ret → Cmd X Ret
  drop_socket ret s = done ret (with_core (with_socket s none) (e.release s.core))

  shut_and_close : Cmd X Ret
  unfolding drain_if close_result drop_socket os_shutdown os_close
  shut_and_close = do
    down ← os_shutdown
    _ ← drain_if down
    closed ← os_close
    ret ← close_result closed
    drop_socket ret

  unfoldable pub close_socket : Cmd X Ret
  unfolding shut_and_close
  close_socket s = if is_none s.socket then done ok s else shut_and_close s

  unfoldable pub timeout : Cmd X Ret
  unfolding set_error close_socket
  timeout = do s ← get; _ ← set_error (timeout_expired s.timeout_ms); _ ← close_socket; pure error

  fail_with : (ℕ → Message) → Cmd X Ret
  fail_with message s = done error (with_error s (message (e.os.errno s.trace)))

  -- `&&` and `||` of C stop at the first answer: the second call is made if the first succeeds.
  unfoldable pub apply_timeout : Cmd X Ret
  unfolding os_setsockopt fail_with
  apply_timeout = do
    s ← get
    receiving ← os_setsockopt s.timeout_ms
    sending ← (if receiving then os_setsockopt s.timeout_ms else pure false)
    if sending then pure ok else fail_with set_timeout_failed

  -- The `while` of `send`, over the bytes not yet sent.
  send_loop : ℕ → List ℕ → Cmd X Ret
  unfolding os_send timeout fail_with
  send_loop rounds [] = pure ok
  send_loop zero (b ∷ bytes) = λ s. forever
  send_loop (suc rounds) (b ∷ bytes) = do
    out ← os_send (b ∷ bytes)
    elim out [
      | send_timed_out ↦ timeout
      | send_error ↦ fail_with send_failed
      | accepted zero ↦ fail_with send_failed
      | accepted (suc n) ↦ send_loop rounds (drop n bytes)
    ]

  unfoldable pub send : List ℕ → Cmd X Ret
  unfolding send_loop
  send bytes = send_loop (length bytes) bytes

  -- The `while` of `receive`: `so_far` is what `buf` holds, `left` is `len - received`.
  unfoldable pub receive_loop : ℕ → List ℕ → ℕ → Cmd X (Ret × List ℕ)
  unfolding os_recv timeout fail_with
  receive_loop rounds so_far zero = pure (ok, so_far)
  receive_loop zero so_far (suc left) = λ s. forever
  receive_loop (suc rounds) so_far (suc left) = do
    n ← os_recv (suc left)
    elim n [
      | recv_timed_out ↦ (do ret ← timeout; pure (ret, so_far))
      | recv_error ↦ (do ret ← fail_with receive_failed; pure (ret, so_far))
      | got [] ↦ (do ret ← fail_with (λ _. connection_closed_by_peer); pure (ret, so_far))
      | got (b ∷ bytes) ↦ receive_loop rounds (so_far ++ (b ∷ bytes)) (left - length bytes)
    ]

  unfoldable pub receive : ℕ → Cmd X (Ret × List ℕ)
  unfolding receive_loop
  receive len = receive_loop len [] len
