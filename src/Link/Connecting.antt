-- ===== src/Link/Connecting.antt =====
-- The part of `open` that both libraries have: the guards, `getaddrinfo`, and the loop over the
-- addresses until one connects.
pub mod Outcome
use ipdbg.Prelude.{
  ℕ, ◌≡◌, refl, ap, ◌∙◌, Bool, true, false, not, Option, none, some, List, [], ◌∷◌, ◌⊎◌, inl, inr,
  Bool-cases, Option-cases, arith, if◌then◌else◌,
}
use ipdbg.Os.{
  Socket, Resolved, addresses, unresolved_code, did_resolve, did_socket, did_connect, did_close,
  Trace, wire, heard,
}
use ipdbg.Command.{
  Ret, error, ok, nak, ack, Message, already_connected, no_host_or_port, unable_to_resolve,
  unable_to_connect, is_blank, State, Run, Cmd, pure, done, Env, ◌>>=◌, ◌>>◌, get, with_error,
  with_socket, with_trace, is_none,
}
use ipdbg.Link.{reject_if, os_close}

module _ {X : Type 0} (e : Env X) where
  os_getaddrinfo : ℕ → ℕ → Cmd X Resolved
  os_getaddrinfo host port s =
      done (e.os.getaddrinfo s.trace host port) (with_trace s (did_resolve ∷ s.trace))

  -- `handle->socket = socket(...)`, with INVALD_SOCKET for every failure.
  os_socket : ℕ → Cmd X Bool
  os_socket res s =
      let fd = e.os.socket s.trace res in
      done (not (is_none fd)) (with_socket (with_trace s (did_socket res fd ∷ s.trace)) fd)

  os_connect : ℕ → Cmd X Bool
  os_connect res s =
      let made = e.os.connect s.trace s.socket res in
      done made (with_trace s (did_connect s.socket res made ∷ s.trace))

  errno : Cmd X ℕ
  errno s = done (e.os.errno s.trace) s

  invalidate : Cmd X Unit
  invalidate s = done tt (with_socket s none)

  -- `connectError` is the result: none for "no address found", or the last error.
  connect_loop : List ℕ → Option ℕ → Cmd X (Option ℕ)
  unfolding os_socket os_connect errno invalidate os_close
  connect_loop [] connect_error = pure connect_error
  connect_loop (res ∷ results) connect_error = do
    opened ← os_socket res
    elim opened [
      | false ↦ (do failure ← errno; connect_loop results (some failure))
      | true ↦ (do
        connected ← os_connect res
        elim connected [
          | true ↦ pure connect_error
          | false ↦ (do
            failure ← errno
            _ ← os_close e
            _ ← invalidate
            connect_loop results (some failure))
        ])
    ]

  connect_first : ℕ → ℕ → List ℕ → Cmd X Ret
  unfolding connect_loop reject_if
  connect_first host port results = do
    connect_error ← connect_loop results none
    s ← get
    reject_if (is_none s.socket) (unable_to_connect host port connect_error)

  resolve : Option ℕ → Option ℕ → Cmd X Ret
  unfolding os_getaddrinfo connect_first reject_if
  resolve (some host) (some port) = do
    found ← os_getaddrinfo host port
    elim found [
      | unresolved_code code ↦ reject_if true (unable_to_resolve host port code)
      | addresses results ↦ connect_first host port results
    ]
  resolve _ _ = reject_if true no_host_or_port

  unfoldable pub connect_host : Option ℕ → Option ℕ → Cmd X Ret
  unfolding reject_if resolve
  connect_host host port = do
    s ← get
    reject_if (not (is_none s.socket)) already_connected
    resolve host port
