-- ===== src/Link/Connecting/Outcome.antt =====
-- What connecting leaves behind: a fresh connection, or an error and no open descriptor.
use ipdbg.Prelude.{
  ℕ, ◌≡◌, refl, ap, Bool, true, false, Option, none, some, List, [], ◌∷◌, ◌⊎◌, inl, inr, Bool-cases,
  Option-cases,
}
use ipdbg.Os.{
  Socket, Resolved, addresses, unresolved_code, did_resolve, did_socket, did_connect, did_close,
  Trace, wire, heard,
}
use ipdbg.Command.{
  Ret, error, ok, nak, ack, Message, already_connected, no_host_or_port, unable_to_connect,
  is_blank, State, Run, done, Env, with_error, with_socket, with_trace, is_none,
}
use ipdbg.Link.{reject_if}
use ipdbg.Link.Returns.{Returns, returned, Outcome, bind_rule, weaken}
use ipdbg.Link.Connecting.{connect_loop, connect_first, resolve, connect_host}

is_none_of : {fd : Socket} → fd ≡ none → is_none fd ≡ true
is_none_of closed = ap is_none closed

module _ {X : Type 0} (e : Env X) where
  -- The connection is made, and nothing has been sent or read over it.
  pub record Connected (s s' : State X) : Type 0 where
    pub socket : is_none s'.socket ≡ false
    pub core : s'.core ≡ s.core
    pub timeout_ms : s'.timeout_ms ≡ s.timeout_ms
    pub last_error : s'.last_error ≡ s.last_error
    pub wire_empty : wire s'.trace ≡ []
    pub heard_empty : heard s'.trace ≡ []

  -- Nothing is left open.
  pub record NotConnected (s s' : State X) : Type 0 where
    pub socket : s'.socket ≡ none
    pub core : s'.core ≡ s.core
    pub timeout_ms : s'.timeout_ms ≡ s.timeout_ms
    pub reported : is_blank s'.last_error ≡ false

  -- The loop ends with a connection, or with every descriptor closed.
  record Tried (s : State X) (reason : Option ℕ) (s' : State X) : Type 0 where
    core : s'.core ≡ s.core
    timeout_ms : s'.timeout_ms ≡ s.timeout_ms
    last_error : s'.last_error ≡ s.last_error
    made :
        (s'.socket ≡ none)
        ⊎ (is_none s'.socket ≡ false) × (wire s'.trace ≡ []) × (heard s'.trace ≡ [])

  -- The next address is tried from the same handle.
  Tried-retry :
      (s : State X) (t : Trace) {r : Run X (Option ℕ)}
      → Returns (Tried (with_socket (with_trace s t) none)) r
      → Returns (Tried s) r
  Tried-retry s t retried = weaken retried λ reason s' t. record {
    core = t.core;
    timeout_ms = t.timeout_ms;
    last_error = t.last_error;
    made = t.made;
  }

  connect_loop-Tried :
      (results : List ℕ) (reason : Option ℕ) (s : State X)
      → s.socket ≡ none
      → Returns (Tried s) (connect_loop e results reason s)
  unfolding connect_loop
  connect_loop-Tried [] reason s closed =
      returned (record { core = refl; timeout_ms = refl; last_error = refl; made = inl closed })
  connect_loop-Tried (res ∷ results) reason s closed = elim (Option-cases fd) [
    | inl refused ↦
        rw refused
          (Tried-retry s (did_socket res none ∷ s.trace) (connect_loop-Tried results _ _ refl))
    | inr (f, opened) ↦ rw opened (elim (Bool-cases (answer f)) [
      | inl connected ↦ rw connected (
          returned (record {
            core = refl;
            timeout_ms = refl;
            last_error = refl;
            made = inr (refl, refl, refl);
          }))
      | inr refused ↦ rw refused (Tried-retry s (shut f) (connect_loop-Tried results _ _ refl))
    ])
  ]
    where
      fd : Socket
      fd = e.os.socket s.trace res

      opening : ℕ → Trace
      opening f = did_socket res (some f) ∷ s.trace

      answer : ℕ → Bool
      answer f = e.os.connect (opening f) (some f) res

      shut : ℕ → Trace
      shut f =
          did_close (some f) (e.os.close (did_connect (some f) res false ∷ opening f) (some f))
          ∷ did_connect (some f) res false
          ∷ opening f

  connect_first-Outcome :
      (host port : ℕ) (results : List ℕ) (s : State X)
      → s.socket ≡ none
      → Returns (Outcome (Connected s) (NotConnected s)) (connect_first e host port results s)
  unfolding connect_first
  connect_first-Outcome host port results s closed =
      bind_rule (connect_loop-Tried results none s closed) λ reason s' t. settle reason s' t t.made
    where
      settle :
          (reason : Option ℕ) (s' : State X)
          → Tried s reason s'
          → (s'.socket ≡ none)
            ⊎ (is_none s'.socket ≡ false) × (wire s'.trace ≡ []) × (heard s'.trace ≡ [])
          → Returns
              (Outcome (Connected s) (NotConnected s))
              (reject_if (is_none s'.socket) (unable_to_connect host port reason) s')
      settle reason s' t (inl none_made) =
          rw (is_none_of none_made, reject_if)
            (returned (record {
              socket = none_made;
              core = t.core;
              timeout_ms = t.timeout_ms;
              reported = refl;
            }))
      settle reason s' t (inr (made, sent, read)) =
          rw (made, reject_if)
            (returned (record {
              socket = made;
              core = t.core;
              timeout_ms = t.timeout_ms;
              last_error = t.last_error;
              wire_empty = sent;
              heard_empty = read;
            }))

  rejected :
      (message : Message) (s : State X)
      → s.socket ≡ none
      → is_blank message ≡ false
      → NotConnected s (with_error s message)
  rejected message s closed set = record {
    socket = closed;
    core = refl;
    timeout_ms = refl;
    reported = set;
  }

  same_handle :
      (s : State X) (t : Trace) (r : Ret) (s' : State X)
      → Outcome (Connected (with_trace s t)) (NotConnected (with_trace s t)) r s'
      → Outcome (Connected s) (NotConnected s) r s'
  same_handle s t ok s' c = record {
    socket = c.socket;
    core = c.core;
    timeout_ms = c.timeout_ms;
    last_error = c.last_error;
    wire_empty = c.wire_empty;
    heard_empty = c.heard_empty;
  }
  same_handle s t error s' c = record {
    socket = c.socket;
    core = c.core;
    timeout_ms = c.timeout_ms;
    reported = c.reported;
  }
  same_handle s t nak s' c = absurd c
  same_handle s t ack s' c = absurd c

  resolve-Outcome :
      (host port : Option ℕ) (s : State X)
      → s.socket ≡ none
      → Returns (Outcome (Connected s) (NotConnected s)) (resolve e host port s)
  unfolding resolve
  resolve-Outcome (some host) (some port) s closed = go (e.os.getaddrinfo s.trace host port) refl
    where
      go :
          (found : Resolved)
          → e.os.getaddrinfo s.trace host port ≡ found
          → Returns (Outcome (Connected s) (NotConnected s)) (resolve e (some host) (some port) s)
      go (unresolved_code code) f =
          rw f
            (returned (record { socket = closed; core = refl; timeout_ms = refl; reported = refl }))
      go (addresses results) f = rw f (
          weaken
            (connect_first-Outcome host port results (with_trace s (did_resolve ∷ s.trace)) closed)
            (same_handle s (did_resolve ∷ s.trace)))
  resolve-Outcome none port s closed = returned (rejected no_host_or_port s closed refl)
  resolve-Outcome (some host) none s closed = returned (rejected no_host_or_port s closed refl)

  -- From a closed handle, and for any host, port and answers of the operating system, the part of
  -- `open` that connects returns: with a socket over which nothing has been sent or read and the
  -- rest of the handle unchanged, or with RET_ERROR, no socket and an error.
  pub connect_host-Outcome :
      (host port : Option ℕ) (s : State X)
      → s.socket ≡ none
      → Returns (Outcome (Connected s) (NotConnected s)) (connect_host e host port s)
  unfolding connect_host
  connect_host-Outcome host port s closed =
      rw (is_none_of closed, reject_if) (resolve-Outcome host port s closed)

  -- An open handle stays as it is, but for the error.
  pub connect_host_again :
      (host port : Option ℕ) (s : State X)
      → is_none s.socket ≡ false
      → connect_host e host port s ≡ done error (with_error s already_connected)
  unfolding connect_host
  connect_host_again host port s opened = rw (opened, reject_if)
