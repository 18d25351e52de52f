-- ===== src/Link/Closing.antt =====
-- `closeSocket` and `timeout`.
use ipdbg.Prelude.{
  ℕ, zero, suc, ◌≡◌, refl, ap, ◌∙◌, Bool, true, false, none, some, List, [], ◌∷◌, arith, ◌⊎◌, inl,
  inr, take, Bool-cases,
}
use ipdbg.Os.{
  Socket, Os, Trace, did_shutdown, did_recv, did_close, wire, RecvAnswer, drain, call_recv, IsQuiet,
  got, recv_timed_out, recv_error,
}
use ipdbg.Command.{
  Ret, error, ok, Message, timeout_expired, with_error, State, Handle, and_then, is_ok, Env, done,
  with_trace, is_none, is_blank,
}
use ipdbg.Link.{
  close_socket, shut_and_close, timeout, drain_if, drain_loop, close_result, drop_socket,
}
use ipdbg.Link.Returns.{Returns, returned, bind_rule}

wire-drain :
    (os : Os) (fd : Socket) (fuel : ℕ) (t t' : Trace)
    → drain os fd fuel t ≡ some t'
    → wire t' ≡ wire t
unfolding drain call_recv
wire-drain os fd zero t t' h = cc
wire-drain os fd (suc fuel) t t' h =
    go (os.recv t fd 16) refl (λ bytes. wire-drain os fd fuel (did_recv fd bytes ∷ t) t')
  where
    go :
        (a : RecvAnswer)
        → os.recv t fd 16 ≡ a
        → ((bytes : List ℕ) → drain os fd fuel (did_recv fd bytes ∷ t) ≡ some t' → wire t' ≡ wire t)
        → wire t' ≡ wire t
    go (got []) a more = ground arith
    go (got (b ∷ bytes)) a more = ground (arith, more (b ∷ take 15 bytes))
    go recv_timed_out a more = ground arith
    go recv_error a more = ground arith

module _ {X : Type 0} (e : Env X) where
  -- What a close leaves behind, whatever the operating system answers.
  pub record Closed (s : State X) (r : Ret) (s' : State X) : Type 0 where
    pub socket : s'.socket ≡ none
    pub core : s'.core ≡ e.release s.core
    pub timeout_ms : s'.timeout_ms ≡ s.timeout_ms
    pub wire_kept : wire s'.trace ≡ wire s.trace
    pub status : (r ≡ ok) ⊎ (r ≡ error)
    pub first_error : is_blank s.last_error ≡ false → s'.last_error ≡ s.last_error
    pub new_error : is_blank s.last_error ≡ true → is_blank s'.last_error ≡ is_ok r

  -- What a failed call leaves behind: an error is recorded, and the connection is either as it was
  -- or closed with what it owned freed.
  pub record Broken (h : Handle X) (s' : State X) : Type 0 where
    pub reported : is_blank s'.last_error ≡ false
    pub timeout_ms : s'.timeout_ms ≡ h.timeout_ms
    pub shape :
        (s'.socket ≡ h.socket) × (s'.core ≡ h.core)
        ⊎ (s'.socket ≡ none) × (s'.core ≡ e.release h.core)

  pub Broken-Closed :
      (h : Handle X) (s : State X) (r : Ret) (s' : State X)
      → s.core ≡ h.core
      → s.timeout_ms ≡ h.timeout_ms
      → is_blank s.last_error ≡ false
      → Closed s r s'
      → Broken h s'
  Broken-Closed h s r s' core timeout_ms set c = record {
    reported = rw (c.first_error set) set;
    timeout_ms = c.timeout_ms ∙ timeout_ms;
    shape = inr (c.socket, c.core ∙ ap e.release core);
  }

  -- A failure that records `message` and keeps the connection.
  pub Broken-with_error :
      (h : Handle X) (s : State X) (message : Message)
      → s.handle ≡ h
      → is_blank message ≡ false
      → Broken h (with_error s message)
  Broken-with_error h s message same set = record {
    reported = set;
    timeout_ms = ap (λ (k : Handle X). k.timeout_ms) same;
    shape = inl (ap (λ (k : Handle X). k.socket) same, ap (λ (k : Handle X). k.core) same);
  }

  module _ (quiet : IsQuiet e.os e.fuel) where
    drain_if-Returns :
        (down : Bool) (s : State X) (t : Trace)
        → Returns
            (λ _ s'. (s'.handle ≡ s.handle) × (wire s'.trace ≡ wire t))
            (drain_if e down (with_trace s (did_shutdown s.socket down ∷ t)))
    unfolding drain_if
    drain_if-Returns false s t = returned (refl, refl)
    drain_if-Returns true s t =
        let shut = did_shutdown s.socket true ∷ t in
        let (t', ends) = quiet s.socket (e.os.setsockopt shut s.socket 2000) t in
        rw (ends, drain_loop) (returned (refl, wire-drain e.os s.socket e.fuel _ t' ends))

    close_result-Closed :
        (closed : Bool) (s s' : State X)
        → s'.handle ≡ s.handle
        → wire s'.trace ≡ wire s.trace
        → Returns (Closed s) (and_then (close_result e closed s') (drop_socket e))
    unfolding close_result drop_socket
    close_result-Closed true s s' same kept = returned (ground arith)
    close_result-Closed false s s' same kept = elim (Bool-cases (is_blank s'.last_error)) [
      | inl none_yet ↦ rw none_yet (returned (ground arith))
      | inr set ↦ rw set (returned (ground arith))
    ]

    shut_and_close-Closed : (s : State X) → Returns (Closed s) (shut_and_close e s)
    unfolding shut_and_close
    shut_and_close-Closed s =
        bind_rule (drain_if-Returns (e.os.shutdown s.trace s.socket) s s.trace) λ _ s' (same, kept).
          close_result-Closed (e.os.close s'.trace s'.socket) s
            (with_trace s' (did_close s'.socket (e.os.close s'.trace s'.socket) ∷ s'.trace)) same
            kept

    pub close_socket-none : (s : State X) → s.socket ≡ none → close_socket e s ≡ done ok s
    unfolding close_socket
    close_socket-none s h = rw (h, is_none)

    -- For an operating system that drains within the fuel after a shutdown, `closeSocket` on an
    -- open handle returns with no socket and the buffers freed, sends nothing, keeps an error
    -- that was there before, and otherwise has an error exactly if it does not return RET_OK.
    pub close_socket-Closed :
        (s : State X) → is_none s.socket ≡ false → Returns (Closed s) (close_socket e s)
    unfolding close_socket
    close_socket-Closed s h = rw h (shut_and_close-Closed s)

    -- For an operating system that drains within the fuel after a shutdown, `timeout` returns
    -- RET_ERROR with an error recorded, sends nothing, and leaves the handle as it was if it was
    -- not connected, and otherwise closed with its buffers freed or unchanged.
    pub timeout-Broken :
        (s : State X)
        → Returns
            (λ r s'. (r ≡ error) × Broken s.handle s' × (wire s'.trace ≡ wire s.trace))
            (timeout e s)
    unfolding timeout
    timeout-Broken s =
        let late = with_error s (timeout_expired s.timeout_ms) in
        elim (Bool-cases (is_none s.socket)) [
          | inl closed ↦ rw closed (
              returned (
                refl,
                record { reported = refl; timeout_ms = refl; shape = inl (refl, refl) },
                refl,
              ))
          | inr connected ↦ bind_rule (close_socket-Closed late connected) λ r s' c.
              returned (refl, Broken-Closed s.handle late r s' refl refl refl c, c.wire_kept)
        ]
