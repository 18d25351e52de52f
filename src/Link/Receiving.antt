-- ===== src/Link/Receiving.antt =====
-- `receive` returns exactly the bytes it was asked for, or fails; and `applyTimeout`.
use ipdbg.Prelude.{
  ℕ, zero, suc, ◌≤◌, ◌+◌, ◌-◌, ◌≡◌, refl, ◌∙◌, sym, true, false, List, [], ◌∷◌, ◌++◌, arith, inl,
  inr, take, length, Bool-cases, append_assoc, append-nil, subst, length-append, length-take-le,
}
use ipdbg.Os.{
  wire, heard, call_recv, RecvAnswer, got, recv_timed_out, recv_error, IsQuiet, did_recv, did_fail,
  did_set_timeout,
}
use ipdbg.Command.{
  Ret, error, ok, nak, ack, Message, State, Env, with_trace, is_blank, with_error, receive_failed,
  connection_closed_by_peer, set_timeout_failed,
}
use ipdbg.Link.{receive, receive_loop, apply_timeout}
use ipdbg.Link.Returns.{Returns, returned, bind_rule, weaken, Outcome}
use ipdbg.Link.Closing.{Broken, timeout-Broken, Broken-with_error}

module _ {X : Type 0} (e : Env X) where
  pub record Received (so_far : List ℕ) (left : ℕ) (s : State X) (bytes : List ℕ) (s' : State X)
      : Type 0 where
    pub handle : s'.handle ≡ s.handle
    pub wire_kept : wire s'.trace ≡ wire s.trace
    pub new : List ℕ
    pub bytes_new : bytes ≡ so_far ++ new
    pub length_new : length new ≡ left
    pub heard_grows : heard s'.trace ≡ heard s.trace ++ new

  pub record Missing (so_far : List ℕ) (left : ℕ) (s : State X) (bytes : List ℕ) (s' : State X)
      : Type 0 where
    pub broken : Broken e s.handle s'
    pub wire_kept : wire s'.trace ≡ wire s.trace
    pub short : length bytes ≤ length so_far + left

  abbrev pub RecvPost : List ℕ → ℕ → State X → Ret × List ℕ → State X → Type 0
  RecvPost so_far left s (r, bytes) =
      Outcome (Received so_far left s bytes) (Missing so_far left s bytes) r

  -- A chunk, then the rest.
  RecvPost-append :
      (so_far chunk : List ℕ) (left rest : ℕ) (s s₁ s' : State X) (r : Ret) (bytes : List ℕ)
      → length chunk + rest ≡ left
      → s₁.handle ≡ s.handle
      → wire s₁.trace ≡ wire s.trace
      → heard s₁.trace ≡ heard s.trace ++ chunk
      → RecvPost (so_far ++ chunk) rest s₁ (r, bytes) s'
      → RecvPost so_far left s (r, bytes) s'
  RecvPost-append so_far chunk left rest s s₁ s' ok bytes sum same kept grown post = record {
    handle = post.handle ∙ same;
    wire_kept = post.wire_kept ∙ kept;
    new = chunk ++ post.new;
    bytes_new = rw post.bytes_new (append_assoc so_far chunk post.new);
    length_new = omega (arith, length-append chunk post.new, post.length_new);
    heard_grows = rw (post.heard_grows, grown) (append_assoc (heard s.trace) chunk post.new);
  }
  RecvPost-append so_far chunk left rest s s₁ s' error bytes sum same kept grown post = record {
    broken = subst (λ h. Broken e h s') same post.broken;
    wire_kept = post.wire_kept ∙ kept;
    short = omega (arith, length-append so_far chunk, post.short);
  }
  RecvPost-append so_far chunk left rest s s₁ s' nak bytes sum same kept grown post = absurd post
  RecvPost-append so_far chunk left rest s s₁ s' ack bytes sum same kept grown post = absurd post

  module _ (quiet : IsQuiet e.os e.fuel) where
    receive_loop-Received :
        (rounds : ℕ) (so_far : List ℕ) (left : ℕ) (s : State X)
        → left ≤ rounds
        → Returns (RecvPost so_far left s) (receive_loop e rounds so_far left s)
    unfolding receive_loop call_recv
    receive_loop-Received rounds so_far zero s fits = returned (record {
      handle = refl;
      wire_kept = refl;
      new = [];
      bytes_new = sym (append-nil _);
      length_new = refl;
      heard_grows = sym (append-nil _);
    })
    receive_loop-Received zero so_far (suc left) s fits = absurd (omega arith)
    receive_loop-Received (suc rounds) so_far (suc left) s fits =
        go (e.os.recv s.trace s.socket (suc left)) refl λ b bytes s'.
          receive_loop-Received rounds (so_far ++ (b ∷ bytes)) (left - length bytes) s'
            (omega arith)
      where
        missed :
            (s' : State X) (message : Message)
            → s'.handle ≡ s.handle
            → wire s'.trace ≡ wire s.trace
            → is_blank message ≡ false
            → Missing so_far (suc left) s so_far (with_error s' message)
        missed s' message same kept set = record {
          broken = Broken-with_error e s.handle s' message same set;
          wire_kept = kept;
          short = omega arith;
        }

        go :
            (a : RecvAnswer)
            → e.os.recv s.trace s.socket (suc left) ≡ a
            → ((b : ℕ) (bytes : List ℕ) (s' : State X)
                → Returns
                    (RecvPost (so_far ++ (b ∷ bytes)) (left - length bytes) s')
                    (receive_loop e rounds (so_far ++ (b ∷ bytes)) (left - length bytes) s'))
            → Returns
                (RecvPost so_far (suc left) s)
                (receive_loop e (suc rounds) so_far (suc left) s)
        go (got []) a more =
            rw (a, call_recv)
              (returned (
                missed (with_trace s (did_recv s.socket [] ∷ s.trace)) connection_closed_by_peer
                  refl refl refl))
        go (got (b ∷ bytes)) a more =
            let chunk = take left bytes in
            let s₁ = with_trace s (did_recv s.socket (b ∷ chunk) ∷ s.trace) in
            rw (a, call_recv)
              (weaken (more b chunk s₁) λ (r, all) s' post.
                RecvPost-append so_far (b ∷ chunk) (suc left) (left - length chunk) s s₁ s' r all
                  (omega (arith, length-take-le left bytes)) refl refl refl post)
        go recv_timed_out a more =
            rw (a, call_recv)
              (bind_rule (timeout-Broken e quiet (with_trace s (did_fail s.socket ∷ s.trace)))
                λ r s' (failed, broken, kept).
                  returned
                    (rw failed (record { broken = broken; wire_kept = kept; short = omega arith })))
        go recv_error a more =
            rw (a, call_recv)
              (returned (
                missed (with_trace s (did_fail s.socket ∷ s.trace)) (receive_failed _) refl refl
                  refl))

    -- For an operating system that drains within the fuel after a shutdown, `receive` returns for
    -- any length: with RET_OK and exactly that many bytes, those that came next, and an unchanged
    -- handle, or with an error recorded and at most that many bytes.
    pub receive-Received : (len : ℕ) (s : State X) → Returns (RecvPost [] len s) (receive e len s)
    unfolding receive
    receive-Received len s = receive_loop-Received len [] len s (omega arith)

  pub record Applied (s s' : State X) : Type 0 where
    pub handle : s'.handle ≡ s.handle
    pub wire_kept : wire s'.trace ≡ wire s.trace
    pub heard_kept : heard s'.trace ≡ heard s.trace

  pub record NotApplied (s s' : State X) : Type 0 where
    pub broken : Broken e s.handle s'
    pub wire_kept : wire s'.trace ≡ wire s.trace

  refused-NotApplied :
      (s s' : State X)
      → s'.handle ≡ s.handle
      → wire s'.trace ≡ wire s.trace
      → NotApplied s (with_error s' (set_timeout_failed (e.os.errno s'.trace)))
  refused-NotApplied s s' same kept = record {
    broken = Broken-with_error e s.handle s' (set_timeout_failed (e.os.errno s'.trace)) same refl;
    wire_kept = kept;
  }

  pub apply_timeout-Applied :
      (s : State X) → Returns (Outcome (Applied s) (NotApplied s)) (apply_timeout e s)
  unfolding apply_timeout
  apply_timeout-Applied s =
      let receiving = e.os.setsockopt s.trace s.socket s.timeout_ms in
      let t = did_set_timeout s.socket s.timeout_ms true ∷ s.trace in
      let sending = e.os.setsockopt t s.socket s.timeout_ms in
      elim (Bool-cases receiving) [
        | inr refused ↦ rw refused (
            returned (
              refused-NotApplied s
                (with_trace s (did_set_timeout s.socket s.timeout_ms false ∷ s.trace)) refl refl))
        | inl set ↦ rw set (elim (Bool-cases sending) [
          | inl both ↦
              rw both (returned (record { handle = refl; wire_kept = refl; heard_kept = refl }))
          | inr refused ↦ rw refused (
              returned (
                refused-NotApplied s
                  (with_trace s (did_set_timeout s.socket s.timeout_ms false ∷ t)) refl refl))
        ])
      ]
