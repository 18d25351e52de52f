-- ===== src/Link/Sending.antt =====
-- `send` sends all of its bytes in order, or fails after a prefix of them.
use ipdbg.Prelude.{
  ℕ, zero, suc, ◌≤◌, ◌≡◌, refl, ap, ◌∙◌, sym, false, List, [], ◌∷◌, ◌++◌, arith, take, drop, length,
  take-append-drop, append_assoc, append-nil, length-drop, subst,
}
use Prim.Native.Nat.{min}
use ipdbg.Os.{
  Trace, wire, heard, call_send, SendAnswer, accepted, send_timed_out, send_error, IsQuiet,
  did_send, did_fail,
}
use ipdbg.Command.{
  Ret, error, ok, nak, ack, send_failed, with_error, Message, State, Cmd, Run, and_then, if_ok, Env,
  with_trace, is_blank,
}
use ipdbg.Link.{send, send_loop, os_send}
use ipdbg.Link.Returns.{Returns, returned, then_rule, weaken, Outcome}
use ipdbg.Link.Closing.{Broken, timeout-Broken, Broken-with_error}

module _ {X : Type 0} (e : Env X) where
  pub record Sent (bytes : List ℕ) (s s' : State X) : Type 0 where
    pub handle : s'.handle ≡ s.handle
    pub wire_grows : wire s'.trace ≡ wire s.trace ++ bytes
    pub heard_kept : heard s'.trace ≡ heard s.trace

  pub record Cut (bytes : List ℕ) (s s' : State X) : Type 0 where
    pub broken : Broken e s.handle s'
    pub first : List ℕ
    pub left : List ℕ
    pub parts : bytes ≡ first ++ left
    pub wire_grows : wire s'.trace ≡ wire s.trace ++ first

  abbrev pub SendPost : List ℕ → State X → Ret → State X → Type 0
  SendPost bytes s = Outcome (Sent bytes s) (Cut bytes s)

  pub SendPost-nothing : (s : State X) → Sent [] s s
  SendPost-nothing s = record { handle = refl; wire_grows = sym (append-nil _); heard_kept = refl }

  -- Bytes sent before, then the rest.
  pub SendPost-append :
      (bytes first left : List ℕ) (s s₁ s' : State X) (r : Ret)
      → bytes ≡ first ++ left
      → s₁.handle ≡ s.handle
      → wire s₁.trace ≡ wire s.trace ++ first
      → heard s₁.trace ≡ heard s.trace
      → SendPost left s₁ r s'
      → SendPost bytes s r s'
  SendPost-append bytes first left s s₁ s' ok parts same grown kept post = record {
    handle = post.handle ∙ same;
    wire_grows = rw (post.wire_grows, grown, parts) (append_assoc (wire s.trace) first left);
    heard_kept = post.heard_kept ∙ kept;
  }
  SendPost-append bytes first left s s₁ s' error parts same grown kept post = record {
    broken = subst (λ h. Broken e h s') same post.broken;
    first = first ++ post.first;
    left = post.left;
    parts = rw (parts, post.parts) (sym (append_assoc first post.first post.left));
    wire_grows = rw (post.wire_grows, grown) (append_assoc (wire s.trace) first post.first);
  }
  SendPost-append bytes first left s s₁ s' nak parts same grown kept post = absurd post
  SendPost-append bytes first left s s₁ s' ack parts same grown kept post = absurd post

  module _ (quiet : IsQuiet e.os e.fuel) where
    send_loop-Sent :
        (rounds : ℕ) (bytes : List ℕ) (s : State X)
        → length bytes ≤ rounds
        → Returns (SendPost bytes s) (send_loop e rounds bytes s)
    unfolding send_loop call_send
    send_loop-Sent rounds [] s fits = returned (SendPost-nothing s)
    send_loop-Sent zero (b ∷ bytes) s fits = absurd (omega arith)
    send_loop-Sent (suc rounds) (b ∷ bytes) s fits =
        go (e.os.send s.trace s.socket (b ∷ bytes)) refl
          (λ n s'. send_loop-Sent rounds (drop n bytes) s' (omega (arith, length-drop n bytes)))
      where
        cut :
            (s' : State X) (message : ℕ → Message)
            → s'.handle ≡ s.handle
            → wire s'.trace ≡ wire s.trace
            → ((n : ℕ) → is_blank (message n) ≡ false)
            → Cut (b ∷ bytes) s (with_error s' (message (e.os.errno s'.trace)))
        cut s' message same kept set = record {
          broken = Broken-with_error e s.handle s' (message (e.os.errno s'.trace)) same (set _);
          first = [];
          left = b ∷ bytes;
          parts = refl;
          wire_grows = kept ∙ sym (append-nil _);
        }

        took : (count : ℕ) → SendAnswer × Trace
        took count = (accepted count, did_send s.socket (take count (b ∷ bytes)) ∷ s.trace)

        counted :
            (count : ℕ)
            → call_send e.os s.socket (b ∷ bytes) s.trace ≡ took count
            → ((n : ℕ) (s' : State X)
                → Returns (SendPost (drop n bytes) s') (send_loop e rounds (drop n bytes) s'))
            → Returns (SendPost (b ∷ bytes) s) (send_loop e (suc rounds) (b ∷ bytes) s)
        counted zero c more =
            rw (c, os_send, send_loop)
              (returned (
                cut (with_trace s (did_send s.socket [] ∷ s.trace)) send_failed refl (append-nil _)
                  (λ n. refl)))
        counted (suc n) c more =
            rw (c, os_send, send_loop)
              (weaken (more n (with_trace s (did_send s.socket (b ∷ take n bytes) ∷ s.trace)))
                λ r s' post.
                  SendPost-append (b ∷ bytes) (b ∷ take n bytes) (drop n bytes) s _ s' r
                    (ap (λ l. b ∷ l) (sym (take-append-drop n bytes))) refl refl refl post)

        go :
            (a : SendAnswer)
            → e.os.send s.trace s.socket (b ∷ bytes) ≡ a
            → ((n : ℕ) (s' : State X)
                → Returns (SendPost (drop n bytes) s') (send_loop e rounds (drop n bytes) s'))
            → Returns (SendPost (b ∷ bytes) s) (send_loop e (suc rounds) (b ∷ bytes) s)
        go (accepted n) a more = counted (min n (suc (length bytes))) (rw (a, call_send) refl) more
        go send_timed_out a more =
            rw (a, call_send)
              (weaken (timeout-Broken e quiet (with_trace s (did_fail s.socket ∷ s.trace)))
                λ r s' (failed, broken, kept). rw failed (record {
                  broken = broken;
                  first = [];
                  left = b ∷ bytes;
                  parts = refl;
                  wire_grows = kept ∙ sym (append-nil _);
                }))
        go send_error a more =
            rw (a, call_send)
              (returned (
                cut (with_trace s (did_fail s.socket ∷ s.trace)) send_failed refl refl (λ n. refl)))

    -- For an operating system that drains within the fuel after a shutdown, `send` returns for
    -- any bytes: with RET_OK after the kernel took all of them in order, whatever parts it took,
    -- and an unchanged handle, or with an error recorded after a prefix of them.
    pub send-Sent : (bytes : List ℕ) (s : State X) → Returns (SendPost bytes s) (send e bytes s)
    unfolding send
    send-Sent bytes s = send_loop-Sent (length bytes) bytes s (omega arith)

  -- Two sends in a row, the second only after the first has succeeded.
  pub SendPost-then :
      (first second : List ℕ) (s : State X) {r : Run X Ret} {k : Cmd X Ret}
      → Returns (SendPost first s) r
      → ((s₁ : State X) → Returns (SendPost second s₁) (k s₁))
      → Returns (SendPost (first ++ second) s) (and_then r (λ ret. if_ok ret k))
  SendPost-then first second s sent next =
      then_rule sent
        (λ s₁ p. weaken (next s₁) λ r s' post.
          SendPost-append (first ++ second) first second s s₁ s' r refl p.handle p.wire_grows
            p.heard_kept post)
        (λ s₁ p. record {
          broken = p.broken;
          first = p.first;
          left = p.left ++ second;
          parts = rw p.parts (append_assoc p.first p.left second);
          wire_grows = p.wire_grows;
        })
