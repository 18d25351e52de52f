-- ===== src/BusAccess/Steps.antt =====
-- The parts that the operations on an open handle are made of.
use ipdbg.Prelude.{
  ℕ, ◌+◌, ◌≤◌, ◌≡◌, refl, ap, ◌∙◌, sym, Bool, true, false, Option, none, some, List, [], ◌∷◌, ◌++◌,
  arith, length, Bool-cases, ◌⊎◌, inl, inr, append-nil, take, drop, length-overwrite,
}
use ipdbg.Os.{Os, IsQuiet}
use ipdbg.Command.{
  Ret, error, ok, nak, ack, is_none, is_blank, Message, blank, this, not_connected, Handle, State,
  Run, Cmd, with_error, and_then, if_ok, with_core,
}
use ipdbg.Escaping.{escape_all}
use ipdbg.Link.{reject_if, begin}
use ipdbg.Link.Returns.{Returns, returned, Outcome, then_rule, bind_rule, weaken}
use ipdbg.Link.Closing.{Broken}
use ipdbg.Link.Sending.{SendPost}
use ipdbg.Link.Receiving.{RecvPost, receive-Received}
use ipdbg.Link.Frames.{send_command, send_with_escaping, send_command-Sent, send_with_escaping-Sent}
use ipdbg.BusAccess.Core.{BusCore, bus_env, free_buffers, get_buffe_size, overwrite, is_big_enough}
use ipdbg.BusAccess.Query.{receive_to_buffer}
use ipdbg.BusAccess.Invariant.{
  IsReady, IsValid, IsLive, Sound, IsValid-IsLive, IsLive-same, Sound-Broken, Sound-with_error,
  Moved, Moved-trans,
}

abbrev stored : BusCore → List ℕ → BusCore
stored c bytes = record c { buffer = overwrite c.buffer bytes }

IsReady-stored :
    (c : BusCore) (bytes : List ℕ)
    → length bytes ≤ get_buffe_size c.sizes + 1
    → IsReady c
    → IsReady (stored c bytes)
unfolding overwrite
IsReady-stored c bytes fits r = record {
  rounded = r.rounded;
  bytes = bytes ++ drop (length bytes) r.bytes;
  buffer = ap (λ b. overwrite b bytes) r.buffer;
  length_buffer = length-overwrite bytes r.bytes (omega (arith, r.length_buffer)) ∙ r.length_buffer;
  shadow = r.shadow;
  address_shadow = r.address_shadow;
  length_shadow = r.length_shadow;
}

IsValid-stored :
    (s : State BusCore) (bytes : List ℕ)
    → length bytes ≤ get_buffe_size s.core.sizes + 1
    → IsValid s
    → IsValid (with_core s (stored s.core bytes))
unfolding overwrite
IsValid-stored s bytes fits v = record {
  closed = λ c. record {
    buffer = ap (λ b. overwrite b bytes) (v.closed c).buffer;
    address_shadow = (v.closed c).address_shadow;
  };
  opened = λ o. IsReady-stored s.core bytes fits (v.opened o);
}

-- A step sends and reads bytes, or fails and leaves a valid handle with an error.
abbrev pub Step : List ℕ → List ℕ → Option (List ℕ) → State BusCore → Ret → State BusCore → Type 0
Step sent got shadow s = Outcome (Moved sent got shadow s) (Sound error)

-- The answer stands at the start of the buffer.
pub record Filled (n : ℕ) (s s' : State BusCore) : Type 0 where
  pub got : List ℕ
  pub length_got : length got ≡ n
  pub moved : Moved [] got s.core.address_shadow s s'
  pub behind : List ℕ
  pub buffer : s'.core.buffer ≡ some (got ++ behind)

-- A step after another.
pub Step-weaken :
    {sent got : List ℕ} (sent' got' : List ℕ) {shadow : Option (List ℕ)} {s s₁ : State BusCore}
    (r : Ret) (s' : State BusCore)
    → Moved sent got shadow s s₁
    → Step sent' got' s₁.core.address_shadow s₁ r s'
    → Step (sent ++ sent') (got ++ got') shadow s r s'
Step-weaken sent' got' ok s' m p = Moved-trans m p
Step-weaken sent' got' error s' m p = p
Step-weaken sent' got' nak s' m p = absurd p
Step-weaken sent' got' ack s' m p = absurd p

pub Step-then :
    {sent got sent' got' : List ℕ} {shadow : Option (List ℕ)} {s : State BusCore}
    {r : Run BusCore Ret} (k : Cmd BusCore Ret)
    → Returns (Step sent got shadow s) r
    → ((s₁ : State BusCore)
        → Moved sent got shadow s s₁
        → Returns (Step sent' got' s₁.core.address_shadow s₁) (k s₁))
    → Returns (Step (sent ++ sent') (got ++ got') shadow s) (and_then r (λ ret. if_ok ret k))
Step-then {sent'} {got'} k first next =
    then_rule first (λ s₁ m. weaken (next s₁ m) λ r s' p. Step-weaken sent' got' r s' m p)
      (λ s' sound. sound)

module _ {Q : Ret → State BusCore → Type 0} where
  -- A guard that does not hold passes, and one that holds ends the call.
  pub reject_if-Returns :
      (refused : Bool) (message : Message) (s : State BusCore) (k : Cmd BusCore Ret)
      → is_blank message ≡ false
      → IsLive s
      → (refused ≡ false → Returns Q (k s))
      → ((s' : State BusCore) → Sound error s' → Q error s')
      → Returns Q (and_then (reject_if refused message s) (λ ret. if_ok ret k))
  unfolding reject_if
  reject_if-Returns true message s k set l next failed =
      returned (failed _ (Sound-with_error error message (IsValid-IsLive l) set))
  reject_if-Returns false message s k set l next failed = next refl

  -- A call on a handle that is not open ends with an error, any other goes on with an empty one.
  pub begin-Returns :
      (s : State BusCore) (k : Cmd BusCore Ret)
      → IsValid s
      → (IsLive (with_error s blank) → Returns Q (k (with_error s blank)))
      → ((s' : State BusCore) → Sound error s' → Q error s')
      → Returns Q (and_then (begin this true s) (λ ret. if_ok ret k))
  unfolding begin
  begin-Returns s k v next failed = elim (Bool-cases (is_none s.socket)) [
    | inl closed ↦ rw closed (returned (failed _ (Sound-with_error error not_connected v refl)))
    | inr opened ↦
        rw opened (next (record { connected = opened; ready = v.opened opened; no_error = refl }))
  ]

module _ (os : Os) (fuel : ℕ) (quiet : IsQuiet os fuel) where
  Step-SendPost :
      {bytes : List ℕ} {s : State BusCore} {r : Run BusCore Ret}
      → IsLive s
      → Returns (SendPost (bus_env os fuel) bytes s) r
      → Returns (Step bytes [] s.core.address_shadow s) r
  Step-SendPost {bytes} {s} l sent = weaken sent go
    where
      go :
          (r : Ret) (s' : State BusCore)
          → SendPost (bus_env os fuel) bytes s r s'
          → Step bytes [] s.core.address_shadow s r s'
      go ok s' p = record {
        live = IsLive-same s' p.handle l;
        sizes = ap (λ (h : Handle BusCore). h.core.sizes) p.handle;
        shadowed = ap (λ (h : Handle BusCore). h.core.address_shadow) p.handle;
        wire_grows = p.wire_grows;
        heard_grows = p.heard_kept ∙ sym (append-nil _);
      }
      go error s' p = Sound-Broken os fuel s.handle s' l.connected l.ready p.broken
      go nak s' p = absurd p
      go ack s' p = absurd p

  pub send_command-Step :
      (command : ℕ) {s : State BusCore}
      → IsLive s
      → Returns
          (Step (command ∷ []) [] s.core.address_shadow s)
          (send_command (bus_env os fuel) command s)
  unfolding bus_env
  send_command-Step command {s} l =
      Step-SendPost l (send_command-Sent (bus_env os fuel) quiet command s)

  pub send_with_escaping-Step :
      (bytes : List ℕ) (len : ℕ) {s : State BusCore}
      → len ≤ length bytes
      → IsLive s
      → Returns
          (Step (escape_all (take len bytes)) [] s.core.address_shadow s)
          (send_with_escaping (bus_env os fuel) bytes len s)
  unfolding bus_env
  send_with_escaping-Step bytes len {s} fits l =
      Step-SendPost l (send_with_escaping-Sent (bus_env os fuel) quiet bytes len s fits)

  sizes-Broken :
      (h : Handle BusCore) (s' : State BusCore)
      → Broken (bus_env os fuel) h s'
      → s'.core.sizes ≡ h.core.sizes
  unfolding bus_env free_buffers
  sizes-Broken h s' b = go b.shape
    where
      go :
          (s'.socket ≡ h.socket) × (s'.core ≡ h.core)
            ⊎ (s'.socket ≡ none) × (s'.core ≡ free_buffers h.core)
          → s'.core.sizes ≡ h.core.sizes
      go (inl (socket, core)) = ap (λ (c : BusCore). c.sizes) core
      go (inr (socket, core)) = ap (λ (c : BusCore). c.sizes) core

  pub receive_to_buffer-Filled :
      (n : ℕ) {s : State BusCore}
      → n ≤ get_buffe_size s.core.sizes + 1
      → IsLive s
      → Returns (Outcome (Filled n s) (Sound error)) (receive_to_buffer os fuel n s)
  unfolding receive_to_buffer bus_env overwrite
  receive_to_buffer-Filled n {s} fits l = rw big (
      bind_rule (receive-Received (bus_env os fuel) quiet n s)
        λ (ret, bytes) s₁ post. returned (filled ret bytes s₁ post))
    where
      big : is_big_enough s.core.buffer n ≡ true
      big = rw l.ready.buffer (ground (arith, l.ready.length_buffer))

      filled :
          (ret : Ret) (bytes : List ℕ) (s₁ : State BusCore)
          → RecvPost (bus_env os fuel) [] n s (ret, bytes) s₁
          → Outcome
              (Filled n s)
              (Sound error)
              ret
              (with_core s₁ (record s₁.core { buffer = overwrite s₁.core.buffer bytes }))
      filled ok bytes s₁ p =
          let same = IsLive-same s₁ p.handle l in
          let fits' : length bytes ≤ get_buffe_size s₁.core.sizes + 1 =
            rw (p.handle, p.bytes_new) (omega (arith, p.length_new)) in
          record {
            got = bytes;
            length_got = rw p.bytes_new p.length_new;
            moved = record {
              live = record {
                connected = same.connected;
                ready = IsReady-stored s₁.core bytes fits' same.ready;
                no_error = same.no_error;
              };
              sizes = ap (λ (h : Handle BusCore). h.core.sizes) p.handle;
              shadowed = ap (λ (h : Handle BusCore). h.core.address_shadow) p.handle;
              wire_grows = p.wire_kept ∙ sym (append-nil _);
              heard_grows = rw p.bytes_new p.heard_grows;
            };
            behind = drop (length bytes) same.ready.bytes;
            buffer = ap (λ b. overwrite b bytes) same.ready.buffer;
          }
      filled error bytes s₁ p =
          let sound = Sound-Broken os fuel s.handle s₁ l.connected l.ready p.broken in
          record {
            valid =
                IsValid-stored s₁ bytes
                  (rw (sizes-Broken s.handle s₁ p.broken) (omega (arith, p.short))) sound.valid;
            reports = sound.reports;
          }
      filled nak bytes s₁ p = absurd p
      filled ack bytes s₁ p = absurd p
