-- ===== src/BusAccess/Exchange.antt =====
-- What an access that the core has answered leaves behind.
use ipdbg.Prelude.{ℕ, ◌≡◌, Bool, true, false, Option, some, List, ◌∷◌, ◌++◌}
use ipdbg.Os.{wire, heard}
use ipdbg.Command.{is_none, Message, Ret, error, ok, nak, ack, State, pure, with_error}
use ipdbg.BusAccess.Core.{BusCore, load_byte, ack_resp, nack_resp}
use ipdbg.BusAccess.Invariant.{Moved}

-- The core has answered: with ACK or with NACK.
abbrev pub is_answer : Ret → Bool
is_answer ack = true
is_answer nak = true
is_answer error = false
is_answer ok = false

abbrev pub status_byte : Ret → ℕ
status_byte ack = ack_resp
status_byte _ = nack_resp

-- An access that the core has answered: what went over the connection, and the shadow.
pub record Exchanged (sent got : List ℕ) (shadow : Option (List ℕ)) (s s' : State BusCore)
    : Type 0 where
  pub connected : is_none s'.socket ≡ false
  pub sizes : s'.core.sizes ≡ s.core.sizes
  pub shadowed : s'.core.address_shadow ≡ shadow
  pub wire_grows : wire s'.trace ≡ wire s.trace ++ sent
  pub heard_grows : heard s'.trace ≡ heard s.trace ++ got

pub Exchanged-Moved :
    {sent got : List ℕ} {shadow : Option (List ℕ)} {s s' : State BusCore} (message : Message)
    → Moved sent got shadow s s'
    → Exchanged sent got shadow s (with_error s' message)
Exchanged-Moved message m = record {
  connected = m.live.connected;
  sizes = m.sizes;
  shadowed = m.shadowed;
  wire_grows = m.wire_grows;
  heard_grows = m.heard_grows;
}

-- `handle->buffer[0]` of a buffer that has been filled.
pub load_byte-eq :
    (pointer : Option (List ℕ)) (b : ℕ) (rest : List ℕ)
    → pointer ≡ some (b ∷ rest)
    → load_byte pointer ≡ pure b
unfolding load_byte
load_byte-eq pointer b rest at = rw at
