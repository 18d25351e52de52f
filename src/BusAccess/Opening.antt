-- ===== src/BusAccess/Opening.antt =====
-- IpdbgBusAccess_getSizes and IpdbgBusAccess_open, on a connection that has just been made.
pub mod Sizing
pub mod Opened
pub mod Prepared
use ipdbg.Prelude.{
  ℕ, ◌≡◌, refl, ap, ◌∙◌, subst, sym, true, false, none, List, [], ◌++◌, ◌⊎◌, inl, inr, append_assoc,
  append-nil,
}
use ipdbg.Os.{Os, wire, heard, IsQuiet}
use ipdbg.Command.{Ret, error, ok, nak, ack, is_none, is_blank, Handle, State, Run}
use ipdbg.Link.Returns.{Returns, Outcome, weaken}
use ipdbg.Link.Closing.{Broken}
use ipdbg.Link.Sending.{SendPost}
use ipdbg.BusAccess.Core.{BusCore, bus_env, free_buffers}
use ipdbg.BusAccess.Invariant.{IsFreed, IsFreed-free_buffers}

-- An error is recorded, and a handle that is closed by now owns nothing.
pub record Failed (s : State BusCore) : Type 0 where
  pub reported : is_blank s.last_error ≡ false
  pub freed : is_none s.socket ≡ true → IsFreed s.core

-- Connected, without an error, with all that has been sent and read.
pub record Setting (sent got : List ℕ) (core : BusCore) (s : State BusCore) : Type 0 where
  pub connected : is_none s.socket ≡ false
  pub no_error : is_blank s.last_error ≡ true
  pub core_is : s.core ≡ core
  pub wire_is : wire s.trace ≡ sent
  pub heard_is : heard s.trace ≡ got

pub Setting-same :
    (sent' got' : List ℕ) {sent got : List ℕ} {core : BusCore} {s : State BusCore}
    (s' : State BusCore)
    → Setting sent got core s
    → s'.handle ≡ s.handle
    → wire s'.trace ≡ wire s.trace ++ sent'
    → heard s'.trace ≡ heard s.trace ++ got'
    → Setting (sent ++ sent') (got ++ got') core s'
Setting-same sent' got' s' q same grown read = record {
  connected = ap (λ (h : Handle BusCore). is_none h.socket) same ∙ q.connected;
  no_error = ap (λ (h : Handle BusCore). is_blank h.last_error) same ∙ q.no_error;
  core_is = ap (λ (h : Handle BusCore). h.core) same ∙ q.core_is;
  wire_is = grown ∙ ap (λ l. l ++ sent') q.wire_is;
  heard_is = read ∙ ap (λ l. l ++ got') q.heard_is;
}

module _ (os : Os) (fuel : ℕ) where
  pub Failed-Broken :
      {h : Handle BusCore} {s' : State BusCore}
      → is_none h.socket ≡ false
      → Broken (bus_env os fuel) h s'
      → Failed s'
  unfolding bus_env
  Failed-Broken {h} {s'} connected b = record { reported = b.reported; freed = go b.shape }
    where
      go :
          (s'.socket ≡ h.socket) × (s'.core ≡ h.core)
            ⊎ (s'.socket ≡ none) × (s'.core ≡ free_buffers h.core)
          → is_none s'.socket ≡ true
          → IsFreed s'.core
      go (inl (socket, core)) closed = cc (closed, ap is_none socket, connected)
      go (inr (socket, core)) closed = IsFreed-free_buffers h.core s'.core core

  pub Setting-SendPost :
      {bytes sent got : List ℕ} {core : BusCore} {s : State BusCore} {r : Run BusCore Ret}
      → Setting sent got core s
      → Returns (SendPost (bus_env os fuel) bytes s) r
      → Returns (Outcome (Setting (sent ++ bytes) got core) Failed) r
  Setting-SendPost {bytes} {sent} {got} {core} {s} q posted = weaken posted go
    where
      go :
          (r : Ret) (s' : State BusCore)
          → SendPost (bus_env os fuel) bytes s r s'
          → Outcome (Setting (sent ++ bytes) got core) Failed r s'
      go ok s' p =
          subst (λ l. Setting (sent ++ bytes) l core s') (append-nil got)
            (Setting-same bytes [] s' q p.handle p.wire_grows (p.heard_kept ∙ sym (append-nil _)))
      go error s' p = Failed-Broken q.connected p.broken
      go nak s' p = absurd p
      go ack s' p = absurd p
