-- ===== src/BusAccess/Opening/Opened.antt =====
-- IpdbgBusAccess_open: what an open handle is, and that a failed call leaves none half open.
use ipdbg.Prelude.{
  ℕ, ◌≡◌, refl, ap, ◌∙◌, sym, true, false, Option, none, [], inl, inr, Option-cases, subst,
}
use ipdbg.Os.{Os, IsQuiet, wire, heard}
use ipdbg.Command.{Ret, error, ok, nak, ack, this, State, is_none, is_blank, blank, with_error}
use ipdbg.Link.{begin}
use ipdbg.Link.Returns.{Returns, returned, Outcome, then_rule, bind_rule}
use ipdbg.Link.Closing.{close_socket-Closed, close_socket-none}
use ipdbg.Link.Receiving.{Applied, apply_timeout-Applied}
use ipdbg.Link.Frames.{send_reset-Sent}
use ipdbg.Link.Connecting.Outcome.{connect_host-Outcome}
use ipdbg.BusAccess.Core.{BusCore, bus_env}
use ipdbg.BusAccess.Session.{set_up, close_unless_ok, open_connection}
use ipdbg.BusAccess.Invariant.{IsFreed, IsFreed-free_buffers}
use ipdbg.BusAccess.Opening.{Failed, Setting, Setting-SendPost, Failed-Broken}
use ipdbg.BusAccess.Opening.Sizing.{get_sizes-Sized}
use ipdbg.BusAccess.Opening.Prepared.{Opened, NotOpened, prepare-Opened}

module _ (os : Os) (fuel : ℕ) where
  set_up-Opened :
      (quiet : IsQuiet os fuel) (s : State BusCore)
      → is_none s.socket ≡ false
      → is_blank s.last_error ≡ true
      → wire s.trace ≡ []
      → heard s.trace ≡ []
      → Returns (Outcome Opened Failed) (set_up os fuel s)
  unfolding set_up bus_env
  set_up-Opened quiet s connected no_error wire_empty heard_empty =
      then_rule (apply_timeout-Applied (bus_env os fuel) s)
        (λ s₁ a.
          then_rule
            (Setting-SendPost os fuel (start s₁ a) (send_reset-Sent (bus_env os fuel) quiet s₁))
            (λ s₂ q₂.
              then_rule (get_sizes-Sized os fuel quiet [] q₂)
                (λ s₃ z. prepare-Opened os fuel quiet s.core s₃ z) failed)
            failed)
        (λ s' b. Failed-Broken os fuel connected b.broken)
    where
      failed : (s' : State BusCore) → Failed s' → Failed s'
      failed s' f = f

      start : (s₁ : State BusCore) → Applied (bus_env os fuel) s s₁ → Setting [] [] s.core s₁
      start s₁ a = record {
        connected = rw a.handle connected;
        no_error = rw a.handle no_error;
        core_is = rw a.handle refl;
        wire_is = a.wire_kept ∙ wire_empty;
        heard_is = a.heard_kept ∙ heard_empty;
      }

  -- `goto error`.
  close_unless_ok-Opened :
      (quiet : IsQuiet os fuel) (ret : Ret) (s : State BusCore)
      → Outcome Opened Failed ret s
      → Returns (Outcome Opened NotOpened) (close_unless_ok os fuel ret s)
  unfolding close_unless_ok bus_env
  close_unless_ok-Opened quiet ok s o = returned o
  close_unless_ok-Opened quiet error s f = elim (Option-cases s.socket) [
    | inl closed ↦ rw (close_socket-none (bus_env os fuel) quiet s closed) (
        returned
          (record { socket = closed; freed = f.freed (ap is_none closed); reported = f.reported }))
    | inr (fd, opened) ↦
        bind_rule (close_socket-Closed (bus_env os fuel) quiet s (ap is_none opened)) λ r s' c.
          returned (record {
            socket = c.socket;
            freed = IsFreed-free_buffers s.core s'.core c.core;
            reported = rw (c.first_error f.reported) f.reported;
          })
  ]
  close_unless_ok-Opened quiet nak s f = absurd f
  close_unless_ok-Opened quiet ack s f = absurd f

  -- For an operating system that drains within the fuel after a shutdown, and from a closed
  -- handle without buffers, IpdbgBusAccess_open returns for any host and port. After RET_OK the
  -- handle is connected and valid, it has the widths of the 24 bytes that the core answered, the
  -- protocol is the right one, some field is not empty, and what was sent is two resets, the
  -- width query and the zero address that the shadow starts with. After RET_ERROR it has no
  -- socket and no buffers, and an error.
  pub open_connection-Opened :
      (quiet : IsQuiet os fuel) (host port : Option ℕ) (s : State BusCore)
      → s.socket ≡ none
      → IsFreed s.core
      → Returns (Outcome Opened NotOpened) (open_connection os fuel this host port s)
  unfolding open_connection begin
  open_connection-Opened quiet host port s closed freed =
      then_rule (connect_host-Outcome (bus_env os fuel) host port (with_error s blank) closed)
        (λ s₁ c.
          bind_rule
            (set_up-Opened quiet s₁ c.socket (ap is_blank c.last_error) c.wire_empty c.heard_empty)
            (close_unless_ok-Opened quiet))
        (λ s' n. record {
          socket = n.socket;
          freed = subst IsFreed (sym n.core) freed;
          reported = n.reported;
        })
