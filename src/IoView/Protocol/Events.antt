-- ===== src/IoView/Protocol/Events.antt =====
-- The events of the user interface, in any order: every one returns and keeps the invariant.
use ipdbg.Prelude.{
  ℕ, ◌≡◌, refl, subst, Bool, true, false, not, Option, none, some, List, [], ◌∷◌, length, arith,
}
use ipdbg.Os.{Os, IsQuiet, Trace}
use ipdbg.Command.{Handle}
use ipdbg.BusAccess.Core.{BusCore}
use ipdbg.IoView.Protocol.{
  Protocol, Failure, Event, connect_menu, disconnect_menu, timer_expired, call_after,
  output_changed, port_bytes, fail_now, run_pending, handle_event, is_open,
}
use ipdbg.IoView.Protocol.Invariant.{
  Ends, ended, if-Ends, Attached, one_if, IsFine, close-IsFine, fail_now-IsFine,
}
use ipdbg.IoView.Protocol.Opened.{open_connection-IsFine}
use ipdbg.IoView.Protocol.Accesses.{Narrow, set_output-IsFine, notify-IsFine}

module _ (os : Os) (fuel : ℕ) (quiet : IsQuiet os fuel) where
  stopped-IsFine : (p : Protocol) → IsFine p → IsFine (record p { timer = false })
  stopped-IsFine p f = record {
    attached = go p.handle f.attached;
    sized = f.sized;
    one_pending = f.one_pending;
  }
    where
      go : (h : Option (Handle BusCore)) → Attached h p → Attached h (record p { timer = false })
      go none (ins, outs, timer) = (ins, outs, refl)
      go (some h) (v, m) = (
        v,
        λ e.
            let n = m e in
            record {
              connected = n.connected;
              inputs = n.inputs;
              outputs = n.outputs;
              is_ioprobe = n.is_ioprobe;
            },
      )

  run_pending-IsFine : (p : Protocol) → IsFine p → Ends IsFine (run_pending os fuel p)
  unfolding run_pending
  run_pending-IsFine p f = go p.pending f.one_pending
    where
      go :
          (l : List Failure)
          → length l ≡ one_if p.failing
          → Ends IsFine (elim l [
            | [] ↦ some p
            | message ∷ rest ↦
                fail_now os fuel message (record p { failing = false; pending = rest })
          ])
      go [] one = ended f
      go (message ∷ rest) one = fail_now-IsFine os fuel quiet message _ (last p.failing one)
        where
          last : (b : Bool) → length (message ∷ rest) ≡ one_if b → length rest ≡ 0
          last true e = omega (arith, e)
          last false e = absurd (omega (arith, e))

  handle_event-IsFine :
      (e : Event) (p : Protocol)
      → IsFine p
      → Narrow p.handle
      → Ends IsFine (handle_event os fuel e p)
  unfolding handle_event
  handle_event-IsFine (connect_menu c allocated) p f narrow =
      if-Ends (not (is_open p)) (λ _. open_connection-IsFine os fuel quiet c allocated p f)
        (λ _. ended f)
  handle_event-IsFine disconnect_menu p f narrow =
      if-Ends (is_open p) (λ _. close-IsFine os fuel quiet p f.one_pending) (λ _. ended f)
  handle_event-IsFine timer_expired p f narrow =
      if-Ends p.timer (λ _. notify-IsFine os fuel quiet _ (stopped-IsFine p f) narrow)
        (λ _. ended f)
  handle_event-IsFine call_after p f narrow = run_pending-IsFine p f
  handle_event-IsFine (output_changed buffer) p f narrow =
      set_output-IsFine os fuel quiet buffer p f narrow

-- The constructor.
unfoldable pub construct : Trace → Protocol
construct t = record {
  handle = none;
  number_of_inputs = 0;
  number_of_outputs = 0;
  input_buffer = [];
  failing = false;
  timer = false;
  pending = [];
  shown = [];
  trace = t;
}

module _ (os : Os) (fuel : ℕ) where
  -- Events one after the other, each while the core has at most eight bits of address.
  pub data Reaches (t : Trace) : Protocol → Type 0 where
    starts : Reaches t (construct t)
    handles :
        {p p' : Protocol} (e : Event)
        → Reaches t p
        → Narrow p.handle
        → handle_event os fuel e p ≡ some p'
        → Reaches t p'

module _ (os : Os) (fuel : ℕ) (quiet : IsQuiet os fuel) where
  Reaches-IsFine : {t : Trace} {p : Protocol} → Reaches os fuel t p → IsFine p
  unfolding construct port_bytes
  Reaches-IsFine starts = record { attached = (refl, refl, refl); sized = refl; one_pending = refl }
  Reaches-IsFine {p = p'} (handles {p} e before narrow at) = go (
      subst (λ x. Ends IsFine x) at
        (handle_event-IsFine os fuel quiet e p (Reaches-IsFine before) narrow))
    where
      go : Ends IsFine (some p') → IsFine p'
      go (ended f) = f

  -- For an operating system that drains within the fuel after a shutdown, in any order of
  -- connecting, disconnecting, output changes, timer events and pending failures, and as long as
  -- a connected core has at most eight bits of address, every next event returns without a bad
  -- memory access. Before and after it: without a handle there are no ports and no timer runs; a
  -- handle is a valid one of the library; as long as no access has failed it is connected to an
  -- IoProbe whose widths are those of the panel; the input buffer has the bytes of the inputs;
  -- and exactly one pending call is there while a failure is to be shown.
  pub Reaches-Fine :
      {t : Trace} {p : Protocol} (e : Event)
      → Reaches os fuel t p
      → Narrow p.handle
      → IsFine p × Ends IsFine (handle_event os fuel e p)
  Reaches-Fine {p = p} e reached narrow =
      let f = Reaches-IsFine reached in (f, handle_event-IsFine os fuel quiet e p f narrow)
