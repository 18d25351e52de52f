-- ===== src/IoView/Protocol/Opened.antt =====
-- IOViewProtocol::open: the ports that the panel shows are those of the core.
use ipdbg.Prelude.{
  ℕ, ◌%◌, ◌^◌, ◌≡◌, refl, ap, ◌∙◌, Bool, true, false, none, some, length-replicate, Bool-cases,
  Option-cases, inl, inr, ◌==◌, ==_iff, length,
}
use ipdbg.Os.{Os, IsQuiet}
use ipdbg.Command.{Ret, error, ok, nak, ack, this, blank, Handle, State, is_none}
use ipdbg.Link.Returns.{Outcome}
use ipdbg.BusAccess.Core.{Sizes, BusCore, get_core_type, no_sizes}
use ipdbg.BusAccess.Session
use ipdbg.BusAccess.Session.{BusAccessField, field_of, query, get_field_size, get_core_type_of}
use ipdbg.BusAccess.Invariant.{IsValid, IsValid-IsLive, IsFreed}
use ipdbg.BusAccess.Ending.{query-Queried}
use ipdbg.BusAccess.Opening.Prepared.{Opened, NotOpened}
use ipdbg.BusAccess.Opening.Opened.{open_connection-Opened}
use ipdbg.IoView.Protocol.{
  Protocol, Choice, Shown, Ended, core_type_ioprobe, core_type_bus_master, port_bytes, choose,
  unless_ok, start_polling, check_core_type, query_core, value_or_zero, query_then, connect,
  open_connection,
}
use ipdbg.IoView.Protocol.Invariant.{
  Ends, ended, one_if, IsFine, IsFine-show, call-Ends, fail_now-IsFine,
}

-- A handle that is not yet shown to the panel.
record Joined (c : BusCore) (p : Protocol) : Type 0 where
  handle : Handle BusCore
  at : p.handle ≡ some handle
  core : handle.core ≡ c
  connected : is_none handle.socket ≡ false
  valid : IsValid (record { handle = handle; trace = p.trace })
  one_pending : length p.pending ≡ one_if p.failing

abbrev new_handle : Handle BusCore
new_handle = record {
  socket = none;
  timeout_ms = Session.default_timeout_ms;
  last_error = blank;
  core = record { sizes = no_sizes; buffer = none; address_shadow = none };
}

module _ (os : Os) (fuel : ℕ) (quiet : IsQuiet os fuel) where
  unless_ok-IsFine :
      (host port : ℕ) (ret : Ret) (p : Protocol) (k : Ended)
      → length p.pending ≡ one_if p.failing
      → (ret ≡ ok → Ends IsFine k)
      → Ends IsFine (unless_ok os fuel host port ret p k)
  unfolding unless_ok
  unless_ok-IsFine host port ok p k one next = next refl
  unless_ok-IsFine host port error p k one next = fail_now-IsFine os fuel quiet _ p one
  unless_ok-IsFine host port nak p k one next = fail_now-IsFine os fuel quiet _ p one
  unless_ok-IsFine host port ack p k one next = fail_now-IsFine os fuel quiet _ p one

  check_core_type-IsFine :
      (host port core_type ins outs : ℕ) (c : BusCore) (p : Protocol)
      → Joined c p
      → core_type ≡ get_core_type c.sizes.version_and_id
      → ins ≡ c.sizes.read_data_width
      → outs ≡ c.sizes.write_data_width
      → Ends IsFine (check_core_type os fuel host port core_type ins outs p)
  unfolding check_core_type start_polling
  check_core_type-IsFine host port core_type ins outs c p j is_type is_ins is_outs =
      elim (Bool-cases (core_type == core_type_ioprobe)) [
        | inl ioprobe ↦ rw ioprobe (
            ended (record {
              attached = rw j.at (
                record { closed = j.valid.closed; opened = j.valid.opened },
                λ _. record {
                  connected = j.connected;
                  inputs = rw (j.core, is_ins) refl;
                  outputs = rw (j.core, is_outs) refl;
                  is_ioprobe =
                      rw (j.core, ← is_type) ((==_iff core_type core_type_ioprobe).0 ioprobe);
                },
              );
              sized = length-replicate {A = ℕ} (port_bytes (ins % 2 ^ 32)) 0;
              one_pending = j.one_pending;
            }))
        | inr other ↦ rw other (elim (Bool-cases (core_type == core_type_bus_master)) [
          | inl master ↦ rw master (fail_now-IsFine os fuel quiet _ p j.one_pending)
          | inr unknown ↦ rw unknown (fail_now-IsFine os fuel quiet _ p j.one_pending)
        ])
      ]

  -- A query leaves the handle as it is, but for the last error, and stores the width.
  query_then-IsFine :
      (host port : ℕ) (f : Sizes → ℕ) (c : BusCore) (p : Protocol) (k : ℕ → Protocol → Ended)
      → Joined c p
      → ((n : ℕ) (p' : Protocol) → Joined c p' → n ≡ f c.sizes → Ends IsFine (k n p'))
      → Ends IsFine (query_then os fuel host port (query this true f) k p)
  unfolding query_then value_or_zero
  query_then-IsFine host port f c p k j next =
      call-Ends (query this true f) p j.handle _ j.at (query-Queried true f _ j.valid) λ a s q.
        unless_ok-IsFine host port a.0 (record p { handle = some s.handle; trace = s.trace }) _
          j.one_pending
          λ done.
            next _ _ (joined s q.kept.0 q.kept.1 q.sound.valid)
              (ap (value_or_zero os fuel) (q.value done) ∙ ap (λ (d : BusCore). f d.sizes) j.core)
    where
      joined :
          (s : State BusCore)
          → s.core ≡ j.handle.core
          → s.socket ≡ j.handle.socket
          → IsValid s
          → Joined c (record p { handle = some s.handle; trace = s.trace })
      joined s same socket valid = record {
        handle = s.handle;
        at = refl;
        core = same ∙ j.core;
        connected = ap is_none socket ∙ j.connected;
        valid = record { closed = valid.closed; opened = valid.opened };
        one_pending = j.one_pending;
      }

  query_core-IsFine :
      (host port : ℕ) (c : BusCore) (p : Protocol)
      → Joined c p
      → Ends IsFine (query_core os fuel host port p)
  unfolding query_core get_core_type_of get_field_size field_of
  query_core-IsFine host port c p j =
      query_then-IsFine host port (λ z. get_core_type z.version_and_id) c p _ j
        λ core_type p₁ j₁ t.
          query_then-IsFine host port (λ z. z.read_data_width) c p₁ _ j₁
            λ ins p₂ j₂ i.
              query_then-IsFine host port (λ z. z.write_data_width) c p₂ _ j₂
                λ outs p₃ j₃ o. check_core_type-IsFine host port core_type ins outs c p₃ j₃ t i o

  connect-IsFine :
      (host port : ℕ) (allocated : Bool) (p : Protocol)
      → IsFine p
      → Ends IsFine (connect os fuel host port allocated p)
  unfolding connect Session.new
  connect-IsFine host port false p f = ended (IsFine-show Shown.no_memory p f)
  connect-IsFine host port true p f =
      call-Ends (Session.open_connection os fuel this (some host) (some port))
        (record p { handle = some h }) h
        (λ ret p'. unless_ok os fuel host port ret p' (query_core os fuel host port p')) refl
        (open_connection-Opened os fuel quiet (some host) (some port)
          (record { handle = h; trace = p.trace }) refl freed)
        λ ret s o.
          unless_ok-IsFine host port ret (record p { handle = some s.handle; trace = s.trace }) _
            f.one_pending
            λ done.
              query_core-IsFine host port s.core
                (record p { handle = some s.handle; trace = s.trace }) (joined ret s o done)
    where
      h : Handle BusCore
      h = new_handle

      freed : IsFreed h.core
      freed = record { buffer = refl; address_shadow = refl }

      joined :
          (ret : Ret) (s : State BusCore)
          → Outcome Opened NotOpened ret s
          → ret ≡ ok
          → Joined s.core (record p { handle = some s.handle; trace = s.trace })
      joined ok s o done =
          let v = IsValid-IsLive o.live in
          record {
            handle = s.handle;
            at = refl;
            core = refl;
            connected = o.live.connected;
            valid = record { closed = v.closed; opened = v.opened };
            one_pending = f.one_pending;
          }
      joined error s o done = cc
      joined nak s o done = cc
      joined ack s o done = cc

  pub open_connection-IsFine :
      (c : Choice) (allocated : Bool) (p : Protocol)
      → IsFine p
      → Ends IsFine (open_connection os fuel c allocated p)
  unfolding open_connection
  open_connection-IsFine c allocated p f = elim (Bool-cases (is_none p.handle)) [
    | inr present ↦ rw present (ended f)
    | inl absent ↦ rw absent (elim (Option-cases (choose c)) [
      | inl nothing ↦ rw nothing (ended f)
      | inr ((host, port), chosen) ↦
          rw chosen (connect-IsFine host port allocated _ (IsFine-show (Shown.saved host port) p f))
    ])
  ]
