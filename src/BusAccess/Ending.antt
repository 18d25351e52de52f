-- ===== src/BusAccess/Ending.antt =====
-- IpdbgBusAccess_close, IpdbgBusAccess_delete, IpdbgBusAccess_setTimeout and the queries.
use ipdbg.Prelude.{
  ℕ, ◌≡◌, refl, ap, ◌∙◌, Bool, true, false, Option, none, some, [], ◌++◌, ◌⊎◌, inl, inr, Bool-cases,
  Option-cases, if◌then◌else◌, ◌∷◌,
}
use ipdbg.Os.{Os, IsQuiet, wire, heard}
use ipdbg.Command.{
  Handle, pure, and_then, Ret, error, ok, nak, ack, this, State, is_none, is_blank, is_ok, blank,
  not_connected, no_result_pointer, with_error,
}
use ipdbg.Link.{begin, reject_if, close_socket}
use ipdbg.Link.Returns.{Returns, returned, Outcome, bind_rule, weaken}
use ipdbg.Link.Closing.{Closed, close_socket-Closed, close_socket-none}
use ipdbg.Link.Receiving.{apply_timeout-Applied, Applied, NotApplied}
use ipdbg.BusAccess.Core.{Sizes, BusCore, bus_env, read_widths_cmd}
use ipdbg.BusAccess.Session.{close, delete, set_timeout, store_timeout, query}
use ipdbg.BusAccess.Invariant.{
  succeeded, IsFreed, IsValid, Sound, Sound-with_error, IsFreed-free_buffers, Sound-Broken,
  Sound-ok, IsLive-same,
}
use ipdbg.BusAccess.Opening.{Failed, Setting}
use ipdbg.BusAccess.Opening.Sizing.{Sized, get_sizes-Sized}

-- Closed for good: nothing is owned, and the error says whether all went well.
pub record Ended (r : Ret) (s' : State BusCore) : Type 0 where
  pub socket : s'.socket ≡ none
  pub freed : IsFreed s'.core
  pub reports : is_blank s'.last_error ≡ succeeded r

module _ (os : Os) (fuel : ℕ) (quiet : IsQuiet os fuel) where
  Ended-Closed :
      (s s' : State BusCore) (r : Ret) (ret : Ret)
      → Closed (bus_env os fuel) s r s'
      → is_blank s'.last_error ≡ succeeded ret
      → Ended ret s'
  unfolding bus_env
  Ended-Closed s s' r ret c reports = record {
    socket = c.socket;
    freed = IsFreed-free_buffers s.core s'.core c.core;
    reports = reports;
  }

  reports-Closed :
      (s s' : State BusCore) (r : Ret)
      → is_blank s.last_error ≡ true
      → Closed (bus_env os fuel) s r s'
      → (r ≡ ok) ⊎ (r ≡ error)
      → is_blank s'.last_error ≡ succeeded r
  reports-Closed s s' r set c (inl e) = c.new_error set ∙ rw e refl
  reports-Closed s s' r set c (inr e) = c.new_error set ∙ rw e refl

  -- For an operating system that drains within the fuel after a shutdown, and on a valid handle,
  -- IpdbgBusAccess_close returns with no socket and no buffers, whatever the last exchange with
  -- the core brings, and the last error is empty exactly for RET_OK.
  pub close-Ended : (s : State BusCore) → IsValid s → Returns Ended (close os fuel this s)
  unfolding close begin bus_env
  close-Ended s v = elim (Option-cases s.socket) [
    | inl closed ↦ rw (ap is_none closed) (
        returned (record { socket = closed; freed = v.closed (ap is_none closed); reports = refl }))
    | inr (fd, opened) ↦ rw (ap is_none opened) (
        bind_rule (get_sizes-Sized os fuel quiet (heard s.trace) (setting (ap is_none opened)))
          finish)
  ]
    where
      s₀ : State BusCore
      s₀ = with_error s blank

      setting : is_none s.socket ≡ false → Setting (wire s.trace) (heard s.trace) s.core s₀
      setting connected = record {
        connected = connected;
        no_error = refl;
        core_is = refl;
        wire_is = refl;
        heard_is = refl;
      }

      finish :
          (ret : Ret) (s₁ : State BusCore)
          → Outcome
              (Sized (heard s.trace) (wire s.trace ++ (read_widths_cmd ∷ [])) s.core)
              Failed
              ret
              s₁
          → Returns Ended (
              and_then
                (close_socket (bus_env os fuel) s₁)
                λ ret_close. pure (if is_ok ret then ret_close else ret))
      finish ok s₁ z =
          bind_rule (close_socket-Closed (bus_env os fuel) quiet s₁ z.setting.connected) λ r s' c.
            returned
              (Ended-Closed s₁ s' r r c (reports-Closed s₁ s' r z.setting.no_error c c.status))
      finish error s₁ f = elim (Option-cases s₁.socket) [
        | inl closed ↦ rw (close_socket-none (bus_env os fuel) quiet s₁ closed) (
            returned (record {
              socket = closed;
              freed = f.freed (ap is_none closed);
              reports = f.reported;
            }))
        | inr (fd, opened) ↦
            bind_rule (close_socket-Closed (bus_env os fuel) quiet s₁ (ap is_none opened)) λ r s' c.
              returned
                (Ended-Closed s₁ s' r error c (ap is_blank (c.first_error f.reported) ∙ f.reported))
      ]
      finish nak s₁ f = absurd f
      finish ack s₁ f = absurd f

  -- For an operating system that drains within the fuel after a shutdown, and on a valid handle
  -- without an error, IpdbgBusAccess_delete leaves no socket and no buffers before it frees the
  -- handle, and the last error is empty exactly for RET_OK.
  pub delete-Ended :
      (s : State BusCore)
      → IsValid s
      → is_blank s.last_error ≡ true
      → Returns Ended (delete os fuel this s)
  unfolding delete bus_env
  delete-Ended s v no_error = elim (Option-cases s.socket) [
    | inl closed ↦ rw (close_socket-none (bus_env os fuel) quiet s closed) (
        returned
          (record { socket = closed; freed = v.closed (ap is_none closed); reports = no_error }))
    | inr (fd, opened) ↦
        weaken (close_socket-Closed (bus_env os fuel) quiet s (ap is_none opened))
          λ r s' c. Ended-Closed s s' r r c (reports-Closed s s' r no_error c c.status)
  ]

-- The timeout is stored, and an open connection gets it at once.
pub record TimeoutSet (milliseconds : ℕ) (r : Ret) (s' : State BusCore) : Type 0 where
  pub sound : Sound r s'
  pub stored : s'.timeout_ms ≡ milliseconds

module _ (os : Os) (fuel : ℕ) where
  -- On a valid handle, open or closed, IpdbgBusAccess_setTimeout returns with the timeout stored,
  -- a valid handle, and an error exactly for RET_ERROR.
  pub set_timeout-TimeoutSet :
      (milliseconds : ℕ) (s : State BusCore)
      → IsValid s
      → Returns (TimeoutSet milliseconds) (set_timeout os fuel this milliseconds s)
  unfolding set_timeout begin store_timeout
  set_timeout-TimeoutSet milliseconds s v = elim (Bool-cases (is_none s.socket)) [
    | inl closed ↦ rw closed (
        returned (record {
          sound = record {
            valid = record { closed = λ _. v.closed closed; opened = λ o. cc (o, closed) };
            reports = refl;
          };
          stored = refl;
        }))
    | inr opened ↦ rw opened (weaken (apply_timeout-Applied (bus_env os fuel) s₁) (go opened))
  ]
    where
      s₁ : State BusCore
      s₁ = record s { handle = record s.handle { timeout_ms = milliseconds; last_error = blank } }

      go :
          is_none s.socket ≡ false
          → (r : Ret) (s' : State BusCore)
          → Outcome (Applied (bus_env os fuel) s₁) (NotApplied (bus_env os fuel) s₁) r s'
          → TimeoutSet milliseconds r s'
      go opened ok s' a = record {
        sound = Sound-ok (
            IsLive-same {s = s₁} s' a.handle
              (record { connected = opened; ready = v.opened opened; no_error = refl }));
        stored = ap (λ (h : Handle BusCore). h.timeout_ms) a.handle;
      }
      go opened error s' b = record {
        sound = Sound-Broken os fuel s₁.handle s' opened (v.opened opened) b.broken;
        stored = b.broken.timeout_ms;
      }
      go opened nak s' b = absurd b
      go opened ack s' b = absurd b

-- A query answers from the handle, and sends nothing.
pub record Queried (f : Sizes → ℕ) (s : State BusCore) (result : Ret × Option ℕ)
    (s' : State BusCore) : Type 0 where
  pub sound : Sound result.0 s'
  pub value : result.0 ≡ ok → result.1 ≡ some (f s.core.sizes)
  pub nothing : result.0 ≡ error → result.1 ≡ none
  pub kept : (s'.core ≡ s.core) × (s'.socket ≡ s.socket) × (s'.trace ≡ s.trace)

-- On a valid handle, the queries for a width, the core type and the protocol version return the
-- value from the handle for RET_OK and nothing for RET_ERROR, keep the handle valid with an error
-- exactly for RET_ERROR, and make no system call.
pub query-Queried :
    (has_result : Bool) (f : Sizes → ℕ) (s : State BusCore)
    → IsValid s
    → Returns (Queried f s) (query this has_result f s)
unfolding query begin reject_if
query-Queried has_result f s v = elim (Bool-cases (is_none s.socket)) [
  | inl closed ↦ rw closed (
      returned (record {
        sound = Sound-with_error error not_connected v refl;
        value = λ h. cc;
        nothing = λ h. refl;
        kept = (refl, refl, refl);
      }))
  | inr opened ↦ rw opened (elim (Bool-cases has_result) [
    | inl given ↦ rw given (
        returned (record {
          sound = Sound-with_error ok blank v refl;
          value = λ h. refl;
          nothing = λ h. cc;
          kept = (refl, refl, refl);
        }))
    | inr missing ↦ rw missing (
        returned (record {
          sound = Sound-with_error error no_result_pointer v refl;
          value = λ h. cc;
          nothing = λ h. refl;
          kept = (refl, refl, refl);
        }))
  ])
]
