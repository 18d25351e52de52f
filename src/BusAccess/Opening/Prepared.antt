-- ===== src/BusAccess/Opening/Prepared.antt =====
-- What follows on the width query: the buffers, and the first address.
use ipdbg.Prelude.{
  ℕ, ◌+◌, ◌≤◌, ◌≡◌, ◌≢◌, refl, ap, ◌∙◌, sym, true, false, Option, none, some, List, [], ◌∷◌, ◌++◌,
  arith, length, replicate, length-replicate, ◌==◌, ==_iff, inl, inr, append-nil, Bool-cases,
}
use ipdbg.Os.{Os, IsQuiet, wire, heard, did_malloc}
use ipdbg.Command.{Ret, error, ok, nak, ack, State, is_none, is_blank}
use ipdbg.Escaping.{reset_symbol}
use ipdbg.Link.{os_malloc, reject_if}
use ipdbg.Link.Returns.{Returns, returned, Outcome, then_rule, weaken}
use ipdbg.BusAccess.Core.{
  Sizes, BusCore, bus_env, sizes_of, read_widths_cmd, protocol_id, get_protocol_id, get_buffe_size,
  max_size,
}
use ipdbg.BusAccess.Query.{send_address}
use ipdbg.BusAccess.Session.{set_buffer, set_shadow, allocate, send_shadow, prepare}
use ipdbg.BusAccess.Invariant.{IsRounded, IsFreed, IsLive, Moved}
use ipdbg.BusAccess.Steps.{Step}
use ipdbg.BusAccess.Address.{address_command, address_command-sizes, send_address-Step, le-max_size}
use ipdbg.BusAccess.Opening.{Failed}
use ipdbg.BusAccess.Opening.Sizing.{Sized}

abbrev pub zeros : Sizes → List ℕ
zeros z = replicate (max_size z.address_width_bytes 1) 0

-- Two resets and the query for the widths.
abbrev pub opening : List ℕ
opening = reset_symbol ∷ reset_symbol ∷ read_widths_cmd ∷ []

-- Both buffers have been allocated.
record Allocated (s s' : State BusCore) : Type 0 where
  live : IsLive s'
  sizes : s'.core.sizes ≡ s.core.sizes
  shadowed : s'.core.address_shadow ≡ some (zeros s.core.sizes)
  wire_kept : wire s'.trace ≡ wire s.trace
  heard_kept : heard s'.trace ≡ heard s.trace

-- The widths are those that the core reports, and the core's address register and the shadow are 0.
pub record Opened (s : State BusCore) : Type 0 where
  pub live : IsLive s
  pub length_answer : length (heard s.trace) ≡ 24
  pub sizes : s.core.sizes ≡ sizes_of (heard s.trace)
  pub protocol : get_protocol_id s.core.sizes.version_and_id ≡ protocol_id
  pub usable : get_buffe_size s.core.sizes ≢ 0
  pub shadowed : s.core.address_shadow ≡ some (zeros s.core.sizes)
  pub wire_is : wire s.trace ≡ opening ++ address_command s.core (zeros s.core.sizes)

-- No connection, no memory, and an error.
pub record NotOpened (s : State BusCore) : Type 0 where
  pub socket : s.socket ≡ none
  pub freed : IsFreed s.core
  pub reported : is_blank s.last_error ≡ false

IsRounded-sizes_of : (answer : List ℕ) → IsRounded (sizes_of answer)
unfolding sizes_of
IsRounded-sizes_of answer = record {
  address = refl;
  read_data = refl;
  write_data = refl;
  misc = refl;
  strobe = refl;
}

module _ (os : Os) (fuel : ℕ) where
  allocate-Allocated :
      (s : State BusCore)
      → is_none s.socket ≡ false
      → is_blank s.last_error ≡ true
      → IsRounded s.core.sizes
      → Returns (Outcome (Allocated s) Failed) (allocate os fuel s.core.sizes s)
  unfolding allocate os_malloc set_buffer set_shadow reject_if bus_env
  allocate-Allocated s connected no_error rounded = elim (Bool-cases (os.malloc s.trace n)) [
    | inl first ↦ rw first (elim (Bool-cases (os.malloc (did_malloc n true ∷ s.trace) m)) [
      | inl second ↦ rw second (
          returned (record {
            live = record {
              connected = connected;
              ready = record {
                rounded = rounded;
                bytes = _;
                buffer = refl;
                length_buffer = length-replicate _ _;
                shadow = _;
                address_shadow = refl;
                length_shadow = length-replicate _ _;
              };
              no_error = no_error;
            };
            sizes = refl;
            shadowed = refl;
            wire_kept = refl;
            heard_kept = refl;
          }))
      | inr second ↦
          rw second (returned (record { reported = refl; freed = λ h. cc (h, connected) }))
    ])
    | inr first ↦ rw first (returned (record { reported = refl; freed = λ h. cc (h, connected) }))
  ]
    where
      n : ℕ
      n = get_buffe_size s.core.sizes + 1

      m : ℕ
      m = max_size s.core.sizes.address_width_bytes 1

  send_shadow-eq :
      (pointer : Option (List ℕ)) (shadow : List ℕ)
      → pointer ≡ some shadow
      → send_shadow os fuel pointer ≡ send_address os fuel shadow
  unfolding send_shadow
  send_shadow-eq pointer shadow at = rw at

  pub prepare-Opened :
      (quiet : IsQuiet os fuel) (core : BusCore) (s : State BusCore)
      → Sized [] opening core s
      → Returns (Outcome Opened Failed) (prepare os fuel s)
  unfolding prepare reject_if
  prepare-Opened quiet core s z = elim (Bool-cases (get_buffe_size s.core.sizes == 0)) [
    | inl empty ↦
        rw empty (returned (record { reported = refl; freed = λ h. cc (h, z.setting.connected) }))
    | inr usable ↦ rw usable (
        then_rule
          (allocate-Allocated s z.setting.connected z.setting.no_error
            (rw sizes (IsRounded-sizes_of z.answer)))
          (λ s₁ a. rw (send_shadow-eq s₁.core.address_shadow (zeros s.core.sizes) a.shadowed) (
            weaken (send_address-Step os fuel quiet (zeros s.core.sizes) (enough s₁ a) a.live)
              (settle usable s₁ a)))
          (λ s' failed. failed))
  ]
    where
      sizes : s.core.sizes ≡ sizes_of z.answer
      sizes = ap (λ (c : BusCore). c.sizes) z.setting.core_is

      enough :
          (s₁ : State BusCore)
          → Allocated s s₁
          → s₁.core.sizes.address_width_bytes ≤ length (zeros s.core.sizes)
      enough s₁ a = rw a.sizes (
          omega (
            arith,
            length-replicate {A = ℕ} (max_size s.core.sizes.address_width_bytes 1) 0,
            le-max_size s.core.sizes.address_width_bytes,
          ))

      written :
          (s₁ : State BusCore)
          → Allocated s s₁
          → (s' : State BusCore)
          → Moved (address_command s₁.core (zeros s.core.sizes)) [] s₁.core.address_shadow s₁ s'
          → s'.core.sizes ≡ s.core.sizes
          → wire s'.trace ≡ opening ++ address_command s'.core (zeros s'.core.sizes)
      written s₁ a s' m same =
          m.wire_grows
          ∙ ap (λ l. l ++ address_command s₁.core (zeros s.core.sizes))
              (a.wire_kept ∙ z.setting.wire_is)
          ∙ ap (λ l. opening ++ l)
              (address_command-sizes s₁.core s'.core (zeros s.core.sizes) (sym m.sizes)
                ∙ ap (λ y. address_command s'.core (zeros y)) (sym same))

      settle :
          (get_buffe_size s.core.sizes == 0) ≡ false
          → (s₁ : State BusCore) → Allocated s s₁
          → (r : Ret) (s' : State BusCore)
          → Step (address_command s₁.core (zeros s.core.sizes)) [] s₁.core.address_shadow s₁ r s'
          → Outcome Opened Failed r s'
      settle usable s₁ a ok s' m =
          let same : s'.core.sizes ≡ s.core.sizes = m.sizes ∙ a.sizes in
          let read : heard s'.trace ≡ z.answer =
            m.heard_grows ∙ append-nil _ ∙ a.heard_kept ∙ z.setting.heard_is in
          record {
            live = m.live;
            length_answer = rw read z.length_answer;
            sizes = same ∙ sizes ∙ ap sizes_of (sym read);
            protocol = rw (same, sizes) z.protocol;
            usable = λ h. cc (usable, (==_iff _ 0).1 (ap get_buffe_size (sym same) ∙ h));
            shadowed = m.shadowed ∙ a.shadowed ∙ ap (λ z. some (zeros z)) (sym same);
            wire_is = written s₁ a s' m same;
          }
      settle usable s₁ a error s' sound = record {
        reported = sound.reports;
        freed = sound.valid.closed;
      }
      settle usable s₁ a nak s' m = absurd m
      settle usable s₁ a ack s' m = absurd m
