-- ===== src/IoView/Protocol/Accesses.antt =====
-- IOViewProtocol::setOutput and Notify: the library gets as many bytes as it uses.
use ipdbg.Prelude.{
  ℕ, suc, ◌%◌, ◌^◌, ◌≤◌, ◌≡◌, refl, ap, ◌∙◌, sym, subst, true, false, Option, none, some, List, [],
  ◌∷◌, ◌++◌, drop, length, Bool-cases, Option-cases, inl, inr, arith, ◌==◌, ==_iff, leb,
}
use ipdbg.Os.{Os, IsQuiet}
use ipdbg.Command.{Ret, error, ok, nak, ack, this, Handle, State, is_none}
use ipdbg.BusAccess.Core.{BusCore, round_up}
use ipdbg.BusAccess.Access
use ipdbg.BusAccess.Invariant.{IsValid}
use ipdbg.BusAccess.Write.{WritePost, write_ctrllock-WritePost}
use ipdbg.BusAccess.Read.{ReadPost, ReadAnswered, read_ctrllock-ReadPost}
use ipdbg.IoView.Protocol.{
  Protocol, Failure, Shown, port_bytes, show, address, outputs_nak, inputs_nak, fail, set_output,
  after_write, notify, after_read, then_after_read, store,
}
use ipdbg.IoView.Protocol.Invariant.{
  Ends, ended, Matches, Attached, one_if, IsFine, call-Ends, fail-IsFine, waiting-IsFine,
}

-- The address that the class passes has one byte.
abbrev pub Narrow : Option (Handle BusCore) → Type 0
Narrow none = Unit
Narrow (some h) = h.core.sizes.address_width_bytes ≤ 1

-- A handle whose accesses have not failed.
record Usable (h : Handle BusCore) (p : Protocol) : Type 0 where
  at : p.handle ≡ some h
  valid : IsValid (record { handle = h; trace = p.trace })
  matches : Matches h p
  working : p.failing ≡ false
  sized : length p.input_buffer ≡ port_bytes p.number_of_inputs
  empty : p.pending ≡ []
  narrow : h.core.sizes.address_width_bytes ≤ 1

no_pending : (l : List Failure) → length l ≡ 0 → l ≡ []
no_pending [] h = refl
no_pending (x ∷ l) h = absurd (omega arith)

Usable-IsFine :
    (h : Handle BusCore) (p : Protocol)
    → IsFine p
    → p.handle ≡ some h
    → p.failing ≡ false
    → Narrow p.handle
    → Usable h p
Usable-IsFine h p f at working narrow =
    let a : Attached (some h) p =
      subst (λ (x : Option (Handle BusCore)). Attached x p) at f.attached in
    record {
      at = at;
      valid = a.0;
      matches = a.1 working;
      working = working;
      sized = f.sized;
      empty = no_pending p.pending (f.one_pending ∙ ap one_if working);
      narrow = subst Narrow at narrow;
    }

port_bytes-round_up : (bits : ℕ) → port_bytes (bits % 2 ^ 32) ≡ round_up bits
unfolding port_bytes round_up
port_bytes-round_up bits = omega arith

module _ (os : Os) (fuel : ℕ) (quiet : IsQuiet os fuel) where
  -- After an answer the handle is as before.
  record Kept (h : Handle BusCore) (s : State BusCore) : Type 0 where
    connected : is_none s.socket ≡ false
    sizes : s.core.sizes ≡ h.core.sizes

  answered-IsFine :
      (h : Handle BusCore) (p : Protocol) (s : State BusCore) (q : Protocol)
      → Usable h p
      → IsValid s
      → Kept h s
      → q.handle ≡ some s.handle
      → q.trace ≡ s.trace
      → q.number_of_inputs ≡ p.number_of_inputs
      → q.number_of_outputs ≡ p.number_of_outputs
      → length q.input_buffer ≡ length p.input_buffer
      → q.failing ≡ p.failing
      → q.pending ≡ p.pending
      → IsFine q
  answered-IsFine h p s q u v k handle trace ins outs buffer failing pending = record {
    attached = rw handle (
      record { closed = v.closed; opened = v.opened },
      λ _. record {
        connected = k.connected;
        inputs = rw (k.sizes) (ins ∙ u.matches.inputs);
        outputs = rw (k.sizes) (outs ∙ u.matches.outputs);
        is_ioprobe = rw (k.sizes) u.matches.is_ioprobe;
      },
    );
    sized = buffer ∙ u.sized ∙ ap port_bytes (sym ins);
    one_pending = rw (pending, failing, u.empty, u.working) refl;
  }

  failed-IsFine :
      (message : Failure) (h : Handle BusCore) (p : Protocol) (s : State BusCore)
      → Usable h p
      → IsValid s
      → Ends IsFine (fail os fuel message (record p { handle = some s.handle; trace = s.trace }))
  failed-IsFine message h p s u v =
      fail-IsFine message (record p { handle = some s.handle; trace = s.trace }) s.handle refl
        (record { closed = v.closed; opened = v.opened }) u.sized u.empty os fuel u.working

  after_write-IsFine :
      (h : Handle BusCore) (p : Protocol) (buffer : List ℕ) (r : Ret) (s : State BusCore)
      → Usable h p
      → WritePost address buffer false (record { handle = h; trace = p.trace }) r s
      → Ends IsFine (after_write os fuel r (record p { handle = some s.handle; trace = s.trace }))
  unfolding after_write
  after_write-IsFine h p buffer ack s u w =
      let e = w.answered refl in
      ended (
        answered-IsFine h p s (record p { handle = some s.handle; trace = s.trace }) u w.sound.valid
          (record { connected = e.connected; sizes = e.sizes }) refl refl refl refl refl refl refl)
  after_write-IsFine h p buffer nak s u w = failed-IsFine outputs_nak h p s u w.sound.valid
  after_write-IsFine h p buffer error s u w = failed-IsFine _ h p s u w.sound.valid
  after_write-IsFine h p buffer ok s u w = absurd (w.not_ok refl)

  pub set_output-IsFine :
      (buffer : List ℕ) (p : Protocol)
      → IsFine p
      → Narrow p.handle
      → Ends IsFine (set_output os fuel buffer p)
  unfolding set_output Access.write
  set_output-IsFine buffer p f narrow = elim (Option-cases p.handle) [
    | inl absent ↦ rw (ap is_none absent) (ended f)
    | inr (h, at) ↦ rw (ap is_none at) (elim (Bool-cases p.failing) [
      | inl failing ↦ simp failing (ended f)
      | inr working ↦
          simp working (elim (Bool-cases (length buffer == port_bytes p.number_of_outputs)) [
            | inr other ↦
                let u = Usable-IsFine h p f at working narrow in
                rw other (ended (waiting-IsFine _ p h at u.valid u.sized u.empty))
            | inl same ↦
                let u = Usable-IsFine h p f at working narrow in
                rw same (
                  call-Ends (Access.write os fuel this address buffer) p h _ at
                    (write_ctrllock-WritePost os fuel quiet address buffer false
                      (record { handle = h; trace = p.trace }) u.valid u.narrow (enough h u same))
                    λ r s w. after_write-IsFine h p buffer r s u w)
          ])
    ])
  ]
    where
      enough :
          (h : Handle BusCore)
          → Usable h p
          → (length buffer == port_bytes p.number_of_outputs) ≡ true
          → h.core.sizes.write_data_width_bytes ≤ length buffer
      enough h u same = omega (
        arith,
        (==_iff _ _).0 same,
        ap port_bytes u.matches.outputs ∙ port_bytes-round_up h.core.sizes.write_data_width,
        (u.valid.opened u.matches.connected).rounded.write_data,
      )

  pub notify-IsFine : (p : Protocol) → IsFine p → Narrow p.handle → Ends IsFine (notify os fuel p)
  unfolding notify Access.read then_after_read after_read store
  notify-IsFine p f narrow = elim (Option-cases p.handle) [
    | inl absent ↦ rw (ap is_none absent) (ended f)
    | inr (h, at) ↦ rw (ap is_none at) (elim (Bool-cases p.failing) [
      | inl failing ↦ simp failing (ended f)
      | inr working ↦
          let u = Usable-IsFine h p f at working narrow in
          simp working (
            call-Ends (Access.read os fuel this address) p h _ at
              (read_ctrllock-ReadPost os fuel quiet address false
                (record { handle = h; trace = p.trace }) u.valid u.narrow)
              λ (r, result) s w. after_read-IsFine h u r result s w)
    ])
  ]
    where
      whole :
          (bytes behind : List ℕ)
          → length bytes ≡ length behind
          → length (bytes ++ drop (length bytes) behind) ≡ length behind
      whole [] behind e = refl
      whole (b ∷ bytes) [] e = absurd (omega arith)
      whole (b ∷ bytes) (c ∷ behind) e = ap suc (whole bytes behind (omega (arith, e)))

      filled :
          (h : Handle BusCore) {r : Ret} {result : Option (List ℕ)} {s : State BusCore}
          → Usable h p
          → (a : ReadAnswered address false (record { handle = h; trace = p.trace }) r result s)
          → length a.bytes ≡ length p.input_buffer
      filled h u a = omega (
        arith,
        a.length_bytes,
        (u.valid.opened u.matches.connected).rounded.read_data,
        u.sized,
        ap port_bytes u.matches.inputs ∙ port_bytes-round_up h.core.sizes.read_data_width,
      )

      fits :
          (h : Handle BusCore) {r : Ret} {result : Option (List ℕ)} {s : State BusCore}
          → Usable h p
          → (a : ReadAnswered address false (record { handle = h; trace = p.trace }) r result s)
          → leb (length a.bytes) (length p.input_buffer) ≡ true
      fits h u a = ground (arith, filled h u a)

      after_read-IsFine :
          (h : Handle BusCore)
          → Usable h p
          → (r : Ret) (result : Option (List ℕ)) (s : State BusCore)
          → ReadPost address false (record { handle = h; trace = p.trace }) (r, result) s
          → Ends IsFine (
              then_after_read os fuel r
                (store os fuel result (record p { handle = some s.handle; trace = s.trace })))
      after_read-IsFine h u ack result s w =
          let a = w.answered refl in
          rw (a.stored, fits h u a)
            (ended (
              answered-IsFine h p s
                (show (Shown.inputs (a.bytes ++ drop (length a.bytes) p.input_buffer)) (record p {
                  handle = some s.handle;
                  trace = s.trace;
                  timer = true;
                  input_buffer = a.bytes ++ drop (length a.bytes) p.input_buffer;
                }))
                u w.sound.valid
                (record { connected = a.exchanged.connected; sizes = a.exchanged.sizes }) refl refl
                refl refl (whole a.bytes p.input_buffer (filled h u a)) refl refl))
      after_read-IsFine h u nak result s w =
          let a = w.answered refl in
          rw (a.stored, fits h u a)
            (fail-IsFine inputs_nak
              (record p {
                handle = some s.handle;
                trace = s.trace;
                input_buffer = a.bytes ++ drop (length a.bytes) p.input_buffer;
              })
              s.handle refl
              (record { closed = w.sound.valid.closed; opened = w.sound.valid.opened })
              (whole a.bytes p.input_buffer (filled h u a) ∙ u.sized) u.empty os fuel u.working)
      after_read-IsFine h u error result s w =
          rw (w.unanswered refl) (failed-IsFine _ h p s u w.sound.valid)
      after_read-IsFine h u ok result s w = absurd (w.not_ok refl)
