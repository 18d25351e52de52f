-- ===== src/BusAccess/Write.antt =====
-- IpdbgBusAccess_write_ctrllock: what is sent, and what the status says.
use ipdbg.Prelude.{
  false, ℕ, ◌≤◌, ◌≡◌, ◌≢◌, refl, subst, Bool, true, Option, some, List, [], ◌∷◌, ◌++◌, arith,
  length, ◌==◌, ==_iff, if◌then◌else◌, inl, inr, append-nil, take, Bool-cases,
}
use ipdbg.Os.{Os, IsQuiet}
use ipdbg.Command.{
  Ret, error, ok, nak, this, State, with_error, blank, no_write_data, write_answered_with_nak,
  invalid_response_to_write, and_then,
}
use ipdbg.Escaping.{escape_all}
use ipdbg.Link.Returns.{Returns, returned, then_rule}
use ipdbg.BusAccess.Core.{
  BusCore, overwrite, load_byte, write_cmd_lock, write_cmd_unlock, ack_resp, nack_resp,
}
use ipdbg.BusAccess.Access.{write_ctrllock, write_status}
use ipdbg.BusAccess.Invariant.{
  IsValid, IsValid-IsLive, Sound-with_error, Sound, Moved, Moved-trans, Moved-begin,
}
use ipdbg.BusAccess.Steps.{
  begin-Returns, reject_if-Returns, send_command-Step, send_with_escaping-Step, Filled,
  receive_to_buffer-Filled,
}
use ipdbg.BusAccess.Exchange.{is_answer, status_byte, Exchanged, Exchanged-Moved, load_byte-eq}
use ipdbg.BusAccess.Address.{given, address_frame, set_address-Step}

abbrev pub write_command : Bool → ℕ
write_command locked = if locked then write_cmd_lock else write_cmd_unlock

-- The bytes of a write access: the address if it is new, the command, the data.
unfoldable pub write_frame : BusCore → List ℕ → List ℕ → Bool → List ℕ
write_frame c address bytes locked =
    address_frame c address
    ++ (write_command locked ∷ escape_all (take c.sizes.write_data_width_bytes bytes))

pub record WritePost (address bytes : List ℕ) (locked : Bool) (s : State BusCore) (r : Ret)
    (s' : State BusCore) : Type 0 where
  pub sound : Sound r s'
  pub not_ok : r ≢ ok
  pub has_field : is_answer r ≡ true → (s.core.sizes.write_data_width_bytes == 0) ≡ false
  pub answered :
      is_answer r ≡ true
      → Exchanged
          (write_frame s.core address bytes locked)
          (status_byte r ∷ [])
          (overwrite s.core.address_shadow (given s.core address))
          s
          s'

WritePost-error :
    {address bytes : List ℕ} {locked : Bool} {s : State BusCore} (s' : State BusCore)
    → Sound error s'
    → WritePost address bytes locked s error s'
WritePost-error s' sound = record {
  sound = sound;
  not_ok = λ e. cc;
  has_field = λ e. cc;
  answered = λ e. cc;
}

module _ (address bytes : List ℕ) (locked : Bool) (s s' : State BusCore)
    (has_field : (s.core.sizes.write_data_width_bytes == 0) ≡ false) where
  -- The status byte decides.
  write_status-Returns :
      (b : ℕ)
      → Moved
          (write_frame s.core address bytes locked)
          (b ∷ [])
          (overwrite s.core.address_shadow (given s.core address))
          s
          s'
      → Returns (WritePost address bytes locked s) (write_status b s')
  unfolding write_status
  write_status-Returns b m = elim (Bool-cases (b == ack_resp)) [
    | inl is_ack ↦ rw is_ack (
        returned (record {
          sound = record { valid = IsValid-IsLive m.live; reports = m.live.no_error };
          not_ok = λ e. cc;
          has_field = λ _. has_field;
          answered = λ _. rw (← (==_iff b ack_resp).0 is_ack) (Exchanged-Moved s'.last_error m);
        }))
    | inr not_ack ↦ rw not_ack (elim (Bool-cases (b == nack_resp)) [
      | inl is_nack ↦ rw is_nack (
          returned (record {
            sound = Sound-with_error nak write_answered_with_nak (IsValid-IsLive m.live) refl;
            not_ok = λ e. cc;
            has_field = λ _. has_field;
            answered = λ _.
                rw (← (==_iff b nack_resp).0 is_nack) (Exchanged-Moved write_answered_with_nak m);
          }))
      | inr invalid ↦ rw invalid (
          returned (
            WritePost-error _
              (Sound-with_error error (invalid_response_to_write b) (IsValid-IsLive m.live) refl)))
    ])
  ]

  write_answer-Returns :
      (s₁ : State BusCore)
      → Moved
          (write_frame s.core address bytes locked)
          []
          (overwrite s.core.address_shadow (given s.core address))
          s
          s₁
      → Filled 1 s₁ s'
      → Returns
          (WritePost address bytes locked s)
          (and_then (load_byte s'.core.buffer s') write_status)
  write_answer-Returns s₁ m f = go f.got f.length_got f.buffer f.moved
    where
      frame : List ℕ
      frame = write_frame s.core address bytes locked

      shadow : Option (List ℕ)
      shadow = overwrite s.core.address_shadow (given s.core address)

      go :
          (got : List ℕ)
          → length got ≡ 1
          → s'.core.buffer ≡ some (got ++ f.behind)
          → Moved [] got s₁.core.address_shadow s₁ s'
          → Returns
              (WritePost address bytes locked s)
              (and_then (load_byte s'.core.buffer s') write_status)
      go [] one at m' = absurd (omega arith)
      go (b ∷ []) one at m' = rw (load_byte-eq s'.core.buffer b f.behind at) (
          write_status-Returns b
            (subst (λ l. Moved l (b ∷ []) shadow s s') (append-nil frame) (Moved-trans m m')))
      go (b ∷ c ∷ got) one at m' = absurd (omega arith)

module _ (os : Os) (fuel : ℕ) (quiet : IsQuiet os fuel) where
  -- For an operating system that drains within the fuel after a shutdown, and on a valid handle
  -- with enough bytes of address and data, IpdbgBusAccess_write_ctrllock returns without a bad
  -- memory access. It leaves a valid handle, and the last error is empty exactly for RET_ACK. For
  -- RET_ACK and RET_NAK the bytes sent are the address if the shadow differs, the command for the
  -- lock and the escaped data, the one byte read is the acknowledgement or the refusal, and the
  -- shadow has the address.
  pub write_ctrllock-WritePost :
      (address bytes : List ℕ) (locked : Bool) (s : State BusCore)
      → IsValid s
      → s.core.sizes.address_width_bytes ≤ length address
      → s.core.sizes.write_data_width_bytes ≤ length bytes
      → Returns
          (WritePost address bytes locked s)
          (write_ctrllock os fuel this address bytes locked s)
  unfolding write_ctrllock write_frame
  write_ctrllock-WritePost address bytes locked s v has_address has_data =
      begin-Returns s _ v
        (λ l.
          reject_if-Returns _ no_write_data s₀ _ refl l
            (λ has_field.
              then_rule (set_address-Step os fuel quiet address has_address l)
                (λ s₁ m₁.
                  then_rule (send_command-Step os fuel quiet (write_command locked) m₁.live)
                    (λ s₂ m₂.
                      then_rule (send_with_escaping-Step os fuel quiet bytes _ has_data m₂.live)
                        (λ s₃ m₃.
                          then_rule (receive_to_buffer-Filled os fuel quiet 1 (omega arith) m₃.live)
                            (λ s₄ f.
                              write_answer-Returns address bytes locked s s₄ has_field s₃
                                (Moved-begin s blank (Moved-trans m₁ (Moved-trans m₂ m₃))) f)
                            failed)
                        failed)
                    failed)
                failed)
            failed)
        failed
    where
      s₀ : State BusCore
      s₀ = with_error s blank

      failed : (s' : State BusCore) → Sound error s' → WritePost address bytes locked s error s'
      failed s' sound = WritePost-error s' sound
