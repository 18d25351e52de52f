-- ===== src/Cxx/Bus/Written.antt =====
-- A write through the class: the numbers fit their fields, or nothing is sent.
use ipdbg.Prelude.{
  ℕ, ◌^◌, ◌≤◌, ◌<◌, ◌≡◌, refl, Bool, true, false, Option, List, [], ◌∷◌, ◌⊎◌, inl, inr, arith,
  length, ltb, ◌==◌, Bool-cases,
}
use ipdbg.Os.{Os, IsQuiet}
use ipdbg.Command.{Ret, error, ok, nak, ack, is_none, State, Message, this, with_error, blank}
use ipdbg.Link.{get_last_error}
use ipdbg.Link.Returns.{Returns, returned, weaken}
use ipdbg.BusAccess.Core.{BusCore, overwrite, ack_resp, round_up}
use ipdbg.BusAccess.Session.{BusAccessField, field_of}
use ipdbg.BusAccess.Invariant.{IsValid, IsReady}
use ipdbg.BusAccess.Exchange.{Exchanged, is_answer}
use ipdbg.BusAccess.Address.{given}
use ipdbg.BusAccess.Access.{write_ctrllock}
use ipdbg.BusAccess.Write
use ipdbg.BusAccess.Write.{write_frame, write_ctrllock-WritePost}
use ipdbg.Cxx.{
  FieldName, Thrown, Result, value, thrown, write_nak, write_failed, last_error, call, ◌>>=◌,
  call_rule,
}
use ipdbg.Cxx.Bytes.{digits, bytes_for_bits}
use ipdbg.Cxx.Bytes.RoundTrip.{
  little_endian, length-little_endian, to_bytes-eq, bytes_for_bits_bounds,
}
use ipdbg.Cxx.Bus.{write, check_answer}
use ipdbg.Cxx.Bus.Guards.{check_open-open, check_open-closed, get_size-eq}

abbrev pub is_value : {A : Type 0} → Result A → Bool
is_value (value a) = true
is_value (thrown e) = false

-- A number as the bytes that the class passes on for a field of `bits`.
abbrev pub field_bytes : ℕ → ℕ → List ℕ
field_bytes bits number = little_endian (bytes_for_bits bits) number

-- The access that the core has acknowledged.
abbrev pub Acknowledged : ℕ → ℕ → Bool → State BusCore → State BusCore → Type 0
Acknowledged address number locked s s' =
    let a = field_bytes s.core.sizes.address_width address in
    Exchanged (write_frame s.core a (field_bytes s.core.sizes.write_data_width number) locked)
      (ack_resp ∷ []) (overwrite s.core.address_shadow (given s.core a)) s s'

pub record Written (address number : ℕ) (locked : Bool) (s : State BusCore)
    (result : Result (Unit {0})) (s' : State BusCore) : Type 0 where
  pub valid : IsValid s'
  pub refused :
      (is_none s.socket ≡ true)
        ⊎ (2 ^ s.core.sizes.address_width ≤ address)
        ⊎ (2 ^ s.core.sizes.write_data_width ≤ number)
      → (is_value result ≡ false) × (s'.trace ≡ s.trace)
  pub has_field : is_value result ≡ true → (s.core.sizes.write_data_width_bytes == 0) ≡ false
  pub acknowledged : is_value result ≡ true → Acknowledged address number locked s s'

-- The errors on the handle do not matter to an access.
pub Exchanged-begin :
    {sent got : List ℕ} {shadow : Option (List ℕ)} (s s' : State BusCore)
    → Exchanged sent got shadow (with_error s blank) s'
    → Exchanged sent got shadow s s'
Exchanged-begin s s' e = record {
  connected = e.connected;
  sizes = e.sizes;
  shadowed = e.shadowed;
  wire_grows = e.wire_grows;
  heard_grows = e.heard_grows;
}

pub IsValid-begin : {s : State BusCore} → IsValid s → IsValid (with_error s blank)
IsValid-begin v = record { closed = v.closed; opened = v.opened }

-- The bytes are enough for the library.
pub field_bytes-enough :
    (bits bytes number : ℕ) → bytes ≡ round_up bits → bytes ≤ length (field_bytes bits number)
field_bytes-enough bits bytes number e =
    omega
      (arith, e, length-little_endian (bytes_for_bits bits) number, (bytes_for_bits_bounds bits).1)

-- Nothing has been sent, and nothing but the last error has changed.
rejected :
    (address number : ℕ) (locked : Bool) (s : State BusCore) (e : Thrown)
    → IsValid s
    → Written address number locked s (thrown e) (with_error s blank)
rejected address number locked s e v = record {
  valid = IsValid-begin v;
  refused = λ _. (refl, refl);
  has_field = λ h. cc;
  acknowledged = λ h. cc;
}

-- How the class reports what the library returns for an access.
pub data Answered (refused : Thrown) (failed : Message → Thrown)
    : Ret → Result (Unit {0}) → Type 0 where
  acknowledged : Answered refused failed ack (value tt)
  refusal : Answered refused failed nak (thrown refused)
  failure :
      (r : Ret) (m : Message) → is_answer r ≡ false → Answered refused failed r (thrown (failed m))

pub check_answer-Answered :
    (r : Ret) (refused : Thrown) (failed : Message → Thrown) (s : State BusCore)
    → Returns
        (λ result s'. Answered refused failed r result × (s' ≡ s))
        (check_answer r refused failed s)
unfolding check_answer last_error get_last_error
check_answer-Answered ack refused failed s = returned (acknowledged, refl)
check_answer-Answered nak refused failed s = returned (refusal, refl)
check_answer-Answered error refused failed s = returned (failure error s.last_error refl, refl)
check_answer-Answered ok refused failed s = returned (failure ok s.last_error refl, refl)

module _ (os : Os) (fuel : ℕ) (quiet : IsQuiet os fuel) where
  -- The access itself, once the numbers are known to fit.
  access-Written :
      (address number : ℕ) (locked : Bool) (s : State BusCore)
      → IsValid s
      → is_none s.socket ≡ false
      → address < 2 ^ s.core.sizes.address_width
      → number < 2 ^ s.core.sizes.write_data_width
      → (refused : Thrown) (failed : Message → Thrown)
      → Returns (Written address number locked s) (
          (call (
                write_ctrllock os fuel this
                  (field_bytes s.core.sizes.address_width address)
                  (field_bytes s.core.sizes.write_data_width number)
                  locked)
              >>= λ r. check_answer r refused failed)
            (with_error s blank))
  access-Written address number locked s v opened fits_address fits_number refused failed =
      call_rule
        (write_ctrllock-WritePost os fuel quiet (field_bytes s.core.sizes.address_width address)
          (field_bytes s.core.sizes.write_data_width number) locked (with_error s blank)
          (IsValid-begin v) (field_bytes-enough _ _ address ready.rounded.address)
          (field_bytes-enough _ _ number ready.rounded.write_data))
        λ r s₁ p. weaken (check_answer-Answered r refused failed s₁) (reported r s₁ p)
    where
      ready : IsReady s.core
      ready = v.opened opened

      no :
          (is_none s.socket ≡ true)
            ⊎ (2 ^ s.core.sizes.address_width ≤ address)
            ⊎ (2 ^ s.core.sizes.write_data_width ≤ number)
          → ⊥
      no (inl closed) = cc
      no (inr (inl big)) = omega arith
      no (inr (inr big)) = omega arith

      reported :
          (r : Ret) (s₁ : State BusCore)
          → Write.WritePost
              (field_bytes s.core.sizes.address_width address)
              (field_bytes s.core.sizes.write_data_width number)
              locked
              (with_error s blank)
              r
              s₁
          → (result : Result (Unit {0})) (s' : State BusCore)
          → Answered refused failed r result × (s' ≡ s₁)
          → Written address number locked s result s'
      reported r s₁ p result s' (acknowledged, same) = rw same (record {
        valid = p.sound.valid;
        refused = λ h. absurd (no h);
        has_field = λ _. p.has_field refl;
        acknowledged = λ _. Exchanged-begin s s₁ (p.answered refl);
      })
      reported r s₁ p result s' (refusal, same) = rw same (record {
        valid = p.sound.valid;
        refused = λ h. absurd (no h);
        has_field = λ h. cc;
        acknowledged = λ h. cc;
      })
      reported r s₁ p result s' (failure _ m unanswered, same) = rw same (record {
        valid = p.sound.valid;
        refused = λ h. absurd (no h);
        has_field = λ h. cc;
        acknowledged = λ h. cc;
      })

  pub write-Written :
      (a d address number : ℕ) (locked : Bool) (s : State BusCore)
      → address < 2 ^ digits a
      → number < 2 ^ digits d
      → IsValid s
      → Returns (Written address number locked s) (write os fuel a d address number locked s)
  unfolding write field_of
  write-Written a d address number locked s small_address small_number v =
      elim (Bool-cases (is_none s.socket)) [
        | inl closed ↦ rw (check_open-closed s closed) (
            returned (record {
              valid = v;
              refused = λ _. (refl, refl);
              has_field = λ h. cc;
              acknowledged = λ e. cc;
            }))
        | inr opened ↦
            rw (check_open-open s opened, get_size-eq BusAccessField.write_data s opened)
              (elim (Bool-cases (s.core.sizes.write_data_width == 0)) [
                | inl absent ↦ rw absent (returned (rejected address number locked s _ v))
                | inr present ↦
                    rw
                      (
                        present,
                        get_size-eq BusAccessField.address (with_error s blank) opened,
                        to_bytes-eq a address s.core.sizes.address_width FieldName.address
                            small_address,
                      )
                      (elim (Bool-cases (ltb address (2 ^ s.core.sizes.address_width))) [
                        | inr big ↦ rw big (returned (rejected address number locked s _ v))
                        | inl fits ↦
                            rw
                              (
                                fits,
                                to_bytes-eq d number s.core.sizes.write_data_width
                                    FieldName.write_data small_number,
                              )
                              (elim (Bool-cases (ltb number (2 ^ s.core.sizes.write_data_width))) [
                                | inr big ↦ rw big (returned (rejected address number locked s _ v))
                                | inl holds ↦ rw holds (
                                    access-Written address number locked s v opened
                                      (ground (arith, fits)) (ground (arith, holds))
                                      (write_nak address) (λ m. write_failed address m))
                              ])
                      ])
              ])
      ]
