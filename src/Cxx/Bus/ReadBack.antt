-- ===== src/Cxx/Bus/ReadBack.antt =====
-- A read through the class: the number that comes back, or nothing is sent.
use ipdbg.Prelude.{
  ℕ, zero, suc, ◌%◌, ◌^◌, ◌≤◌, ◌<◌, ◌≡◌, refl, Bool, true, false, Option, some, List, [], ◌∷◌, ◌⊎◌,
  inl, inr, arith, length, drop, replicate, length-replicate, append-nil, ltb, ◌==◌, Bool-cases,
  ◌∙◌, sym,
}
use ipdbg.Os.{Os, IsQuiet}
use ipdbg.Command.{Ret, error, ok, nak, ack, is_none, State, Message, this, with_error, blank}
use ipdbg.Link.{get_last_error}
use ipdbg.Link.Returns.{Returns, returned}
use ipdbg.BusAccess.Core.{BusCore, overwrite, ack_resp, round_up}
use ipdbg.BusAccess.Session.{BusAccessField, field_of}
use ipdbg.BusAccess.Invariant.{IsValid, IsReady}
use ipdbg.BusAccess.Exchange.{Exchanged}
use ipdbg.BusAccess.Address.{given}
use ipdbg.BusAccess.Access.{read_ctrllock}
use ipdbg.BusAccess.Read.{read_frame, ReadPost, ReadAnswered, read_ctrllock-ReadPost}
use ipdbg.Cxx.{
  FieldName, Thrown, Result, value, thrown, read_nak, read_failed, last_error, ◌>>=◌, ◌>>◌, call,
  lift, returns, call_rule,
}
use ipdbg.Cxx.Bytes.{digits, bytes_for_bits, from_bytes}
use ipdbg.Cxx.Bytes.RoundTrip.{value_of, to_bytes-eq, from_bytes-eq}
use ipdbg.Cxx.Bus.{read, check_answer, stored}
use ipdbg.Cxx.Bus.Guards.{check_open-open, check_open-closed, get_size-eq}
use ipdbg.Cxx.Bus.Written.{
  is_value, field_bytes, field_bytes-enough, Exchanged-begin, IsValid-begin,
}

-- The access that the core has acknowledged, and the number that its data stand for.
pub record ReadValue (address : ℕ) (locked : Bool) (s : State BusCore) (number : ℕ)
    (s' : State BusCore) : Type 0 where
  pub bytes : List ℕ
  pub length_bytes : length bytes ≡ s.core.sizes.read_data_width_bytes
  pub has_field : (s.core.sizes.read_data_width_bytes == 0) ≡ false
  pub number_is : number ≡ value_of bytes % 2 ^ s.core.sizes.read_data_width
  pub exchanged :
      Exchanged
        (read_frame s.core (field_bytes s.core.sizes.address_width address) locked)
        (ack_resp ∷ bytes)
        (overwrite s.core.address_shadow
          (given s.core (field_bytes s.core.sizes.address_width address)))
        s
        s'

pub record ReadBack (d address : ℕ) (locked : Bool) (s : State BusCore) (result : Result ℕ)
    (s' : State BusCore) : Type 0 where
  pub valid : IsValid s'
  pub refused :
      (is_none s.socket ≡ true)
        ⊎ (2 ^ s.core.sizes.address_width ≤ address)
        ⊎ (digits d < s.core.sizes.read_data_width)
      → (is_value result ≡ false) × (s'.trace ≡ s.trace)
  pub back : (number : ℕ) → result ≡ value number → ReadValue address locked s number s'

rejected :
    (d address : ℕ) (locked : Bool) (s : State BusCore) (e : Thrown)
    → IsValid s
    → ReadBack d address locked s (thrown e) (with_error s blank)
rejected d address locked s e v = record {
  valid = IsValid-begin v;
  refused = λ _. (refl, refl);
  back = λ n h. cc;
}

drop-all : (n : ℕ) (xs : List ℕ) → length xs ≤ n → drop n xs ≡ []
drop-all zero [] h = refl
drop-all zero (x ∷ xs) h = absurd (omega arith)
drop-all (suc n) [] h = refl
drop-all (suc n) (x ∷ xs) h = drop-all n xs (omega arith)

-- The library fills the buffer of the class.
stored-full :
    (bytes buffer : List ℕ)
    → length bytes ≡ length buffer
    → stored buffer (some bytes) ≡ returns bytes
unfolding stored
stored-full bytes buffer same =
    rw (drop-all (length bytes) buffer (omega arith), append-nil bytes) (ground (arith, same))

round_up-narrow : (bits : ℕ) → bits ≤ 64 → round_up bits ≡ bytes_for_bits bits
unfolding round_up bytes_for_bits
round_up-narrow bits h = omega arith

module _ (os : Os) (fuel : ℕ) (quiet : IsQuiet os fuel) where
  -- The access itself, once the number and the type are known to fit.
  access-ReadBack :
      (d address : ℕ) (locked : Bool) (s : State BusCore)
      → d ≤ 8
      → IsValid s
      → is_none s.socket ≡ false
      → address < 2 ^ s.core.sizes.address_width
      → s.core.sizes.read_data_width ≤ digits d
      → (refused : Thrown) (failed : Message → Thrown)
      → Returns (ReadBack d address locked s) (
          (call (read_ctrllock os fuel this (field_bytes s.core.sizes.address_width address) locked)
              >>= λ (ret, result).
                  stored (replicate (bytes_for_bits s.core.sizes.read_data_width) 0) result
                  >>= λ buffer.
                      check_answer ret refused failed
                      >> lift (from_bytes d buffer s.core.sizes.read_data_width))
            (with_error s blank))
  unfolding check_answer last_error get_last_error stored
  access-ReadBack d address locked s small v opened fits holds refused failed =
      call_rule
        (read_ctrllock-ReadPost os fuel quiet (field_bytes s.core.sizes.address_width address)
          locked (with_error s blank) (IsValid-begin v)
          (field_bytes-enough _ _ address ready.rounded.address))
        λ (r, result) s' p. reported r result s' p
    where
      ready : IsReady s.core
      ready = v.opened opened

      w : ℕ
      w = s.core.sizes.read_data_width

      no :
          (is_none s.socket ≡ true)
            ⊎ (2 ^ s.core.sizes.address_width ≤ address)
            ⊎ (digits d < s.core.sizes.read_data_width)
          → ⊥
      no (inl closed) = cc
      no (inr (inl big)) = omega arith
      no (inr (inr big)) = omega arith

      counted :
          {r : Ret} {result : Option (List ℕ)} {s' : State BusCore}
          → (a : ReadAnswered
              (field_bytes s.core.sizes.address_width address)
              locked
              (with_error s blank)
              r
              result
              s')
          → length a.bytes ≡ bytes_for_bits w
      counted a = a.length_bytes ∙ ready.rounded.read_data ∙ round_up-narrow w (omega arith)

      full :
          {r : Ret} {result : Option (List ℕ)} {s' : State BusCore}
          → (a : ReadAnswered
              (field_bytes s.core.sizes.address_width address)
              locked
              (with_error s blank)
              r
              result
              s')
          → length a.bytes ≡ length {A = ℕ} (replicate (bytes_for_bits w) 0)
      full a = counted a ∙ sym (length-replicate {A = ℕ} (bytes_for_bits w) 0)

      nothing :
          (s' : State BusCore) (e : Thrown) → IsValid s' → ReadBack d address locked s (thrown e) s'
      nothing s' e valid = record { valid = valid; refused = λ h. absurd (no h); back = λ n h. cc }

      reported :
          (r : Ret) (result : Option (List ℕ)) (s' : State BusCore)
          → ReadPost
              (field_bytes s.core.sizes.address_width address)
              locked
              (with_error s blank)
              (r, result)
              s'
          → Returns (ReadBack d address locked s) (
              (stored (replicate (bytes_for_bits w) 0) result >>= λ buffer.
              check_answer r refused failed >> lift (from_bytes d buffer w))
                s')
      reported ack result s' p =
          let a = p.answered refl in
          rw
            (
              a.stored,
              stored-full a.bytes (replicate (bytes_for_bits w) 0) (full a),
              from_bytes-eq d w a.bytes (counted a) holds,
            )
            (returned (record {
              valid = p.sound.valid;
              refused = λ h. absurd (no h);
              back = λ n h. record {
                bytes = a.bytes;
                length_bytes = a.length_bytes;
                has_field = a.has_field;
                number_is = cc h;
                exchanged = Exchanged-begin s s' a.exchanged;
              };
            }))
      reported nak result s' p =
          let a = p.answered refl in
          rw (a.stored, stored-full a.bytes (replicate (bytes_for_bits w) 0) (full a))
            (returned (nothing s' refused p.sound.valid))
      reported error result s' p =
          rw (p.unanswered refl) (returned (nothing s' (failed s'.last_error) p.sound.valid))
      reported ok result s' p = absurd (p.not_ok refl)

  -- For an operating system that drains within the fuel after a shutdown, on a valid handle, for
  -- data of up to eight bytes and an address of its type, the C++ `read` returns and leaves a
  -- valid handle. A closed handle, an address that is too big for its field, or data that the
  -- type cannot hold throws and sends nothing; a number that is returned is that of the bytes
  -- which the acknowledged access has read, without the bits beyond the width.
  pub read-ReadBack :
      (a d address : ℕ) (locked : Bool) (s : State BusCore)
      → d ≤ 8
      → address < 2 ^ digits a
      → IsValid s
      → Returns (ReadBack d address locked s) (read os fuel a d address locked s)
  unfolding read field_of
  read-ReadBack a d address locked s small small_address v = elim (Bool-cases (is_none s.socket)) [
    | inl closed ↦
        rw (check_open-closed s closed)
          (returned (record { valid = v; refused = λ _. (refl, refl); back = λ n e. cc }))
    | inr opened ↦
        rw (check_open-open s opened, get_size-eq BusAccessField.read_data s opened)
          (elim (Bool-cases (s.core.sizes.read_data_width == 0)) [
            | inl absent ↦ rw absent (returned (rejected d address locked s _ v))
            | inr present ↦
                rw
                  (
                    present,
                    get_size-eq BusAccessField.address (with_error s blank) opened,
                    to_bytes-eq a address s.core.sizes.address_width FieldName.address
                        small_address,
                  )
                  (elim (Bool-cases (ltb address (2 ^ s.core.sizes.address_width))) [
                    | inr big ↦ rw big (returned (rejected d address locked s _ v))
                    | inl fits ↦
                        rw fits (elim (Bool-cases (ltb (digits d) s.core.sizes.read_data_width)) [
                          | inl wide ↦ rw wide (returned (rejected d address locked s _ v))
                          | inr holds ↦ rw holds (
                              access-ReadBack d address locked s small v opened
                                (ground (arith, fits)) (ground (arith, holds)) (read_nak address)
                                (λ m. read_failed address m))
                        ])
                  ])
          ])
  ]
