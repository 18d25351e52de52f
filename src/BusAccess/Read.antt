-- ===== src/BusAccess/Read.antt =====
-- IpdbgBusAccess_read_ctrllock: what is sent, what the status says, and the data.
use ipdbg.Prelude.{
  ℕ, ◌+◌, ◌≤◌, ◌≡◌, ◌≢◌, refl, ◌∙◌, Bool, true, false, Option, none, some, List, [], ◌∷◌, ◌++◌,
  arith, length, ◌==◌, ==_iff, if◌then◌else◌, inl, inr, take?-append, Bool-cases,
}
use mathlib.Core.Path.{fun_ext}
use ipdbg.Os.{Os, IsQuiet}
use ipdbg.Command.{
  Ret, error, ok, nak, ack, is_ok, this, State, pure, with_error, blank, no_read_data,
  read_answered_with_nak, invalid_response_to_read,
}
use ipdbg.Link.Returns.{Returns, returned, Outcome, then_rule, bind_rule, weaken}
use ipdbg.BusAccess.Core.{
  Sizes, BusCore, overwrite, load, load_at, read_cmd_lock, read_cmd_unlock, ack_resp, nack_resp,
  get_buffe_size,
}
use ipdbg.BusAccess.Access.{request_read, read_answer, read_ctrllock, read_status}
use ipdbg.BusAccess.Invariant.{
  IsValid, IsValid-IsLive, Sound-with_error, Sound, Moved, Moved-trans, Moved-begin,
  get_buffe_size_bounds,
}
use ipdbg.BusAccess.Steps.{
  begin-Returns, reject_if-Returns, send_command-Step, Filled, receive_to_buffer-Filled,
}
use ipdbg.BusAccess.Exchange.{is_answer, status_byte, Exchanged, Exchanged-Moved, load_byte-eq}
use ipdbg.BusAccess.Address.{given, address_frame, set_address-Step}

abbrev pub read_command : Bool → ℕ
read_command locked = if locked then read_cmd_lock else read_cmd_unlock

-- The bytes of a read access: the address if it is new, and the command.
unfoldable pub read_frame : BusCore → List ℕ → Bool → List ℕ
read_frame c address locked = address_frame c address ++ (read_command locked ∷ [])

-- An answer is the status and the data, which is what the caller gets.
pub record ReadAnswered (address : List ℕ) (locked : Bool) (s : State BusCore) (r : Ret)
    (result : Option (List ℕ)) (s' : State BusCore) : Type 0 where
  pub bytes : List ℕ
  pub length_bytes : length bytes ≡ s.core.sizes.read_data_width_bytes
  pub stored : result ≡ some bytes
  pub has_field : (s.core.sizes.read_data_width_bytes == 0) ≡ false
  pub exchanged :
      Exchanged
        (read_frame s.core address locked)
        (status_byte r ∷ bytes)
        (overwrite s.core.address_shadow (given s.core address))
        s
        s'

pub record ReadPost (address : List ℕ) (locked : Bool) (s : State BusCore)
    (result : Ret × Option (List ℕ)) (s' : State BusCore) : Type 0 where
  pub sound : Sound result.0 s'
  pub not_ok : result.0 ≢ ok
  pub unanswered : is_answer result.0 ≡ false → result.1 ≡ none
  pub answered : is_answer result.0 ≡ true → ReadAnswered address locked s result.0 result.1 s'

ReadPost-error :
    {address : List ℕ} {locked : Bool} {s : State BusCore} (s' : State BusCore)
    → Sound error s'
    → ReadPost address locked s (error, none) s'
ReadPost-error s' sound = record {
  sound = sound;
  not_ok = λ e. cc;
  unanswered = λ e. refl;
  answered = λ e. cc;
}

-- The buffer is read back from its start.
load_filled :
    (pointer : Option (List ℕ)) (got rest : List ℕ) (n : ℕ)
    → pointer ≡ some (got ++ rest)
    → length got ≡ n
    → load_at pointer n ≡ pure got
unfolding load_at load
load_filled pointer got rest n at count =
    rw (at, ← count) (fun_ext λ s. rw (take?-append got rest, load))

-- The request has been answered into the buffer.
record Requested (address : List ℕ) (locked : Bool) (s s' : State BusCore) : Type 0 where
  got : List ℕ
  length_got : length got ≡ s.core.sizes.read_data_width_bytes + 1
  moved :
      Moved
        (read_frame s.core address locked)
        got
        (overwrite s.core.address_shadow (given s.core address))
        s
        s'
  behind : List ℕ
  buffer : s'.core.buffer ≡ some (got ++ behind)
  has_field : (s.core.sizes.read_data_width_bytes == 0) ≡ false

module _ (address : List ℕ) (locked : Bool) (s s' : State BusCore) where
  read_answer-Returns :
      Requested address locked s s' → Returns (ReadPost address locked s) (read_answer s')
  unfolding read_answer read_status
  read_answer-Returns q = go q.got q.length_got q.buffer q.moved
    where
      go :
          (got : List ℕ)
          → length got ≡ s.core.sizes.read_data_width_bytes + 1
          → s'.core.buffer ≡ some (got ++ q.behind)
          → Moved
              (read_frame s.core address locked)
              got
              (overwrite s.core.address_shadow (given s.core address))
              s
              s'
          → Returns (ReadPost address locked s) (read_answer s')
      go [] count at m = absurd (omega arith)
      go (b ∷ bytes) count at m =
          rw (load_byte-eq s'.core.buffer b (bytes ++ q.behind) at)
            (elim (Bool-cases (b == ack_resp)) [
              | inl is_ack ↦
                  rw (is_ack, loaded)
                    (returned (record {
                      sound = record { valid = IsValid-IsLive m.live; reports = m.live.no_error };
                      not_ok = λ e. cc;
                      unanswered = λ e. cc;
                      answered = λ _. record {
                        bytes = bytes;
                        length_bytes = omega (arith, count);
                        stored = refl;
                        has_field = q.has_field;
                        exchanged =
                            rw (← (==_iff b ack_resp).0 is_ack) (Exchanged-Moved s'.last_error m);
                      };
                    }))
              | inr not_ack ↦ rw not_ack (elim (Bool-cases (b == nack_resp)) [
                | inl is_nack ↦
                    rw (is_nack, loaded)
                      (returned (record {
                        sound =
                            Sound-with_error nak read_answered_with_nak (IsValid-IsLive m.live)
                              refl;
                        not_ok = λ e. cc;
                        unanswered = λ e. cc;
                        answered = λ _. record {
                          bytes = bytes;
                          length_bytes = omega (arith, count);
                          stored = refl;
                          has_field = q.has_field;
                          exchanged =
                              rw (← (==_iff b nack_resp).0 is_nack)
                                (Exchanged-Moved read_answered_with_nak m);
                        };
                      }))
                | inr invalid ↦ rw invalid (
                    returned (
                      ReadPost-error _ (
                        Sound-with_error error (invalid_response_to_read b) (IsValid-IsLive m.live)
                          refl)))
              ])
            ])
        where
          loaded :
              load_at s'.core.buffer (s'.core.sizes.read_data_width_bytes + 1) ≡ pure (b ∷ bytes)
          loaded = load_filled s'.core.buffer (b ∷ bytes) q.behind _ at (rw m.sizes count)

module _ (os : Os) (fuel : ℕ) (quiet : IsQuiet os fuel) where
  request_read-Requested :
      (address : List ℕ) (locked : Bool) (s : State BusCore)
      → IsValid s
      → s.core.sizes.address_width_bytes ≤ length address
      → Returns
          (Outcome (Requested address locked s) (Sound error))
          (request_read os fuel this address locked s)
  unfolding request_read read_frame
  request_read-Requested address locked s v has_address =
      begin-Returns s _ v
        (λ l.
          reject_if-Returns _ no_read_data s₀ _ refl l
            (λ has_field.
              then_rule (set_address-Step os fuel quiet address has_address l)
                (λ s₁ m₁.
                  then_rule (send_command-Step os fuel quiet (read_command locked) m₁.live)
                    (λ s₂ m₂.
                      weaken
                        (receive_to_buffer-Filled os fuel quiet n (fits (m₂.sizes ∙ m₁.sizes))
                          m₂.live)
                        (requested has_field s₁ s₂ m₁ m₂))
                    failed)
                failed)
            failed)
        failed
    where
      s₀ : State BusCore
      s₀ = with_error s blank

      n : ℕ
      n = s.core.sizes.read_data_width_bytes + 1

      fits : {z : Sizes} → z ≡ s.core.sizes → n ≤ get_buffe_size z + 1
      fits same = rw same (omega (arith, (get_buffe_size_bounds s.core.sizes).1))

      requested :
          (has_field : (s.core.sizes.read_data_width_bytes == 0) ≡ false) (s₁ s₂ : State BusCore)
          → Moved
              (address_frame s.core address)
              []
              (overwrite s.core.address_shadow (given s.core address))
              s₀
              s₁
          → Moved (read_command locked ∷ []) [] s₁.core.address_shadow s₁ s₂
          → (r : Ret) (s' : State BusCore) → Outcome (Filled n s₂) (Sound error) r s'
          → Outcome (Requested address locked s) (Sound error) r s'
      requested has_field s₁ s₂ m₁ m₂ ok s' f = record {
        got = f.got;
        length_got = f.length_got;
        moved = Moved-begin s blank (Moved-trans m₁ (Moved-trans m₂ f.moved));
        behind = f.behind;
        buffer = f.buffer;
        has_field = has_field;
      }
      requested has_field s₁ s₂ m₁ m₂ error s' sound = sound
      requested has_field s₁ s₂ m₁ m₂ nak s' f = absurd f
      requested has_field s₁ s₂ m₁ m₂ ack s' f = absurd f

      failed : (s' : State BusCore) → Sound error s' → Sound error s'
      failed s' sound = sound

  -- For an operating system that drains within the fuel after a shutdown, and on a valid handle
  -- with enough bytes of address, IpdbgBusAccess_read_ctrllock returns without a bad memory
  -- access. It leaves a valid handle, and the last error is empty exactly for RET_ACK. For
  -- RET_ACK and RET_NAK the bytes sent are the address if the shadow differs and the command for
  -- the lock, the bytes read are the status and the data, and the result is that data. Without an
  -- answer nothing is stored.
  pub read_ctrllock-ReadPost :
      (address : List ℕ) (locked : Bool) (s : State BusCore)
      → IsValid s
      → s.core.sizes.address_width_bytes ≤ length address
      → Returns (ReadPost address locked s) (read_ctrllock os fuel this address locked s)
  unfolding read_ctrllock
  read_ctrllock-ReadPost address locked s v has_address =
      bind_rule (request_read-Requested address locked s v has_address) go
    where
      go :
          (r : Ret) (s' : State BusCore)
          → Outcome (Requested address locked s) (Sound error) r s'
          → Returns
              (ReadPost address locked s)
              ((if is_ok r then read_answer else pure (r, none)) s')
      go ok s' q = read_answer-Returns address locked s s' q
      go error s' sound = returned (ReadPost-error s' sound)
      go nak s' q = absurd q
      go ack s' q = absurd q
