-- ===== src/Cxx/Waveform/Written.antt =====
-- Writing samples through the class: all samples in their two's complement, or nothing.
use ipdbg.Prelude.{
  ℕ, suc, ◌+◌, ◌*◌, ◌/◌, ◌≤◌, ◌<◌, ◌≡◌, refl, true, false, some, List, ◌⊎◌, inl, inr, arith, length,
  ltb, Bool-cases, ap, ◌∙◌, sym, subst,
}
use ipdbg.Prelude.Int.{ℤ}
use ipdbg.Os.{Os, IsQuiet}
use ipdbg.Command.{
  Ret, error, ok, nak, ack, is_none, State, this, with_error, blank, done, not_connected,
}
use ipdbg.Link.{reject_if, get_last_error}
use ipdbg.Link.Returns.{Returns, returned, Outcome}
use ipdbg.WaveformGenerator.Core
use ipdbg.WaveformGenerator.Core.{WfgCore, round_up}
use ipdbg.WaveformGenerator.Connection.{begin}
use ipdbg.Link as Link
use ipdbg.WaveformGenerator.Session.{get_data_width, get_max_samples}
use ipdbg.WaveformGenerator.Invariant.{IsSized, IsValid, Failed}
use ipdbg.WaveformGenerator.Waiting.{ReportsAtMost}
use ipdbg.WaveformGenerator.Buffer.{IsBounded}
use ipdbg.WaveformGenerator.Written.{Written, write-Written}
use ipdbg.WaveformGenerator.Writing
use ipdbg.Cxx.{
  Thrown, Result, value, thrown, call, ◌>>=◌, if_value, check_result, last_error, call_rule,
  last_error_text,
}
use ipdbg.Cxx.Bus.Written.{is_value}
use ipdbg.Cxx.Waveform.{data_width, max_samples, is_empty, write}
use ipdbg.Cxx.Waveform.Samples.{
  IsInt64, InRange, All, Encodes, Encoded, min_value-eq, encode_loop-Encoded,
}

data_width-eq :
    (s : State WfgCore)
    → is_none s.socket ≡ false
    → data_width s ≡ done (value s.core.data_width) (with_error s blank)
unfolding data_width get_data_width begin Link.begin reject_if
data_width-eq s opened = rw opened refl

-- Without a connection the first query fails.
data_width-closed :
    (s : State WfgCore)
    → is_none s.socket ≡ true
    → data_width s ≡ done (thrown (last_error_text not_connected)) (with_error s not_connected)
unfolding data_width get_data_width begin Link.begin reject_if last_error get_last_error
    check_result
data_width-closed s closed = rw closed refl

max_samples-eq :
    (s : State WfgCore)
    → is_none s.socket ≡ false
    → max_samples s ≡ done (value (Core.max_samples s.core)) (with_error s blank)
unfolding max_samples get_max_samples begin Link.begin reject_if
max_samples-eq s opened = rw opened refl

pub record SamplesWritten (samples : List ℤ) (s : State WfgCore) (result : Result (Unit {0}))
    (s' : State WfgCore) : Type 0 where
  pub valid : IsValid s'
  pub refused :
      (is_none s.socket ≡ true)
        ⊎ (64 < s.core.data_width)
        ⊎ (Core.max_samples s.core < length samples)
        ⊎ (All (InRange s.core.data_width) samples → ⊥)
      → (is_value result ≡ false) × (s'.trace ≡ s.trace)
  pub written :
      is_value result ≡ true
      → (buffer : List ℕ) × Encodes s.core.data_width ((s.core.data_width + 7) / 8) buffer samples
        × Written buffer (length samples) s s'

rejected :
    (samples : List ℤ) (s : State WfgCore) (e : Thrown)
    → IsValid s
    → SamplesWritten samples s (thrown e) (with_error s blank)
rejected samples s e v = record { valid = v; refused = λ _. (refl, refl); written = λ h. cc }

bytes_enough : (bits : ℕ) → bits ≤ (bits + 7) / 8 * 8
bytes_enough bits = omega arith

round_up-narrow : (bits : ℕ) → bits ≤ 64 → round_up bits ≡ (bits + 7) / 8
unfolding round_up
round_up-narrow bits h = omega arith

module _ (os : Os) (fuel : ℕ) (quiet : IsQuiet os fuel) (limit rounds : ℕ)
    (few : ReportsAtMost os limit) (enough : limit ≤ rounds) where
  -- The call of the library with all the samples encoded.
  sending-Written :
      (samples : List ℤ) (buffer : List ℕ) (s : State WfgCore)
      → IsValid s
      → IsBounded s.core
      → is_none s.socket ≡ false
      → s.core.data_width ≤ 64
      → (Core.max_samples s.core < length samples → ⊥)
      → Encoded s.core.data_width ((s.core.data_width + 7) / 8) samples (value buffer)
      → Returns (SamplesWritten samples s) (
          (call (Writing.write os fuel (suc rounds) this (some buffer) (length samples))
              >>= check_result)
            (with_error s blank))
  unfolding check_result last_error get_last_error
  sending-Written samples buffer s v b opened narrow few_samples (all, encodes, counted) =
      call_rule
        (write-Written os fuel quiet limit rounds buffer (length samples) (with_error s blank) few
          enough v b (omega (arith, counted, ap (λ (k : ℕ). length samples * k) bytes)))
        finish
    where
      bytes : s.core.data_width_bytes ≡ (s.core.data_width + 7) / 8
      bytes = (v opened).data_width_bytes ∙ round_up-narrow s.core.data_width narrow

      no :
          (is_none s.socket ≡ true)
            ⊎ (64 < s.core.data_width)
            ⊎ (Core.max_samples s.core < length samples)
            ⊎ (All (InRange s.core.data_width) samples → ⊥)
          → ⊥
      no (inl closed) = cc
      no (inr (inl wide)) = omega arith
      no (inr (inr (inl many))) = few_samples many
      no (inr (inr (inr outside))) = outside all

      finish :
          (r : Ret) (s' : State WfgCore)
          → Outcome (Written buffer (length samples) (with_error s blank)) Failed r s'
          → Returns (SamplesWritten samples s) (check_result r s')
      finish ok s' w = returned (record {
        valid = λ _. subst IsSized (sym w.kept) (v opened);
        refused = λ h. absurd (no h);
        written = λ h. (
          buffer,
          encodes,
          record {
            counted = w.counted;
            kept = w.kept;
            connected = w.connected;
            no_error = w.no_error;
            wire_grows = w.wire_grows;
            reports = w.reports;
            heard_grows = w.heard_grows;
          },
        );
      })
      finish error s' f =
          returned (record { valid = f.valid; refused = λ h. absurd (no h); written = λ h. cc })
      finish nak s' w = absurd w
      finish ack s' w = absurd w

  -- For an operating system that drains within the fuel after a shutdown and sends at most
  -- `limit` progress reports, on a valid handle with bounded widths, and for 64 bit samples, the
  -- C++ `write` returns when it may wait for more answers than that, and leaves a valid handle. A
  -- closed handle, more than 64 bits of data, too many samples or one outside of the range throws
  -- and sends nothing; if it does not throw, the whole frame of bytes that are the two's
  -- complement of each sample has been sent and the core has answered.
  pub write-SamplesWritten :
      (samples : List ℤ) (s : State WfgCore)
      → All IsInt64 samples
      → IsValid s
      → IsBounded s.core
      → Returns (SamplesWritten samples s) (write os fuel (suc rounds) samples s)
  unfolding write
  write-SamplesWritten samples s int v b = elim (Bool-cases (is_none s.socket)) [
    | inl closed ↦
        rw (data_width-closed s closed)
          (returned (record { valid = v; refused = λ _. (refl, refl); written = λ h. cc }))
    | inr opened ↦ rw (data_width-eq s opened) (elim (Bool-cases (ltb 64 s.core.data_width)) [
      | inl wide ↦ rw wide (returned (rejected samples s _ v))
      | inr narrow ↦ rw narrow (elim (Bool-cases (is_empty samples)) [
        | inl none_given ↦ rw none_given (returned (rejected samples s _ v))
        | inr given ↦
            rw (given, max_samples-eq (with_error s blank) opened)
              (elim (Bool-cases (ltb (Core.max_samples s.core) (length samples))) [
                | inl many ↦ rw many (returned (rejected samples s _ v))
                | inr fits ↦
                    rw (fits, min_value-eq s.core.data_width (v opened).data_width)
                      (encoded opened narrow fits _ (
                        encode_loop-Encoded s.core.data_width _ samples (v opened).data_width
                          (ground (arith, narrow)) (bytes_enough s.core.data_width) int))
              ])
      ])
    ])
  ]
    where
      encoded :
          is_none s.socket ≡ false
          → ltb 64 s.core.data_width ≡ false
          → ltb (Core.max_samples s.core) (length samples) ≡ false
          → (r : Result (List ℕ))
          → Encoded s.core.data_width ((s.core.data_width + 7) / 8) samples r
          → Returns (SamplesWritten samples s) (
              if_value r
                (λ buffer.
                  call (Writing.write os fuel (suc rounds) this (some buffer) (length samples))
                  >>= check_result)
                (with_error s blank))
      encoded opened narrow fits (value buffer) e =
          sending-Written samples buffer s v b opened (ground (arith, narrow))
            (λ h. ground (arith, fits)) e
      encoded opened narrow fits (thrown e) outside =
          returned (record { valid = v; refused = λ _. (refl, refl); written = λ h. cc })
