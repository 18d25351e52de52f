-- ===== src/WaveformGenerator/Written.antt =====
-- IpdbgWaveformGenerator_write as a whole.
use ipdbg.Prelude.{
  ℕ, suc, ◌*◌, ◌/◌, ◌^◌, ◌||◌, ◌≤◌, ◌<◌, ◌≡◌, refl, ap, ◌∙◌, sym, subst, true, false, some, List,
  [], ◌∷◌, ◌++◌, arith, ltb, length, replicate, ◌==◌, inl, inr, Bool-cases,
}
use ipdbg.Os.{Os, IsQuiet, wire, heard, did_malloc}
use ipdbg.Command.{
  Ret, error, ok, nak, ack, this, is_none, is_blank, blank, Handle, State, with_error, with_trace,
}
use ipdbg.Link.{os_malloc, reject_if}
use ipdbg.Link.Returns.{Returns, returned, Outcome, then_rule, weaken}
use ipdbg.Link.Sending.{SendPost, Sent, send-Sent}
use ipdbg.WaveformGenerator.Core.{
  WfgCore, wfg_env, max_samples, write_progress_resp, write_done_resp,
}
use ipdbg.WaveformGenerator.Connection.{send}
use ipdbg.WaveformGenerator.Writing.{
  room_for_samples, buffer_bytes, frame, write, check_count, send_samples,
}
use ipdbg.WaveformGenerator.Invariant.{IsSized, IsValid, Failed, Failed-Broken, begin-Returns}
use ipdbg.WaveformGenerator.Waiting.{ReportsAtMost, Waited, wait_done-Waited}
use ipdbg.WaveformGenerator.Buffer.{
  IsBounded, round_up_pos, round_up_lt, divide-eq, stays_inside-eq, Counted,
}

-- All the samples have been sent, and the core has reported the end.
pub record Written (samples : List ℕ) (count : ℕ) (s s' : State WfgCore) : Type 0 where
  pub counted : Counted s.core count
  pub kept : s'.core ≡ s.core
  pub connected : is_none s'.socket ≡ false
  pub no_error : is_blank s'.last_error ≡ true
  pub wire_grows : wire s'.trace ≡ wire s.trace ++ frame s.core samples count
  pub reports : ℕ
  pub heard_grows :
      heard s'.trace
      ≡ heard s.trace ++ (replicate reports write_progress_resp ++ (write_done_resp ∷ []))

module _ (os : Os) (fuel : ℕ) where
  check_count-Counted :
      (count : ℕ) (s : State WfgCore)
      → IsValid s
      → IsBounded s.core
      → is_none s.socket ≡ false
      → Returns
          (Outcome (λ s'. (s' ≡ s) × Counted s.core count) Failed)
          (check_count os fuel count s)
  unfolding check_count reject_if
  check_count-Counted count s v b opened =
      elim (Bool-cases (count == 0 || ltb (max_samples s.core) count)) [
        | inl refused ↦ rw refused (returned (record { reported = refl; valid = v }))
        | inr counted ↦
            rw (counted, divide-eq room s.core.data_width_bytes positive)
              (elim (Bool-cases (ltb (room / s.core.data_width_bytes) count)) [
                | inl refused ↦ rw refused (returned (record { reported = refl; valid = v }))
                | inr fits ↦ rw fits (
                    returned (
                      refl,
                      record {
                        some_samples = ground (arith, counted);
                        in_memory = ground (arith, counted);
                        in_buffer = ground (arith, fits);
                      },
                    ))
              ])
      ]
    where
      room : ℕ
      room = room_for_samples s.core.address_width_bytes

      positive : 1 ≤ s.core.data_width_bytes
      positive =
          rw (v opened).data_width_bytes
            (round_up_pos s.core.data_width (v opened).data_width b.data_width)

  -- Without memory for the buffer nothing is sent.
  send_samples-Sent :
      (quiet : IsQuiet os fuel) (samples : List ℕ) (count : ℕ) (s : State WfgCore)
      → IsValid s
      → is_none s.socket ≡ false
      → Counted s.core count
      → count * s.core.data_width_bytes ≤ length samples
      → Returns
          (Outcome (Sent (wfg_env os fuel) (frame s.core samples count) s) Failed)
          (send_samples os fuel samples count s)
  unfolding send_samples os_malloc wfg_env reject_if send
  send_samples-Sent quiet samples count s v opened c given =
      elim (Bool-cases (os.malloc s.trace n)) [
        | inr refused ↦ rw refused (returned (record { reported = refl; valid = v }))
        | inl allocated ↦
            rw (allocated, stays_inside-eq s.core samples count narrow c.in_buffer given)
              (weaken (send-Sent (wfg_env os fuel) quiet (frame s.core samples count) s₁) go)
      ]
    where
      n : ℕ
      n = buffer_bytes s.core count

      s₁ : State WfgCore
      s₁ = with_trace s (did_malloc n true ∷ s.trace)

      narrow : s.core.address_width_bytes < 2 ^ 32
      narrow = rw (v opened).address_width_bytes (round_up_lt s.core.address_width)

      go :
          (r : Ret) (s' : State WfgCore)
          → SendPost (wfg_env os fuel) (frame s.core samples count) s₁ r s'
          → Outcome (Sent (wfg_env os fuel) (frame s.core samples count) s) Failed r s'
      go ok s' p = record {
        handle = p.handle;
        wire_grows = p.wire_grows;
        heard_kept = p.heard_kept;
      }
      go error s' p = Failed-Broken os fuel s.handle s' v p.broken
      go nak s' p = absurd p
      go ack s' p = absurd p

  -- For an operating system that drains within the fuel after a shutdown and sends at most
  -- `limit` progress reports, on a valid handle with bounded widths and with all the samples,
  -- IpdbgWaveformGenerator_write returns when it may wait for more answers than that, without a
  -- division by zero or a bad memory access. After RET_OK the count has passed the guards, the
  -- whole frame has been sent, and the core has answered progress reports and the report of the
  -- end; after RET_ERROR the handle is valid and has an error.
  pub write-Written :
      (quiet : IsQuiet os fuel) (limit rounds : ℕ) (samples : List ℕ) (count : ℕ)
      (s : State WfgCore)
      → ReportsAtMost os limit
      → limit ≤ rounds
      → IsValid s
      → IsBounded s.core
      → count * s.core.data_width_bytes ≤ length samples
      → Returns
          (Outcome (Written samples count s) Failed)
          (write os fuel (suc rounds) this (some samples) count s)
  unfolding write
  write-Written quiet limit rounds samples count s few enough v b given =
      begin-Returns s _ v
        (λ opened.
          then_rule (check_count-Counted count s₀ v b opened)
            (λ s₁ (at, c).
              then_rule (sending s₁ at opened c)
                (λ s₂ p.
                  weaken
                    (wait_done-Waited os fuel quiet limit rounds s₂ few (omega (arith, enough)) (
                      subst (λ (h : Handle WfgCore). is_none h.socket ≡ false → IsSized h.core)
                        (sym p.handle) v))
                    (finish opened c s₂ p))
                failed)
            failed)
        failed
    where
      s₀ : State WfgCore
      s₀ = with_error s blank

      failed : (s' : State WfgCore) → Failed s' → Failed s'
      failed s' f = f

      sending :
          (s₁ : State WfgCore)
          → s₁ ≡ s₀
          → is_none s.socket ≡ false
          → Counted s.core count
          → Returns
              (Outcome (Sent (wfg_env os fuel) (frame s.core samples count) s₀) Failed)
              (send_samples os fuel samples count s₁)
      sending s₁ at opened c = rw at (send_samples-Sent quiet samples count s₀ v opened c given)

      finish :
          is_none s.socket ≡ false
          → Counted s.core count
          → (s₂ : State WfgCore) → Sent (wfg_env os fuel) (frame s.core samples count) s₀ s₂
          → (r : Ret) (s' : State WfgCore) → Outcome (Waited s₂) Failed r s'
          → Outcome (Written samples count s) Failed r s'
      finish opened c s₂ p ok s' w =
          let same : s'.handle ≡ s₀.handle = w.handle ∙ p.handle in
          record {
            counted = c;
            kept = ap (λ (h : Handle WfgCore). h.core) same;
            connected = ap (λ (h : Handle WfgCore). is_none h.socket) same ∙ opened;
            no_error = ap (λ (h : Handle WfgCore). is_blank h.last_error) same;
            wire_grows = w.wire_kept ∙ p.wire_grows;
            reports = w.reports;
            heard_grows =
                w.heard_grows
                ∙ ap (λ l. l ++ (replicate w.reports write_progress_resp ++ (write_done_resp ∷ [])))
                    p.heard_kept;
          }
      finish opened c s₂ p error s' f = f
      finish opened c s₂ p nak s' w = absurd w
      finish opened c s₂ p ack s' w = absurd w
