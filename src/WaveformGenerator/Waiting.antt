-- ===== src/WaveformGenerator/Waiting.antt =====
-- The answers to IpdbgWaveformGenerator_write.
use ipdbg.Prelude.{
  ℕ, zero, suc, ◌+◌, ◌≤◌, ◌<◌, ◌≡◌, ◌≢◌, refl, ap, ◌∙◌, sym, false, List, [], ◌∷◌, ◌++◌, arith,
  subst, leb, get_or, replicate, ◌==◌, ==_iff, if◌then◌else◌, inl, inr, Bool-cases, append_assoc,
}
use ipdbg.Os.{
  Os, Socket, Trace, IsQuiet, wire, heard, RecvAnswer, got, recv_timed_out, recv_error, did_recv,
  did_fail, call_recv,
}
use ipdbg.Command.{
  Ret, error, ok, nak, ack, Message, connection_closed_by_peer, receive_failed, is_blank, State,
  with_trace, with_error, if_ok,
}
use ipdbg.Link
use ipdbg.Link.{receive_loop, reject_if}
use ipdbg.Link.Returns.{Returns, returned, Outcome, bind_rule, weaken}
use ipdbg.Link.Closing.{Broken-with_error, timeout-Broken}
use ipdbg.WaveformGenerator.Core.{WfgCore, wfg_env, write_progress_resp, write_done_resp}
use ipdbg.WaveformGenerator.Connection.{receive}
use ipdbg.WaveformGenerator.Writing.{wait_done, on_answer}
use ipdbg.WaveformGenerator.Invariant.{IsValid, Failed, Failed-Broken}

abbrev pub progress : List ℕ → ℕ
progress [] = 0
progress (b ∷ bytes) = if b == write_progress_resp then suc (progress bytes) else progress bytes

-- The core reports its progress a bounded number of times: after `limit` such bytes over a
-- connection the next byte is another.
abbrev pub ReportsAtMost : Os → ℕ → Type 0
ReportsAtMost os limit =
    (t : Trace) (fd : Socket) (rest : List ℕ)
    → limit ≤ progress (heard t)
    → os.recv t fd 1 ≢ got (write_progress_resp ∷ rest)

progress-append :
    (bytes : List ℕ) → progress (bytes ++ (write_progress_resp ∷ [])) ≡ suc (progress bytes)
progress-append [] = refl
progress-append (b ∷ bytes) = ground (arith, progress-append bytes)

-- The core has reported its progress.
abbrev reported : State WfgCore → State WfgCore
reported s = with_trace s (did_recv s.socket (write_progress_resp ∷ []) ∷ s.trace)

-- One byte has been read.
record GotOne (os : Os) (s : State WfgCore) (bytes : List ℕ) (s' : State WfgCore) : Type 0 where
  byte : ℕ
  rest : List ℕ
  answered : os.recv s.trace s.socket 1 ≡ got (byte ∷ rest)
  bytes_are : bytes ≡ byte ∷ []
  state : s' ≡ with_trace s (did_recv s.socket (byte ∷ []) ∷ s.trace)

abbrev OnePost : Os → State WfgCore → Ret × List ℕ → State WfgCore → Type 0
OnePost os s (ret, bytes) = Outcome (GotOne os s bytes) Failed ret

-- Progress reports, then the report of the end.
pub record Waited (s s' : State WfgCore) : Type 0 where
  pub handle : s'.handle ≡ s.handle
  pub wire_kept : wire s'.trace ≡ wire s.trace
  pub reports : ℕ
  pub heard_grows :
      heard s'.trace
      ≡ heard s.trace ++ (replicate reports write_progress_resp ++ (write_done_resp ∷ []))

module _ (os : Os) (fuel : ℕ) (quiet : IsQuiet os fuel) where
  receive_one : (s : State WfgCore) → IsValid s → Returns (OnePost os s) (receive os fuel 1 s)
  unfolding receive Link.receive receive_loop call_recv wfg_env
  receive_one s v = go (os.recv s.trace s.socket 1) refl
    where
      failed : Trace → Message → State WfgCore
      failed t message = with_error (with_trace s t) message

      broken :
          (t : Trace) (message : Message) → is_blank message ≡ false → Failed (failed t message)
      broken t message set =
          Failed-Broken os fuel s.handle (failed t message) v
            (Broken-with_error (wfg_env os fuel) s.handle (with_trace s t) message refl set)

      go :
          (a : RecvAnswer)
          → os.recv s.trace s.socket 1 ≡ a
          → Returns (OnePost os s) (receive os fuel 1 s)
      go (got []) a = rw a (returned (broken _ connection_closed_by_peer refl))
      go (got (b ∷ bytes)) a = rw a (
          returned
            (record { byte = b; rest = bytes; answered = a; bytes_are = refl; state = refl }))
      go recv_error a = rw a (returned (broken _ (receive_failed _) refl))
      go recv_timed_out a = rw a (
          bind_rule
            (timeout-Broken (wfg_env os fuel) quiet (with_trace s (did_fail s.socket ∷ s.trace)))
            λ r s' (is_error, b, kept).
              returned (rw is_error (Failed-Broken os fuel s.handle s' v b)))

  -- One report more.
  Waited-more :
      (s s₁ s' : State WfgCore)
      → s₁ ≡ with_trace s (did_recv s.socket (write_progress_resp ∷ []) ∷ s.trace)
      → Waited s₁ s'
      → Waited s s'
  Waited-more s s₁ s' at w = record {
    handle = w.handle ∙ ap (λ (x : State WfgCore). x.handle) at;
    wire_kept = w.wire_kept ∙ ap (λ (x : State WfgCore). wire x.trace) at;
    reports = suc w.reports;
    heard_grows =
        w.heard_grows
        ∙ ap (λ (x : State WfgCore). heard x.trace ++ tail) at
        ∙ append_assoc (heard s.trace) (write_progress_resp ∷ []) tail;
  }
    where
      tail : List ℕ
      tail = replicate w.reports write_progress_resp ++ (write_done_resp ∷ [])

  -- One round, with the rounds after a report of progress.
  round-Waited :
      (limit rounds : ℕ) (s : State WfgCore)
      → ReportsAtMost os limit
      → IsValid s
      → (progress (heard s.trace) < limit
          → Returns (Outcome (Waited (reported s)) Failed) (wait_done os fuel rounds (reported s)))
      → Returns (Outcome (Waited s) Failed) (wait_done os fuel (suc rounds) s)
  unfolding wait_done on_answer reject_if
  round-Waited limit rounds s few v again =
      bind_rule (receive_one s v) λ (ret, bytes) s₁ got_one. next ret bytes s₁ got_one
    where
      read : ℕ → State WfgCore
      read b = with_trace s (did_recv s.socket (b ∷ []) ∷ s.trace)

      continued :
          (r : Ret) (s' : State WfgCore)
          → Outcome (Waited (reported s)) Failed r s'
          → Outcome (Waited s) Failed r s'
      continued ok s' w = Waited-more s (reported s) s' refl w
      continued error s' f = f
      continued nak s' w = absurd w
      continued ack s' w = absurd w

      below :
          (b : ℕ) (rest : List ℕ)
          → os.recv s.trace s.socket 1 ≡ got (b ∷ rest)
          → b ≡ write_progress_resp
          → progress (heard s.trace) < limit
      below b rest a is_report = elim (Bool-cases (leb limit (progress (heard s.trace)))) [
        | inr less ↦ ground (arith, less)
        | inl enough ↦ absurd (
            few s.trace s.socket rest (ground (arith, enough))
              (a ∙ ap (λ x. got (x ∷ rest)) is_report))
      ]

      answered :
          (b : ℕ) (rest : List ℕ)
          → os.recv s.trace s.socket 1 ≡ got (b ∷ rest)
          → Returns (Outcome (Waited s) Failed) (on_answer (wait_done os fuel rounds) b (read b))
      answered b rest a = elim (Bool-cases (b == write_done_resp)) [
        | inl is_end ↦ rw is_end (
            returned (record {
              handle = refl;
              wire_kept = refl;
              reports = 0;
              heard_grows =
                  ap (λ x. heard s.trace ++ (x ∷ [])) ((==_iff b write_done_resp).0 is_end);
            }))
        | inr other ↦ rw other (elim (Bool-cases (b == write_progress_resp)) [
          | inl report ↦ rw report (
              let is_report = (==_iff b write_progress_resp).0 report in
              subst (λ x. Returns (Outcome (Waited s) Failed) (wait_done os fuel rounds (read x)))
                (sym is_report) (weaken (again (below b rest a is_report)) continued))
          | inr invalid ↦ rw invalid (returned (record { reported = refl; valid = v }))
        ])
      ]

      next :
          (ret : Ret) (bytes : List ℕ) (s₁ : State WfgCore)
          → OnePost os s (ret, bytes) s₁
          → Returns
              (Outcome (Waited s) Failed)
              (if_ok ret (on_answer (wait_done os fuel rounds) (get_or bytes 0 0)) s₁)
      next ok bytes s₁ g = rw (g.bytes_are, g.state) (answered g.byte g.rest g.answered)
      next error bytes s₁ f = returned f
      next nak bytes s₁ g = absurd g
      next ack bytes s₁ g = absurd g

  -- For an operating system that drains within the fuel after a shutdown and sends at most
  -- `limit` progress reports, and on a valid handle, the waiting loop of
  -- IpdbgWaveformGenerator_write ends when it may wait for more answers than reports can still
  -- come: with RET_OK after some reports of progress and the report of the end, or with an error
  -- on a valid handle.
  pub wait_done-Waited :
      (limit rounds : ℕ) (s : State WfgCore)
      → ReportsAtMost os limit
      → limit ≤ progress (heard s.trace) + rounds
      → IsValid s
      → Returns (Outcome (Waited s) Failed) (wait_done os fuel (suc rounds) s)
  wait_done-Waited limit zero s few enough v =
      round-Waited limit zero s few v λ below. absurd (omega arith)
  wait_done-Waited limit (suc rounds) s few enough v =
      round-Waited limit (suc rounds) s few v λ below.
        wait_done-Waited limit rounds (reported s) few
          (omega (arith, progress-append (heard s.trace), enough)) v
