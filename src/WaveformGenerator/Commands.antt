-- ===== src/WaveformGenerator/Commands.antt =====
-- The commands of the waveform generator that only a status answers.
use ipdbg.Prelude.{
  ℕ, ◌≡◌, refl, ap, ◌∙◌, sym, subst, false, List, [], ◌∷◌, ◌++◌, arith, length, append_assoc,
  if◌then◌else◌,
}
use ipdbg.Os.{Os, IsQuiet, wire, heard}
use ipdbg.Command.{
  Ret, error, ok, nak, ack, this, is_none, is_blank, is_ok, blank, Handle, State, pure, with_error,
}
use ipdbg.Link.Returns.{Returns, returned, Outcome, bind_rule, then_rule, weaken}
use ipdbg.Link.Sending.{SendPost, Sent}
use ipdbg.Link.Receiving.{RecvPost, receive-Received}
use ipdbg.Link.Frames.{send_command-Sent}
use ipdbg.WaveformGenerator.Core.{WfgCore, wfg_env, return_status_cmd}
use ipdbg.WaveformGenerator.Connection.{send_command, receive}
use ipdbg.WaveformGenerator.Session.{read_status, control}
use ipdbg.WaveformGenerator.Invariant.{IsSized, IsValid, Failed, Failed-Broken, begin-Returns}

-- The core has answered with its status, after all that was sent before.
pub record Answered (sent : List ℕ) (s : State WfgCore) (status : ℕ) (s' : State WfgCore)
    : Type 0 where
  pub core : s'.core ≡ s.core
  pub connected : is_none s'.socket ≡ is_none s.socket
  pub no_error : is_blank s'.last_error ≡ is_blank s.last_error
  pub wire_grows : wire s'.trace ≡ wire s.trace ++ sent
  pub heard_grows : heard s'.trace ≡ heard s.trace ++ (status ∷ [])

abbrev pub StatusPost : State WfgCore → Ret × List ℕ → State WfgCore → Type 0
StatusPost s (ret, bytes) s' =
    Outcome
      (λ s'. (status : ℕ) × (bytes ≡ status ∷ []) × Answered (return_status_cmd ∷ []) s status s')
      Failed ret s'

module _ (os : Os) (fuel : ℕ) (quiet : IsQuiet os fuel) where
  pub read_status-Answered :
      (s : State WfgCore) → IsValid s → Returns (StatusPost s) (read_status os fuel s)
  unfolding read_status send_command receive wfg_env
  read_status-Answered s v =
      bind_rule (send_command-Sent (wfg_env os fuel) quiet return_status_cmd s) sent
    where
      answered :
          (s₁ : State WfgCore)
          → Sent (wfg_env os fuel) (return_status_cmd ∷ []) s s₁
          → (bytes : List ℕ) (s' : State WfgCore) → length bytes ≡ 1
          → s'.handle ≡ s₁.handle
          → wire s'.trace ≡ wire s₁.trace
          → heard s'.trace ≡ heard s₁.trace ++ bytes
          → (status : ℕ) × (bytes ≡ status ∷ []) × Answered (return_status_cmd ∷ []) s status s'
      answered s₁ q [] s' one same kept read = absurd (omega arith)
      answered s₁ q (status ∷ []) s' one same kept read = (
        status,
        refl,
        record {
          core = ap (λ (h : Handle WfgCore). h.core) (same ∙ q.handle);
          connected = ap (λ (h : Handle WfgCore). is_none h.socket) (same ∙ q.handle);
          no_error = ap (λ (h : Handle WfgCore). is_blank h.last_error) (same ∙ q.handle);
          wire_grows = kept ∙ q.wire_grows;
          heard_grows = read ∙ ap (λ l. l ++ (status ∷ [])) q.heard_kept;
        },
      )
      answered s₁ q (b ∷ c ∷ bytes) s' one same kept read = absurd (omega arith)

      received :
          (s₁ : State WfgCore)
          → Sent (wfg_env os fuel) (return_status_cmd ∷ []) s s₁
          → (a : Ret × List ℕ) (s' : State WfgCore) → RecvPost (wfg_env os fuel) [] 1 s₁ a s'
          → StatusPost s a s'
      received s₁ q (ok, bytes) s' p =
          answered s₁ q bytes s' (rw p.bytes_new p.length_new) p.handle p.wire_kept
            (rw p.bytes_new p.heard_grows)
      received s₁ q (error, bytes) s' p =
          Failed-Broken os fuel s₁.handle s'
            (subst (λ (h : Handle WfgCore). is_none h.socket ≡ false → IsSized h.core)
              (sym q.handle) v)
            p.broken
      received s₁ q (nak, bytes) s' p = absurd p
      received s₁ q (ack, bytes) s' p = absurd p

      sent :
          (r : Ret) (s₁ : State WfgCore)
          → SendPost (wfg_env os fuel) (return_status_cmd ∷ []) s r s₁
          → Returns (StatusPost s) ((if is_ok r then receive os fuel 1 else pure (r, [])) s₁)
      sent ok s₁ q = weaken (receive-Received (wfg_env os fuel) quiet 1 s₁) (received s₁ q)
      sent error s₁ q = returned (Failed-Broken os fuel s.handle s₁ v q.broken)
      sent nak s₁ q = absurd q
      sent ack s₁ q = absurd q

  -- For an operating system that drains within the fuel after a shutdown, and on a valid handle,
  -- `control`, which start, stop and oneShot call, returns: with the command and the status query
  -- sent and one status byte read back, or with an error on a valid handle.
  pub control-Answered :
      (command : ℕ) (s : State WfgCore)
      → IsValid s
      → Returns
          (Outcome
            (λ s'.
              (status : ℕ) × Answered
                (command ∷ return_status_cmd ∷ [])
                (with_error s blank)
                status
                s')
            Failed)
          (control os fuel this command s)
  unfolding control send_command wfg_env
  control-Answered command s v =
      begin-Returns s _ v
        (λ opened.
          then_rule (send_command-Sent (wfg_env os fuel) quiet command s₀)
            (λ s₁ q.
              bind_rule
                (read_status-Answered s₁ (
                  subst (λ (h : Handle WfgCore). is_none h.socket ≡ false → IsSized h.core)
                    (sym q.handle) v))
                λ (ret, bytes) s' p. returned (both s₁ q ret bytes s' p))
            (λ s' b. Failed-Broken os fuel s₀.handle s' v b.broken))
        (λ s' f. f)
    where
      s₀ : State WfgCore
      s₀ = with_error s blank

      both :
          (s₁ : State WfgCore)
          → Sent (wfg_env os fuel) (command ∷ []) s₀ s₁
          → (ret : Ret) (bytes : List ℕ) (s' : State WfgCore) → StatusPost s₁ (ret, bytes) s'
          → Outcome
              (λ s'. (status : ℕ) × Answered (command ∷ return_status_cmd ∷ []) s₀ status s')
              Failed
              ret
              s'
      both s₁ q ok bytes s' (status, same, a) = (
        status,
        record {
          core = a.core ∙ ap (λ (h : Handle WfgCore). h.core) q.handle;
          connected = a.connected ∙ ap (λ (h : Handle WfgCore). is_none h.socket) q.handle;
          no_error = a.no_error ∙ ap (λ (h : Handle WfgCore). is_blank h.last_error) q.handle;
          wire_grows =
              a.wire_grows
              ∙ ap (λ l. l ++ (return_status_cmd ∷ [])) q.wire_grows
              ∙ append_assoc (wire s.trace) (command ∷ []) (return_status_cmd ∷ []);
          heard_grows = a.heard_grows ∙ ap (λ l. l ++ (status ∷ [])) q.heard_kept;
        },
      )
      both s₁ q error bytes s' f = f
      both s₁ q nak bytes s' p = absurd p
      both s₁ q ack bytes s' p = absurd p
