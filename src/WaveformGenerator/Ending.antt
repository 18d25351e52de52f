-- ===== src/WaveformGenerator/Ending.antt =====
-- IpdbgWaveformGenerator_close.
use ipdbg.Prelude.{
  ℕ, ◌≡◌, refl, ap, ◌∙◌, false, none, List, [], ◌∷◌, ◌++◌, inl, inr, Option-cases, if◌then◌else◌,
}
use ipdbg.Os.{Os, IsQuiet, wire}
use ipdbg.Command.{
  Ret, error, ok, nak, ack, this, is_none, is_blank, is_ok, blank, State, pure, and_then,
  with_error,
}
use ipdbg.Link
use ipdbg.Link.Returns.{Returns, returned, bind_rule}
use ipdbg.Link.Closing.{close_socket-Closed, close_socket-none}
use ipdbg.WaveformGenerator.Core.{WfgCore, wfg_env, return_status_cmd}
use ipdbg.WaveformGenerator.Connection.{begin, close_socket}
use ipdbg.WaveformGenerator.Session.{close}
use ipdbg.WaveformGenerator.Invariant.{IsValid}
use ipdbg.WaveformGenerator.Commands.{StatusPost, read_status-Answered}

-- Closed for good: the error says whether all went well, and if so a connection that was there
-- has sent the status query before its end.
pub record Flushed (s : State WfgCore) (r : Ret) (s' : State WfgCore) : Type 0 where
  pub socket : s'.socket ≡ none
  pub reports : is_blank s'.last_error ≡ is_ok r
  pub flushed :
      r ≡ ok → is_none s.socket ≡ false → wire s'.trace ≡ wire s.trace ++ (return_status_cmd ∷ [])

module _ (os : Os) (fuel : ℕ) (quiet : IsQuiet os fuel) where
  -- For an operating system that drains within the fuel after a shutdown, and on a valid handle,
  -- IpdbgWaveformGenerator_close returns with no socket, whatever the last exchange with the core
  -- brings, and the last error is empty exactly for RET_OK. After RET_OK on a connected handle
  -- the status query is what was sent last.
  pub close-Flushed : (s : State WfgCore) → IsValid s → Returns (Flushed s) (close os fuel this s)
  unfolding close begin Link.begin close_socket wfg_env
  close-Flushed s v = elim (Option-cases s.socket) [
    | inl closed ↦
        rw (ap is_none closed)
          (returned (record { socket = closed; reports = refl; flushed = λ _ opened. cc }))
    | inr (fd, opened) ↦ rw (ap is_none opened) (
        bind_rule (read_status-Answered os fuel quiet s₀ v)
          λ (ret, bytes) s₁ p. finish (ap is_none opened) ret bytes s₁ p)
  ]
    where
      s₀ : State WfgCore
      s₀ = with_error s blank

      finish :
          (opened : is_none s.socket ≡ false)
          → (ret : Ret) (bytes : List ℕ) (s₁ : State WfgCore) → StatusPost s₀ (ret, bytes) s₁
          → Returns (Flushed s) (
              and_then
                (Link.close_socket (wfg_env os fuel) s₁)
                λ ret_close. pure (if is_ok ret then ret_close else ret))
      finish opened ok bytes s₁ (status, same, a) =
          bind_rule (close_socket-Closed (wfg_env os fuel) quiet s₁ (a.connected ∙ opened))
            λ r s' c. returned (record {
              socket = c.socket;
              reports = c.new_error a.no_error;
              flushed = λ _ _. c.wire_kept ∙ a.wire_grows;
            })
      finish opened error bytes s₁ f = elim (Option-cases s₁.socket) [
        | inl closed ↦
            rw (close_socket-none (wfg_env os fuel) quiet s₁ closed)
              (returned (record { socket = closed; reports = f.reported; flushed = λ e _. cc }))
        | inr (fd, still) ↦
            bind_rule (close_socket-Closed (wfg_env os fuel) quiet s₁ (ap is_none still)) λ r s' c.
              returned (record {
                socket = c.socket;
                reports = ap is_blank (c.first_error f.reported) ∙ f.reported;
                flushed = λ e _. cc;
              })
      ]
      finish opened nak bytes s₁ p = absurd p
      finish opened ack bytes s₁ p = absurd p
