-- ===== src/BusAccess/Signals.antt =====
-- IpdbgBusAccess_setMiscellaneous and IpdbgBusAccess_setStrobe.
use ipdbg.Prelude.{ℕ, ◌≤◌, refl, List, [], ◌∷◌, length, take}
use ipdbg.Os.{Os, IsQuiet}
use ipdbg.Command.{
  Ret, error, ok, nak, ack, this, State, with_error, blank, and_then, if_ok, no_misc_signals,
  no_strobe,
}
use ipdbg.Escaping.{escape_all}
use ipdbg.Link.Returns.{Returns, weaken}
use ipdbg.BusAccess.Core.{BusCore, set_misc_cmd, set_strb_cmd, bus_env}
use ipdbg.BusAccess.Access.{set_miscellaneous, set_strobe}
use ipdbg.Link.Frames.{send_command, send_with_escaping}
use ipdbg.BusAccess.Invariant.{IsValid, IsLive, Moved-begin}
use ipdbg.BusAccess.Steps.{
  Step, Step-then, begin-Returns, reject_if-Returns, send_command-Step, send_with_escaping-Step,
}

module _ (os : Os) (fuel : ℕ) (quiet : IsQuiet os fuel) where
  -- A command and `len` escaped bytes.
  send_signals :
      (command : ℕ) (bytes : List ℕ) (len : ℕ) (s : State BusCore)
      → len ≤ length bytes
      → IsLive (with_error s blank)
      → Returns (Step (command ∷ escape_all (take len bytes)) [] s.core.address_shadow s) (
          and_then
            (send_command (bus_env os fuel) command (with_error s blank))
            λ ret. if_ok ret (send_with_escaping (bus_env os fuel) bytes len))
  send_signals command bytes len s fits l =
      weaken
        (Step-then _ (send_command-Step os fuel quiet command l)
          λ s₁ m. send_with_escaping-Step os fuel quiet bytes len fits m.live)
        go
    where
      go :
          (r : Ret) (s' : State BusCore)
          → Step
              (command ∷ escape_all (take len bytes))
              []
              s.core.address_shadow
              (with_error s blank)
              r
              s'
          → Step (command ∷ escape_all (take len bytes)) [] s.core.address_shadow s r s'
      go ok s' m = Moved-begin s blank m
      go error s' sound = sound
      go nak s' m = absurd m
      go ack s' m = absurd m

  -- For an operating system that drains within the fuel after a shutdown, and on a valid handle
  -- with enough bytes, IpdbgBusAccess_setMiscellaneous returns: with the command and the escaped
  -- bytes sent and nothing of the handle changed but the last error, or with a valid handle and
  -- an error.
  pub set_miscellaneous-Step :
      (bytes : List ℕ) (s : State BusCore)
      → IsValid s
      → s.core.sizes.misc_data_width_bytes ≤ length bytes
      → Returns
          (Step
            (set_misc_cmd ∷ escape_all (take s.core.sizes.misc_data_width_bytes bytes))
            []
            s.core.address_shadow
            s)
          (set_miscellaneous os fuel this bytes s)
  unfolding set_miscellaneous
  set_miscellaneous-Step bytes s v fits =
      begin-Returns s _ v
        (λ l.
          reject_if-Returns _ no_misc_signals (with_error s blank) _ refl l
            (λ _. send_signals set_misc_cmd bytes _ s fits l) (λ s' sound. sound))
        (λ s' sound. sound)

  -- For an operating system that drains within the fuel after a shutdown, and on a valid handle
  -- with enough bytes, IpdbgBusAccess_setStrobe returns: with the command and the escaped bytes
  -- sent and nothing of the handle changed but the last error, or with a valid handle and an
  -- error.
  pub set_strobe-Step :
      (bytes : List ℕ) (s : State BusCore)
      → IsValid s
      → s.core.sizes.strobe_width_bytes ≤ length bytes
      → Returns
          (Step
            (set_strb_cmd ∷ escape_all (take s.core.sizes.strobe_width_bytes bytes))
            []
            s.core.address_shadow
            s)
          (set_strobe os fuel this bytes s)
  unfolding set_strobe
  set_strobe-Step bytes s v fits =
      begin-Returns s _ v
        (λ l.
          reject_if-Returns _ no_strobe (with_error s blank) _ refl l
            (λ _. send_signals set_strb_cmd bytes _ s fits l) (λ s' sound. sound))
        (λ s' sound. sound)
