-- ===== src/Link/Frames.antt =====
-- What is sent over a connection: reset symbols, command bytes and escaped bytes.
use ipdbg.Prelude.{
  ℕ, zero, suc, ◌≤◌, List, [], ◌∷◌, ◌++◌, arith, take, length, if◌then◌else◌, Bool-cases, inl, inr,
}
use ipdbg.Os.{IsQuiet}
use ipdbg.Command.{Ret, ok, State, Cmd, pure, fault, Env, ◌>>◌}
use ipdbg.Escaping.{reset_symbol, escape_symbol, is_special, escape, escape_all}
use ipdbg.Link.{send}
use ipdbg.Link.Returns.{Returns, returned}
use ipdbg.Link.Sending.{SendPost, SendPost-then, SendPost-nothing, send-Sent}

module _ {X : Type 0} (e : Env X) where
  unfoldable pub send_reset : Cmd X Ret
  send_reset = send e (reset_symbol ∷ reset_symbol ∷ [])

  unfoldable pub send_command : ℕ → Cmd X Ret
  send_command command = send e (command ∷ [])

  -- `data_to_send` is what the pointer gives access to: a read past its end is a fault.
  unfoldable pub send_with_escaping : List ℕ → ℕ → Cmd X Ret
  send_with_escaping data_to_send zero = pure ok
  send_with_escaping [] (suc len) = λ s. fault
  send_with_escaping (payload ∷ data_to_send) (suc len) = do
    if is_special payload then send e (escape_symbol ∷ []) else pure ok
    send e (payload ∷ [])
    send_with_escaping data_to_send len

  module _ (quiet : IsQuiet e.os e.fuel) where
    pub send_reset-Sent :
        (s : State X) → Returns (SendPost e (reset_symbol ∷ reset_symbol ∷ []) s) (send_reset s)
    unfolding send_reset
    send_reset-Sent = send-Sent e quiet (reset_symbol ∷ reset_symbol ∷ [])

    pub send_command-Sent :
        (command : ℕ) (s : State X) → Returns (SendPost e (command ∷ []) s) (send_command command s)
    unfolding send_command
    send_command-Sent command = send-Sent e quiet (command ∷ [])

    send_escape-Sent :
        (payload : ℕ) (s : State X) {k : Cmd X Ret} (rest : List ℕ)
        → ((s₁ : State X) → Returns (SendPost e rest s₁) (k s₁))
        → Returns (SendPost e (escape payload ++ rest) s) (
            (do
              if is_special payload then send e (escape_symbol ∷ []) else pure ok
              send e (payload ∷ [])
              k)
              s)
    unfolding escape
    send_escape-Sent payload s rest next = elim (Bool-cases (is_special payload)) [
      | inl special ↦ rw special (
          SendPost-then e (escape_symbol ∷ []) (payload ∷ rest) s
            (send-Sent e quiet (escape_symbol ∷ []) s)
            λ s₁. SendPost-then e (payload ∷ []) rest s₁ (send-Sent e quiet (payload ∷ []) s₁) next)
      | inr plain ↦
          rw plain (SendPost-then e (payload ∷ []) rest s (send-Sent e quiet (payload ∷ []) s) next)
    ]

    -- For an operating system that drains within the fuel after a shutdown, sendWithEscaping of
    -- `len` bytes that are there sends each of them, behind an escape symbol where it is special,
    -- or fails after a prefix of that with an error recorded and the connection kept or closed.
    pub send_with_escaping-Sent :
        (data_to_send : List ℕ) (len : ℕ) (s : State X)
        → len ≤ length data_to_send
        → Returns
            (SendPost e (escape_all (take len data_to_send)) s)
            (send_with_escaping data_to_send len s)
    unfolding send_with_escaping escape_all
    send_with_escaping-Sent data_to_send zero s fits = returned (SendPost-nothing e s)
    send_with_escaping-Sent [] (suc len) s fits = elim fits [ ]
    send_with_escaping-Sent (payload ∷ data_to_send) (suc len) s fits =
        send_escape-Sent payload s (escape_all (take len data_to_send))
          λ s₁. send_with_escaping-Sent data_to_send len s₁ (omega arith)
