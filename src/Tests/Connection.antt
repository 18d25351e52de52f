-- ===== src/Tests/Connection.antt =====
-- The connection and the escaping on concrete inputs.
use ipdbg.Prelude.{ℕ, ◌≡◌, refl, none, some, List, [], ◌∷◌, ◌++◌, take}
use mathlib.Core.List.{map}
use ipdbg.Os.{IsQuiet}
use ipdbg.Command.{Env, State, blank}
use ipdbg.Escaping.{escape_all, normal, byte, decode}
use ipdbg.Escaping.RoundTrip.{decode-escape_all}
use ipdbg.Link.{send, receive, close_socket}
use ipdbg.Link.Returns.{Returns}
use ipdbg.Link.Closing.{Closed, close_socket-Closed}
use ipdbg.Link.Sending.{SendPost, send-Sent}
use ipdbg.Link.Receiving.{RecvPost, receive-Received}
use ipdbg.Link.Frames.{send_with_escaping, send_with_escaping-Sent}
use ipdbg.Tests.{script_os, script_os-IsQuiet}
use native.Mathlib.Omega.{arith}

abbrev script : List ℕ
script = 0xEE ∷ 0x55 ∷ 0x01 ∷ []

abbrev env : Env ℕ
env = record { os = script_os script; fuel = 1; release = λ n. n }

abbrev quiet : IsQuiet env.os env.fuel
quiet = script_os-IsQuiet script

abbrev connected : State ℕ
connected = record {
  handle = record { socket = some 3; timeout_ms = 100; last_error = blank; core = 7 };
  trace = [];
}

abbrev closed : State ℕ
closed = record {
  handle = record { socket = none; timeout_ms = 100; last_error = blank; core = 7 };
  trace = [];
}

send-Sent_example :
    Returns (SendPost env (0xAB ∷ 0xEE ∷ []) connected) (send env (0xAB ∷ 0xEE ∷ []) connected)
send-Sent_example = send-Sent env quiet (0xAB ∷ 0xEE ∷ []) connected

receive-Received_example : Returns (RecvPost env [] 2 connected) (receive env 2 connected)
receive-Received_example = receive-Received env quiet 2 connected

close_socket-Closed_example : Returns (Closed env connected) (close_socket env connected)
close_socket-Closed_example = close_socket-Closed env quiet connected refl

send_with_escaping-Sent_example :
    Returns
      (SendPost env (escape_all (take 2 script)) connected)
      (send_with_escaping env script 2 connected)
send_with_escaping-Sent_example = send_with_escaping-Sent env quiet script 2 connected (omega arith)

decode-escape_all_example :
    decode normal (escape_all script ++ (0xAB ∷ [])) ≡ map byte script ++ decode normal (0xAB ∷ [])
decode-escape_all_example = decode-escape_all script (0xAB ∷ [])
