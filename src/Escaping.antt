-- ===== src/Escaping.antt =====
-- The byte stream between the host and a core: IpdbgBusAccess_sendWithEscaping
-- (sw/BusAccess/BusAccess.c) and IpdbgWaveformGenerator_escape
-- (sw/WaveformGenerator/WaveformGenerator.c) on one side, rtl/common/IpdbgEscaping.vhd on the other.
pub mod RoundTrip
use ipdbg.Prelude.{
  ℕ, ◌≡◌, Bool, ◌||◌, true, false, List, [], ◌∷◌, ◌++◌, ◌==◌, if◌then◌else◌, Option, none, some,
}

abbrev pub reset_symbol : ℕ
reset_symbol = 0xEE

abbrev pub escape_symbol : ℕ
escape_symbol = 0x55

abbrev pub is_special : ℕ → Bool
is_special payload = payload == reset_symbol || payload == escape_symbol

-- What is put in front of a byte, and the byte.
unfoldable pub escape : ℕ → List ℕ
escape payload = if is_special payload then escape_symbol ∷ payload ∷ [] else payload ∷ []

unfoldable pub escape_all : List ℕ → List ℕ
escape_all [] = []
escape_all (payload ∷ payloads) = escape payload ++ escape_all payloads

-- `escaping_states_t`.
pub data Mode : Type 0 where
  normal escaping : Mode

-- What the entity hands on: a byte, or a reset of the core.
pub data Symbol : Type 0 where
  byte : ℕ → Symbol
  reset : Symbol

-- One accepted byte in one clock cycle, flow control aside: the new state, and what is handed on.
unfoldable pub receive_byte : Mode → ℕ → Mode × Option Symbol
receive_byte normal b =
    if b == escape_symbol
    then (escaping, none)
    else if b == reset_symbol
    then (normal, some reset)
    else (normal, some (byte b))
receive_byte escaping b = (normal, some (byte b))

abbrev pub push : Option Symbol → List Symbol → List Symbol
push none symbols = symbols
push (some x) symbols = x ∷ symbols

unfoldable pub decode : Mode → List ℕ → List Symbol
decode mode [] = []
decode mode (b ∷ bytes) = push (receive_byte mode b).1 (decode (receive_byte mode b).0 bytes)
