-- ===== src/Tests.antt =====
-- An operating system that runs a script, for the tests of the other modules.
mod Connection
mod Bus
mod Kinds
mod Waveform
mod Delivery
mod Numbers
mod Cxx
mod Bridge
mod Panel
mod Probe
use ipdbg.Prelude.{
  ℕ, ◌≡◌, refl, Bool, true, false, none, some, List, [], ◌∷◌, take, drop, length, if◌then◌else◌,
}
use ipdbg.Os.{
  Event, did_shutdown, Trace, Os, accepted, got, addresses, heard, drain, call_recv, IsQuiet,
}

abbrev pub is_shut : Trace → Bool
is_shut [] = false
is_shut (did_shutdown fd true ∷ t) = true
is_shut (_ ∷ t) = is_shut t

-- The peer sends the script from its start, and ends the stream after a shutdown.
abbrev pub script_os : List ℕ → Os
script_os script = record {
  errno = λ t. 0;
  getaddrinfo = λ t host port. addresses (1 ∷ []);
  socket = λ t res. some 3;
  connect = λ t fd res. true;
  setsockopt = λ t fd ms. true;
  send = λ t fd bytes. accepted (length bytes);
  recv = λ t fd room. if is_shut t then got [] else got (drop (length (heard t)) script);
  shutdown = λ t fd. true;
  close = λ t fd. true;
  malloc = λ t n. true;
}

pub script_os-IsQuiet : (script : List ℕ) → IsQuiet (script_os script) 1
unfolding drain call_recv
script_os-IsQuiet script fd set t = (_, refl)
