-- ===== src/UartBridge/Setup/Prepared.antt =====
-- A serial port that openSerial accepts is set to 8N1 without flow control, and makeListenSocket
-- keeps a socket exactly if it listens.
use ipdbg.Prelude.{
  ℕ, suc, ◌+◌, ◌≡◌, ap, Bool, true, false, Option, none, some, [], ◌∷◌, inl, inr, Bool-cases,
}
use ipdbg.UartBridge.Options.{Options}
use ipdbg.UartBridge.Setup.{
  Request, get_port_by_name, open_read_write, set_baudrate, set_bits, set_stopbits, set_parity_none,
  set_flowcontrol_none, reuse_address, inet_pton, bind, listen, did, did_socket, did_close, Trace,
  System, Action, ◌and_then◌, ask, open_serial,
}

-- All of the calls, and each has succeeded.
abbrev pub settings : Options → Trace → Trace
settings o t =
    did set_flowcontrol_none true
    ∷ did (set_stopbits 1) true
    ∷ did set_parity_none true
    ∷ did (set_bits 8) true
    ∷ did (set_baudrate o.baudrate) true
    ∷ did open_read_write true
    ∷ did (get_port_by_name o.device) true
    ∷ t

abbrev pub Failed : Trace → Type 0
Failed (did r false ∷ t) = Unit {0}
Failed _ = ⊥

-- A chain of calls ends with all of them made, or at the first that fails.
abbrev Does : Action Bool → Trace → Trace → Type 0
Does m t s = ((m t).0 ≡ true → (m t).1 ≡ s) × ((m t).0 ≡ false → Failed (m t).1)

ask-Does : (sys : System) (r : Request) (t : Trace) → Does (ask sys r) t (did r true ∷ t)
unfolding ask
ask-Does sys r t = (λ done. ap (λ b. did r b ∷ t) done, λ failed. rw failed tt)

and_then-Does :
    (sys : System) (m : Action Bool) (r : Request) (t s : Trace)
    → Does m t s
    → Does (m and_then ask sys r) t (did r true ∷ s)
and_then-Does sys m r t s d = elim (Bool-cases (m t).0) [
  | inl done ↦ rw (done, d.0 done) (ask-Does sys r s)
  | inr failed ↦ rw failed (λ h. cc, λ h. d.1 failed)
]

-- The steps of openSerial, one more each.
module _ (sys : System) (o : Options) where
  abbrev opened : Action Bool
  opened = ask sys (get_port_by_name o.device) and_then ask sys open_read_write

  abbrev with_rate : Action Bool
  with_rate = opened and_then ask sys (set_baudrate o.baudrate)

  abbrev with_bits : Action Bool
  with_bits = with_rate and_then ask sys (set_bits 8)

  abbrev with_parity : Action Bool
  with_parity = with_bits and_then ask sys set_parity_none

  abbrev with_stopbits : Action Bool
  with_stopbits = with_parity and_then ask sys (set_stopbits 1)

-- `openSerial` succeeds only after the port was found, opened and set to the baud rate, eight
-- bits, no parity, one stop bit and no flow control, in that order; if it fails, the last call is
-- the one that failed.
pub open_serial-settings :
    (sys : System) (o : Options) (t : Trace)
    → ((open_serial sys o t).0 ≡ true → (open_serial sys o t).1 ≡ settings o t)
      × ((open_serial sys o t).0 ≡ false → Failed (open_serial sys o t).1)
unfolding open_serial
open_serial-settings sys o t = and_then-Does sys (with_stopbits sys o) set_flowcontrol_none t _ (
    and_then-Does sys (with_parity sys o) (set_stopbits 1) t _ (
      and_then-Does sys (with_bits sys o) set_parity_none t _ (
        and_then-Does sys (with_rate sys o) (set_bits 8) t _ (
          and_then-Does sys (opened sys o) (set_baudrate o.baudrate) t _ (
            and_then-Does sys (ask sys (get_port_by_name o.device)) open_read_write t _
              (ask-Does sys (get_port_by_name o.device) t))))))

-- The sockets that have been made, and that have been closed.
abbrev pub sockets : Trace → ℕ
sockets [] = 0
sockets (did_socket (some fd) ∷ t) = suc (sockets t)
sockets (_ ∷ t) = sockets t

abbrev pub closes : Trace → ℕ
closes [] = 0
closes (did_close fd ∷ t) = suc (closes t)
closes (_ ∷ t) = closes t

-- A socket that listens on the port, or none left open.
abbrev pub Listening : Options → Trace → Option ℕ × Trace → Type 0
Listening o t (some fd, t') =
    (reused : Bool) × (t'
      ≡ did (listen fd 4) true
        ∷ did (bind fd o.bind o.tcp_port) true
        ∷ did (inet_pton o.bind) true
        ∷ did (reuse_address fd) reused
        ∷ did_socket (some fd)
        ∷ t)
Listening o t (none, t') = sockets t' + closes t ≡ closes t' + sockets t
