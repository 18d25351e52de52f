-- ===== src/BusAccess/Target.antt =====
-- rtl/BusAccess/BusAccessStatemachine.vhd behind rtl/common/IpdbgEscaping.vhd: what the core makes of
-- the bytes of the host, one accepted byte at a time. Clocks and flow control are left out: an access
-- is done at its last byte, and the core takes the next byte after it has answered.
pub mod Frames
pub mod Cut
use Prim.Native.Nat.{min}
use ipdbg.Prelude.{
  ℕ, zero, suc, ◌-◌, ◌/◌, ◌%◌, ◌^◌, replicate, Bool, true, false, not, ◌&&◌, ◌||◌, Option, none,
  some, List, [], ◌∷◌, ◌++◌, ◌==◌, if◌then◌else◌,
}
use ipdbg.Escaping.{Mode, normal, Symbol, byte, reset, receive_byte}
use ipdbg.BusAccess.Core.{
  Sizes, write_cmd_lock, write_cmd_unlock, read_cmd_lock, read_cmd_unlock, set_addr_cmd,
  set_misc_cmd, set_strb_cmd,
}

-- Where the bytes that are being collected go: the registers of set_address, set_misc and set_strb,
-- or a write access with its lock.
pub data Sink : Type 0 where
  to_address to_misc to_strobe : Sink
  to_bus : Bool → Sink

-- `collecting sink left received`: `left` bytes follow the next one.
pub data Phase : Type 0 where
  idle : Phase
  collecting : Sink → ℕ → List ℕ → Phase

-- An access on the bus: the lock, the address, and the data of a write.
pub data Access : Type 0 where
  write_access : Bool → List ℕ → List ℕ → Access
  read_access : Bool → List ℕ → Access

-- Fields are lists of bytes, least significant first, of which the last may have fewer bits. `misc_init` is the generic MISC_INIT.
pub record Target : Type 0 where
  pub misc_init : List ℕ
  pub phase : Phase
  pub address : List ℕ
  pub misc : List ℕ
  pub strobe : List ℕ
  pub accesses : List Access

-- The lowest `bits` bits of a field: `rx_sr(bits - 1 + SR_BASE_IDX downto SR_BASE_IDX)`.
unfoldable pub cut : ℕ → List ℕ → List ℕ
cut bits [] = []
cut bits (b ∷ bytes) = b % 2 ^ min bits 8 ∷ cut (bits - 8) bytes

-- The last byte has arrived, and the register takes as many bits as it has.
unfoldable pub finish : Sizes → Sink → List ℕ → Target → Target
unfolding cut
finish z to_address bytes t = record t { phase = idle; address = cut z.address_width bytes }
finish z to_misc bytes t = record t { phase = idle; misc = cut z.misc_data_width bytes }
finish z to_strobe bytes t = record t { phase = idle; strobe = cut z.strobe_width bytes }
finish z (to_bus locked) bytes t = record t {
  phase = idle;
  accesses = t.accesses ++ (write_access locked t.address (cut z.write_data_width bytes) ∷ []);
}

abbrev pub collect : Sink → ℕ → Target → Target
collect sink bytes t = record t { phase = collecting sink (bytes - 1) [] }

abbrev pub read_now : Bool → Target → Target
read_now locked t = record t {
  phase = idle;
  accesses = t.accesses ++ (read_access locked t.address ∷ []);
}

-- A command in the state idle. A width is there if it has bytes.
unfoldable pub dispatch : Sizes → ℕ → Target → Target
dispatch z b t =
    if not (z.write_data_width_bytes == 0) && (b == write_cmd_lock || b == write_cmd_unlock)
    then collect (to_bus (b == write_cmd_lock)) z.write_data_width_bytes t
    else if not (z.read_data_width_bytes == 0) && (b == read_cmd_lock || b == read_cmd_unlock)
    then read_now (b == read_cmd_lock) t
    else if not (z.address_width_bytes == 0) && b == set_addr_cmd
    then collect to_address z.address_width_bytes t
    else if not (z.misc_data_width_bytes == 0) && b == set_misc_cmd
    then collect to_misc z.misc_data_width_bytes t
    else if not (z.strobe_width_bytes == 0) && b == set_strb_cmd
    then collect to_strobe z.strobe_width_bytes t
    else record t { phase = idle }

unfoldable pub take_in : Sizes → Phase → ℕ → Target → Target
unfolding finish dispatch
take_in z idle b t = dispatch z b t
take_in z (collecting sink zero received) b t = finish z sink (received ++ (b ∷ [])) t
take_in z (collecting sink (suc left) received) b t = record t {
  phase = collecting sink left (received ++ (b ∷ []));
}

-- The lowest `n` bytes of a number, the least significant first.
unfoldable pub bytes_of : ℕ → ℕ → List ℕ
bytes_of x zero = []
bytes_of x (suc n) = x % 2 ^ 8 ∷ bytes_of (x / 2 ^ 8) n

-- After a reset the address is 0, every strobe is set, and the signals are those of the generic.
abbrev pub restart : Sizes → Target → Target
restart z t = record t {
  phase = idle;
  address = replicate z.address_width_bytes 0;
  misc = t.misc_init;
  strobe = bytes_of (2 ^ z.strobe_width - 1) z.strobe_width_bytes;
}

-- What the escaping entity hands on.
unfoldable pub react : Sizes → Option Symbol → Target → Target
unfolding take_in
react z none t = t
react z (some reset) t = restart z t
react z (some (byte b)) t = take_in z t.phase b t

-- Bytes one after another, with the state of the escaping entity.
unfoldable pub feed : Sizes → Mode → Target → List ℕ → Mode × Target
unfolding react
feed z mode t [] = (mode, t)
feed z mode t (b ∷ bytes) = feed z (receive_byte mode b).0 (react z (receive_byte mode b).1 t) bytes
