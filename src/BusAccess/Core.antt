-- ===== src/BusAccess/Core.antt =====
-- sw/BusAccess/BusAccess.c: the protocol's constants, the handle's own fields, the decoding of the
-- widths, and reads and writes of memory through pointers.
use Prim.Native.Nat.{bit_and, bit_or}
use ipdbg.Prelude.{
  ℕ, ◌+◌, ◌-◌, ◌*◌, ◌/◌, ◌%◌, ◌^◌, Bool, false, Option, none, some, List, [], ◌∷◌, ◌++◌, ltb, leb,
  if◌then◌else◌, length, take?, drop, get_or,
}
use ipdbg.Prelude.Bits.{shl, shr}
use ipdbg.Os.{Os}
use ipdbg.Command.{Cmd, pure, done, fault, Env}

abbrev pub read_widths_cmd : ℕ
read_widths_cmd = 0xAB

abbrev pub write_cmd_lock : ℕ
write_cmd_lock = 0xBE

abbrev pub write_cmd_unlock : ℕ
write_cmd_unlock = 0xBF

abbrev pub read_cmd_lock : ℕ
read_cmd_lock = 0xCE

abbrev pub read_cmd_unlock : ℕ
read_cmd_unlock = 0xCF

abbrev pub set_addr_cmd : ℕ
set_addr_cmd = 0xD0

abbrev pub set_misc_cmd : ℕ
set_misc_cmd = 0xE5

abbrev pub set_strb_cmd : ℕ
set_strb_cmd = 0x92

abbrev pub ack_resp : ℕ
ack_resp = 0x55

abbrev pub nack_resp : ℕ
nack_resp = 0x33

abbrev pub protocol_id : ℕ
protocol_id = 0x1D

abbrev pub host_word_size : ℕ
host_word_size = 8

-- The three macros on the version and ID word.
unfoldable pub get_protocol_id : ℕ → ℕ
get_protocol_id version_and_id = bit_and version_and_id 0xFF

unfoldable pub get_protocol_version : ℕ → ℕ
get_protocol_version version_and_id = bit_and (shr version_and_id 8) 0xFF

unfoldable pub get_core_type : ℕ → ℕ
get_core_type version_and_id = bit_and (shr version_and_id 16) 0xFF

-- `ROUND_UP(a, HOST_WORD_SIZE)` in `uint32_t` arithmetic.
unfoldable pub round_up : ℕ → ℕ
round_up a = ((a + host_word_size) % 2 ^ 32 + 2 ^ 32 - 1) % 2 ^ 32 / host_word_size

unfoldable pub max_size : ℕ → ℕ → ℕ
max_size a b = if ltb b a then a else b

-- The widths of the handle, in bits and in bytes.
pub record Sizes : Type 0 where
  pub version_and_id : ℕ
  pub address_width : ℕ
  pub read_data_width : ℕ
  pub write_data_width : ℕ
  pub misc_data_width : ℕ
  pub strobe_width : ℕ
  pub address_width_bytes : ℕ
  pub read_data_width_bytes : ℕ
  pub write_data_width_bytes : ℕ
  pub misc_data_width_bytes : ℕ
  pub strobe_width_bytes : ℕ

-- The fields that only this handle has; `none` is a null pointer.
pub record BusCore : Type 0 where
  pub sizes : Sizes
  pub buffer : Option (List ℕ)
  pub address_shadow : Option (List ℕ)

abbrev pub no_sizes : Sizes
no_sizes = record {
  version_and_id = 0;
  address_width = 0;
  read_data_width = 0;
  write_data_width = 0;
  misc_data_width = 0;
  strobe_width = 0;
  address_width_bytes = 0;
  read_data_width_bytes = 0;
  write_data_width_bytes = 0;
  misc_data_width_bytes = 0;
  strobe_width_bytes = 0;
}

-- What closing the socket frees.
unfoldable pub free_buffers : BusCore → BusCore
free_buffers c = record c { buffer = none; address_shadow = none }

unfoldable pub bus_env : Os → ℕ → Env BusCore
bus_env os fuel = record { os = os; fuel = fuel; release = free_buffers }

-- Little endian, `buf[i * 4]` to `buf[i * 4 + 3]`; every index is below the length of the answer.
unfoldable pub word_at : List ℕ → ℕ → ℕ
word_at buf i =
    bit_or
      (bit_or (bit_or (get_or buf (i * 4) 0) (shl (get_or buf (i * 4 + 1) 0) 8))
        (shl (get_or buf (i * 4 + 2) 0) 16))
      (shl (get_or buf (i * 4 + 3) 0) 24)

unfoldable pub sizes_of : List ℕ → Sizes
sizes_of buf = record {
  version_and_id = word_at buf 0;
  write_data_width = word_at buf 1;
  read_data_width = word_at buf 2;
  address_width = word_at buf 3;
  misc_data_width = word_at buf 4;
  strobe_width = word_at buf 5;
  address_width_bytes = round_up (word_at buf 3);
  read_data_width_bytes = round_up (word_at buf 2);
  write_data_width_bytes = round_up (word_at buf 1);
  misc_data_width_bytes = round_up (word_at buf 4);
  strobe_width_bytes = round_up (word_at buf 5);
}

unfoldable pub get_buffe_size : Sizes → ℕ
unfolding max_size
get_buffe_size z =
    let res = max_size z.address_width_bytes z.read_data_width_bytes in
    let res = max_size res z.write_data_width_bytes in
    let res = max_size res z.misc_data_width_bytes in max_size res z.strobe_width_bytes

abbrev pub get_core : Cmd BusCore BusCore
get_core s = done s.core s

-- A read of `n` bytes through a pointer to `bytes`.
unfoldable pub load : List ℕ → ℕ → Cmd BusCore (List ℕ)
load bytes n s = elim (take? n bytes) [ none ↦ fault | some given ↦ done given s ]

-- The same through a pointer of the handle, which may be null.
unfoldable pub load_at : Option (List ℕ) → ℕ → Cmd BusCore (List ℕ)
unfolding load
load_at none n = λ s. fault
load_at (some bytes) n = load bytes n

-- `handle->buffer[0]`
unfoldable pub load_byte : Option (List ℕ) → Cmd BusCore ℕ
load_byte none = λ s. fault
load_byte (some []) = λ s. fault
load_byte (some (b ∷ _)) = pure b

unfoldable pub is_big_enough : Option (List ℕ) → ℕ → Bool
is_big_enough none n = false
is_big_enough (some bytes) n = leb n (length bytes)

-- `n` bytes written over the start of what a pointer refers to.
unfoldable pub overwrite : Option (List ℕ) → List ℕ → Option (List ℕ)
overwrite none bytes = none
overwrite (some old) bytes = some (bytes ++ drop (length bytes) old)
