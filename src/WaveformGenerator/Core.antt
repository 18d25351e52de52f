-- ===== src/WaveformGenerator/Core.antt =====
-- sw/WaveformGenerator/WaveformGenerator.c: the commands, the handle's own fields, and the sizes.
use ipdbg.Prelude.{ℕ, ◌+◌, ◌-◌, ◌/◌, ◌%◌, ◌^◌, List, if◌then◌else◌, leb}
use ipdbg.Prelude.Bits.{shl}
use ipdbg.Os.{Os}
use ipdbg.Command.{Cmd, Env, done}
use ipdbg.BusAccess.Core.{word_at}

abbrev pub start_cmd : ℕ
start_cmd = 0xF0

abbrev pub stop_cmd : ℕ
stop_cmd = 0xF1

abbrev pub return_sizes_cmd : ℕ
return_sizes_cmd = 0xF2

abbrev pub write_samples_cmd : ℕ
write_samples_cmd = 0xF3

abbrev pub set_number_of_samples_cmd : ℕ
set_number_of_samples_cmd = 0xF4

abbrev pub return_status_cmd : ℕ
return_status_cmd = 0xF5

abbrev pub one_shot_cmd : ℕ
one_shot_cmd = 0xF6

abbrev pub write_progress_resp : ℕ
write_progress_resp = 0xFA

abbrev pub write_done_resp : ℕ
write_done_resp = 0xFB

abbrev pub status_enabled : ℕ
status_enabled = 0x01

abbrev pub status_double_buffer : ℕ
status_double_buffer = 0x02

-- The largest `size_t`.
abbrev pub size_max : ℕ
size_max = 2 ^ 64 - 1

-- `ROUND_UP(a, 8)` in `uint32_t` arithmetic.
unfoldable pub round_up : ℕ → ℕ
round_up a = ((a + 8) % 2 ^ 32 + 2 ^ 32 - 1) % 2 ^ 32 / 8

-- The fields that only this handle has.
pub record WfgCore : Type 0 where
  pub data_width : ℕ
  pub address_width : ℕ
  pub data_width_bytes : ℕ
  pub address_width_bytes : ℕ

abbrev pub no_widths : WfgCore
no_widths = record {
  data_width = 0;
  address_width = 0;
  data_width_bytes = 0;
  address_width_bytes = 0;
}

-- Closing the socket frees nothing.
unfoldable pub wfg_env : Os → ℕ → Env WfgCore
wfg_env os fuel = record { os = os; fuel = fuel; release = λ c. c }

abbrev pub get_core : Cmd WfgCore WfgCore
get_core s = done s.core s

-- The two words of the answer.
unfoldable pub with_widths : WfgCore → List ℕ → WfgCore
with_widths c buf = record c { data_width = word_at buf 0; address_width = word_at buf 1 }

unfoldable pub with_width_bytes : WfgCore → WfgCore
with_width_bytes c = record c {
  data_width_bytes = round_up c.data_width;
  address_width_bytes = round_up c.address_width;
}

unfoldable pub max_samples : WfgCore → ℕ
max_samples c = if leb 64 c.address_width then size_max else shl 1 c.address_width
