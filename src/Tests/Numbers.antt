-- ===== src/Tests/Numbers.antt =====
-- The arithmetic of the two libraries on concrete numbers.
use ipdbg.Prelude.{◌+◌, ◌*◌, ◌/◌, ◌%◌, ◌^◌, ◌≡◌, arith}
use ipdbg.BusAccess.Core.{sizes_of}
use ipdbg.BusAccess.Masters.{hprot_hsize_misc}
use ipdbg.BusAccess.Words.{sizes_of-widths_answer, widths_answer, hprot_seven_bits, field_value}
use ipdbg.Tests.Bus.{widths}

sizes_of-widths_answer_example :
    ((sizes_of (widths_answer (widths 3))).version_and_id ≡ 0x1D)
    × ((sizes_of (widths_answer (widths 3))).write_data_width ≡ 8)
    × ((sizes_of (widths_answer (widths 3))).read_data_width ≡ 8)
    × ((sizes_of (widths_answer (widths 3))).address_width ≡ 8)
    × ((sizes_of (widths_answer (widths 3))).misc_data_width ≡ 3)
    × ((sizes_of (widths_answer (widths 3))).strobe_width ≡ 1)
sizes_of-widths_answer_example =
    sizes_of-widths_answer (widths 3) (omega arith) (omega arith) (omega arith) (omega arith)
      (omega arith) (omega arith)

hprot_seven_bits_example :
    (field_value (hprot_hsize_misc 64 2) % 2 ^ 10 % 8 ≡ 2)
    × (field_value (hprot_hsize_misc 64 2) % 2 ^ 10 / 8 ≡ 64 % 32 + 32 * (64 / 8 % 4))
hprot_seven_bits_example = hprot_seven_bits 64 2 (omega arith) (omega arith)
