-- ===== src/Tests/Cxx.antt =====
-- The C++ classes on concrete inputs.
use ipdbg.Prelude.{ℕ, ◌+◌, ◌%◌, ◌^◌, ◌<◌, ◌≡◌, refl, true, false, some, List, [], ◌∷◌, arith}
use ipdbg.Prelude.Int.{ℤ, pos, negsuc}
use ipdbg.Link.Returns.{Returns}
use ipdbg.BusAccess.Invariant.{IsValid}
use ipdbg.BusAccess.Coherent.{Coherent, performed}
use ipdbg.Cxx.{FieldName, value}
use ipdbg.Cxx.Bytes.{digits, to_bytes, to_bytes_loop, bytes_for_bits, from_bytes}
use ipdbg.Cxx.Bytes.RoundTrip.{from_bytes-to_bytes}
use ipdbg.Cxx.Bus
use ipdbg.Cxx.Bus.Written.{is_value, Written}
use ipdbg.Cxx.Bus.ReadBack.{ReadBack, read-ReadBack}
use ipdbg.Cxx.Bus.Delivered.{number_write, Modified, write-Delivered, read_modify_write-Modified}
use ipdbg.Cxx.Waveform
use ipdbg.Cxx.Waveform.{max_value, encode_loop}
use ipdbg.Cxx.Waveform.Samples.{least_of, Encoded, encode_loop-Encoded}
use ipdbg.Cxx.Waveform.Written.{SamplesWritten, write-SamplesWritten}
use ipdbg.Tests.Delivery.{
  os, quiet, waiting, before, addressed, addressed-IsValid, addressed-Coherent,
}
use ipdbg.Tests.Waveform.{
  opened, opened-IsValid, ready_os, ready_os-IsQuiet, ready_os-ReportsAtMost,
}

-- The function adds one to a byte.
abbrev next_byte : ℕ → ℕ
next_byte n = (n + 1) % 2 ^ 8

next_byte-lt : (n : ℕ) → n < 2 ^ digits 1 → next_byte n < 2 ^ digits 1
next_byte-lt n h = omega arith

read_modify_write-Modified_example :
    Returns
      (λ result s'.
        IsValid s'
        × (is_value result ≡ true → Modified before 0xEE (some next_byte) addressed waiting s'))
      (Bus.read_modify_write os 1 1 1 0xEE (some next_byte) addressed)
read_modify_write-Modified_example =
    read_modify_write-Modified os 1 quiet before 1 1 0xEE (some next_byte) addressed waiting
      (omega arith) (omega arith) next_byte-lt addressed-IsValid addressed-Coherent

write-Delivered_example :
    Returns
      (λ result s'.
        Written 0xEE 0x42 true addressed result s'
        × (is_value result ≡ true
            → Coherent before s'
                (performed (number_write addressed.core.sizes true 0xEE 0x42) waiting)))
      (Bus.write os 1 1 1 0xEE 0x42 true addressed)
write-Delivered_example =
    write-Delivered os 1 quiet before 1 1 0xEE 0x42 true addressed waiting (omega arith)
      (omega arith) addressed-IsValid addressed-Coherent

read-ReadBack_example :
    Returns (ReadBack 1 0xEE false addressed) (Bus.read os 1 1 1 0xEE false addressed)
read-ReadBack_example =
    read-ReadBack os 1 quiet 1 1 0xEE false addressed (omega arith) (omega arith) addressed-IsValid

twelve_bits : to_bytes 2 0x5EE 12 FieldName.address ≡ value (0xEE ∷ 5 ∷ [])
unfolding to_bytes to_bytes_loop bytes_for_bits
twelve_bits = refl

from_bytes-to_bytes_example : from_bytes 2 (0xEE ∷ 5 ∷ []) 12 ≡ value 0x5EE
from_bytes-to_bytes_example =
    from_bytes-to_bytes 2 0x5EE 12 FieldName.address (0xEE ∷ 5 ∷ []) (omega arith) (omega arith)
      twelve_bits

-- A positive and a negative sample.
abbrev samples : List ℤ
samples = pos 0xEE ∷ negsuc 0 ∷ []

encode_loop-Encoded_example :
    Encoded 8 1 samples (encode_loop (least_of 7) (max_value 8) 1 0 samples)
encode_loop-Encoded_example =
    encode_loop-Encoded 8 1 samples refl (omega arith) (omega arith)
      (omega arith, (omega arith, tt))

write-SamplesWritten_example :
    Returns (SamplesWritten samples opened) (Waveform.write ready_os 1 1 samples opened)
write-SamplesWritten_example =
    write-SamplesWritten ready_os 1 ready_os-IsQuiet 0 0 ready_os-ReportsAtMost (omega arith)
      samples opened (omega arith, (omega arith, tt)) opened-IsValid
      (record { data_width = omega arith; address_width = omega arith })
