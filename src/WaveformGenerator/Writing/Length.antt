-- ===== src/WaveformGenerator/Writing/Length.antt =====
-- The length of the frame of IpdbgWaveformGenerator_write.
use ipdbg.Prelude.{
  ℕ, zero, suc, ◌+◌, ◌-◌, ◌*◌, ◌%◌, ◌^◌, ◌≤◌, List, ◌∷◌, arith, ltb, if◌then◌else◌, get_or, drop,
  length, length-append,
}
use ipdbg.Prelude.Bits.{shr}
use ipdbg.Escaping.{escape}
use ipdbg.WaveformGenerator.Core.{WfgCore, write_samples_cmd}
use ipdbg.WaveformGenerator.Writing.{count_loop, sample_loop, samples_loop, frame}

length-count_loop : (x n : ℕ) → length (count_loop x n) ≤ 2 * n
unfolding count_loop escape
length-count_loop x zero = ground arith
length-count_loop x (suc n) = ground (
  arith,
  length-append (escape (if ltb n 8 then shr x (n * 8) % 2 ^ 8 else 0)) (count_loop x n),
  length-count_loop x n,
)

length-sample_loop : (sample : List ℕ) (n : ℕ) → length (sample_loop sample n) ≤ 2 * n
unfolding sample_loop escape
length-sample_loop sample zero = ground arith
length-sample_loop sample (suc n) = ground (
  arith,
  length-append (escape (get_or sample n 0)) (sample_loop sample n),
  length-sample_loop sample n,
)

length-samples_loop :
    (n : ℕ) (samples : List ℕ) (left s : ℕ)
    → length (samples_loop n samples left s) ≤ 2 * (left * n)
unfolding samples_loop
length-samples_loop n samples zero s = ground arith
length-samples_loop n samples (suc left) s = omega (
  arith,
  length-append (sample_loop (drop (s * n) samples) n) (samples_loop n samples left (suc s)),
  length-sample_loop (drop (s * n) samples) n,
  length-samples_loop n samples left (suc s),
)

-- The frame of IpdbgWaveformGenerator_write has at most two bytes for the commands and two for
-- every byte of the payload.
pub length-frame :
    (c : WfgCore) (samples : List ℕ) (count : ℕ)
    → length (frame c samples count) ≤ 2 + 2 * (c.address_width_bytes + count * c.data_width_bytes)
unfolding frame
length-frame c samples count = omega (
  arith,
  length-append (count_loop (count - 1) c.address_width_bytes)
      (write_samples_cmd ∷ samples_loop c.data_width_bytes samples count 0),
  length-count_loop (count - 1) c.address_width_bytes,
  length-samples_loop c.data_width_bytes samples count 0,
)
