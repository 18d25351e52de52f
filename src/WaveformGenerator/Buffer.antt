-- ===== src/WaveformGenerator/Buffer.antt =====
-- The buffer of IpdbgWaveformGenerator_write: its size, and that the frame stays inside of it.
use ipdbg.Prelude.{
  ℕ, zero, suc, ◌+◌, ◌-◌, ◌*◌, ◌/◌, ◌%◌, ◌^◌, ◌≤◌, ◌<◌, ◌≡◌, refl, true, false, List, arith, leb,
  length, ◌==◌,
}
use native.Mathlib.Nat.{div-mul-le_self, mul-le-mul_right}
use ipdbg.Command.{ok, pure}
use ipdbg.WaveformGenerator.Core.{WfgCore, round_up, max_samples}
use ipdbg.WaveformGenerator.Writing.{
  divide, room_for_samples, payload_bytes, buffer_bytes, stays_inside, frame,
}
use ipdbg.WaveformGenerator.Writing.Length.{length-frame}

-- The numbers of bytes of a handle whose data has at most 2 ^ 32 - 8 bits.
pub record IsBounded (c : WfgCore) : Type 0 where
  pub data_width : c.data_width ≤ 2 ^ 32 - 8
  pub address_width : c.address_width < 2 ^ 32

pub round_up_pos : (a : ℕ) → (a == 0) ≡ false → a ≤ 2 ^ 32 - 8 → 1 ≤ round_up a
unfolding round_up
round_up_pos a h b = ground arith

pub round_up_lt : (a : ℕ) → round_up a < 2 ^ 32
unfolding round_up
round_up_lt a = ground arith

pub divide-eq : (a b : ℕ) → 1 ≤ b → divide a b ≡ pure (a / b)
unfolding divide
divide-eq a zero h = absurd (omega arith)
divide-eq a (suc b) h = refl

-- For an address of less than 2 ^ 32 bytes and a count that passes the guard against large
-- counts, the size of the buffer is computed without wrapping: two bytes for the commands and two
-- for every byte of the payload.
pub buffer_bytes-eq :
    (c : WfgCore) (count : ℕ)
    → c.address_width_bytes < 2 ^ 32
    → count ≤ room_for_samples c.address_width_bytes / c.data_width_bytes
    → buffer_bytes c count ≡ 2 + 2 * (c.address_width_bytes + count * c.data_width_bytes)
unfolding buffer_bytes payload_bytes room_for_samples
buffer_bytes-eq c count h fits = omega (
  arith,
  div-mul-le_self ((2 ^ 63 - 3 + 2 ^ 64 - c.address_width_bytes) % 2 ^ 64) c.data_width_bytes,
  mul-le-mul_right c.data_width_bytes fits,
)

-- The frame stays inside of its buffer, and the samples are all there.
pub stays_inside-eq :
    (c : WfgCore) (samples : List ℕ) (count : ℕ)
    → c.address_width_bytes < 2 ^ 32
    → count ≤ room_for_samples c.address_width_bytes / c.data_width_bytes
    → count * c.data_width_bytes ≤ length samples
    → stays_inside c samples count ≡ pure ok
unfolding stays_inside
stays_inside-eq c samples count h fits given = rw (inside, all) refl
  where
    inside : leb (length (frame c samples count)) (buffer_bytes c count) ≡ true
    inside = ground (arith, length-frame c samples count, buffer_bytes-eq c count h fits)

    all : leb (count * c.data_width_bytes) (length samples) ≡ true
    all = ground (arith, given)

-- The guards have passed.
pub record Counted (c : WfgCore) (count : ℕ) : Type 0 where
  pub some_samples : 1 ≤ count
  pub in_memory : count ≤ max_samples c
  pub in_buffer : count ≤ room_for_samples c.address_width_bytes / c.data_width_bytes
