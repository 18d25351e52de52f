-- ===== src/Cxx/Waveform.antt =====
-- sw/WaveformGenerator/WaveformGeneratorCxx.cpp: the class around the waveform generator library.
pub mod Samples
pub mod Written
use ipdbg.Prelude.{
  ℕ, zero, suc, ◌+◌, ◌-◌, ◌*◌, ◌/◌, ◌%◌, ◌^◌, ◌||◌, Bool, true, false, Option, none, some, List, [],
  ◌∷◌, ◌++◌, ltb, ◌==◌, if◌then◌else◌, length,
}
use ipdbg.Prelude.Bits.{shl, shr}
use ipdbg.Prelude.Int.{ℤ, pos, negsuc, ltb_ℤ}
use ipdbg.Os.{Os}
use ipdbg.Command.{Ret, this, Handle, Cmd, fault, is_none}
use ipdbg.WaveformGenerator.Core.{WfgCore}
use ipdbg.WaveformGenerator.Session
use ipdbg.WaveformGenerator.Session.{get_data_width, get_address_width, get_max_samples, get_status}
use ipdbg.WaveformGenerator.Writing
use ipdbg.Cxx.{
  unable_to_allocate, data_width_too_wide, samples_empty, exceeds_memory, outside_the_range, Result,
  value, thrown, Call, ◌>>=◌, ◌>>◌, returns, call, lift, throw_if, check_result, result_of,
}

unfoldable pub construct : Bool → Result (Handle WfgCore)
construct allocated = elim (Session.new allocated) [
  | none ↦ thrown unable_to_allocate
  | some h ↦ value h
]

unfoldable pub data_width : Call WfgCore ℕ
unfolding result_of
data_width = do result ← call (get_data_width this true); result_of result

unfoldable pub address_width : Call WfgCore ℕ
unfolding result_of
address_width = do result ← call (get_address_width this true); result_of result

unfoldable pub max_samples : Call WfgCore ℕ
unfolding result_of
max_samples = do result ← call (get_max_samples this true); result_of result

-- `-(int64_t{1} << (bits - 1))`, or INT64_MIN; a shift by `0 - 1` bits is undefined.
unfoldable pub min_value : ℕ → Call WfgCore ℤ
min_value zero = λ s. fault
min_value (suc bits) = returns (negsuc (if ltb (suc bits) 64 then shl 1 bits - 1 else 2 ^ 63 - 1))

-- `(int64_t{1} << bits) - 1`, or INT64_MAX.
unfoldable pub max_value : ℕ → ℤ
max_value bits = pos (if ltb bits 63 then shl 1 bits - 1 else 2 ^ 63 - 1)

-- `static_cast<uint64_t>(value)`
unfoldable pub raw_of : ℤ → ℕ
raw_of (pos n) = n % 2 ^ 64
raw_of (negsuc n) = (2 ^ 64 - 1 - n) % 2 ^ 64

-- The `left` bytes of a sample from the index `i` on; `uint64_t` has eight.
unfoldable pub raw_loop : ℕ → ℕ → ℕ → List ℕ
raw_loop raw zero i = []
raw_loop raw (suc left) i = shr raw (i * 8) % 2 ^ 8 ∷ raw_loop raw left (suc i)

unfoldable pub appended : List ℕ → Result (List ℕ) → Result (List ℕ)
appended bytes (value rest) = value (bytes ++ rest)
appended bytes (thrown e) = thrown e

abbrev pub is_empty : List ℤ → Bool
is_empty [] = true
is_empty (sample ∷ samples) = false

-- The samples from the index `s` on, up to the first outside of the range.
unfoldable pub encode_loop : ℤ → ℤ → ℕ → ℕ → List ℤ → Result (List ℕ)
unfolding raw_of raw_loop appended
encode_loop least most bytes s [] = value []
encode_loop least most bytes s (sample ∷ samples) =
    if ltb_ℤ sample least || ltb_ℤ most sample
    then thrown (outside_the_range s)
    else appended (raw_loop (raw_of sample) bytes 0) (encode_loop least most bytes (suc s) samples)

module _ (os : Os) (fuel : ℕ) where
  -- The destructor.
  unfoldable pub destruct : Cmd WfgCore Ret
  destruct = Session.delete os fuel this

  unfoldable pub open_connection : ℕ → ℕ → Call WfgCore (Unit {0})
  unfolding check_result
  open_connection host port = do
    ret ← call (Session.open_connection os fuel this (some host) (some port))
    check_result ret

  unfoldable pub close : Call WfgCore (Unit {0})
  unfolding check_result
  close = do ret ← call (Session.close os fuel this); check_result ret

  unfoldable pub set_timeout : ℕ → Call WfgCore (Unit {0})
  unfolding check_result
  set_timeout milliseconds = do
    ret ← call (Session.set_timeout os fuel this milliseconds)
    check_result ret

  -- What the library has stored through the pointer.
  unfoldable pub status : Call WfgCore (Bool × Bool)
  unfolding check_result
  status = do
    (ret, bits) ← call (get_status os fuel this)
    check_result ret
    elim bits [ none ↦ λ s. fault | some stored ↦ returns stored ]

  unfoldable pub is_running : Call WfgCore Bool
  unfolding status
  is_running = do stored ← status; returns stored.0

  unfoldable pub has_double_buffer : Call WfgCore Bool
  unfolding status
  has_double_buffer = do stored ← status; returns stored.1

  -- `rounds` bounds the answers that the library waits for.
  unfoldable pub write : ℕ → List ℤ → Call WfgCore (Unit {0})
  write rounds samples = do
    bits ← data_width
    throw_if (ltb 64 bits) (data_width_too_wide bits)
    throw_if (is_empty samples) samples_empty
    most ← max_samples
    throw_if (ltb most (length samples)) (exceeds_memory (length samples) most)
    least ← min_value bits
    buffer ← lift (encode_loop least (max_value bits) ((bits + 7) / 8) 0 samples)
    ret ← call (Writing.write os fuel rounds this (some buffer) (length samples))
    check_result ret

  unfoldable pub start : Call WfgCore (Unit {0})
  unfolding check_result
  start = do ret ← call (Session.start os fuel this); check_result ret

  unfoldable pub stop : Call WfgCore (Unit {0})
  unfolding check_result
  stop = do ret ← call (Session.stop os fuel this); check_result ret

  unfoldable pub one_shot : Call WfgCore (Unit {0})
  unfolding check_result
  one_shot = do ret ← call (Session.one_shot os fuel this); check_result ret
