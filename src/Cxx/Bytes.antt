-- ===== src/Cxx/Bytes.antt =====
-- sw/BusAccess/BusAccessCxx.tpp: numbers of an unsigned type of `size` bytes, and the bytes of a
-- field, the least significant first.
pub mod RoundTrip
use Prim.Native.Nat.{bit_and, bit_or}
use ipdbg.Prelude.{
  ℕ, zero, suc, ◌+◌, ◌-◌, ◌*◌, ◌/◌, ◌%◌, ◌^◌, not, ◌&&◌, List, [], ◌∷◌, ltb, ◌==◌, if◌then◌else◌,
}
use ipdbg.Prelude.Bits.{shl, shr}
use ipdbg.Cxx.{FieldName, Thrown, Result}

-- `std::numeric_limits<T>::digits`
abbrev pub digits : ℕ → ℕ
digits size = size * 8

unfoldable pub bytes_for_bits : ℕ → ℕ
bytes_for_bits bits = (bits + 7) / 8

-- `left` elements of the buffer from the index `i` on; those from `sizeof(T)` on stay 0.
unfoldable pub to_bytes_loop : ℕ → ℕ → ℕ → ℕ → List ℕ
to_bytes_loop size number zero i = []
to_bytes_loop size number (suc left) i =
    (if ltb i size then shr number (i * 8) % 2 ^ 8 else 0) ∷ to_bytes_loop size number left (suc i)

unfoldable pub to_bytes : ℕ → ℕ → ℕ → FieldName → Result (List ℕ)
unfolding to_bytes_loop bytes_for_bits
to_bytes size number bits field =
    if ltb bits (digits size) && not (shr number bits == 0)
    then Result.thrown (Thrown.exceeds field number bits)
    else Result.value (to_bytes_loop size number (bytes_for_bits bits) 0)

-- The elements of the buffer from the index `i` on; each is a `uint8_t`.
unfoldable pub from_bytes_loop : ℕ → ℕ → ℕ → List ℕ → ℕ
from_bytes_loop size result i [] = result
from_bytes_loop size result i (b ∷ buffer) =
    from_bytes_loop size (bit_or result (shl (b % 2 ^ 8) (i * 8) % 2 ^ digits size)) (suc i) buffer

unfoldable pub from_bytes : ℕ → List ℕ → ℕ → Result ℕ
unfolding from_bytes_loop
from_bytes size buffer bits =
    if ltb (digits size) bits
    then Result.thrown (Thrown.does_not_fit bits (digits size))
    else Result.value (
        if ltb bits (digits size)
        then bit_and (from_bytes_loop size 0 0 buffer) ((shl 1 bits - 1) % 2 ^ digits size)
        else from_bytes_loop size 0 0 buffer)
