-- ===== src/Bytes.antt =====
-- The byte level of the two index formats (flat_index_io.cpp, hnsw_index_io.cpp): unsigned integers
-- with the lowest byte first, and the FNV-1a checksum over bytes. A file is a list of bytes.
pub mod Codec
use fast_vector.Prelude.{
  ℕ, zero, suc, ◌+◌, ◌-◌, ◌*◌, ◌/◌, ◌%◌, ◌^◌, ◌<◌, bit_xor, List, [], ◌∷◌, ◌++◌, length, take, drop,
  ltb, leb, not, ◌&&◌, ◌==◌, Result, ok, err, ◌>>=◌, ◌>>◌, throw_if, Error, truncated,
  size_overflow, platform_limit, if◌then◌else◌,
}

abbrev pub fnv_offset : ℕ
fnv_offset = 14695981039346656037

abbrev pub fnv_prime : ℕ
fnv_prime = 1099511628211

unfoldable pub update_checksum : ℕ → ℕ → ℕ
update_checksum checksum byte = bit_xor checksum byte * fnv_prime % 2 ^ 64

-- The loop over the `width` bytes of a value: `value & 0xFF`, then `value >>= 8`.
unfoldable pub checksum_little_endian : ℕ → ℕ → ℕ → ℕ
unfolding update_checksum
checksum_little_endian zero checksum value = checksum
checksum_little_endian (suc width) checksum value =
    checksum_little_endian width (update_checksum checksum (value % 256)) (value / 256)

-- The same loop, over the bytes that are written.
unfoldable pub write_little_endian : ℕ → ℕ → List ℕ
write_little_endian zero value = []
write_little_endian (suc width) value = value % 256 ∷ write_little_endian width (value / 256)

unfoldable pub read_exact : ℕ → List ℕ → Result (List ℕ × List ℕ)
read_exact size input = do
  throw_if (ltb (length input) size) truncated
  ok (take size input, drop size input)

-- `value |= byte << (8 * i)`: the bits of `value` lie below, so this adds.
unfoldable pub accumulate : ℕ → ℕ → List ℕ → ℕ
accumulate i value [] = value
accumulate i value (byte ∷ bytes) = accumulate (suc i) (value + byte * 256 ^ i) bytes

unfoldable pub read_little_endian : ℕ → List ℕ → Result (ℕ × List ℕ)
unfolding read_exact accumulate
read_little_endian width input = do
  (bytes, rest) ← read_exact width input
  ok (accumulate 0 0 bytes, rest)

unfoldable pub checksum_bytes : ℕ → List ℕ → ℕ
unfolding update_checksum
checksum_bytes checksum [] = checksum
checksum_bytes checksum (byte ∷ bytes) = checksum_bytes (update_checksum checksum byte) bytes

-- The value, the checksum and the rest of the input.
unfoldable pub read_payload_value : ℕ → ℕ → List ℕ → Result (ℕ × ℕ × List ℕ)
unfolding read_exact accumulate checksum_bytes
read_payload_value width checksum input = do
  (bytes, rest) ← read_exact width input
  ok (accumulate 0 0 bytes, checksum_bytes checksum bytes, rest)

abbrev pub u64_max : ℕ
u64_max = 2 ^ 64 - 1

unfoldable pub checked_multiply : ℕ → ℕ → Result ℕ
checked_multiply lhs rhs = do
  throw_if (not (lhs == 0) && ltb (u64_max / lhs) rhs) size_overflow
  ok (lhs * rhs % 2 ^ 64)

unfoldable pub checked_add : ℕ → ℕ → Result ℕ
checked_add lhs rhs = do throw_if (ltb (u64_max - lhs) rhs) size_overflow; ok ((lhs + rhs) % 2 ^ 64)

-- A size_t has 64 bits.
unfoldable pub to_size_t : ℕ → Result ℕ
to_size_t value = do throw_if (ltb u64_max value) platform_limit; ok value
