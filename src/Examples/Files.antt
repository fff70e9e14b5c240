-- ===== src/Examples/Files.antt =====
-- Numbers and a whole index, written and read.
use fast_vector.Prelude.{
  ℕ, ◌+◌, ◌*◌, ◌^◌, ◌≤◌, ◌<◌, ◌≡◌, ◌⊎◌, refl, List, [], ◌∷◌, ◌++◌, arith, true, some, ok, err,
  size_overflow,
}
use fast_vector.Distance.{scalar, normalize_l2}
use fast_vector.Float.{is_finite, double_abs, double_gt, double_is_nan, double_key}
use fast_vector.Bytes.{
  write_little_endian, read_little_endian, read_payload_value, checksum_little_endian,
  checked_multiply, checked_add, fnv_offset,
}
use fast_vector.Bytes.Codec.{
  read-write_little_endian, read_payload_value-write, checked_multiply_exact, checked_add_exact,
}
use fast_vector.FlatIndex
use fast_vector.FlatIndexIo
use fast_vector.FlatIndexIo.{Disk, payload_size, off_norm}
use fast_vector.FlatIndexIo.RoundTrip.{load-save, payload_size-eq-ok}
use fast_vector.Examples.{toy, two_rows}
use fast_vector.Examples.Indexes.{two_rows-IsValid}

read-write_little_endian_example :
    read_little_endian 4 (write_little_endian 4 1000 ++ 9 ∷ []) ≡ ok (1000, 9 ∷ [])
read-write_little_endian_example = read-write_little_endian 4 1000 (9 ∷ []) (omega arith)

read_payload_value-write_example :
    read_payload_value 8 fnv_offset (write_little_endian 8 1000 ++ 9 ∷ [])
    ≡ ok (1000, checksum_little_endian 8 fnv_offset 1000, 9 ∷ [])
read_payload_value-write_example = read_payload_value-write 8 fnv_offset 1000 (9 ∷ []) (omega arith)

checked_multiply_exact_example :
    ((2 ^ 40 * 2 ^ 30 < 2 ^ 64) × (checked_multiply (2 ^ 40) (2 ^ 30) ≡ ok (2 ^ 40 * 2 ^ 30)))
    ⊎ ((2 ^ 64 ≤ 2 ^ 40 * 2 ^ 30) × (checked_multiply (2 ^ 40) (2 ^ 30) ≡ err size_overflow))
checked_multiply_exact_example =
    checked_multiply_exact (2 ^ 40) (2 ^ 30) (omega arith) (omega arith)

checked_add_exact_example :
    ((2 ^ 63 + 2 ^ 63 < 2 ^ 64) × (checked_add (2 ^ 63) (2 ^ 63) ≡ ok (2 ^ 63 + 2 ^ 63)))
    ⊎ ((2 ^ 64 ≤ 2 ^ 63 + 2 ^ 63) × (checked_add (2 ^ 63) (2 ^ 63) ≡ err size_overflow))
checked_add_exact_example = checked_add_exact (2 ^ 63) (2 ^ 63) (omega arith) (omega arith)

payload_size-eq-ok_example :
    (32 ≡ 2 * 8 + 2 * 2 * 4)
    × (32 < 2 ^ 64)
    × (checked_multiply 2 2 ≡ ok (2 * 2))
    × (2 * 2 < 2 ^ 64)
unfolding payload_size checked_multiply checked_add
payload_size-eq-ok_example = payload_size-eq-ok 2 2 {p = 32} (omega arith) (omega arith) refl

abbrev sound : Disk
sound = record { opens = true; writes = true; flushes = true }

abbrev pub saved_file : List ℕ
saved_file =
    FlatIndexIo.write_header 2 2 32
      (FlatIndexIo.checksum_values 4 (FlatIndexIo.checksum_values 8 fnv_offset two_rows.ids)
        two_rows.vectors)
      (FlatIndexIo.write_values 8 two_rows.ids ++ FlatIndexIo.write_values 4 two_rows.vectors)

load-save_example : FlatIndexIo.load toy (some saved_file) scalar ≡ ok two_rows
unfolding FlatIndex.add normalize_l2 FlatIndexIo.save is_finite off_norm double_abs double_gt
    payload_size checked_multiply checked_add write_little_endian double_is_nan double_key
load-save_example =
    load-save toy sound two_rows saved_file two_rows-IsValid (omega arith, (omega arith, tt))
      ((omega arith, refl), ((omega arith, refl), ((omega arith, refl), ((omega arith, refl), tt))))
      (refl, (refl, tt)) (omega arith) (omega arith) refl

pub saved_file-loads : FlatIndexIo.load toy (some saved_file) scalar ≡ ok two_rows
unfolding FlatIndex.add normalize_l2 FlatIndexIo.save is_finite off_norm double_abs double_gt
    payload_size checked_multiply checked_add write_little_endian double_is_nan double_key
saved_file-loads =
    load-save toy sound two_rows saved_file two_rows-IsValid (omega arith, (omega arith, tt))
      ((omega arith, refl), ((omega arith, refl), ((omega arith, refl), ((omega arith, refl), tt))))
      (refl, (refl, tt)) (omega arith) (omega arith) refl
