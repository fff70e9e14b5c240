-- ===== src/FlatIndexIo.antt =====
-- src/flat_index_io.cpp: the file format of the flat index. A path is the bytes of its file; what
-- the file system may refuse (opening, writing, flushing) is an argument.
pub mod Saved
pub mod RoundTrip
use fast_vector.Prelude.{
  ℕ, zero, suc, ◌+◌, ◌-◌, ◌*◌, ◌%◌, ◌^◌, Bool, true, false, not, List, [], ◌∷◌, ◌++◌, Option, none,
  some, length, ltb, ◌==◌, if◌then◌else◌, IdMap, no_ids, assign, is_some, Result, ok, err, ◌>>=◌,
  ◌>>◌, throw_if, Error, cannot_open, write_failed, magic_mismatch, version_mismatch,
  header_size_mismatch, endian_mismatch, flags_mismatch, stored_dimension_zero,
  payload_size_mismatch, file_size_mismatch, stored_duplicate_id, stored_non_finite, not_normalized,
  checksum_mismatch,
}
use fast_vector.Float.{is_finite, double_abs, double_gt, double_one}
use fast_vector.Distance.{Machine, DotProductKernel}
use fast_vector.Bytes.{
  fnv_offset, checksum_little_endian, write_little_endian, read_exact, read_little_endian,
  read_payload_value, checked_multiply, checked_add, to_size_t,
}
use fast_vector.FlatIndex
use fast_vector.FlatIndex.{FlatIndex}

-- "FVINDEX" and a zero byte.
abbrev pub magic : List ℕ
magic = 0x46 ∷ 0x56 ∷ 0x49 ∷ 0x4e ∷ 0x44 ∷ 0x45 ∷ 0x58 ∷ 0 ∷ []

abbrev pub format_version : ℕ
format_version = 1

abbrev pub header_size : ℕ
header_size = 56

abbrev pub endian_marker : ℕ
endian_marker = 0x0102_0304

abbrev pub normalized_cosine_flag : ℕ
normalized_cosine_flag = 1

-- 1.0e-3 as a double.
abbrev pub norm_tolerance : ℕ
norm_tolerance = 0x3f50_624d_d2f1_a9fc

unfoldable pub payload_size : ℕ → ℕ → Result ℕ
payload_size count dimension = do
  id_bytes ← checked_multiply count 8
  element_count ← checked_multiply count dimension
  vector_bytes ← checked_multiply element_count 4
  checked_add id_bytes vector_bytes

-- The loops of `save` over the IDs and over the values, `width` bytes each.
unfoldable pub checksum_values : ℕ → ℕ → List ℕ → ℕ
checksum_values width checksum [] = checksum
checksum_values width checksum (v ∷ vs) =
    checksum_values width (checksum_little_endian width checksum v) vs

unfoldable pub write_values : ℕ → List ℕ → List ℕ
write_values width [] = []
write_values width (v ∷ vs) = write_little_endian width v ++ write_values width vs

unfoldable pub write_header : (dimension count payload checksum : ℕ) → List ℕ → List ℕ
write_header dimension count payload checksum rest =
    magic
    ++ (write_little_endian 4 format_version
        ++ (write_little_endian 4 header_size
            ++ (write_little_endian 4 endian_marker
                ++ (write_little_endian 4 normalized_cosine_flag
                    ++ (write_little_endian 8 dimension
                        ++ (write_little_endian 8 count
                            ++ (write_little_endian 8 payload
                                ++ (write_little_endian 8 checksum ++ rest))))))))

-- The file system: whether the file opens, and whether all bytes can be written and flushed.
pub record Disk : Type 0 where
  pub opens : Bool
  pub writes : Bool
  pub flushes : Bool

unfoldable pub save : Disk → FlatIndex → Result (List ℕ)
unfolding payload_size checksum_values write_values write_header
save disk index = do
  let count = length index.ids % 2 ^ 64
  payload ← payload_size count index.dimension
  let checksum = checksum_values 4 (checksum_values 8 fnv_offset index.ids) index.vectors
  throw_if (not disk.opens) cannot_open
  throw_if (not disk.writes) write_failed
  throw_if (not disk.flushes) write_failed
  ok (
      write_header index.dimension count payload checksum
        (write_values 8 index.ids ++ write_values 4 index.vectors))

pub record Header : Type 0 where
  pub dimension : ℕ
  pub count : ℕ
  pub payload : ℕ
  pub checksum : ℕ

abbrev pub list_eq : List ℕ → List ℕ → Bool
list_eq [] [] = true
list_eq [] (y ∷ ys) = false
list_eq (x ∷ xs) [] = false
list_eq (x ∷ xs) (y ∷ ys) = if x == y then list_eq xs ys else false

unfoldable pub expect : ℕ → Error → List ℕ → Result (List ℕ)
expect value e input = do
  (found, rest) ← read_little_endian 4 input
  throw_if (not (found == value)) e
  ok rest

unfoldable pub read_header : List ℕ → Result (Header × List ℕ)
unfolding expect
read_header input = do
  (found, r₁) ← read_exact 8 input
  throw_if (not (list_eq found magic)) magic_mismatch
  r₂ ← expect format_version version_mismatch r₁
  r₃ ← expect header_size header_size_mismatch r₂
  r₄ ← expect endian_marker endian_mismatch r₃
  r₅ ← expect normalized_cosine_flag flags_mismatch r₄
  (dimension, r₆) ← read_little_endian 8 r₅
  (count, r₇) ← read_little_endian 8 r₆
  (payload, r₈) ← read_little_endian 8 r₇
  (checksum, r₉) ← read_little_endian 8 r₈
  ok (record { dimension = dimension; count = count; payload = payload; checksum = checksum }, r₉)

-- The checks between the header and the payload; `file_bytes` is std::filesystem::file_size.
unfoldable pub validate_header : Header → ℕ → Result (Unit {0})
validate_header h file_bytes = do
  throw_if (h.dimension == 0) stored_dimension_zero
  expected ← payload_size h.count h.dimension
  throw_if (not (h.payload == expected)) payload_size_mismatch
  file_size ← checked_add header_size h.payload
  throw_if (not (file_bytes == file_size)) file_size_mismatch
  dimension ← to_size_t h.dimension
  count ← to_size_t h.count
  product ← checked_multiply h.count h.dimension
  elements ← to_size_t product
  ok tt

pub record ReadIds : Type 0 where
  pub ids : List ℕ
  pub id_to_row : IdMap
  pub checksum : ℕ
  pub rest : List ℕ

-- The loop over the IDs: `left` to come, row `i` next.
unfoldable pub read_ids : (left i : ℕ) → ReadIds → Result ReadIds
read_ids zero i s = ok s
read_ids (suc left) i s = do
  (id, checksum, rest) ← read_payload_value 8 s.checksum s.rest
  throw_if (is_some (s.id_to_row id)) stored_duplicate_id
  read_ids left (i + 1) (record {
    ids = s.ids ++ id ∷ [];
    id_to_row = assign s.id_to_row id (some i);
    checksum = checksum;
    rest = rest;
  })

pub record ReadValues : Type 0 where
  pub vectors : List ℕ
  pub checksum : ℕ
  pub rest : List ℕ

module _ (m : Machine) where
  open m use {widen, dadd, dsub, dmul}

  -- The inner loop over the columns, with the squared norm of the row.
  unfoldable pub read_row : (left squared_norm : ℕ) → ReadValues → Result (ℕ × ReadValues)
  read_row zero squared_norm s = ok (squared_norm, s)
  read_row (suc left) squared_norm s = do
    (value, checksum, rest) ← read_payload_value 4 s.checksum s.rest
    throw_if (not (is_finite value)) stored_non_finite
    read_row left (dadd squared_norm (dmul (widen value) (widen value)))
        (record { vectors = s.vectors ++ value ∷ []; checksum = checksum; rest = rest })

  -- `std::abs(squared_norm - 1.0) > kNormalizedSquaredNormTolerance`
  unfoldable pub off_norm : ℕ → Bool
  off_norm squared_norm = double_gt (double_abs (dsub squared_norm double_one)) norm_tolerance

  unfoldable pub read_rows : (left dimension : ℕ) → ReadValues → Result ReadValues
  unfolding read_row off_norm
  read_rows zero dimension s = ok s
  read_rows (suc left) dimension s = do
    (squared_norm, s') ← read_row dimension 0 s
    throw_if (off_norm squared_norm) not_normalized
    read_rows left dimension s'

  -- `none` is a file that does not open.
  unfoldable pub load : Option (List ℕ) → DotProductKernel → Result FlatIndex
  load none kernel = err cannot_open
  load (some file) kernel = do
    (h, payload) ← read_header file
    validate_header h (length file)
    r ←
        read_ids h.count 0
          (record { ids = []; id_to_row = no_ids; checksum = fnv_offset; rest = payload })
    s ←
        read_rows h.count h.dimension
          (record { vectors = []; checksum = r.checksum; rest = r.rest })
    throw_if (not (s.checksum == h.checksum)) checksum_mismatch
    index ← FlatIndex.create h.dimension kernel
    ok (record index { ids = r.ids; id_to_row = r.id_to_row; vectors = s.vectors })
