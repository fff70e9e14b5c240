-- ===== src/HnswIndexIo/HeaderTrip.antt =====
-- The header of src/hnsw_index_io.cpp, written and read; integers and the checksum with them.
use fast_vector.Prelude.{ℕ, ◌^◌, ◌≤◌, ◌<◌, ◌≡◌, List, ◌++◌, Error, ok, arith, ==-refl, ltb, false}
use fast_vector.Bytes.{write_little_endian, checksum_little_endian, checksum_bytes}
use fast_vector.Bytes.Codec.{read_payload_value-write, read-write_little_endian}
use fast_vector.HnswIndexIo.{
  Header, magic, read_integer, expect, read_version, read_header, write_header, checksum_header,
  header_size, endian_marker, normalized_cosine_flag, legacy_version, current_version,
}

pub read_integer-write :
    (width checksum value : ℕ) (rest : List ℕ)
    → value < 256 ^ width
    → read_integer width
        (record { checksum = checksum; rest = write_little_endian width value ++ rest })
      ≡ ok (value, record { checksum = checksum_little_endian width checksum value; rest = rest })
unfolding read_integer
read_integer-write width checksum value rest h =
    rw (read_payload_value-write width checksum value rest h)

expect-write :
    (value checksum : ℕ) (e : Error) (rest : List ℕ)
    → value < 256 ^ 4
    → expect value e (record { checksum = checksum; rest = write_little_endian 4 value ++ rest })
      ≡ ok (record { checksum = checksum_little_endian 4 checksum value; rest = rest })
unfolding expect
expect-write value checksum e rest h =
    rw (read_integer-write 4 checksum value rest h, ==-refl value)

-- Each field fits its width, and the version is one of the three.
pub record FitsHeader (h : Header) : Type 0 where
  pub known : legacy_version ≤ h.version
  pub supported : h.version ≤ current_version
  pub dimension : h.dimension < 2 ^ 64
  pub count : h.count < 2 ^ 64
  pub max_connections : h.max_connections < 2 ^ 64
  pub ef_construction : h.ef_construction < 2 ^ 64
  pub ef_search : h.ef_search < 2 ^ 64
  pub seed : h.seed < 2 ^ 64
  pub selection : h.selection < 2 ^ 32
  pub top_level : h.top_level < 2 ^ 64
  pub entry_point : h.entry_point < 2 ^ 64
  pub payload_bytes : h.payload_bytes < 2 ^ 64

read_version-write :
    (h : Header) (checksum : ℕ) (rest : List ℕ)
    → FitsHeader h
    → read_version (magic ++ (write_little_endian 4 h.version ++ rest)) checksum
      ≡ ok (
        h.version,
        record {
          checksum = checksum_little_endian 4 (checksum_bytes checksum magic) h.version;
          rest = rest;
        },
      )
unfolding read_version
read_version-write h checksum rest f =
    let low : ltb h.version legacy_version ≡ false = ground (arith, f.known) in
    let high : ltb current_version h.version ≡ false = ground (arith, f.supported) in
    rw (
      read_integer-write 4 (checksum_bytes checksum magic) h.version rest
          (omega (arith, f.supported)),
      low,
      high,
    )

-- A header of the HNSW format is read back from what was written, with the stored checksum,
-- whatever follows, and the checksum of what was read is the one the writer computes. The version
-- is supported, and the fields fit their widths.
pub read-write_graph_header :
    (h : Header) (stored checksum : ℕ) (rest : List ℕ)
    → FitsHeader h
    → stored < 2 ^ 64
    → read_header (write_header h stored rest) checksum
      ≡ ok (h, stored, record { checksum = checksum_header checksum h; rest = rest })
unfolding read_header write_header checksum_header
read-write_graph_header h stored checksum rest f s = rw (
  read_version-write h checksum _ f,
  expect-write header_size _ _ _ (omega arith),
  expect-write endian_marker _ _ _ (omega arith),
  expect-write normalized_cosine_flag _ _ _ (omega arith),
  read_integer-write 8 _ h.dimension _ f.dimension,
  read_integer-write 8 _ h.count _ f.count,
  read_integer-write 8 _ h.max_connections _ f.max_connections,
  read_integer-write 8 _ h.ef_construction _ f.ef_construction,
  read_integer-write 8 _ h.ef_search _ f.ef_search,
  read_integer-write 8 _ h.seed _ f.seed,
  read_integer-write 4 _ h.selection _ f.selection,
  expect-write 0 _ _ _ (omega arith),
  read_integer-write 8 _ h.top_level _ f.top_level,
  read_integer-write 8 _ h.entry_point _ f.entry_point,
  read_integer-write 8 _ h.payload_bytes _ f.payload_bytes,
  read-write_little_endian 8 stored rest s,
)
