-- ===== src/HnswIndexIo.antt =====
-- src/hnsw_index_io.cpp: the file format of the HNSW index, its header here and its payload in the
-- children. The integers and the checksum are those of `Bytes`, as in the flat format.
pub mod Save
pub mod Load
pub mod Layout
pub mod Flags
pub mod Sound
pub mod Navigable
pub mod HeaderTrip
pub mod GraphTrip
pub mod Sizes
pub mod Accepted
pub mod Savable
pub mod Payload
pub mod RoundTrip
use fast_vector.Prelude.{
  ℕ, ◌+◌, ◌-◌, ◌*◌, ◌/◌, ◌^◌, Bool, true, false, not, ◌&&◌, ◌||◌, List, [], ◌∷◌, take, drop, ◌++◌,
  ltb, leb, ◌==◌, if◌then◌else◌, Result, ok, ◌>>=◌, ◌>>◌, throw_if, Error, magic_mismatch,
  version_mismatch, header_size_mismatch, endian_mismatch, flags_mismatch, reserved_not_zero,
  invalid_header, payload_too_small, file_size_mismatch, invalid_entry_point,
}
use fast_vector.Bytes.{
  checksum_little_endian, checksum_bytes, write_little_endian, read_little_endian,
  read_payload_value, checked_multiply, checked_add, to_size_t,
}
use fast_vector.FlatIndexIo.{list_eq}

-- "FVHNSW" and two zero bytes.
abbrev pub magic : List ℕ
magic = 0x46 ∷ 0x56 ∷ 0x48 ∷ 0x4e ∷ 0x53 ∷ 0x57 ∷ 0 ∷ 0 ∷ []

abbrev pub current_version : ℕ
current_version = 3

abbrev pub rng_state_version : ℕ
rng_state_version = 2

abbrev pub legacy_version : ℕ
legacy_version = 1

abbrev pub header_size : ℕ
header_size = 112

abbrev pub maximum_rng_state_bytes : ℕ
maximum_rng_state_bytes = 16 * 1024

abbrev pub endian_marker : ℕ
endian_marker = 0x0102_0304

abbrev pub normalized_cosine_flag : ℕ
normalized_cosine_flag = 1

abbrev pub maximum_level : ℕ
maximum_level = 63

abbrev pub empty_entry : ℕ
empty_entry = 2 ^ 64 - 1

abbrev pub uint32_max : ℕ
uint32_max = 2 ^ 32 - 1

pub record Header : Type 0 where
  pub version : ℕ
  pub dimension : ℕ
  pub count : ℕ
  pub max_connections : ℕ
  pub ef_construction : ℕ
  pub ef_search : ℕ
  pub seed : ℕ
  pub selection : ℕ
  pub top_level : ℕ
  pub entry_point : ℕ
  pub payload_bytes : ℕ

unfoldable pub checksum_header : ℕ → Header → ℕ
checksum_header checksum h =
    let c₀ = checksum_bytes checksum magic in
    let c₁ = checksum_little_endian 4 c₀ h.version in
    let c₂ = checksum_little_endian 4 c₁ header_size in
    let c₃ = checksum_little_endian 4 c₂ endian_marker in
    let c₄ = checksum_little_endian 4 c₃ normalized_cosine_flag in
    let c₅ = checksum_little_endian 8 c₄ h.dimension in
    let c₆ = checksum_little_endian 8 c₅ h.count in
    let c₇ = checksum_little_endian 8 c₆ h.max_connections in
    let c₈ = checksum_little_endian 8 c₇ h.ef_construction in
    let c₉ = checksum_little_endian 8 c₈ h.ef_search in
    let d₀ = checksum_little_endian 8 c₉ h.seed in
    let d₁ = checksum_little_endian 4 d₀ h.selection in
    let d₂ = checksum_little_endian 4 d₁ 0 in
    let d₃ = checksum_little_endian 8 d₂ h.top_level in
    let d₄ = checksum_little_endian 8 d₃ h.entry_point in
    checksum_little_endian 8 d₄ h.payload_bytes

-- The header before what follows it in the file.
unfoldable pub write_header : Header → ℕ → List ℕ → List ℕ
write_header h checksum rest =
    let w₀ = write_little_endian 8 checksum ++ rest in
    let w₁ = write_little_endian 8 h.payload_bytes ++ w₀ in
    let w₂ = write_little_endian 8 h.entry_point ++ w₁ in
    let w₃ = write_little_endian 8 h.top_level ++ w₂ in
    let w₄ = write_little_endian 4 0 ++ w₃ in
    let w₅ = write_little_endian 4 h.selection ++ w₄ in
    let w₆ = write_little_endian 8 h.seed ++ w₅ in
    let w₇ = write_little_endian 8 h.ef_search ++ w₆ in
    let w₈ = write_little_endian 8 h.ef_construction ++ w₇ in
    let w₉ = write_little_endian 8 h.max_connections ++ w₈ in
    let v₀ = write_little_endian 8 h.count ++ w₉ in
    let v₁ = write_little_endian 8 h.dimension ++ v₀ in
    let v₂ = write_little_endian 4 normalized_cosine_flag ++ v₁ in
    let v₃ = write_little_endian 4 endian_marker ++ v₂ in
    let v₄ = write_little_endian 4 header_size ++ v₃ in
    magic ++ (write_little_endian 4 h.version ++ v₄)

-- What has been read so far, as a checksum, and what is left of the input.
pub record Reader : Type 0 where
  pub checksum : ℕ
  pub rest : List ℕ

-- read_integer with a checksum.
unfoldable pub read_integer : ℕ → Reader → Result (ℕ × Reader)
read_integer width r = do
  (value, checksum, rest) ← read_payload_value width r.checksum r.rest
  ok (value, record { checksum = checksum; rest = rest })

unfoldable pub expect : ℕ → Error → Reader → Result Reader
unfolding read_integer
expect value e r = do (found, r') ← read_integer 4 r; throw_if (not (found == value)) e; ok r'

-- The magic bytes and the version.
unfoldable pub read_version : List ℕ → ℕ → Result (ℕ × Reader)
unfolding read_integer
read_version input checksum = do
  throw_if (not (list_eq (take 8 input) magic)) magic_mismatch
  (version, r) ←
      read_integer 4
        (record { checksum = checksum_bytes checksum (take 8 input); rest = drop 8 input })
  throw_if (ltb version legacy_version || ltb current_version version) version_mismatch
  ok (version, r)

-- The header, the stored checksum, and the reader behind them.
unfoldable pub read_header : List ℕ → ℕ → Result (Header × ℕ × Reader)
unfolding read_version expect read_integer
read_header input checksum = do
  (version, r₁) ← read_version input checksum
  r₂ ← expect header_size header_size_mismatch r₁
  r₃ ← expect endian_marker endian_mismatch r₂
  r₄ ← expect normalized_cosine_flag flags_mismatch r₃
  (dimension, r₅) ← read_integer 8 r₄
  (count, r₆) ← read_integer 8 r₅
  (max_connections, r₇) ← read_integer 8 r₆
  (ef_construction, r₈) ← read_integer 8 r₇
  (ef_search, r₉) ← read_integer 8 r₈
  (seed, s₀) ← read_integer 8 r₉
  (selection, s₁) ← read_integer 4 s₀
  s₂ ← expect 0 reserved_not_zero s₁
  (top_level, s₃) ← read_integer 8 s₂
  (entry_point, s₄) ← read_integer 8 s₃
  (payload_bytes, s₅) ← read_integer 8 s₄
  (stored, rest) ← read_little_endian 8 s₅.rest
  ok (
    record {
      version = version;
      dimension = dimension;
      count = count;
      max_connections = max_connections;
      ef_construction = ef_construction;
      ef_search = ef_search;
      seed = seed;
      selection = selection;
      top_level = top_level;
      entry_point = entry_point;
      payload_bytes = payload_bytes;
    },
    stored,
    record { checksum = s₅.checksum; rest = rest },
  )

-- The first condition of validate_header.
unfoldable pub bad_configuration : Header → Bool
bad_configuration h =
    h.dimension == 0
    || ltb h.max_connections 2
    || ltb (uint32_max / 2) h.max_connections
    || ltb h.ef_construction h.max_connections
    || h.ef_search == 0
    || ltb 1 h.selection
    || ltb uint32_max h.count
    || ltb maximum_level h.top_level

-- What the generator and the tombstones of the newer versions add to the payload.
unfoldable pub add_sections : Header → ℕ → ℕ → Result ℕ
add_sections h payload state_bytes = do
  with_state ←
      (if leb rng_state_version h.version then checked_add payload state_bytes else ok payload)
  (if h.version == current_version
      then (do tombstones ← checked_add 8 h.count; checked_add with_state tombstones)
      else ok with_state)

-- IDs and vectors.
unfoldable pub array_bytes : Header → Result ℕ
array_bytes h = do
  elements ← checked_multiply h.count h.dimension
  vector_bytes ← checked_multiply elements 4
  id_bytes ← checked_multiply h.count 8
  checked_add id_bytes vector_bytes

unfoldable pub maximum_graph_bytes : Header → Result ℕ
maximum_graph_bytes h = do
  degree_bytes ← checked_multiply (h.max_connections * 2) 4
  layer_bytes ← checked_add 4 degree_bytes
  layers ← checked_multiply (maximum_level + 1) layer_bytes
  node_bytes ← checked_add 4 layers
  checked_multiply h.count node_bytes

unfoldable pub check_entry : Header → Result (Unit {0})
check_entry h =
    if h.count == 0
    then throw_if (not (h.entry_point == empty_entry) || not (h.top_level == 0)) invalid_entry_point
    else throw_if (leb h.count h.entry_point) invalid_entry_point

-- A size_t has 64 bits, so checked_size only fails beyond them.
unfoldable pub validate_header : Header → ℕ → Result (Unit {0})
unfolding bad_configuration add_sections array_bytes maximum_graph_bytes check_entry
validate_header h file_bytes = do
  throw_if (bad_configuration h) invalid_header
  arrays ← array_bytes h
  minimum_graph ← checked_multiply h.count 8
  least ← checked_add arrays minimum_graph
  minimum_payload ← add_sections h least 5
  throw_if (ltb h.payload_bytes minimum_payload) payload_too_small
  maximum_graph ← maximum_graph_bytes h
  most ← checked_add arrays maximum_graph
  maximum_payload ← add_sections h most (4 + maximum_rng_state_bytes)
  throw_if (ltb maximum_payload h.payload_bytes) file_size_mismatch
  file_size ← checked_add header_size h.payload_bytes
  throw_if (not (file_size == file_bytes)) file_size_mismatch
  check_entry h
