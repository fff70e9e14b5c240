-- ===== src/HnswIndexIo/Save.antt =====
-- HnswIndexSerializer::save (src/hnsw_index_io.cpp).
use fast_vector.Prelude.{
  ℕ, ◌+◌, ◌-◌, ◌/◌, ◌%◌, ◌^◌, not, ◌||◌, Option, List, [], ◌∷◌, ◌++◌, length, ltb, ◌==◌,
  if◌then◌else◌, Result, ok, ◌>>=◌, ◌>>◌, throw_if, not_representable, cannot_open, write_failed,
  invalid_live_count,
}
use fast_vector.Bytes.{
  fnv_offset, checksum_little_endian, checksum_bytes, write_little_endian, checked_multiply,
  checked_add,
}
use fast_vector.FlatIndexIo.{Disk, checksum_values, write_values}
use fast_vector.HnswIndex.{Platform, HnswNeighborSelection, HnswIndex, Node, size, node_index_max}
use fast_vector.HnswIndexIo.{
  Header, checksum_header, write_header, current_version, maximum_rng_state_bytes, empty_entry,
}

-- The loops over the layers of a node, and over the nodes, that add up the payload.
unfoldable pub levels_bytes : ℕ → List (List ℕ) → Result ℕ
levels_bytes payload [] = ok payload
levels_bytes payload (neighbors ∷ rest) = do
  with_degree ← checked_add payload 4
  edge_bytes ← checked_multiply (length neighbors) 4
  with_edges ← checked_add with_degree edge_bytes
  levels_bytes with_edges rest

unfoldable pub graph_bytes : ℕ → List Node → Result ℕ
unfolding levels_bytes
graph_bytes payload [] = ok payload
graph_bytes payload (node ∷ rest) = do
  with_level ← checked_add payload 4
  with_layers ← levels_bytes with_level node.levels
  graph_bytes with_layers rest

-- The 32-bit integers of the graph section, in the order in which both passes visit them.
unfoldable pub level_words : List (List ℕ) → List ℕ
level_words [] = []
level_words (neighbors ∷ rest) = length neighbors % 2 ^ 32 ∷ (neighbors ++ level_words rest)

unfoldable pub graph_words : List Node → List ℕ
unfolding level_words
graph_words [] = []
graph_words (node ∷ rest) =
    (length node.levels + 2 ^ 32 - 1) % 2 ^ 32 ∷ (level_words node.levels ++ graph_words rest)

-- The tombstone flags.
unfoldable pub flags : List Node → List ℕ
flags [] = []
flags (node ∷ rest) = (if node.deleted then 1 else 0) ∷ flags rest

unfoldable pub count_deleted : List Node → ℕ
count_deleted [] = 0
count_deleted (node ∷ rest) = (if node.deleted then 1 else 0) + count_deleted rest

abbrev pub selection_code : HnswNeighborSelection → ℕ
selection_code HnswNeighborSelection.simple = 0
selection_code HnswNeighborSelection.heuristic = 1

-- `operator<<` and `operator>>` of the generator in the classic locale: its text, and a state read
-- from the front of a text.
pub record RandomText (platform : Platform) : Type 0 where
  pub print : platform.Random → List ℕ
  pub parse : List ℕ → Option (platform.Random × List ℕ)

module _ (platform : Platform) (text : RandomText platform) where
  -- What is checked of the index before its payload is added up.
  unfoldable pub check_index : HnswIndex platform → Result (Unit {0})
  unfolding count_deleted
  check_index index = do
    let count = length index.ids
    elements ← checked_multiply count index.config.dimension
    throw_if
        (ltb node_index_max count
          || not (elements == length index.vectors)
          || not (length index.graph == count)
          || ltb (node_index_max / 2) index.config.max_connections)
        not_representable
    throw_if (not (count_deleted index.graph == index.deleted_count)) invalid_live_count

  unfoldable pub payload_bytes : HnswIndex platform → Result ℕ
  unfolding graph_bytes
  payload_bytes index = do
    let count = length index.ids
    let state_size = length (text.print index.random)
    elements ← checked_multiply count index.config.dimension
    id_bytes ← checked_multiply count 8
    vector_bytes ← checked_multiply elements 4
    arrays ← checked_add id_bytes vector_bytes
    with_graph ← graph_bytes arrays index.graph
    throw_if (state_size == 0 || ltb maximum_rng_state_bytes state_size) not_representable
    with_state ← checked_add with_graph (4 + state_size)
    tombstones ← checked_add 8 count
    checked_add with_state tombstones

  unfoldable pub header_of : HnswIndex platform → ℕ → Header
  header_of index payload = record {
    version = current_version;
    dimension = index.config.dimension;
    count = length index.ids;
    max_connections = index.config.max_connections;
    ef_construction = index.config.ef_construction;
    ef_search = index.config.ef_search;
    seed = index.config.random_seed;
    selection = selection_code index.config.neighbor_selection;
    top_level = (if length index.ids == 0 then 0 else index.max_level);
    entry_point = (if length index.ids == 0 then empty_entry else index.entry_point);
    payload_bytes = payload;
  }

  unfoldable pub checksum_payload : ℕ → HnswIndex platform → ℕ
  unfolding graph_words flags
  checksum_payload checksum index =
      let c₁ = checksum_values 8 checksum index.ids in
      let c₂ = checksum_values 4 c₁ index.vectors in
      let c₃ = checksum_values 4 c₂ (graph_words index.graph) in
      let c₄ = checksum_little_endian 8 c₃ (size platform index) in
      let c₅ = checksum_values 1 c₄ (flags index.graph) in
      let c₆ = checksum_little_endian 4 c₅ (length (text.print index.random)) in
      checksum_bytes c₆ (text.print index.random)

  unfoldable pub write_payload : HnswIndex platform → List ℕ
  unfolding graph_words flags
  write_payload index =
      let state = text.print index.random in
      let w₁ = write_little_endian 4 (length state) ++ state in
      let w₂ = write_values 1 (flags index.graph) ++ w₁ in
      let w₃ = write_little_endian 8 (size platform index) ++ w₂ in
      let w₄ = write_values 4 (graph_words index.graph) ++ w₃ in
      let w₅ = write_values 4 index.vectors ++ w₄ in write_values 8 index.ids ++ w₅

  unfoldable pub save : Disk → HnswIndex platform → Result (List ℕ)
  unfolding check_index payload_bytes header_of checksum_payload write_payload
  save disk index = do
    check_index index
    payload ← payload_bytes index
    let h = header_of index payload
    let checksum = checksum_payload (checksum_header fnv_offset h) index
    throw_if (not disk.opens) cannot_open
    throw_if (not disk.writes) write_failed
    throw_if (not disk.flushes) write_failed
    ok (write_header h checksum (write_payload index))
