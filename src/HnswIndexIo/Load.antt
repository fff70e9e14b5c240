-- ===== src/HnswIndexIo/Load.antt =====
-- HnswIndexSerializer::load (src/hnsw_index_io.cpp). The position in the file is its length less
-- what is left to read.
use fast_vector.Prelude.{
  ℕ, zero, suc, ◌+◌, ◌-◌, ◌*◌, Bool, true, false, not, ◌&&◌, ◌||◌, List, [], ◌∷◌, ◌++◌, Option,
  none, some, length, get_or, ltb, leb, max, ◌==◌, if◌then◌else◌, no_ids, Result, ok, err, ◌>>=◌,
  ◌>>◌, throw_if, cannot_open, storage_exceeded, level_exceeds_maximum, degree_exceeds_limit,
  list_exceeds_payload, neighbor_out_of_range, self_loop, duplicate_neighbor,
  maximum_level_mismatch, absent_neighbor, invalid_live_count, invalid_flag, invalid_random_state,
  checksum_mismatch,
}
use fast_vector.Distance.{Machine, DotProductKernel}
use fast_vector.Bytes.{fnv_offset, read_exact, checksum_bytes, checked_multiply, checked_add}
use fast_vector.FlatIndexIo.{read_ids, read_rows}
use fast_vector.HnswIndex
use fast_vector.HnswIndex.{Platform, HnswConfig, HnswNeighborSelection, HnswIndex, Node, empty_node}
use fast_vector.HnswIndexIo.{
  Header, Reader, read_integer, read_header, validate_header, header_size, maximum_level,
  current_version, rng_state_version, maximum_rng_state_bytes,
}
use fast_vector.HnswIndexIo.Save.{RandomText}

-- Membership in the set of a layer's neighbours.
abbrev pub contains : ℕ → List ℕ → Bool
contains n [] = false
contains n (k ∷ ks) = k == n || contains n ks

-- The loop over the edges of one layer. `seen` has the neighbours so far, as the set does.
unfoldable pub read_edges : (left node count : ℕ) → List ℕ → Reader → Result (List ℕ × Reader)
read_edges zero node count seen r = ok (seen, r)
read_edges (suc left) node count seen r = do
  (neighbor, r') ← read_integer 4 r
  throw_if (leb count neighbor) neighbor_out_of_range
  throw_if (neighbor == node) self_loop
  throw_if (contains neighbor seen) duplicate_neighbor
  read_edges left node count (seen ++ neighbor ∷ []) r'

unfoldable pub degree_limit : Header → ℕ → ℕ
degree_limit h layer = if layer == 0 then h.max_connections * 2 else h.max_connections

-- Whether a list of `degree` neighbours fits what is left of the file of `total` bytes.
unfoldable pub check_room : Header → (total degree : ℕ) → Reader → Result (Unit {0})
check_room h total degree r = do
  file_end ← checked_add header_size h.payload_bytes
  throw_if (ltb file_end (total - length r.rest)) list_exceeds_payload
  bytes ← checked_multiply degree 4
  throw_if (ltb (file_end - (total - length r.rest)) bytes) list_exceeds_payload

-- The loop over the layers of one node, with `left` to come.
unfoldable pub read_layers :
    (left layer node total : ℕ) → Header → List (List ℕ) → Reader → Result (List (List ℕ) × Reader)
unfolding read_edges degree_limit check_room
read_layers zero layer node total h levels r = ok (levels, r)
read_layers (suc left) layer node total h levels r = do
  (degree, r₁) ← read_integer 4 r
  throw_if (ltb (degree_limit h layer) degree || leb h.count degree) degree_exceeds_limit
  check_room h total degree r₁
  (neighbors, r₂) ← read_edges degree node h.count [] r₁
  read_layers left (layer + 1) node total h (levels ++ neighbors ∷ []) r₂

pub record ReadGraph : Type 0 where
  pub graph : List Node
  pub observed_maximum_level : ℕ
  pub reader : Reader

-- The loop over the nodes.
unfoldable pub read_nodes : (left node total : ℕ) → Header → ReadGraph → Result ReadGraph
unfolding read_layers
read_nodes zero node total h g = ok g
read_nodes (suc left) node total h g = do
  (level, r₁) ← read_integer 4 g.reader
  throw_if (ltb maximum_level level || ltb h.top_level level) level_exceeds_maximum
  (levels, r₂) ← read_layers (level + 1) 0 node total h [] r₁
  read_nodes left (node + 1) total h (record {
    graph = g.graph ++ record { levels = levels; deleted = false } ∷ [];
    observed_maximum_level = max g.observed_maximum_level level;
    reader = r₂;
  })

-- The three loops that look each neighbour up on its layer.
unfoldable pub all_present : List Node → ℕ → List ℕ → Bool
all_present graph layer [] = true
all_present graph layer (neighbor ∷ rest) =
    ltb layer (length (get_or graph neighbor empty_node).levels) && all_present graph layer rest

unfoldable pub levels_present : List Node → ℕ → List (List ℕ) → Bool
unfolding all_present
levels_present graph layer [] = true
levels_present graph layer (neighbors ∷ rest) =
    all_present graph layer neighbors && levels_present graph (layer + 1) rest

unfoldable pub nodes_present : List Node → List Node → Bool
unfolding levels_present
nodes_present graph [] = true
nodes_present graph (node ∷ rest) = levels_present graph 0 node.levels && nodes_present graph rest

-- What is checked of the graph once it is read.
unfoldable pub check_graph : Header → ReadGraph → Result (Unit {0})
unfolding nodes_present
check_graph h g = do
  throw_if (not (g.observed_maximum_level == h.top_level)) maximum_level_mismatch
  throw_if
      (ltb 0 h.count
        && not (length (get_or g.graph h.entry_point empty_node).levels - 1 == h.top_level))
      maximum_level_mismatch
  throw_if (not (nodes_present g.graph g.graph)) absent_neighbor

pub record ReadFlags : Type 0 where
  pub nodes : List Node
  pub deleted_count : ℕ
  pub reader : Reader

-- The loop over the tombstone flags of `nodes`; `done` has its nodes before.
unfoldable pub read_flags : List Node → ReadFlags → Result ReadFlags
read_flags [] f = ok f
read_flags (node ∷ rest) f = do
  (flag, r) ← read_integer 1 f.reader
  throw_if (ltb 1 flag) invalid_flag
  read_flags rest (record {
    nodes = f.nodes ++ record node { deleted = not (flag == 0) } ∷ [];
    deleted_count = f.deleted_count + flag;
    reader = r;
  })

-- The tombstones of the current version; an older file has none.
unfoldable pub read_tombstones : Header → List Node → Reader → Result ReadFlags
unfolding read_flags
read_tombstones h graph r =
    if h.version == current_version
    then (do
      (live_count, r₁) ← read_integer 8 r
      throw_if (ltb h.count live_count) invalid_live_count
      f ← read_flags graph (record { nodes = []; deleted_count = 0; reader = r₁ })
      throw_if (not (h.count - f.deleted_count == live_count)) invalid_live_count
      ok f)
    else ok (record { nodes = graph; deleted_count = 0; reader = r })

-- Spaces of the classic locale, for `std::ws`.
unfoldable pub only_spaces : List ℕ → Bool
only_spaces [] = true
only_spaces (c ∷ cs) = (c == 32 || (leb 9 c && leb c 13)) && only_spaces cs

abbrev pub selection_of : ℕ → HnswNeighborSelection
selection_of code =
    if code == 0 then HnswNeighborSelection.simple else HnswNeighborSelection.heuristic

abbrev pub config_of : Header → DotProductKernel → HnswConfig
config_of h kernel = record {
  dimension = h.dimension;
  max_connections = h.max_connections;
  ef_construction = h.ef_construction;
  ef_search = h.ef_search;
  random_seed = h.seed;
  kernel = kernel;
  neighbor_selection = selection_of h.selection;
}

module _ (platform : Platform) (text : RandomText platform) where
  -- The text of the generator, which ends the file.
  unfoldable pub parse_state : List ℕ → Result (platform.Random)
  unfolding only_spaces
  parse_state state = elim (text.parse state) [
    | none ↦ err invalid_random_state
    | some (random, trailing) ↦ if only_spaces trailing then ok random else err invalid_random_state
  ]

  -- The generator and the checksum; a file of the first version keeps the seeded generator.
  unfoldable pub read_random : Header → ℕ → platform.Random → Reader → Result (platform.Random × ℕ)
  unfolding parse_state
  read_random h total seeded r =
      if leb rng_state_version h.version
      then (do
        (state_length, r₁) ← read_integer 4 r
        file_end ← checked_add header_size h.payload_bytes
        throw_if
            (state_length == 0
              || ltb maximum_rng_state_bytes state_length
              || ltb file_end (total - length r₁.rest)
              || not (state_length == file_end - (total - length r₁.rest)))
            invalid_random_state
        (state, rest) ← read_exact state_length r₁.rest
        random ← parse_state state
        ok (random, checksum_bytes r₁.checksum state))
      else ok (seeded, r.checksum)

  module _ (m : Machine) where
    -- What load does once the header is valid and the empty index is made.
    unfoldable pub load_payload :
        (total stored : ℕ) → Header → Reader → HnswIndex platform → Result (HnswIndex platform)
    unfolding read_nodes check_graph read_tombstones read_random
    load_payload total stored h r index = do
      elements ← checked_multiply h.count h.dimension
      throw_if (ltb platform.max_floats elements) storage_exceeded
      i ←
          read_ids h.count 0
            (record { ids = []; id_to_row = no_ids; checksum = r.checksum; rest = r.rest })
      v ←
          read_rows m h.count h.dimension
            (record { vectors = []; checksum = i.checksum; rest = i.rest })
      g ← read_nodes h.count 0 total h (record {
        graph = [];
        observed_maximum_level = 0;
        reader = record { checksum = v.checksum; rest = v.rest };
      })
      check_graph h g
      f ← read_tombstones h g.graph g.reader
      (random, checksum) ← read_random h total index.random f.reader
      throw_if (not (checksum == stored)) checksum_mismatch
      ok (record index {
        ids = i.ids;
        id_to_node = i.id_to_row;
        vectors = v.vectors;
        graph = f.nodes;
        random = random;
        entry_point = (if h.count == 0 then 0 else h.entry_point);
        max_level = h.top_level;
        deleted_count = f.deleted_count;
      })

    -- `none` is a file that does not open.
    unfoldable pub load : Option (List ℕ) → DotProductKernel → Result (HnswIndex platform)
    unfolding load_payload
    load none kernel = err cannot_open
    load (some file) kernel = do
      (h, stored, r) ← read_header file fnv_offset
      validate_header h (length file)
      index ← HnswIndex.create platform m (config_of h kernel)
      load_payload (length file) stored h r index
