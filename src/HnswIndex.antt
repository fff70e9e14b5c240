-- ===== src/HnswIndex.antt =====
-- src/hnsw_index.cpp and include/fast_vector/hnsw_index.h: the approximate index, a navigable graph
-- of layers. A node is a number; where the code would index out of range, a list is empty. The
-- generator, the logarithm and the largest vector are the platform's.
pub mod Layers
pub mod Neighbors
pub mod Insertion
pub mod Search
pub mod Degree
pub mod Graph
pub mod Restore
pub mod Rollback
pub mod Linking
pub mod Guarantee
pub mod Exceptions
pub mod Explored
pub mod Descended
pub mod Termination
pub mod Histories
pub mod Found
pub mod Wired
pub mod Appended
pub mod Planned
pub mod Navigable
pub mod Inserted
pub mod Rebuilt
use mathlib.Core.Path.{◌≡◌}
use fast_vector.Prelude.{
  ℕ, zero, suc, ◌+◌, ◌-◌, ◌*◌, ◌/◌, ◌^◌, Bool, true, false, not, List, [], ◌∷◌, ◌++◌, Option, none,
  some, map, foldl, length, get_or, set, get_elem?, min, max, ltb, ◌==◌, if◌then◌else◌, IdMap,
  no_ids, Result, ok, err, ◌>>=◌, ◌>>◌, throw_if, zero_dimension, too_few_connections,
  too_many_connections, small_ef_construction, zero_ef_search,
}
use fast_vector.Float.{float_eq, float_gt, double_one}
use fast_vector.Distance.{DotProductKernel, Machine, resolve_dot_product_kernel}
use fast_vector.FlatIndex.{row}
use fast_vector.Ranking.{sort_by}

-- std::mt19937_64, std::log, conversions, and vector<float>::max_size().
pub record Platform : Type 1 where
  pub Random : Type 0
  pub seed : ℕ → Random
  pub next : Random → ℕ × Random
  pub from_integer : ℕ → ℕ
  pub to_integer : ℕ → ℕ
  pub dlog : ℕ → ℕ
  pub dneg : ℕ → ℕ
  pub max_floats : ℕ

pub data HnswNeighborSelection : Type 0 where
  simple heuristic : HnswNeighborSelection

pub record HnswConfig : Type 0 where
  pub dimension : ℕ
  pub max_connections : ℕ
  pub ef_construction : ℕ
  pub ef_search : ℕ
  pub random_seed : ℕ
  pub kernel : DotProductKernel
  pub neighbor_selection : HnswNeighborSelection

pub record HnswStats : Type 0 where
  pub node_count : ℕ
  pub top_level : ℕ
  pub directed_edge_count : ℕ
  pub maximum_node_degree : ℕ
  pub live_count : ℕ
  pub tombstones : ℕ

pub record Node : Type 0 where
  pub levels : List (List ℕ)
  pub deleted : Bool

pub record Candidate : Type 0 where
  pub node : ℕ
  pub score : ℕ

abbrev pub maximum_generated_level : ℕ
maximum_generated_level = 63

-- The largest uint32_t.
abbrev pub node_index_max : ℕ
node_index_max = 2 ^ 32 - 1

unfoldable pub validate_config : HnswConfig → Result HnswConfig
validate_config c = do
  throw_if (c.dimension == 0) zero_dimension
  throw_if (ltb c.max_connections 2) too_few_connections
  throw_if (ltb (node_index_max / 2) c.max_connections) too_many_connections
  throw_if (ltb c.ef_construction c.max_connections) small_ef_construction
  throw_if (c.ef_search == 0) zero_ef_search
  ok c

-- The literal 9007199254740993.0 as a double: it has no representation, and rounds to 2 ^ 53.
abbrev pub level_denominator : ℕ
level_denominator = 0x4340_0000_0000_0000

abbrev pub empty_node : Node
empty_node = record { levels = []; deleted = false }

module _ (platform : Platform) where
  open platform use {Random, seed, next, from_integer, to_integer, dlog, dneg}

  pub record HnswIndex : Type 0 where
    pub config : HnswConfig
    pub dot : List ℕ → List ℕ → ℕ
    pub vectors : List ℕ
    pub ids : List ℕ
    pub graph : List Node
    pub id_to_node : IdMap
    pub random : Random
    pub entry_point : ℕ
    pub max_level : ℕ
    pub deleted_count : ℕ

  -- The constructor.
  unfoldable pub create : Machine → HnswConfig → Result HnswIndex
  unfolding validate_config
  create m config = do
    c ← validate_config config
    dot ← resolve_dot_product_kernel m c.kernel
    ok (record {
      config = c;
      dot = dot;
      vectors = [];
      ids = [];
      graph = [];
      id_to_node = no_ids;
      random = seed c.random_seed;
      entry_point = 0;
      max_level = 0;
      deleted_count = 0;
    })

  unfoldable pub size : HnswIndex → ℕ
  size i = length i.ids - i.deleted_count

  -- graph_[node].levels[level]
  unfoldable pub links : HnswIndex → ℕ → ℕ → List ℕ
  links i node level = get_or (get_or i.graph node empty_node).levels level []

  unfoldable pub set_links : HnswIndex → ℕ → ℕ → List ℕ → HnswIndex
  set_links i node level neighbors =
      let n = get_or i.graph node empty_node in
      record i { graph = set i.graph node (record n { levels = set n.levels level neighbors }) }

  unfoldable pub is_better : HnswIndex → Candidate → Candidate → Bool
  is_better i lhs rhs =
      if not (float_eq lhs.score rhs.score)
      then float_gt lhs.score rhs.score
      else ltb (get_or i.ids lhs.node 0) (get_or i.ids rhs.node 0)

  unfoldable pub similarity : HnswIndex → List ℕ → ℕ → ℕ
  unfolding row
  similarity i query node = i.dot query (row i.vectors i.config.dimension node)

  unfoldable pub maximum_connections : HnswIndex → ℕ → ℕ
  maximum_connections i level =
      if level == 0 then i.config.max_connections * 2 else i.config.max_connections

  unfoldable pub random_level : Machine → HnswIndex → ℕ × HnswIndex
  random_level m i =
      let (bits, random) = next i.random in
      let mantissa = bits / 2 ^ 11 + 1 in
      let uniform = m.ddiv (from_integer mantissa) level_denominator in
      let multiplier = m.ddiv double_one (dlog (from_integer i.config.max_connections)) in
      let level = to_integer (m.dmul (dneg (dlog uniform)) multiplier) in
      (min level maximum_generated_level, record i { random = random })

  -- The loop of live_ids, node by node.
  live_from : List Node → List ℕ → List ℕ
  live_from [] ids = []
  live_from (n ∷ ns) [] = []
  live_from (n ∷ ns) (id ∷ ids) =
      let rest = live_from ns ids in if n.deleted then rest else id ∷ rest

  unfoldable pub live_ids : HnswIndex → List ℕ
  unfolding live_from sort_by
  live_ids i = sort_by ltb (live_from i.graph i.ids)

  -- Only a mark: the graph, the arrays and the map keep the node.
  unfoldable pub erase : HnswIndex → ℕ → HnswIndex × Bool
  erase i id = elim (i.id_to_node id) [
    | none ↦ (i, false)
    | some node ↦
        let n = get_or i.graph node empty_node in
        if n.deleted then (i, false) else (
          record i {
            graph = set i.graph node (record n { deleted = true });
            deleted_count = i.deleted_count + 1;
          },
          true,
        )
  ]

  -- The loops of stats over the nodes and their levels.
  edges_of : List (List ℕ) → ℕ
  edges_of [] = 0
  edges_of (ns ∷ rest) = length ns + edges_of rest

  degree_of : List (List ℕ) → ℕ
  degree_of [] = 0
  degree_of (ns ∷ rest) = max (length ns) (degree_of rest)

  count_edges : List Node → ℕ
  unfolding edges_of
  count_edges [] = 0
  count_edges (n ∷ ns) = edges_of n.levels + count_edges ns

  maximum_degree : List Node → ℕ
  unfolding degree_of
  maximum_degree [] = 0
  maximum_degree (n ∷ ns) = max (degree_of n.levels) (maximum_degree ns)

  unfoldable pub stats : HnswIndex → HnswStats
  unfolding count_edges maximum_degree size
  stats i = record {
    node_count = length i.ids;
    top_level = if length i.graph == 0 then 0 else i.max_level;
    directed_edge_count = count_edges i.graph;
    maximum_node_degree = maximum_degree i.graph;
    live_count = size i;
    tombstones = i.deleted_count;
  }
