-- ===== src/Examples/Graphs.antt =====
-- The graph index at concrete inputs.
use fast_vector.Prelude.{refl, none, some, allocation_failed, ℕ, ◌≡◌, List, [], ◌∷◌, length, no_ids}
use fast_vector.Distance.{scalar, normalize_l2}
use fast_vector.SearchContext.{check_now, checkpoint}
use fast_vector.Float.{float_eq, is_nan, order_key, float_gt}
use fast_vector.HnswIndex.{
  maximum_connections, is_better, similarity, links, Platform, HnswIndex, HnswConfig, Candidate,
  heuristic,
}
use fast_vector.HnswIndex.Neighbors.{select_neighbors}
use fast_vector.HnswIndex.Insertion as HnswIndex
use fast_vector.HnswIndex.Exceptions.{failed_add-unchanged}
use fast_vector.Examples.{toy}
use fast_vector.HnswIndex.Degree.{length-select_neighbors}

-- A generator that counts, and a logarithm of nothing.
abbrev pub counting : Platform
counting = record {
  Random = ℕ;
  seed = λ s. s;
  next = λ r. (r, r);
  from_integer = λ n. n;
  to_integer = λ n. 0;
  dlog = λ x. x;
  dneg = λ x. x;
  max_floats = 1000;
}

abbrev pub settings : HnswConfig
settings = record {
  dimension = 1;
  max_connections = 2;
  ef_construction = 4;
  ef_search = 4;
  random_seed = 42;
  kernel = scalar;
  neighbor_selection = heuristic;
}

-- Three stored vectors whose products decide the diversity.
abbrev three : HnswIndex counting
three = record {
  config = settings;
  dot = λ x y. 5;
  vectors = 1 ∷ 2 ∷ 3 ∷ [];
  ids = 10 ∷ 20 ∷ 30 ∷ [];
  graph = [];
  id_to_node = no_ids;
  random = 42;
  entry_point = 0;
  max_level = 0;
  deleted_count = 0;
}

abbrev ranked : List Candidate
ranked =
    record { node = 0; score = 9 }
    ∷ record { node = 1; score = 4 }
    ∷ record { node = 2; score = 3 }
    ∷ []

length-select_neighbors_example : length (select_neighbors counting three ranked 2) ≡ 2
length-select_neighbors_example = length-select_neighbors counting three ranked 2

abbrev fresh_graph : HnswIndex counting
fresh_graph = record three { vectors = []; ids = [] }

abbrev one_node : HnswIndex counting
one_node = (HnswIndex.add counting toy none fresh_graph 10 (7 ∷ [])).0

abbrev two_nodes : HnswIndex counting
two_nodes = (HnswIndex.add counting toy none one_node 20 (8 ∷ [])).0

linked : links counting two_nodes 0 0 ≡ 1 ∷ []
unfolding HnswIndex.add normalize_l2 links check_now checkpoint maximum_connections
linked = refl

failed_add-unchanged_example :
    (HnswIndex.add counting toy (some 8) two_nodes 30 (9 ∷ [])).0 ≡ two_nodes
unfolding HnswIndex.add normalize_l2 check_now checkpoint maximum_connections is_better float_eq
    is_nan similarity order_key float_gt
failed_add-unchanged_example =
    failed_add-unchanged counting two_nodes toy (some 8) 30 (9 ∷ []) {e = allocation_failed} refl
      refl
