-- ===== src/HnswIndexIo/Navigable.antt =====
-- A loaded index (src/hnsw_index_io.cpp) can be searched: its lists stay inside its graph.
use fast_vector.Prelude.{ℕ, suc, ◌<◌, List, [], ◌∷◌, length, All, All-imp}
use fast_vector.HnswIndex.{Platform, HnswIndex, Node}
use fast_vector.HnswIndex.Wired.{Inside}
use fast_vector.HnswIndex.Navigable.{IsNavigable}
use fast_vector.HnswIndexIo.Layout.{GoodLevels, GoodNodes}
use fast_vector.HnswIndexIo.Sound.{IsSound}

GoodLevels-All :
    (connections count node layer : ℕ) (levels : List (List ℕ))
    → GoodLevels connections count node layer levels
    → All (All (λ k. k < count)) levels
GoodLevels-All connections count node layer [] g = tt
GoodLevels-All connections count node layer (ns ∷ rest) g = (
  All-imp _ (λ k. k < count) ns (λ m h. h.0) g.2,
  GoodLevels-All connections count node (suc layer) rest g.4,
)

GoodNodes-All :
    (connections count top node : ℕ) (nodes : List Node)
    → GoodNodes connections count top node nodes
    → All (Inside count) nodes
GoodNodes-All connections count top node [] g = tt
GoodNodes-All connections count top node (n ∷ rest) g = (
  GoodLevels-All connections count node 0 n.levels g.0,
  GoodNodes-All connections count top (suc node) rest g.4,
)

module _ (platform : Platform) where
  pub sound-IsNavigable : (i : HnswIndex platform) → IsSound platform i → IsNavigable platform i
  sound-IsNavigable i s = record {
    nodes = s.nodes;
    lists = GoodNodes-All i.config.max_connections (length i.ids) i.max_level 0 i.graph s.lists;
    entry = λ some_id. (s.entry some_id).0;
  }
