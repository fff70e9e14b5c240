-- ===== src/HnswIndexIo/Savable.antt =====
-- An index that the format of src/hnsw_index_io.cpp can hold, and what its header says of it.
use fast_vector.Prelude.{
  ℕ, zero, suc, ◌-◌, ◌*◌, ◌^◌, ◌≤◌, ◌<◌, ◌≡◌, ◌∙◌, refl, sym, ap, true, false, List, [], ◌∷◌,
  length, get_or, max, ltb, leb, ◌==◌, if◌then◌else◌, ok, arith, All, inl, inr, Bool-cases, ==-refl,
}
use fast_vector.Distance.{Machine}
use fast_vector.FlatIndexIo.Saved.{IsStorable, Normed}
use fast_vector.HnswIndex.{Platform, HnswIndex, Node, empty_node, HnswNeighborSelection}
use fast_vector.HnswIndexIo.{Header, Reader, bad_configuration, check_entry}
use fast_vector.HnswIndexIo.Save.{RandomText, header_of, selection_code}
use fast_vector.HnswIndexIo.Load.{check_graph, nodes_present}
use fast_vector.HnswIndexIo.Layout.{GoodNodes, SameLists, levels-same}
use fast_vector.HnswIndexIo.Flags.{nodes_present-same}
use fast_vector.HnswIndexIo.Sound.{IsSound}
use fast_vector.HnswIndexIo.GraphTrip.{unmarked, highest}

module _ (platform : Platform) (m : Machine) where
  pub record IsSavable (index : HnswIndex platform) : Type 0 where
    pub sound : IsSound platform index
    pub ids : All (λ id. id < 2 ^ 64) index.ids
    pub vectors : All IsStorable index.vectors
    pub normed : Normed m (length index.ids) index.config.dimension index.vectors
    pub narrow : length index.ids < 2 ^ 32
    pub has_dimension : 0 < index.config.dimension
    pub dimension : index.config.dimension < 2 ^ 64
    pub connected : 2 ≤ index.config.max_connections
    pub few : index.config.max_connections < 2 ^ 31
    pub construction : index.config.max_connections ≤ index.config.ef_construction
    pub ef_construction : index.config.ef_construction < 2 ^ 64
    pub searches : 0 < index.config.ef_search
    pub ef_search : index.config.ef_search < 2 ^ 64
    pub seed : index.config.random_seed < 2 ^ 64
    pub floats : length index.ids * index.config.dimension ≤ platform.max_floats
    pub empty_entry : length index.ids ≡ 0 → index.entry_point ≡ 0
    pub empty_level : length index.ids ≡ 0 → index.max_level ≡ 0

SameLists-unmarked : (ns : List Node) → SameLists ns (unmarked ns)
SameLists-unmarked [] = tt
SameLists-unmarked (n ∷ ns) = (refl, SameLists-unmarked ns)

highest-le :
    (connections count top node level : ℕ) (ns : List Node)
    → GoodNodes connections count top node ns
    → level ≤ top
    → highest level ns ≤ top
highest-le connections count top node level [] g h = h
highest-le connections count top node level (n ∷ ns) g h =
    highest-le connections count top (suc node) (max level (length n.levels - 1)) ns g.4
      (omega (arith, g.1, g.2, h))

le-highest : (level : ℕ) (ns : List Node) → level ≤ highest level ns
le-highest level [] = omega arith
le-highest level (n ∷ ns) = omega (arith, le-highest (max level (length n.levels - 1)) ns)

level-le-highest :
    (level : ℕ) (ns : List Node) (i : ℕ)
    → length (get_or ns i empty_node).levels - 1 ≤ highest level ns
level-le-highest level [] i = omega arith
level-le-highest level (n ∷ ns) zero =
    omega (arith, le-highest (max level (length n.levels - 1)) ns)
level-le-highest level (n ∷ ns) (suc i) = level-le-highest (max level (length n.levels - 1)) ns i

module _ (platform : Platform) (text : RandomText platform) (m : Machine)
    (index : HnswIndex platform) (payload : ℕ) (s : IsSavable platform m index) where
  abbrev pub header : Header
  header = header_of platform text index payload

  pub top_kept : header.top_level ≡ index.max_level
  unfolding header_of
  top_kept = elim (Bool-cases (length index.ids == 0)) [
    | inl e ↦ rw e (sym (s.empty_level (ground arith)))
    | inr e ↦ rw e refl
  ]

  pub entry_kept : (if length index.ids == 0 then 0 else header.entry_point) ≡ index.entry_point
  unfolding header_of
  entry_kept = elim (Bool-cases (length index.ids == 0)) [
    | inl e ↦ rw e (sym (s.empty_entry (ground arith)))
    | inr e ↦ rw e refl
  ]

  pub level_bounded : index.max_level ≤ 63
  level_bounded = elim (Bool-cases (length index.ids == 0)) [
    | inl e ↦ omega (arith, s.empty_level (ground arith))
    | inr e ↦
        let (inside, at) = s.sound.entry (ground arith) in
        let most = level_of 0 index.graph index.entry_point s.sound.lists in omega (arith, at, most)
  ]
    where
      level_of :
          (node : ℕ) (ns : List Node) (i : ℕ)
          → GoodNodes index.config.max_connections (length index.ids) index.max_level node ns
          → length (get_or ns i empty_node).levels ≤ 64
      level_of node [] i g = omega arith
      level_of node (n ∷ ns) zero g = g.3
      level_of node (n ∷ ns) (suc i) g = level_of (suc node) ns i g.4

  pub highest_kept : highest 0 index.graph ≡ index.max_level
  highest_kept =
      let most =
        highest-le index.config.max_connections (length index.ids) index.max_level 0 0 index.graph
          s.sound.lists (omega arith) in
      elim (Bool-cases (length index.ids == 0)) [
        | inl e ↦ omega (arith, most, s.empty_level (ground arith))
        | inr e ↦
            let (inside, at) = s.sound.entry (ground arith) in
            omega (arith, most, at, level-le-highest 0 index.graph index.entry_point)
      ]

  pub good_header : bad_configuration header ≡ false
  unfolding bad_configuration header_of
  good_header =
      let level : header.top_level ≤ 63 = omega (arith, top_kept, level_bounded) in
      let code : selection_code index.config.neighbor_selection ≤ 1 =
        code_small index.config.neighbor_selection in
      ground (
        arith, s.has_dimension, s.connected, s.few, s.construction, s.searches, s.narrow, level,
        code,
      )
    where
      code_small : (n : HnswNeighborSelection) → selection_code n ≤ 1
      code_small HnswNeighborSelection.simple = omega arith
      code_small HnswNeighborSelection.heuristic = omega arith

  pub good_entry : check_entry header ≡ ok tt
  unfolding check_entry header_of
  good_entry = elim (Bool-cases (length index.ids == 0)) [
    | inl e ↦ rw e refl
    | inr e ↦
        let (inside, at) = s.sound.entry (ground arith) in
        let fits : leb (length index.ids) index.entry_point ≡ false = ground arith in rw (e, fits)
  ]

  pub graph_checked :
      (r : Reader)
      → check_graph header (record {
        graph = unmarked index.graph;
        observed_maximum_level = highest 0 index.graph;
        reader = r;
      })
        ≡ ok tt
  unfolding check_graph header_of
  graph_checked r =
      let same = SameLists-unmarked index.graph in
      let there : nodes_present (unmarked index.graph) (unmarked index.graph) ≡ true =
        sym (
          nodes_present-same index.graph (unmarked index.graph) index.graph (unmarked index.graph)
            same same)
        ∙ s.sound.present in
      elim (Bool-cases (length index.ids == 0)) [
        | inl e ↦
            let none_left : length index.ids ≡ 0 = ground arith in
            let level : highest 0 index.graph ≡ 0 = highest_kept ∙ s.empty_level none_left in
            rw (e, level, none_left, there) refl
        | inr e ↦
            let (inside, at) = s.sound.entry (ground arith) in
            let level : (highest 0 index.graph == index.max_level) ≡ true =
              rw (highest_kept, ==-refl index.max_level) in
            let levels = levels-same index.graph (unmarked index.graph) index.entry_point same in
            let top : (length (get_or (unmarked index.graph) index.entry_point empty_node).levels
                    - 1
                  == index.max_level)
                ≡ true =
              ground (arith, ap (λ (x : List (List ℕ)). length x) levels, at) in
            let some_left : ltb 0 (length index.ids) ≡ true = ground arith in
            rw (e, level, some_left, top, there) refl
      ]
