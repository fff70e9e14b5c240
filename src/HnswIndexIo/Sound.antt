-- ===== src/HnswIndexIo/Sound.antt =====
-- Whatever the bytes of a file are: what holds of an index that load_hnsw_index
-- (src/hnsw_index_io.cpp) returns.
use mathlib.Core.Path.{subst}
use native.Mathlib.Nat.{zero-add}
use fast_vector.Prelude.{
  ℕ, zero, suc, ◌+◌, ◌++◌, max, ok-injective, level_exceeds_maximum, payload_too_small,
  file_size_mismatch, ◌-◌, ◌*◌, ◌≤◌, ◌<◌, ◌≡◌, ◌≢◌, ◌∙◌, refl, sym, ap, true, false, not, ◌&&◌,
  ◌||◌, List, [], ◌∷◌, Option, none, some, length, get_or, ltb, ◌==◌, if◌then◌else◌, no_ids, IdMap,
  Result, ok, throw_if, throw_if-eq-ok, >>=-eq-ok, arith, maximum_level_mismatch, storage_exceeded,
  checksum_mismatch, Bool-cases, inl, inr, invalid_live_count, invalid_header,
}
use fast_vector.Distance.{Machine, DotProductKernel, resolve_dot_product_kernel}
use fast_vector.Bytes.{fnv_offset, checked_multiply, checked_add}
use fast_vector.FlatIndexIo.{read_ids, read_rows}
use fast_vector.FlatIndexIo.Saved.{MapsOf}
use fast_vector.HnswIndex
use fast_vector.HnswIndex.{Platform, HnswConfig, HnswIndex, Node, empty_node, validate_config}
use fast_vector.HnswIndexIo.{
  Header, Reader, read_header, validate_header, read_integer, current_version, bad_configuration,
  check_entry, array_bytes, add_sections, maximum_graph_bytes, header_size, maximum_level,
  maximum_rng_state_bytes,
}
use fast_vector.HnswIndexIo.Save.{RandomText, count_deleted}
use fast_vector.HnswIndexIo.Load.{
  load, load_payload, read_nodes, check_graph, read_tombstones, read_random, ReadFlags, ReadGraph,
  nodes_present, config_of, read_flags, read_layers,
}
use fast_vector.HnswIndexIo.Layout.{
  GoodNodes, SameLists, SameLists-refl, GoodNodes-same, length-same, levels-same, read_nodes-eq-ok,
}
use fast_vector.HnswIndexIo.Flags.{
  read_flags-eq-ok, count_deleted-append, nodes_present-same, read_ids-eq-ok, read_rows-eq-ok,
}

module _ (platform : Platform) where
  -- A graph that searches can follow.
  pub record IsSound (index : HnswIndex platform) : Type 0 where
    pub nodes : length index.graph ≡ length index.ids
    pub rows : length index.vectors ≡ length index.ids * index.config.dimension
    pub mapped : MapsOf index.id_to_node index.ids
    pub lists :
        GoodNodes index.config.max_connections (length index.ids) index.max_level 0 index.graph
    pub present : nodes_present index.graph index.graph ≡ true
    pub entry :
        length index.ids ≢ 0
        → (index.entry_point < length index.ids)
          × (length (get_or index.graph index.entry_point empty_node).levels ≡ index.max_level + 1)
    pub tombstones : index.deleted_count ≡ count_deleted index.graph

check_graph-eq-ok :
    (h : Header) (g : ReadGraph)
    → check_graph h g ≡ ok tt
    → (nodes_present g.graph g.graph ≡ true)
      × (h.count ≢ 0 → length (get_or g.graph h.entry_point empty_node).levels - 1 ≡ h.top_level)
unfolding check_graph
check_graph-eq-ok h g e =
    let (u, top, rest) =
      >>=-eq-ok (throw_if (not (g.observed_maximum_level == h.top_level)) maximum_level_mismatch) _
        e in
    let (v, at, rest₂) =
      >>=-eq-ok
        (throw_if
          (ltb 0 h.count
            && not (length (get_or g.graph h.entry_point empty_node).levels - 1 == h.top_level))
          maximum_level_mismatch)
        _ rest in
    let there = throw_if-eq-ok _ _ at in
    (ground (arith, throw_if-eq-ok _ _ rest₂), λ some_node. ground arith)

count_deleted-nil : count_deleted [] ≡ 0
unfolding count_deleted
count_deleted-nil = refl

-- A graph that was read has no flag yet.
read_nodes-unmarked :
    (left node total : ℕ) (h : Header) (g : ReadGraph) {g' : ReadGraph}
    → count_deleted g.graph ≡ 0
    → read_nodes left node total h g ≡ ok g'
    → count_deleted g'.graph ≡ 0
unfolding read_nodes
read_nodes-unmarked zero node total h g {g'} c e = let same : g ≡ g' = cc in rw (← same) c
read_nodes-unmarked (suc left) node total h g {g'} c e =
    let ((level, r₁), read, rest) = >>=-eq-ok (read_integer 4 g.reader) _ e in
    let (u, bounded, rest₂) =
      >>=-eq-ok (throw_if (ltb maximum_level level || ltb h.top_level level) level_exceeds_maximum)
        _ rest in
    let ((levels, r₂), layers, rest₃) =
      >>=-eq-ok (read_layers (level + 1) 0 node total h [] r₁) _ rest₂ in
    read_nodes-unmarked left (node + 1) total h
      (record {
        graph = g.graph ++ record { levels = levels; deleted = false } ∷ [];
        observed_maximum_level = max g.observed_maximum_level level;
        reader = r₂;
      })
      (rw (count_deleted-append g.graph (record { levels = levels; deleted = false } ∷ []), c)
        (unfold count_deleted in refl))
      rest₃

read_tombstones-eq-ok :
    (h : Header) (graph : List Node) (r : Reader) {f : ReadFlags}
    → count_deleted graph ≡ 0
    → read_tombstones h graph r ≡ ok f
    → SameLists graph f.nodes × (f.deleted_count ≡ count_deleted f.nodes)
unfolding read_tombstones
read_tombstones-eq-ok h graph r {f} c e = elim (Bool-cases (h.version == current_version)) [
  | inl new ↦
      let (n, counted, rest) = >>=-eq-ok (read_integer 8 r) _ (rw new at e) in
      let (u, bounded, rest₂) = >>=-eq-ok (throw_if (ltb h.count n.0) invalid_live_count) _ rest in
      let (f₁, marked, rest₃) =
        >>=-eq-ok (read_flags graph (record { nodes = []; deleted_count = 0; reader = n.1 })) _
          rest₂ in
      let (v, matched, done) =
        >>=-eq-ok (throw_if (not (h.count - f₁.deleted_count == n.0)) invalid_live_count) _ rest₃ in
      let same : f₁ ≡ f = cc in
      let (s, d) =
        read_flags-eq-ok graph (record { nodes = []; deleted_count = 0; reader = n.1 })
          (unfold count_deleted in refl) marked in
      (rw (← same) s, rw (← same) d)
  | inr old ↦
      let plain : ◌≡◌ {A = Result ReadFlags}
          (ok (record { nodes = graph; deleted_count = 0; reader = r })) (ok f) =
        rw old at e in
      let same = ok-injective plain in (rw (← same) (SameLists-refl graph), rw (← same) (sym c))
]

-- A node of a good graph has a layer.
GoodNodes-filled :
    (connections count top node : ℕ) (ns : List Node) (i : ℕ)
    → GoodNodes connections count top node ns
    → i < length ns
    → 1 ≤ length (get_or ns i empty_node).levels
GoodNodes-filled connections count top node [] i g h = absurd (omega arith)
GoodNodes-filled connections count top node (n ∷ ns) zero g h = g.1
GoodNodes-filled connections count top node (n ∷ ns) (suc i) g h =
    GoodNodes-filled connections count top (suc node) ns i g.4 (omega arith)

module _ (platform : Platform) (text : RandomText platform) (m : Machine) where
  pub created :
      (config : HnswConfig) {index : HnswIndex platform}
      → HnswIndex.create platform m config ≡ ok index
      → index.config ≡ config
  unfolding HnswIndex.create validate_config
  created config {index} e =
      let (c, valid, rest) = >>=-eq-ok (validate_config config) _ e in
      let (dot, resolved, done) = >>=-eq-ok (resolve_dot_product_kernel m c.kernel) _ rest in
      let same : c ≡ config = ground arith in ap (λ i. i.config) (sym (ok-injective done)) ∙ same

  entry_checked : (h : Header) (bytes : ℕ) → validate_header h bytes ≡ ok tt → check_entry h ≡ ok tt
  unfolding validate_header
  entry_checked h bytes e =
      let (a, e₁, r₁) = >>=-eq-ok (throw_if (bad_configuration h) invalid_header) _ e in
      let (b, e₂, r₂) = >>=-eq-ok (array_bytes h) _ r₁ in
      let (c, e₃, r₃) = >>=-eq-ok (checked_multiply h.count 8) _ r₂ in
      let (d, e₄, r₄) = >>=-eq-ok (checked_add b c) _ r₃ in
      let (f, e₅, r₅) = >>=-eq-ok (add_sections h d 5) _ r₄ in
      let (g, e₆, r₆) = >>=-eq-ok (throw_if (ltb h.payload_bytes f) payload_too_small) _ r₅ in
      let (i, e₇, r₇) = >>=-eq-ok (maximum_graph_bytes h) _ r₆ in
      let (j, e₈, r₈) = >>=-eq-ok (checked_add b i) _ r₇ in
      let (k, e₉, r₉) = >>=-eq-ok (add_sections h j (4 + maximum_rng_state_bytes)) _ r₈ in
      let (l, f₁, s₁) = >>=-eq-ok (throw_if (ltb k h.payload_bytes) file_size_mismatch) _ r₉ in
      let (n, f₂, s₂) = >>=-eq-ok (checked_add header_size h.payload_bytes) _ s₁ in
      let (o, f₃, s₃) = >>=-eq-ok (throw_if (not (n == bytes)) file_size_mismatch) _ s₂ in s₃

  entry_in_range : (h : Header) → check_entry h ≡ ok tt → h.count ≢ 0 → h.entry_point < h.count
  unfolding check_entry
  entry_in_range h e some_node = ground arith

  MapsOf-nil : MapsOf no_ids []
  MapsOf-nil j k = (λ p. cc, λ p. cc)

  assembled :
      (h : Header) (index : HnswIndex platform) (ids : List ℕ) (id_to_node : IdMap)
      (vectors : List ℕ) (graph nodes : List Node) (random : platform.Random) (deleted : ℕ)
      → index.config.dimension ≡ h.dimension
      → index.config.max_connections ≡ h.max_connections
      → check_entry h ≡ ok tt
      → length ids ≡ h.count
      → length vectors ≡ h.count * h.dimension
      → MapsOf id_to_node ids
      → length graph ≡ h.count
      → GoodNodes h.max_connections h.count h.top_level 0 graph
      → nodes_present graph graph ≡ true
      → (h.count ≢ 0 → length (get_or graph h.entry_point empty_node).levels - 1 ≡ h.top_level)
      → SameLists graph nodes
      → deleted ≡ count_deleted nodes
      → IsSound platform (record index {
        ids = ids;
        id_to_node = id_to_node;
        vectors = vectors;
        graph = nodes;
        random = random;
        entry_point = (if h.count == 0 then 0 else h.entry_point);
        max_level = h.top_level;
        deleted_count = deleted;
      })
  assembled h index ids id_to_node vectors graph nodes random deleted dimension connections entry
        counted rows mapped sized lists present top same tombs =
      record {
        nodes = omega (arith, counted, sized, length-same graph nodes same);
        rows = rw (counted, dimension) rows;
        mapped = mapped;
        lists =
            rw (counted, connections)
              (GoodNodes-same h.max_connections h.count h.top_level 0 graph nodes same lists);
        present = sym (nodes_present-same graph nodes graph nodes same same) ∙ present;
        entry = λ some_node. entered some_node;
        tombstones = tombs;
      }
    where
      entered :
          length ids ≢ 0
          → ((if h.count == 0 then 0 else h.entry_point) < length ids)
            × (length (get_or nodes (if h.count == 0 then 0 else h.entry_point) empty_node).levels
                ≡ h.top_level + 1)
      entered some_node =
          let positive : h.count ≢ 0 = λ z. some_node (counted ∙ z) in
          let full : (h.count == 0) ≡ false = ground arith in
          let inside = entry_in_range h entry positive in
          let at : length (get_or nodes h.entry_point empty_node).levels
              ≡ length (get_or graph h.entry_point empty_node).levels =
            ap length (sym (levels-same graph nodes h.entry_point same)) in
          let filled =
            GoodNodes-filled h.max_connections h.count h.top_level 0 graph h.entry_point lists
              (omega arith) in
          (
            rw full (omega (arith, inside, counted)),
            rw full (omega (arith, at, filled, top positive)),
          )

  load_payload-IsSound :
      (total stored : ℕ) (h : Header) (r : Reader) (index : HnswIndex platform)
      {loaded : HnswIndex platform}
      → index.config.dimension ≡ h.dimension
      → index.config.max_connections ≡ h.max_connections
      → check_entry h ≡ ok tt
      → load_payload platform text m total stored h r index ≡ ok loaded
      → IsSound platform loaded
  unfolding load_payload
  load_payload-IsSound total stored h r index {loaded} dimension connections entry e =
      let (elements, e₁, r₁) = >>=-eq-ok (checked_multiply h.count h.dimension) _ e in
      let (u, e₂, r₂) =
        >>=-eq-ok (throw_if (ltb platform.max_floats elements) storage_exceeded) _ r₁ in
      let (i, e₃, r₃) =
        >>=-eq-ok
          (read_ids h.count 0
            (record { ids = []; id_to_row = no_ids; checksum = r.checksum; rest = r.rest }))
          _ r₂ in
      let (v, e₄, r₄) =
        >>=-eq-ok
          (read_rows m h.count h.dimension
            (record { vectors = []; checksum = i.checksum; rest = i.rest }))
          _ r₃ in
      let (g, e₅, r₅) =
        >>=-eq-ok
          (read_nodes h.count 0 total h (record {
            graph = [];
            observed_maximum_level = 0;
            reader = record { checksum = v.checksum; rest = v.rest };
          }))
          _ r₄ in
      let (w, e₆, r₆) = >>=-eq-ok (check_graph h g) _ r₅ in
      let (f, e₇, r₇) = >>=-eq-ok (read_tombstones h g.graph g.reader) _ r₆ in
      let (random, e₈, r₈) =
        >>=-eq-ok (read_random platform text h total index.random f.reader) _ r₇ in
      let (x, e₉, done) = >>=-eq-ok (throw_if (not (random.1 == stored)) checksum_mismatch) _ r₈ in
      let (mapped, ids) = read_ids-eq-ok h.count 0 _ refl MapsOf-nil e₃ in
      let rows = read_rows-eq-ok m h.count h.dimension _ e₄ in
      let (lists, nodes) = read_nodes-eq-ok h.count 0 total h _ refl tt e₅ in
      let unmarked = read_nodes-unmarked h.count 0 total h _ count_deleted-nil e₅ in
      let (present, top) = check_graph-eq-ok h g e₆ in
      let (same, tombs) = read_tombstones-eq-ok h g.graph g.reader unmarked e₇ in
      subst (IsSound platform) (ok-injective done) (
        assembled h index i.ids i.id_to_row v.vectors g.graph f.nodes random.0 f.deleted_count
          dimension connections entry (ids ∙ zero-add h.count)
          (rows ∙ zero-add (h.count * h.dimension)) mapped (nodes ∙ zero-add h.count) lists present
          top same tombs)

  -- Whatever the bytes, an HNSW index that load returns is sound: there is one node and one row of
  -- the dimension for each ID, the map finds exactly the IDs, each node has at least one layer and
  -- none above the maximum level, each layer has at most its limit of neighbours, all of them
  -- other nodes in range, without repetition and present on that layer, the entry point is a node
  -- of the maximum level, and the tombstone count is right.
  pub load-IsSound :
      (file : Option (List ℕ)) (kernel : DotProductKernel) {index : HnswIndex platform}
      → load platform text m file kernel ≡ ok index
      → IsSound platform index
  unfolding load
  load-IsSound none kernel e = cc
  load-IsSound (some file) kernel e =
      let ((h, stored, r), head, rest) = >>=-eq-ok (read_header file fnv_offset) _ e in
      let (u, valid, rest₂) = >>=-eq-ok (validate_header h (length file)) _ rest in
      let (index, made, rest₃) =
        >>=-eq-ok (HnswIndex.create platform m (config_of h kernel)) _ rest₂ in
      let config = created (config_of h kernel) made in
      load_payload-IsSound (length file) stored h r index (ap (λ c. c.dimension) config)
        (ap (λ c. c.max_connections) config) (entry_checked h (length file) valid) rest₃
