-- ===== src/HnswIndex/Insertion.antt =====
-- Insertion with its transaction: what a failed insertion changed is put back. `allocations` says
-- how many allocations succeed before one throws, if one does; each place where the code can throw
-- between two changes of the index takes one.
use fast_vector.Prelude.{
  ℕ, zero, suc, ◌+◌, ◌-◌, Bool, false, not, ◌&&◌, ◌||◌, List, [], ◌∷◌, ◌++◌, Option, none, some,
  map, length, take, replicate, min, ltb, leb, ◌==◌, if◌then◌else◌, assign, IdMap, is_some, Result,
  ok, err, ◌>>=◌, ◌>>◌, throw_if, dimension_mismatch, duplicate_id, node_capacity_exceeded,
  storage_exceeded, allocation_failed,
}
use fast_vector.Distance.{Machine, normalize_l2}
use fast_vector.FlatIndex.{row}
use fast_vector.SearchContext.{default_context, World, fresh}
use fast_vector.Prelude.{not_stopped}
use fast_vector.Ranking.{sort_by}
use fast_vector.HnswIndex
use fast_vector.HnswIndex.{
  Platform, HnswIndex, Node, Candidate, links, set_links, is_better, similarity,
  maximum_connections, random_level, node_index_max, live_ids,
}
use fast_vector.HnswIndex.Layers.{greedy_search_layer, search_layer}
use fast_vector.HnswIndex.Neighbors.{select_neighbors}

pub record Backup : Type 0 where
  pub node : ℕ
  pub level : ℕ
  pub neighbors : List ℕ

-- A world that no default context looks at.
abbrev pub unobserved : World
unobserved n = record { reason = not_stopped; now = 0 }

module _ (platform : Platform) where
  pub record InsertionTransaction : Type 0 where
    pub node_count : ℕ
    pub vector_count : ℕ
    pub random : platform.Random
    pub entry : ℕ
    pub level : ℕ
    pub backups : List Backup
    pub inserted_id : Option ℕ

  -- The index in the middle of an insertion.
  pub record Work : Type 0 where
    pub index : HnswIndex platform
    pub transaction : InsertionTransaction
    pub allocations : Option ℕ

  abbrev pub Attempt : Type 0
  Attempt = Work × Result (Unit {0})

  abbrev pub and_then : Attempt → (Work → Attempt) → Attempt
  and_then (w, ok u) next = next w
  and_then (w, err e) next = (w, err e)

  unfoldable pub allocate : Work → Attempt
  allocate w = elim w.allocations [
    | none ↦ (w, ok tt)
    | some n ↦ elim n [
      | zero ↦ (w, err allocation_failed)
      | suc left ↦ (record w { allocations = some left }, ok tt)
    ]
  ]

  unfoldable pub begin : HnswIndex platform → InsertionTransaction
  begin i = record {
    node_count = length i.ids;
    vector_count = length i.vectors;
    random = i.random;
    entry = i.entry_point;
    level = i.max_level;
    backups = [];
    inserted_id = none;
  }

  -- The destructor of a transaction that was not committed.
  unfoldable pub restore_links : List Backup → HnswIndex platform → HnswIndex platform
  unfolding set_links
  restore_links [] i = i
  restore_links (b ∷ bs) i = restore_links bs (set_links platform i b.node b.level b.neighbors)

  abbrev pub map_back : Option ℕ → IdMap → IdMap
  map_back none rows = rows
  map_back (some id) rows = assign rows id none

  unfoldable pub roll_back : InsertionTransaction → HnswIndex platform → HnswIndex platform
  unfolding restore_links
  roll_back t i =
      let restored = restore_links t.backups i in
      record restored {
        graph = take t.node_count restored.graph;
        ids = take t.node_count restored.ids;
        vectors = take t.vector_count restored.vectors;
        id_to_node = map_back t.inserted_id restored.id_to_node;
        random = t.random;
        entry_point = t.entry;
        max_level = t.level;
      }

  unfoldable pub has_backup : ℕ → ℕ → List Backup → Bool
  has_backup node level [] = false
  has_backup node level (b ∷ bs) = (b.node == node && b.level == level) || has_backup node level bs

  unfoldable pub remember : ℕ → ℕ → Work → Attempt
  unfolding has_backup allocate links
  remember node level w =
      if leb w.transaction.node_count node || has_backup node level w.transaction.backups
      then (w, ok tt)
      else and_then (allocate w) (λ w'. (
        record w' {
          transaction = record (w'.transaction) {
            backups =
                w'.transaction.backups
                ++ record {
                  node = node;
                  level = level;
                  neighbors = links platform w'.index node level;
                }
                  ∷ [];
          };
        },
        ok tt,
      ))

  unfoldable pub insert_id : ℕ → ℕ → Work → Attempt
  insert_id id node w = if is_some (w.index.id_to_node id) then (w, err duplicate_id) else (
    record w {
      index = record (w.index) { id_to_node = assign w.index.id_to_node id (some node) };
      transaction = record (w.transaction) { inserted_id = some id };
    },
    ok tt,
  )

  unfoldable pub contains : ℕ → List ℕ → Bool
  contains node [] = false
  contains node (n ∷ ns) = n == node || contains node ns

  -- std::erase
  unfoldable pub without : ℕ → List ℕ → List ℕ
  without node [] = []
  without node (n ∷ ns) = let rest = without node ns in if n == node then rest else n ∷ rest

  -- The loop over the neighbours that are not selected any more: each loses its way back.
  unfoldable pub unlink_dropped : ℕ → ℕ → List ℕ → List ℕ → Work → Attempt
  unfolding remember contains without set_links
  unlink_dropped node level selected [] w = (w, ok tt)
  unlink_dropped node level selected (previous ∷ rest) w =
      and_then
        (if contains previous selected
          then (w, ok tt)
          else and_then (remember previous level w) (λ w'. (
            record w' {
              index =
                  set_links platform w'.index previous level
                    (without node (links platform w'.index previous level));
            },
            ok tt,
          )))
        (λ w'. unlink_dropped node level selected rest w')

  -- The neighbours of a node, ranked by their similarity to it.
  abbrev pub ranked_neighbors : HnswIndex platform → ℕ → ℕ → List Candidate
  ranked_neighbors i node level = sort_by (is_better platform i) (
      map
        (λ n. record {
          node = n;
          score = similarity platform i (row i.vectors i.config.dimension node) n;
        })
        (links platform i node level))

  unfoldable pub prune_neighbors : ℕ → ℕ → Work → Attempt
  unfolding unlink_dropped
  prune_neighbors node level w =
      let neighbors = links platform w.index node level in
      let maximum = maximum_connections platform w.index level in
      let selected =
        select_neighbors platform w.index (ranked_neighbors w.index node level) maximum in
      if leb (length neighbors) maximum
      then (w, ok tt)
      else and_then (allocate w) (λ w'.
        and_then (unlink_dropped node level selected neighbors w')
          (λ w''. (record w'' { index = set_links platform w''.index node level selected }, ok tt)))

  -- The inner loop of the linking: the neighbour gets the new node, and is pruned.
  unfoldable pub link_back : ℕ → ℕ → List ℕ → Work → Attempt
  unfolding remember prune_neighbors allocate set_links links
  link_back new_node level [] w = (w, ok tt)
  link_back new_node level (neighbor ∷ rest) w = and_then (remember neighbor level w) (λ w₁.
      and_then (allocate w₁) (λ w₂.
        let linked = record w₂ {
          index =
              set_links platform w₂.index neighbor level
                (links platform w₂.index neighbor level ++ new_node ∷ []);
        } in
        and_then (prune_neighbors neighbor level linked) (λ w₃. link_back new_node level rest w₃)))

  -- The loop over the levels, from `level` on.
  unfoldable pub link_levels : ℕ → (left level : ℕ) → Work → Attempt
  unfolding link_back
  link_levels new_node zero level w = (w, ok tt)
  link_levels new_node (suc left) level w = and_then (allocate w) (λ w'.
      and_then (link_back new_node level (links platform w'.index new_node level) w')
        (λ w''. link_levels new_node left (level + 1) w''))

  -- The greedy descent: `left` levels above `level`.
  unfoldable pub descend : HnswIndex platform → List ℕ → (left level : ℕ) → ℕ → Result ℕ
  unfolding greedy_search_layer
  descend i query zero level entry = ok entry
  descend i query (suc left) level entry = do
    (next, b) ←
        greedy_search_layer platform default_context unobserved i query entry (level + suc left)
          fresh
    descend i query left level next

  abbrev pub front_or : List Candidate → ℕ → ℕ
  front_or [] entry = entry
  front_or (c ∷ cs) entry = c.node

  -- The plan for the levels below `count`, from the top one down.
  unfoldable pub plan_levels : HnswIndex platform → List ℕ → ℕ → ℕ → Result (List (List ℕ))
  unfolding search_layer select_neighbors
  plan_levels i query zero entry = ok []
  plan_levels i query (suc level) entry = do
    (candidates, b) ←
        search_layer platform default_context unobserved i query entry i.config.ef_construction
          level false fresh
    let chosen = select_neighbors platform i candidates (maximum_connections platform i level)
    lower ← plan_levels i query level (front_or candidates entry)
    ok (lower ++ chosen ∷ [])

  -- What is appended before anything is linked.
  unfoldable pub append_node : ℕ → List ℕ → List (List ℕ) → Work → Attempt
  unfolding allocate insert_id
  append_node id normalized plan w = and_then (allocate w) (λ w₁.
      let stored = record w₁ {
        index = record (w₁.index) { vectors = w₁.index.vectors ++ normalized };
      } in
      and_then (allocate stored) (λ w₂.
        let named = record w₂ { index = record (w₂.index) { ids = w₂.index.ids ++ id ∷ [] } } in
        and_then (allocate named) (λ w₃.
          let grown = record w₃ {
            index = record (w₃.index) {
              graph = w₃.index.graph ++ record { levels = plan; deleted = false } ∷ [];
            };
          } in
          and_then (allocate grown) (λ w₄. insert_id id (length w.index.ids) w₄))))

  -- The first node is the entry.
  unfoldable pub insert_first : ℕ → List ℕ → ℕ → Work → Attempt
  unfolding append_node
  insert_first id normalized level w =
      and_then (append_node id normalized (replicate (level + 1) []) w) (λ w'. (
        record w' {
          index = record (w'.index) { entry_point = length w.index.ids; max_level = level };
        },
        ok tt,
      ))

  -- A node that is higher than the graph becomes the entry.
  unfoldable pub raise_entry : ℕ → ℕ → Work → Attempt
  raise_entry new_node level w = (
    record w {
      index =
          if ltb w.index.max_level level
          then record (w.index) { entry_point = new_node; max_level = level }
          else w.index;
    },
    ok tt,
  )

  -- What follows the searches, which have made a plan or thrown.
  unfoldable pub with_plan :
      ℕ → List ℕ → (level first new_node : ℕ) → Result (List (List ℕ)) → Work → Attempt
  unfolding append_node link_levels raise_entry
  with_plan id normalized level first new_node (err e) w = (w, err e)
  with_plan id normalized level first new_node (ok plan) w =
      and_then (append_node id normalized (plan ++ replicate (level - first) []) w) (λ w₁.
        and_then (link_levels new_node (first + 1) 0 w₁) (λ w₂. raise_entry new_node level w₂))

  -- The searches only read, so one place to throw stands for all of them.
  unfoldable pub insert_next : ℕ → List ℕ → ℕ → Work → Attempt
  unfolding descend plan_levels with_plan
  insert_next id normalized level w =
      let i = w.index in
      let first = min level i.max_level in
      let planned = do
        entry ← descend i normalized (i.max_level - level) level i.entry_point
        plan_levels i normalized (first + 1) entry
      in and_then (allocate w) (λ w'. with_plan id normalized level first (length i.ids) planned w')

  abbrev pub commit_or_roll_back : Attempt → HnswIndex platform × Result (Unit {0})
  commit_or_roll_back (w, ok u) = (w.index, ok tt)
  commit_or_roll_back (w, err e) = (roll_back w.transaction w.index, err e)

  unfoldable pub insert_normalized :
      Machine → Option ℕ → HnswIndex platform → ℕ → List ℕ → HnswIndex platform × Result (Unit {0})
  unfolding begin insert_first insert_next random_level
  insert_normalized m allocations i id normalized =
      let (level, drawn) = random_level platform m i in
      let w : Work = record { index = drawn; transaction = begin i; allocations = allocations } in
      if ltb (platform.max_floats - length i.vectors) i.config.dimension
      then (i, err storage_exceeded)
      else commit_or_roll_back (
          if length i.graph == 0
          then insert_first id normalized level w
          else insert_next id normalized level w)

  -- The checks of `add`.
  unfoldable pub admit : Machine → HnswIndex platform → ℕ → List ℕ → Result (List ℕ)
  admit m i id vector = do
    throw_if (not (length vector == i.config.dimension)) dimension_mismatch
    throw_if (is_some (i.id_to_node id)) duplicate_id
    throw_if (leb node_index_max (length i.ids)) node_capacity_exceeded
    normalize_l2 m vector

  unfoldable pub add :
      Machine → Option ℕ → HnswIndex platform → ℕ → List ℕ → HnswIndex platform × Result (Unit {0})
  unfolding admit insert_normalized
  add m allocations i id vector = elim (admit m i id vector) [
    | err e ↦ (i, err e)
    | ok normalized ↦ insert_normalized m allocations i id normalized
  ]

  abbrev pub node_or_zero : Option ℕ → ℕ
  node_or_zero none = 0
  node_or_zero (some node) = node

  -- The loop of rebuild; `at` finds each live ID in the map.
  unfoldable pub rebuild_from :
      Machine → HnswIndex platform → List ℕ → HnswIndex platform → Result (HnswIndex platform)
  unfolding insert_normalized row
  rebuild_from m source [] result = ok result
  rebuild_from m source (id ∷ ids) result =
      let node = node_or_zero (source.id_to_node id) in
      let (result', done) =
        insert_normalized m none result id (row source.vectors source.config.dimension node) in
      let rest = rebuild_from m source ids result' in elim done [ err e ↦ err e | ok u ↦ rest ]

  unfoldable pub rebuild : Machine → HnswIndex platform → ℕ → Result (HnswIndex platform)
  unfolding rebuild_from live_ids
  rebuild m i random_seed = do
    result ← HnswIndex.create platform m (record (i.config) { random_seed = random_seed })
    rebuild_from m i (live_ids platform i) result
