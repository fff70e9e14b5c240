-- ===== src/HnswIndex/Exceptions.antt =====
-- HnswIndex::add (src/hnsw_index.cpp) where it throws.
use fast_vector.Prelude.{
  ℕ, ◌+◌, ◌-◌, ◌≡◌, refl, false, List, [], ◌++◌, Option, length, take-length, min, ltb, ◌==◌,
  replicate, Result, ok, err, Error, arith, Bool-cases, Result-cases, inl, inr,
}
use fast_vector.Distance.{Machine}
use fast_vector.HnswIndex.{Platform, HnswIndex, random_level}
use fast_vector.HnswIndex.Insertion.{
  Work, Attempt, and_then, allocate, begin, append_node, insert_first, insert_next, raise_entry,
  link_levels, commit_or_roll_back, insert_normalized, admit, add, with_plan, has_backup,
}
use fast_vector.HnswIndex.Rollback.{Undoable, roll_back-Restores}
use fast_vector.HnswIndex.Linking.{then-keeps, link_levels-Undoable}
use fast_vector.HnswIndex.Guarantee.{
  Early, allocate-Early, stored-Early, named-Early, grown-Early, insert_id-Undoable,
}

module _ (platform : Platform) (i : HnswIndex platform) where
  -- An allocation, and the rest while nothing is linked.
  Early-keeps :
      (w : Work platform) (next : Work platform → Attempt platform)
      → Early platform i w
      → ((w' : Work platform) → Early platform i w' → Undoable platform i (next w').0)
      → Undoable platform i (and_then platform (allocate platform w) next).0
  Early-keeps w next v q =
      then-keeps platform i (Early platform i) (Undoable platform i) (allocate platform w) next
        (allocate-Early platform i w v) (λ w' e. e.undoable) q

  append_node-Undoable :
      (id : ℕ) (normalized : List ℕ) (plan : List (List ℕ)) (w : Work platform)
      → Early platform i w
      → Undoable platform i (append_node platform id normalized plan w).0
  unfolding append_node
  append_node-Undoable id normalized plan w v = Early-keeps w _ v (λ w₁ v₁.
      Early-keeps _ _ (stored-Early platform i w₁ normalized v₁) (λ w₂ v₂.
        Early-keeps _ _ (named-Early platform i w₂ id v₂) (λ w₃ v₃.
          Early-keeps _ _ (grown-Early platform i w₃ (record { levels = plan; deleted = false }) v₃)
            (λ w₄ v₄. insert_id-Undoable platform i id (length w.index.ids) w₄ v₄))))

  -- The entry and the top level are in the transaction.
  entered-Undoable :
      (w : Work platform) (entry level : ℕ)
      → Undoable platform i w
      → Undoable platform i
          (record w { index = record (w.index) { entry_point = entry; max_level = level } })
  entered-Undoable w entry level v = record {
    same_config = v.same_config;
    same_dot = v.same_dot;
    same_deleted = v.same_deleted;
    at_random = v.at_random;
    at_entry = v.at_entry;
    at_level = v.at_level;
    at_nodes = v.at_nodes;
    at_vectors = v.at_vectors;
    ids = v.ids;
    vectors = v.vectors;
    graph = v.graph;
    mapped = v.mapped;
    old = v.old;
  }

  insert_first-Undoable :
      (id : ℕ) (normalized : List ℕ) (level : ℕ) (w : Work platform)
      → Early platform i w
      → Undoable platform i (insert_first platform id normalized level w).0
  unfolding insert_first
  insert_first-Undoable id normalized level w v =
      then-keeps platform i (Undoable platform i) (Undoable platform i)
        (append_node platform id normalized (replicate (level + 1) []) w)
        (λ w'. (
          record w' {
            index = record (w'.index) { entry_point = length w.index.ids; max_level = level };
          },
          ok tt,
        ))
        (append_node-Undoable id normalized (replicate (level + 1) []) w v) (λ w' u. u)
        (λ w' u. entered-Undoable w' (length w.index.ids) level u)

  raise_entry-Undoable :
      (new_node level : ℕ) (w : Work platform)
      → Undoable platform i w
      → Undoable platform i (raise_entry platform new_node level w).0
  unfolding raise_entry
  raise_entry-Undoable new_node level w v = elim (Bool-cases (ltb w.index.max_level level)) [
    | inl higher ↦ rw higher (entered-Undoable w new_node level v)
    | inr lower ↦ rw lower v
  ]

  -- The appending, the linking and the entry, once the plan is made.
  planned-Undoable :
      (id : ℕ) (normalized : List ℕ) (plan : List (List ℕ)) (new_node left level : ℕ)
      (w : Work platform)
      → Early platform i w
      → Undoable platform i
          (and_then platform (append_node platform id normalized plan w) (λ w₁.
            and_then platform
              (link_levels platform new_node left 0 w₁)
              (λ w₂. raise_entry platform new_node level w₂))).0
  planned-Undoable id normalized plan new_node left level w v =
      then-keeps platform i (Undoable platform i) (Undoable platform i)
        (append_node platform id normalized plan w)
        (λ w₁.
          and_then platform (link_levels platform new_node left 0 w₁)
            (λ w₂. raise_entry platform new_node level w₂))
        (append_node-Undoable id normalized plan w v) (λ w' u. u)
        (λ w₁ u.
          then-keeps platform i (Undoable platform i) (Undoable platform i)
            (link_levels platform new_node left 0 w₁) (λ w₂. raise_entry platform new_node level w₂)
            (link_levels-Undoable platform i new_node left 0 w₁ u) (λ w' r. r)
            (λ w₂ r. raise_entry-Undoable new_node level w₂ r))

  with_plan-Undoable :
      (id : ℕ) (normalized : List ℕ) (level first new_node : ℕ) (planned : Result (List (List ℕ)))
      (w : Work platform)
      → Early platform i w
      → Undoable platform i (with_plan platform id normalized level first new_node planned w).0
  unfolding with_plan
  with_plan-Undoable id normalized level first new_node (err e) w v = v.undoable
  with_plan-Undoable id normalized level first new_node (ok plan) w v =
      planned-Undoable id normalized (plan ++ replicate (level - first) []) new_node (first + 1)
        level w v

  insert_next-Undoable :
      (id : ℕ) (normalized : List ℕ) (level : ℕ) (w : Work platform)
      → Early platform i w
      → Undoable platform i (insert_next platform id normalized level w).0
  unfolding insert_next
  insert_next-Undoable id normalized level w v = Early-keeps w _ v (λ w' v'.
      with_plan-Undoable id normalized level (min level w.index.max_level) (length w.index.ids) _ w'
        v')

  -- The transaction begins with the generator drawn from, and nothing else changed.
  begin-Early :
      (m : Machine) (allocations : Option ℕ)
      → length i.graph ≡ length i.ids
      → Early platform i (record {
        index = (random_level platform m i).1;
        transaction = begin platform i;
        allocations = allocations;
      })
  unfolding random_level begin has_backup
  begin-Early m allocations sized = record {
    undoable = record {
      same_config = refl;
      same_dot = refl;
      same_deleted = refl;
      at_random = refl;
      at_entry = refl;
      at_level = refl;
      at_nodes = refl;
      at_vectors = refl;
      ids = take-length (length i.ids) i.ids (omega arith);
      vectors = take-length (length i.vectors) i.vectors (omega arith);
      graph = take-length (length i.ids) i.graph (omega arith);
      mapped = refl;
      old = λ n l h. refl;
    };
    no_backups = refl;
    not_inserted = refl;
    vectors_fit = omega arith;
    ids_fit = omega arith;
    graph_fits = omega arith;
  }

  commit-unchanged :
      (a : Attempt platform) {e : Error}
      → Undoable platform i a.0
      → (commit_or_roll_back platform a).1 ≡ err e
      → (commit_or_roll_back platform a).0 ≡ i
  commit-unchanged (w, ok u) v h = cc h
  commit-unchanged (w, err x) v h = roll_back-Restores platform i w.index w.transaction v

  insert_normalized-unchanged :
      (m : Machine) (allocations : Option ℕ) (id : ℕ) (normalized : List ℕ) {e : Error}
      → length i.graph ≡ length i.ids
      → (insert_normalized platform m allocations i id normalized).1 ≡ err e
      → (insert_normalized platform m allocations i id normalized).0 ≡ i
  unfolding insert_normalized
  insert_normalized-unchanged m allocations id normalized sized =
      let level = (random_level platform m i).0 in
      let w : Work platform = record {
        index = (random_level platform m i).1;
        transaction = begin platform i;
        allocations = allocations;
      } in
      let v = begin-Early m allocations sized in
      elim (Bool-cases (ltb (platform.max_floats - length i.vectors) i.config.dimension)) [
        | inl full ↦ rw full (λ h. refl)
        | inr room ↦ elim (Bool-cases (length i.graph == 0)) [
          | inl first ↦
              rw (room, first)
                (commit-unchanged (insert_first platform id normalized level w)
                  (insert_first-Undoable id normalized level w v))
          | inr more ↦
              rw (room, more)
                (commit-unchanged (insert_next platform id normalized level w)
                  (insert_next-Undoable id normalized level w v))
        ]
      ]

  -- Strong exception guarantee of the HNSW index: an insertion that throws, in a check, in
  -- normalisation, in a search or in any allocation, leaves the index exactly as it was, graph and
  -- generator included. There is a node for each ID.
  pub failed_add-unchanged :
      (m : Machine) (allocations : Option ℕ) (id : ℕ) (vector : List ℕ) {e : Error}
      → length i.graph ≡ length i.ids
      → (add platform m allocations i id vector).1 ≡ err e
      → (add platform m allocations i id vector).0 ≡ i
  unfolding add
  failed_add-unchanged m allocations id vector sized =
      elim (Result-cases (admit platform m i id vector)) [
        | inl (normalized, a) ↦
            rw (a, add) (λ h. insert_normalized-unchanged m allocations id normalized sized h)
        | inr (x, a) ↦ rw (a, add) (λ h. refl)
      ]
