-- ===== src/HnswIndex/Appended.antt =====
-- HnswIndex::append_node (src/hnsw_index.cpp): the new node, and the lists of its plan.
use fast_vector.Prelude.{
  ℕ, suc, ◌<◌, ◌≡◌, false, List, [], ◌∷◌, ◌++◌, length, is_some, All, All-append, length-append,
  arith, if_elim, All-imp,
}
use fast_vector.HnswIndex.{Platform, HnswIndex, Node}
use fast_vector.HnswIndex.Insertion.{Work, allocate, insert_id, append_node}
use fast_vector.HnswIndex.Wired.{
  Inside, IsWired, Leaves, then-Leaves, allocate-Leaves, Wired, allocate-Wired,
}

module _ (platform : Platform) where
  wider : (n : ℕ) (nodes : List Node) → All (Inside n) nodes → All (Inside (suc n)) nodes
  wider n nodes a =
      All-imp (Inside n) (Inside (suc n)) nodes
        (λ node h.
          All-imp (All (λ k. k < n)) (All (λ k. k < suc n)) node.levels
            (λ ks f. All-imp (λ k. k < n) (λ k. k < suc n) ks (λ k l. omega (arith, l)) f) h)
        a

  insert_id-Wired :
      (n entry id node : ℕ) (w : Work platform)
      → IsWired platform n entry w.index
      → Leaves platform (Wired platform n entry) (insert_id platform id node w)
  unfolding insert_id
  insert_id-Wired n entry id node w v =
      if_elim (Leaves platform (Wired platform n entry)) (is_some (w.index.id_to_node id)) _ _
        (λ e. (λ h. cc, λ h. cc))
        (λ e. (
          λ h. record { graph = v.graph; ids = v.ids; lists = v.lists; at_entry = v.at_entry },
          λ h. cc,
        ))

  -- The ID is there, and the node is not.
  record IsNamed (n entry : ℕ) (g : HnswIndex platform) : Type 0 where
    graph : length g.graph ≡ n
    ids : length g.ids ≡ suc n
    lists : All (Inside n) g.graph
    at_entry : g.entry_point ≡ entry

  named :
      (n entry id : ℕ) (g : HnswIndex platform)
      → IsWired platform n entry g
      → IsNamed n entry (record g { ids = g.ids ++ id ∷ [] })
  named n entry id g v = record {
    graph = v.graph;
    ids = omega (arith, v.ids, length-append g.ids (id ∷ []));
    lists = v.lists;
    at_entry = v.at_entry;
  }

  grown :
      (n entry : ℕ) (plan : List (List ℕ)) (g : HnswIndex platform)
      → All (All (λ k. k < n)) plan
      → IsNamed n entry g
      → IsWired platform
          (suc n)
          entry
          (record g { graph = g.graph ++ record { levels = plan; deleted = false } ∷ [] })
  grown n entry plan g p v =
      let node : Node = record { levels = plan; deleted = false } in
      record {
        graph = omega (arith, v.graph, length-append g.graph (node ∷ []));
        ids = v.ids;
        lists =
            All-append (Inside (suc n)) g.graph (node ∷ []) (wider n g.graph v.lists)
              (wider n (node ∷ []) (p, tt));
        at_entry = v.at_entry;
      }

  -- The new node is there, with the plan as its lists.
  pub append_node-Wired :
      (n entry id : ℕ) (normalized : List ℕ) (plan : List (List ℕ)) (w : Work platform)
      → All (All (λ k. k < n)) plan
      → IsWired platform n entry w.index
      → Leaves platform (Wired platform (suc n) entry) (append_node platform id normalized plan w)
  unfolding append_node
  append_node-Wired n entry id normalized plan w p v =
      let Named : Work platform → Type 0 = λ x. IsNamed n entry x.index in
      then-Leaves platform (Wired platform n entry) (Wired platform (suc n) entry)
        (allocate platform w) _ (allocate-Wired platform n entry w v)
        (λ w₁ v₁.
          let stored = record w₁ {
            index = record (w₁.index) { vectors = w₁.index.vectors ++ normalized };
          } in
          then-Leaves platform (Wired platform n entry) (Wired platform (suc n) entry)
            (allocate platform stored) _
            (allocate-Wired platform n entry stored
              (record { graph = v₁.graph; ids = v₁.ids; lists = v₁.lists; at_entry = v₁.at_entry }))
            (λ w₂ v₂.
              let k = named n entry id w₂.index v₂ in
              then-Leaves platform Named (Wired platform (suc n) entry) _ _
                (allocate-Leaves platform Named
                  (record w₂ { index = record (w₂.index) { ids = w₂.index.ids ++ id ∷ [] } })
                  w₂.index (λ left. k))
                (λ w₃ v₃.
                  then-Leaves platform (Wired platform (suc n) entry) (Wired platform (suc n) entry)
                    _ _ (allocate-Wired platform (suc n) entry _ (grown n entry plan w₃.index p v₃))
                    (λ w₄ v₄. insert_id-Wired (suc n) entry id (length w.index.ids) w₄ v₄))))
