-- ===== src/HnswIndex/Guarantee.antt =====
-- The part of HnswIndex::insert_normalized (src/hnsw_index.cpp) before anything is linked.
use mathlib.Core.Path.{fun_ext}
use fast_vector.Prelude.{
  ℕ, ◌≤◌, ◌≡◌, ◌∙◌, sym, ap, List, [], ◌∷◌, ◌++◌, none, some, length, take, take-append,
  length-append, ◌==◌, assign, arith, Bool-cases, Option-cases, inl, inr,
}
use fast_vector.HnswIndex.{Platform, HnswIndex, Node}
use fast_vector.HnswIndex.Insertion.{Work, allocate, insert_id, Backup}
use fast_vector.HnswIndex.Restore.{restore}
use fast_vector.HnswIndex.Rollback.{Undoable, allocate-keeps}

module _ (platform : Platform) (i : HnswIndex platform) where
  grown-Undoable :
      (w : Work platform) (vectors ids : List ℕ) (graph : List Node)
      → take (length i.vectors) vectors ≡ i.vectors
      → take (length i.ids) ids ≡ i.ids
      → take (length i.ids) (restore w.transaction.backups graph) ≡ i.graph
      → Undoable platform i w
      → Undoable platform i
          (record w { index = record (w.index) { vectors = vectors; ids = ids; graph = graph } })
  grown-Undoable w vectors ids graph same_vectors same_ids same_graph v = record {
    same_config = v.same_config;
    same_dot = v.same_dot;
    same_deleted = v.same_deleted;
    at_random = v.at_random;
    at_entry = v.at_entry;
    at_level = v.at_level;
    at_nodes = v.at_nodes;
    at_vectors = v.at_vectors;
    ids = same_ids;
    vectors = same_vectors;
    graph = same_graph;
    mapped = v.mapped;
    old = v.old;
  }

  -- Before anything is linked: nothing is remembered, and the map is as it was.
  pub record Early (w : Work platform) : Type 0 where
    pub undoable : Undoable platform i w
    pub no_backups : w.transaction.backups ≡ []
    pub not_inserted : w.transaction.inserted_id ≡ none
    pub vectors_fit : length i.vectors ≤ length w.index.vectors
    pub ids_fit : length i.ids ≤ length w.index.ids
    pub graph_fits : length i.ids ≤ length w.index.graph

  pub allocate-Early : (w : Work platform) → Early w → Early (allocate platform w).0
  allocate-Early w v =
      allocate-keeps platform i Early w
        (λ left. record {
          undoable = v.undoable;
          no_backups = v.no_backups;
          not_inserted = v.not_inserted;
          vectors_fit = v.vectors_fit;
          ids_fit = v.ids_fit;
          graph_fits = v.graph_fits;
        })
        v

  pub stored-Early :
      (w : Work platform) (normalized : List ℕ)
      → Early w
      → Early (record w { index = record (w.index) { vectors = w.index.vectors ++ normalized } })
  stored-Early w normalized v = record {
    undoable =
        grown-Undoable w (w.index.vectors ++ normalized) w.index.ids w.index.graph
          (take-append (length i.vectors) w.index.vectors normalized v.vectors_fit
            ∙ v.undoable.vectors)
          v.undoable.ids v.undoable.graph v.undoable;
    no_backups = v.no_backups;
    not_inserted = v.not_inserted;
    vectors_fit = omega (arith, v.vectors_fit, length-append w.index.vectors normalized);
    ids_fit = v.ids_fit;
    graph_fits = v.graph_fits;
  }

  pub named-Early :
      (w : Work platform) (id : ℕ)
      → Early w
      → Early (record w { index = record (w.index) { ids = w.index.ids ++ id ∷ [] } })
  named-Early w id v = record {
    undoable =
        grown-Undoable w w.index.vectors (w.index.ids ++ id ∷ []) w.index.graph v.undoable.vectors
          (take-append (length i.ids) w.index.ids (id ∷ []) v.ids_fit ∙ v.undoable.ids)
          v.undoable.graph v.undoable;
    no_backups = v.no_backups;
    not_inserted = v.not_inserted;
    vectors_fit = v.vectors_fit;
    ids_fit = omega (arith, v.ids_fit, length-append w.index.ids (id ∷ []));
    graph_fits = v.graph_fits;
  }

  pub grown-Early :
      (w : Work platform) (node : Node)
      → Early w
      → Early (record w { index = record (w.index) { graph = w.index.graph ++ node ∷ [] } })
  grown-Early w node v = record {
    undoable =
        grown-Undoable w w.index.vectors w.index.ids (w.index.graph ++ node ∷ []) v.undoable.vectors
          v.undoable.ids (kept w.transaction.backups v.no_backups v.undoable.graph) v.undoable;
    no_backups = v.no_backups;
    not_inserted = v.not_inserted;
    vectors_fit = v.vectors_fit;
    ids_fit = v.ids_fit;
    graph_fits = omega (arith, v.graph_fits, length-append w.index.graph (node ∷ []));
  }
    where
      kept :
          (bs : List Backup)
          → bs ≡ []
          → take (length i.ids) (restore bs w.index.graph) ≡ i.graph
          → take (length i.ids) (restore bs (w.index.graph ++ node ∷ [])) ≡ i.graph
      kept [] e h = take-append (length i.ids) w.index.graph (node ∷ []) v.graph_fits ∙ h
      kept (b ∷ bs) e h = cc

  -- The map entry goes back to nothing, which it was.
  pub insert_id-Undoable :
      (id node : ℕ) (w : Work platform)
      → Early w
      → Undoable platform i (insert_id platform id node w).0
  unfolding insert_id
  insert_id-Undoable id node w v = elim (Option-cases (w.index.id_to_node id)) [
    | inr (n, e) ↦ rw e v.undoable
    | inl unused ↦ rw unused (record {
      same_config = v.undoable.same_config;
      same_dot = v.undoable.same_dot;
      same_deleted = v.undoable.same_deleted;
      at_random = v.undoable.at_random;
      at_entry = v.undoable.at_entry;
      at_level = v.undoable.at_level;
      at_nodes = v.undoable.at_nodes;
      at_vectors = v.undoable.at_vectors;
      ids = v.undoable.ids;
      vectors = v.undoable.vectors;
      graph = v.undoable.graph;
      mapped = removed unused;
      old = v.undoable.old;
    })
  ]
    where
      removed :
          w.index.id_to_node id ≡ none
          → assign (assign w.index.id_to_node id (some node)) id none ≡ i.id_to_node
      removed unused = fun_ext (λ j. put_back j unused) ∙ (rw v.not_inserted at v.undoable.mapped)
        where
          put_back :
              (j : ℕ)
              → w.index.id_to_node id ≡ none
              → assign (assign w.index.id_to_node id (some node)) id none j ≡ w.index.id_to_node j
          put_back j e = elim (Bool-cases (j == id)) [
            | inl same ↦
                let f : j ≡ id = ground arith in rw same (sym (ap w.index.id_to_node f ∙ e))
            | inr other ↦ rw other
          ]
