-- ===== src/HnswIndex/Rollback.antt =====
-- What a transaction of src/hnsw_index.cpp can undo.
use mathlib.Core.Path.{subst}
use fast_vector.Prelude.{
  ℕ, zero, suc, ◌≤◌, ◌≡◌, ◌⊎◌, ◌∙◌, refl, sym, ap, true, false, ◌||◌, List, [], ◌∷◌, ◌++◌, Option,
  none, some, length, take, leb, ok, err, arith, Bool-cases, inl, inr, allocation_failed,
}
use fast_vector.HnswIndex.{Platform, HnswIndex, links, set_links}
use fast_vector.HnswIndex.Insertion.{
  Backup, map_back, InsertionTransaction, Work, Attempt, and_then, allocate, roll_back, has_backup,
}
use fast_vector.HnswIndex.Graph.{put, put-list_at, take-put}
use fast_vector.HnswIndex.Restore.{
  restore, set_links-put, restore_links-restore, restore-put_known, restore-put_new,
  list_at-restore, restore-snoc, has_backup-snoc,
}

module _ (platform : Platform) (i : HnswIndex platform) where
  -- The transaction `t` takes the index `g` back to `i`.
  pub record Restores (g : HnswIndex platform) (t : InsertionTransaction platform) : Type 0 where
    pub same_config : g.config ≡ i.config
    pub same_dot : g.dot ≡ i.dot
    pub same_deleted : g.deleted_count ≡ i.deleted_count
    pub at_random : t.random ≡ i.random
    pub at_entry : t.entry ≡ i.entry_point
    pub at_level : t.level ≡ i.max_level
    pub at_nodes : t.node_count ≡ length i.ids
    pub at_vectors : t.vector_count ≡ length i.vectors
    pub ids : take (length i.ids) g.ids ≡ i.ids
    pub vectors : take (length i.vectors) g.vectors ≡ i.vectors
    pub graph : take (length i.ids) (restore t.backups g.graph) ≡ i.graph
    pub mapped : map_back platform t.inserted_id g.id_to_node ≡ i.id_to_node
    pub old : (n l : ℕ) → length i.ids ≤ n → has_backup platform n l t.backups ≡ false

  pub roll_back-Restores :
      (g : HnswIndex platform) (t : InsertionTransaction platform)
      → Restores g t
      → roll_back platform t g ≡ i
  unfolding roll_back
  roll_back-Restores g t v = rw (
    restore_links-restore platform t.backups g,
    v.same_config,
    v.same_dot,
    v.same_deleted,
    v.at_random,
    v.at_entry,
    v.at_level,
    v.at_nodes,
    v.at_vectors,
    v.ids,
    v.vectors,
    v.graph,
    v.mapped,
  )

  abbrev pub Undoable : Work platform → Type 0
  Undoable w = Restores w.index w.transaction

  -- A place whose list may be changed: of the new node, or remembered.
  abbrev pub Opened : ℕ → ℕ → Work platform → Type 0
  Opened n l w =
      (leb w.transaction.node_count n || has_backup platform n l w.transaction.backups) ≡ true

  pub and_then-keeps :
      (P : Work platform → Type 0) (a : Attempt platform) (next : Work platform → Attempt platform)
      → P a.0
      → (a.1 ≡ ok tt → P (next a.0).0)
      → P (and_then platform a next).0
  and_then-keeps P (w, ok u) next p q = q refl
  and_then-keeps P (w, err e) next p q = p

  pub allocate-cases :
      (w : Work platform)
      → (allocate platform w ≡ (w, err allocation_failed))
        ⊎ ((left : Option ℕ) × (allocate platform w ≡ (record w { allocations = left }, ok tt)))
  unfolding allocate
  allocate-cases w = cases w.allocations refl
    where
      cases :
          (a : Option ℕ)
          → w.allocations ≡ a
          → (allocate platform w ≡ (w, err allocation_failed))
            ⊎ ((left : Option ℕ) × (allocate platform w ≡ (record w { allocations = left }, ok tt)))
      cases none e = inr (none, rw e)
      cases (some zero) e = inl (rw e)
      cases (some (suc n)) e = inr (some n, rw e)

  -- What does not look at the allocations is kept by one.
  pub allocate-keeps :
      (P : Work platform → Type 0) (w : Work platform)
      → ((left : Option ℕ) → P (record w { allocations = left }))
      → P w
      → P (allocate platform w).0
  allocate-keeps P w q p = elim (allocate-cases w) [
    | inl e ↦ subst (λ a. P a.0) (sym e) p
    | inr (left, e) ↦ subst (λ a. P a.0) (sym e) (q left)
  ]

  pub set_links-Undoable :
      (w : Work platform) (n l : ℕ) (x : List ℕ)
      → Opened n l w
      → Undoable w
      → Undoable (record w { index = set_links platform w.index n l x })
  set_links-Undoable w n l x open_place v = rw (set_links-put platform w.index n l x) (record {
    same_config = v.same_config;
    same_dot = v.same_dot;
    same_deleted = v.same_deleted;
    at_random = v.at_random;
    at_entry = v.at_entry;
    at_level = v.at_level;
    at_nodes = v.at_nodes;
    at_vectors = v.at_vectors;
    ids = v.ids;
    vectors = v.vectors;
    graph = kept;
    mapped = v.mapped;
    old = v.old;
  })
    where
      bs : List Backup
      bs = w.transaction.backups

      kept : take (length i.ids) (restore w.transaction.backups (put w.index.graph n l x)) ≡ i.graph
      kept = elim (Bool-cases (has_backup platform n l w.transaction.backups)) [
        | inl known ↦
            ap (take (length i.ids))
              (restore-put_known platform w.transaction.backups w.index.graph n l x known)
            ∙ v.graph
        | inr new ↦
            let past : length i.ids ≤ n = ground (arith, v.at_nodes) in
            ap (take (length i.ids))
              (restore-put_new platform w.transaction.backups w.index.graph n l x new)
            ∙ take-put (length i.ids) (restore w.transaction.backups w.index.graph) n l x past
            ∙ v.graph
      ]

  -- A list of an old node that was not remembered, with its backup.
  abbrev pub remembered : ℕ → ℕ → Work platform → Work platform
  remembered n l w = record w {
    transaction = record (w.transaction) {
      backups =
          w.transaction.backups
          ++ record { node = n; level = l; neighbors = links platform w.index n l } ∷ [];
    };
  }

  pub remembered-Undoable :
      (w : Work platform) (n l : ℕ)
      → (leb w.transaction.node_count n || has_backup platform n l w.transaction.backups) ≡ false
      → Undoable w
      → Undoable (remembered n l w)
  unfolding links
  remembered-Undoable w n l closed v = record {
    same_config = v.same_config;
    same_dot = v.same_dot;
    same_deleted = v.same_deleted;
    at_random = v.at_random;
    at_entry = v.at_entry;
    at_level = v.at_level;
    at_nodes = v.at_nodes;
    at_vectors = v.at_vectors;
    ids = v.ids;
    vectors = v.vectors;
    graph = kept;
    mapped = v.mapped;
    old = still_old;
  }
    where
      bs : List Backup
      bs = w.transaction.backups

      kept :
          take (length i.ids) (restore (remembered n l w).transaction.backups w.index.graph)
          ≡ i.graph
      kept =
          let new : has_backup platform n l w.transaction.backups ≡ false = ground arith in
          let at = list_at-restore platform w.transaction.backups w.index.graph n l new in
          ap (take (length i.ids)) (
            restore-snoc platform w.transaction.backups _ w.index.graph
            ∙ ap (put (restore w.transaction.backups w.index.graph) n l) (sym at)
            ∙ put-list_at (restore w.transaction.backups w.index.graph) n l)
          ∙ v.graph

      still_old :
          (k j : ℕ)
          → length i.ids ≤ k
          → has_backup platform k j (remembered n l w).transaction.backups ≡ false
      still_old k j h =
          let e =
            has_backup-snoc platform w.transaction.backups
              (record { node = n; level = l; neighbors = links platform w.index n l }) k j in
          e ∙ ground (arith, v.old k j h, v.at_nodes)
