-- ===== src/VectorStore/Untouched.antt =====
-- The calls of a store (src/vector_store.cpp) that leave its counters of queries alone.
use fast_vector.Prelude.{
  ℕ, ◌≡◌, ◌∙◌, refl, List, [], ◌∷◌, Option, ok, arith, inl, inr, Result-cases,
}
use fast_vector.Distance.{Machine}
use fast_vector.VectorIndex.{VectorIndex}
use fast_vector.VectorStore.{
  ServingSnapshot, Ownership, VectorStore, VectorRecord, serving, writable, replace_index,
  activate_snapshot, add, add_to, add_all, add_batch, validate_batch,
}

module _ (index_type : VectorIndex) where
  -- What other calls leave alone.
  abbrev pub SameCounts : VectorStore index_type → VectorStore index_type → Type 0
  SameCounts s t =
      (t.successful_queries ≡ s.successful_queries) × (t.failed_queries ≡ s.failed_queries)

  pub replaced-SameCounts :
      (s t : VectorStore index_type) (i : Option (index_type.Index))
      → replace_index index_type s i ≡ ok t
      → SameCounts s t
  unfolding replace_index
  replaced-SameCounts s t i h = ground arith

  pub activated-SameCounts :
      (s t : VectorStore index_type) (planned : Option (ServingSnapshot index_type))
      → activate_snapshot index_type s planned ≡ ok t
      → SameCounts s t
  unfolding activate_snapshot
  activated-SameCounts s t planned h = ground arith

  add_to-SameCounts :
      (s : VectorStore index_type) (index : index_type.Index) (id : ℕ) (vector : List ℕ)
      → SameCounts s (add_to index_type s index id vector).0
  unfolding add_to
  add_to-SameCounts s index id vector = elim (Result-cases (index_type.add index id vector).1) [
    | inl (u, e) ↦ rw (e, add_to) (refl, refl)
    | inr (x, e) ↦ rw (e, add_to) (refl, refl)
  ]

  owned-SameCounts :
      (s : VectorStore index_type) (o : Ownership index_type) (id : ℕ) (vector : List ℕ)
      → s.ownership ≡ o
      → SameCounts s (add index_type s id vector).0
  unfolding add
  owned-SameCounts s (serving snapshot) id vector e = rw (e, add) (refl, refl)
  owned-SameCounts s (writable index) id vector e =
      rw (e, add) (add_to-SameCounts s index id vector)

  pub add-SameCounts :
      (s : VectorStore index_type) (id : ℕ) (vector : List ℕ)
      → SameCounts s (add index_type s id vector).0
  add-SameCounts s id vector = owned-SameCounts s s.ownership id vector refl

  add_all-SameCounts :
      (s : VectorStore index_type) (vectors : List VectorRecord)
      → SameCounts s (add_all index_type s vectors).0
  unfolding add_all
  add_all-SameCounts s [] = (refl, refl)
  add_all-SameCounts s (v ∷ vs) =
      let t = (add index_type s v.id v.values).0 in
      let one = add-SameCounts s v.id v.values in
      elim (Result-cases (add index_type s v.id v.values).1) [
        | inl (u, e) ↦
            let rest = add_all-SameCounts t vs in rw (e, add_all) (rest.0 ∙ one.0, rest.1 ∙ one.1)
        | inr (x, e) ↦ rw (e, add_all) one
      ]

  module _ (m : Machine) where
    pub add_batch-SameCounts :
        (s : VectorStore index_type) (vectors : List VectorRecord)
        → SameCounts s (add_batch index_type m s vectors).0
    unfolding add_batch
    add_batch-SameCounts s vectors = owned s.ownership refl
      where
        owned :
            (o : Ownership index_type)
            → s.ownership ≡ o
            → SameCounts s (add_batch index_type m s vectors).0
        owned (serving snapshot) e = rw (e, add_batch) (refl, refl)
        owned (writable index) e =
            elim (Result-cases
              (validate_batch m s.maximum_batch_size (index_type.dimension index) vectors)) [
                | inl (u, f) ↦ rw (e, add_batch, f) (add_all-SameCounts s vectors)
                | inr (x, f) ↦ rw (e, add_batch, f) (refl, refl)
              ]
