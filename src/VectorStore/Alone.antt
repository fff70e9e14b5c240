-- ===== src/VectorStore/Alone.antt =====
-- The steps of a query that nothing interrupts are VectorStore::search (src/vector_store.cpp).
use fast_vector.Prelude.{arith, ℕ, zero, suc, ◌≡◌, refl, Result, ok, err}
use fast_vector.VectorIndex.{VectorIndex}
use fast_vector.VectorStore.{
  SnapshotSearchResult, Ownership, VectorStore, serving, writable, search, search_result,
  search_owned,
}
use fast_vector.VectorStore.Query.{Query, Call, entered, returned, thrown, advance_from}

module _ (index_type : VectorIndex) where
  -- So many steps, with no other call between them.
  unfoldable run_alone :
      ℕ
      → VectorStore index_type
      → Call index_type
      → Query index_type
      → VectorStore index_type × Query index_type
  unfolding advance_from
  run_alone zero s c q = (s, q)
  run_alone (suc steps) s c q = let (t, r) = advance_from index_type s c q in run_alone steps t c r

  abbrev outcome : Result SnapshotSearchResult → Query index_type
  outcome (ok r) = returned r
  outcome (err x) = thrown x

  abbrev whole :
      VectorStore index_type → Call index_type → VectorStore index_type × Query index_type
  whole s c = let (t, r) = search index_type s c.query c.k c.context c.encounter in (t, outcome r)

  run_alone-search :
      (s : VectorStore index_type) (c : Call index_type) → run_alone 5 s c entered ≡ whole s c
  unfolding run_alone advance_from search search_result search_owned
  run_alone-search s c = owned s.ownership refl
    where
      owned : (o : Ownership index_type) → s.ownership ≡ o → run_alone 5 s c entered ≡ whole s c
      owned (serving snapshot) f = ground arith
      owned (writable index) f = ground arith
