-- ===== src/HnswIndex/Histories.antt =====
-- Histories of an HNSW index (src/hnsw_index.cpp) that was made or loaded.
use fast_vector.Prelude.{
  ℕ, ◌≡◌, ◌≢◌, ◌⊎◌, inl, inr, List, [], ◌∷◌, Option, ok, err, out_of_fuel, Result-cases,
}
use fast_vector.Distance.{Machine, DotProductKernel}
use fast_vector.SearchContext.{SearchContext, World}
use fast_vector.HnswIndex.{Platform, HnswIndex, HnswConfig, create, erase}
use fast_vector.HnswIndex.Insertion.{add, rebuild}
use fast_vector.HnswIndex.Search.{search}
use fast_vector.HnswIndex.Navigable.{IsNavigable, create-IsNavigable, erase-IsNavigable}
use fast_vector.HnswIndex.Inserted.{add-IsNavigable, add-Ends}
use fast_vector.HnswIndex.Rebuilt.{rebuild-IsNavigable}
use fast_vector.HnswIndex.Termination.{search-Ends}
use fast_vector.HnswIndexIo.Save.{RandomText}
use fast_vector.HnswIndexIo.Load.{load}
use fast_vector.HnswIndexIo.Sound.{load-IsSound}
use fast_vector.HnswIndexIo.Navigable.{sound-IsNavigable}

-- A call of add, with the allocations that succeed, of erase, or of rebuild, whose result is used
-- from then on.
pub data Operation : Type 0 where
  insertion : Option ℕ → ℕ → List ℕ → Operation
  erasure : ℕ → Operation
  rebuilding : ℕ → Operation

module _ (platform : Platform) (text : RandomText platform) (m : Machine) where
  unfoldable pub run : List Operation → HnswIndex platform → HnswIndex platform
  unfolding add erase rebuild
  run [] i = i
  run (insertion allocations id vector ∷ rest) i =
      run rest (add platform m allocations i id vector).0
  run (erasure id ∷ rest) i = run rest (erase platform i id).0
  run (rebuilding random_seed ∷ rest) i =
      run rest (elim (rebuild platform m i random_seed) [ ok rebuilt ↦ rebuilt | err e ↦ i ])

  run-IsNavigable :
      (operations : List Operation) (i : HnswIndex platform)
      → IsNavigable platform i
      → IsNavigable platform (run operations i)
  unfolding run
  run-IsNavigable [] i v = v
  run-IsNavigable (insertion allocations id vector ∷ rest) i v =
      run-IsNavigable rest _ (add-IsNavigable platform m allocations i id vector v)
  run-IsNavigable (erasure id ∷ rest) i v =
      run-IsNavigable rest _ (erase-IsNavigable platform i id v)
  run-IsNavigable (rebuilding random_seed ∷ rest) i v =
      run-IsNavigable rest _ (elim (Result-cases (rebuild platform m i random_seed)) [
        | inl (rebuilt, e) ↦ rw e (rebuild-IsNavigable platform m i random_seed e)
        | inr (x, e) ↦ rw e v
      ])

  -- After any history of insertions, removals and rebuilds of an HNSW index that was made by the
  -- constructor or returned by load, failed insertions included, the lists of neighbours and the
  -- entry point stay inside the graph, and the loops of a search and of an insertion terminate:
  -- the bound on the rounds of the searches of a layer is never reached, whatever the query, the
  -- budget and the scores, scores that are no numbers included.
  pub history_ends :
      (start : HnswIndex platform) (operations : List Operation) (ctx : SearchContext)
      (world : World) (query : List ℕ) (k ef_search : ℕ) (allocations : Option ℕ) (id : ℕ)
      (vector : List ℕ)
      → ((config : HnswConfig) × (create platform m config ≡ ok start))
        ⊎ ((file : Option (List ℕ)) × (kernel : DotProductKernel) × (load platform text m file
                kernel
              ≡ ok start))
      → IsNavigable platform (run operations start)
        × (search platform ctx world m (run operations start) query k ef_search ≢ err out_of_fuel)
        × ((add platform m allocations (run operations start) id vector).1 ≢ err out_of_fuel)
  history_ends start operations ctx world query k ef_search allocations id vector origin =
      let i = run operations start in
      let v : IsNavigable platform i = run-IsNavigable operations start (navigable origin) in
      (
        v,
        search-Ends platform ctx world m i query k ef_search v,
        add-Ends platform m allocations i id vector v,
      )
    where
      navigable :
          ((config : HnswConfig) × (create platform m config ≡ ok start))
            ⊎ ((file : Option (List ℕ)) × (kernel : DotProductKernel) × (load platform text m file
                    kernel
                  ≡ ok start))
          → IsNavigable platform start
      navigable (inl (config, made)) = create-IsNavigable platform m config made
      navigable (inr (file, kernel, read)) =
          sound-IsNavigable platform start (load-IsSound platform text m file kernel read)
