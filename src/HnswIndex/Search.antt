-- ===== src/HnswIndex/Search.antt =====
-- HnswIndex::search: a greedy descent, then a search of the lowest layer for live nodes.
use fast_vector.Prelude.{
  ℕ, zero, suc, not, List, [], ◌∷◌, ◌++◌, take, get_or, length, min, max, ◌==◌, if◌then◌else◌,
  Result, ok, ◌>>=◌, ◌>>◌, throw_if, dimension_mismatch, zero_ef_search, true,
}
use fast_vector.Distance.{Machine, normalize_l2}
use fast_vector.SearchContext.{SearchContext, World, Budget, fresh, validate, check_now, checkpoint}
use fast_vector.SearchResult.{SearchResult}
use fast_vector.HnswIndex.{Platform, HnswIndex, Candidate, size}
use fast_vector.HnswIndex.Layers.{greedy_search_layer, search_layer}

module _ (platform : Platform) (ctx : SearchContext) (world : World) where
  -- The descent from `level` to the layer above the lowest.
  unfoldable pub descend : HnswIndex platform → List ℕ → ℕ → ℕ → Budget → Result (ℕ × Budget)
  unfolding greedy_search_layer
  descend i query zero entry b = ok (entry, b)
  descend i query (suc level) entry b = do
    (next, b') ← greedy_search_layer platform ctx world i query entry (suc level) b
    descend i query level next b'

  unfoldable pub report :
      HnswIndex platform
      → List Candidate
      → List SearchResult
      → Budget
      → Result (List SearchResult × Budget)
  report i [] results b = ok (results, b)
  report i (c ∷ cs) results b = do
    b' ← checkpoint ctx world b
    report i cs (results ++ record { id = get_or i.ids c.node 0; score = c.score } ∷ []) b'

  unfoldable pub search : Machine → HnswIndex platform → List ℕ → ℕ → ℕ → Result (List SearchResult)
  unfolding descend search_layer report size validate check_now
  search m i query k ef_search = do
    validate ctx
    b ← check_now ctx world fresh
    if k == 0 then ok [] else (do
      throw_if (not (length query == i.config.dimension)) dimension_mismatch
      throw_if (ef_search == 0) zero_ef_search
      normalized ← normalize_l2 m query
      if size platform i == 0 then ok [] else (do
        (entry, b₁) ← descend i normalized i.max_level i.entry_point b
        let count = min k (size platform i)
        (candidates, b₂) ←
            search_layer platform ctx world i normalized entry (max count ef_search) 0 true b₁
        (results, b₃) ← report i (take count candidates) [] (record b₂ { remaining = 0 })
        check_now ctx world b₃ >>= λ _. ok results))
