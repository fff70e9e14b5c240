-- ===== src/HnswIndex/Termination.antt =====
-- The loops of HnswIndex::search (src/hnsw_index.cpp) on a graph whose lists stay inside it.
use fast_vector.Prelude.{
  ℕ, zero, suc, ◌<◌, ◌≡◌, ◌≢◌, true, not, List, [], ◌∷◌, take, length, min, max, ◌==◌,
  if◌then◌else◌, ok, err, out_of_fuel, ◌>>=◌, throw_if, arith, inl, inr, Bool-cases, Ends, >>=-Ends,
  throw_if-Ends, zero_check_interval, dimension_mismatch, zero_ef_search, >>=-eq-ok,
}
use fast_vector.Distance.{Machine, normalize_l2, normalize_l2-Ends}
use fast_vector.SearchContext.{SearchContext, World, Budget, fresh, validate, check_now, checkpoint}
use fast_vector.SearchResult.{SearchResult}
use fast_vector.HnswIndex.{Platform, HnswIndex, Candidate, size}
use fast_vector.HnswIndex.Layers.{greedy_search_layer, search_layer}
use fast_vector.HnswIndex.Search.{search, descend, report}
use fast_vector.HnswIndex.Explored.{check_now-Ends, checkpoint-Ends, LinksInside, search_layer-Ends}
use fast_vector.HnswIndex.Descended.{greedy_search_layer-Ends, greedy_search_layer-inside}
use fast_vector.HnswIndex.Navigable.{IsNavigable, navigable-LinksInside}

module _ (platform : Platform) (ctx : SearchContext) (world : World) where
  -- The descent ends, at a node of the graph.
  descend-Ends :
      (i : HnswIndex platform) (query : List ℕ) (level entry : ℕ) (b : Budget)
      → LinksInside platform ctx world i
      → entry < length i.graph
      → Ends (descend platform ctx world i query level entry b)
  unfolding descend
  descend-Ends i query zero entry b inside l = λ p. cc
  descend-Ends i query (suc level) entry b inside l =
      >>=-Ends (greedy_search_layer platform ctx world i query entry (suc level) b) _
        (greedy_search_layer-Ends platform i query ctx world entry (suc level) b inside l)
        (λ r h.
          descend-Ends i query level r.0 r.1 inside
            (greedy_search_layer-inside platform i query ctx world entry (suc level) b inside l h))

  descend-inside :
      (i : HnswIndex platform) (query : List ℕ) (level entry : ℕ) (b : Budget) {next : ℕ}
      {b' : Budget}
      → LinksInside platform ctx world i
      → entry < length i.graph
      → descend platform ctx world i query level entry b ≡ ok (next, b')
      → next < length i.graph
  unfolding descend
  descend-inside i query zero entry b {next} inside l h =
      let same : entry ≡ next = cc in rw (← same) l
  descend-inside i query (suc level) entry b inside l h =
      let (r, first, rest) =
        >>=-eq-ok (greedy_search_layer platform ctx world i query entry (suc level) b) _ h in
      descend-inside i query level r.0 r.1 inside
        (greedy_search_layer-inside platform i query ctx world entry (suc level) b inside l first)
        rest

  report-Ends :
      (i : HnswIndex platform) (cs : List Candidate) (results : List SearchResult) (b : Budget)
      → Ends (report platform ctx world i cs results b)
  unfolding report
  report-Ends i [] results b = λ p. cc
  report-Ends i (c ∷ cs) results b =
      >>=-Ends (checkpoint ctx world b) _ (checkpoint-Ends ctx world b)
        (λ b₁ e. report-Ends i cs _ b₁)

  -- What search does with a query that is not empty.
  queried-Ends :
      (i : HnswIndex platform) (normalized : List ℕ) (count ef_search : ℕ) (b : Budget)
      → IsNavigable platform i
      → Ends (
          if size platform i == 0 then ok [] else (do
            (entry, b₁) ← descend platform ctx world i normalized i.max_level i.entry_point b
            (candidates, b₂) ←
                search_layer platform ctx world i normalized entry (max count ef_search) 0 true b₁
            (results, b₃) ←
                report platform ctx world i (take count candidates) [] (record b₂ { remaining = 0 })
            check_now ctx world b₃ >>= λ _. ok results))
  unfolding size
  queried-Ends i normalized count ef_search b s = elim (Bool-cases (size platform i == 0)) [
    | inl z ↦ rw z (λ p. cc)
    | inr z ↦
        let some_id : length i.ids ≢ 0 = λ e. absurd (ground (arith, e, z)) in
        let inside = navigable-LinksInside platform i s in
        let l : i.entry_point < length i.graph = rw s.nodes (s.entry some_id) in
        let ef = max count ef_search in
        rw z (
          >>=-Ends (descend platform ctx world i normalized i.max_level i.entry_point b) _
            (descend-Ends i normalized i.max_level i.entry_point b inside l)
            (λ r h.
              let l' = descend-inside i normalized i.max_level i.entry_point b inside l h in
              >>=-Ends (search_layer platform ctx world i normalized r.0 ef 0 true r.1) _
                (search_layer-Ends platform ctx world i normalized r.0 ef 0 true r.1 inside l')
                (λ c k.
                  let b₂ = record (c.1) { remaining = 0 } in
                  >>=-Ends (report platform ctx world i (take count c.0) [] b₂) _
                    (report-Ends i (take count c.0) [] b₂)
                    (λ t e.
                      >>=-Ends (check_now ctx world t.1) _ (check_now-Ends ctx world t.1)
                        (λ u n p. cc)))))
  ]

  pub search-Ends :
      (m : Machine) (i : HnswIndex platform) (query : List ℕ) (k ef_search : ℕ)
      → IsNavigable platform i
      → search platform ctx world m i query k ef_search ≢ err out_of_fuel
  unfolding search validate size
  search-Ends m i query k ef_search s =
      >>=-Ends (throw_if (ctx.check_interval == 0) zero_check_interval) _
        (throw_if-Ends _ _ (λ e. cc))
        (λ u h. >>=-Ends (check_now ctx world fresh) _ (check_now-Ends ctx world fresh) (λ b e.
          elim (Bool-cases (k == 0)) [
            | inl z ↦ rw z (λ p. cc)
            | inr z ↦ rw z (
                >>=-Ends (throw_if (not (length query == i.config.dimension)) dimension_mismatch) _
                  (throw_if-Ends _ _ (λ e. cc))
                  (λ v f.
                    >>=-Ends (throw_if (ef_search == 0) zero_ef_search) _
                      (throw_if-Ends _ _ (λ e. cc))
                      (λ w g.
                        >>=-Ends (normalize_l2 m query) _ (normalize_l2-Ends m query)
                          (λ normalized n.
                            queried-Ends i normalized (min k (size platform i)) ef_search b s))))
          ]))
