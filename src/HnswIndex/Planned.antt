-- ===== src/HnswIndex/Planned.antt =====
-- The searches of an insertion (src/hnsw_index.cpp) and the plan they make.
use fast_vector.Prelude.{
  ℕ, zero, suc, ◌+◌, ◌<◌, ◌≡◌, false, List, [], ◌∷◌, ◌++◌, length, ok, >>=-eq-ok, All, All-append,
  Ends, >>=-Ends,
}
use mathlib.Core.Path.{subst}
use fast_vector.SearchContext.{default_context, fresh, Budget}
use fast_vector.HnswIndex.{Platform, HnswIndex, Candidate, maximum_connections}
use fast_vector.HnswIndex.Layers.{greedy_search_layer, search_layer}
use fast_vector.HnswIndex.Neighbors.{select_neighbors}
use fast_vector.HnswIndex.Insertion.{descend, plan_levels, front_or, unobserved}
use fast_vector.HnswIndex.Explored.{LinksInside, search_layer-Ends}
use fast_vector.HnswIndex.Descended.{greedy_search_layer-Ends, greedy_search_layer-inside}
use fast_vector.HnswIndex.Found.{search_layer-All, select_neighbors-All}

module _ (platform : Platform) where
  module _ (i : HnswIndex platform) (query : List ℕ) where
    -- The searches of an insertion.
    abbrev pub Linked : Type 0
    Linked = LinksInside platform default_context unobserved i

    pub descend-Ends :
        (left level entry : ℕ)
        → Linked
        → entry < length i.graph
        → Ends (descend platform i query left level entry)
    unfolding descend
    descend-Ends zero level entry inside l = λ h. cc
    descend-Ends (suc left) level entry inside l =
        >>=-Ends
          (greedy_search_layer platform default_context unobserved i query entry (level + suc left)
            fresh)
          _
          (greedy_search_layer-Ends platform i query default_context unobserved entry
            (level + suc left) fresh inside l)
          (λ r h. descend-Ends left level r.0 inside (
            greedy_search_layer-inside platform i query default_context unobserved entry
              (level + suc left) fresh inside l h))

    pub descend-inside :
        (left level entry : ℕ) {next : ℕ}
        → Linked
        → entry < length i.graph
        → descend platform i query left level entry ≡ ok next
        → next < length i.graph
    unfolding descend
    descend-inside zero level entry {next} inside l h =
        let same : entry ≡ next = cc in rw (← same) l
    descend-inside (suc left) level entry inside l h =
        let (r, first, rest) =
          >>=-eq-ok
            (greedy_search_layer platform default_context unobserved i query entry
              (level + suc left) fresh)
            _ h in
        descend-inside left level r.0 inside
          (greedy_search_layer-inside platform i query default_context unobserved entry
            (level + suc left) fresh inside l first)
          rest

    front-inside :
        (cs : List Candidate) (entry : ℕ)
        → All (λ c. c.node < length i.graph) cs
        → entry < length i.graph
        → front_or platform cs entry < length i.graph
    front-inside [] entry a l = l
    front-inside (c ∷ cs) entry a l = a.0

    found :
        (level entry : ℕ) {cs : List Candidate} {b : Budget}
        → Linked
        → entry < length i.graph
        → search_layer platform default_context unobserved i query entry i.config.ef_construction
            level false fresh
          ≡ ok (cs, b)
        → All (λ c. c.node < length i.graph) cs
    found level entry inside l h =
        search_layer-All platform default_context unobserved i query entry i.config.ef_construction
          level false fresh inside l h

    pub plan_levels-Ends :
        (count entry : ℕ)
        → Linked
        → entry < length i.graph
        → Ends (plan_levels platform i query count entry)
    unfolding plan_levels
    plan_levels-Ends zero entry inside l = λ h. cc
    plan_levels-Ends (suc level) entry inside l =
        >>=-Ends
          (search_layer platform default_context unobserved i query entry i.config.ef_construction
            level false fresh)
          _
          (search_layer-Ends platform default_context unobserved i query entry
            i.config.ef_construction level false fresh inside l)
          (λ r h.
            let next = front_or platform r.0 entry in
            >>=-Ends (plan_levels platform i query level next) _
              (plan_levels-Ends level next inside
                (front-inside r.0 entry (found level entry inside l h) l))
              (λ lower k e. cc))

    pub plan_levels-All :
        (count entry : ℕ) {plan : List (List ℕ)}
        → Linked
        → entry < length i.graph
        → plan_levels platform i query count entry ≡ ok plan
        → All (All (λ k. k < length i.graph)) plan
    unfolding plan_levels
    plan_levels-All zero entry {plan} inside l h =
        let e : [] ≡ plan = cc in subst (All (All (λ k. k < length i.graph))) e tt
    plan_levels-All (suc level) entry {plan} inside l h =
        let (r, searched, rest) =
          >>=-eq-ok
            (search_layer platform default_context unobserved i query entry i.config.ef_construction
              level false fresh)
            _ h in
        let a = found level entry inside l searched in
        let next = front_or platform r.0 entry in
        let (lower, planned, rest₂) = >>=-eq-ok (plan_levels platform i query level next) _ rest in
        let chosen = select_neighbors platform i r.0 (maximum_connections platform i level) in
        let e : lower ++ chosen ∷ [] ≡ plan = cc in
        subst (All (All (λ k. k < length i.graph))) e (
          All-append (All (λ k. k < length i.graph)) lower (chosen ∷ [])
            (plan_levels-All level next inside (front-inside r.0 entry a l) planned)
            (
              select_neighbors-All platform i (λ k. k < length i.graph) r.0
                  (maximum_connections platform i level) a,
              tt,
            ))
