-- ===== src/HnswIndex/Degree.antt =====
-- The number of neighbours that select_neighbors (src/hnsw_index.cpp) returns.
use fast_vector.Prelude.{
  ℕ, ◌+◌, ◌≤◌, ◌<◌, ◌≡◌, ◌∙◌, List, [], ◌∷◌, ◌++◌, take, length, length-map, length-take,
  length-append, min, ltb, ◌==◌, ◌&&◌, arith, Bool-cases, inl, inr,
}
use fast_vector.HnswIndex.{Platform, HnswIndex, Candidate, HnswNeighborSelection, simple, heuristic}
use fast_vector.HnswIndex.Neighbors.{is_diverse, diversify, fill, select_by, select_neighbors}

module _ (platform : Platform) (i : HnswIndex platform) where
  -- Each candidate is selected or left, and no more than `count` are selected.
  diversify-lengths :
      (count : ℕ) (cs : List Candidate) (selected pruned : List ℕ)
      → length selected ≤ count
      → (length (diversify platform i count cs selected pruned).0
            + length (diversify platform i count cs selected pruned).1
          ≡ length selected + length pruned + length cs)
        × (length (diversify platform i count cs selected pruned).0 ≤ count)
  unfolding diversify
  diversify-lengths count [] selected pruned h = (omega arith, h)
  diversify-lengths count (c ∷ cs) selected pruned h =
      elim (Bool-cases (is_diverse platform i c selected && ltb (length selected) count)) [
        | inl keep ↦
            let more = length-append selected (c.node ∷ []) in
            let below : length selected < count = ground arith in
            let (sum, bound) =
              diversify-lengths count cs (selected ++ c.node ∷ []) pruned (omega (arith, more)) in
            rw (keep, diversify) (omega (arith, more, sum), bound)
        | inr drop ↦
            let more = length-append pruned (c.node ∷ []) in
            let (sum, bound) = diversify-lengths count cs selected (pruned ++ c.node ∷ []) h in
            rw (drop, diversify) (omega (arith, more, sum), bound)
      ]

  length-fill :
      (count : ℕ) (selected ps : List ℕ)
      → length selected ≤ count
      → length (fill platform count selected ps) ≡ min count (length selected + length ps)
  unfolding fill
  length-fill count selected [] h = omega arith
  length-fill count selected (p ∷ ps) h = elim (Bool-cases (length selected == count)) [
    | inl full ↦ let e : length selected ≡ count = ground arith in rw full (omega (arith, e))
    | inr open_place ↦
        let more = length-append selected (p ∷ []) in
        let below : length selected < count = ground arith in
        rw open_place
          (length-fill count (selected ++ p ∷ []) ps (omega (arith, more)) ∙ omega (arith, more))
  ]

  length-select_by :
      (strategy : HnswNeighborSelection) (cs : List Candidate) (count : ℕ)
      → count ≤ length cs
      → length (select_by platform strategy i cs count) ≡ count
  unfolding select_by
  length-select_by simple cs count h =
      length-map (take count cs) (λ c. c.node) ∙ omega (arith, length-take count cs)
  length-select_by heuristic cs count h =
      let (sum, bound) = diversify-lengths count cs [] [] (omega arith) in
      length-fill count (diversify platform i count cs [] []).0
        (diversify platform i count cs [] []).1 bound
      ∙ omega (arith, sum)

  -- Either strategy of the HNSW index selects as many neighbours as there may be, and all
  -- candidates if there are fewer; the diversity rule does not make a node sparser.
  pub length-select_neighbors :
      (cs : List Candidate) (maximum : ℕ)
      → length (select_neighbors platform i cs maximum) ≡ min maximum (length cs)
  unfolding select_neighbors
  length-select_neighbors cs maximum =
      length-select_by i.config.neighbor_selection cs (min maximum (length cs)) (omega arith)
