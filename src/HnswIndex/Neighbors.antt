-- ===== src/HnswIndex/Neighbors.antt =====
-- select_neighbors: which candidates a node is linked to.
use fast_vector.Prelude.{
  ℕ, Bool, true, not, ◌&&◌, ◌||◌, List, [], ◌∷◌, ◌++◌, map, take, length, min, ltb, ◌==◌,
  if◌then◌else◌,
}
use fast_vector.Float.{float_eq, float_gt}
use fast_vector.FlatIndex.{row}
use fast_vector.HnswIndex.{
  Platform, HnswIndex, Candidate, HnswNeighborSelection, simple, heuristic, similarity,
}

module _ (platform : Platform) where
  -- `similarity(candidate_vector, selected_node) >= candidate.score` for no selected node.
  unfoldable pub is_diverse : HnswIndex platform → Candidate → List ℕ → Bool
  is_diverse i candidate [] = true
  is_diverse i candidate (s ∷ ss) =
      let score = similarity platform i (row i.vectors i.config.dimension candidate.node) s in
      not (float_gt score candidate.score || float_eq score candidate.score)
      && is_diverse i candidate ss

  -- The loop over the candidates: those that are selected, and those that are left.
  unfoldable pub diversify :
      HnswIndex platform → ℕ → List Candidate → List ℕ → List ℕ → List ℕ × List ℕ
  unfolding is_diverse
  diversify i count [] selected pruned = (selected, pruned)
  diversify i count (c ∷ cs) selected pruned =
      let keep = is_diverse i c selected && ltb (length selected) count in
      diversify i count cs (if keep then selected ++ c.node ∷ [] else selected)
        (if keep then pruned else pruned ++ c.node ∷ [])

  -- The rejected candidates fill what is left of the places.
  unfoldable pub fill : ℕ → List ℕ → List ℕ → List ℕ
  fill count selected [] = selected
  fill count selected (p ∷ ps) =
      let more = fill count (selected ++ p ∷ []) ps in
      if length selected == count then selected else more

  unfoldable pub select_by :
      HnswNeighborSelection → HnswIndex platform → List Candidate → ℕ → List ℕ
  unfolding diversify fill
  select_by simple i candidates count = map (λ c. c.node) (take count candidates)
  select_by heuristic i candidates count =
      let (selected, pruned) = diversify i count candidates [] [] in fill count selected pruned

  unfoldable pub select_neighbors : HnswIndex platform → List Candidate → ℕ → List ℕ
  unfolding select_by
  select_neighbors i candidates maximum =
      select_by i.config.neighbor_selection i candidates (min maximum (length candidates))
