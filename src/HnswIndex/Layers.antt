-- ===== src/HnswIndex/Layers.antt =====
-- The two searches of one layer of src/hnsw_index.cpp. Their fuel is the number of nodes: the code
-- moves to better nodes, and marks what it has visited.
use fast_vector.Prelude.{
  ℕ, zero, suc, ◌+◌, Bool, true, false, not, ◌&&◌, ◌||◌, List, [], ◌∷◌, ◌++◌, none, some, length,
  leb, ltb, get_or, ◌==◌, if◌then◌else◌, Result, ok, err, ◌>>=◌, out_of_fuel,
}
use fast_vector.SearchContext.{SearchContext, World, Budget, check_now, checkpoint}
use fast_vector.Ranking.{push_by, top?, pop, sort_by}
use fast_vector.HnswIndex.{Platform, HnswIndex, Candidate, links, is_better, similarity, empty_node}

module _ (platform : Platform) (ctx : SearchContext) (world : World) where
  -- The scan of the neighbours of a node, with the better node so far and whether it moved.
  unfoldable pub greedy_scan :
      HnswIndex platform
      → List ℕ
      → List ℕ
      → Candidate
      → Bool
      → Budget
      → Result (Candidate × (Bool × Budget))
  greedy_scan i query [] best improved b = ok (best, (improved, b))
  greedy_scan i query (neighbor ∷ rest) best improved b = do
    b' ← checkpoint ctx world b
    let candidate : Candidate = record {
      node = neighbor;
      score = similarity platform i query neighbor;
    }
    let better = is_better platform i candidate best
    greedy_scan i query rest (if better then candidate else best)
        (if better then true else improved) b'

  -- The `while (improved)` loop.
  unfoldable pub greedy_rounds :
      ℕ → HnswIndex platform → List ℕ → ℕ → Candidate → Budget → Result (ℕ × Budget)
  unfolding greedy_scan
  greedy_rounds zero i query level best b = err out_of_fuel
  greedy_rounds (suc fuel) i query level best b = do
    (best', (improved, b')) ← greedy_scan i query (links platform i best.node level) best false b
    elim improved [ false ↦ ok (best'.node, b') | true ↦ greedy_rounds fuel i query level best' b' ]

  unfoldable pub greedy_search_layer :
      HnswIndex platform → List ℕ → ℕ → ℕ → Budget → Result (ℕ × Budget)
  unfolding greedy_rounds
  greedy_search_layer i query entry level b =
      greedy_rounds (length i.graph + 1) i query level
        (record { node = entry; score = similarity platform i query entry })
        (record b { remaining = 0 })

  -- The two queues, best first and worst first, and the visited nodes.
  pub record Frontier : Type 0 where
    pub pending : List Candidate
    pub best : List Candidate
    pub visited : ℕ → Bool

  abbrev pub worse_first : HnswIndex platform → Candidate → Candidate → Bool
  worse_first i lhs rhs = is_better platform i rhs lhs

  -- `best.size() < ef || is_better(candidate, best.top())`
  abbrev pub admits : HnswIndex platform → ℕ → Candidate → List Candidate → Bool
  admits i ef candidate best =
      ltb (length best) ef
      || elim (top? best) [ none ↦ false | some worst ↦ is_better platform i candidate worst ]

  -- A tombstone routes, and takes no place among the results of a live search.
  unfoldable pub offer_best :
      HnswIndex platform → ℕ → Bool → Candidate → List Candidate → List Candidate
  unfolding push_by
  offer_best i ef live_only candidate best =
      let kept = push_by (is_better platform i) candidate best in
      if not live_only || not (get_or i.graph candidate.node empty_node).deleted
      then (if ltb ef (length kept) then pop kept else kept)
      else best

  -- One neighbour that was not visited.
  unfoldable pub meet : HnswIndex platform → List ℕ → ℕ → Bool → ℕ → Frontier → Frontier
  unfolding offer_best
  meet i query ef live_only neighbor f =
      let candidate : Candidate = record {
        node = neighbor;
        score = similarity platform i query neighbor;
      } in
      let seen = record f { visited = λ j. if j == neighbor then true else f.visited j } in
      if admits i ef candidate f.best
      then record seen {
        pending = push_by (worse_first i) candidate f.pending;
        best = offer_best i ef live_only candidate f.best;
      }
      else seen

  unfoldable pub expand :
      HnswIndex platform
      → List ℕ
      → ℕ
      → Bool
      → List ℕ
      → Frontier
      → Budget
      → Result (Frontier × Budget)
  unfolding meet
  expand i query ef live_only [] f b = ok (f, b)
  expand i query ef live_only (neighbor ∷ rest) f b = do
    b' ← checkpoint ctx world b
    expand i query ef live_only rest
        (if f.visited neighbor then f else meet i query ef live_only neighbor f) b'

  -- `best.size() >= ef && is_better(best.top(), current)`
  abbrev pub finished : HnswIndex platform → ℕ → Candidate → List Candidate → Bool
  finished i ef current best =
      leb ef (length best)
      && elim (top? best) [ none ↦ false | some worst ↦ is_better platform i worst current ]

  -- The `while (!pending.empty())` loop, with the first of the queue taken apart.
  unfoldable pub explore :
      ℕ
      → HnswIndex platform
      → List ℕ
      → ℕ
      → ℕ
      → Bool
      → List Candidate
      → Frontier
      → Budget
      → Result (List Candidate × Budget)
  unfolding expand
  explore fuel i query ef level live_only [] f b = ok (f.best, b)
  explore zero i query ef level live_only (current ∷ rest) f b = err out_of_fuel
  explore (suc fuel) i query ef level live_only (current ∷ rest) f b = do
    b' ← checkpoint ctx world b
    elim (finished i ef current f.best) [
      | true ↦ ok (f.best, b')
      | false ↦ do
        (f', b'') ←
            expand i query ef live_only (links platform i current.node level)
              (record f { pending = rest }) b'
        explore fuel i query ef level live_only f'.pending f' b''
    ]

  -- The queue is emptied, one checkpoint an element.
  unfoldable pub collect :
      List Candidate → List Candidate → Budget → Result (List Candidate × Budget)
  collect [] result b = ok (result, b)
  collect (worst ∷ best) result b = do
    b' ← checkpoint ctx world b
    collect best (result ++ worst ∷ []) b'

  -- What the queues hold at the start.
  abbrev pub initial_frontier : HnswIndex platform → Bool → Candidate → Frontier
  initial_frontier i live_only initial = record {
    pending = initial ∷ [];
    best =
        if not live_only || not (get_or i.graph initial.node empty_node).deleted
        then initial ∷ []
        else [];
    visited = λ j. j == initial.node;
  }

  unfoldable pub search_layer :
      HnswIndex platform → List ℕ → ℕ → ℕ → ℕ → Bool → Budget → Result (List Candidate × Budget)
  unfolding explore collect sort_by
  search_layer i query entry ef level live_only b = do
    b₁ ← check_now ctx world b
    let initial : Candidate = record { node = entry; score = similarity platform i query entry }
    (best, b₂) ←
        explore (length i.graph) i query ef level live_only (initial ∷ [])
          (initial_frontier i live_only initial) (record b₁ { remaining = 0 })
    (result, b₃) ← collect best [] b₂
    ok (sort_by (is_better platform i) result, b₃)
