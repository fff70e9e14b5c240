-- ===== src/HnswIndex/Found.antt =====
-- The nodes that the searches of a layer and the selection of src/hnsw_index.cpp find.
use fast_vector.Prelude.{
  ℕ, zero, suc, ◌<◌, ◌≡◌, Bool, not, ◌&&◌, ◌||◌, List, [], ◌∷◌, ◌++◌, length, ltb, min, take, ◌==◌,
  get_or, ok, >>=-eq-ok, All, All-append, All-map, All-take, inl, inr, Bool-cases, if_elim,
}
use fast_vector.SearchContext.{SearchContext, World, Budget, check_now, checkpoint}
use fast_vector.Ranking.{push_by, pop, sort_by}
use fast_vector.Ranking.Order.{All-insert_by, All-sort_by}
use fast_vector.HnswIndex.{
  Platform, HnswIndex, Candidate, links, similarity, is_better, empty_node, HnswNeighborSelection,
  simple, heuristic,
}
use fast_vector.HnswIndex.Layers.{
  Frontier, meet, offer_best, expand, explore, finished, admits, initial_frontier, search_layer,
  collect, worse_first,
}
use fast_vector.HnswIndex.Neighbors.{is_diverse, diversify, fill, select_by, select_neighbors}
use fast_vector.HnswIndex.Explored.{LinksInside}

All-pop : {A : Type 0} (P : A → Type 0) (xs : List A) → All P xs → All P (pop xs)
All-pop P [] h = tt
All-pop P (x ∷ xs) h = h.1

All-push_by :
    {A : Type 0} (less : A → A → Bool) (P : A → Type 0) (x : A) (xs : List A)
    → P x
    → All P xs
    → All P (push_by less x xs)
unfolding push_by
All-push_by less P x xs h k = All-insert_by (λ a b. less b a) P x xs h k

-- What holds of the candidates' nodes holds of the selected ones.
module _ (platform : Platform) (i : HnswIndex platform) (Q : ℕ → Type 0) where
  diversify-All :
      (count : ℕ) (cs : List Candidate) (selected pruned : List ℕ)
      → All (λ c. Q c.node) cs
      → All Q selected
      → All Q pruned
      → All Q (diversify platform i count cs selected pruned).0
        × All Q (diversify platform i count cs selected pruned).1
  unfolding diversify
  diversify-All count [] selected pruned a s p = (s, p)
  diversify-All count (c ∷ cs) selected pruned a s p =
      elim (Bool-cases (is_diverse platform i c selected && ltb (length selected) count)) [
        | inl keep ↦
            rw (keep, diversify)
              (diversify-All count cs (selected ++ c.node ∷ []) pruned a.1
                (All-append Q selected (c.node ∷ []) s (a.0, tt)) p)
        | inr drop ↦
            rw (drop, diversify)
              (diversify-All count cs selected (pruned ++ c.node ∷ []) a.1 s
                (All-append Q pruned (c.node ∷ []) p (a.0, tt)))
      ]

  fill-All :
      (count : ℕ) (selected ps : List ℕ)
      → All Q selected
      → All Q ps
      → All Q (fill platform count selected ps)
  unfolding fill
  fill-All count selected [] s a = s
  fill-All count selected (p ∷ ps) s a =
      if_elim (All Q) (length selected == count) _ _ (λ e. s)
        (λ e.
          fill-All count (selected ++ p ∷ []) ps (All-append Q selected (p ∷ []) s (a.0, tt)) a.1)

  select_by-All :
      (strategy : HnswNeighborSelection) (cs : List Candidate) (count : ℕ)
      → All (λ c. Q c.node) cs
      → All Q (select_by platform strategy i cs count)
  unfolding select_by
  select_by-All simple cs count a = All-map Q (λ c. c.node) (take count cs) (All-take _ count cs a)
  select_by-All heuristic cs count a =
      let (s, p) = diversify-All count cs [] [] a tt tt in fill-All count _ _ s p

  pub select_neighbors-All :
      (cs : List Candidate) (maximum : ℕ)
      → All (λ c. Q c.node) cs
      → All Q (select_neighbors platform i cs maximum)
  unfolding select_neighbors
  select_neighbors-All cs maximum a =
      select_by-All i.config.neighbor_selection cs (min maximum (length cs)) a

module _ (platform : Platform) (ctx : SearchContext) (world : World) where
  module _ (i : HnswIndex platform) (query : List ℕ) where
    abbrev IsInside : Candidate → Type 0
    IsInside c = c.node < length i.graph

    -- Both queues hold nodes of the graph.
    abbrev BothInside : Frontier platform ctx world → Type 0
    BothInside f = All IsInside f.pending × All IsInside f.best

    offer_best-All :
        (ef : ℕ) (live_only : Bool) (candidate : Candidate) (best : List Candidate)
        → IsInside candidate
        → All IsInside best
        → All IsInside (offer_best platform ctx world i ef live_only candidate best)
    unfolding offer_best
    offer_best-All ef live_only candidate best c a =
        let kept = push_by (is_better platform i) candidate best in
        let k : All IsInside kept =
          All-push_by (is_better platform i) IsInside candidate best c a in
        if_elim (All IsInside)
          (not live_only || not (get_or i.graph candidate.node empty_node).deleted) _ best
          (λ e.
            if_elim (All IsInside) (ltb ef (length kept)) (pop kept) kept
              (λ f. All-pop IsInside kept k) (λ f. k))
          (λ e. a)

    meet-BothInside :
        (ef : ℕ) (live_only : Bool) (neighbor : ℕ) (f : Frontier platform ctx world)
        → neighbor < length i.graph
        → BothInside f
        → BothInside (meet platform ctx world i query ef live_only neighbor f)
    unfolding meet
    meet-BothInside ef live_only neighbor f l v =
        let candidate : Candidate = record {
          node = neighbor;
          score = similarity platform i query neighbor;
        } in
        if_elim BothInside (admits platform ctx world i ef candidate f.best) _ _
          (λ e. (
            All-push_by (worse_first platform ctx world i) IsInside candidate f.pending l v.0,
            offer_best-All ef live_only candidate f.best l v.1,
          ))
          (λ e. v)

    expand-BothInside :
        (ef : ℕ) (live_only : Bool) (ns : List ℕ) (f : Frontier platform ctx world) (b : Budget)
        {f' : Frontier platform ctx world} {b' : Budget}
        → All (λ k. k < length i.graph) ns
        → BothInside f
        → expand platform ctx world i query ef live_only ns f b ≡ ok (f', b')
        → BothInside f'
    unfolding expand
    expand-BothInside ef live_only [] f b {f'} a v h = let e : f ≡ f' = cc in rw (← e) v
    expand-BothInside ef live_only (neighbor ∷ rest) f b a v h =
        let (b₁, e, k) = >>=-eq-ok (checkpoint ctx world b) _ h in
        expand-BothInside ef live_only rest _ b₁ a.1
          (if_elim BothInside (f.visited neighbor) f _ (λ s. v)
            (λ s. meet-BothInside ef live_only neighbor f a.0 v))
          k

    explore-All :
        (fuel ef level : ℕ) (live_only : Bool) (pending : List Candidate)
        (f : Frontier platform ctx world) (b : Budget) {best : List Candidate} {b' : Budget}
        → LinksInside platform ctx world i
        → All IsInside pending
        → All IsInside f.best
        → explore platform ctx world fuel i query ef level live_only pending f b ≡ ok (best, b')
        → All IsInside best
    unfolding explore
    explore-All fuel ef level live_only [] f b {best} inside p a h =
        let e : f.best ≡ best = cc in rw (← e) a
    explore-All zero ef level live_only (current ∷ rest) f b inside p a h = cc
    explore-All (suc fuel) ef level live_only (current ∷ rest) f b {best} inside p a h =
        let (b₁, e, k) = >>=-eq-ok (checkpoint ctx world b) _ h in
        elim (Bool-cases (finished platform ctx world i ef current f.best)) [
          | inl g ↦ let done = rw g at k in let same : f.best ≡ best = cc in rw (← same) a
          | inr g ↦
              let more = rw g at k in
              let ns = links platform i current.node level in
              let waiting = record f { pending = rest } in
              let (out, expanded, others) =
                >>=-eq-ok (expand platform ctx world i query ef live_only ns waiting b₁) _ more in
              let v =
                expand-BothInside ef live_only ns waiting b₁ (inside current.node level) (p.1, a)
                  expanded in
              explore-All fuel ef level live_only out.0.pending out.0 out.1 inside v.0 v.1 others
        ]

    collect-All :
        (best result : List Candidate) (b : Budget) {all : List Candidate} {b' : Budget}
        → All IsInside best
        → All IsInside result
        → collect platform ctx world best result b ≡ ok (all, b')
        → All IsInside all
    unfolding collect
    collect-All [] result b {all} a r h = let e : result ≡ all = cc in rw (← e) r
    collect-All (worst ∷ best) result b a r h =
        let (b₁, e, k) = >>=-eq-ok (checkpoint ctx world b) _ h in
        collect-All best (result ++ worst ∷ []) b₁ a.1
          (All-append IsInside result (worst ∷ []) r (a.0, tt)) k

    pub search_layer-All :
        (entry ef level : ℕ) (live_only : Bool) (b : Budget) {cs : List Candidate} {b' : Budget}
        → LinksInside platform ctx world i
        → entry < length i.graph
        → search_layer platform ctx world i query entry ef level live_only b ≡ ok (cs, b')
        → All (λ c. c.node < length i.graph) cs
    unfolding search_layer
    search_layer-All entry ef level live_only b {cs} inside l h =
        let initial : Candidate = record {
          node = entry;
          score = similarity platform i query entry;
        } in
        let f = initial_frontier platform ctx world i live_only initial in
        let first : All IsInside f.best =
          if_elim (All IsInside)
            (not live_only || not (get_or i.graph initial.node empty_node).deleted) _ _
            (λ e. (l, tt)) (λ e. tt) in
        let (b₁, e, k) = >>=-eq-ok (check_now ctx world b) _ h in
        let (out, explored, k₂) =
          >>=-eq-ok
            (explore platform ctx world (length i.graph) i query ef level live_only (initial ∷ []) f
              (record b₁ { remaining = 0 }))
            _ k in
        let a =
          explore-All (length i.graph) ef level live_only (initial ∷ []) f _ inside (l, tt) first
            explored in
        let (result, collected, k₃) = >>=-eq-ok (collect platform ctx world out.0 [] out.1) _ k₂ in
        let s =
          All-sort_by (is_better platform i) IsInside result.0 (collect-All _ _ _ a tt collected) in
        let same : sort_by (is_better platform i) result.0 ≡ cs = cc in rw (← same) s
