-- ===== src/HnswIndex/Explored.antt =====
-- The loops of search_layer (src/hnsw_index.cpp). Their measure is what is waiting and what was not
-- visited: each round takes one of the waiting.
use fast_vector.Prelude.{
  ℕ, zero, suc, ◌+◌, ◌≤◌, ◌<◌, ◌≡◌, refl, ap, Bool, true, false, not, ◌&&◌, leb, List, [], ◌∷◌,
  ◌++◌, length, ◌==◌, if◌then◌else◌, ok, >>=-eq-ok, All, arith, inl, inr, Bool-cases, Ends,
  >>=-Ends, throw_if-Ends, throw_if, count_below, count_below-le, count_below-lt, interrupted,
  deadline_exceeded,
}
use fast_vector.SearchContext.{
  SearchContext, World, Budget, check, check_now, checkpoint, enabled, has_deadline, is_stop,
}
use fast_vector.Ranking.{push_by}
use fast_vector.Ranking.Order.{length-insert_by}
use fast_vector.HnswIndex.{Platform, HnswIndex, Candidate, links, similarity}
use fast_vector.HnswIndex.Layers.{
  Frontier, meet, expand, explore, finished, admits, initial_frontier, search_layer, collect,
}

pub check_now-Ends : (c : SearchContext) (w : World) (b : Budget) → Ends (check_now c w b)
unfolding check_now check
check_now-Ends c w b =
    let stopped = c.has_cancellation && is_stop (w b.checks).reason in
    let late = has_deadline c && leb c.deadline (w b.checks).now in
    let reason = (w b.checks).reason in
    >>=-Ends (check c (w b.checks)) _
      (>>=-Ends (throw_if stopped (interrupted reason))
        (λ u. throw_if late (interrupted deadline_exceeded))
        (throw_if-Ends stopped (interrupted reason) (λ e. cc))
        (λ u h. throw_if-Ends late (interrupted deadline_exceeded) (λ e. cc)))
      (λ u h p. cc)

pub checkpoint-Ends : (c : SearchContext) (w : World) (b : Budget) → Ends (checkpoint c w b)
unfolding checkpoint
checkpoint-Ends c w b = elim (Bool-cases (not (enabled c))) [
  | inl e ↦ rw e (λ p. cc)
  | inr e ↦ rw e (elim (Bool-cases (b.remaining == 0)) [
    | inl z ↦ rw z (>>=-Ends (check_now c w b) _ (check_now-Ends c w b) (λ b' h p. cc))
    | inr z ↦ rw z (λ p. cc)
  ])
]

module _ (platform : Platform) (ctx : SearchContext) (world : World) where
  module _ (i : HnswIndex platform) (query : List ℕ) (n : ℕ) where
    -- What is waiting, and the nodes that were not visited.
    abbrev work : Frontier platform ctx world → ℕ
    work f = length f.pending + count_below (λ j. not (f.visited j)) n

    meet-work :
        (ef : ℕ) (live_only : Bool) (neighbor : ℕ) (f : Frontier platform ctx world)
        → neighbor < n
        → f.visited neighbor ≡ false
        → work (meet platform ctx world i query ef live_only neighbor f) ≤ work f
    unfolding meet push_by
    meet-work ef live_only neighbor f l v =
        let candidate : Candidate = record {
          node = neighbor;
          score = similarity platform i query neighbor;
        } in
        let fewer =
          count_below-lt (λ j. not (f.visited j))
            (λ j. not (if j == neighbor then true else f.visited j)) n neighbor
            (λ k h. elim (Bool-cases (k == neighbor)) [
              | inl e ↦ absurd (ground (arith, h, e))
              | inr e ↦ ground (arith, h, e)
            ])
            l (ap not v) (ground arith) in
        elim (Bool-cases (admits platform ctx world i ef candidate f.best)) [
          | inl e ↦ rw e (omega (arith, fewer, length-insert_by _ candidate f.pending))
          | inr e ↦ rw e (omega (arith, fewer))
        ]

    expand-work :
        (ef : ℕ) (live_only : Bool) (ns : List ℕ) (f : Frontier platform ctx world) (b : Budget)
        {f' : Frontier platform ctx world} {b' : Budget}
        → All (λ k. k < n) ns
        → expand platform ctx world i query ef live_only ns f b ≡ ok (f', b')
        → work f' ≤ work f
    unfolding expand
    expand-work ef live_only [] f b {f'} a h = let e : f ≡ f' = cc in rw (← e) (omega arith)
    expand-work ef live_only (neighbor ∷ rest) f b {f'} a h =
        let (b₁, e, k) = >>=-eq-ok (checkpoint ctx world b) _ h in
        elim (Bool-cases (f.visited neighbor)) [
          | inl v ↦ expand-work ef live_only rest f b₁ a.1 (rw v at k)
          | inr v ↦ omega (
            arith,
            expand-work ef live_only rest (meet platform ctx world i query ef live_only neighbor f)
                b₁ a.1 (rw v at k),
            meet-work ef live_only neighbor f a.0 v,
          )
        ]

  expand-Ends :
      (i : HnswIndex platform) (query : List ℕ) (ef : ℕ) (live_only : Bool) (ns : List ℕ)
      (f : Frontier platform ctx world) (b : Budget)
      → Ends (expand platform ctx world i query ef live_only ns f b)
  unfolding expand
  expand-Ends i query ef live_only [] f b = λ p. cc
  expand-Ends i query ef live_only (neighbor ∷ rest) f b =
      >>=-Ends (checkpoint ctx world b) _ (checkpoint-Ends ctx world b)
        (λ b₁ e. expand-Ends i query ef live_only rest _ b₁)

  collect-Ends :
      (best result : List Candidate) (b : Budget) → Ends (collect platform ctx world best result b)
  unfolding collect
  collect-Ends [] result b = λ p. cc
  collect-Ends (worst ∷ best) result b =
      >>=-Ends (checkpoint ctx world b) _ (checkpoint-Ends ctx world b)
        (λ b₁ e. collect-Ends best (result ++ worst ∷ []) b₁)

  -- Every neighbour is a node.
  abbrev pub LinksInside : HnswIndex platform → Type 0
  LinksInside i = (node level : ℕ) → All (λ k. k < length i.graph) (links platform i node level)

  explore-Ends :
      (fuel : ℕ) (i : HnswIndex platform) (query : List ℕ) (ef level : ℕ) (live_only : Bool)
      (pending : List Candidate) (f : Frontier platform ctx world) (b : Budget)
      → LinksInside i
      → length pending + count_below (λ j. not (f.visited j)) (length i.graph) ≤ fuel
      → Ends (explore platform ctx world fuel i query ef level live_only pending f b)
  unfolding explore
  explore-Ends fuel i query ef level live_only [] f b inside l = λ p. cc
  explore-Ends zero i query ef level live_only (current ∷ rest) f b inside l = absurd (omega arith)
  explore-Ends (suc fuel) i query ef level live_only (current ∷ rest) f b inside l =
      >>=-Ends (checkpoint ctx world b) _ (checkpoint-Ends ctx world b) (λ b₁ e.
        elim (Bool-cases (finished platform ctx world i ef current f.best)) [
          | inl g ↦ rw g (λ p. cc)
          | inr g ↦ rw g (
              let ns = links platform i current.node level in
              let waiting = record f { pending = rest } in
              >>=-Ends (expand platform ctx world i query ef live_only ns waiting b₁) _
                (expand-Ends i query ef live_only ns waiting b₁)
                (λ r h. explore-Ends fuel i query ef level live_only r.0.pending r.0 r.1 inside (
                  omega (
                    arith,
                    l,
                    expand-work i query (length i.graph) ef live_only ns waiting b₁
                        (inside current.node level) h,
                  ))))
        ])

  pub search_layer-Ends :
      (i : HnswIndex platform) (query : List ℕ) (entry ef level : ℕ) (live_only : Bool) (b : Budget)
      → LinksInside i
      → entry < length i.graph
      → Ends (search_layer platform ctx world i query entry ef level live_only b)
  unfolding search_layer
  search_layer-Ends i query entry ef level live_only b inside l =
      let initial : Candidate = record {
        node = entry;
        score = similarity platform i query entry;
      } in
      let f = initial_frontier platform ctx world i live_only initial in
      let n = length i.graph in
      let fits : 1 + count_below (λ j. not (f.visited j)) n ≤ n = omega (
        arith,
        count_below-lt (λ j. true) (λ j. not (j == entry)) n entry (λ k h. refl) l refl
            (ground arith),
        count_below-le (λ j. true) n,
      ) in
      >>=-Ends (check_now ctx world b) _ (check_now-Ends ctx world b) (λ b₁ e.
        >>=-Ends (explore platform ctx world n i query ef level live_only (initial ∷ []) f _) _
          (explore-Ends n i query ef level live_only (initial ∷ []) f _ inside fits)
          (λ r h.
            >>=-Ends (collect platform ctx world r.0 [] r.1) _ (collect-Ends r.0 [] r.1)
              (λ s k p. cc)))
