-- ===== src/HnswIndex/Descended.antt =====
-- The loops of greedy_search_layer (src/hnsw_index.cpp). Their measure is the number of nodes that
-- are better than the best.
use fast_vector.Prelude.{
  ℕ, zero, suc, ◌+◌, ◌<◌, ◌≡◌, refl, sym, ap, ◌∙◌, Bool, true, false, List, [], ◌∷◌, length, ok,
  >>=-eq-ok, All, arith, inl, inr, Bool-cases, Ends, >>=-Ends, count_below, count_below-le,
  count_below-lt,
}
use fast_vector.Float.{float_gt, float_eq}
use fast_vector.SearchContext.{SearchContext, World, Budget, checkpoint}
use fast_vector.HnswIndex.{Platform, HnswIndex, Candidate, links, similarity, is_better}
use fast_vector.HnswIndex.Layers.{greedy_scan, greedy_rounds, greedy_search_layer}
use fast_vector.HnswIndex.Explored.{checkpoint-Ends, LinksInside}

module _ (platform : Platform) (i : HnswIndex platform) where
  -- The order of candidates is strict, scores that are no numbers included.
  is_better_irrefl : (a : Candidate) → is_better platform i a a ≡ false
  unfolding is_better float_gt float_eq
  is_better_irrefl a = ground arith

  is_better_trans :
      (a b c : Candidate)
      → is_better platform i a b ≡ true
      → is_better platform i b c ≡ true
      → is_better platform i a c ≡ true
  unfolding is_better float_gt float_eq
  is_better_trans a b c h k = ground (arith, h, k)

  module _ (query : List ℕ) where
    abbrev reached : ℕ → Candidate
    reached node = record { node = node; score = similarity platform i query node }

    -- A candidate of a node of the graph.
    abbrev IsReached : Candidate → Type 0
    IsReached c = (c ≡ reached c.node) × (c.node < length i.graph)

    module _ (ctx : SearchContext) (world : World) where
      greedy_scan-Ends :
          (ns : List ℕ) (best : Candidate) (improved : Bool) (b : Budget)
          → Ends (greedy_scan platform ctx world i query ns best improved b)
      unfolding greedy_scan
      greedy_scan-Ends [] best improved b = λ p. cc
      greedy_scan-Ends (neighbor ∷ rest) best improved b =
          >>=-Ends (checkpoint ctx world b) _ (checkpoint-Ends ctx world b)
            (λ b₁ e. greedy_scan-Ends rest _ _ b₁)

      -- What a scan that began with `start` has found so far.
      record IsScanned (start best : Candidate) (improved : Bool) : Type 0 where
        reach : IsReached best
        better : improved ≡ true → is_better platform i best start ≡ true
        same : improved ≡ false → best ≡ start

      next-IsScanned :
          (start best : Candidate) (improved : Bool) (neighbor : ℕ)
          → neighbor < length i.graph
          → IsScanned start best improved
          → is_better platform i (reached neighbor) best ≡ true
          → IsScanned start (reached neighbor) true
      next-IsScanned start best improved neighbor l s h = record {
        reach = (refl, l);
        better = λ e. elim (Bool-cases improved) [
          | inl t ↦ is_better_trans (reached neighbor) best start h (s.better t)
          | inr f ↦ rw (← s.same f) h
        ];
        same = λ e. cc;
      }

      greedy_scan-eq-ok :
          (start : Candidate) (ns : List ℕ) (best : Candidate) (improved : Bool) (b : Budget)
          {best' : Candidate} {improved' : Bool} {b' : Budget}
          → All (λ k. k < length i.graph) ns
          → IsScanned start best improved
          → greedy_scan platform ctx world i query ns best improved b ≡ ok (best', (improved', b'))
          → IsScanned start best' improved'
      unfolding greedy_scan
      greedy_scan-eq-ok start [] best improved b {best'} {improved'} a s h =
          let e : best ≡ best' = cc in let f : improved ≡ improved' = cc in rw (← e, ← f) s
      greedy_scan-eq-ok start (neighbor ∷ rest) best improved b a s h =
          let (b₁, e, k) = >>=-eq-ok (checkpoint ctx world b) _ h in
          elim (Bool-cases (is_better platform i (reached neighbor) best)) [
            | inl g ↦
                greedy_scan-eq-ok start rest (reached neighbor) true b₁ a.1
                  (next-IsScanned start best improved neighbor a.0 s g) (rw g at k)
            | inr g ↦ greedy_scan-eq-ok start rest best improved b₁ a.1 s (rw g at k)
          ]

      started : (best : Candidate) → IsReached best → IsScanned best best false
      started best r = record { reach = r; better = λ e. cc; same = λ e. refl }

      -- The nodes that are better than the best.
      abbrev ahead : Candidate → ℕ
      ahead best = count_below (λ k. is_better platform i (reached k) best) (length i.graph)

      ahead-lt :
          (best best' : Candidate)
          → IsReached best'
          → is_better platform i best' best ≡ true
          → ahead best' < ahead best
      ahead-lt best best' r h =
          count_below-lt (λ k. is_better platform i (reached k) best)
            (λ k. is_better platform i (reached k) best') (length i.graph) best'.node
            (λ k g. is_better_trans (reached k) best' best g h) r.1
            (ap (λ c. is_better platform i c best) (sym r.0) ∙ h)
            (ap (λ c. is_better platform i c best') (sym r.0) ∙ is_better_irrefl best')

      greedy_rounds-Ends :
          (fuel level : ℕ) (best : Candidate) (b : Budget)
          → LinksInside platform ctx world i
          → IsReached best
          → ahead best < fuel
          → Ends (greedy_rounds platform ctx world fuel i query level best b)
      unfolding greedy_rounds
      greedy_rounds-Ends zero level best b inside r l = absurd (omega arith)
      greedy_rounds-Ends (suc fuel) level best b inside r l =
          let ns = links platform i best.node level in
          >>=-Ends (greedy_scan platform ctx world i query ns best false b) _
            (greedy_scan-Ends ns best false b)
            (λ out h.
              let s =
                greedy_scan-eq-ok best ns best false b (inside best.node level) (started best r)
                  h in
              elim (Bool-cases out.1.0) [
                | inl t ↦ rw t (
                    greedy_rounds-Ends fuel level out.0 out.1.1 inside s.reach
                      (omega (arith, l, ahead-lt best out.0 s.reach (s.better t))))
                | inr f ↦ rw f (λ p. cc)
              ])

      greedy_rounds-inside :
          (fuel level : ℕ) (best : Candidate) (b : Budget) {next : ℕ} {b' : Budget}
          → LinksInside platform ctx world i
          → IsReached best
          → greedy_rounds platform ctx world fuel i query level best b ≡ ok (next, b')
          → next < length i.graph
      unfolding greedy_rounds
      greedy_rounds-inside zero level best b inside r h = cc
      greedy_rounds-inside (suc fuel) level best b {next} inside r h =
          let ns = links platform i best.node level in
          let (out, scanned, rest) =
            >>=-eq-ok (greedy_scan platform ctx world i query ns best false b) _ h in
          let s =
            greedy_scan-eq-ok best ns best false b (inside best.node level) (started best r)
              scanned in
          elim (Bool-cases out.1.0) [
            | inl t ↦ greedy_rounds-inside fuel level out.0 out.1.1 inside s.reach (rw t at rest)
            | inr f ↦
                let e = rw f at rest in let same : out.0.node ≡ next = cc in rw (← same) s.reach.1
          ]

      pub greedy_search_layer-Ends :
          (entry level : ℕ) (b : Budget)
          → LinksInside platform ctx world i
          → entry < length i.graph
          → Ends (greedy_search_layer platform ctx world i query entry level b)
      unfolding greedy_search_layer
      greedy_search_layer-Ends entry level b inside l =
          greedy_rounds-Ends (length i.graph + 1) level (reached entry) _ inside (refl, l)
            (omega (
              arith,
              count_below-le (λ k. is_better platform i (reached k) (reached entry))
                  (length i.graph),
            ))

      pub greedy_search_layer-inside :
          (entry level : ℕ) (b : Budget) {next : ℕ} {b' : Budget}
          → LinksInside platform ctx world i
          → entry < length i.graph
          → greedy_search_layer platform ctx world i query entry level b ≡ ok (next, b')
          → next < length i.graph
      unfolding greedy_search_layer
      greedy_search_layer-inside entry level b inside l h =
          greedy_rounds-inside (length i.graph + 1) level (reached entry) _ inside (refl, l) h
