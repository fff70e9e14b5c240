-- ===== src/HnswIndex/Wired.antt =====
-- The lists of neighbours in the linking and pruning of src/hnsw_index.cpp.
use fast_vector.Prelude.{
  ℕ, zero, suc, ◌+◌, ◌<◌, ◌≡◌, ◌∙◌, refl, sym, ◌||◌, List, [], ◌∷◌, Option, length, leb, ◌==◌, ok,
  err, get_or, set, All, All-append, All-set, All-get_or, All-map, length-set, Ends, inl, inr,
  if_elim,
}
use mathlib.Core.Path.{subst}
use fast_vector.Ranking.Order.{All-sort_by}
use fast_vector.HnswIndex.{
  Platform, HnswIndex, Node, empty_node, links, set_links, is_better, maximum_connections,
}
use fast_vector.HnswIndex.Insertion.{
  Work, Attempt, and_then, allocate, has_backup, remember, contains, without, unlink_dropped,
  prune_neighbors, link_back, link_levels, ranked_neighbors,
}
use fast_vector.HnswIndex.Rollback.{allocate-cases}
use fast_vector.HnswIndex.Found.{select_neighbors-All}

-- The lists of a node hold numbers below `n`.
abbrev pub Inside : ℕ → Node → Type 0
Inside n node = All (All (λ k. k < n)) node.levels

module _ (platform : Platform) where
  -- A graph of `n` nodes that point at each other, with its entry.
  pub record IsWired (n entry : ℕ) (g : HnswIndex platform) : Type 0 where
    pub graph : length g.graph ≡ n
    pub ids : length g.ids ≡ n
    pub lists : All (Inside n) g.graph
    pub at_entry : g.entry_point ≡ entry

  pub links-All :
      (n node level : ℕ) (g : HnswIndex platform)
      → All (Inside n) g.graph
      → All (λ k. k < n) (links platform g node level)
  unfolding links
  links-All n node level g a =
      All-get_or (All (λ k. k < n)) (get_levels node) level []
        (All-get_or (Inside n) g.graph node empty_node a tt) tt
    where
      get_levels : ℕ → List (List ℕ)
      get_levels node = (get_or g.graph node empty_node).levels

  set_links-IsWired :
      (n entry node level : ℕ) (xs : List ℕ) (g : HnswIndex platform)
      → IsWired n entry g
      → All (λ k. k < n) xs
      → IsWired n entry (set_links platform g node level xs)
  unfolding set_links
  set_links-IsWired n entry node level xs g v a =
      let old = get_or g.graph node empty_node in
      let kept : Inside n old = All-get_or (Inside n) g.graph node empty_node v.lists tt in
      record {
        graph = length-set g.graph node _ ∙ v.graph;
        ids = v.ids;
        lists =
            All-set (Inside n) g.graph node (record old { levels = set old.levels level xs })
              v.lists (All-set (All (λ k. k < n)) old.levels level xs kept a);
        at_entry = v.at_entry;
      }

  -- A step that ends in a state with P, or with an error that is not of the model's own.
  abbrev pub Leaves : (Work platform → Type 0) → Attempt platform → Type 0
  Leaves P a = (a.1 ≡ ok tt → P a.0) × Ends a.1

  pub done-Leaves : (P : Work platform → Type 0) (w : Work platform) → P w → Leaves P (w, ok tt)
  done-Leaves P w p = (λ h. p, λ e. cc)

  pub then-Leaves :
      (P Q : Work platform → Type 0) (a : Attempt platform)
      (next : Work platform → Attempt platform)
      → Leaves P a
      → ((w : Work platform) → P w → Leaves Q (next w))
      → Leaves Q (and_then platform a next)
  then-Leaves P Q (w, ok u) next p q = q w (p.0 refl)
  then-Leaves P Q (w, err e) next p q = (λ h. cc, λ h. p.1 h)

  pub allocate-Leaves :
      (P : Work platform → Type 0) (w : Work platform) (i : HnswIndex platform)
      → ((left : Option ℕ) → P (record w { allocations = left }))
      → Leaves P (allocate platform w)
  allocate-Leaves P w i p = elim (allocate-cases platform i w) [
    | inl e ↦ subst (Leaves P) (sym e) (λ h. cc, λ h. cc)
    | inr (left, e) ↦ subst (Leaves P) (sym e) (λ h. p left, λ h. cc)
  ]

  without-All :
      (Q : ℕ → Type 0) (node : ℕ) (ns : List ℕ) → All Q ns → All Q (without platform node ns)
  unfolding without
  without-All Q node [] a = tt
  without-All Q node (n ∷ ns) a =
      if_elim (All Q) (n == node) _ _ (λ e. without-All Q node ns a.1)
        (λ e. (a.0, without-All Q node ns a.1))

  module _ (n entry : ℕ) where
    abbrev pub Wired : Work platform → Type 0
    Wired w = IsWired n entry w.index

    pub allocate-Wired : (w : Work platform) → Wired w → Leaves Wired (allocate platform w)
    allocate-Wired w v = allocate-Leaves Wired w w.index (λ left. v)

    remember-Wired :
        (node level : ℕ) (w : Work platform)
        → Wired w
        → Leaves Wired (remember platform node level w)
    unfolding remember
    remember-Wired node level w v =
        if_elim (Leaves Wired)
          (leb w.transaction.node_count node
            || has_backup platform node level w.transaction.backups)
          _ _ (λ e. done-Leaves Wired w v)
          (λ e.
            then-Leaves Wired Wired (allocate platform w) _ (allocate-Wired w v)
              (λ w' v'. (λ h. v', λ h. cc)))

    relinked :
        (w : Work platform) (node level : ℕ) (xs : List ℕ)
        → Wired w
        → All (λ k. k < n) xs
        → Leaves Wired (record w { index = set_links platform w.index node level xs }, ok tt)
    relinked w node level xs v a =
        (λ h. set_links-IsWired n entry node level xs w.index v a, λ h. cc)

    unlink_dropped-Wired :
        (node level : ℕ) (selected previous : List ℕ) (w : Work platform)
        → Wired w
        → Leaves Wired (unlink_dropped platform node level selected previous w)
    unfolding unlink_dropped
    unlink_dropped-Wired node level selected [] w v = done-Leaves Wired w v
    unlink_dropped-Wired node level selected (previous ∷ rest) w v =
        then-Leaves Wired Wired _ (λ w'. unlink_dropped platform node level selected rest w')
          (if_elim (Leaves Wired) (contains platform previous selected) _ _
            (λ e. done-Leaves Wired w v)
            (λ e.
              then-Leaves Wired Wired (remember platform previous level w) _
                (remember-Wired previous level w v)
                (λ w' v'. relinked w' previous level _ v' (
                  without-All (λ k. k < n) node _ (links-All n previous level w'.index v'.lists)))))
          (λ w' v'. unlink_dropped-Wired node level selected rest w' v')

    prune_neighbors-Wired :
        (node level : ℕ) (w : Work platform)
        → Wired w
        → Leaves Wired (prune_neighbors platform node level w)
    unfolding prune_neighbors
    prune_neighbors-Wired node level w v =
        let neighbors = links platform w.index node level in
        let maximum = maximum_connections platform w.index level in
        let a = links-All n node level w.index v.lists in
        let ranked : All (λ c. c.node < n) (ranked_neighbors platform w.index node level) =
          All-sort_by (is_better platform w.index) (λ c. c.node < n) _
            (All-map (λ c. c.node < n) _ neighbors a) in
        let chosen =
          select_neighbors-All platform w.index (λ k. k < n)
            (ranked_neighbors platform w.index node level) maximum ranked in
        if_elim (Leaves Wired) (leb (length neighbors) maximum) _ _ (λ e. done-Leaves Wired w v)
          (λ e. then-Leaves Wired Wired (allocate platform w) _ (allocate-Wired w v) (λ w' v'.
            then-Leaves Wired Wired _ _ (unlink_dropped-Wired node level _ neighbors w' v')
              (λ w'' v''. relinked w'' node level _ v'' chosen)))

    link_back-Wired :
        (new_node level : ℕ) (neighbors : List ℕ) (w : Work platform)
        → new_node < n
        → Wired w
        → Leaves Wired (link_back platform new_node level neighbors w)
    unfolding link_back
    link_back-Wired new_node level [] w l v = done-Leaves Wired w v
    link_back-Wired new_node level (neighbor ∷ rest) w l v =
        then-Leaves Wired Wired (remember platform neighbor level w) _
          (remember-Wired neighbor level w v)
          (λ w₁ v₁.
            then-Leaves Wired Wired (allocate platform w₁) _ (allocate-Wired w₁ v₁) (λ w₂ v₂.
              then-Leaves Wired Wired _ _
                (prune_neighbors-Wired neighbor level _ (
                  set_links-IsWired n entry neighbor level _ w₂.index v₂ (
                    All-append (λ k. k < n) (links platform w₂.index neighbor level) (new_node ∷ [])
                      (links-All n neighbor level w₂.index v₂.lists) (l, tt))))
                (λ w₃ v₃. link_back-Wired new_node level rest w₃ l v₃)))

    pub link_levels-Wired :
        (new_node left level : ℕ) (w : Work platform)
        → new_node < n
        → Wired w
        → Leaves Wired (link_levels platform new_node left level w)
    unfolding link_levels
    link_levels-Wired new_node zero level w l v = done-Leaves Wired w v
    link_levels-Wired new_node (suc left) level w l v =
        then-Leaves Wired Wired (allocate platform w) _ (allocate-Wired w v) (λ w' v'.
          then-Leaves Wired Wired _ _
            (link_back-Wired new_node level (links platform w'.index new_node level) w' l v')
            (λ w'' v''. link_levels-Wired new_node left (level + 1) w'' l v''))
