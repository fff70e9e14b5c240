-- ===== src/HnswIndex/Inserted.antt =====
-- HnswIndex::add (src/hnsw_index.cpp) on a graph that searches can follow.
use fast_vector.Prelude.{
  ℕ, suc, ◌+◌, ◌-◌, ◌<◌, ◌≡◌, ◌≢◌, refl, sym, List, [], ◌++◌, Option, length, ltb, ◌==◌,
  if◌then◌else◌, replicate, min, ok, err, Result, >>=-eq-ok, All, All-append, All-replicate, arith,
  Ends, >>=-Ends, throw_if, throw_if-Ends, Result-cases, inl, inr, if_elim, is_some,
  dimension_mismatch, duplicate_id, node_capacity_exceeded, leb, ◌∙◌, not,
}
use mathlib.Core.Path.{subst}
use fast_vector.Distance.{Machine, normalize_l2-Ends}
use fast_vector.HnswIndex.{Platform, HnswIndex, random_level, node_index_max}
use fast_vector.HnswIndex.Insertion.{
  Work, Attempt, allocate, begin, append_node, insert_first, insert_next, raise_entry, link_levels,
  commit_or_roll_back, insert_normalized, admit, add, with_plan, descend,
}
use fast_vector.HnswIndex.Exceptions.{failed_add-unchanged}
use fast_vector.HnswIndex.Planned.{descend-Ends, descend-inside, plan_levels-Ends, plan_levels-All}
use fast_vector.HnswIndex.Appended.{append_node-Wired}
use fast_vector.HnswIndex.Wired.{
  IsWired, Leaves, then-Leaves, allocate-Leaves, Wired, link_levels-Wired,
}
use fast_vector.HnswIndex.Navigable.{IsNavigable, navigable-LinksInside}

module _ (platform : Platform) where
  -- The index in which an insertion begins differs in its generator only.
  abbrev NavigableWork : Work platform → Type 0
  NavigableWork w = IsNavigable platform w.index

  empty_lists : (n k : ℕ) → All (All (λ j. j < n)) (replicate k [])
  empty_lists n k = All-replicate (All (λ j. j < n)) k [] tt

  insert_first-Leaves :
      (id : ℕ) (normalized : List ℕ) (level : ℕ) (w : Work platform)
      → IsNavigable platform w.index
      → length w.index.ids ≡ 0
      → Leaves platform NavigableWork (insert_first platform id normalized level w)
  unfolding insert_first
  insert_first-Leaves id normalized level w v none_yet =
      let entry = w.index.entry_point in
      then-Leaves platform (Wired platform 1 entry) NavigableWork
        (append_node platform id normalized (replicate (level + 1) []) w) _
        (append_node-Wired platform 0 entry id normalized (replicate (level + 1) []) w
          (empty_lists 0 (level + 1))
          (record {
            graph = omega (arith, v.nodes, none_yet);
            ids = none_yet;
            lists = rw none_yet at v.lists;
            at_entry = refl;
          }))
        (λ w' v'. (
          λ h. record {
            nodes = omega (arith, v'.graph, v'.ids);
            lists = rw v'.ids v'.lists;
            entry = λ e. omega (arith, v'.ids, none_yet);
          },
          λ h. cc,
        ))

  raised :
      (n entry level new_node : ℕ) (w : Work platform)
      → IsWired platform n entry w.index
      → entry < n
      → new_node < n
      → Leaves platform NavigableWork (raise_entry platform new_node level w)
  unfolding raise_entry
  raised n entry level new_node w v l k = (
    λ done.
        (if_elim (IsNavigable platform) (ltb w.index.max_level level) _ w.index
          (λ e. record {
            nodes = omega (arith, v.graph, v.ids);
            lists = rw v.ids v.lists;
            entry = λ f. omega (arith, v.ids, k);
          })
          (λ e. record {
            nodes = omega (arith, v.graph, v.ids);
            lists = rw v.ids v.lists;
            entry = λ f. omega (arith, v.ids, l, v.at_entry);
          })),
    λ h. cc,
  )

  with_plan-Leaves :
      (n id : ℕ) (normalized : List ℕ) (level first : ℕ) (planned : Result (List (List ℕ)))
      (w : Work platform)
      → IsWired platform n w.index.entry_point w.index
      → w.index.entry_point < n
      → Ends planned
      → ((plan : List (List ℕ)) → planned ≡ ok plan → All (All (λ k. k < n)) plan)
      → Leaves platform NavigableWork (with_plan platform id normalized level first n planned w)
  unfolding with_plan
  with_plan-Leaves n id normalized level first (err e) w v l ends a = (λ h. cc, λ h. ends (cc))
  with_plan-Leaves n id normalized level first (ok plan) w v l ends a =
      let entry = w.index.entry_point in
      let lists = plan ++ replicate (level - first) [] in
      let inside =
        All-append (All (λ k. k < n)) plan (replicate (level - first) []) (a plan refl)
          (empty_lists n (level - first)) in
      then-Leaves platform (Wired platform (suc n) entry) NavigableWork
        (append_node platform id normalized lists w) _
        (append_node-Wired platform n entry id normalized lists w inside v)
        (λ w₁ v₁.
          then-Leaves platform (Wired platform (suc n) entry) NavigableWork
            (link_levels platform n (first + 1) 0 w₁) _
            (link_levels-Wired platform (suc n) entry n (first + 1) 0 w₁ (omega arith) v₁)
            (λ w₂ v₂. raised (suc n) entry level n w₂ v₂ (omega (arith, l)) (omega arith)))

  wired :
      (i : HnswIndex platform)
      → IsNavigable platform i
      → IsWired platform (length i.ids) i.entry_point i
  wired i v = record { graph = v.nodes; ids = refl; lists = v.lists; at_entry = refl }

  insert_next-Leaves :
      (id : ℕ) (normalized : List ℕ) (level : ℕ) (w : Work platform)
      → IsNavigable platform w.index
      → length w.index.ids ≢ 0
      → Leaves platform NavigableWork (insert_next platform id normalized level w)
  unfolding insert_next
  insert_next-Leaves id normalized level w v some_id =
      let i = w.index in
      let inside = navigable-LinksInside platform i v in
      let l = v.entry some_id in
      let l' : i.entry_point < length i.graph = rw v.nodes l in
      let first = min level i.max_level in
      let above = i.max_level - level in
      then-Leaves platform (λ w'. w'.index ≡ i) NavigableWork (allocate platform w) _
        (allocate-Leaves platform (λ w'. w'.index ≡ i) w i (λ left. refl))
        (λ w' same.
          let v' : IsWired platform (length i.ids) w'.index.entry_point w'.index =
            rw same (wired i v) in
          with_plan-Leaves (length i.ids) id normalized level first _ w' v' (rw same l)
            (>>=-Ends (descend platform i normalized above level i.entry_point) _
              (descend-Ends platform i normalized above level i.entry_point inside l')
              (λ entry h.
                plan_levels-Ends platform i normalized (first + 1) entry inside
                  (descend-inside platform i normalized above level i.entry_point inside l' h)))
            (λ plan h.
              let (entry, descended, planned) =
                >>=-eq-ok (descend platform i normalized above level i.entry_point) _ h in
              rw (← v.nodes) (
                plan_levels-All platform i normalized (first + 1) entry inside
                  (descend-inside platform i normalized above level i.entry_point inside l'
                    descended)
                  planned)))

  -- An insertion that succeeds has left a navigable index, and none ends out of fuel.
  abbrev pub Inserts : HnswIndex platform × Result (Unit {0}) → Type 0
  Inserts a = (a.1 ≡ ok tt → IsNavigable platform a.0) × Ends a.1

  commit-Inserts :
      (a : Attempt platform)
      → Leaves platform NavigableWork a
      → Inserts (commit_or_roll_back platform a)
  commit-Inserts (w, ok u) p = (λ h. p.0 refl, λ h. cc)
  commit-Inserts (w, err e) p = (λ h. cc, λ h. p.1 h)

  pub insert_normalized-Inserts :
      (m : Machine) (allocations : Option ℕ) (i : HnswIndex platform) (id : ℕ) (normalized : List ℕ)
      → IsNavigable platform i
      → Inserts (insert_normalized platform m allocations i id normalized)
  unfolding insert_normalized random_level
  insert_normalized-Inserts m allocations i id normalized v =
      let drawn : HnswIndex platform = (random_level platform m i).1 in
      let v' : IsNavigable platform drawn = record {
        nodes = v.nodes;
        lists = v.lists;
        entry = v.entry;
      } in
      let level = (random_level platform m i).0 in
      let w : Work platform = record {
        index = drawn;
        transaction = begin platform i;
        allocations = allocations;
      } in
      if_elim Inserts (ltb (platform.max_floats - length i.vectors) i.config.dimension) _ _
        (λ e. (λ h. cc, λ h. cc))
        (λ e.
          commit-Inserts
            (if length i.graph == 0
              then insert_first platform id normalized level w
              else insert_next platform id normalized level w)
            (if_elim (Leaves platform NavigableWork) (length i.graph == 0) _ _
              (λ z. insert_first-Leaves id normalized level w v' (ground (arith, z, v.nodes)))
              (λ z.
                insert_next-Leaves id normalized level w v'
                  (λ f. absurd (ground (arith, z, f, v.nodes))))))

  admit-Ends :
      (m : Machine) (i : HnswIndex platform) (id : ℕ) (vector : List ℕ)
      → Ends (admit platform m i id vector)
  unfolding admit
  admit-Ends m i id vector =
      let short = not (length vector == i.config.dimension) in
      let stored = is_some (i.id_to_node id) in
      let full = leb node_index_max (length i.ids) in
      >>=-Ends (throw_if short dimension_mismatch) _
        (throw_if-Ends short dimension_mismatch (λ e. cc))
        (λ u h.
          >>=-Ends (throw_if stored duplicate_id) _ (throw_if-Ends stored duplicate_id (λ e. cc))
            (λ u' h'.
              >>=-Ends (throw_if full node_capacity_exceeded) _
                (throw_if-Ends full node_capacity_exceeded (λ e. cc))
                (λ u'' h''. normalize_l2-Ends m vector)))

  add-Inserts :
      (m : Machine) (allocations : Option ℕ) (i : HnswIndex platform) (id : ℕ) (vector : List ℕ)
      → IsNavigable platform i
      → Inserts (add platform m allocations i id vector)
  unfolding add
  add-Inserts m allocations i id vector v = elim (Result-cases (admit platform m i id vector)) [
    | inl (normalized, e) ↦ rw (e, add) (insert_normalized-Inserts m allocations i id normalized v)
    | inr (x, e) ↦ rw (e, add) (λ h. cc, λ h. admit-Ends m i id vector (e ∙ cc))
  ]

  pub add-Ends :
      (m : Machine) (allocations : Option ℕ) (i : HnswIndex platform) (id : ℕ) (vector : List ℕ)
      → IsNavigable platform i
      → Ends (add platform m allocations i id vector).1
  add-Ends m allocations i id vector v = (add-Inserts m allocations i id vector v).1

  pub add-IsNavigable :
      (m : Machine) (allocations : Option ℕ) (i : HnswIndex platform) (id : ℕ) (vector : List ℕ)
      → IsNavigable platform i
      → IsNavigable platform (add platform m allocations i id vector).0
  add-IsNavigable m allocations i id vector v =
      elim (Result-cases (add platform m allocations i id vector).1) [
        | inl (u, e) ↦ (add-Inserts m allocations i id vector v).0 e
        | inr (x, e) ↦
            subst (IsNavigable platform)
              (sym (failed_add-unchanged platform i m allocations id vector v.nodes e)) v
      ]
