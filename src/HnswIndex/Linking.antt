-- ===== src/HnswIndex/Linking.antt =====
-- The linking and pruning of src/hnsw_index.cpp in a transaction.
use mathlib.Core.Path.{subst}
use fast_vector.Prelude.{
  ℕ, zero, suc, ◌+◌, ◌≡◌, refl, sym, false, ◌||◌, List, [], ◌∷◌, ◌++◌, Option, leb, if◌then◌else◌,
  length, ok, err, arith, Bool-cases, inl, inr, ==-refl,
}
use fast_vector.HnswIndex.{Platform, HnswIndex, links, set_links, maximum_connections}
use fast_vector.HnswIndex.Insertion.{
  Work, Attempt, and_then, allocate, has_backup, remember, contains, without, unlink_dropped,
  prune_neighbors, link_back, link_levels, ranked_neighbors,
}
use fast_vector.HnswIndex.Neighbors.{select_neighbors}
use fast_vector.HnswIndex.Restore.{has_backup-snoc}
use fast_vector.HnswIndex.Rollback.{
  Undoable, Opened, and_then-keeps, allocate-cases, allocate-keeps, set_links-Undoable, remembered,
  remembered-Undoable,
}

module _ (platform : Platform) (i : HnswIndex platform) where
  remembered-Opened :
      (w : Work platform) (n l : ℕ) → Opened platform i n l (remembered platform i n l w)
  remembered-Opened w n l =
      let e =
        has_backup-snoc platform w.transaction.backups
          (record { node = n; level = l; neighbors = links platform w.index n l }) n l in
      rw (e, ==-refl n, ==-refl l) (ground arith)

  remembered-keeps_open :
      (w : Work platform) (n l k j : ℕ)
      → Opened platform i k j w
      → Opened platform i k j (remembered platform i n l w)
  remembered-keeps_open w n l k j open_place =
      let e =
        has_backup-snoc platform w.transaction.backups
          (record { node = n; level = l; neighbors = links platform w.index n l }) k j in
      rw e (ground arith)

  -- What remembering does, for any predicate that a new backup and an allocation keep.
  remember-keeps :
      (P : Work platform → Type 0) (n l : ℕ) (w : Work platform)
      → P w
      → ((left : Option ℕ) (v : Work platform)
          → v ≡ record w { allocations = left }
          → (leb w.transaction.node_count n || has_backup platform n l w.transaction.backups)
            ≡ false
          → P (remembered platform i n l v))
      → P (remember platform n l w).0
  unfolding remember
  remember-keeps P n l w p q =
      elim (Bool-cases
        (leb w.transaction.node_count n || has_backup platform n l w.transaction.backups)) [
          | inl open_place ↦ rw open_place p
          | inr closed ↦ elim (allocate-cases platform i w) [
            | inl e ↦ rw (closed, e) p
            | inr (left, e) ↦ rw (closed, e) (q left (record w { allocations = left }) refl closed)
          ]
        ]

  remember-Undoable :
      (n l : ℕ) (w : Work platform)
      → Undoable platform i w
      → Undoable platform i (remember platform n l w).0
  remember-Undoable n l w v = remember-keeps (Undoable platform i) n l w v (λ left u e closed.
      subst (λ x. Undoable platform i (remembered platform i n l x)) (sym e)
        (remembered-Undoable platform i (record w { allocations = left }) n l closed v))

  remember-keeps_open :
      (n l k j : ℕ) (w : Work platform)
      → Opened platform i k j w
      → Opened platform i k j (remember platform n l w).0
  remember-keeps_open n l k j w open_place =
      remember-keeps (Opened platform i k j) n l w open_place (λ left u e closed.
        subst (λ x. Opened platform i k j (remembered platform i n l x)) (sym e)
          (remembered-keeps_open (record w { allocations = left }) n l k j open_place))

  remember_opens :
      (n l : ℕ) (w : Work platform)
      → (remember platform n l w).1 ≡ ok tt
      → Opened platform i n l (remember platform n l w).0
  unfolding remember
  remember_opens n l w =
      elim (Bool-cases
        (leb w.transaction.node_count n || has_backup platform n l w.transaction.backups)) [
          | inl open_place ↦ rw open_place (λ h. open_place)
          | inr closed ↦ elim (allocate-cases platform i w) [
            | inl e ↦ rw (closed, e) (λ h. cc)
            | inr (left, e) ↦
                rw (closed, e) (λ h. remembered-Opened (record w { allocations = left }) n l)
          ]
        ]

  -- Undoable, and the list at one place may be changed.
  abbrev pub UndoableAt : ℕ → ℕ → Work platform → Type 0
  UndoableAt n l w = Undoable platform i w × Opened platform i n l w

  unlink_dropped-UndoableAt :
      (node level : ℕ) (selected neighbors : List ℕ) (w : Work platform)
      → UndoableAt node level w
      → UndoableAt node level (unlink_dropped platform node level selected neighbors w).0
  unfolding unlink_dropped
  unlink_dropped-UndoableAt node level selected [] w p = p
  unlink_dropped-UndoableAt node level selected (previous ∷ rest) w p =
      and_then-keeps platform i (UndoableAt node level)
        (if contains platform previous selected
          then (w, ok tt)
          else and_then platform (remember platform previous level w) unlinked)
        (λ w'. unlink_dropped platform node level selected rest w') dropped
        (λ done. unlink_dropped-UndoableAt node level selected rest _ dropped)
    where
      unlinked : Work platform → Attempt platform
      unlinked w' = (
        record w' {
          index =
              set_links platform w'.index previous level
                (without platform node (links platform w'.index previous level));
        },
        ok tt,
      )

      dropped :
          UndoableAt node level
            (if contains platform previous selected
              then (w, ok tt)
              else and_then platform (remember platform previous level w) unlinked).0
      dropped = elim (Bool-cases (contains platform previous selected)) [
        | inl kept ↦ rw kept p
        | inr gone ↦ rw gone (
            let q : UndoableAt node level (remember platform previous level w).0 = (
              remember-Undoable previous level w p.0,
              remember-keeps_open previous level node level w p.1,
            ) in
            and_then-keeps platform i (UndoableAt node level) (remember platform previous level w)
              unlinked q
              (λ done. (
                set_links-Undoable platform i (remember platform previous level w).0 previous level
                    _ (remember_opens previous level w done) q.0,
                q.1,
              )))
      ]

  -- A step that may throw, and the rest with what the step leaves.
  pub then-keeps :
      (P Q : Work platform → Type 0) (a : Attempt platform)
      (next : Work platform → Attempt platform)
      → P a.0
      → ((w : Work platform) → P w → Q w)
      → ((w : Work platform) → P w → Q (next w).0)
      → Q (and_then platform a next).0
  then-keeps P Q (w, ok u) next p weaken q = q w p
  then-keeps P Q (w, err e) next p weaken q = weaken w p

  abbrev replaces : ℕ → ℕ → List ℕ → Work platform → Attempt platform
  replaces node level selected w =
      (record w { index = set_links platform w.index node level selected }, ok tt)

  -- The selected neighbours replace the old ones when the dropped ones are unlinked.
  replaced-UndoableAt :
      (node level : ℕ) (selected neighbors : List ℕ) (w : Work platform)
      → UndoableAt node level w
      → UndoableAt node level
          (and_then platform
            (unlink_dropped platform node level selected neighbors w)
            (replaces node level selected)).0
  replaced-UndoableAt node level selected neighbors w p =
      then-keeps (UndoableAt node level) (UndoableAt node level)
        (unlink_dropped platform node level selected neighbors w) (replaces node level selected)
        (unlink_dropped-UndoableAt node level selected neighbors w p) (λ w' q. q)
        (λ w' q. (set_links-Undoable platform i w' node level selected q.1 q.0, q.1))

  allocated :
      (node level : ℕ) (w : Work platform)
      → UndoableAt node level w
      → UndoableAt node level (allocate platform w).0
  allocated node level w p = allocate-keeps platform i (UndoableAt node level) w (λ left. p) p

  prune_neighbors-UndoableAt :
      (node level : ℕ) (w : Work platform)
      → UndoableAt node level w
      → UndoableAt node level (prune_neighbors platform node level w).0
  unfolding prune_neighbors
  prune_neighbors-UndoableAt node level w p =
      let neighbors = links platform w.index node level in
      let maximum = maximum_connections platform w.index level in
      let selected =
        select_neighbors platform w.index (ranked_neighbors platform w.index node level) maximum in
      elim (Bool-cases (leb (length neighbors) maximum)) [
        | inl small ↦ rw small p
        | inr large ↦ rw large (
            then-keeps (UndoableAt node level) (UndoableAt node level) (allocate platform w)
              (λ w'.
                and_then platform (unlink_dropped platform node level selected neighbors w')
                  (replaces node level selected))
              (allocated node level w p) (λ w' q. q)
              (λ w' q. replaced-UndoableAt node level selected neighbors w' q))
      ]

  abbrev links_back : ℕ → ℕ → ℕ → Work platform → Work platform
  links_back new_node neighbor level w = record w {
    index =
        set_links platform w.index neighbor level
          (links platform w.index neighbor level ++ new_node ∷ []);
  }

  -- One neighbour, and the loop for the others.
  pushed-Undoable :
      (new_node neighbor level : ℕ) (rest : Work platform → Attempt platform) (w : Work platform)
      → UndoableAt neighbor level w
      → ((w' : Work platform) → Undoable platform i w' → Undoable platform i (rest w').0)
      → Undoable platform i
          (and_then platform (allocate platform w) (λ w₂.
            and_then platform
              (prune_neighbors platform neighbor level (links_back new_node neighbor level w₂))
              rest)).0
  pushed-Undoable new_node neighbor level rest w p others =
      then-keeps (UndoableAt neighbor level) (Undoable platform i) (allocate platform w)
        (λ w₂.
          and_then platform
            (prune_neighbors platform neighbor level (links_back new_node neighbor level w₂)) rest)
        (allocated neighbor level w p) (λ w' q. q.0)
        (λ w₂ q.
          then-keeps (UndoableAt neighbor level) (Undoable platform i)
            (prune_neighbors platform neighbor level (links_back new_node neighbor level w₂)) rest
            (prune_neighbors-UndoableAt neighbor level (links_back new_node neighbor level w₂)
              (set_links-Undoable platform i w₂ neighbor level _ q.1 q.0, q.1))
            (λ w' r. r.0) (λ w' r. others w' r.0))

  link_back-Undoable :
      (new_node level : ℕ) (neighbors : List ℕ) (w : Work platform)
      → Undoable platform i w
      → Undoable platform i (link_back platform new_node level neighbors w).0
  unfolding link_back
  link_back-Undoable new_node level [] w v = v
  link_back-Undoable new_node level (neighbor ∷ rest) w v =
      let r = remember-Undoable neighbor level w v in
      and_then-keeps platform i (Undoable platform i) (remember platform neighbor level w)
        (λ w₁. and_then platform (allocate platform w₁) (λ w₂.
          and_then platform
            (prune_neighbors platform neighbor level (links_back new_node neighbor level w₂))
            (λ w₃. link_back platform new_node level rest w₃)))
        r
        (λ done.
          pushed-Undoable new_node neighbor level (λ w₃. link_back platform new_node level rest w₃)
            (remember platform neighbor level w).0 (r, remember_opens neighbor level w done)
            (λ w' u. link_back-Undoable new_node level rest w' u))

  pub link_levels-Undoable :
      (new_node left level : ℕ) (w : Work platform)
      → Undoable platform i w
      → Undoable platform i (link_levels platform new_node left level w).0
  unfolding link_levels
  link_levels-Undoable new_node zero level w v = v
  link_levels-Undoable new_node (suc left) level w v =
      then-keeps (Undoable platform i) (Undoable platform i) (allocate platform w)
        (λ w'.
          and_then platform
            (link_back platform new_node level (links platform w'.index new_node level) w')
            (λ w''. link_levels platform new_node left (level + 1) w''))
        (allocate-keeps platform i (Undoable platform i) w (λ unused. v) v) (λ w' q. q)
        (λ w' q.
          then-keeps (Undoable platform i) (Undoable platform i)
            (link_back platform new_node level (links platform w'.index new_node level) w')
            (λ w''. link_levels platform new_node left (level + 1) w'')
            (link_back-Undoable new_node level (links platform w'.index new_node level) w' q)
            (λ w'' r. r) (λ w'' r. link_levels-Undoable new_node left (level + 1) w'' r))
