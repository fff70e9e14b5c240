-- ===== src/HnswIndex/Restore.antt =====
-- The lists that a transaction of src/hnsw_index.cpp puts back, and changes to other lists.
use fast_vector.Prelude.{
  ℕ, ◌≡◌, ◌∙◌, refl, ap, true, false, ◌||◌, List, [], ◌∷◌, ◌++◌, arith, Bool-cases, inl, inr,
}
use fast_vector.HnswIndex.{Platform, HnswIndex, Node, set_links}
use fast_vector.HnswIndex.Insertion.{Backup, restore_links, has_backup}
use fast_vector.HnswIndex.Graph.{put, list_at, same_place, set-put, put-put, put_comm, list_at-put}

abbrev pub restore : List Backup → List Node → List Node
restore [] g = g
restore (b ∷ bs) g = restore bs (put g b.node b.level b.neighbors)

module _ (platform : Platform) where
  pub set_links-put :
      (i : HnswIndex platform) (node level : ℕ) (x : List ℕ)
      → set_links platform i node level x ≡ record i { graph = put i.graph node level x }
  unfolding set_links
  set_links-put i node level x = ap (λ g. record i { graph = g }) (set-put i.graph node level x)

  pub restore_links-restore :
      (bs : List Backup) (i : HnswIndex platform)
      → restore_links platform bs i ≡ record i { graph = restore bs i.graph }
  unfolding restore_links
  restore_links-restore [] i = refl
  restore_links-restore (b ∷ bs) i =
      rw (set_links-put i b.node b.level b.neighbors)
        (restore_links-restore bs (record i { graph = put i.graph b.node b.level b.neighbors }))

  -- A remembered list is put back whatever it became.
  pub restore-put_known :
      (bs : List Backup) (g : List Node) (n l : ℕ) (x : List ℕ)
      → has_backup platform n l bs ≡ true
      → restore bs (put g n l x) ≡ restore bs g
  unfolding has_backup
  restore-put_known [] g n l x h = cc
  restore-put_known (b ∷ bs) g n l x h = elim (Bool-cases (same_place b.node b.level n l)) [
    | inl same ↦
        let e : n ≡ b.node = ground arith in
        let f : l ≡ b.level = ground arith in
        rw (e, f) (ap (restore bs) (put-put g b.node b.level x b.neighbors))
    | inr other ↦
        let known : has_backup platform n l bs ≡ true = rw other at h in
        let apart : same_place n l b.node b.level ≡ false = ground arith in
        ap (restore bs) (put_comm g n l b.node b.level x b.neighbors apart)
        ∙ restore-put_known bs (put g b.node b.level b.neighbors) n l x known
  ]

  -- A list that is not remembered keeps its change.
  pub restore-put_new :
      (bs : List Backup) (g : List Node) (n l : ℕ) (x : List ℕ)
      → has_backup platform n l bs ≡ false
      → restore bs (put g n l x) ≡ put (restore bs g) n l x
  unfolding has_backup
  restore-put_new [] g n l x h = refl
  restore-put_new (b ∷ bs) g n l x h =
      let other : same_place b.node b.level n l ≡ false = ground arith in
      let new : has_backup platform n l bs ≡ false = rw other at h in
      let apart : same_place n l b.node b.level ≡ false = ground arith in
      ap (restore bs) (put_comm g n l b.node b.level x b.neighbors apart)
      ∙ restore-put_new bs (put g b.node b.level b.neighbors) n l x new

  pub list_at-restore :
      (bs : List Backup) (g : List Node) (n l : ℕ)
      → has_backup platform n l bs ≡ false
      → list_at (restore bs g) n l ≡ list_at g n l
  unfolding has_backup
  list_at-restore [] g n l h = refl
  list_at-restore (b ∷ bs) g n l h =
      let other : same_place b.node b.level n l ≡ false = ground arith in
      let new : has_backup platform n l bs ≡ false = rw other at h in
      list_at-restore bs (put g b.node b.level b.neighbors) n l new
      ∙ list_at-put g b.node b.level n l b.neighbors other

  pub restore-snoc :
      (bs : List Backup) (b : Backup) (g : List Node)
      → restore (bs ++ b ∷ []) g ≡ put (restore bs g) b.node b.level b.neighbors
  restore-snoc [] b g = refl
  restore-snoc (a ∷ bs) b g = restore-snoc bs b (put g a.node a.level a.neighbors)

  pub has_backup-snoc :
      (bs : List Backup) (b : Backup) (n l : ℕ)
      → has_backup platform n l (bs ++ b ∷ [])
        ≡ (same_place b.node b.level n l || has_backup platform n l bs)
  unfolding has_backup
  has_backup-snoc [] b n l = refl
  has_backup-snoc (a ∷ bs) b n l = ground (arith, has_backup-snoc bs b n l)
