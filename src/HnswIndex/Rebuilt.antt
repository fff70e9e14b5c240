-- ===== src/HnswIndex/Rebuilt.antt =====
-- HnswIndex::rebuild (src/hnsw_index.cpp), which inserts into a new index.
use fast_vector.Prelude.{
  ℕ, ◌≡◌, List, [], ◌∷◌, none, ok, >>=-eq-ok, Result-cases, inl, inr, ok-injective,
}
use mathlib.Core.Path.{subst}
use fast_vector.Distance.{Machine}
use fast_vector.FlatIndex.{row}
use fast_vector.HnswIndex.{live_ids, Platform, HnswIndex, HnswConfig, create}
use fast_vector.HnswIndex.Insertion.{insert_normalized, rebuild, rebuild_from, node_or_zero}
use fast_vector.HnswIndex.Navigable.{IsNavigable, create-IsNavigable}
use fast_vector.HnswIndex.Inserted.{insert_normalized-Inserts}

module _ (platform : Platform) where
  rebuild_from-IsNavigable :
      (m : Machine) (source : HnswIndex platform) (ids : List ℕ) (result : HnswIndex platform)
      {rebuilt : HnswIndex platform}
      → IsNavigable platform result
      → rebuild_from platform m source ids result ≡ ok rebuilt
      → IsNavigable platform rebuilt
  unfolding rebuild_from
  rebuild_from-IsNavigable m source [] result v h = subst (IsNavigable platform) (ok-injective h) v
  rebuild_from-IsNavigable m source (id ∷ ids) result v h =
      let node = node_or_zero platform (source.id_to_node id) in
      let normalized = row source.vectors source.config.dimension node in
      let inserted = insert_normalized platform m none result id normalized in
      elim (Result-cases inserted.1) [
        | inl (u, e) ↦
            rebuild_from-IsNavigable m source ids inserted.0
              ((insert_normalized-Inserts platform m none result id normalized v).0 e)
              (rw (e, rebuild_from) at h)
        | inr (x, e) ↦ let stopped = rw (e, rebuild_from) at h in cc
      ]

  pub rebuild-IsNavigable :
      (m : Machine) (i : HnswIndex platform) (random_seed : ℕ) {rebuilt : HnswIndex platform}
      → rebuild platform m i random_seed ≡ ok rebuilt
      → IsNavigable platform rebuilt
  unfolding rebuild
  rebuild-IsNavigable m i random_seed h =
      let config : HnswConfig = record (i.config) { random_seed = random_seed } in
      let (result, made, rest) = >>=-eq-ok (create platform m config) _ h in
      rebuild_from-IsNavigable m i (live_ids platform i) result
        (create-IsNavigable platform m config made) rest
