-- ===== src/HnswIndex/Navigable.antt =====
-- The graphs of src/hnsw_index.cpp that searches can follow; the constructor and erase.
use fast_vector.Prelude.{
  ℕ, ◌<◌, ◌≡◌, ◌≢◌, refl, Bool, true, length, get_or, ok, >>=-eq-ok, All, All-set, All-get_or,
  length-set, inl, inr, if_elim, Option-cases, ok-injective, ◌∙◌,
}
use mathlib.Core.Path.{subst}
use fast_vector.Distance.{Machine, resolve_dot_product_kernel}
use fast_vector.HnswIndex.{
  Platform, HnswIndex, HnswConfig, empty_node, create, validate_config, erase, links,
}
use fast_vector.HnswIndex.Wired.{Inside, links-All}

module _ (platform : Platform) where
  pub record IsNavigable (i : HnswIndex platform) : Type 0 where
    pub nodes : length i.graph ≡ length i.ids
    pub lists : All (Inside (length i.ids)) i.graph
    pub entry : length i.ids ≢ 0 → i.entry_point < length i.ids

  pub navigable-LinksInside :
      (i : HnswIndex platform)
      → IsNavigable i
      → (node level : ℕ) → All (λ k. k < length i.graph) (links platform i node level)
  navigable-LinksInside i v node level =
      rw v.nodes (links-All platform (length i.ids) node level i v.lists)

  pub erase-IsNavigable :
      (i : HnswIndex platform) (id : ℕ) → IsNavigable i → IsNavigable (erase platform i id).0
  unfolding erase
  erase-IsNavigable i id v = elim (Option-cases (i.id_to_node id)) [
    | inl e ↦ rw (e, erase) v
    | inr (node, e) ↦
        let n = get_or i.graph node empty_node in
        let kept : Inside (length i.ids) n =
          All-get_or (Inside (length i.ids)) i.graph node empty_node v.lists tt in
        rw (e, erase)
          (if_elim (λ (r : HnswIndex platform × Bool). IsNavigable r.0) n.deleted _ _ (λ d. v)
            (λ d. record {
              nodes = length-set i.graph node _ ∙ v.nodes;
              lists =
                  All-set (Inside (length i.ids)) i.graph node (record n { deleted = true }) v.lists
                    kept;
              entry = v.entry;
            }))
  ]

  pub create-IsNavigable :
      (m : Machine) (config : HnswConfig) {i : HnswIndex platform}
      → create platform m config ≡ ok i
      → IsNavigable i
  unfolding create
  create-IsNavigable m config {i} e =
      let (c, valid, rest) = >>=-eq-ok (validate_config config) _ e in
      let (dot, resolved, made) = >>=-eq-ok (resolve_dot_product_kernel m c.kernel) _ rest in
      subst IsNavigable (ok-injective made)
        (record { nodes = refl; lists = tt; entry = λ some_id. absurd (some_id refl) })
