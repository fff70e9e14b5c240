-- ===== src/VectorStore/Publication.antt =====
-- Publication in two phases: prepare_snapshot and activate_snapshot (src/vector_store.cpp).
use fast_vector.Prelude.{
  ◌+◌, ◌≤◌, ◌<◌, ◌≡◌, ◌≢◌, ◌⊎◌, refl, false, Option, none, some, ok, err, arith, snapshot_mismatch,
  inl, inr, ℕ, List, Result-cases,
}
use fast_vector.SearchContext.{SearchContext}
use fast_vector.VectorIndex.{VectorIndex}
use fast_vector.VectorStore.{
  SnapshotIdentity, ServingSnapshot, VectorStore, Ownership, writable, serving, prepare_snapshot,
  activate_snapshot, uint64_max, is_empty, search, search_result, Encounter,
}

module _ (index_type : VectorIndex) where
  open index_type use {Index}

  -- What is served, if the store is read-only.
  abbrev pub served : VectorStore index_type → Option (ServingSnapshot index_type)
  served s = elim s.ownership [ writable w ↦ none | serving current ↦ some current ]

  pub Ownership-cases :
      (o : Ownership index_type)
      → ((w : Index) × (o ≡ writable w))
        ⊎ ((current : ServingSnapshot index_type) × (o ≡ serving current))
  Ownership-cases (writable w) = inl (w, refl)
  Ownership-cases (serving current) = inr (current, refl)

  pub prepared_from :
      (s : VectorStore index_type) (i : Index) (identity : SnapshotIdentity)
      (current : ServingSnapshot index_type) {next : ServingSnapshot index_type}
      → s.ownership ≡ serving current
      → prepare_snapshot index_type s (some i) identity ≡ ok next
      → (next ≡ record { index = i; version = current.version + 1; identity = identity })
        × (current.version ≢ uint64_max)
        × (current.identity.generation < identity.generation)
        × (is_empty identity.snapshot_id ≡ false)
  unfolding prepare_snapshot
  prepared_from s i identity current e h = ground arith

  -- A snapshot that was prepared against the served one is activated, and only the served snapshot
  -- changes; its version is the next one, its identity and index are the given ones. The version
  -- counter is in its range.
  pub activate-prepare :
      (s : VectorStore index_type) (i : Index) (identity : SnapshotIdentity)
      (current next : ServingSnapshot index_type)
      → s.ownership ≡ serving current
      → current.version ≤ uint64_max
      → prepare_snapshot index_type s (some i) identity ≡ ok next
      → (activate_snapshot index_type s (some next) ≡ ok (record s { ownership = serving next }))
        × (next.version ≡ current.version + 1)
        × (next.identity ≡ identity)
        × (next.index ≡ i)
  unfolding activate_snapshot
  activate-prepare s i identity current next e fits h =
      let (same, room, newer, named) = prepared_from s i identity current e h in ground arith

  -- A snapshot that was prepared against an earlier version than the one that is served now is
  -- refused as a mismatch. The version counter is in its range.
  pub activate_stale :
      (s t : VectorStore index_type) (i : Index) (identity : SnapshotIdentity)
      (before current next : ServingSnapshot index_type)
      → s.ownership ≡ serving before
      → prepare_snapshot index_type s (some i) identity ≡ ok next
      → t.ownership ≡ serving current
      → before.version < current.version
      → current.version ≤ uint64_max
      → activate_snapshot index_type t (some next) ≡ err snapshot_mismatch
  unfolding activate_snapshot
  activate_stale s t i identity before current next e h f newer fits =
      let (same, room, later, named) = prepared_from s i identity before e h in ground arith

  pub search-ownership :
      (s : VectorStore index_type) (query : List ℕ) (k : ℕ) (ctx : SearchContext) (e : Encounter)
      → (search index_type s query k ctx e).0.ownership ≡ s.ownership
  unfolding search
  search-ownership s query k ctx e =
      elim (Result-cases (search_result index_type s query k ctx e)) [
        | inl (r, h) ↦ rw (h, search)
        | inr (x, h) ↦ rw (h, search)
      ]
