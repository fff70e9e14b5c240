-- ===== src/VectorStore/Query.antt =====
-- VectorStore::search (src/vector_store.cpp) in steps, between which other threads may publish a
-- snapshot or run queries of their own. The branch of a writable store holds its lock throughout
-- and is one step.
use text.Mathlib.Text.{◌==◌ as str_eq}
use fast_vector.Prelude.{ℕ, ◌&&◌, not, List, if◌then◌else◌, ok, err, Error, ◌>>◌, snapshot_mismatch}
use fast_vector.SearchContext.{SearchContext, validate, check}
use fast_vector.SearchResult.{SearchResult}
use fast_vector.VectorIndex.{VectorIndex}
use fast_vector.VectorStore.{
  SnapshotIdentity, SnapshotSearchResult, ServingSnapshot, VectorStore, serving, writable,
  Encounter, search_owned, increment, is_empty,
}

module _ (index_type : VectorIndex) where
  -- Where a query stands, with its local variables: the snapshot that it has acquired, the version
  -- and the identity that it has copied, and the neighbours.
  pub data Query : Type 0 where
    entered : Query
    checked : Query
    holding : ServingSnapshot index_type → Query
    matched : ServingSnapshot index_type → ℕ → SnapshotIdentity → Query
    searched : List SearchResult → ℕ → SnapshotIdentity → Query
    returned : SnapshotSearchResult → Query
    thrown : Error → Query

  -- The arguments of a query, what it meets, and where it stands.
  pub record Call : Type 0 where
    pub query : List ℕ
    pub k : ℕ
    pub context : SearchContext
    pub encounter : Encounter
    pub state : Query

  -- The `catch` block.
  abbrev pub throws : VectorStore index_type → Error → VectorStore index_type × Query
  throws s x = (record s { failed_queries = increment s.failed_queries }, thrown x)

  -- One step from `state`. Where the query acquires a snapshot it reads the store; from then on it
  -- has its own pointer.
  unfoldable pub advance_from :
      VectorStore index_type → Call → Query → VectorStore index_type × Query
  unfolding search_owned validate check
  advance_from s c entered = elim (validate c.context >> check c.context c.encounter.before) [
    | ok u ↦ (s, checked)
    | err x ↦ throws s x
  ]
  advance_from s c checked = elim s.ownership [
    | serving snapshot ↦ (s, holding snapshot)
    | writable index ↦
        elim (search_owned index_type (writable index) c.query c.k c.context c.encounter) [
          | ok r ↦ (s, searched r.neighbors r.snapshot_version r.identity)
          | err x ↦ throws s x
        ]
  ]
  advance_from s c (holding snapshot) =
      if not (is_empty c.context.expected_snapshot_id)
        && not (str_eq c.context.expected_snapshot_id snapshot.identity.snapshot_id)
      then throws s snapshot_mismatch
      else (s, matched snapshot snapshot.version snapshot.identity)
  advance_from s c (matched snapshot version identity) =
      elim (index_type.search c.context c.encounter.during snapshot.index c.query c.k) [
        | ok neighbors ↦ (s, searched neighbors version identity)
        | err x ↦ throws s x
      ]
  advance_from s c (searched neighbors version identity) =
      elim (check c.context c.encounter.after) [
        | ok u ↦ (
          record s { successful_queries = increment s.successful_queries },
          returned
              (record { neighbors = neighbors; snapshot_version = version; identity = identity }),
        )
        | err x ↦ throws s x
      ]
  advance_from s c (returned r) = (s, returned r)
  advance_from s c (thrown x) = (s, thrown x)

  unfoldable pub advance : VectorStore index_type → Call → VectorStore index_type × Query
  unfolding advance_from
  advance s c = advance_from s c c.state
