-- ===== src/VectorStore.antt =====
-- src/vector_store.cpp and include/fast_vector/vector_store.h: the store over one index. Each method
-- is one step, as its lock or its atomic pointer makes it; what other threads decide (the time, the
-- stop reason, how long a lock is busy) is an argument. Counters wrap at 2 ^ 64.
pub mod Publication
pub mod Trace
pub mod Query
pub mod Overlap
pub mod Served
pub mod Answered
pub mod Untouched
pub mod Counted
pub mod Alone
pub mod Batch
use Prim.Native.String.{String, len}
use text.Mathlib.Text.{◌==◌ as str_eq}
use fast_vector.Prelude.{
  ℕ, zero, suc, ◌+◌, ◌-◌, ◌%◌, ◌^◌, Bool, true, false, not, ◌&&◌, ◌||◌, List, [], ◌∷◌, Option, none,
  some, length, ltb, leb, ◌==◌, if◌then◌else◌, Result, ok, err, ◌>>=◌, ◌>>◌, throw_if, Error,
  missing_index, zero_batch_size, invalid_identity, identity_needs_read_only, duplicate_in_batch,
  dimension_mismatch, version_exhausted, batch_too_large, needs_read_only, read_only_store,
  snapshot_mismatch,
}
use mathlib.Core.Bool.{beq}
use fast_vector.Distance.{Machine, normalize_l2}
use fast_vector.SearchContext.{SearchContext, World, Observation, validate, check, enabled}
use fast_vector.SearchResult.{SearchResult}
use fast_vector.VectorIndex.{VectorIndex}

pub record SnapshotIdentity : Type 0 where
  pub snapshot_id : String
  pub generation : ℕ
  pub embedding_revision : String

abbrev pub no_identity : SnapshotIdentity
no_identity = record { snapshot_id = ""; generation = 0; embedding_revision = "" }

abbrev pub is_empty : String → Bool
is_empty s = str_eq s ""

pub record VectorRecord : Type 0 where
  pub id : ℕ
  pub values : List ℕ

pub record SnapshotSearchResult : Type 0 where
  pub neighbors : List SearchResult
  pub snapshot_version : ℕ
  pub identity : SnapshotIdentity

abbrev pub uint64_max : ℕ
uint64_max = 2 ^ 64 - 1

-- fetch_add(1)
abbrev pub increment : ℕ → ℕ
increment n = (n + 1) % 2 ^ 64

-- What a query meets: its first observation, those while it waits for the lock, one with the lock
-- held, those of the index, and the last one.
pub record Encounter : Type 0 where
  pub before : Observation
  pub waiting : List Observation
  pub locked : Observation
  pub during : World
  pub after : Observation

pub record StoreStats : Type 0 where
  pub index_size : ℕ
  pub index_dimension : ℕ
  pub successful : ℕ
  pub failed : ℕ
  pub inserted : ℕ
  pub read_only : Bool
  pub snapshot_version : ℕ
  pub identity : SnapshotIdentity

-- The checks of the identity in the constructor.
unfoldable pub invalid_initial : SnapshotIdentity → Bool
invalid_initial i =
    not (beq (is_empty i.snapshot_id) (i.generation == 0))
    || (is_empty i.snapshot_id && not (is_empty i.embedding_revision))
    || ltb 256 (len i.snapshot_id)
    || ltb 256 (len i.embedding_revision)

seen_before : ℕ → List ℕ → Bool
seen_before id [] = false
seen_before id (j ∷ js) = id == j || seen_before id js

-- The loop of validate_batch, with the IDs that it has inserted into `batch_ids`.
unfoldable pub validate_records : Machine → ℕ → List ℕ → List VectorRecord → Result (Unit {0})
unfolding seen_before
validate_records m expected batch_ids [] = ok tt
validate_records m expected batch_ids (v ∷ vs) = do
  throw_if (seen_before v.id batch_ids) duplicate_in_batch
  throw_if (not (length v.values == expected)) dimension_mismatch
  normalized ← normalize_l2 m v.values
  validate_records m expected (v.id ∷ batch_ids) vs

unfoldable pub validate_batch : Machine → ℕ → ℕ → List VectorRecord → Result (Unit {0})
unfolding validate_records
validate_batch m maximum expected vectors = do
  throw_if (ltb maximum (length vectors)) batch_too_large
  validate_records m expected [] vectors

-- `while (!lock.try_lock_for(...)) context.check();`: one observation for each failed attempt. A
-- context that is not enabled waits without looking.
unfoldable pub await_lock : SearchContext → List Observation → Result (Unit {0})
await_lock ctx [] = ok tt
await_lock ctx (o ∷ os) = do (if enabled ctx then check ctx o else ok tt); await_lock ctx os

module _ (index_type : VectorIndex) where
  open index_type use {Index, dimension, size}

  -- A snapshot holds an index: a pointer to none is a null snapshot here.
  pub record ServingSnapshot : Type 0 where
    pub index : Index
    pub version : ℕ
    pub identity : SnapshotIdentity

  -- The two ways to own an index, decided by `read_only_`.
  pub data Ownership : Type 0 where
    writable : Index → Ownership
    serving : ServingSnapshot → Ownership

  pub record VectorStore : Type 0 where
    pub ownership : Ownership
    pub maximum_batch_size : ℕ
    pub successful_queries : ℕ
    pub failed_queries : ℕ
    pub inserted_vectors : ℕ

  -- The snapshot that publish_snapshot installs after `previous`.
  unfoldable pub next_snapshot :
      Option ServingSnapshot → Index → SnapshotIdentity → Result ServingSnapshot
  next_snapshot none index identity =
      ok (record { index = index; version = 1; identity = identity })
  next_snapshot (some previous) index identity = do
    throw_if (not (previous.identity.generation == 0)) snapshot_mismatch
    throw_if (previous.version == uint64_max) version_exhausted
    ok (record { index = index; version = previous.version + 1; identity = identity })

  -- The constructor.
  unfoldable pub create : Option Index → ℕ → Bool → SnapshotIdentity → Result VectorStore
  unfolding invalid_initial next_snapshot
  create none maximum read_only identity = err missing_index
  create (some index) maximum read_only identity = do
    throw_if (maximum == 0) zero_batch_size
    throw_if (invalid_initial identity) invalid_identity
    owned ←
        (if read_only
          then (do snapshot ← next_snapshot none index identity; ok (serving snapshot))
          else (do
            throw_if
                (not (is_empty identity.snapshot_id)
                  || not (identity.generation == 0)
                  || not (is_empty identity.embedding_revision))
                identity_needs_read_only
            ok (writable index)))
    ok (record {
      ownership = owned;
      maximum_batch_size = maximum;
      successful_queries = 0;
      failed_queries = 0;
      inserted_vectors = 0;
    })

  -- `writable_index_->add`, and the counter where it returns.
  unfoldable pub add_to : VectorStore → Index → ℕ → List ℕ → VectorStore × Result (Unit {0})
  add_to s index id vector =
      let (index', result) = index_type.add index id vector in
      elim result [
        | err e ↦ (record s { ownership = writable index' }, err e)
        | ok u ↦ (
          record s { ownership = writable index'; inserted_vectors = increment s.inserted_vectors },
          ok tt,
        )
      ]

  unfoldable pub add : VectorStore → ℕ → List ℕ → VectorStore × Result (Unit {0})
  unfolding add_to
  add s id vector = elim s.ownership [
    | serving snapshot ↦ (s, err read_only_store)
    | writable index ↦ add_to s index id vector
  ]

  -- The loop of add_batch, which an exception leaves half done.
  unfoldable pub add_all : VectorStore → List VectorRecord → VectorStore × Result (Unit {0})
  unfolding add
  add_all s [] = (s, ok tt)
  add_all s (v ∷ vs) =
      let (s', result) = add s v.id v.values in
      let rest = add_all s' vs in elim result [ err e ↦ (s', err e) | ok u ↦ rest ]

  unfoldable pub add_batch :
      Machine → VectorStore → List VectorRecord → VectorStore × Result (Unit {0})
  unfolding validate_batch add_all
  add_batch m s vectors = elim s.ownership [
    | serving snapshot ↦ (s, err read_only_store)
    | writable index ↦ elim (validate_batch m s.maximum_batch_size (dimension index) vectors) [
      | err e ↦ (s, err e)
      | ok u ↦ add_all s vectors
    ]
  ]

  unfoldable pub replace_index : VectorStore → Option Index → Result VectorStore
  unfolding next_snapshot
  replace_index s index = elim s.ownership [
    | writable w ↦ err needs_read_only
    | serving current ↦ elim index [
      | none ↦ err missing_index
      | some i ↦ do
        snapshot ← next_snapshot (some current) i no_identity
        ok (record s { ownership = serving snapshot })
    ]
  ]

  unfoldable pub serving_snapshot : VectorStore → Result ServingSnapshot
  serving_snapshot s = elim s.ownership [
    | writable w ↦ err read_only_store
    | serving current ↦ ok current
  ]

  unfoldable pub prepare_snapshot :
      VectorStore → Option Index → SnapshotIdentity → Result ServingSnapshot
  prepare_snapshot s index identity = elim s.ownership [
    | writable w ↦ err read_only_store
    | serving current ↦ elim index [
      | none ↦ err invalid_identity
      | some i ↦ do
        throw_if
            (is_empty identity.snapshot_id
              || identity.generation == 0
              || ltb 256 (len identity.snapshot_id)
              || ltb 256 (len identity.embedding_revision))
            invalid_identity
        throw_if (leb identity.generation current.identity.generation) snapshot_mismatch
        throw_if (current.version == uint64_max) version_exhausted
        ok (record { index = i; version = current.version + 1; identity = identity })
    ]
  ]

  -- `version + 1` is taken in 64 bits.
  unfoldable pub activate_snapshot : VectorStore → Option ServingSnapshot → Result VectorStore
  activate_snapshot s snapshot = elim s.ownership [
    | writable w ↦ err read_only_store
    | serving current ↦ elim snapshot [
      | none ↦ err invalid_identity
      | some next ↦ do
        throw_if (is_empty next.identity.snapshot_id || next.identity.generation == 0)
            invalid_identity
        throw_if
            (leb next.identity.generation current.identity.generation
              || not (next.version == increment current.version))
            snapshot_mismatch
        ok (record s { ownership = serving next })
    ]
  ]

  -- The `try` block behind its first two checks, on the snapshot or the index that is acquired;
  -- `Query` has the acquisition as a step of its own.
  unfoldable pub search_owned :
      Ownership → List ℕ → ℕ → SearchContext → Encounter → Result SnapshotSearchResult
  unfolding await_lock
  search_owned (serving snapshot) query k ctx e = do
    throw_if
        (not (is_empty ctx.expected_snapshot_id)
          && not (str_eq ctx.expected_snapshot_id snapshot.identity.snapshot_id))
        snapshot_mismatch
    results ← index_type.search ctx e.during snapshot.index query k
    ok (record {
      neighbors = results;
      snapshot_version = snapshot.version;
      identity = snapshot.identity;
    })
  search_owned (writable index) query k ctx e = do
    throw_if (not (is_empty ctx.expected_snapshot_id)) snapshot_mismatch
    await_lock ctx e.waiting
    check ctx e.locked
    results ← index_type.search ctx e.during index query k
    ok (record { neighbors = results; snapshot_version = 0; identity = no_identity })

  unfoldable pub search_result :
      VectorStore → List ℕ → ℕ → SearchContext → Encounter → Result SnapshotSearchResult
  unfolding search_owned validate check
  search_result s query k ctx e = do
    validate ctx
    check ctx e.before
    result ← search_owned s.ownership query k ctx e
    check ctx e.after
    ok result

  -- The counters, and the `catch` block.
  unfoldable pub search :
      VectorStore
      → List ℕ
      → ℕ
      → SearchContext
      → Encounter
      → VectorStore × Result SnapshotSearchResult
  unfolding search_result
  search s query k ctx e = elim (search_result s query k ctx e) [
    | ok r ↦ (record s { successful_queries = increment s.successful_queries }, ok r)
    | err x ↦ (record s { failed_queries = increment s.failed_queries }, err x)
  ]

  observe : VectorStore → Index → Bool → ℕ → SnapshotIdentity → StoreStats
  observe s index read_only version identity = record {
    index_size = size index;
    index_dimension = dimension index;
    successful = s.successful_queries;
    failed = s.failed_queries;
    inserted = s.inserted_vectors;
    read_only = read_only;
    snapshot_version = version;
    identity = identity;
  }

  unfoldable pub stats : VectorStore → StoreStats
  unfolding observe
  stats s = elim s.ownership [
    | serving snapshot ↦ observe s snapshot.index true snapshot.version snapshot.identity
    | writable index ↦ observe s index false 0 no_identity
  ]

  unfoldable pub dimension_of : VectorStore → ℕ
  dimension_of s = elim s.ownership [
    | serving snapshot ↦ dimension snapshot.index
    | writable index ↦ dimension index
  ]

  -- Whether the shared lock was free is an argument.
  unfoldable pub try_size : VectorStore → Bool → Option ℕ
  try_size s free = elim s.ownership [
    | serving snapshot ↦ some (size snapshot.index)
    | writable index ↦ if free then some (size index) else none
  ]
