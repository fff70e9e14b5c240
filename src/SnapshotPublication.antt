-- ===== src/SnapshotPublication.antt =====
-- src/service/snapshot_publication.cpp and .h: the one slot in which a new snapshot is prepared,
-- verified and activated. Each method is one step, as its mutex makes it; complete, which loads its
-- file without the mutex, is three. Protobuf, OpenSSL and the clock are parameters.
pub mod Manifest
pub mod Activate
pub mod Trace
pub mod Invariant
pub mod Slots
pub mod Steps
pub mod Activation
pub mod Histories
pub mod Tokens
pub mod Repeats
pub mod Verified
use Prim.Native.Char.{code}
use Prim.Native.String.{String, len, ◌++◌ as str_append}
use text.Mathlib.Text.{◌==◌ as str_eq}
use fast_vector.Prelude.{
  ℕ, ◌+◌, ◌-◌, ◌/◌, ◌%◌, ◌^◌, Bool, true, false, not, ◌&&◌, ◌||◌, List, [], ◌∷◌, Option, none, some,
  length, take, drop, ltb, leb, ◌==◌, if◌then◌else◌, Result, ok, err, ◌>>=◌, ◌>>◌, throw_if, Error,
  publication_disabled, publication_busy, invalid_publication, unmanaged_startup, invalid_manifest,
  token_exhausted, file_unavailable, digest_failed, content_mismatch, format_version_mismatch,
  shape_mismatch, manifest_too_large, invalid_manifest_json, snapshot_mismatch,
}
use fast_vector.Bytes.{accumulate}
use fast_vector.FlatIndexIo.{list_eq}
use fast_vector.SearchExecutor.{microseconds}
use fast_vector.VectorIndex.{VectorIndex}
use fast_vector.VectorStore.{
  SnapshotIdentity, ServingSnapshot, VectorStore, StoreStats, serving_snapshot, prepare_snapshot,
  activate_snapshot, stats, uint64_max,
}
use fast_vector.SnapshotPublication.Manifest.{
  SnapshotManifest, no_manifest, PublicationState, LastResult, no_result, prepare_failed, rejected,
  activation_rejected, already_active, activated, PublicationStatus, PublicationConfig,
  is_preparing, is_ready, after_rejection, codes, canonical_id, elapsed, Libraries, kept_id,
  snapshot_identity, validate_manifest, sha256_file,
}

module _ (index_type : VectorIndex) where
  open index_type use {Index}

  -- load_flat_index and load_hnsw_index, with their kernel.
  pub record Loaders : Type 0 where
    pub load_flat_index : List ℕ → Result Index
    pub load_hnsw_index : List ℕ → Result Index

  -- `started` is the time of the last `begin`; a null candidate is `none`.
  pub record SnapshotPublication : Type 0 where
    pub store : VectorStore index_type
    pub index_name : String
    pub config : PublicationConfig
    pub status : PublicationStatus
    pub manifest : SnapshotManifest
    pub generation : ℕ
    pub token : ℕ
    pub started : ℕ
    pub candidate : Option (ServingSnapshot index_type)

  -- The checks of the file's content, from its size to the version in its header.
  unfoldable pub check_content : Libraries → List ℕ → SnapshotManifest → Result (Unit {0})
  unfolding sha256_file
  check_content l file m = do
    throw_if (not (length file == m.file_size)) content_mismatch
    digest ← sha256_file l file
    throw_if (not (list_eq digest (codes m.sha256))) content_mismatch
    throw_if
        (ltb (length file) 12 || not (accumulate 0 0 (take 4 (drop 8 file)) == m.format_version))
        format_version_mismatch

  -- The file stays as it is while it is read.
  unfoldable pub load_verified_snapshot :
      Libraries → Loaders → Option (List ℕ) → SnapshotManifest → String → ℕ → Result Index
  unfolding validate_manifest check_content
  load_verified_snapshot l loaders file m name maximum_bytes = do
    validate_manifest l m name maximum_bytes
    content ← elim file [ none ↦ err file_unavailable | some bytes ↦ ok bytes ]
    check_content l content m
    index ←
        (if str_eq name "flat"
          then loaders.load_flat_index content
          else loaders.load_hnsw_index content)
    throw_if
        (not (index_type.dimension index == m.dimension)
          || not (index_type.size index == m.vector_count))
        shape_mismatch
    ok index

  unfoldable pub initial_status : Bool → ℕ → PublicationStatus
  initial_status enabled highest = record {
    state = PublicationState.serving;
    current = none;
    candidate = none;
    highest_generation = highest;
    last_result = no_result;
    last_attempt = none;
    prepare_us = 0;
    activation_us = 0;
    peak_rss_kib = 0;
    enabled = enabled;
  }

  -- The generation that is served, if the store is read-only.
  abbrev pub served_generation : VectorStore index_type → Option ℕ
  served_generation s = elim (serving_snapshot index_type s) [
    | err e ↦ none
    | ok current ↦ some current.identity.generation
  ]

  -- The constructor, behind the null check.
  unfoldable pub create_over :
      VectorStore index_type → String → PublicationConfig → Result SnapshotPublication
  unfolding initial_status
  create_over store name config = elim (served_generation store) [
    | none ↦ do
      throw_if (config.maximum_file_bytes == 0 || config.enabled) invalid_publication
      ok (record {
        store = store;
        index_name = name;
        config = config;
        status = initial_status config.enabled 0;
        manifest = no_manifest;
        generation = 0;
        token = 0;
        started = 0;
        candidate = none;
      })
    | some generation ↦ do
      throw_if (config.maximum_file_bytes == 0) invalid_publication
      throw_if (config.enabled && generation == 0) unmanaged_startup
      ok (record {
        store = store;
        index_name = name;
        config = config;
        status = initial_status config.enabled generation;
        manifest = no_manifest;
        generation = 0;
        token = 0;
        started = 0;
        candidate = none;
      })
  ]

  unfoldable pub create :
      Option (VectorStore index_type) → String → PublicationConfig → Result SnapshotPublication
  unfolding create_over
  create none name config = err invalid_publication
  create (some store) name config = create_over store name config

  -- The state that an admitted `begin` leaves, at time `now`.
  unfoldable pub begun : SnapshotPublication → SnapshotManifest → ℕ → ℕ → SnapshotPublication
  begun p m generation now = record {
    store = p.store;
    index_name = p.index_name;
    config = p.config;
    status = record (p.status) {
      highest_generation = generation;
      candidate = some (snapshot_identity m generation);
      last_attempt = some (snapshot_identity m generation);
      state = PublicationState.preparing;
      last_result = LastResult.preparing;
      prepare_us = 0;
      activation_us = 0;
    };
    manifest = m;
    generation = generation;
    token = p.token + 1;
    started = now;
    candidate = none;
  }

  unfoldable pub begin :
      Libraries → SnapshotPublication → SnapshotManifest → ℕ → ℕ → Result (SnapshotPublication × ℕ)
  unfolding begun
  begin l p m generation now = do
    throw_if (not p.config.enabled) publication_disabled
    validate_manifest l m p.index_name p.config.maximum_file_bytes
    throw_if (is_preparing p.status.state) publication_busy
    current ← serving_snapshot index_type p.store
    throw_if
        (generation == 0
          || leb generation current.identity.generation
          || ltb generation p.status.highest_generation
          || (generation == p.status.highest_generation
              && not (list_eq (l.serialize m) (l.serialize p.manifest))))
        snapshot_mismatch
    throw_if (p.token == uint64_max) token_exhausted
    let next = begun p m generation now
    ok (next, next.token)

  -- Whether `token` is that of the running preparation.
  abbrev pub is_running : SnapshotPublication → ℕ → Bool
  is_running p token = token == p.token && is_preparing p.status.state

  -- The first critical section of complete.
  unfoldable pub start_completion : SnapshotPublication → ℕ → Result (SnapshotManifest × ℕ)
  start_completion p token = do
    throw_if (not (is_running p token)) snapshot_mismatch
    ok (p.manifest, p.generation)

  -- What complete does without the mutex, with the copies that it took.
  unfoldable pub prepare_candidate :
      Libraries
      → Loaders
      → SnapshotPublication
      → Option (List ℕ)
      → SnapshotManifest
      → ℕ
      → Result (ServingSnapshot index_type)
  unfolding load_verified_snapshot
  prepare_candidate l loaders p file m generation = do
    index ← load_verified_snapshot l loaders file m p.index_name p.config.maximum_file_bytes
    prepare_snapshot index_type p.store (some index) (snapshot_identity m generation)

  -- The second critical section.
  unfoldable pub finish_completion :
      SnapshotPublication
      → ℕ
      → SnapshotManifest
      → ℕ
      → ServingSnapshot index_type
      → ℕ
      → Result SnapshotPublication
  unfolding elapsed
  finish_completion p token m generation prepared now = do
    throw_if (not (is_running p token)) snapshot_mismatch
    ok (record p {
      candidate = some prepared;
      status = record (p.status) {
        prepare_us = elapsed p.started now;
        state = PublicationState.ready_to_activate;
        last_result = LastResult.ready_to_activate;
        last_attempt = some (snapshot_identity m generation);
      };
    })

  -- complete, where no other call comes between.
  unfoldable pub complete :
      Libraries
      → Loaders
      → SnapshotPublication
      → Option (List ℕ)
      → ℕ
      → ℕ
      → Result SnapshotPublication
  unfolding start_completion prepare_candidate finish_completion
  complete l loaders p file token now = do
    (m, generation) ← start_completion p token
    prepared ← prepare_candidate l loaders p file m generation
    finish_completion p token m generation prepared now

  unfoldable pub fail : SnapshotPublication → ℕ → ℕ → SnapshotPublication
  unfolding elapsed
  fail p token now = if not (is_running p token) then p else record p {
    candidate = none;
    status = record (p.status) {
      candidate = none;
      state = PublicationState.failed;
      last_result = prepare_failed;
      prepare_us = elapsed p.started now;
      last_attempt = some (snapshot_identity p.manifest p.generation);
    };
  }

  unfoldable pub reject : SnapshotPublication → SnapshotManifest → ℕ → SnapshotPublication
  unfolding kept_id
  reject p m generation = record p {
    status = record (p.status) {
      last_result = rejected;
      last_attempt = some (record {
        snapshot_id = kept_id m.snapshot_id;
        generation = generation;
        embedding_revision =
            (if leb (len m.embedding_revision) 256 then m.embedding_revision else "");
      });
      state = after_rejection p.status.state;
    };
  }

  -- The maximum resident size comes from getrusage, if that succeeds.
  unfoldable pub observe_status : SnapshotPublication → Option ℕ → PublicationStatus × StoreStats
  observe_status p peak = (
    record (p.status) {
      current = some (stats index_type p.store).identity;
      peak_rss_kib = elim peak [ none ↦ p.status.peak_rss_kib | some kib ↦ kib % 2 ^ 64 ];
    },
    stats index_type p.store,
  )
