-- ===== src/SnapshotPublication/Activate.antt =====
-- SnapshotPublication::activate (src/service/snapshot_publication.cpp), in the parts that its early
-- returns make.
use Prim.Native.String.{String}
use text.Mathlib.Text.{◌==◌ as str_eq}
use fast_vector.Prelude.{
  ℕ, ◌%◌, ◌^◌, Bool, not, ◌&&◌, ◌||◌, Option, none, some, ltb, ◌==◌, if◌then◌else◌, Result, ok, err,
  publication_disabled, snapshot_mismatch,
}
use fast_vector.VectorIndex.{VectorIndex}
use fast_vector.VectorStore.{SnapshotIdentity, ServingSnapshot, serving_snapshot, activate_snapshot}
use fast_vector.SnapshotPublication.Manifest.{
  PublicationState, activation_rejected, already_active, activated, is_ready, kept_id,
}
use fast_vector.SnapshotPublication.{SnapshotPublication}

module _ (index_type : VectorIndex) where
  -- The lambda `reject` of activate.
  unfoldable pub refused :
      SnapshotPublication index_type
      → String
      → ℕ
      → SnapshotPublication index_type × Result (Unit {0})
  unfolding kept_id
  refused p snapshot_id generation = (
    record p {
      status = record (p.status) {
        last_result = activation_rejected;
        last_attempt = some (record {
          snapshot_id = kept_id snapshot_id;
          generation = generation;
          embedding_revision = "";
        });
        activation_us = 0;
      };
    },
    err snapshot_mismatch,
  )

  abbrev pub is_named : ServingSnapshot index_type → String → ℕ → Bool
  is_named s snapshot_id generation =
      str_eq s.identity.snapshot_id snapshot_id && s.identity.generation == generation

  -- activate_snapshot and what follows it; it throws before it changes anything.
  unfoldable pub swap_in :
      SnapshotPublication index_type
      → ServingSnapshot index_type
      → ℕ
      → SnapshotPublication index_type × Result (Unit {0})
  swap_in p next took = elim (activate_snapshot index_type p.store (some next)) [
    | err e ↦ (p, err e)
    | ok store ↦ (
      record p {
        store = store;
        candidate = none;
        status = record (p.status) {
          activation_us = took % 2 ^ 64;
          last_attempt = p.status.candidate;
          candidate = none;
          state = PublicationState.serving;
          last_result = activated;
        };
      },
      ok tt,
    )
  ]

  unfoldable pub already :
      SnapshotPublication index_type
      → SnapshotIdentity
      → SnapshotPublication index_type × Result (Unit {0})
  already p identity = (
    record p {
      status = record (p.status) {
        state = PublicationState.serving;
        last_result = already_active;
        activation_us = 0;
        last_attempt = some identity;
      };
    },
    ok tt,
  )

  -- The candidate is activated if it is ready and has the given name.
  unfoldable pub try_candidate :
      SnapshotPublication index_type
      → Option (ServingSnapshot index_type)
      → String
      → ℕ
      → ℕ
      → SnapshotPublication index_type × Result (Unit {0})
  unfolding refused swap_in
  try_candidate p none snapshot_id generation took = refused p snapshot_id generation
  try_candidate p (some next) snapshot_id generation took =
      if not (is_ready p.status.state) || not (is_named next snapshot_id generation)
      then refused p snapshot_id generation
      else swap_in p next took

  unfoldable pub activate_managed :
      SnapshotPublication index_type
      → ServingSnapshot index_type
      → String
      → ℕ
      → ℕ
      → SnapshotPublication index_type × Result (Unit {0})
  unfolding try_candidate already refused
  activate_managed p old snapshot_id generation took =
      if ltb generation p.status.highest_generation
      then refused p snapshot_id generation
      else if is_named old snapshot_id generation
      then already p old.identity
      else try_candidate p p.candidate snapshot_id generation took

  -- `took` is the microseconds of the activation.
  unfoldable pub activate :
      SnapshotPublication index_type
      → String
      → ℕ
      → ℕ
      → SnapshotPublication index_type × Result (Unit {0})
  unfolding activate_managed
  activate p snapshot_id generation took =
      if not p.config.enabled
      then (p, err publication_disabled)
      else elim (serving_snapshot index_type p.store) [
        | err e ↦ (p, err e)
        | ok old ↦ activate_managed p old snapshot_id generation took
      ]
