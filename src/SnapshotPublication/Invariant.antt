-- ===== src/SnapshotPublication/Invariant.antt =====
-- The invariant of the publication slot and of the completions that are under way.
use Prim.Native.String.{String}
use fast_vector.Prelude.{
  ℕ, ◌+◌, ◌≤◌, ◌<◌, ◌≡◌, ◌≢◌, ◌⊎◌, true, false, List, Option, none, some, All, ok, arith,
}
use fast_vector.VectorIndex.{VectorIndex}
use fast_vector.VectorStore.{
  ServingSnapshot, Ownership, VectorStore, uint64_max, is_empty, serving_snapshot,
}
use fast_vector.SnapshotPublication.Manifest.{
  SnapshotManifest, PublicationState, Libraries, snapshot_identity, is_preparing, validate_manifest,
}
use fast_vector.SnapshotPublication.{
  SnapshotPublication, Loaders, begin, begun, load_verified_snapshot,
}
use fast_vector.SnapshotPublication.Trace.{Ticket, Loaded, System}

module _ (index_type : VectorIndex) (l : Libraries) (loaders : Loaders index_type) (name : String)
    (limit : ℕ) where
  -- The index was loaded from a file that the manifest of the identity describes.
  abbrev pub IsVerified : ServingSnapshot index_type → Type 0
  IsVerified n =
      (file : Option (List ℕ)) × (m : SnapshotManifest) × (generation : ℕ) × (load_verified_snapshot
          index_type l loaders file m name limit
        ≡ ok n.index)
      × (n.identity ≡ snapshot_identity m generation)

  -- `n` can be activated over `c`.
  pub record Succeeds (c n : ServingSnapshot index_type) : Type 0 where
    pub next_version : n.version ≡ c.version + 1
    pub room : c.version ≢ uint64_max
    pub newer : c.identity.generation < n.identity.generation
    pub has_id : is_empty n.identity.snapshot_id ≡ false

  -- The generation under preparation is the highest one, and newer than what is served.
  pub record IsAhead (c : ServingSnapshot index_type) (p : SnapshotPublication index_type)
      : Type 0 where
    pub newer : c.identity.generation < p.generation
    pub highest : p.status.highest_generation ≡ p.generation

  -- The candidate of the slot.
  pub record IsCandidate (c n : ServingSnapshot index_type) (p : SnapshotPublication index_type)
      : Type 0 where
    pub ahead : IsAhead c p
    pub succeeds : Succeeds c n
    pub named : n.identity ≡ snapshot_identity p.manifest p.generation
    pub verified : IsVerified n
    pub announced : p.status.candidate ≡ some n.identity

  -- What each state says of the slot.
  abbrev pub Slot :
      ServingSnapshot index_type
      → SnapshotPublication index_type
      → PublicationState
      → Option (ServingSnapshot index_type)
      → Type 0
  Slot c p PublicationState.serving none = Unit {0}
  Slot c p PublicationState.serving (some n) = ⊥
  Slot c p PublicationState.preparing none =
      IsAhead c p × (p.status.candidate ≡ some (snapshot_identity p.manifest p.generation))
  Slot c p PublicationState.preparing (some n) = ⊥
  Slot c p PublicationState.ready_to_activate none = ⊥
  Slot c p PublicationState.ready_to_activate (some n) = IsCandidate c n p
  Slot c p PublicationState.failed none = Unit {0}
  Slot c p PublicationState.failed (some n) = ⊥

  -- A completion with the running token has copied what is being prepared.
  pub record FitsTicket (p : SnapshotPublication index_type) (t : Ticket index_type) : Type 0 where
    pub issued : t.token ≤ p.token
    pub same_manifest : t.token ≡ p.token → t.manifest ≡ p.manifest
    pub same_generation : t.token ≡ p.token → t.generation ≡ p.generation

  pub record FitsLoaded (c : ServingSnapshot index_type) (p : SnapshotPublication index_type)
      (d : Loaded index_type) : Type 0 where
    pub ticket : FitsTicket p d.ticket
    pub verified : IsVerified d.snapshot
    pub named : d.snapshot.identity ≡ snapshot_identity d.ticket.manifest d.ticket.generation
    pub succeeds :
        d.ticket.token ≡ p.token → is_preparing p.status.state ≡ true → Succeeds c d.snapshot

  -- `first` was there from the start, `c` is served now.
  pub record IsValid (first c : ServingSnapshot index_type) (y : System index_type) : Type 0 where
    pub enabled : y.publication.config.enabled ≡ true
    pub same_name : y.publication.index_name ≡ name
    pub same_limit : y.publication.config.maximum_file_bytes ≡ limit
    pub owned : y.publication.store.ownership ≡ Ownership.serving c
    pub managed : 0 < c.identity.generation
    pub fits : c.version ≤ uint64_max
    pub served : c.identity.generation ≤ y.publication.status.highest_generation
    pub known : (c ≡ first) ⊎ IsVerified c
    pub slot : Slot c y.publication y.publication.status.state y.publication.candidate
    pub tickets : All (FitsTicket y.publication) y.in_flight
    pub loads : All (FitsLoaded c y.publication) y.loaded

  served_now :
      (s : VectorStore index_type) (c : ServingSnapshot index_type)
      → s.ownership ≡ Ownership.serving c
      → serving_snapshot index_type s ≡ ok c
  unfolding serving_snapshot
  served_now s c e = rw e

  -- What an admitted begin has checked.
  pub begin-eq-ok :
      (p q : SnapshotPublication index_type) (c : ServingSnapshot index_type) (m : SnapshotManifest)
      (generation now token : ℕ)
      → p.store.ownership ≡ Ownership.serving c
      → begin index_type l p m generation now ≡ ok (q, token)
      → (q ≡ begun index_type p m generation now)
        × (token ≡ p.token + 1)
        × (is_preparing p.status.state ≡ false)
        × (c.identity.generation < generation)
        × (p.status.highest_generation ≤ generation)
        × (validate_manifest l m p.index_name p.config.maximum_file_bytes ≡ ok tt)
  unfolding begin
  begin-eq-ok p q c m generation now token e h = ground (arith, served_now p.store c e)
