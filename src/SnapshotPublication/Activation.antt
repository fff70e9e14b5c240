-- ===== src/SnapshotPublication/Activation.antt =====
-- Activation: what it does in each state of a valid slot, and that it keeps the invariant.
use Prim.Native.String.{String}
use fast_vector.Prelude.{
  ℕ, ◌≤◌, ◌≡◌, inl, inr, refl, sym, ap, true, Option, none, some, All-imp, ok, arith, Bool-cases,
  Result, not, ◌||◌, ltb, ◌∙◌, ◌%◌, ◌^◌,
}
use mathlib.Core.Path.{subst}
use fast_vector.VectorIndex.{VectorIndex}
use fast_vector.VectorStore.{
  SnapshotIdentity, ServingSnapshot, Ownership, VectorStore, uint64_max, activate_snapshot,
  serving_snapshot,
}
use fast_vector.SnapshotPublication.Manifest.{
  SnapshotManifest, PublicationState, activated, Libraries, snapshot_identity, is_ready,
}
use fast_vector.SnapshotPublication.{SnapshotPublication, Loaders}
use fast_vector.SnapshotPublication.Activate.{
  activate, refused, already, swap_in, try_candidate, activate_managed, is_named,
}
use fast_vector.SnapshotPublication.Trace.{System}
use fast_vector.SnapshotPublication.Invariant.{Succeeds, IsCandidate, Slot}
use fast_vector.SnapshotPublication.Slots.{Valid, keep, untouched, keep_slot, Slot-ready, Slot-idle}

module _ (index_type : VectorIndex) (l : Libraries) (loaders : Loaders index_type) (name : String)
    (limit : ℕ) where
  pub served_now :
      (s : VectorStore index_type) (c : ServingSnapshot index_type)
      → s.ownership ≡ Ownership.serving c
      → serving_snapshot index_type s ≡ ok c
  unfolding serving_snapshot
  served_now s c e = rw e

  -- What a call of activate on a managed slot comes to.
  pub data Outcome (p : SnapshotPublication index_type) (c : ServingSnapshot index_type)
      (snapshot_id : String) (generation took : ℕ)
      (r : SnapshotPublication index_type × Result (Unit {0})) : Type 0 where
    refuses :
        r ≡ refused index_type p snapshot_id generation → Outcome p c snapshot_id generation took r
    repeats :
        is_named index_type c snapshot_id generation ≡ true
        → p.status.highest_generation ≤ generation
        → r ≡ already index_type p c.identity
        → Outcome p c snapshot_id generation took r
    swaps :
        (n : ServingSnapshot index_type)
        → p.candidate ≡ some n
        → is_ready p.status.state ≡ true
        → is_named index_type n snapshot_id generation ≡ true
        → r ≡ swap_in index_type p n took
        → Outcome p c snapshot_id generation took r

  try_candidate-Outcome :
      (p : SnapshotPublication index_type) (c : ServingSnapshot index_type)
      (o : Option (ServingSnapshot index_type)) (snapshot_id : String) (generation took : ℕ)
      → p.candidate ≡ o
      → Outcome p c snapshot_id generation took
          (try_candidate index_type p o snapshot_id generation took)
  unfolding try_candidate
  try_candidate-Outcome p c none snapshot_id generation took e = refuses refl
  try_candidate-Outcome p c (some n) snapshot_id generation took e =
      elim (Bool-cases
        (not (is_ready p.status.state) || not (is_named index_type n snapshot_id generation))) [
          | inl bad ↦ rw bad (refuses refl)
          | inr good ↦ rw good (swaps n e (ground arith) (ground arith) refl)
        ]

  pub managed :
      (p : SnapshotPublication index_type) (c : ServingSnapshot index_type) (snapshot_id : String)
      (generation took : ℕ)
      → p.config.enabled ≡ true
      → p.store.ownership ≡ Ownership.serving c
      → activate index_type p snapshot_id generation took
        ≡ activate_managed index_type p c snapshot_id generation took
  unfolding activate
  managed p c snapshot_id generation took e owned = ground (arith, served_now p.store c owned)

  managed-Outcome :
      (p : SnapshotPublication index_type) (c : ServingSnapshot index_type) (snapshot_id : String)
      (generation took : ℕ)
      → Outcome p c snapshot_id generation took
          (activate_managed index_type p c snapshot_id generation took)
  unfolding activate_managed
  managed-Outcome p c snapshot_id generation took =
      elim (Bool-cases (ltb generation p.status.highest_generation)) [
        | inl old ↦ rw old (refuses refl)
        | inr recent ↦ elim (Bool-cases (is_named index_type c snapshot_id generation)) [
          | inl same ↦ rw (recent, same) (repeats same (ground arith) refl)
          | inr other ↦
              rw (recent, other)
                (try_candidate-Outcome p c p.candidate snapshot_id generation took refl)
        ]
      ]

  pub activate-Outcome :
      (p : SnapshotPublication index_type) (c : ServingSnapshot index_type) (snapshot_id : String)
      (generation took : ℕ)
      → p.config.enabled ≡ true
      → p.store.ownership ≡ Ownership.serving c
      → Outcome p c snapshot_id generation took (activate index_type p snapshot_id generation took)
  activate-Outcome p c snapshot_id generation took e owned =
      subst (Outcome p c snapshot_id generation took)
        (sym (managed p c snapshot_id generation took e owned))
        (managed-Outcome p c snapshot_id generation took)

  -- The store takes a snapshot that succeeds the served one.
  succeeded :
      (s : VectorStore index_type) (c n : ServingSnapshot index_type)
      → s.ownership ≡ Ownership.serving c
      → c.version ≤ uint64_max
      → Succeeds index_type l loaders name limit c n
      → activate_snapshot index_type s (some n) ≡ ok (record s { ownership = Ownership.serving n })
  unfolding activate_snapshot
  succeeded s c n owned fits f = ground (arith, f.next_version, f.room, f.newer, f.has_id)

  pub generation_of : (m : SnapshotManifest) (g : ℕ) → (snapshot_identity m g).generation ≡ g
  unfolding snapshot_identity
  generation_of m g = refl

  -- What an activation of the ready candidate leaves.
  abbrev pub swapped :
      SnapshotPublication index_type
      → ServingSnapshot index_type
      → ℕ
      → SnapshotPublication index_type
  swapped p n took = record p {
    store = record (p.store) { ownership = Ownership.serving n };
    candidate = none;
    status = record (p.status) {
      activation_us = took % 2 ^ 64;
      last_attempt = p.status.candidate;
      candidate = none;
      state = PublicationState.serving;
      last_result = activated;
    };
  }

  pub swap_in-swapped :
      (p : SnapshotPublication index_type) (c n : ServingSnapshot index_type) (took : ℕ)
      → p.store.ownership ≡ Ownership.serving c
      → c.version ≤ uint64_max
      → Succeeds index_type l loaders name limit c n
      → swap_in index_type p n took ≡ (swapped p n took, ok tt)
  unfolding swap_in
  swap_in-swapped p c n took owned fits f = rw (succeeded p.store c n owned fits f, swap_in)

  swapped-IsValid :
      (first c n : ServingSnapshot index_type) (y : System index_type) (took : ℕ)
      → Valid index_type l loaders name limit first c y
      → IsCandidate index_type l loaders name limit c n y.publication
      → Valid index_type l loaders name limit first n
          (record y { publication = swapped y.publication n took })
  swapped-IsValid first c n y took v k =
      let q = swapped y.publication n took in
      record {
        enabled = v.enabled;
        same_name = v.same_name;
        same_limit = v.same_limit;
        owned = refl;
        managed = omega (arith, k.succeeds.newer);
        fits = omega (arith, k.succeeds.next_version, k.succeeds.room, v.fits);
        served = omega (
          arith,
          k.ahead.highest,
          ap (λ (z : SnapshotIdentity). z.generation) k.named,
          generation_of y.publication.manifest y.publication.generation,
        );
        known = inr k.verified;
        slot = tt;
        tickets =
            All-imp _ _ y.in_flight
              (λ t f. record {
                issued = f.issued;
                same_manifest = f.same_manifest;
                same_generation = f.same_generation;
              })
              v.tickets;
        loads =
            All-imp _ _ y.loaded
              (λ d f. record {
                ticket = record {
                  issued = f.ticket.issued;
                  same_manifest = f.ticket.same_manifest;
                  same_generation = f.ticket.same_generation;
                };
                verified = f.verified;
                named = f.named;
                succeeds = λ a b. cc;
              })
              v.loads;
      }

  after :
      (first c : ServingSnapshot index_type) (y : System index_type) (snapshot_id : String)
      (generation took : ℕ) (r : SnapshotPublication index_type × Result (Unit {0}))
      → Valid index_type l loaders name limit first c y
      → Outcome y.publication c snapshot_id generation took r
      → (d : ServingSnapshot index_type) × Valid index_type l loaders name limit first d
          (record y { publication = r.0 })
        × (c.identity.generation ≤ d.identity.generation)
  unfolding refused already
  after first c y snapshot_id generation took r v (refuses e) = (
    c,
    rw e (
        keep_slot index_type l loaders name limit first c y _ v
          (untouched index_type l loaders name limit y.publication _ refl refl refl refl refl refl
            refl)
          refl refl refl),
    omega arith,
  )
  after first c y snapshot_id generation took r v (repeats same high e) =
      let p = y.publication in
      let served : p.status.highest_generation ≤ c.identity.generation = ground arith in
      let idle =
        Slot-idle index_type l loaders name limit c p p.status.state p.candidate served v.slot in
      (
        c,
        rw e (
            keep index_type l loaders name limit first c y _ v
              (untouched index_type l loaders name limit p _ refl refl refl refl refl refl refl)
              (λ h. cc)
              (subst
                (λ (o : Option (ServingSnapshot index_type)).
                  Slot index_type l loaders name limit c (already index_type p c.identity).0
                    PublicationState.serving o)
                (sym idle) tt)),
        omega arith,
      )
  after first c y snapshot_id generation took r v (swaps n e ready named f) =
      let p = y.publication in
      let (n', e', k) =
        Slot-ready index_type l loaders name limit c p p.status.state p.candidate ready v.slot in
      let same : n' ≡ n = cc in
      let k' =
        subst
          (λ (z : ServingSnapshot index_type). IsCandidate index_type l loaders name limit c z p)
          same k in
      let whole = f ∙ swap_in-swapped p c n took v.owned v.fits k'.succeeds in
      (n, rw whole (swapped-IsValid first c n y took v k'), omega (arith, k'.succeeds.newer))

  -- The snapshot that is served after a call of activate.
  pub activate-IsValid :
      (first c : ServingSnapshot index_type) (y : System index_type) (snapshot_id : String)
      (generation took : ℕ)
      → Valid index_type l loaders name limit first c y
      → (d : ServingSnapshot index_type) × Valid index_type l loaders name limit first d (record y {
        publication = (activate index_type y.publication snapshot_id generation took).0;
      })
        × (c.identity.generation ≤ d.identity.generation)
  activate-IsValid first c y snapshot_id generation took v =
      after first c y snapshot_id generation took _ v
        (activate-Outcome y.publication c snapshot_id generation took v.enabled v.owned)
