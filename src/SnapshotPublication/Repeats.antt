-- ===== src/SnapshotPublication/Repeats.antt =====
-- An activation that is repeated.
use Prim.Native.String.{String}
use fast_vector.Prelude.{ℕ, ◌≤◌, ◌≡◌, refl, sym, true, some, ok, arith, Result, ◌∙◌, some-injective}
use mathlib.Core.Path.{subst}
use fast_vector.VectorIndex.{VectorIndex}
use fast_vector.VectorStore.{ServingSnapshot, Ownership, VectorStore, uint64_max}
use fast_vector.SnapshotPublication.Manifest.{
  PublicationState, already_active, PublicationConfig, Libraries,
}
use fast_vector.SnapshotPublication.{SnapshotPublication, Loaders, create}
use fast_vector.SnapshotPublication.Activate.{
  activate, refused, already, activate_managed, is_named,
}
use fast_vector.SnapshotPublication.Trace.{System, fresh, Reach}
use fast_vector.SnapshotPublication.Invariant.{IsCandidate}
use fast_vector.SnapshotPublication.Slots.{Valid, Slot-ready}
use fast_vector.SnapshotPublication.Activation.{
  managed, swap_in-swapped, swapped, activate-Outcome, Outcome, refuses, repeats, swaps,
}
use fast_vector.SnapshotPublication.Histories.{history-IsValid, highest_named}

module _ (index_type : VectorIndex) (l : Libraries) (loaders : Loaders index_type) (name : String)
    (limit : ℕ) where
  repeat_served :
      (p : SnapshotPublication index_type) (c : ServingSnapshot index_type) (snapshot_id : String)
      (generation took : ℕ)
      → is_named index_type c snapshot_id generation ≡ true
      → p.status.highest_generation ≤ generation
      → activate_managed index_type p c snapshot_id generation took
        ≡ already index_type p c.identity
  unfolding activate_managed
  repeat_served p c snapshot_id generation took same high = ground arith

  again :
      (first c : ServingSnapshot index_type) (y : System index_type) (snapshot_id : String)
      (generation took later : ℕ) (q : SnapshotPublication index_type)
      (r : SnapshotPublication index_type × Result (Unit {0}))
      → Valid index_type l loaders name limit first c y
      → r ≡ (q, ok tt)
      → Outcome index_type l loaders name limit y.publication c snapshot_id generation took r
      → (d : ServingSnapshot index_type) × (q.store.ownership ≡ Ownership.serving d)
        × (q.config.enabled ≡ true)
        × (is_named index_type d snapshot_id generation ≡ true)
        × (q.status.highest_generation ≤ generation)
  unfolding refused already
  again first c y snapshot_id generation took later q r v e (refuses f) = cc
  again first c y snapshot_id generation took later q r v e (repeats same high f) =
      let g : q ≡ (already index_type y.publication c.identity).0 = cc in
      (c, rw g v.owned, rw g v.enabled, same, rw g high)
  again first c y snapshot_id generation took later q r v e (swaps n h ready named f) =
      let p = y.publication in
      let (n', e', k) =
        Slot-ready index_type l loaders name limit c p p.status.state p.candidate ready v.slot in
      let k' =
        subst
          (λ (z : ServingSnapshot index_type). IsCandidate index_type l loaders name limit c z p)
          (some-injective (sym e' ∙ h)) k in
      let g : q ≡ swapped index_type l loaders name limit p n took =
        cc
          (swap_in-swapped index_type l loaders name limit p c n took v.owned v.fits k'.succeeds) in
      (
        n,
        rw g refl,
        rw g v.enabled,
        named,
        rw g (ground (arith, highest_named index_type l loaders name limit c n p k')),
      )

  -- Repeating an activation that has just succeeded succeeds too and leaves the store as it is; it
  -- is reported as already active. The service is enabled over a read-only store, its version
  -- counter is in its range, and the first activation came at the end of any history.
  pub activate_again :
      (s : VectorStore index_type) (c : ServingSnapshot index_type) (config : PublicationConfig)
      (p : SnapshotPublication index_type) (z : System index_type) (snapshot_id : String)
      (generation took later : ℕ) {q : SnapshotPublication index_type}
      → s.ownership ≡ Ownership.serving c
      → c.version ≤ uint64_max
      → config.enabled ≡ true
      → config.maximum_file_bytes ≡ limit
      → create index_type (some s) name config ≡ ok p
      → Reach index_type l loaders (fresh index_type p) z
      → activate index_type z.publication snapshot_id generation took ≡ (q, ok tt)
      → (q' : SnapshotPublication index_type) × (activate index_type q snapshot_id generation later
          ≡ (q', ok tt))
        × (q'.store ≡ q.store)
        × (q'.status.last_result ≡ already_active)
        × (q'.status.state ≡ PublicationState.serving)
  unfolding already
  activate_again s c config p z snapshot_id generation took later {q} owned fits on same created r
        e =
      let (d, v, g) =
        history-IsValid index_type l loaders name limit s c config p z owned fits on same created
          r in
      let (n, owned', on', named, high) = again c d z snapshot_id generation took later q _ v e (
        activate-Outcome index_type l loaders name limit z.publication d snapshot_id generation took
          v.enabled v.owned) in
      (
        (already index_type q n.identity).0,
        managed index_type l loaders name limit q n snapshot_id generation later on' owned'
            ∙ repeat_served q n snapshot_id generation later named high,
        refl,
        refl,
        refl,
      )
