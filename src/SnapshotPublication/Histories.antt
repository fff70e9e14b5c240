-- ===== src/SnapshotPublication/Histories.antt =====
-- Histories of the publication service: what holds after any of them.
use Prim.Native.String.{String}
use fast_vector.Prelude.{
  ℕ, ◌≤◌, ◌<◌, ◌≡◌, inl, refl, sym, ap, true, Option, none, some, ok, arith, ◌∙◌,
}
use mathlib.Core.Path.{subst}
use fast_vector.VectorIndex.{VectorIndex}
use fast_vector.VectorStore.{
  SnapshotIdentity, ServingSnapshot, Ownership, VectorStore, replace_index, uint64_max,
}
use fast_vector.SnapshotPublication.Manifest.{
  PublicationState, PublicationConfig, Libraries, is_ready,
}
use fast_vector.SnapshotPublication.{
  SnapshotPublication, Loaders, create, create_over, initial_status, served_generation,
}
use fast_vector.SnapshotPublication.Activate.{activate, swap_in, try_candidate, activate_managed}
use fast_vector.SnapshotPublication.Trace.{
  System, fresh, Step, Reach, begins, starts, loads, finishes, fails, rejects, activates, queries,
  replaces, here, next,
}
use fast_vector.SnapshotPublication.Invariant.{IsVerified, IsCandidate, Slot}
use fast_vector.SnapshotPublication.Slots.{Valid, Slot-ready}
use fast_vector.SnapshotPublication.Steps.{
  begin-IsValid, start-IsValid, load-IsValid, finish-IsValid, fail-IsValid, reject-IsValid,
  search_kept,
}
use fast_vector.SnapshotPublication.Activation.{
  activate-IsValid, served_now, managed, swap_in-swapped, swapped, generation_of,
}
use text.Mathlib.TextPositions.{eq_refl}

module _ (index_type : VectorIndex) (l : Libraries) (loaders : Loaders index_type) (name : String)
    (limit : ℕ) where
  -- A managed snapshot is not replaced behind the service's back.
  replace-refused :
      (s : VectorStore index_type) (c : ServingSnapshot index_type) (i : Option (index_type.Index))
      {t : VectorStore index_type}
      → s.ownership ≡ Ownership.serving c
      → 0 < c.identity.generation
      → replace_index index_type s i ≡ ok t
      → ⊥
  unfolding replace_index
  replace-refused s c none e m h = ground arith
  replace-refused s c (some i) e m h = ground arith

  -- One step, whatever it is.
  Step-IsValid :
      (first c : ServingSnapshot index_type) (y z : System index_type)
      → Valid index_type l loaders name limit first c y
      → Step index_type l loaders y z
      → (d : ServingSnapshot index_type) × Valid index_type l loaders name limit first d z
        × (c.identity.generation ≤ d.identity.generation)
  Step-IsValid first c y z v (begins m generation now h e) = (
    c,
    rw e (begin-IsValid index_type l loaders name limit first c y m generation now v h),
    omega arith,
  )
  Step-IsValid first c y z v (starts token h e) =
      (c, rw e (start-IsValid index_type l loaders name limit first c y token v h), omega arith)
  Step-IsValid first c y z v (loads i t file g h e) =
      (c, rw e (load-IsValid index_type l loaders name limit first c y i t file v g h), omega arith)
  Step-IsValid first c y z v (finishes i d now g h e) = (
    c,
    rw e (finish-IsValid index_type l loaders name limit first c y i d now v g h),
    omega arith,
  )
  Step-IsValid first c y z v (fails token now e) =
      (c, rw e (fail-IsValid index_type l loaders name limit first c y token now v), omega arith)
  Step-IsValid first c y z v (rejects m generation e) = (
    c,
    rw e (reject-IsValid index_type l loaders name limit first c y m generation v),
    omega arith,
  )
  Step-IsValid first c y z v (activates snapshot_id generation took e) =
      subst
        (λ (w : System index_type).
          (d : ServingSnapshot index_type) × Valid index_type l loaders name limit first d w
          × (c.identity.generation ≤ d.identity.generation))
        (sym e)
        (activate-IsValid index_type l loaders name limit first c y snapshot_id generation took v)
  Step-IsValid first c y z v (queries query k ctx enc e) = (
    c,
    rw e (search_kept index_type l loaders name limit first c y query k ctx enc v),
    omega arith,
  )
  Step-IsValid first c y z v (replaces i h e) =
      absurd (replace-refused y.publication.store c i v.owned v.managed h)

  -- After any history from a valid state the slot is valid: a ready candidate was loaded from a file that its manifest describes and can be activated, and so was whatever is served, unless it was served at the start; the served generation never goes back.
  pub Reach-IsValid :
      (first c : ServingSnapshot index_type) (y z : System index_type)
      → Valid index_type l loaders name limit first c y
      → Reach index_type l loaders y z
      → (d : ServingSnapshot index_type) × Valid index_type l loaders name limit first d z
        × (c.identity.generation ≤ d.identity.generation)
  Reach-IsValid first c y z v here = (c, v, omega arith)
  Reach-IsValid first c y z v (next {z = w} r st) =
      let (d, u, g) = Reach-IsValid first c y w v r in
      let (d', u', g') = Step-IsValid first d w z u st in (d', u', omega arith)

  Slot-start :
      (c : ServingSnapshot index_type) (p : SnapshotPublication index_type)
      (state : PublicationState) (o : Option (ServingSnapshot index_type))
      → state ≡ PublicationState.serving
      → o ≡ none
      → Slot index_type l loaders name limit c p state o
  Slot-start c p state o e f =
      subst (λ (st : PublicationState). Slot index_type l loaders name limit c p st o) (sym e)
        (subst
          (λ (x : Option (ServingSnapshot index_type)).
            Slot index_type l loaders name limit c p PublicationState.serving x)
          (sym f) tt)

  create-IsValid :
      (s : VectorStore index_type) (c : ServingSnapshot index_type) (config : PublicationConfig)
      {p : SnapshotPublication index_type}
      → s.ownership ≡ Ownership.serving c
      → c.version ≤ uint64_max
      → config.enabled ≡ true
      → config.maximum_file_bytes ≡ limit
      → create index_type (some s) name config ≡ ok p
      → Valid index_type l loaders name limit c c (fresh index_type p)
  unfolding create create_over initial_status
  create-IsValid s c config {p} owned fits on same h =
      let e = served_now index_type l loaders name limit s c owned in
      let at : served_generation index_type s ≡ some c.identity.generation = ground arith in
      let managed : 0 < c.identity.generation = ground arith in
      record {
        enabled = ground arith;
        same_name = ground arith;
        same_limit = ground arith;
        owned = ground arith;
        managed = managed;
        fits = fits;
        served = ground arith;
        known = inl refl;
        slot = Slot-start c p p.status.state p.candidate (ground arith) (ground arith);
        tickets = tt;
        loads = tt;
      }

  -- After any history of a new publication service, interrupted completions, failures, rejections,
  -- queries and attempts to replace the index included, a snapshot is served that was served at
  -- the start or was loaded from a file that its manifest describes; the slot has a candidate
  -- exactly while one is ready, and then it is verified, newer than what is served and next in
  -- version; the served generation has not gone back. The service is enabled over a read-only
  -- store, its version counter is in its range.
  pub history-IsValid :
      (s : VectorStore index_type) (c : ServingSnapshot index_type) (config : PublicationConfig)
      (p : SnapshotPublication index_type) (z : System index_type)
      → s.ownership ≡ Ownership.serving c
      → c.version ≤ uint64_max
      → config.enabled ≡ true
      → config.maximum_file_bytes ≡ limit
      → create index_type (some s) name config ≡ ok p
      → Reach index_type l loaders (fresh index_type p) z
      → (d : ServingSnapshot index_type) × Valid index_type l loaders name limit c d z
        × (c.identity.generation ≤ d.identity.generation)
  history-IsValid s c config p z owned fits on same created r =
      Reach-IsValid c c (fresh index_type p) z
        (create-IsValid s c config owned fits on same created) r

  pub highest_named :
      (c n : ServingSnapshot index_type) (p : SnapshotPublication index_type)
      → IsCandidate index_type l loaders name limit c n p
      → p.status.highest_generation ≡ n.identity.generation
  highest_named c n p k = omega (
    arith,
    k.ahead.highest,
    ap (λ (z : SnapshotIdentity). z.generation) k.named,
    generation_of index_type l loaders name limit p.manifest p.generation,
  )

  activate_candidate :
      (c n : ServingSnapshot index_type) (p : SnapshotPublication index_type) (took : ℕ)
      → p.candidate ≡ some n
      → is_ready p.status.state ≡ true
      → IsCandidate index_type l loaders name limit c n p
      → activate_managed index_type p c n.identity.snapshot_id n.identity.generation took
        ≡ swap_in index_type p n took
  unfolding activate_managed try_candidate
  activate_candidate c n p took e ready k =
      ground (arith, highest_named c n p k, k.succeeds.newer, eq_refl n.identity.snapshot_id)

  -- Whenever a history of a new publication service has come to a ready candidate, activating it
  -- by its ID and generation succeeds: the verified candidate is served, the slot is free again,
  -- and the attempt is recorded. The service is enabled over a read-only store, its version
  -- counter is in its range.
  pub ready_activates :
      (s : VectorStore index_type) (c : ServingSnapshot index_type) (config : PublicationConfig)
      (p : SnapshotPublication index_type) (z : System index_type) (took : ℕ)
      → s.ownership ≡ Ownership.serving c
      → c.version ≤ uint64_max
      → config.enabled ≡ true
      → config.maximum_file_bytes ≡ limit
      → create index_type (some s) name config ≡ ok p
      → Reach index_type l loaders (fresh index_type p) z
      → is_ready z.publication.status.state ≡ true
      → (n : ServingSnapshot index_type) × (z.publication.candidate ≡ some n)
        × IsVerified index_type l loaders name limit n
        × (activate index_type z.publication n.identity.snapshot_id n.identity.generation took
            ≡ (swapped index_type l loaders name limit z.publication n took, ok tt))
  ready_activates s c config p z took owned fits on same created r ready =
      let (d, v, g) = history-IsValid s c config p z owned fits on same created r in
      let q = z.publication in
      let (n, e, k) =
        Slot-ready index_type l loaders name limit d q q.status.state q.candidate ready v.slot in
      (
        n,
        e,
        k.verified,
        managed index_type l loaders name limit q d n.identity.snapshot_id n.identity.generation
              took v.enabled v.owned
            ∙ activate_candidate d n q took e ready k
            ∙ swap_in-swapped index_type l loaders name limit q d n took v.owned v.fits k.succeeds,
      )
