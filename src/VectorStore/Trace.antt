-- ===== src/VectorStore/Trace.antt =====
-- Any history of a read-only store: publications by either way, queries, and refused insertions, in
-- any order.
use fast_vector.Prelude.{ℕ, ◌+◌, ◌≤◌, ◌≡◌, refl, ap, ◌∙◌, List, Option, none, some, ok, arith}
use fast_vector.Distance.{Machine}
use fast_vector.SearchContext.{SearchContext}
use fast_vector.VectorIndex.{VectorIndex}
use fast_vector.VectorStore.{
  SnapshotIdentity, ServingSnapshot, VectorStore, VectorRecord, serving, replace_index,
  prepare_snapshot, activate_snapshot, uint64_max, Encounter, search, add, add_batch, no_identity,
}
use fast_vector.VectorStore.Publication.{prepared_from, search-ownership}

module _ (index_type : VectorIndex) (m : Machine) where
  open index_type use {Index}

  -- A snapshot reaches `activate_snapshot` from `prepare_snapshot`, at whatever earlier state.
  pub data Step (s : VectorStore index_type) : VectorStore index_type → Type 0 where
    replaces :
        (i : Option Index) {t : VectorStore index_type}
        → replace_index index_type s i ≡ ok t
        → Step s t
    activates :
        (r : VectorStore index_type) (before : ServingSnapshot index_type) (i : Index)
        (identity : SnapshotIdentity) (planned : ServingSnapshot index_type)
        {t : VectorStore index_type}
        → r.ownership ≡ serving before
        → prepare_snapshot index_type r (some i) identity ≡ ok planned
        → activate_snapshot index_type s (some planned) ≡ ok t
        → Step s t
    queries :
        (query : List ℕ) (k : ℕ) (ctx : SearchContext) (e : Encounter) {t : VectorStore index_type}
        → t ≡ (search index_type s query k ctx e).0
        → Step s t
    adds :
        (id : ℕ) (vector : List ℕ) {t : VectorStore index_type}
        → t ≡ (add index_type s id vector).0
        → Step s t
    batches :
        (vectors : List VectorRecord) {t : VectorStore index_type}
        → t ≡ (add_batch index_type m s vectors).0
        → Step s t

  pub data Reach (s : VectorStore index_type) : VectorStore index_type → Type 0 where
    here : Reach s s
    next : {t u : VectorStore index_type} → Reach s t → Step t u → Reach s u

  -- From one snapshot to a later one: the version counts the publications, generations do not go
  -- back, and the version tells snapshots apart.
  pub record Follows (c d : ServingSnapshot index_type) : Type 0 where
    pub version_grows : c.version ≤ d.version
    pub fits : d.version ≤ uint64_max
    pub generation_grows : c.identity.generation ≤ d.identity.generation
    pub same : c.version ≡ d.version → c ≡ d

  abbrev Serves : VectorStore index_type → ServingSnapshot index_type → Type 0
  Serves s c = s.ownership ≡ serving c

  module _ (s t : VectorStore index_type) (c : ServingSnapshot index_type) (e : Serves s c)
      (fits : c.version ≤ uint64_max) where
    -- One publication.
    abbrev Published : Type 0
    Published =
        (d : ServingSnapshot index_type) × Serves t d
        × (d.version ≡ c.version + 1)
        × (d.version ≤ uint64_max)
        × (c.identity.generation ≤ d.identity.generation)

    replaced : (i : Option Index) → replace_index index_type s i ≡ ok t → Published
    unfolding replace_index
    replaced none h = ground arith
    replaced (some i) h =
        let d : ServingSnapshot index_type = record {
          index = i;
          version = c.version + 1;
          identity = no_identity;
        } in
        (d, ground arith, refl, ground arith, ground arith)

    activated :
        (r : VectorStore index_type) (before : ServingSnapshot index_type) (i : Index)
        (identity : SnapshotIdentity) (planned : ServingSnapshot index_type)
        → r.ownership ≡ serving before
        → prepare_snapshot index_type r (some i) identity ≡ ok planned
        → activate_snapshot index_type s (some planned) ≡ ok t
        → Published
    unfolding activate_snapshot
    activated r before i identity planned f prep h =
        let (same, room, newer, named) = prepared_from index_type r i identity before f prep in
        (planned, ground arith, ground arith, ground arith, ground arith)

  pub add_refused :
      (s : VectorStore index_type) (c : ServingSnapshot index_type) (id : ℕ) (vector : List ℕ)
      → Serves s c
      → (add index_type s id vector).0 ≡ s
  unfolding add
  add_refused s c id vector e = ground arith

  pub add_batch_refused :
      (s : VectorStore index_type) (c : ServingSnapshot index_type) (vectors : List VectorRecord)
      → Serves s c
      → (add_batch index_type m s vectors).0 ≡ s
  unfolding add_batch
  add_batch_refused s c vectors e = ground arith

  Follows-refl : (c : ServingSnapshot index_type) → c.version ≤ uint64_max → Follows c c
  Follows-refl c fits = record {
    version_grows = omega arith;
    fits = fits;
    generation_grows = omega arith;
    same = λ e. refl;
  }

  kept :
      (t : VectorStore index_type) (c : ServingSnapshot index_type)
      → c.version ≤ uint64_max
      → Serves t c
      → (d : ServingSnapshot index_type) × Serves t d × Follows c d
  kept t c fits e = (c, e, Follows-refl c fits)

  Published-Follows :
      (s t : VectorStore index_type) (c : ServingSnapshot index_type) (e : Serves s c)
      (fits : c.version ≤ uint64_max)
      → Published s t c e fits
      → (d : ServingSnapshot index_type) × Serves t d × Follows c d
  Published-Follows s t c e fits (d, f, version, fits', generation) = (
    d,
    f,
    record {
      version_grows = omega arith;
      fits = fits';
      generation_grows = generation;
      same = λ h. absurd (omega arith);
    },
  )

  Step-Follows :
      (s t : VectorStore index_type) (c : ServingSnapshot index_type)
      → Serves s c
      → c.version ≤ uint64_max
      → Step s t
      → (d : ServingSnapshot index_type) × Serves t d × Follows c d
  Step-Follows s t c e fits (replaces i h) =
      Published-Follows s t c e fits (replaced s t c e fits i h)
  Step-Follows s t c e fits (activates r before i identity planned f prep h) =
      Published-Follows s t c e fits (activated s t c e fits r before i identity planned f prep h)
  Step-Follows s t c e fits (queries query k ctx enc h) =
      kept t c fits (ap (λ x. x.ownership) h ∙ search-ownership index_type s query k ctx enc ∙ e)
  Step-Follows s t c e fits (adds id vector h) =
      kept t c fits (ap (λ x. x.ownership) (h ∙ add_refused s c id vector e) ∙ e)
  Step-Follows s t c e fits (batches vectors h) =
      kept t c fits (ap (λ x. x.ownership) (h ∙ add_batch_refused s c vectors e) ∙ e)

  -- After any history of publications, queries and refused insertions a read-only store still
  -- serves; its version and generation never go back, and an equal version is the same snapshot.
  -- The first version lies in the range of the counter.
  pub Reach-Follows :
      (s t : VectorStore index_type) (c : ServingSnapshot index_type)
      → s.ownership ≡ serving c
      → c.version ≤ uint64_max
      → Reach s t
      → (d : ServingSnapshot index_type) × (t.ownership ≡ serving d) × Follows c d
  Reach-Follows s t c e fits here = (c, e, Follows-refl c fits)
  Reach-Follows s t c e fits (next {t = u} r st) =
      let (d, f, v) = Reach-Follows s u c e fits r in
      let (d', f', w) = Step-Follows u t d f v.fits st in
      (
        d',
        f',
        record {
          version_grows = omega (arith, v.version_grows, w.version_grows);
          fits = w.fits;
          generation_grows = omega (arith, v.generation_grows, w.generation_grows);
          same = λ h.
              v.same (omega (arith, v.version_grows, w.version_grows))
              ∙ w.same (omega (arith, v.version_grows, w.version_grows));
        },
      )
