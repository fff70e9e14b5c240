-- ===== src/VectorStore/Answered.antt =====
-- What a query of a read-only store answers (src/vector_store.cpp) while others publish.
use text.Mathlib.Text.{◌==◌ as str_eq}
use fast_vector.Prelude.{
  ℕ, ◌≡◌, ◌⊎◌, ◌∙◌, refl, sym, ap, true, not, ◌&&◌, ◌==◌, List, [], ◌∷◌, some, get_elem?, set, ok,
  ◌>>◌, arith, inl, inr, Bool-cases, Result-cases, get_elem?-set, get_elem?-set_self,
  get_elem?-append, get_elem?-lt, some-injective,
}
use fast_vector.Distance.{Machine}
use fast_vector.SearchContext.{validate, check}
use fast_vector.SearchResult.{SearchResult}
use fast_vector.VectorIndex.{VectorIndex}
use fast_vector.VectorStore.{
  SnapshotIdentity, SnapshotSearchResult, ServingSnapshot, serving, is_empty,
}
use fast_vector.VectorStore.Query.{
  Query, Call, entered, checked, holding, matched, searched, returned, thrown, advance,
  advance_from,
}
use fast_vector.VectorStore.Served.{Serving, Reach-Serving}
use fast_vector.VectorStore.Overlap.{
  System, Step, Reach, enters, advances, replaces, activates, adds, batches, here, next,
}

module _ (index_type : VectorIndex) (m : Machine) where
  -- The snapshot was served at a moment between two states of the system.
  abbrev pub ServedBetween :
      System index_type m → System index_type m → ServingSnapshot index_type → Type 0
  ServedBetween y z snapshot =
      (u : System index_type m) × Reach index_type m y u
      × Reach index_type m u z
      × (u.store.ownership ≡ serving snapshot)

  -- The parts of an answer come from `snapshot`, which is the expected one if one was expected.
  abbrev Matches : Call index_type → ServingSnapshot index_type → Type 0
  Matches c snapshot =
      (is_empty c.context.expected_snapshot_id ≡ true)
      ⊎ (str_eq c.context.expected_snapshot_id snapshot.identity.snapshot_id ≡ true)

  pub record IsAnswer (c : Call index_type) (snapshot : ServingSnapshot index_type)
      (neighbors : List SearchResult) (version : ℕ) (identity : SnapshotIdentity) : Type 0 where
    pub version_of : version ≡ snapshot.version
    pub identity_of : identity ≡ snapshot.identity
    pub expected : Matches c snapshot
    pub neighbors_of :
        index_type.search c.context c.encounter.during snapshot.index c.query c.k ≡ ok neighbors

  module _ (c : Call index_type) where
    -- What a query that entered at `y` holds at `z`.
    Holds : System index_type m → System index_type m → Query index_type → Type 0
    Holds y z entered = Unit
    Holds y z checked = Unit
    Holds y z (holding snapshot) = ServedBetween y z snapshot
    Holds y z (matched snapshot version identity) =
        ServedBetween y z snapshot
        × (version ≡ snapshot.version)
        × (identity ≡ snapshot.identity)
        × Matches c snapshot
    Holds y z (searched neighbors version identity) =
        (snapshot : ServingSnapshot index_type) × ServedBetween y z snapshot
        × IsAnswer c snapshot neighbors version identity
    Holds y z (returned r) =
        (snapshot : ServingSnapshot index_type) × ServedBetween y z snapshot
        × IsAnswer c snapshot r.neighbors r.snapshot_version r.identity
    Holds y z (thrown x) = Unit

    later :
        (y z w : System index_type m) (snapshot : ServingSnapshot index_type)
        → Step index_type m z w
        → ServedBetween y z snapshot
        → ServedBetween y w snapshot
    later y z w snapshot st (u, r, s, e) = (u, r, next s st, e)

    Holds-later :
        (y z w : System index_type m) (q : Query index_type)
        → Step index_type m z w
        → Holds y z q
        → Holds y w q
    unfolding Holds
    Holds-later y z w entered st h = tt
    Holds-later y z w checked st h = tt
    Holds-later y z w (holding snapshot) st h = later y z w snapshot st h
    Holds-later y z w (matched snapshot version identity) st h =
        (later y z w snapshot st h.0, h.1, h.2, h.3)
    Holds-later y z w (searched neighbors version identity) st (snapshot, h, a) =
        (snapshot, later y z w snapshot st h, a)
    Holds-later y z w (returned r) st (snapshot, h, a) = (snapshot, later y z w snapshot st h, a)
    Holds-later y z w (thrown x) st h = tt

    -- A step of the query keeps what it holds true, or acquires what is served.
    advance_from-Holds :
        (y z w : System index_type m) (q : Query index_type)
        → Reach index_type m y z
        → Step index_type m z w
        → Serving index_type m z.store
        → Holds y w q
        → Holds y w (advance_from index_type z.store c q).1
    unfolding advance_from Holds
    advance_from-Holds y z w entered r st v h =
        elim (Result-cases (validate c.context >> check c.context c.encounter.before)) [
          | inl (u, e) ↦ rw (e, advance_from) tt
          | inr (x, e) ↦ rw (e, advance_from) tt
        ]
    advance_from-Holds y z w checked r st (d, e) h = rw (e, advance_from) (z, r, next here st, e)
    advance_from-Holds y z w (holding snapshot) r st v h =
        elim (Bool-cases (
          not (is_empty c.context.expected_snapshot_id)
          && not (str_eq c.context.expected_snapshot_id snapshot.identity.snapshot_id))) [
            | inl e ↦ rw (e, advance_from) tt
            | inr e ↦ rw (e, advance_from) (h, refl, refl, ground arith)
          ]
    advance_from-Holds y z w (matched snapshot version identity) r st v h =
        elim (Result-cases
          (index_type.search c.context c.encounter.during snapshot.index c.query c.k)) [
            | inl (neighbors, e) ↦
                rw (e, advance_from)
                  (
                    snapshot,
                    h.0,
                    record {
                      version_of = h.1;
                      identity_of = h.2;
                      expected = h.3;
                      neighbors_of = e;
                    },
                  )
            | inr (x, e) ↦ rw (e, advance_from) tt
          ]
    advance_from-Holds y z w (searched neighbors version identity) r st v h =
        elim (Result-cases (check c.context c.encounter.after)) [
          | inl (u, e) ↦ rw (e, advance_from) h
          | inr (x, e) ↦ rw (e, advance_from) tt
        ]
    advance_from-Holds y z w (returned q) r st v h = h
    advance_from-Holds y z w (thrown x) r st v h = h

    -- The query is at place `i`, and what it holds is true.
    abbrev Tracked : System index_type m → System index_type m → ℕ → Type 0
    Tracked y z i =
        (q : Query index_type) × (get_elem? z.queries i ≡ some (record c { state = q }))
        × Holds y z q

    advanced :
        (z : System index_type m) (i : ℕ) (q : Query index_type)
        → get_elem? z.queries i ≡ some (record c { state = q })
        → get_elem?
            (set z.queries i
              (record c { state = (advance index_type z.store (record c { state = q })).1 }))
            i
          ≡ some (record c { state = (advance_from index_type z.store c q).1 })
    unfolding advance advance_from
    advanced z i q g = get_elem?-set_self z.queries i _ (get_elem?-lt z.queries i g)

    Step-Tracked :
        (y z w : System index_type m) (i : ℕ)
        → Reach index_type m y z
        → Serving index_type m z.store
        → Step index_type m z w
        → Tracked y z i
        → Tracked y w i
    Step-Tracked y z w i r v (enters d f e) (q, g, h) = (
      q,
      ap (λ x. get_elem? x.queries i) e
          ∙ get_elem?-append z.queries (d ∷ []) i (get_elem?-lt z.queries i g)
          ∙ g,
      Holds-later y z w q (enters d f e) h,
    )
    Step-Tracked y z w i r v (advances j d f e) (q, g, h) =
        let st : Step index_type m z w = advances j d f e in
        let changed = record d { state = (advance index_type z.store d).1 } in
        let h' = Holds-later y z w q st h in
        elim (Bool-cases (i == j)) [
          | inl here_too ↦
              let same : i ≡ j = ground arith in
              let self : d ≡ record c { state = q } =
                some-injective (sym f ∙ ap (get_elem? z.queries) (sym same) ∙ g) in
              (
                (advance_from index_type z.store c q).1,
                ap (λ x. get_elem? x.queries i) e ∙ rw (← same, self) (advanced z i q g),
                advance_from-Holds y z w q r st v h',
              )
          | inr elsewhere ↦ (
            q,
            ap (λ x. get_elem? x.queries i) e
                ∙ get_elem?-set z.queries j i changed
                ∙ rw elsewhere g,
            h',
          )
        ]
    Step-Tracked y z w i r v (replaces k f e) (q, g, h) =
        (q, ap (λ x. get_elem? x.queries i) e ∙ g, Holds-later y z w q (replaces k f e) h)
    Step-Tracked y z w i r v (activates p f e) (q, g, h) =
        (q, ap (λ x. get_elem? x.queries i) e ∙ g, Holds-later y z w q (activates p f e) h)
    Step-Tracked y z w i r v (adds id vector e) (q, g, h) =
        (q, ap (λ x. get_elem? x.queries i) e ∙ g, Holds-later y z w q (adds id vector e) h)
    Step-Tracked y z w i r v (batches vectors e) (q, g, h) =
        (q, ap (λ x. get_elem? x.queries i) e ∙ g, Holds-later y z w q (batches vectors e) h)

    Reach-Tracked :
        (y z : System index_type m) (i : ℕ)
        → Serving index_type m y.store
        → Reach index_type m y z
        → Tracked y y i
        → Tracked y z i
    Reach-Tracked y z i v here t = t
    Reach-Tracked y z i v (next {z = w} r st) t =
        Step-Tracked y w z i r (Reach-Serving index_type m y w r v) st (Reach-Tracked y w i v r t)

  -- However a query of a read-only store overlaps publications and other queries, if it returns,
  -- there is one snapshot, served at a moment between the entry of the query and its return, that
  -- its neighbours, its version and its identity all come from, and it is the one the caller
  -- expected, if one was expected.
  pub answers_consistent :
      (y z : System index_type m) (i : ℕ) (c d : Call index_type)
      (served : ServingSnapshot index_type) (r : SnapshotSearchResult)
      → y.store.ownership ≡ serving served
      → get_elem? y.queries i ≡ some c
      → c.state ≡ entered
      → Reach index_type m y z
      → get_elem? z.queries i ≡ some d
      → d.state ≡ returned r
      → (snapshot : ServingSnapshot index_type) × ServedBetween y z snapshot
        × IsAnswer c snapshot r.neighbors r.snapshot_version r.identity
  unfolding Holds
  answers_consistent y z i c d served r owned g start reach f done =
      let from : Tracked c y y i = (entered, rw (← start) g, tt) in
      let (q, at, h) = Reach-Tracked c y z i (served, owned) reach from in
      let same : d ≡ record c { state = q } = some-injective (sym f ∙ at) in
      let ended : q ≡ returned r = sym (ap (λ x. x.state) same) ∙ done in rw ended at h
