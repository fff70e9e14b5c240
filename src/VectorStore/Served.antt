-- ===== src/VectorStore/Served.antt =====
-- A read-only store (src/vector_store.cpp) serves a snapshot, whatever happens to it.
use fast_vector.Prelude.{◌+◌, ◌≡◌, ◌∙◌, refl, ap, Option, none, some, ok, arith}
use fast_vector.Distance.{Machine}
use fast_vector.VectorIndex.{VectorIndex}
use fast_vector.VectorStore.{
  ServingSnapshot, VectorStore, serving, replace_index, activate_snapshot, no_identity,
}
use fast_vector.VectorStore.Trace.{add_refused, add_batch_refused}
use fast_vector.VectorStore.Query.{
  Query, Call, entered, checked, holding, matched, searched, returned, thrown, advance,
  advance_from,
}
use fast_vector.VectorStore.Overlap.{
  System, Step, Reach, enters, advances, replaces, activates, adds, batches, here, next,
}

module _ (index_type : VectorIndex) (m : Machine) where
  abbrev pub Serving : VectorStore index_type → Type 0
  Serving s = (c : ServingSnapshot index_type) × (s.ownership ≡ serving c)

  advance_from-ownership :
      (s : VectorStore index_type) (c : Call index_type) (q : Query index_type)
      → Serving s
      → (advance_from index_type s c q).0.ownership ≡ s.ownership
  unfolding advance_from
  advance_from-ownership s c entered v = ground arith
  advance_from-ownership s c checked (d, e) = rw (e, advance_from) e
  advance_from-ownership s c (holding snapshot) v = ground arith
  advance_from-ownership s c (matched snapshot version identity) v = ground arith
  advance_from-ownership s c (searched neighbors version identity) v = ground arith
  advance_from-ownership s c (returned r) v = refl
  advance_from-ownership s c (thrown x) v = refl

  replaced-Serving :
      (s t : VectorStore index_type) (i : Option (index_type.Index))
      → replace_index index_type s i ≡ ok t
      → Serving s
      → Serving t
  unfolding replace_index
  replaced-Serving s t none h (c, e) = ground arith
  replaced-Serving s t (some i) h (c, e) =
      let d : ServingSnapshot index_type = record {
        index = i;
        version = c.version + 1;
        identity = no_identity;
      } in
      (d, ground arith)

  activated-Serving :
      (s t : VectorStore index_type) (planned : Option (ServingSnapshot index_type))
      → activate_snapshot index_type s planned ≡ ok t
      → Serving s
      → Serving t
  unfolding activate_snapshot
  activated-Serving s t none h (c, e) = ground arith
  activated-Serving s t (some d) h (c, e) = (d, ground arith)

  Step-Serving :
      (y z : System index_type m) → Step index_type m y z → Serving y.store → Serving z.store
  unfolding advance
  Step-Serving y z (enters c f e) v = rw e v
  Step-Serving y z (advances i c g e) v =
      (v.0, ap (λ w. w.store.ownership) e ∙ advance_from-ownership y.store c c.state v ∙ v.1)
  Step-Serving y z (replaces i h e) v = rw e (replaced-Serving y.store _ i h v)
  Step-Serving y z (activates planned h e) v = rw e (activated-Serving y.store _ planned h v)
  Step-Serving y z (adds id vector e) v =
      rw (e, add_refused index_type m y.store v.0 id vector v.1) v
  Step-Serving y z (batches vectors e) v =
      rw (e, add_batch_refused index_type m y.store v.0 vectors v.1) v

  pub Reach-Serving :
      (y z : System index_type m) → Reach index_type m y z → Serving y.store → Serving z.store
  Reach-Serving y z here v = v
  Reach-Serving y z (next {z = w} r st) v = Step-Serving w z st (Reach-Serving y w r v)
