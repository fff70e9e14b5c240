-- ===== src/VectorStore/Batch.antt =====
-- VectorStore::add_batch (src/vector_store.cpp), also where it stops half-way.
use fast_vector.Prelude.{
  ℕ, suc, ◌+◌, ◌%◌, ◌^◌, ◌≡◌, ◌⊎◌, refl, ap, ◌∙◌, List, [], ◌∷◌, ◌++◌, length, Result, ok, err,
  Error, arith, inl, inr, Result-cases,
}
use fast_vector.Distance.{Machine}
use fast_vector.VectorIndex.{VectorIndex}
use fast_vector.VectorStore.{
  VectorStore, VectorRecord, writable, add, add_all, add_batch, validate_batch, increment,
}

module _ (index_type : VectorIndex) where
  open index_type use {Index, size, dimension, WellFormed}

  -- How far a batch came: `stored` went in, and `left` did not, because its first record was refused.
  pub record Progress (s t : VectorStore index_type) (i : Index) (result : Result (Unit {0}))
      (vectors stored left : List VectorRecord) : Type 0 where
    pub index : Index
    pub split : vectors ≡ stored ++ left
    pub owns : t.ownership ≡ writable index
    pub kept : WellFormed index
    pub sized : size index ≡ size i + length stored
    pub same_dimension : dimension index ≡ dimension i
    pub counted : t.inserted_vectors % 2 ^ 64 ≡ (s.inserted_vectors + length stored) % 2 ^ 64
    pub all_or_error :
        ((left ≡ []) × (result ≡ ok tt))
        ⊎ ((v : VectorRecord) × (vs : List VectorRecord) × (e : Error) × (left ≡ v ∷ vs)
            × ((index_type.add index v.id v.values).1 ≡ err e)
            × (result ≡ err e))

  add-ok :
      (s : VectorStore index_type) (i : Index) (id : ℕ) (v : List ℕ) (u : Unit {0})
      → s.ownership ≡ writable i
      → (index_type.add i id v).1 ≡ ok u
      → add index_type s id v ≡ (
        record s {
          ownership = writable (index_type.add i id v).0;
          inserted_vectors = increment s.inserted_vectors;
        },
        ok tt,
      )
  unfolding add
  add-ok s i id v u owns h = ground arith

  add-err :
      (s : VectorStore index_type) (i : Index) (id : ℕ) (v : List ℕ) (e : Error)
      → s.ownership ≡ writable i
      → (index_type.add i id v).1 ≡ err e
      → add index_type s id v ≡ (record s { ownership = writable (index_type.add i id v).0 }, err e)
  unfolding add
  add-err s i id v e owns h = ground arith

  abbrev and_then :
      VectorStore index_type × Result (Unit {0})
      → List VectorRecord
      → VectorStore index_type × Result (Unit {0})
  and_then r vs = elim r.1 [ err e ↦ (r.0, err e) | ok u ↦ add_all index_type r.0 vs ]

  add_all-cons :
      (s : VectorStore index_type) (v : VectorRecord) (vs : List VectorRecord)
      {r : VectorStore index_type × Result (Unit {0})}
      → add index_type s v.id v.values ≡ r
      → add_all index_type s (v ∷ vs) ≡ and_then r vs
  unfolding add_all
  add_all-cons s v vs h = ap (λ r. and_then r vs) h

  add_all-Progress :
      (s : VectorStore index_type) (i : Index) (vectors : List VectorRecord)
      → s.ownership ≡ writable i
      → WellFormed i
      → (stored : List VectorRecord) × (left : List VectorRecord) × Progress s
          (add_all index_type s vectors).0
          i
          (add_all index_type s vectors).1
          vectors
          stored
          left
  add_all-Progress s i [] owns well =
      unfold add_all in
      (
        [],
        [],
        record {
          index = i;
          split = refl;
          owns = owns;
          kept = well;
          sized = omega arith;
          same_dimension = refl;
          counted = omega arith;
          all_or_error = inl (refl, refl);
        },
      )
  add_all-Progress s i (v ∷ vs) owns well = elim (Result-cases (index_type.add i v.id v.values).1) [
    | inl (u, h) ↦
        let i' = (index_type.add i v.id v.values).0 in
        let s' : VectorStore index_type = record s {
          ownership = writable i';
          inserted_vectors = increment s.inserted_vectors;
        } in
        let (stored, left, p) =
          add_all-Progress s' i' vs refl (index_type.add_kept i v.id v.values well) in
        rw (add_all-cons s v vs (add-ok s i v.id v.values u owns h)) (
          v ∷ stored,
          left,
          record {
            index = p.index;
            split = ap (◌∷◌ v) p.split;
            owns = p.owns;
            kept = p.kept;
            sized = omega (arith, p.sized, index_type.add_counted i v.id v.values h);
            same_dimension = p.same_dimension ∙ index_type.add_dimension i v.id v.values;
            counted = counts _ (length stored) p.counted;
            all_or_error = p.all_or_error;
          },
        )
    | inr (e, h) ↦ rw (add_all-cons s v vs (add-err s i v.id v.values e owns h)) (
      [],
      v ∷ vs,
      record {
        index = i;
        split = refl;
        owns = ap writable (index_type.add_unchanged i v.id v.values well h);
        kept = well;
        sized = omega arith;
        same_dimension = refl;
        counted = omega arith;
        all_or_error = inr (v, vs, e, refl, h, refl);
      },
    )
  ]
    where
      counts :
          (t n : ℕ)
          → t % 2 ^ 64 ≡ (increment s.inserted_vectors + n) % 2 ^ 64
          → t % 2 ^ 64 ≡ (s.inserted_vectors + suc n) % 2 ^ 64
      counts t n h = omega arith

  -- A batch on a writable store with a well-formed index either fails validation and changes
  -- nothing, or goes in record by record up to the first that the index refuses; the counter and
  -- the size grow by the number that went in.
  pub add_batch-Progress :
      (m : Machine) (s : VectorStore index_type) (i : Index) (vectors : List VectorRecord)
      → s.ownership ≡ writable i
      → WellFormed i
      → ((e : Error) × (validate_batch m s.maximum_batch_size (dimension i) vectors ≡ err e)
          × (add_batch index_type m s vectors ≡ (s, err e)))
        ⊎ ((stored : List VectorRecord) × (left : List VectorRecord) × (validate_batch m
                s.maximum_batch_size
                (dimension i)
                vectors
              ≡ ok tt)
            × Progress s
                (add_batch index_type m s vectors).0
                i
                (add_batch index_type m s vectors).1
                vectors
                stored
                left)
  add_batch-Progress m s i vectors owns well =
      elim (Result-cases (validate_batch m s.maximum_batch_size (dimension i) vectors)) [
        | inl (u, h) ↦
            let (stored, left, p) = add_all-Progress s i vectors owns well in
            inr (stored, left, h, rw (accepted u h) p)
        | inr (e, h) ↦ inl (e, h, refused e h)
      ]
    where
      accepted :
          (u : Unit {0})
          → validate_batch m s.maximum_batch_size (dimension i) vectors ≡ ok u
          → add_batch index_type m s vectors ≡ add_all index_type s vectors
      accepted u h = unfold add_batch in ground arith

      refused :
          (e : Error)
          → validate_batch m s.maximum_batch_size (dimension i) vectors ≡ err e
          → add_batch index_type m s vectors ≡ (s, err e)
      refused e h = unfold add_batch in ground arith
