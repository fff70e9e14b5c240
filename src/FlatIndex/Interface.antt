-- ===== src/FlatIndex/Interface.antt =====
-- The flat index as the store's index: `fault` says which insertion meets a failed allocation.
use fast_vector.Prelude.{
  ℕ, ◌+◌, ◌≡◌, refl, List, [], ◌∷◌, ok, length-append, Result-cases, inl, inr,
}
use fast_vector.Distance.{Machine}
use fast_vector.FlatIndex.{
  FlatIndex, Fault, no_fault, at_emplace, at_ids, at_vectors, append, roll_back, admit, add, search,
  size,
}
use fast_vector.FlatIndex.Invariant.{IsValid, add-IsValid, add_throws-unchanged}
use fast_vector.VectorIndex.{VectorIndex}

append-dimension :
    (fault : Fault) (index : FlatIndex) (id : ℕ) (normalized : List ℕ)
    → (append fault index id normalized).0.dimension ≡ index.dimension
unfolding append roll_back
append-dimension no_fault index id normalized = refl
append-dimension at_emplace index id normalized = refl
append-dimension at_ids index id normalized = refl
append-dimension at_vectors index id normalized = refl

append-size :
    (fault : Fault) (index : FlatIndex) (id : ℕ) (normalized : List ℕ) {u : Unit {0}}
    → (append fault index id normalized).1 ≡ ok u
    → size (append fault index id normalized).0 ≡ size index + 1
unfolding append size
append-size no_fault index id normalized h = length-append index.ids (id ∷ [])
append-size at_emplace index id normalized h = cc
append-size at_ids index id normalized h = cc
append-size at_vectors index id normalized h = cc

module _ (m : Machine) (fault : FlatIndex → ℕ → Fault) where
  pub add-dimension :
      (index : FlatIndex) (id : ℕ) (v : List ℕ)
      → (add m (fault index id) index id v).0.dimension ≡ index.dimension
  unfolding add
  add-dimension index id v = elim (Result-cases (admit m index id v)) [
    | inl (normalized, e) ↦ rw (e, add) (append-dimension (fault index id) index id normalized)
    | inr (x, e) ↦ rw (e, add)
  ]

  pub add-size :
      (index : FlatIndex) (id : ℕ) (v : List ℕ) {u : Unit {0}}
      → (add m (fault index id) index id v).1 ≡ ok u
      → size (add m (fault index id) index id v).0 ≡ size index + 1
  unfolding add
  add-size index id v = elim (Result-cases (admit m index id v)) [
    | inl (normalized, e) ↦ rw (e, add) (append-size (fault index id) index id normalized)
    | inr (x, e) ↦ rw (e, add) (λ h. cc)
  ]

  abbrev pub flat_vector_index : VectorIndex
  flat_vector_index = record {
    Index = FlatIndex;
    add = λ i id v. add m (fault i id) i id v;
    search = λ ctx w i query k. search ctx w m i query k;
    size = size;
    dimension = λ i. i.dimension;
    WellFormed = IsValid;
    add_kept = λ i id v valid. add-IsValid m (fault i id) i id v valid;
    add_dimension = add-dimension;
    add_counted = add-size;
    add_unchanged = λ i id v valid h. add_throws-unchanged m (fault i id) i id v valid h;
  }
