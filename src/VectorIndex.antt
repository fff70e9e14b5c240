-- ===== src/VectorIndex.antt =====
-- include/fast_vector/vector_index.h: what the store asks of an index, with its contract as laws.
use fast_vector.Prelude.{ℕ, ◌+◌, ◌≡◌, List, Result, ok, err, Error}
use fast_vector.SearchContext.{SearchContext, World}
use fast_vector.SearchResult.{SearchResult}

pub record VectorIndex : Type 1 where
  pub Index : Type 0
  pub add : Index → ℕ → List ℕ → Index × Result (Unit {0})
  pub search : SearchContext → World → Index → List ℕ → ℕ → Result (List SearchResult)
  pub size : Index → ℕ
  pub dimension : Index → ℕ
  -- The representation invariant of the index.
  pub WellFormed : Index → Type 0
  pub add_kept : (i : Index) (id : ℕ) (v : List ℕ) → WellFormed i → WellFormed (add i id v).0
  -- "Fixed-dimension vector indexes".
  pub add_dimension : (i : Index) (id : ℕ) (v : List ℕ) → dimension (add i id v).0 ≡ dimension i
  pub add_counted :
      (i : Index) (id : ℕ) (v : List ℕ) {u : Unit {0}}
      → (add i id v).1 ≡ ok u
      → size (add i id v).0 ≡ size i + 1
  -- The strong exception guarantee.
  pub add_unchanged :
      (i : Index) (id : ℕ) (v : List ℕ) {e : Error}
      → WellFormed i
      → (add i id v).1 ≡ err e
      → (add i id v).0 ≡ i
