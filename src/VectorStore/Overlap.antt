-- ===== src/VectorStore/Overlap.antt =====
-- Queries of a store that overlap each other, publications and insertions, in any order.
use fast_vector.Prelude.{ℕ, ◌≡◌, List, [], ◌∷◌, ◌++◌, Option, some, get_elem?, set, ok}
use fast_vector.Distance.{Machine}
use fast_vector.VectorIndex.{VectorIndex}
use fast_vector.VectorStore.{
  ServingSnapshot, VectorStore, VectorRecord, replace_index, activate_snapshot, add, add_batch,
}
use fast_vector.VectorStore.Query.{Call, entered, advance}

module _ (index_type : VectorIndex) (m : Machine) where
  open index_type use {Index}

  pub record System : Type 0 where
    pub store : VectorStore index_type
    pub queries : List (Call index_type)

  pub data Step (y z : System) : Type 0 where
    enters :
        (c : Call index_type)
        → c.state ≡ entered
        → z ≡ record y { queries = y.queries ++ c ∷ [] }
        → Step y z
    advances :
        (i : ℕ) (c : Call index_type)
        → get_elem? y.queries i ≡ some c
        → z ≡ record {
          store = (advance index_type y.store c).0;
          queries = set y.queries i (record c { state = (advance index_type y.store c).1 });
        }
        → Step y z
    replaces :
        (i : Option Index) {t : VectorStore index_type}
        → replace_index index_type y.store i ≡ ok t
        → z ≡ record y { store = t }
        → Step y z
    activates :
        (planned : Option (ServingSnapshot index_type)) {t : VectorStore index_type}
        → activate_snapshot index_type y.store planned ≡ ok t
        → z ≡ record y { store = t }
        → Step y z
    adds :
        (id : ℕ) (vector : List ℕ)
        → z ≡ record y { store = (add index_type y.store id vector).0 }
        → Step y z
    batches :
        (vectors : List VectorRecord)
        → z ≡ record y { store = (add_batch index_type m y.store vectors).0 }
        → Step y z

  pub data Reach (y : System) : System → Type 0 where
    here : Reach y y
    next : {z w : System} → Reach y z → Step z w → Reach y w
