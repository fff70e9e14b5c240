-- ===== src/Examples/Batches.antt =====
-- A batch of two queries that complete in the opposite order.
use fast_vector.Prelude.{ℕ, zero, suc, ◌≡◌, refl, List, [], ◌∷◌, arith, ◌>>◌}
use fast_vector.FlatIndex.{no_fault}
use fast_vector.FlatIndex.Interface.{flat_vector_index}
use fast_vector.VectorIndex.{VectorIndex}
use fast_vector.BatchSearcher
use fast_vector.BatchSearcher.{check_shape, search_one}
use fast_vector.BatchSearcher.Order.{TakesAll, one_by_one, search-one_by_one}
use fast_vector.Examples.{toy, two_rows}

abbrev flat_rows : VectorIndex
flat_rows = flat_vector_index toy (λ i id. no_fault)

abbrev matrix : List ℕ
matrix = 1 ∷ 1 ∷ 2 ∷ 1 ∷ []

both : TakesAll (1 ∷ 0 ∷ []) 2
both zero h = refl
both (suc zero) h = refl
both (suc (suc n)) h = absurd (omega arith)

search-one_by_one_example : BatchSearcher.search flat_rows (1 ∷ 0 ∷ []) two_rows matrix 2 1 ≡ (
    check_shape flat_rows two_rows matrix 2
    >> one_by_one (search_one flat_rows two_rows matrix 1) 2 0)
search-one_by_one_example = search-one_by_one flat_rows (1 ∷ 0 ∷ []) two_rows matrix 2 1 both
