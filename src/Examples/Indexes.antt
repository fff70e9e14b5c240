-- ===== src/Examples/Indexes.antt =====
-- The flat index: two rows, added, searched and erased.
use fast_vector.Prelude.{not_stopped, ◌≡◌, refl, List, [], ◌∷◌, some, ok, allocation_failed}
use fast_vector.Distance.{scalar, dot_product_scalar, normalize_l2, resolve_dot_product_kernel}
use fast_vector.SearchContext.{World, default_context, validate, enabled}
use fast_vector.Float.{float_eq, is_nan, order_key, float_gt}
use fast_vector.SearchResult.{SearchResult, is_better}
use fast_vector.Ranking.Bounded.{IsTopOf}
use fast_vector.FlatIndex
use fast_vector.FlatIndex.{FlatIndex, no_fault, at_vectors}
use fast_vector.FlatIndex.Invariant.{
  IsValid, create-IsValid, add-IsValid, erase-IsValid, add_throws-unchanged,
}
use fast_vector.FlatIndex.Lookup.{vector_of, erase-vector_of, add-vector_of}
use fast_vector.FlatIndex.Refinement.{
  Operation, inserts, erases, inserted, erased, history, map_history, history-map_history,
}
use fast_vector.Prelude.{duplicate_id, true, err}
use fast_vector.FlatIndex.Search.{search-IsTopOf, search_returns}
use fast_vector.Examples.{toy, empty, one_row, two_rows}

abbrev quiet : World
quiet n = record { reason = not_stopped; now = 0 }

pub empty-IsValid : IsValid empty
unfolding FlatIndex.create
empty-IsValid = create-IsValid 2 scalar refl

pub one_row-IsValid : IsValid one_row
one_row-IsValid = add-IsValid toy no_fault empty 7 (3 ∷ 4 ∷ []) empty-IsValid

pub two_rows-IsValid : IsValid two_rows
two_rows-IsValid = add-IsValid toy no_fault one_row 5 (1 ∷ 2 ∷ []) one_row-IsValid

create-IsValid_example : IsValid empty
unfolding FlatIndex.create
create-IsValid_example = create-IsValid 2 scalar refl

add-IsValid_example : IsValid (FlatIndex.add toy no_fault one_row 5 (1 ∷ 2 ∷ [])).0
add-IsValid_example = add-IsValid toy no_fault one_row 5 (1 ∷ 2 ∷ []) one_row-IsValid

erase-IsValid_example : IsValid (FlatIndex.erase two_rows 7).0
erase-IsValid_example = erase-IsValid two_rows 7 two_rows-IsValid

add_throws-unchanged_example : (FlatIndex.add toy at_vectors two_rows 9 (5 ∷ 6 ∷ [])).0 ≡ two_rows
unfolding FlatIndex.add normalize_l2
add_throws-unchanged_example =
    add_throws-unchanged toy at_vectors two_rows 9 (5 ∷ 6 ∷ []) {e = allocation_failed}
      two_rows-IsValid refl

added :
    FlatIndex.search default_context quiet toy two_rows (1 ∷ 1 ∷ []) 1
    ≡ ok (record { id = 7; score = 7 } ∷ [])
unfolding FlatIndex.add FlatIndex.search normalize_l2 resolve_dot_product_kernel is_better float_eq
    is_nan order_key float_gt
added = refl

erase-vector_of_example : vector_of (FlatIndex.erase two_rows 7).0 5 ≡ some (1 ∷ 2 ∷ [])
unfolding FlatIndex.add normalize_l2 FlatIndex.row
erase-vector_of_example = (erase-vector_of two_rows 7 5 two_rows-IsValid).0

add-vector_of_example : vector_of two_rows 7 ≡ some (3 ∷ 4 ∷ [])
unfolding FlatIndex.add normalize_l2 FlatIndex.row
add-vector_of_example =
    (add-vector_of toy one_row 5 7 (1 ∷ 2 ∷ []) (1 ∷ 2 ∷ []) one_row-IsValid refl refl refl).1

search-IsTopOf_example :
    (rest : List SearchResult) × IsTopOf is_better 1
      (record { id = 7; score = 7 } ∷ record { id = 5; score = 3 } ∷ [])
      (record { id = 7; score = 7 } ∷ [])
      rest
unfolding FlatIndex.add FlatIndex.search normalize_l2 resolve_dot_product_kernel validate is_better
    float_eq is_nan order_key float_gt FlatIndex.row
search-IsTopOf_example =
    search-IsTopOf default_context quiet toy two_rows (1 ∷ 1 ∷ []) 1 (1 ∷ 1 ∷ [])
      (dot_product_scalar toy) refl refl refl refl (refl, (refl, tt)) refl

search_returns_example :
    (results : List SearchResult) × (FlatIndex.search default_context quiet toy two_rows
        (1 ∷ 1 ∷ [])
        5
      ≡ ok results)
    × ((rest : List SearchResult) × IsTopOf is_better 5
          (record { id = 7; score = 7 } ∷ record { id = 5; score = 3 } ∷ [])
          results
          rest)
unfolding FlatIndex.add normalize_l2 resolve_dot_product_kernel validate enabled is_nan
    FlatIndex.row
search_returns_example =
    search_returns default_context quiet toy two_rows (1 ∷ 1 ∷ []) 5 (1 ∷ 1 ∷ [])
      (dot_product_scalar toy) refl refl refl refl refl (refl, (refl, tt))

-- Erased, refused as a duplicate, and put in by a failed and a second attempt.
abbrev busy : List Operation
busy =
    erases 7
    ∷ inserts no_fault 5 (9 ∷ 9 ∷ [])
    ∷ inserts at_vectors 7 (8 ∷ 8 ∷ [])
    ∷ inserts no_fault 7 (8 ∷ 8 ∷ [])
    ∷ []

history-map_history_example :
    (vector_of (history toy two_rows busy).0 ≡ (map_history toy 2 (vector_of two_rows) busy).0)
    × ((history toy two_rows busy).1
        ≡ erased true
          ∷ inserted (err duplicate_id)
          ∷ inserted (err allocation_failed)
          ∷ inserted (ok tt)
          ∷ [])
unfolding FlatIndex.add normalize_l2 map_history
history-map_history_example = history-map_history toy two_rows busy two_rows-IsValid
