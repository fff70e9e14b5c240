-- ===== src/FlatIndex.antt =====
-- src/flat_index.cpp and include/fast_vector/flat_index.h: the exact index over row-major storage.
-- `unordered_map` is a function from IDs; an allocation that fails is an argument of `add`.
pub mod Storage
pub mod Invariant
pub mod Lookup
pub mod Search
pub mod Interface
pub mod Refinement
use fast_vector.Prelude.{
  ℕ, zero, suc, ◌+◌, ◌-◌, ◌*◌, Bool, true, false, not, List, [], ◌∷◌, ◌++◌, Option, none, some,
  length, get_elem?, get_or, set, take, drop, init, get_last?, min, ltb, ◌==◌, if◌then◌else◌, IdMap,
  no_ids, assign, is_some, Result, ok, err, ◌>>=◌, ◌>>◌, throw_if, Error, zero_dimension,
  dimension_mismatch, duplicate_id, allocation_failed,
}
use fast_vector.Distance.{DotProductKernel, Machine, normalize_l2, resolve_dot_product_kernel}
use fast_vector.SearchContext.{
  SearchContext, World, Budget, fresh, validate, check_now, checkpoint, default_context,
}
use fast_vector.SearchResult.{SearchResult, is_better}
use fast_vector.Ranking.{sort_by}
use fast_vector.Ranking.Bounded.{offer}

pub record FlatIndex : Type 0 where
  pub dimension : ℕ
  pub kernel : DotProductKernel
  pub vectors : List ℕ
  pub ids : List ℕ
  pub id_to_row : IdMap

-- The constructor.
unfoldable pub create : ℕ → DotProductKernel → Result FlatIndex
create dimension kernel = do
  throw_if (dimension == 0) zero_dimension
  ok (record { dimension = dimension; kernel = kernel; vectors = []; ids = []; id_to_row = no_ids })

unfoldable pub size : FlatIndex → ℕ
size index = length index.ids

-- The `dimension` values from `data + i * dimension` on.
unfoldable pub row : List ℕ → ℕ → ℕ → List ℕ
row vectors dimension i = take dimension (drop (i * dimension) vectors)

-- The allocation of `add` that throws, if one does.
pub data Fault : Type 0 where
  no_fault at_emplace at_ids at_vectors : Fault

-- The `catch` block: the map entry goes, and the ID if it was appended.
unfoldable pub roll_back : FlatIndex → ℕ → FlatIndex
roll_back index id =
    let last = get_last? index.ids in
    record index {
      ids = elim last [ none ↦ index.ids | some b ↦ if b == id then init index.ids else index.ids ];
      id_to_row = assign index.id_to_row id none;
    }

-- From `emplace` on. `push_back` and `insert` leave their vector alone when they throw.
unfoldable pub append : Fault → FlatIndex → ℕ → List ℕ → FlatIndex × Result (Unit {0})
unfolding roll_back
append fault index id normalized =
    let mapped = record index { id_to_row = assign index.id_to_row id (some (length index.ids)) } in
    let pushed = record mapped { ids = index.ids ++ id ∷ [] } in
    elim fault [
      | at_emplace ↦ (index, err allocation_failed)
      | at_ids ↦ (roll_back mapped id, err allocation_failed)
      | at_vectors ↦ (roll_back pushed id, err allocation_failed)
      | no_fault ↦ (record pushed { vectors = index.vectors ++ normalized }, ok tt)
    ]

-- The checks of `add` before it changes anything.
unfoldable pub admit : Machine → FlatIndex → ℕ → List ℕ → Result (List ℕ)
admit m index id vector = do
  throw_if (not (length vector == index.dimension)) dimension_mismatch
  throw_if (is_some (index.id_to_row id)) duplicate_id
  normalize_l2 m vector

unfoldable pub add : Machine → Fault → FlatIndex → ℕ → List ℕ → FlatIndex × Result (Unit {0})
unfolding admit append
add m fault index id vector = elim (admit m index id vector) [
  | err e ↦ (index, err e)
  | ok normalized ↦ append fault index id normalized
]

-- std::copy_n from the row `from` to the row `to`.
unfoldable pub copy_row : List ℕ → ℕ → ℕ → ℕ → List ℕ
unfolding row
copy_row vectors dimension from to =
    take (to * dimension) vectors
    ++ (row vectors dimension from ++ drop (to * dimension + dimension) vectors)

-- The last row takes the place of the erased one.
unfoldable pub move_last : FlatIndex → ℕ → ℕ → FlatIndex
unfolding copy_row
move_last index row last_row =
    let back = get_or index.ids last_row 0 in
    record index {
      vectors = copy_row index.vectors index.dimension last_row row;
      ids = set index.ids row back;
      id_to_row = assign index.id_to_row back (some row);
    }

unfoldable pub drop_last : FlatIndex → ℕ → FlatIndex
drop_last index id = record index {
  vectors = take (length index.vectors - index.dimension) index.vectors;
  ids = init index.ids;
  id_to_row = assign index.id_to_row id none;
}

unfoldable pub remove_row : FlatIndex → ℕ → ℕ → FlatIndex
unfolding move_last drop_last
remove_row index id row =
    let last_row = length index.ids - 1 in
    drop_last (if row == last_row then index else move_last index row last_row) id

unfoldable pub erase : FlatIndex → ℕ → FlatIndex × Bool
unfolding remove_row
erase index id = elim (index.id_to_row id) [
  | none ↦ (index, false)
  | some row ↦ (remove_row index id row, true)
]

module _ (ctx : SearchContext) (world : World) where
  -- The scan: `left` rows from row `i` on.
  scan :
      FlatIndex
      → (List ℕ → List ℕ → ℕ)
      → List ℕ
      → ℕ
      → (left i : ℕ) → List SearchResult
      → Budget
      → Result (List SearchResult × Budget)
  unfolding checkpoint row offer
  scan index dot query count zero i candidates b = ok (candidates, b)
  scan index dot query count (suc left) i candidates b = do
    b' ← checkpoint ctx world b
    let candidate : SearchResult = record {
      id = get_or index.ids i 0;
      score = dot query (row index.vectors index.dimension i);
    }
    scan index dot query count left (i + 1) (offer is_better count candidate candidates) b'

  -- The queue is emptied into the results, one checkpoint an element.
  drain : List SearchResult → List SearchResult → Budget → Result (List SearchResult × Budget)
  unfolding checkpoint
  drain [] results b = ok (results, b)
  drain (worst ∷ candidates) results b = do
    b' ← checkpoint ctx world b
    drain candidates (results ++ worst ∷ []) b'

  unfoldable pub search : Machine → FlatIndex → List ℕ → ℕ → Result (List SearchResult)
  unfolding scan drain size validate check_now sort_by
  search m index query k = do
    validate ctx
    b ← check_now ctx world fresh
    if k == 0 then ok [] else (do
      throw_if (not (length query == index.dimension)) dimension_mismatch
      normalized ← normalize_l2 m query
      dot ← resolve_dot_product_kernel m index.kernel
      let count = min k (size index)
      if count == 0 then ok [] else (do
        (candidates, b') ← scan index dot normalized count (size index) 0 [] b
        (results, b'') ← drain candidates [] b'
        check_now ctx world b'' >>= λ _. ok (sort_by is_better results)))
