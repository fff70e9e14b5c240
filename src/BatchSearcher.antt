-- ===== src/BatchSearcher.antt =====
-- src/batch_searcher.cpp and include/fast_vector/batch_searcher.h: a batch of queries over a pool of
-- threads. Each query writes a slot of its own; in which order they complete is an argument.
pub mod Order
use fast_vector.Prelude.{
  ℕ, zero, suc, ◌+◌, ◌-◌, ◌*◌, ◌/◌, ◌^◌, Bool, true, false, not, ◌&&◌, ◌||◌, List, [], ◌∷◌, ◌++◌,
  Option, none, some, length, take, drop, replicate, ltb, ◌==◌, if◌then◌else◌, Result, ok, err,
  ◌>>=◌, ◌>>◌, throw_if, Error, not_stopped, zero_thread_count, batch_shape_overflow,
  batch_shape_mismatch, out_of_fuel,
}
use fast_vector.SearchContext.{World, default_context}
use fast_vector.SearchResult.{SearchResult}
use fast_vector.VectorIndex.{VectorIndex}

abbrev pub Answer : Type 0
Answer = Result (List SearchResult)

-- The slots of the queries: none while a query is not done.
abbrev pub Slots : Type 0
Slots = ℕ → Option Answer

abbrev pub no_answers : Slots
no_answers n = none

-- The workers take one query after the other.
unfoldable pub work_all : (ℕ → Answer) → List ℕ → Slots → Slots
work_all task [] slots = slots
work_all task (n ∷ ns) slots = work_all task ns (λ j. if j == n then some (task n) else slots j)

abbrev pub keep_first : Option Error → Error → Option Error
keep_first none e = some e
keep_first (some first) e = some first

-- The loop over the futures, from query `n` on, with the first error so far. A future whose query
-- is not done would block.
unfoldable pub collect :
    Slots
    → (left n : ℕ) → Option Error
    → List (List SearchResult)
    → Result (List (List SearchResult))
collect slots zero n none results = ok results
collect slots zero n (some e) results = err e
collect slots (suc left) n first results = elim (slots n) [
  | none ↦ err out_of_fuel
  | some answer ↦ elim answer [
    | ok r ↦ collect slots left (n + 1) first (results ++ r ∷ [])
    | err e ↦ collect slots left (n + 1) (keep_first first e) (results ++ [] ∷ [])
  ]
]

module _ (index_type : VectorIndex) where
  open index_type use {Index, dimension}

  -- The constructor.
  unfoldable pub create : ℕ → Result (Unit {0})
  create thread_count = throw_if (thread_count == 0) zero_thread_count

  -- One query of the matrix. The context is not enabled, so the world is not looked at.
  unfoldable pub search_one : Index → List ℕ → ℕ → ℕ → Answer
  search_one index queries k n =
      index_type.search default_context (λ t. record { reason = not_stopped; now = 0 }) index
        (take (dimension index) (drop (n * dimension index) queries)) k

  -- `query_count * dimension` is not computed where it would overflow.
  unfoldable pub check_shape : Index → List ℕ → ℕ → Result (Unit {0})
  check_shape index queries query_count = do
    throw_if (not (query_count == 0) && ltb ((2 ^ 64 - 1) / query_count) (dimension index))
        batch_shape_overflow
    throw_if (not (length queries == query_count * dimension index)) batch_shape_mismatch

  unfoldable pub search :
      List ℕ → Index → List ℕ → (query_count k : ℕ) → Result (List (List SearchResult))
  unfolding check_shape work_all collect
  search order index queries query_count k = do
    check_shape index queries query_count
    (if query_count == 0 || k == 0
        then ok (replicate query_count [])
        else collect (work_all (search_one index queries k) order no_answers) query_count 0 none [])
