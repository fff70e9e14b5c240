-- ===== src/BatchSearcher/Order.antt =====
-- BatchSearcher::search (src/batch_searcher.cpp) against its queries one by one.
use fast_vector.Prelude.{
  ℕ, zero, suc, ◌+◌, ◌<◌, ◌≡◌, ◌∙◌, refl, sym, ap, Bool, true, false, ◌||◌, List, [], ◌∷◌, ◌++◌,
  none, some, ◌==◌, if◌then◌else◌, replicate, Result, ok, err, ◌>>=◌, ◌>>◌, Error, arith,
  Bool-cases, Result-cases, inl, inr,
}
use mathlib.Core.List.{append_assoc, append-nil}
use fast_vector.SearchResult.{SearchResult}
use fast_vector.VectorIndex.{VectorIndex}
use fast_vector.BatchSearcher.{
  Answer, Slots, no_answers, work_all, collect, search_one, check_shape, search,
}

-- The queries one by one, up to the first that throws: what a batch means.
unfoldable pub one_by_one : (ℕ → Answer) → (left n : ℕ) → Result (List (List SearchResult))
one_by_one task zero n = ok []
one_by_one task (suc left) n = do r ← task n; rest ← one_by_one task left (n + 1); ok (r ∷ rest)

abbrev pub is_taken : ℕ → List ℕ → Bool
is_taken n [] = false
is_taken n (j ∷ js) = n == j || is_taken n js

-- Every query is taken by some worker.
abbrev pub TakesAll : List ℕ → ℕ → Type 0
TakesAll order count = (n : ℕ) → n < count → is_taken n order ≡ true

-- A slot has the answer of its query once that is done, whoever did it and however often.
slot_filled :
    (task : ℕ → Answer) (order : List ℕ) (slots : Slots) (n : ℕ)
    → (is_taken n order ≡ true → work_all task order slots n ≡ some (task n))
      × (slots n ≡ some (task n) → work_all task order slots n ≡ some (task n))
unfolding work_all
slot_filled task [] slots n = (λ h. cc h, λ h. h)
slot_filled task (j ∷ js) slots n =
    let (taken, kept) = slot_filled task js (λ i. if i == j then some (task j) else slots i) n in
    elim (Bool-cases (n == j)) [
      | inl same ↦
          let e : n ≡ j = ground arith in
          let here = kept (rw same (ap (λ i. some (task i)) (sym e))) in (λ h. here, λ h. here)
      | inr other ↦ (λ h. taken (rw other at h), λ h. kept (rw other h))
    ]

module _ (task : ℕ → Answer) (slots : Slots) where
  collect-error :
      (left n : ℕ) (e : Error) (results : List (List SearchResult))
      → ((j : ℕ) → j < n + left → slots j ≡ some (task j))
      → collect slots left n (some e) results ≡ err e
  unfolding collect
  collect-error zero n e results filled = refl
  collect-error (suc left) n e results filled = elim (Result-cases (task n)) [
    | inl (r, h) ↦
        rw (filled n (omega arith), h, collect)
          (collect-error left (n + 1) e (results ++ r ∷ []) (λ j lt. filled j (omega arith)))
    | inr (x, h) ↦
        rw (filled n (omega arith), h, collect)
          (collect-error left (n + 1) e (results ++ [] ∷ []) (λ j lt. filled j (omega arith)))
  ]

  collect-one_by_one :
      (left n : ℕ) (results : List (List SearchResult))
      → ((j : ℕ) → j < n + left → slots j ≡ some (task j))
      → collect slots left n none results
        ≡ (one_by_one task left n >>= λ rest. ok (results ++ rest))
  unfolding collect one_by_one
  collect-one_by_one zero n results filled = ap ok (sym (append-nil results))
  collect-one_by_one (suc left) n results filled = elim (Result-cases (task n)) [
    | inl (r, h) ↦
        rw (filled n (omega arith), h, collect)
          (collect-one_by_one left (n + 1) (results ++ r ∷ []) (λ j lt. filled j (omega arith))
            ∙ moved r (one_by_one task left (n + 1)))
    | inr (x, h) ↦
        rw (filled n (omega arith), h, collect)
          (collect-error left (n + 1) x (results ++ [] ∷ []) (λ j lt. filled j (omega arith)))
  ]
    where
      moved :
          (r : List SearchResult) (rest : Result (List (List SearchResult)))
          → (rest >>= λ rs. ok ((results ++ r ∷ []) ++ rs))
            ≡ ((rest >>= λ rs. ok (r ∷ rs)) >>= λ rs. ok (results ++ rs))
      moved r (err e) = refl
      moved r (ok rs) = ap ok (append_assoc results (r ∷ []) rs)

module _ (index_type : VectorIndex) where
  -- A batch gives, in the order of its queries, what the queries give one by one, or the error of
  -- the first query that throws, in whatever order the workers take them. Each query is taken by
  -- some worker.
  pub search-one_by_one :
      (order : List ℕ) (index : index_type.Index) (queries : List ℕ) (query_count k : ℕ)
      → TakesAll order query_count
      → search index_type order index queries query_count k ≡ (
          check_shape index_type index queries query_count
          >> (if query_count == 0 || k == 0
              then ok (replicate query_count [])
              else one_by_one (search_one index_type index queries k) query_count 0))
  unfolding search
  search-one_by_one order index queries query_count k all =
      elim (Bool-cases (query_count == 0 || k == 0)) [
        | inl none_asked ↦ rw none_asked
        | inr asked ↦
            let task = search_one index_type index queries k in
            let slots = work_all task order no_answers in
            rw
              (
                asked,
                collect-one_by_one task slots query_count 0 []
                    (λ j lt. (slot_filled task order no_answers j).0 (all j (omega arith))),
              )
              (ap (λ a. check_shape index_type index queries query_count >> a)
                (whole (one_by_one task query_count 0)))
      ]
    where
      whole : (a : Result (List (List SearchResult))) → (a >>= λ rest. ok ([] ++ rest)) ≡ a
      whole (ok rs) = refl
      whole (err e) = refl
