-- ===== src/FlatIndex/Search.antt =====
-- The answers of FlatIndex::search (src/flat_index.cpp) against the best rows.
use mathlib.Core.Path.{subst}
use mathlib.Core.List.{perm_middle, append-nil, append_assoc}
use mathlib.Core.List.Perm
use fast_vector.Prelude.{
  ℕ, zero, suc, ◌+◌, ◌<◌, ◌≡◌, refl, sym, ap, ◌≢◌, ◌∙◌, List, [], ◌∷◌, ◌++◌, length, All, arith,
  get_or, Result, ok, ◌==◌, if◌then◌else◌, Bool-cases, inl, inr, min, >>=-eq-ok, ok-injective,
  false, ◌>>=◌, ==-refl,
}
use fast_vector.Distance.{Machine, normalize_l2, resolve_dot_product_kernel}
use fast_vector.SearchContext.{
  SearchContext, World, Budget, checkpoint, check_now, validate, enabled, fresh,
}
use fast_vector.SearchContext.Budgets.{checkpoint_off, check_now_off}
use fast_vector.SearchResult.{SearchResult, is_better, IsScored, is_better_ranking}
use fast_vector.Ranking.{sort_by}
use fast_vector.Ranking.Bounded.{
  offer, IsBest, IsBest-nil, IsTopOf, Dominates, offer-IsBest, sort-IsTopOf,
}
use fast_vector.FlatIndex.{FlatIndex, row, size, scan, drain, search}

-- The rows as results, from row `i` on.
abbrev pub scores : FlatIndex → (List ℕ → List ℕ → ℕ) → List ℕ → (left i : ℕ) → List SearchResult
scores index dot query zero i = []
scores index dot query (suc left) i =
    record { id = get_or index.ids i 0; score = dot query (row index.vectors index.dimension i) }
    ∷ scores index dot query left (i + 1)

length-scores :
    (index : FlatIndex) (dot : List ℕ → List ℕ → ℕ) (query : List ℕ) (left i : ℕ)
    → length (scores index dot query left i) ≡ left
length-scores index dot query zero i = refl
length-scores index dot query (suc left) i = ap suc (length-scores index dot query left (i + 1))

reorder :
    (n : ℕ) (xs ys queue rest : List SearchResult) (x : SearchResult)
    → IsBest is_better IsScored n (xs ++ x ∷ ys) queue rest
    → IsBest is_better IsScored n (x ∷ xs ++ ys) queue rest
reorder n xs ys queue rest x v = record {
  parts = Perm.trans v.parts (perm_middle xs ys);
  counted = v.counted ∙ length-middle xs;
  ordered = v.ordered;
  dominated = v.dominated;
  bounded = v.bounded;
  full = v.full;
  ranked = v.ranked;
  rest_ranked = v.rest_ranked;
}
  where
    length-middle : (zs : List SearchResult) → length (zs ++ x ∷ ys) ≡ length (x ∷ zs ++ ys)
    length-middle [] = refl
    length-middle (z ∷ zs) = ap suc (length-middle zs)

module _ (ctx : SearchContext) (world : World) where
  -- The scan keeps the best of the rows that it has passed.
  scan-IsBest :
      (index : FlatIndex) (dot : List ℕ → List ℕ → ℕ) (query : List ℕ) (count left i : ℕ)
      (queue seen rest : List SearchResult) (b : Budget) {queue' : List SearchResult} {b' : Budget}
      → 0 < count
      → All IsScored (scores index dot query left i)
      → IsBest is_better IsScored count seen queue rest
      → scan ctx world index dot query count left i queue b ≡ ok (queue', b')
      → (rest' : List SearchResult) × IsBest is_better IsScored count
          (scores index dot query left i ++ seen)
          queue'
          rest'
  unfolding scan
  scan-IsBest index dot query count zero i queue seen rest b pos numbers v h =
      let e = ap (λ (r : List SearchResult × Budget). r.0) (ok-injective h) in
      (rest, subst (λ q. IsBest is_better IsScored count seen q rest) e v)
  scan-IsBest index dot query count (suc left) i queue seen rest b pos numbers v h =
      let candidate : SearchResult = record {
        id = get_or index.ids i 0;
        score = dot query (row index.vectors index.dimension i);
      } in
      let (b'', e, k) = >>=-eq-ok (checkpoint ctx world b) _ h in
      let (more, w) =
        offer-IsBest is_better IsScored is_better_ranking count seen queue rest candidate pos v
          numbers.0 in
      let (rest', u) =
        scan-IsBest index dot query count left (i + 1) (offer is_better count candidate queue)
          (candidate ∷ seen) more b'' pos numbers.1 w k in
      (rest', reorder count (scores index dot query left (i + 1)) seen _ rest' candidate u)

  drain-eq :
      (queue results : List SearchResult) (b : Budget) {out : List SearchResult} {b' : Budget}
      → drain ctx world queue results b ≡ ok (out, b')
      → out ≡ results ++ queue
  unfolding drain
  drain-eq [] results b h =
      sym (ap (λ (r : List SearchResult × Budget). r.0) (ok-injective h)) ∙ sym (append-nil results)
  drain-eq (x ∷ queue) results b h =
      let (b'', e, k) = >>=-eq-ok (checkpoint ctx world b) _ h in
      drain-eq queue (results ++ x ∷ []) b'' k ∙ append_assoc results (x ∷ []) queue

  -- Without a deadline and a cancellation the loops end without an interruption.
  scan_ends :
      enabled ctx ≡ false
      → (index : FlatIndex) (dot : List ℕ → List ℕ → ℕ) (query : List ℕ) (count left i : ℕ)
        (queue : List SearchResult) (b : Budget)
      → (out : List SearchResult × Budget) × (scan ctx world index dot query count left i queue b
          ≡ ok out)
  unfolding scan
  scan_ends off index dot query count zero i queue b = ((queue, b), refl)
  scan_ends off index dot query count (suc left) i queue b =
      rw (checkpoint_off ctx world b off) (scan_ends off index dot query count left (i + 1) _ b)

  drain_ends :
      enabled ctx ≡ false
      → (queue results : List SearchResult) (b : Budget)
      → (out : List SearchResult × Budget) × (drain ctx world queue results b ≡ ok out)
  unfolding drain
  drain_ends off [] results b = ((results, b), refl)
  drain_ends off (x ∷ queue) results b =
      rw (checkpoint_off ctx world b off) (drain_ends off queue (results ++ x ∷ []) b)

nothing_kept : (rest : List SearchResult) → IsTopOf is_better 0 rest [] rest
nothing_kept rest = record {
  parts = Perm.refl rest;
  ordered = tt;
  dominated = above rest;
  counted = omega arith;
}
  where
    above : (xs : List SearchResult) → Dominates is_better [] xs
    above [] = tt
    above (x ∷ xs) = (tt, above xs)

-- The limit of the search is also cut to the size of the index.
limit_cut :
    (k : ℕ) (all results rest : List SearchResult)
    → IsTopOf is_better (min k (length all)) all results rest
    → IsTopOf is_better k all results rest
limit_cut k all results rest v = record {
  parts = v.parts;
  ordered = v.ordered;
  dominated = v.dominated;
  counted = omega (arith, v.counted);
}

module _ (ctx : SearchContext) (world : World) (m : Machine) (index : FlatIndex) (query : List ℕ)
    (k : ℕ) (normalized : List ℕ) (dot : List ℕ → List ℕ → ℕ) (valid : validate ctx ≡ ok tt)
    (fits : length query ≡ index.dimension) (normal : normalize_l2 m query ≡ ok normalized)
    (resolved : resolve_dot_product_kernel m index.kernel ≡ ok dot) where
  -- The rows of the index with their scores, in the order of the storage.
  abbrev pub all_scores : List SearchResult
  all_scores = scores index dot normalized (length index.ids) 0

  abbrev search_loops : ℕ → Budget → Result (List SearchResult)
  search_loops count b = do
    (candidates, b') ← scan ctx world index dot normalized count (length index.ids) 0 [] b
    (results, b'') ← drain ctx world candidates [] b'
    check_now ctx world b'' >>= λ _. ok (sort_by is_better results)

  search-loops : search ctx world m index query k ≡ (
      check_now ctx world fresh >>= λ b.
      if k == 0
      then ok []
      else (if min k (length index.ids) == 0
          then ok []
          else search_loops (min k (length index.ids)) b))
  unfolding search size
  search-loops = rw (valid, fits, ==-refl index.dimension, normal, resolved)

  search_loops-IsTopOf :
      (count : ℕ) (b : Budget) {results : List SearchResult}
      → 0 < count
      → All IsScored all_scores
      → search_loops count b ≡ ok results
      → (rest : List SearchResult) × IsTopOf is_better count all_scores results rest
  search_loops-IsTopOf count b {results} pos numbers h =
      let ((queue, b'), e, h') =
        >>=-eq-ok (scan ctx world index dot normalized count (length index.ids) 0 [] b) _ h in
      let ((out, b''), e', h'') = >>=-eq-ok (drain ctx world queue [] b') _ h' in
      let (b₃, e'', h₃) = >>=-eq-ok (check_now ctx world b'') _ h'' in
      let (rest, best) =
        scan-IsBest ctx world index dot normalized count (length index.ids) 0 [] [] [] b pos numbers
          (IsBest-nil is_better IsScored count) e in
      let drained = drain-eq ctx world queue [] b' e' in
      let same : sort_by is_better queue ≡ results =
        ap (sort_by is_better) (sym drained) ∙ ok-injective h₃ in
      let best' =
        subst (λ all. IsBest is_better IsScored count all queue rest) (append-nil all_scores)
          best in
      (
        rest,
        subst (λ r. IsTopOf is_better count all_scores r rest) same
            (sort-IsTopOf is_better IsScored is_better_ranking count all_scores queue rest best'),
      )

  -- A search of the flat index that returns gives the exact answer: the k best rows (all, if there
  -- are fewer), best first by score and then by ID, and no other row is better than one of them.
  -- The context is valid, the query has the index dimension and can be normalised, the kernel is
  -- available, and the scores are numbers.
  pub search-IsTopOf :
      {results : List SearchResult}
      → All IsScored all_scores
      → search ctx world m index query k ≡ ok results
      → (rest : List SearchResult) × IsTopOf is_better k all_scores results rest
  search-IsTopOf {results} numbers h =
      let (b, e, h') = >>=-eq-ok (check_now ctx world fresh) _ (sym search-loops ∙ h) in
      elim (Bool-cases (k == 0)) [
        | inl zero_asked ↦ none_asked (ok-injective (rw zero_asked at h')) (ground arith)
        | inr some_asked ↦ asked b (ground arith) (rw some_asked at h')
      ]
    where
      none_asked :
          [] ≡ results
          → k ≡ 0
          → (rest : List SearchResult) × IsTopOf is_better k all_scores results rest
      none_asked e z = rw (← e, z) (all_scores, nothing_kept all_scores)

      all_length : length all_scores ≡ length index.ids
      all_length = length-scores index dot normalized (length index.ids) 0

      no_rows :
          length index.ids ≡ 0 → (rest : List SearchResult) × IsTopOf is_better k all_scores [] rest
      no_rows z = (
        all_scores,
        limit_cut k all_scores [] all_scores (
            subst (λ n. IsTopOf is_better n all_scores [] all_scores) (omega (arith, all_length))
              (nothing_kept all_scores)),
      )

      asked :
          (b : Budget)
          → k ≢ 0
          → (if min k (length index.ids) == 0
              then ok []
              else search_loops (min k (length index.ids)) b)
            ≡ ok results
          → (rest : List SearchResult) × IsTopOf is_better k all_scores results rest
      asked b nonzero h = elim (Bool-cases (min k (length index.ids) == 0)) [
        | inl empty ↦
            subst (λ r. (rest : List SearchResult) × IsTopOf is_better k all_scores r rest)
              (ok-injective (rw empty at h)) (no_rows (ground arith))
        | inr full ↦
            let (rest, best) =
              search_loops-IsTopOf (min k (length index.ids)) b (ground arith) numbers
                (rw full at h) in
            (
              rest,
              limit_cut k all_scores results rest (
                  subst (λ n. IsTopOf is_better (min k n) all_scores results rest) (sym all_length)
                    best),
            )
      ]

  search_loops_ends :
      enabled ctx ≡ false
      → (count : ℕ) (b : Budget)
      → (results : List SearchResult) × (search_loops count b ≡ ok results)
  search_loops_ends off count b =
      let ((queue, b'), e) =
        scan_ends ctx world off index dot normalized count (length index.ids) 0 [] b in
      let ((out, b''), e') = drain_ends ctx world off queue [] b' in
      (sort_by is_better out, rw (e, e', check_now_off ctx world b'' off))

  -- Without a deadline and a cancellation a search returns a result, and it is the exact one. The
  -- context is valid, the query has the index dimension and can be normalised, the kernel is
  -- available, and the scores are numbers.
  pub search_returns :
      enabled ctx ≡ false
      → All IsScored all_scores
      → (results : List SearchResult) × (search ctx world m index query k ≡ ok results)
        × ((rest : List SearchResult) × IsTopOf is_better k all_scores results rest)
  search_returns off numbers = returned ends
    where
      answer :
          (b : Budget)
          → (results : List SearchResult) × ((if k == 0
                then ok []
                else (if min k (length index.ids) == 0
                    then ok []
                    else search_loops (min k (length index.ids)) b))
              ≡ ok results)
      answer b = elim (Bool-cases (k == 0)) [
        | inl none_asked ↦ rw none_asked ([], refl)
        | inr asked ↦ rw asked (elim (Bool-cases (min k (length index.ids) == 0)) [
          | inl empty ↦ rw empty ([], refl)
          | inr full ↦ rw full (search_loops_ends off (min k (length index.ids)) b)
        ])
      ]

      ends : (results : List SearchResult) × (search ctx world m index query k ≡ ok results)
      ends =
          let (results, e) = answer (record { remaining = 0; checks = 1 }) in
          (results, search-loops ∙ rw (check_now_off ctx world fresh off) e)

      returned :
          ((results : List SearchResult) × (search ctx world m index query k ≡ ok results))
          → (results : List SearchResult) × (search ctx world m index query k ≡ ok results)
            × ((rest : List SearchResult) × IsTopOf is_better k all_scores results rest)
      returned (results, e) = (results, e, search-IsTopOf numbers e)
