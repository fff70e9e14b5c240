-- ===== src/VectorStore/Counted.antt =====
-- The counters of queries (src/vector_store.cpp) while queries overlap and others publish.
use fast_vector.Prelude.{
  ℕ, zero, suc, ◌+◌, ◌-◌, ◌≤◌, ◌%◌, ◌^◌, ◌<◌, ◌≡◌, ◌∙◌, refl, sym, ap, not, ◌&&◌, List, [], ◌∷◌,
  ◌++◌, some, get_elem?, set, ◌>>◌, arith, inl, inr, Bool-cases, Result-cases,
}
use text.Mathlib.Text.{◌==◌ as str_eq}
use fast_vector.Distance.{Machine}
use fast_vector.SearchContext.{validate, check}
use fast_vector.VectorIndex.{VectorIndex}
use fast_vector.VectorStore.{
  Ownership, VectorStore, serving, writable, add, add_batch, search_owned, is_empty,
}
use fast_vector.VectorStore.Query.{
  Query, Call, entered, checked, holding, matched, searched, returned, thrown, advance,
  advance_from,
}
use fast_vector.VectorStore.Untouched.{
  SameCounts, replaced-SameCounts, activated-SameCounts, add-SameCounts, add_batch-SameCounts,
}
use fast_vector.VectorStore.Overlap.{
  System, Step, Reach, enters, advances, replaces, activates, adds, batches, here, next,
}

module _ (index_type : VectorIndex) where
  abbrev pub has_returned : Query index_type → ℕ
  has_returned (returned r) = 1
  has_returned entered = 0
  has_returned checked = 0
  has_returned (holding snapshot) = 0
  has_returned (matched snapshot version identity) = 0
  has_returned (searched neighbors version identity) = 0
  has_returned (thrown x) = 0

  abbrev pub has_thrown : Query index_type → ℕ
  has_thrown (thrown x) = 1
  has_thrown entered = 0
  has_thrown checked = 0
  has_thrown (holding snapshot) = 0
  has_thrown (matched snapshot version identity) = 0
  has_thrown (searched neighbors version identity) = 0
  has_thrown (returned r) = 0

  -- How many queries have ended in one of the two ways.
  abbrev pub tally : (Query index_type → ℕ) → List (Call index_type) → ℕ
  tally f [] = 0
  tally f (c ∷ cs) = f c.state + tally f cs

  tally-append :
      (f : Query index_type → ℕ) (xs : List (Call index_type)) (c : Call index_type)
      → tally f (xs ++ c ∷ []) ≡ tally f xs + f c.state
  tally-append f [] c = omega arith
  tally-append f (x ∷ xs) c = omega (arith, tally-append f xs c)

  tally-set :
      (f : Query index_type → ℕ) (xs : List (Call index_type)) (i : ℕ) (c : Call index_type)
      {d : Call index_type}
      → get_elem? xs i ≡ some d
      → tally f (set xs i c) + f d.state ≡ tally f xs + f c.state
  tally-set f [] i c h = cc
  tally-set f (x ∷ xs) zero c {d} h = let e : f x.state ≡ f d.state = ap f (cc) in omega (arith, e)
  tally-set f (x ∷ xs) (suc i) c h = omega (arith, tally-set f xs i c h)

  le-tally :
      (f : Query index_type → ℕ) (xs : List (Call index_type)) (i : ℕ) {d : Call index_type}
      → get_elem? xs i ≡ some d
      → f d.state ≤ tally f xs
  le-tally f [] i h = cc
  le-tally f (x ∷ xs) zero {d} h = let e : f x.state ≡ f d.state = ap f (cc) in omega (arith, e)
  le-tally f (x ∷ xs) (suc i) h = omega (arith, le-tally f xs i h)

  -- `n` queries have returned, and `k` have thrown; the counters have 64 bits.
  abbrev Counts : VectorStore index_type → (n k : ℕ) → Type 0
  Counts s n k = (s.successful_queries ≡ n % 2 ^ 64) × (s.failed_queries ≡ k % 2 ^ 64)

  -- A step counts its query exactly if it ends it.
  advance_from-Counts :
      (s : VectorStore index_type) (c : Call index_type) (q : Query index_type) (n k : ℕ)
      → Counts s (n + has_returned q) (k + has_thrown q)
      → Counts
          (advance_from index_type s c q).0
          (n + has_returned (advance_from index_type s c q).1)
          (k + has_thrown (advance_from index_type s c q).1)
  unfolding advance_from
  advance_from-Counts s c entered n k h =
      elim (Result-cases (validate c.context >> check c.context c.encounter.before)) [
        | inl (u, e) ↦ rw (e, advance_from) h
        | inr (x, e) ↦ rw (e, advance_from) (omega (arith, h))
      ]
  advance_from-Counts s c checked n k h = owned s.ownership refl
    where
      owned :
          (o : Ownership index_type)
          → s.ownership ≡ o
          → Counts
              (advance_from index_type s c checked).0
              (n + has_returned (advance_from index_type s c checked).1)
              (k + has_thrown (advance_from index_type s c checked).1)
      owned (serving snapshot) e = rw (e, advance_from) h
      owned (writable index) e =
          elim (Result-cases
            (search_owned index_type (writable index) c.query c.k c.context c.encounter)) [
              | inl (r, f) ↦ rw (e, advance_from, f) h
              | inr (x, f) ↦ rw (e, advance_from, f) (omega (arith, h))
            ]
  advance_from-Counts s c (holding snapshot) n k h =
      elim (Bool-cases (
        not (is_empty c.context.expected_snapshot_id)
        && not (str_eq c.context.expected_snapshot_id snapshot.identity.snapshot_id))) [
          | inl e ↦ rw (e, advance_from) (omega (arith, h))
          | inr e ↦ rw (e, advance_from) h
        ]
  advance_from-Counts s c (matched snapshot version identity) n k h =
      elim (Result-cases
        (index_type.search c.context c.encounter.during snapshot.index c.query c.k)) [
          | inl (neighbors, e) ↦ rw (e, advance_from) h
          | inr (x, e) ↦ rw (e, advance_from) (omega (arith, h))
        ]
  advance_from-Counts s c (searched neighbors version identity) n k h =
      elim (Result-cases (check c.context c.encounter.after)) [
        | inl (u, e) ↦ rw (e, advance_from) (omega (arith, h))
        | inr (x, e) ↦ rw (e, advance_from) (omega (arith, h))
      ]
  advance_from-Counts s c (returned r) n k h = h
  advance_from-Counts s c (thrown x) n k h = h

  module _ (m : Machine) where
    -- The counters of `z` when `n` queries had returned and `k` had thrown before it had any.
    abbrev Counted : (n k : ℕ) → System index_type m → Type 0
    Counted n k z =
        Counts z.store (n + tally has_returned z.queries) (k + tally has_thrown z.queries)

    kept :
        (n k : ℕ) (z : System index_type m) (t : VectorStore index_type)
        → SameCounts index_type z.store t
        → Counted n k z
        → Counted n k (record z { store = t })
    kept n k z t s h = (s.0 ∙ h.0, s.1 ∙ h.1)

    Step-Counted :
        (n k : ℕ) (z w : System index_type m)
        → Step index_type m z w
        → Counted n k z
        → Counted n k w
    unfolding advance
    Step-Counted n k z w (enters c f e) h =
        let none_returned : has_returned c.state ≡ 0 = rw f refl in
        let none_thrown : has_thrown c.state ≡ 0 = rw f refl in
        rw e (
          omega (arith, h, tally-append has_returned z.queries c, none_returned),
          omega (arith, h, tally-append has_thrown z.queries c, none_thrown),
        )
    Step-Counted n k z w (advances i c g e) h =
        let q = (advance index_type z.store c).1 in
        let changed = record c { state = q } in
        let others = n + tally has_returned z.queries - has_returned c.state in
        let others' = k + tally has_thrown z.queries - has_thrown c.state in
        let before : others + has_returned c.state ≡ n + tally has_returned z.queries =
          omega (arith, le-tally has_returned z.queries i g) in
        let before' : others' + has_thrown c.state ≡ k + tally has_thrown z.queries =
          omega (arith, le-tally has_thrown z.queries i g) in
        let after : others + has_returned q ≡ n + tally has_returned (set z.queries i changed) =
          omega (arith, before, tally-set has_returned z.queries i changed g) in
        let after' : others' + has_thrown q ≡ k + tally has_thrown (set z.queries i changed) =
          omega (arith, before', tally-set has_thrown z.queries i changed g) in
        let stepped = advance_from-Counts z.store c c.state others others' (
          h.0 ∙ ap (λ (j : ℕ). j % 2 ^ 64) (sym before),
          h.1 ∙ ap (λ (j : ℕ). j % 2 ^ 64) (sym before'),
        ) in
        rw e (
          stepped.0 ∙ ap (λ (j : ℕ). j % 2 ^ 64) after,
          stepped.1 ∙ ap (λ (j : ℕ). j % 2 ^ 64) after',
        )
    Step-Counted n k z w (replaces i {t} g e) h =
        rw e (kept n k z t (replaced-SameCounts index_type z.store t i g) h)
    Step-Counted n k z w (activates p {t} g e) h =
        rw e (kept n k z t (activated-SameCounts index_type z.store t p g) h)
    Step-Counted n k z w (adds id vector e) h = rw e (
        kept n k z (add index_type z.store id vector).0
          (add-SameCounts index_type z.store id vector) h)
    Step-Counted n k z w (batches vectors e) h = rw e (
        kept n k z (add_batch index_type m z.store vectors).0
          (add_batch-SameCounts index_type m z.store vectors) h)

    Reach-Counted :
        (n k : ℕ) (y z : System index_type m)
        → Reach index_type m y z
        → Counted n k y
        → Counted n k z
    Reach-Counted n k y z here h = h
    Reach-Counted n k y z (next {z = w} r st) h =
        Step-Counted n k w z st (Reach-Counted n k y w r h)

    -- However queries overlap each other, publications and insertions, the counter of successful
    -- queries has grown by the number of queries that have returned, and that of failed ones by
    -- the number that have thrown, both modulo 2 ^ 64; a query that is under way is not counted.
    -- No query is under way at the start, and the counters have 64 bits.
    pub queries_counted :
        (y z : System index_type m)
        → y.queries ≡ []
        → y.store.successful_queries < 2 ^ 64
        → y.store.failed_queries < 2 ^ 64
        → Reach index_type m y z
        → (z.store.successful_queries
            ≡ (y.store.successful_queries + tally has_returned z.queries) % 2 ^ 64)
          × (z.store.failed_queries
              ≡ (y.store.failed_queries + tally has_thrown z.queries) % 2 ^ 64)
    queries_counted y z none_yet fits fits' r =
        Reach-Counted y.store.successful_queries y.store.failed_queries y z r
          (rw none_yet (omega (arith, fits), omega (arith, fits')))
