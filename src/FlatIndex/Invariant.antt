-- ===== src/FlatIndex/Invariant.antt =====
-- The invariant of the flat index (src/flat_index.cpp): its arrays and its map.
use mathlib.Core.Logic.{◌≢◌}
use mathlib.Core.Path.{subst, fun_ext}
use fast_vector.Prelude.{
  ℕ, suc, ◌+◌, ◌-◌, ◌*◌, ◌<◌, ◌≡◌, refl, sym, ap, ◌∙◌, List, [], ◌∷◌, ◌++◌, length, Option, none,
  some, get_elem?, get_or, set, init, get_last?, arith, length-take, length-append, length-set,
  length-init, get_elem?-lt, get_elem?-snoc, get_elem?-init, get_elem?-set, get_elem?-get_or, ok,
  err, ◌==◌, if◌then◌else◌, Bool-cases, inl, inr, min, assign, ltb, Option-cases, Error, >>=-eq-ok,
  throw_if, throw_if-eq-ok, Result-cases, is_some, not, get_last?-get_elem?, get_last?-snoc,
  init-snoc,
}
use fast_vector.Distance.{DotProductKernel, Machine, normalize_l2, length-normalize_l2}
use fast_vector.FlatIndex.{
  FlatIndex, create, append, roll_back, admit, add, Fault, no_fault, at_emplace, at_ids, at_vectors,
  move_last, drop_last, remove_row, erase, copy_row, row,
}
use fast_vector.FlatIndex.Storage.{length-copy_row}

pub record IsValid (index : FlatIndex) : Type 0 where
  pub positive : 0 < index.dimension
  pub stored : length index.vectors ≡ length index.ids * index.dimension
  pub mapped : (j r : ℕ) → index.id_to_row j ≡ some r → get_elem? index.ids r ≡ some j
  pub indexed : (j r : ℕ) → get_elem? index.ids r ≡ some j → index.id_to_row j ≡ some r

pub create-IsValid :
    (dimension : ℕ) (kernel : DotProductKernel) {index : FlatIndex}
    → create dimension kernel ≡ ok index
    → IsValid index
unfolding create
create-IsValid dimension kernel {index} h = record {
  positive = ground arith;
  stored = ground arith;
  mapped = λ j r e. ground arith;
  indexed = λ j r e. ground arith;
}

grown :
    (vectors ids d : ℕ) {more vectors' ids' : ℕ}
    → vectors ≡ ids * d
    → more ≡ d
    → vectors' ≡ vectors + more
    → ids' ≡ ids + 1
    → vectors' ≡ ids' * d
grown vectors ids d {more} {vectors'} {ids'} v m e f = rw f (omega arith)

shrunk :
    (vectors ids d last : ℕ) {vectors' ids' : ℕ}
    → vectors ≡ ids * d
    → ids ≡ suc last
    → vectors' ≡ min (vectors - d) vectors
    → ids' ≡ ids - 1
    → vectors' ≡ ids' * d
shrunk vectors ids d last {vectors'} {ids'} v n e f =
    let k : ids' ≡ last = omega arith in
    let l : vectors ≡ suc last * d = v ∙ ap (λ (j : ℕ). j * d) n in rw k (omega arith)

-- A vector is stored under a fresh ID.
pub appended-IsValid :
    (index : FlatIndex) (id : ℕ) (normalized : List ℕ)
    → IsValid index
    → index.id_to_row id ≡ none
    → length normalized ≡ index.dimension
    → IsValid (append no_fault index id normalized).0
unfolding append
appended-IsValid index id normalized v e l = record {
  positive = v.positive;
  stored =
      grown (length index.vectors) (length index.ids) index.dimension v.stored l
        (length-append index.vectors normalized) (length-append index.ids (id ∷ []));
  mapped = λ j r h.
      ground (arith, get_elem?-snoc index.ids id r, v.mapped j r, get_elem?-lt index.ids r {a = j});
  indexed = λ j r h. ground (arith, get_elem?-snoc index.ids id r, v.indexed j r);
}

module _ (index : FlatIndex) (v : IsValid index) (id : ℕ) (last : ℕ) where
  -- The last row goes with its ID.
  pub drop_last-IsValid :
      get_elem? index.ids last ≡ some id
      → length index.ids ≡ suc last
      → IsValid (drop_last index id)
  unfolding drop_last
  drop_last-IsValid e n = record {
    positive = v.positive;
    stored =
        shrunk (length index.vectors) (length index.ids) index.dimension last v.stored n
          (length-take (length index.vectors - index.dimension) index.vectors)
          (length-init index.ids);
    mapped = λ j r h. ground (
      arith,
      get_elem?-init index.ids r,
      v.mapped j r,
      get_elem?-lt index.ids r {a = j},
      v.indexed j r,
    );
    indexed = λ j r h. ground (arith, get_elem?-init index.ids r, v.indexed j r, v.indexed id last);
  }

-- The last row moves into the place of the erased one, and its old place goes.
module _ (index : FlatIndex) (v : IsValid index) (id row last : ℕ)
    (found : index.id_to_row id ≡ some row) (other : row ≢ last)
    (counted : length index.ids ≡ suc last) where
  back : ℕ
  back = get_or index.ids last 0

  back_at : get_elem? index.ids last ≡ some back
  unfolding back
  back_at = get_elem?-get_or index.ids last 0 (omega arith)

  row_at : get_elem? index.ids row ≡ some id
  row_at = v.mapped id row found

  row_lt : row < last
  row_lt = omega (arith, get_elem?-lt index.ids row row_at)

  -- The IDs after the move.
  ids_after : List ℕ
  ids_after = init (set index.ids row back)

  get_elem?-ids_after :
      (r : ℕ)
      → get_elem? ids_after r
        ≡ (if ltb r last then (if r == row then some back else get_elem? index.ids r) else none)
  unfolding ids_after
  get_elem?-ids_after r = ground (
    arith,
    get_elem?-init (set index.ids row back) r,
    get_elem?-set index.ids row r back,
    length-set index.ids row back,
    row_lt,
  )

  map_after : ℕ → Option ℕ
  map_after = assign (assign index.id_to_row back (some row)) id none

  mapped_after : (j r : ℕ) → map_after j ≡ some r → get_elem? ids_after r ≡ some j
  unfolding map_after
  mapped_after j r h = ground (
    arith,
    get_elem?-ids_after r,
    v.mapped j r,
    row_lt,
    row_at,
    back_at,
    v.indexed back last,
    get_elem?-lt index.ids r {a = j},
  )

  indexed_after : (j r : ℕ) → get_elem? ids_after r ≡ some j → map_after j ≡ some r
  unfolding map_after
  indexed_after j r h = ground (
    arith,
    get_elem?-ids_after r,
    v.indexed j r,
    row_lt,
    row_at,
    back_at,
    v.indexed back last,
    found,
    v.indexed id row,
  )

  pub moved-IsValid : IsValid (drop_last (move_last index row last) id)
  unfolding drop_last move_last ids_after map_after back
  moved-IsValid = record {
    positive = v.positive;
    stored =
        shrunk (length copied) (length (set index.ids row back)) index.dimension last
          (copied_length ∙ v.stored ∙ ap (λ (k : ℕ). k * index.dimension) (sym same_ids))
          (same_ids ∙ counted) (length-take (length copied - index.dimension) copied)
          (length-init (set index.ids row back));
    mapped = mapped_after;
    indexed = indexed_after;
  }
    where
      copied : List ℕ
      copied = copy_row index.vectors index.dimension last row

      copied_length : length copied ≡ length index.vectors
      copied_length =
          length-copy_row index.vectors index.dimension (length index.ids) last row v.stored
            (omega (arith, row_lt)) (omega arith)

      same_ids : length (set index.ids row back) ≡ length index.ids
      same_ids = length-set index.ids row back

pub remove_row-IsValid :
    (index : FlatIndex) (id row : ℕ)
    → IsValid index
    → index.id_to_row id ≡ some row
    → IsValid (remove_row index id row)
unfolding remove_row
remove_row-IsValid index id row v found =
    let lt = get_elem?-lt index.ids row (v.mapped id row found) in
    let last : ℕ = length index.ids - 1 in
    let counted : length index.ids ≡ suc last = omega arith in
    elim (Bool-cases (row == last)) [
      | inl e ↦
          let e' : row ≡ last = ground arith in
          rw e (
            drop_last-IsValid index v id last
              (subst (λ k. get_elem? index.ids k ≡ some id) e' (v.mapped id row found)) counted)
      | inr e ↦ rw e (moved-IsValid index v id row last found (ground arith) counted)
    ]

-- Erasing an ID keeps the arrays and the map in agreement, whether the ID is stored or not.
pub erase-IsValid : (index : FlatIndex) (id : ℕ) → IsValid index → IsValid (erase index id).0
unfolding erase
erase-IsValid index id v = elim (Option-cases (index.id_to_row id)) [
  | inl e ↦ rw (e, erase) v
  | inr (row, e) ↦ rw (e, erase) (remove_row-IsValid index id row v e)
]

-- What the rollback leaves of the IDs and of the map.
abbrev ids_rolled_back : List ℕ → ℕ → List ℕ
ids_rolled_back ids id = elim (get_last? ids) [
  | none ↦ ids
  | some b ↦ if b == id then init ids else ids
]

module _ (index : FlatIndex) (id : ℕ) (v : IsValid index) (e : index.id_to_row id ≡ none) where
  ids_kept : ids_rolled_back index.ids id ≡ index.ids
  ids_kept = elim (Option-cases (get_last? index.ids)) [
    | inl none_left ↦ ground arith
    | inr (b, at_end) ↦
        let stored = v.indexed b (length index.ids - 1) (get_last?-get_elem? index.ids at_end) in
        ground arith
  ]

  ids_popped : ids_rolled_back (index.ids ++ id ∷ []) id ≡ index.ids
  ids_popped = ground (arith, get_last?-snoc index.ids id, init-snoc index.ids id)

  map_kept : (row : ℕ) → assign (assign index.id_to_row id (some row)) id none ≡ index.id_to_row
  map_kept row = fun_ext λ j. ground arith

  -- An allocation that throws leaves no trace, whichever it is.
  pub rolled_back :
      (fault : Fault)
      → fault ≢ no_fault
      → (normalized : List ℕ) → (append fault index id normalized).0 ≡ index
  unfolding append roll_back
  rolled_back at_emplace h normalized = refl
  rolled_back at_ids h normalized =
      λ i. record index { ids = ids_kept i; id_to_row = map_kept (length index.ids) i }
  rolled_back at_vectors h normalized =
      λ i. record index { ids = ids_popped i; id_to_row = map_kept (length index.ids) i }
  rolled_back no_fault h normalized = absurd (h refl)

-- What `admit` lets through: an unused ID with a vector of the right length.
pub admit-eq-ok :
    (m : Machine) (index : FlatIndex) (id : ℕ) (vector : List ℕ) {normalized : List ℕ}
    → admit m index id vector ≡ ok normalized
    → (index.id_to_row id ≡ none)
      × (length vector ≡ index.dimension)
      × (normalize_l2 m vector ≡ ok normalized)
unfolding admit
admit-eq-ok m index id vector h =
    let (u, dim, rest) = >>=-eq-ok (throw_if (not (length vector == index.dimension)) _) _ h in
    let (w, unused, normal) = >>=-eq-ok (throw_if (is_some (index.id_to_row id)) _) _ rest in
    let dim' = throw_if-eq-ok _ _ dim in
    let unused' = throw_if-eq-ok _ _ unused in (ground arith, ground arith, normal)

append-IsValid :
    (fault : Fault) (index : FlatIndex) (id : ℕ) (normalized : List ℕ)
    → IsValid index
    → index.id_to_row id ≡ none
    → length normalized ≡ index.dimension
    → IsValid (append fault index id normalized).0
append-IsValid no_fault index id normalized v e l = appended-IsValid index id normalized v e l
append-IsValid at_emplace index id normalized v e l =
    rw (rolled_back index id v e at_emplace (λ h. cc) normalized) v
append-IsValid at_ids index id normalized v e l =
    rw (rolled_back index id v e at_ids (λ h. cc) normalized) v
append-IsValid at_vectors index id normalized v e l =
    rw (rolled_back index id v e at_vectors (λ h. cc) normalized) v

-- An insertion keeps the arrays and the map in agreement, whether it succeeds, is refused, or an
-- allocation throws.
pub add-IsValid :
    (m : Machine) (fault : Fault) (index : FlatIndex) (id : ℕ) (vector : List ℕ)
    → IsValid index
    → IsValid (add m fault index id vector).0
unfolding add
add-IsValid m fault index id vector v = elim (Result-cases (admit m index id vector)) [
  | inl (normalized, e) ↦
      let (unused, dim, normal) = admit-eq-ok m index id vector e in
      rw (e, add)
        (append-IsValid fault index id normalized v unused
          (length-normalize_l2 m vector normal ∙ dim))
  | inr (x, e) ↦ rw (e, add) v
]

append-eq-err :
    (fault : Fault) (index : FlatIndex) (id : ℕ) (normalized : List ℕ) {e : Error}
    → (append fault index id normalized).1 ≡ err e
    → fault ≢ no_fault
unfolding append
append-eq-err no_fault index id normalized h = cc
append-eq-err at_emplace index id normalized h = λ p. cc
append-eq-err at_ids index id normalized h = λ p. cc
append-eq-err at_vectors index id normalized h = λ p. cc

-- Strong exception guarantee: an insertion into a valid index that throws, in a check, in
-- normalisation or in an allocation, leaves the index exactly as it was.
pub add_throws-unchanged :
    (m : Machine) (fault : Fault) (index : FlatIndex) (id : ℕ) (vector : List ℕ) {e : Error}
    → IsValid index
    → (add m fault index id vector).1 ≡ err e
    → (add m fault index id vector).0 ≡ index
unfolding add
add_throws-unchanged m fault index id vector {e} v = elim (Result-cases (admit m index id vector)) [
  | inl (normalized, a) ↦
      rw (a, add)
        (λ h.
          rolled_back index id v (admit-eq-ok m index id vector a).0 fault
            (append-eq-err fault index id normalized h) normalized)
  | inr (x, a) ↦ rw (a, add) (λ h. refl)
]
