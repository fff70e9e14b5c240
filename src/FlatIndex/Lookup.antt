-- ===== src/FlatIndex/Lookup.antt =====
-- The flat index as a map from IDs to vectors: `add` and `erase` are its insertion and removal.
use mathlib.Core.Logic.{◌≢◌}
use mathlib.Core.Path.{subst}
use fast_vector.Prelude.{
  ℕ, suc, ◌-◌, ◌*◌, ◌≤◌, ◌<◌, ◌≡◌, refl, ap, ◌∙◌, List, length, take, Option, none, some, get_elem?,
  get_or, arith, get_elem?-lt, get_elem?-get_or, ok, ◌==◌, if◌then◌else◌, Bool-cases, ==-refl,
  Option-cases, inl, inr, is_some, Bool, true, false, IdMap, assign,
}
use fast_vector.Distance.{Machine, normalize_l2, length-normalize_l2}
use fast_vector.FlatIndex.{
  FlatIndex, append, admit, add, no_fault, move_last, drop_last, remove_row, erase, copy_row, row,
}
use fast_vector.FlatIndex.Storage.{
  length-copy_row, row-append, row-append_new, row-take, row-copy_row_self, row-copy_row_ne,
}
use fast_vector.FlatIndex.Invariant.{IsValid}

abbrev fetch : List ℕ → ℕ → Option ℕ → Option (List ℕ)
fetch vectors dimension none = none
fetch vectors dimension (some r) = some (row vectors dimension r)

-- The vector under an ID.
abbrev pub vector_of : FlatIndex → ℕ → Option (List ℕ)
vector_of index j = fetch index.vectors index.dimension (index.id_to_row j)

fetch-if :
    (c : Bool) (vectors : List ℕ) (d : ℕ) (x y : Option ℕ)
    → fetch vectors d (if c then x else y) ≡ (if c then fetch vectors d x else fetch vectors d y)
fetch-if true vectors d x y = refl
fetch-if false vectors d x y = refl

-- A map whose entry for `id` goes, and whose entry for the last row points to the freed one.
fetch-moved :
    (rows : IdMap) (before after : List ℕ) (d id b r₀ last j : ℕ)
    → rows b ≡ some last
    → r₀ < last
    → ((r : ℕ) → r < last → row after d r ≡ (if r == r₀ then row before d last else row before d r))
    → ((r : ℕ) → rows j ≡ some r → (r ≤ last) × (r ≡ r₀ → j ≡ id) × (r ≡ last → j ≡ b))
    → fetch after d (assign (assign rows b (some r₀)) id none j)
      ≡ (if j == id then none else fetch before d (rows j))
fetch-moved rows before after d id b r₀ last j at_b lt kept only = elim (Bool-cases (j == id)) [
  | inl erased ↦ rw erased
  | inr other ↦ elim (Bool-cases (j == b)) [
    | inl moved ↦
        let e : j ≡ b = ground arith in
        let at : rows j ≡ some last = ap rows e ∙ at_b in
        let here : row after d r₀ ≡ row before d last = kept r₀ lt ∙ rw (==-refl r₀) in
        rw (other, moved, at) (ap some here)
    | inr stays ↦
        rw (other, stays)
          (elim (Option-cases (rows j)) [
            | inl absent ↦ rw absent
            | inr (r, present) ↦
                let (le, first, second) = only r present in
                let ne : r ≢ r₀ = λ e. cc (==-ne other (first e)) in
                let lt' : r < last = below le (λ e. cc (==-ne stays (second e))) in
                rw present (ap some (kept r lt' ∙ rw (==-false ne)))
          ])
  ]
]
  where
    ==-ne : {k : ℕ} → (j == k) ≡ false → j ≡ k → true ≡ false
    ==-ne {k} h e = ground arith

    ==-false : {r : ℕ} → r ≢ r₀ → (r == r₀) ≡ false
    ==-false h = ground arith

    below : {r : ℕ} → r ≤ last → r ≢ last → r < last
    below h k = omega arith

module _ (index : FlatIndex) (v : IsValid index) (id : ℕ) (last : ℕ) where
  vector_of-drop_last :
      get_elem? index.ids last ≡ some id
      → length index.ids ≡ suc last
      → (j : ℕ) → vector_of (drop_last index id) j ≡ (if j == id then none else vector_of index j)
  unfolding drop_last
  vector_of-drop_last e n j = elim (Bool-cases (j == id)) [
    | inl erased ↦ rw erased
    | inr other ↦ rw other (elim (Option-cases (index.id_to_row j)) [
      | inl absent ↦ rw absent
      | inr (r, present) ↦
          let at = v.mapped j r present in
          rw present (
            ap some (
              row-take index.vectors index.dimension r last (stored_at n)
                (not_last r at (get_elem?-lt index.ids r at) other n)))
    ])
  ]
    where
      not_last :
          (r : ℕ)
          → get_elem? index.ids r ≡ some j
          → r < length index.ids
          → (j == id) ≡ false
          → length index.ids ≡ suc last
          → r < last
      not_last r at lt other n = ground (arith, e)

      stored_at : length index.ids ≡ suc last → length index.vectors ≡ suc last * index.dimension
      stored_at h = v.stored ∙ ap (λ (k : ℕ). k * index.dimension) h

module _ (index : FlatIndex) (v : IsValid index) (id r₀ last : ℕ)
    (found : index.id_to_row id ≡ some r₀) (other : r₀ ≢ last)
    (counted : length index.ids ≡ suc last) where
  copied : List ℕ
  copied = copy_row index.vectors index.dimension last r₀

  within : r₀ < length index.ids
  within = get_elem?-lt index.ids r₀ (v.mapped id r₀ found)

  length-copied : length copied ≡ suc last * index.dimension
  unfolding copied
  length-copied =
      length-copy_row index.vectors index.dimension (length index.ids) last r₀ v.stored within
        (omega arith)
      ∙ v.stored
      ∙ ap (λ (k : ℕ). k * index.dimension) counted

  -- The rows that are left after the move.
  row_after :
      (r : ℕ)
      → r < last
      → row (take (length copied - index.dimension) copied) index.dimension r ≡ (
          if r == r₀
          then row index.vectors index.dimension last
          else row index.vectors index.dimension r)
  row_after r h =
      row-take copied index.dimension r last length-copied h
      ∙ unfold copied in
        elim (Bool-cases (r == r₀)) [
          | inl e ↦
              let e' : r ≡ r₀ = ground arith in
              rw (e, e')
                (row-copy_row_self index.vectors index.dimension (length index.ids) last r₀ v.stored
                  within (omega arith))
          | inr e ↦ rw e (
              row-copy_row_ne index.vectors index.dimension (length index.ids) last r₀ v.stored
                within r (ground arith) (omega arith))
        ]

  vector_of-moved :
      (j : ℕ)
      → vector_of (drop_last (move_last index r₀ last) id) j
        ≡ (if j == id then none else vector_of index j)
  unfolding drop_last move_last copied
  vector_of-moved j =
      fetch-moved index.id_to_row index.vectors _ index.dimension id (get_or index.ids last 0) r₀
        last j mapped_back (omega (arith, within)) row_after
        (λ r h. (
          omega (arith, get_elem?-lt index.ids r (v.mapped j r h)),
          λ e. only_at_row r e (v.mapped j r h),
          λ e. only_at_last r e (v.mapped j r h),
        ))
    where
      mapped_back : index.id_to_row (get_or index.ids last 0) ≡ some last
      mapped_back =
          v.indexed (get_or index.ids last 0) last (get_elem?-get_or index.ids last 0 (omega arith))

      only_at_row : (r : ℕ) → r ≡ r₀ → get_elem? index.ids r ≡ some j → j ≡ id
      only_at_row r e at = ground (arith, v.mapped id r₀ found)

      only_at_last :
          (r : ℕ) → r ≡ last → get_elem? index.ids r ≡ some j → j ≡ get_or index.ids last 0
      only_at_last r e at = ground (arith, get_elem?-get_or index.ids last 0 (omega arith))

remove_row-vector_of :
    (index : FlatIndex) (id r₀ j : ℕ)
    → IsValid index
    → index.id_to_row id ≡ some r₀
    → vector_of (remove_row index id r₀) j ≡ (if j == id then none else vector_of index j)
unfolding remove_row
remove_row-vector_of index id r₀ j v found =
    let at = v.mapped id r₀ found in
    let lt = get_elem?-lt index.ids r₀ at in
    let last : ℕ = length index.ids - 1 in
    let counted : length index.ids ≡ suc last = omega arith in
    elim (Bool-cases (r₀ == last)) [
      | inl e ↦
          let e' : r₀ ≡ last = ground arith in
          rw e (
            vector_of-drop_last index v id last (subst (λ k. get_elem? index.ids k ≡ some id) e' at)
              counted j)
      | inr e ↦ rw e (vector_of-moved index v id r₀ last found (ground arith) counted j)
    ]

-- On a valid index, erase removes the vector of its ID and of no other, whichever rows move, and
-- answers whether the ID was stored.
pub erase-vector_of :
    (index : FlatIndex) (id j : ℕ)
    → IsValid index
    → (vector_of (erase index id).0 j ≡ (if j == id then none else vector_of index j))
      × ((erase index id).1 ≡ is_some (index.id_to_row id))
unfolding erase
erase-vector_of index id j v = elim (Option-cases (index.id_to_row id)) [
  | inl e ↦ rw (e, erase) (nothing_erased e, refl)
  | inr (r, e) ↦ rw (e, erase) (remove_row-vector_of index id r j v e, refl)
]
  where
    nothing_erased :
        index.id_to_row id ≡ none
        → vector_of index j ≡ (if j == id then none else vector_of index j)
    nothing_erased e = elim (Bool-cases (j == id)) [
      | inl same ↦
          let e' : j ≡ id = ground arith in
          rw same (ap (fetch index.vectors index.dimension) (ap index.id_to_row e' ∙ e))
      | inr other ↦ rw other
    ]

appended-vector_of :
    (index : FlatIndex) (id j : ℕ) (normalized : List ℕ)
    → IsValid index
    → length normalized ≡ index.dimension
    → vector_of (append no_fault index id normalized).0 j
      ≡ (if j == id then some normalized else vector_of index j)
unfolding append
appended-vector_of index id j normalized v l = elim (Bool-cases (j == id)) [
  | inl same ↦ rw same (
      ap some
        (row-append_new index.vectors normalized index.dimension (length index.ids) v.stored l))
  | inr other ↦ rw other (elim (Option-cases (index.id_to_row j)) [
    | inl absent ↦ rw absent
    | inr (r, present) ↦ rw present (
        ap some (
          row-append index.vectors normalized index.dimension r (length index.ids) v.stored
            (get_elem?-lt index.ids r (v.mapped j r present))))
  ])
]

-- On a valid index an unused ID with a vector of the right length that can be normalised is
-- accepted: the normalised vector is found under it, and every other ID keeps its vector. No
-- allocation fails.
pub add-vector_of :
    (m : Machine) (index : FlatIndex) (id j : ℕ) (vector normalized : List ℕ)
    → IsValid index
    → index.id_to_row id ≡ none
    → length vector ≡ index.dimension
    → normalize_l2 m vector ≡ ok normalized
    → ((add m no_fault index id vector).1 ≡ ok tt)
      × (vector_of (add m no_fault index id vector).0 j
          ≡ (if j == id then some normalized else vector_of index j))
unfolding add
add-vector_of m index id j vector normalized v unused dim normal =
    rw (admitted, add)
      (
        unfold append in refl,
        appended-vector_of index id j normalized v (length-normalize_l2 m vector normal ∙ dim),
      )
  where
    admitted : admit m index id vector ≡ ok normalized
    admitted = unfold admit in rw (dim, ==-refl index.dimension, unused, normal)
