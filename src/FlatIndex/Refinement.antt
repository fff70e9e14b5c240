-- ===== src/FlatIndex/Refinement.antt =====
-- The flat index (src/flat_index.cpp) against a finite map, over histories of operations.
use mathlib.Core.Path.{fun_ext}
use fast_vector.Prelude.{
  ℕ, ◌≡◌, ◌∙◌, refl, sym, ap, Bool, not, List, [], ◌∷◌, Option, none, some, length, ◌==◌,
  if◌then◌else◌, is_some, Result, ok, err, ◌>>◌, throw_if, dimension_mismatch, duplicate_id,
  allocation_failed, Option-cases, Bool-cases, ◌-◌, Result-cases, inl, inr,
}
use fast_vector.Distance.{Machine, normalize_l2}
use fast_vector.FlatIndex.{
  FlatIndex, Fault, no_fault, at_emplace, at_ids, at_vectors, add, erase, admit, append, remove_row,
  move_last, drop_last,
}
use fast_vector.FlatIndex.Invariant.{
  IsValid, admit-eq-ok, add-IsValid, erase-IsValid, add_throws-unchanged,
}
use fast_vector.FlatIndex.Lookup.{vector_of, erase-vector_of, add-vector_of}
use fast_vector.FlatIndex.Interface.{add-dimension}

-- The abstract index.
abbrev pub Vectors : Type 0
Vectors = ℕ → Option (List ℕ)

abbrev pub with_entry : Vectors → ℕ → Option (List ℕ) → Vectors
with_entry vs id entry j = if j == id then entry else vs j

-- What an insertion checks, on the map.
unfoldable pub admit_entry : Machine → ℕ → Vectors → ℕ → List ℕ → Result (List ℕ)
admit_entry m dimension vs id vector = do
  throw_if (not (length vector == dimension)) dimension_mismatch
  throw_if (is_some (vs id)) duplicate_id
  normalize_l2 m vector

abbrev pub store_entry : Fault → Vectors → ℕ → Result (List ℕ) → Vectors × Result (Unit {0})
store_entry fault vs id (err e) = (vs, err e)
store_entry no_fault vs id (ok normalized) = (with_entry vs id (some normalized), ok tt)
store_entry at_emplace vs id (ok normalized) = (vs, err allocation_failed)
store_entry at_ids vs id (ok normalized) = (vs, err allocation_failed)
store_entry at_vectors vs id (ok normalized) = (vs, err allocation_failed)

pub data Operation : Type 0 where
  inserts : Fault → ℕ → List ℕ → Operation
  erases : ℕ → Operation

pub data Answer : Type 0 where
  inserted : Result (Unit {0}) → Answer
  erased : Bool → Answer

unfoldable pub perform : Machine → FlatIndex → Operation → FlatIndex × Answer
perform m index (inserts fault id vector) =
    let (index', result) = add m fault index id vector in (index', inserted result)
perform m index (erases id) = let (index', found) = erase index id in (index', erased found)

unfoldable pub perform_entry : Machine → ℕ → Vectors → Operation → Vectors × Answer
unfolding admit_entry
perform_entry m dimension vs (inserts fault id vector) =
    let (vs', result) = store_entry fault vs id (admit_entry m dimension vs id vector) in
    (vs', inserted result)
perform_entry m dimension vs (erases id) = (with_entry vs id none, erased (is_some (vs id)))

unfoldable pub history : Machine → FlatIndex → List Operation → FlatIndex × List Answer
unfolding perform
history m index [] = (index, [])
history m index (o ∷ os) =
    let (index', answer) = perform m index o in
    let (last, answers) = history m index' os in (last, answer ∷ answers)

unfoldable pub map_history : Machine → ℕ → Vectors → List Operation → Vectors × List Answer
unfolding perform_entry
map_history m dimension vs [] = (vs, [])
map_history m dimension vs (o ∷ os) =
    let (vs', answer) = perform_entry m dimension vs o in
    let (last, answers) = map_history m dimension vs' os in (last, answer ∷ answers)

is_some-vector_of :
    (index : FlatIndex) (id : ℕ) → is_some (vector_of index id) ≡ is_some (index.id_to_row id)
is_some-vector_of index id = elim (Option-cases (index.id_to_row id)) [
  | inl e ↦ rw e
  | inr (r, e) ↦ rw e
]

admit-admit_entry :
    (m : Machine) (index : FlatIndex) (id : ℕ) (vector : List ℕ)
    → admit m index id vector ≡ admit_entry m index.dimension (vector_of index) id vector
unfolding admit admit_entry
admit-admit_entry m index id vector = rw (is_some-vector_of index id)

add-store_entry :
    (m : Machine) (fault : Fault) (index : FlatIndex) (id : ℕ) (vector : List ℕ)
    → IsValid index
    → (vector_of (add m fault index id vector).0
        ≡ (store_entry fault (vector_of index) id (admit m index id vector)).0)
      × ((add m fault index id vector).1
          ≡ (store_entry fault (vector_of index) id (admit m index id vector)).1)
add-store_entry m fault index id vector v = elim (Result-cases (admit m index id vector)) [
  | inr (x, a) ↦ rw a (unfold add in rw (a, add) (refl, refl))
  | inl (normalized, a) ↦ rw a (stored fault normalized a)
]
  where
    failed :
        (fault : Fault)
        → (add m fault index id vector).1 ≡ err allocation_failed
        → (vector_of (add m fault index id vector).0 ≡ vector_of index)
          × ((add m fault index id vector).1 ≡ err allocation_failed)
    failed fault h = (ap vector_of (add_throws-unchanged m fault index id vector v h), h)

    stored :
        (fault : Fault) (normalized : List ℕ)
        → admit m index id vector ≡ ok normalized
        → (vector_of (add m fault index id vector).0
            ≡ (store_entry fault (vector_of index) id (ok normalized)).0)
          × ((add m fault index id vector).1
              ≡ (store_entry fault (vector_of index) id (ok normalized)).1)
    stored no_fault normalized a =
        let (unused, dim, normal) = admit-eq-ok m index id vector a in
        let at = λ (j : ℕ). add-vector_of m index id j vector normalized v unused dim normal in
        (fun_ext (λ j. (at j).1), (at id).0)
    stored at_emplace normalized a = failed at_emplace (unfold add append in rw (a, add))
    stored at_ids normalized a = failed at_ids (unfold add append in rw (a, add))
    stored at_vectors normalized a = failed at_vectors (unfold add append in rw (a, add))

erase-dimension : (index : FlatIndex) (id : ℕ) → (erase index id).0.dimension ≡ index.dimension
unfolding erase
erase-dimension index id = elim (Option-cases (index.id_to_row id)) [
  | inl e ↦ rw (e, erase)
  | inr (r, e) ↦ rw (e, erase) (removed r)
]
  where
    removed : (r : ℕ) → (remove_row index id r).dimension ≡ index.dimension
    removed r =
        unfold remove_row drop_last move_last in
        elim (Bool-cases (r == length index.ids - 1)) [ inl last ↦ rw last | inr other ↦ rw other ]

perform-dimension :
    (m : Machine) (index : FlatIndex) (o : Operation)
    → (perform m index o).0.dimension ≡ index.dimension
unfolding perform
perform-dimension m index (inserts fault id vector) = add-dimension m (λ i j. fault) index id vector
perform-dimension m index (erases id) = erase-dimension index id

perform-IsValid :
    (m : Machine) (index : FlatIndex) (o : Operation)
    → IsValid index
    → IsValid (perform m index o).0
unfolding perform
perform-IsValid m index (inserts fault id vector) v = add-IsValid m fault index id vector v
perform-IsValid m index (erases id) v = erase-IsValid index id v

perform-perform_entry :
    (m : Machine) (index : FlatIndex) (o : Operation)
    → IsValid index
    → (vector_of (perform m index o).0 ≡ (perform_entry m index.dimension (vector_of index) o).0)
      × ((perform m index o).1 ≡ (perform_entry m index.dimension (vector_of index) o).1)
unfolding perform perform_entry
perform-perform_entry m index (inserts fault id vector) v =
    let (same, answer) = add-store_entry m fault index id vector v in
    let e = admit-admit_entry m index id vector in (rw e at same, ap inserted (rw e at answer))
perform-perform_entry m index (erases id) v =
    let at = λ (j : ℕ). erase-vector_of index id j v in
    (fun_ext (λ j. (at j).0), ap erased ((at id).1 ∙ sym (is_some-vector_of index id)))

-- After any history of insertions and removals, failed allocations included, a valid flat index
-- holds the vectors that a finite map from IDs to vectors holds after the same history, and each
-- operation gave the same answer.
pub history-map_history :
    (m : Machine) (index : FlatIndex) (os : List Operation)
    → IsValid index
    → (vector_of (history m index os).0 ≡ (map_history m index.dimension (vector_of index) os).0)
      × ((history m index os).1 ≡ (map_history m index.dimension (vector_of index) os).1)
unfolding history map_history
history-map_history m index [] v = (refl, refl)
history-map_history m index (o ∷ os) v =
    let (same, answer) = perform-perform_entry m index o v in
    let (rest, answers) =
      history-map_history m (perform m index o).0 os (perform-IsValid m index o v) in
    (
      rw (perform-dimension m index o, same) at rest,
      ap (λ a. a ∷ (history m (perform m index o).0 os).1) answer
          ∙ ap (◌∷◌ (perform_entry m index.dimension (vector_of index) o).1)
              (rw (perform-dimension m index o, same) at answers),
    )
