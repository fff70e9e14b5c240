-- ===== src/HnswIndexIo/Flags.antt =====
-- The sections of load_hnsw_index (src/hnsw_index_io.cpp) besides the graph: the tombstone flags,
-- the IDs and the vectors; and the check that each neighbour is present on its layer.
use mathlib.Core.List.{append-nil, append_assoc}
use fast_vector.Prelude.{
  ℕ, zero, suc, ◌+◌, ◌*◌, ◌≡◌, refl, not, List, [], ◌∷◌, ◌++◌, none, length, ltb, ◌==◌, ok,
  throw_if, throw_if-eq-ok, >>=-eq-ok, arith, length-append, is_some, Option-cases, inl, inr,
  stored_non_finite,
}
use fast_vector.Distance.{Machine}
use fast_vector.Float.{is_finite}
use fast_vector.Bytes.{read_payload_value}
use fast_vector.FlatIndexIo.{ReadIds, ReadValues, read_ids, read_row, read_rows, off_norm}
use fast_vector.FlatIndexIo.Saved.{MapsOf, MapsOf-snoc}
use fast_vector.HnswIndex.{Node}
use fast_vector.HnswIndexIo.{read_integer}
use fast_vector.HnswIndexIo.Load.{read_flags, ReadFlags, all_present, levels_present, nodes_present}
use fast_vector.HnswIndexIo.Save.{count_deleted}
use fast_vector.HnswIndexIo.Layout.{
  SameLists, SameLists-refl, SameLists-append, SameLists-trans, levels-same,
}

pub count_deleted-append :
    (ms ns : List Node) → count_deleted (ms ++ ns) ≡ count_deleted ms + count_deleted ns
unfolding count_deleted
count_deleted-append [] ns = omega arith
count_deleted-append (m ∷ ms) ns = omega (arith, count_deleted-append ms ns)

pub read_flags-eq-ok :
    (nodes : List Node) (f : ReadFlags) {f' : ReadFlags}
    → f.deleted_count ≡ count_deleted f.nodes
    → read_flags nodes f ≡ ok f'
    → SameLists (f.nodes ++ nodes) f'.nodes × (f'.deleted_count ≡ count_deleted f'.nodes)
unfolding read_flags
read_flags-eq-ok [] f {f'} c e =
    let same : f ≡ f' = cc in (rw (append-nil, ← same) (SameLists-refl f.nodes), rw (← same) c)
read_flags-eq-ok (node ∷ rest) f {f'} c e =
    let ((flag, r), read, rest₁) = >>=-eq-ok (read_integer 1 f.reader) _ e in
    let (u, bit, rest₂) = >>=-eq-ok (throw_if (ltb 1 flag) _) _ rest₁ in
    let small = throw_if-eq-ok _ _ bit in
    let marked : Node = record node { deleted = not (flag == 0) } in
    let counted : f.deleted_count + flag ≡ count_deleted (f.nodes ++ marked ∷ []) =
      rw (count_deleted-append f.nodes (marked ∷ [])) (unfold count_deleted in ground arith) in
    let (s, d) =
      read_flags-eq-ok rest
        (record {
          nodes = f.nodes ++ marked ∷ [];
          deleted_count = f.deleted_count + flag;
          reader = r;
        })
        counted rest₂ in
    (
      SameLists-trans (f.nodes ++ node ∷ rest) ((f.nodes ++ marked ∷ []) ++ rest) f'.nodes
          (rw (append_assoc f.nodes (marked ∷ []) rest)
            (SameLists-append f.nodes (node ∷ rest) (marked ∷ rest) (refl, SameLists-refl rest)))
          s,
      d,
    )

all_present-same :
    (g g' : List Node) (layer : ℕ) (ns : List ℕ)
    → SameLists g g'
    → all_present g layer ns ≡ all_present g' layer ns
unfolding all_present
all_present-same g g' layer [] s = refl
all_present-same g g' layer (n ∷ ns) s = rw (levels-same g g' n s, all_present-same g g' layer ns s)

levels_present-same :
    (g g' : List Node) (layer : ℕ) (levels : List (List ℕ))
    → SameLists g g'
    → levels_present g layer levels ≡ levels_present g' layer levels
unfolding levels_present
levels_present-same g g' layer [] s = refl
levels_present-same g g' layer (ns ∷ rest) s =
    rw (all_present-same g g' layer ns s, levels_present-same g g' (layer + 1) rest s)

pub nodes_present-same :
    (g g' ms ns : List Node)
    → SameLists g g'
    → SameLists ms ns
    → nodes_present g ms ≡ nodes_present g' ns
unfolding nodes_present
nodes_present-same g g' [] [] s t = refl
nodes_present-same g g' [] (n ∷ ns) s t = absurd t
nodes_present-same g g' (m ∷ ms) [] s t = absurd t
nodes_present-same g g' (m ∷ ms) (n ∷ ns) s t =
    rw (t.0, levels_present-same g g' 0 n.levels s, nodes_present-same g g' ms ns s t.1)

pub read_ids-eq-ok :
    (left i : ℕ) (s : ReadIds) {s' : ReadIds}
    → length s.ids ≡ i
    → MapsOf s.id_to_row s.ids
    → read_ids left i s ≡ ok s'
    → MapsOf s'.id_to_row s'.ids × (length s'.ids ≡ i + left)
unfolding read_ids
read_ids-eq-ok zero i s {s'} l v e =
    let same : s ≡ s' = cc in (rw (← same) v, rw (← same) (omega arith))
read_ids-eq-ok (suc left) i s {s'} l v e =
    let ((id, checksum, rest), read, more) =
      >>=-eq-ok (read_payload_value 8 s.checksum s.rest) _ e in
    let (u, fresh, more₂) = >>=-eq-ok (throw_if (is_some (s.id_to_row id)) _) _ more in
    let unused : s.id_to_row id ≡ none = elim (Option-cases (s.id_to_row id)) [
      | inl n ↦ n
      | inr (k, f) ↦ cc (throw_if-eq-ok _ _ fresh)
    ] in
    let (v', n) =
      read_ids-eq-ok left (i + 1) _ (omega (arith, l, length-append s.ids (id ∷ [])))
        (rw l at (MapsOf-snoc s.id_to_row s.ids id v unused)) more₂ in
    (v', omega (arith, n))

module _ (m : Machine) where
  read_row-eq-ok :
      (left squared_norm : ℕ) (s : ReadValues) {n : ℕ} {s' : ReadValues}
      → read_row m left squared_norm s ≡ ok (n, s')
      → length s'.vectors ≡ length s.vectors + left
  unfolding read_row
  read_row-eq-ok zero squared_norm s {n} {s'} e =
      let same : s ≡ s' = cc in rw (← same) (omega arith)
  read_row-eq-ok (suc left) squared_norm s {n} {s'} e =
      let ((value, checksum, rest), read, more) =
        >>=-eq-ok (read_payload_value 4 s.checksum s.rest) _ e in
      let (u, finite, more₂) =
        >>=-eq-ok (throw_if (not (is_finite value)) stored_non_finite) _ more in
      omega (
        arith,
        read_row-eq-ok left (m.dadd squared_norm (m.dmul (m.widen value) (m.widen value)))
            (record { vectors = s.vectors ++ value ∷ []; checksum = checksum; rest = rest }) more₂,
        length-append s.vectors (value ∷ []),
      )

  pub read_rows-eq-ok :
      (left dimension : ℕ) (s : ReadValues) {s' : ReadValues}
      → read_rows m left dimension s ≡ ok s'
      → length s'.vectors ≡ length s.vectors + left * dimension
  unfolding read_rows
  read_rows-eq-ok zero dimension s {s'} e = let same : s ≡ s' = cc in rw (← same) (omega arith)
  read_rows-eq-ok (suc left) dimension s {s'} e =
      let ((norm, s₁), read, more) = >>=-eq-ok (read_row m dimension 0 s) _ e in
      let (u, normal, more₂) = >>=-eq-ok (throw_if (off_norm m norm) _) _ more in
      grind (
        arith,
        read_row-eq-ok dimension 0 s {n = norm} {s' = s₁} read,
        read_rows-eq-ok left dimension s₁ more₂,
      )
