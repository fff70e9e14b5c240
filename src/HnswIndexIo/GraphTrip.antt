-- ===== src/HnswIndexIo/GraphTrip.antt =====
-- The graph section and the tombstones of src/hnsw_index_io.cpp, written and read.
use mathlib.Core.List.{append-nil, append_assoc}
use native.Mathlib.Numerals.{add-one}
use native.Mathlib.Nat.{add-zero}
use fast_vector.Prelude.{
  ℕ, ◌+◌, ◌-◌, ◌*◌, ◌%◌, ◌^◌, ◌≤◌, ◌<◌, ◌≡◌, ◌∙◌, refl, ap, false, not, ◌||◌, List, [], ◌∷◌, ◌++◌,
  length, max, ltb, leb, ◌==◌, if◌then◌else◌, ok, arith, All, length-append, inl, inr,
}
use fast_vector.Bytes.{write_little_endian, checksum_little_endian, checked_add}
use fast_vector.Bytes.Codec.{checked_multiply_exact}
use fast_vector.FlatIndexIo.{write_values, checksum_values}
use fast_vector.FlatIndexIo.Saved.{write_values-append, checksum_values-append, length-write_values}
use fast_vector.HnswIndex.{Node}
use fast_vector.HnswIndexIo.{Header, Reader, header_size, maximum_level}
use fast_vector.HnswIndexIo.Save.{level_words, graph_words, flags, count_deleted}
use fast_vector.HnswIndexIo.Load.{
  contains, read_edges, read_layers, read_nodes, degree_limit, check_room, read_flags,
}
use fast_vector.HnswIndexIo.Layout.{IsDistinct, IsNeighbor, GoodLevels, GoodNodes}
use fast_vector.HnswIndexIo.HeaderTrip.{read_integer-write}

-- A number that comes later is not among the earlier ones.
reached_new :
    (before : List ℕ) (n : ℕ) (rest : List ℕ)
    → IsDistinct (before ++ n ∷ rest)
    → contains n before ≡ false
reached_new [] n rest d = refl
reached_new (k ∷ ks) n rest d = ground (arith, reached_new ks n rest d.1, apart ks n k rest d.0)
  where
    apart :
        (ks : List ℕ) (n k : ℕ) (rest : List ℕ)
        → contains k (ks ++ n ∷ rest) ≡ false
        → (k == n) ≡ false
    apart [] n k rest h = ground arith
    apart (j ∷ js) n k rest h = apart js n k rest (ground arith)

read-write_edges :
    (ns before : List ℕ) (node count c : ℕ) (tail : List ℕ)
    → count < 2 ^ 32
    → All (IsNeighbor node count) ns
    → IsDistinct (before ++ ns)
    → read_edges
        (length ns)
        node
        count
        before
        (record { checksum = c; rest = write_values 4 ns ++ tail })
      ≡ ok (before ++ ns, record { checksum = checksum_values 4 c ns; rest = tail })
unfolding read_edges write_values checksum_values
read-write_edges [] before node count c tail small a d = rw append-nil
read-write_edges (n ∷ ns) before node count c tail small a d =
    let inside : leb count n ≡ false = ground (arith, a.0.0) in
    let other : (n == node) ≡ false = ground (arith, a.0.1) in
    let moved = append_assoc before (n ∷ []) ns in
    rw
      (
        append_assoc (write_little_endian 4 n) (write_values 4 ns) tail,
        read_integer-write 4 c n (write_values 4 ns ++ tail) (omega (arith, a.0.0)),
        inside,
        other,
        reached_new before n ns d,
        ← moved,
      )
      (read-write_edges ns (before ++ n ∷ []) node count (checksum_little_endian 4 c n) tail small
        a.1 (rw moved d))

room_left :
    (h : Header) (total degree : ℕ) (r : Reader)
    → checked_add header_size h.payload_bytes ≡ ok total
    → length r.rest ≤ total
    → degree < 2 ^ 32
    → degree * 4 ≤ length r.rest
    → check_room h total degree r ≡ ok tt
unfolding check_room
room_left h total degree r end suffix small fits =
    let before : ltb total (total - length r.rest) ≡ false = ground arith in
    let enough : ltb (total - (total - length r.rest)) (degree * 4) ≡ false = ground arith in
    elim (checked_multiply_exact degree 4 (omega arith) (omega arith)) [
      | inl (a, b) ↦ rw (end, before, b, enough)
      | inr (a, b) ↦ absurd (omega arith)
    ]

-- A graph as it is read, before its flags.
abbrev pub unmarked : List Node → List Node
unmarked [] = []
unmarked (n ∷ ns) = record { levels = n.levels; deleted = false } ∷ unmarked ns

-- The highest level seen so far.
abbrev pub highest : ℕ → List Node → ℕ
highest level [] = level
highest level (n ∷ ns) = highest (max level (length n.levels - 1)) ns

module _ (h : Header) (total : ℕ) where
  pub read-write_layers :
      (levels before : List (List ℕ)) (layer node c : ℕ) (tail : List ℕ)
      → h.count < 2 ^ 32
      → checked_add header_size h.payload_bytes ≡ ok total
      → length (write_values 4 (level_words levels) ++ tail) ≤ total
      → GoodLevels h.max_connections h.count node layer levels
      → read_layers
          (length levels)
          layer
          node
          total
          h
          before
          (record { checksum = c; rest = write_values 4 (level_words levels) ++ tail })
        ≡ ok (
          before ++ levels,
          record { checksum = checksum_values 4 c (level_words levels); rest = tail },
        )
  unfolding read_layers level_words write_values checksum_values
  read-write_layers [] before layer node c tail small end suffix g = rw append-nil
  read-write_layers (ns ∷ rest) before layer node c tail small end suffix g =
      let words : length ns % 2 ^ 32 ≡ length ns = omega (arith, g.1) in
      let after = write_values 4 (level_words rest) ++ tail in
      let body = write_values 4 ns ++ after in
      let parts : write_values 4 (ns ++ level_words rest) ++ tail ≡ body =
        ap (λ (xs : List ℕ). xs ++ tail) (write_values-append 4 ns (level_words rest))
        ∙ append_assoc (write_values 4 ns) (write_values 4 (level_words rest)) tail in
      let whole : (write_little_endian 4 (length ns % 2 ^ 32)
              ++ write_values 4 (ns ++ level_words rest))
            ++ tail
          ≡ write_little_endian 4 (length ns) ++ body =
        append_assoc (write_little_endian 4 (length ns % 2 ^ 32))
          (write_values 4 (ns ++ level_words rest)) tail
        ∙ rw (words, parts) refl in
      let sized = ap (λ (xs : List ℕ). length xs) whole in
      let long : length body ≤ total =
        omega (arith, suffix, sized, length-append (write_little_endian 4 (length ns)) body) in
      let shorter : length after ≤ total =
        omega (arith, long, length-append (write_values 4 ns) after) in
      let room : check_room h total (length ns)
            (record { checksum = checksum_little_endian 4 c (length ns); rest = body })
          ≡ ok tt =
        room_left h total (length ns)
          (record { checksum = checksum_little_endian 4 c (length ns); rest = body }) end long
          (omega (arith, g.1))
          (omega (arith, length-append (write_values 4 ns) after, length-write_values 4 ns)) in
      let fits : (ltb (degree_limit h layer) (length ns) || leb h.count (length ns)) ≡ false =
        unfold degree_limit in ground (arith, g.0, g.1) in
      let moved = append_assoc before (ns ∷ []) rest in
      let sums =
        checksum_values-append 4 (checksum_little_endian 4 c (length ns)) ns (level_words rest) in
      rw
        (
          whole,
          words,
          read_integer-write 4 c (length ns) body (omega (arith, g.1)),
          fits,
          room,
          read-write_edges ns [] node h.count (checksum_little_endian 4 c (length ns)) after small
              g.2 g.3,
          ← moved,
          sums,
        )
        (read-write_layers rest (before ++ ns ∷ []) (layer + 1) node
          (checksum_values 4 (checksum_little_endian 4 c (length ns)) ns) tail small end shorter
          (rw add-one g.4))

  pub read-write_nodes :
      (nodes before : List Node) (node observed top c : ℕ) (tail : List ℕ)
      → h.count < 2 ^ 32
      → top ≤ h.top_level
      → checked_add header_size h.payload_bytes ≡ ok total
      → length (write_values 4 (graph_words nodes) ++ tail) ≤ total
      → GoodNodes h.max_connections h.count top node nodes
      → read_nodes (length nodes) node total h (record {
        graph = before;
        observed_maximum_level = observed;
        reader = record { checksum = c; rest = write_values 4 (graph_words nodes) ++ tail };
      })
        ≡ ok (record {
          graph = before ++ unmarked nodes;
          observed_maximum_level = highest observed nodes;
          reader = record { checksum = checksum_values 4 c (graph_words nodes); rest = tail };
        })
  unfolding read_nodes graph_words write_values checksum_values
  read-write_nodes [] before node observed top c tail small below end suffix g = rw append-nil
  read-write_nodes (n ∷ ns) before node observed top c tail small below end suffix g =
      let level = length n.levels - 1 in
      let word : (length n.levels + 2 ^ 32 - 1) % 2 ^ 32 ≡ level = omega (arith, g.1, g.3) in
      let after = write_values 4 (graph_words ns) ++ tail in
      let body = write_values 4 (level_words n.levels) ++ after in
      let parts : write_values 4 (level_words n.levels ++ graph_words ns) ++ tail ≡ body =
        ap (λ (xs : List ℕ). xs ++ tail)
          (write_values-append 4 (level_words n.levels) (graph_words ns))
        ∙ append_assoc (write_values 4 (level_words n.levels)) (write_values 4 (graph_words ns))
            tail in
      let whole : (write_little_endian 4 ((length n.levels + 2 ^ 32 - 1) % 2 ^ 32)
              ++ write_values 4 (level_words n.levels ++ graph_words ns))
            ++ tail
          ≡ write_little_endian 4 level ++ body =
        append_assoc (write_little_endian 4 ((length n.levels + 2 ^ 32 - 1) % 2 ^ 32))
          (write_values 4 (level_words n.levels ++ graph_words ns)) tail
        ∙ rw (word, parts) refl in
      let sized = ap (λ (xs : List ℕ). length xs) whole in
      let long : length body ≤ total =
        omega (arith, suffix, sized, length-append (write_little_endian 4 level) body) in
      let shorter : length after ≤ total =
        omega (arith, long, length-append (write_values 4 (level_words n.levels)) after) in
      let fits : (ltb maximum_level level || ltb h.top_level level) ≡ false =
        ground (arith, g.1, g.2, g.3) in
      let more : level + 1 ≡ length n.levels = omega (arith, g.1) in
      let c₁ = checksum_little_endian 4 c level in
      let layers = read-write_layers n.levels [] 0 node c₁ after small end long g.0 in
      let moved =
        append_assoc before (record { levels = n.levels; deleted = false } ∷ []) (unmarked ns) in
      let sums = checksum_values-append 4 c₁ (level_words n.levels) (graph_words ns) in
      rw
        (
          whole,
          word,
          read_integer-write 4 c level body (omega (arith, g.3)),
          fits,
          more,
          layers,
          ← moved,
          sums,
        )
        (read-write_nodes ns (before ++ record { levels = n.levels; deleted = false } ∷ [])
          (node + 1) (max observed level) top (checksum_values 4 c₁ (level_words n.levels)) tail
          small below end shorter (rw add-one g.4))

pub read-write_flags :
    (nodes before : List Node) (d c : ℕ) (tail : List ℕ)
    → read_flags (unmarked nodes) (record {
      nodes = before;
      deleted_count = d;
      reader = record { checksum = c; rest = write_values 1 (flags nodes) ++ tail };
    })
      ≡ ok (record {
        nodes = before ++ nodes;
        deleted_count = d + count_deleted nodes;
        reader = record { checksum = checksum_values 1 c (flags nodes); rest = tail };
      })
unfolding read_flags flags write_values checksum_values count_deleted
read-write_flags [] before d c tail = rw (append-nil, add-zero)
read-write_flags (n ∷ ns) before d c tail =
    let bit = (if n.deleted then 1 else 0) in
    let small : ltb 1 bit ≡ false = ground arith in
    let value : bit < 256 ^ 1 = ground arith in
    let same : not (bit == 0) ≡ n.deleted = ground arith in
    let moved = append_assoc before (n ∷ []) ns in
    let counted : d + (bit + count_deleted ns) ≡ (d + bit) + count_deleted ns = omega arith in
    rw
      (
        append_assoc (write_little_endian 1 bit) (write_values 1 (flags ns)) tail,
        read_integer-write 1 c bit (write_values 1 (flags ns) ++ tail) value,
        small,
        same,
        ← moved,
        counted,
      )
      (read-write_flags ns (before ++ n ∷ []) (d + bit) (checksum_little_endian 1 c bit) tail)
