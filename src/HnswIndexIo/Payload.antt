-- ===== src/HnswIndexIo/Payload.antt =====
-- The payload of a saved HNSW index, read section by section (src/hnsw_index_io.cpp).
use mathlib.Core.List.{append-nil}
use fast_vector.Prelude.{
  ℕ, ◌+◌, ◌-◌, ◌*◌, ◌≤◌, ◌≡◌, ◌∙◌, refl, ap, true, false, not, ◌||◌, List, [], ◌++◌, some, length,
  ltb, ◌==◌, no_ids, ok, arith, length-append, ==-refl,
}
use fast_vector.Distance.{Machine}
use fast_vector.Bytes.{
  write_little_endian, checksum_little_endian, checksum_bytes, checked_multiply, checked_add,
  read_exact,
}
use fast_vector.Bytes.Codec.{length-write_little_endian, read_exact-append}
use fast_vector.FlatIndexIo.{write_values, checksum_values, read_ids, read_rows}
use fast_vector.FlatIndexIo.Saved.{MapsOf, MapsOf-unique, read-write_ids, read-write_rows}
use fast_vector.HnswIndex
use fast_vector.HnswIndex.{Platform, HnswConfig, HnswNeighborSelection, HnswIndex, Node}
use fast_vector.HnswIndexIo.{Header, header_size, maximum_rng_state_bytes}
use fast_vector.HnswIndexIo.Save.{
  RandomText, header_of, checksum_payload, write_payload, graph_words, flags, count_deleted,
}
use fast_vector.HnswIndexIo.Load.{
  load_payload, read_nodes, read_tombstones, read_random, parse_state, only_spaces,
}
use fast_vector.HnswIndexIo.HeaderTrip.{read_integer-write}
use fast_vector.HnswIndexIo.GraphTrip.{unmarked, highest, read-write_nodes, read-write_flags}
use fast_vector.HnswIndexIo.Savable.{IsSavable, header, top_kept, entry_kept, graph_checked}

module _ (platform : Platform) (text : RandomText platform) (m : Machine)
    (index : HnswIndex platform) (payload : ℕ) (s : IsSavable platform m index) where
  abbrev pub h : Header
  h = header platform text m index payload s

  abbrev pub state : List ℕ
  state = text.print index.random

  -- The file from its sections on.
  abbrev pub from_state : List ℕ
  from_state = write_little_endian 4 (length state) ++ state

  abbrev pub from_flags : List ℕ
  from_flags = write_values 1 (flags index.graph) ++ from_state

  abbrev pub from_size : List ℕ
  from_size = write_little_endian 8 (HnswIndex.size platform index) ++ from_flags

  abbrev pub from_graph : List ℕ
  from_graph = write_values 4 (graph_words index.graph) ++ from_size

  abbrev pub from_vectors : List ℕ
  from_vectors = write_values 4 index.vectors ++ from_graph

  MapsOf-nil : MapsOf no_ids []
  MapsOf-nil j r = (λ e. cc, λ e. cc)

  ids_read :
      (c : ℕ)
      → read_ids (length index.ids) 0 (record {
        ids = [];
        id_to_row = no_ids;
        checksum = c;
        rest = write_values 8 index.ids ++ from_vectors;
      })
        ≡ ok (record {
          ids = index.ids;
          id_to_row = index.id_to_node;
          checksum = checksum_values 8 c index.ids;
          rest = from_vectors;
        })
  ids_read c =
      let (rows, e, w) =
        read-write_ids index.ids [] index.id_to_node no_ids c from_vectors s.ids s.sound.mapped
          MapsOf-nil in
      rw (MapsOf-unique rows index.id_to_node index.ids w s.sound.mapped) at e

  rows_read :
      (c : ℕ)
      → read_rows m
          (length index.ids)
          index.config.dimension
          (record { vectors = []; checksum = c; rest = from_vectors })
        ≡ ok (record {
          vectors = index.vectors;
          checksum = checksum_values 4 c index.vectors;
          rest = from_graph;
        })
  rows_read c =
      read-write_rows m (length index.ids) index.config.dimension index.vectors [] c from_graph
        s.sound.rows s.vectors s.normed

  nodes_read :
      (total c : ℕ)
      → checked_add header_size payload ≡ ok total
      → length from_graph ≤ total
      → read_nodes (length index.ids) 0 total h (record {
        graph = [];
        observed_maximum_level = 0;
        reader = record { checksum = c; rest = from_graph };
      })
        ≡ ok (record {
          graph = unmarked index.graph;
          observed_maximum_level = highest 0 index.graph;
          reader = record {
            checksum = checksum_values 4 c (graph_words index.graph);
            rest = from_size;
          };
        })
  unfolding header_of
  nodes_read total c end suffix =
      let top = top_kept platform text m index payload s in
      rw s.sound.nodes at (
        read-write_nodes h total index.graph [] 0 0 index.max_level c from_size s.narrow
          (omega (arith, top)) end suffix s.sound.lists)

  size_fits : HnswIndex.size platform index ≤ length index.ids
  unfolding HnswIndex.size
  size_fits = omega arith

  tombstones_read :
      (c : ℕ)
      → read_tombstones h (unmarked index.graph) (record { checksum = c; rest = from_size })
        ≡ ok (record {
          nodes = index.graph;
          deleted_count = index.deleted_count;
          reader = record {
            checksum =
                checksum_values 1
                  (checksum_little_endian 8 c (HnswIndex.size platform index))
                  (flags index.graph);
            rest = from_state;
          };
        })
  unfolding read_tombstones header_of
  tombstones_read c =
      let live = HnswIndex.size platform index in
      let bounded : ltb (length index.ids) live ≡ false = ground (arith, size_fits) in
      let marked = read-write_flags index.graph [] 0 (checksum_little_endian 8 c live) from_state in
      let counted : 0 + count_deleted index.graph ≡ index.deleted_count =
        omega (arith, s.sound.tombstones) in
      let matched : (length index.ids - index.deleted_count == live) ≡ true =
        unfold HnswIndex.size in ==-refl (length index.ids - index.deleted_count) in
      rw
        (
          read_integer-write 8 c live from_flags (omega (arith, size_fits, s.narrow)),
          bounded,
          marked,
          counted,
          matched,
        )
        refl

  state_parsed :
      text.parse state ≡ some (index.random, []) → parse_state platform text state ≡ ok index.random
  unfolding parse_state only_spaces
  state_parsed parsed = rw (parsed, parse_state)

  random_read :
      (total c : ℕ) (seeded : platform.Random)
      → text.parse state ≡ some (index.random, [])
      → checked_add header_size payload ≡ ok total
      → length from_state ≤ total
      → 1 ≤ length state
      → length state ≤ maximum_rng_state_bytes
      → read_random platform text h total seeded (record { checksum = c; rest = from_state })
        ≡ ok (index.random, checksum_bytes (checksum_little_endian 4 c (length state)) state)
  unfolding read_random header_of
  random_read total c seeded parsed end suffix low high =
      let sized : length from_state ≡ 4 + length state =
        length-append (write_little_endian 4 (length state)) state
        ∙ ap (λ (x : ℕ). x + length state) (length-write_little_endian 4 (length state)) in
      let fits : (length state == 0
            || ltb maximum_rng_state_bytes (length state)
            || ltb total (total - length state)
            || not (length state == total - (total - length state)))
          ≡ false =
        ground (arith, sized, suffix, low, high) in
      let all : read_exact (length state) state ≡ ok (state, []) =
        rw append-nil at (read_exact-append state [] (length state) refl) in
      rw
        (
          read_integer-write 4 c (length state) state (omega (arith, high)),
          end,
          fits,
          all,
          state_parsed parsed,
        )
        refl

  abbrev pub payload_checksum : ℕ → ℕ
  payload_checksum c = checksum_payload platform text c index

  -- The length of the file behind its header.
  abbrev payload_length : ℕ
  payload_length = length (write_payload platform text index)

  pub payload_loaded :
      (total c : ℕ) (fresh : HnswIndex platform)
      → fresh.config ≡ index.config
      → fresh.dot ≡ index.dot
      → text.parse state ≡ some (index.random, [])
      → checked_add header_size payload ≡ ok total
      → length (write_payload platform text index) ≤ total
      → checked_multiply (length index.ids) index.config.dimension
        ≡ ok (length index.ids * index.config.dimension)
      → 1 ≤ length state
      → length state ≤ maximum_rng_state_bytes
      → load_payload platform text m total
          (payload_checksum c)
          h
          (record { checksum = c; rest = write_payload platform text index })
          fresh
        ≡ ok index
  unfolding load_payload header_of write_payload checksum_payload
  payload_loaded total c fresh config dot parsed end suffix product low high =
      let floats : ltb platform.max_floats (length index.ids * index.config.dimension) ≡ false =
        ground (arith, s.floats) in
      let l₁ = length-append (write_values 8 index.ids) from_vectors in
      let l₂ = length-append (write_values 4 index.vectors) from_graph in
      let l₃ = length-append (write_values 4 (graph_words index.graph)) from_size in
      let l₄ = length-append (write_little_endian 8 (HnswIndex.size platform index)) from_flags in
      let l₅ = length-append (write_values 1 (flags index.graph)) from_state in
      let graph_room : length from_graph ≤ total = omega (arith, suffix, l₁, l₂) in
      let state_room : length from_state ≤ total = omega (arith, graph_room, l₃, l₄, l₅) in
      let c₁ = checksum_values 8 c index.ids in
      let c₂ = checksum_values 4 c₁ index.vectors in
      let c₃ = checksum_values 4 c₂ (graph_words index.graph) in
      let c₄ = checksum_little_endian 8 c₃ (HnswIndex.size platform index) in
      let c₅ = checksum_values 1 c₄ (flags index.graph) in
      let last = checksum_bytes (checksum_little_endian 4 c₅ (length state)) state in
      rw
        (
          product,
          floats,
          ids_read c,
          rows_read c₁,
          nodes_read total c₂ end graph_room,
          graph_checked platform text m index payload s
              (record { checksum = c₃; rest = from_size }),
          tombstones_read c₃,
          random_read total c₅ fresh.random parsed end state_room low high,
          ==-refl last,
          entry_kept platform text m index payload s,
          top_kept platform text m index payload s,
          config,
          dot,
        )
        refl
