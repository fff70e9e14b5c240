-- ===== src/HnswIndexIo/RoundTrip.antt =====
-- A saved HNSW index is loaded again exactly (src/hnsw_index_io.cpp).
use fast_vector.Prelude.{
  ℕ, suc, ◌+◌, ◌*◌, ◌^◌, ◌≤◌, ◌<◌, ◌≡◌, ◌∙◌, refl, sym, ap, not, ◌||◌, List, [], ◌∷◌, ◌++◌, some,
  length, ltb, ◌==◌, if◌then◌else◌, ok, throw_if, throw_if-eq-ok, >>=-eq-ok, ok-injective, arith,
  length-append, inl, inr, Bool-cases, not_representable, cannot_open, write_failed,
}
use fast_vector.Distance.{Machine}
use fast_vector.Bytes.{
  fnv_offset, write_little_endian, checksum_bytes, checked_multiply, checked_add, update_checksum,
}
use fast_vector.Bytes.Codec.{length-write_little_endian}
use fast_vector.FlatIndexIo.{Disk, write_values}
use fast_vector.FlatIndexIo.Saved.{length-write_values}
use fast_vector.HnswIndex
use fast_vector.HnswIndex.{Platform, HnswConfig, HnswNeighborSelection, HnswIndex, Node}
use fast_vector.HnswIndexIo.{
  Header, write_header, checksum_header, header_size, maximum_rng_state_bytes, empty_entry,
}
use fast_vector.HnswIndexIo.Save.{
  RandomText, save, check_index, payload_bytes, header_of, checksum_payload, write_payload,
  graph_words, flags, selection_code, graph_bytes,
}
use fast_vector.HnswIndexIo.Load.{load, config_of, selection_of}
use fast_vector.HnswIndexIo.HeaderTrip.{read-write_graph_header, FitsHeader}
use fast_vector.HnswIndexIo.Sizes.{
  checked_add-eq-ok, checked_multiply-eq-ok, graph_bytes-eq-ok, graph_words_bounds,
}
use fast_vector.HnswIndexIo.Accepted.{
  arrays, largest_graph, Describes, validate_header_ok, file_size_added,
}
use fast_vector.HnswIndexIo.Savable.{IsSavable, top_kept, good_header, good_entry, level_bounded}
use fast_vector.HnswIndexIo.Payload.{payload_loaded}
use fast_vector.HnswIndexIo.Sound.{created}

module _ (platform : Platform) (text : RandomText platform) (m : Machine) where
  -- What save has written where it succeeds.
  save-eq-ok :
      (disk : Disk) (index : HnswIndex platform) {file : List ℕ}
      → save platform text disk index ≡ ok file
      → (p : ℕ) × (payload_bytes platform text index ≡ ok p)
        × (file
            ≡ write_header
                (header_of platform text index p)
                (checksum_payload platform text
                  (checksum_header fnv_offset (header_of platform text index p))
                  index)
                (write_payload platform text index))
  unfolding save
  save-eq-ok disk index e =
      let (u, checked, rest) = >>=-eq-ok (check_index platform text index) _ e in
      let (p, sized, rest₂) = >>=-eq-ok (payload_bytes platform text index) _ rest in
      let (v, e₁, rest₃) = >>=-eq-ok (throw_if (not disk.opens) cannot_open) _ rest₂ in
      let (w, e₂, rest₄) = >>=-eq-ok (throw_if (not disk.writes) write_failed) _ rest₃ in
      let (x, e₃, done) = >>=-eq-ok (throw_if (not disk.flushes) write_failed) _ rest₄ in
      (p, sized, sym (ok-injective done))

  payload_bytes-eq-ok :
      (index : HnswIndex platform) {p : ℕ}
      → IsSavable platform m index
      → payload_bytes platform text index ≡ ok p
      → (p
          ≡ arrays (length index.ids) index.config.dimension
            + 4 * length (graph_words index.graph)
            + (4 + length (text.print index.random))
            + (8 + length index.ids))
        × (p < 2 ^ 64)
        × (1 ≤ length (text.print index.random))
        × (length (text.print index.random) ≤ maximum_rng_state_bytes)
        × (checked_multiply (length index.ids) index.config.dimension
            ≡ ok (length index.ids * index.config.dimension))
  unfolding payload_bytes
  payload_bytes-eq-ok index {p} s e =
      let n = length index.ids in
      let d = index.config.dimension in
      let size = length (text.print index.random) in
      let (a, e₁, r₁) = >>=-eq-ok (checked_multiply n d) _ e in
      let (b, e₂, r₂) = >>=-eq-ok (checked_multiply n 8) _ r₁ in
      let (c, e₃, r₃) = >>=-eq-ok (checked_multiply a 4) _ r₂ in
      let (f, e₄, r₄) = >>=-eq-ok (checked_add b c) _ r₃ in
      let (g, e₅, r₅) = >>=-eq-ok (graph_bytes f index.graph) _ r₄ in
      let (u, e₆, r₆) =
        >>=-eq-ok (throw_if (size == 0 || ltb maximum_rng_state_bytes size) not_representable) _
          r₅ in
      let (i, e₇, r₇) = >>=-eq-ok (checked_add g (4 + size)) _ r₆ in
      let (j, e₈, r₈) = >>=-eq-ok (checked_add 8 n) _ r₇ in
      let within = throw_if-eq-ok _ _ e₆ in
      let low : 1 ≤ size = ground arith in
      let high : size ≤ maximum_rng_state_bytes = ground arith in
      let (a', a<) = checked_multiply-eq-ok n d (omega (arith, s.narrow)) s.dimension e₁ in
      let (b', b<) = checked_multiply-eq-ok n 8 (omega (arith, s.narrow)) (omega arith) e₂ in
      let (c', c<) = checked_multiply-eq-ok a 4 a< (omega arith) e₃ in
      let (f', f<) = checked_add-eq-ok b c b< c< e₄ in
      let (g', g<) =
        graph_bytes-eq-ok index.config.max_connections n index.max_level 0 f index.graph
          s.sound.lists s.narrow f< e₅ in
      let (i', i<) = checked_add-eq-ok g (4 + size) g< (omega (arith, high)) e₇ in
      let (j', j<) = checked_add-eq-ok 8 n (omega arith) (omega (arith, s.narrow)) e₈ in
      let (p', p<) = checked_add-eq-ok i j i< j< r₈ in
      (omega (arith, a', b', c', f', g', i', j', p'), p<, low, high, e₁ ∙ ap (λ (x : ℕ). ok x) a')

  checksum_bytes-lt : (xs : List ℕ) (c : ℕ) → 1 ≤ length xs → checksum_bytes c xs < 2 ^ 64
  unfolding checksum_bytes
  checksum_bytes-lt [] c h = absurd (omega arith)
  checksum_bytes-lt (x ∷ []) c h = unfold update_checksum in omega arith
  checksum_bytes-lt (x ∷ y ∷ ys) c h =
      checksum_bytes-lt (y ∷ ys) (update_checksum c x) (omega arith)

  length-write_header :
      (h : Header) (c : ℕ) (rest : List ℕ) → length (write_header h c rest) ≡ 112 + length rest
  unfolding write_header write_little_endian
  length-write_header h c rest = omega arith

  length-write_payload :
      (index : HnswIndex platform)
      → length index.vectors ≡ length index.ids * index.config.dimension
      → length (flags index.graph) ≡ length index.ids
      → length (write_payload platform text index)
        ≡ arrays (length index.ids) index.config.dimension
          + 4 * length (graph_words index.graph)
          + (4 + length (text.print index.random))
          + (8 + length index.ids)
  unfolding write_payload
  length-write_payload index rows marked =
      let state = text.print index.random in
      let from_state = write_little_endian 4 (length state) ++ state in
      let from_flags = write_values 1 (flags index.graph) ++ from_state in
      let from_size = write_little_endian 8 (HnswIndex.size platform index) ++ from_flags in
      let from_graph = write_values 4 (graph_words index.graph) ++ from_size in
      let from_vectors = write_values 4 index.vectors ++ from_graph in
      omega (
        arith,
        rows,
        marked,
        length-append (write_values 8 index.ids) from_vectors,
        length-append (write_values 4 index.vectors) from_graph,
        length-append (write_values 4 (graph_words index.graph)) from_size,
        length-append (write_little_endian 8 (HnswIndex.size platform index)) from_flags,
        length-append (write_values 1 (flags index.graph)) from_state,
        length-append (write_little_endian 4 (length state)) state,
        length-write_values 8 index.ids,
        length-write_values 4 index.vectors,
        length-write_values 4 (graph_words index.graph),
        length-write_values 1 (flags index.graph),
        length-write_little_endian 8 (HnswIndex.size platform index),
        length-write_little_endian 4 (length state),
      )

  length-flags : (nodes : List Node) → length (flags nodes) ≡ length nodes
  unfolding flags
  length-flags [] = refl
  length-flags (n ∷ ns) = ap suc (length-flags ns)

  selection_kept : (n : HnswNeighborSelection) → selection_of (selection_code n) ≡ n
  selection_kept HnswNeighborSelection.simple = refl
  selection_kept HnswNeighborSelection.heuristic = refl

  -- The header of an index fits its fields.
  fitting :
      (index : HnswIndex platform) (p : ℕ)
      → IsSavable platform m index
      → p < 2 ^ 64
      → FitsHeader (header_of platform text index p)
  unfolding header_of
  fitting index p s small =
      let level = top_kept platform text m index p s in
      let bounded = level_bounded platform text m index p s in
      record {
        known = omega arith;
        supported = omega arith;
        dimension = s.dimension;
        count = omega (arith, s.narrow);
        max_connections = omega (arith, s.few);
        ef_construction = s.ef_construction;
        ef_search = s.ef_search;
        seed = s.seed;
        selection = code_fits index.config.neighbor_selection;
        top_level = unfold header_of in omega (arith, level, bounded);
        entry_point = entry_fits index s;
        payload_bytes = small;
      }
    where
      code_fits : (n : HnswNeighborSelection) → selection_code n < 2 ^ 32
      code_fits HnswNeighborSelection.simple = omega arith
      code_fits HnswNeighborSelection.heuristic = omega arith

      entry_fits :
          (index : HnswIndex platform)
          → IsSavable platform m index
          → (if length index.ids == 0 then empty_entry else index.entry_point) < 2 ^ 64
      entry_fits index s = elim (Bool-cases (length index.ids == 0)) [
        | inl e ↦ rw e (omega arith)
        | inr e ↦
            let (inside, at) = s.sound.entry (ground arith) in
            rw e (omega (arith, inside, s.narrow))
      ]

  -- What the header says of the sizes.
  described :
      (index : HnswIndex platform) {p : ℕ}
      → (s : IsSavable platform m index) → payload_bytes platform text index ≡ ok p
      → 112
          + (arrays (length index.ids) index.config.dimension
              + largest_graph (length index.ids) index.config.max_connections
              + (4 + maximum_rng_state_bytes)
              + (8 + length index.ids))
        < 2 ^ 64
      → Describes
          (header_of platform text index p)
          (4 * length (graph_words index.graph))
          (length (text.print index.random))
  unfolding header_of
  described index {p} s e room =
      let (exact, small, low, high, product) = payload_bytes-eq-ok index s e in
      let (least, most) =
        graph_words_bounds index.config.max_connections (length index.ids) index.max_level 0
          index.graph s.sound.lists in
      record {
        version = refl;
        good = good_header platform text m index p s;
        entry = good_entry platform text m index p s;
        wide = s.dimension;
        narrow = s.narrow;
        few = s.few;
        payload = exact;
        graph_low = omega (arith, least, s.sound.nodes);
        graph_high =
            most_bytes (length index.ids) (length index.graph) index.config.max_connections
              (length (graph_words index.graph)) s.sound.nodes most;
        state_low = low;
        state_high = high;
        fits = room;
      }
    where
      most_bytes :
          (n k connections words : ℕ)
          → k ≡ n
          → words ≤ k * (1 + 64 * (1 + connections * 2))
          → 4 * words ≤ largest_graph n connections
      most_bytes n k connections words e h =
          let same : 4 * (k * (1 + 64 * (1 + connections * 2))) ≡ largest_graph n connections =
            rw e (grind arith) in
          omega (arith, h, same)

  same_settings :
      (index : HnswIndex platform) (p : ℕ)
      → config_of (header_of platform text index p) index.config.kernel ≡ index.config
  unfolding header_of
  same_settings index p = rw (selection_kept index.config.neighbor_selection)

  stored_fits :
      (c : ℕ) (index : HnswIndex platform)
      → 1 ≤ length (text.print index.random)
      → checksum_payload platform text c index < 2 ^ 64
  unfolding checksum_payload
  stored_fits c index low = checksum_bytes-lt (text.print index.random) _ low

  -- An HNSW index that was saved without an error is loaded again exactly: vectors, IDs, layers,
  -- tombstones, entry point and generator. The index is savable (a sound graph, IDs and values in
  -- their ranges, rows of norm 1 within the tolerance, a valid configuration; if it is empty,
  -- entry point and level are 0), the constructor accepts its configuration, the text of its
  -- generator parses back, and the largest payload that its header allows fits 64 bits.
  pub load-save_graph :
      (disk : Disk) (index fresh : HnswIndex platform) {file : List ℕ}
      → IsSavable platform m index
      → HnswIndex.create platform m index.config ≡ ok fresh
      → fresh.dot ≡ index.dot
      → text.parse (text.print index.random) ≡ some (index.random, [])
      → 112
          + (arrays (length index.ids) index.config.dimension
              + largest_graph (length index.ids) index.config.max_connections
              + (4 + maximum_rng_state_bytes)
              + (8 + length index.ids))
        < 2 ^ 64
      → save platform text disk index ≡ ok file
      → load platform text m (some file) index.config.kernel ≡ ok index
  unfolding load header_of
  load-save_graph disk index fresh {file} s made dot parsed room e =
      let config = created platform text m index.config made in
      let (p, sized, bytes) = save-eq-ok disk index e in
      let (exact, small, low, high, product) = payload_bytes-eq-ok index s sized in
      let h = header_of platform text index p in
      let c = checksum_header fnv_offset h in
      let stored = checksum_payload platform text c index in
      let content = write_payload platform text index in
      let d = described index s sized room in
      let long : length content ≡ p =
        length-write_payload index s.sound.rows (length-flags index.graph ∙ s.sound.nodes)
        ∙ sym exact in
      let whole : length file ≡ header_size + p =
        ap (λ (xs : List ℕ). length xs) bytes
        ∙ length-write_header h stored content
        ∙ ap (λ (x : ℕ). 112 + x) long in
      let head =
        read-write_graph_header h stored fnv_offset content (fitting index p s small)
          (stored_fits c index low) in
      let passes =
        validate_header_ok h (4 * length (graph_words index.graph))
          (length (text.print index.random)) d in
      let end =
        file_size_added h (4 * length (graph_words index.graph)) (length (text.print index.random))
          d in
      let same_config : config_of h index.config.kernel ≡ index.config = same_settings index p in
      rw (bytes, head)
        (rw (← bytes, whole, passes, same_config, made)
          (payload_loaded platform text m index p s (header_size + p) c fresh config dot parsed end
            (omega (arith, long)) product low high))
