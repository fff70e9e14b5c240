-- ===== src/HnswIndexIo/Accepted.antt =====
-- A header that save wrote passes validate_header (src/hnsw_index_io.cpp).
use fast_vector.Prelude.{
  ℕ, ◌+◌, ◌*◌, ◌^◌, ◌≤◌, ◌<◌, ◌≡◌, true, false, ltb, leb, ◌==◌, ok, arith, ==-refl,
}
use fast_vector.Bytes.{checked_add}
use fast_vector.HnswIndexIo.{
  Header, validate_header, bad_configuration, array_bytes, add_sections, maximum_graph_bytes,
  check_entry, header_size, current_version, rng_state_version, maximum_level,
  maximum_rng_state_bytes,
}
use fast_vector.HnswIndexIo.Sizes.{checked_add_ok, checked_multiply_ok}

-- The bytes of the largest graph of `count` nodes with `connections` links on a layer.
abbrev pub largest_graph : ℕ → ℕ → ℕ
largest_graph count connections = count * (4 + 64 * (4 + connections * 2 * 4))

-- The bytes of the IDs and of the vectors.
abbrev pub arrays : ℕ → ℕ → ℕ
arrays count dimension = count * 8 + count * dimension * 4

module _ (h : Header) (graph state : ℕ) where
  -- What save puts into a header: the sizes of the graph section and of the generator's text.
  pub record Describes : Type 0 where
    pub version : h.version ≡ current_version
    pub good : bad_configuration h ≡ false
    pub entry : check_entry h ≡ ok tt
    pub wide : h.dimension < 2 ^ 64
    pub narrow : h.count < 2 ^ 32
    pub few : h.max_connections < 2 ^ 31
    pub payload : h.payload_bytes ≡ arrays h.count h.dimension + graph + (4 + state) + (8 + h.count)
    pub graph_low : h.count * 8 ≤ graph
    pub graph_high : graph ≤ largest_graph h.count h.max_connections
    pub state_low : 1 ≤ state
    pub state_high : state ≤ maximum_rng_state_bytes
    pub fits :
        112
          + (arrays h.count h.dimension
              + largest_graph h.count h.max_connections
              + (4 + maximum_rng_state_bytes)
              + (8 + h.count))
        < 2 ^ 64

  module _ (d : Describes) where
    sections_added :
        (payload extra : ℕ)
        → payload + extra + (8 + h.count) < 2 ^ 64
        → add_sections h payload extra ≡ ok (payload + extra + (8 + h.count))
    unfolding add_sections
    sections_added payload extra small =
        let new : leb rng_state_version h.version ≡ true = ground (arith, d.version) in
        let last : (h.version == current_version) ≡ true = ground (arith, d.version) in
        rw (
          new,
          last,
          checked_add_ok payload extra (omega arith),
          checked_add_ok 8 h.count (omega arith),
          checked_add_ok (payload + extra) (8 + h.count) small,
        )

    arrays_added : array_bytes h ≡ ok (arrays h.count h.dimension)
    unfolding array_bytes
    arrays_added = rw (
      checked_multiply_ok h.count h.dimension (omega (arith, d.narrow)) d.wide
          (omega (arith, d.fits)),
      checked_multiply_ok (h.count * h.dimension) 4 (omega (arith, d.fits)) (omega arith)
          (omega (arith, d.fits)),
      checked_multiply_ok h.count 8 (omega (arith, d.narrow)) (omega arith)
          (omega (arith, d.narrow)),
      checked_add_ok (h.count * 8) (h.count * h.dimension * 4) (omega (arith, d.fits)),
    )

    largest_added : maximum_graph_bytes h ≡ ok (largest_graph h.count h.max_connections)
    unfolding maximum_graph_bytes
    largest_added = rw (
      checked_multiply_ok (h.max_connections * 2) 4 (omega (arith, d.few)) (omega arith)
          (omega (arith, d.few)),
      checked_add_ok 4 (h.max_connections * 2 * 4) (omega (arith, d.few)),
      checked_multiply_ok (maximum_level + 1) (4 + h.max_connections * 2 * 4) (omega arith)
          (omega (arith, d.few)) (omega (arith, d.few)),
      checked_add_ok 4 ((maximum_level + 1) * (4 + h.max_connections * 2 * 4))
          (omega (arith, d.few)),
      checked_multiply_ok h.count (4 + 64 * (4 + h.max_connections * 2 * 4))
          (omega (arith, d.narrow)) (omega (arith, d.few)) (omega (arith, d.fits)),
    )

    pub file_size_added :
        checked_add header_size h.payload_bytes ≡ ok (header_size + h.payload_bytes)
    file_size_added =
        checked_add_ok header_size h.payload_bytes
          (omega (arith, d.payload, d.graph_high, d.state_high, d.fits))

    pub validate_header_ok : validate_header h (header_size + h.payload_bytes) ≡ ok tt
    unfolding validate_header
    validate_header_ok =
        let least = arrays h.count h.dimension + h.count * 8 in
        let most = arrays h.count h.dimension + largest_graph h.count h.max_connections in
        let low : ltb h.payload_bytes (least + 5 + (8 + h.count)) ≡ false =
          ground (arith, d.payload, d.graph_low, d.state_low) in
        let high : ltb (most + (4 + maximum_rng_state_bytes) + (8 + h.count)) h.payload_bytes
            ≡ false =
          ground (arith, d.payload, d.graph_high, d.state_high) in
        rw
          (
            d.good,
            arrays_added,
            checked_multiply_ok h.count 8 (omega (arith, d.narrow)) (omega arith)
                (omega (arith, d.narrow)),
            checked_add_ok (arrays h.count h.dimension) (h.count * 8)
                (omega (arith, d.graph_low, d.graph_high, d.fits)),
            sections_added least 5 (omega (arith, d.graph_low, d.graph_high, d.fits)),
            low,
            largest_added,
            checked_add_ok (arrays h.count h.dimension) (largest_graph h.count h.max_connections)
                (omega (arith, d.fits)),
            sections_added most (4 + maximum_rng_state_bytes) (omega (arith, d.fits)),
            high,
            file_size_added,
            ==-refl (header_size + h.payload_bytes),
          )
          d.entry
