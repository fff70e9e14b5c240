-- ===== src/Examples/Snapshots.antt =====
-- A graph of two nodes in a file: its header, the whole round trip, and its publication.
use text.Mathlib.Text.{◌==◌ as str_eq}
use fast_vector.Prelude.{
  ℕ, ◌+◌, ◌-◌, ◌≡◌, refl, List, [], ◌∷◌, none, some, All, true, false, if◌then◌else◌, assign,
  no_ids, ok, arith, err, out_of_fuel, ◌≢◌, inr, not_stopped,
}
use fast_vector.Distance.{scalar, dot_product_scalar, resolve_dot_product_kernel}
use fast_vector.Float.{is_finite, double_abs, double_gt, double_is_nan, double_key}
use fast_vector.Bytes.{fnv_offset, checked_multiply, checked_add}
use fast_vector.FlatIndexIo.{Disk, off_norm}
use fast_vector.FlatIndexIo.Saved.{MapsOf, MapsOf-snoc}
use fast_vector.HnswIndex
use fast_vector.HnswIndex.{HnswIndex, Node}
use fast_vector.HnswIndexIo.{Header, write_header, read_header, checksum_header}
use fast_vector.HnswIndexIo.Save.{
  RandomText, save, header_of, checksum_payload, write_payload, count_deleted,
}
use fast_vector.HnswIndexIo.Load.{load, nodes_present}
use fast_vector.HnswIndexIo.HeaderTrip.{read-write_graph_header}
use fast_vector.HnswIndexIo.Sound.{IsSound, load-IsSound}
use fast_vector.HnswIndexIo.Savable.{IsSavable}
use fast_vector.HnswIndexIo.RoundTrip.{load-save_graph}
use fast_vector.HnswIndexPublish.{FileSystem, Calls, publish_hnsw_index, write_temporary, verify}
use fast_vector.HnswIndexPublish.Atomic.{IsIntact, IsSnapshot, publish-All}
use fast_vector.HnswIndexPublish.Delivered.{final, publish_delivers}
use fast_vector.SearchContext.{World, default_context}
use fast_vector.HnswIndex.Search.{search}
use fast_vector.HnswIndex.Insertion.{add}
use fast_vector.HnswIndex.Navigable.{IsNavigable}
use fast_vector.HnswIndex.Histories.{Operation, insertion, erasure, rebuilding, run, history_ends}
use fast_vector.Examples.{toy}
use fast_vector.Examples.Graphs.{counting, settings}

-- A generator whose text is one character.
abbrev one_letter : RandomText counting
one_letter = record {
  print = λ r. (r + 48) ∷ [];
  parse = λ t. elim t [ [] ↦ none | c ∷ cs ↦ some (c - 48, cs) ];
}

abbrev void : HnswIndex counting
void = record {
  config = settings;
  dot = dot_product_scalar toy;
  vectors = [];
  ids = [];
  graph = [];
  id_to_node = no_ids;
  random = 42;
  entry_point = 0;
  max_level = 0;
  deleted_count = 0;
}

-- Two nodes that point at each other; the second is marked as deleted.
abbrev pair : HnswIndex counting
pair = record void {
  vectors = 7 ∷ 8 ∷ [];
  ids = 10 ∷ 20 ∷ [];
  graph =
      record { levels = (1 ∷ []) ∷ []; deleted = false }
      ∷ record { levels = (0 ∷ []) ∷ []; deleted = true }
      ∷ [];
  id_to_node = assign (assign no_ids 10 (some 0)) 20 (some 1);
  deleted_count = 1;
}

pair_mapped : MapsOf pair.id_to_node pair.ids
pair_mapped =
    MapsOf-snoc (assign no_ids 10 (some 0)) (10 ∷ []) 20
      (MapsOf-snoc no_ids [] 10 (λ j r. (λ e. cc, λ e. cc)) refl) refl

pair-IsSound : IsSound counting pair
unfolding nodes_present count_deleted
pair-IsSound = record {
  nodes = refl;
  rows = refl;
  mapped = pair_mapped;
  lists = (
    (omega arith, omega arith, ((omega arith, λ e. omega arith), tt), (refl, tt), tt),
    omega arith,
    omega arith,
    omega arith,
    (
      (omega arith, omega arith, ((omega arith, λ e. omega arith), tt), (refl, tt), tt),
      omega arith,
      omega arith,
      omega arith,
      tt,
    ),
  );
  present = refl;
  entry = λ some_node. (omega arith, refl);
  tombstones = refl;
}

pair-IsSavable : IsSavable counting toy pair
unfolding off_norm is_finite double_abs double_gt double_is_nan double_key
pair-IsSavable = record {
  sound = pair-IsSound;
  ids = (omega arith, (omega arith, tt));
  vectors = ((omega arith, refl), ((omega arith, refl), tt));
  normed = (refl, (refl, tt));
  narrow = omega arith;
  has_dimension = omega arith;
  dimension = omega arith;
  connected = omega arith;
  few = omega arith;
  construction = omega arith;
  ef_construction = omega arith;
  searches = omega arith;
  ef_search = omega arith;
  seed = omega arith;
  floats = omega arith;
  empty_entry = λ e. refl;
  empty_level = λ e. refl;
}

abbrev sound_disk : Disk
sound_disk = record { opens = true; writes = true; flushes = true }

abbrev pair_file : List ℕ
pair_file =
    write_header (header_of counting one_letter pair 63)
      (checksum_payload counting one_letter
        (checksum_header fnv_offset (header_of counting one_letter pair 63)) pair)
      (write_payload counting one_letter pair)

saved : save counting one_letter sound_disk pair ≡ ok pair_file
unfolding save checked_multiply checked_add
saved = refl

pair_loaded : load counting one_letter toy (some pair_file) scalar ≡ ok pair
unfolding HnswIndex.create resolve_dot_product_kernel
pair_loaded =
    load-save_graph counting one_letter toy sound_disk pair void pair-IsSavable refl refl refl
      (omega arith) saved

load-save_graph_example : load counting one_letter toy (some pair_file) scalar ≡ ok pair
unfolding HnswIndex.create resolve_dot_product_kernel
load-save_graph_example =
    load-save_graph counting one_letter toy sound_disk pair void pair-IsSavable refl refl refl
      (omega arith) saved

load-IsSound_example : IsSound counting pair
load-IsSound_example =
    load-IsSound counting one_letter toy (some pair_file) scalar {index = pair} pair_loaded

abbrev small : Header
small = record {
  version = 3;
  dimension = 1;
  count = 2;
  max_connections = 2;
  ef_construction = 4;
  ef_search = 4;
  seed = 42;
  selection = 1;
  top_level = 0;
  entry_point = 0;
  payload_bytes = 63;
}

read-write_graph_header_example :
    read_header (write_header small 1000 (9 ∷ [])) fnv_offset
    ≡ ok (small, 1000, record { checksum = checksum_header fnv_offset small; rest = 9 ∷ [] })
read-write_graph_header_example =
    read-write_graph_header small 1000 fnv_offset (9 ∷ [])
      (record {
        known = omega arith;
        supported = omega arith;
        dimension = omega arith;
        count = omega arith;
        max_connections = omega arith;
        ef_construction = omega arith;
        ef_search = omega arith;
        seed = omega arith;
        selection = omega arith;
        top_level = omega arith;
        entry_point = omega arith;
        payload_bytes = omega arith;
      })
      (omega arith)

-- A directory that holds an older snapshot.
abbrev older : FileSystem
older q = if str_eq q "x.index" then some (1 ∷ 2 ∷ []) else none

abbrev all_succeed : Calls
all_succeed = record {
  temporary = "x.index.tmp-1";
  creates = true;
  disk = sound_disk;
  partial = [];
  syncs_file = true;
  renames = true;
  links = true;
  unlinks = true;
  syncs_parent = true;
  removes = true;
}

publish-All_example :
    All
      (IsIntact counting one_letter toy scalar all_succeed pair older "x.index" true)
      (publish_hnsw_index counting one_letter toy scalar all_succeed pair older "x.index"
        true).states
publish-All_example =
    publish-All counting one_letter toy scalar all_succeed pair older "x.index" true refl

published :
    (publish_hnsw_index counting one_letter toy scalar all_succeed pair older "x.index" true).result
    ≡ ok tt
unfolding publish_hnsw_index HnswIndex.size HnswIndex.stats
published = rw (saved, pair_loaded, write_temporary, verify) refl

publish_delivers_example :
    (bytes : List ℕ) × IsSnapshot counting one_letter toy scalar all_succeed pair older "x.index"
      true bytes
    × (final older
          (publish_hnsw_index counting one_letter toy scalar all_succeed pair older "x.index"
            true).states
          "x.index"
        ≡ some bytes)
    × (final older
          (publish_hnsw_index counting one_letter toy scalar all_succeed pair older "x.index"
            true).states
          "x.index.tmp-1"
        ≡ none)
publish_delivers_example =
    publish_delivers counting one_letter toy scalar all_succeed pair older "x.index" true refl
      published

-- Each look at the clock finds no reason to stop.
abbrev idle : World
idle check = record { reason = not_stopped; now = 0 }

-- One ID is erased, a third one is inserted, and the index is rebuilt.
abbrev calls : List Operation
calls = erasure 10 ∷ insertion none 30 (9 ∷ []) ∷ rebuilding 7 ∷ []

history_ends_example :
    IsNavigable counting (run counting one_letter toy calls pair)
    × (search counting default_context idle toy
          (run counting one_letter toy calls pair)
          (7 ∷ [])
          2
          4
        ≢ err out_of_fuel)
    × ((add counting toy none (run counting one_letter toy calls pair) 40 (8 ∷ [])).1
        ≢ err out_of_fuel)
history_ends_example =
    history_ends counting one_letter toy pair calls default_context idle (7 ∷ []) 2 4 none 40
      (8 ∷ []) (inr (some pair_file, scalar, pair_loaded))
