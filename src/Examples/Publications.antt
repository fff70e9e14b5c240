-- ===== src/Examples/Publications.antt =====
-- The publication service over a store of the flat index: a snapshot is prepared, loaded from the
-- bytes of a saved index, and activated.
use fast_vector.Prelude.{
  ◌<◌, ℕ, ◌≡◌, ◌≤◌, refl, List, [], ◌∷◌, arith, true, some, none, ok, err, length, replicate,
  snapshot_mismatch, take, drop,
}
use fast_vector.Distance.{scalar, normalize_l2}
use fast_vector.FlatIndexIo
use fast_vector.FlatIndex
use fast_vector.Bytes.{accumulate, write_little_endian, read_exact, read_little_endian}
use fast_vector.VectorStore.{
  ServingSnapshot, serving, VectorStore, serving_snapshot, prepare_snapshot, activate_snapshot,
}
use fast_vector.SnapshotPublication.Manifest.{
  SnapshotManifest, PublicationState, LastResult, PublicationConfig, Libraries, snapshot_identity,
  validate_manifest, hex_text, codes, no_manifest, elapsed, already_active,
}
use fast_vector.SnapshotPublication.{
  SnapshotPublication, Loaders, create, begin, begun, start_completion, prepare_candidate,
  finish_completion, fail, load_verified_snapshot, check_content, initial_status,
}
use fast_vector.SnapshotPublication.Activate.{activate}
use fast_vector.SnapshotPublication.Trace.{
  System, Ticket, fresh, Reach, here, next, begins, starts, loads, finishes, fails,
}
use fast_vector.SnapshotPublication.Invariant.{IsValid, IsVerified}
use fast_vector.SnapshotPublication.Activation.{swapped}
use fast_vector.SnapshotPublication.Histories.{history-IsValid, ready_activates}
use fast_vector.SnapshotPublication.Tokens.{superseded}
use fast_vector.SnapshotPublication.Repeats.{activate_again}
use fast_vector.SnapshotPublication.Verified.{load_verified_snapshot-eq-ok, IsAccepted, loader}
use fast_vector.Examples.{toy, two_rows}
use fast_vector.Examples.Files.{saved_file, saved_file-loads}
use fast_vector.Examples.Stores.{flat, planned, owning}

abbrev digest : List ℕ
digest = replicate 32 0xab

-- A digest that is the same for all files.
abbrev libraries : Libraries
libraries = record {
  byte_size = λ m. 200;
  serialize = λ m. m.format_version ∷ m.dimension ∷ m.vector_count ∷ m.file_size ∷ [];
  parse_json = λ json. none;
  sha256 = λ file. some digest;
}

abbrev loaders : Loaders flat
loaders = record {
  load_flat_index = λ file. FlatIndexIo.load toy (some file) scalar;
  load_hnsw_index = λ file. FlatIndexIo.load toy (some file) scalar;
}

abbrev winter : SnapshotManifest
winter = record {
  format_version = 1;
  snapshot_id = "sha256:abababababababababababababababababababababababababababababababab";
  index_type = "flat";
  dimension = 2;
  vector_count = 2;
  file_size = 88;
  sha256 = "abababababababababababababababababababababababababababababababab";
  embedding_revision = "r2";
}

accepted : validate_manifest libraries winter "flat" 1000 ≡ ok tt
unfolding validate_manifest
accepted = refl

content_fits : check_content flat libraries saved_file winter ≡ ok tt
unfolding check_content FlatIndexIo.write_header write_little_endian FlatIndexIo.write_values
    FlatIndex.add normalize_l2 accumulate
content_fits = refl

verified :
    load_verified_snapshot flat libraries loaders (some saved_file) winter "flat" 1000 ≡ ok two_rows
unfolding load_verified_snapshot FlatIndex.add normalize_l2 FlatIndexIo.write_header
    write_little_endian FlatIndexIo.write_values accumulate FlatIndexIo.load FlatIndexIo.read_header
    read_exact read_little_endian FlatIndexIo.validate_header FlatIndex.size
verified = rw (accepted, content_fits, saved_file-loads) refl

load_verified_snapshot-eq-ok_example :
    (bytes : List ℕ) × (some saved_file ≡ some bytes)
    × IsAccepted winter "flat" 1000
    × (length bytes ≡ 88)
    × (accumulate 0 0 (take 4 (drop 8 bytes)) ≡ 1)
    × ((digest : List ℕ) × (libraries.sha256 bytes ≡ some digest)
        × (hex_text digest ≡ codes winter.sha256))
    × (loader flat libraries loaders "flat" bytes ≡ ok two_rows)
    × (flat.dimension two_rows ≡ 2)
    × (flat.size two_rows ≡ 2)
load_verified_snapshot-eq-ok_example =
    load_verified_snapshot-eq-ok flat libraries loaders (some saved_file) winter "flat" 1000
      verified

-- The service over a store that serves `planned`, and its first preparation.
abbrev config : PublicationConfig
config = record { enabled = true; maximum_file_bytes = 1000 }

abbrev store : VectorStore flat
store = owning (serving planned)

abbrev service : SnapshotPublication flat
service = record {
  store = store;
  index_name = "flat";
  config = config;
  status = initial_status flat true 4;
  manifest = no_manifest;
  generation = 0;
  token = 0;
  started = 0;
  candidate = none;
}

made : create flat (some store) "flat" config ≡ ok service
unfolding create serving_snapshot
made = refl

abbrev one_begun : SnapshotPublication flat
one_begun = begun flat service winter 5 100

begins_once : begin flat libraries service winter 5 100 ≡ ok (one_begun, 1)
unfolding begin serving_snapshot initial_status
begins_once = rw accepted refl

abbrev ticket : Ticket flat
ticket = record { token = 1; manifest = winter; generation = 5 }

abbrev candidate : ServingSnapshot flat
candidate = record { index = two_rows; version = 3; identity = snapshot_identity winter 5 }

prepares :
    prepare_candidate flat libraries loaders one_begun (some saved_file) winter 5 ≡ ok candidate
unfolding prepare_candidate prepare_snapshot begun snapshot_identity
prepares = rw verified refl

abbrev one_ready : SnapshotPublication flat
one_ready = record one_begun {
  candidate = some candidate;
  status = record (one_begun.status) {
    prepare_us = elapsed one_begun.started 5100;
    state = PublicationState.ready_to_activate;
    last_result = LastResult.ready_to_activate;
    last_attempt = some (snapshot_identity winter 5);
  };
}

abbrev ready : System flat
ready = record {
  publication = one_ready;
  in_flight = ticket ∷ [];
  loaded = record { ticket = ticket; snapshot = candidate } ∷ [];
}

begun_once : Reach flat libraries loaders (fresh flat service) (fresh flat one_begun)
begun_once = next here (begins winter 5 100 begins_once refl)

to_ready : Reach flat libraries loaders (fresh flat service) ready
unfolding start_completion finish_completion begun
to_ready =
    next
      (next (next begun_once (starts 1 {m = winter} {generation = 5} refl refl))
        (loads 0 ticket (some saved_file) refl prepares refl))
      (finishes 0 (record { ticket = ticket; snapshot = candidate }) 5100 refl refl refl)

history-IsValid_example :
    (d : ServingSnapshot flat) × IsValid flat libraries loaders "flat" 1000 planned d ready
    × (4 ≤ d.identity.generation)
history-IsValid_example =
    history-IsValid flat libraries loaders "flat" 1000 store planned config service ready refl
      (omega arith) refl refl made to_ready

ready_activates_example :
    (n : ServingSnapshot flat) × (ready.publication.candidate ≡ some n)
    × IsVerified flat libraries loaders "flat" 1000 n
    × (activate flat one_ready n.identity.snapshot_id n.identity.generation 7
        ≡ (swapped flat libraries loaders "flat" 1000 one_ready n 7, ok tt))
ready_activates_example =
    ready_activates flat libraries loaders "flat" 1000 store planned config service ready 7 refl
      (omega arith) refl refl made to_ready refl

-- The first preparation fails, and begins again with the same manifest and generation.
abbrev one_failed : SnapshotPublication flat
one_failed = fail flat one_begun 1 200

abbrev retried : SnapshotPublication flat
retried = begun flat one_failed winter 5 300

begins_again : begin flat libraries one_failed winter 5 300 ≡ ok (retried, 2)
unfolding begin serving_snapshot initial_status fail begun
begins_again = rw accepted refl

superseded_example :
    (1 < 2)
    × (start_completion flat retried 1 ≡ err snapshot_mismatch)
    × (finish_completion flat retried 1 winter 5 candidate 9 ≡ err snapshot_mismatch)
    × (fail flat retried 1 9 ≡ retried)
superseded_example =
    superseded flat libraries loaders (fresh flat service) (fresh flat one_failed)
      (fresh flat retried) winter winter winter 5 100 5 300 5 9 candidate begins_once
      (next here (fails 1 200 refl)) begins_again here

abbrev renewed : SnapshotPublication flat
renewed = swapped flat libraries loaders "flat" 1000 one_ready candidate 7

activates_once : activate flat one_ready candidate.identity.snapshot_id 5 7 ≡ (renewed, ok tt)
unfolding activate snapshot_identity begun initial_status serving_snapshot activate_snapshot
activates_once = refl

activate_again_example :
    (q : SnapshotPublication flat) × (activate flat renewed candidate.identity.snapshot_id 5 8
      ≡ (q, ok tt))
    × (q.store ≡ renewed.store)
    × (q.status.last_result ≡ already_active)
    × (q.status.state ≡ PublicationState.serving)
activate_again_example =
    activate_again flat libraries loaders "flat" 1000 store planned config service ready
      candidate.identity.snapshot_id 5 7 8 refl (omega arith) refl refl made to_ready activates_once
