-- ===== src/Examples/Stores.antt =====
-- A store over the flat index: publications, queries and batches.
use fast_vector.Prelude.{
  ◌+◌, ◌%◌, ◌^◌, ◌≡◌, ◌⊎◌, refl, List, [], ◌∷◌, arith, some, ok, err, Error, snapshot_mismatch,
  not_stopped,
}
use fast_vector.Distance.{normalize_l2}
use fast_vector.SearchContext.{default_context}
use fast_vector.VectorIndex.{VectorIndex}
use fast_vector.FlatIndex
use fast_vector.FlatIndex.{FlatIndex, no_fault}
use fast_vector.FlatIndex.Interface.{flat_vector_index}
use fast_vector.VectorStore.{
  SnapshotIdentity, ServingSnapshot, Ownership, writable, serving, VectorStore, VectorRecord,
  Encounter, SnapshotSearchResult, no_identity, prepare_snapshot, activate_snapshot, replace_index,
  validate_batch, add_batch,
}
use fast_vector.VectorStore.Publication.{activate-prepare, activate_stale}
use fast_vector.VectorStore.Trace.{Reach, Follows, here, next, replaces, activates, Reach-Follows}
use fast_vector.VectorStore.Query.{
  Query, Call, entered, checked, holding, matched, searched, returned, advance,
}
use fast_vector.VectorStore.Overlap
use fast_vector.VectorStore.Overlap.{System, enters, advances}
use fast_vector.VectorStore.Answered.{ServedBetween, IsAnswer, answers_consistent}
use fast_vector.VectorStore.Counted.{has_returned, has_thrown, tally, queries_counted}
use fast_vector.VectorStore.Batch.{Progress, add_batch-Progress}
use fast_vector.Examples.{toy, empty, one_row, two_rows}
use fast_vector.Examples.Indexes.{one_row-IsValid}

abbrev pub flat : VectorIndex
flat = flat_vector_index toy (λ i id. no_fault)

abbrev first : ServingSnapshot flat
first = record { index = two_rows; version = 1; identity = no_identity }

abbrev pub owning : Ownership flat → VectorStore flat
owning o = record {
  ownership = o;
  maximum_batch_size = 10;
  successful_queries = 0;
  failed_queries = 0;
  inserted_vectors = 0;
}

abbrev read_only : VectorStore flat
read_only = owning (serving first)

abbrev pub autumn : SnapshotIdentity
autumn = record { snapshot_id = "autumn"; generation = 4; embedding_revision = "r1" }

abbrev pub planned : ServingSnapshot flat
planned = record { index = one_row; version = 2; identity = autumn }

abbrev replaced : ServingSnapshot flat
replaced = record { index = empty; version = 2; identity = no_identity }

activate-prepare_example :
    (activate_snapshot flat read_only (some planned) ≡ ok (owning (serving planned)))
    × (planned.version ≡ first.version + 1)
    × (planned.identity ≡ autumn)
    × (planned.index ≡ one_row)
unfolding prepare_snapshot
activate-prepare_example =
    activate-prepare flat read_only one_row autumn first planned refl (omega arith) refl

activate_stale_example :
    activate_snapshot flat (owning (serving replaced)) (some planned) ≡ err snapshot_mismatch
unfolding prepare_snapshot
activate_stale_example =
    activate_stale flat read_only (owning (serving replaced)) one_row autumn first replaced planned
      refl refl refl (omega arith) (omega arith)

two_publications : Reach flat toy read_only (owning (serving (record planned { version = 3 })))
unfolding prepare_snapshot replace_index activate_snapshot
two_publications = next (next here (replaces (some empty) {t = owning (serving replaced)} refl)) (
    activates (owning (serving replaced)) replaced one_row autumn (record planned { version = 3 })
      refl refl refl)

Reach-Follows_example :
    (d : ServingSnapshot flat) × (serving (record planned { version = 3 }) ≡ serving d)
    × Follows flat toy first d
Reach-Follows_example =
    Reach-Follows flat toy read_only (owning (serving (record planned { version = 3 }))) first refl
      (omega arith) two_publications

abbrev quick : Encounter
quick = record {
  before = record { reason = not_stopped; now = 0 };
  waiting = [];
  locked = record { reason = not_stopped; now = 1 };
  during = λ n. record { reason = not_stopped; now = n + 2 };
  after = record { reason = not_stopped; now = 9 };
}

-- A query that has acquired `first` while `planned` is activated.
abbrev asking : Query flat → Call flat
asking q = record {
  query = 1 ∷ 1 ∷ [];
  k = 0;
  context = default_context;
  encounter = quick;
  state = q;
}

abbrev at : VectorStore flat → Query flat → System flat toy
at s q = record { store = s; queries = asking q ∷ [] }

abbrev renewed : VectorStore flat
renewed = owning (serving planned)

abbrev answer : SnapshotSearchResult
answer = record { neighbors = []; snapshot_version = 1; identity = no_identity }

abbrev ended : System flat toy
ended = at (record renewed { successful_queries = 1 }) (returned answer)

overlapped :
    (y : System flat toy)
    → Overlap.Reach flat toy y (at read_only entered)
    → Overlap.Reach flat toy y ended
unfolding advance activate_snapshot FlatIndex.search
overlapped y r =
    let passed : Overlap.Reach flat toy y (at read_only checked) =
      Overlap.next r (advances 0 (asking entered) refl refl) in
    let acquired : Overlap.Reach flat toy y (at read_only (holding first)) =
      Overlap.next passed (advances 0 (asking checked) refl refl) in
    let published : Overlap.Reach flat toy y (at renewed (holding first)) =
      Overlap.next acquired (Overlap.activates (some planned) {t = renewed} refl refl) in
    let copied : Overlap.Reach flat toy y (at renewed (matched first 1 no_identity)) =
      Overlap.next published (advances 0 (asking (holding first)) refl refl) in
    let found : Overlap.Reach flat toy y (at renewed (searched [] 1 no_identity)) =
      Overlap.next copied (advances 0 (asking (matched first 1 no_identity)) refl refl) in
    Overlap.next found (advances 0 (asking (searched [] 1 no_identity)) refl refl)

answers_consistent_example :
    (snapshot : ServingSnapshot flat) × ServedBetween flat toy (at read_only entered) ended snapshot
    × IsAnswer flat toy (asking entered) snapshot [] 1 no_identity
answers_consistent_example =
    answers_consistent flat toy (at read_only entered) ended 0 (asking entered)
      (asking (returned answer)) first answer refl refl refl
      (overlapped (at read_only entered) Overlap.here) refl refl

abbrev quiet : System flat toy
quiet = record { store = read_only; queries = [] }

queries_counted_example :
    (1 ≡ (0 + tally flat (has_returned flat) ended.queries) % 2 ^ 64)
    × (0 ≡ (0 + tally flat (has_thrown flat) ended.queries) % 2 ^ 64)
queries_counted_example =
    queries_counted flat toy quiet ended refl (omega arith) (omega arith)
      (overlapped quiet (Overlap.next Overlap.here (enters (asking entered) refl refl)))

abbrev records : List VectorRecord
records = record { id = 5; values = 1 ∷ 2 ∷ [] } ∷ record { id = 7; values = 8 ∷ 9 ∷ [] } ∷ []

add_batch-Progress_example :
    ((e : Error) × (validate_batch toy 10 2 records ≡ err e)
      × (add_batch flat toy (owning (writable one_row)) records
          ≡ (owning (writable one_row), err e)))
    ⊎ ((stored : List VectorRecord) × (left : List VectorRecord) × (validate_batch toy 10 2 records
          ≡ ok tt)
        × Progress flat
            (owning (writable one_row))
            (add_batch flat toy (owning (writable one_row)) records).0
            one_row
            (add_batch flat toy (owning (writable one_row)) records).1
            records
            stored
            left)
unfolding FlatIndex.add normalize_l2
add_batch-Progress_example =
    add_batch-Progress flat toy (owning (writable one_row)) one_row records refl one_row-IsValid
