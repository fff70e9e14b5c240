-- ===== src/SnapshotPublication/Trace.antt =====
-- Any history of the publication service and its store, in any order: calls of begin, fail,
-- rejected and activate, completions that other calls interrupt, and queries of the store.
use Prim.Native.String.{String}
use fast_vector.Prelude.{ℕ, ◌≡◌, List, [], ◌∷◌, Option, some, get_elem?, ok}
use fast_vector.SearchContext.{SearchContext}
use fast_vector.VectorIndex.{VectorIndex}
use fast_vector.VectorStore.{ServingSnapshot, VectorStore, replace_index, search, Encounter}
use fast_vector.SnapshotPublication.Manifest.{SnapshotManifest, Libraries}
use fast_vector.SnapshotPublication.{
  SnapshotPublication, Loaders, begin, start_completion, prepare_candidate, finish_completion, fail,
  reject,
}
use fast_vector.SnapshotPublication.Activate.{activate}

module _ (index_type : VectorIndex) where
  open index_type use {Index}

  -- What a completion holds between its two critical sections: its copies, and then its snapshot.
  pub record Ticket : Type 0 where
    pub token : ℕ
    pub manifest : SnapshotManifest
    pub generation : ℕ

  pub record Loaded : Type 0 where
    pub ticket : Ticket
    pub snapshot : ServingSnapshot index_type

  pub record System : Type 0 where
    pub publication : SnapshotPublication index_type
    pub in_flight : List Ticket
    pub loaded : List Loaded

  abbrev pub fresh : SnapshotPublication index_type → System
  fresh p = record { publication = p; in_flight = []; loaded = [] }

  module _ (l : Libraries) (loaders : Loaders index_type) where
    pub data Step (y z : System) : Type 0 where
      begins :
          (m : SnapshotManifest) (generation now : ℕ) {p : SnapshotPublication index_type}
          {token : ℕ}
          → begin index_type l y.publication m generation now ≡ ok (p, token)
          → z ≡ record y { publication = p }
          → Step y z
      starts :
          (token : ℕ) {m : SnapshotManifest} {generation : ℕ}
          → start_completion index_type y.publication token ≡ ok (m, generation)
          → z ≡ record y {
            in_flight =
                record { token = token; manifest = m; generation = generation } ∷ y.in_flight;
          }
          → Step y z
      loads :
          (i : ℕ) (t : Ticket) (file : Option (List ℕ)) {n : ServingSnapshot index_type}
          → get_elem? y.in_flight i ≡ some t
          → prepare_candidate index_type l loaders y.publication file t.manifest t.generation ≡ ok n
          → z ≡ record y { loaded = record { ticket = t; snapshot = n } ∷ y.loaded }
          → Step y z
      finishes :
          (i : ℕ) (d : Loaded) (now : ℕ) {p : SnapshotPublication index_type}
          → get_elem? y.loaded i ≡ some d
          → finish_completion index_type y.publication d.ticket.token d.ticket.manifest
              d.ticket.generation d.snapshot now
            ≡ ok p
          → z ≡ record y { publication = p }
          → Step y z
      fails :
          (token now : ℕ)
          → z ≡ record y { publication = fail index_type y.publication token now }
          → Step y z
      rejects :
          (m : SnapshotManifest) (generation : ℕ)
          → z ≡ record y { publication = reject index_type y.publication m generation }
          → Step y z
      activates :
          (snapshot_id : String) (generation took : ℕ)
          → z ≡ record y {
            publication = (activate index_type y.publication snapshot_id generation took).0;
          }
          → Step y z
      queries :
          (query : List ℕ) (k : ℕ) (ctx : SearchContext) (e : Encounter)
          → z ≡ record y {
            publication = record (y.publication) {
              store = (search index_type y.publication.store query k ctx e).0;
            };
          }
          → Step y z
      replaces :
          (i : Option Index) {s : VectorStore index_type}
          → replace_index index_type y.publication.store i ≡ ok s
          → z ≡ record y { publication = record (y.publication) { store = s } }
          → Step y z

    pub data Reach (y : System) : System → Type 0 where
      here : Reach y y
      next : {z w : System} → Reach y z → Step z w → Reach y w
