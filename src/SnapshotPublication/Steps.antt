-- ===== src/SnapshotPublication/Steps.antt =====
-- Each step keeps the invariant of the publication slot.
use Prim.Native.String.{String}
use fast_vector.Prelude.{
  ℕ, ◌≡◌, inl, inr, refl, sym, true, List, ◌∷◌, Option, some, get_elem?, All-imp, All-get_elem?, ok,
  arith, Bool-cases, >>=-eq-ok, not, ◌∙◌, throw_if, snapshot_mismatch, ok-injective,
}
use mathlib.Core.Path.{subst}
use fast_vector.SearchContext.{SearchContext}
use fast_vector.VectorIndex.{VectorIndex}
use fast_vector.VectorStore.{ServingSnapshot, Ownership, search, Encounter}
use fast_vector.VectorStore.Publication.{prepared_from, search-ownership}
use fast_vector.SnapshotPublication.Manifest.{
  SnapshotManifest, Libraries, snapshot_identity, is_preparing, after_rejection,
}
use fast_vector.SnapshotPublication.{
  SnapshotPublication, Loaders, begin, begun, start_completion, prepare_candidate,
  finish_completion, fail, reject, load_verified_snapshot, is_running,
}
use fast_vector.SnapshotPublication.Trace.{Ticket, Loaded, System}
use fast_vector.SnapshotPublication.Invariant.{IsVerified, Succeeds, begin-eq-ok}
use fast_vector.SnapshotPublication.Slots.{
  Shares, Valid, FitsTicket-issued, FitsLoaded-issued, Slot-shares, keep, untouched, keep_slot,
  Slot-preparing, Slot-rejected, preparing_after,
}

module _ (index_type : VectorIndex) (l : Libraries) (loaders : Loaders index_type) (name : String)
    (limit : ℕ) where
  pub begin-IsValid :
      (first c : ServingSnapshot index_type) (y : System index_type) (m : SnapshotManifest)
      (generation now : ℕ) {q : SnapshotPublication index_type} {token : ℕ}
      → Valid index_type l loaders name limit first c y
      → begin index_type l y.publication m generation now ≡ ok (q, token)
      → Valid index_type l loaders name limit first c (record y { publication = q })
  unfolding begun
  begin-IsValid first c y m generation now {q} {token} v h =
      let (same, issued, idle, newer, highest, checked) =
        begin-eq-ok index_type l loaders name limit y.publication q c m generation now token v.owned
          h in
      subst
        (λ (r : SnapshotPublication index_type).
          Valid index_type l loaders name limit first c (record y { publication = r }))
        (sym same)
        (record {
          enabled = v.enabled;
          same_name = v.same_name;
          same_limit = v.same_limit;
          owned = v.owned;
          managed = v.managed;
          fits = v.fits;
          served = omega arith;
          known = v.known;
          slot = (record { newer = newer; highest = refl }, refl);
          tickets =
              All-imp _ _ y.in_flight
                (λ t.
                  FitsTicket-issued index_type l loaders name limit y.publication
                    (begun index_type y.publication m generation now) t refl)
                v.tickets;
          loads =
              All-imp _ _ y.loaded
                (λ d.
                  FitsLoaded-issued index_type l loaders name limit y.publication
                    (begun index_type y.publication m generation now) c d refl)
                v.loads;
        })

  pub reject-IsValid :
      (first c : ServingSnapshot index_type) (y : System index_type) (m : SnapshotManifest)
      (generation : ℕ)
      → Valid index_type l loaders name limit first c y
      → Valid index_type l loaders name limit first c
          (record y { publication = reject index_type y.publication m generation })
  unfolding reject
  reject-IsValid first c y m generation v =
      let p = y.publication in
      let q = reject index_type p m generation in
      let s : Shares index_type l loaders name limit p q =
        untouched index_type l loaders name limit p q refl refl refl refl refl refl refl in
      keep index_type l loaders name limit first c y q v s
        (λ h. sym (preparing_after index_type l loaders name limit p.status.state) ∙ h)
        (Slot-shares index_type l loaders name limit p q s c (after_rejection p.status.state)
          p.candidate refl
          (Slot-rejected index_type l loaders name limit c p p.status.state p.candidate v.slot))

  pub fail-IsValid :
      (first c : ServingSnapshot index_type) (y : System index_type) (token now : ℕ)
      → Valid index_type l loaders name limit first c y
      → Valid index_type l loaders name limit first c
          (record y { publication = fail index_type y.publication token now })
  unfolding fail
  fail-IsValid first c y token now v =
      let p = y.publication in
      elim (Bool-cases (is_running index_type p token)) [
        | inl e ↦ rw e (
            keep index_type l loaders name limit first c y _ v
              (untouched index_type l loaders name limit p _ refl refl refl refl refl refl refl)
              (λ h. cc) tt)
        | inr e ↦ rw e v
      ]

  pub start-IsValid :
      (first c : ServingSnapshot index_type) (y : System index_type) (token : ℕ)
      {m : SnapshotManifest} {generation : ℕ}
      → Valid index_type l loaders name limit first c y
      → start_completion index_type y.publication token ≡ ok (m, generation)
      → Valid index_type l loaders name limit first c (record y {
        in_flight = record { token = token; manifest = m; generation = generation } ∷ y.in_flight;
      })
  unfolding start_completion
  start-IsValid first c y token v h = record {
    enabled = v.enabled;
    same_name = v.same_name;
    same_limit = v.same_limit;
    owned = v.owned;
    managed = v.managed;
    fits = v.fits;
    served = v.served;
    known = v.known;
    slot = v.slot;
    tickets = (
      record {
        issued = ground arith;
        same_manifest = λ e. ground arith;
        same_generation = λ e. ground arith;
      },
      v.tickets,
    );
    loads = v.loads;
  }

  pub search_kept :
      (first c : ServingSnapshot index_type) (y : System index_type) (query : List ℕ) (k : ℕ)
      (ctx : SearchContext) (e : Encounter)
      → Valid index_type l loaders name limit first c y
      → Valid index_type l loaders name limit first c (record y {
        publication = record (y.publication) {
          store = (search index_type y.publication.store query k ctx e).0;
        };
      })
  search_kept first c y query k ctx e v =
      keep_slot index_type l loaders name limit first c y _ v
        (untouched index_type l loaders name limit y.publication _
          (search-ownership index_type y.publication.store query k ctx e) refl refl refl refl refl
          refl)
        refl refl refl

  pub candidate-prepared :
      (c : ServingSnapshot index_type) (p : SnapshotPublication index_type) (file : Option (List ℕ))
      (m : SnapshotManifest) (generation : ℕ) {n : ServingSnapshot index_type}
      → p.store.ownership ≡ Ownership.serving c
      → p.index_name ≡ name
      → p.config.maximum_file_bytes ≡ limit
      → prepare_candidate index_type l loaders p file m generation ≡ ok n
      → IsVerified index_type l loaders name limit n
        × (n.identity ≡ snapshot_identity m generation)
        × Succeeds index_type l loaders name limit c n
  unfolding prepare_candidate
  candidate-prepared c p file m generation {n} owned a b h =
      let (index, loaded, prepared) =
        >>=-eq-ok
          (load_verified_snapshot index_type l loaders file m p.index_name
            p.config.maximum_file_bytes)
          _ h in
      let (same, room, newer, named) =
        prepared_from index_type p.store index (snapshot_identity m generation) c owned prepared in
      (
        (file, m, generation, rw (← a, ← b, same) loaded, rw same),
        rw same,
        record {
          next_version = rw same;
          room = room;
          newer = rw same newer;
          has_id = rw same named;
        },
      )

  pub load-IsValid :
      (first c : ServingSnapshot index_type) (y : System index_type) (i : ℕ) (t : Ticket index_type)
      (file : Option (List ℕ)) {n : ServingSnapshot index_type}
      → Valid index_type l loaders name limit first c y
      → get_elem? y.in_flight i ≡ some t
      → prepare_candidate index_type l loaders y.publication file t.manifest t.generation ≡ ok n
      → Valid index_type l loaders name limit first c
          (record y { loaded = record { ticket = t; snapshot = n } ∷ y.loaded })
  load-IsValid first c y i t file {n} v e h =
      let (verified, named, succeeds) =
        candidate-prepared c y.publication file t.manifest t.generation v.owned v.same_name
          v.same_limit h in
      record {
        enabled = v.enabled;
        same_name = v.same_name;
        same_limit = v.same_limit;
        owned = v.owned;
        managed = v.managed;
        fits = v.fits;
        served = v.served;
        known = v.known;
        slot = v.slot;
        tickets = v.tickets;
        loads = (
          record {
            ticket = All-get_elem? _ y.in_flight i v.tickets e;
            verified = verified;
            named = named;
            succeeds = λ a b. succeeds;
          },
          v.loads,
        );
      }

  pub finish-IsValid :
      (first c : ServingSnapshot index_type) (y : System index_type) (i : ℕ) (d : Loaded index_type)
      (now : ℕ) {q : SnapshotPublication index_type}
      → Valid index_type l loaders name limit first c y
      → get_elem? y.loaded i ≡ some d
      → finish_completion index_type y.publication d.ticket.token d.ticket.manifest
          d.ticket.generation d.snapshot now
        ≡ ok q
      → Valid index_type l loaders name limit first c (record y { publication = q })
  unfolding finish_completion
  finish-IsValid first c y i d now {q} v e h =
      let p = y.publication in
      let (u, running, done) =
        >>=-eq-ok (throw_if (not (is_running index_type p d.ticket.token)) snapshot_mismatch) _ h in
      let current : d.ticket.token ≡ p.token = ground arith in
      let busy : is_preparing p.status.state ≡ true = ground arith in
      let f = All-get_elem? _ y.loaded i v.loads e in
      let (ahead, announced) =
        Slot-preparing index_type l loaders name limit c p p.status.state p.candidate busy v.slot in
      let named : d.snapshot.identity ≡ snapshot_identity p.manifest p.generation =
        cc (f.named, f.ticket.same_manifest current, f.ticket.same_generation current) in
      subst
        (λ (r : SnapshotPublication index_type).
          Valid index_type l loaders name limit first c (record y { publication = r }))
        (ok-injective done)
        (keep index_type l loaders name limit first c y _ v
          (untouched index_type l loaders name limit p _ refl refl refl refl refl refl refl)
          (λ z. cc)
          (record {
            ahead = record { newer = ahead.newer; highest = ahead.highest };
            succeeds = f.succeeds current busy;
            named = named;
            verified = f.verified;
            announced = cc (announced, named);
          }))
