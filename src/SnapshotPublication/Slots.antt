-- ===== src/SnapshotPublication/Slots.antt =====
-- What the steps of the publication slot leave alone, and what each state shows of it.
use Prim.Native.String.{String}
use fast_vector.Prelude.{
  ℕ, ◌+◌, ◌≤◌, ◌≡◌, refl, sym, ap, true, Option, none, some, All-imp, arith, ◌∙◌,
}
use mathlib.Core.Path.{subst}
use fast_vector.VectorIndex.{VectorIndex}
use fast_vector.VectorStore.{ServingSnapshot}
use fast_vector.SnapshotPublication.Manifest.{
  PublicationState, Libraries, snapshot_identity, is_preparing, is_ready, after_rejection,
}
use fast_vector.SnapshotPublication.{SnapshotPublication, Loaders}
use fast_vector.SnapshotPublication.Trace.{Ticket, Loaded, System}
use fast_vector.SnapshotPublication.Invariant.{
  IsAhead, IsCandidate, Slot, FitsTicket, FitsLoaded, IsValid,
}

module _ (index_type : VectorIndex) (l : Libraries) (loaders : Loaders index_type) (name : String)
    (limit : ℕ) where
  abbrev pub Valid :
      ServingSnapshot index_type → ServingSnapshot index_type → System index_type → Type 0
  Valid = IsValid index_type l loaders name limit

  -- Tickets fit a later token too.
  pub FitsTicket-issued :
      (p q : SnapshotPublication index_type) (t : Ticket index_type)
      → p.token + 1 ≡ q.token
      → FitsTicket index_type l loaders name limit p t
      → FitsTicket index_type l loaders name limit q t
  FitsTicket-issued p q t e f = record {
    issued = omega (arith, f.issued);
    same_manifest = λ h. absurd (omega (arith, f.issued));
    same_generation = λ h. absurd (omega (arith, f.issued));
  }

  pub FitsLoaded-issued :
      (p q : SnapshotPublication index_type) (c : ServingSnapshot index_type)
      (d : Loaded index_type)
      → p.token + 1 ≡ q.token
      → FitsLoaded index_type l loaders name limit c p d
      → FitsLoaded index_type l loaders name limit c q d
  FitsLoaded-issued p q c d e f = record {
    ticket = FitsTicket-issued p q d.ticket e f.ticket;
    verified = f.verified;
    named = f.named;
    succeeds = λ h. absurd (omega (arith, f.ticket.issued));
  }

  -- What most steps leave alone.
  pub record Shares (p q : SnapshotPublication index_type) : Type 0 where
    pub same_owner : q.store.ownership ≡ p.store.ownership
    pub same_name : q.index_name ≡ p.index_name
    pub same_config : q.config ≡ p.config
    pub same_token : q.token ≡ p.token
    pub same_manifest : q.manifest ≡ p.manifest
    pub same_generation : q.generation ≡ p.generation
    pub same_highest : q.status.highest_generation ≡ p.status.highest_generation

  module _ (p q : SnapshotPublication index_type) (s : Shares p q) where
    pub FitsTicket-shares :
        (t : Ticket index_type)
        → FitsTicket index_type l loaders name limit p t
        → FitsTicket index_type l loaders name limit q t
    FitsTicket-shares t f = record {
      issued = omega (arith, f.issued, s.same_token);
      same_manifest = λ h. f.same_manifest (h ∙ s.same_token) ∙ sym s.same_manifest;
      same_generation = λ h. f.same_generation (h ∙ s.same_token) ∙ sym s.same_generation;
    }

    pub FitsLoaded-shares :
        (c : ServingSnapshot index_type) (d : Loaded index_type)
        → (is_preparing q.status.state ≡ true → is_preparing p.status.state ≡ true)
        → FitsLoaded index_type l loaders name limit c p d
        → FitsLoaded index_type l loaders name limit c q d
    FitsLoaded-shares c d still f = record {
      ticket = FitsTicket-shares d.ticket f.ticket;
      verified = f.verified;
      named = f.named;
      succeeds = λ h r. f.succeeds (h ∙ s.same_token) (still r);
    }

    pub IsAhead-shares :
        (c : ServingSnapshot index_type)
        → IsAhead index_type l loaders name limit c p
        → IsAhead index_type l loaders name limit c q
    IsAhead-shares c a = record {
      newer = omega (arith, a.newer, s.same_generation);
      highest = s.same_highest ∙ a.highest ∙ sym s.same_generation;
    }

    pub identity_shared :
        snapshot_identity p.manifest p.generation ≡ snapshot_identity q.manifest q.generation
    identity_shared = cc (s.same_manifest, s.same_generation)

    pub Slot-shares :
        (c : ServingSnapshot index_type) (state : PublicationState)
        (o : Option (ServingSnapshot index_type))
        → q.status.candidate ≡ p.status.candidate
        → Slot index_type l loaders name limit c p state o
        → Slot index_type l loaders name limit c q state o
    Slot-shares c PublicationState.serving none e h = tt
    Slot-shares c PublicationState.serving (some n) e h = h
    Slot-shares c PublicationState.preparing none e (a, b) =
        (IsAhead-shares c a, e ∙ b ∙ ap some identity_shared)
    Slot-shares c PublicationState.preparing (some n) e h = h
    Slot-shares c PublicationState.ready_to_activate none e h = h
    Slot-shares c PublicationState.ready_to_activate (some n) e h = record {
      ahead = IsAhead-shares c h.ahead;
      succeeds = h.succeeds;
      named = h.named ∙ identity_shared;
      verified = h.verified;
      announced = e ∙ h.announced;
    }
    Slot-shares c PublicationState.failed none e h = tt
    Slot-shares c PublicationState.failed (some n) e h = h

  pub keep :
      (first c : ServingSnapshot index_type) (y : System index_type)
      (q : SnapshotPublication index_type)
      → Valid first c y
      → Shares y.publication q
      → (is_preparing q.status.state ≡ true → is_preparing y.publication.status.state ≡ true)
      → Slot index_type l loaders name limit c q q.status.state q.candidate
      → Valid first c (record y { publication = q })
  keep first c y q v s still slot = record {
    enabled = ap (λ k. k.enabled) s.same_config ∙ v.enabled;
    same_name = s.same_name ∙ v.same_name;
    same_limit = ap (λ k. k.maximum_file_bytes) s.same_config ∙ v.same_limit;
    owned = s.same_owner ∙ v.owned;
    managed = v.managed;
    fits = v.fits;
    served = omega (arith, v.served, s.same_highest);
    known = v.known;
    slot = slot;
    tickets = All-imp _ _ y.in_flight (FitsTicket-shares y.publication q s) v.tickets;
    loads = All-imp _ _ y.loaded (λ d. FitsLoaded-shares y.publication q s c d still) v.loads;
  }

  -- Every `record p` with other fields shares these.
  pub untouched :
      (p q : SnapshotPublication index_type)
      → q.store.ownership ≡ p.store.ownership
      → q.index_name ≡ p.index_name
      → q.config ≡ p.config
      → q.token ≡ p.token
      → q.manifest ≡ p.manifest
      → q.generation ≡ p.generation
      → q.status.highest_generation ≡ p.status.highest_generation
      → Shares p q
  untouched p q a b c d e f g = record {
    same_owner = a;
    same_name = b;
    same_config = c;
    same_token = d;
    same_manifest = e;
    same_generation = f;
    same_highest = g;
  }

  -- The status changes in what it reports only.
  pub keep_slot :
      (first c : ServingSnapshot index_type) (y : System index_type)
      (q : SnapshotPublication index_type)
      → Valid first c y
      → Shares y.publication q
      → q.status.state ≡ y.publication.status.state
      → q.candidate ≡ y.publication.candidate
      → q.status.candidate ≡ y.publication.status.candidate
      → Valid first c (record y { publication = q })
  keep_slot first c y q v s e f g =
      keep first c y q v s (λ h. sym (ap is_preparing e) ∙ h)
        (subst (λ (st : PublicationState). Slot index_type l loaders name limit c q st q.candidate)
          (sym e)
          (subst
            (λ (o : Option (ServingSnapshot index_type)).
              Slot index_type l loaders name limit c q y.publication.status.state o)
            (sym f)
            (Slot-shares y.publication q s c y.publication.status.state y.publication.candidate g
              v.slot)))

  -- The slot, as each group of states shows it.
  pub Slot-preparing :
      (c : ServingSnapshot index_type) (p : SnapshotPublication index_type)
      (state : PublicationState) (o : Option (ServingSnapshot index_type))
      → is_preparing state ≡ true
      → Slot index_type l loaders name limit c p state o
      → IsAhead index_type l loaders name limit c p
        × (p.status.candidate ≡ some (snapshot_identity p.manifest p.generation))
  Slot-preparing c p PublicationState.serving o e h = cc
  Slot-preparing c p PublicationState.preparing none e h = h
  Slot-preparing c p PublicationState.preparing (some n) e h = absurd h
  Slot-preparing c p PublicationState.ready_to_activate o e h = cc
  Slot-preparing c p PublicationState.failed o e h = cc

  pub Slot-ready :
      (c : ServingSnapshot index_type) (p : SnapshotPublication index_type)
      (state : PublicationState) (o : Option (ServingSnapshot index_type))
      → is_ready state ≡ true
      → Slot index_type l loaders name limit c p state o
      → (n : ServingSnapshot index_type) × (o ≡ some n)
        × IsCandidate index_type l loaders name limit c n p
  Slot-ready c p PublicationState.serving o e h = cc
  Slot-ready c p PublicationState.preparing o e h = cc
  Slot-ready c p PublicationState.ready_to_activate none e h = absurd h
  Slot-ready c p PublicationState.ready_to_activate (some n) e h = (n, refl, h)
  Slot-ready c p PublicationState.failed o e h = cc

  pub Slot-idle :
      (c : ServingSnapshot index_type) (p : SnapshotPublication index_type)
      (state : PublicationState) (o : Option (ServingSnapshot index_type))
      → p.status.highest_generation ≤ c.identity.generation
      → Slot index_type l loaders name limit c p state o
      → o ≡ none
  Slot-idle c p PublicationState.serving none e h = refl
  Slot-idle c p PublicationState.serving (some n) e h = absurd h
  Slot-idle c p PublicationState.preparing none e h = refl
  Slot-idle c p PublicationState.preparing (some n) e h = absurd h
  Slot-idle c p PublicationState.ready_to_activate none e h = refl
  Slot-idle c p PublicationState.ready_to_activate (some n) e h =
      absurd (omega (arith, h.ahead.newer, h.ahead.highest))
  Slot-idle c p PublicationState.failed none e h = refl
  Slot-idle c p PublicationState.failed (some n) e h = absurd h

  pub Slot-rejected :
      (c : ServingSnapshot index_type) (p : SnapshotPublication index_type)
      (state : PublicationState) (o : Option (ServingSnapshot index_type))
      → Slot index_type l loaders name limit c p state o
      → Slot index_type l loaders name limit c p (after_rejection state) o
  Slot-rejected c p PublicationState.serving none h = h
  Slot-rejected c p PublicationState.serving (some n) h = h
  Slot-rejected c p PublicationState.preparing o h = h
  Slot-rejected c p PublicationState.ready_to_activate o h = h
  Slot-rejected c p PublicationState.failed o h = h

  pub preparing_after : (s : PublicationState) → is_preparing (after_rejection s) ≡ is_preparing s
  preparing_after PublicationState.serving = refl
  preparing_after PublicationState.preparing = refl
  preparing_after PublicationState.ready_to_activate = refl
  preparing_after PublicationState.failed = refl
