-- ===== src/SnapshotPublication/Tokens.antt =====
-- Tokens: each begin issues a new one, and calls with an older one do nothing.
use Prim.Native.String.{String}
use fast_vector.Prelude.{
  ℕ, ◌+◌, ◌≤◌, ◌<◌, ◌≡◌, inl, inr, refl, Option, none, some, ok, arith, Bool-cases, err,
  Result-cases, not, snapshot_mismatch,
}
use fast_vector.VectorIndex.{VectorIndex}
use fast_vector.VectorStore.{ServingSnapshot, activate_snapshot, serving_snapshot}
use fast_vector.SnapshotPublication.Manifest.{SnapshotManifest, Libraries}
use fast_vector.SnapshotPublication.{
  SnapshotPublication, Loaders, begin, begun, start_completion, finish_completion, fail, reject,
}
use fast_vector.SnapshotPublication.Activate.{
  activate, refused, already, swap_in, try_candidate, activate_managed,
}
use fast_vector.SnapshotPublication.Trace.{
  System, Step, Reach, begins, starts, loads, finishes, fails, rejects, activates, queries,
  replaces, here, next,
}

module _ (index_type : VectorIndex) (l : Libraries) (loaders : Loaders index_type) where
  begin-token :
      (p : SnapshotPublication index_type) (m : SnapshotManifest) (generation now : ℕ)
      {q : SnapshotPublication index_type} {token : ℕ}
      → begin index_type l p m generation now ≡ ok (q, token)
      → (q.token ≡ p.token + 1) × (token ≡ q.token)
  unfolding begin begun
  begin-token p m generation now h = (ground arith, ground arith)

  swap_in-token :
      (p : SnapshotPublication index_type) (n : ServingSnapshot index_type) (took : ℕ)
      → (swap_in index_type p n took).0.token ≡ p.token
  unfolding swap_in
  swap_in-token p n took = elim (Result-cases (activate_snapshot index_type p.store (some n))) [
    | inl (s, e) ↦ rw (e, swap_in)
    | inr (x, e) ↦ rw (e, swap_in)
  ]

  try_candidate-token :
      (p : SnapshotPublication index_type) (o : Option (ServingSnapshot index_type))
      (snapshot_id : String) (generation took : ℕ)
      → (try_candidate index_type p o snapshot_id generation took).0.token ≡ p.token
  unfolding try_candidate refused
  try_candidate-token p none snapshot_id generation took = refl
  try_candidate-token p (some n) snapshot_id generation took =
      ground (arith, swap_in-token p n took)

  managed-token :
      (p : SnapshotPublication index_type) (c : ServingSnapshot index_type) (snapshot_id : String)
      (generation took : ℕ)
      → (activate_managed index_type p c snapshot_id generation took).0.token ≡ p.token
  unfolding activate_managed refused already
  managed-token p c snapshot_id generation took =
      ground (arith, try_candidate-token p p.candidate snapshot_id generation took)

  activate-token :
      (p : SnapshotPublication index_type) (snapshot_id : String) (generation took : ℕ)
      → (activate index_type p snapshot_id generation took).0.token ≡ p.token
  unfolding activate
  activate-token p snapshot_id generation took = elim (Bool-cases (not p.config.enabled)) [
    | inl off ↦ ground arith
    | inr on ↦ elim (Result-cases (serving_snapshot index_type p.store)) [
      | inl (c, e) ↦ rw (on, e, activate) (managed-token p c snapshot_id generation took)
      | inr (x, e) ↦ ground arith
    ]
  ]

  Step-token :
      (y z : System index_type)
      → Step index_type l loaders y z
      → y.publication.token ≤ z.publication.token
  unfolding begin finish_completion begun fail reject
  Step-token y z (begins m generation now h e) =
      rw e (omega (arith, begin-token y.publication m generation now h))
  Step-token y z (starts token h e) = rw e (omega arith)
  Step-token y z (loads i t file g h e) = rw e (omega arith)
  Step-token y z (finishes i d now g h e) = rw e (ground arith)
  Step-token y z (fails token now e) = rw e (ground arith)
  Step-token y z (rejects m generation e) = rw e (omega arith)
  Step-token y z (activates snapshot_id generation took e) =
      rw e (omega (arith, activate-token y.publication snapshot_id generation took))
  Step-token y z (queries query k ctx enc e) = rw e (omega arith)
  Step-token y z (replaces i h e) = rw e (omega arith)

  Reach-token :
      (y z : System index_type)
      → Reach index_type l loaders y z
      → y.publication.token ≤ z.publication.token
  Reach-token y z here = omega arith
  Reach-token y z (next {z = w} r st) = omega (arith, Reach-token y w r, Step-token w z st)

  -- Once a second preparation has begun, after whatever followed the first, its token is greater,
  -- and from then on, whatever happens, a completion with the token of the first is refused at its
  -- start and at its end, and a failure report with it changes nothing. The second may be a retry
  -- with the same manifest and generation.
  pub superseded :
      (x y z : System index_type) (first second m : SnapshotManifest)
      (first_generation first_time second_generation second_time generation now : ℕ)
      (n : ServingSnapshot index_type) {p q : SnapshotPublication index_type} {token newer : ℕ}
      → begin index_type l x.publication first first_generation first_time ≡ ok (p, token)
      → Reach index_type l loaders (record x { publication = p }) y
      → begin index_type l y.publication second second_generation second_time ≡ ok (q, newer)
      → Reach index_type l loaders (record y { publication = q }) z
      → (token < newer)
        × (start_completion index_type z.publication token ≡ err snapshot_mismatch)
        × (finish_completion index_type z.publication token m generation n now
            ≡ err snapshot_mismatch)
        × (fail index_type z.publication token now ≡ z.publication)
  unfolding start_completion finish_completion fail
  superseded x y z first second m first_generation first_time second_generation second_time
        generation now n {p} {q} {token} {newer} h r k s =
      let issued = begin-token x.publication first first_generation first_time h in
      let reissued = begin-token y.publication second second_generation second_time k in
      let kept = Reach-token (record x { publication = p }) y r in
      let after = Reach-token (record y { publication = q }) z s in
      let older : token < newer = omega (arith, issued, reissued, kept) in
      let old : token < z.publication.token = omega (arith, older, reissued, after) in
      (older, ground (arith, old), ground (arith, old), ground (arith, old))
