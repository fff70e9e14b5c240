-- ===== src/Prelude/Results.antt =====
-- Errors as values. Each `throw` of the program is a constructor of `Error`.
use mathlib.Core.Path.{◌≡◌, refl}
use mathlib.Core.Bool.{Bool, true, false}
use mathlib.Core.Logic.{◌⊎◌, inl, inr, ◌≢◌}

-- include/fast_vector/search_context.h: SearchStopReason.
pub data StopReason : Type 0 where
  not_stopped cancelled deadline_exceeded shut_down : StopReason

pub data Error : Type 0 where
  -- std::invalid_argument
  zero_dimension dimension_mismatch duplicate_id empty_vector non_finite_value zero_vector : Error
  avx2_unavailable length_mismatch zero_check_interval : Error
  missing_index zero_batch_size invalid_identity identity_needs_read_only : Error
  duplicate_in_batch invalid_cancellation : Error
  too_few_connections too_many_connections small_ef_construction zero_ef_search : Error
  zero_thread_count batch_shape_overflow batch_shape_mismatch : Error
  -- std::bad_alloc
  allocation_failed : Error
  -- std::length_error
  version_exhausted batch_too_large node_capacity_exceeded storage_exceeded : Error
  -- std::logic_error, ReadOnlyStoreError, SnapshotMismatchError
  needs_read_only read_only_store snapshot_mismatch : Error
  -- std::runtime_error of the two index formats
  cannot_open write_failed truncated magic_mismatch version_mismatch header_size_mismatch : Error
  endian_mismatch flags_mismatch stored_dimension_zero size_overflow platform_limit : Error
  payload_size_mismatch file_size_mismatch stored_duplicate_id stored_non_finite : Error
  not_normalized checksum_mismatch : Error
  -- Of the HNSW format, and of its publication.
  reserved_not_zero invalid_header payload_too_small invalid_entry_point not_representable : Error
  level_exceeds_maximum degree_exceeds_limit list_exceeds_payload neighbor_out_of_range : Error
  self_loop duplicate_neighbor maximum_level_mismatch absent_neighbor invalid_live_count : Error
  invalid_flag invalid_random_state not_a_file_name verification_failed system_error : Error
  -- Of the publication service.
  publication_disabled publication_busy invalid_publication unmanaged_startup : Error
  invalid_manifest token_exhausted file_unavailable digest_failed content_mismatch : Error
  format_version_mismatch shape_mismatch manifest_too_large invalid_manifest_json : Error
  -- SearchInterrupted
  interrupted : StopReason → Error
  -- Not of the program: a bounded loop of the model was cut off.
  out_of_fuel : Error

pub data Result {ℓ} (T : Type ℓ) : Type ℓ where
  err : Error → Result T
  ok : T → Result T

infixl 5 ◌>>=◌ ◌>>◌
-- What follows a call, which a thrown error skips.
abbrev pub ◌>>=◌ {ℓ κ} : {S : Type ℓ} {T : Type κ} → Result S → (S → Result T) → Result T
err e >>= next = err e
ok x >>= next = next x

abbrev pub ◌>>◌ {ℓ} : {T : Type ℓ} → Result (Unit {0}) → Result T → Result T
guard >> last = guard >>= λ done. last

-- `if (bad) throw e;`
abbrev pub throw_if : Bool → Error → Result (Unit {0})
throw_if true e = err e
throw_if false e = ok tt

-- A successful chain, taken apart.
pub >>=-eq-ok {ℓ κ} :
    {S : Type ℓ} {T : Type κ} (r : Result S) (next : S → Result T) {y : T}
    → (r >>= next) ≡ ok y
    → (x : S) × (r ≡ ok x) × (next x ≡ ok y)
>>=-eq-ok (err e) next h = cc
>>=-eq-ok (ok x) next h = (x, refl, h)

pub throw_if-eq-ok : (b : Bool) (e : Error) {u : Unit {0}} → throw_if b e ≡ ok u → b ≡ false
throw_if-eq-ok true e h = cc
throw_if-eq-ok false e h = refl

pub Result-cases {ℓ} :
    {A : Type ℓ} (r : Result A) → ((a : A) × (r ≡ ok a)) ⊎ ((e : Error) × (r ≡ err e))
Result-cases (ok a) = inl (a, refl)
Result-cases (err e) = inr (e, refl)

pub ok-injective {ℓ} : {A : Type ℓ} {a b : A} → ok a ≡ ok b → a ≡ b
ok-injective h = cc

-- No loop was cut off.
abbrev pub Ends {ℓ} : {A : Type ℓ} → Result A → Type ℓ
Ends r = r ≢ err out_of_fuel

pub >>=-Ends {ℓ κ} :
    {S : Type ℓ} {T : Type κ} (r : Result S) (next : S → Result T)
    → Ends r
    → ((x : S) → r ≡ ok x → Ends (next x))
    → Ends (r >>= next)
>>=-Ends (err e) next h k p = h (cc)
>>=-Ends (ok x) next h k p = k x refl p

pub throw_if-Ends : (b : Bool) (e : Error) → e ≢ out_of_fuel → Ends (throw_if b e)
throw_if-Ends true e h p = h (cc)
throw_if-Ends false e h p = cc
