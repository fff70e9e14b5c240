-- ===== src/SnapshotPublication/Manifest.antt =====
-- The messages of the publication service, its checks of a manifest, and the digest of a file
-- (src/service/snapshot_publication.cpp).
use Prim.Native.Char.{code}
use Prim.Native.String.{String, len, ◌++◌ as str_append}
use text.Mathlib.Text.{◌==◌ as str_eq}
use fast_vector.Prelude.{
  ℕ, ◌+◌, ◌-◌, ◌/◌, ◌%◌, ◌^◌, Bool, true, false, not, ◌&&◌, ◌||◌, List, [], ◌∷◌, Option, none, some,
  length, take, drop, ltb, leb, ◌==◌, if◌then◌else◌, Result, ok, err, ◌>>◌, throw_if,
  invalid_manifest, file_unavailable, digest_failed, manifest_too_large, invalid_manifest_json,
}
use fast_vector.FlatIndexIo.{list_eq}
use fast_vector.SearchExecutor.{microseconds}
use fast_vector.VectorStore.{SnapshotIdentity, uint64_max}

-- The protobuf messages.
pub record SnapshotManifest : Type 0 where
  pub format_version : ℕ
  pub snapshot_id : String
  pub index_type : String
  pub dimension : ℕ
  pub vector_count : ℕ
  pub file_size : ℕ
  pub sha256 : String
  pub embedding_revision : String

abbrev pub no_manifest : SnapshotManifest
no_manifest = record {
  format_version = 0;
  snapshot_id = "";
  index_type = "";
  dimension = 0;
  vector_count = 0;
  file_size = 0;
  sha256 = "";
  embedding_revision = "";
}

-- The texts of `state`, and those of `last_result`.
pub data PublicationState : Type 0 where
  serving preparing ready_to_activate failed : PublicationState

pub data LastResult : Type 0 where
  no_result preparing ready_to_activate prepare_failed rejected : LastResult
  activation_rejected already_active activated : LastResult

-- A message field that is not set is `none`.
pub record PublicationStatus : Type 0 where
  pub state : PublicationState
  pub current : Option SnapshotIdentity
  pub candidate : Option SnapshotIdentity
  pub highest_generation : ℕ
  pub last_result : LastResult
  pub last_attempt : Option SnapshotIdentity
  pub prepare_us : ℕ
  pub activation_us : ℕ
  pub peak_rss_kib : ℕ
  pub enabled : Bool

pub record PublicationConfig : Type 0 where
  pub enabled : Bool
  pub maximum_file_bytes : ℕ

abbrev pub is_preparing : PublicationState → Bool
is_preparing PublicationState.serving = false
is_preparing PublicationState.preparing = true
is_preparing PublicationState.ready_to_activate = false
is_preparing PublicationState.failed = false

abbrev pub is_ready : PublicationState → Bool
is_ready PublicationState.serving = false
is_ready PublicationState.preparing = false
is_ready PublicationState.ready_to_activate = true
is_ready PublicationState.failed = false

-- The last line of `rejected`.
abbrev pub after_rejection : PublicationState → PublicationState
after_rejection PublicationState.serving = PublicationState.failed
after_rejection PublicationState.preparing = PublicationState.preparing
after_rejection PublicationState.ready_to_activate = PublicationState.ready_to_activate
after_rejection PublicationState.failed = PublicationState.failed

abbrev pub codes : String → List ℕ
codes String.[] = []
codes (String.◌∷◌ c s) = code c ∷ codes s

-- `find_first_not_of("0123456789abcdef") == npos`
unfoldable pub is_lower_hex : ℕ → Bool
is_lower_hex c = (leb b'0' c && leb c b'9') || (leb b'a' c && leb c b'f')

unfoldable pub all_lower_hex : List ℕ → Bool
unfolding is_lower_hex
all_lower_hex [] = true
all_lower_hex (c ∷ cs) = is_lower_hex c && all_lower_hex cs

unfoldable pub canonical_id : String → Bool
unfolding all_lower_hex
canonical_id value =
    len value == 71
    && list_eq (take 7 (codes value)) (codes "sha256:")
    && all_lower_hex (drop 7 (codes value))

-- An untrusted text is kept only if it is an ID.
unfoldable pub kept_id : String → String
unfolding canonical_id
kept_id id = if canonical_id id then id else ""

unfoldable pub elapsed : ℕ → ℕ → ℕ
elapsed start now = microseconds (now - start) % 2 ^ 64

-- The loop over the digest: two digits for each byte.
unfoldable pub hex_digit : ℕ → ℕ
hex_digit n = if ltb n 10 then b'0' + n else b'a' + n - 10

unfoldable pub hex_text : List ℕ → List ℕ
unfolding hex_digit
hex_text [] = []
hex_text (byte ∷ bytes) = hex_digit (byte / 16) ∷ hex_digit (byte % 16) ∷ hex_text bytes

-- What the service calls: protobuf (the size and the bytes of a message, and a message read from
-- JSON) and OpenSSL's SHA-256, which may fail.
pub record Libraries : Type 0 where
  pub byte_size : SnapshotManifest → ℕ
  pub serialize : SnapshotManifest → List ℕ
  pub parse_json : List ℕ → Option SnapshotManifest
  pub sha256 : List ℕ → Option (List ℕ)

unfoldable pub snapshot_identity : SnapshotManifest → ℕ → SnapshotIdentity
snapshot_identity m generation = record {
  snapshot_id = m.snapshot_id;
  generation = generation;
  embedding_revision = m.embedding_revision;
}

-- A file that cannot be read is `none`.
unfoldable pub read_snapshot_manifest : Libraries → Option (List ℕ) → Result SnapshotManifest
read_snapshot_manifest l none = err file_unavailable
read_snapshot_manifest l (some json) = do
  throw_if (ltb 16384 (length json)) manifest_too_large
  elim (l.parse_json json) [ none ↦ err invalid_manifest_json | some m ↦ ok m ]

-- The versions that each index type reads.
unfoldable pub wrong_version : String → ℕ → Bool
wrong_version index_type version =
    if str_eq index_type "flat" then not (version == 1) else ltb version 1 || ltb 3 version

unfoldable pub validate_manifest : Libraries → SnapshotManifest → String → ℕ → Result (Unit {0})
unfolding wrong_version all_lower_hex
validate_manifest l m index_type maximum_bytes =
    throw_if
      (ltb 16384 (l.byte_size m)
        || not (str_eq m.index_type index_type)
        || (not (str_eq index_type "flat") && not (str_eq index_type "hnsw"))
        || m.dimension == 0
        || ltb uint64_max m.dimension
        || ltb uint64_max m.vector_count
        || ltb m.file_size 56
        || ltb maximum_bytes m.file_size
        || not (len m.sha256 == 64)
        || not (str_eq m.snapshot_id (str_append "sha256:" m.sha256))
        || ltb 256 (len m.embedding_revision)
        || not (all_lower_hex (codes m.sha256))
        || wrong_version index_type m.format_version)
      invalid_manifest

unfoldable pub sha256_file : Libraries → List ℕ → Result (List ℕ)
unfolding hex_text
sha256_file l file = elim (l.sha256 file) [
  | none ↦ err digest_failed
  | some bytes ↦ ok (hex_text bytes)
]
