-- ===== src/SnapshotPublication/Verified.antt =====
-- What load_verified_snapshot and validate_manifest have checked of what they accept.
use Prim.Native.String.{String, len, ◌++◌ as str_append}
use text.Mathlib.Text.{◌==◌ as str_eq}
use text.Mathlib.TextEquality.{eq_iff}
use fast_vector.Prelude.{
  ℕ, ◌≤◌, ◌≡◌, refl, true, not, ◌||◌, List, [], ◌∷◌, Option, none, some, length, take, drop, Result,
  ok, >>=-eq-ok, throw_if, throw_if-eq-ok, Option-cases, arith, inl, inr, ◌==◌, if◌then◌else◌,
  content_mismatch, shape_mismatch,
}
use fast_vector.Bytes.{accumulate}
use fast_vector.FlatIndexIo.{list_eq}
use fast_vector.VectorIndex.{VectorIndex}
use fast_vector.SnapshotPublication.Manifest.{
  SnapshotManifest, Libraries, validate_manifest, sha256_file, codes, hex_text, all_lower_hex,
}
use fast_vector.SnapshotPublication.{Loaders, check_content, load_verified_snapshot}

list_eq-eq : (xs ys : List ℕ) → list_eq xs ys ≡ true → xs ≡ ys
list_eq-eq [] [] h = refl
list_eq-eq [] (y ∷ ys) h = cc
list_eq-eq (x ∷ xs) [] h = cc
list_eq-eq (x ∷ xs) (y ∷ ys) h = ground (arith, list_eq-eq xs ys)

-- What an accepted manifest says.
pub record IsAccepted (m : SnapshotManifest) (name : String) (limit : ℕ) : Type 0 where
  pub same_type : m.index_type ≡ name
  pub content_id : m.snapshot_id ≡ str_append "sha256:" m.sha256
  pub digest_size : len m.sha256 ≡ 64
  pub hex : all_lower_hex (codes m.sha256) ≡ true
  pub holds_header : 56 ≤ m.file_size
  pub within : m.file_size ≤ limit
  pub has_dimension : 1 ≤ m.dimension

validate_manifest-eq-ok :
    (l : Libraries) (m : SnapshotManifest) (name : String) (limit : ℕ)
    → validate_manifest l m name limit ≡ ok tt
    → IsAccepted m name limit
unfolding validate_manifest
validate_manifest-eq-ok l m name limit h =
    let sound = throw_if-eq-ok _ _ h in
    record {
      same_type = (eq_iff m.index_type name).0 (ground arith);
      content_id = (eq_iff m.snapshot_id (str_append "sha256:" m.sha256)).0 (ground arith);
      digest_size = ground arith;
      hex = ground arith;
      holds_header = ground arith;
      within = ground arith;
      has_dimension = ground arith;
    }

sha256_file-eq-ok :
    (l : Libraries) (file : List ℕ) {text : List ℕ}
    → sha256_file l file ≡ ok text
    → (digest : List ℕ) × (l.sha256 file ≡ some digest) × (text ≡ hex_text digest)
unfolding sha256_file
sha256_file-eq-ok l file h = elim (Option-cases (l.sha256 file)) [
  | inl e ↦ absurd (cc)
  | inr (digest, e) ↦ (digest, e, cc)
]

module _ (index_type : VectorIndex) (l : Libraries) (loaders : Loaders index_type) where
  open index_type use {Index, dimension, size}

  -- The loader that the name of the index type chooses.
  abbrev pub loader : String → List ℕ → Result Index
  loader name file =
      if str_eq name "flat" then loaders.load_flat_index file else loaders.load_hnsw_index file

  check_content-eq-ok :
      (file : List ℕ) (m : SnapshotManifest)
      → check_content index_type l file m ≡ ok tt
      → (length file ≡ m.file_size)
        × (accumulate 0 0 (take 4 (drop 8 file)) ≡ m.format_version)
        × ((digest : List ℕ) × (l.sha256 file ≡ some digest) × (hex_text digest ≡ codes m.sha256))
  unfolding check_content
  check_content-eq-ok file m h =
      let (u, sized, rest) =
        >>=-eq-ok (throw_if (not (length file == m.file_size)) content_mismatch) _ h in
      let (text, hashed, rest₂) = >>=-eq-ok (sha256_file l file) _ rest in
      let (digest, known, shown) = sha256_file-eq-ok l file hashed in
      let (w, same, versioned) =
        >>=-eq-ok (throw_if (not (list_eq text (codes m.sha256))) content_mismatch) _ rest₂ in
      let equal = list_eq-eq text (codes m.sha256) (ground arith) in
      (ground arith, ground arith, (digest, known, cc))

  -- An index that load_verified_snapshot accepts was read from a file whose size, format version
  -- and SHA-256 digest in hexadecimal are those of the manifest, by the loader of its type, with
  -- the dimension and the number of vectors of the manifest; the manifest is of the asked index
  -- type and within the size limit, and its ID is that digest.
  pub load_verified_snapshot-eq-ok :
      (file : Option (List ℕ)) (m : SnapshotManifest) (name : String) (limit : ℕ) {i : Index}
      → load_verified_snapshot index_type l loaders file m name limit ≡ ok i
      → (bytes : List ℕ) × (file ≡ some bytes)
        × IsAccepted m name limit
        × (length bytes ≡ m.file_size)
        × (accumulate 0 0 (take 4 (drop 8 bytes)) ≡ m.format_version)
        × ((digest : List ℕ) × (l.sha256 bytes ≡ some digest) × (hex_text digest ≡ codes m.sha256))
        × (loader name bytes ≡ ok i)
        × (dimension i ≡ m.dimension)
        × (size i ≡ m.vector_count)
  unfolding load_verified_snapshot
  load_verified_snapshot-eq-ok none m name limit h =
      let (u, valid, rest) = >>=-eq-ok (validate_manifest l m name limit) _ h in absurd (cc)
  load_verified_snapshot-eq-ok (some bytes) m name limit {i} h =
      let (u, valid, rest) = >>=-eq-ok (validate_manifest l m name limit) _ h in
      let (w, checked, rest₂) = >>=-eq-ok (check_content index_type l bytes m) _ rest in
      let (index, loaded, rest₃) = >>=-eq-ok (loader name bytes) _ rest₂ in
      let (x, shape, done) =
        >>=-eq-ok
          (throw_if (not (dimension index == m.dimension) || not (size index == m.vector_count))
            shape_mismatch)
          _ rest₃ in
      let same : index ≡ i = cc in
      let fits = throw_if-eq-ok _ _ shape in
      let shaped : dimension index ≡ m.dimension = ground arith in
      let counted : size index ≡ m.vector_count = ground arith in
      let (sized, versioned, hashed) = check_content-eq-ok bytes m checked in
      (
        bytes,
        refl,
        validate_manifest-eq-ok l m name limit valid,
        sized,
        versioned,
        hashed,
        rw (← same) loaded,
        rw (← same) shaped,
        rw (← same) counted,
      )
