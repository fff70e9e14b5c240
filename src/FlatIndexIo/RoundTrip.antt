-- ===== src/FlatIndexIo/RoundTrip.antt =====
-- Loading what was saved (src/flat_index_io.cpp), and the size of the payload.
use mathlib.Core.List.{append-nil}
use fast_vector.Prelude.{
  ℕ, zero, suc, ◌+◌, ◌*◌, ◌/◌, ◌%◌, ◌^◌, ◌<◌, ◌≡◌, ◌∙◌, sym, ap, false, not, List, [], ◌∷◌, ◌++◌,
  some, length, ◌==◌, ok, >>=-eq-ok, throw_if, arith, All, length-append, inl, inr, ok-injective,
  ==-refl, no_ids,
}
use fast_vector.Distance.{Machine}
use fast_vector.Bytes.{
  write_little_endian, checked_multiply, checked_add, to_size_t, fnv_offset, checksum_little_endian,
  update_checksum,
}
use fast_vector.Bytes.Codec.{checked_multiply_exact, checked_add_exact}
use fast_vector.FlatIndex
use fast_vector.FlatIndex.{FlatIndex}
use fast_vector.FlatIndex.Invariant.{IsValid}
use fast_vector.FlatIndexIo.{
  Disk, save, load, write_header, write_values, checksum_values, payload_size, validate_header,
  read_ids, read_rows, read_header,
}
use fast_vector.FlatIndexIo.Saved.{
  read-write_header, read-write_ids, read-write_rows, length-write_values, MapsOf, MapsOf-unique,
  IsStorable, Normed,
}

multiply-eq-ok :
    (a b : ℕ) {r : ℕ}
    → a < 2 ^ 64
    → b < 2 ^ 64
    → checked_multiply a b ≡ ok r
    → (r ≡ a * b) × (a * b < 2 ^ 64)
multiply-eq-ok a b ha hb h = elim (checked_multiply_exact a b ha hb) [
  | inl (fits, e) ↦ (sym (ok-injective (sym e ∙ h)), fits)
  | inr (big, e) ↦ cc (sym e ∙ h)
]

add-eq-ok :
    (a b : ℕ) {r : ℕ}
    → a < 2 ^ 64
    → b < 2 ^ 64
    → checked_add a b ≡ ok r
    → (r ≡ a + b) × (a + b < 2 ^ 64)
add-eq-ok a b ha hb h = elim (checked_add_exact a b ha hb) [
  | inl (fits, e) ↦ (sym (ok-injective (sym e ∙ h)), fits)
  | inr (big, e) ↦ cc (sym e ∙ h)
]

-- An accepted payload size is the exact number of bytes of the IDs and the vectors, below 2 ^ 64,
-- and the number of elements fits too. Count and dimension are 64-bit numbers.
pub payload_size-eq-ok :
    (count dimension : ℕ) {p : ℕ}
    → count < 2 ^ 64
    → dimension < 2 ^ 64
    → payload_size count dimension ≡ ok p
    → (p ≡ count * 8 + count * dimension * 4)
      × (p < 2 ^ 64)
      × (checked_multiply count dimension ≡ ok (count * dimension))
      × (count * dimension < 2 ^ 64)
unfolding payload_size
payload_size-eq-ok count dimension hc hd h =
    let (ids, e₁, h₁) = >>=-eq-ok (checked_multiply count 8) _ h in
    let (elements, e₂, h₂) = >>=-eq-ok (checked_multiply count dimension) _ h₁ in
    let (vectors, e₃, h₃) = >>=-eq-ok (checked_multiply elements 4) _ h₂ in
    let (i, li) = multiply-eq-ok count 8 hc (omega arith) e₁ in
    let (n, ln) = multiply-eq-ok count dimension hc hd e₂ in
    let (v, lv) = multiply-eq-ok elements 4 (omega arith) (omega arith) e₃ in
    let (p, lp) = add-eq-ok ids vectors (omega arith) (omega arith) h₃ in
    (omega arith, omega arith, e₂ ∙ ap ok n, ln)

checksum_little_endian-lt : (width c v : ℕ) → c < 2 ^ 64 → checksum_little_endian width c v < 2 ^ 64
unfolding checksum_little_endian
checksum_little_endian-lt zero c v h = h
checksum_little_endian-lt (suc width) c v h =
    checksum_little_endian-lt width (update_checksum c (v % 256)) (v / 256)
      (unfold update_checksum in omega arith)

checksum_values-lt : (width c : ℕ) (vs : List ℕ) → c < 2 ^ 64 → checksum_values width c vs < 2 ^ 64
unfolding checksum_values
checksum_values-lt width c [] h = h
checksum_values-lt width c (v ∷ vs) h =
    checksum_values-lt width (checksum_little_endian width c v) vs
      (checksum_little_endian-lt width c v h)

length-write_header :
    (d c p k : ℕ) (rest : List ℕ) → length (write_header d c p k rest) ≡ 56 + length rest
unfolding write_header write_little_endian
length-write_header d c p k rest = omega arith

abbrev file_checksum : FlatIndex → ℕ
file_checksum index = checksum_values 4 (checksum_values 8 fnv_offset index.ids) index.vectors

abbrev file_payload : FlatIndex → List ℕ
file_payload index = write_values 8 index.ids ++ write_values 4 index.vectors

-- What is in a file that was written without an error.
save-eq-ok :
    (disk : Disk) (index : FlatIndex) {file : List ℕ}
    → save disk index ≡ ok file
    → (p : ℕ) × (payload_size (length index.ids % 2 ^ 64) index.dimension ≡ ok p)
      × (file
          ≡ write_header index.dimension
              (length index.ids % 2 ^ 64)
              p
              (file_checksum index)
              (file_payload index))
unfolding save
save-eq-ok disk index h =
    let (p, e, h₁) = >>=-eq-ok (payload_size (length index.ids % 2 ^ 64) index.dimension) _ h in
    let (u, e₁, h₂) = >>=-eq-ok (throw_if (not disk.opens) _) _ h₁ in
    let (u₂, e₂, h₃) = >>=-eq-ok (throw_if (not disk.writes) _) _ h₂ in
    let (u₃, e₃, h₄) = >>=-eq-ok (throw_if (not disk.flushes) _) _ h₃ in
    (p, e, sym (ok-injective h₄))

to_size_t-fits : (x : ℕ) → x < 2 ^ 64 → to_size_t x ≡ ok x
unfolding to_size_t
to_size_t-fits x h = ground arith

positive_nonzero : (d : ℕ) → 0 < d → (d == 0) ≡ false
positive_nonzero d pos = ground arith

validated :
    (d n p file_bytes : ℕ) (k : ℕ)
    → 0 < d
    → d < 2 ^ 64
    → n < 2 ^ 64
    → payload_size n d ≡ ok p
    → p ≡ n * 8 + n * d * 4
    → checked_multiply n d ≡ ok (n * d)
    → n * d < 2 ^ 64
    → file_bytes ≡ 56 + p
    → file_bytes < 2 ^ 64
    → validate_header (record { dimension = d; count = n; payload = p; checksum = k }) file_bytes
      ≡ ok tt
unfolding validate_header
validated d n p file_bytes k pos hd hn sized exact product small e fits = rw (
  positive_nonzero d pos,
  sized,
  ==-refl p,
  file_sum,
  e,
  ==-refl (56 + p),
  to_size_t-fits d hd,
  to_size_t-fits n hn,
  product,
  to_size_t-fits (n * d) small,
)
  where
    file_sum : checked_add 56 p ≡ ok (56 + p)
    file_sum = elim (checked_add_exact 56 p (omega arith) (omega arith)) [
      | inl (small, f) ↦ f
      | inr (big, f) ↦ absurd (omega arith)
    ]

module _ (m : Machine) (disk : Disk) (index : FlatIndex) (file : List ℕ) (v : IsValid index)
    (ids_fit : All (λ id. id < 2 ^ 64) index.ids) (storable : All IsStorable index.vectors)
    (normed : Normed m (length index.ids) index.dimension index.vectors)
    (dimension_fits : index.dimension < 2 ^ 64) (file_fits : length file < 2 ^ 64)
    (saved : save disk index ≡ ok file) where
  ids_checksum_fits : checksum_values 8 fnv_offset index.ids < 2 ^ 64
  ids_checksum_fits = checksum_values-lt 8 fnv_offset index.ids (omega arith)

  checksum_fits : file_checksum index < 2 ^ 64
  checksum_fits =
      checksum_values-lt 4 (checksum_values 8 fnv_offset index.ids) index.vectors ids_checksum_fits

  rows_read :
      read_rows m (length index.ids) index.dimension (record {
        vectors = [];
        checksum = checksum_values 8 fnv_offset index.ids;
        rest = write_values 4 index.vectors;
      })
      ≡ ok (record { vectors = index.vectors; checksum = file_checksum index; rest = [] })
  rows_read = rw append-nil at (
      read-write_rows m (length index.ids) index.dimension index.vectors []
        (checksum_values 8 fnv_offset index.ids) [] v.stored storable normed)

  ids_read :
      read_ids
        (length index.ids)
        0
        (record { ids = []; id_to_row = no_ids; checksum = fnv_offset; rest = file_payload index })
      ≡ ok (record {
        ids = index.ids;
        id_to_row = index.id_to_row;
        checksum = checksum_values 8 fnv_offset index.ids;
        rest = write_values 4 index.vectors;
      })
  ids_read =
      let (rows, e, w) =
        read-write_ids index.ids [] index.id_to_row no_ids fnv_offset (write_values 4 index.vectors)
          ids_fit (λ j r. (v.mapped j r, v.indexed j r)) v₀ in
      rw (MapsOf-unique rows index.id_to_row index.ids w (λ j r. (v.mapped j r, v.indexed j r))) at
        e
    where
      v₀ : MapsOf no_ids []
      v₀ j r = (λ h. cc h, λ h. cc h)

  loaded :
      (p : ℕ)
      → payload_size (length index.ids) index.dimension ≡ ok p
      → file
        ≡ write_header index.dimension
            (length index.ids)
            p
            (file_checksum index)
            (file_payload index)
      → length index.ids < 2 ^ 64
      → length file ≡ 56 + (length index.ids * 8 + length index.vectors * 4)
      → load m (some file) index.kernel ≡ ok index
  unfolding load FlatIndex.create
  loaded p sized bytes n_fits total =
      let (exact, p_fits, product, small) =
        payload_size-eq-ok (length index.ids) index.dimension n_fits dimension_fits sized in
      let header =
        read-write_header index.dimension (length index.ids) p (file_checksum index)
          (file_payload index) dimension_fits n_fits p_fits checksum_fits in
      let passes =
        validated index.dimension (length index.ids) p (length file) (file_checksum index)
          v.positive dimension_fits n_fits sized exact product small
          (rw v.stored at total ∙ ap (λ x. 56 + x) (sym exact)) file_fits in
      let nonzero : (index.dimension == 0) ≡ false = positive_nonzero index.dimension v.positive in
      rw (
        ap read_header bytes ∙ header,
        passes,
        ids_read,
        rows_read,
        ==-refl (file_checksum index),
        nonzero,
      )

  -- A valid index that was saved without an error is loaded again exactly: dimension, IDs, vectors
  -- and map. IDs, dimension and file size fit 64 bits, values are finite 32-bit patterns and rows
  -- have the norm 1 within the tolerance.
  pub load-save : load m (some file) index.kernel ≡ ok index
  load-save =
      let (p, sized, bytes) = save-eq-ok disk index saved in
      let total : length file ≡ 56 + length (file_payload index) =
        ap length bytes ∙ length-write_header _ _ _ _ (file_payload index) in
      let payload = length-append (write_values 8 index.ids) (write_values 4 index.vectors) in
      let id_bytes = length-write_values 8 index.ids in
      let vector_bytes = length-write_values 4 index.vectors in
      let n_fits : length index.ids < 2 ^ 64 = omega arith in
      let n_kept : length index.ids % 2 ^ 64 ≡ length index.ids = omega arith in
      loaded p (rw n_kept at sized) (rw n_kept at bytes) n_fits (omega arith)
