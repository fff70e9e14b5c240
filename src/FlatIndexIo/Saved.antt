-- ===== src/FlatIndexIo/Saved.antt =====
-- The parts of a saved file, read back one by one.
use mathlib.Core.Path.{fun_ext}
use mathlib.Core.List.{append-nil, append_assoc}
use fast_vector.Prelude.{
  ℕ, zero, suc, ◌+◌, ◌*◌, ◌^◌, ◌<◌, ◌≡◌, ◌∙◌, refl, sym, ap, true, false, List, [], ◌∷◌, ◌++◌, none,
  some, length, take, drop, get_elem?, IdMap, assign, Result, ok, Error, arith, All, length-append,
  length-take, length-drop, take-append-drop, get_elem?-snoc, get_elem?-lt, get_elem?-append,
  Option-cases, inl, inr, some-injective, ==-refl,
}
use fast_vector.Float.{is_finite}
use fast_vector.Distance.{Machine}
use fast_vector.Bytes.{write_little_endian, checksum_little_endian}
use fast_vector.Bytes.Codec.{
  length-write_little_endian, read_exact-append, read-write_little_endian, read_payload_value-write,
}
use fast_vector.FlatIndexIo.{
  magic, write_header, read_header, expect, write_values, checksum_values, read_ids, ReadValues,
  read_row, read_rows, off_norm, format_version, header_size, endian_marker, normalized_cosine_flag,
}

expect-write :
    (value : ℕ) (e : Error) (rest : List ℕ)
    → value < 256 ^ 4
    → expect value e (write_little_endian 4 value ++ rest) ≡ ok rest
unfolding expect
expect-write value e rest h = rw (read-write_little_endian 4 value rest h, ==-refl value)

pub read-write_header :
    (d c p k : ℕ) (rest : List ℕ)
    → d < 2 ^ 64
    → c < 2 ^ 64
    → p < 2 ^ 64
    → k < 2 ^ 64
    → read_header (write_header d c p k rest)
      ≡ ok (record { dimension = d; count = c; payload = p; checksum = k }, rest)
unfolding read_header write_header
read-write_header d c p k rest hd hc hp hk = rw (
  read_exact-append magic _ 8 refl,
  expect-write format_version _ _ (omega arith),
  expect-write header_size _ _ (omega arith),
  expect-write endian_marker _ _ (omega arith),
  expect-write normalized_cosine_flag _ _ (omega arith),
  read-write_little_endian 8 d _ hd,
  read-write_little_endian 8 c _ hc,
  read-write_little_endian 8 p _ hp,
  read-write_little_endian 8 k _ hk,
)

pub write_values-append :
    (width : ℕ) (xs ys : List ℕ)
    → write_values width (xs ++ ys) ≡ write_values width xs ++ write_values width ys
unfolding write_values
write_values-append width [] ys = refl
write_values-append width (x ∷ xs) ys =
    ap (◌++◌ (write_little_endian width x)) (write_values-append width xs ys)
    ∙ sym
        (append_assoc (write_little_endian width x) (write_values width xs) (write_values width ys))

pub length-write_values :
    (width : ℕ) (xs : List ℕ) → length (write_values width xs) ≡ length xs * width
unfolding write_values
length-write_values width [] = omega arith
length-write_values width (x ∷ xs) = omega (
  arith,
  length-append (write_little_endian width x) (write_values width xs),
  length-write_little_endian width x,
  length-write_values width xs,
)

pub checksum_values-append :
    (width c : ℕ) (xs ys : List ℕ)
    → checksum_values width c (xs ++ ys) ≡ checksum_values width (checksum_values width c xs) ys
unfolding checksum_values
checksum_values-append width c [] ys = refl
checksum_values-append width c (x ∷ xs) ys =
    checksum_values-append width (checksum_little_endian width c x) xs ys

-- A map that has the position of each ID of a list, and no other entry.
abbrev pub MapsOf : IdMap → List ℕ → Type 0
MapsOf rows ids =
    (j r : ℕ)
    → (rows j ≡ some r → get_elem? ids r ≡ some j) × (get_elem? ids r ≡ some j → rows j ≡ some r)

pub MapsOf-unique : (m n : IdMap) (ids : List ℕ) → MapsOf m ids → MapsOf n ids → m ≡ n
MapsOf-unique m n ids p q = fun_ext λ j. elim (Option-cases (m j)) [
  | inr (r, e) ↦ e ∙ sym ((q j r).1 ((p j r).0 e))
  | inl e ↦ elim (Option-cases (n j)) [
    | inl f ↦ e ∙ sym f
    | inr (r, f) ↦ cc ((p j r).1 ((q j r).0 f))
  ]
]

pub MapsOf-snoc :
    (rows : IdMap) (ids : List ℕ) (id : ℕ)
    → MapsOf rows ids
    → rows id ≡ none
    → MapsOf (assign rows id (some (length ids))) (ids ++ id ∷ [])
MapsOf-snoc rows ids id v e j r = (
  λ h. ground (arith, get_elem?-snoc ids id r, v j r, get_elem?-lt ids r {a = j}),
  λ h. ground (arith, get_elem?-snoc ids id r, v j r),
)

-- In a list with a map each ID is new when it is reached.
reached_fresh :
    (whole rows : IdMap) (before after : List ℕ) (id : ℕ)
    → MapsOf whole (before ++ id ∷ after)
    → MapsOf rows before
    → rows id ≡ none
reached_fresh whole rows before after id w v = elim (Option-cases (rows id)) [
  | inl e ↦ e
  | inr (r, e) ↦
      let at = (v id r).0 e in
      let lt = get_elem?-lt before r at in
      let first = (w id r).1 (get_elem?-append before (id ∷ after) r lt ∙ at) in
      let second = (w id (length before)).1 (here before) in
      let same : r ≡ length before = some-injective (sym first ∙ second) in absurd (omega arith)
]
  where
    here : (xs : List ℕ) → get_elem? (xs ++ id ∷ after) (length xs) ≡ some id
    here [] = refl
    here (x ∷ xs) = here xs

pub read-write_ids :
    (ids before : List ℕ) (whole rows : IdMap) (c : ℕ) (tail : List ℕ)
    → All (λ id. id < 2 ^ 64) ids
    → MapsOf whole (before ++ ids)
    → MapsOf rows before
    → (rows' : IdMap) × (read_ids (length ids) (length before) (record {
      ids = before;
      id_to_row = rows;
      checksum = c;
      rest = write_values 8 ids ++ tail;
    })
        ≡ ok (record {
          ids = before ++ ids;
          id_to_row = rows';
          checksum = checksum_values 8 c ids;
          rest = tail;
        }))
      × MapsOf rows' (before ++ ids)
unfolding read_ids write_values checksum_values
read-write_ids [] before whole rows c tail small w v = (rows, rw append-nil, rw append-nil v)
read-write_ids (id ∷ ids) before whole rows c tail small w v =
    let fresh = reached_fresh whole rows before ids id w v in
    let moved = append_assoc before (id ∷ []) ids in
    let counted : length (before ++ id ∷ []) ≡ length before + 1 = length-append before (id ∷ []) in
    let (rows', e, w') =
      read-write_ids ids (before ++ id ∷ []) whole (assign rows id (some (length before)))
        (checksum_little_endian 8 c id) tail small.1 (rw moved w)
        (MapsOf-snoc rows before id v fresh) in
    (
      rows',
      rw
          (
            append_assoc (write_little_endian 8 id) (write_values 8 ids) tail,
            read_payload_value-write 8 c id _ small.0,
            fresh,
            ← counted,
            ← moved,
          )
          e,
      rw moved at w',
    )

-- A value that can stand in a file: 32 bits of a finite float.
abbrev pub IsStorable : ℕ → Type 0
IsStorable v = (v < 2 ^ 32) × (is_finite v ≡ true)

module _ (m : Machine) where
  open m use {widen, dadd, dmul}

  -- The squared norm that the reader adds up.
  abbrev pub squared_norm : ℕ → List ℕ → ℕ
  squared_norm acc [] = acc
  squared_norm acc (v ∷ vs) = squared_norm (dadd acc (dmul (widen v) (widen v))) vs

  -- Each of `n` rows has the norm 1, as near as the reader asks.
  abbrev pub Normed : ℕ → ℕ → List ℕ → Type 0
  Normed zero d vs = Unit {0}
  Normed (suc n) d vs = (off_norm m (squared_norm 0 (take d vs)) ≡ false) × Normed n d (drop d vs)

  read-write_row :
      (vs before : List ℕ) (acc c : ℕ) (tail : List ℕ)
      → All IsStorable vs
      → read_row m
          (length vs)
          acc
          (record { vectors = before; checksum = c; rest = write_values 4 vs ++ tail })
        ≡ ok (
          squared_norm acc vs,
          record { vectors = before ++ vs; checksum = checksum_values 4 c vs; rest = tail },
        )
  unfolding read_row write_values checksum_values
  read-write_row [] before acc c tail storable = rw append-nil
  read-write_row (v ∷ vs) before acc c tail storable =
      rw
        (
          append_assoc (write_little_endian 4 v) (write_values 4 vs) tail,
          read_payload_value-write 4 c v _ storable.0.0,
          storable.0.1,
          ← append_assoc before (v ∷ []) vs,
        )
        (read-write_row vs (before ++ v ∷ []) (dadd acc (dmul (widen v) (widen v)))
          (checksum_little_endian 4 c v) tail storable.1)

  All-take : (k : ℕ) (vs : List ℕ) → All IsStorable vs → All IsStorable (take k vs)
  All-take zero vs h = tt
  All-take (suc k) [] h = tt
  All-take (suc k) (v ∷ vs) h = (h.0, All-take k vs h.1)

  All-drop : (k : ℕ) (vs : List ℕ) → All IsStorable vs → All IsStorable (drop k vs)
  All-drop zero vs h = h
  All-drop (suc k) [] h = tt
  All-drop (suc k) (v ∷ vs) h = All-drop k vs h.1

  pub read-write_rows :
      (n d : ℕ) (vs before : List ℕ) (c : ℕ) (tail : List ℕ)
      → length vs ≡ n * d
      → All IsStorable vs
      → Normed n d vs
      → read_rows m n d
          (record { vectors = before; checksum = c; rest = write_values 4 vs ++ tail })
        ≡ ok (record { vectors = before ++ vs; checksum = checksum_values 4 c vs; rest = tail })
  unfolding read_rows
  read-write_rows zero d [] before c tail l storable normed =
      unfold write_values checksum_values in rw append-nil
  read-write_rows zero d (v ∷ vs) before c tail l storable normed = absurd (omega arith)
  read-write_rows (suc n) d vs before c tail l storable normed =
      rw (rest_split, first, normed.0)
        (read-write_rows n d (drop d vs) (before ++ take d vs) (checksum_values 4 c (take d vs))
            tail (omega (arith, length-drop d vs)) (All-drop d vs storable) normed.1
          ∙ end)
    where
      whole : take d vs ++ drop d vs ≡ vs
      whole = take-append-drop d vs

      full : length (take d vs) ≡ d
      full = omega (arith, length-take d vs)

      rest_split :
          write_values 4 vs ++ tail
          ≡ write_values 4 (take d vs) ++ (write_values 4 (drop d vs) ++ tail)
      rest_split =
          ap (λ xs. write_values 4 xs ++ tail) (sym whole)
          ∙ ap (λ xs. xs ++ tail) (write_values-append 4 (take d vs) (drop d vs))
          ∙ append_assoc (write_values 4 (take d vs)) (write_values 4 (drop d vs)) tail

      first :
          read_row m d 0 (record {
            vectors = before;
            checksum = c;
            rest = write_values 4 (take d vs) ++ (write_values 4 (drop d vs) ++ tail);
          })
          ≡ ok (
            squared_norm 0 (take d vs),
            record {
              vectors = before ++ take d vs;
              checksum = checksum_values 4 c (take d vs);
              rest = write_values 4 (drop d vs) ++ tail;
            },
          )
      first = rw full at (
          read-write_row (take d vs) before 0 c (write_values 4 (drop d vs) ++ tail)
            (All-take d vs storable))

      end :
          ◌≡◌ {A = Result ReadValues}
            (ok (record {
              vectors = (before ++ take d vs) ++ drop d vs;
              checksum = checksum_values 4 (checksum_values 4 c (take d vs)) (drop d vs);
              rest = tail;
            }))
            (ok (record { vectors = before ++ vs; checksum = checksum_values 4 c vs; rest = tail }))
      end = rw (
        append_assoc before (take d vs) (drop d vs),
        ← checksum_values-append 4 c (take d vs) (drop d vs),
        whole,
      )
