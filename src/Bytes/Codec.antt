-- ===== src/Bytes/Codec.antt =====
-- Writers against readers, and the checked arithmetic (src/flat_index_io.cpp).
use fast_vector.Prelude.{
  ℕ, zero, suc, ◌+◌, ◌-◌, ◌*◌, ◌/◌, ◌%◌, ◌^◌, ◌≤◌, ◌<◌, ◌≡◌, ◌∙◌, refl, ap, List, ◌++◌, length,
  take, drop, ltb, ok, err, ◌⊎◌, size_overflow, arith, length-append, take-append, take-length,
  drop-append_past, Bool-cases, inl, inr, false, ltb→lt, ◌==◌,
}
use native.Mathlib.Nat.{pow-suc, div-add-mod, mod-lt}
use fast_vector.Bytes.{
  write_little_endian, read_exact, accumulate, read_little_endian, checksum_little_endian,
  checksum_bytes, update_checksum, read_payload_value, checked_multiply, checked_add, u64_max,
}

pub length-write_little_endian :
    (width value : ℕ) → length (write_little_endian width value) ≡ width
unfolding write_little_endian
length-write_little_endian zero value = refl
length-write_little_endian (suc width) value =
    ap suc (length-write_little_endian width (value / 256))

pub read_exact-append :
    (xs rest : List ℕ) (n : ℕ) → length xs ≡ n → read_exact n (xs ++ rest) ≡ ok (xs, rest)
unfolding read_exact
read_exact-append xs rest n e =
    let fits : ltb (length (xs ++ rest)) n ≡ false = ground (arith, length-append xs rest) in
    let front : take n (xs ++ rest) ≡ xs =
      take-append n xs rest (omega arith) ∙ take-length n xs (omega arith) in
    let past : n ≡ length xs + 0 = omega arith in
    let back : drop n (xs ++ rest) ≡ rest =
      ap (λ (k : ℕ). drop k (xs ++ rest)) past ∙ drop-append_past 0 xs rest in
    rw (fits, front, back)

accumulate-write :
    (width i acc value : ℕ)
    → value < 256 ^ width
    → accumulate i acc (write_little_endian width value) ≡ acc + value * 256 ^ i
unfolding accumulate write_little_endian
accumulate-write zero i acc value h = let e : value ≡ 0 = omega arith in rw e (omega arith)
accumulate-write (suc width) i acc value h = omega (
  arith,
  accumulate-write width (suc i) (acc + value % 256 * 256 ^ i) (value / 256)
      (omega (arith, pow-suc 256 width)),
  ap (λ (t : ℕ). t * 256 ^ i) (div-add-mod value 256),
  ap (λ (t : ℕ). value / 256 * t) (pow-suc 256 i),
)

pub checksum-write :
    (width checksum value : ℕ)
    → checksum_bytes checksum (write_little_endian width value)
      ≡ checksum_little_endian width checksum value
unfolding checksum_bytes write_little_endian checksum_little_endian
checksum-write zero checksum value = refl
checksum-write (suc width) checksum value =
    checksum-write width (update_checksum checksum (value % 256)) (value / 256)

-- A value that fits its width is read back from what was written, whatever follows.
pub read-write_little_endian :
    (width value : ℕ) (rest : List ℕ)
    → value < 256 ^ width
    → read_little_endian width (write_little_endian width value ++ rest) ≡ ok (value, rest)
unfolding read_little_endian
read-write_little_endian width value rest h =
    rw
      (read_exact-append (write_little_endian width value) rest width
        (length-write_little_endian width value))
      (ap (λ (v : ℕ). ok (v, rest)) (accumulate-write width 0 0 value h ∙ omega arith))

-- A payload value that fits its width is read back from what was written, and the checksum grows
-- as the writer's did.
pub read_payload_value-write :
    (width checksum value : ℕ) (rest : List ℕ)
    → value < 256 ^ width
    → read_payload_value width checksum (write_little_endian width value ++ rest)
      ≡ ok (value, checksum_little_endian width checksum value, rest)
unfolding read_payload_value
read_payload_value-write width checksum value rest h =
    rw
      (
        read_exact-append (write_little_endian width value) rest width
            (length-write_little_endian width value),
        accumulate-write width 0 0 value h,
        checksum-write width checksum value,
      )
      (ap (λ (v : ℕ). ok (v, checksum_little_endian width checksum value, rest)) (omega arith))

nonzero : (a : ℕ) → (suc a == 0) ≡ false
nonzero a = ground arith

product_low : (a b : ℕ) → b ≤ u64_max / a → a * b < 2 ^ 64
product_low a b h =
    let m : a * b ≤ a * (u64_max / a) = grind arith in omega (arith, div-add-mod u64_max a)

product_high : (a b : ℕ) → 0 < a → u64_max / a < b → 2 ^ 64 ≤ a * b
product_high a b pos h =
    let m : a * (u64_max / a + 1) ≤ a * b = grind arith in
    let r : u64_max % a < a = mod-lt u64_max pos in omega (arith, div-add-mod u64_max a)

-- The checked product of two 64-bit numbers is the product, and it is refused exactly when it does
-- not fit 64 bits.
pub checked_multiply_exact :
    (a b : ℕ)
    → a < 2 ^ 64
    → b < 2 ^ 64
    → ((a * b < 2 ^ 64) × (checked_multiply a b ≡ ok (a * b)))
      ⊎ ((2 ^ 64 ≤ a * b) × (checked_multiply a b ≡ err size_overflow))
unfolding checked_multiply
checked_multiply_exact zero b ha hb = inl (omega arith, ground arith)
checked_multiply_exact (suc a) b ha hb = elim (Bool-cases (ltb (u64_max / suc a) b)) [
  | inl e ↦ inr (product_high (suc a) b (omega arith) (ltb→lt _ _ e), rw (e, nonzero a))
  | inr e ↦
      let fits = product_low (suc a) b (ground arith) in
      let m : suc a * b % 2 ^ 64 ≡ suc a * b = omega arith in inl (fits, rw (e, nonzero a, m))
]

-- The checked sum of two 64-bit numbers is the sum, and it is refused exactly when it does not fit
-- 64 bits.
pub checked_add_exact :
    (a b : ℕ)
    → a < 2 ^ 64
    → b < 2 ^ 64
    → ((a + b < 2 ^ 64) × (checked_add a b ≡ ok (a + b)))
      ⊎ ((2 ^ 64 ≤ a + b) × (checked_add a b ≡ err size_overflow))
unfolding checked_add
checked_add_exact a b ha hb = elim (Bool-cases (ltb (u64_max - a) b)) [
  | inl e ↦ inr (ground arith, rw e)
  | inr e ↦ let m : (a + b) % 2 ^ 64 ≡ a + b = ground arith in inl (ground arith, rw (e, m))
]
