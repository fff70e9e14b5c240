-- ===== src/FlatIndex/Storage.antt =====
-- Rows of the flat storage: what an append, a truncation and a row copy do to each row.
use fast_vector.Prelude.{
  ℕ, suc, ◌+◌, ◌-◌, ◌*◌, ◌≤◌, ◌<◌, ◌≡◌, ◌≢◌, ap, ◌∙◌, List, ◌++◌, length, take, drop, arith,
  length-take, length-drop, take-append, drop-append, drop-append_past, take-drop-take, drop-drop,
  take-length, length-append,
}
use native.Mathlib.Decide.{dec_lt}
use fast_vector.FlatIndex.{row, copy_row}

mul_lt : (i n d : ℕ) → i < n → i * d + d ≤ n * d
mul_lt i n d h = grind arith

pub length-row : (xs : List ℕ) (d i : ℕ) → i * d + d ≤ length xs → length (row xs d i) ≡ d
unfolding row
length-row xs d i h = omega (arith, length-take d (drop (i * d) xs), length-drop (i * d) xs)

pub row-append :
    (xs ys : List ℕ) (d i n : ℕ) → length xs ≡ n * d → i < n → row (xs ++ ys) d i ≡ row xs d i
unfolding row
row-append xs ys d i n e h =
    let k = mul_lt i n d h in
    ap (take d) (drop-append (i * d) xs ys (omega arith))
    ∙ take-append d (drop (i * d) xs) ys (omega (arith, length-drop (i * d) xs))

pub row-append_new :
    (xs ys : List ℕ) (d n : ℕ) → length xs ≡ n * d → length ys ≡ d → row (xs ++ ys) d n ≡ ys
unfolding row
row-append_new xs ys d n e f =
    let k : n * d ≡ length xs + 0 = omega arith in
    ap (λ (j : ℕ). take d (drop j (xs ++ ys))) k
    ∙ ap (take d) (drop-append_past 0 xs ys)
    ∙ take-length d ys (omega arith)

pub row-take :
    (xs : List ℕ) (d i n : ℕ)
    → length xs ≡ suc n * d
    → i < n
    → row (take (length xs - d) xs) d i ≡ row xs d i
unfolding row
row-take xs d i n e h =
    let k = mul_lt i n d h in take-drop-take d (i * d) (length xs - d) xs (omega arith)

row_mid :
    (front mid back : List ℕ) (d to : ℕ)
    → length mid ≡ d
    → length front ≡ to * d
    → row (front ++ (mid ++ back)) d to ≡ mid
unfolding row
row_mid front mid back d to e g =
    let k : to * d ≡ length front + 0 = omega arith in
    ap (λ (j : ℕ). take d (drop j (front ++ (mid ++ back)))) k
    ∙ ap (take d) (drop-append_past 0 front (mid ++ back))
    ∙ take-append d mid back (omega arith)
    ∙ take-length d mid (omega arith)

row_after :
    (xs front mid : List ℕ) (d to i : ℕ)
    → length mid ≡ d
    → length front ≡ to * d
    → to < i
    → row (front ++ (mid ++ drop (to * d + d) xs)) d i ≡ row xs d i
unfolding row
row_after xs front mid d to i e g h =
    let past = mul_lt to i d h in
    let rest : ℕ = i * d - (to * d + d) in
    let j : i * d ≡ length front + (length mid + rest) = omega arith in
    let k : to * d + d + rest ≡ i * d = omega arith in
    let back : List ℕ = drop (to * d + d) xs in
    ap (λ (j : ℕ). take d (drop j (front ++ (mid ++ back)))) j
    ∙ ap (take d) (drop-append_past (length mid + rest) front (mid ++ back))
    ∙ ap (take d) (drop-append_past rest mid back)
    ∙ ap (take d) (drop-drop rest (to * d + d) xs)
    ∙ ap (λ (j : ℕ). take d (drop j xs)) k

module _ (xs : List ℕ) (d n from to : ℕ) (stored : length xs ≡ n * d) (within : to < n) where
  start_fits : to * d + d ≤ n * d
  start_fits = mul_lt to n d within

  length-front : length (take (to * d) xs) ≡ to * d
  length-front = omega (arith, length-take (to * d) xs, start_fits)

  pub length-copy_row : from < n → length (copy_row xs d from to) ≡ length xs
  unfolding copy_row
  length-copy_row h =
      let f = mul_lt from n d h in
      omega (
        arith,
        start_fits,
        length-front,
        length-append (take (to * d) xs) (row xs d from ++ drop (to * d + d) xs),
        length-append (row xs d from) (drop (to * d + d) xs),
        length-row xs d from (omega arith),
        length-drop (to * d + d) xs,
      )

  pub row-copy_row_self : from < n → row (copy_row xs d from to) d to ≡ row xs d from
  unfolding copy_row
  row-copy_row_self h =
      let f = mul_lt from n d h in
      row_mid (take (to * d) xs) (row xs d from) (drop (to * d + d) xs) d to
        (length-row xs d from (omega arith)) length-front

  pub row-copy_row_ne : (i : ℕ) → i ≢ to → from < n → row (copy_row xs d from to) d i ≡ row xs d i
  unfolding copy_row
  row-copy_row_ne i ne h =
      let f = mul_lt from n d h in
      elim (dec_lt i to) [
        | yes lt ↦ row_before (mul_lt i to d lt) lt
        | no ge ↦
            row_after xs (take (to * d) xs) (row xs d from) d to i
              (length-row xs d from (omega arith)) length-front (omega arith)
      ]
    where
      row_before :
          i * d + d ≤ to * d
          → i < to
          → row (take (to * d) xs ++ (row xs d from ++ drop (to * d + d) xs)) d i ≡ row xs d i
      row_before k lt =
          row-append (take (to * d) xs) (row xs d from ++ drop (to * d + d) xs) d i to length-front
            lt
          ∙ unfold row in take-drop-take d (i * d) (to * d) xs k
