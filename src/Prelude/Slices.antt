-- ===== src/Prelude/Slices.antt =====
-- `take` and `drop` on concatenations and on one another.
use Prim.Native.Nat.{ℕ, zero, suc, ◌+◌, ◌≤◌}
use mathlib.Core.Path.{◌≡◌, refl, ap, sym, ◌∙◌}
use mathlib.Core.List.{List, [], ◌∷◌, ◌++◌}
use native.Mathlib.Omega.{arith}
use fast_vector.Prelude.Lists.{length, take, drop}

module _ {ℓ} {A : Type ℓ} where
  pub take-append : (k : ℕ) (xs ys : List A) → k ≤ length xs → take k (xs ++ ys) ≡ take k xs
  take-append zero xs ys h = refl
  take-append (suc k) [] ys h = absurd (omega arith)
  take-append (suc k) (x ∷ xs) ys h = ap (◌∷◌ x) (take-append k xs ys (omega arith))

  pub drop-append : (k : ℕ) (xs ys : List A) → k ≤ length xs → drop k (xs ++ ys) ≡ drop k xs ++ ys
  drop-append zero xs ys h = refl
  drop-append (suc k) [] ys h = absurd (omega arith)
  drop-append (suc k) (x ∷ xs) ys h = drop-append k xs ys (omega arith)

  -- Past the first part.
  pub drop-append_past : (k : ℕ) (xs ys : List A) → drop (length xs + k) (xs ++ ys) ≡ drop k ys
  drop-append_past k [] ys = ap (λ (n : ℕ). drop n ys) (omega arith)
  drop-append_past k (x ∷ xs) ys =
      let e : length (x ∷ xs) + k ≡ suc (length xs + k) = omega arith in
      ap (λ (n : ℕ). drop n (x ∷ xs ++ ys)) e ∙ drop-append_past k xs ys

  pub take-drop-take :
      (k j n : ℕ) (xs : List A) → j + k ≤ n → take k (drop j (take n xs)) ≡ take k (drop j xs)
  take-drop-take zero j n xs h = refl
  take-drop-take (suc k) j zero xs h = absurd (omega arith)
  take-drop-take (suc k) zero (suc n) [] h = refl
  take-drop-take (suc k) (suc j) (suc n) [] h = refl
  take-drop-take (suc k) zero (suc n) (x ∷ xs) h =
      ap (◌∷◌ x) (take-drop-take k zero n xs (omega arith))
  take-drop-take (suc k) (suc j) (suc n) (x ∷ xs) h = take-drop-take (suc k) j n xs (omega arith)

  pub drop-drop : (j k : ℕ) (xs : List A) → drop j (drop k xs) ≡ drop (k + j) xs
  drop-drop j zero xs = let e : j ≡ 0 + j = omega arith in ap (λ (n : ℕ). drop n xs) e
  drop-drop zero (suc k) [] =
      let e : suc k ≡ suc k + 0 = omega arith in ap (λ (n : ℕ). drop {A = A} n []) e
  drop-drop (suc j) (suc k) [] =
      let e : suc k + suc j ≡ suc (k + suc j) = omega arith in
      ap (λ (n : ℕ). drop {A = A} n []) (sym e)
  drop-drop j (suc k) (x ∷ xs) =
      let e : suc k + j ≡ suc (k + j) = omega arith in
      drop-drop j k xs ∙ ap (λ (n : ℕ). drop n (x ∷ xs)) (sym e)

  pub take-length : (k : ℕ) (xs : List A) → length xs ≤ k → take k xs ≡ xs
  take-length zero [] h = refl
  take-length zero (x ∷ xs) h = absurd (omega arith)
  take-length (suc k) [] h = refl
  take-length (suc k) (x ∷ xs) h = ap (◌∷◌ x) (take-length k xs (omega arith))
