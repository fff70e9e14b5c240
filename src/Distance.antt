-- ===== src/Distance.antt =====
-- src/distance.cpp, distance_auto.cpp and distance_avx2.cpp: normalisation and the dot products.
use fast_vector.Prelude.{
  ℕ, zero, suc, ◌/◌, ◌≡◌, Bool, not, List, [], ◌∷◌, map, foldl, take, drop, length, length-map,
  replicate, ◌==◌, if◌then◌else◌, Result, ok, err, ◌>>=◌, ◌>>◌, throw_if, empty_vector,
  non_finite_value, zero_vector, avx2_unavailable, length_mismatch, >>=-eq-ok, ok-injective, sym,
  ap, ◌∙◌, Ends, >>=-Ends, throw_if-Ends,
}
use fast_vector.Float.{FloatArith, is_finite, double_is_zero, double_one}

pub data DotProductKernel : Type 0 where
  scalar auto_vectorized avx2 : DotProductKernel

-- What the build and the processor offer (avx2_dot_product_available), with the arithmetic.
pub record Machine : Type 0 where
  pub arithmetic : FloatArith
  pub open arithmetic use *
  pub avx2_available : Bool

module _ (m : Machine) where
  open m use {widen, narrow, fadd, fmul, dadd, dmul, ddiv, dsqrt, avx2_available}

  -- The loops over `i`: the two arrays are walked together.
  sum_products_wide : ℕ → List ℕ → List ℕ → ℕ
  sum_products_wide acc [] ys = acc
  sum_products_wide acc (x ∷ xs) [] = acc
  sum_products_wide acc (x ∷ xs) (y ∷ ys) =
      sum_products_wide (dadd acc (dmul (widen x) (widen y))) xs ys

  pub dot_product_scalar : List ℕ → List ℕ → ℕ
  unfolding sum_products_wide
  dot_product_scalar lhs rhs = narrow (sum_products_wide 0 lhs rhs)

  sum_products : ℕ → List ℕ → List ℕ → ℕ
  sum_products acc [] ys = acc
  sum_products acc (x ∷ xs) [] = acc
  sum_products acc (x ∷ xs) (y ∷ ys) = sum_products (fadd acc (fmul x y)) xs ys

  dot_product_auto : List ℕ → List ℕ → ℕ
  unfolding sum_products
  dot_product_auto lhs rhs = sum_products 0 lhs rhs

  -- One vector instruction: every lane by itself.
  add_lanes : List ℕ → List ℕ → List ℕ → List ℕ
  add_lanes (s ∷ ss) (x ∷ xs) (y ∷ ys) = fadd s (fmul x y) ∷ add_lanes ss xs ys
  add_lanes ss xs ys = ss

  -- Blocks of eight, as long as eight are left (`rounds` blocks), then the lanes, then the tail.
  avx2_loop : ℕ → List ℕ → List ℕ → List ℕ → ℕ
  unfolding add_lanes sum_products
  avx2_loop zero sum lhs rhs = sum_products (foldl fadd 0 sum) lhs rhs
  avx2_loop (suc rounds) sum lhs rhs =
      avx2_loop rounds (add_lanes sum (take 8 lhs) (take 8 rhs)) (drop 8 lhs) (drop 8 rhs)

  dot_product_avx2 : List ℕ → List ℕ → ℕ
  unfolding avx2_loop
  dot_product_avx2 lhs rhs = avx2_loop (length lhs / 8) (replicate 8 0) lhs rhs

  unfoldable pub resolve_dot_product_kernel : DotProductKernel → Result (List ℕ → List ℕ → ℕ)
  unfolding dot_product_scalar dot_product_auto dot_product_avx2
  resolve_dot_product_kernel scalar = ok dot_product_scalar
  resolve_dot_product_kernel auto_vectorized = ok dot_product_auto
  resolve_dot_product_kernel avx2 =
      if not avx2_available then err avx2_unavailable else ok dot_product_avx2

  unfoldable pub dot_product : List ℕ → List ℕ → DotProductKernel → Result ℕ
  dot_product lhs rhs kernel = do
    throw_if (not (length lhs == length rhs)) length_mismatch
    dot ← resolve_dot_product_kernel kernel
    ok (dot lhs rhs)

  -- The first loop of normalize_l2.
  squared_norm_from : ℕ → List ℕ → Result ℕ
  squared_norm_from acc [] = ok acc
  squared_norm_from acc (x ∷ xs) = do
    throw_if (not (is_finite x)) non_finite_value
    squared_norm_from (dadd acc (dmul (widen x) (widen x))) xs

  unfoldable pub normalize_l2 : List ℕ → Result (List ℕ)
  unfolding squared_norm_from is_finite double_is_zero
  normalize_l2 [] = err empty_vector
  normalize_l2 (v ∷ vs) = do
    squared_norm ← squared_norm_from 0 (v ∷ vs)
    throw_if (double_is_zero squared_norm) zero_vector
    let inverse_norm = ddiv double_one (dsqrt squared_norm)
    ok (map (λ x. narrow (dmul (widen x) inverse_norm)) (v ∷ vs))

  squared_norm_from-Ends : (acc : ℕ) (xs : List ℕ) → Ends (squared_norm_from acc xs)
  unfolding squared_norm_from
  squared_norm_from-Ends acc [] = λ p. cc
  squared_norm_from-Ends acc (x ∷ xs) =
      >>=-Ends (throw_if (not (is_finite x)) non_finite_value) _ (throw_if-Ends _ _ (λ e. cc))
        (λ u h. squared_norm_from-Ends (dadd acc (dmul (widen x) (widen x))) xs)

  pub normalize_l2-Ends : (v : List ℕ) → Ends (normalize_l2 v)
  unfolding normalize_l2
  normalize_l2-Ends [] = λ p. cc
  normalize_l2-Ends (v ∷ vs) =
      >>=-Ends (squared_norm_from 0 (v ∷ vs)) _ (squared_norm_from-Ends 0 (v ∷ vs)) (λ n h.
        >>=-Ends (throw_if (double_is_zero n) zero_vector) _
          (throw_if-Ends (double_is_zero n) zero_vector (λ e. cc)) (λ u k p. cc))

  -- Normalisation keeps the length.
  pub length-normalize_l2 : (v : List ℕ) {w : List ℕ} → normalize_l2 v ≡ ok w → length w ≡ length v
  unfolding normalize_l2
  length-normalize_l2 [] h = cc
  length-normalize_l2 (v ∷ vs) h =
      let (n, e, k) = >>=-eq-ok (squared_norm_from 0 (v ∷ vs)) _ h in
      let (u, z, l) = >>=-eq-ok (throw_if (double_is_zero n) zero_vector) _ k in
      sym (ap length (ok-injective l)) ∙ length-map (v ∷ vs) _
