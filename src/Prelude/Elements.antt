-- ===== src/Prelude/Elements.antt =====
-- Elements by position: after a write, an append and a `pop_back`.
use Prim.Native.Nat.{ℕ, zero, suc, ◌+◌, ◌-◌, ◌<◌}
use mathlib.Core.Path.{◌≡◌, refl, ap}
use mathlib.Core.Bool.{◌&&◌}
use mathlib.Core.List.{List, [], ◌∷◌, ◌++◌, map}
use mathlib.Core.Option.{none, some}
use native.Mathlib.Omega.{arith}
use fast_vector.Prelude.Tests.{ltb, ◌==◌, if◌then◌else◌}
use fast_vector.Prelude.Lists.{
  length, get_elem?, get_or, set, init, get_last?, take, replicate, All,
}

module _ {ℓ} {A : Type ℓ} where
  pub get_elem?-lt : (xs : List A) (i : ℕ) {a : A} → get_elem? xs i ≡ some a → i < length xs
  get_elem?-lt [] i h = cc
  get_elem?-lt (x ∷ xs) zero h = omega arith
  get_elem?-lt (x ∷ xs) (suc i) h = omega (arith, get_elem?-lt xs i h)

  pub get_elem?-append :
      (xs ys : List A) (i : ℕ) → i < length xs → get_elem? (xs ++ ys) i ≡ get_elem? xs i
  get_elem?-append [] ys i h = absurd (omega arith)
  get_elem?-append (x ∷ xs) ys zero h = refl
  get_elem?-append (x ∷ xs) ys (suc i) h = get_elem?-append xs ys i (omega arith)

  pub get_elem?-snoc :
      (xs : List A) (y : A) (i : ℕ)
      → get_elem? (xs ++ y ∷ []) i ≡ (if i == length xs then some y else get_elem? xs i)
  get_elem?-snoc [] y zero = refl
  get_elem?-snoc [] y (suc i) = ground arith
  get_elem?-snoc (x ∷ xs) y zero = ground arith
  get_elem?-snoc (x ∷ xs) y (suc i) = ground (arith, get_elem?-snoc xs y i)

  pub get_elem?-init :
      (xs : List A) (i : ℕ)
      → get_elem? (init xs) i ≡ (if ltb (i + 1) (length xs) then get_elem? xs i else none)
  get_elem?-init [] i = ground arith
  get_elem?-init (x ∷ []) zero = refl
  get_elem?-init (x ∷ []) (suc i) = ground arith
  get_elem?-init (x ∷ y ∷ ys) zero = ground arith
  get_elem?-init (x ∷ y ∷ ys) (suc i) = ground (arith, get_elem?-init (y ∷ ys) i)

  pub length-init : (xs : List A) → length (init xs) ≡ length xs - 1
  length-init [] = omega arith
  length-init (x ∷ []) = omega arith
  length-init (x ∷ y ∷ ys) = omega (arith, length-init (y ∷ ys))

  pub init-snoc : (xs : List A) (y : A) → init (xs ++ y ∷ []) ≡ xs
  init-snoc [] y = refl
  init-snoc (x ∷ []) y = refl
  init-snoc (x ∷ z ∷ zs) y = ap (◌∷◌ x) (init-snoc (z ∷ zs) y)

  pub get_last?-snoc : (xs : List A) (y : A) → get_last? (xs ++ y ∷ []) ≡ some y
  get_last?-snoc [] y = refl
  get_last?-snoc (x ∷ []) y = refl
  get_last?-snoc (x ∷ z ∷ zs) y = get_last?-snoc (z ∷ zs) y

  pub get_last?-get_elem? :
      (xs : List A) {a : A} → get_last? xs ≡ some a → get_elem? xs (length xs - 1) ≡ some a
  get_last?-get_elem? [] h = cc
  get_last?-get_elem? (x ∷ []) h = h
  get_last?-get_elem? (x ∷ y ∷ ys) h = ground (arith, get_last?-get_elem? (y ∷ ys) h)

  pub get_elem?-set :
      (xs : List A) (k i : ℕ) (v : A)
      → get_elem? (set xs k v) i ≡ (if i == k && ltb k (length xs) then some v else get_elem? xs i)
  get_elem?-set [] k i v = ground arith
  get_elem?-set (x ∷ xs) zero zero v = ground arith
  get_elem?-set (x ∷ xs) zero (suc i) v = ground arith
  get_elem?-set (x ∷ xs) (suc k) zero v = ground arith
  get_elem?-set (x ∷ xs) (suc k) (suc i) v = ground (arith, get_elem?-set xs k i v)

  pub get_elem?-get_or :
      (xs : List A) (i : ℕ) (d : A) → i < length xs → get_elem? xs i ≡ some (get_or xs i d)
  get_elem?-get_or [] i d h = absurd (omega arith)
  get_elem?-get_or (x ∷ xs) zero d h = refl
  get_elem?-get_or (x ∷ xs) (suc i) d h = get_elem?-get_or xs i d (omega arith)

module _ {ℓ κ} {A : Type ℓ} (P : A → Type κ) where
  pub All-set : (xs : List A) (i : ℕ) (v : A) → All P xs → P v → All P (set xs i v)
  All-set [] i v h p = tt
  All-set (x ∷ xs) zero v h p = (p, h.1)
  All-set (x ∷ xs) (suc i) v h p = (h.0, All-set xs i v h.1 p)

  pub All-get_or : (xs : List A) (i : ℕ) (d : A) → All P xs → P d → P (get_or xs i d)
  All-get_or [] i d h p = p
  All-get_or (x ∷ xs) zero d h p = h.0
  All-get_or (x ∷ xs) (suc i) d h p = All-get_or xs i d h.1 p

  pub All-take : (n : ℕ) (xs : List A) → All P xs → All P (take n xs)
  All-take zero xs h = tt
  All-take (suc n) [] h = tt
  All-take (suc n) (x ∷ xs) h = (h.0, All-take n xs h.1)

  pub All-map {μ} :
      {B : Type μ} (f : B → A) (xs : List B) → All (λ x. P (f x)) xs → All P (map f xs)
  All-map f [] h = tt
  All-map f (x ∷ xs) h = (h.0, All-map f xs h.1)

  pub All-replicate : (n : ℕ) (a : A) → P a → All P (replicate n a)
  All-replicate zero a p = tt
  All-replicate (suc n) a p = (p, All-replicate n a p)
