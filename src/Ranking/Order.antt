-- ===== src/Ranking/Order.antt =====
-- Sorted insertion: its elements, and its order.
use mathlib.Core.List.{Perm}
use mathlib.Core.List.Perm
use fast_vector.Prelude.{
  suc, ◌≡◌, refl, Bool, true, false, List, [], ◌∷◌, length, All, arith, Bool-cases, inl, inr,
}
use fast_vector.Ranking.{insert_by, sort_by}

-- A comparison that ranks the elements with `P`: it is asymmetric, and "not before" is transitive.
pub record IsRanking {ℓ} {A : Type ℓ} (before : A → A → Bool) (P : A → Type 0) : Type ℓ where
  pub asym : (x y : A) → P x → P y → before x y ≡ true → before y x ≡ false
  pub not_trans :
      (x y z : A) → P x → P y → P z → before x y ≡ false → before y z ≡ false → before x z ≡ false

module _ {ℓ} {A : Type ℓ} (before : A → A → Bool) where
  -- No element stands behind one that it goes before.
  abbrev pub Sorted : List A → Type 0
  Sorted [] = Unit
  Sorted (x ∷ xs) = All (λ y. before y x ≡ false) xs × Sorted xs

  pub insert_by-perm : (x : A) (xs : List A) → Perm (insert_by before x xs) (x ∷ xs)
  unfolding insert_by
  insert_by-perm x [] = Perm.refl (x ∷ [])
  insert_by-perm x (y ∷ ys) = elim (Bool-cases (before x y)) [
    | inl e ↦ rw e (Perm.refl (x ∷ y ∷ ys))
    | inr e ↦ rw e (Perm.trans (Perm.cons y (insert_by-perm x ys)) (Perm.swap x y ys))
  ]

  pub sort_by-perm : (xs : List A) → Perm (sort_by before xs) xs
  unfolding sort_by
  sort_by-perm [] = Perm.refl []
  sort_by-perm (x ∷ xs) =
      Perm.trans (insert_by-perm x (sort_by before xs)) (Perm.cons x (sort_by-perm xs))

  pub length-insert_by : (x : A) (xs : List A) → length (insert_by before x xs) ≡ suc (length xs)
  unfolding insert_by
  length-insert_by x [] = refl
  length-insert_by x (y ∷ ys) = ground (arith, length-insert_by x ys)

  pub length-sort_by : (xs : List A) → length (sort_by before xs) ≡ length xs
  unfolding sort_by
  length-sort_by [] = refl
  length-sort_by (x ∷ xs) = omega (arith, length-insert_by x (sort_by before xs), length-sort_by xs)

  pub All-insert_by {κ} :
      (Q : A → Type κ) (x : A) (xs : List A) → Q x → All Q xs → All Q (insert_by before x xs)
  unfolding insert_by
  All-insert_by Q x [] h k = (h, tt)
  All-insert_by Q x (y ∷ ys) h k = elim (Bool-cases (before x y)) [
    | inl e ↦ rw e (h, k)
    | inr e ↦ rw e (k.0, All-insert_by Q x ys h k.1)
  ]

  pub All-sort_by {κ} : (Q : A → Type κ) (xs : List A) → All Q xs → All Q (sort_by before xs)
  unfolding sort_by
  All-sort_by Q [] h = tt
  All-sort_by Q (x ∷ xs) h = All-insert_by Q x (sort_by before xs) h.0 (All-sort_by Q xs h.1)

  module _ (P : A → Type 0) (r : IsRanking before P) where
    after_first :
        (x y : A) (ys : List A)
        → P x
        → P y
        → All P ys
        → before y x ≡ false
        → All (λ z. before z y ≡ false) ys
        → All (λ z. before z x ≡ false) ys
    after_first x y [] px py ps e h = tt
    after_first x y (z ∷ zs) px py ps e h =
        (r.not_trans z y x ps.0 py px h.0 e, after_first x y zs px py ps.1 e h.1)

    pub insert_by-Sorted :
        (x : A) (xs : List A) → P x → All P xs → Sorted xs → Sorted (insert_by before x xs)
    unfolding insert_by
    insert_by-Sorted x [] px ps s = (tt, tt)
    insert_by-Sorted x (y ∷ ys) px ps s = elim (Bool-cases (before x y)) [
      | inl e ↦
          let e' = r.asym x y px ps.0 e in rw e ((e', after_first x y ys px ps.0 ps.1 e' s.0), s)
      | inr e ↦
          rw e
            (All-insert_by (λ z. before z y ≡ false) x ys e s.0, insert_by-Sorted x ys px ps.1 s.1)
    ]

    pub sort_by-Sorted : (xs : List A) → All P xs → Sorted (sort_by before xs)
    unfolding sort_by
    sort_by-Sorted [] ps = tt
    sort_by-Sorted (x ∷ xs) ps =
        insert_by-Sorted x (sort_by before xs) ps.0 (All-sort_by P xs ps.1) (sort_by-Sorted xs ps.1)
