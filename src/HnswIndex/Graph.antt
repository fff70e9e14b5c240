-- ===== src/HnswIndex/Graph.antt =====
-- The adjacency lists of src/hnsw_index.cpp as an array of arrays.
use fast_vector.Prelude.{
  ℕ, zero, suc, ◌≤◌, ◌≡◌, refl, ap, Bool, false, ◌&&◌, List, [], ◌∷◌, set, get_or, take, ◌==◌,
  arith,
}
use fast_vector.HnswIndex.{Node, empty_node}

module _ {ℓ} {A : Type ℓ} where
  set-set : (xs : List A) (k : ℕ) (a b : A) → set (set xs k a) k b ≡ set xs k b
  set-set [] k a b = refl
  set-set (x ∷ xs) zero a b = refl
  set-set (x ∷ xs) (suc k) a b = ap (◌∷◌ x) (set-set xs k a b)

  set_comm :
      (xs : List A) (k l : ℕ) (a b : A)
      → (k == l) ≡ false
      → set (set xs k a) l b ≡ set (set xs l b) k a
  set_comm [] k l a b h = refl
  set_comm (x ∷ xs) zero zero a b h = absurd (ground arith)
  set_comm (x ∷ xs) zero (suc l) a b h = refl
  set_comm (x ∷ xs) (suc k) zero a b h = refl
  set_comm (x ∷ xs) (suc k) (suc l) a b h = ap (◌∷◌ x) (set_comm xs k l a b (ground arith))

  set-get_or : (xs : List A) (k : ℕ) (d : A) → set xs k (get_or xs k d) ≡ xs
  set-get_or [] k d = refl
  set-get_or (x ∷ xs) zero d = refl
  set-get_or (x ∷ xs) (suc k) d = ap (◌∷◌ x) (set-get_or xs k d)

  get_or-set :
      (xs : List A) (k l : ℕ) (a d : A) → (k == l) ≡ false → get_or (set xs k a) l d ≡ get_or xs l d
  get_or-set [] k l a d h = refl
  get_or-set (x ∷ xs) zero zero a d h = absurd (ground arith)
  get_or-set (x ∷ xs) zero (suc l) a d h = refl
  get_or-set (x ∷ xs) (suc k) zero a d h = refl
  get_or-set (x ∷ xs) (suc k) (suc l) a d h = get_or-set xs k l a d (ground arith)

-- The graph with another list at a node and a level.
abbrev pub put : List Node → ℕ → ℕ → List ℕ → List Node
put [] node level x = []
put (n ∷ ns) zero level x = record n { levels = set n.levels level x } ∷ ns
put (n ∷ ns) (suc node) level x = n ∷ put ns node level x

-- The list at a node and a level.
abbrev pub list_at : List Node → ℕ → ℕ → List ℕ
list_at g node level = get_or (get_or g node empty_node).levels level []

pub set-put :
    (g : List Node) (node level : ℕ) (x : List ℕ)
    → set g node (record (get_or g node empty_node) {
      levels = set (get_or g node empty_node).levels level x;
    })
      ≡ put g node level x
set-put [] node level x = refl
set-put (n ∷ ns) zero level x = refl
set-put (n ∷ ns) (suc node) level x = ap (◌∷◌ n) (set-put ns node level x)

-- Whether two places are one.
abbrev pub same_place : (n l n' l' : ℕ) → Bool
same_place n l n' l' = n == n' && l == l'

pub put-put : (g : List Node) (n l : ℕ) (x y : List ℕ) → put (put g n l x) n l y ≡ put g n l y
put-put [] n l x y = refl
put-put (a ∷ g) zero l x y = rw (set-set a.levels l x y)
put-put (a ∷ g) (suc n) l x y = ap (◌∷◌ a) (put-put g n l x y)

pub put_comm :
    (g : List Node) (n l n' l' : ℕ) (x y : List ℕ)
    → same_place n l n' l' ≡ false
    → put (put g n l x) n' l' y ≡ put (put g n' l' y) n l x
put_comm [] n l n' l' x y h = refl
put_comm (a ∷ g) zero l zero l' x y h = rw (set_comm a.levels l l' x y (ground arith))
put_comm (a ∷ g) zero l (suc n') l' x y h = refl
put_comm (a ∷ g) (suc n) l zero l' x y h = refl
put_comm (a ∷ g) (suc n) l (suc n') l' x y h = ap (◌∷◌ a) (put_comm g n l n' l' x y (ground arith))

pub put-list_at : (g : List Node) (n l : ℕ) → put g n l (list_at g n l) ≡ g
put-list_at [] n l = refl
put-list_at (a ∷ g) zero l = rw (set-get_or a.levels l [])
put-list_at (a ∷ g) (suc n) l = ap (◌∷◌ a) (put-list_at g n l)

pub list_at-put :
    (g : List Node) (n l n' l' : ℕ) (x : List ℕ)
    → same_place n l n' l' ≡ false
    → list_at (put g n l x) n' l' ≡ list_at g n' l'
list_at-put [] n l n' l' x h = refl
list_at-put (a ∷ g) zero l zero l' x h = get_or-set a.levels l l' x [] (ground arith)
list_at-put (a ∷ g) zero l (suc n') l' x h = refl
list_at-put (a ∷ g) (suc n) l zero l' x h = refl
list_at-put (a ∷ g) (suc n) l (suc n') l' x h = list_at-put g n l n' l' x (ground arith)

-- A place past the first `k` nodes does not matter to them.
pub take-put :
    (k : ℕ) (g : List Node) (n l : ℕ) (x : List ℕ) → k ≤ n → take k (put g n l x) ≡ take k g
take-put zero g n l x h = refl
take-put (suc k) [] n l x h = refl
take-put (suc k) (a ∷ g) zero l x h = absurd (omega arith)
take-put (suc k) (a ∷ g) (suc n) l x h = ap (◌∷◌ a) (take-put k g n l x (omega arith))
