-- ===== src/Ranking.antt =====
-- What the indexes take from the standard library: `std::sort` and `std::priority_queue` under a
-- comparison. A queue is a list with its top in front. Elements that the comparison does not tell
-- apart stay in the order of insertion, which the standard leaves open.
pub mod Order
pub mod Bounded
use fast_vector.Prelude.{Bool, List, [], ◌∷◌, Option, none, some, if◌then◌else◌}

module _ {ℓ} {A : Type ℓ} where
  unfoldable pub insert_by : (A → A → Bool) → A → List A → List A
  insert_by before x [] = x ∷ []
  insert_by before x (y ∷ ys) = if before x y then x ∷ y ∷ ys else y ∷ insert_by before x ys

  -- std::sort
  unfoldable pub sort_by : (A → A → Bool) → List A → List A
  unfolding insert_by
  sort_by before [] = []
  sort_by before (x ∷ xs) = insert_by before x (sort_by before xs)

  -- std::priority_queue<A, _, decltype(less)>: `push`, with a greatest element on top.
  unfoldable pub push_by : (A → A → Bool) → A → List A → List A
  unfolding insert_by
  push_by less x queue = insert_by (λ a b. less b a) x queue

  -- `top` of a queue that is not empty, `pop`.
  abbrev pub top? : List A → Option A
  top? [] = none
  top? (x ∷ xs) = some x

  abbrev pub pop : List A → List A
  pop [] = []
  pop (x ∷ xs) = xs
