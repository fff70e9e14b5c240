-- ===== src/SearchResult.antt =====
-- include/fast_vector/search_result.h, and the order of the results of FlatIndex::search.
use fast_vector.Prelude.{ℕ, ◌≡◌, Bool, not, ltb, ◌==◌, if◌then◌else◌, arith}
use fast_vector.Float.{float_gt, float_eq, IsNumber, order_key, float_gt_key, float_eq_key}
use fast_vector.Ranking.Order.{IsRanking}

pub record SearchResult : Type 0 where
  pub id : ℕ
  pub score : ℕ

-- The higher score first, and the smaller ID among equal scores.
unfoldable pub is_better : SearchResult → SearchResult → Bool
is_better lhs rhs =
    if not (float_eq lhs.score rhs.score) then float_gt lhs.score rhs.score else ltb lhs.id rhs.id

abbrev pub IsScored : SearchResult → Type 0
IsScored r = IsNumber r.score

-- With scores that are numbers the comparison is one of pairs of numbers.
is_better_key :
    (a b : SearchResult)
    → IsScored a
    → IsScored b
    → is_better a b ≡ (
        if order_key a.score == order_key b.score
        then ltb a.id b.id
        else ltb (order_key b.score) (order_key a.score))
unfolding is_better
is_better_key a b p q =
    ground (arith, float_eq_key a.score b.score p q, float_gt_key a.score b.score p q)

pub is_better_ranking : IsRanking is_better IsScored
is_better_ranking = record {
  asym = λ a b p q h. ground (arith, is_better_key a b p q, is_better_key b a q p);
  not_trans = λ a b c p q r h k.
      ground (arith, is_better_key a b p q, is_better_key b c q r, is_better_key a c p r);
}
