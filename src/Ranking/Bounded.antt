-- ===== src/Ranking/Bounded.antt =====
-- The bounded queue of candidates of FlatIndex::search (src/flat_index.cpp), and the specification
-- of a search.
use mathlib.Core.List.{Perm, perm_middle}
use mathlib.Core.List.Perm
use native.Mathlib.Decide.{dec_lt}
use fast_vector.Prelude.{
  ℕ, ◌+◌, ◌≤◌, ◌<◌, ◌≡◌, refl, Bool, true, false, List, [], ◌∷◌, ◌++◌, none, some, length, All,
  arith, ltb, if◌then◌else◌, Bool-cases, inl, inr, min, lt→ltb, ltb→lt,
}
use fast_vector.Ranking.{push_by, top?, pop, sort_by, insert_by}
use fast_vector.Ranking.Order.{
  IsRanking, Sorted, insert_by-perm, insert_by-Sorted, length-insert_by, All-insert_by,
  sort_by-perm, sort_by-Sorted, length-sort_by, All-sort_by,
}

module _ {A : Type 0} (better : A → A → Bool) where
  -- `top()` is reached with a full queue, so `none` is reached only for the limit 0.
  unfoldable pub offer : ℕ → A → List A → List A
  unfolding push_by
  offer n x queue = if ltb (length queue) n then push_by better x queue else elim (top? queue) [
    | none ↦ queue
    | some worst ↦ if better x worst then push_by better x (pop queue) else queue
  ]

  -- No element of the second list is better than one of the first.
  abbrev pub Dominates : List A → List A → Type 0
  Dominates kept rest = All (λ r. All (λ q. better r q ≡ false) kept) rest

  abbrev pub worse_first : A → A → Bool
  worse_first a b = better b a

  -- The specification of a search: the `n` best of `all`, best first, with the others as `rest`.
  pub record IsTopOf (n : ℕ) (all result rest : List A) : Type 0 where
    pub parts : Perm (result ++ rest) all
    pub ordered : Sorted better result
    pub dominated : Dominates result rest
    pub counted : length result ≡ min n (length all)

  module _ (P : A → Type 0) where
    -- The queue holds `n` best elements of `seen`, worst first; `rest` are the others.
    pub record IsBest (n : ℕ) (seen queue rest : List A) : Type 0 where
      pub parts : Perm (queue ++ rest) seen
      pub counted : length queue + length rest ≡ length seen
      pub ordered : Sorted worse_first queue
      pub dominated : Dominates queue rest
      pub bounded : length queue ≤ n
      pub full : length queue < n → length rest ≡ 0
      pub ranked : All P queue
      pub rest_ranked : All P rest

    pub IsBest-nil : (n : ℕ) → IsBest n [] [] []
    IsBest-nil n = record {
      parts = Perm.refl [];
      counted = refl;
      ordered = tt;
      dominated = tt;
      bounded = omega arith;
      full = λ h. refl;
      ranked = tt;
      rest_ranked = tt;
    }

  Dominates-nothing : (kept rest : List A) → length rest ≡ 0 → Dominates kept rest
  Dominates-nothing kept [] h = tt
  Dominates-nothing kept (x ∷ xs) h = absurd (omega arith)

  module _ (P : A → Type 0) (r : IsRanking better P) where
    worse_ranking : IsRanking worse_first P
    worse_ranking = record {
      asym = λ x y px py h. r.asym y x py px h;
      not_trans = λ x y z px py pz h k. r.not_trans z y x pz py px k h;
    }

    -- What is no better than the worst of the queue is no better than the others.
    below_worst :
        (x w : A) (ws : List A)
        → P x
        → P w
        → All P ws
        → better x w ≡ false
        → All (λ y. better w y ≡ false) ws
        → All (λ y. better x y ≡ false) ws
    below_worst x w [] px pw ps e h = tt
    below_worst x w (y ∷ ys) px pw ps e h =
        (r.not_trans x w y px pw ps.0 e h.0, below_worst x w ys px pw ps.1 e h.1)

    -- The worst of the queue gives way to `x`.
    Dominates-swap :
        (x w : A) (ws rest : List A)
        → P x
        → P w
        → All P rest
        → better w x ≡ false
        → Dominates (w ∷ ws) rest
        → Dominates (insert_by worse_first x ws) rest
    Dominates-swap x w ws [] px pw ps e h = tt
    Dominates-swap x w ws (y ∷ ys) px pw ps e h = (
      All-insert_by worse_first (λ q. better y q ≡ false) x ws
          (r.not_trans y w x ps.0 pw px h.0.0 e) h.0.1,
      Dominates-swap x w ws ys px pw ps.1 e h.1,
    )

    pushed-IsBest :
        (n : ℕ) (seen queue rest : List A) (x : A)
        → IsBest P n seen queue rest
        → P x
        → length queue < n
        → IsBest P n (x ∷ seen) (insert_by worse_first x queue) rest
    pushed-IsBest n seen queue rest x v px room = record {
      parts = Perm.trans (Perm.append_right rest (insert_by-perm _ x queue)) (Perm.cons x v.parts);
      counted = omega (arith, length-insert_by worse_first x queue, v.counted);
      ordered = insert_by-Sorted _ P worse_ranking x queue px v.ranked v.ordered;
      dominated = Dominates-nothing _ rest (v.full room);
      bounded = omega (arith, length-insert_by worse_first x queue);
      full = λ h. v.full room;
      ranked = All-insert_by _ P x queue px v.ranked;
      rest_ranked = v.rest_ranked;
    }

    replaced-IsBest :
        (n : ℕ) (seen ws rest : List A) (w x : A)
        → IsBest P n seen (w ∷ ws) rest
        → P x
        → better x w ≡ true
        → n ≤ length (w ∷ ws)
        → IsBest P n (x ∷ seen) (insert_by worse_first x ws) (w ∷ rest)
    replaced-IsBest n seen ws rest w x v px e h =
        let e' = r.asym x w px v.ranked.0 e in
        record {
          parts =
              Perm.trans (Perm.append_right (w ∷ rest) (insert_by-perm _ x ws))
                (Perm.cons x (Perm.trans (perm_middle ws rest) v.parts));
          counted = omega (arith, length-insert_by worse_first x ws, v.counted);
          ordered = insert_by-Sorted _ P worse_ranking x ws px v.ranked.1 v.ordered.1;
          dominated = (
            All-insert_by _ (λ q. better w q ≡ false) x ws e' v.ordered.0,
            Dominates-swap x w ws rest px v.ranked.0 v.rest_ranked e' v.dominated,
          );
          bounded = omega (arith, length-insert_by worse_first x ws, v.bounded);
          full = λ k. absurd (omega (arith, length-insert_by worse_first x ws));
          ranked = All-insert_by _ P x ws px v.ranked.1;
          rest_ranked = (v.ranked.0, v.rest_ranked);
        }

    refused-IsBest :
        (n : ℕ) (seen ws rest : List A) (w x : A)
        → IsBest P n seen (w ∷ ws) rest
        → P x
        → better x w ≡ false
        → n ≤ length (w ∷ ws)
        → IsBest P n (x ∷ seen) (w ∷ ws) (x ∷ rest)
    refused-IsBest n seen ws rest w x v px e h = record {
      parts = Perm.trans (perm_middle (w ∷ ws) rest) (Perm.cons x v.parts);
      counted = omega (arith, v.counted);
      ordered = v.ordered;
      dominated = ((e, below_worst x w ws px v.ranked.0 v.ranked.1 e v.ordered.0), v.dominated);
      bounded = v.bounded;
      full = λ k. absurd (omega arith);
      ranked = v.ranked;
      rest_ranked = (px, v.rest_ranked);
    }

    -- One offer keeps the queue the best of what it was offered.
    pub offer-IsBest :
        (n : ℕ) (seen queue rest : List A) (x : A)
        → 0 < n
        → IsBest P n seen queue rest
        → P x
        → (rest' : List A) × IsBest P n (x ∷ seen) (offer n x queue) rest'
    unfolding offer
    offer-IsBest n seen [] rest x pos v px =
        rw (lt→ltb 0 n pos) (rest, pushed-IsBest n seen [] rest x v px pos)
    offer-IsBest n seen (w ∷ ws) rest x pos v px = elim (Bool-cases (ltb (length (w ∷ ws)) n)) [
      | inl room ↦ rw room (rest, pushed-IsBest n seen (w ∷ ws) rest x v px (ltb→lt _ _ room))
      | inr none_left ↦ elim (Bool-cases (better x w)) [
        | inl e ↦
            rw (none_left, e) (w ∷ rest, replaced-IsBest n seen ws rest w x v px e (ground arith))
        | inr e ↦
            rw (none_left, e) (x ∷ rest, refused-IsBest n seen ws rest w x v px e (ground arith))
      ]
    ]

    -- The queue sorted is the answer.
    pub sort-IsTopOf :
        (n : ℕ) (seen queue rest : List A)
        → IsBest P n seen queue rest
        → IsTopOf n seen (sort_by better queue) rest
    sort-IsTopOf n seen queue rest v = record {
      parts = Perm.trans (Perm.append_right rest (sort_by-perm better queue)) v.parts;
      ordered = sort_by-Sorted better P r queue v.ranked;
      dominated = dominates_sorted rest v.dominated;
      counted = counts (length queue) (length rest) (length-sort_by better queue) v.counted;
    }
      where
        dominates_sorted : (ys : List A) → Dominates queue ys → Dominates (sort_by better queue) ys
        dominates_sorted [] h = tt
        dominates_sorted (y ∷ ys) h =
            (All-sort_by better (λ q. better y q ≡ false) queue h.0, dominates_sorted ys h.1)

        counts :
            (a b : ℕ)
            → length (sort_by better queue) ≡ length queue
            → length queue + length rest ≡ length seen
            → length (sort_by better queue) ≡ min n (length seen)
        counts a b e f = elim (dec_lt (length queue) n) [
          | yes h ↦ omega (arith, v.full h, v.bounded)
          | no h ↦ omega (arith, v.bounded)
        ]
