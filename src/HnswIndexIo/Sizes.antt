-- ===== src/HnswIndexIo/Sizes.antt =====
-- The sizes in src/hnsw_index_io.cpp: what save adds up is the length of the payload that it writes,
-- and lies between the bounds of validate_header.
use native.Mathlib.Nat.{mul-le-mul_right}
use fast_vector.Prelude.{
  ℕ, suc, ◌+◌, ◌*◌, ◌^◌, ◌≤◌, ◌<◌, ◌≡◌, sym, List, [], ◌∷◌, length, ok, >>=-eq-ok, arith,
  length-append, inl, inr,
}
use fast_vector.Bytes.{checked_multiply, checked_add}
use fast_vector.Bytes.Codec.{checked_multiply_exact, checked_add_exact}
use fast_vector.HnswIndex.{Node}
use fast_vector.HnswIndexIo.Save.{levels_bytes, graph_bytes, level_words, graph_words}
use fast_vector.HnswIndexIo.Layout.{GoodLevels, GoodNodes}

pub checked_add-eq-ok :
    (a b : ℕ) {c : ℕ}
    → a < 2 ^ 64
    → b < 2 ^ 64
    → checked_add a b ≡ ok c
    → (c ≡ a + b) × (c < 2 ^ 64)
checked_add-eq-ok a b {c} ha hb h = elim (checked_add_exact a b ha hb) [
  | inl (fits, e) ↦ let same : a + b ≡ c = cc in (sym same, omega arith)
  | inr (over, e) ↦ absurd (cc)
]

pub checked_multiply-eq-ok :
    (a b : ℕ) {c : ℕ}
    → a < 2 ^ 64
    → b < 2 ^ 64
    → checked_multiply a b ≡ ok c
    → (c ≡ a * b) × (c < 2 ^ 64)
checked_multiply-eq-ok a b {c} ha hb h = elim (checked_multiply_exact a b ha hb) [
  | inl (fits, e) ↦ let same : a * b ≡ c = cc in (sym same, rw (← same) fits)
  | inr (over, e) ↦ absurd (cc)
]

pub checked_add_ok : (a b : ℕ) → a + b < 2 ^ 64 → checked_add a b ≡ ok (a + b)
checked_add_ok a b h = elim (checked_add_exact a b (omega arith) (omega arith)) [
  | inl (fits, e) ↦ e
  | inr (over, e) ↦ absurd (omega arith)
]

pub checked_multiply_ok :
    (a b : ℕ) → a < 2 ^ 64 → b < 2 ^ 64 → a * b < 2 ^ 64 → checked_multiply a b ≡ ok (a * b)
checked_multiply_ok a b ha hb h = elim (checked_multiply_exact a b ha hb) [
  | inl (fits, e) ↦ e
  | inr (over, e) ↦ absurd (omega arith)
]

levels_bytes-eq-ok :
    (connections count node layer p : ℕ) (levels : List (List ℕ)) {q : ℕ}
    → GoodLevels connections count node layer levels
    → count < 2 ^ 32
    → p < 2 ^ 64
    → levels_bytes p levels ≡ ok q
    → (q ≡ p + 4 * length (level_words levels)) × (q < 2 ^ 64)
unfolding levels_bytes level_words
levels_bytes-eq-ok connections count node layer p [] {q} g small hp h =
    let same : p ≡ q = cc in (rw (← same) (omega arith), rw (← same) hp)
levels_bytes-eq-ok connections count node layer p (ns ∷ rest) {q} g small hp h =
    let (a, e₁, r₁) = >>=-eq-ok (checked_add p 4) _ h in
    let (b, e₂, r₂) = >>=-eq-ok (checked_multiply (length ns) 4) _ r₁ in
    let (c, e₃, r₃) = >>=-eq-ok (checked_add a b) _ r₂ in
    let (a', a<) = checked_add-eq-ok p 4 hp (omega arith) e₁ in
    let (b', b<) = checked_multiply-eq-ok (length ns) 4 (omega (arith, g.1)) (omega arith) e₂ in
    let (c', c<) = checked_add-eq-ok a b a< b< e₃ in
    let (d', d<) = levels_bytes-eq-ok connections count node (suc layer) c rest g.4 small c< r₃ in
    (omega (arith, a', b', c', d', length-append ns (level_words rest)), d<)

pub graph_bytes-eq-ok :
    (connections count top node p : ℕ) (nodes : List Node) {q : ℕ}
    → GoodNodes connections count top node nodes
    → count < 2 ^ 32
    → p < 2 ^ 64
    → graph_bytes p nodes ≡ ok q
    → (q ≡ p + 4 * length (graph_words nodes)) × (q < 2 ^ 64)
unfolding graph_bytes graph_words
graph_bytes-eq-ok connections count top node p [] {q} g small hp h =
    let same : p ≡ q = cc in (rw (← same) (omega arith), rw (← same) hp)
graph_bytes-eq-ok connections count top node p (n ∷ rest) {q} g small hp h =
    let (a, e₁, r₁) = >>=-eq-ok (checked_add p 4) _ h in
    let (b, e₂, r₂) = >>=-eq-ok (levels_bytes a n.levels) _ r₁ in
    let (a', a<) = checked_add-eq-ok p 4 hp (omega arith) e₁ in
    let (b', b<) = levels_bytes-eq-ok connections count node 0 a n.levels g.0 small a< e₂ in
    let (d', d<) = graph_bytes-eq-ok connections count top (suc node) b rest g.4 small b< r₂ in
    (omega (arith, a', b', d', length-append (level_words n.levels) (graph_words rest)), d<)

level_words_bounds :
    (connections count node layer : ℕ) (levels : List (List ℕ))
    → GoodLevels connections count node layer levels
    → (length levels ≤ length (level_words levels))
      × (length (level_words levels) ≤ length levels * (1 + connections * 2))
unfolding level_words
level_words_bounds connections count node layer [] g = (omega arith, omega arith)
level_words_bounds connections count node layer (ns ∷ rest) g =
    let (low, high) = level_words_bounds connections count node (suc layer) rest g.4 in
    let limit : length ns ≤ connections * 2 = ground (arith, g.0) in
    let step : suc (length rest) * (1 + connections * 2)
        ≡ (1 + connections * 2) + length rest * (1 + connections * 2) =
      grind arith in
    (
      omega (arith, low, length-append ns (level_words rest)),
      omega (arith, high, limit, step, length-append ns (level_words rest)),
    )

pub graph_words_bounds :
    (connections count top node : ℕ) (nodes : List Node)
    → GoodNodes connections count top node nodes
    → (length nodes * 2 ≤ length (graph_words nodes))
      × (length (graph_words nodes) ≤ length nodes * (1 + 64 * (1 + connections * 2)))
unfolding graph_words
graph_words_bounds connections count top node [] g = (omega arith, omega arith)
graph_words_bounds connections count top node (n ∷ rest) g =
    let (low, high) = graph_words_bounds connections count top (suc node) rest g.4 in
    let (low', high') = level_words_bounds connections count node 0 n.levels g.0 in
    let most : length n.levels * (1 + connections * 2) ≤ 64 * (1 + connections * 2) =
      mul-le-mul_right (1 + connections * 2) g.3 in
    let step : suc (length rest) * (1 + 64 * (1 + connections * 2))
        ≡ (1 + 64 * (1 + connections * 2)) + length rest * (1 + 64 * (1 + connections * 2)) =
      grind arith in
    (
      omega (arith, low, low', g.1, length-append (level_words n.levels) (graph_words rest)),
      omega
          (arith, high, high', most, step, length-append (level_words n.levels) (graph_words rest)),
    )
