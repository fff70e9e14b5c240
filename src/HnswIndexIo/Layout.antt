-- ===== src/HnswIndexIo/Layout.antt =====
-- What the loops of load_hnsw_index (src/hnsw_index_io.cpp) have checked of the sections they read.
use mathlib.Core.Path.{subst}
use fast_vector.Prelude.{
  ℕ, zero, suc, ◌+◌, ◌*◌, ◌≤◌, ◌<◌, ◌≡◌, ◌≢◌, ◌∙◌, refl, ap, false, ◌||◌, List, [], ◌∷◌, ◌++◌,
  length, get_or, ltb, leb, max, ◌==◌, if◌then◌else◌, ok, throw_if, throw_if-eq-ok, >>=-eq-ok,
  arith, All, All-append, length-append,
}
use fast_vector.HnswIndex.{Node, empty_node}
use fast_vector.HnswIndexIo.{Header, Reader, read_integer, maximum_level}
use fast_vector.HnswIndexIo.Load.{
  contains, read_edges, read_layers, read_nodes, ReadGraph, degree_limit, check_room,
}

-- No number twice.
abbrev pub IsDistinct : List ℕ → Type 0
IsDistinct [] = Unit {0}
IsDistinct (x ∷ xs) = (contains x xs ≡ false) × IsDistinct xs

IsDistinct-snoc :
    (xs : List ℕ) (x : ℕ) → IsDistinct xs → contains x xs ≡ false → IsDistinct (xs ++ x ∷ [])
IsDistinct-snoc [] x d h = (refl, tt)
IsDistinct-snoc (y ∷ ys) x d h =
    (contains-snoc ys x y d.0 (ground arith), IsDistinct-snoc ys x d.1 (ground arith))
  where
    contains-snoc :
        (zs : List ℕ) (x y : ℕ)
        → contains y zs ≡ false
        → (y == x) ≡ false
        → contains y (zs ++ x ∷ []) ≡ false
    contains-snoc [] x y h e = ground arith
    contains-snoc (z ∷ zs) x y h e = ground (arith, contains-snoc zs x y (ground arith) e)

-- A neighbour of `node` in a graph of `count` nodes.
abbrev pub IsNeighbor : ℕ → ℕ → ℕ → Type 0
IsNeighbor node count n = (n < count) × (n ≢ node)

pub read_edges-eq-ok :
    (left node count : ℕ) (seen : List ℕ) (r : Reader) {ns : List ℕ} {r' : Reader}
    → All (IsNeighbor node count) seen
    → IsDistinct seen
    → read_edges left node count seen r ≡ ok (ns, r')
    → All (IsNeighbor node count) ns × IsDistinct ns × (length ns ≡ length seen + left)
unfolding read_edges
read_edges-eq-ok zero node count seen r {ns} a d h =
    let e : seen ≡ ns = cc in (rw (← e) a, rw (← e) d, rw (← e) (omega arith))
read_edges-eq-ok (suc left) node count seen r {ns} {r'} a d h =
    let ((n, r₁), read, rest) = >>=-eq-ok (read_integer 4 r) _ h in
    let (u, inside, rest₂) = >>=-eq-ok (throw_if (leb count n) _) _ rest in
    let (v, other, rest₃) = >>=-eq-ok (throw_if (n == node) _) _ rest₂ in
    let (w, fresh, rest₄) = >>=-eq-ok (throw_if (contains n seen) _) _ rest₃ in
    let below = throw_if-eq-ok _ _ inside in
    let apart = throw_if-eq-ok _ _ other in
    let one : IsNeighbor node count n = (ground arith, ground arith) in
    let (a', d', l) =
      read_edges-eq-ok left node count (seen ++ n ∷ []) r₁ (All-append _ seen (n ∷ []) a (one, tt))
        (IsDistinct-snoc seen n d (throw_if-eq-ok _ _ fresh)) rest₄ in
    (a', d', omega (arith, l, length-append seen (n ∷ [])))

-- How many neighbours a layer may have.
abbrev pub layer_limit : ℕ → ℕ → ℕ
layer_limit connections layer = if layer == 0 then connections * 2 else connections

-- The lists of one node, from a layer on.
abbrev pub GoodLevels : (connections count node layer : ℕ) → List (List ℕ) → Type 0
GoodLevels connections count node layer [] = Unit {0}
GoodLevels connections count node layer (ns ∷ rest) =
    (length ns ≤ layer_limit connections layer)
    × (length ns < count)
    × All (IsNeighbor node count) ns
    × IsDistinct ns
    × GoodLevels connections count node (suc layer) rest

GoodLevels-snoc :
    (connections count node layer : ℕ) (levels : List (List ℕ)) (ns : List ℕ)
    → GoodLevels connections count node layer levels
    → length ns ≤ layer_limit connections (layer + length levels)
    → length ns < count
    → All (IsNeighbor node count) ns
    → IsDistinct ns
    → GoodLevels connections count node layer (levels ++ ns ∷ [])
GoodLevels-snoc connections count node layer [] ns g l b a d = (ground arith, b, a, d, tt)
GoodLevels-snoc connections count node layer (m ∷ ms) ns g l b a d = (
  g.0,
  g.1,
  g.2,
  g.3,
  GoodLevels-snoc connections count node (suc layer) ms ns g.4 (ground arith) b a d,
)

pub read_layers-eq-ok :
    (left layer node total : ℕ) (h : Header) (levels : List (List ℕ)) (r : Reader)
    {ms : List (List ℕ)} {r' : Reader}
    → length levels ≡ layer
    → GoodLevels h.max_connections h.count node 0 levels
    → read_layers left layer node total h levels r ≡ ok (ms, r')
    → GoodLevels h.max_connections h.count node 0 ms × (length ms ≡ length levels + left)
unfolding read_layers
read_layers-eq-ok zero layer node total h levels r {ms} l g e =
    let same : levels ≡ ms = cc in (rw (← same) g, rw (← same) (omega arith))
read_layers-eq-ok (suc left) layer node total h levels r {ms} {r'} l g e =
    let ((degree, r₁), read, rest) = >>=-eq-ok (read_integer 4 r) _ e in
    let (u, bounded, rest₂) =
      >>=-eq-ok (throw_if (ltb (degree_limit h layer) degree || leb h.count degree) _) _ rest in
    let (v, room, rest₃) = >>=-eq-ok (check_room h total degree r₁) _ rest₂ in
    let ((ns, r₂), edges, rest₄) = >>=-eq-ok (read_edges degree node h.count [] r₁) _ rest₃ in
    let (a, d, n) = read_edges-eq-ok degree node h.count [] r₁ tt tt edges in
    let fits : ltb (degree_limit h layer) degree ≡ false =
      ground (arith, throw_if-eq-ok _ _ bounded) in
    let within : length ns ≤ layer_limit h.max_connections (0 + length levels) =
      unfold degree_limit in ground arith in
    let sparse : length ns < h.count = ground (arith, throw_if-eq-ok _ _ bounded) in
    let (g', n') =
      read_layers-eq-ok left (layer + 1) node total h (levels ++ ns ∷ []) r₂
        (omega (arith, l, length-append levels (ns ∷ [])))
        (GoodLevels-snoc h.max_connections h.count node 0 levels ns g within sparse a d) rest₄ in
    (g', omega (arith, n', length-append levels (ns ∷ [])))

-- The lists of the nodes from `node` on. No level lies above `top`.
abbrev pub GoodNodes : (connections count top node : ℕ) → List Node → Type 0
GoodNodes connections count top node [] = Unit {0}
GoodNodes connections count top node (n ∷ rest) =
    GoodLevels connections count node 0 n.levels
    × (1 ≤ length n.levels)
    × (length n.levels ≤ top + 1)
    × (length n.levels ≤ 64)
    × GoodNodes connections count top (suc node) rest

GoodNodes-snoc :
    (connections count top node : ℕ) (nodes : List Node) (n : Node)
    → GoodNodes connections count top node nodes
    → GoodLevels connections count (node + length nodes) 0 n.levels
    → 1 ≤ length n.levels
    → length n.levels ≤ top + 1
    → length n.levels ≤ 64
    → GoodNodes connections count top node (nodes ++ n ∷ [])
GoodNodes-snoc connections count top node [] n g l a b c =
    let e : node + 0 ≡ node = omega arith in (rw e at l, a, b, c, tt)
GoodNodes-snoc connections count top node (m ∷ ms) n g l a b c =
    let e : node + suc (length ms) ≡ suc node + length ms = omega arith in
    (g.0, g.1, g.2, g.3, GoodNodes-snoc connections count top (suc node) ms n g.4 (rw e at l) a b c)

pub read_nodes-eq-ok :
    (left node total : ℕ) (h : Header) (g : ReadGraph) {g' : ReadGraph}
    → length g.graph ≡ node
    → GoodNodes h.max_connections h.count h.top_level 0 g.graph
    → read_nodes left node total h g ≡ ok g'
    → GoodNodes h.max_connections h.count h.top_level 0 g'.graph
      × (length g'.graph ≡ length g.graph + left)
unfolding read_nodes
read_nodes-eq-ok zero node total h g {g'} l v e =
    let same : g ≡ g' = cc in (rw (← same) v, rw (← same) (omega arith))
read_nodes-eq-ok (suc left) node total h g {g'} l v e =
    let ((level, r₁), read, rest) = >>=-eq-ok (read_integer 4 g.reader) _ e in
    let (u, bounded, rest₂) =
      >>=-eq-ok (throw_if (ltb maximum_level level || ltb h.top_level level) _) _ rest in
    let ((levels, r₂), layers, rest₃) =
      >>=-eq-ok (read_layers (level + 1) 0 node total h [] r₁) _ rest₂ in
    let (good, n) = read_layers-eq-ok (level + 1) 0 node total h [] r₁ refl tt layers in
    let fits = throw_if-eq-ok _ _ bounded in
    let at : node ≡ 0 + length g.graph = omega arith in
    let (v', n') =
      read_nodes-eq-ok left (node + 1) total h
        (record {
          graph = g.graph ++ record { levels = levels; deleted = false } ∷ [];
          observed_maximum_level = max g.observed_maximum_level level;
          reader = r₂;
        })
        (omega (arith, l, length-append g.graph (record { levels = levels; deleted = false } ∷ [])))
        (GoodNodes-snoc h.max_connections h.count h.top_level 0 g.graph
          (record { levels = levels; deleted = false }) v
          (subst (λ (k : ℕ). GoodLevels h.max_connections h.count k 0 levels) at good)
          (omega (arith, n)) (ground arith) (ground arith))
        rest₃ in
    (
      v',
      omega (arith, n', length-append g.graph (record { levels = levels; deleted = false } ∷ [])),
    )

-- Nodes with the same lists, whatever their flags.
abbrev pub SameLists : List Node → List Node → Type 0
SameLists [] [] = Unit {0}
SameLists [] (n ∷ ns) = ⊥
SameLists (m ∷ ms) [] = ⊥
SameLists (m ∷ ms) (n ∷ ns) = (m.levels ≡ n.levels) × SameLists ms ns

pub SameLists-refl : (ns : List Node) → SameLists ns ns
SameLists-refl [] = tt
SameLists-refl (n ∷ ns) = (refl, SameLists-refl ns)

pub SameLists-append : (ks ms ns : List Node) → SameLists ms ns → SameLists (ks ++ ms) (ks ++ ns)
SameLists-append [] ms ns h = h
SameLists-append (k ∷ ks) ms ns h = (refl, SameLists-append ks ms ns h)

pub SameLists-trans : (ks ms ns : List Node) → SameLists ks ms → SameLists ms ns → SameLists ks ns
SameLists-trans [] [] [] g h = tt
SameLists-trans [] [] (n ∷ ns) g h = h
SameLists-trans [] (m ∷ ms) ns g h = absurd g
SameLists-trans (k ∷ ks) [] ns g h = absurd g
SameLists-trans (k ∷ ks) (m ∷ ms) [] g h = h
SameLists-trans (k ∷ ks) (m ∷ ms) (n ∷ ns) g h = (g.0 ∙ h.0, SameLists-trans ks ms ns g.1 h.1)

pub GoodNodes-same :
    (connections count top node : ℕ) (ms ns : List Node)
    → SameLists ms ns
    → GoodNodes connections count top node ms
    → GoodNodes connections count top node ns
GoodNodes-same connections count top node [] [] s g = tt
GoodNodes-same connections count top node [] (n ∷ ns) s g = absurd s
GoodNodes-same connections count top node (m ∷ ms) [] s g = absurd s
GoodNodes-same connections count top node (m ∷ ms) (n ∷ ns) (e, s) (a, b, c, d, g) = (
  rw (← e) a,
  rw (← e) b,
  rw (← e) c,
  rw (← e) d,
  GoodNodes-same connections count top (suc node) ms ns s g,
)

pub length-same : (ms ns : List Node) → SameLists ms ns → length ms ≡ length ns
length-same [] [] s = refl
length-same [] (n ∷ ns) s = absurd s
length-same (m ∷ ms) [] s = absurd s
length-same (m ∷ ms) (n ∷ ns) s = ap suc (length-same ms ns s.1)

pub levels-same :
    (ms ns : List Node) (i : ℕ)
    → SameLists ms ns
    → (get_or ms i empty_node).levels ≡ (get_or ns i empty_node).levels
levels-same [] [] i s = refl
levels-same [] (n ∷ ns) i s = absurd s
levels-same (m ∷ ms) [] i s = absurd s
levels-same (m ∷ ms) (n ∷ ns) zero s = s.0
levels-same (m ∷ ms) (n ∷ ns) (suc i) s = levels-same ms ns i s.1
