-- ===== src/Prelude/Counting.antt =====
-- How many numbers below a bound pass a test, as a measure of loops over the nodes of a graph.
use Prim.Native.Nat.{ℕ, zero, suc, ◌+◌, ◌≤◌, ◌<◌}
use mathlib.Core.Path.{◌≡◌}
use mathlib.Core.Bool.{Bool, true, false}
use native.Mathlib.Omega.{arith}
use fast_vector.Prelude.Tests.{◌==◌, if◌then◌else◌, Bool-cases}
use mathlib.Core.Logic.{inl, inr}

abbrev pub count_below : (ℕ → Bool) → ℕ → ℕ
count_below p zero = 0
count_below p (suc n) = (if p n then 1 else 0) + count_below p n

pub count_below-le : (p : ℕ → Bool) (n : ℕ) → count_below p n ≤ n
count_below-le p zero = omega arith
count_below-le p (suc n) = ground (arith, count_below-le p n)

pub count_below_mono :
    (p q : ℕ → Bool) (n : ℕ)
    → ((k : ℕ) → q k ≡ true → p k ≡ true)
    → count_below q n ≤ count_below p n
count_below_mono p q zero h = omega arith
count_below_mono p q (suc n) h = elim (Bool-cases (q n)) [
  | inl e ↦ rw (e, h n e) (omega (arith, count_below_mono p q n h))
  | inr e ↦ rw e (ground (arith, count_below_mono p q n h))
]

-- A test that implies another, and fails where that passes.
pub count_below-lt :
    (p q : ℕ → Bool) (n j : ℕ)
    → ((k : ℕ) → q k ≡ true → p k ≡ true)
    → j < n
    → p j ≡ true
    → q j ≡ false
    → count_below q n < count_below p n
count_below-lt p q zero j h l e f = absurd (omega arith)
count_below-lt p q (suc n) j h l e f = elim (Bool-cases (j == n)) [
  | inl s ↦
      let same : j ≡ n = ground arith in
      let here : p n ≡ true = rw (← same) e in
      let gone : q n ≡ false = rw (← same) f in
      rw (here, gone) (omega (arith, count_below_mono p q n h))
  | inr s ↦ elim (Bool-cases (q n)) [
    | inl g ↦ rw (g, h n g) (omega (arith, count_below-lt p q n j h (ground arith) e f))
    | inr g ↦ rw g (ground (arith, count_below-lt p q n j h (ground arith) e f))
  ]
]
