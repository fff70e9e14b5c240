-- ===== src/SearchExecutor/Places.antt =====
-- Where a task can be: in the queue, with a worker, or answered. Each is a count by cancellation.
use fast_vector.Prelude.{
  ℕ, zero, suc, ◌+◌, ◌≤◌, ◌≡◌, refl, List, [], ◌∷◌, ◌++◌, some, length, get_elem?, set, replicate,
  ◌==◌, if◌then◌else◌, arith, Bool-cases, inl, inr, some-injective,
}
use fast_vector.SearchExecutor.{
  SearchTask, SearchOutcome, Phase, idle, claimed, executing, reporting, exited, find_task,
  without_task,
}

abbrev pub hit : ℕ → SearchTask → ℕ
hit h t = if t.cancellation == h then 1 else 0

abbrev pub queued_at : ℕ → List SearchTask → ℕ
queued_at h [] = 0
queued_at h (t ∷ ts) = hit h t + queued_at h ts

abbrev pub held_by : ℕ → Phase → ℕ
held_by h idle = 0
held_by h (claimed t at) = hit h t
held_by h (executing t at) = hit h t
held_by h (reporting t o) = hit h t
held_by h exited = 0

abbrev pub held_at : ℕ → List Phase → ℕ
held_at h [] = 0
held_at h (p ∷ ps) = held_by h p + held_at h ps

abbrev pub answered_at : ℕ → List (ℕ × SearchOutcome) → ℕ
answered_at h [] = 0
answered_at h (a ∷ as') = (if a.0 == h then 1 else 0) + answered_at h as'

-- Whether a worker has a task, and how many have.
abbrev pub busy_in : Phase → ℕ
busy_in idle = 0
busy_in (claimed t at) = 1
busy_in (executing t at) = 1
busy_in (reporting t o) = 1
busy_in exited = 0

abbrev pub busy : List Phase → ℕ
busy [] = 0
busy (p ∷ ps) = busy_in p + busy ps

pub queued_at-snoc :
    (h : ℕ) (ts : List SearchTask) (t : SearchTask)
    → queued_at h (ts ++ t ∷ []) ≡ queued_at h ts + hit h t
queued_at-snoc h [] t = omega arith
queued_at-snoc h (u ∷ ts) t = omega (arith, queued_at-snoc h ts t)

pub answered_at-snoc :
    (h : ℕ) (done : List (ℕ × SearchOutcome)) (a : ℕ × SearchOutcome)
    → answered_at h (done ++ a ∷ []) ≡ answered_at h done + (if a.0 == h then 1 else 0)
answered_at-snoc h [] a = omega arith
answered_at-snoc h (b ∷ done) a = omega (arith, answered_at-snoc h done a)

pub held_at-set :
    (h : ℕ) (ps : List Phase) (i : ℕ) (old p : Phase)
    → get_elem? ps i ≡ some old
    → held_at h (set ps i p) + held_by h old ≡ held_at h ps + held_by h p
held_at-set h [] i old p e = cc
held_at-set h (q ∷ ps) zero old p e = let e' : q ≡ old = some-injective e in rw e' (omega arith)
held_at-set h (q ∷ ps) (suc i) old p e = omega (arith, held_at-set h ps i old p e)

pub busy-set :
    (ps : List Phase) (i : ℕ) (old p : Phase)
    → get_elem? ps i ≡ some old
    → busy (set ps i p) + busy_in old ≡ busy ps + busy_in p
busy-set [] i old p e = cc
busy-set (q ∷ ps) zero old p e = let e' : q ≡ old = some-injective e in rw e' (omega arith)
busy-set (q ∷ ps) (suc i) old p e = omega (arith, busy-set ps i old p e)

busy_in-le : (p : Phase) → busy_in p ≤ 1
busy_in-le idle = omega arith
busy_in-le (claimed t at) = omega arith
busy_in-le (executing t at) = omega arith
busy_in-le (reporting t o) = omega arith
busy_in-le exited = omega arith

pub busy-le : (ps : List Phase) → busy ps ≤ length ps
busy-le [] = omega arith
busy-le (p ∷ ps) = omega (arith, busy_in-le p, busy-le ps)

pub busy-replicate : (n : ℕ) → busy (replicate n idle) ≡ 0
busy-replicate zero = refl
busy-replicate (suc n) = omega (arith, busy-replicate n)

pub held_at-replicate : (h n : ℕ) → held_at h (replicate n idle) ≡ 0
held_at-replicate h zero = refl
held_at-replicate h (suc n) = omega (arith, held_at-replicate h n)

pub queued_at-without :
    (h j : ℕ) (ts : List SearchTask) (t : SearchTask)
    → find_task h ts ≡ some t
    → queued_at j (without_task h ts) + hit j t ≡ queued_at j ts
unfolding find_task without_task
queued_at-without h j [] t e = cc
queued_at-without h j (u ∷ ts) t e = elim (Bool-cases (u.cancellation == h)) [
  | inl here ↦ let e' : u ≡ t = some-injective (rw here at e) in rw here (rw e' (omega arith))
  | inr there ↦ rw there (omega (arith, queued_at-without h j ts t (rw there at e)))
]

pub length-without :
    (h : ℕ) (ts : List SearchTask) (t : SearchTask)
    → find_task h ts ≡ some t
    → length (without_task h ts) + 1 ≡ length ts
unfolding find_task without_task
length-without h [] t e = cc
length-without h (u ∷ ts) t e = ground (arith, length-without h ts t)
