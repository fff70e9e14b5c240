-- ===== src/SearchContext/Budgets.antt =====
-- Loops that call checkpoint, and stop requests (include/fast_vector/search_context.h).
use mathlib.Core.Path.{subst}
use fast_vector.Prelude.{
  ℕ, zero, suc, ◌+◌, ◌-◌, ◌*◌, ◌%◌, ◌^◌, ◌<◌, ◌≡◌, refl, true, false, List, [], ◌∷◌, foldl, arith,
  Result, ok, err, ◌>>=◌, >>=-eq-ok, ok-injective, ap, interrupted, StopReason, not_stopped, ◌⊎◌,
  inl, inr,
}
use fast_vector.SearchContext.{
  SearchContext, World, Budget, request, is_stop, check, check_now, checkpoint, enabled,
}

-- Without a deadline and a cancellation nothing is looked at.
pub checkpoint_off :
    (c : SearchContext) (w : World) (b : Budget) → enabled c ≡ false → checkpoint c w b ≡ ok b
unfolding checkpoint
checkpoint_off c w b off = ground arith

pub check_now_off :
    (c : SearchContext) (w : World) (b : Budget)
    → enabled c ≡ false
    → check_now c w b ≡ ok (record b { checks = b.checks + 1 })
unfolding check_now enabled
check_now_off c w b off = ground arith

-- A loop over `n` items that calls `checkpoint` for each.
unfoldable pub checkpoints : SearchContext → World → ℕ → Budget → Result Budget
checkpoints c w zero b = ok b
checkpoints c w (suc n) b = do b' ← checkpoint c w b; checkpoints c w n b'

-- What one checkpoint does to the counter and to the number of checks.
checkpoint_moves :
    (c : SearchContext) (w : World) (b : Budget) {b' : Budget}
    → enabled c ≡ true
    → checkpoint c w b ≡ ok b'
    → ((b.remaining ≡ 0)
        × (b'.remaining ≡ (c.check_interval + 2 ^ 64 - 1) % 2 ^ 64)
        × (b'.checks ≡ b.checks + 1))
      ⊎ ((0 < b.remaining) × (b'.remaining ≡ b.remaining - 1) × (b'.checks ≡ b.checks))
unfolding checkpoint check_now
checkpoint_moves c w b on h = ground arith

checkpoint_step :
    (iv r r' t t' : ℕ)
    → 0 < iv
    → iv < 2 ^ 64
    → r < iv
    → ((r ≡ 0) × (r' ≡ (iv + 2 ^ 64 - 1) % 2 ^ 64) × (t' ≡ t + 1))
      ⊎ ((0 < r) × (r' ≡ r - 1) × (t' ≡ t))
    → (iv * t' + r ≡ iv * t + r' + 1) × (r' < iv)
checkpoint_step iv r r' t t' pos fits below (inl (a, b, c)) =
    let e : iv * t' ≡ iv * (t + 1) = ap (λ (n : ℕ). iv * n) c in (omega arith, omega arith)
checkpoint_step iv r r' t t' pos fits below (inr (a, b, c)) =
    let e : iv * t' ≡ iv * t = ap (λ (n : ℕ). iv * n) c in (omega arith, omega arith)

-- A loop with an enabled context looks at the clock once for every check_interval items: after n
-- items that passed, the checks times the interval are n and the rest of the running batch, which
-- is short of a batch. The interval is positive and fits 64 bits, and the counter starts below it.
pub checkpoints-checks :
    (c : SearchContext) (w : World) (n : ℕ) (b : Budget) {b' : Budget}
    → enabled c ≡ true
    → 0 < c.check_interval
    → c.check_interval < 2 ^ 64
    → b.remaining < c.check_interval
    → checkpoints c w n b ≡ ok b'
    → (c.check_interval * b'.checks + b.remaining ≡ c.check_interval * b.checks + b'.remaining + n)
      × (b'.remaining < c.check_interval)
unfolding checkpoints
checkpoints-checks c w zero b {b'} on pos fits below h =
    let e : b ≡ b' = ok-injective h in
    subst
      (λ (x : Budget).
        (c.check_interval * x.checks + b.remaining ≡ c.check_interval * b.checks + x.remaining + 0)
        × (x.remaining < c.check_interval))
      e (omega arith, below)
checkpoints-checks c w (suc n) b {b'} on pos fits below h =
    let (x, first, more) = >>=-eq-ok (checkpoint c w b) _ h in
    let (e, l) =
      checkpoint_step c.check_interval b.remaining x.remaining b.checks x.checks pos fits below
        (checkpoint_moves c w b on first) in
    let (e', l') = checkpoints-checks c w n x on pos fits l more in (omega arith, l')

check_stops :
    (c : SearchContext) (w : World) (b : Budget)
    → c.has_cancellation ≡ true
    → is_stop (w b.checks).reason ≡ true
    → checkpoint c w (record b { remaining = 0 }) ≡ err (interrupted (w b.checks).reason)
unfolding checkpoint check_now check enabled
check_stops c w b has stop = rw (has, stop)

-- A cancellation that the next check sees ends a loop at the latest after the items left of the
-- running batch, with the stored reason. The context has a cancellation, and the loop has more
-- items than are left of the batch.
pub checkpoints_stop :
    (c : SearchContext) (w : World) (r n : ℕ) (t : ℕ)
    → c.has_cancellation ≡ true
    → is_stop (w t).reason ≡ true
    → r < n
    → checkpoints c w n (record { remaining = r; checks = t }) ≡ err (interrupted (w t).reason)
unfolding checkpoints
checkpoints_stop c w r zero t has stop h = absurd (omega arith)
checkpoints_stop c w zero (suc n) t has stop h =
    rw (check_stops c w (record { remaining = 0; checks = t }) has stop)
checkpoints_stop c w (suc r) (suc n) t has stop h =
    rw (passes c w r t has) (checkpoints_stop c w r n t has stop (omega arith))
  where
    passes :
        (c : SearchContext) (w : World) (r t : ℕ)
        → c.has_cancellation ≡ true
        → checkpoint c w (record { remaining = suc r; checks = t })
          ≡ ok (record { remaining = r; checks = t })
    passes c w r t has = unfold checkpoint enabled in ground arith

-- The first request of a stop decides: whatever is requested later, its reason stays.
pub request_first :
    (first : StopReason) (later : List StopReason)
    → is_stop first ≡ true
    → foldl request (request not_stopped first) later ≡ first
unfolding request
request_first first [] stop = refl
request_first first (r ∷ rs) stop = rw stop (request_first first rs stop)
