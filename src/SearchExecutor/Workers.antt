-- ===== src/SearchExecutor/Workers.antt =====
-- The invariant of the scheduler under a worker's steps and under schedules
-- (src/search_executor.cpp).
use mathlib.Core.Path.{subst}
use fast_vector.Prelude.{
  ℕ, suc, ◌+◌, ◌-◌, ◌≡◌, refl, sym, ap, Bool, false, List, [], ◌∷◌, Option, none, some, length,
  get_elem?, set, replicate, max, if◌then◌else◌, Result, ok, err, not_stopped, arith, Bool-cases,
  inl, inr, length-set, length-replicate,
}
use fast_vector.VectorStore.{SnapshotSearchResult}
use fast_vector.SearchExecutor.{
  SearchTask, SearchExecutor, SearchExecutorConfig, Phase, idle, claimed, executing, reporting,
  exited, finish_locked, claim_front, claim_from, begin_task, begin_checked, work_at, zero_stats,
  end_task, report_task, work, step, run, Event, submits, cancels, stops, works, create, check_task,
}
use fast_vector.SearchExecutor.Places.{
  hit, queued_at, held_by, busy_in, held_at-set, busy-set, busy-le, busy-replicate,
  held_at-replicate,
}
use fast_vector.SearchExecutor.Invariant.{Books, IsValid, finish-Books}
use fast_vector.SearchExecutor.Steps.{submit-IsValid, cancel-IsValid, stop-IsValid}

module _ (s : SearchExecutor) (worker : ℕ) (old : Phase)
    (stands : get_elem? s.threads worker ≡ some old) where
  -- A worker that goes on with the task that it has, or stays without one.
  rephased-Books :
      (p : Phase) (started : ℕ)
      → busy_in p ≡ busy_in old
      → ((h : ℕ) → held_by h p ≡ held_by h old)
      → Books s []
      → Books
          (record s {
            threads = set s.threads worker p;
            stats = record (s.stats) { started = started };
          })
          []
  rephased-Books p started same held v = record {
    balanced = v.balanced;
    classified = v.classified;
    answered = v.answered;
    queued_right = v.queued_right;
    queue_peak = v.queue_peak;
    queue_fits = v.queue_fits;
    pool = omega (arith, v.pool, length-set s.threads worker p);
    running_right = omega (arith, v.running_right, busy-set s.threads worker old p stands, same);
    running_peak = v.running_peak;
    running_fits = v.running_fits;
    issued = v.issued;
    one_place =
        λ h. omega (arith, v.one_place h, held_at-set h s.threads worker old p stands, held h);
  }

  -- A free worker takes the front of the queue.
  claimed-Books :
      (t : SearchTask) (rest : List SearchTask) (now : ℕ)
      → busy_in old ≡ 0
      → ((h : ℕ) → held_by h old ≡ 0)
      → s.queue ≡ t ∷ rest
      → Books s []
      → Books
          (record s {
            queue = rest;
            threads = set s.threads worker (claimed t now);
            stats = record (s.stats) {
              queued = length rest;
              running = s.stats.running + 1;
              peak_running = max s.stats.peak_running (s.stats.running + 1);
            };
          })
          []
  claimed-Books t rest now free none_held e v =
      let shorter : length s.queue ≡ suc (length rest) = ap length e in
      let b = busy-set s.threads worker old (claimed t now) stands in
      let l = length-set s.threads worker (claimed t now) in
      let le = busy-le (set s.threads worker (claimed t now)) in
      record {
        balanced = omega (arith, v.balanced);
        classified = v.classified;
        answered = v.answered;
        queued_right = refl;
        queue_peak = omega (arith, v.queue_peak);
        queue_fits = v.queue_fits;
        pool = omega (arith, v.pool);
        running_right = omega (arith, v.running_right);
        running_peak = omega arith;
        running_fits = omega (arith, v.running_fits, v.running_right, v.pool);
        issued = v.issued;
        one_place = λ h. omega (
          arith,
          v.one_place h,
          held_at-set h s.threads worker old (claimed t now) stands,
          none_held h,
          ap (queued_at h) e,
        );
      }

  -- The worker lets its task go, to be answered.
  released-Books :
      (t : SearchTask)
      → busy_in old ≡ 1
      → ((h : ℕ) → held_by h old ≡ hit h t)
      → Books s []
      → Books
          (record s {
            threads = set s.threads worker idle;
            stats = record (s.stats) { running = s.stats.running - 1 };
          })
          (t ∷ [])
  released-Books t has held v =
      let b = busy-set s.threads worker old idle stands in
      record {
        balanced = omega (arith, v.balanced, v.running_right);
        classified = v.classified;
        answered = v.answered;
        queued_right = v.queued_right;
        queue_peak = v.queue_peak;
        queue_fits = v.queue_fits;
        pool = omega (arith, v.pool, length-set s.threads worker idle);
        running_right = omega (arith, v.running_right);
        running_peak = omega (arith, v.running_peak);
        running_fits = v.running_fits;
        issued = v.issued;
        one_place = λ h.
            omega (arith, v.one_place h, held_at-set h s.threads worker old idle stands, held h);
      }

nothing_held : (h : ℕ) → held_by h idle ≡ 0
nothing_held h = refl

claim-IsValid :
    (queue : List SearchTask) (s : SearchExecutor) (worker now : ℕ)
    → s.queue ≡ queue
    → get_elem? s.threads worker ≡ some idle
    → IsValid s
    → IsValid (claim_from s worker now queue)
unfolding claim_from
claim-IsValid [] s worker now e stands v = elim (Bool-cases s.stopping) [
  | inr on ↦
      subst (λ b. IsValid (if b then record s { threads = set s.threads worker exited } else s))
        (sym on) v
  | inl off ↦
      subst (λ b. IsValid (if b then record s { threads = set s.threads worker exited } else s))
        (sym off)
        (record {
          books =
              rephased-Books s worker idle stands exited s.stats.started refl (λ h. refl) v.books;
          drained = v.drained;
        })
]
claim-IsValid (t ∷ rest) s worker now e stands v = record {
  books = claimed-Books s worker idle stands t rest now refl (λ h. refl) e v.books;
  drained = λ h. absurd (omega (arith, v.drained h, ap length e));
}

begin-IsValid :
    (checked : Result (Unit {0})) (s : SearchExecutor) (worker : ℕ) (t : SearchTask) (at : ℕ)
    → get_elem? s.threads worker ≡ some (claimed t at)
    → IsValid s
    → IsValid (begin_checked s worker t at checked)
unfolding begin_checked
begin-IsValid (ok u) s worker t at stands v = record {
  books =
      rephased-Books s worker (claimed t at) stands (executing t at) (s.stats.started + 1) refl
        (λ h. refl) v.books;
  drained = v.drained;
}
begin-IsValid (err e) s worker t at stands v = record {
  books =
      rephased-Books s worker (claimed t at) stands (reporting t _) s.stats.started refl (λ h. refl)
        v.books;
  drained = v.drained;
}

work-IsValid :
    (phase : Phase) (s : SearchExecutor) (worker now : ℕ) (answer : Result SnapshotSearchResult)
    → get_elem? s.threads worker ≡ some phase
    → IsValid s
    → IsValid (work s worker phase now answer)
unfolding work
work-IsValid idle s worker now answer stands v =
    unfold claim_front in claim-IsValid s.queue s worker now refl stands v
work-IsValid (claimed t at) s worker now answer stands v =
    unfold begin_task in begin-IsValid (check_task s t now) s worker t at stands v
work-IsValid (executing t at) s worker now answer stands v =
    unfold end_task in
    record {
      books =
          rephased-Books s worker (executing t at) stands (reporting t _) s.stats.started refl
            (λ h. refl) v.books;
      drained = v.drained;
    }
work-IsValid (reporting t o) s worker now answer stands v =
    unfold report_task in
    record {
      books =
          finish-Books _ t [] o
            (released-Books s worker (reporting t o) stands t refl (λ h. refl) v.books);
      drained = unfold finish_locked in v.drained;
    }
work-IsValid exited s worker now answer stands v = v

work_at-IsValid :
    (phase : Option Phase) (s : SearchExecutor) (worker now : ℕ)
    (answer : Result SnapshotSearchResult)
    → get_elem? s.threads worker ≡ phase
    → IsValid s
    → IsValid (work_at s worker phase now answer)
unfolding work_at
work_at-IsValid none s worker now answer stands v = v
work_at-IsValid (some phase) s worker now answer stands v =
    work-IsValid phase s worker now answer stands v

-- Every event keeps the invariant of the scheduler: the counters add up, the queue and the pool
-- keep their limits and peaks, a stopped scheduler has no waiting task, and each admitted task is
-- in exactly one place: waiting, with one worker, or answered once.
pub step-IsValid : (s : SearchExecutor) (e : Event) → IsValid s → IsValid (step s e)
unfolding step
step-IsValid s (submits query k deadline expected now) v =
    submit-IsValid s query k deadline expected now v
step-IsValid s (cancels h reason now) v = cancel-IsValid s h reason now v
step-IsValid s (stops now) v = stop-IsValid s now v
step-IsValid s (works worker now answer) v =
    work_at-IsValid (get_elem? s.threads worker) s worker now answer refl v

pub run-IsValid : (es : List Event) (s : SearchExecutor) → IsValid s → IsValid (run s es)
unfolding run
run-IsValid [] s v = v
run-IsValid (e ∷ es) s v = run-IsValid es (step s e) (step-IsValid s e v)

pub create-IsValid :
    (has_store : Bool) (c : SearchExecutorConfig) {s : SearchExecutor}
    → create has_store c ≡ some s
    → IsValid s
unfolding create
create-IsValid has_store c {s} h = subst IsValid created (record {
  books = record {
    balanced = omega arith;
    classified = omega arith;
    answered = refl;
    queued_right = refl;
    queue_peak = omega arith;
    queue_fits = omega arith;
    pool = length-replicate c.workers idle;
    running_right = sym (busy-replicate c.workers);
    running_peak = omega arith;
    running_fits = omega arith;
    issued = refl;
    one_place = λ h. ground (arith, held_at-replicate h c.workers);
  };
  drained = λ e. refl;
})
  where
    created :
        record {
          config = c;
          stopping = false;
          queue = [];
          threads = replicate c.workers idle;
          stats = zero_stats;
          reasons = λ h. not_stopped;
          next_cancellation = 0;
          fulfilled = [];
        }
        ≡ s
    created = ground arith
