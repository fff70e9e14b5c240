-- ===== src/SearchExecutor/Invariant.antt =====
-- The invariant of the scheduler (src/search_executor.cpp).
use fast_vector.Prelude.{
  ℕ, ◌+◌, ◌≤◌, ◌≡◌, refl, true, List, [], ◌∷◌, Option, none, some, length, ltb, if◌then◌else◌,
  Error, StopReason, arith, length-append,
}
use fast_vector.SearchExecutor.{
  SearchTask, SearchOutcome, SearchExecutor, SearchExecutorStats, classify, finish_locked,
  request_stop,
}
use fast_vector.SearchExecutor.Places.{hit, queued_at, held_at, answered_at, busy, answered_at-snoc}

-- The books of the scheduler, while the tasks `flying` are in no place: taken from the queue or from
-- a worker, and not answered yet.
pub record Books (s : SearchExecutor) (flying : List SearchTask) : Type 0 where
  pub balanced :
      s.stats.admitted ≡ length s.queue + s.stats.running + s.stats.completed + length flying
  pub classified :
      s.stats.completed
      ≡ s.stats.succeeded + s.stats.failed + s.stats.cancelled_count + s.stats.expired
  pub answered : length s.fulfilled ≡ s.stats.completed
  pub queued_right : s.stats.queued ≡ length s.queue
  pub queue_peak : length s.queue ≤ s.stats.peak_queued
  pub queue_fits : s.stats.peak_queued ≤ s.config.queue_capacity
  pub pool : length s.threads ≡ s.config.workers
  pub running_right : s.stats.running ≡ busy s.threads
  pub running_peak : s.stats.running ≤ s.stats.peak_running
  pub running_fits : s.stats.peak_running ≤ s.config.workers
  pub issued : s.stats.admitted ≡ s.next_cancellation
  pub one_place :
      (h : ℕ)
      → queued_at h s.queue + held_at h s.threads + answered_at h s.fulfilled + queued_at h flying
        ≡ (if ltb h s.next_cancellation then 1 else 0)

pub record IsValid (s : SearchExecutor) : Type 0 where
  pub books : Books s []
  pub drained : s.stopping ≡ true → length s.queue ≡ 0

classify_counts :
    (st : SearchExecutorStats) (e : Option Error)
    → (classify st e).succeeded
        + (classify st e).failed
        + (classify st e).cancelled_count
        + (classify st e).expired
      ≡ st.succeeded + st.failed + st.cancelled_count + st.expired + 1
unfolding classify
classify_counts st none = omega arith
classify_counts st (some e) = ground arith

-- `classify` touches the four class counters only.
classify_keeps :
    (st : SearchExecutorStats) (e : Option Error)
    → ((classify st e).queued ≡ st.queued)
      × ((classify st e).running ≡ st.running)
      × ((classify st e).peak_queued ≡ st.peak_queued)
      × ((classify st e).peak_running ≡ st.peak_running)
      × ((classify st e).admitted ≡ st.admitted)
      × ((classify st e).completed ≡ st.completed)
unfolding classify
classify_keeps st none = omega arith
classify_keeps st (some e) = ground arith

pub request_stop-Books :
    (s : SearchExecutor) (flying : List SearchTask) (h : ℕ) (r : StopReason)
    → Books s flying
    → Books (request_stop s h r) flying
unfolding request_stop
request_stop-Books s flying h r v = record {
  balanced = v.balanced;
  classified = v.classified;
  answered = v.answered;
  queued_right = v.queued_right;
  queue_peak = v.queue_peak;
  queue_fits = v.queue_fits;
  pool = v.pool;
  running_right = v.running_right;
  running_peak = v.running_peak;
  running_fits = v.running_fits;
  issued = v.issued;
  one_place = v.one_place;
}

module _ (s : SearchExecutor) (t : SearchTask) (flying : List SearchTask) where
  -- A task in the air comes down with its promise.
  pub finish-Books : (o : SearchOutcome) → Books s (t ∷ flying) → Books (finish_locked s t o) flying
  unfolding finish_locked
  finish-Books o v =
      let st : SearchExecutorStats = record (s.stats) {
        completed = s.stats.completed + 1;
        queue_us_total = s.stats.queue_us_total + o.queue_us;
        execution_us_total = s.stats.execution_us_total + o.execution_us;
      } in
      let (queued, running, peak_q, peak_r, admitted, completed) = classify_keeps st o.error in
      let classes = classify_counts st o.error in
      record {
        balanced = omega (arith, v.balanced);
        classified = omega (arith, v.classified);
        answered = omega (arith, v.answered, length-append s.fulfilled ((t.cancellation, o) ∷ []));
        queued_right = omega (arith, v.queued_right);
        queue_peak = omega (arith, v.queue_peak);
        queue_fits = omega (arith, v.queue_fits);
        pool = v.pool;
        running_right = omega (arith, v.running_right);
        running_peak = omega (arith, v.running_peak);
        running_fits = omega (arith, v.running_fits);
        issued = omega (arith, v.issued);
        one_place =
            λ h. omega (arith, v.one_place h, answered_at-snoc h s.fulfilled (t.cancellation, o));
      }

  -- A queue that lost one task.
  pub dequeued-Books :
      (rest : List SearchTask)
      → ((h : ℕ) → queued_at h rest + hit h t ≡ queued_at h s.queue)
      → length rest + 1 ≡ length s.queue
      → Books s flying
      → Books
          (record s { queue = rest; stats = record (s.stats) { queued = length rest } })
          (t ∷ flying)
  dequeued-Books rest counts shorter v = record {
    balanced = omega (arith, v.balanced);
    classified = v.classified;
    answered = v.answered;
    queued_right = refl;
    queue_peak = omega (arith, v.queue_peak);
    queue_fits = v.queue_fits;
    pool = v.pool;
    running_right = v.running_right;
    running_peak = v.running_peak;
    running_fits = v.running_fits;
    issued = v.issued;
    one_place = λ h. omega (arith, v.one_place h, counts h);
  }
