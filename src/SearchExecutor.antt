-- ===== src/SearchExecutor.antt =====
-- src/search_executor.cpp and include/fast_vector/search_executor.h: the bounded FIFO scheduler. A
-- step is what one thread does under the mutex, or one thread's own step between two of those; a
-- schedule is a list of events. A cancellation object is a handle into `reasons`, and `fulfilled`
-- records the promises in the order in which they were set. Times are in nanoseconds.
pub mod Places
pub mod Invariant
pub mod Steps
pub mod Workers
pub mod Shutdown
use Prim.Native.String.{String}
use fast_vector.Prelude.{
  ℕ, zero, suc, ◌+◌, ◌-◌, ◌/◌, Bool, true, false, not, ◌&&◌, ◌||◌, List, [], ◌∷◌, ◌++◌, Option,
  none, some, length, get_elem?, set, replicate, foldl, max, leb, ◌==◌, if◌then◌else◌, Result, ok,
  err, Error, interrupted, invalid_cancellation, StopReason, not_stopped, cancelled,
  deadline_exceeded, shut_down,
}
use fast_vector.SearchContext.{SearchContext, Observation, check, request, is_stop}
use fast_vector.VectorStore.{SnapshotSearchResult}

pub record SearchTask : Type 0 where
  pub query : List ℕ
  pub k : ℕ
  pub context : SearchContext
  pub cancellation : ℕ
  pub enqueued : ℕ

pub record SearchOutcome : Type 0 where
  pub result : Option SnapshotSearchResult
  pub queue_us : ℕ
  pub execution_us : ℕ
  pub error : Option Error

-- Where a worker stands in `run`. A task is claimed at a time, and reported with its outcome.
pub data Phase : Type 0 where
  idle : Phase
  claimed : SearchTask → ℕ → Phase
  executing : SearchTask → ℕ → Phase
  reporting : SearchTask → SearchOutcome → Phase
  exited : Phase

pub record SearchExecutorConfig : Type 0 where
  pub workers : ℕ
  pub queue_capacity : ℕ
  pub check_interval : ℕ

pub record SearchExecutorStats : Type 0 where
  pub queued : ℕ
  pub running : ℕ
  pub peak_queued : ℕ
  pub peak_running : ℕ
  pub admitted : ℕ
  pub rejected : ℕ
  pub started : ℕ
  pub completed : ℕ
  pub succeeded : ℕ
  pub failed : ℕ
  pub cancelled_count : ℕ
  pub expired : ℕ
  pub queue_us_total : ℕ
  pub execution_us_total : ℕ

pub record SearchExecutor : Type 0 where
  pub config : SearchExecutorConfig
  pub stopping : Bool
  pub queue : List SearchTask
  pub threads : List Phase
  pub stats : SearchExecutorStats
  pub reasons : ℕ → StopReason
  pub next_cancellation : ℕ
  pub fulfilled : List (ℕ × SearchOutcome)

-- duration_cast to microseconds.
abbrev pub microseconds : ℕ → ℕ
microseconds ns = ns / 1000

abbrev pub zero_stats : SearchExecutorStats
zero_stats = record {
  queued = 0;
  running = 0;
  peak_queued = 0;
  peak_running = 0;
  admitted = 0;
  rejected = 0;
  started = 0;
  completed = 0;
  succeeded = 0;
  failed = 0;
  cancelled_count = 0;
  expired = 0;
  queue_us_total = 0;
  execution_us_total = 0;
}

-- The constructor: `none` where it throws invalid_argument.
unfoldable pub create : Bool → SearchExecutorConfig → Option SearchExecutor
create has_store c =
    if not has_store || c.workers == 0 || c.queue_capacity == 0 || c.check_interval == 0
    then none
    else some (record {
      config = c;
      stopping = false;
      queue = [];
      threads = replicate c.workers idle;
      stats = zero_stats;
      reasons = λ h. not_stopped;
      next_cancellation = 0;
      fulfilled = [];
    })

-- A ticket with its cancellation, or SearchRejected(stopping).
pub data Submission : Type 0 where
  ticket : ℕ → Submission
  rejection : Bool → Submission

-- The new cancellation object is made before the lock; a rejected task's is dropped again.
unfoldable pub submit : SearchExecutor → List ℕ → ℕ → ℕ → String → ℕ → SearchExecutor × Submission
submit s query k deadline expected now =
    let task : SearchTask = record {
      query = query;
      k = k;
      context = record {
        deadline = deadline;
        has_cancellation = true;
        check_interval = s.config.check_interval;
        expected_snapshot_id = expected;
      };
      cancellation = s.next_cancellation;
      enqueued = now;
    } in
    let queue' = s.queue ++ task ∷ [] in
    if s.stopping || leb s.config.queue_capacity (length s.queue)
    then (
      record s { stats = record (s.stats) { rejected = s.stats.rejected + 1 } },
      rejection s.stopping,
    )
    else (
      record s {
        queue = queue';
        stats = record (s.stats) {
          admitted = s.stats.admitted + 1;
          queued = length queue';
          peak_queued = max s.stats.peak_queued (length queue');
        };
        reasons = λ h. if h == s.next_cancellation then not_stopped else s.reasons h;
        next_cancellation = s.next_cancellation + 1;
      },
      ticket s.next_cancellation,
    )

-- The counter of the outcome's class.
unfoldable pub classify : SearchExecutorStats → Option Error → SearchExecutorStats
classify st none = record st { succeeded = st.succeeded + 1 }
classify st (some (interrupted deadline_exceeded)) = record st { expired = st.expired + 1 }
classify st (some (interrupted r)) = record st { cancelled_count = st.cancelled_count + 1 }
classify st (some e) = record st { failed = st.failed + 1 }

unfoldable pub finish_locked : SearchExecutor → SearchTask → SearchOutcome → SearchExecutor
unfolding classify
finish_locked s task outcome = record s {
  stats =
      classify
        (record (s.stats) {
          completed = s.stats.completed + 1;
          queue_us_total = s.stats.queue_us_total + outcome.queue_us;
          execution_us_total = s.stats.execution_us_total + outcome.execution_us;
        })
        outcome.error;
  fulfilled = s.fulfilled ++ (task.cancellation, outcome) ∷ [];
}

abbrev pub error_of {ℓ} : {A : Type ℓ} → Result A → Option Error
error_of (ok a) = none
error_of (err e) = some e

-- What a check of the task finds.
abbrev pub check_task : SearchExecutor → SearchTask → ℕ → Result (Unit {0})
check_task s task now =
    check task.context (record { reason = s.reasons task.cancellation; now = now })

unfoldable pub cancel_waiting_locked : SearchExecutor → SearchTask → ℕ → SearchExecutor
unfolding finish_locked check
cancel_waiting_locked s task now = finish_locked s task (record {
  result = none;
  queue_us = microseconds (now - task.enqueued);
  execution_us = 0;
  error = error_of (check_task s task now);
})

-- `cancellation->request(reason)`
unfoldable pub request_stop : SearchExecutor → ℕ → StopReason → SearchExecutor
unfolding request
request_stop s h r = record s {
  reasons = λ j. if j == h then request (s.reasons j) r else s.reasons j;
}

-- std::find_if, and the queue without what it finds.
unfoldable pub find_task : ℕ → List SearchTask → Option SearchTask
find_task h [] = none
find_task h (t ∷ ts) = if t.cancellation == h then some t else find_task h ts

unfoldable pub without_task : ℕ → List SearchTask → List SearchTask
without_task h [] = []
without_task h (t ∷ ts) = if t.cancellation == h then ts else t ∷ without_task h ts

-- `none` is a null pointer; a task is dequeued and answered at once only while it waits.
unfoldable pub cancel :
    SearchExecutor → Option ℕ → StopReason → ℕ → SearchExecutor × Result (Unit {0})
unfolding request_stop find_task without_task cancel_waiting_locked
cancel s none reason now = (s, err invalid_cancellation)
cancel s (some h) reason now =
    let s' = request_stop s h reason in
    let queue' = without_task h s.queue in
    let dequeued = record s' {
      queue = queue';
      stats = record (s'.stats) { queued = length queue' };
    } in
    if not (is_stop reason) then (s, err invalid_cancellation) else elim (find_task h s.queue) [
      | none ↦ (s', ok tt)
      | some task ↦ (cancel_waiting_locked dequeued task now, ok tt)
    ]

-- `active_[worker]` is set from the claim to the report.
abbrev pub held_task : Phase → Option SearchTask
held_task idle = none
held_task (claimed t at) = some t
held_task (executing t at) = some t
held_task (reporting t o) = some t
held_task exited = none

unfoldable pub signal_one : SearchExecutor → Option SearchTask → SearchExecutor
unfolding request_stop
signal_one s none = s
signal_one s (some t) = request_stop s t.cancellation shut_down

unfoldable pub signal_active : SearchExecutor → List Phase → SearchExecutor
unfolding signal_one
signal_active s [] = s
signal_active s (p ∷ ps) = signal_active (signal_one s (held_task p)) ps

-- The loop over the waiting tasks: pop, request, cancel.
unfoldable pub cancel_all : SearchExecutor → List SearchTask → ℕ → SearchExecutor
unfolding request_stop cancel_waiting_locked
cancel_all s [] now = record s { queue = [] }
cancel_all s (t ∷ ts) now =
    cancel_all
      (cancel_waiting_locked
        (request_stop (record s { queue = ts; stats = record (s.stats) { queued = length ts } })
          t.cancellation shut_down)
        t now)
      ts now

unfoldable pub stop : SearchExecutor → ℕ → SearchExecutor
unfolding signal_active cancel_all
stop s now =
    let s' = signal_active (record s { stopping = true }) s.threads in
    if s.stopping then s else cancel_all s' s.queue now

-- A worker that waited for `stopping_ || !queue_.empty()` and holds the lock.
unfoldable pub claim_from : SearchExecutor → ℕ → ℕ → List SearchTask → SearchExecutor
claim_from s worker now [] =
    if s.stopping then record s { threads = set s.threads worker exited } else s
claim_from s worker now (task ∷ rest) = record s {
  queue = rest;
  threads = set s.threads worker (claimed task now);
  stats = record (s.stats) {
    queued = length rest;
    running = s.stats.running + 1;
    peak_running = max s.stats.peak_running (s.stats.running + 1);
  };
}

unfoldable pub claim_front : SearchExecutor → ℕ → ℕ → SearchExecutor
unfolding claim_from
claim_front s worker now = claim_from s worker now s.queue

-- What `task->context.check()` decides, and the counter if it passes.
unfoldable pub begin_checked :
    SearchExecutor → ℕ → SearchTask → ℕ → Result (Unit {0}) → SearchExecutor
begin_checked s worker task at (ok u) = record s {
  threads = set s.threads worker (executing task at);
  stats = record (s.stats) { started = s.stats.started + 1 };
}
begin_checked s worker task at (err e) = record s {
  threads = set s.threads worker (
      reporting task (record {
        result = none;
        queue_us = microseconds (at - task.enqueued);
        execution_us = 0;
        error = some e;
      }));
}

unfoldable pub begin_task : SearchExecutor → ℕ → SearchTask → ℕ → ℕ → SearchExecutor
unfolding begin_checked check
begin_task s worker task at now = begin_checked s worker task at (check_task s task now)

-- `store_->search` has answered.
unfoldable pub end_task :
    SearchExecutor → ℕ → SearchTask → ℕ → Result SnapshotSearchResult → ℕ → SearchExecutor
end_task s worker task at answer now = record s {
  threads = set s.threads worker (
      reporting task (record {
        result = elim answer [ ok r ↦ some r | err e ↦ none ];
        queue_us = microseconds (at - task.enqueued);
        execution_us = microseconds (now - at);
        error = error_of answer;
      }));
}

unfoldable pub report_task : SearchExecutor → ℕ → SearchTask → SearchOutcome → SearchExecutor
unfolding finish_locked
report_task s worker task outcome =
    finish_locked
      (record s {
        threads = set s.threads worker idle;
        stats = record (s.stats) { running = s.stats.running - 1 };
      })
      task outcome

-- What happens next in a schedule. The answer of the store belongs to the event.
pub data Event : Type 0 where
  submits : List ℕ → ℕ → ℕ → String → ℕ → Event
  cancels : Option ℕ → StopReason → ℕ → Event
  stops : ℕ → Event
  works : ℕ → ℕ → Result SnapshotSearchResult → Event

-- One step of the worker that stands in a phase.
unfoldable pub work : SearchExecutor → ℕ → Phase → ℕ → Result SnapshotSearchResult → SearchExecutor
unfolding claim_front begin_task end_task report_task
work s worker idle now answer = claim_front s worker now
work s worker (claimed task at) now answer = begin_task s worker task at now
work s worker (executing task at) now answer = end_task s worker task at answer now
work s worker (reporting task outcome) now answer = report_task s worker task outcome
work s worker exited now answer = s

-- There is no worker beyond the pool.
unfoldable pub work_at :
    SearchExecutor → ℕ → Option Phase → ℕ → Result SnapshotSearchResult → SearchExecutor
unfolding work
work_at s worker none now answer = s
work_at s worker (some phase) now answer = work s worker phase now answer

unfoldable pub step : SearchExecutor → Event → SearchExecutor
unfolding submit cancel stop work_at
step s (submits query k deadline expected now) = (submit s query k deadline expected now).0
step s (cancels h reason now) = (cancel s h reason now).0
step s (stops now) = stop s now
step s (works worker now answer) = work_at s worker (get_elem? s.threads worker) now answer

unfoldable pub run : SearchExecutor → List Event → SearchExecutor
unfolding step
run s [] = s
run s (e ∷ es) = run (step s e) es
