-- ===== src/SearchExecutor/Steps.antt =====
-- The invariant of the scheduler under submit, cancel and stop (src/search_executor.cpp).
use fast_vector.Prelude.{
  ℕ, ◌+◌, ◌≤◌, ◌<◌, ◌≡◌, ◌∙◌, refl, sym, ap, true, ◌||◌, List, [], ◌∷◌, ◌++◌, Option, none, some,
  length, max, leb, if◌then◌else◌, StopReason, shut_down, arith, Bool-cases, Option-cases, inl, inr,
  length-append,
}
use mathlib.Core.Path.{subst}
use Prim.Native.String.{String}
use fast_vector.SearchContext.{is_stop}
use fast_vector.SearchExecutor.{
  SearchTask, SearchExecutor, Phase, finish_locked, request_stop, find_task, without_task,
  cancel_waiting_locked, cancel, signal_one, signal_active, cancel_all, stop, submit, held_task,
}
use fast_vector.SearchExecutor.Places.{queued_at, queued_at-snoc, queued_at-without, length-without}
use fast_vector.SearchExecutor.Invariant.{
  Books, IsValid, finish-Books, request_stop-Books, dequeued-Books,
}

cancel_waiting-Books :
    (s : SearchExecutor) (t : SearchTask) (flying : List SearchTask) (now : ℕ)
    → Books s (t ∷ flying)
    → Books (cancel_waiting_locked s t now) flying
unfolding cancel_waiting_locked
cancel_waiting-Books s t flying now v = finish-Books s t flying _ v

cancelled-Books :
    (s : SearchExecutor) (h : ℕ) (reason : StopReason) (now : ℕ) (t : SearchTask)
    → find_task h s.queue ≡ some t
    → Books s []
    → Books (cancel s (some h) reason now).0 []
unfolding cancel
cancelled-Books s h reason now t found v = elim (Bool-cases (is_stop reason)) [
  | inr e ↦ rw e v
  | inl e ↦
      rw (e, found)
        (cancel_waiting-Books _ t [] now (
          dequeued-Books (request_stop s h reason) t [] (without_task h s.queue)
            (λ j. queued_at-without h j s.queue t found) (length-without h s.queue t found)
            (request_stop-Books s [] h reason v)))
]

cancel-Books :
    (s : SearchExecutor) (h : Option ℕ) (reason : StopReason) (now : ℕ)
    → Books s []
    → Books (cancel s h reason now).0 []
cancel-Books s none reason now v = unfold cancel in v
cancel-Books s (some h) reason now v = elim (Option-cases (find_task h s.queue)) [
  | inr (t, found) ↦ cancelled-Books s h reason now t found v
  | inl missing ↦ not_waiting missing
]
  where
    not_waiting : find_task h s.queue ≡ none → Books (cancel s (some h) reason now).0 []
    not_waiting missing =
        unfold cancel in
        elim (Bool-cases (is_stop reason)) [
          | inr e ↦ rw e v
          | inl e ↦ rw (e, missing) (request_stop-Books s [] h reason v)
        ]

signal_one-Books :
    (s : SearchExecutor) (t : Option SearchTask) → Books s [] → Books (signal_one s t) []
unfolding signal_one
signal_one-Books s none v = v
signal_one-Books s (some t) v = request_stop-Books s [] t.cancellation shut_down v

signal_active-Books :
    (s : SearchExecutor) (ps : List Phase) → Books s [] → Books (signal_active s ps) []
unfolding signal_active
signal_active-Books s [] v = v
signal_active-Books s (p ∷ ps) v =
    signal_active-Books (signal_one s (held_task p)) ps (signal_one-Books s (held_task p) v)

emptied-Books :
    (s : SearchExecutor) → s.queue ≡ [] → Books s [] → Books (record s { queue = [] }) []
emptied-Books s e v =
    let empty : length s.queue ≡ 0 = ap length e in
    record {
      balanced = omega (arith, v.balanced);
      classified = v.classified;
      answered = v.answered;
      queued_right = omega (arith, v.queued_right);
      queue_peak = omega arith;
      queue_fits = v.queue_fits;
      pool = v.pool;
      running_right = v.running_right;
      running_peak = v.running_peak;
      running_fits = v.running_fits;
      issued = v.issued;
      one_place = λ h. omega (arith, v.one_place h, ap (queued_at h) e);
    }

cancel_all-Books :
    (ts : List SearchTask) (s : SearchExecutor) (now : ℕ)
    → s.queue ≡ ts
    → Books s []
    → Books (cancel_all s ts now) []
unfolding cancel_all
cancel_all-Books [] s now e v = emptied-Books s e v
cancel_all-Books (t ∷ ts) s now e v =
    cancel_all-Books ts _ now (unfold cancel_waiting_locked request_stop in refl) (
      cancel_waiting-Books _ t [] now (
        request_stop-Books _ (t ∷ []) t.cancellation shut_down (
          dequeued-Books s t [] ts (λ h. omega (arith, ap (queued_at h) e))
            (omega (arith, ap length e)) v)))

cancel_all-queue :
    (ts : List SearchTask) (s : SearchExecutor) (now : ℕ) → (cancel_all s ts now).queue ≡ []
unfolding cancel_all
cancel_all-queue [] s now = refl
cancel_all-queue (t ∷ ts) s now = cancel_all-queue ts _ now

signal_one-queue : (s : SearchExecutor) (t : Option SearchTask) → (signal_one s t).queue ≡ s.queue
unfolding signal_one request_stop
signal_one-queue s none = refl
signal_one-queue s (some t) = refl

signal_active-queue : (s : SearchExecutor) (ps : List Phase) → (signal_active s ps).queue ≡ s.queue
unfolding signal_active
signal_active-queue s [] = refl
signal_active-queue s (p ∷ ps) =
    signal_active-queue (signal_one s (held_task p)) ps ∙ signal_one-queue s (held_task p)

stopping-Books : (s : SearchExecutor) → Books s [] → Books (record s { stopping = true }) []
stopping-Books s v = record {
  balanced = v.balanced;
  classified = v.classified;
  answered = v.answered;
  queued_right = v.queued_right;
  queue_peak = v.queue_peak;
  queue_fits = v.queue_fits;
  pool = v.pool;
  running_right = v.running_right;
  running_peak = v.running_peak;
  running_fits = v.running_fits;
  issued = v.issued;
  one_place = v.one_place;
}

pub stop-IsValid : (s : SearchExecutor) (now : ℕ) → IsValid s → IsValid (stop s now)
unfolding stop
stop-IsValid s now v =
    let s' = signal_active (record s { stopping = true }) s.threads in
    elim (Bool-cases s.stopping) [
      | inl e ↦ subst (λ b. IsValid (if b then s else cancel_all s' s.queue now)) (sym e) v
      | inr e ↦
          subst (λ b. IsValid (if b then s else cancel_all s' s.queue now)) (sym e)
            (record {
              books =
                  cancel_all-Books s.queue s' now
                    (signal_active-queue (record s { stopping = true }) s.threads)
                    (signal_active-Books (record s { stopping = true }) s.threads
                      (stopping-Books s v.books));
              drained = λ h. ap length (cancel_all-queue s.queue s' now);
            })
    ]

rejected-Books :
    (s : SearchExecutor)
    → Books s []
    → Books (record s { stats = record (s.stats) { rejected = s.stats.rejected + 1 } }) []
rejected-Books s v = record {
  balanced = v.balanced;
  classified = v.classified;
  answered = v.answered;
  queued_right = v.queued_right;
  queue_peak = v.queue_peak;
  queue_fits = v.queue_fits;
  pool = v.pool;
  running_right = v.running_right;
  running_peak = v.running_peak;
  running_fits = v.running_fits;
  issued = v.issued;
  one_place = v.one_place;
}

admitted-Books :
    (s : SearchExecutor) (task : SearchTask) (reasons : ℕ → StopReason)
    → task.cancellation ≡ s.next_cancellation
    → length s.queue < s.config.queue_capacity
    → Books s []
    → Books
        (record s {
          queue = s.queue ++ task ∷ [];
          stats = record (s.stats) {
            admitted = s.stats.admitted + 1;
            queued = length (s.queue ++ task ∷ []);
            peak_queued = max s.stats.peak_queued (length (s.queue ++ task ∷ []));
          };
          reasons = reasons;
          next_cancellation = s.next_cancellation + 1;
        })
        []
admitted-Books s task reasons fresh room v =
    let grown = length-append s.queue (task ∷ []) in
    record {
      balanced = omega (arith, v.balanced, grown);
      classified = v.classified;
      answered = v.answered;
      queued_right = refl;
      queue_peak = omega arith;
      queue_fits = omega (arith, v.queue_fits, grown);
      pool = v.pool;
      running_right = v.running_right;
      running_peak = v.running_peak;
      running_fits = v.running_fits;
      issued = omega (arith, v.issued);
      one_place = λ h. ground (arith, v.one_place h, queued_at-snoc h s.queue task);
    }

pub submit-IsValid :
    (s : SearchExecutor) (query : List ℕ) (k deadline : ℕ) (expected : String) (now : ℕ)
    → IsValid s
    → IsValid (submit s query k deadline expected now).0
unfolding submit
submit-IsValid s query k deadline expected now v =
    elim (Bool-cases (s.stopping || leb s.config.queue_capacity (length s.queue))) [
      | inl e ↦ rw e (record { books = rejected-Books s v.books; drained = v.drained })
      | inr e ↦ rw e (record {
        books = admitted-Books s _ _ refl (ground arith) v.books;
        drained = λ h. absurd (ground arith);
      })
    ]

without-shrinks : (h : ℕ) (ts : List SearchTask) → length (without_task h ts) ≤ length ts
unfolding without_task
without-shrinks h [] = omega arith
without-shrinks h (t ∷ ts) = ground (arith, without-shrinks h ts)

cancel_shrinks :
    (s : SearchExecutor) (h : ℕ) (reason : StopReason) (now : ℕ)
    → ((cancel s (some h) reason now).0.stopping ≡ s.stopping)
      × (length (cancel s (some h) reason now).0.queue ≤ length s.queue)
unfolding cancel
cancel_shrinks s h reason now = elim (Bool-cases (is_stop reason)) [
  | inr e ↦ rw e (refl, omega arith)
  | inl e ↦ rw e (elim (Option-cases (find_task h s.queue)) [
    | inl missing ↦ rw missing (unfold request_stop in (refl, omega arith))
    | inr (t, found) ↦ rw found (
        unfold request_stop cancel_waiting_locked finish_locked in
        (refl, without-shrinks h s.queue))
  ])
]

pub cancel-IsValid :
    (s : SearchExecutor) (h : Option ℕ) (reason : StopReason) (now : ℕ)
    → IsValid s
    → IsValid (cancel s h reason now).0
cancel-IsValid s none reason now v = unfold cancel in v
cancel-IsValid s (some h) reason now v =
    let (same, shorter) = cancel_shrinks s h reason now in
    record {
      books = cancel-Books s (some h) reason now v.books;
      drained = λ e. empty shorter (v.drained (sym same ∙ e));
    }
  where
    empty : {a b : ℕ} → a ≤ b → b ≡ 0 → a ≡ 0
    empty p q = omega arith
