-- ===== src/SearchExecutor/Shutdown.antt =====
-- The scheduler after stop (src/search_executor.cpp).
use Prim.Native.String.{String}
use fast_vector.Prelude.{
  ℕ, ◌+◌, ◌<◌, ◌≡◌, ◌∙◌, refl, sym, Bool, true, List, [], ◌∷◌, Option, none, some, length, ltb,
  if◌then◌else◌, arith, Bool-cases, inl, inr,
}
use fast_vector.SearchExecutor.{
  SearchTask, SearchExecutor, SearchExecutorConfig, Phase, request_stop, finish_locked,
  cancel_waiting_locked, signal_one, signal_active, cancel_all, stop, submit, rejection, Event, run,
  create,
}
use mathlib.Core.Path.{subst}
use fast_vector.SearchExecutor.Places.{queued_at, held_at, answered_at}
use fast_vector.SearchExecutor.Invariant.{IsValid}
use fast_vector.SearchExecutor.Steps.{stop-IsValid}
use fast_vector.SearchExecutor.Workers.{run-IsValid, create-IsValid}

signal_active-stopping :
    (ps : List Phase) (s : SearchExecutor) → (signal_active s ps).stopping ≡ s.stopping
unfolding signal_active
signal_active-stopping [] s = refl
signal_active-stopping (p ∷ ps) s = signal_active-stopping ps _ ∙ one s _
  where
    one : (s : SearchExecutor) (t : Option SearchTask) → (signal_one s t).stopping ≡ s.stopping
    one s none = unfold signal_one in refl
    one s (some t) = unfold signal_one request_stop in refl

cancel_all-stopping :
    (ts : List SearchTask) (s : SearchExecutor) (now : ℕ)
    → (cancel_all s ts now).stopping ≡ s.stopping
unfolding cancel_all
cancel_all-stopping [] s now = refl
cancel_all-stopping (t ∷ ts) s now =
    cancel_all-stopping ts _ now ∙ unfold cancel_waiting_locked finish_locked request_stop in refl

stop-stopping : (s : SearchExecutor) (now : ℕ) → (stop s now).stopping ≡ true
unfolding stop
stop-stopping s now =
    let s' = signal_active (record s { stopping = true }) s.threads in
    elim (Bool-cases s.stopping) [
      | inl e ↦ subst (λ b. (if b then s else cancel_all s' s.queue now).stopping ≡ true) (sym e) e
      | inr e ↦
          subst (λ b. (if b then s else cancel_all s' s.queue now).stopping ≡ true) (sym e)
            (cancel_all-stopping s.queue s' now ∙ signal_active-stopping s.threads _)
    ]

no_waiting : (h : ℕ) (ts : List SearchTask) → length ts ≡ 0 → queued_at h ts ≡ 0
no_waiting h [] e = refl
no_waiting h (t ∷ ts) e = absurd (omega arith)

pub refuses :
    (s : SearchExecutor) (query : List ℕ) (k deadline : ℕ) (expected : String) (now : ℕ)
    → s.stopping ≡ true
    → (submit s query k deadline expected now).1 ≡ rejection true
unfolding submit
refuses s query k deadline expected now e = ground arith

-- Whatever happened before, once the scheduler is stopped every admitted task is with exactly one
-- worker or has been answered exactly once, none waits, and a later submission is rejected as one
-- to a stopping scheduler. The scheduler was made by the constructor, and the task has been
-- admitted.
pub stop_settles :
    (c : SearchExecutorConfig) (s₀ : SearchExecutor) (es : List Event) (now h : ℕ) (query : List ℕ)
    (k deadline : ℕ) (expected : String) (later : ℕ)
    → create true c ≡ some s₀
    → h < (stop (run s₀ es) now).next_cancellation
    → (held_at h (stop (run s₀ es) now).threads + answered_at h (stop (run s₀ es) now).fulfilled
        ≡ 1)
      × (length (stop (run s₀ es) now).queue ≡ 0)
      × ((submit (stop (run s₀ es) now) query k deadline expected later).1 ≡ rejection true)
stop_settles c s₀ es now h query k deadline expected later made lt =
    let s = stop (run s₀ es) now in
    let v = stop-IsValid (run s₀ es) now (run-IsValid es s₀ (create-IsValid true c made)) in
    let on = stop-stopping (run s₀ es) now in
    let empty = v.drained on in
    (
      settled (queued_at h s.queue) (held_at h s.threads) (answered_at h s.fulfilled)
          s.next_cancellation (no_waiting h s.queue empty) lt (v.books.one_place h),
      empty,
      refuses s query k deadline expected later on,
    )
  where
    settled : (q b a n : ℕ) → q ≡ 0 → h < n → q + b + a + 0 ≡ (if ltb h n then 1 else 0) → b + a ≡ 1
    settled q b a n e lt one = ground arith

-- In any schedule of a new scheduler the counters add up, the queue and the pool keep their limits
-- and peaks, a stopped scheduler has no waiting task, and each admitted task is in exactly one
-- place: waiting, with one worker, or answered once.
pub run-create-IsValid :
    (has_store : Bool) (c : SearchExecutorConfig) (s₀ : SearchExecutor) (es : List Event)
    → create has_store c ≡ some s₀
    → IsValid (run s₀ es)
run-create-IsValid has_store c s₀ es made = run-IsValid es s₀ (create-IsValid has_store c made)
