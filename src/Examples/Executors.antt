-- ===== src/Examples/Executors.antt =====
-- A schedule of one worker: a query is answered, one is cancelled, and the scheduler stops.
use fast_vector.Prelude.{
  ◌+◌, ◌≡◌, refl, List, [], ◌∷◌, arith, true, false, some, err, not_stopped, cancelled, length,
  length_mismatch,
}
use fast_vector.SearchExecutor
use fast_vector.SearchExecutor.{
  SearchExecutor, SearchExecutorConfig, SearchExecutorStats, Event, submits, cancels, stops, works,
  run, step, submit, stop, rejection, idle, zero_stats,
}
use fast_vector.SearchExecutor.Places.{held_at, answered_at}
use fast_vector.SearchExecutor.Invariant.{IsValid}
use fast_vector.SearchExecutor.Workers.{step-IsValid, create-IsValid}
use fast_vector.SearchExecutor.Shutdown.{run-create-IsValid, stop_settles}

abbrev single : SearchExecutorConfig
single = record { workers = 1; queue_capacity = 2; check_interval = 64 }

abbrev new : SearchExecutor
new = record {
  config = single;
  stopping = false;
  queue = [];
  threads = idle ∷ [];
  stats = zero_stats;
  reasons = λ h. not_stopped;
  next_cancellation = 0;
  fulfilled = [];
}

-- Two queries, the first claimed and begun, the second cancelled while it waits.
abbrev schedule : List Event
schedule =
    submits (1 ∷ []) 1 90000 "" 1000
    ∷ submits (2 ∷ []) 1 90000 "" 2000
    ∷ works 0 3000 (err length_mismatch)
    ∷ works 0 4000 (err length_mismatch)
    ∷ cancels (some 1) cancelled 5000
    ∷ []

cancelled_once : (run new schedule).stats.cancelled_count ≡ 1
unfolding run fast_vector.SearchContext.check
cancelled_once = refl

step-IsValid_example : IsValid (step new (submits (1 ∷ []) 1 90000 "" 1000))
unfolding SearchExecutor.create
step-IsValid_example =
    step-IsValid new (submits (1 ∷ []) 1 90000 "" 1000) (create-IsValid true single refl)

run-create-IsValid_example : IsValid (run new schedule)
unfolding SearchExecutor.create
run-create-IsValid_example = run-create-IsValid true single new schedule refl

stop_settles_example :
    (held_at 0 (stop (run new schedule) 6000).threads
        + answered_at 0 (stop (run new schedule) 6000).fulfilled
      ≡ 1)
    × (length (stop (run new schedule) 6000).queue ≡ 0)
    × ((submit (stop (run new schedule) 6000) (3 ∷ []) 1 90000 "" 7000).1 ≡ rejection true)
unfolding SearchExecutor.create run stop
stop_settles_example =
    stop_settles single new schedule 6000 0 (3 ∷ []) 1 90000 "" 7000 refl (omega arith)
