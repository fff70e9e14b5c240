-- ===== src/Examples/Budgets.antt =====
-- The search budget at concrete inputs.
use fast_vector.Prelude.{
  ◌+◌, ◌*◌, ◌<◌, ◌≡◌, refl, [], ◌∷◌, foldl, arith, true, err, interrupted, not_stopped, cancelled,
  shut_down, deadline_exceeded, if◌then◌else◌, leb,
}
use fast_vector.SearchContext.{SearchContext, World, fresh, request, checkpoint, enabled}
use fast_vector.SearchContext.Budgets.{
  checkpoints, checkpoints-checks, checkpoints_stop, request_first,
}

-- A check at every third item.
abbrev every_third : SearchContext
every_third = record {
  deadline = 100;
  has_cancellation = true;
  check_interval = 3;
  expected_snapshot_id = "";
}

-- Cancelled before the third check.
abbrev cancelled_late : World
cancelled_late n = record { reason = if leb 2 n then cancelled else not_stopped; now = n }

checkpoints-checks_example : (3 * 2 + 0 ≡ 3 * 0 + 1 + 5) × (1 < 3)
unfolding checkpoint enabled checkpoints
checkpoints-checks_example =
    checkpoints-checks every_third cancelled_late 5 fresh
      {b' = record { remaining = 1; checks = 2 }} refl (omega arith) (omega arith) (omega arith)
      refl

checkpoints_stop_example :
    checkpoints every_third cancelled_late 4 (record { remaining = 2; checks = 2 })
    ≡ err (interrupted cancelled)
checkpoints_stop_example = checkpoints_stop every_third cancelled_late 2 4 2 refl refl (omega arith)

request_first_example :
    foldl request (request not_stopped deadline_exceeded) (shut_down ∷ cancelled ∷ [])
    ≡ deadline_exceeded
request_first_example = request_first deadline_exceeded (shut_down ∷ cancelled ∷ []) refl
