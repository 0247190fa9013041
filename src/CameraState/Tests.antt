-- ===== src/CameraState/Tests.antt =====
-- A camera that is provisioned, streams, reconnects and is disabled.
use ibvap.Common.{ℕ, ◌*◌, ◌≤◌, ◌≡◌, refl, [], ◌∷◌, List, ◌++◌, none, arith, last_n, max}
use ibvap.CameraState.Defs.{
  CameraState, draft, validating, saving, starting, streaming, reconnecting, connecting, disabled,
  Machine, Request, ok, less, capped_delay, compute_retry_delay, transition,
}
use ibvap.CameraState.Transition.{IsValid}
use ibvap.CameraState.Runs.{
  run, log, step, IsChain, run-IsValid, run-history, log-IsChain, disabled_stays,
}
use ibvap.CameraState.Retry.{compute_retry_delay_bounds}

abbrev new : Machine
new = record {
  camera_id = "cam";
  stream_epoch = 0;
  state = draft;
  stable_since = none;
  retry_count = 0;
  history = [];
  base_delay = 1000;
  max_delay = 60000;
  stable_threshold = 30000;
  correlation_id = "c";
  max_history = 3;
}

abbrev ask : CameraState → ℕ → Request
ask s now = record {
  target = s;
  reason = "r";
  safe_message = "m";
  correlation_id = none;
  now_utc = now;
  now_mono = now;
}

-- The third request is refused.
abbrev life : List Request
life =
    ask validating 1
    ∷ ask saving 2
    ∷ ask streaming 3
    ∷ ask starting 4
    ∷ ask streaming 5
    ∷ ask reconnecting 40000
    ∷ ask connecting 40001
    ∷ []

new-IsValid : IsValid new
new-IsValid = record { history_bounded = omega arith; stable_streaming = refl }

life_epoch : (run new life).stream_epoch ≡ 1
unfolding run step transition
life_epoch = refl

run-IsValid_example : IsValid (run new life)
run-IsValid_example = run-IsValid new life new-IsValid

run-history_example : (run new life).history ≡ last_n 3 ([] ++ log new life)
run-history_example = run-history new life (omega arith)

log-IsChain_example : IsChain draft (log new life)
log-IsChain_example = log-IsChain new life

abbrev off : Machine
off = record new { state = disabled }

disabled_stays_example : run off (ask streaming 1 ∷ ask validating 2 ∷ []) ≡ off
disabled_stays_example =
    disabled_stays off (ask streaming 1 ∷ ask validating 2 ∷ []) refl ((λ e. cc), ((λ e. cc), tt))

compute_retry_delay_bounds_example :
    (m' : Machine) × (delay : ℕ) × (compute_retry_delay new (less 100) ≡ ok (m', delay))
    × (500 ≤ delay)
    × (4 * capped_delay new ≤ 5 * delay)
    × (5 * delay ≤ max 2500 (6 * 60000))
    × (m'.retry_count ≡ 1)
unfolding capped_delay
compute_retry_delay_bounds_example =
    compute_retry_delay_bounds new (less 100) (omega arith) (omega arith)
