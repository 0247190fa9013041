-- ===== src/Workers/Tests.antt =====
-- A thread that outlives its join (services/stream_worker.py).
use ibvap.Common.{◌≤◌, ◌≡◌, refl, none, some, List, [], ◌∷◌, length, inl, ℕ_discrete}
use ibvap.Workers.Defs.{
  Registry, take_worker, stop_worker, spawn_worker, start_camera_worker, Call, start, stop, ends,
  run,
}
use ibvap.Workers.Single.{run-single, spawn_worker-overlap}

abbrev idle : Registry
idle = record { worker = none; stopping = []; live = []; next = 0 }

abbrev calls : List Call
calls = start [] ∷ stop [] ∷ start [] ∷ ends (0 ∷ []) ∷ start [] ∷ []

-- The second start is refused, and the third one comes after the old thread has ended.
restarted : run calls idle ≡ record { worker = some 1; stopping = []; live = 1 ∷ []; next = 2 }
unfolding start_camera_worker stop_worker ℕ_discrete
restarted = refl

run-single_example : length (run calls idle).live ≤ 1
run-single_example = run-single calls idle (inl refl)

abbrev busy : Registry
busy = record { worker = some 0; stopping = []; live = 0 ∷ []; next = 1 }

started_during_stop : (spawn_worker (take_worker busy).1).live ≡ 0 ∷ 1 ∷ []
started_during_stop = spawn_worker-overlap busy 0 refl refl refl
