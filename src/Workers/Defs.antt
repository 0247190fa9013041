-- ===== src/Workers/Defs.antt =====
-- The threads of one camera: `_stop_worker` and `_start_camera_worker` (services/stream_worker.py).
-- `worker` and `stopping` are the camera's entries of `_WORKERS` and `_STOPPING_WORKERS`, with a thread
-- for its pair with the stop event; `live` are its threads that are alive. What is done under
-- `_WORKERS_LOCK` is one step. A thread may end at any time; a join waits for some to end or times out.
use ibvap.Common.{
  ℕ, suc, Bool, true, false, not, Option, none, some, List, [], ◌∷◌, ◌++◌, if◌then◌else◌, select,
  contains, nat_key,
}

pub record Registry : Type 0 where
  pub worker : Option ℕ
  pub stopping : List ℕ
  pub live : List ℕ
  pub next : ℕ

abbrev pub is_alive : Registry → ℕ → Bool
is_alive r t = contains t r.live

-- These threads end.
unfoldable pub ended : List ℕ → Registry → Registry
ended exits r = record r { live = select (λ t. not (contains t exits)) r.live }

-- The first step of a stop takes the entry, and the last one keeps the thread if it outlived the join.
unfoldable pub take_worker : Registry → Option ℕ × Registry
take_worker r = (r.worker, record r { worker = none })

unfoldable pub keep_stopping : Option ℕ → Registry → Registry × Bool
keep_stopping none r = (r, true)
keep_stopping (some t) r =
    if is_alive r t then (record r { stopping = r.stopping ++ t ∷ [] }, false) else (r, true)

-- A whole stop, during whose join these threads end.
unfoldable pub stop_worker : List ℕ → Registry → Registry × Bool
unfolding take_worker keep_stopping ended
stop_worker exits r = let (old, r1) = take_worker r in keep_stopping old (ended exits r1)

abbrev pub has_live_worker : Registry → Bool
has_live_worker r = elim r.worker [ none ↦ false | some t ↦ is_alive r t ]

-- The last step of a start: it spawns a thread unless one is alive.
unfoldable pub spawn_worker : Registry → Registry
spawn_worker r = if has_live_worker r then r else elim (select (is_alive r) r.stopping) [
  | t ∷ ts ↦ record r { stopping = t ∷ ts }
  | [] ↦ record r {
    stopping = [];
    worker = some r.next;
    live = r.live ++ r.next ∷ [];
    next = suc r.next;
  }
]

-- A whole start, during whose joins these threads end.
unfoldable pub start_camera_worker : List ℕ → Registry → Registry
unfolding spawn_worker ended
start_camera_worker exits r = if has_live_worker r then r else spawn_worker (ended exits r)

-- Calls that do not overlap, and threads that end between them.
pub data Call : Type 0 where
  start : List ℕ → Call
  stop : List ℕ → Call
  ends : List ℕ → Call

abbrev pub call : Call → Registry → Registry
call (start exits) r = start_camera_worker exits r
call (stop exits) r = (stop_worker exits r).0
call (ends exits) r = ended exits r

abbrev pub run : List Call → Registry → Registry
run [] r = r
run (c ∷ cs) r = run cs (call c r)
