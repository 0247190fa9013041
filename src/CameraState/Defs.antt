-- ===== src/CameraState/Defs.antt =====
-- `CameraState`, `_ALLOWED`, `StateTransition` and `CameraStateMachine` of core/camera_state.py.
use ibvap.Common.{
  ℕ, ◌+◌, ◌-◌, ◌*◌, ◌^◌, Bool, true, false, not, Option, none, some, List, [], ◌∷◌, ◌++◌, String,
  leb, ◌==◌, if◌then◌else◌, last_n, min, max,
}

pub data CameraState : Type 0 where
  draft validating resolving connecting authenticating probing decoding preview_ready : CameraState
  saving starting streaming disabled stopping reconnecting degraded auth_failed : CameraState
  blocked_by_policy unreachable unsupported_media clock_unstable storage_pressure : CameraState
  failed : CameraState

-- The members are compared by identity: each stands for its place in the enumeration.
abbrev pub place : CameraState → ℕ
place draft = 0
place validating = 1
place resolving = 2
place connecting = 3
place authenticating = 4
place probing = 5
place decoding = 6
place preview_ready = 7
place saving = 8
place starting = 9
place streaming = 10
place disabled = 11
place stopping = 12
place reconnecting = 13
place degraded = 14
place auth_failed = 15
place blocked_by_policy = 16
place unreachable = 17
place unsupported_media = 18
place clock_unstable = 19
place storage_pressure = 20
place failed = 21

-- `_ALLOWED`
abbrev pub allowed : CameraState → List CameraState
allowed draft = validating ∷ disabled ∷ failed ∷ []
allowed validating = resolving ∷ blocked_by_policy ∷ failed ∷ disabled ∷ saving ∷ []
allowed resolving = connecting ∷ unreachable ∷ blocked_by_policy ∷ failed ∷ disabled ∷ []
allowed connecting = authenticating ∷ streaming ∷ unreachable ∷ failed ∷ disabled ∷ []
allowed authenticating = probing ∷ auth_failed ∷ failed ∷ disabled ∷ []
allowed probing = decoding ∷ unsupported_media ∷ failed ∷ disabled ∷ []
allowed decoding = preview_ready ∷ failed ∷ unsupported_media ∷ disabled ∷ []
allowed preview_ready = saving ∷ failed ∷ disabled ∷ stopping ∷ []
allowed saving = starting ∷ failed ∷ disabled ∷ []
allowed starting = streaming ∷ failed ∷ disabled ∷ []
allowed streaming =
    reconnecting ∷ degraded ∷ stopping ∷ failed ∷ clock_unstable ∷ storage_pressure ∷ disabled
    ∷ unreachable ∷ []
allowed reconnecting = connecting ∷ resolving ∷ failed ∷ disabled ∷ []
allowed degraded = streaming ∷ reconnecting ∷ stopping ∷ failed ∷ disabled ∷ []
allowed stopping = draft ∷ disabled ∷ failed ∷ []
allowed disabled = draft ∷ []
allowed failed = draft ∷ disabled ∷ reconnecting ∷ []
allowed auth_failed = draft ∷ disabled ∷ failed ∷ []
allowed blocked_by_policy = draft ∷ disabled ∷ failed ∷ []
allowed unreachable = reconnecting ∷ draft ∷ disabled ∷ failed ∷ []
allowed unsupported_media = draft ∷ disabled ∷ failed ∷ []
allowed clock_unstable = streaming ∷ reconnecting ∷ failed ∷ disabled ∷ []
allowed storage_pressure = degraded ∷ streaming ∷ failed ∷ disabled ∷ []

-- `target in {...}`
abbrev pub includes : CameraState → List CameraState → Bool
includes s [] = false
includes s (t ∷ ts) = if place s == place t then true else includes s ts

abbrev pub is : CameraState → CameraState → Bool
is s t = place s == place t

pub record RetryStatus : Type 0 where
  pub retry_count : ℕ
  pub stream_epoch : ℕ
  pub is_disabled : Bool

pub record StateTransition : Type 0 where
  pub prev_state : CameraState
  pub new_state : CameraState
  pub timestamp : ℕ
  pub camera_id : String
  pub stream_epoch : ℕ
  pub reason : String
  pub safe_message : String
  pub retry_status : RetryStatus
  pub correlation_id : String

-- `CameraStateMachine`
pub record Machine : Type 0 where
  pub camera_id : String
  pub stream_epoch : ℕ
  pub state : CameraState
  pub stable_since : Option ℕ
  pub retry_count : ℕ
  pub history : List StateTransition
  pub base_delay : ℕ
  pub max_delay : ℕ
  pub stable_threshold : ℕ
  pub correlation_id : String
  pub max_history : ℕ

pub data Error : Type 0 where
  illegal_transition : CameraState → CameraState → Error
  overflow_error : Error

pub data Result (A : Type 0) : Type 0 where
  ok : A → Result A
  raise : Error → Result A

-- The arguments of one call of `transition`, with the two clocks that it reads.
pub record Request : Type 0 where
  pub target : CameraState
  pub reason : String
  pub safe_message : String
  pub correlation_id : Option String
  pub now_utc : ℕ
  pub now_mono : ℕ

unfoldable pub can_transition : Machine → CameraState → Bool
can_transition m target = includes target (allowed m.state)

-- `correlation_id or self.correlation_id`: an empty text counts as absent.
abbrev pub text_or : Option String → String → String
text_or none d = d
text_or (some String.[]) d = d
text_or (some (String.◌∷◌ c s)) d = String.◌∷◌ c s

-- The stable interval after a step from `prev` to `target`: when it began, and the retry count.
unfoldable pub stability : CameraState → CameraState → ℕ → ℕ → Option ℕ → ℕ → Option ℕ × ℕ
stability prev target now threshold none retries =
    if is target streaming then (some now, retries) else (none, retries)
stability prev target now threshold (some since) retries =
    if is target streaming
    then (some since, retries)
    else if is prev streaming
    then (none, if leb (since + threshold) now then 0 else retries)
    else (some since, retries)

-- The body of `transition` after its guard.
unfoldable pub enter : Machine → Request → Machine × StateTransition
unfolding stability
enter m r =
    let epoch = if is r.target reconnecting then m.stream_epoch + 1 else m.stream_epoch in
    let tr : StateTransition = record {
      prev_state = m.state;
      new_state = r.target;
      timestamp = r.now_utc;
      camera_id = m.camera_id;
      stream_epoch = epoch;
      reason = r.reason;
      safe_message = r.safe_message;
      retry_status = record {
        retry_count = m.retry_count;
        stream_epoch = epoch;
        is_disabled = is r.target disabled;
      };
      correlation_id = text_or r.correlation_id m.correlation_id;
    } in
    let after =
      stability m.state r.target r.now_mono m.stable_threshold m.stable_since m.retry_count in
    (
      record m {
        stream_epoch = epoch;
        state = r.target;
        history = last_n m.max_history (m.history ++ tr ∷ []);
        stable_since = after.0;
        retry_count = after.1;
      },
      tr,
    )

unfoldable pub transition : Machine → Request → Result (Machine × StateTransition)
unfolding can_transition enter
transition m r =
    if can_transition m r.target
    then ok (enter m r)
    else raise (illegal_transition m.state r.target)

-- The call that `disable(reason)` makes.
abbrev pub disabling : String → ℕ → ℕ → Request
disabling reason now_utc now_mono = record {
  target = disabled;
  reason = reason;
  safe_message = "Camera disabled";
  correlation_id = none;
  now_utc = now_utc;
  now_mono = now_mono;
}

unfoldable pub disable : Machine → String → ℕ → ℕ → Result (Machine × StateTransition)
unfolding transition
disable m reason now_utc now_mono = transition m (disabling reason now_utc now_mono)

unfoldable pub is_disabled : Machine → Bool
is_disabled m = is m.state disabled

unfoldable pub should_auto_restart : Machine → Bool
unfolding is_disabled
should_auto_restart m = not (is_disabled m)

-- What `random.uniform` adds to the delay: so much less, or so much more.
pub data Jitter : Type 0 where
  less : ℕ → Jitter
  more : ℕ → Jitter

-- A negative sum is below the floor of 500 ms in any case, so the truncated `-` is exact here.
abbrev pub with_jitter : ℕ → Jitter → ℕ
with_jitter delay (less n) = delay - n
with_jitter delay (more n) = delay + n

-- `min(self.max_delay, self.base_delay * 2**self.retry_count)`
unfoldable pub capped_delay : Machine → ℕ
capped_delay m = min m.max_delay (m.base_delay * 2 ^ m.retry_count)

-- A float times the integer `2**n` raises OverflowError once `n` is 1024.
unfoldable pub compute_retry_delay : Machine → Jitter → Result (Machine × ℕ)
unfolding capped_delay
compute_retry_delay m jitter =
    if leb 1024 m.retry_count
    then raise overflow_error
    else ok (
      record m { retry_count = m.retry_count + 1 },
      max 500 (with_jitter (capped_delay m) jitter),
    )
