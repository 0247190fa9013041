-- ===== src/FrameQueue/Defs.antt =====
-- `QueueMetrics` and `BoundedQueue` of core/queue.py.
use ibvap.Common.{
  ℕ, suc, ◌+◌, ◌-◌, Bool, Option, none, some, List, [], ◌∷◌, ◌++◌, String, ltb, leb, if◌then◌else◌,
  length, get_last?,
}

pub record Queue (A : Type 0) : Type 0 where
  pub name : String
  pub max_size : ℕ
  pub max_age_ms : ℕ
  pub q : List (ℕ × A)
  pub dropped : ℕ

-- `warning_threshold` is a constant of the source, 0.8, and is left out.
pub record Metrics : Type 0 where
  pub name : String
  pub max_size : ℕ
  pub max_age_ms : ℕ
  pub depth : ℕ
  pub dropped : ℕ

-- `popleft` from an empty deque raises IndexError.
pub data Result (A : Type 0) : Type 0 where
  ok : A → Result A
  index_error : Result A

-- `now - ts > max_age`, for a clock that may stand before `ts`.
abbrev pub is_stale : ℕ → ℕ → ℕ → Bool
is_stale now age ts = ltb (ts + age) now

module _ {A : Type 0} where
  unfoldable pub init : String → ℕ → ℕ → Queue A
  init name max_size max_age_ms = record {
    name = name;
    max_size = max_size;
    max_age_ms = max_age_ms;
    q = [];
    dropped = 0;
  }

  -- The `while` loop of `put`: the entries that stay, and how many were dropped.
  unfoldable pub drop_stale : ℕ → ℕ → List (ℕ × A) → List (ℕ × A) × ℕ
  drop_stale now age [] = ([], 0)
  drop_stale now age ((ts, a) ∷ rest) =
      let more = drop_stale now age rest in
      if is_stale now age ts then (more.0, more.1 + 1) else ((ts, a) ∷ rest, 0)

  -- `if len(self._q) >= self.max_size: self._q.popleft()`
  unfoldable pub make_room : ℕ → List (ℕ × A) → ℕ → Result (List (ℕ × A) × ℕ)
  make_room max_size [] dropped = if leb max_size 0 then index_error else ok ([], dropped)
  make_room max_size (x ∷ rest) dropped =
      if leb max_size (suc (length rest)) then ok (rest, dropped + 1) else ok (x ∷ rest, dropped)

  abbrev pub enqueue : Queue A → ℕ → A → Result (List (ℕ × A) × ℕ) → Result (Queue A)
  enqueue s now item index_error = index_error
  enqueue s now item (ok (kept, dropped)) =
      ok (record s { q = kept ++ (now, item) ∷ []; dropped = dropped })

  -- `put` returns True whenever it returns: the new queue is the whole result.
  unfoldable pub put : Queue A → ℕ → A → Result (Queue A)
  unfolding drop_stale make_room
  put s now item =
      let fresh = drop_stale now s.max_age_ms s.q in
      enqueue s now item (make_room s.max_size fresh.0 (s.dropped + fresh.1))

  -- `get_latest` once the newest entry is known.
  unfoldable pub take_latest : Queue A → ℕ → Option (ℕ × A) → Queue A × Option A
  take_latest s now none = (s, none)
  take_latest s now (some (ts, item)) =
      if is_stale now s.max_age_ms ts
      then (record s { q = []; dropped = s.dropped + length s.q }, none)
      else (record s { q = []; dropped = s.dropped + (length s.q - 1) }, some item)

  unfoldable pub get_latest : Queue A → ℕ → Queue A × Option A
  unfolding take_latest
  get_latest s now = take_latest s now (get_last? s.q)

  unfoldable pub get_from : Queue A → List (ℕ × A) → Queue A × Option A
  get_from s [] = (s, none)
  get_from s ((ts, item) ∷ rest) = (record s { q = rest }, some item)

  unfoldable pub get : Queue A → Queue A × Option A
  unfolding get_from
  get s = get_from s s.q

  unfoldable pub depth : Queue A → ℕ
  depth s = length s.q

  unfoldable pub metrics : Queue A → Metrics
  unfolding depth
  metrics s = record {
    name = s.name;
    max_size = s.max_size;
    max_age_ms = s.max_age_ms;
    depth = depth s;
    dropped = s.dropped;
  }
