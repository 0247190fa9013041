-- ===== src/Rules/Defs.antt =====
-- `RuleEngine` and its state (core/rules.py).
-- The key of an event is its parts, of which the text that the source formats is made; the number of
-- the cooldown interval, `int(timestamp // cooldown)`, is a parameter with the format.
use ibvap.Common.{
  ℕ, Bool, true, false, ◌&&◌, ◌||◌, Option, none, some, List, [], ◌∷◌, String, ltb, if◌then◌else◌,
  length, same, string_key, nat_key,
}
use ibvap.Common.Dict.{lookup, insert, erase}
use ibvap.Common.Float.{Float, minus, times, less, at_most, num, larger}
use ibvap.Geometry.Segments.{zero_f, equals, intersect, orient}
use ibvap.Geometry.Polygons.{magnitude}

pub record Tripwire (F : Type 0) : Type 0 where
  pub id : String
  pub name : String
  pub p1 : F × F
  pub p2 : F × F
  pub direction : String
  pub hysteresis : F

pub record TripwireState (F : Type 0) : Type 0 where
  pub last_side : Option F
  pub armed : Bool
  pub last_cross : F
  pub last_pos : Option (F × F)

pub record LoiterState (F : Type 0) : Type 0 where
  pub enter_ts : Option F
  pub dwell_triggered : Bool
  pub outside_streak : ℕ

pub record ZoneRule (F : Type 0) : Type 0 where
  pub id : String
  pub polygon : List (F × F)

-- The events that the engine returns.
pub data RuleEvent (F : Type 0) : Type 0 where
  tripwire_cross : String → String → RuleEvent F
  loitering : String → F → RuleEvent F

-- `_trip_state`, `_loiter_state` and `_last_event_at`, with the configuration: the zones, and the values
-- of the dictionary of tripwires.
pub record RuleEngine (F : Type 0) : Type 0 where
  pub zones : List (ZoneRule F)
  pub tripwires : List (Tripwire F)
  pub loiter_seconds : F
  pub cooldown_seconds : F
  pub trip_state : List (ℕ × List (String × TripwireState F))
  pub loiter_state : List (ℕ × List (String × LoiterState F))
  pub last_event_at : List (String × F)

-- What the f-strings make of an id, a track and a time: with the number of the interval of the given
-- length, or with the time itself.
pub record Format (F : Type 0) : Type 0 where
  pub bucket_key : String → String → ℕ → F → F → String
  pub time_key : String → String → ℕ → F → String

abbrev pub or_else {ℓ} : {A : Type ℓ} → Option A → A → A
or_else none d = d
or_else (some a) d = a

module _ {F : Type 0} where
  unfoldable pub reset : RuleEngine F → RuleEngine F
  reset s = record s { trip_state = []; loiter_state = []; last_event_at = [] }

  unfoldable pub prune_track : RuleEngine F → ℕ → RuleEngine F
  prune_track s track_id = record s {
    trip_state = erase track_id s.trip_state;
    loiter_state = erase track_id s.loiter_state;
  }

module _ {F : Type 0} ⦃f : Float F⦄ where
  abbrev pub new_trip : TripwireState F
  new_trip = record { last_side = none; armed = true; last_cross = zero_f; last_pos = none }

  abbrev pub new_loiter : LoiterState F
  new_loiter = record { enter_ts = none; dwell_triggered = false; outside_streak = 0 }

  -- `<=` on pairs.
  abbrev pub tuple_le : F × F → F × F → Bool
  tuple_le (ax, ay) (bx, by) =
      if equals ax bx then (if equals ay by then true else at_most ay by) else at_most ax bx

  -- The end points in canonical order.
  unfoldable pub oriented : F × F → F × F → (F × F) × (F × F)
  oriented p1 p2 = if tuple_le p1 p2 then (p1, p2) else (p2, p1)

  -- `_side(p, a, b)`
  unfoldable pub side : F × F → F × F → F × F → F
  unfolding orient
  side p a b = orient a b p

  abbrev pub keep_recent : F → List (String × F) → List (String × F)
  keep_recent cutoff [] = []
  keep_recent cutoff ((k, v) ∷ l) =
      let rest = keep_recent cutoff l in if at_most cutoff v then (k, v) ∷ rest else rest

  abbrev pub trimmed : F → F → List (String × F) → List (String × F)
  trimmed cooldown now log =
      if ltb 1000 (length log)
      then keep_recent (minus now (larger (times cooldown (num 2 1)) (num 60 1))) log
      else log

  abbrev pub recent : F → F → Option F → Bool
  recent cooldown now none = false
  recent cooldown now (some last) = less (minus now last) cooldown

  -- `_should_emit`: the answer, and `_last_event_at` after the call.
  unfoldable pub should_emit : F → List (String × F) → String → F → Bool × List (String × F)
  should_emit cooldown log dedup now =
      let stored = insert dedup now log in
      if at_most cooldown zero_f
      then (true, stored)
      else if recent cooldown now (lookup dedup log)
      then (false, log)
      else (true, trimmed cooldown now stored)

  abbrev pub dedup_key : Format F → F → String → String → ℕ → F → String
  dedup_key w cooldown kind id track timestamp =
      if less zero_f cooldown
      then w.bucket_key kind id track cooldown timestamp
      else w.time_key kind id track timestamp

  -- `direction_ok`
  unfoldable pub direction_ok : String → F → F → Bool
  direction_ok direction before now =
      same direction "both"
      || (same direction "outside_to_inside" && less zero_f before && less now zero_f)
      || (same direction "inside_to_outside" && less before zero_f && less zero_f now)

  abbrev pub seen_at : TripwireState F → F → F × F → TripwireState F
  seen_at st now foot = record st { last_side = some now; last_pos = some foot }

  -- An armed wire, for a track that has been seen before.
  unfoldable pub cross :
      F
      → List (String × F)
      → String
      → Tripwire F
      → TripwireState F
      → F
      → F × F
      → F
      → F × F
      → F × F
      → F × F
      → F
      → TripwireState F × Option (RuleEvent F) × List (String × F)
  unfolding intersect direction_ok should_emit
  cross cooldown log dedup tw st before pos now foot a b timestamp =
      let emitted = should_emit cooldown log dedup timestamp in
      let st' = seen_at st now foot in
      let fired : TripwireState F = record st' { armed = false; last_cross = timestamp } in
      if less (times before now) zero_f && intersect pos foot a b
      then if direction_ok tw.direction before now
        then if emitted.0
          then (fired, some (tripwire_cross tw.id tw.direction), emitted.1)
          else (st', none, emitted.1)
        else (st', none, log)
      else (st', none, log)

  abbrev pub crossed_or_seen :
      F
      → List (String × F)
      → String
      → Tripwire F
      → TripwireState F
      → F
      → F × F
      → F × F
      → F × F
      → F
      → Option F
      → Option (F × F)
      → TripwireState F × Option (RuleEvent F) × List (String × F)
  crossed_or_seen cooldown log dedup tw st now foot a b timestamp (some before) (some pos) =
      cross cooldown log dedup tw st before pos now foot a b timestamp
  crossed_or_seen cooldown log dedup tw st now foot a b timestamp (some before) none =
      (seen_at st now foot, none, log)
  crossed_or_seen cooldown log dedup tw st now foot a b timestamp none pos =
      (seen_at st now foot, none, log)

  -- `abs(side - st.last_side) > tw.hysteresis`, for a side that is known.
  abbrev pub moved_off : F → F → Option F → Bool
  moved_off hysteresis now none = false
  moved_off hysteresis now (some before) = less hysteresis (magnitude (minus now before))

  -- The body of the loop over the tripwires.
  unfoldable pub trip_step :
      F
      → List (String × F)
      → String
      → Tripwire F
      → TripwireState F
      → F × F
      → F
      → TripwireState F × Option (RuleEvent F) × List (String × F)
  unfolding oriented side cross
  trip_step cooldown log dedup tw st foot timestamp =
      let ends = oriented tw.p1 tw.p2 in
      let now = side foot ends.0 ends.1 in
      let ready = record st { armed = true } in
      if st.armed || moved_off tw.hysteresis now st.last_side
      then crossed_or_seen cooldown log dedup tw ready now foot ends.0 ends.1 timestamp st.last_side
          st.last_pos
      else (st, none, log)

  abbrev pub with_event : Option (RuleEvent F) → List (RuleEvent F) → List (RuleEvent F)
  with_event none es = es
  with_event (some e) es = e ∷ es

  abbrev pub trip_of : RuleEngine F → ℕ → String → TripwireState F
  trip_of s track id = or_else (lookup id (or_else (lookup track s.trip_state) [])) new_trip

  abbrev pub set_trip :
      RuleEngine F → ℕ → String → TripwireState F → List (String × F) → RuleEngine F
  set_trip s track id st log = record s {
    trip_state = insert track (insert id st (or_else (lookup track s.trip_state) [])) s.trip_state;
    last_event_at = log;
  }

  unfoldable pub trip_all :
      Format F
      → RuleEngine F
      → ℕ
      → F × F
      → F
      → List (Tripwire F)
      → RuleEngine F × List (RuleEvent F)
  unfolding trip_step
  trip_all w s track foot timestamp [] = (s, [])
  trip_all w s track foot timestamp (tw ∷ tws) =
      let key = dedup_key w s.cooldown_seconds "trip" tw.id track timestamp in
      let r =
        trip_step s.cooldown_seconds s.last_event_at key tw (trip_of s track tw.id) foot
          timestamp in
      let next = trip_all w (set_trip s track tw.id r.0 r.2) track foot timestamp tws in
      (next.0, with_event r.1 next.1)

  unfoldable pub check_tripwire :
      Format F → RuleEngine F → ℕ → F × F → F → RuleEngine F × List (RuleEvent F)
  unfolding trip_all
  check_tripwire w s track foot timestamp = trip_all w s track foot timestamp s.tripwires
