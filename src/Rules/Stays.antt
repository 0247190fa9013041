-- ===== src/Rules/Stays.antt =====
-- Loitering in `RuleEngine`: `check_zones` (core/rules.py).
use ibvap.Common.{
  ℕ, ◌+◌, Bool, true, false, not, ◌&&◌, Option, none, some, List, [], ◌∷◌, String, leb,
  if◌then◌else◌, string_key, nat_key,
}
use ibvap.Common.Dict.{lookup, insert}
use ibvap.Common.Float.{Float, minus, at_most}
use ibvap.Geometry.Polygons.{point_in_polygon}
use ibvap.Rules.Defs.{
  LoiterState, ZoneRule, RuleEvent, loitering, RuleEngine, Format, or_else, new_loiter, should_emit,
  dedup_key, with_event,
}

module _ {F : Type 0} ⦃f : Float F⦄ where
  abbrev pub entered : LoiterState F → F → F
  entered st timestamp = or_else st.enter_ts timestamp

  -- The body of the loop over the zones, for a track that is inside or outside.
  unfoldable pub loiter_step :
      F
      → F
      → List (String × F)
      → String
      → String
      → LoiterState F
      → Bool
      → F
      → LoiterState F × Option (RuleEvent F) × List (String × F)
  unfolding should_emit
  loiter_step cooldown limit log dedup zid st true timestamp =
      let here = record st { outside_streak = 0; enter_ts = some (entered st timestamp) } in
      let dwell = minus timestamp (entered st timestamp) in
      let emitted = should_emit cooldown log dedup timestamp in
      if at_most limit dwell && not st.dwell_triggered
      then if emitted.0
        then (record here { dwell_triggered = true }, some (loitering zid dwell), emitted.1)
        else (here, none, emitted.1)
      else (here, none, log)
  loiter_step cooldown limit log dedup zid st false timestamp =
      let away = record st { outside_streak = st.outside_streak + 1 } in
      if leb 3 (st.outside_streak + 1)
      then (record away { enter_ts = none; dwell_triggered = false }, none, log)
      else (away, none, log)

  abbrev pub loiter_of : RuleEngine F → ℕ → String → LoiterState F
  loiter_of s track id = or_else (lookup id (or_else (lookup track s.loiter_state) [])) new_loiter

  abbrev pub set_loiter :
      RuleEngine F → ℕ → String → LoiterState F → List (String × F) → RuleEngine F
  set_loiter s track id st log = record s {
    loiter_state =
        insert track (insert id st (or_else (lookup track s.loiter_state) [])) s.loiter_state;
    last_event_at = log;
  }

  unfoldable pub zone_all :
      Format F
      → RuleEngine F
      → ℕ
      → F × F
      → F
      → List (ZoneRule F)
      → RuleEngine F × List (RuleEvent F)
  unfolding loiter_step point_in_polygon
  zone_all w s track foot timestamp [] = (s, [])
  zone_all w s track foot timestamp (z ∷ zs) =
      let key = dedup_key w s.cooldown_seconds "loiter" z.id track timestamp in
      let inside = point_in_polygon foot.0 foot.1 z.polygon in
      let r =
        loiter_step s.cooldown_seconds s.loiter_seconds s.last_event_at key z.id
          (loiter_of s track z.id) inside timestamp in
      let next = zone_all w (set_loiter s track z.id r.0 r.2) track foot timestamp zs in
      (next.0, with_event r.1 next.1)

  unfoldable pub check_zones :
      Format F → RuleEngine F → ℕ → F × F → F → RuleEngine F × List (RuleEvent F)
  unfolding zone_all
  check_zones w s track foot timestamp = zone_all w s track foot timestamp s.zones
