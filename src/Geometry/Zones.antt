-- ===== src/Geometry/Zones.antt =====
-- `Zone` and `is_intrusion` (core/zone_engine.py).
use ibvap.Common.{
  Bool, true, false, not, ◌&&◌, ◌||◌, Option, none, some, List, [], ◌∷◌, String, leb, ◌==◌,
  if◌then◌else◌, length, last_n, same, string_key,
}
use ibvap.Common.Float.{Float, plus, minus, times, at_most, num}
use ibvap.Tracker.{Track, prev_footpoint}
use ibvap.Geometry.Segments.{intersect, point_to_segment_distance}
use ibvap.Geometry.Polygons.{magnitude, point_in_polygon}

pub record Zone (F : Type 0) : Type 0 where
  pub id : String
  pub name : String
  pub polygon : List (F × F)
  pub enabled : Bool
  pub fence_type : String

module _ {F : Type 0} where
  unfoldable pub is_line : Zone F → Bool
  is_line z = same z.fence_type "line" || (length z.polygon == 2)

module _ {F : Type 0} ⦃f : Float F⦄ where
  -- `prev_foot`, or else that of the track.
  abbrev pub effective_prev : Option (F × F) → Option (Track F) → Option (F × F)
  effective_prev (some p) track = some p
  effective_prev none none = none
  effective_prev none (some t) = prev_footpoint t

  abbrev pub steps_across : Option (F × F) → F × F → F × F → F × F → Bool
  steps_across none foot p1 p2 = false
  steps_across (some p) foot p1 p2 = intersect p foot p1 p2

  -- Some step of the path crosses the line.
  unfoldable pub path_crosses : F × F → F × F → List (F × F) → Bool
  unfolding intersect
  path_crosses p1 p2 [] = false
  path_crosses p1 p2 (a ∷ []) = false
  path_crosses p1 p2 (a ∷ b ∷ l) = intersect a b p1 p2 || path_crosses p1 p2 (b ∷ l)

  -- The third test: the last steps of the centers, where the foot is near the line.
  abbrev pub trajectory_crosses : F → F × F → F × F → Option (Track F) → Bool
  trajectory_crosses dist p1 p2 none = false
  trajectory_crosses dist p1 p2 (some t) =
      let box_h = magnitude (minus t.bbox.y2 t.bbox.y1) in
      leb 2 (length t.trajectory)
      && at_most dist (plus (num 45 1000) (times (num 5 10) box_h))
      && path_crosses p1 p2 (last_n 6 t.trajectory)

  unfoldable pub line_intrusion : F × F → List (F × F) → Option (F × F) → Option (Track F) → Bool
  unfolding point_to_segment_distance intersect path_crosses
  line_intrusion foot (p1 ∷ p2 ∷ rest) prev track =
      let dist = point_to_segment_distance foot.0 foot.1 p1.0 p1.1 p2.0 p2.1 in
      if at_most dist (num 45 1000)
      then true
      else if steps_across (effective_prev prev track) foot p1 p2
      then true
      else trajectory_crosses dist p1 p2 track
  line_intrusion foot poly prev track = false

  unfoldable pub is_intrusion : F × F → Zone F → Option (F × F) → Option (Track F) → Bool
  unfolding is_line line_intrusion point_in_polygon
  is_intrusion foot z prev track =
      if not z.enabled
      then false
      else if is_line z
      then line_intrusion foot z.polygon prev track
      else point_in_polygon foot.0 foot.1 z.polygon
