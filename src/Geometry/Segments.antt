-- ===== src/Geometry/Segments.antt =====
-- Points, segments and the distance of a point from a segment (core/geometry.py).
use ibvap.Common.{Bool, true, ◌&&◌, ◌||◌, if◌then◌else◌}
use ibvap.Common.Float.{Float, plus, minus, times, over, less, at_most, num, larger, smaller}

module _ {F : Type 0} ⦃f : Float F⦄ where
  abbrev pub zero_f : F
  zero_f = num 0 1

  abbrev pub equals : F → F → Bool
  equals = f.eq

  unfoldable pub on_seg : F × F → F × F → F × F → Bool
  on_seg (ax, ay) (bx, by) (cx, cy) =
      at_most (smaller ax cx) bx
      && at_most bx (larger ax cx)
      && at_most (smaller ay cy) by
      && at_most by (larger ay cy)

  unfoldable pub orient : F × F → F × F → F × F → F
  orient (ax, ay) (bx, by) (cx, cy) =
      minus (times (minus bx ax) (minus cy ay)) (times (minus by ay) (minus cx ax))

  unfoldable pub intersect : F × F → F × F → F × F → F × F → Bool
  unfolding on_seg orient
  intersect p1 p2 q1 q2 =
      let o1 = orient p1 p2 q1 in
      let o2 = orient p1 p2 q2 in
      let o3 = orient q1 q2 p1 in
      let o4 = orient q1 q2 p2 in
      if less (times o1 o2) zero_f && less (times o3 o4) zero_f
      then true
      else if equals o1 zero_f && on_seg p1 q1 p2
      then true
      else if equals o2 zero_f && on_seg p1 q2 p2
      then true
      else if equals o3 zero_f && on_seg q1 p1 q2
      then true
      else equals o4 zero_f && on_seg q1 p2 q2

  unfoldable pub point_to_segment_distance : F → F → F → F → F → F → F
  point_to_segment_distance px py ax ay bx by =
      let dx = minus bx ax in
      let dy = minus by ay in
      let l2 = plus (times dx dx) (times dy dy) in
      let along = over (plus (times (minus px ax) dx) (times (minus py ay) dy)) l2 in
      let t = larger zero_f (smaller (num 1 1) along) in
      let proj_x = plus ax (times t dx) in
      let proj_y = plus ay (times t dy) in
      if less l2 (num 1 1000000000)
      then f.hypot (minus px ax) (minus py ay)
      else f.hypot (minus px proj_x) (minus py proj_y)

  abbrev pub within : F → F → F → Bool
  within lo x hi = at_most lo x && at_most x hi

  -- The box as its four coordinates.
  unfoldable pub segment_intersects_bbox : F → F → F → F → F → F → F → F → Bool
  unfolding intersect
  segment_intersects_bbox ax ay bx by x1 y1 x2 y2 =
      let p1 : F × F = (ax, ay) in
      let p2 : F × F = (bx, by) in
      if within x1 ax x2 && within y1 ay y2
      then true
      else if within x1 bx x2 && within y1 by y2
      then true
      else intersect p1 p2 (x1, y1) (x2, y1)
        || intersect p1 p2 (x2, y1) (x2, y2)
        || intersect p1 p2 (x2, y2) (x1, y2)
        || intersect p1 p2 (x1, y2) (x1, y1)
