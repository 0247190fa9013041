-- ===== src/Geometry/Polygons.antt =====
-- Polygons: the ray test, and the validation of lines, polygons and fences (core/geometry.py).
-- A point of the JSON input is a pair here: what is not a list of two numbers fails at `for x, y`.
use ibvap.Common.{
  ℕ, suc, ◌+◌, Bool, false, not, ◌&&◌, ◌||◌, Option, none, some, List, [], ◌∷◌, String, ltb, leb,
  ◌==◌, if◌then◌else◌, length, any, same, string_key,
}
use ibvap.Common.Float.{Float, plus, minus, times, over, less, num}
use ibvap.Geometry.Segments.{zero_f, equals, within, intersect}

module _ {F : Type 0} where
  -- The edges from `cur` on, where `first` closes the polygon: `poly[i]` and `poly[(i + 1) % n]`.
  abbrev pub edges_from : F × F → F × F → List (F × F) → List ((F × F) × (F × F))
  edges_from first cur [] = (cur, first) ∷ []
  edges_from first cur (p ∷ ps) = (cur, p) ∷ edges_from first p ps

  abbrev pub edges : List (F × F) → List ((F × F) × (F × F))
  edges [] = []
  edges (p ∷ ps) = edges_from p p ps

module _ {F : Type 0} ⦃f : Float F⦄ where
  abbrev pub magnitude : F → F
  magnitude x = if less x zero_f then minus zero_f x else x

  -- The ray from the point crosses the edge.
  unfoldable pub crosses : F → F → (F × F) × (F × F) → Bool
  crosses x y ((x1, y1), (x2, y2)) =
      let rise = plus (minus y2 y1) (num 1 1000000000) in
      let at_x = plus (over (times (minus x2 x1) (minus y y1)) rise) x1 in
      let straddles = if less y y1 then not (less y y2) else less y y2 in straddles && less x at_x

  unfoldable pub inside_from : F → F → Bool → List ((F × F) × (F × F)) → Bool
  unfolding crosses
  inside_from x y inside [] = inside
  inside_from x y inside (e ∷ es) =
      inside_from x y (if crosses x y e then not inside else inside) es

  unfoldable pub point_in_polygon : F → F → List (F × F) → Bool
  unfolding inside_from
  point_in_polygon x y polygon = inside_from x y false (edges polygon)

  -- The loop over the coordinates: the first error that it meets.
  unfoldable pub coordinate_error : List (F × F) → Option String
  coordinate_error [] = none
  coordinate_error ((x, y) ∷ ps) =
      let rest = coordinate_error ps in
      if not (f.finite x && f.finite y)
      then some "Non-finite coordinate"
      else if not (within zero_f x (num 1 1) && within zero_f y (num 1 1))
      then some "Coordinate out of [0,1]"
      else rest

  unfoldable pub too_short : (F × F) × (F × F) → Bool
  too_short ((x1, y1), (x2, y2)) = less (f.hypot (minus x2 x1) (minus y2 y1)) (num 5 1000)

  abbrev pub line_length_error : F × F → F × F → Option String → Option String
  line_length_error p q (some e) = some e
  line_length_error p q none = if too_short (p, q) then some "Line too short" else none

  unfoldable pub validate_line : List (F × F) → Option String
  unfolding coordinate_error too_short
  validate_line (p ∷ q ∷ []) = line_length_error p q (coordinate_error (p ∷ q ∷ []))
  validate_line points = some "Line fence requires exactly 2 points"

  -- `tuple(p)` is in the set.
  abbrev pub holds_point : F × F → List (F × F) → Bool
  holds_point (x, y) l = any (λ q. equals x q.0 && equals y q.1) l

  -- `len(uniq)`
  unfoldable pub unique_points : List (F × F) → ℕ
  unique_points [] = 0
  unique_points (p ∷ ps) = let n = unique_points ps in if holds_point p ps then n else suc n

  -- The shoelace sum.
  unfoldable pub shoelace : F → List ((F × F) × (F × F)) → F
  shoelace acc [] = acc
  shoelace acc (((x1, y1), (x2, y2)) ∷ es) =
      shoelace (plus acc (minus (times x1 y2) (times x2 y1))) es

  unfoldable pub meets : (F × F) × (F × F) → (F × F) × (F × F) → Bool
  unfolding intersect
  meets (p1, p2) (q1, q2) = intersect p1 p2 q1 q2

  -- The inner loop, with `j` as the index of the next edge: neighbours and the closing edge are skipped.
  unfoldable pub meets_later : ℕ → ℕ → (F × F) × (F × F) → ℕ → List ((F × F) × (F × F)) → Bool
  unfolding meets
  meets_later n i e j [] = false
  meets_later n i e j (e' ∷ es) =
      let rest = meets_later n i e (suc j) es in
      if leb j (i + 1) || (i == 0 && (j + 1 == n)) then rest else meets e e' || rest

  unfoldable pub self_intersects : ℕ → ℕ → List ((F × F) × (F × F)) → Bool
  unfolding meets_later
  self_intersects n i [] = false
  self_intersects n i (e ∷ es) = meets_later n i e (suc i) es || self_intersects n (suc i) es

  -- The checks after the coordinates.
  unfoldable pub shape_error : List (F × F) → Option String
  unfolding shoelace too_short self_intersects
  shape_error points =
      let es = edges points in
      if less (magnitude (shoelace zero_f es)) (num 1 1000000)
      then some "Zero area"
      else if any too_short es
      then some "Edge too short"
      else if self_intersects (length points) 0 es
      then some "Self-intersection"
      else none

  abbrev pub or_shape : List (F × F) → Option String → Option String
  or_shape points (some e) = some e
  or_shape points none = shape_error points

  unfoldable pub validate_polygon : List (F × F) → Option String
  unfolding unique_points coordinate_error shape_error
  validate_polygon points =
      if ltb (length points) 3
      then some "Polygon needs >=3 vertices"
      else if ltb 32 (length points)
      then some "Too many vertices (max 32)"
      else if ltb (unique_points points) 3
      then some "Need >=3 unique vertices"
      else or_shape points (coordinate_error points)

  unfoldable pub validate_fence : List (F × F) → String → Option String
  unfolding validate_line validate_polygon
  validate_fence points fence_type =
      if same fence_type "line"
      then validate_line points
      else if same fence_type "polygon"
      then validate_polygon points
      else if length points == 2
      then validate_line points
      else validate_polygon points
