-- ===== src/Geometry/Tests.antt =====
-- Polygons and points in thousandths (core/geometry.py, core/zone_engine.py).
use ibvap.Common.{ℕ, ◌≡◌, refl, false, none, List, [], ◌∷◌}
use ibvap.Common.Milli.{milli}
use ibvap.Geometry.Polygons.{validate_polygon}
use ibvap.Geometry.Validation.{IsSimple, validate_polygon-IsSimple}
use ibvap.Geometry.Zones.{Zone, is_intrusion}

abbrev triangle : List (ℕ × ℕ)
triangle = (900, 100) ∷ (100, 900) ∷ (600, 600) ∷ []

validate_polygon-IsSimple_example : IsSimple triangle
unfolding validate_polygon
validate_polygon-IsSimple_example = validate_polygon-IsSimple triangle refl

abbrev zone : Zone ℕ
zone = record {
  id = "z";
  name = "yard";
  polygon = triangle;
  enabled = false;
  fence_type = "polygon";
}

disabled_zone : is_intrusion (800, 800) zone none none ≡ false
unfolding is_intrusion
disabled_zone = refl
