-- ===== src/Geometry/Crossing.antt =====
-- The ray test does not depend on where the drawing of a polygon begins (core/geometry.py).
use ibvap.Common.{
  Bool, false, not, List, [], ◌∷◌, ◌++◌, ◌≡◌, refl, sym, ap, ◌∙◌, arith, if◌then◌else◌,
}
use ibvap.Common.Float.{Float}
use ibvap.Geometry.Polygons.{edges_from, crosses, inside_from, point_in_polygon}

module _ {F : Type 0} where
  edges_from-append :
      (first cur p : F × F) (ps : List (F × F))
      → edges_from first cur (ps ++ p ∷ []) ≡ edges_from p cur ps ++ (p, first) ∷ []
  edges_from-append first cur p [] = refl
  edges_from-append first cur p (q ∷ ps) = ap (λ l. (cur, q) ∷ l) (edges_from-append first q p ps)

module _ {F : Type 0} ⦃f : Float F⦄ (x y : F) where
  abbrev flip : (F × F) × (F × F) → Bool → Bool
  flip e b = if crosses x y e then not b else b

  flip-flip : (e e' : (F × F) × (F × F)) (b : Bool) → flip e (flip e' b) ≡ flip e' (flip e b)
  flip-flip e e' b = ground arith

  inside_from-flip :
      (b : Bool) (e : (F × F) × (F × F)) (es : List ((F × F) × (F × F)))
      → inside_from x y (flip e b) es ≡ flip e (inside_from x y b es)
  unfolding inside_from
  inside_from-flip b e [] = refl
  inside_from-flip b e (e' ∷ es) =
      ap (λ c. inside_from x y c es) (flip-flip e' e b) ∙ inside_from-flip (flip e' b) e es

  inside_from-snoc :
      (b : Bool) (e : (F × F) × (F × F)) (es : List ((F × F) × (F × F)))
      → inside_from x y b (es ++ e ∷ []) ≡ flip e (inside_from x y b es)
  unfolding inside_from
  inside_from-snoc b e [] = refl
  inside_from-snoc b e (e' ∷ es) = inside_from-snoc (flip e' b) e es

  -- Whether a point is inside does not change when the first vertex of the polygon is listed last.
  pub point_in_polygon_rotate :
      (p : F × F) (ps : List (F × F))
      → point_in_polygon x y (ps ++ p ∷ []) ≡ point_in_polygon x y (p ∷ ps)
  unfolding point_in_polygon inside_from
  point_in_polygon_rotate p [] = refl
  point_in_polygon_rotate p (q ∷ ps) =
      ap (inside_from x y false) (edges_from-append q q p ps)
      ∙ (inside_from-snoc false (p, q) (edges_from p q ps)
          ∙ sym (inside_from-flip false (p, q) (edges_from p q ps)))
