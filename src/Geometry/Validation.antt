-- ===== src/Geometry/Validation.antt =====
-- What the validation of a polygon lets through (core/geometry.py).
use ibvap.Common.{
  ℕ, zero, suc, ◌+◌, ◌≤◌, ◌<◌, Bool, true, false, ◌&&◌, ◌||◌, none, some, List, [], ◌∷◌, leb, ◌==◌,
  ◌≡◌, arith, if◌then◌else◌, length, get_elem?, any, All, Option-cases, inl, inr,
}
use ibvap.Common.Float.{Float, num}
use ibvap.Geometry.Segments.{zero_f, within}
use ibvap.Geometry.Polygons.{
  edges, coordinate_error, too_short, meets, meets_later, self_intersects, shape_error,
  unique_points, validate_polygon,
}

rest_false : (c m rest : Bool) → (if c then rest else (m || rest)) ≡ false → rest ≡ false
rest_false true m rest h = h
rest_false false true rest h = absurd cc
rest_false false false rest h = h

-- `i` and `j` are the indexes of edges that share no vertex, and `i` comes first.
abbrev pub IsApart : ℕ → ℕ → ℕ → Type 0
IsApart n i j = (i + 1 < j) × ((i == 0 && (j + 1 == n)) ≡ false)

module _ {F : Type 0} ⦃f : Float F⦄ where
  abbrev pub IsInUnit : F × F → Type 0
  IsInUnit (x, y) =
      (f.finite x ≡ true)
      × (f.finite y ≡ true)
      × (within zero_f x (num 1 1) ≡ true)
      × (within zero_f y (num 1 1) ≡ true)

  coordinate_error-All : (ps : List (F × F)) → coordinate_error ps ≡ none → All IsInUnit ps
  unfolding coordinate_error
  coordinate_error-All [] h = tt
  coordinate_error-All ((x, y) ∷ ps) h = ground (arith, coordinate_error-All ps)

  too_short-All :
      (es : List ((F × F) × (F × F))) → any too_short es ≡ false → All (λ e. too_short e ≡ false) es
  too_short-All [] h = tt
  too_short-All (e ∷ es) h = ground (arith, too_short-All es)

  meets_later_lem :
      (n i : ℕ) (e : (F × F) × (F × F)) (j : ℕ) (es : List ((F × F) × (F × F))) (k : ℕ)
      (e' : (F × F) × (F × F))
      → meets_later n i e j es ≡ false
      → get_elem? es k ≡ some e'
      → IsApart n i (j + k)
      → meets e e' ≡ false
  unfolding meets_later
  meets_later_lem n i e j [] k e' h g a = absurd cc
  meets_later_lem n i e j (x ∷ es) zero e' h g a =
      let start : j + 0 ≡ j = omega arith in
      let apart : IsApart n i j = rw start at a in ground arith
  meets_later_lem n i e j (x ∷ es) (suc k) e' h g a =
      let shift : j + suc k ≡ suc j + k = omega arith in
      let apart : IsApart n i (suc j + k) = rw shift at a in
      let skips = leb j (i + 1) || (i == 0 && (j + 1 == n)) in
      meets_later_lem n i e (suc j) es k e'
        (rest_false skips (meets e x) (meets_later n i e (suc j) es) h) g apart

  self_intersects_lem :
      (n i : ℕ) (es : List ((F × F) × (F × F))) (j k : ℕ) (e e' : (F × F) × (F × F))
      → self_intersects n i es ≡ false
      → get_elem? es j ≡ some e
      → get_elem? es k ≡ some e'
      → IsApart n (i + j) (i + k)
      → meets e e' ≡ false
  unfolding self_intersects
  self_intersects_lem n i [] j k e e' h gj gk a = absurd cc
  self_intersects_lem n i (x ∷ es) j zero e e' h gj gk a = absurd (omega (arith, a.0))
  self_intersects_lem n i (x ∷ es) zero (suc k) e e' h gj gk a =
      let start : i + 0 ≡ i = omega arith in
      let shift : i + suc k ≡ suc i + k = omega arith in
      let apart : IsApart n i (suc i + k) = rw (start, shift) at a in
      let first : x ≡ e = cc in
      let later : meets_later n i e (suc i) es ≡ false = ground arith in
      meets_later_lem n i e (suc i) es k e' later gk apart
  self_intersects_lem n i (x ∷ es) (suc j) (suc k) e e' h gj gk a =
      let shift_j : i + suc j ≡ suc i + j = omega arith in
      let shift_k : i + suc k ≡ suc i + k = omega arith in
      let apart : IsApart n (suc i + j) (suc i + k) = rw (shift_j, shift_k) at a in
      self_intersects_lem n (suc i) es j k e e' (ground arith) gj gk apart

  -- A simple polygon of the frame.
  pub record IsSimple (points : List (F × F)) : Type 0 where
    pub few : (3 ≤ unique_points points) × (length points ≤ 32)
    pub in_unit : All IsInUnit points
    pub long : All (λ e. too_short e ≡ false) (edges points)
    pub apart :
        (i j : ℕ) (e e' : (F × F) × (F × F))
        → get_elem? (edges points) i ≡ some e
        → get_elem? (edges points) j ≡ some e'
        → IsApart (length points) i j
        → meets e e' ≡ false

  -- A polygon in which `validate_polygon` finds no error has at most 32 vertices, of which 3 differ,
  -- finite coordinates in [0,1], no edge that is too short, and no two edges without a common vertex
  -- that meet.
  pub validate_polygon-IsSimple :
      (points : List (F × F)) → validate_polygon points ≡ none → IsSimple points
  unfolding validate_polygon shape_error
  validate_polygon-IsSimple points h = elim (Option-cases (coordinate_error points)) [
    | inr (e, p) ↦ absurd (ground arith)
    | inl p ↦ record {
      few = (ground arith, ground arith);
      in_unit = coordinate_error-All points p;
      long = too_short-All (edges points) (ground arith);
      apart = λ i j e e' gi gj a.
          let clean : self_intersects (length points) 0 (edges points) ≡ false = ground arith in
          let from_i : 0 + i ≡ i = omega arith in
          let from_j : 0 + j ≡ j = omega arith in
          let moved : IsApart (length points) (0 + i) (0 + j) = rw (from_i, from_j) a in
          self_intersects_lem (length points) 0 (edges points) i j e e' clean gi gj moved;
    }
  ]
