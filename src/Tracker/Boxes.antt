-- ===== src/Tracker/Boxes.antt =====
-- What `_sanitize_bbox` (core/tracker.py) lets through.
use ibvap.Common.{
  ◌≡◌, refl, true, false, ◌&&◌, ◌||◌, Option, none, some, List, [], ◌∷◌, String, arith,
  if◌then◌else◌, subst, length, all, Bool-cases, inl, inr,
}
use ibvap.Common.Float.{Float, IsOrder, less, num, minus}
use ibvap.Tracker.Tracks.{Box}
use ibvap.Tracker.Detections.{clamp, is_human_shape, sanitize_coords, sanitize_bbox}

module _ {F : Type 0} ⦃f : Float F⦄ where
  -- Not below 0 and not above 1.
  abbrev pub InUnit : F → Type 0
  InUnit x = (less x (num 0 1) ≡ false) × (less (num 1 1) x ≡ false)

  -- A box of the frame, of some width and height.
  pub record InFrame (b : Box F) : Type 0 where
    pub left : InUnit b.x1
    pub top : InUnit b.y1
    pub right : InUnit b.x2
    pub bottom : InUnit b.y2
    pub wide : less (minus b.x2 b.x1) (num 5 1000) ≡ false
    pub high : less (minus b.y2 b.y1) (num 5 1000) ≡ false

  not_both : (o : IsOrder f) (a b : F) → less a b ≡ true → less b a ≡ false
  not_both o a b h = elim (Bool-cases (less b a)) [
    | inl p ↦ absurd (let q = o.trans a b a h p in let r = o.irrefl a in cc)
    | inr p ↦ p
  ]

  clamp-InUnit : (o : IsOrder f) (x : F) → f.lt (f.lit 0 1) (f.lit 1 1) ≡ true → InUnit (clamp x)
  clamp-InUnit o x h =
      let a = not_both o (num 0 1) (num 1 1) h in
      let b = o.irrefl (num 0 1) in
      let c = o.irrefl (num 1 1) in
      let d = not_both o (num 0 1) x in let e = not_both o x (num 1 1) in ground arith

  sanitize_coords-InFrame :
      (o : IsOrder f) (x1 y1 x2 y2 : F) (class_name : String) (b : Box F)
      → f.lt (f.lit 0 1) (f.lit 1 1) ≡ true
      → sanitize_coords x1 y1 x2 y2 class_name ≡ some b
      → InFrame b
  unfolding sanitize_coords
  sanitize_coords-InFrame o x1 y1 x2 y2 class_name b h e =
      let l = clamp (if less x2 x1 then x2 else x1) in
      let r = clamp (if less x2 x1 then x1 else x2) in
      let t = clamp (if less y2 y1 then y2 else y1) in
      let u = clamp (if less y2 y1 then y1 else y2) in
      let box : Box F = record { x1 = l; y1 = t; x2 = r; y2 = u } in
      let small = less (minus r l) (num 5 1000) || less (minus u t) (num 5 1000) in
      elim (Bool-cases small) [
        | inl p ↦ absurd (let no : none ≡ some b = rw p at e in cc)
        | inr p ↦ elim (Bool-cases (is_human_shape class_name (minus r l) (minus u t))) [
          | inl q ↦
              let same_box : some box ≡ some b = rw (p, q) at e in
              let equal : box ≡ b = cc in
              subst InFrame equal (record {
                left = clamp-InUnit o (if less x2 x1 then x2 else x1) h;
                top = clamp-InUnit o (if less y2 y1 then y2 else y1) h;
                right = clamp-InUnit o (if less x2 x1 then x1 else x2) h;
                bottom = clamp-InUnit o (if less y2 y1 then y1 else y2) h;
                wide = ground arith;
                high = ground arith;
              })
          | inr q ↦ absurd (let no : none ≡ some b = rw (p, q) at e in cc)
        ]
      ]

  -- If `<` is irreflexive and transitive and 0 < 1, then a box that `_sanitize_bbox` returns lies in
  -- the frame, is not narrower and not lower than 0.005, and comes from four finite coordinates.
  pub sanitize_bbox-InFrame :
      (o : IsOrder f) (raw : Option (List F)) (class_name : String) (b : Box F)
      → f.lt (f.lit 0 1) (f.lit 1 1) ≡ true
      → sanitize_bbox raw class_name ≡ some b
      → InFrame b
        × ((l : List F) × (raw ≡ some l) × (length l ≡ 4) × (all (λ x. f.finite x) l ≡ true))
  unfolding sanitize_bbox
  sanitize_bbox-InFrame o none class_name b h e = absurd cc
  sanitize_bbox-InFrame o (some []) class_name b h e = absurd cc
  sanitize_bbox-InFrame o (some (x1 ∷ [])) class_name b h e = absurd cc
  sanitize_bbox-InFrame o (some (x1 ∷ y1 ∷ [])) class_name b h e = absurd cc
  sanitize_bbox-InFrame o (some (x1 ∷ y1 ∷ x2 ∷ [])) class_name b h e = absurd cc
  sanitize_bbox-InFrame o (some (x1 ∷ y1 ∷ x2 ∷ y2 ∷ z ∷ l)) class_name b h e = absurd cc
  sanitize_bbox-InFrame o (some (x1 ∷ y1 ∷ x2 ∷ y2 ∷ [])) class_name b h e =
      elim (Bool-cases (f.finite x1 && f.finite y1 && f.finite x2 && f.finite y2)) [
        | inl p ↦
            let g : sanitize_coords x1 y1 x2 y2 class_name ≡ some b = rw p at e in
            (
              sanitize_coords-InFrame o x1 y1 x2 y2 class_name b h g,
              (x1 ∷ y1 ∷ x2 ∷ y2 ∷ [], refl, omega arith, ground arith),
            )
        | inr p ↦ absurd (let no : none ≡ some b = rw p at e in cc)
      ]
