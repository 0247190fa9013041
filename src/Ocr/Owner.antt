-- ===== src/Ocr/Owner.antt =====
-- The vehicle that a plate is given to (core/ocr_worker.py).
use ibvap.Common.{
  ℕ, ◌≡◌, ◌⊎◌, refl, sym, ap, ◌∙◌, true, false, some, List, [], ◌∷◌, All, subst, Bool-cases,
  Option-cases, inl, inr,
}
use ibvap.Common.Float.{Float, less, num}
use ibvap.Tracker.Tracks.{Box}
use ibvap.Ocr.Defs.{Vehicle, overlap_iou, match_loop, match_vehicle_track}

module _ {F : Type 0} ⦃f : Float F⦄ (d : Box F) where
  -- No vehicle of the list overlaps more.
  abbrev pub IsMost : F → List (Vehicle F) → Type 0
  IsMost best ts = All (λ t. (x : F) → overlap_iou d t.bbox_norm ≡ some x → less best x ≡ false) ts

  -- A vehicle of the list has this number and this overlap.
  abbrev pub Has : ℕ → F → List (Vehicle F) → Type 0
  Has k x [] = ⊥
  Has k x (t ∷ ts) = ((t.track_id ≡ k) × (overlap_iou d t.bbox_norm ≡ some x)) ⊎ Has k x ts

  -- What the loop makes of a list that it starts at `k` and `b`.
  abbrev IsOutcome : ℕ → F → List (Vehicle F) → ℕ × F → Type 0
  IsOutcome k b ts r =
      (less r.1 b ≡ false)
      × IsMost r.1 ts
      × (((r.0 ≡ k) × (r.1 ≡ b)) ⊎ (Has r.0 r.1 ts × (less b r.1 ≡ true)))

module _ {F : Type 0} ⦃f : Float F⦄ (asym : (a b : F) → less a b ≡ true → less b a ≡ false)
    (trans : (a b c : F) → less a b ≡ true → less b c ≡ true → less a c ≡ true)
    (neg_trans : (a b c : F) → less a b ≡ false → less b c ≡ false → less a c ≡ false)
    (irrefl : (a : F) → less a a ≡ false) (d : Box F) where
  most-here :
      (t : Vehicle F) (x best : F)
      → overlap_iou d t.bbox_norm ≡ some x
      → less best x ≡ false
      → (y : F) → overlap_iou d t.bbox_norm ≡ some y
      → less best y ≡ false
  most-here t x best e h y other = let it : x ≡ y = cc in rw (← it) h

  skipped :
      (k : ℕ) (b : F) (t : Vehicle F) (ts : List (Vehicle F)) (r : ℕ × F)
      → ((y : F) → overlap_iou d t.bbox_norm ≡ some y → less r.1 y ≡ false)
      → IsOutcome d k b ts r
      → IsOutcome d k b (t ∷ ts) r
  skipped k b t ts r here (low, most, inl same_owner) = (low, (here, most), inl same_owner)
  skipped k b t ts r here (low, most, inr (has, up)) = (low, (here, most), inr (inr has, up))

  match_loop-IsOutcome :
      (k : ℕ) (b : F) (ts : List (Vehicle F)) → IsOutcome d k b ts (match_loop d k b ts)
  unfolding match_loop
  match_loop-IsOutcome k b [] = (irrefl b, tt, inl (refl, refl))
  match_loop-IsOutcome k b (t ∷ ts) = elim (Option-cases (overlap_iou d t.bbox_norm)) [
    | inl apart ↦
        let next : match_loop d k b (t ∷ ts) ≡ match_loop d k b ts = rw (apart, match_loop) in
        subst (IsOutcome d k b (t ∷ ts)) (sym next)
          (skipped k b t ts (match_loop d k b ts) (λ y h. absurd cc) (match_loop-IsOutcome k b ts))
    | inr (x, scored) ↦ elim (Bool-cases (less b x)) [
      | inr worse ↦
          let next : match_loop d k b (t ∷ ts) ≡ match_loop d k b ts =
            rw (scored, worse, match_loop) in
          let rest = match_loop-IsOutcome k b ts in
          subst (IsOutcome d k b (t ∷ ts)) (sym next) (
            skipped k b t ts (match_loop d k b ts)
              (most-here t x _ scored (neg_trans _ b x rest.0 worse)) rest)
      | inl better ↦
          let next : match_loop d k b (t ∷ ts) ≡ match_loop d t.track_id x ts =
            rw (scored, better, match_loop) in
          subst (IsOutcome d k b (t ∷ ts)) (sym next) (
            taken k b t ts x scored better (match_loop d t.track_id x ts)
              (match_loop-IsOutcome t.track_id x ts))
    ]
  ]
    where
      taken :
          (k : ℕ) (b : F) (t : Vehicle F) (ts : List (Vehicle F)) (x : F)
          → overlap_iou d t.bbox_norm ≡ some x
          → less b x ≡ true
          → (r : ℕ × F) → IsOutcome d t.track_id x ts r
          → IsOutcome d k b (t ∷ ts) r
      taken k b t ts x scored better r (low, most, inl (owner, score)) = (
        neg_trans r.1 x b low (asym b x better),
        (most-here t x r.1 scored low, most),
        inr (inl (sym owner, scored ∙ ap some (sym score)), rw score better),
      )
      taken k b t ts x scored better r (low, most, inr (has, up)) = (
        neg_trans r.1 x b low (asym b x better),
        (most-here t x r.1 scored low, most),
        inr (inr has, trans b x r.1 better up),
      )

  -- Where overlaps are comparable: the plate goes to a vehicle of the list that it overlaps, by more than
  -- 0 and no less than any other, or the result is 0 and no vehicle of the list overlaps it by more than 0.
  pub match_vehicle_track-IsMost :
      (tracks : List (Vehicle F))
      → ((match_vehicle_track d tracks ≡ 0) × IsMost d (num 0 1) tracks)
        ⊎ ((best : F) × Has d (match_vehicle_track d tracks) best tracks
            × (less (num 0 1) best ≡ true)
            × IsMost d best tracks)
  unfolding match_vehicle_track
  match_vehicle_track-IsMost tracks =
      let (low, most, owner) = match_loop-IsOutcome 0 (num 0 1) tracks in
      elim owner [
        | inl none_over ↦ inl (none_over.0, subst (λ b. IsMost d b tracks) none_over.1 most)
        | inr one ↦ inr ((match_loop d 0 (num 0 1) tracks).1, one.0, one.1, most)
      ]
