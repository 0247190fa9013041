-- ===== src/Ocr/Defs.antt =====
-- The drain of OCR results, `_drain_ocr_futures` (services/stream_worker.py), and the choice of the vehicle
-- and of the boxes that are published (core/ocr_worker.py). A list of futures is read in one pass, so a
-- future is given with its state at that time; those that the code cancels are part of the result.
use ibvap.Common.{ℕ, ◌+◌, Bool, ◌&&◌, Option, none, some, List, [], ◌∷◌, ◌++◌, if◌then◌else◌, any}
use ibvap.Common.Float.{Float, plus, minus, times, over, less, at_most, num, larger, smaller}
use ibvap.Tracker.Tracks.{Box}

pub record Future (F R : Type 0) : Type 0 where
  -- `none` while it is not done, and `some none` if `result()` raises.
  pub outcome : Option (Option R)
  -- `_ocr_submitted_mono`
  pub submitted : Option F

pub record Drained (F R : Type 0) : Type 0 where
  pub results : List R
  pub timeouts : ℕ
  pub keep : List (Future F R)
  pub cancels : List (Future F R)

module _ {F R : Type 0} where
  abbrev pub nothing : Drained F R
  nothing = record { results = []; timeouts = 0; keep = []; cancels = [] }

  abbrev pub stamp : F → Future F R → F
  stamp now x = elim x.submitted [ none ↦ now | some s ↦ s ]

  abbrev pub stamped : F → Future F R → Future F R
  stamped now x = record x { submitted = some (stamp now x) }

module _ {F R : Type 0} ⦃f : Float F⦄ where
  abbrev pub is_overdue : F → F → Future F R → Bool
  is_overdue timeout now x = at_most timeout (minus now (stamp now x))

  -- A future that is not done.
  unfoldable pub reap : F → F → Future F R → Drained F R → Drained F R
  reap timeout now x d =
      if is_overdue timeout now x
      then record d { cancels = d.cancels ++ stamped now x ∷ []; timeouts = d.timeouts + 1 }
      else record d { keep = d.keep ++ stamped now x ∷ [] }

  unfoldable pub drain_one : F → F → Future F R → Drained F R → Drained F R
  unfolding reap
  drain_one timeout now x d = elim x.outcome [
    | some (some r) ↦ record d { results = d.results ++ r ∷ [] }
    | some none ↦ d
    | none ↦ reap timeout now x d
  ]

  unfoldable pub drain_each : F → F → List (Future F R) → Drained F R → Drained F R
  unfolding drain_one
  drain_each timeout now [] d = d
  drain_each timeout now (x ∷ xs) d = drain_each timeout now xs (drain_one timeout now x d)

  unfoldable pub drain_ocr_futures : F → F → List (Future F R) → Drained F R
  unfolding drain_each
  drain_ocr_futures timeout now [] = nothing
  drain_ocr_futures timeout now (x ∷ xs) = drain_each timeout now (x ∷ xs) nothing

pub record Vehicle (F : Type 0) : Type 0 where
  pub track_id : ℕ
  pub bbox_norm : Box F

module _ {F : Type 0} ⦃f : Float F⦄ where
  unfoldable pub boxes_intersect : Box F → Box F → Bool
  boxes_intersect a b = less a.x1 b.x2 && less b.x1 a.x2 && less a.y1 b.y2 && less b.y1 a.y2

  -- `max(0.0, x2 - x1) * max(0.0, y2 - y1)`
  abbrev pub area : Box F → F
  area b = times (larger (num 0 1) (minus b.x2 b.x1)) (larger (num 0 1) (minus b.y2 b.y1))

  -- The quotient of the loop, or `none` where it goes on.
  unfoldable pub overlap_iou : Box F → Box F → Option F
  overlap_iou d t =
      let zero_f : F = num 0 1 in
      let ox = minus (smaller d.x2 t.x2) (larger d.x1 t.x1) in
      let oy = minus (smaller d.y2 t.y2) (larger d.y1 t.y1) in
      let inter = times ox oy in
      let union = minus (plus (area d) (area t)) inter in
      if at_most ox zero_f
      then none
      else if at_most oy zero_f
      then none
      else some (if less zero_f union then over inter union else zero_f)

  unfoldable pub match_loop : Box F → ℕ → F → List (Vehicle F) → ℕ × F
  unfolding overlap_iou
  match_loop d best_id best_iou [] = (best_id, best_iou)
  match_loop d best_id best_iou (t ∷ ts) = elim (overlap_iou d t.bbox_norm) [
    | none ↦ match_loop d best_id best_iou ts
    | some iou ↦
        if less best_iou iou
        then match_loop d t.track_id iou ts
        else match_loop d best_id best_iou ts
  ]

  unfoldable pub match_vehicle_track : Box F → List (Vehicle F) → ℕ
  unfolding match_loop
  match_vehicle_track det_bbox tracks = (match_loop det_bbox 0 (num 0 1) tracks).0

  unfoldable pub is_occupied : List (Box F) → List (Box F) → Bool
  unfolding boxes_intersect
  is_occupied boxes vehicles = any (λ cb. any (λ vb. boxes_intersect cb vb) vehicles) boxes

module _ {F D : Type 0} ⦃f : Float F⦄ where
  -- `[d["bbox_norm"] for d in cached if "bbox_norm" in d]`
  unfoldable pub cached_boxes : (D → Option (Box F)) → List D → List (Box F)
  cached_boxes box_of [] = []
  cached_boxes box_of (d ∷ ds) =
      let rest = cached_boxes box_of ds in elim (box_of d) [ none ↦ rest | some b ↦ b ∷ rest ]

  unfoldable pub select_plate_detections :
      (D → Option (Box F)) → List D → List D → F → F → List (Box F) → F → List D
  unfolding cached_boxes is_occupied
  select_plate_detections box_of fresh [] cached_at now vehicles max_age = fresh
  select_plate_detections box_of fresh (d ∷ ds) cached_at now vehicles max_age =
      if at_most (minus now cached_at) max_age
        && is_occupied (cached_boxes box_of (d ∷ ds)) vehicles
      then d ∷ ds
      else fresh
