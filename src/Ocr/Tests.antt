-- ===== src/Ocr/Tests.antt =====
-- Futures and vehicles, in thousandths (core/ocr_worker.py, services/stream_worker.py).
use ibvap.Common.{ℕ, ◌≡◌, ◌⊎◌, refl, true, Option, none, some, List, [], ◌∷◌, All, arith}
use ibvap.Common.Float.{less, at_most}
use ibvap.Common.Milli.{milli}
use ibvap.Tracker.Tracks.{Box}
use ibvap.Ocr.Defs.{
  Future, Vehicle, drain_ocr_futures, match_vehicle_track, select_plate_detections,
}
use ibvap.Ocr.Drain.{IsPast, with_outcomes, drain_ocr_futures-clears}
use ibvap.Ocr.Owner.{IsMost, Has, match_vehicle_track-IsMost}

abbrev future : Option (Option ℕ) → Option ℕ → Future ℕ ℕ
future outcome submitted = record { outcome = outcome; submitted = submitted }

abbrev pending : List (Future ℕ ℕ)
pending =
    future (some (some 7)) (some 9000)
    ∷ future none (some 1000)
    ∷ future none none
    ∷ future (some none) none
    ∷ future none (some 8000)
    ∷ []

-- One result, one that timed out, and two that stay, one of which is stamped now.
drained : drain_ocr_futures 5000 9000 pending ≡ record {
  results = 7 ∷ [];
  timeouts = 1;
  keep = future none (some 9000) ∷ future none (some 8000) ∷ [];
  cancels = future none (some 1000) ∷ [];
}
unfolding drain_ocr_futures
drained = refl

past : All (IsPast 9000) pending
past =
    let old : (s : ℕ) → some 1000 ≡ some s → at_most s 9000 ≡ true = λ s h. ground arith in
    (
      λ s h. ground arith,
      (old, (λ s h. ground arith, (λ s h. ground arith, (λ s h. ground arith, tt)))),
    )

drain_ocr_futures-clears_example :
    (drain_ocr_futures 5000 14000
      (with_outcomes (λ x. none) (drain_ocr_futures 5000 9000 pending).keep)).keep
    ≡ []
drain_ocr_futures-clears_example =
    drain_ocr_futures-clears (λ t a b c h k. ground arith) 5000 9000 14000 (λ x. none) pending refl
      past refl

abbrev box : ℕ → ℕ → ℕ → ℕ → Box ℕ
box x1 y1 x2 y2 = record { x1 = x1; y1 = y1; x2 = x2; y2 = y2 }

abbrev plate : Box ℕ
plate = box 300 300 500 500

-- The bus covers the plate's corner, the car the whole plate.
abbrev vehicles : List (Vehicle ℕ)
vehicles =
    record { track_id = 4; bbox_norm = box 0 0 400 400 }
    ∷ record { track_id = 7; bbox_norm = box 200 200 600 600 }
    ∷ record { track_id = 9; bbox_norm = box 700 0 900 100 }
    ∷ []

owner : match_vehicle_track plate vehicles ≡ 7
unfolding match_vehicle_track
owner = refl

match_vehicle_track-IsMost_example :
    ((match_vehicle_track plate vehicles ≡ 0) × IsMost plate 0 vehicles)
    ⊎ ((best : ℕ) × Has plate (match_vehicle_track plate vehicles) best vehicles
        × (less 0 best ≡ true)
        × IsMost plate best vehicles)
match_vehicle_track-IsMost_example =
    match_vehicle_track-IsMost (λ a b h. ground arith) (λ a b c h k. ground arith)
      (λ a b c h k. ground arith) (λ a. ground arith) plate vehicles

abbrev boxes : List (Box ℕ)
boxes = plate ∷ []

-- Cached boxes are published while they are young and a vehicle is there.
republished : select_plate_detections some [] boxes 8500 9000 boxes 1000 ≡ boxes
unfolding select_plate_detections
republished = refl

departed : select_plate_detections some [] boxes 8500 9000 (box 700 0 900 100 ∷ []) 1000 ≡ []
unfolding select_plate_detections
departed = refl
