-- ===== src/Tracker/Tests.antt =====
-- `CentroidTracker.update` and its parts on concrete frames (core/tracker.py), in thousandths.
use ibvap.Common.{
  ℕ, ◌+◌, ◌≤◌, ◌<◌, ◌≡◌, refl, true, false, none, some, List, [], ◌∷◌, string_eq?, All, length, all,
  ℕ_discrete, nat_key,
}
use ibvap.Common.Dict.{lookup, insert}
use ibvap.Common.Milli.{milli, milli-IsOrder}
use ibvap.Tracker.Tracks.{Box, Track}
use ibvap.Tracker.Detections.{Raw, Det, sanitize_bbox}
use ibvap.Tracker.Matching.{match_stage}
use ibvap.Tracker.Update.{Tracker, update, exclusive}
use ibvap.Tracker.Passing.{Holds}
use ibvap.Tracker.Exclusive.{exclusive_lem}
use ibvap.Tracker.Numbered.{IsNumbered}
use ibvap.Tracker.Ids.{update-IsNumbered}
use ibvap.Tracker.Greedy.{IsOneToOne}
use ibvap.Tracker.Maximal.{overlaps, is_near, match_stage-IsOneToOne, match_stage-IsMaximal}
use ibvap.Tracker.Boxes.{InFrame, sanitize_bbox-InFrame}
use ibvap.Tracker.LatchTests.{person, locked}

abbrev box : ℕ → Box ℕ
box x = record { x1 = x; y1 = 100; x2 = x + 100; y2 = 400 }

abbrev raw : ℕ → Raw ℕ
raw x = record {
  bbox = some (x ∷ 100 ∷ (x + 100) ∷ 400 ∷ []);
  class_name = "person";
  class_id = 0;
  confidence = 900;
  synthetic = false;
}

abbrev det : ℕ → Det ℕ
det x = record {
  box = box x;
  class_name = "person";
  class_id = 0;
  confidence = 900;
  synthetic = false;
}

abbrev start : Tracker ℕ
start = record {
  iou_threshold = 300;
  max_age = 30;
  tracks = [];
  next_id = 1;
  stream_epoch = 0;
  smoothing = 600;
}

abbrev frame_one : Tracker ℕ
frame_one = (update start (raw 100 ∷ raw 600 ∷ []) 1000).0

one_track : (update start (raw 100 ∷ []) 1000).0.next_id ≡ 2
unfolding update string_eq? ℕ_discrete
one_track = refl

start-IsNumbered : IsNumbered 1 start.tracks
start-IsNumbered = record { dict = tt; ids = λ k i e. absurd (cc) }

update-IsNumbered_example :
    IsNumbered frame_one.next_id frame_one.tracks
    × (1 ≤ frame_one.next_id)
    × All
        (λ t. (1 ≤ t.track_id) × (t.track_id < frame_one.next_id))
        (update start (raw 100 ∷ raw 600 ∷ []) 1000).1.new_entries
update-IsNumbered_example = update-IsNumbered start (raw 100 ∷ raw 600 ∷ []) 1000 start-IsNumbered

-- Two tracks of one entry: the locked one of them keeps it.
abbrev twins : List (ℕ × Track ℕ)
twins = (1, record locked { identity_locked = false }) ∷ (2, record locked { track_id = 2 }) ∷ []

exclusive_lem_example :
    (w : ℕ) × Holds (exclusive twins) w "c" × ((j : ℕ) → Holds (exclusive twins) j "c" → j ≡ w)
unfolding string_eq? ℕ_discrete
exclusive_lem_example = exclusive_lem twins 1 "c" (refl, (refl, tt)) refl

locked_keeps : lookup 1 (exclusive twins) ≡ some (record person { identity = none })
unfolding exclusive string_eq? insert ℕ_discrete
locked_keeps = refl

match_stage-IsOneToOne_example :
    IsOneToOne (match_stage 300 600 1000 (det 100 ∷ det 600 ∷ []) ((1, person) ∷ []))
match_stage-IsOneToOne_example =
    match_stage-IsOneToOne 300 600 1000 (det 100 ∷ det 600 ∷ []) ((1, person) ∷ [])

match_stage-IsMaximal_example :
    (overlaps 300 (det 600) person ≡ false) × (is_near (det 600) person ≡ false)
unfolding match_stage string_eq? ℕ_discrete
match_stage-IsMaximal_example =
    match_stage-IsMaximal 300 600 1000 (det 600 ∷ []) ((1, person) ∷ []) 0 0 1 (det 600) person refl
      refl refl refl

sanitize_bbox-InFrame_example :
    InFrame (box 100)
    × ((l : List ℕ) × (some (200 ∷ 100 ∷ 100 ∷ 400 ∷ []) ≡ some l)
        × (length l ≡ 4)
        × (all (λ x. milli.finite x) l ≡ true))
unfolding sanitize_bbox string_eq?
sanitize_bbox-InFrame_example =
    sanitize_bbox-InFrame milli-IsOrder (some (200 ∷ 100 ∷ 100 ∷ 400 ∷ [])) "person" (box 100) refl
      refl
