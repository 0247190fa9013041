-- ===== src/Tracker/Stages.antt =====
-- Stages 2 and 3 of `update` (core/tracker.py): unmatched detections are dropped as duplicates, taken
-- over by a track that they overlap, or start a new track.
use ibvap.Common.{
  ℕ, ◌+◌, Bool, false, not, ◌&&◌, ◌||◌, Option, none, some, List, [], ◌∷◌, ◌++◌, String, ◌==◌,
  if◌then◌else◌, any, same, is_some, contains, nat_key, string_key,
}
use ibvap.Common.Dict.{insert}
use ibvap.Common.Float.{Float, over, less, num, larger, smaller}
use ibvap.Tracker.Tracks.{Box, Track, center, area, iou, overlap, extend}
use ibvap.Tracker.Detections.{Det}
use ibvap.Tracker.Matching.{smoothed, modify}

-- What the loop over the tracks finds for an unmatched detection.
pub data Scan : Type 0 where
  duplicate : Scan
  overlapping : Option ℕ → Scan

module _ {F : Type 0} ⦃f : Float F⦄ where
  -- `inter / min(area_b, area_t)`
  unfoldable pub containment : Box F → Box F → F
  unfolding area overlap
  containment b t =
      over (overlap b t) (smaller (larger (num 1 100000) (area b)) (larger (num 1 100000) (area t)))

  -- The detection shows the object of the track, given their overlap.
  unfoldable pub shows_same : F → Det F → Track F → Bool
  unfolding containment
  shows_same overlap_iou det t =
      if same t.class_name det.class_name
      then less (num 85 100) overlap_iou || less (num 90 100) (containment det.box t.bbox)
      else less (num 60 100) overlap_iou

  -- The best overlap with an unmatched track so far is `best`, with the track `found`.
  unfoldable pub scan : Det F → List ℕ → F → Option ℕ → List (ℕ × Track F) → Scan
  unfolding shows_same iou
  scan det matched best found [] = overlapping found
  scan det matched best found ((tid, t) ∷ rest) =
      let score = iou t.bbox det.box in
      let next = scan det matched best found rest in
      let better = scan det matched score (some tid) rest in
      if contains tid matched
      then (if shows_same score det t then duplicate else next)
      else if less best score
      then better
      else next

  -- A person with a watchlist identity keeps the class.
  abbrev pub has_person_identity : Track F → Bool
  has_person_identity t = same t.class_name "person" && (is_some t.identity || t.identity_locked)

  abbrev pub reclassified : Det F → Track F → Track F
  reclassified det t =
      if less t.confidence det.confidence
        && not (has_person_identity t && not (same det.class_name "person"))
      then record t { class_name = det.class_name; class_id = det.class_id }
      else t

  -- The overlapped track takes the detection over.
  unfoldable pub taken_over : F → F → Det F → Track F → Track F
  unfolding smoothed center
  taken_over smooth timestamp det t =
      let t' = reclassified det t in
      let box = smoothed smooth t'.bbox det.box in
      record t' {
        confidence = larger t'.confidence det.confidence;
        age = 0;
        hits = t'.hits + 1;
        last_seen = timestamp;
        prev_bbox = some t'.bbox;
        bbox = box;
        trajectory = extend t'.trajectory (center box);
      }

-- `self.tracks`, `matched` and `surviving_unmatched`.
pub record Survivors (F : Type 0) : Type 0 where
  pub tracks : List (ℕ × Track F)
  pub tids : List ℕ
  pub dets : List (Det F)

module _ {F : Type 0} ⦃f : Float F⦄ where
  abbrev pub settle : F → F → Survivors F → Det F → Scan → Survivors F
  settle smooth timestamp s det duplicate = s
  settle smooth timestamp s det (overlapping none) = record s { dets = s.dets ++ det ∷ [] }
  settle smooth timestamp s det (overlapping (some tid)) = record s {
    tracks = modify tid (taken_over smooth timestamp det) s.tracks;
    tids = tid ∷ s.tids;
  }

  -- Stage 2.
  unfoldable pub overlap_stage : F → F → Survivors F → List (Det F) → Survivors F
  unfolding scan taken_over modify
  overlap_stage smooth timestamp s [] = s
  overlap_stage smooth timestamp s (det ∷ dets) =
      overlap_stage smooth timestamp
        (settle smooth timestamp s det (scan det s.tids (num 60 100) none s.tracks)) dets

  -- A track of the frame that the detection duplicates.
  unfoldable pub duplicates_active : Det F → ℕ × Track F → Bool
  unfolding shows_same iou
  duplicates_active det (tid, t) = t.age == 0 && shows_same (iou det.box t.bbox) det t

  abbrev pub min_spawn : String → F
  min_spawn class_name = if same class_name "person" then num 50 100 else num 40 100

  unfoldable pub new_track : F → ℕ → Det F → Track F
  unfolding center
  new_track timestamp tid det = record {
    track_id = tid;
    class_name = det.class_name;
    class_id = det.class_id;
    bbox = det.box;
    confidence = det.confidence;
    age = 0;
    hits = 1;
    first_seen = timestamp;
    last_seen = timestamp;
    trajectory = center det.box ∷ [];
    identity = none;
    identity_locked = false;
    match_history = [];
    prev_bbox = none;
    synthetic = det.synthetic;
    is_intrusion = false;
  }

-- `self.tracks`, `self._next_id` and `new_entries`.
pub record Spawned (F : Type 0) : Type 0 where
  pub tracks : List (ℕ × Track F)
  pub next_id : ℕ
  pub entries : List (Track F)

module _ {F : Type 0} ⦃f : Float F⦄ where
  -- The three tests that keep a detection from a track of its own.
  unfoldable pub suppressed : Spawned F → Det F → Bool
  unfolding duplicates_active iou
  suppressed s det =
      less det.confidence (min_spawn det.class_name)
      || any (λ n. less (num 60 100) (iou det.box n.bbox)) s.entries
      || any (duplicates_active det) s.tracks

  unfoldable pub spawn : F → Spawned F → Det F → Spawned F
  unfolding suppressed new_track
  spawn timestamp s det = if suppressed s det then s else record {
    tracks = insert s.next_id (new_track timestamp s.next_id det) s.tracks;
    next_id = s.next_id + 1;
    entries = s.entries ++ new_track timestamp s.next_id det ∷ [];
  }

  -- Stage 3.
  unfoldable pub spawn_stage : F → Spawned F → List (Det F) → Spawned F
  unfolding spawn
  spawn_stage timestamp s [] = s
  spawn_stage timestamp s (det ∷ dets) = spawn_stage timestamp (spawn timestamp s det) dets
