-- ===== src/Tracker/Matching.antt =====
-- Stage 1 of `update` (core/tracker.py): detections claim tracks of their class, by overlap first and
-- by the distance of the centers then.
use ibvap.Common.{
  ℕ, suc, ◌+◌, Bool, not, ◌&&◌, ◌||◌, Option, none, some, List, [], ◌∷◌, ◌++◌, ltb, if◌then◌else◌,
  length, same, contains, nat_key, string_key,
}
use ibvap.Common.Dict.{lookup, insert}
use ibvap.Common.Float.{Float, plus, minus, times, less, num}
use ibvap.Tracker.Tracks.{Box, Track, center, iou, extend}
use ibvap.Tracker.Detections.{Det, sort_by}

pub record Candidate (F : Type 0) : Type 0 where
  pub score : F
  pub det_idx : ℕ
  pub tid : ℕ
  -- `detections[det_idx]`
  pub det : Det F

-- `self.tracks`, `matched_det_indices` and `matched`.
pub record Claims (F : Type 0) : Type 0 where
  pub tracks : List (ℕ × Track F)
  pub dets : List ℕ
  pub tids : List ℕ

-- A change of the object at a key of the dictionary.
abbrev pub set_found {ℓ} : {A : Type ℓ} → ℕ → (A → A) → List (ℕ × A) → Option A → List (ℕ × A)
set_found k g d none = d
set_found k g d (some a) = insert k (g a) d

unfoldable pub modify {ℓ} : {A : Type ℓ} → ℕ → (A → A) → List (ℕ × A) → List (ℕ × A)
modify k g d = set_found k g d (lookup k d)

module _ {F : Type 0} ⦃f : Float F⦄ where
  -- `inv_smooth * previous + smooth * new`, in each coordinate.
  unfoldable pub smoothed : F → Box F → Box F → Box F
  smoothed smooth previous new =
      let inv = minus (num 1 1) smooth in
      record {
        x1 = plus (times inv previous.x1) (times smooth new.x1);
        y1 = plus (times inv previous.y1) (times smooth new.y1);
        x2 = plus (times inv previous.x2) (times smooth new.x2);
        y2 = plus (times inv previous.y2) (times smooth new.y2);
      }

  -- A track after a detection has been matched to it.
  unfoldable pub matched_by : F → F → Det F → Track F → Track F
  unfolding smoothed center
  matched_by smooth timestamp det t =
      let box = smoothed smooth t.bbox det.box in
      record t {
        prev_bbox = some t.bbox;
        bbox = box;
        confidence = det.confidence;
        synthetic = det.synthetic;
        age = 0;
        hits = t.hits + 1;
        last_seen = timestamp;
        trajectory = extend t.trajectory (center box);
      }

  -- The tracks of the class of a detection that overlap it by more than the threshold.
  unfoldable pub iou_candidates_of : F → ℕ → Det F → List (ℕ × Track F) → List (Candidate F)
  unfolding iou
  iou_candidates_of threshold i det [] = []
  iou_candidates_of threshold i det ((tid, trk) ∷ rest) =
      let more = iou_candidates_of threshold i det rest in
      let score = iou trk.bbox det.box in
      if same trk.class_name det.class_name && less threshold score
      then record { score = score; det_idx = i; tid = tid; det = det } ∷ more
      else more

  unfoldable pub iou_candidates : F → ℕ → List (Det F) → List (ℕ × Track F) → List (Candidate F)
  unfolding iou_candidates_of
  iou_candidates threshold i [] items = []
  iou_candidates threshold i (det ∷ dets) items =
      iou_candidates_of threshold i det items ++ iou_candidates threshold (suc i) dets items

  abbrev pub higher_score : Candidate F → Candidate F → Bool
  higher_score a b = less b.score a.score

  abbrev pub lower_score : Candidate F → Candidate F → Bool
  lower_score a b = less a.score b.score

  -- One turn of the loop over the sorted candidates.
  unfoldable pub claim : F → F → Claims F → Candidate F → Claims F
  unfolding matched_by modify
  claim smooth timestamp s c =
      if contains c.det_idx s.dets || contains c.tid s.tids then s else record {
        tracks = modify c.tid (matched_by smooth timestamp c.det) s.tracks;
        dets = c.det_idx ∷ s.dets;
        tids = c.tid ∷ s.tids;
      }

  unfoldable pub claim_all : F → F → Claims F → List (Candidate F) → Claims F
  unfolding claim
  claim_all smooth timestamp s [] = s
  claim_all smooth timestamp s (c ∷ cs) = claim_all smooth timestamp (claim smooth timestamp s c) cs

  -- The distance of two centers.
  unfoldable pub center_distance : F × F → F × F → F
  center_distance (dx, dy) (tx, ty) =
      f.root (plus (f.square (minus dx tx)) (f.square (minus dy ty)))

  -- The unmatched tracks of the class whose center, as it was before the frame, is near.
  unfoldable pub near_candidates_of : List ℕ → ℕ → Det F → List (ℕ × Track F) → List (Candidate F)
  unfolding center_distance center
  near_candidates_of matched i det [] = []
  near_candidates_of matched i det ((tid, trk) ∷ rest) =
      let more = near_candidates_of matched i det rest in
      let dist = center_distance (center det.box) (center trk.bbox) in
      if contains tid matched || not (same trk.class_name det.class_name)
      then more
      else if less dist (num 14 100)
      then record { score = dist; det_idx = i; tid = tid; det = det } ∷ more
      else more

  unfoldable pub near_candidates :
      List ℕ → List ℕ → ℕ → List (Det F) → List (ℕ × Track F) → List (Candidate F)
  unfolding near_candidates_of
  near_candidates claimed matched i [] items = []
  near_candidates claimed matched i (det ∷ dets) items =
      let more = near_candidates claimed matched (suc i) dets items in
      if contains i claimed then more else near_candidates_of matched i det items ++ more

  -- Stage 1: `items` are the tracks before the frame, and `s` starts with them.
  unfoldable pub match_stage : F → F → F → List (Det F) → List (ℕ × Track F) → Claims F
  unfolding iou_candidates claim_all near_candidates sort_by
  match_stage threshold smooth timestamp dets items =
      let start : Claims F = record { tracks = items; dets = []; tids = [] } in
      let first =
        claim_all smooth timestamp start
          (sort_by higher_score (iou_candidates threshold 0 dets items)) in
      let second =
        claim_all smooth timestamp first
          (sort_by lower_score (near_candidates first.dets first.tids 0 dets items)) in
      if ltb (length first.tids) (length items) then second else first

  -- `unmatched_dets`
  unfoldable pub unmatched : List ℕ → ℕ → List (Det F) → List (Det F)
  unmatched claimed i [] = []
  unmatched claimed i (det ∷ dets) =
      let more = unmatched claimed (suc i) dets in if contains i claimed then more else det ∷ more
