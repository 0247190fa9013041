-- ===== src/Tracker/Tracks.antt =====
-- `Track`, its properties and `_iou` (core/tracker.py).
use ibvap.Common.{
  ℕ, Bool, ◌||◌, Option, none, some, List, [], ◌∷◌, ◌++◌, String, if◌then◌else◌, last_n,
}
use ibvap.Common.Float.{Float, plus, minus, times, over, at_most, num, larger, smaller}

pub record Box (F : Type 0) : Type 0 where
  pub x1 : F
  pub y1 : F
  pub x2 : F
  pub y2 : F

-- The dictionary `Track.identity`.
pub record Identity (F : Type 0) : Type 0 where
  pub entry_id : String
  pub name : String
  pub score : F
  pub tier : String
  pub threat_level : String
  pub locked : Bool

-- The arguments of `record_biometric_match`, with the threat level as a text in capitals; also the
-- item that it adds to the history.
pub record Match (F : Type 0) : Type 0 where
  pub entry_id : String
  pub name : String
  pub score : F
  pub tier : String
  pub threat_level : String

-- `last_bio_frame` belongs to the pipeline, which alone reads and writes it.
pub record Track (F : Type 0) : Type 0 where
  pub track_id : ℕ
  pub class_name : String
  pub class_id : ℕ
  pub bbox : Box F
  pub confidence : F
  pub age : ℕ
  pub hits : ℕ
  pub first_seen : F
  pub last_seen : F
  pub trajectory : List (F × F)
  pub identity : Option (Identity F)
  pub identity_locked : Bool
  pub match_history : List (Match F)
  pub prev_bbox : Option (Box F)
  pub synthetic : Bool
  pub is_intrusion : Bool

module _ {F : Type 0} ⦃f : Float F⦄ where
  -- `Track.center` and the centers that `update` computes.
  unfoldable pub center : Box F → F × F
  center b = (over (plus b.x1 b.x2) (num 2 1), over (plus b.y1 b.y2) (num 2 1))

  unfoldable pub footpoint : Track F → F × F
  footpoint t = (over (plus t.bbox.x1 t.bbox.x2) (num 2 1), t.bbox.y2)

  abbrev foot_of : Option (Box F) → Option (F × F)
  foot_of none = none
  foot_of (some b) = some (over (plus b.x1 b.x2) (num 2 1), b.y2)

  unfoldable pub prev_footpoint : Track F → Option (F × F)
  prev_footpoint t = foot_of t.prev_bbox

  -- `(x2 - x1) * (y2 - y1)`
  unfoldable pub area : Box F → F
  area b = times (minus b.x2 b.x1) (minus b.y2 b.y1)

  unfoldable pub iou : Box F → Box F → F
  unfolding area
  iou a b =
      let ix1 = larger a.x1 b.x1 in
      let iy1 = larger a.y1 b.y1 in
      let ix2 = smaller a.x2 b.x2 in
      let iy2 = smaller a.y2 b.y2 in
      let inter = times (minus ix2 ix1) (minus iy2 iy1) in
      if at_most ix2 ix1 || at_most iy2 iy1
      then num 0 1
      else over inter (larger (num 1 1000000000) (minus (plus (area a) (area b)) inter))

  -- `max(0.0, ix2 - ix1) * max(0.0, iy2 - iy1)`
  unfoldable pub overlap : Box F → Box F → F
  overlap a b =
      times (larger (num 0 1) (minus (smaller a.x2 b.x2) (larger a.x1 b.x1)))
        (larger (num 0 1) (minus (smaller a.y2 b.y2) (larger a.y1 b.y1)))

  -- `self.trajectory.append(point)` on a deque with `maxlen=64`.
  abbrev pub extend : List (F × F) → F × F → List (F × F)
  extend l p = last_n 64 (l ++ p ∷ [])
