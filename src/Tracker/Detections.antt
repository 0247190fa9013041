-- ===== src/Tracker/Detections.antt =====
-- Incoming detections: `_sanitize_bbox`, and the first part of `update`, which cleans them and
-- removes duplicates of one class (core/tracker.py).
use ibvap.Common.{
  ℕ, Bool, true, false, ◌&&◌, ◌||◌, Option, none, some, List, [], ◌∷◌, ◌++◌, String, ltb,
  if◌then◌else◌, length, same, string_key,
}
use ibvap.Common.Float.{Float, minus, over, less, num, larger, smaller}
use ibvap.Tracker.Tracks.{Box, area, iou, overlap}

-- A detection as the detector hands it over. The box is `none` where it is no tuple or list, or holds
-- what is no number.
pub record Raw (F : Type 0) : Type 0 where
  pub bbox : Option (List F)
  pub class_name : String
  pub class_id : ℕ
  pub confidence : F
  pub synthetic : Bool

pub record Det (F : Type 0) : Type 0 where
  pub box : Box F
  pub class_name : String
  pub class_id : ℕ
  pub confidence : F
  pub synthetic : Bool

module _ {ℓ} {A : Type ℓ} (precedes : A → A → Bool) where
  unfoldable pub insert_sorted : A → List A → List A
  insert_sorted x [] = x ∷ []
  insert_sorted x (y ∷ ys) = if precedes y x then y ∷ insert_sorted x ys else x ∷ y ∷ ys

  -- `sorted`, by an order in which some values may stand level: these keep their order.
  unfoldable pub sort_by : List A → List A
  unfolding insert_sorted
  sort_by [] = []
  sort_by (x ∷ xs) = insert_sorted x (sort_by xs)

module _ {F : Type 0} ⦃f : Float F⦄ where
  abbrev pub clamp : F → F
  clamp x = larger (num 0 1) (smaller (num 1 1) x)

  -- The test on a person's height over width.
  unfoldable pub is_human_shape : String → F → F → Bool
  is_human_shape class_name bw bh =
      let ratio = over bh (larger (num 1 100000) bw) in
      if same class_name "person"
      then (if less ratio (num 15 100) || less (num 75 10) ratio then false else true)
      else true

  -- From the swap of inverted coordinates on.
  unfoldable pub sanitize_coords : F → F → F → F → String → Option (Box F)
  unfolding is_human_shape
  sanitize_coords x1 y1 x2 y2 class_name =
      let left = clamp (if less x2 x1 then x2 else x1) in
      let right = clamp (if less x2 x1 then x1 else x2) in
      let top = clamp (if less y2 y1 then y2 else y1) in
      let bottom = clamp (if less y2 y1 then y1 else y2) in
      let bw = minus right left in
      let bh = minus bottom top in
      if less bw (num 5 1000) || less bh (num 5 1000)
      then none
      else if is_human_shape class_name bw bh
      then some (record { x1 = left; y1 = top; x2 = right; y2 = bottom })
      else none

  unfoldable pub sanitize_bbox : Option (List F) → String → Option (Box F)
  unfolding sanitize_coords
  sanitize_bbox (some (x1 ∷ y1 ∷ x2 ∷ y2 ∷ [])) class_name =
      if f.finite x1 && f.finite y1 && f.finite x2 && f.finite y2
      then sanitize_coords x1 y1 x2 y2 class_name
      else none
  sanitize_bbox b class_name = none

  abbrev pub keep_clean : Raw F → Option (Box F) → List (Det F) → List (Det F)
  keep_clean r none ds = ds
  keep_clean r (some b) ds =
      record {
        box = b;
        class_name = r.class_name;
        class_id = r.class_id;
        confidence = r.confidence;
        synthetic = r.synthetic;
      }
      ∷ ds

  -- `valid_detections`
  unfoldable pub sanitize : List (Raw F) → List (Det F)
  unfolding sanitize_bbox
  sanitize [] = []
  sanitize (r ∷ rs) = keep_clean r (sanitize_bbox r.bbox r.class_name) (sanitize rs)

  -- `(area, confidence)` of the first above that of the second.
  unfoldable pub larger_first : Det F → Det F → Bool
  unfolding area
  larger_first a b =
      if f.eq (area a.box) (area b.box)
      then less b.confidence a.confidence
      else less (area b.box) (area a.box)

  -- `kept` covers `det`: much overlap, or containment.
  unfoldable pub covers : Det F → Det F → Bool
  unfolding iou overlap area
  covers kept det =
      same kept.class_name det.class_name
      && (less (num 85 100) (iou det.box kept.box)
          || (less (num 0 1) (area det.box)
              && less (num 90 100) (over (overlap det.box kept.box) (area det.box))))

  abbrev pub push_front : Det F → Option (List (Det F)) → Option (List (Det F))
  push_front k none = none
  push_front k (some ks) = some (k ∷ ks)

  -- The loop over the kept detections: the first that covers `det` takes its confidence.
  unfoldable pub absorb : Det F → List (Det F) → Option (List (Det F))
  unfolding covers
  absorb det [] = none
  absorb det (k ∷ ks) =
      if covers k det
      then some (record k { confidence = larger k.confidence det.confidence } ∷ ks)
      else push_front k (absorb det ks)

  abbrev pub absorbed_or_added : Option (List (Det F)) → Det F → List (Det F) → List (Det F)
  absorbed_or_added none det kept = kept ++ det ∷ []
  absorbed_or_added (some kept') det kept = kept'

  unfoldable pub dedupe_from : List (Det F) → List (Det F) → List (Det F)
  unfolding absorb
  dedupe_from kept [] = kept
  dedupe_from kept (det ∷ ds) = dedupe_from (absorbed_or_added (absorb det kept) det kept) ds

  unfoldable pub dedupe : List (Det F) → List (Det F)
  unfolding dedupe_from sort_by larger_first
  dedupe ds =
      let filtered = dedupe_from [] (sort_by larger_first ds) in
      if ltb 1 (length ds) then filtered else ds
