-- ===== src/Anpr/Sightings.antt =====
-- `SightingsStore` (core/anpr.py): the sightings by their addresses, the list in the order of capture,
-- and the index of the recent ones. Times are milliseconds; the wall clock is an argument.
use ibvap.Common.{
  ℕ, ◌+◌, ◌≡◌, ap, Option, none, some, List, [], ◌∷◌, ◌++◌, String, ltb, ◌==◌, if◌then◌else◌,
  length, Key, nat_key, string_key, string_eq?,
}
use ibvap.Common.Dict.{lookup, insert, erase}
use ibvap.Common.Float.{Float, larger}
use ibvap.Anpr.Defs.{normalize_plate}

-- The camera and the plate.
pub record PlateKey : Type 0 where
  pub camera : String
  pub plate : String

unfoldable pub plate_key_dec :
    (a b : PlateKey) → Dec (a.camera ≡ b.camera) → Dec (a.plate ≡ b.plate) → Dec (a ≡ b)
plate_key_dec a b (yes p) (yes q) = yes (cc)
plate_key_dec a b (yes p) (no q) = no (λ e. q (ap (λ (k : PlateKey). k.plate) e))
plate_key_dec a b (no p) d = no (λ e. p (ap (λ (k : PlateKey). k.camera) e))

instance abbrev pub plate_key : Key PlateKey
plate_key = record {
  eq? = λ a b. plate_key_dec a b (string_eq? a.camera b.camera) (string_eq? a.plate b.plate);
}

pub record PlateSighting (F : Type 0) : Type 0 where
  pub id : String
  pub camera_id : String
  pub plate_text : String
  pub confidence : F
  pub vehicle_class : String
  pub timestamp : ℕ
  pub sight_count : ℕ

-- `_sightings` and `_recent_index`, with the sightings that they refer to.
pub record SightingsStore (F : Type 0) : Type 0 where
  pub max_sightings : ℕ
  pub sighting_at : ℕ → PlateSighting F
  pub next : ℕ
  pub sightings : List ℕ
  pub recent_index : List (PlateKey × ℕ)

-- The arguments of `record_sighting`, with the clock and the uuid that it reads.
pub record Capture (F : Type 0) : Type 0 where
  pub camera_id : String
  pub plate_text : String
  pub confidence : F
  pub vehicle_class : String
  pub timestamp : Option ℕ
  pub now : ℕ
  pub uuid : String

-- `timestamp or time.time()`
abbrev pub time_or : Option ℕ → ℕ → ℕ
time_or none now = now
time_or (some t) now = if t == 0 then now else t

module _ {F : Type 0} where
  abbrev pub put_at : (ℕ → PlateSighting F) → ℕ → PlateSighting F → ℕ → PlateSighting F
  put_at g a v b = if b == a then v else g b

  abbrev pub key_of : PlateSighting F → PlateKey
  key_of v = record { camera = v.camera_id; plate = v.plate_text }

  -- `if len(self._sightings) > self.max_sightings`
  unfoldable pub trim : SightingsStore F → List ℕ → SightingsStore F
  trim s [] = s
  trim s (old ∷ rest) =
      if ltb s.max_sightings (length s.sightings)
      then record s {
        sightings = rest;
        recent_index = erase (key_of (s.sighting_at old)) s.recent_index;
      }
      else s

  -- A new sighting.
  unfoldable pub add_sighting : SightingsStore F → Capture F → PlateKey → ℕ → SightingsStore F × ℕ
  unfolding trim
  add_sighting s c key ts =
      let new : PlateSighting F = record {
        id = c.uuid;
        camera_id = c.camera_id;
        plate_text = key.plate;
        confidence = c.confidence;
        vehicle_class = c.vehicle_class;
        timestamp = ts;
        sight_count = 1;
      } in
      let grown : SightingsStore F = record s {
        sighting_at = put_at s.sighting_at s.next new;
        next = s.next + 1;
        sightings = s.sightings ++ s.next ∷ [];
        recent_index = insert key s.next s.recent_index;
      } in
      (trim grown grown.sightings, s.next)

module _ {F : Type 0} ⦃f : Float F⦄ where
  -- A further read of a recent sighting.
  abbrev pub seen_again : PlateSighting F → F → ℕ → PlateSighting F
  seen_again v confidence ts = record v {
    sight_count = v.sight_count + 1;
    timestamp = ts;
    confidence = larger v.confidence confidence;
  }

  abbrev pub merge_or_add :
      SightingsStore F → Capture F → PlateKey → ℕ → Option ℕ → SightingsStore F × ℕ
  merge_or_add s c key ts none = add_sighting s c key ts
  merge_or_add s c key ts (some a) =
      if ltb ts ((s.sighting_at a).timestamp + 30000)
      then (
        record s {
          sighting_at = put_at s.sighting_at a (seen_again (s.sighting_at a) c.confidence ts);
        },
        a,
      )
      else add_sighting s c key ts

  unfoldable pub record_sighting :
      (String → String) → SightingsStore F → Capture F → SightingsStore F × ℕ
  unfolding add_sighting normalize_plate
  record_sighting upper s c =
      let ts = time_or c.timestamp c.now in
      let key : PlateKey = record {
        camera = c.camera_id;
        plate = normalize_plate upper c.plate_text;
      } in
      merge_or_add s c key ts (lookup key s.recent_index)
