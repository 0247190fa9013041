-- ===== src/Anpr/StoreTests.antt =====
-- The store of plate sightings on concrete captures (core/anpr.py).
use ibvap.Common.{ℕ, ◌≡◌, refl, none, [], String, string_eq?, ℕ_discrete, arith}
use ibvap.Common.Dict.{insert}
use ibvap.Common.Milli.{milli}
use ibvap.Anpr.Sightings.{PlateSighting, SightingsStore, Capture, plate_key_dec, record_sighting}
use ibvap.Anpr.Store.{IsSound, record_sighting-IsSound}

abbrev upper : String → String
upper s = s

abbrev blank : PlateSighting ℕ
blank = record {
  id = "";
  camera_id = "";
  plate_text = "";
  confidence = 0;
  vehicle_class = "";
  timestamp = 0;
  sight_count = 0;
}

abbrev empty : SightingsStore ℕ
empty = record {
  max_sightings = 1;
  sighting_at = λ a. blank;
  next = 0;
  sightings = [];
  recent_index = [];
}

abbrev capture : String → ℕ → Capture ℕ
capture plate now = record {
  camera_id = "gate";
  plate_text = plate;
  confidence = 900;
  vehicle_class = "car";
  timestamp = none;
  now = now;
  uuid = plate;
}

abbrev once : SightingsStore ℕ
once = (record_sighting upper empty (capture "AB-12" 1000)).0

second_merges : ((record_sighting upper once (capture "AB12" 9000)).0.sighting_at 0).sight_count ≡ 2
unfolding record_sighting string_eq? ℕ_discrete insert plate_key_dec
second_merges = refl

empty-IsSound : IsSound empty
empty-IsSound = record {
  indexed = record { index = λ k a e. absurd (cc); made = λ a e. absurd (cc) };
  bounded = omega arith;
}

record_sighting-IsSound_example : IsSound once
record_sighting-IsSound_example =
    record_sighting-IsSound upper empty (capture "AB-12" 1000) empty-IsSound
