-- ===== src/Tracker/LatchTests.antt =====
-- The latch on concrete matches (core/tracker.py), with scores in thousandths.
use ibvap.Common.{ℕ, ◌≡◌, refl, ◌≤◌, true, false, none, some, [], ◌∷◌, String, arith, string_eq?}
use ibvap.Common.Milli.{milli}
use ibvap.Tracker.Tracks.{Track, Match}
use ibvap.Tracker.Latch.{reds, record_biometric_match}
use ibvap.Tracker.Lock.{Answers, watch, record_biometric_match-Answers}

abbrev pub person : Track ℕ
person = record {
  track_id = 1;
  class_name = "person";
  class_id = 0;
  bbox = record { x1 = 100; y1 = 100; x2 = 200; y2 = 400 };
  confidence = 900;
  age = 0;
  hits = 1;
  first_seen = 0;
  last_seen = 0;
  trajectory = [];
  identity = none;
  identity_locked = false;
  match_history = [];
  prev_bbox = none;
  synthetic = false;
  is_intrusion = false;
}

abbrev match_of : String → ℕ → String → String → Match ℕ
match_of entry score tier threat = record {
  entry_id = entry;
  name = entry;
  score = score;
  tier = tier;
  threat_level = threat;
}

abbrev red_a : Match ℕ
red_a = match_of "a" 700 "RED" "LOW"

abbrev critical_c : Match ℕ
critical_c = match_of "c" 600 "RED" "CRITICAL"

-- A person that a critical match has locked.
abbrev pub locked : Track ℕ
locked = record person {
  identity = some (record {
    entry_id = "c";
    name = "c";
    score = 600;
    tier = "RED";
    threat_level = "CRITICAL";
    locked = true;
  });
  identity_locked = true;
}

critical_at_once : (record_biometric_match person critical_c).1 ≡ true
unfolding record_biometric_match string_eq?
critical_at_once = refl

two_reds : ((watch person (red_a ∷ red_a ∷ [])).identity_locked) ≡ true
unfolding watch record_biometric_match string_eq?
two_reds = refl

record_biometric_match-Answers_example :
    Answers critical_c (record_biometric_match locked critical_c)
unfolding string_eq?
record_biometric_match-Answers_example =
    record_biometric_match-Answers locked critical_c (ground arith)

at_most_one : (e : String) → reds {F = ℕ} e (red_a ∷ match_of "b" 500 "AMBER" "HIGH" ∷ []) ≤ 1
unfolding string_eq?
at_most_one e = ground arith
