-- ===== src/Rules/Tests.antt =====
-- Loitering in thousandths (core/rules.py).
use ibvap.Common.{
  ℕ, true, false, none, some, List, [], ◌∷◌, ◌≡◌, refl, arith, All, inl, inr, nat_key,
}
use ibvap.Common.Milli.{milli}
use ibvap.Rules.Defs.{LoiterState, RuleEngine, Format}
use ibvap.Rules.Loitering.{Sight, dwell, dwell_once}

abbrev stay : LoiterState ℕ
stay = record { enter_ts = some 1000; dwell_triggered = true; outside_streak = 0 }

abbrev sights : List (Sight ℕ)
sights =
    record { inside = false; timestamp = 12000; dedup = "a" }
    ∷ record { inside = true; timestamp = 12100; dedup = "a" }
    ∷ []

dwell_once_example :
    All (λ e. e ≡ none) (dwell 5000 10000 "z" stay [] sights).1
    × ((dwell 5000 10000 "z" stay [] sights).0.dwell_triggered ≡ true)
    × ((dwell 5000 10000 "z" stay [] sights).0.enter_ts ≡ some 1000)
dwell_once_example =
    dwell_once 5000 10000 "z" stay [] sights 1000 refl refl
      (inr (refl, ground arith, inl (refl, tt)))

abbrev waiting : LoiterState ℕ
waiting = record { enter_ts = some 1000; dwell_triggered = false; outside_streak = 0 }

abbrev format : Format ℕ
format = record { bucket_key = λ kind id track c t. id; time_key = λ kind id track t. id }

abbrev engine : RuleEngine ℕ
engine = record {
  zones = record { id = "z"; polygon = (900, 100) ∷ (100, 900) ∷ (600, 600) ∷ [] } ∷ [];
  tripwires = [];
  loiter_seconds = 10000;
  cooldown_seconds = 5000;
  trip_state = [];
  loiter_state = (2, ("z", stay) ∷ []) ∷ [];
  last_event_at = [];
}
