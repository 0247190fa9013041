-- ===== src/Rules/WireTests.antt =====
-- Tripwires in thousandths (core/rules.py).
use ibvap.Common.{ℕ, true, false, some, [], ◌≡◌, refl, string_eq?}
use ibvap.Common.Shifted.{shifted, above}
use ibvap.Rules.Defs.{Tripwire, TripwireState, RuleEvent, tripwire_cross, trip_step}
use ibvap.Rules.Tripwires.{IsCrossing, trip_step-IsCrossing, trip_step_swap}

abbrev point : ℕ → ℕ → ℕ × ℕ
point x y = (above x, above y)

abbrev wire : Tripwire ℕ
wire = record {
  id = "w";
  name = "gate";
  p1 = point 500 0;
  p2 = point 500 900;
  direction = "both";
  hysteresis = above 20;
}

-- The track is left of the wire.
abbrev seen : TripwireState ℕ
seen = record {
  last_side = some (above 90);
  armed = true;
  last_cross = above 0;
  last_pos = some (point 400 400);
}

trip_step-IsCrossing_example :
    IsCrossing wire seen (point 600 400)
    × (◌≡◌ {A = RuleEvent ℕ} (tripwire_cross "w" "both") (tripwire_cross "w" "both"))
    × ((trip_step (above 5000) [] "k" wire seen (point 600 400) (above 100)).0.armed ≡ false)
unfolding trip_step string_eq?
trip_step-IsCrossing_example =
    trip_step-IsCrossing (above 5000) [] "k" wire seen (point 600 400) (above 100)
      (tripwire_cross "w" "both") refl

abbrev fired : TripwireState ℕ
fired = record seen { armed = false; last_pos = some (point 400 400) }

trip_step_swap_example :
    trip_step
      (above 5000)
      []
      "k"
      (record wire { p1 = point 500 900; p2 = point 500 0 })
      fired
      (point 600 410)
      (above 100)
    ≡ trip_step (above 5000) [] "k" wire fired (point 600 410) (above 100)
trip_step_swap_example =
    trip_step_swap (above 5000) [] "k" wire fired (point 600 410) (above 100) refl
