-- ===== src/Pipeline/Tests.antt =====
-- A track at the edge of a zone, in thousandths (core/pipeline.py).
use ibvap.Common.{
  ℕ, ◌+◌, ◌≡◌, refl, true, false, none, some, List, [], ◌∷◌, string_eq?, contains, ltb, arith,
  nat_key, ℕ_discrete,
}
use ibvap.Common.Dict.{insert}
use ibvap.Common.Milli.{milli}
use ibvap.Pipeline.Defs.{
  Presence, zone_intrusion, prune_presence, track_step, target_lost, check_visible, terminate,
  key_of,
}
use ibvap.Pipeline.Counts.{IsSilent}
use ibvap.Pipeline.Frames.{Frame, seen, unseen, presence_frame}
use ibvap.Pipeline.Continuity.{run, counts_after, run-IsSilent}

abbrev empty : Presence ℕ
empty = record {
  alerted_tracks = [];
  watchlist_alerted_tracks = [];
  active_line_intruders = [];
  track_outside_count = [];
  unseen_streak = [];
  line_miss_count = [];
  last_intrusion_alert_time = [];
  last_exit_alert_time = [];
}

abbrev alerted : Presence ℕ
alerted = record empty {
  alerted_tracks = 3 ∷ [];
  track_outside_count = (3, 0) ∷ [];
  last_intrusion_alert_time = (key_of "gate" 3, 9000) ∷ [];
}

raised : track_step "gate" false true 9000 3 empty ≡ (some (zone_intrusion 3), alerted)
unfolding track_step string_eq? ℕ_discrete insert
raised = refl

-- Pruned, it raises its alert again.
forgotten :
    (track_step "gate" false true 9500 3 (prune_presence 3 alerted)).0 ≡ some (zone_intrusion 3)
unfolding track_step prune_presence string_eq? ℕ_discrete insert
forgotten = refl

abbrev frames : List (Frame ℕ)
frames =
    seen 9100 false
    ∷ seen 9200 false
    ∷ unseen 9300 none
    ∷ unseen 9400 (some true)
    ∷ seen 9500 true
    ∷ seen 9600 false
    ∷ []

run-IsSilent_example :
    let (es, q) = run "gate" 3 frames alerted in
    let (n', u') = counts_after 0 0 frames in
    IsSilent es
    × (contains 3 q.alerted_tracks ≡ true)
    × (contains 3 (presence_frame "gate" false 3 (seen 9700 false) q).1.alerted_tracks
        ≡ ltb (n' + 1) 15)
    × (contains 3 (presence_frame "gate" false 3 (unseen 9700 none) q).1.alerted_tracks ≡ ltb u' 3)
unfolding ℕ_discrete
run-IsSilent_example =
    run-IsSilent "gate" 3 0 0 frames alerted 9700 none (refl, refl, refl)
      (omega arith, (omega arith, (omega arith, (omega arith, (omega arith, tt)))))

-- Unseen for more than three frames, it is lost inside, and its end is reported once.
lost :
    (check_visible "gate" 9900 3 false
      (some false)
      (record alerted { unseen_streak = (3, 3) ∷ [] })).0
    ≡ some (target_lost 3)
unfolding check_visible string_eq? ℕ_discrete
lost = refl

quiet : (terminate "gate" 9900 3 true empty).0 ≡ none
unfolding terminate
quiet = refl
