-- ===== src/Handover/Tests.antt =====
-- A subject that crosses two cameras, and an engine of one dossier (core/handover.py).
use ibvap.Common.{
  same, ℕ, ◌≤◌, ◌≡◌, refl, Bool, true, ◌==◌, none, some, [], ◌∷◌, String, length, string_key,
  string_eq?, ℕ_discrete, arith, if◌then◌else◌, false,
}
use ibvap.Common.Dict.{lookup, insert, erase, has, keys}
use ibvap.Common.Milli.{milli}
use ibvap.Common.Float.{less}
use ibvap.Handover.Defs.{
  Dossier, track_key, track_key_dec, Engine, Observation, View, Naming, by_identity, by_track,
  by_place, may_continue, create, assign,
}
use ibvap.Handover.Updates.{
  seen, touch, observe, observe_all, read_plates, view_all, mark_inactive, place, sorted, erase_all,
  without, evict, prune, update_observations,
}
use ibvap.Handover.Soundness.{IsSound}
use ibvap.Handover.Pruning.{update_observations-IsSound, prune-oldest}
use ibvap.Handover.Following.{Holds, observe-Holds}

abbrev naming : Naming
naming = record {
  upper = λ t. t;
  numbered = λ kind n. "PERSON #1";
  drawn = λ n. if n == 0 then "DOS-A" else "DOS-B";
}

abbrev engine : Engine ℕ
engine = record {
  max_dossiers = 1;
  handover_window_s = 60000;
  dossiers = [];
  track_map = [];
  identity_map = [];
  plate_map = [];
  draws = 0;
}

engine-IsSound : IsSound engine
engine-IsSound = record { is_dict = tt; entries = tt; tracks = tt; identities = tt; plates = tt }

abbrev person : ℕ → Bool → Observation ℕ
person n intrusion = record {
  track_id = n;
  class_name = "person";
  identity = none;
  intrusion = intrusion;
  confidence = 900;
}

abbrev view : String → ℕ → View ℕ
view cam n = record {
  cam_id = cam;
  cam_name = cam;
  tracks = none ∷ some (person n false) ∷ [];
  plates = [];
}

-- The person leaves the gate and is seen at the yard 20 seconds later: one dossier.
handed_over :
    keys
      (update_observations naming 120000
        (view "yard" 4 ∷ [])
        (update_observations naming 100000 (view "gate" 1 ∷ []) engine)).dossiers
    ≡ "DOS-A" ∷ []
unfolding update_observations prune evict erase_all sorted place mark_inactive view_all observe_all
    observe touch seen read_plates assign by_identity by_track by_place may_continue create insert
    string_eq? ℕ_discrete track_key_dec
handed_over = refl

-- Two minutes later it is another subject, and the older dossier makes place for it.
replaced :
    keys
      (update_observations naming 220000
        (view "yard" 4 ∷ [])
        (update_observations naming 100000 (view "gate" 1 ∷ []) engine)).dossiers
    ≡ "DOS-B" ∷ []
unfolding update_observations prune evict erase_all erase sorted place mark_inactive view_all
    observe_all observe touch seen read_plates assign by_identity by_track by_place may_continue
    create insert string_eq? ℕ_discrete track_key_dec without
replaced = refl

update_observations-IsSound_example :
    IsSound (update_observations naming 100000 (view "gate" 1 ∷ []) engine)
    × (length (update_observations naming 100000 (view "gate" 1 ∷ []) engine).dossiers ≤ 1)
update_observations-IsSound_example =
    update_observations-IsSound naming 100000 (view "gate" 1 ∷ []) engine engine-IsSound

observe-Holds_example :
    let (id, chosen) = assign naming 100000 "gate" "gate" (person 1 true) engine in
    let after = observe naming 100000 "gate" "gate" (person 1 true) engine in
    (before d : Dossier ℕ) × (lookup id chosen.dossiers ≡ some before)
    × (lookup (record { camera = "gate"; track = 1 }) after.track_map ≡ some id)
    × ((k : String)
        → lookup k after.dossiers ≡ (if same k id then some d else lookup k chosen.dossiers))
    × Holds naming 100000 "gate" "gate" (person 1 true) before d
observe-Holds_example =
    observe-Holds naming 100000 "gate" "gate" (person 1 true) engine engine-IsSound

abbrev dossier : String → ℕ → Dossier ℕ
dossier id time = record {
  dossier_id = id;
  subject_type = "person";
  label = "PERSON #1";
  threat_level = "LOW";
  first_seen_ts = time;
  last_seen_ts = time;
  cameras_visited = [];
  sightings = [];
  plate = none;
  is_active = true;
}

abbrev crowded : Engine ℕ
crowded = record engine {
  dossiers = ("DOS-B", dossier "DOS-B" 200) ∷ ("DOS-A", dossier "DOS-A" 100) ∷ [];
}

crowded-IsSound : IsSound crowded
unfolding string_eq?
crowded-IsSound = record {
  is_dict = (refl, (refl, tt));
  entries = ((refl, omega arith), ((refl, omega arith), tt));
  tracks = tt;
  identities = tt;
  plates = tt;
}

a_is_found : lookup "DOS-A" crowded.dossiers ≡ some (dossier "DOS-A" 100)
unfolding string_eq?
a_is_found = refl

b_is_found : lookup "DOS-B" crowded.dossiers ≡ some (dossier "DOS-B" 200)
unfolding string_eq?
b_is_found = refl

a_is_gone : has "DOS-A" (prune crowded).dossiers ≡ false
unfolding prune evict erase_all erase sorted place string_eq?
a_is_gone = refl

b_is_kept : has "DOS-B" (prune crowded).dossiers ≡ true
unfolding prune evict erase_all erase sorted place string_eq?
b_is_kept = refl

prune-oldest_example : less {F = ℕ} 200 100 ≡ false
prune-oldest_example =
    prune-oldest (λ a b h. ground arith) (λ a b c h k. ground arith) crowded "DOS-A" "DOS-B"
      (dossier "DOS-A" 100) (dossier "DOS-B" 200) crowded-IsSound a_is_found a_is_gone b_is_found
      b_is_kept
