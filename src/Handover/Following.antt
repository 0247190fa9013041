-- ===== src/Handover/Following.antt =====
-- What one observation leaves behind (core/handover.py).
use ibvap.Common.{
  ◌≡◌, refl, Bool, true, ◌||◌, some, List, [], ◌∷◌, ◌++◌, String, get_last?, get_last?-last_n,
  contains, same, if◌then◌else◌, same_self, same→eq, string_key, arith, Option-cases, inl, inr,
}
use ibvap.Common.Dict.{lookup, lookup-insert}
use ibvap.Common.Float.{Float}
use ibvap.Handover.Defs.{
  Dossier, TrackKey, track_key, Engine, Observation, Naming, threat_of, assign,
}
use ibvap.Handover.Updates.{seen, sighting_of, visited_with, escalated, touch, observe}
use ibvap.Handover.Soundness.{IsSound, assign-Assigned}

contains-snoc : (x : String) (l : List String) → contains x (l ++ x ∷ []) ≡ true
contains-snoc x [] = ground (arith, same_self x)
contains-snoc x (y ∷ l) = ground (arith, contains-snoc x l)

module _ {F : Type 0} ⦃f : Float F⦄ (naming : Naming) (now : F) where
  visited_with-contains :
      (x : String) (l : List String) → contains x (visited_with naming now x l) ≡ true
  visited_with-contains x l = ground (arith, contains-snoc x l)

  -- The dossier holds the observation: it was seen now, is active, has visited the camera, ends with
  -- this sighting, and is critical if the observation is of an intrusion or the dossier was before.
  abbrev pub Holds : String → String → Observation F → Dossier F → Dossier F → Type 0
  Holds cam_id cam_name o before d =
      (d.last_seen_ts ≡ now)
      × (d.is_active ≡ true)
      × (contains cam_name d.cameras_visited ≡ true)
      × (get_last? d.sightings ≡ some (sighting_of naming now cam_id cam_name o))
      × ((o.intrusion || same before.threat_level "CRITICAL") ≡ true → d.threat_level ≡ "CRITICAL")

  escalated-critical :
      (intrusion : Bool) (threat level : String)
      → (intrusion || same level "CRITICAL") ≡ true
      → escalated naming now intrusion threat level ≡ "CRITICAL"
  escalated-critical intrusion threat level h = ground (arith, same→eq level "CRITICAL")

  seen-Holds :
      (cam_id cam_name : String) (o : Observation F) (d : Dossier F)
      → Holds cam_id cam_name o d (seen naming now cam_id cam_name o d)
  unfolding seen
  seen-Holds cam_id cam_name o d = (
    refl,
    refl,
    visited_with-contains cam_name d.cameras_visited,
    get_last?-last_n 20 d.sightings (sighting_of naming now cam_id cam_name o) (omega arith),
    escalated-critical o.intrusion (threat_of naming o) d.threat_level,
  )

  -- In a sound engine every observation is kept: the track leads to the dossier that `assign` chose, and
  -- that dossier, as `assign` had it, now holds the observation; each other name has what `assign` left.
  pub observe-Holds :
      (cam_id cam_name : String) (o : Observation F) (e : Engine F)
      → IsSound e
      → let (id, chosen) = assign naming now cam_id cam_name o e in
        let after = observe naming now cam_id cam_name o e in
        (before d : Dossier F) × (lookup id chosen.dossiers ≡ some before)
        × (lookup (record { camera = cam_id; track = o.track_id }) after.track_map ≡ some id)
        × ((k : String)
            → lookup k after.dossiers ≡ (if same k id then some d else lookup k chosen.dossiers))
        × Holds cam_id cam_name o before d
  unfolding observe touch
  observe-Holds cam_id cam_name o e s =
      let r = assign naming now cam_id cam_name o e in
      let k : TrackKey = record { camera = cam_id; track = o.track_id } in
      elim (Option-cases (lookup r.0 r.1.dossiers)) [
        | inl absent ↦
            let there = (assign-Assigned naming now cam_id cam_name o e s).1 in
            absurd (ground arith)
        | inr (before, found) ↦
            let d = seen naming now cam_id cam_name o before in
            (
              before,
              d,
              found,
              rw (found, observe, touch)
                  (ground (arith, lookup-insert k k r.0 r.1.track_map, same_self k)),
              λ name. rw (found, observe, touch) (lookup-insert name r.0 d r.1.dossiers),
              seen-Holds cam_id cam_name o before,
            )
      ]
