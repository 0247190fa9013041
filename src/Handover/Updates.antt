-- ===== src/Handover/Updates.antt =====
-- `update_observations` (core/handover.py): the changes to a dossier, the plates, and the pruning.
use text.Mathlib.Text.{starts_with}
use ibvap.Common.{
  ℕ, ◌-◌, Bool, true, false, not, ◌||◌, ◌&&◌, Option, none, some, List, [], ◌∷◌, ◌++◌, String, ltb,
  if◌then◌else◌, length, take, last_n, same, contains, Key, string_key,
}
use ibvap.Common.Texts.{present}
use ibvap.Common.Dict.{lookup, insert, erase, keys}
use ibvap.Common.Float.{Float, less, minus, num}
use ibvap.Handover.Defs.{
  Sighting, Dossier, track_key, Engine, Observation, PlateRead, View, Naming, name_of, threat_of,
  assign,
}

module _ {F : Type 0} ⦃f : Float F⦄ (naming : Naming) (now : F) where
  abbrev pub visited_with : String → List String → List String
  visited_with cam_name visited =
      if contains cam_name visited then visited else visited ++ cam_name ∷ []

  abbrev pub escalated : Bool → String → String → String
  escalated intrusion threat level =
      if intrusion || same threat "CRITICAL"
      then "CRITICAL"
      else if same threat "HIGH" && not (same level "CRITICAL")
      then "HIGH"
      else level

  abbrev pub sighting_of : String → String → Observation F → Sighting F
  sighting_of cam_id cam_name o = record {
    camera_id = cam_id;
    camera_name = cam_name;
    timestamp = now;
    track_id = o.track_id;
    identity = name_of o;
    confidence = o.confidence;
    is_intrusion = o.intrusion;
  }

  -- A name replaces the label unless that is the name of a dossier.
  abbrev pub relabelled : Option String → Dossier F → String
  relabelled none d = d.label
  relabelled (some name) d = if starts_with d.label "DOS-" then d.label else name

  unfoldable pub seen : String → String → Observation F → Dossier F → Dossier F
  seen cam_id cam_name o d = record d {
    last_seen_ts = now;
    is_active = true;
    cameras_visited = visited_with cam_name d.cameras_visited;
    label = relabelled (name_of o) d;
    threat_level = escalated o.intrusion (threat_of naming o) d.threat_level;
    sightings = last_n 20 (d.sightings ++ sighting_of cam_id cam_name o ∷ []);
  }

  abbrev pub identity_map_with :
      Option String → String → Dossier F → List (String × String) → List (String × String)
  identity_map_with none id d m = m
  identity_map_with (some name) id d m = if starts_with d.label "DOS-" then m else insert name id m

  -- The changes to the dossier under `id`; where there is none, the lookup raises KeyError, and nothing
  -- is changed here.
  unfoldable pub touch : String → String → Observation F → String → Engine F → Engine F
  touch cam_id cam_name o id e = elim (lookup id e.dossiers) [
    | none ↦ e
    | some d ↦ record e {
      dossiers = insert id (seen cam_id cam_name o d) e.dossiers;
      identity_map = identity_map_with (name_of o) id d e.identity_map;
      track_map = insert (record { camera = cam_id; track = o.track_id }) id e.track_map;
    }
  ]

  unfoldable pub observe : String → String → Observation F → Engine F → Engine F
  unfolding touch
  observe cam_id cam_name o e =
      let (id, e') = assign naming now cam_id cam_name o e in touch cam_id cam_name o id e'

  unfoldable pub observe_all : String → String → List (Option (Observation F)) → Engine F → Engine F
  observe_all cam_id cam_name [] e = e
  observe_all cam_id cam_name (none ∷ os) e = observe_all cam_id cam_name os e
  observe_all cam_id cam_name (some o ∷ os) e =
      observe_all cam_id cam_name os (observe cam_id cam_name o e)

  -- The dossier that a plate belongs to: that of its track, or that of the same plate before.
  abbrev pub plate_dossier : String → String → Option ℕ → Engine F → Option String
  plate_dossier cam_id text none e = lookup text e.plate_map
  plate_dossier cam_id text (some track) e =
      elim (lookup (record { camera = cam_id; track = track }) e.track_map) [
        | none ↦ lookup text e.plate_map
        | some id ↦ some id
      ]

  unfoldable pub attach : String → String → Engine F → Engine F
  attach text id e = elim (lookup id e.dossiers) [
    | none ↦ e
    | some d ↦ record e {
      dossiers = insert id (record d { plate = some text }) e.dossiers;
      plate_map = insert text id e.plate_map;
    }
  ]

  unfoldable pub read_plate : String → PlateRead → Engine F → Engine F
  unfolding attach
  read_plate cam_id p e = elim (present p.text) [
    | none ↦ e
    | some text ↦ elim (plate_dossier cam_id text p.track_id e) [
      | none ↦ e
      | some id ↦ attach text id e
    ]
  ]

  unfoldable pub read_plates : String → List PlateRead → Engine F → Engine F
  read_plates cam_id [] e = e
  read_plates cam_id (p ∷ ps) e = read_plates cam_id ps (read_plate cam_id p e)

  unfoldable pub view_all : List (View F) → Engine F → Engine F
  view_all [] e = e
  view_all (v ∷ vs) e =
      view_all vs (read_plates v.cam_id v.plates (observe_all v.cam_id v.cam_name v.tracks e))

  -- `now - d.last_seen_ts > 30.0`
  unfoldable pub mark_inactive : List (String × Dossier F) → List (String × Dossier F)
  mark_inactive [] = []
  mark_inactive ((k, d) ∷ rest) =
      (k, if less (num 30 1) (minus now d.last_seen_ts) then record d { is_active = false } else d)
      ∷ mark_inactive rest

-- `sorted(..., key=last_seen_ts)`, which keeps the order of equal keys.
module _ {F : Type 0} ⦃f : Float F⦄ where
  unfoldable pub place : String × Dossier F → List (String × Dossier F) → List (String × Dossier F)
  place x [] = x ∷ []
  place x (y ∷ l) = if less y.1.last_seen_ts x.1.last_seen_ts then y ∷ place x l else x ∷ y ∷ l

  unfoldable pub sorted : List (String × Dossier F) → List (String × Dossier F)
  unfolding place
  sorted [] = []
  sorted (x ∷ l) = place x (sorted l)

module _ {ℓ κ} {K : Type ℓ} {V : Type κ} ⦃e : Key K⦄ where
  unfoldable pub erase_all : List K → List (K × V) → List (K × V)
  erase_all [] d = d
  erase_all (k ∷ ks) d = erase_all ks (erase k d)

-- `{k: v for k, v in m.items() if v not in evicted}`
unfoldable pub without : {K : Type 0} → List String → List (K × String) → List (K × String)
without evicted [] = []
without evicted ((k, v) ∷ m) =
    if contains v evicted then without evicted m else (k, v) ∷ without evicted m

module _ {F : Type 0} ⦃f : Float F⦄ where
  abbrev pub evicted_ids : Engine F → List String
  evicted_ids e = keys (take (length e.dossiers - e.max_dossiers) (sorted e.dossiers))

  unfoldable pub evict : List String → Engine F → Engine F
  evict ids e = record e {
    dossiers = erase_all ids e.dossiers;
    track_map = without ids e.track_map;
    identity_map = without ids e.identity_map;
    plate_map = without ids e.plate_map;
  }

  unfoldable pub prune : Engine F → Engine F
  unfolding evict
  prune e = if ltb e.max_dossiers (length e.dossiers) then evict (evicted_ids e) e else e

  unfoldable pub update_observations : Naming → F → List (View F) → Engine F → Engine F
  update_observations naming now views e =
      let e' = view_all naming now views e in
      prune (record e' { dossiers = mark_inactive naming now e'.dossiers })
