-- ===== src/Handover/Defs.antt =====
-- Dossiers of subjects across cameras: `HandoverEngine` (core/handover.py). A dossier is one object,
-- known by its key in `dossiers`. `str.upper`, the label of a new subject and the n-th drawn name
-- are arguments, as is the clock of a call.
use ibvap.Common.{
  ℕ, suc, ◌≡◌, ap, Bool, true, not, ◌&&◌, Option, none, some, List, [], ◌∷◌, String, if◌then◌else◌,
  same, contains, all, Key, nat_key, string_key, string_eq?, ℕ_discrete,
}
use ibvap.Common.Texts.{present}
use ibvap.Common.Dict.{lookup, insert, erase, has}
use ibvap.Common.Float.{Float, at_most, minus}

pub record Sighting (F : Type 0) : Type 0 where
  pub camera_id : String
  pub camera_name : String
  pub timestamp : F
  pub track_id : ℕ
  pub identity : Option String
  pub confidence : F
  pub is_intrusion : Bool

pub record Dossier (F : Type 0) : Type 0 where
  pub dossier_id : String
  pub subject_type : String
  pub label : String
  pub threat_level : String
  pub first_seen_ts : F
  pub last_seen_ts : F
  pub cameras_visited : List String
  pub sightings : List (Sighting F)
  pub plate : Option String
  pub is_active : Bool

-- `(camera_id, track_id)`
pub record TrackKey : Type 0 where
  pub camera : String
  pub track : ℕ

unfoldable pub track_key_dec :
    (a b : TrackKey) → Dec (a.camera ≡ b.camera) → Dec (a.track ≡ b.track) → Dec (a ≡ b)
track_key_dec a b (yes p) (yes q) = yes (cc)
track_key_dec a b (yes p) (no q) = no (λ e. q (ap (λ (k : TrackKey). k.track) e))
track_key_dec a b (no p) d = no (λ e. p (ap (λ (k : TrackKey). k.camera) e))

instance abbrev pub track_key : Key TrackKey
track_key = record {
  eq? = λ a b. track_key_dec a b (string_eq? a.camera b.camera) (ℕ_discrete a.track b.track);
}

pub record Engine (F : Type 0) : Type 0 where
  pub max_dossiers : ℕ
  pub handover_window_s : F
  pub dossiers : List (String × Dossier F)
  pub track_map : List (TrackKey × String)
  pub identity_map : List (String × String)
  pub plate_map : List (String × String)
  pub draws : ℕ

-- One entry of `obs["tracks"]` that has a track and a box. An identity that is empty is absent.
pub record Identity : Type 0 where
  pub name : Option String
  pub threat_level : Option String

pub record Observation (F : Type 0) : Type 0 where
  pub track_id : ℕ
  pub class_name : String
  pub identity : Option Identity
  pub intrusion : Bool
  pub confidence : F

pub record PlateRead : Type 0 where
  pub text : Option String
  pub track_id : Option ℕ

-- A camera of the list with what it observed; an entry without a track or without a box is none.
pub record View (F : Type 0) : Type 0 where
  pub cam_id : String
  pub cam_name : String
  pub tracks : List (Option (Observation F))
  pub plates : List PlateRead

-- `str.upper`, the label of a numbered subject and the names that uuid draws.
pub record Naming : Type 0 where
  pub upper : String → String
  pub numbered : String → ℕ → String
  pub drawn : ℕ → String

abbrev pub stated_threat : Naming → Option Identity → String
stated_threat naming none = "LOW"
stated_threat naming (some i) = elim (present i.threat_level) [
  | none ↦ "LOW"
  | some level ↦ naming.upper level
]

module _ {F : Type 0} where
  abbrev pub name_of : Observation F → Option String
  name_of o = elim o.identity [ none ↦ none | some i ↦ present i.name ]

  abbrev pub threat_of : Naming → Observation F → String
  threat_of naming o = if o.intrusion then "CRITICAL" else stated_threat naming o.identity

  -- By identity: a stale entry is dropped.
  unfoldable pub by_identity : Option String → Engine F → Option String × Engine F
  by_identity none e = (none, e)
  by_identity (some name) e = elim (lookup name e.identity_map) [
    | none ↦ (none, e)
    | some id ↦
        if has id e.dossiers
        then (some id, e)
        else (none, record e { identity_map = erase name e.identity_map })
  ]

  -- By camera and track, likewise.
  unfoldable pub by_track : TrackKey → Engine F → Option String × Engine F
  by_track k e = elim (lookup k e.track_map) [
    | none ↦ (none, e)
    | some id ↦
        if has id e.dossiers
        then (some id, e)
        else (none, record e { track_map = erase k e.track_map })
  ]

module _ {F : Type 0} ⦃f : Float F⦄ (naming : Naming) (now : F) where
  -- A subject of this class, seen lately, that no camera of this name or key has seen.
  unfoldable pub may_continue : F → String → String → String → Dossier F → Bool
  may_continue window cam_id cam_name class_name d =
      same d.subject_type class_name
      && at_most (minus now d.last_seen_ts) window
      && not (contains cam_name d.cameras_visited)
      && all (λ s. not (same s.camera_id cam_id)) d.sightings

  unfoldable pub by_place : F → String → String → String → List (String × Dossier F) → Option String
  by_place window cam_id cam_name class_name [] = none
  by_place window cam_id cam_name class_name ((k, d) ∷ rest) =
      if may_continue window cam_id cam_name class_name d
      then some d.dossier_id
      else by_place window cam_id cam_name class_name rest

  abbrev pub label_of : Observation F → String
  label_of o = elim (name_of o) [
    | none ↦ naming.numbered o.class_name o.track_id
    | some name ↦ name
  ]

  abbrev pub new_dossier : String → String → Observation F → Dossier F
  new_dossier id cam_name o = record {
    dossier_id = id;
    subject_type = o.class_name;
    label = label_of o;
    threat_level = threat_of naming o;
    first_seen_ts = now;
    last_seen_ts = now;
    cameras_visited = cam_name ∷ [];
    sightings = [];
    plate = none;
    is_active = true;
  }

  unfoldable pub create : String → Observation F → Engine F → String × Engine F
  create cam_name o e =
      let id = naming.drawn e.draws in
      (
        id,
        record e {
          dossiers = insert id (new_dossier id cam_name o) e.dossiers;
          draws = suc e.draws;
        },
      )

  -- The four ways to a dossier, in their order.
  unfoldable pub assign : String → String → Observation F → Engine F → String × Engine F
  unfolding by_identity by_track by_place create
  assign cam_id cam_name o e =
      let (first, e1) = by_identity (name_of o) e in
      elim first [
        | some id ↦ (id, e1)
        | none ↦
            let (second, e2) = by_track (record { camera = cam_id; track = o.track_id }) e1 in
            elim second [
              | some id ↦ (id, e2)
              | none ↦
                  elim (by_place e2.handover_window_s cam_id cam_name o.class_name e2.dossiers) [
                    | some id ↦ (id, e2)
                    | none ↦ create cam_name o e2
                  ]
            ]
      ]
