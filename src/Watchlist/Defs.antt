-- ===== src/Watchlist/Defs.antt =====
-- The watchlist: entries, the store with its deferred saves, and the JSON document as data
-- (core/watchlist.py). Vectors, their base64 text and `is_valid_exemplar` are arguments, as are
-- `str.upper` and `str.lower`; the cache of the normalised gallery is left out.
use Prim.Native.Char.{code}
use ibvap.Common.{
  ℕ, suc, Bool, true, false, not, ◌||◌, ◌&&◌, Option, none, some, List, [], ◌∷◌, map, String, leb,
  if◌then◌else◌, select, same, is_some, string_key,
}
use ibvap.Common.Texts.{present}
use ibvap.Common.Dict.{lookup, insert, erase, has, values}

pub data ThreatLevel : Type 0 where
  critical high medium low : ThreatLevel

pub data TargetType : Type 0 where
  face plate : TargetType

pub record WatchlistEntry (F V : Type 0) : Type 0 where
  pub id : String
  pub name : String
  pub threat_level : ThreatLevel
  pub notes : String
  pub created_at : F
  pub gallery : List V
  pub thumbnail_b64 : String
  pub sight_count : ℕ
  pub last_sighted : Option F
  pub target_type : TargetType
  pub plate_number : Option String
  pub normalized_plate : Option String
  pub vehicle_description : Option String

-- One item of the document.
pub record Item (F : Type 0) : Type 0 where
  pub id : String
  pub name : String
  pub threat_level : String
  pub notes : String
  pub created_at : F
  pub gallery : List String
  pub thumbnail_b64 : String
  pub sight_count : ℕ
  pub last_sighted : Option F
  pub target_type : String
  pub plate_number : Option String
  pub normalized_plate : Option String
  pub vehicle_description : Option String

-- The base64 text of a vector, what a text decodes to, and the validity of a vector.
pub record Vectors (V : Type 0) : Type 0 where
  pub encode : V → String
  pub decode : String → Option V
  pub is_valid_exemplar : V → Bool
  pub upper : String → String
  pub lower : String → String

abbrev pub is_alphanumeric : ℕ → Bool
is_alphanumeric n = leb b'0' n && leb n b'9' || leb b'A' n && leb n b'Z' || leb b'a' n && leb n b'z'

unfoldable pub keep_alphanumeric : String → String
keep_alphanumeric String.[] = String.[]
keep_alphanumeric (String.◌∷◌ c s) =
    let rest = keep_alphanumeric s in if is_alphanumeric (code c) then String.◌∷◌ c rest else rest

unfoldable pub normalize_plate_string : (String → String) → String → String
unfolding keep_alphanumeric
normalize_plate_string upper text = upper (keep_alphanumeric text)

unfoldable pub threat_text : ThreatLevel → String
threat_text critical = "CRITICAL"
threat_text high = "HIGH"
threat_text medium = "MEDIUM"
threat_text low = "LOW"

-- `ThreatLevel(raw)`, or HIGH where that raises.
unfoldable pub threat_of_text : String → ThreatLevel
threat_of_text t =
    if same t "CRITICAL"
    then critical
    else if same t "MEDIUM"
    then medium
    else if same t "LOW"
    then low
    else high

unfoldable pub target_text : TargetType → String
target_text face = "face"
target_text plate = "plate"

abbrev pub is_plate : TargetType → Bool
is_plate face = false
is_plate plate = true

module _ {V : Type 0} (vectors : Vectors V) where
  -- `item.get("normalized_plate") or (normalize_plate_string(plate_number) if plate_number else None)`
  abbrev pub plate_or : Option String → Option String → Option String
  plate_or normalized number = elim (present normalized) [
    | some n ↦ some n
    | none ↦ elim (present number) [
      | none ↦ none
      | some t ↦ some (normalize_plate_string vectors.upper t)
    ]
  ]

  abbrev pub keep_vector : V → Option (List V) → Option (List V)
  keep_vector v none = none
  keep_vector v (some vs) = if vectors.is_valid_exemplar v then some (v ∷ vs) else some vs

  -- A text that cannot be decoded raises.
  unfoldable pub decode_gallery : List String → Option (List V)
  decode_gallery [] = some []
  decode_gallery (t ∷ ts) = elim (vectors.decode t) [
    | none ↦ none
    | some v ↦ keep_vector v (decode_gallery ts)
  ]

module _ {F V : Type 0} (vectors : Vectors V) where
  abbrev pub entry_with : Item F → List V → WatchlistEntry F V
  entry_with i gallery = record {
    id = i.id;
    name = i.name;
    threat_level = threat_of_text (vectors.upper i.threat_level);
    notes = i.notes;
    created_at = i.created_at;
    gallery = gallery;
    thumbnail_b64 = i.thumbnail_b64;
    sight_count = i.sight_count;
    last_sighted = i.last_sighted;
    target_type = if same (vectors.lower i.target_type) "plate" then plate else face;
    plate_number = i.plate_number;
    normalized_plate = plate_or vectors i.normalized_plate i.plate_number;
    vehicle_description = i.vehicle_description;
  }

  unfoldable pub load_item : Item F → Option (WatchlistEntry F V)
  unfolding decode_gallery threat_of_text
  load_item i = elim (decode_gallery vectors i.gallery) [
    | none ↦ none
    | some g ↦ some (entry_with i g)
  ]

  unfoldable pub save_item : WatchlistEntry F V → Item F
  unfolding threat_text target_text
  save_item e = record {
    id = e.id;
    name = e.name;
    threat_level = threat_text e.threat_level;
    notes = e.notes;
    created_at = e.created_at;
    gallery = map vectors.encode e.gallery;
    thumbnail_b64 = e.thumbnail_b64;
    sight_count = e.sight_count;
    last_sighted = e.last_sighted;
    target_type = target_text e.target_type;
    plate_number = e.plate_number;
    normalized_plate = e.normalized_plate;
    vehicle_description = e.vehicle_description;
  }

-- `timer` says that the debounce timer is armed; `document` is the file, where there is one.
pub record WatchlistStore (F V : Type 0) : Type 0 where
  pub entries : List (String × WatchlistEntry F V)
  pub dirty : Bool
  pub timer : Bool
  pub document : Option (List (Item F))

module _ {F V : Type 0} (vectors : Vectors V) where
  abbrev pub snapshot : WatchlistStore F V → List (Item F)
  snapshot s = map (save_item vectors) (values s.entries)

  -- A write that fails is logged, and the document stays.
  unfoldable pub save : Bool → WatchlistStore F V → WatchlistStore F V
  save writable s = record s { document = if writable then some (snapshot s) else s.document }

  unfoldable pub load_items :
      List (Item F)
      → List (String × WatchlistEntry F V)
      → Option (List (String × WatchlistEntry F V))
  load_items [] entries = some entries
  load_items (i ∷ items) entries = elim (load_item vectors i) [
    | none ↦ none
    | some e ↦ load_items items (insert e.id e entries)
  ]

  abbrev pub entries_or_none :
      Option (List (String × WatchlistEntry F V)) → List (String × WatchlistEntry F V)
  entries_or_none none = []
  entries_or_none (some entries) = entries

  -- `__init__` with `_load`: a document that cannot be read leaves the store empty.
  unfoldable pub load : Option (List (Item F)) → WatchlistStore F V
  unfolding load_items
  load none = record { entries = []; dirty = false; timer = false; document = none }
  load (some items) = record {
    entries = entries_or_none (load_items items []);
    dirty = false;
    timer = false;
    document = some items;
  }

  unfoldable pub flush : Bool → WatchlistStore F V → WatchlistStore F V
  unfolding save
  flush writable s =
      if s.dirty
      then record (save writable (record s { timer = false })) { dirty = false }
      else record s { timer = false }

  -- The timer runs out.
  unfoldable pub debounced_save : Bool → WatchlistStore F V → WatchlistStore F V
  unfolding save
  debounced_save writable s =
      if s.dirty
      then record (save writable (record s { timer = false })) { dirty = false }
      else record s { timer = false }

  unfoldable pub cleaned : WatchlistEntry F V → WatchlistEntry F V
  cleaned e = record e {
    gallery = select vectors.is_valid_exemplar e.gallery;
    normalized_plate =
        if is_plate e.target_type
          && is_some (present e.plate_number)
          && not (is_some (present e.normalized_plate))
        then plate_or vectors none e.plate_number
        else e.normalized_plate;
  }

  unfoldable pub add_entry : Bool → WatchlistEntry F V → WatchlistStore F V → WatchlistStore F V
  unfolding save
  add_entry writable e s =
      record (save writable
        (record s { entries = insert e.id (cleaned e) s.entries; timer = false })) { dirty = false }

  unfoldable pub remove_entry : Bool → String → WatchlistStore F V → WatchlistStore F V × Bool
  unfolding save
  remove_entry writable id s =
      if has id s.entries
      then (
        record (save writable (record s { entries = erase id s.entries; timer = false })) {
          dirty = false;
        },
        true,
      )
      else (s, false)

  unfoldable pub record_sighting : String → F → WatchlistStore F V → WatchlistStore F V
  record_sighting id timestamp s = elim (lookup id s.entries) [
    | none ↦ s
    | some e ↦ record s {
      entries =
          insert id (record e { sight_count = suc e.sight_count; last_sighted = some timestamp })
            s.entries;
      dirty = true;
      timer = true;
    }
  ]
