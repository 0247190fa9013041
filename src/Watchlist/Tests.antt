-- ===== src/Watchlist/Tests.antt =====
-- A list of two plates and a face (core/watchlist.py).
use ibvap.Common.{
  ℕ, ◌<◌, ◌≡◌, refl, true, false, none, some, List, [], ◌∷◌, map, String, length, if◌then◌else◌,
  string_eq?, same, string_key, arith,
}
use ibvap.Common.Texts.{codes}
use ibvap.Common.Dict.{IsDict, insert}
use ibvap.Common.Milli.{milli}
use ibvap.Common.Float.{num, less, at_most}
use ibvap.Watchlist.Defs.{
  high, face, plate, WatchlistEntry, Vectors, normalize_plate_string, WatchlistStore, snapshot,
  save, save_item, load, debounced_save, record_sighting, cleaned, add_entry,
}
use ibvap.Watchlist.Persistence.{Op, add, sight, IsCurrent, run, items_of, debounced_save-run}
use ibvap.Watchlist.Reload.{load-save}
use ibvap.Watchlist.Matching.{
  MatchResult, result_of, is_exact, canon, search_plate, match_plate, gallery_score, best_match,
  identify,
}
use ibvap.Watchlist.Verdicts.{In, Names, match_plate-Names}
use ibvap.Watchlist.Best.{IsTop, identify-best}

-- Vectors are their own texts.
abbrev vectors : Vectors String
vectors = record {
  encode = λ v. v;
  decode = λ t. some t;
  is_valid_exemplar = λ v. true;
  upper = λ t. t;
  lower = λ t. t;
}

abbrev car : WatchlistEntry ℕ String
car = record {
  id = "w1";
  name = "grey van";
  threat_level = high;
  notes = "";
  created_at = 1000;
  gallery = [];
  thumbnail_b64 = "";
  sight_count = 0;
  last_sighted = none;
  target_type = plate;
  plate_number = some "KA-01-B8";
  normalized_plate = some "KA01B8";
  vehicle_description = none;
}

abbrev person : WatchlistEntry ℕ String
person = record car {
  id = "w2";
  target_type = face;
  gallery = "far" ∷ "near" ∷ [];
  plate_number = none;
  normalized_plate = none;
}

abbrev empty : WatchlistStore ℕ String
empty = record { entries = []; dirty = false; timer = false; document = none }

empty-IsCurrent : IsCurrent vectors empty
empty-IsCurrent = record { armed = λ h. cc; saved = λ h. refl }

abbrev calls : List (Op ℕ String)
calls = add car ∷ sight "w1" 5000 ∷ []

debounced_save-run_example :
    ((run vectors calls empty).dirty ≡ true → (run vectors calls empty).timer ≡ true)
    × (items_of vectors (debounced_save vectors true (run vectors calls empty)).document
        ≡ snapshot vectors (run vectors calls empty))
    × ((debounced_save vectors true (run vectors calls empty)).entries
        ≡ (run vectors calls empty).entries)
    × ((debounced_save vectors true (run vectors calls empty)).dirty ≡ false)
debounced_save-run_example = debounced_save-run vectors calls empty empty-IsCurrent

-- The count of sightings is in the document after the timer.
sighting_is_saved :
    map
      (λ i. i.sight_count)
      (items_of vectors (debounced_save vectors true (run vectors calls empty)).document)
    ≡ 1 ∷ []
unfolding debounced_save record_sighting add_entry cleaned insert save_item string_eq?
sighting_is_saved = refl

abbrev stored : WatchlistStore ℕ String
stored = record empty { entries = ("w1", car) ∷ ("w2", person) ∷ [] }

stored-IsDict : IsDict stored.entries
unfolding string_eq?
stored-IsDict = (refl, (refl, tt))

load-save_example :
    (load {F = ℕ} vectors (save vectors true stored).document).entries ≡ stored.entries
load-save_example =
    load-save vectors (λ v. refl) (λ t. refl) (λ t. refl) stored stored-IsDict
      ((refl, tt, refl), ((refl, (refl, (refl, tt)), refl), tt))

-- OCR read the letter as the figure that it looks like.
confused :
    match_plate {F = ℕ} (λ t. t) 800 "KA 01 88" (car ∷ person ∷ [])
    ≡ some (result_of 920 "AMBER" car)
unfolding match_plate search_plate canon normalize_plate_string string_eq?
confused = refl

match_plate-Names_example :
    ((m : MatchResult ℕ)
      → match_plate (λ t. t) 800 "KA-01-B8" (car ∷ person ∷ []) ≡ some m
      → Names (normalize_plate_string (λ t. t) "KA-01-B8") (car ∷ person ∷ []) m)
    × ((e : WatchlistEntry ℕ String)
        → In e (car ∷ person ∷ [])
        → is_exact (normalize_plate_string (λ t. t) "KA-01-B8") e ≡ true
        → 2 < length (codes (normalize_plate_string (λ t. t) "KA-01-B8"))
        → (m : MatchResult ℕ) × (match_plate (λ t. t) 800 "KA-01-B8" (car ∷ person ∷ []) ≡ some m)
          × (m.tier ≡ "RED")
          × (m.score ≡ num 1 1))
match_plate-Names_example = match_plate-Names (λ t. t) 800 "KA-01-B8" (car ∷ person ∷ [])

abbrev sim : String → ℕ
sim v = if same v "near" then 600 else 300

abbrev hit : MatchResult ℕ
hit = result_of 600 "RED" person

person_is_identified : identify sim 0 520 420 (car ∷ person ∷ []) ≡ some hit
unfolding identify best_match string_eq?
person_is_identified = refl

identify-best_example :
    IsTop sim 600 (car ∷ person ∷ [])
    × (less {F = ℕ} 600 420 ≡ false)
    × (hit.tier ≡ (if at_most {F = ℕ} 520 600 then "RED" else "AMBER"))
    × ((e : WatchlistEntry ℕ String) × (hit.entry_id ≡ e.id)
        × In e (car ∷ person ∷ [])
        × (gallery_score sim e.gallery ≡ some 600))
identify-best_example =
    identify-best (λ a b h. ground arith) (λ a b c h k. ground arith) (λ a. ground arith) sim 0 520
      420 (car ∷ person ∷ []) person_is_identified
