-- ===== src/Watchlist/Matching.antt =====
-- `match_plate` and `identify` (core/watchlist.py). The similarity of a unit vector to a row of a gallery
-- is an argument; `max` over an empty gallery is not reached.
use Prim.Native.Char.{Char, code}
use ibvap.Common.{
  ℕ, suc, Bool, true, false, ◌&&◌, Option, none, some, List, [], ◌∷◌, String, ltb, ◌==◌,
  if◌then◌else◌, length, same, is_some, string_key,
}
use ibvap.Common.Texts.{present, codes}
use ibvap.Common.Float.{Float, less, at_most, num}
use ibvap.Watchlist.Defs.{ThreatLevel, critical, is_plate, WatchlistEntry, normalize_plate_string}

pub record MatchResult (F : Type 0) : Type 0 where
  pub entry_id : String
  pub name : String
  pub score : F
  pub threat_level : ThreatLevel
  pub tier : String
  pub notes : String

abbrev pub is_top_threat : ThreatLevel → Bool
is_top_threat critical = true
is_top_threat t = false

-- The replacements of `_canon`, none of whose results is replaced again.
abbrev pub canon_char : Char → Char
canon_char c =
    if code c == b'O'
    then "0"
    else if code c == b'I'
    then "1"
    else if code c == b'B'
    then "8"
    else if code c == b'Z'
    then "2"
    else if code c == b'S'
    then "5"
    else c

unfoldable pub canon : String → String
canon String.[] = String.[]
canon (String.◌∷◌ c s) = String.◌∷◌ (canon_char c) (canon s)

-- The number of places where two texts of one length differ.
unfoldable pub differences : List ℕ → List ℕ → ℕ
differences [] ys = 0
differences (x ∷ xs) [] = 0
differences (x ∷ xs) (y ∷ ys) = let rest = differences xs ys in if x == y then rest else suc rest

module _ {F V : Type 0} where
  -- The first entry of the list with the property.
  unfoldable pub first_entry :
      (WatchlistEntry F V → Bool) → List (WatchlistEntry F V) → Option (WatchlistEntry F V)
  first_entry p [] = none
  first_entry p (e ∷ es) = if p e then some e else first_entry p es

  abbrev pub plate_is : (String → Bool) → WatchlistEntry F V → Bool
  plate_is p e = elim e.normalized_plate [ none ↦ false | some n ↦ is_plate e.target_type && p n ]

  unfoldable pub is_exact : String → WatchlistEntry F V → Bool
  is_exact q e = plate_is (λ n. same n q) e

  unfoldable pub is_confusable : String → WatchlistEntry F V → Bool
  is_confusable q e = plate_is (λ n. is_some (present (some n)) && same (canon n) (canon q)) e

module _ {F V : Type 0} ⦃f : Float F⦄ where
  unfoldable pub is_near : F → String → WatchlistEntry F V → Bool
  is_near amber q e =
      plate_is
        (λ n.
          is_some (present (some n))
          && length (codes n) == length (codes q)
          && differences (codes n) (codes q) == 1
          && at_most amber (num 85 100))
        e

  abbrev pub result_of : F → String → WatchlistEntry F V → MatchResult F
  result_of score tier e = record {
    entry_id = e.id;
    name = e.name;
    score = score;
    threat_level = e.threat_level;
    tier = tier;
    notes = e.notes;
  }

  -- The three searches for a text in normal form, in their order.
  unfoldable pub search_plate : F → String → List (WatchlistEntry F V) → Option (MatchResult F)
  unfolding first_entry is_exact is_confusable is_near
  search_plate amber q entries = elim (first_entry (is_exact q) entries) [
    | some e ↦ some (result_of (num 1 1) "RED" e)
    | none ↦ elim (first_entry (is_confusable q) entries) [
      | some e ↦
          some (result_of (num 92 100) (if is_top_threat e.threat_level then "RED" else "AMBER") e)
      | none ↦
          if ltb (length (codes q)) 8 then none else elim (first_entry (is_near amber q) entries) [
            | none ↦ none
            | some e ↦ some (result_of (num 85 100) "AMBER" e)
          ]
    ]
  ]

  unfoldable pub match_plate :
      (String → String) → F → String → List (WatchlistEntry F V) → Option (MatchResult F)
  match_plate upper amber plate_text entries =
      let q = normalize_plate_string upper plate_text in
      if ltb (length (codes q)) 3 then none else search_plate amber q entries

  -- The best row of a gallery that is not empty.
  abbrev pub best_row : (V → F) → F → List V → F
  best_row sim best [] = best
  best_row sim best (v ∷ vs) = best_row sim (if less best (sim v) then sim v else best) vs

  abbrev pub gallery_score : (V → F) → List V → Option F
  gallery_score sim [] = none
  gallery_score sim (v ∷ vs) = some (best_row sim (sim v) vs)

  -- The loop of `identify`: the first entry that no later one outscores.
  unfoldable pub best_match :
      (V → F)
      → F
      → Option (WatchlistEntry F V)
      → List (WatchlistEntry F V)
      → F × Option (WatchlistEntry F V)
  best_match sim best chosen [] = (best, chosen)
  best_match sim best chosen (e ∷ es) = elim (gallery_score sim e.gallery) [
    | none ↦ best_match sim best chosen es
    | some score ↦
        let better = best_match sim score (some e) es in
        let same_best = best_match sim best chosen es in
        if less best score then better else same_best
  ]

  unfoldable pub identify : (V → F) → F → F → F → List (WatchlistEntry F V) → Option (MatchResult F)
  identify sim minus_one red amber entries =
      let (score, chosen) = best_match sim minus_one none entries in
      elim chosen [
        | none ↦ none
        | some e ↦
            if less score amber
            then none
            else some (result_of score (if at_most red score then "RED" else "AMBER") e)
      ]
