-- ===== src/Watchlist/Verdicts.antt =====
-- What a match of the watchlist says (core/watchlist.py).
use ibvap.Common.{
  ℕ, zero, suc, ◌≡◌, ◌⊎◌, refl, sym, ap, ◌∙◌, Bool, true, false, some, List, [], ◌∷◌, String,
  if◌then◌else◌, length, get_elem?, same, string_key, str_ne, ◌<◌, arith, Bool-cases, Option-cases,
  inl, inr,
}
use ibvap.Common.Texts.{codes}
use ibvap.Common.Float.{Float, num}
use ibvap.Watchlist.Defs.{is_plate, WatchlistEntry, normalize_plate_string}
use ibvap.Watchlist.Matching.{
  MatchResult, is_top_threat, first_entry, plate_is, is_exact, is_confusable, is_near, result_of,
  search_plate, match_plate,
}

module _ {F V : Type 0} where
  -- The entry stands in the list.
  abbrev pub In : WatchlistEntry F V → List (WatchlistEntry F V) → Type 0
  In e es = (i : ℕ) × (get_elem? es i ≡ some e)

  In-later :
      (x : WatchlistEntry F V) (e : WatchlistEntry F V) (es : List (WatchlistEntry F V))
      → In e es
      → In e (x ∷ es)
  In-later x e es (i, h) = (suc i, h)

  first_entry-In :
      (p : WatchlistEntry F V → Bool) (es : List (WatchlistEntry F V)) {e : WatchlistEntry F V}
      → first_entry p es ≡ some e
      → In e es × (p e ≡ true)
  unfolding first_entry
  first_entry-In p [] h = cc
  first_entry-In p (x ∷ es) {e} h = elim (Bool-cases (p x)) [
    | inl it ↦ let it' : x ≡ e = ground arith in ((0, ap some it'), ap p (sym it') ∙ it)
    | inr other ↦
        let (found, holds) = first_entry-In p es (ground arith) in (In-later x e es found, holds)
  ]

  first_entry-total :
      (p : WatchlistEntry F V → Bool) (es : List (WatchlistEntry F V)) (e : WatchlistEntry F V)
      → In e es
      → p e ≡ true
      → (first : WatchlistEntry F V) × (first_entry p es ≡ some first)
  unfolding first_entry
  first_entry-total p [] e (i, h) holds = cc
  first_entry-total p (x ∷ es) e (i, h) holds = elim (Bool-cases (p x)) [
    | inl it ↦ (x, rw it refl)
    | inr other ↦
        let (first, found) = first_entry-total p es e (later i h other) holds in
        (first, rw (other, found) refl)
  ]
    where
      later : (i : ℕ) → get_elem? (x ∷ es) i ≡ some e → p x ≡ false → In e es
      later zero h other = absurd (let it : x ≡ e = cc in ground arith)
      later (suc i) h other = (i, h)

  plate_is-is_plate :
      (p : String → Bool) (e : WatchlistEntry F V)
      → plate_is p e ≡ true
      → is_plate e.target_type ≡ true
  plate_is-is_plate p e h = ground arith

abbrev red_text : String
red_text = "RED"

critical-red : (b : Bool) → (if b then "RED" else "AMBER") ≡ red_text → b ≡ true
critical-red true h = refl
critical-red false h = absurd (str_ne "AMBER" "RED" refl h)

amber-not-red : {t : String} → "AMBER" ≡ t → t ≡ "RED" → ⊥
amber-not-red a r = str_ne "AMBER" "RED" refl (a ∙ r)

module _ {F V : Type 0} ⦃f : Float F⦄ where
  exact-is_plate :
      (q : String) (e : WatchlistEntry F V) → is_exact q e ≡ true → is_plate e.target_type ≡ true
  unfolding is_exact
  exact-is_plate q e h = plate_is-is_plate (λ n. same n q) e h

  alike-is_plate :
      (q : String) (e : WatchlistEntry F V)
      → is_confusable q e ≡ true
      → is_plate e.target_type ≡ true
  unfolding is_confusable
  alike-is_plate q e h = plate_is-is_plate _ e h

  near-is_plate :
      (amber : F) (q : String) (e : WatchlistEntry F V)
      → is_near amber q e ≡ true
      → is_plate e.target_type ≡ true
  unfolding is_near
  near-is_plate amber q e h = plate_is-is_plate _ e h

  -- A match names an entry of the list that is a plate; it is RED only if the plate is the very text, or
  -- one that OCR takes for it and the threat is critical.
  abbrev pub Names : String → List (WatchlistEntry F V) → MatchResult F → Type 0
  Names q entries m =
      (e : WatchlistEntry F V) × In e entries
      × (is_plate e.target_type ≡ true)
      × (m.entry_id ≡ e.id)
      × (m.tier ≡ "RED"
          → (is_exact q e ≡ true)
            ⊎ ((is_confusable q e ≡ true) × (is_top_threat e.threat_level ≡ true)))

  search_plate-Names :
      (amber : F) (q : String) (entries : List (WatchlistEntry F V)) {m : MatchResult F}
      → search_plate amber q entries ≡ some m
      → Names q entries m
  unfolding search_plate
  search_plate-Names amber q entries {m} h =
      elim (Option-cases (first_entry (is_exact q) entries)) [
        | inr (e, exact) ↦
            let (found, holds) = first_entry-In (is_exact q) entries exact in
            let it : result_of (num 1 1) "RED" e ≡ m = ground arith in
            (
              e,
              found,
              exact-is_plate q e holds,
              ap (λ (r : MatchResult F). r.entry_id) (sym it),
              λ red. inl holds,
            )
        | inl no_exact ↦ elim (Option-cases (first_entry (is_confusable q) entries)) [
          | inr (e, alike) ↦
              let (found, holds) = first_entry-In (is_confusable q) entries alike in
              let it : result_of (num 92 100)
                    (if is_top_threat e.threat_level then "RED" else "AMBER") e
                  ≡ m =
                ground arith in
              (
                e,
                found,
                alike-is_plate q e holds,
                ap (λ (r : MatchResult F). r.entry_id) (sym it),
                λ red. inr (
                  holds,
                  critical-red (is_top_threat e.threat_level)
                      (ap (λ (r : MatchResult F). r.tier) it ∙ red),
                ),
              )
          | inl none_alike ↦ elim (Option-cases (first_entry (is_near amber q) entries)) [
            | inr (e, near) ↦
                let (found, holds) = first_entry-In (is_near amber q) entries near in
                let it : result_of (num 85 100) "AMBER" e ≡ m = ground arith in
                (
                  e,
                  found,
                  near-is_plate amber q e holds,
                  ap (λ (r : MatchResult F). r.entry_id) (sym it),
                  λ red. absurd (amber-not-red (ap (λ (r : MatchResult F). r.tier) it) red),
                )
            | inl none_near ↦ absurd (ground arith)
          ]
        ]
      ]

  -- Whatever `match_plate` answers names a plate of the list; and where the text in normal form has three
  -- characters or more and stands in the list, it answers RED with full score, whatever else is alike.
  pub match_plate-Names :
      (upper : String → String) (amber : F) (plate_text : String)
      (entries : List (WatchlistEntry F V))
      → ((m : MatchResult F)
          → match_plate upper amber plate_text entries ≡ some m
          → Names (normalize_plate_string upper plate_text) entries m)
        × ((e : WatchlistEntry F V)
            → In e entries
            → is_exact (normalize_plate_string upper plate_text) e ≡ true
            → 2 < length (codes (normalize_plate_string upper plate_text))
            → (m : MatchResult F) × (match_plate upper amber plate_text entries ≡ some m)
              × (m.tier ≡ "RED")
              × (m.score ≡ num 1 1))
  unfolding match_plate search_plate
  match_plate-Names upper amber plate_text entries =
      let q = normalize_plate_string upper plate_text in
      (
        λ m h. search_plate-Names amber q entries {m = m} (ground arith),
        λ e there exact long.
            let (first, found) = first_entry-total (is_exact q) entries e there exact in
            (result_of (num 1 1) "RED" first, ground arith, refl, refl),
      )
