-- ===== src/Tracker/Latch.antt =====
-- `Track.record_biometric_match` (core/tracker.py): the latch of a track's watchlist identity.
use ibvap.Common.{
  ℕ, suc, Bool, true, false, not, ◌&&◌, Option, none, some, List, [], ◌∷◌, ◌++◌, String, leb,
  if◌then◌else◌, last_n, same, string_key,
}
use ibvap.Common.Float.{Float, less, larger}
use ibvap.Tracker.Tracks.{Identity, Match, Track}

abbrev pub is_critical : String → Bool
is_critical threat = same threat "CRITICAL"

abbrev pub is_red : String → Bool
is_red tier = same tier "RED"

module _ {F : Type 0} where
  -- How many of the matches are RED ones of the entry.
  abbrev pub reds : String → List (Match F) → ℕ
  reds entry [] = 0
  reds entry (m ∷ ms) =
      let rest = reds entry ms in if same m.entry_id entry && is_red m.tier then suc rest else rest

  -- `self.match_history.append(...)`, with six kept.
  abbrev pub noted : Track F → Match F → Track F
  noted t m = record t { match_history = last_n 6 (t.match_history ++ m ∷ []) }

  abbrev pub is_critical_identity : Option (Identity F) → Bool
  is_critical_identity none = false
  is_critical_identity (some i) = is_critical i.threat_level

  abbrev pub absent : Option (Identity F) → Bool
  absent none = true
  absent (some i) = false

  -- The dictionary that the match would store.
  abbrev pub identity_of : Match F → F → String → Bool → Identity F
  identity_of m score tier locked = record {
    entry_id = m.entry_id;
    name = m.name;
    score = score;
    tier = tier;
    threat_level = m.threat_level;
    locked = locked;
  }

  abbrev pub holding : Track F → Identity F → Bool → Track F
  holding t i locked = record t { identity = some i; identity_locked = locked }

module _ {F : Type 0} ⦃f : Float F⦄ where
  -- The part for a track that is locked to the identity `cur`.
  unfoldable pub match_locked : Track F → Identity F → Match F → ℕ → Track F × Bool
  match_locked t cur m red_count =
      let peak = record cur { score = larger cur.score m.score } in
      let taken = holding t (identity_of m m.score "RED" true) t.identity_locked in
      if same cur.entry_id m.entry_id
      then (if is_red m.tier then holding t peak t.identity_locked else t, true)
      else if not (is_red m.tier)
      then (t, false)
      else if is_critical cur.threat_level && not (is_critical m.threat_level)
      then (t, false)
      else if is_critical m.threat_level && not (is_critical cur.threat_level)
      then (taken, true)
      else if leb 2 red_count && less cur.score m.score
      then (taken, true)
      else (t, false)

  -- `self.identity["score"]` if the identity is of this entry, or else the new score.
  abbrev pub prev_score : Option (Identity F) → Match F → F
  prev_score none m = m.score
  prev_score (some i) m = if same i.entry_id m.entry_id then i.score else m.score

  -- The part for a track that is not locked.
  unfoldable pub match_open : Track F → Match F → ℕ → Track F × Bool
  match_open t m red_count =
      if is_critical m.threat_level && is_red m.tier
      then (holding t (identity_of m m.score "RED" true) true, true)
      else if leb 2 red_count
      then (
        holding t (identity_of m (larger m.score (prev_score t.identity m)) "RED" true) true,
        true,
      )
      else if is_red m.tier
      then (if is_critical_identity t.identity && not (is_critical m.threat_level)
          then (t, false)
          else (holding t (identity_of m m.score "RED" false) t.identity_locked, false))
      else if same m.tier "AMBER" && absent t.identity
      then (holding t (identity_of m m.score "AMBER" false) t.identity_locked, t.identity_locked)
      else (t, t.identity_locked)

  -- `if self.identity_locked and self.identity`
  unfoldable pub match_by : Bool → Option (Identity F) → Track F → Match F → ℕ → Track F × Bool
  unfolding match_locked match_open
  match_by true (some cur) t m red_count = match_locked t cur m red_count
  match_by true none t m red_count = match_open t m red_count
  match_by false i t m red_count = match_open t m red_count

  unfoldable pub record_biometric_match : Track F → Match F → Track F × Bool
  unfolding match_by
  record_biometric_match t m =
      let t' = noted t m in
      match_by t'.identity_locked t'.identity t' m (reds m.entry_id (last_n 3 t'.match_history))
