-- ===== src/Anpr/Defs.antt =====
-- `normalize_plate` and the votes of `ANPRPipeline` (core/anpr.py).
use Prim.Native.Char.{code}
use ibvap.Common.{
  ℕ, suc, ◌+◌, ◌≡◌, ap, Bool, true, false, not, ◌&&◌, ◌||◌, Option, none, some, List, [], ◌∷◌, ◌++◌,
  String, ltb, leb, ◌==◌, if◌then◌else◌, length, last_n, same, contains, Key, nat_key, string_key,
  ℕ_discrete,
}
use ibvap.Common.Dict.{lookup, insert, erase}

-- The keys of the votes: the epoch of the stream and the vehicle.
pub record VoteKey : Type 0 where
  pub epoch : ℕ
  pub vehicle : ℕ

unfoldable pub vote_key_dec :
    (a b : VoteKey) → Dec (a.epoch ≡ b.epoch) → Dec (a.vehicle ≡ b.vehicle) → Dec (a ≡ b)
vote_key_dec a b (yes p) (yes q) = yes (cc)
vote_key_dec a b (yes p) (no q) = no (λ e. q (ap (λ (k : VoteKey). k.vehicle) e))
vote_key_dec a b (no p) d = no (λ e. p (ap (λ (k : VoteKey). k.epoch) e))

instance abbrev pub vote_key : Key VoteKey
vote_key = record {
  eq? = λ a b. vote_key_dec a b (ℕ_discrete a.epoch b.epoch) (ℕ_discrete a.vehicle b.vehicle);
}

-- `_history`, `_last_active` and the bound.
pub record Votes : Type 0 where
  pub max_history_tracks : ℕ
  pub history : List (VoteKey × List String)
  pub last_active : List (VoteKey × ℕ)

-- `[A-Z0-9]`
abbrev pub is_plate_char : ℕ → Bool
is_plate_char n = leb 65 n && leb n 90 || leb 48 n && leb n 57

unfoldable pub keep_plate_chars : String → String
keep_plate_chars String.[] = String.[]
keep_plate_chars (String.◌∷◌ c s) =
    let rest = keep_plate_chars s in if is_plate_char (code c) then String.◌∷◌ c rest else rest

-- `normalize_plate`, whose two branches return the same text; `upper` is `str.upper`.
unfoldable pub normalize_plate : (String → String) → String → String
unfolding keep_plate_chars
normalize_plate upper text = keep_plate_chars (upper text)

abbrev pub or_text : String → String → String
or_text String.[] d = d
or_text (String.◌∷◌ c s) d = String.◌∷◌ c s

-- How often a text stands in a list.
abbrev pub count : String → List String → ℕ
count x [] = 0
count x (y ∷ l) = let n = count x l in if same y x then suc n else n

-- The first of the texts that no later one outvotes, where `best` leads so far.
unfoldable pub leader : List String → String → List String → String
leader votes best [] = best
leader votes best (x ∷ l) =
    if ltb (count best votes) (count x votes) then leader votes x l else leader votes best l

-- `Counter(hist).most_common(1)[0][0]`, or the value for an empty list.
unfoldable pub most_common : List String → String → String
unfolding leader
most_common [] val = val
most_common (x ∷ l) val = leader (x ∷ l) x l

abbrev pub or_empty : Option (List String) → List String
or_empty none = []
or_empty (some l) = l

-- The keys of other epochs go.
unfoldable pub keep_epoch {ℓ} : {A : Type ℓ} → ℕ → List (VoteKey × A) → List (VoteKey × A)
keep_epoch epoch [] = []
keep_epoch epoch ((k, v) ∷ d) =
    let rest = keep_epoch epoch d in if k.epoch == epoch then (k, v) ∷ rest else rest

-- The activity of the keys that go.
unfoldable pub drop_others :
    ℕ → List (VoteKey × List String) → List (VoteKey × ℕ) → List (VoteKey × ℕ)
drop_others epoch [] active = active
drop_others epoch ((k, w) ∷ d) active =
    let rest = drop_others epoch d active in if k.epoch == epoch then rest else erase k rest

-- `if len(self._history) > self.max_history_tracks`: the oldest goes, if it is another.
unfoldable pub evict_oldest : Votes → VoteKey → List (VoteKey × List String) → Votes
evict_oldest s key [] = s
evict_oldest s key ((oldest, w) ∷ d) =
    if ltb s.max_history_tracks (length s.history) && not (same oldest key)
    then record s { history = erase oldest s.history; last_active = erase oldest s.last_active }
    else s

abbrev pub vote_text : (String → String) → String → String
vote_text upper text = or_text (normalize_plate upper text) text

abbrev pub window_with : Votes → VoteKey → String → List String
window_with s key val =
    last_n 10 (or_empty (lookup key (keep_epoch key.epoch s.history)) ++ val ∷ [])

-- The votes after a read, before the bound is enforced.
unfoldable pub cast : Votes → VoteKey → String → ℕ → Votes
unfolding keep_epoch drop_others
cast s key val now = record s {
  history = insert key (window_with s key val) (keep_epoch key.epoch s.history);
  last_active = insert key now (drop_others key.epoch s.history s.last_active);
}

unfoldable pub consensus_for : (String → String) → Votes → VoteKey → String → ℕ → Votes × String
unfolding cast evict_oldest most_common normalize_plate
consensus_for upper s key text now =
    let val = vote_text upper text in
    let voted = cast s key val now in
    let hist = window_with s key val in
    (evict_oldest voted key voted.history, if length hist == 1 then val else most_common hist val)

abbrev pub last_seen : Option ℕ → ℕ
last_seen none = 0
last_seen (some t) = t

-- The key is evicted: it is of another epoch, or its track is dead and its grace over.
unfoldable pub is_dead : Votes → Option (List ℕ) → ℕ → ℕ → ℕ → VoteKey → Bool
is_dead s active epoch grace now k = if not (k.epoch == epoch) then true else elim active [
  | none ↦ false
  | some tids ↦
      not (contains k.vehicle tids) && leb (last_seen (lookup k s.last_active) + grace) now
]

-- The loop over the keys, and the count of evictions.
unfoldable pub evict_keys : (VoteKey → Bool) → Votes → List (VoteKey × List String) → Votes × ℕ
evict_keys dead s [] = (s, 0)
evict_keys dead s ((k, w) ∷ d) =
    let gone =
      evict_keys dead
        (record s { history = erase k s.history; last_active = erase k s.last_active }) d in
    let kept = evict_keys dead s d in if dead k then (gone.0, gone.1 + 1) else kept

unfoldable pub evict_dead_tracks : Votes → Option (List ℕ) → ℕ → ℕ → ℕ → Votes × ℕ
unfolding is_dead evict_keys
evict_dead_tracks s active epoch grace now =
    evict_keys (is_dead s active epoch grace now) s s.history

unfoldable pub votes_for : Votes → VoteKey → String → ℕ
votes_for s key text = count text (or_empty (lookup key s.history))

-- `consensus_text if self.votes_for(...) >= 2 else None`, the report of `process_vehicle_crop`.
unfoldable pub confirmed : (String → String) → Votes → VoteKey → String → ℕ → Votes × Option String
unfolding consensus_for votes_for
confirmed upper s key text now =
    let r = consensus_for upper s key text now in
    (r.0, if leb 2 (votes_for r.0 key r.1) then some r.1 else none)
