-- ===== src/Anpr/Eviction.antt =====
-- The eviction of dead tracks (core/anpr.py): which votes stay, and what the count tells.
use ibvap.Common.{
  ℕ, ◌+◌, ◌≡◌, refl, ap, Bool, true, ◌&&◌, Option, none, List, [], ◌∷◌, String, arith,
  if◌then◌else◌, length, same, same→eq, Bool-cases, inl, inr, is_some, nat_key,
}
use ibvap.Common.Dict.{lookup, erase, lookup-erase}
use ibvap.Anpr.Defs.{Votes, VoteKey, vote_key, evict_keys, evict_dead_tracks, is_dead}

-- The rows of a list whose keys are not dead.
abbrev pub survivors :
    (VoteKey → Bool) → List (VoteKey × List String) → List (VoteKey × List String)
survivors dead [] = []
survivors dead ((k, w) ∷ d) = let rest = survivors dead d in if dead k then rest else (k, w) ∷ rest

lookup-evict_keys :
    (dead : VoteKey → Bool) (s : Votes) (l : List (VoteKey × List String)) (k : VoteKey)
    → (lookup k (evict_keys dead s l).0.history
        ≡ (if is_some (lookup k l) && dead k then none else lookup k s.history))
      × (lookup k (evict_keys dead s l).0.last_active
          ≡ (if is_some (lookup k l) && dead k then none else lookup k s.last_active))
unfolding evict_keys
lookup-evict_keys dead s [] k = (refl, refl)
lookup-evict_keys dead s ((j, w) ∷ l) k =
    let s' : Votes = record s {
      history = erase j s.history;
      last_active = erase j s.last_active;
    } in
    let (a, b) = lookup-evict_keys dead s' l k in
    let (c, d) = lookup-evict_keys dead s l k in
    let e = lookup-erase k j s.history in
    let g = lookup-erase k j s.last_active in
    elim (Bool-cases (same k j)) [
      | inl p ↦
          let q = ap dead (same→eq k j p) in
          elim (Bool-cases (dead j)) [ inl r ↦ rw r (ground arith) | inr r ↦ rw r (ground arith) ]
      | inr p ↦ elim (Bool-cases (dead j)) [
        | inl r ↦ rw r (ground arith)
        | inr r ↦ rw r (ground arith)
      ]
    ]

length-evict_keys :
    (dead : VoteKey → Bool) (s : Votes) (l : List (VoteKey × List String))
    → length l ≡ length (survivors dead l) + (evict_keys dead s l).1
unfolding evict_keys
length-evict_keys dead s [] = omega arith
length-evict_keys dead s ((k, w) ∷ l) =
    let a =
      length-evict_keys dead
        (record s { history = erase k s.history; last_active = erase k s.last_active }) l in
    let b = length-evict_keys dead s l in
    elim (Bool-cases (dead k)) [ inl p ↦ rw p (omega arith) | inr p ↦ rw p (omega arith) ]

-- The eviction takes the votes and the activity of a track if and only if its key is dead: of another
-- epoch, or not active with its grace over; every other key keeps both as they are. The count that it
-- returns is the number of the tracks with votes that are dead.
pub evict_dead_tracks_lem :
    (s : Votes) (active : Option (List ℕ)) (epoch grace now : ℕ)
    → let dead = is_dead s active epoch grace now in
      let r = evict_dead_tracks s active epoch grace now in
      ((k : VoteKey)
        → is_some (lookup k s.history) ≡ true
        → (lookup k r.0.history ≡ (if dead k then none else lookup k s.history))
          × (lookup k r.0.last_active ≡ (if dead k then none else lookup k s.last_active)))
      × (length s.history ≡ length (survivors dead s.history) + r.1)
unfolding evict_dead_tracks
evict_dead_tracks_lem s active epoch grace now =
    let dead = is_dead s active epoch grace now in
    (
      λ k h. let (a, b) = lookup-evict_keys dead s s.history k in (ground arith, ground arith),
      length-evict_keys dead s s.history,
    )
