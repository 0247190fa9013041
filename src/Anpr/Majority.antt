-- ===== src/Anpr/Majority.antt =====
-- The consensus of a window of reads (core/anpr.py) is a majority: no read has more votes.
use ibvap.Common.{
  ℕ, ◌≤◌, ◌≡◌, refl, true, false, List, [], ◌∷◌, ◌++◌, String, ltb, ◌==◌, arith, if◌then◌else◌,
  length, contains, same, string_key, Bool-cases, inl, inr, some, ap, ◌∙◌, ◌<◌, same→eq, same_self,
  get_last?, get_last?-last_n, length-last_n, last_n, nat_key, refl, false,
}
use ibvap.Common.Dict.{lookup, insert, lookup-insert, lookup-erase}
use ibvap.Anpr.Windows.{lookup-keep_epoch}
use ibvap.Anpr.Defs.{
  Votes, VoteKey, vote_key, count, leader, most_common, window_with, vote_text, consensus_for,
  or_empty, keep_epoch, cast, evict_oldest, Votes, vote_key,
}

leader-count :
    (votes : List String) (best : String) (l : List String)
    → (count best votes ≤ count (leader votes best l) votes)
      × ((x : String) → contains x l ≡ true → count x votes ≤ count (leader votes best l) votes)
unfolding leader
leader-count votes best [] = (omega arith, λ x h. absurd cc)
leader-count votes best (y ∷ l) =
    let (a, b) = leader-count votes y l in
    let (c, d) = leader-count votes best l in
    elim (Bool-cases (ltb (count best votes) (count y votes))) [
      | inl p ↦
          let up : count best votes < count y votes = ground arith in
          rw p (
            omega arith,
            λ x h. elim (Bool-cases (same y x)) [
              | inl q ↦ let e = ap (λ z. count z votes) (same→eq y x q) in omega arith
              | inr q ↦ b x (ground arith)
            ],
          )
      | inr p ↦
          let low : count y votes ≤ count best votes = ground arith in
          rw p (
            c,
            λ x h. elim (Bool-cases (same y x)) [
              | inl q ↦ let e = ap (λ z. count z votes) (same→eq y x q) in omega arith
              | inr q ↦ d x (ground arith)
            ],
          )
    ]

contains_tail : (x b : String) (l : List String) → contains x l ≡ true → contains x (b ∷ l) ≡ true
contains_tail x b l h = ground arith

contains_second :
    (x b y : String) (l : List String) → contains x (b ∷ l) ≡ true → contains x (b ∷ y ∷ l) ≡ true
contains_second x b y l h = ground arith

leader-contains :
    (votes : List String) (best : String) (l : List String)
    → contains (leader votes best l) (best ∷ l) ≡ true
unfolding leader
leader-contains votes best [] = rw (same_self best) refl
leader-contains votes best (y ∷ l) = elim (Bool-cases (ltb (count best votes) (count y votes))) [
  | inl p ↦
      let e : leader votes best (y ∷ l) ≡ leader votes y l = rw p refl in
      ap (λ z. contains z (best ∷ y ∷ l)) e
      ∙ contains_tail (leader votes y l) best (y ∷ l) (leader-contains votes y l)
  | inr p ↦
      let e : leader votes best (y ∷ l) ≡ leader votes best l = rw p refl in
      ap (λ z. contains z (best ∷ y ∷ l)) e
      ∙ contains_second (leader votes best l) best y l (leader-contains votes best l)
]

-- What the pipeline reports of a window.
abbrev pick : List String → String → String
pick w val = if length w == 1 then val else most_common w val

not_counted : (x : String) (w : List String) → contains x w ≡ false → count x w ≡ 0
not_counted x [] h = refl
not_counted x (y ∷ w) h = ground (arith, not_counted x w)

pick-most :
    (w : List String) (val : String)
    → get_last? w ≡ some val
    → (contains (pick w val) w ≡ true) × ((x : String) → count x w ≤ count (pick w val) w)
unfolding most_common
pick-most [] val h = absurd cc
pick-most (y ∷ []) val h =
    let e : y ≡ val = cc in
    let self = same_self val in (rw e (rw self refl), λ x. rw e (ground arith))
pick-most (y ∷ z ∷ l) val h =
    let w = y ∷ z ∷ l in
    let (a, b) = leader-count w y (z ∷ l) in
    let two : (length w == 1) ≡ false = ground arith in
    let e : pick w val ≡ leader w y (z ∷ l) = rw two refl in
    let most = leader w y (z ∷ l) in
    (
      ap (λ x. contains x w) e ∙ leader-contains w y (z ∷ l),
      λ x.
          let le : count x w ≤ count most w = elim (Bool-cases (contains x (z ∷ l))) [
            | inl p ↦ b x p
            | inr p ↦ elim (Bool-cases (same y x)) [
              | inl q ↦ let c = ap (λ x'. count x' w) (same→eq y x q) in omega arith
              | inr q ↦
                  let none_of : contains x w ≡ false = rw (q, p) refl in
                  let n = not_counted x w none_of in omega arith
            ]
          ] in
          let f = ap (λ x'. count x' w) e in omega arith,
    )

-- Making room does not touch the window that a key has.
lookup-evict_oldest :
    (s : Votes) (key : VoteKey) (d : List (VoteKey × List String)) {w : List String}
    → lookup key s.history ≡ some w
    → lookup key (evict_oldest s key d).history ≡ some w
unfolding evict_oldest
lookup-evict_oldest s key [] h = h
lookup-evict_oldest s key ((oldest, v) ∷ d) h = elim (Bool-cases (same oldest key)) [
  | inl it ↦ rw (it, evict_oldest) (ground arith)
  | inr other ↦
      let apart : same key oldest ≡ false = ground arith in
      let e = lookup-erase key oldest s.history in ground arith
]

lookup-consensus_for :
    (upper : String → String) (s : Votes) (key : VoteKey) (text : String) (now : ℕ)
    → lookup key (consensus_for upper s key text now).0.history
      ≡ some (window_with s key (vote_text upper text))
unfolding consensus_for cast
lookup-consensus_for upper s key text now =
    let w = window_with s key (vote_text upper text) in
    let kept = keep_epoch key.epoch s.history in
    let there : lookup key (insert key w kept) ≡ some w =
      lookup-insert key key w kept ∙ rw (same_self key) refl in
    lookup-evict_oldest (cast s key (vote_text upper text) now) key (insert key w kept) there

window_with_lem :
    (s : Votes) (key : VoteKey) (val : String)
    → window_with s key val ≡ last_n 10 (or_empty (lookup key s.history) ++ val ∷ [])
window_with_lem s key val =
    let same_epoch : (key.epoch == key.epoch) ≡ true = ground arith in
    let found : lookup key (keep_epoch key.epoch s.history) ≡ lookup key s.history =
      lookup-keep_epoch key.epoch s.history key ∙ rw same_epoch refl in
    ap (λ o. last_n 10 (or_empty o ++ val ∷ [])) found

-- After a read the history has, under the vehicle and the epoch of the stream, the last ten of the reads
-- that it had there and the new one, which is the last; the answer stands among them, and no text stands
-- there more often.
pub consensus_for-most :
    (upper : String → String) (s : Votes) (key : VoteKey) (text : String) (now : ℕ)
    → let (after, answer) = consensus_for upper s key text now in
      let val = vote_text upper text in
      (w : List String) × (lookup key after.history ≡ some w)
      × (w ≡ last_n 10 (or_empty (lookup key s.history) ++ val ∷ []))
      × (get_last? w ≡ some val)
      × (length w ≤ 10)
      × (contains answer w ≡ true)
      × ((x : String) → count x w ≤ count answer w)
unfolding consensus_for
consensus_for-most upper s key text now =
    let val = vote_text upper text in
    let reads = or_empty (lookup key (keep_epoch key.epoch s.history)) in
    let last = get_last?-last_n 10 reads val (omega arith) in
    let (a, b) = pick-most (window_with s key val) val last in
    (
      window_with s key val,
      lookup-consensus_for upper s key text now,
      window_with_lem s key val,
      last,
      omega (arith, length-last_n 10 (reads ++ val ∷ [])),
      a,
      b,
    )
