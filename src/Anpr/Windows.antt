-- ===== src/Anpr/Windows.antt =====
-- The bounds of the votes (core/anpr.py): the number of tracks and the length of their windows, and the
-- agreement of the two dictionaries.
use ibvap.Common.{
  ℕ, suc, ◌≤◌, ◌≡◌, refl, ap, false, not, ◌&&◌, none, some, List, [], ◌∷◌, ◌++◌, String, arith,
  if◌then◌else◌, length, same, same_self, same→eq, Bool-cases, inl, inr, ◌⊎◌, is_some, nat_key,
  ◌==◌, ltb, length-last_n, length-append,
}
use ibvap.Common.Dict.{
  lookup, insert, erase, lookup-insert, lookup-erase, insert-IsDict, erase-IsDict, IsDict,
  length-insert, length-erase-le,
}
use ibvap.Anpr.Defs.{
  Votes, VoteKey, vote_key, keep_epoch, drop_others, evict_oldest, cast, window_with, vote_text,
  consensus_for, or_empty,
}

module _ {A : Type 0} where
  pub lookup-keep_epoch :
      (epoch : ℕ) (d : List (VoteKey × A)) (k : VoteKey)
      → lookup k (keep_epoch epoch d) ≡ (if k.epoch == epoch then lookup k d else none)
  unfolding keep_epoch
  lookup-keep_epoch epoch [] k = ground arith
  lookup-keep_epoch epoch ((j, v) ∷ d) k =
      let r = lookup-keep_epoch epoch d k in
      elim (Bool-cases (same k j)) [
        | inl p ↦ let e = ap (λ (x : VoteKey). x.epoch) (same→eq k j p) in grind arith
        | inr p ↦ ground arith
      ]

  keep_epoch-IsDict : (epoch : ℕ) (d : List (VoteKey × A)) → IsDict d → IsDict (keep_epoch epoch d)
  unfolding keep_epoch
  keep_epoch-IsDict epoch [] h = tt
  keep_epoch-IsDict epoch ((j, v) ∷ d) h =
      let r = keep_epoch-IsDict epoch d h.1 in let l = lookup-keep_epoch epoch d j in ground arith

  length-keep_epoch-le :
      (epoch : ℕ) (d : List (VoteKey × A)) → length (keep_epoch epoch d) ≤ length d
  unfolding keep_epoch
  length-keep_epoch-le epoch [] = omega arith
  length-keep_epoch-le epoch ((j, v) ∷ d) = ground (arith, length-keep_epoch-le epoch d)

lookup-drop_others :
    (epoch : ℕ) (h : List (VoteKey × List String)) (d : List (VoteKey × ℕ)) (k : VoteKey)
    → lookup k (drop_others epoch h d)
      ≡ (if is_some (lookup k h) && not (k.epoch == epoch) then none else lookup k d)
unfolding drop_others
lookup-drop_others epoch [] d k = refl
lookup-drop_others epoch ((j, w) ∷ h) d k =
    let r = lookup-drop_others epoch h d k in
    let e = lookup-erase k j (drop_others epoch h d) in
    elim (Bool-cases (same k j)) [
      | inl p ↦ let q = ap (λ (x : VoteKey). x.epoch) (same→eq k j p) in grind arith
      | inr p ↦ ground arith
    ]

drop_others-IsDict :
    (epoch : ℕ) (h : List (VoteKey × List String)) (d : List (VoteKey × ℕ))
    → IsDict d
    → IsDict (drop_others epoch h d)
unfolding drop_others
drop_others-IsDict epoch [] d i = i
drop_others-IsDict epoch ((j, w) ∷ h) d i =
    let r = drop_others-IsDict epoch h d i in
    let e = erase-IsDict j (drop_others epoch h d) r in ground arith

-- The dictionaries have the same keys, each once; the windows are neither empty nor longer than ten.
pub record IsWindowed (s : Votes) : Type 0 where
  pub history : IsDict s.history
  pub last_active : IsDict s.last_active
  pub agree : (k : VoteKey) → is_some (lookup k s.history) ≡ is_some (lookup k s.last_active)
  pub windows :
      (k : VoteKey) (w : List String)
      → lookup k s.history ≡ some w
      → (1 ≤ length w) × (length w ≤ 10)

pub record IsValid (s : Votes) : Type 0 where
  pub windowed : IsWindowed s
  pub bounded : length s.history ≤ s.max_history_tracks

length-window :
    (s : Votes) (key : VoteKey) (val : String)
    → (1 ≤ length (window_with s key val)) × (length (window_with s key val) ≤ 10)
length-window s key val =
    let reads = or_empty (lookup key (keep_epoch key.epoch s.history)) in
    let a = length-last_n 10 (reads ++ val ∷ []) in
    let b = length-append reads (val ∷ []) in (omega arith, omega arith)

cast-IsWindowed :
    (s : Votes) (key : VoteKey) (val : String) (now : ℕ)
    → IsWindowed s
    → IsWindowed (cast s key val now)
unfolding cast
cast-IsWindowed s key val now h = record {
  history =
      insert-IsDict key (window_with s key val) (keep_epoch key.epoch s.history)
        (keep_epoch-IsDict key.epoch s.history h.history);
  last_active =
      insert-IsDict key now (drop_others key.epoch s.history s.last_active)
        (drop_others-IsDict key.epoch s.history s.last_active h.last_active);
  agree = λ k.
      let a = lookup-insert k key (window_with s key val) (keep_epoch key.epoch s.history) in
      let b = lookup-insert k key now (drop_others key.epoch s.history s.last_active) in
      let c = lookup-keep_epoch key.epoch s.history k in
      let d = lookup-drop_others key.epoch s.history s.last_active k in
      let e = h.agree k in ground arith;
  windows = λ k w p.
      let a = lookup-insert k key (window_with s key val) (keep_epoch key.epoch s.history) in
      let c = lookup-keep_epoch key.epoch s.history k in
      let old = h.windows k w in
      let long = length-window s key val in
      elim (Bool-cases (same k key)) [
        | inl q ↦
            let e : some (window_with s key val) ≡ some w = ground arith in
            let g : window_with s key val ≡ w = cc in
            let n = ap (λ (x : List String). length x) g in ground arith
        | inr q ↦ old (ground arith)
      ];
}

erase-IsWindowed :
    (s : Votes) (key : VoteKey)
    → IsWindowed s
    → IsWindowed (record s { history = erase key s.history; last_active = erase key s.last_active })
erase-IsWindowed s key h = record {
  history = erase-IsDict key s.history h.history;
  last_active = erase-IsDict key s.last_active h.last_active;
  agree = λ k.
      let a = lookup-erase k key s.history in
      let b = lookup-erase k key s.last_active in let c = h.agree k in ground arith;
  windows = λ k w p. let a = lookup-erase k key s.history in h.windows k w (ground arith);
}

-- The dictionary holds at most `n` keys, or one more where the first is not the given one.
abbrev IsNearly : ℕ → VoteKey → List (VoteKey × List String) → Type 0
IsNearly n key [] = Unit
IsNearly n key ((k, w) ∷ rest) = (suc (length rest) ≤ n) ⊎ (same k key ≡ false) × (length rest ≤ n)

insert-IsNearly :
    (n : ℕ) (key : VoteKey) (w : List String) (d : List (VoteKey × List String))
    → 1 ≤ n
    → length d ≤ n
    → IsNearly n key (insert key w d)
unfolding insert
insert-IsNearly n key w [] one h = inl (omega arith)
insert-IsNearly n key w ((j, v) ∷ d) one h = elim (Bool-cases (same key j)) [
  | inl p ↦ rw p (inl (omega arith))
  | inr p ↦
      let len = length-insert key w d in
      let other : same j key ≡ false = elim (Bool-cases (same j key)) [
        | inl q ↦ absurd (let e = same→eq j key q in let s = same_self key in grind arith)
        | inr q ↦ q
      ] in
      rw p (inr (other, ground arith))
]

evict_oldest-IsValid :
    (s : Votes) (key : VoteKey) (d : List (VoteKey × List String))
    → s.history ≡ d
    → IsWindowed s
    → IsNearly s.max_history_tracks key d
    → IsValid (evict_oldest s key d)
unfolding evict_oldest
evict_oldest-IsValid s key [] e h near =
    let n = ap (λ (l : List (VoteKey × List String)). length l) e in
    record { windowed = h; bounded = omega arith }
evict_oldest-IsValid s key ((k, w) ∷ rest) e h near =
    let n = ap (λ (l : List (VoteKey × List String)). length l) e in
    let cut = ap (λ (l : List (VoteKey × List String)). length (erase k l)) e in
    let fewer = length-erase-le k rest in
    let self = same_self k in
    elim (Bool-cases (ltb s.max_history_tracks (length s.history) && not (same k key))) [
      | inl p ↦
          let head : length (erase k ((k, w) ∷ rest)) ≡ length (erase k rest) =
            unfold erase in rw self refl in
          let short : length (erase k s.history) ≤ length rest = omega arith in
          rw p (record {
            windowed = erase-IsWindowed s k h;
            bounded = elim near [ inl a ↦ omega arith | inr b ↦ omega (arith, b.1) ];
          })
      | inr p ↦ rw p (record {
        windowed = h;
        bounded = elim near [ inl a ↦ omega arith | inr b ↦ let c = b.0 in ground arith ];
      })
    ]

-- With room for one track at least, a read keeps the votes valid: as many tracks as there is room for
-- at most, each with one to ten reads, and an activity time for these tracks and no others.
pub consensus_for-IsValid :
    (upper : String → String) (s : Votes) (key : VoteKey) (text : String) (now : ℕ)
    → 1 ≤ s.max_history_tracks
    → IsValid s
    → IsValid (consensus_for upper s key text now).0
unfolding consensus_for
consensus_for-IsValid upper s key text now one h =
    let val = vote_text upper text in
    let voted = cast s key val now in
    let kept = length-keep_epoch-le key.epoch s.history in
    let bound = h.bounded in
    let near : IsNearly s.max_history_tracks key voted.history =
      unfold cast in
      insert-IsNearly s.max_history_tracks key (window_with s key val)
        (keep_epoch key.epoch s.history) one (omega arith) in
    evict_oldest-IsValid voted key voted.history refl (cast-IsWindowed s key val now h.windowed)
      near
