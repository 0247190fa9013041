-- ===== src/Anpr/Tests.antt =====
-- The votes on concrete reads (core/anpr.py).
use ibvap.Common.{
  List, ◌∷◌, ◌++◌, last_n, ℕ, ◌≤◌, ◌≡◌, refl, true, some, [], String, string_eq?, ℕ_discrete, arith,
  length, contains, get_last?, string_key,
}
use ibvap.Common.Dict.{insert, lookup}
use ibvap.Anpr.Defs.{
  Votes, VoteKey, vote_key, vote_key_dec, count, vote_text, consensus_for, confirmed, or_empty,
}
use ibvap.Anpr.Majority.{consensus_for-most}
use ibvap.Anpr.Windows.{IsValid, consensus_for-IsValid}

-- The texts of the tests are in capitals.
abbrev upper : String → String
upper s = s

abbrev key : ℕ → VoteKey
key n = record { epoch = 1; vehicle = n }

abbrev empty : Votes
empty = record { max_history_tracks = 2; history = []; last_active = [] }

abbrev one_read : Votes
one_read = (consensus_for upper empty (key 1) "AB-12" 1000).0

second_confirms : (confirmed upper one_read (key 1) "AB12" 1500).1 ≡ some "AB12"
unfolding confirmed string_eq? ℕ_discrete insert vote_key_dec
second_confirms = refl

empty-IsValid : IsValid empty
empty-IsValid = record {
  windowed = record {
    history = tt;
    last_active = tt;
    agree = λ k. refl;
    windows = λ k w e. absurd (cc);
  };
  bounded = omega arith;
}

consensus_for-IsValid_example : IsValid one_read
consensus_for-IsValid_example =
    consensus_for-IsValid upper empty (key 1) "AB-12" 1000 (omega arith) empty-IsValid

consensus_for-most_example :
    let (after, answer) = consensus_for upper one_read (key 1) "AB12" 1500 in
    let val = vote_text upper "AB12" in
    (w : List String) × (lookup (key 1) after.history ≡ some w)
    × (w ≡ last_n 10 (or_empty (lookup (key 1) one_read.history) ++ val ∷ []))
    × (get_last? w ≡ some val)
    × (length w ≤ 10)
    × (contains answer w ≡ true)
    × ((x : String) → count x w ≤ count answer w)
consensus_for-most_example = consensus_for-most upper one_read (key 1) "AB12" 1500
