-- ===== src/Tracker/Passing.antt =====
-- One turn of the loop that leaves each watchlist entry with one track (core/tracker.py): what it keeps
-- of the record of the entries and of their holders.
use ibvap.Common.{
  ℕ, true, false, Option, none, some, List, String, ◌≡◌, refl, ap, arith, same, nat_key, string_key,
  same→eq, is_some, Bool-cases, inl, inr,
}
use ibvap.Common.Dict.{lookup, lookup-insert}
use ibvap.Common.Float.{Float}
use ibvap.Tracker.Tracks.{Track}
use ibvap.Tracker.Update.{Passed, held_entry, meet, pass_entry, pass}

module _ {F : Type 0} where
  abbrev pub entry_of : Option (Track F) → Option String
  entry_of none = none
  entry_of (some t) = held_entry t.identity

  -- The track at the key holds the watchlist entry.
  abbrev pub Holds : List (ℕ × Track F) → ℕ → String → Type 0
  Holds d k eid = entry_of (lookup k d) ≡ some eid

  -- Whoever holds an entry is the one on record for it.
  abbrev pub IsRecorded : Passed F → Type 0
  IsRecorded s = (k : ℕ) (eid : String) → Holds s.done k eid → lookup eid s.seen ≡ some k

  -- Whoever is on record for an entry holds it.
  abbrev pub IsHeld : Passed F → Type 0
  IsHeld s = (k : ℕ) (eid : String) → lookup eid s.seen ≡ some k → Holds s.done k eid

  -- The keys that come are not among those that the loop has passed.
  abbrev pub IsNew : Passed F → List (ℕ × Track F) → Type 0
  IsNew s rest = (k : ℕ) (t : Track F) → lookup k rest ≡ some t → lookup k s.done ≡ none

module _ {F : Type 0} ⦃f : Float F⦄ where
  meet-IsRecorded :
      (s : Passed F) (tid : ℕ) (trk : Track F) (eid : String) (ptid : ℕ) (o : Option (Track F))
      → lookup ptid s.done ≡ o
      → lookup eid s.seen ≡ some ptid
      → held_entry trk.identity ≡ some eid
      → IsRecorded s
      → IsRecorded (meet s tid trk eid ptid o)
  unfolding meet
  meet-IsRecorded s tid trk eid ptid none e es he h k eid' hk =
      grind (arith, lookup-insert, h k eid')
  meet-IsRecorded s tid trk eid ptid (some prev) e es he h k eid' hk =
      grind (arith, lookup-insert, h k eid')

  pass_entry-IsRecorded :
      (s : Passed F) (tid : ℕ) (trk : Track F) (eid : String) (o : Option ℕ)
      → lookup eid s.seen ≡ o
      → held_entry trk.identity ≡ some eid
      → IsRecorded s
      → IsRecorded (pass_entry s tid trk eid o)
  unfolding pass_entry
  pass_entry-IsRecorded s tid trk eid none e he h k eid' hk = grind (arith, lookup-insert, h k eid')
  pass_entry-IsRecorded s tid trk eid (some ptid) e he h k eid' hk =
      meet-IsRecorded s tid trk eid ptid (lookup ptid s.done) refl e he h k eid' hk

  pub pass-IsRecorded :
      (s : Passed F) (tid : ℕ) (trk : Track F) (o : Option String)
      → held_entry trk.identity ≡ o
      → IsRecorded s
      → IsRecorded (pass s tid trk o)
  unfolding pass
  pass-IsRecorded s tid trk none e h k eid' hk = grind (arith, lookup-insert, h k eid')
  pass-IsRecorded s tid trk (some eid) e h k eid' hk =
      pass_entry-IsRecorded s tid trk eid (lookup eid s.seen) refl e h k eid' hk

  meet-IsHeld :
      (s : Passed F) (tid : ℕ) (trk : Track F) (eid : String) (ptid : ℕ) (o : Option (Track F))
      → lookup ptid s.done ≡ o
      → lookup eid s.seen ≡ some ptid
      → lookup tid s.done ≡ none
      → held_entry trk.identity ≡ some eid
      → IsHeld s
      → IsHeld (meet s tid trk eid ptid o)
  unfolding meet
  meet-IsHeld s tid trk eid ptid none e es new he h k eid' ek =
      grind (arith, lookup-insert, h k eid')
  meet-IsHeld s tid trk eid ptid (some prev) e es new he h k eid' ek =
      grind (arith, lookup-insert, h k eid', h ptid eid)

  pass_entry-IsHeld :
      (s : Passed F) (tid : ℕ) (trk : Track F) (eid : String) (o : Option ℕ)
      → lookup eid s.seen ≡ o
      → lookup tid s.done ≡ none
      → held_entry trk.identity ≡ some eid
      → IsHeld s
      → IsHeld (pass_entry s tid trk eid o)
  unfolding pass_entry
  pass_entry-IsHeld s tid trk eid none e new he h k eid' ek = grind (arith, lookup-insert, h k eid')
  pass_entry-IsHeld s tid trk eid (some ptid) e new he h k eid' ek =
      meet-IsHeld s tid trk eid ptid (lookup ptid s.done) refl e new he h k eid' ek

  pub pass-IsHeld :
      (s : Passed F) (tid : ℕ) (trk : Track F) (o : Option String)
      → held_entry trk.identity ≡ o
      → lookup tid s.done ≡ none
      → IsHeld s
      → IsHeld (pass s tid trk o)
  unfolding pass
  pass-IsHeld s tid trk none e new h k eid' ek = grind (arith, lookup-insert, h k eid')
  pass-IsHeld s tid trk (some eid) e new h k eid' ek =
      pass_entry-IsHeld s tid trk eid (lookup eid s.seen) refl new e h k eid' ek

  -- What a step puts on record, and that it touches no key but that of its track and those passed.
  meet-seen :
      (s : Passed F) (tid : ℕ) (trk : Track F) (eid : String) (ptid : ℕ) (o : Option (Track F))
      → lookup ptid s.done ≡ o
      → lookup eid s.seen ≡ some ptid
      → (((e : String)
            → same e eid ≡ false
            → lookup e (meet s tid trk eid ptid o).seen ≡ lookup e s.seen)
          × is_some (lookup eid (meet s tid trk eid ptid o).seen) ≡ true)
        × ((k : ℕ)
            → same k tid ≡ false
            → lookup k s.done ≡ none
            → lookup k (meet s tid trk eid ptid o).done ≡ none)
  unfolding meet
  meet-seen s tid trk eid ptid none p q = (
    (λ e ne. grind (arith, lookup-insert), grind (arith, lookup-insert)),
    λ k ne new. grind (arith, lookup-insert),
  )
  meet-seen s tid trk eid ptid (some prev) p q = (
    (λ e ne. grind (arith, lookup-insert), grind (arith, lookup-insert)),
    λ k ne new. grind (arith, lookup-insert),
  )

  pass_entry-seen :
      (s : Passed F) (tid : ℕ) (trk : Track F) (eid : String) (o : Option ℕ)
      → lookup eid s.seen ≡ o
      → (((e : String)
            → same e eid ≡ false
            → lookup e (pass_entry s tid trk eid o).seen ≡ lookup e s.seen)
          × is_some (lookup eid (pass_entry s tid trk eid o).seen) ≡ true)
        × ((k : ℕ)
            → same k tid ≡ false
            → lookup k s.done ≡ none
            → lookup k (pass_entry s tid trk eid o).done ≡ none)
  unfolding pass_entry
  pass_entry-seen s tid trk eid none e = (
    (λ e ne. grind (arith, lookup-insert), grind (arith, lookup-insert)),
    λ k ne new. grind (arith, lookup-insert),
  )
  pass_entry-seen s tid trk eid (some ptid) e =
      meet-seen s tid trk eid ptid (lookup ptid s.done) refl e

  pub pass-keeps :
      (s : Passed F) (tid : ℕ) (trk : Track F) (o : Option String) (e : String)
      → is_some (lookup e s.seen) ≡ true
      → is_some (lookup e (pass s tid trk o).seen) ≡ true
  unfolding pass
  pass-keeps s tid trk none e h = h
  pass-keeps s tid trk (some eid) e h =
      let ((old, new), fresh) = pass_entry-seen s tid trk eid (lookup eid s.seen) refl in
      elim (Bool-cases (same e eid)) [
        | inl p ↦ cc (
            ap (λ x. is_some (lookup x (pass_entry s tid trk eid (lookup eid s.seen)).seen))
              (same→eq e eid p))
        | inr p ↦ cc (old e p)
      ]

  pub pass-fresh :
      (s : Passed F) (tid : ℕ) (trk : Track F) (o : Option String) (k : ℕ)
      → same k tid ≡ false
      → lookup k s.done ≡ none
      → lookup k (pass s tid trk o).done ≡ none
  unfolding pass
  pass-fresh s tid trk none k ne h = grind (arith, lookup-insert)
  pass-fresh s tid trk (some eid) k ne h =
      (pass_entry-seen s tid trk eid (lookup eid s.seen) refl).1 k ne h

  pub pass-records :
      (s : Passed F) (tid : ℕ) (trk : Track F) (eid : String)
      → is_some (lookup eid (pass s tid trk (some eid)).seen) ≡ true
  unfolding pass
  pass-records s tid trk eid = (pass_entry-seen s tid trk eid (lookup eid s.seen) refl).0.1
