-- ===== src/Tracker/Exclusive.antt =====
-- The exclusive watchlist identities of `CentroidTracker.update` (core/tracker.py): after the loop,
-- every entry that some track held is held by one track.
use ibvap.Common.{
  ℕ, true, some, List, [], ◌∷◌, String, ◌≡◌, refl, arith, same, nat_key, string_key, is_some,
  Option-cases, Bool-cases, inl, inr,
}
use ibvap.Common.Dict.{lookup, IsDict}
use ibvap.Common.Float.{Float}
use ibvap.Tracker.Tracks.{Track}
use ibvap.Tracker.Update.{Passed, held_entry, pass, pass_all, exclusive}
use ibvap.Tracker.Passing.{
  Holds, IsRecorded, IsHeld, IsNew, pass-IsRecorded, pass-IsHeld, pass-keeps, pass-fresh,
  pass-records,
}

module _ {F : Type 0} ⦃f : Float F⦄ where
  pass_all-IsRecorded :
      (s : Passed F) (l : List (ℕ × Track F)) → IsRecorded s → IsRecorded (pass_all s l)
  unfolding pass_all
  pass_all-IsRecorded s [] h = h
  pass_all-IsRecorded s ((tid, trk) ∷ rest) h =
      pass_all-IsRecorded (pass s tid trk (held_entry trk.identity)) rest
        (pass-IsRecorded s tid trk (held_entry trk.identity) refl h)

  pass_all-keeps :
      (s : Passed F) (l : List (ℕ × Track F)) (e : String)
      → is_some (lookup e s.seen) ≡ true
      → is_some (lookup e (pass_all s l).seen) ≡ true
  unfolding pass_all
  pass_all-keeps s [] e h = h
  pass_all-keeps s ((tid, trk) ∷ rest) e h =
      pass_all-keeps (pass s tid trk (held_entry trk.identity)) rest e
        (pass-keeps s tid trk (held_entry trk.identity) e h)

  pass_all-records :
      (s : Passed F) (l : List (ℕ × Track F)) (k : ℕ) (e : String)
      → Holds l k e
      → is_some (lookup e (pass_all s l).seen) ≡ true
  unfolding pass_all
  pass_all-records s [] k e h = absurd cc
  pass_all-records s ((tid, trk) ∷ rest) k e h =
      let next = pass s tid trk (held_entry trk.identity) in
      elim (Bool-cases (same k tid)) [
        | inl p ↦
            let held : held_entry trk.identity ≡ some e = ground arith in
            pass_all-keeps next rest e (rw held (pass-records s tid trk e))
        | inr p ↦ pass_all-records next rest k e (ground arith)
      ]

  pass_all-IsHeld :
      (s : Passed F) (l : List (ℕ × Track F))
      → IsDict l
      → IsNew s l
      → IsHeld s
      → IsHeld (pass_all s l)
  unfolding pass_all
  pass_all-IsHeld s [] d new h = h
  pass_all-IsHeld s ((tid, trk) ∷ rest) d new h =
      pass_all-IsHeld (pass s tid trk (held_entry trk.identity)) rest d.1
        (λ k t e.
          pass-fresh s tid trk (held_entry trk.identity) k (ground arith) (new k t (ground arith)))
        (pass-IsHeld s tid trk (held_entry trk.identity) refl (new tid trk (ground arith)) h)

  -- After the loop over the tracks, two keys under which the same watchlist entry is held are one.
  pub exclusive_once :
      (tracks : List (ℕ × Track F)) (j k : ℕ) (eid : String)
      → Holds (exclusive tracks) j eid
      → Holds (exclusive tracks) k eid
      → j ≡ k
  unfolding exclusive
  exclusive_once tracks j k eid hj hk =
      let recorded = pass_all-IsRecorded (record { done = []; seen = [] }) tracks in
      let a : lookup eid (pass_all (record { done = []; seen = [] }) tracks).seen ≡ some j =
        recorded (λ i e p. absurd cc) j eid hj in
      let b : lookup eid (pass_all (record { done = []; seen = [] }) tracks).seen ≡ some k =
        recorded (λ i e p. absurd cc) k eid hk in
      cc

  -- If no two of the tracks have the same key and one of them holds a watchlist entry, then after the
  -- loop some track holds it, and no other.
  pub exclusive_lem :
      (tracks : List (ℕ × Track F)) (k : ℕ) (eid : String)
      → IsDict tracks
      → Holds tracks k eid
      → (w : ℕ) × Holds (exclusive tracks) w eid
        × ((j : ℕ) → Holds (exclusive tracks) j eid → j ≡ w)
  unfolding exclusive
  exclusive_lem tracks k eid d h =
      let start : Passed F = record { done = []; seen = [] } in
      let seen = pass_all-records start tracks k eid h in
      elim (Option-cases (lookup eid (pass_all start tracks).seen)) [
        | inl p ↦ absurd (ground arith)
        | inr (w, p) ↦
            let held =
              pass_all-IsHeld start tracks d (λ i t e. refl) (λ i e q. absurd cc) w eid p in
            (w, held, λ j hj. exclusive_once tracks j w eid hj held)
      ]
