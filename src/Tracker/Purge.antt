-- ===== src/Tracker/Purge.antt =====
-- The purge and the visible tracks of `CentroidTracker.update` (core/tracker.py).
use ibvap.Common.{
  ℕ, ◌+◌, ◌≤◌, ◌<◌, ◌≡◌, refl, true, false, Option, none, some, List, [], ◌∷◌, String, arith,
  Option-cases, Bool-cases, inl, inr, All, length, contains, string_key, nat_key, same, same→eq,
}
use ibvap.Common.Float.{Float}
use ibvap.Tracker.Tracks.{Track}
use ibvap.Tracker.Detections.{Raw}
use ibvap.Tracker.Update.{
  Tracker, purge, drop_limit, held_entry, clean_visible, visible_tracks, update, active_boxes,
}

abbrev with_entry : Option String → List String → List String
with_entry none es = es
with_entry (some e) es = e ∷ es

module _ {F : Type 0} where
  -- The purge keeps a track as long as its age is within its limit (3 frames for a track that was hit
  -- once, `max_age` else), ends every other one, and loses none.
  pub purge_lem :
      (max_age : ℕ) (d : List (ℕ × Track F))
      → All (λ kt. kt.1.age ≤ drop_limit max_age kt.1) (purge max_age d).0
        × All (λ t. drop_limit max_age t < t.age) (purge max_age d).1
        × (length (purge max_age d).0 + length (purge max_age d).1 ≡ length d)
  unfolding purge
  purge_lem max_age [] = (tt, tt, refl)
  purge_lem max_age ((k, t) ∷ d) = let (a, b, c) = purge_lem max_age d in ground arith

  -- The entries that the tracks hold, in order.
  abbrev pub held_entries : List (Track F) → List String
  held_entries [] = []
  held_entries (t ∷ ts) = with_entry (held_entry t.identity) (held_entries ts)

-- No text stands twice.
abbrev pub IsOnce : List String → Type 0
IsOnce [] = Unit
IsOnce (x ∷ l) = (contains x l ≡ false) × IsOnce l

module _ {F : Type 0} ⦃f : Float F⦄ where
  clean_visible-IsOnce :
      (ts : List (Track F)) (seen : List String)
      → IsOnce (held_entries (clean_visible ts seen))
        × ((e : String)
            → contains e seen ≡ true
            → contains e (held_entries (clean_visible ts seen)) ≡ false)
  unfolding clean_visible
  clean_visible-IsOnce [] seen = (tt, λ e h. refl)
  clean_visible-IsOnce (t ∷ ts) seen = elim (Option-cases (held_entry t.identity)) [
    | inl p ↦
        let (once, new) = clean_visible-IsOnce ts seen in
        (rw (p, p) once, λ e h. rw (p, p) (new e h))
    | inr (x, p) ↦ elim (Bool-cases (contains x seen)) [
      | inl q ↦
          let (once, new) = clean_visible-IsOnce ts seen in
          (rw (p, q) once, λ e h. rw (p, q) (new e h))
      | inr q ↦
          let (once, new) = clean_visible-IsOnce ts (x ∷ seen) in
          let here = new x (ground arith) in
          (
            rw (p, q, p) (here, once),
            λ e h.
                let there = new e (ground arith) in
                let other : same x e ≡ false = elim (Bool-cases (same x e)) [
                  | inl r ↦ absurd (let z = same→eq x e r in grind arith)
                  | inr r ↦ r
                ] in
                rw (p, q, p) (ground arith),
          )
    ]
  ]

  -- No watchlist entry is held by two of the tracks that `update` returns as visible.
  pub update-visible :
      (s : Tracker F) (detections : List (Raw F)) (timestamp : F)
      → IsOnce (held_entries (update s detections timestamp).1.visible)
  unfolding update
  update-visible s detections timestamp =
      let tracks = (update s detections timestamp).0.tracks in
      (clean_visible-IsOnce (visible_tracks (active_boxes tracks) tracks) []).0
