-- ===== src/Tracker/Ids.antt =====
-- The ids of the tracks under `CentroidTracker.update` (core/tracker.py): every track is stored under
-- its own id, below the next id, through every stage.
use ibvap.Common.{
  ℕ, ◌+◌, ◌≤◌, ◌<◌, ◌||◌, Option, none, some, List, [], ◌∷◌, ◌++◌, String, ◌≡◌, refl, arith,
  contains, nat_key, string_key, All, ltb, length, All-snoc, Option-cases, Bool-cases, inl, inr,
}
use ibvap.Common.Dict.{lookup, insert}
use ibvap.Common.Float.{Float, num}
use ibvap.Tracker.Tracks.{Track}
use ibvap.Tracker.Detections.{Raw, Det, sort_by, sanitize, dedupe}
use ibvap.Tracker.Matching.{
  Candidate, Claims, matched_by, claim, claim_all, match_stage, iou_candidates, near_candidates,
  higher_score, lower_score, unmatched,
}
use ibvap.Tracker.Stages.{
  Survivors, Scan, duplicate, overlapping, scan, taken_over, settle, overlap_stage, Spawned,
  suppressed, spawn, spawn_stage, new_track,
}
use ibvap.Tracker.Update.{
  Tracker, grow_older, purge, Passed, held_entry, cleared, wins, meet, pass_entry, pass, pass_all,
  exclusive, associate, update,
}
use ibvap.Tracker.Numbered.{
  IsNumbered, grow-IsNumbered, modify-IsNumbered, purge-IsNumbered, insert-IsNumbered,
}

module _ {F : Type 0} ⦃f : Float F⦄ where
  meet-IsNumbered :
      (n : ℕ) (s : Passed F) (tid : ℕ) (trk : Track F) (eid : String) (ptid : ℕ)
      (o : Option (Track F))
      → lookup ptid s.done ≡ o
      → trk.track_id ≡ tid
      → tid < n
      → IsNumbered n s.done
      → IsNumbered n (meet s tid trk eid ptid o).done
  unfolding meet
  meet-IsNumbered n s tid trk eid ptid none p e b h = insert-IsNumbered n tid trk s.done e b h
  meet-IsNumbered n s tid trk eid ptid (some prev) p e b h =
      let (pe, pb) = h.ids ptid prev.track_id (ground (arith, p)) in
      let swapped =
        insert-IsNumbered n tid trk (insert ptid (cleared prev) s.done) e b
          (insert-IsNumbered n ptid (cleared prev) s.done pe pb h) in
      let lost = insert-IsNumbered n tid (cleared trk) s.done e b h in
      elim (Bool-cases (wins prev trk)) [ inl w ↦ rw w swapped | inr w ↦ rw w lost ]

  pass-IsNumbered :
      (n : ℕ) (s : Passed F) (tid : ℕ) (trk : Track F) (o : Option String)
      → trk.track_id ≡ tid
      → tid < n
      → IsNumbered n s.done
      → IsNumbered n (pass s tid trk o).done
  unfolding pass pass_entry
  pass-IsNumbered n s tid trk none e b h = insert-IsNumbered n tid trk s.done e b h
  pass-IsNumbered n s tid trk (some eid) e b h = elim (Option-cases (lookup eid s.seen)) [
    | inl p ↦ rw p (insert-IsNumbered n tid trk s.done e b h)
    | inr (ptid, p) ↦ rw p (meet-IsNumbered n s tid trk eid ptid (lookup ptid s.done) refl e b h)
  ]

  pass_all-IsNumbered :
      (n : ℕ) (s : Passed F) (l : List (ℕ × Track F))
      → IsNumbered n l
      → IsNumbered n s.done
      → IsNumbered n (pass_all s l).done
  unfolding pass_all
  pass_all-IsNumbered n s [] hl h = h
  pass_all-IsNumbered n s ((tid, trk) ∷ rest) hl h =
      let (e, b) = hl.ids tid trk.track_id (ground arith) in
      pass_all-IsNumbered n (pass s tid trk (held_entry trk.identity)) rest
        (record {
          dict = hl.dict.1;
          ids = λ k i p. let fresh = hl.dict.0 in hl.ids k i (ground arith);
        })
        (pass-IsNumbered n s tid trk (held_entry trk.identity) e b h)

  claim-IsNumbered :
      (n : ℕ) (smooth timestamp : F) (s : Claims F) (c : Candidate F)
      → IsNumbered n s.tracks
      → IsNumbered n (claim smooth timestamp s c).tracks
  unfolding claim
  claim-IsNumbered n smooth timestamp s c h =
      let m =
        modify-IsNumbered n c.tid (matched_by smooth timestamp c.det) s.tracks
          (λ t. unfold matched_by in refl) h in
      elim (Bool-cases (contains c.det_idx s.dets || contains c.tid s.tids)) [
        | inl p ↦ rw p h
        | inr p ↦ rw p m
      ]

  claim_all-IsNumbered :
      (n : ℕ) (smooth timestamp : F) (s : Claims F) (l : List (Candidate F))
      → IsNumbered n s.tracks
      → IsNumbered n (claim_all smooth timestamp s l).tracks
  unfolding claim_all
  claim_all-IsNumbered n smooth timestamp s [] h = h
  claim_all-IsNumbered n smooth timestamp s (c ∷ l) h =
      claim_all-IsNumbered n smooth timestamp (claim smooth timestamp s c) l
        (claim-IsNumbered n smooth timestamp s c h)

  match_stage-IsNumbered :
      (n : ℕ) (threshold smooth timestamp : F) (dets : List (Det F)) (items : List (ℕ × Track F))
      → IsNumbered n items
      → IsNumbered n (match_stage threshold smooth timestamp dets items).tracks
  unfolding match_stage
  match_stage-IsNumbered n threshold smooth timestamp dets items h =
      let start : Claims F = record { tracks = items; dets = []; tids = [] } in
      let sorted = sort_by higher_score (iou_candidates threshold 0 dets items) in
      let first = claim_all smooth timestamp start sorted in
      let near = sort_by lower_score (near_candidates first.dets first.tids 0 dets items) in
      let one = claim_all-IsNumbered n smooth timestamp start sorted h in
      let two = claim_all-IsNumbered n smooth timestamp first near one in
      elim (Bool-cases (ltb (length first.tids) (length items))) [
        | inl p ↦ rw p two
        | inr p ↦ rw p one
      ]

  taken_over-id :
      (smooth timestamp : F) (det : Det F) (t : Track F)
      → (taken_over smooth timestamp det t).track_id ≡ t.track_id
  unfolding taken_over
  taken_over-id smooth timestamp det t = ground arith

  settle-IsNumbered :
      (n : ℕ) (smooth timestamp : F) (s : Survivors F) (det : Det F) (found : Scan)
      → IsNumbered n s.tracks
      → IsNumbered n (settle smooth timestamp s det found).tracks
  settle-IsNumbered n smooth timestamp s det duplicate h = h
  settle-IsNumbered n smooth timestamp s det (overlapping none) h = h
  settle-IsNumbered n smooth timestamp s det (overlapping (some tid)) h =
      modify-IsNumbered n tid (taken_over smooth timestamp det) s.tracks
        (taken_over-id smooth timestamp det) h

  overlap_stage-IsNumbered :
      (n : ℕ) (smooth timestamp : F) (s : Survivors F) (dets : List (Det F))
      → IsNumbered n s.tracks
      → IsNumbered n (overlap_stage smooth timestamp s dets).tracks
  unfolding overlap_stage
  overlap_stage-IsNumbered n smooth timestamp s [] h = h
  overlap_stage-IsNumbered n smooth timestamp s (det ∷ dets) h =
      let found = scan det s.tids (num 60 100) none s.tracks in
      overlap_stage-IsNumbered n smooth timestamp (settle smooth timestamp s det found) dets
        (settle-IsNumbered n smooth timestamp s det found h)

  -- What a run of stage 3 that began with the next id `first` has made.
  record IsSpawned (first : ℕ) (s : Spawned F) : Type 0 where
    numbered : IsNumbered s.next_id s.tracks
    grown : first ≤ s.next_id
    fresh : All (λ t. (first ≤ t.track_id) × (t.track_id < s.next_id)) s.entries

  spawn-IsSpawned :
      (first : ℕ) (timestamp : F) (s : Spawned F) (det : Det F)
      → IsSpawned first s
      → IsSpawned first (spawn timestamp s det)
  unfolding spawn new_track
  spawn-IsSpawned first timestamp s det h =
      let t = new_track timestamp s.next_id det in
      let grown = h.grown in
      let wider : IsNumbered (s.next_id + 1) s.tracks = record {
        dict = h.numbered.dict;
        ids = λ k i e. let (p, b) = h.numbered.ids k i e in (p, omega arith);
      } in
      let added : IsSpawned first (record {
        tracks = insert s.next_id t s.tracks;
        next_id = s.next_id + 1;
        entries = s.entries ++ t ∷ [];
      }) =
        record {
          numbered =
              insert-IsNumbered (s.next_id + 1) s.next_id t s.tracks refl (omega arith) wider;
          grown = omega arith;
          fresh =
              All-snoc (λ t. (first ≤ t.track_id) × (t.track_id < s.next_id))
                (λ t. (first ≤ t.track_id) × (t.track_id < s.next_id + 1)) s.entries t
                (λ x (a, b). (a, omega arith)) h.fresh (grown, omega arith);
        } in
      elim (Bool-cases (suppressed s det)) [ inl p ↦ rw p h | inr p ↦ rw p added ]

  spawn_stage-IsSpawned :
      (first : ℕ) (timestamp : F) (s : Spawned F) (dets : List (Det F))
      → IsSpawned first s
      → IsSpawned first (spawn_stage timestamp s dets)
  unfolding spawn_stage
  spawn_stage-IsSpawned first timestamp s [] h = h
  spawn_stage-IsSpawned first timestamp s (det ∷ dets) h =
      spawn_stage-IsSpawned first timestamp (spawn timestamp s det) dets
        (spawn-IsSpawned first timestamp s det h)

  associate-IsSpawned :
      (s : Tracker F) (detections : List (Raw F)) (timestamp : F)
      → IsNumbered s.next_id s.tracks
      → IsSpawned s.next_id (associate s detections timestamp)
  unfolding associate
  associate-IsSpawned s detections timestamp h =
      let dets = dedupe (sanitize detections) in
      let claims = match_stage s.iou_threshold s.smoothing timestamp dets (grow_older s.tracks) in
      let start : Survivors F = record { tracks = claims.tracks; tids = claims.tids; dets = [] } in
      let rest = unmatched claims.dets 0 dets in
      let left = overlap_stage s.smoothing timestamp start rest in
      let begun : IsSpawned s.next_id
          (record { tracks = left.tracks; next_id = s.next_id; entries = [] }) =
        record {
          numbered = overlap_stage-IsNumbered s.next_id s.smoothing timestamp start rest (
              match_stage-IsNumbered s.next_id s.iou_threshold s.smoothing timestamp dets
                (grow_older s.tracks) (grow-IsNumbered s.next_id s.tracks h));
          grown = omega arith;
          fresh = tt;
        } in
      spawn_stage-IsSpawned s.next_id timestamp
        (record { tracks = left.tracks; next_id = s.next_id; entries = [] }) left.dets begun

  -- If every track stands under its own id, below the next id, and no id stands twice, then the same
  -- holds after a frame, whatever its detections and whatever the numbers; the next id has not fallen,
  -- and every entry of the frame has an id that no earlier track had.
  pub update-IsNumbered :
      (s : Tracker F) (detections : List (Raw F)) (timestamp : F)
      → IsNumbered s.next_id s.tracks
      → IsNumbered
          (update s detections timestamp).0.next_id
          (update s detections timestamp).0.tracks
        × (s.next_id ≤ (update s detections timestamp).0.next_id)
        × All
            (λ t.
              (s.next_id ≤ t.track_id) × (t.track_id < (update s detections timestamp).0.next_id))
            (update s detections timestamp).1.new_entries
  unfolding update exclusive
  update-IsNumbered s detections timestamp h =
      let spawned = associate s detections timestamp in
      let r = associate-IsSpawned s detections timestamp h in
      let purged = purge s.max_age spawned.tracks in
      let kept = purge-IsNumbered spawned.next_id s.max_age spawned.tracks r.numbered in
      (
        pass_all-IsNumbered spawned.next_id (record { done = []; seen = [] }) purged.0 kept
            (record { dict = tt; ids = λ k i e. absurd cc }),
        r.grown,
        r.fresh,
      )
