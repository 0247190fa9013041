-- ===== src/Tracker/Update.antt =====
-- `CentroidTracker` (core/tracker.py): the end of `update`, with the purge, the exclusive watchlist
-- identities and the visible tracks, and `update` as the sequence of its stages.
use ibvap.Common.{
  ℕ, ◌+◌, Bool, true, false, not, ◌&&◌, ◌||◌, Option, none, some, List, [], ◌∷◌, String, ltb, leb,
  ◌==◌, if◌then◌else◌, any, contains, nat_key, string_key,
}
use ibvap.Common.Dict.{lookup, insert}
use ibvap.Common.Float.{Float, less, num}
use ibvap.Tracker.Tracks.{Box, Track, Identity, iou}
use ibvap.Tracker.Latch.{is_critical_identity}
use ibvap.Tracker.Detections.{Raw, sanitize, dedupe}
use ibvap.Tracker.Matching.{match_stage, unmatched}
use ibvap.Tracker.Stages.{Survivors, Spawned, overlap_stage, spawn_stage}

pub record Tracker (F : Type 0) : Type 0 where
  pub iou_threshold : F
  pub max_age : ℕ
  pub tracks : List (ℕ × Track F)
  pub next_id : ℕ
  pub stream_epoch : ℕ
  pub smoothing : F

-- The truth of a text.
abbrev pub nonempty : String → Bool
nonempty String.[] = false
nonempty (String.◌∷◌ c s) = true

abbrev pub entry_if : Bool → String → Option String
entry_if true eid = some eid
entry_if false eid = none

module _ {F : Type 0} where
  unfoldable pub reset_epoch : Tracker F → ℕ → Tracker F
  reset_epoch s new_epoch = record s { stream_epoch = new_epoch; tracks = []; next_id = 1 }

  -- `t.age += 1` and `trk.is_intrusion = False`, for every track.
  unfoldable pub grow_older : List (ℕ × Track F) → List (ℕ × Track F)
  grow_older [] = []
  grow_older ((k, t) ∷ rest) =
      (k, record t { age = t.age + 1; is_intrusion = false }) ∷ grow_older rest

  abbrev pub drop_limit : ℕ → Track F → ℕ
  drop_limit max_age t = if leb t.hits 1 then 3 else max_age

  -- The purge: the tracks that stay, and those that are terminated.
  unfoldable pub purge : ℕ → List (ℕ × Track F) → List (ℕ × Track F) × List (Track F)
  purge max_age [] = ([], [])
  purge max_age ((k, t) ∷ rest) =
      let (stay, gone) = purge max_age rest in
      if ltb (drop_limit max_age t) t.age then (stay, t ∷ gone) else ((k, t) ∷ stay, gone)

  -- `trk.identity and trk.identity.get("entry_id")`
  abbrev pub held_entry : Option (Identity F) → Option String
  held_entry none = none
  held_entry (some i) = entry_if (nonempty i.entry_id) i.entry_id

  abbrev pub cleared : Track F → Track F
  cleared t = record t { identity = none; identity_locked = false }

module _ {F : Type 0} ⦃f : Float F⦄ where
  abbrev pub score_of : Option (Identity F) → F
  score_of none = num 0 1
  score_of (some i) = i.score

  -- `trk_wins`
  unfoldable pub wins : Track F → Track F → Bool
  wins prev trk =
      let prev_active = prev.age == 0 in
      let curr_active = trk.age == 0 in
      let prev_crit = is_critical_identity prev.identity in
      let curr_crit = is_critical_identity trk.identity in
      let prev_score = score_of prev.identity in
      let curr_score = score_of trk.identity in
      if trk.identity_locked && not prev.identity_locked
      then true
      else if prev.identity_locked && not trk.identity_locked
      then false
      else if curr_crit && not prev_crit
      then true
      else if prev_crit && not curr_crit
      then false
      else if curr_active && not prev_active
      then true
      else if prev_active && not curr_active
      then false
      else if less prev_score curr_score
      then true
      else if less curr_score prev_score
      then false
      else ltb prev.hits trk.hits

-- The tracks that the loop has passed, and `seen_entries` with the keys of the tracks.
pub record Passed (F : Type 0) : Type 0 where
  pub done : List (ℕ × Track F)
  pub seen : List (String × ℕ)

module _ {F : Type 0} ⦃f : Float F⦄ where
  -- The track `tid` meets the track `ptid`, which holds the same entry.
  unfoldable pub meet : Passed F → ℕ → Track F → String → ℕ → Option (Track F) → Passed F
  unfolding wins
  meet s tid trk eid ptid none = record {
    done = insert tid trk s.done;
    seen = insert eid tid s.seen;
  }
  meet s tid trk eid ptid (some prev) =
      if wins prev trk
      then record {
        done = insert tid trk (insert ptid (cleared prev) s.done);
        seen = insert eid tid s.seen;
      }
      else record s { done = insert tid (cleared trk) s.done }

  unfoldable pub pass_entry : Passed F → ℕ → Track F → String → Option ℕ → Passed F
  unfolding meet
  pass_entry s tid trk eid none = record {
    done = insert tid trk s.done;
    seen = insert eid tid s.seen;
  }
  pass_entry s tid trk eid (some ptid) = meet s tid trk eid ptid (lookup ptid s.done)

  unfoldable pub pass : Passed F → ℕ → Track F → Option String → Passed F
  unfolding pass_entry
  pass s tid trk none = record s { done = insert tid trk s.done }
  pass s tid trk (some eid) = pass_entry s tid trk eid (lookup eid s.seen)

  -- The loop that leaves each entry with one track.
  unfoldable pub pass_all : Passed F → List (ℕ × Track F) → Passed F
  unfolding pass
  pass_all s [] = s
  pass_all s ((tid, trk) ∷ rest) = pass_all (pass s tid trk (held_entry trk.identity)) rest

  unfoldable pub exclusive : List (ℕ × Track F) → List (ℕ × Track F)
  unfolding pass_all
  exclusive tracks = (pass_all (record { done = []; seen = [] }) tracks).done

  -- `is_crit`
  abbrev pub is_locked_critical : Track F → Bool
  is_locked_critical t = t.identity_locked && is_critical_identity t.identity

  abbrev pub max_allowed_age : Track F → ℕ
  max_allowed_age t =
      if is_locked_critical t then 12 else if leb 2 t.hits || t.identity_locked then 2 else 1

  -- `active_boxes`
  unfoldable pub active_boxes : List (ℕ × Track F) → List (Box F)
  active_boxes [] = []
  active_boxes ((k, t) ∷ rest) =
      let more = active_boxes rest in if t.age == 0 then t.bbox ∷ more else more

  unfoldable pub is_visible : List (Box F) → Track F → Bool
  unfolding iou
  is_visible active t =
      if ltb (max_allowed_age t) t.age
      then false
      else not (
          ltb 0 t.age
          && not (is_locked_critical t)
          && any (λ b. less (num 35 100) (iou t.bbox b)) active)

  unfoldable pub visible_tracks : List (Box F) → List (ℕ × Track F) → List (Track F)
  unfolding is_visible
  visible_tracks active [] = []
  visible_tracks active ((k, t) ∷ rest) =
      let more = visible_tracks active rest in if is_visible active t then t ∷ more else more

  -- The last loop: `seen_vis` and `clean_visible`.
  abbrev pub clean_with :
      Option String → List String → (List String → List (Track F)) → Track F → List (Track F)
  clean_with none seen rest t = t ∷ rest seen
  clean_with (some eid) seen rest t = if contains eid seen then rest seen else t ∷ rest (eid ∷ seen)

  unfoldable pub clean_visible : List (Track F) → List String → List (Track F)
  clean_visible [] seen = []
  clean_visible (t ∷ ts) seen = clean_with (held_entry t.identity) seen (clean_visible ts) t

-- What `update` returns, beside the tracker.
pub record Frame (F : Type 0) : Type 0 where
  pub visible : List (Track F)
  pub new_entries : List (Track F)
  pub terminated : List (Track F)

module _ {F : Type 0} ⦃f : Float F⦄ where
  -- The stages up to the spawning of new tracks.
  unfoldable pub associate : Tracker F → List (Raw F) → F → Spawned F
  unfolding sanitize dedupe match_stage unmatched overlap_stage spawn_stage grow_older
  associate s detections timestamp =
      let dets = dedupe (sanitize detections) in
      let claims = match_stage s.iou_threshold s.smoothing timestamp dets (grow_older s.tracks) in
      let start : Survivors F = record { tracks = claims.tracks; tids = claims.tids; dets = [] } in
      let left = overlap_stage s.smoothing timestamp start (unmatched claims.dets 0 dets) in
      spawn_stage timestamp (record { tracks = left.tracks; next_id = s.next_id; entries = [] })
        left.dets

  unfoldable pub update : Tracker F → List (Raw F) → F → Tracker F × Frame F
  unfolding associate purge exclusive active_boxes visible_tracks clean_visible
  update s detections timestamp =
      let spawned = associate s detections timestamp in
      let purged = purge s.max_age spawned.tracks in
      let tracks = exclusive purged.0 in
      (
        record s { tracks = tracks; next_id = spawned.next_id },
        record {
          visible = clean_visible (visible_tracks (active_boxes tracks) tracks) [];
          new_entries = spawned.entries;
          terminated = purged.1;
        },
      )
