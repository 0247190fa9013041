-- ===== src/Pipeline/Defs.antt =====
-- The state of `MiniPipeline` on presences, the loop of `process_frame` on intrusions, and `prune_track`
-- (core/pipeline.py). A set is the list of its members. Events are given by their type and track, and
-- whether the zone is hit is an argument, `is_intrusion` of Geometry.
use ibvap.Common.{
  ℕ, ◌+◌, Bool, true, false, not, ◌&&◌, Option, none, some, List, [], ◌∷◌, ◌++◌, ltb, ◌≡◌, ap,
  ℕ_discrete, Key, string_eq?, String, if◌then◌else◌, select, contains, same, nat_key, string_key,
}
use ibvap.Common.Dict.{lookup, insert, erase}
use ibvap.Common.Float.{Float, minus, less, at_most, num}

-- `(zone_id, track_id)`
pub record ZoneTrack : Type 0 where
  pub zone : String
  pub track : ℕ

unfoldable pub zone_track_dec :
    (a b : ZoneTrack) → Dec (a.zone ≡ b.zone) → Dec (a.track ≡ b.track) → Dec (a ≡ b)
zone_track_dec a b (yes p) (yes q) = yes (cc)
zone_track_dec a b (yes p) (no q) = no (λ e. q (ap (λ (k : ZoneTrack). k.track) e))
zone_track_dec a b (no p) d = no (λ e. p (ap (λ (k : ZoneTrack). k.zone) e))

instance abbrev pub zone_track : Key ZoneTrack
zone_track = record {
  eq? = λ a b. zone_track_dec a b (string_eq? a.zone b.zone) (ℕ_discrete a.track b.track);
}

pub record Presence (F : Type 0) : Type 0 where
  pub alerted_tracks : List ℕ
  pub watchlist_alerted_tracks : List ℕ
  pub active_line_intruders : List ℕ
  pub track_outside_count : List (ℕ × ℕ)
  pub unseen_streak : List (ℕ × ℕ)
  pub line_miss_count : List (ℕ × ℕ)
  pub last_intrusion_alert_time : List (ZoneTrack × F)
  pub last_exit_alert_time : List (ZoneTrack × F)

pub data PresenceEvent : Type 0 where
  zone_intrusion : ℕ → PresenceEvent
  zone_exit : ℕ → PresenceEvent
  target_lost : ℕ → PresenceEvent

abbrev pub key_of : String → ℕ → ZoneTrack
key_of z t = record { zone = z; track = t }

abbrev pub add : ℕ → List ℕ → List ℕ
add t ts = if contains t ts then ts else ts ++ t ∷ []

abbrev pub discard : ℕ → List ℕ → List ℕ
discard t ts = select (λ x. not (same t x)) ts

abbrev pub count_of : ℕ → List (ℕ × ℕ) → ℕ
count_of t d = elim (lookup t d) [ none ↦ 0 | some n ↦ n ]

module _ {F : Type 0} where
  abbrev pub without_track : ℕ → List (ZoneTrack × F) → List (ZoneTrack × F)
  without_track t d = select (λ e. not (same (e.0).track t)) d

  unfoldable pub clear_presence : Presence F → Presence F
  clear_presence p = record {
    alerted_tracks = [];
    watchlist_alerted_tracks = [];
    active_line_intruders = [];
    track_outside_count = [];
    unseen_streak = [];
    line_miss_count = [];
    last_intrusion_alert_time = [];
    last_exit_alert_time = [];
  }

  unfoldable pub prune_presence : ℕ → Presence F → Presence F
  prune_presence t p = record {
    alerted_tracks = discard t p.alerted_tracks;
    watchlist_alerted_tracks = discard t p.watchlist_alerted_tracks;
    active_line_intruders = discard t p.active_line_intruders;
    track_outside_count = erase t p.track_outside_count;
    unseen_streak = erase t p.unseen_streak;
    line_miss_count = erase t p.line_miss_count;
    last_intrusion_alert_time = without_track t p.last_intrusion_alert_time;
    last_exit_alert_time = without_track t p.last_exit_alert_time;
  }

  -- The latch of a line: a track that crossed it counts as an intruder for the next frames.
  unfoldable pub latch : Bool → ℕ → Presence F → Bool × Presence F
  latch true t p = (
    true,
    record p {
      active_line_intruders = add t p.active_line_intruders;
      line_miss_count = insert t 0 p.line_miss_count;
    },
  )
  latch false t p =
      let misses = count_of t p.line_miss_count + 1 in
      if not (contains t p.active_line_intruders)
      then (false, p)
      else if ltb misses 5
      then (true, record p { line_miss_count = insert t misses p.line_miss_count })
      else (
        false,
        record p {
          active_line_intruders = discard t p.active_line_intruders;
          line_miss_count = erase t p.line_miss_count;
        },
      )

module _ {F : Type 0} ⦃f : Float F⦄ where
  abbrev pub time_of : ZoneTrack → List (ZoneTrack × F) → F
  time_of k d = elim (lookup k d) [ none ↦ num 0 1 | some x ↦ x ]

  unfoldable pub intrude : String → F → ℕ → Presence F → Option PresenceEvent × Presence F
  intrude z now t p =
      let q : Presence F = record p { track_outside_count = insert t 0 p.track_outside_count } in
      if not (contains t p.alerted_tracks)
        && at_most (num 4 1) (minus now (time_of (key_of z t) p.last_intrusion_alert_time))
      then (
        some (zone_intrusion t),
        record q {
          alerted_tracks = add t q.alerted_tracks;
          last_intrusion_alert_time = insert (key_of z t) now q.last_intrusion_alert_time;
        },
      )
      else (none, q)

  -- The end of a presence after 15 frames outside.
  unfoldable pub leave : String → F → ℕ → Presence F → Option PresenceEvent × Presence F
  leave z now t p =
      let q : Presence F = record p {
        alerted_tracks = discard t p.alerted_tracks;
        active_line_intruders = discard t p.active_line_intruders;
        line_miss_count = erase t p.line_miss_count;
      } in
      if at_most (num 3 1) (minus now (time_of (key_of z t) p.last_exit_alert_time))
      then (
        some (zone_exit t),
        record q { last_exit_alert_time = insert (key_of z t) now q.last_exit_alert_time },
      )
      else (none, q)

  unfoldable pub stay_out : String → F → ℕ → Presence F → Option PresenceEvent × Presence F
  unfolding leave
  stay_out z now t p =
      let count = count_of t p.track_outside_count + 1 in
      let q : Presence F = record p {
        track_outside_count = insert t count p.track_outside_count;
      } in
      if not (contains t p.alerted_tracks)
      then (none, record p { track_outside_count = insert t 0 p.track_outside_count })
      else if ltb count 15
      then (none, q)
      else leave z now t q

  unfoldable pub meet_zone : String → F → ℕ → Bool × Presence F → Option PresenceEvent × Presence F
  unfolding intrude stay_out
  meet_zone z now t (intruding, p) = if intruding then intrude z now t p else stay_out z now t p

  -- A track of a class that can intrude.
  unfoldable pub track_step :
      String → Bool → Bool → F → ℕ → Presence F → Option PresenceEvent × Presence F
  unfolding meet_zone latch
  track_step z is_line hit now t p = meet_zone z now t (if is_line then latch hit t p else (hit, p))

  -- The end of a presence that went dark, whose last position is outside of the zone or not.
  unfoldable pub end_presence_event :
      String → F → ℕ → Bool → Presence F → Option PresenceEvent × Presence F
  end_presence_event z now t last_outside p =
      if less (minus now (time_of (key_of z t) p.last_exit_alert_time)) (num 3 1)
      then (none, p)
      else (
        some (if last_outside then zone_exit t else target_lost t),
        record p { last_exit_alert_time = insert (key_of z t) now p.last_exit_alert_time },
      )

  -- A track that is not known any more has no event.
  unfoldable pub report_end :
      String → F → ℕ → Option Bool → Presence F → Option PresenceEvent × Presence F
  unfolding end_presence_event
  report_end z now t none p = (none, p)
  report_end z now t (some last_outside) p = end_presence_event z now t last_outside p

  -- An alerted track in the loop on visibility.
  unfoldable pub check_visible :
      String → F → ℕ → Bool → Option Bool → Presence F → Option PresenceEvent × Presence F
  unfolding report_end
  check_visible z now t visible internal p =
      let unseen = count_of t p.unseen_streak in
      if visible
      then (none, record p { unseen_streak = erase t p.unseen_streak })
      else if ltb unseen 3
      then (none, record p { unseen_streak = insert t (unseen + 1) p.unseen_streak })
      else report_end z now t internal (record p {
        alerted_tracks = discard t p.alerted_tracks;
        track_outside_count = erase t p.track_outside_count;
        active_line_intruders = discard t p.active_line_intruders;
        line_miss_count = erase t p.line_miss_count;
        unseen_streak = erase t p.unseen_streak;
      })

  -- A track that has ended.
  unfoldable pub terminate : String → F → ℕ → Bool → Presence F → Option PresenceEvent × Presence F
  unfolding end_presence_event
  terminate z now t last_outside p =
      let q : Presence F = record p {
        alerted_tracks = discard t p.alerted_tracks;
        watchlist_alerted_tracks = discard t p.watchlist_alerted_tracks;
        active_line_intruders = discard t p.active_line_intruders;
        track_outside_count = erase t p.track_outside_count;
        unseen_streak = erase t p.unseen_streak;
        line_miss_count = erase t p.line_miss_count;
      } in
      if contains t p.alerted_tracks then end_presence_event z now t last_outside q else (none, q)
