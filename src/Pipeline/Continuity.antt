-- ===== src/Pipeline/Continuity.antt =====
-- A presence goes on while its track is seen inside, or is outside for less than 15 frames (core/pipeline.py).
use ibvap.Common.{
  ℕ, suc, ◌+◌, ◌<◌, ◌≡◌, refl, ap, ◌∙◌, Bool, true, false, Option, none, some, List, [], ◌∷◌, ◌++◌,
  String, contains, nat_key, arith, Bool-cases, inl, inr, ltb,
}
use ibvap.Common.Dict.{insert}
use ibvap.Common.Float.{Float, at_most, minus, num}
use ibvap.Pipeline.Counts.{
  IsSilent, IsSilent-append, count_of-insert, count_of-erase, contains-discard,
}
use ibvap.Pipeline.Frames.{Frame, seen, unseen, check_alerted, presence_frame}
use ibvap.Pipeline.Defs.{
  Presence, PresenceEvent, time_of, key_of, count_of, intrude, leave, stay_out, meet_zone,
  track_step, report_end, end_presence_event, check_visible,
}

module _ {F : Type 0} where
  -- How many frames a track has been outside for, and unseen for, after some more frames.
  abbrev pub counts_after : ℕ → ℕ → List (Frame F) → ℕ × ℕ
  counts_after n u [] = (n, u)
  counts_after n u (seen now true ∷ frames) = counts_after 0 0 frames
  counts_after n u (seen now false ∷ frames) = counts_after (suc n) 0 frames
  counts_after n u (unseen now internal ∷ frames) = counts_after n (suc u) frames

  -- The track is never outside for 15 of the frames that show it in a row, and never unseen for more than
  -- three in a row, after these counts.
  abbrev pub IsContinuous : ℕ → ℕ → List (Frame F) → Type 0
  IsContinuous n u [] = Unit
  IsContinuous n u (seen now true ∷ frames) = IsContinuous 0 0 frames
  IsContinuous n u (seen now false ∷ frames) = (suc n < 15) × IsContinuous (suc n) 0 frames
  IsContinuous n u (unseen now internal ∷ frames) = (u < 3) × IsContinuous n (suc u) frames

module _ {F : Type 0} ⦃f : Float F⦄ (z : String) (t : ℕ) where
  -- Frames of a zone that is no line.
  abbrev pub run : List (Frame F) → Presence F → List (Option PresenceEvent) × Presence F
  run [] p = ([], p)
  run (frame ∷ frames) p =
      let (es, q) = presence_frame z false t frame p in
      let (rest, r) = run frames q in (es ++ rest, r)

  inside :
      (now : F) (p : Presence F)
      → contains t p.alerted_tracks ≡ true
      → track_step z false true now t p
        ≡ (none, record p { track_outside_count = insert t 0 p.track_outside_count })
  unfolding track_step meet_zone intrude
  inside now p h = rw (track_step, meet_zone, intrude, h) refl

  outside :
      (now : F) (p : Presence F)
      → contains t p.alerted_tracks ≡ true
      → count_of t p.track_outside_count + 1 < 15
      → track_step z false false now t p ≡ (
        none,
        record p {
          track_outside_count =
              insert t (count_of t p.track_outside_count + 1) p.track_outside_count;
        },
      )
  unfolding track_step meet_zone stay_out
  outside now p h few =
      let below : ltb (count_of t p.track_outside_count + 1) 15 ≡ true = ground arith in
      rw (track_step, meet_zone, stay_out, h, below) refl

  -- The track is present, and has been outside and unseen for these many frames.
  abbrev pub IsPresent : ℕ → ℕ → Presence F → Type 0
  IsPresent n u p =
      (contains t p.alerted_tracks ≡ true)
      × (count_of t p.track_outside_count ≡ n)
      × (count_of t p.unseen_streak ≡ u)

  -- A frame that raises nothing, and the presence after it.
  abbrev Goes : ℕ → ℕ → List (Option PresenceEvent) × Presence F → Type 0
  Goes n u (es, p) = IsSilent es × IsPresent n u p

  seen_inside-Goes :
      (n u : ℕ) (now : F) (p : Presence F)
      → IsPresent n u p
      → Goes 0 0 (presence_frame z false t (seen now true) p)
  unfolding presence_frame check_alerted check_visible
  seen_inside-Goes n u now p (here, out, dark) =
      rw (presence_frame, inside now p here, check_alerted, here, check_visible)
        (
          (refl, (refl, tt)),
          (here, count_of-insert t 0 p.track_outside_count, count_of-erase t p.unseen_streak),
        )

  seen_outside-Goes :
      (n u : ℕ) (now : F) (p : Presence F)
      → suc n < 15
      → IsPresent n u p
      → Goes (suc n) 0 (presence_frame z false t (seen now false) p)
  unfolding presence_frame check_alerted check_visible
  seen_outside-Goes n u now p few (here, out, dark) =
      let count : ℕ = count_of t p.track_outside_count + 1 in
      let one_more : count ≡ suc n = omega arith in
      rw (presence_frame, outside now p here (omega arith), check_alerted, here, check_visible)
        (
          (refl, (refl, tt)),
          (
            here,
            count_of-insert t count p.track_outside_count ∙ one_more,
            count_of-erase t p.unseen_streak,
          ),
        )

  unseen-Goes :
      (n u : ℕ) (now : F) (internal : Option Bool) (p : Presence F)
      → u < 3
      → IsPresent n u p
      → Goes n (suc u) (presence_frame z false t (unseen now internal) p)
  unfolding presence_frame check_alerted check_visible
  unseen-Goes n u now internal p few (here, out, dark) =
      let below : ltb (count_of t p.unseen_streak) 3 ≡ true = ground arith in
      let count : ℕ = count_of t p.unseen_streak + 1 in
      let one_more : count ≡ suc u = omega arith in
      rw (presence_frame, check_alerted, here, check_visible, below)
        ((refl, tt), (here, out, count_of-insert t count p.unseen_streak ∙ one_more))

  run-IsPresent :
      (n u : ℕ) (frames : List (Frame F)) (p : Presence F)
      → IsPresent n u p
      → IsContinuous n u frames
      → let (n', u') = counts_after n u frames in Goes n' u' (run frames p)
  run-IsPresent n u [] p h c = (tt, h)
  run-IsPresent n u (seen now true ∷ frames) p h c =
      let (quiet, still) = seen_inside-Goes n u now p h in
      let (more, present) = run-IsPresent 0 0 frames _ still c in
      (IsSilent-append _ _ quiet more, present)
  run-IsPresent n u (seen now false ∷ frames) p h (few, c) =
      let (quiet, still) = seen_outside-Goes n u now p few h in
      let (more, present) = run-IsPresent (suc n) 0 frames _ still c in
      (IsSilent-append _ _ quiet more, present)
  run-IsPresent n u (unseen now internal ∷ frames) p h (few, c) =
      let (quiet, still) = unseen-Goes n u now internal p few h in
      let (more, present) = run-IsPresent n (suc u) frames _ still c in
      (IsSilent-append _ _ quiet more, present)

  leave-ends : (now : F) (p : Presence F) → contains t (leave z now t p).1.alerted_tracks ≡ false
  unfolding leave
  leave-ends now p =
      elim (Bool-cases
        (at_most (num 3 1) (minus now (time_of (key_of z t) p.last_exit_alert_time)))) [
          | inl late ↦ rw (leave, late) (contains-discard t p.alerted_tracks)
          | inr soon ↦ rw (leave, soon) (contains-discard t p.alerted_tracks)
        ]

  track_step-ends :
      (n u : ℕ) (now : F) (p : Presence F)
      → IsPresent n u p
      → ltb (n + 1) 15 ≡ false
      → contains t (track_step z false false now t p).1.alerted_tracks ≡ false
  unfolding track_step meet_zone stay_out
  track_step-ends n u now p (here, out, dark) enough =
      let last : ltb (count_of t p.track_outside_count + 1) 15 ≡ false = rw out enough in
      rw (track_step, meet_zone, stay_out, here, last) (leave-ends now _)

  report_end-alerted :
      (now : F) (internal : Option Bool) (p : Presence F)
      → (report_end z now t internal p).1.alerted_tracks ≡ p.alerted_tracks
  unfolding report_end end_presence_event
  report_end-alerted now none p = refl
  report_end-alerted now (some last_outside) p = ground arith

  -- One more frame ends a presence exactly if it is the 15th outside, or the fourth that misses the track.
  last_outside :
      (n u : ℕ) (now : F) (p : Presence F)
      → IsPresent n u p
      → contains t (presence_frame z false t (seen now false) p).1.alerted_tracks ≡ ltb (n + 1) 15
  unfolding presence_frame check_alerted
  last_outside n u now p h = elim (Bool-cases (ltb (n + 1) 15)) [
    | inl few ↦ rw few (seen_outside-Goes n u now p (ground arith) h).1.0
    | inr enough ↦
        let gone = track_step-ends n u now p h enough in
        rw (presence_frame, check_alerted, gone, enough) gone
  ]

  last_unseen :
      (n u : ℕ) (now : F) (internal : Option Bool) (p : Presence F)
      → IsPresent n u p
      → contains t (presence_frame z false t (unseen now internal) p).1.alerted_tracks ≡ ltb u 3
  unfolding presence_frame check_alerted check_visible
  last_unseen n u now internal p (here, out, dark) = elim (Bool-cases (ltb u 3)) [
    | inl few ↦ rw few (unseen-Goes n u now internal p (ground arith) (here, out, dark)).1.0
    | inr enough ↦
        let last : ltb (count_of t p.unseen_streak) 3 ≡ false = rw dark enough in
        rw (presence_frame, check_alerted, here, check_visible, last, enough)
          (ap (contains t) (report_end-alerted now internal _)
            ∙ contains-discard t p.alerted_tracks)
  ]

  -- Of a zone that is no line, and a track that has raised its alert, is of a class that can intrude and is
  -- kept by the tracker, with counters of `n` frames outside and `u` frames unseen: through any processed
  -- frames that do not show it outside for 15 in a row, nor miss it more than three times in a row, from these
  -- counters on, the loops on intrusions and on visibility raise none of their events for it
  -- (`zone_intrusion`, `zone_exit`, `target_lost`) and it stays alerted. One more frame that shows it outside
  -- ends the presence exactly if it is the 15th, and one that misses it exactly if it is the fourth.
  pub run-IsSilent :
      (n u : ℕ) (frames : List (Frame F)) (p : Presence F) (later : F) (internal : Option Bool)
      → IsPresent n u p
      → IsContinuous n u frames
      → let (es, q) = run frames p in
        let (n', u') = counts_after n u frames in
        IsSilent es
        × (contains t q.alerted_tracks ≡ true)
        × (contains t (presence_frame z false t (seen later false) q).1.alerted_tracks
            ≡ ltb (n' + 1) 15)
        × (contains t (presence_frame z false t (unseen later internal) q).1.alerted_tracks
            ≡ ltb u' 3)
  run-IsSilent n u frames p later internal h c =
      let (silent, still) = run-IsPresent n u frames p h c in
      (
        silent,
        still.0,
        last_outside _ _ later (run frames p).1 still,
        last_unseen _ _ later internal (run frames p).1 still,
      )
