-- ===== src/Pipeline/Frames.antt =====
-- The loops of `process_frame` on intrusions and on visibility, for one track (core/pipeline.py).
use ibvap.Common.{
  ℕ, Bool, true, false, Option, none, List, [], ◌∷◌, String, if◌then◌else◌, contains, nat_key,
}
use ibvap.Common.Float.{Float}
use ibvap.Pipeline.Defs.{Presence, PresenceEvent, track_step, check_visible}

-- What a frame shows of a track that the tracker keeps: it is visible, and hits the zone or not; or it is
-- not, and the tracker may know its last position, outside of the zone or not.
pub data Frame (F : Type 0) : Type 0 where
  seen : F → Bool → Frame F
  unseen : F → Option Bool → Frame F

module _ {F : Type 0} ⦃f : Float F⦄ where
  -- The loop on visibility goes over the alerted tracks.
  unfoldable pub check_alerted :
      String → F → ℕ → Bool → Option Bool → Presence F → Option PresenceEvent × Presence F
  unfolding check_visible
  check_alerted z now t visible internal p =
      if contains t p.alerted_tracks then check_visible z now t visible internal p else (none, p)

  -- The loop on intrusions and the loop on visibility, for one track of a class that can intrude.
  unfoldable pub presence_frame :
      String → Bool → ℕ → Frame F → Presence F → List (Option PresenceEvent) × Presence F
  unfolding track_step check_alerted
  presence_frame z is_line t (seen now hit) p =
      let (first, q) = track_step z is_line hit now t p in
      let (second, r) = check_alerted z now t true none q in (first ∷ second ∷ [], r)
  presence_frame z is_line t (unseen now internal) p =
      let (e, q) = check_alerted z now t false internal p in (e ∷ [], q)
