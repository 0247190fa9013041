-- ===== src/Rules/Loitering.antt =====
-- Loitering (core/rules.py): one event for one stay, what an event tells, and the engine's tracks apart.
use ibvap.Common.{
  ℕ, ◌+◌, ◌<◌, Bool, true, false, Option, none, some, List, [], ◌∷◌, String, ◌≡◌, refl, ◌∙◌, arith,
  inl, inr, ◌⊎◌, All, same, nat_key, string_key,
}
use ibvap.Common.Dict.{lookup, lookup-insert}
use ibvap.Common.Float.{Float, minus, at_most}
use ibvap.Geometry.Polygons.{point_in_polygon}
use ibvap.Rules.Defs.{LoiterState, RuleEvent, RuleEngine, ZoneRule, Format, loitering, dedup_key}
use ibvap.Rules.Stays.{loiter_step, entered, check_zones, zone_all, set_loiter, loiter_of}

-- What a zone sees of a track in a frame: whether it is inside, the time, and the key of its event.
pub record Sight (F : Type 0) : Type 0 where
  pub inside : Bool
  pub timestamp : F
  pub dedup : String

module _ {F : Type 0} where
  -- Never three frames outside in a row, with `n` of them behind.
  abbrev pub IsStay : ℕ → List (Sight F) → Type 0
  IsStay n [] = Unit
  IsStay n (v ∷ vs) =
      (v.inside ≡ true) × IsStay 0 vs ⊎ (v.inside ≡ false) × (n + 1 < 3) × IsStay (n + 1) vs

module _ {F : Type 0} ⦃f : Float F⦄ where
  -- A zone along the frames of a track: the state, and the events.
  unfoldable pub dwell :
      F
      → F
      → String
      → LoiterState F
      → List (String × F)
      → List (Sight F)
      → LoiterState F × List (Option (RuleEvent F))
  unfolding loiter_step
  dwell cooldown limit zid st log [] = (st, [])
  dwell cooldown limit zid st log (v ∷ vs) =
      let r = loiter_step cooldown limit log v.dedup zid st v.inside v.timestamp in
      let next = dwell cooldown limit zid r.0 r.2 vs in (next.0, r.1 ∷ next.1)

  stays_in :
      (cooldown limit : F) (log : List (String × F)) (dedup zid : String) (st : LoiterState F)
      (timestamp : F)
      → st.dwell_triggered ≡ true
      → loiter_step cooldown limit log dedup zid st true timestamp
        ≡ (record st { outside_streak = 0; enter_ts = some (entered st timestamp) }, none, log)
  unfolding loiter_step
  stays_in cooldown limit log dedup zid st timestamp t = ground arith

  strays_out :
      (cooldown limit : F) (log : List (String × F)) (dedup zid : String) (st : LoiterState F)
      (timestamp : F)
      → st.outside_streak + 1 < 3
      → loiter_step cooldown limit log dedup zid st false timestamp
        ≡ (record st { outside_streak = st.outside_streak + 1 }, none, log)
  unfolding loiter_step
  strays_out cooldown limit log dedup zid st timestamp n = ground arith

  -- Once a stay has been reported, it is not reported again, whatever its length, and its beginning is
  -- kept, as long as the track is never outside for three frames in a row.
  pub dwell_once :
      (cooldown limit : F) (zid : String) (st : LoiterState F) (log : List (String × F))
      (vs : List (Sight F)) (start : F)
      → st.dwell_triggered ≡ true
      → st.enter_ts ≡ some start
      → IsStay st.outside_streak vs
      → All (λ e. e ≡ none) (dwell cooldown limit zid st log vs).1
        × ((dwell cooldown limit zid st log vs).0.dwell_triggered ≡ true)
        × ((dwell cooldown limit zid st log vs).0.enter_ts ≡ some start)
  unfolding dwell loiter_step
  dwell_once cooldown limit zid st log [] start t e h = (tt, t, e)
  dwell_once cooldown limit zid st log (v ∷ vs) start t e (inl (i, h)) =
      let st' : LoiterState F = record st {
        outside_streak = 0;
        enter_ts = some (entered st v.timestamp);
      } in
      let kept : some (entered st v.timestamp) ≡ some start = rw e refl in
      let (a, b, c) = dwell_once cooldown limit zid st' log vs start t kept h in
      rw (i, stays_in cooldown limit log v.dedup zid st v.timestamp t) ((refl, a), b, c)
  dwell_once cooldown limit zid st log (v ∷ vs) start t e (inr (i, n, h)) =
      let st' : LoiterState F = record st { outside_streak = st.outside_streak + 1 } in
      let (a, b, c) = dwell_once cooldown limit zid st' log vs start t e h in
      rw (i, strays_out cooldown limit log v.dedup zid st v.timestamp n) ((refl, a), b, c)

  -- A loitering event tells of a track that is inside the zone and entered it at least the limit ago.
  pub loiter_step_lem :
      (cooldown limit : F) (log : List (String × F)) (dedup zid : String) (st : LoiterState F)
      (inside : Bool) (timestamp : F) (e : RuleEvent F)
      → (loiter_step cooldown limit log dedup zid st inside timestamp).1 ≡ some e
      → (inside ≡ true)
        × (st.dwell_triggered ≡ false)
        × (at_most limit (minus timestamp (entered st timestamp)) ≡ true)
        × (e ≡ loitering zid (minus timestamp (entered st timestamp)))
        × ((loiter_step cooldown limit log dedup zid st inside timestamp).0.dwell_triggered ≡ true)
  unfolding loiter_step
  loiter_step_lem cooldown limit log dedup zid st true timestamp e h = ground arith
  loiter_step_lem cooldown limit log dedup zid st false timestamp e h = ground arith

  set_loiter-apart :
      (s : RuleEngine F) (track other : ℕ) (id : String) (st : LoiterState F)
      (log : List (String × F))
      → same other track ≡ false
      → lookup other (set_loiter s track id st log).loiter_state ≡ lookup other s.loiter_state
  set_loiter-apart s track other id st log h = grind (arith, lookup-insert)

  zone_all-apart :
      (w : Format F) (s : RuleEngine F) (track other : ℕ) (foot : F × F) (timestamp : F)
      (zs : List (ZoneRule F))
      → same other track ≡ false
      → (lookup other (zone_all w s track foot timestamp zs).0.loiter_state
          ≡ lookup other s.loiter_state)
        × ((zone_all w s track foot timestamp zs).0.trip_state ≡ s.trip_state)
  unfolding zone_all
  zone_all-apart w s track other foot timestamp [] h = (refl, refl)
  zone_all-apart w s track other foot timestamp (z ∷ zs) h =
      let key = dedup_key w s.cooldown_seconds "loiter" z.id track timestamp in
      let r =
        loiter_step s.cooldown_seconds s.loiter_seconds s.last_event_at key z.id
          (loiter_of s track z.id) (point_in_polygon foot.0 foot.1 z.polygon) timestamp in
      let (a, b) =
        zone_all-apart w (set_loiter s track z.id r.0 r.2) track other foot timestamp zs h in
      (a ∙ set_loiter-apart s track other z.id r.0 r.2 h, b)

  -- A check of the zones for a track leaves the stays of every other track and all tripwires alone.
  pub check_zones-apart :
      (w : Format F) (s : RuleEngine F) (track other : ℕ) (foot : F × F) (timestamp : F)
      → same other track ≡ false
      → (lookup other (check_zones w s track foot timestamp).0.loiter_state
          ≡ lookup other s.loiter_state)
        × ((check_zones w s track foot timestamp).0.trip_state ≡ s.trip_state)
  unfolding check_zones
  check_zones-apart w s track other foot timestamp h =
      zone_all-apart w s track other foot timestamp s.zones h
