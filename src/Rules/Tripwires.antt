-- ===== src/Rules/Tripwires.antt =====
-- Tripwires (core/rules.py): what an event tells, the silence of a disarmed wire, and the order of a
-- wire's end points.
use ibvap.Common.{
  true, false, not, ◌&&◌, ◌||◌, Option, none, some, List, [], ◌∷◌, String, ◌≡◌, refl, arith,
  Bool-cases, inl, inr, All,
}
use ibvap.Common.Float.{Float, less, times}
use ibvap.Geometry.Segments.{zero_f, intersect}
use ibvap.Rules.Defs.{
  Tripwire, TripwireState, RuleEvent, tripwire_cross, oriented, tuple_le, side, direction_ok, cross,
  crossed_or_seen, moved_off, trip_step, should_emit,
}

module _ {F : Type 0} ⦃f : Float F⦄ where
  -- The side of a footpoint, for the wire as it is oriented.
  abbrev pub side_of : Tripwire F → F × F → F
  side_of tw foot = side foot (oriented tw.p1 tw.p2).0 (oriented tw.p1 tw.p2).1

  -- The step from the last footpoint to the new one crosses the wire in a direction that counts.
  abbrev pub IsCrossing : Tripwire F → TripwireState F → F × F → Type 0
  IsCrossing tw st foot =
      (before : F) × (pos : F × F) × (st.last_side ≡ some before)
      × (st.last_pos ≡ some pos)
      × (less (times before (side_of tw foot)) zero_f ≡ true)
      × (intersect pos foot (oriented tw.p1 tw.p2).0 (oriented tw.p1 tw.p2).1 ≡ true)
      × (direction_ok tw.direction before (side_of tw foot) ≡ true)

  crossed-IsCrossing :
      (cooldown : F) (log : List (String × F)) (dedup : String) (tw : Tripwire F)
      (st : TripwireState F) (foot : F × F) (timestamp : F) (e : RuleEvent F) (o : Option F)
      (p : Option (F × F))
      → st.last_side ≡ o
      → st.last_pos ≡ p
      → (crossed_or_seen cooldown log dedup tw
          (record st { armed = true })
          (side_of tw foot)
          foot
          (oriented tw.p1 tw.p2).0
          (oriented tw.p1 tw.p2).1
          timestamp
          o
          p).1
        ≡ some e
      → IsCrossing tw st foot
        × (e ≡ tripwire_cross tw.id tw.direction)
        × ((crossed_or_seen cooldown log dedup tw
              (record st { armed = true })
              (side_of tw foot)
              foot
              (oriented tw.p1 tw.p2).0
              (oriented tw.p1 tw.p2).1
              timestamp
              o
              p).0.armed
            ≡ false)
  unfolding cross
  crossed-IsCrossing cooldown log dedup tw st foot timestamp e none p eo ep h = absurd cc
  crossed-IsCrossing cooldown log dedup tw st foot timestamp e (some before) none eo ep h =
      absurd cc
  crossed-IsCrossing cooldown log dedup tw st foot timestamp e (some before) (some pos) eo ep h =
      elim (Bool-cases (
        less (times before (side_of tw foot)) zero_f
        && intersect pos foot (oriented tw.p1 tw.p2).0 (oriented tw.p1 tw.p2).1)) [
          | inr q ↦ absurd (ground arith)
          | inl q ↦ elim (Bool-cases (direction_ok tw.direction before (side_of tw foot))) [
            | inr r ↦ absurd (ground arith)
            | inl r ↦ elim (Bool-cases (should_emit cooldown log dedup timestamp).0) [
              | inr u ↦ absurd (ground arith)
              | inl u ↦
                  ((before, pos, eo, ep, ground arith, ground arith, r), ground arith, ground arith)
            ]
          ]
        ]

  -- An event of a tripwire tells of a crossing: the track was on the other side at its last footpoint,
  -- the step from there intersects the wire, in a direction that counts; and the wire is disarmed then.
  pub trip_step-IsCrossing :
      (cooldown : F) (log : List (String × F)) (dedup : String) (tw : Tripwire F)
      (st : TripwireState F) (foot : F × F) (timestamp : F) (e : RuleEvent F)
      → (trip_step cooldown log dedup tw st foot timestamp).1 ≡ some e
      → IsCrossing tw st foot
        × (e ≡ tripwire_cross tw.id tw.direction)
        × ((trip_step cooldown log dedup tw st foot timestamp).0.armed ≡ false)
  unfolding trip_step
  trip_step-IsCrossing cooldown log dedup tw st foot timestamp e h =
      elim (Bool-cases (st.armed || moved_off tw.hysteresis (side_of tw foot) st.last_side)) [
        | inl p ↦
            let g : (crossed_or_seen cooldown log dedup tw (record st { armed = true })
                  (side_of tw foot) foot (oriented tw.p1 tw.p2).0 (oriented tw.p1 tw.p2).1 timestamp
                  st.last_side st.last_pos).1
                ≡ some e =
              rw p at h in
            rw p (
              crossed-IsCrossing cooldown log dedup tw st foot timestamp e st.last_side st.last_pos
                refl refl g)
        | inr p ↦ absurd (let no : none ≡ some e = rw p at h in cc)
      ]

  -- A wire along a sequence of footpoints with their keys and times.
  unfoldable pub walk :
      F
      → Tripwire F
      → TripwireState F
      → List (String × F)
      → List (String × (F × F) × F)
      → TripwireState F × List (Option (RuleEvent F)) × List (String × F)
  unfolding trip_step
  walk cooldown tw st log [] = (st, [], log)
  walk cooldown tw st log ((dedup, foot, timestamp) ∷ steps) =
      let r = trip_step cooldown log dedup tw st foot timestamp in
      let next = walk cooldown tw r.0 r.2 steps in (next.0, r.1 ∷ next.1, next.2)

  -- A wire that has fired stays silent, and its state as it is, as long as the track keeps within the
  -- hysteresis of the side on which it fired, through any number of frames.
  pub walk_silent :
      (cooldown : F) (tw : Tripwire F) (st : TripwireState F) (log : List (String × F))
      (steps : List (String × (F × F) × F))
      → st.armed ≡ false
      → All (λ s. moved_off tw.hysteresis (side_of tw s.1) st.last_side ≡ false) steps
      → ((walk cooldown tw st log steps).0 ≡ st)
        × All (λ e. e ≡ none) (walk cooldown tw st log steps).1
        × ((walk cooldown tw st log steps).2 ≡ log)
  unfolding walk trip_step
  walk_silent cooldown tw st log [] a h = (refl, tt, refl)
  walk_silent cooldown tw st log ((dedup, foot, timestamp) ∷ steps) a h =
      let quiet : (st.armed || moved_off tw.hysteresis (side_of tw foot) st.last_side) ≡ false =
        ground arith in
      let (b, c, d) = walk_silent cooldown tw st log steps a h.1 in
      (rw quiet b, rw quiet (refl, c), rw quiet d)

  -- The order in which the end points of a wire were drawn does not matter to what it does, if one
  -- point comes before the other in just one direction, as two different points do.
  pub trip_step_swap :
      (cooldown : F) (log : List (String × F)) (dedup : String) (tw : Tripwire F)
      (st : TripwireState F) (foot : F × F) (timestamp : F)
      → tuple_le tw.p2 tw.p1 ≡ not (tuple_le tw.p1 tw.p2)
      → trip_step cooldown log dedup (record tw { p1 = tw.p2; p2 = tw.p1 }) st foot timestamp
        ≡ trip_step cooldown log dedup tw st foot timestamp
  unfolding trip_step oriented
  trip_step_swap cooldown log dedup tw st foot timestamp h =
      elim (Bool-cases (tuple_le tw.p1 tw.p2)) [
        | inl p ↦ let q : tuple_le tw.p2 tw.p1 ≡ false = ground arith in rw (p, q) refl
        | inr p ↦ let q : tuple_le tw.p2 tw.p1 ≡ true = ground arith in rw (p, q) refl
      ]
