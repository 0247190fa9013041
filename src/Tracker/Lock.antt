-- ===== src/Tracker/Lock.antt =====
-- When `record_biometric_match` confirms and locks (src/ibvap/core/tracker.py).
use ibvap.Common.{
  ℕ, zero, suc, ◌+◌, ◌-◌, ◌≤◌, ◌≡◌, refl, ◌∙◌, ap, Bool, true, false, Option, none, some, List, [],
  ◌∷◌, ◌++◌, String, arith, length, last_n, drop, All, string_key, last_n-append,
}
use mathlib.Core.List.{append_assoc}
use ibvap.Common.Float.{Float}
use ibvap.Tracker.Tracks.{Identity, Match, Track}
use ibvap.Tracker.Latch.{
  is_critical, reds, noted, match_locked, match_open, match_by, absent, record_biometric_match,
}

module _ {F : Type 0} where
  -- A locked track has an identity.
  abbrev pub IsLatched : Track F → Type 0
  IsLatched t = t.identity_locked ≡ true → absent t.identity ≡ false

  abbrev pub entry_of : Option (Identity F) → Option String
  entry_of none = none
  entry_of (some i) = some i.entry_id

  -- The track is locked to the entry.
  abbrev pub IsLockedTo : Track F → String → Type 0
  IsLockedTo t entry = (t.identity_locked ≡ true) × (entry_of t.identity ≡ some entry)

  -- A good answer: the latch is kept, and `true` comes with a lock on the entry of the match.
  abbrev pub Answers : Match F → Track F × Bool → Type 0
  Answers m r = IsLatched r.0 × (r.1 ≡ true → IsLockedTo r.0 m.entry_id)

module _ {F : Type 0} ⦃f : Float F⦄ where
  match_locked-Answers :
      (t : Track F) (cur : Identity F) (m : Match F) (n : ℕ)
      → t.identity_locked ≡ true
      → t.identity ≡ some cur
      → Answers m (match_locked t cur m n)
  unfolding match_locked
  match_locked-Answers t cur m n l e = ground arith

  match_open-Answers :
      (t : Track F) (m : Match F) (n : ℕ) → t.identity_locked ≡ false → Answers m (match_open t m n)
  unfolding match_open
  match_open-Answers t m n l = ground arith

  match_by-Answers :
      (l : Bool) (o : Option (Identity F)) (t : Track F) (m : Match F) (n : ℕ)
      → t.identity_locked ≡ l
      → t.identity ≡ o
      → IsLatched t
      → Answers m (match_by l o t m n)
  unfolding match_by
  match_by-Answers true (some cur) t m n e g h = match_locked-Answers t cur m n e g
  match_by-Answers true none t m n e g h = absurd (ground arith)
  match_by-Answers false o t m n e g h = match_open-Answers t m n e

  -- On a track that has an identity whenever it is locked, the method keeps that, and returns True
  -- only with the track locked to the entry of the match: what the caller credits as a sighting is
  -- the identity that the track then bears.
  pub record_biometric_match-Answers :
      (t : Track F) (m : Match F) → IsLatched t → Answers m (record_biometric_match t m)
  unfolding record_biometric_match
  record_biometric_match-Answers t m h =
      let t' = noted t m in
      match_by-Answers t'.identity_locked t'.identity t' m
        (reds m.entry_id (last_n 3 t'.match_history)) refl refl h

  -- The track after a sequence of matches.
  unfoldable pub watch : Track F → List (Match F) → Track F
  watch t [] = t
  watch t (m ∷ ms) = watch (record_biometric_match t m).0 ms

module _ {F : Type 0} where
  reds-drop-le : (e : String) (n : ℕ) (l : List (Match F)) → reds e (drop n l) ≤ reds e l
  reds-drop-le e zero l = omega arith
  reds-drop-le e (suc n) [] = omega arith
  reds-drop-le e (suc n) (m ∷ l) = ground (arith, reds-drop-le e n l)

  reds-last_n-le : (e : String) (n : ℕ) (l : List (Match F)) → reds e (last_n n l) ≤ reds e l
  reds-last_n-le e n l = reds-drop-le e (length l - n) l

  reds_cons :
      (e : String) (m : Match F) (l : List (Match F)) → reds e (m ∷ l) ≡ reds e (m ∷ []) + reds e l
  reds_cons e m l = ground arith

  reds-append : (e : String) (l k : List (Match F)) → reds e (l ++ k) ≡ reds e l + reds e k
  reds-append e [] k = omega arith
  reds-append e (m ∷ l) k = ground (arith, reds-append e l k)

module _ {F : Type 0} ⦃f : Float F⦄ where
  match_open-unlocked :
      (t : Track F) (m : Match F) (n : ℕ)
      → t.identity_locked ≡ false
      → is_critical m.threat_level ≡ false
      → n ≤ 1
      → ((match_open t m n).0.identity_locked ≡ false)
        × ((match_open t m n).0.match_history ≡ t.match_history)
  unfolding match_open
  match_open-unlocked t m n l c h = ground arith

  match_by_open :
      (l : Bool) (o : Option (Identity F)) (t : Track F) (m : Match F) (n : ℕ)
      → l ≡ false
      → match_by l o t m n ≡ match_open t m n
  unfolding match_by
  match_by_open false o t m n e = refl
  match_by_open true o t m n e = absurd (cc)

  -- With `done` behind it, one more match that is not critical and is at most the first RED one of
  -- its entry leaves the track unlocked.
  step_unlocked :
      (done : List (Match F)) (t : Track F) (m : Match F)
      → t.match_history ≡ last_n 6 done
      → t.identity_locked ≡ false
      → is_critical m.threat_level ≡ false
      → reds m.entry_id (done ++ m ∷ []) ≤ 1
      → let t' = (record_biometric_match t m).0 in
        (t'.identity_locked ≡ false) × (t'.match_history ≡ last_n 6 (done ++ m ∷ []))
  unfolding record_biometric_match
  step_unlocked done t m h l c r =
      let t' = noted t m in
      let kept : t'.match_history ≡ last_n 6 (done ++ m ∷ []) =
        ap (λ (k : List (Match F)). last_n 6 (k ++ m ∷ [])) h ∙ last_n-append 6 done m in
      let few : reds m.entry_id (last_n 3 t'.match_history) ≤ 1 = omega (
        arith,
        reds-last_n-le m.entry_id 3 t'.match_history,
        reds-last_n-le m.entry_id 6 (done ++ m ∷ []),
        ap (reds m.entry_id) kept,
      ) in
      let after = match_open-unlocked t' m (reds m.entry_id (last_n 3 t'.match_history)) l c few in
      rw
        (match_by_open t'.identity_locked t'.identity t' m
          (reds m.entry_id (last_n 3 t'.match_history)) l)
        (after.0, after.1 ∙ kept)

  unlocked_from :
      (done ms : List (Match F)) (t : Track F)
      → t.match_history ≡ last_n 6 done
      → t.identity_locked ≡ false
      → All (λ (m : Match F). is_critical m.threat_level ≡ false) ms
      → ((e : String) → reds e (done ++ ms) ≤ 1)
      → (watch t ms).identity_locked ≡ false
  unfolding watch
  unlocked_from done [] t h l c r = l
  unlocked_from done (m ∷ ms) t h l c r =
      let one : reds m.entry_id (done ++ m ∷ []) ≤ 1 = omega (
        arith,
        r m.entry_id,
        reds-append m.entry_id done (m ∷ []),
        reds-append m.entry_id done (m ∷ ms),
        reds_cons m.entry_id m ms,
      ) in
      let (still, kept) = step_unlocked done t m h l c.0 one in
      unlocked_from (done ++ m ∷ []) ms (record_biometric_match t m).0 kept still c.1
        (λ e. rw append_assoc (r e))

  -- On a new track no single RED match locks an identity that is not critical: as long as every entry
  -- has been matched RED at most once, the track is not locked, whatever AMBER matches came between.
  pub watch-unlocked :
      (t : Track F) (ms : List (Match F))
      → t.match_history ≡ []
      → t.identity_locked ≡ false
      → All (λ (m : Match F). is_critical m.threat_level ≡ false) ms
      → ((e : String) → reds e ms ≤ 1)
      → (watch t ms).identity_locked ≡ false
  watch-unlocked t ms h l c r = unlocked_from [] ms t h l c r
