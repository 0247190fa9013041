-- ===== src/Tracker/Precedence.antt =====
-- Which identity a locked track keeps (src/ibvap/core/tracker.py).
use ibvap.Common.{
  ℕ, ◌≡◌, refl, sym, subst, ◌⊎◌, inl, Bool, true, false, Option, none, some, List, [], ◌∷◌, String,
  arith, All, last_n, string_key, ◌≢◌,
}
use ibvap.Common.Float.{Float}
use ibvap.Tracker.Tracks.{Identity, Match, Track}
use ibvap.Tracker.Latch.{
  is_critical, is_red, reds, noted, match_locked, match_open, match_by, is_critical_identity,
  record_biometric_match,
}
use ibvap.Tracker.Lock.{entry_of, watch, IsLockedTo, IsLatched}

module _ {F : Type 0} where
  -- Locked, and to a critical identity of the entry.
  abbrev pub IsCriticalLock : Track F → String → Type 0
  IsCriticalLock t entry = IsLockedTo t entry × (is_critical_identity t.identity ≡ true)

module _ {F : Type 0} ⦃f : Float F⦄ where
  match_locked_critical :
      (t : Track F) (cur : Identity F) (m : Match F) (n : ℕ) (entry : String)
      → t.identity ≡ some cur
      → IsCriticalLock t entry
      → is_critical m.threat_level ≡ false
      → IsCriticalLock (match_locked t cur m n).0 entry
  unfolding match_locked
  match_locked_critical t cur m n entry e h c = ground arith

  match_by_critical :
      (l : Bool) (o : Option (Identity F)) (t : Track F) (m : Match F) (n : ℕ) (entry : String)
      → t.identity_locked ≡ l
      → t.identity ≡ o
      → IsCriticalLock t entry
      → is_critical m.threat_level ≡ false
      → IsCriticalLock (match_by l o t m n).0 entry
  unfolding match_by
  match_by_critical true (some cur) t m n entry l e h c =
      match_locked_critical t cur m n entry e h c
  match_by_critical true none t m n entry l e h c = absurd (ground arith)
  match_by_critical false o t m n entry l e h c = absurd (cc)

  -- A track that is locked to a critical target stays locked to it through any matches of targets
  -- that are not critical, however many and whatever their scores.
  pub watch-IsCriticalLock :
      (t : Track F) (ms : List (Match F)) (entry : String)
      → IsCriticalLock t entry
      → All (λ (m : Match F). is_critical m.threat_level ≡ false) ms
      → IsCriticalLock (watch t ms) entry
  unfolding watch record_biometric_match
  watch-IsCriticalLock t [] entry h c = h
  watch-IsCriticalLock t (m ∷ ms) entry h c =
      let t' = noted t m in
      watch-IsCriticalLock (record_biometric_match t m).0 ms entry
        (match_by_critical t'.identity_locked t'.identity t' m
          (reds m.entry_id (last_n 3 t'.match_history)) entry refl refl h c.0)
        c.1

  match_locked_amber :
      (t : Track F) (cur : Identity F) (m : Match F) (n : ℕ)
      → is_red m.tier ≡ false
      → (match_locked t cur m n).0 ≡ t
  unfolding match_locked
  match_locked_amber t cur m n r = ground arith

  match_by_amber :
      (l : Bool) (o : Option (Identity F)) (t : Track F) (m : Match F) (n : ℕ)
      → t.identity_locked ≡ l
      → t.identity ≡ o
      → t.identity_locked ≡ true
      → IsLatched t
      → is_red m.tier ≡ false
      → (match_by l o t m n).0 ≡ t
  unfolding match_by
  match_by_amber true (some cur) t m n l e k h r = match_locked_amber t cur m n r
  match_by_amber true none t m n l e k h r = absurd (ground arith)
  match_by_amber false o t m n l e k h r = absurd (cc)

  -- Matches that are not RED never change the identity of a locked track, nor unlock it.
  pub watch_amber :
      (t : Track F) (ms : List (Match F))
      → t.identity_locked ≡ true
      → IsLatched t
      → All (λ (m : Match F). is_red m.tier ≡ false) ms
      → ((watch t ms).identity ≡ t.identity) × ((watch t ms).identity_locked ≡ true)
  unfolding watch
  watch_amber t [] k h r = (refl, k)
  watch_amber t (m ∷ ms) k h r =
      let t' = noted t m in
      let same_track : (record_biometric_match t m).0 ≡ t' =
        unfold record_biometric_match in
        match_by_amber t'.identity_locked t'.identity t' m
          (reds m.entry_id (last_n 3 t'.match_history)) refl refl k h r.0 in
      subst
        (λ (u : Track F).
          ((watch u ms).identity ≡ t.identity) × ((watch u ms).identity_locked ≡ true))
        (sym same_track) (watch_amber t' ms k h r.1)

  -- What a RED match of a critical target does not get past: a lock on another critical target.
  abbrev pub IsHeldFrom : Track F → Match F → Type 0
  IsHeldFrom t m =
      (t.identity_locked ≡ true)
      × (is_critical_identity t.identity ≡ true)
      × (entry_of t.identity ≢ some m.entry_id)

  match_locked_takes :
      (t : Track F) (cur : Identity F) (m : Match F) (n : ℕ)
      → t.identity_locked ≡ true
      → t.identity ≡ some cur
      → is_critical m.threat_level ≡ true
      → is_red m.tier ≡ true
      → IsLockedTo (match_locked t cur m n).0 m.entry_id ⊎ IsHeldFrom t m
  unfolding match_locked
  match_locked_takes t cur m n l e c r = ground arith

  match_open_takes :
      (t : Track F) (m : Match F) (n : ℕ)
      → is_critical m.threat_level ≡ true
      → is_red m.tier ≡ true
      → IsLockedTo (match_open t m n).0 m.entry_id
  unfolding match_open
  match_open_takes t m n c r = ground arith

  match_by_takes :
      (l : Bool) (o : Option (Identity F)) (t : Track F) (m : Match F) (n : ℕ)
      → t.identity_locked ≡ l
      → t.identity ≡ o
      → is_critical m.threat_level ≡ true
      → is_red m.tier ≡ true
      → IsLockedTo (match_by l o t m n).0 m.entry_id ⊎ IsHeldFrom t m
  unfolding match_by
  match_by_takes true (some cur) t m n l e c r = match_locked_takes t cur m n l e c r
  match_by_takes true none t m n l e c r = inl (match_open_takes t m n c r)
  match_by_takes false o t m n l e c r = inl (match_open_takes t m n c r)

  -- A RED match of a critical target locks the track to that target at once, unless the track is
  -- locked to another critical target.
  pub critical_locks :
      (t : Track F) (m : Match F)
      → is_critical m.threat_level ≡ true
      → is_red m.tier ≡ true
      → IsLockedTo (record_biometric_match t m).0 m.entry_id ⊎ IsHeldFrom t m
  unfolding record_biometric_match
  critical_locks t m c r =
      let t' = noted t m in
      match_by_takes t'.identity_locked t'.identity t' m
        (reds m.entry_id (last_n 3 t'.match_history)) refl refl c r
