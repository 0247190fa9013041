-- ===== src/Outbox/Idempotence.antt =====
-- Writes with a deduplication key (src/ibvap/events/outbox.py).
use ibvap.Common.{
  ℕ, ◌<◌, ◌≡◌, inl, inr, true, false, Option, some, List, [], ◌∷◌, refl, All, String, contains,
  arith, string_key, nat_key, Option-cases,
}
use ibvap.Common.Dict.{lookup, lookup-insert}
use ibvap.Outbox.Defs.{
  Store, Limits, Draw, truthy, remember, existing, append_both, evict, write_new, write,
}
use ibvap.Outbox.Eviction.{evict_events-newest, evict_outbox-newest}
use ibvap.Outbox.Consistency.{IsValid, not_made}

lookup-remember_self :
    (k : String) (a : ℕ) (index : List (String × ℕ))
    → truthy (some k) ≡ true
    → lookup k (remember (some k) a index) ≡ some a
unfolding remember
lookup-remember_self k a index t = ground (arith, lookup-insert k k a index)

-- What a caller gives to `transactional_write`, beside the key.
pub record Write : Type 0 where
  pub event : ℕ
  pub topic : String
  pub entry_id : Option String
  pub draw : Draw

-- Writes with one key, one after the other: the store that they leave, and the entries they return.
abbrev pub write_all : Limits → String → Store → List Write → Store × List ℕ
write_all lim k s [] = (s, [])
write_all lim k s (w ∷ ws) =
    let (s', e) = write lim s w.event (some k) w.topic w.entry_id w.draw in
    let (s'', es) = write_all lim k s' ws in (s'', e ∷ es)

module _ (lim : Limits) (s : Store) (a : ℕ) (k topic : String) (entry_id : Option String) (d : Draw)
    (some_event : 0 < lim.max_events) (some_entry : 0 < lim.max_outbox)
    (fresh : contains a s.events ≡ false) (valid : IsValid lim s)
    (keyed : truthy (some k) ≡ true) where
  found_event :
      lookup k (evict lim (append_both s a (some k) topic entry_id d)).event_index ≡ some a
  unfolding evict append_both
  found_event =
      let later = append_both s a (some k) topic entry_id d in
      evict_events-newest later.event_at lim.max_events a k s.events later.event_index some_event
        fresh (lookup-remember_self k a s.event_index keyed)

  found_entry :
      lookup k (evict lim (append_both s a (some k) topic entry_id d)).outbox_index
      ≡ some s.next_entry
  unfolding evict append_both
  found_entry =
      let later = append_both s a (some k) topic entry_id d in
      evict_outbox-newest later.entry_at lim.max_outbox s.next_entry k s.outbox later.id_index
        later.outbox_index some_entry (not_made s valid.indexed)
        (lookup-remember_self k s.next_entry s.outbox_index keyed)

  found_again :
      existing (evict lim (append_both s a (some k) topic entry_id d)) (some k) ≡ some s.next_entry
  unfolding existing
  found_again = rw (keyed, found_event, found_entry)

  write_again :
      (w : Write)
      → let (s', e) = write lim s a (some k) topic entry_id d in
        write lim s' w.event (some k) w.topic w.entry_id w.draw ≡ (s', e)
  unfolding write
  write_again w = elim (Option-cases (existing s (some k))) [
    | inl e ↦ rw (e, write_new, found_again, write_new)
    | inr (old, e) ↦ rw (e, write_new, e, write_new)
  ]

  -- In a valid store whose limits are positive, a write with a non-empty key, of an event that is not held,
  -- is done once: of all the writes with that key that follow it directly, one after the other and of
  -- whatever events, each returns its entry, and none changes the store.
  pub write_twice :
      (ws : List Write)
      → let (s', e) = write lim s a (some k) topic entry_id d in
        ((write_all lim k s' ws).0 ≡ s') × All (λ x. x ≡ e) (write_all lim k s' ws).1
  write_twice [] = (refl, tt)
  write_twice (w ∷ ws) = rw (write_again w) ((write_twice ws).0, (refl, (write_twice ws).1))
