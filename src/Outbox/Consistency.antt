-- ===== src/Outbox/Consistency.antt =====
-- The bounds of the deques and the agreement of the indexes with them (src/ibvap/events/outbox.py).
use ibvap.Common.{
  ℕ, ◌≤◌, ◌<◌, ◌≡◌, ◌≢◌, inl, inr, true, false, ◌||◌, Option, List, [], ◌∷◌, ◌++◌, String, ◌==◌,
  length, contains, same, arith, string_key, nat_key, Bool-cases, Option-cases, ap,
}
use ibvap.Common.Dict.{insert, lookup-insert}
use ibvap.Outbox.Defs.{Store, Limits, Draw, remember, existing, append_both, evict, write, value_or}
use ibvap.Outbox.Eviction.{
  IsIndex, IsIdIndex, evict_events-length, evict_events-IsIndex, evict_outbox-length,
  evict_outbox-IsIndex, lookup-remember, evict_outbox-contains,
}

abbrev pub event_key : Store → ℕ → Option String
event_key s a = (s.event_at a).dedup_key

abbrev pub entry_key : Store → ℕ → Option String
entry_key s a = (s.entry_at a).dedup_key

abbrev pub entry_id_of : Store → ℕ → String
entry_id_of s a = (s.entry_at a).id

-- The agreement, without the bounds: each index leads to objects of its deque that bear the key, and
-- the entries of the deque have been made.
pub record IsIndexed (s : Store) : Type 0 where
  pub event_index : IsIndex (event_key s) s.events s.event_index
  pub outbox_index : IsIndex (entry_key s) s.outbox s.outbox_index
  pub id_index : IsIdIndex (entry_id_of s) s.outbox s.id_index
  pub made : (a : ℕ) → contains a s.outbox ≡ true → a < s.next_entry

pub record IsValid (lim : Limits) (s : Store) : Type 0 where
  pub events_bounded : length s.events ≤ lim.max_events
  pub outbox_bounded : length s.outbox ≤ lim.max_outbox
  pub indexed : IsIndexed s

contains-append : (a x : ℕ) (l : List ℕ) → contains a (l ++ x ∷ []) ≡ (contains a l || (x == a))
contains-append a x [] = ground arith
contains-append a x (b ∷ l) = ground (arith, contains-append a x l)

not_held-ne : (b x : ℕ) (l : List ℕ) → contains b l ≡ true → contains x l ≡ false → b ≢ x
not_held-ne b x l h n p = let both : contains x l ≡ true = rw p at h in cc

-- An index after a new object `x` bears a key, where the others keep theirs.
remember-IsIndex :
    (before after : ℕ → Option String) (key : Option String) (x : ℕ) (l : List ℕ)
    (index : List (String × ℕ))
    → IsIndex before l index
    → contains x l ≡ false
    → after x ≡ key
    → ((b : ℕ) → b ≢ x → after b ≡ before b)
    → IsIndex after (l ++ x ∷ []) (remember key x index)
remember-IsIndex before after key x l index h fresh bears same_else j b e =
    elim (lookup-remember key x j index e) [
      | inl (k, t, p) ↦ (ground (arith, contains-append b x l), cc (ap after p), rw k at t)
      | inr old ↦
          let (inside, bore, t) = h j b old in
          let other = not_held-ne b x l inside fresh in
          (ground (arith, contains-append b x l), cc (same_else b other), t)
    ]

insert-IsIdIndex :
    (before after : ℕ → String) (key : String) (x : ℕ) (l : List ℕ) (ids : List (String × ℕ))
    → IsIdIndex before l ids
    → contains x l ≡ false
    → after x ≡ key
    → ((b : ℕ) → b ≢ x → after b ≡ before b)
    → IsIdIndex after (l ++ x ∷ []) (insert key x ids)
insert-IsIdIndex before after key x l ids h fresh bears same_else j b e =
    elim (Bool-cases (same j key)) [
      | inl hit ↦
          let p : x ≡ b = ground (arith, lookup-insert j key x ids) in
          (ground (arith, contains-append b x l), ground (arith, ap after p))
      | inr miss ↦
          let (inside, bore) = h j b (ground (arith, lookup-insert j key x ids)) in
          let other = not_held-ne b x l inside fresh in
          (ground (arith, contains-append b x l), cc (same_else b other))
    ]

pub not_made : (s : Store) → IsIndexed s → contains s.next_entry s.outbox ≡ false
not_made s v = elim (Bool-cases (contains s.next_entry s.outbox)) [
  | inl held ↦ absurd (omega (arith, v.made s.next_entry held))
  | inr new ↦ new
]

append_both-IsIndexed :
    (s : Store) (a : ℕ) (key : Option String) (topic : String) (entry_id : Option String) (d : Draw)
    → contains a s.events ≡ false
    → IsIndexed s
    → IsIndexed (append_both s a key topic entry_id d)
unfolding append_both
append_both-IsIndexed s a key topic entry_id d fresh v =
    let later = append_both s a key topic entry_id d in
    let new = not_made s v in
    record {
      event_index =
          remember-IsIndex (event_key s) (event_key later) key a s.events s.event_index
            v.event_index fresh (ground arith) (λ b n. ground arith);
      outbox_index =
          remember-IsIndex (entry_key s) (entry_key later) key s.next_entry s.outbox s.outbox_index
            v.outbox_index new (ground arith) (λ b n. ground arith);
      id_index =
          insert-IsIdIndex (entry_id_of s) (entry_id_of later) (value_or entry_id d.entry_uuid)
            s.next_entry s.outbox s.id_index v.id_index new (ground arith) (λ b n. ground arith);
      made = λ b m. ground (arith, contains-append b s.next_entry s.outbox, v.made b);
    }

evict-IsValid : (lim : Limits) (s : Store) → IsIndexed s → IsValid lim (evict lim s)
unfolding evict
evict-IsValid lim s v =
    let out =
      evict_outbox-IsIndex s.entry_at lim.max_outbox s.outbox s.id_index s.outbox_index
        v.outbox_index v.id_index in
    record {
      events_bounded = evict_events-length s.event_at lim.max_events s.events s.event_index;
      outbox_bounded =
          evict_outbox-length s.entry_at lim.max_outbox s.outbox s.id_index s.outbox_index;
      indexed = record {
        event_index =
            evict_events-IsIndex s.event_at lim.max_events s.events s.event_index v.event_index;
        outbox_index = out.0;
        id_index = out.1;
        made = λ a m. v.made a (
            evict_outbox-contains s.entry_at lim.max_outbox a s.outbox s.id_index s.outbox_index m);
      };
    }

-- Writing an event object that the deque does not hold yet keeps both deques within their limits, and
-- both indexes of keys and the index of ids leading only to held objects that bear the key or the id.
pub write-IsValid :
    (lim : Limits) (s : Store) (a : ℕ) (key : Option String) (topic : String)
    (entry_id : Option String) (d : Draw)
    → contains a s.events ≡ false
    → IsValid lim s
    → IsValid lim (write lim s a key topic entry_id d).0
unfolding write
write-IsValid lim s a key topic entry_id d fresh v = elim (Option-cases (existing s key)) [
  | inl e ↦ rw e (
      evict-IsValid lim (append_both s a key topic entry_id d)
        (append_both-IsIndexed s a key topic entry_id d fresh v.indexed))
  | inr (b, e) ↦ rw e v
]
