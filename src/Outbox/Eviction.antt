-- ===== src/Outbox/Eviction.antt =====
-- The eviction loops of `transactional_write` (src/ibvap/events/outbox.py).
use ibvap.Common.{
  ℕ, suc, ◌≤◌, ◌<◌, ◌≡◌, ◌≢◌, ◌⊎◌, inl, inr, true, false, Option, none, some, List, [], ◌∷◌, ◌++◌,
  String, ltb, length, contains, arith, string_key, nat_key, Bool-cases, ap,
}
use ibvap.Common.Dict.{lookup, erase, lookup-insert, lookup-erase}
use ibvap.Outbox.Defs.{Event, Entry, truthy, forget, remember, evict_events, evict_outbox}

pub forget-lookup :
    (key : Option String) (a : ℕ) (j : String) (index : List (String × ℕ)) {b : ℕ}
    → lookup j (forget key a index) ≡ some b
    → lookup j index ≡ some b
unfolding forget
forget-lookup none a j index e = e
forget-lookup (some k) a j index e = ground (arith, lookup-erase j k index)

pub lookup-forget_self :
    (key : Option String) (a : ℕ) (j : String) (index : List (String × ℕ))
    → key ≡ some j
    → truthy (some j) ≡ true
    → lookup j (forget key a index) ≢ some a
unfolding forget
lookup-forget_self none a j index k t e = cc
lookup-forget_self (some i) a j index k t e =
    ground (arith, lookup-erase i i index, lookup-erase j i index)

pub lookup-forget_ne :
    (key : Option String) (a b : ℕ) (j : String) (index : List (String × ℕ))
    → b ≢ a
    → lookup j index ≡ some b
    → lookup j (forget key a index) ≡ some b
unfolding forget
lookup-forget_ne none a b j index n e = e
lookup-forget_ne (some k) a b j index n e = ground (arith, lookup-erase j k index)

-- An index of keys whose targets stand in the deque and bear the key.
abbrev pub IsIndex : (ℕ → Option String) → List ℕ → List (String × ℕ) → Type 0
IsIndex key_of l index =
    (j : String) (b : ℕ)
    → lookup j index ≡ some b
    → (contains b l ≡ true) × (key_of b ≡ some j) × (truthy (some j) ≡ true)

-- The same for the index of ids.
abbrev pub IsIdIndex : (ℕ → String) → List ℕ → List (String × ℕ) → Type 0
IsIdIndex id_of l ids =
    (j : String) (b : ℕ) → lookup j ids ≡ some b → (contains b l ≡ true) × (id_of b ≡ j)

forget-IsIndex :
    (key_of : ℕ → Option String) (a : ℕ) (l : List ℕ) (index : List (String × ℕ))
    → IsIndex key_of (a ∷ l) index
    → IsIndex key_of l (forget (key_of a) a index)
forget-IsIndex key_of a l index h j b e =
    let (inside, bears, t) = h j b (forget-lookup (key_of a) a j index e) in
    let other : b ≢ a = λ p. lookup-forget_self (key_of a) a j index (cc) t (cc) in
    (ground arith, bears, t)

pub evict_events-length :
    (event_at : ℕ → Event) (limit : ℕ) (l : List ℕ) (index : List (String × ℕ))
    → length (evict_events event_at limit l index).0 ≤ limit
unfolding evict_events
evict_events-length event_at limit [] index = omega arith
evict_events-length event_at limit (a ∷ rest) index =
    ground (arith, evict_events-length event_at limit rest (forget (event_at a).dedup_key a index))

pub evict_events-IsIndex :
    (event_at : ℕ → Event) (limit : ℕ) (l : List ℕ) (index : List (String × ℕ))
    → IsIndex (λ a. (event_at a).dedup_key) l index
    → let left = evict_events event_at limit l index in
      IsIndex (λ a. (event_at a).dedup_key) left.0 left.1
unfolding evict_events
evict_events-IsIndex event_at limit [] index h = h
evict_events-IsIndex event_at limit (a ∷ rest) index h =
    elim (Bool-cases (ltb limit (suc (length rest)))) [
      | inl e ↦ rw e (
          evict_events-IsIndex event_at limit rest (forget (event_at a).dedup_key a index)
            (forget-IsIndex (λ b. (event_at b).dedup_key) a rest index h))
      | inr e ↦ rw e h
    ]

-- The newest event stays, and so does the key that leads to it.
pub evict_events-newest :
    (event_at : ℕ → Event) (limit x : ℕ) (j : String) (l : List ℕ) (index : List (String × ℕ))
    → 0 < limit
    → contains x l ≡ false
    → lookup j index ≡ some x
    → lookup j (evict_events event_at limit (l ++ x ∷ []) index).1 ≡ some x
unfolding evict_events
evict_events-newest event_at limit x j [] index p n e = ground arith
evict_events-newest event_at limit x j (a ∷ rest) index p n e =
    let other : x ≢ a = ground arith in
    elim (Bool-cases (ltb limit (suc (length (rest ++ x ∷ []))))) [
      | inl full ↦ rw full (
          evict_events-newest event_at limit x j rest (forget (event_at a).dedup_key a index) p
            (ground arith) (lookup-forget_ne (event_at a).dedup_key a x j index other e))
      | inr room ↦ rw room e
    ]

erase-IsIdIndex :
    (id_of : ℕ → String) (a : ℕ) (l : List ℕ) (ids : List (String × ℕ))
    → IsIdIndex id_of (a ∷ l) ids
    → IsIdIndex id_of l (erase (id_of a) ids)
erase-IsIdIndex id_of a l ids h j b e =
    let kept : lookup j ids ≡ some b = ground (arith, lookup-erase j (id_of a) ids) in
    let (inside, bears) = h j b kept in
    let other : b ≢ a = λ p. ground (arith, lookup-erase j (id_of a) ids, ap id_of p) in
    (ground arith, bears)

pub evict_outbox-length :
    (entry_at : ℕ → Entry) (limit : ℕ) (l : List ℕ) (ids index : List (String × ℕ))
    → length (evict_outbox entry_at limit l ids index).0 ≤ limit
unfolding evict_outbox
evict_outbox-length entry_at limit [] ids index = omega arith
evict_outbox-length entry_at limit (a ∷ rest) ids index = ground (
  arith,
  evict_outbox-length entry_at limit rest (erase (entry_at a).id ids)
      (forget (entry_at a).dedup_key a index),
)

pub evict_outbox-IsIndex :
    (entry_at : ℕ → Entry) (limit : ℕ) (l : List ℕ) (ids index : List (String × ℕ))
    → IsIndex (λ a. (entry_at a).dedup_key) l index
    → IsIdIndex (λ a. (entry_at a).id) l ids
    → let left = evict_outbox entry_at limit l ids index in
      IsIndex (λ a. (entry_at a).dedup_key) left.0 left.2
      × IsIdIndex (λ a. (entry_at a).id) left.0 left.1
unfolding evict_outbox
evict_outbox-IsIndex entry_at limit [] ids index h k = (h, k)
evict_outbox-IsIndex entry_at limit (a ∷ rest) ids index h k =
    elim (Bool-cases (ltb limit (suc (length rest)))) [
      | inl e ↦ rw e (
          evict_outbox-IsIndex entry_at limit rest (erase (entry_at a).id ids)
            (forget (entry_at a).dedup_key a index)
            (forget-IsIndex (λ b. (entry_at b).dedup_key) a rest index h)
            (erase-IsIdIndex (λ b. (entry_at b).id) a rest ids k))
      | inr e ↦ rw e (h, k)
    ]

-- The newest entry stays, and so does the key that leads to it.
pub evict_outbox-newest :
    (entry_at : ℕ → Entry) (limit x : ℕ) (j : String) (l : List ℕ) (ids index : List (String × ℕ))
    → 0 < limit
    → contains x l ≡ false
    → lookup j index ≡ some x
    → lookup j (evict_outbox entry_at limit (l ++ x ∷ []) ids index).2 ≡ some x
unfolding evict_outbox
evict_outbox-newest entry_at limit x j [] ids index p n e = ground arith
evict_outbox-newest entry_at limit x j (a ∷ rest) ids index p n e =
    let other : x ≢ a = ground arith in
    elim (Bool-cases (ltb limit (suc (length (rest ++ x ∷ []))))) [
      | inl full ↦ rw full (
          evict_outbox-newest entry_at limit x j rest (erase (entry_at a).id ids)
            (forget (entry_at a).dedup_key a index) p (ground arith)
            (lookup-forget_ne (entry_at a).dedup_key a x j index other e))
      | inr room ↦ rw room e
    ]

pub lookup-remember :
    (key : Option String) (a : ℕ) (j : String) (index : List (String × ℕ)) {b : ℕ}
    → lookup j (remember key a index) ≡ some b
    → (key ≡ some j) × (truthy key ≡ true) × (b ≡ a) ⊎ (lookup j index ≡ some b)
unfolding remember
lookup-remember none a j index e = inr e
lookup-remember (some k) a j index e = ground (arith, lookup-insert j k a index)

-- Eviction only removes.
pub evict_outbox-contains :
    (entry_at : ℕ → Entry) (limit b : ℕ) (l : List ℕ) (ids index : List (String × ℕ))
    → contains b (evict_outbox entry_at limit l ids index).0 ≡ true
    → contains b l ≡ true
unfolding evict_outbox
evict_outbox-contains entry_at limit b [] ids index h = h
evict_outbox-contains entry_at limit b (a ∷ rest) ids index h = ground (
  arith,
  evict_outbox-contains entry_at limit b rest (erase (entry_at a).id ids)
      (forget (entry_at a).dedup_key a index),
)
