-- ===== src/Outbox/Defs.antt =====
-- The objects, the module's state and its operations (events/outbox.py).
use ibvap.Common.{
  ℕ, suc, ◌+◌, Bool, true, false, ◌&&◌, Option, none, some, List, [], ◌∷◌, ◌++◌, String, ltb, ◌==◌,
  if◌then◌else◌, length, select, is_some, same, string_key, nat_key,
}
use ibvap.Common.Dict.{lookup, insert, erase}

-- The fields of an event that the outbox reads or writes; `body` stands for the others.
pub record Event : Type 0 where
  pub id : Option String
  pub dedup_key : Option String
  pub created_at : Option ℕ
  pub body : String

pub record Entry : Type 0 where
  pub id : String
  pub topic : String
  pub payload : ℕ
  pub dedup_key : Option String
  pub status : String
  pub created_at : ℕ

-- The module's globals, over the heaps of events and of entries. Entries are made by the module
-- alone, one address after the other.
pub record Store : Type 0 where
  pub event_at : ℕ → Event
  pub entry_at : ℕ → Entry
  pub next_entry : ℕ
  pub events : List ℕ
  pub outbox : List ℕ
  pub event_index : List (String × ℕ)
  pub outbox_index : List (String × ℕ)
  pub id_index : List (String × ℕ)

-- `MAX_EVENTS` and `MAX_OUTBOX`.
pub record Limits : Type 0 where
  pub max_events : ℕ
  pub max_outbox : ℕ

abbrev pub limits : Limits
limits = record { max_events = 10000; max_outbox = 10000 }

-- What one write draws from outside: two random ids and the time.
pub record Draw : Type 0 where
  pub event_uuid : String
  pub entry_uuid : String
  pub now : ℕ

abbrev pub update {ℓ} : {A : Type ℓ} → (ℕ → A) → ℕ → A → ℕ → A
update h a v b = if b == a then v else h b

-- `d.get(key) is addr`
abbrev pub refers : Option ℕ → ℕ → Bool
refers none a = false
refers (some b) a = b == a

-- The truth of an optional text: None and the empty text are false.
abbrev pub truthy : Option String → Bool
truthy none = false
truthy (some String.[]) = false
truthy (some (String.◌∷◌ c s)) = true

-- `if key and index.get(key) is addr: index.pop(key, None)`
unfoldable pub forget : Option String → ℕ → List (String × ℕ) → List (String × ℕ)
forget none a index = index
forget (some key) a index =
    if truthy (some key) && refers (lookup key index) a then erase key index else index

-- `if dedup_key: index[dedup_key] = addr`
unfoldable pub remember : Option String → ℕ → List (String × ℕ) → List (String × ℕ)
remember none a index = index
remember (some key) a index = if truthy (some key) then insert key a index else index

-- `while len(_EVENTS) > MAX_EVENTS`: the deque and the index that are left.
unfoldable pub evict_events :
    (ℕ → Event) → ℕ → List ℕ → List (String × ℕ) → List ℕ × List (String × ℕ)
evict_events event_at limit [] index = ([], index)
evict_events event_at limit (a ∷ rest) index =
    let evicted = evict_events event_at limit rest (forget (event_at a).dedup_key a index) in
    if ltb limit (suc (length rest)) then evicted else (a ∷ rest, index)

-- `while len(_OUTBOX) > MAX_OUTBOX`: the deque, the index of ids and the index of keys.
unfoldable pub evict_outbox :
    (ℕ → Entry)
    → ℕ
    → List ℕ
    → List (String × ℕ)
    → List (String × ℕ)
    → List ℕ × List (String × ℕ) × List (String × ℕ)
evict_outbox entry_at limit [] ids index = ([], ids, index)
evict_outbox entry_at limit (a ∷ rest) ids index =
    let evicted =
      evict_outbox entry_at limit rest (erase (entry_at a).id ids)
        (forget (entry_at a).dedup_key a index) in
    if ltb limit (suc (length rest)) then evicted else (a ∷ rest, ids, index)

-- The entry that an earlier write with the same key made, if event and entry are still indexed.
unfoldable pub existing : Store → Option String → Option ℕ
existing s none = none
existing s (some key) =
    if truthy (some key) && is_some (lookup key s.event_index)
    then lookup key s.outbox_index
    else none

abbrev pub text_or : Option String → String → String
text_or none d = d
text_or (some String.[]) d = d
text_or (some (String.◌∷◌ c s)) d = String.◌∷◌ c s

abbrev pub value_or {ℓ} : {A : Type ℓ} → Option A → A → A
value_or none d = d
value_or (some a) d = a

-- The event as the write leaves it: `id`, `dedup_key` and `created_at` are set in place.
abbrev pub stamped : Event → Option String → Draw → Event
stamped e key draw = record e {
  id = some (text_or e.id draw.event_uuid);
  dedup_key = key;
  created_at = some (value_or e.created_at draw.now);
}

-- The state after the two appends and the index writes, before the evictions.
unfoldable pub append_both : Store → ℕ → Option String → String → Option String → Draw → Store
unfolding remember
append_both s a key topic entry_id draw =
    let entry : Entry = record {
      id = value_or entry_id draw.entry_uuid;
      topic = topic;
      payload = a;
      dedup_key = key;
      status = "pending";
      created_at = draw.now;
    } in
    record {
      event_at = update s.event_at a (stamped (s.event_at a) key draw);
      entry_at = update s.entry_at s.next_entry entry;
      next_entry = s.next_entry + 1;
      events = s.events ++ a ∷ [];
      outbox = s.outbox ++ s.next_entry ∷ [];
      event_index = remember key a s.event_index;
      outbox_index = remember key s.next_entry s.outbox_index;
      id_index = insert (value_or entry_id draw.entry_uuid) s.next_entry s.id_index;
    }

-- The two eviction loops.
unfoldable pub evict : Limits → Store → Store
unfolding evict_events evict_outbox forget
evict lim s =
    let ev = evict_events s.event_at lim.max_events s.events s.event_index in
    let out = evict_outbox s.entry_at lim.max_outbox s.outbox s.id_index s.outbox_index in
    record s {
      events = ev.0;
      event_index = ev.1;
      outbox = out.0;
      id_index = out.1;
      outbox_index = out.2;
    }

abbrev pub write_new :
    Option ℕ → Limits → Store → ℕ → Option String → String → Option String → Draw → Store × ℕ
write_new (some e) lim s a key topic entry_id draw = (s, e)
write_new none lim s a key topic entry_id draw =
    (evict lim (append_both s a key topic entry_id draw), s.next_entry)

-- `transactional_write` of the event at address `a`; `topic` is the first of the topics. The result
-- is the address of the entry.
unfoldable pub write :
    Limits → Store → ℕ → Option String → String → Option String → Draw → Store × ℕ
unfolding existing append_both evict
write lim s a key topic entry_id draw = write_new (existing s key) lim s a key topic entry_id draw

unfoldable pub transactional_write :
    Store → ℕ → Option String → String → Option String → Draw → Store × ℕ
unfolding write
transactional_write = write limits

-- The addresses in the list that is returned.
unfoldable pub list_events : Store → List ℕ
list_events s = s.events

-- `list_outbox(status)`: an empty or absent status selects everything.
unfoldable pub list_outbox : Store → Option String → List ℕ
list_outbox s none = s.outbox
list_outbox s (some status) =
    if truthy (some status)
    then select (λ a. same (s.entry_at a).status status) s.outbox
    else s.outbox

abbrev pub mark_at : Store → Option ℕ → Store
mark_at s none = s
mark_at s (some a) = record s {
  entry_at = update s.entry_at a (record (s.entry_at a) { status = "done" });
}

unfoldable pub mark_delivered : Store → String → Store
mark_delivered s outbox_id = mark_at s (lookup outbox_id s.id_index)

unfoldable pub clear_events : Store → Store × ℕ
clear_events s = (record s { events = []; event_index = [] }, length s.events)

unfoldable pub clear_all : Store → Store
clear_all s = record s {
  events = [];
  outbox = [];
  event_index = [];
  outbox_index = [];
  id_index = [];
}
