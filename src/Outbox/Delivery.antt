-- ===== src/Outbox/Delivery.antt =====
-- Delivery marks, clears, and whole histories of the outbox (src/ibvap/events/outbox.py).
use ibvap.Common.{
  ℕ, ◌≡◌, refl, inl, inr, false, not, Option, none, some, String, contains, select, same, arith,
  string_key, nat_key, Bool-cases, string_eq?, ◌&&◌, select-select, ◌==◌,
}
use ibvap.Common.Dict.{lookup}
use ibvap.Outbox.Defs.{
  Entry, Store, Limits, Draw, update, mark_at, mark_delivered, clear_events, clear_all, write,
  write_new, existing, list_outbox,
}
use ibvap.Outbox.Consistency.{IsValid, write-IsValid}

done_is_not_pending : same {A = String} "done" "pending" ≡ false
unfolding string_eq?
done_is_not_pending = refl

-- Whether an entry is pending once `x` has been marked.
pending_after_mark :
    (entry_at : ℕ → Entry) (x a : ℕ)
    → same (update entry_at x (record (entry_at x) { status = "done" }) a).status "pending"
      ≡ (not (a == x) && same (entry_at a).status "pending")
pending_after_mark entry_at x a = elim (Bool-cases (a == x)) [
  | inl e ↦ rw (e, done_is_not_pending)
  | inr e ↦ rw e
]

-- Marking an indexed id takes its entry off the pending list and leaves the rest of the list, and its
-- order, alone; an unknown id changes nothing.
pub mark_delivered-pending :
    (s : Store) (id : String)
    → (lookup id s.id_index ≡ none → mark_delivered s id ≡ s)
      × ((a : ℕ)
          → lookup id s.id_index ≡ some a
          → list_outbox (mark_delivered s id) (some "pending")
            ≡ select (λ b. not (b == a)) (list_outbox s (some "pending")))
unfolding mark_delivered list_outbox
mark_delivered-pending s id = (
  (λ e. rw (e, mark_at)),
  λ a e.
      rw (e, mark_at)
        (select-select _ (λ b. not (b == a)) _ s.outbox (pending_after_mark s.entry_at a)),
)

mark_at-IsValid :
    (lim : Limits) (s : Store) (o : Option ℕ) → IsValid lim s → IsValid lim (mark_at s o)
mark_at-IsValid lim s none v = v
mark_at-IsValid lim s (some a) v = record {
  events_bounded = v.events_bounded;
  outbox_bounded = v.outbox_bounded;
  indexed = record {
    event_index = v.indexed.event_index;
    outbox_index = λ j b e. ground (arith, v.indexed.outbox_index j b e);
    id_index = λ j b e. ground (arith, v.indexed.id_index j b e);
    made = v.indexed.made;
  };
}

clear_events-IsValid : (lim : Limits) (s : Store) → IsValid lim s → IsValid lim (clear_events s).0
unfolding clear_events
clear_events-IsValid lim s v = record {
  events_bounded = omega arith;
  outbox_bounded = v.outbox_bounded;
  indexed = record {
    event_index = λ j b e. absurd (cc);
    outbox_index = v.indexed.outbox_index;
    id_index = v.indexed.id_index;
    made = v.indexed.made;
  };
}

clear_all-IsValid : (lim : Limits) (s : Store) → IsValid lim (clear_all s)
unfolding clear_all
clear_all-IsValid lim s = record {
  events_bounded = omega arith;
  outbox_bounded = omega arith;
  indexed = record {
    event_index = λ j b e. absurd (cc);
    outbox_index = λ j b e. absurd (cc);
    id_index = λ j b e. absurd (cc);
    made = λ a m. absurd (cc);
  };
}

-- What callers do between two states. A write brings an event object that is not held yet, or a key that
-- has an entry; a held object under a key without one is beyond these histories, since the write would
-- change the object that another key leads to.
pub data Step (lim : Limits) (s : Store) : Store → Type 0 where
  writes :
      (a : ℕ) (key : Option String) (topic : String) (entry_id : Option String) (d : Draw)
      → contains a s.events ≡ false
      → Step lim s (write lim s a key topic entry_id d).0
  repeats :
      (a : ℕ) (key : Option String) (topic : String) (entry_id : Option String) (d : Draw)
      → {old : ℕ} → existing s key ≡ some old
      → Step lim s (write lim s a key topic entry_id d).0
  delivers : (id : String) → Step lim s (mark_delivered s id)
  clears_events : Step lim s (clear_events s).0
  clears_all : Step lim s (clear_all s)

pub data Reach (lim : Limits) (s : Store) : Store → Type 0 where
  here : Reach lim s s
  next : {t u : Store} → Reach lim s t → Step lim t u → Reach lim s u

Step-IsValid : {lim : Limits} {s t : Store} → IsValid lim s → Step lim s t → IsValid lim t
Step-IsValid {lim} {s} v (writes a key topic entry_id d fresh) =
    write-IsValid lim s a key topic entry_id d fresh v
Step-IsValid {lim} {s} v (repeats a key topic entry_id d known) =
    unfold write in rw (known, write_new) v
Step-IsValid {lim} {s} v (delivers id) =
    unfold mark_delivered in mark_at-IsValid lim s (lookup id s.id_index) v
Step-IsValid {lim} {s} v clears_events = clear_events-IsValid lim s v
Step-IsValid {lim} {s} v clears_all = clear_all-IsValid lim s

-- In every history of deliveries, clears and writes, each of which brings an event object that is not
-- held or a key that has an entry already, the deques of a valid store stay within their limits, and the
-- indexes lead only to objects that are held and bear the key or the id.
pub Reach-IsValid : {lim : Limits} {s t : Store} → IsValid lim s → Reach lim s t → IsValid lim t
Reach-IsValid v here = v
Reach-IsValid v (next r st) = Step-IsValid (Reach-IsValid v r) st
