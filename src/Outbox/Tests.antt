-- ===== src/Outbox/Tests.antt =====
-- An outbox that holds two events and two entries at most.
use ibvap.Common.{
  All, List, ℕ, ◌≡◌, refl, none, some, [], ◌∷◌, String, arith, string_eq?, ℕ_discrete, nat_key,
  string_key,
}
use ibvap.Common.Dict.{insert, erase}
use ibvap.Outbox.Defs.{
  existing, Store, Limits, Draw, write, list_outbox, mark_delivered, clear_events,
}
use ibvap.Outbox.Consistency.{IsValid, write-IsValid}
use ibvap.Outbox.Idempotence.{Write, write_all, write_twice}
use ibvap.Outbox.Delivery.{here, next, writes, repeats, delivers, clears_events, Reach-IsValid}

run : Unit {0}
unfolding write list_outbox mark_delivered insert erase string_eq? ℕ_discrete
run = tt

abbrev lim : Limits
lim = record { max_events = 2; max_outbox = 2 }

abbrev empty : Store
empty = record {
  event_at = λ a. record { id = none; dedup_key = none; created_at = none; body = "" };
  entry_at = λ a. record {
    id = "";
    topic = "";
    payload = 0;
    dedup_key = none;
    status = "";
    created_at = 0;
  };
  next_entry = 0;
  events = [];
  outbox = [];
  event_index = [];
  outbox_index = [];
  id_index = [];
}

abbrev drawn : ℕ → String → Draw
drawn now id = record { event_uuid = id; entry_uuid = id; now = now }

abbrev topic : String
topic = "event.created"

abbrev first : Store × ℕ
first = write lim empty 10 (some "k1") topic none (drawn 1 "u1")

abbrev third : Store × ℕ
third =
    write lim (write lim first.0 11 (some "k2") topic none (drawn 2 "u2")).0 12 (some "k3") topic
      none (drawn 3 "u3")

third_evicts :
    (third.0.events ≡ 11 ∷ 12 ∷ [])
    × (third.0.outbox ≡ 1 ∷ 2 ∷ [])
    × (third.0.event_index ≡ ("k2", 11) ∷ ("k3", 12) ∷ [])
    × (third.0.id_index ≡ ("u2", 1) ∷ ("u3", 2) ∷ [])
unfolding run
third_evicts = (refl, refl, refl, refl)

empty-IsValid : IsValid lim empty
empty-IsValid = record {
  events_bounded = omega arith;
  outbox_bounded = omega arith;
  indexed = record {
    event_index = λ j b e. absurd (cc);
    outbox_index = λ j b e. absurd (cc);
    id_index = λ j b e. absurd (cc);
    made = λ a m. absurd (cc);
  };
}

write-IsValid_example : IsValid lim first.0
write-IsValid_example =
    write-IsValid lim empty 10 (some "k1") topic none (drawn 1 "u1") refl empty-IsValid

abbrev retries : List Write
retries =
    record { event = 11; topic = topic; entry_id = none; draw = drawn 2 "u2" }
    ∷ record { event = 10; topic = topic; entry_id = none; draw = drawn 3 "u3" }
    ∷ []

write_twice_example :
    ((write_all lim "k1" first.0 retries).0 ≡ first.0)
    × All (λ x. x ≡ first.1) (write_all lim "k1" first.0 retries).1
write_twice_example =
    write_twice lim empty 10 "k1" topic none (drawn 1 "u1") (omega arith) (omega arith) refl
      empty-IsValid refl retries

known : existing first.0 (some "k1") ≡ some first.1
unfolding write existing insert string_eq? ℕ_discrete
known = refl

Reach-IsValid_example :
    IsValid lim
      (clear_events
        (mark_delivered (write lim first.0 10 (some "k1") topic none (drawn 2 "u2")).0 "u1")).0
Reach-IsValid_example = Reach-IsValid empty-IsValid (
    next
      (next
        (next (next here (writes 10 (some "k1") topic none (drawn 1 "u1") refl))
          (repeats 10 (some "k1") topic none (drawn 2 "u2") known))
        (delivers "u1"))
      clears_events)
