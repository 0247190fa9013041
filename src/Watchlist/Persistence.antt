-- ===== src/Watchlist/Persistence.antt =====
-- The document of the watchlist against its entries (core/watchlist.py).
use ibvap.Common.{
  ◌≡◌, refl, true, false, Option, none, some, List, [], ◌∷◌, String, string_key, arith, Bool-cases,
  Option-cases, inl, inr,
}
use ibvap.Common.Dict.{lookup, has}
use ibvap.Watchlist.Defs.{
  WatchlistEntry, Item, Vectors, WatchlistStore, snapshot, flush, debounced_save, add_entry,
  remove_entry, record_sighting,
}

-- The calls on a store, and the end of its timer.
pub data Op (F V : Type 0) : Type 0 where
  add : WatchlistEntry F V → Op F V
  remove : String → Op F V
  sight : String → F → Op F V
  flush_now : Op F V
  timer_ends : Op F V

module _ {F V : Type 0} (vectors : Vectors V) where
  -- One call while the disk takes writes.
  abbrev pub step : Op F V → WatchlistStore F V → WatchlistStore F V
  step (add e) s = add_entry vectors true e s
  step (remove id) s = (remove_entry vectors true id s).0
  step (sight id t) s = record_sighting vectors id t s
  step flush_now s = flush vectors true s
  step timer_ends s = debounced_save vectors true s

  abbrev pub run : List (Op F V) → WatchlistStore F V → WatchlistStore F V
  run [] s = s
  run (o ∷ ops) s = run ops (step o s)

  -- The items that a process which starts now would read.
  abbrev pub items_of : Option (List (Item F)) → List (Item F)
  items_of none = []
  items_of (some items) = items

  -- What is not saved yet has its timer armed; where nothing is to be saved, the document is that of
  -- the entries.
  pub record IsCurrent (s : WatchlistStore F V) : Type 0 where
    pub armed : s.dirty ≡ true → s.timer ≡ true
    pub saved : s.dirty ≡ false → items_of s.document ≡ snapshot vectors s

  step-IsCurrent : (o : Op F V) (s : WatchlistStore F V) → IsCurrent s → IsCurrent (step o s)
  unfolding add_entry remove_entry record_sighting flush debounced_save
  step-IsCurrent (add e) s c = record { armed = λ h. cc; saved = λ h. refl }
  step-IsCurrent (remove id) s c = elim (Bool-cases (has id s.entries)) [
    | inl there ↦ rw (there, step, remove_entry) record { armed = λ h. cc; saved = λ h. refl }
    | inr absent ↦ rw (absent, step, remove_entry) c
  ]
  step-IsCurrent (sight id t) s c = elim (Option-cases (lookup id s.entries)) [
    | inl absent ↦ rw (absent, step, record_sighting) c
    | inr (e, found) ↦
        rw (found, step, record_sighting) record { armed = λ h. refl; saved = λ h. cc }
  ]
  step-IsCurrent flush_now s c = elim (Bool-cases s.dirty) [
    | inl unsaved ↦ rw (unsaved, step, flush) record { armed = λ h. cc; saved = λ h. refl }
    | inr clean ↦
        rw (clean, step, flush) record { armed = λ h. absurd (cc); saved = λ h. c.saved clean }
  ]
  step-IsCurrent timer_ends s c = elim (Bool-cases s.dirty) [
    | inl unsaved ↦ rw (unsaved, step, debounced_save) record { armed = λ h. cc; saved = λ h. refl }
    | inr clean ↦
        rw (clean, step, debounced_save)
          record { armed = λ h. absurd (cc); saved = λ h. c.saved clean }
  ]

  run-IsCurrent :
      (ops : List (Op F V)) (s : WatchlistStore F V) → IsCurrent s → IsCurrent (run ops s)
  run-IsCurrent [] s c = c
  run-IsCurrent (o ∷ ops) s c = run-IsCurrent ops (step o s) (step-IsCurrent o s c)

  -- While the disk takes writes no change is lost: after any calls, what is not saved yet has a timer
  -- armed, and when that runs out the document is that of the entries, which it leaves as they are.
  pub debounced_save-run :
      (ops : List (Op F V)) (s : WatchlistStore F V)
      → IsCurrent s
      → ((run ops s).dirty ≡ true → (run ops s).timer ≡ true)
        × (items_of (debounced_save vectors true (run ops s)).document
            ≡ snapshot vectors (run ops s))
        × ((debounced_save vectors true (run ops s)).entries ≡ (run ops s).entries)
        × ((debounced_save vectors true (run ops s)).dirty ≡ false)
  unfolding debounced_save
  debounced_save-run ops s c =
      let r = run ops s in
      let after = run-IsCurrent ops s c in
      (
        after.armed,
        elim (Bool-cases r.dirty) [
          | inl unsaved ↦ rw (unsaved, debounced_save) refl
          | inr clean ↦ rw (clean, debounced_save) (after.saved clean)
        ],
        ground arith,
        ground arith,
      )
