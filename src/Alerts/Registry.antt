-- ===== src/Alerts/Registry.antt =====
-- The registry of alerts (`_ALERTS` of src/ibvap/core/alerts.py).
use ibvap.Common.{
  ℕ, ◌≡◌, refl, ◌≢◌, inl, inr, Option, none, some, String, arith, string_key, same, Bool-cases,
}
use ibvap.Common.Dict.{insert, lookup-insert}
use ibvap.Alerts.Defs.{
  Alert, Op, Result, ok, value_error, Registry, Severity, opened, opened_alert, apply, create_alert,
  get_alert, update_alert, update_found, store_result,
}
use ibvap.Alerts.Workflow.{IsValid, Edge, log-IsValid, apply-IsValid}

-- Every alert of the registry is valid.
abbrev pub AllValid : Registry → Type 0
AllValid alerts = (aid : String) (a : Alert) → get_alert alerts aid ≡ some a → IsValid a

insert-AllValid :
    (alerts : Registry) (aid : String) (a : Alert)
    → AllValid alerts
    → IsValid a
    → AllValid (insert aid a alerts)
unfolding get_alert
insert-AllValid alerts aid a all v q b e = elim (Bool-cases (same q aid)) [
  | inl hit ↦ let found : a ≡ b = ground (arith, lookup-insert q aid a alerts) in rw (← found) v
  | inr miss ↦ all q b (ground (arith, lookup-insert q aid a alerts))
]

-- A new alert is valid, is what `get_alert` then returns for its id, and changes no other alert.
pub create_alert_lem :
    (alerts : Registry) (aid : String) (now : ℕ) (event camera : String) (severity : Severity)
    → AllValid alerts
    → let (alerts', a) = create_alert alerts aid now event camera severity in
      AllValid alerts'
      × (get_alert alerts' aid ≡ some a)
      × (a.state ≡ opened)
      × ((q : String) → q ≢ aid → get_alert alerts' q ≡ get_alert alerts q)
unfolding create_alert get_alert
create_alert_lem alerts aid now event camera severity all =
    let a = (create_alert alerts aid now event camera severity).1 in
    (
      insert-AllValid alerts aid a all (
          log-IsValid (opened_alert aid event camera severity) now "create" "system" ""
            (omega arith) (λ h. cc)),
      ground (arith, lookup-insert aid aid a alerts),
      refl,
      λ q n. ground (arith, lookup-insert q aid a alerts),
    )

module _ (to_note : String → String) (alerts : Registry) (aid : String) (now : ℕ) (op : Op) where
  -- What a call of a method has done to the registry.
  abbrev pub Updates : Registry → Type 0
  Updates alerts' =
      AllValid alerts'
      × ((a : Alert) × (a' : Alert) × (get_alert alerts aid ≡ some a)
          × (get_alert alerts' aid ≡ some a')
          × Edge a.state a'.state)
      × ((q : String) → q ≢ aid → get_alert alerts' q ≡ get_alert alerts q)

  stored :
      (a : Alert) (r : Result Alert) {alerts' : Registry}
      → AllValid alerts
      → get_alert alerts aid ≡ some a
      → apply to_note a now op ≡ r
      → store_result alerts aid r ≡ ok alerts'
      → Updates alerts'
  unfolding get_alert
  stored a (value_error x) all g f e = absurd (cc)
  stored a (ok a') {alerts'} all g f e =
      let (valid, edge) = apply-IsValid to_note a now op (all aid a g) f in
      let shape : insert aid a' alerts ≡ alerts' = cc in
      rw (← shape) (
        insert-AllValid alerts aid a' all valid,
        (a, a', g, ground (arith, lookup-insert aid aid a' alerts), edge),
        λ q n. ground (arith, lookup-insert q aid a' alerts),
      )

  found :
      (o : Option Alert) {alerts' : Registry}
      → AllValid alerts
      → get_alert alerts aid ≡ o
      → update_found to_note alerts aid now op o ≡ ok alerts'
      → Updates alerts'
  found none all g e = absurd (cc)
  found (some a) all g e = stored a (apply to_note a now op) all g refl e

  -- A method called on a registered alert changes that alert along an edge of the workflow, keeps
  -- every alert valid, and leaves the others alone.
  pub update_alert-Updates :
      {alerts' : Registry}
      → AllValid alerts
      → update_alert to_note alerts aid now op ≡ ok alerts'
      → Updates alerts'
  unfolding update_alert
  update_alert-Updates all e = found (get_alert alerts aid) all refl e
