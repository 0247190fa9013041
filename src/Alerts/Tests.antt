-- ===== src/Alerts/Tests.antt =====
-- An alert that is assigned, resolved and then dismissed.
use ibvap.Common.{◌≤◌, ℕ, ◌≡◌, refl, ◌≢◌, none, some, List, [], ◌∷◌, String, arith}
use ibvap.Alerts.Defs.{
  Alert, Op, acknowledge, assign, resolve, dismiss, high, opened, assigned, resolved, apply,
  create_alert, get_alert, Registry,
}
use ibvap.Alerts.Workflow.{IsValid, Walk, stage, run, run-Walk}
use ibvap.Alerts.Registry.{AllValid, create_alert_lem}

abbrev note : String → String
note who = who

abbrev fresh : Alert
fresh = record {
  id = "a1";
  event_id = "e1";
  camera_id = "cam";
  severity = high;
  state = opened;
  assignee = none;
  audit = record { ts = 1; action = "create"; actor = "system"; note = ""; state = opened } ∷ [];
  max_audit = 100;
}

fresh-IsValid : IsValid fresh
fresh-IsValid = ground arith

abbrev calls : List (ℕ × Op)
calls =
    (2, assign "kim" "lee")
    ∷ (3, acknowledge "lee")
    ∷ (4, dismiss "lee" "")
    ∷ (5, resolve "kim")
    ∷ []

calls_resolve : (run note fresh calls).state ≡ resolved
unfolding run apply
calls_resolve = refl

run-Walk_example :
    IsValid (run note fresh calls)
    × Walk opened (run note fresh calls).state
    × (0 ≤ stage (run note fresh calls).state)
run-Walk_example = run-Walk note fresh calls fresh-IsValid

abbrev solved : Alert
solved = record fresh {
  state = resolved;
  audit = record { ts = 1; action = "resolve"; actor = "kim"; note = ""; state = resolved } ∷ [];
}

no_alerts : AllValid []
unfolding get_alert
no_alerts aid a e = absurd (cc)

create_alert_lem_example :
    let (alerts', a) = create_alert [] "a1" 1 "e1" "cam" high in
    AllValid alerts'
    × (get_alert alerts' "a1" ≡ some a)
    × (a.state ≡ opened)
    × ((q : String) → q ≢ "a1" → get_alert alerts' q ≡ get_alert [] q)
create_alert_lem_example = create_alert_lem [] "a1" 1 "e1" "cam" high no_alerts

abbrev one : Registry
one = (create_alert [] "a1" 1 "e1" "cam" high).0

abbrev assigned_alert : Alert
assigned_alert = record fresh {
  state = assigned;
  assignee = some "kim";
  audit =
      record { ts = 1; action = "create"; actor = "system"; note = ""; state = opened }
      ∷ record { ts = 2; action = "assign"; actor = "lee"; note = "kim"; state = assigned }
      ∷ [];
}
