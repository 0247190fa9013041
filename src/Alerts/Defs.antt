-- ===== src/Alerts/Defs.antt =====
-- `Alert`, `create_alert` and `get_alert` of core/alerts.py.
use ibvap.Common.{
  ℕ, Bool, true, false, Option, none, some, List, [], ◌∷◌, ◌++◌, String, if◌then◌else◌, last_n,
  string_key,
}
use ibvap.Common.Dict.{lookup, insert}

pub data AlertState : Type 0 where
  opened acknowledged assigned resolved dismissed : AlertState

pub data Severity : Type 0 where
  low medium high critical : Severity

-- An item of the audit list.
pub record Entry : Type 0 where
  pub ts : ℕ
  pub action : String
  pub actor : String
  pub note : String
  pub state : AlertState

pub record Alert : Type 0 where
  pub id : String
  pub event_id : String
  pub camera_id : String
  pub severity : Severity
  pub state : AlertState
  pub assignee : Option String
  pub audit : List Entry
  pub max_audit : ℕ

pub data Result (A : Type 0) : Type 0 where
  ok : A → Result A
  value_error : String → Result A

-- The calls of the methods.
pub data Op : Type 0 where
  acknowledge : String → Op
  assign : String → String → Op
  resolve : String → Op
  dismiss : String → String → Op

-- `_log`, which notes the state that the alert has by then.
unfoldable pub log : Alert → ℕ → String → String → String → Alert
log a now action actor note = record a {
  audit = last_n a.max_audit (
      a.audit
      ++ record { ts = now; action = action; actor = actor; note = note; state = a.state } ∷ []);
}

abbrev pub is_open : AlertState → Bool
is_open opened = true
is_open s = false

-- `self.state in {"open", "acknowledged"}`
abbrev pub is_assignable : AlertState → Bool
is_assignable opened = true
is_assignable acknowledged = true
is_assignable s = false

-- `self.state in {"acknowledged", "assigned"}`
abbrev pub is_resolvable : AlertState → Bool
is_resolvable acknowledged = true
is_resolvable assigned = true
is_resolvable s = false

-- `not reason`
abbrev pub is_empty : String → Bool
is_empty String.[] = true
is_empty (String.◌∷◌ c s) = false

-- `f"to {assignee}"` is the note of `assign`; `joined` stands for the formatting of the text.
unfoldable pub apply : (String → String) → Alert → ℕ → Op → Result Alert
unfolding log
apply to_note a now (acknowledge actor) =
    if is_open a.state
    then ok (log (record a { state = acknowledged }) now "acknowledge" actor "")
    else value_error "Cannot acknowledge"
apply to_note a now (assign assignee actor) =
    if is_assignable a.state
    then ok (
        log (record a { state = assigned; assignee = some assignee }) now "assign" actor
          (to_note assignee))
    else value_error "Cannot assign"
apply to_note a now (resolve actor) =
    if is_resolvable a.state
    then ok (log (record a { state = resolved }) now "resolve" actor "")
    else value_error "Cannot resolve"
apply to_note a now (dismiss actor reason) =
    if is_empty reason
    then value_error "Dismiss reason required"
    else ok (log (record a { state = dismissed }) now "dismiss" actor reason)

-- `_ALERTS`: the alert objects by id.
abbrev pub Registry : Type 0
Registry = List (String × Alert)

-- `Alert(...)` with the defaults of its fields.
abbrev pub opened_alert : String → String → String → Severity → Alert
opened_alert aid event_id camera_id severity = record {
  id = aid;
  event_id = event_id;
  camera_id = camera_id;
  severity = severity;
  state = opened;
  assignee = none;
  audit = [];
  max_audit = 100;
}

-- `create_alert`, given the id that `uuid4` drew.
unfoldable pub create_alert : Registry → String → ℕ → String → String → Severity → Registry × Alert
unfolding log
create_alert alerts aid now event_id camera_id severity =
    let a = log (opened_alert aid event_id camera_id severity) now "create" "system" "" in
    (insert aid a alerts, a)

unfoldable pub get_alert : Registry → String → Option Alert
get_alert alerts aid = lookup aid alerts

abbrev pub store_result : Registry → String → Result Alert → Result Registry
store_result alerts aid (ok a) = ok (insert aid a alerts)
store_result alerts aid (value_error e) = value_error e

abbrev pub update_found :
    (String → String) → Registry → String → ℕ → Op → Option Alert → Result Registry
update_found to_note alerts aid now op none = value_error "no alert"
update_found to_note alerts aid now op (some a) = store_result alerts aid (apply to_note a now op)

-- A method called on the object that `get_alert` returned: the registry holds the same object.
unfoldable pub update_alert : (String → String) → Registry → String → ℕ → Op → Result Registry
unfolding apply get_alert
update_alert to_note alerts aid now op =
    update_found to_note alerts aid now op (get_alert alerts aid)
