-- ===== src/Alerts/Workflow.antt =====
-- The life of one alert (src/ibvap/core/alerts.py).
use ibvap.Common.{
  ℕ, ◌≤◌, ◌<◌, ◌≡◌, refl, ◌⊎◌, inl, inr, true, Option, none, some, List, [], ◌∷◌, String, arith,
  length, length-last_n, get_last?, get_last?-last_n, Bool-cases, is_some,
}
use ibvap.Alerts.Defs.{
  AlertState, opened, acknowledged, assigned, resolved, dismissed, Entry, Alert, Op, Result, ok,
  value_error, acknowledge, assign, resolve, dismiss, log, is_open, is_assignable, is_resolvable,
  is_empty, apply,
}

-- The changes of state that the guards of the methods allow. `dismiss` has no guard on the state: it leads
-- to the dismissed state from every state, the resolved and the dismissed one among them.
pub data Edge : AlertState → AlertState → Type 0 where
  take_note : Edge opened acknowledged
  give : Edge opened assigned
  hand_on : Edge acknowledged assigned
  close_noted : Edge acknowledged resolved
  close_assigned : Edge assigned resolved
  drop_it : {s : AlertState} → Edge s dismissed

ruleset edges = (take_note, give, hand_on, close_noted, close_assigned, drop_it)

-- The order of the states in the documented workflow: open, acknowledged, assigned, resolved or dismissed.
abbrev pub stage : AlertState → ℕ
stage opened = 0
stage acknowledged = 1
stage assigned = 2
stage resolved = 3
stage dismissed = 3

Edge-stage : {s t : AlertState} → Edge s t → stage s ≤ stage t
Edge-stage take_note = omega arith
Edge-stage give = omega arith
Edge-stage hand_on = omega arith
Edge-stage close_noted = omega arith
Edge-stage close_assigned = omega arith
Edge-stage {s = opened} drop_it = omega arith
Edge-stage {s = acknowledged} drop_it = omega arith
Edge-stage {s = assigned} drop_it = omega arith
Edge-stage {s = resolved} drop_it = omega arith
Edge-stage {s = dismissed} drop_it = omega arith

-- What the audit says of the last change.
abbrev pub entry_state : Option Entry → Option AlertState
entry_state none = none
entry_state (some e) = some e.state

pub record IsValid (a : Alert) : Type 0 where
  pub bounded : length a.audit ≤ a.max_audit
  pub keeps_one : 0 < a.max_audit
  pub current : entry_state (get_last? a.audit) ≡ some a.state
  pub has_assignee : a.state ≡ assigned → is_some a.assignee ≡ true

pub log-IsValid :
    (a : Alert) (now : ℕ) (action actor note : String)
    → 0 < a.max_audit
    → (a.state ≡ assigned → is_some a.assignee ≡ true)
    → IsValid (log a now action actor note)
unfolding log
log-IsValid a now action actor note p h = record {
  bounded = omega (arith, length-last_n {0} a.max_audit);
  keeps_one = p;
  current = rw (get_last?-last_n a.max_audit a.audit _ p);
  has_assignee = h;
}

module _ (a b : Alert) (now : ℕ) (action actor note : String) {a' : Alert} where
  -- A logged change along an edge.
  logged-IsValid :
      IsValid a
      → ok (log b now action actor note) ≡ ok a'
      → b.max_audit ≡ a.max_audit
      → (b.state ≡ assigned → is_some b.assignee ≡ true)
      → Edge a.state b.state
      → IsValid a' × Edge a.state a'.state
  unfolding log
  logged-IsValid v e same has edge =
      let found : log b now action actor note ≡ a' = cc in
      rw (← found) (log-IsValid b now action actor note (rw same v.keeps_one) has, edge)

can_assign : (s : AlertState) → is_assignable s ≡ true → Edge s assigned
can_assign opened e = give
can_assign acknowledged e = hand_on
can_assign s e = absurd (cc)

can_resolve : (s : AlertState) → is_resolvable s ≡ true → Edge s resolved
can_resolve acknowledged e = close_noted
can_resolve assigned e = close_assigned
can_resolve s e = absurd (cc)

can_acknowledge : (s : AlertState) → is_open s ≡ true → Edge s acknowledged
can_acknowledge opened e = take_note
can_acknowledge s e = absurd (cc)

-- A call that succeeds goes along an edge of the workflow, and keeps the audit within its bound,
-- with the new state in its last entry, and an assignee on an assigned alert.
pub apply-IsValid :
    (to_note : String → String) (a : Alert) (now : ℕ) (op : Op) {a' : Alert}
    → IsValid a
    → apply to_note a now op ≡ ok a'
    → IsValid a' × Edge a.state a'.state
unfolding apply
apply-IsValid to_note a now (acknowledge actor) v e = elim (Bool-cases (is_open a.state)) [
  | inl g ↦
      logged-IsValid a (record a { state = acknowledged }) now "acknowledge" actor "" v (rw g at e)
        refl (λ h. cc) (can_acknowledge a.state g)
  | inr g ↦ absurd (let no = rw g at e in cc)
]
apply-IsValid to_note a now (assign who actor) v e = elim (Bool-cases (is_assignable a.state)) [
  | inl g ↦
      logged-IsValid a (record a { state = assigned; assignee = some who }) now "assign" actor
        (to_note who) v (rw g at e) refl (λ h. refl) (can_assign a.state g)
  | inr g ↦ absurd (let no = rw g at e in cc)
]
apply-IsValid to_note a now (resolve actor) v e = elim (Bool-cases (is_resolvable a.state)) [
  | inl g ↦
      logged-IsValid a (record a { state = resolved }) now "resolve" actor "" v (rw g at e) refl
        (λ h. cc) (can_resolve a.state g)
  | inr g ↦ absurd (let no = rw g at e in cc)
]
apply-IsValid to_note a now (dismiss actor reason) v e = elim (Bool-cases (is_empty reason)) [
  | inl g ↦ absurd (let no = rw g at e in cc)
  | inr g ↦
      logged-IsValid a (record a { state = dismissed }) now "dismiss" actor reason v (rw g at e)
        refl (λ h. cc) drop_it
]

-- The calls of a caller that catches the errors.
abbrev after_call : Alert → Result Alert → Alert
after_call a (ok a') = a'
after_call a (value_error e) = a

unfoldable pub run : (String → String) → Alert → List (ℕ × Op) → Alert
run to_note a [] = a
run to_note a ((now, op) ∷ ops) = run to_note (after_call a (apply to_note a now op)) ops

-- A walk along the edges of the workflow.
pub data Walk : AlertState → AlertState → Type 0 where
  here : {s : AlertState} → Walk s s
  along : {s t u : AlertState} → Edge s t → Walk t u → Walk s u

Walk-stage : {s t : AlertState} → Walk s t → stage s ≤ stage t
Walk-stage here = omega arith
Walk-stage (along e w) = omega (arith, Edge-stage e, Walk-stage w)

run-Edges :
    (to_note : String → String) (a : Alert) (ops : List (ℕ × Op))
    → IsValid a
    → IsValid (run to_note a ops) × Walk a.state (run to_note a ops).state
unfolding run
run-Edges to_note a [] v = (v, here)
run-Edges to_note a ((now, op) ∷ ops) v =
    go (apply to_note a now op) refl (λ b vb. run-Edges to_note b ops vb)
  where
    go :
        (r : Result Alert)
        → apply to_note a now op ≡ r
        → ((b : Alert)
            → IsValid b
            → IsValid (run to_note b ops) × Walk b.state (run to_note b ops).state)
        → IsValid (run to_note (after_call a r) ops)
          × Walk a.state (run to_note (after_call a r) ops).state
    go (ok b) e ih =
        let (vb, edge) = apply-IsValid to_note a now op v e in ((ih b vb).0, along edge (ih b vb).1)
    go (value_error x) e ih = ih a v

-- Whatever is called on a valid alert, and whichever calls fail: its state has moved along the changes that
-- the guards allow, among them a dismissal from every state, also of an alert that is resolved; it never
-- goes back in the documented order open, acknowledged, assigned, and resolved or dismissed; and the audit
-- is within its bound and ends in the state that the alert is in.
pub run-Walk :
    (to_note : String → String) (a : Alert) (ops : List (ℕ × Op))
    → IsValid a
    → IsValid (run to_note a ops)
      × Walk a.state (run to_note a ops).state
      × (stage a.state ≤ stage (run to_note a ops).state)
run-Walk to_note a ops v =
    let (valid, walk) = run-Edges to_note a ops v in (valid, walk, Walk-stage walk)

abbrev pub IsClosed : AlertState → Type 0
IsClosed s = (s ≡ resolved) ⊎ (s ≡ dismissed)

Edge-IsClosed : {s t : AlertState} → Edge s t → IsClosed s → IsClosed t
Edge-IsClosed take_note h = absurd (ground arith)
Edge-IsClosed give h = absurd (ground arith)
Edge-IsClosed hand_on h = absurd (ground arith)
Edge-IsClosed close_noted h = inl refl
Edge-IsClosed close_assigned h = inl refl
Edge-IsClosed drop_it h = inr refl

Walk-IsClosed : {s t : AlertState} → Walk s t → IsClosed s → IsClosed t
Walk-IsClosed here h = h
Walk-IsClosed (along e w) h = Walk-IsClosed w (Edge-IsClosed e h)

-- A resolved or dismissed alert is never reopened, acknowledged or assigned again.
pub run-IsClosed :
    (to_note : String → String) (a : Alert) (ops : List (ℕ × Op))
    → IsValid a
    → IsClosed a.state
    → IsClosed (run to_note a ops).state
run-IsClosed to_note a ops v h = Walk-IsClosed (run-Edges to_note a ops v).1 h
