-- ===== src/CameraState/Runs.antt =====
-- Sequences of calls of `transition`, as the callers make them: a refused call is caught and leaves
-- the machine alone (src/ibvap/core/camera_state.py, and the handlers in services/stream_worker.py).
use ibvap.Common.{
  ℕ, suc, ◌+◌, ◌≤◌, ◌≡◌, refl, sym, subst, ◌∙◌, ap, ◌≢◌, ◌⊎◌, inl, inr, Bool, true, false, ◌++◌, [],
  ◌∷◌, List, arith, length, last_n, last_n-append, last_n_self, Bool-cases, All, if◌then◌else◌,
}
use mathlib.Core.List.{append-nil, append_assoc}
use ibvap.CameraState.Defs.{
  CameraState, disabled, reconnecting, draft, is, allowed, includes, Machine, Request, Result, ok,
  raise, StateTransition, enter, transition,
}
use ibvap.CameraState.Transition.{IsValid, enter-IsValid}

abbrev step_with : Machine → Result (Machine × StateTransition) → Machine
step_with m (ok (m', tr)) = m'
step_with m (raise e) = m

abbrev log_with : Result (Machine × StateTransition) → List StateTransition
log_with (ok (m', tr)) = tr ∷ []
log_with (raise e) = []

-- The machine after one call, refused or not, and the transition that it returned, if any.
unfoldable pub step : Machine → Request → Machine
step m r = step_with m (transition m r)

unfoldable pub logged : Machine → Request → List StateTransition
logged m r = log_with (transition m r)

unfoldable pub run : Machine → List Request → Machine
run m [] = m
run m (r ∷ rs) = run (step m r) rs

-- All the transitions that the calls returned, the oldest first.
unfoldable pub log : Machine → List Request → List StateTransition
log m [] = []
log m (r ∷ rs) = logged m r ++ log (step m r) rs

pub step-cases :
    (m : Machine) (r : Request)
    → (includes r.target (allowed m.state) ≡ true)
        × (step m r ≡ (enter m r).0)
        × (logged m r ≡ (enter m r).1 ∷ [])
      ⊎ (includes r.target (allowed m.state) ≡ false) × (step m r ≡ m) × (logged m r ≡ [])
unfolding step logged transition
step-cases m r = elim (Bool-cases (includes r.target (allowed m.state))) [
  | inl e ↦ inl (e, rw e, rw e)
  | inr e ↦ inr (e, rw e, rw e)
]

step-IsValid : (m : Machine) (r : Request) → IsValid m → IsValid (step m r)
step-IsValid m r v = elim (step-cases m r) [
  | inl (_, e, _) ↦ rw e (enter-IsValid m r v)
  | inr (_, e, _) ↦ rw e v
]

-- Whatever is asked of a machine, its history stays within `max_history`, and a stable interval is
-- open exactly while the camera streams.
pub run-IsValid : (m : Machine) (rs : List Request) → IsValid m → IsValid (run m rs)
unfolding run
run-IsValid m [] v = v
run-IsValid m (r ∷ rs) v = run-IsValid (step m r) rs (step-IsValid m r v)

-- How many of the transitions entered RECONNECTING.
abbrev pub reconnects : List StateTransition → ℕ
reconnects [] = 0
reconnects (tr ∷ trs) =
    let rest = reconnects trs in if is tr.new_state reconnecting then suc rest else rest

reconnects-append :
    (xs ys : List StateTransition) → reconnects (xs ++ ys) ≡ reconnects xs + reconnects ys
reconnects-append [] ys = omega arith
reconnects-append (x ∷ xs) ys = ground (arith, reconnects-append xs ys)

step-epoch :
    (m : Machine) (r : Request) → (step m r).stream_epoch ≡ m.stream_epoch + reconnects (logged m r)
step-epoch m r = elim (step-cases m r) [
  | inl (_, e, f) ↦ rw (e, f) (unfold enter in ground arith)
  | inr (_, e, f) ↦ rw (e, f) (omega arith)
]

-- The stream epoch counts the returned transitions into RECONNECTING: it grows by one at each, and
-- nothing else changes it.
pub run-epoch :
    (m : Machine) (rs : List Request)
    → (run m rs).stream_epoch ≡ m.stream_epoch + reconnects (log m rs)
unfolding run log
run-epoch m [] = omega arith
run-epoch m (r ∷ rs) = omega (
  arith,
  step-epoch m r,
  run-epoch (step m r) rs,
  reconnects-append (logged m r) (log (step m r) rs),
)

step-max_history : (m : Machine) (r : Request) → (step m r).max_history ≡ m.max_history
step-max_history m r = elim (step-cases m r) [
  | inl (_, e, _) ↦ rw e (unfold enter in refl)
  | inr (_, e, _) ↦ rw e
]

step-history :
    (m : Machine) (r : Request) (before : List StateTransition)
    → m.history ≡ last_n m.max_history before
    → (step m r).history ≡ last_n m.max_history (before ++ logged m r)
step-history m r before h = elim (step-cases m r) [
  | inl (_, e, f) ↦
      rw (e, f)
        (unfold enter in
          ap (λ (l : List StateTransition). last_n m.max_history (l ++ (enter m r).1 ∷ [])) h
          ∙ last_n-append m.max_history before (enter m r).1)
  | inr (_, e, f) ↦ rw (e, f, append-nil) h
]

history_from :
    (m : Machine) (rs : List Request) (before : List StateTransition)
    → m.history ≡ last_n m.max_history before
    → (run m rs).history ≡ last_n m.max_history (before ++ log m rs)
unfolding run log
history_from m [] before h = rw append-nil h
history_from m (r ∷ rs) before h =
    let kept = step-max_history m r in
    let now = before ++ logged m r in
    rw (← append_assoc) (
      subst (λ n. (run (step m r) rs).history ≡ last_n n (now ++ log (step m r) rs)) kept
        (history_from (step m r) rs now (rw kept (step-history m r before h))))

-- The history of a machine is the last `max_history` transitions, in order, of all that it has made.
pub run-history :
    (m : Machine) (rs : List Request)
    → length m.history ≤ m.max_history
    → (run m rs).history ≡ last_n m.max_history (m.history ++ log m rs)
run-history m rs h = history_from m rs m.history (sym (last_n_self m.max_history m.history h))

-- Each transition starts where the one before ended, along an edge of the table.
abbrev pub IsChain : CameraState → List StateTransition → Type 0
IsChain s [] = Unit
IsChain s (tr ∷ trs) =
    (tr.prev_state ≡ s) × (includes tr.new_state (allowed s) ≡ true) × IsChain tr.new_state trs

IsChain-enter :
    (m : Machine) (r : Request) (trs : List StateTransition)
    → includes r.target (allowed m.state) ≡ true
    → IsChain (enter m r).0.state trs
    → IsChain m.state ((enter m r).1 ∷ trs)
unfolding enter
IsChain-enter m r trs a c = (refl, a, c)

-- The transitions that a machine makes are a walk through the table from its state.
pub log-IsChain : (m : Machine) (rs : List Request) → IsChain m.state (log m rs)
unfolding log
log-IsChain m [] = tt
log-IsChain m (r ∷ rs) = elim (step-cases m r) [
  | inl (a, e, f) ↦ rw (e, f) (IsChain-enter m r _ a (log-IsChain (enter m r).0 rs))
  | inr (_, e, f) ↦ rw (e, f) (log-IsChain m rs)
]

only_draft : (s t : CameraState) → s ≡ disabled → includes t (allowed s) ≡ true → t ≡ draft
only_draft s draft e h = refl
only_draft s t e h = absurd (let no : ◌≡◌ {A = Bool} false true = rw e at h in cc)

-- A disabled camera does not move, whatever is asked of it, until a call asks for DRAFT.
pub disabled_stays :
    (m : Machine) (rs : List Request)
    → m.state ≡ disabled
    → All (λ (r : Request). r.target ≢ draft) rs
    → run m rs ≡ m
unfolding run
disabled_stays m [] d h = refl
disabled_stays m (r ∷ rs) d h = elim (step-cases m r) [
  | inl (a, _, _) ↦ absurd (h.0 (only_draft m.state r.target d a))
  | inr (_, e, _) ↦ rw e (disabled_stays m rs d h.1)
]
