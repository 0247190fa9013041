-- ===== src/CameraState/Transition.antt =====
-- What one call of `transition` does (src/ibvap/core/camera_state.py).
use ibvap.Common.{
  ℕ, ◌≤◌, ◌≡◌, refl, ◌≢◌, ◌⊎◌, inl, inr, true, Option, none, some, String, arith, length,
  length-last_n, is_some,
}
use ibvap.CameraState.Defs.{
  CameraState, streaming, disabled, is, Machine, Request, ok, raise, StateTransition,
  illegal_transition, allowed, includes, stability, enter, disabling, disable,
}

pub record IsValid (m : Machine) : Type 0 where
  pub history_bounded : length m.history ≤ m.max_history
  pub stable_streaming : is_some m.stable_since ≡ is m.state streaming

stability-streaming :
    (prev target : CameraState) (now threshold : ℕ) (since : Option ℕ) (retries : ℕ)
    → is_some since ≡ is prev streaming
    → is_some (stability prev target now threshold since retries).0 ≡ is target streaming
unfolding stability
stability-streaming prev target now threshold none retries h = ground arith
stability-streaming prev target now threshold (some s) retries h = ground arith

pub enter-IsValid : (m : Machine) (r : Request) → IsValid m → IsValid (enter m r).0
unfolding enter
enter-IsValid m r v = record {
  history_bounded = omega (arith, length-last_n {0} m.max_history);
  stable_streaming =
      stability-streaming m.state r.target r.now_mono m.stable_threshold m.stable_since
        m.retry_count v.stable_streaming;
}

-- The table leads from every other state to DISABLED.
can_disable :
    (s : CameraState) → (s ≡ disabled) ⊎ (s ≢ disabled) × (includes disabled (allowed s) ≡ true)
can_disable disabled = inl refl
can_disable s = inr ((λ e. cc), refl)

-- `disable` is refused exactly when the camera is disabled already; otherwise it leads to DISABLED,
-- from every state, and leaves the epoch alone.
pub disable_lem :
    (m : Machine) (reason : String) (now_utc now_mono : ℕ)
    → (m.state ≡ disabled)
        × (disable m reason now_utc now_mono ≡ raise (illegal_transition disabled disabled))
      ⊎ (m.state ≢ disabled)
        × ((m' : Machine) × (tr : StateTransition) × (disable m reason now_utc now_mono
              ≡ ok (m', tr))
            × (m'.state ≡ disabled)
            × (m'.stream_epoch ≡ m.stream_epoch))
unfolding disable
disable_lem m reason now_utc now_mono = elim (can_disable m.state) [
  | inl e ↦ inl (e, ground arith)
  | inr (n, e) ↦
      let after = enter m (disabling reason now_utc now_mono) in
      inr (n, (after.0, after.1, ground arith, refl, refl))
]
