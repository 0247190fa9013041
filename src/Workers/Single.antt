-- ===== src/Workers/Single.antt =====
-- One thread for a camera, and how overlapping calls make two (services/stream_worker.py).
use ibvap.Common.{
  ℕ, suc, ◌≤◌, ◌≡◌, ◌⊎◌, refl, sym, ap, ◌∙◌, Bool, true, false, Option, none, some, List, [], ◌∷◌,
  ◌++◌, select, contains, length, same, same_self, same→eq, nat_key, arith, Bool-cases, inl, inr,
}
use ibvap.Workers.Defs.{
  Registry, is_alive, ended, take_worker, keep_stopping, stop_worker, has_live_worker, spawn_worker,
  start_camera_worker, Call, start, stop, ends, call, run,
}

-- No thread is alive, or one is, which is the worker or known to be stopping.
abbrev pub IsSingle : Registry → Type 0
IsSingle r =
    (r.live ≡ [])
    ⊎ ((t : ℕ) × (r.live ≡ t ∷ []) × ((r.worker ≡ some t) ⊎ (contains t r.stopping ≡ true)))

contains-append : (t u : ℕ) (l : List ℕ) → contains t l ≡ true → contains t (l ++ u ∷ []) ≡ true
contains-append t u [] h = cc
contains-append t u (x ∷ l) h = ground (arith, contains-append t u l)

contains-last : (t : ℕ) (l : List ℕ) → contains t (l ++ t ∷ []) ≡ true
contains-last t [] = ground (arith, same_self t)
contains-last t (x ∷ l) = ground (arith, contains-last t l)

contains-select :
    (p : ℕ → Bool) (t : ℕ) (l : List ℕ)
    → p t ≡ true
    → contains t l ≡ true
    → contains t (select p l) ≡ true
contains-select p t [] h k = cc
contains-select p t (x ∷ l) h k = elim (Bool-cases (same x t)) [
  | inl it ↦ let px : p x ≡ true = ap p (same→eq x t it) ∙ h in rw px (ground arith)
  | inr other ↦
      let rest : contains t (select p l) ≡ true = contains-select p t l h (ground arith) in
      ground arith
]

ended-IsSingle : (exits : List ℕ) (r : Registry) → IsSingle r → IsSingle (ended exits r)
unfolding ended
ended-IsSingle exits r (inl none_live) = inl (rw none_live refl)
ended-IsSingle exits r (inr (t, one, known)) = elim (Bool-cases (contains t exits)) [
  | inl gone ↦ inl (rw (one, gone) refl)
  | inr stays ↦ inr (t, rw (one, stays) refl, known)
]

-- The same while a stop holds `old`.
abbrev IsHeld : Option ℕ → Registry → Type 0
IsHeld old r =
    (r.live ≡ [])
    ⊎ ((t : ℕ) × (r.live ≡ t ∷ []) × ((old ≡ some t) ⊎ (contains t r.stopping ≡ true)))

alive-one : (r : Registry) (t : ℕ) → r.live ≡ t ∷ [] → is_alive r t ≡ true
alive-one r t e = ap (contains t) e ∙ ground (arith, same_self t)

keep_stopping-IsSingle :
    (old : Option ℕ) (r : Registry) → IsHeld old r → IsSingle (keep_stopping old r).0
unfolding keep_stopping
keep_stopping-IsSingle none r (inl none_live) = inl none_live
keep_stopping-IsSingle none r (inr (t, one, inl old)) = cc
keep_stopping-IsSingle none r (inr (t, one, inr known)) = inr (t, one, inr known)
keep_stopping-IsSingle (some u) r h = elim (Bool-cases (is_alive r u)) [
  | inr dead ↦ rw (dead, keep_stopping) (still dead h)
  | inl alive ↦ rw (alive, keep_stopping) (kept alive h)
]
  where
    still : is_alive r u ≡ false → IsHeld (some u) r → IsSingle r
    still dead (inl none_live) = inl none_live
    still dead (inr (t, one, inl it)) =
        let here : u ≡ t = cc in
        absurd (let live = alive-one r t one in let dead' = ap (is_alive r) (sym here) ∙ dead in cc)
    still dead (inr (t, one, inr known)) = inr (t, one, inr known)

    kept :
        is_alive r u ≡ true
        → IsHeld (some u) r
        → IsSingle record r { stopping = r.stopping ++ u ∷ [] }
    kept alive (inl none_live) = inl none_live
    kept alive (inr (t, one, inl it)) =
        let here : u ≡ t = cc in
        inr (
          t,
          one,
          inr (ap (λ x. contains t (r.stopping ++ x ∷ [])) here ∙ contains-last t r.stopping),
        )
    kept alive (inr (t, one, inr known)) = inr (t, one, inr (contains-append t u r.stopping known))

ended-IsHeld :
    (old : Option ℕ) (exits : List ℕ) (r : Registry) → IsHeld old r → IsHeld old (ended exits r)
unfolding ended
ended-IsHeld old exits r (inl none_live) = inl (rw (none_live, ended) refl)
ended-IsHeld old exits r (inr (t, one, known)) = elim (Bool-cases (contains t exits)) [
  | inl gone ↦ inl (rw (one, ended, gone) refl)
  | inr stays ↦ inr (t, rw (one, ended, stays) refl, known)
]

stop_worker-IsSingle :
    (exits : List ℕ) (r : Registry) → IsSingle r → IsSingle (stop_worker exits r).0
unfolding stop_worker
stop_worker-IsSingle exits r h =
    keep_stopping-IsSingle r.worker (ended exits (record r { worker = none }))
      (ended-IsHeld r.worker exits (record r { worker = none }) h)

spawn_worker-IsSingle : (r : Registry) → IsSingle r → IsSingle (spawn_worker r)
unfolding spawn_worker
spawn_worker-IsSingle r h = elim (Bool-cases (has_live_worker r)) [
  | inl busy ↦ rw (busy, spawn_worker) h
  | inr free ↦ elim (List-cases (select (is_alive r) r.stopping)) [
    | inr (t, (ts, waiting)) ↦ rw (free, spawn_worker, waiting) (refused t ts waiting h)
    | inl clear ↦ rw (free, spawn_worker, clear) (spawned free clear h)
  ]
]
  where
    List-cases : (l : List ℕ) → (l ≡ []) ⊎ ((t : ℕ) × ((ts : List ℕ) × (l ≡ t ∷ ts)))
    List-cases [] = inl refl
    List-cases (t ∷ ts) = inr (t, (ts, refl))

    refused :
        (t : ℕ) (ts : List ℕ)
        → select (is_alive r) r.stopping ≡ t ∷ ts
        → IsSingle r
        → IsSingle record r { stopping = t ∷ ts }
    refused t ts waiting (inl none_live) = inl none_live
    refused t ts waiting (inr (u, one, inl worker)) = inr (u, one, inl worker)
    refused t ts waiting (inr (u, one, inr known)) = inr (
      u,
      one,
      inr (
          ap (contains u) (sym waiting)
          ∙ contains-select (is_alive r) u r.stopping (alive-one r u one) known),
    )

    spawned :
        has_live_worker r ≡ false
        → select (is_alive r) r.stopping ≡ []
        → IsSingle r
        → IsSingle record r {
          stopping = [];
          worker = some r.next;
          live = r.live ++ r.next ∷ [];
          next = suc r.next;
        }
    spawned free clear (inl none_live) =
        inr (r.next, ap (λ l. l ++ r.next ∷ []) none_live, inl refl)
    spawned free clear (inr (u, one, inl worker)) =
        absurd (let busy : has_live_worker r ≡ true = rw worker (alive-one r u one) in cc)
    spawned free clear (inr (u, one, inr known)) = absurd (
        let there = contains-select (is_alive r) u r.stopping (alive-one r u one) known in
        let gone = ap (contains u) clear in cc)

start_camera_worker-IsSingle :
    (exits : List ℕ) (r : Registry) → IsSingle r → IsSingle (start_camera_worker exits r)
unfolding start_camera_worker
start_camera_worker-IsSingle exits r h = elim (Bool-cases (has_live_worker r)) [
  | inl busy ↦ rw (busy, start_camera_worker) h
  | inr free ↦
      rw (free, start_camera_worker)
        (spawn_worker-IsSingle (ended exits r) (ended-IsSingle exits r h))
]

call-IsSingle : (c : Call) (r : Registry) → IsSingle r → IsSingle (call c r)
call-IsSingle (start exits) r h = start_camera_worker-IsSingle exits r h
call-IsSingle (stop exits) r h = stop_worker-IsSingle exits r h
call-IsSingle (ends exits) r h = ended-IsSingle exits r h

run-IsSingle : (cs : List Call) (r : Registry) → IsSingle r → IsSingle (run cs r)
run-IsSingle [] r h = h
run-IsSingle (c ∷ cs) r h = run-IsSingle cs (call c r) (call-IsSingle c r h)

-- While starts and stops do not overlap, whatever threads outlive their joins: a camera has at most one
-- thread that is alive.
pub run-single : (cs : List Call) (r : Registry) → IsSingle r → length (run cs r).live ≤ 1
run-single cs r h = elim (run-IsSingle cs r h) [
  | inl none_live ↦ rw none_live (omega arith)
  | inr (t, one, known) ↦ rw one (omega arith)
]

-- A start that runs between the first and the last step of a stop, whose thread is still alive, does not
-- see that thread: it spawns a second one, and both are alive.
pub spawn_worker-overlap :
    (r : Registry) (t : ℕ)
    → r.worker ≡ some t
    → r.live ≡ t ∷ []
    → select (is_alive r) r.stopping ≡ []
    → (spawn_worker (take_worker r).1).live ≡ t ∷ r.next ∷ []
unfolding spawn_worker take_worker
spawn_worker-overlap r t worker one clear =
    rw (spawn_worker, clear) (ap (λ l. l ++ r.next ∷ []) one)
