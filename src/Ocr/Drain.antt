-- ===== src/Ocr/Drain.antt =====
-- What a drain leaves (services/stream_worker.py).
use ibvap.Common.{
  ◌≡◌, refl, ◌∙◌, true, Option, none, some, List, [], ◌∷◌, map, All, All-append, Bool-cases,
  Option-cases, inl, inr,
}
use ibvap.Common.Float.{Float, minus, at_most}
use ibvap.Ocr.Defs.{
  Future, Drained, nothing, stamp, stamped, is_overdue, reap, drain_one, drain_each,
  drain_ocr_futures,
}

module _ {F R : Type 0} ⦃f : Float F⦄ where
  -- Submitted, and not after `now`.
  abbrev pub IsStamped : F → Future F R → Type 0
  IsStamped now x = (s : F) × (x.submitted ≡ some s) × (at_most s now ≡ true)

  -- Not submitted after `now`, where a stamp is there.
  abbrev pub IsPast : F → Future F R → Type 0
  IsPast now x = (s : F) → x.submitted ≡ some s → at_most s now ≡ true

  -- The outcomes at a later time.
  abbrev pub with_outcomes :
      (Future F R → Option (Option R)) → List (Future F R) → List (Future F R)
  with_outcomes finish xs = map {A = Future F R} (λ x. record x { outcome = finish x }) xs

  stamped-IsStamped :
      (now : F) (x : Future F R)
      → at_most now now ≡ true
      → IsPast now x
      → IsStamped now (stamped now x)
  stamped-IsStamped now x self past = elim (Option-cases x.submitted) [
    | inl unstamped ↦ (stamp now x, refl, rw unstamped self)
    | inr (s, e) ↦ (stamp now x, refl, rw e (past s e))
  ]

  drain_one-keep :
      (timeout now : F) (x : Future F R) (d : Drained F R)
      → at_most now now ≡ true
      → IsPast now x
      → All (IsStamped now) d.keep
      → All (IsStamped now) (drain_one timeout now x d).keep
  unfolding drain_one reap
  drain_one-keep timeout now x d self past h = elim (Option-cases x.outcome) [
    | inr (some r, done) ↦ rw (drain_one, done) h
    | inr (none, done) ↦ rw (drain_one, done) h
    | inl pending ↦ elim (Bool-cases (is_overdue timeout now x)) [
      | inl old ↦ rw (drain_one, pending, reap, old) h
      | inr young ↦
          rw (drain_one, pending, reap, young)
            (All-append (IsStamped now) d.keep (stamped now x ∷ []) h
              (stamped-IsStamped now x self past, tt))
    ]
  ]

  drain_each-keep :
      (timeout now : F) (xs : List (Future F R)) (d : Drained F R)
      → at_most now now ≡ true
      → All (IsPast now) xs
      → All (IsStamped now) d.keep
      → All (IsStamped now) (drain_each timeout now xs d).keep
  unfolding drain_each
  drain_each-keep timeout now [] d self past h = h
  drain_each-keep timeout now (x ∷ xs) d self (here, past) h =
      drain_each-keep timeout now xs (drain_one timeout now x d) self past
        (drain_one-keep timeout now x d self here h)

  drain_ocr_futures-keep :
      (timeout now : F) (xs : List (Future F R))
      → at_most now now ≡ true
      → All (IsPast now) xs
      → All (IsStamped now) (drain_ocr_futures timeout now xs).keep
  unfolding drain_ocr_futures
  drain_ocr_futures-keep timeout now [] self past = tt
  drain_ocr_futures-keep timeout now (x ∷ xs) self past =
      drain_each-keep timeout now (x ∷ xs) nothing self past tt

  abbrev IsOverdue : F → F → Future F R → Type 0
  IsOverdue timeout now x = is_overdue timeout now x ≡ true

  drain_one-overdue :
      (timeout now : F) (x : Future F R) (d : Drained F R)
      → IsOverdue timeout now x
      → (drain_one timeout now x d).keep ≡ d.keep
  unfolding drain_one reap
  drain_one-overdue timeout now x d old = elim (Option-cases x.outcome) [
    | inr (some r, done) ↦ rw (drain_one, done) refl
    | inr (none, done) ↦ rw (drain_one, done) refl
    | inl pending ↦ rw (drain_one, pending, reap, old) refl
  ]

  drain_each-overdue :
      (timeout now : F) (xs : List (Future F R)) (d : Drained F R)
      → All (IsOverdue timeout now) xs
      → (drain_each timeout now xs d).keep ≡ d.keep
  unfolding drain_each
  drain_each-overdue timeout now [] d h = refl
  drain_each-overdue timeout now (x ∷ xs) d (here, h) =
      drain_each-overdue timeout now xs (drain_one timeout now x d) h
      ∙ drain_one-overdue timeout now x d here

  drain_ocr_futures-overdue :
      (timeout now : F) (xs : List (Future F R))
      → All (IsOverdue timeout now) xs
      → (drain_ocr_futures timeout now xs).keep ≡ []
  unfolding drain_ocr_futures
  drain_ocr_futures-overdue timeout now [] h = refl
  drain_ocr_futures-overdue timeout now (x ∷ xs) h =
      drain_each-overdue timeout now (x ∷ xs) nothing h

  All-with_outcomes :
      (finish : Future F R → Option (Option R)) (timeout now later : F)
      → ((s : F) → at_most s now ≡ true → at_most timeout (minus later s) ≡ true)
      → (xs : List (Future F R)) → All (IsStamped now) xs
      → All (IsOverdue timeout later) (with_outcomes finish xs)
  All-with_outcomes finish timeout now later mono [] h = tt
  All-with_outcomes finish timeout now later mono (x ∷ xs) ((s, e, past), h) =
      (rw e (mono s past), All-with_outcomes finish timeout now later mono xs h)

  -- Where ages grow with the clock: a drain that comes at least the timeout after another one keeps none of
  -- the futures that the first one kept, with a stamp or without, whatever became of them in between.
  pub drain_ocr_futures-clears :
      (mono : (t a b c : F)
        → at_most a b ≡ true
        → at_most t (minus c b) ≡ true
        → at_most t (minus c a) ≡ true)
      (timeout now later : F) (finish : Future F R → Option (Option R))
      (pending : List (Future F R))
      → at_most now now ≡ true
      → All (IsPast now) pending
      → at_most timeout (minus later now) ≡ true
      → (drain_ocr_futures timeout later
          (with_outcomes finish (drain_ocr_futures timeout now pending).keep)).keep
        ≡ []
  drain_ocr_futures-clears mono timeout now later finish pending self past passed =
      drain_ocr_futures-overdue timeout later _ (
        All-with_outcomes finish timeout now later (λ s h. mono timeout s now later h passed) _
          (drain_ocr_futures-keep timeout now pending self past))
