-- ===== src/Tracker/Claimed.antt =====
-- The tracks that stage 1 of `CentroidTracker.update` (core/tracker.py) claims by overlap are tracks of
-- the dictionary, and how many there can be.
use ibvap.Common.{
  ℕ, zero, suc, ◌+◌, ◌≡◌, refl, Bool, true, false, not, ◌&&◌, some, List, [], ◌∷◌, arith, contains,
  same, nat_key, string_key, if◌then◌else◌, get_elem?, All, length, Bool-cases, inl, inr,
  All-append, ◌≤◌, ◌<◌, ap,
}
use ibvap.Common.Float.{Float}
use ibvap.Tracker.Tracks.{Track}
use ibvap.Tracker.Detections.{Det, sort_by, insert_sorted}
use ibvap.Tracker.Matching.{
  Candidate, Claims, claim, claim_all, iou_candidates, iou_candidates_of, higher_score,
}
use ibvap.Common.Dict.{keys}
use ibvap.Tracker.Greedy.{IsDistinct}

-- The members of a list without `x`.
abbrev without : ℕ → List ℕ → List ℕ
without x [] = []
without x (y ∷ l) = if same y x then without x l else y ∷ without x l

without-contains :
    (x a : ℕ) (l : List ℕ) → contains a (without x l) ≡ (contains a l && not (same a x))
without-contains x a [] = refl
without-contains x a (y ∷ l) = ground (arith, without-contains x a l)

without-length :
    (x : ℕ) (l : List ℕ) → (length (without x l) + (if contains x l then 1 else 0)) ≤ length l
without-length x [] = omega arith
without-length x (y ∷ l) = ground (arith, without-length x l)

-- Distinct numbers that all stand in a list are not more than its members.
pub distinct-length :
    (l m : List ℕ)
    → IsDistinct l
    → ((a : ℕ) → contains a l ≡ true → contains a m ≡ true)
    → length l ≤ length m
distinct-length [] m d h = omega arith
distinct-length (x ∷ l) m d h =
    let inside = h x (ground arith) in
    let r = distinct-length l (without x m) d.1 (λ a p.
      let q = h a (ground arith) in
      let w = without-contains x a m in let new = d.0 in grind arith) in
    ground (arith, without-length x m)

-- Keys and positions of a dictionary of tracks.
module _ {F : Type 0} where
  pub keys-get_elem? :
      (items : List (ℕ × Track F)) (j tid : ℕ) (trk : Track F)
      → get_elem? items j ≡ some (tid, trk)
      → contains tid (keys items) ≡ true
  keys-get_elem? [] j tid trk e = absurd cc
  keys-get_elem? ((k, t) ∷ items) zero tid trk e = ground arith
  keys-get_elem? ((k, t) ∷ items) (suc j) tid trk e =
      let r = keys-get_elem? items j tid trk e in ground arith

  pub length-keys : (items : List (ℕ × Track F)) → length (keys items) ≡ length items
  length-keys [] = refl
  length-keys ((k, t) ∷ items) = ap suc (length-keys items)

module _ {A : Type 0} (precedes : A → A → Bool) (P : A → Type 0) where
  All-insert_sorted : (x : A) (l : List A) → P x → All P l → All P (insert_sorted precedes x l)
  unfolding insert_sorted
  All-insert_sorted x [] p h = (p, tt)
  All-insert_sorted x (y ∷ l) p (q, h) = elim (Bool-cases (precedes y x)) [
    | inl e ↦ rw e (q, All-insert_sorted x l p h)
    | inr e ↦ rw e (p, (q, h))
  ]

  All-sort_by : (l : List A) → All P l → All P (sort_by precedes l)
  unfolding sort_by
  All-sort_by [] h = tt
  All-sort_by (x ∷ l) (p, h) = All-insert_sorted x (sort_by precedes l) p (All-sort_by l h)

module _ {F : Type 0} ⦃f : Float F⦄ (m : List ℕ) where
  abbrev IsOf : Candidate F → Type 0
  IsOf c = contains c.tid m ≡ true

  iou_candidates_of-IsOf :
      (threshold : F) (i : ℕ) (det : Det F) (items : List (ℕ × Track F))
      → ((a : ℕ) → contains a (keys items) ≡ true → contains a m ≡ true)
      → All IsOf (iou_candidates_of threshold i det items)
  unfolding iou_candidates_of
  iou_candidates_of-IsOf threshold i det [] h = tt
  iou_candidates_of-IsOf threshold i det ((k, t) ∷ items) h =
      let here = h k (ground arith) in
      let rest = iou_candidates_of-IsOf threshold i det items (λ a e. h a (ground arith)) in
      ground arith

  iou_candidates-IsOf :
      (threshold : F) (n : ℕ) (dets : List (Det F)) (items : List (ℕ × Track F))
      → ((a : ℕ) → contains a (keys items) ≡ true → contains a m ≡ true)
      → All IsOf (iou_candidates threshold n dets items)
  unfolding iou_candidates
  iou_candidates-IsOf threshold n [] items h = tt
  iou_candidates-IsOf threshold n (det ∷ dets) items h =
      All-append IsOf (iou_candidates_of threshold n det items)
        (iou_candidates threshold (suc n) dets items)
        (iou_candidates_of-IsOf threshold n det items h)
        (iou_candidates-IsOf threshold (suc n) dets items h)

  claim_all-within :
      (smooth timestamp : F) (s : Claims F) (l : List (Candidate F))
      → All IsOf l
      → ((a : ℕ) → contains a s.tids ≡ true → contains a m ≡ true)
      → (a : ℕ) → contains a (claim_all smooth timestamp s l).tids ≡ true
      → contains a m ≡ true
  unfolding claim_all claim
  claim_all-within smooth timestamp s [] q h a e = h a e
  claim_all-within smooth timestamp s (c ∷ l) (p, q) h a e =
      claim_all-within smooth timestamp (claim smooth timestamp s c) l q
        (λ b eb. grind (arith, h b)) a e

-- The first pass over the candidates.
unfoldable pub first_pass :
    {F : Type 0} ⦃f : Float F⦄ → F → F → F → List (Det F) → List (ℕ × Track F) → Claims F
unfolding claim_all sort_by iou_candidates
first_pass threshold smooth timestamp dets items =
    claim_all smooth timestamp (record { tracks = items; dets = []; tids = [] })
      (sort_by higher_score (iou_candidates threshold 0 dets items))

module _ {F : Type 0} ⦃f : Float F⦄ where
  -- While a track is left, the first pass has claimed fewer tracks than there are.
  pub length-first_pass :
      (threshold smooth timestamp : F) (dets : List (Det F)) (items : List (ℕ × Track F))
      (j tid : ℕ) (trk : Track F)
      → get_elem? items j ≡ some (tid, trk)
      → contains tid (first_pass threshold smooth timestamp dets items).tids ≡ false
      → IsDistinct (first_pass threshold smooth timestamp dets items).tids
      → length (first_pass threshold smooth timestamp dets items).tids < length items
  unfolding first_pass
  length-first_pass threshold smooth timestamp dets items j tid trk e new d =
      let sorted =
        All-sort_by higher_score (IsOf (keys items)) (iou_candidates threshold 0 dets items)
          (iou_candidates-IsOf (keys items) threshold 0 dets items (λ a p. p)) in
      let within =
        claim_all-within (keys items) smooth timestamp
          (record { tracks = items; dets = []; tids = [] })
          (sort_by higher_score (iou_candidates threshold 0 dets items)) sorted
          (λ a p. absurd cc) in
      let inside = keys-get_elem? items j tid trk e in
      let counted =
        distinct-length (tid ∷ (first_pass threshold smooth timestamp dets items).tids) (keys items)
          (new, d)
          (λ a p. elim (Bool-cases (same tid a)) [
            | inl q ↦ ground arith
            | inr q ↦ within a (ground arith)
          ]) in
      omega (arith, length-keys items)
