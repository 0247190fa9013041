-- ===== src/Tracker/Greedy.antt =====
-- The greedy assignment of stage 1 of `CentroidTracker.update` (core/tracker.py): no detection and no
-- track is claimed twice, and no pair that could be matched is left.
use ibvap.Common.{
  ℕ, ◌≡◌, Bool, true, false, ◌||◌, List, [], ◌∷◌, arith, contains, nat_key, string_key, All, length,
  Bool-cases, inl, inr,
}
use ibvap.Common.Float.{Float}
use ibvap.Tracker.Detections.{sort_by, insert_sorted}
use ibvap.Tracker.Matching.{Candidate, Claims, claim, claim_all}

-- No member stands twice.
abbrev pub IsDistinct : List ℕ → Type 0
IsDistinct [] = Unit
IsDistinct (x ∷ l) = (contains x l ≡ false) × IsDistinct l

module _ {F : Type 0} where
  abbrev pub IsOneToOne : Claims F → Type 0
  IsOneToOne s = IsDistinct s.dets × IsDistinct s.tids × (length s.dets ≡ length s.tids)

  -- The detection or the track of a candidate has been claimed.
  abbrev pub IsBlocked : Claims F → Candidate F → Type 0
  IsBlocked s c = (contains c.det_idx s.dets || contains c.tid s.tids) ≡ true

  -- No claim is given up.
  abbrev pub IsWider : Claims F → Claims F → Type 0
  IsWider s s' =
      ((i : ℕ) → contains i s.dets ≡ true → contains i s'.dets ≡ true)
      × ((k : ℕ) → contains k s.tids ≡ true → contains k s'.tids ≡ true)

module _ {F : Type 0} ⦃f : Float F⦄ (smooth timestamp : F) where
  claim-IsOneToOne :
      (s : Claims F) (c : Candidate F) → IsOneToOne s → IsOneToOne (claim smooth timestamp s c)
  unfolding claim
  claim-IsOneToOne s c h = ground arith

  claim-IsBlocked : (s : Claims F) (c : Candidate F) → IsBlocked (claim smooth timestamp s c) c
  unfolding claim
  claim-IsBlocked s c = ground arith

  claim-IsWider : (s : Claims F) (c : Candidate F) → IsWider s (claim smooth timestamp s c)
  unfolding claim
  claim-IsWider s c = (λ i h. ground arith, λ k h. ground arith)

  pub claim_all-IsOneToOne :
      (s : Claims F) (l : List (Candidate F))
      → IsOneToOne s
      → IsOneToOne (claim_all smooth timestamp s l)
  unfolding claim_all
  claim_all-IsOneToOne s [] h = h
  claim_all-IsOneToOne s (c ∷ l) h =
      claim_all-IsOneToOne (claim smooth timestamp s c) l (claim-IsOneToOne s c h)

  pub claim_all-IsWider :
      (s : Claims F) (l : List (Candidate F)) → IsWider s (claim_all smooth timestamp s l)
  unfolding claim_all
  claim_all-IsWider s [] = (λ i h. h, λ k h. h)
  claim_all-IsWider s (c ∷ l) =
      let (a, b) = claim-IsWider s c in
      let (a', b') = claim_all-IsWider (claim smooth timestamp s c) l in
      (λ i h. a' i (a i h), λ k h. b' k (b k h))

  pub wider-IsBlocked :
      (s s' : Claims F) (c : Candidate F) → IsWider s s' → IsBlocked s c → IsBlocked s' c
  wider-IsBlocked s s' c (a, b) h = elim (Bool-cases (contains c.det_idx s.dets)) [
    | inl p ↦ let q = a c.det_idx p in ground arith
    | inr p ↦ let q = b c.tid (ground arith) in ground arith
  ]

  pub claim_all-IsBlocked :
      (s : Claims F) (l : List (Candidate F)) → All (IsBlocked (claim_all smooth timestamp s l)) l
  unfolding claim_all
  claim_all-IsBlocked s [] = tt
  claim_all-IsBlocked s (c ∷ l) =
      let next = claim smooth timestamp s c in
      (
        wider-IsBlocked next (claim_all smooth timestamp next l) c (claim_all-IsWider next l)
            (claim-IsBlocked s c),
        claim_all-IsBlocked next l,
      )

module _ {A : Type 0} (precedes : A → A → Bool) (P : A → Type 0) where
  insert_sorted-All : (x : A) (l : List A) → All P (insert_sorted precedes x l) → P x × All P l
  unfolding insert_sorted
  insert_sorted-All x [] h = h
  insert_sorted-All x (y ∷ l) h = elim (Bool-cases (precedes y x)) [
    | inl p ↦
        let (a, b) : P y × All P (insert_sorted precedes x l) = rw p at h in
        let (c, d) = insert_sorted-All x l b in (c, (a, d))
    | inr p ↦ let g : All P (x ∷ y ∷ l) = rw p at h in g
  ]

  pub sort_by-All : (l : List A) → All P (sort_by precedes l) → All P l
  unfolding sort_by
  sort_by-All [] h = h
  sort_by-All (x ∷ l) h =
      let (a, b) = insert_sorted-All x (sort_by precedes l) h in (a, sort_by-All l b)
