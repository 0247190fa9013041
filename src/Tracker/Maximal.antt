-- ===== src/Tracker/Maximal.antt =====
-- What stage 1 of `CentroidTracker.update` (core/tracker.py) leaves unmatched.
use ibvap.Common.{
  ℕ, zero, suc, ◌+◌, ◌≡◌, refl, Bool, true, false, ◌||◌, ◌&&◌, some, List, [], ◌∷◌, ◌++◌, arith,
  contains, same, nat_key, string_key, get_elem?, All, length, ltb, Bool-cases, inl, inr, All-split,
}
use ibvap.Common.Float.{Float, less, num}
use ibvap.Tracker.Tracks.{Track, iou, center}
use ibvap.Tracker.Detections.{Det, sort_by}
use ibvap.Tracker.Matching.{
  Claims, claim_all, match_stage, iou_candidates, iou_candidates_of, near_candidates,
  near_candidates_of, higher_score, lower_score, center_distance,
}
use ibvap.Tracker.Greedy.{
  IsOneToOne, IsBlocked, claim_all-IsOneToOne, claim_all-IsWider, claim_all-IsBlocked, sort_by-All,
}
use ibvap.Tracker.Claimed.{first_pass, length-first_pass}

module _ {F : Type 0} ⦃f : Float F⦄ where
  -- The two conditions under which a detection may claim a track.
  abbrev pub overlaps : F → Det F → Track F → Bool
  overlaps threshold det trk =
      same trk.class_name det.class_name && less threshold (iou trk.bbox det.box)

  abbrev pub is_near : Det F → Track F → Bool
  is_near det trk =
      same trk.class_name det.class_name
      && less (center_distance (center det.box) (center trk.bbox)) (num 14 100)

module _ {F : Type 0} ⦃f : Float F⦄ (s : Claims F) where
  iou_candidates_of-All :
      (threshold : F) (i : ℕ) (det : Det F) (items : List (ℕ × Track F)) (j tid : ℕ) (trk : Track F)
      → get_elem? items j ≡ some (tid, trk)
      → overlaps threshold det trk ≡ true
      → All (IsBlocked s) (iou_candidates_of threshold i det items)
      → (contains i s.dets || contains tid s.tids) ≡ true
  unfolding iou_candidates_of
  iou_candidates_of-All threshold i det [] j tid trk e c h = absurd cc
  iou_candidates_of-All threshold i det ((k, t) ∷ items) zero tid trk e c h = ground arith
  iou_candidates_of-All threshold i det ((k, t) ∷ items) (suc j) tid trk e c h =
      iou_candidates_of-All threshold i det items j tid trk e c (ground arith)

  iou_candidates-All :
      (threshold : F) (n : ℕ) (dets : List (Det F)) (items : List (ℕ × Track F)) (i j tid : ℕ)
      (det : Det F) (trk : Track F)
      → get_elem? dets i ≡ some det
      → get_elem? items j ≡ some (tid, trk)
      → overlaps threshold det trk ≡ true
      → All (IsBlocked s) (iou_candidates threshold n dets items)
      → (contains (n + i) s.dets || contains tid s.tids) ≡ true
  unfolding iou_candidates
  iou_candidates-All threshold n [] items i j tid det trk d e c h = absurd cc
  iou_candidates-All threshold n (x ∷ dets) items zero j tid det trk d e c h =
      let (a, b) =
        All-split (IsBlocked s) (iou_candidates_of threshold n x items)
          (iou_candidates threshold (suc n) dets items) h in
      let r = iou_candidates_of-All threshold n x items j tid trk e (ground arith) a in ground arith
  iou_candidates-All threshold n (x ∷ dets) items (suc i) j tid det trk d e c h =
      let (a, b) =
        All-split (IsBlocked s) (iou_candidates_of threshold n x items)
          (iou_candidates threshold (suc n) dets items) h in
      let r = iou_candidates-All threshold (suc n) dets items i j tid det trk d e c b in
      let shift : suc n + i ≡ n + suc i = omega arith in rw shift at r

  near_candidates_of-All :
      (matched : List ℕ) (i : ℕ) (det : Det F) (items : List (ℕ × Track F)) (j tid : ℕ)
      (trk : Track F)
      → get_elem? items j ≡ some (tid, trk)
      → is_near det trk ≡ true
      → contains tid matched ≡ false
      → All (IsBlocked s) (near_candidates_of matched i det items)
      → (contains i s.dets || contains tid s.tids) ≡ true
  unfolding near_candidates_of
  near_candidates_of-All matched i det [] j tid trk e c new h = absurd cc
  near_candidates_of-All matched i det ((k, t) ∷ items) zero tid trk e c new h = ground arith
  near_candidates_of-All matched i det ((k, t) ∷ items) (suc j) tid trk e c new h =
      near_candidates_of-All matched i det items j tid trk e c new (ground arith)

  near_candidates-All :
      (claimed matched : List ℕ) (n : ℕ) (dets : List (Det F)) (items : List (ℕ × Track F))
      (i j tid : ℕ) (det : Det F) (trk : Track F)
      → get_elem? dets i ≡ some det
      → get_elem? items j ≡ some (tid, trk)
      → is_near det trk ≡ true
      → contains (n + i) claimed ≡ false
      → contains tid matched ≡ false
      → All (IsBlocked s) (near_candidates claimed matched n dets items)
      → (contains (n + i) s.dets || contains tid s.tids) ≡ true
  unfolding near_candidates
  near_candidates-All claimed matched n [] items i j tid det trk d e c out new h = absurd cc
  near_candidates-All claimed matched n (x ∷ dets) items zero j tid det trk d e c out new h =
      let shift : n + 0 ≡ n = omega arith in
      let free : contains n claimed ≡ false = rw shift at out in
      let both : All (IsBlocked s) (
          near_candidates_of matched n x items
          ++ near_candidates claimed matched (suc n) dets items) =
        rw free at h in
      let (a, b) =
        All-split (IsBlocked s) (near_candidates_of matched n x items)
          (near_candidates claimed matched (suc n) dets items) both in
      let r = near_candidates_of-All matched n x items j tid trk e (ground arith) new a in
      ground arith
  near_candidates-All claimed matched n (x ∷ dets) items (suc i) j tid det trk d e c out new h =
      let shift : n + suc i ≡ suc n + i = omega arith in
      let out' : contains (suc n + i) claimed ≡ false = rw shift at out in
      let rest : All (IsBlocked s) (near_candidates claimed matched (suc n) dets items) =
        elim (Bool-cases (contains n claimed)) [
          | inl p ↦
              let g : All (IsBlocked s) (near_candidates claimed matched (suc n) dets items) =
                rw p at h in
              g
          | inr p ↦
              let g : All (IsBlocked s) (
                  near_candidates_of matched n x items
                  ++ near_candidates claimed matched (suc n) dets items) =
                rw p at h in
              (All-split (IsBlocked s) (near_candidates_of matched n x items)
                (near_candidates claimed matched (suc n) dets items) g).1
        ] in
      let r =
        near_candidates-All claimed matched (suc n) dets items i j tid det trk d e c out' new
          rest in
      rw shift r

module _ {F : Type 0} ⦃f : Float F⦄ where
  -- Stage 1 claims no detection and no track twice, and as many tracks as detections.
  pub match_stage-IsOneToOne :
      (threshold smooth timestamp : F) (dets : List (Det F)) (items : List (ℕ × Track F))
      → IsOneToOne (match_stage threshold smooth timestamp dets items)
  unfolding match_stage
  match_stage-IsOneToOne threshold smooth timestamp dets items =
      let start : Claims F = record { tracks = items; dets = []; tids = [] } in
      let sorted = sort_by higher_score (iou_candidates threshold 0 dets items) in
      let first = claim_all smooth timestamp start sorted in
      let near = sort_by lower_score (near_candidates first.dets first.tids 0 dets items) in
      let one = claim_all-IsOneToOne smooth timestamp start sorted (tt, tt, refl) in
      let two = claim_all-IsOneToOne smooth timestamp first near one in
      elim (Bool-cases (ltb (length first.tids) (length items))) [
        | inl p ↦ rw p two
        | inr p ↦ rw p one
      ]

  -- After stage 1, a detection and a track that are both left over do not overlap by more than the
  -- threshold, and their centers are not near, if their classes agree.
  pub match_stage-IsMaximal :
      (threshold smooth timestamp : F) (dets : List (Det F)) (items : List (ℕ × Track F))
      (i j tid : ℕ) (det : Det F) (trk : Track F)
      → get_elem? dets i ≡ some det
      → get_elem? items j ≡ some (tid, trk)
      → contains i (match_stage threshold smooth timestamp dets items).dets ≡ false
      → contains tid (match_stage threshold smooth timestamp dets items).tids ≡ false
      → (overlaps threshold det trk ≡ false) × (is_near det trk ≡ false)
  unfolding match_stage first_pass
  match_stage-IsMaximal threshold smooth timestamp dets items i j tid det trk d e out new =
      let start : Claims F = record { tracks = items; dets = []; tids = [] } in
      let candidates = iou_candidates threshold 0 dets items in
      let sorted = sort_by higher_score candidates in
      let first = claim_all smooth timestamp start sorted in
      let nears = near_candidates first.dets first.tids 0 dets items in
      let near = sort_by lower_score nears in
      let second = claim_all smooth timestamp first near in
      let one = claim_all-IsOneToOne smooth timestamp start sorted (tt, tt, refl) in
      let (kept_det, kept_tid) = claim_all-IsWider smooth timestamp first near in
      let blocked =
        sort_by-All higher_score (IsBlocked first) candidates
          (claim_all-IsBlocked smooth timestamp start sorted) in
      let blocked' =
        sort_by-All lower_score (IsBlocked second) nears
          (claim_all-IsBlocked smooth timestamp first near) in
      let not_first : contains tid first.tids ≡ false =
        elim (Bool-cases (contains tid first.tids)) [
          | inl p ↦
              let later = kept_tid tid p in
              elim (Bool-cases (ltb (length first.tids) (length items))) [
                | inl q ↦ absurd (let n : contains tid second.tids ≡ false = rw q at new in cc)
                | inr q ↦ absurd (let n : contains tid first.tids ≡ false = rw q at new in cc)
              ]
          | inr p ↦ p
        ] in
      let fewer =
        length-first_pass threshold smooth timestamp dets items j tid trk e not_first one.1 in
      let both : ltb (length first.tids) (length items) ≡ true = ground arith in
      let no_tid : contains tid second.tids ≡ false = rw both at new in
      let no_det : contains i second.dets ≡ false = rw both at out in
      let no_first : contains i first.dets ≡ false = elim (Bool-cases (contains i first.dets)) [
        | inl p ↦ absurd (let later = kept_det i p in cc)
        | inr p ↦ p
      ] in
      let from_zero : 0 + i ≡ i = omega arith in
      let free : contains (0 + i) first.dets ≡ false = rw from_zero no_first in
      (
        elim (Bool-cases (overlaps threshold det trk)) [
          | inl p ↦ absurd (
              let r =
                iou_candidates-All first threshold 0 dets items i j tid det trk d e p blocked in
              ground arith)
          | inr p ↦ p
        ],
        elim (Bool-cases (is_near det trk)) [
          | inl p ↦ absurd (
              let r =
                near_candidates-All second first.dets first.tids 0 dets items i j tid det trk d e p
                  free not_first blocked' in
              ground arith)
          | inr p ↦ p
        ],
      )
