-- ===== src/Handover/Sorting.antt =====
-- The order in which dossiers are evicted (core/handover.py).
use ibvap.Common.{
  ℕ, zero, suc, ◌+◌, ◌≤◌, ◌≡◌, refl, ap, ◌∙◌, subst, true, false, none, some, List, [], ◌∷◌, String,
  if◌then◌else◌, length, take, contains, All, All-imp, same, same→eq, same_self, is_some,
  string_key, arith, Bool-cases, inl, inr,
}
use ibvap.Common.Dict.{lookup, has, keys, IsDict, erase}
use ibvap.Common.Float.{Float, less}
use ibvap.Handover.Defs.{Dossier}
use ibvap.Handover.Updates.{place, sorted, erase_all}
use ibvap.Handover.Entries.{All-lookup, has-erase, length-erase-lt}

module _ {F : Type 0} ⦃f : Float F⦄ where
  length-place :
      (x : String × Dossier F) (l : List (String × Dossier F)) → length (place x l) ≡ length l + 1
  unfolding place
  length-place x [] = omega arith
  length-place x (y ∷ l) = ground (arith, length-place x l)

  pub length-sorted : (l : List (String × Dossier F)) → length (sorted l) ≡ length l
  unfolding sorted
  length-sorted [] = refl
  length-sorted (x ∷ l) = omega (arith, length-place x (sorted l), length-sorted l)

  lookup-place :
      (k j : String) (d : Dossier F) (l : List (String × Dossier F))
      → lookup j l ≡ none
      → lookup k (place (j, d) l) ≡ (if same k j then some d else lookup k l)
  unfolding place
  lookup-place k j d [] h = refl
  lookup-place k j d ((i, w) ∷ l) h = ground (arith, same→eq k j, same→eq k i, lookup-place k j d l)

  place-IsDict :
      (j : String) (d : Dossier F) (l : List (String × Dossier F))
      → lookup j l ≡ none
      → IsDict l
      → IsDict (place (j, d) l)
  unfolding place
  place-IsDict j d [] h s = (refl, tt)
  place-IsDict j d ((i, w) ∷ l) h s =
      ground (arith, lookup-place i j d l, place-IsDict j d l, same_flip i j)
    where
      same_flip : (a b : String) → same a b ≡ same b a
      same_flip a b = ground arith

  pub lookup-sorted :
      (k : String) (l : List (String × Dossier F))
      → IsDict l
      → (lookup k (sorted l) ≡ lookup k l) × IsDict (sorted l)
  unfolding sorted
  lookup-sorted k [] s = (refl, tt)
  lookup-sorted k ((j, d) ∷ l) (fresh, s) =
      let (same_k, dict) = lookup-sorted k l s in
      let fresh' = (lookup-sorted j l s).0 ∙ fresh in
      (
        lookup-place k j d (sorted l) fresh' ∙ ap (λ o. if same k j then some d else o) same_k,
        place-IsDict j d (sorted l) fresh' dict,
      )

  -- No entry of the list was seen before `t`.
  abbrev pub NotBefore : F → List (String × Dossier F) → Type 0
  NotBefore t l = All (λ p. less p.1.last_seen_ts t ≡ false) l

  abbrev pub IsSorted : List (String × Dossier F) → Type 0
  IsSorted [] = Unit
  IsSorted (x ∷ l) = NotBefore x.1.last_seen_ts l × IsSorted l

  module _ (asym : (a b : F) → less a b ≡ true → less b a ≡ false)
      (neg_trans : (a b c : F) → less a b ≡ false → less b c ≡ false → less a c ≡ false) where
    NotBefore-place :
        (t : F) (x : String × Dossier F) (l : List (String × Dossier F))
        → less x.1.last_seen_ts t ≡ false
        → NotBefore t l
        → NotBefore t (place x l)
    unfolding place
    NotBefore-place t x [] h s = (h, tt)
    NotBefore-place t x (y ∷ l) h (p, s) =
        elim (Bool-cases (less y.1.last_seen_ts x.1.last_seen_ts)) [
          | inl older ↦ rw older (p, NotBefore-place t x l h s)
          | inr other ↦ rw other (h, (p, s))
        ]

    place-IsSorted :
        (x : String × Dossier F) (l : List (String × Dossier F)) → IsSorted l → IsSorted (place x l)
    unfolding place
    place-IsSorted x [] s = (tt, tt)
    place-IsSorted x (y ∷ l) (p, s) = elim (Bool-cases (less y.1.last_seen_ts x.1.last_seen_ts)) [
      | inl older ↦
          rw older (NotBefore-place y.1.last_seen_ts x l (asym _ _ older) p, place-IsSorted x l s)
      | inr other ↦ rw other (
        (
          other,
          All-imp (λ q. less q.1.last_seen_ts y.1.last_seen_ts ≡ false)
              (λ q. less q.1.last_seen_ts x.1.last_seen_ts ≡ false)
              (λ q h. neg_trans q.1.last_seen_ts y.1.last_seen_ts x.1.last_seen_ts h other) l p,
        ),
        (p, s),
      )
    ]

    pub sorted-IsSorted : (l : List (String × Dossier F)) → IsSorted (sorted l)
    unfolding sorted
    sorted-IsSorted [] = tt
    sorted-IsSorted (x ∷ l) = place-IsSorted x (sorted l) (sorted-IsSorted l)

  -- Of a sorted list, what the first `n` entries hold was not seen after what the others hold.
  pub first-older :
      (n : ℕ) (s : List (String × Dossier F)) (k k' : String) (d d' : Dossier F)
      → IsSorted s
      → lookup k s ≡ some d
      → contains k (keys (take n s)) ≡ true
      → lookup k' s ≡ some d'
      → contains k' (keys (take n s)) ≡ false
      → less d'.last_seen_ts d.last_seen_ts ≡ false
  first-older zero s k k' d d' ordered found out found' kept = cc
  first-older (suc n) [] k k' d d' ordered found out found' kept = cc
  first-older (suc n) ((j, v) ∷ t) k k' d d' (p, ordered) found out found' kept =
      let other' : same k' j ≡ false = ground (arith, same_flip k' j) in
      let rest' : lookup k' t ≡ some d' = ground arith in
      let kept' : contains k' (keys (take n t)) ≡ false = ground arith in
      elim (Bool-cases (same k j)) [
        | inl it ↦
            let it' : v ≡ d = ground arith in
            subst (λ (w : Dossier F). less d'.last_seen_ts w.last_seen_ts ≡ false) it'
              (All-lookup (λ q. less q.1.last_seen_ts v.last_seen_ts ≡ false) k' t p rest')
        | inr other ↦
            first-older n t k k' d d' ordered (ground arith) (ground (arith, same_flip k j)) rest'
              kept'
      ]
    where
      same_flip : (a b : String) → same a b ≡ same b a
      same_flip a b = ground arith

  -- The first entries are all there to be erased.
  pub length-erase_all-take :
      (n : ℕ) (s d : List (String × Dossier F))
      → IsDict s
      → ((k : String) → has k s ≡ true → has k d ≡ true)
      → n ≤ length s
      → length (erase_all (keys (take n s)) d) + n ≤ length d
  unfolding erase_all
  length-erase_all-take zero s d dict sub h = omega arith
  length-erase_all-take (suc n) [] d dict sub h = absurd (omega arith)
  length-erase_all-take (suc n) ((j, v) ∷ t) d (fresh, dict) sub h =
      let shorter : length (erase j d) + 1 ≤ length d =
        length-erase-lt j d (sub j (ground (arith, same_self j))) in
      let sub' : (k : String) → has k t ≡ true → has k (erase j d) ≡ true = λ k there.
        elim (Bool-cases (same k j)) [
          | inl it ↦
              let gone : has k t ≡ false = ap (λ i. has i t) (same→eq k j it) ∙ ap is_some fresh in
              absurd (cc)
          | inr other ↦ ground (arith, has-erase k j d, sub k (ground arith))
        ] in
      omega (arith, shorter, length-erase_all-take n t (erase j d) dict sub' (omega arith))
