-- ===== src/Handover/Entries.antt =====
-- Dictionaries whose entries all have a property, under the writes of core/handover.py.
use ibvap.Common.{
  ◌+◌, ◌≤◌, ◌≡◌, refl, sym, ap, subst, true, false, not, ◌||◌, ◌&&◌, some, List, [], ◌∷◌, String,
  length, contains, All, Key, same, same→eq, string_key, arith, Bool-cases, inl, inr,
}
use ibvap.Common.Dict.{lookup, insert, erase, has, lookup-insert, lookup-erase, length-erase-le}
use ibvap.Handover.Updates.{erase_all, without}

same_sym {ℓ} : {A : Type ℓ} ⦃k : Key A⦄ (a b : A) → same a b ≡ same b a
same_sym ⦃k⦄ a b = ground arith

module _ {ℓ κ μ} {K : Type ℓ} {V : Type κ} ⦃e : Key K⦄ (P : K × V → Type μ) where
  pub All-insert : (k : K) (v : V) (d : List (K × V)) → P (k, v) → All P d → All P (insert k v d)
  unfolding insert
  All-insert k v [] p h = (p, tt)
  All-insert k v ((j, w) ∷ d) p (q, h) = elim (Bool-cases (same k j)) [
    | inl it ↦ rw it (subst (λ i. P (i, v)) (same→eq k j it) p, h)
    | inr other ↦ rw other (q, All-insert k v d p h)
  ]

  pub All-erase : (k : K) (d : List (K × V)) → All P d → All P (erase k d)
  unfolding erase
  All-erase k [] h = h
  All-erase k ((j, w) ∷ d) (q, h) = elim (Bool-cases (same k j)) [
    | inl it ↦ rw it (All-erase k d h)
    | inr other ↦ rw other (q, All-erase k d h)
  ]

  pub All-lookup : (k : K) (d : List (K × V)) {v : V} → All P d → lookup k d ≡ some v → P (k, v)
  All-lookup k [] h e = cc
  All-lookup k ((j, w) ∷ d) {v} (q, h) found = elim (Bool-cases (same k j)) [
    | inl it ↦
        let it' : w ≡ v = ground arith in
        subst P (ap (λ i. (i, v)) (sym (same→eq k j it))) (subst (λ x. P (j, x)) it' q)
    | inr other ↦ All-lookup k d h (ground arith)
  ]

module _ {ℓ κ} {K : Type ℓ} {V : Type κ} ⦃e : Key K⦄ where
  pub has-insert :
      (j k : K) (v : V) (d : List (K × V)) → has j (insert k v d) ≡ (same j k || has j d)
  has-insert j k v d = ground (arith, lookup-insert j k v d)

  pub has-erase : (j k : K) (d : List (K × V)) → has j (erase k d) ≡ (not (same j k) && has j d)
  has-erase j k d = ground (arith, lookup-erase j k d)

  pub has-erase_all :
      (j : K) (ks : List K) (d : List (K × V))
      → has j (erase_all ks d) ≡ (not (contains j ks) && has j d)
  unfolding erase_all
  has-erase_all j [] d = refl
  has-erase_all j (k ∷ ks) d =
      ground (arith, same_sym j k, has-erase j k d, has-erase_all j ks (erase k d))

  pub All-erase_all {μ} :
      (P : K × V → Type μ) (ks : List K) (d : List (K × V)) → All P d → All P (erase_all ks d)
  unfolding erase_all
  All-erase_all P [] d h = h
  All-erase_all P (k ∷ ks) d h = All-erase_all P ks (erase k d) (All-erase P k d h)

  -- To erase a key that is there makes the dictionary shorter.
  pub length-erase-lt :
      (k : K) (d : List (K × V)) → has k d ≡ true → length (erase k d) + 1 ≤ length d
  unfolding erase
  length-erase-lt k [] h = cc
  length-erase-lt k ((j, w) ∷ d) h = ground (arith, length-erase-le k d, length-erase-lt k d)

module _ {K : Type 0} where
  -- What `without` keeps was there, and leads to nothing that was evicted.
  pub All-without :
      (P Q : K × String → Type 0) (evicted : List String)
      → ((k : K) (id : String) → P (k, id) → contains id evicted ≡ false → Q (k, id))
      → (m : List (K × String)) → All P m
      → All Q (without evicted m)
  unfolding without
  All-without P Q evicted g [] h = tt
  All-without P Q evicted g ((k, id) ∷ m) (p, h) = elim (Bool-cases (contains id evicted)) [
    | inl gone ↦ rw gone (All-without P Q evicted g m h)
    | inr stays ↦ rw stays (g k id p stays, All-without P Q evicted g m h)
  ]
