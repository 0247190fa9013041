-- ===== src/Handover/Pruning.antt =====
-- The end of `update_observations`: the number of dossiers, the maps and the order of eviction
-- (core/handover.py).
use ibvap.Common.{
  ◌-◌, ◌≤◌, ◌≡◌, refl, sym, ap, ◌∙◌, subst, true, false, some, List, [], ◌∷◌, String, ltb, length,
  take, contains, All, All-imp, is_some, string_key, arith, Bool-cases, inl, inr,
}
use ibvap.Common.Dict.{lookup, has, keys, IsDict, erase-IsDict, erase}
use ibvap.Common.Float.{Float, less}
use ibvap.Handover.Defs.{Dossier, Engine, View, Naming}
use ibvap.Handover.Updates.{
  view_all, mark_inactive, sorted, erase_all, without, evicted_ids, evict, prune,
  update_observations,
}
use ibvap.Handover.Entries.{has-erase_all, All-erase_all, All-without}
use ibvap.Handover.Soundness.{IsEntry, Leads, IsSound}
use ibvap.Handover.Preservation.{view_all-IsSound, view_all-max}
use ibvap.Handover.Sorting.{
  length-sorted, lookup-sorted, sorted-IsSorted, first-older, length-erase_all-take,
}

module _ {F : Type 0} ⦃f : Float F⦄ (naming : Naming) (now : F) where
  has-mark_inactive :
      (k : String) (l : List (String × Dossier F)) → has k (mark_inactive naming now l) ≡ has k l
  unfolding mark_inactive
  has-mark_inactive k [] = refl
  has-mark_inactive k ((j, d) ∷ l) = ground (arith, has-mark_inactive k l)

  mark_inactive-IsDict :
      (l : List (String × Dossier F)) → IsDict l → IsDict (mark_inactive naming now l)
  unfolding mark_inactive
  mark_inactive-IsDict [] s = tt
  mark_inactive-IsDict ((j, d) ∷ l) (fresh, s) =
      (ground (arith, has-mark_inactive j l), mark_inactive-IsDict l s)

  mark_inactive-entries :
      (l : List (String × Dossier F)) → All IsEntry l → All IsEntry (mark_inactive naming now l)
  unfolding mark_inactive
  mark_inactive-entries [] s = tt
  mark_inactive-entries ((j, d) ∷ l) ((named, few), s) = ground (arith, mark_inactive-entries l s)

  mark_inactive-Leads :
      {K : Type 0} (l : List (String × Dossier F)) (m : List (K × String))
      → All (Leads l) m
      → All (Leads (mark_inactive naming now l)) m
  mark_inactive-Leads l m h =
      All-imp (Leads l) (Leads (mark_inactive naming now l))
        (λ p there. has-mark_inactive p.1 l ∙ there) m h

  mark_inactive-IsSound :
      (e : Engine F)
      → IsSound e
      → IsSound record e { dossiers = mark_inactive naming now e.dossiers }
  mark_inactive-IsSound e s = record {
    is_dict = mark_inactive-IsDict e.dossiers s.is_dict;
    entries = mark_inactive-entries e.dossiers s.entries;
    tracks = mark_inactive-Leads e.dossiers e.track_map s.tracks;
    identities = mark_inactive-Leads e.dossiers e.identity_map s.identities;
    plates = mark_inactive-Leads e.dossiers e.plate_map s.plates;
  }

module _ {F : Type 0} ⦃f : Float F⦄ where
  erase_all-IsDict :
      (ids : List String) (d : List (String × Dossier F)) → IsDict d → IsDict (erase_all ids d)
  unfolding erase_all
  erase_all-IsDict [] d s = s
  erase_all-IsDict (id ∷ ids) d s = erase_all-IsDict ids (erase id d) (erase-IsDict id d s)

  without-Leads :
      {K : Type 0} (ids : List String) (d : List (String × Dossier F)) (m : List (K × String))
      → All (Leads d) m
      → All (Leads (erase_all ids d)) (without ids m)
  without-Leads ids d m h =
      All-without (Leads d) (Leads (erase_all ids d)) ids
        (λ k id there kept. ground (arith, has-erase_all id ids d)) m h

  evict-IsSound : (ids : List String) (e : Engine F) → IsSound e → IsSound (evict ids e)
  unfolding evict
  evict-IsSound ids e s = record {
    is_dict = erase_all-IsDict ids e.dossiers s.is_dict;
    entries = All-erase_all IsEntry ids e.dossiers s.entries;
    tracks = without-Leads ids e.dossiers e.track_map s.tracks;
    identities = without-Leads ids e.dossiers e.identity_map s.identities;
    plates = without-Leads ids e.dossiers e.plate_map s.plates;
  }

  prune-IsSound : (e : Engine F) → IsSound e → IsSound (prune e)
  unfolding prune
  prune-IsSound e s = elim (Bool-cases (ltb e.max_dossiers (length e.dossiers))) [
    | inl over ↦ rw (over, prune) (evict-IsSound (evicted_ids e) e s)
    | inr fits ↦ rw (fits, prune) s
  ]

  prune_bound : (e : Engine F) → IsSound e → length (prune e).dossiers ≤ e.max_dossiers
  unfolding prune evict
  prune_bound e s =
      let l = e.dossiers in
      let extra = length l - e.max_dossiers in
      ground (
        arith,
        length-erase_all-take extra (sorted l) l (lookup-sorted "" l s.is_dict).1
            (λ k h. ap is_some (sym (lookup-sorted k l s.is_dict).0) ∙ h)
            (omega (arith, length-sorted l)),
      )

  -- Where times are comparable, a dossier that pruning removes was not seen after one that it keeps.
  pub prune-oldest :
      ((a b : F) → less a b ≡ true → less b a ≡ false)
      → ((a b c : F) → less a b ≡ false → less b c ≡ false → less a c ≡ false)
      → (e : Engine F) (k k' : String) (d d' : Dossier F) → IsSound e
      → lookup k e.dossiers ≡ some d
      → has k (prune e).dossiers ≡ false
      → lookup k' e.dossiers ≡ some d'
      → has k' (prune e).dossiers ≡ true
      → less d'.last_seen_ts d.last_seen_ts ≡ false
  unfolding prune evict
  prune-oldest asym neg_trans e k k' d d' s found gone found' kept =
      let l = e.dossiers in
      let n = length l - e.max_dossiers in
      let ids = evicted_ids e in
      first-older n (sorted l) k k' d d' (sorted-IsSorted asym neg_trans l)
        ((lookup-sorted k l s.is_dict).0 ∙ found) (ground (arith, has-erase_all k ids l))
        ((lookup-sorted k' l s.is_dict).0 ∙ found')
        (elim (Bool-cases (ltb e.max_dossiers (length l))) [
          | inl over ↦ ground (arith, has-erase_all k' ids l)
          | inr fits ↦
              let none_out : n ≡ 0 = ground arith in
              ap (λ i. contains k' (keys (take i (sorted l)))) none_out
        ])

module _ {F : Type 0} ⦃f : Float F⦄ (naming : Naming) (now : F) where
  -- A call keeps the engine sound: no name of a dossier stands twice, each dossier stands under its own
  -- name with at most 20 sightings, and every entry of the three maps leads to a dossier that is still
  -- there. Afterwards there are at most `max_dossiers` dossiers.
  pub update_observations-IsSound :
      (views : List (View F)) (e : Engine F)
      → IsSound e
      → IsSound (update_observations naming now views e)
        × (length (update_observations naming now views e).dossiers ≤ e.max_dossiers)
  unfolding update_observations
  update_observations-IsSound views e s =
      let e1 = view_all naming now views e in
      let e2 = record e1 { dossiers = mark_inactive naming now e1.dossiers } in
      let s2 = mark_inactive-IsSound naming now e1 (view_all-IsSound naming now views e s) in
      (
        prune-IsSound e2 s2,
        subst (λ m. length (prune e2).dossiers ≤ m) (view_all-max naming now views e)
            (prune_bound e2 s2),
      )
