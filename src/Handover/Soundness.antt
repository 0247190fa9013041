-- ===== src/Handover/Soundness.antt =====
-- The invariant of the engine: its dossiers stand under their names, and its maps lead to them
-- (core/handover.py).
use ibvap.Common.{
  ℕ, suc, ◌≤◌, ◌≡◌, refl, true, Option, none, some, List, [], ◌∷◌, String, length, All, All-imp,
  same_self, string_key, arith, Bool-cases, Option-cases, inl, inr,
}
use ibvap.Common.Dict.{lookup, insert, has, IsDict, insert-IsDict}
use ibvap.Common.Float.{Float}
use ibvap.Handover.Defs.{
  Dossier, TrackKey, track_key, Engine, Observation, Naming, name_of, by_identity, by_track,
  may_continue, by_place, new_dossier, create, assign,
}
use ibvap.Handover.Entries.{All-insert, All-lookup, has-insert}

module _ {F : Type 0} where
  -- A dossier stands under its own name, and holds at most 20 sightings.
  abbrev pub IsEntry : String × Dossier F → Type 0
  IsEntry (k, d) = (d.dossier_id ≡ k) × (length d.sightings ≤ 20)

  -- An entry of a map leads to a dossier.
  abbrev pub Leads : {K : Type 0} → List (String × Dossier F) → K × String → Type 0
  Leads dossiers (k, id) = has id dossiers ≡ true

  pub record IsSound (e : Engine F) : Type 0 where
    pub is_dict : IsDict e.dossiers
    pub entries : All IsEntry e.dossiers
    pub tracks : All (Leads e.dossiers) e.track_map
    pub identities : All (Leads e.dossiers) e.identity_map
    pub plates : All (Leads e.dossiers) e.plate_map

  -- A write of a dossier leaves every map's targets in place.
  pub Leads-insert :
      {K : Type 0} (id : String) (d : Dossier F) (dossiers : List (String × Dossier F))
      (m : List (K × String))
      → All (Leads dossiers) m
      → All (Leads (insert id d dossiers)) m
  Leads-insert id d dossiers m h =
      All-imp (Leads dossiers) (Leads (insert id d dossiers))
        (λ p there. ground (arith, has-insert p.1 id d dossiers)) m h

  -- The state with another dossier or another version of one.
  put-IsSound :
      (e : Engine F) (id : String) (d : Dossier F) (draws : ℕ)
      → IsSound e
      → d.dossier_id ≡ id
      → length d.sightings ≤ 20
      → IsSound record e { dossiers = insert id d e.dossiers; draws = draws }
  put-IsSound e id d draws s named few = record {
    is_dict = insert-IsDict id d e.dossiers s.is_dict;
    entries = All-insert IsEntry id d e.dossiers (named, few) s.entries;
    tracks = Leads-insert id d e.dossiers e.track_map s.tracks;
    identities = Leads-insert id d e.dossiers e.identity_map s.identities;
    plates = Leads-insert id d e.dossiers e.plate_map s.plates;
  }

  -- A search that may drop a stale entry keeps the dossiers, and finds one of them.
  abbrev Finds : Engine F → Option String × Engine F → Type 0
  Finds e (o, e') = IsSound e' × ((id : String) → o ≡ some id → has id e'.dossiers ≡ true)

  by_identity-Finds :
      (name : Option String) (e : Engine F) → IsSound e → Finds e (by_identity name e)
  unfolding by_identity
  by_identity-Finds none e s = (s, λ id h. cc)
  by_identity-Finds (some name) e s = elim (Option-cases (lookup name e.identity_map)) [
    | inl absent ↦ rw (absent, by_identity) (s, λ id h. cc)
    | inr (id, found) ↦
        let there : has id e.dossiers ≡ true =
          All-lookup (Leads e.dossiers) name e.identity_map s.identities found in
        rw (found, by_identity, there) (s, λ id' h. let it : id ≡ id' = cc in rw (← it) there)
  ]

  by_track-Finds : (k : TrackKey) (e : Engine F) → IsSound e → Finds e (by_track k e)
  unfolding by_track
  by_track-Finds k e s = elim (Option-cases (lookup k e.track_map)) [
    | inl absent ↦ rw (absent, by_track) (s, λ id h. cc)
    | inr (id, found) ↦
        let there : has id e.dossiers ≡ true =
          All-lookup (Leads e.dossiers) k e.track_map s.tracks found in
        rw (found, by_track, there) (s, λ id' h. let it : id ≡ id' = cc in rw (← it) there)
  ]

module _ {F : Type 0} ⦃f : Float F⦄ (naming : Naming) (now : F) where
  by_place-has :
      (window : F) (cam_id cam_name class_name : String) (d : List (String × Dossier F))
      (id : String)
      → All IsEntry d
      → by_place naming now window cam_id cam_name class_name d ≡ some id
      → has id d ≡ true
  unfolding by_place
  by_place-has window cam_id cam_name class_name [] id h e = cc
  by_place-has window cam_id cam_name class_name ((k, d) ∷ rest) id ((named, few), h) e =
      elim (Bool-cases (may_continue naming now window cam_id cam_name class_name d)) [
        | inl it ↦ let it' : id ≡ k = ground arith in rw it' (ground (arith, same_self k))
        | inr other ↦
            let tail : has id rest ≡ true =
              by_place-has window cam_id cam_name class_name rest id h (ground arith) in
            ground arith
      ]

  -- The engine after `assign` with the dossier that was chosen.
  abbrev pub Assigned : String × Engine F → Type 0
  Assigned (id, e) = IsSound e × (has id e.dossiers ≡ true)

  create-Assigned :
      (cam_name : String) (o : Observation F) (e : Engine F)
      → IsSound e
      → Assigned (create naming now cam_name o e)
  unfolding create
  create-Assigned cam_name o e s =
      let id = naming.drawn e.draws in
      let d = new_dossier naming now id cam_name o in
      (
        put-IsSound e id d (suc e.draws) s refl (omega arith),
        ground (arith, has-insert id id d e.dossiers, same_self id),
      )

  pub assign-Assigned :
      (cam_id cam_name : String) (o : Observation F) (e : Engine F)
      → IsSound e
      → Assigned (assign naming now cam_id cam_name o e)
  unfolding assign
  assign-Assigned cam_id cam_name o e s =
      let r1 = by_identity (name_of o) e in
      let (s1, found1) = by_identity-Finds (name_of o) e s in
      elim (Option-cases r1.0) [
        | inr (id, first) ↦ rw (first, assign) (s1, found1 id first)
        | inl miss1 ↦
            let r2 = by_track (record { camera = cam_id; track = o.track_id }) r1.1 in
            let (s2, found2) =
              by_track-Finds (record { camera = cam_id; track = o.track_id }) r1.1 s1 in
            elim (Option-cases r2.0) [
              | inr (id, second) ↦ rw (miss1, assign, second) (s2, found2 id second)
              | inl miss2 ↦
                  elim (Option-cases (
                    by_place naming now r2.1.handover_window_s cam_id cam_name o.class_name
                      r2.1.dossiers)) [
                        | inr (id, third) ↦
                            rw (miss1, assign, miss2, third)
                              (
                                s2,
                                by_place-has _ cam_id cam_name o.class_name r2.1.dossiers id
                                    s2.entries third,
                              )
                        | inl miss3 ↦
                            rw (miss1, assign, miss2, miss3) (create-Assigned cam_name o r2.1 s2)
                      ]
            ]
      ]
