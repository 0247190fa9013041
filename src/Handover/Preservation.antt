-- ===== src/Handover/Preservation.antt =====
-- Every part of `update_observations` keeps the engine sound, and its end bounds it
-- (core/handover.py).
use text.Mathlib.Text.{starts_with}
use ibvap.Common.{
  ◌≡◌, refl, ◌∙◌, true, Option, none, some, List, [], ◌∷◌, ◌++◌, String, length-last_n, All,
  same_self, string_key, arith, Bool-cases, Option-cases, inl, inr,
}
use ibvap.Common.Texts.{present}
use ibvap.Common.Dict.{lookup, insert, has, insert-IsDict}
use ibvap.Common.Float.{Float}
use ibvap.Handover.Defs.{
  Dossier, track_key, Engine, Observation, PlateRead, View, Naming, name_of, assign,
}
use ibvap.Handover.Updates.{
  seen, sighting_of, identity_map_with, touch, observe, observe_all, plate_dossier, attach,
  read_plate, read_plates, view_all,
}
use ibvap.Handover.Entries.{All-insert, All-lookup, has-insert}
use ibvap.Handover.Soundness.{IsEntry, Leads, IsSound, Leads-insert, assign-Assigned}

module _ {F : Type 0} ⦃f : Float F⦄ (naming : Naming) (now : F) where
  has-put :
      (id : String) (d : Dossier F) (dossiers : List (String × Dossier F))
      → has id (insert id d dossiers) ≡ true
  has-put id d dossiers = ground (arith, has-insert id id d dossiers, same_self id)

  identity_map_with-Leads :
      (name : Option String) (id : String) (d : Dossier F) (dossiers : List (String × Dossier F))
      (m : List (String × String))
      → has id dossiers ≡ true
      → All (Leads dossiers) m
      → All (Leads dossiers) (identity_map_with naming now name id d m)
  identity_map_with-Leads none id d dossiers m there h = h
  identity_map_with-Leads (some name) id d dossiers m there h =
      elim (Bool-cases (starts_with d.label "DOS-")) [
        | inl own ↦ rw own h
        | inr free ↦ rw free (All-insert (Leads dossiers) name id m there h)
      ]

  touch-IsSound :
      (cam_id cam_name : String) (o : Observation F) (id : String) (e : Engine F)
      → IsSound e
      → IsSound (touch naming now cam_id cam_name o id e)
  unfolding touch seen
  touch-IsSound cam_id cam_name o id e s = elim (Option-cases (lookup id e.dossiers)) [
    | inl absent ↦ rw (absent, touch) s
    | inr (d, found) ↦
        let d' = seen naming now cam_id cam_name o d in
        let there = has-put id d' e.dossiers in
        rw (found, touch)
          record {
            is_dict = insert-IsDict id d' e.dossiers s.is_dict;
            entries =
                All-insert IsEntry id d' e.dossiers
                  (
                    (All-lookup IsEntry id e.dossiers s.entries found).0,
                    omega (
                      arith,
                      length-last_n 20
                          (d.sightings ++ sighting_of naming now cam_id cam_name o ∷ []),
                    ),
                  )
                  s.entries;
            tracks =
                All-insert (Leads (insert id d' e.dossiers))
                  (record { camera = cam_id; track = o.track_id }) id e.track_map there
                  (Leads-insert id d' e.dossiers e.track_map s.tracks);
            identities =
                identity_map_with-Leads (name_of o) id d (insert id d' e.dossiers) e.identity_map
                  there (Leads-insert id d' e.dossiers e.identity_map s.identities);
            plates = Leads-insert id d' e.dossiers e.plate_map s.plates;
          }
  ]

  pub observe-IsSound :
      (cam_id cam_name : String) (o : Observation F) (e : Engine F)
      → IsSound e
      → IsSound (observe naming now cam_id cam_name o e)
  unfolding observe
  observe-IsSound cam_id cam_name o e s =
      let r = assign naming now cam_id cam_name o e in
      touch-IsSound cam_id cam_name o r.0 r.1 (assign-Assigned naming now cam_id cam_name o e s).0

  observe_all-IsSound :
      (cam_id cam_name : String) (os : List (Option (Observation F))) (e : Engine F)
      → IsSound e
      → IsSound (observe_all naming now cam_id cam_name os e)
  unfolding observe_all
  observe_all-IsSound cam_id cam_name [] e s = s
  observe_all-IsSound cam_id cam_name (none ∷ os) e s = observe_all-IsSound cam_id cam_name os e s
  observe_all-IsSound cam_id cam_name (some o ∷ os) e s =
      observe_all-IsSound cam_id cam_name os (observe naming now cam_id cam_name o e)
        (observe-IsSound cam_id cam_name o e s)

  attach-IsSound :
      (text id : String) (e : Engine F) → IsSound e → IsSound (attach naming now text id e)
  unfolding attach
  attach-IsSound text id e s = elim (Option-cases (lookup id e.dossiers)) [
    | inl absent ↦ rw (absent, attach) s
    | inr (d, found) ↦
        let d' = record d { plate = some text } in
        rw (found, attach)
          record {
            is_dict = insert-IsDict id d' e.dossiers s.is_dict;
            entries =
                All-insert IsEntry id d' e.dossiers
                  (All-lookup IsEntry id e.dossiers s.entries found) s.entries;
            tracks = Leads-insert id d' e.dossiers e.track_map s.tracks;
            identities = Leads-insert id d' e.dossiers e.identity_map s.identities;
            plates =
                All-insert (Leads (insert id d' e.dossiers)) text id e.plate_map
                  (has-put id d' e.dossiers) (Leads-insert id d' e.dossiers e.plate_map s.plates);
          }
  ]

  read_plate-IsSound :
      (cam_id : String) (p : PlateRead) (e : Engine F)
      → IsSound e
      → IsSound (read_plate naming now cam_id p e)
  unfolding read_plate
  read_plate-IsSound cam_id p e s = elim (Option-cases (present p.text)) [
    | inl absent ↦ rw (absent, read_plate) s
    | inr (text', here) ↦ elim (Option-cases (plate_dossier naming now cam_id text' p.track_id e)) [
      | inl absent ↦ rw (here, read_plate, absent) s
      | inr (id, found) ↦ rw (here, read_plate, found) (attach-IsSound text' id e s)
    ]
  ]

  read_plates-IsSound :
      (cam_id : String) (ps : List PlateRead) (e : Engine F)
      → IsSound e
      → IsSound (read_plates naming now cam_id ps e)
  unfolding read_plates
  read_plates-IsSound cam_id [] e s = s
  read_plates-IsSound cam_id (p ∷ ps) e s =
      read_plates-IsSound cam_id ps (read_plate naming now cam_id p e)
        (read_plate-IsSound cam_id p e s)

  pub view_all-IsSound :
      (vs : List (View F)) (e : Engine F) → IsSound e → IsSound (view_all naming now vs e)
  unfolding view_all
  view_all-IsSound [] e s = s
  view_all-IsSound (v ∷ vs) e s =
      let e1 = observe_all naming now v.cam_id v.cam_name v.tracks e in
      view_all-IsSound vs (read_plates naming now v.cam_id v.plates e1) (
        read_plates-IsSound v.cam_id v.plates e1
          (observe_all-IsSound v.cam_id v.cam_name v.tracks e s))

  observe-max :
      (cam_id cam_name : String) (o : Observation F) (e : Engine F)
      → (observe naming now cam_id cam_name o e).max_dossiers ≡ e.max_dossiers
  unfolding observe assign
  observe-max cam_id cam_name o e = ground arith

  observe_all-max :
      (cam_id cam_name : String) (os : List (Option (Observation F))) (e : Engine F)
      → (observe_all naming now cam_id cam_name os e).max_dossiers ≡ e.max_dossiers
  unfolding observe_all
  observe_all-max cam_id cam_name [] e = refl
  observe_all-max cam_id cam_name (none ∷ os) e = observe_all-max cam_id cam_name os e
  observe_all-max cam_id cam_name (some o ∷ os) e =
      observe_all-max cam_id cam_name os (observe naming now cam_id cam_name o e)
      ∙ observe-max cam_id cam_name o e

  read_plate-max :
      (cam_id : String) (p : PlateRead) (e : Engine F)
      → (read_plate naming now cam_id p e).max_dossiers ≡ e.max_dossiers
  unfolding read_plate
  read_plate-max cam_id p e = ground arith

  read_plates-max :
      (cam_id : String) (ps : List PlateRead) (e : Engine F)
      → (read_plates naming now cam_id ps e).max_dossiers ≡ e.max_dossiers
  unfolding read_plates
  read_plates-max cam_id [] e = refl
  read_plates-max cam_id (p ∷ ps) e =
      read_plates-max cam_id ps (read_plate naming now cam_id p e) ∙ read_plate-max cam_id p e

  pub view_all-max :
      (vs : List (View F)) (e : Engine F) → (view_all naming now vs e).max_dossiers ≡ e.max_dossiers
  unfolding view_all
  view_all-max [] e = refl
  view_all-max (v ∷ vs) e =
      let e1 = observe_all naming now v.cam_id v.cam_name v.tracks e in
      view_all-max vs (read_plates naming now v.cam_id v.plates e1)
      ∙ read_plates-max v.cam_id v.plates e1
      ∙ observe_all-max v.cam_id v.cam_name v.tracks e
