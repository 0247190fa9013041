-- ===== src/Anpr/Store.antt =====
-- The bound and the index of the plate sightings (core/anpr.py).
use ibvap.Common.{
  ℕ, ◌+◌, ◌≤◌, ◌<◌, ◌≡◌, refl, sym, ap, ◌∙◌, true, ◌||◌, some, List, [], ◌∷◌, ◌++◌, String, ltb,
  ◌==◌, arith, length, contains, same, same_self, same→eq, length-append, Bool-cases, Option-cases,
  inl, inr, nat_key, string_key,
}
use ibvap.Common.Dict.{lookup, insert, lookup-insert, lookup-erase}
use ibvap.Common.Float.{Float}
use ibvap.Anpr.Defs.{normalize_plate}
use ibvap.Anpr.Sightings.{
  PlateKey, plate_key, PlateSighting, SightingsStore, Capture, time_or, put_at, key_of, trim,
  add_sighting, seen_again, record_sighting,
}

contains-snoc : (a x : ℕ) (l : List ℕ) → contains a (l ++ x ∷ []) ≡ (contains a l || same x a)
contains-snoc a x [] = ground arith
contains-snoc a x (b ∷ l) = ground (arith, contains-snoc a x l)

module _ {F : Type 0} where
  -- The index leads only to sightings of the list that bear the key, and the sightings of the list
  -- have been made.
  pub record IsIndexed (s : SightingsStore F) : Type 0 where
    pub index :
        (k : PlateKey) (a : ℕ)
        → lookup k s.recent_index ≡ some a
        → (key_of (s.sighting_at a) ≡ k) × (contains a s.sightings ≡ true)
    pub made : (a : ℕ) → contains a s.sightings ≡ true → a < s.next

  pub record IsSound (s : SightingsStore F) : Type 0 where
    pub indexed : IsIndexed s
    pub bounded : length s.sightings ≤ s.max_sightings

  trim-IsSound :
      (s : SightingsStore F) (l : List ℕ)
      → s.sightings ≡ l
      → IsIndexed s
      → length l ≤ s.max_sightings + 1
      → IsSound (trim s l)
  unfolding trim
  trim-IsSound s [] e h b =
      let n = ap (λ (x : List ℕ). length x) e in record { indexed = h; bounded = omega arith }
  trim-IsSound s (old ∷ rest) e h b =
      let n = ap (λ (x : List ℕ). length x) e in
      elim (Bool-cases (ltb s.max_sightings (length s.sightings))) [
        | inr p ↦ rw p (record { indexed = h; bounded = ground arith })
        | inl p ↦ rw p (record {
          indexed = record {
            index = λ k a q.
                let er = lookup-erase k (key_of (s.sighting_at old)) s.recent_index in
                elim (Bool-cases (same k (key_of (s.sighting_at old)))) [
                  | inl u ↦ absurd (ground arith)
                  | inr u ↦
                      let (bears, inside) = h.index k a (ground arith) in
                      let here : contains a (old ∷ rest) ≡ true = rw e at inside in
                      (
                        bears,
                        elim (Bool-cases (same old a)) [
                          | inr v ↦ ground arith
                          | inl v ↦ absurd (
                              let w = ap (λ x. key_of (s.sighting_at x)) (same→eq old a v) in
                              let bore : key_of (s.sighting_at old) ≡ k = cc in
                              let hit : same k (key_of (s.sighting_at old)) ≡ true =
                                ap (λ x. same k x) bore ∙ same_self k in
                              cc)
                        ],
                      )
                ];
            made = λ a q.
                let back : contains a s.sightings ≡ true = rw e (ground arith) in h.made a back;
          };
          bounded = omega arith;
        })
      ]

  put_at-same : (g : ℕ → PlateSighting F) (a : ℕ) (v : PlateSighting F) → put_at g a v a ≡ v
  put_at-same g a v = ground arith

  add_sighting-IsSound :
      (s : SightingsStore F) (c : Capture F) (ts : ℕ) (key : PlateKey)
      → c.camera_id ≡ key.camera
      → IsSound s
      → IsSound (add_sighting s c key ts).0
  unfolding add_sighting
  add_sighting-IsSound s c ts key cam h =
      let new : PlateSighting F = record {
        id = c.uuid;
        camera_id = c.camera_id;
        plate_text = key.plate;
        confidence = c.confidence;
        vehicle_class = c.vehicle_class;
        timestamp = ts;
        sight_count = 1;
      } in
      let grown : SightingsStore F = record s {
        sighting_at = put_at s.sighting_at s.next new;
        next = s.next + 1;
        sightings = s.sightings ++ s.next ∷ [];
        recent_index = insert key s.next s.recent_index;
      } in
      let make : String → PlateKey = λ x. record { camera = x; plate = key.plate } in
      let bears_key : key_of new ≡ key = ap make cam in
      let indexed : IsIndexed grown = record {
        index = λ k a q.
            let ins = lookup-insert k key s.next s.recent_index in
            let con = contains-snoc a s.next s.sightings in
            elim (Bool-cases (same k key)) [
              | inl u ↦
                  let found : some s.next ≡ some a = ground arith in
                  let fa : s.next ≡ a = cc in
                  let at_new =
                    ap (λ (v : PlateSighting F). key_of v) (put_at-same s.sighting_at s.next new) in
                  let moved = ap (λ x. key_of (put_at s.sighting_at s.next new x)) fa in
                  let eqk = same→eq k key u in let self = same_self a in (cc, ground arith)
              | inr u ↦
                  let (bears, inside) = h.indexed.index k a (ground arith) in
                  let old = h.indexed.made a inside in
                  let other : put_at s.sighting_at s.next new a ≡ s.sighting_at a = ground arith in
                  (ap (λ (v : PlateSighting F). key_of v) other ∙ bears, ground arith)
            ];
        made = λ a q.
            let con = contains-snoc a s.next s.sightings in
            let old = h.indexed.made a in ground arith;
      } in
      let len = length-append s.sightings (s.next ∷ []) in
      let room = h.bounded in trim-IsSound grown grown.sightings refl indexed (omega arith)

module _ {F : Type 0} ⦃f : Float F⦄ where
  again-IsSound :
      (s : SightingsStore F) (a : ℕ) (confidence : F) (ts : ℕ)
      → IsSound s
      → IsSound (record s {
        sighting_at = put_at s.sighting_at a (seen_again (s.sighting_at a) confidence ts);
      })
  again-IsSound s a confidence ts h =
      let v = seen_again (s.sighting_at a) confidence ts in
      record {
        indexed = record {
          index = λ k b q.
              let (bears, inside) = h.indexed.index k b q in
              let kept : key_of (put_at s.sighting_at a v b) ≡ key_of (s.sighting_at b) =
                elim (Bool-cases (b == a)) [
                  | inl p ↦
                      let e : b ≡ a = ground arith in
                      let m = ap (λ x. key_of (s.sighting_at x)) e in rw p (sym m)
                  | inr p ↦ rw p refl
                ] in
              (kept ∙ bears, inside);
          made = h.indexed.made;
        };
        bounded = h.bounded;
      }

  -- Recording a sighting keeps the store within its limit, and its index leading only to sightings of
  -- the list that are of the key's camera and plate.
  pub record_sighting-IsSound :
      (upper : String → String) (s : SightingsStore F) (c : Capture F)
      → IsSound s
      → IsSound (record_sighting upper s c).0
  unfolding record_sighting
  record_sighting-IsSound upper s c h =
      let ts = time_or c.timestamp c.now in
      let key : PlateKey = record {
        camera = c.camera_id;
        plate = normalize_plate upper c.plate_text;
      } in
      elim (Option-cases (lookup key s.recent_index)) [
        | inl e ↦ rw e (add_sighting-IsSound s c ts key refl h)
        | inr (a, e) ↦ elim (Bool-cases (ltb ts ((s.sighting_at a).timestamp + 30000))) [
          | inl p ↦ rw (e, p) (again-IsSound s a c.confidence ts h)
          | inr p ↦ rw (e, p) (add_sighting-IsSound s c ts key refl h)
        ]
      ]
