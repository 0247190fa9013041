-- ===== src/Tracker/Numbered.antt =====
-- Numbered tracks: every track stands under its own id, below the next id (core/tracker.py); what
-- the purge and single writes keep of this.
use ibvap.Common.{
  ℕ, ◌<◌, Option, none, some, List, [], ◌∷◌, ◌≡◌, refl, arith, nat_key, string_key, Option-cases,
  inl, inr,
}
use ibvap.Common.Dict.{lookup, insert, lookup-insert, insert-IsDict, IsDict}
use ibvap.Tracker.Tracks.{Track}
use ibvap.Tracker.Matching.{modify}
use ibvap.Tracker.Update.{grow_older, purge}

module _ {F : Type 0} where
  abbrev id_of : Option (Track F) → Option ℕ
  id_of none = none
  id_of (some t) = some t.track_id

  abbrev pub id_at : ℕ → List (ℕ × Track F) → Option ℕ
  id_at k d = id_of (lookup k d)

  -- Tracks stand under their own ids, all below `n`, and no id stands twice.
  pub record IsNumbered (n : ℕ) (d : List (ℕ × Track F)) : Type 0 where
    pub dict : IsDict d
    pub ids : (k i : ℕ) → id_at k d ≡ some i → (i ≡ k) × (k < n)

  pub lookup-grow : (k : ℕ) (d : List (ℕ × Track F)) → id_at k (grow_older d) ≡ id_at k d
  unfolding grow_older
  lookup-grow k [] = refl
  lookup-grow k ((j, t) ∷ d) = ground (arith, lookup-grow k d)

  pub lookup-none :
      (k : ℕ) (d : List (ℕ × Track F)) → lookup k d ≡ none → lookup k (grow_older d) ≡ none
  unfolding grow_older
  lookup-none k [] h = refl
  lookup-none k ((j, t) ∷ d) h = ground (arith, lookup-none k d)

  pub grow-IsDict : (d : List (ℕ × Track F)) → IsDict d → IsDict (grow_older d)
  unfolding grow_older
  grow-IsDict [] h = tt
  grow-IsDict ((j, t) ∷ d) h = (lookup-none j d h.0, grow-IsDict d h.1)

  pub grow-IsNumbered :
      (n : ℕ) (d : List (ℕ × Track F)) → IsNumbered n d → IsNumbered n (grow_older d)
  grow-IsNumbered n d h = record {
    dict = grow-IsDict d h.dict;
    ids = λ k i e. let l = lookup-grow k d in h.ids k i cc;
  }

  pub modify-IsNumbered :
      (n j : ℕ) (g : Track F → Track F) (d : List (ℕ × Track F))
      → ((t : Track F) → (g t).track_id ≡ t.track_id)
      → IsNumbered n d
      → IsNumbered n (modify j g d)
  unfolding modify
  modify-IsNumbered n j g d keeps h = elim (Option-cases (lookup j d)) [
    | inl e ↦ rw e h
    | inr (t, e) ↦
        let k' = keeps t in
        rw e (record {
          dict = insert-IsDict j (g t) d h.dict;
          ids = λ k i p. grind (arith, lookup-insert, h.ids k i);
        })
  ]

  pub purge-lookup :
      (max_age k : ℕ) (d : List (ℕ × Track F))
      → lookup k d ≡ none
      → lookup k (purge max_age d).0 ≡ none
  unfolding purge
  purge-lookup max_age k [] h = refl
  purge-lookup max_age k ((j, t) ∷ d) h = ground (arith, purge-lookup max_age k d)

  pub purge-IsDict : (max_age : ℕ) (d : List (ℕ × Track F)) → IsDict d → IsDict (purge max_age d).0
  unfolding purge
  purge-IsDict max_age [] h = tt
  purge-IsDict max_age ((j, t) ∷ d) h =
      ground (arith, purge-lookup max_age j d h.0, purge-IsDict max_age d h.1)

  -- What the purge keeps is as it was.
  pub purge-kept :
      (max_age k : ℕ) (d : List (ℕ × Track F)) (t : Track F)
      → IsDict d
      → lookup k (purge max_age d).0 ≡ some t
      → lookup k d ≡ some t
  unfolding purge
  purge-kept max_age k [] t h e = e
  purge-kept max_age k ((j, u) ∷ d) t h e =
      ground (arith, purge-kept max_age k d t h.1, purge-lookup max_age j d h.0)

  pub purge-IsNumbered :
      (n max_age : ℕ) (d : List (ℕ × Track F)) → IsNumbered n d → IsNumbered n (purge max_age d).0
  purge-IsNumbered n max_age d h = record {
    dict = purge-IsDict max_age d h.dict;
    ids = λ k i e. elim (Option-cases (lookup k (purge max_age d).0)) [
      | inl p ↦ absurd (ground arith)
      | inr (t, p) ↦ let q = purge-kept max_age k d t h.dict p in h.ids k i (ground arith)
    ];
  }

  pub insert-IsNumbered :
      (n tid : ℕ) (t : Track F) (d : List (ℕ × Track F))
      → t.track_id ≡ tid
      → tid < n
      → IsNumbered n d
      → IsNumbered n (insert tid t d)
  insert-IsNumbered n tid t d e b h = record {
    dict = insert-IsDict tid t d h.dict;
    ids = λ k i p. grind (arith, lookup-insert, h.ids k i);
  }
