-- ===== src/Watchlist/Reload.antt =====
-- A saved watchlist is loaded back (core/watchlist.py).
use ibvap.Common.{
  ◌≡◌, refl, sym, ap, ◌∙◌, subst, true, false, Option, none, some, List, [], ◌∷◌, ◌++◌, map, String,
  if◌then◌else◌, All, same, Key, string_key, string_eq?, arith,
}
use ibvap.Common.Dict.{lookup, insert, values, IsDict, lookup-insert}
use ibvap.Watchlist.Defs.{
  ThreatLevel, critical, high, medium, low, TargetType, face, plate, WatchlistEntry, Vectors,
  threat_text, threat_of_text, target_text, plate_or, decode_gallery, load_item, save_item,
  WatchlistStore, save, load_items, load,
}

module _ {ℓ κ} {K : Type ℓ} {V : Type κ} ⦃e : Key K⦄ where
  insert-fresh :
      (k : K) (v : V) (d : List (K × V)) → lookup k d ≡ none → insert k v d ≡ d ++ (k, v) ∷ []
  unfolding insert
  insert-fresh k v [] h = refl
  insert-fresh k v ((j, w) ∷ d) h = ground (arith, insert-fresh k v d)

  -- Keys that are not `k`, and that a dictionary does not have.
  fresh-apart : (k : K) (d : List (K × V)) → lookup k d ≡ none → All (λ p. same p.0 k ≡ false) d
  fresh-apart k [] h = tt
  fresh-apart k ((j, w) ∷ d) h = (ground arith, fresh-apart k d (ground arith))

  fresh-insert :
      (k : K) (v : V) (acc d : List (K × V))
      → All (λ p. same p.0 k ≡ false) d
      → All (λ p. lookup p.0 acc ≡ none) d
      → All (λ p. lookup p.0 (insert k v acc) ≡ none) d
  fresh-insert k v acc [] h g = tt
  fresh-insert k v acc ((j, w) ∷ d) (p, h) (q, g) =
      (ground (arith, lookup-insert j k v acc), fresh-insert k v acc d h g)

module _ {ℓ} {A : Type ℓ} where
  snoc_assoc : (xs ys : List A) (x : A) → (xs ++ x ∷ []) ++ ys ≡ xs ++ x ∷ ys
  snoc_assoc [] ys x = refl
  snoc_assoc (y ∷ xs) ys x = ap (λ l. y ∷ l) (snoc_assoc xs ys x)

  append_nil : (xs : List A) → xs ++ [] ≡ xs
  append_nil [] = refl
  append_nil (x ∷ xs) = ap (λ l. x ∷ l) (append_nil xs)

module _ {V : Type 0} (vectors : Vectors V)
    (decodes : (v : V) → vectors.decode (vectors.encode v) ≡ some v)
    (upper : (t : ThreatLevel) → vectors.upper (threat_text t) ≡ threat_text t)
    (lower : (t : TargetType) → vectors.lower (target_text t) ≡ target_text t) where
  decode-encode :
      (vs : List V)
      → All (λ v. vectors.is_valid_exemplar v ≡ true) vs
      → decode_gallery vectors (map vectors.encode vs) ≡ some vs
  unfolding decode_gallery
  decode-encode [] h = refl
  decode-encode (v ∷ vs) (p, h) = rw (decodes v, decode-encode vs h, p)

  threat_of_text-threat_text :
      (t : ThreatLevel) → threat_of_text (vectors.upper (threat_text t)) ≡ t
  unfolding threat_of_text threat_text string_eq?
  threat_of_text-threat_text t = ap threat_of_text (upper t) ∙ back t
    where
      back : (t : ThreatLevel) → threat_of_text (threat_text t) ≡ t
      back critical = refl
      back high = refl
      back medium = refl
      back low = refl

  target-back :
      (t : TargetType) → (if same (vectors.lower (target_text t)) "plate" then plate else face) ≡ t
  unfolding target_text string_eq?
  target-back t = ap (λ x. if same x "plate" then plate else face) (lower t) ∙ back t
    where
      back : (t : TargetType) → (if same (target_text t) "plate" then plate else face) ≡ t
      back face = refl
      back plate = refl

module _ {F V : Type 0} (vectors : Vectors V)
    (decodes : (v : V) → vectors.decode (vectors.encode v) ≡ some v)
    (upper : (t : ThreatLevel) → vectors.upper (threat_text t) ≡ threat_text t)
    (lower : (t : TargetType) → vectors.lower (target_text t) ≡ target_text t) where
  -- An entry under its own id, of valid vectors, whose plate is in normal form where it has one.
  abbrev pub IsEntry : String × WatchlistEntry F V → Type 0
  IsEntry (k, e) =
      (e.id ≡ k)
      × All (λ v. vectors.is_valid_exemplar v ≡ true) e.gallery
      × (plate_or vectors e.normalized_plate e.plate_number ≡ e.normalized_plate)

  load_item-save_item :
      (k : String) (e : WatchlistEntry F V)
      → IsEntry (k, e)
      → load_item vectors (save_item vectors e) ≡ some e
  unfolding load_item save_item
  load_item-save_item k e (named, valid, normal) =
      rw (load_item, decode-encode vectors decodes upper lower e.gallery valid)
        (ap some (
          ext (threat_of_text-threat_text vectors decodes upper lower e.threat_level)
            (target-back vectors decodes upper lower e.target_type) normal))
    where
      ext :
          {t : ThreatLevel} {y : TargetType} {p : Option String}
          → t ≡ e.threat_level
          → y ≡ e.target_type
          → p ≡ e.normalized_plate
          → record e { threat_level = t; target_type = y; normalized_plate = p } ≡ e
      ext a b c = ground arith

  load_items-save :
      (d acc : List (String × WatchlistEntry F V))
      → All IsEntry d
      → IsDict d
      → All (λ p. lookup p.0 acc ≡ none) d
      → load_items vectors (map (save_item vectors) (values d)) acc ≡ some (acc ++ d)
  unfolding load_items
  load_items-save [] acc h dict fresh = ap some (sym (append_nil acc))
  load_items-save ((k, e) ∷ d) acc (h, hs) (apart, dict) (f, fs) =
      let named : e.id ≡ k = h.0 in
      let inserted : insert e.id e acc ≡ acc ++ (k, e) ∷ [] =
        ap (λ i. insert i e acc) named ∙ insert-fresh k e acc f in
      let fresh' = fresh-insert k e acc d (fresh-apart k d apart) fs in
      let fresh'' = subst (λ l. All (λ p. lookup p.0 l ≡ none) d) (insert-fresh k e acc f) fresh' in
      rw (load_items, load_item-save_item k e h, inserted)
        (load_items-save d (acc ++ (k, e) ∷ []) hs dict fresh'' ∙ ap some (snoc_assoc acc d (k, e)))

  nothing-fresh :
      (d : List (String × WatchlistEntry F V))
      → All (λ p. lookup {V = WatchlistEntry F V} p.0 [] ≡ none) d
  nothing-fresh [] = tt
  nothing-fresh (p ∷ d) = (refl, nothing-fresh d)

  -- Where base64 and the capitals behave: a process that starts after a save has the same entries in the
  -- same order, if each entry stands under its own id, has valid vectors only, and keeps its plate in
  -- normal form.
  pub load-save :
      (s : WatchlistStore F V)
      → IsDict s.entries
      → All IsEntry s.entries
      → (load vectors (save vectors true s).document).entries ≡ s.entries
  unfolding load save
  load-save s dict entries =
      rw (load_items-save s.entries [] entries dict (nothing-fresh s.entries)) refl
