-- ===== src/FrameQueue/Freshness.antt =====
-- What the queue hands out, and how old it can be.
use ibvap.Common.{
  ℕ, suc, ◌+◌, ◌-◌, ◌≤◌, ◌≡◌, refl, ◌⊎◌, inl, inr, true, false, Option, none, some, List, [], ◌∷◌,
  ◌++◌, arith, length, get_last?, All, All-append, Bool-cases, Option-cases, dec_le,
}
use ibvap.FrameQueue.Defs.{
  Queue, Result, ok, index_error, is_stale, drop_stale, make_room, enqueue, put, take_latest,
  get_latest,
}

module _ {A : Type 0} where
  -- The times never decrease along the queue, from `lo` to `hi`.
  abbrev pub IsOrdered : ℕ → List (ℕ × A) → ℕ → Type 0
  IsOrdered lo [] hi = lo ≤ hi
  IsOrdered lo ((ts, a) ∷ rest) hi = (lo ≤ ts) × IsOrdered ts rest hi

  IsOrdered-weaken :
      (lo lo' hi : ℕ) (l : List (ℕ × A)) → lo' ≤ lo → IsOrdered lo l hi → IsOrdered lo' l hi
  IsOrdered-weaken lo lo' hi [] h o = omega arith
  IsOrdered-weaken lo lo' hi ((ts, a) ∷ rest) h o = (omega arith, o.1)

  IsOrdered-le : (lo hi : ℕ) (l : List (ℕ × A)) → IsOrdered lo l hi → lo ≤ hi
  IsOrdered-le lo hi [] o = o
  IsOrdered-le lo hi ((ts, a) ∷ rest) o = omega (arith, IsOrdered-le ts hi rest o.1)

  IsOrdered-append :
      (lo hi now : ℕ) (l : List (ℕ × A)) (a : A)
      → hi ≤ now
      → IsOrdered lo l hi
      → IsOrdered lo (l ++ (now, a) ∷ []) now
  IsOrdered-append lo hi now [] a h o = (omega arith, omega arith)
  IsOrdered-append lo hi now ((ts, b) ∷ rest) a h o = (o.0, IsOrdered-append ts hi now rest a h o.1)

  drop_stale-IsOrdered :
      (lo hi now age : ℕ) (l : List (ℕ × A))
      → IsOrdered lo l hi
      → IsOrdered lo (drop_stale now age l).0 hi
  unfolding drop_stale
  drop_stale-IsOrdered lo hi now age [] o = o
  drop_stale-IsOrdered lo hi now age ((ts, a) ∷ rest) o = elim (Bool-cases (is_stale now age ts)) [
    | inl e ↦ rw e (
        IsOrdered-weaken ts lo hi (drop_stale now age rest).0 o.0
          (drop_stale-IsOrdered ts hi now age rest o.1))
    | inr e ↦ rw e o
  ]

  -- An entry that a reader at `now` may still use.
  abbrev pub IsFresh : ℕ → ℕ → ℕ × A → Type 0
  IsFresh now age (ts, a) = now ≤ ts + age

  IsOrdered-IsFresh :
      (lo hi now age : ℕ) (l : List (ℕ × A))
      → now ≤ lo + age
      → IsOrdered lo l hi
      → All (IsFresh now age) l
  IsOrdered-IsFresh lo hi now age [] h o = tt
  IsOrdered-IsFresh lo hi now age ((ts, a) ∷ rest) h o =
      (omega arith, IsOrdered-IsFresh ts hi now age rest (omega arith) o.1)

  drop_stale-IsFresh :
      (lo hi now age : ℕ) (l : List (ℕ × A))
      → IsOrdered lo l hi
      → All (IsFresh now age) (drop_stale now age l).0
  unfolding drop_stale
  drop_stale-IsFresh lo hi now age [] o = tt
  drop_stale-IsFresh lo hi now age ((ts, a) ∷ rest) o = elim (Bool-cases (is_stale now age ts)) [
    | inl e ↦ rw e (drop_stale-IsFresh ts hi now age rest o.1)
    | inr e ↦ rw e (ground arith, IsOrdered-IsFresh ts hi now age rest (ground arith) o.1)
  ]

  -- What `make_room` keeps is the list, or the list without its oldest entry.
  make_room-keeps :
      (max_size : ℕ) (l : List (ℕ × A)) (dropped : ℕ) {kept : List (ℕ × A)} {dropped' : ℕ}
      → make_room max_size l dropped ≡ ok (kept, dropped')
      → (kept ≡ l) ⊎ ((x : ℕ × A) × (l ≡ x ∷ kept))
  unfolding make_room
  make_room-keeps max_size [] dropped e = inl (ground arith)
  make_room-keeps max_size (x ∷ rest) dropped e = elim (dec_le max_size (suc (length rest))) [
    | yes full ↦ inr (x, ground arith)
    | no room ↦ inl (ground arith)
  ]

  IsOrdered-tail :
      (lo hi : ℕ) (x : ℕ × A) (l : List (ℕ × A)) → IsOrdered lo (x ∷ l) hi → IsOrdered lo l hi
  IsOrdered-tail lo hi (ts, a) l o = IsOrdered-weaken ts lo hi l o.0 o.1

  -- What `put` has of the entries that it keeps, and of the list with the new item behind them.
  abbrev Holds : ℕ → ℕ → ℕ → ℕ → List (ℕ × A) → Type 0
  Holds lo hi now age l = IsOrdered lo l hi × All (IsFresh now age) l

  Holds-keeps :
      (lo hi now age : ℕ) (l kept : List (ℕ × A))
      → (kept ≡ l) ⊎ ((x : ℕ × A) × (l ≡ x ∷ kept))
      → Holds lo hi now age l
      → Holds lo hi now age kept
  Holds-keeps lo hi now age l kept (inl e) h = rw e h
  Holds-keeps lo hi now age l kept (inr (x, e)) h =
      let both : Holds lo hi now age (x ∷ kept) = rw e at h in
      (IsOrdered-tail lo hi x kept both.0, both.1.1)

  enqueue-Holds :
      (s : Queue A) (lo hi now : ℕ) (item : A) (l : List (ℕ × A)) (dropped : ℕ)
      (r : Result (List (ℕ × A) × ℕ)) {s' : Queue A}
      → make_room s.max_size l dropped ≡ r
      → hi ≤ now
      → Holds lo hi now s.max_age_ms l
      → enqueue s now item r ≡ ok s'
      → Holds lo now now s.max_age_ms s'.q
  enqueue-Holds s lo hi now item l dropped index_error m h o e = cc
  enqueue-Holds s lo hi now item l dropped (ok (kept, dropped')) {s'} m h o e =
      let (ordered, fresh) =
        Holds-keeps lo hi now s.max_age_ms l kept (make_room-keeps s.max_size l dropped m) o in
      let shape : s'.q ≡ kept ++ (now, item) ∷ [] = ground arith in
      rw shape (
        IsOrdered-append lo hi now kept item h ordered,
        All-append (IsFresh now s.max_age_ms) kept ((now, item) ∷ []) fresh (omega arith, tt),
      )

  -- With a clock that does not run backwards, the entries of the queue stay in the order of their
  -- times, and after a `put` none of them is stale.
  pub put-IsFresh :
      (s : Queue A) (lo hi now : ℕ) (item : A) {s' : Queue A}
      → IsOrdered lo s.q hi
      → hi ≤ now
      → put s now item ≡ ok s'
      → IsOrdered lo s'.q now × All (IsFresh now s.max_age_ms) s'.q
  unfolding put
  put-IsFresh s lo hi now item o h e =
      let fresh = drop_stale now s.max_age_ms s.q in
      enqueue-Holds s lo hi now item fresh.0 (s.dropped + fresh.1)
        (make_room s.max_size fresh.0 (s.dropped + fresh.1)) refl h
        (
          drop_stale-IsOrdered lo hi now s.max_age_ms s.q o,
          drop_stale-IsFresh lo hi now s.max_age_ms s.q o,
        )
        e

  last_fresh :
      (now age ts : ℕ) (a : A) (l : List (ℕ × A))
      → get_last? l ≡ some (ts, a)
      → is_stale now age ts ≡ false
      → get_last? (drop_stale now age l).0 ≡ some (ts, a)
  unfolding drop_stale
  last_fresh now age ts a [] g h = cc
  last_fresh now age ts a ((t, b) ∷ []) g h = ground arith
  last_fresh now age ts a ((t, b) ∷ y ∷ rest) g h = elim (Bool-cases (is_stale now age t)) [
    | inl e ↦ rw e (last_fresh now age ts a (y ∷ rest) g h)
    | inr e ↦ rw e g
  ]

  last_stale :
      (lo hi now age ts : ℕ) (a : A) (l : List (ℕ × A))
      → IsOrdered lo l hi
      → get_last? l ≡ some (ts, a)
      → is_stale now age ts ≡ true
      → (lo ≤ ts) × ((drop_stale now age l).0 ≡ [])
  unfolding drop_stale
  last_stale lo hi now age ts a [] o g h = cc
  last_stale lo hi now age ts a ((t, b) ∷ []) o g h = ground arith
  last_stale lo hi now age ts a ((t, b) ∷ y ∷ rest) o g h =
      let later = last_stale t hi now age ts a (y ∷ rest) o.1 g h in
      let e : is_stale now age t ≡ true = ground arith in (omega arith, rw e later.1)

  get_last?-none : (l : List (ℕ × A)) → get_last? l ≡ none → l ≡ []
  get_last?-none [] e = refl
  get_last?-none (x ∷ []) e = cc
  get_last?-none (x ∷ y ∷ l) e = absurd (ground (arith, get_last?-none (y ∷ l) e))

  abbrev pub item_of : Option (ℕ × A) → Option A
  item_of none = none
  item_of (some (ts, a)) = some a

  abbrev pub held : Option A → ℕ
  held none = 0
  held (some a) = 1

  -- `get_latest` looks at the newest entry alone. With times in order it does what the loop of `put`
  -- would do first: it hands out the newest entry that is not stale, empties the queue, and counts
  -- every other entry as dropped.
  pub get_latest-drop_stale :
      (s : Queue A) (lo hi now : ℕ)
      → IsOrdered lo s.q hi
      → let found = item_of (get_last? (drop_stale now s.max_age_ms s.q).0) in
        get_latest s now
        ≡ (record s { q = []; dropped = s.dropped + (length s.q - held found) }, found)
  unfolding get_latest drop_stale
  get_latest-drop_stale s lo hi now o = elim (Option-cases (get_last? s.q)) [
    | inl e ↦
        let empty : s.q ≡ [] = get_last?-none s.q e in
        let none_fresh : (drop_stale now s.max_age_ms s.q).0 ≡ [] = rw empty refl in
        rw (none_fresh, e, take_latest) (ground arith)
    | inr ((ts, a), e) ↦ elim (Bool-cases (is_stale now s.max_age_ms ts)) [
      | inl old ↦
          rw (e, take_latest, old, (last_stale lo hi now s.max_age_ms ts a s.q o e old).1)
            (ground arith)
      | inr new ↦ rw (e, take_latest, new, last_fresh now s.max_age_ms ts a s.q e new)
    ]
  ]
