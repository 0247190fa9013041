-- ===== src/Common/Lists.antt =====
-- Lists measured by native numbers, under the library's names, and predicates on all their members.
use Prim.Native.Nat.{ℕ, zero, suc, ◌+◌, ◌-◌, ◌≤◌, ◌<◌, min}
use mathlib.Core.Path.{◌≡◌, refl, ap}
use mathlib.Core.List.{List, [], ◌∷◌, ◌++◌, map}
use mathlib.Core.Option.{Option, none, some}
use mathlib.Core.Bool.{Bool, true, false, ◌||◌, ◌&&◌}
use native.Mathlib.Nat.{zero-add, suc-add}
use native.Mathlib.Omega.{arith}
use native.Mathlib.Decide.{dec_le}
use ibvap.Common.Tests.{if◌then◌else◌, Key, same}

module _ {ℓ} {A : Type ℓ} where
  abbrev pub length : List A → ℕ
  length [] = 0
  length (x ∷ xs) = suc (length xs)

  abbrev pub get_elem? : List A → ℕ → Option A
  get_elem? [] i = none
  get_elem? (x ∷ xs) zero = some x
  get_elem? (x ∷ xs) (suc i) = get_elem? xs i

  abbrev pub take : ℕ → List A → List A
  take zero xs = []
  take (suc n) [] = []
  take (suc n) (x ∷ xs) = x ∷ take n xs

  abbrev pub drop : ℕ → List A → List A
  drop zero xs = xs
  drop (suc n) [] = []
  drop (suc n) (x ∷ xs) = drop n xs

  -- `l[-n:]`, and what `del l[: len(l) - n]` leaves.
  abbrev pub last_n : ℕ → List A → List A
  last_n n xs = drop (length xs - n) xs

  -- `l[-1]`.
  abbrev pub get_last? : List A → Option A
  get_last? [] = none
  get_last? (x ∷ []) = some x
  get_last? (x ∷ y ∷ ys) = get_last? (y ∷ ys)

  -- `[x for x in l if p(x)]`.
  abbrev pub select : (A → Bool) → List A → List A
  select p [] = []
  select p (x ∷ xs) = if p x then x ∷ select p xs else select p xs

  -- `any(...)` and `all(...)`.
  abbrev pub any : (A → Bool) → List A → Bool
  any p [] = false
  any p (x ∷ xs) = p x || any p xs

  abbrev pub all : (A → Bool) → List A → Bool
  all p [] = true
  all p (x ∷ xs) = p x && all p xs

  abbrev pub All {κ} : (A → Type κ) → List A → Type κ
  All P [] = Unit
  All P (x ∷ xs) = P x × All P xs

-- `x in l`.
abbrev pub contains {ℓ} : {A : Type ℓ} ⦃k : Key A⦄ → A → List A → Bool
contains a [] = false
contains a (x ∷ xs) = same x a || contains a xs

module _ {ℓ} {A : Type ℓ} where
  pub length-append : (xs ys : List A) → length (xs ++ ys) ≡ length xs + length ys
  length-append [] ys = omega arith
  length-append (x ∷ xs) ys = omega (arith, length-append xs ys)

  pub length-drop : (n : ℕ) (xs : List A) → length (drop n xs) ≡ length xs - n
  length-drop zero xs = omega arith
  length-drop (suc n) [] = omega arith
  length-drop (suc n) (x ∷ xs) = omega (arith, length-drop n xs)

  pub length-take : (n : ℕ) (xs : List A) → length (take n xs) ≡ min n (length xs)
  length-take zero xs = omega arith
  length-take (suc n) [] = omega arith
  length-take (suc n) (x ∷ xs) = omega (arith, length-take n xs)

  pub length-last_n : (n : ℕ) (xs : List A) → length (last_n n xs) ≡ min n (length xs)
  length-last_n n xs = omega (arith, length-drop (length xs - n) xs)

  pub length-select-le : (p : A → Bool) (xs : List A) → length (select p xs) ≤ length xs
  length-select-le p [] = omega arith
  length-select-le p (x ∷ xs) = ground (arith, length-select-le p xs)

  pub length-map {κ} : {B : Type κ} (f : A → B) (xs : List A) → length (map f xs) ≡ length xs
  length-map f [] = refl
  length-map f (x ∷ xs) = ap suc (length-map f xs)

  pub All-append {κ} : (P : A → Type κ) (xs ys : List A) → All P xs → All P ys → All P (xs ++ ys)
  All-append P [] ys hx hy = hy
  All-append P (x ∷ xs) ys hx hy = (hx.0, All-append P xs ys hx.1 hy)

  pub All-drop {κ} : (P : A → Type κ) (n : ℕ) (xs : List A) → All P xs → All P (drop n xs)
  All-drop P zero xs h = h
  All-drop P (suc n) [] h = h
  All-drop P (suc n) (x ∷ xs) h = All-drop P n xs h.1

  pub All-imp {κ μ} :
      (P : A → Type κ) (Q : A → Type μ)
      → ((a : A) → P a → Q a)
      → (xs : List A) → All P xs
      → All Q xs
  All-imp P Q f [] h = tt
  All-imp P Q f (x ∷ xs) h = (f x h.0, All-imp P Q f xs h.1)

  pub All-select {κ} :
      (P : A → Type κ) (p : A → Bool) (xs : List A) → All P xs → All P (select p xs)
  All-select P p [] h = h
  All-select P p (x ∷ xs) h = ground (arith, All-select P p xs h.1)

module _ {ℓ} {A : Type ℓ} where
  drop-append_le : (n : ℕ) (xs ys : List A) → n ≤ length xs → drop n (xs ++ ys) ≡ drop n xs ++ ys
  drop-append_le zero xs ys h = refl
  drop-append_le (suc n) [] ys h = absurd (omega arith)
  drop-append_le (suc n) (x ∷ xs) ys h = drop-append_le n xs ys (omega arith)

  drop-nil : (n : ℕ) → drop {A = A} n [] ≡ []
  drop-nil zero = refl
  drop-nil (suc n) = refl

  drop-drop : (m n : ℕ) (xs : List A) → drop m (drop n xs) ≡ drop (n + m) xs
  drop-drop m zero xs = rw zero-add
  drop-drop m (suc n) [] = rw (suc-add, drop-nil m)
  drop-drop m (suc n) (x ∷ xs) = rw (suc-add, drop-drop m n xs)

  -- To add an item and keep the last `n`, the last `n` of what was there are all that matter.
  pub last_n-append :
      (n : ℕ) (xs : List A) (y : A) → last_n n (last_n n xs ++ y ∷ []) ≡ last_n n (xs ++ y ∷ [])
  last_n-append n xs y = elim (dec_le n (length xs)) [
    | yes h ↦
        let first : length (last_n n xs ++ y ∷ []) - n ≡ 1 =
          omega (arith, length-append (last_n n xs) (y ∷ []), length-last_n n xs) in
        let second : length (xs ++ y ∷ []) - n ≡ length xs - n + 1 =
          omega (arith, length-append xs (y ∷ [])) in
        rw (first, second, ← drop-drop, drop-append_le (length xs - n) xs (y ∷ []) (omega arith))
    | no h ↦ let none_lost : length xs - n ≡ 0 = omega arith in rw none_lost
  ]

  pub last_n_self : (n : ℕ) (xs : List A) → length xs ≤ n → last_n n xs ≡ xs
  last_n_self n xs h = let e : length xs - n ≡ 0 = omega arith in rw e

  pub get_last?-append : (xs : List A) (y : A) → get_last? (xs ++ y ∷ []) ≡ some y
  get_last?-append [] y = refl
  get_last?-append (x ∷ []) y = refl
  get_last?-append (x ∷ x' ∷ xs) y = get_last?-append (x' ∷ xs) y

  pub get_last?-last_n :
      (n : ℕ) (xs : List A) (y : A) → 0 < n → get_last? (last_n n (xs ++ y ∷ [])) ≡ some y
  get_last?-last_n n xs y h =
      let k = length (xs ++ y ∷ []) - n in
      rw (drop-append_le k xs (y ∷ []) (omega (arith, length-append xs (y ∷ []))))
        (get_last?-append (drop k xs) y)

  pub select-select :
      (p q r : A → Bool) (xs : List A)
      → ((a : A) → p a ≡ (q a && r a))
      → select p xs ≡ select q (select r xs)
  select-select p q r [] h = refl
  select-select p q r (x ∷ xs) h = ground (arith, h x, select-select p q r xs h)

pub All-snoc {ℓ κ μ} :
    {A : Type ℓ} (P : A → Type κ) (Q : A → Type μ) (l : List A) (a : A)
    → ((x : A) → P x → Q x)
    → All P l
    → Q a
    → All Q (l ++ a ∷ [])
All-snoc P Q [] a g h q = (q, tt)
All-snoc P Q (x ∷ l) a g h q = (g x h.0, All-snoc P Q l a g h.1 q)

pub All-split {ℓ κ} :
    {A : Type ℓ} (P : A → Type κ) (l m : List A) → All P (l ++ m) → All P l × All P m
All-split P [] m h = (tt, h)
All-split P (x ∷ l) m (a, h) = let (b, c) = All-split P l m h in ((a, b), c)
