-- ===== src/Pipeline/Counts.antt =====
-- Lists of events, and the counts and the sets of a presence (core/pipeline.py).
use ibvap.Common.{
  ℕ, ◌≡◌, refl, ap, ◌∙◌, false, Option, none, some, List, [], ◌∷◌, ◌++◌, contains, same, nat_key,
  same_self, arith, if◌then◌else◌, Bool-cases, inl, inr,
}
use ibvap.Common.Dict.{lookup, insert, erase, lookup-insert, lookup-erase}
use ibvap.Pipeline.Defs.{PresenceEvent, discard, count_of}

abbrev pub IsSilent : List (Option PresenceEvent) → Type 0
IsSilent [] = Unit
IsSilent (e ∷ es) = (e ≡ none) × IsSilent es

pub IsSilent-append :
    (es ds : List (Option PresenceEvent)) → IsSilent es → IsSilent ds → IsSilent (es ++ ds)
IsSilent-append [] ds h k = k
IsSilent-append (e ∷ es) ds h k = (h.0, IsSilent-append es ds h.1 k)

pub count_of-insert : (t n : ℕ) (d : List (ℕ × ℕ)) → count_of t (insert t n d) ≡ n
count_of-insert t n d =
    let there : (if same t t then some n else lookup t d) ≡ some n = rw (same_self t) refl in
    let found = lookup-insert t t n d ∙ there in
    ap (λ (o : Option ℕ). elim o [ none ↦ 0 | some m ↦ m ]) found

pub contains-discard : (t : ℕ) (l : List ℕ) → contains t (discard t l) ≡ false
contains-discard t [] = refl
contains-discard t (x ∷ l) = elim (Bool-cases (same t x)) [
  | inl here ↦ rw here (contains-discard t l)
  | inr other ↦
      let apart : same x t ≡ false = ground arith in
      let rest = contains-discard t l in rw other (ground arith)
]

pub count_of-erase : (t : ℕ) (d : List (ℕ × ℕ)) → count_of t (erase t d) ≡ 0
count_of-erase t d =
    let gone : (if same t t then none else lookup t d) ≡ none = rw (same_self t) refl in
    let lost = lookup-erase t t d ∙ gone in
    ap (λ (o : Option ℕ). elim o [ none ↦ 0 | some m ↦ m ]) lost
