-- ===== src/Ssrf/Triples.antt =====
-- What holds after a computation of Ssrf/Connections: an invariant of the state in every case, and a
-- property of the value where there is one.
use ibvap.Common.{◌≡◌, refl, subst}
use ibvap.Ssrf.Defs.{Result, ok, err}
use ibvap.Ssrf.Connections.{Net, M, ◌>>=◌, ◌>>◌, lift, relabel}

abbrev pub Post : {A : Type 0} → (A → Type 0) → Result A → Type 0
Post Q (ok a) = Q a
Post Q (err e) = Unit

pub ok-Post : {A : Type 0} (Q : A → Type 0) (r : Result A) {a : A} → r ≡ ok a → Post Q r → Q a
ok-Post Q (ok b) e h = subst Q (cc) h
ok-Post Q (err c) e h = cc

pub Post-make : {A : Type 0} (Q : A → Type 0) (r : Result A) → ((a : A) → r ≡ ok a → Q a) → Post Q r
Post-make Q (ok a) h = h a refl
Post-make Q (err e) h = tt

pub record Triple {F A : Type 0} (P : Net F → Type 0) (m : M F A) (Q : A → Type 0) : Type 0 where
  pub run : (net : Net F) → P net → P (m net).1 × Post Q (m net).0

module _ {F : Type 0} {A B : Type 0} {P : Net F → Type 0} where
  bind_step :
      (Q : A → Type 0) (R : B → Type 0) (f : A → M F B) (r : Result A) (net : Net F)
      → ((a : A) → Q a → Triple P (f a) R)
      → P net
      → Post Q r
      → P (◌>>=◌ (lift r) f net).1 × Post R (◌>>=◌ (lift r) f net).0
  unfolding ◌>>=◌ lift
  bind_step Q R f (ok a) net step p q = (step a q).run net p
  bind_step Q R f (err e) net step p q = (p, tt)

  pub Triple->>= :
      {Q : A → Type 0} {R : B → Type 0} {m : M F A} {f : A → M F B}
      → Triple P m Q
      → ((a : A) → Q a → Triple P (f a) R)
      → Triple P (m >>= f) R
  unfolding ◌>>=◌ lift
  Triple->>= {Q} {R} {m} {f} first step = record {
    run = λ net p. let (p', q) = first.run net p in bind_step Q R f (m net).0 (m net).1 step p' q;
  }

module _ {F : Type 0} {P : Net F → Type 0} where
  -- A check of which nothing is used but that it may fail.
  pub Triple->> :
      {B : Type 0} {R : B → Type 0} {m : M F (Unit {0})} {k : M F B}
      → Triple P m (λ u. Unit {0})
      → Triple P k R
      → Triple P (m >> k) R
  unfolding ◌>>◌
  Triple->> h k = Triple->>= h (λ u _. k)

module _ {A : Type 0} where
  imp_step : (Q R : A → Type 0) (r : Result A) → ((a : A) → Q a → R a) → Post Q r → Post R r
  imp_step Q R (ok a) g h = g a h
  imp_step Q R (err e) g h = h

  any-Post : (r : Result A) → Post (λ a. Unit {0}) r
  any-Post (ok a) = tt
  any-Post (err e) = tt

  relabel_step :
      {F : Type 0} (P : Net F → Type 0) (Q : A → Type 0) (r : Result A) (net : Net F)
      → P net
      → Post Q r
      → P (relabel (lift r) net).1 × Post Q (relabel (lift r) net).0
  unfolding relabel lift
  relabel_step P Q (ok a) net p q = (p, q)
  relabel_step P Q (err e) net p q = (p, tt)

module _ {F : Type 0} {A : Type 0} {P : Net F → Type 0} where
  pub Triple-lift : {Q : A → Type 0} (r : Result A) → Post Q r → Triple P (lift r) Q
  unfolding lift
  Triple-lift r q = record { run = λ net p. (p, q) }

  pub Triple-check : (r : Result A) → Triple P (lift r) (λ a. Unit {0})
  Triple-check r = Triple-lift r (any-Post r)

  pub Triple-relabel : {Q : A → Type 0} {m : M F A} → Triple P m Q → Triple P (relabel m) Q
  unfolding relabel lift
  Triple-relabel {Q} {m} h = record {
    run = λ net p. let (p', q) = h.run net p in relabel_step P Q (m net).0 (m net).1 p' q;
  }

  pub Triple-imp :
      {Q R : A → Type 0} {m : M F A} → Triple P m Q → ((a : A) → Q a → R a) → Triple P m R
  Triple-imp {Q} {R} {m} h g = record {
    run = λ net p. let (p', q) = h.run net p in (p', imp_step Q R (m net).0 g q);
  }
