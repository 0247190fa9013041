-- ===== src/Storage.antt =====
-- Storage pressure and the backlog of the outbox (src/ibvap/core/remote.py). The usage of the disk is
-- an argument, as `shutil.disk_usage` reports it.
use ibvap.Common.{
  ℕ, ◌+◌, ◌≡◌, refl, Bool, true, false, not, ◌||◌, Option, some, List, [], ◌∷◌, String, ◌==◌,
  if◌then◌else◌, length, same, string_key, string_eq?, arith, Bool-cases, inl, inr,
}
use ibvap.Common.Float.{Float, times, over, at_most, num}
use ibvap.Outbox.{Store, list_outbox}
mod Tests

-- `runway_days` is always None, and left out.
pub record StoragePressure (F : Type 0) : Type 0 where
  pub level : String
  pub used_percent : F

pub record Backlog : Type 0 where
  pub count : ℕ
  pub bytes : ℕ
  pub oldest_age : ℕ

-- The lengths of the payloads' texts, which `str` makes.
abbrev pub total_length : (ℕ → ℕ) → (ℕ → ℕ) → List ℕ → ℕ
total_length payload_of text_length [] = 0
total_length payload_of text_length (a ∷ l) =
    text_length (payload_of a) + total_length payload_of text_length l

unfoldable pub outbox_backlog : (ℕ → ℕ) → Store → Backlog
outbox_backlog text_length s =
    let pending = list_outbox s (some "pending") in
    record {
      count = length pending;
      bytes = total_length (λ a. (s.entry_at a).payload) text_length pending;
      oldest_age = 0;
    }

module _ {F : Type 0} where
  unfoldable pub should_accept_upload : StoragePressure F → Bool
  should_accept_upload p = same p.level "normal" || same p.level "warning"

-- The level, by whether 95, 90, 80 and 70 percent are reached.
abbrev pub level_by : Bool → Bool → Bool → Bool → String
level_by a b c d =
    if a
    then "emergency"
    else if b
    then "critical"
    else if c
    then "constrained"
    else if d
    then "warning"
    else "normal"

is_accepted :
    (a b c d : Bool)
    → (a ≡ true → c ≡ true)
    → (b ≡ true → c ≡ true)
    → (same (level_by a b c d) "normal" || same (level_by a b c d) "warning") ≡ not c
unfolding string_eq?
is_accepted true b true d h k = refl
is_accepted true b false d h k = absurd (let no = h refl in cc)
is_accepted false true true d h k = refl
is_accepted false true false d h k = absurd (let no = k refl in cc)
is_accepted false false true d h k = refl
is_accepted false false false true h k = refl
is_accepted false false false false h k = refl

module _ {F : Type 0} ⦃f : Float F⦄ where
  abbrev pub percent : ℕ → ℕ → F
  percent used total =
      if total == 0 then num 0 1 else times (over (num used 1) (num total 1)) (num 100 1)

  abbrev pub level_of : F → String
  level_of used =
      level_by (at_most (num 95 1) used) (at_most (num 90 1) used) (at_most (num 80 1) used)
        (at_most (num 70 1) used)

  unfoldable pub storage_pressure : ℕ → ℕ → StoragePressure F
  storage_pressure used total = record {
    level = level_of (percent used total);
    used_percent = percent used total;
  }

  -- Uploads are accepted exactly as long as less than 80 percent of the disk is used, if `<=` is
  -- transitive and 80 <= 90 <= 95.
  pub should_accept_upload-storage_pressure :
      (used total : ℕ)
      → ((a b c : F) → f.le a b ≡ true → f.le b c ≡ true → f.le a c ≡ true)
      → f.le (f.lit 80 1) (f.lit 90 1) ≡ true
      → f.le (f.lit 90 1) (f.lit 95 1) ≡ true
      → should_accept_upload (storage_pressure used total)
        ≡ not (at_most (num 80 1) (percent used total))
  unfolding should_accept_upload storage_pressure string_eq?
  should_accept_upload-storage_pressure used total trans low high =
      let x = percent used total in
      is_accepted (at_most (num 95 1) x) (at_most (num 90 1) x) (at_most (num 80 1) x)
        (at_most (num 70 1) x)
        (λ h. trans (num 80 1) (num 90 1) x low (trans (num 90 1) (num 95 1) x high h))
        (λ h. trans (num 80 1) (num 90 1) x low h)
