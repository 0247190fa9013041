-- ===== src/Storage/Tests.antt =====
-- Storage pressure in thousandths (core/remote.py).
use ibvap.Common.{ℕ, ◌≡◌, refl, true, false, string_eq?}
use ibvap.Common.Milli.{milli}
use ibvap.Storage.{storage_pressure, should_accept_upload}

-- A disk that is three quarters full takes uploads, one at nine tenths does not.
warning_accepts : should_accept_upload (storage_pressure {F = ℕ} 75 100) ≡ true
unfolding should_accept_upload storage_pressure string_eq?
warning_accepts = refl

critical_refuses : should_accept_upload (storage_pressure {F = ℕ} 90 100) ≡ false
unfolding should_accept_upload storage_pressure string_eq?
critical_refuses = refl
