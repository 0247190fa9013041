-- ===== src/Ssrf.antt =====
-- SSRF checks of camera and webhook URLs (src/ibvap/core/ssrf.py).
mod Defs
mod Connections
mod Checks
mod Resolution
mod Triples
mod Pinning
mod Bounds
pub mod Example
mod Tests
pub use Defs.{
  Url, Error, ssrf_error, value_error, Result, ok, err, Web, SsrfPolicy, Request,
  is_metadata_endpoint, is_special, default_blocked_nets,
}
unfoldable pub use Defs.{validate_endpoint}
pub use Connections.{Net, M, or_raise}
unfoldable pub use Connections.{◌>>=◌, ◌>>◌, lift, ip_formatted, port_suffix, resolve_and_validate}
pub use Checks.{IsAuthorised, IsPermitted}
pub use Resolution.{resolve_and_validate-IsAuthorised}
