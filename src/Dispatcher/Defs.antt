-- ===== src/Dispatcher/Defs.antt =====
-- Settings and the delivery of events to a webhook (core/dispatcher.py). The JSON codec, `float` and
-- `int`, substring tests, and the HTTP client are arguments.
use Prim.Native.String.{◌++◌ as ◌+++◌}
use ibvap.Common.{
  ℕ, Bool, true, false, ◌&&◌, Option, none, some, List, [], ◌∷◌, String, if◌then◌else◌, same,
  contains, string_key,
}
use ibvap.Common.Texts.{is_text, or_empty}
use ibvap.Common.Dict.{lookup}
use ibvap.Common.Float.{Float}
use ibvap.Ssrf.{
  Url, ssrf_error, value_error, Result, ok, err, Web, SsrfPolicy, validate_endpoint,
  default_blocked_nets, M, ◌>>=◌, lift, or_raise, ip_formatted, port_suffix, resolve_and_validate,
}

module _ {Ip Cidr : Type 0} (web : Web Ip Cidr) where
  abbrev pub webhook_policy : SsrfPolicy Cidr
  webhook_policy = record {
    allowed_schemes = "http" ∷ "https" ∷ [];
    allowed_hosts = none;
    allowed_ports = none;
    site_cidr_allowlist = [];
    blocked_nets = default_blocked_nets web;
    allow_redirects = false;
  }

  -- The structure of the URL without the list of ports, after a blocked port.
  unfoldable pub reparse : String → Result Url
  reparse url = elim (web.urlparse (web.strip url)) [
    | none ↦ err value_error
    | some parsed ↦
        if contains (web.lower parsed.scheme) ("http" ∷ "https" ∷ [])
          && is_text (or_empty parsed.hostname)
        then ok parsed
        else err (ssrf_error "invalid_url")
  ]

  unfoldable pub parse_webhook_url : String → Result Url
  parse_webhook_url url = elim (validate_endpoint web url webhook_policy) [
    | ok parsed ↦ ok parsed
    | err value_error ↦ err value_error
    | err (ssrf_error code) ↦
        if same code "blocked_port" then reparse url else err (ssrf_error code)
  ]

  -- The host and the port are rebuilt, with no user.
  unfoldable pub pin_url_to_ip : String → String → Result String
  pin_url_to_ip url ip = elim (web.urlparse url) [
    | none ↦ err value_error
    | some parsed ↦ elim parsed.port [
      | none ↦ err value_error
      | some port ↦ ok (web.urlunparse parsed (ip_formatted web ip +++ port_suffix web port))
    ]
  ]

-- What the client posts: the target, the Host header where the target is pinned, and the payload.
pub record Sent (P : Type 0) : Type 0 where
  pub target : String
  pub host_header : Option String
  pub payload : P

module _ {Ip Cidr F : Type 0} (web : Web Ip Cidr) ⦃f : Float F⦄ (now : F) where
  -- `resolve_webhook_url`, but for the URL that it hands back.
  unfoldable pub resolve_webhook_url : String → M F (List String)
  resolve_webhook_url url = do
    parsed ← lift (parse_webhook_url web url)
    resolve_and_validate web (webhook_policy web) now (or_empty parsed.hostname) true

  -- The target of a plain-http URL is pinned to the first address; that of an https URL is the URL.
  abbrev pub target_for : {P : Type 0} → String → Url → List String → P → Result (Sent P)
  target_for url parsed [] payload =
      ok record { target = url; host_header = none; payload = payload }
  target_for url parsed (ip ∷ ips) payload =
      if same (web.lower parsed.scheme) "http"
      then elim (pin_url_to_ip web url ip) [
        | err e ↦ err e
        | ok target ↦ ok record {
          target = target;
          host_header = some (or_empty parsed.hostname);
          payload = payload;
        }
      ]
      else ok record { target = url; host_header = none; payload = payload }

  -- `_post_webhook` up to the call of the client.
  unfoldable pub prepare_webhook : {P : Type 0} → String → P → M F (Sent P)
  prepare_webhook url payload = do
    ips ← resolve_webhook_url url
    parsed ← lift (or_raise (web.urlparse url))
    lift (target_for url parsed ips payload)

-- A value of a JSON document; numbers are the platform's.
pub data Value (N : Type 0) : Type 0 where
  null : Value N
  string : String → Value N
  flag : Bool → Value N
  number : N → Value N

pub record SystemSettings (N : Type 0) : Type 0 where
  pub c2_webhook_url : Value N
  pub c2_webhook_enabled : Bool
  pub c2_min_severity : Value N
  pub detection_confidence_threshold : N
  pub loiter_cooldown_seconds : N
  pub evidence_retention_days : N

-- `bool`, `float` and `int`, which raise where they answer none, numerals, and the JSON codec.
pub record Codec (N : Type 0) : Type 0 where
  pub truth : Value N → Bool
  pub to_float : Value N → Option N
  pub to_int : Value N → Option N
  pub hundredths : ℕ → N
  pub loads : String → Option (List (String × Value N))
  pub dumps : List (String × Value N) → String

-- `_CURRENT_SETTINGS` and the file.
pub record Disk (N : Type 0) : Type 0 where
  pub current : SystemSettings N
  pub file : Option String

module _ {N : Type 0} (codec : Codec N) where
  -- `data.get(key, default)`
  abbrev pub get_or : String → Value N → List (String × Value N) → Value N
  get_or key default data' = elim (lookup key data') [ none ↦ default | some v ↦ v ]

  abbrev pub settings_with :
      Value N → Bool → Value N → Option N → Option N → Option N → Option (SystemSettings N)
  settings_with url enabled severity (some threshold) (some cooldown) (some days) = some record {
    c2_webhook_url = url;
    c2_webhook_enabled = enabled;
    c2_min_severity = severity;
    detection_confidence_threshold = threshold;
    loiter_cooldown_seconds = cooldown;
    evidence_retention_days = days;
  }
  settings_with url enabled severity threshold cooldown days = none

  unfoldable pub settings_of : List (String × Value N) → Option (SystemSettings N)
  settings_of data' =
      settings_with (get_or "c2_webhook_url" null data')
        (codec.truth (get_or "c2_webhook_enabled" (flag false) data'))
        (get_or "c2_min_severity" (string "HIGH") data')
        (codec.to_float
          (get_or "detection_confidence_threshold" (number (codec.hundredths 45)) data'))
        (codec.to_float (get_or "loiter_cooldown_seconds" (number (codec.hundredths 1000)) data'))
        (codec.to_int (get_or "evidence_retention_days" (number (codec.hundredths 9000)) data'))

  -- A file that cannot be read leaves the settings.
  unfoldable pub load_settings : Disk N → Disk N
  load_settings d = elim d.file [
    | none ↦ d
    | some content ↦ elim (codec.loads content) [
      | none ↦ d
      | some data' ↦ elim (settings_of data') [ none ↦ d | some s ↦ record d { current = s } ]
    ]
  ]

  unfoldable pub as_dict : SystemSettings N → List (String × Value N)
  as_dict s =
      ("c2_webhook_url", s.c2_webhook_url)
      ∷ ("c2_webhook_enabled", flag s.c2_webhook_enabled)
      ∷ ("c2_min_severity", s.c2_min_severity)
      ∷ ("detection_confidence_threshold", number s.detection_confidence_threshold)
      ∷ ("loiter_cooldown_seconds", number s.loiter_cooldown_seconds)
      ∷ ("evidence_retention_days", number s.evidence_retention_days)
      ∷ []

  -- A write that fails is logged; the settings in memory are new in any case.
  unfoldable pub save_settings : Bool → SystemSettings N → Disk N → Disk N
  save_settings writable s d = record {
    current = s;
    file = if writable then some (codec.dumps (as_dict s)) else d.file;
  }
