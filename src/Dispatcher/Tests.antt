-- ===== src/Dispatcher/Tests.antt =====
-- An event that is posted, one that is held back, and settings that survive a restart
-- (core/dispatcher.py).
use ibvap.Common.{
  ℕ, ◌≡◌, refl, Bool, true, false, Option, none, some, [], ◌∷◌, String, same, string_key,
  string_eq?, ℕ_discrete,
}
use ibvap.Common.Milli.{milli}
use ibvap.Ssrf.{
  Net, validate_endpoint, ◌>>=◌, lift, ip_formatted, port_suffix, resolve_and_validate,
}
use ibvap.Ssrf.Example.{web}
use ibvap.Dispatcher.Defs.{
  Sent, Value, string, flag, number, SystemSettings, Codec, Disk, parse_webhook_url, pin_url_to_ip,
  resolve_webhook_url, prepare_webhook, load_settings, as_dict, save_settings,
}
use ibvap.Dispatcher.Dispatch.{
  Event, Payload, Client, is_critical, is_high, payload_of, held_back, dispatch_c2_webhook,
}
use ibvap.Dispatcher.Egress.{
  IsDelivery, dispatch_c2_webhook-IsDelivery, load_settings-save_settings,
}

abbrev start : Net ℕ
start = record { cache = []; lookups = 0; requests = [] }

abbrev settings : SystemSettings ℕ
settings = record {
  c2_webhook_url = string "http://post/live";
  c2_webhook_enabled = true;
  c2_min_severity = string "HIGH";
  detection_confidence_threshold = 45;
  loiter_cooldown_seconds = 1000;
  evidence_retention_days = 9000;
}

abbrev truth : Value ℕ → Bool
truth (flag b) = b
truth (string s) = true
truth v = false

abbrev amount : Value ℕ → Option ℕ
amount (number n) = some n
amount v = none

abbrev codec : Codec ℕ
codec = record {
  truth = truth;
  to_float = amount;
  to_int = amount;
  hundredths = λ n. n;
  loads = λ t. some (
      ("c2_webhook_url", string "http://post/live")
      ∷ ("c2_webhook_enabled", flag true)
      ∷ ("c2_min_severity", string "HIGH")
      ∷ ("detection_confidence_threshold", number 45)
      ∷ ("loiter_cooldown_seconds", number 1000)
      ∷ ("evidence_retention_days", number 9000)
      ∷ []);
  dumps = λ d. "{...}";
}

abbrev client : Client
client = record { mentions = λ t kind. same t kind; post = λ sent. some 204 }

abbrev event : String → Event
event kind = record { kind = kind; snapshot_url = some "/snap.jpg"; crop_url = none }

abbrev posted : Sent Payload
posted = record {
  target = "http://93.184.216.34/live";
  host_header = some "post";
  payload = record {
    event = event "intrusion";
    severity = "HIGH";
    snapshot_url = some "http://here/snap.jpg";
    crop_url = none;
  };
}

intrusion_is_posted :
    (dispatch_c2_webhook {F = ℕ} web 0 codec client settings
      (event "intrusion")
      "http://here"
      start).0
    ≡ (some posted, true)
unfolding dispatch_c2_webhook held_back payload_of is_critical is_high prepare_webhook
    resolve_webhook_url parse_webhook_url pin_url_to_ip ip_formatted port_suffix validate_endpoint
    resolve_and_validate ◌>>=◌ lift string_eq? ℕ_discrete
intrusion_is_posted = refl

-- The presence of a person does not reach the least severity.
presence_is_held_back :
    (dispatch_c2_webhook {F = ℕ} web 0 codec client settings (event "presence") "" start).0
    ≡ (none, false)
unfolding dispatch_c2_webhook held_back is_critical is_high string_eq?
presence_is_held_back = refl

dispatch_c2_webhook-IsDelivery_example :
    IsDelivery {F = ℕ} web 0 codec client settings
      (event "intrusion")
      "http://here"
      start
      (dispatch_c2_webhook {F = ℕ} web 0 codec client settings
        (event "intrusion")
        "http://here"
        start).0
dispatch_c2_webhook-IsDelivery_example =
    dispatch_c2_webhook-IsDelivery web 0 codec client settings (event "intrusion") "http://here"
      start

abbrev blank : Disk ℕ
blank = record { current = record settings { c2_webhook_enabled = false }; file = none }

same_dict : codec.loads (codec.dumps (as_dict codec settings)) ≡ some (as_dict codec settings)
unfolding as_dict
same_dict = refl

load_settings-save_settings_example :
    load_settings codec record (save_settings codec true settings blank) { current = blank.current }
    ≡ save_settings codec true settings blank
load_settings-save_settings_example =
    load_settings-save_settings codec settings blank.current blank same_dict refl refl refl refl
