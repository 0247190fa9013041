-- ===== src/Dispatcher/Dispatch.antt =====
-- `dispatch_c2_webhook` (core/dispatcher.py): the filter by severity, the payload and the delivery.
use Prim.Native.String.{◌++◌ as ◌+++◌}
use text.Mathlib.Text.{starts_with}
use ibvap.Common.{
  ℕ, Bool, false, not, ◌||◌, ◌&&◌, Option, none, some, String, ltb, if◌then◌else◌, same, string_key,
}
use ibvap.Common.Float.{Float}
use ibvap.Ssrf.{Result, ok, err, Web, Net}
use ibvap.Dispatcher.Defs.{Sent, prepare_webhook, Value, string, SystemSettings, Codec}

-- What the code reads of an event; `kind` is the text of its type in lower case.
pub record Event : Type 0 where
  pub kind : String
  pub snapshot_url : Option String
  pub crop_url : Option String

pub record Payload : Type 0 where
  pub event : Event
  pub severity : String
  pub snapshot_url : Option String
  pub crop_url : Option String

-- `t in s` on texts, and the client, which answers a status or raises.
pub record Client : Type 0 where
  pub mentions : String → String → Bool
  pub post : Sent Payload → Option ℕ

-- A path of the server gets the server's address before it.
abbrev pub absolute : String → Option String → Option String
absolute base none = none
absolute base (some String.[]) = some String.[]
absolute base (some (String.◌∷◌ c s)) =
    if starts_with (String.◌∷◌ c s) "http"
    then some (String.◌∷◌ c s)
    else some (base +++ String.◌∷◌ c s)

-- `v == t` for a text.
abbrev pub is_string : {N : Type 0} → String → Value N → Bool
is_string t (string s) = same s t
is_string t v = false

module _ (client : Client) where
  unfoldable pub is_critical : Event → Bool
  is_critical e = client.mentions "watchlist" e.kind || client.mentions "suspect" e.kind

  unfoldable pub is_high : Event → Bool
  is_high e = client.mentions "intrusion" e.kind || client.mentions "line" e.kind

  abbrev pub severity_of : Event → String
  severity_of e = if is_critical e then "CRITICAL" else if is_high e then "HIGH" else "MEDIUM"

  unfoldable pub payload_of : String → Event → Payload
  payload_of base_url e = record {
    event = e;
    severity = severity_of e;
    snapshot_url = absolute base_url e.snapshot_url;
    crop_url = absolute base_url e.crop_url;
  }

  abbrev pub delivered : Option ℕ → Bool
  delivered none = false
  delivered (some status) = ltb status 400

module _ {Ip Cidr F N : Type 0} (web : Web Ip Cidr) ⦃f : Float F⦄ (now : F) (codec : Codec N)
    (client : Client) where
  -- The text that the settings are asked to send to, where sending is enabled.
  abbrev pub webhook_url : SystemSettings N → Option String
  webhook_url s =
      if s.c2_webhook_enabled && codec.truth s.c2_webhook_url
      then (elim s.c2_webhook_url [ string url ↦ some url | _ ↦ none ])
      else none

  -- Whether the least severity holds the event back.
  unfoldable pub held_back : SystemSettings N → Event → Bool
  held_back s e =
      is_string "CRITICAL" s.c2_min_severity && not (is_critical client e)
      || is_string "HIGH" s.c2_min_severity && not (is_critical client e || is_high client e)

  abbrev pub send : Result (Sent Payload) → Option (Sent Payload) × Bool
  send (ok sent) = (some sent, delivered client (client.post sent))
  send (err e) = (none, false)

  -- What is posted, if anything, and the answer; every exception of the delivery answers False. A URL
  -- of the settings that is no text makes the delivery fail.
  unfoldable pub dispatch_c2_webhook :
      SystemSettings N → Event → String → Net F → (Option (Sent Payload) × Bool) × Net F
  dispatch_c2_webhook s e base_url net = elim (webhook_url s) [
    | none ↦ ((none, false), net)
    | some url ↦
        if held_back s e
        then ((none, false), net)
        else let (r, net') = prepare_webhook web now url (payload_of client base_url e) net in
          (send r, net')
  ]
