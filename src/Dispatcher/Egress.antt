-- ===== src/Dispatcher/Egress.antt =====
-- Where the webhook's payload goes, and what a restart finds of the settings (core/dispatcher.py).
use ibvap.Common.{
  Bool, ◌≡◌, ◌≢◌, ◌⊎◌, refl, ap, sym, ◌∙◌, true, false, Option, none, some, List, [], ◌∷◌, String,
  same, string_key, All, string_eq?, ℕ_discrete, arith, Bool-cases, Option-cases, inl, inr,
}
use ibvap.Common.Texts.{or_empty}
use ibvap.Common.Float.{Float}
use ibvap.Ssrf.{
  Url, Error, Result, ok, err, Web, Net, M, ◌>>=◌, lift, or_raise, IsAuthorised,
  resolve_and_validate-IsAuthorised,
}
use ibvap.Dispatcher.Defs.{
  webhook_policy, parse_webhook_url, pin_url_to_ip, Sent, resolve_webhook_url, target_for,
  prepare_webhook, string, flag, number, SystemSettings, Codec, Disk, settings_of, load_settings,
  as_dict, save_settings,
}
use ibvap.Dispatcher.Dispatch.{
  Event, Payload, Client, payload_of, delivered, webhook_url, held_back, dispatch_c2_webhook,
}

module _ {F A B : Type 0} where
  -- Inversion of a step that gives a value.
  >>=-value :
      (m : M F A) (g : A → M F B) (net : Net F) {b : B}
      → ((m >>= g) net).0 ≡ ok b
      → (a : A) × ((m net).0 ≡ ok a) × ((g a (m net).1).0 ≡ ok b)
  unfolding ◌>>=◌
  >>=-value m g net {b} h = invert (m net).0 (m net).1 refl h
    where
      invert :
          (r : Result A) (net' : Net F)
          → (m net).0 ≡ r
          → (◌>>=◌ (λ n. (r, net')) g net).0 ≡ ok b
          → (a : A) × ((m net).0 ≡ ok a) × ((g a net').0 ≡ ok b)
      invert (ok a) net' e h = (a, e, h)
      invert (err x) net' e h = cc

Result-cases : {A : Type 0} (r : Result A) → ((a : A) × (r ≡ ok a)) ⊎ ((e : Error) × (r ≡ err e))
Result-cases (ok a) = inl (a, refl)
Result-cases (err e) = inr (e, refl)

module _ {Ip Cidr F : Type 0} (web : Web Ip Cidr) ⦃f : Float F⦄ (now : F) where
  -- The request goes to the URL that was asked for, and over plain http to an address in the host's
  -- place which the webhook policy authorises; that policy lets no private address through.
  abbrev pub IsSafe : {P : Type 0} → String → Sent P → Type 0
  IsSafe url sent =
      (u : Url) × (web.urlparse url ≡ some u)
      × (same (web.lower u.scheme) "http" ≡ false → sent.target ≡ url)
      × (same (web.lower u.scheme) "http" ≡ true
          → (ip : String) × (pin_url_to_ip web url ip ≡ ok sent.target)
            × (sent.host_header ≡ some (or_empty u.hostname))
            × IsAuthorised web (webhook_policy web) ip)

  target_for-IsSafe :
      {P : Type 0} (url : String) (u : Url) (ips : List String) (payload : P) {sent : Sent P}
      → web.urlparse url ≡ some u
      → (ips ≢ []) × All (IsAuthorised web (webhook_policy web)) ips
      → target_for web now url u ips payload ≡ ok sent
      → IsSafe url sent × (sent.payload ≡ payload)
  target_for-IsSafe url u [] payload parsed good h = absurd (good.0 refl)
  target_for-IsSafe {P} url u (ip ∷ ips) payload {sent} parsed good h =
      elim (Bool-cases (same (web.lower u.scheme) "http")) [
        | inl plain ↦ elim (Result-cases (pin_url_to_ip web url ip)) [
          | inl (target, pinned) ↦
              let it : record {
                target = target;
                host_header = some (or_empty u.hostname);
                payload = payload;
              }
                  ≡ sent =
                ground arith in
              (
                (
                  u,
                  parsed,
                  λ tls. absurd (cc),
                  λ _. (
                    ip,
                    pinned ∙ ap (λ (s : Sent P). ok s.target) it,
                    ap (λ (s : Sent P). s.host_header) (sym it),
                    good.1.0,
                  ),
                ),
                ap (λ (s : Sent P). s.payload) (sym it),
              )
          | inr (e, fails) ↦ absurd (ground arith)
        ]
        | inr tls ↦
            let it : record { target = url; host_header = none; payload = payload } ≡ sent =
              ground arith in
            (
              (u, parsed, λ _. ap (λ (s : Sent P). s.target) (sym it), λ plain. absurd (cc)),
              ap (λ (s : Sent P). s.payload) (sym it),
            )
      ]

  prepare_webhook-IsSafe :
      {P : Type 0} (url : String) (payload : P) (net : Net F) {sent : Sent P}
      → (prepare_webhook web now url payload net).0 ≡ ok sent
      → IsSafe url sent × (sent.payload ≡ payload)
  unfolding prepare_webhook resolve_webhook_url lift
  prepare_webhook-IsSafe url payload net h =
      let (ips, found, h1) = >>=-value (resolve_webhook_url web now url) _ net h in
      let (u, valid, resolved) = >>=-value (lift (parse_webhook_url web url)) _ net found in
      let (v, parsed, made) = >>=-value (lift (or_raise (web.urlparse url))) _ _ h1 in
      target_for-IsSafe url v ips payload (or_raise-ok (web.urlparse url) parsed)
        (resolve_and_validate-IsAuthorised web (webhook_policy web) now (or_empty u.hostname) true
          net resolved)
        made
    where
      or_raise-ok : {A : Type 0} (o : Option A) {a : A} → or_raise o ≡ ok a → o ≡ some a
      or_raise-ok none h = cc
      or_raise-ok (some a) h = ground arith

  module _ {N : Type 0} (codec : Codec N) (client : Client) where
    -- Where nothing is posted the answer is False, and that is because sending is off, the least severity
    -- holds the event back, or the preparation fails. What is posted has a reason, an addressee, a payload
    -- and an answer.
    abbrev pub IsDelivery :
        SystemSettings N → Event → String → Net F → Option (Sent Payload) × Bool → Type 0
    IsDelivery s e base_url net (none, answer) =
        (answer ≡ false)
        × ((webhook_url web now codec client s ≡ none)
            ⊎ ((held_back web now codec client s e ≡ true)
                ⊎ ((url : String) × (x : Error) × (webhook_url web now codec client s ≡ some url)
                    × ((prepare_webhook web now url (payload_of client base_url e) net).0
                        ≡ err x))))
    IsDelivery s e base_url net (some sent, answer) =
        (s.c2_webhook_enabled ≡ true)
        × (held_back web now codec client s e ≡ false)
        × ((url : String) × (s.c2_webhook_url ≡ string url) × IsSafe url sent)
        × (sent.payload ≡ payload_of client base_url e)
        × (answer ≡ delivered client (client.post sent))

    -- Whatever a call does: if it posts something, sending is enabled and the least severity lets the event
    -- through; what is posted carries the event's severity, and goes to the URL of the settings, over plain
    -- http to an address that the webhook policy authorises; and the answer is True exactly if the client
    -- answers a status below 400. If it posts nothing, the answer is False, and sending is off, the least
    -- severity holds the event back, or the preparation of the request fails.
    pub dispatch_c2_webhook-IsDelivery :
        (s : SystemSettings N) (e : Event) (base_url : String) (net : Net F)
        → IsDelivery s e base_url net (dispatch_c2_webhook web now codec client s e base_url net).0
    unfolding dispatch_c2_webhook
    dispatch_c2_webhook-IsDelivery s e base_url net =
        elim (Option-cases (webhook_url web now codec client s)) [
          | inl off ↦ rw (dispatch_c2_webhook, off) (refl, inl off)
          | inr (url, on) ↦ elim (Bool-cases (held_back web now codec client s e)) [
            | inl held ↦ rw (dispatch_c2_webhook, on, held) (refl, inr (inl held))
            | inr free ↦
                let p = payload_of client base_url e in
                elim (Result-cases (prepare_webhook web now url p net).0) [
                  | inl (made, prepared) ↦
                      let (safe, whole) = prepare_webhook-IsSafe url p net prepared in
                      rw (dispatch_c2_webhook, on, free, prepared)
                        (webhook-enabled s on, free, (url, webhook-string s on, safe), whole, refl)
                  | inr (x, fails) ↦
                      rw (dispatch_c2_webhook, on, free, fails)
                        (refl, inr (inr (url, x, on, fails)))
                ]
          ]
        ]
      where
        webhook-enabled :
            (s : SystemSettings N) {url : String}
            → webhook_url web now codec client s ≡ some url
            → s.c2_webhook_enabled ≡ true
        webhook-enabled s h = ground arith

        webhook-string :
            (s : SystemSettings N) {url : String}
            → webhook_url web now codec client s ≡ some url
            → s.c2_webhook_url ≡ string url
        webhook-string s h = ground arith

module _ {N : Type 0} (codec : Codec N) where
  settings_of-as_dict :
      (s : SystemSettings N)
      → codec.truth (flag s.c2_webhook_enabled) ≡ s.c2_webhook_enabled
      → codec.to_float (number s.detection_confidence_threshold)
        ≡ some s.detection_confidence_threshold
      → codec.to_float (number s.loiter_cooldown_seconds) ≡ some s.loiter_cooldown_seconds
      → codec.to_int (number s.evidence_retention_days) ≡ some s.evidence_retention_days
      → settings_of codec (as_dict codec s) ≡ some s
  unfolding settings_of as_dict string_eq? ℕ_discrete
  settings_of-as_dict s truth threshold cooldown days =
      rw (settings_of, truth, threshold, cooldown, days)

  -- Where the codec reads back what it writes, and the settings have the types they are declared with, a
  -- process that starts with any settings loads the ones that were saved.
  pub load_settings-save_settings :
      (s other : SystemSettings N) (d : Disk N)
      → codec.loads (codec.dumps (as_dict codec s)) ≡ some (as_dict codec s)
      → codec.truth (flag s.c2_webhook_enabled) ≡ s.c2_webhook_enabled
      → codec.to_float (number s.detection_confidence_threshold)
        ≡ some s.detection_confidence_threshold
      → codec.to_float (number s.loiter_cooldown_seconds) ≡ some s.loiter_cooldown_seconds
      → codec.to_int (number s.evidence_retention_days) ≡ some s.evidence_retention_days
      → load_settings codec record (save_settings codec true s d) { current = other }
        ≡ save_settings codec true s d
  unfolding load_settings save_settings
  load_settings-save_settings s other d codec_laws truth threshold cooldown days =
      rw (codec_laws, settings_of-as_dict s truth threshold cooldown days)
