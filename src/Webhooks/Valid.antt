-- ===== src/Webhooks/Valid.antt =====
-- What the validation of rflink/webhooks.go promises of the hooks and of the addresses they call.
use go_rflink.Prelude.{
  ℕ, zero, suc, ◌≤◌, ◌≡◌, ◌≢◌, refl, sym, ap, ◌∙◌, inl, inr, Bool, true, false, not, ◌&&◌, Option,
  none, some, List, [], ◌∷◌, if◌then◌else◌, length, all, All, Bool-cases, Option-cases, arith,
}
use go_rflink.Prelude.Text.{Text, codes, text_eq, is_empty}
use go_rflink.Strings.{Unicode, trim_space}
use go_rflink.Options.Settings.{ℤ, pos, negsuc}
use go_rflink.Webhooks.{
  RuntimeWebhook, max_webhooks, in_range, normalized, filled, acceptable, validate_webhook_config,
  valid_webhooks, parse_webhooks_json, poll_interval, poll_max_bytes,
}
use go_rflink.Webhooks.Address.{
  Resolver, Url, harmless_ip, resolved_ok, validate_webhook_url, validate_webhook_url_resolved,
}
use go_rflink.Webhooks.Template.{strip_webhook_placeholders}
use go_rflink.Webhooks.Deliver.{Outgoing, request_to, push_request}

all_lem : {A : Type 0} (p : A → Bool) (xs : List A) → all p xs ≡ true → All (λ x. p x ≡ true) xs
all_lem p [] h = tt
all_lem p (x ∷ xs) h = (ground arith, all_lem p xs (ground arith))

and_right : (a b : Bool) → (a && b) ≡ true → b ≡ true
and_right a b h = ground arith

not_false : ¬ (false ≡ true)
not_false e = ground arith

module _ ⦃u : Unicode⦄ {Ip : Type 0} (net : Resolver Ip) where
  -- A hook that the validation has accepted.
  abbrev pub IsAcceptable : RuntimeWebhook → Type 0
  IsAcceptable h = acceptable net h ≡ true

  validate-IsAcceptable :
      (h h' : RuntimeWebhook) → validate_webhook_config net h ≡ some h' → IsAcceptable h'
  unfolding validate_webhook_config
  validate-IsAcceptable h h' e =
      elim (Bool-cases (acceptable net (filled net (normalized net h)))) [
        | inl ok ↦
            let same : filled net (normalized net h) ≡ h' = ground arith in
            ap (acceptable net) (sym same) ∙ ok
        | inr bad ↦ absurd (ground arith)
      ]

  with_id : (h : RuntimeWebhook) (id : Text) → IsAcceptable h → IsAcceptable (record h { id = id })
  unfolding acceptable
  with_id h id ok = ok

  valid_webhooks-IsAcceptable :
      (room : ℕ) (new_id : RuntimeWebhook → Text) (hs : List RuntimeWebhook)
      → (length (valid_webhooks net room new_id hs) ≤ room)
        × All IsAcceptable (valid_webhooks net room new_id hs)
  unfolding valid_webhooks
  valid_webhooks-IsAcceptable room new_id [] = (omega arith, tt)
  valid_webhooks-IsAcceptable zero new_id (h ∷ hs) = (omega arith, tt)
  valid_webhooks-IsAcceptable (suc room) new_id (h ∷ hs) =
      elim (Option-cases (validate_webhook_config net h)) [
        | inl e ↦ rw (e, valid_webhooks) (valid_webhooks-IsAcceptable (suc room) new_id hs)
        | inr (h', e) ↦
            let (few, good) = valid_webhooks-IsAcceptable room new_id hs in
            rw (e, valid_webhooks)
              (
                omega arith,
                (
                  with_id h' (if is_empty h'.id then new_id h' else h'.id)
                      (validate-IsAcceptable h h' e),
                  good,
                ),
              )
      ]

  -- Whatever the setting holds, `parseWebhooksJSON` gives at most 8 hooks, each of which passes
  -- every check of `ValidateWebhookConfig`.
  pub parse_webhooks_json-IsAcceptable :
      (decode : Text → Option (List RuntimeWebhook)) (new_id : RuntimeWebhook → Text) (raw : Text)
      → let hooks = parse_webhooks_json net decode new_id raw in
        (length hooks ≤ max_webhooks) × All IsAcceptable hooks
  unfolding parse_webhooks_json
  parse_webhooks_json-IsAcceptable decode new_id raw =
      elim (Bool-cases (is_empty (trim_space raw))) [
        | inl blank ↦ rw (blank, parse_webhooks_json) (omega arith, tt)
        | inr full ↦ elim (Option-cases (decode (trim_space raw))) [
          | inl e ↦ rw (full, e, parse_webhooks_json) (omega arith, tt)
          | inr (hs, e) ↦
              rw (full, e, parse_webhooks_json) (valid_webhooks-IsAcceptable max_webhooks new_id hs)
        ]
      ]

  acceptable-poll :
      (h : RuntimeWebhook)
      → IsAcceptable h
      → text_eq h.kind (codes "poll") ≡ true
      → (in_range 5 86400 h.interval_sec ≡ true) × (in_range 32 4096 h.max_response_bytes ≡ true)
  unfolding acceptable
  acceptable-poll h ok poll = ground arith

  in_range-pos :
      (lo hi : ℕ) (x : ℤ) → in_range lo hi x ≡ true → (n : ℕ) × (x ≡ pos n) × (lo ≤ n) × (n ≤ hi)
  in_range-pos lo hi (pos n) h = (n, refl, ground arith, ground arith)
  in_range-pos lo hi (negsuc n) h = absurd (ground arith)

  -- For a validated poll hook the limits of `runPoll` are those of its configuration.
  pub validate_webhook_config-poll :
      (h h' : RuntimeWebhook)
      → validate_webhook_config net h ≡ some h'
      → text_eq h'.kind (codes "poll") ≡ true
      → ((h'.interval_sec ≡ pos (poll_interval h')) × (5 ≤ poll_interval h'))
        × ((h'.max_response_bytes ≡ pos (poll_max_bytes h')) × (poll_max_bytes h' ≤ 4096))
  unfolding poll_interval poll_max_bytes
  validate_webhook_config-poll h h' e poll =
      let (interval_ok, bytes_ok) = acceptable-poll h' (validate-IsAcceptable h h' e) poll in
      let (n, is_n, least, most) = in_range-pos 5 86400 h'.interval_sec interval_ok in
      let (m, is_m, least', most') = in_range-pos 32 4096 h'.max_response_bytes bytes_ok in
      rw (is_n, is_m) ((ground arith, ground arith), (ground arith, ground arith))

  -- The addresses that a host stands for.
  abbrev pub addresses : Text → Option (List Ip)
  addresses host = elim (net.parse_ip host) [ some ip ↦ some (ip ∷ []) | none ↦ net.lookup_ip host ]

  -- The URL names a host with addresses, and each of them is harmless.
  pub record IsHarmless (raw : Text) : Type 0 where
    pub url : Url
    pub ips : List Ip
    pub parsed : net.parse_url (strip_webhook_placeholders (trim_space raw)) ≡ some url
    pub found : addresses url.hostname ≡ some ips
    pub harmless : All (λ ip. harmless_ip net ip ≡ true) ips

  resolved_ok-cases :
      (host : Text)
      → resolved_ok net host ≡ true
      → (ips : List Ip) × (addresses host ≡ some ips) × All (λ ip. harmless_ip net ip ≡ true) ips
  unfolding resolved_ok
  resolved_ok-cases host h = elim (Option-cases (net.parse_ip host)) [
    | inr (ip, e) ↦ (ip ∷ [], rw (addresses, e) refl, (ground arith, tt))
    | inl e ↦ elim (Option-cases (net.lookup_ip host)) [
      | inl gone ↦ absurd (ground arith)
      | inr (ips, found) ↦ named ips e found
    ]
  ]
    where
      named :
          (ips : List Ip)
          → net.parse_ip host ≡ none
          → net.lookup_ip host ≡ some ips
          → (ips : List Ip) × (addresses host ≡ some ips)
            × All (λ ip. harmless_ip net ip ≡ true) ips
      named [] e found = absurd (ground arith)
      named (ip ∷ ips) e found = (
        ip ∷ ips,
        rw (addresses, e, found) refl,
        all_lem (harmless_ip net) (ip ∷ ips) (ground arith),
      )

  resolved-IsHarmless : (raw : Text) → validate_webhook_url_resolved net raw ≡ true → IsHarmless raw
  unfolding validate_webhook_url_resolved
  resolved-IsHarmless raw h =
      elim (Option-cases (net.parse_url (strip_webhook_placeholders (trim_space raw)))) [
        | inl e ↦ absurd (not_false (rw e at (and_right (validate_webhook_url net raw) _ h)))
        | inr (url, e) ↦
            let tested : (not (is_empty url.hostname) && resolved_ok net url.hostname) ≡ true =
              rw e at (and_right (validate_webhook_url net raw) _ h) in
            let (ips, found, harmless) =
              resolved_ok-cases url.hostname (and_right (not (is_empty url.hostname)) _ tested) in
            record { url = url; ips = ips; parsed = e; found = found; harmless = harmless }
      ]

  request_to-resolved :
      (method : Text) (body url : Option Text) (out : Outgoing)
      → request_to net method body url ≡ some out
      → validate_webhook_url_resolved net out.url ≡ true
  unfolding request_to
  request_to-resolved method body none out e = absurd (ground arith)
  request_to-resolved method body (some url) out e =
      elim (Bool-cases (validate_webhook_url_resolved net url)) [
        | inl ok ↦
            let same : url ≡ out.url = ground arith in
            ap (validate_webhook_url_resolved net) (sym same) ∙ ok
        | inr bad ↦ absurd (ground arith)
      ]

  -- A push that is sent goes to a URL that, with its placeholders left out, names a host which
  -- stands for a list of addresses, each of which `rejectDangerousIP` lets pass.
  pub push_request-IsHarmless :
      (escape : Text → Text) (with_query : Text → Text → Text → Option Text) (h : RuntimeWebhook)
      (body : Text) (out : Outgoing)
      → push_request net escape with_query h body ≡ some out
      → IsHarmless out.url
  unfolding push_request
  push_request-IsHarmless escape with_query h body out e =
      elim (Bool-cases (validate_webhook_url net h.url)) [
        | inl ok ↦ resolved-IsHarmless out.url (request_to-resolved _ _ _ out (rw ok at e))
        | inr bad ↦ absurd (none_some out (rw bad at e))
      ]
    where
      none_some : (o : Outgoing) → none ≢ some o
      none_some o e = ground arith
