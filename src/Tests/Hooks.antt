-- ===== src/Tests/Hooks.antt =====
-- Web hooks.
use go_rflink.Prelude.{
  ℕ, suc, ◌≤◌, ◌≡◌, refl, true, false, Option, none, some, [], ◌∷◌, ◌==◌, length, All,
  if◌then◌else◌,
}
use go_rflink.Prelude.Text.{Text, codes, text_eq, is_empty, byte_len}
use go_rflink.Strings.{trim_space}
use go_rflink.Options.Settings.{pos}
use go_rflink.Webhooks.{RuntimeWebhook, max_webhooks, parse_webhooks_json, poll_max_bytes}
use go_rflink.Webhooks.Address.{Url, Resolver, validate_webhook_url_resolved}
use go_rflink.Webhooks.Template.{has_any}
use go_rflink.Webhooks.Valid.{
  IsAcceptable, IsHarmless, parse_webhooks_json-IsAcceptable, push_request-IsHarmless,
}
use go_rflink.Webhooks.Deliver.{Outgoing, Transport, poll_outgoing, poll_once, push_request}
use go_rflink.Webhooks.Limits.{IsLine, poll_once-IsLine}
use go_rflink.Tests.Settings.{ascii_only}

abbrev pub lan : Url
lan = record {
  scheme = codes "http";
  host = codes "10.0.0.5";
  has_user = false;
  hostname = codes "10.0.0.5";
}

abbrev pub resolver : Resolver ℕ
resolver = record {
  parse_url = λ s. some lan;
  parse_ip = λ s. if text_eq s (codes "10.0.0.5") then some 5 else none;
  lookup_ip = λ s. none;
  is_loopback = λ ip. false;
  is_link_local = λ ip. false;
  is_multicast = λ ip. false;
  is_unspecified = λ ip. false;
  is_private = λ ip. true;
  equal = λ a b. a == b;
}

abbrev pub hook : RuntimeWebhook
hook = record {
  id = [];
  name = codes "lamp";
  enabled = true;
  kind = codes "push";
  url = codes "http://10.0.0.5/";
  method = codes "POST";
  interval_sec = pos 0;
  timeout_sec = pos 5;
  max_response_bytes = pos 0;
  payload = codes "raw";
  headers = [];
  created_at = [];
}

abbrev pub poller : RuntimeWebhook
poller = record hook { kind = codes "poll"; method = codes "GET" }

abbrev new_id : RuntimeWebhook → Text
new_id h = codes "0123456789"

parse_webhooks_json-IsAcceptable_example :
    let hooks =
      parse_webhooks_json ⦃u = ascii_only⦄ resolver
        (λ s. some (hook ∷ poller ∷ []))
        new_id
        (codes "[]") in
    (length hooks ≤ max_webhooks) × All (IsAcceptable ⦃u = ascii_only⦄ resolver) hooks
parse_webhooks_json-IsAcceptable_example =
    parse_webhooks_json-IsAcceptable ⦃u = ascii_only⦄ resolver (λ s. some (hook ∷ poller ∷ []))
      new_id (codes "[]")

abbrev outgoing : Outgoing
outgoing = record {
  method = codes "POST";
  url = codes "http://10.0.0.5/";
  body = some (codes "{}");
}

abbrev no_query : Text → Text → Text → Option Text
no_query template key body = none

hook-pushed :
    push_request ⦃u = ascii_only⦄ resolver (λ s. s) no_query hook (codes "{}") ≡ some outgoing
unfolding push_request trim_space has_any
hook-pushed = refl

push_request-IsHarmless_example : IsHarmless ⦃u = ascii_only⦄ resolver (codes "http://10.0.0.5/")
push_request-IsHarmless_example =
    push_request-IsHarmless ⦃u = ascii_only⦄ resolver (λ s. s) no_query hook (codes "{}") outgoing
      hook-pushed

abbrev answers : Transport
answers out = some (200, codes "10;PING;\nmore")

poller-answered : poll_once ⦃u = ascii_only⦄ resolver answers poller ≡ some (codes "10;PING;")
unfolding poll_once
poller-answered = refl

poll_once-IsLine_example :
    (validate_webhook_url_resolved resolver ⦃u = ascii_only⦄ poller.url ≡ true)
    × ((IsLine (codes "10;PING;") × (is_empty (codes "10;PING;") ≡ false))
        × ((status : ℕ) × (body : Text) × (answers (poll_outgoing ⦃u = ascii_only⦄ resolver poller)
              ≡ some (status, body))
            × (byte_len body ≤ poll_max_bytes poller)
            × (200 ≤ status)
            × (suc status ≤ 300)))
poll_once-IsLine_example =
    poll_once-IsLine ⦃u = ascii_only⦄ resolver answers poller (codes "10;PING;") poller-answered
