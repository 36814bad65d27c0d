-- ===== src/Webhooks/Deliver.antt =====
-- What the web hooks of rflink/webhooks.go send and fetch: one round of a poll with the command in
-- its answer, and a push. `Transport` stands for the HTTP client.
use go_rflink.Prelude.{
  ℕ, ◌+◌, ◌-◌, Bool, not, ◌&&◌, ◌||◌, Option, none, some, List, [], ◌∷◌, ltb, leb, ◌==◌,
  if◌then◌else◌, keep,
}
use go_rflink.Prelude.Text.{Text, codes, text_eq, is_empty, byte_len}
use go_rflink.Strings.{Unicode, trim_space, to_lower, to_upper}
use go_rflink.App.{App, Settings, execute_command}
use go_rflink.Webhooks.{RuntimeWebhook, poll_max_bytes}
use go_rflink.Webhooks.Address.{Resolver, validate_webhook_url, validate_webhook_url_resolved}
use go_rflink.Webhooks.Template.{
  webhook_url_has_placeholder, strip_webhook_placeholders, expand_webhook_placeholders,
  expand_webhook_get_url,
}

pub record Outgoing : Type 0 where
  pub method : Text
  pub url : Text
  pub body : Option Text

-- The status and the body of the answer, if one comes.
abbrev pub Transport : Type 0
Transport = Outgoing → Option (ℕ × Text)

abbrev pub is_break : ℕ → Bool
is_break c = c == 13 || c == 10

-- The text up to the first line break, if it has one.
unfoldable pub before_break : Text → Option Text
before_break [] = none
before_break (c ∷ s) =
    let rest = before_break s in
    if is_break c then some [] else (elim rest [ none ↦ none | some t ↦ some (c ∷ t) ])

-- The command in the body of an answer.
unfoldable pub poll_command : Text → Option Text
unfolding before_break trim_space
poll_command body =
    let text = trim_space body in
    let line : Text = elim (before_break text) [ none ↦ text | some t ↦ trim_space t ] in
    if is_empty text then none else if is_empty line then none else some line

-- What becomes of the answer to a poll.
unfoldable pub answered : ℕ → Option (ℕ × Text) → Option Text
unfolding poll_command
answered max_bytes none = none
answered max_bytes (some (status, body)) =
    if ltb max_bytes (byte_len body)
    then none
    else if ltb status 200 || leb 300 status
    then none
    else poll_command body

abbrev pub method_or : Text → Text → Text
method_or d m = if is_empty m then d else m

module _ ⦃u : Unicode⦄ {Ip : Type 0} (net : Resolver Ip) where
  -- The request of `doPollOnce`; an HTTP client takes any method that is a token.
  abbrev pub poll_outgoing : RuntimeWebhook → Outgoing
  poll_outgoing h =
      let method = method_or (codes "GET") (to_upper h.method) in
      record {
        method = method;
        url = h.url;
        body = if text_eq method (codes "POST") then some [] else none;
      }

  unfoldable pub poll_once : Transport → RuntimeWebhook → Option Text
  unfolding validate_webhook_url validate_webhook_url_resolved answered poll_max_bytes
  poll_once transport h =
      if not (validate_webhook_url net h.url)
      then none
      else if not (validate_webhook_url_resolved net h.url)
      then none
      else answered (poll_max_bytes h) (transport (poll_outgoing h))

  -- The whole round, with the command executed.
  unfoldable pub do_poll_once : Transport → Settings → ℕ → ℕ → Bool → RuntimeWebhook → App → App
  unfolding poll_once execute_command
  do_poll_once transport c now later accepted h a = elim (poll_once transport h) [
    | none ↦ a
    | some command ↦ (execute_command c now later accepted command a).1
  ]

  -- The request of `doPush`, if one is made.
  push_method : RuntimeWebhook → Text
  push_method h = if text_eq (to_upper h.method) (codes "GET") then codes "GET" else codes "POST"

  post_url : (Text → Text) → RuntimeWebhook → Text → Text
  post_url escape h body =
      if webhook_url_has_placeholder h.url
      then expand_webhook_placeholders escape h.url body
      else h.url

  get_url : (Text → Text) → (Text → Text → Text → Option Text) → RuntimeWebhook → Text → Option Text
  get_url escape with_query h body =
      elim (expand_webhook_get_url escape with_query h.url h.payload body) [
        | none ↦ none
        | some expanded ↦
            if ltb 7800 (byte_len expanded)
            then none
            else if not (validate_webhook_url net (strip_webhook_placeholders expanded))
            then none
            else some expanded
      ]

  -- The lines from `validateWebhookURLResolved` on.
  unfoldable pub request_to : Text → Option Text → Option Text → Option Outgoing
  unfolding validate_webhook_url_resolved
  request_to method body none = none
  request_to method body (some url) =
      if validate_webhook_url_resolved net url
      then some (record { method = method; url = url; body = body })
      else none

  unfoldable pub push_request :
      (Text → Text) → (Text → Text → Text → Option Text) → RuntimeWebhook → Text → Option Outgoing
  unfolding push_method post_url get_url validate_webhook_url request_to
  push_request escape with_query h body =
      let is_get = text_eq (push_method h) (codes "GET") in
      let url =
        if is_get then get_url escape with_query h body else some (post_url escape h body) in
      if validate_webhook_url net h.url
      then request_to (push_method h) (if is_get then none else some body) url
      else none

  -- The filter of `NotifyRaw` and `NotifySumJSON`, for "raw" and "sumjson".
  unfoldable pub notified : Text → List RuntimeWebhook → List RuntimeWebhook
  notified payload = keep (λ h.
      h.enabled && text_eq (to_lower h.kind) (codes "push") && text_eq (to_lower h.payload) payload)

-- `maxConcurrentPush`, the room of the semaphore.
abbrev pub max_concurrent_push : ℕ
max_concurrent_push = 8

-- The pushes under way, and how many were started and dropped.
pub record Pushes : Type 0 where
  pub under_way : ℕ
  pub started : ℕ
  pub dropped : ℕ

-- `enqueuePush`, and the end of a push.
pub data PushEvent : Type 0 where
  offer finish : PushEvent

unfoldable pub push_step : PushEvent → Pushes → Pushes
push_step offer p =
    if ltb p.under_way max_concurrent_push
    then record p { under_way = p.under_way + 1; started = p.started + 1 }
    else record p { dropped = p.dropped + 1 }
push_step finish p = record p { under_way = p.under_way - 1 }

unfoldable pub push_steps : List PushEvent → Pushes → Pushes
unfolding push_step
push_steps [] p = p
push_steps (e ∷ es) p = push_steps es (push_step e p)
