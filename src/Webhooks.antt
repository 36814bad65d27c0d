-- ===== src/Webhooks.antt =====
-- rflink/webhooks.go: the web hooks of the settings, and their validation before one is used or
-- saved. Header maps are association lists.
pub mod Address
pub mod Template
pub mod Deliver
pub mod Valid
pub mod Limits
use go_rflink.Prelude.{
  ℕ, zero, suc, Bool, true, false, not, ◌&&◌, ◌||◌, Option, none, some, List, [], ◌∷◌, ltb, leb,
  min, max, if◌then◌else◌, length, all,
}
use go_rflink.Prelude.Text.{Text, codes, text_eq, is_empty, byte_len}
use go_rflink.Strings.{Unicode, trim_space, contains, to_lower, to_upper}
use go_rflink.Options.Validate.{re_label}
use go_rflink.Options.Settings.{ℤ, pos, negsuc, default_unless_positive}
use go_rflink.Webhooks.Address.{Resolver, validate_webhook_url}

-- The constants at the top of the file.
abbrev pub max_webhooks : ℕ
max_webhooks = 8

abbrev pub min_poll_interval_sec : ℕ
min_poll_interval_sec = 5

abbrev pub default_poll_max_bytes : ℕ
default_poll_max_bytes = 512

abbrev pub max_poll_max_bytes : ℕ
max_poll_max_bytes = 4096

abbrev pub default_hook_timeout_sec : ℕ
default_hook_timeout_sec = 5

pub record RuntimeWebhook : Type 0 where
  pub id : Text
  pub name : Text
  pub enabled : Bool
  pub kind : Text
  pub url : Text
  pub method : Text
  pub interval_sec : ℤ
  pub timeout_sec : ℤ
  pub max_response_bytes : ℤ
  pub payload : Text
  pub headers : List (Text × Text)
  pub created_at : Text

abbrev pub is_zero : ℤ → Bool
is_zero (pos zero) = true
is_zero _ = false

-- `x >= lo && x <= hi`
abbrev pub in_range : ℕ → ℕ → ℤ → Bool
in_range lo hi (pos n) = leb lo n && leb n hi
in_range lo hi (negsuc n) = false

-- `strings.ContainsAny(s, "\r\n")`
abbrev pub has_line_break : Text → Bool
has_line_break s = contains s (codes "\r") || contains s (codes "\n")

header_ok : Text × Text → Bool
header_ok (k, v) =
    leb (byte_len k) 64 && leb (byte_len v) 512 && not (has_line_break k) && not (has_line_break v)

unfoldable pub headers_ok : List (Text × Text) → Bool
unfolding header_ok
headers_ok hs = leb (length hs) 16 && all header_ok hs

-- The defaults that validation fills in.
abbrev pub method_or_default : Text → Text → Text
method_or_default kind method =
    if is_empty method
    then (if text_eq kind (codes "poll") then codes "GET" else codes "POST")
    else method

abbrev pub or_positive : ℕ → ℤ → ℤ
or_positive d x = if is_zero x then pos d else x

module _ ⦃u : Unicode⦄ {Ip : Type 0} (net : Resolver Ip) where
  -- The first lines of `ValidateWebhookConfig`.
  unfoldable pub normalized : RuntimeWebhook → RuntimeWebhook
  normalized h = record h {
    name = trim_space h.name;
    url = trim_space h.url;
    kind = to_lower (trim_space h.kind);
    method = to_upper (trim_space h.method);
    payload = to_lower (trim_space h.payload);
  }

  -- The defaults for the kind of the hook.
  unfoldable pub filled : RuntimeWebhook → RuntimeWebhook
  filled h =
      let poll = text_eq h.kind (codes "poll") in
      record h {
        method = method_or_default h.kind h.method;
        interval_sec = if poll then or_positive 30 h.interval_sec else h.interval_sec;
        max_response_bytes =
            if poll
            then or_positive default_poll_max_bytes h.max_response_bytes
            else h.max_response_bytes;
        payload = if not poll && is_empty h.payload then codes "sumjson" else h.payload;
      }

  -- What is tested of the hook with its defaults; a hook that is not of kind poll is a push.
  unfoldable pub acceptable : RuntimeWebhook → Bool
  unfolding validate_webhook_url headers_ok
  acceptable h =
      let poll = text_eq h.kind (codes "poll") in
      not (is_empty h.name)
      && leb (byte_len h.name) 64
      && re_label h.name
      && (poll || text_eq h.kind (codes "push"))
      && validate_webhook_url net h.url
      && (text_eq h.method (codes "GET") || text_eq h.method (codes "POST"))
      && in_range 0 60 h.timeout_sec
      && (if poll
          then in_range min_poll_interval_sec 86400 h.interval_sec
            && in_range 32 max_poll_max_bytes h.max_response_bytes
          else (text_eq h.payload (codes "raw") || text_eq h.payload (codes "sumjson")))
      && headers_ok h.headers

  -- `ValidateWebhookConfig`: the hook as it is left, or none for an error.
  unfoldable pub validate_webhook_config : RuntimeWebhook → Option RuntimeWebhook
  unfolding normalized filled acceptable
  validate_webhook_config h =
      let h' = filled (normalized h) in if acceptable h' then some h' else none

  -- The loop of `parseWebhooksJSON`, with the number of hooks that it may still take.
  unfoldable pub valid_webhooks :
      ℕ → (RuntimeWebhook → Text) → List RuntimeWebhook → List RuntimeWebhook
  unfolding validate_webhook_config
  valid_webhooks room new_id [] = []
  valid_webhooks zero new_id (h ∷ hs) = []
  valid_webhooks (suc room) new_id (h ∷ hs) = elim (validate_webhook_config h) [
    | none ↦ valid_webhooks (suc room) new_id hs
    | some h' ↦
        record h' { id = if is_empty h'.id then new_id h' else h'.id }
        ∷ valid_webhooks room new_id hs
  ]

  -- `parseWebhooksJSON`; `decode` reads JSON, and `new_id` stands for `newWebhookID`.
  unfoldable pub parse_webhooks_json :
      (Text → Option (List RuntimeWebhook)) → (RuntimeWebhook → Text) → Text → List RuntimeWebhook
  unfolding valid_webhooks
  parse_webhooks_json decode new_id raw =
      if is_empty (trim_space raw) then [] else (elim (decode (trim_space raw)) [
        | none ↦ []
        | some hs ↦ valid_webhooks max_webhooks new_id hs
      ])

-- The limits of `runPoll`: interval, time-out and size.
unfoldable pub poll_interval : RuntimeWebhook → ℕ
poll_interval h = elim h.interval_sec [
  | pos n ↦ max n min_poll_interval_sec
  | negsuc n ↦ min_poll_interval_sec
]

unfoldable pub poll_max_bytes : RuntimeWebhook → ℕ
poll_max_bytes h =
    min (default_unless_positive default_poll_max_bytes h.max_response_bytes) max_poll_max_bytes

unfoldable pub poll_timeout : RuntimeWebhook → ℕ
poll_timeout h = default_unless_positive default_hook_timeout_sec h.timeout_sec
