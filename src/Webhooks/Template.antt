-- ===== src/Webhooks/Template.antt =====
-- The placeholders in the URL of a web hook, in rflink/webhooks.go.
use go_rflink.Prelude.{
  ℕ, zero, suc, ◌-◌, Bool, true, false, ◌||◌, Option, some, List, [], ◌∷◌, ◌++◌, if◌then◌else◌,
  length,
}
use go_rflink.Prelude.Text.{Text, codes, text_eq, has_prefix}
use go_rflink.Strings.{Unicode, trim_space, to_lower, contains}

-- `strings.ReplaceAll` of a text that is not empty; `skip` counts the characters of a match that
-- are still to be passed over.
unfoldable pub replace_from : ℕ → Text → Text → Text → Text
replace_from skip old new [] = []
replace_from (suc skip) old new (c ∷ s) = replace_from skip old new s
replace_from zero old new (c ∷ s) = elim (has_prefix (c ∷ s) old) [
  | true ↦ new ++ replace_from (length old - 1) old new s
  | false ↦ c ∷ replace_from zero old new s
]

abbrev pub webhook_placeholders : List Text
webhook_placeholders =
    codes "%payload%"
    ∷ codes "%PAYLOAD%"
    ∷ codes "%raw%"
    ∷ codes "%RAW%"
    ∷ codes "%json%"
    ∷ codes "%JSON%"
    ∷ codes "{payload}"
    ∷ codes "{{payload}}"
    ∷ []

unfoldable pub has_any : List Text → Text → Bool
has_any [] s = false
has_any (ph ∷ phs) s = contains s ph || has_any phs s

-- `webhookURLHasPlaceholder`
abbrev pub webhook_url_has_placeholder : Text → Bool
webhook_url_has_placeholder = has_any webhook_placeholders

-- The loop of `expandWebhookPlaceholders` and of `stripWebhookPlaceholders`.
unfoldable pub replace_each : List Text → Text → Text → Text
unfolding replace_from
replace_each [] new s = s
replace_each (ph ∷ phs) new s = replace_each phs new (replace_from 0 ph new s)

abbrev pub strip_webhook_placeholders : Text → Text
strip_webhook_placeholders = replace_each webhook_placeholders (codes "x")

-- `escape` stands for `url.QueryEscape`.
abbrev pub expand_webhook_placeholders : (Text → Text) → Text → Text → Text
expand_webhook_placeholders escape template body =
    replace_each webhook_placeholders (escape body) template

module _ ⦃u : Unicode⦄ where
  -- The name of the query parameter that takes the body.
  unfoldable pub query_key : Text → Text
  query_key payload_kind =
      let kind = to_lower (trim_space payload_kind) in
      if text_eq kind (codes "raw")
      then codes "raw"
      else if text_eq kind (codes "sumjson") || text_eq kind (codes "json")
      then codes "json"
      else codes "payload"

  -- `expandWebhookGETURL`; `with_query` sets a parameter of a URL that parses.
  unfoldable pub expand_webhook_get_url :
      (Text → Text) → (Text → Text → Text → Option Text) → Text → Text → Text → Option Text
  unfolding has_any replace_each query_key
  expand_webhook_get_url escape with_query template payload_kind body =
      if webhook_url_has_placeholder template
      then some (expand_webhook_placeholders escape template body)
      else with_query template (query_key payload_kind) body
