-- ===== src/Webhooks/Address.antt =====
-- Which URLs a web hook may call: the validation in rflink/webhooks.go. Go's `net` and `net/url`
-- are the fields of `Resolver`.
use go_rflink.Prelude.{Bool, false, not, ◌&&◌, ◌||◌, Option, none, some, List, [], ◌∷◌, leb, all}
use go_rflink.Prelude.Text.{Text, codes, text_eq, is_empty, byte_len}
use go_rflink.Strings.{Unicode, trim_space, to_lower, contains, has_suffix}
use go_rflink.Webhooks.Template.{strip_webhook_placeholders}

-- The parts of a parsed URL that are looked at.
pub record Url : Type 0 where
  pub scheme : Text
  pub host : Text
  pub has_user : Bool
  pub hostname : Text

pub record Resolver (Ip : Type 0) : Type 0 where
  pub parse_url : Text → Option Url
  pub parse_ip : Text → Option Ip
  pub lookup_ip : Text → Option (List Ip)
  pub is_loopback : Ip → Bool
  pub is_link_local : Ip → Bool
  pub is_multicast : Ip → Bool
  pub is_unspecified : Ip → Bool
  pub is_private : Ip → Bool
  pub equal : Ip → Ip → Bool

abbrev any_suffix : List Text → Text → Bool
any_suffix [] host = false
any_suffix (sfx ∷ rest) host = has_suffix host sfx || any_suffix rest host

unfoldable pub is_local_lab_host : Text → Bool
is_local_lab_host = any_suffix (
    codes ".local"
    ∷ codes ".lan"
    ∷ codes ".loc"
    ∷ codes ".internal"
    ∷ codes ".home"
    ∷ codes ".intranet"
    ∷ codes ".test"
    ∷ [])

module _ {Ip : Type 0} (net : Resolver Ip) where
  -- `ip.Equal(net.ParseIP(text))`
  is_address : Text → Ip → Bool
  is_address text ip = elim (net.parse_ip text) [ none ↦ false | some other ↦ net.equal ip other ]

  -- `rejectDangerousIP`; true is the nil error.
  unfoldable pub harmless_ip : Ip → Bool
  unfolding is_address
  harmless_ip ip =
      not (net.is_loopback ip)
      && not (net.is_link_local ip)
      && not (net.is_multicast ip)
      && not (net.is_unspecified ip)
      && not (is_address (codes "169.254.169.254") ip)
      && not (is_address (codes "169.254.170.2") ip)

  module _ ⦃u : Unicode⦄ where
    -- The part of `validateWebhookURL` on the host name.
    unfoldable pub host_allowed : Text → Text → Bool
    unfolding harmless_ip is_local_lab_host
    host_allowed scheme host =
        let lower = to_lower host in
        let http = text_eq scheme (codes "http") in
        not (is_empty host)
        && not (text_eq lower (codes "localhost"))
        && not (has_suffix lower (codes ".localhost"))
        && not (text_eq lower (codes "metadata.google.internal"))
        && not (contains lower (codes "169.254.169.254"))
        && (elim (net.parse_ip host) [
          | some ip ↦
              harmless_ip ip && not (http && not (net.is_private ip) && not (net.is_loopback ip))
          | none ↦ not http || is_local_lab_host lower
        ])

    -- `validateWebhookURL`; true is the nil error.
    unfoldable pub validate_webhook_url : Text → Bool
    unfolding host_allowed
    validate_webhook_url raw =
        let s = trim_space raw in
        not (is_empty s)
        && leb (byte_len s) 2048
        && (elim (net.parse_url (strip_webhook_placeholders s)) [
          | none ↦ false
          | some url ↦
              (text_eq url.scheme (codes "http") || text_eq url.scheme (codes "https"))
              && not (is_empty url.host)
              && not url.has_user
              && host_allowed url.scheme url.hostname
        ])

    -- `validateWebhookURLResolved`
    unfoldable pub resolved_ok : Text → Bool
    unfolding harmless_ip
    resolved_ok host = elim (net.parse_ip host) [
      | some ip ↦ harmless_ip ip
      | none ↦ elim (net.lookup_ip host) [
        | none ↦ false
        | some [] ↦ false
        | some (ip ∷ ips) ↦ all harmless_ip (ip ∷ ips)
      ]
    ]

    unfoldable pub validate_webhook_url_resolved : Text → Bool
    unfolding validate_webhook_url resolved_ok
    validate_webhook_url_resolved raw =
        validate_webhook_url raw
        && (elim (net.parse_url (strip_webhook_placeholders (trim_space raw))) [
          | none ↦ false
          | some url ↦ not (is_empty url.hostname) && resolved_ok url.hostname
        ])
