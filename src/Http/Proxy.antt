-- ===== src/Http/Proxy.antt =====
-- The address of a client behind trusted proxies, the origins that CORS allows, and the address to
-- listen on: the helpers of rflink/http_server.go. Addresses and networks of Go's `net` package are
-- types of their own, and its functions the fields of `Net`.
use go_rflink.Prelude.{
  ℕ, ◌≡◌, ◌≢◌, ◌⊎◌, refl, inl, inr, Bool, true, false, not, ◌&&◌, ◌||◌, Option, none, some, List,
  [], ◌∷◌, ◌++◌, ltb, ◌==◌, if◌then◌else◌, all, Bool-cases, Option-cases, arith,
}
use go_rflink.Prelude.Text.{Text, codes, text_eq, is_empty, byte_len}
use go_rflink.Strings.{
  Unicode, ascii_letter, ascii_digit, trim_left, trim_right, trim_space, contains, split, to_lower,
  equal_fold,
}
use go_rflink.Options.{split_csv}

pub record Net (Ip Network : Type 0) : Type 0 where
  pub split_host_port : Text → Option Text
  pub parse_ip : Text → Option Ip
  pub is_ipv4 : Ip → Bool
  pub is_loopback : Ip → Bool
  pub parse_cidr : Text → Option Network
  pub has : Network → Ip → Bool

-- `looksLikeRequestID`
unfoldable pub looks_like_request_id : Text → Bool
looks_like_request_id s =
    not (ltb (byte_len s) 8)
    && not (ltb 64 (byte_len s))
    && all (λ c. ascii_letter c || ascii_digit c || c == b'-' || c == b'_' || c == b'.') s

module _ {Ip Network : Type 0} (net : Net Ip Network) where
  unfoldable pub ip_in_nets : Ip → List Network → Bool
  ip_in_nets ip [] = false
  ip_in_nets ip (n ∷ nets) = net.has n ip || ip_in_nets ip nets

  -- The text that goes to `ParseCIDR`.
  as_cidr : Text → Text
  as_cidr p = if contains p (codes "/") then p else (elim (net.parse_ip p) [
    | none ↦ p
    | some ip ↦ p ++ (if net.is_ipv4 ip then codes "/32" else codes "/128")
  ])

  networks_of : List Text → List Network
  networks_of [] = []
  networks_of (p ∷ ps) =
      let rest = networks_of ps in
      elim (net.parse_cidr (as_cidr p)) [ none ↦ rest | some n ↦ n ∷ rest ]

  -- `parseTrustedProxies`; `parseCSVList` gives the parts that `splitCSV` gives.
  unfoldable pub parse_trusted_proxies : Text → List Network
  unfolding networks_of as_cidr split_csv
  parse_trusted_proxies raw =
      if is_empty (trim_space raw) then [] else networks_of (split_csv (trim_space raw))

  -- `parts[0]`; a split has a first part.
  first_part : List Text → Text
  first_part [] = []
  first_part (p ∷ ps) = p

  -- A text that stands for an address.
  address : Text → Option Text
  address s = elim (net.parse_ip s) [ none ↦ none | some ip ↦ some s ]

  -- What the forwarded headers of a trusted proxy say.
  unfoldable pub forwarded : Text → Text → Option Text
  unfolding address first_part split trim_space
  forwarded real_ip forwarded_for =
      let xri = trim_space real_ip in
      let by_real_ip = if is_empty xri then none else address xri in
      elim by_real_ip [
        | some ip ↦ some ip
        | none ↦
            if is_empty forwarded_for
            then none
            else address (trim_space (first_part (split b',' forwarded_for)))
      ]

  -- The host of an address, or the address itself.
  abbrev pub host_of : Text → Text
  host_of addr = elim (net.split_host_port addr) [ none ↦ addr | some h ↦ h ]

  -- `clientIP`, on the remote address and the two headers.
  unfoldable pub client_ip : List Network → Text → Text → Text → Text
  unfolding ip_in_nets forwarded
  client_ip trusted remote_addr real_ip forwarded_for =
      let host = host_of remote_addr in
      elim (net.parse_ip host) [
        | none ↦ host
        | some remote ↦
            if not (ip_in_nets remote trusted)
            then host
            else (elim (forwarded real_ip forwarded_for) [ none ↦ host | some ip ↦ ip ])
      ]

  -- The connection comes from a proxy that the settings trust.
  abbrev pub is_trusted : List Network → Text → Bool
  is_trusted trusted host = elim (net.parse_ip host) [
    | none ↦ false
    | some ip ↦ ip_in_nets ip trusted
  ]

  address-parse_ip : (s t : Text) → address s ≡ some t → (s ≡ t) × (net.parse_ip t ≢ none)
  unfolding address
  address-parse_ip s t h = elim (Option-cases (net.parse_ip s)) [
    | inl e ↦ absurd (ground arith)
    | inr (ip, e) ↦ let same : s ≡ t = ground arith in (same, λ n. ground arith)
  ]

  forwarded-parse_ip :
      (real_ip forwarded_for t : Text)
      → forwarded real_ip forwarded_for ≡ some t
      → net.parse_ip t ≢ none
  unfolding forwarded
  forwarded-parse_ip real_ip forwarded_for t h =
      let xri = trim_space real_ip in
      let cand = trim_space (first_part (split b',' forwarded_for)) in
      elim (Option-cases (if is_empty xri then none else address xri)) [
        | inr (ip, e) ↦
            let same : ip ≡ t = ground arith in (address-parse_ip xri t (ground arith)).1
        | inl e ↦ (address-parse_ip cand t (ground arith)).1
      ]

  -- The address that `clientIP` gives is that of the connection, or the connection comes from a
  -- trusted proxy and it is a text that stands for an address.
  pub client_ip_lem :
      (trusted : List Network) (remote_addr real_ip forwarded_for : Text)
      → let host = host_of remote_addr in
        let ip = client_ip trusted remote_addr real_ip forwarded_for in
        (ip ≡ host) ⊎ ((is_trusted trusted host ≡ true) × (net.parse_ip ip ≢ none))
  unfolding client_ip
  client_ip_lem trusted remote_addr real_ip forwarded_for =
      let host = host_of remote_addr in
      elim (Option-cases (net.parse_ip host)) [
        | inl e ↦ inl (rw (e, client_ip) refl)
        | inr (remote, e) ↦ elim (Bool-cases (ip_in_nets remote trusted)) [
          | inr far ↦ inl (rw (e, far, client_ip) refl)
          | inl near ↦ elim (Option-cases (forwarded real_ip forwarded_for)) [
            | inl none_sent ↦ inl (rw (e, near, none_sent, client_ip) refl)
            | inr (t, sent) ↦ inr (
              rw (is_trusted, e, near) refl,
              rw (e, near, sent, client_ip) (forwarded-parse_ip real_ip forwarded_for t sent),
            )
          ]
        ]
      ]

module _ ⦃u : Unicode⦄ where
  unfoldable pub origin_allowed : List Text → Text → Bool
  origin_allowed [] origin = false
  origin_allowed (o ∷ origins) origin =
      text_eq o (codes "*") || equal_fold o origin || origin_allowed origins origin

  -- `middlewareCORS`: the origin that is answered for credentials, if one is.
  unfoldable pub cors_origin : List Text → Text → Option Text
  unfolding origin_allowed
  cors_origin origins origin =
      if not (is_empty origin) && origin_allowed origins origin then some origin else none

  -- `isNonLocalListen`, with `strings.Trim(host, "[]")`.
  unfoldable pub is_non_local_listen : {Ip Network : Type 0} → Net Ip Network → Text → Bool
  unfolding trim_left trim_right
  is_non_local_listen net addr = elim (net.split_host_port addr) [
    | none ↦ true
    | some h ↦
        let host = trim_space h in
        if is_empty host
          || text_eq host (codes "0.0.0.0")
          || text_eq host (codes "::")
          || text_eq host (codes "[::]")
        then true
        else (elim (net.parse_ip (unbracketed host)) [
          | some ip ↦ not (net.is_loopback ip)
          | none ↦ not (text_eq (to_lower host) (codes "localhost"))
        ])
  ]
    where
      bracket : ℕ → Bool
      bracket c = c == b'[' || c == b']'

      unbracketed : Text → Text
      unbracketed host = trim_right bracket (trim_left bracket host)
