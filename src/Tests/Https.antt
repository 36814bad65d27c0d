-- ===== src/Tests/Https.antt =====
-- API tokens, and the checks of the HTTP server.
use go_rflink.Prelude.{
  ℕ, ◌≡◌, ◌≢◌, ◌↔◌, ◌⊎◌, refl, true, false, none, some, [], ◌∷◌, ◌==◌, if◌then◌else◌, arith,
}
use go_rflink.Prelude.Text.{Text, codes, text_eq}
use go_rflink.Strings.{trim_space, trim_left, trim_right}
use go_rflink.Strings.Split.{all-Lacks}
use go_rflink.Session.{Store, entry, get}
use go_rflink.Login.{new_limiter, login_max_attempts}
use go_rflink.Tokens.{
  External, ApiToken, hash_api_token, parse_api_auth_tokens, parse_scope_list, expiry_of, token_of,
  valid_api_token, gui_token_ok,
}
use go_rflink.Tokens.Valid.{Admits, valid_api_token_iff}
use go_rflink.Tokens.Entries.{IsPlain, plain_token, token_of_cut, valid_api_token-entry}
use go_rflink.Http.{Request, Access, session, api, post_method}
use go_rflink.Http.Auth.{
  admitted, protect, presented, token_answer, check_scope, require_gui_session, gui_admitted,
  gui_locked, check_auth, check_admitted, check_csrf,
}
use go_rflink.Http.Checks.{live_at, csrf_holds}
use go_rflink.Http.Guard.{protect_session_iff, protect_api_iff, protect-require_gui_session}
use go_rflink.Http.Login.{login_token}
use go_rflink.Http.Desk.{LoginStep, arrives, compares, login_steps, refused, most}
use go_rflink.Http.Lock.{refused-le}
use go_rflink.Prelude.{◌+◌, ◌<◌, List}
use go_rflink.Http.Proxy.{Net, client_ip, client_ip_lem, is_trusted}
use go_rflink.Http.Hub.{Subs, waiting, broadcasts, broadcasts-take}
use go_rflink.Tests.Settings.{ascii_only}

abbrev pub external : External
external = record {
  digest = λ s. s;
  parse_duration = λ s. none;
  parse_rfc3339 = λ s. none;
  parse_date = λ s. none;
}

abbrev laptop : Text
laptop = codes "laptop"

abbrev secret : Text
secret = codes "s3cret"

abbrev laptop_token : ApiToken
laptop_token = plain_token ⦃u = ascii_only⦄ external [] 5 laptop secret

valid_api_token_iff_example :
    (valid_api_token external [] 9 (laptop_token ∷ []) secret ≡ (some laptop_token, true))
    ↔ Admits 9 (hash_api_token external [] (trim_space secret)) (laptop_token ∷ []) laptop_token
valid_api_token_iff_example =
    valid_api_token_iff external [] 9 (laptop_token ∷ []) secret laptop_token
      (unfold trim_space trim_left trim_right in refl)

laptop-IsPlain : IsPlain laptop
laptop-IsPlain = record {
  filled = refl;
  trimmed = record { starts = refl; ends = refl };
  no_colon = all-Lacks b':' laptop refl;
}

secret-IsPlain : IsPlain secret
secret-IsPlain = record {
  filled = refl;
  trimmed = record { starts = refl; ends = refl };
  no_colon = all-Lacks b':' secret refl;
}

valid_api_token-entry_example :
    valid_api_token external [] 9
      (parse_api_auth_tokens ⦃u = ascii_only⦄ external [] 5 (codes "laptop:s3cret"))
      secret
    ≡ (some laptop_token, true)
valid_api_token-entry_example =
    valid_api_token-entry ⦃u = ascii_only⦄ external [] 5 9 laptop secret laptop-IsPlain
      secret-IsPlain (record { starts = refl; ends = refl })
      (all-Lacks b',' (codes "laptop:s3cret") refl)

token_of_cut_example :
    token_of ⦃u = ascii_only⦄ external [] 5 (codes "laptop:s3cret:2030-01-01T15:04:05Z")
    ≡ some (record laptop_token {
      expires_at = expiry_of ⦃u = ascii_only⦄ external 5 (codes "2030-01-01T15");
      scopes = parse_scope_list ⦃u = ascii_only⦄ (codes "04:05Z");
    })
token_of_cut_example =
    token_of_cut ⦃u = ascii_only⦄ external [] 5 laptop secret (codes "2030-01-01T15")
      (codes "04:05Z") laptop-IsPlain secret-IsPlain (all-Lacks b':' (codes "2030-01-01T15") refl)

abbrev access : Access
access = record {
  auth_token = codes "gui token";
  read_only = false;
  api_token_pepper = [];
  api_tokens = laptop_token ∷ [];
}

abbrev home : Text
home = codes "10.0.0.7"

abbrev store : Store
store = (codes "aa", entry (codes "aa") home 3) ∷ []

abbrev browser : Request
browser = record {
  method = post_method;
  path = codes "/api/v1/command";
  session_id = codes "aa";
  csrf_cookie = codes "c";
  csrf_header = codes "c";
  xsrf_header = [];
  x_api_token = [];
  authorization = [];
  query_token = [];
}

abbrev machine : Request
machine = record browser {
  session_id = [];
  csrf_cookie = [];
  csrf_header = [];
  x_api_token = secret;
}

protect_session_iff_example :
    ((protect ⦃u = ascii_only⦄ external access 9 10 browser store).0 ≡ admitted session)
    ↔ ((live_at 9 browser store ≡ true) × (csrf_holds 10 browser store ≡ true))
protect_session_iff_example =
    protect_session_iff ⦃u = ascii_only⦄ external access 9 10 browser store

protect_api_iff_example :
    ((protect ⦃u = ascii_only⦄ external access 9 10 machine store).0 ≡ admitted (api laptop_token))
    ↔ ((live_at 9 machine store ≡ false)
        × (token_answer ⦃u = ascii_only⦄ external access 9 (presented ⦃u = ascii_only⦄ machine)
            ≡ (some laptop_token, true))
        × (check_scope ⦃u = ascii_only⦄ machine (api laptop_token) ≡ none))
protect_api_iff_example =
    protect_api_iff ⦃u = ascii_only⦄ external access 9 10 machine store laptop_token (omega arith)

browser-admitted :
    (protect ⦃u = ascii_only⦄ external access 9 10 browser store).0 ≡ admitted session
unfolding protect check_auth check_admitted check_csrf check_scope get
browser-admitted = refl

browser-gui :
    (require_gui_session access 11 browser
      (protect ⦃u = ascii_only⦄ external access 9 10 browser store).1).0
    ≡ gui_admitted
unfolding protect check_auth check_admitted check_csrf check_scope get require_gui_session
    trim_space trim_left trim_right
browser-gui = refl

protect-require_gui_session_example : (session ≡ session) × (gui_locked access ≡ false)
protect-require_gui_session_example =
    protect-require_gui_session ⦃u = ascii_only⦄ external access 9 10 11 browser store session
      (omega arith) browser-admitted browser-gui

abbrev no_json : Text → Text
no_json body = []

guess-wrong : gui_token_ok access.auth_token (login_token no_json (codes "guess")) ≡ false
unfolding gui_token_ok trim_space trim_left trim_right
guess-wrong = refl

-- Two logins under way at once.
abbrev attempts : List LoginStep
attempts =
    arrives 3 machine home
    ∷ arrives 4 machine home
    ∷ compares 5 5 home (codes "guess")
    ∷ compares 6 6 home (codes "guess")
    ∷ []

refused-le_example :
    let d =
      login_steps no_json access
        (arrives 1 machine home ∷ [])
        (record { limiter = new_limiter; waiting = [] }) in
    refused no_json access home attempts d
    < login_max_attempts + most no_json access home attempts d
refused-le_example = refused-le no_json access home 3 (arrives 1 machine home ∷ []) attempts (
  (omega arith, omega arith),
  (
    (omega arith, omega arith),
    (
      (omega arith, omega arith, λ same. guess-wrong),
      ((omega arith, omega arith, λ same. guess-wrong), tt),
    ),
  ),
)

abbrev net : Net ℕ ℕ
net = record {
  split_host_port = λ s. some (codes "10.0.0.1");
  parse_ip = λ s. if text_eq s (codes "10.0.0.1") then some 1 else some 2;
  is_ipv4 = λ ip. true;
  is_loopback = λ ip. false;
  parse_cidr = λ s. none;
  has = λ n ip. n == ip;
}

client_ip_lem_example :
    let ip = client_ip net (1 ∷ []) (codes "10.0.0.1:5") (codes "192.168.1.9") [] in
    (ip ≡ codes "10.0.0.1")
    ⊎ ((is_trusted net (1 ∷ []) (codes "10.0.0.1") ≡ true) × (net.parse_ip ip ≢ none))
client_ip_lem_example = client_ip_lem net (1 ∷ []) (codes "10.0.0.1:5") (codes "192.168.1.9") []

abbrev two_clients : Subs ℕ
two_clients = (1, 7 ∷ []) ∷ (2, []) ∷ []

broadcasts-take_example : waiting 1 (broadcasts (8 ∷ 9 ∷ []) two_clients) ≡ some (7 ∷ 8 ∷ 9 ∷ [])
broadcasts-take_example =
    broadcasts-take 1 (8 ∷ 9 ∷ []) (7 ∷ []) two_clients (unfold waiting in refl) (omega arith)
