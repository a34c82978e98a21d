-- ===== src/Gateway/Auth.antt =====
-- cmd/clawgress-gateway/main.go: a request, its host, and the credentials that it carries.
use crispy_garbanzo.Base.{
  String, true, Option, none, some, List, [], ◌∷◌, ◌==◌, ◌≡◌, ◌⊎◌, refl, arith, if◌then◌else◌,
  has_prefix, drop_chars, split_n,
}

pub record Url : Type 0 where
  pub host : String
  pub path : String

pub record Request : Type 0 where
  -- the value of `Proxy-Authorization`, "" if there is none
  pub proxy_authorization : String
  pub method : String
  pub host : String
  pub url : Option Url

pub record Credentials : Type 0 where
  pub agent_id : String
  pub api_key : String
  pub bearer_token : String

abbrev pub no_credentials : Credentials
no_credentials = record { agent_id = ""; api_key = ""; bearer_token = "" }

id_and_key : List String → Credentials
id_and_key (agent_id ∷ api_key ∷ []) = record {
  agent_id = agent_id;
  api_key = api_key;
  bearer_token = "";
}
id_and_key _ = no_credentials

basic : Option String → Credentials
unfolding id_and_key
basic none = no_credentials
basic (some decoded) = id_and_key (split_n 1 b':' decoded)

-- `decode` is base64's standard decoding, from Go's library
unfoldable pub extract_proxy_auth : (String → Option String) → Request → Credentials
unfolding basic
extract_proxy_auth decode r =
    let auth = r.proxy_authorization in
    if auth == ""
    then no_credentials
    else if has_prefix auth "Bearer "
    then record { agent_id = ""; api_key = ""; bearer_token = drop_chars 7 auth }
    else if has_prefix auth "Basic "
    then basic (decode (drop_chars 6 auth))
    else no_credentials

unfoldable pub request_host : Request → String
request_host r = if r.host == "" then elim r.url [ none ↦ "" | some url ↦ url.host ] else r.host

unfoldable pub request_path : Request → String
request_path r = elim r.url [ none ↦ "" | some url ↦ url.path ]

basic_bearer : (o : Option String) → (basic o).bearer_token ≡ ""
unfolding basic
basic_bearer none = refl
basic_bearer (some decoded) = id_and_key_bearer (split_n 1 b':' decoded)
  where
    id_and_key_bearer : (parts : List String) → (id_and_key parts).bearer_token ≡ ""
    id_and_key_bearer [] = refl
    id_and_key_bearer (a ∷ []) = refl
    id_and_key_bearer (a ∷ b ∷ []) = refl
    id_and_key_bearer (a ∷ b ∷ c ∷ rest) = refl

-- At most one of the API key and the bearer token that a request carries is not empty; and the header
-- begins with "Bearer " or with "Basic ", or the request carries neither.
pub extract_proxy_auth_lem :
    (decode : String → Option String) (r : Request)
    → (((extract_proxy_auth decode r).api_key ≡ "")
        ⊎ ((extract_proxy_auth decode r).bearer_token ≡ ""))
      × ((has_prefix r.proxy_authorization "Bearer " ≡ true)
          ⊎ (has_prefix r.proxy_authorization "Basic " ≡ true)
          ⊎ (extract_proxy_auth decode r ≡ no_credentials))
extract_proxy_auth_lem decode r = (
  unfold extract_proxy_auth in
      ground (arith, basic_bearer (decode (drop_chars 6 r.proxy_authorization))),
  unfold extract_proxy_auth in ground arith,
)
