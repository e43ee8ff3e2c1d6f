-- ===== src/Access/Origin.antt =====
-- `parseOrigin`, `deriveOrigins` and `loadConfig` of apps/bridge/src/config.ts, and `checkOrigin` of
-- apps/bridge/src/http/origin.ts. The URL parser of the platform is a parameter.
use kanhrd.Base.{
  ℕ, String, Bool, true, false, not, ◌&&◌, ◌||◌, Option, none, some, List, [], ◌∷◌, ◌++◌,
  if◌then◌else◌, str_eq, includes, concat, decimal, or_else,
}

-- `URL`; the port is none for the empty text.
pub record Url : Type 0 where
  pub protocol : String
  pub username : String
  pub password : String
  pub search : String
  pub hash : String
  pub pathname : String
  pub hostname : String
  pub port : Option ℕ

-- `new URL(value)`, none if it throws; `toLowerCase`; and whether a text has a colon.
pub record Platform : Type 0 where
  pub parse_url : String → Option Url
  pub to_lower : String → String
  pub has_colon : String → Bool

pub record OriginTriple : Type 0 where
  pub scheme : String
  pub host : String
  pub port : ℕ

abbrev pub scheme_of : Url → String
scheme_of u = if str_eq u.protocol "http:" then "http" else "https"

abbrev pub default_port : String → ℕ
default_port scheme = if str_eq scheme "http" then 80 else 443

abbrev pub is_origin : Url → Bool
is_origin u =
    (str_eq u.protocol "http:" || str_eq u.protocol "https:")
    && (str_eq u.username ""
        && (str_eq u.password ""
            && (str_eq u.search ""
                && (str_eq u.hash ""
                    && ((str_eq u.pathname "" || str_eq u.pathname "/")
                        && not (str_eq u.hostname ""))))))

abbrev pub triple_of : Platform → Option Url → Option OriginTriple
triple_of js none = none
triple_of js (some u) =
    if is_origin u
    then some (record {
      scheme = scheme_of u;
      host = js.to_lower u.hostname;
      port = or_else u.port (default_port (scheme_of u));
    })
    else none

-- None stands for the exception, whatever its message.
unfoldable pub parse_origin : Platform → String → Option OriginTriple
parse_origin js value = triple_of js (js.parse_url value)

unfoldable pub origin_key : OriginTriple → String
origin_key t = concat (t.scheme ∷ "://" ∷ t.host ∷ ":" ∷ decimal t.port ∷ [])

abbrev pub loopback_addresses : List String
loopback_addresses = "127.0.0.1" ∷ "::1" ∷ "localhost" ∷ []

abbrev pub wildcard_addresses : List String
wildcard_addresses = "0.0.0.0" ∷ "::" ∷ []

abbrev pub local_origin_hosts : List String
local_origin_hosts = "127.0.0.1" ∷ "localhost" ∷ "[::1]" ∷ []

abbrev pub bind_host : Platform → String → String
bind_host js bind = if js.has_colon bind then concat ("[" ∷ bind ∷ "]" ∷ []) else bind

abbrev pub origin_hosts : Platform → String → List String
origin_hosts js bind =
    if not (includes bind loopback_addresses) && not (includes bind wildcard_addresses)
    then local_origin_hosts ++ bind_host js bind ∷ []
    else local_origin_hosts

abbrev pub origins_at : List String → ℕ → List String
origins_at [] port = []
origins_at (host ∷ hosts) port =
    concat ("http://" ∷ host ∷ ":" ∷ decimal port ∷ [])
    ∷ concat ("https://" ∷ host ∷ ":" ∷ decimal port ∷ [])
    ∷ origins_at hosts port

unfoldable pub derive_origins : Platform → String → ℕ → List String
derive_origins js bind port = origins_at (origin_hosts js bind) port

-- The settings once the file and the command line are merged, and the flags of the command line.
pub record Settings : Type 0 where
  pub bind : String
  pub port : ℕ
  pub allowed_origins : List String
  pub require_origin : Bool
  pub allow_non_loopback : Bool
  pub allow_any_origin : Bool

-- What the file and the command line give; the defaults are those of `DEFAULT_CONFIG`.
pub record Given : Type 0 where
  pub bind : Option String
  pub port : Option ℕ
  pub allowed_origins : Option (List String)
  pub require_origin : Option Bool

abbrev pub first {ℓ} : {A : Type ℓ} → Option A → Option A → A → A
first none none d = d
first none (some b) d = b
first (some a) b d = a

-- A list of the command line counts only if it is not empty.
abbrev pub nonempty : Option (List String) → Option (List String)
nonempty none = none
nonempty (some []) = none
nonempty (some (x ∷ xs)) = some (x ∷ xs)

unfoldable pub merge : Given → Given → Bool → Bool → String → ℕ → Settings
merge cli file allow_non_loopback allow_any default_bind default_port = record {
  bind = first cli.bind file.bind default_bind;
  port = first cli.port file.port default_port;
  allowed_origins = first (nonempty cli.allowed_origins) file.allowed_origins [];
  require_origin = first cli.require_origin file.require_origin false;
  allow_non_loopback = allow_non_loopback;
  allow_any_origin = allow_any;
}

pub record OriginPolicy : Type 0 where
  pub derived : List String
  pub configured : List String
  pub allowed : List String
  pub require_origin : Bool
  pub allow_any : Bool

-- `entries.map((entry) => originKey(parseOrigin(entry)))`
unfoldable pub keys_of : Platform → List String → Option (List String)
unfolding parse_origin
keys_of js [] = some []
keys_of js (entry ∷ entries) = elim (parse_origin js entry) [
  | none ↦ none
  | some t ↦ elim (keys_of js entries) [ none ↦ none | some ks ↦ some (origin_key t ∷ ks) ]
]

abbrev pub is_empty : List String → Bool
is_empty [] = true
is_empty (x ∷ xs) = false

abbrev pub policy_of :
    Settings → List String → Option (List String) → Option (List String) → Option OriginPolicy
policy_of s derived none configured = none
policy_of s derived (some ks) none = none
policy_of s derived (some ks) (some js) = some (record {
  derived = derived;
  configured = s.allowed_origins;
  allowed = ks ++ js;
  require_origin = s.require_origin;
  allow_any = s.allow_any_origin;
})

-- The part of `loadConfig` after the merge; none stands for the exception that it throws.
unfoldable pub load_origins : Platform → Settings → Option OriginPolicy
unfolding keys_of derive_origins
load_origins js s =
    if not (includes s.bind loopback_addresses) && not s.allow_non_loopback
    then none
    else if includes s.bind wildcard_addresses
        && (is_empty s.allowed_origins && not s.allow_any_origin)
    then none
    else policy_of s (derive_origins js s.bind s.port)
        (keys_of js (derive_origins js s.bind s.port)) (keys_of js s.allowed_origins)

abbrev pub allows : OriginPolicy → Option OriginTriple → Bool
allows policy none = false
allows policy (some t) = includes (origin_key t) policy.allowed

-- Whether the verdict is `allowed`.
unfoldable pub check_origin : Platform → OriginPolicy → Option String → Bool → Bool
unfolding parse_origin
check_origin js policy none strict = policy.allow_any || not strict
check_origin js policy (some header) strict =
    policy.allow_any || allows policy (parse_origin js header)
