-- ===== src/Lago/Credentials.antt =====
-- sinks/lago/typescript/src/credentials.ts. What `URL` makes of a text and `toLowerCase` are parameters; an option that is there has
-- its type, and the environment is two of the options.
use Prim.Native.Char.{code}
use Prim.Native.String
use audr.Base.{
  Bool, true, false, not, ◌&&◌, ◌||◌, List, [], ◌∷◌, Option, none, some, String, str_eq, names, leb,
  ◌==◌, if◌then◌else◌,
}
use audr.Base.Result.{Result, ok, error, or_else, every}

abbrev pub default_api_url : String
default_api_url = "https://api.getlago.com"

abbrev pub batch_path : String
batch_path = "/api/v1/events/batch"

abbrev pub accepted_paths : List String
accepted_paths = "" ∷ "/api/v1" ∷ batch_path ∷ []

-- `a ?? b`
abbrev pub given : String → Option String → String
given b none = b
given b (some a) = a

-- The fields of a `URL` that are read.
pub record Url : Type 0 where
  pub protocol : String
  pub username : String
  pub password : String
  pub host : String
  pub origin : String

-- `apiKey` and `apiUrl`, each of them from the options or from the environment.
pub record CredentialOptions : Type 0 where
  pub api_key : Option String
  pub api_url : Option String
  pub allow_insecure_http : Bool

pub record Credentials : Type 0 where
  pub endpoint : String
  pub authorization : String

abbrev fault_if : Bool → String → Option String
fault_if true message = some message
fault_if false message = none

-- `[a-z]+:`, with the flag `i`, and what follows it.
unfoldable after_scheme : Bool → String → Option String
after_scheme begun String.[] = none
after_scheme begun (String.◌∷◌ c s) =
    let later = after_scheme true s in
    if (leb b'a' (code c) && leb (code c) b'z') || (leb b'A' (code c) && leb (code c) b'Z')
    then later
    else if code c == b':' && begun
    then some s
    else none

abbrev after_slashes : String → Option String
after_slashes (String.◌∷◌ c (String.◌∷◌ d s)) =
    if code c == b'/' && code d == b'/' then some s else none
after_slashes _ = none

-- `[^/]*`, and what follows it.
unfoldable split_path : String → String × String
split_path String.[] = ("", "")
split_path (String.◌∷◌ c s) =
    let (front, rest) = split_path s in
    if code c == b'/' then ("", String.◌∷◌ c s) else (String.◌∷◌ c front, rest)

-- `.`
abbrev is_inline : Prim.Native.Nat.ℕ → Bool
is_inline c = not (c == 10 || c == 13 || c == 8232 || c == 8233)

abbrev on_line : String × String → String × String
on_line (authority, path) = if every is_inline path then (authority, path) else ("", "")

abbrev scheme_rest : Option String → String × String
scheme_rest none = ("", "")
scheme_rest (some s) = elim (after_slashes s) [ none ↦ ("", "") | some t ↦ on_line (split_path t) ]

-- The authority and the path of a text, as they are written.
unfoldable pub written : String → String × String
unfolding after_scheme split_path every
written s = scheme_rest (after_scheme false s)

-- `path.replace(/\/$/, '')`
unfoldable pub without_slash : String → String
without_slash String.[] = ""
without_slash (String.◌∷◌ c String.[]) = if code c == b'/' then "" else String.◌∷◌ c ""
without_slash (String.◌∷◌ c (String.◌∷◌ d s)) = String.◌∷◌ c (without_slash (String.◌∷◌ d s))

-- `/[?#]/`
abbrev pub is_no_query : Prim.Native.Nat.ℕ → Bool
is_no_query c = not (c == b'?' || c == b'#')

abbrev pub is_printable : Prim.Native.Nat.ℕ → Bool
is_printable c = leb 33 c && leb c 126

abbrev pub endpoint_of : Option String → Url → Result String
endpoint_of none url = ok (String.◌++◌ url.origin batch_path)
endpoint_of (some message) url = error message

-- `bearerAuthorization`
unfoldable pub bearer_authorization : String → Result String
unfolding every
bearer_authorization api_key =
    if str_eq api_key ""
    then error "apiKey must not be empty; set LAGO_API_KEY"
    else if every is_printable api_key
    then ok (String.◌++◌ "Bearer " api_key)
    else error "apiKey must contain only printable ASCII without spaces"

abbrev pub credentials : Result String → Result String → Result Credentials
credentials (ok endpoint) (ok authorization) =
    ok (record { endpoint = endpoint; authorization = authorization })
credentials (ok endpoint) (error message) = error message
credentials (error message) authorization = error message

module _ (to_lower : String → String) where
  -- The first test of a parsed URL that fails.
  unfoldable pub url_fault : Bool → String → Url → Option String
  unfolding written without_slash every names
  url_fault insecure text url =
      or_else (fault_if (str_eq url.protocol "http:" && not insecure) "apiUrl must use https") (
        or_else
          (fault_if (not (str_eq url.protocol "http:") && not (str_eq url.protocol "https:"))
            "apiUrl scheme must be https")
          (or_else
            (fault_if (not (str_eq url.username "") || not (str_eq url.password ""))
              "apiUrl must not include userinfo")
            (or_else
              (fault_if (not (every is_no_query text))
                "apiUrl must not include a query string or fragment")
              (or_else
                (fault_if (not (str_eq (to_lower (written text).0) url.host))
                  "apiUrl must be a plain host name or address")
                (fault_if (not (names accepted_paths (without_slash (written text).1)))
                  "apiUrl path must be empty, /api/v1 or the batch path")))))

  module _ (parse_url : String → Option Url) where
    abbrev pub parse_written : Bool → String → Option Url → Result String
    parse_written insecure text none = error "apiUrl must be an absolute URL with a host name"
    parse_written insecure text (some url) = endpoint_of (url_fault insecure text url) url

    -- `parseApiUrl`
    unfoldable pub parse_api_url : String → Bool → Result String
    unfolding url_fault
    parse_api_url text insecure = parse_written insecure text (parse_url text)

    abbrev pub resolve_with : CredentialOptions → Option String → Result Credentials
    resolve_with options none = error "apiKey is required; provide apiKey or set LAGO_API_KEY"
    resolve_with options (some api_key) =
        credentials
          (parse_api_url (given default_api_url options.api_url) options.allow_insecure_http)
          (bearer_authorization api_key)

    -- `resolveCredentials`
    unfoldable pub resolve_credentials : CredentialOptions → Result Credentials
    unfolding parse_api_url bearer_authorization
    resolve_credentials options = resolve_with options options.api_key
