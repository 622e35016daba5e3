-- ===== src/Chargebee/Credentials.antt =====
-- sinks/chargebee/typescript/src/credentials.ts. What `URL` makes of a text, `toLowerCase` and base64 are parameters; an option that is
-- there has its type.
use Prim.Native.Char.{code}
use Prim.Native.String
use audr.Base.{
  ℕ, ◌+◌, Bool, true, false, not, ◌&&◌, ◌||◌, List, [], ◌∷◌, Option, none, some, String, str_eq,
  names, leb, ◌==◌, if◌then◌else◌,
}
use audr.Base.Text.{is_digit}
use audr.Base.Result.{Result, ok, error, or_else, every, is_blank, and_then}

abbrev pub default_ingest_domain : String
default_ingest_domain = "ingest.chargebee.com"

abbrev pub batch_path : String
batch_path = "/api/v2/batch/usage_events"

abbrev pub accepted_paths : List String
accepted_paths = "" ∷ "/" ∷ batch_path ∷ []

-- The fields of a `URL` that are read.
pub record Url : Type 0 where
  pub protocol : String
  pub username : String
  pub password : String
  pub search : String
  pub hash : String
  pub hostname : String

-- The options, and what the environment has.
pub record CredentialOptions : Type 0 where
  pub site : Option String
  pub api_key : Option String
  pub ingest_domain : Option String
  pub ingest_url : Option String

pub record Credentials : Type 0 where
  pub origin : String
  pub authorization : String

abbrev is_alphanumeric : ℕ → Bool
is_alphanumeric c = is_digit c || (leb b'a' c && leb c b'z')

abbrev is_label_end : ℕ → Bool → Bool
is_label_end n hyphen = leb 1 n && leb n 63 && not hyphen

-- Labels with points between them, from within one that has so many characters and ends, so far, in a hyphen or not.
unfoldable pub are_labels : ℕ → Bool → String → Bool
are_labels n hyphen String.[] = is_label_end n hyphen
are_labels n hyphen (String.◌∷◌ c s) =
    let next = are_labels 0 false s in
    let on = are_labels (n + 1) (code c == b'-') s in
    if code c == b'.'
    then is_label_end n hyphen && next
    else (is_alphanumeric (code c) || (leb 1 n && code c == b'-')) && on

abbrev is_no_point : ℕ → Bool
is_no_point c = not (c == b'.')

-- `SITE`
unfoldable pub is_site : String → Bool
unfolding are_labels every
is_site s = every is_no_point s && are_labels 0 false s

-- `HOST`
unfoldable pub is_host : String → Bool
unfolding are_labels every
is_host s = not (every is_no_point s) && are_labels 0 false s

-- `[^/?#]*` where the flag is set, `[^?#]*` where it is not; and what follows it.
unfoldable split_until : Bool → String → String × String
split_until slash String.[] = ("", "")
split_until slash (String.◌∷◌ c s) =
    let (front, rest) = split_until slash s in
    if code c == b'?' || code c == b'#' || (slash && code c == b'/')
    then ("", String.◌∷◌ c s)
    else (String.◌∷◌ c front, rest)

-- What follows a text.
unfoldable after_prefix : String → String → Option String
after_prefix String.[] s = some s
after_prefix (String.◌∷◌ d p) String.[] = none
after_prefix (String.◌∷◌ d p) (String.◌∷◌ c s) =
    let rest = after_prefix p s in if code c == code d then rest else none

abbrev host_and_path : Option String → String × String
host_and_path none = ("", "")
host_and_path (some s) = let (host, rest) = split_until true s in (host, (split_until false rest).0)

-- Host and path of a text, as they are written.
unfoldable pub written : String → String × String
unfolding after_prefix split_until
written s = host_and_path (after_prefix "https://" s)

-- `/:\d*$/`
unfoldable has_port : String → Bool
unfolding every
has_port String.[] = false
has_port (String.◌∷◌ c s) = (code c == b':' && every is_digit s) || has_port s

unfoldable ends_in_point : String → Bool
ends_in_point String.[] = false
ends_in_point (String.◌∷◌ c String.[]) = code c == b'.'
ends_in_point (String.◌∷◌ c (String.◌∷◌ d s)) = ends_in_point (String.◌∷◌ d s)

abbrev pub fault_if : Bool → String → Option String
fault_if true message = some message
fault_if false message = none

-- The first test of a parsed URL that fails.
unfoldable pub url_fault : (String → String) → String → Url → Option String
unfolding written has_port ends_in_point is_host names
url_fault to_lower text url =
    let host = (written text).0 in
    or_else (fault_if (not (str_eq url.protocol "https:")) "ingestUrl scheme must be https") (
      or_else
        (fault_if (not (str_eq url.username "") || not (str_eq url.password ""))
          "ingestUrl must not include userinfo")
        (or_else (fault_if (not (str_eq url.search "")) "ingestUrl must not include a query string")
          (or_else (fault_if (not (str_eq url.hash "")) "ingestUrl must not include a fragment") (
            or_else (fault_if (str_eq host "") "ingestUrl must include a host name") (
              or_else (fault_if (has_port host) "ingestUrl must not include a port") (
                or_else
                  (fault_if (ends_in_point host) "ingestUrl host must not have a trailing dot")
                  (or_else
                    (fault_if (not (str_eq host (to_lower host)))
                      "ingestUrl host must be lowercase")
                    (or_else
                      (fault_if (not (is_host host) || not (str_eq host url.hostname))
                        "ingestUrl host must be a dotted lowercase host name")
                      (fault_if (not (names accepted_paths (written text).1))
                        "ingestUrl path must be empty, / or the batch path")))))))))

abbrev pub origin_of : Option String → String → Result String
origin_of none text = ok (String.◌++◌ "https://" (written text).0)
origin_of (some message) text = error message

-- `a ?? b`
abbrev pub given : String → Option String → String
given b none = b
given b (some a) = a

abbrev pub is_given : Option String → Bool
is_given none = false
is_given (some s) = true

module _ (to_lower base64 : String → String) (parse_url : String → Option Url) where
  abbrev pub parse_written : String → Option Url → Result String
  parse_written text none = error "ingestUrl must include a host name"
  parse_written text (some url) = origin_of (url_fault to_lower text url) text

  -- `parseIngestUrl`
  unfoldable pub parse_ingest_url : String → Result String
  unfolding url_fault written
  parse_ingest_url text = parse_written text (parse_url text)

  -- `basicAuthorization`
  unfoldable pub basic_authorization : String → Result String
  unfolding is_blank
  basic_authorization api_key =
      if is_blank api_key
      then error "apiKey must not be empty; set CHARGEBEE_API_KEY"
      else ok (String.◌++◌ "Basic " (base64 (String.◌++◌ api_key ":")))

  -- The origin of a site under a domain.
  unfoldable pub site_origin : String → String → Result String
  unfolding parse_ingest_url is_site is_host
  site_origin site domain =
      if not (is_site site)
      then error "site must be a lowercase DNS label"
      else if not (is_host domain)
      then error "ingestDomain must be a dotted lowercase host name with at least two labels"
      else parse_ingest_url (
          String.◌++◌ "https://"
            (String.◌++◌ site (String.◌++◌ "." (String.◌++◌ domain batch_path))))

  abbrev pub origin_for :
      CredentialOptions → CredentialOptions → Option String → Option String → Result String
  origin_for options env (some url) site =
      if is_given options.site || is_given options.ingest_domain
      then error "ingestUrl is mutually exclusive with site/ingestDomain"
      else parse_ingest_url url
  origin_for options env none none = error "site is required"
  origin_for options env none (some site) =
      site_origin site (given (given default_ingest_domain env.ingest_domain) options.ingest_domain)

  abbrev pub with_origin : String → Result String → Result Credentials
  with_origin authorization (ok origin) =
      ok (record { origin = origin; authorization = authorization })
  with_origin authorization (error message) = error message

  abbrev pub resolve_with :
      CredentialOptions → CredentialOptions → Option String → Result Credentials
  resolve_with options env none =
      error "apiKey is required; provide apiKey or set CHARGEBEE_API_KEY"
  resolve_with options env (some api_key) = and_then (basic_authorization api_key) (λ authorization.
      with_origin authorization (
        origin_for options env (or_else options.ingest_url env.ingest_url)
          (or_else options.site env.site)))

  -- `resolveCredentials`
  unfoldable pub resolve_credentials : CredentialOptions → CredentialOptions → Result Credentials
  unfolding basic_authorization site_origin parse_ingest_url
  resolve_credentials options env = resolve_with options env (or_else options.api_key env.api_key)
