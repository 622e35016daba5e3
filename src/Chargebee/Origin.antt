-- ===== src/Chargebee/Origin.antt =====
-- Where the API key goes: `resolveCredentials` of sinks/chargebee/typescript/src/credentials.ts.
use Prim.Native.String
use audr.Base.{
  ◌≡◌, refl, true, false, not, ◌||◌, Option, none, some, String, str_eq, if-case, arith,
}
use audr.Base.Result.{Result, ok, error, or_else, is_blank, and_then, Returned}
use audr.Chargebee.Credentials.{
  Url, CredentialOptions, Credentials, written, is_host, is_site, url_fault, origin_of, is_given,
  parse_written, parse_ingest_url, basic_authorization, site_origin, origin_for, with_origin,
  resolve_with, resolve_credentials,
}

module _ (to_lower base64 : String → String) (parse_url : String → Option Url) where
  -- What the tests of a text leave.
  pub record IsInspected (text : String) (url : Url) : Type 0 where
    pub scheme : str_eq url.protocol "https:" ≡ true
    pub no_username : str_eq url.username "" ≡ true
    pub no_password : str_eq url.password "" ≡ true
    pub is_host : is_host (written text).0 ≡ true
    pub same_host : str_eq (written text).0 url.hostname ≡ true

  url_fault-IsInspected :
      (text : String) (url : Url) → url_fault to_lower text url ≡ none → IsInspected text url
  unfolding url_fault
  url_fault-IsInspected text url h = record {
    scheme = ground (arith, h);
    no_username = ground (arith, h);
    no_password = ground (arith, h);
    is_host = ground (arith, h);
    same_host = ground (arith, h);
  }

  abbrev IsOrigin : String → Type 0
  IsOrigin origin =
      (text : String) × (url : Url) × (parse_url text ≡ some url)
      × IsInspected text url
      × (origin ≡ String.◌++◌ "https://" (written text).0)

  origin_of-IsOrigin :
      (text : String) (url : Url) (fault : Option String)
      → parse_url text ≡ some url
      → url_fault to_lower text url ≡ fault
      → Returned IsOrigin (origin_of fault text)
  origin_of-IsOrigin text url none e h = (text, url, e, url_fault-IsInspected text url h, refl)
  origin_of-IsOrigin text url (some message) e h = tt

  parse_written-IsOrigin :
      (text : String) (o : Option Url)
      → parse_url text ≡ o
      → Returned IsOrigin (parse_written to_lower base64 parse_url text o)
  parse_written-IsOrigin text none e = tt
  parse_written-IsOrigin text (some url) e =
      origin_of-IsOrigin text url (url_fault to_lower text url) e refl

  parse_ingest_url-IsOrigin :
      (text : String) → Returned IsOrigin (parse_ingest_url to_lower base64 parse_url text)
  unfolding parse_ingest_url
  parse_ingest_url-IsOrigin text = parse_written-IsOrigin text (parse_url text) refl

  site_origin-IsOrigin :
      (site domain : String) → Returned IsOrigin (site_origin to_lower base64 parse_url site domain)
  unfolding site_origin
  site_origin-IsOrigin site domain =
      if-case (Returned IsOrigin) (not (is_site site)) _ _ (λ e. tt)
        (λ e.
          if-case (Returned IsOrigin) (not (is_host domain)) _ _ (λ g. tt)
            (λ g. parse_ingest_url-IsOrigin _))

  origin_for-IsOrigin :
      (options env : CredentialOptions) (url site : Option String)
      → Returned IsOrigin (origin_for to_lower base64 parse_url options env url site)
  origin_for-IsOrigin options env (some url) site =
      if-case (Returned IsOrigin) (is_given options.site || is_given options.ingest_domain)
        (error "ingestUrl is mutually exclusive with site/ingestDomain")
        (parse_ingest_url to_lower base64 parse_url url) (λ e. tt)
        (λ e. parse_ingest_url-IsOrigin url)
  origin_for-IsOrigin options env none none = tt
  origin_for-IsOrigin options env none (some site) = site_origin-IsOrigin site _

  abbrev IsBasic : String → String → Type 0
  IsBasic api_key authorization =
      (is_blank api_key ≡ false)
      × (authorization ≡ String.◌++◌ "Basic " (base64 (String.◌++◌ api_key ":")))

  -- The credentials of a key.
  abbrev pub AreSafe : Option String → Result Credentials → Type 0
  AreSafe none r = Returned (λ c. ⊥) r
  AreSafe (some api_key) r =
      Returned (λ (c : Credentials). IsOrigin c.origin × IsBasic api_key c.authorization) r

  with_origin-safe :
      (api_key authorization : String) (origin : Result String)
      → IsBasic api_key authorization
      → Returned IsOrigin origin
      → AreSafe (some api_key) (with_origin to_lower base64 parse_url authorization origin)
  with_origin-safe api_key authorization (ok origin) h g = (g, h)
  with_origin-safe api_key authorization (error message) h g = tt

  authorized :
      (api_key : String) (r : Result String) (origin : Result String)
      → Returned (IsBasic api_key) r
      → Returned IsOrigin origin
      → AreSafe
          (some api_key)
          (and_then r (λ authorization. with_origin to_lower base64 parse_url authorization origin))
  authorized api_key (ok authorization) origin h g =
      with_origin-safe api_key authorization origin h g
  authorized api_key (error message) origin h g = tt

  basic_authorization-IsBasic :
      (api_key : String)
      → Returned (IsBasic api_key) (basic_authorization to_lower base64 parse_url api_key)
  unfolding basic_authorization
  basic_authorization-IsBasic api_key =
      if-case (Returned (IsBasic api_key)) (is_blank api_key)
        (error "apiKey must not be empty; set CHARGEBEE_API_KEY")
        (ok (String.◌++◌ "Basic " (base64 (String.◌++◌ api_key ":")))) (λ e. tt) (λ e. (e, refl))

  resolved :
      (options env : CredentialOptions) (o : Option String)
      → AreSafe o (resolve_with to_lower base64 parse_url options env o)
  resolved options env none = tt
  resolved options env (some api_key) =
      authorized api_key (basic_authorization to_lower base64 parse_url api_key)
        (origin_for to_lower base64 parse_url options env
          (or_else options.ingest_url env.ingest_url) (or_else options.site env.site))
        (basic_authorization-IsBasic api_key)
        (origin_for-IsOrigin options env (or_else options.ingest_url env.ingest_url)
          (or_else options.site env.site))

  -- What `resolveCredentials` returns, when it does: an origin that is `https://` with the host that stands in a text, where that host has
  -- labels with points between them and no port, and is the host of the URL that the text is parsed to, which has the
  -- scheme `https` and no userinfo; and the key, which is not blank, as the user of a basic authorization.
  pub resolve_credentials-AreSafe :
      (options env : CredentialOptions)
      → AreSafe
          (or_else options.api_key env.api_key)
          (resolve_credentials to_lower base64 parse_url options env)
  unfolding resolve_credentials
  resolve_credentials-AreSafe options env =
      resolved options env (or_else options.api_key env.api_key)
