-- ===== src/Lago/Endpoint.antt =====
-- Where the API key goes: `resolveCredentials` of sinks/lago/typescript/src/credentials.ts.
use Prim.Native.String
use audr.Base.{
  ◌≡◌, refl, ap, ap₂, str_eq_iff, ◌∙◌, Bool, true, false, not, Bool-cases, inl, inr, ◌&&◌, ◌||◌,
  Option, none, some, String, str_eq, names, if-case, arith,
}
use audr.Base.Result.{Result, ok, error, every, Returned}
use audr.Lago.Credentials.{
  Url, CredentialOptions, Credentials, given, default_api_url, batch_path, accepted_paths, written,
  without_slash, is_printable, is_no_query, url_fault, endpoint_of, parse_written, parse_api_url,
  bearer_authorization, credentials, resolve_with, resolve_credentials,
}

module _ (to_lower : String → String) (parse_url : String → Option Url) where
  -- What the tests of a configured URL leave.
  pub record IsInspected (insecure : Bool) (text : String) (url : Url) : Type 0 where
    pub scheme : (str_eq url.protocol "https:" || (insecure && str_eq url.protocol "http:")) ≡ true
    pub no_username : str_eq url.username "" ≡ true
    pub no_password : str_eq url.password "" ≡ true
    pub no_query : every is_no_query text ≡ true
    pub host : str_eq (to_lower (written text).0) url.host ≡ true
    pub path : names accepted_paths (without_slash (written text).1) ≡ true

  url_fault-IsInspected :
      (insecure : Bool) (text : String) (url : Url)
      → url_fault to_lower insecure text url ≡ none
      → IsInspected insecure text url
  unfolding url_fault
  url_fault-IsInspected insecure text url h = record {
    scheme = ground (arith, h);
    no_username = ground (arith, h);
    no_password = ground (arith, h);
    no_query = ground (arith, h);
    host = ground (arith, h);
    path = ground (arith, h);
  }

  abbrev IsEndpoint : Bool → String → String → Type 0
  IsEndpoint insecure text endpoint =
      (url : Url) × (parse_url text ≡ some url)
      × IsInspected insecure text url
      × (endpoint ≡ String.◌++◌ url.origin batch_path)

  endpoint_of-IsEndpoint :
      (insecure : Bool) (text : String) (url : Url) (fault : Option String)
      → parse_url text ≡ some url
      → url_fault to_lower insecure text url ≡ fault
      → Returned (IsEndpoint insecure text) (endpoint_of fault url)
  endpoint_of-IsEndpoint insecure text url none e h =
      (url, e, url_fault-IsInspected insecure text url h, refl)
  endpoint_of-IsEndpoint insecure text url (some message) e h = tt

  parse_written-IsEndpoint :
      (insecure : Bool) (text : String) (o : Option Url)
      → parse_url text ≡ o
      → Returned (IsEndpoint insecure text) (parse_written to_lower parse_url insecure text o)
  parse_written-IsEndpoint insecure text none e = tt
  parse_written-IsEndpoint insecure text (some url) e =
      endpoint_of-IsEndpoint insecure text url (url_fault to_lower insecure text url) e refl

  abbrev IsBearer : String → String → Type 0
  IsBearer api_key authorization =
      (authorization ≡ String.◌++◌ "Bearer " api_key) × (every is_printable api_key ≡ true)

  bearer_authorization-IsBearer :
      (api_key : String) → Returned (IsBearer api_key) (bearer_authorization api_key)
  unfolding bearer_authorization
  bearer_authorization-IsBearer api_key =
      if-case (Returned (IsBearer api_key)) (str_eq api_key "") _ _ (λ e. tt)
        (λ e.
          if-case (Returned (IsBearer api_key)) (every is_printable api_key) _ _ (λ g. (refl, g))
            (λ g. tt))

  -- The credentials of a key and of a configured URL.
  abbrev pub AreSafe : CredentialOptions → Option String → Result Credentials → Type 0
  AreSafe options none r = Returned (λ c. ⊥) r
  AreSafe options (some api_key) r =
      Returned
        (λ (c : Credentials).
          IsEndpoint options.allow_insecure_http (given default_api_url options.api_url) c.endpoint
          × IsBearer api_key c.authorization)
        r

  credentials-safe :
      (options : CredentialOptions) (api_key : String) (e a : Result String)
      → Returned (IsEndpoint options.allow_insecure_http (given default_api_url options.api_url)) e
      → Returned (IsBearer api_key) a
      → AreSafe options (some api_key) (credentials e a)
  credentials-safe options api_key (ok endpoint) (ok authorization) h g = (h, g)
  credentials-safe options api_key (ok endpoint) (error message) h g = tt
  credentials-safe options api_key (error message) a h g = tt

  resolved :
      (options : CredentialOptions) (o : Option String)
      → AreSafe options o (resolve_with to_lower parse_url options o)
  unfolding parse_api_url
  resolved options none = tt
  resolved options (some api_key) =
      let text = given default_api_url options.api_url in
      credentials-safe options api_key
        (parse_api_url to_lower parse_url text options.allow_insecure_http)
        (bearer_authorization api_key)
        (parse_written-IsEndpoint options.allow_insecure_http text (parse_url text) refl)
        (bearer_authorization-IsBearer api_key)

  abbrev pub is_ok {ℓ} : {A : Type ℓ} → Result A → Bool
  is_ok (ok a) = true
  is_ok (error message) = false

  -- All that is asked of a configured URL.
  unfoldable pub is_plain_url : Bool → String → Url → Bool
  is_plain_url insecure text url =
      (str_eq url.protocol "https:" || (insecure && str_eq url.protocol "http:"))
      && (str_eq url.username "" && str_eq url.password "")
      && every is_no_query text
      && str_eq (to_lower (written text).0) url.host
      && names accepted_paths (without_slash (written text).1)

  abbrev pub is_plain : Bool → String → Option Url → Bool
  is_plain insecure text none = false
  is_plain insecure text (some url) = is_plain_url insecure text url

  abbrev pub is_key : String → Bool
  is_key api_key = not (str_eq api_key "") && every is_printable api_key

  -- All that is asked of the options: a key that is printable and not empty, and a URL that is plain.
  abbrev pub is_accepted : CredentialOptions → Option String → Bool
  is_accepted options none = false
  is_accepted options (some api_key) =
      let text = given default_api_url options.api_url in
      is_plain options.allow_insecure_http text (parse_url text) && is_key api_key

  endpoint_of-is_plain :
      (insecure : Bool) (text : String) (url : Url)
      → is_ok (endpoint_of (url_fault to_lower insecure text url) url)
        ≡ is_plain_url insecure text url
  unfolding url_fault is_plain_url
  endpoint_of-is_plain insecure text url = elim (Bool-cases (str_eq url.protocol "http:")) [
    | inl e ↦ ground (arith, ap (λ s. str_eq s "https:") ((str_eq_iff url.protocol "http:").0 e))
    | inr e ↦ ground arith
  ]

  bearer_authorization-is_key :
      (api_key : String) → is_ok (bearer_authorization api_key) ≡ is_key api_key
  unfolding bearer_authorization
  bearer_authorization-is_key api_key = ground arith

  credentials-is_ok : (e a : Result String) → is_ok (credentials e a) ≡ (is_ok e && is_ok a)
  credentials-is_ok (ok endpoint) (ok authorization) = refl
  credentials-is_ok (ok endpoint) (error message) = refl
  credentials-is_ok (error message) a = refl

  parse_written-is_plain :
      (insecure : Bool) (text : String) (o : Option Url)
      → is_ok (parse_written to_lower parse_url insecure text o) ≡ is_plain insecure text o
  parse_written-is_plain insecure text none = refl
  parse_written-is_plain insecure text (some url) = endpoint_of-is_plain insecure text url

  resolved-is_ok :
      (options : CredentialOptions) (o : Option String)
      → is_ok (resolve_with to_lower parse_url options o) ≡ is_accepted options o
  unfolding parse_api_url
  resolved-is_ok options none = refl
  resolved-is_ok options (some api_key) =
      let text = given default_api_url options.api_url in
      credentials-is_ok
        (parse_written to_lower parse_url options.allow_insecure_http text (parse_url text))
        (bearer_authorization api_key)
      ∙ ap₂ ◌&&◌ (parse_written-is_plain options.allow_insecure_http text (parse_url text))
          (bearer_authorization-is_key api_key)

  pub resolve_credentials-AreSafe :
      (options : CredentialOptions)
      → (is_ok (resolve_credentials to_lower parse_url options)
          ≡ is_accepted options options.api_key)
        × AreSafe options options.api_key (resolve_credentials to_lower parse_url options)
  unfolding resolve_credentials
  resolve_credentials-AreSafe options =
      (resolved-is_ok options options.api_key, resolved options options.api_key)
