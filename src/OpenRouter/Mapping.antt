-- ===== src/OpenRouter/Mapping.antt =====
-- adapters/openrouter/typescript/src/mapping.ts: what the adapter reads of a result.
use audr.Base.{
  Bool, true, false, not, ◌&&◌, ◌||◌, List, [], ◌∷◌, Option, none, some, String, str_eq,
  if◌then◌else◌, filter_by,
}
use audr.Record.{Json, Items, undefined, bool, str, arr, obj, nil, cons, exotic, get}
use audr.Adapters.Numbers.{Double, LlmUsage, number, exclusive, or_nought}
use audr.Adapters.Scope.{first_of}
use audr.Adapters.Recording.{Modality, text, image, audio, multimodal}

abbrev pub openrouter_provider : String
openrouter_provider = "openrouter"

abbrev pub chat_failed_code : String
chat_failed_code = "OPENROUTER_CHAT_FAILED"

abbrev pub response_failed_code : String
response_failed_code = "OPENROUTER_RESPONSE_FAILED"

abbrev pub response_incomplete_code : String
response_incomplete_code = "OPENROUTER_RESPONSE_INCOMPLETE"

pub data Family : Type 0 where
  chat responses embeddings : Family

pub data Kind : Type 0 where
  text_kind image_kind audio_kind : Kind

abbrev pub kinds : List Kind
kinds = text_kind ∷ image_kind ∷ audio_kind ∷ []

abbrev kind_name : Kind → String
kind_name text_kind = "text"
kind_name image_kind = "image"
kind_name audio_kind = "audio"

pub record Router : Type 0 where
  pub provider : Option String
  pub is_byok : Option Bool

pub record Observation (W : Type 0) : Type 0 where
  pub id : Option String
  pub model : Option String
  pub provider : Option String
  pub is_byok : Option Bool
  pub charge : Option W
  pub upstream : Option W
  pub usage : LlmUsage W
  pub modality : Modality
  pub error_code : Option String

pub record Facts (W : Type 0) : Type 0 where
  pub provider_name : Option String
  pub cache_hit : Bool
  pub is_byok : Option Bool
  pub upstream : Option W

abbrev pub is_record : Json → Bool
is_record (obj _) = true
is_record (arr _) = true
is_record exotic = true
is_record _ = false

-- `text`
abbrev pub text_of : Json → Option String
text_of (str s) = if str_eq s "" then none else some s
text_of _ = none

abbrev pub bool_of : Json → Option Bool
bool_of (bool b) = some b
bool_of _ = none

abbrev pub is_true : Json → Bool
is_true (bool b) = b
is_true _ = false

abbrev is_some {ℓ} : {A : Type ℓ} → Option A → Bool
is_some none = false
is_some (some _) = true

-- `entries.find(…)`, of the endpoints that are available.
unfoldable pub find_selected : Items → Json
unfolding get
find_selected nil = undefined
find_selected (cons e es) =
    let later = find_selected es in
    if is_true (get e "selected") && is_some (text_of (get e "provider")) then e else later

abbrev items_of : Json → Items
items_of (arr items) = items
items_of _ = nil

-- `readRouter`
unfoldable pub read_router : Json → Option Router
unfolding find_selected get
read_router metadata =
    if is_record metadata
    then some (record {
      provider =
          text_of (
            get (find_selected (items_of (get (get metadata "endpoints") "available"))) "provider");
      is_byok = bool_of (get metadata "isByok");
    })
    else none

unfoldable pub includes_text : Items → String → Bool
includes_text nil name = false
includes_text (cons (str s) rest) name = str_eq s name || includes_text rest name
includes_text (cons _ rest) name = includes_text rest name

-- `declaredKinds`, in the order of `KINDS`.
unfoldable pub declared_kinds : Json → List Kind
unfolding includes_text
declared_kinds modalities = filter_by (λ k. includes_text (items_of modalities) (kind_name k)) kinds

abbrev modality_named : Kind → Modality
modality_named text_kind = text
modality_named image_kind = image
modality_named audio_kind = audio

-- `modalityOf`, of the set of kinds, given as a list without repetition.
unfoldable pub modality_of : List Kind → Bool → Modality
modality_of [] other = if other then multimodal else text
modality_of (k ∷ []) other = if other then multimodal else modality_named k
modality_of (k ∷ l ∷ rest) other = multimodal

abbrev or_text : List Kind → List Kind
or_text [] = text_kind ∷ []
or_text (k ∷ ks) = k ∷ ks

abbrev is_audio : Kind → Bool
is_audio audio_kind = true
is_audio _ = false

-- `kinds.add('audio')`
unfoldable pub add_audio : List Kind → List Kind
add_audio [] = audio_kind ∷ []
add_audio (k ∷ ks) = let later = add_audio ks in if is_audio k then k ∷ ks else k ∷ later

-- `typeof usage.isByok === 'boolean' ? usage.isByok : router?.isByok`
abbrev byok : Json → Option Router → Option Bool
byok usage none = bool_of (get usage "isByok")
byok usage (some router) = first_of (bool_of (get usage "isByok")) router.is_byok

abbrev router_provider : Option Router → Option String
router_provider none = none
router_provider (some router) = router.provider

-- `positive`
abbrev pub positive : {W : Type 0} ⦃d : Double W⦄ → Option W → Bool
positive none = false
positive ⦃d⦄ (some n) = d.positive n

abbrev kind_if : Bool → Kind → List Kind → List Kind
kind_if true k ks = k ∷ ks
kind_if false k ks = ks

pub record CostResult (W : Type 0) : Type 0 where
  pub cost : Option W
  pub incomplete : Bool

module _ {W : Type 0} ⦃d : Double W⦄ where
  abbrev number_of : Json → Option W
  number_of value = number value

  -- The token counters of a usage object, by the names of its totals and details.
  unfoldable pub token_usage : Json → String → Json → String → Json → LlmUsage W
  unfolding number exclusive get
  token_usage usage input_name input output_name output =
      let cache_read = number (get input "cachedTokens") in
      let cache_write = number (get input "cacheWriteTokens") in
      let reasoning = number (get output "reasoningTokens") in
      record {
        input_tokens =
            exclusive (number (get usage input_name))
              (d.add (or_nought cache_read) (or_nought cache_write));
        output_tokens = exclusive (number (get usage output_name)) (or_nought reasoning);
        cache_read_tokens = cache_read;
        cache_write_tokens = cache_write;
        reasoning_tokens = reasoning;
        requests = 1;
      }

  -- The economics of a usage object, with what else an observation takes from the body.
  unfoldable pub observation :
      Json → Json → Option Router → LlmUsage W → Modality → Option String → Observation W
  unfolding number get
  observation body usage router tokens modality error_code = record {
    id = text_of (get body "id");
    model = text_of (get body "model");
    provider = router_provider router;
    is_byok = byok usage router;
    charge = number (get usage "cost");
    upstream = number (get (get usage "costDetails") "upstreamInferenceCost");
    usage = tokens;
    modality = modality;
    error_code = error_code;
  }

  -- `chatObservation`
  unfoldable pub chat_observation :
      Json → List Kind → Option Router → Option String → Option (Observation W)
  unfolding observation token_usage read_router modality_of add_audio number get
  chat_observation body declared fallback error_code =
      let usage = get body "usage" in
      let prompt = get usage "promptTokensDetails" in
      let completion = get usage "completionTokensDetails" in
      let named = or_text declared in
      let heard =
        positive (number_of (get prompt "audioTokens"))
        || positive (number_of (get completion "audioTokens")) in
      if is_record usage
      then some (
          observation body usage (first_of (read_router (get body "openrouterMetadata")) fallback)
            (token_usage usage "promptTokens" prompt "completionTokens" completion)
            (modality_of (if heard then add_audio named else named)
              (positive (number_of (get prompt "videoTokens"))))
            error_code)
      else none

  -- `responsesObservation`
  unfoldable pub responses_observation : Json → List Kind → Option String → Option (Observation W)
  unfolding observation token_usage read_router modality_of get
  responses_observation body declared error_code =
      let usage = get body "usage" in
      if is_record usage
      then some (
          observation body usage (read_router (get body "openrouterMetadata"))
            (token_usage usage "inputTokens" (get usage "inputTokensDetails") "outputTokens"
              (get usage "outputTokensDetails"))
            (modality_of (or_text declared) false) error_code)
      else none

  -- `embeddingsObservation`
  unfoldable pub embeddings_observation : Json → Option (Observation W)
  unfolding observation modality_of number get
  embeddings_observation body =
      let usage = get body "usage" in
      let details = get usage "promptTokensDetails" in
      let seen = kind_if (positive (number_of (get details "textTokens"))) text_kind (
        kind_if (positive (number_of (get details "imageTokens"))) image_kind
          (kind_if (positive (number_of (get details "audioTokens"))) audio_kind [])) in
      if is_record usage
      then some (
          observation body usage none
            (record {
              input_tokens = number (get usage "promptTokens");
              output_tokens = none;
              cache_read_tokens = none;
              cache_write_tokens = none;
              reasoning_tokens = none;
              requests = 1;
            })
            (modality_of (or_text seen) (
              positive (number_of (get details "videoTokens"))
              || positive (number_of (get details "fileTokens"))))
            none)
      else none

  -- `readFacts`
  unfoldable pub read_facts : Json → Facts W
  unfolding number get
  read_facts response =
      let data_ = get response "data" in
      record {
        provider_name = text_of (get data_ "providerName");
        cache_hit = is_some (text_of (get data_ "responseCacheSourceId"));
        is_byok = bool_of (get data_ "isByok");
        upstream = number (get data_ "upstreamInferenceCost");
      }

  -- `needsLookup`
  unfoldable pub needs_lookup : Observation W → Bool
  needs_lookup observed = elim observed.provider [
    | none ↦ true
    | some _ ↦ elim observed.is_byok [
      | none ↦ true
      | some byok ↦ byok && is_some observed.charge && not (is_some observed.upstream)
    ]
  ]

  -- `servedProvider`
  unfoldable pub served_provider : Observation W → Option (Facts W) → Option String
  served_provider observed none = observed.provider
  served_provider observed (some facts) =
      if facts.cache_hit
      then some openrouter_provider
      else first_of observed.provider facts.provider_name

  -- `resolveCost`; the cost is in USD.
  unfoldable pub resolve_cost : Option W → Option Bool → Option W → CostResult W
  resolve_cost charge none upstream = record { cost = none; incomplete = true }
  resolve_cost charge (some false) upstream = record { cost = charge; incomplete = false }
  resolve_cost (some charge) (some true) (some upstream) = record {
    cost = some (d.add charge upstream);
    incomplete = false;
  }
  resolve_cost charge (some true) upstream = record { cost = none; incomplete = true }
