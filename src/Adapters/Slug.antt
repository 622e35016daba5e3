-- ===== src/Adapters/Slug.antt =====
-- Provider slugs: `providerSlug` of adapters/openrouter/typescript/src/mapping.ts, and of mapping.ts in
-- adapters/vercel-ai and adapters/mastra, which are the same. `toLowerCase` is a parameter.
use Prim.Native.Char.{code}
use Prim.Native.String
use Prim.Native.String.append.{nil as nil-append, cons as cons-append}
use audr.Base.{
  ℕ, ◌≡◌, refl, Bool, true, false, not, ◌&&◌, ◌||◌, List, [], ◌∷◌, Option, none, some, String,
  str_eq, leb, ◌==◌, if◌then◌else◌, Bool-cases, inl, inr, arith,
}
use audr.Base.Text.{is_digit}
use audr.Base.Result.{every}
use audr.Validate.Issues.{starts_with}

abbrev pub is_word : ℕ → Bool
is_word c = (leb b'a' c && leb c b'z') || is_digit c

-- What a slug may hold.
abbrev pub is_slug_part : ℕ → Bool
is_slug_part c = is_word c || c == b'-'

-- `replace(…, '-')` of each run of characters that are not kept, after one that is in a run or not.
unfoldable pub collapse : (ℕ → Bool) → Bool → String → String
collapse keeps in_run String.[] = ""
collapse keeps in_run (String.◌∷◌ c s) =
    let outside = collapse keeps false s in
    let inside = collapse keeps true s in
    if keeps (code c)
    then String.◌∷◌ c outside
    else if in_run
    then inside
    else String.◌∷◌ "-" inside

-- `replace(/^-+/g, '')` and `replace(/-+$/g, '')`.
unfoldable pub drop_dashes : String → String
drop_dashes String.[] = ""
drop_dashes (String.◌∷◌ c s) =
    let later = drop_dashes s in if code c == b'-' then later else String.◌∷◌ c s

unfoldable pub drop_end_dashes : String → String
drop_end_dashes String.[] = ""
drop_end_dashes (String.◌∷◌ c s) =
    let later = drop_end_dashes s in
    if code c == b'-' && str_eq later "" then "" else String.◌∷◌ c later

abbrev not_empty : String → Option String
not_empty s = if str_eq s "" then none else some s

unfoldable pub slug_of : (ℕ → Bool) → String → Option String
unfolding collapse drop_dashes drop_end_dashes
slug_of keeps s = not_empty (drop_end_dashes (drop_dashes (collapse keeps false s)))

-- `providerSlug` of OpenRouter.
unfoldable pub name_slug : (String → String) → String → Option String
unfolding slug_of
name_slug to_lower name = slug_of is_word (to_lower name)

-- `PROVIDER_ALIASES`
abbrev pub provider_aliases : List (List String × String)
provider_aliases =
    ("gateway" ∷ [], "vercel-ai-gateway")
    ∷ ("azure" ∷ [], "azure-openai")
    ∷ ("amazon-bedrock" ∷ "bedrock" ∷ "bedrock-mantle" ∷ [], "aws-bedrock")
    ∷ ("google.vertex" ∷ "googleVertex" ∷ "vertex" ∷ [], "google-vertex")
    ∷ []

unfoldable pub some_prefix : List String → String → Bool
unfolding starts_with
some_prefix [] provider = false
some_prefix (prefix ∷ rest) provider =
    str_eq provider prefix
    || starts_with provider (String.◌++◌ prefix ".")
    || some_prefix rest provider

unfoldable pub find_alias : List (List String × String) → String → Option String
unfolding some_prefix
find_alias [] provider = none
find_alias ((prefixes, slug) ∷ rest) provider =
    let later = find_alias rest provider in
    if some_prefix prefixes provider then some slug else later

-- `provider.split('.', 1)[0]`
unfoldable pub head_of : String → String
head_of String.[] = ""
head_of (String.◌∷◌ c s) =
    let later = head_of s in if code c == b'.' then "" else String.◌∷◌ c later

abbrev or_slug : Option String → Option String → Option String
or_slug (some slug) other = some slug
or_slug none other = other

-- `providerSlug` of the AI SDK and of Mastra.
unfoldable pub provider_slug : (String → String) → String → Option String
unfolding find_alias head_of slug_of
provider_slug to_lower provider =
    or_slug (find_alias provider_aliases provider)
      (slug_of is_slug_part (to_lower (head_of provider)))

-- `isProviderSlug`
unfoldable pub is_provider_slug : String → Bool
unfolding every
is_provider_slug s = not (str_eq s "") && every is_slug_part s

abbrev pub IsSlug : Option String → Type 0
IsSlug none = Unit
IsSlug (some s) = is_provider_slug s ≡ true

module _ (keeps : ℕ → Bool) (kept : (c : ℕ) → keeps c ≡ true → is_slug_part c ≡ true) where
  every-collapse :
      (in_run : Bool) (s : String) → every is_slug_part (collapse keeps in_run s) ≡ true
  unfolding every collapse
  every-collapse in_run String.[] = refl
  every-collapse in_run (String.◌∷◌ c s) = elim (Bool-cases (keeps (code c))) [
    | inl e ↦ rw (e, kept (code c) e) (every-collapse false s)
    | inr e ↦ ground (arith, every-collapse false s, every-collapse true s)
  ]

every-drop_dashes :
    (s : String) → every is_slug_part s ≡ true → every is_slug_part (drop_dashes s) ≡ true
unfolding every drop_dashes
every-drop_dashes String.[] h = h
every-drop_dashes (String.◌∷◌ c s) h = ground (arith, every-drop_dashes s)

every-drop_end_dashes :
    (s : String) → every is_slug_part s ≡ true → every is_slug_part (drop_end_dashes s) ≡ true
unfolding every drop_end_dashes
every-drop_end_dashes String.[] h = h
every-drop_end_dashes (String.◌∷◌ c s) h =
    elim (Bool-cases (code c == b'-' && str_eq (drop_end_dashes s) "")) [
      | inl e ↦ rw e refl
      | inr e ↦ rw e (ground (arith, every-drop_end_dashes s))
    ]

not_empty-IsSlug : (s : String) → every is_slug_part s ≡ true → IsSlug (not_empty s)
unfolding is_provider_slug
not_empty-IsSlug s h = elim (Bool-cases (str_eq s "")) [
  | inl e ↦ rw e tt
  | inr e ↦ rw e (ground arith)
]

slug_of-IsSlug :
    (keeps : ℕ → Bool) (s : String)
    → ((c : ℕ) → keeps c ≡ true → is_slug_part c ≡ true)
    → IsSlug (slug_of keeps s)
unfolding slug_of
slug_of-IsSlug keeps s kept =
    not_empty-IsSlug _
      (every-drop_end_dashes _ (every-drop_dashes _ (every-collapse keeps kept false s)))

if-IsSlug : (b : Bool) (x y : Option String) → IsSlug x → IsSlug y → IsSlug (if b then x else y)
if-IsSlug true x y hx hy = hx
if-IsSlug false x y hx hy = hy

or_slug-IsSlug : (x y : Option String) → IsSlug x → IsSlug y → IsSlug (or_slug x y)
or_slug-IsSlug none y hx hy = hy
or_slug-IsSlug (some s) y hx hy = hx

find_alias-IsSlug : (provider : String) → IsSlug (find_alias provider_aliases provider)
unfolding find_alias is_provider_slug every
find_alias-IsSlug provider = if-IsSlug (some_prefix ("gateway" ∷ []) provider) _ _ refl (
    if-IsSlug (some_prefix ("azure" ∷ []) provider) _ _ refl (
      if-IsSlug (some_prefix ("amazon-bedrock" ∷ "bedrock" ∷ "bedrock-mantle" ∷ []) provider) _ _
        refl
        (if-IsSlug (some_prefix ("google.vertex" ∷ "googleVertex" ∷ "vertex" ∷ []) provider) _ _
          refl tt)))

-- Every provider slug that the adapters derive, from any name, passes their own test of a slug: it is not empty and
-- has lower-case letters, digits and dashes only.
pub provider_slug-IsSlug :
    (to_lower : String → String) (s : String)
    → IsSlug (name_slug to_lower s) × IsSlug (provider_slug to_lower s)
unfolding name_slug provider_slug
provider_slug-IsSlug to_lower s = (
  slug_of-IsSlug is_word (to_lower s) (λ c h. ground arith),
  or_slug-IsSlug (find_alias provider_aliases s) _ (find_alias-IsSlug s)
      (slug_of-IsSlug is_slug_part (to_lower (head_of s)) (λ c h. h)),
)
