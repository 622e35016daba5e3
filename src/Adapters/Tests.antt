-- ===== src/Adapters/Tests.antt =====
-- Small scopes and names, and what the adapters make of them.
use audr.Base.{◌≡◌, refl, [], ◌∷◌, none, some}
use audr.Record.{str}
use audr.Canonical.{Properties}
use audr.Adapters.Scope.{Attribution, merge_attribution}
use audr.Adapters.Scoping.{Overrides, SameAttribution, is_object, merge_attribution_assoc}
use audr.Adapters.Slug.{IsSlug, name_slug, provider_slug, provider_slug-IsSlug}

abbrev labelled : Properties → Attribution
labelled labels = record {
  environment = some "production";
  account_id = none;
  subscription_id = none;
  user_id = none;
  feature_id = none;
  labels = labels;
}

abbrev outer : Attribution
outer = labelled (("team", str "a") ∷ ("tier", str "b") ∷ [])

abbrev inner : Attribution
inner = labelled (("tier", str "c") ∷ [])

merge_attribution_assoc_example :
    Overrides inner outer (merge_attribution inner (some outer))
    × SameAttribution
        (merge_attribution (merge_attribution inner (some outer)) (some inner))
        (merge_attribution inner (some (merge_attribution outer (some inner))))
unfolding is_object
merge_attribution_assoc_example = merge_attribution_assoc inner outer inner refl refl

slug_of_vendor : name_slug (λ s. s) "amazon  bedrock!" ≡ some "amazon-bedrock"
unfolding name_slug
slug_of_vendor = refl

slug_of_provider : provider_slug (λ s. s) "google.vertex.chat" ≡ some "google-vertex"
unfolding provider_slug
slug_of_provider = refl

provider_slug-IsSlug_example :
    IsSlug (name_slug (λ s. s) "amazon  bedrock!")
    × IsSlug (provider_slug (λ s. s) "amazon  bedrock!")
provider_slug-IsSlug_example = provider_slug-IsSlug (λ s. s) "amazon  bedrock!"
