-- ===== src/Adapters/Scoping.antt =====
-- How scopes nest.
use audr.Base.{
  ◌≡◌, refl, sym, ap, ◌∙◌, Bool, true, false, [], ◌∷◌, Option, none, some, String, str_eq,
  str_eq_iff, str_eq_refl, if◌then◌else◌, Bool-cases, inl, inr, arith,
}
use audr.Record.{Json}
use audr.Canonical.{Properties, put}
use audr.Adapters.Scope.{Attribution, first_of, spread, merge_with, merge_attribution}

-- The label of a key.
unfoldable pub label : Properties → String → Option Json
label [] key = none
label ((k, v) ∷ rest) key = let later = label rest key in if str_eq k key then some v else later

label-put :
    (name key : String) (value : Json) (ps : Properties)
    → label (put name value ps) key ≡ (if str_eq name key then some value else label ps key)
unfolding label put
label-put name key value [] = refl
label-put name key value ((k, v) ∷ rest) = elim (Bool-cases (str_eq k name)) [
  | inl e ↦ ground (arith, ap (λ s. str_eq s key) ((str_eq_iff k name).0 e))
  | inr e ↦ elim (Bool-cases (str_eq name key)) [
    | inl f ↦
        ground (arith, label-put name key value rest, ap (str_eq k) ((str_eq_iff name key).0 f))
    | inr f ↦ ground (arith, label-put name key value rest)
  ]
]

-- A later entry of a key wins.
unfoldable last_label : Properties → String → Option Json
last_label [] key = none
last_label ((k, v) ∷ rest) key =
    first_of (last_label rest key) (if str_eq k key then some v else none)

label-spread :
    (base override : Properties) (key : String)
    → label (spread base override) key ≡ first_of (last_label override key) (label base key)
unfolding spread last_label
label-spread base [] key = refl
label-spread base ((k, v) ∷ rest) key =
    ground (arith, label-spread (put k v base) rest key, label-put k key v base)

-- Of an attribution what a record shows: the five fields and the label of each key.
pub record SameAttribution (a b : Attribution) : Type 0 where
  pub environment : a.environment ≡ b.environment
  pub account_id : a.account_id ≡ b.account_id
  pub subscription_id : a.subscription_id ≡ b.subscription_id
  pub user_id : a.user_id ≡ b.user_id
  pub feature_id : a.feature_id ≡ b.feature_id
  pub labels : (key : String) → label a.labels key ≡ label b.labels key

first_of_assoc {ℓ} :
    {A : Type ℓ} (a b c : Option A) → first_of c (first_of b a) ≡ first_of (first_of c b) a
first_of_assoc a b none = refl
first_of_assoc a b (some x) = refl

-- The keys of an object occur once each.
unfoldable pub is_object : Properties → Bool
unfolding label
is_object [] = true
is_object ((k, v) ∷ rest) = elim (label rest k) [ none ↦ is_object rest | some _ ↦ false ]

last_label-label :
    (ps : Properties) (key : String) → is_object ps ≡ true → last_label ps key ≡ label ps key
unfolding is_object label last_label
last_label-label [] key h = refl
last_label-label ((k, v) ∷ rest) key h = elim (Bool-cases (str_eq k key)) [
  | inl e ↦
      let same = ap (label rest) ((str_eq_iff k key).0 e) in
      ground (arith, last_label-label rest key, same)
  | inr e ↦ ground (arith, last_label-label rest key)
]

put-IsObject :
    (name : String) (value : Json) (ps : Properties)
    → is_object ps ≡ true
    → is_object (put name value ps) ≡ true
unfolding put is_object label
put-IsObject name value [] h = refl
put-IsObject name value ((k, v) ∷ rest) h = elim (Bool-cases (str_eq k name)) [
  | inl e ↦ rw e h
  | inr e ↦ elim (Bool-cases (str_eq name k)) [
    | inl f ↦ absurd (ground (arith, ap (str_eq k) ((str_eq_iff name k).0 f), str_eq_refl k))
    | inr f ↦ rw e (ground (arith, put-IsObject name value rest, label-put name k value rest))
  ]
]

spread-IsObject :
    (base override : Properties) → is_object base ≡ true → is_object (spread base override) ≡ true
unfolding spread
spread-IsObject base [] h = h
spread-IsObject base ((k, v) ∷ rest) h =
    spread-IsObject (put k v base) rest (put-IsObject k v base h)

label-merged :
    (base override : Properties) (key : String)
    → is_object override ≡ true
    → label (spread base override) key ≡ first_of (label override key) (label base key)
label-merged base override key h =
    label-spread base override key
    ∙ ap (λ o. first_of o (label base key)) (last_label-label override key h)

-- The attribution that a record shows when `override` is laid over `base`: what `override` says of a field or
-- of a label, and what `base` says where it says nothing.
pub record Overrides (base override merged : Attribution) : Type 0 where
  pub environment :
      merged.environment ≡ elim override.environment [ some x ↦ some x | none ↦ base.environment ]
  pub account_id :
      merged.account_id ≡ elim override.account_id [ some x ↦ some x | none ↦ base.account_id ]
  pub subscription_id :
      merged.subscription_id
      ≡ elim override.subscription_id [ some x ↦ some x | none ↦ base.subscription_id ]
  pub user_id : merged.user_id ≡ elim override.user_id [ some x ↦ some x | none ↦ base.user_id ]
  pub feature_id :
      merged.feature_id ≡ elim override.feature_id [ some x ↦ some x | none ↦ base.feature_id ]
  pub labels :
      (key : String)
      → label merged.labels key
        ≡ elim (label override.labels key) [ some v ↦ some v | none ↦ label base.labels key ]

first_of-elim {ℓ} :
    {A : Type ℓ} (a b : Option A) → first_of a b ≡ elim a [ some x ↦ some x | none ↦ b ]
first_of-elim none b = refl
first_of-elim (some x) b = refl

merge_attribution-Overrides :
    (a b : Attribution) → is_object b.labels ≡ true → Overrides a b (merge_attribution a (some b))
unfolding merge_attribution merge_with
merge_attribution-Overrides a b h = record {
  environment = first_of-elim b.environment _;
  account_id = first_of-elim b.account_id _;
  subscription_id = first_of-elim b.subscription_id _;
  user_id = first_of-elim b.user_id _;
  feature_id = first_of-elim b.feature_id _;
  labels = λ key. label-merged a.labels b.labels key h ∙ first_of-elim (label b.labels key) _;
}

merge_attribution-SameAttribution :
    (a b c : Attribution)
    → is_object b.labels ≡ true
    → is_object c.labels ≡ true
    → SameAttribution
        (merge_attribution (merge_attribution a (some b)) (some c))
        (merge_attribution a (some (merge_attribution b (some c))))
unfolding merge_attribution merge_with
merge_attribution-SameAttribution a b c hb hc = record {
  environment = first_of_assoc _ _ c.environment;
  account_id = first_of_assoc _ _ c.account_id;
  subscription_id = first_of_assoc _ _ c.subscription_id;
  user_id = first_of_assoc _ _ c.user_id;
  feature_id = first_of_assoc _ _ c.feature_id;
  labels = λ key.
      label-merged (spread a.labels b.labels) c.labels key hc
      ∙ ap (first_of (label c.labels key)) (label-merged a.labels b.labels key hb)
      ∙ first_of_assoc (label a.labels key) (label b.labels key) (label c.labels key)
      ∙ sym (
          label-merged a.labels (spread b.labels c.labels) key
            (spread-IsObject b.labels c.labels hb)
          ∙ ap (λ o. first_of o (label a.labels key)) (label-merged b.labels c.labels key hc));
}

-- Where the labels of each scope are an object: an inner scope has its own say over an outer one, field by field and
-- label by label, and leaves the rest as it was; and defaults under an outer scope under an inner one show the same in
-- either order of merging.
pub merge_attribution_assoc :
    (a b c : Attribution)
    → is_object b.labels ≡ true
    → is_object c.labels ≡ true
    → Overrides a b (merge_attribution a (some b))
      × SameAttribution
          (merge_attribution (merge_attribution a (some b)) (some c))
          (merge_attribution a (some (merge_attribution b (some c))))
merge_attribution_assoc a b c hb hc =
    (merge_attribution-Overrides a b hb, merge_attribution-SameAttribution a b c hb hc)
