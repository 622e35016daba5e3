-- ===== src/Codec/Canonical.antt =====
-- What `sortKeys` of adapters/core/typescript/src/codec.ts returns.
use audr.Base.{
  ◌≡◌, refl, ap, subst, ◌∙◌, Bool, true, false, not, ◌&&◌, List, [], ◌∷◌, ◌++◌, String, arith,
  Bool-cases, inl, inr, All,
}
use audr.Base.Text.{sort_by, All-sort_by, IsSorted, sort_by-IsSorted}
use audr.Record.{
  Json, undefined, null, non_finite, exotic, bool, num, str, arr, obj, Fields, end, field,
}
use audr.Validate.Issues.{value_at}
use audr.Codec.Keys.{index_of, stands_before, key_leb, key_leb_total, key_leb_trans, add_entry}
use audr.Codec.Entries.{is_ordered, leads, leads-add_entry, add_entry-IsOrdered}
use audr.Codec.Sorting.{
  Outcome, returns, throws, Entry, entry_leb, and_entry, from_sorted, as_object, is_undefined,
  add_present, sort_keys, sort_entries, Gives,
}
use audr.Codec.Lookup.{is_json, sort_keys-value_at}

-- Keys stand in order in every object within it, and no property is `undefined`.
unfoldable mutual
  pub is_canonical : Json → Bool
  is_canonical (obj fs) = is_ordered fs && are_canonical fs
  is_canonical v = true

  pub are_canonical : Fields → Bool
  are_canonical end = true
  are_canonical (field key v rest) = (not (is_undefined v) && is_canonical v) && are_canonical rest

abbrev is_value : Json → Bool
is_value v = not (is_undefined v) && is_canonical v

both : (a b : Bool) → a ≡ true → b ≡ true → (a && b) ≡ true
both a b h g = ground (arith, h, g)

swapped : (a b c d : Bool) → d ≡ (a && c) → (b && d) ≡ (a && (b && c))
swapped true b c d h = ap (b &&◌) h
swapped false true c d h = h
swapped false false c d h = refl

IsGood : Entry → Type 0
IsGood (key, o) = Gives (λ w. is_value w ≡ true) o

add_entry-canonical :
    (key : String) (v : Json) (fs : Fields)
    → are_canonical (add_entry key v fs) ≡ (is_value v && are_canonical fs)
unfolding are_canonical add_entry
add_entry-canonical key v end = refl
add_entry-canonical key v (field k w rest) =
    elim (Bool-cases (stands_before (index_of key) (index_of k))) [
      | inl e ↦ rw e refl
      | inr e ↦ rw e (
          swapped (is_value v) (is_value w) (are_canonical rest)
            (are_canonical (add_entry key v rest)) (add_entry-canonical key v rest))
    ]

and_entry-leads :
    (q key : String) (o : Outcome Json) (rest : Outcome Fields)
    → key_leb q key ≡ true
    → Gives (λ fs. leads q fs ≡ true) rest
    → Gives (λ fs. leads q fs ≡ true) (and_entry key o rest)
and_entry-leads q key (throws i) rest h g = tt
and_entry-leads q key (returns v) (throws i) h g = tt
and_entry-leads q key (returns v) (returns fs) h g =
    leads-add_entry q key v fs ∙ ground (arith, h, g)

from_sorted-leads :
    (q : String) (o : Outcome Json) (xs : List Entry)
    → All (λ e. entry_leb (q, o) e ≡ true) xs
    → Gives (λ fs. leads q fs ≡ true) (from_sorted xs)
unfolding from_sorted leads
from_sorted-leads q o [] h = refl
from_sorted-leads q o ((key, p) ∷ rest) h =
    and_entry-leads q key p (from_sorted rest) h.0 (from_sorted-leads q o rest h.1)

abbrev IsTidy : Fields → Type 0
IsTidy fs = (is_ordered fs ≡ true) × (are_canonical fs ≡ true)

and_entry-IsTidy :
    (key : String) (o : Outcome Json) (rest : Outcome Fields)
    → IsGood (key, o)
    → Gives (λ fs. leads key fs ≡ true) rest
    → Gives IsTidy rest
    → Gives IsTidy (and_entry key o rest)
unfolding IsGood
and_entry-IsTidy key (throws i) rest h g t = tt
and_entry-IsTidy key (returns v) (throws i) h g t = tt
and_entry-IsTidy key (returns v) (returns fs) h g t = (
  add_entry-IsOrdered key v fs g t.0,
  add_entry-canonical key v fs ∙ both (is_value v) (are_canonical fs) h t.1,
)

from_sorted-IsTidy :
    (xs : List Entry) → IsSorted entry_leb xs → All IsGood xs → Gives IsTidy (from_sorted xs)
unfolding from_sorted is_ordered are_canonical
from_sorted-IsTidy [] s h = (refl, refl)
from_sorted-IsTidy ((key, o) ∷ rest) s h =
    and_entry-IsTidy key o (from_sorted rest) h.0 (from_sorted-leads key o rest s.0)
      (from_sorted-IsTidy rest s.1 h.1)

tidy_object :
    (o : Outcome Fields)
    → Gives IsTidy o
    → Gives (λ w. (is_canonical w ≡ true) × (is_undefined w ≡ false)) (as_object o)
unfolding is_canonical
tidy_object (throws i) h = tt
tidy_object (returns fs) h = (both (is_ordered fs) (are_canonical fs) h.0 h.1, refl)

IsSorted-entries : (xs : List Entry) → IsSorted entry_leb (sort_by entry_leb xs)
IsSorted-entries =
    sort_by-IsSorted entry_leb (λ x y. key_leb_total x.0 y.0) (λ x y z. key_leb_trans x.0 y.0 z.0)

abbrev Keeps : Json → Json → Type 0
Keeps v w = (is_canonical w ≡ true) × (is_undefined w ≡ is_undefined v)

present-IsGood :
    (v : Json) (key : String) (o : Outcome Json)
    → is_undefined v ≡ false
    → Gives (Keeps v) o
    → IsGood (key, o)
unfolding IsGood
present-IsGood v key (throws i) u h = tt
present-IsGood v key (returns w) u h =
    both (not (is_undefined w)) (is_canonical w) (ap not (h.1 ∙ u)) h.0

add_present-IsGood :
    (v : Json) (key : String) (o : Outcome Json) (rest : List Entry)
    → Gives (Keeps v) o
    → All IsGood rest
    → All IsGood (add_present (is_undefined v) (key, o) rest)
add_present-IsGood v key o rest h g = elim (Bool-cases (is_undefined v)) [
  | inl e ↦ rw e g
  | inr e ↦ rw e (present-IsGood v key o e h, g)
]

mutual
  unfolding sort_keys sort_entries is_canonical

  sort_keys-Keeps : (v : Json) (path : List String) → Gives (Keeps v) (sort_keys v path)
  sort_keys-Keeps undefined path = (refl, refl)
  sort_keys-Keeps null path = (refl, refl)
  sort_keys-Keeps (bool b) path = (refl, refl)
  sort_keys-Keeps (num n) path = (refl, refl)
  sort_keys-Keeps (str s) path = (refl, refl)
  sort_keys-Keeps non_finite path = tt
  sort_keys-Keeps exotic path = tt
  sort_keys-Keeps (arr items) path = tt
  sort_keys-Keeps (obj fs) path =
      tidy_object (from_sorted (sort_by entry_leb (sort_entries fs path))) (
        from_sorted-IsTidy (sort_by entry_leb (sort_entries fs path))
          (IsSorted-entries (sort_entries fs path))
          (All-sort_by IsGood entry_leb (sort_entries fs path) (sort_entries-IsGood fs path)))

  sort_entries-IsGood : (fs : Fields) (path : List String) → All IsGood (sort_entries fs path)
  sort_entries-IsGood end path = tt
  sort_entries-IsGood (field key v rest) path =
      add_present-IsGood v key (sort_keys v (path ++ key ∷ [])) (sort_entries rest path)
        (sort_keys-Keeps v (path ++ key ∷ [])) (sort_entries-IsGood rest path)

-- A value, with the fields of an object left out.
abbrev pub outline : Json → Json
outline (obj fs) = obj end
outline v = v

abbrev Outlines : Json → Json → Type 0
Outlines v w = outline w ≡ outline v

outlined_object : (fs : Fields) (o : Outcome Fields) → Gives (Outlines (obj fs)) (as_object o)
outlined_object fs (throws i) = tt
outlined_object fs (returns gs) = refl

sort_keys-Outlines : (v : Json) (path : List String) → Gives (Outlines v) (sort_keys v path)
unfolding sort_keys
sort_keys-Outlines undefined path = refl
sort_keys-Outlines null path = refl
sort_keys-Outlines (bool b) path = refl
sort_keys-Outlines (num n) path = refl
sort_keys-Outlines (str s) path = refl
sort_keys-Outlines non_finite path = tt
sort_keys-Outlines exotic path = tt
sort_keys-Outlines (arr items) path = tt
sort_keys-Outlines (obj fs) path =
    outlined_object fs (from_sorted (sort_by entry_leb (sort_entries fs path)))

combined :
    (v : Json) (ks : List String) (o : Outcome Json)
    → Gives (Keeps v) o
    → Gives (λ w. sort_keys (value_at v ks) ks ≡ returns (value_at w ks)) o
    → Gives (λ w. (is_canonical w ≡ true) × (outline (value_at w ks) ≡ outline (value_at v ks))) o
combined v ks (throws i) h g = tt
combined v ks (returns w) h g =
    (h.0, subst (Gives (Outlines (value_at v ks))) g (sort_keys-Outlines (value_at v ks) ks))

-- In what `sortKeys` returns the keys of every object stand in order, the array indices first by number and the others as
-- texts, and no property is `undefined`. At the end of any path of keys it holds what the given value holds there: the same
-- leaf, an object where there was an object, and nothing where there was nothing. Each object of the given value has each
-- of its keys once.
pub sort_keys-canonical :
    (v : Json) (ks : List String)
    → is_json v ≡ true
    → Gives
        (λ w. (is_canonical w ≡ true) × (outline (value_at w ks) ≡ outline (value_at v ks)))
        (sort_keys v [])
sort_keys-canonical v ks h =
    combined v ks (sort_keys v []) (sort_keys-Keeps v []) (sort_keys-value_at ks v [] h)
