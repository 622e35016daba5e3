-- ===== src/Codec/Encodable.antt =====
-- When `sortKeys` of adapters/core/typescript/src/codec.ts throws.
use audr.Base.{
  ◌≡◌, refl, ap, ◌∙◌, Bool, true, false, not, ◌&&◌, ◌||◌, List, [], ◌∷◌, ◌++◌, String, arith,
  Bool-cases, inl, inr,
}
use audr.Base.Text.{insert_by, sort_by}
use audr.Record.{
  Json, undefined, null, non_finite, exotic, bool, num, str, arr, obj, Fields, end, field,
}
use audr.Codec.Sorting.{
  Outcome, returns, throws, Entry, entry_leb, and_entry, from_sorted, as_object, is_undefined,
  add_present, sort_keys, sort_entries, is_thrown,
}

-- No number in it that JSON cannot represent, no array and no object that is not plain.
unfoldable mutual
  pub is_encodable : Json → Bool
  is_encodable non_finite = false
  is_encodable exotic = false
  is_encodable (arr items) = false
  is_encodable (obj fs) = are_encodable fs
  is_encodable v = true

  pub are_encodable : Fields → Bool
  are_encodable end = true
  are_encodable (field key v rest) = is_encodable v && are_encodable rest

unfoldable any_thrown : List Entry → Bool
any_thrown [] = false
any_thrown ((key, o) ∷ rest) = is_thrown o || any_thrown rest

and_entry-thrown :
    (key : String) (o : Outcome Json) (rest : Outcome Fields)
    → is_thrown (and_entry key o rest) ≡ (is_thrown o || is_thrown rest)
and_entry-thrown key (throws i) rest = refl
and_entry-thrown key (returns v) (throws i) = refl
and_entry-thrown key (returns v) (returns fs) = refl

from_sorted-thrown : (xs : List Entry) → is_thrown (from_sorted xs) ≡ any_thrown xs
unfolding from_sorted any_thrown
from_sorted-thrown [] = refl
from_sorted-thrown ((key, o) ∷ rest) =
    and_entry-thrown key o (from_sorted rest) ∙ ap (is_thrown o ||◌) (from_sorted-thrown rest)

as_object-thrown : (o : Outcome Fields) → is_thrown (as_object o) ≡ is_thrown o
as_object-thrown (throws i) = refl
as_object-thrown (returns fs) = refl

insert_by-thrown :
    (le : Entry → Entry → Bool) (key : String) (o : Outcome Json) (xs : List Entry)
    → any_thrown (insert_by le (key, o) xs) ≡ (is_thrown o || any_thrown xs)
unfolding insert_by any_thrown
insert_by-thrown le key o [] = refl
insert_by-thrown le key o ((k, p) ∷ rest) = elim (Bool-cases (le (key, o) (k, p))) [
  | inl e ↦ rw e refl
  | inr e ↦ rw e (ground (arith, insert_by-thrown le key o rest))
]

sort_by-thrown :
    (le : Entry → Entry → Bool) (xs : List Entry) → any_thrown (sort_by le xs) ≡ any_thrown xs
unfolding sort_by any_thrown
sort_by-thrown le [] = refl
sort_by-thrown le ((key, o) ∷ rest) =
    insert_by-thrown le key o (sort_by le rest) ∙ ap (is_thrown o ||◌) (sort_by-thrown le rest)

either_thrown :
    (v : Json) (key : String) (o : Outcome Json) (rest : List Entry) (b c : Bool)
    → is_thrown o ≡ not b
    → any_thrown rest ≡ not c
    → (is_undefined v ≡ true → b ≡ true)
    → any_thrown (add_present (is_undefined v) (key, o) rest) ≡ not (b && c)
unfolding any_thrown
either_thrown v key o rest b c h g u = elim (Bool-cases (is_undefined v)) [
  | inl e ↦ rw e (ground (arith, g, u e))
  | inr e ↦ rw e (ground (arith, g, h))
]

undefined_encodable : (v : Json) → is_undefined v ≡ true → is_encodable v ≡ true
unfolding is_encodable
undefined_encodable undefined e = refl
undefined_encodable null e = refl
undefined_encodable (bool b) e = refl
undefined_encodable (num n) e = refl
undefined_encodable (str s) e = refl
undefined_encodable non_finite e = absurd (ground (arith, e))
undefined_encodable exotic e = absurd (ground (arith, e))
undefined_encodable (arr items) e = absurd (ground (arith, e))
undefined_encodable (obj fs) e = absurd (ground (arith, e))

mutual
  unfolding sort_keys sort_entries is_encodable are_encodable any_thrown

  pub sort_keys-thrown :
      (v : Json) (path : List String) → is_thrown (sort_keys v path) ≡ not (is_encodable v)
  sort_keys-thrown undefined path = refl
  sort_keys-thrown null path = refl
  sort_keys-thrown (bool b) path = refl
  sort_keys-thrown (num n) path = refl
  sort_keys-thrown (str s) path = refl
  sort_keys-thrown non_finite path = refl
  sort_keys-thrown exotic path = refl
  sort_keys-thrown (arr items) path = refl
  sort_keys-thrown (obj fs) path =
      as_object-thrown (from_sorted (sort_by entry_leb (sort_entries fs path)))
      ∙ from_sorted-thrown (sort_by entry_leb (sort_entries fs path))
      ∙ sort_by-thrown entry_leb (sort_entries fs path)
      ∙ sort_entries-thrown fs path

  sort_entries-thrown :
      (fs : Fields) (path : List String)
      → any_thrown (sort_entries fs path) ≡ not (are_encodable fs)
  sort_entries-thrown end path = refl
  sort_entries-thrown (field key v rest) path =
      either_thrown v key (sort_keys v (path ++ key ∷ [])) (sort_entries rest path) (is_encodable v)
        (are_encodable rest) (sort_keys-thrown v (path ++ key ∷ [])) (sort_entries-thrown rest path)
        (undefined_encodable v)
