-- ===== src/Canonical.antt =====
-- What flatten.ts of sinks/chargebee/typescript/src and flatten.ts of sinks/lago/typescript/src have in
-- common: writing a property, and arrays as JSON with sorted keys.
use audr.Base.{List, [], ◌∷◌, Option, none, some, String, str_eq, if◌then◌else◌}
use audr.Base.Text.{text_leb}
use audr.Record.{
  Json, Items, Fields, undefined, null, non_finite, exotic, bool, num, str, arr, obj, nil, cons,
  end, field,
}

abbrev pub Properties : Type 0
Properties = List (String × Json)

-- `output[name] = value`
unfoldable pub put : String → Json → Properties → Properties
put name value [] = (name, value) ∷ []
put name value ((k, v) ∷ rest) =
    let later = put name value rest in if str_eq k name then (k, value) ∷ rest else (k, v) ∷ later

-- An object whose keys stand in the order of their code points. The code sorts them by UTF-16 units, and the object that it
-- builds has its array indices first.
abbrev insert_field : String → Json → Fields → Fields
insert_field key v end = field key v end
insert_field key v (field k w rest) =
    let later = insert_field key v rest in
    if text_leb key k then field key v (field k w rest) else field k w later

abbrev and_field : String → Option Json → Option Fields → Option Fields
and_field key (some v) (some fs) = some (insert_field key v fs)
and_field key _ _ = none

abbrev and_item : Option Json → Option Items → Option Items
and_item (some v) (some vs) = some (cons v vs)
and_item _ _ = none

abbrev as_array : Option Items → Option Json
as_array none = none
as_array (some vs) = some (arr vs)

abbrev as_object : Option Fields → Option Json
as_object none = none
as_object (some fs) = some (obj fs)

-- `canonical`; all its errors are `not_encodable` of the one path.
unfoldable mutual
  pub canonical : Json → Option Json
  canonical undefined = none
  canonical null = some null
  canonical non_finite = none
  canonical exotic = none
  canonical (bool b) = some (bool b)
  canonical (num n) = some (num n)
  canonical (str s) = some (str s)
  canonical (arr items) = as_array (canonical_items items)
  canonical (obj fs) = as_object (canonical_fields fs)

  pub canonical_items : Items → Option Items
  canonical_items nil = some nil
  canonical_items (cons v vs) = and_item (canonical v) (canonical_items vs)

  pub canonical_fields : Fields → Option Fields
  canonical_fields end = some end
  canonical_fields (field key undefined rest) = canonical_fields rest
  canonical_fields (field key v rest) = and_field key (canonical v) (canonical_fields rest)
