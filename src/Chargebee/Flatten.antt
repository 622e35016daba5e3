-- ===== src/Chargebee/Flatten.antt =====
-- sinks/chargebee/typescript/src/flatten.ts. `JSON.stringify` is a parameter. An object keeps its entries in
-- the order in which they were put.
use Prim.Native.String
use audr.Base.{
  Bool, true, false, ◌||◌, List, [], ◌∷◌, ◌++◌, map, Option, none, some, String, str_eq,
  if◌then◌else◌, names,
}
use audr.Base.Result.{Result, ok, error, and_then, replace_all, join}
use audr.Canonical.{Properties, put, canonical}
use audr.Record.{Json, Items, Fields, undefined, exotic, str, arr, obj, end, field}

abbrev json_suffix : String
json_suffix = "json"

abbrev labels_key : String
labels_key = "labels"

unfoldable pub pointer : List String → String
unfolding replace_all join
pointer segments =
    String.◌++◌ "/" (join "/" (map (λ s. replace_all b'/' "~1" (replace_all b'~' "~0" s)) segments))

unfoldable pub not_encodable : List String → String
unfolding pointer
not_encodable path = String.◌++◌ "field at " (String.◌++◌ (pointer path) " is not JSON-encodable")

unfoldable pub rewrite_label_key : String → String
unfolding replace_all
rewrite_label_key key = replace_all b'-' "_" (replace_all b'.' "_" key)

-- Whether the loop of `rewriteLabelKeys` throws, with the names that it has put.
unfoldable pub labels_collide : List String → Fields → Bool
unfolding rewrite_label_key names
labels_collide seen end = false
labels_collide seen (field key v rest) =
    let name = rewrite_label_key key in names seen name || labels_collide (name ∷ seen) rest

module _ (stringify : Json → String) (separator : String) where
  abbrev stringified : List String → Option Json → Result Json
  stringified path none = error (not_encodable path)
  stringified path (some v) = ok (str (stringify v))

  -- `canonicalJson`
  unfoldable pub canonical_json : Items → List String → Result Json
  unfolding canonical not_encodable
  canonical_json items path = stringified path (canonical (arr items))

  abbrev guarded : Bool → List String → Result Properties → Result Properties
  guarded true path later = error (
      String.◌++◌ "labels at "
        (String.◌++◌ (pointer path) " collide once '.' and '-' are rewritten to '_'"))
  guarded false path later = later

  abbrev renamed : Bool → String → String
  renamed true key = rewrite_label_key key
  renamed false key = key

  -- `flattenInto`, over the entries of an object that are `labels` or not: `rewriteLabelKeys` renames them on the
  -- way, after its check.
  unfoldable pub flatten_into : Fields → Bool → List String → Properties → Result Properties
  unfolding canonical_json put join not_encodable labels_collide rewrite_label_key pointer
  flatten_into end labels path output = ok output
  flatten_into (field key undefined rest) labels path output = flatten_into rest labels path output
  flatten_into (field key (arr items) rest) labels path output =
      let item_path = path ++ renamed labels key ∷ [] in
      and_then (canonical_json items item_path) (λ text.
        flatten_into rest labels path
          (put (join separator (item_path ++ json_suffix ∷ [])) text output))
  flatten_into (field key (obj fs) rest) labels path output =
      let name = renamed labels key in
      let item_path = path ++ name ∷ [] in
      let is_labels = str_eq name labels_key in
      let nested = flatten_into fs is_labels item_path output in
      and_then (if is_labels then guarded (labels_collide [] fs) item_path nested else nested)
        (λ output'. flatten_into rest labels path output')
  flatten_into (field key exotic rest) labels path output =
      error (not_encodable (path ++ renamed labels key ∷ []))
  flatten_into (field key v rest) labels path output =
      flatten_into rest labels path
        (put (join separator (path ++ renamed labels key ∷ [])) v output)

  -- `flatten`
  unfoldable pub flatten : Json → Result Properties
  unfolding flatten_into
  flatten (obj fs) = flatten_into fs false [] []
  flatten _ = error "record must encode to a JSON object"
