-- ===== src/Adapters/Sets.antt =====
-- Sets of identifiers, as `Set` keeps them: in the order of insertion.
use audr.Base.{
  ◌≡◌, refl, ap, not, ◌&&◌, ◌||◌, List, [], ◌∷◌, ◌++◌, String, str_eq, str_eq_iff, if◌then◌else◌,
  filter_by, names, names-append, arith, Bool-cases, inl, inr,
}

-- `Set.add` and `Set.delete`
unfoldable pub add_id : String → List String → List String
unfolding names
add_id id ids = if names ids id then ids else ids ++ (id ∷ [])

unfoldable pub delete_id : String → List String → List String
delete_id id ids = filter_by (λ x. not (str_eq x id)) ids

pub names-add_id :
    (id : String) (ids : List String) (x : String)
    → names (add_id id ids) x ≡ (names ids x || str_eq id x)
unfolding names add_id
names-add_id id ids x = elim (Bool-cases (str_eq id x)) [
  | inl e ↦ ground (arith, ap (names ids) ((str_eq_iff id x).0 e), names-append ids (id ∷ []) x)
  | inr e ↦ ground (arith, names-append ids (id ∷ []) x)
]

pub names-delete_id :
    (id : String) (ids : List String) (x : String)
    → names (delete_id id ids) x ≡ (names ids x && not (str_eq id x))
unfolding names delete_id
names-delete_id id [] x = refl
names-delete_id id (y ∷ ids) x = elim (Bool-cases (str_eq y id)) [
  | inl e ↦ ground (arith, ap (λ z. str_eq z x) ((str_eq_iff y id).0 e), names-delete_id id ids x)
  | inr e ↦ elim (Bool-cases (str_eq id x)) [
    | inl f ↦ ground (arith, ap (str_eq y) ((str_eq_iff id x).0 f), names-delete_id id ids x)
    | inr f ↦ ground (arith, names-delete_id id ids x)
  ]
]
