-- ===== src/Codec/Lookup.antt =====
-- `sortKeys` of adapters/core/typescript/src/codec.ts keeps the value of every key.
use audr.Base.{
  if-case, ◌≡◌, refl, sym, ap, ◌∙◌, subst, Bool, true, false, not, ◌&&◌, ◌||◌, List, [], ◌∷◌, ◌++◌,
  append_assoc, append-nil, String, str_eq, str_eq_iff, if◌then◌else◌, arith, Bool-cases, inl, inr,
}
use audr.Base.Text.{insert_by, sort_by}
use audr.Record.{
  Json, undefined, null, non_finite, exotic, bool, num, str, arr, obj, Fields, end, field, value_of,
  get,
}
use audr.Validate.Issues.{value_at}
use audr.Codec.Keys.{key_leb, key_leb_refl, value_of-add_entry}
use audr.Codec.Sorting.{
  Outcome, returns, throws, Entry, entry_leb, and_entry, from_sorted, as_object, is_undefined,
  add_present, sort_keys, sort_entries, find_entry, Gives,
}

unfoldable pub has_key : Fields → String → Bool
has_key end q = false
has_key (field k v rest) q = str_eq k q || has_key rest q

-- In every object within it each key occurs once.
unfoldable mutual
  unfolding has_key

  pub is_json : Json → Bool
  is_json (obj fs) = are_json fs
  is_json v = true

  pub are_json : Fields → Bool
  are_json end = true
  are_json (field key v rest) = is_json v && not (has_key rest key) && are_json rest

all_three : (a b c : Bool) → (a && b && c) ≡ true → (a ≡ true) × (b ≡ true) × (c ≡ true)
all_three true true true h = (refl, refl, refl)
all_three true true false h = absurd (ground (arith, h))
all_three true false c h = absurd (ground (arith, h))
all_three false b c h = absurd (ground (arith, h))

abbrev OnceEach : String → Json → Fields → Type 0
OnceEach key v rest = (is_json v ≡ true) × (not (has_key rest key) ≡ true) × (are_json rest ≡ true)

once_each :
    (key : String) (v : Json) (rest : Fields)
    → are_json (field key v rest) ≡ true
    → OnceEach key v rest
unfolding are_json
once_each key v rest h = all_three (is_json v) (not (has_key rest key)) (are_json rest) h

find-insert_by :
    (key : String) (o : Outcome Json) (xs : List Entry) (q : String)
    → find_entry (insert_by entry_leb (key, o) xs) q ≡ (if str_eq key q then o else find_entry xs q)
unfolding insert_by find_entry
find-insert_by key o [] q = refl
find-insert_by key o ((k, p) ∷ rest) q = elim (Bool-cases (key_leb key k)) [
  | inl e ↦ rw e refl
  | inr e ↦ elim (Bool-cases (str_eq k q)) [
    | inl f ↦ elim (Bool-cases (str_eq key q)) [
      | inl g ↦
          let s : key_leb k k ≡ false =
            subst (λ x. key_leb x k ≡ false) ((str_eq_iff key q).0 g ∙ sym ((str_eq_iff k q).0 f))
              e in
          absurd (ground (arith, s, key_leb_refl k))
      | inr g ↦ rw e (ground (arith, f, g))
    ]
    | inr f ↦ rw e (ground (arith, f, find-insert_by key o rest q))
  ]
]

find-sort_by :
    (xs : List Entry) (q : String) → find_entry (sort_by entry_leb xs) q ≡ find_entry xs q
unfolding sort_by find_entry
find-sort_by [] q = refl
find-sort_by ((key, o) ∷ rest) q =
    find-insert_by key o (sort_by entry_leb rest) q
    ∙ ap (λ r. if str_eq key q then o else r) (find-sort_by rest q)

find-and_entry :
    (key : String) (v : Json) (found : Outcome Json) (rest : Outcome Fields) (q : String)
    → Gives (λ fs. found ≡ returns (value_of fs q)) rest
    → Gives
        (λ fs. (if str_eq key q then returns v else found) ≡ returns (value_of fs q))
        (and_entry key (returns v) rest)
find-and_entry key v found (throws i) q h = tt
find-and_entry key v found (returns fs) q h = elim (Bool-cases (str_eq key q)) [
  | inl e ↦ rw e (ap returns (sym (ground (arith, value_of-add_entry key v fs q))))
  | inr e ↦ rw e (h ∙ ap returns (sym (ground (arith, value_of-add_entry key v fs q))))
]

find-from_sorted :
    (xs : List Entry) (q : String)
    → Gives (λ fs. find_entry xs q ≡ returns (value_of fs q)) (from_sorted xs)
unfolding from_sorted find_entry value_of
find-from_sorted [] q = refl
find-from_sorted ((key, throws i) ∷ rest) q = tt
find-from_sorted ((key, returns v) ∷ rest) q =
    find-and_entry key v (find_entry rest q) (from_sorted rest) q (find-from_sorted rest q)

value_of-absent : (fs : Fields) (q : String) → has_key fs q ≡ false → value_of fs q ≡ undefined
unfolding has_key value_of
value_of-absent end q h = refl
value_of-absent (field k v rest) q h = ground (arith, h, value_of-absent rest q)

is_undefined-path : (v : Json) → is_undefined v ≡ true → v ≡ undefined
is_undefined-path undefined e = refl
is_undefined-path null e = absurd (ground (arith, e))
is_undefined-path (bool b) e = absurd (ground (arith, e))
is_undefined-path (num n) e = absurd (ground (arith, e))
is_undefined-path (str s) e = absurd (ground (arith, e))
is_undefined-path non_finite e = absurd (ground (arith, e))
is_undefined-path exotic e = absurd (ground (arith, e))
is_undefined-path (arr items) e = absurd (ground (arith, e))
is_undefined-path (obj fs) e = absurd (ground (arith, e))

find-add_present :
    (b : Bool) (key : String) (o : Outcome Json) (rest : List Entry) (q : String)
    → find_entry (add_present b (key, o) rest) q
      ≡ (if not b && str_eq key q then o else find_entry rest q)
unfolding find_entry
find-add_present true key o rest q = refl
find-add_present false key o rest q = refl

find-sort_entries :
    (fs : Fields) (path : List String) (q : String)
    → are_json fs ≡ true
    → find_entry (sort_entries fs path) q ≡ sort_keys (value_of fs q) (path ++ q ∷ [])
unfolding sort_entries find_entry value_of are_json sort_keys has_key
find-sort_entries end path q h = refl
find-sort_entries (field key v rest) path q h =
    find-add_present (is_undefined v) key (sort_keys v (path ++ key ∷ [])) (sort_entries rest path)
      q
    ∙ elim (Bool-cases (str_eq key q)) [
      | inl e ↦ elim (Bool-cases (is_undefined v)) [
        | inl f ↦
            let same = (str_eq_iff key q).0 e in
            let once : has_key rest q ≡ false =
              subst (λ x. has_key rest x ≡ false) same
                (ground (arith, (once_each key v rest h).1)) in
            rw (e, f)
              (find-sort_entries rest path q (once_each key v rest h).2
                ∙ ap (λ x. sort_keys x (path ++ q ∷ []))
                    (value_of-absent rest q once ∙ sym (is_undefined-path v f)))
        | inr f ↦ rw (e, f) (ap (λ x. sort_keys v (path ++ x ∷ [])) ((str_eq_iff key q).0 e))
      ]
      | inr e ↦ elim (Bool-cases (is_undefined v)) [
        | inl f ↦ rw (e, f) (find-sort_entries rest path q (once_each key v rest h).2)
        | inr f ↦ rw (e, f) (find-sort_entries rest path q (once_each key v rest h).2)
      ]
    ]

as_object-Gives :
    (P : Json → Type 0) (o : Outcome Fields) → Gives (λ fs. P (obj fs)) o → Gives P (as_object o)
as_object-Gives P (throws i) h = tt
as_object-Gives P (returns fs) h = h

Gives-map :
    {A : Type 0} (P Q : A → Type 0)
    → ((a : A) → P a → Q a)
    → (o : Outcome A) → Gives P o
    → Gives Q o
Gives-map P Q f (throws i) h = tt
Gives-map P Q f (returns a) h = f a h

sort_keys-get :
    (v : Json) (path : List String) (q : String)
    → is_json v ≡ true
    → Gives (λ w. sort_keys (get v q) (path ++ q ∷ []) ≡ returns (get w q)) (sort_keys v path)
unfolding sort_keys get is_json
sort_keys-get undefined path q h = refl
sort_keys-get null path q h = refl
sort_keys-get (bool b) path q h = refl
sort_keys-get (num n) path q h = refl
sort_keys-get (str s) path q h = refl
sort_keys-get non_finite path q h = tt
sort_keys-get exotic path q h = tt
sort_keys-get (arr items) path q h = tt
sort_keys-get (obj fs) path q h =
    let entries = sort_entries fs path in
    let found : find_entry (sort_by entry_leb entries) q
        ≡ sort_keys (value_of fs q) (path ++ q ∷ []) =
      find-sort_by entries q ∙ find-sort_entries fs path q h in
    as_object-Gives (λ w. sort_keys (value_of fs q) (path ++ q ∷ []) ≡ returns (get w q))
      (from_sorted (sort_by entry_leb entries))
      (Gives-map (λ gs. find_entry (sort_by entry_leb entries) q ≡ returns (value_of gs q))
        (λ gs. sort_keys (value_of fs q) (path ++ q ∷ []) ≡ returns (value_of gs q))
        (λ gs e. sym found ∙ e) (from_sorted (sort_by entry_leb entries))
        (find-from_sorted (sort_by entry_leb entries) q))

value_of-IsJson : (fs : Fields) (q : String) → are_json fs ≡ true → is_json (value_of fs q) ≡ true
unfolding value_of are_json
value_of-IsJson end q h = refl
value_of-IsJson (field k v rest) q h =
    if-case (λ x. is_json x ≡ true) (str_eq k q) v (value_of rest q) (λ e. (once_each k v rest h).0)
      (λ e. value_of-IsJson rest q (once_each k v rest h).2)

get-IsJson : (v : Json) (q : String) → is_json v ≡ true → is_json (get v q) ≡ true
unfolding get is_json
get-IsJson (obj fs) q h = value_of-IsJson fs q h
get-IsJson undefined q h = refl
get-IsJson null q h = refl
get-IsJson (bool b) q h = refl
get-IsJson (num n) q h = refl
get-IsJson (str s) q h = refl
get-IsJson non_finite q h = refl
get-IsJson exotic q h = refl
get-IsJson (arr items) q h = refl

Gives-itself : (o : Outcome Json) → Gives (λ w. o ≡ returns w) o
Gives-itself (throws i) = tt
Gives-itself (returns w) = refl

walk :
    (v : Json) (key : String) (ks path : List String) (o : Outcome Json)
    → Gives (λ w. sort_keys (get v key) (path ++ key ∷ []) ≡ returns (get w key)) o
    → Gives
        (λ w.
          sort_keys (value_at (get v key) ks) ((path ++ key ∷ []) ++ ks) ≡ returns (value_at w ks))
        (sort_keys (get v key) (path ++ key ∷ []))
    → Gives
        (λ w.
          sort_keys (value_at v (key ∷ ks)) (path ++ key ∷ ks) ≡ returns (value_at w (key ∷ ks)))
        o
unfolding value_at
walk v key ks path (throws i) h g = tt
walk v key ks path (returns w) h g =
    ap (sort_keys (value_at (get v key) ks)) (sym (append_assoc path (key ∷ []) ks))
    ∙ subst
        (Gives (λ u.
          sort_keys (value_at (get v key) ks) ((path ++ key ∷ []) ++ ks) ≡ returns (value_at u ks)))
        h g

pub sort_keys-value_at :
    (ks : List String) (v : Json) (path : List String)
    → is_json v ≡ true
    → Gives
        (λ w. sort_keys (value_at v ks) (path ++ ks) ≡ returns (value_at w ks))
        (sort_keys v path)
unfolding value_at
sort_keys-value_at [] v path h =
    subst (λ p. Gives (λ w. sort_keys v p ≡ returns w) (sort_keys v path)) (sym (append-nil path))
      (Gives-itself (sort_keys v path))
sort_keys-value_at (key ∷ ks) v path h =
    walk v key ks path (sort_keys v path) (sort_keys-get v path key h)
      (sort_keys-value_at ks (get v key) (path ++ key ∷ []) (get-IsJson v key h))
