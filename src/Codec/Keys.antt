-- ===== src/Codec/Keys.antt =====
-- The order of keys that codec.ts of adapters/core/typescript/src relies on: `<` of texts, by UTF-16 units, and the order in which an
-- object has its keys, whatever order they were written in: the array indices first, by number.
use Prim.Native.Char.{code}
use audr.Base.{
  ℕ, ◌+◌, ◌-◌, ◌/◌, ◌%◌, ◌≡◌, refl, sym, ◌∙◌, subst, Bool, true, false, ◌&&◌, ◌||◌, List, [], ◌∷◌,
  Option, none, some, String, str_eq, str_eq_iff, ltb, leb, ◌==◌, if◌then◌else◌, arith, Bool-cases,
  inl, inr,
}
use audr.Base.Text.{digits_from, decimal}
use audr.Record.{Json, Fields, end, field, value_of}

-- The UTF-16 units of a text.
unfoldable pub units_of : String → List ℕ
units_of String.[] = []
units_of (String.◌∷◌ c s) =
    let rest = units_of s in
    if ltb (code c) 65536
    then code c ∷ rest
    else (55296 + (code c - 65536) / 1024) ∷ (56320 + (code c - 65536) % 1024) ∷ rest

unfoldable units_leb : List ℕ → List ℕ → Bool
units_leb [] ys = true
units_leb (x ∷ xs) [] = false
units_leb (x ∷ xs) (y ∷ ys) = let later = units_leb xs ys in ltb x y || (x == y && later)

-- `a < b`, or the same text.
unfoldable pub key_leb : String → String → Bool
unfolding units_of units_leb
key_leb s t = units_leb (units_of s) (units_of t)

units_leb_refl : (xs : List ℕ) → units_leb xs xs ≡ true
unfolding units_leb
units_leb_refl [] = refl
units_leb_refl (x ∷ xs) = ground (arith, units_leb_refl xs)

units_leb_trans :
    (xs ys zs : List ℕ) → units_leb xs ys ≡ true → units_leb ys zs ≡ true → units_leb xs zs ≡ true
unfolding units_leb
units_leb_trans [] ys zs h g = refl
units_leb_trans (x ∷ xs) [] zs h g = absurd (ground (arith, h))
units_leb_trans (x ∷ xs) (y ∷ ys) [] h g = absurd (ground (arith, g))
units_leb_trans (x ∷ xs) (y ∷ ys) (z ∷ zs) h g = ground (arith, units_leb_trans xs ys zs)

units_leb_total : (xs ys : List ℕ) → units_leb xs ys ≡ false → units_leb ys xs ≡ true
unfolding units_leb
units_leb_total [] ys h = absurd (ground (arith, h))
units_leb_total (x ∷ xs) [] h = refl
units_leb_total (x ∷ xs) (y ∷ ys) h = ground (arith, units_leb_total xs ys)

pub key_leb_refl : (s : String) → key_leb s s ≡ true
unfolding key_leb
key_leb_refl s = units_leb_refl (units_of s)

pub key_leb_trans : (s t u : String) → key_leb s t ≡ true → key_leb t u ≡ true → key_leb s u ≡ true
unfolding key_leb
key_leb_trans s t u = units_leb_trans (units_of s) (units_of t) (units_of u)

pub key_leb_total : (s t : String) → key_leb s t ≡ false → key_leb t s ≡ true
unfolding key_leb
key_leb_total s t = units_leb_total (units_of s) (units_of t)

abbrev canonical_index : String → Option ℕ → Option ℕ
canonical_index key none = none
canonical_index key (some n) = if str_eq (decimal n) key && ltb n 4294967295 then some n else none

-- The number of a key that is an array index.
unfoldable pub index_of : String → Option ℕ
unfolding digits_from
index_of key = canonical_index key (digits_from 0 key)

-- A new key stands before one that the object has.
abbrev pub stands_before : Option ℕ → Option ℕ → Bool
stands_before none none = true
stands_before none (some m) = false
stands_before (some n) none = true
stands_before (some n) (some m) = leb n m

-- An object with one more entry, which was written before the others.
unfoldable pub add_entry : String → Json → Fields → Fields
unfolding index_of
add_entry key v end = field key v end
add_entry key v (field k w rest) =
    let later = add_entry key v rest in
    if stands_before (index_of key) (index_of k)
    then field key v (field k w rest)
    else field k w later

-- `Object.fromEntries`, of entries whose keys differ.
unfoldable pub from_entries : List (String × Json) → Fields
unfolding add_entry
from_entries [] = end
from_entries ((key, v) ∷ rest) = add_entry key v (from_entries rest)

stands_before_refl : (o : Option ℕ) → stands_before o o ≡ true
stands_before_refl none = refl
stands_before_refl (some n) = ground arith

value_of-skip :
    (key : String) (v : Json) (k : String) (w : Json) (rest : Fields) (q : String)
    → stands_before (index_of key) (index_of k) ≡ false
    → value_of (add_entry key v rest) q ≡ (if str_eq key q then v else value_of rest q)
    → value_of (field k w (add_entry key v rest)) q
      ≡ (if str_eq key q then v else value_of (field k w rest) q)
unfolding value_of
value_of-skip key v k w rest q e h = elim (Bool-cases (str_eq k q)) [
  | inl f ↦ elim (Bool-cases (str_eq key q)) [
    | inl g ↦
        let s : stands_before (index_of k) (index_of k) ≡ false =
          subst (λ x. stands_before (index_of x) (index_of k) ≡ false)
            ((str_eq_iff key q).0 g ∙ sym ((str_eq_iff k q).0 f)) e in
        absurd (ground (arith, s, stands_before_refl (index_of k)))
    | inr g ↦ ground (arith, h)
  ]
  | inr f ↦ ground (arith, h)
]

pub value_of-add_entry :
    (key : String) (v : Json) (fs : Fields) (q : String)
    → value_of (add_entry key v fs) q ≡ (if str_eq key q then v else value_of fs q)
unfolding add_entry value_of
value_of-add_entry key v end q = refl
value_of-add_entry key v (field k w rest) q =
    elim (Bool-cases (stands_before (index_of key) (index_of k))) [
      | inl e ↦ rw e refl
      | inr e ↦ rw e (value_of-skip key v k w rest q e (value_of-add_entry key v rest q))
    ]
