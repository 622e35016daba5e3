-- ===== src/Base/Text.antt =====
-- Decimal digits, and sorting as JavaScript's stable `sort` does it.
use Prim.Native.Nat.{ℕ, zero, suc, ◌+◌, ◌-◌, ◌*◌, ◌/◌, ◌%◌, Ordering}
use Prim.Native.Char.{code}
use Prim.Native.String.{String, [], ◌∷◌}
use Prim.Native.String
use mathlib.Core.Path.{◌≡◌}
use mathlib.Core.Bool.{Bool, true, false, ◌&&◌}
use mathlib.Core.Option.{Option, none, some}
use mathlib.Core.List.{List}
use mathlib.Core.Logic.{inl, inr}
use audr.Base.Tests.{ltb, leb, if◌then◌else◌, Bool-cases}
use audr.Base.Lists.{All}

abbrev pub is_digit : ℕ → Bool
is_digit c = leb b'0' c && leb c b'9'

-- A pattern that gives a class of characters for each place.
unfoldable pub matches : List (ℕ → Bool) → String → Bool
matches List.[] [] = true
matches List.[] (c ∷ s) = false
matches (List.◌∷◌ p ps) [] = false
matches (List.◌∷◌ p ps) (c ∷ s) = p (code c) && matches ps s

-- The digits after a number's first, most significant first.
unfoldable pub digits_from : ℕ → String → Option ℕ
digits_from acc [] = some acc
digits_from acc (c ∷ s) =
    let rest = digits_from (10 * acc + (code c - b'0')) s in
    if is_digit (code c) then rest else none

abbrev pub digit : ℕ → String
digit zero = "0"
digit (suc zero) = "1"
digit (suc (suc zero)) = "2"
digit (suc (suc (suc zero))) = "3"
digit (suc (suc (suc (suc zero)))) = "4"
digit (suc (suc (suc (suc (suc zero))))) = "5"
digit (suc (suc (suc (suc (suc (suc zero)))))) = "6"
digit (suc (suc (suc (suc (suc (suc (suc zero))))))) = "7"
digit (suc (suc (suc (suc (suc (suc (suc (suc zero)))))))) = "8"
digit (suc (suc (suc (suc (suc (suc (suc (suc (suc _))))))))) = "9"

unfoldable pub decimal_from : ℕ → ℕ → String
decimal_from zero n = ""
decimal_from (suc fuel) n =
    let front = decimal_from fuel (n / 10) in
    if ltb n 10 then digit n else String.◌++◌ front (digit (n % 10))

-- `String(n)`. A number has no more digits than its value plus one.
unfoldable pub decimal : ℕ → String
unfolding decimal_from
decimal n = decimal_from (suc n) n

-- The order in which `sort()` puts texts: that of their code points. (JavaScript compares UTF-16 units,
-- which differs where a character above U+FFFF meets one from U+E000 to U+FFFF.)
abbrev pub text_leb : String → String → Bool
text_leb s t = elim (String.compare s t) [ Ordering.gt ↦ false | _ ↦ true ]

module _ {ℓ} {A : Type ℓ} where
  unfoldable pub insert_by : (A → A → Bool) → A → List A → List A
  insert_by le x List.[] = List.◌∷◌ x List.[]
  insert_by le x (List.◌∷◌ y ys) =
      let later = insert_by le x ys in
      if le x y then List.◌∷◌ x (List.◌∷◌ y ys) else List.◌∷◌ y later

  unfoldable pub sort_by : (A → A → Bool) → List A → List A
  unfolding insert_by
  sort_by le List.[] = List.[]
  sort_by le (List.◌∷◌ x xs) = insert_by le x (sort_by le xs)

  -- Sorting keeps what holds of every element.
  pub All-insert_by {κ} :
      (P : A → Type κ) (le : A → A → Bool) (x : A) (xs : List A)
      → P x
      → All P xs
      → All P (insert_by le x xs)
  unfolding insert_by
  All-insert_by P le x List.[] p h = (p, tt)
  All-insert_by P le x (List.◌∷◌ y ys) p h = elim (Bool-cases (le x y)) [
    | inl e ↦ rw e (p, h)
    | inr e ↦ rw e (h.0, All-insert_by P le x ys p h.1)
  ]

  pub All-sort_by {κ} :
      (P : A → Type κ) (le : A → A → Bool) (xs : List A) → All P xs → All P (sort_by le xs)
  unfolding sort_by
  All-sort_by P le List.[] h = tt
  All-sort_by P le (List.◌∷◌ x xs) h =
      All-insert_by P le x (sort_by le xs) h.0 (All-sort_by P le xs h.1)

-- A list in the order of a test that is total and transitive.
module _ {ℓ} {A : Type ℓ} (le : A → A → Bool) where
  abbrev pub IsSorted : List A → Type ℓ
  IsSorted List.[] = Unit
  IsSorted (List.◌∷◌ x xs) = All (λ y. le x y ≡ true) xs × IsSorted xs

  module _ (total : (x y : A) → le x y ≡ false → le y x ≡ true)
      (trans : (x y z : A) → le x y ≡ true → le y z ≡ true → le x z ≡ true) where
    All-below :
        (x y : A) (ys : List A)
        → le x y ≡ true
        → All (λ z. le y z ≡ true) ys
        → All (λ z. le x z ≡ true) ys
    All-below x y List.[] h g = tt
    All-below x y (List.◌∷◌ z zs) h g = (trans x y z h g.0, All-below x y zs h g.1)

    insert_by-IsSorted : (x : A) (xs : List A) → IsSorted xs → IsSorted (insert_by le x xs)
    unfolding insert_by
    insert_by-IsSorted x List.[] h = (tt, tt)
    insert_by-IsSorted x (List.◌∷◌ y ys) h = elim (Bool-cases (le x y)) [
      | inl e ↦ rw e ((e, All-below x y ys e h.0), h)
      | inr e ↦ rw e (All-insert_by _ le x ys (total x y e) h.0, insert_by-IsSorted x ys h.1)
    ]

    pub sort_by-IsSorted : (xs : List A) → IsSorted (sort_by le xs)
    unfolding sort_by
    sort_by-IsSorted List.[] = tt
    sort_by-IsSorted (List.◌∷◌ x xs) = insert_by-IsSorted x (sort_by le xs) (sort_by-IsSorted xs)
