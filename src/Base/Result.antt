-- ===== src/Base/Result.antt =====
-- A value or the message of the error that was thrown, and texts cut into characters.
use Prim.Native.Nat.{ℕ, suc}
use Prim.Native.Char.{code}
use Prim.Native.String.{String, [], ◌∷◌}
use Prim.Native.String
use mathlib.Core.Bool.{Bool, true, false, ◌&&◌, ◌||◌}
use mathlib.Core.Option.{Option, none, some}
use mathlib.Core.List.{List}
use audr.Base.Tests.{leb, ◌==◌}

pub data Result {ℓ} (A : Type ℓ) : Type ℓ where
  ok : A → Result A
  error : String → Result A

abbrev pub and_then {ℓ κ} : {A : Type ℓ} {B : Type κ} → Result A → (A → Result B) → Result B
and_then (ok a) next = next a
and_then (error message) next = error message

-- What holds of a value, where there is one.
abbrev pub Returned {ℓ κ} : {A : Type ℓ} → (A → Type κ) → Result A → Type κ
Returned P (ok a) = P a
Returned P (error message) = Unit

-- Of two checks the first that fails.
abbrev pub or_else {ℓ} : {A : Type ℓ} → Option A → Option A → Option A
or_else none later = later
or_else (some a) later = some a

-- The white space that `trim` takes off.
abbrev pub is_space : ℕ → Bool
is_space c =
    (leb 9 c && leb c 13)
    || c == 32
    || c == 160
    || c == 5760
    || (leb 8192 c && leb c 8202)
    || c == 8232
    || c == 8233
    || c == 8239
    || c == 8287
    || c == 12288
    || c == 65279

-- `s.trim() === ''`
unfoldable pub is_blank : String → Bool
is_blank [] = true
is_blank (c ∷ s) = is_space (code c) && is_blank s

-- The length in code points.
unfoldable pub code_points : String → ℕ
code_points [] = 0
code_points (c ∷ s) = suc (code_points s)

unfoldable pub every : (ℕ → Bool) → String → Bool
every p [] = true
every p (c ∷ s) = p (code c) && every p s

-- `replaceAll`, for one character; a text stands in for each occurrence.
unfoldable pub replace_all : ℕ → String → String → String
replace_all old new [] = ""
replace_all old new (c ∷ s) =
    let rest = replace_all old new s in
    elim (code c == old) [ true ↦ String.◌++◌ new rest | false ↦ c ∷ rest ]

unfoldable pub join : String → List String → String
join sep List.[] = ""
join sep (List.◌∷◌ s List.[]) = s
join sep (List.◌∷◌ s (List.◌∷◌ t ts)) = String.◌++◌ s (String.◌++◌ sep (join sep (List.◌∷◌ t ts)))

-- `s.length`, in UTF-16 units.
unfoldable pub units : String → ℕ
units [] = 0
units (c ∷ s) = elim (leb 65536 (code c)) [ true ↦ suc (suc (units s)) | false ↦ suc (units s) ]

infixl 5 ◌>>=◌ ◌>>◌
-- Steps that each may fail.
abbrev pub ◌>>=◌ {ℓ κ} : {A : Type ℓ} {B : Type κ} → Option A → (A → Option B) → Option B
none >>= next = none
some a >>= next = next a

abbrev pub ◌>>◌ {ℓ} : {B : Type ℓ} → Option (Unit {0}) → Option B → Option B
m >> next = m >>= λ _. next

abbrev pub guard : Bool → Option (Unit {0})
guard true = some tt
guard false = none
