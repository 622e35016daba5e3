-- ===== src/Validate/Pointer.antt =====
-- `pointer` of adapters/core/typescript/src/validate.ts, and how `toIssue` there takes a pointer apart.
use Prim.Native.Char.{Char, code}
use Prim.Native.String
use Prim.Native.String.append.{nil as nil-append, cons as cons-append}
use text.Mathlib.TextEquality.{Char-path}
use text.Mathlib.TextLemmas.{append_assoc as text_assoc, append-nil as text-nil}
use audr.Base.{
  ℕ, ◌≡◌, refl, sym, ap, ap₂, ◌∙◌, subst, Bool, true, false, not, ◌&&◌, List, [], ◌∷◌, String,
  str_eq, ◌==◌, names, map, arith, Bool-cases, inl, inr,
}
use audr.Base.Result.{replace_all, join, every}
use audr.Validate.Issues.{
  caller_keyed, pointer, pointer_segments, path_segments, unescape, replace_escape, split_from,
  tail,
}

-- How a segment is escaped.
abbrev escape : String → String
escape s = replace_all b'/' "~1" (replace_all b'~' "~0" s)

-- A character of a known code is that character.
at_char : (P : Char → Type 0) (c d : Char) → code c == code d ≡ true → P d → P c
at_char P c d e h = subst P (sym (Char-path c d (ground arith))) h

one-append : (c : Char) (s : String) → String.◌++◌ (String.◌∷◌ c "") s ≡ String.◌∷◌ c s
one-append c s = cons-append c "" s ∙ ap (String.◌∷◌ c) (nil-append s)

two-append :
    (c d : Char) (s : String)
    → String.◌++◌ (String.◌∷◌ c (String.◌∷◌ d "")) s ≡ String.◌∷◌ c (String.◌∷◌ d s)
two-append c d s = cons-append c (String.◌∷◌ d "") s ∙ ap (String.◌∷◌ c) (one-append d s)

slash-restored : (s : String) → replace_escape false b'1' "/" (escape s) ≡ replace_all b'~' "~0" s
unfolding replace_escape replace_all
slash-restored String.[] = refl
slash-restored (String.◌∷◌ c s) = elim (Bool-cases (code c == b'~')) [
  | inl e ↦
      at_char
        (λ x.
          replace_escape false b'1' "/" (escape (String.◌∷◌ x s))
          ≡ replace_all b'~' "~0" (String.◌∷◌ x s))
        c "~" e
        (ap (λ r. replace_escape false b'1' "/" (replace_all b'/' "~1" r))
            (two-append "~" "0" (replace_all b'~' "~0" s))
          ∙ ap (λ r. String.◌++◌ "~" (String.◌∷◌ "0" r)) (slash-restored s)
          ∙ one-append "~" _
          ∙ sym (two-append "~" "0" _))
  | inr e ↦ elim (Bool-cases (code c == b'/')) [
    | inl f ↦
        at_char
          (λ x.
            replace_escape false b'1' "/" (escape (String.◌∷◌ x s))
            ≡ replace_all b'~' "~0" (String.◌∷◌ x s))
          c "/" f
          (ap (replace_escape false b'1' "/") (two-append "~" "1" (escape s))
            ∙ ap (λ r. String.◌++◌ "/" r) (slash-restored s)
            ∙ one-append "/" _)
    | inr f ↦ rw (e, f, replace_escape, replace_all) (rw e (ap (String.◌∷◌ c) (slash-restored s)))
  ]
]

tilde-restored : (s : String) → replace_escape false b'0' "~" (replace_all b'~' "~0" s) ≡ s
unfolding replace_escape replace_all
tilde-restored String.[] = refl
tilde-restored (String.◌∷◌ c s) = elim (Bool-cases (code c == b'~')) [
  | inl e ↦
      at_char
        (λ x.
          replace_escape false b'0' "~" (replace_all b'~' "~0" (String.◌∷◌ x s)) ≡ String.◌∷◌ x s)
        c "~" e
        (ap (replace_escape false b'0' "~") (two-append "~" "0" (replace_all b'~' "~0" s))
          ∙ ap (String.◌++◌ "~") (tilde-restored s)
          ∙ one-append "~" s)
  | inr e ↦ rw (e, replace_escape, replace_all) (rw e (ap (String.◌∷◌ c) (tilde-restored s)))
]

unescape-escape : (s : String) → unescape (escape s) ≡ s
unfolding unescape
unescape-escape s = ap (replace_escape false b'0' "~") (slash-restored s) ∙ tilde-restored s

-- An escaped segment has no slash.
abbrev is_plain : ℕ → Bool
is_plain c = not (c == b'/')

and_split : (a b c d : Bool) → d ≡ (b && c) → (a && d) ≡ ((a && b) && c)
and_split a b c d h = ground (arith, h)

every-append :
    (s t : String) → every is_plain (String.◌++◌ s t) ≡ (every is_plain s && every is_plain t)
unfolding every
every-append String.[] t = ap (every is_plain) (nil-append t)
every-append (String.◌∷◌ c s) t =
    ap (every is_plain) (cons-append c s t)
    ∙ and_split (is_plain (code c)) (every is_plain s) (every is_plain t) _ (every-append s t)

slash-replaced : (s : String) → every is_plain (replace_all b'/' "~1" s) ≡ true
unfolding replace_all every
slash-replaced String.[] = refl
slash-replaced (String.◌∷◌ c s) = elim (Bool-cases (code c == b'/')) [
  | inl e ↦
      rw (e, every, replace_all) (every-append "~1" (replace_all b'/' "~1" s) ∙ slash-replaced s)
  | inr e ↦ rw (e, every, replace_all) (ground (arith, slash-replaced s))
]

grown :
    (done : String) (c : Char) (s : String)
    → String.◌++◌ (String.◌++◌ done (String.◌∷◌ c "")) s ≡ String.◌++◌ done (String.◌∷◌ c s)
grown done c s = text_assoc done (String.◌∷◌ c "") s ∙ ap (String.◌++◌ done) (one-append c s)

split_from-next :
    (done : String) (c : Char) (s : String)
    → is_plain (code c) ≡ true
    → split_from done (String.◌∷◌ c s) ≡ split_from (String.◌++◌ done (String.◌∷◌ c "")) s
unfolding split_from
split_from-next done c s h = ground (arith, h)

split_from-plain :
    (done s rest : String)
    → every is_plain s ≡ true
    → split_from done (String.◌++◌ s (String.◌∷◌ "/" rest))
      ≡ String.◌++◌ done s ∷ split_from "" rest
unfolding split_from every
split_from-plain done String.[] rest h =
    ap (split_from done) (nil-append (String.◌∷◌ "/" rest))
    ∙ ap (λ d. d ∷ split_from "" rest) (sym (text-nil done))
split_from-plain done (String.◌∷◌ c s) rest h =
    ap (split_from done) (cons-append c s (String.◌∷◌ "/" rest))
    ∙ split_from-next done c (String.◌++◌ s (String.◌∷◌ "/" rest)) (ground (arith, h))
    ∙ split_from-plain (String.◌++◌ done (String.◌∷◌ c "")) s rest (ground (arith, h))
    ∙ ap (λ d. d ∷ split_from "" rest) (grown done c s)

split_from-last :
    (done s : String) → every is_plain s ≡ true → split_from done s ≡ String.◌++◌ done s ∷ []
unfolding split_from every
split_from-last done String.[] h = ap (λ d. d ∷ []) (sym (text-nil done))
split_from-last done (String.◌∷◌ c s) h =
    split_from-next done c s (ground (arith, h))
    ∙ split_from-last (String.◌++◌ done (String.◌∷◌ c "")) s (ground (arith, h))
    ∙ ap (λ d. d ∷ []) (grown done c s)

split-join :
    (s : String) (path : List String)
    → split_from "" (join "/" (map escape (s ∷ path))) ≡ map escape (s ∷ path)
unfolding join
split-join s [] =
    split_from-last "" (escape s) (slash-replaced _) ∙ ap (λ d. d ∷ []) (nil-append (escape s))
split-join s (t ∷ path) =
    ap (λ r. split_from "" (String.◌++◌ (escape s) r)) (one-append "/" _)
    ∙ split_from-plain "" (escape s) _ (slash-replaced _)
    ∙ ap₂ (λ d ds. d ∷ ds) (nil-append (escape s)) (split-join t path)

pointer_segments-plain :
    (path : List String)
    → names path caller_keyed ≡ false
    → pointer_segments false path ≡ map escape path
unfolding pointer_segments names
pointer_segments-plain [] h = refl
pointer_segments-plain (s ∷ path) h =
    let plain : str_eq s caller_keyed ≡ false = ground (arith, h) in
    let rest : names path caller_keyed ≡ false = ground (arith, h) in
    ap (λ r. escape s ∷ r)
      (ap (λ b. pointer_segments b path) plain ∙ pointer_segments-plain path rest)

unescape-all : (path : List String) → map unescape (map escape path) ≡ path
unescape-all [] = refl
unescape-all (s ∷ path) = ap₂ (λ t ts. t ∷ ts) (unescape-escape s) (unescape-all path)

-- Reading a path back gives the segments that it was written from, whatever slashes and tildes they have, when there
-- is at least one and none of them is `labels`.
pub pointer-roundtrip :
    (s : String) (path : List String)
    → names (s ∷ path) caller_keyed ≡ false
    → path_segments (pointer (s ∷ path)) ≡ s ∷ path
unfolding path_segments pointer split_from
pointer-roundtrip s path h =
    ap (λ t. map unescape (tail (split_from "" t)))
      (one-append "/" (join "/" (pointer_segments false (s ∷ path))))
    ∙ ap (map unescape) (
        ap (λ ss. split_from "" (join "/" ss)) (pointer_segments-plain (s ∷ path) h)
        ∙ split-join s path)
    ∙ unescape-all (s ∷ path)
