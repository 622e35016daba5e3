-- ===== src/Validate/Dedupe.antt =====
-- `dedupe` of adapters/core/typescript/src/validate.ts.
use audr.Base.{
  ◌≡◌, refl, ap, is_empty, Bool, true, not, ◌&&◌, List, [], ◌∷◌, map, String, str_eq, str_eq_iff,
  str_eq_refl, names, arith, Bool-cases, inl, inr,
}
use audr.Record.{ValidationIssue}
use audr.Validate.Checks.{issue_key, dedupe_from, dedupe}

unfoldable pub are_distinct : List String → Bool
unfolding names
are_distinct [] = true
are_distinct (k ∷ ks) = not (names ks k) && are_distinct ks

pub empty-dedupe : (xs : List ValidationIssue) → is_empty (dedupe xs) ≡ is_empty xs
unfolding dedupe names
empty-dedupe [] = refl
empty-dedupe (x ∷ xs) = refl

-- Of what was seen before nothing is left, and all else is.
dedupe_from-names :
    (seen : List String) (issues : List ValidationIssue) (k : String)
    → names (map issue_key (dedupe_from seen issues)) k
      ≡ (not (names seen k) && names (map issue_key issues) k)
unfolding dedupe_from names
dedupe_from-names seen [] k = ground arith
dedupe_from-names seen (i ∷ issues) k = elim (Bool-cases (str_eq (issue_key i) k)) [
  | inl e ↦
      let same = ap (names seen) ((str_eq_iff (issue_key i) k).0 e) in
      elim (Bool-cases (names seen (issue_key i))) [
        | inl f ↦ ground (arith, e, f, same, dedupe_from-names seen issues k)
        | inr f ↦ ground (arith, e, f, same)
      ]
  | inr e ↦ elim (Bool-cases (names seen (issue_key i))) [
    | inl f ↦ ground (arith, e, f, dedupe_from-names seen issues k)
    | inr f ↦ ground (arith, e, f, dedupe_from-names (issue_key i ∷ seen) issues k)
  ]
]

pub dedupe_from-distinct :
    (seen : List String) (issues : List ValidationIssue)
    → are_distinct (map issue_key (dedupe_from seen issues)) ≡ true
unfolding dedupe_from are_distinct names
dedupe_from-distinct seen [] = refl
dedupe_from-distinct seen (i ∷ issues) = elim (Bool-cases (names seen (issue_key i))) [
  | inl f ↦ rw f (dedupe_from-distinct seen issues)
  | inr f ↦ rw f (
      let self = str_eq_refl (issue_key i) in
      ground (
        arith,
        self,
        dedupe_from-names (issue_key i ∷ seen) issues (issue_key i),
        dedupe_from-distinct (issue_key i ∷ seen) issues,
      ))
]
