-- ===== src/Validate/Redaction.antt =====
-- What the issues of the validator show of a record.
use Prim.Native.String
use audr.Base.{
  ◌≡◌, sym, ap, ◌∙◌, Bool, false, List, [], ◌∷◌, ◌++◌, String, str_eq, arith, if◌then◌else◌, All,
}
use audr.Base.Result.{join, replace_all}
use audr.Record.{Json, ValidationIssue}
use audr.Validate.Issues.{
  SchemaError, caller_keyed, redacted, sink_owned, pointer, pointer_segments, SchemaIssues,
  schema_issues, sort_errors, push_issue, mistyped_paths,
}

pointer_segments-redacted :
    (keyed : Bool) (before after : List String) (k l : String)
    → str_eq k caller_keyed ≡ str_eq l caller_keyed
    → pointer_segments keyed (before ++ caller_keyed ∷ k ∷ after)
      ≡ pointer_segments keyed (before ++ caller_keyed ∷ l ∷ after)
unfolding pointer_segments
pointer_segments-redacted keyed [] after k l e =
    ap (λ b. (if keyed then redacted else caller_keyed) ∷ redacted ∷ pointer_segments b after) e
pointer_segments-redacted keyed (s ∷ before) after k l e =
    ap
      (λ rest. (if keyed then redacted else replace_all b'/' "~1" (replace_all b'~' "~0" s)) ∷ rest)
      (pointer_segments-redacted (str_eq s caller_keyed) before after k l e)

-- The path that `pointer` writes does not show the key of a label: it is the same for any two keys of `labels`, other
-- than the word `labels` itself, anywhere in the record.
pub pointer-redacted :
    (before after : List String) (k l : String)
    → str_eq k caller_keyed ≡ false
    → str_eq l caller_keyed ≡ false
    → pointer (before ++ caller_keyed ∷ k ∷ after) ≡ pointer (before ++ caller_keyed ∷ l ∷ after)
unfolding pointer pointer_segments join replace_all
pointer-redacted [] after k l e f =
    ap (λ ss. String.◌++◌ "/" (join "/" ss))
      (pointer_segments-redacted false [] after k l (e ∙ sym f))
pointer-redacted (s ∷ before) after k l e f =
    ap (λ ss. String.◌++◌ "/" (join "/" ss))
      (pointer_segments-redacted false (s ∷ before) after k l (e ∙ sym f))

pub record AreShown (s : SchemaIssues) : Type 0 where
  pub structural : All (λ (i : ValidationIssue). str_eq i.path sink_owned ≡ false) s.structural
  pub conditional : All (λ (i : ValidationIssue). str_eq i.path sink_owned ≡ false) s.conditional

sort_errors-AreShown :
    (data_ : Json) (mistyped : List String) (es : List SchemaError)
    → AreShown (sort_errors data_ mistyped es)
unfolding sort_errors push_issue
sort_errors-AreShown data_ mistyped [] = record { structural = tt; conditional = tt }
sort_errors-AreShown data_ mistyped (e ∷ es) =
    ground (arith, sort_errors-AreShown data_ mistyped es)

-- Whatever the generated validator reports, none of its failures becomes an issue at `timing.received_time`, which only a sink sets.
pub schema_issues-AreShown :
    (errors : List SchemaError) (data_ : Json) → AreShown (schema_issues errors data_)
unfolding schema_issues
schema_issues-AreShown errors data_ = sort_errors-AreShown data_ (mistyped_paths errors) errors
