-- ===== src/Lago/Retry.antt =====
-- sinks/lago/typescript/src/retry.ts: the delay that a response asks for. `Date.parse` and the headers are
-- parameters. `Number.parseInt` is exact here; JavaScript rounds from 2 ^ 53 on.
use Prim.Native.Char.{code}
use audr.Base.{
  ℕ, ◌-◌, ◌*◌, max, Bool, ◌&&◌, List, [], ◌∷◌, ◌++◌, Option, none, some, String, leb, ◌==◌,
  if◌then◌else◌,
}
use audr.Base.Text.{is_digit, digits_from, matches}
use audr.Base.Result.{is_space, is_blank}
use audr.Record.{Instant, pos, negsuc, nan}

unfoldable pub trim_start : String → String
trim_start String.[] = ""
trim_start (String.◌∷◌ c s) =
    let later = trim_start s in if is_space (code c) then later else String.◌∷◌ c s

unfoldable pub trim_end : String → String
unfolding is_blank
trim_end String.[] = ""
trim_end (String.◌∷◌ c s) =
    let later = trim_end s in if is_blank (String.◌∷◌ c s) then "" else String.◌∷◌ c later

-- `DELAY_SECONDS` of the text, as its number.
unfoldable pub delay_seconds : String → Option ℕ
unfolding digits_from
delay_seconds String.[] = none
delay_seconds (String.◌∷◌ c s) = digits_from 0 (String.◌∷◌ c s)

abbrev in_ms : Option ℕ → Option ℕ
in_ms none = none
in_ms (some n) = some (n * 1000)

unfoldable pub parse_delay_seconds : Option String → Option ℕ
unfolding delay_seconds trim_start trim_end
parse_delay_seconds none = none
parse_delay_seconds (some value) = in_ms (delay_seconds (trim_end (trim_start value)))

abbrev is_upper : ℕ → Bool
is_upper c = leb b'A' c && leb c b'Z'

abbrev is_lower : ℕ → Bool
is_lower c = leb b'a' c && leb c b'z'

abbrev is : ℕ → ℕ → Bool
is d c = c == d

abbrev word : List (ℕ → Bool)
word = is_upper ∷ is_lower ∷ is_lower ∷ []

abbrev two_digits : List (ℕ → Bool)
two_digits = is_digit ∷ is_digit ∷ []

-- `IMF_FIXDATE`
abbrev imf_fixdate : List (ℕ → Bool)
imf_fixdate =
    word
    ++ is b',' ∷ is b' ' ∷ two_digits
    ++ is b' ' ∷ word
    ++ is b' ' ∷ two_digits
    ++ two_digits
    ++ is b' ' ∷ two_digits
    ++ is b':' ∷ two_digits
    ++ is b':' ∷ two_digits
    ++ is b' ' ∷ is b'G' ∷ is b'M' ∷ is b'T' ∷ []

-- `Math.max(0, at - now)`
abbrev pub from_now : ℕ → Instant → Option ℕ
from_now now (pos at) = some (at - now)
from_now now (negsuc at) = some 0
from_now now nan = none

module _ (parse_date : String → Instant) (now : ℕ) where
  unfoldable pub parse_trimmed : String → Option ℕ
  unfolding delay_seconds matches
  parse_trimmed s = elim (delay_seconds s) [
    | some n ↦ some (n * 1000)
    | none ↦ if matches imf_fixdate s then from_now now (parse_date s) else none
  ]

  -- `parseRetryAfterMs`
  unfoldable pub parse_retry_after : Option String → Option ℕ
  unfolding parse_trimmed trim_start trim_end
  parse_retry_after none = none
  parse_retry_after (some value) = parse_trimmed (trim_end (trim_start value))

  -- The maximum of the hints that are there.
  abbrev pub longest : Option ℕ → Option ℕ → Option ℕ
  longest none b = b
  longest (some a) none = some a
  longest (some a) (some b) = some (max a b)

  -- `retryHintMs`, of the two headers.
  unfoldable pub retry_hint : ℕ → Option String → Option String → Option ℕ
  unfolding parse_retry_after parse_delay_seconds
  retry_hint status retry_after reset =
      longest (parse_retry_after retry_after)
        (if status == 429 then parse_delay_seconds reset else none)
