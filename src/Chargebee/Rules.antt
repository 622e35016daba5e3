-- ===== src/Chargebee/Rules.antt =====
-- What holds of an event that the Chargebee sink sends.
use Prim.Native.String
use Prim.Native.String.append.{nil as nil-append, cons as cons-append}
use audr.Base.{
  ℕ, zero, suc, ◌+◌, ◌*◌, ◌/◌, ◌%◌, ◌≤◌, ◌<◌, ◌≡◌, refl, ap, true, false, List, [], ◌∷◌, none,
  String, arith, if◌then◌else◌, is_empty, names, Bool-cases, All, ltb, ◌⊎◌, inl, inr,
}
use audr.Base.Text.{decimal, decimal_from, digit}
use audr.Base.Result.{Result, ok, error, is_blank, code_points}
use audr.Record.{Instant, pos, negsuc, nan, AudrRecord, Json}
use audr.Chargebee.Event.{
  UsageEvent, identifier, timestamp, shown, property, each_property, properties, failure,
  is_property_name, is_scalar, is_finite, reserved_property_names,
}
use audr.Chargebee.Sink.{World, encode, encode_batch, collect}
use audr.Chargebee.Sending.{OnOk, encode-OnOk}

code_points-append : (s t : String) → code_points (String.◌++◌ s t) ≡ code_points s + code_points t
unfolding code_points
code_points-append String.[] t = omega (arith, ap code_points (nil-append t))
code_points-append (String.◌∷◌ c s) t =
    omega (arith, ap code_points (cons-append c s t), code_points-append s t)

code_points-digit : (n : ℕ) → code_points (digit n) ≡ 1
unfolding code_points
code_points-digit zero = refl
code_points-digit (suc zero) = refl
code_points-digit (suc (suc zero)) = refl
code_points-digit (suc (suc (suc zero))) = refl
code_points-digit (suc (suc (suc (suc zero)))) = refl
code_points-digit (suc (suc (suc (suc (suc zero))))) = refl
code_points-digit (suc (suc (suc (suc (suc (suc zero)))))) = refl
code_points-digit (suc (suc (suc (suc (suc (suc (suc zero))))))) = refl
code_points-digit (suc (suc (suc (suc (suc (suc (suc (suc zero)))))))) = refl
code_points-digit (suc (suc (suc (suc (suc (suc (suc (suc (suc _))))))))) = refl

abbrev power : ℕ → ℕ
power zero = 1
power (suc k) = 10 * power k

-- A number of `k + 1` digits; zero has one.
abbrev HasDigits : ℕ → ℕ → Type 0
HasDigits k n = ((k ≡ 0) ⊎ (power k ≤ n)) × (n < power (suc k))

code_points-decimal_from :
    (fuel n : ℕ)
    → code_points (decimal_from (suc fuel) n)
      ≡ (if ltb n 10 then 1 else code_points (decimal_from fuel (n / 10)) + 1)
unfolding decimal_from
code_points-decimal_from fuel n = ground (
  arith,
  code_points-digit n,
  code_points-digit (n % 10),
  code_points-append (decimal_from fuel (n / 10)) (digit (n % 10)),
)

decimal_from-some : (fuel n : ℕ) → n < fuel → 1 ≤ code_points (decimal_from fuel n)
decimal_from-some zero n h = absurd (omega arith)
decimal_from-some (suc fuel) n h = ground (arith, code_points-decimal_from fuel n)

decimal_from-HasDigits :
    (fuel n k : ℕ) → n < fuel → code_points (decimal_from fuel n) ≡ suc k → HasDigits k n
decimal_from-HasDigits zero n k h e = absurd (omega arith)
decimal_from-HasDigits (suc fuel) n zero h e =
    ground (arith, code_points-decimal_from fuel n, decimal_from-some fuel (n / 10))
decimal_from-HasDigits (suc fuel) n (suc k) h e = elim (Bool-cases (ltb n 10)) [
  | inl small ↦ absurd (ground (arith, code_points-decimal_from fuel n))
  | inr big ↦
      let d =
        decimal_from-HasDigits fuel (n / 10) k (ground arith)
          (ground (arith, code_points-decimal_from fuel n)) in
      join (ground arith) d.0 d.1
]
  where
    join : 10 ≤ n → (k ≡ 0) ⊎ (power k ≤ n / 10) → n / 10 < power (suc k) → HasDigits (suc k) n
    join ten (inl e) below = (inr (omega (arith, ap power e)), omega arith)
    join ten (inr from) below = (inr (omega arith), omega arith)

decimal-HasDigits : (n k : ℕ) → code_points (decimal n) ≡ suc k → HasDigits k n
unfolding decimal
decimal-HasDigits n k h = decimal_from-HasDigits (suc n) n k (omega arith) h

-- The instants that the sink lets through: of 13 digits, or before 1970 with 12 digits and the sign.
abbrev pub IsSendableInstant : Instant → Type 0
IsSendableInstant (pos n) = (1000000000000 ≤ n) × (n < 10000000000000)
IsSendableInstant (negsuc n) = (100000000000 ≤ n + 1) × (n + 1 < 1000000000000)
IsSendableInstant nan = ⊥

timestamp-IsSendableInstant : (t : Instant) → timestamp t ≡ none → IsSendableInstant t
unfolding timestamp shown
timestamp-IsSendableInstant (pos n) h = ground (arith, decimal-HasDigits n 12)
timestamp-IsSendableInstant (negsuc n) h =
    ground (arith, decimal-HasDigits (suc n) 11, code_points-append "-" (decimal (suc n)))
timestamp-IsSendableInstant nan h = ground arith

pub record IsSendableProperty (entry : String × Json) : Type 0 where
  pub name : is_property_name entry.0 ≡ true
  pub free : names reserved_property_names entry.0 ≡ false
  pub scalar : is_scalar entry.1 ≡ true
  pub finite : is_finite entry.1 ≡ true

pub record IsSendable (e : UsageEvent) : Type 0 where
  pub subscription_present : is_blank e.subscription_id ≡ false
  pub subscription_length : code_points e.subscription_id ≤ 50
  pub id_present : is_blank e.deduplication_id ≡ false
  pub id_length : code_points e.deduplication_id ≤ 36
  pub instant : IsSendableInstant e.usage_timestamp
  pub some_property : is_empty e.properties ≡ false
  pub each : All IsSendableProperty e.properties

each_property-IsSendableProperty :
    (ps : List (String × Json)) → each_property ps ≡ none → All IsSendableProperty ps
unfolding each_property property
each_property-IsSendableProperty [] h = tt
each_property-IsSendableProperty (p ∷ ps) h = ground (arith, each_property-IsSendableProperty ps)

failure-IsSendable : (e : UsageEvent) → failure e ≡ none → IsSendable e
unfolding failure identifier properties
failure-IsSendable e h = ground (
  arith,
  timestamp-IsSendableInstant e.usage_timestamp,
  each_property-IsSendableProperty e.properties,
)

-- Whatever the batch holds, every event that the sink sends has identifiers that are not
-- blank, of at most 50 and 36 characters, and at least one property, each with a name that is allowed
-- and not reserved and a finite scalar. Of its time only the length is kept to that the code asks for: with its sign it is 13
-- characters long, so it has 13 digits if it is not before 1970, and 12 digits, which no epoch in milliseconds of today
-- has, if it is.
pub encode_batch-IsSendable :
    (world : World) (batch : List AudrRecord) → All IsSendable (encode_batch world batch).events
unfolding encode_batch collect
encode_batch-IsSendable world [] = tt
encode_batch-IsSendable world (r ∷ rs) =
    collected (encode_batch-IsSendable world rs) (encode world r)
      (encode-OnOk IsSendable world r (λ e same valid. failure-IsSendable e valid))
  where
    collected :
        All IsSendable (encode_batch world rs).events
        → (x : Result UsageEvent) → OnOk IsSendable x
        → All IsSendable (collect r x (encode_batch world rs)).events
    collected later (ok e) s = (s, later)
    collected later (error message) s = later
