-- ===== src/Lago/Posts.antt =====
-- sinks/lago/typescript/src: what the requests and their answers alone say of an identifier, whatever
-- the sink makes of them: a response `200` to a request with the event, or a `422` that names the event as a duplicate.
use audr.Base.{
  ℕ, zero, suc, ◌≡◌, refl, sym, subst, ap, ◌∙◌, ◌-◌, Bool, true, false, not, ◌&&◌, ◌||◌, List, [],
  ◌∷◌, ◌++◌, Option, none, some, String, str_eq, arith, ◌==◌, if◌then◌else◌, length, take, is_empty,
  names, names-append, Bool-cases, inl, inr, if-case, ltb,
}
use audr.Record.{Json, undefined}
use audr.Lago.Event.{LagoEvent}
use audr.Lago.Tally.{Stop, Tally, ids, confirm, reject, refuse, halt, stopped}
use audr.Lago.Response.{
  StatusClass, classify_status, ValidationVerdict, parse_validation_errors, exceeds_batch_limit,
  is_transient,
}
use audr.Lago.Sink.{
  World, Reply, closed_error, aborted_error, network_error, response, Post, Exchange, accepted,
  invalid, stop, Attempt, post, done, retry, respond, attempt, is_undefined, or_invalid, mentions,
  refusal_at, settle_event, salvage, Sent, act_on, on_invalid, on_exchange, exchange, exchange_from,
  deliver_chunk, deliver_from, halt_by, max_salvage_passes, max_events_per_request,
}

abbrev is_none : Option String → Bool
is_none none = true
is_none (some _) = false

module _ (id : String) where
  -- The answer names the event as a duplicate, and does not refuse it.
  unfoldable pub is_duplicate : ValidationVerdict → ℕ → List LagoEvent → Bool
  is_duplicate v i [] = false
  is_duplicate v i (e ∷ es) =
      (str_eq e.transaction_id id && (is_none (refusal_at v.invalid i) && mentions v.duplicates i))
      || is_duplicate v (suc i) es

  abbrev pub names_duplicate : Option ValidationVerdict → List LagoEvent → Bool
  names_duplicate none es = false
  names_duplicate (some v) es = is_duplicate v 0 es

  -- The body of a `422` says so, of a request with these events.
  unfoldable pub says_held : Bool → Json → List LagoEvent → Bool
  says_held may_salvage body es =
      may_salvage
      && (not (exceeds_batch_limit body)
          && names_duplicate (parse_validation_errors body (length es)) es)

  unfoldable pub holds : Reply → Bool → List LagoEvent → Bool
  holds (response status body) may_salvage es =
      if status == 200
      then names (ids es) id
      else if status == 422
      then says_held may_salvage body es
      else false
  holds _ may_salvage es = false

  -- One of the requests was answered so.
  unfoldable pub is_held : List Post → Bool
  is_held [] = false
  is_held (p ∷ ps) = holds p.reply p.may_salvage p.events || is_held ps

  is_held-append :
      (ps : List Post) (p : Post)
      → is_held (ps ++ p ∷ []) ≡ (is_held ps || holds p.reply p.may_salvage p.events)
  unfolding is_held
  is_held-append [] p = ground arith
  is_held-append (q ∷ ps) p = ground (arith, is_held-append ps p)

  module _ (may_salvage : Bool) (es : List LagoEvent) where
    abbrev gain : Exchange → Bool
    gain accepted = names (ids es) id
    gain (invalid body) = says_held may_salvage body es
    gain (stop s) = false

    abbrev Gains : Attempt → Bool → Type 0
    Gains (done x) b = b ≡ gain x
    Gains (retry s) b = b ≡ false

    says_held-undefined :
        (body : Json) → is_undefined body ≡ true → says_held may_salvage body es ≡ false
    unfolding says_held parse_validation_errors
    says_held-undefined undefined h = ground arith
    says_held-undefined _ h = absurd (ground arith)

    or_invalid-Gains :
        (s : Option Stop) (body : Json)
        → is_undefined body ≡ true
        → says_held may_salvage body es ≡ gain (or_invalid s body)
    or_invalid-Gains none body h = refl
    or_invalid-Gains (some s) body h = says_held-undefined body h

    invalid-Gains :
        (status : ℕ) (s : Option Stop) (body : Json)
        → Gains (respond StatusClass.invalid status body s) (says_held may_salvage body es)
    unfolding respond
    invalid-Gains status s body = elim (Bool-cases (is_undefined body)) [
      | inl e ↦ rw e (or_invalid-Gains s body e)
      | inr e ↦ rw e refl
    ]

    abbrev class_gain : StatusClass → Json → Bool
    class_gain StatusClass.accepted body = names (ids es) id
    class_gain StatusClass.invalid body = says_held may_salvage body es
    class_gain _ body = false

    respond-Gains :
        (c : StatusClass) (status : ℕ) (body : Json) (s : Option Stop)
        → Gains (respond c status body s) (class_gain c body)
    unfolding respond
    respond-Gains StatusClass.invalid status body s = invalid-Gains status s body
    respond-Gains StatusClass.accepted status body s = refl
    respond-Gains _ status body s = refl

    is_422 : {n : ℕ} → (n == 422) ≡ true → n ≡ 422
    is_422 {n} h = ground (arith, h)

    -- No other status gains anything.
    other :
        (status : ℕ) (body : Json)
        → false
          ≡ class_gain
              (if ltb 200 status && ltb status 300
                then StatusClass.unconfirmed
                else if status == 401
                then StatusClass.credential
                else if status == 403
                then StatusClass.forbidden
                else if status == 413
                then StatusClass.too_large
                else if is_transient status
                then StatusClass.transient
                else StatusClass.permanent)
              body
    other status body =
        if-case (λ c. false ≡ class_gain c body) (ltb 200 status && ltb status 300) _ _ (λ _. refl)
          (λ _.
            if-case (λ c. false ≡ class_gain c body) (status == 401) _ _ (λ _. refl)
              (λ _.
                if-case (λ c. false ≡ class_gain c body) (status == 403) _ _ (λ _. refl)
                  (λ _.
                    if-case (λ c. false ≡ class_gain c body) (status == 413) _ _ (λ _. refl)
                      (λ _.
                        if-case (λ c. false ≡ class_gain c body) (is_transient status) _ _
                          (λ _. refl) (λ _. refl)))))

    holds-class :
        (status : ℕ) (body : Json)
        → holds (response status body) may_salvage es ≡ class_gain (classify_status status) body
    unfolding holds classify_status
    holds-class status body = elim (Bool-cases (status == 200)) [
      | inl e ↦ rw e refl
      | inr e ↦ rw e (elim (Bool-cases (status == 422)) [
        | inl f ↦ rw (is_422 f) refl
        | inr f ↦ rw f (other status body)
      ])
    ]

    attempt-Gains : (r : Reply) (s : Option Stop) → Gains (attempt r s) (holds r may_salvage es)
    unfolding attempt holds
    attempt-Gains closed_error s = refl
    attempt-Gains aborted_error s = refl
    attempt-Gains (network_error name) s = refl
    attempt-Gains (response status body) s =
        subst (Gains (attempt (response status body) s)) (sym (holds-class status body))
          (respond-Gains (classify_status status) status body s)

    module _ (world : World) where
      abbrev Gained : List Post → Exchange × List Post → Type 0
      Gained posts (x, posts') = is_held posts' ≡ (is_held posts || gain x)

      post-held :
          (posts : List Post) (b : Bool)
          → holds (world.reply (length posts)) may_salvage es ≡ b
          → is_held (post world may_salvage es posts) ≡ (is_held posts || b)
      post-held posts b h =
          is_held-append posts
            (record { events = es; may_salvage = may_salvage; reply = world.reply (length posts) })
          ∙ ap (λ b. is_held posts || b) h

      last-Gained :
          (posts : List Post) (a : Attempt)
          → Gains a (holds (world.reply (length posts)) may_salvage es)
          → Gained posts (elim a [
            | done e ↦ (e, post world may_salvage es posts)
            | retry s ↦ (stop s, post world may_salvage es posts)
          ])
      last-Gained posts (done x) h = post-held posts _ h
      last-Gained posts (retry s) h = post-held posts false h

      next-Gained :
          (posts : List Post) (again : Exchange × List Post) (a : Attempt) (i : Option Stop)
          → Gained (post world may_salvage es posts) again
          → Gains a (holds (world.reply (length posts)) may_salvage es)
          → Gained posts (elim a [
            | done e ↦ (e, post world may_salvage es posts)
            | retry s ↦ elim i [
              | some interrupted ↦ (stop interrupted, post world may_salvage es posts)
              | none ↦ again
            ]
          ])
      next-Gained posts again (done x) i g h = post-held posts _ h
      next-Gained posts again (retry s) (some j) g h = post-held posts false h
      next-Gained posts again (retry s) none g h = ground (arith, g, post-held posts false h)

      exchange_from-Gained :
          (left : ℕ) (posts : List Post)
          → Gained posts (exchange_from world may_salvage es left posts)
      unfolding exchange_from
      exchange_from-Gained zero posts =
          last-Gained posts
            (attempt (world.reply (length posts)) (world.interruption (length posts)))
            (attempt-Gains (world.reply (length posts)) (world.interruption (length posts)))
      exchange_from-Gained (suc left) posts =
          next-Gained posts _
            (attempt (world.reply (length posts)) (world.interruption (length posts)))
            (world.interruption (length posts))
            (exchange_from-Gained left (post world may_salvage es posts))
            (attempt-Gains (world.reply (length posts)) (world.interruption (length posts)))

      exchange-Gained : (posts : List Post) → Gained posts (exchange world may_salvage es posts)
      unfolding exchange
      exchange-Gained posts = exchange_from-Gained (world.max_attempts - 1) posts

  -- The tally holds as confirmed what the answers say is held.
  abbrev pub Agrees : Tally → List Post → Type 0
  Agrees t posts = names t.taken id ≡ is_held posts

  settle_event-taken :
      (refusal : Option String) (dup : Bool) (e : LagoEvent) (t : Tally)
      → names (settle_event refusal dup e t).0.taken id
        ≡ (names t.taken id || (str_eq e.transaction_id id && (is_none refusal && dup)))
  unfolding settle_event confirm reject names
  settle_event-taken (some detail) d e t = ground arith
  settle_event-taken none true e t = ground (arith, names-append t.taken (ids (e ∷ [])) id)
  settle_event-taken none false e t = ground arith

  salvage-taken :
      (v : ValidationVerdict) (i : ℕ) (es : List LagoEvent) (t : Tally)
      → names (salvage v i es t).0.taken id ≡ (names t.taken id || is_duplicate v i es)
  unfolding salvage is_duplicate
  salvage-taken v i [] t = ground arith
  salvage-taken v i (e ∷ es) t =
      let (t', kept) = settle_event (refusal_at v.invalid i) (mentions v.duplicates i) e t in
      ground (
        arith,
        salvage-taken v (suc i) es t',
        settle_event-taken (refusal_at v.invalid i) (mentions v.duplicates i) e t,
      )

  abbrev KeepsAgreeing : (List LagoEvent → Tally → List Post → Sent) → Type 0
  KeepsAgreeing f =
      (es : List LagoEvent) (t : Tally) (ps : List Post)
      → Agrees t ps
      → Agrees (f es t ps).tally (f es t ps).posts

  abbrev MayAgree : Option (List LagoEvent → Tally → List Post → Sent) → Type 0
  MayAgree none = Unit
  MayAgree (some f) = KeepsAgreeing f

  abbrev may_resend : Option (List LagoEvent → Tally → List Post → Sent) → Bool
  may_resend none = false
  may_resend (some f) = true

  act_on-Agrees :
      (again : List LagoEvent → Tally → List Post → Sent) (h : KeepsAgreeing again)
      (v : Option ValidationVerdict) (es : List LagoEvent) (t : Tally) (ps : List Post)
      → is_held ps ≡ (names t.taken id || names_duplicate v es)
      → Agrees (act_on again v es t ps).tally (act_on again v es t ps).posts
  unfolding act_on refuse
  act_on-Agrees again h none es t ps e = ground (arith, e)
  act_on-Agrees again h (some v) es t ps e = h _ _ ps (salvage-taken v 0 es t ∙ sym e)

  on_invalid-Agrees :
      (resend : Option (List LagoEvent → Tally → List Post → Sent)) (h : MayAgree resend)
      (body : Json) (es : List LagoEvent) (t : Tally) (ps : List Post)
      → is_held ps ≡ (names t.taken id || says_held (may_resend resend) body es)
      → Agrees (on_invalid resend body es t ps).tally (on_invalid resend body es t ps).posts
  unfolding on_invalid says_held refuse
  on_invalid-Agrees none h body es t ps e = ground (arith, e)
  on_invalid-Agrees (some again) h body es t ps e = elim (Bool-cases (exceeds_batch_limit body)) [
    | inl x ↦ rw x (ground (arith, e))
    | inr x ↦ rw x (
        act_on-Agrees again h (parse_validation_errors body (length es)) es t ps
          (ground (arith, e)))
  ]

  on_exchange-Agrees :
      (resend : Option (List LagoEvent → Tally → List Post → Sent)) (h : MayAgree resend)
      (x : Exchange) (es : List LagoEvent) (t : Tally) (ps : List Post)
      → is_held ps ≡ (names t.taken id || gain (may_resend resend) es x)
      → Agrees (on_exchange resend x es t ps).tally (on_exchange resend x es t ps).posts
  unfolding on_exchange confirm refuse
  on_exchange-Agrees resend h accepted es t ps e = names-append t.taken (ids es) id ∙ sym e
  on_exchange-Agrees resend h (invalid body) es t ps e = on_invalid-Agrees resend h body es t ps e
  on_exchange-Agrees resend h (stop (Stop.failed false detail)) es t ps e = ground (arith, e)
  on_exchange-Agrees resend h (stop _) es t ps e = ground (arith, e)

  deliver_chunk-Agrees : (world : World) (left : ℕ) → KeepsAgreeing (deliver_chunk world left)
  unfolding deliver_chunk
  deliver_chunk-Agrees world left [] t ps a = a
  deliver_chunk-Agrees world zero (e ∷ es) t ps a =
      let (x, ps') = exchange world false (e ∷ es) ps in
      on_exchange-Agrees none tt x (e ∷ es) t ps'
        (exchange-Gained false (e ∷ es) world ps ∙ ap (λ b. b || gain false (e ∷ es) x) (sym a))
  deliver_chunk-Agrees world (suc left) (e ∷ es) t ps a =
      let (x, ps') = exchange world true (e ∷ es) ps in
      on_exchange-Agrees (some (deliver_chunk world left)) (deliver_chunk-Agrees world left) x
        (e ∷ es) t ps'
        (exchange-Gained true (e ∷ es) world ps ∙ ap (λ b. b || gain true (e ∷ es) x) (sym a))

  halt_by-Agrees :
      (s : Option Stop) (t : Tally) (ps : List Post) → Agrees t ps → Agrees (halt_by s t) ps
  unfolding halt
  halt_by-Agrees none t ps a = a
  halt_by-Agrees (some s) t ps a = a

  pub deliver_from-Agrees :
      (world : World) (fuel : ℕ) (es : List LagoEvent) (t : Tally) (ps : List Post)
      → Agrees t ps
      → Agrees (deliver_from world fuel es t ps).0 (deliver_from world fuel es t ps).1
  unfolding deliver_from
  deliver_from-Agrees world zero es t ps a = a
  deliver_from-Agrees world (suc fuel) es t ps a = elim (Bool-cases (is_empty es || stopped t)) [
    | inl over ↦ rw over a
    | inr more ↦ rw more (
        deliver_from-Agrees world fuel _ _ _ (
          halt_by-Agrees _ _ _ (
            deliver_chunk-Agrees world max_salvage_passes (take max_events_per_request es) t ps a)))
  ]
