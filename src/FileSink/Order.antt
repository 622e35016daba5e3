-- ===== src/FileSink/Order.antt =====
-- What `FileSink` writes, and what it answers.
use Prim.Native.String
use audr.Base.{
  arith, ◌≡◌, refl, sym, subst, ap, ◌∙◌, Bool, true, false, ◌&&◌, List, [], ◌∷◌, ◌++◌, append_assoc,
  map, Option, none, some, String, if◌then◌else◌, All, All-append,
}
use audr.Record.{
  AudrRecord, BatchResult, accepted, retryable_failure, permanent_failure, closed, failed,
}
use audr.FileSink.Writes.{
  Encoder, Attempt, takes, refuses, Written, FileSink, Event, delivers, writes_next, closes,
  created, deliver, add_line, lines_of, settled, write, write_next, step, run,
}

-- The text has one line for each record, in order, and the line is the encoded record.
unfoldable pub IsText : Encoder → List AudrRecord → String → Type 0
IsText e [] text = text ≡ ""
IsText e (r ∷ rs) text =
    (line rest : String) × (e.encode_record r ≡ some line)
    × (text ≡ String.◌++◌ line (String.◌++◌ "\n" rest))
    × IsText e rs rest

abbrev is_some : Option String → Bool
is_some none = false
is_some (some _) = true

unfoldable pub all_encode : Encoder → List AudrRecord → Bool
all_encode e [] = true
all_encode e (r ∷ rs) = is_some (e.encode_record r) && all_encode e rs

-- What a result says of the batch and of the text that went to the file.
abbrev pub IsAnswer : Encoder → List AudrRecord → String → BatchResult → Type 0
IsAnswer e batch text (accepted rejected unknown) =
    (rejected ≡ []) × (unknown ≡ []) × IsText e batch text
IsAnswer e batch text (retryable_failure detail) = all_encode e batch ≡ true
IsAnswer e batch text (permanent_failure detail) =
    (all_encode e batch ≡ false) × (detail ≡ some e.error_name) × (text ≡ "")
IsAnswer e batch text closed = ⊥

record KeepsOrder (e : Encoder) (s : FileSink) : Type 0 where
  order : map (λ (w : Written). w.batch) s.written ++ s.writes ≡ s.requested
  answers : All (λ (w : Written). IsAnswer e w.batch w.text w.result) s.written

abbrev HasLines : Encoder → List AudrRecord → Option String → Type 0
HasLines e batch none = all_encode e batch ≡ false
HasLines e batch (some text) = IsText e batch text × (all_encode e batch ≡ true)

add_line-HasLines :
    (e : Encoder) (r : AudrRecord) (rs : List AudrRecord) (line rest : Option String)
    → e.encode_record r ≡ line
    → HasLines e rs rest
    → HasLines e (r ∷ rs) (add_line line rest)
unfolding all_encode IsText
add_line-HasLines e r rs none rest h g = rw h refl
add_line-HasLines e r rs (some line) none h g = ground (arith, h, g)
add_line-HasLines e r rs (some line) (some rest) h g =
    ((line, rest, h, refl, g.0), ground (arith, h, g.1))

lines_of-HasLines : (e : Encoder) (batch : List AudrRecord) → HasLines e batch (lines_of e batch)
unfolding lines_of all_encode IsText
lines_of-HasLines e [] = (refl, refl)
lines_of-HasLines e (r ∷ rs) =
    add_line-HasLines e r rs (e.encode_record r) (lines_of e rs) refl (lines_of-HasLines e rs)

abbrev IsSettled : Encoder → Written → Type 0
IsSettled e w = IsAnswer e w.batch w.text w.result

settled-IsSettled :
    (e : Encoder) (batch : List AudrRecord) (lines : Option String) (attempt : Attempt)
    → HasLines e batch lines
    → IsSettled e (settled e batch lines attempt)
unfolding failed
settled-IsSettled e batch none attempt h = (h, refl, refl)
settled-IsSettled e batch (some lines) takes h = (refl, refl, h.0)
settled-IsSettled e batch (some lines) (refuses code part) h = h.1

map-append :
    (ws : List Written) (w : Written)
    → map (λ (w : Written). w.batch) (ws ++ (w ∷ []))
      ≡ map (λ (w : Written). w.batch) ws ++ (w.batch ∷ [])
map-append [] w = refl
map-append (x ∷ ws) w = ap (λ l. x.batch ∷ l) (map-append ws w)

settled-batch :
    (e : Encoder) (batch : List AudrRecord) (lines : Option String) (attempt : Attempt)
    → (settled e batch lines attempt).batch ≡ batch
settled-batch e batch none attempt = refl
settled-batch e batch (some lines) takes = refl
settled-batch e batch (some lines) (refuses code part) = refl

write-batch :
    (e : Encoder) (batch : List AudrRecord) (attempt : Attempt)
    → (write e batch attempt).batch ≡ batch
unfolding write
write-batch e batch attempt = settled-batch e batch (lines_of e batch) attempt

write-IsSettled :
    (e : Encoder) (batch : List AudrRecord) (attempt : Attempt)
    → IsSettled e (write e batch attempt)
unfolding write
write-IsSettled e batch attempt =
    settled-IsSettled e batch (lines_of e batch) attempt (lines_of-HasLines e batch)

deliver-KeepsOrder :
    (e : Encoder) (batch : List AudrRecord) (s : FileSink)
    → KeepsOrder e s
    → KeepsOrder e (deliver batch s)
unfolding deliver
deliver-KeepsOrder e batch s h = go s.closing
  where
    go :
        (b : Bool)
        → KeepsOrder e (
            if b then record s { refused = s.refused ++ (batch ∷ []) } else record s {
              writes = s.writes ++ (batch ∷ []);
              requested = s.requested ++ (batch ∷ []);
            })
    go true = record { order = h.order; answers = h.answers }
    go false = record {
      order =
          sym (append_assoc (map (λ (w : Written). w.batch) s.written) s.writes (batch ∷ []))
          ∙ ap (◌++ (batch ∷ [])) h.order;
      answers = h.answers;
    }

write_next-KeepsOrder :
    (e : Encoder) (attempt : Attempt) (pending : List (List AudrRecord)) (s : FileSink)
    → s.writes ≡ pending
    → KeepsOrder e s
    → KeepsOrder e (write_next e attempt pending s)
write_next-KeepsOrder e attempt [] s p h = h
write_next-KeepsOrder e attempt (batch ∷ rest) s p h =
    let done = map (λ (w : Written). w.batch) s.written in
    record {
      order =
          ap (◌++ rest) (
            map-append s.written (write e batch attempt)
            ∙ ap (λ b. done ++ (b ∷ [])) (write-batch e batch attempt))
          ∙ append_assoc done (batch ∷ []) rest
          ∙ ap (done ++◌) (sym p)
          ∙ h.order;
      answers =
          All-append (IsSettled e) s.written _ h.answers (write-IsSettled e batch attempt, tt);
    }

step-KeepsOrder :
    (e : Encoder) (event : Event) (s : FileSink) → KeepsOrder e s → KeepsOrder e (step e event s)
unfolding step
step-KeepsOrder e (delivers batch) s h = deliver-KeepsOrder e batch s h
step-KeepsOrder e (writes_next attempt) s h = write_next-KeepsOrder e attempt s.writes s refl h
step-KeepsOrder e closes s h = record { order = h.order; answers = h.answers }

run-KeepsOrder :
    (e : Encoder) (events : List Event) (s : FileSink)
    → KeepsOrder e s
    → KeepsOrder e (run e events s)
unfolding run
run-KeepsOrder e [] s h = h
run-KeepsOrder e (event ∷ events) s h = run-KeepsOrder e events _ (step-KeepsOrder e event s h)

-- The batches that are delivered, those before the first `close`, and those after it.
unfoldable pub delivered : List Event → List (List AudrRecord)
delivered [] = []
delivered (delivers batch ∷ events) = batch ∷ delivered events
delivered (_ ∷ events) = delivered events

unfoldable pub before_close : List Event → List (List AudrRecord)
before_close [] = []
before_close (delivers batch ∷ events) = batch ∷ before_close events
before_close (writes_next attempt ∷ events) = before_close events
before_close (closes ∷ events) = []

unfoldable pub after_close : List Event → List (List AudrRecord)
unfolding delivered
after_close [] = []
after_close (closes ∷ events) = delivered events
after_close (_ ∷ events) = after_close events

-- A state keeps what it took and refused, and so do the events that follow.
record Sorts (s t : FileSink) (before after : List (List AudrRecord)) : Type 0 where
  taken : t.requested ≡ s.requested ++ before
  refused : t.refused ≡ s.refused ++ after

append_nil {ℓ} : {A : Type ℓ} (xs : List A) → xs ≡ xs ++ []
append_nil [] = refl
append_nil (x ∷ xs) = ap (x ∷◌) (append_nil xs)

write_next-same :
    (e : Encoder) (attempt : Attempt) (pending : List (List AudrRecord)) (s : FileSink)
    → ((write_next e attempt pending s).requested ≡ s.requested)
      × ((write_next e attempt pending s).refused ≡ s.refused)
      × ((write_next e attempt pending s).closing ≡ s.closing)
write_next-same e attempt [] s = (refl, refl, refl)
write_next-same e attempt (batch ∷ rest) s = (refl, refl, refl)

deliver-closed :
    (batch : List AudrRecord) (s : FileSink)
    → s.closing ≡ true
    → record s { refused = s.refused ++ (batch ∷ []) } ≡ deliver batch s
unfolding deliver
deliver-closed batch s c = simp c refl

deliver-open :
    (batch : List AudrRecord) (s : FileSink)
    → s.closing ≡ false
    → record s { writes = s.writes ++ (batch ∷ []); requested = s.requested ++ (batch ∷ []) }
      ≡ deliver batch s
unfolding deliver
deliver-open batch s c = simp c refl

run-refuses :
    (e : Encoder) (events : List Event) (s : FileSink)
    → s.closing ≡ true
    → Sorts s (run e events s) [] (delivered events)
unfolding run step delivered
run-refuses e [] s c = record { taken = append_nil _; refused = append_nil _ }
run-refuses e (delivers batch ∷ events) s c =
    let t : FileSink = record s { refused = s.refused ++ (batch ∷ []) } in
    let h = run-refuses e events t c in
    subst (λ u. Sorts s (run e events u) [] (batch ∷ delivered events)) (deliver-closed batch s c)
      (record {
        taken = h.taken;
        refused = h.refused ∙ append_assoc s.refused (batch ∷ []) (delivered events);
      })
run-refuses e (writes_next attempt ∷ events) s c =
    let same = write_next-same e attempt s.writes s in
    let h = run-refuses e events _ (same.2 ∙ c) in
    record {
      taken = h.taken ∙ ap (◌++ []) same.0;
      refused = h.refused ∙ ap (◌++ delivered events) same.1;
    }
run-refuses e (closes ∷ events) s c =
    let h = run-refuses e events (record s { closing = true }) refl in
    record { taken = h.taken; refused = h.refused }

run-Sorts :
    (e : Encoder) (events : List Event) (s : FileSink)
    → s.closing ≡ false
    → Sorts s (run e events s) (before_close events) (after_close events)
unfolding run step before_close after_close
run-Sorts e [] s c = record { taken = append_nil _; refused = append_nil _ }
run-Sorts e (delivers batch ∷ events) s c =
    let t : FileSink = record s {
      writes = s.writes ++ (batch ∷ []);
      requested = s.requested ++ (batch ∷ []);
    } in
    let h = run-Sorts e events t c in
    subst (λ u. Sorts s (run e events u) (batch ∷ before_close events) (after_close events))
      (deliver-open batch s c)
      (record {
        taken = h.taken ∙ append_assoc s.requested (batch ∷ []) (before_close events);
        refused = h.refused;
      })
run-Sorts e (writes_next attempt ∷ events) s c =
    let same = write_next-same e attempt s.writes s in
    let h = run-Sorts e events _ (same.2 ∙ c) in
    record {
      taken = h.taken ∙ ap (◌++ before_close events) same.0;
      refused = h.refused ∙ ap (◌++ after_close events) same.1;
    }
run-Sorts e (closes ∷ events) s c =
    let h = run-refuses e events (record s { closing = true }) refl in
    record { taken = h.taken; refused = h.refused }

-- The batches that were written and those that still wait, those that were answered `closed`, and the answers.
pub record IsOrdered (e : Encoder) (events : List Event) (s : FileSink) : Type 0 where
  pub order : map (λ (w : Written). w.batch) s.written ++ s.writes ≡ before_close events
  pub refused : s.refused ≡ after_close events
  pub answers : All (λ (w : Written). IsAnswer e w.batch w.text w.result) s.written

-- However deliveries, writes and `close` interleave, and whatever the file system does: the batches that were written and those that
-- still wait are the ones that were delivered before `close`, each once and in order, and those delivered after it were
-- refused. A batch was accepted only with the whole of its text in
-- the file, a line for each record that is the encoded record; it failed for good, with the name of the error and nothing
-- written, only if one of its records cannot be encoded; and it failed in a way that may be retried only if they all can.
pub run-IsOrdered : (e : Encoder) (events : List Event) → IsOrdered e events (run e events created)
run-IsOrdered e events =
    let sorts = run-Sorts e events created refl in
    let keeps = run-KeepsOrder e events created (record { order = refl; answers = tt }) in
    record { order = keeps.order ∙ sorts.taken; refused = sorts.refused; answers = keeps.answers }
