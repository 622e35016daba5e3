-- ===== src/Lago/Preflight.antt =====
-- sinks/lago/typescript/src/preflight.ts. The text that `JSON.stringify` gives an event is a
-- parameter. A `Map` is the list of its entries in the order of insertion.
use audr.Base.{
  Bool, not, List, [], ◌∷◌, ◌++◌, map, Option, none, some, String, str_eq, if◌then◌else◌, filter_by,
  names,
}
use audr.Base.Result.{Result, ok, error}
use audr.Record.{AudrRecord, RejectedRecord}
use audr.Lago.Event.{LagoEvent}
use audr.Lago.Tally.{refusal}

-- An entry of the map `events`.
pub record Entry : Type 0 where
  pub key : String
  pub event : LagoEvent
  pub body : String

-- The maps `events` and `rejected`.
pub record Sorted : Type 0 where
  pub entries : List Entry
  pub rejected : List RejectedRecord

abbrev pub has_rejected : Sorted → String → Bool
has_rejected s id = names (map (λ r. r.record_id) s.rejected) id

-- `reject`
unfoldable pub reject : String → String → Sorted → Sorted
unfolding names
reject id detail s = record {
  entries = filter_by (λ e. not (str_eq e.key id)) s.entries;
  rejected = if has_rejected s id then s.rejected else s.rejected ++ refusal detail id ∷ [];
}

-- `events.get(id)`
unfoldable pub entry_at : String → List Entry → Option Entry
entry_at id [] = none
entry_at id (e ∷ es) = let later = entry_at id es in if str_eq e.key id then some e else later

-- The end of the loop body, at `earlier`.
unfoldable pub keep : Option Entry → String → LagoEvent → String → Sorted → Sorted
unfolding reject
keep none id event body s = record s {
  entries = s.entries ++ record { key = id; event = event; body = body } ∷ [];
}
keep (some earlier) id event body s =
    if str_eq earlier.body body then s else reject id "duplicate_record_id" s

module _ (encode : AudrRecord → Result LagoEvent) (stringify : LagoEvent → String) where
  -- The loop body, at what `encode` gives.
  unfoldable pub sort_record : String → Result LagoEvent → Sorted → Sorted
  unfolding keep entry_at names
  sort_record id (error detail) s = reject id detail s
  sort_record id (ok event) s =
      if has_rejected s id then s else keep (entry_at id s.entries) id event (stringify event) s

  unfoldable pub sort_batch : List AudrRecord → Sorted → Sorted
  unfolding sort_record
  sort_batch [] s = s
  sort_batch (r ∷ rs) s = sort_batch rs (sort_record r.record_id (encode r) s)

  -- `preflight`
  unfoldable pub preflight : List AudrRecord → List LagoEvent × List RejectedRecord
  unfolding sort_batch
  preflight batch =
      let s = sort_batch batch (record { entries = []; rejected = [] }) in
      (map (λ e. e.event) s.entries, s.rejected)
