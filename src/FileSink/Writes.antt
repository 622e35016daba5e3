-- ===== src/FileSink/Writes.antt =====
-- adapters/core/typescript/src/file-sink.ts: `deliver`, `#write` and `close`, with the chain `#writes` as the list of the
-- batches that wait to be written.
use Prim.Native.String
use audr.Base.{Bool, true, false, List, [], ◌∷◌, ◌++◌, Option, none, some, String, if◌then◌else◌}
use audr.Record.{AudrRecord, BatchResult, accepted, failed}

-- `encodeRecord`, which throws for some records, and the name of what it throws.
pub record Encoder : Type 0 where
  pub encode_record : AudrRecord → Option String
  pub error_name : String

-- What the file system does when a batch is to be written: it takes it whole, or it fails, with its code, and
-- may have taken a part of the text.
pub data Attempt : Type 0 where
  takes : Attempt
  refuses : String → String → Attempt

-- A batch that was answered, with what it left in the file.
pub record Written : Type 0 where
  pub batch : List AudrRecord
  pub result : BatchResult
  pub text : String

-- `requested` and `refused` are the batches that `deliver` took and those that it answered `closed`; the code keeps neither.
pub record FileSink : Type 0 where
  pub closing : Bool
  pub writes : List (List AudrRecord)
  pub written : List Written
  pub requested : List (List AudrRecord)
  pub refused : List (List AudrRecord)

pub data Event : Type 0 where
  delivers : List AudrRecord → Event
  writes_next : Attempt → Event
  closes : Event

abbrev pub created : FileSink
created = record { closing = false; writes = []; written = []; requested = []; refused = [] }

-- `deliver`
unfoldable pub deliver : List AudrRecord → FileSink → FileSink
deliver batch s =
    if s.closing
    then record s { refused = s.refused ++ (batch ∷ []) }
    else record s { writes = s.writes ++ (batch ∷ []); requested = s.requested ++ (batch ∷ []) }

abbrev pub add_line : Option String → Option String → Option String
add_line none rest = none
add_line (some line) none = none
add_line (some line) (some rest) = some (String.◌++◌ line (String.◌++◌ "\n" rest))

-- The lines of a batch, if each of its records can be encoded.
unfoldable pub lines_of : Encoder → List AudrRecord → Option String
lines_of e [] = some ""
lines_of e (r ∷ rs) = add_line (e.encode_record r) (lines_of e rs)

abbrev pub settled : Encoder → List AudrRecord → Option String → Attempt → Written
settled e batch none attempt = record {
  batch = batch;
  result = failed false (some e.error_name);
  text = "";
}
settled e batch (some lines) takes = record { batch = batch; result = accepted [] []; text = lines }
settled e batch (some lines) (refuses code part) = record {
  batch = batch;
  result = failed true (some code);
  text = part;
}

-- `#write`, of the batch whose turn it is.
unfoldable pub write : Encoder → List AudrRecord → Attempt → Written
unfolding lines_of failed
write e batch attempt = settled e batch (lines_of e batch) attempt

abbrev pub write_next : Encoder → Attempt → List (List AudrRecord) → FileSink → FileSink
write_next e attempt [] s = s
write_next e attempt (batch ∷ rest) s = record s {
  writes = rest;
  written = s.written ++ (write e batch attempt ∷ []);
}

unfoldable pub step : Encoder → Event → FileSink → FileSink
unfolding deliver write
step e (delivers batch) s = deliver batch s
step e (writes_next attempt) s = write_next e attempt s.writes s
step e closes s = record s { closing = true }

unfoldable pub run : Encoder → List Event → FileSink → FileSink
unfolding step
run e [] s = s
run e (event ∷ events) s = run e events (step e event s)

-- The text of the file, from what it was when it was opened.
unfoldable pub text_of : List Written → String
text_of [] = ""
text_of (w ∷ ws) = String.◌++◌ w.text (text_of ws)
