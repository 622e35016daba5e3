-- ===== src/Lago/Event.antt =====
-- sinks/lago/typescript/src/event.ts
use audr.Base.{String, List}
use audr.Record.{Json}

pub record LagoEvent : Type 0 where
  pub transaction_id : String
  pub external_subscription_id : String
  pub code : String
  pub timestamp : String
  pub properties : List (String × Json)
