-- ===== src/Adapters/Recording.antt =====
-- What an adapter hands to `createRecord`, and what it does: it records, or it writes a diagnostic.
use audr.Base.{ℕ, Option, String}
use audr.Adapters.Numbers.{LlmUsage}
use audr.Adapters.Scope.{Attribution}

pub data Operation : Type 0 where
  generation embedding reranking tool_execution : Operation

pub data Modality : Type 0 where
  text image audio multimodal : Modality

pub data RunType : Type 0 where
  single_call agent_run : RunType

-- `resource` of a record, of the type `model` or `tool`.
pub record Resource : Type 0 where
  pub provider : String
  pub namespace : Option String
  pub name : String
  pub operation : Operation
  pub modality : Option Modality

-- A model's tokens, or one invocation of a tool.
pub data Usage (W : Type 0) : Type 0 where
  llm : LlmUsage W → Usage W
  tool : Usage W

-- `run` of a record.
pub record Run : Type 0 where
  pub run_id : String
  pub trace_id : Option String
  pub span_id : String
  pub parent_span_id : Option String
  pub name : Option String
  pub step : Option ℕ
  pub run_type : Option RunType
  pub error_code : Option String

-- The argument of `createRecord`, without the emitter and the time of the event. `cost` is in USD.
pub record RecordInput (W : Type 0) : Type 0 where
  pub duration_ms : Option W
  pub resource : Resource
  pub usage : Usage W
  pub cost : Option W
  pub run : Run
  pub attribution : Attribution
