-- ===== src/Lib.antt =====
-- Verification of AUDR, the agent usage record SDK: the delivery pipeline of the TypeScript core, the sinks
-- that it delivers to and the adapters that make its records.
--
-- The program. A `Client` (adapters/core/typescript/src/client.ts) validates each record and hands it to a
-- `Pipeline` (pipeline.ts), which queues it, forms batches, calls `deliver` of a `Sink` with one batch at a time and
-- settles each record by the `BatchResult` that the sink answers (sink.ts, results.ts). A sink sends the batch
-- to a billing service and reports what became of each record; the sinks for Lago and for Chargebee are in
-- sinks/lago/typescript/src and sinks/chargebee/typescript/src.
--
-- An adapter turns a call of a model provider into a record that it hands to the host's client.
--
-- Base: names of the library, and helpers on Booleans, lists and texts.
-- Record: the data that the parts exchange: records, results, failures, `BatchResult`, and JSON values, whose
--   objects are the list of their entries in the order of `Object.entries`.
-- Canonical: what the encodings of the two sinks have in common.
-- Pipeline: adapters/core/typescript/src/pipeline.ts.
--   State: the fields of the class, `#schedule` and `#run`. Submit: `submit`, `reportInvalid`, `#notifyFailure`.
--   Deliver: `#apply`, `#markSent`, `#fail`, `#deliver`. Stop: `#drain`, `#stop`, `#abandonOutstanding`.
--   Steps: the methods in sequence. A method that awaits is cut at the `await` into functions that run without
--   interruption, and an interleaving is a list of events, of which those that cannot happen change nothing.
--   Frame, Validity, Settling, Ending, Order: lemmas; Invariant, History, Shutdown, Verdict, Drain: the
--   theorems.
-- Client: adapters/core/typescript/src/client.ts. Options: the constructor and `checkTimeout`. Calls: `record`, `flush`,
--   `shutdown`. Refinement: its calls as events of the pipeline.
-- Validate: adapters/core/typescript/src/validate.ts. Issues: from the generated validator's failures to issues. Timestamps: `parseTimestamp`.
--   Checks: `inspect`, the formats and the rules of the prose. Sound, Dedupe: lemmas; Redaction, Pointer, Accepting: the theorems.
-- Codec: adapters/core/typescript/src/codec.ts. Keys, Sorting: `sortKeys`. Parsing: `parseRecord` and `decodeRecord`. Entries,
--   Encodable, Lookup: lemmas; Failing, Canonical, Decoding: the theorems.
-- FileSink: adapters/core/typescript/src/file-sink.ts. Writes: the class, where the file system and `encodeRecord` are
--   parameters. Order: the theorem.
-- Runs: adapters/vercel-ai/typescript/src. Tracker: runs.ts, `CallTracker` and its tool spans. Telemetry, Hooks: telemetry.ts and
--   mapping.ts, where what the hooks do is a log. Lineage, Steps: the theorems.
-- Lago: sinks/lago/typescript/src.
--   Event, Encode: event.ts and flatten.ts. Preflight: preflight.ts. Tally, Response: tally.ts, and response.ts with
--   `isTransient` of retry.ts. Sink: sink.ts. Retry: the hints of retry.ts. Credentials: credentials.ts.
--   Posts: what the requests and their answers say of a record. Standing: lemmas; Contract, Reading, Batch,
--   Endpoint: the theorems.
-- Retrying: the class `RetryPolicy` of retry.ts, which both sinks have. Policy: its constructor and `delayMs`; Delays: the theorem.
-- Chargebee: sinks/chargebee/typescript/src.
--   Event, Flatten, Sink: event.ts, flatten.ts, and sink.ts with `classify` of retry.ts. Retry: `Retry-After` and `delayMs`.
--   Credentials: credentials.ts. Contract, Sending, Rules, Origin: the theorems.
-- Adapters: what the adapters share. Numbers: the numbers of JavaScript as a parameter, with the laws of whole numbers
--   below 2 ^ 53. Recording: the argument of `createRecord`. Hosting: the run of a call, and `mapResource`. Effects: what a
--   step does. Scope: attribution.ts of adapters/openrouter (adapters/merge-gateway has the same). Slug: `providerSlug`. Scoping: the theorem on scopes.
-- OpenRouter: adapters/openrouter/typescript/src. Mapping, Lookup: mapping.ts and lookup.ts. Meter, Frames: openrouter.ts, where a step is
--   the list of the records and diagnostics that it gives. Stream: `meterStream` of proxy.ts, as a machine whose events are what the
--   caller, the native stream and the inspection do. Budget, Counters, Recorded, Valid, Resuming, Passing,
--   Outcomes: lemmas and theorems.
-- Mastra: adapters/mastra/typescript/src. Exporter: exporter.ts and mapping.ts, with attribution.ts in Adapters/Reading (adapters/vercel-ai
--   has the same). Delegation, Ended: the theorems.
-- MergeGateway: adapters/merge-gateway/typescript/src. Mapping: mapping.ts, with its theorem. Meter, Streams: gateway.ts, the class `Meter`
--   and `#meterStream` as a machine. Recorded, Outcomes: the theorems.
--
-- Choices of the model.
--   A callback is the list of records that it passes to `Client.record()` while it runs; these run through the
--   pipeline as the code has it, with the guard `#notifying`. Promises that callbacks return are not modelled.
--   The sink of the pipeline is arbitrary: an event carries its answer, a rejected promise included. It
--   returns its promise before it answers.
--   `#inFlight` and the batch of `#deliver` hold the same objects, so one list stands for both.
--   Fields that the code does not have (from `handed` on in `Pipeline`, `taken` in `Tally`, `posts` of the Lago sink,
--   `requested` and `refused` in `FileSink`) record what happened. Of these the definitions read only how many `posts` there are.
--   The network of a sink is a parameter that says what each request comes to, in order. So are
--   `Date.parse`, `JSON.parse`, `JSON.stringify`, `structuredClone`, the generated validator and, in Client, `inspect`.
--   Log messages are left out, and so are in Pipeline and in the sinks the lengths of delays and timeouts: a timer may fire at
--   any time.
--   `deliver_from` of the Lago sink runs on as much fuel as there are events; each round takes one at
--   least. Retries and salvage passes run on the bounds that the code has. The lookup of OpenRouter runs on one round more
--   than its budget has units.
--   A metered stream is iterated once. A result is a JSON value, whose properties can be read.
--
-- Not modelled: the validator, which is generated from the JSON schema; `createRecord`; files, HTTP and the environment;
-- proxies, `AsyncLocalStorage` and the text of diagnostics; the Python packages.
pub mod Base
pub mod Record
pub mod Canonical
pub mod Pipeline
pub mod Validate
pub mod Client
pub mod Codec
pub mod Lago
pub mod Adapters
pub mod Runs
pub mod OpenRouter
pub mod Retrying
pub mod Chargebee
pub mod Mastra
pub mod FileSink
pub mod MergeGateway
