-- ===== src/Lib.antt =====
-- A model of debugbundle-python, the SDK that captures exceptions, logs and requests of a Python
-- program, bounds them in memory, and delivers them in batches.
--
-- An event is prepared by a capture method of `DebugBundleSdk`, passes the suppression of duplicates,
-- and is offered to a bounded queue, where events of high priority may push out others. A flush
-- takes the queue as a batch, cuts it to the size of a request, sends it, and reads from the answer
-- which events were accepted, which are sent again and which are refused for good. Events that hold
-- diagnostic payloads are charged to a budget while they are pending.
--
-- Which file models which part:
--   * Suppression: src/debugbundle/suppression.py. `observe` is a call of `should_capture` on the
--     state of its fingerprint, `claim` the lookup with its eviction, `drain_aggregates` the report.
--   * Acknowledgement: src/debugbundle/acknowledgement.py, on the JSON values of Json.
--   * Ingestion: src/debugbundle/ingestion_wire.py; `fit_event` is in Ingestion/Fitting.
--   * Transport: `bounded_retry_after_ms` and the guards of `send_until` of
--     src/debugbundle/transport.py.
--   * Diagnostics: src/debugbundle/diagnostic_budget.py; Diagnostics/Changes has the operations on a
--     payload that is pending, Diagnostics/Valid the accounts, Diagnostics/Runs sequences of calls.
--   * Evidence: src/debugbundle/evidence_wire.py, and `EvidenceDelivery.observe` of
--     src/debugbundle/evidence_delivery.py. The parent has capabilities, references and scopes,
--     Evidence/Shapes the tests on values, Evidence/Payloads the validators of resources,
--     diagnostics and executions, Evidence/Graph that of exception graphs (`visit` has a round for
--     each depth from 0 to 4), Evidence/Events whole events and what is left out of them.
--     Evidence/Delivery has `add_reference` and `filter_evidence`. Evidence/Size is
--     src/debugbundle/evidence_json.py.
--   * Ownership: the loops over parents that operations and scopes share. Operations:
--     src/debugbundle/operation_context.py. Scopes: src/debugbundle/scope_ownership.py. An object
--     stands in a store under its address, a `Token` knows its context, and `end` is `finish`.
--     Operations/Valid and Operations/Runs have what the calls keep, Operations/Laws the current
--     operation, Operations/Stacks the view as a stack, Operations/Ended what comes after an end.
--   * Sdk: the state of `DebugBundleSdk` that the queue and its delivery share, and its timers
--     (src/debugbundle/core.py).
--   * Reconcile: `allows_recovery` and `reconcile_diagnostic` of src/debugbundle/evidence_delivery.py.
--   * Queue: src/debugbundle/queue_admission.py. Queue/Eviction, Queue/Admission, Queue/Placing,
--     Queue/Offers and Queue/Results follow the steps of `offer_protected_event`.
--   * Flush: the sections of `flush_sdk` (src/debugbundle/flush_delivery.py) under the lock, and
--     `downgrade_rejections` of src/debugbundle/evidence_delivery.py. Flush/Beginning is the first
--     section, Flush/Commit the one that commits the queue, Flush/Sending the one that takes the
--     finalized events to the transport, Flush/Settle has the branches of the answer, Flush/Answers
--     what each keeps of the batch where no event is reduced, Flush/Downgraded what is left of refused
--     events where some are, Flush/Retained and Flush/Rested the state that is left.
--     Flush/System has the phases of a flush and its steps, one for each section, between which any
--     capture may offer an event; Flush/System/Phases says what each phase relies on.
--     Flush/Finalize is src/debugbundle/delivery_hooks.py: a `Round` has an event, what the hook left
--     of it, and what other threads do meanwhile.
--   * Process: src/debugbundle/process_support.py.
--   * Levels: the levels of logs of src/debugbundle/event_support.py and src/debugbundle/core.py.
--   * Config: src/debugbundle/config.py. Config/Policy has what a parsed policy satisfies and its
--     written form, Config/Remote the remote configuration and the choice of probe directives.
--   * RequestPolicy: src/debugbundle/request_capture_policy.py, and the request incidents of
--     src/debugbundle/event_support.py.
--   * Trigger: src/debugbundle/trigger_token.py; Trigger/Signed says what stands behind a directive.
--   * Redaction: src/debugbundle/redaction.py. The parent has the test of keys, Redaction/Texts the
--     card numbers, URLs and texts, Redaction/Walk `sanitize_telemetry`, Redaction/Rounds how a round
--     of its loops ends, Redaction/Safe what its result is like.
--   * CanonicalEvent: src/debugbundle/canonical_event.py, `own_json` in the parent, the comparison of
--     values in CanonicalEvent/Values, the check of a value in CanonicalEvent/Schema, where a check of
--     depth 0 to 64 has its round, and what compiles in CanonicalEvent/Compiled. BeforeSend:
--     src/debugbundle/before_send.py.
--   * Relay: src/debugbundle/relay.py. The parent has the configuration, origins and the limit on the
--     rate, Relay/Events `_sanitize_event`, Relay/Delivery `_deliver_events`, Relay/Batch the loop over
--     a batch, and Relay/Handler `handle`; Relay/Delivered is about the events that it delivers, and
--     Relay/Judged and Relay/Outcomes are about its answers.
--     Forward: src/debugbundle/relay_delivery.py, with the requests to the endpoint in the parent, the
--     event files in Forward/Files, each with its bytes, and the names of services in Forward/Names.
--   * Prelude: numbers, lists, dictionaries and their lemmas. Tests: examples.
--
-- A Python dict that is compared by `id()` is an event with an `ident`; the methods that run under
-- the SDK's lock are functions on its state. A Python exception that the code may raise is a value
-- (`none`, or a constructor). Times are milliseconds on ℕ. The loop of `chunks` has a round for each
-- event, and the loop that makes room one for each queued event and one more; the theorems on them
-- say that these are enough.
--
-- Parameters stand for the libraries: SHA-256 and the ISO format of times, the JSON encoder with
-- the form of its output, the length of a JSON record with how it grows, `fromisoformat`, and the
-- HTTP client; how many bytes `os.write` takes; `str.upper`, `urlparse`, `urlsplit`, the digits of
-- `repr`, the length of encoded texts, HMAC, base64 and `json.loads` of a token; `filter_evidence`
-- is any function on events in Flush. Tokens of a context variable have distinct numbers. Of the
-- redaction, its regular expressions, the functions of `urllib.parse`, `json`, `str.strip` and
-- `str.lower` are parameters; of the schema, its document, its patterns and `int`; of the relay,
-- the clock, the network with its answers, each call of the operating system on a file, and
-- `on_accept`. A `before_send` hook is any function. The call of `_sanitize_event` for an event
-- without its optional evidence calls no further one, so that two rounds are given
-- (`sanitize_rounds_enough` of Relay/Rounds).
--
-- Not modelled: the capture methods and the life cycle of the SDK, exceptions and tracebacks, and
-- probes, which read live objects of the interpreter; the preparation of the summaries of a flush,
-- which calls these methods (a flush is given any summaries of new objects); the polling of the
-- remote configuration, the default directories of the event files, and the integrations with
-- logging and web frameworks, which are glue to libraries. In Flush/System the generation of the SDK
-- stays, since `dispose` is not modelled and a fork (Process) leaves one thread in a new process.
pub mod Prelude
pub mod Json
pub mod Config
pub mod RequestPolicy
pub mod Acknowledgement
pub mod Transport
pub mod Ingestion
pub mod Suppression
pub mod Diagnostics
pub mod Evidence
pub mod Ownership
pub mod Operations
pub mod Scopes
pub mod Sdk
pub mod Reconcile
pub mod Levels
pub mod Queue
pub mod Flush
pub mod Trigger
pub mod Redaction
pub mod CanonicalEvent
pub mod BeforeSend
pub mod Forward
pub mod Relay
pub mod Process
pub mod Tests
