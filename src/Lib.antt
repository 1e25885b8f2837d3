-- ===== src/Lib.antt =====
-- The courier event gateway: the signature check, the intake and the processing of events, with the
-- start and the shutdown of its services and the scripts around them.
--
-- A courier posts an event to gateway-api. The guard (gateway-api/src/middleware/signature-guard.ts)
-- checks the signature of the raw body with packages/shared/src/crypto/hmac.ts; the controller
-- (gateway-api/src/controllers/ingestion.controller.ts) validates the body, writes an audit record
-- and puts a job into the main queue. gateway-worker takes the job: processEvent
-- (gateway-worker/src/processors/process-event.ts) finds or makes the event's record in
-- processed_events, locks it, applies the event to its shipment, and on a failure either records
-- the attempt and asks for a retry, or writes a dead letter. scripts/dlq/ puts dead letters back into
-- the queue, and scripts/load-test/ sends signed events to a running gateway, with duplicates
-- among them, and judges the answers and the records that it finds afterwards.
--
-- Where each part is modelled:
--   Contracts            packages/shared/src/contracts/: the types of events, jobs and errors
--   Hmac                 packages/shared/src/crypto/hmac.ts, each function under its own name
--   Effects, Services    what the code runs on: asynchronous actions on a state that may throw,
--                        MongoDB's collections and BullMQ's queues
--   Api.Guard            gateway-api/src/middleware/signature-guard.ts (signatureGuard)
--   Api.Validator        gateway-api/src/validators/courier-event.schema.ts: each field's chain of Zod's
--                        methods, and the object schema
--   Api.Ingestion        gateway-api/src/controllers/ingestion.controller.ts, with the service, the
--                        audit repository and the route that it works with
--   Worker.Retry, Worker.Number
--                        gateway-worker/src/queue/retry-policy.ts, and the numbers that it works on
--   Worker.Classifier    gateway-worker/src/processors/error-classifier.ts
--   Worker.Records, Worker.Repositories
--                        gateway-worker/src/repositories/: the documents and the operations on them
--   Worker.Lifecycle     the moves of a record of processed_events, as a step relation, and what is
--                        invariant under them
--   Worker.ProcessEvent  gateway-worker/src/processors/process-event.ts (processEvent) and
--                        idempotency-coordinator.ts, and the job processor of
--                        gateway-worker/src/queue/worker.ts; in its child modules one attempt on
--                        every path (Outcome, Stages, Failure, Ends), the errors that it passes on
--                        (Raised), the services that answer (Reliable, Settling), and the
--                        deliveries of one job (Job, Deliveries)
--   Worker.Interleaving  the runs of several workers on one key, as a step relation whose steps are
--                        the operations of processEvent on the record, each made at once
--   Worker.Backlog       the jobs of the main queue worked off in its order by the job processor, and
--                        the ledger that they are to come to (Abstract)
--   Worker.Review        the review of dead letters in gateway-worker/src/repositories/
--                        dead-letter-events.repository.ts
--   Worker.IdempotencyKey
--                        gateway-worker/src/processors/idempotency-key.ts
--   Logging              packages/shared/src/logging/logger.ts
--   Service.Connection   connectMongo of the two config/mongo.ts, and parseRedisOptions of
--                        gateway-worker/src/main.ts
--   Service.Environment  gateway-api/src/config/env.ts, gateway-worker/src/config/env.ts, and the
--                        retry policy that gateway-worker/src/main.ts makes of them
--   Service.Start        gateway-api/src/main.ts and gateway-worker/src/main.ts (start)
--   Service.Shutdown     gateway-api/src/main.ts and gateway-worker/src/main.ts (shutdown,
--                        closeWithTimeout)
--   Signing              scripts/signing/generate-signed-event.ts (generateSignedEvent, and the command line)
--   Replay               scripts/dlq/replay-dlq.ts: its loop, and in Replay.Script the whole run; in
--                        Replay.Delivery the worker that takes the jobs
--   Indexes              scripts/db/init-indexes.ts (ensureIndexes)
--   LoadTest             scripts/load-test/: Config, Events, Pool and Run are run-load-test.ts, Report
--                        is reporter.ts, Thresholds is assert-thresholds.ts, Results the files of
--                        results that the first writes and the last reads; Events signs with Signing
--   Pipeline             the route, the queue and the job processor, one after the other: one request,
--                        and in Pipeline.System any number of them
--   Health               gateway-worker/src/health/health.ts, gateway-api/src/health/health.route.ts
--   Examples             the theorems applied to concrete requests, events and services
--
-- How the code is rendered:
--   A text is the list of its UTF-16 code units. Lower case is that of ASCII, in which all the
--   texts compared are written. An instant is a number of milliseconds, which its ISO text stands
--   for. The numbers of the retry policy (Worker.Number.Double) have a sign, may be Infinity or NaN and
--   become infinite where a double would; what is left out is their rounding: a finite one is an exact
--   fraction. So are the shares of a load test, and a timestamp is read exactly.
--   An asynchronous function is an action: a function from a state to a state and a result or a
--   thrown value. What was written before a throw stays written. Where the code awaits a service,
--   the service may throw, and a write that throws may have been made all the same.
--   A collection is seen through the document that each key has, which the unique indexes of
--   scripts/db/init-indexes.ts justify. Its operations are given by what they do to that view.
--   Recursion is structural, but for the digits of a number, which are made on fuel: one more than
--   the number, which is enough for all of them (decimal). Enough of the reading of a timestamp is
--   modelled to say from where a number is Infinity.
--
--   What runs at the same time is a step relation: the workers on one key by the operations on the
--   record, the consumers of a load test's pool and the two runs of shutdown that two signals start
--   by whole steps from one await to the next, since JavaScript runs one of them at a time.
--
-- Parameters, for code that is not of the repository: the keyed hash of node:crypto (a digest is a
-- nonempty sequence of bytes), Zod's schemas and methods of single values and its schemas of
-- environment variables, MongoDB with its queries, BullMQ, the file system, the outcomes of fetch, the
-- clock and the random numbers.
--
-- Not modelled: what is logged or printed, so also the listeners and the health timer that the worker
-- starts. In Worker.ProcessEvent no other run writes between the steps of a run.

pub mod Common
pub mod Contracts
pub mod Hmac
pub mod Effects
pub mod Services
pub mod Api
pub mod Signing
pub mod Health
pub mod Indexes
pub mod Logging
pub mod LoadTest
pub mod Service
pub mod Replay
pub mod Worker
pub mod Pipeline
pub mod Examples
