-- ===== src/Lib.antt =====
-- The Ironflow JavaScript SDK: the parts whose logic decides what is delivered, replayed or refused.
--
-- OfflineQueue (packages/browser/src/queue): the offline write queue of the browser package.
--   Types   types.ts, the records and the reports.
--   Db      db.ts, the two IndexedDB object stores as lists in key order; each method is one
--           transaction. `trimDeadLettered` reads and deletes in two transactions, which are one here.
--   Queue   the state of the class OfflineQueue in queue.ts, its options, its counters with their
--           race guard, the verdict on the head of the outbox, and `classifyFailure`.
--   State   one tab: the queue, the database, and every suspended call. A suspended `drain` is a
--           constructor of `Drainer`; suspended calls of `enqueue`, `retry` and `discard` are lists and
--           numbers of the record `System`. `accepted` and `lettered` are a history that the code does
--           not keep: what the server accepted, and what was moved to the dead letters.
--   Enqueue, Drain, Letters   the methods, one function for each piece of code between two awaits.
--   System  the events (calls, IndexedDB's answers, the lock, the server, the login, the timers) and
--           `step`; a schedule is any list of events, and an event that does not fit changes nothing.
-- Each failure of IndexedDB is an event of its own. A transaction that commits and the code behind
-- it are two steps, so that anything may run in between; an abort and the handler behind it are one.
-- Counters are natural numbers; the invariant shows that no decrement meets a zero. The model is of
-- one tab: what a second tab writes to the same database, the BroadcastChannel, and the watchers and
-- subscribers themselves are left out, and so is the text of the error messages.
--
-- The drain loop needs no fuel: it is one step for each await.
--
-- Durable (packages/node/src): the steps of a durable function in one invocation.
--   Text      text as character codes: comparison, replacement, prefixes, the form of a number.
--   StepId    internal/context.ts, the escaping of a step's name and the ids of scopes and steps.
--   Context   internal/context.ts and YieldGuard of internal/errors.ts: one scope, the function's own
--             or a parallel branch's, in one record with what all scopes of the invocation share.
--             `generateStepId` is `generated_id`, the answer, and `counted`, the context after it.
--   Step      step.ts, the operations of the step client: each answers a `Result`, what it returns
--             or throws, and the context after it.
--   Compensate  executeCompensations of step.ts.
--   Program   a function of the application: any tree of operations, each chosen by what the
--             earlier ones answered. It may catch errors and go on after a yield.
--   Parallel  executeParallel of step.ts: a branch's start, its end, the end of a race, and the await of
--             all branches are events. What a branch does between its start and its end is not
--             looked into: it ends in what its function returns or throws, with what the guard of its
--             scope says then. Slots and Sound are the invariant of its loop, Limit and Complete what follows.
--   Legacy    the lookup of ids from before escaping; Distinct, the ids of a run's steps.
-- A value of type `unknown` is a Payload: undefined, null, or JSON text with its truth value. What a
-- step's function does is an Outcome: it returns, throws (a timeout included) or signals a yield. An
-- error that a row keeps as JSON text is the value it stands for. Left out are times and
-- log output, executeMap, which is a call of executeParallel, a step function that calls the step
-- client itself, and the request that publish sends.
--
-- Upcaster (packages/core/src/upcaster.ts, isRedacted of utils.ts): the registry of upcasters, by
-- event and version, and the chain that brings data to a later version.
--   Chain       the chains that `upcast` follows, and when its loop ends.
--   Registered  what a registration changes.
-- An upcaster that throws answers none, and `upcast` lets it out as `threw` with the version. The
-- text of errors is left out; deepMerge and the other helpers of utils.ts are not modelled.
--   Definitions  EventDefinitionRegistry of event-definition.ts; Migrated, what it makes of data.
--
-- Agent (packages/agent/src): what the coding agent may do without asking.
--   Shell     parseWords and parseCommand of bashPolicy.ts. A text is its UTF-16 codes; the loop's index
--             is what is left of the command, and a branch of its body is a function of its own.
--   Paths     sandbox/contain.ts, and `inside` and `enterable` of bashPolicy.ts. Paths are POSIX: an
--             absolute path is a list of names, the innermost first, which may be `..` where
--             resolveInside takes it raw; the empty names between slashes are left out. An error
--             is `none`. Leads is where a path leads, told by the file system.
--   Specs     SPECS and FIND_PRIMARIES. A table is an object literal, in which a lookup also finds what
--             every object inherits.
--   Flags     splitArgs and the loop of findReadOnly.
--   Glob      expand: the pattern as the code's regular expression reads it, the sorted names.
--   ReadOnly  isReadOnly; Contained, Searched and Walk, what an approved command reads.
--   Gate      PermissionGate of permissions.ts: the events are a call of `check` up to its first await,
--             the answer of isReadOnly, the user's answer, and cancelPending. A call that waits is a
--             member of a list. What the user and isReadOnly have allowed is a history that `note`
--             writes from the answers to open prompts, and the gate does not read. A gate without a workspace
--             is one for which isReadOnly answers false; a prompt that fails counts as dismissed.
-- The file system is the parameter FileSystem, which answers as node:fs/promises does, and does not
-- change while a command is judged. Some theorems ask that realpath answers paths without `..`, as it
-- documents. The parse runs on as much fuel as the command has characters, which is enough, since a
-- round takes at least one; links are followed for the 40 hops of the code.
-- What a prompt shows (titleFor, contentFor, mcpLabel, toolKind) and wrapTools are left out.
--
-- Dedup (packages/node/src/command-dedup.ts): the callers of tryClaim, finalize and release on one
-- command. Each await is an event, with what the network does to the request: it is answered, or
-- fails before or behind the change. The key-value bucket is the parameter Bucket, whose laws are its
-- contract: create fails on an entry and else stores it, put stores, delete removes. An entry's author
-- is a name for the claim's content, which only `isOwner` can look into. Not modelled: the expiry of
-- entries, the encoding of keys and values, finalize or release by a caller that has not won.
--   Exclusion  one winner at a time; Claim, the race as an atomic claim; Rounds, the rounds end.
--
-- Projection (packages/node/src/projection-runner.ts): the runner of a projection.
--   Batch     processManagedBatch, on events whose partition has been read. The handler answers `none`
--             where it throws, `load` where a request fails; `lost` and `fails` say of which saves the
--             lease is found lost and the request fails. The sort is stable, as the language has it.
--   External  processExternalBatch, with `lost` and `throws` for each event.
--   Runner, Stream  the streaming mode: enqueueEvent, enqueueMark, scheduleFlush, flushPending and the
--             end of a stream in streamLoop, as events between awaits. `chain` counts the flushes that
--             have not settled, `blocked` those among them that somebody awaits. What was received,
--             committed and saved is a history, and `waiting` holds the frames behind `pending`.
--   Lease     runLeased, acquireUntilGranted, startRenew, stopRenew, releaseLease, dropGrant and stop.
--             A grant is the AbortController leaseLost, which has a number here; the timers and the
--             requests of renews carry it. `leaked` are timers that are armed and no longer named, and
--             `fenced`, the epochs that the server answered to be lost, is a history. Times are left out.
--   Envelope  encodeConnectEnvelope and the reader of the stream. The loop over the buffer runs on as
--             much fuel as the buffer has bytes, which is enough, since an envelope takes five.
-- Any failure that the server reports comes in as the end of the stream: that some of them end the
-- runner is not modelled in Stream, nor is the stop; the polling mode and the JSON are left out.
-- A stream that has ended and one that has failed reconnect alike.
--
-- Worker (packages/node/src/worker.ts): a worker that takes jobs from the server.
--   Checkpoint  startCheckpointer: a step that is recorded, the timer, the start and the answer of a
--             checkpoint, the abort, and `finish` up to and behind its await are events. Steps are of
--             any type, and which of them JSON can encode is a parameter. What was taken is a history;
--             a request that fails may have reached the server, which no client can know.
--   Jobs      start, connect, pollForJobs, processJob, drain and stop: calls, answers and pauses are
--             events. A job of an answer is its key in activeJobs, the invalid ones left out, and an
--             execution a number with that key, since the `finally` behind it compares objects.
-- Delays, the texts of updates, heartbeats, what an execution does between its start and its end, a
-- worker that has projections only, and worker-streaming.ts are left out.
--
-- `upcast` runs as many rounds as there are versions between the two, which is enough where every
-- upcaster raises the version; `unfinished` says that the loop would go on. `decimal` runs on fuel,
-- one more than the number, which has fewer digits than that.
pub mod Prelude
pub mod OfflineQueue
pub mod Durable
pub mod Upcaster
pub mod Agent
pub mod Dedup
pub mod Projection
pub mod Worker
