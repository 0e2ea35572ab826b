-- ===== src/Lib.antt =====
-- The backend of LokLingo, a service that translates texts, PDF documents and images. A client posts a job;
-- the handlers store its payload and put it into a queue in Redis. Workers take jobs out of the queue, have
-- the text of a file extracted by a chain of OCR providers, cut the text into chunks, have each chunk
-- translated by a chain of translation providers, and store the result, or judge the failure: the job is
-- scheduled to be tried again, or it is dead. This library models these parts and the order in which they call
-- each other.
--
-- The parts, the files that model them, and the code:
--
--   Jobs/Normalize.antt: the text of a job before it is cut up (normalizeText, normalizePages in
--     backend/jobs/translate.go). Proofs: Normalize/Contents (the words that are kept).
--   Jobs/Chunks.antt: the units and chunks of a document (splitByWordBudget, buildChunkUnits, buildTextChunks,
--     reduceChunkWordRange in backend/jobs/worker.go). Proofs: Chunks/Budget (a page and its units),
--     Chunks/Grouping (units and their chunks), Chunks/Filled, Chunks/Resize.
--   Jobs/Translate.antt and Translate/Retry: the translation of a chunk (translateChunk, and
--     translateWithRetry and translateWithChunkTimeout, in backend/jobs/worker.go). Contexts, timers, the
--     semaphore and the service are the record Runtime over a state of any type. Proofs: Translate/Backoff,
--     Translate/Alignment, Translate/Failing (a service that never answers).
--   Jobs/Job.antt: the job and the queue's counters (backend/jobs/job.go, backend/jobs/config.go).
--   Jobs/Failures.antt: a job that failed (handleFailedJob, retryDelayForAttempt, the load of the queue and
--     the concurrency that it allows, in backend/jobs/worker.go), over the record StoreApi, which is the
--     interface Store of backend/jobs/store.go. Failures/Kinds has the kinds of errors and the delays. Proofs:
--     Failures/Delay, Load, Verdict, Rescheduled, Sources.
--   Jobs/Redis.antt: the server and the codecs as the record Redis, whose fields are the commands and what the
--     Redis documentation and encoding/json say of them. Examples/Memory.antt is a server in memory that fills
--     the record.
--   Jobs/Store.antt: the methods of redisStore in backend/jobs/store.go, written as actions (Store/Trips):
--     each round trip succeeds or is cut, before or after the server has done the command. Store/DeadLetters
--     has ListDead and ReplayDead. Proofs: Store/Keeps (rules by the shape of an action), Store/Kept (the
--     predicate and the single commands), Store/Safety and Store/Intake (one method), Store/Calls (sequences
--     of calls, an indexed data type), Store/Recovery (RecoverStale). Store/Texts has the translation cache
--     and the chunk checkpoints, over the record TextKeys, the commands on keys that hold a text with what the
--     Redis documentation says of SCAN. Proofs: Texts/Scans (the loop of ClearChunkCheckpoints),
--     Texts/Checkpoints, Texts/Cache. Examples/Texts.antt fills the record.
--   Jobs/Loop.antt: a round of Worker.Run. `process` and the clearing of chunk checkpoints are its arguments.
--     Jobs/Failures is instantiated with the store of Jobs/Store here. Proofs: Loop/Waiting, Loop/Others, and
--     Loop/Settled, which puts the model of `process` in the place of the first argument.
--   Jobs/Process.antt: Worker.process in backend/jobs/worker.go, from the job that was taken to its end.
--     Process/State has the record Outside, through which it reaches the store, the checkpoints, the OCR
--     client, the PDF reader, the renderer, the files and the clock, and the steps that change the job
--     (setJobStage, stageNotifierFor). Process/Extract is the text of a PDF, Process/Document the batches and
--     pages of a document, with Document/Chunk (a chunk and its checkpoint), Process/Picture the blocks of an
--     image, with Picture/Texts, Picture/Settings (its options) and Picture/Rendering. Proofs: Process/Ends
--     and its children (every run ends, and says how), Keeps (invariants of the loops over the chunks), Frame
--     and its children (what stays as it was: Frame/Pipeline is the frame of a whole run, for any relation of
--     the job to the one that was taken), PageCount and its children (the pages processed), Sources (the file
--     of a PDF job), Answers, Batches, Pages, Content and Outcomes (what the translated text is made of).
--   Jobs/Options.antt: the options of NewWorker.
--   Services/Health.antt, Services/Orchestrator.antt with Orchestrator/Errors and Orchestrator/Retry: the
--     health scores, the failover of Translate, the errors that are worth another attempt, and the retries on
--     one provider (backend/services/orchestrator.go), over the record Engine, which holds the providers,
--     contexts, clock and notifications. Proofs: Health/Order, Orchestrator/Rounds (induction on the two
--     loops), Answers, Tries, Counts, Range.
--   Services/Registry.antt, Services/Mock.antt: the registry of providers and the provider that replays
--     answers (backend/services/providers).
--   Ocr/Chain.antt: the chain of OCR providers (backend/internal/services/ocr_provider_chain.go), over the
--     record of the recognisers. Chain/Names has their names and order. Proofs: Chain/Selection,
--     Chain/Fallback (a provider that answers), Chain/Budget.
--   Observability/Lifecycle.antt: the ring of lifecycle events and the pipeline counters
--     (backend/internal/observability/lifecycle.go). Proofs: Lifecycle/Recent.
--   Middleware/Gate.antt, Middleware/Auth.antt: the cap on requests in flight and the tokens of the write and
--     internal routes (backend/middleware). Proofs: Gate/Cap.
--   Handlers/Validation.antt: the languages, texts and modes of a request (backend/handlers/validation.go),
--     without the checks of uploads, which read files. Proofs: Validation/Pattern, Validation/Languages.
--   Overlay/Options.antt: the options of the renderer (backend/internal/services/overlay/layout.go).
--   Overlay/Script.antt, Overlay/Wrap.antt, Overlay/Layout.antt: the scripts of a line, the lines of a text at
--     a width, and the font size that fits a box (font.go, draw.go, util.go of
--     backend/internal/services/overlay), over the record Typeface. Proofs: Script/Segments; Wrap/Spaces,
--     Wrap/Content and Wrap/Rebalance (the runes are kept), Wrap/Fit (the binary search), Wrap/Widths,
--     Wrap/Lines; Layout/Sizes, Layout/Largest, Layout/Total.
--   Overlay/Boxes.antt, Overlay/Render.antt: the boxes of the blocks, and the blocks that
--     DrawTextOnImageWithOptions draws (util.go, layout.go and render.go of the same package), over the record
--     Canvas. Proofs: Render/Apart, Render/Inside. Process/Picture calls the renderer as an operation of
--     Outside.
--   Go.antt: what the code uses of the Go language and of its standard library, with the laws of its text
--     tests in Go/Equal. Prelude.antt: shared tests, lists, integers. Examples.antt: tests, and the theorems
--     at concrete inputs.
--
-- Conventions. A slice is a list, a string a list of code points, an error return the sum Result, and a
-- pointer that may be nil an Option. State is passed on explicitly. A time.Duration is a number of
-- nanoseconds, and int is a natural number or, where the code can go below zero, ℤ; the sums here stay far
-- below 2 ^ 63, so the wrap of int64 is not written. The health scores are numbers of the record Float64, with
-- what IEEE 754 says of its comparisons; a progress or a confidence is a whole number of percents or
-- ten-thousandths, and the product with 0.8 that shrinks a chunk is n * 4 / 5. A share of 0.45 of an area is
-- compared after both sides are multiplied by 100. In the renderer a number of pixels that is not positive is
-- 0, the corner of an image is 0, 0, and the rounded products of a font size are operations of the typeface.
--
-- Fuel. splitByWordBudget runs on the number of its words, and each of its steps takes at least one word when
-- the budget is positive. translateChunk runs on the number of its units, and each half of a split has fewer
-- units than the whole. The batches of a document run on the number of its units, and each batch takes one or
-- more. The cutting of a word runs on its runes, and each cut takes at least one; the search in fitWordToWidth
-- on the number of runes between its bounds; fitTextLayout on the number of sizes from the largest to the
-- smallest. The loop of ClearChunkCheckpoints runs on the number of SCAN calls that are left, which TextKeys
-- says becomes less as keys are only removed. All other loops are structural on the list that they walk or on
-- the count of the attempts that are left.
--
-- Concurrency. The calls of a store are a sequence in any order, with any clock and any cut trips between
-- them; the commands of two methods are not interleaved. The goroutines of a batch are steps in the order of
-- their chunks, and a change of stage that the service asks for is made when its chunk ends. The handlers of
-- the gate are steps, of which c.Next() separates the first from the last.
--
-- Not modelled: the painting of pixels, the fonts and the reading and writing of images; the expiry of keys in
-- Redis; uploads, the configuration, the provider counters, the log handler, the HTTP handlers and clients,
-- and the program's entry. They are I/O, or settings, or have no part in the queue, the retries and the
-- translation. Latencies and log lines are left out.
pub mod Prelude
pub mod Go
pub mod Jobs
pub mod Services
pub mod Observability
pub mod Ocr
pub mod Middleware
pub mod Handlers
pub mod Overlay
mod Examples
