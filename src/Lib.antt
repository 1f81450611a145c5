-- ===== src/Lib.antt =====
-- The core logic of IDAES, a service that analyses documents with a language model, and of the
-- hardware services beside it.
--
-- A document is split into chunks (internal/extractors/intelligent_chunking.go), a language model is
-- asked about each (internal/extractors/optimized_extractor.go), its answers are cleaned until they
-- are JSON (internal/extractors/json_cleaner.go), parsed and validated
-- (internal/extractors/response_processor.go, internal/extractors/entity_validator.go), and an
-- extraction that fails is tried again and then replaced by a simpler one
-- (internal/extractors/retry_fallback.go). A pipeline of stages takes documents through the extractors,
-- the embedding and the storage (internal/analyzers/pipeline.go), and an orchestrator hands requests to
-- pipelines (internal/analyzers/orchestrator.go). Workers do this, which a supervisor starts and replaces
-- (internal/analyzers/worker_supervisor.go), in contexts with timeouts
-- (internal/analyzers/timeout_manager.go), which a coordinator ends
-- (internal/analyzers/cancellation_coordinator.go), and metrics events go to subscribers
-- (internal/analyzers/metrics_broadcaster.go). Beside the analysis stand the service for the pins of
-- a board (internal/services/gpio) and the drawing on a display (internal/services/display).
--
-- Base: the shared names. Base/Tests has the Boolean tests of numbers, Base/Lists lists that native
-- numbers measure and index, Base/Text byte strings and what the code uses of package strings (on
-- ASCII texts), Base/TextLaws its laws, Base/Best lists with the best
-- element for each key, Base/Table maps from texts, Base/Tally sums over lists, Base/Int signed integers.
--
-- Chunking: ChunkingConfig, DocumentChunk and the other types are in Chunking/Types.
-- deduplicateAndSort is Chunking/Boundaries, the search for boundaries, keywords, sections and stop
-- words Chunking/Text, createChunk, findOptimalChunkEnd and the loops of the four strategies with
-- ChunkDocument Chunking/Split, the cross references Chunking/CrossRefs. The loops run on fuel; a run
-- with none left is `none`. ChunkDocument gives the length of the document and one more, which is enough
-- where each round goes on by a byte at least: where the minimal size is positive. The keys of the map
-- in deduplicateAndSort come in the order of their insertion.
--
-- Cleaner: the repairs of removeMarkdownBlocks, removeExplanatoryText, fixCommonJSONIssues, fixQuotes,
-- removeJSONComments and finalCleanup are in Cleaner/Repair, each regular expression written as the
-- function that it stands for; ValidateJSONStructure and extractJSONStructure are in Cleaner/Structure,
-- CleanResponse, ExtractMultipleJSONObjects and CleanResponseWithStats in Cleaner/Clean.
--
-- Retry: RetryStrategy and RetryableExtractor.Extract are in Retry/Strategy, FallbackExtractor in
-- Retry/Fallback. The extraction function is a parameter: for the retries a function of the number of
-- the attempt, for the fallbacks a function of the input. Whether the context is done after a wait is a
-- parameter too. The backoff and the jitter of GetDelay, which compute in floating point, are parameters
-- in nanoseconds. A method that reads a field of a nil result has the answer `panics`.
--
-- Broadcast: MetricsBroadcaster. Channels and events are numbers; what Serve selects, and the receives
-- of the subscribers, are a list of happenings.
--
-- Gpio: the types of internal/services/gpio/interfaces.go are in Gpio/Types, Service of
-- internal/services/gpio/service.go in Gpio/Service, with the records that two maps share as cells of a
-- store; Gpio/Debounce has the loop of monitorPin, of which the ticks are given.
--
-- Display: DisplayBuffer of internal/services/display/display_buffer.go, its colours in Display/Colour
-- and its drawing in Display/Buffer, but for lines. An image is a function of a column and a row. A
-- shift of bits is a product or a quotient, and uint8 and uint16 a remainder.
--
-- Validation: EntityValidator. The types are in Validation/Types, the checks of a text by the type of its
-- entity in Validation/Formats, validateSingleEntity, canAutoFix and autoFixEntity in Validation/Single,
-- deduplicateEntities in Validation/Unique, sortEntitiesByConfidence in Validation/Order,
-- ValidateAndFilterEntities and the reports on its result in Validation/Filter. An error stands for its
-- text before it is formatted; time.Parse is a parameter. The pointers in a slice are taken to be
-- different, and MaxEntities not negative.
--
-- Response: ResponseProcessor. The types are in Response/Types, parseJSONResponse,
-- tryAlternativeParsing, enrichExtractionResult and updateQualityMetrics in Response/Enrich,
-- ProcessResponse and ProcessResponseWithRetry in Response/Process, which call the modules Cleaner and
-- Validation as the code does. encoding/json is a parameter, and so is how errors are joined to a text.
-- Scores are fractions and not floating-point numbers.
--
-- Supervisor: WorkerSupervisor of internal/analyzers/worker_supervisor.go. The map of the workers is the
-- list of its keys; a send that waits is `none`; the events that the monitors of the workers send while
-- Start runs, and what happens while a failed worker is shut down, are parameters; the int32 counter of the ids wraps around, the other
-- counters do not. Supervisor/Requests has the channel of requests, the checks of health and the view of
-- the pool, Supervisor/Stop the three loops that a call of Shutdown may end.
--
-- Timeouts: TimeoutManager. A context of Go is its deadline and the cancel functions that end it.
-- CreateDerivedTimeout reads the clock twice, at two moments. The
-- operations that it runs are in Timeouts/Operations, which uses Coordinator as MonitorOperation does.
--
-- Coordinator: CancellationCoordinator of internal/analyzers/cancellation_coordinator.go. What happens to it
-- is a list of happenings, the last one first, and the results of the components a list of arrivals. A
-- goroutine that starts after a shutdown while none runs may meet the wait of the shutdown and panic, which
-- counts as a panic.
--
-- Optimized: OptimizedExtractor of internal/extractors/optimized_extractor.go, which sends the chunks of
-- Chunking to an extractor that is a parameter. Its semaphore is its capacity: none of the goroutines gets
-- through with 0, all do with 1 or more. Its merge and the reference of Validation/Unique are both
-- Base/Best, lists with the best element for each key.
--
-- Config: internal/config/config.go, its types, its defaults in Config/Default, Validate in
-- Config/Validate and the conversions to the settings of the extractors in Config/Convert.
--
-- Pipeline: AnalysisPipeline of internal/analyzers/pipeline.go. The types are in Pipeline/Types, the choice
-- and the use of extractors in Pipeline/Extraction, what each stage does with a document in
-- Pipeline/Rounds, the channels and goroutines as steps in Pipeline/Flow, the registration and the
-- configuration in Pipeline/Setup, AnalyzeDocument in Pipeline/Analyze; Pipeline/Callers and Pipeline/Stale are about its callers. The extractors,
-- the storage manager and the client of the model are functions of the deadline of their context; a map is
-- the list of its entries in the order in which a range meets them. The work of a goroutine on a document
-- is one step and its sending another, so that an interleaving is a list of steps. Pipeline/Places weighs
-- the documents by the place where they are, which gives both the account of the requests and the number
-- of steps that remain. The counts of successes and failures are written outside the lock; an increment
-- that is lost where two storage workers write at once is not among the steps.
--
-- Orchestrator: AnalysisOrchestrator of internal/analyzers/orchestrator.go, its coordinator, AddPipeline and
-- Start in Orchestrator/Coordinate; SubmitRequest, the workers and the responses are in
-- Orchestrator/Requests with Stop and what can happen after Start, the views and the health checks in
-- Orchestrator/Views. Whether the coordinator answers in time is a parameter, and so is what a pipeline
-- answers. A second call of Start, which starts a second coordinator, is not among what can happen.
--
-- Not modelled: numbers of 64 bits do not wrap around, sizes of a configuration are taken not to be
-- negative, texts are ASCII, confidences, scores and duty cycles are in thousandths, logging is left
-- out, and so are time and goroutines but for the orders written above. The web server, the storage,
-- the clients, the prompts and the other parts of the repository are not modelled.
pub mod Base
pub mod Chunking
pub mod Cleaner
pub mod Retry
pub mod Broadcast
pub mod Gpio
pub mod Display
pub mod Validation
pub mod Response
pub mod Supervisor
pub mod Timeouts
pub mod Coordinator
pub mod Optimized
pub mod Config
pub mod Pipeline
pub mod Orchestrator
