-- ===== src/Lib.antt =====
-- The proxy takes a request for a model, finds upstream targets for it, tries them and answers with
-- one response. This library models the parts that decide: which targets there are and in what
-- order, how failures are retried and penalized, which hosts and dynamic URLs are let through, what
-- is kept of a conversation, which keys and which tools are sent on. All of them are pure functions
-- here: a text is the list of its UTF-16 code units, a JavaScript `Map` is a list of entries in the
-- order of insertion (Base.Table), state is passed in and out, an exception is a value. Paths are
-- from the repository's root.
--
-- Values: what `JSON.parse` gives, and the tests on it (`typeof`, `Number.isInteger`, ...).
-- Errors: src/utils/errors.ts. `Thrown` is what a `catch` clause gets; classifyTransportError,
--   createErrorResponse, extractUpstreamMessage and handleTargetApiError are functions of it.
-- Routing: src/utils/routing.ts. Host has isInternalHost and isHostAllowed, Dynamic has
--   parseDynamicRoute and buildTargetUrl.
-- Ladder: the target retry ladder. Descriptor, Selection and Outcome are src/utils/target-retry.ts
--   (parseAuthTargets, validateEntry, dedupeAndCap, outcomeFromResponse, ...), Run is runTargetLadder
--   of src/index.ts: `rung` is its inner loop, `descend` the outer one. The world answers attempt `n`
--   on rung `i` by the oracle `respond i n`.
-- Conversation: src/utils/conversation-store.ts. `State` holds both maps; every read of the clock is
--   an argument of the operation that makes it.
-- Composite: aliases with several targets. Targets is getOrderedCompositeTargets and
--   getCompositeRouteCandidates of src/utils/config-loader.ts, Plans is getCompositeAliasMode,
--   resolveFusionPlan, resolveCoordinatorPlan and resolveCompositeWithDecision there, Shares and Order
--   are the effective shares and the order at run time of src/index.ts, Dispatch is the loop over
--   `compositeAttempts` there. A dispatch that fails lowers a share, and the next request's order
--   reads it. Shares are floating-point numbers in the source; Amounts gives their operations with the
--   laws that rounding keeps, and the tests use whole numbers, which meet the laws. A candidate's
--   identity (`===`) is a number.
-- Routes: the rest of the way from a model name to its upstream in src/utils/config-loader.ts.
--   Models is resolveModelRouteFromEntry and what it reads, Lookup is getModelConfig, Resolve is
--   getModelRouteConfig, which expands schedules and composite aliases with the functions of Schedule
--   and Composite.Targets.
-- Schedule: windowMatches and resolveScheduleTarget of src/utils/config-loader.ts.
-- KeyStore: src/utils/key-store.ts. Slots is collectKeySlots, Match is the choice of a stored
--   credential, Apply is readKeyBundle and both passes of applySystemKeyStore. A slot stands for one
--   place of the configuration. `rewritten` is a slot as the rewritten file has it.
-- BodyStore: the key store at the end of the program's own file. Crc, Tail and Records are the
--   format and the chain of records of src/utils/body-record.ts over the bytes of a file, Swap is
--   appendRecord there over a disk whose calls may fail, and Keys is createBodyKeyStore of
--   src/utils/body-key-store.ts.
-- Usage: src/utils/dashboard-stats.ts, the tokens that limits count. Events has the search and the
--   sums, Window the global window, Aliases the windows of composite aliases.
-- Tools: Shapes is src/utils/tool-shapes.ts, Blocklist is src/utils/tool-blocklist.ts with
--   isToolBlocked of src/utils/dashboard-stats.ts.
-- Credentials: src/utils/auth-headers.ts, the credentials in the headers of a request.
-- Coordinator: detectCoordinatorStage of src/utils/coordinator.ts.
-- Converters: the formats of Claude and OpenAI. Schema, Messages, Thinking and Request are
--   src/converters/claude-to-openai.ts, Response is convertOpenAIToClaudeResponse of
--   src/converters/openai-to-claude.ts, Events and Stream are createStreamTransformer of
--   src/converters/streaming.ts; a regular expression is a scan over the text.
--
-- Recursion and fuel. Loops over lists recur on the list. The eviction loop of Conversation has a
-- round of fuel for each entry of both maps, and each round removes one at least; a negative limit
-- is the case in which no fuel is enough. `decimal` has a round for each unit of its number, and a
-- number has fewer digits. The inner loop of the ladder recurs on the retries that are left. The
-- walk over the records of a file has a round more than the file has bytes, and each round goes to a
-- smaller offset; the binary search has one for each event. The expansion of aliases has a level
-- more than there are composite aliases that are not being expanded, and each level takes one of
-- them.
--
-- Parameters, for code that is not in the repository or for the world: JSON.parse (`parse`), `new
-- URL` (`is_url`), `Number` on texts (`number`), the answers of upstreams (`respond`, `run`), the
-- answers of the keychain (`Keytar`), `Math.random` (`draw`), and the clock. `Codec` is
-- JSON.stringify and JSON.parse with UTF-8, `Calendar` is `Date` in local time, `Faults` are the
-- failures of the file system, and `Decision` is the answer of the decision service. `stringify` is
-- that of src/utils/stringify.ts, JSON.stringify or a package in its place. `route_of` in Composite
-- is getModelRouteConfig, as Routes.Resolve gives it.
--
-- Not modelled: the converters for Gemini and Responses, token counts and usage, the handlers, the
-- reading and validation of configuration files, the pages and daily counters of the dashboard, the
-- command line and terminal interfaces, logging, and all input and output.
pub mod Base
pub mod Values
pub mod Errors
pub mod Routing
pub mod Ladder
pub mod Conversation
pub mod KeyStore
pub mod Tools
pub mod Composite
pub mod Schedule
pub mod Credentials
pub mod Coordinator
pub mod BodyStore
pub mod Usage
pub mod Routes
pub mod Converters
