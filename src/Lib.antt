-- ===== src/Lib.antt =====
-- A verification library of suprclaw, a personal agent in Go: its allow lists, its message routing,
-- its model fallback, its message bus, its sessions and their files, the prompts and their budget,
-- its files, the splitting of its answers and the decisions of its heartbeat, as functions and step
-- relations with theorems about them.
--
-- The parts and how they interact. A message comes from a chat channel, which drops it unless
-- `MatchAllowed` admits its sender by some entry of the allow list, and goes through the message
-- bus. `ResolveRoute` picks the agent that answers it, by the bindings of the configuration, and
-- builds the session key under which the conversation is stored. Two implementations of
-- `SessionStore` keep that conversation, the session manager in memory and the JSONL back end in
-- two files. `Router.SelectModel` decides from features of the message whether a light model
-- answers. `FallbackChain.Execute` calls the candidates that `ResolveCandidates` lists, one after
-- the other, reads each error by `ClassifyError`, and keeps providers that failed in cooldown. What
-- a candidate is sent is built by `BuildMessages` of the stored conversation, which
-- `sanitizeHistoryForProvider` repairs; `compactToBudget` prunes it, sums it up or trims it where
-- its estimate is over the budget of the turn, and `sanitizeDispatchMessages` drops empty answers
-- at the end. The heartbeat runs the agent at intervals without a message and suppresses an answer
-- that only acknowledges it. `SplitMessage` cuts a long answer into messages of a channel. The
-- files that come with messages are known to the media store until their scope is released.
--
-- Files, with the code that each models (paths from the root of the repository):
--   Prelude                     equality tests, lists, texts, the order on strings, integers
--   Prelude/Unicode             the tables of package unicode, as a record of functions with laws
--   Prelude/Scan                bufio.Scanner with ScanLines
--   Prelude/Regexp              the regular expressions of the error patterns
--   Routing/AgentId             pkg/routing/agent_id.go: NormalizeAgentID, NormalizeAccountID
--   Routing/SessionKey          pkg/routing/session_key.go: Build..., Parse..., Is...SessionKey, identity links
--   Routing/Route               pkg/routing/route.go: ResolveRoute and its seven tiers
--   Routing/Features            pkg/routing/features.go: ExtractFeatures
--   Routing/Classifier          pkg/routing/classifier.go: RuleClassifier.Score
--   Routing/Router              pkg/routing/router.go: SelectModel
--   Identity                    pkg/identity/identity.go: canonical ids, MatchAllowed
--   Providers/Message           pkg/providers/protocoltypes/types.go: messages and tool calls
--   Providers/Failover          pkg/providers/types.go: reasons and failover errors
--   Providers/Cooldown          pkg/providers/cooldown.go: CooldownTracker
--   Providers/ErrorClassifier   pkg/providers/error_classifier.go: ClassifyError and its patterns
--   Providers/ModelRef          pkg/providers/model_ref.go: ParseModelRef, NormalizeProvider, ModelKey
--   Providers/Candidates        pkg/providers/fallback.go: ResolveCandidates, ResolveCandidatesWithLookup
--   Providers/Fallback          pkg/providers/fallback.go: Execute, ExecuteImage
--   Sessions/Manager            pkg/session/manager.go: SessionManager in memory
--   Sessions/Files              pkg/session/manager.go: Save, loadSessions
--   Sessions/Spec               pkg/session/session_store.go: what SessionStore promises, as a conversation
--   Sessions/Backend            pkg/session/jsonl_backend.go: JSONLBackend
--   Sessions/Agreement          the two implementations of SessionStore side by side
--   Memory/Disk                 pkg/memory/jsonl.go: the files, readMeta, writeMeta, readMessages, countLines
--   Memory/Store                pkg/memory/jsonl.go: the methods of JSONLStore
--   Memory/Interface            pkg/memory/store.go: Store, as a record of operations
--   Memory/Format               an encoding of messages and metadata for the runs of the tests
--   Bus                         pkg/bus/bus.go: publish and Close, as a step relation
--   Agent/History               pkg/agent/context.go: sanitizeHistoryForProvider
--   Agent/Messages              pkg/agent/context.go: BuildMessages
--   Agent/Float                 float64 where the budget uses it, as a record of functions with laws
--   Agent/Budget                pkg/agent/context_budget.go: the guard and the budget of a turn
--   Agent/Budget/Estimate       pkg/agent/context_budget.go, loop.go: the estimate of the input
--   Agent/Budget/Order          pkg/agent/context_budget.go: orderCandidatesByContextWindow
--   Agent/Budget/Prune          pkg/agent/context_budget.go: pruneLowValueHistoricalPayloads
--   Agent/Budget/Emergency      pkg/agent/context_budget.go: emergencyTrimMessages
--   Agent/Budget/Compact        pkg/agent/context_budget.go: compactToBudget, decideContextBudgetPrecheck
--   Agent/Dispatch              pkg/agent/loop.go: sanitizeDispatchMessages, ensureNonSystemDispatchMessage
--   Agent/Summary               pkg/agent/loop.go: summarizeSession, summarizeBatch, retryLLMCall
--   Media/Store                 pkg/media/store.go: FileMediaStore
--   Channels/Split              pkg/channels/split.go: SplitMessage
--   Heartbeat/Schedule          pkg/heartbeat/schedule.go: AdaptiveInterval, IsIdleWindowActive
--   Heartbeat/Policy            pkg/heartbeat/policy.go: StripHeartbeatToken, IsEffectivelyEmpty
-- A file X with the definitions has its proofs in the files of the folder X. The files Tests run
-- the definitions and apply the theorems to concrete data.
--
-- Correspondence. A function keeps its name, in snake case; a struct is a record with its fields,
-- and a method takes the struct and returns it with its result. A pointer that may be nil is an
-- option. A string is the list of its code points, and `len` counts bytes where the code's limits
-- are about bytes; ids are ASCII where their length is tested. A Go map is a function, or the list
-- of its entries where `range` visits it, in the order of the visit. Every method that takes a lock
-- is one step. The goroutines of the message bus are a relation of single steps, in which one
-- channel and the counts of publishers are the state. A disk is the content of the files by their
-- names; `encoding/json` is the parameter `Json`, or `SessionJson` for a session, which reads back
-- what it wrote except the field of a tool call that is not written, and a crash is the disk after
-- some of the writes of an operation or after the first bytes of an append. The clock and the
-- context are readings of an environment: a time is a number of nanoseconds, the zero time is 0,
-- and a difference saturates as `time.Sub` does. The call of a provider is a function of that
-- environment, which may also change the tracker, as concurrent chains do. Scores are in hundredths
-- of the source's floating-point numbers; the ratios of the budget are values of a parameter
-- `Float64`, exact below 2^53. The sums of the budget and the interval of the heartbeat wrap at 64
-- bits; other counts do not overflow. Others may change a session while it is summed up, as no lock
-- is held then. A model that sums up a conversation is a function of a prompt that moves a state
-- on. Every loop is a recursion on a list or a number, the regular expressions by recursion on the
-- text, except the loop of `SplitMessage`, which does not end on every text: it runs on fuel, one
-- unit for an iteration.
--
-- Not modelled: failures of the operating system, network and processes; the migration of old
-- sessions; the turns of the agent loop around the parts above, the adapters of chat services,
-- tools, commands and web console; `IsWithinActiveHours`, which rests on the time zone database;
-- log messages and the wording of errors.
pub mod Agent
pub mod Bus
pub mod Channels
pub mod Heartbeat
pub mod Identity
pub mod Media
pub mod Memory
pub mod Prelude
pub mod Providers
pub mod Routing
pub mod Sessions
